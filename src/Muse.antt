-- ===== src/Muse.antt =====
-- memoria/main_memory.c: the memory manager MUSE.
pub mod State
pub mod Run
pub mod Frames
pub mod Clock
pub mod Marcos
pub mod Metadata
pub mod Programs
pub mod Crecer
pub mod Malloc
pub mod Free
pub mod Copias
pub mod Lectura
pub mod Escritura
pub mod Mapas
pub mod Sincronia
