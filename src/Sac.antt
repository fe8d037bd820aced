-- ===== src/Sac.antt =====
-- filesystem/: the file system SAC, its blocks, its nodes and the requests to its server.
pub mod Disco
pub mod Bloques
pub mod Vacios
pub mod Distintos
pub mod Agregar
pub mod Ordenes
pub mod Nodos
pub mod Espacio
pub mod Borrar
pub mod Lectura
pub mod Escritura
pub mod Servidor
