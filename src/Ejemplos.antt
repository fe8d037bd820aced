-- ===== src/Ejemplos.antt =====
-- Concrete states and inputs, and the theorems applied to them.
pub mod Maquina
pub mod Mapas
pub mod Muse
pub mod Sac
pub mod SacNodos
pub mod SacArchivos
pub mod Suse
pub mod Wire
