-- ===== src/Wire.antt =====
-- What travels between the processes: utils_suse/libraries.c (`serializar_…`) and
-- utils_suse/message.c.
pub mod Bytes
pub mod Serial
pub mod Message
