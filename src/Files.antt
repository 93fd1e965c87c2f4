-- ===== src/Files.antt =====
-- Paths, files and directories of a mounted file system (src/famfs_lib.c).
pub mod Path
pub mod Create
pub mod Mkfile
pub mod Mkdir
pub mod Session
pub mod Shadow
