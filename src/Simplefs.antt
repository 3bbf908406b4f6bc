-- ===== src/Simplefs.antt =====
-- CS236-Spring-2025-Labs/file-system: the simple file system.
pub mod Image
pub mod Codec
pub mod State
pub mod Disk
pub mod Consistent
pub mod Files
pub mod Transfer
pub mod FsMain
pub mod Tests
