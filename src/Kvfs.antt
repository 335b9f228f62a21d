-- ===== src/Kvfs.antt =====
-- key-value-fs: the flat file system of 4 KiB blocks named by 160-bit keys.
pub mod Bytes
pub mod Layout
pub mod Kernel
pub mod Time
pub mod Vfsops
pub mod Vnops
pub mod Mkfs
pub mod Remount
pub mod Counted
pub mod Store
pub mod Tests
