-- ===== src/Ddfs.antt =====
-- deduplicating-fs/src: the parts of ddfs that are modelled.
pub mod Ffswrite
pub mod History
pub mod Blockmap
pub mod Cluster
pub mod Newfs
pub mod Table
pub mod Tests
pub mod Write
