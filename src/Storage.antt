-- ===== src/Storage.antt =====
-- libakumuli/storage_engine: where blocks are kept. Blocks in memory, volumes, and block stores.
pub mod IoVecBlock
pub mod MetaVolume
pub mod Volume
pub mod FileStorage
pub mod MemStore
pub mod Checksum
pub mod BlockCache
pub mod Examples
