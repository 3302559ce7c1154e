-- ===== src/Compression.antt =====
-- libakumuli/storage_engine/compression.h and compression.cpp.
pub mod Base128
pub mod VByte
pub mod DeltaDelta
pub mod Predictor
pub mod Fcm
pub mod Chunks
pub mod DataBlock
mod Examples
