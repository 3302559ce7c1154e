-- ===== src/Compression/DataBlock.antt =====
-- libakumuli/storage_engine/compression.cpp: DataBlockWriter and DataBlockReader, the block format of a
-- leaf. A block is a header (version, number of chunks, number of values in the tail, series id), the
-- chunks of sixteen compressed points, and a tail of plain points.
pub mod Writer
pub mod Reader
pub mod Header
pub mod Content
pub mod Invariant
pub mod Chunk
pub mod Tail
pub mod Put
pub mod Commit
pub mod Reads
pub mod RoundTrip
mod Examples
