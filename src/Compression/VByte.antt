-- ===== src/Compression/VByte.antt =====
-- libakumuli/storage_engine/compression.h: VByteStreamWriter and VByteStreamReader at TVal = u64.
-- A writer is its region's size and the bytes from `begin_` to `pos_`, so that `pos_` moves with the
-- list; a reader holds the bytes from `pos_` to `end_`.
pub mod Writer
pub mod Reader
pub mod Bytes
pub mod Writes
pub mod Emits
pub mod RoundTrip
