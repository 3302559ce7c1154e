-- ===== src/Compression/DataBlock/Reader.antt =====
-- libakumuli/storage_engine/compression.cpp: DataBlockReader, and the header fields of a block.
use akumuli.Base.{
  ℕ, zero, suc, ◌+◌, ◌*◌, bit_and, List, get_or, set, take, drop, replicate, ltb, ◌==◌,
  if◌then◌else◌,
}
use akumuli.Base.Words.{u32, from_bytes}
use akumuli.Base.Outcome.{Outcome, ok, ◌>>=◌}
use akumuli.Status.{Status, success, eno_data}
use akumuli.Compression.VByte.Reader.{VByteReader, read_raw}
use akumuli.Compression.VByte.Reader
use akumuli.Compression.DeltaDelta.{DeltaReader, init_reader}
use akumuli.Compression.DeltaDelta
use akumuli.Compression.Fcm.Reader.{FcmReader}
use akumuli.Compression.Fcm.Reader as Fcm
use akumuli.Compression.DataBlock.Writer.{chunk_size, chunk_mask, header_size}

unfoldable pub get_block_version : List ℕ → ℕ
get_block_version block = from_bytes (take 2 block)

unfoldable pub get_main_size : List ℕ → ℕ
get_main_size block = from_bytes (take 2 (drop 2 block)) * chunk_size

unfoldable pub get_total_size : List ℕ → ℕ
get_total_size block =
    from_bytes (take 2 (drop 4 block)) + from_bytes (take 2 (drop 2 block)) * chunk_size

unfoldable pub get_block_id : List ℕ → ℕ
get_block_id block = from_bytes (take 8 (drop 6 block))

pub record DataBlockReader : Type 0 where
  pub block : List ℕ
  pub stream : VByteReader
  pub ts_stream : DeltaReader
  pub val_stream : FcmReader
  pub read_buffer : List ℕ
  pub read_index : ℕ

-- The buffer's bytes, of which there are more than thirteen.
unfoldable pub init : List ℕ → DataBlockReader
init block = record {
  block = block;
  stream = Reader.init (drop header_size block);
  ts_stream = init_reader;
  val_stream = Fcm.init;
  read_buffer = replicate chunk_size 0;
  read_index = 0;
}

-- for (int i = 0; i < CHUNK_SIZE; i++) { read_buffer_[i] = ts_stream_.next(); }
unfoldable pub read_timestamps : ℕ → ℕ → DataBlockReader → Outcome DataBlockReader
read_timestamps zero i b = ok b
read_timestamps (suc n) i b = do
  (ts, ts_stream, stream) ← DeltaDelta.next b.ts_stream b.stream
  let read_buffer = set b.read_buffer i ts
  read_timestamps n (i + 1)
      (record b { read_buffer = read_buffer; ts_stream = ts_stream; stream = stream })

unfoldable pub next_compressed : DataBlockReader → Outcome (Status × ℕ × ℕ × DataBlockReader)
next_compressed b = do
  let chunk_index = bit_and b.read_index chunk_mask
  let counted = record b { read_index = u32 (b.read_index + 1) }
  b' ← if chunk_index == 0 then read_timestamps chunk_size 0 counted else ok counted
  (value, val_stream, stream) ← Fcm.next b'.val_stream b'.stream
  ok (
    success,
    get_or b'.read_buffer chunk_index 0,
    value,
    record b' { val_stream = val_stream; stream = stream },
  )

unfoldable pub next_plain : DataBlockReader → Outcome (Status × ℕ × ℕ × DataBlockReader)
next_plain b = do
  (ts, stream) ← read_raw 8 b.stream
  (value, stream') ← read_raw 8 stream
  ok (success, ts, value, record b { read_index = u32 (b.read_index + 1); stream = stream' })

unfoldable pub next : DataBlockReader → Outcome (Status × ℕ × ℕ × DataBlockReader)
next b =
    if ltb b.read_index (get_main_size b.block)
    then next_compressed b
    else if ltb b.read_index (get_total_size b.block)
    then next_plain b
    else ok (eno_data, 0, 0, b)

unfoldable pub nelements : DataBlockReader → ℕ
nelements b = get_total_size b.block

unfoldable pub get_id : DataBlockReader → ℕ
get_id b = get_block_id b.block

unfoldable pub version : DataBlockReader → ℕ
version b = get_block_version b.block
