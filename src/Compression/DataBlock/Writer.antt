-- ===== src/Compression/DataBlock/Writer.antt =====
-- libakumuli/storage_engine/compression.cpp: DataBlockWriter. The writer's cells `*nchunks_` and
-- `*ntail_` lie in the block, where the model reads and writes them too. The block's `assert`s are
-- compiled out.
use akumuli.Base.{
  ℕ, ◌+◌, ◌-◌, ◌/◌, ◌%◌, bit_and, Bool, true, false, not, ◌&&◌, Option, none, some, List, [], ◌∷◌,
  set, take, drop, replicate, ltb, ◌==◌, if◌then◌else◌, ◌++◌,
}
use akumuli.Base.Words.{u16, from_bytes}
use akumuli.Base.Outcome.{Outcome, ok, panic}
use mathlib.Core.List.{zip}
use akumuli.Status.{Status, success, eoverflow}
use akumuli.Compression.VByte.Writer.{VByteWriter, put_raw, allocate, space_left, size, is_empty}
use akumuli.Compression.VByte.Writer
use akumuli.Compression.DeltaDelta.{DeltaWriter, init_writer}
use akumuli.Compression.DeltaDelta
use akumuli.Compression.Fcm.Writer.{FcmWriter}
use akumuli.Compression.Fcm.Writer as Fcm

abbrev pub chunk_size : ℕ
chunk_size = 16

abbrev pub chunk_mask : ℕ
chunk_mask = 15

abbrev pub header_size : ℕ
header_size = 14

abbrev pub akumuli_version : ℕ
akumuli_version = 30

-- `nchunks` and `ntail` are offsets of the cells in the block.
pub record DataBlockWriter : Type 0 where
  pub stream : VByteWriter
  pub ts_stream : DeltaWriter
  pub val_stream : FcmWriter
  pub write_index : ℕ
  pub ts_writebuf : List ℕ
  pub val_writebuf : List ℕ
  pub nchunks : ℕ
  pub ntail : ℕ

-- A u16 in the written part of the block.
unfoldable pub load : VByteWriter → ℕ → ℕ
load w at = from_bytes (take 2 (drop at w.out))

unfoldable pub store : VByteWriter → ℕ → ℕ → VByteWriter
store w at v = record w { out = set (set w.out at (v % 256)) (at + 1) (v / 256 % 256) }

-- The writer once the header has been laid out, and a panic where the buffer is too small for it.
unfoldable pub start : VByteWriter → Bool → Option ℕ → Option ℕ → Outcome DataBlockWriter
start w done none ntail = panic
start w done (some nchunks) none = panic
start w done (some nchunks) (some ntail) =
    if done
    then ok (record {
      stream = store (store w ntail 0) nchunks 0;
      ts_stream = init_writer;
      val_stream = Fcm.init;
      write_index = 0;
      ts_writebuf = replicate chunk_size 0;
      val_writebuf = replicate chunk_size 0;
      nchunks = nchunks;
      ntail = ntail;
    })
    else panic

-- `buf` is what the buffer of `size` bytes holds; the version comes first, the id last.
unfoldable pub init : ℕ → List ℕ → ℕ → Outcome DataBlockWriter
init id buf size =
    let (w₁, versioned) = put_raw 2 (Writer.init size) akumuli_version in
    let (w₂, nchunks) = allocate 2 (drop 2 buf) w₁ in
    let (w₃, ntail) = allocate 2 (drop 4 buf) w₂ in
    let (w₄, identified) = put_raw 8 w₃ id in start w₄ (identified && versioned) nchunks ntail

-- 10*16 + 9*16
abbrev pub margin : ℕ
margin = 304

unfoldable pub room_for_chunk : DataBlockWriter → Bool
room_for_chunk b = not (ltb (space_left b.stream) margin)

-- *cell += 1
unfoldable pub bump : VByteWriter → ℕ → VByteWriter
bump w at = store w at (u16 (load w at + 1))

-- Both buffers are full: they are compressed into the stream.
unfoldable pub put_chunk : DataBlockWriter → DataBlockWriter × Status
put_chunk b =
    let (ts_stream, w, ts_done) = DeltaDelta.tput b.ts_stream b.stream b.ts_writebuf in
    let (val_stream, w', val_done) = Fcm.tput b.val_stream w b.val_writebuf in
    if ts_done
    then (let b' = record b { stream = w'; ts_stream = ts_stream; val_stream = val_stream } in
        if val_done then (record b' { stream = bump w' b.nchunks }, success) else (b', eoverflow))
    else (record b { stream = w; ts_stream = ts_stream }, eoverflow)

unfoldable pub put_buffered : DataBlockWriter → ℕ → ℕ → DataBlockWriter × Status
put_buffered b ts value =
    let at = bit_and b.write_index chunk_mask in
    let b' = record b {
      ts_writebuf = set b.ts_writebuf at ts;
      val_writebuf = set b.val_writebuf at value;
      write_index = b.write_index + 1;
    } in
    if bit_and (b.write_index + 1) chunk_mask == 0 then put_chunk b' else (b', success)

-- A point at the end of the block, not compressed.
unfoldable pub put_tail : DataBlockWriter → ℕ → ℕ → DataBlockWriter × Status
put_tail b ts value =
    let (w, ts_done) = put_raw 8 b.stream ts in
    let (w', val_done) = put_raw 8 w value in
    if ts_done
    then (if val_done
        then (record b { stream = bump w' b.ntail }, success)
        else (record b { stream = w' }, eoverflow))
    else (record b { stream = w }, eoverflow)

unfoldable pub put : DataBlockWriter → ℕ → ℕ → DataBlockWriter × Status
put b ts value = if room_for_chunk b then put_buffered b ts value else put_tail b ts value

-- One turn of the loop in `commit`, and whether both words fitted.
unfoldable pub flush_point : DataBlockWriter → ℕ → ℕ → DataBlockWriter × Bool
flush_point b ts value =
    let (w, ts_done) = put_raw 8 b.stream ts in
    let (w', val_done) = put_raw 8 w value in
    if val_done && ts_done
    then (record b { stream = bump w' b.ntail; write_index = b.write_index - 1 }, true)
    else (record b { stream = w' }, false)

-- for (int ix = 0; ix < buftail; ix++), with the points that are left; a failure ends the loop.
unfoldable pub flush_loop : DataBlockWriter → List (ℕ × ℕ) → DataBlockWriter
flush_loop b [] = b
flush_loop b ((ts, value) ∷ rest) =
    let (b', flushed) = flush_point b ts value in
    let last = flush_loop b' rest in if flushed then last else b'

-- The answer is the size of what has been written.
unfoldable pub commit : DataBlockWriter → Outcome (DataBlockWriter × ℕ)
commit b =
    let nchunks = b.write_index / chunk_size in
    let buftail = b.write_index % chunk_size in
    let flushed = flush_loop b (zip (take buftail b.ts_writebuf) (take buftail b.val_writebuf)) in
    let b' = if buftail == 0 then b else flushed in
    let b'' = record b' { stream = store b'.stream b'.nchunks (u16 nchunks) } in
    if not (buftail == 0) && not (load b.stream b.ntail == 0)
    then panic
    else ok (b'', size b''.stream)

-- timestamps->push_back and values->push_back of what is still buffered.
unfoldable pub read_tail_elements : DataBlockWriter → List ℕ → List ℕ → List ℕ × List ℕ
read_tail_elements b timestamps values =
    let tailsize = bit_and b.write_index chunk_mask in
    (timestamps ++ take tailsize b.ts_writebuf, values ++ take tailsize b.val_writebuf)

unfoldable pub get_write_index : DataBlockWriter → ℕ
get_write_index b = if is_empty b.stream then 0 else load b.stream b.ntail + b.write_index
