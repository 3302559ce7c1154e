-- ===== src/Compression/DataBlock/Reads.antt =====
-- libakumuli/storage_engine/compression.cpp: DataBlockReader::next, call after call.
use akumuli.Base.{
  ℕ, zero, suc, ◌+◌, ◌*◌, ◌%◌, ◌^◌, ◌≤◌, ◌<◌, ◌≡◌, ◌≢◌, refl, ap, ◌∙◌, sym, subst, arith, List, [],
  ◌∷◌, ◌++◌, append_assoc, append-nil, length, get_or, set, take, take-set, take_all, length-set,
  All, ne→==, lt→ltb,
}
use akumuli.Base.Bits.{bit_and_four_bits}
use akumuli.Base.Words.{u32}
use akumuli.Base.Outcome.{ok}
use akumuli.Status.{success}
use akumuli.Compression.VByte.Reader.{VByteReader}
use akumuli.Compression.DeltaDelta.{DeltaReader}
use akumuli.Compression.DeltaDelta.RoundTrip.{DeltaReads}
use akumuli.Compression.Fcm.Reader.{FcmReader}
use akumuli.Compression.Fcm.Reader as Fcm
use akumuli.Compression.Fcm.RoundTrip.{FcmReads}
use akumuli.Compression.DataBlock.Reader.{
  DataBlockReader, read_timestamps, next_compressed, next, get_main_size,
}
use akumuli.Compression.DataBlock.Content.{
  Point, Cursor, ChunkReads, ChunksReads, times, values, length-times,
}
use akumuli.Compression.DataBlock.Invariant.{IsChunk, length-snoc}
use mathlib.Core.List.{flatten, map-append}

-- Each call of `next` succeeds, with the points in order.
abbrev pub BlockReads : DataBlockReader → List Point → DataBlockReader → Type 0
BlockReads r [] r' = r ≡ r'
BlockReads r (p ∷ ps) r' =
    (q : DataBlockReader) × (next r ≡ ok (success, p.0, p.1, q)) × BlockReads q ps r'

pub BlockReads-append :
    (ps qs : List Point) (r s t : DataBlockReader)
    → BlockReads r ps s
    → BlockReads s qs t
    → BlockReads r (ps ++ qs) t
BlockReads-append [] qs r s t e reads = subst (λ u. BlockReads u qs t) (sym e) reads
BlockReads-append (p ∷ ps) qs r s t (q, e, first) reads =
    (q, e, BlockReads-append ps qs q s t first reads)

read_timestamps_lem :
    (xs : List ℕ) (n i : ℕ) (b : DataBlockReader) (d : DeltaReader) (r : VByteReader)
    (before : List ℕ)
    → DeltaReads b.ts_stream b.stream xs d r
    → length xs ≡ n
    → i + n ≡ length b.read_buffer
    → take i b.read_buffer ≡ before
    → read_timestamps n i b
      ≡ ok (record b { read_buffer = before ++ xs; ts_stream = d; stream = r })
unfolding read_timestamps
read_timestamps_lem [] zero i b d r before (e, e') h k same = rw (append-nil before) (
    ap (λ (t : DataBlockReader). ok t)
      (ap (λ (t : List ℕ). record b { read_buffer = t })
          (sym (take_all i b.read_buffer (omega (arith, k))) ∙ same)
        ∙ ap (λ (t : DeltaReader). record b { read_buffer = before; ts_stream = t }) e
        ∙ ap (λ (t : VByteReader). record b { read_buffer = before; ts_stream = d; stream = t })
            e'))
read_timestamps_lem (x ∷ xs) (suc n) i b d r before (d', r', e, reads) h k same = rw e (
    read_timestamps_lem xs n (i + 1)
      (record b { read_buffer = set b.read_buffer i x; ts_stream = d'; stream = r' }) d r
      (before ++ x ∷ []) reads (omega (arith, h)) (omega (arith, k, length-set b.read_buffer i x))
      (rw add_one next_taken)
    ∙ ap (λ (t : List ℕ). ok (record b { read_buffer = t; ts_stream = d; stream = r }))
        (append_assoc before (x ∷ []) xs))
  where
    add_one : i + 1 ≡ suc i
    add_one = omega arith

    next_taken : take (suc i) (set b.read_buffer i x) ≡ before ++ x ∷ []
    next_taken =
        take-set i b.read_buffer x (omega (arith, k)) ∙ ap (λ (t : List ℕ). t ++ x ∷ []) same
read_timestamps_lem [] (suc n) i b d r before reads h k same = absurd (omega arith)
read_timestamps_lem (x ∷ xs) zero i b d r before reads h k same = absurd (omega arith)

-- The value behind a timestamp that has been read.
next_inside :
    (b : DataBlockReader) (value : ℕ) (f : FcmReader) (r : VByteReader)
    → b.read_index < get_main_size b.block
    → b.read_index + 1 < 2 ^ 32
    → b.read_index % 16 ≢ 0
    → Fcm.next b.val_stream b.stream ≡ ok (value, f, r)
    → next b
      ≡ ok (
        success,
        get_or b.read_buffer (b.read_index % 16) 0,
        value,
        record b { read_index = b.read_index + 1; val_stream = f; stream = r },
      )
unfolding next next_compressed
next_inside b value f r h small inside e =
    rw
      (
        lt→ltb b.read_index (get_main_size b.block) h,
        bit_and_four_bits b.read_index,
        ne→== (b.read_index % 16) 0 inside,
        e,
      )
      (ap
        (λ (i : ℕ). ok (
          success,
          get_or b.read_buffer (b.read_index % 16) 0,
          value,
          record b { read_index = i; val_stream = f; stream = r },
        ))
        (omega arith))

-- The first value of a chunk: all its timestamps are read before it.
next_start :
    (b : DataBlockReader) (xs : List ℕ) (d : DeltaReader) (mid : VByteReader) (value : ℕ)
    (f : FcmReader) (r : VByteReader)
    → b.read_index < get_main_size b.block
    → b.read_index + 1 < 2 ^ 32
    → b.read_index % 16 ≡ 0
    → length b.read_buffer ≡ 16
    → length xs ≡ 16
    → DeltaReads b.ts_stream b.stream xs d mid
    → Fcm.next b.val_stream mid ≡ ok (value, f, r)
    → next b
      ≡ ok (
        success,
        get_or xs 0 0,
        value,
        record b {
          read_index = b.read_index + 1;
          read_buffer = xs;
          ts_stream = d;
          val_stream = f;
          stream = r;
        },
      )
unfolding next next_compressed
next_start b xs d mid value f r h small start whole full reads e =
    rw
      (
        lt→ltb b.read_index (get_main_size b.block) h,
        bit_and_four_bits b.read_index,
        start,
        read_timestamps_lem xs 16 0 (record b { read_index = u32 (b.read_index + 1) }) d mid []
            reads full (omega arith) refl,
        e,
      )
      (ap
        (λ (i : ℕ). ok (
          success,
          get_or xs 0 0,
          value,
          record b { read_index = i; read_buffer = xs; ts_stream = d; val_stream = f; stream = r },
        ))
        (omega arith))

get_or-middle : (xs ys : List ℕ) (y : ℕ) → get_or (xs ++ y ∷ ys) (length xs) 0 ≡ y
get_or-middle [] ys y = refl
get_or-middle (x ∷ xs) ys y = get_or-middle xs ys y

buffer_at :
    (before ps : List Point) (p : Point) → get_or (times (before ++ p ∷ ps)) (length before) 0 ≡ p.0
buffer_at before ps p = rw (map-append (λ (q : Point). q.0) before (p ∷ ps)) (
    subst (λ n. get_or (times before ++ p.0 ∷ times ps) n 0 ≡ p.0) (length-times before)
      (get_or-middle (times before) (times ps) p.0))

-- What is the same at both ends of a chunk.
abbrev after : DataBlockReader → ℕ → FcmReader → VByteReader → DataBlockReader
after b index f r = record b { read_index = index; val_stream = f; stream = r }

-- The rest of chunk number `k`, of which the points `before` have been read.
chunk_rest :
    (ps before : List Point) (k : ℕ) (b : DataBlockReader) (f : FcmReader) (r : VByteReader)
    → b.read_buffer ≡ times (before ++ ps)
    → b.read_index ≡ 16 * k + length before
    → 0 < length before
    → length before + length ps ≡ 16
    → 16 * k + 16 ≤ get_main_size b.block
    → get_main_size b.block < 2 ^ 32
    → FcmReads b.val_stream b.stream (values ps) f r
    → BlockReads b ps (after b (16 * k + 16) f r)
chunk_rest [] before k b f r held index begun whole below small (e, e') =
    ap (λ (t : ℕ). after b t b.val_stream b.stream) (omega (arith, index, whole))
    ∙ ap (λ (t : FcmReader). after b (16 * k + 16) t b.stream) e
    ∙ ap (λ (t : VByteReader). after b (16 * k + 16) f t) e'
chunk_rest (p ∷ ps) before k b f r held index begun whole below small (g, q, e, reads) =
    let place : b.read_index % 16 ≡ length before = omega (arith, index, whole) in
    let got =
      ap (λ (i : ℕ). get_or b.read_buffer i 0) place
      ∙ ap (λ (t : List ℕ). get_or t (length before) 0) held
      ∙ buffer_at before ps p in
    (
      after b (b.read_index + 1) g q,
      next_inside b p.1 g q (omega (arith, index, whole)) (omega (arith, index, whole))
            (λ zero_at. absurd (omega (arith, place, zero_at))) e
          ∙ ap (λ (t : ℕ). ok (success, t, p.1, after b (b.read_index + 1) g q)) got,
      chunk_rest ps (before ++ p ∷ []) k (after b (b.read_index + 1) g q) f r
          (held ∙ ap times (sym (append_assoc before (p ∷ []) ps)))
          (omega (arith, index, length-snoc before p)) (omega (arith, length-snoc before p))
          (omega (arith, whole, length-snoc before p)) below small reads,
    )

-- A reader between two chunks, in a block that it has read `k` chunks of.
pub record At (k : ℕ) (c : Cursor) (b : DataBlockReader) : Type 0 where
  pub index_eq : b.read_index ≡ 16 * k
  pub buffer_length : length b.read_buffer ≡ 16
  pub delta_eq : b.ts_stream ≡ c.delta
  pub fcm_eq : b.val_stream ≡ c.fcm
  pub stream_eq : b.stream ≡ c.stream

abbrev chunk_read : ℕ → List Point → Cursor → DataBlockReader → DataBlockReader
chunk_read k ps c b = record b {
  read_index = 16 * k + 16;
  read_buffer = times ps;
  ts_stream = c.delta;
  val_stream = c.fcm;
  stream = c.stream;
}

BlockReads-chunk :
    (ps : List Point) (k : ℕ) (c c' : Cursor) (b : DataBlockReader)
    → length ps ≡ 16
    → At k c b
    → ChunkReads c ps c'
    → 16 * k + 16 ≤ get_main_size b.block
    → get_main_size b.block < 2 ^ 32
    → BlockReads b ps (chunk_read k ps c' b)
BlockReads-chunk [] k c c' b full start reads below small = absurd (omega (arith, full))
BlockReads-chunk (p ∷ ps) k c c' b full start (mid, ts_read, (g, q, e, val_read)) below small =
    let xs = times (p ∷ ps) in
    let b' = record b {
      read_index = b.read_index + 1;
      read_buffer = xs;
      ts_stream = c'.delta;
      val_stream = g;
      stream = q;
    } in
    (
      b',
      next_start b xs c'.delta mid p.1 g q (omega (arith, start.index_eq))
          (omega (arith, start.index_eq)) (omega (arith, start.index_eq)) start.buffer_length
          (length-times (p ∷ ps) ∙ full) (rw (start.delta_eq, start.stream_eq) ts_read)
          (rw (start.fcm_eq) e),
      chunk_rest ps (p ∷ []) k b' c'.fcm c'.stream refl (omega (arith, start.index_eq))
          (omega arith) (omega (arith, full)) below small val_read,
    )

-- All chunks.
pub BlockReads-chunks :
    (chunks : List (List Point)) (k : ℕ) (c c' : Cursor) (b : DataBlockReader)
    → All IsChunk chunks
    → At k c b
    → ChunksReads c chunks c'
    → 16 * (k + length chunks) ≤ get_main_size b.block
    → get_main_size b.block < 2 ^ 32
    → (b' : DataBlockReader) × BlockReads b (flatten chunks) b'
      × At (k + length chunks) c' b'
      × (b'.block ≡ b.block)
unfolding flatten
BlockReads-chunks [] k c c' b all start e below small =
    (b, refl, subst (λ n. At n c' b) (sym none_more) (subst (λ t. At k t b) e start), refl)
  where
    none_more : k + 0 ≡ k
    none_more = omega arith
BlockReads-chunks (ps ∷ chunks) k c c' b (full, all) start (d, first, rest) below small =
    let b' = chunk_read k ps d b in
    let (b'', reads, ends, same) =
      BlockReads-chunks chunks (suc k) d c' b' all
        (record {
          index_eq = omega arith;
          buffer_length = length-times ps ∙ full;
          delta_eq = refl;
          fcm_eq = refl;
          stream_eq = refl;
        })
        rest (omega arith) small in
    (
      b'',
      BlockReads-append ps (flatten chunks) b b' b''
          (BlockReads-chunk ps k c d b full start first (omega arith) small) reads,
      subst (λ n. At n c' b'') one_more ends,
      same,
    )
  where
    one_more : suc k + length chunks ≡ k + suc (length chunks)
    one_more = omega arith
