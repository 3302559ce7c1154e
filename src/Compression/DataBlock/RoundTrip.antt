-- ===== src/Compression/DataBlock/RoundTrip.antt =====
-- libakumuli/storage_engine/compression.cpp: DataBlockReader on the blocks that DataBlockWriter makes.
use akumuli.Base.{
  ℕ, ◌+◌, ◌*◌, ◌^◌, ◌≤◌, ◌<◌, ◌≡◌, refl, ap, ◌∙◌, sym, subst, arith, List, [], ◌∷◌, ◌++◌,
  append_assoc, append-nil, length, All, length-append, ltb-false, lt→ltb, if◌then◌else◌, inl, inr,
}
use akumuli.Base.Words.{IsU64, to_bytes}
use akumuli.Base.Outcome.{ok}
use akumuli.Status.{success, eno_data, is_success}
use akumuli.Compression.VByte.Reader.{VByteReader}
use akumuli.Compression.VByte.Reader as VByte
use akumuli.Compression.VByte.RoundTrip.{at, read_raw-to_bytes}
use akumuli.Compression.VByte.Writer.{space_left}
use akumuli.Compression.DeltaDelta.{init_writer, init_reader}
use akumuli.Compression.Fcm.Writer as FcmWriter
use akumuli.Compression.Fcm.Reader as FcmReader
use akumuli.Compression.DataBlock.Writer.{DataBlockWriter, put, commit}
use akumuli.Compression.DataBlock.Writer
use akumuli.Compression.DataBlock.Reader.{
  DataBlockReader, next_plain, next, nelements, get_id, version, get_main_size, get_total_size,
}
use akumuli.Compression.DataBlock.Reader
use akumuli.Compression.DataBlock.Header.{
  header, drop-header, get_main_size-header, get_total_size-header, get_block_id-header,
  get_block_version-header, fresh, init_lem,
}
use akumuli.Compression.DataBlock.Content.{Point, at_start, Follows}
use akumuli.Compression.DataBlock.Invariant.{IsPoint, tail_bytes, phase_of}
use akumuli.Compression.DataBlock.Put.{Stores, put_lem, length-flatten}
use akumuli.Compression.DataBlock.Commit.{IsBlock, commit_lem}
use akumuli.Compression.DataBlock.Reads.{BlockReads, BlockReads-append, BlockReads-chunks, At}
use mathlib.Core.List.{flatten}

-- A point behind the chunks.
next_behind :
    (b : DataBlockReader) (r : VByteReader) (p : Point) (bytes : List ℕ)
    → b.stream ≡ at r (to_bytes 8 p.0 ++ (to_bytes 8 p.1 ++ bytes))
    → IsPoint p
    → get_main_size b.block ≤ b.read_index
    → b.read_index < get_total_size b.block
    → b.read_index + 1 < 2 ^ 32
    → next b
      ≡ ok (success, p.0, p.1, record b { read_index = b.read_index + 1; stream = at r bytes })
unfolding next next_plain
next_behind b r p bytes e word behind below small =
    rw
      (
        ltb-false b.read_index (get_main_size b.block) behind,
        lt→ltb b.read_index (get_total_size b.block) below,
        e,
        read_raw-to_bytes 8 p.0 r (to_bytes 8 p.1 ++ bytes) (omega (arith, word.0)),
        read_raw-to_bytes 8 p.1 r bytes (omega (arith, word.1)),
      )
      (ap (λ (i : ℕ). ok (success, p.0, p.1, record b { read_index = i; stream = at r bytes }))
        (omega arith))

BlockReads-plain :
    (ps : List Point) (b : DataBlockReader) (r : VByteReader) (bytes : List ℕ)
    → b.stream ≡ at r (tail_bytes ps ++ bytes)
    → All IsPoint ps
    → get_main_size b.block ≤ b.read_index
    → b.read_index + length ps ≤ get_total_size b.block
    → get_total_size b.block < 2 ^ 32
    → (b' : DataBlockReader) × BlockReads b ps b'
      × (b'.read_index ≡ b.read_index + length ps)
      × (b'.block ≡ b.block)
unfolding tail_bytes
BlockReads-plain [] b r bytes e all behind below small = (b, refl, omega arith, refl)
BlockReads-plain (p ∷ ps) b r bytes e (word, all) behind below small =
    let rest = tail_bytes ps ++ bytes in
    let b' = record b { read_index = b.read_index + 1; stream = at r rest } in
    let joined =
      append_assoc (to_bytes 8 p.0) (to_bytes 8 p.1 ++ tail_bytes ps) bytes
      ∙ ap (λ (t : List ℕ). to_bytes 8 p.0 ++ t)
          (append_assoc (to_bytes 8 p.1) (tail_bytes ps) bytes) in
    let (b'', reads, index, same) =
      BlockReads-plain ps b' r bytes refl all (omega arith) (omega arith) small in
    (
      b'',
      (
        b',
        next_behind b r p rest (e ∙ ap (at r) joined) word behind (omega arith) (omega arith),
        reads,
      ),
      omega (arith, index),
      same,
    )

next_end :
    (b : DataBlockReader)
    → get_main_size b.block ≤ b.read_index
    → get_total_size b.block ≤ b.read_index
    → next b ≡ ok (eno_data, 0, 0, b)
unfolding next
next_end b h k =
    rw
      (
        ltb-false b.read_index (get_main_size b.block) h,
        ltb-false b.read_index (get_total_size b.block) k,
      )
      refl

-- What a reader makes of a block: every point, then AKU_ENO_DATA.
abbrev pub ReadsAll : ℕ → List Point → List ℕ → Type 0
ReadsAll id ps block =
    (r : DataBlockReader) × BlockReads (Reader.init block) ps r
    × (next r ≡ ok (eno_data, 0, 0, r))
    × (nelements (Reader.init block) ≡ length ps)
    × (get_id (Reader.init block) ≡ id)
    × (version (Reader.init block) ≡ 30)

At-start :
    (c t id : ℕ) (bytes : List ℕ) → At 0 (at_start bytes) (Reader.init (header c t id ++ bytes))
unfolding Reader.init
At-start c t id bytes = record {
  index_eq = refl;
  buffer_length = refl;
  delta_eq = refl;
  fcm_eq = refl;
  stream_eq = ap VByte.init (drop-header c t id bytes);
}

-- A reader of a finished block gets the points of the block, in the order in which they were put.
pub read_block :
    (id : ℕ) (ps : List Point) (block : List ℕ)
    → IsU64 id
    → IsBlock id ps block
    → ReadsAll id ps block
unfolding nelements get_id version
read_block id ps block word v =
    let c = length v.chunks in
    let t = length v.plain in
    let bytes = v.body ++ (tail_bytes v.plain ++ v.junk) in
    let whole = header c t id ++ bytes in
    let main : get_main_size whole ≡ c * 16 = get_main_size-header c t id bytes v.few_chunks in
    let total : get_total_size whole ≡ t + c * 16 =
      get_total_size-header c t id bytes v.few_chunks v.few_plain in
    let (cursor, chunks_read, follows) = v.holds (tail_bytes v.plain ++ v.junk) in
    let (r, first, ends, same) =
      BlockReads-chunks v.chunks 0 (at_start bytes) cursor (Reader.init whole) v.whole
        (At-start c t id bytes) chunks_read (unfold Reader.init in omega (arith, main))
        (unfold Reader.init in omega (arith, main, v.few_chunks)) in
    let same_block : r.block ≡ whole = same ∙ unfold Reader.init in refl in
    let main' = ap get_main_size same_block ∙ main in
    let total' = ap get_total_size same_block ∙ total in
    let (r', second, index, same') =
      BlockReads-plain v.plain r cursor.stream v.junk
        (ends.stream_eq ∙ ap (at cursor.stream) follows.rest_eq) v.plain_words
        (omega (arith, main', ends.index_eq)) (omega (arith, total', ends.index_eq))
        (omega (arith, total', v.few_plain, v.few_chunks)) in
    let main'' = ap get_main_size same' ∙ main' in
    let total'' = ap get_total_size same' ∙ total' in
    subst (λ u. ReadsAll id ps u) (sym v.block_eq)
      (
        r',
        subst (λ qs. BlockReads (Reader.init whole) qs r') v.points_eq
            (BlockReads-append (flatten v.chunks) v.plain (Reader.init whole) r r' first second),
        next_end r' (omega (arith, main'', index, ends.index_eq))
            (omega (arith, total'', index, ends.index_eq)),
        unfold Reader.init in (total ∙ count),
        unfold Reader.init in get_block_id-header c t id bytes word,
        unfold Reader.init in get_block_version-header c t id bytes,
      )
  where
    count : length v.plain + length v.chunks * 16 ≡ length ps
    count = omega (
      arith,
      ap (λ (qs : List Point). length qs) v.points_eq,
      length-append (flatten v.chunks) v.plain,
      length-flatten v.chunks v.whole,
    )

-- What lies behind a block in its buffer does not matter.
IsBlock-append :
    (id : ℕ) (ps : List Point) (block rest : List ℕ)
    → IsBlock id ps block
    → IsBlock id ps (block ++ rest)
IsBlock-append id ps block rest v = record {
  chunks = v.chunks;
  plain = v.plain;
  body = v.body;
  junk = v.junk ++ rest;
  predictor = v.predictor;
  prev = v.prev;
  block_eq = simp (v.block_eq, append_assoc);
  points_eq = v.points_eq;
  holds = v.holds;
  whole = v.whole;
  plain_words = v.plain_words;
  few_chunks = v.few_chunks;
  few_plain = v.few_plain;
}

-- Puts the points, and keeps those that were stored.
unfoldable pub put_each : DataBlockWriter → List Point → DataBlockWriter × List Point
put_each b [] = (b, [])
put_each b (p ∷ ps) =
    let (b', status) = put b p.0 p.1 in
    let (b'', stored) = put_each b' ps in (b'', if is_success status then p ∷ stored else stored)

pub put_each-Stores :
    (ps qs : List Point) (id : ℕ) (b : DataBlockWriter)
    → Stores id b qs
    → All IsPoint ps
    → length qs + length ps < 2 ^ 16
    → Stores id (put_each b ps).0 (qs ++ (put_each b ps).1) × (length (put_each b ps).1 ≤ length ps)
unfolding put_each is_success
put_each-Stores [] qs id b s all few =
    (subst (λ t. Stores id b t) (sym (append-nil qs)) s, omega arith)
put_each-Stores (p ∷ ps) qs id b s (word, all) few = elim (put_lem id b qs p s word (omega arith)) [
  | inl (_, (b', done, s')) ↦
      let (s'', fewer) =
        put_each-Stores ps (qs ++ p ∷ []) id b' s' all (omega (arith, length-append qs (p ∷ []))) in
      rw done (
        subst (λ t. Stores id (put_each b' ps).0 t) (append_assoc qs (p ∷ []) _) s'',
        omega (arith, fewer),
      )
  | inr (_, (b', refused, s')) ↦
      let (s'', fewer) = put_each-Stores ps qs id b' s' all (omega arith) in
      rw refused (s'', omega (arith, fewer))
]

at_start-Follows :
    (tail : List ℕ) → Follows (FcmWriter.init).predictor init_writer.prev tail (at_start tail)
unfolding init_writer init_reader FcmWriter.init FcmReader.init VByte.init
at_start-Follows tail = record {
  prev_eq = refl;
  at_chunk = refl;
  at_pair = record { even = refl; no_run = refl };
  predictor_eq = refl;
  idle = record { even = refl; no_run = refl };
  rest_eq = refl;
}

pub fresh-Stores : (id size : ℕ) → Stores id (fresh id size) []
unfolding flatten
fresh-Stores id size = record {
  chunks = [];
  pend = [];
  tail = [];
  inv = record {
    layout = record {
      body = [];
      junk = [];
      out_eq = unfold tail_bytes in sym (append-nil (header 0 0 id));
      holds = λ tail. (at_start tail, refl, at_start-Follows tail);
      junk_last = inl refl;
      whole = tt;
      nchunks_at = refl;
      ntail_at = refl;
      prev_word = unfold init_writer in omega arith;
      no_value = unfold FcmWriter.init in refl;
      no_pair = refl;
      tail_words = tt;
    };
    buffers = record {
      index_eq = refl;
      short = omega arith;
      ts_length = refl;
      val_length = refl;
      ts_pend = refl;
      val_pend = refl;
      words = tt;
    };
    phase = phase_of (space_left (fresh id size).stream);
  };
  content_eq = refl;
}

-- A block that is made in the buffer, given the points, committed and read.
abbrev pub RoundTrips : ℕ → ℕ → List ℕ → List Point → List ℕ → Type 0
RoundTrips id size buf ps rest =
    (b : DataBlockWriter) × (Writer.init id buf size ≡ ok b)
    × ((b' : DataBlockWriter) × (commit (put_each b ps).0 ≡ ok (b', length b'.stream.out))
        × ReadsAll id (put_each b ps).1 (b'.stream.out ++ rest))

-- Whatever points are given to a block, one after the other, until it is committed: neither making the
-- block nor committing it panics, and a reader of its buffer gets those points that `put` accepted, in
-- order, and no others, and then AKU_ENO_DATA, whatever the unused rest of the buffer holds.
-- The buffer has room for the header, the points and the id are words of 64 bits, and there are fewer
-- than 2 ^ 16 points.
pub read-commit_put :
    (id size : ℕ) (buf : List ℕ) (ps : List Point) (rest : List ℕ)
    → length buf ≡ size
    → 14 ≤ size
    → IsU64 id
    → All IsPoint ps
    → length ps < 2 ^ 16
    → RoundTrips id size buf ps rest
read-commit_put id size buf ps rest h fits word all few =
    let b = fresh id size in
    let (s, fewer) = put_each-Stores ps [] id b (fresh-Stores id size) all (omega arith) in
    let (b', committed, block) =
      commit_lem id (put_each b ps).0 (put_each b ps).1 s (omega (arith, fewer)) in
    (
      b,
      init_lem id size buf h fits,
      (
        b',
        committed,
        read_block id (put_each b ps).1 (b'.stream.out ++ rest) word
            (IsBlock-append id _ b'.stream.out rest block),
      ),
    )
