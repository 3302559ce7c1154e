-- ===== src/Compression/DataBlock/Invariant.antt =====
-- What a DataBlockWriter's state holds between two calls: the points that were put, as full chunks in
-- the body, points that are still buffered, and plain points behind the body.
use akumuli.Base.{
  ℕ, suc, ◌+◌, ◌*◌, ◌%◌, ◌≤◌, ◌<◌, ◌≡◌, refl, ap, ◌∙◌, bit_and, arith, List, [], ◌∷◌, ◌++◌, length,
  All, length-append, take, set, take-set, length-set, ◌⊎◌, inl, inr, All-append, ne→==, eq→==,
  ltb-false, lt→ltb,
}
use akumuli.Base.Bits.{bit_and_four_bits}
use akumuli.Base.Words.{IsU64, to_bytes}
use akumuli.Status.{success}
use akumuli.Compression.VByte.Writer.{space_left}
use akumuli.Compression.DataBlock.Writer.{
  DataBlockWriter, margin, put_buffered, put_chunk, put_tail, put, room_for_chunk,
}
use akumuli.Compression.DataBlock.Header.{header}
use akumuli.Compression.DataBlock.Content.{Point, times, values, Holds}
use native.Mathlib.Decide.{dec_lt}
use mathlib.Core.List.{flatten, map-append}

unfoldable pub tail_bytes : List Point → List ℕ
tail_bytes [] = []
tail_bytes ((ts, value) ∷ ps) = to_bytes 8 ts ++ (to_bytes 8 value ++ tail_bytes ps)

abbrev pub content : List (List Point) → List Point → List Point → List Point
content chunks pend tail = flatten chunks ++ (pend ++ tail)

abbrev pub IsPoint : Point → Type 0
IsPoint p = IsU64 p.0 × IsU64 p.1

abbrev pub IsChunk : List Point → Type 0
IsChunk ps = length ps ≡ 16

-- The bytes of the block: `junk` is half a point that did not fit.
pub record Layout (id : ℕ) (b : DataBlockWriter) (chunks : List (List Point)) (tail : List Point)
    : Type 0 where
  pub body : List ℕ
  pub junk : List ℕ
  pub out_eq :
      b.stream.out ≡ header (length chunks) (length tail) id ++ (body ++ (tail_bytes tail ++ junk))
  pub holds : Holds b.val_stream.predictor b.ts_stream.prev body chunks
  pub junk_last : (junk ≡ []) ⊎ (space_left b.stream < 16)
  pub whole : All IsChunk chunks
  pub nchunks_at : b.nchunks ≡ 2
  pub ntail_at : b.ntail ≡ 4
  pub prev_word : IsU64 b.ts_stream.prev
  pub no_value : b.val_stream.nelements ≡ 0
  pub no_pair : b.stream.cnt ≡ 0
  pub tail_words : All IsPoint tail

-- The write buffers.
pub record Buffers (b : DataBlockWriter) (chunks : List (List Point)) (pend : List Point)
    : Type 0 where
  pub index_eq : b.write_index ≡ 16 * length chunks + length pend
  pub short : length pend < 16
  pub ts_length : length b.ts_writebuf ≡ 16
  pub val_length : length b.val_writebuf ≡ 16
  pub ts_pend : take (length pend) b.ts_writebuf ≡ times pend
  pub val_pend : take (length pend) b.val_writebuf ≡ values pend
  pub words : All IsPoint pend

pub record Inv (id : ℕ) (b : DataBlockWriter) (chunks : List (List Point)) (pend tail : List Point)
    : Type 0 where
  pub layout : Layout id b chunks tail
  pub buffers : Buffers b chunks pend
  -- While there is room for a chunk nothing is behind the body; after that nothing is buffered.
  pub phase :
      ((tail ≡ []) × (margin ≤ space_left b.stream))
      ⊎ ((pend ≡ []) × (space_left b.stream < margin))

abbrev pub buffered : DataBlockWriter → ℕ → ℕ → ℕ → DataBlockWriter
buffered b k ts value = record b {
  ts_writebuf = set b.ts_writebuf k ts;
  val_writebuf = set b.val_writebuf k value;
  write_index = b.write_index + 1;
}

take_next :
    (k : ℕ) (buf : List ℕ) (x : ℕ) (xs : List ℕ)
    → k < length buf
    → take k buf ≡ xs
    → take (suc k) (set buf k x) ≡ xs ++ x ∷ []
take_next k buf x xs h e = take-set k buf x h ∙ ap (λ (t : List ℕ). t ++ x ∷ []) e

put_buffered_index :
    (b : DataBlockWriter) (chunks : List (List Point)) (pend : List Point)
    → Buffers b chunks pend
    → bit_and b.write_index 15 ≡ length pend
put_buffered_index b chunks pend v =
    bit_and_four_bits b.write_index ∙ omega (arith, v.index_eq, v.short)

-- The state between the writes into the buffers and the test whether they are full.
pub record Filled (b : DataBlockWriter) (chunks : List (List Point)) (pend : List Point)
    : Type 0 where
  pub index_eq : b.write_index ≡ 16 * length chunks + length pend
  pub ts_length : length b.ts_writebuf ≡ 16
  pub val_length : length b.val_writebuf ≡ 16
  pub ts_pend : take (length pend) b.ts_writebuf ≡ times pend
  pub val_pend : take (length pend) b.val_writebuf ≡ values pend
  pub words : All IsPoint pend

pub length-snoc : (ps : List Point) (p : Point) → length (ps ++ p ∷ []) ≡ suc (length ps)
length-snoc ps p = omega (arith, length-append ps (p ∷ []))

pub buffered-Filled :
    (b : DataBlockWriter) (chunks : List (List Point)) (pend : List Point) (ts value : ℕ)
    → Buffers b chunks pend
    → IsPoint (ts, value)
    → Filled (buffered b (length pend) ts value) chunks (pend ++ (ts, value) ∷ [])
buffered-Filled b chunks pend ts value v word = record {
  index_eq = omega (arith, v.index_eq, length-snoc pend (ts, value));
  ts_length = length-set b.ts_writebuf (length pend) ts ∙ v.ts_length;
  val_length = length-set b.val_writebuf (length pend) value ∙ v.val_length;
  ts_pend =
      rw (length-snoc pend (ts, value), map-append (λ (p : Point). p.0) pend ((ts, value) ∷ []))
        (take_next (length pend) b.ts_writebuf ts (times pend) (omega (arith, v.short, v.ts_length))
          v.ts_pend);
  val_pend =
      rw (length-snoc pend (ts, value), map-append (λ (p : Point). p.1) pend ((ts, value) ∷ []))
        (take_next (length pend) b.val_writebuf value (values pend)
          (omega (arith, v.short, v.val_length)) v.val_pend);
  words = All-append IsPoint pend ((ts, value) ∷ []) v.words (word, tt);
}

next_index :
    (b : DataBlockWriter) (chunks : List (List Point)) (pend : List Point)
    → Buffers b chunks pend
    → bit_and (b.write_index + 1) 15 ≡ (length pend + 1) % 16
next_index b chunks pend v =
    bit_and_four_bits (b.write_index + 1) ∙ omega (arith, v.index_eq, v.short)

-- `put` while there is room for a chunk: the point is buffered, and full buffers are compressed.
pub put_short :
    (b : DataBlockWriter) (chunks : List (List Point)) (pend : List Point) (ts value : ℕ)
    → Buffers b chunks pend
    → margin ≤ space_left b.stream
    → length pend < 15
    → put b ts value ≡ (buffered b (length pend) ts value, success)
unfolding put room_for_chunk put_buffered
put_short b chunks pend ts value v room h =
    rw
      (
        ltb-false (space_left b.stream) margin room,
        put_buffered_index b chunks pend v,
        next_index b chunks pend v,
        ne→== ((length pend + 1) % 16) 0 (omega arith),
      )
      refl

pub put_full :
    (b : DataBlockWriter) (chunks : List (List Point)) (pend : List Point) (ts value : ℕ)
    → Buffers b chunks pend
    → margin ≤ space_left b.stream
    → length pend ≡ 15
    → put b ts value ≡ put_chunk (buffered b (length pend) ts value)
unfolding put room_for_chunk put_buffered
put_full b chunks pend ts value v room h =
    rw
      (
        ltb-false (space_left b.stream) margin room,
        put_buffered_index b chunks pend v,
        next_index b chunks pend v,
        eq→== ((length pend + 1) % 16) 0 (omega arith),
      )
      refl

-- `put` without that room: the point goes behind the chunks.
pub put_no_room :
    (b : DataBlockWriter) (ts value : ℕ)
    → space_left b.stream < margin
    → put b ts value ≡ put_tail b ts value
unfolding put room_for_chunk
put_no_room b ts value h = rw (lt→ltb (space_left b.stream) margin h) refl

-- A buffered point leaves the block's bytes alone.
pub put_short-Inv :
    (id : ℕ) (b : DataBlockWriter) (chunks : List (List Point)) (pend tail : List Point)
    (ts value : ℕ)
    → Inv id b chunks pend tail
    → IsPoint (ts, value)
    → tail ≡ []
    → margin ≤ space_left b.stream
    → length pend < 15
    → Inv id (buffered b (length pend) ts value) chunks (pend ++ (ts, value) ∷ []) tail
put_short-Inv id b chunks pend tail ts value v word empty room h =
    let f = buffered-Filled b chunks pend ts value v.buffers word in
    let l = v.layout in
    record {
      layout = record {
        body = l.body;
        junk = l.junk;
        out_eq = l.out_eq;
        holds = l.holds;
        junk_last = l.junk_last;
        whole = l.whole;
        nchunks_at = l.nchunks_at;
        ntail_at = l.ntail_at;
        prev_word = l.prev_word;
        no_value = l.no_value;
        no_pair = l.no_pair;
        tail_words = l.tail_words;
      };
      buffers = record {
        index_eq = f.index_eq;
        short = omega (arith, length-snoc pend (ts, value));
        ts_length = f.ts_length;
        val_length = f.val_length;
        ts_pend = f.ts_pend;
        val_pend = f.val_pend;
        words = f.words;
      };
      phase = inl (empty, room);
    }

-- With nothing buffered and nothing behind the body either phase may be at hand.
pub phase_of :
    (space : ℕ)
    → ((◌≡◌ {A = List Point} [] []) × (margin ≤ space))
      ⊎ ((◌≡◌ {A = List Point} [] []) × (space < margin))
phase_of space = elim (dec_lt space margin) [
  | yes small ↦ inr (refl, small)
  | no large ↦ inl (refl, omega arith)
]
