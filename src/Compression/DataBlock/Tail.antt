-- ===== src/Compression/DataBlock/Tail.antt =====
-- Points behind the chunks, in the bytes that are too few for another chunk.
use akumuli.Base.{
  ℕ, suc, ◌+◌, ◌-◌, ◌%◌, ◌^◌, ◌≤◌, ◌<◌, ◌≡◌, refl, ap, ◌∙◌, sym, arith, List, [], ◌∷◌, ◌++◌,
  append_assoc, append-nil, length, All-append, length-append, length-set, set, ◌/◌, inl, inr,
}
use akumuli.Base.Words.{u16, to_bytes, length-to_bytes}
use akumuli.Status.{success, eoverflow}
use akumuli.Compression.VByte.Writer.{VByteWriter, space_left, append}
use akumuli.Compression.VByte.Writes.{put_raw_fits, put_raw_full}
use akumuli.Compression.DataBlock.Writer.{DataBlockWriter, margin, put_tail, bump, store, load}
use akumuli.Compression.DataBlock.Header.{header, holds, bump-ntail}
use akumuli.Compression.DataBlock.Content.{Point}
use akumuli.Compression.DataBlock.Invariant.{Layout, Inv, IsPoint, tail_bytes, length-snoc}
use native.Mathlib.Decide.{dec_lt}

pub tail_bytes-snoc :
    (ps : List Point) (ts value : ℕ)
    → tail_bytes (ps ++ (ts, value) ∷ []) ≡ tail_bytes ps ++ (to_bytes 8 ts ++ to_bytes 8 value)
unfolding tail_bytes
tail_bytes-snoc [] ts value =
    ap (λ (t : List ℕ). to_bytes 8 ts ++ t) (append-nil (to_bytes 8 value))
tail_bytes-snoc ((t, v) ∷ ps) ts value = rw (tail_bytes-snoc ps ts value) (
    sym (
      append_assoc (to_bytes 8 t) (to_bytes 8 v ++ tail_bytes ps)
        (to_bytes 8 ts ++ to_bytes 8 value)
      ∙ ap (λ (u : List ℕ). to_bytes 8 t ++ u)
          (append_assoc (to_bytes 8 v) (tail_bytes ps) (to_bytes 8 ts ++ to_bytes 8 value))))

-- One more plain point in the block's bytes, with the counter of the tail.
pub point_written :
    (w : VByteWriter) (c id : ℕ) (body : List ℕ) (tail : List Point) (ts value : ℕ)
    → w.out ≡ header c (length tail) id ++ (body ++ (tail_bytes tail ++ []))
    → suc (length tail) < 2 ^ 16
    → bump (append (append w (to_bytes 8 ts)) (to_bytes 8 value)) 4
      ≡ holds w (
          header c (suc (length tail)) id
          ++ (body ++ (tail_bytes (tail ++ (ts, value) ∷ []) ++ [])))
point_written w c id body tail ts value e h =
    ap (λ (t : List ℕ). bump (holds w t) 4) joined
    ∙ bump-ntail w c (length tail) id (body ++ (tail_bytes (tail ++ (ts, value) ∷ []) ++ [])) h
  where
    joined :
        (w.out ++ to_bytes 8 ts) ++ to_bytes 8 value
        ≡ header c (length tail) id ++ (body ++ (tail_bytes (tail ++ (ts, value) ∷ []) ++ []))
    joined = simp (e, tail_bytes-snoc tail ts value, append_assoc, append-nil)

put_tail_fits :
    (b : DataBlockWriter) (ts value : ℕ)
    → 16 ≤ space_left b.stream
    → put_tail b ts value ≡ (
      record b {
        stream = bump (append (append b.stream (to_bytes 8 ts)) (to_bytes 8 value)) b.ntail;
      },
      success,
    )
unfolding put_tail
put_tail_fits b ts value h =
    rw
      (
        put_raw_fits 8 b.stream ts (omega arith),
        put_raw_fits 8 (append b.stream (to_bytes 8 ts)) value
            (omega (arith, length-append b.stream.out (to_bytes 8 ts), length-to_bytes 8 ts)),
      )
      refl

put_tail_half :
    (b : DataBlockWriter) (ts value : ℕ)
    → 8 ≤ space_left b.stream
    → space_left b.stream < 16
    → put_tail b ts value ≡ (record b { stream = append b.stream (to_bytes 8 ts) }, eoverflow)
unfolding put_tail
put_tail_half b ts value h k =
    rw
      (
        put_raw_fits 8 b.stream ts h,
        put_raw_full 8 (append b.stream (to_bytes 8 ts)) value
            (omega (arith, length-append b.stream.out (to_bytes 8 ts), length-to_bytes 8 ts)),
      )
      refl

put_tail_none :
    (b : DataBlockWriter) (ts value : ℕ)
    → space_left b.stream < 8
    → put_tail b ts value ≡ (b, eoverflow)
unfolding put_tail
put_tail_none b ts value h = rw (put_raw_full 8 b.stream ts h) refl

length-bump : (w : VByteWriter) (at : ℕ) → length (bump w at).out ≡ length w.out
unfolding bump store
length-bump w at =
    length-set (set w.out at (u16 (load w at + 1) % 256)) (at + 1) (u16 (load w at + 1) / 256 % 256)
    ∙ length-set w.out at (u16 (load w at + 1) % 256)

-- A plain point, where both of its words fit.
pub put_tail-Inv :
    (id : ℕ) (b : DataBlockWriter) (chunks : List (List Point)) (tail : List Point) (ts value : ℕ)
    → Inv id b chunks [] tail
    → IsPoint (ts, value)
    → 16 ≤ space_left b.stream
    → space_left b.stream < margin
    → suc (length tail) < 2 ^ 16
    → (b' : DataBlockWriter) × (put_tail b ts value ≡ (b', success))
      × Inv id b' chunks [] (tail ++ (ts, value) ∷ [])
put_tail-Inv id b chunks tail ts value v word room small count =
    let l = v.layout in
    let u = v.buffers in
    let after =
      header (length chunks) (suc (length tail)) id
      ++ (l.body ++ (tail_bytes (tail ++ (ts, value) ∷ []) ++ [])) in
    let written = point_written b.stream (length chunks) id l.body tail ts value (out_eq l) count in
    (
      record b { stream = holds b.stream after },
      put_tail_fits b ts value room
          ∙ ap (λ (t : VByteWriter). (record b { stream = t }, success)) (rw (l.ntail_at) written),
      record {
        layout = record {
          body = l.body;
          junk = [];
          out_eq = rw (length-snoc tail (ts, value)) refl;
          holds = l.holds;
          junk_last = inl refl;
          whole = l.whole;
          nchunks_at = l.nchunks_at;
          ntail_at = l.ntail_at;
          prev_word = l.prev_word;
          no_value = l.no_value;
          no_pair = l.no_pair;
          tail_words = All-append IsPoint tail ((ts, value) ∷ []) l.tail_words (word, tt);
        };
        buffers = record {
          index_eq = u.index_eq;
          short = u.short;
          ts_length = u.ts_length;
          val_length = u.val_length;
          ts_pend = u.ts_pend;
          val_pend = u.val_pend;
          words = u.words;
        };
        phase = inr (refl, less_space written);
      },
    )
  where
    out_eq :
        (l : Layout id b chunks tail)
        → b.stream.out
          ≡ header (length chunks) (length tail) id ++ (l.body ++ (tail_bytes tail ++ []))
    out_eq l = elim l.junk_last [
      | inl none_left ↦ l.out_eq ∙ rw none_left refl
      | inr full ↦ absurd (omega (arith, full))
    ]

    less_space :
        {out : List ℕ}
        → bump (append (append b.stream (to_bytes 8 ts)) (to_bytes 8 value)) 4 ≡ holds b.stream out
        → b.stream.cap - length out < margin
    less_space {out = out} e = omega (
      arith,
      small,
      ap (λ (t : VByteWriter). length t.out) e,
      length-bump (append (append b.stream (to_bytes 8 ts)) (to_bytes 8 value)) 4,
      length-append (b.stream.out ++ to_bytes 8 ts) (to_bytes 8 value),
      length-append b.stream.out (to_bytes 8 ts),
    )

-- The first word of a point for which there is no room behind it stays in the block.
put_tail_half-Inv :
    (id : ℕ) (b : DataBlockWriter) (chunks : List (List Point)) (tail : List Point) (ts : ℕ)
    → Inv id b chunks [] tail
    → space_left b.stream < 16
    → Inv id (record b { stream = append b.stream (to_bytes 8 ts) }) chunks [] tail
put_tail_half-Inv id b chunks tail ts v small =
    let l = v.layout in
    let u = v.buffers in
    let wrote = length-append b.stream.out (to_bytes 8 ts) in
    record {
      layout = record {
        body = l.body;
        junk = l.junk ++ to_bytes 8 ts;
        out_eq = simp (l.out_eq, append_assoc);
        holds = l.holds;
        junk_last = inr (omega (arith, small, wrote));
        whole = l.whole;
        nchunks_at = l.nchunks_at;
        ntail_at = l.ntail_at;
        prev_word = l.prev_word;
        no_value = l.no_value;
        no_pair = l.no_pair;
        tail_words = l.tail_words;
      };
      buffers = record {
        index_eq = u.index_eq;
        short = u.short;
        ts_length = u.ts_length;
        val_length = u.val_length;
        ts_pend = u.ts_pend;
        val_pend = u.val_pend;
        words = u.words;
      };
      phase = inr (refl, omega (arith, small, wrote));
    }

-- A point behind the chunks is written, or is refused where there is no room for both of its words.
pub put_tail_full-Inv :
    (id : ℕ) (b : DataBlockWriter) (chunks : List (List Point)) (tail : List Point) (ts value : ℕ)
    → Inv id b chunks [] tail
    → space_left b.stream < 16
    → (b' : DataBlockWriter) × (put_tail b ts value ≡ (b', eoverflow)) × Inv id b' chunks [] tail
put_tail_full-Inv id b chunks tail ts value v small = elim (dec_lt (space_left b.stream) 8) [
  | yes none_fits ↦ (b, put_tail_none b ts value none_fits, v)
  | no one_fits ↦ (
    record b { stream = append b.stream (to_bytes 8 ts) },
    put_tail_half b ts value (omega arith) small,
    put_tail_half-Inv id b chunks tail ts v small,
  )
]
