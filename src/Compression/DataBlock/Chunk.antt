-- ===== src/Compression/DataBlock/Chunk.antt =====
-- The sixteenth point of a chunk: both buffers are compressed into the block, and there is always room.
use akumuli.Base.{
  ℕ, suc, ◌^◌, ◌≤◌, ◌<◌, ◌≡◌, refl, ap, ◌∙◌, sym, subst, true, arith, List, [], ◌∷◌, ◌++◌,
  append_assoc, append-nil, length, All, length-append, take, take_all, inl, inr, All-append,
}
use akumuli.Base.Words.{IsU64}
use akumuli.Status.{success}
use akumuli.Compression.VByte.Writer.{VByteWriter, space_left, append}
use akumuli.Compression.DeltaDelta.{DeltaWriter}
use akumuli.Compression.DeltaDelta
use akumuli.Compression.DeltaDelta.RoundTrip.{tput_room, tput_taken, Decodes, last_or}
use akumuli.Compression.Fcm.Writer.{encode_all}
use akumuli.Compression.Fcm.Writes.{chunk_bytes, length-chunk_bytes, length-encode_all, tput_fits}
use akumuli.Compression.DataBlock.Writer.{DataBlockWriter, margin, put_chunk, bump}
use akumuli.Compression.DataBlock.Header.{header, holds, bump-nchunks}
use akumuli.Compression.DataBlock.Content.{
  Point, times, values, Holds, Holds-append, length-times, length-values,
}
use akumuli.Compression.DataBlock.Invariant.{
  Layout, Filled, Inv, IsPoint, IsChunk, tail_bytes, phase_of,
}

times-words : (ps : List Point) → All IsPoint ps → All IsU64 (times ps)
times-words [] all = tt
times-words (p ∷ ps) (h, all) = (h.0, times-words ps all)

values-words : (ps : List Point) → All IsPoint ps → All IsU64 (values ps)
values-words [] all = tt
values-words (p ∷ ps) (h, all) = (h.1, values-words ps all)

last_or-IsU64 : (p : ℕ) (xs : List ℕ) → IsU64 p → All IsU64 xs → IsU64 (last_or p xs)
unfolding last_or
last_or-IsU64 p [] h all = h
last_or-IsU64 p (x ∷ xs) h (hx, all) = last_or-IsU64 x xs hx all

-- The writer after both codecs have appended their bytes for the buffers.
abbrev compressed : DataBlockWriter → DeltaWriter → List ℕ → List ℕ → DataBlockWriter
compressed b d bytes ys = record b {
  stream =
      bump (append (append b.stream bytes) (chunk_bytes (encode_all b.val_stream.predictor ys).1))
        b.nchunks;
  ts_stream = d;
  val_stream = record b.val_stream { predictor = (encode_all b.val_stream.predictor ys).0 };
}

put_chunk_steps :
    (b : DataBlockWriter) (d : DeltaWriter) (bytes xs ys : List ℕ)
    → b.ts_writebuf ≡ xs
    → b.val_writebuf ≡ ys
    → DeltaDelta.tput b.ts_stream b.stream xs ≡ (d, append b.stream bytes, true)
    → b.val_stream.nelements ≡ 0
    → b.stream.cnt ≡ 0
    → length (chunk_bytes (encode_all b.val_stream.predictor ys).1)
      ≤ space_left (append b.stream bytes)
    → put_chunk b ≡ (compressed b d bytes ys, success)
unfolding put_chunk
put_chunk_steps b d bytes xs ys ts_eq val_eq ts_done no_value no_pair room =
    rw
      (
        ts_eq,
        ts_done,
        val_eq,
        tput_fits b.val_stream (append b.stream bytes) ys (omega arith) (omega arith) room,
      )
      refl

no_junk :
    (id : ℕ) (b : DataBlockWriter) (chunks : List (List Point)) (tail : List Point)
    (l : Layout id b chunks tail)
    → margin ≤ space_left b.stream
    → l.junk ≡ []
no_junk id b chunks tail l room = elim l.junk_last [
  | inl none_left ↦ none_left
  | inr small ↦ absurd (omega (arith, small))
]

-- The block's bytes with one more chunk in the body, and the counter of chunks.
stream_after :
    (id : ℕ) (b : DataBlockWriter) (chunks : List (List Point)) (l : Layout id b chunks [])
    (bytes val_bytes : List ℕ)
    → margin ≤ space_left b.stream
    → suc (length chunks) < 2 ^ 16
    → bump (append (append b.stream bytes) val_bytes) b.nchunks
      ≡ holds b.stream (header (suc (length chunks)) 0 id ++ (l.body ++ (bytes ++ val_bytes)))
stream_after id b chunks l bytes val_bytes room h = rw (l.nchunks_at) (
    ap (λ (t : List ℕ). bump (holds b.stream t) 2) joined
    ∙ bump-nchunks b.stream (length chunks) 0 id (l.body ++ (bytes ++ val_bytes)) h)
  where
    joined :
        (b.stream.out ++ bytes) ++ val_bytes
        ≡ header (length chunks) 0 id ++ (l.body ++ (bytes ++ val_bytes))
    joined =
        unfold tail_bytes in
        rw
          (
            l.out_eq,
            no_junk id b chunks [] l room,
            append-nil l.body,
            append_assoc (header (length chunks) 0 id) l.body bytes,
            append_assoc (header (length chunks) 0 id) (l.body ++ bytes) val_bytes,
            append_assoc l.body bytes val_bytes,
          )
          refl

length-snoc_chunk :
    (chunks : List (List Point)) (ps : List Point)
    → length (chunks ++ ps ∷ []) ≡ suc (length chunks)
length-snoc_chunk chunks ps = omega (arith, length-append chunks (ps ∷ []))

after_chunk :
    (id : ℕ) (b : DataBlockWriter) (chunks : List (List Point)) (pend : List Point)
    → Layout id b chunks []
    → DeltaWriter
    → List ℕ
    → List ℕ
    → DataBlockWriter
after_chunk id b chunks pend l d bytes val_bytes = record b {
  stream = holds b.stream (header (suc (length chunks)) 0 id ++ (l.body ++ (bytes ++ val_bytes)));
  ts_stream = d;
  val_stream = record b.val_stream {
    predictor = (encode_all b.val_stream.predictor (values pend)).0;
  };
}

after_chunk-Inv :
    (id : ℕ) (b : DataBlockWriter) (chunks : List (List Point)) (pend : List Point)
    (l : Layout id b chunks []) (d : DeltaWriter) (bytes : List ℕ)
    → Filled b chunks pend
    → length pend ≡ 16
    → d.prev ≡ last_or b.ts_stream.prev (times pend)
    → Decodes b.ts_stream bytes (times pend)
    → Inv id
        (after_chunk id b chunks pend l d bytes
          (chunk_bytes (encode_all b.val_stream.predictor (values pend)).1))
        (chunks ++ pend ∷ [])
        []
        []
unfolding after_chunk
after_chunk-Inv id b chunks pend l d bytes f full prev_eq decodes =
    let val_bytes = chunk_bytes (encode_all b.val_stream.predictor (values pend)).1 in
    record {
      layout = record {
        body = l.body ++ (bytes ++ val_bytes);
        junk = [];
        out_eq =
            unfold tail_bytes in
            rw (length-snoc_chunk chunks pend, append-nil (l.body ++ (bytes ++ val_bytes))) refl;
        holds =
            subst
              (λ t.
                Holds (encode_all b.val_stream.predictor (values pend)).0 t
                  (l.body ++ (bytes ++ val_bytes)) (chunks ++ pend ∷ []))
              (sym prev_eq)
              (Holds-append b.val_stream.predictor b.ts_stream l.body bytes chunks pend full
                (values-words pend f.words) l.holds decodes);
        junk_last = inl refl;
        whole = All-append IsChunk chunks (pend ∷ []) l.whole (full, tt);
        nchunks_at = l.nchunks_at;
        ntail_at = l.ntail_at;
        prev_word =
            rw prev_eq
              (last_or-IsU64 b.ts_stream.prev (times pend) l.prev_word (times-words pend f.words));
        no_value = l.no_value;
        no_pair = l.no_pair;
        tail_words = tt;
      };
      buffers = record {
        index_eq = omega (arith, f.index_eq, length-snoc_chunk chunks pend);
        short = omega arith;
        ts_length = f.ts_length;
        val_length = f.val_length;
        ts_pend = refl;
        val_pend = refl;
        words = tt;
      };
      phase = phase_of (space_left (after_chunk id b chunks pend l d bytes val_bytes).stream);
    }

-- With full buffers and room for a chunk `put_chunk` succeeds, and the points become a chunk of the
-- block. The code asserts that it does.
pub put_chunk-Inv :
    (id : ℕ) (b : DataBlockWriter) (chunks : List (List Point)) (pend : List Point)
    → Layout id b chunks []
    → Filled b chunks pend
    → length pend ≡ 16
    → margin ≤ space_left b.stream
    → suc (length chunks) < 2 ^ 16
    → (b' : DataBlockWriter) × (put_chunk b ≡ (b', success)) × Inv id b' (chunks ++ pend ∷ []) [] []
put_chunk-Inv id b chunks pend l f full room count =
    let times_length = length-times pend ∙ full in
    let (d, w, done, wrote) =
      tput_room b.ts_stream b.stream (times pend) times_length (omega arith) in
    let (bytes, w_eq, prev_eq, decodes) =
      tput_taken b.ts_stream d b.stream w (times pend) times_length (times-words pend f.words)
        l.prev_word done in
    let ds = (encode_all b.val_stream.predictor (values pend)).1 in
    let small =
      length-chunk_bytes ds
        (length-encode_all b.val_stream.predictor (values pend) ∙ length-values pend ∙ full) in
    (
      after_chunk id b chunks pend l d bytes (chunk_bytes ds),
      put_chunk_steps b d bytes (times pend) (values pend)
            (whole_buffer b.ts_writebuf f.ts_length f.ts_pend)
            (whole_buffer b.val_writebuf f.val_length f.val_pend)
            (done ∙ ap (λ (t : VByteWriter). (d, t, true)) w_eq) l.no_value l.no_pair
            (omega (arith, small, wrote, ap (λ (t : VByteWriter). length t.out) w_eq))
          ∙ unfold after_chunk in
            ap
              (λ (t : VByteWriter).
                (record (compressed b d bytes (values pend)) { stream = t }, success))
              (stream_after id b chunks l bytes (chunk_bytes ds) room count),
      after_chunk-Inv id b chunks pend l d bytes f full prev_eq decodes,
    )
  where
    whole_buffer :
        (buf : List ℕ) {xs : List ℕ} → length buf ≡ 16 → take (length pend) buf ≡ xs → buf ≡ xs
    whole_buffer buf h e = sym (take_all (length pend) buf (h ∙ sym full)) ∙ e
