-- ===== src/Compression/DataBlock/Commit.antt =====
-- libakumuli/storage_engine/compression.cpp: DataBlockWriter::commit, and what a block holds then.
use akumuli.Base.{
  ℕ, suc, ◌+◌, ◌-◌, ◌*◌, ◌/◌, ◌%◌, ◌^◌, ◌≤◌, ◌<◌, ◌≡◌, refl, ap, ◌∙◌, sym, subst, true, arith, List,
  [], ◌∷◌, ◌++◌, append_assoc, append-nil, length, take, All, length-append, inl, inr, ne→==,
}
use akumuli.Base.Words.{u16, to_bytes, length-to_bytes}
use akumuli.Base.Outcome.{ok}
use akumuli.Compression.VByte.Writer.{VByteWriter, space_left, size, append}
use akumuli.Compression.VByte.Writes.{put_raw_fits}
use akumuli.Compression.Predictor.{DfcmPredictor}
use akumuli.Compression.DataBlock.Writer.{
  DataBlockWriter, margin, flush_point, flush_loop, commit, bump, store, load,
}
use akumuli.Compression.DataBlock.Header.{header, holds, load-ntail, store-nchunks}
use akumuli.Compression.DataBlock.Content.{Point, times, values, Holds}
use akumuli.Compression.DataBlock.Invariant.{
  Inv, IsPoint, IsChunk, content, tail_bytes, length-snoc,
}
use akumuli.Compression.DataBlock.Tail.{point_written}
use akumuli.Compression.DataBlock.Put.{Stores, length-content}
use mathlib.Core.List.{zip, flatten}

-- The bytes of a finished block with the id `id` and the points `ps`; `junk` is what its last bytes are.
pub record IsBlock (id : ℕ) (ps : List Point) (block : List ℕ) : Type 0 where
  pub chunks : List (List Point)
  pub plain : List Point
  pub body : List ℕ
  pub junk : List ℕ
  pub predictor : DfcmPredictor
  pub prev : ℕ
  pub block_eq :
      block ≡ header (length chunks) (length plain) id ++ (body ++ (tail_bytes plain ++ junk))
  pub points_eq : flatten chunks ++ plain ≡ ps
  pub holds : Holds predictor prev body chunks
  pub whole : All IsChunk chunks
  pub plain_words : All IsPoint plain
  pub few_chunks : length chunks < 2 ^ 16
  pub few_plain : length plain < 2 ^ 16

abbrev points_at : ℕ → ℕ → List ℕ → List Point → List ℕ
points_at c id body ps = header c (length ps) id ++ (body ++ (tail_bytes ps ++ []))

flush_point_fits :
    (b : DataBlockWriter) (ts value : ℕ)
    → 16 ≤ space_left b.stream
    → flush_point b ts value ≡ (
      record b {
        stream = bump (append (append b.stream (to_bytes 8 ts)) (to_bytes 8 value)) b.ntail;
        write_index = b.write_index - 1;
      },
      true,
    )
unfolding flush_point
flush_point_fits b ts value h =
    rw
      (
        put_raw_fits 8 b.stream ts (omega arith),
        put_raw_fits 8 (append b.stream (to_bytes 8 ts)) value
            (omega (arith, length-append b.stream.out (to_bytes 8 ts), length-to_bytes 8 ts)),
      )
      refl

flush_step :
    (b b' : DataBlockWriter) (ts value : ℕ) (rest : List (ℕ × ℕ))
    → flush_point b ts value ≡ (b', true)
    → flush_loop b ((ts, value) ∷ rest) ≡ flush_loop b' rest
unfolding flush_loop
flush_step b b' ts value rest e = rw e refl

length-tail_bytes : (ps : List Point) → length (tail_bytes ps) ≡ 16 * length ps
unfolding tail_bytes
length-tail_bytes [] = refl
length-tail_bytes ((t, v) ∷ ps) = omega (
  arith,
  length-tail_bytes ps,
  length-append (to_bytes 8 t) (to_bytes 8 v ++ tail_bytes ps),
  length-append (to_bytes 8 v) (tail_bytes ps),
  length-to_bytes 8 t,
  length-to_bytes 8 v,
)

length-points_at :
    (c id : ℕ) (body : List ℕ) (ps : List Point)
    → length (points_at c id body ps) ≡ 14 + (length body + 16 * length ps)
unfolding header to_bytes
length-points_at c id body ps = omega (
  arith,
  length-append body (tail_bytes ps ++ []),
  length-append (tail_bytes ps) [],
  length-tail_bytes ps,
)

-- Every buffered point reaches the block where there is room for all of them.
flush_loop_lem :
    (ps done : List Point) (b : DataBlockWriter) (c id : ℕ) (body : List ℕ)
    → b.stream.out ≡ points_at c id body done
    → b.ntail ≡ 4
    → 16 * length ps ≤ space_left b.stream
    → length done + length ps < 2 ^ 16
    → ((flush_loop b (zip (times ps) (values ps))).stream
        ≡ holds b.stream (points_at c id body (done ++ ps)))
      × ((flush_loop b (zip (times ps) (values ps))).nchunks ≡ b.nchunks)
unfolding zip
flush_loop_lem [] done b c id body e at room few =
    unfold flush_loop in
    (ap (holds b.stream) (e ∙ ap (points_at c id body) (sym (append-nil done))), refl)
flush_loop_lem ((ts, value) ∷ ps) done b c id body e at room few =
    let w = holds b.stream (points_at c id body (done ++ (ts, value) ∷ [])) in
    let b' = record b { stream = w; write_index = b.write_index - 1 } in
    let (stream_eq, nchunks_eq) =
      flush_loop_lem ps (done ++ (ts, value) ∷ []) b' c id body refl at
        (omega (
          arith,
          ap (λ (t : List ℕ). length t) e,
          length-points_at c id body (done ++ (ts, value) ∷ []),
          length-points_at c id body done,
          length-snoc done (ts, value),
        ))
        (omega (arith, length-snoc done (ts, value))) in
    let wrote : bump (append (append b.stream (to_bytes 8 ts)) (to_bytes 8 value)) b.ntail ≡ w =
      rw (at, length-snoc done (ts, value))
        (point_written b.stream c id body done ts value e (omega arith)) in
    let step = flush_step b b' ts value (zip (times ps) (values ps)) (
      flush_point_fits b ts value (omega arith)
      ∙ ap (λ (t : VByteWriter). (record b { stream = t; write_index = b.write_index - 1 }, true))
          wrote) in
    (
      ap (λ (t : DataBlockWriter). t.stream) step
          ∙ stream_eq
          ∙ ap (λ (t : List Point). holds b.stream (points_at c id body t))
              (append_assoc done ((ts, value) ∷ []) ps),
      ap (λ (t : DataBlockWriter). t.nchunks) step ∙ nchunks_eq,
    )

-- A block whose buffers are empty: only the number of chunks is written.
commit_idle :
    (b : DataBlockWriter)
    → b.write_index % 16 ≡ 0
    → commit b
      ≡ ok (
        record b { stream = store b.stream b.nchunks (u16 (b.write_index / 16)) },
        size (store b.stream b.nchunks (u16 (b.write_index / 16))),
      )
unfolding commit
commit_idle b h = rw h refl

-- Buffered points, with none behind the chunks.
commit_flush :
    (b f : DataBlockWriter) (k : ℕ)
    → b.write_index % 16 ≡ suc k
    → load b.stream b.ntail ≡ 0
    → flush_loop b (zip (take (suc k) b.ts_writebuf) (take (suc k) b.val_writebuf)) ≡ f
    → commit b
      ≡ ok (
        record f { stream = store f.stream f.nchunks (u16 (b.write_index / 16)) },
        size (store f.stream f.nchunks (u16 (b.write_index / 16))),
      )
unfolding commit
commit_flush b f k h none_behind flushed =
    rw (h, ne→== (suc k) 0 (omega arith), none_behind, flushed) refl

sealed :
    (w : VByteWriter) (c t id at index : ℕ) (bytes : List ℕ)
    → w.out ≡ header c t id ++ bytes
    → at ≡ 2
    → u16 (index / 16) ≡ c
    → (store w at (u16 (index / 16))).out ≡ header c t id ++ bytes
sealed w c t id at index bytes e two same =
    rw (two, same)
      (ap (λ (u : List ℕ). (store (holds w u) 2 c).out) e
        ∙ ap (λ (u : VByteWriter). u.out) (store-nchunks w c t id c bytes))

-- What `commit` comes to: a finished block, and its size.
abbrev pub Commits : ℕ → DataBlockWriter → List Point → Type 0
Commits id b ps =
    (b' : DataBlockWriter) × (commit b ≡ ok (b', size b'.stream)) × IsBlock id ps b'.stream.out

commit_whole :
    (id : ℕ) (b : DataBlockWriter) (chunks : List (List Point)) (tail : List Point)
    → Inv id b chunks [] tail
    → length (content chunks [] tail) < 2 ^ 16
    → Commits id b (content chunks [] tail)
commit_whole id b chunks tail v few =
    let l = v.layout in
    let long = length-content chunks [] tail l.whole in
    let index = v.buffers.index_eq in
    (
      record b { stream = store b.stream b.nchunks (u16 (b.write_index / 16)) },
      commit_idle b (omega (arith, index)),
      record {
        chunks = chunks;
        plain = tail;
        body = l.body;
        junk = l.junk;
        predictor = b.val_stream.predictor;
        prev = b.ts_stream.prev;
        block_eq =
            sealed b.stream (length chunks) (length tail) id b.nchunks b.write_index _ l.out_eq
              l.nchunks_at (omega (arith, index, long));
        points_eq = refl;
        holds = l.holds;
        whole = l.whole;
        plain_words = l.tail_words;
        few_chunks = omega (arith, long);
        few_plain = omega (arith, long);
      },
    )

commit_rest :
    (id : ℕ) (b : DataBlockWriter) (chunks : List (List Point)) (p : Point) (pend : List Point)
    → Inv id b chunks (p ∷ pend) []
    → margin ≤ space_left b.stream
    → length (content chunks (p ∷ pend) []) < 2 ^ 16
    → Commits id b (content chunks (p ∷ pend) [])
commit_rest id b chunks p pend v room few =
    let l = v.layout in
    let u = v.buffers in
    let c = length chunks in
    let ps = p ∷ pend in
    let long = length-content chunks ps [] l.whole in
    let index = u.index_eq in
    let clean : b.stream.out ≡ points_at c id l.body [] = elim l.junk_last [
      | inl none_left ↦ unfold tail_bytes in (l.out_eq ∙ rw none_left refl)
      | inr small ↦ absurd (omega (arith, small))
    ] in
    let f = flush_loop b (zip (times ps) (values ps)) in
    let (stream_eq, nchunks_eq) =
      flush_loop_lem ps [] b c id l.body clean l.ntail_at (omega (arith, u.short))
        (omega (arith, u.short)) in
    (
      record f { stream = store f.stream f.nchunks (u16 (b.write_index / 16)) },
      commit_flush b f (length pend) (omega (arith, index, u.short))
          (rw (l.ntail_at) (
            ap (λ (t : List ℕ). load (holds b.stream t) 4) clean
            ∙ load-ntail b.stream c 0 id _ (omega arith)))
          (rw (u.ts_pend, u.val_pend) refl),
      record {
        chunks = chunks;
        plain = ps;
        body = l.body;
        junk = [];
        predictor = b.val_stream.predictor;
        prev = b.ts_stream.prev;
        block_eq =
            sealed f.stream c (length ps) id f.nchunks b.write_index _
              (ap (λ (t : VByteWriter). t.out) stream_eq) (nchunks_eq ∙ l.nchunks_at)
              (omega (arith, index, long, u.short));
        points_eq = ap (λ (t : List Point). flatten chunks ++ t) (sym (append-nil ps));
        holds = l.holds;
        whole = l.whole;
        plain_words = u.words;
        few_chunks = omega (arith, long);
        few_plain = omega (arith, long);
      },
    )

commit_some :
    (id : ℕ) (b : DataBlockWriter) (chunks : List (List Point)) (pend tail : List Point)
    → Inv id b chunks pend tail
    → length (content chunks pend tail) < 2 ^ 16
    → Commits id b (content chunks pend tail)
commit_some id b chunks [] tail v few = commit_whole id b chunks tail v few
commit_some id b chunks (p ∷ pend) [] v few = elim v.phase [
  | inl (_, room) ↦ commit_rest id b chunks p pend v room few
  | inr (empty, _) ↦ absurd (omega (arith, ap (λ (t : List Point). length t) empty))
]
commit_some id b chunks (p ∷ pend) (q ∷ tail) v few = elim v.phase [
  | inl (empty, _) ↦ absurd (omega (arith, ap (λ (t : List Point). length t) empty))
  | inr (empty, _) ↦ absurd (omega (arith, ap (λ (t : List Point). length t) empty))
]

-- `commit` never panics on a block that stores fewer than 2 ^ 16 points; it leaves a finished block with
-- exactly these points, in this order, and answers the size of that block.
pub commit_lem :
    (id : ℕ) (b : DataBlockWriter) (ps : List Point)
    → Stores id b ps
    → length ps < 2 ^ 16
    → Commits id b ps
commit_lem id b ps s few =
    subst (λ qs. Commits id b qs) s.content_eq
      (commit_some id b s.chunks s.pend s.tail s.inv
        (subst (λ qs. length qs < 2 ^ 16) (sym s.content_eq) few))
