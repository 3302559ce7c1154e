-- ===== src/Compression/DataBlock/Put.antt =====
-- libakumuli/storage_engine/compression.cpp: DataBlockWriter::put, against the list of the points that
-- the block stores.
use akumuli.Base.{
  ℕ, suc, ◌+◌, ◌*◌, ◌≤◌, ◌<◌, ◌≡◌, refl, ap, ◌∙◌, sym, subst, arith, List, [], ◌∷◌, ◌++◌,
  append_assoc, append-nil, length, All, length-append, ◌⊎◌, inl, inr,
}
use akumuli.Status.{success, eoverflow}
use akumuli.Compression.VByte.Writer.{space_left}
use akumuli.Compression.DataBlock.Writer.{DataBlockWriter, margin, put}
use akumuli.Compression.DataBlock.Content.{Point}
use akumuli.Compression.DataBlock.Invariant.{
  Layout, Inv, IsPoint, IsChunk, content, buffered, buffered-Filled, length-snoc, put_short,
  put_full, put_no_room, put_short-Inv,
}
use akumuli.Compression.DataBlock.Chunk.{put_chunk-Inv}
use akumuli.Compression.DataBlock.Tail.{put_tail-Inv, put_tail_full-Inv}
use native.Mathlib.Decide.{dec_lt}
use mathlib.Core.List.{flatten}

-- The writer has been given the points `ps`, in this order.
pub record Stores (id : ℕ) (b : DataBlockWriter) (ps : List Point) : Type 0 where
  pub chunks : List (List Point)
  pub pend : List Point
  pub tail : List Point
  pub inv : Inv id b chunks pend tail
  pub content_eq : content chunks pend tail ≡ ps

pub length-flatten :
    (chunks : List (List Point)) → All IsChunk chunks → length (flatten chunks) ≡ 16 * length chunks
unfolding flatten
length-flatten [] all = refl
length-flatten (c ∷ chunks) (h, all) =
    omega (arith, h, length-append c (flatten chunks), length-flatten chunks all)

pub length-content :
    (chunks : List (List Point)) (pend tail : List Point)
    → All IsChunk chunks
    → length (content chunks pend tail) ≡ 16 * length chunks + (length pend + length tail)
length-content chunks pend tail all = omega (
  arith,
  length-append (flatten chunks) (pend ++ tail),
  length-append pend tail,
  length-flatten chunks all,
)

flatten-snoc :
    (chunks : List (List Point)) (ps : List Point)
    → flatten (chunks ++ ps ∷ []) ≡ flatten chunks ++ ps
unfolding flatten
flatten-snoc [] ps = append-nil ps
flatten-snoc (c ∷ chunks) ps =
    ap (λ (t : List Point). c ++ t) (flatten-snoc chunks ps)
    ∙ sym (append_assoc c (flatten chunks) ps)

content-pend :
    (chunks : List (List Point)) (pend : List Point) (p : Point)
    → content chunks (pend ++ p ∷ []) [] ≡ content chunks pend [] ++ p ∷ []
content-pend chunks pend p = simp (append_assoc, append-nil)

content-chunk :
    (chunks : List (List Point)) (pend : List Point) (p : Point)
    → content (chunks ++ (pend ++ p ∷ []) ∷ []) [] [] ≡ content chunks pend [] ++ p ∷ []
content-chunk chunks pend p = simp (flatten-snoc chunks (pend ++ p ∷ []), append_assoc, append-nil)

content-tail :
    (chunks : List (List Point)) (tail : List Point) (p : Point)
    → content chunks [] (tail ++ p ∷ []) ≡ content chunks [] tail ++ p ∷ []
content-tail chunks tail p = sym (append_assoc (flatten chunks) tail (p ∷ []))

-- What `put` comes to: the point is stored, or there is no room for it and the points are as before.
abbrev pub Puts : ℕ → DataBlockWriter → List Point → Point → Type 0
Puts id b ps p =
    ((16 ≤ space_left b.stream)
      × ((b' : DataBlockWriter) × (put b p.0 p.1 ≡ (b', success)) × Stores id b' (ps ++ p ∷ [])))
    ⊎ ((space_left b.stream < 16)
        × ((b' : DataBlockWriter) × (put b p.0 p.1 ≡ (b', eoverflow)) × Stores id b' ps))

put_room :
    (id : ℕ) (b : DataBlockWriter) (chunks : List (List Point)) (pend : List Point) (p : Point)
    → Inv id b chunks pend []
    → IsPoint p
    → length (content chunks pend []) < 65535
    → margin ≤ space_left b.stream
    → (b' : DataBlockWriter) × (put b p.0 p.1 ≡ (b', success))
      × Stores id b' (content chunks pend [] ++ p ∷ [])
put_room id b chunks pend p v word few room = elim (dec_lt (length pend) 15) [
  | yes short ↦ (
    buffered b (length pend) p.0 p.1,
    put_short b chunks pend p.0 p.1 v.buffers room short,
    record {
      chunks = chunks;
      pend = pend ++ p ∷ [];
      tail = [];
      inv = put_short-Inv id b chunks pend [] p.0 p.1 v word refl room short;
      content_eq = content-pend chunks pend p;
    },
  )
  | no long ↦
      let last : length pend ≡ 15 = omega (arith, v.buffers.short) in
      let (b', done, v') =
        put_chunk-Inv id (buffered b (length pend) p.0 p.1) chunks (pend ++ p ∷ []) (again v.layout)
          (buffered-Filled b chunks pend p.0 p.1 v.buffers word) (length-snoc pend p ∙ ap suc last)
          room (omega (arith, length-content chunks pend [] v.layout.whole)) in
      (
        b',
        put_full b chunks pend p.0 p.1 v.buffers room last ∙ done,
        record {
          chunks = chunks ++ (pend ++ p ∷ []) ∷ [];
          pend = [];
          tail = [];
          inv = v';
          content_eq = content-chunk chunks pend p;
        },
      )
]
  where
    again : Layout id b chunks [] → Layout id (buffered b (length pend) p.0 p.1) chunks []
    again l = record {
      body = l.body;
      junk = l.junk;
      out_eq = l.out_eq;
      holds = l.holds;
      junk_last = l.junk_last;
      whole = l.whole;
      nchunks_at = l.nchunks_at;
      ntail_at = l.ntail_at;
      prev_word = l.prev_word;
      no_value = l.no_value;
      no_pair = l.no_pair;
      tail_words = l.tail_words;
    }

put_behind :
    (id : ℕ) (b : DataBlockWriter) (chunks : List (List Point)) (tail : List Point) (p : Point)
    → Inv id b chunks [] tail
    → IsPoint p
    → length (content chunks [] tail) < 65535
    → space_left b.stream < margin
    → Puts id b (content chunks [] tail) p
put_behind id b chunks tail p v word few small = elim (dec_lt (space_left b.stream) 16) [
  | yes full ↦
      let (b', refused, v') = put_tail_full-Inv id b chunks tail p.0 p.1 v full in
      inr (
        full,
        (
          b',
          put_no_room b p.0 p.1 small ∙ refused,
          record { chunks = chunks; pend = []; tail = tail; inv = v'; content_eq = refl },
        ),
      )
  | no fits ↦
      let (b', done, v') =
        put_tail-Inv id b chunks tail p.0 p.1 v word (omega arith) small
          (omega (arith, length-content chunks [] tail v.layout.whole)) in
      inl (
        omega arith,
        (
          b',
          put_no_room b p.0 p.1 small ∙ done,
          record {
            chunks = chunks;
            pend = [];
            tail = tail ++ p ∷ [];
            inv = v';
            content_eq = content-tail chunks tail p;
          },
        ),
      )
]

-- `put` stores the point exactly where the block has sixteen bytes left, and otherwise answers
-- AKU_EOVERFLOW with the points as they were; it never loses one.
pub put_lem :
    (id : ℕ) (b : DataBlockWriter) (ps : List Point) (p : Point)
    → Stores id b ps
    → IsPoint p
    → length ps < 65535
    → Puts id b ps p
put_lem id b ps p s word few =
    subst (λ qs. Puts id b qs p) s.content_eq
      (elim s.inv.phase [
        | inl (empty, room) ↦
            subst (λ t. Puts id b (content s.chunks s.pend t) p) (sym empty)
              (inl (
                omega (arith, room),
                put_room id b s.chunks s.pend p
                    (subst (λ t. Inv id b s.chunks s.pend t) empty s.inv) word
                    (subst (λ t. length (content s.chunks s.pend t) < 65535) empty few_now) room,
              ))
        | inr (empty, small) ↦
            subst (λ t. Puts id b (content s.chunks t s.tail) p) (sym empty)
              (put_behind id b s.chunks s.tail p
                (subst (λ t. Inv id b s.chunks t s.tail) empty s.inv) word
                (subst (λ t. length (content s.chunks t s.tail) < 65535) empty few_now) small)
      ])
  where
    few_now : length (content s.chunks s.pend s.tail) < 65535
    few_now = subst (λ qs. length qs < 65535) (sym s.content_eq) few
