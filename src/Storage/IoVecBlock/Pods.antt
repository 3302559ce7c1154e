-- ===== src/Storage/IoVecBlock/Pods.antt =====
-- Values of several bytes: put(const POD&) and get_raw.
use akumuli.Base.{
  ℕ, zero, suc, ◌+◌, ◌^◌, ◌≤◌, ◌<◌, ◌≡◌, refl, ap, sym, ◌∙◌, arith, List, [], ◌∷◌, length, get_or,
  take, drop, append-nil, drop-append, take_all,
}
use akumuli.Base.Words.{u32, to_bytes, from_bytes, length-to_bytes, from_bytes-to_bytes}
use akumuli.Base.Outcome.{ok}
use akumuli.Storage.IoVecBlock.{IoVecBlock, get_bits, get_raw, put_bytes}
use akumuli.Storage.IoVecBlock.View.{contents, IsSplit, length-contents}
use akumuli.Storage.IoVecBlock.Bytes.{Appends, put-Appends, get_lem}
use akumuli.Storage.IoVecBlock.Appends.{Appends-trans}
use akumuli.Storage.IoVecBlock.Reads.{slice}

put_bytes-Appends :
    (bytes : List ℕ) (b : IoVecBlock)
    → IsSplit b
    → b.pos + length bytes ≤ 4096
    → (b' : IoVecBlock) × (put_bytes bytes b ≡ ok b') × Appends b bytes b'
unfolding put_bytes
put_bytes-Appends [] b v room = (
  b,
  refl,
  record { split = v; pos_eq = omega arith; contents_eq = sym (append-nil (contents b)) },
)
put_bytes-Appends (x ∷ xs) b v room =
    let (b₁, one, first) = put-Appends b x v (omega (arith, room)) in
    let (b₂, more, rest) =
      put_bytes-Appends xs b₁ first.split (omega (arith, room, first.pos_eq)) in
    (b₂, rw (one) more, Appends-trans b b₁ b₂ (x ∷ []) xs first rest)

slice-suc :
    (xs : List ℕ) (o n : ℕ)
    → o < length xs
    → take (suc n) (drop o xs) ≡ get_or xs o 0 ∷ take n (drop (suc o) xs)
slice-suc [] o n h = absurd (omega (arith, h))
slice-suc (x ∷ xs) zero n h = refl
slice-suc (x ∷ xs) (suc o) n h = slice-suc xs o n (omega (arith, h))

get_bits-slice :
    (b : IoVecBlock) (n offset : ℕ)
    → IsSplit b
    → offset + n ≤ b.pos
    → get_bits b n offset ≡ ok (slice b offset n)
unfolding get_bits
get_bits-slice b zero offset v h = refl
get_bits-slice b (suc n) offset v h =
    let next : u32 (offset + 1) ≡ suc offset = omega (arith, h, v.within) in
    let rest = get_bits-slice b n (suc offset) v (omega (arith, h)) in
    rw (get_lem b offset v (omega (arith, h)), next, rest)
      (ap (λ (t : List ℕ). ok t)
        (sym (slice-suc (contents b) offset n (omega (arith, h, length-contents b)))))

-- In a block of components with room for it, an unsigned integer that is put as its bytes stands behind
-- the others, and get_raw at its place gives it back.
pub get_raw-put_bytes :
    (b : IoVecBlock) (n value : ℕ)
    → IsSplit b
    → b.pos + n ≤ 4096
    → value < 256 ^ n
    → (b' : IoVecBlock) × (put_bytes (to_bytes n value) b ≡ ok b')
      × Appends b (to_bytes n value) b'
      × (get_raw b' n b.pos ≡ ok value)
unfolding get_raw
get_raw-put_bytes b n value v room small =
    let bytes = to_bytes n value in
    let len = length-to_bytes n value in
    let (b', stored, app) = put_bytes-Appends bytes b v (omega (arith, room, len)) in
    let read = get_bits-slice b' n b.pos app.split (omega (arith, app.pos_eq, len)) in
    let behind : slice b' b.pos n ≡ bytes =
      ap (λ (t : List ℕ). take n (drop b.pos t)) app.contents_eq
      ∙ ap (λ (t : List ℕ). take n t) (drop-append b.pos (contents b) bytes (length-contents b))
      ∙ take_all n bytes len in
    (
      b',
      stored,
      app,
      rw (read) (
          ap (λ (t : List ℕ). ok (from_bytes t)) behind
          ∙ ap (λ (k : ℕ). ok k) (from_bytes-to_bytes n value small)),
    )
