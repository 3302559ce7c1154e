-- ===== src/Storage/Volume/Bytes.antt =====
-- What is written for a block of components: its bytes at their offsets.
use akumuli.Base.{
  ℕ, zero, suc, ◌+◌, ◌*◌, ◌/◌, ◌%◌, ◌≤◌, ◌<◌, ◌≡◌, inl, inr, refl, ap, sym, ◌∙◌, arith, List, [],
  ◌∷◌, ◌++◌, length, take, get_or, replicate, length-append, length-take, length-replicate,
  get_or-take, get_or-append_left, get_or-append_right, get_or-tabulate, list_ext, eq→==, ne→==,
}
use akumuli.Storage.IoVecBlock.{IoVecBlock, component}
use akumuli.Storage.IoVecBlock.View.{IsSplit, byte_at, contents, length-contents}
use akumuli.Storage.Volume.{iov, block_bytes}

length-iov : (b : IoVecBlock) (i : ℕ) → IsSplit b → length (iov b i) ≡ 1024
unfolding iov
length-iov b i v = elim (v.used i) [
  | inl none_there ↦ rw (eq→== _ 0 none_there) (length-replicate {A = ℕ} 1024 0)
  | inr there ↦
      rw (ne→== (length (component b i)) 0 (λ e. absurd (omega (arith, there, e))))
        (length-take 1024 (component b i) (omega (arith, there)))
]

pub length-block_bytes : (b : IoVecBlock) → IsSplit b → length (block_bytes b) ≡ 4096
unfolding block_bytes
length-block_bytes b v = omega (
  arith,
  length-append (iov b 0) (iov b 1 ++ (iov b 2 ++ iov b 3)),
  length-append (iov b 1) (iov b 2 ++ iov b 3),
  length-append (iov b 2) (iov b 3),
  length-iov b 0 v,
  length-iov b 1 v,
  length-iov b 2 v,
  length-iov b 3 v,
)

-- The bytes of component `i` and zeros behind them.
get_or-iov :
    (b : IoVecBlock) (i j : ℕ)
    → IsSplit b
    → j < 1024
    → get_or (iov b i) j 0 ≡ get_or (component b i) j 0
unfolding iov
get_or-iov b i j v h = elim (v.used i) [
  | inl none_there ↦
      rw (eq→== _ 0 none_there)
        (get_or-replicate 1024 j ∙ sym (no_bytes (component b i) j (omega (arith, none_there))))
  | inr there ↦
      rw (ne→== (length (component b i)) 0 (λ e. absurd (omega (arith, there, e))))
        (get_or-take 1024 (component b i) j 0 h)
]
  where
    get_or-replicate : (n j : ℕ) → get_or (replicate {A = ℕ} n 0) j 0 ≡ 0
    get_or-replicate zero j = refl
    get_or-replicate (suc n) zero = refl
    get_or-replicate (suc n) (suc j) = get_or-replicate n j

    no_bytes : (xs : List ℕ) (j : ℕ) → length xs ≤ 0 → get_or xs j 0 ≡ 0
    no_bytes [] j h = refl
    no_bytes (x ∷ xs) j h = absurd (omega (arith, h))

-- The byte at every offset of a block is at that offset in what is written.
pub get_or-block_bytes :
    (b : IoVecBlock) (i : ℕ) → IsSplit b → i < 4096 → get_or (block_bytes b) i 0 ≡ byte_at b i
unfolding block_bytes
get_or-block_bytes b i v h =
    let c = i / 1024 in
    let j = i % 1024 in
    let at : c * 1024 + j ≡ i = omega arith in
    let low : j < 1024 = omega arith in
    ap (λ (k : ℕ). get_or all k 0) (sym at) ∙ by_component c j (omega (arith, h)) low
  where
    len : (c : ℕ) → length (iov b c) ≡ 1024
    len c = length-iov b c v

    all : List ℕ
    all = iov b 0 ++ (iov b 1 ++ (iov b 2 ++ iov b 3))

    -- Past the first component.
    skip :
        (xs ys : List ℕ) (k j : ℕ)
        → length xs ≡ 1024
        → k ≡ 1024 + j
        → get_or (xs ++ ys) k 0 ≡ get_or ys j 0
    skip xs ys k j full e =
        ap (λ (t : ℕ). get_or (xs ++ ys) t 0) (omega (arith, e, full))
        ∙ get_or-append_right xs ys j 0

    left :
        (xs ys : List ℕ) (k : ℕ)
        → length xs ≡ 1024
        → k < 1024
        → get_or (xs ++ ys) k 0 ≡ get_or xs k 0
    left xs ys k full h = get_or-append_left xs ys k 0 (omega (arith, h, full))

    by_component :
        (c j : ℕ) → c < 4 → j < 1024 → get_or all (c * 1024 + j) 0 ≡ get_or (component b c) j 0
    by_component zero j h low =
        ap (λ (k : ℕ). get_or all k 0) (omega arith)
        ∙ left (iov b 0) _ j (len 0) low
        ∙ get_or-iov b 0 j v low
    by_component (suc zero) j h low =
        skip (iov b 0) _ (1 * 1024 + j) j (len 0) (omega arith)
        ∙ left (iov b 1) _ j (len 1) low
        ∙ get_or-iov b 1 j v low
    by_component (suc (suc zero)) j h low =
        skip (iov b 0) _ (2 * 1024 + j) (1024 + j) (len 0) (omega arith)
        ∙ skip (iov b 1) _ (1024 + j) j (len 1) refl
        ∙ left (iov b 2) _ j (len 2) low
        ∙ get_or-iov b 2 j v low
    by_component (suc (suc (suc zero))) j h low =
        skip (iov b 0) _ (3 * 1024 + j) (2048 + j) (len 0) (omega arith)
        ∙ skip (iov b 1) _ (2048 + j) (1024 + j) (len 1) (omega arith)
        ∙ skip (iov b 2) _ (1024 + j) j (len 2) refl
        ∙ get_or-iov b 3 j v low
    by_component (suc (suc (suc (suc c)))) j h low = absurd (omega (arith, h))

-- `bytes` is a block of components as it is written: each byte at its offset, with zeros for the
-- components that are not there, so that the contents come first.
pub record IsImage (b : IoVecBlock) (bytes : List ℕ) : Type 0 where
  pub size : length bytes ≡ 4096
  pub byte : (i : ℕ) → i < 4096 → get_or bytes i 0 ≡ byte_at b i
  pub content : take b.pos bytes ≡ contents b

pub block_bytes-IsImage : (b : IoVecBlock) → IsSplit b → IsImage b (block_bytes b)
unfolding contents
block_bytes-IsImage b v =
    let size = length-block_bytes b v in
    record {
      size = size;
      byte = λ i h. get_or-block_bytes b i v h;
      content =
          list_ext b.pos (take b.pos (block_bytes b)) (contents b) 0
            (length-take b.pos (block_bytes b) (omega (arith, size, v.within))) (length-contents b)
            (λ i h.
              get_or-take b.pos (block_bytes b) i 0 h
              ∙ get_or-block_bytes b i v (omega (arith, h, v.within))
              ∙ sym (get_or-tabulate (byte_at b) b.pos i 0 h));
    }
