-- ===== src/Storage/IoVecBlock/Bytes.antt =====
-- One byte at a time: `safe_put`, `put` and `get` on the bytes of a block.
use akumuli.Base.{
  ℕ, zero, suc, ◌+◌, ◌-◌, ◌*◌, ◌/◌, ◌%◌, ◌≤◌, ◌<◌, ◌≡◌, ◌≢◌, inl, inr, refl, ap, sym, ◌∙◌, arith,
  true, false, List, [], ◌∷◌, ◌++◌, length, get_or, set, take, drop, replicate, tabulate, splice,
  length-splice, get_or-splice_before, get_or-splice_inside, tabulate-get_or, get_or-tabulate,
  tabulate-add, length-append, length-replicate, tabulate_ext, ◌==◌, Bool-cases, ==→eq, ==→ne,
}
use akumuli.Base.Outcome.{ok}
use akumuli.Storage.IoVecBlock.{
  IoVecBlock, component, replace, resize, with_component, put_at, safe_put, put, get,
}
use akumuli.Storage.IoVecBlock.View.{
  byte_at, contents, IsSplit, IsSplit-is_whole, component-replace_self, replace-IsSplit,
  byte_at-replace,
}
use native.Mathlib.Decide.{dec_lt}

pub length-resize_empty : (n : ℕ) (bytes : List ℕ) → length bytes ≡ 0 → length (resize n bytes) ≡ n
unfolding resize
length-resize_empty n [] h = omega (
  arith,
  length-append (take n none_there) (replicate (n - 0) 0),
  length-replicate {A = ℕ} (n - 0) 0,
  no_more n,
)
  where
    none_there : List ℕ
    none_there = []

    no_more : (n : ℕ) → length (take n none_there) ≡ 0
    no_more zero = refl
    no_more (suc n) = refl
length-resize_empty n (x ∷ bytes) h = absurd (omega arith)

-- `b'` is `b` with component `c` there and no byte changed.
pub record Grows (b : IoVecBlock) (c : ℕ) (b' : IoVecBlock) : Type 0 where
  pub split : IsSplit b'
  pub there : length (component b' c) ≡ 1024
  pub kept : (i : ℕ) → i < b.pos → byte_at b' i ≡ byte_at b i
  pub pos_eq : b'.pos ≡ b.pos

Grows-there : (b : IoVecBlock) (c : ℕ) → IsSplit b → length (component b c) ≢ 0 → Grows b c b
Grows-there b c v h = record {
  split = v;
  there = elim (v.used c) [ inl none_there ↦ absurd (h none_there) | inr full ↦ full ];
  kept = λ i below. refl;
  pos_eq = refl;
}

pub Grows-new :
    (b : IoVecBlock) (c : ℕ)
    → IsSplit b
    → c < 4
    → length (component b c) ≡ 0
    → Grows b c (replace b c (resize 1024 (component b c)))
Grows-new b c v h empty =
    let full = length-resize_empty 1024 (component b c) empty in
    record {
      split = replace-IsSplit b c (resize 1024 (component b c)) v h full;
      there = ap (λ (t : List ℕ). length t) (component-replace_self b c _ v.count h) ∙ full;
      kept = λ i below. byte_at-replace b c i _ v.count h (λ here. absurd (
          omega (
            arith,
            here,
            empty,
            v.filled (i / 1024) (omega arith),
            ap (λ (k : ℕ). length (component b k)) here,
          )));
      pos_eq = refl;
    }

-- Making a component there changes no byte before the write position.
pub with_component-Grows :
    (b : IoVecBlock) (c : ℕ) → IsSplit b → c < 4 → Grows b c (with_component b c)
unfolding with_component
with_component-Grows b c v h = elim (Bool-cases (length (component b c) == 0)) [
  | inl empty ↦ rw empty (Grows-new b c v h (==→eq _ 0 empty))
  | inr there ↦ rw there (Grows-there b c v (==→ne _ 0 there))
]

-- What a byte put at the write position makes of a block.
pub record Appends (b : IoVecBlock) (bytes : List ℕ) (b' : IoVecBlock) : Type 0 where
  pub split : IsSplit b'
  pub pos_eq : b'.pos ≡ b.pos + length bytes
  pub contents_eq : contents b' ≡ contents b ++ bytes

-- From what stands at each offset.
pub Appends-of :
    (b b' : IoVecBlock) (bytes : List ℕ)
    → IsSplit b'
    → b'.pos ≡ b.pos + length bytes
    → ((i : ℕ) → i < b.pos → byte_at b' i ≡ byte_at b i)
    → ((i : ℕ) → i < length bytes → byte_at b' (b.pos + i) ≡ get_or bytes i 0)
    → Appends b bytes b'
unfolding contents
Appends-of b b' bytes v pos_eq kept written = record {
  split = v;
  pos_eq = pos_eq;
  contents_eq =
      ap (tabulate (byte_at b')) pos_eq
      ∙ tabulate-add (byte_at b') b.pos (length bytes)
      ∙ rw
          (
            tabulate_ext (byte_at b') (byte_at b) b.pos kept,
            tabulate_ext (λ i. byte_at b' (b.pos + i)) (λ i. get_or bytes i 0) (length bytes)
                written,
            tabulate-get_or bytes 0,
          )
          refl;
}

-- A write position further on, with every component below it there.
pub IsSplit-advance :
    (b : IoVecBlock) (n : ℕ)
    → IsSplit b
    → n ≤ 4096
    → ((c : ℕ) → b.pos ≤ c * 1024 → c * 1024 < n → length (component b c) ≡ 1024)
    → IsSplit (record b { pos = n })
IsSplit-advance b n v h there = record {
  count = v.count;
  within = h;
  used = v.used;
  filled = λ c below. elim (dec_lt (c * 1024) b.pos) [
    | yes old ↦ v.filled c old
    | no fresh ↦ there c (omega arith) below
  ];
}

abbrev pub written : IoVecBlock → ℕ → ℕ → List ℕ → IoVecBlock
written b c offset bytes = replace b c (splice (component b c) offset bytes)

-- Bytes written into a component that is there.
module _ (b : IoVecBlock) (c offset : ℕ) (bytes : List ℕ) (v : IsSplit b) (h : c < 4)
    (there : length (component b c) ≡ 1024) (fits : offset + length bytes ≤ 1024) where
  within_component : offset + length bytes ≤ length (component b c)
  within_component = omega (arith, there, fits)

  pub written-IsSplit : IsSplit (written b c offset bytes)
  written-IsSplit =
      replace-IsSplit b c _ v h
        (length-splice (component b c) offset bytes 0 within_component ∙ there)

  pub written-there : length (component (written b c offset bytes) c) ≡ 1024
  written-there =
      ap (λ (t : List ℕ). length t) (component-replace_self b c _ v.count h)
      ∙ length-splice (component b c) offset bytes 0 within_component
      ∙ there

  pub written-before :
      (i : ℕ) → i < c * 1024 + offset → byte_at (written b c offset bytes) i ≡ byte_at b i
  written-before i below = byte_at-replace b c i _ v.count h (λ here.
      get_or-splice_before (component b c) offset bytes 0 within_component (i % 1024)
        (omega (arith, here))
      ∙ ap (λ (k : ℕ). get_or (component b k) (i % 1024) 0) (sym here))

  pub written-inside :
      (i : ℕ)
      → i < length bytes
      → byte_at (written b c offset bytes) (c * 1024 + offset + i) ≡ get_or bytes i 0
  written-inside i below =
      ap
        (λ (k : ℕ).
          get_or (component (written b c offset bytes) k) ((c * 1024 + offset + i) % 1024) 0)
        (omega (arith, fits))
      ∙ ap (λ (t : List ℕ). get_or t ((c * 1024 + offset + i) % 1024) 0)
          (component-replace_self b c _ v.count h)
      ∙ ap (λ (k : ℕ). get_or (splice (component b c) offset bytes) k 0) (omega (arith, fits))
      ∙ get_or-splice_inside (component b c) offset bytes 0 within_component i below

set-eq-take :
    (xs : List ℕ) (i v : ℕ) → i < length xs → set xs i v ≡ take i xs ++ v ∷ drop (suc i) xs
set-eq-take [] i v h = absurd (omega arith)
set-eq-take (x ∷ xs) zero v h = refl
set-eq-take (x ∷ xs) (suc i) v h = ap (◌∷◌ x) (set-eq-take xs i v (omega arith))

set-eq-splice : (xs : List ℕ) (i v : ℕ) → i < length xs → set xs i v ≡ splice xs i (v ∷ [])
unfolding splice
set-eq-splice xs i v h =
    set-eq-take xs i v h ∙ ap (λ (n : ℕ). take i xs ++ v ∷ drop n xs) {x = suc i} (omega arith)

-- Bytes written at the write position of a block, within one component.
pub written-Appends :
    (b b' : IoVecBlock) (c offset : ℕ) (bytes : List ℕ)
    → Grows b c b'
    → c < 4
    → b.pos ≡ c * 1024 + offset
    → offset + length bytes ≤ 1024
    → Appends b bytes (record (written b' c offset bytes) { pos = b.pos + length bytes })
written-Appends b b' c offset bytes g h at fits =
    Appends-of b _ bytes
      (IsSplit-advance (written b' c offset bytes) (b.pos + length bytes)
        (written-IsSplit b' c offset bytes g.split h g.there fits) (omega arith)
        (λ k above below.
          ap (λ (j : ℕ). length (component (written b' c offset bytes) j)) (omega (arith, g.pos_eq))
          ∙ written-there b' c offset bytes g.split h g.there fits))
      refl
      (λ i below.
        written-before b' c offset bytes g.split h g.there fits i (omega arith) ∙ g.kept i below)
      (λ i below.
        ap (byte_at (written b' c offset bytes)) (omega arith)
        ∙ written-inside b' c offset bytes g.split h g.there fits i below)

-- `put_at` at the write position.
put_at-Appends :
    (b : IoVecBlock) (val : ℕ)
    → IsSplit b
    → b.pos < 4096
    → Appends b (val ∷ []) (put_at b (b.pos / 1024) (b.pos % 1024) val)
unfolding put_at
put_at-Appends b val v room =
    let c = b.pos / 1024 in
    let g = with_component-Grows b c v (omega arith) in
    let b' = with_component b c in
    rw (set-eq-splice (component b' c) (b.pos % 1024) val (omega (arith, g.there)))
      (written-Appends b b' c (b.pos % 1024) (val ∷ []) g (omega arith) (omega arith) (omega arith))

-- `safe_put` puts one byte behind the others, in a block of components that has room for one.
pub safe_put-Appends :
    (b : IoVecBlock) (val : ℕ)
    → IsSplit b
    → b.pos < 4096
    → (b' : IoVecBlock) × (safe_put b val ≡ (b', true)) × Appends b (val ∷ []) b'
unfolding safe_put
safe_put-Appends b val v room =
    (put_at b (b.pos / 1024) (b.pos % 1024) val, ground arith, put_at-Appends b val v room)

pub safe_put_full : (b : IoVecBlock) (val : ℕ) → b.pos ≡ 4096 → safe_put b val ≡ (b, false)
unfolding safe_put
safe_put_full b val full = ground arith

pub put-Appends :
    (b : IoVecBlock) (val : ℕ)
    → IsSplit b
    → b.pos < 4096
    → (b' : IoVecBlock) × (put b val ≡ ok b') × Appends b (val ∷ []) b'
unfolding put
put-Appends b val v room =
    (put_at b (b.pos / 1024) (b.pos % 1024) val, ground arith, put_at-Appends b val v room)

-- In a block of components, `get` at an offset before the write position is the byte that stands there.
pub get_lem :
    (b : IoVecBlock) (offset : ℕ)
    → IsSplit b
    → offset < b.pos
    → get b offset ≡ ok (get_or (contents b) offset 0)
unfolding get contents
get_lem b offset v h =
    let there = v.filled (offset / 1024) (omega arith) in
    rw (get_or-tabulate (byte_at b) b.pos offset 0 h, IsSplit-is_whole b v)
      (ground (arith, there, v.within))
