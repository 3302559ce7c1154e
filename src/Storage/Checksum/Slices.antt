-- ===== src/Storage/Checksum/Slices.antt =====
-- The checksum of a block, as the checksum of a part of its bytes.
use akumuli.Base.{
  ℕ, zero, suc, ◌-◌, ◌≤◌, ◌<◌, ◌≡◌, inl, inr, refl, ap, sym, ◌∙◌, arith, min, List, [], ◌∷◌, ◌++◌,
  length, take, drop, get_or, ltb, length-drop, length-append, eq→==, ne→==, ltb-false, Bool-cases,
  append-nil, flatten, take_short, drop_left,
}
use akumuli.Storage.IoVecBlock.{IoVecBlock, component}
use akumuli.Storage.Checksum.{checksum_loop, checksum}
use native.Mathlib.Numerals.{unary_clauses}
use native.Mathlib.Decide.{dec_lt, ℕ_discrete}

-- Behind an empty component there is nothing.
pub data NoGaps : List (List ℕ) → Type 0 where
  no_more : {cs : List (List ℕ)} → flatten cs ≡ [] → NoGaps cs
  one_more : {c : List ℕ} {cs : List (List ℕ)} → 0 < length c → NoGaps cs → NoGaps (c ∷ cs)

-- A checksum that can be continued.
pub record Continues (impl : ℕ → List ℕ → ℕ) : Type 0 where
  pub nothing : (crc : ℕ) → impl crc [] ≡ crc
  pub in_two : (crc : ℕ) (xs ys : List ℕ) → impl crc (xs ++ ys) ≡ impl (impl crc xs) ys

take_long :
    (n : ℕ) (xs ys : List ℕ)
    → length xs ≤ n
    → take n (xs ++ ys) ≡ take (length xs) xs ++ take (n - length xs) ys
take_long n [] ys h = simp unary_clauses refl
take_long zero (x ∷ xs) ys h = absurd (omega arith)
take_long (suc n) (x ∷ xs) ys h =
    let less : n - length xs ≡ suc n - suc (length xs) = omega arith in
    ap (λ (t : List ℕ). x ∷ t)
      (take_long n xs ys (omega arith) ∙ ap (λ (k : ℕ). take (length xs) xs ++ take k ys) less)

take-nil : (n : ℕ) → take {A = ℕ} n [] ≡ []
take-nil zero = refl
take-nil (suc n) = refl

drop-nil : (n : ℕ) → drop {A = ℕ} n [] ≡ []
drop-nil zero = refl
drop-nil (suc n) = refl

-- The first bytes of two lists, in the way of the loop.
take_both :
    (n : ℕ) (xs ys : List ℕ)
    → take n (xs ++ ys) ≡ take (min (length xs) n) xs ++ take (n - min (length xs) n) ys
take_both n xs ys = elim (dec_lt n (length xs)) [
  | yes short ↦
      let m : min (length xs) n ≡ n = omega (arith, short) in
      let z : n - n ≡ 0 = omega arith in
      rw (m, z, take_short n xs ys (omega (arith, short))) (sym (append-nil (take n xs)))
  | no long ↦
      let m : min (length xs) n ≡ length xs = omega (arith, long) in
      rw m (take_long n xs ys (omega (arith, long)))
]

module _ (impl : ℕ → List ℕ → ℕ) where
  loop_empty :
      (cs : List (List ℕ)) (crc offset size : ℕ)
      → flatten cs ≡ []
      → checksum_loop impl cs crc offset size ≡ crc
  unfolding checksum_loop flatten
  loop_empty [] crc offset size e = refl
  loop_empty (c ∷ cs) crc offset size e =
      let none_there : length c ≡ 0 =
        omega (arith, length-append c (flatten cs), ap (λ (t : List ℕ). length t) e) in
      elim (Bool-cases (ltb (length c) offset)) [
        | inl below ↦ rw below refl
        | inr above ↦ rw (above, eq→== (length c) 0 none_there) refl
      ]

  -- One component, if the others are right.
  loop_step :
      (c : List ℕ) (cs : List (List ℕ)) (crc offset size : ℕ)
      → Continues impl
      → ((crc' size' : ℕ)
          → checksum_loop impl cs crc' 0 size' ≡ impl crc' (take size' (flatten cs)))
      → offset ≤ length c
      → 0 < length c
      → checksum_loop impl (c ∷ cs) crc offset size
        ≡ impl crc (take size (drop offset (c ++ flatten cs)))
  unfolding checksum_loop
  loop_step c cs crc offset size k rest h some_there = elim (ℕ_discrete size 0) [
    | yes none_asked ↦
        rw
          (
            ltb-false (length c) offset h,
            ne→== (length c) 0 (λ e. absurd (omega (arith, e, some_there))),
            none_asked,
          )
          (sym (k.nothing crc))
    | no asked ↦
        let xs = drop offset c in
        let len : length xs ≡ length c - offset = length-drop offset c in
        let n = min (length c - offset) size in
        rw
          (
            ltb-false (length c) offset h,
            ne→== (length c) 0 (λ e. absurd (omega (arith, e, some_there))),
            ne→== size 0 asked,
          )
          (rest (impl crc (take n xs)) (size - n)
            ∙ sym (k.in_two crc (take n xs) (take (size - n) (flatten cs)))
            ∙ ap (λ (t : List ℕ). impl crc t)
                (sym (
                  ap (λ (t : List ℕ). take size t) (drop_left offset c (flatten cs) h)
                  ∙ take_both size xs (flatten cs)
                  ∙ ap (λ (m : ℕ). take (min m size) xs ++ take (size - min m size) (flatten cs))
                      len)))
  ]

  loop-flatten :
      (cs : List (List ℕ)) (crc size : ℕ)
      → Continues impl
      → NoGaps cs
      → checksum_loop impl cs crc 0 size ≡ impl crc (take size (flatten cs))
  unfolding flatten
  loop-flatten cs crc size k (no_more e) =
      loop_empty cs crc 0 size e
      ∙ sym (k.nothing crc)
      ∙ rw e (ap (λ (t : List ℕ). impl crc t) (sym (take-nil size)))
  loop-flatten (c ∷ cs) crc size k (one_more h g) =
      loop_step c cs crc 0 size k (λ crc' size'. loop-flatten cs crc' size' k g) (omega arith) h

  -- The checksum of a block, from an offset in its first component, is the checksum of the bytes that
  -- stand there, through all its components, if no empty component is before one that is not.
  pub checksum-flatten :
      (block : IoVecBlock) (offset size : ℕ)
      → Continues impl
      → NoGaps block.components
      → offset ≤ length (component block 0)
      → checksum impl block offset size
        ≡ impl 0 (take size (drop offset (flatten block.components)))
  unfolding checksum flatten
  checksum-flatten block offset size k g h = from_first block.components offset size k g h
    where
      from_first :
          (cs : List (List ℕ)) (offset size : ℕ)
          → Continues impl
          → NoGaps cs
          → offset ≤ length (get_or cs 0 [])
          → checksum_loop impl cs 0 offset size ≡ impl 0 (take size (drop offset (flatten cs)))
      from_first cs offset size k (no_more e) h =
          loop_empty cs 0 offset size e
          ∙ sym (k.nothing 0)
          ∙ rw e (
              ap (λ (t : List ℕ). impl 0 t)
                (sym (ap (λ (t : List ℕ). take size t) (drop-nil offset) ∙ take-nil size)))
      from_first (c ∷ cs) offset size k (one_more some_there g) h =
          loop_step c cs 0 offset size k (λ crc' size'. loop-flatten cs crc' size' k g) h some_there
