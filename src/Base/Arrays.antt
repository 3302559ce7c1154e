-- ===== src/Base/Arrays.antt =====
-- Lists as memory: a function's values in order, blocks of bytes that are copied over others, and
-- reads at a position of either.
use Prim.Native.Nat.{ℕ, zero, suc, ◌+◌, ◌-◌, ◌*◌, ◌≤◌, ◌<◌}
use mathlib.Core.Path.{◌≡◌, refl, ap, sym, ◌∙◌}
use mathlib.Core.Logic.{◌≢◌}
use mathlib.Core.Option.{some, none}
use mathlib.Core.List.{List, [], ◌∷◌, ◌++◌, append_assoc}
use native.Mathlib.Omega.{arith}
use akumuli.Base.Lists.{
  length, get_or, get_elem?, set, take, drop, length-append, length-drop, take_all, All,
}

module _ {ℓ} {A : Type ℓ} where
  -- f 0, f 1, … f (n - 1)
  unfoldable pub tabulate : (ℕ → A) → ℕ → List A
  tabulate f zero = []
  tabulate f (suc n) = f 0 ∷ tabulate (λ i. f (suc i)) n

  -- memcpy(xs + offset, bytes, length bytes)
  unfoldable pub splice : List A → ℕ → List A → List A
  splice xs offset bytes = take offset xs ++ (bytes ++ drop (offset + length bytes) xs)

  pub length-tabulate : (f : ℕ → A) (n : ℕ) → length (tabulate f n) ≡ n
  unfolding tabulate
  length-tabulate f zero = refl
  length-tabulate f (suc n) = ap suc (length-tabulate (λ i. f (suc i)) n)

  pub tabulate_ext :
      (f g : ℕ → A) (n : ℕ) → ((i : ℕ) → i < n → f i ≡ g i) → tabulate f n ≡ tabulate g n
  unfolding tabulate
  tabulate_ext f g zero h = refl
  tabulate_ext f g (suc n) h = rw (h 0 (omega arith)) (
      ap (◌∷◌ (g 0))
        (tabulate_ext (λ i. f (suc i)) (λ i. g (suc i)) n (λ i k. h (suc i) (omega arith))))

  pub tabulate-get_or : (xs : List A) (d : A) → tabulate (λ i. get_or xs i d) (length xs) ≡ xs
  unfolding tabulate
  tabulate-get_or [] d = refl
  tabulate-get_or (x ∷ xs) d = ap (◌∷◌ x) (tabulate-get_or xs d)

  pub tabulate-add :
      (f : ℕ → A) (n m : ℕ) → tabulate f (n + m) ≡ tabulate f n ++ tabulate (λ i. f (n + i)) m
  unfolding tabulate
  tabulate-add f zero m =
      rw zero_add (tabulate_ext f (λ i. f (0 + i)) m (λ i k. ap f (omega arith)))
    where
      zero_add : 0 + m ≡ m
      zero_add = omega arith
  tabulate-add f (suc n) m = rw suc_add (
      ap (◌∷◌ (f 0)) (
        tabulate-add (λ i. f (suc i)) n m
        ∙ ap (λ (t : List A). tabulate (λ i. f (suc i)) n ++ t)
            (tabulate_ext (λ i. f (suc (n + i))) (λ i. f (suc n + i)) m
              (λ i k. ap f (omega arith)))))
    where
      suc_add : suc n + m ≡ suc (n + m)
      suc_add = omega arith

  pub get_or-tabulate : (f : ℕ → A) (n i : ℕ) (d : A) → i < n → get_or (tabulate f n) i d ≡ f i
  unfolding tabulate
  get_or-tabulate f zero i d h = absurd (omega arith)
  get_or-tabulate f (suc n) zero d h = refl
  get_or-tabulate f (suc n) (suc i) d h = get_or-tabulate (λ j. f (suc j)) n i d (omega arith)

  pub get_or-set_self :
      (xs : List A) (i : ℕ) (v d : A) → i < length xs → get_or (set xs i v) i d ≡ v
  get_or-set_self [] i v d h = absurd (omega arith)
  get_or-set_self (x ∷ xs) zero v d h = refl
  get_or-set_self (x ∷ xs) (suc i) v d h = get_or-set_self xs i v d (omega arith)

  pub get_or-set_ne :
      (xs : List A) (i j : ℕ) (v d : A) → i ≢ j → get_or (set xs i v) j d ≡ get_or xs j d
  get_or-set_ne [] i j v d h = refl
  get_or-set_ne (x ∷ xs) zero zero v d h = absurd (h refl)
  get_or-set_ne (x ∷ xs) zero (suc j) v d h = refl
  get_or-set_ne (x ∷ xs) (suc i) zero v d h = refl
  get_or-set_ne (x ∷ xs) (suc i) (suc j) v d h = get_or-set_ne xs i j v d (λ e. h (ap suc e))

  pub get_or-append_left :
      (xs ys : List A) (i : ℕ) (d : A) → i < length xs → get_or (xs ++ ys) i d ≡ get_or xs i d
  get_or-append_left [] ys i d h = absurd (omega arith)
  get_or-append_left (x ∷ xs) ys zero d h = refl
  get_or-append_left (x ∷ xs) ys (suc i) d h = get_or-append_left xs ys i d (omega arith)

  pub get_or-append_right :
      (xs ys : List A) (i : ℕ) (d : A) → get_or (xs ++ ys) (length xs + i) d ≡ get_or ys i d
  get_or-append_right [] ys i d = ap (λ (j : ℕ). get_or ys j d) (omega arith)
  get_or-append_right (x ∷ xs) ys i d = rw suc_add (get_or-append_right xs ys i d)
    where
      suc_add : suc (length xs) + i ≡ suc (length xs + i)
      suc_add = omega arith

  pub get_or-take :
      (n : ℕ) (xs : List A) (i : ℕ) (d : A) → i < n → get_or (take n xs) i d ≡ get_or xs i d
  get_or-take zero xs i d h = absurd (omega arith)
  get_or-take (suc n) [] i d h = refl
  get_or-take (suc n) (x ∷ xs) zero d h = refl
  get_or-take (suc n) (x ∷ xs) (suc i) d h = get_or-take n xs i d (omega arith)

  pub get_or-drop :
      (n : ℕ) (xs : List A) (i : ℕ) (d : A) → get_or (drop n xs) i d ≡ get_or xs (n + i) d
  get_or-drop zero xs i d = ap (λ (j : ℕ). get_or xs j d) (omega arith)
  get_or-drop (suc n) [] i d = refl
  get_or-drop (suc n) (x ∷ xs) i d = rw suc_add (get_or-drop n xs i d)
    where
      suc_add : suc n + i ≡ suc (n + i)
      suc_add = omega arith

  pub length-take : (n : ℕ) (xs : List A) → n ≤ length xs → length (take n xs) ≡ n
  length-take zero xs h = refl
  length-take (suc n) [] h = absurd (omega arith)
  length-take (suc n) (x ∷ xs) h = ap suc (length-take n xs (omega arith))

  module _ (xs : List A) (offset : ℕ) (bytes : List A) (d : A)
      (fits : offset + length bytes ≤ length xs) where
    pub length-splice : length (splice xs offset bytes) ≡ length xs
    unfolding splice
    length-splice = omega (
      arith,
      length-append (take offset xs) (bytes ++ drop (offset + length bytes) xs),
      length-append bytes (drop (offset + length bytes) xs),
      length-take offset xs (omega arith),
      length-drop (offset + length bytes) xs,
    )

    pub get_or-splice_before :
        (i : ℕ) → i < offset → get_or (splice xs offset bytes) i d ≡ get_or xs i d
    unfolding splice
    get_or-splice_before i h =
        get_or-append_left (take offset xs) _ i d
          (omega (arith, length-take offset xs (omega arith)))
        ∙ get_or-take offset xs i d h

    pub get_or-splice_inside :
        (i : ℕ)
        → i < length bytes
        → get_or (splice xs offset bytes) (offset + i) d ≡ get_or bytes i d
    unfolding splice
    get_or-splice_inside i h =
        ap (λ (j : ℕ). get_or (splice xs offset bytes) j d)
          (omega (arith, length-take offset xs (omega arith)))
        ∙ get_or-append_right (take offset xs) _ i d
        ∙ get_or-append_left bytes _ i d h

    pub get_or-splice_after :
        (i : ℕ) → offset + length bytes ≤ i → get_or (splice xs offset bytes) i d ≡ get_or xs i d
    unfolding splice
    get_or-splice_after i h =
        let j = i - (offset + length bytes) in
        ap (λ (k : ℕ). get_or (splice xs offset bytes) k d)
          (omega (arith, length-take offset xs (omega arith)))
        ∙ get_or-append_right (take offset xs) _ (length bytes + j) d
        ∙ get_or-append_right bytes _ j d
        ∙ get_or-drop (offset + length bytes) xs j d
        ∙ ap (λ (k : ℕ). get_or xs k d) (omega arith)

  -- Lists with the same length and the same elements.
  pub list_ext :
      (n : ℕ) (xs ys : List A) (d : A)
      → length xs ≡ n
      → length ys ≡ n
      → ((i : ℕ) → i < n → get_or xs i d ≡ get_or ys i d)
      → xs ≡ ys
  list_ext n xs ys d hx hy h =
      sym (tabulate-get_or xs d)
      ∙ ap (tabulate (λ i. get_or xs i d)) hx
      ∙ tabulate_ext (λ i. get_or xs i d) (λ i. get_or ys i d) n h
      ∙ ap (tabulate (λ i. get_or ys i d)) (sym hy)
      ∙ tabulate-get_or ys d

  pub length-slice :
      (size offset : ℕ) (xs : List A)
      → offset + size ≤ length xs
      → length (take size (drop offset xs)) ≡ size
  length-slice size offset xs h =
      length-take size (drop offset xs) (omega (arith, length-drop offset xs))

  pub get_or-slice :
      (size offset : ℕ) (xs : List A) (i : ℕ) (d : A)
      → i < size
      → get_or (take size (drop offset xs)) i d ≡ get_or xs (offset + i) d
  get_or-slice size offset xs i d h =
      get_or-take size (drop offset xs) i d h ∙ get_or-drop offset xs i d

  pub get_elem?-some : (xs : List A) (i : ℕ) → i < length xs → (x : A) × (get_elem? xs i ≡ some x)
  get_elem?-some [] i h = absurd (omega arith)
  get_elem?-some (x ∷ xs) zero h = (x, refl)
  get_elem?-some (x ∷ xs) (suc i) h = get_elem?-some xs i (omega arith)

  pub get_elem?-none : (xs : List A) (i : ℕ) → length xs ≤ i → get_elem? xs i ≡ none
  get_elem?-none [] i h = refl
  get_elem?-none (x ∷ xs) zero h = absurd (omega arith)
  get_elem?-none (x ∷ xs) (suc i) h = get_elem?-none xs i (omega arith)

  pub lt_of_get_elem? : (xs : List A) (i : ℕ) (x : A) → get_elem? xs i ≡ some x → i < length xs
  lt_of_get_elem? [] i x h = cc
  lt_of_get_elem? (y ∷ xs) zero x h = omega arith
  lt_of_get_elem? (y ∷ xs) (suc i) x h = omega (arith, lt_of_get_elem? xs i x h)

  pub get_elem?-set_self :
      (xs : List A) (i : ℕ) (v : A) → i < length xs → get_elem? (set xs i v) i ≡ some v
  get_elem?-set_self [] i v h = absurd (omega arith)
  get_elem?-set_self (x ∷ xs) zero v h = refl
  get_elem?-set_self (x ∷ xs) (suc i) v h = get_elem?-set_self xs i v (omega arith)

  pub get_elem?-set_ne :
      (xs : List A) (i j : ℕ) (v : A) → i ≢ j → get_elem? (set xs i v) j ≡ get_elem? xs j
  get_elem?-set_ne [] i j v h = refl
  get_elem?-set_ne (x ∷ xs) zero zero v h = absurd (h refl)
  get_elem?-set_ne (x ∷ xs) zero (suc j) v h = refl
  get_elem?-set_ne (x ∷ xs) (suc i) zero v h = refl
  get_elem?-set_ne (x ∷ xs) (suc i) (suc j) v h = get_elem?-set_ne xs i j v (λ e. h (ap suc e))

  pub set_same : (xs : List A) (i : ℕ) (x : A) → get_elem? xs i ≡ some x → set xs i x ≡ xs
  set_same [] i x e = refl
  set_same (y ∷ xs) zero x e = cc
  set_same (y ∷ xs) (suc i) x e = ap (λ (t : List A). y ∷ t) (set_same xs i x e)

  pub set-set : (xs : List A) (i : ℕ) (x y : A) → set (set xs i x) i y ≡ set xs i y
  set-set [] i x y = refl
  set-set (z ∷ xs) zero x y = refl
  set-set (z ∷ xs) (suc i) x y = ap (λ (t : List A). z ∷ t) (set-set xs i x y)

  unfoldable pub flatten : List (List A) → List A
  flatten [] = []
  flatten (c ∷ cs) = c ++ flatten cs

  pub take_short : (n : ℕ) (xs ys : List A) → n ≤ length xs → take n (xs ++ ys) ≡ take n xs
  take_short zero xs ys h = refl
  take_short (suc n) [] ys h = absurd (omega arith)
  take_short (suc n) (x ∷ xs) ys h = ap (λ (t : List A). x ∷ t) (take_short n xs ys (omega arith))

  pub drop_left : (n : ℕ) (xs ys : List A) → n ≤ length xs → drop n (xs ++ ys) ≡ drop n xs ++ ys
  drop_left zero xs ys h = refl
  drop_left (suc n) [] ys h = absurd (omega arith)
  drop_left (suc n) (x ∷ xs) ys h = drop_left n xs ys (omega arith)

  drop_behind :
      (n : ℕ) (xs ys : List A) → length xs ≤ n → drop n (xs ++ ys) ≡ drop (n - length xs) ys
  drop_behind n [] ys h = ap (λ (k : ℕ). drop k ys) (omega arith)
  drop_behind zero (x ∷ xs) ys h = absurd (omega arith)
  drop_behind (suc n) (x ∷ xs) ys h =
      drop_behind n xs ys (omega arith) ∙ ap (λ (k : ℕ). drop k ys) (omega arith)

  pub flatten-append : (xs ys : List (List A)) → flatten (xs ++ ys) ≡ flatten xs ++ flatten ys
  unfolding flatten
  flatten-append [] ys = refl
  flatten-append (x ∷ xs) ys =
      ap (λ (t : List A). x ++ t) (flatten-append xs ys)
      ∙ sym (append_assoc x (flatten xs) (flatten ys))

  pub length-flatten :
      (w : ℕ) (xs : List (List A))
      → All (λ (x : List A). length x ≡ w) xs
      → length (flatten xs) ≡ length xs * w
  unfolding flatten
  length-flatten w [] h = omega arith
  length-flatten w (x ∷ xs) h =
      omega (arith, length-append x (flatten xs), h.0, length-flatten w xs h.1, step w (length xs))
    where
      step : (w n : ℕ) → suc n * w ≡ w + n * w
      step w n = omega arith

  -- The bytes in the place of block `i`, where all blocks have the same width.
  pub slice-flatten :
      (w : ℕ) (xs : List (List A)) (i : ℕ) (x : List A)
      → All (λ (x : List A). length x ≡ w) xs
      → get_elem? xs i ≡ some x
      → take w (drop (w * i) (flatten xs)) ≡ x
  unfolding flatten
  slice-flatten w [] i x h e = cc
  slice-flatten w (y ∷ xs) zero x h e =
      let at_zero : w * 0 ≡ 0 = omega arith in
      let same : y ≡ x = cc in
      rw at_zero (take_short w y (flatten xs) (omega (arith, h.0)) ∙ take_all w y h.0 ∙ same)
  slice-flatten w (y ∷ xs) (suc i) x h e =
      let far : length y ≤ w * suc i = omega (arith, h.0, next w i) in
      let rest : w * suc i - length y ≡ w * i = omega (arith, h.0, next w i) in
      ap (λ (t : List A). take w t)
        (drop_behind (w * suc i) y (flatten xs) far ∙ ap (λ (k : ℕ). drop k (flatten xs)) rest)
      ∙ slice-flatten w xs i x h.1 e
    where
      next : (w i : ℕ) → w * suc i ≡ w + w * i
      next w i = omega arith
