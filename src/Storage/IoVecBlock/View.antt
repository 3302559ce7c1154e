-- ===== src/Storage/IoVecBlock/View.antt =====
-- The bytes that a block made of components holds, as one list.
use akumuli.Base.{
  ℕ, zero, suc, ◌*◌, ◌/◌, ◌%◌, ◌≤◌, ◌<◌, ◌≡◌, ◌≢◌, ◌⊎◌, inl, inr, refl, ap, sym, ◌∙◌, arith, false,
  List, [], ◌∷◌, length, get_or, tabulate, length-set, get_or-set_self, get_or-set_ne,
  length-tabulate,
}
use akumuli.Storage.IoVecBlock.{IoVecBlock, component, replace, is_whole, init}
use native.Mathlib.Decide.{ℕ_discrete}

-- The byte at an offset.
abbrev pub byte_at : IoVecBlock → ℕ → ℕ
byte_at b i = get_or (component b (i / 1024)) (i % 1024) 0

-- The bytes before the write position.
unfoldable pub contents : IoVecBlock → List ℕ
contents b = tabulate (byte_at b) b.pos

-- A block of four components, of which those below the write position are there.
pub record IsSplit (b : IoVecBlock) : Type 0 where
  pub count : length b.components ≡ 4
  pub within : b.pos ≤ 4096
  pub used : (c : ℕ) → (length (component b c) ≡ 0) ⊎ (length (component b c) ≡ 1024)
  pub filled : (c : ℕ) → c * 1024 < b.pos → length (component b c) ≡ 1024

pub length-contents : (b : IoVecBlock) → length (contents b) ≡ b.pos
unfolding contents
length-contents b = length-tabulate (byte_at b) b.pos

pub IsSplit-is_whole : (b : IoVecBlock) → IsSplit b → is_whole b ≡ false
IsSplit-is_whole b v = elim (v.used 0) [
  | inl none_there ↦ rw none_there refl
  | inr there ↦ rw there refl
]

pub init-IsSplit : IsSplit init
unfolding init
init-IsSplit = record {
  count = refl;
  within = omega arith;
  used = λ c. inl (no_bytes c);
  filled = λ c h. absurd (omega arith);
}
  where
    no_bytes : (c : ℕ) → length (get_or {A = List ℕ} ([] ∷ [] ∷ [] ∷ [] ∷ []) c []) ≡ 0
    no_bytes zero = refl
    no_bytes (suc zero) = refl
    no_bytes (suc (suc zero)) = refl
    no_bytes (suc (suc (suc zero))) = refl
    no_bytes (suc (suc (suc (suc c)))) = refl

pub component-replace_self :
    (b : IoVecBlock) (c : ℕ) (bytes : List ℕ)
    → length b.components ≡ 4
    → c < 4
    → component (replace b c bytes) c ≡ bytes
component-replace_self b c bytes count h = get_or-set_self b.components c bytes [] (omega arith)

pub component-replace_ne :
    (b : IoVecBlock) (c k : ℕ) (bytes : List ℕ)
    → c ≢ k
    → component (replace b c bytes) k ≡ component b k
component-replace_ne b c k bytes h = get_or-set_ne b.components c k bytes [] h

-- Other bytes in a component that is there.
pub replace-IsSplit :
    (b : IoVecBlock) (c : ℕ) (bytes : List ℕ)
    → IsSplit b
    → c < 4
    → length bytes ≡ 1024
    → IsSplit (replace b c bytes)
replace-IsSplit b c bytes v h full = record {
  count = length-set b.components c bytes ∙ v.count;
  within = v.within;
  used = λ k. elim (ℕ_discrete c k) [
    | yes same ↦ inr (is_full k same)
    | no other ↦ rw (component-replace_ne b c k bytes other) (v.used k)
  ];
  filled = λ k below. elim (ℕ_discrete c k) [
    | yes same ↦ is_full k same
    | no other ↦ rw (component-replace_ne b c k bytes other) (v.filled k below)
  ];
}
  where
    is_full : (k : ℕ) → c ≡ k → length (component (replace b c bytes) k) ≡ 1024
    is_full k same = rw (sym same) (rw (component-replace_self b c bytes v.count h) full)

-- The bytes at other offsets stay as they are.
pub byte_at-replace :
    (b : IoVecBlock) (c i : ℕ) (bytes : List ℕ)
    → length b.components ≡ 4
    → c < 4
    → (i / 1024 ≡ c → get_or bytes (i % 1024) 0 ≡ byte_at b i)
    → byte_at (replace b c bytes) i ≡ byte_at b i
byte_at-replace b c i bytes count h same = elim (ℕ_discrete c (i / 1024)) [
  | yes here ↦
      rw (sym here) (rw (component-replace_self b c bytes count h) (rw here (same (sym here))))
  | no other ↦
      ap (λ (t : List ℕ). get_or t (i % 1024) 0) (component-replace_ne b c (i / 1024) bytes other)
]
