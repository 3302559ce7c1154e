-- ===== src/Storage/IoVecBlock/Appends.antt =====
-- `append_chunk` on the bytes of a block.
use akumuli.Base.{
  ℕ, zero, suc, ◌+◌, ◌-◌, ◌*◌, ◌/◌, ◌%◌, ◌≤◌, ◌<◌, ◌≡◌, ◌≢◌, ◌⊎◌, inl, inr, refl, ap, subst, ◌∙◌,
  arith, some, List, [], ◌∷◌, ◌++◌, append_assoc, length, take, drop, length-take, length-drop,
  length-append, ◌==◌, Bool-cases, eq→==, ne→==, ==→eq, ltb-false, ==_refl,
}
use akumuli.Base.Outcome.{ok}
use akumuli.Storage.IoVecBlock.{
  IoVecBlock, component, component_size, replace, resize, with_component, add, add_loop,
}
use akumuli.Storage.IoVecBlock.Chunks.{append_chunk, append_two, add_at, expect, write_at, advance}
use akumuli.Storage.IoVecBlock.View.{contents, IsSplit, IsSplit-is_whole}
use akumuli.Storage.IoVecBlock.Bytes.{
  Grows, Appends, written, with_component-Grows, written-Appends,
}
use native.Mathlib.Decide.{dec_lt, ℕ_discrete}

add_loop_lem :
    (n i c : ℕ) (b : IoVecBlock)
    → i ≤ c
    → c < i + n
    → ((k : ℕ) → k < c → length (component b k) ≢ 0)
    → length (component b c) ≡ 0
    → add_loop n i b ≡ (replace b c (resize component_size (component b c)), some c)
unfolding add_loop
add_loop_lem zero i c b low high below empty = absurd (omega arith)
add_loop_lem (suc n) i c b low high below empty = elim (ℕ_discrete i c) [
  | yes here ↦ rw here (rw empty refl)
  | no earlier ↦
      rw (ne→== (length (component b i)) 0 (below i (omega arith)))
        (add_loop_lem n (i + 1) c b (omega arith) (omega arith) below empty)
]

-- The component that `add` makes is the one that is wanted, as those below it are there.
add_at_lem :
    (b : IoVecBlock) (c : ℕ)
    → c < 4
    → ((k : ℕ) → k < c → length (component b k) ≢ 0)
    → add_at b c ≡ ok (with_component b c)
unfolding add_at with_component add expect
add_at_lem b c h below = elim (Bool-cases (length (component b c) == 0)) [
  | inl empty ↦
      rw
        (empty, add_loop_lem 4 0 c b (omega arith) (omega arith) below (==→eq _ 0 empty), ==_refl c)
        refl
  | inr there ↦ rw there refl
]

below_filled :
    (b : IoVecBlock) (c : ℕ)
    → IsSplit b
    → c * 1024 ≤ b.pos
    → (k : ℕ) → k < c
    → length (component b k) ≢ 0
below_filled b c v h k below none_there = absurd (omega (arith, v.filled k (omega arith)))

write_at_lem :
    (b : IoVecBlock) (c offset : ℕ) (source : List ℕ)
    → length (component b c) ≡ 1024
    → offset + length source ≤ 1024
    → write_at b c offset source ≡ ok (written b c offset source)
unfolding write_at
write_at_lem b c offset source there fits =
    rw (ltb-false (length (component b c)) (offset + length source) (omega arith)) refl

pub Appends-trans :
    (b b' b'' : IoVecBlock) (xs ys : List ℕ)
    → Appends b xs b'
    → Appends b' ys b''
    → Appends b (xs ++ ys) b''
Appends-trans b b' b'' xs ys first second = record {
  split = second.split;
  pos_eq = omega (arith, first.pos_eq, second.pos_eq, length-append xs ys);
  contents_eq =
      second.contents_eq
      ∙ ap (λ (t : List ℕ). t ++ ys) first.contents_eq
      ∙ append_assoc (contents b) xs ys;
}

with_component_pos :
    (b : IoVecBlock) (c n : ℕ)
    → with_component (record b { pos = n }) c ≡ record (with_component b c) { pos = n }
unfolding with_component
with_component_pos b c n = ground arith

pos-with_component : (b : IoVecBlock) (c : ℕ) → (with_component b c).pos ≡ b.pos
unfolding with_component
pos-with_component b c = ground arith

take-drop : (n : ℕ) (xs : List ℕ) → take n xs ++ drop n xs ≡ xs
take-drop zero xs = refl
take-drop (suc n) [] = refl
take-drop (suc n) (x ∷ xs) = ap (◌∷◌ x) (take-drop n xs)

-- What a successful `append_chunk` does.
abbrev pub ChunkAppends : IoVecBlock → List ℕ → Type 0
ChunkAppends b source =
    (b' : IoVecBlock) × (append_chunk b source ≡ ok (b', b.pos + length source))
    × Appends b source b'

append_one :
    (b : IoVecBlock) (source : List ℕ)
    → IsSplit b
    → b.pos + length source < 4096
    → b.pos / 1024 ≡ (b.pos + length source) / 1024
    → ChunkAppends b source
unfolding append_chunk advance
append_one b source v room same =
    let c = b.pos / 1024 in
    let b' = with_component b c in
    let g = with_component-Grows b c v (omega arith) in
    (
      record (written b' c (b.pos % 1024) source) { pos = b.pos + length source },
      rw
          (
            IsSplit-is_whole b v,
            eq→== c ((b.pos + length source) / 1024) same,
            add_at_lem b c (omega arith) (below_filled b c v (omega arith)),
            write_at_lem b' c (b.pos % 1024) source g.there (omega arith),
          )
          (ground (arith, g.pos_eq)),
      written-Appends b b' c (b.pos % 1024) source g (omega arith) (omega arith) (omega arith),
    )

-- The write into two components, the first of which it fills.
append_both :
    (b : IoVecBlock) (source : List ℕ)
    → IsSplit b
    → length source ≤ 1024
    → b.pos + length source < 4096
    → b.pos / 1024 ≢ (b.pos + length source) / 1024
    → ChunkAppends b source
unfolding append_chunk append_two advance
append_both b source v small room across =
    let c = b.pos / 1024 in
    let l1 = 1024 - b.pos % 1024 in
    let first = take l1 source in
    let second = drop l1 source in
    let b₁ = with_component b c in
    let g₁ = with_component-Grows b c v (omega arith) in
    let b₂ = written b₁ c (b.pos % 1024) first in
    let len₁ = length-take l1 source (omega arith) in
    let len₂ = length-drop l1 source in
    let half =
      written-Appends b b₁ c (b.pos % 1024) first g₁ (omega arith) (omega arith)
        (omega (arith, len₁)) in
    let b₂' = record b₂ { pos = b.pos + length first } in
    let b₃ = with_component b₂ (suc c) in
    let g₃ : Grows b₂' (suc c) (record b₃ { pos = b.pos + length first }) =
      subst (λ t. Grows b₂' (suc c) t) (with_component_pos b₂ (suc c) (b.pos + length first))
        (with_component-Grows b₂' (suc c) half.split (omega (arith, len₁))) in
    let whole =
      written-Appends b₂' (record b₃ { pos = b.pos + length first }) (suc c) 0 second g₃
        (omega (arith, len₁)) (omega (arith, len₁)) (omega (arith, len₂)) in
    let next : (b.pos + length source) / 1024 ≡ suc c = omega arith in
    (
      record (written b₃ (suc c) 0 second) { pos = b.pos + length source },
      rw
          (
            IsSplit-is_whole b v,
            next,
            ne→== c (suc c) (λ e. absurd (omega (arith, e))),
            add_at_lem b c (omega arith) (below_filled b c v (omega arith)),
            write_at_lem b₁ c (b.pos % 1024) first g₁.there (omega (arith, len₁)),
            add_at_lem b₂ (suc c) (omega arith)
                (λ k h. below_filled b₂' (suc c) half.split (omega (arith, len₁)) k h),
            write_at_lem b₃ (suc c) 0 second g₃.there (omega (arith, len₂)),
          )
          (ground (arith, g₁.pos_eq, pos-with_component b₂ (suc c))),
      subst (λ n. Appends b source (record (written b₃ (suc c) 0 second) { pos = n }))
          (omega (arith, len₁, len₂))
          (subst
            (λ xs.
              Appends b xs (record (written b₃ (suc c) 0 second) {
                pos = b.pos + length first + length second;
              }))
            (take-drop l1 source) (Appends-trans b b₂' _ first second half whole)),
    )

-- `append_chunk` of at most a component's size: the bytes are put behind the others where the block
-- has room for them and for one byte more; otherwise the answer is zero and the block is as it was.
pub append_chunk_lem :
    (b : IoVecBlock) (source : List ℕ)
    → IsSplit b
    → length source ≤ 1024
    → ((b.pos + length source < 4096) × ChunkAppends b source)
      ⊎ ((4096 ≤ b.pos + length source) × (append_chunk b source ≡ ok (b, 0)))
append_chunk_lem b source v small = elim (dec_lt (b.pos + length source) 4096) [
  | yes room ↦ inl (
    room,
    elim (ℕ_discrete (b.pos / 1024) ((b.pos + length source) / 1024)) [
      | yes same ↦ append_one b source v room same
      | no across ↦ append_both b source v small room across
    ],
  )
  | no full ↦
      inr (omega arith, unfold append_chunk in rw (IsSplit-is_whole b v) (ground (arith, full)))
]
