-- ===== src/Storage/IoVecBlock/Gets.antt =====
-- `get` and `safe_put` of a block of components against each other.
use akumuli.Base.{
  ℕ, ◌+◌, ◌≤◌, ◌<◌, ◌≡◌, ap, sym, ◌∙◌, arith, true, [], ◌∷◌, length, get_or, get_or-append_left,
  get_or-append_right,
}
use akumuli.Base.Outcome.{ok, panic}
use akumuli.Storage.IoVecBlock.{IoVecBlock, safe_put, get}
use akumuli.Storage.IoVecBlock.View.{contents, IsSplit, IsSplit-is_whole, length-contents}
use akumuli.Storage.IoVecBlock.Bytes.{safe_put-Appends, get_lem}

get_outside : (b : IoVecBlock) (offset : ℕ) → IsSplit b → 4096 ≤ offset → get b offset ≡ panic
unfolding get
get_outside b offset v h = rw (IsSplit-is_whole b v) (ground arith)

-- The byte that `safe_put` puts in a block of components with room for one is got at the position where
-- the write position was; every offset before it gives what it gave, and an offset behind the block's
-- 4096 bytes throws.
pub get-safe_put :
    (b : IoVecBlock) (val : ℕ)
    → IsSplit b
    → b.pos < 4096
    → (b' : IoVecBlock) × (safe_put b val ≡ (b', true))
      × (get b' b.pos ≡ ok val)
      × ((offset : ℕ) → offset < b.pos → get b' offset ≡ get b offset)
      × ((offset : ℕ) → 4096 ≤ offset → get b' offset ≡ panic)
get-safe_put b val v room =
    let (b', put, more) = safe_put-Appends b val v room in
    let len = length-contents b in
    let pos_eq : b'.pos ≡ b.pos + 1 = more.pos_eq in
    (
      b',
      put,
      get_lem b' b.pos more.split (omega (arith, pos_eq))
          ∙ ap (λ (k : ℕ). ok (get_or (contents b') k 0)) (omega (arith, len))
          ∙ ap (λ (t : _). ok (get_or t (length (contents b) + 0) 0)) more.contents_eq
          ∙ ap (λ (k : ℕ). ok k) (get_or-append_right (contents b) (val ∷ []) 0 0),
      λ offset below.
          get_lem b' offset more.split (omega (arith, pos_eq, below))
          ∙ ap (λ (t : _). ok (get_or t offset 0)) more.contents_eq
          ∙ ap (λ (k : ℕ). ok k)
              (get_or-append_left (contents b) (val ∷ []) offset 0 (omega (arith, len, below)))
          ∙ sym (get_lem b offset v below),
      λ offset h. get_outside b' offset more.split h,
    )
