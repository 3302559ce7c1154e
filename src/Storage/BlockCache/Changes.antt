-- ===== src/Storage/BlockCache/Changes.antt =====
-- What an insertion into a block cache may change, and what its steps change: the cell of the block's
-- address, and the cell that is evicted.
use akumuli.Base.{
  ℕ, ◌^◌, ◌≤◌, ◌<◌, ◌≡◌, ◌≢◌, ◌⊎◌, inl, inr, refl, ap, sym, ◌∙◌, arith, none, some, set, get_elem?,
  get_elem?-set_self, get_elem?-set_ne, eq→==, lt→ltb, ltb-false,
}
use akumuli.Base.Outcome.{ok}
use akumuli.Storage.IoVecBlock.{IoVecBlock}
use akumuli.Storage.BlockCache.{BlockCache, hash, evict, put_cell, loockup}
use akumuli.Storage.BlockCache.Cells.{IsCache, cell_some, set-IsCache}
use native.Mathlib.Decide.{dec_lt}

-- Of two cells that are in use, the one that an insertion evicts: the one that is used less, and of two
-- that are used equally the first if its block has the smaller address, or else the second.
pub data Victim (use_count : ℕ → ℕ) (h1 h2 : ℕ) (p1 p2 : IoVecBlock) : ℕ → Type 0 where
  first_less : use_count h1 < use_count h2 → Victim use_count h1 h2 p1 p2 h1
  second_less : use_count h2 < use_count h1 → Victim use_count h1 h2 p1 p2 h2
  first_older : use_count h1 ≡ use_count h2 → p1.addr < p2.addr → Victim use_count h1 h2 p1 p2 h1
  second_older : use_count h1 ≡ use_count h2 → p2.addr ≤ p1.addr → Victim use_count h1 h2 p1 p2 h2

-- The block is in the cell `k`, and is found.
pub record Stored (k : ℕ) (block : IoVecBlock) (c' : BlockCache) : Type 0 where
  pub in_cell : get_elem? c'.block_cache k ≡ some (some block)
  pub found : loockup c' block.addr ≡ ok (some block)

-- What an insertion of a block whose cell is `k` does.
pub data Inserted (c : BlockCache) (use_count : ℕ → ℕ) (h1 h2 k : ℕ) (block : IoVecBlock)
    (c' : BlockCache) : Type 0 where
  was_cached :
      (old : IoVecBlock)
      → get_elem? c.block_cache k ≡ some (some old)
      → old.addr ≡ block.addr
      → loockup c' block.addr ≡ ok (some old)
      → c' ≡ c
      → Inserted c use_count h1 h2 k block c'
  replaced :
      (old : IoVecBlock)
      → get_elem? c.block_cache k ≡ some (some old)
      → old.addr ≢ block.addr
      → Stored k block c'
      → ((i : ℕ) → i ≢ k → get_elem? c'.block_cache i ≡ get_elem? c.block_cache i)
      → Inserted c use_count h1 h2 k block c'
  took_free :
      get_elem? c.block_cache k ≡ some none
      → (get_elem? c.block_cache h1 ≡ some none) ⊎ (get_elem? c.block_cache h2 ≡ some none)
      → Stored k block c'
      → ((i : ℕ) → i ≢ k → get_elem? c'.block_cache i ≡ get_elem? c.block_cache i)
      → Inserted c use_count h1 h2 k block c'
  evicted :
      (p1 p2 : IoVecBlock) (v : ℕ)
      → get_elem? c.block_cache k ≡ some none
      → get_elem? c.block_cache h1 ≡ some (some p1)
      → get_elem? c.block_cache h2 ≡ some (some p2)
      → Victim use_count h1 h2 p1 p2 v
      → Stored k block c'
      → get_elem? c'.block_cache v ≡ some none
      → ((i : ℕ) → i ≢ k → i ≢ v → get_elem? c'.block_cache i ≡ get_elem? c.block_cache i)
      → Inserted c use_count h1 h2 k block c'

-- `evict` frees the cell of the victim.
pub evict-Victim :
    (c : BlockCache) (use_count : ℕ → ℕ) (h1 h2 : ℕ) (p1 p2 : IoVecBlock)
    → (v : ℕ) × Victim use_count h1 h2 p1 p2 v
      × ((v ≡ h1) ⊎ (v ≡ h2))
      × (evict c use_count h1 h2 (some p1) (some p2)
          ≡ record c { block_cache = set c.block_cache v none })
unfolding evict
evict-Victim c use_count h1 h2 p1 p2 =
    let n1 = use_count h1 in
    let n2 = use_count h2 in
    elim (dec_lt n2 n1) [
      | yes more ↦ (h2, second_less more, inr refl, rw (lt→ltb n2 n1 more) refl)
      | no not_more ↦ elim (dec_lt n1 n2) [
        | yes less ↦ (
          h1,
          first_less less,
          inl refl,
          rw (ltb-false n2 n1 (omega (arith, not_more)), lt→ltb n1 n2 less) refl,
        )
        | no same ↦
            let not1 = ltb-false n2 n1 (omega (arith, not_more)) in
            let not2 = ltb-false n1 n2 (omega (arith, same)) in
            let equal : n1 ≡ n2 = omega (arith, not_more, same) in
            elim (dec_lt p1.addr p2.addr) [
              | yes older ↦ (
                h1,
                first_older equal older,
                inl refl,
                rw (not1, not2, lt→ltb p1.addr p2.addr older) refl,
              )
              | no newer ↦ (
                h2,
                second_older equal (omega (arith, newer)),
                inr refl,
                rw (not1, not2, ltb-false p1.addr p2.addr (omega (arith, newer))) refl,
              )
            ]
      ]
    ]

-- What `put_cell` changes.
pub put_cell-Stored :
    (c : BlockCache) (block : IoVecBlock) (k : ℕ)
    → IsCache c
    → hash block.addr c.bits ≡ ok k
    → k < 2 ^ c.bits
    → (c' : BlockCache) × (put_cell c block ≡ ok c')
      × IsCache c'
      × Stored k block c'
      × ((i : ℕ) → i ≢ k → get_elem? c'.block_cache i ≡ get_elem? c.block_cache i)
unfolding put_cell loockup
put_cell-Stored c block k inv hashed lt =
    let (old, e) = cell_some c k inv lt in
    let here = get_elem?-set_self c.block_cache k (some block) (omega (arith, inv.size, lt)) in
    (
      record c { block_cache = set c.block_cache k (some block) },
      rw (hashed, e) refl,
      set-IsCache c k (some block) inv lt
          (λ b e. ap (λ (t : IoVecBlock). hash t.addr c.bits) (inj b block e) ∙ hashed),
      record { in_cell = here; found = rw (hashed, here, eq→== block.addr block.addr refl) refl },
      λ i other. get_elem?-set_ne c.block_cache k i (some block) (λ q. other (sym q)),
    )
  where
    inj : (a b : IoVecBlock) → some b ≡ some a → a ≡ b
    inj a b e = cc
