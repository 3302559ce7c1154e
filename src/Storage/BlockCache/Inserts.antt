-- ===== src/Storage/BlockCache/Inserts.antt =====
-- Insertions into a block cache, on every way, and one that throws.
use akumuli.Base.{
  ℕ, zero, suc, ◌^◌, ◌<◌, ◌≡◌, ◌≢◌, ◌⊎◌, inl, inr, refl, ap, sym, ◌∙◌, arith, Option, none, some,
  set, replicate, get_elem?, get_elem?-set_self, get_elem?-set_ne, get_elem?-none, length-replicate,
  eq→==, ne→==, lt→ltb,
}
use akumuli.Base.Outcome.{ok, panic}
use akumuli.Storage.IoVecBlock.{IoVecBlock}
use akumuli.Storage.BlockCache.{
  BlockCache, hash, probe, evict, evict_two, create_cache, insert, loockup,
}
use akumuli.Storage.BlockCache.Cells.{IsCache, Draws, cell_some, set-IsCache, hash-ok}
use akumuli.Storage.BlockCache.Changes.{
  Inserted, was_cached, replaced, took_free, evicted, evict-Victim, put_cell-Stored,
}
use native.Mathlib.Decide.{ℕ_discrete}

insert_evicts :
    (c : BlockCache) (use_count : ℕ → ℕ) (h1 h2 k : ℕ) (block p1 p2 : IoVecBlock)
    → IsCache c
    → h1 < 2 ^ c.bits
    → h2 < 2 ^ c.bits
    → hash block.addr c.bits ≡ ok k
    → k < 2 ^ c.bits
    → get_elem? c.block_cache k ≡ some none
    → get_elem? c.block_cache h1 ≡ some (some p1)
    → get_elem? c.block_cache h2 ≡ some (some p2)
    → (c' : BlockCache) × (insert c use_count h1 h2 block ≡ ok c')
      × IsCache c'
      × Inserted c use_count h1 h2 k block c'
unfolding insert probe evict_two
insert_evicts c use_count h1 h2 k block p1 p2 inv lt1 lt2 hashed lt e e1 e2 =
    let (v, victim, side, freed) = evict-Victim c use_count h1 h2 p1 p2 in
    let (old, in_use, inside) = used v side in
    let c₁ : BlockCache = record c { block_cache = set c.block_cache v none } in
    let (c', put, inv', stored, others) =
      put_cell-Stored c₁ block k (set-IsCache c v none inv inside (λ b e. cc)) hashed lt in
    let v≢k : v ≢ k =
      λ q. clash old (sym in_use ∙ ap (λ (i : ℕ). get_elem? c.block_cache i) q ∙ e) in
    (
      c',
      rw (hashed, e, e1, e2, freed) put,
      inv',
      evicted p1 p2 v e e1 e2 victim stored
          (others v v≢k ∙ get_elem?-set_self c.block_cache v none (omega (arith, inv.size, inside)))
          (λ i i≢k i≢v. others i i≢k ∙ get_elem?-set_ne c.block_cache v i none (λ q. i≢v (sym q))),
    )
  where
    clash : (p : IoVecBlock) → ¬ (some (some p) ≡ some none)
    clash p q = cc

    used :
        (v : ℕ)
        → (v ≡ h1) ⊎ (v ≡ h2)
        → (old : IoVecBlock) × (get_elem? c.block_cache v ≡ some (some old)) × (v < 2 ^ c.bits)
    used v (inl q) = (p1, ap (λ (i : ℕ). get_elem? c.block_cache i) q ∙ e1, omega (arith, q, lt1))
    used v (inr q) = (p2, ap (λ (i : ℕ). get_elem? c.block_cache i) q ∙ e2, omega (arith, q, lt2))

-- An insertion whose two random numbers are cells of the table succeeds and keeps every block in the
-- cell of its address. A block that is cached already stays, and nothing changes. Otherwise the block is
-- put in its cell and found there; if that cell was free and both cells that were drawn are in use, the
-- one that is used less is freed, of equally used ones the first if its block has the smaller address
-- and else the second; all other cells stay.
pub insert-Inserted :
    (c : BlockCache) (use_count : ℕ → ℕ) (h1 h2 : ℕ) (block : IoVecBlock)
    → IsCache c
    → h1 < 2 ^ c.bits
    → h2 < 2 ^ c.bits
    → (k : ℕ) × (c' : BlockCache) × (hash block.addr c.bits ≡ ok k)
      × (insert c use_count h1 h2 block ≡ ok c')
      × IsCache c'
      × Inserted c use_count h1 h2 k block c'
unfolding insert probe evict_two evict loockup
insert-Inserted c use_count h1 h2 block inv lt1 lt2 =
    let (k, hashed, lt) = hash-ok block.addr c.bits inv.some_bits inv.few in
    let (p, e) = cell_some c k inv lt in
    let (c', done, inv', how) = by_cell k hashed lt p e in (k, c', hashed, done, inv', how)
  where
    free_cell :
        (k : ℕ)
        → hash block.addr c.bits ≡ ok k
        → k < 2 ^ c.bits
        → get_elem? c.block_cache k ≡ some none
        → (p1 p2 : Option IoVecBlock) → get_elem? c.block_cache h1 ≡ some p1
        → get_elem? c.block_cache h2 ≡ some p2
        → (c' : BlockCache) × (insert c use_count h1 h2 block ≡ ok c')
          × IsCache c'
          × Inserted c use_count h1 h2 k block c'
    free_cell k hashed lt e none p2 e1 e2 =
        let (c', put, inv', stored, others) = put_cell-Stored c block k inv hashed lt in
        (c', rw (hashed, e, e1, e2) put, inv', took_free e (inl e1) stored others)
    free_cell k hashed lt e (some p1) none e1 e2 =
        let (c', put, inv', stored, others) = put_cell-Stored c block k inv hashed lt in
        (c', rw (hashed, e, e1, e2) put, inv', took_free e (inr e2) stored others)
    free_cell k hashed lt e (some p1) (some p2) e1 e2 =
        insert_evicts c use_count h1 h2 k block p1 p2 inv lt1 lt2 hashed lt e e1 e2

    by_cell :
        (k : ℕ)
        → hash block.addr c.bits ≡ ok k
        → k < 2 ^ c.bits
        → (p : Option IoVecBlock) → get_elem? c.block_cache k ≡ some p
        → (c' : BlockCache) × (insert c use_count h1 h2 block ≡ ok c')
          × IsCache c'
          × Inserted c use_count h1 h2 k block c'
    by_cell k hashed lt none e =
        let (p1, e1) = cell_some c h1 inv lt1 in
        let (p2, e2) = cell_some c h2 inv lt2 in free_cell k hashed lt e p1 p2 e1 e2
    by_cell k hashed lt (some old) e = elim (ℕ_discrete old.addr block.addr) [
      | yes same ↦
          let hit = eq→== old.addr block.addr same in
          (c, rw (hashed, e, hit) refl, inv, was_cached old e same (rw (hashed, e, hit) refl) refl)
      | no other ↦
          let (c', put, inv', stored, others) = put_cell-Stored c block k inv hashed lt in
          (
            c',
            rw (hashed, e, ne→== old.addr block.addr other) put,
            inv',
            replaced old e other stored others,
          )
    ]

-- The distribution of a new cache, of 1 to 30 bits, includes a number that is no cell: the first
-- insertion of any block throws if it draws that number first.
pub insert-panic :
    (nbits : ℕ) (use_count : ℕ → ℕ) (h2 : ℕ) (block : IoVecBlock)
    → 0 < nbits
    → nbits < 31
    → (c : BlockCache) × (h1 : ℕ) × (create_cache nbits ≡ ok c)
      × Draws c h1
      × (insert c use_count h1 h2 block ≡ panic)
unfolding create_cache insert probe evict_two
insert-panic nbits use_count h2 block some_bits few =
    let (k, hashed, lt) = hash-ok block.addr nbits some_bits (omega (arith, few)) in
    let n = 2 ^ nbits in
    let c : BlockCache = record {
      block_cache = replicate n none;
      bits = nbits;
      dist_min = 0;
      dist_max = n;
    } in
    let free : get_elem? {A = Option IoVecBlock} (replicate n none) k ≡ some none =
      free_at n k lt in
    let outside : get_elem? {A = Option IoVecBlock} (replicate n none) n ≡ none =
      get_elem?-none (replicate n none) n
        (omega (arith, length-replicate {A = Option IoVecBlock} n none)) in
    (
      c,
      n,
      rw (lt→ltb nbits 31 few) refl,
      record { lower = omega arith; upper = omega arith },
      rw (hashed, free, outside) refl,
    )
  where
    free_at : (n k : ℕ) → k < n → get_elem? {A = Option IoVecBlock} (replicate n none) k ≡ some none
    free_at zero k h = absurd (omega (arith, h))
    free_at (suc n) zero h = refl
    free_at (suc n) (suc k) h = free_at n k (omega (arith, h))
