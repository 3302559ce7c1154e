-- ===== src/Storage/BlockCache/Cells.antt =====
-- The cells of a block cache: every block stands in the cell of its address.
use akumuli.Base.{
  ℕ, zero, suc, ◌+◌, ◌-◌, ◌*◌, ◌/◌, ◌%◌, ◌^◌, ◌≤◌, ◌<◌, ◌≡◌, refl, ap, sym, ◌∙◌, arith, bit_xor,
  Option, none, some, length, set, replicate, get_elem?, length-set, get_elem?-set_self,
  get_elem?-set_ne, get_elem?-some, length-replicate, ne→==, lt→ltb, ltb-false,
}
use akumuli.Base.Bits.{bit_xor-lt}
use akumuli.Base.Words.{u64}
use akumuli.Base.Outcome.{ok}
use akumuli.Storage.IoVecBlock.{IoVecBlock}
use akumuli.Storage.BlockCache.{BlockCache, hash32, hash, create_cache}
use native.Mathlib.Nat.{pow-suc, one-le-pow, div-lt_iff_lt-mul}
use native.Mathlib.Decide.{ℕ_discrete}

two_powers : (m n : ℕ) → 2 ^ (m + n) ≡ 2 ^ m * 2 ^ n
two_powers zero n =
    let none_left : zero + n ≡ n = omega arith in
    let one : 2 ^ n ≡ 2 ^ zero * 2 ^ n = omega arith in ap (λ (k : ℕ). 2 ^ k) none_left ∙ one
two_powers (suc m) n =
    let up : suc m + n ≡ suc (m + n) = omega arith in
    ap (λ (k : ℕ). 2 ^ k) up
    ∙ pow-suc 2 (m + n)
    ∙ double (2 ^ (m + n)) (2 ^ m) (2 ^ n) (two_powers m n)
    ∙ ap (λ (k : ℕ). k * 2 ^ n) (sym (pow-suc 2 m))
  where
    double : (p a b : ℕ) → p ≡ a * b → p * 2 ≡ a * 2 * b
    double p a b h = grind arith

hash32-ok :
    (value bits seed : ℕ)
    → 0 < bits
    → bits ≤ 64
    → (a : ℕ) × (hash32 value bits seed ≡ ok a) × (a < 2 ^ bits)
unfolding hash32
hash32-ok value bits seed some_bits h =
    let whole : bits + (64 - bits) ≡ 64 = omega (arith, h) in
    let words : 2 ^ bits * 2 ^ (64 - bits) ≡ 2 ^ 64 =
      sym (two_powers bits (64 - bits)) ∙ ap (λ (k : ℕ). 2 ^ k) whole in
    let below : u64 ((2 ^ 32 - 1) * value + seed) < 2 ^ bits * 2 ^ (64 - bits) =
      omega (arith, words) in
    (
      u64 ((2 ^ 32 - 1) * value + seed) / 2 ^ (64 - bits),
      rw (ne→== bits 0 (λ q. absurd (omega (arith, q, some_bits))), ltb-false 64 bits h) refl,
      (div-lt_iff_lt-mul (one-le-pow (64 - bits) 2 (omega arith))).1 below,
    )

-- The cell of an address.
pub hash-ok :
    (value bits : ℕ) → 0 < bits → bits ≤ 64 → (k : ℕ) × (hash value bits ≡ ok k) × (k < 2 ^ bits)
unfolding hash
hash-ok value bits some_bits h =
    let (a, hashed, low) = hash32-ok (value % 2 ^ 32) bits 277 some_bits h in
    let (b, hashed', low') = hash32-ok (value / 2 ^ 32) bits 337 some_bits h in
    (bit_xor a b, rw (hashed, hashed') refl, bit_xor-lt bits a b low low')

pub record IsCache (c : BlockCache) : Type 0 where
  pub size : length c.block_cache ≡ 2 ^ c.bits
  pub some_bits : 0 < c.bits
  pub few : c.bits ≤ 64
  pub placed :
      (i : ℕ) (b : IoVecBlock)
      → get_elem? c.block_cache i ≡ some (some b)
      → hash b.addr c.bits ≡ ok i

-- The numbers that the cache's distribution can draw.
pub record Draws (c : BlockCache) (h : ℕ) : Type 0 where
  pub lower : c.dist_min ≤ h
  pub upper : h ≤ c.dist_max

pub no_block : (n i : ℕ) (b : IoVecBlock) → ¬ (get_elem? (replicate n none) i ≡ some (some b))
no_block zero i b e = cc
no_block (suc n) zero b e = cc
no_block (suc n) (suc i) b e = no_block n i b e

pub create_cache-IsCache :
    (nbits : ℕ)
    → 0 < nbits
    → nbits < 31
    → (c : BlockCache) × (create_cache nbits ≡ ok c) × IsCache c × (c.bits ≡ nbits)
unfolding create_cache
create_cache-IsCache nbits h few = (
  record {
    block_cache = replicate (2 ^ nbits) none;
    bits = nbits;
    dist_min = 0;
    dist_max = 2 ^ nbits;
  },
  rw (lt→ltb nbits 31 few) refl,
  record {
    size = length-replicate (2 ^ nbits) none;
    some_bits = h;
    few = omega (arith, few);
    placed = λ i b e. absurd (no_block (2 ^ nbits) i b e);
  },
  refl,
)

pub cell_some :
    (c : BlockCache) (h : ℕ)
    → IsCache c
    → h < 2 ^ c.bits
    → (p : Option IoVecBlock) × (get_elem? c.block_cache h ≡ some p)
cell_some c h inv lt = get_elem?-some c.block_cache h (omega (arith, inv.size, lt))

-- A change of one cell, to nothing or to a block whose cell it is.
pub set-IsCache :
    (c : BlockCache) (h : ℕ) (p : Option IoVecBlock)
    → IsCache c
    → h < 2 ^ c.bits
    → ((b : IoVecBlock) → p ≡ some b → hash b.addr c.bits ≡ ok h)
    → IsCache (record c { block_cache = set c.block_cache h p })
set-IsCache c h p inv lt fits = record {
  size = length-set c.block_cache h p ∙ inv.size;
  some_bits = inv.some_bits;
  few = inv.few;
  placed = λ i b e. elim (ℕ_discrete h i) [
    | yes here ↦
        let p_eq : p ≡ some b = inj p (some b) (
          sym (get_elem?-set_self c.block_cache h p (omega (arith, inv.size, lt)))
          ∙ ap (λ (k : ℕ). get_elem? (set c.block_cache h p) k) here
          ∙ e) in
        fits b p_eq ∙ ap (λ (k : ℕ). ok k) here
    | no other ↦ inv.placed i b (sym (get_elem?-set_ne c.block_cache h i p other) ∙ e)
  ];
}
  where
    inj : (a b : Option IoVecBlock) → some a ≡ some b → a ≡ b
    inj a b e = cc
