-- ===== src/Storage/BlockCache.antt =====
-- libakumuli/storage_engine/blockstore.h, blockstore.cpp: BlockCache, a table of blocks by the hash of
-- their address. The source of random numbers and the use counts of the shared pointers are outside: an
-- insertion gets the two numbers that it draws, which the cache's distribution bounds, and, for each
-- cell, the count that it reads.
pub mod Cells
pub mod Changes
pub mod Inserts
use akumuli.Base.{
  ℕ, zero, suc, ◌+◌, ◌-◌, ◌*◌, ◌/◌, ◌%◌, ◌^◌, ◌≤◌, ◌<◌, ◌≡◌, ◌≢◌, refl, ap, sym, ◌∙◌, arith,
  bit_xor, Bool, true, false, ◌||◌, Option, none, some, List, [], ◌∷◌, length, set, replicate,
  get_elem?, length-set, get_elem?-set_self, get_elem?-some, length-replicate, ltb, ◌==◌,
  if◌then◌else◌,
}
use akumuli.Base.Words.{u64}
use akumuli.Base.Outcome.{Outcome, ok, panic, undefined, ◌>>=◌}
use akumuli.Storage.IoVecBlock.{IoVecBlock}
use akumuli.Storage.FileStorage.{at_or_panic}

-- `dist_` is the bounds of the numbers that it draws, both included.
pub record BlockCache : Type 0 where
  pub block_cache : List (Option IoVecBlock)
  pub bits : ℕ
  pub dist_min : ℕ
  pub dist_max : ℕ

-- hashes x strongly universally into N bits; a shift by 64, or by 64 - bits below zero, is undefined.
unfoldable pub hash32 : ℕ → ℕ → ℕ → Outcome ℕ
hash32 value bits seed =
    if bits == 0 || ltb 64 bits
    then undefined
    else ok (u64 ((2 ^ 32 - 1) * value + seed) / 2 ^ (64 - bits))

unfoldable pub hash : ℕ → ℕ → Outcome ℕ
hash value bits = do
  a ← hash32 (value % 2 ^ 32) bits 277
  b ← hash32 (value / 2 ^ 32) bits 337
  ok (bit_xor a b)

-- 1 << Nbits is an `int`: 2^31 is a negative one, which is no size of a vector, and a shift by 32 or
-- more is undefined.
unfoldable pub create_cache : ℕ → Outcome BlockCache
create_cache nbits =
    if ltb nbits 31
    then ok (record {
      block_cache = replicate (2 ^ nbits) none;
      bits = nbits;
      dist_min = 0;
      dist_max = 2 ^ nbits;
    })
    else if nbits == 31
    then panic
    else undefined

-- std::vector::at
abbrev pub cell : BlockCache → ℕ → Outcome (Option IoVecBlock)
cell c h = at_or_panic (get_elem? c.block_cache h)

abbrev pub probe_cell : Option IoVecBlock → ℕ → ℕ
probe_cell none addr = 0
probe_cell (some b) addr = if b.addr == addr then 2 else 1

unfoldable pub probe : BlockCache → ℕ → Outcome ℕ
probe c addr = do h ← hash addr c.bits; b ← cell c h; ok (probe_cell b addr)

abbrev pub reset_cell : BlockCache → ℕ → BlockCache
reset_cell c h = record c { block_cache = set c.block_cache h none }

-- Evict least accessed, of two cells that are both in use.
unfoldable pub evict :
    BlockCache → (ℕ → ℕ) → ℕ → ℕ → Option IoVecBlock → Option IoVecBlock → BlockCache
evict c use_count h1 h2 (some p1) (some p2) =
    if ltb (use_count h2) (use_count h1)
    then reset_cell c h2
    else if ltb (use_count h1) (use_count h2)
    then reset_cell c h1
    else if ltb p1.addr p2.addr
    then reset_cell c h1
    else reset_cell c h2
evict c use_count h1 h2 p1 p2 = c

unfoldable pub evict_two : BlockCache → (ℕ → ℕ) → ℕ → ℕ → Outcome BlockCache
evict_two c use_count h1 h2 = do p1 ← cell c h1; p2 ← cell c h2; ok (evict c use_count h1 h2 p1 p2)

unfoldable pub put_cell : BlockCache → IoVecBlock → Outcome BlockCache
put_cell c block = do
  h ← hash block.addr c.bits
  _ ← cell c h
  ok (record c { block_cache = set c.block_cache h (some block) })

unfoldable pub insert : BlockCache → (ℕ → ℕ) → ℕ → ℕ → IoVecBlock → Outcome BlockCache
insert c use_count h1 h2 block = do
  pr ← probe c block.addr
  let free = (evict_two c use_count h1 h2 >>= λ (evicted : BlockCache). put_cell evicted block)
  if pr == 2 then ok c else if pr == 0 then free else put_cell c block

abbrev pub same_address : Option IoVecBlock → ℕ → Outcome (Option IoVecBlock)
same_address none addr = undefined
same_address (some b) addr = ok (if b.addr == addr then some b else none)

-- The address is read from the cell without a test that there is a block.
unfoldable pub loockup : BlockCache → ℕ → Outcome (Option IoVecBlock)
loockup c addr = do h ← hash addr c.bits; p ← cell c h; same_address p addr
