-- ===== src/Storage/Examples/MemRuns.antt =====
-- The theorems on the store in memory, checksums and the cache at concrete inputs.
use akumuli.Base.{
  ℕ, zero, suc, ◌+◌, ◌≡◌, refl, ap, sym, ◌∙◌, arith, true, false, none, some, get_elem?, List, [],
  ◌∷◌, ◌++◌, take, drop, replicate, length-replicate, flatten,
}
use akumuli.Base.Outcome.{ok, panic}
use akumuli.Status.{success, is_success}
use akumuli.Storage.IoVecBlock.{IoVecBlock, empty_addr}
use akumuli.Storage.Volume.{block_bytes}
use akumuli.Storage.MemStore.{MemStore, create_memstore, memstore_base, read_iovec_block}
use akumuli.Storage.MemStore as MemStore
use akumuli.Storage.MemStore.Blocks.{
  Holds, answer, append_block-Holds, read_iovec_block-answer, exists-answer,
}
use akumuli.Storage.Checksum.{checksum}
use akumuli.Storage.Checksum.Slices.{NoGaps, no_more, one_more, Continues, checksum-flatten}
use akumuli.Storage.BlockCache.{BlockCache, create_cache, insert, hash, hash32}
use akumuli.Storage.BlockCache.Cells.{IsCache, Draws}
use akumuli.Storage.BlockCache.Changes.{Inserted}
use akumuli.Storage.BlockCache.Inserts.{insert-Inserted, insert-panic}
use akumuli.Storage.Examples.Runs.{sevens, sevens-IsSplit}

-- A store in memory with one block.
abbrev one_block : MemStore
one_block = record {
  buffer = replicate 4096 5 ++ [];
  has_append_callback = false;
  has_read_callback = true;
  write_pos = 1;
  removed_pos = 0;
  calls = [];
}

one_block-Holds : Holds one_block (replicate 4096 5 ∷ [])
unfolding flatten
one_block-Holds = record {
  bytes = refl;
  whole = (length-replicate {A = ℕ} 4096 5, tt);
  position = refl;
  few = omega arith;
}

append_block-Holds_example :
    (s' : MemStore) × (MemStore.append_block one_block sevens
      ≡ (s', record sevens { addr = 620 }, success, 620))
    × Holds s' (replicate 4096 5 ∷ block_bytes sevens ∷ [])
    × (s'.removed_pos ≡ 0)
append_block-Holds_example =
    append_block-Holds one_block (replicate 4096 5 ∷ []) sevens one_block-Holds sevens-IsSplit
      (omega arith)

read_iovec_block-answer_example :
    (s' : MemStore) × (read_iovec_block one_block (memstore_base + 0)
      ≡ ok (s', (answer (replicate 4096 5 ∷ []) 0 0).0, (answer (replicate 4096 5 ∷ []) 0 0).1))
    × Holds s' (replicate 4096 5 ∷ [])
read_iovec_block-answer_example =
    read_iovec_block-answer one_block (replicate 4096 5 ∷ []) 0 one_block-Holds (omega arith)

exists-answer_example :
    MemStore.exists one_block (memstore_base + 0)
    ≡ is_success (answer (replicate 4096 5 ∷ []) 0 0).0
exists-answer_example =
    exists-answer one_block (replicate 4096 5 ∷ []) 0 one_block-Holds (omega arith)

-- A checksum that adds the bytes.
unfoldable sum_from : ℕ → List ℕ → ℕ
sum_from crc [] = crc
sum_from crc (x ∷ xs) = sum_from (crc + x) xs

sum_from-Continues : Continues sum_from
unfolding sum_from
sum_from-Continues = record { nothing = λ crc. refl; in_two = in_two_parts }
  where
    in_two_parts :
        (crc : ℕ) (xs ys : List ℕ) → sum_from crc (xs ++ ys) ≡ sum_from (sum_from crc xs) ys
    in_two_parts crc [] ys = refl
    in_two_parts crc (x ∷ xs) ys = in_two_parts (crc + x) xs ys

two_components : IoVecBlock
two_components = record {
  components = (1 ∷ 2 ∷ 3 ∷ []) ∷ (4 ∷ 5 ∷ 6 ∷ []) ∷ [] ∷ [] ∷ [];
  pos = 6;
  addr = 0;
}

two_components-NoGaps : NoGaps two_components.components
unfolding two_components flatten
two_components-NoGaps = one_more (omega arith) (one_more (omega arith) (no_more refl))

checksum-flatten_example :
    checksum sum_from two_components 1 3
    ≡ sum_from 0 (take 3 (drop 1 (flatten two_components.components)))
unfolding two_components
checksum-flatten_example =
    checksum-flatten sum_from two_components 1 3 sum_from-Continues two_components-NoGaps
      (omega arith)

-- A cache of two cells, of which the second is in use: its block has an address with the hash 1.
abbrev in_second_cell : IoVecBlock
in_second_cell = record sevens { addr = 18446744069414584320 }

abbrev two_cells : BlockCache
two_cells = record {
  block_cache = none ∷ some in_second_cell ∷ [];
  bits = 1;
  dist_min = 0;
  dist_max = 2;
}

two_cells-IsCache : IsCache two_cells
unfolding hash hash32
two_cells-IsCache = record {
  size = refl;
  some_bits = omega arith;
  few = omega arith;
  placed = at_hash;
}
  where
    second : hash in_second_cell.addr 1 ≡ ok 1
    second = refl

    at_hash :
        (i : ℕ) (b : IoVecBlock)
        → get_elem? two_cells.block_cache i ≡ some (some b)
        → hash b.addr 1 ≡ ok i
    at_hash zero b e = cc
    at_hash (suc zero) b e =
        let same : in_second_cell ≡ b = cc in
        ap (λ (t : IoVecBlock). hash t.addr 1) (sym same) ∙ second
    at_hash (suc (suc i)) b e = cc

insert-Inserted_example :
    (k : ℕ) × (c' : BlockCache) × (hash empty_addr 1 ≡ ok k)
    × (insert two_cells (λ h. 1) 1 1 sevens ≡ ok c')
    × IsCache c'
    × Inserted two_cells (λ h. 1) 1 1 k sevens c'
insert-Inserted_example =
    insert-Inserted two_cells (λ h. 1) 1 1 sevens two_cells-IsCache (omega arith) (omega arith)

insert-panic_example :
    (c : BlockCache) × (h1 : ℕ) × (create_cache 4 ≡ ok c)
    × Draws c h1
    × (insert c (λ h. 1) h1 5 sevens ≡ panic)
insert-panic_example = insert-panic 4 (λ h. 1) 5 sevens (omega arith) (omega arith)
