-- ===== src/Storage/Examples/Runs.antt =====
-- The theorems on blocks, volumes and stores of files at concrete inputs.
use akumuli.Base.{
  ℕ, zero, suc, ◌+◌, ◌*◌, ◌^◌, ◌≤◌, ◌<◌, ◌≡◌, ◌⊎◌, inl, inr, refl, ap, subst, arith, true, some,
  List, [], ◌∷◌, length, replicate, get_elem?,
}
use akumuli.Base.Outcome.{ok, panic, undefined}
use akumuli.Status.{success}
use akumuli.Storage.IoVecBlock.{IoVecBlock, component, safe_put, get, empty_addr}
use akumuli.Base.Words.{to_bytes}
use akumuli.Storage.IoVecBlock.{put_bytes, get_raw}
use akumuli.Storage.IoVecBlock.Pods.{get_raw-put_bytes}
use akumuli.Storage.IoVecBlock.Chunks.{append_chunk, read_chunk}
use akumuli.Storage.IoVecBlock.View.{IsSplit}
use akumuli.Storage.IoVecBlock.Bytes.{Appends, safe_put-Appends}
use akumuli.Storage.IoVecBlock.Gets.{get-safe_put}
use akumuli.Storage.IoVecBlock.Appends.{ChunkAppends, append_chunk_lem}
use akumuli.Storage.IoVecBlock.Reads.{slice, read_chunk_lem, read_chunk_at_end}
use akumuli.Storage.MetaVolume.{VolumeRef}
use akumuli.Storage.Volume.{Volume, append_block, block_bytes}
use akumuli.Storage.Volume.Bytes.{IsImage}
use akumuli.Storage.Volume.Blocks.{
  IsVolume, OneMore, append_block-OneMore, append_block-wraps, block_at,
}
use akumuli.Storage.FileStorage.{Store, fixed_size, append, extract_vol}
use akumuli.Storage.FileStorage.Invariant.{IsStore, Slot}
use akumuli.Storage.FileStorage.Append.{HasGenerations, Appended, append-Appended}
use akumuli.Storage.FileStorage.Open.{find_current, FirstFree, FullAt, find_current-FirstFree}
use akumuli.Storage.Examples.{disk, DiskFile, disk-IsReliable}

-- A block with 1023 bytes in its first component, which is one less than it has room for.
abbrev pub sevens : IoVecBlock
sevens = record { components = replicate 1024 7 ∷ [] ∷ [] ∷ [] ∷ []; pos = 1023; addr = empty_addr }

pub sevens-IsSplit : IsSplit sevens
sevens-IsSplit = record { count = refl; within = omega arith; used = used_at; filled = filled_at }
  where
    used_at : (c : ℕ) → (length (component sevens c) ≡ 0) ⊎ (length (component sevens c) ≡ 1024)
    used_at zero = inr refl
    used_at (suc zero) = inl refl
    used_at (suc (suc zero)) = inl refl
    used_at (suc (suc (suc zero))) = inl refl
    used_at (suc (suc (suc (suc c)))) = inl refl

    filled_at : (c : ℕ) → c * 1024 < 1023 → length (component sevens c) ≡ 1024
    filled_at zero h = refl
    filled_at (suc c) h = absurd (omega (arith, h))

-- The same, with its first component full.
abbrev full_component : IoVecBlock
full_component = record sevens { pos = 1024 }

full_component-IsSplit : IsSplit full_component
full_component-IsSplit = record {
  count = refl;
  within = omega arith;
  used = sevens-IsSplit.used;
  filled = filled_at;
}
  where
    filled_at : (c : ℕ) → c * 1024 < 1024 → length (component sevens c) ≡ 1024
    filled_at zero h = refl
    filled_at (suc c) h = absurd (omega (arith, h))

safe_put-Appends_example :
    (b' : IoVecBlock) × (safe_put full_component 9 ≡ (b', true))
    × Appends full_component (9 ∷ []) b'
safe_put-Appends_example = safe_put-Appends full_component 9 full_component-IsSplit (omega arith)

get-safe_put_example :
    (b' : IoVecBlock) × (safe_put full_component 9 ≡ (b', true))
    × (get b' 1024 ≡ ok 9)
    × ((offset : ℕ) → offset < 1024 → get b' offset ≡ get full_component offset)
    × ((offset : ℕ) → 4096 ≤ offset → get b' offset ≡ panic)
get-safe_put_example = get-safe_put full_component 9 full_component-IsSplit (omega arith)

-- Across the end of the first component.
append_chunk_lem_example :
    ((1023 + 4 < 4096) × ChunkAppends sevens (1 ∷ 2 ∷ 3 ∷ 4 ∷ []))
    ⊎ ((4096 ≤ 1023 + 4) × (append_chunk sevens (1 ∷ 2 ∷ 3 ∷ 4 ∷ []) ≡ ok (sevens, 0)))
append_chunk_lem_example = append_chunk_lem sevens (1 ∷ 2 ∷ 3 ∷ 4 ∷ []) sevens-IsSplit (omega arith)

read_chunk_lem_example : read_chunk sevens 10 3 ≡ ok (3, slice sevens 10 3)
read_chunk_lem_example =
    read_chunk_lem sevens 10 3 sevens-IsSplit (omega arith) (omega arith) (omega arith)

read_chunk_at_end_example :
    ((1024 < 4096) × ((bytes : List ℕ) × (read_chunk full_component 1000 24 ≡ ok (0, bytes))))
    ⊎ (◌≡◌ {A = ℕ} 1024 4096 × (read_chunk full_component 1000 24 ≡ undefined))
read_chunk_at_end_example =
    read_chunk_at_end full_component 1000 24 full_component-IsSplit (omega arith) (omega arith) refl
      refl refl

-- A volume of one block that is full.
abbrev full_volume : Volume DiskFile
full_volume = record {
  file = record { size = 4096; byte = λ i. 1 };
  file_size = 1;
  write_pos = 1;
  path = 48 ∷ [];
}

abbrev empty_volume : Volume DiskFile
empty_volume = record full_volume { write_pos = 0 }

full_volume-IsVolume : IsVolume disk full_volume
full_volume-IsVolume = record {
  size_eq = refl;
  few = omega arith;
  not_empty = omega arith;
  within = omega arith;
}

empty_volume-IsVolume : IsVolume disk empty_volume
empty_volume-IsVolume = record {
  size_eq = refl;
  few = omega arith;
  not_empty = omega arith;
  within = omega arith;
}

append_block-OneMore_example :
    (v' : Volume DiskFile) × (append_block disk empty_volume sevens ≡ ok (v', success, 0))
    × OneMore disk empty_volume (block_bytes sevens) v'
    × IsImage sevens (block_bytes sevens)
append_block-OneMore_example =
    append_block-OneMore disk empty_volume sevens disk-IsReliable empty_volume-IsVolume
      sevens-IsSplit (omega arith)

-- A volume of 2^20 + 1 blocks, of which one is left.
abbrev large_volume : Volume DiskFile
large_volume = record {
  file = record { size = 4294971392; byte = λ i. 1 };
  file_size = 1048577;
  write_pos = 1048576;
  path = 48 ∷ [];
}

append_block-wraps_example :
    (v' : Volume DiskFile) × (append_block disk large_volume sevens ≡ ok (v', success, 1048576))
    × (block_at disk v' 0 ≡ some (block_bytes sevens))
append_block-wraps_example =
    append_block-wraps disk large_volume sevens 0 disk-IsReliable sevens-IsSplit refl (omega arith)
      (omega arith) (omega arith) (omega arith)

abbrev ref_of : ℕ → VolumeRef
ref_of gen = record {
  version = 30;
  id = gen;
  nblocks = 1;
  capacity = 1;
  generation = gen;
  path = 48 ∷ [];
}

-- Two volumes of one block each, both full.
abbrev full_store : Store disk
full_store = record {
  kind = fixed_size;
  meta = record { registry = []; refs = ref_of 0 ∷ ref_of 1 ∷ [] };
  volumes = full_volume ∷ full_volume ∷ [];
  dirty = 0 ∷ 0 ∷ [];
  current_volume = 0;
  current_gen = 0;
  total_size = 2;
  volume_names = (48 ∷ []) ∷ (49 ∷ []) ∷ [];
}

same_ref : (r r' : VolumeRef) → some r ≡ some r' → r ≡ r'
same_ref r r' e = cc

full-Slot :
    (gen : ℕ) (r : VolumeRef) (v : Volume DiskFile)
    → gen < 2
    → some (ref_of gen) ≡ some r
    → some full_volume ≡ some v
    → Slot disk 2 gen r v
full-Slot gen r v h hr hv =
    subst (λ (t : VolumeRef). Slot disk 2 gen t v) (same_ref (ref_of gen) r hr)
      (subst (λ (t : Volume DiskFile). Slot disk 2 gen (ref_of gen) t)
        (same_volume full_volume v hv)
        (record {
          volume = full_volume-IsVolume;
          nblocks_eq = refl;
          generation = omega (arith, h);
          word = omega (arith, h);
        }))
  where
    same_volume : (v v' : Volume DiskFile) → some v ≡ some v' → v ≡ v'
    same_volume v v' e = cc

full_store-IsStore : IsStore disk full_store
full_store-IsStore = record {
  fixed = refl;
  some_volumes = omega arith;
  counts = refl;
  current = omega arith;
  slot = slot_at;
  gen_eq = λ r hr. ap (λ (t : VolumeRef). t.generation) (same_ref (ref_of 0) r hr);
}
  where
    slot_at :
        (i : ℕ) (r : VolumeRef) (v : Volume DiskFile)
        → get_elem? (ref_of 0 ∷ ref_of 1 ∷ []) i ≡ some r
        → get_elem? (full_volume ∷ full_volume ∷ []) i ≡ some v
        → Slot disk 2 i r v
    slot_at zero r v hr hv = full-Slot 0 r v (omega arith) hr hv
    slot_at (suc zero) r v hr hv = full-Slot 1 r v (omega arith) hr hv
    slot_at (suc (suc i)) r v hr hv = cc

full_store-HasGenerations : HasGenerations disk full_store
full_store-HasGenerations = record {
  next_fits = λ r hr.
      subst (λ (t : VolumeRef). t.generation + 2 < 2 ^ 32) (same_ref (ref_of 1) r hr) (omega arith);
}

append-Appended_example :
    (s' : Store disk) × (addr : ℕ) × (append disk full_store sevens
      ≡ ok (s', record sevens { addr = extract_vol addr }, success, addr))
    × Appended disk full_store sevens addr s'
append-Appended_example =
    append-Appended disk full_store sevens disk-IsReliable full_store-IsStore sevens-IsSplit
      full_store-HasGenerations

find_current-FirstFree_example :
    ((j : ℕ) × (gen : ℕ) × (find_current disk
          (record { registry = []; refs = ref_of 0 ∷ ref_of 1 ∷ [] })
          (full_volume ∷ full_volume ∷ [])
          0
        ≡ ok (0 + j, gen))
      × FirstFree disk
          (record { registry = []; refs = ref_of 0 ∷ ref_of 1 ∷ [] })
          (full_volume ∷ full_volume ∷ [])
          0
          j
          gen)
    ⊎ ((find_current disk
            (record { registry = []; refs = ref_of 0 ∷ ref_of 1 ∷ [] })
            (full_volume ∷ full_volume ∷ [])
            0
          ≡ ok (0, 0))
        × ((k : ℕ)
            → k < 2
            → FullAt disk
                (record { registry = []; refs = ref_of 0 ∷ ref_of 1 ∷ [] })
                (full_volume ∷ full_volume ∷ [])
                0
                k))
find_current-FirstFree_example =
    find_current-FirstFree disk (record { registry = []; refs = ref_of 0 ∷ ref_of 1 ∷ [] })
      (full_volume ∷ full_volume ∷ []) 0 (omega arith)

-- Four bytes across the end of the first component.
get_raw-put_bytes_example :
    (b' : IoVecBlock) × (put_bytes (to_bytes 4 70000) sevens ≡ ok b')
    × Appends sevens (to_bytes 4 70000) b'
    × (get_raw b' 4 1023 ≡ ok 70000)
get_raw-put_bytes_example =
    get_raw-put_bytes sevens 4 70000 sevens-IsSplit (omega arith) (omega arith)
