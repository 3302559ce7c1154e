-- ===== src/Storage/FileStorage/Stats.antt =====
-- FileStorage::flush, its statistics, and its top address. The name of a volume is the key of its
-- statistics.
use akumuli.Base.{
  ℕ, zero, suc, ◌+◌, Bool, true, false, List, [], ◌∷◌, get_elem?, if◌then◌else◌, ◌==◌, ◌&&◌,
}
use akumuli.Base.Outcome.{Outcome, ok, ◌>>=◌}
use akumuli.Status.{Status, is_success}
use akumuli.Storage.MetaVolume.{MetaVolume, get_nblocks, get_capacity, get_nvolumes}
use akumuli.Storage.Volume.{Files, Volume, flush_volume}
use akumuli.Storage.MemStore.{BlockStoreStats}
use akumuli.Storage.FileStorage.{Store, make_logic, at_or_panic}

-- A count that is added if it can be read.
abbrev pub counted : Status × ℕ → ℕ
counted (status, n) = if is_success status then n else 0

abbrev pub no_stats : BlockStoreStats
no_stats = record { stats_block_size = 4096; capacity = 0; nblocks = 0 }

-- A map from the names, with the newest last.
abbrev pub PerVolumeStats : Type 0
PerVolumeStats = List (List ℕ × BlockStoreStats)

unfoldable pub same_name : List ℕ → List ℕ → Bool
same_name [] [] = true
same_name [] (d ∷ ds) = false
same_name (c ∷ cs) [] = false
same_name (c ∷ cs) (d ∷ ds) = c == d && same_name cs ds

-- result[name] = stats
unfoldable pub assign : PerVolumeStats → List ℕ → BlockStoreStats → PerVolumeStats
assign [] name stats = (name, stats) ∷ []
assign ((name', stats') ∷ rest) name stats =
    if same_name name' name then (name, stats) ∷ rest else (name', stats') ∷ assign rest name stats

-- The rounds that are left, and the index of the volume.
unfoldable pub stats_loop : MetaVolume → ℕ → ℕ → BlockStoreStats → BlockStoreStats
stats_loop m zero ix stats = stats
stats_loop m (suc n) ix stats = stats_loop m n (suc ix) (record stats {
  capacity = stats.capacity + counted (get_capacity m ix);
  nblocks = stats.nblocks + counted (get_nblocks m ix);
})

unfoldable pub volume_stats_loop :
    MetaVolume → List (List ℕ) → ℕ → ℕ → PerVolumeStats → Outcome PerVolumeStats
volume_stats_loop m names zero ix result = ok result
volume_stats_loop m names (suc n) ix result = do
  name ← at_or_panic (get_elem? names ix)
  volume_stats_loop m names n (suc ix) (assign result name (stats_loop m 1 ix no_stats))

module _ (F : Files) where
  unfoldable pub flush_all : List (Volume F.Handle) → Outcome (List (Volume F.Handle))
  flush_all [] = ok []
  flush_all (v ∷ vs) = do v' ← flush_volume F v; rest ← flush_all vs; ok (v' ∷ rest)

  -- The flush of the metadata does nothing.
  unfoldable pub flush : Store F → Outcome (Store F)
  flush s = do volumes ← flush_all s.volumes; ok (record s { volumes = volumes })

  unfoldable pub get_stats : Store F → BlockStoreStats
  get_stats s = stats_loop s.meta (get_nvolumes s.meta) 0 no_stats

  unfoldable pub get_volume_stats : Store F → Outcome PerVolumeStats
  get_volume_stats s = volume_stats_loop s.meta s.volume_names (get_nvolumes s.meta) 0 []

  -- The size of the volume, not its write position.
  unfoldable pub get_top_address : Store F → Outcome ℕ
  get_top_address s = do
    vol ← at_or_panic (get_elem? s.volumes s.current_volume)
    ok (make_logic s.current_gen vol.file_size)
