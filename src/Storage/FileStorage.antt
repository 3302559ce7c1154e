-- ===== src/Storage/FileStorage.antt =====
-- libakumuli/storage_engine/blockstore.h, blockstore.cpp: FileStorage with its two kinds,
-- FixedSizeFileStorage and ExpandableFileStorage. The mutex that every method holds is left out, and so
-- are log messages.
pub mod Addresses
pub mod Invariant
pub mod Lookup
pub mod Fixed
pub mod Transition
pub mod Append
pub mod Open
pub mod Stats
use akumuli.Base.{
  ℕ, zero, suc, ◌+◌, ◌-◌, ◌*◌, ◌/◌, ◌%◌, ◌^◌, Bool, true, false, ◌&&◌, Option, none, some, List, [],
  ◌∷◌, ◌++◌, length, get_elem?, get_or, set, ltb, leb, ◌==◌, if◌then◌else◌, map,
}
use akumuli.Base.Words.{u32, u64}
use akumuli.Base.Outcome.{Outcome, ok, panic, undefined, ◌>>=◌}
use akumuli.Status.{Status, success, eoverflow, ebad_arg, eunavailable, is_success, is_overflow}
use akumuli.Storage.IoVecBlock.{IoVecBlock}
use akumuli.Storage.MetaVolume.{
  MetaVolume, VolumeDesc, get_nblocks, get_generation, get_capacity, get_nvolumes, set_nblocks,
  set_generation,
}
use akumuli.Storage.MetaVolume
use akumuli.Storage.Volume.{
  Files, Volume, reset, append_block, read_block, flush_volume, open_existing, create_new,
}
use native.Mathlib.Decide.{dec_lt}

-- The subclass, with the name of the database that the second one keeps.
pub data Kind : Type 0 where
  fixed_size : Kind
  expandable : List ℕ → Kind

pub record FileStorage (Handle : Type 0) : Type 0 where
  pub kind : Kind
  pub meta : MetaVolume
  pub volumes : List (Volume Handle)
  pub dirty : List ℕ
  pub current_volume : ℕ
  pub current_gen : ℕ
  pub total_size : ℕ
  pub volume_names : List (List ℕ)

unfoldable pub extract_gen : ℕ → ℕ
extract_gen addr = u32 (addr / 2 ^ 32)

-- addr & 0xFFFFFFFF
unfoldable pub extract_vol : ℕ → ℕ
extract_vol addr = u32 addr

-- The two halves of the word.
unfoldable pub make_logic : ℕ → ℕ → ℕ
make_logic gen addr = u64 (gen * 2 ^ 32) + addr

-- A status that is not AKU_SUCCESS panics.
abbrev pub or_panic {ℓ} : {A : Type ℓ} → A × Status → Outcome A
or_panic (a, status) = if is_success status then ok a else panic

-- std::vector::operator[]
abbrev pub at_or_undefined {ℓ} : {A : Type ℓ} → Option A → Outcome A
at_or_undefined none = undefined
at_or_undefined (some a) = ok a

-- std::vector::at, which throws
abbrev pub at_or_panic {ℓ} : {A : Type ℓ} → Option A → Outcome A
at_or_panic none = panic
at_or_panic (some a) = ok a

-- The decimal digits of a number, before `cs`; as many rounds as the number has digits at most.
unfoldable pub digits_of : ℕ → ℕ → List ℕ → List ℕ
digits_of zero n cs = cs
digits_of (suc fuel) n cs =
    let more = digits_of fuel (n / 10) ((b'0' + n % 10) ∷ cs) in
    if ltb n 10 then (b'0' + n) ∷ cs else more

-- std::to_string of a u32, which has ten digits at most.
unfoldable pub to_string : ℕ → List ℕ
to_string n = digits_of 10 n []

module _ (F : Files) where
  abbrev pub Store : Type 0
  Store = FileStorage F.Handle

  abbrev pub with_volume : Store → ℕ → Volume F.Handle → Store
  with_volume s ix v = record s { volumes = set s.volumes ix v }

  -- dirty_[ix]++
  abbrev pub mark_dirty : Store → ℕ → Store
  mark_dirty s ix = record s { dirty = set s.dirty ix (get_or s.dirty ix 0 + 1) }

  -- The previous volume is the one before the current, which is not open yet.
  unfoldable pub create_new_volume : List ℕ → Store → ℕ → Outcome (Volume F.Handle)
  create_new_volume db_name s id = do
    prev ← at_or_undefined (get_elem? s.volumes (s.current_volume - 1))
    let basename = db_name ++ (b'_' ∷ (to_string id ++ (b'.' ∷ b'v' ∷ b'o' ∷ b'l' ∷ [])))
    create_new F (F.sibling prev.path basename) prev.file_size

  unfoldable pub add_new_volume : List ℕ → Store → Outcome Store
  add_new_volume db_name s = do
    vol ← create_new_volume db_name s s.current_volume
    (meta, _) ← MetaVolume.add s.meta s.current_volume vol.file_size vol.path
    ok (record s {
      dirty = s.dirty ++ 0 ∷ [];
      volume_names = s.volume_names ++ vol.path ∷ [];
      total_size = s.total_size + vol.file_size;
      meta = meta;
      volumes = s.volumes ++ vol ∷ [];
    })

  unfoldable pub adjust_current_volume : Kind → Store → Outcome Store
  adjust_current_volume fixed_size s =
      ok (record s { current_volume = (s.current_volume + 1) % length s.volumes })
  adjust_current_volume (expandable db_name) s =
      let s' = record s { current_volume = u32 (s.current_volume + 1) } in
      if leb (length s.volumes) (u32 (s.current_volume + 1))
      then add_new_volume db_name s'
      else ok s'

  -- The generation is changed, and the volume's blocks are forgotten.
  unfoldable pub recycle : Store → Outcome Store
  recycle s = do
    let gen = u32 (s.current_gen + length s.volumes)
    meta ← or_panic (set_generation s.meta s.current_volume gen)
    meta' ← or_panic (set_nblocks meta s.current_volume 0)
    vol ← at_or_undefined (get_elem? s.volumes s.current_volume)
    ok (
        mark_dirty
          (with_volume (record s { current_gen = gen; meta = meta' }) s.current_volume (reset vol))
          s.current_volume)

  unfoldable pub handle_volume_transition : Store → Outcome Store
  handle_volume_transition s = do
    s' ← adjust_current_volume s.kind s
    let (status, gen) = get_generation s'.meta s'.current_volume
    current_gen ← or_panic (gen, status)
    let (status', count) = get_nblocks s'.meta s'.current_volume
    nblocks ← or_panic (count, status')
    let moved = record s' { current_gen = current_gen }
    if nblocks == 0 then ok moved else recycle moved

  -- After the block is written: `data.set_addr(block_addr)` and the metadata.
  unfoldable pub finish_append : Store → IoVecBlock → ℕ → Outcome (Store × IoVecBlock × Status × ℕ)
  finish_append s block block_addr = do
    meta ← or_panic (set_nblocks s.meta s.current_volume (u32 (block_addr + 1)))
    ok (
      mark_dirty (record s { meta = meta }) s.current_volume,
      record block { addr = block_addr },
      success,
      make_logic s.current_gen block_addr,
    )

  -- The second attempt, in the next volume.
  unfoldable pub append_next : Store → IoVecBlock → Outcome (Store × IoVecBlock × Status × ℕ)
  append_next s block = do
    s' ← handle_volume_transition s
    vol ← at_or_panic (get_elem? s'.volumes s'.current_volume)
    (vol', status, block_addr) ← append_block F vol block
    let written = with_volume s' s'.current_volume vol'
    if is_success status
        then finish_append written block block_addr
        else ok (written, block, status, 0)

  -- The first attempt, and the second if the volume is full.
  unfoldable pub append : Store → IoVecBlock → Outcome (Store × IoVecBlock × Status × ℕ)
  append s block = do
    vol ← at_or_undefined (get_elem? s.volumes s.current_volume)
    (vol', status, block_addr) ← append_block F vol block
    let written = with_volume s s.current_volume vol'
    if is_overflow status then append_next written block else finish_append written block block_addr

  -- The volume of a generation.
  abbrev pub volume_of : Store → ℕ → ℕ
  volume_of s gen = elim s.kind [ fixed_size ↦ gen % length s.volumes | expandable db_name ↦ gen ]

  unfoldable pub exists : Store → ℕ → Bool
  exists s addr =
      let (status, actual_gen) = get_generation s.meta (volume_of s (extract_gen addr)) in
      let (status', nblocks) = get_nblocks s.meta (volume_of s (extract_gen addr)) in
      is_success status
      && (is_success status' && (actual_gen == extract_gen addr && ltb (extract_vol addr) nblocks))

  -- The block is there only if it was read.
  unfoldable pub read_iovec_block : Store → ℕ → Outcome (Status × Option IoVecBlock)
  read_iovec_block s addr =
      let volix = volume_of s (extract_gen addr) in
      let (status, actual_gen) = get_generation s.meta volix in
      let (status', nblocks) = get_nblocks s.meta volix in
      let there = (do
        vol ← at_or_undefined (get_elem? s.volumes volix)
        (read_status, block) ← read_block F vol (extract_vol addr)
        ok (read_status, if is_success read_status then some block else none)) in
      if is_success status && is_success status'
      then (if actual_gen == extract_gen addr && ltb (extract_vol addr) nblocks
          then there
          else ok (eunavailable, none))
      else ok (ebad_arg, none)
