-- ===== src/Storage/MetaVolume.antt =====
-- libakumuli/volumeregistry.h, and MetaVolume of libakumuli/storage_engine/volume.h, volume.cpp. A block
-- of `double_write_buffer_` is the VolumeRef that the code reads in it, and `file_size_` is the number of
-- these blocks. The registry, which the class only calls, is the list of the calls that it got. A path is
-- the list of its characters.
use akumuli.Base.{
  ℕ, ◌+◌, ◌-◌, Bool, false, ◌||◌, Option, none, some, List, [], ◌∷◌, ◌++◌, length, get_elem?, set,
  replicate, ltb, leb, ◌==◌, if◌then◌else◌,
}
use mathlib.Core.Option
use akumuli.Base.Outcome.{Outcome, ok, panic, undefined, ◌>>=◌}
use akumuli.Status.{Status, success, ebad_arg}
use akumuli.Compression.DataBlock.Writer.{akumuli_version}
use akumuli.Storage.IoVecBlock.{block_size}

pub record VolumeDesc : Type 0 where
  pub id : ℕ
  pub path : List ℕ
  pub version : ℕ
  pub nblocks : ℕ
  pub capacity : ℕ
  pub generation : ℕ

pub data RegistryCall : Type 0 where
  add_volume update_volume : VolumeDesc → RegistryCall

pub record VolumeRef : Type 0 where
  pub version : ℕ
  pub id : ℕ
  pub nblocks : ℕ
  pub capacity : ℕ
  pub generation : ℕ
  pub path : List ℕ

-- sizeof(VolumeRef); the path stands behind it.
abbrev pub volume_ref_size : ℕ
volume_ref_size = 20

pub record MetaVolume : Type 0 where
  pub registry : List RegistryCall
  pub refs : List VolumeRef

-- What a fresh buffer holds.
abbrev pub blank_ref : VolumeRef
blank_ref = record { version = 0; id = 0; nblocks = 0; capacity = 0; generation = 0; path = [] }

-- A path that does not end within its block is written over what is behind.
unfoldable pub volcpy : VolumeDesc → Outcome VolumeRef
volcpy desc =
    if ltb (volume_ref_size + length desc.path) block_size
    then ok (record {
      version = desc.version;
      id = desc.id;
      nblocks = desc.nblocks;
      capacity = desc.capacity;
      generation = desc.generation;
      path = desc.path;
    })
    else undefined

-- init_list.count(id) != 0
unfoldable pub contains : ℕ → List ℕ → Bool
contains id [] = false
contains id (x ∷ ids) = id == x || contains id ids

-- for (const auto& vol: volumes), with `init_list`.
unfoldable pub init_loop : List VolumeDesc → List ℕ → List VolumeRef → Outcome (List VolumeRef)
init_loop [] init_list refs = ok refs
init_loop (vol ∷ volumes) init_list refs =
    let rest = (do
      ref ← volcpy vol
      init_loop volumes (vol.id ∷ init_list) (set refs vol.id ref)) in
    if contains vol.id init_list
    then panic
    else if leb (length refs) vol.id
    then undefined
    else rest

unfoldable pub init : List VolumeDesc → Outcome MetaVolume
init volumes = do
  refs ← init_loop volumes [] (replicate (length volumes) blank_ref)
  ok (record { registry = []; refs = refs })

abbrev pub get_nvolumes : MetaVolume → ℕ
get_nvolumes m = length m.refs

-- The answer where there is no volume of this id.
abbrev pub or_bad : Option ℕ → Status × ℕ
or_bad none = (ebad_arg, 0)
or_bad (some x) = (success, x)

unfoldable pub get_nblocks : MetaVolume → ℕ → Status × ℕ
get_nblocks m id = or_bad (Option.map (λ (r : VolumeRef). r.nblocks) (get_elem? m.refs id))

unfoldable pub get_capacity : MetaVolume → ℕ → Status × ℕ
get_capacity m id = or_bad (Option.map (λ (r : VolumeRef). r.capacity) (get_elem? m.refs id))

unfoldable pub get_generation : MetaVolume → ℕ → Status × ℕ
get_generation m id = or_bad (Option.map (λ (r : VolumeRef). r.generation) (get_elem? m.refs id))

-- std::string::assign(const char*)
unfoldable pub c_str : List ℕ → List ℕ
c_str [] = []
c_str (c ∷ cs) = if c == 0 then [] else c ∷ c_str cs

unfoldable pub describe : VolumeRef → VolumeDesc
describe r = record {
  id = r.id;
  path = c_str r.path;
  version = r.version;
  nblocks = r.nblocks;
  capacity = r.capacity;
  generation = r.generation;
}

-- The volume's record becomes `r`, and the registry is told.
unfoldable pub store_ref : MetaVolume → ℕ → VolumeRef → MetaVolume
store_ref m id r = record m {
  registry = m.registry ++ update_volume (describe r) ∷ [];
  refs = set m.refs id r;
}

unfoldable pub add_volume_ref : MetaVolume → ℕ → ℕ → List ℕ → MetaVolume
add_volume_ref m id capacity path =
    let r : VolumeRef = record {
      version = akumuli_version;
      id = id;
      nblocks = 0;
      capacity = capacity;
      generation = id;
      path = path;
    } in
    record m {
      registry =
          m.registry
          ++ add_volume (record {
            id = id;
            path = path;
            version = akumuli_version;
            nblocks = 0;
            capacity = capacity;
            generation = id;
          })
            ∷ [];
      refs = m.refs ++ r ∷ [];
    }

-- A path of the greatest length that is accepted has its last byte behind the buffer.
unfoldable pub add : MetaVolume → ℕ → ℕ → List ℕ → Outcome (MetaVolume × Status)
add m id capacity path =
    if ltb (block_size - volume_ref_size) (length path)
    then ok (m, ebad_arg)
    else if length path == block_size - volume_ref_size
    then undefined
    else ok (add_volume_ref m id capacity path, success)

unfoldable pub change :
    MetaVolume → ℕ → (VolumeRef → VolumeRef) → Option VolumeRef → MetaVolume × Status
change m id f none = (m, ebad_arg)
change m id f (some r) = (store_ref m id (f r), success)

unfoldable pub update : MetaVolume → ℕ → ℕ → ℕ → ℕ → MetaVolume × Status
update m id nblocks capacity gen =
    change m id
      (λ r. record r {
        nblocks = nblocks;
        capacity = capacity;
        generation = gen;
        version = akumuli_version;
      })
      (get_elem? m.refs id)

unfoldable pub set_nblocks : MetaVolume → ℕ → ℕ → MetaVolume × Status
set_nblocks m id nblocks = change m id (λ r. record r { nblocks = nblocks }) (get_elem? m.refs id)

unfoldable pub set_capacity : MetaVolume → ℕ → ℕ → MetaVolume × Status
set_capacity m id cap = change m id (λ r. record r { capacity = cap }) (get_elem? m.refs id)

unfoldable pub set_generation : MetaVolume → ℕ → ℕ → MetaVolume × Status
set_generation m id gen = change m id (λ r. record r { generation = gen }) (get_elem? m.refs id)
