-- ===== src/Storage/Volume.antt =====
-- libakumuli/storage_engine/volume.h, volume.cpp: Volume. The file is APR's: an unknown handle with the
-- operations that the class calls, `none` for a status that is an error. `mmap_ptr_` is always null, as
-- the code that would set it is switched off.
pub mod Blocks
pub mod Bytes
use akumuli.Base.{
  ℕ, zero, suc, ◌+◌, ◌-◌, ◌*◌, ◌/◌, ◌%◌, ◌^◌, ◌≤◌, ◌≡◌, ◌⊎◌, Option, none, some, List, [], ◌∷◌,
  ◌++◌, length, take, replicate, ltb, leb, ◌==◌, if◌then◌else◌,
}
use akumuli.Base.Words.{u32}
use akumuli.Base.Outcome.{Outcome, ok, panic, ◌>>=◌}
use akumuli.Status.{Status, success, eoverflow, ebad_arg, ebad_data, eunavailable}
use akumuli.Storage.IoVecBlock.{
  IoVecBlock, block_size, component_size, component, replace, init_whole,
}

-- A write or a read goes to a position, which is a seek before it. `sibling p name` is the path of the
-- file `name` in the folder of the file `p`.
pub record Files : Type 1 where
  pub Handle : Type 0
  pub write : Handle → ℕ → List ℕ → Option Handle
  pub read : Handle → ℕ → ℕ → Option (List ℕ)
  pub flush : Handle → Option Handle
  pub size : Handle → ℕ
  pub create : List ℕ → ℕ → Option Handle
  pub open_file : List ℕ → Option Handle
  pub sibling : List ℕ → List ℕ → List ℕ

-- A disk without errors: what is written within a file can be read, and changes nothing else in it.
pub record IsReliable (F : Files) : Type 0 where
  pub write_some :
      (h : F.Handle) (at : ℕ) (bytes : List ℕ)
      → at + length bytes ≤ F.size h
      → (h' : F.Handle) × (F.write h at bytes ≡ some h') × (F.size h' ≡ F.size h)
  pub read_some :
      (h : F.Handle) (at n : ℕ)
      → at + n ≤ F.size h
      → (bytes : List ℕ) × (F.read h at n ≡ some bytes)
  pub read-write :
      (h h' : F.Handle) (at : ℕ) (bytes : List ℕ)
      → F.write h at bytes ≡ some h'
      → F.read h' at (length bytes) ≡ some bytes
  pub read-write_ne :
      (h h' : F.Handle) (at : ℕ) (bytes : List ℕ) (at' n : ℕ)
      → F.write h at bytes ≡ some h'
      → (at' + n ≤ at) ⊎ (at + length bytes ≤ at')
      → F.read h' at' n ≡ F.read h at' n

pub record Volume (Handle : Type 0) : Type 0 where
  pub file : Handle
  pub file_size : ℕ
  pub write_pos : ℕ
  pub path : List ℕ

-- panic_on_error
abbrev pub expect_some {ℓ} : {A : Type ℓ} → Option A → Outcome A
expect_some none = panic
expect_some (some a) = ok a

unfoldable pub reset : {H : Type 0} → Volume H → Volume H
reset v = record v { write_pos = 0 }

-- What is written for component `i`: a component that is not there is padding.
unfoldable pub iov : IoVecBlock → ℕ → List ℕ
iov b i =
    if length (component b i) == 0
    then replicate component_size 0
    else take component_size (component b i)

unfoldable pub block_bytes : IoVecBlock → List ℕ
block_bytes b = iov b 0 ++ (iov b 1 ++ (iov b 2 ++ iov b 3))

-- The product of two 32-bit numbers, from which the offset is made.
abbrev pub offset_of : ℕ → ℕ
offset_of ix = u32 (ix * block_size)

module _ (F : Files) where
  -- Volume::Volume and open_existing
  unfoldable pub open_existing : List ℕ → ℕ → Outcome (Volume F.Handle)
  open_existing path pos = do
    file ← expect_some (F.open_file path)
    ok (record {
      file = file;
      file_size = u32 (F.size file / block_size);
      write_pos = u32 pos;
      path = path;
    })

  -- A file of the volume's size, which is opened at once.
  unfoldable pub create_new : List ℕ → ℕ → Outcome (Volume F.Handle)
  create_new path capacity = do
    created ← expect_some (F.create path (capacity * block_size))
    ok (record {
      file = created;
      file_size = u32 (F.size created / block_size);
      write_pos = 0;
      path = path;
    })

  unfoldable pub append_bytes : Volume F.Handle → List ℕ → Outcome (Volume F.Handle × Status × ℕ)
  append_bytes v source = if leb v.file_size v.write_pos then ok (v, eoverflow, 0) else (do
    file ← expect_some (F.write v.file (offset_of v.write_pos) source)
    ok (record v { file = file; write_pos = u32 (v.write_pos + 1) }, success, v.write_pos))

  unfoldable pub append_block :
      Volume F.Handle → IoVecBlock → Outcome (Volume F.Handle × Status × ℕ)
  append_block v source = append_bytes v (block_bytes source)

  -- read_block(u32, u8*): the status, and the bytes in `dest`.
  unfoldable pub read_bytes : Volume F.Handle → ℕ → Outcome (Status × Option (List ℕ))
  read_bytes v ix = if leb v.write_pos ix then ok (ebad_arg, none) else (do
    bytes ← expect_some (F.read v.file (offset_of ix) block_size)
    ok (success, some bytes))

  -- read_block(u32)
  unfoldable pub read_block : Volume F.Handle → ℕ → Outcome (Status × IoVecBlock)
  read_block v ix = do
    (status, dest) ← read_bytes v ix
    ok (status, elim dest [ none ↦ init_whole | some bytes ↦ replace init_whole 0 bytes ])

  -- There is no memory map.
  unfoldable pub read_block_zero_copy : Volume F.Handle → ℕ → Status
  read_block_zero_copy v ix = if leb v.write_pos ix then ebad_arg else eunavailable

  unfoldable pub flush_volume : Volume F.Handle → Outcome (Volume F.Handle)
  flush_volume v = do file ← expect_some (F.flush v.file); ok (record v { file = file })
