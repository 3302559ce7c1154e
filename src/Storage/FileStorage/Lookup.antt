-- ===== src/Storage/FileStorage/Lookup.antt =====
-- What `exists` and `read_iovec_block` find in a fixed-size store.
use akumuli.Base.{
  ℕ, ◌%◌, ◌<◌, ◌≡◌, refl, sym, ◌∙◌, arith, true, false, ◌&&◌, Option, none, some, List, length,
  get_elem?, ltb, leb, ◌==◌, if◌then◌else◌, eq→==, lt→ltb,
}
use akumuli.Base.Outcome.{Outcome, ok, ◌>>=◌}
use akumuli.Status.{Status, success, is_success}
use akumuli.Storage.IoVecBlock.{IoVecBlock, replace, init_whole}
use akumuli.Storage.MetaVolume.{VolumeRef, get_nblocks, get_generation}
use akumuli.Storage.Volume.{Files, Volume, read_block, read_bytes}
use akumuli.Storage.Volume.Blocks.{block_at}
use akumuli.Storage.FileStorage.{
  Store, fixed_size, exists, read_iovec_block, extract_gen, extract_vol,
}

leb-false : (ix n : ℕ) → ix < n → leb n ix ≡ false
leb-false ix n h = ground arith

module _ (F : Files) where
  -- The index of the volume of an address.
  abbrev pub volix : Store F → ℕ → ℕ
  volix s addr = extract_gen addr % length s.volumes

  -- A block that is read, if its status is a success.
  unfoldable pub fetch : Volume F.Handle → ℕ → Outcome (Status × Option IoVecBlock)
  fetch v ix = do
    (status, block) ← read_block F v ix
    ok (status, if is_success status then some block else none)

  pub exists-there :
      (s : Store F) (addr : ℕ) (r : VolumeRef)
      → s.kind ≡ fixed_size
      → get_elem? s.meta.refs (volix s addr) ≡ some r
      → exists F s addr ≡ (r.generation == extract_gen addr && ltb (extract_vol addr) r.nblocks)
  unfolding exists get_nblocks get_generation is_success
  exists-there s addr r k h = rw (k, h) refl

  pub read-there :
      (s : Store F) (addr : ℕ) (r : VolumeRef) (v : Volume F.Handle)
      → s.kind ≡ fixed_size
      → get_elem? s.meta.refs (volix s addr) ≡ some r
      → get_elem? s.volumes (volix s addr) ≡ some v
      → r.generation ≡ extract_gen addr
      → extract_vol addr < r.nblocks
      → read_iovec_block F s addr ≡ fetch v (extract_vol addr)
  unfolding read_iovec_block get_nblocks get_generation fetch is_success
  read-there s addr r v k h hv g lt =
      rw
        (
          k,
          h,
          hv,
          g,
          eq→== (extract_gen addr) (extract_gen addr) refl,
          lt→ltb (extract_vol addr) r.nblocks lt,
        )
        refl

  pub exists-found :
      (s : Store F) (addr : ℕ) (r : VolumeRef)
      → s.kind ≡ fixed_size
      → get_elem? s.meta.refs (volix s addr) ≡ some r
      → exists F s addr ≡ true
      → (r.generation ≡ extract_gen addr) × (extract_vol addr < r.nblocks)
  exists-found s addr r k h e =
      let both = sym (exists-there s addr r k h) ∙ e in (ground (arith, both), ground (arith, both))

  pub exists-of :
      (s : Store F) (addr : ℕ) (r : VolumeRef)
      → s.kind ≡ fixed_size
      → get_elem? s.meta.refs (volix s addr) ≡ some r
      → r.generation ≡ extract_gen addr
      → extract_vol addr < r.nblocks
      → exists F s addr ≡ true
  exists-of s addr r k h g lt =
      exists-there s addr r k h
      ∙ rw
          (
            g,
            eq→== (extract_gen addr) (extract_gen addr) refl,
            lt→ltb (extract_vol addr) r.nblocks lt,
          )
          refl

  pub fetch_eq :
      (v v' : Volume F.Handle) (ix : ℕ)
      → ix < v.write_pos
      → ix < v'.write_pos
      → block_at F v' ix ≡ block_at F v ix
      → fetch v' ix ≡ fetch v ix
  unfolding fetch read_block read_bytes is_success
  fetch_eq v v' ix h h' e = rw (leb-false ix v.write_pos h, leb-false ix v'.write_pos h', e) refl

  pub fetch-some :
      (v : Volume F.Handle) (ix : ℕ) (bytes : List ℕ)
      → ix < v.write_pos
      → block_at F v ix ≡ some bytes
      → fetch v ix ≡ ok (success, some (replace init_whole 0 bytes))
  unfolding fetch read_block read_bytes is_success
  fetch-some v ix bytes h e = rw (leb-false ix v.write_pos h, e) refl
