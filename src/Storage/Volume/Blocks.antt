-- ===== src/Storage/Volume/Blocks.antt =====
-- The blocks of a volume, on a disk without errors.
use akumuli.Base.{
  ℕ, ◌+◌, ◌*◌, ◌^◌, ◌≤◌, ◌<◌, ◌≡◌, ◌≢◌, inl, inr, refl, ap, sym, ◌∙◌, arith, Option, some, List,
  length,
}
use akumuli.Base.Outcome.{ok}
use akumuli.Status.{success, eoverflow}
use akumuli.Storage.IoVecBlock.{IoVecBlock}
use akumuli.Storage.IoVecBlock.View.{IsSplit}
use akumuli.Storage.Volume.Bytes.{length-block_bytes, IsImage, block_bytes-IsImage}
use akumuli.Storage.Volume.{
  Files, IsReliable, Volume, block_bytes, offset_of, append_block, append_bytes,
}
use native.Mathlib.Decide.{dec_lt}

module _ (F : Files) where
  -- A volume whose file has the size that it says, and whose offsets fit their 32 bits.
  pub record IsVolume (v : Volume F.Handle) : Type 0 where
    pub size_eq : F.size v.file ≡ v.file_size * 4096
    pub few : v.file_size ≤ 2 ^ 20
    pub not_empty : 0 < v.file_size
    pub within : v.write_pos ≤ v.file_size

  -- What the file holds in the place of block `ix`.
  abbrev pub block_at : Volume F.Handle → ℕ → Option (List ℕ)
  block_at v ix = F.read v.file (offset_of ix) 4096

  -- `v'` is `v` with one more block.
  pub record OneMore (v : Volume F.Handle) (bytes : List ℕ) (v' : Volume F.Handle) : Type 0 where
    pub volume : IsVolume v'
    pub write_pos_eq : v'.write_pos ≡ v.write_pos + 1
    pub size_kept : v'.file_size ≡ v.file_size
    pub last : block_at v' v.write_pos ≡ some bytes
    pub others : (ix : ℕ) → ix < 2 ^ 20 → ix ≢ v.write_pos → block_at v' ix ≡ block_at v ix

  -- On a disk without errors, a block of components that is appended to a volume with room, of 2^20
  -- blocks at most, is written in the place of the write position, which moves by one; the blocks in the
  -- other places stay. What is written is 4096 bytes, at each offset the block's byte and zeros for
  -- components that are not there, so that the block's contents come first.
  pub append_block-OneMore :
      (v : Volume F.Handle) (b : IoVecBlock)
      → IsReliable F
      → IsVolume v
      → IsSplit b
      → v.write_pos < v.file_size
      → (v' : Volume F.Handle) × (append_block F v b ≡ ok (v', success, v.write_pos))
        × OneMore v (block_bytes b) v'
        × IsImage b (block_bytes b)
  unfolding append_block append_bytes
  append_block-OneMore v b R w split room =
      let bytes = block_bytes b in
      let len = length-block_bytes b split in
      let (file, wrote, same_size) =
        R.write_some v.file (offset_of v.write_pos) bytes (omega (arith, len, w.size_eq, w.few)) in
      let v' = record v { file = file; write_pos = v.write_pos + 1 } in
      (
        v',
        rw (wrote) (ground (arith, w.few)),
        record {
          volume = record {
            size_eq = same_size ∙ w.size_eq;
            few = w.few;
            not_empty = w.not_empty;
            within = omega arith;
          };
          write_pos_eq = refl;
          size_kept = refl;
          last =
              ap (λ (n : ℕ). F.read file (offset_of v.write_pos) n) (sym len)
              ∙ R.read-write v.file file (offset_of v.write_pos) bytes wrote;
          others = λ ix small other.
              R.read-write_ne v.file file (offset_of v.write_pos) bytes (offset_of ix) 4096 wrote
                (elim (dec_lt ix v.write_pos) [
                  | yes before ↦ inl (omega (arith, w.few))
                  | no behind ↦ inr (omega (arith, w.few, len, after ix v.write_pos other behind))
                ]);
        },
        block_bytes-IsImage b split,
      )
    where
      after : (i j : ℕ) → i ≢ j → ¬ (i < j) → j < i
      after i j ne ge = grind arith

  pub append_block_full :
      (v : Volume F.Handle) (b : IoVecBlock)
      → v.file_size ≤ v.write_pos
      → append_block F v b ≡ ok (v, eoverflow, 0)
  unfolding append_block append_bytes
  append_block_full v b h = ground arith

  -- The offset of a block is a 32-bit product: in a volume of more than 2^20 blocks, on a disk without
  -- errors, the block that is appended at 2^20 + k, for k below 2^20, is written in the place of the
  -- block k.
  pub append_block-wraps :
      (v : Volume F.Handle) (b : IoVecBlock) (k : ℕ)
      → IsReliable F
      → IsSplit b
      → F.size v.file ≡ v.file_size * 4096
      → v.file_size < 2 ^ 32
      → v.write_pos < v.file_size
      → v.write_pos ≡ 2 ^ 20 + k
      → k < 2 ^ 20
      → (v' : Volume F.Handle) × (append_block F v b ≡ ok (v', success, v.write_pos))
        × (block_at v' k ≡ some (block_bytes b))
  unfolding append_block append_bytes
  append_block-wraps v b k R split size_eq fits room at small =
      let bytes = block_bytes b in
      let len = length-block_bytes b split in
      let same : offset_of v.write_pos ≡ offset_of k = omega (arith, at, small) in
      let (file, wrote, same_size) =
        R.write_some v.file (offset_of v.write_pos) bytes
          (omega (arith, len, size_eq, room, at, small)) in
      let v' = record v { file = file; write_pos = v.write_pos + 1 } in
      (
        v',
        rw (wrote) (ground (arith, fits)),
        ap (λ (n : ℕ). F.read file (offset_of k) n) (sym len)
            ∙ ap (λ (at : ℕ). F.read file at (length bytes)) (sym same)
            ∙ R.read-write v.file file (offset_of v.write_pos) bytes wrote,
      )
