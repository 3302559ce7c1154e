-- ===== src/Storage/Checksum.antt =====
-- libakumuli/storage_engine/blockstore.cpp: FileStorage::checksum and MemStore::checksum of a block, which
-- are the same loop. The function that continues a CRC32C over bytes is another library's.
pub mod Slices
use akumuli.Base.{
  ℕ, zero, suc, ◌+◌, ◌-◌, ◌*◌, ◌≤◌, ◌<◌, ◌≡◌, refl, ap, sym, ◌∙◌, arith, min, Bool, true, false,
  ◌||◌, List, [], ◌∷◌, ◌++◌, length, take, drop, ltb, ◌==◌, if◌then◌else◌,
}
use akumuli.Storage.IoVecBlock.{IoVecBlock}

module _ (impl : ℕ → List ℕ → ℕ) where
  -- From one component to the next.
  unfoldable pub checksum_loop : List (List ℕ) → ℕ → ℕ → ℕ → ℕ
  checksum_loop [] crc32 offset size = crc32
  checksum_loop (c ∷ cs) crc32 offset size =
      let sz = min (length c - offset) size in
      let rest = checksum_loop cs (impl crc32 (take sz (drop offset c))) 0 (size - sz) in
      if ltb (length c) offset || (length c == 0 || size == 0) then crc32 else rest

  unfoldable pub checksum : IoVecBlock → ℕ → ℕ → ℕ
  checksum block offset size = checksum_loop block.components 0 offset size

  -- checksum(u8 const*, size_t)
  unfoldable pub checksum_bytes : List ℕ → ℕ
  checksum_bytes bytes = impl 0 bytes
