-- ===== src/Storage/MemStore.antt =====
-- libakumuli/storage_engine/blockstore.h, blockstore.cpp: MemStore, the block store in memory. The two
-- callbacks are outside code: which of them were called, with what address, is part of the state.
pub mod Blocks
use akumuli.Base.{
  ℕ, zero, suc, ◌+◌, ◌-◌, ◌*◌, ◌/◌, ◌%◌, ◌^◌, Bool, true, false, ◌&&◌, Option, none, some, List, [],
  ◌∷◌, ◌++◌, length, take, drop, replicate, ltb, leb, ◌==◌, if◌then◌else◌,
}
use akumuli.Base.Words.{u32, u64, sub64}
use akumuli.Base.Outcome.{Outcome, ok, undefined}
use akumuli.Status.{Status, success, ebad_arg, eunavailable}
use akumuli.Storage.IoVecBlock.{IoVecBlock, block_size, replace, init_whole}
use akumuli.Storage.Volume.{iov}

pub data Call : Type 0 where
  append_callback : ℕ → Call
  read_callback : ℕ → Call

pub record MemStore : Type 0 where
  pub buffer : List ℕ
  pub has_append_callback : Bool
  pub has_read_callback : Bool
  pub write_pos : ℕ
  pub removed_pos : ℕ
  pub calls : List Call

abbrev pub memstore_base : ℕ
memstore_base = 619

-- The three constructors, by the callbacks that they get.
unfoldable pub create_memstore : Bool → Bool → MemStore
create_memstore has_append has_read = record {
  buffer = [];
  has_append_callback = has_append;
  has_read_callback = has_read;
  write_pos = 0;
  removed_pos = 0;
  calls = [];
}

-- std::vector::resize
abbrev pub resize_to : List ℕ → ℕ → List ℕ
resize_to xs n = take n xs ++ replicate (n - length xs) 0

-- The count of blocks is compared with the buffer's size in bytes.
unfoldable pub remove : MemStore → ℕ → MemStore × ℕ
remove s n =
    let s' = record s { removed_pos = u32 n } in
    (
      if ltb (length s.buffer) (u32 n)
          then record s' {
            buffer = resize_to s.buffer (u32 (u32 n * block_size));
            write_pos = u32 n;
          }
          else s',
      u64 (n + memstore_base),
    )

abbrev pub log_call : Bool → Call → MemStore → MemStore
log_call present call s = if present then record s { calls = s.calls ++ call ∷ [] } else s

-- The offset is the low half of the product, and so is the end: a copy from behind the buffer's end is
-- undefined.
unfoldable pub read_iovec_block : MemStore → ℕ → Outcome (MemStore × Status × Option IoVecBlock)
read_iovec_block s logic_addr =
    let addr = sub64 logic_addr memstore_base in
    let offset = u32 (block_size * addr) in
    if ltb (length s.buffer) (u32 (offset + block_size))
    then ok (s, ebad_arg, none)
    else if ltb addr s.removed_pos
    then ok (s, eunavailable, none)
    else if ltb (length s.buffer) (offset + block_size)
    then undefined
    else ok (
      log_call s.has_read_callback (read_callback addr) s,
      success,
      some (replace init_whole 0 (take block_size (drop offset s.buffer))),
    )

unfoldable pub append_block : MemStore → IoVecBlock → MemStore × IoVecBlock × Status × ℕ
append_block s data_block =
    let grown = record s {
      buffer =
          s.buffer
          ++ (iov data_block 0 ++ (iov data_block 1 ++ (iov data_block 2 ++ iov data_block 3)));
    } in
    let told =
      log_call s.has_append_callback (append_callback (s.write_pos + memstore_base)) grown in
    let addr = u32 (s.write_pos + memstore_base) in
    (
      record told { write_pos = u32 (s.write_pos + 1) },
      record data_block { addr = addr },
      success,
      addr,
    )

unfoldable pub exists : MemStore → ℕ → Bool
exists s logic_addr =
    let addr = sub64 logic_addr memstore_base in leb s.removed_pos addr && ltb addr s.write_pos

-- The block size, the capacity and the number of blocks.
pub record BlockStoreStats : Type 0 where
  pub stats_block_size : ℕ
  pub capacity : ℕ
  pub nblocks : ℕ

unfoldable pub get_stats : MemStore → BlockStoreStats
get_stats s = record { stats_block_size = 4096; capacity = 1024 * 4096; nblocks = s.write_pos }

-- The position before.
unfoldable pub reset_write_pos : MemStore → ℕ → MemStore × ℕ
reset_write_pos s pos = (record s { write_pos = pos }, s.write_pos)

unfoldable pub get_top_address : MemStore → ℕ
get_top_address s = memstore_base + s.write_pos
