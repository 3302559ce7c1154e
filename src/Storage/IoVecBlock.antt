-- ===== src/Storage/IoVecBlock.antt =====
-- libakumuli/storage_engine/volume.h, volume.cpp: IOVecBlock, a block in memory that grows by components.
-- A pointer into the block is the offset that it stands for. `pos_` is an `int` that every write keeps
-- within AKU_BLOCK_SIZE.
pub mod Chunks
pub mod View
pub mod Bytes
pub mod Gets
pub mod Appends
pub mod Reads
pub mod Pods
use akumuli.Base.{
  ℕ, zero, suc, ◌+◌, ◌-◌, ◌*◌, ◌/◌, ◌%◌, ◌^◌, Bool, true, false, ◌||◌, Option, none, some, List, [],
  ◌∷◌, ◌++◌, length, get_or, set, take, drop, replicate, splice, ltb, leb, ◌==◌, if◌then◌else◌,
}
use akumuli.Base.Words.{u32, from_bytes}
use akumuli.Base.Outcome.{Outcome, ok, panic, undefined, ◌>>=◌}

abbrev pub block_size : ℕ
block_size = 4096

abbrev pub n_components : ℕ
n_components = 4

abbrev pub component_size : ℕ
component_size = 1024

-- The largest LogicAddr.
abbrev pub empty_addr : ℕ
empty_addr = 0xffff_ffff_ffff_ffff

pub record IoVecBlock : Type 0 where
  pub components : List (List ℕ)
  pub pos : ℕ
  pub addr : ℕ

-- data_[c]
abbrev pub component : IoVecBlock → ℕ → List ℕ
component b c = get_or b.components c []

abbrev pub replace : IoVecBlock → ℕ → List ℕ → IoVecBlock
replace b c bytes = record b { components = set b.components c bytes }

-- A vector's resize: the bytes that it gains are zero.
unfoldable pub resize : ℕ → List ℕ → List ℕ
resize n bytes = take n bytes ++ replicate (n - length bytes) 0

unfoldable pub init : IoVecBlock
init = record { components = replicate n_components []; pos = 0; addr = empty_addr }

-- IOVecBlock(bool): one component of the block's size.
unfoldable pub init_whole : IoVecBlock
init_whole = record {
  components = resize block_size [] ∷ [] ∷ [] ∷ [] ∷ [];
  pos = block_size;
  addr = empty_addr;
}

-- data_[0].size() == AKU_BLOCK_SIZE
abbrev pub is_whole : IoVecBlock → Bool
is_whole b = length (component b 0) == block_size

-- for (int i = 0; i < NCOMPONENTS; i++), with the rounds that are left; `none` stands for -1.
unfoldable pub add_loop : ℕ → ℕ → IoVecBlock → IoVecBlock × Option ℕ
add_loop zero i b = (b, none)
add_loop (suc n) i b =
    let rest = add_loop n (i + 1) b in
    if length (component b i) == 0
    then (replace b i (resize component_size (component b i)), some i)
    else rest

unfoldable pub add : IoVecBlock → IoVecBlock × Option ℕ
add b = add_loop n_components 0 b

abbrev pub space_left : IoVecBlock → ℕ
space_left b = block_size - b.pos

-- pos_ - offset, which is computed in 32 bits.
unfoldable pub bytes_to_read : IoVecBlock → ℕ → ℕ
bytes_to_read b offset = u32 (b.pos + 2 ^ 32 - offset)

-- if (data_[c].empty()) { data_[c].resize(COMPONENT_SIZE); }
unfoldable pub with_component : IoVecBlock → ℕ → IoVecBlock
with_component b c =
    if length (component b c) == 0 then replace b c (resize component_size (component b c)) else b

-- data_[c][i] = val; pos_++;
unfoldable pub put_at : IoVecBlock → ℕ → ℕ → ℕ → IoVecBlock
put_at b c i val =
    let b' = with_component b c in
    record b' { components = set b'.components c (set (component b' c) i val); pos = b.pos + 1 }

-- There is no component behind the last.
unfoldable pub put : IoVecBlock → ℕ → Outcome IoVecBlock
put b val =
    if ltb (b.pos / component_size) n_components
    then ok (put_at b (b.pos / component_size) (b.pos % component_size) val)
    else undefined

unfoldable pub safe_put : IoVecBlock → ℕ → IoVecBlock × Bool
safe_put b val =
    if leb n_components (b.pos / component_size)
    then (b, false)
    else (put_at b (b.pos / component_size) (b.pos % component_size) val, true)

-- `none` stands for nullptr.
unfoldable pub allocate : ℕ → IoVecBlock → IoVecBlock × Option ℕ
allocate size b =
    let c = b.pos / component_size in
    let b' = with_component b c in
    if leb n_components c
    then (b, none)
    else if ltb (length (component b' c) - b.pos % component_size) size
    then (b', none)
    else (record b' { pos = b.pos + size }, some b.pos)

unfoldable pub get : IoVecBlock → ℕ → Outcome ℕ
get b offset =
    let c = if is_whole b then 0 else offset / component_size in
    let i = if is_whole b then offset else offset % component_size in
    if leb n_components c || leb (length (component b c)) i
    then panic
    else ok (get_or (component b c) i 0)

-- for (u32 i = 0; i < sz; i++) { raw.bits[i] = get(offset + i); }
unfoldable pub get_bits : IoVecBlock → ℕ → ℕ → Outcome (List ℕ)
get_bits b zero offset = ok []
get_bits b (suc n) offset = do
  bits ← get b offset
  rest ← get_bits b n (u32 (offset + 1))
  ok (bits ∷ rest)

-- Of an unsigned integer of `n` bytes.
unfoldable pub get_raw : IoVecBlock → ℕ → ℕ → Outcome ℕ
get_raw b n offset = do bits ← get_bits b n offset; ok (from_bytes bits)

-- put(const POD&), of the bytes of the value.
unfoldable pub put_bytes : List ℕ → IoVecBlock → Outcome IoVecBlock
put_bytes [] b = ok b
put_bytes (x ∷ xs) b = do b' ← put b x; put_bytes xs b'

unfoldable pub set_addr : IoVecBlock → ℕ → IoVecBlock
set_addr b addr = record b { addr = addr }

unfoldable pub set_write_pos : IoVecBlock → ℕ → Outcome IoVecBlock
set_write_pos b pos =
    if leb n_components (pos / component_size) then panic else ok (record b { pos = pos })

-- The loop of `copy_from` over one chunk: `cons` is where the next component starts.
unfoldable pub copy_chunk : ℕ → ℕ → ℕ → List ℕ → IoVecBlock → IoVecBlock
copy_chunk zero i cons whole b = b
copy_chunk (suc n) i cons whole b = copy_chunk n (i + 1) (cons + component_size) whole (
    replace b i
      (splice (resize component_size (component b i)) 0 (take component_size (drop cons whole))))

-- The loop over components, which ends at the first that is empty.
unfoldable pub copy_components : ℕ → ℕ → IoVecBlock → IoVecBlock → IoVecBlock
copy_components zero i other b = b
copy_components (suc n) i other b =
    let rest = copy_components n (i + 1) other (
      replace b i (
        splice (resize component_size (component b i)) 0
          (take component_size (component other i)))) in
    if length (component other i) == 0 then b else rest

-- `pos_` and `addr_` stay as they are.
unfoldable pub copy_from : IoVecBlock → IoVecBlock → IoVecBlock
copy_from b other =
    if is_whole other
    then copy_chunk n_components 0 0 (component other 0) b
    else copy_components n_components 0 other b
