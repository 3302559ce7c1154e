-- ===== src/Storage/IoVecBlock/Chunks.antt =====
-- libakumuli/storage_engine/volume.cpp: IOVecBlock::read_chunk, append_chunk and set_write_pos_and_shrink.
use akumuli.Base.{
  ℕ, zero, suc, ◌+◌, ◌-◌, ◌/◌, ◌%◌, ◌||◌, Option, none, some, List, [], ◌++◌, length, take, drop,
  splice, ltb, leb, ◌==◌, if◌then◌else◌,
}
use akumuli.Base.Words.{u32}
use akumuli.Base.Outcome.{Outcome, ok, panic, undefined, ◌>>=◌}
use akumuli.Storage.IoVecBlock.{
  IoVecBlock, block_size, n_components, component_size, component, replace, resize, is_whole, add,
  set_write_pos,
}

-- memcpy(dest, data_[c].data() + offset, size)
unfoldable pub read_at : IoVecBlock → ℕ → ℕ → ℕ → Outcome (List ℕ)
read_at b c offset size =
    if ltb c n_components
    then (if ltb (length (component b c)) (offset + size)
        then undefined
        else ok (take size (drop offset (component b c))))
    else undefined

-- The bytes of both components; the answer is zero where one of them is not there.
unfoldable pub read_two : IoVecBlock → ℕ → ℕ → ℕ → ℕ → Outcome (ℕ × List ℕ)
read_two b ixbegin ixend offbegin size = do
  let l1 = component_size - offbegin
  first ← read_at b ixbegin offbegin l1
  second ←
      if ltb ixend n_components
      then (if length (component b ixend) == 0 then ok [] else read_at b ixend 0 (size - l1))
      else undefined
  ok (if length (component b ixend) == 0 then 0 else size, first ++ second)

-- The answer, and what has been written to `dest`.
unfoldable pub read_chunk : IoVecBlock → ℕ → ℕ → Outcome (ℕ × List ℕ)
read_chunk b offset size =
    let ixbegin = offset / component_size in
    let offbegin = offset % component_size in
    let ixend = u32 (offset + size) / component_size in
    if is_whole b
    then (do bytes ← read_at b 0 offset size; ok (size, bytes))
    else if leb n_components ixbegin
    then undefined
    else if length (component b ixbegin) == 0
    then ok (0, [])
    else if ixbegin == ixend
    then (do bytes ← read_at b ixbegin offbegin size; ok (size, bytes))
    else read_two b ixbegin ixend offbegin size

-- memcpy(data_[c].data() + offset, source, size)
unfoldable pub write_at : IoVecBlock → ℕ → ℕ → List ℕ → Outcome IoVecBlock
write_at b c offset source =
    if ltb (length (component b c)) (offset + length source)
    then undefined
    else ok (replace b c (splice (component b c) offset source))

-- if (ixadd != c) { AKU_PANIC(…); }
unfoldable pub expect : ℕ → IoVecBlock × Option ℕ → Outcome IoVecBlock
expect c (b, none) = panic
expect c (b, some i) = if i == c then ok b else panic

-- A component that is not there is added; AKU_PANIC if it is not the one that is wanted.
unfoldable pub add_at : IoVecBlock → ℕ → Outcome IoVecBlock
add_at b c = if length (component b c) == 0 then expect c (add b) else ok b

unfoldable pub append_two : IoVecBlock → ℕ → ℕ → ℕ → List ℕ → Outcome IoVecBlock
append_two b ixbegin ixend offbegin source = do
  let l1 = component_size - offbegin
  b₁ ← add_at b ixbegin
  b₂ ← write_at b₁ ixbegin offbegin (take l1 source)
  b₃ ← add_at b₂ ixend
  write_at b₃ ixend 0 (drop l1 source)

-- pos_ += size; return pos_;
unfoldable pub advance : ℕ → IoVecBlock → Outcome (IoVecBlock × ℕ)
advance size b = ok (record b { pos = b.pos + size }, b.pos + size)

-- `size` is the length of the source. `is_readonly` is never true.
unfoldable pub append_chunk : IoVecBlock → List ℕ → Outcome (IoVecBlock × ℕ)
append_chunk b source =
    let size = length source in
    let ixbegin = b.pos / component_size in
    let offbegin = b.pos % component_size in
    let ixend = (b.pos + size) / component_size in
    if is_whole b
    then (if ltb block_size (b.pos + size)
        then ok (b, 0)
        else write_at b 0 b.pos source >>= advance size)
    else if leb n_components ixbegin || leb n_components ixend
    then ok (b, 0)
    else if ixbegin == ixend
    then (do
      b' ← add_at b ixbegin
      written ← write_at b' ixbegin offbegin source
      advance size written)
    else append_two b ixbegin ixend offbegin source >>= advance size

-- for (int ix = NCOMPONENTS; ix --> 0;), with `ix` as it is tested.
unfoldable pub shrink_loop : ℕ → ℕ → IoVecBlock → IoVecBlock
shrink_loop zero c b = b
shrink_loop (suc ix) c b =
    shrink_loop ix c (if ltb c ix then replace b ix (resize 0 (component b ix)) else b)

unfoldable pub set_write_pos_and_shrink : IoVecBlock → ℕ → Outcome IoVecBlock
set_write_pos_and_shrink b top = do
  b' ← set_write_pos b top
  ok (if is_whole b' then b' else shrink_loop n_components (b'.pos / component_size) b')
