-- ===== src/Compression/VByte/Writer.antt =====
-- libakumuli/storage_engine/compression.h: VByteStreamWriter. An operation returns the new stream and
-- its answer; on `false` the stream may have changed where the code leaves it so.
use akumuli.Base.{
  ℕ, zero, suc, ◌+◌, ◌-◌, ◌*◌, ◌/◌, ◌%◌, ◌^◌, bit_or, Bool, true, false, Option, none, some, List,
  [], ◌∷◌, ◌++◌, length, take, ltb, ◌==◌, if◌then◌else◌,
}
use akumuli.Base.Words.{u8, u32, to_bytes, clz64}
use akumuli.Compression.Base128

pub record VByteWriter : Type 0 where
  -- end_ - begin_
  pub cap : ℕ
  pub out : List ℕ
  -- tail elements
  pub cnt : ℕ
  pub prev : ℕ

unfoldable pub init : ℕ → VByteWriter
init size = record { cap = size; out = []; cnt = 0; prev = 0 }

abbrev pub size : VByteWriter → ℕ
size w = length w.out

abbrev pub space_left : VByteWriter → ℕ
space_left w = w.cap - length w.out

abbrev pub is_empty : VByteWriter → Bool
is_empty w = w.cap == 0

abbrev pub append : VByteWriter → List ℕ → VByteWriter
append w bytes = record w { out = w.out ++ bytes }

-- if (!f(stream)) { return false; } and on with `g`.
unfoldable pub and_then :
    (VByteWriter → VByteWriter × Bool)
    → (VByteWriter → VByteWriter × Bool)
    → VByteWriter
    → VByteWriter × Bool
and_then f g w = let (w', done) = f w in if done then g w' else (w', false)

-- for (int i = 0; i < ctrl; i++) { *pos_++ = static_cast<u8>(v); v >>= 8; }
unfoldable pub write_bytes : VByteWriter → ℕ → ℕ → VByteWriter
write_bytes w zero v = w
write_bytes w (suc ctrl) v = write_bytes (append w (u8 v ∷ [])) ctrl (v / 2 ^ 8)

-- The number of bytes that `v` needs, from its leading zeros.
unfoldable pub ctrl_of : ℕ → ℕ
ctrl_of v = let len = if v == 0 then 64 else clz64 v in 8 - len / 8

unfoldable pub encode : VByteWriter → ℕ → ℕ → VByteWriter × Bool
encode w fst snd =
    let fstctrl = ctrl_of fst in
    let sndctrl = ctrl_of snd in
    let ctrlword = u8 (bit_or fstctrl (sndctrl * 2 ^ 4)) in
    if ltb (space_left w) (1 + fstctrl + sndctrl)
    then (w, false)
    else (write_bytes (write_bytes (append w (ctrlword ∷ [])) fstctrl fst) sndctrl snd, true)

unfoldable pub put_base128 : VByteWriter → ℕ → VByteWriter × Bool
put_base128 w v = elim (Base128.put (space_left w) v) [
  | none ↦ (w, false)
  | some bytes ↦ (append w bytes, true)
]

unfoldable pub shortcut : VByteWriter → VByteWriter × Bool
shortcut w = if space_left w == 0 then (w, false) else (append w (0xFF ∷ []), true)

unfoldable pub all_zero : List ℕ → Bool
all_zero [] = true
all_zero (x ∷ xs) = let rest = all_zero xs in if x == 0 then rest else false

-- for (u32 i = 0; i < n; i += 2) encode(iter[i], iter[i + 1]), up to the first failure.
unfoldable pub encode_pairs : VByteWriter → List ℕ → VByteWriter × Bool
encode_pairs w [] = (w, true)
encode_pairs w (x ∷ []) = (w, true)
encode_pairs w (x ∷ y ∷ xs) =
    let (w', done) = encode w x y in elim done [ true ↦ encode_pairs w' xs | false ↦ (w', false) ]

-- A failure restores the old `pos_`.
unfoldable pub tput : VByteWriter → List ℕ → VByteWriter × Bool
tput w xs =
    let (w', done) = encode_pairs w xs in
    if all_zero xs
    then shortcut w
    else if done
    then (w', true)
    else (record w' { out = take (length w.out) w'.out }, false)

unfoldable pub put : VByteWriter → ℕ → VByteWriter × Bool
put w value =
    let cnt = u32 (w.cnt + 1) in
    let w' = record w { cnt = cnt } in
    if cnt % 2 == 0 then encode w' w.prev value else (record w' { prev = value }, true)

-- `n` is sizeof(TVal).
unfoldable pub put_raw : ℕ → VByteWriter → ℕ → VByteWriter × Bool
put_raw n w value = if ltb (space_left w) n then (w, false) else (append w (to_bytes n value), true)

-- `prev_` is shifted out as its bytes are written.
unfoldable pub commit : VByteWriter → VByteWriter × Bool
commit w =
    let ctrl = ctrl_of w.prev in
    if w.cnt % 2 == 1
    then (if ltb (space_left w) (1 + ctrl) then (w, false) else (
      record (write_bytes (append w (u8 ctrl ∷ [])) ctrl w.prev) { prev = w.prev / 2 ^ (8 * ctrl) },
      true,
    ))
    else (w, true)

-- Space for `n` bytes that are not written yet: `old` is what the memory from `pos_` on holds. The
-- answer is the offset of the space, and `none` for nullptr.
unfoldable pub allocate : ℕ → List ℕ → VByteWriter → VByteWriter × Option ℕ
allocate n old w =
    if ltb (space_left w) n then (w, none) else (append w (take n old), some (length w.out))
