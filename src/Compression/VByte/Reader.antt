-- ===== src/Compression/VByte/Reader.antt =====
-- libakumuli/storage_engine/compression.h: VByteStreamReader. Reading past the end panics.
use akumuli.Base.{
  ℕ, zero, suc, ◌+◌, ◌-◌, ◌*◌, ◌/◌, ◌%◌, ◌^◌, bit_and, bit_or, not, ◌&&◌, none, some, List, [], ◌∷◌,
  length, take, drop, ltb, ◌==◌, if◌then◌else◌,
}
use akumuli.Base.Words.{u32, u64, from_bytes}
use akumuli.Base.Outcome.{Outcome, ok, panic, undefined, ◌>>=◌}
use akumuli.Compression.Base128

pub record VByteReader : Type 0 where
  pub rest : List ℕ
  pub cnt : ℕ
  pub ctrl : ℕ
  pub scut_elements : ℕ

abbrev pub chunk_size : ℕ
chunk_size = 16

unfoldable pub init : List ℕ → VByteReader
init bytes = record { rest = bytes; cnt = 0; ctrl = 0; scut_elements = 0 }

abbrev pub space_left : VByteReader → ℕ
space_left r = length r.rest

-- Uncompressed, of `n` bytes.
unfoldable pub read_raw : ℕ → VByteReader → Outcome (ℕ × VByteReader)
read_raw n r =
    if ltb (space_left r) n
    then panic
    else ok (from_bytes (take n r.rest), record r { rest = drop n r.rest })

-- for (int i = 0; i < bytelen*8; i += 8) { acc |= (byte << i); pos_++; }
unfoldable pub acc_bytes : ℕ → ℕ → ℕ → List ℕ → Outcome (ℕ × List ℕ)
acc_bytes zero i acc bs = ok (acc, bs)
acc_bytes (suc n) i acc [] = undefined
acc_bytes (suc n) i acc (b ∷ bs) =
    let more = acc_bytes n (i + 8) (bit_or acc (u64 (b * 2 ^ i))) bs in
    if ltb i 64 then more else undefined

unfoldable pub read_value : ℕ → VByteReader → Outcome (ℕ × VByteReader)
read_value bytelen r =
    if ltb (space_left r) bytelen
    then panic
    else (do (acc, rest) ← acc_bytes bytelen 0 0 r.rest; ok (acc, record r { rest = rest }))

-- A control byte with 0xF in its upper half stands for sixteen zeros.
unfoldable pub read_ctrl : VByteReader → Outcome (ℕ × VByteReader)
read_ctrl r = do
  (ctrl, r') ← read_raw 1 r
  if ctrl / 2 ^ 4 == 0xF
      then ok (0, record r' { ctrl = ctrl; scut_elements = chunk_size - 1 })
      else read_value (bit_and ctrl 0xF) (record r' { ctrl = ctrl })

unfoldable pub next : VByteReader → Outcome (ℕ × VByteReader)
next r =
    let counted = record r { cnt = u32 (r.cnt + 1) } in
    if r.ctrl == 0xFF && not (r.scut_elements == 0)
    then ok (0, record counted { scut_elements = r.scut_elements - 1 })
    else if r.cnt % 2 == 0
    then read_ctrl counted
    else read_value (r.ctrl / 2 ^ 4) counted

unfoldable pub next_base128 : VByteReader → Outcome (ℕ × VByteReader)
next_base128 r = do
  value ← Base128.get r.rest
  elim value [ none ↦ panic | some (v, rest) ↦ ok (v, record r { rest = rest }) ]
