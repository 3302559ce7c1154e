-- ===== src/Compression/Fcm/Reader.antt =====
-- libakumuli/storage_engine/compression.h: FcmStreamReader.
use akumuli.Base.{
  ℕ, zero, suc, ◌+◌, ◌-◌, ◌*◌, ◌/◌, ◌%◌, ◌^◌, bit_and, bit_or, bit_xor, ◌&&◌, ◌==◌, if◌then◌else◌,
}
use akumuli.Base.Words.{u32, u64}
use akumuli.Base.Outcome.{Outcome, ok, ◌>>=◌}
use akumuli.Compression.Predictor.{DfcmPredictor, predict_next, update, predictor_n}
use akumuli.Compression.Predictor
use akumuli.Compression.VByte.Reader.{VByteReader, read_raw}

pub record FcmReader : Type 0 where
  pub predictor : DfcmPredictor
  pub flags : ℕ
  pub iter : ℕ
  pub nzeroes : ℕ

unfoldable pub init : FcmReader
init = record { predictor = Predictor.init predictor_n; flags = 0; iter = 0; nzeroes = 0 }

-- The loop runs at most eight times, so the shift stays below 64.
unfoldable pub decode_loop : ℕ → ℕ → ℕ → VByteReader → Outcome (ℕ × VByteReader)
decode_loop zero i diff r = ok (diff, r)
decode_loop (suc n) i diff r = do
  (delta, r') ← read_raw 1 r
  decode_loop n (i + 1) (bit_or diff (u64 (delta * 2 ^ (i * 8)))) r'

unfoldable pub decode_value : ℕ → VByteReader → Outcome (ℕ × VByteReader)
decode_value flag r = do
  let nbytes = bit_and flag 7 + 1
  (diff, r') ← decode_loop nbytes 0 0 r
  let shift_width = (64 - nbytes * 8) * (flag / 2 ^ 3)
  ok (u64 (diff * 2 ^ shift_width), r')

-- The flag of the next value; a byte of flags is read for each pair, unless in a run of zeros.
unfoldable pub next_flag : FcmReader → VByteReader → Outcome (ℕ × FcmReader × VByteReader)
next_flag f r =
    let f' = record f { iter = u32 (f.iter + 1) } in
    if f.iter % 2 == 0 && f.nzeroes == 0
    then (do
      (flags, r') ← read_raw 1 r
      let nzeroes = if flags == 0xFF then 16 else f.nzeroes
      ok (flags / 2 ^ 4, record f' { flags = flags; nzeroes = nzeroes }, r'))
    else ok (bit_and f.flags 0xF, f', r)

unfoldable pub next_diff : ℕ → FcmReader → VByteReader → Outcome (ℕ × FcmReader × VByteReader)
next_diff flag f r =
    if f.nzeroes == 0
    then (do (diff, r') ← decode_value flag r; ok (diff, f, r'))
    else ok (0, record f { nzeroes = f.nzeroes - 1 }, r)

unfoldable pub next : FcmReader → VByteReader → Outcome (ℕ × FcmReader × VByteReader)
next f r = do
  (flag, f', r') ← next_flag f r
  (diff, f'', r'') ← next_diff flag f' r'
  let bits = bit_xor (predict_next f''.predictor) diff
  ok (bits, record f'' { predictor = update f''.predictor bits }, r'')
