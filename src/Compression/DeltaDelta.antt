-- ===== src/Compression/DeltaDelta.antt =====
-- libakumuli/storage_engine/compression.h: DeltaDeltaStreamWriter and DeltaDeltaStreamReader at
-- Step = 16, TVal = u64. The byte stream is shared with other codecs by reference: it is passed in,
-- and returned, beside the codec's own fields.
pub mod RoundTrip
use akumuli.Base.{
  ℕ, zero, suc, ◌+◌, ◌%◌, min, Bool, true, false, List, [], ◌∷◌, map, get_or, ◌==◌, if◌then◌else◌,
}
use akumuli.Base.Words.{u64, sub64}
use akumuli.Base.Outcome.{Outcome, ok, ◌>>=◌}
use akumuli.Compression.VByte.Writer
use akumuli.Compression.VByte.Writer.{VByteWriter}
use akumuli.Compression.VByte.Reader
use akumuli.Compression.VByte.Reader.{VByteReader}

pub record DeltaWriter : Type 0 where
  pub prev : ℕ
  pub put_calls : ℕ

unfoldable pub init_writer : DeltaWriter
init_writer = record { prev = 0; put_calls = 0 }

-- The loop over the input: `prev_`, the smallest difference so far, and the differences.
unfoldable pub delta_loop : ℕ → ℕ → List ℕ → ℕ × ℕ × List ℕ
delta_loop prev least [] = (prev, least, [])
delta_loop prev least (value ∷ values) =
    let result = sub64 value prev in
    let (prev', least', outbuf) = delta_loop value (min result least) values in
    (prev', least', result ∷ outbuf)

-- The code reads `iter[0]`, which it has: `n` is 16.
unfoldable pub tput : DeltaWriter → VByteWriter → List ℕ → DeltaWriter × VByteWriter × Bool
tput d w values =
    let (prev', least, outbuf) = delta_loop d.prev (sub64 (get_or values 0 0) d.prev) values in
    let d' = record d { prev = prev' } in
    let (w', done) = Writer.put_base128 w least in
    let (w'', done') = Writer.tput w' (map (λ r. sub64 r least) outbuf) in
    if done then (d', w'', done') else (d', w', false)

-- The first call writes zero for the smallest difference.
unfoldable pub put_first : DeltaWriter → VByteWriter → VByteWriter × Bool
put_first d w = if d.put_calls == 0 then Writer.put_base128 w 0 else (w, true)

unfoldable pub put : DeltaWriter → VByteWriter → ℕ → DeltaWriter × VByteWriter × Bool
put d w value =
    let (w', started) = put_first d w in
    let (w'', done) = Writer.put w' (sub64 value d.prev) in
    if started
    then (record { prev = value; put_calls = d.put_calls + 1 }, w'', done)
    else (d, w', false)

pub record DeltaReader : Type 0 where
  pub prev : ℕ
  pub least : ℕ
  pub counter : ℕ

unfoldable pub init_reader : DeltaReader
init_reader = record { prev = 0; least = 0; counter = 0 }

unfoldable pub read_least : DeltaReader → VByteReader → Outcome (ℕ × VByteReader)
read_least d r = if d.counter % 16 == 0 then Reader.next_base128 r else ok (d.least, r)

unfoldable pub next : DeltaReader → VByteReader → Outcome (ℕ × DeltaReader × VByteReader)
next d r = do
  (least, r') ← read_least d r
  (delta, r'') ← Reader.next r'
  let value = u64 (u64 (d.prev + delta) + least)
  ok (value, record { prev = value; least = least; counter = d.counter + 1 }, r'')
