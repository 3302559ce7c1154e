-- ===== src/Compression/Base128.antt =====
-- libakumuli/storage_engine/compression.h: Base128Int at TVal = u64, over a memory region. Seven bits
-- a byte, lowest first; the top bit of a byte says that another follows.
pub mod RoundTrip
use akumuli.Base.{
  ℕ, zero, suc, ◌+◌, ◌*◌, ◌/◌, ◌%◌, ◌^◌, bit_and, bit_or, Bool, Option, none, some, List, [], ◌∷◌,
  ltb, ◌==◌, if◌then◌else◌,
}
use akumuli.Base.Words.{u64}
use akumuli.Base.Outcome.{Outcome, ok, undefined}
use mathlib.Core.Option

-- The loop of `put`; the first number is `end - p`. `none` stands for the answer `begin`, which
-- reports that the region is too small, and `some` holds the bytes from `begin` to the answer.
unfoldable pub put_loop : ℕ → ℕ → Option (List ℕ)
put_loop zero value = none
put_loop (suc space) value =
    let group = bit_and value 0x7f in
    let rest = put_loop space (value / 2 ^ 7) in
    if value / 2 ^ 7 == 0 then some (group ∷ []) else Option.map (◌∷◌ (bit_or group 0x80)) rest

unfoldable pub put : ℕ → ℕ → Option (List ℕ)
unfolding put_loop
put space value = put_loop space value

-- The loop of `get`. A shift by 64 or more is undefined.
get_loop : List ℕ → ℕ → ℕ → Outcome (Option (ℕ × List ℕ))
get_loop [] acc cnt = ok none
get_loop (b ∷ bs) acc cnt =
    let i = bit_and b 0x7f in
    let acc' = bit_or acc (u64 (i * 2 ^ cnt)) in
    let more = get_loop bs acc' (cnt + 7) in
    if ltb cnt 64 then (if bit_and b 0x80 == 0 then ok (some (acc', bs)) else more) else undefined

-- `none` stands for the answer `begin`: the region ends inside the number. Otherwise the result is
-- the value and the bytes that follow it.
pub get : List ℕ → Outcome (Option (ℕ × List ℕ))
unfolding get_loop
get bytes = get_loop bytes 0 0
