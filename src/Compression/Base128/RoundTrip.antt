-- ===== src/Compression/Base128/RoundTrip.antt =====
-- What `Base128.put` writes, `Base128.get` reads back, and how long it is.
use akumuli.Base.{
  ℕ, zero, suc, ◌+◌, ◌*◌, ◌/◌, ◌%◌, ◌^◌, ◌≤◌, ◌<◌, ◌≡◌, refl, ap, ◌∙◌, arith, bit_and, bit_or,
  Option, some, List, [], ◌∷◌, ◌++◌, length, ◌⊎◌, inl, inr, Option-cases, Bool-cases, ◌==◌,
}
use akumuli.Base.Bits.{bit_and_seven_bits, bit_and_top_bit, bit_or_fields}
use akumuli.Base.Words.{IsU64, lt_of_pow-lt}
use akumuli.Base.Outcome.{Outcome, ok}
use akumuli.Compression.Base128.{put_loop, put, get_loop, get}
use native.Mathlib.Nat.{div-add-mod, pow-suc, mul-le-mul_right}
use native.Mathlib.Numerals.{towards_suc}

shift_seven : (s : ℕ) → 2 ^ (s + 7) ≡ 128 * 2 ^ s
shift_seven s = simp towards_suc (omega arith)

-- A byte below 128 ends the number.
last_byte :
    (g acc cnt : ℕ) (rest : List ℕ)
    → g < 128
    → cnt < 64
    → acc < 2 ^ cnt
    → IsU64 (acc + g * 2 ^ cnt)
    → get_loop (g ∷ rest) acc cnt ≡ ok (some (acc + g * 2 ^ cnt, rest))
unfolding get_loop
last_byte g acc cnt rest hg hc low fits =
    ground (arith, bit_and_seven_bits g, bit_and_top_bit g, bit_or_fields cnt acc g)

-- A byte with its top bit set adds its low seven bits, and the loop goes on.
inner_byte :
    (g acc cnt : ℕ) (rest : List ℕ)
    → g < 128
    → cnt < 64
    → acc < 2 ^ cnt
    → IsU64 (acc + g * 2 ^ cnt)
    → get_loop ((g + 128) ∷ rest) acc cnt ≡ get_loop rest (acc + g * 2 ^ cnt) (cnt + 7)
unfolding get_loop
inner_byte g acc cnt rest hg hc low fits =
    ground (arith, bit_and_seven_bits (g + 128), bit_and_top_bit (g + 128), bit_or_fields cnt acc g)

marked : (g : ℕ) → g < 128 → bit_or g 0x80 ≡ g + 128
marked g h = bit_or_fields 7 g 1 h

value_splits : (v m : ℕ) → v * m ≡ v % 128 * m + v / 128 * (128 * m)
value_splits v m = omega (arith, ap (λ (t : ℕ). t * m) (div-add-mod v 128))

-- More than seven bits at position `cnt` of a 64-bit word leave a position for the eighth.
room_for_shift : (v acc cnt : ℕ) → 128 ≤ v → IsU64 (acc + v * 2 ^ cnt) → cnt + 7 < 64
room_for_shift v acc cnt large fits =
    lt_of_pow-lt (cnt + 7) 64 (omega (arith, shift_seven cnt, scaled))
  where
    scaled : 128 * 2 ^ cnt ≤ v * 2 ^ cnt
    scaled = grind arith

-- What `put` writes is one byte for a value below 128, and a marked byte before what it writes for
-- the value's other bits otherwise.
put_loop_step :
    (space v : ℕ) (bytes : List ℕ)
    → put_loop (suc space) v ≡ some bytes
    → ((v < 128) × (bytes ≡ v ∷ []))
      ⊎ ((tail : List ℕ) × (128 ≤ v)
          × (put_loop space (v / 128) ≡ some tail)
          × (bytes ≡ (v % 128 + 128) ∷ tail))
unfolding put_loop
put_loop_step space v bytes e = elim (Option-cases (put_loop space (v / 128))) [
  | inl none_left ↦ inl (ground (arith, bit_and_seven_bits v))
  | inr (tail, more) ↦ elim (Bool-cases (v / 2 ^ 7 == 0)) [
    | inl small ↦ inl (ground (arith, bit_and_seven_bits v))
    | inr large ↦
        inr (tail, ground arith, more, ground (arith, bit_and_seven_bits v, marked (v % 128)))
  ]
]

low_part : (v acc cnt : ℕ) → acc < 2 ^ cnt → acc + v % 128 * 2 ^ cnt < 2 ^ (cnt + 7)
low_part v acc cnt low = rw shift_seven (omega (arith, scaled))
  where
    scaled : v % 128 * 2 ^ cnt ≤ 127 * 2 ^ cnt
    scaled = mul-le-mul_right (2 ^ cnt) (omega arith)

get_loop-put_loop :
    (space v acc cnt : ℕ) (bytes rest : List ℕ)
    → put_loop space v ≡ some bytes
    → cnt < 64
    → acc < 2 ^ cnt
    → IsU64 (acc + v * 2 ^ cnt)
    → get_loop (bytes ++ rest) acc cnt ≡ ok (some (acc + v * 2 ^ cnt, rest))
get_loop-put_loop zero v acc cnt bytes rest e hc low fits = absurd (unfold put_loop in cc)
get_loop-put_loop (suc space) v acc cnt bytes rest e hc low fits =
    elim (put_loop_step space v bytes e) [
      | inl (small, shape) ↦ rw shape (last_byte v acc cnt rest small hc low fits)
      | inr (tail, large, more, shape) ↦
          let split = value_splits v (2 ^ cnt) in
          let seven = shift_seven cnt in
          rw (shape, inner_byte (v % 128) acc cnt (tail ++ rest) (omega arith) hc low (omega arith))
            (omega_value split seven (
              get_loop-put_loop space (v / 128) (acc + v % 128 * 2 ^ cnt) (cnt + 7) tail rest more
                (room_for_shift v acc cnt large fits) (low_part v acc cnt low)
                (rw seven (omega arith))))
    ]
  where
    omega_value :
        {r : Outcome (Option (ℕ × List ℕ))}
        → v * 2 ^ cnt ≡ v % 128 * 2 ^ cnt + v / 128 * (128 * 2 ^ cnt)
        → 2 ^ (cnt + 7) ≡ 128 * 2 ^ cnt
        → r ≡ ok (some (acc + v % 128 * 2 ^ cnt + v / 128 * 2 ^ (cnt + 7), rest))
        → r ≡ ok (some (acc + v * 2 ^ cnt, rest))
    omega_value split seven e' = e' ∙ ap (λ (t : ℕ). ok (some (t, rest))) (rw seven (omega arith))

-- What `put` writes, `get` reads back, and leaves what follows it.
pub get-put :
    (space v : ℕ) (bytes rest : List ℕ)
    → IsU64 v
    → put space v ≡ some bytes
    → get (bytes ++ rest) ≡ ok (some (v, rest))
unfolding get put
get-put space v bytes rest h e =
    get_loop-put_loop space v 0 0 bytes rest e (omega arith) (omega arith) (omega arith)
    ∙ ap (λ (t : ℕ). ok (some (t, rest))) (omega arith)

put_loop-length :
    (space v : ℕ) (bytes : List ℕ)
    → put_loop space v ≡ some bytes
    → (1 ≤ length bytes) × (length bytes ≤ space)
put_loop-length zero v bytes e = absurd (unfold put_loop in cc)
put_loop-length (suc space) v bytes e = elim (put_loop_step space v bytes e) [
  | inl (small, shape) ↦ rw shape (omega arith, omega arith)
  | inr (tail, large, more, shape) ↦
      let ih = put_loop-length space (v / 128) tail more in rw shape (omega arith, omega arith)
]

put_loop_fits :
    (k space v : ℕ)
    → v < 128 ^ suc k
    → k < space
    → (bytes : List ℕ) × (put_loop space v ≡ some bytes) × (length bytes ≤ suc k)
unfolding put_loop
put_loop_fits k zero v h lt = absurd (omega arith)
put_loop_fits zero (suc space) v h lt =
    (v % 128 ∷ [], ground (arith, bit_and_seven_bits v), omega arith)
put_loop_fits (suc k) (suc space) v h lt = elim (Bool-cases (v / 2 ^ 7 == 0)) [
  | inl small ↦ (v % 128 ∷ [], rw small (rw bit_and_seven_bits refl), omega arith)
  | inr large ↦
      let (tail, e, short) =
        put_loop_fits k space (v / 128) (omega (arith, pow-suc 128 (suc k))) (omega arith) in
      (bit_or (bit_and v 0x7f) 0x80 ∷ tail, rw (large, e) refl, omega arith)
]

-- A 64-bit value takes ten bytes at most, and `put` fails on no region of that size.
pub put_fits :
    (space v : ℕ)
    → IsU64 v
    → 10 ≤ space
    → (bytes : List ℕ) × (put space v ≡ some bytes) × (length bytes ≤ 10)
unfolding put
put_fits space v h room = put_loop_fits 9 space v (omega arith) (omega arith)

-- The bytes written lie within the region.
pub length-put :
    (space v : ℕ) (bytes : List ℕ)
    → put space v ≡ some bytes
    → (1 ≤ length bytes) × (length bytes ≤ space)
unfolding put
length-put space v bytes e = put_loop-length space v bytes e
