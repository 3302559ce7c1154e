-- ===== src/Base/Places.antt =====
-- Bytes at their places in a 64-bit word.
use Prim.Native.Nat.{ℕ, ◌+◌, ◌*◌, ◌/◌, ◌%◌, ◌^◌, ◌≤◌, ◌<◌, bit_or}
use mathlib.Core.Path.{◌≡◌, ap, ◌∙◌}
use native.Mathlib.Nat.{mul-le-mul_right, div-add-mod}
use native.Mathlib.Numerals.{towards_suc}
use native.Mathlib.Omega.{arith}
use akumuli.Base.Bits.{bit_or_fields}
use akumuli.Base.Words.{u64, pow_mono}

shift_eight : (i : ℕ) → 2 ^ (i + 8) ≡ 256 * 2 ^ i
shift_eight i = simp towards_suc (omega arith)

scaled : (g i : ℕ) → g < 256 → g * 2 ^ i ≤ 255 * 2 ^ i
scaled g i h = mul-le-mul_right (2 ^ i) (omega arith)

-- A byte joins the bits below it.
pub join_byte :
    (acc g i : ℕ)
    → g < 256
    → i + 8 ≤ 64
    → acc < 2 ^ i
    → (bit_or acc (u64 (g * 2 ^ i)) ≡ acc + g * 2 ^ i) × (acc + g * 2 ^ i < 2 ^ (i + 8))
join_byte acc g i hg hi low = (ap (bit_or acc) inside ∙ bit_or_fields i acc g low, bound)
  where
    bound : acc + g * 2 ^ i < 2 ^ (i + 8)
    bound = omega (arith, shift_eight i, scaled g i hg)

    inside : u64 (g * 2 ^ i) ≡ g * 2 ^ i
    inside = omega (arith, bound, pow_mono (i + 8) 64 hi)

-- The lowest byte and the others, each at its place.
pub split_byte : (acc v i : ℕ) → acc + v % 256 * 2 ^ i + v / 256 * 2 ^ (i + 8) ≡ acc + v * 2 ^ i
split_byte acc v i = rw shift_eight (omega (arith, ap (λ (t : ℕ). t * 2 ^ i) (div-add-mod v 256)))
