-- ===== src/Base/Bits.antt =====
-- The native bit operations at variables: one equation for the lowest digit of each, and what
-- follows from it at every width. `|` of disjoint fields is a sum, `&` with a low mask a remainder,
-- `^` undoes itself, and `|` is zero only of two zeros.
use Prim.Native.Nat.{
  bitwise, digits, differ, bit_xor-bitwise, bit_or-bitwise, bit_and-bitwise, bit_xor, bit_or,
  bit_and, max, min, ◌<◌, ◌≤◌, ◌^◌, ◌%◌, ◌/◌, ◌*◌, ◌-◌, ◌+◌, suc, zero, ℕ,
}
use mathlib.Core.Path.{◌≡◌, refl, ap, sym, ◌∙◌}
use native.Mathlib.Nat.{pow-suc, one-le-pow, div-add-mod, div-div-eq-div-mul}
use native.Mathlib.Omega.{arith}

-- What the fuel of `digits` is does not matter, once it covers the first number.
module _ (z : ℕ → ℕ) (f : ℕ → ℕ → ℕ) where
  digits-fuel : (n m a b : ℕ) → a ≤ n → a ≤ m → digits z f n a b ≡ digits z f m a b
  digits-fuel n m zero b p q = by_cases n m
    where
      by_cases : (n m : ℕ) → digits z f n zero b ≡ digits z f m zero b
      by_cases zero zero = refl
      by_cases zero (suc m) = refl
      by_cases (suc n) zero = refl
      by_cases (suc n) (suc m) = refl
  digits-fuel zero m (suc a) b p q = absurd (omega arith)
  digits-fuel (suc n) zero (suc a) b p q = absurd (omega arith)
  digits-fuel (suc n) (suc m) (suc a) b p q =
      rw (digits-fuel n m (suc a / 2) (b / 2) (omega arith) (omega arith))

  lowest_digit :
      (m k : ℕ)
      → bitwise z f (suc m) k ≡ bitwise z f (suc m / 2) (k / 2) * 2 + f (suc m % 2) (k % 2)
  lowest_digit m k =
      omega (arith, digits-fuel m (suc m / 2) (suc m / 2) (k / 2) (omega arith) (omega arith))

pub bit_or_digit : (a b : ℕ) → bit_or a b ≡ bit_or (a / 2) (b / 2) * 2 + max (a % 2) (b % 2)
bit_or_digit zero b = simp bit_or-bitwise (omega arith)
bit_or_digit (suc a) b = simp bit_or-bitwise (lowest_digit (λ y. y) max a b)

bit_and_digit : (a b : ℕ) → bit_and a b ≡ bit_and (a / 2) (b / 2) * 2 + min (a % 2) (b % 2)
bit_and_digit zero b = simp bit_and-bitwise (omega arith)
bit_and_digit (suc a) b = simp bit_and-bitwise (lowest_digit (λ y. 0) min a b)

pub bit_xor_digit : (a b : ℕ) → bit_xor a b ≡ bit_xor (a / 2) (b / 2) * 2 + differ (a % 2) (b % 2)
bit_xor_digit zero b = simp bit_xor-bitwise (omega arith)
bit_xor_digit (suc a) b = simp bit_xor-bitwise (lowest_digit (λ y. y) differ a b)

-- A digit is below two, and two digits differ in a digit.
differ-lt : (x y : ℕ) → x < 2 → y < 2 → differ x y < 2
differ-lt zero y p q = q
differ-lt (suc x) zero p q = p
differ-lt (suc zero) (suc y) p q = omega arith
differ-lt (suc (suc x)) (suc y) p q = absurd (omega arith)

differ_twice : (x y : ℕ) → x < 2 → y < 2 → differ x (differ y x) ≡ y
differ_twice zero zero p q = refl
differ_twice zero (suc y) p q = refl
differ_twice (suc zero) zero p q = refl
differ_twice (suc zero) (suc zero) p q = refl
differ_twice (suc zero) (suc (suc y)) p q = absurd (omega arith)
differ_twice (suc (suc x)) y p q = absurd (omega arith)

two-pow-suc : (k : ℕ) → 2 ^ suc k ≡ 2 * 2 ^ k
two-pow-suc k = omega (arith, pow-suc 2 k)

mul-two-pow-suc : (m width : ℕ) → m * 2 ^ suc width ≡ 2 * (m * 2 ^ width)
mul-two-pow-suc m width = omega (arith, ap (λ (u : ℕ). m * u) (pow-suc 2 width))

zero-bit_or : (b : ℕ) → bit_or 0 b ≡ b
zero-bit_or b = bit_or-bitwise 0 b

-- `a | (q << k)` is a sum when `a` fits `k` bits.
pub bit_or_fields : (k a q : ℕ) → a < 2 ^ k → bit_or a (q * 2 ^ k) ≡ a + q * 2 ^ k
bit_or_fields zero zero q h = omega (arith, zero-bit_or (q * 2 ^ 0))
bit_or_fields zero (suc a) q h = absurd (omega arith)
bit_or_fields (suc k) a q h = omega (
  arith,
  bit_or_digit a (q * 2 ^ suc k),
  ap (λ (t : ℕ). bit_or (a / 2) t) half,
  mul-two-pow-suc q k,
  bit_or_fields k (a / 2) q (omega (arith, two-pow-suc k)),
)
  where
    half : q * 2 ^ suc k / 2 ≡ q * 2 ^ k
    half = omega (arith, mul-two-pow-suc q k)

bit_or-eq_zero_fuel : (n a b : ℕ) → a ≤ n → bit_or a b ≡ 0 → (a ≡ 0) × (b ≡ 0)
bit_or-eq_zero_fuel n zero b h e = (refl, omega (arith, zero-bit_or b))
bit_or-eq_zero_fuel zero (suc a) b h e = absurd (omega arith)
bit_or-eq_zero_fuel (suc n) (suc a) b h e =
    let step = bit_or_digit (suc a) b in
    let rest = bit_or-eq_zero_fuel n (suc a / 2) (b / 2) (omega arith) (omega arith) in
    (omega arith, omega arith)

-- `a | b` is zero only if both are.
pub bit_or-eq_zero : (a b : ℕ) → bit_or a b ≡ 0 → (a ≡ 0) × (b ≡ 0)
bit_or-eq_zero a b = bit_or-eq_zero_fuel a a b (omega arith)

pub bit_or-lt : (k a b : ℕ) → a < 2 ^ k → b < 2 ^ k → bit_or a b < 2 ^ k
bit_or-lt zero zero zero p q = omega (arith, zero-bit_or 0)
bit_or-lt zero zero (suc b) p q = absurd (omega arith)
bit_or-lt zero (suc a) b p q = absurd (omega arith)
bit_or-lt (suc k) a b p q =
    let double = two-pow-suc k in
    let rest = bit_or-lt k (a / 2) (b / 2) (omega arith) (omega arith) in
    omega (arith, bit_or_digit a b)

pub bit_xor-lt : (k a b : ℕ) → a < 2 ^ k → b < 2 ^ k → bit_xor a b < 2 ^ k
bit_xor-lt zero zero b p q = rw (bit_xor-bitwise 0 b) q
bit_xor-lt zero (suc a) b p q = absurd (omega arith)
bit_xor-lt (suc k) a b p q =
    let double = two-pow-suc k in
    let rest = bit_xor-lt k (a / 2) (b / 2) (omega arith) (omega arith) in
    omega (arith, bit_xor_digit a b, differ-lt (a % 2) (b % 2) (omega arith) (omega arith))

bit_xor-zero_fuel : (n a : ℕ) → a ≤ n → bit_xor a 0 ≡ a
bit_xor-zero_fuel n zero h = refl
bit_xor-zero_fuel zero (suc a) h = absurd (omega arith)
bit_xor-zero_fuel (suc n) (suc a) h = omega (
  arith,
  bit_xor_digit (suc a) 0,
  bit_xor-zero_fuel n (suc a / 2) (omega arith),
  differ_zero (suc a % 2),
)
  where
    differ_zero : (x : ℕ) → differ x 0 ≡ x
    differ_zero zero = refl
    differ_zero (suc x) = refl

bit_xor_twice_fuel : (n p c : ℕ) → p ≤ n → c ≤ n → bit_xor p (bit_xor c p) ≡ c
bit_xor_twice_fuel zero zero zero h k = refl
bit_xor_twice_fuel zero zero (suc c) h k = absurd (omega arith)
bit_xor_twice_fuel zero (suc p) c h k = absurd (omega arith)
bit_xor_twice_fuel (suc n) p c h k = omega (
  arith,
  bit_xor_digit p (bit_xor c p),
  ap (λ (t : ℕ). bit_xor (p / 2) t) half,
  ap (λ (t : ℕ). differ (p % 2) t) parity,
  bit_xor_twice_fuel n (p / 2) (c / 2) (omega arith) (omega arith),
  differ_twice (p % 2) (c % 2) (omega arith) (omega arith),
)
  where
    digit : differ (c % 2) (p % 2) < 2
    digit = differ-lt (c % 2) (p % 2) (omega arith) (omega arith)

    half : bit_xor c p / 2 ≡ bit_xor (c / 2) (p / 2)
    half = omega (arith, bit_xor_digit c p, digit)

    parity : bit_xor c p % 2 ≡ differ (c % 2) (p % 2)
    parity = omega (arith, bit_xor_digit c p, digit)

-- `p ^ (c ^ p)` is `c`.
pub bit_xor_twice : (p c : ℕ) → bit_xor p (bit_xor c p) ≡ c
bit_xor_twice p c = bit_xor_twice_fuel (p + c) p c (omega arith) (omega arith)

-- A mask of `k` low bits is the remainder by `2 ^ k`.
bit_and-zero_fuel : (fuel m : ℕ) → m ≤ fuel → bit_and m 0 ≡ 0
bit_and-zero_fuel fuel zero below = refl
bit_and-zero_fuel zero (suc m) below = absurd (omega arith)
bit_and-zero_fuel (suc fuel) (suc m) below =
    omega (arith, bit_and_digit (suc m) 0, bit_and-zero_fuel fuel (suc m / 2) (omega arith))

pub bit_and-zero : (a : ℕ) → bit_and a 0 ≡ 0
bit_and-zero a = bit_and-zero_fuel a a (omega arith)

bit_and-double : (a m : ℕ) → bit_and a (2 * m) ≡ 2 * bit_and (a / 2) m
bit_and-double a m = omega (arith, bit_and_digit a (2 * m), ap (λ (t : ℕ). bit_and (a / 2) t) half)
  where
    half : 2 * m / 2 ≡ m
    half = omega arith

bit_and-one : (a : ℕ) → bit_and a 1 ≡ a % 2
bit_and-one a = omega (arith, bit_and_digit a 1, bit_and-zero (a / 2))

-- The top bit of a byte, as its eighth digit.
-- One bit of a number.
bit_and_bit : (k a : ℕ) → bit_and a (2 ^ k) ≡ a / 2 ^ k % 2 * 2 ^ k
bit_and_bit zero a = omega (arith, bit_and-one a)
bit_and_bit (suc k) a = rw two-pow-suc (
    bit_and-double a (2 ^ k)
    ∙ ap (λ (t : ℕ). 2 * t) (bit_and_bit k (a / 2))
    ∙ rw (sym (div-div-eq-div-mul a 2 (2 ^ k))) (omega arith))

pub bit_and_top_bit : (a : ℕ) → a < 256 → bit_and a 0x80 ≡ a / 128 * 128
bit_and_top_bit a h = bit_and_bit 7 a ∙ omega arith

mod_double : (a m : ℕ) → a % (2 * m) ≡ a / 2 % m * 2 + a % 2
mod_double a m = omega (
  arith,
  div-add-mod a (2 * m),
  div-add-mod (a / 2) m,
  ap (λ (t : ℕ). m * t) (div-div-eq-div-mul a 2 m),
)

-- A mask of `k` low bits is the remainder by `2 ^ k`.
pub bit_and_mask : (k a : ℕ) → bit_and a (2 ^ k - 1) ≡ a % 2 ^ k
bit_and_mask zero a = omega (arith, bit_and-zero a)
bit_and_mask (suc k) a = omega (
  arith,
  bit_and_digit a (2 ^ suc k - 1),
  ap (λ (t : ℕ). bit_and (a / 2) t) half,
  two-pow-suc k,
  one-le-pow k 2,
  bit_and_mask k (a / 2),
  mod_digit,
)
  where
    half : (2 ^ suc k - 1) / 2 ≡ 2 ^ k - 1
    half = omega (arith, two-pow-suc k, one-le-pow k 2)

    mod_digit : a % 2 ^ suc k ≡ a / 2 % 2 ^ k * 2 + a % 2
    mod_digit = rw two-pow-suc (mod_double a (2 ^ k))

pub bit_and_seven_bits : (a : ℕ) → bit_and a 0x7f ≡ a % 128
bit_and_seven_bits a = bit_and_mask 7 a

pub bit_and_four_bits : (a : ℕ) → bit_and a 0xf ≡ a % 16
bit_and_four_bits a = bit_and_mask 4 a

pub bit_and_three_bits : (a : ℕ) → bit_and a 7 ≡ a % 8
bit_and_three_bits a = bit_and_mask 3 a

bit_and-le_fuel : (n a b : ℕ) → b ≤ n → bit_and a b ≤ b
bit_and-le_fuel zero a zero h = omega (arith, bit_and-zero a)
bit_and-le_fuel zero a (suc b) h = absurd (omega arith)
bit_and-le_fuel (suc n) a b h =
    omega (arith, bit_and_digit a b, bit_and-le_fuel n (a / 2) (b / 2) (omega arith))

pub bit_and-le_right : (a b : ℕ) → bit_and a b ≤ b
bit_and-le_right a b = bit_and-le_fuel b a b (omega arith)

bit_or-comm_fuel : (n a b : ℕ) → a ≤ n → b ≤ n → bit_or a b ≡ bit_or b a
bit_or-comm_fuel zero zero zero p q = refl
bit_or-comm_fuel zero zero (suc b) p q = absurd (omega arith)
bit_or-comm_fuel zero (suc a) b p q = absurd (omega arith)
bit_or-comm_fuel (suc n) a b p q = omega (
  arith,
  bit_or_digit a b,
  bit_or_digit b a,
  bit_or-comm_fuel n (a / 2) (b / 2) (omega arith) (omega arith),
)

pub bit_or_comm : (a b : ℕ) → bit_or a b ≡ bit_or b a
bit_or_comm a b = bit_or-comm_fuel (a + b) a b (omega arith) (omega arith)
