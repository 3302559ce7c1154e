-- ===== src/Base/Words.antt =====
-- Machine words as native numbers, their little-endian bytes, and the compiler's builtins that count
-- leading and trailing zero bits.
use Prim.Native.Nat.{ℕ, zero, suc, ◌+◌, ◌-◌, ◌*◌, ◌/◌, ◌%◌, ◌^◌, ◌≤◌, ◌<◌}
use mathlib.Core.Path.{◌≡◌, refl, ap, subst, ◌∙◌}
use mathlib.Core.Bool.{Bool, true, false}
use mathlib.Core.Logic.{inl, inr}
use mathlib.Core.List.{List, [], ◌∷◌}
use native.Mathlib.Nat.{pow-suc, one-le-pow, div-div-eq-div-mul}
use native.Mathlib.Numerals.{towards_suc}
use native.Mathlib.Omega.{arith}
use native.Mathlib.Decide.{dec_lt}
use akumuli.Base.Tests.{ltb, ◌==◌, if◌then◌else◌, Bool-cases, ==→eq, ltb→lt}
use akumuli.Base.Lists.{length, All}

abbrev pub u8 : ℕ → ℕ
u8 v = v % 2 ^ 8

abbrev pub u16 : ℕ → ℕ
u16 v = v % 2 ^ 16

abbrev pub u32 : ℕ → ℕ
u32 v = v % 2 ^ 32

abbrev pub u64 : ℕ → ℕ
u64 v = v % 2 ^ 64

-- Subtraction of unsigned 64-bit words, which wraps.
abbrev pub sub64 : ℕ → ℕ → ℕ
sub64 a b = (a + 2 ^ 64 - b) % 2 ^ 64

abbrev pub IsU64 : ℕ → Type 0
IsU64 v = v < 2 ^ 64

-- The memory image of an unsigned integer of `n` bytes on a little-endian host.
unfoldable pub to_bytes : ℕ → ℕ → List ℕ
to_bytes zero v = []
to_bytes (suc n) v = v % 256 ∷ to_bytes n (v / 256)

unfoldable pub from_bytes : List ℕ → ℕ
from_bytes [] = 0
from_bytes (b ∷ bs) = b + 256 * from_bytes bs

pub length-to_bytes : (n v : ℕ) → length (to_bytes n v) ≡ n
unfolding to_bytes
length-to_bytes zero v = refl
length-to_bytes (suc n) v = ap suc (length-to_bytes n (v / 256))

pub from_bytes-to_bytes : (n v : ℕ) → v < 256 ^ n → from_bytes (to_bytes n v) ≡ v
unfolding to_bytes from_bytes
from_bytes-to_bytes zero v h = omega arith
from_bytes-to_bytes (suc n) v h =
    let wide = pow-suc 256 n in omega (arith, from_bytes-to_bytes n (v / 256) (omega arith))

-- Leading zeros of a `k`-bit word; `__builtin_clzll` is at 64 bits, for a word that is not zero.
clz : ℕ → ℕ → ℕ
clz zero x = 0
clz (suc k) x = if ltb x (2 ^ k) then suc (clz k x) else 0

unfoldable pub clz64 : ℕ → ℕ
unfolding clz
clz64 x = clz 64 x

-- Trailing zeros, at most `k`; `__builtin_ctzll` is at 64 bits, for a word that is not zero.
ctz : ℕ → ℕ → ℕ
ctz zero x = 0
ctz (suc k) x = if x % 2 == 0 then suc (ctz k (x / 2)) else 0

unfoldable pub ctz64 : ℕ → ℕ
unfolding ctz
ctz64 x = ctz 64 x

clz-le : (k x : ℕ) → clz k x ≤ k
unfolding clz
clz-le zero x = omega arith
clz-le (suc k) x = ground (arith, clz-le k x)

lt-pow-clz : (k x : ℕ) → x < 2 ^ k → x < 2 ^ (k - clz k x)
unfolding clz
lt-pow-clz zero x h = h
lt-pow-clz (suc k) x h = ground (arith, lt-pow-clz k x)

clz-lt : (k x : ℕ) → 0 < x → x < 2 ^ k → clz k x < k
unfolding clz
clz-lt zero x p h = absurd (omega arith)
clz-lt (suc k) x p h = ground (arith, clz-lt k x p)

pub pow_mono : (m n : ℕ) → m ≤ n → 2 ^ m ≤ 2 ^ n
pow_mono zero zero h = omega arith
pow_mono zero (suc n) h = omega (arith, one-le-pow (suc n) 2)
pow_mono (suc m) zero h = absurd (omega arith)
pow_mono (suc m) (suc n) h = omega (arith, pow_mono m n (omega arith), pow-suc 2 m, pow-suc 2 n)

pub lt_of_pow-lt : (m n : ℕ) → 2 ^ m < 2 ^ n → m < n
lt_of_pow-lt m n h = elim (dec_lt m n) [
  | yes p ↦ p
  | no p ↦ absurd (omega (arith, pow_mono n m (omega arith)))
]

pub clz64-le : (x : ℕ) → clz64 x ≤ 64
unfolding clz64
clz64-le x = clz-le 64 x

pub clz64-lt : (x : ℕ) → 0 < x → IsU64 x → clz64 x < 64
unfolding clz64
clz64-lt x p h = clz-lt 64 x p h

-- A word is below the power of two that its leading zeros leave.
pub lt-pow-clz64 : (x k : ℕ) → IsU64 x → 64 ≤ k + clz64 x → x < 2 ^ k
unfolding clz64
lt-pow-clz64 x k h le = omega (arith, lt-pow-clz 64 x h, pow_mono (64 - clz 64 x) k (omega arith))

ctz-lt : (k x : ℕ) → 0 < x → x < 2 ^ k → ctz k x < k
unfolding ctz
ctz-lt zero x p h = absurd (omega arith)
ctz-lt (suc k) x p h = let wide = pow-suc 2 k in ground (arith, ctz-lt k (x / 2))

two-pow-suc : (k : ℕ) → 2 ^ suc k ≡ 2 * 2 ^ k
two-pow-suc k = omega (arith, pow-suc 2 k)

shift_half : (x m : ℕ) → x % 2 ≡ 0 → x / 2 / m * m ≡ x / 2 → x / (2 * m) * (2 * m) ≡ x
shift_half x m even h = rw (← div-div-eq-div-mul x 2 m) (omega arith)

-- Shifting out at most the trailing zeros, and back, changes nothing.
ctz-shift : (k x s : ℕ) → s ≤ ctz k x → x / 2 ^ s * 2 ^ s ≡ x
unfolding ctz
ctz-shift k x zero h = omega arith
ctz-shift zero x (suc s) h = absurd (omega arith)
ctz-shift (suc k) x (suc s) h = elim (Bool-cases (x % 2 == 0)) [
  | inl even ↦
      rw two-pow-suc
        (shift_half x (2 ^ s) (==→eq _ 0 even) (ctz-shift k (x / 2) s (ground (arith, even))))
  | inr odd ↦ absurd (ground arith)
]

pub ctz64-lt : (x : ℕ) → 0 < x → IsU64 x → ctz64 x < 64
unfolding ctz64
ctz64-lt x p h = ctz-lt 64 x p h

pub ctz64-shift : (x s : ℕ) → s ≤ ctz64 x → x / 2 ^ s * 2 ^ s ≡ x
unfolding ctz64
ctz64-shift x s h = ctz-shift 64 x s h

pub two-pow-eight_mul : (k : ℕ) → 2 ^ (8 * k) ≡ 256 ^ k
two-pow-eight_mul zero = refl
two-pow-eight_mul (suc k) =
    ap (λ (t : ℕ). 2 ^ t) regroup
    ∙ simp towards_suc (omega (arith, two-pow-eight_mul k, pow-suc 256 k))
  where
    regroup : 8 * suc k ≡ 8 * k + 8
    regroup = omega arith

-- A test for lists of words.
unfoldable pub all_below : List ℕ → Bool
all_below [] = true
all_below (x ∷ xs) = if ltb x (2 ^ 64) then all_below xs else false

pub all_below-IsU64 : (xs : List ℕ) → all_below xs ≡ true → All IsU64 xs
unfolding all_below
all_below-IsU64 [] h = tt
all_below-IsU64 (x ∷ xs) h = elim (Bool-cases (ltb x (2 ^ 64))) [
  | inl small ↦ (
    ltb→lt x (2 ^ 64) small,
    all_below-IsU64 xs (subst (λ t. (if t then all_below xs else false) ≡ true) small h),
  )
  | inr large ↦ absurd (cc (subst (λ t. (if t then all_below xs else false) ≡ true) large h))
]
