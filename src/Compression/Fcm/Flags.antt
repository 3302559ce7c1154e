-- ===== src/Compression/Fcm/Flags.antt =====
-- What the flag of a difference promises: how many bytes are kept, and that they determine it.
use akumuli.Base.{
  ℕ, zero, suc, ◌+◌, ◌-◌, ◌*◌, ◌/◌, ◌^◌, ◌≤◌, ◌<◌, ◌≡◌, refl, ◌∙◌, true, false, arith, bit_and,
  bit_or, ltb, Bool-cases, inl, inr, ltb→lt, ne→==,
}
use mathlib.Core.Path.{ap₂}
use akumuli.Base.Bits.{bit_or_fields, bit_or_comm, bit_and_three_bits}
use akumuli.Base.Words.{
  IsU64, ctz64, clz64, ctz64-lt, ctz64-shift, clz64-lt, lt-pow-clz64, two-pow-eight_mul,
}
use akumuli.Compression.Fcm.Writer.{flag_of, stored_flag, less_one}

-- The bytes kept, and the bits shifted out.
abbrev pub nbytes_of : ℕ → ℕ
nbytes_of flag = bit_and flag 7 + 1

abbrev pub shift_of : ℕ → ℕ
shift_of flag = (64 - nbytes_of flag * 8) * (flag / 2 ^ 3)

pub record Fits (diff flag : ℕ) : Type 0 where
  pub small : flag < 15
  pub kept : diff / 2 ^ shift_of flag < 256 ^ nbytes_of flag
  pub restored : diff / 2 ^ shift_of flag * 2 ^ shift_of flag ≡ diff

drop_bytes-lt : (t diff : ℕ) → t ≤ 7 → IsU64 diff → diff / 2 ^ (8 * t) < 256 ^ (8 - t)
drop_bytes-lt zero diff h k = omega arith
drop_bytes-lt (suc zero) diff h k = omega arith
drop_bytes-lt (suc (suc zero)) diff h k = omega arith
drop_bytes-lt (suc (suc (suc zero))) diff h k = omega arith
drop_bytes-lt (suc (suc (suc (suc zero)))) diff h k = omega arith
drop_bytes-lt (suc (suc (suc (suc (suc zero))))) diff h k = omega arith
drop_bytes-lt (suc (suc (suc (suc (suc (suc zero)))))) diff h k = omega arith
drop_bytes-lt (suc (suc (suc (suc (suc (suc (suc zero))))))) diff h k = omega arith
drop_bytes-lt (suc (suc (suc (suc (suc (suc (suc (suc t)))))))) diff h k = absurd (omega arith)

Fits-of :
    (diff flag n s : ℕ)
    → flag < 15
    → nbytes_of flag ≡ n
    → shift_of flag ≡ s
    → diff / 2 ^ s < 256 ^ n
    → diff / 2 ^ s * 2 ^ s ≡ diff
    → Fits diff flag
Fits-of diff flag n s small hn hs kept restored = record {
  small = small;
  kept = rw (hs, hn) kept;
  restored = rw hs restored;
}

shift_value :
    (flag n hi s : ℕ)
    → nbytes_of flag ≡ n
    → flag / 2 ^ 3 ≡ hi
    → (64 - n * 8) * hi ≡ s
    → shift_of flag ≡ s
shift_value flag n hi s hn hh hs = ap₂ (λ (a b : ℕ). (64 - a * 8) * b) hn hh ∙ hs

-- The trailing zero bytes are left out.
Fits-trailing :
    (diff t : ℕ)
    → 1 ≤ t
    → t ≤ 7
    → IsU64 diff
    → 8 * t ≤ ctz64 diff
    → Fits diff (bit_or 8 (bit_and (less_one (8 - t)) 7))
Fits-trailing diff t pos top h zeros =
    Fits-of diff flag (8 - t) (8 * t) (omega (arith, flag_value)) bytes
      (shift_value flag (8 - t) 1 (8 * t) bytes (omega (arith, flag_value)) (omega arith))
      (drop_bytes-lt t diff top h) (ctz64-shift diff (8 * t) zeros)
  where
    flag : ℕ
    flag = bit_or 8 (bit_and (less_one (8 - t)) 7)

    flag_value : flag ≡ 15 - t
    flag_value = omega (
      arith,
      bit_and_three_bits (8 - t - 1),
      bit_or_comm 8 (bit_and (8 - t - 1) 7),
      bit_or_fields 3 (bit_and (8 - t - 1) 7) 1 (omega (arith, bit_and_three_bits (8 - t - 1))),
    )

    bytes : nbytes_of flag ≡ 8 - t
    bytes = omega (arith, bit_and_three_bits flag, flag_value)

-- The leading zero bytes are left out.
Fits-leading :
    (diff l : ℕ)
    → l ≤ 7
    → IsU64 diff
    → 8 * l ≤ clz64 diff
    → Fits diff (bit_and (less_one (8 - l)) 7)
Fits-leading diff l top h zeros =
    Fits-of diff flag (8 - l) 0 (omega (arith, flag_value)) bytes
      (shift_value flag (8 - l) 0 0 bytes (omega (arith, flag_value)) (omega arith))
      (rw (← two-pow-eight_mul (8 - l))
        (omega (arith, lt-pow-clz64 diff (8 * (8 - l)) h (omega arith))))
      (omega arith)
  where
    flag : ℕ
    flag = bit_and (less_one (8 - l)) 7

    flag_value : flag ≡ 7 - l
    flag_value = omega (arith, bit_and_three_bits (8 - l - 1))

    bytes : nbytes_of flag ≡ 8 - l
    bytes = omega (arith, bit_and_three_bits flag, flag_value)

-- Zero under the flag 0 is one zero byte.
Fits-zero : Fits 0 0
Fits-zero = record { small = omega arith; kept = omega arith; restored = omega arith }

flag_of-zero : flag_of 0 ≡ 0xF
unfolding flag_of
flag_of-zero = refl

Fits-stored : (diff flag : ℕ) → Fits diff flag → Fits diff (stored_flag flag)
Fits-stored diff flag fit = rw (ne→== flag 0xF (omega (arith, fit.small))) fit

-- The flag that is stored for a difference suits it.
pub stored_flag-Fits : (diff : ℕ) → IsU64 diff → Fits diff (stored_flag (flag_of diff))
stored_flag-Fits zero h = rw flag_of-zero Fits-zero
stored_flag-Fits (suc d) h = elim (Bool-cases (ltb (clz64 (suc d) / 8) (ctz64 (suc d) / 8))) [
  | inl trailing ↦
      let t = ctz64 (suc d) / 8 in
      let bound = ctz64-lt (suc d) (omega arith) h in
      let fit =
        Fits-trailing (suc d) t (omega (arith, ltb→lt _ _ trailing)) (omega arith) h
          (omega arith) in
      rw (by_trailing trailing) (Fits-stored _ _ fit)
  | inr leading ↦
      let l = clz64 (suc d) / 8 in
      let bound = clz64-lt (suc d) (omega arith) h in
      let fit = Fits-leading (suc d) l (omega arith) h (omega arith) in
      rw (by_leading leading) (Fits-stored _ _ fit)
]
  where
    by_trailing :
        ltb (clz64 (suc d) / 8) (ctz64 (suc d) / 8) ≡ true
        → flag_of (suc d) ≡ bit_or 8 (bit_and (less_one (8 - ctz64 (suc d) / 8)) 7)
    by_trailing e = unfold flag_of in rw (ne→== (suc d) 0 (omega arith), e) refl

    by_leading :
        ltb (clz64 (suc d) / 8) (ctz64 (suc d) / 8) ≡ false
        → flag_of (suc d) ≡ bit_and (less_one (8 - clz64 (suc d) / 8)) 7
    by_leading e = unfold flag_of in rw (ne→== (suc d) 0 (omega arith), e) refl

flag_of-lt : (diff : ℕ) → flag_of diff < 16
unfolding flag_of
flag_of-lt diff = ground (
  arith,
  with_mark (less_one (8 - ctz64 diff / 8)),
  bit_and_three_bits (less_one (8 - clz64 diff / 8)),
)
  where
    with_mark : (n : ℕ) → bit_or 8 (bit_and n 7) < 16
    with_mark n = omega (
      arith,
      bit_and_three_bits n,
      bit_or_comm 8 (bit_and n 7),
      bit_or_fields 3 (bit_and n 7) 1 (omega (arith, bit_and_three_bits n)),
    )

-- A flag takes four bits.
pub stored_flag-lt : (diff : ℕ) → stored_flag (flag_of diff) < 16
stored_flag-lt diff = let bound = flag_of-lt diff in ground arith
