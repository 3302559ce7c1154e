-- ===== src/Compression/Fcm/Bytes.antt =====
-- The bytes that FcmStreamWriter writes for a value, a pair and a chunk.
use akumuli.Base.{
  ℕ, zero, suc, ◌+◌, ◌*◌, ◌/◌, ◌%◌, ◌^◌, ◌≤◌, ◌<◌, ◌≡◌, ap, arith, bit_and, bit_or, List, [], ◌∷◌,
  ◌++◌, length, length-append, subst,
}
use akumuli.Base.Bits.{bit_and_mask, bit_and_three_bits, bit_or_comm, bit_or_fields}
use akumuli.Base.Words.{to_bytes, u8, length-to_bytes}
use akumuli.Compression.VByte.Emits.{Emits, put_raw-Emits, and_then-Emits}
use akumuli.Compression.Fcm.Writer.{
  put_low_byte, case_two, case_three, case_four, case_five, case_six, case_seven, put_nbytes,
  encode_value, put_pair,
}
use akumuli.Compression.Fcm.Flags.{nbytes_of, shift_of}

low_byte-Emits : (d : ℕ) → Emits (put_low_byte d) (d % 256 ∷ [])
low_byte-Emits d =
    subst (Emits (put_low_byte d)) one_byte
      (unfold put_low_byte in put_raw-Emits 1 (bit_and d 0xFF))
  where
    one_byte : to_bytes 1 (bit_and d 0xFF) ≡ d % 256 ∷ []
    one_byte = unfold to_bytes in ap (λ (t : ℕ). t ∷ []) (omega (arith, bit_and_mask 8 d))

one-Emits : (d : ℕ) → Emits (put_low_byte d) (to_bytes 1 d)
unfolding to_bytes
one-Emits d = low_byte-Emits d

two-Emits : (d : ℕ) → Emits (case_two d) (to_bytes 2 d)
unfolding to_bytes case_two
two-Emits d =
    and_then-Emits _ _ (d % 256 ∷ []) (d / 256 % 256 ∷ []) (low_byte-Emits d)
      (low_byte-Emits (d / 2 ^ 8))

three-Emits : (d : ℕ) → Emits (case_three d) (to_bytes 3 d)
unfolding to_bytes case_three
three-Emits d =
    and_then-Emits _ _ (d % 256 ∷ []) (to_bytes 2 (d / 256)) (low_byte-Emits d)
      (two-Emits (d / 2 ^ 8))

four_bytes : (d : ℕ) → to_bytes 4 (bit_and d 0xFFFFFFFF) ≡ to_bytes 4 d
unfolding to_bytes
four_bytes d = rw (bit_and_mask 32 d) (ground arith)

four-Emits : (d : ℕ) → Emits (case_four d) (to_bytes 4 d)
unfolding case_four
four-Emits d = subst (Emits (case_four d)) (four_bytes d) (put_raw-Emits 4 (bit_and d 0xFFFFFFFF))

five-Emits : (d : ℕ) → Emits (case_five d) (to_bytes 5 d)
unfolding case_five
five-Emits d =
    unfold to_bytes in
    and_then-Emits _ _ (d % 256 ∷ []) (to_bytes 4 (d / 256)) (low_byte-Emits d)
      (four-Emits (d / 2 ^ 8))

six-Emits : (d : ℕ) → Emits (case_six d) (to_bytes 6 d)
unfolding case_six
six-Emits d =
    unfold to_bytes in
    and_then-Emits _ _ (d % 256 ∷ []) (to_bytes 5 (d / 256)) (low_byte-Emits d)
      (five-Emits (d / 2 ^ 8))

seven-Emits : (d : ℕ) → Emits (case_seven d) (to_bytes 7 d)
unfolding case_seven
seven-Emits d =
    unfold to_bytes in
    and_then-Emits _ _ (d % 256 ∷ []) (to_bytes 6 (d / 256)) (low_byte-Emits d)
      (six-Emits (d / 2 ^ 8))

-- Every case of the switch writes its number of bytes, lowest first.
put_nbytes-Emits : (n d : ℕ) → 1 ≤ n → n ≤ 8 → Emits (put_nbytes n d) (to_bytes n d)
put_nbytes-Emits zero d lo hi = absurd (omega arith)
put_nbytes-Emits (suc zero) d lo hi = unfold put_nbytes in one-Emits d
put_nbytes-Emits (suc (suc zero)) d lo hi = unfold put_nbytes in two-Emits d
put_nbytes-Emits (suc (suc (suc zero))) d lo hi = unfold put_nbytes in three-Emits d
put_nbytes-Emits (suc (suc (suc (suc zero)))) d lo hi = unfold put_nbytes in four-Emits d
put_nbytes-Emits (suc (suc (suc (suc (suc zero))))) d lo hi = unfold put_nbytes in five-Emits d
put_nbytes-Emits (suc (suc (suc (suc (suc (suc zero)))))) d lo hi = unfold put_nbytes in six-Emits d
put_nbytes-Emits (suc (suc (suc (suc (suc (suc (suc zero))))))) d lo hi =
    unfold put_nbytes in seven-Emits d
put_nbytes-Emits (suc (suc (suc (suc (suc (suc (suc (suc zero)))))))) d lo hi =
    unfold put_nbytes in put_raw-Emits 8 d
put_nbytes-Emits (suc (suc (suc (suc (suc (suc (suc (suc (suc n))))))))) d lo hi =
    absurd (omega arith)

unfoldable pub value_bytes : ℕ → ℕ → List ℕ
value_bytes diff flag = to_bytes (nbytes_of flag) (diff / 2 ^ shift_of flag)

encode_value-Emits : (diff flag : ℕ) → Emits (encode_value diff flag) (value_bytes diff flag)
unfolding encode_value value_bytes
encode_value-Emits diff flag =
    put_nbytes-Emits (nbytes_of flag) (diff / 2 ^ shift_of flag) (omega arith)
      (omega (arith, bit_and_three_bits flag))

length-value_bytes : (diff flag : ℕ) → length (value_bytes diff flag) ≤ 8
unfolding value_bytes
length-value_bytes diff flag =
    omega
      (arith, length-to_bytes (nbytes_of flag) (diff / 2 ^ shift_of flag), bit_and_three_bits flag)

-- A byte with both flags, then the kept bytes of both differences.
unfoldable pub pair_bytes : ℕ → ℕ → ℕ → ℕ → List ℕ
pair_bytes d f d' f' = (f * 16 + f') ∷ (value_bytes d f ++ value_bytes d' f')

flag_byte :
    (f f' : ℕ) → f < 16 → f' < 16 → to_bytes 1 (u8 (bit_or (f * 2 ^ 4) f')) ≡ (f * 16 + f') ∷ []
flag_byte f f' h k =
    unfold to_bytes in
    ap (λ (t : ℕ). t ∷ [])
      (omega (arith, bit_or_comm (f * 2 ^ 4) f', bit_or_fields 4 f' f (omega arith)))

pub put_pair-Emits :
    (d f d' f' : ℕ) → f < 16 → f' < 16 → Emits (put_pair d f d' f') (pair_bytes d f d' f')
unfolding put_pair pair_bytes
put_pair-Emits d f d' f' h k =
    and_then-Emits _ _ ((f * 16 + f') ∷ []) (value_bytes d f ++ value_bytes d' f')
      (subst (Emits _) (flag_byte f f' h k) (put_raw-Emits 1 (u8 (bit_or (f * 2 ^ 4) f'))))
      (and_then-Emits _ _ (value_bytes d f) (value_bytes d' f') (encode_value-Emits d f)
        (encode_value-Emits d' f'))

pub length-pair_bytes : (d f d' f' : ℕ) → length (pair_bytes d f d' f') ≤ 17
unfolding pair_bytes
length-pair_bytes d f d' f' = omega (
  arith,
  length-append (value_bytes d f) (value_bytes d' f'),
  length-value_bytes d f,
  length-value_bytes d' f',
)
