-- ===== src/Compression/Fcm/Writer.antt =====
-- libakumuli/storage_engine/compression.h: encode_value and FcmStreamWriter.
use akumuli.Base.{
  ℕ, ◌+◌, ◌-◌, ◌*◌, ◌/◌, ◌%◌, ◌^◌, bit_and, bit_or, bit_xor, Bool, true, false, List, [], ◌∷◌, ltb,
  ◌==◌, if◌then◌else◌,
}
use akumuli.Base.Words.{u8, clz64, ctz64}
use akumuli.Compression.Predictor.{DfcmPredictor, predict_next, update, predictor_n}
use akumuli.Compression.Predictor
use akumuli.Compression.VByte.Writer
use akumuli.Compression.VByte.Writer.{VByteWriter, put_raw, and_then}

abbrev pub Writing : Type 0
Writing = VByteWriter → VByteWriter × Bool

unfoldable pub put_low_byte : ℕ → Writing
put_low_byte diff w = put_raw 1 w (bit_and diff 0xFF)

-- The cases of the switch on `nbytes`; one that falls through is followed by the next.
unfoldable pub case_two : ℕ → Writing
unfolding put_low_byte
case_two diff = and_then (put_low_byte diff) (put_low_byte (diff / 2 ^ 8))

unfoldable pub case_three : ℕ → Writing
unfolding case_two
case_three diff = and_then (put_low_byte diff) (case_two (diff / 2 ^ 8))

unfoldable pub case_four : ℕ → Writing
case_four diff w = put_raw 4 w (bit_and diff 0xFFFFFFFF)

unfoldable pub case_five : ℕ → Writing
unfolding case_four
case_five diff = and_then (put_low_byte diff) (case_four (diff / 2 ^ 8))

unfoldable pub case_six : ℕ → Writing
unfolding case_five
case_six diff = and_then (put_low_byte diff) (case_five (diff / 2 ^ 8))

unfoldable pub case_seven : ℕ → Writing
unfolding case_six
case_seven diff = and_then (put_low_byte diff) (case_six (diff / 2 ^ 8))

-- On any other number the switch does nothing.
unfoldable pub put_nbytes : ℕ → ℕ → Writing
unfolding case_seven case_three
put_nbytes nbytes diff =
    if nbytes == 8
    then (λ w. put_raw 8 w diff)
    else if nbytes == 7
    then case_seven diff
    else if nbytes == 6
    then case_six diff
    else if nbytes == 5
    then case_five diff
    else if nbytes == 4
    then case_four diff
    else if nbytes == 3
    then case_three diff
    else if nbytes == 2
    then case_two diff
    else if nbytes == 1
    then put_low_byte diff
    else (λ w. (w, true))

unfoldable pub encode_value : ℕ → ℕ → Writing
encode_value diff flag =
    let nbytes = bit_and flag 7 + 1 in
    let nshift = (64 - nbytes * 8) * (flag / 2 ^ 3) in put_nbytes nbytes (diff / 2 ^ nshift)

-- if (nbytes > 0) { nbytes--; }
abbrev pub less_one : ℕ → ℕ
less_one nbytes = nbytes - 1

-- The flag for a difference: how many bytes are kept, less one, and in the fourth bit whether the
-- zero bytes that are left out are the trailing ones. Flag 15 stands for the difference zero.
unfoldable pub flag_of : ℕ → ℕ
flag_of diff =
    let trailing_bytes = ctz64 diff / 8 in
    let leading_bytes = clz64 diff / 8 in
    if diff == 0
    then 0xF
    else if ltb leading_bytes trailing_bytes
    then bit_or 8 (bit_and (less_one (8 - trailing_bytes)) 7)
    else bit_and (less_one (8 - leading_bytes)) 7

pub record FcmWriter : Type 0 where
  pub predictor : DfcmPredictor
  pub prev_diff : ℕ
  pub prev_flag : ℕ
  pub nelements : ℕ

unfoldable pub init : FcmWriter
init = record {
  predictor = Predictor.init predictor_n;
  prev_diff = 0;
  prev_flag = 0;
  nelements = 0;
}

-- The difference and the flag, with the predictor's next state.
unfoldable pub encode : DfcmPredictor → ℕ → DfcmPredictor × ℕ × ℕ
encode p bits = let diff = bit_xor bits (predict_next p) in (update p bits, diff, flag_of diff)

unfoldable pub encode_all : DfcmPredictor → List ℕ → DfcmPredictor × List (ℕ × ℕ)
unfolding encode
encode_all p [] = (p, [])
encode_all p (value ∷ values) =
    let (p', diff, flag) = encode p value in
    let (p'', rest) = encode_all p' values in (p'', (diff, flag) ∷ rest)

unfoldable pub sum_diff : ℕ → List (ℕ × ℕ) → ℕ
sum_diff acc [] = acc
sum_diff acc ((diff, flag) ∷ rest) = sum_diff (bit_or acc diff) rest

abbrev pub stored_flag : ℕ → ℕ
stored_flag flag = if flag == 0xF then 0 else flag

unfoldable pub put_pair : ℕ → ℕ → ℕ → ℕ → Writing
put_pair prev_diff prev_flag curr_diff curr_flag =
    and_then (λ w. put_raw 1 w (u8 (bit_or (prev_flag * 2 ^ 4) curr_flag)))
      (and_then (encode_value prev_diff prev_flag) (encode_value curr_diff curr_flag))

-- for (size_t i = 0; i < n; i += 2); `n` is even.
unfoldable pub put_pairs : List (ℕ × ℕ) → Writing
unfolding put_pair
put_pairs [] = λ w. (w, true)
put_pairs (p ∷ []) = λ w. (w, true)
put_pairs ((prev_diff, prev_flag) ∷ (curr_diff, curr_flag) ∷ rest) =
    and_then (put_pair prev_diff (stored_flag prev_flag) curr_diff (stored_flag curr_flag))
      (put_pairs rest)

-- An odd value is followed by an empty one.
unfoldable pub commit : FcmWriter → Writing
commit f w =
    if f.nelements % 2 == 0
    then Writer.commit w
    else and_then (put_pair f.prev_diff f.prev_flag 0 0) Writer.commit w

unfoldable pub tput : FcmWriter → VByteWriter → List ℕ → FcmWriter × VByteWriter × Bool
tput f w values =
    let (predictor, diffs) = encode_all f.predictor values in
    let f' = record f { predictor = predictor } in
    let (w', done) =
      and_then (if sum_diff 0 diffs == 0 then (λ w. put_raw 1 w 0xFF) else put_pairs diffs)
        (commit f') w in
    (f', w', done)

unfoldable pub put : FcmWriter → VByteWriter → ℕ → FcmWriter × VByteWriter × Bool
put f w value =
    let (predictor, diff, flag) = encode f.predictor value in
    let f' = record f { predictor = predictor } in
    let (w', done) = put_pair f.prev_diff f.prev_flag diff (stored_flag flag) w in
    if f.nelements % 2 == 0
    then (
      record f' { prev_diff = diff; prev_flag = stored_flag flag; nelements = f.nelements + 1 },
      w,
      true,
    )
    else if done
    then (record f' { nelements = f.nelements + 1 }, w', true)
    else (f', w', false)
