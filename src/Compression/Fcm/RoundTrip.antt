-- ===== src/Compression/Fcm/RoundTrip.antt =====
-- What `Fcm.tput` writes for a chunk, sixteen calls of `Fcm.next` read back.
use akumuli.Base.{
  ℕ, zero, suc, ◌+◌, ◌*◌, ◌/◌, ◌%◌, ◌^◌, ◌≤◌, ◌<◌, ◌≡◌, refl, ap, ◌∙◌, arith, bit_or, bit_xor, List,
  [], ◌∷◌, ◌++◌, ◌==◌, length, subst, append_assoc, All, Bool-cases, inl, inr, ne→==, ==→eq,
}
use mathlib.Core.Path.{ap₂}
use akumuli.Base.Bits.{
  bit_xor_twice, bit_xor-lt, bit_and_four_bits, bit_or-eq_zero, bit_and_three_bits,
}
use akumuli.Base.Places.{join_byte, split_byte}
use native.Mathlib.Nat.{pow-suc}
use akumuli.Base.Words.{IsU64, u32, u64, to_bytes}
use akumuli.Base.Outcome.{ok}
use akumuli.Compression.VByte.Reader.{VByteReader}
use akumuli.Compression.VByte.RoundTrip.{at, read_byte}
use akumuli.Compression.Predictor.{DfcmPredictor, predict_next, update}
use akumuli.Compression.Fcm.Writer.{encode, encode_all, flag_of, stored_flag, sum_diff}
use akumuli.Compression.Fcm.Flags.{nbytes_of, shift_of, Fits, stored_flag-Fits}
use akumuli.Compression.Fcm.Bytes.{value_bytes, pair_bytes}
use akumuli.Compression.Fcm.Writes.{pairs_bytes, chunk_bytes}
use akumuli.Compression.Fcm.Reader.{
  FcmReader, decode_loop, decode_value, next_flag, next_diff, next,
}

decode_loop-to_bytes :
    (n i acc v : ℕ) (r : VByteReader) (tail : List ℕ)
    → v < 256 ^ n
    → i + n ≤ 8
    → acc < 2 ^ (i * 8)
    → decode_loop n i acc (at r (to_bytes n v ++ tail)) ≡ ok (acc + v * 2 ^ (i * 8), at r tail)
unfolding decode_loop to_bytes
decode_loop-to_bytes zero i acc v r tail hv hi low =
    ap (λ (t : ℕ). ok (t, at r tail)) (rw none_left (omega arith))
  where
    none_left : v ≡ 0
    none_left = omega arith
decode_loop-to_bytes (suc n) i acc v r tail hv hi low =
    let (joined, bound) = join_byte acc (v % 256) (i * 8) (omega arith) (omega arith) low in
    rw (read_byte r (v % 256) (to_bytes n (v / 256) ++ tail), joined)
      (decode_loop-to_bytes n (i + 1) (acc + v % 256 * 2 ^ (i * 8)) (v / 256) r tail
          (omega (arith, pow-suc 256 n)) (omega arith)
          (subst (λ t. acc + v % 256 * 2 ^ (i * 8) < 2 ^ t) next_place bound)
        ∙ ap (λ (t : ℕ). ok (t, at r tail)) total)
  where
    next_place : i * 8 + 8 ≡ (i + 1) * 8
    next_place = omega arith

    total : acc + v % 256 * 2 ^ (i * 8) + v / 256 * 2 ^ ((i + 1) * 8) ≡ acc + v * 2 ^ (i * 8)
    total = rw (← next_place) (split_byte acc v (i * 8))

shifted_back : (a m d : ℕ) → a * m ≡ d → IsU64 d → u64 ((0 + a * 1) * m) ≡ d
shifted_back a m d e h = ap (λ (t : ℕ). u64 (t * m)) (omega arith) ∙ ap u64 e ∙ omega arith

decode_value-value_bytes :
    (d f : ℕ) (r : VByteReader) (tail : List ℕ)
    → Fits d f
    → IsU64 d
    → decode_value f (at r (value_bytes d f ++ tail)) ≡ ok (d, at r tail)
unfolding decode_value value_bytes
decode_value-value_bytes d f r tail fit h =
    rw
      (decode_loop-to_bytes (nbytes_of f) 0 0 (d / 2 ^ shift_of f) r tail fit.kept
        (omega (arith, bit_and_three_bits f)) (omega arith))
      (ap (λ (t : ℕ). ok (t, at r tail))
        (shifted_back (d / 2 ^ shift_of f) (2 ^ shift_of f) d fit.restored h))

-- Reads `xs` in order: what each call of `next` returns.
abbrev pub FcmReads : FcmReader → VByteReader → List ℕ → FcmReader → VByteReader → Type 0
FcmReads f r [] f' r' = (f ≡ f') × (r ≡ r')
FcmReads f r (x ∷ xs) f' r' =
    (g : FcmReader) × (q : VByteReader) × (next f r ≡ ok (x, g, q)) × FcmReads g q xs f' r'

-- The difference that the writer forms.
abbrev diff_of : DfcmPredictor → ℕ → ℕ
diff_of p x = bit_xor x (predict_next p)

diff_of-IsU64 : (p : DfcmPredictor) (x : ℕ) → IsU64 x → IsU64 (diff_of p x)
unfolding predict_next
diff_of-IsU64 p x h = bit_xor-lt 64 x _ h (omega arith)

-- Outside a run of zeros the reader adds the difference to the same prediction.
next_decoded :
    (f g : FcmReader) (r q s : VByteReader) (flag x : ℕ)
    → next_flag f r ≡ ok (flag, g, q)
    → g.nzeroes ≡ 0
    → decode_value flag q ≡ ok (diff_of g.predictor x, s)
    → next f r ≡ ok (x, record g { predictor = update g.predictor x }, s)
unfolding next next_diff
next_decoded f g r q s flag x e z d = rw (e, z, d, bit_xor_twice (predict_next g.predictor) x) refl

-- Between two pairs, outside a run of zeros.
pub record AtPair (f : FcmReader) : Type 0 where
  pub even : f.iter % 2 ≡ 0
  pub no_run : f.nzeroes ≡ 0

abbrev after_first : FcmReader → ℕ → ℕ → FcmReader
after_first f flags x = record f {
  predictor = update f.predictor x;
  flags = flags;
  iter = u32 (f.iter + 1);
}

next_flag_first :
    (f : FcmReader) (r : VByteReader) (c : ℕ) (bytes : List ℕ)
    → AtPair f
    → c < 0xFF
    → next_flag f (at r (c ∷ bytes))
      ≡ ok (c / 2 ^ 4, record f { flags = c; iter = u32 (f.iter + 1) }, at r bytes)
unfolding next_flag
next_flag_first f r c bytes start h =
    rw (start.even, start.no_run, read_byte r c bytes, ne→== c 0xFF (omega arith)) refl

next_flag_second :
    (f : FcmReader) (r : VByteReader)
    → f.iter % 2 ≡ 1
    → next_flag f r ≡ ok (f.flags % 16, record f { iter = u32 (f.iter + 1) }, r)
unfolding next_flag
next_flag_second f r odd = rw (odd, bit_and_four_bits f.flags) refl

next_first :
    (f : FcmReader) (r : VByteReader) (x d' f' : ℕ) (tail : List ℕ)
    → AtPair f
    → IsU64 x
    → f' < 15
    → let d = diff_of f.predictor x in
      let c = stored_flag (flag_of d) * 16 + f' in
      next f (at r (pair_bytes d (stored_flag (flag_of d)) d' f' ++ tail))
      ≡ ok (x, after_first f c x, at r (value_bytes d' f' ++ tail))
unfolding pair_bytes
next_first f r x d' f' tail start hx hf =
    let d = diff_of f.predictor x in
    let flag = stored_flag (flag_of d) in
    let c = flag * 16 + f' in
    let fit = stored_flag-Fits d (diff_of-IsU64 f.predictor x hx) in
    let bytes = value_bytes d flag ++ (value_bytes d' f' ++ tail) in
    next_decoded f (record f { flags = c; iter = u32 (f.iter + 1) })
      (at r ((c ∷ (value_bytes d flag ++ value_bytes d' f')) ++ tail)) (at r bytes)
      (at r (value_bytes d' f' ++ tail)) flag x
      (next_flag_first f r c ((value_bytes d flag ++ value_bytes d' f') ++ tail) start
          (omega (arith, fit.small))
        ∙ ap₂
            (λ (a : ℕ) (b : List ℕ).
              ok (a, record f { flags = c; iter = u32 (f.iter + 1) }, at r b))
            (omega arith) (append_assoc (value_bytes d flag) (value_bytes d' f') tail))
      start.no_run
      (decode_value-value_bytes d flag r (value_bytes d' f' ++ tail) fit
        (diff_of-IsU64 f.predictor x hx))

next_second :
    (f : FcmReader) (r : VByteReader) (flag x y : ℕ) (tail : List ℕ)
    → AtPair f
    → IsU64 y
    → let d = diff_of (update f.predictor x) y in
      let c = flag * 16 + stored_flag (flag_of d) in
      next (after_first f c x) (at r (value_bytes d (stored_flag (flag_of d)) ++ tail))
      ≡ ok (y, after_first (after_first f c x) c y, at r tail)
next_second f r flag x y tail start hy =
    let g = update f.predictor x in
    let d = diff_of g y in
    let flag' = stored_flag (flag_of d) in
    let c = flag * 16 + flag' in
    let fit = stored_flag-Fits d (diff_of-IsU64 g y hy) in
    let h = after_first f c x in
    let q = at r (value_bytes d flag' ++ tail) in
    next_decoded h (record h { iter = u32 (h.iter + 1) }) q q (at r tail) flag' y
      (next_flag_second h q (omega (arith, start.even))
        ∙ ap (λ (a : ℕ). ok (a, record h { iter = u32 (h.iter + 1) }, q))
            (omega (arith, fit.small)))
      start.no_run (decode_value-value_bytes d flag' r tail fit (diff_of-IsU64 g y hy))

-- Pairs are read back in order; the reader's predictor goes where the writer's went.
FcmReads-pairs_bytes :
    (n : ℕ) (xs : List ℕ) (f : FcmReader) (r : VByteReader) (tail : List ℕ)
    → length xs ≡ 2 * n
    → All IsU64 xs
    → AtPair f
    → (f' : FcmReader) × FcmReads f
        (at r (pairs_bytes (encode_all f.predictor xs).1 ++ tail))
        xs
        f'
        (at r tail)
      × AtPair f'
      × (f'.predictor ≡ (encode_all f.predictor xs).0)
unfolding pairs_bytes encode_all encode
FcmReads-pairs_bytes n [] f r tail h all start = (f, (refl, refl), start, refl)
FcmReads-pairs_bytes n (x ∷ []) f r tail h all start = absurd (omega arith)
FcmReads-pairs_bytes zero (x ∷ y ∷ xs) f r tail h all start = absurd (omega arith)
FcmReads-pairs_bytes (suc n) (x ∷ y ∷ xs) f r tail h (hx, (hy, all)) start =
    let p = f.predictor in
    let d = diff_of p x in
    let d' = diff_of (update p x) y in
    let flag = stored_flag (flag_of d) in
    let flag' = stored_flag (flag_of d') in
    let fit' = stored_flag-Fits d' (diff_of-IsU64 (update p x) y hy) in
    let c = flag * 16 + flag' in
    let g = after_first (after_first f c x) c y in
    let rest = pairs_bytes (encode_all g.predictor xs).1 in
    let (f', reads, start', follows) =
      FcmReads-pairs_bytes n xs g r tail (omega arith) all
        (record { even = omega (arith, start.even); no_run = start.no_run }) in
    (
      f',
      (
        after_first f c x,
        at r (value_bytes d' flag' ++ (rest ++ tail)),
        rw (append_assoc (pair_bytes d flag d' flag') rest tail)
            (next_first f r x d' flag' (rest ++ tail) start hx fit'.small),
        (g, at r (rest ++ tail), next_second f r flag x y (rest ++ tail) start hy, reads),
      ),
      start',
      follows,
    )

-- Every prediction is right.
abbrev Predicted : DfcmPredictor → List ℕ → Type 0
Predicted p [] = Unit {0}
Predicted p (x ∷ xs) = (diff_of p x ≡ 0) × Predicted (update p x) xs

sum_diff→Predicted :
    (xs : List ℕ) (acc : ℕ) (p : DfcmPredictor)
    → sum_diff acc (encode_all p xs).1 ≡ 0
    → (acc ≡ 0) × Predicted p xs
unfolding sum_diff encode_all encode
sum_diff→Predicted [] acc p h = (h, tt)
sum_diff→Predicted (x ∷ xs) acc p h =
    let (joined, rest) = sum_diff→Predicted xs (bit_or acc (diff_of p x)) (update p x) h in
    let (none_before, none_here) = bit_or-eq_zero acc (diff_of p x) joined in
    (none_before, (none_here, rest))

predicted_value : (p : DfcmPredictor) (x : ℕ) → diff_of p x ≡ 0 → bit_xor (predict_next p) 0 ≡ x
predicted_value p x e =
    subst (λ t. bit_xor (predict_next p) t ≡ x) e (bit_xor_twice (predict_next p) x)

next_diff_run :
    (flag : ℕ) (g : FcmReader) (q : VByteReader) (n : ℕ)
    → g.nzeroes ≡ suc n
    → next_diff flag g q ≡ ok (0, record g { nzeroes = n }, q)
unfolding next_diff
next_diff_run flag g q n z = ground arith

next_zero :
    (f g : FcmReader) (r q : VByteReader) (flag n x : ℕ)
    → next_flag f r ≡ ok (flag, g, q)
    → g.nzeroes ≡ suc n
    → diff_of g.predictor x ≡ 0
    → next f r ≡ ok (x, record g { predictor = update g.predictor x; nzeroes = n }, q)
unfolding next
next_zero f g r q flag n x e z d =
    rw (e, next_diff_run flag g q n z, predicted_value g.predictor x d) refl

-- A run of zeros needs no more bytes.
FcmReads-run :
    (xs : List ℕ) (f : FcmReader) (r : VByteReader)
    → f.nzeroes ≡ length xs
    → Predicted f.predictor xs
    → (f' : FcmReader) × FcmReads f r xs f' r
      × (f'.nzeroes ≡ 0)
      × (f'.iter % 2 ≡ (f.iter + length xs) % 2)
      × (f'.predictor ≡ (encode_all f.predictor xs).0)
unfolding encode_all encode
FcmReads-run [] f r z all = (f, (refl, refl), z, omega arith, refl)
FcmReads-run (x ∷ xs) f r z (hx, all) =
    let g = record f { iter = u32 (f.iter + 1) } in
    let h = record g { predictor = update f.predictor x; nzeroes = length xs } in
    let (f', reads, no_run, parity, follows) = FcmReads-run xs h r refl all in
    (
      f',
      (h, r, next_zero f g r r (f.flags % 16) (length xs) x flag z hx, reads),
      no_run,
      omega arith,
      follows,
    )
  where
    flag : next_flag f r ≡ ok (f.flags % 16, record f { iter = u32 (f.iter + 1) }, r)
    flag = unfold next_flag in rw (z, bit_and_four_bits f.flags) (ground arith)

-- The sentinel starts a run of sixteen, and its first value.
FcmReads-sentinel :
    (xs : List ℕ) (f : FcmReader) (r : VByteReader) (tail : List ℕ)
    → length xs ≡ 16
    → Predicted f.predictor xs
    → AtPair f
    → (f' : FcmReader) × FcmReads f (at r (0xFF ∷ tail)) xs f' (at r tail)
      × AtPair f'
      × (f'.predictor ≡ (encode_all f.predictor xs).0)
unfolding encode_all encode
FcmReads-sentinel [] f r tail h all start = absurd (omega arith)
FcmReads-sentinel (x ∷ xs) f r tail h (hx, all) start =
    let g = record f { flags = 0xFF; iter = u32 (f.iter + 1); nzeroes = 16 } in
    let k = record g { predictor = update f.predictor x; nzeroes = 15 } in
    let (f', reads, no_run, parity, follows) = FcmReads-run xs k (at r tail) (omega arith) all in
    (
      f',
      (k, at r tail, next_zero f g (at r (0xFF ∷ tail)) (at r tail) 15 15 x flag refl hx, reads),
      record { even = omega (arith, start.even); no_run = no_run },
      follows,
    )
  where
    flag :
        next_flag f (at r (0xFF ∷ tail))
        ≡ ok (15, record f { flags = 0xFF; iter = u32 (f.iter + 1); nzeroes = 16 }, at r tail)
    flag = unfold next_flag in rw (start.even, start.no_run, read_byte r 0xFF tail) refl

-- What `tput` appends for a chunk of sixteen values is read back by sixteen calls of `next`, which
-- leave the bytes behind it and a reader whose predictor is the writer's.
pub FcmReads-chunk_bytes :
    (xs : List ℕ) (f : FcmReader) (r : VByteReader) (tail : List ℕ)
    → length xs ≡ 16
    → All IsU64 xs
    → AtPair f
    → (f' : FcmReader) × FcmReads f
        (at r (chunk_bytes (encode_all f.predictor xs).1 ++ tail))
        xs
        f'
        (at r tail)
      × AtPair f'
      × (f'.predictor ≡ (encode_all f.predictor xs).0)
unfolding chunk_bytes
FcmReads-chunk_bytes xs f r tail h all start =
    elim (Bool-cases (sum_diff 0 (encode_all f.predictor xs).1 == 0)) [
      | inr mixed ↦ rw mixed (FcmReads-pairs_bytes 8 xs f r tail h all start)
      | inl zeros ↦ rw zeros (
          FcmReads-sentinel xs f r tail h (sum_diff→Predicted xs 0 f.predictor (==→eq _ 0 zeros)).1
            start)
    ]
