-- ===== src/Compression/Fcm/Writes.antt =====
-- What `Fcm.tput` appends for a chunk.
use akumuli.Base.{
  ℕ, zero, suc, ◌*◌, ◌%◌, ◌≤◌, ◌<◌, ◌≡◌, refl, ap, ◌∙◌, arith, List, [], ◌∷◌, ◌++◌, true, false,
  ◌==◌, if◌then◌else◌, length, length-append, append-nil, sym, All, Bool-cases, inl, inr, Bool,
}
use akumuli.Base.Words.{to_bytes}
use akumuli.Compression.VByte.Writer.{VByteWriter, put_raw, and_then, append, space_left}
use akumuli.Compression.VByte.Writer
use akumuli.Compression.VByte.Emits.{Emits, put_raw-Emits, and_then-Emits}
use akumuli.Compression.Predictor.{DfcmPredictor}
use akumuli.Compression.Fcm.Writer.{
  Writing, FcmWriter, encode, encode_all, sum_diff, flag_of, stored_flag, put_pairs, commit, tput,
}
use akumuli.Compression.Fcm.Flags.{stored_flag-lt}
use akumuli.Compression.Fcm.Bytes.{pair_bytes, put_pair-Emits, length-pair_bytes}

unfoldable pub pairs_bytes : List (ℕ × ℕ) → List ℕ
pairs_bytes [] = []
pairs_bytes (p ∷ []) = []
pairs_bytes ((d, f) ∷ (d', f') ∷ rest) =
    pair_bytes d (stored_flag f) d' (stored_flag f') ++ pairs_bytes rest

-- The sentinel, if every difference is zero.
unfoldable pub chunk_bytes : List (ℕ × ℕ) → List ℕ
chunk_bytes ds = if sum_diff 0 ds == 0 then 0xFF ∷ [] else pairs_bytes ds

abbrev HasFlag : ℕ × ℕ → Type 0
HasFlag (d, f) = f ≡ flag_of d

nothing-Emits : Emits (λ w. (w, true)) []
nothing-Emits = record {
  fits = λ w h. ap (λ (t : List ℕ). (record w { out = t }, true)) (sym (append-nil w.out));
  full = λ w h. absurd (omega arith);
}

put_pairs-Emits : (ds : List (ℕ × ℕ)) → All HasFlag ds → Emits (put_pairs ds) (pairs_bytes ds)
unfolding put_pairs pairs_bytes
put_pairs-Emits [] all = nothing-Emits
put_pairs-Emits (p ∷ []) all = nothing-Emits
put_pairs-Emits ((d, f) ∷ (d', f') ∷ rest) (h, (h', all)) =
    and_then-Emits _ _ (pair_bytes d (stored_flag f) d' (stored_flag f')) (pairs_bytes rest)
      (put_pair-Emits d (stored_flag f) d' (stored_flag f') (rw h (stored_flag-lt d))
        (rw h' (stored_flag-lt d')))
      (put_pairs-Emits rest all)

abbrev chunk_writing : List (ℕ × ℕ) → Writing
chunk_writing ds = if sum_diff 0 ds == 0 then (λ w. put_raw 1 w 0xFF) else put_pairs ds

chunk_writing-Emits :
    (ds : List (ℕ × ℕ)) → All HasFlag ds → Emits (chunk_writing ds) (chunk_bytes ds)
unfolding chunk_bytes
chunk_writing-Emits ds all = elim (Bool-cases (sum_diff 0 ds == 0)) [
  | inl zeros ↦ rw zeros (unfold to_bytes in put_raw-Emits 1 0xFF)
  | inr mixed ↦ rw mixed (put_pairs-Emits ds all)
]

pub encode_all-HasFlag : (p : DfcmPredictor) (xs : List ℕ) → All HasFlag (encode_all p xs).1
unfolding encode_all encode
encode_all-HasFlag p [] = tt
encode_all-HasFlag p (x ∷ xs) = (refl, encode_all-HasFlag (encode p x).0 xs)

pub length-encode_all : (p : DfcmPredictor) (xs : List ℕ) → length (encode_all p xs).1 ≡ length xs
unfolding encode_all
length-encode_all p [] = refl
length-encode_all p (x ∷ xs) = ap suc (length-encode_all (encode p x).0 xs)

commit_lem :
    (f : FcmWriter) (w : VByteWriter) → f.nelements % 2 ≡ 0 → w.cnt % 2 ≡ 0 → commit f w ≡ (w, true)
unfolding commit Writer.commit
commit_lem f w hf hw = rw (hf, hw) refl

length-pairs_bytes :
    (n : ℕ) (ds : List (ℕ × ℕ)) → length ds ≤ 2 * n → length (pairs_bytes ds) ≤ 17 * n
unfolding pairs_bytes
length-pairs_bytes n [] h = omega arith
length-pairs_bytes n (p ∷ []) h = omega arith
length-pairs_bytes zero (p ∷ q ∷ rest) h = absurd (omega arith)
length-pairs_bytes (suc n) ((d, f) ∷ (d', f') ∷ rest) h = omega (
  arith,
  length-append (pair_bytes d (stored_flag f) d' (stored_flag f')) (pairs_bytes rest),
  length-pair_bytes d (stored_flag f) d' (stored_flag f'),
  length-pairs_bytes n rest (omega arith),
)

pub length-chunk_bytes : (ds : List (ℕ × ℕ)) → length ds ≡ 16 → length (chunk_bytes ds) ≤ 136
unfolding chunk_bytes
length-chunk_bytes ds h = ground (arith, length-pairs_bytes 8 ds)

abbrev advanced : FcmWriter → List ℕ → FcmWriter
advanced f xs = record f { predictor = (encode_all f.predictor xs).0 }

-- `tput` appends the chunk if it fits, and then the commit has nothing left to write.
pub tput_fits :
    (f : FcmWriter) (w : VByteWriter) (xs : List ℕ)
    → f.nelements % 2 ≡ 0
    → w.cnt % 2 ≡ 0
    → length (chunk_bytes (encode_all f.predictor xs).1) ≤ space_left w
    → tput f w xs ≡ (advanced f xs, append w (chunk_bytes (encode_all f.predictor xs).1), true)
unfolding tput and_then
tput_fits f w xs hf hw room =
    let ds = (encode_all f.predictor xs).1 in
    let written = (chunk_writing-Emits ds (encode_all-HasFlag f.predictor xs)).fits w room in
    ap
      (λ (r : VByteWriter × Bool).
        let (w', done) = (if r.1 then commit (advanced f xs) r.0 else (r.0, false)) in
        (advanced f xs, w', done))
      written
    ∙ ap (λ (r : VByteWriter × Bool). (advanced f xs, r.0, r.1))
        (commit_lem (advanced f xs) (append w (chunk_bytes ds)) hf hw)

pub tput_full :
    (f : FcmWriter) (w : VByteWriter) (xs : List ℕ)
    → space_left w < length (chunk_bytes (encode_all f.predictor xs).1)
    → (tput f w xs).2 ≡ false
unfolding tput and_then
tput_full f w xs full =
    let ds = (encode_all f.predictor xs).1 in
    let refused = (chunk_writing-Emits ds (encode_all-HasFlag f.predictor xs)).full w full in
    rw (refused) refl
