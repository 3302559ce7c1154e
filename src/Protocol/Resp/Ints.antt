-- ===== src/Protocol/Resp/Ints.antt =====
-- Integers of the protocol, as decimal numbers.
use akumuli.Base.{
  ℕ, ◌+◌, ◌-◌, ◌*◌, ◌%◌, ◌^◌, ◌≤◌, ◌<◌, ◌≡◌, ◌≢◌, ◌⊎◌, inl, inr, refl, sym, ◌∙◌, arith, Bool, true,
  false, Option, some, List, [], ◌∷◌, ◌++◌, length, All, length-append, append_assoc, leb, lt→ltb,
  ltb-false,
}
use akumuli.Base.Words.{u64}
use akumuli.Base.Outcome.{Outcome, ok, panic}
use akumuli.Protocol.ByteStream.{ByteStream, IsStream}
use akumuli.Protocol.Resp.{
  max_u64, max_mul, max_digits, int_loop, int_of_line, read_int_body, expect_mark, read_int,
}
use native.Mathlib.Decide.{dec_lt}

-- A decimal digit in ASCII.
abbrev pub IsDigit : ℕ → Type 0
IsDigit d = (48 ≤ d) × (d ≤ 57)

-- The number of which `acc` is what was read before the digits.
unfoldable pub value_from : List ℕ → ℕ → ℕ
value_from [] acc = acc
value_from (d ∷ ds) acc = value_from ds (acc * 10 + (d - 48))

abbrev pub value : List ℕ → ℕ
value ds = value_from ds 0

-- What may stand before \n at the end of a line.
abbrev pub before_lf : Bool → List ℕ
before_lf true = 13 ∷ []
before_lf false = []

le-value_from : (ds : List ℕ) (acc : ℕ) → acc ≤ value_from ds acc
unfolding value_from
le-value_from [] acc = omega arith
le-value_from (d ∷ ds) acc = omega (arith, le-value_from ds (acc * 10 + (d - 48)))

leb-true : (m n : ℕ) → m ≤ n → leb m n ≡ true
leb-true m n h = ground arith

int_loop_end : (cr : Bool) (acc : ℕ) → int_loop (before_lf cr ++ 10 ∷ []) acc ≡ ok acc
unfolding int_loop
int_loop_end true acc = refl
int_loop_end false acc = refl

-- Digits and the end of the line.
int_loop-value_from :
    (ds : List ℕ) (cr : Bool) (acc : ℕ)
    → All IsDigit ds
    → acc < 2 ^ 64
    → ((value_from ds acc < 2 ^ 64)
        × (int_loop (ds ++ (before_lf cr ++ 10 ∷ [])) acc ≡ ok (value_from ds acc)))
      ⊎ ((2 ^ 64 ≤ value_from ds acc) × (int_loop (ds ++ (before_lf cr ++ 10 ∷ [])) acc ≡ panic))
unfolding int_loop value_from
int_loop-value_from [] cr acc h small = inl (small, int_loop_end cr acc)
int_loop-value_from (d ∷ ds) cr acc h small =
    let digit : d % 16 ≡ d - 48 = omega (arith, h.0) in
    let low = leb-true 48 d h.0.0 in
    let high = leb-true d 57 h.0.1 in
    let later = le-value_from ds (acc * 10 + (d - 48)) in
    elim (dec_lt max_mul acc) [
      | yes too_large ↦
          inr (omega (arith, later, too_large), rw (high, low, lt→ltb max_mul acc too_large) refl)
      | no fits ↦
          let word : u64 (acc * 10) ≡ acc * 10 = omega (arith, fits) in
          elim (dec_lt (max_u64 - (d - 48)) (acc * 10)) [
            | yes over ↦ inr (
              omega (arith, later, over, h.0),
              rw
                  (
                    high,
                    low,
                    ltb-false max_mul acc (omega (arith, fits)),
                    word,
                    digit,
                    lt→ltb (max_u64 - (d - 48)) (acc * 10) over,
                  )
                  refl,
            )
            | no under ↦
                let sum : u64 (acc * 10 + (d - 48)) ≡ acc * 10 + (d - 48) =
                  omega (arith, under, h.0) in
                let step : int_loop (d ∷ (ds ++ (before_lf cr ++ 10 ∷ []))) acc
                    ≡ int_loop (ds ++ (before_lf cr ++ 10 ∷ [])) (acc * 10 + (d - 48)) =
                  rw
                    (
                      high,
                      low,
                      ltb-false max_mul acc (omega (arith, fits)),
                      word,
                      digit,
                      ltb-false (max_u64 - (d - 48)) (acc * 10) (omega (arith, under)),
                      sum,
                    )
                    refl in
                elim (int_loop-value_from ds cr (acc * 10 + (d - 48)) h.1
                  (omega (arith, under, h.0))) [
                    | inl (fine, e) ↦ inl (fine, step ∙ e)
                    | inr (large, e) ↦ inr (large, step ∙ e)
                  ]
          ]
    ]

digits_not_lf :
    (ds : List ℕ) (cr : Bool) → All IsDigit ds → All (λ (c : ℕ). c ≢ 10) (ds ++ before_lf cr)
digits_not_lf [] true h = ((λ e. absurd (omega (arith, e))), tt)
digits_not_lf [] false h = tt
digits_not_lf (d ∷ ds) cr h = ((λ e. absurd (omega (arith, e, h.0))), digits_not_lf ds cr h.1)

length-before_lf : (cr : Bool) → length (before_lf cr) ≤ 1
length-before_lf true = omega arith
length-before_lf false = omega arith

module _ (B : ByteStream) (IsValid : B.State → Type 0) (bytes_of : B.State → List ℕ)
    (L : IsStream B IsValid bytes_of) where
  -- What a reader of an integer answers: the number and the stream behind it, or an exception.
  abbrev pub ReadsInt : Outcome (B.State × Option ℕ) → ℕ → List ℕ → Type 0
  ReadsInt result n tail =
      ((n < 2 ^ 64)
        × (s' : B.State) × (result ≡ ok (s', some n))
        × IsValid s'
        × (bytes_of s' ≡ tail))
      ⊎ ((2 ^ 64 ≤ n) × (result ≡ panic))

  pub read_int_body-value :
      (s : B.State) (ds tail : List ℕ) (cr : Bool)
      → IsValid s
      → bytes_of s ≡ ds ++ (before_lf cr ++ 10 ∷ tail)
      → All IsDigit ds
      → length ds ≤ 20
      → ReadsInt (read_int_body B s) (value ds) tail
  unfolding read_int_body int_of_line
  read_int_body-value s ds tail cr v e h few =
      let xs = ds ++ before_lf cr in
      let e' : bytes_of s ≡ xs ++ 10 ∷ tail =
        e ∙ sym (append_assoc ds (before_lf cr) (10 ∷ tail)) in
      let (s', got, v', rest) =
        L.read_line_there s xs tail max_digits v e' (digits_not_lf ds cr h)
          (omega (arith, few, length-append ds (before_lf cr), length-before_lf cr))
          (omega arith) in
      let same : xs ++ 10 ∷ [] ≡ ds ++ (before_lf cr ++ 10 ∷ []) =
        append_assoc ds (before_lf cr) (10 ∷ []) in
      elim (int_loop-value_from ds cr 0 h (omega arith)) [
        | inl (fits, parsed) ↦ inl (fits, s', rw (got, same, parsed) refl, v', rest)
        | inr (large, thrown) ↦ inr (large, rw (got, same, thrown) refl)
      ]

  -- An integer of at most twenty digits, after a colon and before \n or \r\n, is read as its decimal
  -- value, and the stream is then behind it; from 2^64 on it is an exception.
  pub read_int-value :
      (s : B.State) (ds tail : List ℕ) (cr : Bool)
      → IsValid s
      → bytes_of s ≡ b':' ∷ (ds ++ (before_lf cr ++ 10 ∷ tail))
      → All IsDigit ds
      → length ds ≤ 20
      → ReadsInt (read_int B s) (value ds) tail
  unfolding read_int expect_mark
  read_int-value s ds tail cr v e h few =
      let (more, picked, s', got, v', rest) =
        L.next_byte s b':' (ds ++ (before_lf cr ++ 10 ∷ tail)) v e in
      rw (more, got) (read_int_body-value s' ds tail cr v' rest h few)
