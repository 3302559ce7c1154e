-- ===== src/Protocol/ByteStream.antt =====
-- akumulid/stream.h: ByteStreamReader, what a protocol reader needs of the bytes that came in. An
-- exception is the outcome `panic`; its text is left out.
use akumuli.Base.{
  ℕ, zero, suc, ◌^◌, ◌≤◌, ◌<◌, ◌≡◌, ◌≢◌, Bool, true, false, Option, none, some, List, [], ◌∷◌, ◌++◌,
  length, take, All, ◌==◌, if◌then◌else◌,
}
use akumuli.Base.Outcome.{Outcome, ok, panic}

-- What read_line returns: the number of the bytes of a line, which are copied, or that number negated
-- for bytes without an end of line.
pub data Line : Type 0 where
  line : List ℕ → Line
  no_line : ℕ → Line

pub record ByteStream : Type 1 where
  pub State : Type 0
  pub get : State → Outcome (State × ℕ)
  pub pick : State → Outcome ℕ
  pub is_eof : State → Bool
  pub read : State → ℕ → State × List ℕ
  pub read_line : State → ℕ → State × Line

abbrev pub one_more : Option ℕ → Option ℕ
one_more none = none
one_more (some k) = some (suc k)

-- The count of the bytes up to the first end of line, among the first `n`.
unfoldable pub find_line : ℕ → List ℕ → Option ℕ
find_line zero cs = none
find_line (suc n) [] = none
find_line (suc n) (c ∷ cs) =
    let rest = one_more (find_line n cs) in if c == 10 then some 1 else rest

-- A stream, in the states that are valid, is the list of the bytes that are still to be read.
pub record IsStream (B : ByteStream) (IsValid : B.State → Type 0) (bytes_of : B.State → List ℕ)
    : Type 0 where
  pub at_end : (s : B.State) → IsValid s → bytes_of s ≡ [] → (B.is_eof s ≡ true) × (B.get s ≡ panic)
  pub next_byte :
      (s : B.State) (c : ℕ) (cs : List ℕ)
      → IsValid s
      → bytes_of s ≡ c ∷ cs
      → (B.is_eof s ≡ false)
        × (B.pick s ≡ ok c)
        × (s' : B.State) × (B.get s ≡ ok (s', c))
        × IsValid s'
        × (bytes_of s' ≡ cs)
  pub read_first :
      (s : B.State) (xs ys : List ℕ)
      → IsValid s
      → bytes_of s ≡ xs ++ ys
      → (s' : B.State) × (B.read s (length xs) ≡ (s', xs)) × IsValid s' × (bytes_of s' ≡ ys)
  pub read_rest :
      (s : B.State) (n : ℕ)
      → IsValid s
      → length (bytes_of s) ≤ n
      → n < 2 ^ 32
      → (s' : B.State) × (B.read s n ≡ (s', bytes_of s)) × IsValid s' × (bytes_of s' ≡ [])
  pub read_line_there :
      (s : B.State) (xs ys : List ℕ) (quota : ℕ)
      → IsValid s
      → bytes_of s ≡ xs ++ 10 ∷ ys
      → All (λ (c : ℕ). c ≢ 10) xs
      → length xs < quota
      → quota < 2 ^ 32
      → (s' : B.State) × (B.read_line s quota ≡ (s', line (xs ++ 10 ∷ [])))
        × IsValid s'
        × (bytes_of s' ≡ ys)
  pub read_line_not_there :
      (s : B.State) (quota : ℕ)
      → IsValid s
      → All (λ (c : ℕ). c ≢ 10) (bytes_of s)
      → length (bytes_of s) < quota
      → quota < 2 ^ 32
      → B.read_line s quota ≡ (s, no_line (length (bytes_of s)))
  pub read_line_quota :
      (s : B.State) (quota : ℕ)
      → IsValid s
      → All (λ (c : ℕ). c ≢ 10) (take quota (bytes_of s))
      → quota ≤ length (bytes_of s)
      → quota < 2 ^ 32
      → B.read_line s quota ≡ (s, no_line quota)
