-- ===== src/Compression/VByte/Bytes.antt =====
-- The bytes that the operations of VByteStreamWriter stand for, apart from any stream.
use akumuli.Base.{
  ℕ, zero, suc, ◌+◌, ◌-◌, ◌*◌, ◌/◌, ◌^◌, ◌≤◌, ◌<◌, ◌≡◌, arith, List, [], ◌∷◌, ◌++◌, length,
  length-append, if◌then◌else◌,
}
use akumuli.Base.Words.{
  IsU64, to_bytes, length-to_bytes, clz64, clz64-le, lt-pow-clz64, two-pow-eight_mul,
}
use akumuli.Compression.VByte.Writer.{ctrl_of, all_zero}

-- One control byte, then the significant bytes of both values.
unfoldable pub pair_bytes : ℕ → ℕ → List ℕ
pair_bytes x y = (ctrl_of x + ctrl_of y * 16) ∷ (to_bytes (ctrl_of x) x ++ to_bytes (ctrl_of y) y)

unfoldable pub pairs_bytes : List ℕ → List ℕ
pairs_bytes [] = []
pairs_bytes (x ∷ []) = []
pairs_bytes (x ∷ y ∷ xs) = pair_bytes x y ++ pairs_bytes xs

-- The encoding of a chunk: the sentinel, if all its values are zero.
unfoldable pub chunk_bytes : List ℕ → List ℕ
chunk_bytes xs = if all_zero xs then 0xFF ∷ [] else pairs_bytes xs

pub ctrl_of-le : (x : ℕ) → ctrl_of x ≤ 8
unfolding ctrl_of
ctrl_of-le x = ground arith

ctrl_of-suc : (x : ℕ) → ctrl_of (suc x) ≡ 8 - clz64 (suc x) / 8
unfolding ctrl_of
ctrl_of-suc x = ground arith

-- A value fits the bytes that its control nibble counts.
pub lt-pow-ctrl_of : (x : ℕ) → IsU64 x → x < 256 ^ ctrl_of x
lt-pow-ctrl_of zero h = unfold ctrl_of in omega arith
lt-pow-ctrl_of (suc x) h =
    let k : ℕ = 8 - clz64 (suc x) / 8 in
    rw (ctrl_of-suc x, ← two-pow-eight_mul k)
      (lt-pow-clz64 (suc x) (8 * k) h (omega (arith, clz64-le (suc x))))

pub length-pair_bytes : (x y : ℕ) → length (pair_bytes x y) ≡ 1 + ctrl_of x + ctrl_of y
unfolding pair_bytes
length-pair_bytes x y = omega (
  arith,
  length-append (to_bytes (ctrl_of x) x) (to_bytes (ctrl_of y) y),
  length-to_bytes (ctrl_of x) x,
  length-to_bytes (ctrl_of y) y,
)

-- Seventeen bytes at most for each pair.
pub length-pairs_bytes :
    (n : ℕ) (xs : List ℕ) → length xs ≤ 2 * n → length (pairs_bytes xs) ≤ 17 * n
unfolding pairs_bytes
length-pairs_bytes n [] h = omega arith
length-pairs_bytes n (x ∷ []) h = omega arith
length-pairs_bytes zero (x ∷ y ∷ xs) h = absurd (omega arith)
length-pairs_bytes (suc n) (x ∷ y ∷ xs) h = omega (
  arith,
  length-append (pair_bytes x y) (pairs_bytes xs),
  length-pair_bytes x y,
  ctrl_of-le x,
  ctrl_of-le y,
  length-pairs_bytes n xs (omega arith),
)

-- A chunk of sixteen values takes 136 bytes at most.
pub length-chunk_bytes : (xs : List ℕ) → length xs ≡ 16 → length (chunk_bytes xs) ≤ 136
unfolding chunk_bytes
length-chunk_bytes xs h = ground (arith, length-pairs_bytes 8 xs)
