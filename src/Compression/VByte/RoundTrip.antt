-- ===== src/Compression/VByte/RoundTrip.antt =====
-- What VByteStreamWriter's chunks look like to VByteStreamReader.
use akumuli.Base.{
  ℕ, zero, suc, ◌+◌, ◌*◌, ◌/◌, ◌%◌, ◌^◌, ◌≤◌, ◌<◌, ◌≡◌, refl, ap, ◌∙◌, arith, List, [], ◌∷◌, ◌++◌,
  length, length-append, ne→==, ltb, ltb-false, lt→ltb, true, false, Bool-cases, inl, inr,
  append_assoc, take-append, drop-append, All, replicate,
}
use akumuli.Base.Bits.{bit_and_four_bits}
use akumuli.Base.Places.{join_byte, split_byte}
use akumuli.Base.Words.{IsU64, to_bytes, from_bytes, from_bytes-to_bytes, length-to_bytes, u32}
use akumuli.Base.Outcome.{ok}
use akumuli.Compression.VByte.Writer.{ctrl_of, all_zero}
use akumuli.Compression.VByte.Reader.{VByteReader, read_raw, acc_bytes, read_value, read_ctrl, next}
use akumuli.Compression.VByte.Bytes.{
  pair_bytes, pairs_bytes, chunk_bytes, ctrl_of-le, lt-pow-ctrl_of,
}
use native.Mathlib.Nat.{pow-suc}

-- The reader with other bytes before it.
abbrev pub at : VByteReader → List ℕ → VByteReader
at r bytes = record r { rest = bytes }

-- Little-endian bytes add up to the value that they came from, at any position of the word.
acc_bytes-to_bytes :
    (n i acc v : ℕ) (tail : List ℕ)
    → v < 256 ^ n
    → i + 8 * n ≤ 64
    → acc < 2 ^ i
    → acc_bytes n i acc (to_bytes n v ++ tail) ≡ ok (acc + v * 2 ^ i, tail)
unfolding acc_bytes to_bytes
acc_bytes-to_bytes zero i acc v tail hv hi low =
    ap (λ (t : ℕ). ok (t, tail)) (rw none_left (omega arith))
  where
    none_left : v ≡ 0
    none_left = omega arith
acc_bytes-to_bytes (suc n) i acc v tail hv hi low =
    let (joined, bound) = join_byte acc (v % 256) i (omega arith) (omega arith) low in
    rw (lt→ltb i 64 (omega arith), joined)
      (acc_bytes-to_bytes n (i + 8) (acc + v % 256 * 2 ^ i) (v / 256) tail
          (omega (arith, pow-suc 256 n)) (omega arith) bound
        ∙ ap (λ (t : ℕ). ok (t, tail)) total)
  where
    total : acc + v % 256 * 2 ^ i + v / 256 * 2 ^ (i + 8) ≡ acc + v * 2 ^ i
    total = split_byte acc v i

enough : (n v : ℕ) (tail : List ℕ) → ltb (length (to_bytes n v ++ tail)) n ≡ false
enough n v tail =
    ltb-false _ n (omega (arith, length-append (to_bytes n v) tail, length-to_bytes n v))

pub read_raw-to_bytes :
    (n v : ℕ) (r : VByteReader) (tail : List ℕ)
    → v < 256 ^ n
    → read_raw n (at r (to_bytes n v ++ tail)) ≡ ok (v, at r tail)
unfolding read_raw
read_raw-to_bytes n v r tail h =
    rw
      (
        enough n v tail,
        take-append n (to_bytes n v) tail (length-to_bytes n v),
        drop-append n (to_bytes n v) tail (length-to_bytes n v),
        from_bytes-to_bytes n v h,
      )
      refl

read_value-to_bytes :
    (n v : ℕ) (r : VByteReader) (tail : List ℕ)
    → n ≤ 8
    → v < 256 ^ n
    → read_value n (at r (to_bytes n v ++ tail)) ≡ ok (v, at r tail)
unfolding read_value
read_value-to_bytes n v r tail hn hv =
    rw (enough n v tail, acc_bytes-to_bytes n 0 0 v tail hv (omega arith) (omega arith))
      (ap (λ (t : ℕ). ok (t, at r tail)) (omega arith))

-- Reads `xs` in order: what each call of `next` returns.
abbrev pub Reads : VByteReader → List ℕ → VByteReader → Type 0
Reads r [] r' = r ≡ r'
Reads r (x ∷ xs) r' = (q : VByteReader) × (next r ≡ ok (x, q)) × Reads q xs r'

-- Between two pairs, and not inside a run of zeros.
pub record IsIdle (r : VByteReader) : Type 0 where
  pub even : r.cnt % 2 ≡ 0
  pub no_run : r.scut_elements ≡ 0

abbrev after_first : VByteReader → ℕ → ℕ → List ℕ → VByteReader
after_first r x y tail = record r {
  rest = to_bytes (ctrl_of y) y ++ tail;
  cnt = u32 (r.cnt + 1);
  ctrl = ctrl_of x + ctrl_of y * 16;
}

next_even : (r : VByteReader) → IsIdle r → next r ≡ read_ctrl (record r { cnt = u32 (r.cnt + 1) })
unfolding next
next_even r idle = ground arith

next_odd :
    (r : VByteReader)
    → r.cnt % 2 ≡ 1
    → r.scut_elements ≡ 0
    → next r ≡ read_value (r.ctrl / 2 ^ 4) (record r { cnt = u32 (r.cnt + 1) })
unfolding next
next_odd r odd no_run = ground arith

pub read_byte :
    (r : VByteReader) (c : ℕ) (bytes : List ℕ) → read_raw 1 (at r (c ∷ bytes)) ≡ ok (c, at r bytes)
unfolding read_raw from_bytes
read_byte r c bytes =
    rw (ltb-false (suc (length bytes)) 1 (omega arith))
      (ap (λ (t : ℕ). ok (t, at r bytes)) (omega arith))

read_ctrl_pair :
    (r : VByteReader) (c : ℕ) (bytes : List ℕ)
    → c < 0xF0
    → read_ctrl (at r (c ∷ bytes)) ≡ read_value (c % 16) (record r { rest = bytes; ctrl = c })
read_ctrl_pair r c bytes h =
    unfold read_ctrl in
    rw (read_byte r c bytes) (rw (ne→== (c / 2 ^ 4) 0xF (omega arith), bit_and_four_bits c) refl)

-- The first value of a pair, with the control byte.
next_first :
    (r : VByteReader) (x y : ℕ) (tail : List ℕ)
    → IsU64 x
    → IsIdle r
    → next (at r (pair_bytes x y ++ tail)) ≡ ok (x, after_first r x y tail)
unfolding pair_bytes
next_first r x y tail hx idle =
    let c = ctrl_of x + ctrl_of y * 16 in
    let counted = record r { cnt = u32 (r.cnt + 1) } in
    next_even (at r (pair_bytes x y ++ tail)) (record { even = idle.even; no_run = idle.no_run })
    ∙ read_ctrl_pair counted c ((to_bytes (ctrl_of x) x ++ to_bytes (ctrl_of y) y) ++ tail)
        (omega (arith, ctrl_of-le x, ctrl_of-le y))
    ∙ rw (low_nibble, append_assoc (to_bytes (ctrl_of x) x) (to_bytes (ctrl_of y) y) tail)
        (read_value-to_bytes (ctrl_of x) x (record counted { ctrl = c })
          (to_bytes (ctrl_of y) y ++ tail) (ctrl_of-le x) (lt-pow-ctrl_of x hx))
  where
    low_nibble : (ctrl_of x + ctrl_of y * 16) % 16 ≡ ctrl_of x
    low_nibble = omega (arith, ctrl_of-le x)

abbrev after_second : VByteReader → ℕ → ℕ → List ℕ → VByteReader
after_second r x y tail = record r {
  rest = tail;
  cnt = u32 (u32 (r.cnt + 1) + 1);
  ctrl = ctrl_of x + ctrl_of y * 16;
}

next_second :
    (r : VByteReader) (x y : ℕ) (tail : List ℕ)
    → IsU64 y
    → IsIdle r
    → next (after_first r x y tail) ≡ ok (y, after_second r x y tail)
next_second r x y tail hy idle =
    next_odd (after_first r x y tail) (omega (arith, idle.even)) idle.no_run
    ∙ rw high_nibble (
        read_value-to_bytes (ctrl_of y) y (after_second r x y tail) tail (ctrl_of-le y)
          (lt-pow-ctrl_of y hy))
  where
    high_nibble : (ctrl_of x + ctrl_of y * 16) / 2 ^ 4 ≡ ctrl_of y
    high_nibble = omega (arith, ctrl_of-le x)

-- Pairs are read back in order, and leave the reader between two pairs.
Reads-pairs_bytes :
    (n : ℕ) (xs : List ℕ) (r : VByteReader) (tail : List ℕ)
    → length xs ≡ 2 * n
    → All IsU64 xs
    → IsIdle r
    → (r' : VByteReader) × Reads (at r (pairs_bytes xs ++ tail)) xs r'
      × IsIdle r'
      × (r'.rest ≡ tail)
unfolding pairs_bytes
Reads-pairs_bytes n [] r tail h all idle =
    (at r tail, refl, record { even = idle.even; no_run = idle.no_run }, refl)
Reads-pairs_bytes n (x ∷ []) r tail h all idle = absurd (omega arith)
Reads-pairs_bytes zero (x ∷ y ∷ xs) r tail h all idle = absurd (omega arith)
Reads-pairs_bytes (suc n) (x ∷ y ∷ xs) r tail h (hx, (hy, all)) idle =
    let more = pairs_bytes xs ++ tail in
    let (r', reads, idle', left) =
      Reads-pairs_bytes n xs (after_second r x y more) tail (omega arith) all
        (record { even = omega (arith, idle.even); no_run = idle.no_run }) in
    (
      r',
      (
        after_first r x y more,
        rw (append_assoc (pair_bytes x y) (pairs_bytes xs) tail) (next_first r x y more hx idle),
        (after_second r x y more, next_second r x y more hy idle, reads),
      ),
      idle',
      left,
    )

-- The reader after the sentinel answers zeros, as many as it has counted down.
Reads-run :
    (n : ℕ) (r : VByteReader)
    → r.ctrl ≡ 0xFF
    → r.scut_elements ≡ n
    → (r' : VByteReader) × Reads r (replicate n 0) r'
      × (r'.cnt % 2 ≡ (r.cnt + n) % 2)
      × (r'.scut_elements ≡ 0)
      × (r'.rest ≡ r.rest)
Reads-run zero r hc hn = (r, refl, omega arith, hn, refl)
Reads-run (suc n) r hc hn =
    let q = record r { cnt = u32 (r.cnt + 1); scut_elements = n } in
    let (r', reads, parity, no_run, left) = Reads-run n q hc refl in
    (r', (q, step, reads), omega arith, no_run, left)
  where
    step : next r ≡ ok (0, record r { cnt = u32 (r.cnt + 1); scut_elements = n })
    step = unfold next in ground arith

all_zero→replicate : (xs : List ℕ) → all_zero xs ≡ true → xs ≡ replicate (length xs) 0
unfolding all_zero
all_zero→replicate [] h = refl
all_zero→replicate (x ∷ xs) h = ground (arith, all_zero→replicate xs)

next_sentinel :
    (r : VByteReader) (tail : List ℕ)
    → IsIdle r
    → next (at r (0xFF ∷ tail))
      ≡ ok (0, record r { rest = tail; cnt = u32 (r.cnt + 1); ctrl = 0xFF; scut_elements = 15 })
next_sentinel r tail idle =
    next_even (at r (0xFF ∷ tail)) (record { even = idle.even; no_run = idle.no_run })
    ∙ unfold read_ctrl in rw (read_byte (record r { cnt = u32 (r.cnt + 1) }) 0xFF tail) refl

-- What `tput` appends for a chunk of sixteen words is read back by sixteen calls of `next`, which
-- leave the bytes behind it and a reader that is ready for the next chunk.
pub Reads-chunk_bytes :
    (xs : List ℕ) (r : VByteReader) (tail : List ℕ)
    → length xs ≡ 16
    → All IsU64 xs
    → IsIdle r
    → (r' : VByteReader) × Reads (at r (chunk_bytes xs ++ tail)) xs r'
      × IsIdle r'
      × (r'.rest ≡ tail)
unfolding chunk_bytes
Reads-chunk_bytes xs r tail h all idle = elim (Bool-cases (all_zero xs)) [
  | inr mixed ↦ rw mixed (Reads-pairs_bytes 8 xs r tail h all idle)
  | inl zeros ↦
      let q = record r { rest = tail; cnt = u32 (r.cnt + 1); ctrl = 0xFF; scut_elements = 15 } in
      let (r', reads, parity, no_run, left) = Reads-run 15 q refl refl in
      rw (zeros, all_zero→replicate xs zeros, h)
        (
          r',
          (q, next_sentinel r tail idle, reads),
          record { even = omega (arith, idle.even); no_run = no_run },
          left,
        )
]
