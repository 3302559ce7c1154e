-- ===== src/Compression/VByte/Writes.antt =====
-- What each writing operation of VByteStreamWriter appends, and that a failed `tput` changes nothing.
use akumuli.Base.{
  ℕ, zero, suc, ◌+◌, ◌-◌, ◌*◌, ◌/◌, ◌^◌, ◌≤◌, ◌<◌, ◌≡◌, refl, ap, ◌∙◌, sym, arith, List, [], ◌∷◌,
  ◌++◌, length, length-append, if◌then◌else◌, ltb, ltb-false, lt→ltb, Bool, true, false, Bool-cases,
  inl, inr, ◌⊎◌, append_assoc, append-nil, take, take-append, bit_or, none, some,
}
use akumuli.Base.Bits.{bit_or_fields}
use akumuli.Base.Words.{to_bytes, u8}
use akumuli.Compression.VByte.Writer.{
  VByteWriter, append, space_left, write_bytes, ctrl_of, encode, encode_pairs, all_zero, shortcut,
  tput, put_base128, put_raw,
}
use akumuli.Compression.Base128
use akumuli.Compression.VByte.Bytes.{
  pair_bytes, pairs_bytes, chunk_bytes, ctrl_of-le, length-pair_bytes,
}

write_bytes_lem : (w : VByteWriter) (n v : ℕ) → write_bytes w n v ≡ append w (to_bytes n v)
unfolding write_bytes to_bytes
write_bytes_lem w zero v = ap (λ (t : List ℕ). record w { out = t }) (sym (append-nil w.out))
write_bytes_lem w (suc n) v =
    write_bytes_lem (append w (u8 v ∷ [])) n (v / 2 ^ 8)
    ∙ ap (λ (t : List ℕ). record w { out = t })
        (append_assoc w.out (u8 v ∷ []) (to_bytes n (v / 256)))

ctrlword_sum : (a b : ℕ) → a ≤ 8 → b ≤ 8 → u8 (bit_or a (b * 2 ^ 4)) ≡ a + b * 16
ctrlword_sum a b p q = omega (arith, bit_or_fields 4 a b (omega arith))

pub append_twice :
    (w : VByteWriter) (xs ys : List ℕ) → append (append w xs) ys ≡ append w (xs ++ ys)
append_twice w xs ys = ap (λ (t : List ℕ). record w { out = t }) (append_assoc w.out xs ys)

pair_written :
    (w : VByteWriter) (x y : ℕ)
    → write_bytes
        (write_bytes (append w (u8 (bit_or (ctrl_of x) (ctrl_of y * 2 ^ 4)) ∷ [])) (ctrl_of x) x)
        (ctrl_of y)
        y
      ≡ append w (pair_bytes x y)
unfolding pair_bytes
pair_written w x y =
    write_bytes_lem _ (ctrl_of y) y
    ∙ ap (λ (t : VByteWriter). append t (to_bytes (ctrl_of y) y)) (write_bytes_lem _ (ctrl_of x) x)
    ∙ append_twice (append w (u8 (bit_or (ctrl_of x) (ctrl_of y * 2 ^ 4)) ∷ []))
        (to_bytes (ctrl_of x) x) (to_bytes (ctrl_of y) y)
    ∙ append_twice w (u8 (bit_or (ctrl_of x) (ctrl_of y * 2 ^ 4)) ∷ [])
        (to_bytes (ctrl_of x) x ++ to_bytes (ctrl_of y) y)
    ∙ ap (λ (c : ℕ). append w (c ∷ (to_bytes (ctrl_of x) x ++ to_bytes (ctrl_of y) y)))
        (ctrlword_sum (ctrl_of x) (ctrl_of y) (ctrl_of-le x) (ctrl_of-le y))

-- `encode` appends one pair, or refuses and leaves the stream alone.
pub encode_lem :
    (w : VByteWriter) (x y : ℕ)
    → encode w x y ≡ (
        if ltb (space_left w) (length (pair_bytes x y))
        then (w, false)
        else (append w (pair_bytes x y), true))
encode_lem w x y = rw (length-pair_bytes, ← pair_written w x y) (unfold encode in refl)

space_left-append :
    (w : VByteWriter) (xs : List ℕ) → space_left (append w xs) ≡ space_left w - length xs
space_left-append w xs = omega (arith, length-append w.out xs)

encode_pairs_full :
    (w : VByteWriter) (x y : ℕ) (xs : List ℕ)
    → ltb (space_left w) (length (pair_bytes x y)) ≡ true
    → encode_pairs w (x ∷ y ∷ xs) ≡ (w, false)
unfolding encode_pairs
encode_pairs_full w x y xs full =
    let e : encode w x y ≡ (w, false) = encode_lem w x y ∙ rw full refl in
    ap (λ (r : VByteWriter × Bool). elim r.1 [ true ↦ encode_pairs r.0 xs | false ↦ (r.0, false) ])
      e

encode_pairs_step :
    (w : VByteWriter) (x y : ℕ) (xs : List ℕ)
    → ltb (space_left w) (length (pair_bytes x y)) ≡ false
    → encode_pairs w (x ∷ y ∷ xs) ≡ encode_pairs (append w (pair_bytes x y)) xs
unfolding encode_pairs
encode_pairs_step w x y xs room =
    let e : encode w x y ≡ (append w (pair_bytes x y), true) = encode_lem w x y ∙ rw room refl in
    ap (λ (r : VByteWriter × Bool). elim r.1 [ true ↦ encode_pairs r.0 xs | false ↦ (r.0, false) ])
      e

-- The loop over the pairs writes them all if they fit, and otherwise stops behind some of them.
encode_pairs_cases :
    (xs : List ℕ) (w : VByteWriter)
    → ((length (pairs_bytes xs) ≤ space_left w)
        × (encode_pairs w xs ≡ (append w (pairs_bytes xs), true)))
      ⊎ ((space_left w < length (pairs_bytes xs))
          × (done : List ℕ) × (encode_pairs w xs ≡ (append w done, false)))
unfolding pairs_bytes
encode_pairs_cases [] w = inl (
  omega arith,
  unfold encode_pairs in ap (λ (t : List ℕ). (record w { out = t }, true)) (sym (append-nil w.out)),
)
encode_pairs_cases (x ∷ []) w = inl (
  omega arith,
  unfold encode_pairs in ap (λ (t : List ℕ). (record w { out = t }, true)) (sym (append-nil w.out)),
)
encode_pairs_cases (x ∷ y ∷ xs) w =
    let total = length-append (pair_bytes x y) (pairs_bytes xs) in
    let positive = length-pair_bytes x y in
    elim (Bool-cases (ltb (space_left w) (length (pair_bytes x y)))) [
      | inl full ↦ inr (
        ground (arith, total),
        [],
        encode_pairs_full w x y xs full
            ∙ (ap (λ (t : List ℕ). (record w { out = t }, false)) (sym (append-nil w.out))),
      )
      | inr room ↦
          let left = space_left-append w (pair_bytes x y) in
          elim (encode_pairs_cases xs (append w (pair_bytes x y))) [
            | inl (fits, e) ↦ inl (
              ground (arith, total, left),
              encode_pairs_step w x y xs room
                  ∙ e
                  ∙ ap (λ (t : VByteWriter). (t, true)) (append_twice w _ _),
            )
            | inr (full, done, e) ↦ inr (
              ground (arith, total, left),
              pair_bytes x y ++ done,
              encode_pairs_step w x y xs room
                  ∙ e
                  ∙ ap (λ (t : VByteWriter). (t, false)) (append_twice w _ _),
            )
          ]
    ]

-- What `tput` makes of the answer of the loop over the pairs.
abbrev settle : VByteWriter → VByteWriter × Bool → VByteWriter × Bool
settle w r = if r.1 then (r.0, true) else (record r.0 { out = take (length w.out) r.0.out }, false)

tput_mixed :
    (w : VByteWriter) (xs : List ℕ) → all_zero xs ≡ false → tput w xs ≡ settle w (encode_pairs w xs)
unfolding tput
tput_mixed w xs mixed = rw mixed refl

-- `tput` appends the chunk's encoding, or refuses and leaves the stream as it was: a partly written
-- chunk is taken back.
pub tput_lem :
    (w : VByteWriter) (xs : List ℕ)
    → tput w xs ≡ (
        if ltb (space_left w) (length (chunk_bytes xs))
        then (w, false)
        else (append w (chunk_bytes xs), true))
unfolding chunk_bytes
tput_lem w xs = elim (Bool-cases (all_zero xs)) [
  | inl zeros ↦ unfold tput shortcut in rw zeros (ground arith)
  | inr mixed ↦
      rw (tput_mixed w xs mixed, mixed)
        (elim (encode_pairs_cases xs w) [
          | inl (fits, e) ↦ ap (settle w) e ∙ rw (ltb-false _ _ fits) refl
          | inr (full, done, e) ↦
              ap (settle w) e
              ∙ rw (lt→ltb _ _ full) (
                  ap (λ (t : List ℕ). (record w { out = t }, false))
                    (take-append (length w.out) w.out done refl))
        ])
]

pub put_base128-none :
    (w : VByteWriter) (v : ℕ) → Base128.put (space_left w) v ≡ none → put_base128 w v ≡ (w, false)
unfolding put_base128
put_base128-none w v e = rw (e, put_base128) refl

pub put_base128-some :
    (w : VByteWriter) (v : ℕ) (bytes : List ℕ)
    → Base128.put (space_left w) v ≡ some bytes
    → put_base128 w v ≡ (append w bytes, true)
unfolding put_base128
put_base128-some w v bytes e = rw (e, put_base128) refl

pub put_raw_fits :
    (n : ℕ) (w : VByteWriter) (v : ℕ)
    → n ≤ space_left w
    → put_raw n w v ≡ (append w (to_bytes n v), true)
unfolding put_raw
put_raw_fits n w v h = rw (ltb-false (space_left w) n h) refl

pub put_raw_full : (n : ℕ) (w : VByteWriter) (v : ℕ) → space_left w < n → put_raw n w v ≡ (w, false)
unfolding put_raw
put_raw_full n w v h = rw (lt→ltb (space_left w) n h) refl
