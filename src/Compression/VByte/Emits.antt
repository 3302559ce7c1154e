-- ===== src/Compression/VByte/Emits.antt =====
-- Writing that either appends fixed bytes or reports that they do not fit.
use akumuli.Base.{
  ℕ, ◌≤◌, ◌<◌, ◌≡◌, refl, ap, ◌∙◌, arith, List, ◌++◌, length, length-append, ltb, ltb-false, lt→ltb,
  Bool, true, false, if◌then◌else◌, Bool-cases, inl, inr, ltb→lt, ltb→le,
}
use akumuli.Base.Words.{to_bytes, length-to_bytes}
use akumuli.Compression.VByte.Writer.{VByteWriter, append, space_left, put_raw, and_then}
use akumuli.Compression.VByte.Writes.{append_twice}

pub record Emits (f : VByteWriter → VByteWriter × Bool) (bytes : List ℕ) : Type 0 where
  pub fits : (w : VByteWriter) → length bytes ≤ space_left w → f w ≡ (append w bytes, true)
  pub full : (w : VByteWriter) → space_left w < length bytes → (f w).1 ≡ false

pub put_raw-Emits : (n v : ℕ) → Emits (λ w. put_raw n w v) (to_bytes n v)
unfolding put_raw
put_raw-Emits n v = record {
  fits = λ w room. rw (ltb-false (space_left w) n (omega (arith, length-to_bytes n v))) refl;
  full = λ w none_left. rw (lt→ltb (space_left w) n (omega (arith, length-to_bytes n v))) refl;
}

-- One after the other.
pub and_then-Emits :
    (f g : VByteWriter → VByteWriter × Bool) (xs ys : List ℕ)
    → Emits f xs
    → Emits g ys
    → Emits (and_then f g) (xs ++ ys)
unfolding and_then
and_then-Emits f g xs ys ef eg = record {
  fits = λ w room.
      let first = ef.fits w (omega (arith, length-append xs ys)) in
      let second =
        eg.fits (append w xs) (omega (arith, length-append xs ys, length-append w.out xs)) in
      after_first w true first
      ∙ second
      ∙ ap (λ (t : VByteWriter). (t, true)) (append_twice w xs ys);
  full = λ w none_left. elim (Bool-cases (ltb (space_left w) (length xs))) [
    | inl no_room ↦ stops w (ef.full w (ltb→lt _ _ no_room))
    | inr room ↦
        ap (λ (r : VByteWriter × Bool). r.1) (after_first w true (ef.fits w (ltb→le _ _ room)))
        ∙ eg.full (append w xs)
            (omega (arith, length-append xs ys, length-append w.out xs, ltb→le _ _ room))
  ];
}
  where
    after_first :
        (w : VByteWriter) (b : Bool)
        → f w ≡ (append w xs, b)
        → and_then f g w ≡ (if b then g (append w xs) else (append w xs, false))
    after_first w b e = ap (λ (r : VByteWriter × Bool). if r.1 then g r.0 else (r.0, false)) e

    stops : (w : VByteWriter) → (f w).1 ≡ false → (and_then f g w).1 ≡ false
    stops w e = rw e refl

-- From the answer `true` back to the bytes.
pub Emits-true :
    (f : VByteWriter → VByteWriter × Bool) (bytes : List ℕ) (w w' : VByteWriter)
    → Emits f bytes
    → f w ≡ (w', true)
    → w' ≡ append w bytes
Emits-true f bytes w w' em e = elim (Bool-cases (ltb (space_left w) (length bytes))) [
  | inl no_room ↦ cc (em.full w (ltb→lt _ _ no_room))
  | inr room ↦ cc (em.fits w (ltb→le _ _ room))
]
