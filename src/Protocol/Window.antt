-- ===== src/Protocol/Window.antt =====
-- A part of a buffer, from a read position to an end, as a list of bytes.
use akumuli.Base.{
  ℕ, zero, suc, ◌+◌, ◌-◌, ◌≤◌, ◌<◌, ◌≡◌, ◌≢◌, refl, ap, sym, ◌∙◌, arith, none, some, List, [], ◌∷◌,
  ◌++◌, length, take, drop, get_or, All, length-drop, length-take, ne→==, take-append, splice,
  take_short, drop_left,
}
use akumuli.Protocol.ByteStream.{find_line}

abbrev pub window : List ℕ → ℕ → ℕ → List ℕ
window buf pos stop = take (stop - pos) (drop pos buf)

pub length-window :
    (buf : List ℕ) (pos stop : ℕ)
    → pos ≤ stop
    → stop ≤ length buf
    → length (window buf pos stop) ≡ stop - pos
length-window buf pos stop h k =
    length-take (stop - pos) (drop pos buf) (omega (arith, length-drop pos buf))

pub drop-drop : (m n : ℕ) (xs : List ℕ) → drop (m + n) xs ≡ drop n (drop m xs)
drop-drop zero n xs = ap (λ (k : ℕ). drop k xs) (omega arith)
drop-drop (suc m) n [] =
    ap (λ (k : ℕ). drop {A = ℕ} k []) up ∙ drop-nil (suc (m + n)) ∙ sym (drop-nil n)
  where
    up : suc m + n ≡ suc (m + n)
    up = omega arith

    drop-nil : (k : ℕ) → drop {A = ℕ} k [] ≡ []
    drop-nil zero = refl
    drop-nil (suc k) = refl
drop-drop (suc m) n (x ∷ xs) = ap (λ (k : ℕ). drop k (x ∷ xs)) up ∙ drop-drop m n xs
  where
    up : suc m + n ≡ suc (m + n)
    up = omega arith

-- What is behind the first bytes of a list, and what they are.
take-first : (n : ℕ) (zs xs ys : List ℕ) → take n zs ≡ xs ++ ys → take (length xs) zs ≡ xs
take-first n zs [] ys e = refl
take-first zero zs (x ∷ xs) ys e = cc
take-first (suc n) [] (x ∷ xs) ys e = cc
take-first (suc n) (z ∷ zs) (x ∷ xs) ys e =
    let same : z ≡ x = cc in
    let rest : take n zs ≡ xs ++ ys = cc in
    rw same (ap (λ (t : List ℕ). x ∷ t) (take-first n zs xs ys rest))

take-behind :
    (n : ℕ) (zs xs ys : List ℕ)
    → take n zs ≡ xs ++ ys
    → take (n - length xs) (drop (length xs) zs) ≡ ys
take-behind n zs [] ys e = ap (λ (k : ℕ). take k zs) (omega arith) ∙ e
take-behind zero zs (x ∷ xs) ys e = cc
take-behind (suc n) [] (x ∷ xs) ys e = cc
take-behind (suc n) (z ∷ zs) (x ∷ xs) ys e =
    let rest : take n zs ≡ xs ++ ys = cc in
    ap (λ (k : ℕ). take k (drop (length xs) zs)) (omega arith) ∙ take-behind n zs xs ys rest

-- The window behind its first bytes.
pub window_behind :
    (buf : List ℕ) (pos stop : ℕ) (xs ys : List ℕ)
    → window buf pos stop ≡ xs ++ ys
    → window buf (pos + length xs) stop ≡ ys
window_behind buf pos stop xs ys e =
    ap (λ (t : List ℕ). take (stop - (pos + length xs)) t) (drop-drop pos (length xs) buf)
    ∙ ap (λ (k : ℕ). take k (drop (length xs) (drop pos buf))) (omega arith)
    ∙ take-behind (stop - pos) (drop pos buf) xs ys e

pub window_first :
    (buf : List ℕ) (pos stop : ℕ) (xs ys : List ℕ)
    → window buf pos stop ≡ xs ++ ys
    → take (length xs) (drop pos buf) ≡ xs
window_first buf pos stop xs ys e = take-first (stop - pos) (drop pos buf) xs ys e

-- The byte at the read position.
pub get_or-window :
    (buf : List ℕ) (pos stop c : ℕ) (cs : List ℕ)
    → window buf pos stop ≡ c ∷ cs
    → get_or buf pos 0 ≡ c
get_or-window buf zero stop c cs e = first buf (stop - zero) e
  where
    first : (buf : List ℕ) (n : ℕ) → take n buf ≡ c ∷ cs → get_or buf 0 0 ≡ c
    first buf zero e = cc
    first [] (suc n) e = cc
    first (b ∷ buf) (suc n) e = cc
get_or-window [] (suc pos) stop c cs e = empty (stop - suc pos) e
  where
    empty : (n : ℕ) → take {A = ℕ} n [] ≡ c ∷ cs → 0 ≡ c
    empty zero e = cc
    empty (suc n) e = cc
get_or-window (b ∷ buf) (suc pos) stop c cs e =
    get_or-window buf pos (stop - 1) c cs (ap (λ (k : ℕ). take k (drop pos buf)) (omega arith) ∙ e)

take-take : (n m : ℕ) (xs : List ℕ) → n ≤ m → take n (take m xs) ≡ take n xs
take-take zero m xs h = refl
take-take (suc n) zero xs h = absurd (omega (arith, h))
take-take (suc n) (suc m) [] h = refl
take-take (suc n) (suc m) (x ∷ xs) h =
    ap (λ (t : List ℕ). x ∷ t) (take-take n m xs (omega (arith, h)))

-- The first bytes of a window.
pub take-window :
    (buf : List ℕ) (start stop n : ℕ)
    → n ≤ stop - start
    → take n (window buf start stop) ≡ take n (drop start buf)
take-window buf start stop n h = take-take n (stop - start) (drop start buf) h

-- The first end of line, where it is and where it is not.
pub find_line-there :
    (n m : ℕ) (zs xs ys : List ℕ)
    → take m zs ≡ xs ++ 10 ∷ ys
    → All (λ (c : ℕ). c ≢ 10) xs
    → length xs < n
    → find_line n zs ≡ some (suc (length xs))
unfolding find_line
find_line-there zero m zs xs ys e h lt = absurd (omega (arith, lt))
find_line-there (suc n) zero zs [] ys e h lt = cc
find_line-there (suc n) zero zs (x ∷ xs) ys e h lt = cc
find_line-there (suc n) (suc m) [] [] ys e h lt = cc
find_line-there (suc n) (suc m) [] (x ∷ xs) ys e h lt = cc
find_line-there (suc n) (suc m) (z ∷ zs) [] ys e h lt = let same : z ≡ 10 = cc in rw same refl
find_line-there (suc n) (suc m) (z ∷ zs) (x ∷ xs) ys e h lt =
    let same : z ≡ x = cc in
    let rest : take m zs ≡ xs ++ 10 ∷ ys = cc in
    rw (same, ne→== x 10 h.0, find_line-there n m zs xs ys rest h.1 (omega (arith, lt))) refl

pub find_line-not_there :
    (n : ℕ) (zs : List ℕ) → All (λ (c : ℕ). c ≢ 10) (take n zs) → find_line n zs ≡ none
unfolding find_line
find_line-not_there zero zs h = refl
find_line-not_there (suc n) [] h = refl
find_line-not_there (suc n) (z ∷ zs) h = rw (ne→== z 10 h.0, find_line-not_there n zs h.1) refl

-- More bytes behind a buffer are not in the window.
pub window-append :
    (buf zs : List ℕ) (pos stop : ℕ)
    → pos ≤ stop
    → stop ≤ length buf
    → window (buf ++ zs) pos stop ≡ window buf pos stop
window-append buf zs pos stop h k =
    ap (λ (t : List ℕ). take (stop - pos) t) (drop_left pos buf zs (omega (arith, h, k)))
    ∙ take_short (stop - pos) (drop pos buf) zs (omega (arith, length-drop pos buf, k))

-- A window in a buffer without its first bytes.
pub window-drop :
    (buf : List ℕ) (n pos stop : ℕ)
    → n ≤ pos
    → pos ≤ stop
    → window (drop n buf) (pos - n) (stop - n) ≡ window buf pos stop
window-drop buf n pos stop h k =
    let size : stop - n - (pos - n) ≡ stop - pos = omega (arith, h, k) in
    let at : n + (pos - n) ≡ pos = omega (arith, h) in
    ap (λ (m : ℕ). take m (drop (pos - n) (drop n buf))) size
    ∙ ap (λ (t : List ℕ). take (stop - pos) t)
        (sym (drop-drop n (pos - n) buf) ∙ ap (λ (m : ℕ). drop m buf) at)

drop-take : (r w : ℕ) (xs : List ℕ) → r ≤ w → drop r (take w xs) ≡ take (w - r) (drop r xs)
drop-take zero w xs h = ap (λ (k : ℕ). take k xs) (omega arith)
drop-take (suc r) zero xs h = absurd (omega (arith, h))
drop-take (suc r) (suc w) [] h = sym (take-nil (suc w - suc r))
  where
    take-nil : (k : ℕ) → take {A = ℕ} k [] ≡ []
    take-nil zero = refl
    take-nil (suc k) = refl
drop-take (suc r) (suc w) (x ∷ xs) h =
    drop-take r w xs (omega (arith, h)) ∙ ap (λ (k : ℕ). take k (drop r xs)) (omega arith)

take-past : (n : ℕ) (xs ys : List ℕ) → take (length xs + n) (xs ++ ys) ≡ xs ++ take n ys
take-past n [] ys = ap (λ (k : ℕ). take k ys) (omega arith)
take-past n (x ∷ xs) ys =
    let up : suc (length xs) + n ≡ suc (length xs + n) = omega arith in
    ap (λ (k : ℕ). take k (x ∷ (xs ++ ys))) up ∙ ap (λ (t : List ℕ). x ∷ t) (take-past n xs ys)

-- Bytes written behind a window make it longer.
pub window-splice :
    (buf : List ℕ) (pos stop : ℕ) (bytes : List ℕ)
    → pos ≤ stop
    → stop + length bytes ≤ length buf
    → window (splice buf stop bytes) pos (stop + length bytes) ≡ window buf pos stop ++ bytes
unfolding splice
window-splice buf pos stop bytes h k =
    let rest = drop (stop + length bytes) buf in
    let front = take stop buf in
    let len : length front ≡ stop = length-take stop buf (omega (arith, k)) in
    let size : stop + length bytes - pos ≡ length (drop pos front) + length bytes =
      omega (arith, length-drop pos front, len, h) in
    ap (λ (t : List ℕ). take (stop + length bytes - pos) t)
      (drop_left pos front (bytes ++ rest) (omega (arith, len, h)))
    ∙ ap (λ (m : ℕ). take m (drop pos front ++ (bytes ++ rest))) size
    ∙ take-past (length bytes) (drop pos front) (bytes ++ rest)
    ∙ ap (λ (t : List ℕ). drop pos front ++ t) (take-append (length bytes) bytes rest refl)
    ∙ ap (λ (t : List ℕ). t ++ bytes) (drop-take pos stop buf h)
