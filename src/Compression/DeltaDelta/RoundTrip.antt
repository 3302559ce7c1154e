-- ===== src/Compression/DeltaDelta/RoundTrip.antt =====
-- What `DeltaDelta.tput` writes for a chunk, sixteen calls of `DeltaDelta.next` read back.
use akumuli.Base.{
  ℕ, suc, ◌+◌, ◌%◌, ◌≤◌, ◌<◌, min, ◌≡◌, refl, ap, subst, ◌∙◌, sym, arith, List, [], ◌∷◌, ◌++◌, map,
  length, length-append, if◌then◌else◌, ltb, ltb-false, Bool, true, false, Bool-cases, inl, inr,
  append_assoc, All, get_or, some, Option-cases,
}
use akumuli.Base.Words.{IsU64, u64, sub64}
use akumuli.Base.Outcome.{ok}
use akumuli.Compression.Base128
use akumuli.Compression.Base128.RoundTrip.{get-put, put_fits}
use akumuli.Compression.VByte.Writer
use akumuli.Compression.VByte.Writer.{VByteWriter, append, space_left}
use akumuli.Compression.VByte.Writes.{tput_lem, put_base128-none, put_base128-some}
use akumuli.Compression.VByte.Reader
use akumuli.Compression.VByte.Reader.{VByteReader}
use akumuli.Compression.VByte.Bytes.{chunk_bytes, length-chunk_bytes}
use akumuli.Compression.VByte.RoundTrip.{at, Reads, IsIdle, Reads-chunk_bytes}
use akumuli.Compression.DeltaDelta.{DeltaWriter, DeltaReader, delta_loop, tput, read_least, next}

unfoldable pub last_or : ℕ → List ℕ → ℕ
last_or p [] = p
last_or p (x ∷ xs) = last_or x xs

-- Differences, each from the value before it, less the smallest of them.
deltas : ℕ → ℕ → List ℕ → List ℕ
deltas least p [] = []
deltas least p (x ∷ xs) = sub64 (sub64 x p) least ∷ deltas least x xs

length-deltas : (least p : ℕ) (xs : List ℕ) → length (deltas least p xs) ≡ length xs
unfolding deltas
length-deltas least p [] = refl
length-deltas least p (x ∷ xs) = ap suc (length-deltas least x xs)

deltas-IsU64 : (least p : ℕ) (xs : List ℕ) → All IsU64 (deltas least p xs)
unfolding deltas
deltas-IsU64 least p [] = tt
deltas-IsU64 least p (x ∷ xs) = (omega arith, deltas-IsU64 least x xs)

-- The loop leaves the last value, a word, and the differences.
delta_loop_result :
    (p least : ℕ) (xs : List ℕ)
    → IsU64 least
    → ((delta_loop p least xs).0 ≡ last_or p xs)
      × IsU64 (delta_loop p least xs).1
      × ((m : ℕ) → map (λ r. sub64 r m) (delta_loop p least xs).2 ≡ deltas m p xs)
unfolding delta_loop deltas last_or
delta_loop_result p least [] h = (refl, h, λ m. refl)
delta_loop_result p least (x ∷ xs) h =
    let (last, word, rest) = delta_loop_result x (min (sub64 x p) least) xs (omega arith) in
    (last, word, λ m. ap (◌∷◌ (sub64 (sub64 x p) m)) (rest m))

-- Reads `xs` in order: what each call of `next` returns.
abbrev pub DeltaReads : DeltaReader → VByteReader → List ℕ → DeltaReader → VByteReader → Type 0
DeltaReads d r [] d' r' = (d ≡ d') × (r ≡ r')
DeltaReads d r (x ∷ xs) d' r' =
    (e : DeltaReader) × (q : VByteReader) × (next d r ≡ ok (x, e, q)) × DeltaReads e q xs d' r'

restore :
    (x p least : ℕ)
    → IsU64 x
    → IsU64 p
    → IsU64 least
    → u64 (u64 (p + sub64 (sub64 x p) least) + least) ≡ x
restore x p least hx hp hl = omega arith

-- `next` once the smallest difference is known.
next_value :
    (d : DeltaReader) (r s q : VByteReader) (x least : ℕ)
    → IsU64 x
    → IsU64 d.prev
    → IsU64 least
    → read_least d r ≡ ok (least, s)
    → Reader.next s ≡ ok (sub64 (sub64 x d.prev) least, q)
    → next d r ≡ ok (x, record { prev = x; least = least; counter = d.counter + 1 }, q)
unfolding next
next_value d r s q x least hx hp hl e n = rw (e, n, restore x d.prev least hx hp hl) refl

abbrev reader : ℕ → ℕ → ℕ → DeltaReader
reader p least n = record { prev = p; least = least; counter = n }

-- Within a chunk the smallest difference is not read again.
read_least_inside :
    (c p least n : ℕ) (r : VByteReader)
    → c % 16 ≡ 0
    → c < n
    → n < c + 16
    → read_least (reader p least n) r ≡ ok (least, r)
unfolding read_least
read_least_inside c p least n r start below above = ground arith

-- The rest of a chunk that began at the count `c`.
DeltaReads-tail :
    (xs : List ℕ) (c p least n : ℕ) (r r' : VByteReader)
    → All IsU64 xs
    → IsU64 p
    → IsU64 least
    → c % 16 ≡ 0
    → c < n
    → n + length xs ≡ c + 16
    → Reads r (deltas least p xs) r'
    → DeltaReads (reader p least n) r xs (reader (last_or p xs) least (c + 16)) r'
unfolding deltas last_or
DeltaReads-tail [] c p least n r r' all hp hl start below count reads =
    (ap (reader p least) (omega arith), reads)
DeltaReads-tail (x ∷ xs) c p least n r r' (hx, all) hp hl start below count (q, e, reads) = (
  reader x least (n + 1),
  q,
  next_value (reader p least n) r r q x least hx hp hl
      (read_least_inside c p least n r start below (omega arith)) e,
  DeltaReads-tail xs c x least (n + 1) q r' all hx hl start (omega arith) (omega arith) reads,
)

-- Between two chunks.
abbrev pub AtChunk : DeltaReader → Type 0
AtChunk d = d.counter % 16 ≡ 0

next_base128_lem :
    (space v : ℕ) (bytes tail : List ℕ) (r : VByteReader)
    → IsU64 v
    → Base128.put space v ≡ some bytes
    → Reader.next_base128 (at r (bytes ++ tail)) ≡ ok (v, at r tail)
next_base128_lem space v bytes tail r h e =
    unfold Reader.next_base128 in rw (get-put space v bytes tail h e) refl

-- A whole chunk: the smallest difference, then the differences.
DeltaReads-chunk :
    (xs : List ℕ) (d : DeltaReader) (least space : ℕ) (bytes tail : List ℕ) (r : VByteReader)
    → length xs ≡ 16
    → All IsU64 xs
    → IsU64 d.prev
    → IsU64 least
    → AtChunk d
    → IsIdle r
    → Base128.put space least ≡ some bytes
    → (r' : VByteReader) × DeltaReads d
        (at r ((bytes ++ chunk_bytes (deltas least d.prev xs)) ++ tail))
        xs
        (reader (last_or d.prev xs) least (d.counter + 16))
        r'
      × IsIdle r'
      × (r'.rest ≡ tail)
unfolding deltas last_or
DeltaReads-chunk [] d least space bytes tail r h all hp hl start idle e = absurd (omega arith)
DeltaReads-chunk (x ∷ xs) d least space bytes tail r h (hx, all) hp hl start idle e =
    let ds = deltas least d.prev (x ∷ xs) in
    let (r', (q, n, reads), idle', left) =
      Reads-chunk_bytes ds r tail (length-deltas least d.prev (x ∷ xs) ∙ h)
        (deltas-IsU64 least d.prev (x ∷ xs)) idle in
    (
      r',
      (
        reader x least (d.counter + 1),
        q,
        rw (append_assoc bytes (chunk_bytes ds) tail) (
            next_value d (at r (bytes ++ (chunk_bytes ds ++ tail))) (at r (chunk_bytes ds ++ tail))
              q x least hx hp hl
              (unfold read_least in
                rw (start) (next_base128_lem space least bytes (chunk_bytes ds ++ tail) r hl e))
              n),
        DeltaReads-tail xs d.counter x least (d.counter + 1) q r' all hx hl start (omega arith)
            (omega arith) reads,
      ),
      idle',
      left,
    )

-- The smallest difference that `tput` writes, and the codec that it leaves.
least_of : DeltaWriter → List ℕ → ℕ
least_of d xs = (delta_loop d.prev (sub64 (get_or xs 0 0) d.prev) xs).1

least_of-IsU64 : (d : DeltaWriter) (xs : List ℕ) → IsU64 (least_of d xs)
unfolding least_of
least_of-IsU64 d xs = (delta_loop_result d.prev (sub64 (get_or xs 0 0) d.prev) xs (omega arith)).1

abbrev advanced : DeltaWriter → List ℕ → DeltaWriter
advanced d xs = record d { prev = last_or d.prev xs }

-- What `tput` makes of the answer of `put_base128`.
abbrev continue : DeltaWriter → List ℕ → VByteWriter × Bool → DeltaWriter × VByteWriter × Bool
continue d ds r =
    if r.1 then (d, (Writer.tput r.0 ds).0, (Writer.tput r.0 ds).1) else (d, r.0, false)

tput-continue :
    (d : DeltaWriter) (w : VByteWriter) (xs : List ℕ)
    → tput d w xs
      ≡ continue
          (advanced d xs)
          (deltas (least_of d xs) d.prev xs)
          (Writer.put_base128 w (least_of d xs))
unfolding tput least_of
tput-continue d w xs =
    let (last, word, out) =
      delta_loop_result d.prev (sub64 (get_or xs 0 0) d.prev) xs (omega arith) in
    rw (last, out (delta_loop d.prev (sub64 (get_or xs 0 0) d.prev) xs).1) refl

-- `xs` can be read back from `bytes`, by a reader that has followed the writer up to here.
abbrev pub Decodes : DeltaWriter → List ℕ → List ℕ → Type 0
Decodes d bytes xs =
    (dr : DeltaReader) (r : VByteReader) (tail : List ℕ)
    → dr.prev ≡ d.prev
    → AtChunk dr
    → IsIdle r
    → (dr' : DeltaReader) × (r' : VByteReader) × DeltaReads dr (at r (bytes ++ tail)) xs dr' r'
      × (dr'.prev ≡ last_or d.prev xs)
      × AtChunk dr'
      × IsIdle r'
      × (r'.rest ≡ tail)

tput_Decodes :
    (d : DeltaWriter) (xs : List ℕ) (space : ℕ) (b : List ℕ)
    → length xs ≡ 16
    → All IsU64 xs
    → IsU64 d.prev
    → Base128.put space (least_of d xs) ≡ some b
    → Decodes d (b ++ chunk_bytes (deltas (least_of d xs) d.prev xs)) xs
tput_Decodes d xs space b h all hp e dr r tail follows start idle =
    let least = least_of d xs in
    let (r', reads, idle', left) =
      DeltaReads-chunk xs dr least space b tail r h all (rw follows hp) (least_of-IsU64 d xs) start
        idle e in
    (
      reader (last_or dr.prev xs) least (dr.counter + 16),
      r',
      subst
          (λ t.
            DeltaReads dr (at r ((b ++ chunk_bytes (deltas least t xs)) ++ tail)) xs
              (reader (last_or dr.prev xs) least (dr.counter + 16)) r')
          follows reads,
      ap (λ (t : ℕ). last_or t xs) follows,
      omega arith,
      idle',
      left,
    )

pair_if :
    (d : DeltaWriter) (t : Bool) (r s : VByteWriter × Bool)
    → ◌≡◌ {A = DeltaWriter × VByteWriter × Bool}
        (
          d,
          (if◌then◌else◌ {A = VByteWriter × Bool} t r s).0,
          (if◌then◌else◌ {A = VByteWriter × Bool} t r s).1,
        )
        (if t then (d, r.0, r.1) else (d, s.0, s.1))
pair_if d true r s = refl
pair_if d false r s = refl

chunk_written :
    (d : DeltaWriter) (w : VByteWriter) (xs b : List ℕ)
    → Base128.put (space_left w) (least_of d xs) ≡ some b
    → let ds = deltas (least_of d xs) d.prev xs in
      tput d w xs ≡ (
        if ltb (space_left (append w b)) (length (chunk_bytes ds))
        then (advanced d xs, append w b, false)
        else (advanced d xs, append (append w b) (chunk_bytes ds), true))
chunk_written d w xs b e =
    let ds = deltas (least_of d xs) d.prev xs in
    tput-continue d w xs
    ∙ ap (continue (advanced d xs) ds) (put_base128-some w (least_of d xs) b e)
    ∙ ap (λ (r : VByteWriter × Bool). (advanced d xs, r.0, r.1)) (tput_lem (append w b) ds)
    ∙ pair_if (advanced d xs) (ltb (space_left (append w b)) (length (chunk_bytes ds)))
        (append w b, false) (append (append w b) (chunk_bytes ds), true)

-- A chunk that `tput` took is appended to the stream and can be read back.
pub tput_taken :
    (d d' : DeltaWriter) (w w' : VByteWriter) (xs : List ℕ)
    → length xs ≡ 16
    → All IsU64 xs
    → IsU64 d.prev
    → tput d w xs ≡ (d', w', true)
    → (bytes : List ℕ) × (w' ≡ append w bytes) × (d'.prev ≡ last_or d.prev xs) × Decodes d bytes xs
tput_taken d d' w w' xs h all hp e =
    elim (Option-cases (Base128.put (space_left w) (least_of d xs))) [
      | inl full ↦ cc (
        e,
        tput-continue d w xs,
        ap (continue (advanced d xs) (deltas (least_of d xs) d.prev xs))
            (put_base128-none w (least_of d xs) full),
      )
      | inr (b, f) ↦
          let ds = deltas (least_of d xs) d.prev xs in
          elim (Bool-cases (ltb (space_left (append w b)) (length (chunk_bytes ds)))) [
            | inl full ↦
                let refused : tput d w xs ≡ (advanced d xs, append w b, false) =
                  chunk_written d w xs b f ∙ rw full refl in
                cc
            | inr fits ↦
                let same : (advanced d xs, append (append w b) (chunk_bytes ds), true)
                    ≡ (d', w', true) =
                  sym (chunk_written d w xs b f ∙ rw fits refl) ∙ e in
                (
                  b ++ chunk_bytes ds,
                  sym (ap (λ (r : DeltaWriter × VByteWriter × Bool). r.1) same)
                      ∙ ap (λ (t : List ℕ). record w { out = t })
                          (append_assoc w.out b (chunk_bytes ds)),
                  sym (ap (λ (r : DeltaWriter × VByteWriter × Bool). r.0.prev) same),
                  tput_Decodes d xs (space_left w) b h all hp f,
                )
          ]
    ]

-- With 146 bytes left no chunk is refused, and it takes no more than these.
pub tput_room :
    (d : DeltaWriter) (w : VByteWriter) (xs : List ℕ)
    → length xs ≡ 16
    → 146 ≤ space_left w
    → (d' : DeltaWriter) × (w' : VByteWriter) × (tput d w xs ≡ (d', w', true))
      × (length w'.out ≤ length w.out + 146)
tput_room d w xs h room =
    let (b, f, short) =
      put_fits (space_left w) (least_of d xs) (least_of-IsU64 d xs) (omega arith) in
    let ds = deltas (least_of d xs) d.prev xs in
    let small = length-chunk_bytes ds (length-deltas (least_of d xs) d.prev xs ∙ h) in
    let first = length-append w.out b in
    let second = length-append (w.out ++ b) (chunk_bytes ds) in
    (
      advanced d xs,
      append (append w b) (chunk_bytes ds),
      chunk_written d w xs b f
          ∙ rw (ltb-false (space_left (append w b)) (length (chunk_bytes ds)) (omega arith)) refl,
      omega arith,
    )
