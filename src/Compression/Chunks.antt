-- ===== src/Compression/Chunks.antt =====
-- libakumuli/storage_engine/compression.h: the three codecs' `tput` against their readers' `next`, for a
-- chunk of sixteen values.
use akumuli.Base.{
  ℕ, ◌+◌, ◌%◌, ◌≤◌, ◌≡◌, refl, ap, ◌∙◌, sym, subst, true, false, Bool, arith, List, ◌++◌, length,
  length-append, All, ltb, Bool-cases, inl, inr, ltb→lt, ltb→le,
}
use akumuli.Base.Words.{IsU64}
use akumuli.Compression.VByte.Writer.{VByteWriter, append, space_left}
use akumuli.Compression.VByte.Writer as VByte
use akumuli.Compression.VByte.Reader.{VByteReader}
use akumuli.Compression.VByte.Bytes.{chunk_bytes}
use akumuli.Compression.VByte.Writes.{tput_lem}
use akumuli.Compression.VByte.RoundTrip.{at, Reads, IsIdle, Reads-chunk_bytes}
use akumuli.Compression.DeltaDelta.{DeltaWriter, DeltaReader}
use akumuli.Compression.DeltaDelta
use akumuli.Compression.DeltaDelta.RoundTrip.{DeltaReads, AtChunk, tput_taken}
use akumuli.Compression.Fcm.Writer.{FcmWriter, encode_all}
use akumuli.Compression.Fcm.Writer as Fcm
use akumuli.Compression.Fcm.Reader.{FcmReader}
use akumuli.Compression.Fcm.Writes.{tput_fits, tput_full, length-chunk_bytes, length-encode_all}
use akumuli.Compression.Fcm.Writes as FcmWrites
use akumuli.Compression.Fcm.RoundTrip.{FcmReads, AtPair, FcmReads-chunk_bytes}

-- `w'` is `w` with some bytes behind it, from which sixteen calls of `next` get `xs`; they leave what
-- follows these bytes, and a reader that is ready for another chunk.
abbrev pub VByteReadsBack : VByteWriter → VByteWriter → List ℕ → VByteReader → List ℕ → Type 0
VByteReadsBack w w' xs r tail =
    (bytes : List ℕ) × (w' ≡ append w bytes)
    × ((r' : VByteReader) × Reads (at r (bytes ++ tail)) xs r' × IsIdle r' × (r'.rest ≡ tail))

-- A chunk of sixteen 64-bit words that VByteStreamWriter::tput takes is read back by
-- VByteStreamReader::next, if the reader stands between two pairs and in no run of zeros.
pub vbyte_next-tput :
    (w w' : VByteWriter) (xs : List ℕ) (r : VByteReader) (tail : List ℕ)
    → length xs ≡ 16
    → All IsU64 xs
    → IsIdle r
    → VByte.tput w xs ≡ (w', true)
    → VByteReadsBack w w' xs r tail
vbyte_next-tput w w' xs r tail h all idle e =
    elim (Bool-cases (ltb (space_left w) (length (chunk_bytes xs)))) [
      | inl full ↦ absurd (
          let refused : VByte.tput w xs ≡ (w, false) = tput_lem w xs ∙ rw full refl in
          cc (e, refused))
      | inr fits ↦
          let taken : VByte.tput w xs ≡ (append w (chunk_bytes xs), true) =
            tput_lem w xs ∙ rw fits refl in
          (
            chunk_bytes xs,
            ap (λ (t : VByteWriter × Bool). t.0) (sym e ∙ taken),
            Reads-chunk_bytes xs r tail h all idle,
          )
    ]

abbrev pub DeltaReadsBack :
    DeltaWriter → VByteWriter → VByteWriter → List ℕ → DeltaReader → VByteReader → List ℕ → Type 0
DeltaReadsBack d' w w' xs dr r tail =
    (bytes : List ℕ) × (w' ≡ append w bytes)
    × ((dr' : DeltaReader) × (r' : VByteReader) × DeltaReads dr (at r (bytes ++ tail)) xs dr' r'
        × (dr'.prev ≡ d'.prev)
        × AtChunk dr'
        × IsIdle r'
        × (r'.rest ≡ tail))

-- A chunk of sixteen timestamps that DeltaDeltaStreamWriter::tput takes is read back by
-- DeltaDeltaStreamReader::next, if the reader stands between two chunks with the writer's `prev_`. Both
-- then have the same `prev_` again. No order of the timestamps is assumed.
pub delta_next-tput :
    (d d' : DeltaWriter) (w w' : VByteWriter) (xs : List ℕ) (dr : DeltaReader) (r : VByteReader)
    (tail : List ℕ)
    → length xs ≡ 16
    → All IsU64 xs
    → IsU64 d.prev
    → dr.prev ≡ d.prev
    → AtChunk dr
    → IsIdle r
    → DeltaDelta.tput d w xs ≡ (d', w', true)
    → DeltaReadsBack d' w w' xs dr r tail
delta_next-tput d d' w w' xs dr r tail h all word follows start idle e =
    let (bytes, same, prev_eq, decodes) = tput_taken d d' w w' xs h all word e in
    let (dr', r', reads, prev_eq', start', idle', left) = decodes dr r tail follows start idle in
    (bytes, same, (dr', r', reads, prev_eq' ∙ sym prev_eq, start', idle', left))

abbrev pub FcmReadsBack :
    FcmWriter → VByteWriter → VByteWriter → List ℕ → FcmReader → VByteReader → List ℕ → Type 0
FcmReadsBack f' w w' xs fr r tail =
    (bytes : List ℕ) × (w' ≡ append w bytes)
    × ((fr' : FcmReader) × FcmReads fr (at r (bytes ++ tail)) xs fr' (at r tail)
        × AtPair fr'
        × (fr'.predictor ≡ f'.predictor))

-- A chunk of sixteen values (their bits) that FcmStreamWriter::tput takes is read back by
-- FcmStreamReader::next, if the reader stands between two pairs with the writer's predictor, and the
-- writer and its stream have no half pair. Both then have the same predictor again.
pub fcm_next-tput :
    (f f' : FcmWriter) (w w' : VByteWriter) (xs : List ℕ) (fr : FcmReader) (r : VByteReader)
    (tail : List ℕ)
    → length xs ≡ 16
    → All IsU64 xs
    → f.nelements % 2 ≡ 0
    → w.cnt % 2 ≡ 0
    → fr.predictor ≡ f.predictor
    → AtPair fr
    → Fcm.tput f w xs ≡ (f', w', true)
    → FcmReadsBack f' w w' xs fr r tail
fcm_next-tput f f' w w' xs fr r tail h all even even' follows start e =
    let bytes = FcmWrites.chunk_bytes (encode_all f.predictor xs).1 in
    elim (Bool-cases (ltb (space_left w) (length bytes))) [
      | inl full ↦ absurd (let refused = tput_full f w xs (ltb→lt _ _ full) in cc (e, refused))
      | inr fits ↦
          let taken = sym e ∙ tput_fits f w xs even even' (ltb→le _ _ fits) in
          let (fr', reads, start', predictor_eq) = FcmReads-chunk_bytes xs fr r tail h all start in
          (
            bytes,
            ap (λ (t : FcmWriter × VByteWriter × Bool). t.1) taken,
            (
              fr',
              subst
                  (λ p.
                    FcmReads fr (at r (FcmWrites.chunk_bytes (encode_all p xs).1 ++ tail)) xs fr'
                      (at r tail))
                  follows reads,
              start',
              predictor_eq
                  ∙ ap (λ p. (encode_all p xs).0) follows
                  ∙ sym (ap (λ (t : FcmWriter × VByteWriter × Bool). t.0.predictor) taken),
            ),
          )
    ]

abbrev pub FcmTakes : FcmWriter → VByteWriter → List ℕ → Type 0
FcmTakes f w xs =
    (f' : FcmWriter) × (w' : VByteWriter) × (Fcm.tput f w xs ≡ (f', w', true))
    × (length w'.out ≤ length w.out + 136)

-- With 136 bytes left FcmStreamWriter::tput refuses no chunk of sixteen values, and takes no more bytes,
-- where the writer and its stream have no half pair.
pub fcm_tput_room :
    (f : FcmWriter) (w : VByteWriter) (xs : List ℕ)
    → length xs ≡ 16
    → f.nelements % 2 ≡ 0
    → w.cnt % 2 ≡ 0
    → 136 ≤ space_left w
    → FcmTakes f w xs
fcm_tput_room f w xs h even even' room =
    let bytes = FcmWrites.chunk_bytes (encode_all f.predictor xs).1 in
    let short =
      length-chunk_bytes (encode_all f.predictor xs).1 (length-encode_all f.predictor xs ∙ h) in
    (
      record f { predictor = (encode_all f.predictor xs).0 },
      append w bytes,
      tput_fits f w xs even even' (omega (arith, short)),
      omega (arith, length-append w.out bytes, short),
    )
