-- ===== src/Compression/DataBlock/Content.antt =====
-- Bytes that hold a list of chunks, said by what the codecs' readers make of them.
use akumuli.Base.{
  ℕ, suc, ◌≡◌, refl, ap, ◌∙◌, sym, subst, List, [], ◌∷◌, ◌++◌, map, append_assoc, length, All,
}
use akumuli.Base.Words.{IsU64}
use akumuli.Compression.VByte.Reader.{VByteReader}
use akumuli.Compression.VByte.Reader
use akumuli.Compression.VByte.RoundTrip.{at, IsIdle}
use akumuli.Compression.DeltaDelta.{DeltaWriter, DeltaReader, init_reader}
use akumuli.Compression.DeltaDelta.RoundTrip.{DeltaReads, AtChunk, Decodes, last_or}
use akumuli.Compression.Predictor.{DfcmPredictor}
use akumuli.Compression.Fcm.Writer.{encode_all}
use akumuli.Compression.Fcm.Reader.{FcmReader}
use akumuli.Compression.Fcm.Reader as Fcm
use akumuli.Compression.Fcm.Writes.{chunk_bytes}
use akumuli.Compression.Fcm.RoundTrip.{FcmReads, AtPair, FcmReads-chunk_bytes}

-- A timestamp and the bits of a value.
abbrev pub Point : Type 0
Point = ℕ × ℕ

abbrev pub times : List Point → List ℕ
times = map (λ p. p.0)

abbrev pub values : List Point → List ℕ
values = map (λ p. p.1)

-- The states of both codecs and of the stream that they share.
pub record Cursor : Type 0 where
  pub delta : DeltaReader
  pub fcm : FcmReader
  pub stream : VByteReader

abbrev pub at_start : List ℕ → Cursor
at_start bytes = record { delta = init_reader; fcm = Fcm.init; stream = Reader.init bytes }

-- One chunk: all its timestamps, then all its values.
abbrev pub ChunkReads : Cursor → List Point → Cursor → Type 0
ChunkReads c ps c' =
    (mid : VByteReader) × DeltaReads c.delta c.stream (times ps) c'.delta mid
    × FcmReads c.fcm mid (values ps) c'.fcm c'.stream

abbrev pub ChunksReads : Cursor → List (List Point) → Cursor → Type 0
ChunksReads c [] c' = c ≡ c'
ChunksReads c (ps ∷ chunks) c' = (d : Cursor) × ChunkReads c ps d × ChunksReads d chunks c'

pub ChunksReads-append :
    (chunks : List (List Point)) (ps : List Point) (c d e : Cursor)
    → ChunksReads c chunks d
    → ChunkReads d ps e
    → ChunksReads c (chunks ++ ps ∷ []) e
ChunksReads-append [] ps c d e same last = (e, subst (λ t. ChunkReads t ps e) (sym same) last, refl)
ChunksReads-append (qs ∷ chunks) ps c d e (m, first, rest) last =
    (m, first, ChunksReads-append chunks ps m d e rest last)

-- The readers have followed the writers: between two chunks, with `tail` before them.
pub record Follows (p : DfcmPredictor) (prev : ℕ) (tail : List ℕ) (c : Cursor) : Type 0 where
  pub prev_eq : c.delta.prev ≡ prev
  pub at_chunk : AtChunk c.delta
  pub at_pair : AtPair c.fcm
  pub predictor_eq : c.fcm.predictor ≡ p
  pub idle : IsIdle c.stream
  pub rest_eq : c.stream.rest ≡ tail

-- `body` holds the chunks, whatever comes behind it.
abbrev pub Holds : DfcmPredictor → ℕ → List ℕ → List (List Point) → Type 0
Holds p prev body chunks =
    (tail : List ℕ)
    → (c : Cursor) × ChunksReads (at_start (body ++ tail)) chunks c × Follows p prev tail c

pub length-values : (ps : List Point) → length (values ps) ≡ length ps
length-values [] = refl
length-values (p ∷ ps) = ap suc (length-values ps)

pub length-times : (ps : List Point) → length (times ps) ≡ length ps
length-times [] = refl
length-times (p ∷ ps) = ap suc (length-times ps)

-- A stream that stands before some bytes is itself with these bytes before it.
at_rest : (r : VByteReader) (bytes : List ℕ) → r.rest ≡ bytes → at r bytes ≡ r
at_rest r bytes e = ap (at r) (sym e)

-- Readers that have followed the writers read the next chunk.
ChunkReads-next :
    (p : DfcmPredictor) (d : DeltaWriter) (bytes tail : List ℕ) (ps : List Point) (c : Cursor)
    → length ps ≡ 16
    → All IsU64 (values ps)
    → Decodes d bytes (times ps)
    → Follows p d.prev (bytes ++ (chunk_bytes (encode_all p (values ps)).1 ++ tail)) c
    → (c' : Cursor) × ChunkReads c ps c'
      × Follows (encode_all p (values ps)).0 (last_or d.prev (times ps)) tail c'
ChunkReads-next p d bytes tail ps c h all decodes follows =
    let val_bytes = chunk_bytes (encode_all p (values ps)).1 in
    let (dr, mid, ts_read, prev_eq, at_chunk, idle, left) =
      decodes c.delta c.stream (val_bytes ++ tail) follows.prev_eq follows.at_chunk follows.idle in
    let (fr, val_read, at_pair, predictor_eq) =
      FcmReads-chunk_bytes (values ps) c.fcm mid tail (length-values ps ∙ h) all follows.at_pair in
    let ends : at mid (chunk_bytes (encode_all c.fcm.predictor (values ps)).1 ++ tail) ≡ mid =
      ap (λ (q : DfcmPredictor). at mid (chunk_bytes (encode_all q (values ps)).1 ++ tail))
        follows.predictor_eq
      ∙ at_rest mid (val_bytes ++ tail) left in
    (
      record { delta = dr; fcm = fr; stream = at mid tail },
      (
        mid,
        subst (λ t. DeltaReads c.delta t (times ps) dr mid) (at_rest c.stream _ follows.rest_eq)
            ts_read,
        subst (λ t. FcmReads c.fcm t (values ps) fr (at mid tail)) ends val_read,
      ),
      record {
        prev_eq = prev_eq;
        at_chunk = at_chunk;
        at_pair = at_pair;
        predictor_eq =
            predictor_eq
            ∙ ap (λ (q : DfcmPredictor). (encode_all q (values ps)).0) follows.predictor_eq;
        idle = record { even = idle.even; no_run = idle.no_run };
        rest_eq = refl;
      },
    )

-- One more chunk, with the bytes that both codecs have written for it.
pub Holds-append :
    (p : DfcmPredictor) (d : DeltaWriter) (body bytes : List ℕ) (chunks : List (List Point))
    (ps : List Point)
    → length ps ≡ 16
    → All IsU64 (values ps)
    → Holds p d.prev body chunks
    → Decodes d bytes (times ps)
    → Holds
        (encode_all p (values ps)).0
        (last_or d.prev (times ps))
        (body ++ (bytes ++ chunk_bytes (encode_all p (values ps)).1))
        (chunks ++ ps ∷ [])
Holds-append p d body bytes chunks ps h all holds decodes tail =
    let val_bytes = chunk_bytes (encode_all p (values ps)).1 in
    let (c, before, follows) = holds (bytes ++ (val_bytes ++ tail)) in
    let (c', chunk, follows') = ChunkReads-next p d bytes tail ps c h all decodes follows in
    (
      c',
      rw (append_assoc body (bytes ++ val_bytes) tail, append_assoc bytes val_bytes tail)
          (ChunksReads-append chunks ps _ c c' before chunk),
      follows',
    )
