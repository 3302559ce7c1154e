-- ===== src/Compression/Examples.antt =====
-- Concrete runs of the codecs and of blocks, and the theorems at concrete inputs.
use akumuli.Base.{
  ℕ, ◌+◌, ◌≤◌, ◌≡◌, refl, Bool, true, false, arith, List, [], ◌∷◌, length, All, ltb, if◌then◌else◌,
  none, some,
}
use akumuli.Base.Words.{IsU64, all_below, all_below-IsU64, to_bytes, clz64, ctz64}
use akumuli.Base.Outcome.{ok}
use akumuli.Compression.Base128
use akumuli.Compression.Base128.RoundTrip.{get-put, put_fits}
use akumuli.Compression.VByte.Writer.{VByteWriter, append, space_left}
use akumuli.Compression.VByte.Writer as VByte
use akumuli.Compression.VByte.Reader as VByteReader
use akumuli.Compression.VByte.Bytes.{chunk_bytes}
use akumuli.Compression.VByte.Writes.{tput_lem}
use akumuli.Compression.DeltaDelta.{DeltaWriter, init_writer, init_reader}
use akumuli.Compression.DeltaDelta
use akumuli.Compression.DeltaDelta.RoundTrip.{tput_room}
use akumuli.Compression.Predictor.{predict_next, update, fcm_init}
use akumuli.Compression.Predictor as Dfcm
use akumuli.Compression.Predictor.Range.{
  IsValid, FcmIsValid, update-IsValid_run, fcm_update-FcmIsValid_run,
}
use akumuli.Compression.Fcm.Writer.{FcmWriter, encode_all, flag_of, stored_flag}
use akumuli.Compression.Fcm.Writer as Fcm
use akumuli.Compression.Fcm.Reader as FcmReader
use akumuli.Compression.Fcm.Flags.{Fits, stored_flag-Fits}
use akumuli.Compression.Chunks.{
  VByteReadsBack, vbyte_next-tput, DeltaReadsBack, delta_next-tput, FcmReadsBack, fcm_next-tput,
  FcmTakes, fcm_tput_room,
}
use mathlib.Core.List.{foldl}

put_300 : Base128.put 4 300 ≡ some (0xac ∷ 0x02 ∷ [])
unfolding Base128.put Base128.put_loop
put_300 = refl

-- No room for the second byte.
put_full : Base128.put 1 300 ≡ none
unfolding Base128.put Base128.put_loop
put_full = refl

get-put_example : Base128.get (0xac ∷ 0x02 ∷ 9 ∷ []) ≡ ok (some (300, 9 ∷ []))
get-put_example = get-put 4 300 (0xac ∷ 0x02 ∷ []) (9 ∷ []) (omega arith) put_300

put_fits_example :
    (bytes : List ℕ) × (Base128.put 10 0xffff_ffff_ffff_ffff ≡ some bytes) × (length bytes ≤ 10)
put_fits_example = put_fits 10 0xffff_ffff_ffff_ffff (omega arith) (omega arith)

abbrev sixteen : List ℕ
sixteen =
    0 ∷ 3 ∷ 300 ∷ 70000 ∷ 0 ∷ 0 ∷ 1 ∷ 1 ∷ 2 ∷ 0xffff_ffff_ffff_ffff ∷ 0 ∷ 5 ∷ 8 ∷ 13 ∷ 21 ∷ 34 ∷ []

sixteen-words : All IsU64 sixteen
sixteen-words = all_below-IsU64 sixteen (unfold all_below in refl)

abbrev stream : ℕ → VByteWriter
stream size = record { cap = size; out = 7 ∷ []; cnt = 0; prev = 0 }

-- A partly written chunk is taken back.
tput_cut : VByte.tput (stream 9) sixteen ≡ (stream 9, false)
unfolding VByte.tput VByte.shortcut VByte.all_zero VByte.encode_pairs VByte.encode VByte.ctrl_of
    VByte.write_bytes VByte.put_raw VByte.and_then clz64
tput_cut = refl

tput_lem_example : VByte.tput (stream 9) sixteen ≡ (
    if ltb (space_left (stream 9)) (length (chunk_bytes sixteen))
    then (stream 9, false)
    else (append (stream 9) (chunk_bytes sixteen), true))
tput_lem_example = tput_lem (stream 9) sixteen

taken : VByte.tput (stream 90) sixteen ≡ ((VByte.tput (stream 90) sixteen).0, true)
unfolding VByte.tput VByte.shortcut VByte.all_zero VByte.encode_pairs VByte.encode VByte.ctrl_of
    VByte.write_bytes VByte.put_raw VByte.and_then clz64
taken = refl

vbyte_next-tput_example :
    VByteReadsBack
      (stream 90)
      (VByte.tput (stream 90) sixteen).0
      sixteen
      (VByteReader.init [])
      (5 ∷ [])
unfolding VByteReader.init
vbyte_next-tput_example =
    vbyte_next-tput (stream 90) (VByte.tput (stream 90) sixteen).0 sixteen (VByteReader.init [])
      (5 ∷ []) refl sixteen-words (record { even = refl; no_run = refl }) taken

abbrev delta_done : DeltaWriter × VByteWriter × Bool
delta_done = DeltaDelta.tput init_writer (stream 150) sixteen

delta_taken : delta_done ≡ (delta_done.0, delta_done.1, true)
unfolding DeltaDelta.tput DeltaDelta.delta_loop init_writer VByte.put_base128 Base128.put
    Base128.put_loop VByte.tput VByte.shortcut VByte.all_zero VByte.encode_pairs VByte.encode
    VByte.ctrl_of VByte.write_bytes clz64
delta_taken = refl

delta_next-tput_example :
    DeltaReadsBack delta_done.0
      (stream 150)
      delta_done.1
      sixteen
      init_reader
      (VByteReader.init [])
      (5 ∷ [])
unfolding VByteReader.init init_reader init_writer
delta_next-tput_example =
    delta_next-tput init_writer delta_done.0 (stream 150) delta_done.1 sixteen init_reader
      (VByteReader.init []) (5 ∷ []) refl sixteen-words (omega arith) refl refl
      (record { even = refl; no_run = refl }) delta_taken

tput_room_example :
    (d' : DeltaWriter) × (w' : VByteWriter) × (DeltaDelta.tput init_writer (stream 150) sixteen
      ≡ (d', w', true))
    × (length w'.out ≤ length (stream 150).out + 146)
tput_room_example = tput_room init_writer (stream 150) sixteen refl (omega arith)

abbrev fcm_done : FcmWriter × VByteWriter × Bool
fcm_done = Fcm.tput Fcm.init (stream 150) sixteen

fcm_taken : fcm_done ≡ (fcm_done.0, fcm_done.1, true)
unfolding Fcm.tput Fcm.init Fcm.encode_all Fcm.encode Fcm.sum_diff Fcm.put_pair Fcm.put_pairs
    Fcm.commit Fcm.flag_of Fcm.encode_value Fcm.put_nbytes VByte.and_then VByte.put_raw Dfcm.init
    update predict_next clz64 ctz64 to_bytes VByte.commit
fcm_taken = refl

fcm_next-tput_example :
    FcmReadsBack fcm_done.0
      (stream 150)
      fcm_done.1
      sixteen
      FcmReader.init
      (VByteReader.init [])
      (5 ∷ [])
unfolding VByteReader.init FcmReader.init Fcm.init
fcm_next-tput_example =
    fcm_next-tput Fcm.init fcm_done.0 (stream 150) fcm_done.1 sixteen FcmReader.init
      (VByteReader.init []) (5 ∷ []) refl sixteen-words refl refl refl
      (record { even = refl; no_run = refl }) fcm_taken

fcm_tput_room_example : FcmTakes Fcm.init (stream 150) sixteen
unfolding Fcm.init
fcm_tput_room_example = fcm_tput_room Fcm.init (stream 150) sixteen refl refl refl (omega arith)

stored_flag-Fits_example : Fits 0xFF00 (stored_flag (flag_of 0xFF00))
stored_flag-Fits_example = stored_flag-Fits 0xFF00 (omega arith)

update-IsValid_run_example : IsValid (foldl update (Dfcm.init 128) sixteen)
update-IsValid_run_example = update-IsValid_run sixteen 128 (omega arith) (omega arith)

fcm_update-FcmIsValid_run_example : FcmIsValid (foldl Dfcm.fcm_update (fcm_init 128) sixteen)
fcm_update-FcmIsValid_run_example =
    fcm_update-FcmIsValid_run sixteen 128 (omega arith) (omega arith)
