-- ===== src/Compression/DataBlock/Header.antt =====
-- The fourteen bytes before a block's data, and what the accesses to its cells make of them.
use akumuli.Base.{
  ℕ, suc, ◌+◌, ◌-◌, ◌*◌, ◌^◌, ◌≤◌, ◌<◌, ◌≡◌, refl, ap, arith, List, ◌∷◌, ◌++◌, length, drop,
  replicate, ltb-false, drop-append,
}
use akumuli.Base.Words.{IsU64, u16, to_bytes, from_bytes}
use akumuli.Base.Outcome.{ok}
use akumuli.Compression.VByte.Writer.{VByteWriter, put_raw, allocate}
use akumuli.Compression.VByte.Writer
use akumuli.Compression.DeltaDelta.{init_writer}
use akumuli.Compression.Fcm.Writer as Fcm
use akumuli.Compression.DataBlock.Writer.{
  DataBlockWriter, load, store, bump, start, init, akumuli_version, chunk_size,
}
use akumuli.Compression.DataBlock.Reader.{
  get_block_version, get_main_size, get_total_size, get_block_id,
}

unfoldable pub header : ℕ → ℕ → ℕ → List ℕ
header nchunks ntail id =
    to_bytes 2 akumuli_version ++ (to_bytes 2 nchunks ++ (to_bytes 2 ntail ++ to_bytes 8 id))

abbrev pub holds : VByteWriter → List ℕ → VByteWriter
holds w bytes = record w { out = bytes }

pub load-nchunks :
    (w : VByteWriter) (c t id : ℕ) (body : List ℕ)
    → c < 2 ^ 16
    → load (holds w (header c t id ++ body)) 2 ≡ c
unfolding load header to_bytes from_bytes
load-nchunks w c t id body h = omega arith

pub load-ntail :
    (w : VByteWriter) (c t id : ℕ) (body : List ℕ)
    → t < 2 ^ 16
    → load (holds w (header c t id ++ body)) 4 ≡ t
unfolding load header to_bytes from_bytes
load-ntail w c t id body h = omega arith

pub store-nchunks :
    (w : VByteWriter) (c t id v : ℕ) (body : List ℕ)
    → store (holds w (header c t id ++ body)) 2 v ≡ holds w (header v t id ++ body)
unfolding store header to_bytes
store-nchunks w c t id v body = refl

pub store-ntail :
    (w : VByteWriter) (c t id v : ℕ) (body : List ℕ)
    → store (holds w (header c t id ++ body)) 4 v ≡ holds w (header c v id ++ body)
unfolding store header to_bytes
store-ntail w c t id v body = refl

-- A counter that does not wrap.
pub bump-nchunks :
    (w : VByteWriter) (c t id : ℕ) (body : List ℕ)
    → suc c < 2 ^ 16
    → bump (holds w (header c t id ++ body)) 2 ≡ holds w (header (suc c) t id ++ body)
unfolding bump
bump-nchunks w c t id body h =
    rw (load-nchunks w c t id body (omega arith), store-nchunks w c t id (u16 (c + 1)) body)
      (ap (λ (v : ℕ). holds w (header v t id ++ body)) (omega arith))

pub bump-ntail :
    (w : VByteWriter) (c t id : ℕ) (body : List ℕ)
    → suc t < 2 ^ 16
    → bump (holds w (header c t id ++ body)) 4 ≡ holds w (header c (suc t) id ++ body)
unfolding bump
bump-ntail w c t id body h =
    rw (load-ntail w c t id body (omega arith), store-ntail w c t id (u16 (t + 1)) body)
      (ap (λ (v : ℕ). holds w (header c v id ++ body)) (omega arith))

pub length-header : (c t id : ℕ) → length (header c t id) ≡ 14
unfolding header to_bytes
length-header c t id = refl

pub drop-header : (c t id : ℕ) (body : List ℕ) → drop 14 (header c t id ++ body) ≡ body
drop-header c t id body = drop-append 14 (header c t id) body (length-header c t id)

-- The reader's view of the header.
pub get_main_size-header :
    (c t id : ℕ) (body : List ℕ) → c < 2 ^ 16 → get_main_size (header c t id ++ body) ≡ c * 16
unfolding get_main_size header to_bytes from_bytes
get_main_size-header c t id body h = omega arith

pub get_total_size-header :
    (c t id : ℕ) (body : List ℕ)
    → c < 2 ^ 16
    → t < 2 ^ 16
    → get_total_size (header c t id ++ body) ≡ t + c * 16
unfolding get_total_size header to_bytes from_bytes
get_total_size-header c t id body h k = omega arith

pub get_block_version-header :
    (c t id : ℕ) (body : List ℕ) → get_block_version (header c t id ++ body) ≡ 30
unfolding get_block_version header to_bytes from_bytes
get_block_version-header c t id body = refl

pub get_block_id-header :
    (c t id : ℕ) (body : List ℕ) → IsU64 id → get_block_id (header c t id ++ body) ≡ id
unfolding get_block_id header to_bytes from_bytes
get_block_id-header c t id body h = omega arith

-- A fresh writer over a buffer of `size` bytes: an empty block.
abbrev pub fresh : ℕ → ℕ → DataBlockWriter
fresh id size = record {
  stream = record { cap = size; out = header 0 0 id; cnt = 0; prev = 0 };
  ts_stream = init_writer;
  val_stream = Fcm.init;
  write_index = 0;
  ts_writebuf = replicate chunk_size 0;
  val_writebuf = replicate chunk_size 0;
  nchunks = 2;
  ntail = 4;
}

pub init_lem :
    (id size : ℕ) (buf : List ℕ)
    → length buf ≡ size
    → 14 ≤ size
    → init id buf size ≡ ok (fresh id size)
unfolding init start put_raw allocate Writer.init store header to_bytes
init_lem id size (a ∷ b ∷ c ∷ d ∷ e ∷ f ∷ rest) h fits =
    rw
      (
        ltb-false (size - 0) 2 (omega arith),
        ltb-false (size - 2) 2 (omega arith),
        ltb-false (size - 4) 2 (omega arith),
        ltb-false (size - 6) 8 (omega arith),
      )
      refl
init_lem id size buf h fits = absurd (omega arith)
