-- ===== src/Compression/Predictor/Range.antt =====
-- The predictors never leave their tables.
use akumuli.Base.{ℕ, ◌^◌, ◌≤◌, ◌<◌, arith, List, [], ◌∷◌, length, length-set, length-replicate}
use akumuli.Base.Words.{sub64}
use mathlib.Core.List.{foldl}
use akumuli.Base.Bits.{bit_and-le_right}
use akumuli.Compression.Predictor.{
  FcmPredictor, fcm_init, fcm_update, DfcmPredictor, predictor_n, init, update,
}

pub record FcmIsValid (p : FcmPredictor) : Type 0 where
  pub inside : p.last_hash < length p.table
  pub masked : p.mask < length p.table

pub record IsValid (p : DfcmPredictor) : Type 0 where
  pub inside : p.last_hash < length p.table
  pub masked : p.mask < length p.table

fcm_init-FcmIsValid : (n : ℕ) → 0 < n → n < 2 ^ 64 → FcmIsValid (fcm_init n)
unfolding fcm_init
fcm_init-FcmIsValid n h word = omega (arith, length-replicate {A = ℕ} n 0)

fcm_update-FcmIsValid :
    (p : FcmPredictor) (value : ℕ) → FcmIsValid p → FcmIsValid (fcm_update p value)
unfolding fcm_update
fcm_update-FcmIsValid p value v =
    omega (arith, length-set p.table p.last_hash value, bit_and-le_right)

pub init-IsValid : (n : ℕ) → 0 < n → n ≤ predictor_n → IsValid (init n)
unfolding init
init-IsValid n h few = omega arith

pub update-IsValid : (p : DfcmPredictor) (value : ℕ) → IsValid p → IsValid (update p value)
unfolding update
update-IsValid p value v =
    omega (arith, length-set p.table p.last_hash (sub64 value p.last_value), bit_and-le_right)

-- An FcmPredictor whose table has a size between 1 and 2^64 - 1 reads and writes inside its table, after
-- any values that it is updated with from its construction on.
pub fcm_update-FcmIsValid_run :
    (values : List ℕ) (n : ℕ)
    → 0 < n
    → n < 2 ^ 64
    → FcmIsValid (foldl fcm_update (fcm_init n) values)
fcm_update-FcmIsValid_run values n h word = run values (fcm_init n) (fcm_init-FcmIsValid n h word)
  where
    run :
        (values : List ℕ) (p : FcmPredictor) → FcmIsValid p → FcmIsValid (foldl fcm_update p values)
    run [] p v = v
    run (x ∷ xs) p v = run xs (fcm_update p x) (fcm_update-FcmIsValid p x v)

-- The predictor of the value codec reads and writes inside its table of PREDICTOR_N cells, after any
-- values that it is updated with from its construction on, for a table size between 1 and PREDICTOR_N.
pub update-IsValid_run :
    (values : List ℕ) (n : ℕ) → 0 < n → n ≤ predictor_n → IsValid (foldl update (init n) values)
update-IsValid_run values n h few = run values (init n) (init-IsValid n h few)
  where
    run : (values : List ℕ) (p : DfcmPredictor) → IsValid p → IsValid (foldl update p values)
    run [] p v = v
    run (x ∷ xs) p v = run xs (update p x) (update-IsValid p x v)
