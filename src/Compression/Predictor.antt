-- ===== src/Compression/Predictor.antt =====
-- libakumuli/storage_engine/compression.cpp: the value predictors. A table read by `at` or `[ ]` is a
-- read at an index that the theorems on them place within the table. The asserts that the table's
-- size is a power of two are compiled out.
pub mod Range
use akumuli.Base.{ℕ, ◌+◌, ◌-◌, ◌*◌, ◌/◌, ◌%◌, ◌^◌, bit_and, bit_xor, List, get_or, set, replicate}
use akumuli.Base.Words.{u64, sub64}

pub record SimplePredictor : Type 0 where
  pub last_value : ℕ

unfoldable pub simple_predict_next : SimplePredictor → ℕ
simple_predict_next p = p.last_value

unfoldable pub simple_update : SimplePredictor → ℕ → SimplePredictor
simple_update p value = record { last_value = value }

pub record FcmPredictor : Type 0 where
  pub table : List ℕ
  pub last_hash : ℕ
  pub mask : ℕ

unfoldable pub fcm_init : ℕ → FcmPredictor
fcm_init table_size = record {
  table = replicate table_size 0;
  last_hash = 0;
  mask = sub64 table_size 1;
}

unfoldable pub fcm_predict_next : FcmPredictor → ℕ
fcm_predict_next p = get_or p.table p.last_hash 0

unfoldable pub fcm_update : FcmPredictor → ℕ → FcmPredictor
fcm_update p value = record p {
  table = set p.table p.last_hash value;
  last_hash = bit_and (bit_xor (u64 (p.last_hash * 2 ^ 5)) (value / 2 ^ 50)) p.mask;
}

pub record DfcmPredictor : Type 0 where
  pub table : List ℕ
  pub last_hash : ℕ
  pub last_value : ℕ
  pub mask : ℕ

-- 1 << 7
abbrev pub predictor_n : ℕ
predictor_n = 128

-- The table has PREDICTOR_N cells, whatever `table_size` is.
unfoldable pub init : ℕ → DfcmPredictor
init table_size = record {
  table = replicate predictor_n 0;
  last_hash = 0;
  last_value = 0;
  mask = sub64 table_size 1;
}

unfoldable pub predict_next : DfcmPredictor → ℕ
predict_next p = u64 (get_or p.table p.last_hash 0 + p.last_value)

unfoldable pub update : DfcmPredictor → ℕ → DfcmPredictor
update p value = record p {
  table = set p.table p.last_hash (sub64 value p.last_value);
  last_hash =
      bit_and (bit_xor (u64 (p.last_hash * 2 ^ 5)) (sub64 value p.last_value / 2 ^ 50)) p.mask;
  last_value = value;
}
