-- ===== src/Status.antt =====
-- include/akumuli_def.h: aku_Status, the codes that the library's calls return.
use akumuli.Base.{Bool, true, false}

pub data Status : Type 0 where
  success eno_data eno_mem ebusy enot_found ebad_arg eoverflow ebad_data egeneral : Status
  elate_write enot_implemented equery_parsing_error eanomaly_neg_val emerge_required : Status
  eclosed etimeout eretry eaccess enot_permitted eunavailable ehigh_cardinality : Status
  eregullar_expected emissing_data_not_supported eio emax_error : Status

-- status == AKU_SUCCESS
unfoldable pub is_success : Status → Bool
is_success success = true
is_success status = false

-- status == AKU_EOVERFLOW
unfoldable pub is_overflow : Status → Bool
is_overflow eoverflow = true
is_overflow status = false
