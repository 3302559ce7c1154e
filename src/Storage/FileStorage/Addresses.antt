-- ===== src/Storage/FileStorage/Addresses.antt =====
-- The two halves of a logic address.
use akumuli.Base.{ℕ, ◌^◌, ◌<◌, ◌≡◌, arith}
use akumuli.Storage.FileStorage.{extract_gen, extract_vol, make_logic}

pub extract_gen-make_logic :
    (gen addr : ℕ) → gen < 2 ^ 32 → addr < 2 ^ 32 → extract_gen (make_logic gen addr) ≡ gen
unfolding extract_gen make_logic
extract_gen-make_logic gen addr h k = omega arith

pub extract_vol-make_logic :
    (gen addr : ℕ) → gen < 2 ^ 32 → addr < 2 ^ 32 → extract_vol (make_logic gen addr) ≡ addr
unfolding extract_vol make_logic
extract_vol-make_logic gen addr h k = omega arith

-- A logic address is put together from the generation and the block address that are taken from it.
pub make_logic-extract :
    (addr : ℕ) → addr < 2 ^ 64 → make_logic (extract_gen addr) (extract_vol addr) ≡ addr
unfolding extract_gen extract_vol make_logic
make_logic-extract addr h = omega arith
