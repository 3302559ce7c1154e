-- ===== src/Protocol/Resp.antt =====
-- akumulid/resp.h, resp.cpp: RESPStream, a reader of the REdis Serialization Protocol over any stream of
-- bytes. An exception is the outcome `panic`; its text is left out.
pub mod Ints
pub mod Strings
pub mod Pieces
use akumuli.Base.{
  ℕ, zero, suc, ◌+◌, ◌-◌, ◌*◌, ◌/◌, ◌%◌, ◌^◌, min, Bool, true, false, ◌&&◌, Option, none, some,
  List, [], ◌∷◌, length, take, get_or, ltb, leb, ◌==◌, if◌then◌else◌,
}
use akumuli.Base.Words.{u64}
use akumuli.Base.Outcome.{Outcome, ok, panic, undefined, ◌>>=◌}
use akumuli.Protocol.ByteStream.{ByteStream, Line, line, no_line}

pub data ElementType : Type 0 where
  string integer array bulk_str error bad again : ElementType

abbrev pub string_length_max : ℕ
string_length_max = 1024

abbrev pub bulk_length_max : ℕ
bulk_length_max = 1024 * 1024

-- The digits of the largest u64, and \r\n.
abbrev pub max_digits : ℕ
max_digits = 20 + 2

abbrev pub max_u64 : ℕ
max_u64 = 2 ^ 64 - 1

abbrev pub max_mul : ℕ
max_mul = (2 ^ 64 - 1) / 10

unfoldable pub type_of : ℕ → ElementType
type_of ch =
    if ch == b'+'
    then string
    else if ch == b':'
    then integer
    else if ch == b'$'
    then bulk_str
    else if ch == b'*'
    then array
    else if ch == b'-'
    then error
    else bad

-- buf[i] == '\n'
abbrev pub starts_with_lf : List ℕ → Bool
starts_with_lf [] = false
starts_with_lf (c ∷ cs) = c == 10

-- The loop over the bytes of the line.
unfoldable pub int_loop : List ℕ → ℕ → Outcome ℕ
int_loop [] result = panic
int_loop (c ∷ cs) result =
    let digit = c % 16 in
    let rest = int_loop cs (u64 (u64 (result * 10) + digit)) in
    if leb c 0x39 && leb 0x30 c
    then (if ltb max_mul result
        then panic
        else if ltb (max_u64 - digit) (u64 (result * 10))
        then panic
        else rest)
    else if c == 10
    then ok result
    else if c == 13
    then (if starts_with_lf cs then ok result else panic)
    else panic

-- What is left of a line without its end; the byte before an empty line is outside the buffer.
unfoldable pub without_end : List ℕ → Outcome (List ℕ)
without_end buffer =
    let res = length buffer in
    if get_or buffer (res - 1) 0 == 10
    then (if res == 1
        then undefined
        else if get_or buffer (res - 2) 0 == 13
        then ok (take (res - 2) buffer)
        else ok (take (res - 1) buffer))
    else ok buffer

-- What read_bulkstr returns: the bytes, or a negative number or the number of bytes that are there.
pub data Bulk : Type 0 where
  bulk : List ℕ → Bulk
  too_small : ℕ → Bulk
  not_all : ℕ → Bulk

module _ (B : ByteStream) where
  unfoldable pub next_type : B.State → Outcome ElementType
  next_type s = if B.is_eof s then ok again else (do ch ← B.pick s; ok (type_of ch))

  -- `none` stands for (false, 0).
  unfoldable pub int_of_line : B.State × Line → Outcome (B.State × Option ℕ)
  int_of_line (s, line buf) = do result ← int_loop buf 0; ok (s, some result)
  int_of_line (s, no_line n) = if n == max_digits then panic else ok (s, none)

  unfoldable pub read_int_body : B.State → Outcome (B.State × Option ℕ)
  read_int_body s = int_of_line (B.read_line s max_digits)

  -- The first byte has to be `mark`.
  unfoldable pub expect_mark : ℕ → B.State → Outcome B.State
  expect_mark mark s = do (s', c) ← B.get s; if c == mark then ok s' else panic

  unfoldable pub read_int : B.State → Outcome (B.State × Option ℕ)
  read_int s = if B.is_eof s then ok (s, none) else expect_mark b':' s >>= read_int_body

  unfoldable pub read_array_size : B.State → Outcome (B.State × Option ℕ)
  read_array_size s = if B.is_eof s then ok (s, none) else expect_mark b'*' s >>= read_int_body

  unfoldable pub string_of_line : ℕ → B.State × Line → Outcome (B.State × Option (List ℕ))
  string_of_line quota (s, line buf) = do text ← without_end buf; ok (s, some text)
  string_of_line quota (s, no_line n) = if n == quota then panic else ok (s, none)

  unfoldable pub read_string_body : ℕ → B.State → Outcome (B.State × Option (List ℕ))
  read_string_body byte_buffer_size s =
      let quota = min byte_buffer_size string_length_max in
      string_of_line quota (B.read_line s quota)

  unfoldable pub read_string : ℕ → B.State → Outcome (B.State × Option (List ℕ))
  read_string byte_buffer_size s =
      if B.is_eof s then ok (s, none) else expect_mark b'+' s >>= read_string_body byte_buffer_size

  -- The end of line behind the bytes; the byte behind \r is read without a test for the stream's end.
  unfoldable pub read_eol : B.State → List ℕ → Outcome (B.State × Bulk)
  read_eol s bytes = if B.is_eof s then ok (s, not_all 0) else (do
    (s₁, cr) ← B.get s
    let crlf = (B.get s₁ >>= λ (p : B.State × ℕ). if p.1 == 10 then ok (p.0, bulk bytes) else panic)
    if cr == 13 then crlf else if cr == 10 then ok (s₁, bulk bytes) else panic)

  unfoldable pub read_bulk_bytes : ℕ → B.State → ℕ → Outcome (B.State × Bulk)
  read_bulk_bytes buffer_size s n =
      let (s', bytes) = B.read s n in
      if ltb bulk_length_max n
      then panic
      else if ltb buffer_size n
      then ok (s, too_small n)
      else if ltb (length bytes) n
      then ok (s', not_all (length bytes))
      else read_eol s' bytes

  abbrev pub bulk_of_size : ℕ → B.State × Option ℕ → Outcome (B.State × Bulk)
  bulk_of_size buffer_size (s, none) = ok (s, not_all 0)
  bulk_of_size buffer_size (s, some n) = read_bulk_bytes buffer_size s n

  unfoldable pub read_bulkstr : ℕ → B.State → Outcome (B.State × Bulk)
  read_bulkstr buffer_size s =
      if B.is_eof s
      then ok (s, not_all 0)
      else expect_mark b'$' s >>= read_int_body >>= bulk_of_size buffer_size
