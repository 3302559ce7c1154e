-- ===== src/Protocol/MemStream.antt =====
-- akumulid/stream.h, stream.cpp: MemStreamReader, a stream over bytes in memory.
pub mod Bytes
use akumuli.Base.{
  ℕ, zero, suc, ◌+◌, ◌-◌, min, Bool, Option, none, some, List, [], ◌∷◌, length, get_or, take, drop,
  ltb, ◌==◌, if◌then◌else◌,
}
use akumuli.Base.Outcome.{Outcome, ok, panic}
use akumuli.Protocol.ByteStream.{ByteStream, Line, line, no_line, find_line}

pub record MemStreamReader : Type 0 where
  pub buf : List ℕ
  pub cons : ℕ
  pub pos : ℕ

-- size_
abbrev pub size : MemStreamReader → ℕ
size m = length m.buf

unfoldable pub init : List ℕ → MemStreamReader
init buffer = record { buf = buffer; cons = 0; pos = 0 }

unfoldable pub get : MemStreamReader → Outcome (MemStreamReader × ℕ)
get m =
    if ltb m.pos (size m) then ok (record m { pos = m.pos + 1 }, get_or m.buf m.pos 0) else panic

unfoldable pub pick : MemStreamReader → Outcome ℕ
pick m = if ltb m.pos (size m) then ok (get_or m.buf m.pos 0) else panic

unfoldable pub is_eof : MemStreamReader → Bool
is_eof m = m.pos == size m

unfoldable pub read : MemStreamReader → ℕ → MemStreamReader × List ℕ
read m buffer_len =
    let nbytes = min buffer_len (size m - m.pos) in
    (record m { pos = m.pos + nbytes }, take nbytes (drop m.pos m.buf))

abbrev pub line_of : MemStreamReader → ℕ → Option ℕ → MemStreamReader × Line
line_of m to_read (some copied) =
    (record m { pos = m.pos + copied }, line (take copied (drop m.pos m.buf)))
line_of m to_read none = (m, no_line to_read)

unfoldable pub read_line : MemStreamReader → ℕ → MemStreamReader × Line
read_line m quota =
    let to_read = min quota (size m - m.pos) in
    line_of m to_read (find_line to_read (drop m.pos m.buf))

unfoldable pub close : MemStreamReader → MemStreamReader
close m = record m { pos = size m }

unfoldable pub consume : MemStreamReader → MemStreamReader
consume m = record m { cons = m.pos }

unfoldable pub discard : MemStreamReader → MemStreamReader
discard m = record m { pos = m.cons }

abbrev pub mem_stream : ByteStream
mem_stream = record {
  State = MemStreamReader;
  get = get;
  pick = pick;
  is_eof = is_eof;
  read = read;
  read_line = read_line;
}
