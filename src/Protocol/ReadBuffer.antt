-- ===== src/Protocol/ReadBuffer.antt =====
-- akumulid/protocolparser.h, protocolparser.cpp: ReadBuffer, a stream over a buffer that the network fills.
-- The asserts on the number of buffers that are handed out are compiled out;
-- the number itself is kept.
pub mod Bytes
pub mod Space
use akumuli.Base.{
  ℕ, zero, suc, ◌+◌, ◌-◌, ◌*◌, ◌%◌, ◌^◌, min, Bool, Option, none, some, List, [], ◌∷◌, ◌++◌, length,
  get_or, take, drop, replicate, splice, ltb, ◌==◌, if◌then◌else◌,
}
use akumuli.Base.Words.{u32}
use akumuli.Base.Ints.{ℤ, pos, increment, decrement}
use akumuli.Base.Outcome.{Outcome, ok, panic}
use akumuli.Protocol.ByteStream.{ByteStream, Line, line, no_line, find_line}

pub record ReadBuffer : Type 0 where
  pub buffer_size : ℕ
  pub buffer : List ℕ
  pub rpos : ℕ
  pub wpos : ℕ
  pub cons : ℕ
  pub buffers_allocated : ℤ

abbrev pub n_buf : ℕ
n_buf = 4

unfoldable pub init : ℕ → ReadBuffer
init size = record {
  buffer_size = size;
  buffer = replicate (size * n_buf) 0;
  rpos = 0;
  wpos = 0;
  cons = 0;
  buffers_allocated = pos 0;
}

unfoldable pub get : ReadBuffer → Outcome (ReadBuffer × ℕ)
get b =
    if b.rpos == b.wpos
    then panic
    else ok (record b { rpos = u32 (b.rpos + 1) }, get_or b.buffer b.rpos 0)

unfoldable pub pick : ReadBuffer → Outcome ℕ
pick b = if b.rpos == b.wpos then panic else ok (get_or b.buffer b.rpos 0)

unfoldable pub is_eof : ReadBuffer → Bool
is_eof b = b.rpos == b.wpos

unfoldable pub read : ReadBuffer → ℕ → ReadBuffer × List ℕ
read b buffer_len =
    let to_read = min (u32 buffer_len) (b.wpos - b.rpos) in
    (record b { rpos = u32 (b.rpos + to_read) }, take to_read (drop b.rpos b.buffer))

abbrev pub line_of : ReadBuffer → ℕ → Option ℕ → ReadBuffer × Line
line_of b to_read (some copied) =
    (record b { rpos = u32 (b.rpos + copied) }, line (take copied (drop b.rpos b.buffer)))
line_of b to_read none = (b, no_line to_read)

unfoldable pub read_line : ReadBuffer → ℕ → ReadBuffer × Line
read_line b quota =
    let to_read = min (u32 quota) (b.wpos - b.rpos) in
    line_of b to_read (find_line to_read (drop b.rpos b.buffer))

unfoldable pub consume : ReadBuffer → ReadBuffer
consume b = record b { cons = b.rpos }

unfoldable pub discard : ReadBuffer → ReadBuffer
discard b = record b { rpos = b.cons }

-- The buffer is made larger, or the part that is consumed is left out, if there is too little room; the
-- result has the offset of the pointer that is handed out.
unfoldable pub pull : ReadBuffer → ReadBuffer × ℕ
pull b =
    let taken = record b { buffers_allocated = increment b.buffers_allocated } in
    let sz = length b.buffer - b.wpos in
    let b' =
      (if ltb sz b.buffer_size
        then (if ltb b.buffer_size (b.cons + sz)
            then record taken {
              buffer = splice b.buffer 0 (drop b.cons b.buffer);
              wpos = b.wpos - b.cons;
              rpos = b.rpos - b.cons;
              cons = 0;
            }
            else record taken { buffer = b.buffer ++ replicate (length b.buffer) 0 })
        else taken) in
    (b', b'.wpos)

-- `bytes` is what was written behind the pointer.
unfoldable pub push : ReadBuffer → List ℕ → ReadBuffer
push b bytes = record b {
  buffer = splice b.buffer b.wpos bytes;
  wpos = u32 (b.wpos + length bytes);
  buffers_allocated = decrement b.buffers_allocated;
}

abbrev pub read_buffer : ByteStream
read_buffer = record {
  State = ReadBuffer;
  get = get;
  pick = pick;
  is_eof = is_eof;
  read = read;
  read_line = read_line;
}
