-- ===== src/Protocol/Examples.antt =====
-- The theorems on the protocol at concrete inputs.
use akumuli.Base.{ℕ, ◌≡◌, refl, arith, true, false, some, none, replicate, List, [], ◌∷◌, All}
use akumuli.Base.Ints.{pos}
use akumuli.Base.Outcome.{ok, panic, undefined}
use akumuli.Protocol.MemStream.{MemStreamReader, mem_stream}
use akumuli.Protocol.MemStream.Bytes.{IsReader, unread, mem_stream-IsStream}
use akumuli.Protocol.ReadBuffer.{ReadBuffer, read_buffer, pull, push, discard}
use akumuli.Protocol.ReadBuffer.Bytes.{IsBuffer, read_buffer-IsStream}
use akumuli.Protocol.Resp.Pieces.{read_int-resumed}
use akumuli.Protocol.ReadBuffer.Bytes as BufferBytes
use akumuli.Protocol.ReadBuffer.Space.{Ready, pull-Ready, push-unread}
use akumuli.Protocol.Resp.{read_int, read_string, read_bulkstr, bulk}
use akumuli.Protocol.Resp.Ints.{IsDigit, value, value_from, ReadsInt, read_int-value}
use akumuli.Protocol.Resp.Strings.{
  read_string-text, read_string_empty, read_bulkstr-bulk, read_bulkstr-split,
}

abbrev reader : List ℕ → MemStreamReader
reader bytes = record { buf = bytes; cons = 0; pos = 0 }

one_two : All IsDigit (b'1' ∷ b'2' ∷ [])
one_two = ((omega arith, omega arith), ((omega arith, omega arith), tt))

two : All IsDigit (b'2' ∷ [])
two = ((omega arith, omega arith), tt)

two_value : value (b'2' ∷ []) ≡ 2
unfolding value_from
two_value = refl

read_int-value_example :
    ReadsInt mem_stream IsReader unread mem_stream-IsStream
      (read_int mem_stream (reader (b':' ∷ b'1' ∷ b'2' ∷ 13 ∷ 10 ∷ 7 ∷ [])))
      (value (b'1' ∷ b'2' ∷ []))
      (7 ∷ [])
read_int-value_example =
    read_int-value mem_stream IsReader unread mem_stream-IsStream
      (reader (b':' ∷ b'1' ∷ b'2' ∷ 13 ∷ 10 ∷ 7 ∷ [])) (b'1' ∷ b'2' ∷ []) (7 ∷ []) true
      (omega arith) refl one_two (omega arith)

read_string-text_example :
    (s' : MemStreamReader) × (read_string mem_stream 28 (reader (b'+' ∷ b'a' ∷ 13 ∷ 10 ∷ []))
      ≡ ok (s', some (b'a' ∷ [])))
    × IsReader s'
    × (unread s' ≡ [])
read_string-text_example =
    read_string-text mem_stream IsReader unread mem_stream-IsStream
      (reader (b'+' ∷ b'a' ∷ 13 ∷ 10 ∷ [])) (b'a' ∷ []) [] 28 (omega arith) refl
      ((λ e. absurd (omega (arith, e))), tt) (omega arith)

read_string_empty_example : read_string mem_stream 28 (reader (b'+' ∷ 10 ∷ [])) ≡ undefined
read_string_empty_example =
    read_string_empty mem_stream IsReader unread mem_stream-IsStream (reader (b'+' ∷ 10 ∷ [])) [] 28
      (omega arith) refl (omega arith)

read_bulkstr-bulk_example :
    (s' : MemStreamReader) × (read_bulkstr mem_stream 64
        (reader (b'$' ∷ b'2' ∷ 13 ∷ 10 ∷ 10 ∷ 5 ∷ 10 ∷ 9 ∷ []))
      ≡ ok (s', bulk (10 ∷ 5 ∷ [])))
    × IsReader s'
    × (unread s' ≡ 9 ∷ [])
read_bulkstr-bulk_example =
    read_bulkstr-bulk mem_stream IsReader unread mem_stream-IsStream
      (reader (b'$' ∷ b'2' ∷ 13 ∷ 10 ∷ 10 ∷ 5 ∷ 10 ∷ 9 ∷ [])) (b'2' ∷ []) (10 ∷ 5 ∷ []) (9 ∷ [])
      true false 64 (omega arith) refl two (omega arith) two_value (omega arith) (omega arith)

read_bulkstr-split_example :
    read_bulkstr mem_stream 64 (reader (b'$' ∷ b'2' ∷ 13 ∷ 10 ∷ 10 ∷ 5 ∷ 13 ∷ [])) ≡ panic
read_bulkstr-split_example =
    read_bulkstr-split mem_stream IsReader unread mem_stream-IsStream
      (reader (b'$' ∷ b'2' ∷ 13 ∷ 10 ∷ 10 ∷ 5 ∷ 13 ∷ [])) (b'2' ∷ []) (10 ∷ 5 ∷ []) true 64
      (omega arith) refl two (omega arith) two_value (omega arith) (omega arith)

-- A buffer of four bytes of which the first two are consumed.
abbrev nearly_full : ReadBuffer
nearly_full = record {
  buffer_size = 2;
  buffer = 1 ∷ 2 ∷ 3 ∷ 4 ∷ [];
  rpos = 3;
  wpos = 4;
  cons = 2;
  buffers_allocated = pos 0;
}

nearly_full-IsBuffer : IsBuffer nearly_full
nearly_full-IsBuffer = record {
  consumed = omega arith;
  readable = omega arith;
  written = omega arith;
  word = omega arith;
}

pull-Ready_example : (b' : ReadBuffer) × (pull nearly_full ≡ (b', b'.wpos)) × Ready nearly_full b'
pull-Ready_example = pull-Ready nearly_full nearly_full-IsBuffer (omega arith) (omega arith)

abbrev half_full : ReadBuffer
half_full = record nearly_full { wpos = 3; rpos = 2 }

half_full-IsBuffer : IsBuffer half_full
half_full-IsBuffer = record {
  consumed = omega arith;
  readable = omega arith;
  written = omega arith;
  word = omega arith;
}

push-unread_example :
    IsBuffer (push half_full (9 ∷ [])) × (BufferBytes.unread (push half_full (9 ∷ [])) ≡ 3 ∷ 9 ∷ [])
push-unread_example = push-unread half_full (9 ∷ []) half_full-IsBuffer (omega arith)

-- Of ":12\r\n" the first two bytes.
abbrev first_piece : ReadBuffer
first_piece = record {
  buffer_size = 4;
  buffer = b':' ∷ b'1' ∷ replicate 6 0;
  rpos = 0;
  wpos = 2;
  cons = 0;
  buffers_allocated = pos 0;
}

first_piece-IsBuffer : IsBuffer first_piece
first_piece-IsBuffer = record {
  consumed = omega arith;
  readable = omega arith;
  written = omega arith;
  word = omega arith;
}

read_int-resumed_example :
    (b₁ : ReadBuffer) × (b₂ : ReadBuffer) × (read_int read_buffer first_piece ≡ ok (b₁, none))
    × (b₁.buffers_allocated ≡ pos 0)
    × (pull (discard b₁) ≡ (b₂, b₂.wpos))
    × (b₂.buffers_allocated ≡ pos 1)
    × ((push b₂ (b'2' ∷ 13 ∷ 10 ∷ [])).buffers_allocated ≡ pos 0)
    × ReadsInt read_buffer IsBuffer BufferBytes.unread read_buffer-IsStream
        (read_int read_buffer (push b₂ (b'2' ∷ 13 ∷ 10 ∷ [])))
        (value (b'1' ∷ b'2' ∷ []))
        []
read_int-resumed_example =
    read_int-resumed first_piece (b':' ∷ b'1' ∷ []) (b'2' ∷ 13 ∷ 10 ∷ []) (b'1' ∷ b'2' ∷ []) [] true
      first_piece-IsBuffer refl refl refl
      ((λ e. absurd (omega (arith, e))), ((λ e. absurd (omega (arith, e))), tt)) (omega arith)
      one_two (omega arith) refl (omega arith) (omega arith) (omega arith)
