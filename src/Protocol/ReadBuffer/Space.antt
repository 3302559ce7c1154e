-- ===== src/Protocol/ReadBuffer/Space.antt =====
-- The room of a ReadBuffer: what `pull` makes for the network, and what `push` adds to the stream.
use akumuli.Base.{
  ℕ, ◌+◌, ◌-◌, ◌*◌, ◌^◌, ◌≤◌, ◌<◌, ◌≡◌, refl, ap, ◌∙◌, arith, List, ◌++◌, length, drop, replicate,
  splice, length-append, length-splice, length-replicate, length-drop, ltb, Bool-cases, inl, inr,
  lt→ltb, ltb-false,
}
use akumuli.Base.Words.{u32}
use akumuli.Base.Ints.{increment}
use akumuli.Protocol.Window.{window, window-append, window-drop, window-splice}
use akumuli.Protocol.ReadBuffer.{ReadBuffer, pull, push}
use akumuli.Protocol.ReadBuffer.Bytes.{IsBuffer, unread}
use native.Mathlib.Decide.{dec_lt}

-- A buffer that is made ready for the network: the bytes since the last `consume` and the unread bytes
-- are the same, and a piece of the buffer's size fits behind them.
pub record Ready (b b' : ReadBuffer) : Type 0 where
  pub valid : IsBuffer b'
  pub room : b'.wpos + b.buffer_size ≤ length b'.buffer
  pub unread_eq : unread b' ≡ unread b
  pub message_eq : window b'.buffer b'.cons b'.wpos ≡ window b.buffer b.cons b.wpos

splice_at_zero :
    (buf : List ℕ) (n pos stop : ℕ)
    → n ≤ pos
    → pos ≤ stop
    → stop ≤ length buf
    → window (splice buf 0 (drop n buf)) (pos - n) (stop - n)
      ≡ window (drop n buf) (pos - n) (stop - n)
unfolding splice
splice_at_zero buf n pos stop h k l =
    window-append (drop n buf) (drop (0 + length (drop n buf)) buf) (pos - n) (stop - n)
      (omega (arith, k)) (omega (arith, l, length-drop n buf))

-- `pull` makes room for a piece of the buffer's size and loses no byte that is not consumed, in a
-- buffer that has room for a piece in all and can be doubled within 32 bits.
pub pull-Ready :
    (b : ReadBuffer)
    → IsBuffer b
    → b.buffer_size ≤ length b.buffer
    → length b.buffer * 2 < 2 ^ 32
    → (b' : ReadBuffer) × (pull b ≡ (b', b'.wpos)) × Ready b b'
unfolding pull
pull-Ready b v fits small =
    let sz = length b.buffer - b.wpos in
    elim (dec_lt sz b.buffer_size) [
      | no enough ↦ (
        record b { buffers_allocated = increment b.buffers_allocated },
        rw (ltb-false sz b.buffer_size (omega (arith, enough))) refl,
        record {
          valid = record {
            consumed = v.consumed;
            readable = v.readable;
            written = v.written;
            word = v.word;
          };
          room = omega (arith, enough, v.written);
          unread_eq = refl;
          message_eq = refl;
        },
      )
      | yes short ↦ elim (dec_lt b.buffer_size (b.cons + sz)) [
        | yes rotate ↦
            let moved = drop b.cons b.buffer in
            let len : length moved ≡ length b.buffer - b.cons = length-drop b.cons b.buffer in
            let same = length-splice b.buffer 0 moved 0 (omega (arith, len)) in
            let order = v.consumed in
            let order' = v.readable in
            (
              record b {
                buffers_allocated = increment b.buffers_allocated;
                buffer = splice b.buffer 0 moved;
                wpos = b.wpos - b.cons;
                rpos = b.rpos - b.cons;
                cons = 0;
              },
              rw (lt→ltb sz b.buffer_size short, lt→ltb b.buffer_size (b.cons + sz) rotate) refl,
              record {
                valid = record {
                  consumed = omega arith;
                  readable = omega (arith, order');
                  written = omega (arith, same, v.written);
                  word = omega (arith, same, v.word);
                };
                room = omega (arith, same, rotate, order, order', v.written);
                unread_eq = rotated b.buffer b.cons b.rpos b.wpos order order' v.written;
                message_eq =
                    ap (λ (k : ℕ). window (splice b.buffer 0 moved) k (b.wpos - b.cons))
                      (omega arith)
                    ∙ rotated b.buffer b.cons b.cons b.wpos (omega arith)
                        (omega (arith, order, order')) v.written;
              },
            )
        | no double ↦
            let len : length (b.buffer ++ replicate (length b.buffer) 0)
                ≡ length b.buffer + length b.buffer =
              length-append b.buffer (replicate (length b.buffer) 0)
              ∙ ap (λ (k : ℕ). length b.buffer + k)
                  (length-replicate {A = ℕ} (length b.buffer) 0) in
            (
              record b {
                buffers_allocated = increment b.buffers_allocated;
                buffer = b.buffer ++ replicate (length b.buffer) 0;
              },
              rw
                  (
                    lt→ltb sz b.buffer_size short,
                    ltb-false b.buffer_size (b.cons + sz) (omega (arith, double)),
                  )
                  refl,
              record {
                valid = record {
                  consumed = v.consumed;
                  readable = v.readable;
                  written = omega (arith, len, v.written);
                  word = omega (arith, len, small);
                };
                room = omega (arith, len, fits, v.written);
                unread_eq =
                    window-append b.buffer (replicate (length b.buffer) 0) b.rpos b.wpos v.readable
                      v.written;
                message_eq =
                    window-append b.buffer (replicate (length b.buffer) 0) b.cons b.wpos
                      (omega (arith, v.consumed, v.readable)) v.written;
              },
            )
      ]
    ]
  where
    rotated :
        (buf : List ℕ) (n pos stop : ℕ)
        → n ≤ pos
        → pos ≤ stop
        → stop ≤ length buf
        → window (splice buf 0 (drop n buf)) (pos - n) (stop - n) ≡ window buf pos stop
    rotated buf n pos stop h k l =
        splice_at_zero buf n pos stop h k l ∙ window-drop buf n pos stop h k

-- Every way of `pull` counts the buffer that it hands out.
pub buffers_allocated-pull :
    (b : ReadBuffer) → (pull b).0.buffers_allocated ≡ increment b.buffers_allocated
unfolding pull
buffers_allocated-pull b = elim (Bool-cases (ltb (length b.buffer - b.wpos) b.buffer_size)) [
  | inl short ↦ elim (Bool-cases (ltb b.buffer_size (b.cons + (length b.buffer - b.wpos)))) [
    | inl rotate ↦ rw (short, rotate) refl
    | inr double ↦ rw (short, double) refl
  ]
  | inr enough ↦ rw enough refl
]

-- `push` puts the bytes that were written behind the pointer at the end of the stream.
pub push-unread :
    (b : ReadBuffer) (bytes : List ℕ)
    → IsBuffer b
    → b.wpos + length bytes ≤ length b.buffer
    → IsBuffer (push b bytes) × (unread (push b bytes) ≡ unread b ++ bytes)
unfolding push
push-unread b bytes v room =
    let same = length-splice b.buffer b.wpos bytes 0 room in
    let word : u32 (b.wpos + length bytes) ≡ b.wpos + length bytes = omega (arith, room, v.word) in
    (
      record {
        consumed = v.consumed;
        readable = omega (arith, word, v.readable);
        written = omega (arith, word, same, room);
        word = omega (arith, same, v.word);
      },
      ap (λ (k : ℕ). window (splice b.buffer b.wpos bytes) b.rpos k) word
          ∙ window-splice b.buffer b.rpos b.wpos bytes v.readable room,
    )
