-- ===== src/Protocol/Resp/Pieces.antt =====
-- An integer that comes in in two pieces, through a ReadBuffer.
use akumuli.Base.{
  ℕ, ◌+◌, ◌*◌, ◌^◌, ◌≤◌, ◌<◌, ◌≡◌, ◌≢◌, refl, ap, sym, subst, ◌∙◌, arith, Bool, none, List, [], ◌∷◌,
  ◌++◌, length, get_or, All, ne→==, ==→ne,
}
use akumuli.Base.Words.{u32}
use akumuli.Base.Ints.{pos, increment, decrement}
use akumuli.Base.Outcome.{ok}
use akumuli.Protocol.ReadBuffer.{ReadBuffer, read_buffer, get, discard, pull, push, is_eof}
use akumuli.Protocol.ReadBuffer.Bytes.{IsBuffer, unread, read_buffer-IsStream}
use akumuli.Protocol.ReadBuffer.Space.{pull-Ready, push-unread, buffers_allocated-pull}
use akumuli.Protocol.Resp.{expect_mark, read_int, read_int_body, int_of_line, max_digits}
use akumuli.Protocol.Resp.Ints.{IsDigit, value, before_lf, ReadsInt, read_int-value}

-- Going back after one byte.
discard-get :
    (b b₁ : ReadBuffer) (c : ℕ)
    → b.cons ≡ b.rpos
    → b.rpos ≢ b.wpos
    → get b ≡ ok (b₁, c)
    → discard b₁ ≡ b
unfolding get discard
discard-get b b₁ c start more e =
    let got : get b ≡ ok (record b { rpos = u32 (b.rpos + 1) }, get_or b.buffer b.rpos 0) =
      rw (ne→== b.rpos b.wpos more) refl in
    let same : b₁ ≡ record b { rpos = u32 (b.rpos + 1) } = inj (sym e ∙ got) in
    ap (λ (t : ReadBuffer). record t { rpos = t.cons }) same
    ∙ ap (λ (k : ℕ). record b { rpos = k }) start
  where
    inj : {p q : ReadBuffer × ℕ} → ok p ≡ ok q → p.0 ≡ q.0
    inj h = ap (λ (t : ReadBuffer × ℕ). t.0) (whole h)
      where
        whole : {p q : ReadBuffer × ℕ} → ok p ≡ ok q → p ≡ q
        whole h = cc

-- The first piece of a message, which has no end of line: the answer asks for more, and `discard` goes
-- back to the start.
read_int_first :
    (b : ReadBuffer) (first : List ℕ)
    → IsBuffer b
    → b.cons ≡ b.rpos
    → unread b ≡ first
    → All (λ (c : ℕ). c ≢ 10) first
    → length first ≤ 21
    → ((c : ℕ) (cs : List ℕ) → first ≡ c ∷ cs → c ≡ b':')
    → (b₁ : ReadBuffer) × (read_int read_buffer b ≡ ok (b₁, none)) × (discard b₁ ≡ b)
unfolding read_int expect_mark read_int_body int_of_line discard is_eof
read_int_first b [] v start e h small mark =
    let (eof, thrown) = read_buffer-IsStream.at_end b v e in
    (b, rw eof refl, ap (λ (k : ℕ). record b { rpos = k }) start)
read_int_first b (c ∷ cs) v start e h small mark =
    let (more, picked, b₁, got, v₁, rest) = read_buffer-IsStream.next_byte b c cs v e in
    (
      b₁,
      rw (more, got, mark c cs refl) (no_number b₁ cs v₁ rest h.1 (omega (arith, small))),
      discard-get b b₁ c start (==→ne b.rpos b.wpos more) got,
    )
  where
    no_number :
        (b₁ : ReadBuffer) (cs : List ℕ)
        → IsBuffer b₁
        → unread b₁ ≡ cs
        → All (λ (c : ℕ). c ≢ 10) cs
        → length cs ≤ 20
        → read_int_body read_buffer b₁ ≡ ok (b₁, none)
    no_number b₁ cs v₁ rest h few =
        let len : length (unread b₁) ≡ length cs = ap (λ (t : List ℕ). length t) rest in
        let asked =
          read_buffer-IsStream.read_line_not_there b₁ max_digits v₁
            (subst (λ (t : List ℕ). All (λ (c : ℕ). c ≢ 10) t) (sym rest) h)
            (omega (arith, len, few)) (omega arith) in
        rw (asked) (
          rw (ne→== (length (unread b₁)) max_digits (λ q. absurd (omega (arith, q, len, few))))
            refl)

-- An integer of at most twenty digits whose first piece, without the end of the line, is all that a
-- ReadBuffer has of a message: reading it asks for more, and when the buffer has gone back to the start
-- of the message (`discard`), has made room (`pull`) and has got the second piece (`push`), the integer
-- is read as if it had come in at once. No buffer is handed out before `discard` and after `push`, and
-- one between `pull` and `push`, as the asserts of the code want. The conditions: no buffer is handed out
-- at first, the second piece has at most the size that is handed out, which the whole buffer has room
-- for, and the buffer can be doubled within 32 bits.
pub read_int-resumed :
    (b : ReadBuffer) (first second ds tail : List ℕ) (cr : Bool)
    → IsBuffer b
    → b.cons ≡ b.rpos
    → unread b ≡ first
    → first ++ second ≡ b':' ∷ (ds ++ (before_lf cr ++ 10 ∷ tail))
    → All (λ (c : ℕ). c ≢ 10) first
    → length first ≤ 21
    → All IsDigit ds
    → length ds ≤ 20
    → b.buffers_allocated ≡ pos 0
    → length second ≤ b.buffer_size
    → b.buffer_size ≤ length b.buffer
    → length b.buffer * 2 < 2 ^ 32
    → (b₁ : ReadBuffer) × (b₂ : ReadBuffer) × (read_int read_buffer b ≡ ok (b₁, none))
      × (b₁.buffers_allocated ≡ pos 0)
      × (pull (discard b₁) ≡ (b₂, b₂.wpos))
      × (b₂.buffers_allocated ≡ pos 1)
      × ((push b₂ second).buffers_allocated ≡ pos 0)
      × ReadsInt read_buffer IsBuffer unread read_buffer-IsStream
          (read_int read_buffer (push b₂ second))
          (value ds)
          tail
unfolding discard push
read_int-resumed b first second ds tail cr v start e whole h small digits few idle fits size word =
    let (b₁, asked, back) =
      read_int_first b first v start e h small
        (first_mark first second (ds ++ (before_lf cr ++ 10 ∷ tail)) whole) in
    let (b₂, pulled, ready) = pull-Ready b v size word in
    let room = ready.room in
    let (v', unread_eq) = push-unread b₂ second ready.valid (omega (arith, room, fits)) in
    let one : b₂.buffers_allocated ≡ pos 1 =
      sym (ap (λ (t : ReadBuffer × ℕ). t.0.buffers_allocated) pulled)
      ∙ buffers_allocated-pull b
      ∙ ap increment idle in
    let input : unread (push b₂ second) ≡ b':' ∷ (ds ++ (before_lf cr ++ 10 ∷ tail)) =
      unread_eq ∙ ap (λ (t : List ℕ). t ++ second) (ready.unread_eq ∙ e) ∙ whole in
    (
      b₁,
      b₂,
      asked,
      ap (λ (t : ReadBuffer). t.buffers_allocated) back ∙ idle,
      ap pull back ∙ pulled,
      one,
      ap decrement one,
      read_int-value read_buffer IsBuffer unread read_buffer-IsStream (push b₂ second) ds tail cr v'
          input digits few,
    )
  where
    first_mark :
        (first second behind : List ℕ)
        → first ++ second ≡ b':' ∷ behind
        → (c : ℕ) (cs : List ℕ) → first ≡ c ∷ cs
        → c ≡ b':'
    first_mark first second behind whole c cs e =
        head (c ∷ (cs ++ second)) (b':' ∷ behind) (sym (ap (λ (t : List ℕ). t ++ second) e) ∙ whole)
      where
        head : (xs ys : List ℕ) → xs ≡ ys → get_or xs 0 0 ≡ get_or ys 0 0
        head xs ys q = ap (λ (t : List ℕ). get_or t 0 0) q
