-- ===== src/Protocol/ReadBuffer/Bytes.antt =====
-- A ReadBuffer is a stream of the bytes between its read and its write position.
use akumuli.Base.{
  ℕ, suc, ◌+◌, ◌-◌, ◌^◌, ◌≤◌, ◌<◌, ◌≡◌, ◌≢◌, refl, ap, sym, subst, ◌∙◌, arith, min, List, [], ◌∷◌,
  ◌++◌, length, drop, All, length-append, eq→==, ne→==, append_assoc, append-nil,
}
use akumuli.Base.Words.{u32}
use akumuli.Protocol.ByteStream.{IsStream, line, no_line}
use akumuli.Protocol.Window.{
  window, length-window, window_behind, window_first, take-window, get_or-window, find_line-there,
  find_line-not_there,
}
use akumuli.Protocol.ReadBuffer.{ReadBuffer, read_buffer, get, pick, is_eof, read, read_line}

pub record IsBuffer (b : ReadBuffer) : Type 0 where
  pub consumed : b.cons ≤ b.rpos
  pub readable : b.rpos ≤ b.wpos
  pub written : b.wpos ≤ length b.buffer
  pub word : length b.buffer < 2 ^ 32

abbrev pub unread : ReadBuffer → List ℕ
unread b = window b.buffer b.rpos b.wpos

unread_size : (b : ReadBuffer) → IsBuffer b → length (unread b) ≡ b.wpos - b.rpos
unread_size b v = length-window b.buffer b.rpos b.wpos v.readable v.written

-- The read position behind the first unread bytes.
advance-IsBuffer :
    (b : ReadBuffer) (xs ys : List ℕ)
    → IsBuffer b
    → unread b ≡ xs ++ ys
    → (u32 (b.rpos + length xs) ≡ b.rpos + length xs)
      × (length xs ≤ b.wpos - b.rpos)
      × IsBuffer (record b { rpos = b.rpos + length xs })
advance-IsBuffer b xs ys v e =
    let size = unread_size b v in
    let sum : length xs + length ys ≡ b.wpos - b.rpos =
      sym (length-append xs ys) ∙ sym (ap (λ (t : List ℕ). length t) e) ∙ size in
    (
      omega (arith, sum, v.word, v.written, v.readable),
      omega (arith, sum),
      record {
        consumed = omega (arith, v.consumed);
        readable = omega (arith, sum, v.readable);
        written = v.written;
        word = v.word;
      },
    )

pub read_buffer-IsStream : IsStream read_buffer IsBuffer unread
unfolding get pick is_eof read read_line
read_buffer-IsStream = record {
  at_end = λ b v e.
      let none_left : b.rpos ≡ b.wpos =
        omega (arith, unread_size b v, ap (λ (t : List ℕ). length t) e, v.readable) in
      (eq→== b.rpos b.wpos none_left, rw (eq→== b.rpos b.wpos none_left) refl);
  next_byte = λ b c cs v e.
      let more : b.rpos ≢ b.wpos =
        λ q. absurd (omega (arith, q, unread_size b v, ap (λ (t : List ℕ). length t) e)) in
      let (fits, small, v') = advance-IsBuffer b (c ∷ []) cs v e in
      let byte = get_or-window b.buffer b.rpos b.wpos c cs e in
      (
        ne→== b.rpos b.wpos more,
        rw (ne→== b.rpos b.wpos more, byte) refl,
        record b { rpos = b.rpos + 1 },
        rw (ne→== b.rpos b.wpos more, byte, fits) refl,
        v',
        window_behind b.buffer b.rpos b.wpos (c ∷ []) cs e,
      );
  read_first = λ b xs ys v e.
      let (fits, small, v') = advance-IsBuffer b xs ys v e in
      let n : min (u32 (length xs)) (b.wpos - b.rpos) ≡ length xs =
        omega (arith, small, v.word, v.written) in
      (
        record b { rpos = b.rpos + length xs },
        rw (n, fits, window_first b.buffer b.rpos b.wpos xs ys e) refl,
        v',
        window_behind b.buffer b.rpos b.wpos xs ys e,
      );
  read_rest = λ b n v h word.
      let e : unread b ≡ unread b ++ [] = sym (append-nil (unread b)) in
      let size = unread_size b v in
      let (fits, small, v') = advance-IsBuffer b (unread b) [] v e in
      let all : min (u32 n) (b.wpos - b.rpos) ≡ length (unread b) = omega (arith, size, h, word) in
      (
        record b { rpos = b.rpos + length (unread b) },
        rw (all, fits, window_first b.buffer b.rpos b.wpos (unread b) [] e) refl,
        v',
        window_behind b.buffer b.rpos b.wpos (unread b) [] e,
      );
  read_line_there = λ b xs ys quota v e h lt word. line_there b xs ys quota v e h lt word;
  read_line_not_there = λ b quota v h lt word. no_line_there b quota v h lt word;
  read_line_quota = λ b quota v h le word.
      let asked : min (u32 quota) (b.wpos - b.rpos) ≡ quota =
        omega (arith, le, word, unread_size b v) in
      let none_there = find_line-not_there quota (drop b.rpos b.buffer) (
        subst (λ (t : List ℕ). All (λ (c : ℕ). c ≢ 10) t)
          (take-window b.buffer b.rpos b.wpos quota (omega (arith, le, unread_size b v))) h) in
      rw (asked, none_there) refl;
}
  where
    line_there :
        (b : ReadBuffer) (xs ys : List ℕ) (quota : ℕ)
        → IsBuffer b
        → unread b ≡ xs ++ 10 ∷ ys
        → All (λ (c : ℕ). c ≢ 10) xs
        → length xs < quota
        → quota < 2 ^ 32
        → (b' : ReadBuffer) × (read_line b quota ≡ (b', line (xs ++ 10 ∷ [])))
          × IsBuffer b'
          × (unread b' ≡ ys)
    line_there b xs ys quota v e h lt word =
        let xs' = xs ++ 10 ∷ [] in
        let e' : unread b ≡ xs' ++ ys = e ∙ sym (append_assoc xs (10 ∷ []) ys) in
        let (fits, small, v') = advance-IsBuffer b xs' ys v e' in
        let len : suc (length xs) ≡ length xs' = omega (arith, length-append xs (10 ∷ [])) in
        let found =
          find_line-there (min (u32 quota) (b.wpos - b.rpos)) (b.wpos - b.rpos)
            (drop b.rpos b.buffer) xs ys e h (omega (arith, lt, word, small, len)) in
        (
          record b { rpos = b.rpos + length xs' },
          rw (found, len, fits, window_first b.buffer b.rpos b.wpos xs' ys e') refl,
          v',
          window_behind b.buffer b.rpos b.wpos xs' ys e',
        )

    no_line_there :
        (b : ReadBuffer) (quota : ℕ)
        → IsBuffer b
        → All (λ (c : ℕ). c ≢ 10) (unread b)
        → length (unread b) < quota
        → quota < 2 ^ 32
        → read_line b quota ≡ (b, no_line (length (unread b)))
    no_line_there b quota v h lt word =
        let size = unread_size b v in
        let all : min (u32 quota) (b.wpos - b.rpos) ≡ b.wpos - b.rpos =
          omega (arith, lt, word, size) in
        rw (all, find_line-not_there (b.wpos - b.rpos) (drop b.rpos b.buffer) h, size) refl
