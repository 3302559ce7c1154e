-- ===== src/Protocol/MemStream/Bytes.antt =====
-- A MemStreamReader is a stream of the bytes behind its position.
use akumuli.Base.{
  ℕ, suc, ◌+◌, ◌-◌, ◌^◌, ◌≤◌, ◌<◌, ◌≡◌, ◌≢◌, refl, ap, sym, subst, ◌∙◌, arith, min, List, [], ◌∷◌,
  ◌++◌, length, drop, All, length-append, append_assoc, append-nil, eq→==, ne→==, lt→ltb, ltb-false,
}
use akumuli.Protocol.ByteStream.{IsStream, line, no_line}
use akumuli.Protocol.Window.{
  window, length-window, window_behind, window_first, take-window, get_or-window, find_line-there,
  find_line-not_there,
}
use akumuli.Protocol.MemStream.{
  MemStreamReader, size, mem_stream, get, pick, is_eof, read, read_line,
}

abbrev pub IsReader : MemStreamReader → Type 0
IsReader b = b.pos ≤ size b

abbrev pub unread : MemStreamReader → List ℕ
unread b = window b.buf b.pos (size b)

unread_size : (b : MemStreamReader) → IsReader b → length (unread b) ≡ size b - b.pos
unread_size b v = length-window b.buf b.pos (size b) v (omega arith)

advance-IsReader :
    (b : MemStreamReader) (xs ys : List ℕ)
    → IsReader b
    → unread b ≡ xs ++ ys
    → (length xs ≤ size b - b.pos) × IsReader (record b { pos = b.pos + length xs })
advance-IsReader b xs ys v e =
    let sum : length xs + length ys ≡ size b - b.pos =
      sym (length-append xs ys) ∙ sym (ap (λ (t : List ℕ). length t) e) ∙ unread_size b v in
    (omega (arith, sum), omega (arith, sum, v))

pub mem_stream-IsStream : IsStream mem_stream IsReader unread
unfolding get pick is_eof read read_line
mem_stream-IsStream = record {
  at_end = λ b v e.
      let none_left : b.pos ≡ (size b) =
        omega (arith, unread_size b v, ap (λ (t : List ℕ). length t) e, v) in
      (
        eq→== b.pos (size b) none_left,
        rw (ltb-false b.pos (size b) (omega (arith, none_left))) refl,
      );
  next_byte = λ b c cs v e.
      let more : b.pos ≢ (size b) =
        λ q. absurd (omega (arith, q, unread_size b v, ap (λ (t : List ℕ). length t) e)) in
      let inside : b.pos < size b =
        omega (arith, v, unread_size b v, ap (λ (t : List ℕ). length t) e) in
      let (small, v') = advance-IsReader b (c ∷ []) cs v e in
      let byte = get_or-window b.buf b.pos (size b) c cs e in
      (
        ne→== b.pos (size b) more,
        rw (lt→ltb b.pos (size b) inside, byte) refl,
        record b { pos = b.pos + 1 },
        rw (lt→ltb b.pos (size b) inside, byte) refl,
        v',
        window_behind b.buf b.pos (size b) (c ∷ []) cs e,
      );
  read_first = λ b xs ys v e.
      let (small, v') = advance-IsReader b xs ys v e in
      let n : min (length xs) ((size b) - b.pos) ≡ length xs = omega (arith, small) in
      (
        record b { pos = b.pos + length xs },
        rw (n, window_first b.buf b.pos (size b) xs ys e) refl,
        v',
        window_behind b.buf b.pos (size b) xs ys e,
      );
  read_rest = λ b n v h word.
      let e : unread b ≡ unread b ++ [] = sym (append-nil (unread b)) in
      let (small, v') = advance-IsReader b (unread b) [] v e in
      let all : min n (size b - b.pos) ≡ length (unread b) = omega (arith, unread_size b v, h) in
      (
        record b { pos = b.pos + length (unread b) },
        rw (all, window_first b.buf b.pos (size b) (unread b) [] e) refl,
        v',
        window_behind b.buf b.pos (size b) (unread b) [] e,
      );
  read_line_there = λ b xs ys quota v e h lt word. line_there b xs ys quota v e h lt word;
  read_line_not_there = λ b quota v h lt word. no_line_there b quota v h lt word;
  read_line_quota = λ b quota v h le word.
      let asked : min quota (size b - b.pos) ≡ quota = omega (arith, le, unread_size b v) in
      let none_there = find_line-not_there quota (drop b.pos b.buf) (
        subst (λ (t : List ℕ). All (λ (c : ℕ). c ≢ 10) t)
          (take-window b.buf b.pos (size b) quota (omega (arith, le, unread_size b v))) h) in
      rw (asked, none_there) refl;
}
  where
    line_there :
        (b : MemStreamReader) (xs ys : List ℕ) (quota : ℕ)
        → IsReader b
        → unread b ≡ xs ++ 10 ∷ ys
        → All (λ (c : ℕ). c ≢ 10) xs
        → length xs < quota
        → quota < 2 ^ 32
        → (b' : MemStreamReader) × (read_line b quota ≡ (b', line (xs ++ 10 ∷ [])))
          × IsReader b'
          × (unread b' ≡ ys)
    line_there b xs ys quota v e h lt word =
        let xs' = xs ++ 10 ∷ [] in
        let e' : unread b ≡ xs' ++ ys = e ∙ sym (append_assoc xs (10 ∷ []) ys) in
        let (small, v') = advance-IsReader b xs' ys v e' in
        let len : suc (length xs) ≡ length xs' = omega (arith, length-append xs (10 ∷ [])) in
        let found =
          find_line-there (min quota ((size b) - b.pos)) ((size b) - b.pos) (drop b.pos b.buf) xs ys
            e h (omega (arith, lt, small, len)) in
        (
          record b { pos = b.pos + length xs' },
          rw (found, len, window_first b.buf b.pos (size b) xs' ys e') refl,
          v',
          window_behind b.buf b.pos (size b) xs' ys e',
        )

    no_line_there :
        (b : MemStreamReader) (quota : ℕ)
        → IsReader b
        → All (λ (c : ℕ). c ≢ 10) (unread b)
        → length (unread b) < quota
        → quota < 2 ^ 32
        → read_line b quota ≡ (b, no_line (length (unread b)))
    no_line_there b quota v h lt word =
        let all_of = unread_size b v in
        let all : min quota ((size b) - b.pos) ≡ (size b) - b.pos = omega (arith, lt, all_of) in
        rw (all, find_line-not_there ((size b) - b.pos) (drop b.pos b.buf) h, all_of) refl
