-- ===== src/Protocol/Resp/Strings.antt =====
-- Strings and bulk strings of the protocol.
use akumuli.Base.{
  ℕ, ◌+◌, ◌-◌, ◌≤◌, ◌<◌, ◌≡◌, ◌≢◌, inl, inr, refl, sym, ◌∙◌, arith, min, Bool, true, false, some,
  List, [], ◌∷◌, ◌++◌, length, All, All-append, length-append, append_assoc, get_or-append_right,
  take-append, ltb-false, ne→==,
}
use akumuli.Base.Outcome.{ok, panic, undefined}
use akumuli.Protocol.ByteStream.{ByteStream, IsStream}
use akumuli.Protocol.Resp.{
  without_end, string_of_line, read_string_body, read_string, expect_mark, string_length_max,
  bulk_length_max, bulk, read_eol, read_bulk_bytes, read_bulkstr,
}
use akumuli.Protocol.Resp.Ints.{IsDigit, value, before_lf, read_int_body-value}

without_end-crlf : (text : List ℕ) → without_end (text ++ 13 ∷ 10 ∷ []) ≡ ok text
unfolding without_end
without_end-crlf text =
    let len : length (text ++ 13 ∷ 10 ∷ []) ≡ length text + 2 = length-append text (13 ∷ 10 ∷ []) in
    let last : length (text ++ 13 ∷ 10 ∷ []) - 1 ≡ length text + 1 = omega (arith, len) in
    let before : length (text ++ 13 ∷ 10 ∷ []) - 2 ≡ length text + 0 = omega (arith, len) in
    let whole : length text + 0 ≡ length text = omega arith in
    rw
      (
        last,
        get_or-append_right text (13 ∷ 10 ∷ []) 1 0,
        ne→== (length (text ++ 13 ∷ 10 ∷ [])) 1 (λ e. absurd (omega (arith, e, len))),
        before,
        get_or-append_right text (13 ∷ 10 ∷ []) 0 0,
        whole,
        take-append (length text) text (13 ∷ 10 ∷ []) refl,
      )
      refl

module _ (B : ByteStream) (IsValid : B.State → Type 0) (bytes_of : B.State → List ℕ)
    (L : IsStream B IsValid bytes_of) where
  -- A string without \n, after a plus and before \r\n, that fits the buffer and the longest string with
  -- its end, is read as it is, and the stream is then behind it.
  pub read_string-text :
      (s : B.State) (text tail : List ℕ) (byte_buffer_size : ℕ)
      → IsValid s
      → bytes_of s ≡ b'+' ∷ (text ++ 13 ∷ 10 ∷ tail)
      → All (λ (c : ℕ). c ≢ 10) text
      → length text + 1 < min byte_buffer_size string_length_max
      → (s' : B.State) × (read_string B byte_buffer_size s ≡ ok (s', some text))
        × IsValid s'
        × (bytes_of s' ≡ tail)
  unfolding read_string expect_mark read_string_body string_of_line
  read_string-text s text tail size v e h fits =
      let (more, picked, s₁, got, v₁, rest₁) = L.next_byte s b'+' (text ++ 13 ∷ 10 ∷ tail) v e in
      let xs = text ++ 13 ∷ [] in
      let quota = min size string_length_max in
      let rest' : bytes_of s₁ ≡ xs ++ 10 ∷ tail =
        rest₁ ∙ sym (append_assoc text (13 ∷ []) (10 ∷ tail)) in
      let none_is_lf =
        All-append (λ (c : ℕ). c ≢ 10) text (13 ∷ []) h ((λ q. absurd (omega (arith, q))), tt) in
      let (s', read, v', rest) =
        L.read_line_there s₁ xs tail quota v₁ rest' none_is_lf
          (omega (arith, fits, length-append text (13 ∷ []))) (omega arith) in
      let same : xs ++ 10 ∷ [] ≡ text ++ 13 ∷ 10 ∷ [] = append_assoc text (13 ∷ []) (10 ∷ []) in
      (s', rw (more, got) (rw (read) (rw (same, without_end-crlf text) refl)), v', rest)

  -- Of an empty string that ends with \n alone, the byte before the buffer is read.
  pub read_string_empty :
      (s : B.State) (tail : List ℕ) (byte_buffer_size : ℕ)
      → IsValid s
      → bytes_of s ≡ b'+' ∷ 10 ∷ tail
      → 0 < byte_buffer_size
      → read_string B byte_buffer_size s ≡ undefined
  unfolding read_string expect_mark read_string_body string_of_line without_end
  read_string_empty s tail size v e room =
      let (more, picked, s₁, got, v₁, rest₁) = L.next_byte s b'+' (10 ∷ tail) v e in
      let (s', read, v', rest) =
        L.read_line_there s₁ [] tail (min size string_length_max) v₁ rest₁ tt (omega (arith, room))
          (omega arith) in
      rw (more, got) (rw (read) refl)

  read_eol-lf :
      (s : B.State) (bytes tail : List ℕ) (cr : Bool)
      → IsValid s
      → bytes_of s ≡ before_lf cr ++ 10 ∷ tail
      → (s' : B.State) × (read_eol B s bytes ≡ ok (s', bulk bytes))
        × IsValid s'
        × (bytes_of s' ≡ tail)
  unfolding read_eol
  read_eol-lf s bytes tail true v e =
      let (more, picked, s₁, got, v₁, rest₁) = L.next_byte s 13 (10 ∷ tail) v e in
      let (more', picked', s₂, got', v₂, rest₂) = L.next_byte s₁ 10 tail v₁ rest₁ in
      (s₂, rw (more, got, got') refl, v₂, rest₂)
  read_eol-lf s bytes tail false v e =
      let (more, picked, s₁, got, v₁, rest₁) = L.next_byte s 10 tail v e in
      (s₁, rw (more, got) refl, v₁, rest₁)

  -- The size is read, and then as many bytes.
  read_bulkstr-read_eol :
      (s : B.State) (ds bytes behind : List ℕ) (cr : Bool) (buffer_size : ℕ)
      → IsValid s
      → bytes_of s ≡ b'$' ∷ (ds ++ (before_lf cr ++ 10 ∷ (bytes ++ behind)))
      → All IsDigit ds
      → length ds ≤ 20
      → value ds ≡ length bytes
      → length bytes ≤ bulk_length_max
      → length bytes ≤ buffer_size
      → (s' : B.State) × (read_bulkstr B buffer_size s ≡ read_eol B s' bytes)
        × IsValid s'
        × (bytes_of s' ≡ behind)
  unfolding read_bulkstr expect_mark read_bulk_bytes
  read_bulkstr-read_eol s ds bytes behind cr buffer_size v e h few size max room =
      let (more, picked, s₁, got, v₁, rest₁) =
        L.next_byte s b'$' (ds ++ (before_lf cr ++ 10 ∷ (bytes ++ behind))) v e in
      elim (read_int_body-value B IsValid bytes_of L s₁ ds (bytes ++ behind) cr v₁ rest₁ h few) [
        | inr (large, thrown) ↦ absurd (omega (arith, large, size, max))
        | inl (word, s₂, parsed, v₂, rest₂) ↦
            let (s₃, read, v₃, rest₃) = L.read_first s₂ bytes behind v₂ rest₂ in
            (
              s₃,
              rw (more, got)
                  (rw (parsed) (
                    rw (size) (
                      rw (read) (
                        rw
                          (
                            ltb-false bulk_length_max (length bytes) max,
                            ltb-false buffer_size (length bytes) room,
                            ltb-false (length bytes) (length bytes) (omega arith),
                          )
                          refl)))),
              v₃,
              rest₃,
            )
      ]

  -- A bulk string, which is its size in at most twenty digits, after a dollar, and as many bytes, each
  -- with \n or \r\n behind, is read as these bytes, and the stream is then behind it, if they fit the
  -- buffer and the longest bulk string.
  pub read_bulkstr-bulk :
      (s : B.State) (ds bytes tail : List ℕ) (cr cr' : Bool) (buffer_size : ℕ)
      → IsValid s
      → bytes_of s ≡ b'$' ∷ (ds ++ (before_lf cr ++ 10 ∷ (bytes ++ (before_lf cr' ++ 10 ∷ tail))))
      → All IsDigit ds
      → length ds ≤ 20
      → value ds ≡ length bytes
      → length bytes ≤ bulk_length_max
      → length bytes ≤ buffer_size
      → (s' : B.State) × (read_bulkstr B buffer_size s ≡ ok (s', bulk bytes))
        × IsValid s'
        × (bytes_of s' ≡ tail)
  read_bulkstr-bulk s ds bytes tail cr cr' buffer_size v e h few size max room =
      let (s₁, so_far, v₁, rest₁) =
        read_bulkstr-read_eol s ds bytes (before_lf cr' ++ 10 ∷ tail) cr buffer_size v e h few size
          max room in
      let (s', end, v', rest) = read_eol-lf s₁ bytes tail cr' v₁ rest₁ in
      (s', so_far ∙ end, v', rest)

  -- A bulk string that ends with \r\n, of which all but the last \n has come in, is an exception.
  pub read_bulkstr-split :
      (s : B.State) (ds bytes : List ℕ) (cr : Bool) (buffer_size : ℕ)
      → IsValid s
      → bytes_of s ≡ b'$' ∷ (ds ++ (before_lf cr ++ 10 ∷ (bytes ++ 13 ∷ [])))
      → All IsDigit ds
      → length ds ≤ 20
      → value ds ≡ length bytes
      → length bytes ≤ bulk_length_max
      → length bytes ≤ buffer_size
      → read_bulkstr B buffer_size s ≡ panic
  unfolding read_eol
  read_bulkstr-split s ds bytes cr buffer_size v e h few size max room =
      let (s₁, so_far, v₁, rest₁) =
        read_bulkstr-read_eol s ds bytes (13 ∷ []) cr buffer_size v e h few size max room in
      let (more, picked, s₂, got, v₂, rest₂) = L.next_byte s₁ 13 [] v₁ rest₁ in
      let (eof, thrown) = L.at_end s₂ v₂ rest₂ in so_far ∙ rw (more, got, thrown) refl
