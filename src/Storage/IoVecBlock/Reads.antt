-- ===== src/Storage/IoVecBlock/Reads.antt =====
-- `read_chunk` on the bytes of a block.
use akumuli.Base.{
  ℕ, suc, ◌+◌, ◌-◌, ◌*◌, ◌/◌, ◌%◌, ◌≤◌, ◌<◌, ◌≡◌, ◌⊎◌, inl, inr, ap, sym, ◌∙◌, arith, List, [],
  ◌++◌, length, get_or, take, drop, length-append, eq→==, ne→==, list_ext, length-slice,
  get_or-slice, get_or-tabulate, get_or-append_left, get_or-append_right,
}
use akumuli.Base.Words.{u32}
use akumuli.Base.Outcome.{ok, undefined}
use akumuli.Storage.IoVecBlock.{IoVecBlock, component}
use akumuli.Storage.IoVecBlock.Chunks.{read_chunk, read_two, read_at}
use akumuli.Storage.IoVecBlock.View.{byte_at, contents, length-contents, IsSplit, IsSplit-is_whole}
use native.Mathlib.Decide.{dec_lt, ℕ_discrete}

-- The `size` bytes from `offset` on.
abbrev pub slice : IoVecBlock → ℕ → ℕ → List ℕ
slice b offset size = take size (drop offset (contents b))

slice_byte :
    (b : IoVecBlock) (offset size i : ℕ)
    → offset + size ≤ b.pos
    → i < size
    → get_or (slice b offset size) i 0 ≡ byte_at b (offset + i)
slice_byte b offset size i h below =
    get_or-slice size offset (contents b) i 0 below
    ∙ unfold contents in get_or-tabulate (byte_at b) b.pos (offset + i) 0 (omega arith)

read_at_lem :
    (b : IoVecBlock) (c offset size : ℕ)
    → c < 4
    → length (component b c) ≡ 1024
    → offset + size ≤ 1024
    → read_at b c offset size ≡ ok (take size (drop offset (component b c)))
unfolding read_at
read_at_lem b c offset size h there fits = ground (arith, there)

-- Within one component.
slice_one :
    (b : IoVecBlock) (c off size : ℕ)
    → length (component b c) ≡ 1024
    → off + size ≤ 1024
    → c * 1024 + off + size ≤ b.pos
    → take size (drop off (component b c)) ≡ slice b (c * 1024 + off) size
slice_one b c off size there fits h =
    list_ext size _ _ 0 (length-slice size off (component b c) (omega (arith, there)))
      (length-slice size (c * 1024 + off) (contents b) (omega (arith, length-contents b))) one_byte
  where
    one_byte :
        (i : ℕ)
        → i < size
        → get_or (take size (drop off (component b c))) i 0
          ≡ get_or (slice b (c * 1024 + off) size) i 0
    one_byte i below =
        get_or-slice size off (component b c) i 0 below
        ∙ ap (λ (k : ℕ). get_or (component b c) k 0) (omega arith)
        ∙ ap (λ (k : ℕ). get_or (component b k) ((c * 1024 + off + i) % 1024) 0) (omega arith)
        ∙ sym (slice_byte b (c * 1024 + off) size i h below)

-- Over the end of component `c`.
slice_two :
    (b : IoVecBlock) (c off size : ℕ)
    → length (component b c) ≡ 1024
    → length (component b (suc c)) ≡ 1024
    → off < 1024
    → 1024 ≤ off + size
    → size ≤ 1024
    → c * 1024 + off + size ≤ b.pos
    → take (1024 - off) (drop off (component b c))
        ++ take (size - (1024 - off)) (drop 0 (component b (suc c)))
      ≡ slice b (c * 1024 + off) size
slice_two b c off size there there' inside across small h =
    rw
      (
        slice_one b c off (1024 - off) there (omega arith) (omega arith),
        slice_one b (suc c) 0 (size - (1024 - off)) there' (omega arith) (omega arith),
      )
      (list_ext size _ _ 0 whole_length
        (length-slice size (c * 1024 + off) (contents b) (omega (arith, length-contents b)))
        one_byte)
  where
    first : List ℕ
    first = slice b (c * 1024 + off) (1024 - off)

    second : List ℕ
    second = slice b (suc c * 1024 + 0) (size - (1024 - off))

    first_length : length first ≡ 1024 - off
    first_length =
        length-slice (1024 - off) (c * 1024 + off) (contents b) (omega (arith, length-contents b))

    whole_length : length (first ++ second) ≡ size
    whole_length = omega (
      arith,
      length-append first second,
      first_length,
      length-slice (size - (1024 - off)) (suc c * 1024 + 0) (contents b)
          (omega (arith, length-contents b)),
    )

    one_byte :
        (i : ℕ)
        → i < size
        → get_or (first ++ second) i 0 ≡ get_or (slice b (c * 1024 + off) size) i 0
    one_byte i below = elim (dec_lt i (1024 - off)) [
      | yes left ↦
          get_or-append_left first second i 0 (omega (arith, first_length))
          ∙ slice_byte b (c * 1024 + off) (1024 - off) i (omega arith) left
          ∙ sym (slice_byte b (c * 1024 + off) size i h below)
      | no right ↦
          ap (λ (k : ℕ). get_or (first ++ second) k 0) {y = length first + (i - (1024 - off))}
            (omega (arith, first_length))
          ∙ get_or-append_right first second (i - (1024 - off)) 0
          ∙ slice_byte b (suc c * 1024 + 0) (size - (1024 - off)) (i - (1024 - off)) (omega arith)
              (omega arith)
          ∙ ap (byte_at b) (omega arith)
          ∙ sym (slice_byte b (c * 1024 + off) size i h below)
    ]

-- In a block of components, `read_chunk` of at most a component's size before the write position gives
-- the bytes that stand there, if the component in which the byte behind them would stand has bytes too.
pub read_chunk_lem :
    (b : IoVecBlock) (offset size : ℕ)
    → IsSplit b
    → size ≤ 1024
    → offset + size ≤ b.pos
    → (offset + size) / 1024 * 1024 < b.pos
    → read_chunk b offset size ≡ ok (size, slice b offset size)
unfolding read_chunk read_two
read_chunk_lem b offset size v small within there =
    let c = offset / 1024 in
    let off = offset % 1024 in
    let split : offset ≡ c * 1024 + off = omega arith in
    let end : u32 (offset + size) / 1024 ≡ (offset + size) / 1024 = omega (arith, v.within) in
    let full = v.filled c (omega arith) in
    rw (IsSplit-is_whole b v, end)
      (elim (ℕ_discrete c ((offset + size) / 1024)) [
        | yes same ↦
            let got =
              slice_one b c off size full (omega arith) (omega arith)
              ∙ ap (λ (o : ℕ). slice b o size) (sym split) in
            rw
              (
                eq→== c _ same,
                read_at_lem b c off size (omega (arith, v.within)) full (omega arith),
              )
              (ground (arith, full, got, v.within))
        | no across ↦
            let next : (offset + size) / 1024 ≡ suc c = omega arith in
            let full' = v.filled (suc c) (omega arith) in
            let got =
              slice_two b c off size full full' (omega arith) (omega arith) small (omega arith)
              ∙ ap (λ (o : ℕ). slice b o size) (sym split) in
            rw
              (
                next,
                ne→== c (suc c) (λ e. absurd (omega (arith, e))),
                read_at_lem b c off (1024 - off) (omega (arith, v.within)) full (omega arith),
                read_at_lem b (suc c) 0 (size - (1024 - off)) (omega (arith, v.within)) full'
                    (omega arith),
              )
              (ground (arith, full, full', got, v.within))
      ])

-- The last bytes of a block that ends where a component ends, and not within one more: `read_chunk`
-- answers zero, though the bytes are there, and reads behind the last component of a full block.
pub read_chunk_at_end :
    (b : IoVecBlock) (offset size : ℕ)
    → IsSplit b
    → 0 < size
    → size ≤ 1024
    → offset + size ≡ b.pos
    → b.pos % 1024 ≡ 0
    → length (component b (b.pos / 1024)) ≡ 0
    → ((b.pos < 4096) × ((bytes : List ℕ) × (read_chunk b offset size ≡ ok (0, bytes))))
      ⊎ ((b.pos ≡ 4096) × (read_chunk b offset size ≡ undefined))
unfolding read_chunk read_two
read_chunk_at_end b offset size v some_bytes small end whole empty =
    let c = offset / 1024 in
    let off = offset % 1024 in
    let full = v.filled c (omega arith) in
    let last : u32 (offset + size) / 1024 ≡ b.pos / 1024 = omega (arith, v.within) in
    let apart = ne→== c (b.pos / 1024) (λ e. absurd (omega (arith, e))) in
    let first = read_at_lem b c off (1024 - off) (omega (arith, v.within)) full (omega arith) in
    elim (dec_lt b.pos 4096) [
      | yes room ↦ inl (
        room,
        (
          take (1024 - off) (drop off (component b c)) ++ [],
          rw (IsSplit-is_whole b v, last, apart, first, empty) (ground (arith, full, v.within)),
        ),
      )
      | no top ↦ inr (
        omega (arith, v.within),
        rw (IsSplit-is_whole b v, last, apart, first, empty) (ground (arith, full, v.within)),
      )
    ]
