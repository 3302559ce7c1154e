-- ===== src/Storage/MemStore/Blocks.antt =====
-- A block store in memory, as the list of the blocks that were appended.
use akumuli.Base.{
  ℕ, ◌+◌, ◌*◌, ◌^◌, ◌≤◌, ◌<◌, ◌≡◌, inl, inr, refl, ap, sym, ◌∙◌, arith, Bool, true, false, ◌&&◌,
  Option, none, some, List, [], ◌∷◌, ◌++◌, length, take, drop, get_elem?, length-append, ltb, leb,
  All, All-append, append-nil, Bool-cases, flatten, flatten-append, length-flatten, slice-flatten,
  get_elem?-some, get_elem?-none, ltb-false, lt→ltb,
}
use akumuli.Base.Words.{u32, sub64}
use akumuli.Base.Outcome.{ok}
use akumuli.Status.{Status, success, ebad_arg, eunavailable, is_success}
use akumuli.Storage.IoVecBlock.{IoVecBlock, replace, init_whole}
use akumuli.Storage.IoVecBlock.View.{IsSplit}
use akumuli.Storage.Volume.{block_bytes}
use akumuli.Storage.Volume.Bytes.{length-block_bytes}
use akumuli.Storage.MemStore.{
  MemStore, memstore_base, log_call, Call, append_callback, read_callback, append_block,
  read_iovec_block, exists,
}
use native.Mathlib.Decide.{dec_lt}

-- `s` holds the blocks `bs`, of which the first ones may have been removed.
pub record Holds (s : MemStore) (bs : List (List ℕ)) : Type 0 where
  pub bytes : s.buffer ≡ flatten bs
  pub whole : All (λ (x : List ℕ). length x ≡ 4096) bs
  pub position : s.write_pos ≡ length bs
  pub few : length bs < 2 ^ 20

Holds-size : (s : MemStore) (bs : List (List ℕ)) → Holds s bs → length s.buffer ≡ length bs * 4096
Holds-size s bs h = ap (λ (t : List ℕ). length t) h.bytes ∙ length-flatten 4096 bs h.whole

abbrev pub answer_of : Option (List ℕ) → Bool → Status × Option IoVecBlock
answer_of none removed = (ebad_arg, none)
answer_of (some block) true = (eunavailable, none)
answer_of (some block) false = (success, some (replace init_whole 0 block))

-- What a list of blocks answers for the block at index `i`.
unfoldable pub answer : List (List ℕ) → ℕ → ℕ → Status × Option IoVecBlock
answer bs removed i = answer_of (get_elem? bs i) (ltb i removed)

Holds-append :
    (s s' : MemStore) (bs : List (List ℕ)) (block : List ℕ)
    → Holds s bs
    → length block ≡ 4096
    → length bs + 1 < 2 ^ 20
    → s'.buffer ≡ s.buffer ++ block
    → s'.write_pos ≡ u32 (s.write_pos + 1)
    → Holds s' (bs ++ block ∷ [])
unfolding flatten
Holds-append s s' bs block h len small grown moved = record {
  bytes =
      grown
      ∙ ap (λ (t : List ℕ). t ++ block) h.bytes
      ∙ ap (λ (t : List ℕ). flatten bs ++ t) (sym (append-nil block))
      ∙ sym (flatten-append bs (block ∷ []));
  whole = All-append (λ (x : List ℕ). length x ≡ 4096) bs (block ∷ []) h.whole (len, tt);
  position = omega (arith, moved, h.position, small, length-append bs (block ∷ []));
  few = omega (arith, small, length-append bs (block ∷ []));
}

-- A callback changes only the log of the calls.
record SameStore (s s' : MemStore) : Type 0 where
  buffer_eq : s'.buffer ≡ s.buffer
  removed_pos_eq : s'.removed_pos ≡ s.removed_pos
  write_pos_eq : s'.write_pos ≡ s.write_pos

log_call-SameStore :
    (present : Bool) (call : Call) (s : MemStore) → SameStore s (log_call present call s)
log_call-SameStore true call s = record {
  buffer_eq = refl;
  removed_pos_eq = refl;
  write_pos_eq = refl;
}
log_call-SameStore false call s = record {
  buffer_eq = refl;
  removed_pos_eq = refl;
  write_pos_eq = refl;
}

SameStore-Holds : (s s' : MemStore) (bs : List (List ℕ)) → Holds s bs → SameStore s s' → Holds s' bs
SameStore-Holds s s' bs h same = record {
  bytes = same.buffer_eq ∙ h.bytes;
  whole = h.whole;
  position = same.write_pos_eq ∙ h.position;
  few = h.few;
}

-- A store in memory is the list of its blocks: a block of components is appended at the end of the
-- list, while that has fewer than 2^20 blocks after it, and its address is its index behind the base.
pub append_block-Holds :
    (s : MemStore) (bs : List (List ℕ)) (b : IoVecBlock)
    → Holds s bs
    → IsSplit b
    → length bs + 1 < 2 ^ 20
    → (s' : MemStore) × (append_block s b
        ≡ (s', record b { addr = memstore_base + length bs }, success, memstore_base + length bs))
      × Holds s' (bs ++ block_bytes b ∷ [])
      × (s'.removed_pos ≡ s.removed_pos)
unfolding append_block block_bytes
append_block-Holds s bs b h split small =
    let addr : u32 (s.write_pos + memstore_base) ≡ memstore_base + length bs =
      omega (arith, h.position, small) in
    let grown = record s { buffer = s.buffer ++ block_bytes b } in
    let call = append_callback (s.write_pos + memstore_base) in
    let told = log_call s.has_append_callback call grown in
    let same = log_call-SameStore s.has_append_callback call grown in
    let s' : MemStore = record told { write_pos = u32 (s.write_pos + 1) } in
    (
      s',
      ap (λ (a : ℕ). (s', record b { addr = a }, success, a)) addr,
      Holds-append s s' bs (block_bytes b) h (length-block_bytes b split) small same.buffer_eq refl,
      same.removed_pos_eq,
    )

-- Reading at an address is looking the block up in the list of the blocks, for an index below
-- 2^20 - 1: the answer is an error behind the list's end, and for a block that was removed.
pub read_iovec_block-answer :
    (s : MemStore) (bs : List (List ℕ)) (i : ℕ)
    → Holds s bs
    → i + 1 < 2 ^ 20
    → (s' : MemStore) × (read_iovec_block s (memstore_base + i)
        ≡ ok (s', (answer bs s.removed_pos i).0, (answer bs s.removed_pos i).1))
      × Holds s' bs
unfolding read_iovec_block answer
read_iovec_block-answer s bs i h small =
    let back : sub64 (memstore_base + i) memstore_base ≡ i = omega (arith, small) in
    let offset : u32 (4096 * i) ≡ 4096 * i = omega (arith, small) in
    let end : u32 (4096 * i + 4096) ≡ 4096 * i + 4096 = omega (arith, small) in
    let size = Holds-size s bs h in
    elim (dec_lt i (length bs)) [
      | yes there ↦
          let (block, e) = get_elem?-some bs i there in
          let inside : ltb (length s.buffer) (4096 * i + 4096) ≡ false =
            ltb-false (length s.buffer) (4096 * i + 4096) (omega (arith, size, there)) in
          elim (Bool-cases (ltb i s.removed_pos)) [
            | inl removed ↦ (s, rw (e, back, offset, end, inside, removed) refl, h)
            | inr kept ↦
                let call = read_callback i in
                let s' = log_call s.has_read_callback call s in
                let bytes : take 4096 (drop (4096 * i) s.buffer) ≡ block =
                  ap (λ (t : List ℕ). take 4096 (drop (4096 * i) t)) h.bytes
                  ∙ slice-flatten 4096 bs i block h.whole e in
                (
                  s',
                  rw (e, back, offset, end, inside, kept, bytes) refl,
                  SameStore-Holds s s' bs h (log_call-SameStore s.has_read_callback call s),
                )
          ]
      | no behind ↦
          let outside : ltb (length s.buffer) (4096 * i + 4096) ≡ true =
            lt→ltb (length s.buffer) (4096 * i + 4096) (omega (arith, size, behind)) in
          (s, rw (get_elem?-none bs i (omega (arith, behind)), back, offset, end, outside) refl, h)
    ]

-- `exists` is true where the list of the blocks answers with a block, for an index below 2^20 - 1.
pub exists-answer :
    (s : MemStore) (bs : List (List ℕ)) (i : ℕ)
    → Holds s bs
    → i + 1 < 2 ^ 20
    → exists s (memstore_base + i) ≡ is_success (answer bs s.removed_pos i).0
unfolding exists answer is_success
exists-answer s bs i h small =
    let back : sub64 (memstore_base + i) memstore_base ≡ i = omega (arith, small) in
    elim (dec_lt i (length bs)) [
      | yes there ↦
          let (block, e) = get_elem?-some bs i there in
          rw (e, back, h.position, lt→ltb i (length bs) there)
            (elim (dec_lt i s.removed_pos) [
              | yes removed ↦
                  rw (lt→ltb i s.removed_pos removed, leb_below i s.removed_pos removed) refl
              | no kept ↦
                  rw
                    (
                      ltb-false i s.removed_pos (omega (arith, kept)),
                      leb_above i s.removed_pos (omega (arith, kept)),
                    )
                    refl
            ])
      | no behind ↦
          rw
            (
              get_elem?-none bs i (omega (arith, behind)),
              back,
              h.position,
              ltb-false i (length bs) (omega (arith, behind)),
            )
            (and_false (leb s.removed_pos i))
    ]
  where
    leb_below : (i n : ℕ) → i < n → leb n i ≡ false
    leb_below i n h = ground arith

    leb_above : (i n : ℕ) → n ≤ i → leb n i ≡ true
    leb_above i n h = ground arith

    and_false : (p : Bool) → (p && false) ≡ false
    and_false true = refl
    and_false false = refl
