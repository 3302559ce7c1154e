-- ===== src/Storage/FileStorage/Append.antt =====
-- FileStorage::append_block of a fixed-size store, with a volume that has room and with one that is full.
use akumuli.Base.{
  ℕ, ◌+◌, ◌%◌, ◌^◌, ◌≤◌, ◌<◌, ◌≡◌, ◌⊎◌, inl, inr, refl, ap, sym, subst, ◌∙◌, arith, true, false,
  some, List, length, get_elem?, get_elem?-some, set_same, Bool-cases,
}
use akumuli.Base.Outcome.{ok}
use akumuli.Status.{success, is_success, is_overflow}
use akumuli.Storage.IoVecBlock.{IoVecBlock, replace, init_whole}
use akumuli.Storage.IoVecBlock.View.{IsSplit}
use akumuli.Storage.MetaVolume.{VolumeRef}
use akumuli.Storage.Volume.{Files, IsReliable, Volume, append_block, block_bytes}
use akumuli.Storage.Volume.Blocks.{append_block_full}
use akumuli.Storage.FileStorage.{
  Store, exists, read_iovec_block, extract_gen, extract_vol, make_logic, with_volume, finish_append,
  append, append_next, handle_volume_transition,
}
use akumuli.Storage.FileStorage.Addresses.{extract_gen-make_logic, extract_vol-make_logic}
use akumuli.Storage.FileStorage.Invariant.{IsStore}
use akumuli.Storage.FileStorage.Lookup.{volix, exists-found}
use akumuli.Storage.FileStorage.Fixed.{Kept, Current, IsStore-Current, Stored, append_room}
use akumuli.Storage.FileStorage.Transition.{Moved, handle_volume_transition-Moved}
use native.Mathlib.Decide.{dec_lt, ℕ_discrete}

module _ (F : Files) where
  -- The generation that the next volume would get fits 32 bits.
  pub record HasGenerations (s : Store F) : Type 0 where
    pub next_fits :
        (r : VolumeRef)
        → get_elem? s.meta.refs ((s.current_volume + 1) % length s.volumes) ≡ some r
        → r.generation + length s.volumes < 2 ^ 32

  -- The block at `a` was in the volume behind the current one, which was full.
  pub record Dropped (s : Store F) (a : ℕ) (s' : Store F) : Type 0 where
    pub was_full :
        (r : VolumeRef) (v : Volume F.Handle) → Current F s r v → v.file_size ≤ v.write_pos
    pub next : volix F s a ≡ (s.current_volume + 1) % length s.volumes
    pub gone : exists F s' a ≡ false

  -- The store after `b` is appended at `addr`.
  pub record Appended (s : Store F) (b : IoVecBlock) (addr : ℕ) (s' : Store F) : Type 0 where
    pub store : IsStore F s'
    pub there : exists F s' addr ≡ true
    pub found :
        read_iovec_block F s' addr ≡ ok (success, some (replace init_whole 0 (block_bytes b)))
    pub fresh : exists F s addr ≡ false
    pub kept : (a : ℕ) → exists F s a ≡ true → (Kept F s s' a) ⊎ (Dropped s a s')

  -- A write that the current volume refuses leaves the store as it is.
  append-append_next :
      (s : Store F) (b : IoVecBlock) (r : VolumeRef) (v : Volume F.Handle)
      → Current F s r v
      → v.file_size ≤ v.write_pos
      → append F s b ≡ append_next F s b
  unfolding append is_overflow
  append-append_next s b r v cur full =
      let same : with_volume F s s.current_volume v ≡ s =
        ap (λ (t : List (Volume F.Handle)). record s { volumes = t })
          (set_same s.volumes s.current_volume v cur.vol) in
      simp (cur.vol, append_block_full F v b full, same) refl

  append_next-finish :
      (s s₁ s' : Store F) (b b' : IoVecBlock) (v v' : Volume F.Handle) (addr at : ℕ)
      → handle_volume_transition F s ≡ ok s₁
      → get_elem? s₁.volumes s₁.current_volume ≡ some v
      → append_block F v b ≡ ok (v', success, at)
      → finish_append F (with_volume F s₁ s₁.current_volume v') b at ≡ ok (s', b', success, addr)
      → append_next F s b ≡ ok (s', b', success, addr)
  unfolding append_next is_success
  append_next-finish s s₁ s' b b' v v' addr at moved hv wrote finished =
      rw (moved) (rw (hv) (rw (wrote) finished))

  append-finish :
      (s s' : Store F) (b b' : IoVecBlock) (v v' : Volume F.Handle) (addr at : ℕ)
      → get_elem? s.volumes s.current_volume ≡ some v
      → append_block F v b ≡ ok (v', success, at)
      → finish_append F (with_volume F s s.current_volume v') b at ≡ ok (s', b', success, addr)
      → append F s b ≡ ok (s', b', success, addr)
  unfolding append is_overflow
  append-finish s s' b b' v v' addr at hv wrote finished = rw (hv) (rw (wrote) finished)

  -- A block of the store before the transition, in the one after the write.
  Kept-after :
      (s s₁ s' : Store F) (b : IoVecBlock) (addr : ℕ) (r : VolumeRef) (v : Volume F.Handle)
      → Moved F s s₁
      → Stored F s₁ b addr s'
      → Current F s r v
      → v.file_size ≤ v.write_pos
      → (a : ℕ) → exists F s a ≡ true
      → (Kept F s s' a) ⊎ (Dropped s a s')
  Kept-after s s₁ s' b addr r v mv st cur full a e =
      elim (ℕ_discrete s₁.current_volume (volix F s a)) [
        | yes lost ↦ inr (record {
          was_full = λ r₁ v₁ cur₁.
              subst (λ (t : Volume F.Handle). t.file_size ≤ t.write_pos)
                (inj (sym cur.vol ∙ cur₁.vol)) full;
          next = sym lost ∙ mv.current_eq;
          gone = elim (Bool-cases (exists F s' a)) [
            | inl still ↦
                let (r', hr') =
                  get_elem?-some s'.meta.refs s'.current_volume
                    (omega (arith, st.store.counts, st.store.current)) in
                let ix : s'.current_volume ≡ volix F s' a =
                  st.current_eq
                  ∙ lost
                  ∙ ap (λ (n : ℕ). extract_gen a % n) (sym (st.count ∙ mv.count)) in
                let (gen, small) =
                  exists-found F s' a r' st.store.fixed
                    (ap (λ (k : ℕ). get_elem? s'.meta.refs k) (sym ix) ∙ hr') still in
                let old : extract_gen a < s₁.current_gen = mv.newer a e lost in
                absurd (omega (arith, gen, old, st.store.gen_eq r' hr', st.current_gen_eq))
            | inr gone ↦ gone
          ];
        })
        | no other ↦
            let k = mv.kept a e other in
            let k' = st.kept a k.there in inl (record { there = k'.there; same = k'.same ∙ k.same })
      ]
    where
      inj : {a b : Volume F.Handle} → some a ≡ some b → a ≡ b
      inj e = cc

  append_full-Appended :
      (s : Store F) (b : IoVecBlock) (r : VolumeRef) (v : Volume F.Handle)
      → IsReliable F
      → IsStore F s
      → IsSplit b
      → HasGenerations s
      → Current F s r v
      → v.file_size ≤ v.write_pos
      → (s' : Store F) × (addr : ℕ) × (append F s b
          ≡ ok (s', record b { addr = extract_vol addr }, success, addr))
        × Appended s b addr s'
  append_full-Appended s b r v R inv split gens cur full =
      let (r₁, hr₁) =
        get_elem?-some s.meta.refs ((s.current_volume + 1) % length s.volumes)
          (omega (arith, inv.counts, inv.some_volumes)) in
      let (s₁, moved, mv) = handle_volume_transition-Moved F s r₁ inv hr₁ (gens.next_fits r₁ hr₁) in
      let (r₂, v₂, cur₂) = IsStore-Current F s₁ mv.store in
      let slot = mv.store.slot s₁.current_volume r₂ v₂ cur₂.ref cur₂.vol in
      let empty = mv.empty r₂ v₂ cur₂ in
      let gen_eq = mv.store.gen_eq r₂ cur₂.ref in
      let (v', s', wrote, finished, st) =
        append_room F s₁ b r₂ v₂ R mv.store split cur₂
          (omega (arith, empty, slot.volume.not_empty)) in
      let addr = make_logic s₁.current_gen v₂.write_pos in
      let vol : extract_vol addr ≡ v₂.write_pos =
        extract_vol-make_logic s₁.current_gen v₂.write_pos (omega (arith, gen_eq, slot.word))
          (omega (arith, empty)) in
      let gen : extract_gen addr ≡ s₁.current_gen =
        extract_gen-make_logic s₁.current_gen v₂.write_pos (omega (arith, gen_eq, slot.word))
          (omega (arith, empty)) in
      (
        s',
        addr,
        append-append_next s b r v cur full
            ∙ append_next-finish s s₁ s' b (record b { addr = v₂.write_pos }) v₂ v' addr
                v₂.write_pos moved cur₂.vol wrote finished
            ∙ ap (λ (k : ℕ). ok (s', record b { addr = k }, success, addr)) (sym vol),
        record {
          store = st.store;
          there = st.there;
          found = st.found;
          fresh = elim (Bool-cases (exists F s addr)) [
            | inl there ↦
                let ix : s₁.current_volume ≡ volix F s addr =
                  sym slot.generation
                  ∙ ap (λ (g : ℕ). g % length s₁.volumes) (sym (gen ∙ gen_eq))
                  ∙ ap (λ (n : ℕ). extract_gen addr % n) mv.count in
                absurd (omega (arith, mv.newer addr there ix, gen))
            | inr not_there ↦ not_there
          ];
          kept = Kept-after s s₁ s' b addr r v mv st cur full;
        },
      )

  -- On a disk without errors, in a fixed-size store between two calls whose volumes have at most 2^20
  -- blocks each (IsStore), a block of components is appended at an address where there was none, and can be read there, if the generation that the
  -- next volume would get fits 32 bits. The store is one between two calls again. Every block that was
  -- there is there and read as before, or it is gone, and then it was in the volume behind the current
  -- one, which was full.
  pub append-Appended :
      (s : Store F) (b : IoVecBlock)
      → IsReliable F
      → IsStore F s
      → IsSplit b
      → HasGenerations s
      → (s' : Store F) × (addr : ℕ) × (append F s b
          ≡ ok (s', record b { addr = extract_vol addr }, success, addr))
        × Appended s b addr s'
  append-Appended s b R inv split gens =
      let (r, v, cur) = IsStore-Current F s inv in
      elim (dec_lt v.write_pos v.file_size) [
        | yes room ↦
            let slot = inv.slot s.current_volume r v cur.ref cur.vol in
            let gen_eq = inv.gen_eq r cur.ref in
            let (v', s', wrote, finished, st) = append_room F s b r v R inv split cur room in
            let addr = make_logic s.current_gen v.write_pos in
            let vol : extract_vol addr ≡ v.write_pos =
              extract_vol-make_logic s.current_gen v.write_pos (omega (arith, gen_eq, slot.word))
                (omega (arith, room, slot.volume.few)) in
            (
              s',
              addr,
              append-finish s s' b (record b { addr = v.write_pos }) v v' addr v.write_pos cur.vol
                    wrote finished
                  ∙ ap (λ (k : ℕ). ok (s', record b { addr = k }, success, addr)) (sym vol),
              record {
                store = st.store;
                there = st.there;
                found = st.found;
                fresh = st.fresh;
                kept = λ a e. inl (st.kept a e);
              },
            )
        | no full ↦ append_full-Appended s b r v R inv split gens cur (omega (arith, full))
      ]
