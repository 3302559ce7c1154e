-- ===== src/Storage/FileStorage/Fixed.antt =====
-- A block written where the current volume of a fixed-size store has room.
use akumuli.Base.{
  ℕ, ◌+◌, ◌%◌, ◌^◌, ◌<◌, ◌≡◌, ◌≢◌, inl, inr, refl, ap, sym, ◌∙◌, arith, true, false, some, List,
  length, set, get_elem?, get_elem?-some, length-set, get_elem?-set_self, get_elem?-set_ne,
  Bool-cases,
}
use akumuli.Base.Words.{u32}
use akumuli.Base.Outcome.{ok}
use akumuli.Status.{success, is_success}
use akumuli.Storage.IoVecBlock.{IoVecBlock, replace, init_whole}
use akumuli.Storage.IoVecBlock.View.{IsSplit}
use akumuli.Storage.MetaVolume.{VolumeRef, set_nblocks, change, store_ref}
use akumuli.Storage.Volume.{Files, IsReliable, Volume, append_block, block_bytes}
use akumuli.Storage.Volume.Blocks.{OneMore, append_block-OneMore}
use akumuli.Storage.FileStorage.{
  Store, exists, read_iovec_block, extract_gen, extract_vol, make_logic, with_volume, mark_dirty,
  finish_append,
}
use akumuli.Storage.FileStorage.Addresses.{extract_gen-make_logic, extract_vol-make_logic}
use akumuli.Storage.FileStorage.Invariant.{IsStore, Changed, Changed-IsStore}
use akumuli.Storage.FileStorage.Lookup.{
  volix, exists-found, exists-of, read-there, fetch_eq, fetch-some,
}
use native.Mathlib.Decide.{ℕ_discrete}

module _ (F : Files) where
  -- The block at `a` is there in both stores and is read the same.
  pub record Kept (s s' : Store F) (a : ℕ) : Type 0 where
    pub there : exists F s' a ≡ true
    pub same : read_iovec_block F s' a ≡ read_iovec_block F s a

  -- What a store has after `b` was written at the address `addr`.
  pub record Stored (s : Store F) (b : IoVecBlock) (addr : ℕ) (s' : Store F) : Type 0 where
    pub store : IsStore F s'
    pub there : exists F s' addr ≡ true
    pub found :
        read_iovec_block F s' addr ≡ ok (success, some (replace init_whole 0 (block_bytes b)))
    pub fresh : exists F s addr ≡ false
    pub kept : (a : ℕ) → exists F s a ≡ true → Kept s s' a
    pub current_eq : s'.current_volume ≡ s.current_volume
    pub current_gen_eq : s'.current_gen ≡ s.current_gen
    pub count : length s'.volumes ≡ length s.volumes

  -- The current volume of a store, and its record.
  pub record Current (s : Store F) (r : VolumeRef) (v : Volume F.Handle) : Type 0 where
    pub ref : get_elem? s.meta.refs s.current_volume ≡ some r
    pub vol : get_elem? s.volumes s.current_volume ≡ some v

  pub IsStore-Current :
      (s : Store F) → IsStore F s → (r : VolumeRef) × (v : Volume F.Handle) × Current s r v
  IsStore-Current s inv =
      let (r, hr) =
        get_elem?-some s.meta.refs s.current_volume (omega (arith, inv.counts, inv.current)) in
      let (v, hv) = get_elem?-some s.volumes s.current_volume inv.current in
      (r, v, record { ref = hr; vol = hv })

  -- The store after one more block in its current volume.
  abbrev next_store : Store F → VolumeRef → Volume F.Handle → Store F
  next_store s r v' =
      mark_dirty F
        (record (with_volume F s s.current_volume v') {
          meta = store_ref s.meta s.current_volume (record r { nblocks = v'.write_pos });
        })
        s.current_volume

  finish_append-next_store :
      (s : Store F) (b : IoVecBlock) (r : VolumeRef) (v' : Volume F.Handle) (at : ℕ)
      → get_elem? s.meta.refs s.current_volume ≡ some r
      → v'.write_pos ≡ at + 1
      → at < 2 ^ 20
      → finish_append F (with_volume F s s.current_volume v') b at
        ≡ ok (next_store s r v', record b { addr = at }, success, make_logic s.current_gen at)
  unfolding finish_append set_nblocks change is_success
  finish_append-next_store s b r v' at hr e lt =
      let fits : u32 (at + 1) ≡ v'.write_pos = omega (arith, e, lt) in rw (hr, fits) refl

  -- The parts of `next_store`.
  next_store-Changed :
      (s : Store F) (r : VolumeRef) (v' : Volume F.Handle)
      → Changed F s s.current_volume (record r { nblocks = v'.write_pos }) v' (next_store s r v')
  unfolding store_ref
  next_store-Changed s r v' = record {
    kind_eq = refl;
    current_eq = refl;
    refs_eq = refl;
    volumes_eq = refl;
  }

  -- Look-ups in a store of which only the volume at `c` is another.
  pub record Lookups (s : Store F) (c : ℕ) (r : VolumeRef) (v : Volume F.Handle) (s' : Store F)
      : Type 0 where
    pub count : length s'.volumes ≡ length s.volumes
    pub ref_here : (i : ℕ) → i ≡ c → get_elem? s'.meta.refs i ≡ some r
    pub vol_here : (i : ℕ) → i ≡ c → get_elem? s'.volumes i ≡ some v
    pub ref_other : (i : ℕ) → c ≢ i → get_elem? s'.meta.refs i ≡ get_elem? s.meta.refs i
    pub vol_other : (i : ℕ) → c ≢ i → get_elem? s'.volumes i ≡ get_elem? s.volumes i

  pub Changed-Lookups :
      (s s' : Store F) (c : ℕ) (r : VolumeRef) (v : Volume F.Handle)
      → IsStore F s
      → c < length s.volumes
      → Changed F s c r v s'
      → Lookups s c r v s'
  Changed-Lookups s s' c r v inv lt ch = record {
    count = ap (λ (t : List (Volume F.Handle)). length t) ch.volumes_eq ∙ length-set s.volumes c v;
    ref_here = λ i e.
        ap (λ (t : List VolumeRef). get_elem? t i) ch.refs_eq
        ∙ ap (λ (k : ℕ). get_elem? (set s.meta.refs c r) k) e
        ∙ get_elem?-set_self s.meta.refs c r (omega (arith, inv.counts, lt));
    vol_here = λ i e.
        ap (λ (t : List (Volume F.Handle)). get_elem? t i) ch.volumes_eq
        ∙ ap (λ (k : ℕ). get_elem? (set s.volumes c v) k) e
        ∙ get_elem?-set_self s.volumes c v lt;
    ref_other = λ i ne.
        ap (λ (t : List VolumeRef). get_elem? t i) ch.refs_eq
        ∙ get_elem?-set_ne s.meta.refs c i r ne;
    vol_other = λ i ne.
        ap (λ (t : List (Volume F.Handle)). get_elem? t i) ch.volumes_eq
        ∙ get_elem?-set_ne s.volumes c i v ne;
  }

  -- A block of another volume is read as before.
  pub Kept-other :
      (s s' : Store F) (c : ℕ) (r : VolumeRef) (v : Volume F.Handle) (a : ℕ)
      → IsStore F s
      → c < length s.volumes
      → Changed F s c r v s'
      → c ≢ volix F s a
      → exists F s a ≡ true
      → Kept s s' a
  Kept-other s s' c r v a inv lt ch ne e =
      let look = Changed-Lookups s s' c r v inv lt ch in
      let ix : volix F s' a ≡ volix F s a = ap (λ (n : ℕ). extract_gen a % n) look.count in
      let below : volix F s a < length s.volumes = omega (arith, inv.some_volumes) in
      let (r₁, hr) = get_elem?-some s.meta.refs (volix F s a) (omega (arith, inv.counts, below)) in
      let (v₁, hv) = get_elem?-some s.volumes (volix F s a) below in
      let hr' : get_elem? s'.meta.refs (volix F s' a) ≡ some r₁ =
        ap (λ (k : ℕ). get_elem? s'.meta.refs k) ix ∙ look.ref_other (volix F s a) ne ∙ hr in
      let hv' : get_elem? s'.volumes (volix F s' a) ≡ some v₁ =
        ap (λ (k : ℕ). get_elem? s'.volumes k) ix ∙ look.vol_other (volix F s a) ne ∙ hv in
      let (gen, small) = exists-found F s a r₁ inv.fixed hr e in
      record {
        there = exists-of F s' a r₁ (ch.kind_eq ∙ inv.fixed) hr' gen small;
        same =
            read-there F s' a r₁ v₁ (ch.kind_eq ∙ inv.fixed) hr' hv' gen small
            ∙ sym (read-there F s a r₁ v₁ inv.fixed hr hv gen small);
      }

  -- A block of the current volume is read as before, as the new one is behind it.
  Kept-Current :
      (s s' : Store F) (b : IoVecBlock) (r : VolumeRef) (v v' : Volume F.Handle) (a : ℕ)
      → IsStore F s
      → Current s r v
      → OneMore F v (block_bytes b) v'
      → Changed F s s.current_volume (record r { nblocks = v'.write_pos }) v' s'
      → s.current_volume ≡ volix F s a
      → exists F s a ≡ true
      → Kept s s' a
  Kept-Current s s' b r v v' a inv cur more ch here e =
      let slot = inv.slot s.current_volume r v cur.ref cur.vol in
      let r' : VolumeRef = record r { nblocks = v'.write_pos } in
      let look = Changed-Lookups s s' s.current_volume r' v' inv inv.current ch in
      let ix : volix F s' a ≡ s.current_volume =
        ap (λ (n : ℕ). extract_gen a % n) look.count ∙ sym here in
      let hr : get_elem? s.meta.refs (volix F s a) ≡ some r = rw⁻¹ here cur.ref in
      let hv : get_elem? s.volumes (volix F s a) ≡ some v = rw⁻¹ here cur.vol in
      let (gen, small) = exists-found F s a r inv.fixed hr e in
      let below : extract_vol a < v.write_pos = omega (arith, small, slot.nblocks_eq) in
      let below' : extract_vol a < v'.write_pos = omega (arith, below, more.write_pos_eq) in
      let hr' = look.ref_here (volix F s' a) ix in
      let hv' = look.vol_here (volix F s' a) ix in
      record {
        there = exists-of F s' a r' (ch.kind_eq ∙ inv.fixed) hr' gen below';
        same =
            read-there F s' a r' v' (ch.kind_eq ∙ inv.fixed) hr' hv' gen below'
            ∙ fetch_eq F v v' (extract_vol a) below below' (
                more.others (extract_vol a)
                  (omega (arith, below, slot.volume.within, slot.volume.few))
                  (λ q. absurd (omega (arith, below, q))))
            ∙ sym (read-there F s a r v inv.fixed hr hv gen small);
      }

  Changed-Stored :
      (s s' : Store F) (b : IoVecBlock) (r : VolumeRef) (v v' : Volume F.Handle)
      → IsStore F s
      → Current s r v
      → v.write_pos < v.file_size
      → OneMore F v (block_bytes b) v'
      → Changed F s s.current_volume (record r { nblocks = v'.write_pos }) v' s'
      → s'.current_gen ≡ s.current_gen
      → Stored s b (make_logic s.current_gen v.write_pos) s'
  Changed-Stored s s' b r v v' inv cur room more ch same_gen =
      let slot = inv.slot s.current_volume r v cur.ref cur.vol in
      let r' : VolumeRef = record r { nblocks = v'.write_pos } in
      let addr = make_logic s.current_gen v.write_pos in
      let look = Changed-Lookups s s' s.current_volume r' v' inv inv.current ch in
      let gen_eq = inv.gen_eq r cur.ref in
      let gen : extract_gen addr ≡ s.current_gen =
        extract_gen-make_logic s.current_gen v.write_pos (omega (arith, gen_eq, slot.word))
          (omega (arith, room, slot.volume.few)) in
      let vol : extract_vol addr ≡ v.write_pos =
        extract_vol-make_logic s.current_gen v.write_pos (omega (arith, gen_eq, slot.word))
          (omega (arith, room, slot.volume.few)) in
      let ix : volix F s addr ≡ s.current_volume = rw (gen, gen_eq) slot.generation in
      let ix' : volix F s' addr ≡ s.current_volume =
        ap (λ (n : ℕ). extract_gen addr % n) look.count ∙ ix in
      let hr' = look.ref_here (volix F s' addr) ix' in
      let hv' = look.vol_here (volix F s' addr) ix' in
      let below : extract_vol addr < v'.write_pos = omega (arith, vol, more.write_pos_eq) in
      let hr : get_elem? s.meta.refs (volix F s addr) ≡ some r = rw ix cur.ref in
      record {
        store =
            Changed-IsStore F s s' r' v' inv ch
              (record {
                volume = more.volume;
                nblocks_eq = refl;
                generation = slot.generation;
                word = slot.word;
              })
              (same_gen ∙ gen_eq);
        there = exists-of F s' addr r' (ch.kind_eq ∙ inv.fixed) hr' (sym (gen ∙ gen_eq)) below;
        found =
            read-there F s' addr r' v' (ch.kind_eq ∙ inv.fixed) hr' hv' (sym (gen ∙ gen_eq)) below
            ∙ fetch-some F v' (extract_vol addr) (block_bytes b) below (rw vol more.last);
        fresh = elim (Bool-cases (exists F s addr)) [
          | inl yes_there ↦
              let (same, small) = exists-found F s addr r inv.fixed hr yes_there in
              absurd (omega (arith, small, vol, slot.nblocks_eq))
          | inr not_there ↦ not_there
        ];
        current_eq = ch.current_eq;
        current_gen_eq = same_gen;
        count = look.count;
        kept = λ a e. elim (ℕ_discrete s.current_volume (volix F s a)) [
          | yes here ↦ Kept-Current s s' b r v v' a inv cur more ch here e
          | no other ↦ Kept-other s s' s.current_volume r' v' a inv inv.current ch other e
        ];
      }

  pub append_room :
      (s : Store F) (b : IoVecBlock) (r : VolumeRef) (v : Volume F.Handle)
      → IsReliable F
      → IsStore F s
      → IsSplit b
      → Current s r v
      → v.write_pos < v.file_size
      → (v' : Volume F.Handle) × (s' : Store F) × (append_block F v b
          ≡ ok (v', success, v.write_pos))
        × (finish_append F (with_volume F s s.current_volume v') b v.write_pos
            ≡ ok (
              s',
              record b { addr = v.write_pos },
              success,
              make_logic s.current_gen v.write_pos,
            ))
        × Stored s b (make_logic s.current_gen v.write_pos) s'
  append_room s b r v R inv split cur room =
      let slot = inv.slot s.current_volume r v cur.ref cur.vol in
      let (v', wrote, more, image) = append_block-OneMore F v b R slot.volume split room in
      let s' = next_store s r v' in
      let ch = next_store-Changed s r v' in
      (
        v',
        s',
        wrote,
        finish_append-next_store s b r v' v.write_pos cur.ref more.write_pos_eq
            (omega (arith, room, slot.volume.few)),
        Changed-Stored s s' b r v v' inv cur room more ch refl,
      )
