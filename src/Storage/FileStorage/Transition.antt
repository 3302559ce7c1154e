-- ===== src/Storage/FileStorage/Transition.antt =====
-- The next volume of a fixed-size store, which is recycled where it holds blocks.
use akumuli.Base.{
  ℕ, ◌+◌, ◌*◌, ◌%◌, ◌^◌, ◌<◌, ◌≡◌, ◌≢◌, refl, ap, sym, ◌∙◌, arith, true, some, length, set,
  get_elem?, get_elem?-some, get_elem?-set_self, set-set, ◌==◌, if◌then◌else◌, eq→==, ne→==,
}
use akumuli.Base.Words.{u32}
use akumuli.Base.Outcome.{ok}
use akumuli.Status.{is_success}
use akumuli.Storage.MetaVolume.{
  VolumeRef, get_nblocks, get_generation, set_nblocks, set_generation, change, store_ref,
}
use akumuli.Storage.Volume.{Files, Volume, reset}
use akumuli.Storage.FileStorage.{
  Store, fixed_size, exists, extract_gen, with_volume, mark_dirty, handle_volume_transition,
  adjust_current_volume, recycle,
}
use akumuli.Storage.FileStorage.Invariant.{IsStore, Changed, Changed-IsStore}
use akumuli.Storage.FileStorage.Lookup.{volix, exists-found, exists-of, read-there}
use akumuli.Storage.FileStorage.Fixed.{Kept, Kept-other, Current, Changed-Lookups}
use native.Mathlib.Nat.{add-mul-mod_self_left}
use native.Mathlib.Decide.{ℕ_discrete}

mod_add_self : (a n : ℕ) → (a + n) % n ≡ a % n
mod_add_self a n =
    let one : n ≡ n * 1 = omega arith in
    ap (λ (k : ℕ). (a + k) % n) one ∙ add-mul-mod_self_left a n 1

module _ (F : Files) where
  -- A store whose current volume has become the next one, with room for all its blocks.
  pub record Moved (s s₁ : Store F) : Type 0 where
    pub store : IsStore F s₁
    pub current_eq : s₁.current_volume ≡ (s.current_volume + 1) % length s.volumes
    pub count : length s₁.volumes ≡ length s.volumes
    pub empty : (r : VolumeRef) (v : Volume F.Handle) → Current F s₁ r v → v.write_pos ≡ 0
    pub kept : (a : ℕ) → exists F s a ≡ true → s₁.current_volume ≢ volix F s a → Kept F s s₁ a
    pub newer :
        (a : ℕ)
        → exists F s a ≡ true
        → s₁.current_volume ≡ volix F s a
        → extract_gen a < s₁.current_gen

  -- The store after `adjust_current_volume`, and the generation that is read.
  abbrev moved : Store F → VolumeRef → Store F
  moved s r = record s {
    current_volume = (s.current_volume + 1) % length s.volumes;
    current_gen = r.generation;
  }

  moved-IsStore :
      (s : Store F) (r : VolumeRef)
      → IsStore F s
      → get_elem? s.meta.refs ((s.current_volume + 1) % length s.volumes) ≡ some r
      → IsStore F (moved s r)
  moved-IsStore s r inv hr = record {
    fixed = inv.fixed;
    some_volumes = inv.some_volumes;
    counts = inv.counts;
    current = omega (arith, inv.some_volumes);
    slot = inv.slot;
    gen_eq = λ r₁ e. ap (λ (t : VolumeRef). t.generation) (same r r₁ (sym hr ∙ e));
  }
    where
      same : (r r₁ : VolumeRef) → some r ≡ some r₁ → r ≡ r₁
      same r r₁ e = cc

  -- The record of a volume that is recycled.
  abbrev renewed : Store F → VolumeRef → VolumeRef
  renewed s r = record r { generation = u32 (r.generation + length s.volumes); nblocks = 0 }

  abbrev recycled : Store F → VolumeRef → Volume F.Handle → Store F
  recycled s r v =
      let c = s.current_volume in
      let m =
        store_ref s.meta c (record r { generation = u32 (r.generation + length s.volumes) }) in
      mark_dirty F
        (with_volume F
          (record s {
            current_gen = u32 (r.generation + length s.volumes);
            meta = store_ref m c (renewed s r);
          })
          c (reset v))
        c

  recycle-recycled :
      (s : Store F) (r : VolumeRef) (v : Volume F.Handle)
      → IsStore F s
      → Current F s r v
      → recycle F s ≡ ok (recycled s r v)
  unfolding recycle set_generation set_nblocks change store_ref is_success
  recycle-recycled s r v inv cur =
      let again : get_elem?
            (set s.meta.refs s.current_volume
              (record r { generation = u32 (r.generation + length s.volumes) }))
            s.current_volume
          ≡ some (record r { generation = u32 (r.generation + length s.volumes) }) =
        get_elem?-set_self s.meta.refs s.current_volume
          (record r { generation = u32 (r.generation + length s.volumes) })
          (omega (arith, inv.counts, inv.current)) in
      rw (inv.gen_eq r cur.ref, cur.ref, again, cur.vol) refl

  recycled-Changed :
      (s : Store F) (r : VolumeRef) (v : Volume F.Handle)
      → Changed F s s.current_volume (renewed s r) (reset v) (recycled s r v)
  unfolding store_ref
  recycled-Changed s r v = record {
    kind_eq = refl;
    current_eq = refl;
    refs_eq =
        set-set s.meta.refs s.current_volume
          (record r { generation = u32 (r.generation + length s.volumes) }) (renewed s r);
    volumes_eq = refl;
  }

  -- What holds after a volume with blocks is recycled.
  record Recycled (s : Store F) (r : VolumeRef) (s₁ : Store F) : Type 0 where
    store : IsStore F s₁
    current_eq : s₁.current_volume ≡ s.current_volume
    current_gen_eq : s₁.current_gen ≡ r.generation + length s.volumes
    count : length s₁.volumes ≡ length s.volumes
    empty : (r₁ : VolumeRef) (v₁ : Volume F.Handle) → Current F s₁ r₁ v₁ → v₁.write_pos ≡ 0
    kept : (a : ℕ) → exists F s a ≡ true → s.current_volume ≢ volix F s a → Kept F s s₁ a

  recycled-Recycled :
      (s : Store F) (r : VolumeRef) (v : Volume F.Handle)
      → IsStore F s
      → Current F s r v
      → r.generation + length s.volumes < 2 ^ 32
      → Recycled s r (recycled s r v)
  unfolding reset
  recycled-Recycled s r v inv cur small =
      let s₁ = recycled s r v in
      let ch = recycled-Changed s r v in
      let slot = inv.slot s.current_volume r v cur.ref cur.vol in
      let word : u32 (r.generation + length s.volumes) ≡ r.generation + length s.volumes =
        omega (arith, small) in
      let look =
        Changed-Lookups F s s₁ s.current_volume (renewed s r) (reset v) inv inv.current ch in
      record {
        store =
            Changed-IsStore F s s₁ (renewed s r) (reset v) inv ch
              (record {
                volume = record {
                  size_eq = slot.volume.size_eq;
                  few = slot.volume.few;
                  not_empty = slot.volume.not_empty;
                  within = omega arith;
                };
                nblocks_eq = refl;
                generation =
                    ap (λ (g : ℕ). g % length s.volumes) word
                    ∙ mod_add_self r.generation (length s.volumes)
                    ∙ slot.generation;
                word = omega (arith, word, small);
              })
              refl;
        current_eq = refl;
        current_gen_eq = word;
        count = look.count;
        empty = λ r₁ v₁ cur₁. reset_pos v₁ (sym (look.vol_here s.current_volume refl) ∙ cur₁.vol);
        kept = λ a e ne.
            Kept-other F s s₁ s.current_volume (renewed s r) (reset v) a inv inv.current ch ne e;
      }
    where
      reset_pos : (v₁ : Volume F.Handle) → some (reset v) ≡ some v₁ → v₁.write_pos ≡ 0
      reset_pos v₁ e = ap (λ (t : Volume F.Handle). t.write_pos) (sym (inj v₁ (reset v) e))
        where
          inj : (a b : Volume F.Handle) → some b ≡ some a → b ≡ a
          inj a b e = cc

  -- Only the current volume has changed: what is there stays.
  Kept-moved :
      (s : Store F) (r : VolumeRef) (a : ℕ)
      → IsStore F s
      → exists F s a ≡ true
      → Kept F s (moved s r) a
  Kept-moved s r a inv e =
      let below : volix F s a < length s.volumes = omega (arith, inv.some_volumes) in
      let (r₁, hr) = get_elem?-some s.meta.refs (volix F s a) (omega (arith, inv.counts, below)) in
      let (v₁, hv) = get_elem?-some s.volumes (volix F s a) below in
      let (gen, small) = exists-found F s a r₁ inv.fixed hr e in
      record {
        there = exists-of F (moved s r) a r₁ inv.fixed hr gen small;
        same =
            read-there F (moved s r) a r₁ v₁ inv.fixed hr hv gen small
            ∙ sym (read-there F s a r₁ v₁ inv.fixed hr hv gen small);
      }

  -- The generations are read without an error.
  handle-moved :
      (s : Store F) (r : VolumeRef)
      → s.kind ≡ fixed_size
      → get_elem? s.meta.refs ((s.current_volume + 1) % length s.volumes) ≡ some r
      → handle_volume_transition F s
        ≡ (if r.nblocks == 0 then ok (moved s r) else recycle F (moved s r))
  unfolding handle_volume_transition adjust_current_volume get_generation get_nblocks is_success
  handle-moved s r k hr = simp (k, hr) refl

  pub handle_volume_transition-Moved :
      (s : Store F) (r : VolumeRef)
      → IsStore F s
      → get_elem? s.meta.refs ((s.current_volume + 1) % length s.volumes) ≡ some r
      → r.generation + length s.volumes < 2 ^ 32
      → (s₁ : Store F) × (handle_volume_transition F s ≡ ok s₁) × Moved s s₁
  handle_volume_transition-Moved s r inv hr small =
      let c = (s.current_volume + 1) % length s.volumes in
      let m = moved s r in
      let inv' = moved-IsStore s r inv hr in
      let (v, hv) = get_elem?-some s.volumes c (omega (arith, inv.some_volumes)) in
      let cur : Current F m r v = record { ref = hr; vol = hv } in
      elim (ℕ_discrete r.nblocks 0) [
        | yes none_there ↦ (
          m,
          handle-moved s r inv.fixed hr ∙ rw (eq→== r.nblocks 0 none_there) refl,
          record {
            store = inv';
            current_eq = refl;
            count = refl;
            empty = λ r₁ v₁ cur₁.
                let slot = inv'.slot c r₁ v₁ cur₁.ref cur₁.vol in
                slot.nblocks_eq
                ∙ ap (λ (t : VolumeRef). t.nblocks) (inj (sym cur₁.ref ∙ hr))
                ∙ none_there;
            kept = λ a e ne. Kept-moved s r a inv e;
            newer = λ a e here.
                let (gen, below) =
                  exists-found F s a r inv.fixed
                    (ap (λ (k : ℕ). get_elem? s.meta.refs k) (sym here) ∙ hr) e in
                absurd (omega (arith, below, none_there));
          },
        )
        | no some_there ↦
            let re = recycled-Recycled m r v inv' cur small in
            (
              recycled m r v,
              handle-moved s r inv.fixed hr
                  ∙ rw (ne→== r.nblocks 0 some_there) (recycle-recycled m r v inv' cur),
              record {
                store = re.store;
                current_eq = re.current_eq;
                count = re.count;
                empty = re.empty;
                kept = λ a e ne.
                    Kept_trans s m (recycled m r v) a (Kept-moved s r a inv e)
                      (re.kept a (Kept.there (Kept-moved s r a inv e)) ne);
                newer = λ a e here.
                    let (gen, below) =
                      exists-found F s a r inv.fixed
                        (ap (λ (k : ℕ). get_elem? s.meta.refs k) (sym here) ∙ hr) e in
                    omega (arith, gen, re.current_gen_eq, inv.some_volumes);
              },
            )
      ]
    where
      inj : {a b : VolumeRef} → some a ≡ some b → a ≡ b
      inj e = cc

      Kept_trans : (s s₁ s₂ : Store F) (a : ℕ) → Kept F s s₁ a → Kept F s₁ s₂ a → Kept F s s₂ a
      Kept_trans s s₁ s₂ a k k' = record { there = k'.there; same = k'.same ∙ k.same }
