-- ===== src/Storage/FileStorage/Invariant.antt =====
-- What holds of a fixed-size store between two calls, and writes to one of its volumes.
use akumuli.Base.{
  ℕ, ◌%◌, ◌^◌, ◌<◌, ◌≡◌, ap, sym, subst, ◌∙◌, arith, some, List, length, set, get_elem?, length-set,
  get_elem?-set_self, get_elem?-set_ne,
}
use akumuli.Storage.MetaVolume.{VolumeRef}
use akumuli.Storage.Volume.{Files, Volume}
use akumuli.Storage.Volume.Blocks.{IsVolume}
use akumuli.Storage.FileStorage.{Store, fixed_size}
use native.Mathlib.Decide.{ℕ_discrete}

module _ (F : Files) where
  -- The volume at index `i` of `n`, and its record in the metadata.
  pub record Slot (n i : ℕ) (r : VolumeRef) (v : Volume F.Handle) : Type 0 where
    pub volume : IsVolume F v
    pub nblocks_eq : v.write_pos ≡ r.nblocks
    pub generation : r.generation % n ≡ i
    pub word : r.generation < 2 ^ 32

  pub record IsStore (s : Store F) : Type 0 where
    pub fixed : s.kind ≡ fixed_size
    pub some_volumes : 0 < length s.volumes
    pub counts : length s.meta.refs ≡ length s.volumes
    pub current : s.current_volume < length s.volumes
    pub slot :
        (i : ℕ) (r : VolumeRef) (v : Volume F.Handle)
        → get_elem? s.meta.refs i ≡ some r
        → get_elem? s.volumes i ≡ some v
        → Slot (length s.volumes) i r v
    pub gen_eq :
        (r : VolumeRef)
        → get_elem? s.meta.refs s.current_volume ≡ some r
        → s.current_gen ≡ r.generation

  -- A store in which only the volume at `c` and its record have changed.
  pub record Changed (s : Store F) (c : ℕ) (r : VolumeRef) (v : Volume F.Handle) (s' : Store F)
      : Type 0 where
    pub kind_eq : s'.kind ≡ s.kind
    pub current_eq : s'.current_volume ≡ s.current_volume
    pub refs_eq : s'.meta.refs ≡ set s.meta.refs c r
    pub volumes_eq : s'.volumes ≡ set s.volumes c v

  pub Changed-IsStore :
      (s s' : Store F) (r : VolumeRef) (v : Volume F.Handle)
      → IsStore s
      → Changed s s.current_volume r v s'
      → Slot (length s.volumes) s.current_volume r v
      → s'.current_gen ≡ r.generation
      → IsStore s'
  Changed-IsStore s s' r v inv ch slot gen =
      let c = s.current_volume in
      let same_count : length s'.volumes ≡ length s.volumes =
        ap (λ (t : List (Volume F.Handle)). length t) ch.volumes_eq ∙ length-set s.volumes c v in
      let same_refs : length s'.meta.refs ≡ length s.meta.refs =
        ap (λ (t : List VolumeRef). length t) ch.refs_eq ∙ length-set s.meta.refs c r in
      record {
        fixed = ch.kind_eq ∙ inv.fixed;
        some_volumes = omega (arith, same_count, inv.some_volumes);
        counts = omega (arith, same_count, same_refs, inv.counts);
        current = omega (arith, same_count, ch.current_eq, inv.current);
        slot = λ i r₁ v₁ hr hv. rw same_count (elim (ℕ_discrete c i) [
          | yes here ↦
              let r_eq : r ≡ r₁ = some_inj (
                sym (get_elem?-set_self s.meta.refs c r (omega (arith, inv.counts, inv.current)))
                ∙ sym (ap (λ (t : List VolumeRef). get_elem? t c) ch.refs_eq)
                ∙ rw here hr) in
              let v_eq : v ≡ v₁ = some_inj (
                sym (get_elem?-set_self s.volumes c v inv.current)
                ∙ sym (ap (λ (t : List (Volume F.Handle)). get_elem? t c) ch.volumes_eq)
                ∙ rw here hv) in
              subst (λ k. Slot (length s.volumes) k r₁ v₁) here
                (subst (λ u. Slot (length s.volumes) c r₁ u) v_eq
                  (subst (λ u. Slot (length s.volumes) c u v) r_eq slot))
          | no other ↦
              inv.slot i r₁ v₁
                (sym (get_elem?-set_ne s.meta.refs c i r other)
                  ∙ sym (ap (λ (t : List VolumeRef). get_elem? t i) ch.refs_eq)
                  ∙ hr)
                (sym (get_elem?-set_ne s.volumes c i v other)
                  ∙ sym (ap (λ (t : List (Volume F.Handle)). get_elem? t i) ch.volumes_eq)
                  ∙ hv)
        ]);
        gen_eq = λ r₁ hr.
            gen
            ∙ ap (λ (t : VolumeRef). t.generation)
                (some_inj (
                  sym (get_elem?-set_self s.meta.refs c r (omega (arith, inv.counts, inv.current)))
                  ∙ sym (ap (λ (t : List VolumeRef). get_elem? t c) ch.refs_eq)
                  ∙ ap (λ (k : ℕ). get_elem? s'.meta.refs k) (sym ch.current_eq)
                  ∙ hr));
      }
    where
      some_inj : {A : Type 0} {a b : A} → some a ≡ some b → a ≡ b
      some_inj e = cc
