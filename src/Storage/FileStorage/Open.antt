-- ===== src/Storage/FileStorage/Open.antt =====
-- FileStorage's constructor, and FileStorage::create. The registry's volumes are sorted by their ids,
-- which are distinct, since the metadata has refused duplicates before.
use akumuli.Base.{
  ℕ, zero, suc, ◌+◌, ◌≤◌, ◌<◌, ◌≡◌, ◌⊎◌, inl, inr, refl, ap, sym, subst, ◌∙◌, arith, some, List, [],
  ◌∷◌, length, get_elem?, map, replicate, ltb, if◌then◌else◌, lt→ltb, ltb-false, get_elem?-some,
}
use akumuli.Base.Outcome.{Outcome, ok, panic, ◌>>=◌}
use akumuli.Status.{is_success}
use akumuli.Storage.MetaVolume.{
  MetaVolume, VolumeDesc, VolumeRef, get_nblocks, get_generation, init,
}
use akumuli.Storage.Volume.{Files, Volume, open_existing, create_new}
use akumuli.Storage.FileStorage.{Store, Kind, or_panic}
use native.Mathlib.Decide.{dec_lt}

-- std::sort by the ids
unfoldable pub insert_desc : VolumeDesc → List VolumeDesc → List VolumeDesc
insert_desc v [] = v ∷ []
insert_desc v (w ∷ ws) = if ltb w.id v.id then w ∷ insert_desc v ws else v ∷ (w ∷ ws)

unfoldable pub sort : List VolumeDesc → List VolumeDesc
sort [] = []
sort (v ∷ vs) = insert_desc v (sort vs)

module _ (F : Files) where
  -- The volumes of the descriptions, the first of which has the index `ix`.
  unfoldable pub open_volumes : MetaVolume → List VolumeDesc → ℕ → Outcome (List (Volume F.Handle))
  open_volumes meta [] ix = ok []
  open_volumes meta (desc ∷ descs) ix = do
    let (status, count) = get_nblocks meta ix
    nblocks ← or_panic (count, status)
    vol ← open_existing F desc.path nblocks
    rest ← open_volumes meta descs (suc ix)
    ok (vol ∷ rest)

  unfoldable pub total_size : List (Volume F.Handle) → ℕ
  total_size [] = 0
  total_size (v ∷ vs) = v.file_size + total_size vs

  -- The first volume with free space and its generation; the metadata is read by the index `i` of the
  -- first volume that is left.
  unfoldable pub find_current : MetaVolume → List (Volume F.Handle) → ℕ → Outcome (ℕ × ℕ)
  find_current meta [] i = ok (0, 0)
  find_current meta (vol ∷ vols) i =
      let (status, gen) = get_generation meta i in
      let (status', nblocks) = get_nblocks meta i in
      let rest = find_current meta vols (suc i) in
      if is_success status then (if ltb nblocks vol.file_size then ok (i, gen) else rest) else panic

  unfoldable pub open_store : Kind → List VolumeDesc → Outcome (Store F)
  open_store kind descs = do
    meta ← init descs
    let volumes = sort descs
    vols ← open_volumes meta volumes 0
    (current_volume, current_gen) ← find_current meta vols 0
    ok (record {
      kind = kind;
      meta = meta;
      volumes = vols;
      dirty = replicate (length volumes) 0;
      current_volume = current_volume;
      current_gen = current_gen;
      total_size = total_size vols;
      volume_names = map (λ (d : VolumeDesc). d.path) volumes;
    })

  -- FileStorage::create: the capacities and the paths.
  unfoldable pub create : List (ℕ × List ℕ) → Outcome (List ℕ)
  create [] = ok []
  create ((capacity, path) ∷ vols) = do
    created ← create_new F path capacity
    caps ← create vols
    ok (capacity ∷ caps)

  -- The volume at `j` is full by its record, which is at `i + j`.
  pub FullAt : MetaVolume → List (Volume F.Handle) → ℕ → ℕ → Type 0
  FullAt meta vols i j =
      (r : VolumeRef) (v : Volume F.Handle)
      → get_elem? meta.refs (i + j) ≡ some r
      → get_elem? vols j ≡ some v
      → v.file_size ≤ r.nblocks

  -- The volume at `j` is the first with free space.
  pub record FirstFree (meta : MetaVolume) (vols : List (Volume F.Handle)) (i j : ℕ) (gen : ℕ)
      : Type 0 where
    pub ref : VolumeRef
    pub vol : Volume F.Handle
    pub ref_eq : get_elem? meta.refs (i + j) ≡ some ref
    pub vol_eq : get_elem? vols j ≡ some vol
    pub generation_eq : gen ≡ ref.generation
    pub free : ref.nblocks < vol.file_size
    pub full_before : (k : ℕ) → k < j → FullAt meta vols i k

  FullAt-zero :
      (meta : MetaVolume) (v : Volume F.Handle) (vols : List (Volume F.Handle)) (i : ℕ)
      (r : VolumeRef)
      → get_elem? meta.refs i ≡ some r
      → v.file_size ≤ r.nblocks
      → FullAt meta (v ∷ vols) i 0
  unfolding FullAt
  FullAt-zero meta v vols i r e h r₁ v₁ hr hv =
      let here : i + 0 ≡ i = omega arith in
      let same : r ≡ r₁ = inj (sym e ∙ ap (λ (k : ℕ). get_elem? meta.refs k) (sym here) ∙ hr) in
      let same_vol : v ≡ v₁ = inj hv in
      subst (λ (t : Volume F.Handle). t.file_size ≤ r₁.nblocks) same_vol
        (subst (λ (t : VolumeRef). v.file_size ≤ t.nblocks) same h)
    where
      inj : {A : Type 0} {a b : A} → some a ≡ some b → a ≡ b
      inj q = cc

  FullAt-suc :
      (meta : MetaVolume) (v : Volume F.Handle) (vols : List (Volume F.Handle)) (i j : ℕ)
      → FullAt meta vols (suc i) j
      → FullAt meta (v ∷ vols) i (suc j)
  unfolding FullAt
  FullAt-suc meta v vols i j h r₁ v₁ hr hv =
      let shifted : suc i + j ≡ i + suc j = omega arith in
      h r₁ v₁ (ap (λ (k : ℕ). get_elem? meta.refs k) shifted ∙ hr) hv

  -- The volume that an opened store writes to is the first with free space by the metadata, with its
  -- generation, if the metadata has a record for every volume; where all are full it is the volume 0,
  -- with the generation 0.
  pub find_current-FirstFree :
      (meta : MetaVolume) (vols : List (Volume F.Handle)) (i : ℕ)
      → i + length vols ≤ length meta.refs
      → ((j : ℕ) × (gen : ℕ) × (find_current meta vols i ≡ ok (i + j, gen))
          × FirstFree meta vols i j gen)
        ⊎ ((find_current meta vols i ≡ ok (0, 0))
            × ((k : ℕ) → k < length vols → FullAt meta vols i k))
  unfolding find_current get_generation get_nblocks is_success
  find_current-FirstFree meta [] i h = inr (refl, λ k lt. absurd (omega (arith, lt)))
  find_current-FirstFree meta (v ∷ vols) i h =
      let (r, e) = get_elem?-some meta.refs i (omega (arith, h)) in
      elim (dec_lt r.nblocks v.file_size) [
        | yes free ↦
            let here : i + 0 ≡ i = omega arith in
            inl (
              0,
              r.generation,
              rw (e, lt→ltb r.nblocks v.file_size free, here) refl,
              record {
                ref = r;
                vol = v;
                ref_eq = ap (λ (k : ℕ). get_elem? meta.refs k) here ∙ e;
                vol_eq = refl;
                generation_eq = refl;
                free = free;
                full_before = λ k lt. absurd (omega (arith, lt));
              },
            )
        | no full ↦
            let step : find_current meta (v ∷ vols) i ≡ find_current meta vols (suc i) =
              rw (e, ltb-false r.nblocks v.file_size (omega (arith, full))) refl in
            let first = FullAt-zero meta v vols i r e (omega (arith, full)) in
            elim (find_current-FirstFree meta vols (suc i) (omega (arith, h))) [
              | inl (j, gen, found, ff) ↦
                  let shifted : suc i + j ≡ i + suc j = omega arith in
                  inl (
                    suc j,
                    gen,
                    step ∙ found ∙ ap (λ (k : ℕ). ok (k, gen)) shifted,
                    record {
                      ref = ff.ref;
                      vol = ff.vol;
                      ref_eq = ap (λ (k : ℕ). get_elem? meta.refs k) (sym shifted) ∙ ff.ref_eq;
                      vol_eq = ff.vol_eq;
                      generation_eq = ff.generation_eq;
                      free = ff.free;
                      full_before = λ k lt. before meta v vols i k j first ff.full_before lt;
                    },
                  )
              | inr (found, all_full) ↦
                  inr (step ∙ found, λ k lt. before meta v vols i k (length vols) first all_full lt)
            ]
      ]
    where
      before :
          (meta : MetaVolume) (v : Volume F.Handle) (vols : List (Volume F.Handle)) (i k j : ℕ)
          → FullAt meta (v ∷ vols) i 0
          → ((k : ℕ) → k < j → FullAt meta vols (suc i) k)
          → k < suc j
          → FullAt meta (v ∷ vols) i k
      before meta v vols i zero j first rest lt = first
      before meta v vols i (suc k) j first rest lt =
          FullAt-suc meta v vols i k (rest k (omega (arith, lt)))
