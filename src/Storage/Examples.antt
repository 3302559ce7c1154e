-- ===== src/Storage/Examples.antt =====
-- A disk whose files are functions from offsets to bytes, for concrete runs of the block stores.
pub mod Runs
pub mod MemRuns
use akumuli.Base.{
  ℕ, zero, suc, ◌+◌, ◌-◌, ◌≤◌, ◌<◌, ◌≡◌, ◌⊎◌, inl, inr, refl, ap, sym, ◌∙◌, arith, Bool, true,
  false, ◌&&◌, Option, none, some, List, [], ◌∷◌, length, get_or, tabulate, tabulate_ext,
  tabulate-get_or, length-tabulate, leb, ltb, if◌then◌else◌, Bool-cases, lt→ltb, ltb-false,
}
use akumuli.Storage.Volume.{Files, IsReliable}
use native.Mathlib.Decide.{dec_lt}

pub record DiskFile : Type 0 where
  pub size : ℕ
  pub byte : ℕ → ℕ

abbrev pub patched : (ℕ → ℕ) → ℕ → List ℕ → ℕ → ℕ
patched f at bytes i =
    if leb at i && ltb i (at + length bytes) then get_or bytes (i - at) 0 else f i

unfoldable pub disk_write : DiskFile → ℕ → List ℕ → Option DiskFile
disk_write h at bytes =
    if leb (at + length bytes) h.size
    then some (record h { byte = patched h.byte at bytes })
    else none

unfoldable pub disk_read : DiskFile → ℕ → ℕ → Option (List ℕ)
disk_read h at n = if leb (at + n) h.size then some (tabulate (λ i. h.byte (at + i)) n) else none

abbrev pub disk : Files
disk = record {
  Handle = DiskFile;
  write = disk_write;
  read = disk_read;
  flush = λ h. some h;
  size = λ h. h.size;
  create = λ path n. some (record { size = n; byte = λ i. 0 });
  open_file = λ path. none;
  sibling = λ path name. name;
}

leb-true : (m n : ℕ) → m ≤ n → leb m n ≡ true
leb-true m n h = ground arith

leb-false : (m n : ℕ) → ¬ (m ≤ n) → leb m n ≡ false
leb-false m n h = ground arith

patched_inside :
    (f : ℕ → ℕ) (at : ℕ) (bytes : List ℕ) (i : ℕ)
    → i < length bytes
    → patched f at bytes (at + i) ≡ get_or bytes i 0
patched_inside f at bytes i h =
    let back : at + i - at ≡ i = omega arith in
    rw
      (
        leb-true at (at + i) (omega arith),
        lt→ltb (at + i) (at + length bytes) (omega (arith, h)),
        back,
      )
      refl

patched_outside :
    (f : ℕ → ℕ) (at : ℕ) (bytes : List ℕ) (j : ℕ)
    → (j < at) ⊎ (at + length bytes ≤ j)
    → patched f at bytes j ≡ f j
patched_outside f at bytes j (inl before) =
    rw (leb-false at j (λ h. absurd (omega (arith, before, h)))) refl
patched_outside f at bytes j (inr after) = elim (Bool-cases (leb at j)) [
  | inl above ↦ rw (above, ltb-false j (at + length bytes) after) refl
  | inr below ↦ rw below refl
]

-- A write that succeeds is a change of the file's bytes, within its size.
disk_write-fits :
    (h h' : DiskFile) (at : ℕ) (bytes : List ℕ)
    → disk_write h at bytes ≡ some h'
    → (at + length bytes ≤ h.size) × (h' ≡ record h { byte = patched h.byte at bytes })
unfolding disk_write
disk_write-fits h h' at bytes e = elim (dec_lt h.size (at + length bytes)) [
  | yes too_long ↦
      let refused : disk_write h at bytes ≡ none =
        rw (leb-false (at + length bytes) h.size (λ q. absurd (omega (arith, q, too_long)))) refl in
      absurd (no_file (sym refused ∙ e))
  | no fits ↦ (
    omega (arith, fits),
    inj (sym e ∙ rw (leb-true (at + length bytes) h.size (omega (arith, fits))) refl),
  )
]
  where
    no_file : none ≡ some h' → ⊥
    no_file q = cc

    inj : {a b : DiskFile} → some a ≡ some b → a ≡ b
    inj q = cc

pub disk-IsReliable : IsReliable disk
unfolding disk_write disk_read
disk-IsReliable = record {
  write_some = λ h at bytes fits. (
    record h { byte = patched h.byte at bytes },
    rw (leb-true (at + length bytes) h.size fits) refl,
    refl,
  );
  read_some =
      λ h at n fits. (tabulate (λ i. h.byte (at + i)) n, rw (leb-true (at + n) h.size fits) refl);
  read-write = λ h h' at bytes e. read_back h h' at bytes e;
  read-write_ne = λ h h' at bytes at' n e apart. read_other h h' at bytes at' n e apart;
}
  where
    read_back :
        (h h' : DiskFile) (at : ℕ) (bytes : List ℕ)
        → disk_write h at bytes ≡ some h'
        → disk_read h' at (length bytes) ≡ some bytes
    read_back h h' at bytes e =
        let (fits, h'_eq) = disk_write-fits h h' at bytes e in
        ap (λ (t : DiskFile). disk_read t at (length bytes)) h'_eq
        ∙ rw (leb-true (at + length bytes) h.size fits) (
            ap (λ (t : List ℕ). some t)
              (tabulate_ext (λ i. patched h.byte at bytes (at + i)) (λ i. get_or bytes i 0)
                  (length bytes) (λ i lt. patched_inside h.byte at bytes i lt)
                ∙ tabulate-get_or bytes 0))

    read_other :
        (h h' : DiskFile) (at : ℕ) (bytes : List ℕ) (at' n : ℕ)
        → disk_write h at bytes ≡ some h'
        → (at' + n ≤ at) ⊎ (at + length bytes ≤ at')
        → disk_read h' at' n ≡ disk_read h at' n
    read_other h h' at bytes at' n e apart =
        let (fits, h'_eq) = disk_write-fits h h' at bytes e in
        ap (λ (t : DiskFile). disk_read t at' n) h'_eq
        ∙ ap (λ (t : List ℕ). if leb (at' + n) h.size then some t else none)
            (tabulate_ext (λ i. patched h.byte at bytes (at' + i)) (λ i. h.byte (at' + i)) n
              (λ i lt. patched_outside h.byte at bytes (at' + i) (elim apart [
                | inl before ↦ inl (omega (arith, before, lt))
                | inr after ↦ inr (omega (arith, after))
              ])))
