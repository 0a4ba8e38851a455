-- ===== src/Writer/Order/Ascending.antt =====
-- The physical order of an archive with an ITOC: every file once, by growing identifiers.
use cri_archive_lib.Base.{ℕ, zero, suc, ◌≤◌, ◌≡◌, ◌≢◌, refl, arith, Bool, true, false, ltb}
use cri_archive_lib.Base.{
  List, [], ◌∷◌, ok, length, map, All, Bool-cases, inl, inr, ◌==◌, ◌||◌, subst,
}
use cri_archive_lib.Base.{>>=-eq-ok, ok-inj, ==_iff}
use cri_archive_lib.Base.Sort.{IsAscending, HasDistinctKeys, sort-ascends}
use cri_archive_lib.Writer.{CpkInputFile, CpkIndexMode, has_itoc}
use cri_archive_lib.Writer.Order.{contains, check_ids, range, id_at, build_physical_order}

-- Identifiers that are distinct, fit in 16 bits, and are not in `used`.
abbrev pub IsFresh : List CpkInputFile → List ℕ → Type 0
IsFresh [] used = Unit {0}
IsFresh (file ∷ files) used =
    (file.id ≤ 0xffff) × (contains file.id used ≡ false) × IsFresh files (file.id ∷ used)

pub check_ids-IsFresh :
    (files : List CpkInputFile) (used : List ℕ) → check_ids files used ≡ ok tt → IsFresh files used
unfolding check_ids
check_ids-IsFresh [] used h = tt
check_ids-IsFresh (file ∷ files) used h = elim (Bool-cases (ltb 0xffff file.id)) [
  | inl e ↦ let h' = rw e at h in cc
  | inr e ↦ elim (Bool-cases (contains file.id used)) [
    | inl f ↦ let h' = rw (e, f) at h in cc
    | inr f ↦
        let h' = rw (e, f) at h in (ground arith, f, check_ids-IsFresh files (file.id ∷ used) h')
  ]
]

-- An identifier that was used does not come again.
abbrev ids : List CpkInputFile → List ℕ
ids files = map (λ f. f.id) files

pub used_ne :
    (u : ℕ) (files : List CpkInputFile) (used : List ℕ)
    → contains u used ≡ true
    → IsFresh files used
    → All (λ x. u ≢ x) (ids files)
used_ne u [] used h f = tt
used_ne u (file ∷ files) used h f = (
  λ e. let t : contains u used ≡ false = rw e f.1 in cc,
  used_ne u files (file.id ∷ used) (seen (u == file.id) h) f.2,
)
  where
    seen : (b : Bool) → contains u used ≡ true → (b || contains u used) ≡ true
    seen true h = refl
    seen false h = h

shift_All :
    (P : ℕ → Type 0) (from n : ℕ) → All (λ i. P (suc i)) (range from n) → All P (range (suc from) n)
shift_All P from zero h = tt
shift_All P from (suc n) h = (h.0, shift_All P (suc from) n h.1)

shift_keys :
    (key : ℕ → ℕ) (from n : ℕ)
    → HasDistinctKeys (λ i. key (suc i)) (range from n)
    → HasDistinctKeys key (range (suc from) n)
shift_keys key from zero h = tt
shift_keys key from (suc n) h =
    (shift_All (λ y. key (suc from) ≢ key y) (suc from) n h.0, shift_keys key (suc from) n h.1)

ids_All :
    (P : ℕ → Type 0) (files : List CpkInputFile)
    → All P (ids files)
    → All (λ i. P (id_at files i)) (range 0 (length files))
unfolding id_at
ids_All P [] h = tt
ids_All P (file ∷ files) h =
    (h.0, shift_All (λ i. P (id_at (file ∷ files) i)) 0 (length files) (ids_All P files h.1))

fresh_keys :
    (files : List CpkInputFile) (used : List ℕ)
    → IsFresh files used
    → HasDistinctKeys (id_at files) (range 0 (length files))
unfolding id_at
fresh_keys [] used h = tt
fresh_keys (file ∷ files) used h = (
  shift_All (λ y. file.id ≢ id_at (file ∷ files) y) 0 (length files)
      (ids_All (λ x. file.id ≢ x) files
        (used_ne file.id files (file.id ∷ used) (first file.id used) h.2)),
  shift_keys (id_at (file ∷ files)) 0 (length files) (fresh_keys files (file.id ∷ used) h.2),
)
  where
    first : (x : ℕ) (used : List ℕ) → contains x (x ∷ used) ≡ true
    first x used = let t = (==_iff x x).1 refl in rw t refl

-- With an ITOC, an order that is given lists the files by strictly growing identifiers.
pub build_physical_order-IsAscending :
    (files : List CpkInputFile) (mode : CpkIndexMode) (order : List ℕ)
    → has_itoc mode ≡ true
    → build_physical_order files mode ≡ ok order
    → IsAscending (id_at files) order
unfolding build_physical_order
build_physical_order-IsAscending files mode order m h =
    let h' = rw m at h in
    let split = >>=-eq-ok (check_ids files []) _ h' in
    let fresh = check_ids-IsFresh files [] split.1 in
    subst (IsAscending (id_at files)) (ok-inj refl split.2)
      (sort-ascends (id_at files) (range 0 (length files)) (fresh_keys files [] fresh))
