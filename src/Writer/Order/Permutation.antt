-- ===== src/Writer/Order/Permutation.antt =====
-- When `build_physical_order` returns, and that what it returns is a permutation of the files.
use cri_archive_lib.Base.{
  ℕ, ◌≤◌, ◌<◌, ◌≡◌, ◌≢◌, refl, arith, true, false, ltb, length, List, [], ◌∷◌, ok, All, Bool-cases,
  inl, inr, ◌==◌, ==_iff, ◌↔◌, >>=-eq-ok, map,
}
use cri_archive_lib.Base.Sort.{sort_by_key}
use cri_archive_lib.Writer.{CpkInputFile, CpkIndexMode, has_itoc}
use cri_archive_lib.Writer.Order.{contains, check_ids, range, id_at, build_physical_order}
use cri_archive_lib.Writer.Order.Ascending.{IsFresh, check_ids-IsFresh, used_ne}
use cri_archive_lib.Writer.Layout.Offsets.{IsDistinct}
use cri_archive_lib.Writer.Layout.Packed.{order-IsDistinct, order-All}

-- Each of the indices below `n` stands in the list, once, and no other index does.
pub record IsPermutation (n : ℕ) (order : List ℕ) : Type 0 where
  pub distinct : IsDistinct order
  pub within : All (λ i. i < n) order
  pub complete : (i : ℕ) → i < n → contains i order ≡ true

contains-cons : (x y : ℕ) (ys : List ℕ) → contains x ys ≡ true → contains x (y ∷ ys) ≡ true
contains-cons x y ys h = elim (Bool-cases (x == y)) [ inl e ↦ rw e refl | inr e ↦ rw e h ]

All-contains :
    (order all : List ℕ)
    → ((i : ℕ) → contains i order ≡ true → contains i all ≡ true)
    → All (λ i. contains i all ≡ true) order
All-contains [] all h = tt
All-contains (x ∷ xs) all h =
    let t = (==_iff x x).1 refl in
    (h x (rw t refl), All-contains xs all (λ i c. h i (contains-cons i x xs c)))

-- An order that `build_physical_order` gives, with an ITOC or without, is a permutation of the
-- files: each index below their number stands in it once, and no other index does.
pub build_physical_order-IsPermutation :
    (files : List CpkInputFile) (mode : CpkIndexMode) (order : List ℕ)
    → build_physical_order files mode ≡ ok order
    → IsPermutation (length files) order
build_physical_order-IsPermutation files mode order h =
    let d = order-IsDistinct files mode order h in
    record {
      distinct = d.0;
      within = d.1;
      complete =
          order-All files mode order (λ i. contains i order ≡ true) h
            (All-contains order order (λ i c. c));
    }

-- Identifiers of 16 bits, no two of them the same.
abbrev pub IsIdentified : List CpkInputFile → Type 0
IsIdentified [] = Unit {0}
IsIdentified (f ∷ files) =
    (f.id ≤ 0xffff) × All (λ (g : CpkInputFile). f.id ≢ g.id) files × IsIdentified files

All-ids :
    (P : ℕ → Type 0) (files : List CpkInputFile)
    → All P (map (λ f. f.id) files)
    → All (λ (f : CpkInputFile). P f.id) files
All-ids P [] h = tt
All-ids P (f ∷ files) h = (h.0, All-ids P files h.1)

IsFresh-IsIdentified :
    (files : List CpkInputFile) (used : List ℕ) → IsFresh files used → IsIdentified files
IsFresh-IsIdentified [] used h = tt
IsFresh-IsIdentified (f ∷ files) used h =
    let t = (==_iff f.id f.id).1 refl in
    (
      h.0,
      All-ids (λ x. f.id ≢ x) files (used_ne f.id files (f.id ∷ used) (rw t refl) h.2),
      IsFresh-IsIdentified files (f.id ∷ used) h.2,
    )

abbrev IsUnused : List ℕ → List CpkInputFile → Type 0
IsUnused used files = All (λ (f : CpkInputFile). contains f.id used ≡ false) files

IsUnused-cons :
    (x : ℕ) (files : List CpkInputFile) (used : List ℕ)
    → All (λ (g : CpkInputFile). x ≢ g.id) files
    → IsUnused used files
    → IsUnused (x ∷ used) files
IsUnused-cons x [] used ne u = tt
IsUnused-cons x (g ∷ files) used ne u =
    let t : (g.id == x) ≡ false = ground (arith, ne.0) in
    (rw t u.0, IsUnused-cons x files used ne.1 u.1)

check_ids-returns :
    (files : List CpkInputFile) (used : List ℕ)
    → IsIdentified files
    → IsUnused used files
    → check_ids files used ≡ ok tt
unfolding check_ids
check_ids-returns [] used h u = refl
check_ids-returns (f ∷ files) used h u =
    let t : ltb 0xffff f.id ≡ false = ground (arith, h.0) in
    rw (t, u.0, check_ids-returns files (f.id ∷ used) h.2 (IsUnused-cons f.id files used h.1 u.1))
      refl

IsUnused-nil : (files : List CpkInputFile) → IsUnused [] files
IsUnused-nil [] = tt
IsUnused-nil (f ∷ files) = (refl, IsUnused-nil files)

-- With an ITOC, `build_physical_order` gives an order exactly when every identifier has 16 bits
-- and no two files have the same one; otherwise it gives an error.
pub build_physical_order_iff :
    (files : List CpkInputFile) (mode : CpkIndexMode)
    → has_itoc mode ≡ true
    → ((order : List ℕ) × (build_physical_order files mode ≡ ok order)) ↔ IsIdentified files
unfolding build_physical_order
build_physical_order_iff files mode m = (
  λ (order, h).
      IsFresh-IsIdentified files []
        (check_ids-IsFresh files [] (>>=-eq-ok (check_ids files []) _ (rw m at h)).1),
  λ h. (
    sort_by_key (id_at files) (range 0 (length files)),
    rw (m, check_ids-returns files [] h (IsUnused-nil files)) refl,
  ),
)
