-- ===== src/Writer/Layout/Packed.antt =====
-- The layout of a whole archive: the tables and the files stand one behind the other.
use cri_archive_lib.Base.{ℕ, zero, suc, ◌+◌, ◌^◌, ◌≤◌, ◌<◌, ◌≡◌, refl, sym, ap, arith, subst}
use cri_archive_lib.Base.{Bool-cases, inl, inr, get_or, length, map, All}
use cri_archive_lib.Base.{
  Option, none, some, List, [], ◌∷◌, ok, ok_or, checked_add, >>=-eq-ok, ok-inj,
}
use cri_archive_lib.Base.Sort.{IsAscending, Below, All-sort, sort-All}
use cri_archive_lib.Writer.{CpkInputFile, CpkIndexMode, has_itoc, arithmetic_overflow}
use cri_archive_lib.Writer.Align.{align_up}
use cri_archive_lib.Writer.Order.{id_at, range, check_ids, build_physical_order}
use cri_archive_lib.Writer.Order.Ascending.{build_physical_order-IsAscending}
use cri_archive_lib.Writer.Layout.{Slot, place_table, chunk_size, Layout, cpk_chunk_header_size}
use cri_archive_lib.Writer.Layout.Offsets.{IsDistinct, IsAway, align_up-inv, round-le, ok_or-add}

-- A table of the length that is given stands at `offset`, from `cursor` on, and ends before `next`.
abbrev pub IsBehind : Option ℕ → ℕ → ℕ → ℕ → Type 0
IsBehind none cursor offset next = (offset ≡ 0) × (cursor ≤ next)
IsBehind (some len) cursor offset next =
    (offset ≡ cursor) × (cursor + (cpk_chunk_header_size + len) ≤ next)

-- The offsets in the physical order.
abbrev pub in_order : Layout → List ℕ
in_order l = map (λ i. get_or l.absolute_offsets i 0) l.physical_order

range_bound : (from n m : ℕ) → from + n ≤ m → All (λ i. i < m) (range from n)
range_bound from zero m h = tt
range_bound from (suc n) m h = (omega arith, range_bound (suc from) n m (omega arith))

range-IsAway : (i from n : ℕ) → i < from → IsAway i (range from n)
range-IsAway i from zero h = tt
range-IsAway i from (suc n) h =
    (λ e. absurd (omega arith), range-IsAway i (suc from) n (omega arith))

range-IsDistinct : (from n : ℕ) → IsDistinct (range from n)
range-IsDistinct from zero = tt
range-IsDistinct from (suc n) =
    (range-IsAway from (suc from) n (omega arith), range-IsDistinct (suc from) n)

Below-IsAway : (key : ℕ → ℕ) (i : ℕ) (order : List ℕ) → Below key i order → IsAway i order
Below-IsAway key i [] h = tt
Below-IsAway key i (j ∷ order) h =
    (λ e. let f = ap key e in let g = h.0 in absurd (omega arith), Below-IsAway key i order h.1)

ascending-IsDistinct : (key : ℕ → ℕ) (order : List ℕ) → IsAscending key order → IsDistinct order
ascending-IsDistinct key [] h = tt
ascending-IsDistinct key (i ∷ order) h =
    (Below-IsAway key i order h.0, ascending-IsDistinct key order h.1)

-- No index comes twice in a physical order, and each is that of a file.
pub order-IsDistinct :
    (files : List CpkInputFile) (mode : CpkIndexMode) (order : List ℕ)
    → build_physical_order files mode ≡ ok order
    → IsDistinct order × All (λ i. i < length files) order
unfolding build_physical_order
order-IsDistinct files mode order h = elim (Bool-cases (has_itoc mode)) [
  | inl m ↦
      let split = >>=-eq-ok (check_ids files []) _ (rw m at h) in
      (
        ascending-IsDistinct (id_at files) order
            (build_physical_order-IsAscending files mode order m h),
        subst (All (λ i. i < length files)) (ok-inj refl split.2) (
            All-sort (id_at files) (λ i. i < length files) (range 0 (length files))
              (range_bound 0 (length files) (length files) (omega arith))),
      )
  | inr m ↦
      let e : range 0 (length files) ≡ order = ok-inj refl (rw m at h) in
      (
        subst IsDistinct e (range-IsDistinct 0 (length files)),
        subst (All (λ i. i < length files)) e
            (range_bound 0 (length files) (length files) (omega arith)),
      )
]

All-range : (P : ℕ → Type 0) (from n : ℕ) → All P (range from n) → (i : ℕ) → i < n → P (from + i)
All-range P from zero h i lt = absurd (omega arith)
All-range P from (suc n) h zero lt = let e : from ≡ from + 0 = omega arith in subst P e h.0
All-range P from (suc n) h (suc i) lt =
    let e : suc from + i ≡ from + suc i = omega arith in
    subst P e (All-range P (suc from) n h.1 i (omega arith))

All-below : (P : ℕ → Type 0) (n : ℕ) → All P (range 0 n) → (i : ℕ) → i < n → P i
All-below P n h i lt = let e : 0 + i ≡ i = omega arith in subst P e (All-range P 0 n h i lt)

-- What holds of all in the physical order holds of every file.
pub order-All :
    (files : List CpkInputFile) (mode : CpkIndexMode) (order : List ℕ) (P : ℕ → Type 0)
    → build_physical_order files mode ≡ ok order
    → All P order
    → (i : ℕ) → i < length files
    → P i
unfolding build_physical_order
order-All files mode order P h all = elim (Bool-cases (has_itoc mode)) [
  | inl m ↦
      let split = >>=-eq-ok (check_ids files []) _ (rw m at h) in
      All-below P (length files) (
        sort-All (id_at files) P (range 0 (length files))
          (subst (All P) (sym (ok-inj refl split.2)) all))
  | inr m ↦ All-below P (length files) (subst (All P) (sym (ok-inj refl (rw m at h))) all)
]

pub place_table-IsBehind :
    (k : ℕ) (len : Option ℕ) (cursor : ℕ) {slot : Slot}
    → k < 32
    → place_table len (2 ^ k) cursor ≡ ok slot
    → IsBehind len cursor slot.offset slot.next
unfolding place_table chunk_size
place_table-IsBehind k none cursor {slot} small h =
    let e : record { offset = 0; next = cursor } ≡ slot = ok-inj refl h in
    subst (λ (s : Slot). (s.offset ≡ 0) × (cursor ≤ s.next)) e (refl, omega arith)
place_table-IsBehind k (some len) cursor {slot} small h =
    let a = >>=-eq-ok (ok_or (checked_add cpk_chunk_header_size len) arithmetic_overflow) _ h in
    let b = >>=-eq-ok (ok_or (checked_add cursor a.0) arithmetic_overflow) _ a.2 in
    let c = >>=-eq-ok (align_up b.0 (2 ^ k)) _ b.2 in
    let e : record { offset = cursor; next = c.0 } ≡ slot = ok-inj refl c.2 in
    let size = ok_or-add cpk_chunk_header_size len a.1 in
    let end = ok_or-add cursor a.0 b.1 in
    let up = round-le (2 ^ k) b.0 in
    let inv = align_up-inv k b.0 small c.1 in
    let next : cursor + (cpk_chunk_header_size + len) ≤ c.0 = omega (arith, inv.0, size, end, up) in
    subst (λ (s : Slot). (s.offset ≡ cursor) × (cursor + (cpk_chunk_header_size + len) ≤ s.next)) e
      (refl, next)

pub IsBehind-le :
    (len : Option ℕ) (cursor offset next next' : ℕ)
    → next ≤ next'
    → IsBehind len cursor offset next
    → IsBehind len cursor offset next'
IsBehind-le none cursor offset next next' le h = (h.0, omega (arith, h.1))
IsBehind-le (some len) cursor offset next next' le h = (h.0, omega (arith, h.1))
