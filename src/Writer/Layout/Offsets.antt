-- ===== src/Writer/Layout/Offsets.antt =====
-- The offsets of the files as a list, in the physical order, and what holds of it.
use native.Mathlib.Nat.{mod-lt, div-add-mod, mul-add-mod_self_left, mod_self}
use cri_archive_lib.Base.{
  ℕ, ◌+◌, ◌-◌, ◌*◌, ◌/◌, ◌%◌, ◌^◌, ◌≤◌, ◌<◌, ◌≡◌, ◌≢◌, refl, sym, ◌∙◌, ap, ap₂, arith, subst,
}
use cri_archive_lib.Base.{ltb, ◌==◌, Bool-cases, inl, inr, get_or, set, length, map, All}
use cri_archive_lib.Base.{List, [], ◌∷◌, ok, ok_or, checked_add, >>=-eq-ok, ok-inj}
use cri_archive_lib.Base.{get_or-set_self, get_or-set_ne, length-set}
use cri_archive_lib.Writer.{CpkInputFile, arithmetic_overflow}
use cri_archive_lib.Writer.Align.{align_up, align_up-round, round}
use cri_archive_lib.Writer.Layout.{size_at, Placed, place_files}

-- One offset for each size, from `cursor` on, each file padded to the alignment.
unfoldable pub layout_offsets : ℕ → List ℕ → ℕ → List ℕ
layout_offsets a [] cursor = []
layout_offsets a (s ∷ sizes) cursor = cursor ∷ layout_offsets a sizes (round a (cursor + s))

unfoldable pub layout_end : ℕ → List ℕ → ℕ → ℕ
layout_end a [] cursor = cursor
layout_end a (s ∷ sizes) cursor = layout_end a sizes (round a (cursor + s))

-- No sum overflows 64 bits.
abbrev pub Fits : ℕ → List ℕ → ℕ → Type 0
Fits a [] cursor = Unit {0}
Fits a (s ∷ sizes) cursor = (cursor + s + (a - 1) < 2 ^ 64) × Fits a sizes (round a (cursor + s))

pub round-le : (a v : ℕ) → v ≤ round a v
round-le a v = ground arith

pub round-mod : (a v : ℕ) → 0 < a → round a v % a ≡ 0
round-mod a v pos = elim (Bool-cases (v % a == 0)) [
  | inl e ↦ let z : v % a ≡ 0 = ground arith in rw e z
  | inr e ↦
      let d = div-add-mod v a in
      let lt = mod-lt v pos in
      let whole : v + (a - v % a) ≡ a * (v / a) + a = omega arith in
      rw e (ap (λ t. t % a) whole ∙ mul-add-mod_self_left a (v / a) a ∙ mod_self a)
]

-- From an aligned offset, the padding depends on the size alone.
pub round-add : (a c s : ℕ) → c % a ≡ 0 → round a (c + s) ≡ c + round a s
round-add a c s h =
    let d = div-add-mod c a in
    let whole : c + s ≡ a * (c / a) + s = omega arith in
    let m : (c + s) % a ≡ s % a = ap (λ t. t % a) whole ∙ mul-add-mod_self_left a (c / a) s in
    elim (Bool-cases (s % a == 0)) [ inl e ↦ rw (m, e) refl | inr e ↦ rw (m, e) (omega arith) ]

pub ok_or-add : (a b : ℕ) {r : ℕ} → ok_or (checked_add a b) arithmetic_overflow ≡ ok r → r ≡ a + b
ok_or-add a b h = elim (Bool-cases (ltb (a + b) (2 ^ 64))) [
  | inl t ↦ let h' = rw t at h in cc
  | inr t ↦ let h' = rw t at h in cc
]

pub align_up-inv :
    (k v : ℕ) {r : ℕ}
    → k < 32
    → align_up v (2 ^ k) ≡ ok r
    → (r ≡ round (2 ^ k) v) × (v + (2 ^ k - 1) < 2 ^ 64)
align_up-inv k v h e =
    let f = rw (align_up-round k v h) at e in
    elim (Bool-cases (ltb (v + (2 ^ k - 1)) (2 ^ 64))) [
      | inl t ↦ let f' = rw t at f in let lt : v + (2 ^ k - 1) < 2 ^ 64 = ground arith in (cc, lt)
      | inr t ↦ let f' = rw t at f in cc
    ]

-- No index of the list is `i`.
abbrev pub IsAway : ℕ → List ℕ → Type 0
IsAway i order = All (λ j. i ≢ j) order

abbrev pub IsDistinct : List ℕ → Type 0
IsDistinct [] = Unit {0}
IsDistinct (i ∷ order) = IsAway i order × IsDistinct order

-- The sizes in the physical order.
abbrev pub sizes_of : List CpkInputFile → List ℕ → List ℕ
sizes_of files order = map (size_at files) order

module _ (k : ℕ) (small : k < 32) (files : List CpkInputFile) where
  -- One round of the loop.
  step :
      (i : ℕ) (order offsets : List ℕ) (cursor : ℕ) {p : Placed}
      → place_files (2 ^ k) files (i ∷ order) offsets cursor ≡ ok p
      → (cursor + size_at files i + (2 ^ k - 1) < 2 ^ 64)
        × (place_files
              (2 ^ k)
              files
              order
              (set offsets i cursor)
              (round (2 ^ k) (cursor + size_at files i))
            ≡ ok p)
  unfolding place_files
  step i order offsets cursor h =
      let a = >>=-eq-ok (ok_or (checked_add cursor (size_at files i)) arithmetic_overflow) _ h in
      let b = >>=-eq-ok (align_up a.0 (2 ^ k)) _ a.2 in
      let end = ok_or-add cursor (size_at files i) a.1 in
      let inv = align_up-inv k a.0 small b.1 in
      let next : b.0 ≡ round (2 ^ k) (cursor + size_at files i) = inv.0 ∙ ap (round (2 ^ k)) end in
      (subst (λ e. e + (2 ^ k - 1) < 2 ^ 64) end inv.1, rw (← next) b.2)

  -- The sums of the loop do not overflow when it returns.
  pub place_files-Fits :
      (order offsets : List ℕ) (cursor : ℕ) {p : Placed}
      → place_files (2 ^ k) files order offsets cursor ≡ ok p
      → Fits (2 ^ k) (sizes_of files order) cursor
  place_files-Fits [] offsets cursor h = tt
  place_files-Fits (i ∷ order) offsets cursor h =
      let s = step i order offsets cursor h in
      (
        s.0,
        place_files-Fits order (set offsets i cursor) (round (2 ^ k) (cursor + size_at files i))
            s.1,
      )

  pub place_files-length :
      (order offsets : List ℕ) (cursor : ℕ) {p : Placed}
      → place_files (2 ^ k) files order offsets cursor ≡ ok p
      → length p.absolute_offsets ≡ length offsets
  unfolding place_files
  place_files-length [] offsets cursor h =
      let e : record { absolute_offsets = offsets; absolute_cursor = cursor } ≡ _ = ok-inj refl h in
      ap (λ (p : Placed). length p.absolute_offsets) (sym e)
  place_files-length (i ∷ order) offsets cursor h =
      let s = step i order offsets cursor h in
      place_files-length order (set offsets i cursor) (round (2 ^ k) (cursor + size_at files i)) s.1
      ∙ length-set offsets i cursor

  -- An offset that is not placed any more stays.
  away :
      (i : ℕ) (order offsets : List ℕ) (cursor : ℕ) {p : Placed}
      → IsAway i order
      → place_files (2 ^ k) files order offsets cursor ≡ ok p
      → get_or p.absolute_offsets i 0 ≡ get_or offsets i 0
  unfolding place_files
  away i [] offsets cursor ne h =
      let e : record { absolute_offsets = offsets; absolute_cursor = cursor } ≡ _ = ok-inj refl h in
      ap (λ (p : Placed). get_or p.absolute_offsets i 0) (sym e)
  away i (j ∷ order) offsets cursor ne h =
      let s = step j order offsets cursor h in
      away i order (set offsets j cursor) (round (2 ^ k) (cursor + size_at files j)) ne.1 s.1
      ∙ get_or-set_ne offsets j i cursor 0 (λ e. ne.0 (sym e))

  pub place_files-offsets :
      (order offsets : List ℕ) (cursor : ℕ) {p : Placed}
      → IsDistinct order
      → All (λ i. i < length offsets) order
      → place_files (2 ^ k) files order offsets cursor ≡ ok p
      → (map (λ i. get_or p.absolute_offsets i 0) order
          ≡ layout_offsets (2 ^ k) (sizes_of files order) cursor)
        × (p.absolute_cursor ≡ layout_end (2 ^ k) (sizes_of files order) cursor)
  unfolding place_files layout_offsets layout_end
  place_files-offsets [] offsets cursor d b h =
      let e : record { absolute_offsets = offsets; absolute_cursor = cursor } ≡ _ = ok-inj refl h in
      (refl, ap (λ (p : Placed). p.absolute_cursor) (sym e))
  place_files-offsets (i ∷ order) offsets cursor d b h =
      let s = step i order offsets cursor h in
      let next = round (2 ^ k) (cursor + size_at files i) in
      let ih =
        place_files-offsets order (set offsets i cursor) next d.1
          (longer order offsets i cursor b.1) s.1 in
      let here =
        away i order (set offsets i cursor) next d.0 s.1 ∙ get_or-set_self offsets i cursor 0 b.0 in
      (ap₂ ◌∷◌ here ih.0, ih.1)
    where
      longer :
          (order offsets : List ℕ) (i v : ℕ)
          → All (λ j. j < length offsets) order
          → All (λ j. j < length (set offsets i v)) order
      longer order offsets i v h = rw (length-set offsets i v) h

-- What is packed from `lo` on: aligned, one behind the other, and all below `hi`.
abbrev pub IsPacked : ℕ → ℕ → ℕ → List ℕ → List ℕ → Type 0
IsPacked a lo hi [] [] = lo ≤ hi
IsPacked a lo hi [] (s ∷ sizes) = ⊥
IsPacked a lo hi (o ∷ offsets) [] = ⊥
IsPacked a lo hi (o ∷ offsets) (s ∷ sizes) =
    (lo ≤ o) × (o % a ≡ 0) × IsPacked a (o + s) hi offsets sizes

lower :
    (a lo lo' hi : ℕ) (offsets sizes : List ℕ)
    → lo ≤ lo'
    → IsPacked a lo' hi offsets sizes
    → IsPacked a lo hi offsets sizes
lower a lo lo' hi [] [] le h = omega arith
lower a lo lo' hi [] (s ∷ sizes) le h = h
lower a lo lo' hi (o ∷ offsets) [] le h = h
lower a lo lo' hi (o ∷ offsets) (s ∷ sizes) le h = (omega (arith, h.0), h.1, h.2)

pub layout_offsets-IsPacked :
    (a : ℕ) (sizes : List ℕ) (cursor : ℕ)
    → 0 < a
    → cursor % a ≡ 0
    → IsPacked a cursor (layout_end a sizes cursor) (layout_offsets a sizes cursor) sizes
unfolding layout_offsets layout_end
layout_offsets-IsPacked a [] cursor pos h = omega arith
layout_offsets-IsPacked a (s ∷ sizes) cursor pos h =
    let next = round a (cursor + s) in
    (
      omega arith,
      h,
      lower a (cursor + s) next (layout_end a sizes next) (layout_offsets a sizes next) sizes
          (round-le a (cursor + s))
          (layout_offsets-IsPacked a sizes next pos (round-mod a (cursor + s) pos)),
    )
