-- ===== src/Base/Sort.antt =====
-- `sort_by_key` of the standard library, a stable sort, as an insertion sort.
use Prim.Native.Nat.{ℕ, ◌<◌}
use mathlib.Core.Path.{◌≡◌, refl, ap, ◌∙◌}
use mathlib.Core.List.{List, [], ◌∷◌, ◌++◌, map}
use mathlib.Core.Bool.{Bool, true, false, not}
use native.Mathlib.Omega.{arith}
use mathlib.Core.Logic.{inl, inr, ◌≢◌}
use cri_archive_lib.Base.Tests.{leb, if◌then◌else◌, Bool-cases}
use cri_archive_lib.Base.Lists.{All}

module _ {ℓ} {A : Type ℓ} where
  unfoldable pub insert : (A → ℕ) → A → List A → List A
  insert key x [] = x ∷ []
  insert key x (y ∷ ys) =
      let rest = insert key x ys in if leb (key x) (key y) then x ∷ y ∷ ys else y ∷ rest

  unfoldable pub sort_by_key : (A → ℕ) → List A → List A
  sort_by_key key [] = []
  sort_by_key key (x ∷ xs) = insert key x (sort_by_key key xs)

  -- Keys that strictly grow.
  abbrev pub Below : (A → ℕ) → A → List A → Type 0
  Below key x ys = All (λ y. key x < key y) ys

  abbrev pub IsAscending : (A → ℕ) → List A → Type 0
  IsAscending key [] = Unit {0}
  IsAscending key (x ∷ xs) = Below key x xs × IsAscending key xs

  -- The elements that pass a test, and the others.
  abbrev pub filter : (A → Bool) → List A → List A
  filter p [] = []
  filter p (x ∷ xs) = let rest = filter p xs in if p x then x ∷ rest else rest

module _ {ℓ} {A : Type ℓ} (key : A → ℕ) where
  insert-front : (x : A) (ys : List A) → Below key x ys → insert key x ys ≡ x ∷ ys
  unfolding insert
  insert-front x [] h = refl
  insert-front x (y ∷ ys) h = let t : leb (key x) (key y) ≡ true = ground (arith, h.0) in rw t refl

  -- A sorted list is left as it is.
  pub sort-IsAscending : (xs : List A) → IsAscending key xs → sort_by_key key xs ≡ xs
  unfolding sort_by_key
  sort-IsAscending [] h = refl
  sort-IsAscending (x ∷ xs) h = ap (insert key x) (sort-IsAscending xs h.1) ∙ insert-front x xs h.0

  insert-Below :
      (x l : A) (w : List A) → Below key x (insert key l w) → (key x < key l) × Below key x w
  unfolding insert
  insert-Below x l [] h = h
  insert-Below x l (y ∷ ys) h = elim (Bool-cases (leb (key l) (key y))) [
    | inl e ↦ (rw e at h)
    | inr e ↦
        let h' : Below key x (y ∷ insert key l ys) = (rw e at h) in
        let r = insert-Below x l ys h'.1 in (r.0, (h'.0, r.1))
  ]

  split_insert :
      (x : A) (ls hs : List A)
      → Below key x (sort_by_key key (ls ++ hs))
      → sort_by_key key (ls ++ x ∷ hs) ≡ x ∷ sort_by_key key (ls ++ hs)
  unfolding sort_by_key insert
  split_insert x [] hs h = insert-front x (sort_by_key key hs) h
  split_insert x (l ∷ ls) hs h =
      let r = insert-Below x l (sort_by_key key (ls ++ hs)) h in
      let t : leb (key l) (key x) ≡ false = ground (arith, r.0) in
      ap (insert key l) (split_insert x ls hs r.1) ∙ past _ t
    where
      past : (w : List A) → leb (key l) (key x) ≡ false → insert key l (x ∷ w) ≡ x ∷ insert key l w
      past w t = rw t refl

  -- Two groups of a sorted list, one behind the other, are merged back by the sort.
  pub sort-filter :
      (p : A → Bool) (xs : List A)
      → IsAscending key xs
      → sort_by_key key (filter p xs ++ filter (λ x. not (p x)) xs) ≡ xs
  unfolding sort_by_key
  sort-filter p [] h = refl
  sort-filter p (x ∷ xs) h = elim (Bool-cases (p x)) [
    | inl e ↦ rw e (ap (insert key x) (sort-filter p xs h.1) ∙ insert-front x xs h.0)
    | inr e ↦
        let ih = sort-filter p xs h.1 in
        rw e (
          split_insert x (filter p xs) (filter (λ x. not (p x)) xs) (rw ih h.0)
          ∙ ap (λ t. x ∷ t) ih)
  ]

  All-insert : (P : A → Type 0) (x : A) (ys : List A) → P x → All P ys → All P (insert key x ys)
  unfolding insert
  All-insert P x [] px h = (px, h)
  All-insert P x (y ∷ ys) px h = elim (Bool-cases (leb (key x) (key y))) [
    | inl e ↦ rw e (px, h)
    | inr e ↦ rw e (h.0, All-insert P x ys px h.1)
  ]

  -- What holds of every element holds of every element of the sorted list.
  pub All-sort : (P : A → Type 0) (xs : List A) → All P xs → All P (sort_by_key key xs)
  unfolding sort_by_key
  All-sort P [] h = h
  All-sort P (x ∷ xs) h = All-insert P x (sort_by_key key xs) h.0 (All-sort P xs h.1)

  insert-All : (P : A → Type 0) (x : A) (ys : List A) → All P (insert key x ys) → P x × All P ys
  unfolding insert
  insert-All P x [] h = h
  insert-All P x (y ∷ ys) h = elim (Bool-cases (leb (key x) (key y))) [
    | inl e ↦ rw e at h
    | inr e ↦ let g = rw e at h in let r = insert-All P x ys g.1 in (r.0, (g.0, r.1))
  ]

  -- And the other way round.
  pub sort-All : (P : A → Type 0) (xs : List A) → All P (sort_by_key key xs) → All P xs
  unfolding sort_by_key
  sort-All P [] h = h
  sort-All P (x ∷ xs) h = let r = insert-All P x (sort_by_key key xs) h in (r.0, sort-All P xs r.1)

  -- No two keys are the same.
  abbrev pub HasDistinctKeys : List A → Type 0
  HasDistinctKeys [] = Unit {0}
  HasDistinctKeys (x ∷ xs) = All (λ y. key x ≢ key y) xs × HasDistinctKeys xs

  Below-trans : (x y : A) (zs : List A) → key x < key y → Below key y zs → Below key x zs
  Below-trans x y [] lt h = tt
  Below-trans x y (z ∷ zs) lt h = (omega (arith, h.0), Below-trans x y zs lt h.1)

  insert-IsAscending :
      (x : A) (ys : List A)
      → All (λ y. key x ≢ key y) ys
      → IsAscending key ys
      → IsAscending key (insert key x ys)
  unfolding insert
  insert-IsAscending x [] ne h = (tt, tt)
  insert-IsAscending x (y ∷ ys) ne h = elim (Bool-cases (leb (key x) (key y))) [
    | inl e ↦
        let n = ne.0 in
        let lt : key x < key y = ground arith in rw e ((lt, Below-trans x y ys lt h.0), h)
    | inr e ↦
        let gt : key y < key x = ground arith in
        rw e (All-insert (λ z. key y < key z) x ys gt h.0, insert-IsAscending x ys ne.1 h.1)
  ]

  pub sort-ascends : (xs : List A) → HasDistinctKeys xs → IsAscending key (sort_by_key key xs)
  unfolding sort_by_key
  sort-ascends [] h = tt
  sort-ascends (x ∷ xs) h =
      insert-IsAscending x (sort_by_key key xs) (All-sort (λ y. key x ≢ key y) xs h.0)
        (sort-ascends xs h.1)

module _ {ℓ κ} {A : Type ℓ} {B : Type κ} (key : B → ℕ) (f : A → B) where
  insert-map :
      (x : A) (ys : List A) → insert key (f x) (map f ys) ≡ map f (insert (λ a. key (f a)) x ys)
  unfolding insert
  insert-map x [] = refl
  insert-map x (y ∷ ys) = elim (Bool-cases (leb (key (f x)) (key (f y)))) [
    | inl e ↦ rw e refl
    | inr e ↦ rw e (ap (λ t. f y ∷ t) (insert-map x ys))
  ]

  -- The sort goes under a map.
  pub sort-map :
      (xs : List A) → sort_by_key key (map f xs) ≡ map f (sort_by_key (λ a. key (f a)) xs)
  unfolding sort_by_key
  sort-map [] = refl
  sort-map (x ∷ xs) =
      ap (insert key (f x)) (sort-map xs) ∙ insert-map x (sort_by_key (λ a. key (f a)) xs)
