-- ===== src/FreeList/Slab/Owners.antt =====
-- How many live nodes hold a block, and how that changes as nodes come and go.
use cri_archive_lib.Base.{ℕ, ◌+◌, ◌≤◌, ◌<◌, ◌≡◌, refl, arith, Bool, true, false, ◌&&◌}
use cri_archive_lib.Base.{List, [], ◌∷◌, ◌++◌, ltb, leb, if◌then◌else◌, All, ◌⊎◌}
use cri_archive_lib.FreeList.Slab.{FreeListNode, block_size, first_block}

-- Block `i` belongs to the node.
unfoldable pub holds : ℕ → FreeListNode → ℕ → Bool
holds slab node i =
    let first = first_block slab node in
    node.owner && (leb first i && ltb i (first + block_size node.size))

abbrev pub hold_count : ℕ → FreeListNode → ℕ → ℕ
hold_count slab node i = if holds slab node i then 1 else 0

pub owners : ℕ → List FreeListNode → ℕ → ℕ
owners slab [] i = 0
owners slab (n ∷ ns) i = hold_count slab n i + owners slab ns i

pub owners-nil : (slab i : ℕ) → owners slab [] i ≡ 0
unfolding owners
owners-nil slab i = refl

pub owners-append :
    (slab : ℕ) (front back : List FreeListNode) (i : ℕ)
    → owners slab (front ++ back) i ≡ owners slab front i + owners slab back i
unfolding owners
owners-append slab [] back i = omega arith
owners-append slab (n ∷ ns) back i = omega (arith, owners-append slab ns back i)

pub owners-cons :
    (slab : ℕ) (n : FreeListNode) (ns : List FreeListNode) (i : ℕ)
    → owners slab (n ∷ ns) i ≡ hold_count slab n i + owners slab ns i
unfolding owners
owners-cons slab n ns i = refl

-- The nodes before and after one that leaves.
pub owners-middle :
    (slab : ℕ) (front back : List FreeListNode) (n : FreeListNode) (i : ℕ)
    → owners slab (front ++ n ∷ back) i ≡ hold_count slab n i + owners slab (front ++ back) i
owners-middle slab front back n i = omega (
  arith,
  owners-append slab front (n ∷ back) i,
  owners-cons slab n back i,
  owners-append slab front back i,
)

pub holds_inside :
    (slab : ℕ) (n : FreeListNode) (i : ℕ)
    → n.owner ≡ true
    → first_block slab n ≤ i
    → i < first_block slab n + block_size n.size
    → holds slab n i ≡ true
unfolding holds
holds_inside slab n i own h k = ground arith

pub holds_outside :
    (slab : ℕ) (n : FreeListNode) (i : ℕ)
    → (i < first_block slab n) ⊎ (first_block slab n + block_size n.size ≤ i)
    → holds slab n i ≡ false
unfolding holds
holds_outside slab n i h = ground arith

pub holds_unmanaged :
    (slab : ℕ) (n : FreeListNode) (i : ℕ) → n.owner ≡ false → holds slab n i ≡ false
unfolding holds
holds_unmanaged slab n i own = rw own

pub All-append {ℓ κ} :
    {A : Type ℓ} (P : A → Type κ) (xs ys : List A) → All P xs → All P ys → All P (xs ++ ys)
All-append P [] ys hx hy = hy
All-append P (x ∷ xs) ys hx hy = (hx.0, All-append P xs ys hx.1 hy)

-- The parts of a list split round one element.
pub All-middle {ℓ κ} :
    {A : Type ℓ} (P : A → Type κ) (xs ys : List A) (a : A)
    → All P (xs ++ a ∷ ys)
    → P a × All P (xs ++ ys)
All-middle P [] ys a h = h
All-middle P (x ∷ xs) ys a h = let (pa, rest) = All-middle P xs ys a h.1 in (pa, (h.0, rest))

pub All-drop {ℓ κ} : {A : Type ℓ} (P : A → Type κ) (xs ys : List A) → All P (xs ++ ys) → All P ys
All-drop P [] ys h = h
All-drop P (x ∷ xs) ys h = All-drop P xs ys h.1

-- Two nodes of a list and the rest of it.
pub owners-two :
    (slab : ℕ) (front mid back : List FreeListNode) (n m : FreeListNode) (i : ℕ)
    → hold_count slab n i + hold_count slab m i ≤ owners slab (front ++ (n ∷ (mid ++ (m ∷ back)))) i
owners-two slab front mid back n m i = omega (
  arith,
  owners-append slab front (n ∷ (mid ++ (m ∷ back))) i,
  owners-cons slab n (mid ++ (m ∷ back)) i,
  owners-append slab mid (m ∷ back) i,
  owners-cons slab m back i,
)
