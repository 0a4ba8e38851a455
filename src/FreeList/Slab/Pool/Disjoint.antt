-- ===== src/FreeList/Slab/Pool/Disjoint.antt =====
-- Live nodes of the slab never share a byte.
use mathlib.Core.Path.{subst}
use cri_archive_lib.Base.{
  ℕ, zero, suc, ◌+◌, ◌/◌, ◌%◌, ◌^◌, ◌≤◌, ◌<◌, ◌≡◌, refl, sym, ◌∙◌, arith, max,
}
use cri_archive_lib.Base.{ap, true, List, [], ◌∷◌, ◌++◌, All, inl, inr, ◌⊎◌, get_or, replicate}
use native.Mathlib.Decide.{dec_le}
use cri_archive_lib.Base.Bits.{testbit, testbit-zero}
use cri_archive_lib.FreeList.Bitmap.{block_bit, block_bit-lt}
use cri_archive_lib.FreeList.Slab.{FreeListNode, new, slab_size, block_size, first_block}
use cri_archive_lib.FreeList.Slab.Alloc.{block_size-eq}
use cri_archive_lib.FreeList.Slab.Owners.{
  owners, owners-nil, owners-two, holds_inside, holds, All-drop,
}
use cri_archive_lib.FreeList.Slab.Pool.{Pool, IsPlaced, IsSound, Step, Reach}
use cri_archive_lib.FreeList.Slab.Pool.Alloc.{allocate-IsSound}
use cri_archive_lib.FreeList.Slab.Pool.Drop.{drop_node-IsSound}

Step-IsSound : {p q : Pool} → Step p q → IsSound p → IsSound q
Step-IsSound (Step.alloc p heap size list' node small few e) sound =
    allocate-IsSound p heap size list' node sound small few e
Step-IsSound (Step.drop p front back node list' split e) sound =
    drop_node-IsSound p front back node sound split list' e

pub Reach-IsSound : {p q : Pool} → IsSound p → Reach p q → IsSound q
Reach-IsSound sound Reach.here = sound
Reach-IsSound sound (Reach.next r s) = Step-IsSound s (Reach-IsSound sound r)

-- A free list just made, with nothing handed out.
abbrev pub start : ℕ → Pool
start slab = record { list = new slab; live = [] }

get_or-replicate : (n i : ℕ) → ◌≡◌ {A = ℕ} (get_or (replicate n 0) i 0) 0
get_or-replicate zero i = refl
get_or-replicate (suc n) zero = refl
get_or-replicate (suc n) (suc i) = get_or-replicate n i

pub start-IsSound : (slab : ℕ) → slab + 2 ^ 26 ≤ 2 ^ 64 → IsSound (start slab)
unfolding new block_bit
start-IsSound slab h = record {
  size = refl;
  bytes = λ k. omega (arith, get_or-replicate 32 k);
  unlocked = refl;
  slab_fits = h;
  placed = tt;
  exact = λ i.
      ap (λ b. testbit b (i % 8)) (get_or-replicate 32 (i / 8))
      ∙ testbit-zero (i % 8)
      ∙ sym (owners-nil slab i);
}

-- The memory of one node.
abbrev pub IsApart : FreeListNode → FreeListNode → Type 0
IsApart n m = (n.ptr + n.size ≤ m.ptr) ⊎ (m.ptr + m.size ≤ n.ptr)

-- Every byte of a node is one of the slab.
abbrev pub IsWithin : ℕ → FreeListNode → Type 0
IsWithin slab n = (slab ≤ n.ptr) × (n.ptr + n.size ≤ slab + slab_size)

module _ (p : Pool) (sound : IsSound p) (front mid back : List FreeListNode) (n m : FreeListNode)
    (split : p.live ≡ front ++ (n ∷ (mid ++ (m ∷ back)))) (own_n : n.owner ≡ true)
    (own_m : m.owner ≡ true) where
  IsPlaced-from : All (IsPlaced p.list.slab) (n ∷ (mid ++ (m ∷ back)))
  IsPlaced-from =
      All-drop (IsPlaced p.list.slab) front _
        (subst (λ l. All (IsPlaced p.list.slab) l) split sound.placed)

  IsPlaced-m : IsPlaced p.list.slab m
  IsPlaced-m = (All-drop (IsPlaced p.list.slab) mid (m ∷ back) IsPlaced-from.1).0

  shared_block : (i : ℕ) → holds p.list.slab n i ≡ true → holds p.list.slab m i ≡ true → ⊥
  shared_block i h k = ground (
    arith,
    owners-two p.list.slab front mid back n m i,
    sound.exact i,
    ap (λ l. owners p.list.slab l i) split,
    block_bit-lt p.list.used i,
  )

  blocks_apart :
      0 < block_size n.size
      → 0 < block_size m.size
      → (first_block p.list.slab n + block_size n.size ≤ first_block p.list.slab m)
        ⊎ (first_block p.list.slab m + block_size m.size ≤ first_block p.list.slab n)
  blocks_apart pos_n pos_m =
      elim (dec_le (first_block p.list.slab n + block_size n.size) (first_block p.list.slab m)) [
        | yes before ↦ inl before
        | no late ↦
            elim (dec_le (first_block p.list.slab m + block_size m.size)
              (first_block p.list.slab n)) [
                | yes after ↦ inr after
                | no early ↦
                    let i = max (first_block p.list.slab n) (first_block p.list.slab m) in
                    absurd (
                      shared_block i
                        (holds_inside p.list.slab n i own_n (omega arith) (omega arith))
                        (holds_inside p.list.slab m i own_m (omega arith) (omega arith)))
              ]
      ]

  -- In a sound pool two nodes of the slab have no byte in common.
  pub nodes-IsApart : 0 < n.size → 0 < m.size → IsApart n m
  nodes-IsApart pos_n pos_m =
      let (at_n, fits_n, small_n) = IsPlaced-from.0 own_n in
      let (at_m, fits_m, small_m) = IsPlaced-m own_m in
      let blocks_n = block_size-eq n.size small_n in
      let blocks_m = block_size-eq m.size small_m in
      elim (blocks_apart (omega arith) (omega arith)) [
        | inl before ↦ inl (omega arith)
        | inr after ↦ inr (omega arith)
      ]

  -- Both lie within the slab.
  pub nodes-IsWithin : IsWithin p.list.slab n × IsWithin p.list.slab m
  nodes-IsWithin =
      let (at_n, fits_n, small_n) = IsPlaced-from.0 own_n in
      let (at_m, fits_m, small_m) = IsPlaced-m own_m in
      (omega (arith, block_size-eq n.size small_n), omega (arith, block_size-eq m.size small_m))

-- From a new free list whose slab lies in the address space, after any allocations of up to 64
-- blocks each and any drops, two live nodes of the slab that are not empty have no byte in common,
-- and both lie within the slab.
pub Reach-IsApart :
    (slab : ℕ) (p : Pool) (front mid back : List FreeListNode) (n m : FreeListNode)
    → slab + 2 ^ 26 ≤ 2 ^ 64
    → Reach (start slab) p
    → p.live ≡ front ++ (n ∷ (mid ++ (m ∷ back)))
    → n.owner ≡ true
    → m.owner ≡ true
    → 0 < n.size
    → 0 < m.size
    → IsApart n m × IsWithin p.list.slab n × IsWithin p.list.slab m
Reach-IsApart slab p front mid back n m fits r split own_n own_m pos_n pos_m =
    let sound = Reach-IsSound (start-IsSound slab fits) r in
    let within = nodes-IsWithin p sound front mid back n m split own_n own_m in
    (nodes-IsApart p sound front mid back n m split own_n own_m pos_n pos_m, within.0, within.1)
