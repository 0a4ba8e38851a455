-- ===== src/FreeList/Slab/Pool.antt =====
-- A free list with the nodes that it has handed out, as a state machine.
pub mod Alloc
pub mod Drop
pub mod Disjoint
pub mod Overlap
use mathlib.Core.Path.{subst}
use cri_archive_lib.Base.{
  ℕ, ◌+◌, ◌-◌, ◌*◌, ◌/◌, ◌%◌, ◌^◌, ◌≤◌, ◌<◌, ◌≡◌, refl, sym, ◌∙◌, arith, min,
}
use cri_archive_lib.Base.{Bool, true, false, Option, some, List, [], ◌∷◌, ◌++◌, length, All}
use cri_archive_lib.Base.{if◌then◌else◌, Bool-cases, inl, inr, ◌⊎◌}
use native.Mathlib.Decide.{dec_le, dec_lt}
use cri_archive_lib.FreeList.Bitmap.{usize, block_bit, bit_on, bit_off}
use cri_archive_lib.FreeList.Bitmap.Zero.{IsFree, IsBytes}
use cri_archive_lib.FreeList.Bitmap.Writes.{IsPainted, bit_on-IsPainted, bit_off-IsPainted}
use cri_archive_lib.FreeList.Bitmap.Keep.{bit_on-IsBytes, bit_off-IsBytes}
use cri_archive_lib.FreeList.Slab.{
  FreeList, FreeListNode, block_shift, block_size, new_managed, new_unmanaged, allocate,
  first_block, drop_node, deallocate,
}
use cri_archive_lib.FreeList.Slab.Alloc.{Chosen, allocate_cases, deallocate-eq}
use cri_archive_lib.FreeList.Slab.Owners.{
  holds, hold_count, owners, owners-cons, owners-middle, holds_inside, holds_outside,
  holds_unmanaged, All-append, All-middle,
}

pub record Pool : Type 0 where
  pub list : FreeList
  pub live : List FreeListNode

-- A node of the slab starts at a block and keeps within the first 255.
abbrev pub IsPlaced : ℕ → FreeListNode → Type 0
IsPlaced slab n =
    n.owner ≡ true
    → (n.ptr ≡ slab + first_block slab n * 2 ^ block_shift)
      × (first_block slab n + block_size n.size ≤ 255)
      × (n.size < 2 ^ 63)

-- The bitmap says of each block how many live nodes hold it.
pub record IsSound (p : Pool) : Type 0 where
  pub size : length p.list.used ≡ 32
  pub bytes : IsBytes p.list.used
  pub unlocked : p.list.lock ≡ false
  pub slab_fits : p.list.slab + 2 ^ 26 ≤ 2 ^ 64
  pub placed : All (IsPlaced p.list.slab) p.live
  pub exact : (i : ℕ) → block_bit p.list.used i ≡ owners p.list.slab p.live i

-- Allocations of up to 64 blocks, 16 MB, and drops in any order.
pub data Step : Pool → Pool → Type 0 where
  alloc :
      (p : Pool) (heap size : ℕ) (list' : FreeList) (node : FreeListNode)
      → size < 2 ^ 63
      → block_size size ≤ 64
      → allocate p.list heap size ≡ some (list', node)
      → Step p (record { list = list'; live = node ∷ p.live })
  drop :
      (p : Pool) (front back : List FreeListNode) (node : FreeListNode) (list' : FreeList)
      → p.live ≡ front ++ node ∷ back
      → drop_node p.list node ≡ some list'
      → Step p (record { list = list'; live = front ++ back })

pub data Reach (p : Pool) : Pool → Type 0 where
  here : Reach p p
  next : {q r : Pool} → Reach p q → Step q r → Reach p r
