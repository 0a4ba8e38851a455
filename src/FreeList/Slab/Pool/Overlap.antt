-- ===== src/FreeList/Slab/Pool/Overlap.antt =====
-- Above 64 blocks the search looks at part of the window only.
use cri_archive_lib.Base.{ℕ, ◌+◌, ◌*◌, ◌^◌, ◌≤◌, ◌<◌, ◌≡◌, arith, inl, inr}
use cri_archive_lib.Base.{true, false, some, List, leb}
use cri_archive_lib.FreeList.Bitmap.{usize, bit_on, check_occupation}
use cri_archive_lib.FreeList.Bitmap.Zero.{IsFree, IsBytes}
use cri_archive_lib.FreeList.Bitmap.Reads.{check_occupation-IsFree}
use cri_archive_lib.FreeList.Slab.{
  FreeList, FreeListNode, block_shift, block_size, first_block, new_managed, allocate, acquire,
  unacquire, place, search, get_free_block_index,
}
use cri_archive_lib.FreeList.Slab.Alloc.{block_size-eq}
use cri_archive_lib.FreeList.Slab.Pool.{IsPlaced}
use cri_archive_lib.FreeList.Slab.Pool.Disjoint.{IsApart}

get_free_block_index_long :
    (used : List ℕ) (blocks : ℕ)
    → IsBytes used
    → 64 < blocks
    → blocks ≤ 255
    → IsFree used 0 64
    → get_free_block_index used blocks ≡ some 0
unfolding get_free_block_index search
get_free_block_index_long used blocks bytes long fits free =
    let clear : check_occupation used 0 blocks ≡ 0 =
      (check_occupation-IsFree used 0 blocks bytes (omega arith) (omega arith)).1
        (λ i p q. free i p (omega arith)) in
    let e : usize (0 + blocks) ≡ blocks = omega arith in
    let t : leb blocks 255 ≡ true = ground arith in rw (clear, e, t)

allocate_long :
    (list : FreeList) (heap size : ℕ)
    → IsBytes list.used
    → list.lock ≡ false
    → 64 < block_size size
    → block_size size ≤ 255
    → IsFree list.used 0 64
    → allocate list heap size
      ≡ some (
        record list { used = bit_on list.used 0 (block_size size); lock = false },
        new_managed (usize (list.slab + 0 * 2 ^ block_shift)) size,
      )
unfolding allocate acquire unacquire place
allocate_long list heap size bytes unlocked long fits free =
    let found = get_free_block_index_long list.used (block_size size) bytes long fits free in
    rw (unlocked, found)

-- A request for 65 to 255 blocks is given memory that a live node holds, whenever the bitmap is
-- one of bytes, the lock is free, the slab lies in the address space, the first 64 blocks are free
-- and that node, placed in the slab and not empty, starts at a block that the request reaches.
pub allocate_overlap :
    (list : FreeList) (heap size : ℕ) (m : FreeListNode)
    → IsBytes list.used
    → list.lock ≡ false
    → list.slab + 2 ^ 26 ≤ 2 ^ 64
    → size < 2 ^ 63
    → 64 < block_size size
    → block_size size ≤ 255
    → IsFree list.used 0 64
    → IsPlaced list.slab m
    → m.owner ≡ true
    → 0 < m.size
    → first_block list.slab m < block_size size
    → (list' : FreeList) × (n : FreeListNode) × (allocate list heap size ≡ some (list', n))
      × ¬ (IsApart n m)
allocate_overlap list heap size m bytes unlocked slab_fits small long fits free placed own pos
      reach =
    (
      record list { used = bit_on list.used 0 (block_size size); lock = false },
      new_managed (usize (list.slab + 0 * 2 ^ block_shift)) size,
      allocate_long list heap size bytes unlocked long fits free,
      elim [
        | inl before ↦ omega (arith, block_size-eq size small, placed own)
        | inr after ↦ omega (arith, block_size-eq size small, placed own)
      ],
    )
