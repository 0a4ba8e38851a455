-- ===== src/FreeList/Slab/Alloc.antt =====
-- What `allocate` and `deallocate` return.
use cri_archive_lib.Base.{ℕ, ◌+◌, ◌-◌, ◌*◌, ◌/◌, ◌^◌, ◌≤◌, ◌<◌, ◌≡◌, sym, ◌∙◌, arith}
use cri_archive_lib.Base.{List, length, true, false, some, some-inj, ◌==◌, min}
use mathlib.Core.Path.{subst}
use cri_archive_lib.FreeList.Bitmap.{usize, bit_on, bit_off}
use cri_archive_lib.FreeList.Bitmap.Writes.{IsPainted, bit_on-IsPainted}
use cri_archive_lib.FreeList.Bitmap.Zero.{IsFree, IsBytes}
use cri_archive_lib.FreeList.Slab.{
  FreeList, FreeListNode, block_shift, usize_max, block_size, acquire, unacquire,
  get_free_block_index, new_managed, new_unmanaged, place, allocate, deallocate, first_block,
}
use cri_archive_lib.FreeList.Slab.Search.{Window, IsFirst, get_free_block_index-Window}

pub block_size-eq :
    (size : ℕ) → size < 2 ^ 63 → block_size size ≡ (size + 2 ^ block_shift - 1) / 2 ^ block_shift
unfolding block_size
block_size-eq size h = omega arith

-- The two answers of `allocate`, with the bitmap that `bit_on` gives.
pub data Chosen (list : FreeList) (heap size : ℕ) : FreeList × FreeListNode → Type 0 where
  managed :
      (start : ℕ)
      → start + block_size size ≤ 255
      → IsFree list.used start (start + min (block_size size) 64)
      → Chosen list heap size (
        record list { used = bit_on list.used start (block_size size); lock = false },
        new_managed (usize (list.slab + start * 2 ^ block_shift)) size,
      )
  unmanaged :
      (s : ℕ)
      → 255 < s + block_size size
      → IsFirst list.used (block_size size) 0 s
      → Chosen list heap size (record list { lock = false }, new_unmanaged heap size)

place-Chosen :
    (list : FreeList) (heap size : ℕ) {start : ℕ}
    → Window list.used (block_size size) start
    → Chosen list heap size (place (record list { lock = true }) heap size (block_size size) start)
unfolding place unacquire
place-Chosen list heap size (Window.inside start fits free first) =
    let t : (start == usize_max) ≡ false = ground arith in rw t (Chosen.managed start fits free)
place-Chosen list heap size (Window.full s past first) = Chosen.unmanaged s past first

-- With the lock free and a bitmap of bytes, `allocate` returns one of them.
allocate-Chosen :
    (list : FreeList) (heap size : ℕ)
    → IsBytes list.used
    → list.lock ≡ false
    → size < 2 ^ 63
    → (r : FreeList × FreeListNode) × (allocate list heap size ≡ some r) × Chosen list heap size r
unfolding allocate acquire
allocate-Chosen list heap size bytes unlocked small = finish (
    get_free_block_index-Window list.used (block_size size) bytes
      (omega (arith, block_size-eq size small)))
  where
    finish :
        (start : ℕ) × (get_free_block_index list.used (block_size size) ≡ some start)
          × Window list.used (block_size size) start
        → (r : FreeList × FreeListNode) × (allocate list heap size ≡ some r)
          × Chosen list heap size r
    finish (start, found, window) = (
      place (record list { lock = true }) heap size (block_size size) start,
      rw (unlocked, found),
      place-Chosen list heap size window,
    )

-- `deallocate` frees the node's run of blocks, and the lock is free again.
pub deallocate-eq :
    (list : FreeList) (node : FreeListNode)
    → list.lock ≡ false
    → deallocate list node
      ≡ some (record list {
        used = bit_off list.used (first_block list.slab node) (block_size node.size);
        lock = false;
      })
unfolding deallocate acquire unacquire
deallocate-eq list node unlocked = rw unlocked

-- Whatever `allocate` returns is one of the two answers.
pub allocate_cases :
    (list : FreeList) (heap size : ℕ) {r : FreeList × FreeListNode}
    → IsBytes list.used
    → list.lock ≡ false
    → size < 2 ^ 63
    → allocate list heap size ≡ some r
    → Chosen list heap size r
allocate_cases list heap size {r} bytes unlocked small e =
    let (q, found, answer) = allocate-Chosen list heap size bytes unlocked small in
    subst (Chosen list heap size) (some-inj (sym found ∙ e)) answer

-- The two answers of `allocate`: a run of blocks in the slab whose first 64 blocks were free, where
-- the blocks of the run are taken now and no other has changed, or memory of the system allocator
-- because every window looked taken.
pub data Allocated (list : FreeList) (heap size : ℕ) : FreeList × FreeListNode → Type 0 where
  managed :
      (start : ℕ) (after : List ℕ)
      → start + block_size size ≤ 255
      → IsFree list.used start (start + min (block_size size) 64)
      → IsPainted 1 start (start + block_size size) list.used after
      → Allocated list heap size (
        record list { used = after; lock = false },
        new_managed (usize (list.slab + start * 2 ^ block_shift)) size,
      )
  unmanaged :
      (s : ℕ)
      → 255 < s + block_size size
      → IsFirst list.used (block_size size) 0 s
      → Allocated list heap size (record list { lock = false }, new_unmanaged heap size)

Chosen-Allocated :
    (list : FreeList) (heap size : ℕ) {r : FreeList × FreeListNode}
    → length list.used ≡ 32
    → Chosen list heap size r
    → Allocated list heap size r
Chosen-Allocated list heap size whole (Chosen.managed start fits free) =
    Allocated.managed start (bit_on list.used start (block_size size)) fits free
      (bit_on-IsPainted list.used start (block_size size) whole fits)
Chosen-Allocated list heap size whole (Chosen.unmanaged s past first) =
    Allocated.unmanaged s past first

-- When the bitmap is one of 32 bytes, the lock is free and the size is below 2 ^ 63, `allocate`
-- returns with the lock free: either a run of blocks within the slab whose first 64 blocks were
-- free, and then the bits of the whole run are set and no other bit has changed, or memory of the
-- system allocator, and then every window of the bitmap looked taken and the bitmap is as it was.
pub allocate-Allocated :
    (list : FreeList) (heap size : ℕ)
    → IsBytes list.used
    → length list.used ≡ 32
    → list.lock ≡ false
    → size < 2 ^ 63
    → (r : FreeList × FreeListNode) × (allocate list heap size ≡ some r)
      × Allocated list heap size r
allocate-Allocated list heap size bytes whole unlocked small =
    let c = allocate-Chosen list heap size bytes unlocked small in
    (c.0, c.1, Chosen-Allocated list heap size whole c.2)
