-- ===== src/FreeList/Slab.antt =====
-- The allocator part of free_list.rs: the sliding window, `allocate`, `deallocate` and the nodes.
pub mod Search
pub mod Alloc
pub mod Owners
pub mod Pool
use mathlib.Core.Option
use cri_archive_lib.Base.{
  ℕ, zero, suc, ◌+◌, ◌-◌, ◌*◌, ◌/◌, ◌^◌, Bool, true, false, Option, none, some,
}
use cri_archive_lib.Base.{List, [], ◌∷◌, leb, ◌==◌, if◌then◌else◌, replicate}
use cri_archive_lib.FreeList.Bitmap.{usize, bit_on, bit_off, check_occupation}

abbrev pub slab_size : ℕ
slab_size = 64 * 1024 * 1024

abbrev pub block_shift : ℕ
block_shift = 0x12

abbrev pub usize_max : ℕ
usize_max = 2 ^ 64 - 1

-- `slab` is the address of the slab.
pub record FreeList : Type 0 where
  pub slab : ℕ
  pub used : List ℕ
  pub lock : Bool

-- `owner` says whether the node has one: there is one list.
pub record FreeListNode : Type 0 where
  pub ptr : ℕ
  pub size : ℕ
  pub owner : Bool

-- `alloc` has returned the address `slab`.
unfoldable pub new : ℕ → FreeList
new slab = record { slab = slab; used = replicate 32 0; lock = false }

unfoldable pub block_size : ℕ → ℕ
block_size size = usize (size + 2 ^ block_shift - 1) / 2 ^ block_shift

-- `none`: the spin never ends. `&mut self` is exclusive, so nobody else can let the lock go.
unfoldable pub acquire : FreeList → Option FreeList
acquire list = if list.lock then none else some (record list { lock = true })

unfoldable pub unacquire : FreeList → FreeList
unacquire list = record list { lock = false }

-- The loop of `get_free_block_index`; `none` means that the fuel ran out.
unfoldable pub search : ℕ → List ℕ → ℕ → ℕ → Option ℕ
search zero used size start = none
search (suc fuel) used size start =
    let rest = search fuel used size (usize (start + size)) in
    if check_occupation used start size == 0 then some start else rest

-- `start` grows by `size` in each round and the round at which it would pass 255 is the last.
unfoldable pub get_free_block_index : List ℕ → ℕ → Option ℕ
get_free_block_index used size =
    Option.map (λ start. if leb (usize (start + size)) 255 then start else usize_max)
      (search 257 used size 0)

abbrev pub new_unmanaged : ℕ → ℕ → FreeListNode
new_unmanaged heap size = record { ptr = heap; size = size; owner = false }

abbrev pub new_managed : ℕ → ℕ → FreeListNode
new_managed ptr size = record { ptr = ptr; size = size; owner = true }

infixl 5 ◌>>=◌
abbrev pub ◌>>=◌ {ℓ κ} : {A : Type ℓ} {B : Type κ} → Option A → (A → Option B) → Option B
none >>= f = none
some a >>= f = f a

-- What happens under the lock once the window is known.
unfoldable pub place : FreeList → ℕ → ℕ → ℕ → ℕ → FreeList × FreeListNode
place list heap size blocks start =
    if start == usize_max then (unacquire list, new_unmanaged heap size) else (
      unacquire (record list { used = bit_on list.used start blocks }),
      new_managed (usize (list.slab + start * 2 ^ block_shift)) size,
    )

-- Where the comment of the source speaks of `None`, memory comes from the system allocator: `heap` is
-- the address that the system allocator answers if the slab has no room.
unfoldable pub allocate : FreeList → ℕ → ℕ → Option (FreeList × FreeListNode)
allocate list heap size = do
  locked ← acquire list
  start ← get_free_block_index locked.used (block_size size)
  some (place locked heap size (block_size size) start)

-- `(p.ptr as usize - self.slab as usize) >> BLOCK_SHIFT`
unfoldable pub first_block : ℕ → FreeListNode → ℕ
first_block slab node = usize (node.ptr + 2 ^ 64 - slab) / 2 ^ block_shift

pub deallocate : FreeList → FreeListNode → Option FreeList
deallocate list node = do
  locked ← acquire list
  some (
      unacquire (record locked {
        used = bit_off locked.used (first_block locked.slab node) (block_size node.size);
      }))

-- `Drop for FreeListNode`: an unmanaged node goes back to the system allocator.
pub drop_node : FreeList → FreeListNode → Option FreeList
drop_node list node = if node.owner then deallocate list node else some list
