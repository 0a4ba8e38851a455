-- ===== src/FreeList/Examples.antt =====
-- Runs of the free list on small inputs.
use cri_archive_lib.Base.{
  ℕ, zero, suc, ◌+◌, ◌*◌, ◌^◌, ◌<◌, ◌≡◌, refl, arith, min, ◌↔◌, ltb, ltb→lt, ◌==◌, ==_iff, ◌&&◌,
}
use cri_archive_lib.Base.{
  Bool, true, false, some, List, [], ◌∷◌, ◌++◌, replicate, Bool-cases, inl, inr,
}
use cri_archive_lib.Base.Bits.{testbit}
use cri_archive_lib.Base.Table.{all_below, all_below_sound}
use cri_archive_lib.FreeList.Bitmap.{
  bit_mask_u8, shifted_mask, bit_bounds_check, load, paint_start, paint_bytes, paint_end, paint,
  bit_on, bit_off, read_bytes, read_end, read_run, check_occupation, block_bit,
}
use cri_archive_lib.FreeList.Bitmap.Zero.{IsFree, IsBytes}
use cri_archive_lib.FreeList.Bitmap.Reads.{check_occupation-IsFree}
use cri_archive_lib.FreeList.Bitmap.Writes.{IsPainted, bit_on-IsPainted, bit_off-IsPainted}
use cri_archive_lib.FreeList.Slab.{
  FreeList, FreeListNode, block_shift, new, block_size, acquire, unacquire, search,
  get_free_block_index, new_managed, place, allocate, first_block,
}
use cri_archive_lib.FreeList.Slab.Search.{Window, get_free_block_index-Window}
use cri_archive_lib.FreeList.Slab.Alloc.{Allocated, allocate-Allocated}
use cri_archive_lib.FreeList.Slab.Pool.{Pool, Step, Reach, IsPlaced}
use cri_archive_lib.FreeList.Slab.Pool.Disjoint.{start, IsApart, IsWithin, Reach-IsApart}
use cri_archive_lib.FreeList.Slab.Pool.Overlap.{allocate_overlap}

bytes_check : List ℕ → Bool
bytes_check [] = true
bytes_check (b ∷ bs) = ltb b 256 && bytes_check bs

bytes_check-IsBytes : (bs : List ℕ) → bytes_check bs ≡ true → IsBytes bs
unfolding bytes_check
bytes_check-IsBytes [] h k = omega arith
bytes_check-IsBytes (b ∷ bs) h k = elim (Bool-cases (ltb b 256)) [
  | inl e ↦ at k (ltb→lt b 256 e) (bytes_check-IsBytes bs (rw e at h))
  | inr e ↦ let h' = rw e at h in cc
]
  where
    at : (k : ℕ) → b < 256 → IsBytes bs → load (b ∷ bs) k < 256
    at zero hb hs = hb
    at (suc k) hb hs = hs k

abbrev blank : List ℕ
blank = replicate 32 0

abbrev one_taken : List ℕ
one_taken = 1 ∷ replicate 31 0

abbrev two_taken : List ℕ
two_taken = 3 ∷ replicate 31 0

-- Block 64 is taken.
abbrev far_taken : List ℕ
far_taken = replicate 8 0 ++ (1 ∷ replicate 23 0)

one_taken-IsBytes : IsBytes one_taken
unfolding bytes_check
one_taken-IsBytes = bytes_check-IsBytes one_taken refl

far_taken-IsBytes : IsBytes far_taken
unfolding bytes_check
far_taken-IsBytes = bytes_check-IsBytes far_taken refl

bit_on_example : IsPainted 1 3 (3 + 13) blank (bit_on blank 3 13)
bit_on_example = bit_on-IsPainted blank 3 13 refl (omega arith)

bit_off_example : IsPainted 0 0 (0 + 1) one_taken (bit_off one_taken 0 1)
bit_off_example = bit_off-IsPainted one_taken 0 1 refl (omega arith)

check_occupation_example :
    (check_occupation one_taken 0 12 ≡ 0) ↔ IsFree one_taken 0 (0 + min 12 64)
check_occupation_example =
    check_occupation-IsFree one_taken 0 12 one_taken-IsBytes (omega arith) (omega arith)

get_free_block_index_example :
    (start : ℕ) × (get_free_block_index one_taken 2 ≡ some start) × Window one_taken 2 start
get_free_block_index_example =
    get_free_block_index-Window one_taken 2 one_taken-IsBytes (omega arith)

abbrev base : ℕ
base = 0x10000

abbrev list_one : FreeList
list_one = record { slab = base; used = one_taken; lock = false }

abbrev list_two : FreeList
list_two = record { slab = base; used = two_taken; lock = false }

abbrev list_far : FreeList
list_far = record { slab = base; used = far_taken; lock = false }

allocate_example :
    (r : FreeList × FreeListNode) × (allocate list_one 0x7000 1000 ≡ some r)
    × Allocated list_one 0x7000 1000 r
allocate_example = allocate-Allocated list_one 0x7000 1000 one_taken-IsBytes refl refl (omega arith)

abbrev node_a : FreeListNode
node_a = new_managed base 1000

abbrev node_b : FreeListNode
node_b = new_managed (base + 0x40000) 2000

first_allocation : allocate (new base) 0x7000 1000 ≡ some (list_one, node_a)
unfolding new allocate acquire unacquire get_free_block_index search check_occupation
    bit_bounds_check read_run read_end read_bytes bit_mask_u8 shifted_mask block_size place bit_on
    paint paint_start paint_bytes paint_end
first_allocation = refl

second_allocation : allocate list_one 0x7000 2000 ≡ some (list_two, node_b)
unfolding new allocate acquire unacquire get_free_block_index search check_occupation
    bit_bounds_check read_run read_end read_bytes bit_mask_u8 shifted_mask block_size place bit_on
    paint paint_start paint_bytes paint_end
second_allocation = refl

abbrev two_live : Pool
two_live = record { list = list_two; live = node_b ∷ node_a ∷ [] }

two_live-Reach : Reach (start base) two_live
unfolding block_size
two_live-Reach =
    Reach.next
      (Reach.next Reach.here (
        Step.alloc (start base) 0x7000 1000 list_one node_a (omega arith) (omega arith)
          first_allocation))
      (Step.alloc (record { list = list_one; live = node_a ∷ [] }) 0x7000 2000 list_two node_b
        (omega arith) (omega arith) second_allocation)

Reach_example : IsApart node_b node_a × IsWithin base node_b × IsWithin base node_a
Reach_example =
    Reach-IsApart base two_live [] [] [] node_b node_a (omega arith) two_live-Reach refl refl refl
      (omega arith) (omega arith)

-- The node that holds block 64.
abbrev node_far : FreeListNode
node_far = new_managed (base + 64 * 2 ^ block_shift) 1000

far-IsFree : IsFree far_taken 0 64
unfolding all_below block_bit testbit
far-IsFree i lo hi = (==_iff _ _).0 (all_below_sound 64 (λ i. block_bit far_taken i == 0) i refl hi)

node_far-IsPlaced : IsPlaced base node_far
unfolding first_block block_size
node_far-IsPlaced own = (refl, omega arith, omega arith)

allocate_overlap_example :
    (list' : FreeList) × (n : FreeListNode) × (allocate list_far 0x7000 (65 * 2 ^ block_shift)
      ≡ some (list', n))
    × ¬ (IsApart n node_far)
unfolding block_size first_block
allocate_overlap_example =
    allocate_overlap list_far 0x7000 (65 * 2 ^ block_shift) node_far far_taken-IsBytes refl
      (omega arith) (omega arith) (omega arith) (omega arith) far-IsFree node_far-IsPlaced refl
      (omega arith) (omega arith)
