-- ===== src/FreeList/Slab/Search.antt =====
-- The sliding window ends, and stops at the first window that looks free.
use cri_archive_lib.Base.{ℕ, zero, suc, ◌+◌, ◌*◌, ◌^◌, ◌≤◌, ◌<◌, ◌≡◌, ◌≢◌}
use cri_archive_lib.Base.{inl, inr, arith, true, false, some, List, leb, ◌==◌}
use cri_archive_lib.Base.{Bool-cases, min}
use native.Mathlib.Decide.{dec_le, dec_lt}
use cri_archive_lib.FreeList.Bitmap.{usize, check_occupation}
use cri_archive_lib.FreeList.Bitmap.Zero.{IsFree, IsBytes}
use cri_archive_lib.FreeList.Bitmap.Reads.{check_occupation-IsFree, check_occupation_outside}
use cri_archive_lib.FreeList.Slab.{search, get_free_block_index, usize_max}

-- A window that looks taken lies within the bitmap.
check_occupation_inside :
    (used : List ℕ) (start len : ℕ)
    → start ≤ 255
    → len < 2 ^ 63
    → check_occupation used start len ≢ 0
    → (0 < len) × (start + len ≤ 255)
check_occupation_inside used start len h k ne = (
  elim (dec_lt 0 len) [
    | yes pos ↦ pos
    | no none_left ↦ absurd (ne (check_occupation_outside used start len (inl (omega arith))))
  ],
  elim (dec_le (start + len) 255) [
    | yes fits ↦ fits
    | no past ↦ absurd (ne (check_occupation_outside used start len (inr (omega arith))))
  ],
)

-- `s` is the first of `start`, `start + size`, ... whose window looks free.
pub record IsFirst (used : List ℕ) (size start s : ℕ) : Type 0 where
  pub steps : ℕ
  pub reached : s ≡ start + steps * size
  pub low : s ≤ 255
  pub clear : check_occupation used s size ≡ 0
  pub taken : (j : ℕ) → j < steps → check_occupation used (start + j * size) size ≢ 0

IsFirst-next :
    {used : List ℕ} {size start s : ℕ}
    → check_occupation used start size ≢ 0
    → IsFirst used size (start + size) s
    → IsFirst used size start s
IsFirst-next {used} {size} {start} ne first = record {
  steps = suc first.steps;
  reached = omega (arith, first.reached);
  low = first.low;
  clear = first.clear;
  taken = later;
}
  where
    later : (j : ℕ) → j < suc first.steps → check_occupation used (start + j * size) size ≢ 0
    later zero h = let e : start + 0 * size ≡ start = omega arith in rw e ne
    later (suc j) h =
        let e : start + suc j * size ≡ start + size + j * size = omega arith in
        rw e (first.taken j (omega arith))

abbrev Found : ℕ → List ℕ → ℕ → ℕ → Type 0
Found fuel used size start =
    (s : ℕ) × (search fuel used size start ≡ some s) × IsFirst used size start s

Found-next :
    (fuel : ℕ) (used : List ℕ) (size start : ℕ)
    → check_occupation used start size ≢ 0
    → usize (start + size) ≡ start + size
    → Found fuel used size (start + size)
    → Found (suc fuel) used size start
unfolding search
Found-next fuel used size start ne e (s, found, first) =
    let taken : (check_occupation used start size == 0) ≡ false = ground arith in
    (s, rw (taken, e) found, IsFirst-next ne first)

pub search-IsFirst :
    (fuel : ℕ) (used : List ℕ) (size start : ℕ)
    → size < 2 ^ 63
    → start ≤ 255
    → 255 < fuel + start
    → Found fuel used size start
unfolding search
search-IsFirst zero used size start small low enough = absurd (omega arith)
search-IsFirst (suc fuel) used size start small low enough =
    elim (Bool-cases (check_occupation used start size == 0)) [
      | inl clear ↦ (
        start,
        rw clear,
        record {
          steps = 0;
          reached = omega arith;
          low = low;
          clear = ground arith;
          taken = λ j h. absurd (omega arith);
        },
      )
      | inr taken ↦
          let ne : check_occupation used start size ≢ 0 = ground arith in
          let (pos, inside) = check_occupation_inside used start size low small ne in
          Found-next fuel used size start ne (omega arith)
            (search-IsFirst fuel used size (start + size) small inside (omega arith))
    ]

-- Where the search ends: at a window within the bitmap whose first 64 blocks are free, or nowhere.
pub data Window (used : List ℕ) (size : ℕ) : ℕ → Type 0 where
  inside :
      (start : ℕ)
      → start + size ≤ 255
      → IsFree used start (start + min size 64)
      → IsFirst used size 0 start
      → Window used size start
  full : (s : ℕ) → 255 < s + size → IsFirst used size 0 s → Window used size usize_max

Window-at :
    (used : List ℕ) (size s : ℕ)
    → IsBytes used
    → size < 2 ^ 63
    → s + size ≤ 255
    → IsFirst used size 0 s
    → Window used size s
Window-at used size s bytes small h first = elim (dec_lt 0 size) [
  | yes pos ↦
      Window.inside s h ((check_occupation-IsFree used s size bytes pos h).0 first.clear) first
  | no empty ↦ Window.inside s h (λ i p q. absurd (omega arith)) first
]

-- On a bitmap of bytes, and for fewer than 2 ^ 63 blocks, the search for a window returns: the
-- first multiple of the size whose window looks free, if it ends within the first 255 blocks, and
-- otherwise the mark that there is none.
pub get_free_block_index-Window :
    (used : List ℕ) (size : ℕ)
    → IsBytes used
    → size < 2 ^ 63
    → (start : ℕ) × (get_free_block_index used size ≡ some start) × Window used size start
unfolding get_free_block_index
get_free_block_index-Window used size bytes small =
    finish (search-IsFirst 257 used size 0 small (omega arith) (omega arith))
  where
    finish :
        Found 257 used size 0
        → (start : ℕ) × (get_free_block_index used size ≡ some start) × Window used size start
    finish (s, found, first) = elim (dec_le (s + size) 255) [
      | yes fits ↦
          let e : usize (s + size) ≡ s + size = omega (arith, first.low) in
          let t : leb (s + size) 255 ≡ true = ground arith in
          (s, rw (found, e, t), Window-at used size s bytes small fits first)
      | no past ↦
          let e : usize (s + size) ≡ s + size = omega (arith, first.low) in
          let t : leb (s + size) 255 ≡ false = ground arith in
          (usize_max, rw (found, e, t), Window.full s (omega arith) first)
    ]
