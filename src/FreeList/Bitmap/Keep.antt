-- ===== src/FreeList/Bitmap/Keep.antt =====
-- `bit_on` and `bit_off` keep every element a byte.
use cri_archive_lib.Base.{ℕ, zero, suc, ◌+◌, ◌-◌, ◌/◌, ◌%◌, ◌<◌}
use cri_archive_lib.Base.{arith, List, [], ◌∷◌, ◌==◌}
use cri_archive_lib.Base.{inl, inr, Bool-cases, set}
use cri_archive_lib.Base.Bits.{bit_or-lt, bit_and-le}
use cri_archive_lib.FreeList.Bitmap.{Painter, turn_on, turn_off, load, shifted_mask}
use cri_archive_lib.FreeList.Bitmap.{
  bit_bounds_check, paint_start, paint_bytes, paint_end, paint, bit_on, bit_off,
}
use cri_archive_lib.FreeList.Bitmap.Zero.{IsBytes}
use cri_archive_lib.FreeList.Bitmap.Masks.{bit_mask_u8-eq, shifted_mask-lt}

IsBytes-set : (used : List ℕ) (k v : ℕ) → v < 256 → IsBytes used → IsBytes (set used k v)
IsBytes-set [] k v h bytes j = bytes j
IsBytes-set (x ∷ xs) zero v h bytes zero = h
IsBytes-set (x ∷ xs) zero v h bytes (suc j) = bytes (suc j)
IsBytes-set (x ∷ xs) (suc k) v h bytes zero = bytes 0
IsBytes-set (x ∷ xs) (suc k) v h bytes (suc j) = IsBytes-set xs k v h (λ i. bytes (suc i)) j

-- A painter that turns bytes into bytes.
record Keeps (p : Painter) : Type 0 where
  masked_lt : (x m : ℕ) → x < 256 → m < 256 → p.masked x m < 256
  whole_lt : p.whole < 256

turn_on-Keeps : Keeps turn_on
turn_on-Keeps = record { masked_lt = λ x m h k. bit_or-lt 8 x m h k; whole_lt = omega arith }

turn_off-Keeps : Keeps turn_off
turn_off-Keeps = record {
  masked_lt = λ x m h k. omega (arith, bit_and-le 8 x (255 - m) h);
  whole_lt = omega arith;
}

module _ (p : Painter) (keeps : Keeps p) where
  paint_bytes-IsBytes : (n k : ℕ) (used : List ℕ) → IsBytes used → IsBytes (paint_bytes p n k used)
  unfolding paint_bytes
  paint_bytes-IsBytes zero k used h = h
  paint_bytes-IsBytes (suc n) k used h =
      paint_bytes-IsBytes n (k + 1) _ (IsBytes-set used k p.whole keeps.whole_lt h)

  set_masked-IsBytes :
      (used : List ℕ) (k m : ℕ)
      → m < 256
      → IsBytes used
      → IsBytes (set used k (p.masked (load used k) m))
  set_masked-IsBytes used k m small h = IsBytes-set used k _ (keeps.masked_lt _ m (h k) small) h

  paint_end-IsBytes :
      (bit k : ℕ) (used : List ℕ) → bit < 8 → IsBytes used → IsBytes (paint_end p bit k used)
  unfolding paint_end
  paint_end-IsBytes bit k used small h = elim (Bool-cases (bit == 0)) [
    | inl e ↦ rw e h
    | inr e ↦
        rw (e, bit_mask_u8-eq bit (omega arith))
          (set_masked-IsBytes used k (shifted_mask bit 0) (shifted_mask-lt bit 0) h)
  ]

  paint_start-IsBytes :
      (used : List ℕ) (start len : ℕ) → IsBytes used → IsBytes (paint_start p used start len).used
  unfolding paint_start
  paint_start-IsBytes used start len h = elim (Bool-cases (start % 8 == 0)) [
    | inl e ↦ rw e h
    | inr e ↦ rw e (set_masked-IsBytes used (start / 8) _ (shifted_mask-lt _ (start % 8)) h)
  ]

  paint-IsBytes : (used : List ℕ) (start len : ℕ) → IsBytes used → IsBytes (paint p used start len)
  unfolding paint
  paint-IsBytes used start len h =
      paint_end-IsBytes _ _ _ (omega arith)
        (paint_bytes-IsBytes _ _ _ (paint_start-IsBytes used start len h))

pub bit_on-IsBytes :
    (used : List ℕ) (start len : ℕ) → IsBytes used → IsBytes (bit_on used start len)
unfolding bit_on
bit_on-IsBytes used start len h = elim (Bool-cases (bit_bounds_check start len)) [
  | inl e ↦ rw e h
  | inr e ↦ rw e (paint-IsBytes turn_on turn_on-Keeps used start len h)
]

pub bit_off-IsBytes :
    (used : List ℕ) (start len : ℕ) → IsBytes used → IsBytes (bit_off used start len)
unfolding bit_off
bit_off-IsBytes used start len h = elim (Bool-cases (bit_bounds_check start len)) [
  | inl e ↦ rw e h
  | inr e ↦ rw e (paint-IsBytes turn_off turn_off-Keeps used start len h)
]
