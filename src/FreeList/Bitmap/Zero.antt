-- ===== src/FreeList/Bitmap/Zero.antt =====
-- When a masked byte, a whole byte and a 64-bit shift are 0.
use cri_archive_lib.Base.{ℕ, ◌+◌, ◌*◌, ◌/◌, ◌%◌, ◌^◌, ◌≤◌, ◌<◌}
use cri_archive_lib.Base.{bit_and, bit_or, ◌≡◌, ap, ◌↔◌, arith}
use cri_archive_lib.Base.{List}
use native.Mathlib.Decide.{dec_lt}
use native.Mathlib.Nat.{
  le_trans, mul-lt-mul_of_pos_right, pow-le-pow_right, one-le-pow, mod-eq_of_lt,
}
use cri_archive_lib.Base.Bits.{
  testbit, testbit_ext, testbit-or, testbit-and, testbit-lt, testbit-zero, testbit-lt_pow, pow-add,
}
use cri_archive_lib.FreeList.Bitmap.{shifted_mask, load, block_bit, shl64}
use cri_archive_lib.FreeList.Bitmap.Masks.{shifted_mask-lt, testbit-shifted_mask}

-- The blocks from `a` up to `b` are free.
abbrev pub IsFree : List ℕ → ℕ → ℕ → Type 0
IsFree used a b = (i : ℕ) → a ≤ i → i < b → block_bit used i ≡ 0

-- Every element is a byte.
abbrev pub IsBytes : List ℕ → Type 0
IsBytes used = (k : ℕ) → load used k < 256

pub bit_or-eq-zero : (a b : ℕ) → (bit_or a b ≡ 0) ↔ ((a ≡ 0) × (b ≡ 0))
bit_or-eq-zero a b = (
  λ e. (
    testbit_ext a 0 (λ j. omega (arith, testbit-or a b j, bits_of e j, testbit-zero j)),
    testbit_ext b 0 (λ j. omega (arith, testbit-or a b j, bits_of e j, testbit-zero j)),
  ),
  λ (p, q).
      testbit_ext (bit_or a b) 0
        (λ j. omega (arith, testbit-or a b j, bits_of p j, bits_of q j, testbit-zero j)),
)
  where
    bits_of : {x : ℕ} → x ≡ 0 → (j : ℕ) → testbit x j ≡ 0
    bits_of e j = rw e (testbit-zero j)

pub block_bit-add :
    (used : List ℕ) (k j : ℕ) → j < 8 → block_bit used (8 * k + j) ≡ testbit (load used k) j
unfolding block_bit
block_bit-add used k j h =
    let p : (8 * k + j) / 8 ≡ k = omega arith in
    let q : (8 * k + j) % 8 ≡ j = omega arith in rw (p, q)

pub block_bit-at :
    (used : List ℕ) (k i : ℕ) → i / 8 ≡ k → block_bit used i ≡ testbit (load used k) (i % 8)
unfolding block_bit
block_bit-at used k i e = rw e

-- A byte under a mask is 0 when the masked blocks are free.
pub masked-eq-zero :
    (used : List ℕ) (k d b : ℕ)
    → d + b ≤ 8
    → (bit_and (load used k) (shifted_mask d b) ≡ 0) ↔ IsFree used (8 * k + b) (8 * k + b + d)
masked-eq-zero used k d b h = (
  λ e i l m. ground (
    arith,
    block_bit-at used k i (omega arith),
    testbit-and (load used k) (shifted_mask d b) (i % 8),
    testbit-shifted_mask d b (i % 8) h (omega arith),
    testbit-lt (load used k) (i % 8),
    ap (λ x. testbit x (i % 8)) e,
    testbit-zero (i % 8),
  ),
  λ free. testbit_ext _ 0 (λ j. elim (dec_lt j 8) [
    | yes small ↦ ground (
      arith,
      testbit-and (load used k) (shifted_mask d b) j,
      testbit-shifted_mask d b j h small,
      testbit-zero j,
      block_bit-add used k j small,
      free (8 * k + j),
    )
    | no large ↦ omega (
      arith,
      testbit-and (load used k) (shifted_mask d b) j,
      testbit-lt_pow 8 (shifted_mask d b) j (shifted_mask-lt d b) (omega arith),
      testbit-zero j,
    )
  ]),
)

pub byte-eq-zero :
    (used : List ℕ) (k : ℕ)
    → load used k < 256
    → (load used k ≡ 0) ↔ IsFree used (8 * k) (8 * k + 8)
byte-eq-zero used k h = (
  λ e i l m. omega (
    arith,
    block_bit-at used k i (omega arith),
    ap (λ x. testbit x (i % 8)) e,
    testbit-zero (i % 8),
  ),
  λ free. testbit_ext _ 0 (λ j. elim (dec_lt j 8) [
    | yes small ↦ omega (
      arith,
      testbit-zero j,
      block_bit-add used k j small,
      free (8 * k + j) (omega arith) (omega arith),
    )
    | no large ↦ omega (arith, testbit-lt_pow 8 (load used k) j h (omega arith), testbit-zero j)
  ]),
)

-- A shift that stays within 64 bits loses no bit.
mul-two_pow-lt : (m d x : ℕ) → x < 2 ^ m → x * 2 ^ d < 2 ^ (m + d)
mul-two_pow-lt m d x h = rw (pow-add m d) (mul-lt-mul_of_pos_right h (one-le-pow d 2 (omega arith)))

shl64-eq : (m d x : ℕ) → x < 2 ^ m → m + d ≤ 64 → shl64 x d ≡ x * 2 ^ d
shl64-eq m d x h k =
    mod-eq_of_lt (le_trans (mul-two_pow-lt m d x h) (pow-le-pow_right (omega arith) k))

pub shl64-lt : (m d x : ℕ) → x < 2 ^ m → m + d ≤ 64 → shl64 x d < 2 ^ (m + d)
shl64-lt m d x h k = rw (shl64-eq m d x h k) (mul-two_pow-lt m d x h)

pub shl64-eq-zero : (m d x : ℕ) → x < 2 ^ m → m + d ≤ 64 → (shl64 x d ≡ 0) ↔ (x ≡ 0)
shl64-eq-zero m d x h k =
    rw (shl64-eq m d x h k)
      (λ e. grind (arith, one-le-pow d 2 (omega arith)), λ e. rw e (omega arith))

pub lt-two_pow : {x : ℕ} (m n : ℕ) → x < 2 ^ m → m ≤ n → x < 2 ^ n
lt-two_pow m n h k = le_trans h (pow-le-pow_right (omega arith) k)
