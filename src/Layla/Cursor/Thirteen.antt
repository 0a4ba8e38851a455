-- ===== src/Layla/Cursor/Thirteen.antt =====
-- `read_13` gives the bits and the cursor of thirteen reads of one bit; what it shares with the
-- other fast reads stands here too.
use native.Mathlib.Nat.{
  mod-lt, mod-eq_of_lt, one-le-pow, le_trans, pow-le-pow_right, mul-lt-mul_of_pos_right,
}
use native.Mathlib.Decide.{dec_le}
use cri_archive_lib.Base.{ℕ, ◌+◌, ◌-◌, ◌*◌, ◌/◌, ◌%◌, ◌^◌, ◌≤◌, ◌<◌, ◌≡◌, refl, sym, ◌∙◌, ap, min}
use cri_archive_lib.Base.{arith, true, false, ◌==◌, ==_iff}
use cri_archive_lib.Base.{bit_and, bit_or}
use cri_archive_lib.Base.Table.{all_below, all_below_sound}
use cri_archive_lib.Base.Bits.{bit_and-mask, bit_or-disjoint, pow-add}
use cri_archive_lib.Layla.Cursor.{
  Cursor, at, Memory, Read, bit_mask, refill, peek, read_13, read_13_filled,
}
use cri_archive_lib.Layla.Cursor.Single.{
  read_bits, read_bits-refill, read_bits-add, read_bits_first, read_bits_next,
}

mask_table : all_below 16 (λ n. bit_mask n == 2 ^ n - 1) ≡ true
unfolding all_below bit_mask
mask_table = refl

-- `& bit_mask(n)` keeps the low `n` bits.
pub and_bit_mask : (x n : ℕ) → n < 16 → bit_and x (bit_mask n) ≡ x % 2 ^ n
and_bit_mask x n h =
    ap (bit_and x) ((==_iff _ _).0 (all_below_sound 16 _ n mask_table h)) ∙ bit_and-mask n x

-- New bits behind `x`, in a word of `w` bits that has room for both.
pub join_bits :
    (w k r x y : ℕ)
    → x < 2 ^ k
    → y < 2 ^ r
    → k + r ≤ w
    → bit_or (x * 2 ^ r % 2 ^ w) y ≡ x * 2 ^ r + y
join_bits w k r x y hx hy fits =
    ap (λ t. bit_or t y) (mod-eq_of_lt small) ∙ bit_or-disjoint r x y hy
  where
    small : x * 2 ^ r < 2 ^ w
    small =
        le_trans (mul-lt-mul_of_pos_right hx (one-le-pow r 2 (omega arith)))
          (rw (← pow-add k r) (pow-le-pow_right (omega arith) fits))

pub mod-lt_pow : (x n : ℕ) → x % 2 ^ n < 2 ^ n
mod-lt_pow x n = mod-lt x (one-le-pow n 2 (omega arith))

pub peek-eq :
    (mem : Memory) (a b n : ℕ) → n < 16 → peek mem (at a b) n ≡ mem a / 2 ^ (b - n) % 2 ^ n
unfolding peek
peek-eq mem a b n h = and_bit_mask (mem a / 2 ^ (b - n)) n h

-- A read of the bits left in a byte and of `n` more.
pub first_then :
    (mem : Memory) (a left n : ℕ)
    → read_bits (left + n) mem (at a left) 0 ≡ read_bits n mem (at a 0) (mem a % 2 ^ left)
first_then mem a left n =
    read_bits-add left n mem (at a left) 0
    ∙ ap (λ (r : Read ℕ). read_bits n mem r.cursor r.value) (read_bits_first left mem a 0)
    ∙ ap (read_bits n mem (at a 0)) (omega arith)

-- One shift and one `|` of a fast read is a read of `n` bits from the next byte.
pub read_next :
    (w k n : ℕ) (mem : Memory) (a acc : ℕ)
    → acc < 2 ^ k
    → k + n ≤ w
    → 0 < n
    → n ≤ 8
    → read_bits n mem (at a 0) acc ≡ record {
      value = bit_or (acc * 2 ^ n % 2 ^ w) (peek mem (at (a - 1) 8) n);
      cursor = at (a - 1) (8 - n);
    }
read_next w k n mem a acc small fits pos few =
    read_bits_next n mem a acc pos few
    ∙ ap (λ (v : ℕ). record { value = v; cursor = at (a - 1) (8 - n) }) (sym joined)
  where
    joined :
        bit_or (acc * 2 ^ n % 2 ^ w) (peek mem (at (a - 1) 8) n)
        ≡ acc * 2 ^ n + mem (a - 1) / 2 ^ (8 - n) % 2 ^ n
    joined =
        ap (bit_or (acc * 2 ^ n % 2 ^ w)) (peek-eq mem (a - 1) 8 n (omega arith))
        ∙ join_bits w k n acc _ small (mod-lt_pow (mem (a - 1) / 2 ^ (8 - n)) n) fits

pub refill_bounds :
    (c : Cursor) → c.bits_left < 8 → (0 < (refill c).bits_left) × ((refill c).bits_left ≤ 8)
unfolding refill
refill_bounds c h = ground arith

-- From a byte with at least five bits left, a second byte is enough.
read_13_two :
    (mem : Memory) (a left : ℕ)
    → 5 ≤ left
    → left ≤ 8
    → read_13_filled mem (at a left) ≡ read_bits 13 mem (at a left) 0
unfolding read_13_filled
read_13_two mem a left lo hi =
    let n = 13 - left in
    let e : 13 ≡ left + n = omega arith in
    let round : min n 8 ≡ n = omega arith in
    let done : (n - n == 0) ≡ true = ground arith in
    let first = and_bit_mask (mem a) left (omega arith) in
    rw (round, done, first)
      (sym (
        ap (λ k. read_bits k mem (at a left) 0) e
        ∙ first_then mem a left n
        ∙ read_next 32 left n mem a (mem a % 2 ^ left) (mod-lt_pow (mem a) left) (omega arith)
            (omega arith) (omega arith)))

-- What the first two bytes give, when fewer than five bits were left.
two_parts-lt :
    (mem : Memory) (a left : ℕ)
    → left < 5
    → bit_or (mem a % 2 ^ left * 2 ^ 8 % 2 ^ 32) (peek mem (at (a - 1) 8) 8) < 2 ^ 12
two_parts-lt mem a left h =
    let top : mem a % 2 ^ left < 2 ^ 4 =
      le_trans (mod-lt_pow (mem a) left)
        (pow-le-pow_right {n = 2} (omega arith) {j = 4} (omega arith)) in
    let byte = peek-eq mem (a - 1) 8 8 (omega arith) in
    omega (
      arith,
      join_bits 32 4 8 (mem a % 2 ^ left) (peek mem (at (a - 1) 8) 8) top (omega arith)
          (omega arith),
      byte,
    )

-- From fewer bits a third byte is read.
read_13_three :
    (mem : Memory) (a left : ℕ)
    → 0 < left
    → left < 5
    → read_13_filled mem (at a left) ≡ read_bits 13 mem (at a left) 0
unfolding read_13_filled
read_13_three mem a left lo hi =
    let n = 13 - left - 8 in
    let e : 13 ≡ left + (8 + n) = omega arith in
    let round : min (13 - left) 8 ≡ 8 = omega arith in
    let more : (n == 0) ≡ false = ground arith in
    let first = and_bit_mask (mem a) left (omega arith) in
    rw (round, more, first)
      (sym (
        ap (λ k. read_bits k mem (at a left) 0) e
        ∙ first_then mem a left (8 + n)
        ∙ read_bits-add 8 n mem (at a 0) (mem a % 2 ^ left)
        ∙ ap (λ (r : Read ℕ). read_bits n mem r.cursor r.value)
            (read_next 32 left 8 mem a (mem a % 2 ^ left) (mod-lt_pow (mem a) left) (omega arith)
              (omega arith) (omega arith))
        ∙ read_next 32 12 n mem (a - 1) _ (two_parts-lt mem a left hi) (omega arith) (omega arith)
            (omega arith)))

read_13_filled-bits :
    (mem : Memory) (a left : ℕ)
    → 0 < left
    → left ≤ 8
    → read_13_filled mem (at a left) ≡ read_bits 13 mem (at a left) 0
read_13_filled-bits mem a left lo hi = elim (dec_le 5 left) [
  | yes many ↦ read_13_two mem a left many hi
  | no few ↦ read_13_three mem a left lo (omega arith)
]

-- With less than a byte left over, `read_13` gives the bits and the cursor of thirteen reads of
-- one bit.
pub read_13-bits :
    (mem : Memory) (c : Cursor) → c.bits_left < 8 → read_13 mem c ≡ read_bits 13 mem c 0
unfolding read_13
read_13-bits mem c h =
    let bounds = refill_bounds c h in
    read_13_filled-bits mem (refill c).cdata (refill c).bits_left bounds.0 bounds.1
    ∙ read_bits-refill 12 mem c 0
