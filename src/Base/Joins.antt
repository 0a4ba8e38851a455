-- ===== src/Base/Joins.antt =====
-- `^` and `&` on numbers that are put together from a high and a low part.
use Prim.Native.Nat.{ℕ, zero, suc, ◌+◌, ◌-◌, ◌*◌, ◌/◌, ◌%◌, ◌^◌, ◌≤◌, ◌<◌, bit_and, bit_xor}
use mathlib.Core.Path.{◌≡◌, sym, ap, ap₂, ◌∙◌}
use native.Mathlib.Nat.{
  mul_comm, mul-sub, pow-suc, one-le-pow, div-add-mod, div-lt_iff_lt-mul, mod-lt, mod-eq_of_lt,
}
use native.Mathlib.Omega.{arith}
use cri_archive_lib.Base.Bits.{
  bit_xor_step, bit_and_step, bit_xor-zero_right, bit_and-zero_right, double_pow, pow-add,
  bit_and-mask,
}

-- `^` acts on the low `k` bits and on the others.
pub bit_xor-join :
    (k x y a b : ℕ)
    → a < 2 ^ k
    → b < 2 ^ k
    → bit_xor (x * 2 ^ k + a) (y * 2 ^ k + b) ≡ bit_xor x y * 2 ^ k + bit_xor a b
bit_xor-join zero x y a b ha hb =
    let ea : a ≡ 0 = omega arith in
    let eb : b ≡ 0 = omega arith in
    let ex : x * 2 ^ 0 + 0 ≡ x = omega arith in
    let ey : y * 2 ^ 0 + 0 ≡ y = omega arith in
    let done : bit_xor x y ≡ bit_xor x y * 2 ^ 0 + 0 = omega arith in
    rw (ea, eb, ex, ey, bit_xor-zero_right 0) done
bit_xor-join (suc k) x y a b ha hb =
    let p = pow-suc 2 k in
    let dx = double_pow x k in
    let dy = double_pow y k in
    let dz = double_pow (bit_xor x y) k in
    let hx : (x * 2 ^ suc k + a) / 2 ≡ x * 2 ^ k + a / 2 = omega (arith, dx) in
    let hy : (y * 2 ^ suc k + b) / 2 ≡ y * 2 ^ k + b / 2 = omega (arith, dy) in
    let ih = bit_xor-join k x y (a / 2) (b / 2) (omega (arith, p)) (omega (arith, p)) in
    let halves = ap₂ bit_xor hx hy ∙ ih in
    let s = bit_xor_step (x * 2 ^ suc k + a) (y * 2 ^ suc k + b) in
    omega (arith, s, halves, bit_xor_step a b, dx, dy, dz)

-- `&` acts on the low `k` bits and on the others.
pub bit_and-join :
    (k x y a b : ℕ)
    → a < 2 ^ k
    → b < 2 ^ k
    → bit_and (x * 2 ^ k + a) (y * 2 ^ k + b) ≡ bit_and x y * 2 ^ k + bit_and a b
bit_and-join zero x y a b ha hb =
    let ea : a ≡ 0 = omega arith in
    let eb : b ≡ 0 = omega arith in
    let ex : x * 2 ^ 0 + 0 ≡ x = omega arith in
    let ey : y * 2 ^ 0 + 0 ≡ y = omega arith in
    let done : bit_and x y ≡ bit_and x y * 2 ^ 0 + 0 = omega arith in
    rw (ea, eb, ex, ey, bit_and-zero_right 0) done
bit_and-join (suc k) x y a b ha hb =
    let p = pow-suc 2 k in
    let dx = double_pow x k in
    let dy = double_pow y k in
    let dz = double_pow (bit_and x y) k in
    let hx : (x * 2 ^ suc k + a) / 2 ≡ x * 2 ^ k + a / 2 = omega (arith, dx) in
    let hy : (y * 2 ^ suc k + b) / 2 ≡ y * 2 ^ k + b / 2 = omega (arith, dy) in
    let ih = bit_and-join k x y (a / 2) (b / 2) (omega (arith, p)) (omega (arith, p)) in
    let halves = ap₂ bit_and hx hy ∙ ih in
    let s = bit_and_step (x * 2 ^ suc k + a) (y * 2 ^ suc k + b) in
    omega (arith, s, halves, bit_and_step a b, dx, dy, dz)

-- `& !(2 ^ k - 1)` in a word of `w` bits clears the low `k` bits.
pub bit_and-clear :
    (w k x : ℕ) → k ≤ w → x < 2 ^ w → bit_and x (2 ^ w - 1 - (2 ^ k - 1)) ≡ x - x % 2 ^ k
bit_and-clear w k x le lt =
    let high = 2 ^ (w - k) in
    let e : w - k + k ≡ w = omega arith in
    let whole : 2 ^ w ≡ high * 2 ^ k = ap (λ n. 2 ^ n) (sym e) ∙ pow-add (w - k) k in
    let pos = one-le-pow k 2 (omega arith) in
    let hpos = one-le-pow (w - k) 2 (omega arith) in
    let d = div-add-mod x (2 ^ k) in
    let split : x ≡ x / 2 ^ k * 2 ^ k + x % 2 ^ k =
      omega (arith, d, mul_comm (2 ^ k) (x / 2 ^ k)) in
    let mask : 2 ^ w - 1 - (2 ^ k - 1) ≡ (high - 1) * 2 ^ k + 0 = omega (
      arith,
      whole,
      mul-sub (2 ^ k) high 1,
      mul_comm (2 ^ k) high,
      mul_comm (2 ^ k) (high - 1),
      pos,
    ) in
    let small : x / 2 ^ k < high = (div-lt_iff_lt-mul pos).1 (rw (← whole) lt) in
    let keep = bit_and-mask (w - k) (x / 2 ^ k) ∙ mod-eq_of_lt small in
    let none_left = bit_and-zero_right (x % 2 ^ k) in
    ap₂ bit_and split mask
    ∙ bit_and-join k (x / 2 ^ k) (high - 1) (x % 2 ^ k) 0 (mod-lt x pos) pos
    ∙ ap₂ (λ (q r : ℕ). q * 2 ^ k + r) keep none_left
    ∙ omega (arith, split)
