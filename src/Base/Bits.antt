-- ===== src/Base/Bits.antt =====
-- The bits of a number one by one, and what `&`, `|`, `^`, shifts and masks do to them.
use Prim.Native.Nat.{ℕ, zero, suc, ◌+◌, ◌-◌, ◌*◌, ◌/◌, ◌%◌, ◌^◌, ◌≤◌, ◌<◌, min, max}
use Prim.Native.Nat.{bit_and, bit_or, bit_xor, digits, bitwise, differ}
use Prim.Native.Nat.{bit_and-bitwise, bit_or-bitwise, bit_xor-bitwise}
use mathlib.Core.Path.{◌≡◌, refl, ap, ◌∙◌}
use native.Mathlib.Nat.{mul_assoc, pow-suc, one-le-pow}
use native.Mathlib.Omega.{arith}

-- More fuel than the digit recursion needs changes nothing.
module _ (z : ℕ → ℕ) (f : ℕ → ℕ → ℕ) where
  one_more : (n x y : ℕ) → x ≤ n → digits z f (suc n) x y ≡ digits z f n x y
  one_more zero zero y h = refl
  one_more zero (suc x) y h = absurd (omega arith)
  one_more (suc n) zero y h = refl
  one_more (suc n) (suc x) y h = rw (one_more n (suc x / 2) (y / 2) (omega arith)) refl

  some_more : (k n x y : ℕ) → x ≤ n → digits z f (k + n) x y ≡ digits z f n x y
  some_more zero n x y h = ap (λ m. digits z f m x y) (omega arith)
  some_more (suc k) n x y h =
      let e : suc k + n ≡ suc (k + n) = omega arith in
      ap (λ m. digits z f m x y) e ∙ one_more (k + n) x y (omega arith) ∙ some_more k n x y h

  -- The lowest digit of a number that is not zero.
  low_digit :
      (x y : ℕ)
      → bitwise z f (suc x) y ≡ 2 * bitwise z f (suc x / 2) (y / 2) + f (suc x % 2) (y % 2)
  low_digit x y =
      let half = suc x / 2 in
      let e : x ≡ x - half + half = omega arith in
      let fuel = ap (λ m. digits z f m half (y / 2)) e in
      omega (arith, fuel, some_more (x - half) half half (y / 2) (omega arith))

differ-mod : (a b : ℕ) → a < 2 → b < 2 → differ a b ≡ (a + b) % 2
differ-mod zero b p q = omega arith
differ-mod (suc zero) zero p q = refl
differ-mod (suc zero) (suc zero) p q = refl
differ-mod (suc zero) (suc (suc b)) p q = absurd (omega arith)
differ-mod (suc (suc a)) b p q = absurd (omega arith)

-- One equation for the lowest digit.
pub bit_xor_step : (x y : ℕ) → bit_xor x y ≡ 2 * bit_xor (x / 2) (y / 2) + (x + y) % 2
bit_xor_step zero y = simp bit_xor-bitwise (omega arith)
bit_xor_step (suc x) y =
    let digit = differ-mod (suc x % 2) (y % 2) (omega arith) (omega arith) in
    simp bit_xor-bitwise (omega (arith, low_digit (λ r. r) differ x y, digit))

pub bit_or_step : (x y : ℕ) → bit_or x y ≡ 2 * bit_or (x / 2) (y / 2) + max (x % 2) (y % 2)
bit_or_step zero y = simp bit_or-bitwise (omega arith)
bit_or_step (suc x) y = simp bit_or-bitwise (low_digit (λ r. r) max x y)

pub bit_and_step : (x y : ℕ) → bit_and x y ≡ 2 * bit_and (x / 2) (y / 2) + min (x % 2) (y % 2)
bit_and_step zero y = simp bit_and-bitwise (omega arith)
bit_and_step (suc x) y = simp bit_and-bitwise (low_digit (λ r. 0) min x y)

-- Bit `j` of `x`, 0 or 1, counted from the lowest.
unfoldable pub testbit : ℕ → ℕ → ℕ
testbit x zero = x % 2
testbit x (suc j) = testbit (x / 2) j

pub testbit-lt : (x j : ℕ) → testbit x j < 2
unfolding testbit
testbit-lt x zero = omega arith
testbit-lt x (suc j) = testbit-lt (x / 2) j

pub testbit-or : (a b j : ℕ) → testbit (bit_or a b) j ≡ max (testbit a j) (testbit b j)
unfolding testbit
testbit-or a b zero = omega (arith, bit_or_step a b)
testbit-or a b (suc j) =
    let half : bit_or a b / 2 ≡ bit_or (a / 2) (b / 2) = omega (arith, bit_or_step a b) in
    rw half (testbit-or (a / 2) (b / 2) j)

pub testbit-and : (a b j : ℕ) → testbit (bit_and a b) j ≡ min (testbit a j) (testbit b j)
unfolding testbit
testbit-and a b zero = omega (arith, bit_and_step a b)
testbit-and a b (suc j) =
    let half : bit_and a b / 2 ≡ bit_and (a / 2) (b / 2) = omega (arith, bit_and_step a b) in
    rw half (testbit-and (a / 2) (b / 2) j)

pub testbit-xor : (a b j : ℕ) → testbit (bit_xor a b) j ≡ (testbit a j + testbit b j) % 2
unfolding testbit
testbit-xor a b zero = omega (arith, bit_xor_step a b)
testbit-xor a b (suc j) =
    let half : bit_xor a b / 2 ≡ bit_xor (a / 2) (b / 2) = omega (arith, bit_xor_step a b) in
    rw half (testbit-xor (a / 2) (b / 2) j)

testbit_ext_fuel : (n a b : ℕ) → a ≤ n → b ≤ n → ((j : ℕ) → testbit a j ≡ testbit b j) → a ≡ b
unfolding testbit
testbit_ext_fuel zero a b p q h = omega arith
testbit_ext_fuel (suc n) a b p q h =
    omega
      (arith, h 0, testbit_ext_fuel n (a / 2) (b / 2) (omega arith) (omega arith) (λ j. h (suc j)))

-- Numbers with the same bits are equal.
pub testbit_ext : (a b : ℕ) → ((j : ℕ) → testbit a j ≡ testbit b j) → a ≡ b
testbit_ext a b h = testbit_ext_fuel (a + b) a b (omega arith) (omega arith) h

pub testbit-zero : (j : ℕ) → testbit 0 j ≡ 0
unfolding testbit
testbit-zero zero = refl
testbit-zero (suc j) = testbit-zero j

pub testbit-lt_pow : (k x j : ℕ) → x < 2 ^ k → k ≤ j → testbit x j ≡ 0
unfolding testbit
testbit-lt_pow zero x j p q = let e : x ≡ 0 = omega arith in rw e (testbit-zero j)
testbit-lt_pow (suc k) x zero p q = absurd (omega arith)
testbit-lt_pow (suc k) x (suc j) p q =
    testbit-lt_pow k (x / 2) j (omega (arith, pow-suc 2 k)) (omega arith)

-- `^` with the same key twice is nothing.
pub bit_xor_undo : (a k : ℕ) → bit_xor (bit_xor a k) k ≡ a
bit_xor_undo a k = testbit_ext _ _ λ j.
    omega (arith, testbit-xor (bit_xor a k) k j, testbit-xor a k j, testbit-lt a j, testbit-lt k j)

pub bit_xor_comm : (a b : ℕ) → bit_xor a b ≡ bit_xor b a
bit_xor_comm a b = testbit_ext _ _ λ j. omega (arith, testbit-xor a b j, testbit-xor b a j)

pub bit_xor-lt : (k a b : ℕ) → a < 2 ^ k → b < 2 ^ k → bit_xor a b < 2 ^ k
bit_xor-lt zero a b p q =
    let ea : a ≡ 0 = omega arith in let eb : b ≡ 0 = omega arith in rw (ea, eb) (omega arith)
bit_xor-lt (suc k) a b p q = omega (
  arith,
  bit_xor_step a b,
  pow-suc 2 k,
  bit_xor-lt k (a / 2) (b / 2) (omega (arith, pow-suc 2 k)) (omega (arith, pow-suc 2 k)),
)

pub bit_or-lt : (k a b : ℕ) → a < 2 ^ k → b < 2 ^ k → bit_or a b < 2 ^ k
bit_or-lt zero a b p q =
    let ea : a ≡ 0 = omega arith in let eb : b ≡ 0 = omega arith in rw (ea, eb) (omega arith)
bit_or-lt (suc k) a b p q = omega (
  arith,
  bit_or_step a b,
  pow-suc 2 k,
  bit_or-lt k (a / 2) (b / 2) (omega (arith, pow-suc 2 k)) (omega (arith, pow-suc 2 k)),
)

pub bit_and-le : (k a b : ℕ) → a < 2 ^ k → bit_and a b ≤ a
bit_and-le zero a b p = let ea : a ≡ 0 = omega arith in rw ea (omega (arith, bit_and-bitwise 0 b))
bit_and-le (suc k) a b p =
    omega (arith, bit_and_step a b, bit_and-le k (a / 2) (b / 2) (omega (arith, pow-suc 2 k)))

pub pow-add : (m n : ℕ) → 2 ^ (m + n) ≡ 2 ^ m * 2 ^ n
pow-add m zero = let e : m + 0 ≡ m = omega arith in rw e (omega arith)
pow-add m (suc n) =
    let e : m + suc n ≡ suc (m + n) = omega arith in
    rw e (
      omega (
        arith,
        pow-suc 2 (m + n),
        pow-suc 2 n,
        pow-add m n,
        mul_assoc (2 ^ m) (2 ^ n) 2,
        ap (λ (t : ℕ). 2 ^ m * t) (pow-suc 2 n),
      ))

bit_or-zero_right : (a : ℕ) → bit_or a 0 ≡ a
bit_or-zero_right a = testbit_ext _ a λ j. omega (arith, testbit-or a 0 j, testbit-zero j)

pub bit_and-zero_right : (a : ℕ) → bit_and a 0 ≡ 0
bit_and-zero_right a = testbit_ext _ 0 λ j. omega (arith, testbit-and a 0 j, testbit-zero j)

pub double_pow : (q k : ℕ) → q * 2 ^ suc k ≡ 2 * (q * 2 ^ k)
double_pow q k = omega (arith, ap (λ (t : ℕ). q * t) (pow-suc 2 k))

-- `(q << k) | r` is a sum when `r` has `k` bits.
pub bit_or-disjoint : (k q r : ℕ) → r < 2 ^ k → bit_or (q * 2 ^ k) r ≡ q * 2 ^ k + r
bit_or-disjoint zero q r h = ground (arith, bit_or-zero_right q)
bit_or-disjoint (suc k) q r h =
    let e = double_pow q k in
    let s = bit_or_step (q * 2 ^ suc k) r in
    ground (arith, e, s, bit_or-disjoint k q (r / 2) (omega (arith, pow-suc 2 k)))

bit_and-low : (k q r : ℕ) → r < 2 ^ k → bit_and (q * 2 ^ k + r) (2 ^ k - 1) ≡ r
bit_and-low zero q r h = rw bit_and-zero_right (omega arith)
bit_and-low (suc k) q r h =
    let e = double_pow q k in
    let s = bit_and_step (q * 2 ^ suc k + r) (2 ^ suc k - 1) in
    ground (
      arith,
      e,
      s,
      pow-suc 2 k,
      one-le-pow k 2,
      bit_and-low k q (r / 2) (omega (arith, pow-suc 2 k)),
    )

-- `& (2 ^ k - 1)` is the remainder by `2 ^ k`.
pub bit_and-mask : (k a : ℕ) → bit_and a (2 ^ k - 1) ≡ a % 2 ^ k
bit_and-mask k a =
    let pos = one-le-pow k 2 in ground (arith, pos, bit_and-low k (a / 2 ^ k) (a % 2 ^ k))

pub bit_xor-zero_right : (a : ℕ) → bit_xor a 0 ≡ a
bit_xor-zero_right a =
    testbit_ext _ a λ j. omega (arith, testbit-xor a 0 j, testbit-zero j, testbit-lt a j)
