-- ===== src/Layla/Cursor/Single.antt =====
-- The reference for every read: one bit after the other, high bit first.
use native.Mathlib.Nat.{
  div-add-mod, mod-lt, mul-le-mul_right, mul-add-mod_self_left, mod-eq_of_lt, div-div-eq-div-mul,
  pow-suc, one-le-pow,
}
use cri_archive_lib.Base.{
  ℕ, zero, suc, ◌+◌, ◌-◌, ◌*◌, ◌/◌, ◌%◌, ◌^◌, ◌≤◌, ◌<◌, ◌≡◌, refl, sym, ◌∙◌, ap, ap₂,
}
use cri_archive_lib.Base.{arith, false, not, ◌==◌, if◌then◌else◌, Bool-cases, inl, inr, bit_and}
use cri_archive_lib.Base.Bits.{bit_and-mask, pow-add}
use cri_archive_lib.Layla.Cursor.{Cursor, at, Memory, Read, back_one, read_1, refill}

-- `n` calls of `read_1`, the bits put together behind `acc`.
unfoldable pub read_bits : ℕ → Memory → Cursor → ℕ → Read ℕ
read_bits zero mem c acc = record { value = acc; cursor = c }
read_bits (suc n) mem c acc =
    let r = read_1 mem c in read_bits n mem r.cursor (2 * acc + (if r.value then 1 else 0))

-- One bit as arithmetic.
odd_test : (x : ℕ) → (if not (bit_and x 1 == 0) then 1 else 0) ≡ x % 2
odd_test x = ground (arith, bit_and-mask 1 x)

read_1-bit :
    (mem : Memory) (c : Cursor)
    → (if (read_1 mem c).value then 1 else 0)
      ≡ mem (back_one c).cdata / 2 ^ (back_one c).bits_left % 2
unfolding read_1
read_1-bit mem c = odd_test (mem (back_one c).cdata / 2 ^ (back_one c).bits_left)

read_1-cursor : (mem : Memory) (c : Cursor) → (read_1 mem c).cursor ≡ back_one c
unfolding read_1
read_1-cursor mem c = refl

-- A read of `n` bits behind one bit at the cursor `d`.
abbrev after : ℕ → Memory → ℕ → Cursor → Read ℕ
after n mem acc d = read_bits n mem d (2 * acc + mem d.cdata / 2 ^ d.bits_left % 2)

read_bits-suc :
    (n : ℕ) (mem : Memory) (c : Cursor) (acc : ℕ)
    → read_bits (suc n) mem c acc ≡ after n mem acc (back_one c)
unfolding read_bits
read_bits-suc n mem c acc =
    ap₂ (λ d (b : ℕ). read_bits n mem d (2 * acc + b)) (read_1-cursor mem c) (read_1-bit mem c)

back_one-suc : (a k : ℕ) → back_one (at a (suc k)) ≡ at a k
unfolding back_one
back_one-suc a k =
    let t : (suc k == 0) ≡ false = ground arith in let e : suc k - 1 ≡ k = omega arith in rw (t, e)

read_1-at :
    (n : ℕ) (mem : Memory) (a k acc : ℕ)
    → read_bits (suc n) mem (at a (suc k)) acc
      ≡ read_bits n mem (at a k) (2 * acc + mem a / 2 ^ k % 2)
read_1-at n mem a k acc =
    read_bits-suc n mem (at a (suc k)) acc ∙ ap (after n mem acc) (back_one-suc a k)

back_one-refill : (c : Cursor) → back_one (refill c) ≡ back_one c
unfolding back_one refill
back_one-refill c = elim (Bool-cases (c.bits_left == 0)) [ inl e ↦ simp e | inr e ↦ simp e ]

-- A byte not begun is 8 bits left.
pub read_bits-refill :
    (n : ℕ) (mem : Memory) (c : Cursor) (acc : ℕ)
    → read_bits (suc n) mem (refill c) acc ≡ read_bits (suc n) mem c acc
read_bits-refill n mem c acc =
    read_bits-suc n mem (refill c) acc
    ∙ ap (after n mem acc) (back_one-refill c)
    ∙ sym (read_bits-suc n mem c acc)

pub read_bits-add :
    (m n : ℕ) (mem : Memory) (c : Cursor) (acc : ℕ)
    → read_bits (m + n) mem c acc
      ≡ read_bits n mem (read_bits m mem c acc).cursor (read_bits m mem c acc).value
unfolding read_bits
read_bits-add zero n mem c acc = let e : 0 + n ≡ n = omega arith in rw e
read_bits-add (suc m) n mem c acc =
    let e : suc m + n ≡ suc (m + n) = omega arith in
    rw e (read_bits-add m n mem (read_1 mem c).cursor _)

-- The top bit of the low `n + 1` bits, and the `n` below it.
split_mod : (q n : ℕ) → q / 2 ^ n % 2 * 2 ^ n + q % 2 ^ n ≡ q % 2 ^ suc n
split_mod q n =
    let m = 2 ^ n in
    let h = q / m in
    let whole : q ≡ m * 2 * (h / 2) + (h % 2 * m + q % m) =
      omega (arith, div-add-mod q m, ap (λ (t : ℕ). m * t) (div-add-mod h 2)) in
    let small : h % 2 * m + q % m < m * 2 =
      omega (arith, mod-lt q (one-le-pow n 2 (omega arith)), mul-le-mul_right m (mod_two-le h)) in
    sym (
      ap (λ t. q % t) (pow-suc 2 n)
      ∙ ap (λ t. t % (m * 2)) whole
      ∙ mul-add-mod_self_left (m * 2) (h / 2) (h % 2 * m + q % m)
      ∙ mod-eq_of_lt small)
  where
    mod_two-le : (h : ℕ) → h % 2 ≤ 1
    mod_two-le h = omega arith

shift_split : (x n rest : ℕ) → x / 2 ^ (n + rest) ≡ x / 2 ^ rest / 2 ^ n
shift_split x n rest =
    let e : 2 ^ (n + rest) ≡ 2 ^ rest * 2 ^ n = omega (arith, pow-add n rest) in
    ap (λ t. x / t) e ∙ sym (div-div-eq-div-mul x (2 ^ rest) (2 ^ n))

-- Up to all bits left in a byte at once.
pub read_bits_chunk :
    (n : ℕ) (mem : Memory) (a rest acc : ℕ)
    → read_bits n mem (at a (n + rest)) acc
      ≡ record { value = acc * 2 ^ n + mem a / 2 ^ rest % 2 ^ n; cursor = at a rest }
read_bits_chunk zero mem a rest acc =
    let e : 0 + rest ≡ rest = omega arith in
    let f : acc * 2 ^ 0 + mem a / 2 ^ rest % 2 ^ 0 ≡ acc = omega arith in
    unfold read_bits in rw (e, f)
read_bits_chunk (suc n) mem a rest acc =
    let e : suc n + rest ≡ suc (n + rest) = omega arith in
    rw e (
      read_1-at n mem a (n + rest) acc
      ∙ read_bits_chunk n mem a rest _
      ∙ ap (λ (v : ℕ). record { value = v; cursor = at a rest })
          (omega (
            arith,
            split_mod (mem a / 2 ^ rest) n,
            ap (λ (t : ℕ). acc * t) (pow-suc 2 n),
            ap (λ (t : ℕ). t % 2 * 2 ^ n) (shift_split (mem a) n rest),
          )))

-- All the bits left in a byte.
pub read_bits_first :
    (n : ℕ) (mem : Memory) (a acc : ℕ)
    → read_bits n mem (at a n) acc ≡ record { value = acc * 2 ^ n + mem a % 2 ^ n; cursor = at a 0 }
read_bits_first n mem a acc =
    let e : n + 0 ≡ n = omega arith in
    let f : mem a / 2 ^ 0 ≡ mem a = omega arith in
    ap (λ k. read_bits n mem (at a k) acc) (sym e)
    ∙ read_bits_chunk n mem a 0 acc
    ∙ ap (λ (x : ℕ). record { value = acc * 2 ^ n + x % 2 ^ n; cursor = at a 0 }) f

-- The top bits of the next byte.
pub read_bits_next :
    (n : ℕ) (mem : Memory) (a acc : ℕ)
    → 0 < n
    → n ≤ 8
    → read_bits n mem (at a 0) acc ≡ record {
      value = acc * 2 ^ n + mem (a - 1) / 2 ^ (8 - n) % 2 ^ n;
      cursor = at (a - 1) (8 - n);
    }
unfolding refill
read_bits_next zero mem a acc pos small = absurd (omega arith)
read_bits_next (suc n) mem a acc pos small =
    let e : 8 ≡ suc n + (8 - suc n) = omega arith in
    sym (read_bits-refill n mem (at a 0) acc)
    ∙ ap (λ k. read_bits (suc n) mem (at (a - 1) k) acc) e
    ∙ read_bits_chunk (suc n) mem (a - 1) (8 - suc n) acc

-- The next `n` bits as a number, high bit first.
abbrev pub bits : ℕ → Memory → Cursor → Read ℕ
bits n mem c = read_bits n mem c 0

back_one-lt : (c : Cursor) → c.bits_left ≤ 8 → (back_one c).bits_left < 8
unfolding back_one
back_one-lt c h = ground arith

-- Behind a read less than a byte is left.
pub read_bits-lt :
    (n : ℕ) (mem : Memory) (c : Cursor) (acc : ℕ)
    → c.bits_left < 8
    → (read_bits n mem c acc).cursor.bits_left < 8
unfolding read_bits
read_bits-lt zero mem c acc h = h
read_bits-lt (suc n) mem c acc h =
    read_bits-lt n mem (read_1 mem c).cursor _
      (rw (read_1-cursor mem c) (back_one-lt c (omega arith)))

-- One bit as a number, and its test.
pub bits-one :
    (mem : Memory) (c : Cursor)
    → ((read_1 mem c).value ≡ ((bits 1 mem c).value == 1))
      × ((read_1 mem c).cursor ≡ (bits 1 mem c).cursor)
unfolding read_bits
bits-one mem c = elim (Bool-cases (read_1 mem c).value) [
  | inl e ↦ (simp e, refl)
  | inr e ↦ (simp e, refl)
]
