-- ===== src/Writer/Align.antt =====
-- `validate_alignment` and the two functions `align_up`, of the writer and of the reader.
use native.Mathlib.Nat.{
  mul-suc, one-le-pow, div-add-mod, mod-lt, mod-eq_of_lt, mul-add-mod_self_left,
}
use cri_archive_lib.Base.{
  ℕ, zero, suc, ◌+◌, ◌-◌, ◌*◌, ◌/◌, ◌%◌, ◌^◌, ◌<◌, ◌≡◌, refl, ◌∙◌, ap, arith,
}
use cri_archive_lib.Base.{
  Bool, true, false, ◌||◌, not, ◌==◌, ==_iff, ltb, if◌then◌else◌, Bool-cases, inl, inr,
}
use cri_archive_lib.Base.{bit_and, Result, ok, err, ok_or, checked_add, ◌>>=◌}
use cri_archive_lib.Base.Joins.{bit_and-clear}
use cri_archive_lib.Writer.{CpkWriterError, invalid_alignment, arithmetic_overflow}

-- One of the first `n` powers of two.
abbrev pub is_power_below : ℕ → ℕ → Bool
is_power_below zero v = false
is_power_below (suc n) v = v == 2 ^ n || is_power_below n v

-- `u32::is_power_of_two`
abbrev pub is_power_of_two : ℕ → Bool
is_power_of_two = is_power_below 32

-- The source takes a `u16` and goes on with it as a `u32`.
unfoldable pub validate_alignment : ℕ → Result CpkWriterError (Unit {0})
validate_alignment alignment =
    if alignment == 0 || not (is_power_of_two alignment)
    then err (invalid_alignment alignment)
    else ok tt

-- `!mask` of 64 bits.
abbrev pub not64 : ℕ → ℕ
not64 mask = 2 ^ 64 - 1 - mask

unfoldable pub align_up : ℕ → ℕ → Result CpkWriterError ℕ
align_up value alignment =
    let mask = alignment - 1 in
    ok_or (checked_add value mask) arithmetic_overflow >>= λ rounded.
    ok (bit_and rounded (not64 mask))

-- The least multiple that is not below `value`, with a remainder in place of a mask.
abbrev pub round : ℕ → ℕ → ℕ
round alignment value =
    if value % alignment == 0 then value else value + (alignment - value % alignment)

power_below : (n v : ℕ) → is_power_below n v ≡ true → (k : ℕ) × (k < n) × (v ≡ 2 ^ k)
power_below zero v h = cc
power_below (suc n) v h = elim (Bool-cases (v == 2 ^ n)) [
  | inl e ↦ (n, omega arith, (==_iff _ _).0 e)
  | inr e ↦ let r = power_below n v (rw e at h) in (r.0, omega (arith, r.1), r.2)
]

pub validate_alignment-power :
    (alignment : ℕ)
    → validate_alignment alignment ≡ ok tt
    → (k : ℕ) × (k < 32) × (alignment ≡ 2 ^ k)
unfolding validate_alignment
validate_alignment-power alignment h =
    power_below 32 alignment (accepted (alignment == 0) (is_power_of_two alignment) h)
  where
    passed : Result CpkWriterError (Unit {0})
    passed = ok tt

    accepted :
        (z p : Bool)
        → (if z || not p then err (invalid_alignment alignment) else passed) ≡ passed
        → p ≡ true
    accepted true p h = cc
    accepted false true h = refl
    accepted false false h = cc

-- The rounding by a sum and a remainder.
round_sum : (a v : ℕ) → 0 < a → (v + (a - 1)) - (v + (a - 1)) % a ≡ round a v
round_sum a v pos =
    let d = div-add-mod v a in
    let r = mod-lt v pos in
    elim (Bool-cases (v % a == 0)) [
      | inl e ↦
          let z : v % a ≡ 0 = ground arith in
          let split : v + (a - 1) ≡ a * (v / a) + (a - 1) = omega arith in
          let m =
            ap (λ t. t % a) split
            ∙ mul-add-mod_self_left a (v / a) (a - 1)
            ∙ mod-eq_of_lt (omega arith) in
          rw e (omega (arith, m))
      | inr e ↦
          let nz : 0 < v % a = ground arith in
          let q : a * (suc (v / a)) ≡ a * (v / a) + a = mul-suc a (v / a) in
          let split : v + (a - 1) ≡ a * (suc (v / a)) + (v % a - 1) = omega (arith, q) in
          let m =
            ap (λ t. t % a) split
            ∙ mul-add-mod_self_left a (suc (v / a)) (v % a - 1)
            ∙ mod-eq_of_lt (omega arith) in
          rw e (omega (arith, m))
    ]

-- At a power of two below 2 ^ 32, `align_up` of the writer gives the least multiple that is not
-- below the value, where the sum with the mask fits in 64 bits, and the error of an overflow where
-- it does not.
pub align_up-round :
    (k value : ℕ)
    → k < 32
    → align_up value (2 ^ k) ≡ (
        if ltb (value + (2 ^ k - 1)) (2 ^ 64)
        then ok (round (2 ^ k) value)
        else err arithmetic_overflow)
unfolding align_up
align_up-round k value h = elim (Bool-cases (ltb (value + (2 ^ k - 1)) (2 ^ 64))) [
  | inl e ↦
      let pos = one-le-pow k 2 (omega arith) in
      rw e (
        ap (λ n. ok n)
          (bit_and-clear 64 k (value + (2 ^ k - 1)) (omega arith) (ground arith)
            ∙ round_sum (2 ^ k) value pos))
  | inr e ↦ rw e refl
]
