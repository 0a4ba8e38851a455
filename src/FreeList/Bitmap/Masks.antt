-- ===== src/FreeList/Bitmap/Masks.antt =====
-- The bits of the masks of free_list.rs, and what a masked update does to a byte.
use cri_archive_lib.Base.{ℕ, ◌+◌, ◌-◌, ◌≤◌, ◌<◌, ◌≡◌, refl, ◌⊎◌, arith}
use cri_archive_lib.Base.{Bool, true, false, ◌&&◌, ◌||◌, ltb, leb, ◌==◌, ==_iff, if◌then◌else◌}
use cri_archive_lib.Base.Table.{all_below, all_below_sound}
use cri_archive_lib.Base.Bits.{testbit, testbit-or, testbit-and, testbit-lt, testbit-zero}
use cri_archive_lib.FreeList.Bitmap.{
  bit_mask_u8, shifted_mask, bit_bounds_check, Painter, turn_on, turn_off,
}

-- The bits of `bit_mask_u8(diff) << bit`: those from `bit` up to `bit + diff`.
mask_agrees : ℕ → ℕ → ℕ → Bool
unfolding shifted_mask bit_mask_u8 testbit
mask_agrees d b j =
    ltb 8 (d + b) || (testbit (shifted_mask d b) j == (if leb b j && ltb j (b + d) then 1 else 0))

mask_table : all_below 9 (λ d. all_below 9 (λ b. all_below 8 (λ j. mask_agrees d b j))) ≡ true
unfolding all_below mask_agrees
mask_table = refl

pub testbit-shifted_mask :
    (d b j : ℕ)
    → d + b ≤ 8
    → j < 8
    → testbit (shifted_mask d b) j ≡ (if leb b j && ltb j (b + d) then 1 else 0)
unfolding mask_agrees
testbit-shifted_mask d b j h k = ground (arith, agrees)
  where
    agrees : mask_agrees d b j ≡ true
    agrees =
        all_below_sound 8 (λ j. mask_agrees d b j) j
          (all_below_sound 9 (λ b. all_below 8 (λ j. mask_agrees d b j)) b
            (all_below_sound 9 _ d mask_table (omega arith)) (omega arith))
          k

mask_u8_table : all_below 9 (λ b. bit_mask_u8 b == shifted_mask b 0) ≡ true
unfolding all_below bit_mask_u8 shifted_mask
mask_u8_table = refl

pub bit_mask_u8-eq : (b : ℕ) → b < 9 → bit_mask_u8 b ≡ shifted_mask b 0
bit_mask_u8-eq b h = (==_iff _ _).0 (all_below_sound 9 _ b mask_u8_table h)

full_table : all_below 8 (λ j. testbit 0xff j == 1) ≡ true
unfolding all_below testbit
full_table = refl

-- The bits of `255 - x` are those of `x` turned round.
complement_table :
    all_below 256 (λ x. all_below 8 (λ j. testbit (255 - x) j == 1 - testbit x j)) ≡ true
unfolding all_below testbit
complement_table = refl

testbit-complement : (x j : ℕ) → x < 256 → j < 8 → testbit (255 - x) j ≡ 1 - testbit x j
testbit-complement x j h k =
    (==_iff _ _).0 (all_below_sound 8 _ j (all_below_sound 256 _ x complement_table h) k)

pub shifted_mask-lt : (d b : ℕ) → shifted_mask d b < 256
unfolding shifted_mask
shifted_mask-lt d b = omega arith

-- A painter gives the masked bits of a byte the value `v`, and a whole byte too.
pub record Gives (p : Painter) (v : ℕ) : Type 0 where
  pub hit :
      (x d b j : ℕ)
      → d + b ≤ 8
      → j < 8
      → b ≤ j
      → j < b + d
      → testbit (p.masked x (shifted_mask d b)) j ≡ v
  pub miss :
      (x d b j : ℕ)
      → d + b ≤ 8
      → j < 8
      → (j < b) ⊎ (b + d ≤ j)
      → testbit (p.masked x (shifted_mask d b)) j ≡ testbit x j
  pub full : (j : ℕ) → j < 8 → testbit p.whole j ≡ v

pub turn_on-Gives : Gives turn_on 1
turn_on-Gives = record {
  hit = λ x d b j h k l m.
      ground
        (arith, testbit-or x (shifted_mask d b) j, testbit-shifted_mask d b j h k, testbit-lt x j);
  miss = λ x d b j h k l.
      ground
        (arith, testbit-or x (shifted_mask d b) j, testbit-shifted_mask d b j h k, testbit-lt x j);
  full = λ j k. (==_iff _ _).0 (all_below_sound 8 _ j full_table k);
}

pub turn_off-Gives : Gives turn_off 0
turn_off-Gives = record {
  hit = λ x d b j h k l m. ground (
    arith,
    testbit-and x (255 - shifted_mask d b) j,
    testbit-complement (shifted_mask d b) j (shifted_mask-lt d b) k,
    testbit-shifted_mask d b j h k,
    testbit-lt x j,
  );
  miss = λ x d b j h k l. ground (
    arith,
    testbit-and x (255 - shifted_mask d b) j,
    testbit-complement (shifted_mask d b) j (shifted_mask-lt d b) k,
    testbit-shifted_mask d b j h k,
    testbit-lt x j,
  );
  full = λ j k. testbit-zero j;
}

pub bounds_hold : (start len : ℕ) → 0 < len → start + len ≤ 255 → bit_bounds_check start len ≡ false
unfolding bit_bounds_check
bounds_hold start len pos h = ground arith
