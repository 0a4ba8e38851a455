-- ===== src/FreeList/Bitmap/Writes.antt =====
-- What `bit_on` and `bit_off` do to each block's bit.
use cri_archive_lib.Base.{ℕ, zero, suc, ◌+◌, ◌-◌, ◌*◌, ◌/◌, ◌%◌, ◌≤◌, ◌<◌, min}
use cri_archive_lib.Base.{◌≡◌, refl, sym, ◌∙◌, ◌≢◌, ◌⊎◌, inl, inr, arith}
use cri_archive_lib.Base.{true, List, ◌==◌, Bool-cases}
use cri_archive_lib.Base.{length, set, length-set, get_or-set_self, get_or-set_ne}
use mathlib.Core.Path.{subst₂}
use native.Mathlib.Decide.{ℕ_discrete, dec_le, dec_lt}
use cri_archive_lib.Base.Bits.{testbit}
use cri_archive_lib.FreeList.Bitmap.Masks.{
  bounds_hold, bit_mask_u8-eq, Gives, turn_on-Gives, turn_off-Gives,
}
use cri_archive_lib.FreeList.Bitmap.{
  bit_bounds_check, shifted_mask, Painter, turn_on, turn_off, load, block_bit, paint_start,
  paint_bytes, paint_end, paint, bit_on, bit_off,
}

-- The blocks from `a` up to `b` have become `v`, and no other has changed.
pub record IsPainted (v a b : ℕ) (before after : List ℕ) : Type 0 where
  pub same_length : length after ≡ length before
  pub inside : (i : ℕ) → a ≤ i → i < b → block_bit after i ≡ v
  pub outside : (i : ℕ) → (i < a) ⊎ (b ≤ i) → block_bit after i ≡ block_bit before i

IsPainted-none : (v a : ℕ) (used : List ℕ) → IsPainted v a a used used
IsPainted-none v a used = record {
  same_length = refl;
  inside = λ i p q. absurd (omega arith);
  outside = λ i p. refl;
}

IsPainted-cast :
    {v a b a' b' : ℕ} {s t : List ℕ} → a ≡ a' → b ≡ b' → IsPainted v a b s t → IsPainted v a' b' s t
IsPainted-cast {v} {a' = a'} {s = s} {t = t} e f h = subst₂ (λ x y. IsPainted v x y s t) e f h

IsPainted-append :
    (v a b c : ℕ) (s t u : List ℕ)
    → a ≤ b
    → b ≤ c
    → IsPainted v a b s t
    → IsPainted v b c t u
    → IsPainted v a c s u
IsPainted-append v a b c s t u ab bc h k = record {
  same_length = k.same_length ∙ h.same_length;
  inside = λ i p q. ground (arith, h.inside i, k.inside i, k.outside i);
  outside = λ i p. ground (arith, h.outside i, k.outside i);
}

-- A write to one byte is seen in that byte's blocks only.
block_bit-set_self :
    (used : List ℕ) (k v i : ℕ)
    → k < length used
    → i / 8 ≡ k
    → block_bit (set used k v) i ≡ testbit v (i % 8)
unfolding block_bit
block_bit-set_self used k v i h e = rw (e, get_or-set_self used k v 0 h)

block_bit-set_ne :
    (used : List ℕ) (k v i : ℕ) → i / 8 ≢ k → block_bit (set used k v) i ≡ block_bit used i
unfolding block_bit
block_bit-set_ne used k v i ne = rw (get_or-set_ne used k (i / 8) v 0 (λ e. ne (sym e)))

block_bit-at :
    (used : List ℕ) (k i : ℕ) → i / 8 ≡ k → testbit (load used k) (i % 8) ≡ block_bit used i
unfolding block_bit
block_bit-at used k i e = rw e

module _ (p : Painter) (v : ℕ) (g : Gives p v) where
  -- One byte under a mask.
  masked-IsPainted :
      (used : List ℕ) (k d b : ℕ)
      → k < length used
      → d + b ≤ 8
      → IsPainted v
          (8 * k + b)
          (8 * k + b + d)
          used
          (set used k (p.masked (load used k) (shifted_mask d b)))
  masked-IsPainted used k d b h e = record {
    same_length = length-set used k _;
    inside = λ i l m.
        block_bit-set_self used k _ i h (omega arith)
        ∙ g.hit (load used k) d b (i % 8) e (omega arith) (omega arith) (omega arith);
    outside = λ i l. elim (ℕ_discrete (i / 8) k) [
      | yes same ↦
          block_bit-set_self used k _ i h same
          ∙ g.miss (load used k) d b (i % 8) e (omega arith) (omega arith)
          ∙ block_bit-at used k i same
      | no other ↦ block_bit-set_ne used k _ i other
    ];
  }

  whole-IsPainted :
      (used : List ℕ) (k : ℕ)
      → k < length used
      → IsPainted v (8 * k) (8 * k + 8) used (set used k p.whole)
  whole-IsPainted used k h = record {
    same_length = length-set used k _;
    inside = λ i l m. block_bit-set_self used k _ i h (omega arith) ∙ g.full (i % 8) (omega arith);
    outside = λ i l. block_bit-set_ne used k _ i (omega arith);
  }

  paint_bytes-IsPainted :
      (n k : ℕ) (used : List ℕ)
      → k + n ≤ length used
      → IsPainted v (8 * k) (8 * (k + n)) used (paint_bytes p n k used)
  unfolding paint_bytes
  paint_bytes-IsPainted zero k used h =
      let e : k + 0 ≡ k = omega arith in rw e (IsPainted-none v (8 * k) used)
  paint_bytes-IsPainted (suc n) k used h =
      IsPainted-append v (8 * k) (8 * k + 8) (8 * (k + suc n)) used (set used k p.whole) _
        (omega arith) (omega arith) (whole-IsPainted used k (omega arith))
        (let e : 8 * (k + 1 + n) ≡ 8 * (k + suc n) = omega arith in
          let f : 8 * (k + 1) ≡ 8 * k + 8 = omega arith in
          rw e at (
            rw f at (
              paint_bytes-IsPainted n (k + 1) (set used k p.whole)
                (omega (arith, length-set used k p.whole)))))

  paint_end-IsPainted :
      (bit k : ℕ) (used : List ℕ)
      → bit < 8
      → (bit ≢ 0 → k < length used)
      → IsPainted v (8 * k) (8 * k + bit) used (paint_end p bit k used)
  unfolding paint_end
  paint_end-IsPainted bit k used small room = elim (Bool-cases (bit == 0)) [
    | inl none_left ↦
        rw none_left (IsPainted-cast refl (ground arith) (IsPainted-none v (8 * k) used))
    | inr some_left ↦
        rw (some_left, bit_mask_u8-eq bit (omega arith))
          (IsPainted-cast (omega arith) (omega arith)
            (masked-IsPainted used k bit 0 (room (ground arith)) (omega arith)))
  ]

  -- What is left of a run from a byte's first block on.
  paint_rest-IsPainted :
      (used : List ℕ) (byte len : ℕ)
      → 8 * byte + len ≤ 8 * length used
      → IsPainted v
          (8 * byte)
          (8 * byte + len)
          used
          (paint_end p (len % 8) (byte + len / 8) (paint_bytes p (len / 8) byte used))
  paint_rest-IsPainted used byte len h =
      let bytes = paint_bytes-IsPainted (len / 8) byte used (omega arith) in
      IsPainted-append v (8 * byte) (8 * (byte + len / 8)) (8 * byte + len) used _ _ (omega arith)
        (omega arith) bytes
        (IsPainted-cast refl (omega arith) (
          paint_end-IsPainted (len % 8) (byte + len / 8) _ (omega arith)
            (λ ne. omega (arith, bytes.same_length))))

  paint_rest-empty :
      (used : List ℕ) (byte len : ℕ)
      → len ≡ 0
      → paint_end p (len % 8) (byte + len / 8) (paint_bytes p (len / 8) byte used) ≡ used
  unfolding paint_end paint_bytes
  paint_rest-empty used byte len e = rw e

  masked_part :
      (used : List ℕ) (start len diff : ℕ)
      → start / 8 < length used
      → diff + start % 8 ≤ 8
      → IsPainted v start
          (start + diff)
          used
          (set used (start / 8) (p.masked (load used (start / 8)) (shifted_mask diff (start % 8))))
  masked_part used start len diff room h =
      IsPainted-cast (omega arith) (omega arith)
        (masked-IsPainted used (start / 8) diff (start % 8) room h)

  -- A run within 32 bytes is painted, and nothing else.
  pub paint-IsPainted :
      (used : List ℕ) (start len : ℕ)
      → 0 < len
      → start + len ≤ 8 * length used
      → IsPainted v start (start + len) used (paint p used start len)
  unfolding paint paint_start
  paint-IsPainted used start len pos h = elim (Bool-cases (start % 8 == 0)) [
    | inl aligned ↦ rw aligned (
        IsPainted-cast (ground arith) (ground arith)
          (paint_rest-IsPainted used (start / 8) len (ground arith)))
    | inr inside ↦
        let diff = min len (8 - start % 8) in
        let first = masked_part used start len diff (omega arith) (omega arith) in
        rw inside (elim (dec_le len (8 - start % 8)) [
          | yes short ↦
              rw (paint_rest-empty _ (start / 8 + 1) (len - diff) (omega arith))
                (IsPainted-cast refl (omega arith) first)
          | no long ↦
              IsPainted-append v start (start + diff) (start + len) used _ _ (omega arith)
                (omega arith) first
                (IsPainted-cast (omega arith) (omega arith) (
                  paint_rest-IsPainted _ (start / 8 + 1) (len - diff)
                    (omega (arith, first.same_length))))
        ])
  ]

empty_run : (start len : ℕ) → len ≡ 0 → bit_bounds_check start len ≡ true
unfolding bit_bounds_check
empty_run start len e = ground arith

-- On a bitmap of 32 bytes, for a run within the first 255 blocks, `bit_on` takes the blocks of the
-- run and leaves every other block as it was.
pub bit_on-IsPainted :
    (used : List ℕ) (start len : ℕ)
    → length used ≡ 32
    → start + len ≤ 255
    → IsPainted 1 start (start + len) used (bit_on used start len)
unfolding bit_on
bit_on-IsPainted used start len size h = elim (dec_lt 0 len) [
  | yes pos ↦
      rw (bounds_hold start len pos h)
        (paint-IsPainted turn_on 1 turn_on-Gives used start len pos (omega arith))
  | no empty ↦
      rw (empty_run start len (omega arith))
        (IsPainted-cast refl (omega arith) (IsPainted-none 1 start used))
]

-- On a bitmap of 32 bytes, for a run within the first 255 blocks, `bit_off` frees the blocks of
-- the run and leaves every other block as it was.
pub bit_off-IsPainted :
    (used : List ℕ) (start len : ℕ)
    → length used ≡ 32
    → start + len ≤ 255
    → IsPainted 0 start (start + len) used (bit_off used start len)
unfolding bit_off
bit_off-IsPainted used start len size h = elim (dec_lt 0 len) [
  | yes pos ↦
      rw (bounds_hold start len pos h)
        (paint-IsPainted turn_off 0 turn_off-Gives used start len pos (omega arith))
  | no empty ↦
      rw (empty_run start len (omega arith))
        (IsPainted-cast refl (omega arith) (IsPainted-none 0 start used))
]
