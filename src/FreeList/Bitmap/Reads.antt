-- ===== src/FreeList/Bitmap/Reads.antt =====
-- `check_occupation` answers 0 exactly when the blocks it looks at are free.
use cri_archive_lib.Base.{ℕ, zero, suc, ◌+◌, ◌-◌, ◌*◌, ◌/◌, ◌%◌, ◌^◌, ◌≤◌, ◌<◌, min}
use cri_archive_lib.Base.{bit_and, bit_or, ◌≡◌, refl, ◌≢◌, ◌↔◌, ◌⊎◌, inl, inr, arith}
use cri_archive_lib.Base.{false, List, ◌==◌, Bool-cases}
use mathlib.Core.Path.{subst₂}
use native.Mathlib.Decide.{dec_le}
use cri_archive_lib.Base.Bits.{bit_or-lt, bit_and-le}
use cri_archive_lib.FreeList.Bitmap.{
  usize, bit_bounds_check, shifted_mask, bit_bounds_check, load, shl64, read_bytes, read_end,
  read_run, check_occupation,
}
use cri_archive_lib.FreeList.Bitmap.Zero.{
  IsFree, IsBytes, bit_or-eq-zero, masked-eq-zero, byte-eq-zero, shl64-lt, shl64-eq-zero,
  lt-two_pow,
}
use cri_archive_lib.FreeList.Bitmap.Masks.{bounds_hold, bit_mask_u8-eq}

-- The value so far has at most `m` bits; `cap` bits hold the final one.
record IsRead (used : List ℕ) (a b cap before after : ℕ) : Type 0 where
  small : after < 2 ^ cap
  zero_iff : (after ≡ 0) ↔ ((before ≡ 0) × IsFree used a b)

IsFree-append : (used : List ℕ) (a b c : ℕ) → IsFree used a b → IsFree used b c → IsFree used a c
IsFree-append used a b c f g i p q = ground (arith, f i, g i)

IsRead-append :
    (used : List ℕ) (a b c m n x y z : ℕ)
    → a ≤ b
    → b ≤ c
    → IsRead used a b m x y
    → IsRead used b c n y z
    → IsRead used a c n x z
IsRead-append used a b c m n x y z ab bc f g = record {
  small = g.small;
  zero_iff = (
    λ e.
        let (p, right) = g.zero_iff.0 e in
        let (q, left) = f.zero_iff.0 p in (q, IsFree-append used a b c left right),
    λ (e, free).
        g.zero_iff.1
          (f.zero_iff.1 (e, λ i p q. free i p (omega arith)), λ i p q. free i (omega arith) q),
  );
}

IsRead-none : (used : List ℕ) (a m x : ℕ) → x < 2 ^ m → IsRead used a a m x x
IsRead-none used a m x h = record {
  small = h;
  zero_iff = (λ e. (e, λ i p q. absurd (omega arith)), λ (e, free). e);
}

-- One shift by `d` and an `|` with something that is 0 when a stretch is free.
shift_in-IsRead :
    (used : List ℕ) (a b m d cap res piece : ℕ)
    → res < 2 ^ m
    → m + d ≤ cap
    → cap ≤ 64
    → piece < 2 ^ cap
    → ((piece ≡ 0) ↔ IsFree used a b)
    → IsRead used a b cap res (bit_or (shl64 res d) piece)
shift_in-IsRead used a b m d cap res piece h k l fits iff = record {
  small =
      bit_or-lt cap (shl64 res d) piece
        (lt-two_pow (m + d) cap (shl64-lt m d res h (omega arith)) k) fits;
  zero_iff =
      let or = bit_or-eq-zero (shl64 res d) piece in
      let shift = shl64-eq-zero m d res h (omega arith) in
      (λ e. (shift.0 (or.0 e).0, iff.0 (or.0 e).1), λ (e, free). or.1 (shift.1 e, iff.1 free));
}

read_bytes-IsRead :
    (used : List ℕ) (n k m d cap res : ℕ)
    → IsBytes used
    → res < 2 ^ m
    → m ≤ cap
    → cap ≤ 64
    → m + d + 8 * n ≤ cap + 8
    → (n ≢ 0 → 8 ≤ m + d)
    → IsRead used (8 * k) (8 * (k + n)) cap res (read_bytes used n k d res)
unfolding read_bytes
read_bytes-IsRead used zero k m d cap res bytes h mc cap64 room eight =
    let e : k + 0 ≡ k = omega arith in
    rw e (IsRead-none used (8 * k) cap res (lt-two_pow m cap h mc))
read_bytes-IsRead used (suc n) k m d cap res bytes h mc cap64 room eight =
    let md : 8 ≤ m + d = eight (omega arith) in
    let first =
      shift_in-IsRead used (8 * k) (8 * k + 8) m d (m + d) res (load used k) h (omega arith)
        (omega arith) (lt-two_pow 8 (m + d) (bytes k) md) (byte-eq-zero used k (bytes k)) in
    let rest =
      read_bytes-IsRead used n (k + 1) (m + d) 8 cap _ bytes first.small (omega arith) cap64
        (omega arith) (λ ne. omega arith) in
    let e : 8 * (k + 1 + n) ≡ 8 * (k + suc n) = omega arith in
    let f : 8 * (k + 1) ≡ 8 * k + 8 = omega arith in
    IsRead-append used (8 * k) (8 * k + 8) (8 * (k + suc n)) (m + d) cap res _ _ (omega arith)
      (omega arith) first (rw e at (rw f at rest))

IsRead-cast :
    {used : List ℕ} {a b a' b' cap x y : ℕ}
    → a ≡ a'
    → b ≡ b'
    → IsRead used a b cap x y
    → IsRead used a' b' cap x y
IsRead-cast {used} {cap = cap} {x = x} {y = y} e f h = subst₂ (λ p q. IsRead used p q cap x y) e f h

masked-lt :
    (used : List ℕ) (k mask cap : ℕ) → IsBytes used → 8 ≤ cap → bit_and (load used k) mask < 2 ^ cap
masked-lt used k mask cap bytes h =
    lt-two_pow 8 cap (omega (arith, bit_and-le 8 (load used k) mask (bytes k), bytes k)) h

read_end-IsRead :
    (used : List ℕ) (bit k m res : ℕ)
    → IsBytes used
    → bit < 8
    → res < 2 ^ m
    → m + bit ≤ 64
    → IsRead used (8 * k) (8 * k + bit) 64 res (read_end used bit k res)
unfolding read_end
read_end-IsRead used bit k m res bytes small h room = elim (Bool-cases (bit == 0)) [
  | inl none_left ↦ rw none_left (
      IsRead-cast refl (ground arith)
        (IsRead-none used (8 * k) 64 res (lt-two_pow m 64 h (omega arith))))
  | inr some_left ↦
      rw (some_left, bit_mask_u8-eq bit (omega arith))
        (shift_in-IsRead used (8 * k) (8 * k + bit) m bit 64 res _ h room (omega arith)
          (masked-lt used k (shifted_mask bit 0) 64 bytes (omega arith))
          (subst₂ (λ p q. (bit_and (load used k) (shifted_mask bit 0) ≡ 0) ↔ IsFree used p q)
            (omega arith) (omega arith) (masked-eq-zero used k bit 0 (omega arith))))
]

-- Whole bytes and the last bits, from a byte's first block on.
tail-IsRead :
    (used : List ℕ) (k len m d res : ℕ)
    → IsBytes used
    → res < 2 ^ m
    → m + len % 8 ≤ 64
    → m + d + len ≤ 72
    → (len / 8 ≢ 0 → 8 ≤ m + d)
    → d ≤ 8
    → IsRead used
        (8 * k)
        (8 * k + len)
        64
        res
        (read_end used (len % 8) (k + len / 8) (read_bytes used (len / 8) k d res))
tail-IsRead used k len m d res bytes h low room eight small =
    let cap = 64 - len % 8 in
    let whole =
      read_bytes-IsRead used (len / 8) k m d cap res bytes h (omega arith) (omega arith)
        (omega arith) eight in
    IsRead-append used (8 * k) (8 * (k + len / 8)) (8 * k + len) cap 64 res _ _ (omega arith)
      (omega arith) whole
      (IsRead-cast refl (omega arith) (
        read_end-IsRead used (len % 8) (k + len / 8) cap _ bytes (omega arith) whole.small
          (omega arith)))

read_rest-empty :
    (used : List ℕ) (k len d res : ℕ)
    → len ≡ 0
    → read_end used (len % 8) (k + len / 8) (read_bytes used (len / 8) k d res) ≡ res
unfolding read_end read_bytes
read_rest-empty used k len d res e = rw e

zero_start : {used : List ℕ} {a b cap y : ℕ} → IsRead used a b cap 0 y → (y ≡ 0) ↔ IsFree used a b
zero_start h = (λ e. (h.zero_iff.0 e).1, λ free. h.zero_iff.1 (refl, free))

-- The bits of a run in the byte that it starts inside of.
first_bits-IsRead :
    (used : List ℕ) (start diff : ℕ)
    → IsBytes used
    → diff + start % 8 ≤ 8
    → IsRead used start
        (start + diff)
        8
        0
        (bit_and (load used (start / 8)) (shifted_mask diff (start % 8)))
first_bits-IsRead used start diff bytes h = record {
  small = masked-lt used (start / 8) (shifted_mask diff (start % 8)) 8 bytes (omega arith);
  zero_iff =
      let iff =
        subst₂
          (λ p q.
            (bit_and (load used (start / 8)) (shifted_mask diff (start % 8)) ≡ 0) ↔ IsFree used p q)
          (omega arith) (omega arith) (masked-eq-zero used (start / 8) diff (start % 8) h) in
      (λ e. (refl, iff.0 e), λ (e, free). iff.1 free);
}

read_run-IsFree :
    (used : List ℕ) (start len : ℕ)
    → IsBytes used
    → len ≤ 64
    → (read_run used start len ≡ 0) ↔ IsFree used start (start + len)
unfolding read_run
read_run-IsFree used start len bytes h = elim (Bool-cases (start % 8 == 0)) [
  | inl aligned ↦ rw aligned (
      zero_start (
        IsRead-cast (ground arith) (ground arith) (
          tail-IsRead used (start / 8) len 0 (min len (8 - start % 8)) 0 bytes (omega arith)
            (omega arith) (omega arith) (λ ne. ground arith) (omega arith))))
  | inr inside ↦
      let diff = min len (8 - start % 8) in
      let first = first_bits-IsRead used start diff bytes (omega arith) in
      rw inside (elim (dec_le len (8 - start % 8)) [
        | yes short ↦
            rw (read_rest-empty used (start / 8 + 1) (len - diff) diff _ (omega arith))
              (zero_start (IsRead-cast refl (omega arith) first))
        | no long ↦ zero_start (
            IsRead-append used start (start + diff) (start + len) 8 64 0 _ _ (omega arith)
              (omega arith) first
              (IsRead-cast (omega arith) (omega arith) (
                tail-IsRead used (start / 8 + 1) (len - diff) 8 diff _ bytes first.small
                  (omega arith) (omega arith) (λ ne. omega arith) (omega arith))))
      ])
]

-- For a run that is not empty and lies within the first 255 blocks of a bitmap of bytes,
-- `check_occupation` answers 0 exactly when each of the first 64 blocks of the run is free.
pub check_occupation-IsFree :
    (used : List ℕ) (start len : ℕ)
    → IsBytes used
    → 0 < len
    → start + len ≤ 255
    → (check_occupation used start len ≡ 0) ↔ IsFree used start (start + min len 64)
unfolding check_occupation
check_occupation-IsFree used start len bytes pos h =
    let inside : bit_bounds_check start len ≡ false = bounds_hold start len pos h in
    rw inside (read_run-IsFree used start (min len 64) bytes (omega arith))

-- Past the bitmap, and for an empty run, the test is not made.
pub check_occupation_outside :
    (used : List ℕ) (start len : ℕ)
    → (len ≡ 0) ⊎ (255 < usize (start + len))
    → check_occupation used start len ≡ 0
unfolding check_occupation bit_bounds_check
check_occupation_outside used start len h = ground arith
