-- ===== src/Layla/Cursor/Reads.antt =====
-- `read_8`, `read_2` and `read_max_8` give the bits and the cursor of reads bit by bit.
use native.Mathlib.Decide.{dec_le}
use cri_archive_lib.Base.{
  ℕ, zero, suc, ◌+◌, ◌-◌, ◌*◌, ◌/◌, ◌%◌, ◌^◌, ◌≤◌, ◌<◌, ◌≡◌, sym, ◌∙◌, ap, min,
}
use cri_archive_lib.Base.{arith, true, false, ◌==◌, leb}
use cri_archive_lib.Base.{bit_and, bit_or}
use cri_archive_lib.Base.Bits.{bit_and-mask}
use cri_archive_lib.Layla.Cursor.{
  Cursor, at, Memory, u8, bit_mask, refill, peek, read_8, read_2, read_rounds, read_max_8,
}
use cri_archive_lib.Layla.Cursor.Thirteen.{
  and_bit_mask, join_bits, mod-lt_pow, peek-eq, first_then, read_next, refill_bounds,
}
use cri_archive_lib.Layla.Cursor.Single.{
  read_bits, read_bits-refill, read_bits_chunk, read_bits_next,
}

-- Within one byte.
peek_chunk :
    (mem : Memory) (a left n : ℕ)
    → n ≤ left
    → left ≤ 8
    → read_bits n mem (at a left) 0
      ≡ record { value = peek mem (at a left) n; cursor = at a (left - n) }
peek_chunk mem a left n h small =
    let e : left ≡ n + (left - n) = omega arith in
    ap (λ k. read_bits n mem (at a k) 0) e
    ∙ read_bits_chunk n mem a (left - n) 0
    ∙ ap (λ (v : ℕ). record { value = v; cursor = at a (left - n) })
        (omega (arith, peek-eq mem a left n (omega arith)))

read_8_whole :
    (mem : Memory) (a : ℕ) → mem (a - 1) < 256 → read_8 mem (at a 0) ≡ read_bits 8 mem (at a 0) 0
unfolding read_8
read_8_whole mem a byte = sym (
    read_bits_next 8 mem a 0 (omega arith) (omega arith)
    ∙ ap (λ (v : ℕ). record { value = v; cursor = at (a - 1) 0 }) (omega arith))

read_8_parts :
    (mem : Memory) (a left : ℕ)
    → 0 < left
    → left < 8
    → read_8 mem (at a left) ≡ read_bits 8 mem (at a left) 0
unfolding read_8 peek
read_8_parts mem a left lo hi =
    let n = 8 - left in
    let e : 8 ≡ left + n = omega arith in
    let t : (left == 0) ≡ false = ground arith in
    let same : 8 - n ≡ left = omega arith in
    let first = and_bit_mask (mem a) left (omega arith) in
    rw (t, first)
      (ap
          (λ (k : ℕ). record {
            value =
                bit_or (mem a % 2 ^ left * 2 ^ n % 2 ^ 8)
                  (bit_and (mem (a - 1) / 2 ^ (8 - n)) (bit_mask n));
            cursor = at (a - 1) k;
          })
          (sym same)
        ∙ sym (
            ap (λ k. read_bits k mem (at a left) 0) e
            ∙ first_then mem a left n
            ∙ read_next 8 left n mem a (mem a % 2 ^ left) (mod-lt_pow (mem a) left) (omega arith)
                (omega arith) (omega arith)))

-- On a memory of bytes and with less than a byte left over, `read_8` gives the bits and the cursor
-- of eight reads of one bit: a whole byte, or the parts of two.
pub read_8-bits :
    (mem : Memory) (c : Cursor)
    → c.bits_left < 8
    → ((a : ℕ) → mem a < 256)
    → read_8 mem c ≡ read_bits 8 mem c 0
read_8-bits mem c h bytes = at_left mem c.cdata c.bits_left h bytes
  where
    at_left :
        (mem : Memory) (a left : ℕ)
        → left < 8
        → ((a : ℕ) → mem a < 256)
        → read_8 mem (at a left) ≡ read_bits 8 mem (at a left) 0
    at_left mem a zero h bytes = read_8_whole mem a (bytes (a - 1))
    at_left mem a (suc k) h bytes = read_8_parts mem a (suc k) (omega arith) h

-- The first round, from an empty result.
start_value :
    (mem : Memory) (a left : ℕ)
    → left ≤ 8
    → bit_or (u8 (0 * 2 ^ left)) (peek mem (at a left) left) ≡ mem a % 2 ^ left
start_value mem a left hi =
    let none_left : mem a / 2 ^ (left - left) ≡ mem a =
      let e : left - left ≡ 0 = omega arith in rw e (omega arith) in
    let value = peek-eq mem a left left (omega arith) ∙ ap (λ t. t % 2 ^ left) none_left in
    ap (bit_or (u8 (0 * 2 ^ left))) value
    ∙ join_bits 8 0 left 0 (mem a % 2 ^ left) (omega arith) (mod-lt_pow (mem a) left) (omega arith)
    ∙ omega arith

read_max_8_filled :
    (mem : Memory) (a left bits : ℕ)
    → 0 < left
    → left ≤ 8
    → 0 < bits
    → bits ≤ 8
    → read_rounds 2 mem (at a left) bits 0 ≡ read_bits bits mem (at a left) 0
unfolding read_rounds
read_max_8_filled mem a left bits lo hi pos few = elim (dec_le bits left) [
  | yes one ↦
      let round : min bits left ≡ bits = omega arith in
      let done : (bits - bits == 0) ≡ true = ground arith in
      let start =
        join_bits 8 0 bits 0 (peek mem (at a left) bits) (omega arith)
          (rw (peek-eq mem a left bits (omega arith)) (mod-lt_pow _ bits)) (omega arith) in
      rw (round, done, start)
        (sym (
          peek_chunk mem a left bits one hi
          ∙ ap (λ (v : ℕ). record { value = v; cursor = at a (left - bits) }) (omega arith)))
  | no two ↦
      let n = bits - left in
      let e : bits ≡ left + n = omega arith in
      let round : min bits left ≡ left = omega arith in
      let more : (n == 0) ≡ false = ground arith in
      let round' : min n 8 ≡ n = omega arith in
      let done : (n - n == 0) ≡ true = ground arith in
      rw (round, more, round', done, start_value mem a left hi)
        (sym (
          ap (λ k. read_bits k mem (at a left) 0) e
          ∙ first_then mem a left n
          ∙ read_next 8 left n mem a (mem a % 2 ^ left) (mod-lt_pow (mem a) left) (omega arith)
              (omega arith) (omega arith)))
]

-- With less than a byte left over, `read_max_8` gives the bits and the cursor of as many reads of
-- one bit as it is asked for, from one to eight.
pub read_max_8-bits :
    (mem : Memory) (c : Cursor) (bits : ℕ)
    → c.bits_left < 8
    → 0 < bits
    → bits ≤ 8
    → read_max_8 mem c bits ≡ read_bits bits mem c 0
unfolding read_max_8
read_max_8-bits mem c zero h pos few = absurd (omega arith)
read_max_8-bits mem c (suc n) h pos few =
    let bounds = refill_bounds c h in
    read_max_8_filled mem (refill c).cdata (refill c).bits_left (suc n) bounds.0 bounds.1 pos few
    ∙ read_bits-refill n mem c 0

read_2-at :
    (mem : Memory) (a left : ℕ)
    → left < 8
    → ((a : ℕ) → mem a < 256)
    → read_2 mem (at a left) ≡ read_bits 2 mem (at a left) 0
unfolding read_2
read_2-at mem a zero h bytes = sym (
    read_bits_next 2 mem a 0 (omega arith) (omega arith)
    ∙ ap (λ (v : ℕ). record { value = v; cursor = at (a - 1) 6 })
        (omega (arith, bit_and-mask 2 (mem (a - 1) / 2 ^ 6))))
read_2-at mem a (suc zero) h bytes = sym (
    first_then mem a 1 1
    ∙ read_bits_next 1 mem a (mem a % 2 ^ 1) (omega arith) (omega arith)
    ∙ ap (λ (v : ℕ). record { value = v; cursor = at (a - 1) 7 }) (sym joined))
  where
    joined :
        bit_or (u8 (bit_and (mem a) 1 * 2)) (mem (a - 1) / 2 ^ 7)
        ≡ mem a % 2 ^ 1 * 2 ^ 1 + mem (a - 1) / 2 ^ (8 - 1) % 2 ^ 1
    joined =
        let low = bit_and-mask 1 (mem a) in
        let top : mem (a - 1) / 2 ^ 7 < 2 ^ 1 = omega (arith, bytes (a - 1)) in
        ap (λ t. bit_or (u8 (t * 2)) (mem (a - 1) / 2 ^ 7)) low
        ∙ join_bits 8 1 1 (mem a % 2) (mem (a - 1) / 2 ^ 7) (omega arith) top (omega arith)
        ∙ omega (arith, top)
read_2-at mem a (suc (suc k)) h bytes =
    let enough : leb 2 (suc (suc k)) ≡ true = ground arith in
    let old : (suc (suc k) == 0) ≡ false = ground arith in
    let e : suc (suc k) - 2 ≡ k = omega arith in
    let f : 2 + k ≡ suc (suc k) = omega arith in
    rw (enough, old, e)
      (sym (
        ap (λ n. read_bits 2 mem (at a n) 0) (sym f)
        ∙ read_bits_chunk 2 mem a k 0
        ∙ ap (λ (v : ℕ). record { value = v; cursor = at a k })
            (omega (arith, bit_and-mask 2 (mem a / 2 ^ k)))))

-- On a memory of bytes and with less than a byte left over, `read_2` gives the bits and the cursor
-- of two reads of one bit, on each of its paths.
pub read_2-bits :
    (mem : Memory) (c : Cursor)
    → c.bits_left < 8
    → ((a : ℕ) → mem a < 256)
    → read_2 mem c ≡ read_bits 2 mem c 0
read_2-bits mem c h bytes = read_2-at mem c.cdata c.bits_left h bytes
