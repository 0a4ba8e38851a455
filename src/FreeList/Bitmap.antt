-- ===== src/FreeList/Bitmap.antt =====
-- The bitmap part of free_list.rs: `check_occupation`, `bit_on`, `bit_off`.
pub mod Masks
pub mod Writes
pub mod Zero
pub mod Reads
pub mod Keep
use cri_archive_lib.Base.{ℕ, zero, suc, ◌+◌, ◌-◌, ◌*◌, ◌/◌, ◌%◌, ◌^◌, ◌<◌, min, bit_and, bit_or}
use cri_archive_lib.Base.{Bool, ◌||◌, List, [], ◌∷◌, ltb, ◌==◌, if◌then◌else◌, get_or, set}
use cri_archive_lib.Base.Bits.{testbit, testbit-lt}

abbrev pub bit_masks : List ℕ
bit_masks = 0x00 ∷ 0x01 ∷ 0x03 ∷ 0x07 ∷ 0x0f ∷ 0x1f ∷ 0x3f ∷ 0x7f ∷ 0xff ∷ []

-- `get_unchecked`: every caller passes at most 8.
unfoldable pub bit_mask_u8 : ℕ → ℕ
bit_mask_u8 n = get_or bit_masks n 0

-- `(bit_mask_u8(diff) << bit) as u8`
unfoldable pub shifted_mask : ℕ → ℕ → ℕ
shifted_mask diff bit = bit_mask_u8 diff * 2 ^ bit % 256

abbrev pub usize : ℕ → ℕ
usize n = n % 2 ^ 64

unfoldable pub bit_bounds_check : ℕ → ℕ → Bool
bit_bounds_check start len = len == 0 || ltb 255 (usize (start + len))

-- The local variables of the three functions: `byte` as an index, `len` as what is left of it.
pub record Sweep : Type 0 where
  pub used : List ℕ
  pub byte : ℕ
  pub len : ℕ

-- `*byte`
abbrev pub load : List ℕ → ℕ → ℕ
load used byte = get_or used byte 0

-- What the two writers differ in: the update of a byte under a mask, and the byte for a whole run.
pub record Painter : Type 0 where
  pub masked : ℕ → ℕ → ℕ
  pub whole : ℕ

abbrev pub turn_on : Painter
turn_on = record { masked = λ x m. bit_or x m; whole = 0xff }

abbrev pub turn_off : Painter
turn_off = record { masked = λ x m. bit_and x (255 - m); whole = 0x0 }

module _ (p : Painter) where
  -- Handle mid-bit start
  unfoldable pub paint_start : List ℕ → ℕ → ℕ → Sweep
  paint_start used start len =
      let byte = start / 8 in
      let bit = start % 8 in
      let diff = min len (8 - bit) in
      if bit == 0 then record { used = used; byte = byte; len = len } else record {
        used = set used byte (p.masked (load used byte) (shifted_mask diff bit));
        byte = byte + 1;
        len = len - diff;
      }

  -- Sets bits byte-wise
  unfoldable pub paint_bytes : ℕ → ℕ → List ℕ → List ℕ
  paint_bytes zero byte used = used
  paint_bytes (suc n) byte used = paint_bytes n (byte + 1) (set used byte p.whole)

  -- Handle end bits
  unfoldable pub paint_end : ℕ → ℕ → List ℕ → List ℕ
  paint_end bit byte used =
      if bit == 0 then used else set used byte (p.masked (load used byte) (bit_mask_u8 bit))

  unfoldable pub paint : List ℕ → ℕ → ℕ → List ℕ
  paint used start len =
      let s = paint_start used start len in
      paint_end (s.len % 8) (s.byte + s.len / 8) (paint_bytes (s.len / 8) s.byte s.used)

unfoldable pub bit_on : List ℕ → ℕ → ℕ → List ℕ
bit_on used start len = if bit_bounds_check start len then used else paint turn_on used start len

unfoldable pub bit_off : List ℕ → ℕ → ℕ → List ℕ
bit_off used start len = if bit_bounds_check start len then used else paint turn_off used start len

abbrev pub shl64 : ℕ → ℕ → ℕ
shl64 x n = x * 2 ^ n % 2 ^ 64

-- Read bits byte-wise; `diff` is 8 from the second round on.
unfoldable pub read_bytes : List ℕ → ℕ → ℕ → ℕ → ℕ → ℕ
read_bytes used zero byte diff res = res
read_bytes used (suc n) byte diff res =
    read_bytes used n (byte + 1) 8 (bit_or (shl64 res diff) (load used byte))

-- Handle end bits
unfoldable pub read_end : List ℕ → ℕ → ℕ → ℕ → ℕ
read_end used bit byte res =
    if bit == 0 then res else bit_or (shl64 res bit) (bit_and (load used byte) (bit_mask_u8 bit))

-- `len` has been cut to 64.
unfoldable pub read_run : List ℕ → ℕ → ℕ → ℕ
read_run used start len =
    let byte = start / 8 in
    let bit = start % 8 in
    let diff = min len (8 - bit) in
    if bit == 0
    then read_end used (len % 8) (byte + len / 8) (read_bytes used (len / 8) byte diff 0)
    else let left = len - diff in
      read_end used (left % 8) (byte + 1 + left / 8) (
        read_bytes used (left / 8) (byte + 1) diff
          (bit_and (load used byte) (shifted_mask diff bit)))

unfoldable pub check_occupation : List ℕ → ℕ → ℕ → ℕ
check_occupation used start len =
    if bit_bounds_check start len then 0 else read_run used start (min len 64)

-- Block `i` is taken: bit `i % 8` of byte `i / 8`.
unfoldable pub block_bit : List ℕ → ℕ → ℕ
block_bit used i = testbit (load used (i / 8)) (i % 8)

pub block_bit-lt : (used : List ℕ) (i : ℕ) → block_bit used i < 2
unfolding block_bit
block_bit-lt used i = testbit-lt (load used (i / 8)) (i % 8)
