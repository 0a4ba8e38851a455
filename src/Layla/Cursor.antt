-- ===== src/Layla/Cursor.antt =====
-- `LaylaDecompressorCursor`: a bit stream that is read from its end, high bit first.
-- Memory is a function from addresses to bytes, `cdata` is an address, and `sub(1)` is `- 1`: the
-- stream does not begin at address 0.
pub mod Single
pub mod Thirteen
pub mod Reads
pub mod Bounds
use cri_archive_lib.Base.{ℕ, zero, suc, ◌+◌, ◌-◌, ◌*◌, ◌/◌, ◌%◌, ◌^◌, min, bit_and, bit_or}
use cri_archive_lib.Base.{
  Bool, true, false, not, ◌||◌, List, [], ◌∷◌, leb, ◌==◌, if◌then◌else◌, get_or,
}

abbrev pub bit_masks : List ℕ
bit_masks =
    0x0000 ∷ 0x0001 ∷ 0x0003 ∷ 0x0007 ∷ 0x000f ∷ 0x001f ∷ 0x003f ∷ 0x007f ∷ 0x00ff ∷ 0x01ff ∷ 0x03ff
    ∷ 0x07ff ∷ 0x0fff ∷ 0x1fff ∷ 0x3fff ∷ 0x7fff ∷ []

-- `get_unchecked`: every caller passes at most 8.
pub bit_mask : ℕ → ℕ
bit_mask n = get_or bit_masks n 0

pub record Cursor : Type 0 where
  pub cdata : ℕ
  pub bits_left : ℕ

abbrev pub at : ℕ → ℕ → Cursor
at a b = record { cdata = a; bits_left = b }

abbrev pub Memory : Type 0
Memory = ℕ → ℕ

abbrev pub Read : Type 0 → Type 0
Read A = record { value : A; cursor : Cursor }

abbrev pub u8 : ℕ → ℕ
u8 n = n % 2 ^ 8

abbrev pub u32 : ℕ → ℕ
u32 n = n % 2 ^ 32

pub back_one : Cursor → Cursor
back_one c = if c.bits_left == 0 then at (c.cdata - 1) 7 else at c.cdata (c.bits_left - 1)

pub read_1 : Memory → Cursor → Read Bool
read_1 mem c =
    let d = back_one c in
    record { value = not (bit_and (mem d.cdata / 2 ^ d.bits_left) 1 == 0); cursor = d }

-- A cursor with bits left in its byte: `bits_left` is 8 where it was 0.
pub refill : Cursor → Cursor
refill c = if c.bits_left == 0 then at (c.cdata - 1) 8 else c

-- `(*cdata >> (bits_left - n)) & bit_mask(n)`
pub peek : Memory → Cursor → ℕ → ℕ
peek mem c n = bit_and (mem c.cdata / 2 ^ (c.bits_left - n)) (bit_mask n)

-- `read_13` behind its first test.
pub read_13_filled : Memory → Cursor → Read ℕ
read_13_filled mem c₁ =
    let bits = 13 - c₁.bits_left in
    let res₁ = bit_and (mem c₁.cdata) (bit_mask c₁.bits_left) in
    let c₂ = at (c₁.cdata - 1) 8 in
    let bit_round = min bits 8 in
    let res₂ = bit_or (u32 (res₁ * 2 ^ bit_round)) (peek mem c₂ bit_round) in
    let rest = bits - bit_round in
    let c₃ = at (c₂.cdata - 1) 8 in
    if rest == 0 then record { value = res₂; cursor = at c₂.cdata (8 - bit_round) } else record {
      value = bit_or (u32 (res₂ * 2 ^ rest)) (peek mem c₃ rest);
      cursor = at c₃.cdata (8 - rest);
    }

pub read_13 : Memory → Cursor → Read ℕ
read_13 mem c = read_13_filled mem (refill c)

-- `cdata.add(1)`, after the step back, is where the cursor was.
pub read_8 : Memory → Cursor → Read ℕ
read_8 mem c =
    let a = c.cdata - 1 in
    let extra_bit = 8 - c.bits_left in
    if c.bits_left == 0 then record { value = mem a; cursor = at a 0 } else record {
      value =
          bit_or (u8 (bit_and (mem c.cdata) (bit_mask c.bits_left) * 2 ^ extra_bit))
            (bit_and (mem a / 2 ^ (8 - extra_bit)) (bit_mask extra_bit));
      cursor = at a c.bits_left;
    }

pub read_2 : Memory → Cursor → Read ℕ
read_2 mem c =
    let new_byte = c.bits_left == 0 in
    let left = if new_byte then 6 else c.bits_left - 2 in
    let a = if new_byte then c.cdata - 1 else c.cdata in
    if leb 2 c.bits_left || new_byte
    then record { value = bit_and (mem a / 2 ^ left) 3; cursor = at a left }
    else record {
      value = bit_or (u8 (bit_and (mem c.cdata) 1 * 2)) (mem (c.cdata - 1) / 2 ^ 7);
      cursor = at (c.cdata - 1) 7;
    }

-- The rounds of the `for _ in 0..2` loop that are left. A byte shifted by 8 bits is 0, as in a release
-- build; a debug build panics there.
pub read_rounds : ℕ → Memory → Cursor → ℕ → ℕ → Read ℕ
read_rounds zero mem c bits res = record { value = res; cursor = c }
read_rounds (suc n) mem c bits res =
    let bit_round = min bits c.bits_left in
    let res' = bit_or (u8 (res * 2 ^ bit_round)) (peek mem c bit_round) in
    let rest = read_rounds n mem (at (c.cdata - 1) 8) (bits - bit_round) res' in
    if bits - bit_round == 0
    then record { value = res'; cursor = at c.cdata (c.bits_left - bit_round) }
    else rest

pub read_max_8 : Memory → Cursor → ℕ → Read ℕ
read_max_8 mem c bits = read_rounds 2 mem (refill c) bits 0
