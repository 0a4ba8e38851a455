-- ===== src/Encrypt/P5r.antt =====
-- `P5RDecryptor`: 0x400 bytes behind an offset of 0x20 are XORed with the 0x400 bytes after them, in
-- blocks whose width the target machine gives.
pub mod Blocks
pub mod Region
use cri_archive_lib.Base.{
  ℕ, zero, suc, ◌+◌, ◌-◌, ◌*◌, ◌/◌, ltb, leb, ◌&&◌, ◌==◌, if◌then◌else◌, Bool, true, false,
}
use cri_archive_lib.Base.{List, [], ◌∷◌, bit_xor, zip_with, length, get_or}
use cri_archive_lib.Base.Bytes.{from_le, to_le}

-- Addresses count from the start of the slice.
abbrev pub Memory : Type 0
Memory = ℕ → ℕ

pub load : ℕ → Memory → ℕ → List ℕ
load zero mem a = []
load (suc w) mem a = mem a ∷ load w mem (a + 1)

pub store : Memory → ℕ → List ℕ → Memory
store mem p bytes a = if leb p a && ltb a (p + length bytes) then get_or bytes (a - p) 0 else mem a

abbrev pub encrypted_data_offset : ℕ
encrypted_data_offset = 0x20

abbrev pub num_bytes_to_decrypt : ℕ
num_bytes_to_decrypt = 0x400

-- A vector register of `w` bytes: `storeu(p, xor(loadu(p), loadu(q)))`.
abbrev pub xor_vector : ℕ → Memory → ℕ → ℕ → Memory
xor_vector w mem p q = store mem p (zip_with bit_xor (load w mem p) (load w mem q))

-- `write_unaligned(p, read_unaligned(p) ^ read_unaligned(q))` of numbers of eight bytes.
abbrev pub xor_word : Memory → ℕ → ℕ → Memory
xor_word mem p q = store mem p (to_le 8 (bit_xor (from_le (load 8 mem p)) (from_le (load 8 mem q))))

-- The first `n` rounds of `for i in 0..NEXT_BLOCK`, `next` being `NEXT_BLOCK` and `w` the width.
pub rounds : (Memory → ℕ → ℕ → Memory) → ℕ → ℕ → ℕ → Memory → Memory
rounds op w next zero mem = mem
rounds op w next (suc i) mem = op (rounds op w next i mem) (i * w) ((i + next) * w)

pub decrypt_in_place_avx2 : Memory → Memory
decrypt_in_place_avx2 = let next = num_bytes_to_decrypt / 32 in rounds (xor_vector 32) 32 next next

pub decrypt_in_place_sse3 : Memory → Memory
decrypt_in_place_sse3 = let next = num_bytes_to_decrypt / 16 in rounds (xor_vector 16) 16 next next

pub decrypt_in_place_neon : Memory → Memory
decrypt_in_place_neon = let next = num_bytes_to_decrypt / 16 in rounds (xor_vector 16) 16 next next

-- The loop is there on x86_64 only.
pub decrypt_in_place_u64 : Bool → Memory → Memory
decrypt_in_place_u64 is_x86_64 mem =
    let next = num_bytes_to_decrypt / 8 in
    if is_x86_64 then rounds xor_word 8 next next mem else mem

-- The target machine, as the `cfg!` tests tell it apart.
pub data Target : Type 0 where
  avx2 sse3 x86_64 neon other : Target

pub decrypt_slice : Target → Memory → Memory
decrypt_slice avx2 mem = decrypt_in_place_avx2 mem
decrypt_slice sse3 mem = decrypt_in_place_sse3 mem
decrypt_slice x86_64 mem = decrypt_in_place_u64 true mem
decrypt_slice neon mem = decrypt_in_place_neon mem
decrypt_slice other mem = decrypt_in_place_u64 false mem

-- `&mut input[offset..]`, written back.
abbrev pub in_slice : ℕ → (Memory → Memory) → Memory → Memory
in_slice offset f mem a = if ltb a offset then mem a else f (λ b. mem (offset + b)) (a - offset)

pub decrypt_in_place : Target → ℕ → Memory → Memory
decrypt_in_place target len mem =
    if ltb len 0x820 then mem else in_slice encrypted_data_offset (decrypt_slice target) mem
