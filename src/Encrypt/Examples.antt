-- ===== src/Encrypt/Examples.antt =====
-- Runs of the two ciphers on small inputs.
use cri_archive_lib.Base.{ℕ, ◌*◌, ◌%◌, ◌^◌, ◌<◌, ◌≡◌, arith, List, [], ◌∷◌, length, get_or, bit_xor}
use cri_archive_lib.Base.{leb, ◌&&◌, if◌then◌else◌}
use cri_archive_lib.Encrypt.Table.{
  starts_with, is_encrypted, decrypt_utf, utf_magic, decrypt_utf-at, is_encrypted-magic,
}
use cri_archive_lib.Encrypt.P5r.{Memory, avx2, x86_64, decrypt_in_place}
use cri_archive_lib.Encrypt.P5r.Region.{
  has_loop, region, decrypt_in_place-region, decrypt_in_place-twice,
}

abbrev bytes : List ℕ
bytes = 0x1f ∷ 0x9e ∷ 0xf3 ∷ 0xf5 ∷ 0x00 ∷ []

decrypt_utf-at_example :
    (length (decrypt_utf bytes) ≡ length bytes)
    × ((i : ℕ)
        → i < length bytes
        → get_or (decrypt_utf bytes) i 0 ≡ bit_xor (get_or bytes i 0) (0x5f * 0x15 ^ i % 2 ^ 8))
decrypt_utf-at_example = decrypt_utf-at bytes

is_encrypted_example : is_encrypted bytes ≡ starts_with (decrypt_utf bytes) utf_magic
is_encrypted_example = is_encrypted-magic bytes

abbrev file : Memory
file a = a * 7 % 256

file-IsBytes : (a : ℕ) → file a < 256
file-IsBytes a = omega arith

decrypt_in_place_example :
    decrypt_in_place x86_64 0x900 file
    ≡ (if leb 0x820 0x900 && has_loop x86_64 then region file else file)
decrypt_in_place_example = decrypt_in_place-region x86_64 0x900 file file-IsBytes

decrypt_in_place-twice_example :
    decrypt_in_place avx2 0x900 (decrypt_in_place avx2 0x900 file) ≡ file
decrypt_in_place-twice_example = decrypt_in_place-twice avx2 0x900 file file-IsBytes
