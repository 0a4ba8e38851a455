-- ===== src/Manifest/Examples.antt =====
-- Small fields and sources.
use cri_archive_lib.Base.{ℕ, ◌≡◌, refl, arith, true, List, [], ◌∷◌, Str, ok, err}
use cri_archive_lib.Manifest.Fields.{
  panicked, is_char_boundary, decode_bytes, encode_field, decode_field, decode_field-encode_field,
}
use cri_archive_lib.Manifest.Hash.{hash_bytes, hash_file, joined, given, hash_file-hash_bytes}

abbrev name : Str
name = 0x61 ∷ 0x2e ∷ 0x62 ∷ []

decode_field_example : decode_field (λ s. true) (encode_field name) ≡ ok name
decode_field_example =
    decode_field-encode_field (λ s. true) name (omega arith, (omega arith, (omega arith, tt))) refl

-- The letter a, an é of two bytes, and the letter b.
split_character : decode_field (λ s. true) (0x61 ∷ 0xc3 ∷ 0xa9 ∷ 0x62 ∷ []) ≡ err panicked
unfolding decode_field decode_bytes is_char_boundary
split_character = refl

abbrev reads : List (List ℕ)
reads = name ∷ (1 ∷ 2 ∷ []) ∷ []

hash_file_example : hash_file 5 (given reads) ≡ ok (5, hash_bytes (joined reads))
hash_file_example = hash_file-hash_bytes 5 reads (omega arith, (omega arith, tt))
