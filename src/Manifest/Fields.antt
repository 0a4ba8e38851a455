-- ===== src/Manifest/Fields.antt =====
-- `encode_field` and `decode_field`: a field is written in hexadecimal digits.
use cri_archive_lib.Base.{ℕ, ◌+◌, ◌-◌, ◌*◌, ◌/◌, ◌%◌, ◌≡◌, refl, ap, arith}
use cri_archive_lib.Base.{Bool, true, false, ltb, leb, ◌==◌, ==_iff, ◌&&◌, not, if◌then◌else◌}
use cri_archive_lib.Base.{
  Option, none, some, List, [], ◌∷◌, Str, length, All, Result, ok, err, ok_or, ensure, ◌>>=◌, ◌>>◌,
}
use cri_archive_lib.Base.Bytes.{IsByte}
use cri_archive_lib.Base.Table.{all_below, all_below_sound}

-- `panicked`: a slice that begins or ends inside a character.
pub data FieldError : Type 0 where
  invalid_data panicked : FieldError

-- One digit of `{byte:02x}`.
pub hex_digit : ℕ → ℕ
hex_digit n = if ltb n 10 then 0x30 + n else 0x57 + n

pub encode_field : Str → Str
encode_field [] = []
encode_field (byte ∷ bytes) = hex_digit (byte / 16) ∷ hex_digit (byte % 16) ∷ encode_field bytes

-- `char::to_digit(16)`
pub digit_value : ℕ → Option ℕ
digit_value c =
    if leb 0x30 c && leb c 0x39
    then some (c - 0x30)
    else (if leb 0x61 c && leb c 0x66
        then some (c - 0x57)
        else (if leb 0x41 c && leb c 0x46 then some (c - 0x37) else none))

-- `u8::from_str_radix(s, 16)` of two characters, the first of which may be a plus sign.
pub from_str_radix : ℕ → ℕ → Option ℕ
from_str_radix a b = elim (digit_value b) [
  | none ↦ none
  | some low ↦
      if a == 0x2b
      then some low
      else (elim (digit_value a) [ none ↦ none | some high ↦ some (high * 16 + low) ])
]

-- The end of a slice is the start of a character, or of nothing.
unfoldable pub is_char_boundary : Str → Bool
is_char_boundary [] = true
is_char_boundary (c ∷ rest) = not (leb 0x80 c && ltb c 0xc0)

-- The loop over the pairs that are left.
unfoldable pub decode_bytes : Str → Result FieldError (List ℕ)
decode_bytes [] = ok []
decode_bytes (a ∷ []) = err panicked
decode_bytes (a ∷ b ∷ rest) =
    ensure (is_char_boundary rest) panicked
    >> (ok_or (from_str_radix a b) invalid_data >>= λ byte.
        decode_bytes rest >>= λ bytes. ok (byte ∷ bytes))

-- `is_utf8` is the test of `String::from_utf8`.
unfoldable pub decode_field : (Str → Bool) → Str → Result FieldError Str
decode_field is_utf8 value =
    ensure (length value % 2 == 0) invalid_data
    >> (decode_bytes value >>= λ bytes. ensure (is_utf8 bytes) invalid_data >> ok bytes)

abbrev is_some : Option ℕ → ℕ → Bool
is_some none n = false
is_some (some m) n = m == n

is_some-eq : (o : Option ℕ) (n : ℕ) → is_some o n ≡ true → o ≡ some n
is_some-eq none n h = cc
is_some-eq (some m) n h = ap (λ k. some k) ((==_iff m n).0 h)

-- All bytes, by evaluation.
pair_table :
    all_below 256 (λ b. is_some (from_str_radix (hex_digit (b / 16)) (hex_digit (b % 16))) b) ≡ true
unfolding all_below from_str_radix hex_digit digit_value
pair_table = refl

boundary_table : all_below 256 (λ b. is_char_boundary (hex_digit (b / 16) ∷ [])) ≡ true
unfolding all_below hex_digit is_char_boundary
boundary_table = refl

encoded_boundary :
    (bytes : List ℕ) → All IsByte bytes → is_char_boundary (encode_field bytes) ≡ true
unfolding encode_field is_char_boundary
encoded_boundary [] h = refl
encoded_boundary (b ∷ bytes) h = all_below_sound 256 _ b boundary_table h.0

decode_bytes-encode_field :
    (bytes : List ℕ) → All IsByte bytes → decode_bytes (encode_field bytes) ≡ ok bytes
unfolding encode_field decode_bytes
decode_bytes-encode_field [] h = refl
decode_bytes-encode_field (b ∷ bytes) h =
    let pair = is_some-eq _ b (all_below_sound 256 _ b pair_table h.0) in
    rw (encoded_boundary bytes h.1, pair, decode_bytes-encode_field bytes h.1) refl

encoded_even : (bytes : List ℕ) → length (encode_field bytes) ≡ 2 * length bytes
unfolding encode_field
encoded_even [] = refl
encoded_even (b ∷ bytes) = omega (arith, encoded_even bytes)

-- A field of bytes that are valid as UTF-8 is decoded from its hexadecimal digits.
pub decode_field-encode_field :
    (is_utf8 : Str → Bool) (value : Str)
    → All IsByte value
    → is_utf8 value ≡ true
    → decode_field is_utf8 (encode_field value) ≡ ok value
unfolding decode_field
decode_field-encode_field is_utf8 value h utf =
    let n = encoded_even value in
    let even : (length (encode_field value) % 2 == 0) ≡ true = ground arith in
    rw (even, decode_bytes-encode_field value h, utf) refl
