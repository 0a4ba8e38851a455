-- ===== src/Strings.antt =====
-- The string pool of an @UTF table: `intern_string` of the writer (cri-archive-lib/src/cpk/writer.rs) and
-- `parse_strings` of the reader (cri-archive-lib/src/schema/strings.rs). A map is the list of its
-- entries.
pub mod RoundTrip
pub mod Examples
use cri_archive_lib.Base.{
  ℕ, zero, suc, ◌+◌, ◌^◌, Bool, true, false, ltb, ◌==◌, ◌&&◌, if◌then◌else◌, length, Str,
}
use cri_archive_lib.Base.{
  Option, none, some, List, [], ◌∷◌, ◌++◌, Result, ok, err, ensure, ◌>>=◌, ◌>>◌,
}
use cri_archive_lib.Writer.{CpkWriterError, arithmetic_overflow}

pub record Entry : Type 0 where
  pub offset : ℕ
  pub value : Str

abbrev pub entry : ℕ → Str → Entry
entry o v = record { offset = o; value = v }

-- Equality of two strings.
unfoldable pub same_str : Str → Str → Bool
same_str [] [] = true
same_str [] (y ∷ ys) = false
same_str (x ∷ xs) [] = false
same_str (x ∷ xs) (y ∷ ys) = (x == y) && same_str xs ys

-- `offsets.get(value)`
unfoldable pub find_value : Str → List Entry → Option ℕ
find_value v [] = none
find_value v (e ∷ es) =
    let rest = find_value v es in if same_str e.value v then some e.offset else rest

-- `strings.get(&offset)`
unfoldable pub get_string : ℕ → List Entry → Option Str
get_string o [] = none
get_string o (e ∷ es) = let rest = get_string o es in if e.offset == o then some e.value else rest

-- The pool while it is built, with the offsets of the strings in it.
pub record Pool : Type 0 where
  pub pool : List ℕ
  pub offsets : List Entry

abbrev pub empty_pool : Pool
empty_pool = record { pool = []; offsets = [] }

pub data PoolError : Type 0 where
  unterminated not_utf8 : PoolError

-- A new string goes behind the others, with a zero byte after it.
unfoldable pub intern_string : Str → Pool → Result CpkWriterError (ℕ × Pool)
intern_string value p = elim (find_value value p.offsets) [
  | some offset ↦ ok (offset, p)
  | none ↦
      let offset = length p.pool in
      ensure (ltb offset (2 ^ 32)) arithmetic_overflow
      >> ok (
        offset,
        record {
          pool = p.pool ++ (value ++ (0 ∷ []));
          offsets = p.offsets ++ (entry offset value ∷ []);
        },
      )
]

-- What stands before the first zero byte, and after it.
pub record Cut : Type 0 where
  pub bytes : Str
  pub rest : Str

unfoldable pub cut_at_zero : Str → Option Cut
cut_at_zero [] = none
cut_at_zero (b ∷ bs) =
    if b == 0 then some (record { bytes = []; rest = bs }) else (elim (cut_at_zero bs) [
      | none ↦ none
      | some c ↦ some (record { bytes = b ∷ c.bytes; rest = c.rest })
    ])

pub data StringEncoding : Type 0 where
  shift_jis utf8 : StringEncoding

-- `is_utf8` is the test of `std::str::from_utf8`; `decode_sjis` is the decoder of the crate encoding_rs.
module _ (is_utf8 : Str → Bool) (decode_sjis : Str → Str) where
  unfoldable pub decode : StringEncoding → Str → Result PoolError Str
  decode shift_jis bytes = ok (decode_sjis bytes)
  decode utf8 bytes = ensure (is_utf8 bytes) not_utf8 >> ok bytes

  -- The `while` loop from `offset` on; a round takes at least one byte, so that the length of the
  -- stream is fuel enough.
  unfoldable pub parse_from : ℕ → StringEncoding → ℕ → Str → Result PoolError (List Entry)
  parse_from fuel encoding offset [] = ok []
  parse_from zero encoding offset (b ∷ bs) = err unterminated
  parse_from (suc fuel) encoding offset (b ∷ bs) = elim (cut_at_zero (b ∷ bs)) [
    | none ↦ err unterminated
    | some c ↦ decode encoding c.bytes >>= λ value.
        parse_from fuel encoding (offset + (length c.bytes + 1)) c.rest >>= λ strings.
        ok (entry offset value ∷ strings)
  ]

  unfoldable pub parse_strings : StringEncoding → Str → Result PoolError (List Entry)
  parse_strings encoding stream = parse_from (length stream) encoding 0 stream
