-- ===== src/Archive/Ascii.antt =====
-- The names of tables and columns are plain, since UTF-8 has ASCII in it.
use cri_archive_lib.Base.{
  ℕ, ◌<◌, ◌≡◌, arith, Bool, true, false, ltb, ◌&&◌, refl, [], ◌∷◌, List, All, Str,
}
use cri_archive_lib.Writer.Itoc.{UtfValue}
use cri_archive_lib.Writer.Utf.{UtfColumn}
use cri_archive_lib.Utf.Interned.{IsPlainValue}
use cri_archive_lib.Strings.RoundTrip.{IsPlain, HasNoZero}

-- Bytes below 128 that are not zero.
abbrev pub IsAscii : Str → Type 0
IsAscii s = All (λ (b : ℕ). (0 < b) × (b < 128)) s

-- `std::str::from_utf8` takes text in ASCII.
abbrev pub TakesAscii : (Str → Bool) → Type 0
TakesAscii is_utf8 = (s : Str) → IsAscii s → is_utf8 s ≡ true

IsAscii-HasNoZero : (s : Str) → IsAscii s → HasNoZero s
IsAscii-HasNoZero [] h = tt
IsAscii-HasNoZero (b ∷ s) h =
    let pos = h.0.0 in ((λ e. absurd (omega (arith, e, pos))), IsAscii-HasNoZero s h.1)

pub IsAscii-IsPlain :
    (is_utf8 : Str → Bool) (decode_sjis : Str → Str) (s : Str)
    → TakesAscii is_utf8
    → IsAscii s
    → IsPlain is_utf8 decode_sjis s
IsAscii-IsPlain is_utf8 decode_sjis s takes h = (IsAscii-HasNoZero s h, takes s h)

both_true : (a b : Bool) → (a && b) ≡ true → (a ≡ true) × (b ≡ true)
both_true true b h = (refl, h)
both_true false b h = cc

-- The same, as a test.
abbrev pub is_ascii : Str → Bool
is_ascii [] = true
is_ascii (b ∷ s) = (ltb 0 b && ltb b 128) && is_ascii s

pub is_ascii-IsAscii : (s : Str) → is_ascii s ≡ true → IsAscii s
is_ascii-IsAscii [] h = tt
is_ascii-IsAscii (b ∷ s) h =
    let both = both_true (ltb 0 b && ltb b 128) (is_ascii s) h in
    let first = both_true (ltb 0 b) (ltb b 128) both.0 in
    let t = first.0 in let u = first.1 in ((ground arith, ground arith), is_ascii-IsAscii s both.1)

abbrev pub are_ascii : List UtfColumn → Bool
are_ascii [] = true
are_ascii (c ∷ cs) = is_ascii c.name && are_ascii cs

-- The texts of a row.
abbrev pub strings_of : List UtfValue → List Str
strings_of [] = []
strings_of (UtfValue.string s ∷ row) = s ∷ strings_of row
strings_of (UtfValue.uint16 v ∷ row) = strings_of row
strings_of (UtfValue.uint32 v ∷ row) = strings_of row
strings_of (UtfValue.uint64 v ∷ row) = strings_of row
strings_of (UtfValue.data_bytes v ∷ row) = strings_of row

module _ (is_utf8 : Str → Bool) (decode_sjis : Str → Str) where
  pub columns-IsPlain :
      (columns : List UtfColumn)
      → TakesAscii is_utf8
      → are_ascii columns ≡ true
      → All (λ (c : UtfColumn). IsPlain is_utf8 decode_sjis c.name) columns
  columns-IsPlain [] takes h = tt
  columns-IsPlain (c ∷ cs) takes h =
      let both = both_true (is_ascii c.name) (are_ascii cs) h in
      (
        IsAscii-IsPlain is_utf8 decode_sjis c.name takes (is_ascii-IsAscii c.name both.0),
        columns-IsPlain cs takes both.1,
      )

  pub strings-IsPlainValue :
      (row : List UtfValue)
      → All (IsPlain is_utf8 decode_sjis) (strings_of row)
      → All (IsPlainValue is_utf8 decode_sjis) row
  strings-IsPlainValue [] h = tt
  strings-IsPlainValue (UtfValue.string s ∷ row) h = (h.0, strings-IsPlainValue row h.1)
  strings-IsPlainValue (UtfValue.uint16 v ∷ row) h = (tt, strings-IsPlainValue row h)
  strings-IsPlainValue (UtfValue.uint32 v ∷ row) h = (tt, strings-IsPlainValue row h)
  strings-IsPlainValue (UtfValue.uint64 v ∷ row) h = (tt, strings-IsPlainValue row h)
  strings-IsPlainValue (UtfValue.data_bytes v ∷ row) h = (tt, strings-IsPlainValue row h)
