-- ===== src/Archive/Cells.antt =====
-- The cells of a table that was written, as the reader of an archive takes them.
use cri_archive_lib.Base.{
  ℕ, ◌^◌, ◌<◌, ◌≡◌, ◌≢◌, refl, sym, ◌∙◌, ap, arith, ◌==◌, ==_iff, leb, true, Bool-cases, inl, inr,
}
use cri_archive_lib.Base.{List, [], ◌∷◌, get_elem?, Str, Option, none, some, some-inj}
use cri_archive_lib.Strings.{get_string}
use cri_archive_lib.Schema.Values.{RowValue}
use cri_archive_lib.Schema.Table.{HighTable}
use cri_archive_lib.Writer.Itoc.{UtfValue}
use cri_archive_lib.Writer.Utf.{UtfTableBuilder}
use cri_archive_lib.Utf.{Reads}
use cri_archive_lib.Utf.ReadBack.{IsReadBack}
use cri_archive_lib.Utf.Lookup.{number_of, value-Reads, number-Reads}
use cri_archive_lib.Reader.Values.{numeric_at, string_of, string_at, u32_in, try_u32, unwrap_or}

-- The text of a value, the empty string being none.
abbrev pub text_of : UtfValue → Option Str
text_of (UtfValue.string []) = none
text_of (UtfValue.string (b ∷ bs)) = some (b ∷ bs)
text_of v = none

pub text_or_empty : (s : Str) → unwrap_or (text_of (UtfValue.string s)) [] ≡ s
text_or_empty [] = refl
text_or_empty (b ∷ bs) = refl

pub text_present : (s : Str) → s ≢ [] → text_of (UtfValue.string s) ≡ some s
text_present [] ne = absurd (ne refl)
text_present (b ∷ bs) ne = refl

pub try_u32-fits : (v : ℕ) → v < 2 ^ 32 → try_u32 v ≡ some v
try_u32-fits v h = let t : leb v 0xffffffff ≡ true = ground arith in rw t refl

string_of-Reads :
    (table : HighTable) (s : Str) (found : RowValue)
    → get_string 0 table.strings ≡ some []
    → Reads table (UtfValue.string s) found
    → string_of table found ≡ text_of (UtfValue.string s)
string_of-Reads table [] found null (o, e, f, z) =
    let t : (o == 0) ≡ true = (==_iff o 0).1 (z refl) in rw (e, t) refl
string_of-Reads table (b ∷ bs) found null (o, e, f, z) = elim (Bool-cases (o == 0)) [
  | inl t ↦
      let same : b ∷ bs ≡ [] =
        some-inj (sym f ∙ ap (λ (n : ℕ). get_string n table.strings) ((==_iff o 0).0 t) ∙ null) in
      cc
  | inr t ↦ rw (e, t) f
]

module _ (t : UtfTableBuilder) (bytes : List ℕ) (table : HighTable) (h : IsReadBack t bytes table)
    (r : ℕ) (row : List UtfValue) (er : get_elem? t.rows r ≡ some row) where
  pub numeric_at-cell :
      (i : ℕ) (v : UtfValue) → get_elem? row i ≡ some v → numeric_at table r i ≡ number_of v
  unfolding numeric_at
  numeric_at-cell i v ei =
      let found = value-Reads t bytes table r i row v h er ei in
      (simp (numeric_at, found.1)) ∙ number-Reads table v found.0 found.2

  pub string_at-cell :
      (i : ℕ) (s : Str)
      → get_elem? row i ≡ some (UtfValue.string s)
      → string_at table r i ≡ text_of (UtfValue.string s)
  unfolding string_at
  string_at-cell i s ei =
      let found = value-Reads t bytes table r i row (UtfValue.string s) h er ei in
      (simp (string_at, found.1)) ∙ string_of-Reads table s found.0 h.null_string found.2

  pub u32_in-cell :
      (i v : ℕ)
      → v < 2 ^ 32
      → get_elem? row i ≡ some (UtfValue.uint32 v)
      → u32_in table r (some i) ≡ some v
  u32_in-cell i v lt ei = rw (numeric_at-cell i (UtfValue.uint32 v) ei, try_u32-fits v lt) refl
