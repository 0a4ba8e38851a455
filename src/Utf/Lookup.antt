-- ===== src/Utf/Lookup.antt =====
-- The look-ups by name in a table that was written.
use cri_archive_lib.Base.{
  ℕ, zero, suc, ◌+◌, ◌^◌, ◌<◌, ◌≡◌, ◌≢◌, refl, ◌∙◌, ap, subst, arith, Bool, true, false, ◌==◌,
  if◌then◌else◌, Bool-cases, inl, inr,
}
use cri_archive_lib.Base.{
  List, [], ◌∷◌, length, get_elem?, Str, AllPairs, Option, none, some, some-inj, ok,
}
use cri_archive_lib.Strings.{same_str}
use cri_archive_lib.Strings.RoundTrip.{same_str-eq}
use cri_archive_lib.Utf.Interned.{same_str_refl}
use cri_archive_lib.Schema.Values.{RowValue, row_value_to_u64}
use cri_archive_lib.Schema.Columns.{Column}
use cri_archive_lib.Schema.Table.{
  HighTable, open_table, find_column, column_index, value_or_default, value, value_by_name,
  u64_by_name, data_of, data_by_name,
}
use cri_archive_lib.Writer.Itoc.{UtfValue}
use cri_archive_lib.Writer.Utf.{UtfColumn, UtfTableBuilder}
use cri_archive_lib.Writer.Utf.Build.{build}
use cri_archive_lib.Utf.{Reads}
use cri_archive_lib.Utf.Built.{IsWritable}
use cri_archive_lib.Utf.RoundTrip.{open_table-build}
use cri_archive_lib.Utf.ReadBack.{Names, IsReadBack}

-- No column before the `i`-th has the name.
abbrev pub IsFirst : List UtfColumn → ℕ → Str → Type 0
IsFirst cs i name = (j : ℕ) (d : UtfColumn) → j < i → get_elem? cs j ≡ some d → d.name ≢ name

same_str-ne : (xs ys : Str) → xs ≢ ys → same_str xs ys ≡ false
same_str-ne xs ys ne = elim (Bool-cases (same_str xs ys)) [
  | inl e ↦ absurd (ne (same_str-eq xs ys e))
  | inr e ↦ e
]

find_column-IsFirst :
    (table : HighTable) (c : UtfColumn) (i : ℕ) (cs : List UtfColumn) (found : List Column)
    (index : ℕ)
    → AllPairs (Names table) cs found
    → get_elem? cs i ≡ some c
    → IsFirst cs i c.name
    → find_column table.strings c.name found index ≡ some (index + i)
unfolding find_column
find_column-IsFirst table c i [] found index h e first = cc
find_column-IsFirst table c i (d ∷ cs) [] index h e first = absurd h
find_column-IsFirst table c zero (d ∷ cs) (f ∷ found) index h e first =
    let same : d ≡ c = some-inj e in
    let here : index ≡ index + 0 = omega arith in
    let t = ap (λ (x : UtfColumn). same_str x.name c.name) same ∙ same_str_refl c.name in
    rw (h.0.0, t) (ap (λ (n : ℕ). some n) here)
find_column-IsFirst table c (suc i) (d ∷ cs) (f ∷ found) index h e first =
    let ih =
      find_column-IsFirst table c i cs found (suc index) h.1 e
        (λ j u lt. first (suc j) u (omega arith)) in
    let t = same_str-ne d.name c.name (first 0 d (omega arith) refl) in
    let next : suc index + i ≡ index + suc i = omega arith in
    rw (h.0.0, t) (ih ∙ ap (λ (n : ℕ). some n) next)

-- The first column of a name, as the table was written.
abbrev pub first_column : Str → List UtfColumn → ℕ → Option ℕ
first_column name [] index = none
first_column name (c ∷ cs) index =
    let rest = first_column name cs (suc index) in if same_str c.name name then some index else rest

find_column-first_column :
    (table : HighTable) (name : Str) (cs : List UtfColumn) (found : List Column) (index : ℕ)
    → AllPairs (Names table) cs found
    → find_column table.strings name found index ≡ first_column name cs index
unfolding find_column
find_column-first_column table name [] [] index h = refl
find_column-first_column table name [] (f ∷ found) index h = absurd h
find_column-first_column table name (c ∷ cs) [] index h = absurd h
find_column-first_column table name (c ∷ cs) (f ∷ found) index h =
    rw (h.0.0, find_column-first_column table name cs found (suc index) h.1) refl

pub column_index-first_column :
    (t : UtfTableBuilder) (bytes : List ℕ) (table : HighTable) (name : Str)
    → IsReadBack t bytes table
    → column_index table name ≡ first_column name t.columns 0
unfolding column_index
column_index-first_column t bytes table name h =
    find_column-first_column table name t.columns table.columns 0 h.columns

-- What stands at a place of one list has its partner there in the other.
AllPairs-get_elem? {ℓ κ} :
    {A : Type ℓ} {B : Type κ} (P : A → B → Type 0) (xs : List A) (ys : List B) (i : ℕ) {x : A}
    → AllPairs P xs ys
    → get_elem? xs i ≡ some x
    → (y : B) × (get_elem? ys i ≡ some y) × P x y
AllPairs-get_elem? P [] ys i h e = cc
AllPairs-get_elem? P (a ∷ xs) [] i h e = absurd h
AllPairs-get_elem? P (a ∷ xs) (b ∷ ys) zero h e = (b, refl, subst (λ z. P z b) (some-inj e) h.0)
AllPairs-get_elem? P (a ∷ xs) (b ∷ ys) (suc i) h e = AllPairs-get_elem? P xs ys i h.1 e

pub AllPairs-length {ℓ κ} :
    {A : Type ℓ} {B : Type κ} (P : A → B → Type 0) (xs : List A) (ys : List B)
    → AllPairs P xs ys
    → length xs ≡ length ys
AllPairs-length P [] [] h = refl
AllPairs-length P [] (y ∷ ys) h = absurd h
AllPairs-length P (x ∷ xs) [] h = absurd h
AllPairs-length P (x ∷ xs) (y ∷ ys) h = ap suc (AllPairs-length P xs ys h.1)

-- The number and the bytes of a value.
abbrev pub number_of : UtfValue → Option ℕ
number_of (UtfValue.uint16 v) = some v
number_of (UtfValue.uint32 v) = some v
number_of (UtfValue.uint64 v) = some v
number_of v = none

abbrev pub bytes_of : UtfValue → Option (List ℕ)
bytes_of (UtfValue.data_bytes []) = none
bytes_of (UtfValue.data_bytes (b ∷ bs)) = some (b ∷ bs)
bytes_of v = none

present :
    (table : HighTable) (i : ℕ) (v : UtfValue) (found : RowValue)
    → Reads table v found
    → value_or_default table.columns i found ≡ some found
present table i (UtfValue.uint16 v) found h = rw h refl
present table i (UtfValue.uint32 v) found h = rw h refl
present table i (UtfValue.uint64 v) found h = rw h refl
present table i (UtfValue.string v) found h = rw h.1 refl
present table i (UtfValue.data_bytes v) found h = rw h.1 refl

pub number-Reads :
    (table : HighTable) (v : UtfValue) (found : RowValue)
    → Reads table v found
    → row_value_to_u64 found ≡ number_of v
unfolding row_value_to_u64
number-Reads table (UtfValue.uint16 v) found h = rw h refl
number-Reads table (UtfValue.uint32 v) found h = rw h refl
number-Reads table (UtfValue.uint64 v) found h = rw h refl
number-Reads table (UtfValue.string v) found h = rw h.1 refl
number-Reads table (UtfValue.data_bytes v) found h = rw h.1 refl

pub bytes-Reads :
    (table : HighTable) (v : UtfValue) (found : RowValue)
    → Reads table v found
    → data_of table found ≡ bytes_of v
bytes-Reads table (UtfValue.uint16 v) found h = rw h refl
bytes-Reads table (UtfValue.uint32 v) found h = rw h refl
bytes-Reads table (UtfValue.uint64 v) found h = rw h refl
bytes-Reads table (UtfValue.string v) found h = rw h.1 refl
bytes-Reads table (UtfValue.data_bytes []) found (d, e, n, s) =
    let t : (d.length == 0) ≡ true = ground (arith, n) in rw (e, t) refl
bytes-Reads table (UtfValue.data_bytes (b ∷ bs)) found (d, e, n, s) =
    let t : (d.length == 0) ≡ false = ground (arith, n) in rw (e, t) s

-- A field of a row.
pub value-Reads :
    (t : UtfTableBuilder) (bytes : List ℕ) (table : HighTable) (r i : ℕ) (row : List UtfValue)
    (v : UtfValue)
    → IsReadBack t bytes table
    → get_elem? t.rows r ≡ some row
    → get_elem? row i ≡ some v
    → (found : RowValue) × (value table r i ≡ some found) × Reads table v found
unfolding value
value-Reads t bytes table r i row v h er ei =
    let line = AllPairs-get_elem? (AllPairs (Reads table)) t.rows table.rows r h.rows er in
    let field = AllPairs-get_elem? (Reads table) row line.0 i line.2 ei in
    (field.0, simp (value, line.1, field.1, present table i v field.0 field.2), field.2)

value_by_name-Reads :
    (t : UtfTableBuilder) (bytes : List ℕ) (table : HighTable) (r i : ℕ) (row : List UtfValue)
    (c : UtfColumn) (v : UtfValue)
    → IsReadBack t bytes table
    → get_elem? t.rows r ≡ some row
    → get_elem? row i ≡ some v
    → get_elem? t.columns i ≡ some c
    → IsFirst t.columns i c.name
    → (found : RowValue) × (value_by_name table r c.name ≡ some found) × Reads table v found
unfolding value_by_name column_index
value_by_name-Reads t bytes table r i row c v h er ei ec first =
    let column = find_column-IsFirst table c i t.columns table.columns 0 h.columns ec first in
    let from_zero : 0 + i ≡ i = omega arith in
    let field = value-Reads t bytes table r i row v h er ei in
    (field.0, simp (value_by_name, column_index, column, from_zero, field.1), field.2)

-- The look-ups by a name whose first column is known.
module _ (t : UtfTableBuilder) (bytes : List ℕ) (table : HighTable) (r i : ℕ) (row : List UtfValue)
    (name : Str) (v : UtfValue) (h : IsReadBack t bytes table) (er : get_elem? t.rows r ≡ some row)
    (ei : get_elem? row i ≡ some v) (ec : first_column name t.columns 0 ≡ some i) where
  named-Reads : (found : RowValue) × (value_by_name table r name ≡ some found) × Reads table v found
  unfolding value_by_name
  named-Reads =
      let field = value-Reads t bytes table r i row v h er ei in
      let column = column_index-first_column t bytes table name h ∙ ec in
      (field.0, simp (value_by_name, column, field.1), field.2)

  pub u64_by_name-cell : u64_by_name table r name ≡ number_of v
  unfolding u64_by_name
  u64_by_name-cell =
      (simp (u64_by_name, named-Reads.1)) ∙ number-Reads table v named-Reads.0 named-Reads.2

  pub data_by_name-cell : data_by_name table r name ≡ bytes_of v
  unfolding data_by_name
  data_by_name-cell =
      (simp (data_by_name, named-Reads.1)) ∙ bytes-Reads table v named-Reads.0 named-Reads.2

module _ (is_utf8 : Str → Bool) (decode_sjis : Str → Str) where
  -- In a table that was built and opened under the same conditions, the look-up of a column by its
  -- name, if no column before it has the same name, gives what was written in each row: the number
  -- of a numeric field and none for any other, and the bytes of a data field, an empty one being
  -- none.
  pub by_name-build :
      (t : UtfTableBuilder) (bytes : List ℕ) (r i : ℕ) (row : List UtfValue) (c : UtfColumn)
      (v : UtfValue)
      → is_utf8 [] ≡ true
      → IsWritable is_utf8 decode_sjis t
      → build t ≡ ok bytes
      → length bytes < 2 ^ 32
      → get_elem? t.rows r ≡ some row
      → get_elem? row i ≡ some v
      → get_elem? t.columns i ≡ some c
      → IsFirst t.columns i c.name
      → (table : HighTable) × (open_table is_utf8 decode_sjis bytes ≡ ok table)
        × (u64_by_name table r c.name ≡ number_of v)
        × (data_by_name table r c.name ≡ bytes_of v)
  unfolding u64_by_name data_by_name
  by_name-build t bytes r i row c v u w e lt er ei ec first =
      let opened = open_table-build is_utf8 decode_sjis t bytes u w e lt in
      let table = opened.0 in
      let found = value_by_name-Reads t bytes table r i row c v opened.2 er ei ec first in
      (
        table,
        opened.1,
        (simp (u64_by_name, found.1)) ∙ number-Reads table v found.0 found.2,
        (simp (data_by_name, found.1)) ∙ bytes-Reads table v found.0 found.2,
      )
