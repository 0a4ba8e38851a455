-- ===== src/Utf/ReadBack.antt =====
-- What the reader has of a table that was written.
use cri_archive_lib.Base.{
  ℕ, ◌+◌, ◌-◌, ◌^◌, ◌<◌, ◌≡◌, refl, sym, ◌∙◌, ap, arith, bit_or, Bool, true, leb, none,
}
use cri_archive_lib.Base.{
  List, [], ◌∷◌, length, take, drop, drop-drop, Str, AllPairs, some, some-inj, checked_add-fits,
}
use cri_archive_lib.Strings.{Pool, get_string, find_value}
use cri_archive_lib.Strings.RoundTrip.{entries}
use cri_archive_lib.Schema.Values.{RowValue}
use cri_archive_lib.Schema.Header.{data_pool_offset}
use cri_archive_lib.Schema.Columns.{Column}
use cri_archive_lib.Schema.Table.{HighTable, data_slice}
use cri_archive_lib.Writer.Itoc.{UtfValue}
use cri_archive_lib.Writer.Utf.{UtfColumn, UtfTableBuilder, type_code}
use cri_archive_lib.Writer.Utf.Pools.{Location}
use cri_archive_lib.Writer.Utf.Build.{Pools}
use cri_archive_lib.Utf.{columns_for, Reads}
use cri_archive_lib.Utf.Interned.{IsSound, find_value-get_string}
use cri_archive_lib.Utf.Placed.{Stands}
use cri_archive_lib.Utf.Fields.{Holds}

-- A column with its name and its type.
abbrev pub Names : HighTable → UtfColumn → Column → Type 0
Names table c found =
    (get_string found.string_offset table.strings ≡ some c.name)
    × (found.flag ≡ bit_or 0x50 (type_code c.value_type))
    × (found.default ≡ none)

-- What the reader has of a table.
pub record IsReadBack (t : UtfTableBuilder) (bytes : List ℕ) (table : HighTable) : Type 0 where
  pub alloc : table.alloc ≡ bytes
  pub columns : AllPairs (Names table) t.columns table.columns
  pub rows : AllPairs (AllPairs (Reads table)) t.rows table.rows
  pub null_string : get_string 0 table.strings ≡ some []

module _ (is_utf8 : Str → Bool) (decode_sjis : Str → Str) where
  pub Names-AllPairs :
      (table : HighTable) (p : Pool) (s : IsSound is_utf8 decode_sjis p)
      → table.strings ≡ entries 0 s.strings
      → (cs : List UtfColumn) (os : List ℕ)
      → AllPairs (λ (c : UtfColumn) (o : ℕ). find_value c.name p.offsets ≡ some o) cs os
      → AllPairs (Names table) cs (columns_for cs os)
  Names-AllPairs table p s e [] os h = tt
  Names-AllPairs table p s e (c ∷ cs) [] h = h
  Names-AllPairs table p s e (c ∷ cs) (o ∷ os) h = (
    (ap (get_string o) e ∙ find_value-get_string is_utf8 decode_sjis c.name o p s h.0, refl, refl),
    Names-AllPairs table p s e cs os h.1,
  )

  module _ (table : HighTable) (p : Pools) (sound : IsSound is_utf8 decode_sjis p.strings)
      (strings : table.strings ≡ entries 0 sound.strings)
      (null : find_value [] p.strings.offsets ≡ some 0) (start : ℕ)
      (at : data_pool_offset table.header ≡ start)
      (behind : drop start table.alloc ≡ p.data_pool.bytes)
      (whole : start + length p.data_pool.bytes ≡ length table.alloc)
      (bound : length table.alloc < 2 ^ 64) where
    slice-Stands :
        (l : Location) (v : List ℕ)
        → Stands p.data_pool.bytes l v
        → data_slice table (record { offset = l.offset; length = l.length }) ≡ some v
    unfolding data_slice
    slice-Stands l v s =
        let e = checked_add-fits (data_pool_offset table.header) l.offset (omega (arith, at)) in
        let f =
          checked_add-fits (data_pool_offset table.header + l.offset) l.length
            (omega (arith, at)) in
        let t : leb (data_pool_offset table.header + l.offset + l.length) (length table.alloc)
            ≡ true =
          ground (arith, at, whole) in
        let n : data_pool_offset table.header
              + l.offset
              + l.length
              - (data_pool_offset table.header + l.offset)
            ≡ l.length =
          omega arith in
        let slice : take l.length (drop (data_pool_offset table.header + l.offset) table.alloc)
            ≡ v =
          ap (λ (k : ℕ). take l.length (drop (k + l.offset) table.alloc)) at
          ∙ ap (take l.length) (sym (drop-drop start l.offset table.alloc))
          ∙ ap (λ (x : List ℕ). take l.length (drop l.offset x)) behind
          ∙ s.slice in
        simp (data_slice, e, f, t, n, slice)

    Holds-Reads : (v : UtfValue) (found : RowValue) → Holds p v found → Reads table v found
    Holds-Reads (UtfValue.uint16 v) found h = h
    Holds-Reads (UtfValue.uint32 v) found h = h
    Holds-Reads (UtfValue.uint64 v) found h = h
    Holds-Reads (UtfValue.string s) found (o, e, f) = (
      o,
      e,
      ap (get_string o) strings ∙ find_value-get_string is_utf8 decode_sjis s o p.strings sound f,
      λ empty. some-inj (sym f ∙ ap (λ (v : Str). find_value v p.strings.offsets) empty ∙ null),
    )
    Holds-Reads (UtfValue.data_bytes v) found (l, e, s) =
        (record { offset = l.offset; length = l.length }, e, s.size, slice-Stands l v s)

    row-Reads :
        (vs : List UtfValue) (row : List RowValue)
        → AllPairs (Holds p) vs row
        → AllPairs (Reads table) vs row
    row-Reads [] [] h = tt
    row-Reads [] (x ∷ row) h = h
    row-Reads (v ∷ vs) [] h = h
    row-Reads (v ∷ vs) (x ∷ row) h = (Holds-Reads v x h.0, row-Reads vs row h.1)

    pub rows-Reads :
        (vs : List (List UtfValue)) (rows : List (List RowValue))
        → AllPairs (AllPairs (Holds p)) vs rows
        → AllPairs (AllPairs (Reads table)) vs rows
    rows-Reads [] [] h = tt
    rows-Reads [] (x ∷ rows) h = h
    rows-Reads (v ∷ vs) [] h = h
    rows-Reads (v ∷ vs) (x ∷ rows) h = (row-Reads v x h.0, rows-Reads vs rows h.1)
