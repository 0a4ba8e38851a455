-- ===== src/Writer/Utf/Pools.antt =====
-- The two pools of a table that is built: the strings, and the bytes of its data fields with the
-- place of each.
use cri_archive_lib.Base.{
  ℕ, suc, ◌^◌, ◌==◌, ltb, ◌&&◌, if◌then◌else◌, Option, none, some, List, [], ◌∷◌, ◌++◌, length,
}
use cri_archive_lib.Base.{Result, ok, ensure, ◌>>=◌, ◌>>◌}
use cri_archive_lib.Strings.{Pool, entry, intern_string}
use cri_archive_lib.Writer.{CpkWriterError, arithmetic_overflow}
use cri_archive_lib.Writer.Itoc.{UtfValue}
use cri_archive_lib.Writer.Utf.{UtfColumn}

-- The empty string stands at offset 0.
abbrev pub null_pool : Pool
null_pool = record { pool = 0 ∷ []; offsets = entry 0 [] ∷ [] }

unfoldable pub intern_names : List UtfColumn → Pool → Result CpkWriterError (List ℕ × Pool)
intern_names [] p = ok ([], p)
intern_names (c ∷ cs) p =
    intern_string c.name p >>= λ r. intern_names cs r.1 >>= λ rs. ok (r.0 ∷ rs.0, rs.1)

unfoldable pub intern_value : UtfValue → Pool → Result CpkWriterError Pool
intern_value (UtfValue.string s) p = intern_string s p >>= λ r. ok r.1
intern_value v p = ok p

unfoldable pub intern_row : List UtfValue → Pool → Result CpkWriterError Pool
intern_row [] p = ok p
intern_row (v ∷ vs) p = intern_value v p >>= λ q. intern_row vs q

unfoldable pub intern_rows : List (List UtfValue) → Pool → Result CpkWriterError Pool
intern_rows [] p = ok p
intern_rows (row ∷ rows) p = intern_row row p >>= λ q. intern_rows rows q

-- Where a field's bytes stand in the pool.
pub record Location : Type 0 where
  pub offset : ℕ
  pub length : ℕ

-- `data_pool` and `data_locations`, a map from row and column.
pub record DataPool : Type 0 where
  pub bytes : List ℕ
  pub locations : ℕ → ℕ → Option Location

abbrev pub empty_data : DataPool
empty_data = record { bytes = []; locations = λ r c. none }

unfoldable pub place_value : ℕ → ℕ → UtfValue → DataPool → Result CpkWriterError DataPool
place_value row_index column_index (UtfValue.data_bytes value) p =
    ensure (ltb (length p.bytes) (2 ^ 32)) arithmetic_overflow
    >> (ensure (ltb (length value) (2 ^ 32)) arithmetic_overflow
        >> ok (record {
          bytes = p.bytes ++ value;
          locations = λ r c.
              if (r == row_index) && (c == column_index)
              then some (record { offset = length p.bytes; length = length value })
              else p.locations r c;
        }))
place_value row_index column_index v p = ok p

unfoldable pub place_row : ℕ → ℕ → List UtfValue → DataPool → Result CpkWriterError DataPool
place_row row_index column_index [] p = ok p
place_row row_index column_index (v ∷ vs) p =
    place_value row_index column_index v p >>= λ q. place_row row_index (suc column_index) vs q

unfoldable pub place_rows : ℕ → List (List UtfValue) → DataPool → Result CpkWriterError DataPool
place_rows row_index [] p = ok p
place_rows row_index (row ∷ rows) p =
    place_row row_index 0 row p >>= λ q. place_rows (suc row_index) rows q
