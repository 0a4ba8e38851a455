-- ===== src/Schema.antt =====
-- The reader of @UTF tables (cri-archive-lib/src/schema, and `HighTable` of cri-archive-lib/src/cpk/header.rs).
-- A cursor is the list of the bytes that are left, and a seek drops bytes from the whole of the
-- table.
pub mod Values
pub mod Header
pub mod Columns
pub mod Rows
pub mod Table
pub mod Names
use cri_archive_lib.Base.{ℕ, zero, suc, List, [], ◌∷◌, Result, ok, err, ◌>>=◌}
use cri_archive_lib.Strings.{PoolError}

-- One for each message.
pub data SchemaError : Type 0 where
  unexpected_eof unsupported_type row_offset_overflow : SchemaError
  invalid_table size_overflow truncated invalid_sections rows_overflow : SchemaError
  rows_overlap_strings columns_overlap_rows schema_overflow schema_exceeds_row_size : SchemaError
  bad_strings : PoolError → SchemaError

-- `read_exact` into a buffer of `n` bytes: the buffer and what is left.
unfoldable pub read_exact : ℕ → List ℕ → Result SchemaError (List ℕ × List ℕ)
read_exact zero stream = ok ([], stream)
read_exact (suc n) [] = err unexpected_eof
read_exact (suc n) (b ∷ stream) = read_exact n stream >>= λ r. ok (b ∷ r.0, r.1)
