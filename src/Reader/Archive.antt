-- ===== src/Reader/Archive.antt =====
-- `CpkReader`: `get_files` with `read_toc` and `read_itoc`, and the reading of a packed file. The
-- stream is the list of all its bytes, and a seek drops bytes from it.
use cri_archive_lib.Base.{
  ℕ, leb, ◌==◌, not, if◌then◌else◌, Bool, true, false, Option, some, List, [], ◌∷◌, ◌++◌, drop, Str,
}
use cri_archive_lib.Base.{Result, ok, err, ok_or, ensure, map_err, ◌>>=◌, ◌>>◌, checked_add}
use cri_archive_lib.Header.{CpkChunkKind, is_cpk, TableError, TableContainer}
use cri_archive_lib.Header
use cri_archive_lib.Schema.{SchemaError, read_exact}
use cri_archive_lib.Schema.Names.{name_data_l, name_data_h}
use cri_archive_lib.Schema.Table.{HighTable, open_table, data_by_name}
use cri_archive_lib.Reader.{
  CpkReaderError, invalid_header_chunk, missing_content_offset, missing_file_offset, invalid_itoc,
  missing_toc_and_itoc, itoc_content_offset_too_large, get_files_not_called, CpkFile,
}
use cri_archive_lib.Reader.Itoc.{ItocRow, merge_rows}
use cri_archive_lib.Reader.Values.{collect_itoc_rows}
use cri_archive_lib.Reader.Toc.{read_toc_table}
use cri_archive_lib.Reader.Metadata.{CpkMetadata, parse_metadata}

-- An error of a chunk, of a table, or of the reader itself.
pub data ReadError : Type 0 where
  chunk : TableError → ReadError
  schema : SchemaError → ReadError
  reader : CpkReaderError → ReadError

pub record CpkReader : Type 0 where
  pub stream : List ℕ
  pub start_pos : ℕ
  pub metadata : Option CpkMetadata

abbrev pub is_toc : CpkChunkKind → Bool
is_toc CpkChunkKind.toc = true
is_toc kind = false

abbrev pub is_itoc : CpkChunkKind → Bool
is_itoc CpkChunkKind.itoc = true
is_itoc kind = false

abbrev pub is_empty {ℓ} : {A : Type ℓ} → List A → Bool
is_empty [] = true
is_empty (x ∷ xs) = false

-- `seek(start_pos + offset)`: the bytes from there on.
unfoldable pub seek_to : CpkReader → ℕ → Result ReadError (List ℕ)
seek_to r offset =
    ok_or (checked_add r.start_pos offset) (reader missing_file_offset) >>= λ position.
    ok (drop position r.stream)

module _ (is_utf8 : Str → Bool) (decode_sjis : Str → Str) where
  -- A chunk of the kind that is wanted, and its table.
  unfoldable pub open_chunk : (CpkChunkKind → Bool) → List ℕ → Result ReadError HighTable
  open_chunk is_kind stream = map_err chunk (Header.new stream) >>= λ container.
      ensure (is_kind container.kind) (reader invalid_header_chunk)
      >> map_err schema (open_table is_utf8 decode_sjis container.table)

  unfoldable pub read_toc : CpkReader → CpkMetadata → Result ReadError (List CpkFile)
  read_toc r m = seek_to r m.toc_offset >>= λ stream.
      open_chunk is_toc stream >>= λ toc. map_err reader (read_toc_table toc)

  -- The rows of the nested tables.
  unfoldable pub read_nested : HighTable → Result ReadError (List ItocRow)
  read_nested itoc = ok_or (data_by_name itoc 0 name_data_l) (reader invalid_itoc) >>= λ data_l.
      ok_or (data_by_name itoc 0 name_data_h) (reader invalid_itoc) >>= λ data_h.
      map_err schema (open_table is_utf8 decode_sjis data_l) >>= λ low.
      map_err schema (open_table is_utf8 decode_sjis data_h) >>= λ high.
      map_err reader (collect_itoc_rows low) >>= λ low_rows.
      map_err reader (collect_itoc_rows high) >>= λ high_rows. ok (low_rows ++ high_rows)

  -- `read_itoc`, from the opened table on.
  unfoldable pub read_itoc_table : ℕ → ℕ → ℕ → HighTable → Result ReadError (List CpkFile)
  read_itoc_table content_offset align eid itoc =
      (if not (eid == 0) then map_err reader (collect_itoc_rows itoc) else read_nested itoc)
      >>= λ rows. map_err reader (merge_rows content_offset align rows)

  unfoldable pub read_itoc : CpkReader → CpkMetadata → Result ReadError (List CpkFile)
  read_itoc r m =
      ensure (not (m.content_offset == 0)) (reader missing_content_offset)
      >> (ensure (leb m.content_offset 0xffffffff)
            (reader (itoc_content_offset_too_large m.content_offset))
          >> (seek_to r m.itoc_offset >>= λ stream. open_chunk is_itoc stream >>= λ itoc.
              read_itoc_table m.content_offset m.align m.eid itoc))

  -- The metadata of the archive, from its first chunk.
  unfoldable pub read_metadata : CpkReader → Result ReadError CpkMetadata
  read_metadata r = open_chunk is_cpk (drop r.start_pos r.stream) >>= λ cpk_table.
      ensure (not (is_empty cpk_table.rows)) (reader invalid_header_chunk)
      >> ok (parse_metadata cpk_table)

  unfoldable pub read_index : CpkReader → CpkMetadata → Result ReadError (List CpkFile)
  read_index r m =
      if not (m.toc_offset == 0)
      then read_toc r m
      else (if not (m.itoc_offset == 0) then read_itoc r m else err (reader missing_toc_and_itoc))

  -- The metadata is kept, also when the files cannot be read.
  unfoldable pub get_files : CpkReader → CpkReader × Result ReadError (List CpkFile)
  get_files r = elim (read_metadata r) [
    | err e ↦ (r, err e)
    | ok m ↦ let r' = record r { metadata = some m } in (r', read_index r' m)
  ]

-- `read_packed_file`
unfoldable pub read_packed_file : CpkReader → CpkFile → Result ReadError (List ℕ)
read_packed_file r file = ok_or r.metadata (reader get_files_not_called) >>= λ m.
    seek_to r file.absolute_offset >>= λ stream.
    map_err schema (read_exact file.file_size stream) >>= λ output. ok output.0

-- `extract_file_with_packed`, with the decryptor of the reader and the decompressor of CriLAYLA.
module _ (is_encrypted : CpkFile → List ℕ → Bool) (decrypt_in_place : List ℕ → List ℕ)
    (is_compressed : List ℕ → Bool) (decompress : List ℕ → List ℕ) where
  unfoldable pub extract_file_with_packed : CpkReader → CpkFile → Result ReadError (List ℕ × List ℕ)
  extract_file_with_packed r file = read_packed_file r file >>= λ packed.
      let plain = if is_encrypted file packed then decrypt_in_place packed else packed in
      ok (packed, if is_compressed plain then decompress plain else plain)

  unfoldable pub extract_file : CpkReader → CpkFile → Result ReadError (List ℕ)
  extract_file r file = extract_file_with_packed r file >>= λ both. ok both.1
