-- ===== src/Reader.antt =====
-- `CpkReader`: the rows of an ITOC and the offsets that follow from them.
pub mod Align
pub mod Itoc
pub mod Values
pub mod Metadata
pub mod Toc
pub mod Archive
use cri_archive_lib.Base.{
  ℕ, zero, suc, ◌+◌, ◌-◌, ◌*◌, ◌/◌, ◌%◌, ◌==◌, if◌then◌else◌, Option, none, some, List, [], ◌∷◌,
  Str,
}

pub data CpkReaderError : Type 0 where
  invalid_header_chunk missing_content_offset missing_file_name missing_file_size : CpkReaderError
  missing_file_offset missing_toc_and_itoc : CpkReaderError
  invalid_toc_column : Str → CpkReaderError
  invalid_itoc : CpkReaderError
  itoc_content_offset_too_large : ℕ → CpkReaderError
  file_too_large : ℕ → CpkReaderError
  get_files_not_called : CpkReaderError

pub record CpkFile : Type 0 where
  pub directory : Str
  pub file_name : Str
  pub file_offset : ℕ
  pub absolute_offset : ℕ
  pub file_size : ℕ
  pub extract_size : ℕ
  pub id : Option ℕ
  pub user_string : Str
  pub file_crc : Option ℕ

-- `CpkFile::new`
unfoldable pub new : Str → Str → ℕ → ℕ → ℕ → ℕ → Option ℕ → Str → Option ℕ → CpkFile
new directory file_name file_offset absolute_offset file_size extract_size id user_string file_crc =
    record {
      directory = directory;
      file_name = file_name;
      file_offset = file_offset;
      absolute_offset = absolute_offset;
      file_size = file_size;
      extract_size = if extract_size == 0 then file_size else extract_size;
      id = id;
      user_string = user_string;
      file_crc = file_crc;
    }
