-- ===== src/Writer.antt =====
-- `CpkWriter`: its errors, its input and its options. A string and a path are lists of bytes.
pub mod Align
pub mod Order
pub mod Layout
pub mod Itoc
pub mod Output
pub mod Utf
pub mod Tables
pub mod Archive
use cri_archive_lib.Base.{ℕ, Bool, true, false, Option, none, some, List, [], ◌∷◌, Str}

pub data CpkWriterError : Type 0 where
  invalid_alignment : ℕ → CpkWriterError
  empty_input : CpkWriterError
  header_too_large : ℕ → CpkWriterError
  file_too_large : Str → ℕ → CpkWriterError
  too_many_files : ℕ → CpkWriterError
  non_utf8_path : Str → CpkWriterError
  unsupported_p5r_encryption : CpkWriterError
  arithmetic_overflow : CpkWriterError
  duplicate_itoc_id : ℕ → CpkWriterError
  itoc_id_too_large : ℕ → CpkWriterError
  itoc_content_offset_too_large : ℕ → CpkWriterError
  invalid_raw_payload : Str → CpkWriterError

pub data CpkIndexMode : Type 0 where
  toc itoc toc_and_itoc : CpkIndexMode

abbrev pub has_toc : CpkIndexMode → Bool
has_toc toc = true
has_toc itoc = false
has_toc toc_and_itoc = true

abbrev pub has_itoc : CpkIndexMode → Bool
has_itoc toc = false
has_itoc itoc = true
has_itoc toc_and_itoc = true

abbrev pub cpk_mode : CpkIndexMode → ℕ
cpk_mode itoc = 0
cpk_mode toc = 1
cpk_mode toc_and_itoc = 2

pub record CpkRawPayload : Type 0 where
  pub archive_path : Str
  pub absolute_offset : ℕ
  pub size : ℕ

pub record CpkInputFile : Type 0 where
  pub directory : Str
  pub file_name : Str
  pub source_path : Str
  pub size : ℕ
  pub extract_size : ℕ
  pub id : ℕ
  pub user_string : Str
  pub raw_payload : Option CpkRawPayload

pub record CpkWriterProfile : Type 0 where
  pub index_mode : CpkIndexMode
  pub direct_itoc : Bool
  pub version : ℕ
  pub revision : ℕ
  pub update_date_time : ℕ
  pub tvers : Str
  pub comment : Str

pub record CpkWriteReport : Type 0 where
  pub files : ℕ
  pub toc_offset : ℕ
  pub itoc_offset : ℕ
  pub content_offset : ℕ
  pub archive_size : ℕ
