-- ===== src/Reader/Metadata.antt =====
-- `CpkMetadata`, and `parse_metadata` of the table in the first chunk.
use cri_archive_lib.Base.{ℕ, leb, ◌==◌, not, if◌then◌else◌, Bool, Option, none, some, Str}
use cri_archive_lib.Schema.Names.{
  name_file_size, name_content_offset, name_content_size, name_toc_offset, name_toc_size,
  name_itoc_offset, name_itoc_size, name_etoc_offset, name_etoc_size, name_gtoc_offset,
  name_gtoc_size, name_version, name_revision, name_align, name_sorted, name_eid, name_files,
  name_cpk_mode, name_enable_file_name, name_update_date_time, name_codec, name_dpk_itoc,
  name_enable_toc_crc, name_enable_file_crc,
}
use cri_archive_lib.Schema.Table.{HighTable, u64_by_name}
use cri_archive_lib.Reader.Values.{unwrap_or, try_u32}

pub record CpkMetadata : Type 0 where
  pub file_size : ℕ
  pub content_offset : ℕ
  pub content_size : ℕ
  pub toc_offset : ℕ
  pub toc_size : ℕ
  pub itoc_offset : ℕ
  pub itoc_size : ℕ
  pub etoc_offset : ℕ
  pub etoc_size : ℕ
  pub gtoc_offset : ℕ
  pub gtoc_size : ℕ
  pub version : ℕ
  pub revision : ℕ
  pub align : ℕ
  pub sorted : Bool
  pub eid : ℕ
  pub files : ℕ
  pub cpk_mode : ℕ
  pub enable_file_name : Bool
  pub update_date_time : ℕ
  pub codec : ℕ
  pub dpk_itoc : ℕ
  pub enable_toc_crc : Bool
  pub enable_file_crc : Bool

-- `u16::try_from`
abbrev pub try_u16 : ℕ → Option ℕ
try_u16 v = if leb v 0xffff then some v else none

unfoldable pub parse_metadata : HighTable → CpkMetadata
parse_metadata table =
    let get = λ (name : Str). unwrap_or (u64_by_name table 0 name) 0 in
    record {
      file_size = get name_file_size;
      content_offset = get name_content_offset;
      content_size = get name_content_size;
      toc_offset = get name_toc_offset;
      toc_size = get name_toc_size;
      itoc_offset = get name_itoc_offset;
      itoc_size = get name_itoc_size;
      etoc_offset = get name_etoc_offset;
      etoc_size = get name_etoc_size;
      gtoc_offset = get name_gtoc_offset;
      gtoc_size = get name_gtoc_size;
      version = unwrap_or (try_u16 (get name_version)) 0;
      revision = unwrap_or (try_u16 (get name_revision)) 0;
      align = unwrap_or (try_u16 (get name_align)) 0;
      sorted = not (get name_sorted == 0);
      eid = unwrap_or (try_u16 (get name_eid)) 0;
      files = unwrap_or (try_u32 (get name_files)) 0;
      cpk_mode = unwrap_or (try_u32 (get name_cpk_mode)) 0;
      enable_file_name = not (get name_enable_file_name == 0);
      update_date_time = get name_update_date_time;
      codec = unwrap_or (try_u32 (get name_codec)) 0;
      dpk_itoc = unwrap_or (try_u32 (get name_dpk_itoc)) 0;
      enable_toc_crc = not (get name_enable_toc_crc == 0);
      enable_file_crc = not (get name_enable_file_crc == 0);
    }
