-- ===== src/Schema/Names.antt =====
-- The names of the tables and of their columns, as bytes of ASCII. The part of a name behind the word
-- `name` is the source's name in small letters.
use cri_archive_lib.Base.{[], ◌∷◌, Str}

-- `UpdateDateTime`
abbrev pub name_update_date_time : Str
name_update_date_time =
    b'U' ∷ b'p' ∷ b'd' ∷ b'a' ∷ b't' ∷ b'e' ∷ b'D' ∷ b'a' ∷ b't' ∷ b'e' ∷ b'T' ∷ b'i' ∷ b'm' ∷ b'e'
    ∷ []

-- `FileSize`
abbrev pub name_file_size : Str
name_file_size = b'F' ∷ b'i' ∷ b'l' ∷ b'e' ∷ b'S' ∷ b'i' ∷ b'z' ∷ b'e' ∷ []

-- `ContentOffset`
abbrev pub name_content_offset : Str
name_content_offset =
    b'C' ∷ b'o' ∷ b'n' ∷ b't' ∷ b'e' ∷ b'n' ∷ b't' ∷ b'O' ∷ b'f' ∷ b'f' ∷ b's' ∷ b'e' ∷ b't' ∷ []

-- `ContentSize`
abbrev pub name_content_size : Str
name_content_size = b'C' ∷ b'o' ∷ b'n' ∷ b't' ∷ b'e' ∷ b'n' ∷ b't' ∷ b'S' ∷ b'i' ∷ b'z' ∷ b'e' ∷ []

-- `TocOffset`
abbrev pub name_toc_offset : Str
name_toc_offset = b'T' ∷ b'o' ∷ b'c' ∷ b'O' ∷ b'f' ∷ b'f' ∷ b's' ∷ b'e' ∷ b't' ∷ []

-- `TocSize`
abbrev pub name_toc_size : Str
name_toc_size = b'T' ∷ b'o' ∷ b'c' ∷ b'S' ∷ b'i' ∷ b'z' ∷ b'e' ∷ []

-- `EtocOffset`
abbrev pub name_etoc_offset : Str
name_etoc_offset = b'E' ∷ b't' ∷ b'o' ∷ b'c' ∷ b'O' ∷ b'f' ∷ b'f' ∷ b's' ∷ b'e' ∷ b't' ∷ []

-- `EtocSize`
abbrev pub name_etoc_size : Str
name_etoc_size = b'E' ∷ b't' ∷ b'o' ∷ b'c' ∷ b'S' ∷ b'i' ∷ b'z' ∷ b'e' ∷ []

-- `ItocOffset`
abbrev pub name_itoc_offset : Str
name_itoc_offset = b'I' ∷ b't' ∷ b'o' ∷ b'c' ∷ b'O' ∷ b'f' ∷ b'f' ∷ b's' ∷ b'e' ∷ b't' ∷ []

-- `ItocSize`
abbrev pub name_itoc_size : Str
name_itoc_size = b'I' ∷ b't' ∷ b'o' ∷ b'c' ∷ b'S' ∷ b'i' ∷ b'z' ∷ b'e' ∷ []

-- `GtocOffset`
abbrev pub name_gtoc_offset : Str
name_gtoc_offset = b'G' ∷ b't' ∷ b'o' ∷ b'c' ∷ b'O' ∷ b'f' ∷ b'f' ∷ b's' ∷ b'e' ∷ b't' ∷ []

-- `GtocSize`
abbrev pub name_gtoc_size : Str
name_gtoc_size = b'G' ∷ b't' ∷ b'o' ∷ b'c' ∷ b'S' ∷ b'i' ∷ b'z' ∷ b'e' ∷ []

-- `Files`
abbrev pub name_files : Str
name_files = b'F' ∷ b'i' ∷ b'l' ∷ b'e' ∷ b's' ∷ []

-- `Version`
abbrev pub name_version : Str
name_version = b'V' ∷ b'e' ∷ b'r' ∷ b's' ∷ b'i' ∷ b'o' ∷ b'n' ∷ []

-- `Revision`
abbrev pub name_revision : Str
name_revision = b'R' ∷ b'e' ∷ b'v' ∷ b'i' ∷ b's' ∷ b'i' ∷ b'o' ∷ b'n' ∷ []

-- `Align`
abbrev pub name_align : Str
name_align = b'A' ∷ b'l' ∷ b'i' ∷ b'g' ∷ b'n' ∷ []

-- `Sorted`
abbrev pub name_sorted : Str
name_sorted = b'S' ∷ b'o' ∷ b'r' ∷ b't' ∷ b'e' ∷ b'd' ∷ []

-- `EID`
abbrev pub name_eid : Str
name_eid = b'E' ∷ b'I' ∷ b'D' ∷ []

-- `EnableFileName`
abbrev pub name_enable_file_name : Str
name_enable_file_name =
    b'E' ∷ b'n' ∷ b'a' ∷ b'b' ∷ b'l' ∷ b'e' ∷ b'F' ∷ b'i' ∷ b'l' ∷ b'e' ∷ b'N' ∷ b'a' ∷ b'm' ∷ b'e'
    ∷ []

-- `CpkMode`
abbrev pub name_cpk_mode : Str
name_cpk_mode = b'C' ∷ b'p' ∷ b'k' ∷ b'M' ∷ b'o' ∷ b'd' ∷ b'e' ∷ []

-- `Tvers`
abbrev pub name_tvers : Str
name_tvers = b'T' ∷ b'v' ∷ b'e' ∷ b'r' ∷ b's' ∷ []

-- `Comment`
abbrev pub name_comment : Str
name_comment = b'C' ∷ b'o' ∷ b'm' ∷ b'm' ∷ b'e' ∷ b'n' ∷ b't' ∷ []

-- `Codec`
abbrev pub name_codec : Str
name_codec = b'C' ∷ b'o' ∷ b'd' ∷ b'e' ∷ b'c' ∷ []

-- `DpkItoc`
abbrev pub name_dpk_itoc : Str
name_dpk_itoc = b'D' ∷ b'p' ∷ b'k' ∷ b'I' ∷ b't' ∷ b'o' ∷ b'c' ∷ []

-- `EnableTocCrc`
abbrev pub name_enable_toc_crc : Str
name_enable_toc_crc =
    b'E' ∷ b'n' ∷ b'a' ∷ b'b' ∷ b'l' ∷ b'e' ∷ b'T' ∷ b'o' ∷ b'c' ∷ b'C' ∷ b'r' ∷ b'c' ∷ []

-- `EnableFileCrc`
abbrev pub name_enable_file_crc : Str
name_enable_file_crc =
    b'E' ∷ b'n' ∷ b'a' ∷ b'b' ∷ b'l' ∷ b'e' ∷ b'F' ∷ b'i' ∷ b'l' ∷ b'e' ∷ b'C' ∷ b'r' ∷ b'c' ∷ []

-- `DirName`
abbrev pub name_dir_name : Str
name_dir_name = b'D' ∷ b'i' ∷ b'r' ∷ b'N' ∷ b'a' ∷ b'm' ∷ b'e' ∷ []

-- `FileName`
abbrev pub name_file_name : Str
name_file_name = b'F' ∷ b'i' ∷ b'l' ∷ b'e' ∷ b'N' ∷ b'a' ∷ b'm' ∷ b'e' ∷ []

-- `ExtractSize`
abbrev pub name_extract_size : Str
name_extract_size = b'E' ∷ b'x' ∷ b't' ∷ b'r' ∷ b'a' ∷ b'c' ∷ b't' ∷ b'S' ∷ b'i' ∷ b'z' ∷ b'e' ∷ []

-- `FileOffset`
abbrev pub name_file_offset : Str
name_file_offset = b'F' ∷ b'i' ∷ b'l' ∷ b'e' ∷ b'O' ∷ b'f' ∷ b'f' ∷ b's' ∷ b'e' ∷ b't' ∷ []

-- `ID`
abbrev pub name_id : Str
name_id = b'I' ∷ b'D' ∷ []

-- `UserString`
abbrev pub name_user_string : Str
name_user_string = b'U' ∷ b's' ∷ b'e' ∷ b'r' ∷ b'S' ∷ b't' ∷ b'r' ∷ b'i' ∷ b'n' ∷ b'g' ∷ []

-- `FileCrc`
abbrev pub name_file_crc : Str
name_file_crc = b'F' ∷ b'i' ∷ b'l' ∷ b'e' ∷ b'C' ∷ b'r' ∷ b'c' ∷ []

-- `DataL`
abbrev pub name_data_l : Str
name_data_l = b'D' ∷ b'a' ∷ b't' ∷ b'a' ∷ b'L' ∷ []

-- `DataH`
abbrev pub name_data_h : Str
name_data_h = b'D' ∷ b'a' ∷ b't' ∷ b'a' ∷ b'H' ∷ []

-- `CpkHeader`
abbrev pub name_cpk_header : Str
name_cpk_header = b'C' ∷ b'p' ∷ b'k' ∷ b'H' ∷ b'e' ∷ b'a' ∷ b'd' ∷ b'e' ∷ b'r' ∷ []

-- `CpkTocInfo`
abbrev pub name_cpk_toc_info : Str
name_cpk_toc_info = b'C' ∷ b'p' ∷ b'k' ∷ b'T' ∷ b'o' ∷ b'c' ∷ b'I' ∷ b'n' ∷ b'f' ∷ b'o' ∷ []

-- `CpkItocInfo`
abbrev pub name_cpk_itoc_info : Str
name_cpk_itoc_info = b'C' ∷ b'p' ∷ b'k' ∷ b'I' ∷ b't' ∷ b'o' ∷ b'c' ∷ b'I' ∷ b'n' ∷ b'f' ∷ b'o' ∷ []

-- `CpkExtendId`
abbrev pub name_cpk_extend_id : Str
name_cpk_extend_id = b'C' ∷ b'p' ∷ b'k' ∷ b'E' ∷ b'x' ∷ b't' ∷ b'e' ∷ b'n' ∷ b'd' ∷ b'I' ∷ b'd' ∷ []

-- `CpkItocL`
abbrev pub name_cpk_itoc_l : Str
name_cpk_itoc_l = b'C' ∷ b'p' ∷ b'k' ∷ b'I' ∷ b't' ∷ b'o' ∷ b'c' ∷ b'L' ∷ []

-- `CpkItocH`
abbrev pub name_cpk_itoc_h : Str
name_cpk_itoc_h = b'C' ∷ b'p' ∷ b'k' ∷ b'I' ∷ b't' ∷ b'o' ∷ b'c' ∷ b'H' ∷ []
