-- ===== src/Schema/Header.antt =====
-- `TableHeader`: the first 32 bytes of a table, with the fields read from them when asked for.
use cri_archive_lib.Base.{
  ℕ, ◌+◌, ◌==◌, min, if◌then◌else◌, List, ◌++◌, take, drop, replicate, get_or,
}
use cri_archive_lib.Base.Bytes.{from_be}
use cri_archive_lib.Strings.{StringEncoding, shift_jis, utf8}

abbrev pub header_size : ℕ
header_size = 0x20

abbrev pub header_offset : ℕ
header_offset = 0x8

pub record TableHeader : Type 0 where
  pub bytes : List ℕ

-- A shorter file leaves zeros.
unfoldable pub new : List ℕ → TableHeader
new file = record { bytes = take header_size (file ++ replicate {A = ℕ} header_size 0) }

-- `from_slice!(&self.bytes, u16, offset)`
abbrev pub u16_at : TableHeader → ℕ → ℕ
u16_at h offset = from_be (take 2 (drop offset h.bytes))

abbrev pub u32_at : TableHeader → ℕ → ℕ
u32_at h offset = from_be (take 4 (drop offset h.bytes))

-- `u32::saturating_add`
abbrev pub saturating_add : ℕ → ℕ → ℕ
saturating_add a b = min (a + b) 0xffffffff

unfoldable pub size : TableHeader → ℕ
size h = u32_at h 0x4

-- `From<u8>` of `StringEncoding`
unfoldable pub from_code : ℕ → StringEncoding
from_code code = if code == 0 then shift_jis else utf8

unfoldable pub encoding : TableHeader → StringEncoding
encoding h = from_code (get_or h.bytes 0x9 0)

unfoldable pub rows_offset : TableHeader → ℕ
rows_offset h = u16_at h 0xa + header_offset

unfoldable pub string_pool_offset : TableHeader → ℕ
string_pool_offset h = saturating_add (u32_at h 0xc) header_offset

unfoldable pub data_pool_offset : TableHeader → ℕ
data_pool_offset h = saturating_add (u32_at h 0x10) header_offset

unfoldable pub column_count : TableHeader → ℕ
column_count h = u16_at h 0x18

unfoldable pub row_size : TableHeader → ℕ
row_size h = u16_at h 0x1a

unfoldable pub row_count : TableHeader → ℕ
row_count h = u32_at h 0x1c
