-- ===== src/Header.antt =====
-- The chunks of an archive: `CpkChunkKind` and `TableContainer::new` of the reader, and `build_chunk` of
-- the writer. A stream is the list of the bytes that are left.
pub mod RoundTrip
pub mod Examples
use cri_archive_lib.Base.{
  ℕ, zero, suc, ◌+◌, ◌-◌, ◌^◌, ltb, leb, ◌==◌, ◌&&◌, not, if◌then◌else◌, Bool, true, false,
}
use cri_archive_lib.Base.{
  List, [], ◌∷◌, ◌++◌, length, take, drop, get_or, Result, ok, err, ensure, ◌>>=◌, ◌>>◌,
}
use cri_archive_lib.Base.Bytes.{from_le, to_le}
use cri_archive_lib.Encrypt.Table.{starts_with, decrypt_from, utf_magic}

abbrev pub cpk_chunk_header_size : ℕ
cpk_chunk_header_size = 0x10

abbrev pub header_size : ℕ
header_size = 0x20

pub data CpkChunkKind : Type 0 where
  cpk toc itoc etoc gtoc : CpkChunkKind
  unknown : List ℕ → CpkChunkKind

-- Slices of the same bytes.
pub same_bytes : List ℕ → List ℕ → Bool
same_bytes [] [] = true
same_bytes [] (y ∷ ys) = false
same_bytes (x ∷ xs) [] = false
same_bytes (x ∷ xs) (y ∷ ys) = (x == y) && same_bytes xs ys

unfoldable pub magic : CpkChunkKind → List ℕ
magic cpk = 0x43 ∷ 0x50 ∷ 0x4b ∷ 0x20 ∷ []
magic toc = 0x54 ∷ 0x4f ∷ 0x43 ∷ 0x20 ∷ []
magic itoc = 0x49 ∷ 0x54 ∷ 0x4f ∷ 0x43 ∷ []
magic etoc = 0x45 ∷ 0x54 ∷ 0x4f ∷ 0x43 ∷ []
magic gtoc = 0x47 ∷ 0x54 ∷ 0x4f ∷ 0x43 ∷ []
magic (unknown bytes) = bytes

pub from_magic : List ℕ → CpkChunkKind
from_magic bytes =
    if same_bytes bytes (0x43 ∷ 0x50 ∷ 0x4b ∷ 0x20 ∷ [])
    then cpk
    else (if same_bytes bytes (0x54 ∷ 0x4f ∷ 0x43 ∷ 0x20 ∷ [])
        then toc
        else (if same_bytes bytes (0x49 ∷ 0x54 ∷ 0x4f ∷ 0x43 ∷ [])
            then itoc
            else (if same_bytes bytes (0x45 ∷ 0x54 ∷ 0x4f ∷ 0x43 ∷ [])
                then etoc
                else (if same_bytes bytes (0x47 ∷ 0x54 ∷ 0x4f ∷ 0x43 ∷ [])
                    then gtoc
                    else unknown bytes))))

abbrev pub is_cpk : CpkChunkKind → Bool
is_cpk cpk = true
is_cpk kind = false

-- The errors of `TableContainer::new`, one for each message.
pub data TableError : Type 0 where
  unexpected_eof invalid_size header_area truncated no_utf_table : TableError

pub record TableContainer : Type 0 where
  pub kind : CpkChunkKind
  pub table : List ℕ

-- The loop of `TableDecryptor`, written out again.
pub decrypt_utf_scalar : List ℕ → List ℕ
decrypt_utf_scalar input = decrypt_from 0x5f input

-- The end of `new`: the table is decrypted where the byte at 4 is zero.
pub open_table : CpkChunkKind → ℕ → List ℕ → Result TableError TableContainer
open_table kind flag bytes =
    let table = if flag == 0 then decrypt_utf_scalar bytes else bytes in
    ensure (starts_with table utf_magic) no_utf_table >> ok (record { kind = kind; table = table })

pub new : List ℕ → Result TableError TableContainer
new stream =
    let chunk_header = take cpk_chunk_header_size stream in
    let kind = from_magic (take 4 chunk_header) in
    let table_size = from_le (take 8 (drop 8 chunk_header)) in
    let body = drop cpk_chunk_header_size stream in
    ensure (leb cpk_chunk_header_size (length stream)) unexpected_eof
    >> (ensure (leb header_size table_size) invalid_size
        >> (ensure (not (is_cpk kind && ltb 0x800 (table_size + cpk_chunk_header_size))) header_area
            >> (ensure (leb table_size (length body)) truncated
                >> open_table kind (get_or chunk_header 4 0) (take table_size body))))

-- A nonzero byte at 4 says that the table is stored as it is.
unfoldable pub build_chunk : CpkChunkKind → List ℕ → List ℕ
build_chunk kind table =
    magic kind ++ (0xff ∷ 0xff ∷ 0xff ∷ 0xff ∷ []) ++ to_le 8 (length table) ++ table
