-- ===== src/Archive/Chunks.antt =====
-- A chunk and a payload that stand in an archive, as the reader gets them.
use cri_archive_lib.Base.{
  ℕ, zero, suc, ◌+◌, ◌^◌, ◌<◌, ◌≤◌, ◌≡◌, refl, ◌∙◌, ap, arith, Bool, true, false, ltb, not, ◌&&◌,
  ◌||◌, List, [], ◌∷◌, length, take, drop, Str, some, ok, inl, inr, ensure-inv, checked_add-fits,
}
use cri_archive_lib.Encrypt.Table.{starts_with, utf_magic}
use cri_archive_lib.Header.{CpkChunkKind, magic, from_magic, is_cpk, build_chunk}
use cri_archive_lib.Header.RoundTrip.{IsStorable, new-build_chunk, from_magic-magic}
use cri_archive_lib.Schema.{invalid_table, read_exact}
use cri_archive_lib.Schema.Header.{header_size}
use cri_archive_lib.Schema.Table.{HighTable, open_table}
use cri_archive_lib.Writer.Archive.Head.{HasAt, HasAt-drop}
use cri_archive_lib.Reader.{CpkFile}
use cri_archive_lib.Reader.Metadata.{CpkMetadata}
use cri_archive_lib.Reader.Archive.{CpkReader, open_chunk, seek_to, read_packed_file}

both_false : (a b : Bool) → not (a || not b) ≡ true → (a ≡ false) × (b ≡ true)
both_false false true h = (refl, refl)
both_false false false h = cc
both_false true b h = cc

-- The kinds of the chunks that are written are told by their magic.
pub named_cpk : from_magic (magic CpkChunkKind.cpk) ≡ CpkChunkKind.cpk
named_cpk = elim (from_magic-magic CpkChunkKind.cpk) [ inl e ↦ e | inr u ↦ cc ]

pub named_toc : from_magic (magic CpkChunkKind.toc) ≡ CpkChunkKind.toc
named_toc = elim (from_magic-magic CpkChunkKind.toc) [ inl e ↦ e | inr u ↦ cc ]

pub named_itoc : from_magic (magic CpkChunkKind.itoc) ≡ CpkChunkKind.itoc
named_itoc = elim (from_magic-magic CpkChunkKind.itoc) [ inl e ↦ e | inr u ↦ cc ]

module _ (is_utf8 : Str → Bool) (decode_sjis : Str → Str) where
  -- A table that is opened has a whole header.
  open_table-starts :
      (bytes : List ℕ) {table : HighTable}
      → open_table is_utf8 decode_sjis bytes ≡ ok table
      → (header_size ≤ length bytes) × (starts_with bytes utf_magic ≡ true)
  unfolding open_table
  open_table-starts bytes h =
      let a =
        ensure-inv (not (ltb (length bytes) header_size || not (starts_with bytes utf_magic)))
          invalid_table _ h in
      let b = both_false (ltb (length bytes) header_size) (starts_with bytes utf_magic) a.0 in
      let t = b.0 in (ground arith, b.1)

  -- A chunk of the kind that is wanted, whose table can be opened.
  pub open_chunk-build :
      (is_kind : CpkChunkKind → Bool) (kind : CpkChunkKind) (bytes out : List ℕ) (offset : ℕ)
      (table : HighTable)
      → is_kind kind ≡ true
      → from_magic (magic kind) ≡ kind
      → length (magic kind) ≡ 4
      → (is_cpk kind && ltb 0x800 (length bytes + 0x10)) ≡ false
      → length bytes < 2 ^ 32
      → open_table is_utf8 decode_sjis bytes ≡ ok table
      → HasAt offset (build_chunk kind bytes) out
      → open_chunk is_utf8 decode_sjis is_kind (drop offset out) ≡ ok table
  unfolding open_chunk
  open_chunk-build is_kind kind bytes out offset table k same four area lt opened at =
      let s = open_table-starts bytes opened in
      let storable : IsStorable kind bytes = (s.0, omega (arith, lt), area) in
      rw (HasAt-drop at, new-build_chunk kind bytes at.more same four storable s.1, k, opened) refl

read_exact-take :
    (n : ℕ) (stream : List ℕ)
    → length (take n stream) ≡ n
    → read_exact n stream ≡ ok (take n stream, drop n stream)
unfolding read_exact
read_exact-take zero stream h = refl
read_exact-take (suc n) [] h = absurd (omega (arith, h))
read_exact-take (suc n) (b ∷ stream) h = rw (read_exact-take n stream (omega (arith, h))) refl

-- A reader that has read the index of an archive that begins the stream.
abbrev pub reader_of : List ℕ → CpkMetadata → CpkReader
reader_of out m = record { stream = out; start_pos = 0; metadata = some m }

pub seek_to-start :
    (r : CpkReader) (offset : ℕ)
    → r.start_pos ≡ 0
    → offset < 2 ^ 64
    → seek_to r offset ≡ ok (drop offset r.stream)
unfolding seek_to
seek_to-start r offset start lt =
    let e : 0 + offset ≡ offset = omega arith in
    let fits = checked_add-fits 0 offset (rw e lt) in rw (start, fits, e) refl

-- The bytes at the offset of a file, as many as its size says.
pub read_packed_file-slice :
    (out body : List ℕ) (m : CpkMetadata) (file : CpkFile)
    → file.absolute_offset < 2 ^ 64
    → length body ≡ file.file_size
    → take file.file_size (drop file.absolute_offset out) ≡ body
    → read_packed_file (reader_of out m) file ≡ ok body
unfolding read_packed_file
read_packed_file-slice out body m file lt n e =
    let stream = drop file.absolute_offset out in
    let read = read_exact-take file.file_size stream (ap length e ∙ n) in
    rw (seek_to-start (reader_of out m) file.absolute_offset refl lt, read) (ap ok e)
