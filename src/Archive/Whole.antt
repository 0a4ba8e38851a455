-- ===== src/Archive/Whole.antt =====
-- A whole archive, from `write_with_profile` to `get_files` and `read_packed_file`.
use cri_archive_lib.Base.{
  ℕ, ◌+◌, ◌^◌, ◌<◌, ◌≤◌, ◌≡◌, refl, sym, ◌∙◌, arith, subst, Bool, true, false, ltb, not,
}
use cri_archive_lib.Base.{
  Option, none, some, List, [], ◌∷◌, length, take, drop, map, Str, All, ok, ok-inj,
}
use cri_archive_lib.Header.{CpkChunkKind, is_cpk, magic, build_chunk}
use cri_archive_lib.Strings.RoundTrip.{IsPlain}
use cri_archive_lib.Writer.{CpkInputFile, CpkWriterProfile, has_toc, has_itoc}
use cri_archive_lib.Writer.Layout.{engine_index_base, size_at}
use cri_archive_lib.Writer.Layout.Offsets.{IsPacked}
use cri_archive_lib.Writer.Layout.Packed.{IsBehind}
use cri_archive_lib.Writer.Layout.Whole.{IsLayout, layout-IsLayout, layout-IsPacked}
use cri_archive_lib.Writer.Output.Whole.{offset_at, write_content-layout, write_content-extends}
use cri_archive_lib.Writer.Tables.{header_row}
use cri_archive_lib.Utf.{IsSized}
use cri_archive_lib.Writer.Archive.{
  Plan, plan, header_fields, length_or_zero, write_head, Written, write_with_profile,
}
use cri_archive_lib.Writer.Archive.Head.{
  HasAt, HasAt-append, IsHead, write_head-IsHead, length-build_chunk,
}
use cri_archive_lib.Writer.Archive.Planned.{
  IsPlanned, plan-IsPlanned, optional-length, IsWritten, write-IsWritten,
}
use cri_archive_lib.Reader.Metadata.{CpkMetadata}
use cri_archive_lib.Reader.Archive.{read_metadata, is_empty}
use cri_archive_lib.Archive.Ascii.{TakesAscii}
use cri_archive_lib.Archive.Toc.{IsListed}
use cri_archive_lib.Archive.Metadata.{IsProper, metadata_of, parse_metadata-build}
use cri_archive_lib.Archive.Chunks.{open_chunk-build, named_cpk}

-- Files and a profile whose texts are plain, with numbers that fit their types and index tables
-- of less than 4 GiB.
pub record IsArchivable (is_utf8 : Str → Bool) (decode_sjis : Str → Str) (alignment : ℕ)
    (files : List CpkInputFile) (profile : CpkWriterProfile) (p : Plan) : Type 0 where
  pub header : IsProper is_utf8 decode_sjis (header_fields alignment files p) profile
  pub directories : All (λ (f : CpkInputFile). IsPlain is_utf8 decode_sjis f.directory) files
  pub file_names : All (λ (f : CpkInputFile). IsPlain is_utf8 decode_sjis f.file_name) files
  pub user_strings : All (λ (f : CpkInputFile). IsPlain is_utf8 decode_sjis f.user_string) files
  pub listed : All IsListed files
  pub toc_small : (bytes : List ℕ) → p.tables.toc_table ≡ some bytes → length bytes < 2 ^ 32
  pub itoc_small : (bytes : List ℕ) → p.tables.itoc_table ≡ some bytes → length bytes < 2 ^ 32

-- The bytes of a file, where the layout puts them.
pub record IsStored (p : Plan) (files : List CpkInputFile) (payload : ℕ → List ℕ) (out : List ℕ)
    (i : ℕ) : Type 0 where
  pub offset : offset_at p.places i < 2 ^ 64
  pub bytes : take (size_at files i) (drop (offset_at p.places i) out) ≡ payload i

below-end :
    (a lo hi : ℕ) (f g : ℕ → ℕ) (order : List ℕ)
    → IsPacked a lo hi (map f order) (map g order)
    → All (λ i. f i ≤ hi) order × (lo ≤ hi)
below-end a lo hi f g [] h = (tt, h)
below-end a lo hi f g (i ∷ order) h =
    let r = below-end a (f i + g i) hi f g order h.2 in
    ((omega (arith, r.1), r.0), omega (arith, r.1, h.0))

proper_end :
    (alignment : ℕ) (files : List CpkInputFile) (profile : CpkWriterProfile) (p : Plan)
    → All IsSized (header_row (header_fields alignment files p) profile)
    → p.places.archive_size < 2 ^ 64
unfolding header_row
proper_end alignment files profile p h = h.1.0

one_row : {A : Type 0} (rows : List A) → length rows ≡ 1 → not (is_empty rows) ≡ true
one_row [] h = absurd (omega (arith, h))
one_row (r ∷ rows) h = refl

both :
    (P Q R : ℕ → Type 0) (xs : List ℕ)
    → ((i : ℕ) → P i → Q i → R i)
    → All P xs
    → All Q xs
    → All R xs
both P Q R [] f p q = tt
both P Q R (x ∷ xs) f p q = (f x p.0 q.0, both P Q R xs f p.1 q.1)

-- An archive that is written from files and a profile, with a payload of the right size for each file.
pub record IsArchive (is_utf8 : Str → Bool) (decode_sjis : Str → Str) (alignment : ℕ)
    (files : List CpkInputFile) (profile : CpkWriterProfile) (payload : ℕ → List ℕ) (p : Plan)
    (w : Written) : Type 0 where
  pub ascii : TakesAscii is_utf8
  pub planned : plan alignment files profile ≡ ok p
  pub proper : IsArchivable is_utf8 decode_sjis alignment files profile p
  pub same : (i : ℕ) → length (payload i) ≡ size_at files i
  pub written : write_with_profile alignment files profile payload ≡ ok w

-- The metadata that the header of the archive has.
abbrev pub metadata_written : ℕ → List CpkInputFile → CpkWriterProfile → Plan → CpkMetadata
metadata_written alignment files profile p = metadata_of (header_fields alignment files p) profile

module _ {is_utf8 : Str → Bool} {decode_sjis : Str → Str} {alignment : ℕ}
    {files : List CpkInputFile} {profile : CpkWriterProfile} {payload : ℕ → List ℕ} {p : Plan}
    {w : Written} (c : IsArchive is_utf8 decode_sjis alignment files profile payload p w) where
  pub whole-IsPlanned : IsPlanned alignment files profile p
  whole-IsPlanned = plan-IsPlanned alignment files profile c.planned

  pub whole-IsWritten : IsWritten alignment files profile payload p w
  whole-IsWritten = write-IsWritten alignment files profile payload p w c.planned c.written

  pub whole-IsLayout :
      IsLayout alignment files profile.index_mode
        (length_or_zero p.tables.toc_table)
        (length_or_zero p.tables.itoc_table)
        p.places
  whole-IsLayout =
      layout-IsLayout alignment files profile.index_mode _ _ p.places whole-IsPlanned.placed

  -- The head of the archive.
  pub whole-IsHead :
      IsHead p
        (build_chunk CpkChunkKind.cpk whole-IsWritten.table)
        (write_head p (build_chunk CpkChunkKind.cpk whole-IsWritten.table))
  whole-IsHead =
      let l = whole-IsLayout in
      let mode = profile.index_mode in
      write_head-IsHead p (build_chunk CpkChunkKind.cpk whole-IsWritten.table) l.itoc_start
        whole-IsWritten.small
        (subst (λ (n : Option ℕ). IsBehind n engine_index_base p.places.toc_offset l.itoc_start)
          (optional-length (has_toc mode) _ whole-IsPlanned.toc) l.toc_behind)
        (subst
          (λ (n : Option ℕ). IsBehind n l.itoc_start p.places.itoc_offset p.places.content_offset)
          (optional-length (has_itoc mode) _ whole-IsPlanned.itoc) l.itoc_behind)

  head_in :
      {offset : ℕ} {bytes : List ℕ}
      → HasAt offset bytes (write_head p (build_chunk CpkChunkKind.cpk whole-IsWritten.table))
      → HasAt offset bytes w.bytes
  head_in {offset} {bytes} h =
      let e =
        write_content-extends payload (size_at files) (offset_at p.places) p.places.archive_size
          p.places.physical_order
          (write_head p (build_chunk CpkChunkKind.cpk whole-IsWritten.table))
          whole-IsWritten.content in
      subst (λ (x : List ℕ). HasAt offset bytes x) (sym e.1) (HasAt-append e.0 h)

  pub toc_in :
      (bytes : List ℕ)
      → p.tables.toc_table ≡ some bytes
      → HasAt p.places.toc_offset (build_chunk CpkChunkKind.toc bytes) w.bytes
  toc_in bytes e = head_in (whole-IsHead.toc bytes e)

  pub itoc_in :
      (bytes : List ℕ)
      → p.tables.itoc_table ≡ some bytes
      → HasAt p.places.itoc_offset (build_chunk CpkChunkKind.itoc bytes) w.bytes
  itoc_in bytes e = head_in (whole-IsHead.itoc bytes e)

  -- The metadata are those of the plan.
  pub read_metadata-whole :
      read_metadata is_utf8 decode_sjis
        (record { stream = w.bytes; start_pos = 0; metadata = none })
      ≡ ok (metadata_written alignment files profile p)
  unfolding read_metadata magic
  read_metadata-whole =
      let table = whole-IsWritten.table in
      let n = length-build_chunk CpkChunkKind.cpk table refl in
      let small = whole-IsWritten.small in
      let t : ltb 0x800 (length table + 0x10) ≡ false = ground (arith, n, small) in
      let lt : length table < 2 ^ 32 = omega (arith, n, small) in
      let read =
        parse_metadata-build is_utf8 decode_sjis (header_fields alignment files p) profile table
          c.ascii c.proper.header whole-IsWritten.built lt in
      let opened =
        open_chunk-build is_utf8 decode_sjis is_cpk CpkChunkKind.cpk table w.bytes 0 read.0 refl
          named_cpk refl t lt read.1 (head_in whole-IsHead.header) in
      rw (opened, one_row read.0.rows read.2, read.3) refl

  -- Every file is stored where the layout puts it.
  pub all-IsStored : All (IsStored p files payload w.bytes) p.places.physical_order
  all-IsStored =
      let placed = whole-IsPlanned.placed in
      let order = p.places.physical_order in
      let content =
        write_content-layout alignment files profile.index_mode _ _ p.places payload
          (write_head p (build_chunk CpkChunkKind.cpk whole-IsWritten.table)) placed c.same
          whole-IsHead.end in
      let e : content.0 ≡ w.bytes = ok-inj refl (sym content.1 ∙ whole-IsWritten.content) in
      let packed =
        below-end alignment p.places.content_offset p.places.archive_size (offset_at p.places)
          (size_at files) order
          (layout-IsPacked alignment files profile.index_mode _ _ p.places placed) in
      let end : p.places.archive_size < 2 ^ 64 =
        proper_end alignment files profile p c.proper.header.numbers in
      both (λ i. offset_at p.places i ≤ p.places.archive_size)
        (λ i. take (size_at files i) (drop (offset_at p.places i) w.bytes) ≡ payload i)
        (IsStored p files payload w.bytes) order
        (λ i le b. record { offset = omega (arith, le, end); bytes = b }) packed.0
        (subst
          (λ (x : List ℕ).
            All (λ i. take (size_at files i) (drop (offset_at p.places i) x) ≡ payload i) order)
          e content.3)
