-- ===== src/Archive/Files/Itoc.antt =====
-- `get_files` on an archive that has an ITOC only.
use cri_archive_lib.Base.{
  ℕ, zero, suc, ◌^◌, ◌<◌, ◌≡◌, refl, sym, ◌∙◌, ap, ap₂, arith, Bool, true, false, leb, ◌==◌,
}
use cri_archive_lib.Base.{some, List, [], ◌∷◌, length, drop, get_or, map, Str, All, ok, Result}
use cri_archive_lib.Header.{CpkChunkKind, magic}
use cri_archive_lib.Schema.Table.{HighTable}
use cri_archive_lib.Writer.{CpkInputFile, CpkIndexMode, CpkWriterProfile, has_itoc}
use cri_archive_lib.Writer.Order.{id_at}
use cri_archive_lib.Writer.Layout.{size_at}
use cri_archive_lib.Writer.Output.Whole.{offset_at}
use cri_archive_lib.Writer.Tables.{build_itoc_table}
use cri_archive_lib.Writer.Archive.{Plan, length_or_zero, Written}
use cri_archive_lib.Writer.Archive.Planned.{optional-inv}
use cri_archive_lib.Reader.{CpkFile}
use cri_archive_lib.Reader.Metadata.{CpkMetadata}
use cri_archive_lib.Reader.Archive.{
  CpkReader, ReadError, get_files, read_index, read_itoc, read_itoc_table, seek_to, is_itoc,
  open_chunk, read_packed_file,
}
use cri_archive_lib.Archive.Rows.{HasSizes}
use cri_archive_lib.Archive.Toc.{IsListed}
use cri_archive_lib.Archive.RoundTrip.{eid_of, read_itoc-layout}
use cri_archive_lib.Archive.Chunks.{
  open_chunk-build, named_itoc, seek_to-start, read_packed_file-slice,
}
use cri_archive_lib.Archive.Whole.{IsArchive, metadata_written, whole-IsPlanned, itoc_in}
use cri_archive_lib.Archive.Files.{fresh, opened, laid, Stored, stored, index_read}

sizes-HasSizes : (files : List CpkInputFile) → All IsListed files → (i : ℕ) → HasSizes files i
sizes-HasSizes [] l i = (omega arith, omega arith)
sizes-HasSizes (f ∷ files) l zero = (l.0.size, l.0.extract_size)
sizes-HasSizes (f ∷ files) l (suc i) = sizes-HasSizes files l.1 i

module _ (is_utf8 : Str → Bool) (decode_sjis : Str → Str) where
  -- The index of an archive that has an ITOC only.
  index_itoc :
      (r : CpkReader) (m : CpkMetadata) (stream : List ℕ) (itoc : HighTable)
      {x : Result ReadError (List CpkFile)}
      → m.toc_offset ≡ 0
      → (m.itoc_offset == 0) ≡ false
      → (m.content_offset == 0) ≡ false
      → leb m.content_offset 0xffffffff ≡ true
      → seek_to r m.itoc_offset ≡ ok stream
      → open_chunk is_utf8 decode_sjis is_itoc stream ≡ ok itoc
      → read_itoc_table is_utf8 decode_sjis m.content_offset m.align m.eid itoc ≡ x
      → read_index is_utf8 decode_sjis r m ≡ x
  unfolding read_index read_itoc
  index_itoc r m stream itoc none_toc some_itoc some_content small seek chunk read =
      rw (none_toc, some_itoc, some_content, small, seek, chunk) read

module _ {is_utf8 : Str → Bool} {decode_sjis : Str → Str} {alignment : ℕ}
    {files : List CpkInputFile} {profile : CpkWriterProfile} {payload : ℕ → List ℕ} {p : Plan}
    {w : Written} (c : IsArchive is_utf8 decode_sjis alignment files profile payload p w) where
  packed_at :
      (f : CpkFile) (i : ℕ)
      → f.absolute_offset ≡ offset_at p.places i
      → f.file_size ≡ size_at files i
      → (Stored c) i
      → read_packed_file (opened alignment files profile p w) f ≡ ok (payload i)
  packed_at f i at size s =
      read_packed_file-slice w.bytes (payload i) (metadata_written alignment files profile p) f
        (rw at s.offset) (c.same i ∙ sym size) (rw (at, size) s.bytes)

  all_packed :
      (fs : List CpkFile) (order : List ℕ)
      → map (λ f. f.absolute_offset) fs ≡ map (offset_at p.places) order
      → map (λ f. f.file_size) fs ≡ map (size_at files) order
      → All (Stored c) order
      → map (read_packed_file (opened alignment files profile p w)) fs
        ≡ map (λ i. ok (payload i)) order
  all_packed [] [] o z s = refl
  all_packed [] (i ∷ order) o z s = absurd (omega (arith, ap length o))
  all_packed (f ∷ fs) [] o z s = absurd (omega (arith, ap length o))
  all_packed (f ∷ fs) (i ∷ order) o z s =
      let first = λ (l : List ℕ). get_or l 0 0 in
      ap₂ ◌∷◌ (packed_at f i (ap first o) (ap first z) s.0)
        (all_packed fs order (ap (drop 1) o) (ap (drop 1) z) s.1)

  -- For an archive with an ITOC only that `write_with_profile` wrote for a plan, from files and a
  -- profile whose texts are plain and whose numbers fit their types, with file names that are not
  -- empty, index tables of less than 4 GiB, a payload as long as the size of each file, and a
  -- UTF-8 test that takes ASCII: `get_files` on its bytes succeeds and keeps the metadata that the
  -- header was built from; the files come in the physical order with the identifiers of the
  -- inputs, and their packed bytes, as `read_packed_file` gets them, are the payloads that were
  -- written.
  pub get_files-itoc :
      profile.index_mode ≡ CpkIndexMode.itoc
      → (fs : List CpkFile) × (get_files is_utf8 decode_sjis (fresh w)
          ≡ (opened alignment files profile p w, ok fs))
        × (map (λ f. f.id) fs ≡ map (λ i. some (id_at files i)) p.places.physical_order)
        × (map (read_packed_file (opened alignment files profile p w)) fs
            ≡ map (λ i. ok (payload i)) p.places.physical_order)
  unfolding magic
  get_files-itoc t =
      let plan_of = whole-IsPlanned c in
      let has : has_itoc profile.index_mode ≡ true = ap has_itoc t in
      let table =
        optional-inv (build_itoc_table files p.places.physical_order profile.direct_itoc)
          (rw t at plan_of.itoc) in
      let front = rw t at (laid c).toc_behind in
      let behind = rw t at (laid c).itoc_behind in
      let within = rw t at (laid c).within in
      let some_content : (p.places.content_offset == 0) ≡ false = ground (arith, front, behind) in
      let small_content : leb p.places.content_offset 0xffffffff ≡ true = ground (arith, within) in
      let some_itoc : (p.places.itoc_offset == 0) ≡ false = ground (arith, front, behind) in
      let no_toc : p.places.toc_offset ≡ 0 = front.0 in
      let small = c.proper.itoc_small table.0 table.2 in
      let read =
        read_itoc-layout is_utf8 decode_sjis c.ascii alignment files profile.index_mode
          (length_or_zero p.tables.toc_table) (length_or_zero p.tables.itoc_table) p.places
          profile.direct_itoc table.0 has (sizes-HasSizes files c.proper.listed) plan_of.placed
          table.1 small in
      let chunk =
        open_chunk-build is_utf8 decode_sjis is_itoc CpkChunkKind.itoc table.0 w.bytes
          p.places.itoc_offset read.0 refl named_itoc refl refl small read.1
          (itoc_in c table.0 table.2) in
      let table_read = read.0 in
      let found = read.3 in
      let eid : (metadata_written alignment files profile p).eid ≡ eid_of profile.direct_itoc =
        rw t refl in
      let itoc_bound : p.places.itoc_offset < 2 ^ 64 = ground (arith, front, behind, within) in
      let seek =
        seek_to-start (opened alignment files profile p w) p.places.itoc_offset refl itoc_bound in
      (
        read.2,
        index_read c _ (
            index_itoc is_utf8 decode_sjis (opened alignment files profile p w)
              (metadata_written alignment files profile p) _ table_read no_toc some_itoc
              some_content small_content seek chunk
              (ap
                  (λ eid.
                    read_itoc_table is_utf8 decode_sjis p.places.content_offset alignment eid
                      table_read)
                  eid
                ∙ found)),
        read.4.ids,
        all_packed read.2 p.places.physical_order read.4.absolute_offsets read.4.file_sizes
            (stored c),
      )
