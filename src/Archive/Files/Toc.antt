-- ===== src/Archive/Files/Toc.antt =====
-- `get_files` on an archive that has a TOC.
use cri_archive_lib.Base.{ℕ, zero, suc, ◌+◌, ◌^◌, ◌<◌, ◌≡◌, refl, sym, ap, arith, Bool, true}
use cri_archive_lib.Base.{
  some, List, [], ◌∷◌, length, get_or, get_elem?, Str, All, AllPairs, ok, some-inj,
}
use cri_archive_lib.Header.{CpkChunkKind, magic}
use cri_archive_lib.Strings.RoundTrip.{IsPlain}
use cri_archive_lib.Schema.Names.{name_cpk_toc_info}
use cri_archive_lib.Writer.{CpkInputFile, CpkWriterProfile, has_toc}
use cri_archive_lib.Writer.Layout.{engine_index_base, size_at}
use cri_archive_lib.Writer.Tables.{toc_columns, toc_rows, build_toc_table}
use cri_archive_lib.Writer.Archive.{Plan, Written}
use cri_archive_lib.Writer.Archive.Planned.{relative_offsets-AllPairs, optional-inv}
use cri_archive_lib.Utf.{IsSized}
use cri_archive_lib.Utf.Built.{IsWritable}
use cri_archive_lib.Utf.Interned.{IsPlainValue}
use cri_archive_lib.Reader.{CpkFile}
use cri_archive_lib.Reader.Archive.{get_files, read_index, read_toc, is_toc}
use cri_archive_lib.Archive.Toc.{IsListed, file_of, files_of, toc_builder, read_toc-build}
use cri_archive_lib.Archive.Chunks.{open_chunk-build, named_toc, seek_to-start}
use cri_archive_lib.Archive.Whole.{IsArchive, whole-IsPlanned, toc_in}
use cri_archive_lib.Archive.Ascii.{columns-IsPlain}
use cri_archive_lib.Archive.Files.{
  IsExtracted, fresh, opened, plain, laid, stored_at, index_read, extracted,
}

abbrev IsShifted : List ℕ → List ℕ → Type 0
IsShifted xs ys = AllPairs (λ x y. engine_index_base + y ≡ x) xs ys

file_at :
    (files : List CpkInputFile) (xs ys : List ℕ) (i : ℕ) (input : CpkInputFile)
    → length xs ≡ length files
    → IsShifted xs ys
    → get_elem? files i ≡ some input
    → (o : ℕ) × (get_elem? (files_of files ys) i ≡ some (file_of input o))
      × (engine_index_base + o ≡ get_or xs i 0)
      × (input.size ≡ size_at files i)
      × (i < length files)
file_at [] xs ys i input n h e = cc
file_at (f ∷ files) [] ys i input n h e = absurd (omega (arith, n))
file_at (f ∷ files) (x ∷ xs) [] i input n h e = absurd h
file_at (f ∷ files) (x ∷ xs) (y ∷ ys) zero input n h e =
    let s : f ≡ input = some-inj e in
    (
      y,
      ap (λ (g : CpkInputFile). some (file_of g y)) s,
      h.0,
      sym (ap (λ (g : CpkInputFile). g.size) s),
      omega arith,
    )
file_at (f ∷ files) (x ∷ xs) (y ∷ ys) (suc i) input n h e =
    let r = file_at files xs ys i input (omega (arith, n)) h.1 e in
    (r.0, r.1, r.2, r.3, omega (arith, r.4))

IsShifted-bounds :
    (xs ys : List ℕ)
    → IsShifted xs ys
    → ((i : ℕ) → i < length xs → get_or xs i 0 < 2 ^ 64)
    → All (λ (o : ℕ). engine_index_base + o < 2 ^ 64) ys
IsShifted-bounds [] [] h b = tt
IsShifted-bounds [] (y ∷ ys) h b = absurd h
IsShifted-bounds (x ∷ xs) [] h b = absurd h
IsShifted-bounds (x ∷ xs) (y ∷ ys) h b = (
  omega (arith, h.0, b 0 (omega arith)),
  IsShifted-bounds xs ys h.1 (λ i lt. b (suc i) (omega (arith, lt))),
)

toc_rows-IsSized :
    (files : List CpkInputFile) (ys : List ℕ)
    → All IsListed files
    → All (λ (o : ℕ). engine_index_base + o < 2 ^ 64) ys
    → All (All IsSized) (toc_rows files ys)
unfolding toc_rows
toc_rows-IsSized [] ys l b = tt
toc_rows-IsSized (f ∷ files) [] l b = tt
toc_rows-IsSized (f ∷ files) (y ∷ ys) l b = (
  (tt, (tt, (l.0.size, (l.0.extract_size, (omega (arith, b.0), (l.0.id, (tt, tt))))))),
  toc_rows-IsSized files ys l.1 b.1,
)

module _ (is_utf8 : Str → Bool) (decode_sjis : Str → Str) where
  toc_rows-IsPlainValue :
      (files : List CpkInputFile) (ys : List ℕ)
      → All (λ (f : CpkInputFile). IsPlain is_utf8 decode_sjis f.directory) files
      → All (λ (f : CpkInputFile). IsPlain is_utf8 decode_sjis f.file_name) files
      → All (λ (f : CpkInputFile). IsPlain is_utf8 decode_sjis f.user_string) files
      → All (All (IsPlainValue is_utf8 decode_sjis)) (toc_rows files ys)
  unfolding toc_rows
  toc_rows-IsPlainValue [] ys d n u = tt
  toc_rows-IsPlainValue (f ∷ files) [] d n u = tt
  toc_rows-IsPlainValue (f ∷ files) (y ∷ ys) d n u =
      ((d.0, (n.0, (tt, (tt, (tt, (tt, (u.0, tt))))))), toc_rows-IsPlainValue files ys d.1 n.1 u.1)

module _ {is_utf8 : Str → Bool} {decode_sjis : Str → Str} {alignment : ℕ}
    {files : List CpkInputFile} {profile : CpkWriterProfile} {payload : ℕ → List ℕ} {p : Plan}
    {w : Written} (c : IsArchive is_utf8 decode_sjis alignment files profile payload p w) where
  toc-IsWritable :
      (offsets : List ℕ)
      → All (λ (o : ℕ). engine_index_base + o < 2 ^ 64) offsets
      → IsWritable is_utf8 decode_sjis (toc_builder name_cpk_toc_info files offsets)
  toc-IsWritable offsets bounds = record {
    name = plain c name_cpk_toc_info (omega arith);
    columns = columns-IsPlain is_utf8 decode_sjis toc_columns c.ascii refl;
    strings =
        toc_rows-IsPlainValue is_utf8 decode_sjis files offsets c.proper.directories
          c.proper.file_names c.proper.user_strings;
    numbers = toc_rows-IsSized files offsets c.proper.listed bounds;
  }

  -- For an archive with a TOC that `write_with_profile` wrote for a plan, from files and a profile
  -- whose texts are plain and whose numbers fit their types, with file names that are not empty,
  -- index tables of less than 4 GiB, a payload as long as the size of each file, and a UTF-8 test
  -- that takes ASCII: `get_files` on its bytes succeeds and keeps the metadata that the header was
  -- built from, and for each input it lists, at the same index, a file with its directory, name,
  -- user string, identifier and size, whose packed bytes, as `read_packed_file` gets them, are the
  -- payload that was written.
  pub get_files-write :
      has_toc profile.index_mode ≡ true
      → (fs : List CpkFile) × (get_files is_utf8 decode_sjis (fresh w)
          ≡ (opened alignment files profile p w, ok fs))
        × ((i : ℕ) (input : CpkInputFile)
            → get_elem? files i ≡ some input
            → (f : CpkFile) × (get_elem? fs i ≡ some f)
              × IsExtracted (opened alignment files profile p w) (payload i) input f)
  unfolding read_index read_toc magic
  get_files-write t =
      let plan_of = whole-IsPlanned c in
      let table = optional-inv (build_toc_table files plan_of.offsets) (rw t at plan_of.toc) in
      let from = relative_offsets-AllPairs p.places.absolute_offsets (rw t at plan_of.relative) in
      let bounds =
        IsShifted-bounds p.places.absolute_offsets plan_of.offsets from
          (λ i lt. (stored_at c i (omega (arith, lt, (laid c).lengths))).offset) in
      let toc_at : p.places.toc_offset ≡ engine_index_base = (rw t at (laid c).toc_behind).0 in
      let small = c.proper.toc_small table.0 table.2 in
      let read =
        read_toc-build is_utf8 decode_sjis files plan_of.offsets table.0 (c.ascii [] tt)
          (toc-IsWritable plan_of.offsets bounds) c.proper.listed bounds table.1 small in
      let chunk =
        open_chunk-build is_utf8 decode_sjis is_toc CpkChunkKind.toc table.0 w.bytes
          p.places.toc_offset read.0 refl named_toc refl refl small read.1
          (toc_in c table.0 table.2) in
      let seek =
        seek_to-start (opened alignment files profile p w) p.places.toc_offset refl
          (omega (arith, toc_at)) in
      (
        files_of files plan_of.offsets,
        index_read c _ (rw (seek, chunk, read.2, toc_at) refl),
        λ i input e.
            let f =
              file_at files p.places.absolute_offsets plan_of.offsets i input (laid c).lengths from
                e in
            (file_of input f.0, f.1, extracted c i input f.0 f.2 f.3 (stored_at c i f.4)),
      )
