-- ===== src/Archive/Files.antt =====
-- The files of a whole archive, as `get_files` and `read_packed_file` give them.
pub mod Examples
pub mod Itoc
pub mod Toc
use cri_archive_lib.Base.{ℕ, ◌+◌, ◌-◌, ◌<◌, ◌≡◌, refl, sym, ◌∙◌, arith, Bool}
use cri_archive_lib.Base.{none, some, List, length, Str, All, ok, Result}
use cri_archive_lib.Strings.RoundTrip.{IsPlain}
use cri_archive_lib.Writer.{CpkInputFile, CpkWriterProfile}
use cri_archive_lib.Writer.Layout.{engine_index_base, size_at}
use cri_archive_lib.Writer.Layout.Packed.{order-All}
use cri_archive_lib.Writer.Layout.Whole.{IsLayout}
use cri_archive_lib.Writer.Output.Whole.{offset_at}
use cri_archive_lib.Writer.Archive.{Plan, length_or_zero, Written}
use cri_archive_lib.Reader.{CpkFile}
use cri_archive_lib.Reader.Archive.{CpkReader, ReadError, get_files, read_index, read_packed_file}
use cri_archive_lib.Archive.Ascii.{IsAscii, IsAscii-IsPlain}
use cri_archive_lib.Archive.Toc.{file_of}
use cri_archive_lib.Archive.Chunks.{reader_of, read_packed_file-slice}
use cri_archive_lib.Archive.Whole.{
  IsArchive, metadata_written, IsStored, whole-IsLayout, read_metadata-whole, all-IsStored,
}

-- What is read of one file, whose payload comes back byte by byte.
pub record IsExtracted (r : CpkReader) (payload : List ℕ) (input : CpkInputFile) (f : CpkFile)
    : Type 0 where
  pub directory : f.directory ≡ input.directory
  pub file_name : f.file_name ≡ input.file_name
  pub user_string : f.user_string ≡ input.user_string
  pub id : f.id ≡ some input.id
  pub size : f.file_size ≡ input.size
  pub packed : read_packed_file r f ≡ ok payload

-- A reader of the archive, before and after `get_files`.
abbrev pub fresh : Written → CpkReader
fresh w = record { stream = w.bytes; start_pos = 0; metadata = none }

abbrev pub opened : ℕ → List CpkInputFile → CpkWriterProfile → Plan → Written → CpkReader
opened alignment files profile p w = reader_of w.bytes (metadata_written alignment files profile p)

module _ {is_utf8 : Str → Bool} {decode_sjis : Str → Str} {alignment : ℕ}
    {files : List CpkInputFile} {profile : CpkWriterProfile} {payload : ℕ → List ℕ} {p : Plan}
    {w : Written} (c : IsArchive is_utf8 decode_sjis alignment files profile payload p w) where
  pub plain : (s : Str) → IsAscii s → IsPlain is_utf8 decode_sjis s
  plain s h = IsAscii-IsPlain is_utf8 decode_sjis s c.ascii h

  abbrev pub Stored : ℕ → Type 0
  Stored = IsStored p files payload w.bytes

  pub stored : All Stored p.places.physical_order
  stored = all-IsStored c

  pub laid :
      IsLayout alignment files profile.index_mode
        (length_or_zero p.tables.toc_table)
        (length_or_zero p.tables.itoc_table)
        p.places
  laid = whole-IsLayout c

  pub stored_at : (i : ℕ) → i < length files → Stored i
  stored_at = order-All files profile.index_mode p.places.physical_order Stored laid.order stored

  pub index_read :
      (r : Result ReadError (List CpkFile))
      → read_index is_utf8 decode_sjis
          (opened alignment files profile p w)
          (metadata_written alignment files profile p)
        ≡ r
      → get_files is_utf8 decode_sjis (fresh w) ≡ ((opened alignment files profile p w), r)
  unfolding get_files
  index_read r h = rw (read_metadata-whole c, h, get_files) refl

  pub extracted :
      (i : ℕ) (input : CpkInputFile) (o : ℕ)
      → engine_index_base + o ≡ offset_at p.places i
      → input.size ≡ size_at files i
      → Stored i
      → IsExtracted (opened alignment files profile p w) (payload i) input (file_of input o)
  extracted i input o at size s = record {
    directory = refl;
    file_name = refl;
    user_string = refl;
    id = refl;
    size = refl;
    packed =
        read_packed_file-slice w.bytes (payload i) (metadata_written alignment files profile p)
          (file_of input o) (omega (arith, at, s.offset)) (c.same i ∙ sym size)
          (rw (at, size) s.bytes);
  }
