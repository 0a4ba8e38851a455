-- ===== src/Writer/Order.antt =====
-- `build_physical_order`, and the two groups of rows of a standard ITOC.
pub mod Ascending
pub mod Permutation
use cri_archive_lib.Base.{
  ℕ, zero, suc, ◌≤◌, ◌<◌, ◌≡◌, refl, arith, Bool, true, false, leb, ltb, ◌||◌, ◌&&◌, not, ◌==◌,
}
use cri_archive_lib.Base.{
  if◌then◌else◌, List, [], ◌∷◌, Result, ok, err, get_or, ◌>>=◌, length, Option, none, some, map,
}
use cri_archive_lib.Base.Sort.{sort_by_key, filter}
use cri_archive_lib.Writer.{
  CpkInputFile, CpkIndexMode, has_itoc, CpkWriterError, itoc_id_too_large, duplicate_itoc_id,
}

-- `HashSet::contains`, of the identifiers seen so far.
abbrev pub contains : ℕ → List ℕ → Bool
contains x [] = false
contains x (y ∷ ys) = x == y || contains x ys

-- The loop over the files that checks the identifiers.
unfoldable pub check_ids : List CpkInputFile → List ℕ → Result CpkWriterError (Unit {0})
check_ids [] used_ids = ok tt
check_ids (file ∷ files) used_ids =
    let rest = check_ids files (file.id ∷ used_ids) in
    if ltb 0xffff file.id
    then err (itoc_id_too_large file.id)
    else (if contains file.id used_ids then err (duplicate_itoc_id file.id) else rest)

-- `(from..from + n).collect()`
abbrev pub range : ℕ → ℕ → List ℕ
range from zero = []
range from (suc n) = from ∷ range (suc from) n

-- `files[index].id`
unfoldable pub id_at : List CpkInputFile → ℕ → ℕ
id_at files i = get_or (map (λ f. f.id) files) i 0

unfoldable pub build_physical_order :
    List CpkInputFile → CpkIndexMode → Result CpkWriterError (List ℕ)
build_physical_order files mode =
    if has_itoc mode
    then (check_ids files [] >>= λ checked. ok (sort_by_key (id_at files) (range 0 (length files))))
    else ok (range 0 (length files))
