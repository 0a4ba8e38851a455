-- ===== src/Writer/Archive/Planned.antt =====
-- What is known when `plan` and `write_with_profile` return.
use cri_archive_lib.Base.{
  ℕ, ◌+◌, ◌-◌, ◌≤◌, ◌≡◌, refl, sym, ◌∙◌, ap, arith, subst, Bool, true, false, leb, ◌==◌, ==_iff,
  not, if◌then◌else◌, length, replicate, AllPairs,
}
use cri_archive_lib.Base.{
  Option, some, List, [], ◌∷◌, Result, ok, err, map_err, >>=-eq-ok, ensure-inv, ok-inj,
}
use cri_archive_lib.Header.{CpkChunkKind, build_chunk}
use cri_archive_lib.Writer.{
  CpkInputFile, CpkIndexMode, has_toc, has_itoc, CpkWriterError, arithmetic_overflow,
  header_too_large, empty_input, too_many_files, CpkWriterProfile,
}
use cri_archive_lib.Writer.Align.{validate_alignment}
use cri_archive_lib.Writer.Order.{build_physical_order}
use cri_archive_lib.Writer.Layout.{layout, engine_index_base, size_at, table_len}
use cri_archive_lib.Writer.Layout.Whole.{layout-IsLayout}
use cri_archive_lib.Writer.Output.{write_content}
use cri_archive_lib.Writer.Output.Whole.{offset_at}
use cri_archive_lib.Writer.Tables.{build_toc_table, build_itoc_table, build_header_table}
use cri_archive_lib.Writer.Archive.{
  IndexTables, Plan, plan, build_index, check_input, optional_table, length_or_zero,
  relative_offsets, header_fields, write_head, copyright_marker_offset, writer, output, Written,
  write_with_profile,
}
use cri_archive_lib.Writer.Archive.Head.{length_of}

pub map_err-inv {ℓ κ μ} :
    {E : Type ℓ} {F : Type κ} {A : Type μ} (f : E → F) (r : Result E A) {a : A}
    → map_err f r ≡ ok a
    → r ≡ ok a
map_err-inv f (ok x) h = ap ok (ok-inj refl h)
map_err-inv f (err e) h = cc

pub relative_offsets-AllPairs :
    (xs : List ℕ) {ys : List ℕ}
    → relative_offsets xs ≡ ok ys
    → AllPairs (λ x y. engine_index_base + y ≡ x) xs ys
unfolding relative_offsets
relative_offsets-AllPairs [] h =
    subst (AllPairs (λ x y. engine_index_base + y ≡ x) []) (ok-inj refl h) tt
relative_offsets-AllPairs (x ∷ xs) h =
    let a = ensure-inv (leb engine_index_base x) arithmetic_overflow _ h in
    let b = >>=-eq-ok (relative_offsets xs) _ a.1 in
    let t = a.0 in
    let le : engine_index_base + (x - engine_index_base) ≡ x = ground arith in
    subst (AllPairs (λ x y. engine_index_base + y ≡ x) (x ∷ xs)) (ok-inj refl b.2)
      (le, relative_offsets-AllPairs xs b.1)

-- A plan that is returned: its layout is that for the lengths of its own tables.
pub record IsPlanned (alignment : ℕ) (files : List CpkInputFile) (profile : CpkWriterProfile)
    (p : Plan) : Type 0 where
  pub placed :
      layout alignment files profile.index_mode
        (length_or_zero p.tables.toc_table)
        (length_or_zero p.tables.itoc_table)
      ≡ ok p.places
  pub offsets : List ℕ
  pub relative :
      (if has_toc profile.index_mode then relative_offsets p.places.absolute_offsets else ok [])
      ≡ ok offsets
  pub toc :
      optional_table (has_toc profile.index_mode) (build_toc_table files offsets)
      ≡ ok p.tables.toc_table
  pub itoc :
      optional_table
        (has_itoc profile.index_mode)
        (build_itoc_table files p.places.physical_order profile.direct_itoc)
      ≡ ok p.tables.itoc_table

index_parts :
    (files : List CpkInputFile) (profile : CpkWriterProfile) (order offsets : List ℕ)
    {t : IndexTables}
    → build_index files profile order offsets ≡ ok t
    → (optional_table (has_toc profile.index_mode) (build_toc_table files offsets) ≡ ok t.toc_table)
      × (optional_table
            (has_itoc profile.index_mode)
            (build_itoc_table files order profile.direct_itoc)
          ≡ ok t.itoc_table)
unfolding build_index
index_parts files profile order offsets h =
    let a =
      >>=-eq-ok (optional_table (has_toc profile.index_mode) (build_toc_table files offsets)) _ h in
    let b =
      >>=-eq-ok
        (optional_table (has_itoc profile.index_mode)
          (build_itoc_table files order profile.direct_itoc))
        _ a.2 in
    let e = ok-inj refl b.2 in
    (
      a.1 ∙ ap (λ (t : IndexTables). ok t.toc_table) e,
      b.1 ∙ ap (λ (t : IndexTables). ok t.itoc_table) e,
    )

checked_order :
    (alignment : ℕ) (files : List CpkInputFile) (mode : CpkIndexMode) {order : List ℕ}
    → check_input alignment files mode ≡ ok order
    → build_physical_order files mode ≡ ok order
unfolding check_input
checked_order alignment files mode h =
    let a = >>=-eq-ok (validate_alignment alignment) _ h in
    let b = ensure-inv (not (length files == 0)) empty_input _ a.2 in
    (ensure-inv (leb (length files) 0xffffffff) (too_many_files (length files)) _ b.1).1

pub plan-IsPlanned :
    (alignment : ℕ) (files : List CpkInputFile) (profile : CpkWriterProfile) {p : Plan}
    → plan alignment files profile ≡ ok p
    → IsPlanned alignment files profile p
unfolding plan
plan-IsPlanned alignment files profile h =
    let mode = profile.index_mode in
    let o = >>=-eq-ok (check_input alignment files mode) _ h in
    let probe = >>=-eq-ok (build_index files profile o.0 (replicate (length files) 0)) _ o.2 in
    let toc_len = length_or_zero probe.0.toc_table in
    let itoc_len = length_or_zero probe.0.itoc_table in
    let l = >>=-eq-ok (layout alignment files mode toc_len itoc_len) _ probe.2 in
    let relative =
      >>=-eq-ok (if has_toc mode then relative_offsets l.0.absolute_offsets else ok []) _ l.2 in
    let t = >>=-eq-ok (build_index files profile o.0 relative.0) _ relative.2 in
    let toc_same = ensure-inv (toc_len == length_or_zero t.0.toc_table) arithmetic_overflow _ t.2 in
    let itoc_same =
      ensure-inv (itoc_len == length_or_zero t.0.itoc_table) arithmetic_overflow _ toc_same.1 in
    let parts = index_parts files profile o.0 relative.0 t.1 in
    let order : o.0 ≡ l.0.physical_order = ok-inj refl (
      sym (checked_order alignment files mode o.1)
      ∙ (layout-IsLayout alignment files mode toc_len itoc_len l.0 l.1).order) in
    subst (IsPlanned alignment files profile) (ok-inj refl itoc_same.1) (record {
      placed =
          ap (λ n. layout alignment files mode n (length_or_zero t.0.itoc_table))
            (sym ((==_iff _ _).0 toc_same.0))
          ∙ ap (layout alignment files mode toc_len) (sym ((==_iff _ _).0 itoc_same.0))
          ∙ l.1;
      offsets = relative.0;
      relative = relative.1;
      toc = parts.0;
      itoc =
          ap
            (λ order.
              optional_table (has_itoc mode) (build_itoc_table files order profile.direct_itoc))
            (sym order)
          ∙ parts.1;
    })

-- The room that the layout leaves is that of the tables.
pub optional-length :
    (has : Bool) (built : Result CpkWriterError (List ℕ)) {table : Option (List ℕ)}
    → optional_table has built ≡ ok table
    → table_len has (length_or_zero table) ≡ length_of table
optional-length true built h =
    let a = >>=-eq-ok built _ h in
    subst (λ (t : Option (List ℕ)). table_len true (length_or_zero t) ≡ length_of t)
      (ok-inj refl a.2) refl
optional-length false built h =
    subst (λ (t : Option (List ℕ)). table_len false (length_or_zero t) ≡ length_of t)
      (ok-inj refl h) refl

pub optional-inv :
    (built : Result CpkWriterError (List ℕ)) {table : Option (List ℕ)}
    → optional_table true built ≡ ok table
    → (bytes : List ℕ) × (built ≡ ok bytes) × (table ≡ some bytes)
optional-inv built h = let a = >>=-eq-ok built _ h in (a.0, a.1, sym (ok-inj refl a.2))

-- What is written for a plan.
pub record IsWritten (alignment : ℕ) (files : List CpkInputFile) (profile : CpkWriterProfile)
    (payload : ℕ → List ℕ) (p : Plan) (w : Written) : Type 0 where
  pub table : List ℕ
  pub built : build_header_table (header_fields alignment files p) profile ≡ ok table
  pub small : length (build_chunk CpkChunkKind.cpk table) ≤ copyright_marker_offset
  pub content :
      write_content payload
        (size_at files)
        (offset_at p.places)
        p.places.archive_size
        p.places.physical_order
        (write_head p (build_chunk CpkChunkKind.cpk table))
      ≡ ok w.bytes

pub write-IsWritten :
    (alignment : ℕ) (files : List CpkInputFile) (profile : CpkWriterProfile) (payload : ℕ → List ℕ)
    (p : Plan) (w : Written)
    → plan alignment files profile ≡ ok p
    → write_with_profile alignment files profile payload ≡ ok w
    → IsWritten alignment files profile payload p w
unfolding write_with_profile
write-IsWritten alignment files profile payload p w e h =
    let a = rw e at h in
    let table =
      >>=-eq-ok (map_err writer (build_header_table (header_fields alignment files p) profile)) _
        a in
    let chunk = build_chunk CpkChunkKind.cpk table.0 in
    let small =
      ensure-inv (leb (length chunk) copyright_marker_offset)
        (writer (header_too_large (length chunk))) _ table.2 in
    let t = small.0 in
    let out =
      >>=-eq-ok
        (map_err output (
          write_content payload (size_at files) (offset_at p.places) p.places.archive_size
            p.places.physical_order (write_head p chunk)))
        _ small.1 in
    record {
      table = table.0;
      built = map_err-inv writer _ table.1;
      small = ground arith;
      content = map_err-inv output _ out.1 ∙ ap (λ (w : Written). ok w.bytes) (ok-inj refl out.2);
    }
