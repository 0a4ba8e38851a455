-- ===== src/Utf/Fields.antt =====
-- The rows of a table are read back with what was written in them.
use native.Mathlib.Nat.{suc-mul}
use cri_archive_lib.Base.{
  ℕ, suc, ◌+◌, ◌*◌, ◌^◌, ◌<◌, ◌≡◌, refl, sym, ◌∙◌, ap, ap₂, subst, arith, ◌==◌, ==_iff,
  checked_add-fits, checked_mul-fits,
}
use cri_archive_lib.Base.{
  List, [], ◌∷◌, ◌++◌, length, length-append, append_assoc, drop, drop-drop, drop-append, get_elem?,
  All, AllPairs, some, some-inj, ok, ok_or, >>=-eq-ok, ok-inj, ok_or-inv, ensure-inv,
}
use cri_archive_lib.Base.Bytes.{to_be, from_be, from_be-to_be}
use cri_archive_lib.Strings.{Entry, find_value}
use cri_archive_lib.Schema.{read_exact}
use cri_archive_lib.Schema.Values.{RowValue}
use cri_archive_lib.Schema.Columns.{Column, row_value, contains, get_type, get_size}
use cri_archive_lib.Schema.Rows.{read_field, create_row, read_rows}
use cri_archive_lib.Writer.{arithmetic_overflow}
use cri_archive_lib.Writer.Itoc.{UtfValue}
use cri_archive_lib.Writer.Utf.{
  UtfColumn, UtfType, type_code, value_type, size, row_size_of, check_values, check_rows,
}
use cri_archive_lib.Writer.Utf.Pools.{Location}
use cri_archive_lib.Writer.Utf.Build.{Pools, value_bytes, row_bytes, rows_bytes}
use cri_archive_lib.Utf.{column_for, columns_for, IsSized}
use cri_archive_lib.Utf.Interned.{find_value_bound}
use cri_archive_lib.Utf.Placed.{Cell, Stands, IsPlaced}

-- What is read for a value, while the pools are those of the writer.
abbrev pub Holds : Pools → UtfValue → RowValue → Type 0
Holds p (UtfValue.uint16 v) found = found ≡ RowValue.uint16 v
Holds p (UtfValue.uint32 v) found = found ≡ RowValue.uint32 v
Holds p (UtfValue.uint64 v) found = found ≡ RowValue.uint64 v
Holds p (UtfValue.string s) found =
    (o : ℕ) × (found ≡ RowValue.string o) × (find_value s p.strings.offsets ≡ some o)
Holds p (UtfValue.data_bytes v) found =
    (l : Location) × (found ≡ RowValue.data_value (record { offset = l.offset; length = l.length }))
    × Stands p.data_pool.bytes l v

Cell-bytes :
    (rows : List (List UtfValue)) (r c : ℕ) (v w : List ℕ)
    → Cell rows r c (UtfValue.data_bytes v)
    → Cell rows r c (UtfValue.data_bytes w)
    → w ≡ v
Cell-bytes rows r c v w (row, a, b) (row', a', b') =
    let same : row ≡ row' = some-inj (sym a ∙ a') in
    let value : UtfValue.data_bytes w ≡ UtfValue.data_bytes v =
      some-inj (sym b' ∙ ap (λ (x : List UtfValue). get_elem? x c) (sym same) ∙ b) in
    cc

type_code-inj : (a b : UtfType) → type_code a ≡ type_code b → a ≡ b
unfolding type_code
type_code-inj a b h = ground arith

-- One field: what its bytes are read as, and how many they are.
abbrev IsRead : Pools → UtfValue → ℕ → List ℕ → Type 0
IsRead p v o bs =
    (length bs ≡ size (value_type v))
    × ((rest : List ℕ)
        → (found : RowValue) × (read_field (column_for (value_type v) o) (bs ++ rest)
            ≡ ok (found, rest))
          × Holds p v found)

module _ (p : Pools) (o : ℕ) where
  uint16-IsRead : (v : ℕ) → v < 2 ^ 16 → IsRead p (UtfValue.uint16 v) o (to_be 2 v)
  unfolding read_field read_exact row_value contains get_type get_size type_code value_type size
  uint16-IsRead v h = (
    refl,
    λ rest. (
      RowValue.uint16 (from_be (to_be 2 v)),
      refl,
      ap RowValue.uint16 (from_be-to_be 2 v (omega arith)),
    ),
  )

  uint32-IsRead : (v : ℕ) → v < 2 ^ 32 → IsRead p (UtfValue.uint32 v) o (to_be 4 v)
  unfolding read_field read_exact row_value contains get_type get_size type_code value_type size
  uint32-IsRead v h = (
    refl,
    λ rest. (
      RowValue.uint32 (from_be (to_be 4 v)),
      refl,
      ap RowValue.uint32 (from_be-to_be 4 v (omega arith)),
    ),
  )

  uint64-IsRead : (v : ℕ) → v < 2 ^ 64 → IsRead p (UtfValue.uint64 v) o (to_be 8 v)
  unfolding read_field read_exact row_value contains get_type get_size type_code value_type size
  uint64-IsRead v h = (
    refl,
    λ rest. (
      RowValue.uint64 (from_be (to_be 8 v)),
      refl,
      ap RowValue.uint64 (from_be-to_be 8 v (omega arith)),
    ),
  )

  string-IsRead :
      (s : List ℕ) (n : ℕ)
      → find_value s p.strings.offsets ≡ some n
      → n < 2 ^ 32
      → IsRead p (UtfValue.string s) o (to_be 4 n)
  unfolding read_field read_exact row_value contains get_type get_size type_code value_type size
  string-IsRead s n e h = (
    refl,
    λ rest. (
      RowValue.string (from_be (to_be 4 n)),
      refl,
      (n, ap RowValue.string (from_be-to_be 4 n (omega arith)), e),
    ),
  )

  data-IsRead :
      (v : List ℕ) (l : Location)
      → Stands p.data_pool.bytes l v
      → IsRead p (UtfValue.data_bytes v) o (to_be 4 l.offset ++ to_be 4 l.length)
  unfolding read_field read_exact row_value contains get_type get_size type_code value_type size
  data-IsRead v l s = (
    refl,
    λ rest. (
      RowValue.data_value
          (record { offset = from_be (to_be 4 l.offset); length = from_be (to_be 4 l.length) }),
      refl,
      (
        l,
        ap₂ (λ (a b : ℕ). RowValue.data_value (record { offset = a; length = b }))
            (from_be-to_be 4 l.offset s.offset_bound) (from_be-to_be 4 l.length s.length_bound),
        s,
      ),
    ),
  )

read_rows_step :
    (alloc : List ℕ) (start size : ℕ) (columns : List Column) (n r : ℕ) (row : List RowValue)
    (rows : List (List RowValue))
    → start + r * size < 2 ^ 64
    → create_row columns (drop (start + r * size) alloc) ≡ ok row
    → read_rows alloc start size columns n (suc r) ≡ ok rows
    → read_rows alloc start size columns (suc n) r ≡ ok (row ∷ rows)
unfolding read_rows
read_rows_step alloc start size columns n r row rows h e f =
    rw (checked_mul-fits r size (omega arith), checked_add-fits start (r * size) h, e, f) refl

module _ (rows : List (List UtfValue)) (p : Pools)
    (bounded : All (λ (e : Entry). e.offset < 2 ^ 32) p.strings.offsets)
    (placed : IsPlaced rows p.data_pool) where
  value_bytes-IsRead :
      (r c o : ℕ) (v : UtfValue) (bs : List ℕ)
      → IsSized v
      → Cell rows r c v
      → value_bytes p r c v ≡ ok bs
      → IsRead p v o bs
  unfolding value_bytes
  value_bytes-IsRead r c o (UtfValue.uint16 v) bs h cell e =
      subst (λ (x : List ℕ). IsRead p (UtfValue.uint16 v) o x) (ok-inj refl e)
        (uint16-IsRead p o v h)
  value_bytes-IsRead r c o (UtfValue.uint32 v) bs h cell e =
      subst (λ (x : List ℕ). IsRead p (UtfValue.uint32 v) o x) (ok-inj refl e)
        (uint32-IsRead p o v h)
  value_bytes-IsRead r c o (UtfValue.uint64 v) bs h cell e =
      subst (λ (x : List ℕ). IsRead p (UtfValue.uint64 v) o x) (ok-inj refl e)
        (uint64-IsRead p o v h)
  value_bytes-IsRead r c o (UtfValue.string s) bs h cell e =
      let a = >>=-eq-ok (ok_or (find_value s p.strings.offsets) arithmetic_overflow) _ e in
      let found = ok_or-inv (find_value s p.strings.offsets) arithmetic_overflow a.1 in
      subst (λ (x : List ℕ). IsRead p (UtfValue.string s) o x) (ok-inj refl a.2)
        (string-IsRead p o s a.0 found (find_value_bound s a.0 p.strings.offsets bounded found))
  value_bytes-IsRead r c o (UtfValue.data_bytes v) bs h cell e =
      let a = >>=-eq-ok (ok_or (p.data_pool.locations r c) arithmetic_overflow) _ e in
      let found = ok_or-inv (p.data_pool.locations r c) arithmetic_overflow a.1 in
      let d = placed r c a.0 found in
      subst (λ (x : List ℕ). IsRead p (UtfValue.data_bytes v) o x) (ok-inj refl a.2)
        (data-IsRead p o v a.0 (
          subst (λ (x : List ℕ). Stands p.data_pool.bytes a.0 x)
            (Cell-bytes rows r c v d.0 cell d.1) d.2))

  -- A row, before any other bytes.
  pub row_bytes-create_row :
      (r c : ℕ) (vs : List UtfValue) (cs : List UtfColumn) (os bs rest : List ℕ)
      → length vs ≡ length cs
      → length os ≡ length cs
      → check_values vs cs ≡ ok tt
      → All IsSized vs
      → ((j : ℕ) (v : UtfValue) → get_elem? vs j ≡ some v → Cell rows r (c + j) v)
      → row_bytes p r c vs ≡ ok bs
      → (row : List RowValue) × (create_row (columns_for cs os) (bs ++ rest) ≡ ok row)
        × AllPairs (Holds p) vs row
        × (length bs ≡ row_size_of cs)
  unfolding row_bytes create_row check_values row_size_of
  row_bytes-create_row r c [] [] os bs rest n m t h cells e =
      ([], refl, tt, ap length (sym (ok-inj refl e)))
  row_bytes-create_row r c [] (k ∷ cs) os bs rest n m t h cells e = absurd (omega arith)
  row_bytes-create_row r c (v ∷ vs) [] os bs rest n m t h cells e = absurd (omega arith)
  row_bytes-create_row r c (v ∷ vs) (k ∷ cs) [] bs rest n m t h cells e = absurd (omega arith)
  row_bytes-create_row r c (v ∷ vs) (k ∷ cs) (o ∷ os) bs rest n m t h cells e =
      let a = >>=-eq-ok (value_bytes p r c v) _ e in
      let b = >>=-eq-ok (row_bytes p r (suc c) vs) _ a.2 in
      let d =
        ensure-inv (type_code (value_type v) == type_code k.value_type) arithmetic_overflow
          (check_values vs cs) t in
      let same = type_code-inj _ _ ((==_iff _ _).0 d.0) in
      let here : c + 0 ≡ c = omega arith in
      let cell = subst (λ (n : ℕ). Cell rows r n v) here (cells 0 v refl) in
      let head = value_bytes-IsRead r c o v a.0 h.0 cell a.1 in
      let read = head.1 (b.0 ++ rest) in
      let ih =
        row_bytes-create_row r (suc c) vs cs os b.0 rest (omega arith) (omega arith) d.1 h.1
          (λ j u g.
            let next : c + suc j ≡ suc c + j = omega arith in
            subst (λ (n : ℕ). Cell rows r n u) next (cells (suc j) u g))
          b.1 in
      let field =
        subst
          (λ (y : UtfType).
            read_field (column_for y o) (a.0 ++ (b.0 ++ rest)) ≡ ok (read.0, b.0 ++ rest))
          same read.1 in
      let join : bs ≡ a.0 ++ b.0 = sym (ok-inj refl b.2) in
      let made : create_row (columns_for (k ∷ cs) (o ∷ os)) (a.0 ++ (b.0 ++ rest))
          ≡ ok (read.0 ∷ ih.0) =
        rw (field, ih.1) refl in
      let whole : bs ++ rest ≡ a.0 ++ (b.0 ++ rest) =
        ap (λ (x : List ℕ). x ++ rest) join ∙ append_assoc a.0 b.0 rest in
      (
        read.0 ∷ ih.0,
        ap (create_row (columns_for (k ∷ cs) (o ∷ os))) whole ∙ made,
        (read.2, ih.2),
        ap length join ∙ omega (arith, length-append a.0 b.0, head.0, ap size same, ih.3),
      )

  cells_of :
      (r : ℕ) (rest : List (List UtfValue)) (row : List UtfValue)
      → ((i : ℕ) (u : List UtfValue)
          → get_elem? (row ∷ rest) i ≡ some u
          → get_elem? rows (r + i) ≡ some u)
      → (j : ℕ) (v : UtfValue) → get_elem? row j ≡ some v
      → Cell rows r (0 + j) v
  cells_of r rest row at j v h =
      let here : r + 0 ≡ r = omega arith in
      let from_zero : j ≡ 0 + j = omega arith in
      (
        row,
        subst (λ (n : ℕ). get_elem? rows n ≡ some row) here (at 0 row refl),
        subst (λ (n : ℕ). get_elem? row n ≡ some v) from_zero h,
      )

  later :
      (r : ℕ) (rest : List (List UtfValue)) (row : List UtfValue)
      → ((i : ℕ) (u : List UtfValue)
          → get_elem? (row ∷ rest) i ≡ some u
          → get_elem? rows (r + i) ≡ some u)
      → (i : ℕ) (u : List UtfValue) → get_elem? rest i ≡ some u
      → get_elem? rows (suc r + i) ≡ some u
  later r rest row at i u h =
      let next : r + suc i ≡ suc r + i = omega arith in
      subst (λ (n : ℕ). get_elem? rows n ≡ some u) next (at (suc i) u h)

  -- The rows from the row `r` on.
  pub length-rows_bytes :
      (r : ℕ) (rest : List (List UtfValue)) (cs : List UtfColumn) (os bs : List ℕ)
      → length os ≡ length cs
      → check_rows cs rest ≡ ok tt
      → All (All IsSized) rest
      → ((i : ℕ) (row : List UtfValue)
          → get_elem? rest i ≡ some row
          → get_elem? rows (r + i) ≡ some row)
      → rows_bytes p r rest ≡ ok bs
      → length bs ≡ length rest * row_size_of cs
  unfolding rows_bytes check_rows
  length-rows_bytes r [] cs os bs m t h at e = ap length (sym (ok-inj refl e)) ∙ omega arith
  length-rows_bytes r (row ∷ rest) cs os bs m t h at e =
      let a = >>=-eq-ok (row_bytes p r 0 row) _ e in
      let b = >>=-eq-ok (rows_bytes p (suc r) rest) _ a.2 in
      let n = ensure-inv (length row == length cs) arithmetic_overflow _ t in
      let d = >>=-eq-ok (check_values row cs) _ n.1 in
      let head =
        row_bytes-create_row r 0 row cs os a.0 [] ((==_iff _ _).0 n.0) m d.1 h.0
          (cells_of r rest row at) a.1 in
      let ih = length-rows_bytes (suc r) rest cs os b.0 m d.2 h.1 (later r rest row at) b.1 in
      ap length (sym (ok-inj refl b.2))
      ∙ omega (arith, length-append a.0 b.0, head.3, ih, suc-mul (length rest) (row_size_of cs))

  pub rows_bytes-read_rows :
      (alloc : List ℕ) (start r : ℕ) (rest : List (List UtfValue)) (cs : List UtfColumn)
      (os bs after : List ℕ)
      → length os ≡ length cs
      → check_rows cs rest ≡ ok tt
      → All (All IsSized) rest
      → ((i : ℕ) (row : List UtfValue)
          → get_elem? rest i ≡ some row
          → get_elem? rows (r + i) ≡ some row)
      → rows_bytes p r rest ≡ ok bs
      → start + r * row_size_of cs + length rest * row_size_of cs < 2 ^ 64
      → drop (start + r * row_size_of cs) alloc ≡ bs ++ after
      → (found : List (List RowValue)) × (read_rows alloc start
            (row_size_of cs)
            (columns_for cs os)
            (length rest)
            r
          ≡ ok found)
        × AllPairs (AllPairs (Holds p)) rest found
  unfolding rows_bytes check_rows read_rows
  rows_bytes-read_rows alloc start r [] cs os bs after m t h at e lt d = ([], refl, tt)
  rows_bytes-read_rows alloc start r (row ∷ rest) cs os bs after m t h at e lt d =
      let a = >>=-eq-ok (row_bytes p r 0 row) _ e in
      let b = >>=-eq-ok (rows_bytes p (suc r) rest) _ a.2 in
      let n = ensure-inv (length row == length cs) arithmetic_overflow _ t in
      let v = >>=-eq-ok (check_values row cs) _ n.1 in
      let join : bs ≡ a.0 ++ b.0 = sym (ok-inj refl b.2) in
      let head =
        row_bytes-create_row r 0 row cs os a.0 (b.0 ++ after) ((==_iff _ _).0 n.0) m v.1 h.0
          (cells_of r rest row at) a.1 in
      let next = suc-mul r (row_size_of cs) in
      let whole : drop (start + r * row_size_of cs) alloc ≡ a.0 ++ (b.0 ++ after) =
        d ∙ ap (λ (x : List ℕ). x ++ after) join ∙ append_assoc a.0 b.0 after in
      let ih =
        rows_bytes-read_rows alloc start (suc r) rest cs os b.0 after m v.2 h.1
          (later r rest row at) b.1 (omega (arith, next, suc-mul (length rest) (row_size_of cs)))
          (ap (λ (n : ℕ). drop n alloc) (omega (arith, next, head.3))
            ∙ sym (drop-drop (start + r * row_size_of cs) (length a.0) alloc)
            ∙ ap (drop (length a.0)) whole
            ∙ drop-append a.0 (b.0 ++ after)) in
      (
        head.0 ∷ ih.0,
        read_rows_step alloc start (row_size_of cs) (columns_for cs os) (length rest) r head.0 ih.0
            (omega (arith, suc-mul (length rest) (row_size_of cs)))
            (ap (create_row (columns_for cs os)) whole ∙ head.1) ih.1,
        (head.2, ih.2),
      )
