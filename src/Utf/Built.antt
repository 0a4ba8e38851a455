-- ===== src/Utf/Built.antt =====
-- What a build that succeeds leaves: sound pools, and the sections where the header says.
use native.Mathlib.Nat.{mul_comm}
use cri_archive_lib.Base.{
  ℕ, suc, ◌+◌, ◌-◌, ◌*◌, ◌^◌, ◌<◌, ◌≡◌, refl, sym, ◌∙◌, ap, subst, arith, Bool, true, ltb, leb,
  ltb→lt,
}
use cri_archive_lib.Base.{
  List, [], ◌∷◌, ◌++◌, length, length-append, drop, get_elem?, Str, All, AllPairs, some, ok,
  >>=-eq-ok, ok-inj, ensure-inv,
}
use cri_archive_lib.Strings.{Pool, find_value, same_str, intern_string}
use cri_archive_lib.Strings.RoundTrip.{IsPlain}
use cri_archive_lib.Schema.Header.{header_size}
use cri_archive_lib.Writer.{arithmetic_overflow}
use cri_archive_lib.Writer.Utf.{UtfColumn, UtfTableBuilder, row_size_of, check_rows}
use cri_archive_lib.Writer.Utf.Pools.{null_pool, empty_data, intern_names, intern_rows, place_rows}
use cri_archive_lib.Writer.Utf.Build.{
  Pools, Sections, fill_pools, sections, header_bytes, column_bytes, rows_bytes, write_table, build,
}
use cri_archive_lib.Utf.{IsSized}
use cri_archive_lib.Utf.Columns.{length-column_bytes}
use cri_archive_lib.Utf.Interned.{
  IsSound, Grows, IsPlainValue, intern_string-IsInterned, intern_names-IsNamed, intern_rows-Grows,
}
use cri_archive_lib.Utf.Placed.{IsPlaced, data-IsPlaced}
use cri_archive_lib.Utf.Fields.{length-rows_bytes}
use cri_archive_lib.Utf.Sections.{
  IsLaid, HasWidths, sections-IsLaid, length-header_bytes, drop_past,
}

module _ (is_utf8 : Str → Bool) (decode_sjis : Str → Str) where
  -- A table whose names and strings are plain, and whose numbers fit their types.
  pub record IsWritable (t : UtfTableBuilder) : Type 0 where
    pub name : IsPlain is_utf8 decode_sjis t.name
    pub columns : All (λ (c : UtfColumn). IsPlain is_utf8 decode_sjis c.name) t.columns
    pub strings : All (All (IsPlainValue is_utf8 decode_sjis)) t.rows
    pub numbers : All (All IsSized) t.rows

  -- What the pools of a table are, when they are filled.
  pub record IsFilled (t : UtfTableBuilder) (p : Pools) : Type 0 where
    pub sound : IsSound is_utf8 decode_sjis p.strings
    pub count : length p.column_name_offsets ≡ length t.columns
    pub bound : All (λ o. o < 2 ^ 32) p.column_name_offsets
    pub found :
        AllPairs
          (λ (c : UtfColumn) (o : ℕ). find_value c.name p.strings.offsets ≡ some o)
          t.columns
          p.column_name_offsets
    pub placed : IsPlaced t.rows p.data_pool
    pub null : find_value [] p.strings.offsets ≡ some 0

  null_pool-IsSound : is_utf8 [] ≡ true → IsSound is_utf8 decode_sjis null_pool
  null_pool-IsSound h = record {
    strings = [] ∷ [];
    same = refl;
    plain = ((tt, h), tt);
    bounded = (omega arith, tt);
  }

  null_pool_found : find_value [] null_pool.offsets ≡ some 0
  unfolding find_value same_str
  null_pool_found = refl

  found-Grows :
      (cs : List UtfColumn) (os : List ℕ) (p q : Pool)
      → Grows is_utf8 decode_sjis p q
      → AllPairs (λ (c : UtfColumn) (o : ℕ). find_value c.name p.offsets ≡ some o) cs os
      → AllPairs (λ (c : UtfColumn) (o : ℕ). find_value c.name q.offsets ≡ some o) cs os
  found-Grows [] [] p q g h = tt
  found-Grows [] (o ∷ os) p q g h = h
  found-Grows (c ∷ cs) [] p q g h = h
  found-Grows (c ∷ cs) (o ∷ os) p q g h = (g.keeps c.name o h.0, found-Grows cs os p q g h.1)

  fill_pools-IsFilled :
      (t : UtfTableBuilder) (p : Pools)
      → is_utf8 [] ≡ true
      → IsWritable t
      → fill_pools t ≡ ok p
      → IsFilled t p
  unfolding fill_pools
  fill_pools-IsFilled t p u w e =
      let a = >>=-eq-ok (intern_string t.name null_pool) _ e in
      let named =
        intern_string-IsInterned is_utf8 decode_sjis t.name null_pool a.0.1 a.0.0
          (null_pool-IsSound u) w.name a.1 in
      let b = >>=-eq-ok (intern_names t.columns a.0.1) _ a.2 in
      let names =
        intern_names-IsNamed is_utf8 decode_sjis t.columns a.0.1 b.0.1 b.0.0 named.grows.sound
          w.columns b.1 in
      let c = >>=-eq-ok (intern_rows t.rows b.0.1) _ b.2 in
      let grown =
        intern_rows-Grows is_utf8 decode_sjis t.rows b.0.1 c.0 names.grows.sound w.strings c.1 in
      let d = >>=-eq-ok (place_rows 0 t.rows empty_data) _ c.2 in
      subst (λ (x : Pools). IsFilled t x) (ok-inj refl d.2)
        (record {
          sound = grown.sound;
          count = names.count;
          bound = names.bound;
          found = found-Grows t.columns b.0.0 b.0.1 c.0 grown names.found;
          placed = data-IsPlaced t.rows d.0 d.1;
          null = grown.keeps [] 0 (names.grows.keeps [] 0 (named.grows.keeps [] 0 null_pool_found));
        })

  -- What the writer's steps give for a table.
  pub record IsBuilt (t : UtfTableBuilder) (bytes : List ℕ) : Type 0 where
    pub pools : Pools
    pub places : Sections
    pub rows : List ℕ
    pub filled : IsFilled t pools
    pub laid : IsLaid t pools places
    pub checked : check_rows t.columns t.rows ≡ ok tt
    pub written : rows_bytes pools 0 t.rows ≡ ok rows
    pub columns_bound : length t.columns < 2 ^ 16
    pub rows_bound : length t.rows < 2 ^ 32
    pub row_bound : row_size_of t.columns < 2 ^ 16
    pub start_bound : places.rows_start - 8 < 2 ^ 16
    pub whole :
        bytes
        ≡ header_bytes t pools places
          ++ (column_bytes t.columns pools.column_name_offsets
              ++ (rows ++ (pools.strings.pool ++ pools.data_pool.bytes)))

  pub build-IsBuilt :
      (t : UtfTableBuilder) (bytes : List ℕ)
      → is_utf8 [] ≡ true
      → IsWritable t
      → build t ≡ ok bytes
      → IsBuilt t bytes
  unfolding build write_table
  build-IsBuilt t bytes u w e =
      let a = ensure-inv (leb (length t.columns) 0xffff) arithmetic_overflow _ e in
      let b = ensure-inv (leb (length t.rows) 0xffffffff) arithmetic_overflow _ a.1 in
      let c = ensure-inv (leb (row_size_of t.columns) 0xffff) arithmetic_overflow _ b.1 in
      let d = >>=-eq-ok (check_rows t.columns t.rows) _ c.1 in
      let p = >>=-eq-ok (fill_pools t) _ d.2 in
      let s = >>=-eq-ok (sections t p.0) _ p.2 in
      let f = ensure-inv (ltb (s.0.rows_start - 8) (2 ^ 16)) arithmetic_overflow _ s.2 in
      let g = ensure-inv (ltb (s.0.string_pool_start - 8) (2 ^ 32)) arithmetic_overflow _ f.1 in
      let h = ensure-inv (ltb (s.0.data_pool_start - 8) (2 ^ 32)) arithmetic_overflow _ g.1 in
      let r = >>=-eq-ok (rows_bytes p.0 0 t.rows) _ h.1 in
      let small = λ (m n : ℕ) (k : leb m n ≡ true). let lt : m < suc n = ground arith in lt in
      record {
        pools = p.0;
        places = s.0;
        rows = r.0;
        filled = fill_pools-IsFilled t p.0 u w p.1;
        laid = sections-IsLaid t p.0 s.0 s.1;
        checked = d.1;
        written = r.1;
        columns_bound = small _ _ a.0;
        rows_bound = small _ _ b.0;
        row_bound = small _ _ c.0;
        start_bound = ltb→lt _ _ f.0;
        whole = sym (ok-inj refl r.2);
      }

  -- Where each section of the bytes begins.
  pub record Splits (t : UtfTableBuilder) (bytes : List ℕ) (b : IsBuilt t bytes) : Type 0 where
    pub columns :
        drop header_size bytes
        ≡ column_bytes t.columns b.pools.column_name_offsets
          ++ (b.rows ++ (b.pools.strings.pool ++ b.pools.data_pool.bytes))
    pub rows :
        drop b.places.rows_start bytes ≡ b.rows ++ (b.pools.strings.pool ++ b.pools.data_pool.bytes)
    pub strings :
        drop b.places.string_pool_start bytes ≡ b.pools.strings.pool ++ b.pools.data_pool.bytes
    pub data_bytes : drop b.places.data_pool_start bytes ≡ b.pools.data_pool.bytes
    pub length_rows : length b.rows ≡ length t.rows * row_size_of t.columns
    pub total : length bytes ≡ b.places.data_pool_start + length b.pools.data_pool.bytes

  pub IsBuilt-Splits :
      (t : UtfTableBuilder) (bytes : List ℕ) (b : IsBuilt t bytes) → IsWritable t → Splits t bytes b
  IsBuilt-Splits t bytes b w =
      let head = header_bytes t b.pools b.places in
      let cols = column_bytes t.columns b.pools.column_name_offsets in
      let strings = b.pools.strings.pool in
      let fields = b.pools.data_pool.bytes in
      let n = length-header_bytes t b.pools b.places in
      let m = length-column_bytes t.columns b.pools.column_name_offsets b.filled.count in
      let k =
        length-rows_bytes t.rows b.pools b.filled.sound.bounded b.filled.placed 0 t.rows t.columns
          b.pools.column_name_offsets b.rows b.filled.count b.checked w.numbers
          (λ i row h.
            let z : i ≡ 0 + i = omega arith in subst (λ (n : ℕ). get_elem? t.rows n ≡ some row) z h)
          b.written in
      let c = drop_past bytes 0 header_size head _ b.whole (omega (arith, n)) in
      let r =
        drop_past bytes header_size b.places.rows_start cols _ c (omega (arith, m, b.laid.rows)) in
      let area = mul_comm (row_size_of t.columns) (length t.rows) in
      let s =
        drop_past bytes b.places.rows_start b.places.string_pool_start b.rows _ r
          (omega (arith, k, area, b.laid.strings)) in
      let d =
        drop_past bytes b.places.string_pool_start b.places.data_pool_start strings fields s
          (omega (arith, b.laid.data_start)) in
      record {
        columns = c;
        rows = r;
        strings = s;
        data_bytes = d;
        length_rows = k;
        total =
            ap length b.whole
            ∙ omega (
              arith,
              length-append head (cols ++ (b.rows ++ (strings ++ fields))),
              length-append cols (b.rows ++ (strings ++ fields)),
              length-append b.rows (strings ++ fields),
              length-append strings fields,
              n,
              m,
              k,
              area,
              b.laid.rows,
              b.laid.strings,
              b.laid.data_start,
            );
      }

  pub widths :
      (t : UtfTableBuilder) (bytes : List ℕ) (b : IsBuilt t bytes)
      → Splits t bytes b
      → length bytes < 2 ^ 32
      → HasWidths t b.places
  widths t bytes b s h = record {
    size = omega (arith, s.total, b.laid.size_field);
    rows = omega (arith, b.laid.rows, b.start_bound);
    strings = omega (arith, s.total, b.laid.rows, b.laid.strings, b.laid.data_start);
    data_start = omega (arith, s.total, b.laid.rows, b.laid.strings, b.laid.data_start);
    columns = b.columns_bound;
    row_size = b.row_bound;
    row_count = b.rows_bound;
  }
