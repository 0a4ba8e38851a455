-- ===== src/Utf/Placed.antt =====
-- The data pool of a table: every field has its bytes where its location says.
use cri_archive_lib.Base.{
  ℕ, suc, ◌+◌, ◌^◌, ◌<◌, ◌≤◌, ◌≡◌, refl, sym, ◌∙◌, ap, subst, arith, true, ltb, ltb→lt, ◌==◌, ◌&&◌,
  Bool-cases, inl, inr,
}
use cri_archive_lib.Base.{
  List, [], ◌∷◌, ◌++◌, length, length-append, take, drop, drop-append, take_length,
  take-drop-append, get_elem?, some, some-inj, ok, >>=-eq-ok, ok-inj, ensure-inv,
}
use cri_archive_lib.Writer.{arithmetic_overflow}
use cri_archive_lib.Writer.Itoc.{UtfValue}
use cri_archive_lib.Writer.Utf.Pools.{
  DataPool, Location, empty_data, place_value, place_row, place_rows,
}

-- The value in a row and a column.
abbrev pub Cell : List (List UtfValue) → ℕ → ℕ → UtfValue → Type 0
Cell rows r c v = (row : List UtfValue) × (get_elem? rows r ≡ some row) × (get_elem? row c ≡ some v)

-- The bytes `v` stand in the pool at `l`.
pub record Stands (bytes : List ℕ) (l : Location) (v : List ℕ) : Type 0 where
  pub size : l.length ≡ length v
  pub slice : take l.length (drop l.offset bytes) ≡ v
  pub within : l.offset + l.length ≤ length bytes
  pub offset_bound : l.offset < 2 ^ 32
  pub length_bound : l.length < 2 ^ 32

-- Every location is that of a data field, whose bytes stand there.
abbrev pub IsPlaced : List (List UtfValue) → DataPool → Type 0
IsPlaced rows p =
    (r c : ℕ) (l : Location)
    → p.locations r c ≡ some l
    → (v : List ℕ) × Cell rows r c (UtfValue.data_bytes v) × Stands p.bytes l v

Stands-append :
    {bytes : List ℕ} {l : Location} {v : List ℕ} (more : List ℕ)
    → Stands bytes l v
    → Stands (bytes ++ more) l v
Stands-append {bytes} {l} {v} more s = record {
  size = s.size;
  slice = take-drop-append l.offset l.length bytes more s.within ∙ s.slice;
  within = omega (arith, length-append bytes more, s.within);
  offset_bound = s.offset_bound;
  length_bound = s.length_bound;
}

new_Stands :
    (bytes v : List ℕ)
    → length bytes < 2 ^ 32
    → length v < 2 ^ 32
    → Stands (bytes ++ v) (record { offset = length bytes; length = length v }) v
new_Stands bytes v hb hv = record {
  size = refl;
  slice = ap (take (length v)) (drop-append bytes v) ∙ take_length v;
  within = omega (arith, length-append bytes v);
  offset_bound = hb;
  length_bound = hv;
}

same_place : (r c ri ci : ℕ) → ((r == ri) && (c == ci)) ≡ true → (r ≡ ri) × (c ≡ ci)
same_place r c ri ci h = ground arith

module _ (rows : List (List UtfValue)) where
  empty_data-IsPlaced : IsPlaced rows empty_data
  empty_data-IsPlaced r c l h = cc

  place_data :
      (ri ci : ℕ) (v : List ℕ) (p q : DataPool)
      → Cell rows ri ci (UtfValue.data_bytes v)
      → IsPlaced rows p
      → place_value ri ci (UtfValue.data_bytes v) p ≡ ok q
      → IsPlaced rows q
  unfolding place_value
  place_data ri ci v p q cell s e =
      let a = ensure-inv (ltb (length p.bytes) (2 ^ 32)) arithmetic_overflow _ e in
      let b = ensure-inv (ltb (length v) (2 ^ 32)) arithmetic_overflow _ a.1 in
      subst (λ (x : DataPool). IsPlaced rows x) (ok-inj refl b.1)
        (λ r c l h. elim (Bool-cases ((r == ri) && (c == ci))) [
          | inl t ↦
              let same = same_place r c ri ci t in
              let at = some-inj (rw t at h) in
              (
                v,
                subst (λ (n : ℕ). Cell rows n c (UtfValue.data_bytes v)) (sym same.0)
                    (subst (λ (n : ℕ). Cell rows ri n (UtfValue.data_bytes v)) (sym same.1) cell),
                subst (λ (x : Location). Stands (p.bytes ++ v) x v) at
                    (new_Stands p.bytes v (ltb→lt _ _ a.0) (ltb→lt _ _ b.0)),
              )
          | inr t ↦ let old = s r c l (rw t at h) in (old.0, old.1, Stands-append v old.2)
        ])

  place_value-IsPlaced :
      (ri ci : ℕ) (v : UtfValue) (p q : DataPool)
      → Cell rows ri ci v
      → IsPlaced rows p
      → place_value ri ci v p ≡ ok q
      → IsPlaced rows q
  unfolding place_value
  place_value-IsPlaced ri ci (UtfValue.data_bytes v) p q cell s e = place_data ri ci v p q cell s e
  place_value-IsPlaced ri ci (UtfValue.uint16 v) p q cell s e =
      subst (λ (x : DataPool). IsPlaced rows x) (ok-inj refl e) s
  place_value-IsPlaced ri ci (UtfValue.uint32 v) p q cell s e =
      subst (λ (x : DataPool). IsPlaced rows x) (ok-inj refl e) s
  place_value-IsPlaced ri ci (UtfValue.uint64 v) p q cell s e =
      subst (λ (x : DataPool). IsPlaced rows x) (ok-inj refl e) s
  place_value-IsPlaced ri ci (UtfValue.string v) p q cell s e =
      subst (λ (x : DataPool). IsPlaced rows x) (ok-inj refl e) s

  place_row-IsPlaced :
      (ri ci : ℕ) (vs : List UtfValue) (p q : DataPool)
      → ((j : ℕ) (v : UtfValue) → get_elem? vs j ≡ some v → Cell rows ri (ci + j) v)
      → IsPlaced rows p
      → place_row ri ci vs p ≡ ok q
      → IsPlaced rows q
  unfolding place_row
  place_row-IsPlaced ri ci [] p q cells s e =
      subst (λ (x : DataPool). IsPlaced rows x) (ok-inj refl e) s
  place_row-IsPlaced ri ci (v ∷ vs) p q cells s e =
      let a = >>=-eq-ok (place_value ri ci v p) _ e in
      let here : ci + 0 ≡ ci = omega arith in
      let cell = subst (λ (n : ℕ). Cell rows ri n v) here (cells 0 v refl) in
      let head = place_value-IsPlaced ri ci v p a.0 cell s a.1 in
      place_row-IsPlaced ri (suc ci) vs a.0 q
        (λ j u h.
          let next : ci + suc j ≡ suc ci + j = omega arith in
          subst (λ (n : ℕ). Cell rows ri n u) next (cells (suc j) u h))
        head a.2

  pub place_rows-IsPlaced :
      (ri : ℕ) (rest : List (List UtfValue)) (p q : DataPool)
      → ((i : ℕ) (row : List UtfValue)
          → get_elem? rest i ≡ some row
          → get_elem? rows (ri + i) ≡ some row)
      → IsPlaced rows p
      → place_rows ri rest p ≡ ok q
      → IsPlaced rows q
  unfolding place_rows
  place_rows-IsPlaced ri [] p q at s e = subst (λ (x : DataPool). IsPlaced rows x) (ok-inj refl e) s
  place_rows-IsPlaced ri (row ∷ rest) p q at s e =
      let a = >>=-eq-ok (place_row ri 0 row p) _ e in
      let here : ri + 0 ≡ ri = omega arith in
      let row_at = subst (λ (n : ℕ). get_elem? rows n ≡ some row) here (at 0 row refl) in
      let head =
        place_row-IsPlaced ri 0 row p a.0
          (λ j v h.
            let from_zero : j ≡ 0 + j = omega arith in
            (row, row_at, subst (λ (n : ℕ). get_elem? row n ≡ some v) from_zero h))
          s a.1 in
      place_rows-IsPlaced (suc ri) rest a.0 q
        (λ i u h.
          let next : ri + suc i ≡ suc ri + i = omega arith in
          subst (λ (n : ℕ). get_elem? rows n ≡ some u) next (at (suc i) u h))
        head a.2

  pub data-IsPlaced : (q : DataPool) → place_rows 0 rows empty_data ≡ ok q → IsPlaced rows q
  data-IsPlaced q e =
      place_rows-IsPlaced 0 rows empty_data q
        (λ i row h.
          let from_zero : i ≡ 0 + i = omega arith in
          subst (λ (n : ℕ). get_elem? rows n ≡ some row) from_zero h)
        empty_data-IsPlaced e
