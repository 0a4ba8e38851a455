-- ===== src/Utf/Interned.antt =====
-- The string pool of a table: what it keeps while strings are interned.
use cri_archive_lib.Base.{
  ℕ, suc, ◌^◌, ◌<◌, ◌≡◌, refl, ◌∙◌, ap, subst, arith, Bool, true, ltb, ltb→lt, Bool-cases,
  Option-cases, inl, inr,
}
use cri_archive_lib.Base.{
  List, [], ◌∷◌, ◌++◌, length, All, AllPairs, Str, none, some, some-inj, ok, >>=-eq-ok, ok-inj,
  ensure-inv,
}
use cri_archive_lib.Strings.{
  Entry, entry, same_str, find_value, get_string, Pool, intern_string, utf8, parse_strings,
}
use cri_archive_lib.Strings.RoundTrip.{
  IsPlain, pool_of, entries, flatten, found_entry, All-append, intern_string-new,
  parse_from-flatten,
}
use cri_archive_lib.Writer.{arithmetic_overflow}
use cri_archive_lib.Writer.Itoc.{UtfValue}
use cri_archive_lib.Writer.Utf.{UtfColumn}
use cri_archive_lib.Writer.Utf.Pools.{intern_names, intern_value, intern_row, intern_rows}

-- A string that was found before is found at the same offset.
abbrev pub Keeps : Pool → Pool → Type 0
Keeps p q = (v : Str) (r : ℕ) → find_value v p.offsets ≡ some r → find_value v q.offsets ≡ some r

pub same_str_refl : (v : Str) → same_str v v ≡ true
unfolding same_str
same_str_refl [] = refl
same_str_refl (x ∷ v) = ground (arith, same_str_refl v)

find_value-append :
    (v : Str) (r : ℕ) (es more : List Entry)
    → find_value v es ≡ some r
    → find_value v (es ++ more) ≡ some r
unfolding find_value
find_value-append v r [] more h = cc
find_value-append v r (e ∷ es) more h = elim (Bool-cases (same_str e.value v)) [
  | inl t ↦ rw t (rw t at h)
  | inr t ↦ rw t (find_value-append v r es more (rw t at h))
]

find_value_last :
    (v : Str) (r : ℕ) (es : List Entry)
    → find_value v es ≡ none
    → find_value v (es ++ (entry r v ∷ [])) ≡ some r
unfolding find_value
find_value_last v r [] h = rw (same_str_refl v) refl
find_value_last v r (e ∷ es) h = elim (Bool-cases (same_str e.value v)) [
  | inl t ↦ let h' = rw t at h in cc
  | inr t ↦ rw t (find_value_last v r es (rw t at h))
]

pub find_value_bound :
    (v : Str) (r : ℕ) (es : List Entry)
    → All (λ (e : Entry). e.offset < 2 ^ 32) es
    → find_value v es ≡ some r
    → r < 2 ^ 32
unfolding find_value
find_value_bound v r [] b h = cc
find_value_bound v r (e ∷ es) b h = elim (Bool-cases (same_str e.value v)) [
  | inl t ↦ subst (λ (n : ℕ). n < 2 ^ 32) (some-inj (rw t at h)) b.0
  | inr t ↦ find_value_bound v r es b.1 (rw t at h)
]

bounds-append :
    (es : List Entry) (e : Entry)
    → All (λ (e : Entry). e.offset < 2 ^ 32) es
    → e.offset < 2 ^ 32
    → All (λ (e : Entry). e.offset < 2 ^ 32) (es ++ (e ∷ []))
bounds-append [] e h he = (he, tt)
bounds-append (x ∷ es) e h he = (h.0, bounds-append es e h.1 he)

module _ (is_utf8 : Str → Bool) (decode_sjis : Str → Str) where
  -- A pool of plain strings whose offsets have 32 bits.
  pub record IsSound (p : Pool) : Type 0 where
    pub strings : List Str
    pub same : p ≡ pool_of strings
    pub plain : All (IsPlain is_utf8 decode_sjis) strings
    pub bounded : All (λ (e : Entry). e.offset < 2 ^ 32) p.offsets

  -- A pool that is sound still, and finds what was found.
  pub record Grows (p q : Pool) : Type 0 where
    pub sound : IsSound q
    pub keeps : Keeps p q

  -- What a call of `intern_string` gives.
  pub record IsInterned (v : Str) (r : ℕ) (p q : Pool) : Type 0 where
    pub grows : Grows p q
    pub bound : r < 2 ^ 32
    pub found : find_value v q.offsets ≡ some r

  Grows-refl : {p : Pool} → IsSound p → Grows p p
  Grows-refl s = record { sound = s; keeps = λ v r h. h }

  Grows-trans : {p q r : Pool} → Grows p q → Grows q r → Grows p r
  Grows-trans g h = record { sound = h.sound; keeps = λ v n e. h.keeps v n (g.keeps v n e) }

  intern_known :
      (v : Str) (p q : Pool) (r o : ℕ)
      → IsSound p
      → find_value v p.offsets ≡ some o
      → intern_string v p ≡ ok (r, q)
      → IsInterned v r p q
  unfolding intern_string
  intern_known v p q r o s known e =
      let same = ok-inj refl (rw (intern_string, known) at e) in
      let at : o ≡ r = ap (λ (x : ℕ × Pool). x.0) same in
      let kept : p ≡ q = ap (λ (x : ℕ × Pool). x.1) same in
      subst (λ (x : Pool). IsInterned v r p x) kept
        (record {
          grows = Grows-refl s;
          bound = subst (λ (n : ℕ). n < 2 ^ 32) at (find_value_bound v o p.offsets s.bounded known);
          found = known ∙ ap (λ (n : ℕ). some n) at;
        })

  intern_new :
      (v : Str) (p q : Pool) (r : ℕ)
      → IsSound p
      → IsPlain is_utf8 decode_sjis v
      → find_value v p.offsets ≡ none
      → intern_string v p ≡ ok (r, q)
      → IsInterned v r p q
  unfolding intern_string
  intern_new v p q r s plain new e =
      let done =
        ensure-inv (ltb (length p.pool) (2 ^ 32)) arithmetic_overflow _
          (rw (intern_string, new) at e) in
      let same = ok-inj refl done.1 in
      let at : length p.pool ≡ r = ap (λ (x : ℕ × Pool). x.0) same in
      let grown : p.offsets ++ (entry (length p.pool) v ∷ []) ≡ q.offsets =
        ap (λ (x : ℕ × Pool). x.1.offsets) same in
      let bound : length p.pool < 2 ^ 32 = ltb→lt _ _ done.0 in
      let none_here = subst (λ (x : Pool). find_value v x.offsets ≡ none) s.same new in
      let run = subst (λ (x : Pool). intern_string v x ≡ ok (r, q)) s.same e in
      record {
        grows = record {
          sound = record {
            strings = s.strings ++ (v ∷ []);
            same = (intern_string-new v s.strings none_here run).1;
            plain = All-append (IsPlain is_utf8 decode_sjis) s.strings v s.plain plain;
            bounded =
                subst (λ (es : List Entry). All (λ (e : Entry). e.offset < 2 ^ 32) es) grown
                  (bounds-append p.offsets (entry (length p.pool) v) s.bounded bound);
          };
          keeps = λ u n h.
              subst (λ (es : List Entry). find_value u es ≡ some n) grown
                (find_value-append u n p.offsets _ h);
        };
        bound = subst (λ (n : ℕ). n < 2 ^ 32) at bound;
        found =
            subst (λ (es : List Entry). find_value v es ≡ some r) grown
              (find_value_last v (length p.pool) p.offsets new ∙ ap (λ (n : ℕ). some n) at);
      }

  pub intern_string-IsInterned :
      (v : Str) (p q : Pool) (r : ℕ)
      → IsSound p
      → IsPlain is_utf8 decode_sjis v
      → intern_string v p ≡ ok (r, q)
      → IsInterned v r p q
  intern_string-IsInterned v p q r s plain e = elim (Option-cases (find_value v p.offsets)) [
    | inr (o, known) ↦ intern_known v p q r o s known e
    | inl new ↦ intern_new v p q r s plain new e
  ]

  -- The names of the columns, each at its offset.
  pub record IsNamed (cs : List UtfColumn) (os : List ℕ) (p q : Pool) : Type 0 where
    pub grows : Grows p q
    pub count : length os ≡ length cs
    pub bound : All (λ o. o < 2 ^ 32) os
    pub found : AllPairs (λ (c : UtfColumn) (o : ℕ). find_value c.name q.offsets ≡ some o) cs os

  pub intern_names-IsNamed :
      (cs : List UtfColumn) (p q : Pool) (os : List ℕ)
      → IsSound p
      → All (λ (c : UtfColumn). IsPlain is_utf8 decode_sjis c.name) cs
      → intern_names cs p ≡ ok (os, q)
      → IsNamed cs os p q
  unfolding intern_names
  intern_names-IsNamed [] p q os s plain e =
      let same = ok-inj refl e in
      let none_read : [] ≡ os = ap (λ (x : List ℕ × Pool). x.0) same in
      let kept : p ≡ q = ap (λ (x : List ℕ × Pool). x.1) same in
      subst (λ (x : Pool). IsNamed [] os p x) kept
        (subst (λ (x : List ℕ). IsNamed [] x p p) none_read
          (record { grows = Grows-refl s; count = refl; bound = tt; found = tt }))
  intern_names-IsNamed (c ∷ cs) p q os s plain e =
      let a = >>=-eq-ok (intern_string c.name p) _ e in
      let head = intern_string-IsInterned c.name p a.0.1 a.0.0 s plain.0 a.1 in
      let b = >>=-eq-ok (intern_names cs a.0.1) _ a.2 in
      let ih = intern_names-IsNamed cs a.0.1 b.0.1 b.0.0 head.grows.sound plain.1 b.1 in
      let same = ok-inj refl b.2 in
      let read : a.0.0 ∷ b.0.0 ≡ os = ap (λ (x : List ℕ × Pool). x.0) same in
      let kept : b.0.1 ≡ q = ap (λ (x : List ℕ × Pool). x.1) same in
      subst (λ (x : Pool). IsNamed (c ∷ cs) os p x) kept
        (subst (λ (x : List ℕ). IsNamed (c ∷ cs) x p b.0.1) read
          (record {
            grows = Grows-trans head.grows ih.grows;
            count = ap suc ih.count;
            bound = (head.bound, ih.bound);
            found = (ih.grows.keeps c.name a.0.0 head.found, ih.found);
          }))

  -- The strings among the values.
  abbrev pub IsPlainValue : UtfValue → Type 0
  IsPlainValue (UtfValue.string s) = IsPlain is_utf8 decode_sjis s
  IsPlainValue v = Unit

  intern_value-Grows :
      (v : UtfValue) (p q : Pool) → IsSound p → IsPlainValue v → intern_value v p ≡ ok q → Grows p q
  unfolding intern_value
  intern_value-Grows (UtfValue.string v) p q s plain e =
      let a = >>=-eq-ok (intern_string v p) _ e in
      let i = intern_string-IsInterned v p a.0.1 a.0.0 s plain a.1 in
      subst (λ (x : Pool). Grows p x) (ok-inj refl a.2) i.grows
  intern_value-Grows (UtfValue.uint16 v) p q s plain e =
      subst (λ (x : Pool). Grows p x) (ok-inj refl e) (Grows-refl s)
  intern_value-Grows (UtfValue.uint32 v) p q s plain e =
      subst (λ (x : Pool). Grows p x) (ok-inj refl e) (Grows-refl s)
  intern_value-Grows (UtfValue.uint64 v) p q s plain e =
      subst (λ (x : Pool). Grows p x) (ok-inj refl e) (Grows-refl s)
  intern_value-Grows (UtfValue.data_bytes v) p q s plain e =
      subst (λ (x : Pool). Grows p x) (ok-inj refl e) (Grows-refl s)

  intern_row-Grows :
      (vs : List UtfValue) (p q : Pool)
      → IsSound p
      → All IsPlainValue vs
      → intern_row vs p ≡ ok q
      → Grows p q
  unfolding intern_row
  intern_row-Grows [] p q s plain e = subst (λ (x : Pool). Grows p x) (ok-inj refl e) (Grows-refl s)
  intern_row-Grows (v ∷ vs) p q s plain e =
      let a = >>=-eq-ok (intern_value v p) _ e in
      let g = intern_value-Grows v p a.0 s plain.0 a.1 in
      Grows-trans g (intern_row-Grows vs a.0 q g.sound plain.1 a.2)

  pub intern_rows-Grows :
      (rows : List (List UtfValue)) (p q : Pool)
      → IsSound p
      → All (All IsPlainValue) rows
      → intern_rows rows p ≡ ok q
      → Grows p q
  unfolding intern_rows
  intern_rows-Grows [] p q s plain e =
      subst (λ (x : Pool). Grows p x) (ok-inj refl e) (Grows-refl s)
  intern_rows-Grows (row ∷ rows) p q s plain e =
      let a = >>=-eq-ok (intern_row row p) _ e in
      let g = intern_row-Grows row p a.0 s plain.0 a.1 in
      Grows-trans g (intern_rows-Grows rows a.0 q g.sound plain.1 a.2)

  -- A string that is found is what the reader has at the offset.
  pub find_value-get_string :
      (v : Str) (r : ℕ) (p : Pool) (s : IsSound p)
      → find_value v p.offsets ≡ some r
      → get_string r (entries 0 s.strings) ≡ some v
  find_value-get_string v r p s h =
      (found_entry 0 r s.strings v
        (subst (λ (x : Pool). find_value v x.offsets ≡ some r) s.same h)).1

  pub parse_strings-entries :
      (p : Pool) (s : IsSound p)
      → parse_strings is_utf8 decode_sjis utf8 p.pool ≡ ok (entries 0 s.strings)
  unfolding parse_strings
  parse_strings-entries p s =
      ap (λ (x : Pool). parse_strings is_utf8 decode_sjis utf8 x.pool) s.same
      ∙ parse_from-flatten is_utf8 decode_sjis (length (flatten s.strings)) 0 s.strings
          (omega arith) s.plain
