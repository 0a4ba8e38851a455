-- ===== src/Strings/RoundTrip.antt =====
-- A pool that was built by interning is read back as its strings.
use cri_archive_lib.Base.{
  ℕ, zero, suc, ◌+◌, ◌^◌, ◌≤◌, ◌≡◌, ◌≢◌, refl, sym, ◌∙◌, ap, ap₂, arith, Bool, true, false, ltb,
  ◌==◌, ==_iff,
}
use cri_archive_lib.Base.{
  Bool-cases, Option-cases, inl, inr, ◌⊎◌, length, length-append, Str, All, none, some, List, [],
  ◌∷◌, ◌++◌,
}
use cri_archive_lib.Base.{ok, append_assoc, ensure-inv, ok-inj, some-inj, ◌>>=◌}
use cri_archive_lib.Strings.{
  Entry, entry, same_str, find_value, get_string, Pool, intern_string, cut_at_zero, utf8, decode,
  parse_from, parse_strings,
}
use cri_archive_lib.Writer.{arithmetic_overflow}

-- The bytes of a pool with these strings, and their entries from `o` on.
abbrev pub flatten : List Str → Str
flatten [] = []
flatten (v ∷ vs) = v ++ (0 ∷ flatten vs)

abbrev pub entries : ℕ → List Str → List Entry
entries o [] = []
entries o (v ∷ vs) = entry o v ∷ entries (o + (length v + 1)) vs

-- No byte of the string is zero.
abbrev pub HasNoZero : Str → Type 0
HasNoZero v = All (λ b. b ≢ 0) v

cut-append :
    (v rest : Str)
    → HasNoZero v
    → cut_at_zero (v ++ (0 ∷ rest)) ≡ some (record { bytes = v; rest = rest })
unfolding cut_at_zero
cut-append [] rest h = refl
cut-append (b ∷ v) rest h =
    let ne = h.0 in let t : (b == 0) ≡ false = ground arith in rw (t, cut-append v rest h.1) refl

module _ (is_utf8 : Str → Bool) (decode_sjis : Str → Str) where
  -- A string that the pool can hold and give back.
  abbrev pub IsPlain : Str → Type 0
  IsPlain v = HasNoZero v × (is_utf8 v ≡ true)

  parse_head :
      (fuel o : ℕ) (s v rest : Str)
      → s ≡ v ++ (0 ∷ rest)
      → IsPlain v
      → parse_from is_utf8 decode_sjis (suc fuel) utf8 o s ≡ (
          parse_from is_utf8 decode_sjis fuel utf8 (o + (length v + 1)) rest >>= λ strings.
          ok (entry o v ∷ strings))
  unfolding parse_from decode
  parse_head fuel o [] [] rest e h = cc
  parse_head fuel o [] (x ∷ v) rest e h = cc
  parse_head fuel o (b ∷ s) v rest e h =
      let c = ap cut_at_zero e ∙ cut-append v rest h.0 in simp (parse_from, decode, c, h.1)

  pub parse_from-flatten :
      (fuel o : ℕ) (vs : List Str)
      → length (flatten vs) ≤ fuel
      → All IsPlain vs
      → parse_from is_utf8 decode_sjis fuel utf8 o (flatten vs) ≡ ok (entries o vs)
  unfolding parse_from
  parse_from-flatten fuel o [] le h = refl
  parse_from-flatten zero o (v ∷ vs) le h = absurd (omega (arith, length-append v (0 ∷ flatten vs)))
  parse_from-flatten (suc fuel) o (v ∷ vs) le h =
      let n = length-append v (0 ∷ flatten vs) in
      let ih = parse_from-flatten fuel (o + (length v + 1)) vs (omega (arith, n)) h.1 in
      parse_head fuel o (flatten (v ∷ vs)) v (flatten vs) refl h.0 ∙ rw ih refl

-- The pool that holds the strings `vs`, in the order in which they came.
abbrev pub pool_of : List Str → Pool
pool_of vs = record { pool = flatten vs; offsets = entries 0 vs }

pub flatten-append :
    (vs : List Str) (v : Str) → flatten (vs ++ (v ∷ [])) ≡ flatten vs ++ (v ++ (0 ∷ []))
flatten-append [] v = refl
flatten-append (u ∷ vs) v =
    ap (λ t. u ++ (0 ∷ t)) (flatten-append vs v)
    ∙ sym (append_assoc u (0 ∷ flatten vs) (v ++ (0 ∷ [])))

pub entries-append :
    (o : ℕ) (vs : List Str) (v : Str)
    → entries o (vs ++ (v ∷ [])) ≡ entries o vs ++ (entry (o + length (flatten vs)) v ∷ [])
entries-append o [] v = let e : o ≡ o + 0 = omega arith in ap (λ n. entry n v ∷ []) e
entries-append o (u ∷ vs) v =
    let n = length-append u (0 ∷ flatten vs) in
    let e : o + (length u + 1) + length (flatten vs) ≡ o + length (u ++ (0 ∷ flatten vs)) =
      omega (arith, n) in
    ap (λ t. entry o u ∷ t)
      (entries-append (o + (length u + 1)) vs v
        ∙ ap (λ n. entries (o + (length u + 1)) vs ++ (entry n v ∷ [])) e)

pub same_str-eq : (xs ys : Str) → same_str xs ys ≡ true → xs ≡ ys
unfolding same_str
same_str-eq [] [] h = refl
same_str-eq [] (y ∷ ys) h = cc
same_str-eq (x ∷ xs) [] h = cc
same_str-eq (x ∷ xs) (y ∷ ys) h = elim (Bool-cases (x == y)) [
  | inl e ↦ ap₂ ◌∷◌ ((==_iff x y).0 e) (same_str-eq xs ys (rw e at h))
  | inr e ↦ let h' = rw e at h in cc
]

-- What is found has its offset behind `o`, and is what the offset gives.
pub found_entry :
    (o r : ℕ) (vs : List Str) (v : Str)
    → find_value v (entries o vs) ≡ some r
    → (o ≤ r) × (get_string r (entries o vs) ≡ some v)
unfolding find_value get_string
found_entry o r [] v h = cc
found_entry o r (u ∷ vs) v h = elim (Bool-cases (same_str u v)) [
  | inl e ↦
      let at : o ≡ r = some-inj (rw e at h) in
      let t : (o == r) ≡ true = (==_iff o r).1 at in
      (omega (arith, at), rw t (ap (λ s. some s) (same_str-eq u v e)))
  | inr e ↦
      let ih = found_entry (o + (length u + 1)) r vs v (rw e at h) in
      let t : (o == r) ≡ false = ground (arith, ih.0) in (omega (arith, ih.0), rw t ih.1)
]

last_entry :
    (o : ℕ) (vs : List Str) (v : Str)
    → get_string (o + length (flatten vs)) (entries o (vs ++ (v ∷ []))) ≡ some v
unfolding get_string
last_entry o [] v = let t : (o == (o + 0)) ≡ true = ground arith in rw t refl
last_entry o (u ∷ vs) v =
    let n = length-append u (0 ∷ flatten vs) in
    let e : o + length (u ++ (0 ∷ flatten vs)) ≡ o + (length u + 1) + length (flatten vs) =
      omega (arith, n) in
    let t : (o == (o + length (u ++ (0 ∷ flatten vs)))) ≡ false = ground (arith, n) in
    rw t (
      ap (λ n. get_string n (entries (o + (length u + 1)) (vs ++ (v ∷ [])))) e
      ∙ last_entry (o + (length u + 1)) vs v)

pub intern_string-known :
    (v : Str) (vs : List Str) {r : ℕ}
    → find_value v (entries 0 vs) ≡ some r
    → intern_string v (pool_of vs) ≡ ok (r, pool_of vs)
unfolding intern_string
intern_string-known v vs h = simp (intern_string, h)

pub intern_string-new :
    (v : Str) (vs : List Str) {r : ℕ} {p : Pool}
    → find_value v (entries 0 vs) ≡ none
    → intern_string v (pool_of vs) ≡ ok (r, p)
    → (r ≡ length (flatten vs)) × (p ≡ pool_of (vs ++ (v ∷ [])))
unfolding intern_string
intern_string-new v vs {r} {p} h e =
    let e' = simp (intern_string, h) at e in
    let done = ensure-inv (ltb (length (flatten vs)) (2 ^ 32)) arithmetic_overflow _ e' in
    let same = ok-inj refl done.1 in
    let from_zero : 0 + length (flatten vs) ≡ length (flatten vs) = omega arith in
    let grown = entries-append 0 vs v ∙ ap (λ n. entries 0 vs ++ (entry n v ∷ [])) from_zero in
    (
      ap (λ (x : ℕ × Pool). x.0) (sym same),
      ap (λ (x : ℕ × Pool). x.1) (sym same)
          ∙ ap₂ (λ b o. record { pool = b; offsets = o }) (sym (flatten-append vs v)) (sym grown),
    )

pub All-append :
    (P : Str → Type 0) (vs : List Str) (v : Str) → All P vs → P v → All P (vs ++ (v ∷ []))
All-append P [] v h hv = (hv, tt)
All-append P (u ∷ vs) v h hv = (h.0, All-append P vs v h.1 hv)

-- When a string is interned in a pool that holds plain strings, that is without a zero byte and
-- valid as UTF-8, and is plain itself, the reader parses the pool to a map that has the string at
-- the offset that was given; the pool is the old one, or the old one with the string behind it.
pub intern_string-parse_strings :
    (is_utf8 : Str → Bool) (decode_sjis : Str → Str) (vs : List Str) (v : Str) (r : ℕ) (p : Pool)
    → All (IsPlain is_utf8 decode_sjis) vs
    → IsPlain is_utf8 decode_sjis v
    → intern_string v (pool_of vs) ≡ ok (r, p)
    → (strings : List Entry) × (parse_strings is_utf8 decode_sjis utf8 p.pool ≡ ok strings)
      × (get_string r strings ≡ some v)
      × ((p ≡ pool_of vs) ⊎ (p ≡ pool_of (vs ++ (v ∷ []))))
unfolding parse_strings
intern_string-parse_strings is_utf8 decode_sjis vs v r p h hv e =
    elim (Option-cases (find_value v (entries 0 vs))) [
      | inr (o, known) ↦
          let same = ok-inj (intern_string-known v vs known) e in
          let at : o ≡ r = ap (λ (x : ℕ × Pool). x.0) same in
          let kept : pool_of vs ≡ p = ap (λ (x : ℕ × Pool). x.1) same in
          let found = found_entry 0 o vs v known in
          (
            entries 0 vs,
            ap (λ (x : Pool). parse_from is_utf8 decode_sjis (length x.pool) utf8 0 x.pool)
                  (sym kept)
                ∙ parse_from-flatten is_utf8 decode_sjis (length (flatten vs)) 0 vs (omega arith) h,
            ap (λ n. get_string n (entries 0 vs)) (sym at) ∙ found.1,
            inl (sym kept),
          )
      | inl new ↦
          let d = intern_string-new v vs new e in
          let ws = vs ++ (v ∷ []) in
          let from_zero : length (flatten vs) ≡ 0 + length (flatten vs) = omega arith in
          (
            entries 0 ws,
            ap (λ (x : Pool). parse_from is_utf8 decode_sjis (length x.pool) utf8 0 x.pool) d.1
                ∙ parse_from-flatten is_utf8 decode_sjis (length (flatten ws)) 0 ws (omega arith)
                    (All-append (IsPlain is_utf8 decode_sjis) vs v h hv),
            ap (λ n. get_string n (entries 0 ws)) (d.0 ∙ from_zero) ∙ last_entry 0 vs v,
            inr d.1,
          )
    ]
