-- ===== src/Layla/Decompress/Fuel.antt =====
-- The fuel of `decompress`: the length of a copy ends before the stream comes down to address 0, and
-- every token writes at least one byte.
use cri_archive_lib.Base.{ℕ, zero, suc, ◌+◌, ◌-◌, ◌^◌, ◌≤◌, ◌<◌, ◌≡◌, ◌≢◌, refl, ap, arith, ◌==◌}
use cri_archive_lib.Base.{Bool, true, false, leb, Option, some, List, [], ◌∷◌, Bool-cases}
use cri_archive_lib.Base.{inl, inr, if◌then◌else◌, ==_iff, length}
use cri_archive_lib.Layla.Cursor.{Cursor, Memory, Read}
use cri_archive_lib.Layla.Cursor.Single.{bits, read_bits-lt}
use cri_archive_lib.Layla.Cursor.Bounds.{read_bits-le, bits-step, bits-bottom}
use cri_archive_lib.Layla.Copy.{copy_loop, copy_loop-pwrite}
use cri_archive_lib.Layla.Tokens.{Progress, copied, min_copy_length}
use cri_archive_lib.Layla.Tokens.Exact.{
  groups, groups-le, copy_exact, raw_exact, token_exact, token_exact-lt,
}
use cri_archive_lib.Layla.Decompress.Exact.{loop_exact}

-- A read that is there and does not go up.
abbrev Found : Cursor → Option (Read ℕ) → Type 0
Found c o = (r : Read ℕ) × (o ≡ some r) × (r.cursor.cdata ≤ c.cdata)

module _ (mem : Memory) (bytes : (a : ℕ) → mem a < 256) (low : mem 0 < 255) where
  choose :
      (c : Cursor) (b : Bool) {x y : Option (Read ℕ)}
      → (b ≡ true → Found c x)
      → Found c y
      → Found c (if b then x else y)
  choose c true f g = f refl
  choose c false f g = g

  long-Found :
      (fuel : ℕ) (c : Cursor) (n : ℕ)
      → c.bits_left < 8
      → c.cdata < fuel
      → Found c (groups fuel [] mem c n)
  unfolding groups
  long-Found zero c n h small = absurd (omega arith)
  long-Found (suc fuel) c n h small =
      let g = bits 8 mem c in
      choose c (g.value == 255)
        (λ full.
          let h' = read_bits-lt 8 mem c 0 h in
          let step = bits-step mem bytes c h in
          let pos : c.cdata ≢ 0 = λ e.
            let lt = bits-bottom mem bytes c h low e in
            let eq = (==_iff g.value 255).0 full in absurd (omega arith) in
          let ih = long-Found fuel g.cursor (n + g.value) h' (omega (arith, step, pos)) in
          (ih.0, ih.1, omega (arith, step, ih.2)))
        (record { value = n + g.value; cursor = g.cursor }, refl, read_bits-le 8 mem c 0)

  groups-Found :
      (fuel : ℕ) (widths : List ℕ) (c : Cursor) (n : ℕ)
      → c.bits_left < 8
      → length widths + c.cdata < fuel
      → Found c (groups fuel widths mem c n)
  unfolding groups
  groups-Found zero widths c n h small = absurd (omega arith)
  groups-Found (suc fuel) [] c n h small = long-Found (suc fuel) c n h (omega arith)
  groups-Found (suc fuel) (w ∷ ws) c n h small =
      let g = bits w mem c in
      let down = read_bits-le w mem c 0 in
      choose c (g.value == 2 ^ w - 1)
        (λ full.
          let h' = read_bits-lt w mem c 0 h in
          let ih = groups-Found fuel ws g.cursor (n + g.value) h' (omega (arith, down)) in
          (ih.0, ih.1, omega (arith, down, ih.2)))
        (record { value = n + g.value; cursor = g.cursor }, refl, down)

  -- A token is read, the cursor does not go up, and the output goes down.
  abbrev Written : Progress → Option Progress → Type 0
  Written s o =
      (s' : Progress) × (o ≡ some s')
      × (s'.cursor.cdata ≤ s.cursor.cdata)
      × (s'.written.pwrite ≤ s.written.pwrite - 1)

  copy-Written :
      (fuel : ℕ) (s : Progress) (c : Cursor)
      → c.bits_left < 8
      → c.cdata ≤ s.cursor.cdata
      → c.cdata < fuel
      → Written s (copy_exact fuel mem c s.written)
  unfolding copied
  copy-Written fuel s c h down small =
      let widths : List ℕ = 2 ∷ 3 ∷ 5 ∷ [] in
      let fuel' = suc (suc (suc fuel)) in
      let g = bits 13 mem c in
      let d = read_bits-le 13 mem c 0 in
      let h' = read_bits-lt 13 mem c 0 h in
      let found = groups-Found fuel' widths g.cursor min_copy_length h' (omega (arith, d)) in
      let r = found.0 in
      let more = groups-le mem bytes fuel' widths g.cursor min_copy_length h' found.1 in
      let o = copy_loop r.value (g.value + min_copy_length) s.written in
      (
        record { cursor = r.cursor; written = o },
        ap (λ x. copied copy_loop x g.value s.written) found.1,
        omega (arith, found.2, d, down),
        omega (arith, copy_loop-pwrite r.value (g.value + min_copy_length) s.written, more.0),
      )

  token-Written :
      (fuel : ℕ) (s : Progress)
      → s.cursor.bits_left < 8
      → s.cursor.cdata < fuel
      → Written s (token_exact fuel mem s)
  unfolding token_exact
  token-Written fuel s h small =
      let flag = bits 1 mem s.cursor in
      let h' = read_bits-lt 1 mem s.cursor 0 h in
      let d = read_bits-le 1 mem s.cursor 0 in
      elim (Bool-cases (flag.value == 1)) [
        | inl e ↦ rw e (copy-Written fuel s flag.cursor h' d (omega (arith, d)))
        | inr e ↦ rw e (
          raw_exact mem flag.cursor s.written,
          refl,
          omega (arith, d, read_bits-le 8 mem flag.cursor 0),
          omega arith,
        )
      ]

  -- With more fuel than there are bytes before the cursor and bytes to write, the loop ends, below
  -- `pmin`.
  pub loop_exact-ends :
      (fuel pmin : ℕ) (s : Progress)
      → s.cursor.bits_left < 8
      → 0 < pmin
      → s.cursor.cdata + (s.written.pwrite + 1 - pmin) < fuel
      → (s' : Progress) × (loop_exact fuel mem pmin s ≡ some s') × (s'.written.pwrite < pmin)
  unfolding loop_exact
  loop_exact-ends zero pmin s h pos small = absurd (omega arith)
  loop_exact-ends (suc fuel) pmin s h pos small = elim (Bool-cases (leb pmin s.written.pwrite)) [
    | inl e ↦
        let le : pmin ≤ s.written.pwrite = ground arith in
        let w = token-Written fuel s h (omega arith) in
        let h' = token_exact-lt mem bytes fuel s h w.1 in
        let ih = loop_exact-ends fuel pmin w.0 h' pos (omega (arith, w.2, w.3)) in
        (ih.0, (simp (loop_exact, e, w.1, ih.1)), ih.2)
    | inr e ↦ let lt : s.written.pwrite < pmin = ground arith in (s, simp (loop_exact, e), lt)
  ]
