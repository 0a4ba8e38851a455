-- ===== src/Layla/Decompress/Exact.antt =====
-- `decompress` against the loop over the reference tokens, and the fuel that its loops need.
use cri_archive_lib.Base.{ℕ, zero, suc, ◌<◌, ◌≡◌, refl}
use cri_archive_lib.Base.{true, false, leb, Option, none, some, Bool-cases, Option-cases}
use cri_archive_lib.Base.{inl, inr}
use cri_archive_lib.Layla.Cursor.{Memory}
use cri_archive_lib.Layla.Tokens.{Progress}
use cri_archive_lib.Layla.Tokens.Exact.{token_exact, token-exact, token_exact-lt}
use cri_archive_lib.Layla.Decompress.{token_loop}

-- The loop of the reference.
unfoldable pub loop_exact : ℕ → Memory → ℕ → Progress → Option Progress
loop_exact zero mem pmin s = none
loop_exact (suc fuel) mem pmin s = elim (leb pmin s.written.pwrite) [
  | false ↦ some s
  | true ↦ elim (token_exact fuel mem s) [ none ↦ none | some s' ↦ loop_exact fuel mem pmin s' ]
]

module _ (mem : Memory) (bytes : (a : ℕ) → mem a < 256) where
  pub token_loop-exact :
      (fuel pmin : ℕ) (s : Progress)
      → s.cursor.bits_left < 8
      → token_loop fuel mem pmin s ≡ loop_exact fuel mem pmin s
  unfolding token_loop loop_exact
  token_loop-exact zero pmin s h = refl
  token_loop-exact (suc fuel) pmin s h = elim (Bool-cases (leb pmin s.written.pwrite)) [
    | inl e ↦ elim (Option-cases (token_exact fuel mem s)) [
      | inl f ↦ simp (token_loop, loop_exact, e, token-exact mem bytes fuel s h, f)
      | inr (s', f) ↦
          let rest = token_loop-exact fuel pmin s' (token_exact-lt mem bytes fuel s h f) in
          simp (token_loop, loop_exact, e, token-exact mem bytes fuel s h, f, rest)
    ]
    | inr e ↦ simp (token_loop, loop_exact, e)
  ]
