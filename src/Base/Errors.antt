-- ===== src/Base/Errors.antt =====
-- `Result<A, E>` of the program, with the `?` operator as bind.
use mathlib.Core.Path.{◌≡◌, refl}
use mathlib.Core.Bool.{Bool, true, false}
use Prim.Native.Nat.{ℕ, ◌+◌, ◌*◌, ◌^◌, ◌<◌}
use native.Mathlib.Omega.{arith}
use cri_archive_lib.Base.Tests.{ltb, if◌then◌else◌}
use mathlib.Core.Option.{Option, none, some}

pub data Result {ℓ κ} (E : Type κ) (A : Type ℓ) : Type (ℓ ⊔ κ) where
  ok : A → Result E A
  err : E → Result E A

infixl 5 ◌>>=◌ ◌>>◌
abbrev pub ◌>>=◌ {ℓ κ μ} :
    {E : Type μ} {A : Type ℓ} {B : Type κ} → Result E A → (A → Result E B) → Result E B
ok x >>= next = next x
err e >>= next = err e

abbrev pub ◌>>◌ {ℓ μ} : {E : Type μ} {B : Type ℓ} → Result E (Unit {0}) → Result E B → Result E B
checked >> rest = checked >>= λ _. rest

-- `ok_or` of Rust's `Option`.
abbrev pub ok_or {ℓ μ} : {E : Type μ} {A : Type ℓ} → Option A → E → Result E A
ok_or none e = err e
ok_or (some a) e = ok a

-- `u64::checked_add`
abbrev pub checked_add : ℕ → ℕ → Option ℕ
checked_add a b = if ltb (a + b) (2 ^ 64) then some (a + b) else none

-- `usize::checked_mul`, at 64 bits.
abbrev pub checked_mul : ℕ → ℕ → Option ℕ
checked_mul a b = if ltb (a * b) (2 ^ 64) then some (a * b) else none

-- `map_err`
abbrev pub map_err {ℓ κ μ} :
    {E : Type κ} {F : Type μ} {A : Type ℓ} → (E → F) → Result E A → Result F A
map_err f (ok a) = ok a
map_err f (err e) = err (f e)

-- An early `return Err(e)` unless the test holds.
abbrev pub ensure {μ} : {E : Type μ} → Bool → E → Result E (Unit {0})
ensure test e = if test then ok tt else err e

-- A `?` that let the call through: what came before it, and what came after.
pub >>=-eq-ok {ℓ κ μ} :
    {E : Type μ} {A : Type ℓ} {B : Type κ} (r : Result E A) (next : A → Result E B) {y : B}
    → (r >>= next) ≡ ok y
    → (x : A) × (r ≡ ok x) × (next x ≡ ok y)
>>=-eq-ok (err e) next eq = cc
>>=-eq-ok (ok x) next eq = (x, refl, eq)

pub ok-inj {ℓ μ} :
    {E : Type μ} {A : Type ℓ} {m : Result E A} {a b : A} → m ≡ ok a → m ≡ ok b → a ≡ b
ok-inj e f = cc

-- Behind a check that let the call through.
pub ensure-inv {ℓ μ} :
    {E : Type μ} {A : Type ℓ} (b : Bool) (e : E) (m : Result E A) {a : A}
    → (ensure b e >> m) ≡ ok a
    → (b ≡ true) × (m ≡ ok a)
ensure-inv true e m h = (refl, h)
ensure-inv false e m h = cc

pub ok_or-inv {ℓ μ} :
    {E : Type μ} {A : Type ℓ} (o : Option A) (e : E) {a : A} → ok_or o e ≡ ok a → o ≡ some a
ok_or-inv none e h = cc
ok_or-inv (some a) e h = cc

pub checked_add-inv : (a b : ℕ) {c : ℕ} → checked_add a b ≡ some c → (c ≡ a + b) × (c < 2 ^ 64)
checked_add-inv a b h = ground arith

pub checked_mul-inv : (a b : ℕ) {c : ℕ} → checked_mul a b ≡ some c → (c ≡ a * b) × (c < 2 ^ 64)
checked_mul-inv a b h = ground arith

pub checked_add-fits : (a b : ℕ) → a + b < 2 ^ 64 → checked_add a b ≡ some (a + b)
checked_add-fits a b h = ground arith

pub checked_mul-fits : (a b : ℕ) → a * b < 2 ^ 64 → checked_mul a b ≡ some (a * b)
checked_mul-fits a b h = ground arith
