-- ===== src/Base/Bytes.antt =====
-- Numbers as bytes, low byte first, as `from_le_bytes` and `to_le_bytes` read and write them, and
-- high byte first, as `from_be_bytes` and `to_be_bytes` do.
use Prim.Native.Nat.{ℕ, zero, suc, ◌+◌, ◌*◌, ◌/◌, ◌%◌, ◌^◌, ◌<◌, bit_xor}
use mathlib.Core.Path.{◌≡◌, refl, ap, ap₂, ◌∙◌}
use mathlib.Core.List.{List, [], ◌∷◌, ◌++◌}
use native.Mathlib.Omega.{arith}
use native.Mathlib.Nat.{pow-suc}
use cri_archive_lib.Base.Bits.{bit_xor-lt}
use cri_archive_lib.Base.Joins.{bit_xor-join}
use cri_archive_lib.Base.Lists.{length, length-append, All, zip_with}

abbrev pub from_le : List ℕ → ℕ
from_le [] = 0
from_le (b ∷ bs) = from_le bs * 256 + b

abbrev pub to_le : ℕ → ℕ → List ℕ
to_le zero n = []
to_le (suc w) n = n % 256 ∷ to_le w (n / 256)

abbrev pub IsByte : ℕ → Type 0
IsByte b = b < 256

pub length-to_le : (w n : ℕ) → length (to_le w n) ≡ w
length-to_le zero n = refl
length-to_le (suc w) n = ap suc (length-to_le w (n / 256))

pub from_le-lt : (bs : List ℕ) → All IsByte bs → from_le bs < 256 ^ length bs
from_le-lt [] h = omega arith
from_le-lt (b ∷ bs) h = omega (arith, from_le-lt bs h.1, h.0, pow-suc 256 (length bs))

pub to_le-from_le : (bs : List ℕ) → All IsByte bs → to_le (length bs) (from_le bs) ≡ bs
to_le-from_le [] h = refl
to_le-from_le (b ∷ bs) h =
    let low : (from_le bs * 256 + b) % 256 ≡ b = omega (arith, h.0) in
    let high : (from_le bs * 256 + b) / 256 ≡ from_le bs = omega (arith, h.0) in
    ap₂ ◌∷◌ low (ap (to_le (length bs)) high ∙ to_le-from_le bs h.1)

pub from_le-to_le : (w n : ℕ) → n < 256 ^ w → from_le (to_le w n) ≡ n
from_le-to_le zero n h = omega arith
from_le-to_le (suc w) n h =
    omega (arith, from_le-to_le w (n / 256) (omega (arith, pow-suc 256 w)), pow-suc 256 w)

pub to_le-IsByte : (w n : ℕ) → All IsByte (to_le w n)
to_le-IsByte zero n = tt
to_le-IsByte (suc w) n = (omega arith, to_le-IsByte w (n / 256))

-- `^` of two numbers is `^` byte by byte.
pub bit_xor-from_le :
    (xs ys : List ℕ)
    → length xs ≡ length ys
    → All IsByte xs
    → All IsByte ys
    → bit_xor (from_le xs) (from_le ys) ≡ from_le (zip_with bit_xor xs ys)
bit_xor-from_le [] [] e hx hy = refl
bit_xor-from_le [] (y ∷ ys) e hx hy = absurd (omega arith)
bit_xor-from_le (x ∷ xs) [] e hx hy = absurd (omega arith)
bit_xor-from_le (x ∷ xs) (y ∷ ys) e hx hy =
    bit_xor-join 8 (from_le xs) (from_le ys) x y hx.0 hy.0
    ∙ ap (λ (t : ℕ). t * 256 + bit_xor x y) (bit_xor-from_le xs ys (omega arith) hx.1 hy.1)

pub zip_with-IsByte :
    (xs ys : List ℕ) → All IsByte xs → All IsByte ys → All IsByte (zip_with bit_xor xs ys)
zip_with-IsByte [] ys hx hy = tt
zip_with-IsByte (x ∷ xs) [] hx hy = tt
zip_with-IsByte (x ∷ xs) (y ∷ ys) hx hy =
    (bit_xor-lt 8 x y hx.0 hy.0, zip_with-IsByte xs ys hx.1 hy.1)

-- The value of the bytes behind those that gave `acc`.
abbrev pub from_be_acc : ℕ → List ℕ → ℕ
from_be_acc acc [] = acc
from_be_acc acc (b ∷ bs) = from_be_acc (acc * 256 + b) bs

abbrev pub from_be : List ℕ → ℕ
from_be bs = from_be_acc 0 bs

abbrev pub to_be : ℕ → ℕ → List ℕ
to_be zero n = []
to_be (suc w) n = to_be w (n / 256) ++ (n % 256 ∷ [])

from_be_acc-append :
    (acc : ℕ) (xs ys : List ℕ) → from_be_acc acc (xs ++ ys) ≡ from_be_acc (from_be_acc acc xs) ys
from_be_acc-append acc [] ys = refl
from_be_acc-append acc (x ∷ xs) ys = from_be_acc-append (acc * 256 + x) xs ys

pub from_be-to_be : (w n : ℕ) → n < 256 ^ w → from_be (to_be w n) ≡ n
from_be-to_be zero n h = omega arith
from_be-to_be (suc w) n h =
    let ih = from_be-to_be w (n / 256) (omega (arith, pow-suc 256 w)) in
    from_be_acc-append 0 (to_be w (n / 256)) (n % 256 ∷ []) ∙ omega (arith, ih)

pub length-to_be : (w n : ℕ) → length (to_be w n) ≡ w
length-to_be zero n = refl
length-to_be (suc w) n =
    omega (arith, length-append (to_be w (n / 256)) (n % 256 ∷ []), length-to_be w (n / 256))
