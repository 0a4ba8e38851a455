-- ===== src/Encrypt/P5r/Blocks.antt =====
-- Every width of block does the same to each byte.
use cri_archive_lib.Base.{
  ℕ, zero, suc, ◌+◌, ◌-◌, ◌*◌, ◌≤◌, ◌<◌, ◌≡◌, refl, sym, ◌∙◌, ap, ap₂, arith,
}
use cri_archive_lib.Base.{ltb, leb, ◌&&◌, if◌then◌else◌, true, false, Bool-cases, inl, inr}
use cri_archive_lib.Base.{bit_xor, zip_with, length, get_or, All}
use native.Mathlib.Nat.{add-mul, mul-le-mul_right}
use native.Mathlib.Decide.{dec_le}
use mathlib.Core.Path.{fun_ext}
use cri_archive_lib.Base.Bits.{bit_xor-lt}
use cri_archive_lib.Base.Bytes.{
  from_le, to_le, IsByte, to_le-from_le, bit_xor-from_le, zip_with-IsByte,
}
use cri_archive_lib.Encrypt.P5r.{Memory, load, store, xor_vector, xor_word, rounds}

-- The bytes from `p` to `p + w` are XORed with those from `q` on.
abbrev pub xor_bytes : ℕ → Memory → ℕ → ℕ → Memory
xor_bytes w mem p q a =
    if leb p a && ltb a (p + w) then bit_xor (mem a) (mem (a - p + q)) else mem a

length-load : (w : ℕ) (mem : Memory) (a : ℕ) → length (load w mem a) ≡ w
unfolding load
length-load zero mem a = refl
length-load (suc w) mem a = ap suc (length-load w mem (a + 1))

load-IsByte : (w : ℕ) (mem : Memory) (a : ℕ) → ((b : ℕ) → mem b < 256) → All IsByte (load w mem a)
unfolding load
load-IsByte zero mem a h = tt
load-IsByte (suc w) mem a h = (h a, load-IsByte w mem (a + 1) h)

length-xor_vector :
    (w : ℕ) (mem : Memory) (p q : ℕ) → length (zip_with bit_xor (load w mem p) (load w mem q)) ≡ w
unfolding load
length-xor_vector zero mem p q = refl
length-xor_vector (suc w) mem p q = ap suc (length-xor_vector w mem (p + 1) (q + 1))

vector_at :
    (w : ℕ) (mem : Memory) (p q i : ℕ)
    → i < w
    → get_or (zip_with bit_xor (load w mem p) (load w mem q)) i 0
      ≡ bit_xor (mem (p + i)) (mem (q + i))
unfolding load
vector_at zero mem p q i h = absurd (omega arith)
vector_at (suc w) mem p q zero h =
    let e : p + 0 ≡ p = omega arith in let f : q + 0 ≡ q = omega arith in rw (e, f) refl
vector_at (suc w) mem p q (suc i) h =
    let e : p + suc i ≡ p + 1 + i = omega arith in
    let f : q + suc i ≡ q + 1 + i = omega arith in
    rw (e, f) (vector_at w mem (p + 1) (q + 1) i (omega arith))

pub xor_vector-bytes :
    (w : ℕ) (mem : Memory) (p q a : ℕ) → xor_vector w mem p q a ≡ xor_bytes w mem p q a
unfolding store
xor_vector-bytes w mem p q a = elim (Bool-cases (leb p a && ltb a (p + w))) [
  | inl e ↦
      let lo : p ≤ a = ground arith in
      let hi : a - p < w = ground arith in
      let same : p + (a - p) ≡ a = omega arith in
      let swap : q + (a - p) ≡ a - p + q = omega arith in
      rw (length-xor_vector w mem p q, e)
        (vector_at w mem p q (a - p) hi ∙ ap₂ (λ x y. bit_xor (mem x) (mem y)) same swap)
  | inr e ↦ rw (length-xor_vector w mem p q, e) refl
]

-- A number of eight bytes is a vector of eight.
pub xor_word-vector :
    (mem : Memory) (p q : ℕ) → ((a : ℕ) → mem a < 256) → xor_word mem p q ≡ xor_vector 8 mem p q
xor_word-vector mem p q bytes = ap (store mem p) same
  where
    same :
        to_le 8 (bit_xor (from_le (load 8 mem p)) (from_le (load 8 mem q)))
        ≡ zip_with bit_xor (load 8 mem p) (load 8 mem q)
    same =
        let hp = load-IsByte 8 mem p bytes in
        let hq = load-IsByte 8 mem q bytes in
        let both = zip_with bit_xor (load 8 mem p) (load 8 mem q) in
        ap (to_le 8) (
          bit_xor-from_le (load 8 mem p) (load 8 mem q)
            (length-load 8 mem p ∙ sym (length-load 8 mem q)) hp hq)
        ∙ ap (λ w. to_le w (from_le both)) (sym (length-xor_vector 8 mem p q))
        ∙ to_le-from_le both (zip_with-IsByte (load 8 mem p) (load 8 mem q) hp hq)

-- The first `n` bytes are XORed with those `d` further on.
abbrev pub xored : ℕ → ℕ → Memory → Memory
xored n d mem a = if ltb a n then bit_xor (mem a) (mem (a + d)) else mem a

pub xored-lt : (n d : ℕ) (mem : Memory) → ((a : ℕ) → mem a < 256) → (a : ℕ) → xored n d mem a < 256
xored-lt n d mem bytes a = elim (Bool-cases (ltb a n)) [
  | inl e ↦ rw e (bit_xor-lt 8 (mem a) (mem (a + d)) (bytes a) (bytes (a + d)))
  | inr e ↦ rw e (bytes a)
]

next_round :
    (w next k : ℕ) (mem : Memory) (a : ℕ)
    → k < next
    → xor_bytes w (xored (k * w) (next * w) mem) (k * w) ((k + next) * w) a
      ≡ xored (suc k * w) (next * w) mem a
next_round w next k mem a lt =
    let m = add-mul k next w in
    let s : suc k * w ≡ k * w + w = omega (arith, add-mul k 1 w) in
    let le = mul-le-mul_right w (suc-le lt) in
    elim (dec_le (k * w) a) [
      | yes lo ↦ elim (dec_le (suc k * w) a) [
        | yes past ↦
            let t₁ : (leb (k * w) a && ltb a (k * w + w)) ≡ false = ground arith in
            let t₂ : ltb a (k * w) ≡ false = ground arith in
            let t₃ : ltb a (suc k * w) ≡ false = ground arith in rw (t₁, t₂, t₃) refl
        | no here ↦
            let t₁ : (leb (k * w) a && ltb a (k * w + w)) ≡ true = ground arith in
            let t₂ : ltb a (k * w) ≡ false = ground arith in
            let t₃ : ltb a (suc k * w) ≡ true = ground arith in
            let far : a - k * w + (k + next) * w ≡ a + next * w = omega arith in
            let t₄ : ltb (a + next * w) (k * w) ≡ false = ground arith in
            rw (t₁, t₂, t₃, far, t₄) refl
      ]
      | no before ↦
          let t₁ : (leb (k * w) a && ltb a (k * w + w)) ≡ false = ground arith in
          let t₂ : ltb a (k * w) ≡ true = ground arith in
          let t₃ : ltb a (suc k * w) ≡ true = ground arith in rw (t₁, t₂, t₃) refl
    ]
  where
    suc-le : {k next : ℕ} → k < next → k ≤ next
    suc-le h = omega arith

-- An operation that XORs `w` bytes does so to all of `n` blocks, one after the other.
pub rounds-xored :
    (op : Memory → ℕ → ℕ → Memory) (w next k : ℕ) (mem : Memory)
    → ((m : Memory) (p q a : ℕ) → ((b : ℕ) → m b < 256) → op m p q a ≡ xor_bytes w m p q a)
    → ((a : ℕ) → mem a < 256)
    → k ≤ next
    → rounds op w next k mem ≡ xored (k * w) (next * w) mem
unfolding rounds
rounds-xored op w next zero mem h bytes le =
    fun_ext λ a. let t : ltb a (0 * w) ≡ false = ground arith in rw t refl
rounds-xored op w next (suc k) mem h bytes le =
    let ih = rounds-xored op w next k mem h bytes (omega arith) in
    fun_ext λ a.
      ap (λ m. op m (k * w) ((k + next) * w) a) ih
      ∙ h (xored (k * w) (next * w) mem) (k * w) ((k + next) * w) a
          (xored-lt (k * w) (next * w) mem bytes)
      ∙ next_round w next k mem a (omega arith)
