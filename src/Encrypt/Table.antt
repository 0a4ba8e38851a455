-- ===== src/Encrypt/Table.antt =====
-- `TableDecryptor`: the XOR cipher of an @UTF table, with a key that a multiplication steps.
use cri_archive_lib.Base.{
  ℕ, zero, suc, ◌+◌, ◌*◌, ◌/◌, ◌%◌, ◌^◌, ◌<◌, ◌≡◌, refl, sym, ◌∙◌, ap, ap₂, arith, ◌==◌,
}
use cri_archive_lib.Base.{
  Bool, true, false, ◌&&◌, List, [], ◌∷◌, length, get_or, bit_xor, ==_iff, Bool-cases, inl, inr,
}
use cri_archive_lib.Base.Bits.{bit_xor_undo}
use native.Mathlib.Nat.{
  mul-add-mod_self_left, div-add-mod, mod-eq_of_lt, mul_assoc, mul_comm, pow-suc, add-mul,
}

abbrev pub encrypted_prefix : List ℕ
encrypted_prefix = 0x1f ∷ 0x9e ∷ 0xf3 ∷ 0xf5 ∷ []

-- `starts_with` of a slice.
unfoldable pub starts_with : List ℕ → List ℕ → Bool
starts_with bytes [] = true
starts_with [] (p ∷ ps) = false
starts_with (b ∷ bs) (p ∷ ps) = (b == p) && starts_with bs ps

pub is_encrypted : List ℕ → Bool
is_encrypted bytes = starts_with bytes encrypted_prefix

-- `key.wrapping_mul(0x15)`
abbrev pub next_key : ℕ → ℕ
next_key key = key * 0x15 % 2 ^ 8

-- The bytes that are left, with the key at which the loop stands.
pub decrypt_from : ℕ → List ℕ → List ℕ
decrypt_from key [] = []
decrypt_from key (byte ∷ input) = bit_xor byte key ∷ decrypt_from (next_key key) input

pub decrypt_utf_in_place : List ℕ → List ℕ
decrypt_utf_in_place input = decrypt_from 0x5f input

-- The same on a copy of the input.
pub decrypt_utf : List ℕ → List ℕ
decrypt_utf input = decrypt_utf_in_place input

abbrev pub utf_magic : List ℕ
utf_magic = 0x40 ∷ 0x55 ∷ 0x54 ∷ 0x46 ∷ []

decrypt_from-twice : (key : ℕ) (bytes : List ℕ) → decrypt_from key (decrypt_from key bytes) ≡ bytes
unfolding decrypt_from
decrypt_from-twice key [] = refl
decrypt_from-twice key (b ∷ bs) =
    ap₂ ◌∷◌ (bit_xor_undo b key) (decrypt_from-twice (next_key key) bs)

-- The key of the byte at `i`.
abbrev pub key_at : ℕ → ℕ → ℕ
key_at key zero = key
key_at key (suc i) = key_at (next_key key) i

decrypt_from-at :
    (key : ℕ) (bytes : List ℕ) (i : ℕ)
    → i < length bytes
    → get_or (decrypt_from key bytes) i 0 ≡ bit_xor (get_or bytes i 0) (key_at key i)
unfolding decrypt_from
decrypt_from-at key [] i h = absurd (omega arith)
decrypt_from-at key (b ∷ bs) zero h = refl
decrypt_from-at key (b ∷ bs) (suc i) h = decrypt_from-at (next_key key) bs i (omega arith)

mod_mul : (a m n : ℕ) → a % n * m % n ≡ a * m % n
mod_mul a m n = sym (ap (λ t. t % n) whole ∙ mul-add-mod_self_left n (a / n * m) (a % n * m))
  where
    whole : a * m ≡ n * (a / n * m) + a % n * m
    whole =
        ap (λ t. t * m) (sym (div-add-mod a n))
        ∙ add-mul (n * (a / n)) (a % n) m
        ∙ ap (λ (t : ℕ). t + a % n * m) (mul_assoc n (a / n) m)

key_power : (key i : ℕ) → key < 2 ^ 8 → key_at key i ≡ key * 0x15 ^ i % 2 ^ 8
key_power key zero h = sym (mod-eq_of_lt (omega arith)) ∙ ap (λ (t : ℕ). t % 256) (omega arith)
key_power key (suc i) h =
    key_power (next_key key) i (omega arith)
    ∙ mod_mul (key * 0x15) (0x15 ^ i) 256
    ∙ ap (λ (t : ℕ). t % 256) (sym shifted)
  where
    shifted : key * 0x15 ^ suc i ≡ key * 0x15 * 0x15 ^ i
    shifted =
        ap (λ t. key * t) (pow-suc 0x15 i ∙ mul_comm (0x15 ^ i) 0x15)
        ∙ sym (mul_assoc key 0x15 (0x15 ^ i))

-- The bytes of a table are decrypted independently of each other: byte `i` with the key that `i`
-- multiplications give, and there are as many as before.
pub decrypt_utf-at :
    (bytes : List ℕ)
    → (length (decrypt_utf bytes) ≡ length bytes)
      × ((i : ℕ)
          → i < length bytes
          → get_or (decrypt_utf bytes) i 0 ≡ bit_xor (get_or bytes i 0) (0x5f * 0x15 ^ i % 2 ^ 8))
unfolding decrypt_utf decrypt_utf_in_place decrypt_from
decrypt_utf-at bytes = (
  decrypt_from-length 0x5f bytes,
  λ i h.
      decrypt_from-at 0x5f bytes i h
      ∙ ap (bit_xor (get_or bytes i 0)) (key_power 0x5f i (omega arith)),
)
  where
    decrypt_from-length :
        (key : ℕ) (bytes : List ℕ) → length (decrypt_from key bytes) ≡ length bytes
    decrypt_from-length key [] = refl
    decrypt_from-length key (b ∷ bs) = ap suc (decrypt_from-length (next_key key) bs)

xor_test : (b k p : ℕ) → (bit_xor b k == p) ≡ (b == bit_xor p k)
xor_test b k p = elim (Bool-cases (b == bit_xor p k)) [
  | inl e ↦
      let eq : bit_xor b k ≡ p = ap (λ t. bit_xor t k) ((==_iff _ _).0 e) ∙ bit_xor_undo p k in
      (==_iff _ _).1 eq ∙ sym e
  | inr e ↦ elim (Bool-cases (bit_xor b k == p)) [
    | inl f ↦
        let eq : b ≡ bit_xor p k =
          sym (bit_xor_undo b k) ∙ ap (λ t. bit_xor t k) ((==_iff _ _).0 f) in
        let t : (b == bit_xor p k) ≡ true = (==_iff _ _).1 eq in cc
    | inr f ↦ f ∙ sym e
  ]
]

decrypt_from-prefix :
    (key : ℕ) (bytes prefix : List ℕ)
    → starts_with (decrypt_from key bytes) prefix ≡ starts_with bytes (decrypt_from key prefix)
unfolding decrypt_from starts_with
decrypt_from-prefix key bytes [] = refl
decrypt_from-prefix key [] (p ∷ ps) = refl
decrypt_from-prefix key (b ∷ bs) (p ∷ ps) =
    ap₂ ◌&&◌ (xor_test b key p) (decrypt_from-prefix (next_key key) bs ps)

-- The cipher text that is looked for is that of the magic of a table: a table counts as encrypted
-- exactly when what it decrypts to begins with `@UTF`, whatever follows.
pub is_encrypted-magic :
    (bytes : List ℕ) → is_encrypted bytes ≡ starts_with (decrypt_utf bytes) utf_magic
unfolding is_encrypted decrypt_utf decrypt_utf_in_place decrypt_from
is_encrypted-magic bytes = sym (decrypt_from-prefix 0x5f bytes utf_magic)

pub decrypt_from-utf : (bytes : List ℕ) → decrypt_from 0x5f (decrypt_utf bytes) ≡ bytes
unfolding decrypt_utf decrypt_utf_in_place
decrypt_from-utf bytes = decrypt_from-twice 0x5f bytes
