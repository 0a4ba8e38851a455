-- ===== src/Encrypt/P5r/Region.antt =====
-- What `decrypt_in_place` does to a file, whatever the blocks of the target machine are.
use native.Mathlib.Decide.{dec_le}
use mathlib.Core.Path.{fun_ext}
use cri_archive_lib.Base.{ℕ, ◌+◌, ◌-◌, ◌*◌, ◌<◌, ◌≡◌, refl, ◌∙◌, ap, arith, bit_xor}
use cri_archive_lib.Base.{ltb, leb, ◌&&◌, if◌then◌else◌, Bool, true, false, Bool-cases, inl, inr}
use cri_archive_lib.Base.Bits.{bit_xor_undo, bit_xor-lt}
use cri_archive_lib.Encrypt.P5r.{
  Memory, Target, avx2, sse3, x86_64, neon, other, decrypt_slice, decrypt_in_place, in_slice,
  rounds, xor_vector, xor_word, encrypted_data_offset, decrypt_in_place_avx2, decrypt_in_place_sse3,
  decrypt_in_place_neon, decrypt_in_place_u64,
}
use cri_archive_lib.Encrypt.P5r.Blocks.{xored, rounds-xored, xor_vector-bytes, xor_word-vector}

-- The machines on which one of the loops is compiled.
abbrev pub has_loop : Target → Bool
has_loop other = false
has_loop target = true

-- `data[0x20..0x420] = data[0x20..0x420] ^ data[0x420..0x820]`
abbrev pub region : Memory → Memory
region mem a = if leb 0x20 a && ltb a 0x420 then bit_xor (mem a) (mem (a + 0x400)) else mem a

vectors :
    (w next : ℕ) (mem : Memory)
    → ((a : ℕ) → mem a < 256)
    → next * w ≡ 0x400
    → rounds (xor_vector w) w next next mem ≡ xored 0x400 0x400 mem
vectors w next mem bytes e =
    rounds-xored (xor_vector w) w next next mem (λ m p q a h. xor_vector-bytes w m p q a) bytes
      (omega arith)
    ∙ ap (λ n. xored n n mem) e

slice-xored :
    (target : Target) (mem : Memory)
    → ((a : ℕ) → mem a < 256)
    → decrypt_slice target mem ≡ (if has_loop target then xored 0x400 0x400 mem else mem)
unfolding decrypt_slice decrypt_in_place_avx2 decrypt_in_place_sse3 decrypt_in_place_neon
    decrypt_in_place_u64
slice-xored avx2 mem bytes = vectors 32 32 mem bytes refl
slice-xored sse3 mem bytes = vectors 16 64 mem bytes refl
slice-xored neon mem bytes = vectors 16 64 mem bytes refl
slice-xored x86_64 mem bytes =
    rounds-xored xor_word 8 128 128 mem
      (λ m p q a h. ap (λ (m : Memory). m a) (xor_word-vector m p q h) ∙ xor_vector-bytes 8 m p q a)
      bytes (omega arith)
slice-xored other mem bytes = refl

in_slice-region :
    (mem : Memory) (a : ℕ) → in_slice encrypted_data_offset (xored 0x400 0x400) mem a ≡ region mem a
in_slice-region mem a = elim (dec_le 0x20 a) [
  | no low ↦
      let t₁ : ltb a 0x20 ≡ true = ground arith in
      let t₂ : (leb 0x20 a && ltb a 0x420) ≡ false = ground arith in rw (t₁, t₂) refl
  | yes lo ↦
      let t₁ : ltb a 0x20 ≡ false = ground arith in
      let same : 0x20 + (a - 0x20) ≡ a = omega arith in
      let far : 0x20 + (a - 0x20 + 0x400) ≡ a + 0x400 = omega arith in
      elim (dec_le 0x420 a) [
        | yes past ↦
            let t₂ : ltb (a - 0x20) 0x400 ≡ false = ground arith in
            let t₃ : (leb 0x20 a && ltb a 0x420) ≡ false = ground arith in
            rw (t₁, t₂, t₃, same) refl
        | no here ↦
            let t₂ : ltb (a - 0x20) 0x400 ≡ true = ground arith in
            let t₃ : (leb 0x20 a && ltb a 0x420) ≡ true = ground arith in
            rw (t₁, t₂, t₃, same, far) refl
      ]
]

in_slice_none : (mem : Memory) (a : ℕ) → in_slice encrypted_data_offset (λ m. m) mem a ≡ mem a
in_slice_none mem a = elim (Bool-cases (ltb a 0x20)) [
  | inl low ↦ rw low refl
  | inr high ↦ let same : 0x20 + (a - 0x20) ≡ a = ground arith in rw (high, same) refl
]

-- On a file of bytes, every target with a loop, whatever the width of its blocks, XORs the bytes
-- from 0x20 to 0x420 with those 0x400 further on and leaves the rest, when there are at least
-- 0x820 of them; a shorter file, and every file on a target without a loop, is left as it is.
pub decrypt_in_place-region :
    (target : Target) (len : ℕ) (mem : Memory)
    → ((a : ℕ) → mem a < 256)
    → decrypt_in_place target len mem
      ≡ (if leb 0x820 len && has_loop target then region mem else mem)
unfolding decrypt_in_place
decrypt_in_place-region target len mem bytes = elim (Bool-cases (ltb len 0x820)) [
  | inl short ↦ let t : leb 0x820 len ≡ false = ground arith in rw (short, t) refl
  | inr long ↦
      let t : leb 0x820 len ≡ true = ground arith in
      let slice : Memory = λ b. mem (encrypted_data_offset + b) in
      let same = slice-xored target slice (λ b. bytes (encrypted_data_offset + b)) in
      let behind : (a : ℕ) → Memory → ℕ =
        λ a m. if ltb a encrypted_data_offset then mem a else m (a - encrypted_data_offset) in
      rw (long, t)
        (fun_ext λ a. elim (Bool-cases (has_loop target)) [
          | inl e ↦
              ap (behind a) (same ∙ loop_part target slice e)
              ∙ in_slice-region mem a
              ∙ part_true target mem a e
          | inr e ↦
              ap (behind a) (same ∙ no_loop target slice e)
              ∙ in_slice_none mem a
              ∙ part_false target mem a e
        ])
]
  where
    loop_part :
        (target : Target) (m : Memory)
        → has_loop target ≡ true
        → (if has_loop target then xored 0x400 0x400 m else m) ≡ xored 0x400 0x400 m
    loop_part target m e = rw e refl

    no_loop :
        (target : Target) (m : Memory)
        → has_loop target ≡ false
        → (if has_loop target then xored 0x400 0x400 m else m) ≡ m
    no_loop target m e = rw e refl

    part_true :
        (target : Target) (mem : Memory) (a : ℕ)
        → has_loop target ≡ true
        → region mem a ≡ (if has_loop target then region mem else mem) a
    part_true target mem a e = rw e refl

    part_false :
        (target : Target) (mem : Memory) (a : ℕ)
        → has_loop target ≡ false
        → mem a ≡ (if has_loop target then region mem else mem) a
    part_false target mem a e = rw e refl

region-twice : (mem : Memory) → region (region mem) ≡ mem
region-twice mem = fun_ext λ a. elim (Bool-cases (leb 0x20 a && ltb a 0x420)) [
  | inl e ↦
      let t : (leb 0x20 (a + 0x400) && ltb (a + 0x400) 0x420) ≡ false = ground arith in
      rw (e, t) (bit_xor_undo (mem a) (mem (a + 0x400)))
  | inr e ↦ rw (e) refl
]

region-lt : (mem : Memory) → ((a : ℕ) → mem a < 256) → (a : ℕ) → region mem a < 256
region-lt mem bytes a = elim (Bool-cases (leb 0x20 a && ltb a 0x420)) [
  | inl e ↦ rw e (bit_xor-lt 8 (mem a) (mem (a + 0x400)) (bytes a) (bytes (a + 0x400)))
  | inr e ↦ rw e (bytes a)
]

-- On a file of bytes, decryption is its own inverse, on every target and for every length.
pub decrypt_in_place-twice :
    (target : Target) (len : ℕ) (mem : Memory)
    → ((a : ℕ) → mem a < 256)
    → decrypt_in_place target len (decrypt_in_place target len mem) ≡ mem
decrypt_in_place-twice target len mem bytes =
    ap (decrypt_in_place target len) (decrypt_in_place-region target len mem bytes)
    ∙ by_test (leb 0x820 len && has_loop target) refl
  where
    by_test :
        (b : Bool)
        → (leb 0x820 len && has_loop target) ≡ b
        → decrypt_in_place target len (if b then region mem else mem) ≡ mem
    by_test true e =
        decrypt_in_place-region target len (region mem) (region-lt mem bytes)
        ∙ ap (λ (b : Bool). if b then region (region mem) else region mem) e
        ∙ region-twice mem
    by_test false e =
        decrypt_in_place-region target len mem bytes
        ∙ ap (λ (b : Bool). if b then region mem else mem) e
