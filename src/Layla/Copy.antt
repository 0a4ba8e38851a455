-- ===== src/Layla/Copy.antt =====
-- The LZ77 copy of `LaylaDecompressorImpl::decompress`: eight bytes or three by hand, the rest by a
-- loop, downwards from `pwrite`.
use cri_archive_lib.Base.{ℕ, zero, suc, ◌+◌, ◌-◌, ◌≤◌, ◌≡◌, refl, sym, ◌∙◌, ap, arith}
use cri_archive_lib.Base.{ltb, ◌==◌, if◌then◌else◌, Bool-cases, inl, inr, ◌≢◌}
use cri_archive_lib.Layla.Cursor.{Memory}

-- `*p = v`
pub poke : Memory → ℕ → ℕ → Memory
poke out p v a = if a == p then v else out a

pub poke_at : (out : Memory) (p v : ℕ) → poke out p v p ≡ v
unfolding poke
poke_at out p v = ground arith

pub poke_other : (out : Memory) (p v a : ℕ) → a ≢ p → poke out p v a ≡ out a
unfolding poke
poke_other out p v a h = ground arith

-- The output with the address that is written next.
pub record Output : Type 0 where
  pub out : Memory
  pub pwrite : ℕ

abbrev pub output : Memory → ℕ → Output
output m p = record { out = m; pwrite = p }

-- `*(pwrite.sub(k)) = *(pwrite.sub(k).add(offset))`
pub copy_at : Memory → ℕ → ℕ → ℕ → Memory
copy_at out offset p k = poke out (p - k) (out (p - k + offset))

-- `for _ in 0..n { *pwrite = *pwrite.add(offset); pwrite = pwrite.sub(1); }`
unfoldable pub copy_loop : ℕ → ℕ → Output → Output
copy_loop zero offset o = o
copy_loop (suc n) offset o =
    copy_loop n offset (output (copy_at o.out offset o.pwrite 0) (o.pwrite - 1))

pub copy_three : Memory → ℕ → ℕ → Memory
copy_three out offset p = copy_at (copy_at (copy_at out offset p 0) offset p 1) offset p 2

pub copy_five : Memory → ℕ → ℕ → Memory
copy_five out offset p =
    copy_at (copy_at (copy_at (copy_at (copy_at out offset p 3) offset p 4) offset p 5) offset p 6)
      offset p 7

pub copy_block : ℕ → ℕ → Output → Output
copy_block length offset o =
    let three = copy_three o.out offset o.pwrite in
    if ltb length 8
    then (if length == 3
        then output three (o.pwrite - 3)
        else copy_loop (length - 3) offset (output three (o.pwrite - 3)))
    else copy_loop (length - 8) offset (output (copy_five three offset o.pwrite) (o.pwrite - 8))

-- A byte that is written `k` below is the next one of a loop that has come down by `k`.
copy_at_down :
    (out : Memory) (offset p k : ℕ) → copy_at out offset (p - k) 0 ≡ copy_at out offset p k
unfolding copy_at
copy_at_down out offset p k = let e : p - k - 0 ≡ p - k = omega arith in rw e

copy_loop-down :
    (n : ℕ) (out : Memory) (offset p k : ℕ)
    → copy_loop (suc n) offset (output out (p - k))
      ≡ copy_loop n offset (output (copy_at out offset p k) (p - suc k))
unfolding copy_loop
copy_loop-down n out offset p k =
    let e : p - k - 1 ≡ p - suc k = omega arith in rw (copy_at_down out offset p k, e)

copy_loop-zero : (offset : ℕ) (o : Output) → copy_loop 0 offset o ≡ o
unfolding copy_loop
copy_loop-zero offset o = refl

copy_three-loop :
    (n : ℕ) (o : Output) (offset : ℕ)
    → copy_loop (suc (suc (suc n))) offset o
      ≡ copy_loop n offset (output (copy_three o.out offset o.pwrite) (o.pwrite - 3))
unfolding copy_three
copy_three-loop n o offset =
    let start : o.pwrite ≡ o.pwrite - 0 = omega arith in
    ap (λ p. copy_loop (suc (suc (suc n))) offset (output o.out p)) start
    ∙ copy_loop-down (suc (suc n)) o.out offset o.pwrite 0
    ∙ copy_loop-down (suc n) _ offset o.pwrite 1
    ∙ copy_loop-down n _ offset o.pwrite 2

copy_five-loop :
    (n : ℕ) (out : Memory) (offset p : ℕ)
    → copy_loop (suc (suc (suc (suc (suc n))))) offset (output out (p - 3))
      ≡ copy_loop n offset (output (copy_five out offset p) (p - 8))
unfolding copy_five
copy_five-loop n out offset p =
    copy_loop-down (suc (suc (suc (suc n)))) out offset p 3
    ∙ copy_loop-down (suc (suc (suc n))) _ offset p 4
    ∙ copy_loop-down (suc (suc n)) _ offset p 5
    ∙ copy_loop-down (suc n) _ offset p 6
    ∙ copy_loop-down n _ offset p 7

-- The unrolled copy of at least three bytes is the plain loop, byte by byte, also where the source
-- and the target overlap.
pub copy_block-loop :
    (length offset : ℕ) (o : Output)
    → 3 ≤ length
    → copy_block length offset o ≡ copy_loop length offset o
unfolding copy_block
copy_block-loop length offset o h = elim (Bool-cases (ltb length 8)) [
  | inl short ↦ elim (Bool-cases (length == 3)) [
    | inl least ↦
        let e : length ≡ 3 = ground arith in
        rw (short, least)
          (sym (
            ap (λ n. copy_loop n offset o) e
            ∙ copy_three-loop 0 o offset
            ∙ copy_loop-zero offset (output (copy_three o.out offset o.pwrite) (o.pwrite - 3))))
    | inr more ↦
        let e : length ≡ suc (suc (suc (length - 3))) = omega arith in
        rw (short, more)
          (sym (ap (λ n. copy_loop n offset o) e ∙ copy_three-loop (length - 3) o offset))
  ]
  | inr long ↦
      let e : length ≡ suc (suc (suc (suc (suc (suc (suc (suc (length - 8)))))))) = ground arith in
      rw long (
        sym (
          ap (λ n. copy_loop n offset o) e
          ∙ copy_three-loop _ o offset
          ∙ copy_five-loop (length - 8) _ offset o.pwrite))
]

pub copy_loop-pwrite : (n offset : ℕ) (o : Output) → (copy_loop n offset o).pwrite ≡ o.pwrite - n
unfolding copy_loop
copy_loop-pwrite zero offset o = omega arith
copy_loop-pwrite (suc n) offset o =
    omega
      (arith, copy_loop-pwrite n offset (output (copy_at o.out offset o.pwrite 0) (o.pwrite - 1)))
