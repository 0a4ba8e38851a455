-- ===== src/Writer/Output/Payloads.antt =====
-- Every payload stands at its offset in what is written.
use cri_archive_lib.Base.{
  ℕ, zero, suc, ◌+◌, ◌-◌, ◌≤◌, ◌<◌, ◌≡◌, refl, sym, ◌∙◌, ap, arith, min, ltb, leb, ◌==◌, ==_iff,
  true, if◌then◌else◌, Bool-cases, inl, inr,
}
use cri_archive_lib.Base.{
  length, length-append, length-replicate, replicate, take, drop, take-append, append_assoc,
  drop-append, All, List, [], ◌∷◌, ◌++◌, ok, ensure-inv, ok-inj, map,
}
use cri_archive_lib.Writer.Layout.Offsets.{IsPacked}
use cri_archive_lib.Writer.Output.{
  arithmetic_overflow, changed_size, zeros_loop, write_zeros, write_payloads,
}

pub append-nil : (xs : List ℕ) → xs ++ [] ≡ xs
append-nil [] = refl
append-nil (x ∷ xs) = ap (λ t. x ∷ t) (append-nil xs)

abbrev pub zeros : ℕ → List ℕ
zeros n = replicate n 0

zeros-add : (m n k : ℕ) → m + n ≡ k → zeros m ++ zeros n ≡ zeros k
zeros-add zero n k e = let f : n ≡ k = omega arith in ap zeros f
zeros-add (suc m) n zero e = absurd (omega arith)
zeros-add (suc m) n (suc k) e = ap (λ t. 0 ∷ t) (zeros-add m n k (omega arith))

zeros_loop-zeros :
    (fuel count : ℕ) (output : List ℕ)
    → count ≤ fuel
    → zeros_loop fuel count output ≡ output ++ zeros count
unfolding zeros_loop
zeros_loop-zeros zero count output h =
    let z : 0 ≡ count = omega arith in sym (append-nil output) ∙ ap (λ k. output ++ zeros k) z
zeros_loop-zeros (suc fuel) count output h = elim (Bool-cases (count == 0)) [
  | inl e ↦
      let z : 0 ≡ count = ground arith in
      rw e (sym (append-nil output) ∙ ap (λ k. output ++ zeros k) z)
  | inr e ↦
      let write = min count 0x2000 in
      let pos : 0 < count = ground arith in
      rw e (
        zeros_loop-zeros fuel (count - write) (output ++ zeros write) (omega arith)
        ∙ append_assoc output (zeros write) (zeros (count - write))
        ∙ ap (λ t. output ++ t) (zeros-add write (count - write) count (omega arith)))
]

pub write_zeros-zeros :
    (count : ℕ) (output : List ℕ) → write_zeros count output ≡ output ++ zeros count
unfolding write_zeros
write_zeros-zeros count output = zeros_loop-zeros count count output (omega arith)

-- Padding up to a target that is not behind the end: zeros, and the target is the new end.
pub pad-to :
    (target : ℕ) (output : List ℕ)
    → length output ≤ target
    → (if ltb (length output) target then write_zeros (target - length output) output else output)
      ≡ output ++ zeros (target - length output)
unfolding write_zeros
pad-to target output h = elim (Bool-cases (ltb (length output) target)) [
  | inl e ↦
      rw e (zeros_loop-zeros (target - length output) (target - length output) output (omega arith))
  | inr e ↦
      let z : 0 ≡ target - length output = ground arith in
      rw e (sym (append-nil output) ∙ ap (λ k. output ++ zeros k) z)
]

module _ (payload : ℕ → List ℕ) (size offset : ℕ → ℕ) where
  -- What one round leaves for the next.
  abbrev round_of : ℕ → List ℕ → List ℕ
  round_of i output = (output ++ zeros (offset i - length output)) ++ payload i

  one_payload :
      (i : ℕ) (order output : List ℕ) {out : List ℕ}
      → write_payloads payload size offset (i ∷ order) output ≡ ok out
      → (length output ≤ offset i)
        × (length (payload i) ≡ size i)
        × (write_payloads payload size offset order (round_of i output) ≡ ok out)
  unfolding write_payloads
  one_payload i order output h =
      let a = ensure-inv (leb (length output) (offset i)) arithmetic_overflow _ h in
      let b = ensure-inv (length (payload i) == size i) changed_size _ a.1 in
      let t = a.0 in
      let le : length output ≤ offset i = ground arith in
      (le, (==_iff _ _).0 b.0, rw (← pad-to (offset i) output le) b.1)

  -- The output only grows.
  pub extends :
      (order output : List ℕ) {out : List ℕ}
      → write_payloads payload size offset order output ≡ ok out
      → (more : List ℕ) × (out ≡ output ++ more)
  unfolding write_payloads
  extends [] output h = ([], sym (ok-inj refl h) ∙ sym (append-nil output))
  extends (i ∷ order) output h =
      let s = one_payload i order output h in
      let ih = extends order (round_of i output) s.2 in
      let pad = zeros (offset i - length output) in
      (
        pad ++ (payload i ++ ih.0),
        ih.1
            ∙ append_assoc (output ++ pad) (payload i) ih.0
            ∙ append_assoc output pad (payload i ++ ih.0),
      )

  slice-at :
      (before body more : List ℕ) (n k : ℕ)
      → length before ≡ n
      → length body ≡ k
      → take k (drop n ((before ++ body) ++ more)) ≡ body
  slice-at before body more n k en ek =
      rw (← en, ← ek, append_assoc before body more, drop-append before (body ++ more))
        (take-append body more)

  -- Every payload is found at its offset, whatever is written behind.
  pub write_payloads-slices :
      (order output : List ℕ) (out more : List ℕ)
      → write_payloads payload size offset order output ≡ ok out
      → All (λ i. take (size i) (drop (offset i) (out ++ more)) ≡ payload i) order
  write_payloads-slices [] output out more h = tt
  write_payloads-slices (i ∷ order) output out more h =
      let s = one_payload i order output h in
      let e = extends order (round_of i output) s.2 in
      let pad = zeros (offset i - length output) in
      let n : length (output ++ pad) ≡ offset i = omega (
        arith,
        length-append output pad,
        length-replicate {A = ℕ} (offset i - length output) 0,
        s.0,
      ) in
      let whole : out ++ more ≡ round_of i output ++ (e.0 ++ more) =
        ap (λ t. t ++ more) e.1 ∙ append_assoc (round_of i output) e.0 more in
      (
        rw whole (slice-at (output ++ pad) (payload i) (e.0 ++ more) (offset i) (size i) n s.1),
        write_payloads-slices order (round_of i output) out more s.2,
      )

  -- Offsets that are packed are all written.
  pub write_payloads-returns :
      (a lo hi : ℕ) (order output : List ℕ)
      → ((i : ℕ) → length (payload i) ≡ size i)
      → length output ≤ lo
      → IsPacked a lo hi (map offset order) (map size order)
      → (out : List ℕ) × (write_payloads payload size offset order output ≡ ok out)
        × (length out ≤ hi)
  unfolding write_payloads
  write_payloads-returns a lo hi [] output same le packed = (output, refl, omega (arith, packed))
  write_payloads-returns a lo hi (i ∷ order) output same le packed =
      let pad = zeros (offset i - length output) in
      let fits : length output ≤ offset i = omega (arith, packed.0) in
      let t : leb (length output) (offset i) ≡ true = ground arith in
      let u : (length (payload i) == size i) ≡ true = (==_iff _ _).1 (same i) in
      let n = length-append (output ++ pad) (payload i) in
      let m = length-append output pad in
      let z = length-replicate {A = ℕ} (offset i - length output) 0 in
      let end : length (round_of i output) ≤ offset i + size i =
        omega (arith, n, m, z, same i, fits) in
      let ih =
        write_payloads-returns a (offset i + size i) hi order (round_of i output) same end
          packed.2 in
      (ih.0, rw (t, u, pad-to (offset i) output fits) ih.1, ih.2)
