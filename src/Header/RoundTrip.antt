-- ===== src/Header/RoundTrip.antt =====
-- A chunk that was built is read back; a table that was encrypted is decrypted.
use cri_archive_lib.Base.{ℕ, ◌+◌, ◌^◌, ◌≤◌, ◌<◌, ◌≡◌, refl, ◌∙◌, arith, ltb, leb, ◌&&◌}
use cri_archive_lib.Base.{true, false, inl, inr, ◌⊎◌, List, [], ◌∷◌, ◌++◌, length}
use cri_archive_lib.Base.{length-append, take-append, ok}
use cri_archive_lib.Base.Bytes.{from_le, to_le, from_le-to_le}
use cri_archive_lib.Encrypt.Table.{starts_with, decrypt_utf, decrypt_from-utf, utf_magic}
use cri_archive_lib.Header.{
  CpkChunkKind, cpk, toc, itoc, etoc, gtoc, unknown, magic, from_magic, same_bytes, is_cpk,
  decrypt_utf_scalar, open_table, new, build_chunk, header_size, cpk_chunk_header_size,
}

-- A chunk with four bytes for the kind, four flags, and a table that is stored as `stored`.
abbrev pub chunk : ℕ → ℕ → ℕ → ℕ → ℕ → ℕ → ℕ → ℕ → List ℕ → List ℕ → List ℕ
chunk a b c d flag x y z stored rest =
    a ∷ b ∷ c ∷ d ∷ flag ∷ x ∷ y ∷ z ∷ (to_le 8 (length stored) ++ stored ++ rest)

-- What may stand in a chunk: not too short, and a header within its area.
abbrev pub IsStorable : CpkChunkKind → List ℕ → Type 0
IsStorable kind table =
    (header_size ≤ length table)
    × (length table < 2 ^ 64)
    × ((is_cpk kind && ltb 0x800 (length table + cpk_chunk_header_size)) ≡ false)

new-chunk :
    (a b c d flag x y z : ℕ) (stored rest : List ℕ)
    → IsStorable (from_magic (a ∷ b ∷ c ∷ d ∷ [])) stored
    → new (chunk a b c d flag x y z stored rest)
      ≡ open_table (from_magic (a ∷ b ∷ c ∷ d ∷ [])) flag stored
unfolding new
new-chunk a b c d flag x y z stored rest h =
    let n = length stored in
    let size : from_le (to_le 8 n) ≡ n = from_le-to_le 8 n (omega (arith, h.1)) in
    let t₀ : leb cpk_chunk_header_size (length (chunk a b c d flag x y z stored rest)) ≡ true =
      ground arith in
    let t₁ : leb header_size n ≡ true = ground (arith, h.0) in
    let t₂ : leb n (length (stored ++ rest)) ≡ true = ground (arith, length-append stored rest) in
    rw (size, t₁, h.2, t₂, take-append stored rest, t₀) refl

-- The kinds that have a name are told apart by their magic.
pub from_magic-magic :
    (kind : CpkChunkKind)
    → (from_magic (magic kind) ≡ kind) ⊎ ((bytes : List ℕ) × (kind ≡ unknown bytes))
unfolding from_magic magic same_bytes
from_magic-magic cpk = inl refl
from_magic-magic toc = inl refl
from_magic-magic itoc = inl refl
from_magic-magic etoc = inl refl
from_magic-magic gtoc = inl refl
from_magic-magic (unknown bytes) = inr (bytes, refl)

open_plain :
    (kind : CpkChunkKind) (table : List ℕ)
    → starts_with table utf_magic ≡ true
    → open_table kind 0xff table ≡ ok (record { kind = kind; table = table })
unfolding open_table
open_plain kind table h = rw h refl

-- A chunk that `build_chunk` makes from a table, before any other bytes, is read back with its
-- kind and its table, when the kind is told by its magic of four bytes and the table begins as an
-- @UTF table does, is not shorter than the header of one, and fits where it has to.
pub new-build_chunk :
    (kind : CpkChunkKind) (table rest : List ℕ)
    → from_magic (magic kind) ≡ kind
    → length (magic kind) ≡ 4
    → IsStorable kind table
    → starts_with table utf_magic ≡ true
    → new (build_chunk kind table ++ rest) ≡ ok (record { kind = kind; table = table })
unfolding build_chunk
new-build_chunk kind table rest same four h utf = by_magic (magic kind) four same
  where
    by_magic :
        (m : List ℕ)
        → length m ≡ 4
        → from_magic m ≡ kind
        → new ((m ++ (0xff ∷ 0xff ∷ 0xff ∷ 0xff ∷ []) ++ to_le 8 (length table) ++ table) ++ rest)
          ≡ ok (record { kind = kind; table = table })
    by_magic (a ∷ b ∷ c ∷ d ∷ []) e same =
        new-chunk a b c d 0xff 0xff 0xff 0xff table rest (rw same h)
        ∙ rw same (open_plain kind table utf)
    by_magic [] e same = absurd (omega arith)
    by_magic (a ∷ []) e same = absurd (omega arith)
    by_magic (a ∷ b ∷ []) e same = absurd (omega arith)
    by_magic (a ∷ b ∷ c ∷ []) e same = absurd (omega arith)
    by_magic (a ∷ b ∷ c ∷ d ∷ x ∷ m) e same = absurd (omega arith)

-- A chunk whose byte at 4 is zero, whatever the three bytes behind it, and whose table is stored
-- under the cipher of tables is read as the table in plain text, when the table begins as an @UTF
-- table does and what is stored fits where it has to.
pub new-encrypted :
    (a b c d x y z : ℕ) (table rest : List ℕ)
    → IsStorable (from_magic (a ∷ b ∷ c ∷ d ∷ [])) (decrypt_utf table)
    → starts_with table utf_magic ≡ true
    → new (chunk a b c d 0 x y z (decrypt_utf table) rest)
      ≡ ok (record { kind = from_magic (a ∷ b ∷ c ∷ d ∷ []); table = table })
unfolding open_table decrypt_utf_scalar
new-encrypted a b c d x y z table rest h utf =
    new-chunk a b c d 0 x y z (decrypt_utf table) rest h ∙ rw (decrypt_from-utf table, utf) refl
