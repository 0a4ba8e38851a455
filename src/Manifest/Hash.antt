-- ===== src/Manifest/Hash.antt =====
-- `hash_bytes` and `hash_file`: the FNV-1a hash of a source, at once and read by read.
use cri_archive_lib.Base.{
  ℕ, ◌*◌, ◌%◌, ◌^◌, ◌<◌, ◌≡◌, refl, sym, ◌∙◌, ap, arith, bit_xor, List, [], ◌∷◌, ◌++◌, length, All,
  Option, none, some,
}
use cri_archive_lib.Base.{Result, ok, err, ◌>>=◌}

abbrev pub fnv_offset_basis : ℕ
fnv_offset_basis = 0xcbf29ce484222325

abbrev pub fnv_prime : ℕ
fnv_prime = 0x100000001b3

-- The loop over bytes, from the hash so far.
unfoldable pub hash_from : ℕ → List ℕ → ℕ
hash_from hash [] = hash
hash_from hash (byte ∷ bytes) = hash_from (bit_xor hash byte * fnv_prime % 2 ^ 64) bytes

pub hash_bytes : List ℕ → ℕ
hash_bytes bytes = hash_from fnv_offset_basis bytes

-- An error of the file system.
pub data IoError : Type 0 where
  read_failed : IoError

-- The `loop` over the reads that come, `none` being one that fails; no bytes end it, as the end of the
-- list does.
pub hash_reads : ℕ → List (Option (List ℕ)) → Result IoError ℕ
hash_reads hash [] = ok hash
hash_reads hash (none ∷ reads) = err read_failed
hash_reads hash (some [] ∷ reads) = ok hash
hash_reads hash (some (byte ∷ bytes) ∷ reads) = hash_reads (hash_from hash (byte ∷ bytes)) reads

-- `size` is the length in the metadata of the file.
pub hash_file : ℕ → List (Option (List ℕ)) → Result IoError (ℕ × ℕ)
hash_file size reads = hash_reads fnv_offset_basis reads >>= λ hash. ok (size, hash)

-- The bytes of reads that all go well and are not empty, one after the other.
abbrev pub joined : List (List ℕ) → List ℕ
joined [] = []
joined (bytes ∷ rest) = bytes ++ joined rest

abbrev pub given : List (List ℕ) → List (Option (List ℕ))
given [] = []
given (bytes ∷ rest) = some bytes ∷ given rest

hash_from-append :
    (hash : ℕ) (xs ys : List ℕ) → hash_from hash (xs ++ ys) ≡ hash_from (hash_from hash xs) ys
unfolding hash_from
hash_from-append hash [] ys = refl
hash_from-append hash (x ∷ xs) ys = hash_from-append (bit_xor hash x * fnv_prime % 2 ^ 64) xs ys

hash_reads-joined :
    (hash : ℕ) (reads : List (List ℕ))
    → All (λ bytes. 0 < length bytes) reads
    → hash_reads hash (given reads) ≡ ok (hash_from hash (joined reads))
unfolding hash_reads hash_from
hash_reads-joined hash [] h = refl
hash_reads-joined hash ([] ∷ reads) h = let lt = h.0 in absurd (omega arith)
hash_reads-joined hash ((byte ∷ bytes) ∷ reads) h =
    hash_reads-joined (hash_from hash (byte ∷ bytes)) reads h.1
    ∙ ap (λ n. ok n) (sym (hash_from-append hash (byte ∷ bytes) (joined reads)))

-- When the reads of a file all go well and none is empty before the end, `hash_file` gives the
-- size and the hash that `hash_bytes` gives of all bytes at once, however the reads cut them.
pub hash_file-hash_bytes :
    (size : ℕ) (reads : List (List ℕ))
    → All (λ bytes. 0 < length bytes) reads
    → hash_file size (given reads) ≡ ok (size, hash_bytes (joined reads))
unfolding hash_file hash_bytes
hash_file-hash_bytes size reads h = rw (hash_reads-joined fnv_offset_basis reads h) refl
