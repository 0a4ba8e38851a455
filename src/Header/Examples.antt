-- ===== src/Header/Examples.antt =====
-- Chunks with a small table.
use cri_archive_lib.Base.{ℕ, ◌≡◌, refl, arith, List, [], ◌∷◌, ◌++◌, replicate, ok}
use cri_archive_lib.Encrypt.Table.{starts_with, decrypt_utf, decrypt_utf-at, utf_magic}
use cri_archive_lib.Header.{toc, magic, from_magic, same_bytes, new, build_chunk}
use cri_archive_lib.Header.RoundTrip.{chunk, IsStorable, new-build_chunk, new-encrypted}

abbrev table : List ℕ
table = utf_magic ++ replicate 30 7

table_stored : IsStorable toc table
table_stored = (omega arith, omega arith, refl)

new-build_chunk_example :
    new (build_chunk toc table ++ (1 ∷ 2 ∷ [])) ≡ ok (record { kind = toc; table = table })
unfolding from_magic magic same_bytes starts_with
new-build_chunk_example = new-build_chunk toc table (1 ∷ 2 ∷ []) refl refl table_stored refl

encrypted_stored : IsStorable (from_magic (0x54 ∷ 0x4f ∷ 0x43 ∷ 0x20 ∷ [])) (decrypt_utf table)
unfolding from_magic same_bytes
encrypted_stored = let n = (decrypt_utf-at table).0 in (omega (arith, n), omega (arith, n), refl)

new-encrypted_example :
    new (chunk 0x54 0x4f 0x43 0x20 0 0 0 0 (decrypt_utf table) (9 ∷ []))
    ≡ ok (record { kind = from_magic (0x54 ∷ 0x4f ∷ 0x43 ∷ 0x20 ∷ []); table = table })
unfolding starts_with
new-encrypted_example = new-encrypted 0x54 0x4f 0x43 0x20 0 0 0 table (9 ∷ []) encrypted_stored refl
