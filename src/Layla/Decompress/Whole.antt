-- ===== src/Layla/Decompress/Whole.antt =====
-- The whole of `decompress`: it ends, and writes what the reference tokens say.
use cri_archive_lib.Base.{ℕ, ◌+◌, ◌-◌, ◌<◌, ◌≡◌, ◌∙◌, arith, some}
use cri_archive_lib.Layla.Cursor.{at, Memory}
use cri_archive_lib.Layla.Copy.{output}
use cri_archive_lib.Layla.Tokens.{Progress}
use cri_archive_lib.Layla.Decompress.{
  LaylaHeader, uncompressed_data_size, copy_nonoverlapping, decompress,
}
use cri_archive_lib.Layla.Decompress.Exact.{loop_exact, token_loop-exact}
use cri_archive_lib.Layla.Decompress.Fuel.{loop_exact-ends}

-- The state in which the tokens begin: at the end of the stream, with the raw block copied.
abbrev pub begin : LaylaHeader → Memory → ℕ → Memory → ℕ → Progress
begin header mem input out target =
    let uncmp_data = input + header.uncompressed_header_offset in
    record {
      cursor = at uncmp_data 0;
      written =
          output (copy_nonoverlapping mem uncmp_data out target uncompressed_data_size)
            (target + (uncompressed_data_size + header.uncompressed_size - 1));
    }

-- For a memory of bytes whose byte at address 0 is not 255, and with more fuel than the address of
-- the raw block and the number of bytes to write make together, `decompress` returns, has written
-- down to the raw block, and has done what the loop over the reference tokens does.
pub decompress-exact :
    (fuel : ℕ) (header : LaylaHeader) (mem : Memory) (input : ℕ) (out : Memory) (target : ℕ)
    → ((a : ℕ) → mem a < 256)
    → mem 0 < 255
    → input + header.uncompressed_header_offset + header.uncompressed_size < fuel
    → (s : Progress) × (decompress fuel header mem input out target ≡ some s)
      × (loop_exact fuel mem (target + uncompressed_data_size) (begin header mem input out target)
          ≡ some s)
      × (s.written.pwrite < target + uncompressed_data_size)
unfolding decompress
decompress-exact fuel header mem input out target bytes low enough =
    let s = begin header mem input out target in
    let pmin = target + uncompressed_data_size in
    let done =
      loop_exact-ends mem bytes low fuel pmin s (omega arith) (omega arith) (omega arith) in
    (done.0, token_loop-exact mem bytes fuel pmin s (omega arith) ∙ done.1, done.1, done.2)
