-- ===== src/Layla/Decompress.antt =====
-- `LaylaDecompressorImpl::decompress`: the loop over tokens, downwards from the end of the output.
pub mod Exact
pub mod Fuel
pub mod Whole
use cri_archive_lib.Base.{ℕ, zero, suc, ◌+◌, ◌-◌, leb, true, false, Option, none, some}
use cri_archive_lib.Layla.Cursor.{Cursor, at, Memory}
use cri_archive_lib.Layla.Copy.{Output, output, poke, copy_block}
use cri_archive_lib.Layla.Tokens.{Progress, token}

-- `LaylaHeader`, without its magic.
pub record LaylaHeader : Type 0 where
  pub uncompressed_size : ℕ
  pub uncompressed_header_offset : ℕ

abbrev pub uncompressed_data_size : ℕ
uncompressed_data_size = 0x100

-- `copy_nonoverlapping(src, dst, n)` between the two memories.
pub copy_nonoverlapping : Memory → ℕ → Memory → ℕ → ℕ → Memory
copy_nonoverlapping mem src out dst zero = out
copy_nonoverlapping mem src out dst (suc n) =
    copy_nonoverlapping mem (src + 1) (poke out dst (mem src)) (dst + 1) n

-- `while pwrite >= pmin`; `none`: the fuel ran out.
pub token_loop : ℕ → Memory → ℕ → Progress → Option Progress
token_loop zero mem pmin s = none
token_loop (suc fuel) mem pmin s = elim (leb pmin s.written.pwrite) [
  | false ↦ some s
  | true ↦ elim (token fuel mem s) [ none ↦ none | some s' ↦ token_loop fuel mem pmin s' ]
]

-- `input` and `target` are the addresses of the two slices.
pub decompress : ℕ → LaylaHeader → Memory → ℕ → Memory → ℕ → Option Progress
decompress fuel header mem input out target =
    let uncmp_data = input + header.uncompressed_header_offset in
    let out' = copy_nonoverlapping mem uncmp_data out target uncompressed_data_size in
    let pwrite = target + (uncompressed_data_size + header.uncompressed_size - 1) in
    let pmin = target + uncompressed_data_size in
    token_loop fuel mem pmin (record { cursor = at uncmp_data 0; written = output out' pwrite })
