-- ===== src/Layla/Examples.antt =====
-- Runs of the decompressor on small inputs.
use cri_archive_lib.Base.{ℕ, ◌+◌, ◌*◌, ◌%◌, ◌<◌, ◌≡◌, arith, [], ◌∷◌, some}
use cri_archive_lib.Layla.Cursor.{Cursor, at, Memory, read_13, read_8, read_2, read_max_8}
use cri_archive_lib.Layla.Cursor.Single.{read_bits}
use cri_archive_lib.Layla.Cursor.Thirteen.{read_13-bits}
use cri_archive_lib.Layla.Cursor.Reads.{read_8-bits, read_2-bits, read_max_8-bits}
use cri_archive_lib.Layla.Copy.{Output, output, copy_block, copy_loop, copy_block-loop}
use cri_archive_lib.Layla.Tokens.{Progress, min_copy_length, read_length, token}
use cri_archive_lib.Layla.Tokens.Exact.{groups, read_length-groups, token_exact, token-exact}
use cri_archive_lib.Layla.Decompress.{LaylaHeader, uncompressed_data_size, decompress}
use cri_archive_lib.Layla.Decompress.Exact.{loop_exact}
use cri_archive_lib.Layla.Decompress.Whole.{begin, decompress-exact}

-- A stream whose bytes all differ.
abbrev stream : Memory
stream a = a * 37 % 256

stream-IsBytes : (a : ℕ) → stream a < 256
stream-IsBytes a = omega arith

abbrev middle : Cursor
middle = at 20 3

read_13_example : read_13 stream middle ≡ read_bits 13 stream middle 0
read_13_example = read_13-bits stream middle (omega arith)

read_8_example : read_8 stream middle ≡ read_bits 8 stream middle 0
read_8_example = read_8-bits stream middle (omega arith) stream-IsBytes

read_2_example : read_2 stream (at 20 1) ≡ read_bits 2 stream (at 20 1) 0
read_2_example = read_2-bits stream (at 20 1) (omega arith) stream-IsBytes

read_max_8_example : read_max_8 stream middle 5 ≡ read_bits 5 stream middle 0
read_max_8_example = read_max_8-bits stream middle 5 (omega arith) (omega arith) (omega arith)

abbrev target_end : Output
target_end = output stream 400

copy_block_example : copy_block 11 2 target_end ≡ copy_loop 11 2 target_end
copy_block_example = copy_block-loop 11 2 target_end (omega arith)

read_length_example :
    read_length 9 stream middle ≡ groups 12 (2 ∷ 3 ∷ 5 ∷ []) stream middle min_copy_length
read_length_example = read_length-groups stream stream-IsBytes 9 middle (omega arith)

abbrev half_way : Progress
half_way = record { cursor = middle; written = target_end }

token_example : token 9 stream half_way ≡ token_exact 9 stream half_way
token_example = token-exact stream stream-IsBytes 9 half_way (omega arith)

abbrev header : LaylaHeader
header = record { uncompressed_size = 7; uncompressed_header_offset = 16 }

decompress_example :
    (s : Progress) × (decompress 40 header stream 10 stream 1000 ≡ some s)
    × (loop_exact 40 stream (1000 + uncompressed_data_size) (begin header stream 10 stream 1000)
        ≡ some s)
    × (s.written.pwrite < 1000 + uncompressed_data_size)
decompress_example =
    decompress-exact 40 header stream 10 stream 1000 stream-IsBytes (omega arith) (omega arith)
