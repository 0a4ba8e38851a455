-- ===== src/Layla/Tokens.antt =====
-- The tokens of the stream: how `decompress` reads the flag, the offset and the length of a copy,
-- and what it writes for each.
pub mod Exact
use cri_archive_lib.Base.{ℕ, zero, suc, ◌+◌, ◌-◌, ◌==◌, if◌then◌else◌, Bool, Option, none, some}
use cri_archive_lib.Layla.Cursor.{Cursor, Memory, Read, read_1, read_13, read_8, read_2, read_max_8}
use cri_archive_lib.Layla.Copy.{Output, output, poke, copy_block}

abbrev pub min_copy_length : ℕ
min_copy_length = 3

abbrev pub found : ℕ → Cursor → Option (Read ℕ)
found length c = some (record { value = length; cursor = c })

-- The `loop` that adds whole bytes to the length while they are 255; `none`: the fuel ran out.
pub long_length : ℕ → Memory → Cursor → ℕ → Option (Read ℕ)
long_length zero mem c length = none
long_length (suc fuel) mem c length =
    let r = read_8 mem c in
    let rest = long_length fuel mem r.cursor (length + r.value) in
    if r.value == 255 then rest else found (length + r.value) r.cursor

-- Read variable fibonnaci length (unrolled).
pub read_length : ℕ → Memory → Cursor → Option (Read ℕ)
read_length fuel mem c =
    let r₂ = read_2 mem c in
    let length₂ = min_copy_length + r₂.value in
    let r₃ = read_max_8 mem r₂.cursor 3 in
    let length₃ = length₂ + r₃.value in
    let r₅ = read_max_8 mem r₃.cursor 5 in
    let length₅ = length₃ + r₅.value in
    if r₂.value == 3
    then (if r₃.value == 7
        then (if r₅.value == 0x1f
            then long_length fuel mem r₅.cursor length₅
            else found length₅ r₅.cursor)
        else found length₃ r₃.cursor)
    else found length₂ r₂.cursor

-- The cursor and the output.
pub record Progress : Type 0 where
  pub cursor : Cursor
  pub written : Output

-- The bytes of a copy, once its length is known.
unfoldable pub copied : (ℕ → ℕ → Output → Output) → Option (Read ℕ) → ℕ → Output → Option Progress
copied copy none offset o = none
copied copy (some length) offset o =
    some
      (record { cursor = length.cursor; written = copy length.value (offset + min_copy_length) o })

-- The arm of a set compression flag.
pub copy_token : ℕ → Memory → Cursor → Output → Option Progress
copy_token fuel mem c o =
    let offset = read_13 mem c in
    copied copy_block (read_length fuel mem offset.cursor) offset.value o

-- uncompressed, copy directly
pub raw_token : Memory → Cursor → Output → Progress
raw_token mem c o =
    let r = read_8 mem c in
    record { cursor = r.cursor; written = output (poke o.out o.pwrite r.value) (o.pwrite - 1) }

-- One round of the `while` loop.
pub token : ℕ → Memory → Progress → Option Progress
token fuel mem s =
    let flag = read_1 mem s.cursor in
    if flag.value
    then copy_token fuel mem flag.cursor s.written
    else some (raw_token mem flag.cursor s.written)
