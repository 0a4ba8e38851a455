-- ===== src/Writer/Output.antt =====
-- The end of `write_with_profile`: the payloads, each behind its padding, up to the size of the archive.
-- The output is the list of the bytes written so far, its end being the position of the stream.
pub mod Payloads
pub mod Whole
use cri_archive_lib.Base.{
  ℕ, zero, suc, ◌+◌, ◌-◌, min, ltb, leb, ◌==◌, if◌then◌else◌, length, replicate,
}
use cri_archive_lib.Base.{List, [], ◌∷◌, ◌++◌, Result, ok, err, ensure, ◌>>=◌, ◌>>◌}

-- `changed_size` is the error of a payload that is not as long as its file was.
pub data OutputError : Type 0 where
  arithmetic_overflow changed_size : OutputError

-- The `while` loop of `write_zeros`, with a bound on its rounds.
unfoldable pub zeros_loop : ℕ → ℕ → List ℕ → List ℕ
zeros_loop zero count output = output
zeros_loop (suc fuel) count output =
    let write = min count 0x2000 in
    let rest = zeros_loop fuel (count - write) (output ++ replicate write 0) in
    if count == 0 then output else rest

unfoldable pub write_zeros : ℕ → List ℕ → List ℕ
write_zeros count output = zeros_loop count count output

-- `payload` gives the bytes that `write_file_payload` copies for the file at an index.
module _ (payload : ℕ → List ℕ) (size offset : ℕ → ℕ) where
  -- The loop over the physical order.
  unfoldable pub write_payloads : List ℕ → List ℕ → Result OutputError (List ℕ)
  write_payloads [] output = ok output
  write_payloads (index ∷ order) output =
      let current = length output in
      let target = offset index in
      let padded = if ltb current target then write_zeros (target - current) output else output in
      ensure (leb current target) arithmetic_overflow
      >> (ensure (length (payload index) == size index) changed_size
          >> write_payloads order (padded ++ payload index))

  unfoldable pub write_content : ℕ → List ℕ → List ℕ → Result OutputError (List ℕ)
  write_content archive_size order output = write_payloads order output >>= λ written.
      let current = length written in
      ok
        (if ltb current archive_size then write_zeros (archive_size - current) written else written)
