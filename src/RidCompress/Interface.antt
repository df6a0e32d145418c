-- ===== src/RidCompress/Interface.antt =====
-- src/ridcompress/pfordelta-c-interface.cpp: `encode_rids`, `update_rids` and `decode_rids`, whose
-- wrappers in src/ALRIDCompression.c turn the result into an ALError; and `adios_decode_deltas`.
-- The results are lists; a count or a length that the code hands out is a length of theirs. `none`
-- is the result 0, or a step that C leaves undefined.
pub mod Batches
pub mod Fuel
pub mod RoundTrip
use alacrity_adios.Prelude.{ℕ, zero, suc, ◌+◌, ◌-◌, ◌*◌, ◌/◌, ◌%◌, ◌^◌, Bool, ltb, leb, ◌==◌, not}
use alacrity_adios.Prelude.{if◌then◌else◌, u32, List, [], ◌∷◌, ◌++◌, length, take, drop}
use alacrity_adios.Prelude.{replicate, Option, none, some, ◌>>=◌}
use alacrity_adios.Memory.{le_bytes, from_le}
use alacrity_adios.RidCompress.FixedLength.{batch_size}
use alacrity_adios.RidCompress.Header.{Header, read, write, sufficient_buffer_capacity}
use alacrity_adios.RidCompress.Batch.{Decoded, encode, decode_new, decode_new_to_deltas}

-- `n / 128` batches are full, and `n % 128` values are in a last one.
unfoldable pub batch_count : ℕ → ℕ
batch_count n = n / batch_size

-- `temp_data`: the remaining values, and zeros.
unfoldable pub padded : List ℕ → List ℕ
padded ids = ids ++ replicate (batch_size - length ids) 0

unfoldable pub encode_remainder : List ℕ → Option (List ℕ)
encode_remainder [] = some []
encode_remainder (x ∷ xs) = encode (padded (x ∷ xs)) (length (x ∷ xs)) sufficient_buffer_capacity

unfoldable pub encode_batches : ℕ → List ℕ → Option (List ℕ)
encode_batches zero ids = encode_remainder ids
encode_batches (suc batches) ids =
    encode (take batch_size ids) batch_size sufficient_buffer_capacity >>= λ bytes.
    encode_batches batches (drop batch_size ids) >>= λ rest. some (bytes ++ rest)

unfoldable pub encode_rids : List ℕ → Option (List ℕ)
encode_rids input = encode_batches (batch_count (length input)) input >>= λ batches.
    some (le_bytes 4 (length input) ++ batches)

-- Reading the header of a batch and writing it back with the offset added.
unfoldable pub update_header : ℕ → List ℕ → Option (List ℕ × ℕ)
update_header rid_offset buffer = read buffer >>= λ header.
    write (record header { frame_of_reference = u32 (header.frame_of_reference + rid_offset) })
    >>= λ bytes. some (bytes ++ drop 8 buffer, header.encoded_size)

-- The batches of the list, `batches` of them. The bytes behind them are left over.
unfoldable pub update_batches : ℕ → ℕ → List ℕ → Option (List ℕ × List ℕ)
update_batches rid_offset zero buffer = some ([], buffer)
update_batches rid_offset (suc batches) buffer =
    update_header rid_offset buffer >>= λ (updated, size).
    if leb size (length buffer)
    then (update_batches rid_offset batches (drop size updated) >>= λ (done, rest).
        some (take size updated ++ done, rest))
    else none

-- How many batches the loop and the `if` behind it go through.
unfoldable pub all_batches : ℕ → ℕ
all_batches data_size = batch_count data_size + (if data_size % batch_size == 0 then 0 else 1)

-- `rid_offset` is given by its 32 bits.
unfoldable pub update_rids : List ℕ → ℕ → Option (List ℕ)
update_rids input rid_offset =
    if ltb (length input) 4
    then none
    else (update_batches rid_offset (all_batches (from_le (take 4 input))) (drop 4 input)
        >>= λ (updated, rest). if length rest == 0 then some (take 4 input ++ updated) else none)

module _ (decode_batch : List ℕ → Option Decoded) where
  -- The batches of one list and the bytes behind it. A batch with fewer or more values than belong
  -- in it leaves values of the output unset, which is `none`.
  unfoldable pub decode_one : ℕ → List ℕ → Option (List ℕ × List ℕ)
  decode_one expected buffer = decode_batch buffer >>= λ d.
      if length d.values == expected then some (d.values, drop d.buffer_size buffer) else none

  unfoldable pub decode_remainder : ℕ → List ℕ → Option (List ℕ × List ℕ)
  decode_remainder zero buffer = some ([], buffer)
  decode_remainder (suc remaining) buffer = decode_one (suc remaining) buffer

  unfoldable pub decode_batches : ℕ → ℕ → List ℕ → Option (List ℕ × List ℕ)
  decode_batches zero remaining buffer = decode_remainder remaining buffer
  decode_batches (suc batches) remaining buffer = decode_one batch_size buffer >>= λ (values, rest).
      decode_batches batches remaining rest >>= λ (more, behind). some (values ++ more, behind)

  unfoldable pub decode_list : List ℕ → Option (List ℕ × List ℕ)
  decode_list input =
      let data_size = from_le (take 4 input) in
      if leb 4 (length input)
      then decode_batches (batch_count data_size) (data_size % batch_size) (drop 4 input)
      else none

  -- The outer loop, on any number of lists one after the other. Each turn takes at least the four
  -- bytes of a count, so that the length of the input is enough fuel.
  unfoldable pub decode_lists : ℕ → List ℕ → Option (List ℕ)
  decode_lists fuel [] = some []
  decode_lists zero (b ∷ bs) = none
  decode_lists (suc fuel) (b ∷ bs) = decode_list (b ∷ bs) >>= λ (values, rest).
      decode_lists fuel rest >>= λ more. some (values ++ more)

-- The source keeps what is left of the input in 32 bits: the input is one below 4 GB.
unfoldable pub decode_rids : List ℕ → Option (List ℕ)
decode_rids input = decode_lists decode_new (length input) input

-- `adios_decode_deltas`, of which each batch starts with its first row id and goes on with
-- differences.
unfoldable pub decode_deltas : List ℕ → Option (List ℕ)
decode_deltas input = decode_lists decode_new_to_deltas (length input) input

-- `get_sufficient_buffer_capacity`: the quotient is rounded up.
unfoldable pub get_sufficient_buffer_capacity : ℕ → ℕ
get_sufficient_buffer_capacity bin_length =
    u32 (sufficient_buffer_capacity * ((bin_length + batch_size - 1) / batch_size))
