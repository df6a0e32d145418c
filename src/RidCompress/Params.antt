-- ===== src/RidCompress/Params.antt =====
-- The choice of a batch's parameters: `highest_set_bit` and `optimal_param` of
-- src/ridcompress/patchedframeofreference.cpp.
pub mod HighestBit
pub mod Chosen
use alacrity_adios.Prelude.{ℕ, zero, suc, ◌+◌, ◌-◌, ◌*◌, ◌/◌, ◌^◌, Bool, ltb, ◌==◌}
use alacrity_adios.Prelude.{if◌then◌else◌, bit_or, List, [], ◌∷◌, get_or, set, replicate, map}
use alacrity_adios.Prelude.{Option, none, some, ◌>>=◌, length, not}
use alacrity_adios.RidCompress.FixedLength.{batch_size, or_all, fixed_length_buffer_size}
use alacrity_adios.RidCompress.Exceptions.{ExceptionType}
use alacrity_adios.RidCompress.Header.{sufficient_buffer_capacity}
use alacrity_adios.RidCompress.Params.HighestBit.{highest_set_bit}

-- `(n + sizeof(uint64_t) - 1) / sizeof(uint64_t) * sizeof(uint64_t)`
unfoldable pub whole_words : ℕ → ℕ
whole_words n = (n + 8 - 1) / 8 * 8

unfoldable pub required_buffer_size : ℕ → ℕ → ℕ → ℕ
required_buffer_size fixed_length exception_count exception_value_size =
    8 + fixed_length_buffer_size fixed_length + whole_words (exception_count * exception_value_size)

-- `++length_counts[highest_set_bit(data[idx] | 1)]` for each value.
unfoldable pub count_lengths : List ℕ → List ℕ → List ℕ
count_lengths length_counts [] = length_counts
count_lengths length_counts (d ∷ ds) =
    let i = highest_set_bit (bit_or d 1) in
    count_lengths (set length_counts i (suc (get_or length_counts i 0))) ds

-- The loop from the last length down; `exception_counts` has the entries from `l` on.
unfoldable pub count_exceptions : ℕ → List ℕ → List ℕ → List ℕ
count_exceptions zero length_counts exception_counts = exception_counts
count_exceptions (suc l) length_counts exception_counts =
    count_exceptions l length_counts
      ((get_or length_counts (suc l) 0 + get_or exception_counts 0 0) ∷ exception_counts)

pub record Best : Type 0 where
  pub length : ℕ
  pub buffer_size : ℕ

unfoldable pub better : ℕ → ℕ → Best → Best
better length buffer_size best =
    if ltb buffer_size best.buffer_size
    then record { length = length; buffer_size = buffer_size }
    else best

-- The loop over the lengths; `exception_counts` has the entries from `length` on.
unfoldable pub best_length : ℕ → ℕ → List ℕ → Best → Best
unfolding better
best_length exception_value_size length [] best = best
best_length exception_value_size length (count ∷ exception_counts) best =
    best_length exception_value_size (length + 1) exception_counts
      (better (length + 1) (required_buffer_size (length + 1) count exception_value_size) best)

-- The type that holds every value, with its size, by the highest bit of them all.
unfoldable pub type_for : ℕ → ExceptionType × ℕ
type_for mask_bits =
    if ltb mask_bits 8
    then (ExceptionType.exception_unsigned_char, 1)
    else if ltb mask_bits 16
    then (ExceptionType.exception_unsigned_short, 2)
    else (ExceptionType.exception_unsigned_int, 4)

unfoldable pub first_best : ℕ → ℕ → Best
first_best significant_data_size exception_value_size =
    if ltb significant_data_size sufficient_buffer_capacity
    then record {
      length = 0;
      buffer_size = 8 + whole_words (significant_data_size * exception_value_size);
    }
    else record { length = 32; buffer_size = sufficient_buffer_capacity }

-- The fixed length and the exception type; `none` is the result false.
unfoldable pub optimal_param : List ℕ → ℕ → Option (ℕ × ExceptionType)
optimal_param values significant_data_size =
    if not (length values == batch_size)
    then none
    else if ltb (length values) significant_data_size
    then none
    else let (exception_type, exception_value_size) =
        type_for (highest_set_bit (bit_or (or_all values) 1)) in
      let length_counts = count_lengths (replicate 32 0) values in
      let exception_counts = count_exceptions 31 length_counts (0 ∷ []) in
      let best =
        best_length exception_value_size 0 exception_counts
          (first_best significant_data_size exception_value_size) in
      some (best.length, exception_type)
