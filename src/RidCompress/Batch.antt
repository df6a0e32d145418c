-- ===== src/RidCompress/Batch.antt =====
-- One batch of at most 128 row ids: `encode`, `encode_param_new` and `decode_new` of
-- src/ridcompress/patchedframeofreference.cpp. A batch's buffer is the list of its bytes; `none` is
-- the result false or a read outside of the buffer.
pub mod Written
pub mod Unpacked
pub mod Packed
pub mod Differences
pub mod RoundTrip
use alacrity_adios.Prelude.{ℕ, zero, suc, ◌+◌, ◌-◌, ◌*◌, ◌^◌, Bool, ltb, leb, ◌==◌, not}
use alacrity_adios.Prelude.{if◌then◌else◌, u32, List, [], ◌∷◌, ◌++◌, length, take, drop, map}
use alacrity_adios.Prelude.{get_or, replicate, Option, none, some, ◌>>=◌}
use alacrity_adios.RidCompress.FixedLength.{batch_size, fixed_length_buffer_size}
use alacrity_adios.RidCompress.FixedLength.{fixed_length_encode, fixed_length_decode}
use alacrity_adios.RidCompress.Exceptions.{ExceptionType, get_exception_value_size}
use alacrity_adios.RidCompress.Exceptions.{encode_as_exceptions, decode_as_exceptions}
use alacrity_adios.RidCompress.Exceptions.{exception_indexes, compute_exceptions, zero_exceptions}
use alacrity_adios.RidCompress.Exceptions.{patch_exceptions_new}
use alacrity_adios.RidCompress.Header.{Header, read, write}
use alacrity_adios.RidCompress.Params.{whole_words, required_buffer_size, optimal_param}

-- The differences of neighbours, from the second value on.
unfoldable pub deltas_after : ℕ → List ℕ → List ℕ
deltas_after previous [] = []
deltas_after previous (x ∷ xs) = u32 (x + 2 ^ 32 - previous) ∷ deltas_after x xs

-- The array `deltas` of `encode`, where the first entry and those that are not significant are 0.
unfoldable pub deltas_of : List ℕ → ℕ → List ℕ
deltas_of ids significant_data_size =
    let ds = 0 ∷ deltas_after (get_or ids 0 0) (drop 1 (take significant_data_size ids)) in
    ds ++ replicate (batch_size - length ds) 0

-- An area whose first word is set to 0 before the exceptions are stored at its end: they leave
-- less than a word free.
unfoldable pub exception_area : ℕ → List ℕ → List ℕ
exception_area size exceptions = replicate (size - length exceptions) 0 ++ exceptions

module _ (values : List ℕ) (significant_data_size frame_of_reference : ℕ)
    (exception_type : ExceptionType) (buffer_capacity exception_value_size : ℕ) where
  -- The branch for the fixed length 0: every significant value is an exception.
  unfoldable pub encode_unpacked : Option (List ℕ)
  encode_unpacked =
      let req_buffer_size = 8 + whole_words (significant_data_size * exception_value_size) in
      if ltb buffer_capacity req_buffer_size
      then none
      else (encode_as_exceptions exception_type values significant_data_size >>= λ exceptions.
          write (record {
            frame_of_reference = frame_of_reference;
            first_exception = batch_size;
            significant_data_size = significant_data_size;
            fixed_length = 0;
            exception_type = exception_type;
            encoded_size = req_buffer_size;
          })
          >>= λ header. some (header ++ exception_area (req_buffer_size - 8) exceptions))

  -- The branch for the other fixed lengths.
  unfoldable pub encode_packed : ℕ → Option (List ℕ)
  encode_packed fixed_length =
      let indexes = exception_indexes (2 ^ fixed_length - 1) 0 values in
      let exception_count = length indexes - 1 in
      let req_buffer_size =
        required_buffer_size fixed_length exception_count exception_value_size in
      if ltb buffer_capacity req_buffer_size
      then none
      else (compute_exceptions exception_type values indexes >>= λ (chained, exceptions).
          fixed_length_encode (zero_exceptions chained indexes) fixed_length >>= λ packed.
          write (record {
            frame_of_reference = frame_of_reference;
            first_exception = get_or indexes 0 0;
            significant_data_size = significant_data_size;
            fixed_length = fixed_length;
            exception_type = exception_type;
            encoded_size = req_buffer_size;
          })
          >>= λ header. some (
              header
              ++ (packed
                  ++ exception_area (req_buffer_size - 8 - fixed_length_buffer_size fixed_length)
                      exceptions)))

-- The bytes that are stored, as many as `buffer_size` says.
unfoldable pub encode_param_new : List ℕ → ℕ → ℕ → ℕ → ExceptionType → ℕ → Option (List ℕ)
encode_param_new values significant_data_size fixed_length frame_of_reference exception_type
      buffer_capacity =
    get_exception_value_size exception_type >>= λ exception_value_size.
    if fixed_length == 0
    then encode_unpacked values significant_data_size frame_of_reference exception_type
        buffer_capacity exception_value_size
    else encode_packed values significant_data_size frame_of_reference exception_type
        buffer_capacity exception_value_size fixed_length

unfoldable pub encode : List ℕ → ℕ → ℕ → Option (List ℕ)
encode ids significant_data_size buffer_capacity =
    let deltas = deltas_of ids significant_data_size in
    optimal_param deltas significant_data_size >>= λ (fixed_length, exception_type).
    encode_param_new deltas significant_data_size fixed_length (get_or ids 0 0) exception_type
      buffer_capacity

-- `data[index] += data[index - 1]` for the values behind the first.
unfoldable pub sums_after : ℕ → List ℕ → List ℕ
sums_after previous [] = []
sums_after previous (d ∷ ds) = let sum = u32 (d + previous) in sum ∷ sums_after sum ds

unfoldable pub prefix_sums : List ℕ → List ℕ
prefix_sums [] = []
prefix_sums (d ∷ ds) = d ∷ sums_after d ds

-- Adding the frame of reference to every value, and to the first only.
unfoldable pub add_frame : ℕ → List ℕ → List ℕ
add_frame frame_of_reference ds =
    if not (frame_of_reference == 0) then map (λ d. u32 (d + frame_of_reference)) ds else ds

unfoldable pub add_to_first : ℕ → List ℕ → List ℕ
add_to_first frame_of_reference [] = []
add_to_first frame_of_reference (d ∷ ds) = u32 (d + frame_of_reference) ∷ ds

-- The significant values of a batch, and the size of its buffer.
pub record Decoded : Type 0 where
  pub values : List ℕ
  pub buffer_size : ℕ

-- The values before the sums. A header that cannot be read is ignored, and the fields then used
-- were never set.
unfoldable pub decode_unpacked_deltas : Header → List ℕ → Option (List ℕ)
decode_unpacked_deltas header buffer =
    decode_as_exceptions header.exception_type header.significant_data_size
      (take header.encoded_size buffer)

unfoldable pub decode_packed_deltas : Header → List ℕ → Option (List ℕ)
decode_packed_deltas header buffer =
    fixed_length_decode (drop 8 buffer) header.fixed_length >>= λ values.
    patch_exceptions_new header.exception_type values header.first_exception
      header.significant_data_size (take header.encoded_size buffer)
    >>= λ patched. some (take header.significant_data_size patched)

unfoldable pub decode_new : List ℕ → Option Decoded
decode_new buffer = read buffer >>= λ header.
    if not (leb header.encoded_size (length buffer))
    then none
    else if header.fixed_length == 32
    then (decode_unpacked_deltas header buffer >>= λ ds. some (record {
      values = add_frame header.frame_of_reference (prefix_sums ds);
      buffer_size = header.encoded_size;
    }))
    else (decode_packed_deltas header buffer >>= λ ds. some (record {
      values = prefix_sums (add_to_first header.frame_of_reference ds);
      buffer_size = header.encoded_size;
    }))

-- The same without the sums.
unfoldable pub decode_new_to_deltas : List ℕ → Option Decoded
decode_new_to_deltas buffer = read buffer >>= λ header.
    if not (leb header.encoded_size (length buffer))
    then none
    else if header.fixed_length == 32
    then (decode_unpacked_deltas header buffer >>= λ ds. some (record {
      values = add_to_first header.frame_of_reference ds;
      buffer_size = header.encoded_size;
    }))
    else (decode_packed_deltas header buffer >>= λ ds. some (record {
      values = add_to_first header.frame_of_reference ds;
      buffer_size = header.encoded_size;
    }))
