-- ===== src/RidCompress/Header.antt =====
-- The header of a compressed batch: `Header` and `CompactHeader` of
-- src/ridcompress/patchedframeofreference.h, with `Header::read` and `Header::write`.
pub mod RoundTrip
use alacrity_adios.Prelude.{ℕ, ◌+◌, ◌-◌, ◌*◌, ◌/◌, ◌%◌, ◌^◌, Bool, ltb, leb, ◌==◌, ◌||◌, not}
use alacrity_adios.Prelude.{if◌then◌else◌, u32, List, ◌++◌, length, take, drop}
use alacrity_adios.Prelude.{Option, none, some}
use alacrity_adios.Memory.{le_bytes, from_le}
use alacrity_adios.RidCompress.FixedLength.{batch_size}
use alacrity_adios.RidCompress.Exceptions.{ExceptionType, type_code, type_of_code}

pub record Header : Type 0 where
  pub frame_of_reference : ℕ
  pub first_exception : ℕ
  pub significant_data_size : ℕ
  pub fixed_length : ℕ
  pub exception_type : ExceptionType
  pub encoded_size : ℕ

-- The bit fields of the struct's second word, from the lowest bit: 8, 8, 5, 3 and 8 bits.
pub record CompactHeader : Type 0 where
  pub frame_of_reference : ℕ
  pub first_exception : ℕ
  pub significant_data_size : ℕ
  pub fixed_length : ℕ
  pub exception_type : ℕ
  pub encoded_size : ℕ

unfoldable pub compact_bytes : CompactHeader → List ℕ
compact_bytes c =
    le_bytes 4 c.frame_of_reference
    ++ le_bytes 4 (
        c.first_exception
        + c.significant_data_size * 2 ^ 8
        + c.fixed_length * 2 ^ 16
        + c.exception_type * 2 ^ 21
        + c.encoded_size * 2 ^ 24)

unfoldable pub compact_of : ℕ → ℕ → CompactHeader
compact_of first second = record {
  frame_of_reference = first;
  first_exception = second % 2 ^ 8;
  significant_data_size = second / 2 ^ 8 % 2 ^ 8;
  fixed_length = second / 2 ^ 16 % 2 ^ 5;
  exception_type = second / 2 ^ 21 % 2 ^ 3;
  encoded_size = second / 2 ^ 24 % 2 ^ 8;
}

-- kSufficientBufferCapacity
abbrev pub sufficient_buffer_capacity : ℕ
sufficient_buffer_capacity = 8 + batch_size * 4 * 2

-- The guards of `read`.
unfoldable pub is_invalid : CompactHeader → Bool
is_invalid c =
    ltb batch_size c.first_exception
    || ltb batch_size c.significant_data_size
    || ltb 32 (c.fixed_length + 1)
    || ltb 5 c.exception_type
    || (c.encoded_size * 8 == 0)
    || ltb sufficient_buffer_capacity (c.encoded_size * 8)

unfoldable pub read_compact : CompactHeader → Option Header
unfolding is_invalid
read_compact c =
    if is_invalid c
    then none
    else some (record {
      frame_of_reference = c.frame_of_reference;
      first_exception = c.first_exception;
      significant_data_size = c.significant_data_size;
      fixed_length = c.fixed_length + 1;
      exception_type = type_of_code c.exception_type;
      encoded_size = c.encoded_size * 8;
    })

-- `none` is the result false, or a buffer shorter than the struct.
unfoldable pub read : List ℕ → Option Header
unfolding read_compact
read buffer =
    if leb 8 (length buffer)
    then read_compact (compact_of (from_le (take 4 buffer)) (from_le (take 4 (drop 4 buffer))))
    else none

-- The bytes that are stored; `none` is the failed assertion on the size. Storing a number into a
-- bit field keeps its low bits.
unfoldable pub write : Header → Option (List ℕ)
write h =
    if h.encoded_size % 8 == 0
    then some (
        compact_bytes (record {
          frame_of_reference = u32 h.frame_of_reference;
          first_exception = h.first_exception % 2 ^ 8;
          significant_data_size = h.significant_data_size % 2 ^ 8;
          fixed_length = (h.fixed_length + 2 ^ 32 - 1) % 2 ^ 5;
          exception_type = type_code h.exception_type % 2 ^ 3;
          encoded_size = h.encoded_size / 8 % 2 ^ 8;
        }))
    else none
