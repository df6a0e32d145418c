-- ===== src/Types.antt =====
-- src/include/alacrity-types.h: the structs and enums of a partition, and the two helpers of
-- src/ALUtil.c on them. Pointers to arrays are lists; `index_bin_start_offsets`, the one member of
-- the union that holds anything, is the empty list for the index forms that do not use it. The
-- fields of type `char` hold small positive numbers.
use alacrity_adios.Prelude.{ℕ, ◌+◌, ◌*◌, ◌/◌, ◌-◌, ◌^◌, Bool, u8}
use alacrity_adios.Prelude.{List, if◌then◌else◌, ◌==◌}

pub data AlError : Type 0 where
  error_none error_something error_end_of_store : AlError

-- `unknown_form n` is any other value that the storage of the enum can hold.
pub data IndexForm : Type 0 where
  compression_index inverted_index compressed_inverted_index : IndexForm
  compressed_hybrid_inverted_index compressed_skip_inverted_index : IndexForm
  compressed_mix_inverted_index compressed_expansion_ii : IndexForm
  unknown_form : ℕ → IndexForm

pub data Datatype : Type 0 where
  min_datatype_enum datatype_undefined datatype_float64 datatype_float32 : Datatype
  max_datatype_enum : Datatype
  unknown_datatype : ℕ → Datatype

-- The values of the enumerators, as the 32 bits that are stored.
unfoldable pub form_code : IndexForm → ℕ
form_code compression_index = 0
form_code inverted_index = 1
form_code compressed_inverted_index = 2
form_code compressed_hybrid_inverted_index = 3
form_code compressed_skip_inverted_index = 4
form_code compressed_mix_inverted_index = 5
form_code compressed_expansion_ii = 6
form_code (unknown_form n) = n

unfoldable pub form_of : ℕ → IndexForm
form_of n =
    if n == 0
    then compression_index
    else if n == 1
    then inverted_index
    else if n == 2
    then compressed_inverted_index
    else if n == 3
    then compressed_hybrid_inverted_index
    else if n == 4
    then compressed_skip_inverted_index
    else if n == 5
    then compressed_mix_inverted_index
    else if n == 6
    then compressed_expansion_ii
    else unknown_form n

unfoldable pub datatype_code : Datatype → ℕ
datatype_code min_datatype_enum = 0xffff_ffff
datatype_code datatype_undefined = 0
datatype_code datatype_float64 = 1
datatype_code datatype_float32 = 2
datatype_code max_datatype_enum = 3
datatype_code (unknown_datatype n) = n

unfoldable pub datatype_of : ℕ → Datatype
datatype_of n =
    if n == 0
    then datatype_undefined
    else if n == 1
    then datatype_float64
    else if n == 2
    then datatype_float32
    else if n == 3
    then max_datatype_enum
    else if n == 0xffff_ffff
    then min_datatype_enum
    else unknown_datatype n

pub record BinLayout : Type 0 where
  pub num_bins : ℕ
  pub bin_values : List ℕ
  pub bin_start_offsets : List ℕ

pub record IndexMetadata : Type 0 where
  pub index_form : IndexForm
  pub index_bin_start_offsets : List ℕ

pub record Metadata : Type 0 where
  pub global_offset : ℕ
  pub partition_length : ℕ
  pub bin_layout : BinLayout
  pub significant_bits : ℕ
  pub element_size : ℕ
  pub datatype : Datatype
  pub endianness : ℕ
  pub index_meta : IndexMetadata

-- `data` and `index` are byte buffers.
pub record PartitionData : Type 0 where
  pub metadata : Metadata
  pub data_buffer : List ℕ
  pub index_buffer : List ℕ
  pub owns_buffers : Bool

-- `alacrity_util_sigBytesCeil` and `alacrity_util_insigBytesCeil`, for bit counts that the size of
-- an element allows.
unfoldable pub sig_bytes_ceil : ℕ → ℕ
sig_bytes_ceil significant_bits = u8 ((significant_bits + 0x07) / 2 ^ 3)

unfoldable pub insig_bytes_ceil : ℕ → ℕ → ℕ
insig_bytes_ceil element_size significant_bits =
    u8 ((element_size * 2 ^ 3 - significant_bits + 0x07) / 2 ^ 3)
