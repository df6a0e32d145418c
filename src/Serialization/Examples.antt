-- ===== src/Serialization/Examples.antt =====
-- A partition of three doubles with 8 significant bits in two bins, under a compressed inverted
-- index, written and read back; and the theorems at it.
use alacrity_adios.Prelude.{◌≡◌, refl, arith, [], ◌∷◌, length, replicate}
use alacrity_adios.Prelude.{true, some, none}
use alacrity_adios.Memstream.{Memstream, init, reset, get_position, append_bytes}
use alacrity_adios.Types.{IndexForm, Datatype, PartitionData}
use alacrity_adios.Types.{form_code, form_of, datatype_code, datatype_of, insig_bytes_ceil}
use alacrity_adios.Serialization.{serialize_partition_data, deserialize_partition_data}
use alacrity_adios.Serialization.{get_partition_data_size, get_metadata_size, size_for_form}
use alacrity_adios.Serialization.{get_index_metadata_size, get_index_size, get_data_size}
use alacrity_adios.Serialization.{get_bin_layout_size, offset_count, is_compressed_form}
use alacrity_adios.Serialization.Format.{IsPartition, partition_format}
use alacrity_adios.Serialization.Sizes.{get_partition_data_size-length}
use alacrity_adios.Serialization.RoundTrip.{deserialize-serialize, serialize_overrun}
use alacrity_adios.Serialization.RoundTrip.{serialize_partition_data-append_bytes}

abbrev three_doubles : PartitionData
three_doubles = record {
  metadata = record {
    global_offset = 100;
    partition_length = 3;
    bin_layout = record {
      num_bins = 2;
      bin_values = 0x40 ∷ 0x41 ∷ [];
      bin_start_offsets = 0 ∷ 2 ∷ 3 ∷ [];
    };
    significant_bits = 8;
    element_size = 8;
    datatype = Datatype.datatype_float64;
    endianness = 0;
    index_meta = record {
      index_form = IndexForm.compressed_inverted_index;
      index_bin_start_offsets = 0 ∷ 5 ∷ 9 ∷ [];
    };
  };
  data_buffer = replicate 21 7;
  index_buffer = replicate 9 1;
  owns_buffers = true;
}

three_doubles-IsPartition : IsPartition three_doubles
unfolding form_code form_of datatype_code datatype_of is_compressed_form insig_bytes_ceil
    get_index_size
three_doubles-IsPartition = record {
  metadata = record {
    layout = omega arith;
    index = record {
      form_named = refl;
      form_fits = omega arith;
      starts_length = refl;
      starts_fit = omega arith;
    };
    global_fits = omega arith;
    length_fits = omega arith;
    bits_fit = omega arith;
    size_fits = omega arith;
    endianness_fits = omega arith;
    datatype_named = refl;
    datatype_fits = omega arith;
  };
  data_length = refl;
  data_small = omega arith;
  index_length = refl;
  owned = refl;
}

three_doubles_size : get_partition_data_size three_doubles ≡ some 101
unfolding get_partition_data_size get_metadata_size size_for_form get_index_metadata_size
    get_index_size get_data_size get_bin_layout_size offset_count insig_bytes_ceil
three_doubles_size = refl

deserialize-serialize_example :
    (ms : Memstream) × (serialize_partition_data three_doubles (init (replicate 101 0)) ≡ some ms)
    × (get_position ms ≡ 101)
    × (deserialize_partition_data (reset ms) ≡ some (three_doubles, ms))
deserialize-serialize_example =
    deserialize-serialize three_doubles 101 (replicate 101 0) three_doubles-IsPartition
      three_doubles_size (omega arith)

serialize_overrun_example : serialize_partition_data three_doubles (init (replicate 100 0)) ≡ none
serialize_overrun_example =
    serialize_overrun three_doubles 101 (replicate 100 0) three_doubles-IsPartition
      three_doubles_size (omega arith)

serialize_partition_data-append_bytes_example :
    serialize_partition_data three_doubles (init (replicate 101 0))
    ≡ append_bytes (partition_format three_doubles) (init (replicate 101 0))
serialize_partition_data-append_bytes_example =
    serialize_partition_data-append_bytes three_doubles (init (replicate 101 0))
      three_doubles-IsPartition

get_partition_data_size-length_example :
    get_partition_data_size three_doubles ≡ some (length (partition_format three_doubles))
get_partition_data_size-length_example =
    get_partition_data_size-length three_doubles three_doubles-IsPartition
