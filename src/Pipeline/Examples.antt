-- ===== src/Pipeline/Examples.antt =====
-- Three floats of which the two highest bits select the bin, encoded, written, read back and
-- decoded; and the theorems on the encoder and the decoder at them.
use alacrity_adios.Prelude.{
  ℕ, ◌+◌, ◌^◌, ◌<◌, ◌≡◌, refl, arith, List, [], ◌∷◌, length, All, replicate,
}
use alacrity_adios.Prelude.{Option, some, none}
use alacrity_adios.Types.{AlError, IndexForm, Datatype, PartitionData, insig_bytes_ceil}
use alacrity_adios.Config.{EncoderConfig, encoder_configure}
use alacrity_adios.Datum.{is_datum_size}
use alacrity_adios.Encode.{build_bin_layout, build_inverted_index_from_layout}
use alacrity_adios.Encode.Inverting.{build_inverted_index_from_layout-build_bin_layout}
use alacrity_adios.Encode.{encode}
use alacrity_adios.Encode.Binning.{IsInput}
use alacrity_adios.Encode.Inverting.{inverted_partition}
use alacrity_adios.Prelude.{if◌then◌else◌, ◌==◌}
use alacrity_adios.Config.Configured.{Configured, encoder_configure-Configured}
use alacrity_adios.Datum.{high_part, low_part, stored, rejoin_datum_bits}
use alacrity_adios.Datum.RoundTrip.{rejoin-split}
use alacrity_adios.Encode.{determine_bin_layout, bin_values_in_1c_order, Counts, count_data}
use alacrity_adios.Encode.{Scan, scan_values}
use alacrity_adios.Encode.Tables.{Distinct, Has, occurrences, total}
use alacrity_adios.Encode.Order.{bin_values_in_1c_order_lem, order-Distinct, length-order}
use alacrity_adios.Encode.Counting.{IsCount, count_data-IsCount, zero-IsCount}
use alacrity_adios.Encode.Scanning.{IsScanned, scan_values-IsScanned, position}
use alacrity_adios.Encode.Binning.{high_parts, bins, layout_of, high_parts_visited}
use alacrity_adios.Encode.Binning.{determine_bin_layout-layout_of}
use alacrity_adios.Encode.Inverting.{encode-inverted_partition}
use alacrity_adios.Prelude.{◌>>=◌}
use alacrity_adios.Memstream.Laws.{append_bytes-append_bytes}
use alacrity_adios.Memstream.{append_bytes, Memstream, init, reset, get_position}
use alacrity_adios.Serialization.{get_partition_data_size, serialize_partition_data}
use alacrity_adios.Serialization.{deserialize_partition_data, get_metadata_size, size_for_form}
use alacrity_adios.Serialization.{get_index_metadata_size, get_index_size, get_data_size}
use alacrity_adios.Serialization.{get_bin_layout_size, offset_count}
use alacrity_adios.Encode.{partition_of, init_metadata, count_down, count_up}
use alacrity_adios.Encode.Tables.{present}
use alacrity_adios.Pipeline.Archive.{decode-deserialize}
use alacrity_adios.Decode.{decode}
use alacrity_adios.Decode.RoundTrip.{decode-encode}

abbrev floats : List ℕ
floats = 0x41000001 ∷ 0xc0000002 ∷ 0x42000003 ∷ []

abbrev floats_config : EncoderConfig
floats_config = record {
  significant_bits = 2;
  element_size = 4;
  datatype = Datatype.datatype_float32;
  index_form = IndexForm.inverted_index;
}

abbrev no_codec : List ℕ → Option (List ℕ)
no_codec bytes = none

floats-IsInput : IsInput floats_config floats
unfolding is_datum_size
floats-IsInput = record {
  size_known = refl;
  some_bits = omega arith;
  few_bits = omega arith;
  bits_there = omega arith;
  elements_fit = (omega arith, (omega arith, (omega arith, tt)));
  count_fits = omega arith;
}

decode-encode_example :
    (p : PartitionData) × (encode floats_config floats
        (record { lows = replicate 3 9; rids = replicate 3 9 })
      ≡ some (AlError.error_none, p))
    × (decode no_codec p (replicate 3 7) 0
        ≡ some (record { error = AlError.error_none; output = floats; output_count = 3 }))
decode-encode_example =
    decode-encode no_codec floats_config floats (replicate 3 9) (replicate 3 9) (replicate 3 7) 0
      floats-IsInput refl (omega arith) refl refl refl

encode-inverted_partition_example :
    encode floats_config floats (record { lows = replicate 3 9; rids = replicate 3 9 })
    ≡ some (AlError.error_none, inverted_partition floats_config floats)
encode-inverted_partition_example =
    encode-inverted_partition floats_config floats (replicate 3 9) (replicate 3 9) floats-IsInput
      refl refl refl

determine_bin_layout-layout_of_example :
    ((determine_bin_layout floats_config floats).layout ≡ layout_of floats_config floats)
    × ((v : ℕ)
        → Has v (high_parts floats_config floats)
        → (determine_bin_layout floats_config floats).lookup_table v
          ≡ position v (bins floats_config floats))
determine_bin_layout-layout_of_example =
    determine_bin_layout-layout_of floats_config floats floats-IsInput

bin_values_in_1c_order_lem_example :
    Distinct (bin_values_in_1c_order 2)
    × ((h : ℕ) → h < 2 ^ 2 → Has h (bin_values_in_1c_order 2))
    × All (λ v. v < 2 ^ 2) (bin_values_in_1c_order 2)
    × (length (bin_values_in_1c_order 2) ≡ 2 ^ 2)
bin_values_in_1c_order_lem_example = bin_values_in_1c_order_lem 2 (omega arith) (omega arith)

abbrev no_counts : Counts
no_counts = record { table = λ _. 0; num_bins = 0 }

count_data-IsCount_example :
    IsCount (bin_values_in_1c_order 2) 3 (count_data 4 2 floats no_counts)
    × ((v : ℕ)
        → (count_data 4 2 floats no_counts).table v
          ≡ 0 + occurrences v (high_parts floats_config floats))
count_data-IsCount_example =
    count_data-IsCount (bin_values_in_1c_order 2) (order-Distinct 2 (omega arith) (omega arith))
      (omega (arith, length-order 2 (omega arith) (omega arith))) 4 2 floats no_counts 0 3 refl
      (omega arith) (high_parts_visited floats_config floats floats-IsInput)
      (zero-IsCount (bin_values_in_1c_order 2))

-- Two of the values 3, 2 and 1, the first with two elements and the last with one.
abbrev counted : Scan
counted = record {
  cur_bin_id = 0;
  cur_end_offset = 0;
  bin_values = [];
  bin_start_offsets = 0 ∷ [];
  table = λ v. if v == 3 then 2 else if v == 1 then 1 else 0;
}

scan_values-IsScanned_example :
    IsScanned (3 ∷ 2 ∷ 1 ∷ []) counted (scan_values (3 ∷ 2 ∷ 1 ∷ []) counted)
unfolding total
scan_values-IsScanned_example =
    scan_values-IsScanned (3 ∷ 2 ∷ 1 ∷ []) counted
      (
        ((λ e. absurd (omega arith)), ((λ e. absurd (omega arith)), tt)),
        (((λ e. absurd (omega arith)), tt), (tt, tt)),
      )
      (omega arith) (omega arith)

rejoin-split_example :
    rejoin_datum_bits 4 2
      (high_part 4 2 0xc0000002)
      (stored (insig_bytes_ceil 4 2) (low_part 2 0xc0000002))
    ≡ 0xc0000002
rejoin-split_example =
    rejoin-split 4 2 0xc0000002 floats-IsInput.size_known (omega arith) (omega arith) (omega arith)

floats_configured :
    encoder_configure 2 Datatype.datatype_float32 IndexForm.inverted_index ≡ some floats_config
unfolding encoder_configure
floats_configured = refl

encoder_configure-Configured_example :
    Configured 2 Datatype.datatype_float32 IndexForm.inverted_index floats_config
encoder_configure-Configured_example =
    encoder_configure-Configured 2 Datatype.datatype_float32 IndexForm.inverted_index floats_config
      floats_configured

floats_size : get_partition_data_size (inverted_partition floats_config floats) ≡ some 71
unfolding get_partition_data_size get_metadata_size size_for_form get_index_metadata_size
    get_index_size get_data_size get_bin_layout_size offset_count insig_bytes_ceil
    inverted_partition partition_of init_metadata layout_of bins present bin_values_in_1c_order
    count_down count_up occurrences high_part
floats_size = refl

decode-deserialize_example :
    (p : PartitionData) × (ms : Memstream) × (encode floats_config floats
        (record { lows = replicate 3 9; rids = replicate 3 9 })
      ≡ some (AlError.error_none, p))
    × (serialize_partition_data p (init (replicate 80 0)) ≡ some ms)
    × (get_position ms ≡ 71)
    × (deserialize_partition_data (reset ms) ≡ some (p, ms))
    × (decode no_codec p (replicate 3 7) 0
        ≡ some (record { error = AlError.error_none; output = floats; output_count = 3 }))
decode-deserialize_example =
    decode-deserialize no_codec 2 Datatype.datatype_float32 floats_config floats (replicate 3 9)
      (replicate 3 9) (replicate 3 7) (replicate 80 0) 0 71 floats_configured
      floats-IsInput.elements_fit (omega arith) (omega arith) refl refl refl (omega arith)
      floats_size

append_bytes-append_bytes_example :
    (append_bytes (1 ∷ 2 ∷ []) (init (replicate 3 0)) >>= λ ms. append_bytes (3 ∷ 4 ∷ []) ms)
    ≡ append_bytes (1 ∷ 2 ∷ 3 ∷ 4 ∷ []) (init (replicate 3 0))
append_bytes-append_bytes_example =
    append_bytes-append_bytes (init (replicate 3 0)) (1 ∷ 2 ∷ []) (3 ∷ 4 ∷ [])

build_inverted_index_from_layout-build_bin_layout_example :
    ((build_bin_layout floats_config floats).1.0
      ≡ init_metadata floats_config 3 (layout_of floats_config floats))
    × (build_inverted_index_from_layout floats_config floats
          (build_bin_layout floats_config floats).1.0
          (build_bin_layout floats_config floats).1.1
          (record { lows = replicate 3 9; rids = replicate 3 9 })
        ≡ (AlError.error_none, inverted_partition floats_config floats))
build_inverted_index_from_layout-build_bin_layout_example =
    build_inverted_index_from_layout-build_bin_layout floats_config floats (replicate 3 9)
      (replicate 3 9) floats-IsInput refl refl
