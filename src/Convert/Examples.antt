-- ===== src/Convert/Examples.antt =====
-- The theorems on conversion and translation at a partition of two bins.
use alacrity_adios.Prelude.{
  ℕ, ◌+◌, zero, suc, true, false, get_elem?, ◌≡◌, refl, arith, List, [], ◌∷◌, length,
}
use alacrity_adios.Prelude.{Option, none, some}
use mathlib.Core.Option.{some-injective, none-ne-some}
use alacrity_adios.Memory.{array_bytes}
use alacrity_adios.Types.{AlError, IndexForm, Metadata, Datatype, PartitionData}
use alacrity_adios.RidCompress.Batch.Differences.{IsAscending, IsAbove}
use alacrity_adios.Convert.{
  Converted, convert_index_form, convert_cii_to_ii, convert_from, is_inverted,
}
use alacrity_adios.Decode.{decode, decode_form, decode_with_inverted_index, decode_bins}
use alacrity_adios.Decode.{decode_elements, rejoin_at, get_buffer_element}
use alacrity_adios.Types.{insig_bytes_ceil}
use alacrity_adios.Datum.{is_datum_size, rejoin_datum_bits}
use alacrity_adios.Memory.{le_bytes, from_le}
use alacrity_adios.Prelude.{replicate}
use alacrity_adios.Decode.Compressed.{IsOrderedLayout, decode-convert_cii_to_ii}
use alacrity_adios.RidCompress.Interface.{decode_rids}
use alacrity_adios.Convert.Bins.{starts, all_ids}
use alacrity_adios.Convert.RoundTrip.{
  IsBinned, inverted_meta, compressed_meta, parts, and_back, convert_index_form-convert_index_form,
}
use alacrity_adios.Convert.Commuting.{translate_rids-convert_index_form}
use alacrity_adios.Convert.Translate.{translate_rids}

abbrev two_bins : List (List ℕ)
two_bins = (0 ∷ 2 ∷ 4 ∷ []) ∷ (1 ∷ 3 ∷ []) ∷ []

abbrev two_meta : Metadata
two_meta = record {
  global_offset = 0;
  partition_length = 5;
  bin_layout = record { num_bins = 2; bin_values = 7 ∷ 9 ∷ []; bin_start_offsets = 0 ∷ 3 ∷ 5 ∷ [] };
  significant_bits = 8;
  element_size = 4;
  datatype = Datatype.datatype_float32;
  endianness = 0;
  index_meta = inverted_meta;
}

two_meta-IsBinned : IsBinned two_meta two_bins
unfolding starts all_ids IsAscending IsAbove
two_meta-IsBinned = record {
  how_many = refl;
  where_they_start = refl;
  count_fits = omega arith;
  bins = (
    record { not_empty = omega arith; not_large = omega arith; ascending = ground arith },
    (record { not_empty = omega arith; not_large = omega arith; ascending = ground arith }, tt),
  );
  inverted = refl;
}

abbrev no_other : List ℕ → Option (List ℕ)
no_other ids = none

convert_index_form-convert_index_form_example :
    (c : Converted) × (convert_index_form no_other no_other no_other two_meta
        (array_bytes 4 (all_ids two_bins))
        IndexForm.compressed_inverted_index
      ≡ some c)
    × (c.error ≡ AlError.error_none)
    × (convert_index_form no_other no_other no_other c.metadata c.index IndexForm.inverted_index
        ≡ some (record {
          error = AlError.error_none;
          metadata = two_meta;
          index = array_bytes 4 (all_ids two_bins);
        }))
convert_index_form-convert_index_form_example =
    convert_index_form-convert_index_form no_other no_other no_other two_meta two_bins
      two_meta-IsBinned

two_length : two_meta.partition_length ≡ length (all_ids two_bins)
unfolding all_ids
two_length = refl

translate_rids-convert_index_form_example :
    (translated : List ℕ) × (c : Converted) × (d : Converted) × (translate_rids two_meta
        (array_bytes 4 (all_ids two_bins))
        1000
      ≡ some (AlError.error_none, translated))
    × (convert_index_form no_other no_other no_other two_meta translated
          IndexForm.compressed_inverted_index
        ≡ some c)
    × (convert_index_form no_other no_other no_other two_meta
          (array_bytes 4 (all_ids two_bins))
          IndexForm.compressed_inverted_index
        ≡ some d)
    × (d.metadata ≡ c.metadata)
    × (translate_rids d.metadata d.index 1000 ≡ some (AlError.error_none, c.index))
translate_rids-convert_index_form_example =
    translate_rids-convert_index_form no_other no_other no_other two_meta two_bins 1000
      two_meta-IsBinned two_length

abbrev two_data : PartitionData
two_data = record {
  metadata = compressed_meta no_other no_other no_other two_meta two_bins two_meta-IsBinned;
  data_buffer = 1 ∷ 2 ∷ 3 ∷ 4 ∷ 5 ∷ 6 ∷ 7 ∷ 8 ∷ 9 ∷ 10 ∷ 11 ∷ 12 ∷ 13 ∷ 14 ∷ 15 ∷ [];
  index_buffer = (parts no_other no_other no_other two_meta two_bins two_meta-IsBinned).bytes;
  owns_buffers = false;
}

two_data_converts :
    convert_cii_to_ii 0 2 true two_data.metadata two_data.index_buffer
    ≡ some (record {
      error = AlError.error_none;
      metadata = two_meta;
      index = array_bytes 4 (all_ids two_bins);
    })
unfolding convert_index_form convert_from is_inverted
two_data_converts = and_back no_other no_other no_other two_meta two_bins two_meta-IsBinned

two_layout-IsOrderedLayout : IsOrderedLayout two_meta.bin_layout
unfolding IsOrderedLayout
two_layout-IsOrderedLayout zero s t at_s at_t =
    omega (arith, some-injective _ _ at_s, some-injective _ _ at_t)
two_layout-IsOrderedLayout (suc zero) s t at_s at_t =
    omega (arith, some-injective _ _ at_s, some-injective _ _ at_t)
two_layout-IsOrderedLayout (suc (suc bin)) s t at_s at_t =
    let next : suc (suc bin) + 1 ≡ suc (suc (suc bin)) = omega arith in
    let at_next : get_elem? two_meta.bin_layout.bin_start_offsets (suc (suc (suc bin))) ≡ some t =
      rw next at at_t in
    absurd (none-ne-some t at_next)

decode-convert_cii_to_ii_example :
    decode decode_rids two_data (replicate 5 0) 0
    ≡ decode decode_rids
        (record two_data { metadata = two_meta; index_buffer = array_bytes 4 (all_ids two_bins) })
        (replicate 5 0)
        0
decode-convert_cii_to_ii_example =
    decode-convert_cii_to_ii two_data
      (record {
        error = AlError.error_none;
        metadata = two_meta;
        index = array_bytes 4 (all_ids two_bins);
      })
      (replicate 5 0) 0 refl refl (λ end at_end. omega (arith, some-injective _ _ at_end))
      two_layout-IsOrderedLayout two_data_converts

-- What both sides come to.
two_data_decoded :
    decode decode_rids
      (record two_data { metadata = two_meta; index_buffer = array_bytes 4 (all_ids two_bins) })
      (replicate 5 0)
      0
    ≡ some (record {
      error = AlError.error_none;
      output = 0x0703_0201 ∷ 0x090c_0b0a ∷ 0x0706_0504 ∷ 0x090f_0e0d ∷ 0x0709_0807 ∷ [];
      output_count = 5;
    })
unfolding decode decode_form decode_with_inverted_index decode_bins decode_elements rejoin_at
    get_buffer_element insig_bytes_ceil is_datum_size rejoin_datum_bits all_ids array_bytes le_bytes
    from_le
two_data_decoded = refl
