-- ===== src/Serialization/Format.antt =====
-- The byte format of a serialised partition, described apart from the code that writes it, and
-- what a well-formed partition is.
use alacrity_adios.Prelude.{ℕ, ◌+◌, ◌*◌, ◌-◌, ◌^◌, ◌<◌, ◌≡◌, true}
use alacrity_adios.Prelude.{List, ◌++◌, length, All, if◌then◌else◌}
use alacrity_adios.Memory.{le_bytes, array_bytes}
use alacrity_adios.Types.{BinLayout, IndexMetadata, Metadata, PartitionData}
use alacrity_adios.Types.{form_code, form_of, datatype_code, datatype_of, insig_bytes_ceil}
use alacrity_adios.Serialization.{is_compressed_form, get_index_size}

unfoldable pub bin_layout_format : BinLayout → List ℕ
bin_layout_format bl =
    le_bytes 4 bl.num_bins ++ (array_bytes 4 bl.bin_values ++ array_bytes 4 bl.bin_start_offsets)

unfoldable pub index_metadata_format : IndexMetadata → List ℕ
index_metadata_format im =
    le_bytes 4 (form_code im.index_form) ++ array_bytes 8 im.index_bin_start_offsets

unfoldable pub metadata_format : Metadata → List ℕ
metadata_format m =
    le_bytes 8 m.global_offset
    ++ (le_bytes 4 m.partition_length
        ++ (le_bytes 1 m.significant_bits
            ++ (le_bytes 1 m.element_size
                ++ (le_bytes 1 m.endianness
                    ++ (le_bytes 4 (datatype_code m.datatype)
                        ++ (bin_layout_format m.bin_layout
                            ++ index_metadata_format m.index_meta))))))

unfoldable pub partition_format : PartitionData → List ℕ
partition_format p = metadata_format p.metadata ++ (p.data_buffer ++ p.index_buffer)

-- The arrays of a bin layout have the lengths that `num_bins` states, and all numbers fit their
-- types. (`significantBits` is below 32, so there are at most 2^31 bins.)
pub record IsLayout (bl : BinLayout) : Type 0 where
  pub few_bins : bl.num_bins < 2 ^ 32 - 1
  pub values_length : length bl.bin_values ≡ bl.num_bins
  pub offsets_length : length bl.bin_start_offsets ≡ bl.num_bins + 1
  pub values_fit : All (λ v. v < 256 ^ 4) bl.bin_values
  pub offsets_fit : All (λ v. v < 256 ^ 4) bl.bin_start_offsets

-- The index form is one of the enumerators, and the offsets of the compressed bins are there
-- exactly for the forms that use them.
pub record IsIndexMetadata (bl : BinLayout) (im : IndexMetadata) : Type 0 where
  pub form_named : form_of (form_code im.index_form) ≡ im.index_form
  pub form_fits : form_code im.index_form < 7
  pub starts_length :
      length im.index_bin_start_offsets
      ≡ (if is_compressed_form im.index_form then bl.num_bins + 1 else 0)
  pub starts_fit : All (λ v. v < 256 ^ 8) im.index_bin_start_offsets

pub record IsMetadata (m : Metadata) : Type 0 where
  pub layout : IsLayout m.bin_layout
  pub index : IsIndexMetadata m.bin_layout m.index_meta
  pub global_fits : m.global_offset < 256 ^ 8
  pub length_fits : m.partition_length < 256 ^ 4
  pub bits_fit : m.significant_bits < 128
  pub size_fits : m.element_size < 128
  pub endianness_fits : m.endianness < 128
  pub datatype_named : datatype_of (datatype_code m.datatype) ≡ m.datatype
  pub datatype_fits : datatype_code m.datatype < 256 ^ 4

-- The buffers have the sizes that the metadata states. The data buffer is below 4 GB; the README
-- asks for partitions of at most 2 GB.
pub record IsPartition (p : PartitionData) : Type 0 where
  pub metadata : IsMetadata p.metadata
  pub data_length :
      length p.data_buffer
      ≡ p.metadata.partition_length
        * insig_bytes_ceil p.metadata.element_size p.metadata.significant_bits
  pub data_small : length p.data_buffer < 2 ^ 32
  pub index_length : length p.index_buffer ≡ get_index_size p.metadata
  pub owned : p.owns_buffers ≡ true
