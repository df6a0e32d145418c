-- ===== src/Serialization/Sizes.antt =====
-- The size functions state the length of the format.
use alacrity_adios.Prelude.{ℕ, ◌+◌, ◌*◌, ◌<◌, ◌≡◌, refl, arith, ap, ◌∙◌}
use alacrity_adios.Prelude.{List, ◌++◌, length, length-append, some}
use alacrity_adios.Prelude.{if◌then◌else◌}
use alacrity_adios.Memory.{le_bytes, array_bytes, length-le_bytes, length-array_bytes}
use alacrity_adios.Types.{
  IndexForm, BinLayout, IndexMetadata, Metadata, PartitionData, form_code, form_of,
}
use alacrity_adios.Serialization.{
  size_for_form, is_compressed_form, offset_count, get_bin_layout_size,
}
use alacrity_adios.Serialization.{get_index_metadata_size, get_metadata_size}
use alacrity_adios.Serialization.{get_data_size, get_partition_data_size}
use alacrity_adios.Serialization.Format.{bin_layout_format, index_metadata_format}
use alacrity_adios.Serialization.Format.{metadata_format, partition_format, IsLayout}
use alacrity_adios.Serialization.Format.{IsMetadata, IsPartition}
use alacrity_adios.Serialization.Writing.{offset_count_exact}

pub length-bin_layout_format :
    (bl : BinLayout) → IsLayout bl → length (bin_layout_format bl) ≡ get_bin_layout_size bl
unfolding bin_layout_format get_bin_layout_size
length-bin_layout_format bl w = omega (
  arith,
  length-append (le_bytes 4 bl.num_bins)
      (array_bytes 4 bl.bin_values ++ array_bytes 4 bl.bin_start_offsets),
  length-append (array_bytes 4 bl.bin_values) (array_bytes 4 bl.bin_start_offsets),
  length-le_bytes 4 bl.num_bins,
  length-array_bytes 4 bl.bin_values,
  length-array_bytes 4 bl.bin_start_offsets,
  offset_count_exact w,
)

-- The two switches over the index form agree.
size_by_form :
    (f : IndexForm) (n : ℕ)
    → form_of (form_code f) ≡ f
    → form_code f < 7
    → size_for_form f (n * 8) ≡ some (4 + (if is_compressed_form f then n else 0) * 8)
unfolding size_for_form is_compressed_form form_code form_of
size_by_form IndexForm.compression_index n e h = refl
size_by_form IndexForm.inverted_index n e h = refl
size_by_form (IndexForm.unknown_form k) n e h = absurd (ground arith)
size_by_form _ n e h = refl

length-index_metadata_format :
    (im : IndexMetadata)
    → length (index_metadata_format im) ≡ 4 + 8 * length im.index_bin_start_offsets
unfolding index_metadata_format
length-index_metadata_format im = omega (
  arith,
  length-append (le_bytes 4 (form_code im.index_form)) (array_bytes 8 im.index_bin_start_offsets),
  length-le_bytes 4 (form_code im.index_form),
  length-array_bytes 8 im.index_bin_start_offsets,
)

index_size_exact :
    (m : Metadata)
    → IsMetadata m
    → get_index_metadata_size m.index_meta m ≡ some (length (index_metadata_format m.index_meta))
unfolding get_index_metadata_size
index_size_exact m w =
    size_by_form m.index_meta.index_form (offset_count m.bin_layout) w.index.form_named
      w.index.form_fits
    ∙ ap some (
        rw (offset_count_exact w.layout, ← w.index.starts_length)
          (omega (arith, length-index_metadata_format m.index_meta)))

length-le_bytes-append : (w n : ℕ) (rest : List ℕ) → length (le_bytes w n ++ rest) ≡ w + length rest
length-le_bytes-append w n rest = rw (length-append, length-le_bytes)

-- The fields of fixed size come first.
length-metadata_format :
    (m : Metadata)
    → length (metadata_format m)
      ≡ 8
        + (4
            + (1
                + (1
                    + (1
                        + (4
                            + (length (bin_layout_format m.bin_layout)
                                + length (index_metadata_format m.index_meta)))))))
unfolding metadata_format
length-metadata_format m = simp (length-le_bytes-append, length-append)

pub get_metadata_size-length :
    (m : Metadata) → IsMetadata m → get_metadata_size m ≡ some (length (metadata_format m))
unfolding get_metadata_size
get_metadata_size-length m w = rw (index_size_exact m w) (
    ap some
      (omega (arith, length-metadata_format m, length-bin_layout_format m.bin_layout w.layout)))

pub data_size_exact :
    (p : PartitionData) → IsPartition p → get_data_size p.metadata ≡ length p.data_buffer
unfolding get_data_size
data_size_exact p w = omega (arith, w.data_length, w.data_small)

-- ALGetPartitionDataSize is the number of bytes that a well-formed partition serialises to.
pub get_partition_data_size-length :
    (p : PartitionData)
    → IsPartition p
    → get_partition_data_size p ≡ some (length (partition_format p))
unfolding get_partition_data_size partition_format
get_partition_data_size-length p w = rw (get_metadata_size-length p.metadata w.metadata) (
    ap some (
      omega (
        arith,
        length-append (metadata_format p.metadata) (p.data_buffer ++ p.index_buffer),
        length-append p.data_buffer p.index_buffer,
        data_size_exact p w,
        w.index_length,
      )))
