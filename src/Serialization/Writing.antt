-- ===== src/Serialization/Writing.antt =====
-- The serialisers write the format, and the size functions state its length.
use alacrity_adios.Prelude.{ℕ, ◌+◌, ◌≡◌, Bool, true, false, arith, sym, ◌∙◌}
use alacrity_adios.Prelude.{List, [], ◌∷◌, ◌++◌, length}
use alacrity_adios.Prelude.{if◌then◌else◌}
use alacrity_adios.Memory.{array_bytes}
use alacrity_adios.Memstream.{Writer, append_array}
use alacrity_adios.Memstream.Sequence.{◌>>◌, nothing, Writes, Writes->>, append_int-Writes}
use alacrity_adios.Memstream.Sequence.{append_array-Writes, append-Writes, Writes->>-nothing}
use alacrity_adios.Types.{BinLayout, IndexMetadata, Metadata, PartitionData, form_code}
use alacrity_adios.Types.{datatype_code}
use alacrity_adios.Serialization.{is_compressed_form, offset_count}
use alacrity_adios.Serialization.{serialize_bin_layout}
use alacrity_adios.Serialization.{serialize_index_metadata, serialize_metadata, serialize_data}
use alacrity_adios.Serialization.{serialize_index, serialize_partition_data}
use alacrity_adios.Serialization.Format.{bin_layout_format, index_metadata_format}
use alacrity_adios.Serialization.Format.{metadata_format, partition_format, IsLayout}
use alacrity_adios.Serialization.Format.{IsIndexMetadata, IsMetadata, IsPartition}

pub offset_count_exact : {bl : BinLayout} → IsLayout bl → offset_count bl ≡ bl.num_bins + 1
unfolding offset_count
offset_count_exact w = omega arith

pub bin_layout-Writes :
    (bl : BinLayout) → IsLayout bl → Writes (serialize_bin_layout bl) (bin_layout_format bl)
unfolding serialize_bin_layout bin_layout_format
bin_layout-Writes bl w = Writes->> _ _ _ _ (append_int-Writes 4 bl.num_bins) (
    Writes->> _ _ _ _ (append_array-Writes bl.bin_values 4 bl.num_bins w.values_length) (
      append_array-Writes bl.bin_start_offsets 4 (offset_count bl)
        (w.offsets_length ∙ sym (offset_count_exact w))))

starts-Writes :
    (b : Bool) (f : Writer) (fs xs : List ℕ) (n : ℕ)
    → length xs ≡ (if b then n else 0)
    → Writes f fs
    → Writes (f >> (if b then append_array xs 8 n else nothing)) (fs ++ array_bytes 8 xs)
starts-Writes true f fs xs n e h = Writes->> f _ fs _ h (append_array-Writes xs 8 n e)
starts-Writes false f fs [] n e h = unfold array_bytes in Writes->>-nothing f fs h
starts-Writes false f fs (x ∷ xs) n e h = absurd (omega arith)

pub index_metadata-Writes :
    (im : IndexMetadata) (bl : BinLayout)
    → IsLayout bl
    → IsIndexMetadata bl im
    → Writes (serialize_index_metadata im bl) (index_metadata_format im)
unfolding serialize_index_metadata index_metadata_format
index_metadata-Writes im bl w v =
    starts-Writes (is_compressed_form im.index_form) _ _ im.index_bin_start_offsets
      (offset_count bl) (rw (offset_count_exact w) v.starts_length)
      (append_int-Writes 4 (form_code im.index_form))

pub metadata-Writes :
    (m : Metadata) → IsMetadata m → Writes (serialize_metadata m) (metadata_format m)
unfolding serialize_metadata metadata_format
metadata-Writes m w = Writes->> _ _ _ _ (append_int-Writes 8 m.global_offset) (
    Writes->> _ _ _ _ (append_int-Writes 4 m.partition_length) (
      Writes->> _ _ _ _ (append_int-Writes 1 m.significant_bits) (
        Writes->> _ _ _ _ (append_int-Writes 1 m.element_size) (
          Writes->> _ _ _ _ (append_int-Writes 1 m.endianness) (
            Writes->> _ _ _ _ (append_int-Writes 4 (datatype_code m.datatype)) (
              Writes->> _ _ _ _ (bin_layout-Writes m.bin_layout w.layout)
                (index_metadata-Writes m.index_meta m.bin_layout w.layout w.index)))))))

pub serialize_partition_data-Writes :
    (p : PartitionData) → IsPartition p → Writes (serialize_partition_data p) (partition_format p)
unfolding serialize_partition_data partition_format serialize_data serialize_index
serialize_partition_data-Writes p w = Writes->> _ _ _ _ (metadata-Writes p.metadata w.metadata) (
    Writes->> _ _ _ _ (append-Writes p.data_buffer _ (omega (arith, w.data_length)))
      (append-Writes p.index_buffer _ w.index_length))
