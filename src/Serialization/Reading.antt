-- ===== src/Serialization/Reading.antt =====
-- The deserialisers read the format back.
use alacrity_adios.Prelude.{ℕ, ◌^◌, ◌<◌, ◌≡◌, Bool, true, false, arith, sym, ◌∙◌}
use alacrity_adios.Prelude.{List, [], ◌∷◌, length, All, if◌then◌else◌}
use alacrity_adios.Memory.{array_bytes}
use alacrity_adios.Memstream.{Reader, read_array}
use alacrity_adios.Memstream.Sequence.{◌>>=◌, return, Reads, Reads->>=, return-Reads}
use alacrity_adios.Memstream.Sequence.{read_int-Reads, read_array-Reads, read-Reads}
use alacrity_adios.Types.{BinLayout, IndexMetadata, Metadata, PartitionData}
use alacrity_adios.Types.{form_code, datatype_code}
use alacrity_adios.Serialization.{is_compressed_form, offset_count}
use alacrity_adios.Serialization.{deserialize_bin_layout, deserialize_index_metadata}
use alacrity_adios.Serialization.{deserialize_metadata, deserialize_data, deserialize_index}
use alacrity_adios.Serialization.{deserialize_partition_data}
use alacrity_adios.Serialization.Format.{bin_layout_format, index_metadata_format}
use alacrity_adios.Serialization.Format.{metadata_format, partition_format, IsLayout}
use alacrity_adios.Serialization.Format.{IsIndexMetadata, IsMetadata, IsPartition}
use alacrity_adios.Serialization.Writing.{offset_count_exact}
use alacrity_adios.Serialization.Sizes.{data_size_exact}

-- A parser that ends in `return` reads what stands before it.
Reads-ending {ℓ κ} :
    {A : Type ℓ} {B : Type κ} (f : Reader A) (g : A → B) (bytes : List ℕ) (x : A)
    → Reads f bytes x
    → Reads (f >>= λ a. return (g a)) bytes (g x)
Reads-ending f g bytes x h ms rest at = rw (h ms rest at)

pub bin_layout-Reads :
    (bl : BinLayout) → IsLayout bl → Reads deserialize_bin_layout (bin_layout_format bl) bl
unfolding deserialize_bin_layout bin_layout_format offset_count
bin_layout-Reads bl w =
    Reads->>= _ _ _ _ bl.num_bins bl (read_int-Reads 4 bl.num_bins (omega arith)) (
      Reads->>= _ _ _ _ bl.bin_values bl
        (read_array-Reads 4 bl.num_bins bl.bin_values w.values_length w.values_fit)
        (Reads-ending _ _ _ bl.bin_start_offsets (
          read_array-Reads 4 _ bl.bin_start_offsets (w.offsets_length ∙ sym (offset_count_exact w))
            w.offsets_fit)))

starts-Reads :
    (b : Bool) (xs : List ℕ) (n : ℕ)
    → length xs ≡ (if b then n else 0)
    → All (λ v. v < 256 ^ 8) xs
    → Reads (if b then read_array 8 n else return []) (array_bytes 8 xs) xs
starts-Reads true xs n e h = read_array-Reads 8 n xs e h
starts-Reads false [] n e h = unfold array_bytes in return-Reads []
starts-Reads false (x ∷ xs) n e h = absurd (omega arith)

pub index_metadata-Reads :
    (im : IndexMetadata) (bl : BinLayout)
    → IsLayout bl
    → IsIndexMetadata bl im
    → Reads (deserialize_index_metadata bl) (index_metadata_format im) im
unfolding deserialize_index_metadata index_metadata_format
index_metadata-Reads im bl w v =
    Reads->>= _ _ _ _ (form_code im.index_form) im (read_int-Reads 4 _ (omega arith)) (
      rw v.form_named (
        Reads-ending _ _ _ im.index_bin_start_offsets (
          starts-Reads (is_compressed_form im.index_form) im.index_bin_start_offsets
            (offset_count bl) (rw (offset_count_exact w) v.starts_length) v.starts_fit)))

pub metadata-Reads :
    (m : Metadata) → IsMetadata m → Reads deserialize_metadata (metadata_format m) m
unfolding deserialize_metadata metadata_format
metadata-Reads m w = Reads->>= _ _ _ _ m.global_offset m (read_int-Reads 8 _ w.global_fits) (
    Reads->>= _ _ _ _ m.partition_length m (read_int-Reads 4 _ w.length_fits) (
      Reads->>= _ _ _ _ m.significant_bits m (read_int-Reads 1 _ (omega arith)) (
        Reads->>= _ _ _ _ m.element_size m (read_int-Reads 1 _ (omega arith)) (
          Reads->>= _ _ _ _ m.endianness m (read_int-Reads 1 _ (omega arith)) (
            Reads->>= _ _ _ _ (datatype_code m.datatype) m (read_int-Reads 4 _ w.datatype_fits) (
              Reads->>= _ _ _ _ m.bin_layout m (bin_layout-Reads m.bin_layout w.layout) (
                rw w.datatype_named (
                  Reads-ending _ _ _ m.index_meta
                    (index_metadata-Reads m.index_meta m.bin_layout w.layout w.index)))))))))

pub partition-Reads :
    (p : PartitionData) → IsPartition p → Reads deserialize_partition_data (partition_format p) p
unfolding deserialize_partition_data partition_format deserialize_data deserialize_index
partition-Reads p w = Reads->>= _ _ _ _ p.metadata p (metadata-Reads p.metadata w.metadata) (
    Reads->>= _ _ _ _ p.data_buffer p (read-Reads _ p.data_buffer (sym (data_size_exact p w))) (
      rw (← w.owned)
        (Reads-ending _ _ _ p.index_buffer (read-Reads _ p.index_buffer w.index_length))))
