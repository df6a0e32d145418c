-- ===== src/Serialization.antt =====
-- src/ALSerialization.c: the sizes of the parts of a partition in their serialised form, and the
-- functions that write them to a memstream and read them back. Every ALSerialize* and
-- ALDeserialize* function returns ALErrorNone, which is left out. `none` is an access outside a
-- buffer, or the `abort()` of ALGetIndexMetadataSize.
pub mod Format
pub mod Writing
pub mod Sizes
pub mod Reading
pub mod RoundTrip
mod Examples
use alacrity_adios.Prelude.{ℕ, ◌+◌, ◌*◌, Option, none, some, Bool, true, false, List, [], u32}
use alacrity_adios.Prelude.{if◌then◌else◌, get_or}
use alacrity_adios.Prelude
use alacrity_adios.Types.{IndexForm, Datatype, BinLayout, IndexMetadata, Metadata, PartitionData}
use alacrity_adios.Types.{form_code, form_of, datatype_code, datatype_of}
use alacrity_adios.Types.{sig_bytes_ceil, insig_bytes_ceil}
use alacrity_adios.Memstream.{Writer, Reader, append, append_int, append_array}
use alacrity_adios.Memstream.{read, read_int, read_array}
use alacrity_adios.Memstream.Sequence.{◌>>◌, ◌>>=◌, nothing, return}

-- The case labels that the switches over the index form have in common.
unfoldable pub is_compressed_form : IndexForm → Bool
is_compressed_form IndexForm.compressed_inverted_index = true
is_compressed_form IndexForm.compressed_hybrid_inverted_index = true
is_compressed_form IndexForm.compressed_skip_inverted_index = true
is_compressed_form IndexForm.compressed_mix_inverted_index = true
is_compressed_form IndexForm.compressed_expansion_ii = true
is_compressed_form _ = false

-- `numBins + 1` is computed in 32 bits.
unfoldable pub offset_count : BinLayout → ℕ
offset_count bl = u32 (bl.num_bins + 1)

unfoldable pub get_bin_layout_size : BinLayout → ℕ
get_bin_layout_size bl = 4 + bl.num_bins * 4 + offset_count bl * 4

-- The switch of ALGetIndexMetadataSize; `starts` is the size of `indexBinStartOffsets`.
unfoldable pub size_for_form : IndexForm → ℕ → Option ℕ
size_for_form IndexForm.compression_index starts = some 4
size_for_form IndexForm.inverted_index starts = some 4
size_for_form (IndexForm.unknown_form n) starts = none
size_for_form _ starts = some (4 + starts)

unfoldable pub get_index_metadata_size : IndexMetadata → Metadata → Option ℕ
get_index_metadata_size im m = size_for_form im.index_form (offset_count m.bin_layout * 8)

unfoldable pub get_metadata_size : Metadata → Option ℕ
get_metadata_size m = Prelude.◌>>=◌ (get_index_metadata_size m.index_meta m) λ index_meta_size.
    some (8 + 4 + get_bin_layout_size m.bin_layout + index_meta_size + 1 + 1 + 4 + 1)

-- The products with `sigbytes` and `insigbytes` are computed in 32 bits, the one with
-- `sizeof(rid_t)` in 64. The last offset is read behind the bins.
unfoldable pub get_index_size : Metadata → ℕ
get_index_size m = elim m.index_meta.index_form [
  | IndexForm.inverted_index ↦ m.partition_length * 4
  | IndexForm.compression_index ↦ u32 (m.partition_length * sig_bytes_ceil m.significant_bits)
  | IndexForm.unknown_form n ↦ 0
  | _ ↦ get_or m.index_meta.index_bin_start_offsets m.bin_layout.num_bins 0
]

unfoldable pub get_data_size : Metadata → ℕ
get_data_size m = u32 (m.partition_length * insig_bytes_ceil m.element_size m.significant_bits)

unfoldable pub get_partition_data_size : PartitionData → Option ℕ
get_partition_data_size p =
    Prelude.◌>>=◌ (get_metadata_size p.metadata)
      λ metadata_size. some (metadata_size + get_index_size p.metadata + get_data_size p.metadata)

unfoldable pub serialize_bin_layout : BinLayout → Writer
serialize_bin_layout bl = do
  append_int 4 bl.num_bins
  append_array bl.bin_values 4 bl.num_bins
  append_array bl.bin_start_offsets 4 (offset_count bl)

unfoldable pub deserialize_bin_layout : Reader BinLayout
deserialize_bin_layout = do
  num_bins ← read_int 4
  bin_values ← read_array 4 num_bins
  bin_start_offsets ← read_array 4 (u32 (num_bins + 1))
  return (record {
    num_bins = num_bins;
    bin_values = bin_values;
    bin_start_offsets = bin_start_offsets;
  })

unfoldable pub serialize_index_metadata : IndexMetadata → BinLayout → Writer
serialize_index_metadata im bl = do
  append_int 4 (form_code im.index_form)
  if is_compressed_form im.index_form
      then append_array im.index_bin_start_offsets 8 (offset_count bl)
      else nothing

unfoldable pub deserialize_index_metadata : BinLayout → Reader IndexMetadata
deserialize_index_metadata bl = do
  code ← read_int 4
  offsets ← if is_compressed_form (form_of code) then read_array 8 (offset_count bl) else return []
  return (record { index_form = form_of code; index_bin_start_offsets = offsets })

unfoldable pub serialize_metadata : Metadata → Writer
serialize_metadata m = do
  append_int 8 m.global_offset
  append_int 4 m.partition_length
  append_int 1 m.significant_bits
  append_int 1 m.element_size
  append_int 1 m.endianness
  append_int 4 (datatype_code m.datatype)
  serialize_bin_layout m.bin_layout
  serialize_index_metadata m.index_meta m.bin_layout

unfoldable pub deserialize_metadata : Reader Metadata
deserialize_metadata = do
  global_offset ← read_int 8
  partition_length ← read_int 4
  significant_bits ← read_int 1
  element_size ← read_int 1
  endianness ← read_int 1
  code ← read_int 4
  bin_layout ← deserialize_bin_layout
  index_meta ← deserialize_index_metadata bin_layout
  return (record {
    global_offset = global_offset;
    partition_length = partition_length;
    bin_layout = bin_layout;
    significant_bits = significant_bits;
    element_size = element_size;
    datatype = datatype_of code;
    endianness = endianness;
    index_meta = index_meta;
  })

-- Writing multiplies in 64 bits, where `get_data_size` multiplies in 32.
unfoldable pub serialize_data : List ℕ → Metadata → Writer
serialize_data buffer m =
    append buffer (insig_bytes_ceil m.element_size m.significant_bits * m.partition_length)

unfoldable pub deserialize_data : Metadata → Reader (List ℕ)
deserialize_data m = read (get_data_size m)

unfoldable pub serialize_index : List ℕ → Metadata → Writer
serialize_index buffer m = append buffer (get_index_size m)

unfoldable pub deserialize_index : Metadata → Reader (List ℕ)
deserialize_index m = read (get_index_size m)

unfoldable pub serialize_partition_data : PartitionData → Writer
serialize_partition_data p = do
  serialize_metadata p.metadata
  serialize_data p.data_buffer p.metadata
  serialize_index p.index_buffer p.metadata

unfoldable pub deserialize_partition_data : Reader PartitionData
deserialize_partition_data = do
  metadata ← deserialize_metadata
  buffer ← deserialize_data metadata
  index ← deserialize_index metadata
  return (record {
    metadata = metadata;
    data_buffer = buffer;
    index_buffer = index;
    owns_buffers = true;
  })
