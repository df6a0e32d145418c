-- ===== src/Encode.antt =====
-- src/ALEncode.c. The input is the list of its elements, each the unsigned integer that its bytes
-- stand for. The count table and the lookup table that reuses its memory are functions; that they
-- are read and written below their 2^significantBits entries only is a theorem. What `malloc`
-- returns for the buffers is passed in. An element size that the macros do not know and an
-- index form that no branch names leave variables unset, which is `none`, and so is a number of bits
-- with which a loop does not end.
pub mod Scatter
pub mod Order
pub mod Tables
pub mod Counting
pub mod Scanning
pub mod Binning
pub mod Fresh
pub mod Inverting
use alacrity_adios.Prelude.{ℕ, zero, suc, ◌+◌, ◌*◌, ◌-◌, ◌^◌, Bool, true, false, u32, ◌==◌}
use alacrity_adios.Prelude.{if◌then◌else◌, List, [], ◌∷◌, ◌++◌, length, get_or, set, take, map}
use alacrity_adios.Prelude.{Option, none, some, leb, ◌&&◌}
use alacrity_adios.Memory.{array_bytes}
use alacrity_adios.Types.{AlError, IndexForm, BinLayout, IndexMetadata, Metadata, PartitionData}
use alacrity_adios.Types.{sig_bytes_ceil, insig_bytes_ceil}
use alacrity_adios.Config.{EncoderConfig}
use alacrity_adios.Datum.{is_datum_size, high_part, low_part, stored}

-- `t[k] = v`
abbrev pub update : (ℕ → ℕ) → ℕ → ℕ → ℕ → ℕ
update t k v j = if j == k then v else t j

-- FOR_BIN_VALUE_IN_1C_ORDER: the negative bin values from `_minval` down to `_signbit`, then
-- the others from 0 to `_maxval`. Here the first loop takes `n` values ending at `base`. The constants
-- are high_order_bytes_t, which has 32 bits. From 33 bits on, `_signbit` is 0 and the first loop never
-- ends; `encode` asks `order_ends` for this, and the functions that build a layout alone are meant
-- for fewer bits.
unfoldable pub count_down : ℕ → ℕ → List ℕ
count_down zero base = []
count_down (suc n) base = (base + n) ∷ count_down n base

unfoldable pub count_up : ℕ → ℕ → List ℕ
count_up zero base = []
count_up (suc n) base = base ∷ count_up n (base + 1)

unfoldable pub bin_values_in_1c_order : ℕ → List ℕ
bin_values_in_1c_order bits =
    let signbit = u32 (2 ^ (bits - 1)) in count_down signbit signbit ++ count_up signbit 0

unfoldable pub order_ends : ℕ → Bool
order_ends bits = leb bits 32

pub record Counts : Type 0 where
  pub table : ℕ → ℕ
  pub num_bins : ℕ

-- The body of the first scan of determineBinLayout, and the scan.
unfoldable pub count_datum : ℕ → Counts → Counts
count_datum hi c =
    let table = update c.table hi (u32 (c.table hi + 1)) in
    record { table = table; num_bins = if table hi == 1 then u32 (c.num_bins + 1) else c.num_bins }

-- The switch of SPLIT_DATUM_BITS on the size of an element is asked for in `encode`.
unfoldable pub count_data : ℕ → ℕ → List ℕ → Counts → Counts
count_data elem_size sigbits [] c = c
count_data elem_size sigbits (x ∷ xs) c =
    count_data elem_size sigbits xs (count_datum (high_part elem_size sigbits x) c)

-- The second scan, over the possible bin values. `bin_values` and `bin_start_offsets` are what has
-- been written of the arrays.
pub record Scan : Type 0 where
  pub cur_bin_id : ℕ
  pub cur_end_offset : ℕ
  pub bin_values : List ℕ
  pub bin_start_offsets : List ℕ
  pub table : ℕ → ℕ

unfoldable pub scan_value : ℕ → Scan → Scan
scan_value v s =
    let end_offset = u32 (s.cur_end_offset + s.table v) in
    if s.table v == 0 then s else record {
      cur_bin_id = u32 (s.cur_bin_id + 1);
      cur_end_offset = end_offset;
      bin_values = s.bin_values ++ (v ∷ []);
      bin_start_offsets = s.bin_start_offsets ++ (end_offset ∷ []);
      table = update s.table v s.cur_bin_id;
    }

unfoldable pub scan_values : List ℕ → Scan → Scan
scan_values [] s = s
scan_values (v ∷ vs) s = scan_values vs (scan_value v s)

pub record Determined : Type 0 where
  pub layout : BinLayout
  pub lookup_table : ℕ → ℕ

unfoldable pub determine_bin_layout : EncoderConfig → List ℕ → Determined
determine_bin_layout config input =
    let counts =
      count_data config.element_size config.significant_bits input
        (record { table = λ _. 0; num_bins = 0 }) in
    let s = scan_values (bin_values_in_1c_order config.significant_bits) (record {
      cur_bin_id = 0;
      cur_end_offset = 0;
      bin_values = [];
      bin_start_offsets = 0 ∷ [];
      table = counts.table;
    }) in
    record {
      layout = record {
        num_bins = counts.num_bins;
        bin_values = s.bin_values;
        bin_start_offsets = s.bin_start_offsets;
      };
      lookup_table = s.table;
    }

-- The buffers that the encoding loops fill, as elements of `insigbytes` bytes and as row ids.
pub record Buffers : Type 0 where
  pub lows : List ℕ
  pub rids : List ℕ

-- The loop of encodeWithInvertedIndex, from row `rid` on; `cur` is `binCurOffsets`.
module _ (elem_size sigbits : ℕ) (table : ℕ → ℕ) where
  unfoldable pub invert_loop : List ℕ → ℕ → List ℕ → Buffers → Buffers
  invert_loop [] rid cur b = b
  invert_loop (x ∷ xs) rid cur b =
      let bin = table (high_part elem_size sigbits x) in
      let offset = get_or cur bin 0 in
      invert_loop xs (u32 (rid + 1)) (set cur bin (u32 (offset + 1))) (record {
        lows = set b.lows offset (stored (insig_bytes_ceil elem_size sigbits) (low_part sigbits x));
        rids = set b.rids offset rid;
      })

  -- The loop of encodeWithCompressionIndex: the bin ids go out in the order of the rows.
  unfoldable pub compression_loop : List ℕ → List ℕ → List ℕ → List ℕ → List ℕ × List ℕ
  compression_loop [] cur lows ids = (lows, ids)
  compression_loop (x ∷ xs) cur lows ids =
      let bin = table (high_part elem_size sigbits x) in
      let offset = get_or cur bin 0 in
      compression_loop xs (set cur bin (u32 (offset + 1)))
        (set lows offset (stored (insig_bytes_ceil elem_size sigbits) (low_part sigbits x)))
        (ids ++ (stored (sig_bytes_ceil sigbits) bin ∷ []))

unfoldable pub encode_with_inverted_index :
    EncoderConfig → BinLayout → (ℕ → ℕ) → List ℕ → Buffers → Buffers
encode_with_inverted_index config bl table input fresh =
    invert_loop config.element_size config.significant_bits table input 0
      (take bl.num_bins bl.bin_start_offsets) fresh

unfoldable pub encode_with_compression_index :
    EncoderConfig → BinLayout → (ℕ → ℕ) → List ℕ → Buffers → List ℕ × List ℕ
encode_with_compression_index config bl table input fresh =
    compression_loop config.element_size config.significant_bits table input
      (take (bl.num_bins + 1) bl.bin_start_offsets) fresh.lows []

-- The metadata that initMetadataAndAllocateBuffers sets. ENDIAN_LITTLE is 0.
unfoldable pub init_metadata : EncoderConfig → ℕ → BinLayout → Metadata
init_metadata config input_count layout = record {
  global_offset = 0;
  partition_length = u32 input_count;
  bin_layout = layout;
  significant_bits = config.significant_bits;
  element_size = config.element_size;
  datatype = config.datatype;
  endianness = 0;
  index_meta = record { index_form = config.index_form; index_bin_start_offsets = [] };
}

-- A partition whose buffers hold these elements.
unfoldable pub partition_of : Metadata → List ℕ → ℕ → List ℕ → PartitionData
partition_of m lows width index = record {
  metadata = m;
  data_buffer = array_bytes (insig_bytes_ceil m.element_size m.significant_bits) lows;
  index_buffer = array_bytes width index;
  owns_buffers = true;
}

-- The branches on the index form. Encoding straight into a compressed index is an error.
unfoldable pub encode_form :
    IndexForm → EncoderConfig → List ℕ → Buffers → Option (AlError × PartitionData)
encode_form IndexForm.compression_index config input fresh =
    let d = determine_bin_layout config input in
    let m = init_metadata config (length input) d.layout in
    let (lows, ids) = encode_with_compression_index config d.layout d.lookup_table input fresh in
    some (AlError.error_none, partition_of m lows (sig_bytes_ceil config.significant_bits) ids)
encode_form IndexForm.inverted_index config input fresh =
    let d = determine_bin_layout config input in
    let m = init_metadata config (length input) d.layout in
    let b = encode_with_inverted_index config d.layout d.lookup_table input fresh in
    some (AlError.error_none, partition_of m b.lows 4 b.rids)
encode_form IndexForm.compressed_inverted_index config input fresh =
    let d = determine_bin_layout config input in
    let m = init_metadata config (length input) d.layout in
    some (AlError.error_something, partition_of m fresh.lows 4 [])
encode_form _ config input fresh = none

unfoldable pub encode : EncoderConfig → List ℕ → Buffers → Option (AlError × PartitionData)
encode config input fresh =
    if is_datum_size config.element_size && order_ends config.significant_bits
    then encode_form config.index_form config input fresh
    else none

-- `ALBuildBinLayout` and `ALBuildInvertedIndexFromLayout`, which run the two halves of `ALEncode`
-- for the inverted index apart from each other.
unfoldable pub build_bin_layout : EncoderConfig → List ℕ → AlError × (Metadata × (ℕ → ℕ))
build_bin_layout config input =
    let d = determine_bin_layout config input in
    (AlError.error_none, (init_metadata config (length input) d.layout, d.lookup_table))

unfoldable pub build_inverted_index_from_layout :
    EncoderConfig → List ℕ → Metadata → (ℕ → ℕ) → Buffers → AlError × PartitionData
build_inverted_index_from_layout config input m table fresh =
    let b = encode_with_inverted_index config m.bin_layout table input fresh in
    (AlError.error_none, partition_of m b.lows 4 b.rids)
