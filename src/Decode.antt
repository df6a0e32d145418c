-- ===== src/Decode.antt =====
-- src/ALDecode.c. The data and index buffers are read from pointers that move on, here the bytes
-- from the pointer on; the output is the list of its elements. Reading past a buffer or an array,
-- writing behind the output and a failed `assert` are `none`. The decompression of a list of row
-- ids, ALDecompressRIDs, is an argument.
pub mod Elements
pub mod Rows
pub mod RoundTrip
pub mod Compressed
use alacrity_adios.Prelude.{
  ℕ, zero, suc, ◌+◌, ◌*◌, ◌/◌, ◌-◌, ◌^◌, Bool, ◌==◌, ltb, leb, if◌then◌else◌, u32, u64, ◌&&◌,
}
use alacrity_adios.Prelude.{List, length, take, drop, set, get_elem?, Option, none, some, ◌>>=◌}
use alacrity_adios.Memory.{from_le, array_bytes}
use alacrity_adios.Types.{AlError, IndexForm, BinLayout, IndexMetadata, Metadata, PartitionData}
use alacrity_adios.Types.{insig_bytes_ceil}
use alacrity_adios.Datum.{is_datum_size, rejoin_datum_bits}

-- `ALGetDecodeLength`: the product is one of 32-bit numbers.
unfoldable pub get_decode_length : PartitionData → ℕ
get_decode_length input = u32 (input.metadata.partition_length * input.metadata.element_size)

pub record Decoding : Type 0 where
  pub data_ptr : List ℕ
  pub index_ptr : List ℕ
  pub output : List ℕ

-- GET_BUFFER_ELEMENT, and the step of the pointer that follows it.
unfoldable pub get_buffer_element : ℕ → List ℕ → Option (ℕ × List ℕ)
get_buffer_element elem_size ptr =
    if leb elem_size (length ptr)
    then some (from_le (take elem_size ptr), drop elem_size ptr)
    else none

module _ (elem_size sigbits high : ℕ) where
  -- REJOIN_DATUM_BITS at `(char*)output + rid * elemsize`, a product of 32 bits: the element that
  -- starts at this byte is written. For an element size that its switch does not know, nothing is
  -- written.
  unfoldable pub rejoin_at : ℕ → ℕ → List ℕ → Option (List ℕ)
  rejoin_at rid low output =
      let place = u32 (rid * elem_size) / elem_size in
      if is_datum_size elem_size
      then (if ltb place (length output)
          then some (set output place (rejoin_datum_bits elem_size sigbits high low))
          else none)
      else some output

  -- The inner loop, over the elements of one bin; `elements` of them are left.
  unfoldable pub decode_elements : ℕ → Decoding → Option Decoding
  decode_elements zero d = some d
  decode_elements (suc elements) d =
      get_buffer_element (insig_bytes_ceil elem_size sigbits) d.data_ptr >>= λ (low, data_ptr).
      get_buffer_element 4 d.index_ptr >>= λ (rid, index_ptr).
      rejoin_at rid low d.output >>= λ output.
      decode_elements elements
        (record { data_ptr = data_ptr; index_ptr = index_ptr; output = output })

-- The outer loop, over the bins from `bin` on; `bins` of them are left.
module _ (m : Metadata) where
  unfoldable pub decode_bins : ℕ → ℕ → ℕ → Decoding → Option Decoding
  decode_bins zero bin bin_start_off d = some d
  decode_bins (suc bins) bin bin_start_off d =
      get_elem? m.bin_layout.bin_start_offsets (bin + 1) >>= λ bin_end_off.
      get_elem? m.bin_layout.bin_values bin >>= λ high.
      decode_elements m.element_size m.significant_bits high (bin_end_off - bin_start_off) d
      >>= decode_bins bins (bin + 1) bin_end_off

  -- The same where the row ids of each bin are compressed. The decompressed ids are in a buffer of
  -- their own, read from its start. `buf_len` is `decompressBinBufLen`: the buffer has room for that
  -- many ids and is allocated anew for a bin with more of them. Before the first allocation it is a
  -- null pointer, which the first `assert` refuses; `malloc` is taken to succeed.
  module _ (decompress_rids : List ℕ → Option (List ℕ)) where
    unfoldable pub decode_compressed_bins : ℕ → ℕ → ℕ → ℕ → Decoding → Option Decoding
    decode_compressed_bins zero bin bin_start_off buf_len d = some d
    decode_compressed_bins (suc bins) bin bin_start_off buf_len d =
        let starts = m.index_meta.index_bin_start_offsets in
        get_elem? m.bin_layout.bin_start_offsets (bin + 1) >>= λ bin_end_off.
        get_elem? starts (bin + 1) >>= λ next. get_elem? starts bin >>= λ this.
        let bin_len = u32 (bin_end_off + 2 ^ 32 - bin_start_off) in
        let room = if ltb buf_len bin_len then bin_len else buf_len in
        let compressed_bin_len = u64 (next + 2 ^ 64 - this) in
        if ltb 0 room && leb compressed_bin_len (length d.index_ptr)
        then (decompress_rids (take compressed_bin_len d.index_ptr) >>= λ rids.
            if length rids == bin_len
            then (get_elem? m.bin_layout.bin_values bin >>= λ high.
                decode_elements m.element_size m.significant_bits high (bin_end_off - bin_start_off)
                  (record d { index_ptr = array_bytes 4 rids })
                >>= λ r.
                    decode_compressed_bins bins (bin + 1) bin_end_off room
                      (record r { index_ptr = drop compressed_bin_len d.index_ptr }))
            else none)
        else none

-- What the functions leave behind: the result, the output and `*outputCount`.
pub record Decoded : Type 0 where
  pub error : AlError
  pub output : List ℕ
  pub output_count : ℕ

unfoldable pub decode_with_compressed_index : PartitionData → List ℕ → Option Decoded
decode_with_compressed_index input output =
    some (record { error = AlError.error_none; output = output; output_count = 0 })

unfoldable pub decode_with_inverted_index : PartitionData → List ℕ → Option Decoded
decode_with_inverted_index input output =
    let m = input.metadata in
    decode_bins m m.bin_layout.num_bins 0 0
      (record { data_ptr = input.data_buffer; index_ptr = input.index_buffer; output = output })
    >>= λ d. some (record {
      error = AlError.error_none;
      output = d.output;
      output_count = m.partition_length;
    })

module _ (decompress_rids : List ℕ → Option (List ℕ)) where
  unfoldable pub decode_with_compressed_inverted_index : PartitionData → List ℕ → Option Decoded
  decode_with_compressed_inverted_index input output =
      let m = input.metadata in
      decode_compressed_bins m decompress_rids m.bin_layout.num_bins 0 0 0
        (record { data_ptr = input.data_buffer; index_ptr = input.index_buffer; output = output })
      >>= λ d. some (record {
        error = AlError.error_none;
        output = d.output;
        output_count = m.partition_length;
      })

  -- The switch of `ALDecode` on the index form; `output` and `output_count` are what is there
  -- before the call.
  unfoldable pub decode_form : IndexForm → PartitionData → List ℕ → ℕ → Option Decoded
  decode_form IndexForm.compression_index input output output_count =
      decode_with_compressed_index input output
  decode_form IndexForm.inverted_index input output output_count =
      decode_with_inverted_index input output
  decode_form IndexForm.compressed_inverted_index input output output_count =
      decode_with_compressed_inverted_index input output
  decode_form _ input output output_count =
      some
        (record { error = AlError.error_something; output = output; output_count = output_count })

  unfoldable pub decode : PartitionData → List ℕ → ℕ → Option Decoded
  decode input output output_count =
      decode_form input.metadata.index_meta.index_form input output output_count
