-- ===== src/Uniquery/ReadReconst.antt =====
-- src/uniquery/readreconst.templates.cc: the low-order bytes of a range of bins are read to the end
-- of a buffer that has room for the elements, and are made into elements there, from the start of the
-- buffer on. A pointer into the buffer is an offset. The unsigned type UT is given by its size in
-- bytes, the size of an element. Reading the data of bins from a partition store is an argument, as
-- the source calls it through a table of functions; it gives the bytes that are read, and its failure,
-- which the source ignores, is `none`. So is an access outside the buffer or the layout.
pub mod InPlace
pub mod Reading
pub mod EndBins
pub mod Elements
use alacrity_adios.Prelude.{
  ℕ, zero, suc, ◌+◌, ◌*◌, ◌-◌, ◌%◌, ◌^◌, bit_or, u32, Bool, ltb, ◌==◌, ◌||◌,
}
use alacrity_adios.Prelude.{if◌then◌else◌, ◌&&◌, List, get_elem?, Option, none, some, ◌>>=◌}
use alacrity_adios.Memory.{le_bytes, from_le}
use alacrity_adios.Memory.Access.{read_bytes, write_bytes}
use alacrity_adios.Types.{Metadata, insig_bytes_ceil}
use alacrity_adios.Datum.{insig_bits}

-- The switch on the size of an element.
unfoldable pub is_element_size : ℕ → Bool
is_element_size element_size =
    element_size == 8 || (element_size == 4 || (element_size == 2 || element_size == 1))

pub record Cursor : Type 0 where
  pub next_input : ℕ
  pub next_output : ℕ
  pub buffer : List ℕ

-- `((UT)bl->binValues[bin]) << insigbits`
unfoldable pub high_mask : ℕ → ℕ → ℕ → ℕ
high_mask elem_size sigbits bin_value =
    bin_value % 256 ^ elem_size * 2 ^ insig_bits elem_size sigbits % 256 ^ elem_size

-- What is made of a low part.
unfoldable pub reconst_elem : ℕ → ℕ → ℕ → ℕ → ℕ
unfolding high_mask
reconst_elem elem_size sigbits bin_value low = bit_or low (high_mask elem_size sigbits bin_value)

module _ (m : Metadata) where
  -- The inner loop, over the elements of a bin; `count` of them are left.
  unfoldable pub reconstitute_bin : ℕ → ℕ → Cursor → Option Cursor
  reconstitute_bin bin_value zero c = some c
  reconstitute_bin bin_value (suc count) c =
      let insigbytes = insig_bytes_ceil m.element_size m.significant_bits in
      read_bytes c.next_input insigbytes c.buffer >>= λ low.
      write_bytes c.next_output
        (le_bytes m.element_size
          (reconst_elem m.element_size m.significant_bits bin_value (from_le low)))
        c.buffer
      >>= λ buffer. reconstitute_bin bin_value count (record {
        next_input = c.next_input + insigbytes;
        next_output = c.next_output + m.element_size;
        buffer = buffer;
      })

  -- The outer loop, over the bins from `bin` on; `bins` of them are left.
  unfoldable pub reconstitute_bins : ℕ → ℕ → Cursor → Option Cursor
  reconstitute_bins zero bin c = some c
  reconstitute_bins (suc bins) bin c = get_elem? m.bin_layout.bin_start_offsets bin >>= λ off_start.
      get_elem? m.bin_layout.bin_start_offsets (bin + 1) >>= λ off_end.
      get_elem? m.bin_layout.bin_values bin >>= λ bin_value.
      reconstitute_bin bin_value (off_end - off_start) c >>= reconstitute_bins bins (bin + 1)

  -- `reconstituteData`, on the buffer that both pointers point into.
  unfoldable pub reconstitute_data : ℕ → ℕ → ℕ → ℕ → List ℕ → Option (List ℕ)
  reconstitute_data start_bin end_bin start_bin_input start_bin_output buffer =
      if is_element_size m.element_size
      then (reconstitute_bins (end_bin - start_bin) start_bin (record {
        next_input = start_bin_input;
        next_output = start_bin_output;
        buffer = buffer;
      })
          >>= λ c. some c.buffer)
      else none

  module _ (read_data_bins : ℕ → ℕ → Option (List ℕ)) where
    -- Reads some bins to an offset and makes elements of them from another one on.
    unfoldable pub read_and_expand : ℕ → ℕ → ℕ → ℕ → List ℕ → Option (List ℕ)
    read_and_expand start_bin end_bin input output buffer =
        read_data_bins start_bin end_bin >>= λ bytes.
        write_bytes input bytes buffer >>= reconstitute_data start_bin end_bin input output

    -- The first and the last bin only; `low_data` is the offset of the low-order bytes.
    unfoldable pub read_end_bins : ℕ → ℕ → ℕ → List ℕ → Option (List ℕ)
    read_end_bins start_bin end_bin low_data buffer =
        let insigbytes = insig_bytes_ceil m.element_size m.significant_bits in
        get_elem? m.bin_layout.bin_start_offsets (end_bin - 1) >>= λ last_bin_off.
        get_elem? m.bin_layout.bin_start_offsets start_bin >>= λ start_bin_off.
        let last_bin_elem_off = u32 (last_bin_off + 2 ^ 32 - start_bin_off) in
        read_and_expand start_bin (start_bin + 1) low_data 0 buffer
        >>= read_and_expand (end_bin - 1) end_bin (low_data + u32 (last_bin_elem_off * insigbytes))
            (m.element_size * last_bin_elem_off)

    -- `malloc` gives the content of a buffer of a size. The result is the buffer and the number of
    -- elements.
    unfoldable pub read_and_reconstitute_data : ℕ → ℕ → Bool → (ℕ → List ℕ) → Option (List ℕ × ℕ)
    read_and_reconstitute_data start_bin end_bin end_bins_only malloc =
        let insigbytes = insig_bytes_ceil m.element_size m.significant_bits in
        get_elem? m.bin_layout.bin_start_offsets end_bin >>= λ end_off.
        get_elem? m.bin_layout.bin_start_offsets start_bin >>= λ start_off.
        let element_count = u32 (end_off + 2 ^ 32 - start_off) in
        let allocated = malloc (u32 (element_count * m.element_size)) in
        let low_data = u32 ((m.element_size - insigbytes) * element_count) in
        if is_element_size m.element_size
        then ((if end_bins_only && ltb 2 (end_bin - start_bin)
              then read_end_bins start_bin end_bin low_data allocated
              else read_and_expand start_bin end_bin low_data 0 allocated)
            >>= λ buffer. some (buffer, element_count))
        else none
