-- ===== src/Convert.antt =====
-- src/ALConvert.c and src/ALRIDTranslate.c: an index that is there is converted between row ids
-- and compressed row ids (here), or its ids are translated (Translate). A pointer into a buffer
-- that moves on is the list of the bytes from it on. `none` is a failed assertion, an access outside of a buffer
-- or a failed compression or decompression, of which the code ignores the result. The compression
-- methods other than that of `encode_rids`, ALHybridCompressRIDs, ALExpandCompressRIDs and
-- ALERPFDCompressRIDs, are arguments.
pub mod Bins
pub mod RoundTrip
pub mod Translate
pub mod Commuting
mod Examples
use alacrity_adios.Prelude.{
  ℕ, zero, suc, ◌+◌, ◌-◌, ◌*◌, ◌^◌, Bool, true, false, ◌==◌, ltb, leb, not,
}
use alacrity_adios.Prelude.{if◌then◌else◌, u32, u64, List, [], ◌∷◌, ◌++◌, length, take, drop}
use alacrity_adios.Prelude.{get_elem?, Option, none, some, ◌>>=◌}
use alacrity_adios.Memory.{array_bytes}
use alacrity_adios.Memstream.{array_of}
use alacrity_adios.Types.{AlError, IndexForm, BinLayout, IndexMetadata, Metadata}
use alacrity_adios.RidCompress.Interface.{encode_rids, decode_rids, get_sufficient_buffer_capacity}

-- `bl->binStartOffsets[bin + 1] - bl->binStartOffsets[bin]`
unfoldable pub bin_length : BinLayout → ℕ → Option ℕ
bin_length layout bin = get_elem? layout.bin_start_offsets (bin + 1) >>= λ next.
    get_elem? layout.bin_start_offsets bin >>= λ this. some (u32 (next + 2 ^ 32 - this))

-- The target forms, as `convertIIToCII` tells them apart; the others end in an error. A bin of the
-- skipping form, whose compression is commented out, is never written.
pub data Method : Type 0 where
  plain hybrid expansion mixed skipping : Method

unfoldable pub method_of : IndexForm → Option Method
method_of IndexForm.compressed_inverted_index = some Method.plain
method_of IndexForm.compressed_hybrid_inverted_index = some Method.hybrid
method_of IndexForm.compressed_expansion_ii = some Method.expansion
method_of IndexForm.compressed_mix_inverted_index = some Method.mixed
method_of IndexForm.compressed_skip_inverted_index = some Method.skipping
method_of _ = none

-- The sum of the sizes to provide for the bins from `bin` on.
unfoldable pub worst_size : BinLayout → ℕ → ℕ → Option ℕ
worst_size layout zero bin = some 0
worst_size layout (suc bins) bin = bin_length layout bin >>= λ bin_len.
    worst_size layout bins (bin + 1) >>= λ rest.
    some (get_sufficient_buffer_capacity bin_len + rest)

-- What a conversion leaves behind.
pub record Converted : Type 0 where
  pub error : AlError
  pub metadata : Metadata
  pub index : List ℕ

unfoldable pub unsupported : Metadata → List ℕ → Option Converted
unsupported m index = some (record { error = AlError.error_something; metadata = m; index = index })

module _ (hybrid_compress expand_compress erpfd_compress : List ℕ → Option (List ℕ)) where
  unfoldable pub compress_by : Method → List ℕ → Option (List ℕ)
  compress_by Method.plain ids = encode_rids ids
  compress_by Method.hybrid ids = hybrid_compress ids
  compress_by Method.expansion ids = expand_compress ids
  compress_by Method.mixed ids = erpfd_compress ids
  compress_by Method.skipping ids = none

  -- The loop over the bins: the offsets at which their bytes start, with the end of the last one,
  -- and the bytes.
  unfoldable pub compress_bins : Method → BinLayout → ℕ → ℕ → List ℕ → ℕ → Option (List ℕ × List ℕ)
  compress_bins method layout zero bin input output_off = some (output_off ∷ [], [])
  compress_bins method layout (suc bins) bin input output_off = bin_length layout bin >>= λ bin_len.
      if leb (bin_len * 4) (length input)
      then (compress_by method (array_of 4 bin_len input) >>= λ bytes.
          compress_bins method layout bins (bin + 1) (drop (bin_len * 4) input)
            (output_off + length bytes)
          >>= λ (offsets, more). some (output_off ∷ offsets, bytes ++ more))
      else none

  unfoldable pub convert_by : Method → IndexForm → Metadata → List ℕ → Option Converted
  convert_by method form m index = worst_size m.bin_layout m.bin_layout.num_bins 0 >>= λ size.
      compress_bins method m.bin_layout m.bin_layout.num_bins 0 index 0 >>= λ (offsets, output).
      if leb (length output) size
      then some (record {
        error = AlError.error_none;
        metadata = record m {
          index_meta = record { index_form = form; index_bin_start_offsets = offsets };
        };
        index = output;
      })
      else none

  -- The loop that finds an unknown form runs if there is a bin.
  unfoldable pub convert_or_fail : Option Method → IndexForm → Metadata → List ℕ → Option Converted
  unfolding unsupported
  convert_or_fail (some method) form m index = convert_by method form m index
  convert_or_fail none form m index =
      if m.bin_layout.num_bins == 0
      then convert_by Method.skipping form m index
      else unsupported m index

  unfoldable pub convert_ii_to_cii : IndexForm → Metadata → List ℕ → Option Converted
  unfolding convert_or_fail
  convert_ii_to_cii form m index = convert_or_fail (method_of form) form m index

-- The loop over the bins from `bin` on: the row ids, one bin after the other.
unfoldable pub decompress_bins : Metadata → ℕ → ℕ → List ℕ → Option (List ℕ)
decompress_bins m zero bin input = some []
decompress_bins m (suc bins) bin input =
    let starts = m.index_meta.index_bin_start_offsets in
    bin_length m.bin_layout bin >>= λ bin_len. get_elem? starts (bin + 1) >>= λ next.
    get_elem? starts bin >>= λ this.
    let compressed_len = u64 (next + 2 ^ 64 - this) in
    if leb compressed_len (length input)
    then (decode_rids (take compressed_len input) >>= λ rids.
        if length rids == bin_len
        then (decompress_bins m bins (bin + 1) (drop compressed_len input) >>= λ more.
            some (rids ++ more))
        else none)
    else none

unfoldable pub convert_cii_to_ii : ℕ → ℕ → Bool → Metadata → List ℕ → Option Converted
convert_cii_to_ii lo_bin hi_bin update_meta m index =
    decompress_bins m (hi_bin - lo_bin) lo_bin index >>= λ rids. some (record {
      error = AlError.error_none;
      metadata =
          if update_meta
          then record m {
            index_meta = record {
              index_form = IndexForm.inverted_index;
              index_bin_start_offsets = [];
            };
          }
          else m;
      index = array_bytes 4 rids;
    })

-- Whether a form is `>= ALCompressedInvertedIndex`.
unfoldable pub is_compressed_target : IndexForm → Bool
is_compressed_target IndexForm.compression_index = false
is_compressed_target IndexForm.inverted_index = false
is_compressed_target _ = true

unfoldable pub is_inverted : IndexForm → Bool
is_inverted IndexForm.inverted_index = true
is_inverted _ = false

module _ (hybrid_compress expand_compress erpfd_compress : List ℕ → Option (List ℕ)) where
  -- The cases of `ALConvertIndexForm`, by the old form.
  unfoldable pub convert_from : IndexForm → IndexForm → Metadata → List ℕ → Option Converted
  unfolding unsupported
  convert_from IndexForm.inverted_index new_form m index =
      if is_compressed_target new_form
      then convert_ii_to_cii hybrid_compress expand_compress erpfd_compress new_form m index
      else unsupported m index
  convert_from IndexForm.compressed_inverted_index new_form m index =
      if is_inverted new_form
      then convert_cii_to_ii 0 m.bin_layout.num_bins true m index
      else unsupported m index
  convert_from _ new_form m index = unsupported m index

  unfoldable pub convert_index_form : Metadata → List ℕ → IndexForm → Option Converted
  convert_index_form m index new_form = convert_from m.index_meta.index_form new_form m index

-- `ALConvertPartialIndexForm`, on the bytes of the bins from `lo_bin` to `hi_bin`.
unfoldable pub convert_partial :
    IndexForm → IndexForm → Metadata → List ℕ → ℕ → ℕ → Option Converted
unfolding unsupported
convert_partial IndexForm.compressed_inverted_index new_form m index lo_bin hi_bin =
    if is_inverted new_form
    then convert_cii_to_ii lo_bin hi_bin false m index
    else unsupported m index
convert_partial _ new_form m index lo_bin hi_bin = unsupported m index

unfoldable pub convert_partial_index_form : Metadata → List ℕ → IndexForm → ℕ → ℕ → Option Converted
convert_partial_index_form m partial_index new_form lo_bin hi_bin =
    convert_partial m.index_meta.index_form new_form m partial_index lo_bin hi_bin
