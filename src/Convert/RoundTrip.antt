-- ===== src/Convert/RoundTrip.antt =====
-- Converting an inverted index to a compressed one and back.
use alacrity_adios.Prelude.{ℕ, ◌+◌, ◌-◌, ◌^◌, ◌≤◌, ◌<◌, ◌≡◌, refl, sym, ap, ◌∙◌, arith}
use alacrity_adios.Prelude.{le→leb, List, [], length, All}
use alacrity_adios.Prelude.{Option, some}
use alacrity_adios.Memory.{array_bytes}
use alacrity_adios.Types.{AlError, IndexForm, IndexMetadata, Metadata}
use alacrity_adios.RidCompress.Batch.Differences.{shift_ids}
use alacrity_adios.Convert.{Converted, Method, method_of, convert_by, convert_or_fail, convert_from}
use alacrity_adios.Convert.{convert_ii_to_cii, convert_cii_to_ii, is_compressed_target, is_inverted}
use alacrity_adios.Convert.{convert_index_form, worst_size, compress_bins, decompress_bins}
use alacrity_adios.Convert.Bins.{starts, all_ids, IsBin, AreCompressed, compressed}

abbrev pub inverted_meta : IndexMetadata
inverted_meta = record { index_form = IndexForm.inverted_index; index_bin_start_offsets = [] }

-- A partition's metadata and the row ids of its bins.
pub record IsBinned (m : Metadata) (bs : List (List ℕ)) : Type 0 where
  pub how_many : m.bin_layout.num_bins ≡ length bs
  pub where_they_start : m.bin_layout.bin_start_offsets ≡ starts 0 bs
  pub count_fits : length (all_ids bs) < 2 ^ 32
  pub bins : All IsBin bs
  pub inverted : m.index_meta ≡ inverted_meta

module _ (hybrid_compress expand_compress erpfd_compress : List ℕ → Option (List ℕ)) (m : Metadata)
    (bs : List (List ℕ)) (b : IsBinned m bs) where
  pub parts : AreCompressed hybrid_compress expand_compress erpfd_compress m.bin_layout bs 0 0
  parts =
      compressed hybrid_compress expand_compress erpfd_compress m.bin_layout bs 0 0 0 b.bins
        (omega (arith, b.count_fits))
        (λ j. let e : 0 + j ≡ j = omega arith in rw (e, b.where_they_start))

  abbrev pub compressed_meta : Metadata
  compressed_meta = record m {
    index_meta = record {
      index_form = IndexForm.compressed_inverted_index;
      index_bin_start_offsets = parts.offsets;
    };
  }

  abbrev pub there : Converted
  there = record { error = AlError.error_none; metadata = compressed_meta; index = parts.bytes }

  abbrev back : Converted
  back = record { error = AlError.error_none; metadata = m; index = array_bytes 4 (all_ids bs) }

  pub forth :
      convert_index_form hybrid_compress expand_compress erpfd_compress m
        (array_bytes 4 (all_ids bs))
        IndexForm.compressed_inverted_index
      ≡ some there
  unfolding convert_index_form convert_from is_compressed_target convert_ii_to_cii method_of
      convert_or_fail convert_by
  forth =
      let from_form = λ (f : IndexForm).
        convert_from hybrid_compress expand_compress erpfd_compress f
          IndexForm.compressed_inverted_index m (array_bytes 4 (all_ids bs)) in
      let worst = ap (λ n. worst_size m.bin_layout n 0) b.how_many ∙ parts.worst in
      let compresses =
        ap
          (λ n.
            compress_bins hybrid_compress expand_compress erpfd_compress Method.plain m.bin_layout n
              0 (array_bytes 4 (all_ids bs)) 0)
          b.how_many
        ∙ parts.compresses in
      ap from_form (ap (λ (i : IndexMetadata). i.index_form) b.inverted)
      ∙ rw (worst, compresses, le→leb (length parts.bytes) parts.size parts.fits)

  -- The same with an offset added to the row ids.
  pub forth_shifted :
      (o : ℕ)
      → convert_index_form hybrid_compress expand_compress erpfd_compress m
          (array_bytes 4 (shift_ids o (all_ids bs)))
          IndexForm.compressed_inverted_index
        ≡ some (record there { index = parts.shifted o })
  unfolding convert_index_form convert_from is_compressed_target convert_ii_to_cii method_of
      convert_or_fail convert_by
  forth_shifted o =
      let from_form = λ (f : IndexForm).
        convert_from hybrid_compress expand_compress erpfd_compress f
          IndexForm.compressed_inverted_index m (array_bytes 4 (shift_ids o (all_ids bs))) in
      let worst = ap (λ n. worst_size m.bin_layout n 0) b.how_many ∙ parts.worst in
      let compresses =
        ap
          (λ n.
            compress_bins hybrid_compress expand_compress erpfd_compress Method.plain m.bin_layout n
              0 (array_bytes 4 (shift_ids o (all_ids bs))) 0)
          b.how_many
        ∙ parts.compresses_shifted o in
      let fits : length (parts.shifted o) ≤ parts.size =
        omega (arith, parts.fits, parts.same_length o) in
      ap from_form (ap (λ (i : IndexMetadata). i.index_form) b.inverted)
      ∙ rw (worst, compresses, le→leb (length (parts.shifted o)) parts.size fits)

  pub and_back :
      convert_index_form hybrid_compress expand_compress erpfd_compress compressed_meta parts.bytes
        IndexForm.inverted_index
      ≡ some back
  unfolding convert_index_form convert_from is_inverted convert_cii_to_ii
  and_back =
      let small : 0 + length parts.bytes < 2 ^ 64 = omega (arith, parts.small, b.count_fits) in
      let many : m.bin_layout.num_bins - 0 ≡ length bs = omega (arith, b.how_many) in
      let all =
        ap (λ n. decompress_bins compressed_meta n 0 parts.bytes) many
        ∙ parts.decompresses compressed_meta refl small
            (λ j. let e : 0 + j ≡ j = omega arith in rw e) in
      rw all
        (ap (λ i. some (record back { metadata = record m { index_meta = i } })) (sym b.inverted))

-- The index of a partition whose bins hold increasing row ids, at least one and at most 2^28 in each
-- bin and fewer than 2^32 in all, is converted from row ids to compressed row ids without an error,
-- and converting the result back gives the metadata and the bytes of the index that it was.
pub convert_index_form-convert_index_form :
    (hybrid_compress expand_compress erpfd_compress : List ℕ → Option (List ℕ)) (m : Metadata)
    (bs : List (List ℕ))
    → IsBinned m bs
    → let convert = convert_index_form hybrid_compress expand_compress erpfd_compress in
      (c : Converted) × (convert m (array_bytes 4 (all_ids bs)) IndexForm.compressed_inverted_index
        ≡ some c)
      × (c.error ≡ AlError.error_none)
      × (convert c.metadata c.index IndexForm.inverted_index
          ≡ some (record {
            error = AlError.error_none;
            metadata = m;
            index = array_bytes 4 (all_ids bs);
          }))
convert_index_form-convert_index_form hybrid_compress expand_compress erpfd_compress m bs b = (
  there hybrid_compress expand_compress erpfd_compress m bs b,
  forth hybrid_compress expand_compress erpfd_compress m bs b,
  refl,
  and_back hybrid_compress expand_compress erpfd_compress m bs b,
)
