-- ===== src/Uniquery/QueryExamples.antt =====
-- The theorems on queries at a partition of three bins of floats, -2.0, 1.0 and 0.5, and 2.0, of which
-- those from 0.75 to below 3.0 are asked for.
use alacrity_adios.Prelude.{ℕ, ◌+◌, ◌-◌, ◌%◌, ◌^◌, ◌≡◌, refl, ap, ◌∙◌, arith}
use alacrity_adios.Prelude.{true, false, List, [], ◌∷◌, ◌++◌, length, take, drop, replicate}
use alacrity_adios.Prelude.{Option, some, inr, take_append, drop_append, length-replicate}
use alacrity_adios.Memory.{array_bytes}
use alacrity_adios.Types.{IndexForm, Datatype, Metadata, insig_bytes_ceil}
use alacrity_adios.Uniquery.BinRange.Signs.{key}
use alacrity_adios.Uniquery.FloatOrder.{is_nan, infinity, in_query, float_leb, float_ltb}
use alacrity_adios.Uniquery.Selection.{Row, row_ids, values, selected}
use alacrity_adios.Uniquery.ReadReconst.{read_and_reconstitute_data, reconst_elem, high_mask}
use alacrity_adios.Uniquery.ReadReconst.{is_element_size}
use alacrity_adios.Uniquery.ReadReconst.Elements.{split_bins, elements_in}
use alacrity_adios.Uniquery.ReadReconst.Elements.{read_and_reconstitute_data-split_bins}
use alacrity_adios.Datum.{is_datum_size, high_part, low_part, stored}
use alacrity_adios.Uniquery.ReadReconst.Reading.{Bin, lows_of, elements_of}
use alacrity_adios.Uniquery.ReadReconst.EndBins.{read_and_reconstitute_data-end_bins}
use alacrity_adios.Uniquery.TrimBins.{QueryResult, trim_query_results_template}
use alacrity_adios.Uniquery.TrimBins.Trimmed.{IsTrimmedTo, trim_query_results_template-many}
use alacrity_adios.Uniquery.Query.{QueryType, partition_result}
use alacrity_adios.Uniquery.Query.Segments.{Group, rows_of}
use alacrity_adios.Uniquery.Query.Touched.{IsStored, bins_of}
use alacrity_adios.Uniquery.Query.Searched.{IsAnswerable}
use alacrity_adios.Uniquery.Query.Answer.{partition_result-selected}
use alacrity_adios.Memory.{le_bytes, from_le}
use alacrity_adios.Memory.Access.{read_bytes, write_bytes, elements}
use alacrity_adios.Uniquery.BinRange.{
  conv_neg_1c_to_2c, conv_1c_to_2c, find_start_neg, find_start_pos, continue_start, find_start,
  find_end_neg, find_end_pos, end_or, continue_end, find_end, check_range, search_from, search_bins,
  find_bin_range_1c_template, find_bin_range_1c,
}
use alacrity_adios.Uniquery.ReadReconst.{
  reconstitute_bin, reconstitute_bins, reconstitute_data, read_and_expand, read_end_bins,
}
use alacrity_adios.Uniquery.TrimBins.{put, trim_first, trim_last, trim_by_type, trim_query_results}
use alacrity_adios.Uniquery.Query.{
  clear_query_result, is_compressed_inverted, read_index, candidate_check, results_for,
  touched_results, results_or_none,
}

abbrev three_bins : List Group
three_bins =
    (0xc0, (0, 0xc000_0000) ∷ [])
    ∷ (0x3f, (1, 0x3f80_0000) ∷ (3, 0x3f00_0000) ∷ [])
    ∷ (0x40, (2, 0x4000_0000) ∷ [])
    ∷ []

abbrev floats : Metadata
floats = record {
  global_offset = 0;
  partition_length = 4;
  bin_layout = record {
    num_bins = 3;
    bin_values = 0xc0 ∷ 0x3f ∷ 0x40 ∷ [];
    bin_start_offsets = 0 ∷ 1 ∷ 3 ∷ 4 ∷ [];
  };
  significant_bits = 8;
  element_size = 4;
  datatype = Datatype.datatype_float32;
  endianness = 0;
  index_meta = record { index_form = IndexForm.inverted_index; index_bin_start_offsets = [] };
}

abbrev low_bits : ℕ → ℕ
low_bits x = x % 2 ^ 24

floats-IsStored : IsStored floats low_bits three_bins
unfolding reconst_elem high_mask insig_bytes_ceil rows_of is_element_size
floats-IsStored = record {
  layout = (refl, refl, (refl, refl, (refl, refl, refl)));
  bin_values = refl;
  how_many = refl;
  kept = (
    ((refl, omega arith, omega arith, omega arith), tt),
    (
      (
        (refl, omega arith, omega arith, omega arith),
        ((refl, omega arith, omega arith, omega arith), tt),
      ),
      (((refl, omega arith, omega arith, omega arith), tt), tt),
    ),
  );
  small = omega arith;
  few = omega arith;
  size_known = refl;
  inverted = refl;
}

floats-IsAnswerable : IsAnswerable floats 7 0x3f40_0000 0x4040_0000 three_bins
unfolding key is_nan infinity
floats-IsAnswerable = record {
  float = inr (refl, refl);
  bits = refl;
  some_low = omega arith;
  ordered = ground arith;
  distinct = ground arith;
  in_bins = ground arith;
  lb_number = refl;
  ub_number = refl;
  lb_apart = ground arith;
  ub_apart = ground arith;
}

-- A store that has these bins.
abbrev some_groups : ℕ → ℕ → List Group
some_groups low_bin hi_bin = take (hi_bin - low_bin) (drop low_bin three_bins)

abbrev read_data : ℕ → ℕ → Option (List ℕ)
read_data low_bin hi_bin =
    some (array_bytes 3 (lows_of (bins_of floats low_bits (some_groups low_bin hi_bin))))

abbrev read_ids : ℕ → ℕ → Option (List ℕ)
read_ids low_bin hi_bin = some (array_bytes 4 (row_ids (rows_of (some_groups low_bin hi_bin))))

touched_groups :
    (before touched behind : List Group)
    → three_bins ≡ before ++ (touched ++ behind)
    → some_groups (length before) (length before + length touched) ≡ touched
touched_groups before touched behind parts =
    let count : length before + length touched - length before ≡ length touched = omega arith in
    ap (λ gs. take (length before + length touched - length before) (drop (length before) gs)) parts
    ∙ rw (count, drop_append (length before) before (touched ++ behind) refl)
        (take_append (length touched) touched behind refl)

abbrev zeros : ℕ → List ℕ
zeros n = replicate n 0

partition_result-selected_example :
    (r : QueryResult) × (partition_result floats read_data read_ids
        (record { lb = 0x3f40_0000; ub = 0x4040_0000; query_type = QueryType.value_retrieval })
        zeros
      ≡ some r)
    × (r.result_count ≡ length (selected (in_query 4 0x3f40_0000 0x4040_0000) (rows_of three_bins)))
    × (take (length (selected (in_query 4 0x3f40_0000 0x4040_0000) (rows_of three_bins))) r.values
        ≡ values (selected (in_query 4 0x3f40_0000 0x4040_0000) (rows_of three_bins)))
    × (take (length (selected (in_query 4 0x3f40_0000 0x4040_0000) (rows_of three_bins))) r.rids
        ≡ row_ids (selected (in_query 4 0x3f40_0000 0x4040_0000) (rows_of three_bins)))
unfolding insig_bytes_ceil
partition_result-selected_example =
    partition_result-selected floats 7 0x3f40_0000 0x4040_0000 three_bins floats-IsAnswerable
      low_bits floats-IsStored read_data read_ids
      (λ before touched behind parts.
        ap (λ gs. some (array_bytes 3 (lows_of (bins_of floats low_bits gs))))
          (touched_groups before touched behind parts))
      (λ before touched behind parts.
        ap (λ gs. some (array_bytes 4 (row_ids (rows_of gs))))
          (touched_groups before touched behind parts))
      zeros (λ n. length-replicate n 0)

-- What the query gives.
asked_rows :
    selected (in_query 4 0x3f40_0000 0x4040_0000) (rows_of three_bins)
    ≡ (1, 0x3f80_0000) ∷ (2, 0x4000_0000) ∷ []
unfolding selected rows_of in_query float_leb float_ltb is_nan infinity key
asked_rows = refl

abbrev last_two : List Bin
last_two = bins_of floats low_bits (drop 1 three_bins)

abbrev whole_bins : List Bin
whole_bins = (0x3f, 0x3f80_0000 ∷ 0x3f00_0000 ∷ []) ∷ (0x40, 0x4000_0000 ∷ []) ∷ []

read_and_reconstitute_data-split_bins_example :
    read_and_reconstitute_data floats read_data 1 3 false zeros
    ≡ some (array_bytes 4 (0x3f80_0000 ∷ 0x3f00_0000 ∷ 0x4000_0000 ∷ []), 3)
unfolding insig_bytes_ceil is_datum_size lows_of rows_of split_bins elements_in high_part stored
    low_part
read_and_reconstitute_data-split_bins_example =
    read_and_reconstitute_data-split_bins floats refl (omega arith) (omega arith) read_data 1 1
      whole_bins zeros (omega arith)
      (((omega arith, refl), ((omega arith, refl), tt)), (((omega arith, refl), tt), tt))
      (refl, refl, (refl, refl, refl)) (λ n. length-replicate n 0) (omega arith) (omega arith) refl

abbrev first_of : Bin
first_of = (0xc0, 0 ∷ [])

abbrev middle_of : List Bin
middle_of = (0x3f, 0x80_0000 ∷ 0 ∷ []) ∷ []

abbrev last_of : Bin
last_of = (0x40, 0 ∷ [])

read_and_reconstitute_data-end_bins_example :
    (kept : List ℕ) × (read_and_reconstitute_data floats read_data 0 3 true zeros
      ≡ some (
        array_bytes 4 (elements_of floats (first_of ∷ []))
            ++ (kept ++ array_bytes 4 (elements_of floats (last_of ∷ []))),
        4,
      ))
    × (length kept ≡ 8)
unfolding insig_bytes_ceil is_element_size lows_of rows_of
read_and_reconstitute_data-end_bins_example =
    read_and_reconstitute_data-end_bins floats refl read_data 0 0 first_of last_of middle_of zeros
      (refl, refl, (refl, refl, (refl, refl, refl))) (omega arith) (omega arith) (omega arith)
      (λ n. length-replicate n 0) (omega arith) (omega arith) refl refl

abbrev middle_rows : List Row
middle_rows = (1, 0x3f80_0000) ∷ (3, 0x3f00_0000) ∷ []

trim_query_results_template-many_example :
    (r : QueryResult) × (trimmed : ℕ) × (trim_query_results_template
        (in_query 4 0 0x7f00_0000)
        floats
        0
        3
        (record {
          result_count = 4;
          rids = 0 ∷ 1 ∷ 3 ∷ 2 ∷ [];
          values = 0xc000_0000 ∷ 0x3f80_0000 ∷ 0x3f00_0000 ∷ 0x4000_0000 ∷ [];
        })
      ≡ some (r, trimmed))
    × IsTrimmedTo
        (selected (in_query 4 0 0x7f00_0000) ((0, 0xc000_0000) ∷ [])
          ++ (middle_rows ++ selected (in_query 4 0 0x7f00_0000) ((2, 0x4000_0000) ∷ [])))
        4
        r
        trimmed
trim_query_results_template-many_example =
    trim_query_results_template-many floats (in_query 4 0 0x7f00_0000) 0 0
      (record {
        result_count = 4;
        rids = 0 ∷ 1 ∷ 3 ∷ 2 ∷ [];
        values = 0xc000_0000 ∷ 0x3f80_0000 ∷ 0x3f00_0000 ∷ 0x4000_0000 ∷ [];
      })
      (omega arith) (omega arith) 3 ((0, 0xc000_0000) ∷ []) middle_rows ((2, 0x4000_0000) ∷ [])
      (omega arith) refl refl refl refl (omega arith) refl refl refl

-- The values of three bins, of which the first two are those of the two zeros. From 2^-141 on, the
-- second value, 5 * 2^-149, is not asked for; it stands in a bin that is not trimmed.
abbrev zero_bins : Metadata
zero_bins = record floats {
  partition_length = 3;
  bin_layout = record {
    num_bins = 3;
    bin_values = 0x80 ∷ 0x00 ∷ 0x3f ∷ [];
    bin_start_offsets = 0 ∷ 1 ∷ 2 ∷ 3 ∷ [];
  };
}

zero_bins_untrimmed :
    partition_result zero_bins
      (λ low_bin hi_bin. some (1 ∷ 0 ∷ 0 ∷ 5 ∷ 0 ∷ 0 ∷ 0 ∷ 0 ∷ 128 ∷ []))
      (λ low_bin hi_bin. some (array_bytes 4 (0 ∷ 1 ∷ 2 ∷ [])))
      (record { lb = 0x100; ub = 0x4000_0000; query_type = QueryType.value_retrieval })
      zeros
    ≡ some (record { result_count = 2; rids = 1 ∷ 2 ∷ []; values = 5 ∷ 0x3f80_0000 ∷ [] })
unfolding insig_bytes_ceil is_element_size high_mask reconst_elem in_query float_leb float_ltb
    is_nan infinity key le_bytes from_le array_bytes read_bytes write_bytes elements
    conv_neg_1c_to_2c conv_1c_to_2c find_start_neg find_start_pos continue_start find_start
    find_end_neg find_end_pos end_or continue_end find_end check_range search_from search_bins
    find_bin_range_1c_template find_bin_range_1c reconstitute_bin reconstitute_bins
    reconstitute_data read_and_expand read_end_bins read_and_reconstitute_data put trim_first
    trim_last trim_query_results_template trim_by_type trim_query_results clear_query_result
    is_compressed_inverted read_index candidate_check results_for touched_results results_or_none
    partition_result
zero_bins_untrimmed = refl
