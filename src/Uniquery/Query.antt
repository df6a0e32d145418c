-- ===== src/Uniquery/Query.antt =====
-- src/uniquery/uniquery.c: what ALQueryNextResult does with one partition, between opening and
-- closing it, and the reading of bins from the files of a store that
-- src/io/ALStorePOSIX.c does for it. A file is the list of its bytes; reading behind its end gives
-- fewer bytes, which the source does not notice. Reading the bins of a partition is an argument of the
-- query, which the source calls through a table of functions. A failed assert is `none`, and so is a
-- step that fails where the source goes on with memory that was not written.
-- pub mod Slices
pub mod Places
pub mod Matching
pub mod Segments
pub mod Selecting
pub mod Touched
pub mod Bounds
pub mod Sublists
pub mod Searched
pub mod Answer
use alacrity_adios.Prelude.{ℕ, ◌+◌, ◌*◌, ◌-◌, ◌%◌, ◌^◌, Bool, true, false, u32, u64, if◌then◌else◌}
use alacrity_adios.Prelude.{List, [], take, drop, get_elem?, Option, none, some, ◌>>=◌}
use alacrity_adios.Memory.Access.{elements}
use alacrity_adios.Types.{IndexForm, Metadata, insig_bytes_ceil}
use alacrity_adios.Convert.{convert_partial_index_form}
use alacrity_adios.Uniquery.BinRange.{find_bin_range_1c}
use alacrity_adios.Uniquery.ReadReconst.{read_and_reconstitute_data}
use alacrity_adios.Uniquery.TrimBins.{QueryResult, trim_query_results}

-- `unknown_query n` is any other value that the storage of the enum can hold.
pub data QueryType : Type 0 where
  value_retrieval region_index_only region_candidate_check : QueryType
  unknown_query : ℕ → QueryType

-- The bounds are the 64 bits of the unions that hold them.
pub record Query : Type 0 where
  pub lb : ℕ
  pub ub : ℕ
  pub query_type : QueryType

-- `ALQueryEngineStartUnivariateDoubleQuery`, with the bits of the bounds.
unfoldable pub start_double_query : ℕ → ℕ → QueryType → Query
start_double_query lval uval query_type = record { lb = lval; ub = uval; query_type = query_type }

-- `ALQueryEngineStartUnivariateFloatQuery`: the upper halves of the unions stay as they were.
unfoldable pub start_float_query : ℕ → ℕ → QueryType → Query → Query
start_float_query lval uval query_type before = record {
  lb = before.lb - before.lb % 2 ^ 32 + lval;
  ub = before.ub - before.ub % 2 ^ 32 + uval;
  query_type = query_type;
}

unfoldable pub clear_query_result : QueryResult
clear_query_result = record { result_count = 0; rids = []; values = [] }

unfoldable pub is_compressed_inverted : IndexForm → Bool
is_compressed_inverted IndexForm.compressed_inverted_index = true
is_compressed_inverted _ = false

-- ALGetIndexBinOffset of src/include/alacrity-serialization.h; where it prints an error it returns 0.
unfoldable pub index_bin_offset_for : IndexForm → Metadata → ℕ → Option ℕ
index_bin_offset_for IndexForm.inverted_index m bin =
    get_elem? m.bin_layout.bin_start_offsets bin >>= λ start. some (u64 (start * 4))
index_bin_offset_for IndexForm.compression_index m bin = some 0
index_bin_offset_for (IndexForm.unknown_form n) m bin = some 0
index_bin_offset_for _ m bin = get_elem? m.index_meta.index_bin_start_offsets bin

unfoldable pub get_index_bin_offset : Metadata → ℕ → Option ℕ
get_index_bin_offset m bin = index_bin_offset_for m.index_meta.index_form m bin

-- ALPartitionStoreReadDataBinsPOSIX, from a partition whose data begin at `data_offset`.
unfoldable pub read_data_bins_posix : List ℕ → ℕ → Metadata → ℕ → ℕ → Option (List ℕ)
read_data_bins_posix datafp data_offset m low_bin hi_bin =
    let insigbytes = insig_bytes_ceil m.element_size m.significant_bits in
    get_elem? m.bin_layout.bin_start_offsets low_bin >>= λ low_start.
    get_elem? m.bin_layout.bin_start_offsets hi_bin >>= λ hi_start.
    let first_bin_off = u64 (data_offset + u32 (low_start * insigbytes)) in
    let last_bin_off = u64 (data_offset + u32 (hi_start * insigbytes)) in
    some (take (u64 (last_bin_off + 2 ^ 64 - first_bin_off)) (drop first_bin_off datafp))

-- ALPartitionStoreReadIndexBinsPOSIX, of a store that is not of the legacy format.
unfoldable pub read_index_bins_posix : List ℕ → ℕ → Metadata → ℕ → ℕ → Option (List ℕ)
read_index_bins_posix iindexfp index_offset m low_bin hi_bin =
    get_index_bin_offset m low_bin >>= λ low_off. get_index_bin_offset m hi_bin >>= λ hi_off.
    let first_bin_off = u64 (index_offset + low_off) in
    let last_bin_off = u64 (index_offset + hi_off) in
    some (take (u64 (last_bin_off + 2 ^ 64 - first_bin_off)) (drop first_bin_off iindexfp))

module _ (m : Metadata) (read_data_bins read_index_bins : ℕ → ℕ → Option (List ℕ)) where
  unfoldable pub read_index : ℕ → ℕ → Option (List ℕ)
  read_index start_bin end_bin = read_index_bins start_bin end_bin >>= λ index.
      if is_compressed_inverted m.index_meta.index_form
      then (convert_partial_index_form m index IndexForm.inverted_index start_bin end_bin >>= λ c.
          some c.index)
      else some index

  -- The data of the touched bins, read and trimmed; `malloc` gives the content of the buffer for them.
  unfoldable pub candidate_check :
      Query → ℕ → ℕ → Bool → (ℕ → List ℕ) → ℕ → List ℕ → Option QueryResult
  candidate_check query start_bin end_bin end_bins_only malloc result_count rids =
      read_and_reconstitute_data m read_data_bins start_bin end_bin end_bins_only malloc
      >>= λ (buffer, count). elements m.element_size result_count buffer >>= λ values.
          trim_query_results m query.lb query.ub start_bin end_bin
            (record { result_count = result_count; rids = rids; values = values })
          >>= λ (result, trimmed). some result

  -- By the type of the query.
  unfoldable pub results_for :
      QueryType → Query → ℕ → ℕ → (ℕ → List ℕ) → ℕ → List ℕ → Option QueryResult
  results_for QueryType.region_index_only query start_bin end_bin malloc result_count rids =
      some (record { result_count = result_count; rids = rids; values = [] })
  results_for QueryType.region_candidate_check query start_bin end_bin malloc result_count rids =
      candidate_check query start_bin end_bin true malloc result_count rids >>= λ result.
      some (record result { values = [] })
  results_for QueryType.value_retrieval query start_bin end_bin malloc result_count rids =
      candidate_check query start_bin end_bin false malloc result_count rids
  results_for (QueryType.unknown_query n) query start_bin end_bin malloc result_count rids = none

  unfoldable pub touched_results : Query → (ℕ → List ℕ) → ℕ × ℕ → Option QueryResult
  touched_results query malloc (start_bin, end_bin) =
      get_elem? m.bin_layout.bin_start_offsets end_bin >>= λ end_off.
      get_elem? m.bin_layout.bin_start_offsets start_bin >>= λ start_off.
      let result_count = u32 (end_off + 2 ^ 32 - start_off) in
      read_index start_bin end_bin >>= λ index. elements 4 result_count index >>= λ rids.
      results_for query.query_type query start_bin end_bin malloc result_count rids

  unfoldable pub results_or_none : Query → (ℕ → List ℕ) → Option (ℕ × ℕ) → Option QueryResult
  unfolding clear_query_result
  results_or_none query malloc none = some clear_query_result
  results_or_none query malloc (some range) = touched_results query malloc range

  unfoldable pub partition_result : Query → (ℕ → List ℕ) → Option QueryResult
  partition_result query malloc =
      results_or_none query malloc (find_bin_range_1c m query.lb query.ub)
