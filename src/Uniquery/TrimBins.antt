-- ===== src/Uniquery/TrimBins.antt =====
-- src/uniquery/trimbins.templates.cc: of the values of the first and of the last bin of a result, and
-- of their row ids, those that the query does not ask for are taken out, in place. The pointers into
-- the two arrays of the result are the lists from there on, a null pointer is the empty list.
pub mod Loops
pub mod Trimmed
use alacrity_adios.Prelude.{
  ℕ, zero, suc, ◌+◌, ◌*◌, ◌/◌, ◌-◌, ◌%◌, ◌^◌, u32, u64, Bool, ltb, ◌==◌, ◌&&◌,
}
use alacrity_adios.Prelude.{
  if◌then◌else◌, List, get_elem?, set, drop, length, Option, none, some, ◌>>=◌,
}
use alacrity_adios.Types.{Metadata, Datatype}
use alacrity_adios.Uniquery.FloatOrder.{in_query}

-- `ALUnivariateQueryResult` without the pointers that are freed in the end; `values` is `data`, as
-- an array of the elements' type.
pub record QueryResult : Type 0 where
  pub result_count : ℕ
  pub rids : List ℕ
  pub values : List ℕ

-- The arrays and the offset that the next value that is kept is written before or to.
pub record Trimming : Type 0 where
  pub trimmed_off : ℕ
  pub rids : List ℕ
  pub values : List ℕ

-- `dataPtr[off] = val` and the same for its row id.
unfoldable pub put : ℕ → ℕ → ℕ → Trimming → Option Trimming
put off val rid t =
    if ltb off (length t.values) && ltb off (length t.rids)
    then some (record t { rids = set t.rids off rid; values = set t.values off val })
    else none

module _ (keep : ℕ → Bool) where
  -- The loop over the first bin, backwards; `count` elements are left.
  unfoldable pub trim_first : ℕ → Trimming → Option Trimming
  trim_first zero t = some t
  trim_first (suc count) t = get_elem? t.values count >>= λ val.
      (if keep val
        then (get_elem? t.rids count >>= λ rid.
            put (t.trimmed_off - 1) val rid (record t { trimmed_off = t.trimmed_off - 1 }))
        else some t)
      >>= trim_first count

  -- The loop over the last bin, from `input_off` on; `count` elements are left.
  unfoldable pub trim_last : ℕ → ℕ → Trimming → Option Trimming
  trim_last zero input_off t = some t
  trim_last (suc count) input_off t = get_elem? t.values input_off >>= λ val.
      (if keep val
        then (get_elem? t.rids input_off >>= λ rid. put t.trimmed_off val rid t >>= λ t.
            some (record t { trimmed_off = t.trimmed_off + 1 }))
        else some t)
      >>= trim_last count (input_off + 1)

  -- The result and the number of values that were taken out. `result->data.asChar` moves by bytes, a
  -- product of 32 bits; with elements of `meta->elementSize` bytes, as `trim_by_type` asks for, these
  -- are whole elements.
  unfoldable pub trim_query_results_template :
      Metadata → ℕ → ℕ → QueryResult → Option (QueryResult × ℕ)
  trim_query_results_template m start_bin end_bin result =
      let starts = m.bin_layout.bin_start_offsets in
      get_elem? starts start_bin >>= λ start_bin_off.
      get_elem? starts (start_bin + 1) >>= λ first_end.
      get_elem? starts (end_bin - 1) >>= λ last_start. get_elem? starts end_bin >>= λ last_end.
      let first_bin_end_off = u32 (first_end + 2 ^ 32 - start_bin_off) in
      let last_bin_start_off = u32 (last_start + 2 ^ 32 - start_bin_off) in
      let last_bin_end_off = u32 (last_end + 2 ^ 32 - start_bin_off) in
      trim_first first_bin_end_off
        (record { trimmed_off = first_bin_end_off; rids = result.rids; values = result.values })
      >>= λ first.
          (if ltb 1 (end_bin - start_bin)
            then trim_last (last_bin_end_off - last_bin_start_off) last_bin_start_off
                (record first { trimmed_off = last_bin_start_off })
            else some (record first { trimmed_off = last_bin_end_off }))
          >>= λ last.
              let count = u32 (last.trimmed_off + 2 ^ 32 - first.trimmed_off) in
              let bytes = u32 (first.trimmed_off * m.element_size) in
              some (
                record {
                  result_count = count;
                  rids = drop first.trimmed_off last.rids;
                  values = drop (bytes / m.element_size) last.values;
                },
                u64 (result.result_count + 2 ^ 64 - count),
              )

-- The switch of trimQueryResults on the datatype, with the bounds as the bits of numbers of its
-- size. Elements of another size than the datatype has are `none`: the pointer to them would not move
-- by whole elements.
unfoldable pub trim_by_type :
    Datatype → Metadata → ℕ → ℕ → ℕ → ℕ → QueryResult → Option (QueryResult × ℕ)
trim_by_type Datatype.datatype_float64 m lb ub start_bin end_bin result =
    if m.element_size == 8
    then trim_query_results_template (in_query 8 (lb % 2 ^ 64) (ub % 2 ^ 64)) m start_bin end_bin
        result
    else none
trim_by_type Datatype.datatype_float32 m lb ub start_bin end_bin result =
    if m.element_size == 4
    then trim_query_results_template (in_query 4 (lb % 2 ^ 32) (ub % 2 ^ 32)) m start_bin end_bin
        result
    else none
trim_by_type _ m lb ub start_bin end_bin result = none

unfoldable pub trim_query_results :
    Metadata → ℕ → ℕ → ℕ → ℕ → QueryResult → Option (QueryResult × ℕ)
trim_query_results m lb ub start_bin end_bin result =
    trim_by_type m.datatype m lb ub start_bin end_bin result
