-- ===== src/Uniquery/Query/Bounds.antt =====
-- The bounds of a query and the functions that switch on the type or the size of the elements, for
-- floats and doubles.
use alacrity_adios.Prelude.{ℕ, ◌*◌, ◌%◌, ◌^◌, ◌≡◌, refl}
use alacrity_adios.Prelude.{◌⊎◌, inl, inr}
use alacrity_adios.Types.{Datatype, Metadata}
use alacrity_adios.Uniquery.BinRange.{find_bin_range_1c, find_bin_range_1c_template}
use alacrity_adios.Uniquery.FloatOrder.{in_query}
use alacrity_adios.Uniquery.TrimBins.{QueryResult, trim_query_results, trim_query_results_template}
use alacrity_adios.Uniquery.TrimBins.{trim_by_type}
use alacrity_adios.Uniquery.Query.Segments.{}
use alacrity_adios.Uniquery.Query.Touched.{}

-- Elements that are floats or doubles.
abbrev pub IsFloat : Metadata → Type 0
IsFloat m =
    ((m.datatype ≡ Datatype.datatype_float64) × (m.element_size ≡ 8))
    ⊎ ((m.datatype ≡ Datatype.datatype_float32) × (m.element_size ≡ 4))

module _ (m : Metadata) (lb ub : ℕ) where
  abbrev pub low_bound : ℕ
  low_bound = lb % 2 ^ (8 * m.element_size)

  abbrev pub high_bound : ℕ
  high_bound = ub % 2 ^ (8 * m.element_size)

  pub find_by_size :
      IsFloat m
      → find_bin_range_1c m lb ub
        ≡ find_bin_range_1c_template (8 * m.element_size) m low_bound high_bound
  unfolding find_bin_range_1c
  find_by_size (inl (d, e)) = rw e refl
  find_by_size (inr (d, e)) = rw e refl

  pub trim_by_size :
      (s e : ℕ) (r : QueryResult)
      → IsFloat m
      → trim_query_results m lb ub s e r
        ≡ trim_query_results_template (in_query m.element_size low_bound high_bound) m s e r
  unfolding trim_query_results trim_by_type
  trim_by_size s e r (inl (d, n)) = rw d (rw n refl)
  trim_by_size s e r (inr (d, n)) = rw d (rw n refl)
