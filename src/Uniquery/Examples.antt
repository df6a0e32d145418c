-- ===== src/Uniquery/Examples.antt =====
-- A layout of all four bins of two bits, -1, -0, +0 and +1, searched for the values from -1 to 0.
use alacrity_adios.Prelude.{ℕ, ◌-◌, ◌^◌, ◌<◌, ◌≤◌, ◌≡◌, refl, arith, [], ◌∷◌, none, some, ◌⊎◌}
use alacrity_adios.Types.{BinLayout}
use alacrity_adios.Encode.{count_up}
use alacrity_adios.Uniquery.BinRange.{search_bins}
use alacrity_adios.Uniquery.BinRange.Signs.{key}
use alacrity_adios.Uniquery.BinRange.Search.{IsOrdered, place, lower, upper}
use alacrity_adios.Uniquery.BinRange.Range.{matching, search_bins-matching}

abbrev four_bins : BinLayout
four_bins = record {
  num_bins = 4;
  bin_values = 3 ∷ 2 ∷ 0 ∷ 1 ∷ [];
  bin_start_offsets = 0 ∷ 1 ∷ 2 ∷ 3 ∷ 4 ∷ [];
}

four_bins-IsOrdered : IsOrdered 32 1 four_bins.bin_values
unfolding key
four_bins-IsOrdered = (
  omega arith,
  (
    (
      ((λ h. omega arith), omega arith),
      (((λ h. omega arith), omega arith), (((λ h. omega arith), omega arith), tt)),
    ),
    (
      omega arith,
      (
        (((λ h. omega arith), omega arith), (((λ h. omega arith), omega arith), tt)),
        (omega arith, ((((λ h. omega arith), omega arith), tt), (omega arith, (tt, tt)))),
      ),
    ),
  ),
)

search_bins-matching_example :
    ((search_bins 32 2 (2 ^ 32 - 1) 0 four_bins ≡ none)
      × (matching
            (place 32 1 (omega arith) (2 ^ 32 - 1) 0)
            (lower 32 1 (omega arith) (2 ^ 32 - 1) 0)
            (upper 32 1 (omega arith) (2 ^ 32 - 1) 0)
            four_bins.bin_values
            0
          ≡ []))
    ⊎ ((start_bin : ℕ) × (end_bin : ℕ) × (search_bins 32 2 (2 ^ 32 - 1) 0 four_bins
          ≡ some (start_bin, end_bin))
        × (start_bin < end_bin)
        × (end_bin ≤ 4)
        × (matching
              (place 32 1 (omega arith) (2 ^ 32 - 1) 0)
              (lower 32 1 (omega arith) (2 ^ 32 - 1) 0)
              (upper 32 1 (omega arith) (2 ^ 32 - 1) 0)
              four_bins.bin_values
              0
            ≡ count_up (end_bin - start_bin) start_bin))
search_bins-matching_example =
    search_bins-matching 32 1 (omega arith) (2 ^ 32 - 1) 0 four_bins refl four_bins-IsOrdered
