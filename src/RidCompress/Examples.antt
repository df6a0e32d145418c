-- ===== src/RidCompress/Examples.antt =====
-- Concrete runs of the compression of row ids, and the theorems at concrete inputs.
use alacrity_adios.Prelude.{ℕ, zero, suc, ◌*◌, ◌^◌, ◌≤◌, ◌<◌, ◌≡◌, refl, arith, List, [], ◌∷◌, ◌++◌}
use alacrity_adios.Prelude.{some, length, replicate, All}
use alacrity_adios.RidCompress.FixedLength.{fixed_length_encode, fixed_length_decode}
use alacrity_adios.RidCompress.FixedLength.RoundTrip.{fixed_length_decode-fixed_length_encode}
use alacrity_adios.RidCompress.Exceptions.{ExceptionType, ValueType, value_type}
use alacrity_adios.RidCompress.Header.{Header, read, write}
use alacrity_adios.RidCompress.Header.RoundTrip.{IsHeader, as_read, read-write}
use alacrity_adios.RidCompress.Params.{optimal_param}
use alacrity_adios.RidCompress.Params.HighestBit.{highest_set_bit}
use alacrity_adios.RidCompress.Params.HighestBit.Logarithm.{highest_set_bit_lem}
use alacrity_adios.RidCompress.Params.Chosen.{IsChosen, optimal_param-IsChosen}
use alacrity_adios.RidCompress.Batch.Differences.{IsAscending, IsAbove, shift_ids}
use alacrity_adios.RidCompress.Interface.{encode_rids, decode_rids, update_rids}
use alacrity_adios.RidCompress.Interface.{decode_lists, decode_deltas}
use alacrity_adios.RidCompress.Interface.Fuel.{decode_lists_enough_fuel}
use alacrity_adios.RidCompress.Batch.{decode_new, decode_new_to_deltas}
use alacrity_adios.RidCompress.Interface.{get_sufficient_buffer_capacity}
use alacrity_adios.RidCompress.Interface.RoundTrip.{
  decode_rids-encode_rids, update_rids-encode_rids,
}
use alacrity_adios.RidCompress.Interface.RoundTrip.{encode_rids_fits, IsAscending-All}

abbrev few_ids : List ℕ
few_ids = 3 ∷ 4 ∷ 9 ∷ 100_000 ∷ []

few_ids-IsAscending : IsAscending few_ids
unfolding IsAscending IsAbove
few_ids-IsAscending = ground arith

decode_rids-encode_rids_example :
    (bytes : List ℕ) × (encode_rids few_ids ≡ some bytes) × (decode_rids bytes ≡ some few_ids)
decode_rids-encode_rids_example = decode_rids-encode_rids few_ids (omega arith) few_ids-IsAscending

update_rids-encode_rids_example :
    (bytes : List ℕ) × (encode_rids few_ids ≡ some bytes)
    × (update_rids bytes 0xffff_ffff ≡ encode_rids (shift_ids 0xffff_ffff few_ids))
update_rids-encode_rids_example =
    update_rids-encode_rids few_ids 0xffff_ffff (omega arith)
      (IsAscending-All few_ids few_ids-IsAscending)

encode_rids_fits_example :
    (bytes : List ℕ) × (encode_rids few_ids ≡ some bytes)
    × (length bytes ≤ get_sufficient_buffer_capacity 4)
encode_rids_fits_example =
    encode_rids_fits few_ids (omega arith) (omega arith)
      (IsAscending-All few_ids few_ids-IsAscending)

highest_set_bit_lem_example : highest_set_bit 100_000 ≡ 16
highest_set_bit_lem_example =
    highest_set_bit_lem 16 100_000 (omega arith) (omega arith) (omega arith)

-- A batch with one large value.
abbrev one_large : List ℕ
one_large = 100_000 ∷ replicate 127 3

all_threes : (b n : ℕ) → 3 < b → All (λ (d : ℕ). d < b) (replicate n 3)
all_threes b zero h = tt
all_threes b (suc n) h = (h, all_threes b n h)

optimal_param-IsChosen_example :
    (fixed_length : ℕ) × (t : ExceptionType) × (optimal_param one_large 128
      ≡ some (fixed_length, t))
    × IsChosen one_large fixed_length t
optimal_param-IsChosen_example =
    optimal_param-IsChosen one_large 128 refl (omega arith)
      (omega arith, all_threes (2 ^ 32) 127 (omega arith))

fixed_length_decode-fixed_length_encode_example :
    (bytes : List ℕ) × (fixed_length_encode (replicate 128 3) 3 ≡ some bytes)
    × (length bytes ≡ 16 * 3)
    × (fixed_length_decode (bytes ++ 7 ∷ []) 3 ≡ some (replicate 128 3))
fixed_length_decode-fixed_length_encode_example =
    fixed_length_decode-fixed_length_encode 3 (replicate 128 3) (7 ∷ []) (omega arith) (omega arith)
      refl (all_threes (2 ^ 3) 128 (omega arith))

abbrev some_header : Header
some_header = record {
  frame_of_reference = 70_000;
  first_exception = 128;
  significant_data_size = 5;
  fixed_length = 0;
  exception_type = ExceptionType.exception_unsigned_short;
  encoded_size = 24;
}

some_header-IsHeader : IsHeader some_header
unfolding value_type
some_header-IsHeader = record {
  frame_fits = omega arith;
  first_fits = omega arith;
  significant_fits = omega arith;
  length_fits = omega arith;
  type = ValueType.unsigned_short;
  type_known = refl;
  words = 3;
  whole = refl;
  not_empty = omega arith;
  within = omega arith;
}

read-write_example :
    (bytes : List ℕ) × (write some_header ≡ some bytes)
    × (length bytes ≡ 8)
    × ((rest : List ℕ) → read (bytes ++ rest) ≡ some (as_read some_header))
read-write_example = read-write some_header some_header-IsHeader

-- Two lists of one row id each.
abbrev two_lists : List ℕ
two_lists =
    (1 ∷ 0 ∷ 0 ∷ 0 ∷ 7 ∷ 0 ∷ 0 ∷ 0 ∷ 128 ∷ 1 ∷ 0 ∷ 3 ∷ replicate 16 0)
    ++ (1 ∷ 0 ∷ 0 ∷ 0 ∷ 9 ∷ 0 ∷ 0 ∷ 0 ∷ 128 ∷ 1 ∷ 0 ∷ 3 ∷ replicate 16 0)

decode_lists_enough_fuel_example :
    (decode_lists decode_new 60 two_lists ≡ decode_rids two_lists)
    × (decode_lists decode_new_to_deltas 60 two_lists ≡ decode_deltas two_lists)
decode_lists_enough_fuel_example = decode_lists_enough_fuel two_lists 60 (omega arith)
