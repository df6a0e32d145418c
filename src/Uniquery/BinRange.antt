-- ===== src/Uniquery/BinRange.antt =====
-- findBinRange1C of src/uniquery/findbinrange.templates.cc, for an unsigned type UT of `width`
-- bits and the signed type ST of the same size. A number of type ST is its residue modulo
-- 2^width. Each loop goes over the bin values from the shared iterator on, here the bin and the list
-- of values from it on. `return false` is `none`; what it leaves in the two output variables is not
-- modelled. Bin values are taken to fit UT, to which the source casts them. The macros
-- CONV_*_1C_TO_2C are those of src/include/alacrity-util.h.
pub mod Signs
pub mod Search
pub mod Range
use alacrity_adios.Prelude.{
  ℕ, ◌+◌, ◌*◌, ◌-◌, ◌/◌, ◌%◌, ◌^◌, Bool, ◌==◌, ltb, leb, if◌then◌else◌, ◌||◌,
}
use alacrity_adios.Prelude.{List, [], ◌∷◌, get_or, length, Option, none, some, bit_and, bit_xor}
use alacrity_adios.Types.{BinLayout, Metadata}

-- Whether the iterator stopped at a bin that was searched for, or without one.
pub data Stop : Type 0 where
  found : ℕ → List ℕ → Stop
  not_found : ℕ → List ℕ → Stop

module _ (width : ℕ) where
  -- `a <= b` on ST.
  abbrev pub signed_leb : ℕ → ℕ → Bool
  signed_leb a b = leb ((a + 2 ^ (width - 1)) % 2 ^ width) ((b + 2 ^ (width - 1)) % 2 ^ width)

  abbrev pub signed_ltb : ℕ → ℕ → Bool
  signed_ltb a b = ltb ((a + 2 ^ (width - 1)) % 2 ^ width) ((b + 2 ^ (width - 1)) % 2 ^ width)

  -- CONV_NEG_1C_TO_2C, CONV_POS_1C_TO_2C and CONV_1C_TO_2C.
  unfoldable pub conv_neg_1c_to_2c : ℕ → ℕ → ℕ
  conv_neg_1c_to_2c val signmask = (2 ^ width - bit_xor val signmask) % 2 ^ width

  abbrev pub conv_pos_1c_to_2c : ℕ → ℕ → ℕ
  conv_pos_1c_to_2c val signmask = val

  unfoldable pub conv_1c_to_2c : ℕ → ℕ → ℕ
  conv_1c_to_2c val signmask =
      if bit_and val signmask == 0
      then conv_pos_1c_to_2c val signmask
      else conv_neg_1c_to_2c val signmask

  -- The loops; `lb` and `ub` are the converted high parts of the query bounds.
  module _ (signmask lb ub : ℕ) where
    -- Loop 1: negative bins, find start bin.
    unfoldable pub find_start_neg : List ℕ → ℕ → Stop
    find_start_neg [] bin = not_found bin []
    find_start_neg (v ∷ vs) bin =
        let s_binval_hi = conv_neg_1c_to_2c v signmask in
        let later = find_start_neg vs (bin + 1) in
        if bit_and v signmask == 0
        then not_found bin (v ∷ vs)
        else if signed_leb lb s_binval_hi
        then (if signed_ltb ub s_binval_hi then not_found bin (v ∷ vs) else found bin (v ∷ vs))
        else later

    -- Loop 2: positive bins, find start bin.
    unfoldable pub find_start_pos : List ℕ → ℕ → Stop
    find_start_pos [] bin = not_found bin []
    find_start_pos (v ∷ vs) bin =
        let s_binval_hi = conv_pos_1c_to_2c v signmask in
        let later = find_start_pos vs (bin + 1) in
        if signed_leb lb s_binval_hi
        then (if signed_ltb ub s_binval_hi then not_found bin (v ∷ vs) else found bin (v ∷ vs))
        else later

    -- Loop 2 runs when loop 1 has not found the bin, and so do loops 3 and 4.
    unfoldable pub continue_start : Stop → Stop
    continue_start (found start rest) = found start rest
    continue_start (not_found cur rest) = find_start_pos rest cur

    unfoldable pub find_start : List ℕ → ℕ → Stop
    find_start vs bin = continue_start (find_start_neg vs bin)

    -- Loop 3: negative bins, find end bin.
    unfoldable pub find_end_neg : List ℕ → ℕ → Stop
    find_end_neg [] bin = not_found bin []
    find_end_neg (v ∷ vs) bin =
        let later = find_end_neg vs (bin + 1) in
        if bit_and v signmask == 0
        then not_found bin (v ∷ vs)
        else if signed_ltb ub (conv_neg_1c_to_2c v signmask)
        then found bin (v ∷ vs)
        else later

    -- Loop 4: positive bins, find end bin.
    unfoldable pub find_end_pos : List ℕ → ℕ → Stop
    find_end_pos [] bin = not_found bin []
    find_end_pos (v ∷ vs) bin =
        let later = find_end_pos vs (bin + 1) in
        if signed_ltb ub (conv_pos_1c_to_2c v signmask) then found bin (v ∷ vs) else later

    unfoldable pub end_or : ℕ → Stop → ℕ
    end_or num_bins (found bin rest) = bin
    end_or num_bins (not_found bin rest) = num_bins

    unfoldable pub continue_end : ℕ → Stop → ℕ
    continue_end num_bins (found end_bin rest) = end_bin
    continue_end num_bins (not_found cur rest) = end_or num_bins (find_end_pos rest cur)

    unfoldable pub find_end : ℕ → List ℕ → ℕ → ℕ
    find_end num_bins vs bin = continue_end num_bins (find_end_neg vs bin)

    -- The checks after the loops.
    unfoldable pub check_range : List ℕ → ℕ → ℕ → Option (ℕ × ℕ)
    check_range bin_values start_bin end_bin =
        if start_bin == end_bin
        then none
        else if signed_ltb ub (conv_1c_to_2c (get_or bin_values start_bin 0) signmask)
            || signed_ltb (conv_1c_to_2c (get_or bin_values (end_bin - 1) 0) signmask) lb
        then none
        else some (start_bin, end_bin)

    -- From where loops 1 and 2 stopped on.
    unfoldable pub search_from : BinLayout → Stop → Option (ℕ × ℕ)
    search_from bl (found start_bin rest) =
        check_range bl.bin_values start_bin (find_end bl.num_bins rest start_bin)
    search_from bl (not_found bin rest) = none

    unfoldable pub search_bins : BinLayout → Option (ℕ × ℕ)
    search_bins bl = search_from bl (find_start bl.bin_values 0)

unfoldable pub find_bin_range_1c_template : ℕ → Metadata → ℕ → ℕ → Option (ℕ × ℕ)
find_bin_range_1c_template width m query_lb query_ub =
    let insigbits = m.element_size * 2 ^ 3 - m.significant_bits in
    let signmask = 2 ^ (m.significant_bits - 1) % 2 ^ width in
    search_bins width signmask (conv_1c_to_2c width (query_lb / 2 ^ insigbits) signmask)
      (conv_1c_to_2c width (query_ub / 2 ^ insigbits) signmask) m.bin_layout

-- The switch of findBinRange1C on the element size; the bounds are read as numbers of that size.
unfoldable pub find_bin_range_1c : Metadata → ℕ → ℕ → Option (ℕ × ℕ)
find_bin_range_1c m query_lb query_ub =
    if m.element_size == 8
    then find_bin_range_1c_template 64 m (query_lb % 2 ^ 64) (query_ub % 2 ^ 64)
    else if m.element_size == 4
    then find_bin_range_1c_template 32 m (query_lb % 2 ^ 32) (query_ub % 2 ^ 32)
    else if m.element_size == 2
    then find_bin_range_1c_template 16 m (query_lb % 2 ^ 16) (query_ub % 2 ^ 16)
    else if m.element_size == 1
    then find_bin_range_1c_template 8 m (query_lb % 2 ^ 8) (query_ub % 2 ^ 8)
    else none
