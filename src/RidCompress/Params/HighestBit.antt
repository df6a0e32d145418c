-- ===== src/RidCompress/Params/HighestBit.antt =====
-- `highest_set_bit` of src/ridcompress/patchedframeofreference.cpp and the table look-up that it
-- ends with. The products and shifts are those of 64-bit numbers.
pub mod Logarithm
use alacrity_adios.Prelude.{ℕ, zero, suc, ◌+◌, ◌-◌, ◌*◌, ◌/◌, ◌%◌, ◌^◌, Bool, true, ltb, ◌==◌, u64}
use alacrity_adios.Prelude.{bit_or, bit_xor, List, [], ◌∷◌, get_or}

abbrev de_bruijn_multiplier : ℕ
de_bruijn_multiplier = 0x022f_dd63_cc95_386d

abbrev de_bruijn_table : List ℕ
de_bruijn_table =
    0 ∷ 1 ∷ 2 ∷ 53 ∷ 3 ∷ 7 ∷ 54 ∷ 27 ∷ 4 ∷ 38 ∷ 41 ∷ 8 ∷ 34 ∷ 55 ∷ 48 ∷ 28 ∷ 62 ∷ 5 ∷ 39 ∷ 46 ∷ 44
    ∷ 42 ∷ 22 ∷ 9 ∷ 24 ∷ 35 ∷ 59 ∷ 56 ∷ 49 ∷ 18 ∷ 29 ∷ 11 ∷ 63 ∷ 52 ∷ 6 ∷ 26 ∷ 37 ∷ 40 ∷ 33 ∷ 47
    ∷ 61 ∷ 45 ∷ 43 ∷ 21 ∷ 23 ∷ 58 ∷ 17 ∷ 10 ∷ 51 ∷ 25 ∷ 36 ∷ 32 ∷ 60 ∷ 20 ∷ 57 ∷ 16 ∷ 50 ∷ 31 ∷ 19
    ∷ 15 ∷ 30 ∷ 14 ∷ 13 ∷ 12 ∷ []

unfoldable pub single_set_bit : ℕ → ℕ
single_set_bit value = get_or de_bruijn_table (u64 (value * de_bruijn_multiplier) / 2 ^ 58) 0

-- `value |= value >> k`
unfoldable pub smear : ℕ → ℕ → ℕ
smear k value = bit_or value (value / 2 ^ k)

unfoldable pub highest_set_bit : ℕ → ℕ
highest_set_bit value =
    let smeared = smear 32 (smear 16 (smear 8 (smear 4 (smear 2 (smear 1 value))))) in
    single_set_bit (bit_xor smeared (smeared / 2))
