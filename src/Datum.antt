-- ===== src/Datum.antt =====
-- The macros of src/include/alacrity-util.h that split an element into its high-order bits, which
-- select its bin, and its low-order bits, which are stored, and that join the two again.
-- SPLIT_DATUM_BITS and REJOIN_DATUM_BITS switch on the size of an element in bytes; the helper
-- macros take the C type that the switch picks, here by that size.
pub mod RoundTrip
use alacrity_adios.Prelude.{
  ℕ, ◌+◌, ◌*◌, ◌-◌, ◌/◌, ◌%◌, ◌^◌, Bool, ◌||◌, ◌==◌, u32, u64, bit_and, bit_or,
}

-- The cases of the switches. On other sizes the macros leave their outputs as they were, which in
-- the encoders and the decoders means uninitialised.
unfoldable pub is_datum_size : ℕ → Bool
is_datum_size elem_size = elem_size == 2 || (elem_size == 4 || elem_size == 8)

-- `(sizeof(elem_ctype) << 3) - _sigbits`
abbrev pub insig_bits : ℕ → ℕ → ℕ
insig_bits elem_size sigbits = elem_size * 2 ^ 3 - sigbits

-- `~0ULL >> _sigbits`
abbrev pub low_mask : ℕ → ℕ
low_mask sigbits = (2 ^ 64 - 1) / 2 ^ sigbits

-- `highvar = _tmp >> _insigbits`, where the variable has 32 bits.
unfoldable pub high_part : ℕ → ℕ → ℕ → ℕ
high_part elem_size sigbits datum = u32 (datum / 2 ^ insig_bits elem_size sigbits)

-- `lowvar = _tmp & (~0ULL >> _sigbits)`: for elements below 64 bits this leaves high bits in.
unfoldable pub low_part : ℕ → ℕ → ℕ
low_part sigbits datum = bit_and datum (low_mask sigbits)

-- What SET_BUFFER_ELEMENT stores of a value and GET_BUFFER_ELEMENT reads back: the low bytes.
unfoldable pub stored : ℕ → ℕ → ℕ
stored insigbytes low = low % 256 ^ insigbytes

-- REJOIN_DATUM_BITS_HELPER; both assignments cut off at the size of the element.
unfoldable pub rejoin_datum_bits : ℕ → ℕ → ℕ → ℕ → ℕ
rejoin_datum_bits elem_size sigbits high low =
    let tmp = u64 (high * 2 ^ insig_bits elem_size sigbits) % 256 ^ elem_size in
    bit_or tmp (bit_and low (low_mask sigbits)) % 256 ^ elem_size
