-- ===== src/Uniquery/FloatOrder.antt =====
-- The comparisons of C's float and double, as IEEE 754 defines them, on the bits of numbers of 4 or
-- 8 bytes: the highest bit is a sign, the others are a magnitude, and what lies above the bits of
-- infinity is not a number, for which every comparison is false.
use alacrity_adios.Prelude.{ℕ, ◌*◌, ◌-◌, ◌%◌, ◌^◌, Bool, ltb, leb, ◌==◌, not, ◌&&◌, if◌then◌else◌}
use alacrity_adios.Uniquery.BinRange.Signs.{key}

unfoldable pub infinity : ℕ → ℕ
infinity elem_size = if elem_size == 8 then 0x7ff0_0000_0000_0000 else 0x7f80_0000

abbrev pub sign_bit : ℕ → ℕ
sign_bit elem_size = 2 ^ (8 * elem_size - 1)

unfoldable pub is_nan : ℕ → ℕ → Bool
is_nan elem_size x = ltb (infinity elem_size) (x % sign_bit elem_size)

-- Numbers on a line: zero, with either sign, lies at the sign bit.
abbrev pub place : ℕ → ℕ → ℕ
place elem_size x = key (sign_bit elem_size) (sign_bit elem_size) x

unfoldable pub float_leb : ℕ → ℕ → ℕ → Bool
float_leb elem_size a b =
    not (is_nan elem_size a)
    && (not (is_nan elem_size b) && leb (place elem_size a) (place elem_size b))

unfoldable pub float_ltb : ℕ → ℕ → ℕ → Bool
float_ltb elem_size a b =
    not (is_nan elem_size a)
    && (not (is_nan elem_size b) && ltb (place elem_size a) (place elem_size b))

-- `val >= lb && val < ub`
unfoldable pub in_query : ℕ → ℕ → ℕ → ℕ → Bool
in_query elem_size lb ub val = float_leb elem_size lb val && float_ltb elem_size val ub
