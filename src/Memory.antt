-- ===== src/Memory.antt =====
-- What C code sees of memory on the little-endian hosts that the code is built for: the bytes of
-- an unsigned integer of a given width, lowest first, and arrays of such integers. A byte is a
-- number below 256. The layout on big-endian hosts (the BGP branches) is not modelled.
pub mod Access
use alacrity_adios.Prelude.{ℕ, zero, suc, ◌+◌, ◌*◌, ◌/◌, ◌%◌, ◌^◌, ◌<◌, ◌≡◌, refl, arith, ap, ◌∙◌}
use alacrity_adios.Prelude.{List, [], ◌∷◌, ◌++◌, length, length-append, All}
use alacrity_adios.Prelude.Division.{mod_of_parts}
use native.Mathlib.Nat.{pow-succ', mod-eq_of_lt, div-add-mod', mod-lt, one-le-pow}

-- `*(T *) p = n` for a `w`-byte type T: the bytes that are stored.
unfoldable pub le_bytes : ℕ → ℕ → List ℕ
le_bytes zero n = []
le_bytes (suc w) n = (n % 256) ∷ le_bytes w (n / 256)

-- `*(const T *) p`: the integer whose bytes these are.
unfoldable pub from_le : List ℕ → ℕ
from_le [] = 0
from_le (b ∷ bs) = b + from_le bs * 256

pub length-le_bytes : (w n : ℕ) → length (le_bytes w n) ≡ w
unfolding le_bytes
length-le_bytes zero n = refl
length-le_bytes (suc w) n = ap suc (length-le_bytes w (n / 256))

pow_pos : (w : ℕ) → 0 < 256 ^ w
pow_pos w = one-le-pow w 256 (omega arith)

byte_split : (w n : ℕ) → n % 256 ^ suc w ≡ n / 256 % 256 ^ w * 256 + n % 256
byte_split w n =
    mod_of_parts n (n / 256 / 256 ^ w) _ _
      (omega (
        arith,
        pow-succ' 256 w,
        ap (λ (t : ℕ). n / 256 / 256 ^ w * t) (pow-succ' 256 w),
        div-add-mod' (n / 256) (256 ^ w),
      ))
      (omega (arith, pow-succ' 256 w, mod-lt (n / 256) (pow_pos w)))

-- Storing keeps the low `w` bytes of a number.
pub from_le-le_bytes_mod : (w n : ℕ) → from_le (le_bytes w n) ≡ n % 256 ^ w
unfolding le_bytes from_le
from_le-le_bytes_mod zero n = omega arith
from_le-le_bytes_mod (suc w) n = omega (arith, from_le-le_bytes_mod w (n / 256), byte_split w n)

pub from_le-le_bytes : (w n : ℕ) → n < 256 ^ w → from_le (le_bytes w n) ≡ n
from_le-le_bytes w n h = from_le-le_bytes_mod w n ∙ mod-eq_of_lt h

pub le_bytes-All : (w n : ℕ) → All (λ b. b < 256) (le_bytes w n)
unfolding le_bytes
le_bytes-All zero n = tt
le_bytes-All (suc w) n = (omega arith, le_bytes-All w (n / 256))

-- An array of `w`-byte integers in memory.
unfoldable pub array_bytes : ℕ → List ℕ → List ℕ
array_bytes w [] = []
array_bytes w (n ∷ ns) = le_bytes w n ++ array_bytes w ns

pub length-array_bytes : (w : ℕ) (ns : List ℕ) → length (array_bytes w ns) ≡ w * length ns
unfolding array_bytes
length-array_bytes w [] = omega arith
length-array_bytes w (n ∷ ns) = omega (
  arith,
  length-append (le_bytes w n) (array_bytes w ns),
  length-le_bytes w n,
  length-array_bytes w ns,
)
