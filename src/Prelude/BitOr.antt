-- ===== src/Prelude/BitOr.antt =====
-- `|` at variables: its order, its bounds and where it is a sum.
use Prim.Native.Nat.{ℕ, zero, suc, ◌+◌, ◌-◌, ◌*◌, ◌/◌, ◌%◌, ◌^◌, ◌≤◌, ◌<◌, bit_or}
use mathlib.Core.Path.{◌≡◌, refl, sym, ap, ◌∙◌, ap₂}
use native.Mathlib.Nat.{pow-suc, one-le-pow}
use alacrity_adios.Prelude.Division.{div_two_pow_suc, div_of_parts, mod_of_parts}
use alacrity_adios.Prelude.Bits.{or_digit, or_high_low}
use native.Mathlib.Omega.{arith}

or_comm_upto : (n a b : ℕ) → a ≤ n → b ≤ n → bit_or a b ≡ bit_or b a
or_comm_upto zero a b p q = let x : a ≡ 0 = omega arith in let y : b ≡ 0 = omega arith in rw (x, y)
or_comm_upto (suc n) a b p q =
    omega (
      arith,
      or_digit a b,
      or_digit b a,
      or_comm_upto n (a / 2) (b / 2) (omega arith) (omega arith),
    )

pub or_comm : (a b : ℕ) → bit_or a b ≡ bit_or b a
or_comm a b = or_comm_upto (a + b) a b (omega arith) (omega arith)

le_or_upto : (n a b : ℕ) → a ≤ n → a ≤ bit_or a b
le_or_upto zero a b p = omega arith
le_or_upto (suc n) a b p = omega (arith, or_digit a b, le_or_upto n (a / 2) (b / 2) (omega arith))

pub le_or : (a b : ℕ) → a ≤ bit_or a b
le_or a b = le_or_upto a a b (omega arith)

pub le_or_right : (a b : ℕ) → b ≤ bit_or a b
le_or_right a b = rw (or_comm a b) (le_or b a)

pub or-less : (k a b : ℕ) → a < 2 ^ k → b < 2 ^ k → bit_or a b < 2 ^ k
or-less zero a b p q =
    let x : a ≡ 0 = omega arith in let y : b ≡ 0 = omega arith in rw (x, y) (omega arith)
or-less (suc k) a b p q = omega (
  arith,
  pow-suc 2 k,
  or_digit a b,
  or-less k (a / 2) (b / 2) (omega (arith, pow-suc 2 k)) (omega (arith, pow-suc 2 k)),
)

-- With multiples of a power above all bits of the other, `|` is `+`.
pub or_disjoint : (k a d : ℕ) → a < 2 ^ k → bit_or a (d * 2 ^ k) ≡ d * 2 ^ k + a
or_disjoint k a d h =
    let x : ℕ = d * 2 ^ k + a in
    let q : x / 2 ^ k ≡ d = div_of_parts x d a (2 ^ k) refl h in
    let r : x % 2 ^ k ≡ a = mod_of_parts x d a (2 ^ k) refl h in
    or_comm a (d * 2 ^ k) ∙ rw (q, r) at (or_high_low k k x (omega arith))

-- Shifting right shifts both.
pub or_shift : (k a b : ℕ) → bit_or a b / 2 ^ k ≡ bit_or (a / 2 ^ k) (b / 2 ^ k)
or_shift zero a b =
    let e : (x : ℕ) → x / 2 ^ 0 ≡ x = λ x. omega arith in
    e (bit_or a b) ∙ sym (ap₂ bit_or (e a) (e b))
or_shift (suc k) a b =
    let half : bit_or a b / 2 ≡ bit_or (a / 2) (b / 2) = omega (arith, or_digit a b) in
    rw (div_two_pow_suc (bit_or a b) k, div_two_pow_suc a k, div_two_pow_suc b k, half)
      (or_shift k (a / 2) (b / 2))

-- Anything below 2^k with k ones is k ones.
pub or_ones : (k a : ℕ) → a < 2 ^ k → bit_or a (2 ^ k - 1) ≡ 2 ^ k - 1
or_ones zero a h = let x : a ≡ 0 = omega arith in rw x
or_ones (suc k) a h =
    let halves : (2 ^ suc k - 1) / 2 ≡ 2 ^ k - 1 = omega (arith, pow-suc 2 k, one-le-pow k 2) in
    let rest = or_ones k (a / 2) (omega (arith, pow-suc 2 k)) in
    omega (
      arith,
      pow-suc 2 k,
      one-le-pow k 2 (omega arith),
      or_digit a (2 ^ suc k - 1),
      ap (λ (t : ℕ). bit_or (a / 2) t) halves,
      rest,
    )
