-- ===== src/Prelude/Bits.antt =====
-- `&` and `|` at variables, as arithmetic. The native operations mean a recursion on the binary
-- digits with a count of digits to go; the count is dropped here.
use Prim.Native.Nat.{
  ℕ, zero, suc, ◌+◌, ◌-◌, ◌*◌, ◌/◌, ◌%◌, ◌^◌, ◌≤◌, min, max, bit_and, bit_or, bit_xor, differ,
  bit_xor-bitwise,
}
use Prim.Native.Nat.{digits, bitwise, bit_and-bitwise, bit_or-bitwise}
use mathlib.Core.Path.{◌≡◌, refl, ap, ◌∙◌}
use native.Mathlib.Nat.{pow-suc, one-le-pow, zero-mod}
use alacrity_adios.Prelude.Division.{mod_two_pow_suc, div_two_pow_suc}
use native.Mathlib.Omega.{arith}

module _ (rest : ℕ → ℕ) (op : ℕ → ℕ → ℕ) where
  -- A count of digits that is enough may as well be one more, or any number more.
  spare_digit : (a b n : ℕ) → a ≤ n → digits rest op (suc n) a b ≡ digits rest op n a b
  spare_digit zero b zero h = refl
  spare_digit zero b (suc n) h = refl
  spare_digit (suc a) b zero h = absurd (omega arith)
  spare_digit (suc a) b (suc n) h =
      let halves = spare_digit (suc a / 2) (b / 2) n (omega arith) in omega (arith, halves)

  spare_digits : (k a b n : ℕ) → a ≤ n → digits rest op (k + n) a b ≡ digits rest op n a b
  spare_digits zero a b n h = let e : 0 + n ≡ n = omega arith in rw e
  spare_digits (suc k) a b n h =
      let e : suc k + n ≡ suc (k + n) = omega arith in
      rw e (spare_digit a b (k + n) (omega arith) ∙ spare_digits k a b n h)

  -- The lowest digit apart, if running out of digits is no exception.
  lowest_apart :
      ((y : ℕ) → rest y ≡ op 0 (y % 2) + 2 * rest (y / 2))
      → (a b : ℕ) → bitwise rest op a b ≡ op (a % 2) (b % 2) + 2 * bitwise rest op (a / 2) (b / 2)
  lowest_apart h zero b = h b
  lowest_apart h (suc a) b =
      let half = suc a / 2 in
      let count : a - half + half ≡ a = omega arith in
      let enough = spare_digits (a - half) half (b / 2) half (omega arith) in
      let fewer = rw count at enough in omega (arith, fewer)

pub or_digit : (a b : ℕ) → bit_or a b ≡ max (a % 2) (b % 2) + 2 * bit_or (a / 2) (b / 2)
or_digit a b = simp bit_or-bitwise (lowest_apart (λ y. y) max (λ y. omega arith) a b)

pub and_digit : (a b : ℕ) → bit_and a b ≡ min (a % 2) (b % 2) + 2 * bit_and (a / 2) (b / 2)
and_digit a b = simp bit_and-bitwise (lowest_apart (λ y. 0) min (λ y. omega arith) a b)

pub xor_digit : (a b : ℕ) → bit_xor a b ≡ differ (a % 2) (b % 2) + 2 * bit_xor (a / 2) (b / 2)
xor_digit a b = simp bit_xor-bitwise (lowest_apart (λ y. y) differ (λ y. omega arith) a b)

no_digits : (n a : ℕ) → digits (λ y. 0) min n a 0 ≡ 0
no_digits zero a = refl
no_digits (suc n) zero = refl
no_digits (suc n) (suc a) = omega (arith, no_digits n (suc a / 2))

pub bit_and-zero : (a : ℕ) → bit_and a 0 ≡ 0
bit_and-zero a = simp bit_and-bitwise (no_digits a a)

-- `a & (2^k - 1)` is the remainder by 2^k.
pub bit_and_mask : (k a : ℕ) → bit_and a (2 ^ k - 1) ≡ a % 2 ^ k
bit_and_mask zero a = omega (arith, bit_and-zero a)
bit_and_mask (suc k) a = ground (
  arith,
  and_digit a (2 ^ suc k - 1),
  pow-suc 2 k,
  one-le-pow k 2 (omega arith),
  bit_and_mask k (a / 2),
  mod_two_pow_suc a k,
)

-- `x` or'ed with some of its own low bits is `x`.
own_bits_below : (n m x : ℕ) → x ≤ n → bit_or x (x % 2 ^ m) ≡ x
own_bits_below n m zero h = rw zero-mod refl
own_bits_below zero m (suc x) h = absurd (omega arith)
own_bits_below (suc n) zero (suc x) h =
    ground (arith, or_digit (suc x) (suc x % 2 ^ 0), own_bits_below n zero (suc x / 2))
own_bits_below (suc n) (suc m) (suc x) h = ground (
  arith,
  or_digit (suc x) (suc x % 2 ^ suc m),
  mod_two_pow_suc (suc x) m,
  own_bits_below n m (suc x / 2),
)

-- The bits of `x` from `k` up, or'ed with its bits below `m`, where these reach up to bit `k`
-- or past it, are `x`.
pub or_high_low : (k m x : ℕ) → k ≤ m → bit_or (x / 2 ^ k * 2 ^ k) (x % 2 ^ m) ≡ x
or_high_low zero m x h = ground (arith, own_bits_below x m x)
or_high_low (suc k) zero x h = absurd (omega arith)
or_high_low (suc k) (suc m) x h = ground (
  arith,
  or_digit (x / 2 ^ suc k * 2 ^ suc k) (x % 2 ^ suc m),
  mod_two_pow_suc x m,
  div_two_pow_suc x k,
  ap (λ (t : ℕ). x / 2 / 2 ^ k * t) (pow-suc 2 k),
  or_high_low k m (x / 2),
)
