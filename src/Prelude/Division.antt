-- ===== src/Prelude/Division.antt =====
-- Quotients and remainders by a variable: the quotient and the remainder are determined by their
-- sum, and what that gives for powers of two.
use Prim.Native.Nat.{ℕ, suc, ◌+◌, ◌*◌, ◌/◌, ◌%◌, ◌^◌, ◌<◌}
use mathlib.Core.Path.{◌≡◌, refl, sym, ap, ◌∙◌}
use Prim.Native.Nat.{zero, ◌≤◌}
use native.Mathlib.Nat.{mul-add-div_right, div-eq_of_lt, mod-lt, div-add-mod', pow-suc, one-le-pow}
use native.Mathlib.Nat.{mul-div_cancel, mul-le-mul_right}
use alacrity_adios.Prelude.Tests.{u32}
use native.Mathlib.Nat.{mod-eq-sub-div-mul, mod-eq_of_lt, add-zero, pow-le-pow_right}
use native.Mathlib.Omega.{arith}

pub div_of_parts : (n q r d : ℕ) → n ≡ q * d + r → r < d → n / d ≡ q
div_of_parts n q r d e h =
    let p : 0 < d = omega arith in rw e (omega (arith, mul-add-div_right p q r, div-eq_of_lt h))

pub mod_of_parts : (n q r d : ℕ) → n ≡ q * d + r → r < d → n % d ≡ r
mod_of_parts n q r d e h =
    omega (arith, mod-eq-sub-div-mul n d, ap (λ (t : ℕ). t * d) (div_of_parts n q r d e h))

-- Dividing once by 2 takes the lowest digit off the quotient and the remainder by 2^(m + 1).
module _ (x m : ℕ) where
  halved : x ≡ x / 2 / 2 ^ m * 2 ^ suc m + (x / 2 % 2 ^ m * 2 + x % 2)
  halved = omega (
    arith,
    pow-suc 2 m,
    ap (λ (t : ℕ). x / 2 / 2 ^ m * t) (pow-suc 2 m),
    div-add-mod' (x / 2) (2 ^ m),
  )

  halved_small : x / 2 % 2 ^ m * 2 + x % 2 < 2 ^ suc m
  halved_small = omega (arith, pow-suc 2 m, mod-lt (x / 2) (one-le-pow m 2 (omega arith)))

  pub mod_two_pow_suc : x % 2 ^ suc m ≡ x / 2 % 2 ^ m * 2 + x % 2
  mod_two_pow_suc = mod_of_parts x _ _ _ halved halved_small

  pub div_two_pow_suc : x / 2 ^ suc m ≡ x / 2 / 2 ^ m
  div_two_pow_suc = div_of_parts x _ _ _ halved halved_small

pub two_pow_add : (a b : ℕ) → 2 ^ (a + b) ≡ 2 ^ a * 2 ^ b
two_pow_add a zero = rw add-zero (omega arith)
two_pow_add a (suc b) =
    let e : a + suc b ≡ suc (a + b) = omega arith in
    rw e (
      omega (
        arith,
        pow-suc 2 (a + b),
        pow-suc 2 b,
        two_pow_add a b,
        ap (λ (t : ℕ). 2 ^ a * t) (pow-suc 2 b),
      ))

pub two_pow_mono : (a b : ℕ) → a ≤ b → 2 ^ a ≤ 2 ^ b
two_pow_mono a b h = pow-le-pow_right {n = 2} (omega arith) h

pub pow_256 : (w : ℕ) → 256 ^ w ≡ 2 ^ (8 * w)
pow_256 zero = refl
pow_256 (suc w) =
    let e : 8 * suc w ≡ 8 * w + 8 = omega arith in
    rw e (omega (arith, two_pow_add (8 * w) 8, pow-suc 256 w, pow_256 w))

-- Cutting to more bits and then to fewer is cutting to the fewer.
pub mod_two_pow_less : (a b x : ℕ) → b ≤ a → x % 2 ^ a % 2 ^ b ≡ x % 2 ^ b
mod_two_pow_less a zero x h = omega arith
mod_two_pow_less zero (suc b) x h = absurd (omega arith)
mod_two_pow_less (suc a) (suc b) x h = omega (
  arith,
  mod_two_pow_suc x a,
  mod_two_pow_suc x b,
  mod_two_pow_suc (x % 2 ^ suc a) b,
  mod_two_pow_less a b (x / 2) (omega arith),
  ap (λ (t : ℕ). t % 2 ^ b) halves,
)
  where
    halves : x % 2 ^ suc a / 2 ≡ x / 2 % 2 ^ a
    halves = omega (arith, mod_two_pow_suc x a)

pub mod_two_pow_more : (a b x : ℕ) → a ≤ b → x % 2 ^ a % 2 ^ b ≡ x % 2 ^ a
mod_two_pow_more a b x h =
    mod-eq_of_lt (omega (arith, mod-lt x (one-le-pow a 2 (omega arith)), two_pow_mono a b h))

scaled_parts : (q a r b : ℕ) → (q * a + r) * b ≡ q * (a * b) + r * b
scaled_parts q a r b = grind arith

scaled_less : (r a b : ℕ) → r < a → 0 < b → r * b < a * b
scaled_less r a b h p = grind arith

pub mod_scaled : (d a b : ℕ) → 0 < a → 0 < b → d * b % (a * b) ≡ d % a * b
mod_scaled d a b p q =
    mod_of_parts (d * b) (d / a) (d % a * b) (a * b)
      (ap (λ t. t * b) (sym (div-add-mod' d a)) ∙ scaled_parts (d / a) a (d % a) b)
      (scaled_less (d % a) a b (mod-lt d p) q)

-- The digits from `k` on, `b` of them.
pub div_mod_two_pow : (k b x : ℕ) → x / 2 ^ k % 2 ^ b ≡ x % 2 ^ (k + b) / 2 ^ k
div_mod_two_pow zero b x =
    let one : (y : ℕ) → y / 2 ^ 0 ≡ y = λ y. omega arith in
    let e : 0 + b ≡ b = omega arith in rw e (ap (λ t. t % 2 ^ b) (one x) ∙ sym (one (x % 2 ^ b)))
div_mod_two_pow (suc k) b x =
    let e : suc k + b ≡ suc (k + b) = omega arith in
    let halves : x % 2 ^ suc (k + b) / 2 ≡ x / 2 % 2 ^ (k + b) =
      omega (arith, mod_two_pow_suc x (k + b)) in
    rw (e, div_two_pow_suc x k, div_two_pow_suc (x % 2 ^ suc (k + b)) k, halves)
      (div_mod_two_pow k b (x / 2))

-- A place among elements, from the byte where it starts, where that has 32 bits.
pub u32_place : (e i : ℕ) → 0 < e → i * e < 2 ^ 32 → u32 (i * e) / e ≡ i
u32_place e i some small =
    let all : u32 (i * e) ≡ i * e = omega (arith, small) in rw (all, mul-div_cancel i {n = e} some)

pub u32_place_below : (e n i : ℕ) → 0 < e → i < n → n * e ≤ 2 ^ 32 → u32 (i * e) / e ≡ i
u32_place_below e n i some below small =
    u32_place e i some (omega (arith, mul-le-mul_right e below, small, some))
