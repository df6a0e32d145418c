-- ===== src/RidCompress/Params/HighestBit/Logarithm.antt =====
-- The highest bit that is set is the logarithm to the base 2, rounded down.
use alacrity_adios.Prelude.{ℕ, zero, suc, ◌+◌, ◌-◌, ◌*◌, ◌/◌, ◌^◌, ◌≤◌, ◌<◌, ◌≡◌, refl, sym, ap}
use alacrity_adios.Prelude.{
  ◌∙◌, arith, Bool, true, false, Bool-cases, inl, inr, leb, leb→le, ◌==◌, ◌&&◌,
}
use alacrity_adios.Prelude.{bit_or, bit_xor, ap₂}
use alacrity_adios.Prelude.Division.{div_of_parts, two_pow_add, div_two_pow_suc}
use alacrity_adios.Prelude.Bits.{or_digit, xor_digit}
use alacrity_adios.Prelude.BitOr.{or_comm, or_ones, or_shift, or-less, or_disjoint}
use alacrity_adios.RidCompress.Params.HighestBit.{single_set_bit, smear, highest_set_bit}
use mathlib.Core.Bool.{false≢true}
use native.Mathlib.Nat.{pow-suc, one-le-pow, div-div-eq-div-mul, div-le_self, suc-mul}

pow_pos : (k : ℕ) → 0 < 2 ^ k
pow_pos k = one-le-pow k 2 (omega arith)

one_less : (p q : ℕ) → 0 < p → 0 < q → p * q - 1 ≡ (p - 1) * q + (q - 1)
one_less zero q h i = absurd (omega arith)
one_less (suc p) q h i =
    let e : suc p - 1 ≡ p = omega arith in omega (arith, suc-mul p q, ap (λ (t : ℕ). t * q) e)

-- Shifting ones leaves ones.
ones_shifted : (k r : ℕ) → r ≤ k → (2 ^ k - 1) / 2 ^ (k - r) ≡ 2 ^ r - 1
ones_shifted k r h =
    let e : k ≡ r + (k - r) = omega arith in
    let whole : 2 ^ k ≡ 2 ^ r * 2 ^ (k - r) = ap (λ (t : ℕ). 2 ^ t) e ∙ two_pow_add r (k - r) in
    div_of_parts (2 ^ k - 1) (2 ^ r - 1) (2 ^ (k - r) - 1) (2 ^ (k - r))
      (omega (arith, whole, one_less (2 ^ r) (2 ^ (k - r)) (pow_pos r) (pow_pos (k - r))))
      (omega (arith, pow_pos (k - r)))

shifted_twice : (a b x : ℕ) → x / 2 ^ a / 2 ^ b ≡ x / 2 ^ (a + b)
shifted_twice a b x = rw two_pow_add (div-div-eq-div-mul x (2 ^ a) (2 ^ b))

-- Ones above, with ones in the k lowest bits.
or_fill : (k j a : ℕ) → a / 2 ^ k ≡ 2 ^ j - 1 → bit_or a (2 ^ k - 1) ≡ 2 ^ (j + k) - 1
or_fill zero j a h =
    let e : j + 0 ≡ j = omega arith in
    let one : a * 2 ^ 0 ≡ a = omega arith in
    let alone : bit_or 0 a ≡ a = rw one at (or_disjoint 0 0 a (omega arith)) ∙ omega arith in
    rw e (or_comm a 0 ∙ alone ∙ omega arith)
or_fill (suc k) j a h =
    let rest = or_fill k j (a / 2) (sym (div_two_pow_suc a k) ∙ h) in
    let e : j + suc k ≡ suc (j + k) = omega arith in
    let halves : (2 ^ suc k - 1) / 2 ≡ 2 ^ k - 1 = omega (arith, pow-suc 2 k, pow_pos k) in
    rw e (
      omega (
        arith,
        or_digit a (2 ^ suc k - 1),
        ap (λ (t : ℕ). bit_or (a / 2) t) halves,
        rest,
        pow-suc 2 k,
        pow-suc 2 (j + k),
        pow_pos k,
        pow_pos (j + k),
      ))

div_one : (x : ℕ) → x / 2 ^ 0 ≡ x
div_one x = omega arith

-- The top k of the m bits of a number, or all of them, are ones.
IsSmeared : ℕ → ℕ → ℕ → Type 0
IsSmeared m k v = (v < 2 ^ m) × (v / 2 ^ (m - k) ≡ 2 ^ (m - (m - k)) - 1)

module _ (m k v : ℕ) where
  all_ones : m ≤ k → v / 2 ^ (m - k) ≡ 2 ^ (m - (m - k)) - 1 → v ≡ 2 ^ m - 1
  all_ones h e =
      let a : m - k ≡ 0 = omega arith in
      let b : m - 0 ≡ m = omega arith in
      let whole : v / 2 ^ 0 ≡ 2 ^ m - 1 = rw b at (rw a at e) in omega arith

  smear_less : v < 2 ^ m → smear k v < 2 ^ m
  unfolding smear
  smear_less h = or-less m v (v / 2 ^ k) h (omega (arith, div-le_self v (2 ^ k)))

  -- The second half of the bits is filled, or what is left of it.
  smear_some :
      2 * k ≤ m
      → v / 2 ^ (m - k) ≡ 2 ^ (m - (m - k)) - 1
      → smear k v / 2 ^ (m - 2 * k) ≡ 2 ^ (m - (m - 2 * k)) - 1
  unfolding smear
  smear_some h e =
      let r = m - 2 * k in
      let top : v / 2 ^ (m - k) ≡ 2 ^ k - 1 = let x : m - (m - k) ≡ k = omega arith in rw x at e in
      let below : v / 2 ^ k / 2 ^ r ≡ 2 ^ k - 1 =
        let x : k + r ≡ m - k = omega arith in shifted_twice k r v ∙ rw x top in
      let above : v / 2 ^ r / 2 ^ k ≡ 2 ^ k - 1 =
        let x : r + k ≡ m - k = omega arith in shifted_twice r k v ∙ rw x top in
      let all : m - r ≡ k + k = omega arith in
      or_shift r v (v / 2 ^ k) ∙ rw (below, all) (or_fill k k (v / 2 ^ r) above)

  smear_rest : k < m → m ≤ 2 * k → v / 2 ^ (m - k) ≡ 2 ^ (m - (m - k)) - 1 → smear k v ≡ 2 ^ m - 1
  unfolding smear
  smear_rest p q e =
      let r = m - k in
      let kept : m - r ≡ k = omega arith in
      let top : v / 2 ^ r ≡ 2 ^ k - 1 = rw kept at e in
      let below : v / 2 ^ k ≡ 2 ^ r - 1 =
        let x : r + (k - r) ≡ k = omega arith in
        sym (shifted_twice r (k - r) v ∙ rw x) ∙ rw top (ones_shifted k r (omega arith)) in
      let all : m ≡ k + r = omega arith in
      rw below (or_fill r k v top ∙ ap (λ (t : ℕ). 2 ^ t - 1) (sym all))

  still_ones : m ≤ k → v / 2 ^ (m - k) ≡ 2 ^ (m - (m - k)) - 1 → smear k v ≡ 2 ^ m - 1
  unfolding smear
  still_ones h e =
      let ones : v ≡ 2 ^ m - 1 = all_ones h e in
      rw ones (
        or_comm (2 ^ m - 1) _
        ∙ or_ones m ((2 ^ m - 1) / 2 ^ k)
            (omega (arith, div-le_self (2 ^ m - 1) (2 ^ k), pow_pos m)))

  smear-IsSmeared : IsSmeared m k v → IsSmeared m (2 * k) (smear k v)
  unfolding IsSmeared
  smear-IsSmeared (h, e) = (
    smear_less h,
    elim (Bool-cases (leb (2 * k) m)) [
      | inl some_left ↦ smear_some (leb→le _ _ some_left) e
      | inr last ↦
          let r : m - 2 * k ≡ 0 = ground arith in
          let b : m - 0 ≡ m = omega arith in
          rw (r, b)
            (div_one (smear k v) ∙ elim (Bool-cases (leb m k)) [
              | inl full ↦ still_ones (leb→le m k full) e
              | inr part ↦ smear_rest (ground arith) (ground arith) e
            ])
    ],
  )

-- Six doublings reach 64 bits.
smeared_ones :
    (n v : ℕ)
    → n < 64
    → 2 ^ n ≤ v
    → v < 2 ^ suc n
    → smear 32 (smear 16 (smear 8 (smear 4 (smear 2 (smear 1 v))))) ≡ 2 ^ suc n - 1
unfolding IsSmeared
smeared_ones n v p q h =
    let start : IsSmeared (suc n) 1 v =
      let b : suc n - 1 ≡ n = omega arith in
      let c : suc n - n ≡ 1 = omega arith in
      (
        h,
        rw (b, c) (div_of_parts v 1 (v - 2 ^ n) (2 ^ n) (omega arith) (omega (arith, pow-suc 2 n))),
      ) in
    let done = smear-IsSmeared (suc n) 32 _ (
      smear-IsSmeared (suc n) 16 _ (
        smear-IsSmeared (suc n) 8 _ (
          smear-IsSmeared (suc n) 4 _
            (smear-IsSmeared (suc n) 2 _ (smear-IsSmeared (suc n) 1 v start))))) in
    all_ones (suc n) 64 _ (omega arith) done.1

ones_xor : (n : ℕ) → bit_xor (2 ^ suc n - 1) ((2 ^ suc n - 1) / 2) ≡ 2 ^ n
ones_xor zero = refl
ones_xor (suc n) =
    let x = 2 ^ suc (suc n) - 1 in
    let half : x / 2 ≡ 2 ^ suc n - 1 = omega (arith, pow-suc 2 (suc n), pow_pos (suc n)) in
    let quarter : x / 2 / 2 ≡ (2 ^ suc n - 1) / 2 = ap (λ (t : ℕ). t / 2) half in
    ground (
      arith,
      xor_digit x (x / 2),
      ap₂ bit_xor half quarter,
      ones_xor n,
      pow-suc 2 (suc n),
      pow-suc 2 n,
      pow_pos n,
    )

-- The table gives each of the 64 powers its exponent.
all_found : ℕ → Bool
all_found zero = true
all_found (suc n) = (single_set_bit (2 ^ n) == n) && all_found n

every_power : all_found 64 ≡ true
unfolding all_found single_set_bit
every_power = refl

both : (x y : Bool) → (x && y) ≡ true → (x ≡ true) × (y ≡ true)
both true y h = (refl, h)
both false y h = absurd (false≢true h)

equal : (a b : ℕ) → (a == b) ≡ true → a ≡ b
equal a b h = ground arith

found : (m n : ℕ) → all_found m ≡ true → n < m → single_set_bit (2 ^ n) ≡ n
unfolding all_found
found zero n a h = absurd (omega arith)
found (suc m) n a h = elim (Bool-cases (n == m)) [
  | inl here ↦
      let e : n ≡ m = ground arith in
      rw e (equal _ _ (both (single_set_bit (2 ^ m) == m) (all_found m) a).0)
  | inr below ↦ found m n (both (single_set_bit (2 ^ m) == m) (all_found m) a).1 (ground arith)
]

-- For a number of 64 bits that is not 0, the smearing and the table give the place of the highest
-- bit that is set: the n for which the number is at least 2^n and less than twice that.
pub highest_set_bit_lem :
    (n value : ℕ) → n < 64 → 2 ^ n ≤ value → value < 2 ^ suc n → highest_set_bit value ≡ n
unfolding highest_set_bit
highest_set_bit_lem n value p q h =
    rw (smeared_ones n value p q h, ones_xor n) (found 64 n every_power p)
