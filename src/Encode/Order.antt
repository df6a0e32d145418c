-- ===== src/Encode/Order.antt =====
-- FOR_BIN_VALUE_IN_1C_ORDER visits each value of `bits` bits, and none twice.
use alacrity_adios.Prelude.{ℕ, zero, suc, ◌+◌, ◌-◌, ◌^◌, ◌≤◌, ◌<◌, ◌≡◌, refl, ap, arith}
use alacrity_adios.Prelude.{ltb, List, [], ◌∷◌, ◌++◌, length, length-append}
use alacrity_adios.Prelude.{All, inl, inr, Bool-cases, ltb→lt}
use alacrity_adios.Encode.{bin_values_in_1c_order, count_down, count_up}
use alacrity_adios.Encode.Tables.{Distinct, Has}
use native.Mathlib.Nat.{pow-suc}
use alacrity_adios.Prelude.{u32}
use alacrity_adios.Prelude.Division.{two_pow_mono}

pub All-weaken : (P Q : ℕ → Type 0) (vs : List ℕ) → ((v : ℕ) → P v → Q v) → All P vs → All Q vs
All-weaken P Q [] f a = tt
All-weaken P Q (v ∷ vs) f (p, a) = (f v p, All-weaken P Q vs f a)

count_down-range : (n base : ℕ) → All (λ v. (base ≤ v) × (v < base + n)) (count_down n base)
unfolding count_down
count_down-range zero base = tt
count_down-range (suc n) base =
    ((omega arith, omega arith), All-weaken _ _ _ (λ v h. omega arith) (count_down-range n base))

count_up-range : (n base : ℕ) → All (λ v. (base ≤ v) × (v < base + n)) (count_up n base)
unfolding count_up
count_up-range zero base = tt
count_up-range (suc n) base = (
  (omega arith, omega arith),
  All-weaken _ _ _ (λ v h. omega arith) (count_up-range n (base + 1)),
)

count_down-Distinct : (n base : ℕ) → Distinct (count_down n base)
unfolding count_down
count_down-Distinct zero base = tt
count_down-Distinct (suc n) base = (
  All-weaken _ _ _ (λ v h e. absurd (omega arith)) (count_down-range n base),
  count_down-Distinct n base,
)

count_up-Distinct : (n base : ℕ) → Distinct (count_up n base)
unfolding count_up
count_up-Distinct zero base = tt
count_up-Distinct (suc n) base = (
  All-weaken _ _ _ (λ v h e. absurd (omega arith)) (count_up-range n (base + 1)),
  count_up-Distinct n (base + 1),
)

All-append : (P : ℕ → Type 0) (xs ys : List ℕ) → All P xs → All P ys → All P (xs ++ ys)
All-append P [] ys a b = b
All-append P (x ∷ xs) ys (p, a) b = (p, All-append P xs ys a b)

Distinct-append :
    (m : ℕ) (xs ys : List ℕ)
    → Distinct xs
    → Distinct ys
    → All (λ v. m ≤ v) xs
    → All (λ v. v < m) ys
    → Distinct (xs ++ ys)
Distinct-append m [] ys dx dy a b = dy
Distinct-append m (x ∷ xs) ys (fresh, dx) dy (h, a) b = (
  All-append _ xs ys fresh (All-weaken _ _ ys (λ v p e. absurd (omega arith)) b),
  Distinct-append m xs ys dx dy a b,
)

Has-append_left : (h : ℕ) (xs ys : List ℕ) → Has h xs → Has h (xs ++ ys)
Has-append_left h [] ys m = absurd m
Has-append_left h (x ∷ xs) ys (inl e) = inl e
Has-append_left h (x ∷ xs) ys (inr m) = inr (Has-append_left h xs ys m)

Has-append_right : (h : ℕ) (xs ys : List ℕ) → Has h ys → Has h (xs ++ ys)
Has-append_right h [] ys m = m
Has-append_right h (x ∷ xs) ys m = inr (Has-append_right h xs ys m)

count_down-Has : (n base h : ℕ) → base ≤ h → h < base + n → Has h (count_down n base)
unfolding count_down
count_down-Has zero base h p q = absurd (omega arith)
count_down-Has (suc n) base h p q = elim (Bool-cases (ltb h (base + n))) [
  | inl below ↦ inr (count_down-Has n base h p (ltb→lt h (base + n) below))
  | inr top ↦ inl (ground arith)
]

count_up-Has : (n base h : ℕ) → base ≤ h → h < base + n → Has h (count_up n base)
unfolding count_up
count_up-Has zero base h p q = absurd (omega arith)
count_up-Has (suc n) base h p q = elim (Bool-cases (ltb base h)) [
  | inl above ↦ inr (count_up-Has n (base + 1) h (omega (arith, ltb→lt base h above)) (omega arith))
  | inr first ↦ inl (ground arith)
]

length-count_down : (n base : ℕ) → length (count_down n base) ≡ n
unfolding count_down
length-count_down zero base = refl
length-count_down (suc n) base = ap suc (length-count_down n base)

length-count_up : (n base : ℕ) → length (count_up n base) ≡ n
unfolding count_up
length-count_up zero base = refl
length-count_up (suc n) base = ap suc (length-count_up n (base + 1))

module _ (bits : ℕ) (some : 0 < bits) (few : bits ≤ 32) where
  signbit : u32 (2 ^ (bits - 1)) ≡ 2 ^ (bits - 1)
  signbit = omega (arith, two_pow_mono (bits - 1) 31 (omega arith))

  halves : 2 ^ bits ≡ 2 ^ (bits - 1) + 2 ^ (bits - 1)
  halves =
      let e : bits ≡ suc (bits - 1) = omega arith in
      omega (arith, ap (λ (t : ℕ). 2 ^ t) e, pow-suc 2 (bits - 1))

  pub order-Distinct : Distinct (bin_values_in_1c_order bits)
  unfolding bin_values_in_1c_order
  order-Distinct =
      let s = 2 ^ (bits - 1) in
      rw signbit (
        Distinct-append s (count_down s s) (count_up s 0) (count_down-Distinct s s)
          (count_up-Distinct s 0) (All-weaken _ _ _ (λ v h. h.0) (count_down-range s s))
          (All-weaken _ _ _ (λ v h. omega arith) (count_up-range s 0)))

  pub order-Has : (h : ℕ) → h < 2 ^ bits → Has h (bin_values_in_1c_order bits)
  unfolding bin_values_in_1c_order
  order-Has h p = rw signbit (elim (Bool-cases (ltb h (2 ^ (bits - 1)))) [
    | inl low ↦ Has-append_right h _ _ (count_up-Has _ 0 h (omega arith) (ground arith))
    | inr high ↦
        Has-append_left h _ _ (count_down-Has _ _ h (ground arith) (ground (arith, halves)))
  ])

  pub length-order : length (bin_values_in_1c_order bits) ≡ 2 ^ bits
  unfolding bin_values_in_1c_order
  length-order =
      let s = 2 ^ (bits - 1) in
      rw signbit (
        omega (
          arith,
          halves,
          length-append (count_down s s) (count_up s 0),
          length-count_down s s,
          length-count_up s 0,
        ))

  -- The values have `bits` bits.
  pub order-range : All (λ v. v < 2 ^ bits) (bin_values_in_1c_order bits)
  unfolding bin_values_in_1c_order
  order-range =
      let s = 2 ^ (bits - 1) in
      rw signbit (
        All-append _ _ _ (All-weaken _ _ _ (λ v h. omega (arith, halves)) (count_down-range s s))
          (All-weaken _ _ _ (λ v h. omega (arith, halves)) (count_up-range s 0)))

  -- With 1 to 32 bits, FOR_BIN_VALUE_IN_1C_ORDER visits every value of that many bits, no value
  -- twice, and nothing else.
  pub bin_values_in_1c_order_lem :
      Distinct (bin_values_in_1c_order bits)
      × ((h : ℕ) → h < 2 ^ bits → Has h (bin_values_in_1c_order bits))
      × All (λ v. v < 2 ^ bits) (bin_values_in_1c_order bits)
      × (length (bin_values_in_1c_order bits) ≡ 2 ^ bits)
  bin_values_in_1c_order_lem = (order-Distinct, order-Has, order-range, length-order)
