-- ===== src/Uniquery/BinRange/Signs.antt =====
-- The conversion of a bin value from one's to two's complement, as a number on a line whose zero
-- lies at 2^(width - 1).
use alacrity_adios.Prelude.{
  ℕ, zero, suc, ◌+◌, ◌-◌, ◌/◌, ◌%◌, ◌^◌, ◌<◌, ◌≤◌, ◌≡◌, refl, ap, ◌∙◌, arith,
}
use alacrity_adios.Prelude.{
  Bool, ◌==◌, ltb, if◌then◌else◌, bit_and, bit_xor, Bool-cases, inl, inr, ltb→lt,
}
use alacrity_adios.Prelude.Bits.{and_digit, xor_digit}
use Prim.Native.Nat.{differ}
use alacrity_adios.Prelude.Division.{two_pow_mono, mod_of_parts}
use alacrity_adios.Uniquery.BinRange.{conv_neg_1c_to_2c, conv_1c_to_2c}
use native.Mathlib.Nat.{pow-suc, mod-eq_of_lt, one-le-pow}

-- A number of k + 1 bits, its highest bit and the others.
pub and_top : (k v : ℕ) → v < 2 ^ suc k → bit_and v (2 ^ k) ≡ (if ltb v (2 ^ k) then 0 else 2 ^ k)
and_top zero zero h = refl
and_top zero (suc zero) h = refl
and_top zero (suc (suc v)) h = absurd (omega (arith, h))
and_top (suc k) v h =
    ground (arith, and_digit v (2 ^ suc k), pow-suc 2 k, pow-suc 2 (suc k), and_top k (v / 2))

differ-zero : (x : ℕ) → differ x 0 ≡ x
differ-zero zero = refl
differ-zero (suc x) = refl

even : (k : ℕ) → 2 ^ suc k % 2 ≡ 0
even k = omega (arith, pow-suc 2 k)

pub xor_top :
    (k v : ℕ) → v < 2 ^ suc k → bit_xor v (2 ^ k) ≡ (if ltb v (2 ^ k) then v + 2 ^ k else v - 2 ^ k)
xor_top zero zero h = refl
xor_top zero (suc zero) h = refl
xor_top zero (suc (suc v)) h = absurd (omega (arith, h))
xor_top (suc k) v h = ground (
  arith,
  xor_digit v (2 ^ suc k),
  differ-zero (v % 2),
  ap (differ (v % 2)) (even k),
  pow-suc 2 k,
  pow-suc 2 (suc k),
  xor_top k (v / 2),
)

-- The place of a bin value of k + 1 bits on the line: its highest bit is a sign, the others are
-- its magnitude.
unfoldable pub key : ℕ → ℕ → ℕ → ℕ
key half top v = if ltb v top then half + v else half - (v - top)

module _ (half word : ℕ) (halves : word ≡ half + half) where
  biased_pos : (v : ℕ) → v < half → (v + half) % word ≡ half + v
  biased_pos v h = mod-eq_of_lt {n = v + half} {m = word} (omega arith) ∙ omega arith

  biased_neg : (m : ℕ) → m < half → ((word - m) % word + half) % word ≡ half - m
  biased_neg zero h =
      let e : (word - 0) % word ≡ 0 =
        mod_of_parts (word - 0) 1 0 word (omega arith) (omega arith) in
      rw e (mod-eq_of_lt {n = 0 + half} {m = word} (omega arith) ∙ omega arith)
  biased_neg (suc m) h =
      let e : (word - suc m) % word ≡ word - suc m = mod-eq_of_lt (omega arith) in
      rw e (mod_of_parts (word - suc m + half) 1 (half - suc m) word (omega arith) (omega arith))

-- Where zero lies for numbers of `width` bits.
abbrev pub origin : ℕ → ℕ
origin width = 2 ^ (width - 1)

module _ (width k : ℕ) (wide : suc k < width) where
  two_halves : 2 ^ width ≡ (origin width) + (origin width)
  two_halves =
      let e : suc (width - 1) ≡ width = omega arith in
      let p = pow-suc 2 (width - 1) in omega (arith, ap (λ (t : ℕ). 2 ^ t) e, p)

  room_for : 2 ^ suc k ≤ (origin width)
  room_for = two_pow_mono (suc k) (width - 1) (omega arith)

  pub conv_pos-key :
      (v : ℕ) → v < 2 ^ k → (v + (origin width)) % 2 ^ width ≡ key (origin width) (2 ^ k) v
  unfolding key
  conv_pos-key v h =
      biased_pos (origin width) (2 ^ width) two_halves v (omega (arith, room_for, pow-suc 2 k))
      ∙ ground arith

  pub conv_neg-key :
      (v : ℕ)
      → v < 2 ^ suc k
      → 2 ^ k ≤ v
      → (conv_neg_1c_to_2c width v (2 ^ k) + (origin width)) % 2 ^ width
        ≡ key (origin width) (2 ^ k) v
  unfolding key conv_neg_1c_to_2c
  conv_neg-key v h low =
      let m : bit_xor v (2 ^ k) ≡ v - 2 ^ k = ground (arith, xor_top k v h) in
      rw m (
        biased_neg (origin width) (2 ^ width) two_halves (v - 2 ^ k)
          (omega (arith, room_for, pow-suc 2 k))
        ∙ ground arith)

  -- Read as if it were positive, a negative value lies beyond all negative ones.
  pub conv_pos-above :
      (v : ℕ)
      → v < 2 ^ suc k
      → 2 ^ k ≤ v
      → key (origin width) (2 ^ k) v ≤ (v + (origin width)) % 2 ^ width
  unfolding key
  conv_pos-above v h low =
      let e = biased_pos (origin width) (2 ^ width) two_halves v (omega (arith, room_for)) in
      ground (arith, e)

  pub sign_clear : (v : ℕ) → v < 2 ^ k → (bit_and v (2 ^ k) == 0) ≡ Bool.true
  sign_clear v h =
      let h' : v < 2 ^ suc k = omega (arith, pow-suc 2 k) in ground (arith, and_top k v h')

  pub sign_set : (v : ℕ) → v < 2 ^ suc k → 2 ^ k ≤ v → (bit_and v (2 ^ k) == 0) ≡ Bool.false
  sign_set v h low = ground (arith, and_top k v h, one-le-pow k 2 (omega arith))

  pub conv_1c-key :
      (v : ℕ)
      → v < 2 ^ suc k
      → (conv_1c_to_2c width v (2 ^ k) + (origin width)) % 2 ^ width ≡ key (origin width) (2 ^ k) v
  unfolding conv_1c_to_2c
  conv_1c-key v h = elim (Bool-cases (ltb v (2 ^ k))) [
    | inl pos ↦ let p : v < 2 ^ k = ltb→lt v (2 ^ k) pos in rw (sign_clear v p) (conv_pos-key v p)
    | inr neg ↦ let n : 2 ^ k ≤ v = ground arith in rw (sign_set v h n) (conv_neg-key v h n)
  ]
