-- ===== src/Datum/RoundTrip.antt =====
-- Splitting an element, storing the low bytes of its low part and joining the parts again gives
-- the element back.
use alacrity_adios.Prelude.{ℕ, ◌+◌, ◌*◌, ◌-◌, ◌/◌, ◌%◌, ◌^◌, ◌≤◌, ◌<◌, ◌≡◌, ap, ◌∙◌, arith}
use alacrity_adios.Prelude.{Bool-cases, leb, leb→le, true, bit_and, u64, inl, inr}
use alacrity_adios.Prelude.{suc, zero, sym}
use alacrity_adios.Prelude.Division.{div_of_parts}
use alacrity_adios.Prelude.Division.{
  mod_two_pow_less, mod_two_pow_more, pow_256, two_pow_add, two_pow_mono,
}
use alacrity_adios.Prelude.Bits.{bit_and_mask, or_high_low}
use alacrity_adios.Datum.{is_datum_size, insig_bits, low_mask, high_part, low_part, stored}
use alacrity_adios.Datum.{rejoin_datum_bits}
use alacrity_adios.Types.{insig_bytes_ceil}
use native.Mathlib.Nat.{suc-mul, one-le-pow, div-lt_iff_lt-mul, mod-eq_of_lt, div-mul-le_self}

one_less : (p d : ℕ) → 0 < p → (p - 1) * d + d ≡ p * d
one_less zero d h = absurd (omega arith)
one_less (suc q) d h = let e : suc q - 1 ≡ q = omega arith in rw e (omega (arith, suc-mul q d))

low_mask_ones : (s : ℕ) → s < 64 → low_mask s ≡ 2 ^ (64 - s) - 1
low_mask_ones s h =
    let all : 64 - s + s ≡ 64 = omega arith in
    let cut : 2 ^ 64 ≡ 2 ^ (64 - s) * 2 ^ s =
      ap (λ (t : ℕ). 2 ^ t) (sym all) ∙ two_pow_add (64 - s) s in
    let some : 0 < 2 ^ s = one-le-pow s 2 (omega arith) in
    let top : 0 < 2 ^ (64 - s) = one-le-pow (64 - s) 2 (omega arith) in
    let parts = one_less (2 ^ (64 - s)) (2 ^ s) top in
    div_of_parts (2 ^ 64 - 1) (2 ^ (64 - s) - 1) (2 ^ s - 1) (2 ^ s) (omega arith) (omega arith)

-- Masking keeps the low bits.
masked : (s x : ℕ) → s < 64 → bit_and x (low_mask s) ≡ x % 2 ^ (64 - s)
masked s x h = rw (low_mask_ones s h, bit_and_mask (64 - s) x)

-- Cutting to two numbers of bits that both reach bit `k` leaves some number of bits that does.
cut_twice : (k a b x : ℕ) → k ≤ a → k ≤ b → (m : ℕ) × (k ≤ m) × (x % 2 ^ a % 2 ^ b ≡ x % 2 ^ m)
cut_twice k a b x h j = elim (Bool-cases (leb a b)) [
  | inl less ↦ (a, h, mod_two_pow_more a b x (leb→le a b less))
  | inr more ↦ (b, j, mod_two_pow_less a b x (ground arith))
]

-- What is left of the low part after it was stored.
pub stored_bits :
    (k s w x : ℕ)
    → k ≤ 64 - s
    → k ≤ 8 * w
    → s < 64
    → (m : ℕ) × (k ≤ m) × (stored w (low_part s x) ≡ x % 2 ^ m)
unfolding stored low_part
stored_bits k s w x h j hs =
    let (m, hm, em) = cut_twice k (64 - s) (8 * w) x h j in
    (m, hm, rw (masked s x hs, pow_256 w, em))

-- The same, masked again.
kept_bits :
    (k s w x : ℕ)
    → s < 64
    → k ≤ 64 - s
    → k ≤ 8 * w
    → (m : ℕ) × (k ≤ m) × (bit_and (stored w (low_part s x)) (low_mask s) ≡ x % 2 ^ m)
kept_bits k s w x hs h j =
    let (m, hm, em) = stored_bits k s w x h j hs in
    let (n, hn, en) = cut_twice k m (64 - s) x hm h in (n, hn, masked s _ hs ∙ rw em en)

module _ (e s x : ℕ) (fits : x < 256 ^ e) (some_bits : s ≤ 8 * e) (few : s < 32)
    (small : e ≤ 8) where
  pub top_bits : x / 2 ^ insig_bits e s < 2 ^ s
  top_bits =
      let e8 : 8 * e ≡ s + insig_bits e s = omega arith in
      (div-lt_iff_lt-mul (one-le-pow (insig_bits e s) 2 (omega arith))).1
        (omega (arith, pow_256 e, ap (λ (t : ℕ). 2 ^ t) e8, two_pow_add s (insig_bits e s)))

  pub high_bits : high_part e s x ≡ x / 2 ^ insig_bits e s
  unfolding high_part
  high_bits = mod-eq_of_lt (omega (arith, top_bits, two_pow_mono s 32 (omega arith)))

  high_back :
      u64 (high_part e s x * 2 ^ insig_bits e s) % 256 ^ e
      ≡ x / 2 ^ insig_bits e s * 2 ^ insig_bits e s
  high_back =
      let high_at_most : x / 2 ^ insig_bits e s * 2 ^ insig_bits e s ≤ x =
        div-mul-le_self x (2 ^ insig_bits e s) in
      let word : 256 ^ e ≤ 2 ^ 64 =
        omega (arith, pow_256 e, two_pow_mono (8 * e) 64 (omega arith)) in
      let top = x / 2 ^ insig_bits e s * 2 ^ insig_bits e s in
      rw (
        high_bits,
        mod-eq_of_lt {n = top} {m = 2 ^ 64} (omega arith),
        mod-eq_of_lt {n = top} {m = 256 ^ e} (omega arith),
      )

-- An element of 2, 4 or 8 bytes, split after at most 31 high-order bits: joining the high part
-- with the bytes that are stored of the low part gives the element back, also where the low part
-- still holds some of the high bits.
pub rejoin-split :
    (elem_size sigbits datum : ℕ)
    → is_datum_size elem_size ≡ true
    → datum < 256 ^ elem_size
    → sigbits < 32
    → sigbits ≤ 8 * elem_size
    → rejoin_datum_bits elem_size sigbits
        (high_part elem_size sigbits datum)
        (stored (insig_bytes_ceil elem_size sigbits) (low_part sigbits datum))
      ≡ datum
unfolding is_datum_size rejoin_datum_bits
rejoin-split e s x size fits few some_bits =
    let small : e ≤ 8 = ground arith in
    let enough : insig_bits e s ≤ 8 * insig_bytes_ceil e s =
      unfold insig_bytes_ceil in omega arith in
    let (m, h, kept) =
      kept_bits (insig_bits e s) s (insig_bytes_ceil e s) x (omega arith) (omega arith) enough in
    rw (high_back e s x fits some_bits few small, kept, or_high_low (insig_bits e s) m x h)
      (mod-eq_of_lt fits)
