-- ===== src/RidCompress/FixedLength/Packing.antt =====
-- Unpacking gives back the values that were packed, word by word.
use alacrity_adios.Prelude.{
  ℕ, zero, suc, ◌+◌, ◌-◌, ◌*◌, ◌/◌, ◌%◌, ◌^◌, ◌≤◌, ◌<◌, ◌≡◌, refl, sym, ap,
}
use alacrity_adios.Prelude.{
  ap₂, ◌∙◌, arith, false, Bool-cases, inl, inr, ltb, ◌==◌, ltb→lt, le→leb, lt→leb_false,
}
use alacrity_adios.Prelude.{List, [], ◌∷◌, length, get_or, All, bit_or, u64}
use alacrity_adios.Prelude.Division.{div_of_parts, mod_of_parts, mod_two_pow_less, two_pow_add}
use alacrity_adios.Prelude.Division.{two_pow_mono, mod_scaled, div_mod_two_pow}
use alacrity_adios.Prelude.Bits.{or_high_low}
use alacrity_adios.Prelude.BitOr.{or_disjoint, or_comm}
use alacrity_adios.RidCompress.FixedLength.{pack_words, unpack_value, unpack_words}
use native.Mathlib.Nat.{mod-eq_of_lt, one-le-pow, div-lt_iff_lt-mul}

two_pow_pos : (k : ℕ) → 0 < 2 ^ k
two_pow_pos k = one-le-pow k 2 (omega arith)

two_pow_split : (k m : ℕ) → k ≤ m → 2 ^ m ≡ 2 ^ (m - k) * 2 ^ k
two_pow_split k m h =
    let e : m ≡ m - k + k = omega arith in ap (λ (t : ℕ). 2 ^ t) e ∙ two_pow_add (m - k) k

-- A number that starts below `bit` and goes on from there.
module _ (bit low d : ℕ) (h : low < 2 ^ bit) where
  low_of_sum : (d * 2 ^ bit + low) % 2 ^ bit ≡ low
  low_of_sum = mod_of_parts _ d low (2 ^ bit) refl h

  high_of_sum : (d * 2 ^ bit + low) / 2 ^ bit ≡ d
  high_of_sum = div_of_parts _ d low (2 ^ bit) refl h

  sum_fits : (b : ℕ) → d < 2 ^ b → d * 2 ^ bit + low < 2 ^ (bit + b)
  sum_fits b fits = rw two_pow_add (grind arith)

-- A shift within 64 bits keeps the low bits of the value.
shifted_u64 : (bit d : ℕ) → bit ≤ 64 → u64 (d * 2 ^ bit) ≡ d % 2 ^ (64 - bit) * 2 ^ bit
shifted_u64 bit d h =
    rw (two_pow_split bit 64 h) (mod_scaled d _ _ (two_pow_pos (64 - bit)) (two_pow_pos bit))

module _ (b : ℕ) (positive : 0 < b) (narrow : b ≤ 32) where
  -- The word to which a value was added.
  extended :
      (bit word d : ℕ)
      → bit ≤ 64
      → word < 2 ^ bit
      → bit_or word (u64 (d * 2 ^ bit)) ≡ d % 2 ^ (64 - bit) * 2 ^ bit + word
  extended bit word d p h = rw (shifted_u64 bit d p) (or_disjoint bit word _ h)

  kept : (bit d : ℕ) → bit + b ≤ 64 → d < 2 ^ b → d % 2 ^ (64 - bit) ≡ d
  kept bit d p h = mod-eq_of_lt (omega (arith, two_pow_mono b (64 - bit)))

  carried :
      (bit d : ℕ) → bit < 64 → 64 ≤ bit + b → d < 2 ^ b → d / 2 ^ (64 - bit) < 2 ^ (bit + b - 64)
  carried bit d p q h =
      let e : b - (64 - bit) ≡ bit + b - 64 = omega arith in
      (div-lt_iff_lt-mul (two_pow_pos (64 - bit))).1
        (rw (← e) (rw (two_pow_split (64 - bit) b (omega arith)) at h))

  added :
      (bit word d : ℕ)
      → bit < 64
      → bit + b < 64
      → word < 2 ^ bit
      → d < 2 ^ b
      → bit_or word (u64 (d * 2 ^ bit)) ≡ d * 2 ^ bit + word
  added bit word d p q h fits =
      extended bit word d (omega arith) h
      ∙ ap (λ (t : ℕ). t * 2 ^ bit + word) (kept bit d (omega arith) fits)

  -- What a word has so far stays in its low bits.
  low_kept :
      (ds : List ℕ) (bit word : ℕ)
      → bit < 64
      → word < 2 ^ bit
      → All (λ d. d < 2 ^ b) ds
      → get_or (pack_words b bit word ds) 0 0 % 2 ^ bit ≡ word
  unfolding pack_words
  low_kept [] zero word p h a = omega arith
  low_kept [] (suc bit) word p h a =
      let open_word : (suc bit == 0) ≡ false = ground arith in rw open_word (mod-eq_of_lt h)
  low_kept (d ∷ ds) bit word p h (fits, a) = elim (Bool-cases (ltb (bit + b) 64)) [
    | inl same ↦
        let inside = ltb→lt (bit + b) 64 same in
        let e : (bit + b) % 64 ≡ bit + b = omega arith in
        rw (same, e, added bit word d p inside h fits)
          (sym (mod_two_pow_less (bit + b) bit _ (omega arith))
            ∙ ap (λ (t : ℕ). t % 2 ^ bit)
                (low_kept ds (bit + b) _ inside (sum_fits bit word d h b fits) a)
            ∙ low_of_sum bit word d h)
    | inr next ↦ rw (next, extended bit word d (omega arith) h) (low_of_sum bit word _ h)
  ]

  -- The three places that a value can have: within a word, at its end, and across two words.
  unpack_value-inside :
      (bit word d head next : ℕ)
      → bit + b < 64
      → word < 2 ^ bit
      → d < 2 ^ b
      → head % 2 ^ (bit + b) ≡ d * 2 ^ bit + word
      → unpack_value b bit head next ≡ d
  unfolding unpack_value
  unpack_value-inside bit word d head next p h fits e =
      rw (le→leb (bit + b) 64 (omega arith), div_mod_two_pow, e) (high_of_sum bit word d h)

  unpack_value-end :
      (bit word d next : ℕ)
      → bit + b ≡ 64
      → word < 2 ^ bit
      → d < 2 ^ b
      → unpack_value b bit (d % 2 ^ (64 - bit) * 2 ^ bit + word) next ≡ d
  unfolding unpack_value
  unpack_value-end bit word d next p h fits =
      rw
        (le→leb (bit + b) 64 (omega arith), high_of_sum bit word _ h, kept bit d (omega arith) fits)
        (mod-eq_of_lt fits)

  unpack_value-across :
      (bit word d next : ℕ)
      → bit < 64
      → 64 < bit + b
      → word < 2 ^ bit
      → next % 2 ^ (bit + b - 64) ≡ d / 2 ^ (64 - bit)
      → unpack_value b bit (d % 2 ^ (64 - bit) * 2 ^ bit + word) next ≡ d
  unfolding unpack_value
  unpack_value-across bit word d next p q h e = rw (
    lt→leb_false (bit + b) 64 q,
    high_of_sum bit word _ h,
    e,
    or_comm (d % 2 ^ (64 - bit)) _,
    or_high_low (64 - bit) (64 - bit) d (omega arith),
  )

  pub unpack_words-pack_words :
      (ds : List ℕ) (bit word : ℕ)
      → bit < 64
      → word < 2 ^ bit
      → All (λ d. d < 2 ^ b) ds
      → unpack_words b bit (length ds) (pack_words b bit word ds) ≡ ds
  unfolding pack_words unpack_words
  unpack_words-pack_words [] bit word p h a = refl
  unpack_words-pack_words (d ∷ ds) bit word p h (fits, a) = elim (Bool-cases (ltb (bit + b) 64)) [
    | inl same ↦
        let inside = ltb→lt (bit + b) 64 same in
        let e : (bit + b) % 64 ≡ bit + b = omega arith in
        let small = sum_fits bit word d h b fits in
        rw (same, e, added bit word d p inside h fits)
          (ap₂ ◌∷◌
            (unpack_value-inside bit word d _ _ inside h fits
              (low_kept ds (bit + b) _ inside small a))
            (unpack_words-pack_words ds (bit + b) _ inside small a))
    | inr next ↦
        let past : 64 ≤ bit + b = ground arith in
        let e : (bit + b) % 64 ≡ bit + b - 64 = omega arith in
        let small = carried bit d p past fits in
        rw (next, e, extended bit word d (omega arith) h)
          (ap₂ ◌∷◌
            (elim (Bool-cases (ltb 64 (bit + b))) [
              | inl more ↦
                  unpack_value-across bit word d _ p (ltb→lt _ _ more) h
                    (low_kept ds (bit + b - 64) _ (omega arith) small a)
              | inr no_more ↦ unpack_value-end bit word d _ (ground arith) h fits
            ])
            (unpack_words-pack_words ds (bit + b - 64) _ (omega arith) small a))
  ]
