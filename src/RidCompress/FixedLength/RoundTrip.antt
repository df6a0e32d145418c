-- ===== src/RidCompress/FixedLength/RoundTrip.antt =====
-- The packed bytes of a batch: how many there are, and that decoding gives the batch back.
use alacrity_adios.Prelude.{ℕ, ◌+◌, ◌-◌, ◌*◌, ◌/◌, ◌%◌, ◌^◌, ◌≤◌, ◌<◌, ◌≡◌, refl, sym, ap}
use alacrity_adios.Prelude.{◌∙◌, arith, Bool-cases, inl, inr, ltb, ltb→lt}
use alacrity_adios.Prelude.{le→leb, some, append_assoc, length-append}
use alacrity_adios.Prelude.{List, [], ◌∷◌, ◌++◌, length, All, bit_or, u64}
use alacrity_adios.Prelude.{take_append, drop_append}
use alacrity_adios.Prelude.Division.{two_pow_mono}
use alacrity_adios.Prelude.BitOr.{or-less}
use alacrity_adios.Memory.{le_bytes, array_bytes, length-le_bytes, from_le-le_bytes}
use alacrity_adios.Memory.{length-array_bytes}
use alacrity_adios.RidCompress.FixedLength.{pack_words, words_of, or_all}
use alacrity_adios.RidCompress.FixedLength.{fixed_length_encode, fixed_length_decode, batch_size}
use alacrity_adios.RidCompress.FixedLength.{fixed_length_buffer_size}
use alacrity_adios.RidCompress.FixedLength.Packing.{unpack_words-pack_words}
use native.Mathlib.Nat.{div-eq_of_lt, div-le_self, mul-suc, one-le-pow}

words_of-array_bytes :
    (ws rest : List ℕ)
    → All (λ n. n < 2 ^ 64) ws
    → words_of (length ws) (array_bytes 8 ws ++ rest) ≡ ws
unfolding words_of array_bytes
words_of-array_bytes [] rest a = refl
words_of-array_bytes (n ∷ ws) rest (small, a) =
    rw
      (
        append_assoc (le_bytes 8 n) (array_bytes 8 ws) rest,
        take_append 8 (le_bytes 8 n) (array_bytes 8 ws ++ rest) (sym (length-le_bytes 8 n)),
        drop_append 8 (le_bytes 8 n) (array_bytes 8 ws ++ rest) (sym (length-le_bytes 8 n)),
        from_le-le_bytes 8 n small,
      )
      (ap (λ t. n ∷ t) (words_of-array_bytes ws rest a))

module _ (b : ℕ) (positive : 0 < b) (narrow : b ≤ 32) where
  length-pack_words :
      (ds : List ℕ) (bit word : ℕ)
      → bit < 64
      → length (pack_words b bit word ds) ≡ (bit + b * length ds + 63) / 64
  unfolding pack_words
  length-pack_words [] bit word p = ground arith
  length-pack_words (d ∷ ds) bit word p = elim (Bool-cases (ltb (bit + b) 64)) [
    | inl same ↦
        let inside = ltb→lt (bit + b) 64 same in
        let e : (bit + b) % 64 ≡ bit + b = omega arith in
        rw (same, e)
          (omega (
            arith,
            length-pack_words ds (bit + b) (bit_or word (u64 (d * 2 ^ bit))) inside,
            mul-suc b (length ds),
          ))
    | inr next ↦
        let past : 64 ≤ bit + b = ground arith in
        let e : (bit + b) % 64 ≡ bit + b - 64 = omega arith in
        rw (next, e)
          (omega (
            arith,
            length-pack_words ds (bit + b - 64) (d / 2 ^ (64 - bit)) (omega arith),
            mul-suc b (length ds),
          ))
  ]

  pack_words-All :
      (ds : List ℕ) (bit word : ℕ)
      → word < 2 ^ 64
      → All (λ d. d < 2 ^ b) ds
      → All (λ n. n < 2 ^ 64) (pack_words b bit word ds)
  unfolding pack_words
  pack_words-All [] bit word h a = ground arith
  pack_words-All (d ∷ ds) bit word h (fits, a) =
      let whole = or-less 64 word (u64 (d * 2 ^ bit)) h (omega arith) in
      elim (Bool-cases (ltb (bit + b) 64)) [
        | inl same ↦ rw same (pack_words-All ds ((bit + b) % 64) _ whole a)
        | inr next ↦ rw next (
          whole,
          pack_words-All ds ((bit + b) % 64) _
              (omega (arith, div-le_self d (2 ^ (64 - bit)), two_pow_mono b 64 (omega arith))) a,
        )
      ]

or_all-less : (b : ℕ) (values : List ℕ) → All (λ d. d < 2 ^ b) values → or_all values < 2 ^ b
unfolding or_all
or_all-less b [] a = one-le-pow b 2 (omega arith)
or_all-less b (d ∷ ds) (fits, a) = or-less b d (or_all ds) fits (or_all-less b ds a)

-- The bytes of a batch.
abbrev pub packed : ℕ → List ℕ → List ℕ
packed b values = array_bytes 8 (pack_words b 0 0 values)

-- A batch of values below 2^b.
module _ (b : ℕ) (values : List ℕ) (positive : 0 < b) (narrow : b ≤ 32)
    (full : length values ≡ batch_size) (fits : All (λ d. d < 2 ^ b) values) where
  word_count : length (pack_words b 0 0 values) ≡ 2 * b
  word_count =
      length-pack_words b positive narrow values 0 0 (omega arith)
      ∙ omega (arith, ap (λ (t : ℕ). b * t) full)

  pub length-packed : length (packed b values) ≡ fixed_length_buffer_size b
  unfolding fixed_length_buffer_size
  length-packed = length-array_bytes 8 (pack_words b 0 0 values) ∙ omega (arith, word_count)

  pub fixed_length_encode-packed : fixed_length_encode values b ≡ some (packed b values)
  unfolding fixed_length_encode
  fixed_length_encode-packed =
      let nothing_over : or_all values / 2 ^ b ≡ 0 = div-eq_of_lt (or_all-less b values fits) in
      ground arith

  -- What is behind the packed bytes does not matter.
  pub fixed_length_decode-packed :
      (rest : List ℕ) → fixed_length_decode (packed b values ++ rest) b ≡ some values
  unfolding fixed_length_decode
  fixed_length_decode-packed rest = rw (
    le→leb (fixed_length_buffer_size b) (length (packed b values ++ rest))
        (omega (arith, length-packed, length-append (packed b values) rest)),
    ← word_count,
    words_of-array_bytes (pack_words b 0 0 values) rest
        (pack_words-All b positive narrow values 0 0 (omega arith) fits),
    ← full,
    unpack_words-pack_words b positive narrow values 0 0 (omega arith) (omega arith) fits,
  )

-- For each number of bits from 1 to 32 and any 128 values that have no more: packing succeeds, takes
-- 16 bytes for each bit, and unpacking gives the values back, whatever is behind these bytes.
pub fixed_length_decode-fixed_length_encode :
    (b : ℕ) (values rest : List ℕ)
    → 0 < b
    → b ≤ 32
    → length values ≡ batch_size
    → All (λ d. d < 2 ^ b) values
    → (bytes : List ℕ) × (fixed_length_encode values b ≡ some bytes)
      × (length bytes ≡ 16 * b)
      × (fixed_length_decode (bytes ++ rest) b ≡ some values)
unfolding fixed_length_buffer_size
fixed_length_decode-fixed_length_encode b values rest positive narrow full fits = (
  packed b values,
  fixed_length_encode-packed b values positive narrow full fits,
  length-packed b values positive narrow full fits ∙ omega arith,
  fixed_length_decode-packed b values positive narrow full fits rest,
)
