-- ===== src/RidCompress/Params/Chosen.antt =====
-- What the parameters that are chosen for a batch guarantee: a fixed length below 32 and an
-- exception type that holds every value.
use alacrity_adios.Prelude.{ℕ, zero, suc, ◌+◌, ◌*◌, ◌^◌, ◌≤◌, ◌<◌, ◌≡◌, refl, ap}
use alacrity_adios.Prelude.{◌∙◌, arith, true, false, Bool-cases, inl, inr, ltb, ltb→lt, lt→ltb}
use alacrity_adios.Prelude.{◌==◌, List, [], ◌∷◌, length, All, bit_or, replicate}
use alacrity_adios.Prelude.{some}
use alacrity_adios.Prelude.Division.{two_pow_mono}
use alacrity_adios.Prelude.BitOr.{le_or, le_or_right, or-less}
use alacrity_adios.RidCompress.FixedLength.{or_all, fixed_length_buffer_size, batch_size}
use alacrity_adios.RidCompress.Exceptions.{ExceptionType, ValueType, value_type, width, to_uint32}
use alacrity_adios.RidCompress.Exceptions.{get_exception_value_size, type_code}
use alacrity_adios.RidCompress.Exceptions.Stack.{Holds}
use alacrity_adios.RidCompress.Header.{sufficient_buffer_capacity}
use alacrity_adios.RidCompress.Params.{whole_words, required_buffer_size, count_exceptions, Best}
use alacrity_adios.RidCompress.Params.{better, best_length, type_for, first_best, optimal_param}
use alacrity_adios.RidCompress.Params.{count_lengths}
use alacrity_adios.RidCompress.Params.HighestBit.{highest_set_bit}
use alacrity_adios.RidCompress.Params.HighestBit.Logarithm.{highest_set_bit_lem}
use native.Mathlib.Nat.{mod-eq_of_lt}

-- Every positive number has a highest bit.
log_there : (m v : ℕ) → 0 < v → v < 2 ^ m → (n : ℕ) × (n < m) × (2 ^ n ≤ v) × (v < 2 ^ suc n)
log_there zero v p h = absurd (omega arith)
log_there (suc m) v p h = elim (Bool-cases (ltb v (2 ^ m))) [
  | inl low ↦ let (n, q, a, b) = log_there m v p (ltb→lt v (2 ^ m) low) in (n, omega arith, a, b)
  | inr high ↦ (m, omega arith, ground arith, h)
]

-- A type, the enumerator that stands for it, and a bound on what it holds.
record IsTypeFor (bound : ℕ) (t : ExceptionType) (size : ℕ) : Type 0 where
  type : ValueType
  type_known : value_type t ≡ some type
  size_known : get_exception_value_size t ≡ some size
  size_is_width : size ≡ width type
  size_small : size ≤ 4
  holds : (v : ℕ) → v < bound → Holds type v

type_for-IsTypeFor :
    (n bound : ℕ) → n < 32 → bound ≤ 2 ^ suc n → IsTypeFor bound (type_for n).0 (type_for n).1
unfolding type_for get_exception_value_size type_code value_type width to_uint32
type_for-IsTypeFor n bound h b = elim (Bool-cases (ltb n 8)) [
  | inl narrow ↦ rw narrow (record {
    type = ValueType.unsigned_char;
    type_known = refl;
    size_known = refl;
    size_is_width = refl;
    size_small = omega arith;
    holds = λ v p. mod-eq_of_lt (omega (arith, two_pow_mono (suc n) 8 (ltb→lt n 8 narrow)));
  })
  | inr wider ↦ elim (Bool-cases (ltb n 16)) [
    | inl short ↦
        rw (wider, short)
          (record {
            type = ValueType.unsigned_short;
            type_known = refl;
            size_known = refl;
            size_is_width = refl;
            size_small = omega arith;
            holds =
                λ v p. mod-eq_of_lt (omega (arith, two_pow_mono (suc n) 16 (ltb→lt n 16 short)));
          })
    | inr long ↦
        rw (wider, long)
          (record {
            type = ValueType.unsigned_int;
            type_known = refl;
            size_known = refl;
            size_is_width = refl;
            size_small = omega arith;
            holds = λ v p. mod-eq_of_lt (omega (arith, two_pow_mono (suc n) 32 h));
          })
  ]
]

length-count_exceptions :
    (l : ℕ) (length_counts exception_counts : List ℕ)
    → length (count_exceptions l length_counts exception_counts) ≡ l + length exception_counts
unfolding count_exceptions
length-count_exceptions zero lc ec = omega arith
length-count_exceptions (suc l) lc ec = length-count_exceptions l lc (_ ∷ ec) ∙ omega arith

-- No length of 32 is better than one that needs at most as many bytes as 128 exceptions.
record IsLow (best : Best) : Type 0 where
  length_low : best.length < 32
  size_low : best.buffer_size ≤ 520

better-IsLow :
    (size l count : ℕ) (best : Best)
    → l < 32
    → IsLow best
    → IsLow (better (l + 1) (required_buffer_size (l + 1) count size) best)
unfolding better required_buffer_size fixed_length_buffer_size
better-IsLow size l count best h w =
    elim (Bool-cases (ltb (required_buffer_size (l + 1) count size) best.buffer_size)) [
      | inl less ↦
          let smaller = ltb→lt (required_buffer_size (l + 1) count size) best.buffer_size less in
          rw less (record {
            length_low = omega (arith, smaller, w.size_low);
            size_low = omega (arith, smaller, w.size_low);
          })
      | inr not_less ↦ rw not_less w
    ]

best_length-IsLow :
    (size l : ℕ) (counts : List ℕ) (best : Best)
    → l + length counts ≤ 32
    → IsLow best
    → IsLow (best_length size l counts best)
unfolding best_length
best_length-IsLow size l [] best h w = w
best_length-IsLow size l (c ∷ counts) best h w =
    best_length-IsLow size (l + 1) counts _ (omega arith)
      (better-IsLow size l c best (omega arith) w)

pub product_bound : (a b : ℕ) → a ≤ 128 → b ≤ 4 → a * b ≤ 512
product_bound a b p q = grind arith

first_best-IsLow :
    (significant size : ℕ) → significant ≤ 128 → size ≤ 4 → IsLow (first_best significant size)
unfolding first_best whole_words
first_best-IsLow significant size h p =
    let few : ltb significant sufficient_buffer_capacity ≡ true = lt→ltb _ _ (omega arith) in
    rw few (record {
      length_low = omega arith;
      size_low = omega (arith, product_bound significant size h p);
    })

-- The parameters of a batch of values.
pub record IsChosen (values : List ℕ) (fixed_length : ℕ) (t : ExceptionType) : Type 0 where
  pub length_small : fixed_length < 32
  pub type : ValueType
  pub type_known : value_type t ≡ some type
  pub size_known : get_exception_value_size t ≡ some (width type)
  pub width_small : width type ≤ 4
  pub holds : All (Holds type) values

All-le_or_all :
    (P : ℕ → Type 0) (bound : ℕ) (values : List ℕ)
    → ((v : ℕ) → v < bound → P v)
    → or_all values < bound
    → All P values
unfolding or_all
All-le_or_all P bound [] f h = tt
All-le_or_all P bound (v ∷ vs) f h = (
  f v (omega (arith, le_or v (or_all vs))),
  All-le_or_all P bound vs f (omega (arith, le_or_right v (or_all vs))),
)

or_all-less_u32 : (values : List ℕ) → All (λ v. v < 2 ^ 32) values → or_all values < 2 ^ 32
unfolding or_all
or_all-less_u32 [] a = omega arith
or_all-less_u32 (v ∷ vs) (h, a) = or-less 32 v (or_all vs) h (or_all-less_u32 vs a)

-- For a whole batch of 32-bit values, parameters are always found; the fixed length is below 32,
-- so that no length is stored that would be taken for the mark of an unpacked batch, and the
-- exception type, whose size is the one that is looked up for it, holds every value.
pub optimal_param-IsChosen :
    (values : List ℕ) (significant_data_size : ℕ)
    → length values ≡ batch_size
    → significant_data_size ≤ batch_size
    → All (λ v. v < 2 ^ 32) values
    → (fixed_length : ℕ) × (t : ExceptionType) × (optimal_param values significant_data_size
        ≡ some (fixed_length, t))
      × IsChosen values fixed_length t
unfolding optimal_param
optimal_param-IsChosen values s l p a =
    let mask = bit_or (or_all values) 1 in
    let mask_small = or-less 32 (or_all values) 1 (or_all-less_u32 values a) (omega arith) in
    let (n, small, above, below) =
      log_there 32 mask (omega (arith, le_or_right (or_all values) 1)) mask_small in
    let top : highest_set_bit mask ≡ n = highest_set_bit_lem n mask (omega arith) above below in
    let t = type_for-IsTypeFor n (mask + 1) small (omega arith) in
    let full : (length values == batch_size) ≡ true = rw l in
    let not_over : ltb (length values) s ≡ false = rw l (ground arith) in
    let counts = count_exceptions 31 (count_lengths (replicate 32 0) values) (0 ∷ []) in
    let first = first_best s (type_for n).1 in
    let low =
      best_length-IsLow (type_for n).1 0 counts first
        (omega (arith, length-count_exceptions 31 (count_lengths (replicate 32 0) values) (0 ∷ [])))
        (first_best-IsLow s (type_for n).1 p t.size_small) in
    (
      (best_length (type_for n).1 0 counts first).length,
      (type_for n).0,
      rw (full, not_over, top),
      record {
        length_small = low.length_low;
        type = t.type;
        type_known = t.type_known;
        size_known = t.size_known ∙ ap some t.size_is_width;
        width_small = rw (← t.size_is_width) t.size_small;
        holds =
            All-le_or_all (Holds t.type) (mask + 1) values t.holds
              (omega (arith, le_or (or_all values) 1));
      },
    )
