-- ===== src/Uniquery/Query/Searched.antt =====
-- What the search by bin values is given for the bounds of a query.
use alacrity_adios.Prelude.{
  ℕ, suc, ◌+◌, ◌-◌, ◌*◌, ◌/◌, ◌%◌, ◌≤◌, ◌<◌, ◌^◌, ◌≡◌, ◌≢◌, refl, ap, ◌∙◌, arith,
}
use alacrity_adios.Prelude.{false, ltb, Bool-cases, inl, inr, append-nil}
use alacrity_adios.Prelude.{List, [], ◌∷◌, ◌++◌}
use alacrity_adios.Prelude.Division.{mod_of_parts, two_pow_add, two_pow_mono}
use alacrity_adios.Types.{Metadata}
use alacrity_adios.Datum.{insig_bits}
use alacrity_adios.Encode.Tables.{Distinct}
use alacrity_adios.Uniquery.BinRange.{find_bin_range_1c, find_bin_range_1c_template, search_bins}
use alacrity_adios.Uniquery.BinRange.{conv_1c_to_2c}
use alacrity_adios.Uniquery.BinRange.Signs.{conv_1c-key, origin}
use alacrity_adios.Uniquery.BinRange.Search.{IsOrdered}
use alacrity_adios.Uniquery.FloatOrder.{is_nan}
use alacrity_adios.Uniquery.Query.Segments.{Group, bin_values_of, rows_of}
use alacrity_adios.Uniquery.Query.Selecting.{InBins, bin_place, wide, divisor}
use alacrity_adios.Uniquery.Query.Touched.{}
use alacrity_adios.Uniquery.Query.Selecting.{rows_of-append}
use alacrity_adios.Uniquery.BinRange.Signs.{key}
use native.Mathlib.Nat.{mod-lt, mod-eq_of_lt, pow-suc, one-le-pow, div-lt_iff_lt-mul}
use alacrity_adios.Uniquery.Query.Bounds.{IsFloat, low_bound, high_bound, find_by_size}

-- A query, of bounds that are numbers and whose bins are not those of the zeros, of a partition whose
-- bins have k + 1 bits and come in the order of one's complement.
pub record IsAnswerable (m : Metadata) (k lb ub : ℕ) (groups : List Group) : Type 0 where
  pub float : IsFloat m
  pub bits : m.significant_bits ≡ suc k
  pub some_low : suc k < 8 * m.element_size
  pub ordered : IsOrdered (8 * m.element_size) k (bin_values_of groups)
  pub distinct : Distinct (bin_values_of groups)
  pub in_bins :
      InBins m.element_size
        (insig_bits m.element_size m.significant_bits)
        k
        (low_bound m lb ub)
        (high_bound m lb ub)
        groups
  pub lb_number : is_nan m.element_size (low_bound m lb ub) ≡ false
  pub ub_number : is_nan m.element_size (high_bound m lb ub) ≡ false
  pub lb_apart : low_bound m lb ub / 2 ^ insig_bits m.element_size m.significant_bits % 2 ^ k ≢ 0
  pub ub_apart : high_bound m lb ub / 2 ^ insig_bits m.element_size m.significant_bits % 2 ^ k ≢ 0

module _ (m : Metadata) (k lb ub : ℕ) (groups : List Group)
    (w : IsAnswerable m k lb ub groups) where
  abbrev e : ℕ
  e = m.element_size

  abbrev cb : ℕ
  cb = insig_bits m.element_size m.significant_bits

  abbrev asked_lb : ℕ
  asked_lb = low_bound m lb ub

  abbrev asked_ub : ℕ
  asked_ub = high_bound m lb ub

  -- The sizes of the line.
  lines : (8 * e - 1 ≡ k + cb) × (8 * e ≡ suc k + cb) × (8 * e ≡ suc (8 * e - 1))
  lines = (
    omega (arith, w.bits, w.some_low),
    omega (arith, w.bits, w.some_low),
    omega (arith, w.some_low),
  )

  pub room : wide e cb k asked_lb asked_ub ≡ 2 ^ k * divisor e cb k asked_lb asked_ub
  room = let (a, _, _) = lines in ap (λ (t : ℕ). 2 ^ t) a ∙ two_pow_add k cb

  pub double : 2 ^ (8 * e) ≡ wide e cb k asked_lb asked_ub + wide e cb k asked_lb asked_ub
  double =
      let (_, _, c) = lines in
      let p = pow-suc 2 (8 * e - 1) in omega (arith, ap (λ (t : ℕ). 2 ^ t) c, p)

  pub high_fits : (x : ℕ) → x < 2 ^ (8 * e) → x / 2 ^ cb < 2 ^ suc k
  high_fits x h =
      let (_, b, _) = lines in
      (div-lt_iff_lt-mul (one-le-pow cb 2 (omega arith))).1
        (omega (arith, h, ap (λ (t : ℕ). 2 ^ t) b, two_pow_add (suc k) cb))

  pub asked_lb_fits : asked_lb < 2 ^ (8 * e)
  asked_lb_fits = mod-lt lb (one-le-pow (8 * e) 2 (omega arith))

  pub asked_ub_fits : asked_ub < 2 ^ (8 * e)
  asked_ub_fits = mod-lt ub (one-le-pow (8 * e) 2 (omega arith))

  pub half_fits : 2 ^ k ≤ wide e cb k asked_lb asked_ub
  half_fits = let (a, _, _) = lines in two_pow_mono k (8 * e - 1) (omega (arith, a))

  -- A bound whose magnitude does not vanish is not placed at zero.
  pub apart :
      (v : ℕ)
      → v < 2 ^ suc k
      → v % 2 ^ k ≢ 0
      → bin_place e cb k asked_lb asked_ub v ≢ wide e cb k asked_lb asked_ub
  unfolding key
  apart v fits left same = elim (Bool-cases (ltb v (2 ^ k))) [
    | inl low ↦
        let none_of : v ≡ 0 = ground (arith, same, low) in
        left (mod_of_parts v 0 0 (2 ^ k) (omega (arith, none_of)) (one-le-pow k 2 (omega arith)))
    | inr high ↦
        let at_half : v ≡ 2 ^ k = ground (arith, same, high, half_fits, fits, pow-suc 2 k) in
        left (mod_of_parts v 1 0 (2 ^ k) (omega (arith, at_half)) (one-le-pow k 2 (omega arith)))
  ]

  abbrev pub converted : ℕ → ℕ
  converted x = conv_1c_to_2c (8 * e) (x / 2 ^ cb) (2 ^ k)

  pub placed :
      (x : ℕ)
      → x < 2 ^ (8 * e)
      → (converted x + origin (8 * e)) % 2 ^ (8 * e)
        ≡ bin_place e cb k asked_lb asked_ub (x / 2 ^ cb)
  placed x h = conv_1c-key (8 * e) k w.some_low (x / 2 ^ cb) (high_fits x h)

  pub searched :
      find_bin_range_1c m lb ub
      ≡ search_bins (8 * e) (2 ^ k) (converted asked_lb) (converted asked_ub) m.bin_layout
  unfolding find_bin_range_1c_template
  searched =
      let less : m.significant_bits - 1 ≡ k = omega (arith, w.bits) in
      let sign : 2 ^ k % 2 ^ (8 * e) ≡ 2 ^ k =
        mod-eq_of_lt (omega (arith, half_fits, double, one-le-pow (8 * e - 1) 2)) in
      find_by_size m lb ub w.float ∙ rw (less, sign) refl

  pub whole_rows :
      (first : Group) (middle : List Group) (last : Group)
      → rows_of (first ∷ (middle ++ (last ∷ []))) ≡ first.1 ++ (rows_of middle ++ last.1)
  unfolding rows_of
  whole_rows first middle last =
      ap (λ t. first.1 ++ t)
        (rows_of-append middle (last ∷ []) ∙ ap (λ t. rows_of middle ++ t) (append-nil last.1))
