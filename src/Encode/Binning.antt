-- ===== src/Encode/Binning.antt =====
-- determineBinLayout: the bin layout and the lookup table of an input, described by the number of
-- elements that each bin value has.
use alacrity_adios.Prelude.{ℕ, ◌+◌, ◌*◌, ◌-◌, ◌^◌, ◌<◌, ◌≤◌, ◌≡◌, ap, ◌∙◌, arith}
use alacrity_adios.Prelude.{true, List, [], ◌∷◌, length}
use alacrity_adios.Prelude.{All, inl, inr, map}
use alacrity_adios.Prelude.Division.{two_pow_mono}
use alacrity_adios.Types.{BinLayout}
use alacrity_adios.Config.{EncoderConfig}
use alacrity_adios.Datum.{is_datum_size, high_part}
use alacrity_adios.Datum.RoundTrip.{high_bits, top_bits}
use alacrity_adios.Encode.{Counts, count_data, bin_values_in_1c_order}
use alacrity_adios.Encode.{determine_bin_layout}
use alacrity_adios.Encode.Tables.{Has, occurrences, present, total, ends, total-present}
use alacrity_adios.Encode.Order.{order-Distinct, order-Has, length-order}
use alacrity_adios.Encode.Counting.{IsCount, count_data-IsCount, zero-IsCount}
use alacrity_adios.Encode.Scanning.{scan_values-IsScanned, position}
use std.Path.{fun_ext}

-- An input that the encoder is meant for: elements of 2, 4 or 8 bytes, between 1 and 31
-- significant bits but not more than an element has, and fewer than 2^32 - 1 elements.
pub record IsInput (config : EncoderConfig) (input : List ℕ) : Type 0 where
  pub size_known : is_datum_size config.element_size ≡ true
  pub some_bits : 0 < config.significant_bits
  pub few_bits : config.significant_bits < 32
  pub bits_there : config.significant_bits ≤ 8 * config.element_size
  pub elements_fit : All (λ x. x < 256 ^ config.element_size) input
  pub count_fits : length input < 2 ^ 32 - 1

-- The bin values of the elements.
abbrev pub high_parts : EncoderConfig → List ℕ → List ℕ
high_parts config input = map (high_part config.element_size config.significant_bits) input

-- The bin values that occur, in the order of the bins.
unfoldable pub bins : EncoderConfig → List ℕ → List ℕ
bins config input =
    present (λ v. occurrences v (high_parts config input))
      (bin_values_in_1c_order config.significant_bits)

-- One bin for each value that occurs; its elements end after those of all bins up to it.
unfoldable pub layout_of : EncoderConfig → List ℕ → BinLayout
layout_of config input = record {
  num_bins = length (bins config input);
  bin_values = bins config input;
  bin_start_offsets = 0 ∷ ends (λ v. occurrences v (high_parts config input)) 0 (bins config input);
}

same_layout :
    {n n' : ℕ} {ws ws' os os' : List ℕ}
    → n ≡ n'
    → ws ≡ ws'
    → os ≡ os'
    → ◌≡◌ {A = BinLayout}
        (record { num_bins = n; bin_values = ws; bin_start_offsets = os })
        (record { num_bins = n'; bin_values = ws'; bin_start_offsets = os' })
same_layout e f g = rw (e, f, g)

pub occurs : (v : ℕ) (hs : List ℕ) → Has v hs → 0 < occurrences v hs
unfolding occurrences
occurs v [] m = absurd m
occurs v (h ∷ hs) (inl e) = ground arith
occurs v (h ∷ hs) (inr m) = ground (arith, occurs v hs m)

pub All-Has : (P : ℕ → Type 0) (v : ℕ) (hs : List ℕ) → All P hs → Has v hs → P v
All-Has P v [] a m = absurd m
All-Has P v (h ∷ hs) (p, a) (inl e) = rw e at p
All-Has P v (h ∷ hs) (p, a) (inr m) = All-Has P v hs a m

module _ (config : EncoderConfig) where
  abbrev order : List ℕ
  order = bin_values_in_1c_order config.significant_bits

  small_size : (e : ℕ) → is_datum_size e ≡ true → e ≤ 8
  unfolding is_datum_size
  small_size e h = ground arith

  -- Every bin value is one of those that the scan visits.
  pub high_parts_visited :
      (input : List ℕ) → IsInput config input → All (λ h. Has h order) (high_parts config input)
  high_parts_visited [] w = tt
  high_parts_visited (x ∷ xs) w =
      let e = config.element_size in
      let s = config.significant_bits in
      let small : e ≤ 8 = small_size e w.size_known in
      let (fits, fit) = w.elements_fit in
      let top : high_part e s x < 2 ^ s =
        rw (high_bits e s x fits w.bits_there w.few_bits small)
          (top_bits e s x fits w.bits_there w.few_bits small) in
      (
        order-Has s w.some_bits (omega (arith, w.few_bits)) _ top,
        high_parts_visited xs (record {
          size_known = w.size_known;
          some_bits = w.some_bits;
          few_bits = w.few_bits;
          bits_there = w.bits_there;
          elements_fit = fit;
          count_fits = omega (arith, w.count_fits);
        }),
      )

module _ (config : EncoderConfig) (input : List ℕ) (w : IsInput config input) where
  abbrev hs : List ℕ
  hs = high_parts config input

  abbrev vs : List ℕ
  vs = bin_values_in_1c_order config.significant_bits

  few_values : length vs < 2 ^ 32 - 1
  few_values = omega (
    arith,
    length-order config.significant_bits w.some_bits (omega (arith, w.few_bits)),
    two_pow_mono config.significant_bits 31 (omega (arith, w.few_bits)),
  )

  abbrev counts : Counts
  counts =
      count_data config.element_size config.significant_bits input
        (record { table = λ _. 0; num_bins = 0 })

  counted : IsCount vs (length input) counts × ((v : ℕ) → counts.table v ≡ 0 + occurrences v hs)
  counted =
      count_data-IsCount vs
        (order-Distinct config.significant_bits w.some_bits (omega (arith, w.few_bits))) few_values
        config.element_size config.significant_bits input _ 0 _ (omega arith) w.count_fits
        (high_parts_visited config input w) (zero-IsCount vs)

  counts_table : counts.table ≡ (λ v. occurrences v hs)
  counts_table = fun_ext (λ v. counted.1 v ∙ omega arith)

  -- The counts of the bins add up to the number of elements.
  pub total-bins : total (λ v. occurrences v hs) (bins config input) ≡ length input
  unfolding bins
  total-bins = total-present (λ v. occurrences v hs) vs ∙ rw (← counts_table) counted.0.sum

  -- For an input that the encoder is meant for, the first two scans find its bins: the layout has
  -- one bin for each bin value that occurs, in the order of FOR_BIN_VALUE_IN_1C_ORDER, with the
  -- running sums of the element counts as start offsets, and the lookup table takes each element's
  -- bin value to the place of its bin.
  pub determine_bin_layout-layout_of :
      ((determine_bin_layout config input).layout ≡ layout_of config input)
      × ((v : ℕ)
          → Has v hs
          → (determine_bin_layout config input).lookup_table v ≡ position v (bins config input))
  unfolding determine_bin_layout layout_of bins
  determine_bin_layout-layout_of =
      let scanned =
        scan_values-IsScanned vs
          (record {
            cur_bin_id = 0;
            cur_end_offset = 0;
            bin_values = [];
            bin_start_offsets = 0 ∷ [];
            table = counts.table;
          })
          (order-Distinct config.significant_bits w.some_bits (omega (arith, w.few_bits)))
          (omega (arith, counted.0.sum, w.count_fits)) (omega (arith, few_values)) in
      (
        same_layout (counted.0.bins ∙ ap (λ t. length (present t vs)) counts_table)
            (scanned.values ∙ ap (λ t. present t vs) counts_table)
            (scanned.offsets ∙ ap (λ t. 0 ∷ ends t 0 (present t vs)) counts_table),
        λ v m. omega (
          arith,
          scanned.ids v (All-Has (λ h. Has h vs) v hs (high_parts_visited config input w) m)
              (rw counts_table (occurs v hs m)),
          ap (λ t. position v (present t vs)) counts_table,
        ),
      )
