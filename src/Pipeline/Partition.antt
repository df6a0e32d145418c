-- ===== src/Pipeline/Partition.antt =====
-- The encoder's inverted-index partition is a well-formed partition.
use alacrity_adios.Prelude.{ℕ, ◌+◌, ◌*◌, ◌%◌, ◌^◌, ◌<◌, ◌≤◌, ◌≡◌, refl, ◌∙◌, arith}
use alacrity_adios.Prelude.{true, List, [], ◌∷◌, length, All, length-append}
use alacrity_adios.Prelude.Division.{two_pow_mono}
use alacrity_adios.Memory.{array_bytes, length-array_bytes}
use alacrity_adios.Types.{IndexForm, Datatype, form_code, form_of, datatype_code}
use alacrity_adios.Types.{datatype_of, insig_bytes_ceil}
use alacrity_adios.Config.{EncoderConfig, datatype_is_valid}
use alacrity_adios.Datum.{is_datum_size}
use alacrity_adios.Encode.{init_metadata, partition_of, bin_values_in_1c_order}
use alacrity_adios.Encode.Tables.{occurrences, total, ends, present-All, length-present-le}
use alacrity_adios.Encode.Order.{order-range, length-order, All-weaken}
use alacrity_adios.Encode.Scatter.{bucket}
use alacrity_adios.Encode.Fresh.{by_value, keys, length-bucket, length-ends}
use alacrity_adios.Encode.Binning.{IsInput, high_parts, bins, layout_of, total-bins}
use alacrity_adios.Encode.Inverting.{low_items, row_items, keys-low_items, keys-row_items}
use alacrity_adios.Encode.Inverting.{inverted_partition}
use alacrity_adios.Serialization.{is_compressed_form, get_index_size}
use alacrity_adios.Serialization.Format.{IsLayout, IsIndexMetadata, IsPartition}
use mathlib.Core.Bool.{false≢true}
use native.Mathlib.Nat.{mod-eq_of_lt}

ends-All : (c : ℕ → ℕ) (e : ℕ) (ws : List ℕ) → All (λ v. v ≤ e + total c ws) (ends c e ws)
unfolding ends total
ends-All c e [] = tt
ends-All c e (w ∷ ws) =
    (omega arith, All-weaken _ _ _ (λ v h. omega arith) (ends-All c (e + c w) ws))

length-by_value :
    (ws : List ℕ) (items : List (ℕ × ℕ))
    → length (by_value ws items) ≡ total (λ v. occurrences v (keys items)) ws
unfolding by_value total
length-by_value [] items = refl
length-by_value (w ∷ ws) items = omega (
  arith,
  length-append (bucket w items) (by_value ws items),
  length-bucket w items,
  length-by_value ws items,
)

datatype_stored :
    (d : Datatype)
    → datatype_is_valid d ≡ true
    → (datatype_of (datatype_code d) ≡ d) × (datatype_code d < 256 ^ 4)
unfolding datatype_is_valid datatype_of datatype_code
datatype_stored Datatype.datatype_undefined h = (refl, omega arith)
datatype_stored Datatype.datatype_float64 h = (refl, omega arith)
datatype_stored Datatype.datatype_float32 h = (refl, omega arith)
datatype_stored Datatype.min_datatype_enum h = (refl, omega arith)
datatype_stored Datatype.max_datatype_enum h = (refl, omega arith)
datatype_stored (Datatype.unknown_datatype n) h = absurd (false≢true h)

size_at_most : (e : ℕ) → is_datum_size e ≡ true → e ≤ 8
unfolding is_datum_size
size_at_most e h = ground arith

module _ (config : EncoderConfig) (input : List ℕ) (w : IsInput config input) where
  layout_of-IsLayout : IsLayout (layout_of config input)
  unfolding layout_of bins
  layout_of-IsLayout =
      let s = config.significant_bits in
      let few : 2 ^ s ≤ 2 ^ 31 = two_pow_mono s 31 (omega (arith, w.few_bits)) in
      let c : ℕ → ℕ = λ v. occurrences v (high_parts config input) in
      record {
        few_bins = omega (
          arith,
          length-present-le c (bin_values_in_1c_order s),
          length-order s w.some_bits (omega (arith, w.few_bits)),
        );
        values_length = refl;
        offsets_length = omega (arith, length-ends c 0 (bins config input));
        values_fit = present-All _ c _ (
            All-weaken _ _ _ (λ v h. omega arith)
              (order-range s w.some_bits (omega (arith, w.few_bits))));
        offsets_fit = (
          omega arith,
          All-weaken _ _ _ (λ v h. omega (arith, w.count_fits, total-bins config input w))
              (ends-All c 0 (bins config input)),
        );
      }

  -- One entry of a buffer for each element.
  length-by_bins :
      (items : List (ℕ × ℕ))
      → keys items ≡ high_parts config input
      → length (by_value (bins config input) items) ≡ length input
  length-by_bins items e =
      length-by_value (bins config input) items ∙ rw e (total-bins config input w)

  abbrev width : ℕ
  width = insig_bytes_ceil config.element_size config.significant_bits

  data_bytes :
      length (array_bytes width (by_value (bins config input) (low_items config input)))
      ≡ length input * width
  data_bytes =
      length-array_bytes width _ ∙ rw (length-by_bins _ (keys-low_items config input)) (omega arith)

  index_bytes :
      length (array_bytes 4 (by_value (bins config input) (row_items config 0 input)))
      ≡ length input * 4
  index_bytes =
      length-array_bytes 4 _ ∙ rw (length-by_bins _ (keys-row_items config 0 input)) (omega arith)

  form_stored :
      config.index_form ≡ IndexForm.inverted_index
      → IsIndexMetadata
          (layout_of config input)
          (record { index_form = config.index_form; index_bin_start_offsets = [] })
  unfolding form_code form_of is_compressed_form
  form_stored form =
      rw form (record {
        form_named = refl;
        form_fits = omega arith;
        starts_length = refl;
        starts_fit = tt;
      })

  -- The partition by bins is one that the serialiser is meant for, when its data are below 4 GB.
  pub inverted_partition-IsPartition :
      config.index_form ≡ IndexForm.inverted_index
      → datatype_is_valid config.datatype ≡ true
      → length input * width < 2 ^ 32
      → IsPartition (inverted_partition config input)
  unfolding inverted_partition partition_of init_metadata get_index_size
  inverted_partition-IsPartition form valid small =
      let n : length input % 2 ^ 32 ≡ length input = mod-eq_of_lt (omega (arith, w.count_fits)) in
      let (named, fits) = datatype_stored config.datatype valid in
      record {
        metadata = record {
          layout = layout_of-IsLayout;
          index = form_stored form;
          global_fits = omega arith;
          length_fits = omega arith;
          bits_fit = omega (arith, w.few_bits);
          size_fits = omega (arith, size_at_most config.element_size w.size_known);
          endianness_fits = omega arith;
          datatype_named = named;
          datatype_fits = fits;
        };
        data_length = rw n data_bytes;
        data_small = rw data_bytes small;
        index_length = index_bytes ∙ rw (form, n);
        owned = refl;
      }
