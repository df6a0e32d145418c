-- ===== src/Encode/Inverting.antt =====
-- ALEncode into an inverted index, described by the bins: the low-order bytes and the row ids of
-- each bin's elements stand one bin after the other, in the order of the input within a bin.
use alacrity_adios.Prelude.{ℕ, ◌+◌, ◌^◌, ◌<◌, ◌≡◌, refl, sym, ap, ◌∙◌, arith}
use alacrity_adios.Prelude.{Bool, ◌==◌, List, [], ◌∷◌, length, All, inl, inr, Bool-cases}
use alacrity_adios.Prelude.{u32, take, some}
use alacrity_adios.Types.{AlError, IndexForm, PartitionData, insig_bytes_ceil}
use alacrity_adios.Config.{EncoderConfig}
use alacrity_adios.Datum.{high_part, low_part, stored}
use alacrity_adios.Encode.{build_bin_layout, build_inverted_index_from_layout}
use alacrity_adios.Encode.{invert_loop, encode_with_inverted_index, init_metadata}
use alacrity_adios.Encode.{partition_of, encode_form, encode, determine_bin_layout, order_ends}
use alacrity_adios.Encode.Tables.{Distinct, Has, present, present-All}
use alacrity_adios.Encode.Order.{order-Distinct}
use alacrity_adios.Encode.Scanning.{position}
use alacrity_adios.Encode.Scatter.{scatter}
use alacrity_adios.Encode.Fresh.{relabel, keys, by_value, scatter-by_value}
use alacrity_adios.Encode.Binning.{IsInput, high_parts, bins, layout_of, total-bins, occurs}
use alacrity_adios.Encode.Binning.{determine_bin_layout-layout_of, high_parts_visited, All-Has}

pub Has-present : (t : ℕ → ℕ) (v : ℕ) (vs : List ℕ) → Has v vs → 0 < t v → Has v (present t vs)
unfolding present
Has-present t v [] m h = absurd m
Has-present t v (u ∷ vs) (inl e) h =
    let same : (t u == 0) ≡ Bool.false = ground (arith, ap t e) in rw same (inl e)
Has-present t v (u ∷ vs) (inr m) h = elim (Bool-cases (t u == 0)) [
  | inl absent ↦ rw absent (Has-present t v vs m h)
  | inr counted ↦ rw counted (inr (Has-present t v vs m h))
]

pub Distinct-present : (t : ℕ → ℕ) (vs : List ℕ) → Distinct vs → Distinct (present t vs)
unfolding present
Distinct-present t [] d = tt
Distinct-present t (v ∷ vs) (fresh, d) = elim (Bool-cases (t v == 0)) [
  | inl absent ↦ rw absent (Distinct-present t vs d)
  | inr counted ↦ rw counted (present-All _ t vs fresh, Distinct-present t vs d)
]

All-self : (P : ℕ → Type 0) (hs : List ℕ) → ((v : ℕ) → Has v hs → P v) → All P hs
All-self P [] f = tt
All-self P (h ∷ hs) f = (f h (inl refl), All-self P hs (λ v m. f v (inr m)))

-- Each element's stored low-order bytes, and each element's row id, with the bin value as the key.
unfoldable pub low_items : EncoderConfig → List ℕ → List (ℕ × ℕ)
low_items config [] = []
low_items config (x ∷ xs) =
    let s = config.significant_bits in
    (
      high_part config.element_size s x,
      stored (insig_bytes_ceil config.element_size s) (low_part s x),
    )
    ∷ low_items config xs

unfoldable pub row_items : EncoderConfig → ℕ → List ℕ → List (ℕ × ℕ)
row_items config rid [] = []
row_items config rid (x ∷ xs) =
    (high_part config.element_size config.significant_bits x, rid) ∷ row_items config (rid + 1) xs

unfoldable pub inverted_partition : EncoderConfig → List ℕ → PartitionData
inverted_partition config input =
    partition_of (init_metadata config (length input) (layout_of config input))
      (by_value (bins config input) (low_items config input)) 4
      (by_value (bins config input) (row_items config 0 input))

module _ (config : EncoderConfig) where
  pub keys-low_items : (xs : List ℕ) → keys (low_items config xs) ≡ high_parts config xs
  unfolding low_items
  keys-low_items [] = refl
  keys-low_items (x ∷ xs) =
      ap (λ t. high_part config.element_size config.significant_bits x ∷ t) (keys-low_items xs)

  pub keys-row_items :
      (rid : ℕ) (xs : List ℕ) → keys (row_items config rid xs) ≡ high_parts config xs
  unfolding row_items
  keys-row_items rid [] = refl
  keys-row_items rid (x ∷ xs) =
      ap (λ t. high_part config.element_size config.significant_bits x ∷ t)
        (keys-row_items (rid + 1) xs)

  -- The loop is two passes with the same cursors.
  invert_loop-scatter :
      (table : ℕ → ℕ) (xs : List ℕ) (rid : ℕ) (cur lows rids : List ℕ)
      → rid + length xs < 2 ^ 32
      → invert_loop config.element_size config.significant_bits table xs rid cur
          (record { lows = lows; rids = rids })
        ≡ record {
          lows = scatter (relabel table (low_items config xs)) cur lows;
          rids = scatter (relabel table (row_items config rid xs)) cur rids;
        }
  unfolding invert_loop scatter low_items row_items
  invert_loop-scatter table [] rid cur lows rids h = refl
  invert_loop-scatter table (x ∷ xs) rid cur lows rids h =
      let e : u32 (rid + 1) ≡ rid + 1 = omega arith in
      rw e (invert_loop-scatter table xs (rid + 1) _ _ _ (omega arith))

module _ (config : EncoderConfig) (input : List ℕ) (w : IsInput config input) where
  pub bins-Has : (v : ℕ) → Has v (high_parts config input) → Has v (bins config input)
  unfolding bins
  bins-Has v m =
      Has-present _ v _ (All-Has _ v _ (high_parts_visited config input w) m) (occurs v _ m)

  pub bins-Distinct : Distinct (bins config input)
  unfolding bins
  bins-Distinct =
      Distinct-present _ _
        (order-Distinct config.significant_bits w.some_bits (omega (arith, w.few_bits)))

  abbrev table : ℕ → ℕ
  table = (determine_bin_layout config input).lookup_table

  placed :
      All
        (λ k. Has k (bins config input) × (table k ≡ position k (bins config input)))
        (high_parts config input)
  placed =
      All-self _ _ (λ v m. (bins-Has v m, (determine_bin_layout-layout_of config input w).1 v m))

  -- One of the two passes.
  pass :
      (items : List (ℕ × ℕ)) (buf : List ℕ)
      → keys items ≡ high_parts config input
      → length buf ≡ length input
      → scatter
          (relabel table items)
          (take (layout_of config input).num_bins (layout_of config input).bin_start_offsets)
          buf
        ≡ by_value (bins config input) items
  unfolding layout_of
  pass items buf e l = rw (← e) (
      scatter-by_value (bins config input) table items buf bins-Distinct (rw e placed)
        (rw e (l ∙ sym (total-bins config input w))) (omega (arith, w.count_fits)))

  -- The encoding loop, from buffers with room for all elements, whatever they hold.
  pub encode_with_inverted_index-by_value :
      (lows rids : List ℕ)
      → length lows ≡ length input
      → length rids ≡ length input
      → encode_with_inverted_index config
          (layout_of config input)
          table
          input
          (record { lows = lows; rids = rids })
        ≡ record {
          lows = by_value (bins config input) (low_items config input);
          rids = by_value (bins config input) (row_items config 0 input);
        }
  unfolding encode_with_inverted_index
  encode_with_inverted_index-by_value lows rids l r =
      invert_loop-scatter config table input 0 _ lows rids (omega (arith, w.count_fits))
      ∙ rw (
        pass (low_items config input) lows (keys-low_items config input) l,
        pass (row_items config 0 input) rids (keys-row_items config 0 input) r,
      )

inverted_branch :
    (config : EncoderConfig) (input : List ℕ)
    → IsInput config input
    → (lows rids : List ℕ) → length lows ≡ length input
    → length rids ≡ length input
    → encode_form IndexForm.inverted_index config input (record { lows = lows; rids = rids })
      ≡ some (AlError.error_none, inverted_partition config input)
unfolding encode_form inverted_partition
inverted_branch config input w lows rids l r =
    rw ((determine_bin_layout-layout_of config input w).0)
      (rw (encode_with_inverted_index-by_value config input w lows rids l r))

order_ended :
    (config : EncoderConfig) (input : List ℕ)
    → IsInput config input
    → order_ends config.significant_bits ≡ Bool.true
unfolding order_ends
order_ended config input w = let few = w.few_bits in ground arith

-- Encoding an input that the encoder is meant for into an inverted index succeeds, from data and
-- index buffers with room for all elements: the partition has the bin layout of the input, its
-- data are the low-order bytes and its index the row ids of the elements, by bins in the order of
-- FOR_BIN_VALUE_IN_1C_ORDER and in the order of the input within a bin.
pub encode-inverted_partition :
    (config : EncoderConfig) (input lows rids : List ℕ)
    → IsInput config input
    → config.index_form ≡ IndexForm.inverted_index
    → length lows ≡ length input
    → length rids ≡ length input
    → encode config input (record { lows = lows; rids = rids })
      ≡ some (AlError.error_none, inverted_partition config input)
unfolding encode
encode-inverted_partition config input lows rids w form l r =
    rw (w.size_known, order_ended config input w)
      (ap (λ f. encode_form f config input (record { lows = lows; rids = rids })) form
        ∙ inverted_branch config input w lows rids l r)

-- For an input that the encoder is meant for: building the bin layout gives the metadata of the
-- input's layout, and building the inverted index from that layout and its lookup table, in data and
-- index buffers with room for all elements, gives the partition whose data are the low-order bytes
-- and whose index the row ids of the elements, by bins.
pub build_inverted_index_from_layout-build_bin_layout :
    (config : EncoderConfig) (input lows rids : List ℕ)
    → IsInput config input
    → length lows ≡ length input
    → length rids ≡ length input
    → (let (m, table) = (build_bin_layout config input).1 in
        (m ≡ init_metadata config (length input) (layout_of config input))
        × (build_inverted_index_from_layout config input m table
              (record { lows = lows; rids = rids })
            ≡ (AlError.error_none, inverted_partition config input)))
unfolding build_inverted_index_from_layout build_bin_layout inverted_partition init_metadata
build_inverted_index_from_layout-build_bin_layout config input lows rids w l r =
    rw ((determine_bin_layout-layout_of config input w).0)
      (refl, rw (encode_with_inverted_index-by_value config input w lows rids l r) refl)
