-- ===== src/Decode/RoundTrip.antt =====
-- ALDecode gives back what ALEncode was given.
use alacrity_adios.Prelude.{ℕ, suc, ◌+◌, ◌^◌, ◌<◌, ◌≡◌, refl, sym, ap, ap₂, ◌∙◌, arith}
use alacrity_adios.Prelude.{List, [], ◌∷◌, ◌++◌, length, All, map, append-nil, get_or, get_elem?}
use alacrity_adios.Prelude.{Option, some, ◌*◌, ◌≤◌}
use alacrity_adios.Memory.{array_bytes}
use alacrity_adios.Types.{AlError, IndexForm, PartitionData, insig_bytes_ceil}
use alacrity_adios.Config.{EncoderConfig}
use alacrity_adios.Datum.{high_part}
use alacrity_adios.Encode.{encode, partition_of, init_metadata}
use alacrity_adios.Encode.Tables.{occurrences, ends}
use alacrity_adios.Encode.Scatter.{bucket}
use alacrity_adios.Encode.Fresh.{by_value, keys}
use alacrity_adios.Encode.Binning.{IsInput, high_parts, bins, layout_of}
use alacrity_adios.Encode.Inverting.{low_items, row_items, inverted_partition, bins-Has}
use alacrity_adios.Encode.Inverting.{encode-inverted_partition}
use alacrity_adios.Decode.{decode, decode_form, decode_with_inverted_index}
use alacrity_adios.Decode.Rows.{rows, low_of, IsRow, rows-IsRow, bucket-low_items, bucket-row_items}
use alacrity_adios.Decode.Rows.{write_rows, length-write_rows, written, row_there, bucket-All}
use alacrity_adios.Decode.Elements.{map_append, decode_bins-write_rows}
use native.Mathlib.Nat.{mod-eq_of_lt}

All-append : {A : Type 0} (P : A → Type 0) (xs ys : List A) → All P xs → All P ys → All P (xs ++ ys)
All-append P [] ys a b = b
All-append P (x ∷ xs) ys (p, a) b = (p, All-append P xs ys a b)

same_elements :
    (xs ys : List ℕ)
    → length xs ≡ length ys
    → ((i : ℕ) → i < length xs → get_or xs i 0 ≡ get_or ys i 0)
    → xs ≡ ys
same_elements [] [] l h = refl
same_elements [] (y ∷ ys) l h = absurd (omega arith)
same_elements (x ∷ xs) [] l h = absurd (omega arith)
same_elements (x ∷ xs) (y ∷ ys) l h =
    ap₂ ◌∷◌ (h 0 (omega arith)) (same_elements xs ys (omega arith) (λ i p. h (suc i) (omega arith)))

module _ (config : EncoderConfig) where
  keys-rows : (rid : ℕ) (xs : List ℕ) → keys (rows config rid xs) ≡ high_parts config xs
  unfolding rows
  keys-rows rid [] = refl
  keys-rows rid (x ∷ xs) =
      ap (λ t. high_part config.element_size config.significant_bits x ∷ t) (keys-rows (rid + 1) xs)

  by_value-low_items :
      (ws xs : List ℕ)
      → by_value ws (low_items config xs) ≡ map (low_of config) (by_value ws (rows config 0 xs))
  unfolding by_value
  by_value-low_items [] xs = refl
  by_value-low_items (v ∷ ws) xs =
      ap₂ ◌++◌ (bucket-low_items config v 0 xs) (by_value-low_items ws xs)
      ∙ sym (map_append (low_of config) (bucket v (rows config 0 xs)) _)

  by_value-row_items :
      (ws xs : List ℕ)
      → by_value ws (row_items config 0 xs) ≡ map (λ a. a.0) (by_value ws (rows config 0 xs))
  unfolding by_value
  by_value-row_items [] xs = refl
  by_value-row_items (v ∷ ws) xs =
      ap₂ ◌++◌ (bucket-row_items config v 0 xs) (by_value-row_items ws xs)
      ∙ sym (map_append (λ a. a.0) (bucket v (rows config 0 xs)) _)

module _ (config : EncoderConfig) (input : List ℕ) (w : IsInput config input) where
  good : All (λ it. IsRow config input it.0 it.1.0 it.1.1) (rows config 0 input)
  good =
      rows-IsRow config input 0 input (λ i h. let e : 0 + i ≡ i = omega arith in rw e) (omega arith)
        w.elements_fit

  good_by_value :
      (ws : List ℕ) (n : ℕ)
      → n ≡ length input
      → All (λ a. (get_or input a.0 0 ≡ a.1) × (a.0 < n)) (by_value ws (rows config 0 input))
  unfolding by_value
  good_by_value [] n e = tt
  good_by_value (v ∷ ws) n e =
      All-append _ (bucket v (rows config 0 input)) _
        (bucket_good (bucket v (rows config 0 input))
          (bucket-All (λ k a. IsRow config input k a.0 a.1) v (rows config 0 input) good))
        (good_by_value ws n e)
    where
      bucket_good :
          (rs : List (ℕ × ℕ))
          → All (λ a. IsRow config input v a.0 a.1) rs
          → All (λ a. (get_or input a.0 0 ≡ a.1) × (a.0 < n)) rs
      bucket_good [] a = tt
      bucket_good ((r, x) ∷ rs) (row, a) =
          ((row.there, omega (arith, row.inside)), bucket_good rs a)

  -- Writing all rows, in the order of the bins, over anything gives the input.
  all_written :
      (output : List ℕ)
      → length output ≡ length input
      → write_rows (by_value (bins config input) (rows config 0 input)) output ≡ input
  all_written output l =
      let rs = by_value (bins config input) (rows config 0 input) in
      let n : length (write_rows rs output) ≡ length input = length-write_rows rs output ∙ l in
      same_elements (write_rows rs output) input n (λ i h.
        written input rs output i (good_by_value (bins config input) (length output) l)
          (row_there config (bins config input) input i (bins-Has config input w) (omega arith)))

  inverted_decoded :
      (output : List ℕ)
      → length input * config.element_size ≤ 2 ^ 32
      → length output ≡ length input
      → decode_with_inverted_index (inverted_partition config input) output
        ≡ some (record { error = AlError.error_none; output = input; output_count = length input })
  unfolding decode_with_inverted_index inverted_partition partition_of init_metadata layout_of
  inverted_decoded output small l =
      let ws = bins config input in
      let c = keys-rows config 0 input in
      let values : (j : ℕ) → get_elem? ws (0 + j) ≡ get_elem? ws j =
        λ j. let e : 0 + j ≡ j = omega arith in rw e in
      let offsets : (j : ℕ)
          → get_elem? (layout_of config input).bin_start_offsets (0 + 1 + j)
            ≡ get_elem? (ends (λ v. occurrences v (keys (rows config 0 input))) 0 ws) j =
        λ j. let e : 0 + 1 + j ≡ suc j = omega arith in rw (e, c) in
      let low_width = insig_bytes_ceil config.element_size config.significant_bits in
      let data_bytes =
        ap (array_bytes low_width) (by_value-low_items config ws input)
        ∙ sym (
            append-nil
              (array_bytes low_width (map (low_of config) (by_value ws (rows config 0 input))))) in
      let index_bytes =
        ap (array_bytes 4) (by_value-row_items config ws input)
        ∙ sym (append-nil (array_bytes 4 (map (λ a. a.0) (by_value ws (rows config 0 input))))) in
      rw (
        data_bytes,
        index_bytes,
        decode_bins-write_rows config input w small
            (init_metadata config (length input) (layout_of config input)) refl refl
            (rows config 0 input) good ws 0 0 [] [] output values offsets l,
        all_written output l,
        mod-eq_of_lt {n = length input} {m = 2 ^ 32} (omega (arith, w.count_fits)),
      )

-- Decoding the inverted-index partition that describes an input that the encoder is meant for, of
-- elements that take 4 GB at most, gives the input back, whatever the output buffer of that many
-- elements held, and counts its elements.
pub decode-inverted_partition :
    (decompress_rids : List ℕ → Option (List ℕ)) (config : EncoderConfig) (input output : List ℕ)
    (output_count : ℕ)
    → IsInput config input
    → config.index_form ≡ IndexForm.inverted_index
    → length input * config.element_size ≤ 2 ^ 32
    → length output ≡ length input
    → decode decompress_rids (inverted_partition config input) output output_count
      ≡ some (record { error = AlError.error_none; output = input; output_count = length input })
unfolding decode decode_form inverted_partition partition_of init_metadata
decode-inverted_partition decompress_rids config input output output_count w form small l =
    ap (λ f. decode_form decompress_rids f (inverted_partition config input) output output_count)
      form
    ∙ inverted_decoded config input w output small l

-- Encoding an input that the encoder is meant for, of elements that take 4 GB at most, into an
-- inverted index, from data and index buffers with room for it, succeeds, and decoding the partition
-- into an output of the input's length gives the input back and its number of elements, whatever
-- these buffers held.
pub decode-encode :
    (decompress_rids : List ℕ → Option (List ℕ)) (config : EncoderConfig)
    (input lows rids output : List ℕ) (output_count : ℕ)
    → IsInput config input
    → config.index_form ≡ IndexForm.inverted_index
    → length input * config.element_size ≤ 2 ^ 32
    → length lows ≡ length input
    → length rids ≡ length input
    → length output ≡ length input
    → (p : PartitionData) × (encode config input (record { lows = lows; rids = rids })
        ≡ some (AlError.error_none, p))
      × (decode decompress_rids p output output_count
          ≡ some
              (record { error = AlError.error_none; output = input; output_count = length input }))
decode-encode decompress_rids config input lows rids output output_count w form small l r o = (
  inverted_partition config input,
  encode-inverted_partition config input lows rids w form l r,
  decode-inverted_partition decompress_rids config input output output_count w form small o,
)
