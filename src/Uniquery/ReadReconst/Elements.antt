-- ===== src/Uniquery/ReadReconst/Elements.antt =====
-- Reading back elements that the encoder split into bin values and low-order bytes.
use alacrity_adios.Prelude.{ℕ, ◌+◌, ◌*◌, ◌/◌, ◌%◌, ◌≤◌, ◌<◌, ◌^◌, ◌≡◌, refl, ap, ap₂, suc, arith}
use alacrity_adios.Prelude.{List, [], ◌∷◌, ◌++◌, length, map, All, true, false, Option, some}
use alacrity_adios.Prelude.{length-append}
use alacrity_adios.Prelude.BitOr.{or_comm}
use alacrity_adios.Prelude.Bits.{or_high_low}
use alacrity_adios.Memory.{array_bytes}
use alacrity_adios.Types.{Metadata, insig_bytes_ceil}
use alacrity_adios.Datum.{is_datum_size, insig_bits, high_part, low_part, stored}
use alacrity_adios.Datum.RoundTrip.{high_bits, stored_bits}
use alacrity_adios.Uniquery.ReadReconst.{high_mask, is_element_size, reconst_elem}
use alacrity_adios.Uniquery.ReadReconst.{read_and_reconstitute_data}
use alacrity_adios.Uniquery.ReadReconst.InPlace.{joined, low_width}
use alacrity_adios.Uniquery.ReadReconst.Reading.{Bin, HasBins, elements_of, lows_of}
use alacrity_adios.Uniquery.ReadReconst.Reading.{read_and_reconstitute_data-elements_of}
use native.Mathlib.Nat.{div-le_self, div-mul-le_self, mod-eq_of_lt, mod-lt, one-le-pow}

-- An element comes back from its bin value and from what is stored of its low part.
pub reconst_elem-split :
    (e s x : ℕ)
    → is_datum_size e ≡ true
    → x < 256 ^ e
    → s < 32
    → s ≤ 8 * e
    → reconst_elem e s (high_part e s x) (stored (insig_bytes_ceil e s) (low_part s x)) ≡ x
unfolding reconst_elem high_mask is_datum_size
reconst_elem-split e s x size fits few some_bits =
    let small : e ≤ 8 = ground arith in
    let k = insig_bits e s in
    let top = x / 2 ^ k * 2 ^ k in
    let enough : k ≤ 8 * insig_bytes_ceil e s = unfold insig_bytes_ceil in omega arith in
    let (m, reaches, low) =
      stored_bits k s (insig_bytes_ceil e s) x (omega arith) enough (omega arith) in
    let below : top ≤ x = div-mul-le_self x (2 ^ k) in
    let one : 1 ≤ 2 ^ k = one-le-pow k 2 (omega arith) in
    let high_at_most : x / 2 ^ k ≤ x = div-le_self x (2 ^ k) in
    rw
      (
        high_bits e s x fits some_bits few small,
        mod-eq_of_lt {n = x / 2 ^ k} {m = 256 ^ e} (omega arith),
        mod-eq_of_lt {n = top} {m = 256 ^ e} (omega arith),
        low,
        or_comm (x % 2 ^ m) top,
      )
      (or_high_low k m x reaches)

module _ (m : Metadata) where
  -- What is stored of an element.
  abbrev pub low_bytes : ℕ → ℕ
  low_bytes x = stored (low_width m) (low_part m.significant_bits x)

  -- Bins with whole elements, and what is stored of them.
  unfoldable pub split_bins : List Bin → List Bin
  split_bins [] = []
  split_bins ((v, xs) ∷ bins) = (v, map low_bytes xs) ∷ split_bins bins

  unfoldable pub elements_in : List Bin → List ℕ
  elements_in [] = []
  elements_in ((v, xs) ∷ bins) = xs ++ elements_in bins

  -- Each element fits its size and has the value of its bin for its high-order bits.
  abbrev pub HasHigh : ℕ → ℕ → Type 0
  HasHigh v x = (x < 256 ^ m.element_size) × (high_part m.element_size m.significant_bits x ≡ v)

  abbrev pub AreBinned : List Bin → Type 0
  AreBinned bins = All (λ b. All (HasHigh b.0) b.1) bins

  length-split_bins : (bins : List Bin) → length (split_bins bins) ≡ length bins
  unfolding split_bins
  length-split_bins [] = refl
  length-split_bins ((v, xs) ∷ bins) = ap suc (length-split_bins bins)

  length-map_low : (xs : List ℕ) → length (map low_bytes xs) ≡ length xs
  length-map_low [] = refl
  length-map_low (x ∷ xs) = ap suc (length-map_low xs)

  length-lows_of_split :
      (bins : List Bin) → length (lows_of (split_bins bins)) ≡ length (elements_in bins)
  unfolding split_bins lows_of elements_in
  length-lows_of_split [] = refl
  length-lows_of_split ((v, xs) ∷ bins) = omega (
    arith,
    length-append (map low_bytes xs) (lows_of (split_bins bins)),
    length-append xs (elements_in bins),
    length-map_low xs,
    length-lows_of_split bins,
  )

  low_bytes-fit : (x : ℕ) → low_bytes x < 256 ^ low_width m
  unfolding stored
  low_bytes-fit x = mod-lt _ (one-le-pow (low_width m) 256 (omega arith))

  lows-fit :
      (xs rest : List ℕ)
      → All (λ low. low < 256 ^ low_width m) rest
      → All (λ low. low < 256 ^ low_width m) (map low_bytes xs ++ rest)
  lows-fit [] rest a = a
  lows-fit (x ∷ xs) rest a = (low_bytes-fit x, lows-fit xs rest a)

  split_bins-fit :
      (bins : List Bin) → All (λ low. low < 256 ^ low_width m) (lows_of (split_bins bins))
  unfolding split_bins lows_of
  split_bins-fit [] = tt
  split_bins-fit ((v, xs) ∷ bins) = lows-fit xs _ (split_bins-fit bins)

  module _ (known : is_datum_size m.element_size ≡ true) (few_bits : m.significant_bits < 32)
      (bits_there : m.significant_bits ≤ 8 * m.element_size) where
    joined-low_bytes :
        (v : ℕ) (xs : List ℕ) → All (HasHigh v) xs → joined m v (map low_bytes xs) ≡ xs
    unfolding joined
    joined-low_bytes v [] a = refl
    joined-low_bytes v (x ∷ xs) ((fits, high), a) =
        ap₂ ◌∷◌
          (rw (← high)
            (reconst_elem-split m.element_size m.significant_bits x known fits few_bits bits_there))
          (joined-low_bytes v xs a)

    elements_of-split_bins :
        (bins : List Bin) → AreBinned bins → elements_of m (split_bins bins) ≡ elements_in bins
    unfolding elements_of split_bins elements_in
    elements_of-split_bins [] a = refl
    elements_of-split_bins ((v, xs) ∷ bins) (here, a) =
        ap₂ ◌++◌ (joined-low_bytes v xs here) (elements_of-split_bins bins a)

    size_read : is_element_size m.element_size ≡ true
    unfolding is_datum_size is_element_size
    size_read = ground arith

    -- Elements of 2, 4 or 8 bytes, split after 1 to 31 high-order bits, stand in bins of a layout
    -- by the values of these bits, and a store gives the bytes that the encoder stores of them. Then
    -- reading a range of bins gives exactly these elements, in the buffer that malloc returns of the
    -- size that it is asked for, and their number, where they take less than 4 GB and the offsets
    -- are below 2^32.
    pub read_and_reconstitute_data-split_bins :
        (read_data_bins : ℕ → ℕ → Option (List ℕ)) (start_bin start : ℕ) (bins : List Bin)
        (malloc : ℕ → List ℕ)
        → 0 < m.significant_bits
        → AreBinned bins
        → HasBins m start_bin start (split_bins bins)
        → ((n : ℕ) → length (malloc n) ≡ n)
        → m.element_size * length (elements_in bins) < 2 ^ 32
        → start + length (elements_in bins) < 2 ^ 32
        → read_data_bins start_bin (start_bin + length bins)
          ≡ some (array_bytes (low_width m) (lows_of (split_bins bins)))
        → read_and_reconstitute_data m read_data_bins start_bin
            (start_bin + length bins)
            false
            malloc
          ≡ some (array_bytes m.element_size (elements_in bins), length (elements_in bins))
    read_and_reconstitute_data-split_bins read_data_bins start_bin start bins malloc _ binned layout
          sized small few read =
        let n = length-lows_of_split bins in
        let same = length-split_bins bins in
        rw (same, n, elements_of-split_bins bins binned) at
          (read_and_reconstitute_data-elements_of m size_read read_data_bins start_bin start
            (split_bins bins) malloc layout (split_bins-fit bins) sized (rw n small) (rw n few)
            (rw same read))
