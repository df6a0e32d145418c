-- ===== src/Decode/Rows.antt =====
-- The elements of an input with their bin values and row ids, taken by bins, and what writing each
-- to its row gives.
use alacrity_adios.Prelude.{ℕ, zero, suc, ◌+◌, ◌^◌, ◌<◌, ◌≡◌, ◌≢◌, refl, sym, ap, ◌∙◌, arith}
use alacrity_adios.Prelude.{Bool, ◌==◌, List, [], ◌∷◌, ◌++◌, length, All, ◌⊎◌, inl, inr, Bool-cases}
use alacrity_adios.Prelude.{get_or, set, map, length-set, get_or-set_self, get_or-set_ne}
use alacrity_adios.Types.{insig_bytes_ceil}
use alacrity_adios.Config.{EncoderConfig}
use alacrity_adios.Datum.{high_part, low_part, stored}
use alacrity_adios.Encode.Tables.{Has}
use alacrity_adios.Encode.Scatter.{bucket}
use alacrity_adios.Encode.Fresh.{by_value}
use alacrity_adios.Encode.Inverting.{low_items, row_items}
use alacrity_adios.Encode.Binning.{high_parts}

-- Each element with its row id, under its bin value.
unfoldable pub rows : EncoderConfig → ℕ → List ℕ → List (ℕ × (ℕ × ℕ))
rows config rid [] = []
rows config rid (x ∷ xs) =
    (high_part config.element_size config.significant_bits x, (rid, x)) ∷ rows config (rid + 1) xs

-- The low-order bytes that are stored of a row's element.
abbrev pub low_of : EncoderConfig → ℕ × ℕ → ℕ
low_of config (r, x) =
    stored (insig_bytes_ceil config.element_size config.significant_bits)
      (low_part config.significant_bits x)

-- What the encoder makes of the rows of one bin.
pub bucket-low_items :
    (config : EncoderConfig) (v rid : ℕ) (xs : List ℕ)
    → bucket v (low_items config xs) ≡ map (low_of config) (bucket v (rows config rid xs))
unfolding bucket low_items rows
bucket-low_items config v rid [] = refl
bucket-low_items config v rid (x ∷ xs) =
    elim (Bool-cases (high_part config.element_size config.significant_bits x == v)) [
      | inl same ↦
          rw same (ap (λ t. low_of config (rid, x) ∷ t) (bucket-low_items config v (rid + 1) xs))
      | inr other ↦ rw other (bucket-low_items config v (rid + 1) xs)
    ]

pub bucket-row_items :
    (config : EncoderConfig) (v rid : ℕ) (xs : List ℕ)
    → bucket v (row_items config rid xs) ≡ map (λ a. a.0) (bucket v (rows config rid xs))
unfolding bucket row_items rows
bucket-row_items config v rid [] = refl
bucket-row_items config v rid (x ∷ xs) =
    elim (Bool-cases (high_part config.element_size config.significant_bits x == v)) [
      | inl same ↦ rw same (ap (λ t. rid ∷ t) (bucket-row_items config v (rid + 1) xs))
      | inr other ↦ rw other (bucket-row_items config v (rid + 1) xs)
    ]

-- A row of `input` under the key `k`.
pub record IsRow (config : EncoderConfig) (input : List ℕ) (k r x : ℕ) : Type 0 where
  pub key : high_part config.element_size config.significant_bits x ≡ k
  pub there : get_or input r 0 ≡ x
  pub inside : r < length input
  pub fits : x < 256 ^ config.element_size

pub rows-IsRow :
    (config : EncoderConfig) (input : List ℕ) (rid : ℕ) (xs : List ℕ)
    → ((i : ℕ) → i < length xs → get_or input (rid + i) 0 ≡ get_or xs i 0)
    → rid + length xs ≡ length input
    → All (λ x. x < 256 ^ config.element_size) xs
    → All (λ it. IsRow config input it.0 it.1.0 it.1.1) (rows config rid xs)
unfolding rows
rows-IsRow config input rid [] at e a = tt
rows-IsRow config input rid (x ∷ xs) at e (f, a) = (
  record {
    key = refl;
    there =
        let first = at 0 (omega arith) in
        let plus_zero : rid + 0 ≡ rid = omega arith in rw plus_zero at first;
    inside = omega arith;
    fits = f;
  },
  rows-IsRow config input (rid + 1) xs
      (λ i h.
        let step : rid + 1 + i ≡ rid + suc i = omega arith in rw step (at (suc i) (omega arith)))
      (omega arith) a,
)

pub bucket-All :
    {A : Type 0} (P : ℕ → A → Type 0) (v : ℕ) (items : List (ℕ × A))
    → All (λ it. P it.0 it.1) items
    → All (λ a. P v a) (bucket v items)
unfolding bucket
bucket-All P v [] h = tt
bucket-All P v ((k, a) ∷ items) (p, h) = elim (Bool-cases (k == v)) [
  | inl same ↦ let e : k ≡ v = ground arith in rw same (rw e at p, bucket-All P v items h)
  | inr other ↦ rw other (bucket-All P v items h)
]

-- Each element written to its row.
unfoldable pub write_rows : List (ℕ × ℕ) → List ℕ → List ℕ
write_rows [] output = output
write_rows ((r, x) ∷ rs) output = write_rows rs (set output r x)

pub length-write_rows :
    (rs : List (ℕ × ℕ)) (output : List ℕ) → length (write_rows rs output) ≡ length output
unfolding write_rows
length-write_rows [] output = refl
length-write_rows ((r, x) ∷ rs) output =
    length-write_rows rs (set output r x) ∙ length-set output r x

pub write_rows-append :
    (rs ss : List (ℕ × ℕ)) (output : List ℕ)
    → write_rows (rs ++ ss) output ≡ write_rows ss (write_rows rs output)
unfolding write_rows
write_rows-append [] ss output = refl
write_rows-append ((r, x) ∷ rs) ss output = write_rows-append rs ss (set output r x)

module _ (input : List ℕ) where
  -- A row that already has its element keeps it.
  kept :
      (rs : List (ℕ × ℕ)) (output : List ℕ) (i : ℕ)
      → All (λ a. (get_or input a.0 0 ≡ a.1) × (a.0 < length output)) rs
      → get_or output i 0 ≡ get_or input i 0
      → get_or (write_rows rs output) i 0 ≡ get_or input i 0
  unfolding write_rows
  kept [] output i a h = h
  kept ((r, x) ∷ rs) output i ((e, inside), a) h =
      kept rs (set output r x) i (rw (length-set output r x) a) (elim (Bool-cases (r == i)) [
        | inl same ↦
            let q : r ≡ i = ground arith in rw (← q) (get_or-set_self output r x 0 inside ∙ sym e)
        | inr other ↦ let ne : r ≢ i = ground arith in get_or-set_ne output r i x 0 ne ∙ h
      ])

  -- A row that is written has its element.
  pub written :
      (rs : List (ℕ × ℕ)) (output : List ℕ) (i : ℕ)
      → All (λ a. (get_or input a.0 0 ≡ a.1) × (a.0 < length output)) rs
      → Has i (map (λ a. a.0) rs)
      → get_or (write_rows rs output) i 0 ≡ get_or input i 0
  unfolding write_rows
  written [] output i a m = absurd m
  written ((r, x) ∷ rs) output i ((e, inside), a) (inl q) =
      kept rs (set output r x) i (rw (length-set output r x) a)
        (rw (← q) (get_or-set_self output r x 0 inside ∙ sym e))
  written ((r, x) ∷ rs) output i ((e, inside), a) (inr m) =
      written rs (set output r x) i (rw (length-set output r x) a) m

-- Every row is among those of its bin.
Has-map_append :
    {A : Type 0} (f : A → ℕ) (i : ℕ) (xs ys : List A)
    → Has i (map f xs) ⊎ Has i (map f ys)
    → Has i (map f (xs ++ ys))
Has-map_append f i [] ys (inl m) = absurd m
Has-map_append f i [] ys (inr m) = m
Has-map_append f i (x ∷ xs) ys (inl (inl e)) = inl e
Has-map_append f i (x ∷ xs) ys (inl (inr m)) = inr (Has-map_append f i xs ys (inl m))
Has-map_append f i (x ∷ xs) ys (inr m) = inr (Has-map_append f i xs ys (inr m))

module _ (config : EncoderConfig) where
  abbrev high : ℕ → ℕ
  high x = high_part config.element_size config.significant_bits x

  row_in_bucket :
      (rid : ℕ) (xs : List ℕ) (i : ℕ)
      → i < length xs
      → Has (rid + i) (map (λ a. a.0) (bucket (high (get_or xs i 0)) (rows config rid xs)))
  unfolding bucket rows
  row_in_bucket rid [] i h = absurd (omega arith)
  row_in_bucket rid (x ∷ xs) zero h =
      let same : (high x == high x) ≡ Bool.true = ground arith in rw same (inl (omega arith))
  row_in_bucket rid (x ∷ xs) (suc i) h =
      let step : rid + suc i ≡ rid + 1 + i = omega arith in
      let later = row_in_bucket (rid + 1) xs i (omega arith) in
      let there = rw (← step) at later in
      elim (Bool-cases (high x == high (get_or xs i 0))) [
        | inl same ↦ rw same (inr there)
        | inr other ↦ rw other there
      ]

  bucket_in_bins :
      {A : Type 0} (f : A → ℕ) (i v : ℕ) (ws : List ℕ) (items : List (ℕ × A))
      → Has v ws
      → Has i (map f (bucket v items))
      → Has i (map f (by_value ws items))
  unfolding by_value
  bucket_in_bins f i v [] items m h = absurd m
  bucket_in_bins f i v (w ∷ ws) items (inl e) h =
      Has-map_append f i (bucket w items) (by_value ws items) (inl (rw e h))
  bucket_in_bins f i v (w ∷ ws) items (inr m) h =
      Has-map_append f i (bucket w items) (by_value ws items)
        (inr (bucket_in_bins f i v ws items m h))

  high_part_there :
      (xs : List ℕ) (i : ℕ) → i < length xs → Has (high (get_or xs i 0)) (high_parts config xs)
  high_part_there [] i h = absurd (omega arith)
  high_part_there (x ∷ xs) zero h = inl refl
  high_part_there (x ∷ xs) (suc i) h = inr (high_part_there xs i (omega arith))

  pub row_there :
      (ws xs : List ℕ) (i : ℕ)
      → ((v : ℕ) → Has v (high_parts config xs) → Has v ws)
      → i < length xs
      → Has i (map (λ a. a.0) (by_value ws (rows config 0 xs)))
  row_there ws xs i all h =
      let e : 0 + i ≡ i = omega arith in
      let m = row_in_bucket 0 xs i h in
      bucket_in_bins _ i _ ws (rows config 0 xs) (all _ (high_part_there xs i h)) (rw e at m)
