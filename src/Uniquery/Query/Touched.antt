-- ===== src/Uniquery/Query/Touched.antt =====
-- What is read of the touched bins of a partition whose index is inverted.
use alacrity_adios.Prelude.{ℕ, suc, ◌+◌, ◌-◌, ◌*◌, ◌≤◌, ◌<◌, ◌^◌, ◌≡◌, refl, sym, ap, ◌∙◌, arith}
use alacrity_adios.Prelude.{true, false, u32, All, length-append, append-nil}
use alacrity_adios.Prelude.{List, [], ◌∷◌, ◌++◌, length, map, get_elem?, Option, some, ◌>>=◌}
use alacrity_adios.Memory.{array_bytes}
use alacrity_adios.Memory.Access.{elements-array_bytes}
use alacrity_adios.Types.{IndexForm, Metadata}
use alacrity_adios.Uniquery.Selection.{Row, row_ids, values}
use alacrity_adios.Uniquery.ReadReconst.{reconst_elem, is_element_size}
use alacrity_adios.Uniquery.ReadReconst.InPlace.{low_width, joined}
use alacrity_adios.Uniquery.ReadReconst.Reading.{Bin, lows_of, elements_of, HasBins, first_start}
use alacrity_adios.Uniquery.ReadReconst.Reading.{end_start, read_and_reconstitute_data-elements_of}
use alacrity_adios.Uniquery.ReadReconst.EndBins.{HasBins-append}
use alacrity_adios.Uniquery.TrimBins.{trim_query_results}
use alacrity_adios.Uniquery.TrimBins.Loops.{length-map}
use alacrity_adios.Uniquery.Query.{Query, is_compressed_inverted, read_index}
use alacrity_adios.Uniquery.Query.{candidate_check, touched_results, results_for}
use alacrity_adios.Uniquery.Query.Segments.{Group, bin_values_of, rows_of}

mul_le : (a b c : ℕ) → b ≤ c → a * b ≤ a * c
mul_le a b c h = grind arith

pub length-rows_of_append :
    (xs ys : List Group) → length (rows_of (xs ++ ys)) ≡ length (rows_of xs) + length (rows_of ys)
unfolding rows_of
length-rows_of_append [] ys = omega arith
length-rows_of_append ((v, rows) ∷ xs) ys = omega (
  arith,
  length-append rows (rows_of (xs ++ ys)),
  length-append rows (rows_of xs),
  length-rows_of_append xs ys,
)

module _ (m : Metadata) (low : ℕ → ℕ) where
  abbrev pub bin_of : Group → Bin
  bin_of (v, rows) = (v, map (λ (r : Row). low r.1) rows)

  abbrev pub bins_of : List Group → List Bin
  bins_of groups = map bin_of groups

  -- The low parts of a row's value are stored, and give the value back.
  abbrev pub IsKept : ℕ → Row → Type 0
  IsKept v r =
      (reconst_elem m.element_size m.significant_bits v (low r.1) ≡ r.1)
      × (low r.1 < 256 ^ low_width m)
      × (r.1 < 256 ^ m.element_size)
      × (r.0 < 256 ^ 4)

  abbrev pub AreKept : List Group → Type 0
  AreKept groups = All (λ g. All (IsKept g.0) g.1) groups

  -- A partition with these rows.
  pub record IsStored (groups : List Group) : Type 0 where
    pub layout : HasBins m 0 0 (bins_of groups)
    pub bin_values : m.bin_layout.bin_values ≡ bin_values_of groups
    pub how_many : m.bin_layout.num_bins ≡ length groups
    pub kept : AreKept groups
    pub small : m.element_size * length (rows_of groups) < 2 ^ 32
    pub few : length (rows_of groups) < 2 ^ 32
    pub size_known : is_element_size m.element_size ≡ true
    pub inverted : m.index_meta.index_form ≡ IndexForm.inverted_index

  pub length-bins_of : (groups : List Group) → length (bins_of groups) ≡ length groups
  length-bins_of [] = refl
  length-bins_of (g ∷ groups) = ap suc (length-bins_of groups)

  pub length-lows_of :
      (groups : List Group) → length (lows_of (bins_of groups)) ≡ length (rows_of groups)
  unfolding lows_of rows_of
  length-lows_of [] = refl
  length-lows_of ((v, rows) ∷ groups) = omega (
    arith,
    length-append (map (λ (r : Row). low r.1) rows) (lows_of (bins_of groups)),
    length-append rows (rows_of groups),
    length-map (λ (r : Row). low r.1) rows,
    length-lows_of groups,
  )

  pub bins_of-append : (xs ys : List Group) → bins_of (xs ++ ys) ≡ bins_of xs ++ bins_of ys
  bins_of-append [] ys = refl
  bins_of-append (g ∷ xs) ys = ap (λ t. bin_of g ∷ t) (bins_of-append xs ys)

  pub split_AreKept : (xs ys : List Group) → AreKept (xs ++ ys) → AreKept xs × AreKept ys
  split_AreKept [] ys a = (tt, a)
  split_AreKept (x ∷ xs) ys (p, a) = let (l, r) = split_AreKept xs ys a in ((p, l), r)

  All-append : (P : ℕ → Type 0) (xs ys : List ℕ) → All P xs → All P ys → All P (xs ++ ys)
  All-append P [] ys a b = b
  All-append P (x ∷ xs) ys (p, a) b = (p, All-append P xs ys a b)

  kept_lows :
      (groups : List Group)
      → AreKept groups
      → All (λ n. n < 256 ^ low_width m) (lows_of (bins_of groups))
  unfolding lows_of
  kept_lows [] a = tt
  kept_lows ((v, rows) ∷ groups) (p, a) =
      All-append (λ n. n < 256 ^ low_width m) (map (λ (r : Row). low r.1) rows)
        (lows_of (bins_of groups)) (each rows p) (kept_lows groups a)
    where
      each :
          (rs : List Row)
          → All (IsKept v) rs
          → All (λ n. n < 256 ^ low_width m) (map (λ (r : Row). low r.1) rs)
      each [] b = tt
      each (r ∷ rs) ((_, q, _, _), b) = (q, each rs b)

  map_append_rows : (f : Row → ℕ) (xs ys : List Row) → map f (xs ++ ys) ≡ map f xs ++ map f ys
  map_append_rows f [] ys = refl
  map_append_rows f (x ∷ xs) ys = ap (λ t. f x ∷ t) (map_append_rows f xs ys)

  pub kept_elements :
      (groups : List Group)
      → AreKept groups
      → elements_of m (bins_of groups) ≡ values (rows_of groups)
  unfolding elements_of rows_of joined
  kept_elements [] a = refl
  kept_elements ((v, rows) ∷ groups) (p, a) =
      ap (λ t. t ++ elements_of m (bins_of groups)) (each rows p)
      ∙ ap (λ t. values rows ++ t) (kept_elements groups a)
      ∙ sym (map_append_rows (λ (r : Row). r.1) rows (rows_of groups))
    where
      each :
          (rs : List Row)
          → All (IsKept v) rs
          → joined m v (map (λ (r : Row). low r.1) rs) ≡ values rs
      each [] b = refl
      each (r ∷ rs) ((q, _, _, _), b) = rw (q, each rs b)

  values_fit :
      (groups : List Group)
      → AreKept groups
      → All (λ n. n < 256 ^ m.element_size) (values (rows_of groups))
        × All (λ n. n < 256 ^ 4) (row_ids (rows_of groups))
  unfolding rows_of
  values_fit [] a = (tt, tt)
  values_fit ((v, rows) ∷ groups) (p, a) = each (values_fit groups a) rows p
    where
      each :
          All (λ n. n < 256 ^ m.element_size) (values (rows_of groups))
            × All (λ n. n < 256 ^ 4) (row_ids (rows_of groups))
          → (rs : List Row) → All (IsKept v) rs
          → All (λ n. n < 256 ^ m.element_size) (values (rs ++ rows_of groups))
            × All (λ n. n < 256 ^ 4) (row_ids (rs ++ rows_of groups))
      each others [] b = others
      each others (r ∷ rs) ((_, _, x, i), b) = let (xs, is) = each others rs b in ((x, xs), (i, is))

  -- The touched bins among those of the partition, and what reading them gives.
  module _ (before touched behind : List Group) (stored : IsStored (before ++ (touched ++ behind)))
      (read_data_bins read_index_bins : ℕ → ℕ → Option (List ℕ)) where
    abbrev pub first_bin : ℕ
    first_bin = length before

    abbrev pub end_bin : ℕ
    end_bin = length before + length touched

    abbrev pub count : ℕ
    count = length (rows_of touched)

    abbrev pub rows_start : ℕ
    rows_start = length (rows_of before)

    pub touched_kept : AreKept touched
    touched_kept =
        (split_AreKept touched behind (split_AreKept before (touched ++ behind) stored.kept).1).0

    pub rows_split :
        length (rows_of (before ++ (touched ++ behind)))
        ≡ rows_start + count + length (rows_of behind)
    rows_split = omega (
      arith,
      length-rows_of_append before (touched ++ behind),
      length-rows_of_append touched behind,
    )

    pub count_small : m.element_size * count < 2 ^ 32
    count_small =
        let more =
          mul_le m.element_size count (length (rows_of (before ++ (touched ++ behind))))
            (omega (arith, rows_split)) in
        omega (arith, more, stored.small)

    pub touched_layout : HasBins m first_bin rows_start (bins_of touched)
    touched_layout =
        let whole =
          rw (bins_of-append before (touched ++ behind), bins_of-append touched behind) at
            stored.layout in
        let (_, later) =
          HasBins-append m 0 0 (bins_of before) (bins_of touched ++ bins_of behind) whole in
        let at_bin : 0 + length (bins_of before) ≡ first_bin =
          omega (arith, length-bins_of before) in
        let at_row : 0 + length (lows_of (bins_of before)) ≡ rows_start =
          omega (arith, length-lows_of before) in
        let there = rw (at_bin, at_row) at later in
        (HasBins-append m first_bin rows_start (bins_of touched) (bins_of behind) there).0

    pub touched_end : get_elem? m.bin_layout.bin_start_offsets end_bin ≡ some (rows_start + count)
    touched_end =
        rw (length-bins_of touched, length-lows_of touched) at
          (end_start m first_bin rows_start (bins_of touched) touched_layout)

    pub touched_count : u32 (rows_start + count + 2 ^ 32 - rows_start) ≡ count
    touched_count = omega (arith, rows_split, stored.few)

    pub touched_results-results_for :
        (query : Query) (malloc : ℕ → List ℕ)
        → read_index_bins first_bin end_bin ≡ some (array_bytes 4 (row_ids (rows_of touched)))
        → touched_results m read_data_bins read_index_bins query malloc (first_bin, end_bin)
          ≡ results_for m read_data_bins read_index_bins query.query_type query first_bin end_bin
              malloc count
              (row_ids (rows_of touched))
    unfolding touched_results read_index
    touched_results-results_for query malloc index =
        let start = first_start m first_bin rows_start (bins_of touched) touched_layout in
        let (_, ids_fit) = values_fit touched touched_kept in
        let ids =
          rw
            (
              append-nil (array_bytes 4 (row_ids (rows_of touched))),
              length-map (λ (r : Row). r.0) (rows_of touched),
            )
            at (elements-array_bytes 4 (row_ids (rows_of touched)) [] ids_fit) in
        let plain : is_compressed_inverted m.index_meta.index_form ≡ false =
          unfold is_compressed_inverted in ap is_compressed_inverted stored.inverted in
        rw (touched_end, start, touched_count, index, plain, ids)

    -- With all data of the bins read.
    pub candidate_check-trim :
        (query : Query) (malloc : ℕ → List ℕ) (rids : List ℕ)
        → ((n : ℕ) → length (malloc n) ≡ n)
        → read_data_bins first_bin end_bin
          ≡ some (array_bytes (low_width m) (lows_of (bins_of touched)))
        → candidate_check m read_data_bins read_index_bins query first_bin end_bin false malloc
            count rids
          ≡ (trim_query_results m query.lb query.ub first_bin end_bin
                (record { result_count = count; rids = rids; values = values (rows_of touched) })
              >>= λ r. some r.0)
    unfolding candidate_check
    candidate_check-trim query malloc rids room read =
        let l = length-lows_of touched in
        let read_all =
          read_and_reconstitute_data-elements_of m stored.size_known read_data_bins first_bin
            rows_start (bins_of touched) malloc touched_layout (kept_lows touched touched_kept) room
            (rw l count_small) (rw l (omega (arith, rows_split, stored.few)))
            (rw (length-bins_of touched) read) in
        let whole = rw (length-bins_of touched, kept_elements touched touched_kept) at read_all in
        let (xs_fit, _) = values_fit touched touched_kept in
        let xs =
          rw
            (
              append-nil (array_bytes m.element_size (values (rows_of touched))),
              length-map (λ (r : Row). r.1) (rows_of touched),
            )
            at (elements-array_bytes m.element_size (values (rows_of touched)) [] xs_fit) in
        rw (whole, xs)
