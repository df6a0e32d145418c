-- ===== src/Uniquery/Query/Answer.antt =====
-- The answer to a query that retrieves values, from one partition.
use alacrity_adios.Prelude.{
  ℕ, suc, ◌+◌, ◌-◌, ◌*◌, ◌/◌, ◌%◌, ◌^◌, ◌≡◌, refl, sym, ap, ap₂, ◌∙◌, arith,
}
use alacrity_adios.Prelude.{Bool, true, false, inl, inr, take, length-append, append-nil}
use alacrity_adios.Prelude.{List, [], ◌∷◌, ◌++◌, length, map, Option, some}
use alacrity_adios.Memory.{array_bytes}
use alacrity_adios.Types.{Metadata}
use alacrity_adios.Datum.{insig_bits}
use alacrity_adios.Encode.{count_up}
use alacrity_adios.Encode.Tables.{Distinct}
use alacrity_adios.Uniquery.BinRange.Signs.{origin}
use alacrity_adios.Uniquery.BinRange.Search.{IsOrdered}
use alacrity_adios.Uniquery.BinRange.Range.{matching, search_bins-matching}
use alacrity_adios.Uniquery.FloatOrder.{in_query}
use alacrity_adios.Uniquery.Selection.{Row, row_ids, values, selected}
use alacrity_adios.Uniquery.ReadReconst.InPlace.{low_width}
use alacrity_adios.Uniquery.ReadReconst.Reading.{lows_of, first_start}
use alacrity_adios.Uniquery.ReadReconst.{is_element_size}
use alacrity_adios.Uniquery.ReadReconst.Reading.{comm}
use alacrity_adios.Uniquery.Query.Touched.{count_small}
use alacrity_adios.Prelude.{true, ◌<◌}
use alacrity_adios.Uniquery.TrimBins.{QueryResult, trim_query_results_template}
use alacrity_adios.Uniquery.TrimBins.Trimmed.{IsTrimmedTo}
use alacrity_adios.Uniquery.TrimBins.Trimmed.{trim_query_results_template-one}
use alacrity_adios.Uniquery.TrimBins.Trimmed.{trim_query_results_template-many}
use alacrity_adios.Uniquery.Query.{Query, QueryType, partition_result, touched_results}
use alacrity_adios.Uniquery.Query.{results_or_none, results_for, clear_query_result}
use alacrity_adios.Uniquery.Query.Segments.{
  AllBetween, Group, bin_values_of, rows_of, segments, none_between,
}
use alacrity_adios.Uniquery.Query.Selecting.{InBins, bin_place, cut_lb, cut_ub}
use alacrity_adios.Uniquery.Query.Selecting.{outside_rows, selected-touched, selected-touched_one}
use alacrity_adios.Uniquery.Query.Touched.{IsStored, bins_of, touched_results-results_for}
use alacrity_adios.Uniquery.Query.Touched.{candidate_check-trim, touched_layout, touched_end}
use alacrity_adios.Uniquery.Query.Touched.{
  rows_split, bins_of-append, length-bins_of, length-lows_of,
}
use alacrity_adios.Uniquery.ReadReconst.EndBins.{HasBins-append}
use alacrity_adios.Uniquery.TrimBins.Loops.{length-map}
use mathlib.Core.Path.{subst}
use native.Mathlib.Nat.{one-le-pow}
use alacrity_adios.Uniquery.Query.Bounds.{low_bound, high_bound, trim_by_size}
use alacrity_adios.Uniquery.Query.Sublists.{snoc_groups, IsOrdered-front, IsOrdered-back}
use alacrity_adios.Uniquery.Query.Sublists.{
  Distinct-front, Distinct-back, length-map_values, length-snoc,
}
use alacrity_adios.Uniquery.Query.Searched.{
  IsAnswerable, room, double, high_fits, asked_lb_fits, asked_ub_fits, half_fits, apart, converted,
  placed, searched, whole_rows,
}

some_bytes : (m : Metadata) → is_element_size m.element_size ≡ true → 0 < m.element_size
unfolding is_element_size
some_bytes m h = ground arith

module _ (m : Metadata) (k lb ub : ℕ) (groups : List Group)
    (w : IsAnswerable m k lb ub groups) where
  abbrev e : ℕ
  e = m.element_size

  abbrev cb : ℕ
  cb = insig_bits m.element_size m.significant_bits

  abbrev asked_lb : ℕ
  asked_lb = low_bound m lb ub

  abbrev asked_ub : ℕ
  asked_ub = high_bound m lb ub

  module _ (low : ℕ → ℕ) (stored : IsStored m low groups)
      (read_data_bins read_index_bins : ℕ → ℕ → Option (List ℕ))
      (reads_data : (before touched behind : List Group)
        → groups ≡ before ++ (touched ++ behind)
        → read_data_bins (length before) (length before + length touched)
          ≡ some (array_bytes (low_width m) (lows_of (bins_of m low touched))))
      (reads_index : (before touched behind : List Group)
        → groups ≡ before ++ (touched ++ behind)
        → read_index_bins (length before) (length before + length touched)
          ≡ some (array_bytes 4 (row_ids (rows_of touched))))
      (malloc : ℕ → List ℕ) (sized : (n : ℕ) → length (malloc n) ≡ n) where
    abbrev keep : ℕ → Bool
    keep = in_query e asked_lb asked_ub

    abbrev query : Query
    query = record { lb = lb; ub = ub; query_type = QueryType.value_retrieval }

    abbrev Answered : List Row → Option QueryResult → Type 0
    Answered rows result =
        (r : QueryResult) × (result ≡ some r)
        × (r.result_count ≡ length rows)
        × (take (length rows) r.values ≡ values rows)
        × (take (length rows) r.rids ≡ row_ids rows)

    -- What is left of the touched bins by the trimming is what the query returns.
    trimmed :
        (before touched behind : List Group) (rows : List Row) (old : ℕ)
        → groups ≡ before ++ (touched ++ behind)
        → (r : QueryResult) × (n : ℕ) × (trim_query_results_template keep m
              (length before)
              (length before + length touched)
              (record {
                result_count = length (rows_of touched);
                rids = row_ids (rows_of touched);
                values = values (rows_of touched);
              })
            ≡ some (r, n))
          × IsTrimmedTo rows old r n
        → Answered rows (
            touched_results m read_data_bins read_index_bins query malloc
              (length before, length before + length touched))
    unfolding results_for
    trimmed before touched behind rows old parts (r, n, run, is) =
        let kept = subst (IsStored m low) parts stored in
        let ready =
          touched_results-results_for m low before touched behind kept read_data_bins
            read_index_bins query malloc (reads_index before touched behind parts) in
        let checked =
          candidate_check-trim m low before touched behind kept read_data_bins read_index_bins query
            malloc (row_ids (rows_of touched)) sized (reads_data before touched behind parts) in
        let sizes =
          trim_by_size m lb ub (length before) (length before + length touched)
            (record {
              result_count = length (rows_of touched);
              rids = row_ids (rows_of touched);
              values = values (rows_of touched);
            })
            w.float in
        (r, ready ∙ checked ∙ rw (sizes, run), is.count, is.row_values, is.row_rids)

    few_bytes :
        (before touched behind : List Group)
        → groups ≡ before ++ (touched ++ behind)
        → length (rows_of touched) * m.element_size < 2 ^ 32
    few_bytes before touched behind parts =
        let kept = subst (IsStored m low) parts stored in
        rw (comm (length (rows_of touched)) m.element_size)
          (count_small m low before touched behind kept read_data_bins read_index_bins)

    one_touched :
        (before : List Group) (first : Group) (behind : List Group)
        → groups ≡ before ++ ((first ∷ []) ++ behind)
        → Answered (selected keep first.1) (
            touched_results m read_data_bins read_index_bins query malloc
              (length before, length before + length (first ∷ [])))
    unfolding rows_of
    one_touched before first behind parts =
        let touched = first ∷ [] in
        let kept = subst (IsStored m low) parts stored in
        let start = length (rows_of before) in
        let layout =
          touched_layout m low before touched behind kept read_data_bins read_index_bins in
        let at_start = first_start m (length before) start (bins_of m low touched) layout in
        let at_end = touched_end m low before touched behind kept read_data_bins read_index_bins in
        let split = rows_split m low before touched behind kept read_data_bins read_index_bins in
        let only : rows_of touched ≡ first.1 = append-nil first.1 in
        let (r, n, run, is) =
          trim_query_results_template-one m keep (length before) start
            (record {
              result_count = length (rows_of touched);
              rids = row_ids (rows_of touched);
              values = values (rows_of touched);
            })
            (some_bytes m stored.size_known) (few_bytes before touched behind parts)
            (rows_of touched) at_start at_end (omega (arith, split, kept.few)) refl refl refl in
        trimmed before touched behind (selected keep first.1) (length (rows_of touched)) parts (
          r,
          n,
          run,
          subst (λ t. IsTrimmedTo (selected keep t) (length (rows_of touched)) r n) only is,
        )

    many_touched :
        (before : List Group) (first : Group) (middle : List Group) (last : Group)
        (behind : List Group)
        → groups ≡ before ++ ((first ∷ (middle ++ (last ∷ []))) ++ behind)
        → Answered (selected keep first.1 ++ (rows_of middle ++ selected keep last.1)) (
            touched_results m read_data_bins read_index_bins query malloc
              (length before, length before + length (first ∷ (middle ++ (last ∷ [])))))
    many_touched before first middle last behind parts =
        let touched = first ∷ (middle ++ (last ∷ [])) in
        let s = length before in
        let kept = subst (IsStored m low) parts stored in
        let start = length (rows_of before) in
        let layout =
          touched_layout m low before touched behind kept read_data_bins read_index_bins in
        let (at0, _, later) = layout in
        let at_end = touched_end m low before touched behind kept read_data_bins read_index_bins in
        let split = rows_split m low before touched behind kept read_data_bins read_index_bins in
        let firsts : length (map (λ (r : Row). low r.1) first.1) ≡ length first.1 =
          length-map (λ (r : Row). low r.1) first.1 in
        let at1 =
          rw firsts at (first_start m (s + 1) _ (bins_of m low (middle ++ (last ∷ []))) later) in
        let (_, ending) =
          HasBins-append m (s + 1) (start + length first.1) (bins_of m low middle)
            (bins_of m low (last ∷ []))
            (rw (firsts, bins_of-append m low middle (last ∷ [])) at later) in
        let at2 =
          rw (length-bins_of m low middle, length-lows_of m low middle) at
            (first_start m _ _ (bins_of m low (last ∷ [])) ending) in
        let rows_are : rows_of touched ≡ first.1 ++ (rows_of middle ++ last.1) =
          (whole_rows m k lb ub groups w) first middle last in
        let parts_count : length (rows_of touched)
            ≡ length first.1 + length (rows_of middle) + length last.1 =
          omega (
            arith,
            ap length rows_are,
            length-append first.1 (rows_of middle ++ last.1),
            length-append (rows_of middle) last.1,
          ) in
        let ends : s + length touched ≡ s + 1 + length middle + 1 =
          omega (arith, length-snoc middle last) in
        let before_end : s + length touched - 1 ≡ s + 1 + length middle = omega (arith, ends) in
        let total : start + length (rows_of touched)
            ≡ start + length first.1 + length (rows_of middle) + length last.1 =
          omega (arith, parts_count) in
        let (r, n, run, is) =
          trim_query_results_template-many m keep s start
            (record {
              result_count = length (rows_of touched);
              rids = row_ids (rows_of touched);
              values = values (rows_of touched);
            })
            (some_bytes m stored.size_known) (few_bytes before touched behind parts)
            (s + length touched) first.1 (rows_of middle) last.1 (omega (arith, ends)) at0 at1
            (rw before_end at2) (at_end ∙ ap some total) (omega (arith, total, split, kept.few))
            (ap values rows_are) (ap row_ids rows_are) (ap length rows_are) in
        trimmed before touched behind
          (selected keep first.1 ++ (rows_of middle ++ selected keep last.1)) _ parts
          (r, n, run, is)

    matching_cut :
        (n : List ℕ)
        → matching
            (λ v. bin_place e cb k asked_lb asked_ub v)
            (((converted m k lb ub groups w) asked_lb + origin (8 * e)) % 2 ^ (8 * e))
            (((converted m k lb ub groups w) asked_ub + origin (8 * e)) % 2 ^ (8 * e))
            m.bin_layout.bin_values
            0
          ≡ n
        → matching
            (λ v. bin_place e cb k asked_lb asked_ub v)
            (cut_lb e cb k asked_lb asked_ub)
            (cut_ub e cb k asked_lb asked_ub)
            (bin_values_of groups)
            0
          ≡ n
    matching_cut n h =
        ap₂
          (λ l u. matching (λ v. bin_place e cb k asked_lb asked_ub v) l u (bin_values_of groups) 0)
          (sym ((placed m k lb ub groups w) asked_lb (asked_lb_fits m k lb ub groups w)))
          (sym ((placed m k lb ub groups w) asked_ub (asked_ub_fits m k lb ub groups w)))
        ∙ ap
            (λ vs.
              matching (λ v. bin_place e cb k asked_lb asked_ub v)
                (((converted m k lb ub groups w) asked_lb + origin (8 * e)) % 2 ^ (8 * e))
                (((converted m k lb ub groups w) asked_ub + origin (8 * e)) % 2 ^ (8 * e)) vs 0)
            (sym stored.bin_values)
        ∙ h

    abbrev result_at : List Group → List Group → Option QueryResult
    result_at before touched =
        touched_results m read_data_bins read_index_bins query malloc
          (length before, length before + length touched)

    abbrev Between : Bool → List Group → Type 0
    Between b gs =
        AllBetween (bin_place e cb k asked_lb asked_ub) (cut_lb e cb k asked_lb asked_ub)
          (cut_ub e cb k asked_lb asked_ub) b gs

    many_answer :
        (before : List Group) (first : Group) (behind rest middle : List Group) (last : Group)
        → rest ≡ middle ++ (last ∷ [])
        → groups ≡ before ++ ((first ∷ rest) ++ behind)
        → Between false before
        → Between true (first ∷ rest)
        → Between false behind
        → Answered (selected keep (rows_of groups)) (result_at before (first ∷ rest))
    many_answer before first behind rest middle last is parts' fb ft' fa =
        let touched = first ∷ (middle ++ (last ∷ [])) in
        let parts = subst (λ t. groups ≡ before ++ ((first ∷ t) ++ behind)) is parts' in
        let ft = subst (λ t. Between true (first ∷ t)) is ft' in
        let bins = subst (λ gs. InBins e cb k asked_lb asked_ub gs) parts w.in_bins in
        let ordered = subst (λ gs. IsOrdered (8 * e) k (bin_values_of gs)) parts w.ordered in
        let distinct = subst (λ gs. Distinct (bin_values_of gs)) parts w.distinct in
        let rows =
          ap (λ gs. selected keep (rows_of gs)) parts
          ∙ selected-touched e cb k asked_lb asked_ub (room m k lb ub groups w)
              (omega (arith, (asked_lb_fits m k lb ub groups w), (double m k lb ub groups w)))
              (omega (arith, (asked_ub_fits m k lb ub groups w), (double m k lb ub groups w)))
              w.lb_number w.ub_number (one-le-pow cb 2 (omega arith))
              ((apart m k lb ub groups w) (asked_lb / 2 ^ cb)
                ((high_fits m k lb ub groups w) asked_lb (asked_lb_fits m k lb ub groups w))
                w.lb_apart)
              ((apart m k lb ub groups w) (asked_ub / 2 ^ cb)
                ((high_fits m k lb ub groups w) asked_ub (asked_ub_fits m k lb ub groups w))
                w.ub_apart)
              (half_fits m k lb ub groups w) first middle last before behind bins fb ft fa
              (IsOrdered-front (8 * e) k touched behind
                (IsOrdered-back (8 * e) k before (touched ++ behind) ordered))
              (Distinct-front touched behind (Distinct-back before (touched ++ behind) distinct)) in
        subst (λ t. Answered (selected keep (rows_of groups)) (result_at before (first ∷ t)))
          (sym is)
          (subst (λ rs. Answered rs (result_at before touched)) (sym rows)
            (many_touched before first middle last behind parts))

    -- The touched bins, told (apart m k lb ub groups w) by how many there are.
    touched_answer :
        (before touched behind : List Group) (n : ℕ)
        → length touched ≡ suc n
        → groups ≡ before ++ (touched ++ behind)
        → Between false before
        → Between true touched
        → Between false behind
        → Answered (selected keep (rows_of groups)) (result_at before touched)
    touched_answer before [] behind n l parts fb ft fa = absurd (omega (arith, l))
    touched_answer before (first ∷ []) behind n l parts fb ft fa =
        let bins = subst (λ gs. InBins e cb k asked_lb asked_ub gs) parts w.in_bins in
        let rows =
          ap (λ gs. selected keep (rows_of gs)) parts
          ∙ selected-touched_one e cb k asked_lb asked_ub (room m k lb ub groups w)
              (omega (arith, (asked_lb_fits m k lb ub groups w), (double m k lb ub groups w)))
              (omega (arith, (asked_ub_fits m k lb ub groups w), (double m k lb ub groups w)))
              w.lb_number w.ub_number (one-le-pow cb 2 (omega arith)) first before behind bins fb
              fa in
        subst (λ rs. Answered rs (result_at before (first ∷ []))) (sym rows)
          (one_touched before first behind parts)
    touched_answer before (first ∷ (g ∷ touched)) behind n l parts fb ft fa =
        let (middle, last, is) = snoc_groups (length touched) g touched refl in
        many_answer before first behind (g ∷ touched) middle last is parts fb ft fa

    -- A query that retrieves values succeeds and gives the row ids and the values of exactly the rows
    -- that the interval asks for, in the order in which they are stored, of a partition with an
    -- inverted index whose elements are floats or doubles, whose bins have k + 1 significant bits, fewer
    -- than an element has, are in the order of one's complement and hold rows with these high-order
    -- bits, whose low parts are stored, and that has fewer than 2^32 rows and below 4 GB of elements; if
    -- the bounds are numbers and neither has the bin value of a zero, if the store reads the bytes of
    -- the bins, and if malloc gives buffers of the size that it is asked for.
    pub partition_result-selected :
        (r : QueryResult) × (partition_result m read_data_bins read_index_bins query malloc
          ≡ some r)
        × (r.result_count ≡ length (selected keep (rows_of groups)))
        × (take (length (selected keep (rows_of groups))) r.values
            ≡ values (selected keep (rows_of groups)))
        × (take (length (selected keep (rows_of groups))) r.rids
            ≡ row_ids (selected keep (rows_of groups)))
    unfolding partition_result results_or_none clear_query_result
    partition_result-selected =
        let same = length-map_values groups in
        let num : m.bin_layout.num_bins ≡ length m.bin_layout.bin_values =
          stored.how_many ∙ sym (ap length stored.bin_values ∙ same) in
        let order = subst (IsOrdered (8 * e) k) (sym stored.bin_values) w.ordered in
        elim (search_bins-matching (8 * e) k w.some_low ((converted m k lb ub groups w) asked_lb)
          ((converted m k lb ub groups w) asked_ub) m.bin_layout num order) [
            | inl (run, none_found) ↦
                let out =
                  none_between (bin_place e cb k asked_lb asked_ub)
                    (cut_lb e cb k asked_lb asked_ub) (cut_ub e cb k asked_lb asked_ub) groups 0
                    (matching_cut [] none_found) in
                let nothing =
                  outside_rows e cb k asked_lb asked_ub (room m k lb ub groups w)
                    (omega (arith, (asked_lb_fits m k lb ub groups w), (double m k lb ub groups w)))
                    (omega (arith, (asked_ub_fits m k lb ub groups w), (double m k lb ub groups w)))
                    w.lb_number w.ub_number (one-le-pow cb 2 (omega arith)) groups w.in_bins out in
                rw (nothing, (searched m k lb ub groups w) ∙ run) (_, refl, refl, refl, refl)
            | inr (s, t, run, more, within, range) ↦
                let n = t - s - 1 in
                let count : t - s ≡ suc n = omega (arith, more) in
                let (before, touched, behind, parts, at, l, fb, ft, fa) =
                  segments (bin_place e cb k asked_lb asked_ub) (cut_lb e cb k asked_lb asked_ub)
                    (cut_ub e cb k asked_lb asked_ub) groups 0 n s
                    (matching_cut _ (range ∙ ap (λ c. count_up c s) count)) in
                let first : s ≡ length before = omega (arith, at) in
                let ending : t ≡ length before + length touched =
                  omega (arith, at, l, count, more) in
                let answer = touched_answer before touched behind n l parts fb ft fa in
                let located =
                  (searched m k lb ub groups w) ∙ run ∙ ap₂ (λ a b. some (a, b)) first ending in
                subst
                  (λ range.
                    Answered (selected keep (rows_of groups))
                      (results_or_none m read_data_bins read_index_bins query malloc range))
                  (sym located) answer
          ]
