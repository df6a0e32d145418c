-- ===== src/Uniquery/TrimBins/Trimmed.antt =====
-- What is left of a result that is trimmed.
use alacrity_adios.Prelude.{ℕ, zero, suc, ◌+◌, ◌-◌, ◌≤◌, ◌<◌, ◌^◌, ◌≡◌, refl, sym, ap, ◌∙◌, arith}
use alacrity_adios.Prelude.{Bool, true, false, ltb, lt→ltb, u32, u64}
use alacrity_adios.Prelude.{List, [], ◌∷◌, ◌++◌, length, take, drop, get_elem?, map, append_assoc}
use alacrity_adios.Prelude.{append-nil, some, length-append, length-take, take_append, drop_append}
use alacrity_adios.Prelude.{take_all, drop-drop, length-drop}
use alacrity_adios.Types.{Metadata}
use alacrity_adios.Prelude.{◌*◌, ◌/◌}
use alacrity_adios.Prelude.Division.{u32_place}
use native.Mathlib.Nat.{mul-le-mul_left, mul-le-mul_right}
use alacrity_adios.Decode.Elements.{map_append}
use alacrity_adios.Uniquery.Selection.{Row, row_ids, values, selected, length-selected}
use alacrity_adios.Uniquery.TrimBins.{QueryResult, trim_query_results_template}
use alacrity_adios.Uniquery.TrimBins.Loops.{IsTrimming, trim_first-selected, length-map}
use alacrity_adios.Uniquery.TrimBins.Loops.{IsTrimmingLast, trim_last-selected}

take-nil : (n : ℕ) → take {A = ℕ} n [] ≡ []
take-nil zero = refl
take-nil (suc n) = refl

drop-take : (m n : ℕ) (xs : List ℕ) → drop m (take n xs) ≡ take (n - m) (drop m xs)
drop-take zero n xs = let e : n - 0 ≡ n = omega arith in rw e
drop-take (suc m) zero xs = let e : 0 - suc m ≡ 0 = omega arith in rw e
drop-take (suc m) (suc n) [] = sym (take-nil (suc n - suc m))
drop-take (suc m) (suc n) (x ∷ xs) =
    let e : suc n - suc m ≡ n - m = omega arith in rw e (drop-take m n xs)

drop_append_within : (m : ℕ) (xs ys : List ℕ) → m ≤ length xs → drop m (xs ++ ys) ≡ drop m xs ++ ys
drop_append_within zero xs ys h = refl
drop_append_within (suc m) [] ys h = absurd (omega (arith, h))
drop_append_within (suc m) (x ∷ xs) ys h = drop_append_within m xs ys (omega arith)

-- A result that holds these rows and had `old_count` of them before.
pub record IsTrimmedTo (rows : List Row) (old_count : ℕ) (result : QueryResult) (trimmed : ℕ)
    : Type 0 where
  pub count : result.result_count ≡ length rows
  pub row_values : take (length rows) result.values ≡ values rows
  pub row_rids : take (length rows) result.rids ≡ row_ids rows
  pub taken_out : trimmed + length rows ≡ old_count

module _ (m : Metadata) (keep : ℕ → Bool) (s start : ℕ) (result : QueryResult)
    (some_bytes : 0 < m.element_size) (small : result.result_count * m.element_size < 2 ^ 32) where
  few_rows : result.result_count < 2 ^ 32
  few_rows = omega (arith, mul-le-mul_left result.result_count some_bytes, small)

  -- The bytes that the pointer to the values moves by.
  place : (off : ℕ) → off ≤ result.result_count → u32 (off * m.element_size) / m.element_size ≡ off
  place off h =
      u32_place m.element_size off some_bytes
        (omega (arith, mul-le-mul_right m.element_size h, small))

  from_rows :
      (f : Row → ℕ) (first others : List Row)
      → take (length first) (map f (first ++ others)) ≡ map f first
  from_rows f first others =
      ap (take (length first)) (map_append f first others)
      ∙ take_append (length first) (map f first) (map f others) (sym (length-map f first))

  after_rows :
      (f : Row → ℕ) (first others : List Row)
      → drop (length first) (map f (first ++ others)) ≡ map f others
  after_rows f first others =
      ap (drop (length first)) (map_append f first others)
      ∙ drop_append (length first) (map f first) (map f others) (sym (length-map f first))

  begun :
      (first others : List Row)
      → result.values ≡ values (first ++ others)
      → result.rids ≡ row_ids (first ++ others)
      → IsTrimming keep
          (length first)
          first
          others
          (record { trimmed_off = length first; rids = result.rids; values = result.values })
  begun first others vs is =
      let sum = length-append first others in
      record {
        row_values = ap (take (length first)) vs ∙ from_rows (λ (r : Row). r.1) first others;
        row_rids = ap (take (length first)) is ∙ from_rows (λ (r : Row). r.0) first others;
        kept_values = ap (drop (length first)) vs ∙ after_rows (λ (r : Row). r.1) first others;
        kept_rids = ap (drop (length first)) is ∙ after_rows (λ (r : Row). r.0) first others;
        rows_length = refl;
        before = omega arith;
        within_values =
            omega (arith, ap length vs, length-map (λ (r : Row). r.1) (first ++ others), sum);
        within_rids =
            omega (arith, ap length is, length-map (λ (r : Row). r.0) (first ++ others), sum);
      }

  -- A result of one bin.
  pub trim_query_results_template-one :
      (first : List Row)
      → get_elem? m.bin_layout.bin_start_offsets s ≡ some start
      → get_elem? m.bin_layout.bin_start_offsets (s + 1) ≡ some (start + length first)
      → start + length first < 2 ^ 32
      → result.values ≡ values first
      → result.rids ≡ row_ids first
      → result.result_count ≡ length first
      → (r : QueryResult) × (trimmed : ℕ) × (trim_query_results_template keep m s (s + 1) result
          ≡ some (r, trimmed))
        × IsTrimmedTo (selected keep first) (length first) r trimmed
  unfolding trim_query_results_template
  trim_query_results_template-one first at_start at_end few vs is n =
      let (t, run, w, o, lv, lr) = trim_first-selected keep (length first) first [] _ (
        begun first [] (vs ∙ ap values (sym (append-nil first)))
          (is ∙ ap row_ids (sym (append-nil first)))) in
      let left = length (selected keep first) in
      let first_end : u32 (start + length first + 2 ^ 32 - start) ≡ length first = omega arith in
      let last_start : u32 (start + 2 ^ 32 - start) ≡ 0 = omega arith in
      let before_end : s + 1 - 1 ≡ s = omega arith in
      let alone : ltb 1 (s + 1 - s) ≡ false = ground arith in
      let count : u32 (length first + 2 ^ 32 - t.trimmed_off) ≡ left = omega (arith, o) in
      let out : u64 (result.result_count + 2 ^ 64 - left) ≡ result.result_count - left =
        omega (arith, n, o, few_rows) in
      (
        record {
          result_count = left;
          rids = drop t.trimmed_off t.rids;
          values = drop t.trimmed_off t.values;
        },
        result.result_count - left,
        rw (
          at_start,
          at_end,
          before_end,
          at_start,
          first_end,
          last_start,
          run,
          alone,
          count,
          out,
          place t.trimmed_off (omega (arith, n, o)),
        ),
        record {
          count = refl;
          row_values =
              ap (take left) (w.kept_values ∙ ap values (append-nil (selected keep first)))
              ∙ take_all left _ (sym (length-map (λ (r : Row). r.1) (selected keep first)));
          row_rids =
              ap (take left) (w.kept_rids ∙ ap row_ids (append-nil (selected keep first)))
              ∙ take_all left _ (sym (length-map (λ (r : Row). r.0) (selected keep first)));
          taken_out = omega (arith, n, o);
        },
      )

  -- Of the arrays after both loops, behind the offset where the first bin's kept values begin.
  kept_part :
      (f : Row → ℕ) (first middle lasts others : List Row) (off a b : ℕ) (one two : List ℕ)
      → drop off one ≡ map f (first ++ (middle ++ others))
      → off ≤ length one
      → a ≡ off + length first + length middle
      → b ≡ off + length first + length middle + length lasts
      → take b two ≡ take a one ++ map f lasts
      → take (length (first ++ (middle ++ lasts))) (drop off two)
        ≡ map f (first ++ (middle ++ lasts))
  kept_part f first middle lasts others off a' b' one two front within ea eb all' =
      let all = rw (ea, eb) at all' in
      let a = length first + length middle in
      let total : length (first ++ (middle ++ lasts)) ≡ a + length lasts =
        omega (arith, length-append first (middle ++ lasts), length-append middle lasts) in
      let whole : off + length first + length middle + length lasts - off ≡ a + length lasts =
        omega arith in
      let some_of : off + length first + length middle - off ≡ a = omega arith in
      let joined = first ++ middle in
      let ja : length joined ≡ a = length-append first middle in
      let start = take (off + length first + length middle) one in
      let regroup = λ (zs : List Row). ap (map f) (sym (append_assoc first middle zs)) in
      let enough : a ≤ length one - off = omega (
        arith,
        ap length front,
        sym (length-drop off one),
        length-map f (first ++ (middle ++ others)),
        length-append first (middle ++ others),
        length-append middle others,
      ) in
      let sl : off ≤ length start =
        omega (arith, length-take (off + length first + length middle) one, enough, within) in
      let cut : drop off start ≡ map f joined =
        drop-take off (off + length first + length middle) one
        ∙ rw some_of
            (ap (take a) (front ∙ regroup others) ∙ rw (← ja) (from_rows f joined others)) in
      rw total (
        sym (rw whole at (drop-take off (off + length first + length middle + length lasts) two))
        ∙ ap (drop off) all
        ∙ drop_append_within off start (map f lasts) sl
        ∙ ap (λ z. z ++ map f lasts) cut
        ∙ sym (map_append f joined lasts)
        ∙ sym (regroup lasts))

  last_part :
      (f : Row → ℕ) (first middle last : List Row) (off a : ℕ) (xs : List ℕ)
      → drop off xs ≡ map f (first ++ (middle ++ last))
      → off + length (first ++ middle) ≡ a
      → take (length last) (drop a xs) ≡ map f last
  last_part f first middle last off a xs front at =
      let joined = first ++ middle in
      let moved : length joined + off ≡ a = omega (arith, at) in
      ap (take (length last)) (
        rw (← at) (sym (drop-drop (length joined) off xs))
        ∙ ap (drop (length joined)) (front ∙ ap (map f) (sym (append_assoc first middle last)))
        ∙ after_rows f joined last)
      ∙ take_all (length last) (map f last) (sym (length-map f last))

  -- Trimming a result whose values take less than 4 GB, with elements of at least one byte, and whose
  -- rows are those of more than one bin by the start offsets of the layout, which are below 2^32,
  -- succeeds: the rows of the first and of the last bin whose values the test
  -- keeps are left, with all rows between them and in their order, and the number of rows that were
  -- taken out is returned.
  pub trim_query_results_template-many :
      (e : ℕ) (first middle last : List Row)
      → s + 1 < e
      → get_elem? m.bin_layout.bin_start_offsets s ≡ some start
      → get_elem? m.bin_layout.bin_start_offsets (s + 1) ≡ some (start + length first)
      → get_elem? m.bin_layout.bin_start_offsets (e - 1)
        ≡ some (start + length first + length middle)
      → get_elem? m.bin_layout.bin_start_offsets e
        ≡ some (start + length first + length middle + length last)
      → start + length first + length middle + length last < 2 ^ 32
      → result.values ≡ values (first ++ (middle ++ last))
      → result.rids ≡ row_ids (first ++ (middle ++ last))
      → result.result_count ≡ length (first ++ (middle ++ last))
      → (r : QueryResult) × (trimmed : ℕ) × (trim_query_results_template keep m s e result
          ≡ some (r, trimmed))
        × IsTrimmedTo
            (selected keep first ++ (middle ++ selected keep last))
            (length (first ++ (middle ++ last)))
            r
            trimmed
  unfolding trim_query_results_template
  trim_query_results_template-many e first middle last more at0 at1 at2 at3 few vs is n =
      let (t, run, w, o, lv, lr) =
        trim_first-selected keep (length first) first (middle ++ last) _
          (begun first (middle ++ last) vs is) in
      let a = length first + length middle in
      let sum1 = length-append first (middle ++ last) in
      let sum2 = length-append middle last in
      let sf = selected keep first in
      let sl = selected keep last in
      let tv : length t.values ≡ a + length last = omega (
        arith,
        lv,
        ap length vs,
        length-map (λ (r : Row). r.1) (first ++ (middle ++ last)),
        sum1,
        sum2,
      ) in
      let tr : length t.rids ≡ a + length last = omega (
        arith,
        lr,
        ap length is,
        length-map (λ (r : Row). r.0) (first ++ (middle ++ last)),
        sum1,
        sum2,
      ) in
      let joined = sf ++ middle in
      let at_last : t.trimmed_off + length joined ≡ a = omega (arith, o, length-append sf middle) in
      let w2 : IsTrimmingLast keep (length last) a last (take a t.values) (take a t.rids)
          (record t { trimmed_off = a }) =
        record {
          row_values =
              last_part (λ (r : Row). r.1) sf middle last t.trimmed_off a t.values w.kept_values
                at_last;
          row_rids =
              last_part (λ (r : Row). r.0) sf middle last t.trimmed_off a t.rids w.kept_rids
                at_last;
          kept_values = refl;
          kept_rids = refl;
          rows_length = refl;
          before = omega arith;
          within_values = omega (arith, tv);
          within_rids = omega (arith, tr);
        } in
      let (t2, run2, v2, i2, o2) =
        trim_last-selected keep (length last) a last (take a t.values) (take a t.rids)
          (record t { trimmed_off = a }) w2 in
      let left = length (sf ++ (middle ++ sl)) in
      let left_parts : left ≡ length sf + length middle + length sl =
        omega (arith, length-append sf (middle ++ sl), length-append middle sl) in
      let off_a : a ≡ t.trimmed_off + length sf + length middle = omega (arith, o) in
      let off2 : t2.trimmed_off ≡ t.trimmed_off + length sf + length middle + length sl =
        omega (arith, o2, off_a) in
      let first_end : u32 (start + length first + 2 ^ 32 - start) ≡ length first = omega arith in
      let last_start : u32 (start + length first + length middle + 2 ^ 32 - start) ≡ a =
        omega arith in
      let last_end : u32 (start + length first + length middle + length last + 2 ^ 32 - start)
          ≡ a + length last =
        omega arith in
      let several : ltb 1 (e - s) ≡ true = lt→ltb 1 (e - s) (omega arith) in
      let elements : a + length last - a ≡ length last = omega arith in
      let fits = length-selected keep last in
      let count : u32 (t2.trimmed_off + 2 ^ 32 - t.trimmed_off) ≡ left =
        omega (arith, off2, left_parts, off_a, fits) in
      let out : u64 (result.result_count + 2 ^ 64 - left) ≡ result.result_count - left =
        omega (arith, n, o, left_parts, sum1, sum2, fits, few_rows) in
      (
        record {
          result_count = left;
          rids = drop t.trimmed_off t2.rids;
          values = drop t.trimmed_off t2.values;
        },
        result.result_count - left,
        rw (
          at0,
          at1,
          at2,
          at3,
          first_end,
          last_start,
          last_end,
          run,
          several,
          elements,
          run2,
          count,
          out,
          place t.trimmed_off (omega (arith, n, o, sum1)),
        ),
        record {
          count = refl;
          row_values =
              kept_part (λ (r : Row). r.1) sf middle sl last t.trimmed_off a t2.trimmed_off t.values
                t2.values w.kept_values w.within_values off_a off2 v2;
          row_rids =
              kept_part (λ (r : Row). r.0) sf middle sl last t.trimmed_off a t2.trimmed_off t.rids
                t2.rids w.kept_rids w.within_rids off_a off2 i2;
          taken_out = omega (arith, n, o, left_parts, sum1, sum2, fits);
        },
      )
