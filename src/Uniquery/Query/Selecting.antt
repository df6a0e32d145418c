-- ===== src/Uniquery/Query/Selecting.antt =====
-- Testing the rows of the first and of the last touched bin selects the rows of the whole partition
-- that the query asks for.
use alacrity_adios.Prelude.{
  ℕ, suc, ◌+◌, ◌*◌, ◌/◌, ◌≤◌, ◌<◌, ◌^◌, ◌≡◌, ◌≢◌, refl, sym, ap, ◌∙◌, arith,
}
use alacrity_adios.Prelude.{true, false, ltb, Bool-cases, inl, inr, All, ◌⊎◌}
use alacrity_adios.Prelude.{List, [], ◌∷◌, ◌++◌, append-nil, append_assoc, ltb→lt}
use native.Mathlib.Nat.{pow-suc}
use alacrity_adios.Encode.Tables.{Distinct}
use alacrity_adios.Uniquery.BinRange.Signs.{key}
use alacrity_adios.Uniquery.BinRange.Search.{IsOrdered}
use alacrity_adios.Uniquery.FloatOrder.{sign_bit, is_nan, in_query}
use alacrity_adios.Uniquery.Selection.{Row, selected, selected-append, selected_all, selected_none}
use alacrity_adios.Uniquery.Query.Places.{cut_mono, cut_strict}
use alacrity_adios.Uniquery.Query.Matching.{in_query-places, places-in_query}
use alacrity_adios.Uniquery.Query.Segments.{Group, bin_values_of, rows_of, AllBetween, is_between}

key_apart :
    (wide half v u : ℕ)
    → half ≤ wide
    → v < half + half
    → u < half + half
    → v ≢ u
    → key wide half v ≤ key wide half u
    → (key wide half v < key wide half u) ⊎ ((key wide half v ≡ wide) × (key wide half u ≡ wide))
unfolding key
key_apart wide half v u room hv hu apart h =
    elim (Bool-cases (ltb (key wide half v) (key wide half u))) [
      | inl less ↦ inl (ltb→lt _ _ less)
      | inr more ↦
          let same : key wide half v ≡ key wide half u = ground (arith, more, h) in
          inr (ground (arith, same, apart), ground (arith, same, apart))
    ]

pub rows_of-append : (xs ys : List Group) → rows_of (xs ++ ys) ≡ rows_of xs ++ rows_of ys
unfolding rows_of
rows_of-append [] ys = refl
rows_of-append ((v, rows) ∷ xs) ys =
    ap (λ t. rows ++ t) (rows_of-append xs ys) ∙ sym (append_assoc rows (rows_of xs) (rows_of ys))

module _ (e cut_bits k lb ub : ℕ) where
  abbrev pub wide : ℕ
  wide = sign_bit e

  abbrev pub divisor : ℕ
  divisor = 2 ^ cut_bits

  -- The rows of a bin have its value as their high-order bits.
  abbrev pub InBins : List Group → Type 0
  InBins groups = All (λ g. All (λ r. (r.1 / divisor ≡ g.0) × (r.1 < wide + wide)) g.1) groups

  abbrev pub bin_place : ℕ → ℕ
  bin_place v = key wide (2 ^ k) v

  abbrev pub cut_lb : ℕ
  cut_lb = bin_place (lb / divisor)

  abbrev pub cut_ub : ℕ
  cut_ub = bin_place (ub / divisor)

  module _ (room : wide ≡ 2 ^ k * divisor) (lb_fits : lb < wide + wide) (ub_fits : ub < wide + wide)
      (lb_number : is_nan e lb ≡ false) (ub_number : is_nan e ub ≡ false)
      (some_left : 0 < divisor) where
    outside_row :
        (g : Group) (x : ℕ)
        → is_between bin_place cut_lb cut_ub g ≡ false
        → (x / divisor ≡ g.0) × (x < wide + wide)
        → in_query e lb ub x ≡ false
    outside_row g x out (high, fits) = elim (Bool-cases (in_query e lb ub x)) [
      | inl asked ↦
          let (low, up) = in_query-places e lb ub x asked in
          let above = cut_mono divisor (2 ^ k) wide some_left room lb x lb_fits fits low in
          let below =
            cut_mono divisor (2 ^ k) wide some_left room x ub fits ub_fits (omega (arith, up)) in
          let place = ap bin_place high in ground (arith, above, below, place, out)
      | inr left ↦ left
    ]

    pub outside_rows :
        (groups : List Group)
        → InBins groups
        → AllBetween bin_place cut_lb cut_ub false groups
        → selected (in_query e lb ub) (rows_of groups) ≡ []
    unfolding rows_of selected
    outside_rows [] w o = refl
    outside_rows ((v, rows) ∷ groups) (w, ws) (o, os) =
        selected-append (in_query e lb ub) rows (rows_of groups)
        ∙ rw (selected_none (in_query e lb ub) rows (left rows w), outside_rows groups ws os)
      where
        left :
            (rs : List Row)
            → All (λ r. (r.1 / divisor ≡ v) × (r.1 < wide + wide)) rs
            → All (λ r. in_query e lb ub r.1 ≡ false) rs
        left [] a = tt
        left (r ∷ rs) (p, a) = (outside_row (v, rows) r.1 o p, left rs a)

    touched_rows :
        (first : Group) (middle : List Group) (last : Group)
        → rows_of (last ∷ []) ≡ last.1
        → selected (in_query e lb ub) (rows_of middle) ≡ rows_of middle
        → selected (in_query e lb ub) (rows_of (first ∷ (middle ++ (last ∷ []))))
          ≡ selected (in_query e lb ub) first.1
            ++ (rows_of middle ++ selected (in_query e lb ub) last.1)
    touched_rows first middle last only_last all_middle =
        let keep = in_query e lb ub in
        let whole : rows_of (first ∷ (middle ++ (last ∷ [])))
            ≡ first.1 ++ (rows_of middle ++ rows_of (last ∷ [])) =
          unfold rows_of in ap (λ t. first.1 ++ t) (rows_of-append middle (last ∷ [])) in
        ap (selected keep) (whole ∙ ap (λ t. first.1 ++ (rows_of middle ++ t)) only_last)
        ∙ selected-append keep first.1 (rows_of middle ++ last.1)
        ∙ ap (λ t. selected keep first.1 ++ t)
            (selected-append keep (rows_of middle) last.1
              ∙ ap (λ t. t ++ selected keep last.1) all_middle)

    split_InBins : (xs ys : List Group) → InBins (xs ++ ys) → InBins xs × InBins ys
    split_InBins [] ys a = (tt, a)
    split_InBins (x ∷ xs) ys (p, a) = let (l, r) = split_InBins xs ys a in ((p, l), r)

    last_between :
        (middle : List Group) (last : Group)
        → AllBetween bin_place cut_lb cut_ub true (middle ++ (last ∷ []))
        → is_between bin_place cut_lb cut_ub last ≡ true
    last_between [] last (p, _) = p
    last_between (g ∷ middle) last (_, a) = last_between middle last a

    abbrev Strictly : List Group → Type 0
    Strictly groups = All (λ g. (cut_lb < bin_place g.0) × (bin_place g.0 < cut_ub)) groups

    pub strict_rows :
        (groups : List Group)
        → InBins groups
        → Strictly groups
        → selected (in_query e lb ub) (rows_of groups) ≡ rows_of groups
    unfolding rows_of selected
    strict_rows [] w o = refl
    strict_rows ((v, rows) ∷ groups) (w, ws) ((low, up), os) =
        selected-append (in_query e lb ub) rows (rows_of groups)
        ∙ rw (selected_all (in_query e lb ub) rows (asked rows w), strict_rows groups ws os)
      where
        asked :
            (rs : List Row)
            → All (λ r. (r.1 / divisor ≡ v) × (r.1 < wide + wide)) rs
            → All (λ r. in_query e lb ub r.1 ≡ true) rs
        asked [] a = tt
        asked (r ∷ rs) ((high, fits), a) =
            let place = ap bin_place high in
            (
              places-in_query e lb ub r.1 fits lb_fits ub_fits lb_number ub_number
                  (cut_strict divisor (2 ^ k) wide some_left room lb r.1 lb_fits fits
                    (omega (arith, low, place)))
                  (cut_strict divisor (2 ^ k) wide some_left room r.1 ub fits ub_fits
                    (omega (arith, up, place))),
              asked rs a,
            )

    -- Bins between two others that lie between the bounds lie strictly between them: bins at the
    -- same place are those of the two zeros, where no bound may lie.
    module _ (lb_apart : cut_lb ≢ wide) (ub_apart : cut_ub ≢ wide) (half_fits : 2 ^ k ≤ wide) where
      wide_halves : 2 ^ suc k ≡ 2 ^ k + 2 ^ k
      wide_halves = omega (arith, pow-suc 2 k)

      strictly_below :
          (v u : ℕ)
          → v < 2 ^ suc k
          → u < 2 ^ suc k
          → v ≢ u
          → bin_place v ≤ bin_place u
          → bin_place u ≤ cut_ub
          → bin_place v < cut_ub
      strictly_below v u hv hu apart h up =
          elim (key_apart wide (2 ^ k) v u half_fits (omega (arith, hv, wide_halves))
            (omega (arith, hu, wide_halves)) apart h) [
              | inl less ↦ omega (arith, less, up)
              | inr (pv, pu) ↦
                  let ne : cut_ub ≢ bin_place u = λ same. ub_apart (same ∙ pu) in
                  ground (arith, pv, pu, up, ub_apart)
            ]

      strictly_above :
          (v u : ℕ)
          → v < 2 ^ suc k
          → u < 2 ^ suc k
          → v ≢ u
          → bin_place v ≤ bin_place u
          → cut_lb ≤ bin_place v
          → cut_lb < bin_place u
      strictly_above v u hv hu apart h low =
          elim (key_apart wide (2 ^ k) v u half_fits (omega (arith, hv, wide_halves))
            (omega (arith, hu, wide_halves)) apart h) [
              | inl less ↦ omega (arith, less, low)
              | inr (pv, pu) ↦ ground (arith, pv, pu, low, lb_apart)
            ]

      last_of :
          (P : ℕ → Type 0) (middle : List Group) (last : Group)
          → All P (bin_values_of (middle ++ (last ∷ [])))
          → P last.0
      last_of P [] last (p, _) = p
      last_of P (g ∷ middle) last (_, a) = last_of P middle last a

      abbrev Follows : ℕ → ℕ → Type 0
      Follows v u = (v < 2 ^ k → u < 2 ^ k) × (bin_place v ≤ bin_place u)

      last_small :
          (middle : List Group) (last : Group)
          → IsOrdered (8 * e) k (bin_values_of (middle ++ (last ∷ [])))
          → last.0 < 2 ^ suc k
      last_small [] last (h, _) = h
      last_small (g ∷ middle) last (_, (_, o)) = last_small middle last o

      pub middle_strict :
          (v : ℕ) (middle : List Group) (last : Group)
          → v < 2 ^ suc k
          → cut_lb ≤ bin_place v
          → bin_place last.0 ≤ cut_ub
          → All (Follows v) (bin_values_of (middle ++ (last ∷ [])))
          → All (λ u. u ≢ v) (bin_values_of (middle ++ (last ∷ [])))
          → IsOrdered (8 * e) k (bin_values_of (middle ++ (last ∷ [])))
          → Distinct (bin_values_of (middle ++ (last ∷ [])))
          → Strictly middle
      middle_strict v [] last hv low up follow apart o d = tt
      middle_strict v (g ∷ middle) last hv low up ((_, at), follow) (ne, apart) (hg, (fg, o))
            (ng, d) =
          let (_, before) = last_of (Follows g.0) middle last fg in
          let other = last_of (λ u. u ≢ g.0) middle last ng in
          (
            (
              strictly_above v g.0 hv hg (λ same. ne (sym same)) at low,
              strictly_below g.0 last.0 hg (last_small middle last o) (λ same. other (sym same))
                  before up,
            ),
            middle_strict v middle last hv low up follow apart o d,
          )

      -- The rows that are left after the first and the last touched bin were tested.
      pub selected-touched :
          (first : Group) (middle : List Group) (last : Group) (before behind : List Group)
          → InBins (before ++ ((first ∷ (middle ++ (last ∷ []))) ++ behind))
          → AllBetween bin_place cut_lb cut_ub false before
          → AllBetween bin_place cut_lb cut_ub true (first ∷ (middle ++ (last ∷ [])))
          → AllBetween bin_place cut_lb cut_ub false behind
          → IsOrdered (8 * e) k (bin_values_of (first ∷ (middle ++ (last ∷ []))))
          → Distinct (bin_values_of (first ∷ (middle ++ (last ∷ []))))
          → selected
              (in_query e lb ub)
              (rows_of (before ++ ((first ∷ (middle ++ (last ∷ []))) ++ behind)))
            ≡ selected (in_query e lb ub) first.1
              ++ (rows_of middle ++ selected (in_query e lb ub) last.1)
      selected-touched first middle last before behind w fb ft fa (h, (follow, o)) (apart, d) =
          let keep = in_query e lb ub in
          let touched = first ∷ (middle ++ (last ∷ [])) in
          let (wb, wt_and) = split_InBins before (touched ++ behind) w in
          let (wt, wa) = split_InBins touched behind wt_and in
          let (wf, wml) = wt in
          let (wm, wl) = split_InBins middle (last ∷ []) wml in
          let (f_in, ml_in) = ft in
          let l_in = last_between middle last ml_in in
          let strict =
            middle_strict first.0 middle last h (ground (arith, f_in)) (ground (arith, l_in)) follow
              apart o d in
          let only_last : rows_of (last ∷ []) ≡ last.1 = unfold rows_of in append-nil last.1 in
          ap (selected keep) (rows_of-append before (touched ++ behind))
          ∙ selected-append keep (rows_of before) (rows_of (touched ++ behind))
          ∙ rw (outside_rows before wb fb) (
              ap (selected keep) (rows_of-append touched behind)
              ∙ selected-append keep (rows_of touched) (rows_of behind)
              ∙ rw (outside_rows behind wa fa) (
                  append-nil (selected keep (rows_of touched))
                  ∙ touched_rows first middle last only_last (strict_rows middle wm strict)))

    pub selected-touched_one :
        (first : Group) (before behind : List Group)
        → InBins (before ++ ((first ∷ []) ++ behind))
        → AllBetween bin_place cut_lb cut_ub false before
        → AllBetween bin_place cut_lb cut_ub false behind
        → selected (in_query e lb ub) (rows_of (before ++ ((first ∷ []) ++ behind)))
          ≡ selected (in_query e lb ub) first.1
    unfolding rows_of
    selected-touched_one first before behind w fb fa =
        let keep = in_query e lb ub in
        let (wb, wt_and) = split_InBins before ((first ∷ []) ++ behind) w in
        let (_, wa) = split_InBins (first ∷ []) behind wt_and in
        ap (selected keep) (rows_of-append before ((first ∷ []) ++ behind))
        ∙ selected-append keep (rows_of before) (first.1 ++ rows_of behind)
        ∙ rw (outside_rows before wb fb) (
            selected-append keep first.1 (rows_of behind)
            ∙ rw (outside_rows behind wa fa) (append-nil (selected keep first.1)))
