-- ===== src/Uniquery/Query/Segments.antt =====
-- The bins of a partition that a query touches, those before and those behind them.
use alacrity_adios.Prelude.{ℕ, zero, suc, ◌+◌, ◌≤◌, ◌≡◌, refl, sym, ap, ◌∙◌, arith}
use alacrity_adios.Prelude.{Bool, true, false, leb, ◌&&◌, Bool-cases, inl, inr, All}
use alacrity_adios.Prelude.{List, [], ◌∷◌, ◌++◌, length, map}
use alacrity_adios.Encode.{count_up}
use alacrity_adios.Encode.Order.{All-weaken}
use alacrity_adios.Uniquery.Selection.{Row}
use alacrity_adios.Uniquery.BinRange.Range.{matching}

-- A bin value with the rows of the bin.
abbrev pub Group : Type 0
Group = ℕ × List Row

abbrev pub bin_values_of : List Group → List ℕ
bin_values_of groups = map (λ (g : Group). g.0) groups

unfoldable pub rows_of : List Group → List Row
rows_of [] = []
rows_of ((v, rows) ∷ groups) = rows ++ rows_of groups

module _ (place : ℕ → ℕ) (lower upper : ℕ) where
  abbrev pub is_between : Group → Bool
  is_between g = leb lower (place g.0) && leb (place g.0) upper

  abbrev pub AllBetween : Bool → List Group → Type 0
  AllBetween b groups = All (λ g. is_between g ≡ b) groups

  pub none_between :
      (groups : List Group) (bin : ℕ)
      → matching place lower upper (bin_values_of groups) bin ≡ []
      → AllBetween false groups
  unfolding matching
  none_between [] bin h = tt
  none_between (g ∷ groups) bin h = elim (Bool-cases (is_between g)) [
    | inl between ↦ cc (rw between at h)
    | inr outside ↦ (outside, none_between groups (bin + 1) (rw outside at h))
  ]

  matching_from :
      (groups : List Group) (bin : ℕ)
      → All (λ b. bin ≤ b) (matching place lower upper (bin_values_of groups) bin)
  unfolding matching
  matching_from [] bin = tt
  matching_from (g ∷ groups) bin =
      let later =
        All-weaken (λ b. bin + 1 ≤ b) (λ b. bin ≤ b) _ (λ b h. omega (arith, h))
          (matching_from groups (bin + 1)) in
      elim (Bool-cases (is_between g)) [
        | inl between ↦ rw between (omega arith, later)
        | inr outside ↦ rw outside later
      ]

  -- The groups from the first one between the bounds on.
  from_first :
      (groups : List Group) (bin n : ℕ)
      → matching place lower upper (bin_values_of groups) bin ≡ count_up n bin
      → (touched : List Group) × (behind : List Group) × (groups ≡ touched ++ behind)
        × (length touched ≡ n)
        × AllBetween true touched
        × AllBetween false behind
  unfolding matching count_up
  from_first groups bin zero h = ([], groups, refl, refl, tt, none_between groups bin h)
  from_first [] bin (suc n) h = cc
  from_first (g ∷ groups) bin (suc n) h = elim (Bool-cases (is_between g)) [
    | inl between ↦
        let whole = rw between at h in
        let tail : matching place lower upper (bin_values_of groups) (bin + 1)
            ≡ count_up n (bin + 1) =
          cc whole in
        let (touched, behind, e, l, t, f) = from_first groups (bin + 1) n tail in
        (g ∷ touched, behind, ap (λ z. g ∷ z) e, ap suc l, (between, t), f)
    | inr outside ↦
        let above = matching_from groups (bin + 1) in
        let (first, _) = rw (rw outside at h) at above in absurd (omega (arith, first))
  ]

  pub segments :
      (groups : List Group) (bin n s : ℕ)
      → matching place lower upper (bin_values_of groups) bin ≡ count_up (suc n) s
      → (before : List Group) × (touched : List Group) × (behind : List Group) × (groups
          ≡ before ++ (touched ++ behind))
        × (length before + bin ≡ s)
        × (length touched ≡ suc n)
        × AllBetween false before
        × AllBetween true touched
        × AllBetween false behind
  unfolding matching count_up
  segments [] bin n s h = cc
  segments (g ∷ groups) bin n s h = elim (Bool-cases (is_between g)) [
    | inl between ↦
        let whole = rw between at h in
        let same : bin ≡ s = cc whole in
        let (touched, behind, e, l, t, f) =
          from_first (g ∷ groups) bin (suc n) (h ∙ ap (count_up (suc n)) (sym same)) in
        ([], touched, behind, e, omega (arith, same), l, tt, t, f)
    | inr outside ↦
        let (before, touched, behind, e, l, k, o, t, f) =
          segments groups (bin + 1) n s (rw outside at h) in
        (g ∷ before, touched, behind, ap (λ z. g ∷ z) e, omega (arith, l), k, (outside, o), t, f)
  ]
