-- ===== src/Uniquery/Selection.antt =====
-- Rows, each a row id with a value, and those among them that a test keeps.
use alacrity_adios.Prelude.{
  ℕ, ◌≡◌, refl, ap, Bool, true, false, if◌then◌else◌, Bool-cases, inl, inr,
}
use alacrity_adios.Prelude.{List, [], ◌∷◌, ◌++◌, map, length, ◌≤◌, arith, All}

abbrev pub Row : Type 0
Row = ℕ × ℕ

abbrev pub row_ids : List Row → List ℕ
row_ids rows = map (λ (r : Row). r.0) rows

abbrev pub values : List Row → List ℕ
values rows = map (λ (r : Row). r.1) rows

module _ (keep : ℕ → Bool) where
  unfoldable pub selected : List Row → List Row
  selected [] = []
  selected (r ∷ rows) = let others = selected rows in if keep r.1 then r ∷ others else others

  pub selected-append : (xs ys : List Row) → selected (xs ++ ys) ≡ selected xs ++ selected ys
  unfolding selected
  selected-append [] ys = refl
  selected-append (r ∷ xs) ys = elim (Bool-cases (keep r.1)) [
    | inl yes_kept ↦ rw yes_kept (ap (λ t. r ∷ t) (selected-append xs ys))
    | inr not_kept ↦ rw not_kept (selected-append xs ys)
  ]

  pub length-selected : (xs : List Row) → length (selected xs) ≤ length xs
  unfolding selected
  length-selected [] = omega arith
  length-selected (r ∷ xs) = ground (arith, length-selected xs)

  pub selected_all : (xs : List Row) → All (λ r. keep r.1 ≡ true) xs → selected xs ≡ xs
  unfolding selected
  selected_all [] a = refl
  selected_all (r ∷ xs) (p, a) = rw p (ap (λ t. r ∷ t) (selected_all xs a))

  pub selected_none : (xs : List Row) → All (λ r. keep r.1 ≡ false) xs → selected xs ≡ []
  unfolding selected
  selected_none [] a = refl
  selected_none (r ∷ xs) (p, a) = rw p (selected_none xs a)
