-- ===== src/Uniquery/BinRange/Search.antt =====
-- The four loops, on bin values in the order of one's complement, find the first bin at or above
-- the lower bound and the first bin behind it above the upper one.
use alacrity_adios.Prelude.{ℕ, suc, ◌+◌, ◌%◌, ◌^◌, ◌<◌, ◌≤◌, ◌≡◌, refl, arith}
use alacrity_adios.Prelude.{true, ltb, leb, if◌then◌else◌, Bool-cases, inl, inr}
use alacrity_adios.Prelude.{ltb→lt, List, [], ◌∷◌, All, Option, none, some}
use alacrity_adios.Uniquery.BinRange.{
  Stop, found, not_found, find_start_neg, find_start_pos, find_end_neg,
}
use alacrity_adios.Uniquery.BinRange.{find_end_pos, continue_end, continue_start, end_or}
use alacrity_adios.Uniquery.BinRange.Signs.{key, conv_pos-key, conv_neg-key, conv_pos-above, origin}
use alacrity_adios.Uniquery.BinRange.Signs.{sign_clear, sign_set}

-- Bin values of k + 1 bits in the order of one's complement: negative ones first, each at or below
-- those behind it.
abbrev pub IsOrdered : ℕ → ℕ → List ℕ → Type 0
IsOrdered width k [] = Unit
IsOrdered width k (v ∷ vs) =
    (v < 2 ^ suc k)
    × (All
          (λ u.
            (v < 2 ^ k → u < 2 ^ k) × (key (origin width) (2 ^ k) v ≤ key (origin width) (2 ^ k) u))
          vs
        × IsOrdered width k vs)

module _ (place : ℕ → ℕ) (lower upper : ℕ) where
  -- The searches by the places of the bin values and of the bounds on the line.
  unfoldable pub first_from : List ℕ → ℕ → Option (ℕ × List ℕ)
  first_from [] bin = none
  first_from (v ∷ vs) bin =
      if leb lower (place v)
      then (if ltb upper (place v) then none else some (bin, v ∷ vs))
      else first_from vs (bin + 1)

  unfoldable pub first_above : ℕ → List ℕ → ℕ → ℕ
  first_above num_bins [] bin = num_bins
  first_above num_bins (v ∷ vs) bin =
      if ltb upper (place v) then bin else first_above num_bins vs (bin + 1)

abbrev pub start_of : Stop → Option (ℕ × List ℕ)
start_of (found bin rest) = some (bin, rest)
start_of (not_found bin rest) = none

module _ (width k : ℕ) (wide : suc k < width) (lb ub : ℕ) where
  abbrev pub place : ℕ → ℕ
  place v = key (origin width) (2 ^ k) v

  abbrev pub lower : ℕ
  lower = (lb + origin width) % 2 ^ width

  abbrev pub upper : ℕ
  upper = (ub + origin width) % 2 ^ width

  all_positive :
      (v : ℕ) (vs : List ℕ)
      → v < 2 ^ k
      → All (λ u. (v < 2 ^ k → u < 2 ^ k) × (place v ≤ place u)) vs
      → All (λ u. u < 2 ^ k) vs
  all_positive v [] h a = tt
  all_positive v (u ∷ vs) h ((f, p), a) = (f h, all_positive v vs h a)

  find_start_pos-first_from :
      (vs : List ℕ) (bin : ℕ)
      → All (λ u. u < 2 ^ k) vs
      → start_of (find_start_pos width (2 ^ k) lb ub vs bin) ≡ first_from place lower upper vs bin
  unfolding find_start_pos first_from
  find_start_pos-first_from [] bin a = refl
  find_start_pos-first_from (v ∷ vs) bin (p, a) =
      rw (conv_pos-key width k wide v p) (elim (Bool-cases (leb lower (place v))) [
        | inl from ↦ rw from (elim (Bool-cases (ltb upper (place v))) [
          | inl above ↦ rw above
          | inr inside ↦ rw inside
        ])
        | inr below ↦ rw below (find_start_pos-first_from vs (bin + 1) a)
      ])

  pub continue_start-first_from :
      (vs : List ℕ) (bin : ℕ)
      → IsOrdered width k vs
      → start_of (continue_start width (2 ^ k) lb ub (find_start_neg width (2 ^ k) lb ub vs bin))
        ≡ first_from place lower upper vs bin
  unfolding continue_start find_start_neg find_start_pos first_from
  continue_start-first_from [] bin o = refl
  continue_start-first_from (v ∷ vs) bin (h, (a, o)) = elim (Bool-cases (ltb v (2 ^ k))) [
    | inl pos ↦
        let p : v < 2 ^ k = ltb→lt v (2 ^ k) pos in
        rw (sign_clear width k wide v p)
          (find_start_pos-first_from (v ∷ vs) bin (p, all_positive v vs p a))
    | inr neg ↦
        let n : 2 ^ k ≤ v = ground arith in
        rw (sign_set width k wide v h n, conv_neg-key width k wide v h n)
          (elim (Bool-cases (leb lower (place v))) [
            | inl from ↦ rw from (elim (Bool-cases (ltb upper (place v))) [
              | inl above ↦
                  let beyond = conv_pos-above width k wide v h n in
                  let l : leb lower ((v + origin width) % 2 ^ width) ≡ true = ground arith in
                  let u : ltb upper ((v + origin width) % 2 ^ width) ≡ true = ground arith in
                  rw above (rw (l, u))
              | inr inside ↦ rw inside
            ])
            | inr below ↦ rw below (continue_start-first_from vs (bin + 1) o)
          ])
  ]

  find_end_pos-first_above :
      (num_bins : ℕ) (vs : List ℕ) (bin : ℕ)
      → All (λ u. u < 2 ^ k) vs
      → end_or width (2 ^ k) lb ub num_bins (find_end_pos width (2 ^ k) lb ub vs bin)
        ≡ first_above place lower upper num_bins vs bin
  unfolding find_end_pos first_above end_or
  find_end_pos-first_above num_bins [] bin a = refl
  find_end_pos-first_above num_bins (v ∷ vs) bin (p, a) =
      rw (conv_pos-key width k wide v p) (elim (Bool-cases (ltb upper (place v))) [
        | inl above ↦ rw above
        | inr inside ↦ rw inside (find_end_pos-first_above num_bins vs (bin + 1) a)
      ])

  pub continue_end-first_above :
      (num_bins : ℕ) (vs : List ℕ) (bin : ℕ)
      → IsOrdered width k vs
      → continue_end width (2 ^ k) lb ub num_bins (find_end_neg width (2 ^ k) lb ub vs bin)
        ≡ first_above place lower upper num_bins vs bin
  unfolding continue_end find_end_neg find_end_pos end_or first_above
  continue_end-first_above num_bins [] bin o = refl
  continue_end-first_above num_bins (v ∷ vs) bin (h, (a, o)) = elim (Bool-cases (ltb v (2 ^ k))) [
    | inl pos ↦
        let p : v < 2 ^ k = ltb→lt v (2 ^ k) pos in
        rw (sign_clear width k wide v p)
          (find_end_pos-first_above num_bins (v ∷ vs) bin (p, all_positive v vs p a))
    | inr neg ↦
        let n : 2 ^ k ≤ v = ground arith in
        rw (sign_set width k wide v h n, conv_neg-key width k wide v h n)
          (elim (Bool-cases (ltb upper (place v))) [
            | inl above ↦ rw above
            | inr inside ↦ rw inside (continue_end-first_above num_bins vs (bin + 1) o)
          ])
  ]
