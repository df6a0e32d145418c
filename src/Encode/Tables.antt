-- ===== src/Encode/Tables.antt =====
-- Tables indexed by bin value, over a list of possible values without repetition: the values
-- that have an entry, the sum of the entries, and what one increment does to both.
use alacrity_adios.Prelude.{ℕ, suc, ◌+◌, ◌≤◌, ◌≡◌, ◌≢◌, refl, ap, ◌∙◌, arith}
use alacrity_adios.Prelude.{◌==◌, if◌then◌else◌, List, [], ◌∷◌, length}
use alacrity_adios.Prelude.{All, ◌⊎◌, inl, inr, Bool-cases}
use alacrity_adios.Encode.{update}

abbrev pub Distinct : List ℕ → Type 0
Distinct [] = Unit
Distinct (v ∷ vs) = All (λ u. u ≢ v) vs × Distinct vs

abbrev pub Has : ℕ → List ℕ → Type 0
Has h [] = ⊥
Has h (v ∷ vs) = (v ≡ h) ⊎ Has h vs

-- How many of `hs` are `v`.
unfoldable pub occurrences : ℕ → List ℕ → ℕ
occurrences v [] = 0
occurrences v (h ∷ hs) = if h == v then suc (occurrences v hs) else occurrences v hs

-- The values with a nonzero entry, in their order.
unfoldable pub present : (ℕ → ℕ) → List ℕ → List ℕ
present t [] = []
present t (v ∷ vs) = if t v == 0 then present t vs else v ∷ present t vs

unfoldable pub total : (ℕ → ℕ) → List ℕ → ℕ
total t [] = 0
total t (v ∷ vs) = t v + total t vs

-- The running sums of the entries of `ws`, from `e` on.
unfoldable pub ends : (ℕ → ℕ) → ℕ → List ℕ → List ℕ
ends t e [] = []
ends t e (w ∷ ws) = (e + t w) ∷ ends t (e + t w) ws

module _ (t : ℕ → ℕ) (h n : ℕ) where
  -- An entry outside the list does not matter.
  pub present-update_other :
      (vs : List ℕ) → All (λ u. u ≢ h) vs → present (update t h n) vs ≡ present t vs
  unfolding present
  present-update_other [] a = refl
  present-update_other (v ∷ vs) (ne, a) = ground (arith, present-update_other vs a)

  pub total-update_other :
      (vs : List ℕ) → All (λ u. u ≢ h) vs → total (update t h n) vs ≡ total t vs
  unfolding total
  total-update_other [] a = refl
  total-update_other (v ∷ vs) (ne, a) = ground (arith, total-update_other vs a)

  pub ends-update_other :
      (e : ℕ) (ws : List ℕ) → All (λ u. u ≢ h) ws → ends (update t h n) e ws ≡ ends t e ws
  unfolding ends
  ends-update_other e [] a = refl
  ends-update_other e (w ∷ ws) (ne, a) =
      let same : update t h n w ≡ t w = ground arith in
      rw same (ap (λ r. (e + t w) ∷ r) (ends-update_other (e + t w) ws a))

pub Has-ne : (v h : ℕ) (vs : List ℕ) → All (λ u. u ≢ v) vs → Has h vs → h ≢ v
Has-ne v h [] a m = absurd m
Has-ne v h (u ∷ vs) (ne, a) (inl e) = λ q. ne (e ∙ q)
Has-ne v h (u ∷ vs) (ne, a) (inr m) = Has-ne v h vs a m

module _ (t : ℕ → ℕ) (h : ℕ) where
  -- One increment of an entry of the list.
  pub length-present-increment :
      (vs : List ℕ)
      → Distinct vs
      → Has h vs
      → length (present (update t h (t h + 1)) vs)
        ≡ (if t h == 0 then length (present t vs) + 1 else length (present t vs))
  unfolding present
  length-present-increment [] d m = absurd m
  length-present-increment (v ∷ vs) (fresh, d) (inl e) =
      let fresh' : All (λ u. u ≢ h) vs = rw e at fresh in
      ground (arith, present-update_other t h (t h + 1) vs fresh', ap t e)
  length-present-increment (v ∷ vs) (fresh, d) (inr m) =
      let ne : h ≢ v = Has-ne v h vs fresh m in ground (arith, length-present-increment vs d m)

  pub total-increment :
      (vs : List ℕ) → Distinct vs → Has h vs → total (update t h (t h + 1)) vs ≡ total t vs + 1
  unfolding total
  total-increment [] d m = absurd m
  total-increment (v ∷ vs) (fresh, d) (inl e) =
      let fresh' : All (λ u. u ≢ h) vs = rw e at fresh in
      ground (arith, total-update_other t h (t h + 1) vs fresh', ap t e)
  total-increment (v ∷ vs) (fresh, d) (inr m) =
      let ne : h ≢ v = Has-ne v h vs fresh m in ground (arith, total-increment vs d m)

pub length-present-le : (t : ℕ → ℕ) (vs : List ℕ) → length (present t vs) ≤ length vs
unfolding present
length-present-le t [] = omega arith
length-present-le t (v ∷ vs) = ground (arith, length-present-le t vs)

pub present-All : (P : ℕ → Type 0) (t : ℕ → ℕ) (vs : List ℕ) → All P vs → All P (present t vs)
unfolding present
present-All P t [] a = tt
present-All P t (v ∷ vs) (p, a) = elim (Bool-cases (t v == 0)) [
  | inl none ↦ rw none (present-All P t vs a)
  | inr some ↦ rw some (p, present-All P t vs a)
]

pub total-present : (t : ℕ → ℕ) (vs : List ℕ) → total t (present t vs) ≡ total t vs
unfolding present total
total-present t [] = refl
total-present t (v ∷ vs) = ground (arith, total-present t vs)
