-- ===== src/Encode/Counting.antt =====
-- The first scan: the count table holds the number of elements of each bin value, `num_bins` is
-- the number of values that occur, and no counter wraps.
use alacrity_adios.Prelude.{ℕ, ◌+◌, ◌-◌, ◌^◌, ◌≤◌, ◌<◌, ◌≡◌, refl, ap, ◌∙◌, arith}
use alacrity_adios.Prelude.{List, [], ◌∷◌, length}
use alacrity_adios.Prelude.{All, inl, inr, map, u32}
use alacrity_adios.Datum.{high_part}
use alacrity_adios.Encode.{Counts, update, count_datum, count_data}
use alacrity_adios.Encode.Tables.{Distinct, Has, occurrences, present, total}
use alacrity_adios.Encode.Tables.{length-present-increment, total-increment, length-present-le}

-- The invariant: `c` counts some data whose values are all among `vs`, `n` elements in all.
pub record IsCount (vs : List ℕ) (n : ℕ) (c : Counts) : Type 0 where
  pub bins : c.num_bins ≡ length (present c.table vs)
  pub sum : total c.table vs ≡ n

entry-le-total : (t : ℕ → ℕ) (h : ℕ) (vs : List ℕ) → Has h vs → t h ≤ total t vs
unfolding total
entry-le-total t h [] m = absurd m
entry-le-total t h (v ∷ vs) (inl e) = omega (arith, ap t e)
entry-le-total t h (v ∷ vs) (inr m) = omega (arith, entry-le-total t h vs m)

module _ (vs : List ℕ) (distinct : Distinct vs) (few : length vs < 2 ^ 32 - 1) where
  count_datum-IsCount :
      (c : Counts) (n h : ℕ)
      → n < 2 ^ 32 - 1
      → Has h vs
      → IsCount vs n c
      → IsCount vs (n + 1) (count_datum h c)
        × ((count_datum h c).table ≡ update c.table h (c.table h + 1))
  unfolding count_datum
  count_datum-IsCount c n h small m w =
      let fits : c.table h < 2 ^ 32 - 1 = omega (arith, entry-le-total c.table h vs m, w.sum) in
      let e : u32 (c.table h + 1) ≡ c.table h + 1 = omega arith in
      (
        rw e (record {
          bins = ground (
            arith,
            length-present-increment c.table h vs distinct m,
            length-present-le c.table vs,
            w.bins,
          );
          sum = omega (arith, total-increment c.table h vs distinct m, w.sum);
        }),
        rw e,
      )

  module _ (elem_size sigbits : ℕ) where
    abbrev highs : List ℕ → List ℕ
    highs xs = map (high_part elem_size sigbits) xs

    -- The first scan over fewer than 2^32 - 1 elements, with bin values among fewer than 2^32 - 1
    -- distinct ones: the number of bins stays the number of values with a count, the counts add up
    -- to the number of elements, and the count of each value grows by its occurrences.
    pub count_data-IsCount :
        (xs : List ℕ) (c : Counts) (n k : ℕ)
        → k ≡ n + length xs
        → k < 2 ^ 32 - 1
        → All (λ h. Has h vs) (highs xs)
        → IsCount vs n c
        → IsCount vs k (count_data elem_size sigbits xs c)
          × ((v : ℕ)
              → (count_data elem_size sigbits xs c).table v ≡ c.table v + occurrences v (highs xs))
    unfolding count_data occurrences
    count_data-IsCount [] c n k e small a w =
        let e' : k ≡ n = omega arith in (rw e' w, λ v. omega arith)
    count_data-IsCount (x ∷ xs) c n k e small (m, a) w =
        let h = high_part elem_size sigbits x in
        let (w', t) = count_datum-IsCount c n h (omega arith) m w in
        let (w'', t') =
          count_data-IsCount xs (count_datum h c) (n + 1) k (omega arith) small a w' in
        (w'', λ v. t' v ∙ rw t (ground arith))

-- No entry at first.
present_zero : (vs : List ℕ) → present (λ _. 0) vs ≡ []
unfolding present
present_zero [] = refl
present_zero (v ∷ vs) = present_zero vs

total_zero : (vs : List ℕ) → total (λ _. 0) vs ≡ 0
unfolding total
total_zero [] = refl
total_zero (v ∷ vs) = omega (arith, total_zero vs)

pub zero-IsCount : (vs : List ℕ) → IsCount vs 0 (record { table = λ _. 0; num_bins = 0 })
zero-IsCount vs = record { bins = rw (present_zero vs); sum = total_zero vs }
