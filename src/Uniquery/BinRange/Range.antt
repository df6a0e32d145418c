-- ===== src/Uniquery/BinRange/Range.antt =====
-- The range that findBinRange1C returns consists of the bins whose values lie between the high
-- parts of the bounds.
use alacrity_adios.Prelude.{ℕ, zero, suc, ◌+◌, ◌-◌, ◌^◌, ◌<◌, ◌≤◌, ◌≡◌, refl, sym, ap, ◌∙◌, arith}
use alacrity_adios.Prelude.{
  true, false, ◌==◌, ltb, leb, ◌&&◌, if◌then◌else◌, Bool-cases, ◌⊎◌, inl, inr,
}
use alacrity_adios.Prelude.{ltb→lt, leb→le, List, [], ◌∷◌, length, get_or, All, none, some}
use alacrity_adios.Types.{BinLayout}
use mathlib.Core.Path.{subst}
use mathlib.Core.Option.{some-injective, none-ne-some}
use alacrity_adios.Encode.{count_up}
use alacrity_adios.Uniquery.BinRange.{Stop, found, not_found}
use alacrity_adios.Uniquery.BinRange.{find_start, find_end, check_range, search_from, search_bins}
use alacrity_adios.Uniquery.BinRange.Signs.{conv_1c-key}
use alacrity_adios.Uniquery.BinRange.Search.{IsOrdered, first_from, first_above, start_of, place}
use alacrity_adios.Uniquery.BinRange.Search.{lower, upper, continue_start-first_from}
use alacrity_adios.Uniquery.BinRange.Search.{continue_end-first_above}

module _ (place : ℕ → ℕ) (lower upper : ℕ) where
  -- The bins, from `bin` on, whose values have a place between the bounds.
  unfoldable pub matching : List ℕ → ℕ → List ℕ
  matching [] bin = []
  matching (v ∷ vs) bin =
      let later = matching vs (bin + 1) in
      if leb lower (place v) && leb (place v) upper then bin ∷ later else later

  abbrev Sorted : List ℕ → Type 0
  Sorted [] = Unit
  Sorted (v ∷ vs) = All (λ u. place v ≤ place u) vs × Sorted vs

  reach_on : (m n : ℕ) (vs : List ℕ) → m ≤ n → All (λ u. n ≤ place u) vs → All (λ u. m ≤ place u) vs
  reach_on m n [] h a = tt
  reach_on m n (u ∷ vs) h (p, a) = (omega arith, reach_on m n vs h a)

  matching_above :
      (vs : List ℕ) (bin : ℕ) → All (λ u. upper + 1 ≤ place u) vs → matching vs bin ≡ []
  unfolding matching
  matching_above [] bin a = refl
  matching_above (v ∷ vs) bin (p, a) =
      let out : (leb lower (place v) && leb (place v) upper) ≡ false = ground arith in
      rw out (matching_above vs (bin + 1) a)

  record Starts (vs : List ℕ) (bin b : ℕ) (r : List ℕ) : Type 0 where
    at : first_from place lower upper vs bin ≡ some (b, r)
    same : matching vs bin ≡ matching r b
    behind : bin ≤ b
    reach : b + length r ≡ bin + length vs
    sorted : Sorted r
    high : All (λ u. lower ≤ place u) r
    some_left : 0 < length r
    inside : place (get_or r 0 0) ≤ upper
    part : (i : ℕ) → get_or r i 0 ≡ get_or vs (b - bin + i) 0

  first_cases :
      (vs : List ℕ) (bin : ℕ)
      → Sorted vs
      → ((first_from place lower upper vs bin ≡ none) × (matching vs bin ≡ []))
        ⊎ ((b : ℕ) × (r : List ℕ) × Starts vs bin b r)
  unfolding first_from matching
  first_cases [] bin s = inl (refl, refl)
  first_cases (v ∷ vs) bin (a, s) = elim (Bool-cases (leb lower (place v))) [
    | inl from ↦ elim (Bool-cases (ltb upper (place v))) [
      | inl above ↦
          let p : upper + 1 ≤ place v = omega (arith, ltb→lt upper (place v) above) in
          inl (
            rw (from, above),
            matching_above (v ∷ vs) bin (p, reach_on (upper + 1) (place v) vs p a),
          )
      | inr within ↦
          let low : lower ≤ place v = leb→le lower (place v) from in
          inr (
            bin,
            v ∷ vs,
            record {
              at = rw (from, within);
              same = refl;
              behind = omega arith;
              reach = refl;
              sorted = (a, s);
              high = (low, reach_on lower (place v) vs low a);
              some_left = omega arith;
              inside = ground arith;
              part = λ i. let e : bin - bin + i ≡ i = omega arith in rw e;
            },
          )
    ]
    | inr below ↦ elim (first_cases vs (bin + 1) s) [
      | inl (e, m) ↦ inl (rw below e, rw below m)
      | inr (b, r, w) ↦ inr (
        b,
        r,
        record {
          at = rw below w.at;
          same = rw below w.same;
          behind = omega (arith, w.behind);
          reach = omega (arith, w.reach);
          sorted = w.sorted;
          high = w.high;
          some_left = w.some_left;
          inside = w.inside;
          part = λ i.
              let e : b - bin + i ≡ suc (b - (bin + 1) + i) = omega (arith, w.behind) in
              rw e (w.part i);
        },
      )
    ]
  ]

  record Ends (num : ℕ) (r : List ℕ) (b end_bin : ℕ) : Type 0 where
    after : b ≤ end_bin
    within : end_bin ≤ num
    range : matching r b ≡ count_up (end_bin - b) b

  first_above-Ends :
      (num : ℕ) (r : List ℕ) (b : ℕ)
      → num ≡ b + length r
      → Sorted r
      → All (λ u. lower ≤ place u) r
      → Ends num r b (first_above place lower upper num r b)
  unfolding first_above matching count_up
  first_above-Ends num [] b e s h =
      let none_left : num - b ≡ 0 = omega arith in
      record { after = omega arith; within = omega arith; range = rw none_left }
  first_above-Ends num (v ∷ vs) b e (a, s) (low, h) = elim (Bool-cases (ltb upper (place v))) [
    | inl above ↦
        let p : upper + 1 ≤ place v = omega (arith, ltb→lt upper (place v) above) in
        let none_left : b - b ≡ 0 = omega arith in
        rw above (record {
          after = omega arith;
          within = omega arith;
          range =
              matching_above (v ∷ vs) b (p, reach_on (upper + 1) (place v) vs p a) ∙ rw none_left;
        })
    | inr inside ↦
        let w = first_above-Ends num vs (b + 1) (omega arith) s h in
        let next = first_above place lower upper num vs (b + 1) in
        let here : (leb lower (place v) && leb (place v) upper) ≡ true = ground arith in
        let one_more : next - b ≡ suc (next - (b + 1)) = omega (arith, w.after) in
        rw inside (record {
          after = omega (arith, w.after);
          within = w.within;
          range = rw (here, one_more) (ap (λ t. b ∷ t) w.range);
        })
  ]

  some_inside :
      (num : ℕ) (r : List ℕ) (b : ℕ)
      → num ≡ b + length r
      → 0 < length r
      → place (get_or r 0 0) ≤ upper
      → Sorted r
      → All (λ u. lower ≤ place u) r
      → b < first_above place lower upper num r b
  unfolding first_above
  some_inside num [] b e l p s h = absurd (omega arith)
  some_inside num (v ∷ vs) b e l p (a, s) (low, h) =
      let inside : ltb upper (place v) ≡ false = ground arith in
      let w = first_above-Ends num vs (b + 1) (omega arith) s h in
      rw inside (omega (arith, w.after))

  get_high :
      (r : List ℕ) (i : ℕ)
      → All (λ u. lower ≤ place u) r
      → i < length r
      → lower ≤ place (get_or r i 0)
  get_high [] i h l = absurd (omega arith)
  get_high (v ∷ vs) zero (p, h) l = p
  get_high (v ∷ vs) (suc i) (p, h) l = get_high vs i h (omega arith)

IsOrdered-small :
    (width k : ℕ) (vs : List ℕ) (i : ℕ)
    → IsOrdered width k vs
    → i < length vs
    → get_or vs i 0 < 2 ^ suc k
IsOrdered-small width k [] i o l = absurd (omega arith)
IsOrdered-small width k (v ∷ vs) zero (h, (a, o)) l = h
IsOrdered-small width k (v ∷ vs) (suc i) (h, (a, o)) l =
    IsOrdered-small width k vs i o (omega arith)

module _ (width k : ℕ) (wide : suc k < width) (lb ub : ℕ) where
  abbrev at : ℕ → ℕ
  at = place width k wide lb ub

  abbrev low : ℕ
  low = lower width k wide lb ub

  abbrev up : ℕ
  up = upper width k wide lb ub

  IsOrdered-Sorted : (vs : List ℕ) → IsOrdered width k vs → Sorted at low up vs
  IsOrdered-Sorted [] o = tt
  IsOrdered-Sorted (v ∷ vs) (h, (a, o)) = (places vs a, IsOrdered-Sorted vs o)
    where
      places :
          (us : List ℕ)
          → All (λ u. (v < 2 ^ k → u < 2 ^ k) × (at v ≤ at u)) us
          → All (λ u. at v ≤ at u) us
      places [] b = tt
      places (u ∷ us) ((f, p), b) = (p, places us b)

  -- With the start bin at or below the upper bound and the last bin at or above the lower one, the
  -- checks after the loops let the range pass.
  checked :
      (vs : List ℕ) (s e : ℕ)
      → IsOrdered width k vs
      → s < e
      → e ≤ length vs
      → at (get_or vs s 0) ≤ up
      → low ≤ at (get_or vs (e - 1) 0)
      → check_range width (2 ^ k) lb ub vs s e ≡ some (s, e)
  unfolding check_range
  checked vs s e o h l first last =
      let apart : (s == e) ≡ false = ground arith in
      let small_first = IsOrdered-small width k vs s o (omega arith) in
      let small_last = IsOrdered-small width k vs (e - 1) o (omega arith) in
      let not_above : ltb up (at (get_or vs s 0)) ≡ false = ground arith in
      let not_below : ltb (at (get_or vs (e - 1) 0)) low ≡ false = ground arith in
      rw (
        apart,
        conv_1c-key width k wide (get_or vs s 0) small_first,
        conv_1c-key width k wide (get_or vs (e - 1) 0) small_last,
        not_above,
        not_below,
      )

  suffix-IsOrdered :
      (vs : List ℕ) (bin b : ℕ) (r : List ℕ)
      → IsOrdered width k vs
      → first_from at low up vs bin ≡ some (b, r)
      → IsOrdered width k r
  unfolding first_from
  suffix-IsOrdered [] bin b r o h = absurd (none-ne-some _ h)
  suffix-IsOrdered (v ∷ vs) bin b r (p, (a, o)) h = elim (Bool-cases (leb low (at v))) [
    | inl from ↦ elim (Bool-cases (ltb up (at v))) [
      | inl above ↦ absurd (none-ne-some _ (rw (from, above) at h))
      | inr inside ↦
          let e = some-injective _ _ (rw (from, inside) at h) in
          subst (λ z. IsOrdered width k z.1) e (p, (a, o))
    ]
    | inr below ↦ suffix-IsOrdered vs (bin + 1) b r o (rw below at h)
  ]

  from_none :
      (bl : BinLayout) (stop : Stop)
      → start_of stop ≡ none
      → search_from width (2 ^ k) lb ub bl stop ≡ none
  unfolding search_from
  from_none bl (found b r) h = absurd (none-ne-some _ (sym h))
  from_none bl (not_found b r) h = refl

  from_some :
      (bl : BinLayout) (stop : Stop) (b : ℕ) (r : List ℕ)
      → start_of stop ≡ some (b, r)
      → search_from width (2 ^ k) lb ub bl stop
        ≡ check_range width
            (2 ^ k)
            lb
            ub
            bl.bin_values
            b
            (find_end width (2 ^ k) lb ub bl.num_bins r b)
  unfolding search_from
  from_some bl (found c q) b r h =
      let e = some-injective _ _ h in
      ap
        (λ p.
          check_range width (2 ^ k) lb ub bl.bin_values p.0
            (find_end width (2 ^ k) lb ub bl.num_bins p.1 p.0))
        e
  from_some bl (not_found c q) b r h = absurd (none-ne-some _ h)

  -- On a bin layout whose values of k + 1 bits, fewer than the type has, are in the order of one's
  -- complement, the search finds the bins that meet the query: either it fails and no bin value lies
  -- between the converted bounds, or it gives a range of bins that is not empty, lies within the
  -- layout and consists of exactly the bins whose values lie between the bounds.
  pub search_bins-matching :
      (bl : BinLayout)
      → bl.num_bins ≡ length bl.bin_values
      → IsOrdered width k bl.bin_values
      → ((search_bins width (2 ^ k) lb ub bl ≡ none) × (matching at low up bl.bin_values 0 ≡ []))
        ⊎ ((start_bin : ℕ) × (end_bin : ℕ) × (search_bins width (2 ^ k) lb ub bl
              ≡ some (start_bin, end_bin))
            × (start_bin < end_bin)
            × (end_bin ≤ bl.num_bins)
            × (matching at low up bl.bin_values 0 ≡ count_up (end_bin - start_bin) start_bin))
  unfolding search_bins find_start find_end
  search_bins-matching bl n o =
      let vs = bl.bin_values in
      let stop = find_start width (2 ^ k) lb ub vs 0 in
      let start = continue_start-first_from width k wide lb ub vs 0 o in
      elim (first_cases at low up vs 0 (IsOrdered-Sorted vs o)) [
        | inl (e, m) ↦ inl (from_none bl stop (start ∙ e), m)
        | inr (b, r, w) ↦
            let e = first_above at low up bl.num_bins r b in
            let q = suffix-IsOrdered vs 0 b r o w.at in
            let whole : bl.num_bins ≡ b + length r = omega (arith, n, w.reach) in
            let ends = first_above-Ends at low up bl.num_bins r b whole w.sorted w.high in
            let more =
              some_inside at low up bl.num_bins r b whole w.some_left w.inside w.sorted w.high in
            let here : b - 0 + 0 ≡ b = omega arith in
            let there : b - 0 + (e - 1 - b) ≡ e - 1 = omega (arith, more) in
            let first = rw here at (w.part 0) in
            let last = rw there at (w.part (e - 1 - b)) in
            let high =
              get_high at low up r (e - 1 - b) w.high (omega (arith, more, ends.within, whole)) in
            inr (
              b,
              e,
              from_some bl stop b r (start ∙ w.at)
                  ∙ rw (continue_end-first_above width k wide lb ub bl.num_bins r b q) (
                      checked vs b e o more (omega (arith, ends.within, n)) (rw (← first) w.inside)
                        (rw (← last) high)),
              more,
              ends.within,
              w.same ∙ ends.range,
            )
      ]
