-- ===== src/Uniquery/Query/Matching.antt =====
-- The test of a query on a value, by the places of the value and the bounds.
use alacrity_adios.Prelude.{ℕ, ◌+◌, ◌-◌, ◌%◌, ◌≤◌, ◌<◌, ◌≡◌, arith}
use alacrity_adios.Prelude.{true, false, ltb, Bool-cases, inl, inr, ltb→lt, ◌⊎◌}
use alacrity_adios.Uniquery.BinRange.Signs.{key}
use alacrity_adios.Uniquery.FloatOrder.{sign_bit, is_nan, place, float_leb, float_ltb, in_query}
use native.Mathlib.Nat.{mod-eq_of_lt}
use alacrity_adios.Prelude.Division.{mod_of_parts}

module _ (e lb ub x : ℕ) where
  pub in_query-places :
      in_query e lb ub x ≡ true → (place e lb ≤ place e x) × (place e x < place e ub)
  unfolding in_query float_leb float_ltb
  in_query-places h = ground arith

  magnitude :
      (y : ℕ)
      → y < sign_bit e + sign_bit e
      → ((sign_bit e ≤ y) × (y % sign_bit e ≡ y - sign_bit e))
        ⊎ ((y < sign_bit e) × (y % sign_bit e ≡ y))
  magnitude y h = elim (Bool-cases (ltb y (sign_bit e))) [
    | inl low ↦ inr (ltb→lt _ _ low, mod-eq_of_lt (ltb→lt _ _ low))
    | inr high ↦
        let above : sign_bit e ≤ y = ground (arith, high) in
        inl (
          above,
          mod_of_parts y 1 (y - sign_bit e) (sign_bit e) (omega (arith, above))
              (omega (arith, above, h)),
        )
  ]

  pub places-in_query :
      x < sign_bit e + sign_bit e
      → lb < sign_bit e + sign_bit e
      → ub < sign_bit e + sign_bit e
      → is_nan e lb ≡ false
      → is_nan e ub ≡ false
      → place e lb < place e x
      → place e x < place e ub
      → in_query e lb ub x ≡ true
  unfolding in_query float_leb float_ltb is_nan key
  places-in_query hx hl hu nl nu low high = elim (magnitude x hx) [
    | inl (nx, mx) ↦ elim (magnitude lb hl) [
      | inl (nb, mb) ↦ ground (arith, nl, nu, low, high, nx, mx, nb, mb)
      | inr (pb, mb) ↦ ground (arith, low, nx, pb)
    ]
    | inr (px, mx) ↦ elim (magnitude ub hu) [
      | inl (nb, mb) ↦ ground (arith, high, px, nb)
      | inr (pb, mb) ↦ ground (arith, nl, nu, low, high, px, mx, pb, mb)
    ]
  ]
