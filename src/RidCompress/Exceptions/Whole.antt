-- ===== src/RidCompress/Exceptions/Whole.antt =====
-- The exceptions of a whole batch of differences: 0, positive numbers, and zeros.
use alacrity_adios.Prelude.{ℕ, ◌+◌, ◌-◌, ◌≤◌, ◌<◌, ◌≡◌, refl, ap}
use alacrity_adios.Prelude.{arith, false, Bool-cases, inl, inr, ltb}
use alacrity_adios.Prelude.{List, [], ◌∷◌, ◌++◌, length, All, some, get_or}
use alacrity_adios.RidCompress.Exceptions.{ValueType, encode_as_typed_exceptions, exception_indexes}
use alacrity_adios.RidCompress.Exceptions.{patch_typed_exceptions_new}
use alacrity_adios.RidCompress.Exceptions.Stack.{Holds}
use alacrity_adios.RidCompress.Exceptions.Patching.{
  above, cleared, patch_typed_exceptions_new-cleared,
}

module _ (max_value : ℕ) where
  pub above-All : (P : ℕ → Type 0) (xs : List ℕ) → All P xs → All P (above max_value xs)
  unfolding above
  above-All P [] a = tt
  above-All P (x ∷ xs) (p, a) = elim (Bool-cases (ltb max_value x)) [
    | inl over ↦ rw over (p, above-All P xs a)
    | inr under ↦ rw under (above-All P xs a)
  ]

  pub length-above : (xs : List ℕ) → length (above max_value xs) ≤ length xs
  unfolding above
  length-above [] = omega arith
  length-above (x ∷ xs) = ground (arith, length-above xs)

  above-zeros : (zs : List ℕ) → All (λ z. z ≡ 0) zs → above max_value zs ≡ []
  unfolding above
  above-zeros [] a = refl
  above-zeros (z ∷ zs) (e, a) =
      let under : ltb max_value z ≡ false = ground arith in rw under (above-zeros zs a)

  cleared-zeros : (zs : List ℕ) → All (λ z. z ≡ 0) zs → cleared max_value zs ≡ zs
  unfolding cleared
  cleared-zeros [] a = refl
  cleared-zeros (z ∷ zs) (e, a) =
      let under : ltb max_value z ≡ false = ground arith in
      rw under (ap (λ t. z ∷ t) (cleared-zeros zs a))

  above_padded :
      (ds zs : List ℕ) → All (λ z. z ≡ 0) zs → above max_value (ds ++ zs) ≡ above max_value ds
  unfolding above
  above_padded [] zs a = above-zeros zs a
  above_padded (d ∷ ds) zs a = rw (above_padded ds zs a)

  cleared_padded :
      (ds zs : List ℕ)
      → All (λ z. z ≡ 0) zs
      → cleared max_value (ds ++ zs) ≡ cleared max_value ds ++ zs
  unfolding cleared
  cleared_padded [] zs a = cleared-zeros zs a
  cleared_padded (d ∷ ds) zs a = rw (cleared_padded ds zs a)

  patch_whole :
      (type : ValueType) (below ds zs : List ℕ) (significant : ℕ)
      → significant ≡ 1 + length ds
      → significant ≤ 128
      → All (λ d. 0 < d) ds
      → All (λ z. z ≡ 0) zs
      → All (Holds type) (above max_value (0 ∷ (ds ++ zs)))
      → let first = get_or (exception_indexes max_value 0 (0 ∷ (ds ++ zs))) 0 0 in
        patch_typed_exceptions_new type
          (significant - first)
          first
          (cleared max_value (0 ∷ (ds ++ zs)))
          (below ++ encode_as_typed_exceptions type (above max_value (0 ∷ (ds ++ zs))) [])
        ≡ some (0 ∷ (ds ++ zs))
  unfolding above cleared exception_indexes
  patch_whole type below ds zs significant h few p z a =
      let under : ltb max_value 0 ≡ false = ground arith in
      rw (under, above_padded ds zs z, cleared_padded ds zs z)
        (patch_typed_exceptions_new-cleared max_value type below (0 ∷ []) ds zs 1 significant refl h
          few p z (rw (under, above_padded ds zs z) at a))

  pub patch_deltas :
      (type : ValueType) (below values ds zs : List ℕ) (significant : ℕ)
      → values ≡ 0 ∷ (ds ++ zs)
      → significant ≡ 1 + length ds
      → significant ≤ 128
      → All (λ d. 0 < d) ds
      → All (λ z. z ≡ 0) zs
      → All (Holds type) (above max_value values)
      → let first = get_or (exception_indexes max_value 0 values) 0 0 in
        patch_typed_exceptions_new type
          (significant - first)
          first
          (cleared max_value values)
          (below ++ encode_as_typed_exceptions type (above max_value values) [])
        ≡ some values
  patch_deltas type below values ds zs significant e h few p z a =
      rw e (patch_whole type below ds zs significant h few p z (rw e at a))
