-- ===== src/RidCompress/Exceptions/Patching.antt =====
-- Values above a maximum are taken out of a batch, with zeros left in their places, and put back.
use alacrity_adios.Prelude.{ℕ, zero, suc, ◌+◌, ◌-◌, ◌*◌, ◌%◌, ◌^◌, ◌≤◌, ◌<◌, ◌≡◌, refl, ap}
use alacrity_adios.Prelude.{arith, true, false, Bool-cases, inl, inr, ltb, ◌==◌}
use alacrity_adios.Prelude.{List, [], ◌∷◌, ◌++◌, length, All, some, if◌then◌else◌}
use alacrity_adios.Prelude.{length-append, append_assoc, get_or, get_elem?, set}
use alacrity_adios.RidCompress.Exceptions.{ValueType, width, to_uint32, push_exception, patch_value}
use alacrity_adios.RidCompress.Exceptions.{encode_as_typed_exceptions, exception_indexes}
use alacrity_adios.RidCompress.Exceptions.{compute_typed_exceptions, zero_exceptions}
use alacrity_adios.RidCompress.Exceptions.{patch_typed_exceptions_new}
use alacrity_adios.RidCompress.Exceptions.Stack.{Holds, pop_exception-encode}

-- The element behind a prefix.
get_behind :
    (pre : List ℕ) (x : ℕ) (xs : List ℕ) (i : ℕ)
    → i ≡ length pre
    → get_elem? (pre ++ x ∷ xs) i ≡ some x
get_behind [] x xs zero h = refl
get_behind [] x xs (suc i) h = absurd (omega arith)
get_behind (p ∷ pre) x xs zero h = absurd (omega arith)
get_behind (p ∷ pre) x xs (suc i) h = get_behind pre x xs i (omega arith)

value_behind :
    (pre : List ℕ) (x : ℕ) (xs : List ℕ) (i : ℕ) → i ≡ length pre → get_or (pre ++ x ∷ xs) i 0 ≡ x
value_behind [] x xs zero h = refl
value_behind [] x xs (suc i) h = absurd (omega arith)
value_behind (p ∷ pre) x xs zero h = absurd (omega arith)
value_behind (p ∷ pre) x xs (suc i) h = value_behind pre x xs i (omega arith)

set_behind :
    (pre : List ℕ) (x y : ℕ) (xs : List ℕ) (i : ℕ)
    → i ≡ length pre
    → set (pre ++ x ∷ xs) i y ≡ pre ++ y ∷ xs
set_behind [] x y xs zero h = refl
set_behind [] x y xs (suc i) h = absurd (omega arith)
set_behind (p ∷ pre) x y xs zero h = absurd (omega arith)
set_behind (p ∷ pre) x y xs (suc i) h = ap (λ t. p ∷ t) (set_behind pre x y xs i (omega arith))

length_next : (pre : List ℕ) (x i : ℕ) → i ≡ length pre → i + 1 ≡ length (pre ++ x ∷ [])
length_next pre x i h = omega (arith, length-append pre (x ∷ []))

module _ (max_value : ℕ) where
  -- The exceptions, and what is left of the values.
  unfoldable pub above : List ℕ → List ℕ
  above [] = []
  above (x ∷ xs) = let rest = above xs in if ltb max_value x then x ∷ rest else rest

  unfoldable pub cleared : List ℕ → List ℕ
  cleared [] = []
  cleared (x ∷ xs) = (if ltb max_value x then 0 else x) ∷ cleared xs

  pub length-cleared : (xs : List ℕ) → length (cleared xs) ≡ length xs
  unfolding cleared
  length-cleared [] = refl
  length-cleared (x ∷ xs) = ap suc (length-cleared xs)

  -- No value is cut off that needs to be below the maximum.
  pub cleared-All : (xs : List ℕ) → All (λ d. d ≤ max_value) (cleared xs)
  unfolding cleared
  cleared-All [] = tt
  cleared-All (x ∷ xs) = (ground arith, cleared-All xs)

  -- There is at least the entry at the end.
  pub indexes_there :
      (idx : ℕ) (xs : List ℕ)
      → (n : ℕ) × (ns : List ℕ) × (exception_indexes max_value idx xs ≡ n ∷ ns)
  unfolding exception_indexes
  indexes_there idx [] = (128, [], refl)
  indexes_there idx (x ∷ xs) = elim (Bool-cases (ltb max_value x)) [
    | inl over ↦ (idx, exception_indexes max_value (idx + 1) xs, rw over)
    | inr under ↦ rw under (indexes_there (idx + 1) xs)
  ]

  pub length-exception_indexes :
      (idx : ℕ) (xs : List ℕ) → length (exception_indexes max_value idx xs) ≡ length (above xs) + 1
  unfolding exception_indexes above
  length-exception_indexes idx [] = refl
  length-exception_indexes idx (x ∷ xs) = ground (arith, length-exception_indexes (idx + 1) xs)

  -- The values with the distances in the places of the exceptions.
  pub chained : ℕ → List ℕ → List ℕ
  chained idx [] = []
  chained idx (x ∷ xs) =
      (if ltb max_value x
        then get_or (exception_indexes max_value (idx + 1) xs) 0 0 - idx - 1
        else x)
      ∷ chained (idx + 1) xs

  module _ (type : ValueType) where
    pub compute_typed_exceptions-above :
        (pre xs : List ℕ) (idx : ℕ) (exceptions : List ℕ)
        → idx ≡ length pre
        → All (Holds type) (above xs)
        → compute_typed_exceptions type (pre ++ xs) (exception_indexes max_value idx xs) exceptions
          ≡ some (pre ++ chained idx xs, encode_as_typed_exceptions type (above xs) exceptions)
    unfolding compute_typed_exceptions exception_indexes above chained encode_as_typed_exceptions
    compute_typed_exceptions-above pre [] idx exceptions h a = refl
    compute_typed_exceptions-above pre (x ∷ xs) idx exceptions h a =
        let next = length_next pre x idx h in
        elim (Bool-cases (ltb max_value x)) [
          | inl over ↦
              let (n, ns, e) = indexes_there (idx + 1) xs in
              let y = n - idx - 1 in
              let (held, rest) = rw over at a in
              let value = value_behind pre x xs idx h in
              let same : (to_uint32 type (x % 2 ^ (8 * width type)) == x) ≡ true =
                rw held (ground arith) in
              rw (over, e, value, same, set_behind pre x y xs idx h)
                (rw
                  (
                    append_assoc pre (y ∷ []) xs,
                    append_assoc pre (y ∷ []) (chained (idx + 1) xs),
                    e,
                  )
                  at
                  (compute_typed_exceptions-above (pre ++ y ∷ []) xs (idx + 1)
                    (push_exception type x exceptions) (length_next pre y idx h) rest))
          | inr under ↦ rw under (
              rw (append_assoc pre (x ∷ []) xs, append_assoc pre (x ∷ []) (chained (idx + 1) xs)) at
                (compute_typed_exceptions-above (pre ++ x ∷ []) xs (idx + 1) exceptions
                  (length_next pre x idx h) (rw under at a)))
        ]

  pub zero_exceptions-cleared :
      (pre xs : List ℕ) (idx : ℕ)
      → idx ≡ length pre
      → zero_exceptions (pre ++ chained idx xs) (exception_indexes max_value idx xs)
        ≡ pre ++ cleared xs
  unfolding zero_exceptions exception_indexes chained cleared
  zero_exceptions-cleared pre [] idx h = refl
  zero_exceptions-cleared pre (x ∷ xs) idx h = elim (Bool-cases (ltb max_value x)) [
    | inl over ↦
        let (n, ns, e) = indexes_there (idx + 1) xs in
        rw (over, e, set_behind pre (n - idx - 1) 0 (chained (idx + 1) xs) idx h)
          (rw
            (
              append_assoc pre (0 ∷ []) (chained (idx + 1) xs),
              append_assoc pre (0 ∷ []) (cleared xs),
              e,
            )
            at (zero_exceptions-cleared (pre ++ 0 ∷ []) xs (idx + 1) (length_next pre 0 idx h)))
    | inr under ↦ rw under (
        rw
          (append_assoc pre (x ∷ []) (chained (idx + 1) xs), append_assoc pre (x ∷ []) (cleared xs))
          at (zero_exceptions-cleared (pre ++ x ∷ []) xs (idx + 1) (length_next pre x idx h)))
  ]

  module _ (type : ValueType) (below : List ℕ) where
    -- From an exception or any place before the first one on, the zeros among positive values are
    -- the exceptions.
    patched :
        (pre ys zs : List ℕ) (offset : ℕ)
        → offset ≡ length pre
        → All (λ y. 0 < y) ys
        → All (Holds type) (above ys)
        → patch_typed_exceptions_new type
            (length ys)
            offset
            (pre ++ (cleared ys ++ zs))
            (below ++ encode_as_typed_exceptions type (above ys) [])
          ≡ some (pre ++ (ys ++ zs))
    unfolding patch_typed_exceptions_new cleared above patch_value
    patched pre [] zs offset h p a = refl
    patched pre (y ∷ ys) zs offset h (q, p) a = elim (Bool-cases (ltb max_value y)) [
      | inl over ↦
          let (held, rest) = rw over at a in
          rw
            (
              over,
              get_behind pre 0 (cleared ys ++ zs) offset h,
              pop_exception-encode type below (above ys) y held,
              set_behind pre 0 y (cleared ys ++ zs) offset h,
            )
            (rw (append_assoc pre (y ∷ []) (cleared ys ++ zs), append_assoc pre (y ∷ []) (ys ++ zs))
              at (patched (pre ++ y ∷ []) ys zs (offset + 1) (length_next pre y offset h) p rest))
      | inr under ↦
          let there : (y == 0) ≡ false = ground arith in
          rw (under, get_behind pre y (cleared ys ++ zs) offset h, there)
            (rw (append_assoc pre (y ∷ []) (cleared ys ++ zs), append_assoc pre (y ∷ []) (ys ++ zs))
              at
              (patched (pre ++ y ∷ []) ys zs (offset + 1) (length_next pre y offset h) p
                (rw under at a)))
    ]

    no_first :
        (zs : List ℕ) (idx : ℕ)
        → All (λ z. z ≡ 0) zs
        → exception_indexes max_value idx zs ≡ 128 ∷ []
    unfolding exception_indexes
    no_first [] idx a = refl
    no_first (z ∷ zs) idx (e, a) =
        let under : ltb max_value z ≡ false = ground arith in rw under (no_first zs (idx + 1) a)

    pub patch_typed_exceptions_new-cleared :
        (pre ys zs : List ℕ) (offset significant : ℕ)
        → offset ≡ length pre
        → significant ≡ length pre + length ys
        → significant ≤ 128
        → All (λ y. 0 < y) ys
        → All (λ z. z ≡ 0) zs
        → All (Holds type) (above ys)
        → let first = get_or (exception_indexes max_value offset (ys ++ zs)) 0 0 in
          patch_typed_exceptions_new type
            (significant - first)
            first
            (pre ++ (cleared ys ++ zs))
            (below ++ encode_as_typed_exceptions type (above ys) [])
          ≡ some (pre ++ (ys ++ zs))
    unfolding exception_indexes cleared above
    patch_typed_exceptions_new-cleared pre [] zs offset significant h s m p z a =
        let none_left : significant - 128 ≡ 0 = omega arith in
        rw (no_first zs offset z, none_left) (unfold patch_typed_exceptions_new in refl)
    patch_typed_exceptions_new-cleared pre (y ∷ ys) zs offset significant h s m (q, p) z a =
        elim (Bool-cases (ltb max_value y)) [
          | inl over ↦
              let turns : significant - offset ≡ length (y ∷ ys) = omega arith in
              rw over (rw (over, ← turns) at (patched pre (y ∷ ys) zs offset h (q, p) a))
          | inr under ↦ rw under (
              rw
                (append_assoc pre (y ∷ []) (cleared ys ++ zs), append_assoc pre (y ∷ []) (ys ++ zs))
                at
                (patch_typed_exceptions_new-cleared (pre ++ y ∷ []) ys zs (offset + 1) significant
                  (length_next pre y offset h) (omega (arith, length-append pre (y ∷ []))) m p z
                  (rw under at a)))
        ]
