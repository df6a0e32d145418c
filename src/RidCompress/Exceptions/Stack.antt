-- ===== src/RidCompress/Exceptions/Stack.antt =====
-- Exceptions that were stored from the end of a buffer downwards are read back in the same order.
use alacrity_adios.Prelude.{ℕ, ◌+◌, ◌-◌, ◌*◌, ◌%◌, ◌^◌, ◌≡◌, refl, sym, ap, ◌∙◌}
use alacrity_adios.Prelude.{arith, List, [], ◌∷◌, ◌++◌, length, All, some}
use alacrity_adios.Prelude.{
  length-append, take_append, drop_append, append_assoc, append-nil, le→leb,
}
use alacrity_adios.Prelude.Division.{pow_256}
use alacrity_adios.Memory.{le_bytes, length-le_bytes, from_le-le_bytes_mod}
use alacrity_adios.RidCompress.Exceptions.{
  ValueType, width, to_uint32, push_exception, pop_exception,
}
use alacrity_adios.RidCompress.Exceptions.{encode_as_typed_exceptions, decode_as_typed_exceptions}

-- A value that the type gives back as it was.
abbrev pub Holds : ValueType → ℕ → Type 0
Holds type v = to_uint32 type (v % 2 ^ (8 * width type)) ≡ v

module _ (type : ValueType) where
  pub encode_as_typed_exceptions-append :
      (vs exceptions : List ℕ)
      → encode_as_typed_exceptions type vs exceptions
        ≡ encode_as_typed_exceptions type vs [] ++ exceptions
  unfolding encode_as_typed_exceptions push_exception
  encode_as_typed_exceptions-append [] exceptions = refl
  encode_as_typed_exceptions-append (v ∷ vs) exceptions =
      let bytes = le_bytes (width type) v in
      encode_as_typed_exceptions-append vs (bytes ++ exceptions)
      ∙ sym (append_assoc (encode_as_typed_exceptions type vs []) bytes exceptions)
      ∙ ap (λ t. t ++ exceptions)
          (sym (
            ap (λ t. encode_as_typed_exceptions type vs t) (append-nil bytes)
            ∙ encode_as_typed_exceptions-append vs bytes))

  pub length-encode_as_typed_exceptions :
      (vs exceptions : List ℕ)
      → length (encode_as_typed_exceptions type vs exceptions)
        ≡ length vs * width type + length exceptions
  unfolding encode_as_typed_exceptions push_exception
  length-encode_as_typed_exceptions [] exceptions = omega arith
  length-encode_as_typed_exceptions (v ∷ vs) exceptions = grind (
    arith,
    length-encode_as_typed_exceptions vs (le_bytes (width type) v ++ exceptions),
    length-append (le_bytes (width type) v) exceptions,
    length-le_bytes (width type) v,
  )

  pub pop_exception-le_bytes :
      (below : List ℕ) (v : ℕ)
      → Holds type v
      → pop_exception type (below ++ le_bytes (width type) v) ≡ some (v, below)
  unfolding pop_exception
  pop_exception-le_bytes below v h =
      let bytes = le_bytes (width type) v in
      let l = length-append below bytes in
      let w = length-le_bytes (width type) v in
      let at : length (below ++ bytes) - width type ≡ length below = omega (arith, l, w) in
      rw (
        le→leb (width type) (length (below ++ bytes)) (omega (arith, l, w)),
        at,
        drop_append (length below) below bytes refl,
        take_append (length below) below bytes refl,
        from_le-le_bytes_mod (width type) v,
        pow_256 (width type),
        h,
      )

  -- The first exception, and what is then left.
  pub pop_exception-encode :
      (below vs : List ℕ) (v : ℕ)
      → Holds type v
      → pop_exception type (below ++ encode_as_typed_exceptions type (v ∷ vs) [])
        ≡ some (v, below ++ encode_as_typed_exceptions type vs [])
  unfolding encode_as_typed_exceptions push_exception
  pop_exception-encode below vs v h =
      let bytes = le_bytes (width type) v in
      rw
        (
          append-nil bytes,
          encode_as_typed_exceptions-append vs bytes,
          ← append_assoc below (encode_as_typed_exceptions type vs []) bytes,
        )
        (pop_exception-le_bytes (below ++ encode_as_typed_exceptions type vs []) v h)

  pub decode_as_typed_exceptions-encode :
      (below vs : List ℕ)
      → All (Holds type) vs
      → decode_as_typed_exceptions type (length vs) (below ++ encode_as_typed_exceptions type vs [])
        ≡ some vs
  unfolding decode_as_typed_exceptions
  decode_as_typed_exceptions-encode below [] a = refl
  decode_as_typed_exceptions-encode below (v ∷ vs) (h, a) =
      rw (pop_exception-encode below vs v h, decode_as_typed_exceptions-encode below vs a)
