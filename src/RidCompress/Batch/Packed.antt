-- ===== src/RidCompress/Batch/Packed.antt =====
-- A batch that is packed with a fixed length, and whose larger values are stored as exceptions.
use alacrity_adios.Prelude.{ℕ, ◌+◌, ◌-◌, ◌*◌, ◌/◌, ◌^◌, ◌≤◌, ◌<◌, ◌≡◌, refl, sym, ◌∙◌}
use alacrity_adios.Prelude.{arith, false, ltb, ◌==◌, List, [], ◌∷◌, ◌++◌, length, take}
use alacrity_adios.Prelude.{All, replicate, some, ◌>>=◌, length-append, append_assoc, get_or}
use alacrity_adios.Prelude.{drop_append}
use alacrity_adios.RidCompress.FixedLength.{batch_size, fixed_length_buffer_size}
use alacrity_adios.RidCompress.FixedLength.RoundTrip.{
  packed, length-packed, fixed_length_encode-packed,
}
use alacrity_adios.RidCompress.FixedLength.RoundTrip.{fixed_length_decode-packed}
use alacrity_adios.RidCompress.Exceptions.{ExceptionType, width, compute_exceptions}
use alacrity_adios.RidCompress.Exceptions.{encode_as_typed_exceptions, patch_exceptions_new}
use alacrity_adios.RidCompress.Exceptions.{exception_indexes}
use alacrity_adios.RidCompress.Exceptions.Stack.{Holds, length-encode_as_typed_exceptions}
use alacrity_adios.RidCompress.Exceptions.Patching.{above, cleared, length-cleared, cleared-All}
use alacrity_adios.RidCompress.Exceptions.Patching.{length-exception_indexes}
use alacrity_adios.RidCompress.Exceptions.Patching.{compute_typed_exceptions-above}
use alacrity_adios.RidCompress.Exceptions.Patching.{zero_exceptions-cleared}
use alacrity_adios.RidCompress.Exceptions.Whole.{above-All, length-above, patch_deltas}
use alacrity_adios.RidCompress.Header.{Header, write, sufficient_buffer_capacity}
use alacrity_adios.RidCompress.Header.RoundTrip.{IsHeader, as_read, stored_length}
use alacrity_adios.RidCompress.Params.{whole_words, required_buffer_size}
use alacrity_adios.RidCompress.Params.Chosen.{IsChosen, product_bound}
use alacrity_adios.RidCompress.Batch.{encode_param_new, encode_packed, exception_area}
use alacrity_adios.RidCompress.Batch.{decode_packed_deltas}
use alacrity_adios.RidCompress.Batch.Written.{with_frame, deltas_in, IsDeltas, IsWritten}
use alacrity_adios.RidCompress.Batch.Written.{le-whole_words, length-exception_area, split_buffer}
use native.Mathlib.Nat.{one-le-pow}

-- The first exception of a batch, or its size.
first_small :
    (max_value idx : ℕ) (xs : List ℕ)
    → idx + length xs ≤ 128
    → get_or (exception_indexes max_value idx xs) 0 0 ≤ 128
unfolding exception_indexes
first_small max_value idx [] h = omega arith
first_small max_value idx (x ∷ xs) h = ground (arith, first_small max_value (idx + 1) xs)

module _ (values : List ℕ) (significant b : ℕ) (t : ExceptionType)
    (full : length values ≡ batch_size) (few : significant ≤ batch_size) (positive : 0 < b)
    (c : IsChosen values b t) where
  abbrev max_value : ℕ
  max_value = 2 ^ b - 1

  abbrev indexes : List ℕ
  indexes = exception_indexes max_value 0 values

  abbrev count : ℕ
  count = length indexes - 1

  abbrev size : ℕ
  size = count * width c.type

  abbrev stack : List ℕ
  stack = encode_as_typed_exceptions c.type (above max_value values) []

  abbrev all_size : ℕ
  all_size = required_buffer_size b count (width c.type)

  abbrev front : List ℕ
  front = packed b (cleared max_value values)

  abbrev area_size : ℕ
  area_size = all_size - 8 - fixed_length_buffer_size b

  abbrev header : Header
  header = record {
    frame_of_reference = 0;
    first_exception = get_or indexes 0 0;
    significant_data_size = significant;
    fixed_length = b;
    exception_type = t;
    encoded_size = all_size;
  }

  abbrev body : List ℕ
  body = front ++ exception_area area_size stack

  counted : count ≡ length (above max_value values)
  counted = omega (arith, length-exception_indexes max_value 0 values)

  size_small : size ≤ 512
  size_small =
      product_bound count (width c.type)
        (omega (arith, counted, length-above max_value values, full)) c.width_small

  length-stack : length stack ≡ size
  length-stack =
      length-encode_as_typed_exceptions c.type (above max_value values) []
      ∙ rw (← counted) (omega arith)

  cleared_full : length (cleared max_value values) ≡ batch_size
  cleared_full = length-cleared max_value values ∙ full

  narrow : b ≤ 32
  narrow = omega (arith, c.length_small)

  below_power : (xs : List ℕ) → All (λ d. d ≤ max_value) xs → All (λ d. d < 2 ^ b) xs
  below_power [] a = tt
  below_power (x ∷ xs) (p, a) = (omega (arith, one-le-pow b 2 (omega arith)), below_power xs a)

  fits : All (λ d. d < 2 ^ b) (cleared max_value values)
  fits = below_power (cleared max_value values) (cleared-All max_value values)

  parts : all_size ≡ 8 + fixed_length_buffer_size b + whole_words size
  unfolding required_buffer_size
  parts = refl

  length-body : length body ≡ all_size - 8
  length-body =
      let area =
        length-exception_area area_size stack
          (omega (arith, parts, length-stack, le-whole_words size)) in
      omega (
        arith,
        length-append front (exception_area area_size stack),
        area,
        parts,
        length-packed b (cleared max_value values) positive narrow cleared_full fits,
      )

  header_of : (frame : ℕ) → frame < 2 ^ 32 → IsHeader (with_frame header frame)
  unfolding whole_words fixed_length_buffer_size required_buffer_size
  header_of frame h = record {
    frame_fits = h;
    first_fits = first_small max_value 0 values (omega (arith, full));
    significant_fits = few;
    length_fits = narrow;
    type = c.type;
    type_known = c.type_known;
    words = 1 + 2 * b + (size + 8 - 1) / 8;
    whole = omega arith;
    not_empty = omega arith;
    within = omega (arith, size_small, c.length_small);
  }

  within : all_size ≤ sufficient_buffer_capacity
  unfolding required_buffer_size whole_words fixed_length_buffer_size
  within = omega (arith, size_small, c.length_small)

  encoded :
      (frame : ℕ)
      → encode_param_new values significant b frame t sufficient_buffer_capacity
        ≡ (write (with_frame header frame) >>= λ bytes. some (bytes ++ body))
  unfolding encode_param_new encode_packed compute_exceptions
  encoded frame =
      let enough : ltb sufficient_buffer_capacity all_size ≡ false = ground (arith, within) in
      let packing : (b == 0) ≡ false = ground arith in
      rw (
        c.size_known,
        packing,
        enough,
        c.type_known,
        compute_typed_exceptions-above max_value c.type [] values 0 [] refl
            (above-All max_value (Holds c.type) values c.holds),
        zero_exceptions-cleared max_value [] values 0 refl,
        fixed_length_encode-packed b (cleared max_value values) positive narrow cleared_full fits,
      )

  decoded :
      (bytes rest : List ℕ)
      → length bytes ≡ 8
      → IsDeltas values significant
      → deltas_in (as_read header) ((bytes ++ body) ++ rest) ≡ some (take significant values)
  unfolding deltas_in decode_packed_deltas patch_exceptions_new stored_length
  decoded bytes rest l d =
      let packing : (b == 0) ≡ false = ground arith in
      let not_mark : (b == 32) ≡ false = ground (arith, c.length_small) in
      let all : all_size ≡ length (bytes ++ body) =
        omega (arith, length-append bytes body, length-body, parts) in
      rw
        (
          packing,
          not_mark,
          split_buffer bytes front rest area_size stack all_size all,
          append_assoc bytes body rest,
          drop_append 8 bytes (body ++ rest) (sym l),
          append_assoc front (exception_area area_size stack) rest,
          fixed_length_decode-packed b (cleared max_value values) positive narrow cleared_full fits
              (exception_area area_size stack ++ rest),
          c.type_known,
        )
        (rw (
          patch_deltas max_value c.type (bytes ++ (front ++ replicate (area_size - length stack) 0))
            values d.differences d.padding significant d.made_of d.how_many few d.positive d.zeros
            (above-All max_value (Holds c.type) values c.holds)))

  pub packed-IsWritten : IsWritten values significant b t
  packed-IsWritten = record {
    header = header;
    body = body;
    written = encoded;
    well_formed = header_of;
    size = omega (arith, length-body, parts);
    significant_kept = refl;
    read_back = decoded;
  }
