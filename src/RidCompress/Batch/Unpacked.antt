-- ===== src/RidCompress/Batch/Unpacked.antt =====
-- A batch whose significant values are all stored as exceptions.
use alacrity_adios.Prelude.{ℕ, zero, suc, ◌+◌, ◌-◌, ◌*◌, ◌/◌, ◌^◌, ◌≤◌, ◌<◌, ◌≡◌, refl, ◌∙◌}
use alacrity_adios.Prelude.{arith, false, ltb, List, [], ◌∷◌, ◌++◌, length, take}
use alacrity_adios.Prelude.{All, replicate, some, ◌>>=◌, length-append}
use alacrity_adios.Prelude.{length-take}
use alacrity_adios.RidCompress.FixedLength.{batch_size}
use alacrity_adios.RidCompress.Exceptions.{ExceptionType, width, encode_as_exceptions}
use alacrity_adios.RidCompress.Exceptions.{encode_as_typed_exceptions, decode_as_exceptions}
use alacrity_adios.RidCompress.Exceptions.Stack.{Holds, length-encode_as_typed_exceptions}
use alacrity_adios.RidCompress.Exceptions.Stack.{decode_as_typed_exceptions-encode}
use alacrity_adios.RidCompress.Header.{Header, write, sufficient_buffer_capacity}
use alacrity_adios.RidCompress.Header.RoundTrip.{IsHeader, as_read, stored_length}
use alacrity_adios.RidCompress.Params.{whole_words}
use alacrity_adios.RidCompress.Params.Chosen.{IsChosen, product_bound}
use alacrity_adios.RidCompress.Batch.{encode_param_new, encode_unpacked, exception_area}
use alacrity_adios.RidCompress.Batch.{decode_unpacked_deltas}
use alacrity_adios.RidCompress.Batch.Written.{with_frame, deltas_in, IsWritten}
use alacrity_adios.RidCompress.Batch.Written.{le-whole_words, length-exception_area, split_buffer}

All-take : (P : ℕ → Type 0) (n : ℕ) (xs : List ℕ) → All P xs → All P (take n xs)
All-take P zero xs a = tt
All-take P (suc n) [] a = tt
All-take P (suc n) (x ∷ xs) (p, a) = (p, All-take P n xs a)

module _ (values : List ℕ) (significant : ℕ) (t : ExceptionType) (full : length values ≡ batch_size)
    (few : significant ≤ batch_size) (c : IsChosen values 0 t) where
  abbrev size : ℕ
  size = significant * width c.type

  abbrev stack : List ℕ
  stack = encode_as_typed_exceptions c.type (take significant values) []

  abbrev header : Header
  header = record {
    frame_of_reference = 0;
    first_exception = batch_size;
    significant_data_size = significant;
    fixed_length = 0;
    exception_type = t;
    encoded_size = 8 + whole_words size;
  }

  abbrev body : List ℕ
  body = exception_area (8 + whole_words size - 8) stack

  taken : length (take significant values) ≡ significant
  taken = omega (arith, length-take significant values)

  length-stack : length stack ≡ size
  length-stack =
      length-encode_as_typed_exceptions c.type (take significant values) [] ∙ rw taken (omega arith)

  length-body : length body ≡ whole_words size
  length-body =
      length-exception_area (8 + whole_words size - 8) stack
        (omega (arith, length-stack, le-whole_words size))
      ∙ omega arith

  size_small : whole_words size ≤ 512
  unfolding whole_words
  size_small = omega (arith, product_bound significant (width c.type) few c.width_small)

  header_of : (frame : ℕ) → frame < 2 ^ 32 → IsHeader (with_frame header frame)
  unfolding whole_words
  header_of frame h = record {
    frame_fits = h;
    first_fits = omega arith;
    significant_fits = few;
    length_fits = omega arith;
    type = c.type;
    type_known = c.type_known;
    words = 1 + (size + 8 - 1) / 8;
    whole = omega arith;
    not_empty = omega arith;
    within = omega (arith, size_small);
  }

  encoded :
      (frame : ℕ)
      → encode_param_new values significant 0 frame t sufficient_buffer_capacity
        ≡ (write (with_frame header frame) >>= λ bytes. some (bytes ++ body))
  unfolding encode_param_new encode_unpacked encode_as_exceptions
  encoded frame =
      let enough : ltb sufficient_buffer_capacity (8 + whole_words size) ≡ false =
        ground (arith, size_small) in
      rw (c.size_known, enough, c.type_known)

  decoded :
      (bytes rest : List ℕ)
      → length bytes ≡ 8
      → deltas_in (as_read header) ((bytes ++ body) ++ rest) ≡ some (take significant values)
  unfolding deltas_in decode_unpacked_deltas decode_as_exceptions stored_length
  decoded bytes rest l =
      let all : 8 + whole_words size ≡ length (bytes ++ ([] ++ body)) =
        omega (arith, length-append bytes body, length-body) in
      rw
        (
          split_buffer bytes [] rest (8 + whole_words size - 8) stack (8 + whole_words size) all,
          c.type_known,
        )
        (rw taken at (
          decode_as_typed_exceptions-encode c.type
            (bytes ++ replicate (8 + whole_words size - 8 - length stack) 0)
            (take significant values) (All-take (Holds c.type) significant values c.holds)))

  pub unpacked-IsWritten : IsWritten values significant 0 t
  unpacked-IsWritten = record {
    header = header;
    body = body;
    written = encoded;
    well_formed = header_of;
    size = omega (arith, length-body);
    significant_kept = refl;
    read_back = λ bytes rest l d. decoded bytes rest l;
  }
