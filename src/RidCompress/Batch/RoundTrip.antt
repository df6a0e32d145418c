-- ===== src/RidCompress/Batch/RoundTrip.antt =====
-- A batch that is encoded is decoded to the row ids that went in, and a batch whose header is
-- updated is the batch of the shifted ids.
use alacrity_adios.Prelude.{ℕ, zero, suc, ◌+◌, ◌-◌, ◌%◌, ◌^◌, ◌≤◌, ◌<◌, ◌≡◌, refl, sym, ap, ◌∙◌}
use alacrity_adios.Prelude.{arith, true, ◌==◌, leb, u32, le→leb}
use alacrity_adios.Prelude.{List, [], ◌∷◌, ◌++◌, length, All, take, replicate, some}
use alacrity_adios.Prelude.{
  ◌>>=◌, length-append, length-replicate, append_assoc, take_append, drop_append,
}
use alacrity_adios.Prelude.{Bool-cases, inl, inr}
use alacrity_adios.RidCompress.FixedLength.{batch_size}
use alacrity_adios.RidCompress.Exceptions.{ExceptionType}
use alacrity_adios.RidCompress.Header.{Header, read, write, sufficient_buffer_capacity}
use alacrity_adios.RidCompress.Header.RoundTrip.{as_read, read-write, stored_length}
use alacrity_adios.RidCompress.Params.{optimal_param}
use alacrity_adios.RidCompress.Params.Chosen.{IsChosen, optimal_param-IsChosen}
use alacrity_adios.RidCompress.Batch.{deltas_after, encode, decode_new}
use alacrity_adios.RidCompress.Batch.{decode_unpacked_deltas, decode_packed_deltas}
use alacrity_adios.RidCompress.Batch.Written.{IsWritten, IsDeltas, with_frame, deltas_in}
use alacrity_adios.RidCompress.Batch.Unpacked.{unpacked-IsWritten}
use alacrity_adios.RidCompress.Batch.Packed.{packed-IsWritten}
use alacrity_adios.RidCompress.Batch.Differences.{IsAbove, shift_ids, length-shift_ids}
use alacrity_adios.RidCompress.Batch.Differences.{length-deltas_after, deltas_after-All}
use alacrity_adios.RidCompress.Batch.Differences.{deltas_after_positive, deltas_after-shift_ids}
use alacrity_adios.RidCompress.Batch.Differences.{add_frame-prefix_sums, prefix_sums-add_to_first}
use alacrity_adios.RidCompress.Batch.Differences.{deltas_of-parts}
use alacrity_adios.RidCompress.Interface.{update_header}

any-IsWritten :
    (values : List ℕ) (significant fixed_length : ℕ) (t : ExceptionType)
    → length values ≡ batch_size
    → significant ≤ batch_size
    → IsChosen values fixed_length t
    → IsWritten values significant fixed_length t
any-IsWritten values significant zero t full few c =
    unpacked-IsWritten values significant t full few c
any-IsWritten values significant (suc b) t full few c =
    packed-IsWritten values significant (suc b) t full few (omega arith) c

All_padded :
    (ds : List ℕ) (n : ℕ) → All (λ d. d < 2 ^ 32) ds → All (λ d. d < 2 ^ 32) (ds ++ replicate n 0)
All_padded [] zero a = tt
All_padded [] (suc n) a = (omega arith, All_padded [] n tt)
All_padded (d ∷ ds) n (p, a) = (p, All_padded ds n a)

All-zeros : (n : ℕ) → All (λ (d : ℕ). d ≡ 0) (replicate n 0)
All-zeros zero = tt
All-zeros (suc n) = (refl, All-zeros n)

-- Decoding, from the two ways to the sums.
decode_new-read :
    (buffer : List ℕ) (header : Header) (x : ℕ) (xs : List ℕ)
    → read buffer ≡ some header
    → header.encoded_size ≤ length buffer
    → header.frame_of_reference ≡ x
    → x < 2 ^ 32
    → All (λ y. y < 2 ^ 32) xs
    → deltas_in header buffer ≡ some (0 ∷ deltas_after x xs)
    → decode_new buffer ≡ some (record { values = x ∷ xs; buffer_size = header.encoded_size })
unfolding decode_new deltas_in
decode_new-read buffer header x xs r s f h a d =
    let inside : leb header.encoded_size (length buffer) ≡ true = le→leb _ _ s in
    elim (Bool-cases (header.fixed_length == 32)) [
      | inl unpacked ↦ rw (r, inside, unpacked, rw unpacked at d, f, add_frame-prefix_sums x xs h a)
      | inr packed ↦ rw (r, inside, packed, rw packed at d, f, prefix_sums-add_to_first x xs h a)
    ]

frame_apart :
    (h : Header) (frame : ℕ) (buffer : List ℕ)
    → deltas_in (as_read (with_frame h frame)) buffer ≡ deltas_in (as_read h) buffer
unfolding deltas_in decode_unpacked_deltas decode_packed_deltas
frame_apart h frame buffer = refl

-- Writing what was read is writing what had been written.
write-as_read : (h : Header) → h.fixed_length ≤ 32 → write (as_read h) ≡ write h
unfolding write stored_length
write-as_read h l =
    let kept : (stored_length h.fixed_length + 2 ^ 32 - 1) % 2 ^ 5
        ≡ (h.fixed_length + 2 ^ 32 - 1) % 2 ^ 5 =
      ground arith in
    rw kept

module _ (x : ℕ) (xs : List ℕ) (few : length (x ∷ xs) ≤ batch_size) (h : x < 2 ^ 32)
    (a : All (λ y. y < 2 ^ 32) xs) where
  abbrev n : ℕ
  n = length (x ∷ xs)

  abbrev padding : List ℕ
  padding = replicate (batch_size - n) 0

  abbrev values : List ℕ
  values = 0 ∷ (deltas_after x xs ++ padding)

  full : length values ≡ batch_size
  full = omega (
    arith,
    length-append (deltas_after x xs) padding,
    length-replicate {A = ℕ} (batch_size - n) 0,
    length-deltas_after x xs,
  )

  -- The parameters of the batch, and what it is made of.
  chosen :
      (fixed_length : ℕ) × (t : ExceptionType) × (optimal_param values n ≡ some (fixed_length, t))
      × IsWritten values n fixed_length t
  chosen =
      let small : All (λ d. d < 2 ^ 32) values =
        (omega arith, All_padded (deltas_after x xs) (batch_size - n) (deltas_after-All x xs)) in
      let (fixed_length, t, e, c) = optimal_param-IsChosen values n full few small in
      (fixed_length, t, e, any-IsWritten values n fixed_length t full few c)

  abbrev w : IsWritten values n chosen.0 chosen.1
  w = chosen.3

  encoded :
      (y : ℕ) (ys pad : List ℕ)
      → length (y ∷ ys) ≡ n
      → deltas_after y ys ≡ deltas_after x xs
      → y < 2 ^ 32
      → All (λ z. z < 2 ^ 32) ys
      → encode ((y ∷ ys) ++ pad) n sufficient_buffer_capacity
        ≡ (write (with_frame w.header y) >>= λ bytes. some (bytes ++ w.body))
  unfolding encode
  encoded y ys pad l same small b =
      rw (deltas_of-parts y ys small b pad n (sym l), same, chosen.2) (w.written y)

  abbrev offset_ids : ℕ → List ℕ
  offset_ids rid_offset = shift_ids rid_offset (x ∷ xs)

  header_written :
      (frame : ℕ)
      → frame < 2 ^ 32
      → (bytes : List ℕ) × (write (with_frame w.header frame) ≡ some bytes)
        × (length bytes ≡ 8)
        × ((rest : List ℕ) → read (bytes ++ rest) ≡ some (as_read (with_frame w.header frame)))
  header_written frame p = read-write (with_frame w.header frame) (w.well_formed frame p)

  -- The bytes of the batch with a frame of reference.
  abbrev bytes_with : (frame : ℕ) → frame < 2 ^ 32 → List ℕ
  bytes_with frame p = (header_written frame p).0 ++ w.body

  pub batch_bytes : List ℕ
  batch_bytes = bytes_with x h

  shifted_fits : (rid_offset : ℕ) → u32 (x + rid_offset) < 2 ^ 32
  shifted_fits rid_offset = omega arith

  pub shifted_bytes : ℕ → List ℕ
  shifted_bytes rid_offset = bytes_with (u32 (x + rid_offset)) (shifted_fits rid_offset)

  length-bytes_with :
      (frame : ℕ) (p : frame < 2 ^ 32) → length (bytes_with frame p) ≡ w.header.encoded_size
  length-bytes_with frame p =
      omega
        (arith, length-append (header_written frame p).0 w.body, (header_written frame p).2, w.size)

  -- Well below the size of a batch's buffer.
  pub batch_bytes_small : length batch_bytes ≤ 1024
  unfolding batch_bytes
  batch_bytes_small =
      let header = w.well_formed x h in
      omega (arith, length-bytes_with x h, header.whole, header.within)

  pub length-shifted_bytes :
      (rid_offset : ℕ) → length (shifted_bytes rid_offset) ≡ length batch_bytes
  unfolding batch_bytes shifted_bytes
  length-shifted_bytes rid_offset =
      length-bytes_with (u32 (x + rid_offset)) (shifted_fits rid_offset)
      ∙ sym (length-bytes_with x h)

  pub encode-batch_bytes :
      (pad : List ℕ) → encode ((x ∷ xs) ++ pad) n sufficient_buffer_capacity ≡ some batch_bytes
  unfolding batch_bytes
  encode-batch_bytes pad = encoded x xs pad refl refl h a ∙ rw (header_written x h).1

  shift_ids-All : (rid_offset : ℕ) (ys : List ℕ) → All (λ y. y < 2 ^ 32) (shift_ids rid_offset ys)
  unfolding shift_ids
  shift_ids-All rid_offset [] = tt
  shift_ids-All rid_offset (y ∷ ys) = (omega arith, shift_ids-All rid_offset ys)

  pub encode-shifted_bytes :
      (rid_offset : ℕ) (pad : List ℕ)
      → encode (shift_ids rid_offset (x ∷ xs) ++ pad) n sufficient_buffer_capacity
        ≡ some (shifted_bytes rid_offset)
  unfolding shifted_bytes shift_ids
  encode-shifted_bytes rid_offset pad =
      encoded (u32 (x + rid_offset)) (shift_ids rid_offset xs) pad
        (ap suc (length-shift_ids rid_offset xs)) (deltas_after-shift_ids rid_offset x xs h a)
        (omega arith) (shift_ids-All rid_offset xs)
      ∙ rw (header_written (u32 (x + rid_offset)) (shifted_fits rid_offset)).1

  pub update_header-batch_bytes :
      (rid_offset : ℕ) (rest : List ℕ)
      → update_header rid_offset (batch_bytes ++ rest)
        ≡ some (shifted_bytes rid_offset ++ rest, length batch_bytes)
  unfolding update_header batch_bytes shifted_bytes
  update_header-batch_bytes rid_offset rest =
      let (bytes, written, eight, back) = header_written x h in
      let y = u32 (x + rid_offset) in
      let (bytes', written', eight', back') = header_written y (shifted_fits rid_offset) in
      let again =
        write-as_read (with_frame w.header y) (w.well_formed y (omega arith)).length_fits in
      rw (
        append_assoc bytes w.body rest,
        back (w.body ++ rest),
        again,
        written',
        drop_append 8 bytes (w.body ++ rest) (sym eight),
        append_assoc bytes' w.body rest,
        length-bytes_with x h,
      )

  -- Row ids in increasing order come back, whatever is behind the batch.
  pub decode_new-batch_bytes :
      IsAbove x xs
      → (rest : List ℕ)
      → decode_new (batch_bytes ++ rest)
        ≡ some (record { values = x ∷ xs; buffer_size = length batch_bytes })
  unfolding batch_bytes
  decode_new-batch_bytes above rest =
      let (bytes, written, eight, back) = header_written x h in
      let d : IsDeltas values n = record {
        differences = deltas_after x xs;
        padding = padding;
        made_of = refl;
        how_many = omega (arith, length-deltas_after x xs);
        positive = deltas_after_positive x xs h above;
        zeros = All-zeros (batch_size - n);
      } in
      let first : take n values ≡ 0 ∷ deltas_after x xs =
        ap (λ t. 0 ∷ t)
          (take_append (length xs) (deltas_after x xs) padding (sym (length-deltas_after x xs))) in
      let there : read ((bytes ++ w.body) ++ rest) ≡ some (as_read (with_frame w.header x)) =
        rw (append_assoc bytes w.body rest) (back (w.body ++ rest)) in
      decode_new-read ((bytes ++ w.body) ++ rest) (as_read (with_frame w.header x)) x xs there
        (omega (arith, length-append (bytes ++ w.body) rest, length-bytes_with x h)) refl h a
        (frame_apart w.header x _ ∙ w.read_back bytes rest eight d ∙ ap some first)
      ∙ ap (λ s. some (record { values = x ∷ xs; buffer_size = s })) (sym (length-bytes_with x h))
