-- ===== src/RidCompress/Interface/Batches.antt =====
-- The loops over the batches of a list of row ids.
use alacrity_adios.Prelude.{ℕ, zero, suc, ◌+◌, ◌*◌, ◌^◌, ◌≤◌, ◌<◌, ◌≡◌, refl, sym, ap, ◌∙◌}
use alacrity_adios.Prelude.{arith, true, ◌==◌, if◌then◌else◌, u32, le→leb}
use alacrity_adios.Prelude.{List, [], ◌∷◌, ◌++◌, length, All, take, drop, some}
use alacrity_adios.Prelude.{length-append, append_assoc, append-nil, take_append, drop_append}
use alacrity_adios.Prelude.{take-append-drop, length-take, length-drop}
use alacrity_adios.RidCompress.FixedLength.{batch_size}
use alacrity_adios.RidCompress.Header.{sufficient_buffer_capacity}
use alacrity_adios.RidCompress.Batch.{encode, decode_new}
use alacrity_adios.RidCompress.Batch.Differences.{IsAscending, IsAbove, shift_ids, length-shift_ids}
use alacrity_adios.RidCompress.Batch.RoundTrip.{
  batch_bytes, shifted_bytes, length-shifted_bytes, batch_bytes_small,
}
use alacrity_adios.RidCompress.Batch.RoundTrip.{encode-batch_bytes, encode-shifted_bytes}
use alacrity_adios.RidCompress.Batch.RoundTrip.{update_header-batch_bytes, decode_new-batch_bytes}
use alacrity_adios.RidCompress.Interface.{padded, encode_remainder, encode_batches, update_batches}
use alacrity_adios.RidCompress.Interface.{decode_one, decode_remainder, decode_batches}

All_parts :
    (xs ys : List ℕ)
    → All (λ x. x < 2 ^ 32) (xs ++ ys)
    → All (λ x. x < 2 ^ 32) xs × All (λ x. x < 2 ^ 32) ys
All_parts [] ys a = (tt, a)
All_parts (x ∷ xs) ys (p, a) = let (b, c) = All_parts xs ys a in ((p, b), c)

IsAbove-parts : (p : ℕ) (xs ys : List ℕ) → IsAbove p (xs ++ ys) → IsAbove p xs × IsAscending ys
unfolding IsAbove IsAscending
IsAbove-parts p [] [] a = (tt, tt)
IsAbove-parts p [] (y ∷ ys) (q, r, a) = (tt, (r, a))
IsAbove-parts p (x ∷ xs) ys (q, r, a) = let (b, c) = IsAbove-parts x xs ys a in ((q, r, b), c)

shift_ids-append :
    (o : ℕ) (xs ys : List ℕ) → shift_ids o (xs ++ ys) ≡ shift_ids o xs ++ shift_ids o ys
unfolding shift_ids
shift_ids-append o [] ys = refl
shift_ids-append o (x ∷ xs) ys = ap (λ t. u32 (x + o) ∷ t) (shift_ids-append o xs ys)

-- The batch that is not full counts, if it is there.
abbrev pub last : ℕ → ℕ
last r = if r == 0 then 0 else 1

pub record AreBatches (batches remaining : ℕ) (ids : List ℕ) : Type 0 where
  pub bytes : List ℕ
  pub encodes : encode_batches batches ids ≡ some bytes
  pub small : length bytes ≤ (batches + last remaining) * 1024
  pub decodes :
      IsAscending ids
      → (rest : List ℕ)
      → decode_batches decode_new batches remaining (bytes ++ rest) ≡ some (ids, rest)
  pub shifted : ℕ → List ℕ
  pub encodes_shifted : (o : ℕ) → encode_batches batches (shift_ids o ids) ≡ some (shifted o)
  pub same_length : (o : ℕ) → length (shifted o) ≡ length bytes
  pub updates :
      (o : ℕ) (rest : List ℕ)
      → update_batches o (batches + last remaining) (bytes ++ rest) ≡ some (shifted o, rest)

module _ (x : ℕ) (xs : List ℕ) (few : length (x ∷ xs) ≤ batch_size) (h : x < 2 ^ 32)
    (a : All (λ y. y < 2 ^ 32) xs) where
  abbrev b : List ℕ
  b = batch_bytes x xs few h a

  abbrev b' : ℕ → List ℕ
  b' o = shifted_bytes x xs few h a o

  decode_one-batch :
      (expected : ℕ) (rest : List ℕ)
      → expected ≡ length (x ∷ xs)
      → IsAbove x xs
      → decode_one decode_new expected (b ++ rest) ≡ some (x ∷ xs, rest)
  unfolding decode_one
  decode_one-batch expected rest e above =
      let right : (suc (length xs) == expected) ≡ true = ground arith in
      rw (decode_new-batch_bytes x xs few h a above rest, right, drop_append (length b) b rest refl)

  update_batches-batch :
      (o k : ℕ) (rest done left : List ℕ)
      → update_batches o k rest ≡ some (done, left)
      → update_batches o (suc k) (b ++ rest) ≡ some (b' o ++ done, left)
  unfolding update_batches
  update_batches-batch o k rest done left e =
      let l : length b ≡ length (b' o) = sym (length-shifted_bytes x xs few h a o) in
      rw (
        update_header-batch_bytes x xs few h a o rest,
        le→leb (length b) (length (b ++ rest)) (omega (arith, length-append b rest)),
        drop_append (length b) (b' o) rest l,
        take_append (length b) (b' o) rest l,
        e,
      )

  -- One batch that is not full.
  pub remainder-AreBatches : AreBatches 0 (length (x ∷ xs)) (x ∷ xs)
  unfolding encode_batches encode_remainder padded decode_batches decode_remainder IsAscending
      shift_ids
  remainder-AreBatches = record {
    bytes = b;
    encodes = encode-batch_bytes x xs few h a _;
    small =
        let one : 0 + last (length (x ∷ xs)) ≡ 1 = ground arith in
        omega (arith, one, batch_bytes_small x xs few h a);
    decodes = λ asc rest. decode_one-batch (length (x ∷ xs)) rest refl asc.1;
    shifted = b';
    encodes_shifted = λ o. rw (length-shift_ids o xs) (encode-shifted_bytes x xs few h a o _);
    same_length = λ o. length-shifted_bytes x xs few h a o;
    updates = λ o rest.
        let one : 0 + last (length (x ∷ xs)) ≡ 1 = ground arith in
        rw one (
          update_batches-batch o 0 rest [] rest (unfold update_batches in refl)
          ∙ ap (λ t. some (t, rest)) (append-nil (b' o)));
  }

  -- A full batch before others.
  pub more-AreBatches :
      (k r : ℕ) (ys : List ℕ)
      → length (x ∷ xs) ≡ batch_size
      → AreBatches k r ys
      → AreBatches (suc k) r ((x ∷ xs) ++ ys)
  unfolding encode_batches decode_batches IsAscending
  more-AreBatches k r ys full w = record {
    bytes = b ++ w.bytes;
    encodes = rw (
      take_append batch_size (x ∷ xs) ys (sym full),
      drop_append batch_size (x ∷ xs) ys (sym full),
      whole,
      w.encodes,
    );
    small = omega (arith, length-append b w.bytes, w.small, batch_bytes_small x xs few h a);
    decodes = λ asc rest.
        let (above, behind) = IsAbove-parts x xs ys asc.1 in
        rw (
          append_assoc b w.bytes rest,
          decode_one-batch batch_size (w.bytes ++ rest) (sym full) above,
          w.decodes behind rest,
        );
    shifted = λ o. b' o ++ w.shifted o;
    encodes_shifted = λ o. rw (
      shift_ids-append o (x ∷ xs) ys,
      take_append batch_size (shift_ids o (x ∷ xs)) (shift_ids o ys) (sym (shifted_full o)),
      drop_append batch_size (shift_ids o (x ∷ xs)) (shift_ids o ys) (sym (shifted_full o)),
      whole_shifted o,
      w.encodes_shifted o,
    );
    same_length = λ o. omega (
      arith,
      length-append (b' o) (w.shifted o),
      length-append b w.bytes,
      length-shifted_bytes x xs few h a o,
      w.same_length o,
    );
    updates = λ o rest.
        let e : suc k + last r ≡ suc (k + last r) = omega arith in
        rw (e, append_assoc b w.bytes rest)
          (update_batches-batch o (k + last r) (w.bytes ++ rest) (w.shifted o) rest
            (w.updates o rest));
  }
    where
      shifted_full : (o : ℕ) → length (shift_ids o (x ∷ xs)) ≡ batch_size
      shifted_full o = length-shift_ids o (x ∷ xs) ∙ full

      whole : encode (x ∷ xs) batch_size sufficient_buffer_capacity ≡ some b
      whole = rw (append-nil (x ∷ xs), full) at (encode-batch_bytes x xs few h a [])

      whole_shifted :
          (o : ℕ)
          → encode (shift_ids o (x ∷ xs)) batch_size sufficient_buffer_capacity ≡ some (b' o)
      whole_shifted o =
          rw (append-nil (shift_ids o (x ∷ xs)), full) at (encode-shifted_bytes x xs few h a o [])

none-AreBatches : AreBatches 0 0 []
unfolding encode_batches encode_remainder decode_batches decode_remainder shift_ids update_batches
none-AreBatches = record {
  bytes = [];
  encodes = refl;
  small = omega arith;
  decodes = λ asc rest. refl;
  shifted = λ o. [];
  encodes_shifted = λ o. refl;
  same_length = λ o. refl;
  updates = λ o rest. refl;
}

-- Any list of 32-bit numbers.
pub any-AreBatches :
    (k r : ℕ) (ids : List ℕ)
    → length ids ≡ k * batch_size + r
    → r < batch_size
    → All (λ x. x < 2 ^ 32) ids
    → AreBatches k r ids
any-AreBatches zero r [] l p a = let e : r ≡ 0 = omega arith in rw e none-AreBatches
any-AreBatches zero r (x ∷ xs) l p (h, a) =
    let e : r ≡ length (x ∷ xs) = omega arith in rw e (remainder-AreBatches x xs (omega arith) h a)
any-AreBatches (suc k) r [] l p a = absurd (omega arith)
any-AreBatches (suc k) r (x ∷ xs) l p (h, a) =
    let m : ℕ = 127 in
    let split = take-append-drop m xs in
    let (b, c) = All_parts (take m xs) (drop m xs) (rw (← split) at a) in
    let full : length (x ∷ take m xs) ≡ batch_size = omega (arith, length-take m xs) in
    rw split at (
      more-AreBatches x (take m xs) (omega arith) h b k r (drop m xs) full
        (any-AreBatches k r (drop m xs) (omega (arith, length-drop m xs)) p c))
