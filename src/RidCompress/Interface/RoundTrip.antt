-- ===== src/RidCompress/Interface/RoundTrip.antt =====
-- What the compression of row ids promises: decoding gives the ids back, and translating the
-- compressed ids is compressing the translated ones.
use alacrity_adios.Prelude.{ℕ, suc, ◌+◌, ◌-◌, ◌/◌, ◌%◌, ◌^◌, ◌≤◌, ◌<◌, ◌≡◌, sym, ap, ◌∙◌}
use alacrity_adios.Prelude.{arith, false, ltb, le→leb}
use alacrity_adios.Prelude.{List, [], ◌∷◌, ◌++◌, length, All, take, drop, some}
use alacrity_adios.Prelude.{length-append, append-nil, take_append, drop_append}
use alacrity_adios.Memory.{le_bytes, from_le, length-le_bytes, from_le-le_bytes}
use alacrity_adios.RidCompress.FixedLength.{batch_size}
use alacrity_adios.RidCompress.Batch.{decode_new}
use alacrity_adios.RidCompress.Batch.Differences.{
  IsAscending, IsAbove-All, shift_ids, length-shift_ids,
}
use alacrity_adios.RidCompress.Interface.{get_sufficient_buffer_capacity}
use alacrity_adios.RidCompress.Interface.{batch_count, encode_rids, all_batches, update_rids}
use alacrity_adios.RidCompress.Interface.{decode_list, decode_lists, decode_rids}
use alacrity_adios.RidCompress.Interface.Batches.{AreBatches, any-AreBatches, last}

pub IsAscending-All : (ids : List ℕ) → IsAscending ids → All (λ x. x < 2 ^ 32) ids
unfolding IsAscending
IsAscending-All [] a = tt
IsAscending-All (x ∷ xs) (h, a) = (h, IsAbove-All x xs a)

module _ (ids : List ℕ) (count_fits : length ids < 2 ^ 32) (small : All (λ x. x < 2 ^ 32) ids) where
  abbrev r : ℕ
  r = length ids % batch_size

  w : AreBatches (batch_count (length ids)) r ids
  unfolding batch_count
  w = any-AreBatches (length ids / batch_size) r ids (omega arith) (omega arith) small

  abbrev count : List ℕ
  count = le_bytes 4 (length ids)

  -- The bytes of the list.
  pub rids_bytes : List ℕ
  rids_bytes = count ++ w.bytes

  pub encode_rids-rids_bytes : encode_rids ids ≡ some rids_bytes
  unfolding encode_rids rids_bytes
  encode_rids-rids_bytes = rw w.encodes

  count_back : (rest : List ℕ) → from_le (take 4 (count ++ rest)) ≡ length ids
  count_back rest =
      ap from_le (take_append 4 count rest (sym (length-le_bytes 4 (length ids))))
      ∙ from_le-le_bytes 4 (length ids) count_fits

  behind_count : (rest : List ℕ) → drop 4 (count ++ rest) ≡ rest
  behind_count rest = drop_append 4 count rest (sym (length-le_bytes 4 (length ids)))

  count_there : (rest : List ℕ) → 4 ≤ length (count ++ rest)
  count_there rest = omega (arith, length-append count rest, length-le_bytes 4 (length ids))

  decode_list-rids_bytes :
      IsAscending ids
      → (rest : List ℕ) → decode_list decode_new (count ++ (w.bytes ++ rest)) ≡ some (ids, rest)
  unfolding decode_list
  decode_list-rids_bytes asc rest = rw (
    le→leb 4 (length (count ++ (w.bytes ++ rest))) (count_there (w.bytes ++ rest)),
    count_back (w.bytes ++ rest),
    behind_count (w.bytes ++ rest),
    w.decodes asc rest,
  )

  decode_lists-rids_bytes :
      (fuel : ℕ) → IsAscending ids → decode_lists decode_new (suc fuel) rids_bytes ≡ some ids
  unfolding decode_lists rids_bytes le_bytes
  decode_lists-rids_bytes fuel asc =
      rw (rw append-nil at (decode_list-rids_bytes asc [])) (ap some (append-nil ids))

  pub decode_rids-rids_bytes : IsAscending ids → decode_rids rids_bytes ≡ some ids
  unfolding decode_rids rids_bytes le_bytes
  decode_rids-rids_bytes asc = decode_lists-rids_bytes _ asc

  -- The bytes of the shifted ids.
  pub shifted_rids_bytes : ℕ → List ℕ
  shifted_rids_bytes o = count ++ w.shifted o

  pub length-shifted_rids_bytes : (o : ℕ) → length (shifted_rids_bytes o) ≡ length rids_bytes
  unfolding shifted_rids_bytes rids_bytes
  length-shifted_rids_bytes o =
      omega (arith, length-append count (w.shifted o), length-append count w.bytes, w.same_length o)

  pub encode_rids-shifted_rids_bytes :
      (o : ℕ) → encode_rids (shift_ids o ids) ≡ some (shifted_rids_bytes o)
  unfolding encode_rids shifted_rids_bytes
  encode_rids-shifted_rids_bytes o = rw (length-shift_ids o ids, w.encodes_shifted o)

  pub bytes_fit :
      0 < length ids
      → length ids ≤ 2 ^ 28
      → length rids_bytes ≤ get_sufficient_buffer_capacity (length ids)
  unfolding rids_bytes get_sufficient_buffer_capacity batch_count
  bytes_fit some_there few =
      let rounded : length ids / batch_size + last r ≡ (length ids + batch_size - 1) / batch_size =
        ground arith in
      omega (arith, length-append count w.bytes, length-le_bytes 4 (length ids), w.small, rounded)

  pub update_rids-rids_bytes : (o : ℕ) → update_rids rids_bytes o ≡ some (shifted_rids_bytes o)
  unfolding update_rids rids_bytes all_batches shifted_rids_bytes
  update_rids-rids_bytes o =
      let enough : ltb (length (count ++ w.bytes)) 4 ≡ false =
        ground (arith, count_there w.bytes) in
      let all = rw append-nil at (w.updates o []) in
      rw (
        enough,
        count_back w.bytes,
        behind_count w.bytes,
        all,
        take_append 4 count w.bytes (sym (length-le_bytes 4 (length ids))),
      )

-- A list of fewer than 2^32 row ids in increasing order, each of 32 bits, is compressed without an
-- error, and decompressing the bytes gives the list.
pub decode_rids-encode_rids :
    (ids : List ℕ)
    → length ids < 2 ^ 32
    → IsAscending ids
    → (bytes : List ℕ) × (encode_rids ids ≡ some bytes) × (decode_rids bytes ≡ some ids)
decode_rids-encode_rids ids count_fits asc =
    let small = IsAscending-All ids asc in
    (
      rids_bytes ids count_fits small,
      encode_rids-rids_bytes ids count_fits small,
      decode_rids-rids_bytes ids count_fits small asc,
    )

-- For any list of fewer than 2^32 numbers of 32 bits, in any order: compressing succeeds, and
-- translating the compressed bytes by an offset, which only touches the headers of the batches,
-- gives the very bytes that compressing the ids with the offset added, modulo 2^32, gives.
pub update_rids-encode_rids :
    (ids : List ℕ) (rid_offset : ℕ)
    → length ids < 2 ^ 32
    → All (λ x. x < 2 ^ 32) ids
    → (bytes : List ℕ) × (encode_rids ids ≡ some bytes)
      × (update_rids bytes rid_offset ≡ encode_rids (shift_ids rid_offset ids))
update_rids-encode_rids ids rid_offset count_fits small = (
  rids_bytes ids count_fits small,
  encode_rids-rids_bytes ids count_fits small,
  update_rids-rids_bytes ids count_fits small rid_offset
      ∙ sym (encode_rids-shifted_rids_bytes ids count_fits small rid_offset),
)

-- For one up to 2^28 numbers of 32 bits, compressing succeeds with no more bytes than the capacity
-- that callers are told to provide.
pub encode_rids_fits :
    (ids : List ℕ)
    → 0 < length ids
    → length ids ≤ 2 ^ 28
    → All (λ x. x < 2 ^ 32) ids
    → (bytes : List ℕ) × (encode_rids ids ≡ some bytes)
      × (length bytes ≤ get_sufficient_buffer_capacity (length ids))
encode_rids_fits ids some_there few small =
    let count_fits : length ids < 2 ^ 32 = omega arith in
    (
      rids_bytes ids count_fits small,
      encode_rids-rids_bytes ids count_fits small,
      bytes_fit ids count_fits small some_there few,
    )
