-- ===== src/Convert/Commuting.antt =====
-- Translating the row ids of an index and compressing them can be done in either order.
use alacrity_adios.Prelude.{ℕ, ◌+◌, ◌^◌, ◌<◌, ◌≡◌, refl, sym, ap, ◌∙◌, arith}
use alacrity_adios.Prelude.{le→leb, u32, List, [], ◌∷◌, ◌++◌, length, All}
use alacrity_adios.Prelude.{Option, some, length-append, append_assoc}
use alacrity_adios.Prelude.{take_append, drop_append, append-nil}
use alacrity_adios.Memory.{array_bytes, le_bytes, length-le_bytes, from_le-le_bytes}
use alacrity_adios.Types.{AlError, IndexForm, IndexMetadata, Metadata}
use alacrity_adios.RidCompress.Batch.Differences.{shift_ids}
use alacrity_adios.RidCompress.Interface.RoundTrip.{IsAscending-All}
use alacrity_adios.Convert.{Converted, convert_index_form}
use alacrity_adios.Convert.Bins.{all_ids, IsBin}
use alacrity_adios.Convert.RoundTrip.{IsBinned, parts, forth, forth_shifted, there}
use alacrity_adios.Convert.Translate.{translate_ids, translate_bins, translate_form, translate_rids}

translate_ids-array_bytes :
    (o : ℕ) (ids rest : List ℕ)
    → All (λ x. x < 2 ^ 32) ids
    → translate_ids o (length ids) (array_bytes 4 ids ++ rest)
      ≡ some (array_bytes 4 (shift_ids o ids) ++ rest)
unfolding translate_ids array_bytes shift_ids
translate_ids-array_bytes o [] rest a = refl
translate_ids-array_bytes o (x ∷ xs) rest (h, a) =
    let own = le_bytes 4 x in
    let l : length own ≡ 4 = length-le_bytes 4 x in
    let new = le_bytes 4 (u32 (x + o)) in
    let more = array_bytes 4 xs ++ rest in
    rw
      (
        append_assoc own (array_bytes 4 xs) rest,
        le→leb 4 (length (own ++ more)) (omega (arith, length-append own more, l)),
        drop_append 4 own more (sym l),
        take_append 4 own more (sym l),
        from_le-le_bytes 4 x h,
        translate_ids-array_bytes o xs rest a,
      )
      (ap some (sym (append_assoc new (array_bytes 4 (shift_ids o xs)) rest)))

All_joined :
    (xs ys : List ℕ)
    → All (λ x. x < 2 ^ 32) xs
    → All (λ x. x < 2 ^ 32) ys
    → All (λ x. x < 2 ^ 32) (xs ++ ys)
All_joined [] ys c a = a
All_joined (x ∷ xs) ys (p, c) a = (p, All_joined xs ys c a)

all_ids-All : (bs : List (List ℕ)) → All IsBin bs → All (λ x. x < 2 ^ 32) (all_ids bs)
unfolding all_ids
all_ids-All [] a = tt
all_ids-All (b ∷ bs) (w, a) =
    All_joined b (all_ids bs) (IsAscending-All b w.ascending) (all_ids-All bs a)

module _ (hybrid_compress expand_compress erpfd_compress : List ℕ → Option (List ℕ)) (m : Metadata)
    (bs : List (List ℕ)) (b : IsBinned m bs) (o : ℕ) where
  translated_rids :
      m.partition_length ≡ length (all_ids bs)
      → translate_rids m (array_bytes 4 (all_ids bs)) o
        ≡ some (AlError.error_none, array_bytes 4 (shift_ids o (all_ids bs)))
  unfolding translate_rids translate_form
  translated_rids n =
      let by_form = λ (f : IndexForm). translate_form f m (array_bytes 4 (all_ids bs)) o in
      let ids = all_ids bs in
      let done : translate_ids o m.partition_length (array_bytes 4 ids)
          ≡ some (array_bytes 4 (shift_ids o ids)) =
        ap (λ k. translate_ids o k (array_bytes 4 ids)) n
        ∙ rw (append-nil (array_bytes 4 ids), append-nil (array_bytes 4 (shift_ids o ids))) at
            (translate_ids-array_bytes o ids [] (all_ids-All bs b.bins)) in
      ap by_form (ap (λ (i : IndexMetadata). i.index_form) b.inverted) ∙ rw done

  abbrev p : Converted
  p = there hybrid_compress expand_compress erpfd_compress m bs b

  translated_bytes :
      translate_rids p.metadata p.index o
      ≡ some (
        AlError.error_none,
        (parts hybrid_compress expand_compress erpfd_compress m bs b).shifted o,
      )
  unfolding translate_rids translate_form
  translated_bytes =
      let w = parts hybrid_compress expand_compress erpfd_compress m bs b in
      let small : 0 + length w.bytes < 2 ^ 64 = omega (arith, w.small, b.count_fits) in
      let done =
        ap (λ k. translate_bins o w.offsets k 0 w.bytes) b.how_many
        ∙ w.translates o w.offsets [] refl small (λ j. let e : 0 + j ≡ j = omega arith in rw e) in
      rw done

-- For the index of a partition whose bins hold increasing row ids, at least one and at most 2^28 in
-- each bin, fewer than 2^32 in all and as many as the partition's length says: translating the row
-- ids by an offset and then compressing the index, and compressing it and then translating the
-- compressed ids, both succeed and end in the same metadata and the same bytes.
pub translate_rids-convert_index_form :
    (hybrid_compress expand_compress erpfd_compress : List ℕ → Option (List ℕ)) (m : Metadata)
    (bs : List (List ℕ)) (rid_offset : ℕ)
    → IsBinned m bs
    → m.partition_length ≡ length (all_ids bs)
    → let convert = convert_index_form hybrid_compress expand_compress erpfd_compress in
      let form = IndexForm.compressed_inverted_index in
      (translated : List ℕ) × (c : Converted) × (d : Converted) × (translate_rids m
          (array_bytes 4 (all_ids bs))
          rid_offset
        ≡ some (AlError.error_none, translated))
      × (convert m translated form ≡ some c)
      × (convert m (array_bytes 4 (all_ids bs)) form ≡ some d)
      × (d.metadata ≡ c.metadata)
      × (translate_rids d.metadata d.index rid_offset ≡ some (AlError.error_none, c.index))
translate_rids-convert_index_form h e r m bs o b n = (
  array_bytes 4 (shift_ids o (all_ids bs)),
  record (there h e r m bs b) { index = (parts h e r m bs b).shifted o },
  there h e r m bs b,
  translated_rids h e r m bs b o n,
  forth_shifted h e r m bs b o,
  forth h e r m bs b,
  refl,
  translated_bytes h e r m bs b o,
)
