-- ===== src/Convert/Bins.antt =====
-- The conversion loops on an index that holds the row ids of the bins one after the other.
use alacrity_adios.Prelude.{ℕ, suc, ◌+◌, ◌-◌, ◌*◌, ◌^◌, ◌≤◌, ◌<◌, ◌≡◌, refl, sym, ap, ◌∙◌, arith}
use alacrity_adios.Prelude.{le→leb, ◌==◌, true, u32, u64, List, [], ◌∷◌, ◌++◌}
use alacrity_adios.Prelude.{length, All, drop, get_elem?, Option, some, length-append}
use alacrity_adios.Prelude.{take_append, drop_append, append_assoc, drop-drop}
use alacrity_adios.Memory.{
  array_bytes, length-array_bytes, le_bytes, length-le_bytes, from_le-le_bytes,
}
use alacrity_adios.Memstream.{array_of}
use alacrity_adios.Types.{BinLayout, Metadata}
use alacrity_adios.Decode.Elements.{array_bytes-append}
use alacrity_adios.RidCompress.Batch.Differences.{IsAscending, shift_ids, length-shift_ids}
use alacrity_adios.RidCompress.Interface.{
  update_rids, encode_rids, decode_rids, get_sufficient_buffer_capacity,
}
use alacrity_adios.RidCompress.Interface.RoundTrip.{rids_bytes, encode_rids-rids_bytes, bytes_fit}
use alacrity_adios.RidCompress.Interface.RoundTrip.{shifted_rids_bytes, length-shifted_rids_bytes}
use alacrity_adios.RidCompress.Interface.RoundTrip.{encode_rids-shifted_rids_bytes}
use alacrity_adios.RidCompress.Interface.RoundTrip.{update_rids-rids_bytes}
use alacrity_adios.Convert.Translate.{translate_part, translate_bins}
use alacrity_adios.RidCompress.Interface.RoundTrip.{IsAscending-All, decode_rids-rids_bytes}
use alacrity_adios.Convert.{
  bin_length, Method, worst_size, compress_by, compress_bins, decompress_bins,
}

-- Where the bins start, from `start` on, and where the last one ends.
unfoldable pub starts : ℕ → List (List ℕ) → List ℕ
starts start [] = start ∷ []
starts start (b ∷ bs) = start ∷ starts (start + length b) bs

unfoldable pub all_ids : List (List ℕ) → List ℕ
all_ids [] = []
all_ids (b ∷ bs) = b ++ all_ids bs

pub starts-first : (start : ℕ) (bs : List (List ℕ)) → get_elem? (starts start bs) 0 ≡ some start
unfolding starts
starts-first start [] = refl
starts-first start (b ∷ bs) = refl

-- The row ids of a bin.
pub record IsBin (b : List ℕ) : Type 0 where
  pub not_empty : 0 < length b
  pub not_large : length b ≤ 2 ^ 28
  pub ascending : IsAscending b

module _ (b : List ℕ) (w : IsBin b) where
  count_fits : length b < 2 ^ 32
  count_fits = omega (arith, w.not_large)

  pub bin_bytes : List ℕ
  bin_bytes = rids_bytes b count_fits (IsAscending-All b w.ascending)

  encode_rids-bin_bytes : encode_rids b ≡ some bin_bytes
  unfolding bin_bytes
  encode_rids-bin_bytes = encode_rids-rids_bytes b count_fits (IsAscending-All b w.ascending)

  decode_rids-bin_bytes : decode_rids bin_bytes ≡ some b
  unfolding bin_bytes
  decode_rids-bin_bytes =
      decode_rids-rids_bytes b count_fits (IsAscending-All b w.ascending) w.ascending

  bin_bytes_fit : length bin_bytes ≤ get_sufficient_buffer_capacity (length b)
  unfolding bin_bytes
  bin_bytes_fit = bytes_fit b count_fits (IsAscending-All b w.ascending) w.not_empty w.not_large

  bin_bytes_small : length bin_bytes ≤ 1032 * length b
  unfolding get_sufficient_buffer_capacity
  bin_bytes_small = omega (arith, bin_bytes_fit, w.not_empty)

  pub shifted_bytes : ℕ → List ℕ
  shifted_bytes o = shifted_rids_bytes b count_fits (IsAscending-All b w.ascending) o

  encode_rids-shifted_bytes : (o : ℕ) → encode_rids (shift_ids o b) ≡ some (shifted_bytes o)
  unfolding shifted_bytes
  encode_rids-shifted_bytes =
      encode_rids-shifted_rids_bytes b count_fits (IsAscending-All b w.ascending)

  update_rids-bin_bytes : (o : ℕ) → update_rids bin_bytes o ≡ some (shifted_bytes o)
  unfolding shifted_bytes bin_bytes
  update_rids-bin_bytes = update_rids-rids_bytes b count_fits (IsAscending-All b w.ascending)

  length-shifted_bytes : (o : ℕ) → length (shifted_bytes o) ≡ length bin_bytes
  unfolding shifted_bytes bin_bytes
  length-shifted_bytes = length-shifted_rids_bytes b count_fits (IsAscending-All b w.ascending)

shift_ids-append :
    (o : ℕ) (xs ys : List ℕ) → shift_ids o (xs ++ ys) ≡ shift_ids o xs ++ shift_ids o ys
unfolding shift_ids
shift_ids-append o [] ys = refl
shift_ids-append o (x ∷ xs) ys = ap (λ t. u32 (x + o) ∷ t) (shift_ids-append o xs ys)

shift_ids-All : (o : ℕ) (ys : List ℕ) → All (λ y. y < 2 ^ 32) (shift_ids o ys)
unfolding shift_ids
shift_ids-All o [] = tt
shift_ids-All o (y ∷ ys) = (omega arith, shift_ids-All o ys)

-- Translating a bin in place.
translate_part-bin :
    (b : List ℕ) (w : IsBin b) (o : ℕ) (pre rest : List ℕ) (off len : ℕ)
    → off ≡ length pre
    → len ≡ length (bin_bytes b w)
    → translate_part o off len (pre ++ (bin_bytes b w ++ rest))
      ≡ some ((pre ++ shifted_bytes b w o) ++ rest)
unfolding translate_part
translate_part-bin b w o pre rest off len e f =
    let own = bin_bytes b w in
    let all = length-append pre (own ++ rest) in
    let both = length-append own rest in
    let behind : drop (off + len) (pre ++ (own ++ rest)) ≡ rest =
      sym (drop-drop len off (pre ++ (own ++ rest)))
      ∙ rw (drop_append off pre (own ++ rest) e) (drop_append len own rest f) in
    rw
      (
        le→leb (off + len) (length (pre ++ (own ++ rest))) (omega (arith, all, both, e, f)),
        drop_append off pre (own ++ rest) e,
        take_append len own rest f,
        update_rids-bin_bytes b w o,
        take_append off pre (own ++ rest) e,
        behind,
      )
      (ap some (sym (append_assoc pre (shifted_bytes b w o) rest)))

-- Reading an array with bytes behind it.
read_array_bytes :
    (ns : List ℕ) (rest : List ℕ)
    → All (λ n. n < 2 ^ 32) ns
    → array_of 4 (length ns) (array_bytes 4 ns ++ rest) ≡ ns
unfolding array_of array_bytes
read_array_bytes [] rest a = refl
read_array_bytes (n ∷ ns) rest (p, a) =
    rw
      (
        append_assoc (le_bytes 4 n) (array_bytes 4 ns) rest,
        take_append 4 (le_bytes 4 n) (array_bytes 4 ns ++ rest) (sym (length-le_bytes 4 n)),
        drop_append 4 (le_bytes 4 n) (array_bytes 4 ns ++ rest) (sym (length-le_bytes 4 n)),
        from_le-le_bytes 4 n p,
      )
      (ap (λ t. n ∷ t) (read_array_bytes ns rest a))

module _ (hybrid_compress expand_compress erpfd_compress : List ℕ → Option (List ℕ))
    (layout : BinLayout) where
  abbrev compress : ℕ → ℕ → List ℕ → ℕ → Option (List ℕ × List ℕ)
  compress = compress_bins hybrid_compress expand_compress erpfd_compress Method.plain layout

  -- The bins from `bin` on, of which the bytes go to `off`.
  pub record AreCompressed (bs : List (List ℕ)) (bin off : ℕ) : Type 0 where
    pub offsets : List ℕ
    pub bytes : List ℕ
    pub size : ℕ
    pub compresses :
        compress_bins hybrid_compress expand_compress erpfd_compress Method.plain layout
          (length bs)
          bin
          (array_bytes 4 (all_ids bs))
          off
        ≡ some (offsets, bytes)
    pub worst : worst_size layout (length bs) bin ≡ some size
    pub fits : length bytes ≤ size
    pub small : length bytes ≤ 1032 * length (all_ids bs)
    pub first : get_elem? offsets 0 ≡ some off
    pub shifted : ℕ → List ℕ
    pub same_length : (o : ℕ) → length (shifted o) ≡ length bytes
    pub compresses_shifted :
        (o : ℕ)
        → compress_bins hybrid_compress expand_compress erpfd_compress Method.plain layout
            (length bs)
            bin
            (array_bytes 4 (shift_ids o (all_ids bs)))
            off
          ≡ some (offsets, shifted o)
    pub translates :
        (o : ℕ) (sts pre : List ℕ)
        → off ≡ length pre
        → off + length bytes < 2 ^ 64
        → ((j : ℕ) → get_elem? sts (bin + j) ≡ get_elem? offsets j)
        → translate_bins o sts (length bs) bin (pre ++ bytes) ≡ some (pre ++ shifted o)
    pub decompresses :
        (m : Metadata)
        → m.bin_layout ≡ layout
        → off + length bytes < 2 ^ 64
        → ((j : ℕ) → get_elem? m.index_meta.index_bin_start_offsets (bin + j) ≡ get_elem? offsets j)
        → decompress_bins m (length bs) bin bytes ≡ some (all_ids bs)

  bin_length-starts :
      (b : List ℕ) (bs : List (List ℕ)) (bin start : ℕ)
      → start + length b < 2 ^ 32
      → ((j : ℕ)
          → get_elem? layout.bin_start_offsets (bin + j) ≡ get_elem? (starts start (b ∷ bs)) j)
      → bin_length layout bin ≡ some (length b)
  unfolding bin_length starts
  bin_length-starts b bs bin start l e =
      let here : bin + 0 ≡ bin = omega arith in
      let difference : u32 (start + length b + 2 ^ 32 - start) ≡ length b = omega arith in
      rw (e 1, starts-first (start + length b) bs, rw here at (e 0), difference)

  -- One bin before the others.
  with_bin :
      (b : List ℕ) (bs : List (List ℕ)) (bin off : ℕ) (w : IsBin b)
      → bin_length layout bin ≡ some (length b)
      → AreCompressed bs (bin + 1) (off + length (bin_bytes b w))
      → AreCompressed (b ∷ bs) bin off
  unfolding compress_bins worst_size decompress_bins all_ids compress_by translate_bins
  with_bin b bs bin off w l r =
      let own = bin_bytes b w in
      let ids = IsAscending-All b w.ascending in
      let split = array_bytes-append 4 b (all_ids bs) in
      let len : length b * 4 ≡ length (array_bytes 4 b) = omega (arith, length-array_bytes 4 b) in
      let room : length b * 4 ≤ length (array_bytes 4 b ++ array_bytes 4 (all_ids bs)) =
        omega (arith, len, length-append (array_bytes 4 b) (array_bytes 4 (all_ids bs))) in
      record {
        offsets = off ∷ r.offsets;
        bytes = own ++ r.bytes;
        size = get_sufficient_buffer_capacity (length b) + r.size;
        compresses = rw (
          l,
          split,
          le→leb (length b * 4) (length (array_bytes 4 b ++ array_bytes 4 (all_ids bs))) room,
          read_array_bytes b (array_bytes 4 (all_ids bs)) ids,
          encode_rids-bin_bytes b w,
          drop_append (length b * 4) (array_bytes 4 b) (array_bytes 4 (all_ids bs)) len,
          r.compresses,
        );
        worst = rw (l, r.worst);
        fits = omega (arith, length-append own r.bytes, bin_bytes_fit b w, r.fits);
        small = omega (
          arith,
          length-append own r.bytes,
          bin_bytes_small b w,
          r.small,
          length-append b (all_ids bs),
        );
        first = refl;
        shifted = λ o. shifted_bytes b w o ++ r.shifted o;
        same_length = λ o. omega (
          arith,
          length-append (shifted_bytes b w o) (r.shifted o),
          length-append own r.bytes,
          length-shifted_bytes b w o,
          r.same_length o,
        );
        compresses_shifted = λ o.
            let moved = shift_ids o b in
            let behind = array_bytes 4 (shift_ids o (all_ids bs)) in
            let len' : length b * 4 ≡ length (array_bytes 4 moved) =
              omega (arith, length-array_bytes 4 moved, length-shift_ids o b) in
            let same : length b ≡ length moved = sym (length-shift_ids o b) in
            let room' : length b * 4 ≤ length (array_bytes 4 moved ++ behind) =
              omega (arith, len', length-append (array_bytes 4 moved) behind) in
            let there : array_of 4 (length b) (array_bytes 4 moved ++ behind) ≡ moved =
              ap (λ n. array_of 4 n (array_bytes 4 moved ++ behind)) same
              ∙ read_array_bytes moved behind (shift_ids-All o b) in
            rw (
              l,
              shift_ids-append o b (all_ids bs),
              array_bytes-append 4 moved (shift_ids o (all_ids bs)),
              le→leb (length b * 4) (length (array_bytes 4 moved ++ behind)) room',
              there,
              encode_rids-shifted_bytes b w o,
              drop_append (length b * 4) (array_bytes 4 moved) behind len',
              length-shifted_bytes b w o,
              r.compresses_shifted o,
            );
        translates = λ o sts pre e p q.
            let here : bin + 0 ≡ bin = omega arith in
            let total = length-append own r.bytes in
            let difference : u64 (off + length own + 2 ^ 64 - off) ≡ length own =
              omega (arith, total, p) in
            let moved = shifted_bytes b w o in
            rw
              (
                rw here at (q 0),
                q 1 ∙ r.first,
                difference,
                translate_part-bin b w o pre r.bytes off (length own) e refl,
              )
              (r.translates o sts (pre ++ moved)
                  (omega (arith, length-append pre moved, length-shifted_bytes b w o, e))
                  (omega (arith, total, p))
                  (λ j. let f : bin + 1 + j ≡ bin + suc j = omega arith in rw f (q (suc j)))
                ∙ ap some (append_assoc pre moved (r.shifted o)));
        decompresses = λ m same p q.
            let here : bin + 0 ≡ bin = omega arith in
            let total = length-append own r.bytes in
            let difference : u64 (off + length own + 2 ^ 64 - off) ≡ length own =
              omega (arith, total, p) in
            let right : (length b == length b) ≡ true = ground arith in
            rw (
              same,
              l,
              q 1 ∙ r.first,
              rw here at (q 0),
              difference,
              le→leb (length own) (length (own ++ r.bytes)) (omega (arith, total)),
              take_append (length own) own r.bytes refl,
              decode_rids-bin_bytes b w,
              right,
              drop_append (length own) own r.bytes refl,
              r.decompresses m same (omega (arith, total, p))
                  (λ j. let e : bin + 1 + j ≡ bin + suc j = omega arith in rw e (q (suc j))),
            );
      }

  pub compressed :
      (bs : List (List ℕ)) (bin start off : ℕ)
      → All IsBin bs
      → start + length (all_ids bs) < 2 ^ 32
      → ((j : ℕ) → get_elem? layout.bin_start_offsets (bin + j) ≡ get_elem? (starts start bs) j)
      → AreCompressed bs bin off
  unfolding compress_bins worst_size decompress_bins all_ids starts array_bytes compress_by
      bin_length translate_bins shift_ids
  compressed [] bin start off a l e = record {
    offsets = off ∷ [];
    bytes = [];
    size = 0;
    compresses = refl;
    worst = refl;
    fits = omega arith;
    small = omega arith;
    first = refl;
    shifted = λ o. [];
    same_length = λ o. refl;
    compresses_shifted = λ o. refl;
    translates = λ o sts pre e p q. refl;
    decompresses = λ m same p q. refl;
  }
  compressed (b ∷ bs) bin start off (w, a) l e =
      let total = length-append b (all_ids bs) in
      with_bin b bs bin off w (bin_length-starts b bs bin start (omega (arith, total)) e) (
        compressed bs (bin + 1) (start + length b) (off + length (bin_bytes b w)) a
          (omega (arith, total))
          (λ j. let step : bin + 1 + j ≡ bin + suc j = omega arith in rw step (e (suc j))))
