-- ===== src/Decode/Compressed.antt =====
-- Decoding a compressed inverted index is converting it to an inverted index and decoding that.
use alacrity_adios.Prelude.{ℕ, zero, suc, ◌+◌, ◌-◌, ◌^◌, ◌≤◌, ◌<◌, ◌≡◌, refl, sym, ap, ◌∙◌, arith}
use alacrity_adios.Prelude.{
  if◌then◌else◌, ltb, true, leb, ◌==◌, u32, u64, List, [], ◌∷◌, ◌++◌, length, take, drop,
}
use alacrity_adios.Prelude.{
  get_elem?, Option, none, some, ◌>>=◌, some_bind, some_if, Option-cases, inl, inr,
}
use alacrity_adios.Prelude.{le→leb, length-append, append_assoc, take_append, drop_append}
use alacrity_adios.Memory.{le_bytes, from_le, array_bytes, length-le_bytes}
use alacrity_adios.Types.{
  AlError, IndexForm, IndexMetadata, BinLayout, Metadata, PartitionData, insig_bytes_ceil,
}
use alacrity_adios.Decode.{
  Decoding, Decoded, get_buffer_element, rejoin_at, decode_elements, decode_bins,
}
use alacrity_adios.Decode.{decode_compressed_bins, decode_with_inverted_index, decode, decode_form}
use alacrity_adios.Decode.{decode_with_compressed_inverted_index}
use alacrity_adios.Decode.Elements.{array_bytes-append}
use alacrity_adios.RidCompress.Interface.{decode_rids}
use mathlib.Core.Option.{some-injective}
use alacrity_adios.Convert.{bin_length, decompress_bins, convert_cii_to_ii, Converted}

-- The end of the index pointer does not matter to the elements of a bin.
next_rid :
    (x : ℕ) (rest : List ℕ)
    → get_buffer_element 4 (le_bytes 4 x ++ rest) ≡ some (from_le (le_bytes 4 x), rest)
unfolding get_buffer_element
next_rid x rest =
    let l : length (le_bytes 4 x) ≡ 4 = length-le_bytes 4 x in
    rw (
      le→leb 4 (length (le_bytes 4 x ++ rest))
          (omega (arith, length-append (le_bytes 4 x) rest, l)),
      take_append 4 (le_bytes 4 x) rest (sym l),
      drop_append 4 (le_bytes 4 x) rest (sym l),
    )

module _ (elem_size sigbits high : ℕ) where
  decode_elements-append :
      (rids rest bytes output : List ℕ)
      → decode_elements elem_size sigbits high
          (length rids)
          (record { data_ptr = bytes; index_ptr = array_bytes 4 rids ++ rest; output = output })
        ≡ (decode_elements elem_size sigbits high
              (length rids)
              (record { data_ptr = bytes; index_ptr = array_bytes 4 rids; output = output })
            >>= λ r. some (record r { index_ptr = rest }))
  unfolding decode_elements array_bytes
  decode_elements-append [] rest bytes output = refl
  decode_elements-append (x ∷ rids) rest bytes output =
      rw
        (
          append_assoc (le_bytes 4 x) (array_bytes 4 rids) rest,
          next_rid x (array_bytes 4 rids ++ rest),
          next_rid x (array_bytes 4 rids),
        )
        (elim (Option-cases (get_buffer_element (insig_bytes_ceil elem_size sigbits) bytes)) [
          | inl out ↦ rw out
          | inr ((low, data_ptr), read) ↦
              rw read
                (elim (Option-cases
                  (rejoin_at elem_size sigbits high (from_le (le_bytes 4 x)) low output)) [
                    | inl out ↦ rw out
                    | inr (written, joined) ↦
                        rw joined (decode_elements-append rids rest data_ptr written)
                  ])
        ])

-- The start offsets of the bins do not decrease and have 32 bits.
unfoldable pub IsOrderedLayout : BinLayout → Type 0
IsOrderedLayout layout =
    (bin s t : ℕ)
    → get_elem? layout.bin_start_offsets bin ≡ some s
    → get_elem? layout.bin_start_offsets (bin + 1) ≡ some t
    → (s ≤ t) × (t < 2 ^ 32)

-- The length of the buffer for a bin of `bin_len` ids.
abbrev room : ℕ → ℕ → ℕ
room buf_len bin_len = if ltb buf_len bin_len then bin_len else buf_len

room_there : (buf_len bin_len : ℕ) → 0 < bin_len + buf_len → ltb 0 (room buf_len bin_len) ≡ true
room_there buf_len bin_len h = ground arith

some_room : (buf_len bin_len : ℕ) → 0 < bin_len + buf_len → 0 < room buf_len bin_len
some_room buf_len bin_len h = ground arith

-- What is left of a state.
output_of : Option Decoding → Option (List ℕ)
output_of d = d >>= λ d. some d.output

equal : (a b : ℕ) → (a == b) ≡ true → a ≡ b
equal a b h = ground arith

module _ (m : Metadata) (ordered : IsOrderedLayout m.bin_layout) where
  abbrev offs : List ℕ
  offs = m.bin_layout.bin_start_offsets

  bin_length-inverse :
      (bin len : ℕ)
      → bin_length m.bin_layout bin ≡ some len
      → (s : ℕ) × (t : ℕ) × (get_elem? offs bin ≡ some s)
        × (get_elem? offs (bin + 1) ≡ some t)
        × (s ≤ t)
        × (len ≡ u32 (t + 2 ^ 32 - s))
        × (len ≡ t - s)
  unfolding bin_length IsOrderedLayout
  bin_length-inverse bin len h =
      let (t, at_t, h1) = some_bind (get_elem? offs (bin + 1)) _ h in
      let (s, at_s, h2) = some_bind (get_elem? offs bin) _ h1 in
      let e : u32 (t + 2 ^ 32 - s) ≡ len = some-injective _ _ h2 in
      let (up, small) = ordered bin s t at_s at_t in
      (s, t, at_s, at_t, up, sym e, omega (arith, e, up, small))

  -- What a bin of the compressed index that is decompressed went through.
  record Opened (bins bin : ℕ) (bytes rids : List ℕ) : Type 0 where
    end : ℕ
    start : ℕ
    next : ℕ
    this : ℕ
    ids : List ℕ
    more : List ℕ
    at_start : get_elem? offs bin ≡ some start
    at_end : get_elem? offs (bin + 1) ≡ some end
    at_next : get_elem? m.index_meta.index_bin_start_offsets (bin + 1) ≡ some next
    at_this : get_elem? m.index_meta.index_bin_start_offsets bin ≡ some this
    inside : leb (u64 (next + 2 ^ 64 - this)) (length bytes) ≡ true
    decoded : decode_rids (take (u64 (next + 2 ^ 64 - this)) bytes) ≡ some ids
    right : (length ids == u32 (end + 2 ^ 32 - start)) ≡ true
    how_many : length ids ≡ end - start
    others : decompress_bins m bins (bin + 1) (drop (u64 (next + 2 ^ 64 - this)) bytes) ≡ some more
    all : ids ++ more ≡ rids

  opened :
      (bins bin : ℕ) (bytes rids : List ℕ)
      → decompress_bins m (suc bins) bin bytes ≡ some rids
      → Opened bins bin bytes rids
  unfolding decompress_bins
  opened bins bin bytes rids h =
      let (len, e1, h1) = some_bind (bin_length m.bin_layout bin) _ h in
      let (s, t, at_s, at_t, up, wrapped, plain) = bin_length-inverse bin len e1 in
      let (next, e2, h2) =
        some_bind (get_elem? m.index_meta.index_bin_start_offsets (bin + 1)) _ h1 in
      let (this, e3, h3) = some_bind (get_elem? m.index_meta.index_bin_start_offsets bin) _ h2 in
      let (inside, h4) = some_if (leb (u64 (next + 2 ^ 64 - this)) (length bytes)) _ h3 in
      let (ids, e5, h5) = some_bind (decode_rids (take (u64 (next + 2 ^ 64 - this)) bytes)) _ h4 in
      let (right, h6) = some_if (length ids == len) _ h5 in
      let (more, e7, h7) =
        some_bind (decompress_bins m bins (bin + 1) (drop (u64 (next + 2 ^ 64 - this)) bytes)) _
          h6 in
      record {
        end = t;
        start = s;
        next = next;
        this = this;
        ids = ids;
        more = more;
        at_start = at_s;
        at_end = at_t;
        at_next = e2;
        at_this = e3;
        inside = inside;
        decoded = e5;
        right = rw (← wrapped) right;
        how_many = equal _ _ right ∙ plain;
        others = e7;
        all = some-injective _ _ h7;
      }

  same_outputs :
      (bins bin start buf_len : ℕ) (bytes rids data_bytes output : List ℕ)
      → get_elem? offs bin ≡ some start
      → ((end : ℕ) → get_elem? offs (bin + 1) ≡ some end → start < end + buf_len)
      → decompress_bins m bins bin bytes ≡ some rids
      → output_of (
          decode_compressed_bins m decode_rids bins bin start buf_len
            (record { data_ptr = data_bytes; index_ptr = bytes; output = output }))
        ≡ output_of (
            decode_bins m bins bin start
              (record { data_ptr = data_bytes; index_ptr = array_bytes 4 rids; output = output }))
  unfolding decode_compressed_bins decode_bins output_of IsOrderedLayout
  same_outputs zero bin start buf_len bytes rids data_bytes output e there h = refl
  same_outputs (suc bins) bin start buf_len bytes rids data_bytes output e buffer h =
      let o = opened bins bin bytes rids h in
      let same : o.start ≡ start = some-injective _ _ (sym o.at_start ∙ e) in
      let right = rw same at o.right in
      let how_many = rw same at o.how_many in
      let (up, small) = ordered bin start o.end e o.at_end in
      let bin_len = u32 (o.end + 2 ^ 32 - start) in
      let taken : 0 < bin_len + buf_len = omega (arith, buffer o.end o.at_end, up, small) in
      rw
        (
          o.at_end,
          o.at_next,
          o.at_this,
          room_there buf_len bin_len taken,
          o.inside,
          o.decoded,
          right,
          ← o.all,
        )
        (elim (Option-cases (get_elem? m.bin_layout.bin_values bin)) [
          | inl out ↦ rw out
          | inr (high, there) ↦
              rw (there, array_bytes-append 4 o.ids o.more, ← how_many)
                (rw
                  (decode_elements-append m.element_size m.significant_bits high o.ids
                    (array_bytes 4 o.more) data_bytes output)
                  (elim (Option-cases (
                    decode_elements m.element_size m.significant_bits high (length o.ids) (record {
                      data_ptr = data_bytes;
                      index_ptr = array_bytes 4 o.ids;
                      output = output;
                    }))) [
                      | inl failed ↦ rw failed
                      | inr (r, filled) ↦ rw filled (
                          same_outputs bins (bin + 1) o.end (room buf_len bin_len) _ o.more
                            r.data_ptr r.output o.at_end
                            (λ after at_after.
                              let (further, _) = ordered (bin + 1) o.end after o.at_end at_after in
                              omega (arith, further, some_room buf_len bin_len taken))
                            o.others)
                    ]))
        ])

through_output :
    (d : Option Decoding) (f : List ℕ → Option Decoded)
    → (d >>= λ r. f r.output) ≡ (output_of d >>= f)
unfolding output_of
through_output none f = refl
through_output (some r) f = refl

-- The plain loop does not look at the metadata of the index.
decode_bins_apart :
    (m : Metadata) (i : IndexMetadata) (bins bin start : ℕ) (d : Decoding)
    → decode_bins m bins bin start d ≡ decode_bins (record m { index_meta = i }) bins bin start d
unfolding decode_bins
decode_bins_apart m i bins bin start d = refl

abbrev finished : Metadata → List ℕ → Option Decoded
finished m output =
    some (record { error = AlError.error_none; output = output; output_count = m.partition_length })

abbrev inverted_meta : IndexMetadata
inverted_meta = record { index_form = IndexForm.inverted_index; index_bin_start_offsets = [] }

compressed_as_inverted :
    (p : PartitionData) (rids output : List ℕ)
    → get_elem? p.metadata.bin_layout.bin_start_offsets 0 ≡ some 0
    → ((end : ℕ) → get_elem? p.metadata.bin_layout.bin_start_offsets 1 ≡ some end → 0 < end)
    → IsOrderedLayout p.metadata.bin_layout
    → decompress_bins p.metadata p.metadata.bin_layout.num_bins 0 p.index_buffer ≡ some rids
    → decode_with_compressed_inverted_index decode_rids p output
      ≡ decode_with_inverted_index
          (record p {
            metadata = record p.metadata { index_meta = inverted_meta };
            index_buffer = array_bytes 4 rids;
          })
          output
unfolding decode_with_compressed_inverted_index decode_with_inverted_index
compressed_as_inverted p rids output first filled ordered e =
    let m = p.metadata in
    let n = m.bin_layout.num_bins in
    through_output _ (finished m)
    ∙ ap (λ t. t >>= finished m)
        (same_outputs m ordered n 0 0 0 p.index_buffer rids p.data_buffer output first
          (λ end at_end. omega (arith, filled end at_end)) e)
    ∙ sym (through_output _ (finished m))
    ∙ ap (λ t. t >>= λ r. finished m r.output) (decode_bins_apart m inverted_meta n 0 0 _)

-- With start offsets of the bins that begin with 0, do not decrease and have 32 bits, and with a
-- first bin, if there is one, that is not empty: where the
-- index of a partition in the compressed inverted form can be converted to an inverted index,
-- decoding the partition gives exactly what decoding the partition with the converted metadata and
-- index gives, whether that succeeds or not.
pub decode-convert_cii_to_ii :
    (p : PartitionData) (c : Converted) (output : List ℕ) (output_count : ℕ)
    → p.metadata.index_meta.index_form ≡ IndexForm.compressed_inverted_index
    → get_elem? p.metadata.bin_layout.bin_start_offsets 0 ≡ some 0
    → ((end : ℕ) → get_elem? p.metadata.bin_layout.bin_start_offsets 1 ≡ some end → 0 < end)
    → IsOrderedLayout p.metadata.bin_layout
    → convert_cii_to_ii 0 p.metadata.bin_layout.num_bins true p.metadata p.index_buffer ≡ some c
    → decode decode_rids p output output_count
      ≡ decode decode_rids
          (record p { metadata = c.metadata; index_buffer = c.index })
          output
          output_count
unfolding decode decode_form convert_cii_to_ii
decode-convert_cii_to_ii p c output output_count form first filled ordered h =
    let m = p.metadata in
    let all : m.bin_layout.num_bins - 0 ≡ m.bin_layout.num_bins = omega arith in
    let (rids, e, h1) =
      some_bind (decompress_bins m (m.bin_layout.num_bins - 0) 0 p.index_buffer) _ h in
    let made = some-injective _ _ h1 in
    ap (λ f. decode_form decode_rids f p output output_count) form
    ∙ compressed_as_inverted p rids output first filled ordered (rw all at e)
    ∙ ap
        (λ (c : Converted).
          decode decode_rids (record p { metadata = c.metadata; index_buffer = c.index }) output
            output_count)
        made
