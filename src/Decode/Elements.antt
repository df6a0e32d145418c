-- ===== src/Decode/Elements.antt =====
-- The decoding loops on buffers that hold the rows of the bins one after the other.
use alacrity_adios.Prelude.{ℕ, suc, ◌+◌, ◌-◌, ◌^◌, ◌<◌, ◌≡◌, refl, sym, ap, ◌∙◌, arith}
use alacrity_adios.Prelude.{List, [], ◌∷◌, ◌++◌, length, All, map, append_assoc}
use alacrity_adios.Prelude.{get_elem?, set, length-append, take_append, drop_append, length-set}
use alacrity_adios.Prelude.{some, true, le→leb, lt→ltb, ◌*◌, ◌≤◌}
use alacrity_adios.Memory.{le_bytes, from_le, array_bytes, length-le_bytes}
use alacrity_adios.Memory.{from_le-le_bytes}
use alacrity_adios.Types.{Metadata, insig_bytes_ceil}
use alacrity_adios.Config.{EncoderConfig}
use alacrity_adios.Datum.{stored, is_datum_size}
use alacrity_adios.Prelude.Division.{u32_place_below}
use alacrity_adios.Datum.RoundTrip.{rejoin-split}
use alacrity_adios.Encode.Tables.{occurrences, ends}
use alacrity_adios.Encode.Scatter.{bucket}
use alacrity_adios.Encode.Fresh.{by_value, keys, length-bucket}
use alacrity_adios.Encode.Binning.{IsInput}
use alacrity_adios.Decode.{get_buffer_element, rejoin_at, decode_elements, decode_bins}
use alacrity_adios.Decode.Rows.{IsRow, low_of, write_rows, write_rows-append, length-write_rows}
use alacrity_adios.Decode.Rows.{bucket-All}
use native.Mathlib.Nat.{mod-lt, one-le-pow}

some_bytes : (e : ℕ) → is_datum_size e ≡ true → 0 < e
unfolding is_datum_size
some_bytes e h = ground arith

read_back :
    (w n : ℕ) (rest : List ℕ)
    → from_le (le_bytes w n) ≡ n
    → get_buffer_element w (le_bytes w n ++ rest) ≡ some (n, rest)
unfolding get_buffer_element
read_back w n rest e = rw (
  le→leb w (length (le_bytes w n ++ rest))
      (omega (arith, length-append (le_bytes w n) rest, length-le_bytes w n)),
  take_append w (le_bytes w n) rest (sym (length-le_bytes w n)),
  drop_append w (le_bytes w n) rest (sym (length-le_bytes w n)),
  e,
)

pub array_bytes-append :
    (w : ℕ) (xs ys : List ℕ) → array_bytes w (xs ++ ys) ≡ array_bytes w xs ++ array_bytes w ys
unfolding array_bytes
array_bytes-append w [] ys = refl
array_bytes-append w (x ∷ xs) ys =
    ap (λ t. le_bytes w x ++ t) (array_bytes-append w xs ys)
    ∙ sym (append_assoc (le_bytes w x) (array_bytes w xs) (array_bytes w ys))

pub map_append : {A : Type 0} (g : A → ℕ) (xs ys : List A) → map g (xs ++ ys) ≡ map g xs ++ map g ys
map_append g [] ys = refl
map_append g (x ∷ xs) ys = ap (λ t. g x ∷ t) (map_append g xs ys)

-- The bytes of two lists, before others.
bytes_split :
    {A : Type 0} (width : ℕ) (g : A → ℕ) (xs ys : List A) (rest : List ℕ)
    → array_bytes width (map g (xs ++ ys)) ++ rest
      ≡ array_bytes width (map g xs) ++ (array_bytes width (map g ys) ++ rest)
bytes_split width g xs ys rest =
    rw (map_append g xs ys, array_bytes-append width (map g xs) (map g ys))
      (append_assoc (array_bytes width (map g xs)) (array_bytes width (map g ys)) rest)

module _ (config : EncoderConfig) (input : List ℕ) (w : IsInput config input)
    (small : length input * config.element_size ≤ 2 ^ 32) where
  abbrev e : ℕ
  e = config.element_size

  abbrev s : ℕ
  s = config.significant_bits

  abbrev low_width : ℕ
  low_width = insig_bytes_ceil e s

  low_read_back :
      (r x : ℕ) (rest : List ℕ)
      → get_buffer_element low_width (le_bytes low_width (low_of config (r, x)) ++ rest)
        ≡ some (low_of config (r, x), rest)
  low_read_back r x rest =
      unfold stored in
      read_back low_width _ rest
        (from_le-le_bytes low_width _ (mod-lt _ (one-le-pow low_width 256 (omega arith))))

  rejoined :
      (high r x : ℕ) (output : List ℕ)
      → IsRow config input high r x
      → length output ≡ length input
      → rejoin_at e s high r (low_of config (r, x)) output ≡ some (set output r x)
  unfolding rejoin_at
  rejoined high r x output row l = rw (
    u32_place_below e (length input) r (some_bytes e w.size_known) row.inside small,
    w.size_known,
    lt→ltb r (length output) (omega (arith, row.inside)),
    ← row.key,
    rejoin-split e s x w.size_known row.fits w.few_bits w.bits_there,
  )

  -- One bin: the data pointer stands at the low-order bytes of its rows and the index pointer at
  -- their row ids.
  decode_elements-write_rows :
      (high : ℕ) (rs : List (ℕ × ℕ)) (bytes index output : List ℕ)
      → All (λ a. IsRow config input high a.0 a.1) rs
      → length output ≡ length input
      → decode_elements e s high (length rs) (record {
        data_ptr = array_bytes low_width (map (low_of config) rs) ++ bytes;
        index_ptr = array_bytes 4 (map (λ a. a.0) rs) ++ index;
        output = output;
      })
        ≡ some (record { data_ptr = bytes; index_ptr = index; output = write_rows rs output })
  unfolding decode_elements array_bytes write_rows
  decode_elements-write_rows high [] bytes index output a l = refl
  decode_elements-write_rows high ((r, x) ∷ rs) bytes index output (row, a) l =
      let few : r < 256 ^ 4 = omega (arith, row.inside, w.count_fits) in
      rw
        (
          append_assoc (le_bytes low_width (low_of config (r, x)))
              (array_bytes low_width (map (low_of config) rs)) bytes,
          low_read_back r x (array_bytes low_width (map (low_of config) rs) ++ bytes),
          append_assoc (le_bytes 4 r) (array_bytes 4 (map (λ a. a.0) rs)) index,
          read_back 4 r (array_bytes 4 (map (λ a. a.0) rs) ++ index) (from_le-le_bytes 4 r few),
          rejoined high r x output row l,
        )
        (decode_elements-write_rows high rs bytes index (set output r x) a
          (length-set output r x ∙ l))

  module _ (m : Metadata) (same_size : m.element_size ≡ e) (same_bits : m.significant_bits ≡ s)
      (items : List (ℕ × (ℕ × ℕ)))
      (good : All (λ it. IsRow config input it.0 it.1.0 it.1.1) items) where
    -- The bins from `bin` on, which have the values `ws` and the start offset `start`.
    pub decode_bins-write_rows :
        (ws : List ℕ) (bin start : ℕ) (bytes index output : List ℕ)
        → ((j : ℕ) → get_elem? m.bin_layout.bin_values (bin + j) ≡ get_elem? ws j)
        → ((j : ℕ)
            → get_elem? m.bin_layout.bin_start_offsets (bin + 1 + j)
              ≡ get_elem? (ends (λ v. occurrences v (keys items)) start ws) j)
        → length output ≡ length input
        → decode_bins m (length ws) bin start (record {
          data_ptr = array_bytes low_width (map (low_of config) (by_value ws items)) ++ bytes;
          index_ptr = array_bytes 4 (map (λ a. a.0) (by_value ws items)) ++ index;
          output = output;
        })
          ≡ some (record {
            data_ptr = bytes;
            index_ptr = index;
            output = write_rows (by_value ws items) output;
          })
    unfolding decode_bins by_value write_rows ends
    decode_bins-write_rows [] bin start bytes index output values offsets l =
        unfold array_bytes in refl
    decode_bins-write_rows (v ∷ ws) bin start bytes index output values offsets l =
        let c : ℕ = occurrences v (keys items) in
        let rs = bucket v items in
        let at_bin : bin + 0 ≡ bin = omega arith in
        let at_next : bin + 1 + 0 ≡ bin + 1 = omega arith in
        let value = values 0 in
        let offset = offsets 0 in
        let elements : start + c - start ≡ length rs = omega (arith, length-bucket v items) in
        rw
          (
            rw at_next at offset,
            rw at_bin at value,
            same_size,
            same_bits,
            elements,
            bytes_split low_width (low_of config) rs (by_value ws items) bytes,
            bytes_split 4 (λ a. a.0) rs (by_value ws items) index,
            decode_elements-write_rows v rs _ _ output
                (bucket-All (λ k a. IsRow config input k a.0 a.1) v items good) l,
            write_rows-append rs (by_value ws items) output,
          )
          (decode_bins-write_rows ws (bin + 1) (start + c) bytes index (write_rows rs output)
            (λ j. let step : bin + 1 + j ≡ bin + suc j = omega arith in rw step (values (suc j)))
            (λ j.
              let step : bin + 1 + 1 + j ≡ bin + 1 + suc j = omega arith in
              rw step (offsets (suc j)))
            (length-write_rows rs output ∙ l))
