-- ===== src/Uniquery/ReadReconst/InPlace.antt =====
-- Expanding low-order bytes in the buffer that they stand in: no byte is overwritten before it is
-- read, as long as the bytes stand far enough behind the place of the first element.
use alacrity_adios.Prelude.{ℕ, suc, ◌+◌, ◌-◌, ◌*◌, ◌≤◌, ◌<◌, ◌^◌, ◌≡◌, refl, sym, ap, ◌∙◌, arith}
use alacrity_adios.Prelude.{List, [], ◌∷◌, ◌++◌, length, take, drop, All}
use alacrity_adios.Prelude.{some, length-append, length-drop, append_assoc}
use alacrity_adios.Prelude.{take-append-drop, length-take}
use alacrity_adios.Memory.{le_bytes, array_bytes, length-le_bytes, from_le-le_bytes}
use alacrity_adios.Memory.Access.{read_bytes, write_bytes, read_bytes-append, write_bytes-append}
use alacrity_adios.Types.{Metadata, insig_bytes_ceil}
use alacrity_adios.Uniquery.ReadReconst.{reconst_elem, reconstitute_bin}

module _ (m : Metadata) where
  abbrev pub low_width : ℕ
  low_width = insig_bytes_ceil m.element_size m.significant_bits

  -- The elements of a bin.
  unfoldable pub joined : ℕ → List ℕ → List ℕ
  joined bin_value [] = []
  joined bin_value (low ∷ lows) =
      reconst_elem m.element_size m.significant_bits bin_value low ∷ joined bin_value lows

  pub length-joined : (v : ℕ) (lows : List ℕ) → length (joined v lows) ≡ length lows
  unfolding joined
  length-joined v [] = refl
  length-joined v (low ∷ lows) = ap suc (length-joined v lows)

  -- What is left between the elements and the low-order bytes once those of some low parts were
  -- expanded.
  unfoldable pub gap_after : List ℕ → List ℕ → List ℕ
  gap_after gap [] = gap
  gap_after gap (low ∷ lows) = gap_after (drop m.element_size (gap ++ le_bytes low_width low)) lows

  read_low :
      (before gap k rest : List ℕ)
      → length k ≡ low_width
      → read_bytes (length before + length gap) low_width (before ++ (gap ++ (k ++ rest))) ≡ some k
  read_low before gap k rest kl =
      let at = length-append before gap in
      rw (append_assoc before gap (k ++ rest), at, kl) at (read_bytes-append (before ++ gap) k rest)

  write_elem :
      (before gap k eb rest : List ℕ)
      → length eb ≤ length (gap ++ k)
      → write_bytes (length before) eb (before ++ (gap ++ (k ++ rest)))
        ≡ some ((before ++ eb) ++ (drop (length eb) (gap ++ k) ++ rest))
  write_elem before gap k eb rest room =
      let old = take (length eb) (gap ++ k) in
      let next = drop (length eb) (gap ++ k) in
      let old_length : length old ≡ length eb = omega (arith, length-take (length eb) (gap ++ k)) in
      let same : gap ++ (k ++ rest) ≡ old ++ (next ++ rest) =
        sym (append_assoc gap k rest)
        ∙ ap (λ t. t ++ rest) (sym (take-append-drop (length eb) (gap ++ k)))
        ∙ append_assoc old next rest in
      ap (λ t. write_bytes (length before) eb (before ++ t)) same
      ∙ write_bytes-append before old eb (next ++ rest) old_length
      ∙ ap some (sym (append_assoc before eb (next ++ rest)))

  module _ (narrow : low_width ≤ m.element_size) where
    pub length-gap_after :
        (gap lows : List ℕ)
        → (m.element_size - low_width) * length lows ≤ length gap
        → length (gap_after gap lows) + (m.element_size - low_width) * length lows ≡ length gap
    unfolding gap_after
    length-gap_after gap [] room = omega arith
    length-gap_after gap (low ∷ lows) room =
        let less = m.element_size - low_width in
        let times : less * suc (length lows) ≡ less * length lows + less = omega arith in
        let next = drop m.element_size (gap ++ le_bytes low_width low) in
        let l : length next ≡ length gap - less = omega (
          arith,
          length-drop m.element_size (gap ++ le_bytes low_width low),
          length-append gap (le_bytes low_width low),
          length-le_bytes low_width low,
          narrow,
        ) in
        omega (arith, length-gap_after next lows (omega (arith, times, l, room)), times, l, room)

    pub reconstitute_bin-array_bytes :
        (v : ℕ) (lows before gap behind : List ℕ)
        → All (λ low. low < 256 ^ low_width) lows
        → (m.element_size - low_width) * length lows ≤ length gap
        → reconstitute_bin m v (length lows) (record {
          next_input = length before + length gap;
          next_output = length before;
          buffer = before ++ (gap ++ (array_bytes low_width lows ++ behind));
        })
          ≡ some (record {
            next_input = length before + length gap + low_width * length lows;
            next_output = length before + m.element_size * length lows;
            buffer =
                before
                ++ (array_bytes m.element_size (joined v lows) ++ (gap_after gap lows ++ behind));
          })
    unfolding reconstitute_bin joined gap_after array_bytes
    reconstitute_bin-array_bytes v [] before gap behind fit room =
        let none_read : length before + length gap + low_width * 0 ≡ length before + length gap =
          omega arith in
        let none_written : length before + m.element_size * 0 ≡ length before = omega arith in
        rw (none_read, none_written)
    reconstitute_bin-array_bytes v (low ∷ lows) before gap behind (small, fit) room =
        let k = le_bytes low_width low in
        let eb = le_bytes m.element_size (reconst_elem m.element_size m.significant_bits v low) in
        let rest = array_bytes low_width lows ++ behind in
        let next = drop m.element_size (gap ++ k) in
        let less = m.element_size - low_width in
        let times : less * suc (length lows) ≡ less * length lows + less = omega arith in
        let kl = length-le_bytes low_width low in
        let el : length eb ≡ m.element_size = length-le_bytes m.element_size _ in
        let nl : length next ≡ length gap - less =
          omega (arith, length-drop m.element_size (gap ++ k), length-append gap k, kl, narrow) in
        let ne : length (before ++ eb) ≡ length before + m.element_size =
          omega (arith, length-append before eb, el) in
        let read = read_low before gap k rest kl in
        let write = rw el at (
          write_elem before gap k eb rest
            (omega (arith, el, length-append gap k, kl, room, times, narrow))) in
        let at_input : length before + length gap + low_width
            ≡ length (before ++ eb) + length next =
          omega (arith, ne, nl, room, times, narrow) in
        let ih =
          reconstitute_bin-array_bytes v lows (before ++ eb) next behind fit
            (omega (arith, nl, room, times)) in
        let input : length (before ++ eb) + length next + low_width * length lows
            ≡ length before + length gap + low_width * suc (length lows) =
          omega (arith, at_input) in
        let output : length (before ++ eb) + m.element_size * length lows
            ≡ length before + m.element_size * suc (length lows) =
          omega (arith, ne) in
        let arr = array_bytes m.element_size (joined v lows) in
        let after = gap_after next lows ++ behind in
        let buffer : (before ++ eb) ++ (arr ++ after) ≡ before ++ ((eb ++ arr) ++ after) =
          append_assoc before eb (arr ++ after)
          ∙ ap (λ t. before ++ t) (sym (append_assoc eb arr after)) in
        rw
          (
            append_assoc k (array_bytes low_width lows) behind,
            read,
            from_le-le_bytes low_width low small,
            write,
            at_input,
            ← ne,
          )
          (rw (input, output, buffer) at ih)
