-- ===== src/Uniquery/ReadReconst/Reading.antt =====
-- Reading a range of bins, or its first and its last bin, into elements.
use alacrity_adios.Prelude.{ℕ, suc, ◌+◌, ◌-◌, ◌*◌, ◌≤◌, ◌<◌, ◌^◌, ◌≡◌, refl, sym, ap, ◌∙◌, arith}
use alacrity_adios.Prelude.{List, [], ◌∷◌, ◌++◌, length, take, drop, All, true, false, u32}
use alacrity_adios.Prelude.{get_elem?, Option, some, length-append, length-drop, append_assoc}
use alacrity_adios.Prelude.{take-append-drop, length-take, append-nil}
use alacrity_adios.Memory.{le_bytes, array_bytes, length-array_bytes}
use alacrity_adios.Memory.Access.{write_bytes-append}
use alacrity_adios.Types.{Metadata, insig_bytes_ceil}
use alacrity_adios.Decode.Elements.{array_bytes-append}
use alacrity_adios.Uniquery.ReadReconst.{Cursor, is_element_size, reconstitute_bins}
use alacrity_adios.Uniquery.ReadReconst.{reconstitute_data, read_and_expand}
use alacrity_adios.Uniquery.ReadReconst.{read_and_reconstitute_data}
use alacrity_adios.Uniquery.ReadReconst.InPlace.{low_width, joined, length-joined, gap_after}
use alacrity_adios.Uniquery.ReadReconst.InPlace.{length-gap_after, reconstitute_bin-array_bytes}

pub no_more : (xs : List ℕ) → length xs ≡ 0 → xs ≡ []
no_more [] h = refl
no_more (x ∷ xs) h = absurd (omega (arith, h))

-- A bin: its value and the low parts of its elements.
abbrev pub Bin : Type 0
Bin = ℕ × List ℕ

unfoldable pub lows_of : List Bin → List ℕ
lows_of [] = []
lows_of ((v, lows) ∷ bins) = lows ++ lows_of bins

pub mul_add : (a b c : ℕ) → a * (b + c) ≡ a * b + a * c
mul_add a b c = grind arith

pub comm : (a b : ℕ) → a * b ≡ b * a
comm a b = grind arith

pub add_mul : (a b c : ℕ) → (a + b) * c ≡ a * c + b * c
add_mul a b c = grind arith

pub sub_back : (a b : ℕ) → b ≤ a → a ≡ a - b + b
sub_back a b h = omega arith

module _ (m : Metadata) where
  -- The elements of some bins.
  unfoldable pub elements_of : List Bin → List ℕ
  elements_of [] = []
  elements_of ((v, lows) ∷ bins) = joined m v lows ++ elements_of bins

  pub length-elements_of : (bins : List Bin) → length (elements_of bins) ≡ length (lows_of bins)
  unfolding elements_of lows_of
  length-elements_of [] = refl
  length-elements_of ((v, lows) ∷ bins) = omega (
    arith,
    length-append (joined m v lows) (elements_of bins),
    length-append lows (lows_of bins),
    length-joined m v lows,
    length-elements_of bins,
  )

  -- The layout has these bins from `bin` on, and the first one starts at `start`.
  abbrev pub HasBins : ℕ → ℕ → List Bin → Type 0
  HasBins bin start [] = get_elem? m.bin_layout.bin_start_offsets bin ≡ some start
  HasBins bin start ((v, lows) ∷ bins) =
      (get_elem? m.bin_layout.bin_start_offsets bin ≡ some start)
      × (get_elem? m.bin_layout.bin_values bin ≡ some v)
      × HasBins (bin + 1) (start + length lows) bins

  pub first_start :
      (bin start : ℕ) (bins : List Bin)
      → HasBins bin start bins
      → get_elem? m.bin_layout.bin_start_offsets bin ≡ some start
  first_start bin start [] h = h
  first_start bin start ((v, lows) ∷ bins) (h, _, _) = h

  pub end_start :
      (bin start : ℕ) (bins : List Bin)
      → HasBins bin start bins
      → get_elem? m.bin_layout.bin_start_offsets (bin + length bins)
        ≡ some (start + length (lows_of bins))
  unfolding lows_of
  end_start bin start [] h =
      let b : bin + 0 ≡ bin = omega arith in let s : start + 0 ≡ start = omega arith in rw (b, s) h
  end_start bin start ((v, lows) ∷ bins) (_, _, h) =
      let b : bin + suc (length bins) ≡ bin + 1 + length bins = omega arith in
      let s : start + length (lows ++ lows_of bins) ≡ start + length lows + length (lows_of bins) =
        omega (arith, length-append lows (lows_of bins)) in
      rw (b, s) (end_start (bin + 1) (start + length lows) bins h)

  pub narrow : low_width m ≤ m.element_size
  narrow = unfold insig_bytes_ceil in omega arith

  abbrev pub less : ℕ
  less = m.element_size - low_width m

  gap_after-append :
      (gap xs ys : List ℕ) → gap_after m gap (xs ++ ys) ≡ gap_after m (gap_after m gap xs) ys
  unfolding gap_after
  gap_after-append gap [] ys = refl
  gap_after-append gap (x ∷ xs) ys =
      gap_after-append (drop m.element_size (gap ++ le_bytes (low_width m) x)) xs ys

  split_All : (P : ℕ → Type 0) (xs ys : List ℕ) → All P (xs ++ ys) → All P xs × All P ys
  split_All P [] ys a = (tt, a)
  split_All P (x ∷ xs) ys (p, a) = let (l, r) = split_All P xs ys a in ((p, l), r)

  reconstitute_bins-array_bytes :
      (bin start : ℕ) (bins : List Bin) (before gap behind : List ℕ)
      → HasBins bin start bins
      → All (λ low. low < 256 ^ low_width m) (lows_of bins)
      → less * length (lows_of bins) ≤ length gap
      → (c : Cursor) × (reconstitute_bins m (length bins) bin (record {
        next_input = length before + length gap;
        next_output = length before;
        buffer = before ++ (gap ++ (array_bytes (low_width m) (lows_of bins) ++ behind));
      })
          ≡ some c)
        × (c.buffer
            ≡ before
              ++ (array_bytes m.element_size (elements_of bins)
                  ++ (gap_after m gap (lows_of bins) ++ behind)))
  unfolding reconstitute_bins lows_of elements_of array_bytes gap_after
  reconstitute_bins-array_bytes bin start [] before gap behind h fit room = (_, refl, refl)
  reconstitute_bins-array_bytes bin start ((v, lows) ∷ bins) before gap behind (at, value, h) fit
        room =
      let lw = low_width m in
      let e = m.element_size in
      let A = array_bytes lw lows in
      let rest = array_bytes lw (lows_of bins) in
      let J = array_bytes e (joined m v lows) in
      let gap1 = gap_after m gap lows in
      let (fit1, fit2) = split_All (λ low. low < 256 ^ lw) lows (lows_of bins) fit in
      let n = length lows in
      let k = length (lows_of bins) in
      let both : length (lows ++ lows_of bins) ≡ n + k = length-append lows (lows_of bins) in
      let times : less * length (lows ++ lows_of bins) ≡ less * n + less * k =
        rw both (mul_add less n k) in
      let some_more : m.element_size * n ≡ less * n + lw * n =
        ap (λ (t : ℕ). t * n) (sub_back m.element_size lw narrow) ∙ add_mul less lw n in
      let room1 : less * n ≤ length gap = omega (arith, room, times) in
      let one =
        reconstitute_bin-array_bytes m narrow v lows before gap (rest ++ behind) fit1 room1 in
      let gl = length-gap_after m narrow gap lows room1 in
      let jl : length J ≡ e * n =
        length-array_bytes e (joined m v lows) ∙ ap (λ (t : ℕ). e * t) (length-joined m v lows) in
      let bl : length (before ++ J) ≡ length before + e * n =
        omega (arith, length-append before J, jl) in
      let at_input : length before + length gap + lw * n ≡ length (before ++ J) + length gap1 =
        omega (arith, bl, gl, some_more) in
      let moved = sym (append_assoc before J (gap1 ++ (rest ++ behind))) in
      let (c, run, is) =
        reconstitute_bins-array_bytes (bin + 1) (start + n) bins (before ++ J) gap1 behind h fit2
          (omega (arith, gl, room, times)) in
      let count : start + n - start ≡ n = omega arith in
      (
        c,
        rw
            (
              at,
              first_start (bin + 1) (start + n) bins h,
              value,
              count,
              array_bytes-append lw lows (lows_of bins),
              append_assoc A rest behind,
              one,
              at_input,
              ← bl,
              moved,
            )
            run,
        is
            ∙ append_assoc before J _
            ∙ rw
                (
                  array_bytes-append e (joined m v lows) (elements_of bins),
                  gap_after-append gap lows (lows_of bins),
                )
                (ap (λ t. before ++ t) (sym (append_assoc J (array_bytes e (elements_of bins)) _))),
      )

  module _ (known : is_element_size m.element_size ≡ true)
      (read_data_bins : ℕ → ℕ → Option (List ℕ)) where
    pub expanded :
        (bin start : ℕ) (bins : List Bin) (before gap old behind : List ℕ)
        → HasBins bin start bins
        → All (λ low. low < 256 ^ low_width m) (lows_of bins)
        → read_data_bins bin (bin + length bins) ≡ some (array_bytes (low_width m) (lows_of bins))
        → length old ≡ low_width m * length (lows_of bins)
        → less * length (lows_of bins) ≤ length gap
        → read_and_expand m read_data_bins bin
            (bin + length bins)
            (length before + length gap)
            (length before)
            (before ++ (gap ++ (old ++ behind)))
          ≡ some (
              before
              ++ (array_bytes m.element_size (elements_of bins)
                  ++ (gap_after m gap (lows_of bins) ++ behind)))
    unfolding read_and_expand reconstitute_data
    expanded bin start bins before gap old behind h fit read l room =
        let bytes = array_bytes (low_width m) (lows_of bins) in
        let same : length old ≡ length bytes =
          omega (arith, l, length-array_bytes (low_width m) (lows_of bins)) in
        let written = write_bytes-append (before ++ gap) old bytes behind same in
        let count : bin + length bins - bin ≡ length bins = omega arith in
        let (c, run, is) =
          reconstitute_bins-array_bytes bin start bins before gap behind h fit room in
        rw
          (
            read,
            ← append_assoc before gap (old ++ behind),
            ← length-append before gap,
            written,
            known,
            count,
            append_assoc before gap (bytes ++ behind),
            length-append before gap,
            run,
          )
          (ap some is)

    -- Reading a range of bins that the layout has, from a store that gives the bytes of their low
    -- parts: the buffer that malloc returns, of the size that it is asked for, holds what the code
    -- makes of each low part, and their number is returned. The low parts fit their width, the size of
    -- an element is one that the switch knows, and the elements are below 4 GB and the offsets below
    -- 2^32.
    pub read_and_reconstitute_data-elements_of :
        (start_bin start : ℕ) (bins : List Bin) (malloc : ℕ → List ℕ)
        → HasBins start_bin start bins
        → All (λ low. low < 256 ^ low_width m) (lows_of bins)
        → ((n : ℕ) → length (malloc n) ≡ n)
        → m.element_size * length (lows_of bins) < 2 ^ 32
        → start + length (lows_of bins) < 2 ^ 32
        → read_data_bins start_bin (start_bin + length bins)
          ≡ some (array_bytes (low_width m) (lows_of bins))
        → read_and_reconstitute_data m read_data_bins start_bin
            (start_bin + length bins)
            false
            malloc
          ≡ some (array_bytes m.element_size (elements_of bins), length (lows_of bins))
    unfolding read_and_reconstitute_data
    read_and_reconstitute_data-elements_of start_bin start bins malloc h fit sized small few read =
        let n = length (lows_of bins) in
        let e = m.element_size in
        let allocated = malloc (n * e) in
        let l : length allocated ≡ e * n = omega (arith, sized (n * e), comm n e) in
        let size : u32 (n * e) ≡ n * e = omega (arith, comm n e, small) in
        let whole : e * n ≡ less * n + low_width m * n =
          ap (λ (t : ℕ). t * n) (sub_back e (low_width m) narrow) ∙ add_mul less (low_width m) n in
        let count : u32 (start + n + 2 ^ 32 - start) ≡ n = omega arith in
        let offset : u32 (less * n) ≡ less * n = omega (arith, whole, small) in
        let gap = take (less * n) allocated in
        let old = drop (less * n) allocated in
        let gl : length gap ≡ less * n =
          omega (arith, length-take (less * n) allocated, l, whole) in
        let ol : length old ≡ low_width m * n =
          omega (arith, length-drop (less * n) allocated, l, whole) in
        let run = expanded start_bin start bins [] gap old [] h fit read ol (omega (arith, gl)) in
        let none_left =
          no_more (gap_after m gap (lows_of bins))
            (omega (arith, length-gap_after m narrow gap (lows_of bins) (omega (arith, gl)), gl)) in
        let buffer : [] ++ (gap ++ (old ++ [])) ≡ allocated =
          ap (λ t. gap ++ t) (append-nil old) ∙ take-append-drop (less * n) allocated in
        let zero_plus : 0 + length gap ≡ less * n = omega (arith, gl) in
        let done =
          rw (buffer, zero_plus, none_left, append-nil (array_bytes e (elements_of bins))) at run in
        rw (
          end_start start_bin start bins h,
          first_start start_bin start bins h,
          count,
          offset,
          size,
          known,
          done,
        )
