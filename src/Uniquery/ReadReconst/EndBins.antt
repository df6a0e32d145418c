-- ===== src/Uniquery/ReadReconst/EndBins.antt =====
-- Reading the first and the last bin of a range: both are made into elements at the places that they
-- have when all bins are read.
use alacrity_adios.Prelude.{ℕ, suc, ◌+◌, ◌-◌, ◌*◌, ◌<◌, ◌^◌, ◌≡◌, ap, ◌∙◌, arith}
use alacrity_adios.Prelude.{List, [], ◌∷◌, ◌++◌, length, take, drop, All, true, u32, ltb, lt→ltb}
use alacrity_adios.Prelude.{Option, some, length-append, length-drop, append_assoc}
use alacrity_adios.Prelude.{take-append-drop, length-take, append-nil}
use alacrity_adios.Memory.{array_bytes, length-array_bytes}
use alacrity_adios.Types.{Metadata}
use alacrity_adios.Uniquery.ReadReconst.{
  is_element_size, read_and_expand, read_end_bins, read_and_reconstitute_data,
}
use alacrity_adios.Uniquery.ReadReconst.InPlace.{low_width, gap_after, length-gap_after}
use alacrity_adios.Uniquery.ReadReconst.Reading.{Bin, lows_of, elements_of, HasBins, less, narrow}
use alacrity_adios.Uniquery.ReadReconst.Reading.{
  expanded, no_more, mul_add, add_mul, sub_back, comm,
}
use alacrity_adios.Uniquery.ReadReconst.Reading.{length-elements_of, first_start, end_start}

pub lows_of-append :
    (xs ys : List Bin) → length (lows_of (xs ++ ys)) ≡ length (lows_of xs) + length (lows_of ys)
unfolding lows_of
lows_of-append [] ys = omega arith
lows_of-append ((v, lows) ∷ xs) ys = omega (
  arith,
  length-append lows (lows_of (xs ++ ys)),
  length-append lows (lows_of xs),
  lows_of-append xs ys,
)

module _ (m : Metadata) where
  pub HasBins-append :
      (bin start : ℕ) (xs ys : List Bin)
      → HasBins m bin start (xs ++ ys)
      → HasBins m bin start xs × HasBins m (bin + length xs) (start + length (lows_of xs)) ys
  unfolding lows_of
  HasBins-append bin start [] ys h =
      let b : bin + 0 ≡ bin = omega arith in
      let s : start + 0 ≡ start = omega arith in (first_start m bin start ys h, rw (b, s) h)
  HasBins-append bin start ((v, lows) ∷ xs) ys (at, value, h) =
      let (l, r) = HasBins-append (bin + 1) (start + length lows) xs ys h in
      let b : bin + suc (length xs) ≡ bin + 1 + length xs = omega arith in
      let s : start + length (lows ++ lows_of xs) ≡ start + length lows + length (lows_of xs) =
        omega (arith, length-append lows (lows_of xs)) in
      ((at, value, l), rw (b, s) r)

  module _ (known : is_element_size m.element_size ≡ true)
      (read_data_bins : ℕ → ℕ → Option (List ℕ)) (s start : ℕ) (first last : Bin)
      (middle : List Bin) (allocated : List ℕ) where
    abbrev n1 : ℕ
    n1 = length (lows_of (first ∷ []))

    abbrev n2 : ℕ
    n2 = length (lows_of (last ∷ []))

    abbrev between : ℕ
    between = length (lows_of middle)

    abbrev total : ℕ
    total = n1 + between + n2

    module _ (l : length allocated ≡ m.element_size * total) where
      abbrev e : ℕ
      e = m.element_size

      abbrev low_data : ℕ
      low_data = less m * total

      abbrev behind : List ℕ
      behind = drop (low_width m * n1) (drop low_data allocated)

      abbrev after_first : List ℕ
      after_first = gap_after m (take low_data allocated) (lows_of (first ∷ [])) ++ behind

      abbrev first_elements : List ℕ
      first_elements = array_bytes e (elements_of m (first ∷ []))

      abbrev last_elements : List ℕ
      last_elements = array_bytes e (elements_of m (last ∷ []))

      products :
          (e * total ≡ less m * total + low_width m * total)
          × (less m * total ≡ less m * n1 + less m * between + less m * n2)
          × (low_width m * total ≡ low_width m * n1 + low_width m * between + low_width m * n2)
          × (e * n1 ≡ less m * n1 + low_width m * n1)
          × (e * between ≡ less m * between + low_width m * between)
      products =
          let split = λ (a : ℕ).
            mul_add a (n1 + between) n2 ∙ ap (λ (t : ℕ). t + a * n2) (mul_add a n1 between) in
          let parts = λ (n : ℕ).
            ap (λ (t : ℕ). t * n) (sub_back e (low_width m) (narrow m))
            ∙ add_mul (less m) (low_width m) n in
          (parts total, split (less m), split (low_width m), parts n1, parts between)

      low_length : length (take low_data allocated) ≡ low_data
      low_length =
          let (p, q, r, u, v) = products in omega (arith, length-take low_data allocated, l, p)

      length-after_first : length after_first ≡ e * between + (less m * n2 + low_width m * n2)
      length-after_first =
          let (p, q, r, u, v) = products in
          omega (
            arith,
            length-append (gap_after m (take low_data allocated) (lows_of (first ∷ []))) behind,
            length-gap_after m (narrow m) (take low_data allocated) (lows_of (first ∷ []))
                (omega (arith, low_length, q)),
            length-drop (low_width m * n1) (drop low_data allocated),
            length-drop low_data allocated,
            low_length,
            l,
            p,
            q,
            r,
            v,
          )

      first_expanded :
          HasBins m s start (first ∷ [])
          → All (λ low. low < 256 ^ low_width m) (lows_of (first ∷ []))
          → read_data_bins s (s + 1) ≡ some (array_bytes (low_width m) (lows_of (first ∷ [])))
          → read_and_expand m read_data_bins s (s + 1) low_data 0 allocated
            ≡ some (first_elements ++ after_first)
      first_expanded h fit read =
          let (p, q, r, u, v) = products in
          let high = drop low_data allocated in
          let old = take (low_width m * n1) high in
          let ol : length old ≡ low_width m * n1 =
            omega (
              arith,
              length-take (low_width m * n1) high,
              length-drop low_data allocated,
              l,
              p,
              r,
            ) in
          let run =
            expanded m known read_data_bins s start (first ∷ []) [] (take low_data allocated) old
              behind h fit read ol (omega (arith, low_length, q)) in
          let buffer : [] ++ (take low_data allocated ++ (old ++ behind)) ≡ allocated =
            ap (λ t. take low_data allocated ++ t) (take-append-drop (low_width m * n1) high)
            ∙ take-append-drop low_data allocated in
          let at : 0 + length (take low_data allocated) ≡ low_data = omega (arith, low_length) in
          rw (buffer, at) at run

      last_expanded :
          (b t : ℕ)
          → HasBins m b t (last ∷ [])
          → All (λ low. low < 256 ^ low_width m) (lows_of (last ∷ []))
          → read_data_bins b (b + 1) ≡ some (array_bytes (low_width m) (lows_of (last ∷ [])))
          → read_and_expand m read_data_bins b
              (b + 1)
              (low_data + (n1 + between) * low_width m)
              (e * (n1 + between))
              (first_elements ++ after_first)
            ≡ some (first_elements ++ (take (e * between) after_first ++ last_elements))
      last_expanded b t h fit read =
          let (p, q, r, u, v) = products in
          let kept = take (e * between) after_first in
          let others = drop (e * between) after_first in
          let gap = take (less m * n2) others in
          let old = drop (less m * n2) others in
          let before = first_elements ++ kept in
          let kl : length kept ≡ e * between =
            omega (arith, length-take (e * between) after_first, length-after_first) in
          let wl : length others ≡ less m * n2 + low_width m * n2 =
            omega (arith, length-drop (e * between) after_first, length-after_first) in
          let gl : length gap ≡ less m * n2 = omega (arith, length-take (less m * n2) others, wl) in
          let ol : length old ≡ low_width m * n2 =
            omega (arith, length-drop (less m * n2) others, wl) in
          let bl : length before ≡ e * (n1 + between) = omega (
            arith,
            length-append first_elements kept,
            kl,
            length-array_bytes e (elements_of m (first ∷ [])),
            ap (λ (z : ℕ). e * z) (length-elements_of m (first ∷ [])),
            mul_add e n1 between,
          ) in
          let input : length before + length gap ≡ low_data + (n1 + between) * low_width m = omega (
            arith,
            bl,
            gl,
            q,
            u,
            v,
            mul_add e n1 between,
            add_mul n1 between (low_width m),
            comm n1 (low_width m),
            comm between (low_width m),
          ) in
          let run =
            expanded m known read_data_bins b t (last ∷ []) before gap old [] h fit read ol
              (omega (arith, gl)) in
          let none_left = no_more (gap_after m gap (lows_of (last ∷ []))) (
            omega (
              arith,
              length-gap_after m (narrow m) gap (lows_of (last ∷ [])) (omega (arith, gl)),
              gl,
            )) in
          let buffer : before ++ (gap ++ (old ++ [])) ≡ first_elements ++ after_first =
            ap (λ z. before ++ (gap ++ z)) (append-nil old)
            ∙ ap (λ z. before ++ z) (take-append-drop (less m * n2) others)
            ∙ append_assoc first_elements kept others
            ∙ ap (λ z. first_elements ++ z) (take-append-drop (e * between) after_first) in
          rw
            (
              input,
              bl,
              buffer,
              none_left,
              append-nil last_elements,
              append_assoc first_elements kept last_elements,
            )
            at run

  abbrev pub total_of : Bin → List Bin → Bin → ℕ
  total_of first middle last =
      length (lows_of (first ∷ [])) + length (lows_of middle) + length (lows_of (last ∷ []))

  module _ (known : is_element_size m.element_size ≡ true)
      (read_data_bins : ℕ → ℕ → Option (List ℕ)) where
    -- Reading only the first and the last of more than two bins that the layout has, from a store that
    -- gives the bytes of their low parts, puts the elements of these two at the places that they have
    -- among the elements of all bins, and returns the number of all of them; what is between them has the
    -- size of the elements of the other bins. The low parts of the two fit their width, the size of an
    -- element is one that the switch knows, malloc gives buffers of the size that it is asked for, and
    -- the elements are below 4 GB and the offsets below 2^32.
    pub read_and_reconstitute_data-end_bins :
        (s start : ℕ) (first last : Bin) (middle : List Bin) (malloc : ℕ → List ℕ)
        → HasBins m s start (first ∷ (middle ++ (last ∷ [])))
        → 0 < length middle
        → All (λ low. low < 256 ^ low_width m) (lows_of (first ∷ []))
        → All (λ low. low < 256 ^ low_width m) (lows_of (last ∷ []))
        → ((n : ℕ) → length (malloc n) ≡ n)
        → m.element_size * total_of first middle last < 2 ^ 32
        → start + total_of first middle last < 2 ^ 32
        → read_data_bins s (s + 1) ≡ some (array_bytes (low_width m) (lows_of (first ∷ [])))
        → read_data_bins (s + 1 + length middle) (s + 1 + length middle + 1)
          ≡ some (array_bytes (low_width m) (lows_of (last ∷ [])))
        → (kept : List ℕ) × (read_and_reconstitute_data m read_data_bins s
              (s + 1 + length middle + 1)
              true
              malloc
            ≡ some (
              array_bytes m.element_size (elements_of m (first ∷ []))
                  ++ (kept ++ array_bytes m.element_size (elements_of m (last ∷ []))),
              total_of first middle last,
            ))
          × (length kept ≡ m.element_size * length (lows_of middle))
    unfolding read_and_reconstitute_data read_end_bins
    read_and_reconstitute_data-end_bins s start first last middle malloc h more fit1 fit2 sized
          small few read1 read2 =
        let n1 = length (lows_of (first ∷ [])) in
        let n2 = length (lows_of (last ∷ [])) in
        let between = length (lows_of middle) in
        let total = n1 + between + n2 in
        let allocated = malloc (total * m.element_size) in
        let l : length allocated ≡ m.element_size * total =
          omega (arith, sized (total * m.element_size), comm total m.element_size) in
        let size : u32 (total * m.element_size) ≡ total * m.element_size =
          omega (arith, comm total m.element_size, small) in
        let (p, q, r, u, v) = products known read_data_bins s start first last middle allocated l in
        let (h1, h2) = HasBins-append s start (first ∷ []) (middle ++ (last ∷ [])) h in
        let (h3, h4) = HasBins-append (s + 1) (start + n1) middle (last ∷ []) h2 in
        let b = s + 1 + length middle in
        let n = n1 + between in
        let at_start = first_start m s start (first ∷ []) h1 in
        let at_last = first_start m b (start + n1 + between) (last ∷ []) h4 in
        let at_end = end_start m b (start + n1 + between) (last ∷ []) h4 in
        let count : u32 (start + n1 + between + n2 + 2 ^ 32 - start) ≡ total = omega arith in
        let last_off : u32 (start + n1 + between + 2 ^ 32 - start) ≡ n = omega arith in
        let offset : u32 (less m * total) ≡ less m * total = omega (arith, p, small) in
        let distance : u32 (n * low_width m) ≡ n * low_width m = omega (
          arith,
          p,
          r,
          small,
          add_mul n1 between (low_width m),
          comm n1 (low_width m),
          comm between (low_width m),
        ) in
        let three : ltb 2 (b + 1 - s) ≡ true = lt→ltb 2 (b + 1 - s) (omega arith) in
        let before_end : b + 1 - 1 ≡ b = omega arith in
        let e1 =
          first_expanded known read_data_bins s start first last middle allocated l h1 fit1 read1 in
        let e2 =
          last_expanded known read_data_bins s start first last middle allocated l b
            (start + n1 + between) h4 fit2 read2 in
        (
          take (m.element_size * length (lows_of middle))
              (after_first known read_data_bins s start first last middle allocated l),
          rw (
            at_end, at_start, count, offset, size, known, three, before_end, at_last, last_off,
            distance, e1, e2,
          ),
          omega (
            arith,
            length-take (m.element_size * length (lows_of middle))
                (after_first known read_data_bins s start first last middle allocated l),
            length-after_first known read_data_bins s start first last middle allocated l,
          ),
        )
