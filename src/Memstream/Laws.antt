-- ===== src/Memstream/Laws.antt =====
-- What appending to and reading from a memstream do to the bytes behind the cursor.
use alacrity_adios.Prelude.{ℕ, ◌+◌, ◌^◌, ◌≤◌, ◌<◌, ◌≡◌, refl, sym, ap, ap₂, ◌∙◌, arith}
use alacrity_adios.Prelude.{List, [], ◌∷◌, ◌++◌, length, take, drop, All, append_assoc}
use alacrity_adios.Prelude.{length-append, length-take, length-drop, take_append, drop_append}
use alacrity_adios.Prelude.{drop-drop, take_all}
use alacrity_adios.Prelude.{none, some, ◌>>=◌, le→leb, lt→leb_false, leb, Bool-cases}
use alacrity_adios.Prelude.{inl, inr, leb→le}
use alacrity_adios.Memory.{le_bytes, array_bytes, length-le_bytes}
use alacrity_adios.Memory.{from_le-le_bytes}
use alacrity_adios.Memstream.{Memstream, append_bytes, append, read, append_array, array_of}
use alacrity_adios.Memstream.{skip}

-- The stream stands in its buffer, with `suffix` from its cursor to the end.
pub record At (ms : Memstream) (suffix : List ℕ) : Type 0 where
  pub ahead : drop ms.ptr ms.buf ≡ suffix
  pub inside : ms.ptr ≤ length ms.buf

read_ok :
    (ms : Memstream) (n : ℕ)
    → ms.ptr + n ≤ length ms.buf
    → read n ms ≡ some (take n (drop ms.ptr ms.buf), skip n ms)
unfolding read skip
read_ok ms n h = rw (le→leb _ _ h)

-- Reading hands over the bytes behind the cursor and moves it past them.
pub read-At :
    (ms : Memstream) (n : ℕ) (bytes rest : List ℕ)
    → n ≡ length bytes
    → At ms (bytes ++ rest)
    → (read n ms ≡ some (bytes, skip n ms)) × At (skip n ms) rest
unfolding skip
read-At ms n bytes rest e at =
    let room : ms.ptr + n ≤ length ms.buf =
      omega (arith, ap length at.ahead, length-drop ms.ptr ms.buf, length-append bytes rest) in
    (
      rw (read_ok ms n room, at.ahead, take_append n bytes rest e),
      record {
        ahead = sym (drop-drop n ms.ptr ms.buf) ∙ rw at.ahead (drop_append n bytes rest e);
        inside = room;
      },
    )

append_ok :
    (ms : Memstream) (bytes : List ℕ)
    → ms.ptr + length bytes ≤ length ms.buf
    → append_bytes bytes ms
      ≡ some (record {
        buf = take ms.ptr ms.buf ++ (bytes ++ drop (ms.ptr + length bytes) ms.buf);
        ptr = ms.ptr + length bytes;
      })
unfolding append_bytes
append_ok ms bytes h = rw (le→leb _ _ h)

append_full :
    (ms : Memstream) (bytes : List ℕ)
    → length ms.buf < ms.ptr + length bytes
    → append_bytes bytes ms ≡ none
unfolding append_bytes
append_full ms bytes h = rw (lt→leb_false _ _ h)

-- What the buffer holds after `xs` was written at `p`, cut behind `xs`.
abbrev written : List ℕ → List ℕ → ℕ → List ℕ
written buf xs p = take p buf ++ (xs ++ drop (p + length xs) buf)

module _ (buf xs : List ℕ) (p : ℕ) (fits : p + length xs ≤ length buf) where
  front : p + length xs ≡ length (take p buf ++ xs)
  front = omega (arith, length-append (take p buf) xs, length-take p buf)

  regroup : written buf xs p ≡ (take p buf ++ xs) ++ drop (p + length xs) buf
  regroup = sym (append_assoc (take p buf) xs (drop (p + length xs) buf))

  length-written : length (written buf xs p) ≡ length buf
  length-written = omega (
    arith,
    length-append (take p buf) (xs ++ drop (p + length xs) buf),
    length-append xs (drop (p + length xs) buf),
    length-take p buf,
    length-drop (p + length xs) buf,
  )

  take-written : take (p + length xs) (written buf xs p) ≡ take p buf ++ xs
  take-written = rw regroup (take_append _ _ _ front)

  drop-written :
      (n : ℕ) → drop (p + length xs + n) (written buf xs p) ≡ drop (p + length xs + n) buf
  drop-written n =
      sym (drop-drop n (p + length xs) (written buf xs p))
      ∙ ap (drop n) (rw regroup (drop_append _ _ _ front))
      ∙ drop-drop n (p + length xs) buf

  twice :
      (ys : List ℕ)
      → take (p + length xs) (written buf xs p)
          ++ (ys ++ drop (p + length xs + length ys) (written buf xs p))
        ≡ take p buf ++ ((xs ++ ys) ++ drop (p + length (xs ++ ys)) buf)
  twice ys =
      let e : p + length xs + length ys ≡ p + length (xs ++ ys) =
        omega (arith, length-append xs ys) in
      rw (take-written, drop-written (length ys), e)
        (append_assoc (take p buf) xs _ ∙ ap (λ t. take p buf ++ t) (sym (append_assoc xs ys _)))

append_bytes-append_bytes_both :
    (ms : Memstream) (xs ys : List ℕ)
    → ms.ptr + length xs + length ys ≤ length ms.buf
    → (append_bytes xs ms >>= λ ms'. append_bytes ys ms') ≡ append_bytes (xs ++ ys) ms
append_bytes-append_bytes_both ms xs ys h =
    let fits : ms.ptr + length xs ≤ length ms.buf = omega arith in
    rw (append_ok ms xs fits) (
      append_ok _ ys (rw (length-written ms.buf xs ms.ptr fits) h)
      ∙ ap₂ (λ (b : List ℕ) (n : ℕ). some (record { buf = b; ptr = n }))
          (twice ms.buf xs ms.ptr fits ys) (omega (arith, length-append xs ys))
      ∙ sym (append_ok ms (xs ++ ys) (omega (arith, length-append xs ys))))

-- Two appends in a row are one append of both runs of bytes, also where there is no room.
pub append_bytes-append_bytes :
    (ms : Memstream) (xs ys : List ℕ)
    → (append_bytes xs ms >>= λ ms'. append_bytes ys ms') ≡ append_bytes (xs ++ ys) ms
append_bytes-append_bytes ms xs ys = elim (Bool-cases (leb (ms.ptr + length xs) (length ms.buf))) [
  | inl first ↦
      let fits : ms.ptr + length xs ≤ length ms.buf = leb→le _ _ first in
      elim (Bool-cases (leb (ms.ptr + length xs + length ys) (length ms.buf))) [
        | inl both ↦ append_bytes-append_bytes_both ms xs ys (leb→le _ _ both)
        | inr full ↦
            let over : length ms.buf < ms.ptr + length xs + length ys = ground arith in
            rw (append_ok ms xs fits) (
              append_full _ ys (rw (length-written ms.buf xs ms.ptr fits) over)
              ∙ sym (append_full ms (xs ++ ys) (omega (arith, length-append xs ys))))
      ]
  | inr full ↦
      let over : length ms.buf < ms.ptr + length xs = ground arith in
      rw (append_full ms xs over)
        (sym (append_full ms (xs ++ ys) (omega (arith, length-append xs ys))))
]

-- The stream after an append that has room, and the same stream moved back to where it began.
abbrev pub appended : Memstream → List ℕ → Memstream
appended ms bytes = record { buf = written ms.buf bytes ms.ptr; ptr = ms.ptr + length bytes }

-- An append that has room succeeds, and what it wrote stands where the cursor was.
pub append_bytes-At :
    (ms : Memstream) (bytes : List ℕ)
    → ms.ptr + length bytes ≤ length ms.buf
    → (append_bytes bytes ms ≡ some (appended ms bytes))
      × At
          (record (appended ms bytes) { ptr = ms.ptr })
          (bytes ++ drop (ms.ptr + length bytes) ms.buf)
append_bytes-At ms bytes h = (
  append_ok ms bytes h,
  record {
    ahead = drop_append ms.ptr (take ms.ptr ms.buf) _ (omega (arith, length-take ms.ptr ms.buf));
    inside = rw (length-written ms.buf bytes ms.ptr h) (omega arith);
  },
)

pub append_array-append :
    (ms : Memstream) (xs : List ℕ) (size count : ℕ)
    → length xs ≡ count
    → append_array xs size count ms ≡ append_bytes (array_bytes size xs) ms
unfolding append_array
append_array-append ms xs size count e =
    rw (le→leb count (length xs) (omega arith), take_all count xs (sym e))

pub array_of-array_bytes :
    (w : ℕ) (ns : List ℕ)
    → All (λ n. n < 256 ^ w) ns
    → array_of w (length ns) (array_bytes w ns) ≡ ns
unfolding array_of array_bytes
array_of-array_bytes w [] h = refl
array_of-array_bytes w (n ∷ ns) (hn, hns) =
    let e : w ≡ length (le_bytes w n) = sym (length-le_bytes w n) in
    rw (
      take_append w (le_bytes w n) (array_bytes w ns) e,
      drop_append w (le_bytes w n) (array_bytes w ns) e,
      from_le-le_bytes w n hn,
      array_of-array_bytes w ns hns,
    )

pub append_take :
    (ms : Memstream) (src : List ℕ) (len : ℕ)
    → length src ≡ len
    → append src len ms ≡ append_bytes src ms
unfolding append
append_take ms src len e = rw (le→leb len (length src) (omega arith), take_all len src (sym e))
