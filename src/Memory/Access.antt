-- ===== src/Memory/Access.antt =====
-- Reading and writing some bytes at an offset into a buffer, as memcpy and fread do. Leaving the
-- buffer is `none`.
use alacrity_adios.Prelude.{ℕ, zero, suc, ◌+◌, ◌<◌, ◌^◌, ◌≡◌, refl, sym, arith}
use alacrity_adios.Prelude.{leb, if◌then◌else◌, List, [], ◌∷◌, ◌++◌, length, take, drop, All}
use alacrity_adios.Prelude.{Option, none, some, ◌>>=◌, le→leb, length-append, append_assoc}
use alacrity_adios.Prelude.{take_append, drop_append}
use alacrity_adios.Memory.{le_bytes, from_le, array_bytes, length-le_bytes, from_le-le_bytes}

unfoldable pub read_bytes : ℕ → ℕ → List ℕ → Option (List ℕ)
read_bytes offset count buffer =
    if leb (offset + count) (length buffer) then some (take count (drop offset buffer)) else none

unfoldable pub write_bytes : ℕ → List ℕ → List ℕ → Option (List ℕ)
write_bytes offset bytes buffer =
    if leb (offset + length bytes) (length buffer)
    then some (take offset buffer ++ (bytes ++ drop (offset + length bytes) buffer))
    else none

-- An array of `count` integers of `width` bytes, read through a pointer to them.
unfoldable pub elements : ℕ → ℕ → List ℕ → Option (List ℕ)
elements width zero bytes = some []
elements width (suc count) bytes = read_bytes 0 width bytes >>= λ first.
    elements width count (drop width bytes) >>= λ others. some (from_le first ∷ others)

pub read_bytes-append :
    (before bytes behind : List ℕ)
    → read_bytes (length before) (length bytes) (before ++ (bytes ++ behind)) ≡ some bytes
unfolding read_bytes
read_bytes-append before bytes behind = rw (
  le→leb (length before + length bytes) (length (before ++ (bytes ++ behind)))
      (omega (arith, length-append before (bytes ++ behind), length-append bytes behind)),
  drop_append (length before) before (bytes ++ behind) refl,
  take_append (length bytes) bytes behind refl,
)

pub write_bytes-append :
    (before old bytes behind : List ℕ)
    → length old ≡ length bytes
    → write_bytes (length before) bytes (before ++ (old ++ behind))
      ≡ some (before ++ (bytes ++ behind))
unfolding write_bytes
write_bytes-append before old bytes behind same =
    let there : length before + length bytes ≡ length (before ++ old) =
      omega (arith, length-append before old, same) in
    rw (
      le→leb (length before + length bytes) (length (before ++ (old ++ behind)))
          (omega (arith, length-append before (old ++ behind), length-append old behind, same)),
      take_append (length before) before (old ++ behind) refl,
      ← append_assoc before old behind,
      drop_append (length before + length bytes) (before ++ old) behind there,
    )

pub elements-array_bytes :
    (width : ℕ) (ns behind : List ℕ)
    → All (λ n. n < 256 ^ width) ns
    → elements width (length ns) (array_bytes width ns ++ behind) ≡ some ns
unfolding elements array_bytes
elements-array_bytes width [] behind fit = refl
elements-array_bytes width (n ∷ ns) behind (small, fit) =
    let l = length-le_bytes width n in
    let first : read_bytes 0 width (le_bytes width n ++ (array_bytes width ns ++ behind))
        ≡ some (le_bytes width n) =
      rw l at (read_bytes-append [] (le_bytes width n) (array_bytes width ns ++ behind)) in
    rw (
      append_assoc (le_bytes width n) (array_bytes width ns) behind,
      first,
      drop_append width (le_bytes width n) (array_bytes width ns ++ behind) (sym l),
      elements-array_bytes width ns behind fit,
      from_le-le_bytes width n small,
    )
