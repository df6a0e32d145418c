-- ===== src/Memstream.antt =====
-- src/memstream/memstream.c and src/include/alacrity-memstream.h: a cursor over a buffer. The
-- buffer is the list of its bytes and the pointer `ptr` is kept as its distance from `buf`. The
-- source checks no bounds; an access that leaves the buffer is `none` here.
pub mod Laws
pub mod Sequence
use alacrity_adios.Prelude.{ℕ, zero, suc, ◌+◌, ◌*◌, if◌then◌else◌, leb, Option, none, some, ◌>>=◌}
use alacrity_adios.Prelude.{List, [], ◌∷◌, ◌++◌, length, take, drop, replicate}
use alacrity_adios.Memory.{le_bytes, from_le, array_bytes}

pub record Memstream : Type 0 where
  pub buf : List ℕ
  pub ptr : ℕ

-- `memstreamInit` and `memstreamInitReturn`.
unfoldable pub init : List ℕ → Memstream
init buf = record { buf = buf; ptr = 0 }

unfoldable pub reset : Memstream → Memstream
reset ms = record ms { ptr = 0 }

-- An operation that appends, and one that reads a value; a `do` block runs them in turn.
abbrev pub Writer : Type 0
Writer = Memstream → Option Memstream

abbrev pub Reader {ℓ} : Type ℓ → Type ℓ
Reader A = Memstream → Option (A × Memstream)

-- `memcpy(ms->ptr, data, len)` with `len` the number of bytes of `bytes`.
unfoldable pub append_bytes : List ℕ → Writer
append_bytes bytes ms =
    if leb (ms.ptr + length bytes) (length ms.buf)
    then some (record {
      buf = take ms.ptr ms.buf ++ (bytes ++ drop (ms.ptr + length bytes) ms.buf);
      ptr = ms.ptr + length bytes;
    })
    else none

-- `memstreamAppend`; `src` is what `data` points to, and reading past it is undefined.
unfoldable pub append : List ℕ → ℕ → Writer
append src len ms = if leb len (length src) then append_bytes (take len src) ms else none

-- `memstreamAppendArray` over `count` integers of `size` bytes each.
unfoldable pub append_array : List ℕ → ℕ → ℕ → Writer
append_array xs size count ms =
    if leb count (length xs) then append_bytes (array_bytes size (take count xs)) ms else none

-- `memstreamRead`.
unfoldable pub read : ℕ → Reader (List ℕ)
read len ms =
    if leb (ms.ptr + len) (length ms.buf)
    then some (take len (drop ms.ptr ms.buf), record ms { ptr = ms.ptr + len })
    else none

-- The first `n` integers of `w` bytes that a block of memory holds.
unfoldable pub array_of : ℕ → ℕ → List ℕ → List ℕ
array_of w zero bytes = []
array_of w (suc n) bytes = from_le (take w bytes) ∷ array_of w n (drop w bytes)

-- `memstreamReadArray` into an array of `count` integers of `size` bytes.
unfoldable pub read_array : ℕ → ℕ → Reader (List ℕ)
read_array size count ms = do
  (bytes, ms') ← read (size * count) ms
  some (array_of size count bytes, ms')

-- `memstreamAppendChar`, `..Int`, `..Uint16`, `..Int64`, `..Uint64` and the functions that
-- MAKE_STATIC_APPEND_AND_READ_FUNCS makes, by the size of the type.
unfoldable pub append_int : ℕ → ℕ → Writer
append_int w datum = append_bytes (le_bytes w datum)

unfoldable pub read_int : ℕ → Reader ℕ
read_int w ms = do (bytes, ms') ← read w ms; some (from_le bytes, ms')

unfoldable pub skip : ℕ → Memstream → Memstream
skip len ms = record ms { ptr = ms.ptr + len }

unfoldable pub fill : ℕ → ℕ → Writer
fill val num = append_bytes (replicate num val)

unfoldable pub get_position : Memstream → ℕ
get_position ms = ms.ptr

-- `memstreamDestroy`: both pointers become NULL, which leaves no byte to reach.
unfoldable pub destroy : Memstream → Memstream
destroy ms = record { buf = []; ptr = 0 }
