-- ===== src/Memstream/Sequence.antt =====
-- Serialisers and parsers as sequences of memstream operations: the two `do` notations, and the
-- rules that make a sequence one append, or one read, of the bytes of its parts.
use alacrity_adios.Prelude.{ℕ, ◌+◌, ◌*◌, ◌^◌, ◌<◌, ◌≡◌, refl, sym, ap, ◌∙◌, arith, some}
use alacrity_adios.Prelude.{
  List, [], ◌∷◌, ◌++◌, length, All, append_assoc, append-nil, length-append, Option, none,
}
use mathlib.Core.Path.{fun_ext}
use alacrity_adios.Prelude
use alacrity_adios.Memory.{le_bytes, from_le-le_bytes, length-le_bytes, array_bytes}
use alacrity_adios.Memory.{length-array_bytes}
use alacrity_adios.Memstream.{Memstream, Writer, Reader, append_bytes, append, append_array}
use alacrity_adios.Memstream.{append_int, read, read_int, read_array, skip}
use alacrity_adios.Memstream.Laws.{At, append_bytes-append_bytes, append_array-append, append_take}
use alacrity_adios.Memstream.Laws.{read-At, array_of-array_bytes}

infixl 5 ◌>>◌ ◌>>=◌
abbrev pub ◌>>◌ : Writer → Writer → Writer
◌>>◌ f g ms = Prelude.◌>>=◌ (f ms) g

abbrev pub nothing : Writer
nothing ms = some ms

abbrev pub ◌>>=◌ {ℓ κ} : {A : Type ℓ} {B : Type κ} → Reader A → (A → Reader B) → Reader B
◌>>=◌ f g ms = Prelude.◌>>=◌ (f ms) λ (x, ms'). g x ms'

abbrev pub return {ℓ} : {A : Type ℓ} → A → Reader A
return x ms = some (x, ms)

-- `f` appends exactly `bytes`: it fails where they do not fit, and only there.
abbrev pub Writes : Writer → List ℕ → Type 0
Writes f bytes = (ms : Memstream) → f ms ≡ append_bytes bytes ms

-- `f` takes exactly `bytes` off the stream and makes `x` of them.
abbrev pub Reads {ℓ} : {A : Type ℓ} → Reader A → List ℕ → A → Type ℓ
Reads f bytes x =
    (ms : Memstream) (rest : List ℕ)
    → At ms (bytes ++ rest)
    → f ms ≡ some (x, skip (length bytes) ms)

pub Writes->> :
    (f g : Writer) (xs ys : List ℕ) → Writes f xs → Writes g ys → Writes (f >> g) (xs ++ ys)
Writes->> f g xs ys hf hg ms =
    ap (λ r. Prelude.◌>>=◌ r g) (hf ms)
    ∙ ap (λ k. Prelude.◌>>=◌ (append_bytes xs ms) k) (fun_ext hg)
    ∙ append_bytes-append_bytes ms xs ys

pub append_int-Writes : (w n : ℕ) → Writes (append_int w n) (le_bytes w n)
unfolding append_int
append_int-Writes w n ms = refl

pub append_array-Writes :
    (xs : List ℕ) (size count : ℕ)
    → length xs ≡ count
    → Writes (append_array xs size count) (array_bytes size xs)
append_array-Writes xs size count e ms = append_array-append ms xs size count e

pub Writes->>-nothing : (f : Writer) (xs : List ℕ) → Writes f xs → Writes (f >> nothing) (xs ++ [])
Writes->>-nothing f xs h ms =
    >>=-some (f ms) ∙ h ms ∙ ap (λ t. append_bytes t ms) (sym (append-nil xs))
  where
    >>=-some : (r : Option Memstream) → Prelude.◌>>=◌ r nothing ≡ r
    >>=-some none = refl
    >>=-some (some m) = refl

pub append-Writes : (src : List ℕ) (len : ℕ) → length src ≡ len → Writes (append src len) src
append-Writes src len e ms = append_take ms src len e

skip-skip : (m n : ℕ) (ms : Memstream) → skip m (skip n ms) ≡ skip (n + m) ms
unfolding skip
skip-skip m n ms = ap (λ (t : ℕ). record ms { ptr = t }) (omega arith)

At-skip :
    (bytes rest : List ℕ) (ms : Memstream)
    → At ms (bytes ++ rest)
    → At (skip (length bytes) ms) rest
At-skip bytes rest ms at = (read-At ms (length bytes) bytes rest refl at).1

pub Reads->>= {ℓ κ} :
    {A : Type ℓ} {B : Type κ} (f : Reader A) (g : A → Reader B) (xs ys : List ℕ) (x : A) (y : B)
    → Reads f xs x
    → Reads (g x) ys y
    → Reads (f >>= g) (xs ++ ys) y
Reads->>= f g xs ys x y hf hg ms rest at =
    let at' : At ms (xs ++ (ys ++ rest)) = rw (append_assoc xs ys rest) at at in
    rw (hf ms (ys ++ rest) at', hg (skip (length xs) ms) rest (At-skip xs (ys ++ rest) ms at'))
      (ap (λ t. some (y, t))
        (skip-skip (length ys) (length xs) ms
          ∙ ap (λ (t : ℕ). skip t ms) (sym (length-append xs ys))))

pub return-Reads {ℓ} : {A : Type ℓ} (x : A) → Reads (return x) [] x
unfolding skip
return-Reads x ms rest at = ap (λ (t : ℕ). some (x, record ms { ptr = t })) (omega arith)

pub read_int-Reads : (w n : ℕ) → n < 256 ^ w → Reads (read_int w) (le_bytes w n) n
unfolding read_int
read_int-Reads w n h ms rest at =
    let e : w ≡ length (le_bytes w n) = sym (length-le_bytes w n) in
    rw ((read-At ms w (le_bytes w n) rest e at).0, from_le-le_bytes w n h, ← e)

pub read_array-Reads :
    (w count : ℕ) (ns : List ℕ)
    → length ns ≡ count
    → All (λ n. n < 256 ^ w) ns
    → Reads (read_array w count) (array_bytes w ns) ns
unfolding read_array
read_array-Reads w count ns e h ms rest at =
    let len : w * count ≡ length (array_bytes w ns) = rw (length-array_bytes w ns, e) in
    rw ((read-At ms (w * count) (array_bytes w ns) rest len at).0, ← len, ← e)
      (rw (array_of-array_bytes w ns h))

pub read-Reads : (n : ℕ) (bytes : List ℕ) → length bytes ≡ n → Reads (read n) bytes bytes
read-Reads n bytes e ms rest at = rw ((read-At ms n bytes rest (sym e) at).0, e)
