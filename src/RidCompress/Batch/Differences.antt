-- ===== src/RidCompress/Batch/Differences.antt =====
-- The differences of neighbouring row ids: adding them up again gives the ids, and adding a number
-- to every id leaves the differences as they are.
use alacrity_adios.Prelude.{ℕ, suc, ◌+◌, ◌-◌, ◌^◌, ◌<◌, ◌≡◌, refl, sym, ap, ap₂}
use alacrity_adios.Prelude.{arith, Bool-cases, inl, inr, ◌==◌, u32}
use alacrity_adios.Prelude.{List, [], ◌∷◌, ◌++◌, length, All, map, replicate}
use alacrity_adios.Prelude.{take_append}
use alacrity_adios.RidCompress.FixedLength.{batch_size}
use alacrity_adios.RidCompress.Batch.{deltas_after, deltas_of, sums_after, prefix_sums, add_frame}
use alacrity_adios.RidCompress.Batch.{add_to_first}

-- Row ids in increasing order, each in 32 bits.
unfoldable pub IsAbove : ℕ → List ℕ → Type 0
IsAbove previous [] = Unit
IsAbove previous (x ∷ xs) = (previous < x) × (x < 2 ^ 32) × IsAbove x xs

unfoldable pub IsAscending : List ℕ → Type 0
unfolding IsAbove
IsAscending [] = Unit
IsAscending (x ∷ xs) = (x < 2 ^ 32) × IsAbove x xs

unfoldable pub shift_ids : ℕ → List ℕ → List ℕ
shift_ids rid_offset = map (λ r. u32 (r + rid_offset))

pub length-shift_ids : (rid_offset : ℕ) (ys : List ℕ) → length (shift_ids rid_offset ys) ≡ length ys
unfolding shift_ids
length-shift_ids rid_offset [] = refl
length-shift_ids rid_offset (y ∷ ys) = ap suc (length-shift_ids rid_offset ys)

pub IsAbove-All : (previous : ℕ) (xs : List ℕ) → IsAbove previous xs → All (λ x. x < 2 ^ 32) xs
unfolding IsAbove
IsAbove-All previous [] a = tt
IsAbove-All previous (x ∷ xs) (p, q, a) = (q, IsAbove-All x xs a)

pub length-deltas_after : (p : ℕ) (ys : List ℕ) → length (deltas_after p ys) ≡ length ys
unfolding deltas_after
length-deltas_after p [] = refl
length-deltas_after p (y ∷ ys) = ap suc (length-deltas_after y ys)

pub deltas_after-All : (p : ℕ) (ys : List ℕ) → All (λ d. d < 2 ^ 32) (deltas_after p ys)
unfolding deltas_after
deltas_after-All p [] = tt
deltas_after-All p (y ∷ ys) = (omega arith, deltas_after-All y ys)

pub deltas_after_positive :
    (p : ℕ) (ys : List ℕ) → p < 2 ^ 32 → IsAbove p ys → All (λ d. 0 < d) (deltas_after p ys)
unfolding deltas_after IsAbove
deltas_after_positive p [] h a = tt
deltas_after_positive p (y ∷ ys) h (q, r, a) = (omega arith, deltas_after_positive y ys r a)

-- Also where the sum wraps around.
pub deltas_after-shift_ids :
    (offset p : ℕ) (ys : List ℕ)
    → p < 2 ^ 32
    → All (λ y. y < 2 ^ 32) ys
    → deltas_after (u32 (p + offset)) (shift_ids offset ys) ≡ deltas_after p ys
unfolding deltas_after shift_ids
deltas_after-shift_ids offset p [] h a = refl
deltas_after-shift_ids offset p (y ∷ ys) h (q, a) =
    ap₂ ◌∷◌ (omega arith) (deltas_after-shift_ids offset y ys q a)

sums_after-deltas_after :
    (p : ℕ) (ys : List ℕ)
    → p < 2 ^ 32
    → All (λ y. y < 2 ^ 32) ys
    → sums_after p (deltas_after p ys) ≡ ys
unfolding sums_after deltas_after
sums_after-deltas_after p [] h a = refl
sums_after-deltas_after p (y ∷ ys) h (q, a) =
    let back : u32 (u32 (y + 2 ^ 32 - p) + p) ≡ y = omega arith in
    rw back (ap (λ t. y ∷ t) (sums_after-deltas_after y ys q a))

-- The sums before the frame of reference is added.
framed_sums :
    (frame s p : ℕ) (ys : List ℕ)
    → u32 (s + frame) ≡ p
    → s < 2 ^ 32
    → frame < 2 ^ 32
    → All (λ y. y < 2 ^ 32) ys
    → map (λ d. u32 (d + frame)) (sums_after s (deltas_after p ys)) ≡ ys
unfolding sums_after deltas_after
framed_sums frame s p [] e h f a = refl
framed_sums frame s p (y ∷ ys) e h f (q, a) =
    let s' = u32 (u32 (y + 2 ^ 32 - p) + s) in
    let back : u32 (s' + frame) ≡ y = omega arith in
    ap₂ ◌∷◌ back (framed_sums frame s' y ys back (omega arith) f a)

module _ (x : ℕ) (xs : List ℕ) (h : x < 2 ^ 32) (a : All (λ y. y < 2 ^ 32) xs) where
  -- What the two ways of decoding do with the differences.
  pub add_frame-prefix_sums : add_frame x (prefix_sums (0 ∷ deltas_after x xs)) ≡ x ∷ xs
  unfolding add_frame prefix_sums
  add_frame-prefix_sums = elim (Bool-cases (x == 0)) [
    | inl none_there ↦
        let e : x ≡ 0 = ground arith in
        rw none_there (ap₂ ◌∷◌ (sym e) (rw e (sums_after-deltas_after 0 xs (omega arith) a)))
    | inr some_there ↦
        let start : u32 (0 + x) ≡ x = omega arith in
        rw some_there (ap₂ ◌∷◌ start (framed_sums x 0 x xs start (omega arith) h a))
  ]

  pub prefix_sums-add_to_first : prefix_sums (add_to_first x (0 ∷ deltas_after x xs)) ≡ x ∷ xs
  unfolding add_to_first prefix_sums
  prefix_sums-add_to_first =
      let start : u32 (0 + x) ≡ x = omega arith in
      rw start (ap (λ t. x ∷ t) (sums_after-deltas_after x xs h a))

  -- The array of differences of a batch, whatever is behind the significant ids.
  pub deltas_of-parts :
      (pad : List ℕ) (n : ℕ)
      → n ≡ length (x ∷ xs)
      → deltas_of ((x ∷ xs) ++ pad) n ≡ 0 ∷ (deltas_after x xs ++ replicate (batch_size - n) 0)
  unfolding deltas_of
  deltas_of-parts pad n e =
      let l : suc (length (deltas_after x xs)) ≡ n = omega (arith, e, length-deltas_after x xs) in
      rw (take_append n (x ∷ xs) pad e, l)
