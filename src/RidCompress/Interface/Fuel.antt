-- ===== src/RidCompress/Interface/Fuel.antt =====
-- The outer loop of `decode_rids` and `adios_decode_deltas` ends: every list takes at least four
-- bytes of the input, so that the fuel of the model never runs out.
use alacrity_adios.Prelude.{ℕ, zero, suc, ◌≤◌, ◌<◌, ◌≡◌, refl, ap, arith}
use alacrity_adios.Prelude.{◌==◌, ◌%◌, leb, leb→le, List, [], ◌∷◌, length, length-drop, take, drop}
use alacrity_adios.Prelude.{Option, some, some_bind, some_if, Option-cases, inl, inr}
use alacrity_adios.Memory.{from_le}
use alacrity_adios.RidCompress.FixedLength.{batch_size}
use alacrity_adios.RidCompress.Batch.{Decoded, decode_new, decode_new_to_deltas}
use alacrity_adios.RidCompress.Interface.{decode_one, decode_remainder, decode_batches, decode_list}
use alacrity_adios.RidCompress.Interface.{decode_lists, decode_rids, decode_deltas, batch_count}
use mathlib.Core.Option.{some-injective}

-- A step does not lengthen the buffer.
Shortens : (List ℕ → Option (List ℕ × List ℕ)) → Type 0
Shortens step =
    (buffer : List ℕ) (r : List ℕ × List ℕ) → step buffer ≡ some r → length r.1 ≤ length buffer

module _ (decode_batch : List ℕ → Option Decoded) where
  decode_one-Shortens : (expected : ℕ) → Shortens (decode_one decode_batch expected)
  unfolding Shortens decode_one
  decode_one-Shortens expected buffer r h =
      let (d, _, made) = some_bind (decode_batch buffer) _ h in
      let (_, e) = some_if (length d.values == expected) _ made in
      let shorter = length-drop d.buffer_size buffer in
      let same = ap (λ (s : List ℕ × List ℕ). length s.1) (some-injective _ _ e) in
      omega (arith, shorter, same)

  decode_remainder-Shortens : (remaining : ℕ) → Shortens (decode_remainder decode_batch remaining)
  unfolding Shortens decode_remainder
  decode_remainder-Shortens zero buffer r h =
      omega (arith, ap (λ (s : List ℕ × List ℕ). length s.1) (some-injective _ _ h))
  decode_remainder-Shortens (suc remaining) buffer r h =
      decode_one-Shortens (suc remaining) buffer r h

  decode_batches-Shortens :
      (batches remaining : ℕ) → Shortens (decode_batches decode_batch batches remaining)
  unfolding Shortens decode_batches
  decode_batches-Shortens zero remaining buffer r h = decode_remainder-Shortens remaining buffer r h
  decode_batches-Shortens (suc batches) remaining buffer r h =
      let ((values, rest), one, made) = some_bind (decode_one decode_batch batch_size buffer) _ h in
      let ((more, behind), others, e) =
        some_bind (decode_batches decode_batch batches remaining rest) _ made in
      let first = decode_one-Shortens batch_size buffer (values, rest) one in
      let then_more = decode_batches-Shortens batches remaining rest (more, behind) others in
      let same = ap (λ (s : List ℕ × List ℕ). length s.1) (some-injective _ _ e) in
      omega (arith, first, then_more, same)

  decode_list-shorter :
      (input : List ℕ) (r : List ℕ × List ℕ)
      → decode_list decode_batch input ≡ some r
      → length r.1 < length input
  unfolding decode_list Shortens
  decode_list-shorter input r h =
      let data_size = from_le (take 4 input) in
      let (has_count, e) = some_if (leb 4 (length input)) _ h in
      let shorter =
        decode_batches-Shortens (batch_count data_size) (data_size % batch_size) (drop 4 input) r
          e in
      omega (arith, shorter, length-drop 4 input, leb→le _ _ has_count)

  same_for_fuels :
      (fuel fuel' : ℕ) (input : List ℕ)
      → length input ≤ fuel
      → length input ≤ fuel'
      → decode_lists decode_batch fuel input ≡ decode_lists decode_batch fuel' input
  unfolding decode_lists
  same_for_fuels fuel fuel' [] h h' = refl
  same_for_fuels zero fuel' (b ∷ bs) h h' = absurd (omega (arith, h))
  same_for_fuels (suc fuel) zero (b ∷ bs) h h' = absurd (omega (arith, h'))
  same_for_fuels (suc fuel) (suc fuel') (b ∷ bs) h h' =
      elim (Option-cases (decode_list decode_batch (b ∷ bs))) [
        | inl out ↦ rw out
        | inr ((values, rest), read) ↦
            let shorter = decode_list-shorter (b ∷ bs) (values, rest) read in
            rw (
              read,
              same_for_fuels fuel fuel' rest (omega (arith, h, shorter))
                  (omega (arith, h', shorter)),
            )
      ]

-- With any number of turns that is at least the length of the input, the loop over the lists of
-- the input gives the same, for row ids and for differences: the loop ends by itself.
pub decode_lists_enough_fuel :
    (input : List ℕ) (fuel : ℕ)
    → length input ≤ fuel
    → (decode_lists decode_new fuel input ≡ decode_rids input)
      × (decode_lists decode_new_to_deltas fuel input ≡ decode_deltas input)
unfolding decode_rids decode_deltas
decode_lists_enough_fuel input fuel h = (
  same_for_fuels decode_new fuel (length input) input h (omega arith),
  same_for_fuels decode_new_to_deltas fuel (length input) input h (omega arith),
)
