-- ===== src/Convert/Translate.antt =====
-- `ALTranslateRIDs` of src/ALRIDTranslate.c, which adds an offset, given by its 32 bits, to every
-- row id of an index in place. A failed translation of a bin, of which the code ignores the result,
-- is `none`.
use alacrity_adios.Prelude.{ℕ, zero, suc, ◌+◌, ◌-◌, ◌^◌}
use alacrity_adios.Prelude.{leb, if◌then◌else◌, u32, u64, List, ◌++◌, length, take, drop}
use alacrity_adios.Prelude.{get_elem?, Option, none, some, ◌>>=◌}
use alacrity_adios.Memory.{le_bytes, from_le}
use alacrity_adios.Types.{AlError, IndexForm, Metadata}
use alacrity_adios.RidCompress.Interface.{update_rids}

-- The loop over `rids` row ids.
unfoldable pub translate_ids : ℕ → ℕ → List ℕ → Option (List ℕ)
translate_ids rid_offset zero index = some index
translate_ids rid_offset (suc rids) index =
    if leb 4 (length index)
    then (translate_ids rid_offset rids (drop 4 index) >>= λ rest.
        some (le_bytes 4 (u32 (from_le (take 4 index) + rid_offset)) ++ rest))
    else none

-- The bytes from `this` on, `len` of them.
unfoldable pub translate_part : ℕ → ℕ → ℕ → List ℕ → Option (List ℕ)
translate_part rid_offset this len index =
    if leb (this + len) (length index)
    then (update_rids (take len (drop this index)) rid_offset >>= λ updated.
        some (take this index ++ (updated ++ drop (this + len) index)))
    else none

-- The loop over the bins from `bin` on.
unfoldable pub translate_bins : ℕ → List ℕ → ℕ → ℕ → List ℕ → Option (List ℕ)
translate_bins rid_offset starts zero bin index = some index
translate_bins rid_offset starts (suc bins) bin index = get_elem? starts bin >>= λ this.
    get_elem? starts (bin + 1) >>= λ next.
    translate_part rid_offset this (u64 (next + 2 ^ 64 - this)) index
    >>= translate_bins rid_offset starts bins (bin + 1)

unfoldable pub translate_form : IndexForm → Metadata → List ℕ → ℕ → Option (AlError × List ℕ)
translate_form IndexForm.inverted_index m index rid_offset =
    translate_ids rid_offset m.partition_length index >>= λ translated.
    some (AlError.error_none, translated)
translate_form IndexForm.compressed_inverted_index m index rid_offset =
    translate_bins rid_offset m.index_meta.index_bin_start_offsets m.bin_layout.num_bins 0 index
    >>= λ translated. some (AlError.error_none, translated)
translate_form _ m index rid_offset = some (AlError.error_something, index)

unfoldable pub translate_rids : Metadata → List ℕ → ℕ → Option (AlError × List ℕ)
translate_rids m index rid_offset = translate_form m.index_meta.index_form m index rid_offset
