-- ===== src/Encode/Scanning.antt =====
-- The second scan: the bin values that occur are written in order with their end offsets, and the
-- count of each is replaced by its bin id.
use alacrity_adios.Prelude.{ℕ, suc, ◌+◌, ◌^◌, ◌<◌, ◌≡◌, ◌≢◌, refl, sym, ap, ◌∙◌, arith}
use alacrity_adios.Prelude.{◌==◌, if◌then◌else◌, List, [], ◌∷◌, ◌++◌, length}
use alacrity_adios.Prelude.{All, inl, inr, Bool-cases, append_assoc, append-nil}
use alacrity_adios.Encode.{Scan, update, scan_value, scan_values}
use alacrity_adios.Encode.Tables.{Distinct, Has, Has-ne, present, total, ends}
use alacrity_adios.Encode.Tables.{present-update_other, total-update_other, ends-update_other}
use alacrity_adios.Encode.Tables.{present-All}
use native.Mathlib.Nat.{mod-eq_of_lt}

-- The place of the first `v` in the list.
unfoldable pub position : ℕ → List ℕ → ℕ
position v [] = 0
position v (w ∷ ws) = if w == v then 0 else suc (position v ws)

-- What the scan of `vs` makes of `s`.
pub record IsScanned (vs : List ℕ) (s r : Scan) : Type 0 where
  pub values : r.bin_values ≡ s.bin_values ++ present s.table vs
  pub offsets :
      r.bin_start_offsets
      ≡ s.bin_start_offsets ++ ends s.table s.cur_end_offset (present s.table vs)
  pub others : (v : ℕ) → All (λ u. u ≢ v) vs → r.table v ≡ s.table v
  pub ids :
      (v : ℕ)
      → Has v vs
      → 0 < s.table v
      → r.table v ≡ s.cur_bin_id + position v (present s.table vs)

skipped :
    (v : ℕ) (vs : List ℕ) (s r : Scan) → s.table v ≡ 0 → IsScanned vs s r → IsScanned (v ∷ vs) s r
unfolding present
skipped v vs s r absent w = record {
  values = rw absent w.values;
  offsets = rw absent w.offsets;
  others = λ u (ne, a). w.others u a;
  ids = λ u m some. rw absent (ids_behind u m some);
}
  where
    ids_behind :
        (u : ℕ)
        → Has u (v ∷ vs)
        → 0 < s.table u
        → r.table u ≡ s.cur_bin_id + position u (present s.table vs)
    ids_behind u (inl e) some = absurd (omega (arith, ap s.table e))
    ids_behind u (inr m) some = w.ids u m some

abbrev entered : ℕ → Scan → Scan
entered v s = record {
  cur_bin_id = s.cur_bin_id + 1;
  cur_end_offset = s.cur_end_offset + s.table v;
  bin_values = s.bin_values ++ (v ∷ []);
  bin_start_offsets = s.bin_start_offsets ++ ((s.cur_end_offset + s.table v) ∷ []);
  table = update s.table v s.cur_bin_id;
}

position_self : (v : ℕ) (ws : List ℕ) → position v (v ∷ ws) ≡ 0
unfolding position
position_self v ws = ground arith

position-ne : (u v : ℕ) (ws : List ℕ) → u ≢ v → position u (v ∷ ws) ≡ suc (position u ws)
unfolding position
position-ne u v ws ne = ground arith

module _ (v : ℕ) (vs : List ℕ) (s r : Scan) (fresh : All (λ u. u ≢ v) vs) (some : s.table v ≢ 0)
    (w : IsScanned vs (entered v s) r) where
  listed : present s.table (v ∷ vs) ≡ v ∷ present s.table vs
  unfolding present
  listed = ground arith

  still : present (update s.table v s.cur_bin_id) vs ≡ present s.table vs
  still = present-update_other s.table v s.cur_bin_id vs fresh

  own_id : r.table v ≡ s.cur_bin_id
  own_id = w.others v fresh ∙ ground arith

  ids_after :
      (u : ℕ)
      → Has u (v ∷ vs)
      → 0 < s.table u
      → r.table u ≡ s.cur_bin_id + position u (v ∷ present s.table vs)
  ids_after u (inl e) h =
      rw (← e) (rw (position_self v (present s.table vs)) (own_id ∙ omega arith))
  ids_after u (inr m) h =
      let ne : u ≢ v = Has-ne v u vs fresh m in
      let same : update s.table v s.cur_bin_id u ≡ s.table u = ground arith in
      omega (
        arith,
        w.ids u m (rw same h),
        ap (position u) still,
        position-ne u v (present s.table vs) ne,
      )

  entered-IsScanned : IsScanned (v ∷ vs) s r
  unfolding ends
  entered-IsScanned = record {
    values =
        rw listed (w.values ∙ rw still (append_assoc s.bin_values (v ∷ []) (present s.table vs)));
    offsets = rw listed (
        w.offsets
        ∙ rw
            (
              still,
              ends-update_other s.table v s.cur_bin_id (s.cur_end_offset + s.table v)
                  (present s.table vs) (present-All (λ u. u ≢ v) s.table vs fresh),
            )
            (append_assoc s.bin_start_offsets _ _));
    others = λ u (ne, a).
        let same : update s.table v s.cur_bin_id u ≡ s.table u = ground arith in
        w.others u a ∙ same;
    ids = λ u m h. rw listed (ids_after u m h);
  }

-- The second scan over values without repetition, from any state whose counts do not add up to
-- 2^32 with the offset so far, nor the values with the bin ids so far: it appends the values with a
-- count and the running sums of the counts, gives each such value the id of its place among them,
-- and leaves the entries of all other values as they were.
pub scan_values-IsScanned :
    (vs : List ℕ) (s : Scan)
    → Distinct vs
    → s.cur_end_offset + total s.table vs < 2 ^ 32
    → s.cur_bin_id + length vs < 2 ^ 32
    → IsScanned vs s (scan_values vs s)
unfolding scan_values present ends
scan_values-IsScanned [] s d sum few = record {
  values = sym (append-nil _);
  offsets = sym (append-nil _);
  others = λ v a. refl;
  ids = λ v m h. absurd m;
}
scan_values-IsScanned (v ∷ vs) s (fresh, d) sum few = elim (Bool-cases (s.table v == 0)) [
  | inl absent ↦
      let zero_count : s.table v ≡ 0 = ground arith in
      let same : scan_value v s ≡ s = unfold scan_value in rw absent in
      rw same (
        skipped v vs s _ zero_count
          (scan_values-IsScanned vs s d (unfold total in omega (arith, sum)) (omega arith)))
  | inr counted ↦
      let some : s.table v ≢ 0 = ground arith in
      let bounded : s.cur_end_offset + s.table v + total s.table vs < 2 ^ 32 =
        unfold total in omega (arith, sum) in
      let same : scan_value v s ≡ entered v s =
        unfold scan_value in
        rw (
          counted,
          mod-eq_of_lt {n = s.cur_bin_id + 1} {m = 2 ^ 32} (omega arith),
          mod-eq_of_lt {n = s.cur_end_offset + s.table v} {m = 2 ^ 32} (omega arith),
        ) in
      rw same (
        entered-IsScanned v vs s _ fresh some (
          scan_values-IsScanned vs (entered v s) d
            (omega (arith, total-update_other s.table v s.cur_bin_id vs fresh)) (omega arith)))
]
