-- ===== src/Uniquery/TrimBins/Loops.antt =====
-- The two loops of the trimming, on arrays that hold some rows.
use alacrity_adios.Prelude.{ℕ, zero, suc, ◌+◌, ◌-◌, ◌≤◌, ◌<◌, ◌≡◌, refl, sym, ap, ◌∙◌, arith}
use alacrity_adios.Prelude.{Bool, true, false, ltb, lt→ltb, Bool-cases, inl, inr}
use alacrity_adios.Prelude.{
  List, [], ◌∷◌, ◌++◌, length, take, drop, set, get_elem?, map, append_assoc, append-nil,
}
use alacrity_adios.Prelude.{some, length-append, length-set}
use alacrity_adios.Uniquery.Selection.{Row, row_ids, values, selected, selected-append}
use alacrity_adios.Uniquery.Selection.{selected_all, selected_none}
use alacrity_adios.Uniquery.TrimBins.{Trimming, put, trim_first, trim_last}

take-set_above : (n i v : ℕ) (xs : List ℕ) → n ≤ i → take n (set xs i v) ≡ take n xs
take-set_above zero i v xs h = refl
take-set_above (suc n) i v [] h = refl
take-set_above (suc n) zero v (x ∷ xs) h = absurd (omega (arith, h))
take-set_above (suc n) (suc i) v (x ∷ xs) h =
    ap (λ t. x ∷ t) (take-set_above n i v xs (omega arith))

take-set_self :
    (i v : ℕ) (xs : List ℕ) → i < length xs → take (suc i) (set xs i v) ≡ take i xs ++ (v ∷ [])
take-set_self i v [] h = absurd (omega (arith, h))
take-set_self zero v (x ∷ xs) h = refl
take-set_self (suc i) v (x ∷ xs) h = ap (λ t. x ∷ t) (take-set_self i v xs (omega arith))

drop-set_self : (i v : ℕ) (xs : List ℕ) → i < length xs → drop i (set xs i v) ≡ v ∷ drop (suc i) xs
drop-set_self i v [] h = absurd (omega (arith, h))
drop-set_self zero v (x ∷ xs) h = refl
drop-set_self (suc i) v (x ∷ xs) h = drop-set_self i v xs (omega arith)

drop-set_below : (n i v : ℕ) (xs : List ℕ) → i < n → drop n (set xs i v) ≡ drop n xs
drop-set_below zero i v xs h = absurd (omega (arith, h))
drop-set_below (suc n) i v [] h = refl
drop-set_below (suc n) zero v (x ∷ xs) h = refl
drop-set_below (suc n) (suc i) v (x ∷ xs) h = drop-set_below n i v xs (omega arith)

-- The last of the first elements.
take_snoc :
    (n y : ℕ) (xs ys : List ℕ)
    → length ys ≡ n
    → take (suc n) xs ≡ ys ++ (y ∷ [])
    → (take n xs ≡ ys) × (get_elem? xs n ≡ some y)
take_snoc zero y [] [] l h = cc
take_snoc zero y (x ∷ xs) [] l h = (refl, cc)
take_snoc zero y xs (z ∷ ys) l h = absurd (omega (arith, l))
take_snoc (suc n) y xs [] l h = absurd (omega (arith, l))
take_snoc (suc n) y [] (z ∷ ys) l h = cc
take_snoc (suc n) y (x ∷ xs) (z ∷ ys) l h =
    let first : x ≡ z = cc in
    let others : take (suc n) xs ≡ ys ++ (y ∷ []) = cc in
    let (t, g) = take_snoc n y xs ys (omega (arith, l)) others in (rw (first, t), g)

take-drop_cons :
    (count n y : ℕ) (xs ys : List ℕ)
    → take (suc count) (drop n xs) ≡ y ∷ ys
    → (get_elem? xs n ≡ some y) × (take count (drop (suc n) xs) ≡ ys)
take-drop_cons count zero y [] ys h = cc
take-drop_cons count zero y (x ∷ xs) ys h = (cc, cc)
take-drop_cons count (suc n) y [] ys h = cc
take-drop_cons count (suc n) y (x ∷ xs) ys h = take-drop_cons count n y xs ys h

snoc_cases :
    (n : ℕ) (rows : List Row)
    → length rows ≡ suc n
    → (front : List Row) × (r : Row) × (rows ≡ front ++ (r ∷ [])) × (length front ≡ n)
snoc_cases n [] l = absurd (omega (arith, l))
snoc_cases zero (r ∷ []) l = ([], r, refl, refl)
snoc_cases zero (r ∷ (s ∷ rows)) l = absurd (omega (arith, l))
snoc_cases (suc n) (r ∷ rows) l =
    let (front, s, e, k) = snoc_cases n rows (omega (arith, l)) in
    (r ∷ front, s, ap (λ t. r ∷ t) e, ap suc k)

map_snoc :
    (f : Row → ℕ) (front : List Row) (r : Row)
    → map f (front ++ (r ∷ [])) ≡ map f front ++ (f r ∷ [])
map_snoc f [] r = refl
map_snoc f (s ∷ front) r = ap (λ t. f s ∷ t) (map_snoc f front r)

pub length-map : (f : Row → ℕ) (rows : List Row) → length (map f rows) ≡ length rows
length-map f [] = refl
length-map f (r ∷ rows) = ap suc (length-map f rows)

module _ (keep : ℕ → Bool) where
  selected_snoc_kept :
      (front : List Row) (r : Row)
      → keep r.1 ≡ true
      → selected keep (front ++ (r ∷ [])) ≡ selected keep front ++ (r ∷ [])
  selected_snoc_kept front r h =
      selected-append keep front (r ∷ [])
      ∙ ap (λ t. selected keep front ++ t) (selected_all keep (r ∷ []) (h, tt))

  selected_snoc_left :
      (front : List Row) (r : Row)
      → keep r.1 ≡ false
      → selected keep (front ++ (r ∷ [])) ≡ selected keep front
  selected_snoc_left front r h =
      selected-append keep front (r ∷ [])
      ∙ ap (λ t. selected keep front ++ t) (selected_none keep (r ∷ []) (h, tt))
      ∙ append-nil (selected keep front)

  -- The arrays hold `rows` before offset `count` and `kept` from the trimmed offset on.
  pub record IsTrimming (count : ℕ) (rows kept : List Row) (t : Trimming) : Type 0 where
    pub row_values : take count t.values ≡ values rows
    pub row_rids : take count t.rids ≡ row_ids rows
    pub kept_values : drop t.trimmed_off t.values ≡ values kept
    pub kept_rids : drop t.trimmed_off t.rids ≡ row_ids kept
    pub rows_length : length rows ≡ count
    pub before : count ≤ t.trimmed_off
    pub within_values : t.trimmed_off ≤ length t.values
    pub within_rids : t.trimmed_off ≤ length t.rids

  pub trim_first-selected :
      (count : ℕ) (rows kept : List Row) (t : Trimming)
      → IsTrimming count rows kept t
      → (t' : Trimming) × (trim_first keep count t ≡ some t')
        × (IsTrimming 0 [] (selected keep rows ++ kept) t')
        × (t'.trimmed_off + length (selected keep rows) ≡ t.trimmed_off)
        × (length t'.values ≡ length t.values)
        × (length t'.rids ≡ length t.rids)
  unfolding trim_first selected put
  trim_first-selected zero [] kept t w = (t, refl, w, omega arith, refl, refl)
  trim_first-selected zero (r ∷ rows) kept t w = absurd (omega (arith, w.rows_length))
  trim_first-selected (suc count) rows kept t w =
      let (front, r, e, l) = snoc_cases count rows w.rows_length in
      let off = t.trimmed_off in
      let (front_values, at_value) =
        take_snoc count r.1 t.values (values front) (length-map (λ (r : Row). r.1) front ∙ l)
          (w.row_values ∙ ap values e ∙ map_snoc (λ (r : Row). r.1) front r) in
      let (front_rids, at_rid) =
        take_snoc count r.0 t.rids (row_ids front) (length-map (λ (r : Row). r.0) front ∙ l)
          (w.row_rids ∙ ap row_ids e ∙ map_snoc (λ (r : Row). r.0) front r) in
      elim (Bool-cases (keep r.1)) [
        | inl is_kept ↦
            let t1 : Trimming = record t {
              trimmed_off = off - 1;
              rids = set t.rids (off - 1) r.0;
              values = set t.values (off - 1) r.1;
            } in
            let one_less : suc (off - 1) ≡ off = omega (arith, w.before) in
            let room_values : ltb (off - 1) (length t.values) ≡ true =
              lt→ltb _ _ (omega (arith, w.before, w.within_values)) in
            let room_rids : ltb (off - 1) (length t.rids) ≡ true =
              lt→ltb _ _ (omega (arith, w.before, w.within_rids)) in
            let w1 : IsTrimming count front (r ∷ kept) t1 = record {
              row_values =
                  take-set_above count (off - 1) r.1 t.values (omega (arith, w.before))
                  ∙ front_values;
              row_rids =
                  take-set_above count (off - 1) r.0 t.rids (omega (arith, w.before)) ∙ front_rids;
              kept_values =
                  drop-set_self (off - 1) r.1 t.values (omega (arith, w.before, w.within_values))
                  ∙ rw one_less (ap (λ z. r.1 ∷ z) w.kept_values);
              kept_rids =
                  drop-set_self (off - 1) r.0 t.rids (omega (arith, w.before, w.within_rids))
                  ∙ rw one_less (ap (λ z. r.0 ∷ z) w.kept_rids);
              rows_length = l;
              before = omega (arith, w.before);
              within_values = omega (arith, w.within_values, length-set t.values (off - 1) r.1);
              within_rids = omega (arith, w.within_rids, length-set t.rids (off - 1) r.0);
            } in
            let (t', run, w', o, lv, lr) = trim_first-selected count front (r ∷ kept) t1 w1 in
            let all = ap (selected keep) e ∙ selected_snoc_kept front r is_kept in
            (
              t',
              rw (at_value, is_kept, at_rid, room_values, room_rids) run,
              rw (all, append_assoc (selected keep front) (r ∷ []) kept) w',
              rw all (omega (arith, length-append (selected keep front) (r ∷ []), o, w.before)),
              lv ∙ length-set t.values (off - 1) r.1,
              lr ∙ length-set t.rids (off - 1) r.0,
            )
        | inr not_kept ↦
            let w1 : IsTrimming count front kept t = record {
              row_values = front_values;
              row_rids = front_rids;
              kept_values = w.kept_values;
              kept_rids = w.kept_rids;
              rows_length = l;
              before = omega (arith, w.before);
              within_values = w.within_values;
              within_rids = w.within_rids;
            } in
            let (t', run, w', o, lv, lr) = trim_first-selected count front kept t w1 in
            let all = ap (selected keep) e ∙ selected_snoc_left front r not_kept in
            (t', rw (at_value, not_kept) run, rw all w', rw all o, lv, lr)
      ]

  -- The arrays hold `rows` from the input offset on, and `vs` and `is` before the trimmed offset.
  pub record IsTrimmingLast (count input_off : ℕ) (rows : List Row) (vs is : List ℕ) (t : Trimming)
      : Type 0 where
    pub row_values : take count (drop input_off t.values) ≡ values rows
    pub row_rids : take count (drop input_off t.rids) ≡ row_ids rows
    pub kept_values : take t.trimmed_off t.values ≡ vs
    pub kept_rids : take t.trimmed_off t.rids ≡ is
    pub rows_length : length rows ≡ count
    pub before : t.trimmed_off ≤ input_off
    pub within_values : input_off + count ≤ length t.values
    pub within_rids : input_off + count ≤ length t.rids

  pub trim_last-selected :
      (count input_off : ℕ) (rows : List Row) (vs is : List ℕ) (t : Trimming)
      → IsTrimmingLast count input_off rows vs is t
      → (t' : Trimming) × (trim_last keep count input_off t ≡ some t')
        × (take t'.trimmed_off t'.values ≡ vs ++ values (selected keep rows))
        × (take t'.trimmed_off t'.rids ≡ is ++ row_ids (selected keep rows))
        × (t'.trimmed_off ≡ t.trimmed_off + length (selected keep rows))
  unfolding trim_last selected put
  trim_last-selected zero input_off [] vs is t w =
      (t, refl, w.kept_values ∙ sym (append-nil vs), w.kept_rids ∙ sym (append-nil is), omega arith)
  trim_last-selected zero input_off (r ∷ rows) vs is t w = absurd (omega (arith, w.rows_length))
  trim_last-selected (suc count) input_off [] vs is t w = absurd (omega (arith, w.rows_length))
  trim_last-selected (suc count) input_off (r ∷ rows) vs is t w =
      let off = t.trimmed_off in
      let next : suc input_off ≡ input_off + 1 = omega arith in
      let (at_value, other_values) =
        take-drop_cons count input_off r.1 t.values (values rows) w.row_values in
      let (at_rid, other_rids) =
        take-drop_cons count input_off r.0 t.rids (row_ids rows) w.row_rids in
      elim (Bool-cases (keep r.1)) [
        | inl is_kept ↦
            let t1 : Trimming = record {
              trimmed_off = off + 1;
              rids = set t.rids off r.0;
              values = set t.values off r.1;
            } in
            let one_more : suc off ≡ off + 1 = omega arith in
            let below : off < input_off + 1 = omega (arith, w.before) in
            let room_values : ltb off (length t.values) ≡ true =
              lt→ltb _ _ (omega (arith, w.before, w.within_values)) in
            let room_rids : ltb off (length t.rids) ≡ true =
              lt→ltb _ _ (omega (arith, w.before, w.within_rids)) in
            let w1 : IsTrimmingLast count (input_off + 1) rows (vs ++ (r.1 ∷ [])) (is ++ (r.0 ∷ []))
                t1 =
              record {
                row_values =
                    ap (take count) (drop-set_below (input_off + 1) off r.1 t.values below)
                    ∙ rw (← next) other_values;
                row_rids =
                    ap (take count) (drop-set_below (input_off + 1) off r.0 t.rids below)
                    ∙ rw (← next) other_rids;
                kept_values =
                    rw (← one_more)
                      (take-set_self off r.1 t.values (omega (arith, w.before, w.within_values)))
                    ∙ ap (λ z. z ++ (r.1 ∷ [])) w.kept_values;
                kept_rids =
                    rw (← one_more)
                      (take-set_self off r.0 t.rids (omega (arith, w.before, w.within_rids)))
                    ∙ ap (λ z. z ++ (r.0 ∷ [])) w.kept_rids;
                rows_length = omega (arith, w.rows_length);
                before = omega (arith, w.before);
                within_values = omega (arith, w.within_values, length-set t.values off r.1);
                within_rids = omega (arith, w.within_rids, length-set t.rids off r.0);
              } in
            let (t', run, v, i, o) =
              trim_last-selected count (input_off + 1) rows (vs ++ (r.1 ∷ [])) (is ++ (r.0 ∷ [])) t1
                w1 in
            (
              t',
              rw (at_value, is_kept, at_rid, room_values, room_rids) run,
              rw is_kept (v ∙ append_assoc vs (r.1 ∷ []) (values (selected keep rows))),
              rw is_kept (i ∙ append_assoc is (r.0 ∷ []) (row_ids (selected keep rows))),
              rw is_kept (omega (arith, o)),
            )
        | inr not_kept ↦
            let w1 : IsTrimmingLast count (input_off + 1) rows vs is t = record {
              row_values = rw (← next) other_values;
              row_rids = rw (← next) other_rids;
              kept_values = w.kept_values;
              kept_rids = w.kept_rids;
              rows_length = omega (arith, w.rows_length);
              before = omega (arith, w.before);
              within_values = omega (arith, w.within_values);
              within_rids = omega (arith, w.within_rids);
            } in
            let (t', run, v, i, o) = trim_last-selected count (input_off + 1) rows vs is t w1 in
            (t', rw (at_value, not_kept) run, rw not_kept v, rw not_kept i, rw not_kept o)
      ]
