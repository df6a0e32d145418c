-- ===== src/Encode/Fresh.antt =====
-- The buffers that the encoding loops fill, seen as one free cell for each bin, and what one pass
-- leaves in them: the items of each bin one after the other.
use alacrity_adios.Prelude.{ℕ, zero, suc, ◌+◌, ◌^◌, ◌<◌, ◌≡◌, ◌≢◌, refl, sym, ap, ap₂, ◌∙◌, arith}
use alacrity_adios.Prelude.{◌==◌, if◌then◌else◌, List, [], ◌∷◌, ◌++◌, length}
use alacrity_adios.Prelude.{All, inl, inr, get_or, take, drop, map}
use alacrity_adios.Prelude.{length-take, length-drop, take-append-drop}
use alacrity_adios.Encode.Tables.{Distinct, Has, Has-ne, occurrences, total, ends}
use alacrity_adios.Encode.Scanning.{position}
use alacrity_adios.Encode.Scatter.{
  Cells, scatter, bucket, flat, place, room, gather, scatter-gather,
}

-- The place of a value in a list is `b` exactly for the value that stands there.
pub position-get_or :
    (v : ℕ) (ws : List ℕ) (b : ℕ)
    → Distinct ws
    → Has v ws
    → b < length ws
    → (position v ws == b) ≡ (v == get_or ws b 0)
unfolding position
position-get_or v [] b d m h = absurd m
position-get_or v (w ∷ ws) zero d m h = ground arith
position-get_or v (w ∷ ws) (suc b) (fresh, d) (inl e) h =
    ground (arith, get_ne w ws b (omega arith) fresh)
  where
    get_ne : (w : ℕ) (ws : List ℕ) (b : ℕ) → b < length ws → All (λ u. u ≢ w) ws → get_or ws b 0 ≢ w
    get_ne w [] b h a = absurd (omega arith)
    get_ne w (u ∷ us) zero h (ne, a) = ne
    get_ne w (u ∷ us) (suc b) h (ne, a) = get_ne w us b (omega arith) a
position-get_or v (w ∷ ws) (suc b) (fresh, d) (inr m) h =
    let ne : v ≢ w = Has-ne w v ws fresh m in
    ground (arith, position-get_or v ws b d m (omega arith))

pub position-lt : (v : ℕ) (ws : List ℕ) → Has v ws → position v ws < length ws
unfolding position
position-lt v [] m = absurd m
position-lt v (w ∷ ws) (inl e) = ground arith
position-lt v (w ∷ ws) (inr m) = ground (arith, position-lt v ws m)

pub length-ends : (c : ℕ → ℕ) (e : ℕ) (ws : List ℕ) → length (ends c e ws) ≡ length ws
unfolding ends
length-ends c e [] = refl
length-ends c e (w ∷ ws) = ap suc (length-ends c (e + c w) ws)

get_or-take : (n : ℕ) (xs : List ℕ) (i : ℕ) → i < n → get_or (take n xs) i 0 ≡ get_or xs i 0
get_or-take zero xs i h = absurd (omega arith)
get_or-take (suc n) [] i h = refl
get_or-take (suc n) (x ∷ xs) zero h = refl
get_or-take (suc n) (x ∷ xs) (suc i) h = get_or-take n xs i (omega arith)

cursors_length : (c : ℕ → ℕ) (ws : List ℕ) → length (take (length ws) (0 ∷ ends c 0 ws)) ≡ length ws
cursors_length c ws = omega (arith, length-take (length ws) (0 ∷ ends c 0 ws), length-ends c 0 ws)

module _ {A : Type 0} where
  -- Keys replaced by what `f` takes them to.
  abbrev pub relabel : (ℕ → ℕ) → List (ℕ × A) → List (ℕ × A)
  relabel f items = map (λ it. (f it.0, it.1)) items

  abbrev pub keys : List (ℕ × A) → List ℕ
  keys items = map (λ it. it.0) items

  -- The items of each of `ws`, one after the other.
  unfoldable pub by_value : List ℕ → List (ℕ × A) → List A
  by_value [] items = []
  by_value (w ∷ ws) items = bucket w items ++ by_value ws items

  -- A free cell for each of `ws`, of the size that `c` has for it.
  abbrev fresh_cells : (ℕ → ℕ) → List ℕ → List A → Cells A
  fresh_cells c [] buf = []
  fresh_cells c (w ∷ ws) buf = ([], take (c w) buf) ∷ fresh_cells c ws (drop (c w) buf)

  length-fresh_cells :
      (c : ℕ → ℕ) (ws : List ℕ) (buf : List A) → length (fresh_cells c ws buf) ≡ length ws
  length-fresh_cells c [] buf = refl
  length-fresh_cells c (w ∷ ws) buf = ap suc (length-fresh_cells c ws (drop (c w) buf))

  flat-fresh_cells :
      (c : ℕ → ℕ) (ws : List ℕ) (buf : List A)
      → length buf ≡ total c ws
      → flat (fresh_cells c ws buf) ≡ buf
  unfolding total
  flat-fresh_cells c [] [] e = refl
  flat-fresh_cells c [] (x ∷ buf) e = absurd (omega arith)
  flat-fresh_cells c (w ∷ ws) buf e =
      ap (λ r. take (c w) buf ++ r)
        (flat-fresh_cells c ws (drop (c w) buf) (omega (arith, length-drop (c w) buf)))
      ∙ take-append-drop (c w) buf

  place-fresh_cells :
      (c : ℕ → ℕ) (ws : List ℕ) (buf : List A) (e b : ℕ)
      → length buf ≡ total c ws
      → b < length ws
      → get_or (e ∷ ends c e ws) b 0 ≡ e + place (fresh_cells c ws buf) b
  unfolding total ends
  place-fresh_cells c [] buf e b l h = absurd (omega arith)
  place-fresh_cells c (w ∷ ws) buf e zero l h = omega arith
  place-fresh_cells c (w ∷ ws) buf e (suc b) l h = omega (
    arith,
    length-take (c w) buf,
    place-fresh_cells c ws (drop (c w) buf) (e + c w) b (omega (arith, length-drop (c w) buf))
        (omega arith),
  )

  room-fresh_cells :
      (c : ℕ → ℕ) (ws : List ℕ) (buf : List A) (b : ℕ)
      → length buf ≡ total c ws
      → b < length ws
      → room (fresh_cells c ws buf) b ≡ c (get_or ws b 0)
  unfolding total
  room-fresh_cells c [] buf b l h = absurd (omega arith)
  room-fresh_cells c (w ∷ ws) buf zero l h = omega (arith, length-take (c w) buf)
  room-fresh_cells c (w ∷ ws) buf (suc b) l h =
      room-fresh_cells c ws (drop (c w) buf) b (omega (arith, length-drop (c w) buf)) (omega arith)

  bucket-relabel :
      (f : ℕ → ℕ) (b v : ℕ) (items : List (ℕ × A))
      → All (λ it. (f it.0 == b) ≡ (it.0 == v)) items
      → bucket b (relabel f items) ≡ bucket v items
  unfolding bucket
  bucket-relabel f b v [] a = refl
  bucket-relabel f b v ((k, x) ∷ items) (e, a) =
      rw e (ap (λ r. if k == v then x ∷ r else r) (bucket-relabel f b v items a))

  pub length-bucket :
      (v : ℕ) (items : List (ℕ × A)) → length (bucket v items) ≡ occurrences v (keys items)
  unfolding bucket occurrences
  length-bucket v [] = refl
  length-bucket v ((k, x) ∷ items) = ground (arith, length-bucket v items)

  gather-fresh_cells :
      (c f : ℕ → ℕ) (items : List (ℕ × A)) (k : ℕ) (ws : List ℕ) (buf : List A)
      → ((b : ℕ) → b < length ws → All (λ it. (f it.0 == k + b) ≡ (it.0 == get_or ws b 0)) items)
      → gather k (fresh_cells c ws buf) (relabel f items) ≡ by_value ws items
  unfolding by_value
  gather-fresh_cells c f items k [] buf h = refl
  gather-fresh_cells c f items k (w ∷ ws) buf h =
      let plus_zero : k + 0 ≡ k = omega arith in
      let first = h 0 (omega arith) in
      ap₂ ◌++◌ (bucket-relabel f k w items (rw plus_zero at first)) (
        gather-fresh_cells c f items (suc k) ws (drop (c w) buf) (λ b p.
          let step : suc k + b ≡ k + suc b = omega arith in rw step (h (suc b) (omega arith))))

  -- All keys are in `ws`: each item is told apart by the place of its key.
  key_places :
      (ws : List ℕ) (f : ℕ → ℕ) (b : ℕ) (items : List (ℕ × A))
      → Distinct ws
      → All (λ k. Has k ws × (f k ≡ position k ws)) (keys items)
      → b < length ws
      → All (λ it. (f it.0 == b) ≡ (it.0 == get_or ws b 0)) items
  key_places ws f b [] d a h = tt
  key_places ws f b ((k, x) ∷ items) d ((m, e), a) h =
      (ap (λ p. p == b) e ∙ position-get_or k ws b d m h, key_places ws f b items d a h)

  labels_inside :
      (ws : List ℕ) (f : ℕ → ℕ) (n : ℕ) (items : List (ℕ × A))
      → n ≡ length ws
      → All (λ k. Has k ws × (f k ≡ position k ws)) (keys items)
      → All (λ it. it.0 < n) (relabel f items)
  labels_inside ws f n [] e a = tt
  labels_inside ws f n ((k, x) ∷ items) e ((m, p), a) =
      (omega (arith, position-lt k ws m, p), labels_inside ws f n items e a)

  -- One pass over items whose keys are in `ws`, with the bin of a key its place in `ws`, the
  -- cursors at the running sums of the counts and a buffer of that many places.
  pub scatter-by_value :
      (ws : List ℕ) (f : ℕ → ℕ) (items : List (ℕ × A)) (buf : List A)
      → Distinct ws
      → All (λ k. Has k ws × (f k ≡ position k ws)) (keys items)
      → length buf ≡ total (λ v. occurrences v (keys items)) ws
      → length buf < 2 ^ 32
      → scatter
          (relabel f items)
          (take (length ws) (0 ∷ ends (λ v. occurrences v (keys items)) 0 ws))
          buf
        ≡ by_value ws items
  scatter-by_value ws f items buf d a l small =
      let c : ℕ → ℕ = λ v. occurrences v (keys items) in
      let cells = fresh_cells c ws buf in
      let whole : flat cells ≡ buf = flat-fresh_cells c ws buf l in
      let n : length cells ≡ length ws = length-fresh_cells c ws buf in
      ap (λ r. scatter (relabel f items) (take (length ws) (0 ∷ ends c 0 ws)) r) (sym whole)
      ∙ (scatter-gather (relabel f items) _ cells (rw whole small) (cursors_length c ws ∙ sym n)
            (labels_inside ws f (length cells) items n a)
            (λ b h.
              get_or-take (length ws) (0 ∷ ends c 0 ws) b (rw n at h)
              ∙ omega (arith, place-fresh_cells c ws buf 0 b l (rw n at h)))
            (λ b h.
              room-fresh_cells c ws buf b l (rw n at h)
              ∙ sym (
                  ap length (
                    bucket-relabel f b (get_or ws b 0) items
                      (key_places ws f b items d a (rw n at h)))
                  ∙ length-bucket (get_or ws b 0) items))
          ∙ gather-fresh_cells c f items 0 ws buf
              (λ b h. let e : 0 + b ≡ b = omega arith in rw e (key_places ws f b items d a h)))
