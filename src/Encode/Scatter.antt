-- ===== src/Encode/Scatter.antt =====
-- One pass that distributes items over the bins of a buffer: each item is written at the cursor
-- of its bin, which then moves on. The buffer is seen as a list of cells, one for each bin, whose
-- first part is filled and whose second part still holds what was there before.
use alacrity_adios.Prelude.{
  ℕ, zero, suc, ◌+◌, ◌^◌, ◌<◌, ◌≡◌, ◌≢◌, refl, sym, ap, ap₂, ◌∙◌, arith, u32,
}
use alacrity_adios.Prelude.{◌==◌, if◌then◌else◌, List, [], ◌∷◌, ◌++◌, length}
use alacrity_adios.Prelude.{get_or, set, drop, All, append_assoc, append-nil, length-append}
use alacrity_adios.Prelude.{length-set, get_or-set_self, get_or-set_ne, Bool-cases, inl, inr}

abbrev pub Cells : Type 0 → Type 0
Cells A = List (List A × List A)

module _ {A : Type 0} where
  unfoldable pub scatter : List (ℕ × A) → List ℕ → List A → List A
  scatter [] cur buf = buf
  scatter ((b, a) ∷ items) cur buf =
      let offset = get_or cur b 0 in scatter items (set cur b (u32 (offset + 1))) (set buf offset a)

  -- The items of bin `b`, in their order.
  unfoldable pub bucket : ℕ → List (ℕ × A) → List A
  bucket b [] = []
  bucket b ((c, a) ∷ items) = if c == b then a ∷ bucket b items else bucket b items

  abbrev pub flat : Cells A → List A
  flat [] = []
  flat ((f, j) ∷ s) = f ++ (j ++ flat s)

  -- The first free place of bin `b`, and how many there are.
  abbrev pub place : Cells A → ℕ → ℕ
  place [] b = 0
  place ((f, j) ∷ s) zero = length f
  place ((f, j) ∷ s) (suc b) = length f + length j + place s b

  abbrev pub room : Cells A → ℕ → ℕ
  room [] b = 0
  room ((f, j) ∷ s) zero = length j
  room ((f, j) ∷ s) (suc b) = room s b

  abbrev put : Cells A → ℕ → A → Cells A
  put [] b a = []
  put ((f, j) ∷ s) zero a = (f ++ (a ∷ []), drop 1 j) ∷ s
  put ((f, j) ∷ s) (suc b) a = (f, j) ∷ put s b a

  -- All bins from `k` on, with the items that `items` adds to each.
  abbrev pub gather : ℕ → Cells A → List (ℕ × A) → List A
  gather k [] items = []
  gather k ((f, j) ∷ s) items = (f ++ bucket k items) ++ gather (suc k) s items

  set_behind :
      (xs ys : List A) (n i : ℕ) (a : A) → n ≡ length xs + i → set (xs ++ ys) n a ≡ xs ++ set ys i a
  set_behind [] ys n i a e = let e' : n ≡ i = omega arith in rw e'
  set_behind (x ∷ xs) ys zero i a e = absurd (omega arith)
  set_behind (x ∷ xs) ys (suc n) i a e = ap (λ t. x ∷ t) (set_behind xs ys n i a (omega arith))

  set-flat :
      (s : Cells A) (b : ℕ) (a : A) → 0 < room s b → set (flat s) (place s b) a ≡ flat (put s b a)
  set-flat [] b a h = absurd (omega arith)
  set-flat ((f, []) ∷ s) zero a h = absurd (omega arith)
  set-flat ((f, x ∷ j) ∷ s) zero a h =
      set_behind f (x ∷ (j ++ flat s)) (length f) 0 a (omega arith)
      ∙ sym (append_assoc f (a ∷ []) (j ++ flat s))
  set-flat ((f, j) ∷ s) (suc b) a h =
      set_behind f (j ++ flat s) _ (length j + place s b) a (omega arith)
      ∙ ap (λ t. f ++ t)
          (set_behind j (flat s) _ (place s b) a refl ∙ ap (λ t. j ++ t) (set-flat s b a h))

  place-lt : (s : Cells A) (b : ℕ) → 0 < room s b → place s b < length (flat s)
  place-lt [] b h = absurd (omega arith)
  place-lt ((f, j) ∷ s) zero h =
      omega (arith, length-append f (j ++ flat s), length-append j (flat s))
  place-lt ((f, j) ∷ s) (suc b) h =
      omega (arith, length-append f (j ++ flat s), length-append j (flat s), place-lt s b h)

  length-put : (s : Cells A) (b : ℕ) (a : A) → length (put s b a) ≡ length s
  length-put [] b a = refl
  length-put ((f, j) ∷ s) zero a = refl
  length-put ((f, j) ∷ s) (suc b) a = ap suc (length-put s b a)

  length-flat-put :
      (s : Cells A) (b : ℕ) (a : A) → 0 < room s b → length (flat (put s b a)) ≡ length (flat s)
  length-flat-put s b a h = rw (← set-flat s b a h) (length-set (flat s) (place s b) a)

  place-put_self :
      (s : Cells A) (b : ℕ) (a : A) → 0 < room s b → place (put s b a) b ≡ place s b + 1
  place-put_self [] b a h = absurd (omega arith)
  place-put_self ((f, j) ∷ s) zero a h = omega (arith, length-append f (a ∷ []))
  place-put_self ((f, j) ∷ s) (suc b) a h = omega (arith, place-put_self s b a h)

  place-put_ne :
      (s : Cells A) (b c : ℕ) (a : A) → 0 < room s b → b ≢ c → place (put s b a) c ≡ place s c
  place-put_ne [] b c a h ne = refl
  place-put_ne ((f, j) ∷ s) zero zero a h ne = absurd (ne refl)
  place-put_ne ((f, []) ∷ s) zero (suc c) a h ne = absurd (omega arith)
  place-put_ne ((f, x ∷ j) ∷ s) zero (suc c) a h ne = omega (arith, length-append f (a ∷ []))
  place-put_ne ((f, j) ∷ s) (suc b) zero a h ne = refl
  place-put_ne ((f, j) ∷ s) (suc b) (suc c) a h ne =
      omega (arith, place-put_ne s b c a h (λ e. ne (ap suc e)))

  room-put :
      (s : Cells A) (b c : ℕ) (a : A)
      → 0 < room s b
      → room s c ≡ (if b == c then room (put s b a) c + 1 else room (put s b a) c)
  room-put [] b c a h = absurd (omega arith)
  room-put ((f, []) ∷ s) zero c a h = absurd (omega arith)
  room-put ((f, x ∷ j) ∷ s) zero zero a h = omega arith
  room-put ((f, x ∷ j) ∷ s) zero (suc c) a h = ground arith
  room-put ((f, j) ∷ s) (suc b) zero a h = ground arith
  room-put ((f, j) ∷ s) (suc b) (suc c) a h = ground (arith, room-put s b c a h)

  -- An item of an earlier bin adds nothing to these.
  gather_skip :
      (k b : ℕ) (a : A) (s : Cells A) (items : List (ℕ × A))
      → b < k
      → gather k s ((b, a) ∷ items) ≡ gather k s items
  unfolding bucket
  gather_skip k b a [] items h = refl
  gather_skip k b a ((f, j) ∷ s) items h =
      ap₂ (λ xs ys. (f ++ xs) ++ ys) (ground arith) (gather_skip (suc k) b a s items (omega arith))

  gather-put :
      (k c b : ℕ) (a : A) (s : Cells A) (items : List (ℕ × A))
      → c ≡ k + b
      → gather k (put s b a) items ≡ gather k s ((c, a) ∷ items)
  unfolding bucket
  gather-put k c b a [] items e = refl
  gather-put k c zero a ((f, j) ∷ s) items e =
      ap₂ ◌++◌ (append_assoc f (a ∷ []) (bucket k items) ∙ ap (λ t. f ++ t) (ground arith))
        (sym (gather_skip (suc k) c a s items (omega arith)))
  gather-put k c (suc b) a ((f, j) ∷ s) items e =
      ap₂ (λ xs ys. (f ++ xs) ++ ys) (ground arith) (gather-put (suc k) c b a s items (omega arith))

  gather_nothing :
      (k : ℕ) (s : Cells A) → ((b : ℕ) → b < length s → room s b ≡ 0) → flat s ≡ gather k s []
  unfolding bucket
  gather_nothing k [] h = refl
  gather_nothing k ((f, []) ∷ s) h =
      ap₂ ◌++◌ (sym (append-nil f)) (gather_nothing (suc k) s (λ b p. h (suc b) (omega arith)))
  gather_nothing k ((f, x ∷ j) ∷ s) h = absurd (omega (arith, h 0 (omega arith)))

  -- The cursors and the room after one item.
  cursor_moves :
      (cur : List ℕ) (s : Cells A) (b c : ℕ) (a : A)
      → length (flat s) < 2 ^ 32
      → length cur ≡ length s
      → b < length s
      → 0 < room s b
      → get_or cur c 0 ≡ place s c
      → get_or (set cur b (u32 (place s b + 1))) c 0 ≡ place (put s b a) c
  cursor_moves cur s b c a small len hb r at = elim (Bool-cases (b == c)) [
    | inl same ↦
        let e : b ≡ c = ground arith in
        rw (← e) (
          get_or-set_self cur b _ 0 (omega arith)
          ∙ omega (arith, place-put_self s b a r, place-lt s b r))
    | inr other ↦
        let ne : b ≢ c = ground arith in
        get_or-set_ne cur b c _ 0 ne ∙ at ∙ sym (place-put_ne s b c a r ne)
  ]

  room_left :
      (s : Cells A) (b c : ℕ) (a : A) (items : List (ℕ × A))
      → 0 < room s b
      → room s c ≡ length (bucket c ((b, a) ∷ items))
      → room (put s b a) c ≡ length (bucket c items)
  unfolding bucket
  room_left s b c a items r h = ground (arith, room-put s b c a r)

  first_fits : (b : ℕ) (a : A) (items : List (ℕ × A)) → 0 < length (bucket b ((b, a) ∷ items))
  unfolding bucket
  first_fits b a items = ground arith

  -- With the cursors at the first free places, and exactly as much room in each bin as it gets
  -- items, the pass fills each bin with its items in their order.
  pub scatter-gather :
      (items : List (ℕ × A)) (cur : List ℕ) (s : Cells A)
      → length (flat s) < 2 ^ 32
      → length cur ≡ length s
      → All (λ it. it.0 < length s) items
      → ((b : ℕ) → b < length s → get_or cur b 0 ≡ place s b)
      → ((b : ℕ) → b < length s → room s b ≡ length (bucket b items))
      → scatter items cur (flat s) ≡ gather 0 s items
  unfolding scatter
  scatter-gather [] cur s small len inside at fits = gather_nothing 0 s (unfold bucket in fits)
  scatter-gather ((b, a) ∷ items) cur s small len (hb, inside) at fits =
      let r : 0 < room s b = rw (fits b hb) (first_fits b a items) in
      let same_count : length (put s b a) ≡ length s = length-put s b a in
      rw (at b hb, set-flat s b a r)
        (scatter-gather items (set cur b (u32 (place s b + 1))) (put s b a)
            (rw (length-flat-put s b a r) small) (length-set cur b _ ∙ len ∙ sym same_count)
            (rw same_count inside)
            (λ c hc. cursor_moves cur s b c a small len hb r (at c (rw same_count at hc)))
            (λ c hc. room_left s b c a items r (fits c (rw same_count at hc)))
          ∙ gather-put 0 b b a s items (omega arith))
