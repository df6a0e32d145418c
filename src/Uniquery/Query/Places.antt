-- ===== src/Uniquery/Query/Places.antt =====
-- Cutting the low-order bits off a number keeps its place on the line where it was or brings it nearer
-- to zero, so that a number that lies between two others does so by its high-order bits, and one that
-- lies strictly between by its high-order bits lies between.
use alacrity_adios.Prelude.{ℕ, suc, ◌+◌, ◌-◌, ◌*◌, ◌/◌, ◌≤◌, ◌<◌, ◌≡◌, arith}
use alacrity_adios.Prelude.{ltb, Bool-cases, inl, inr, ltb→lt, lt→ltb, true, false}
use alacrity_adios.Uniquery.BinRange.Signs.{key}
use native.Mathlib.Nat.{suc-mul, div-le_self, div-mul-le_self, div-lt_iff_lt-mul}

div_mono : (d x y : ℕ) → 0 < d → x ≤ y → x / d ≤ y / d
div_mono d x y pos h = elim (Bool-cases (ltb (y / d) (x / d))) [
  | inl less ↦
      let below : y < x / d * d = (div-lt_iff_lt-mul pos).0 (ltb→lt _ _ less) in
      absurd (omega (arith, below, div-mul-le_self x d, h))
  | inr more ↦ ground (arith, more)
]

-- Magnitudes below `half * d`, of which the part below `d` is cut off.
module _ (d half wide : ℕ) (some_left : 0 < d) (room : wide ≡ half * d) where
  -- The place of a whole number on the line, and that of what is left of it.
  abbrev pub whole : ℕ → ℕ
  whole x = key wide wide x

  abbrev pub cut : ℕ → ℕ
  cut x = key wide half (x / d)

  positive : (x : ℕ) → x < wide → (ltb x wide ≡ true) × (ltb (x / d) half ≡ true)
  positive x h =
      (lt→ltb _ _ h, lt→ltb _ _ ((div-lt_iff_lt-mul some_left).1 (omega (arith, h, room))))

  negative : (x : ℕ) → wide ≤ x → half ≤ x / d
  negative x h = elim (Bool-cases (ltb (x / d) half)) [
    | inl less ↦
        let below : x < half * d = (div-lt_iff_lt-mul some_left).0 (ltb→lt _ _ less) in
        absurd (omega (arith, below, h, room))
    | inr more ↦ ground (arith, more)
  ]

  line : half ≤ wide
  line = grind (arith, some_left, room)

  pub cut_mono : (x y : ℕ) → x < wide + wide → y < wide + wide → whole x ≤ whole y → cut x ≤ cut y
  unfolding key
  cut_mono x y hx hy h = elim (Bool-cases (ltb x wide)) [
    | inl px ↦ elim (Bool-cases (ltb y wide)) [
      | inl py ↦
          let (a, b) = positive x (ltb→lt _ _ px) in
          let (c, e) = positive y (ltb→lt _ _ py) in
          let o : wide + x ≤ wide + y = rw (px, py) at h in
          let q = div_mono d x y some_left (omega (arith, o)) in rw (b, e) (omega (arith, q))
      | inr ny ↦
          let (a, b) = positive x (ltb→lt _ _ px) in
          let low : wide ≤ y = ground (arith, ny) in
          let big = negative y low in
          let no : ltb (y / d) half ≡ false = ground (arith, big) in
          let o : wide + x ≤ wide - (y - wide) = rw (px, ny) at h in
          let none_left : x / d ≤ x = div-le_self x d in
          let next : y < suc half * d = omega (arith, suc-mul half d, o, hy, room, some_left) in
          let half_left : y / d < suc half = (div-lt_iff_lt-mul some_left).1 next in
          rw (b, no) (omega (arith, none_left, half_left, big, o, hy))
    ]
    | inr nx ↦ elim (Bool-cases (ltb y wide)) [
      | inl py ↦
          let (c, e) = positive y (ltb→lt _ _ py) in
          let big = negative x (ground (arith, nx)) in
          let no : ltb (x / d) half ≡ false = ground (arith, big) in rw (e, no) (omega arith)
      | inr ny ↦
          let bx = negative x (ground (arith, nx)) in
          let by = negative y (ground (arith, ny)) in
          let no_x : ltb (x / d) half ≡ false = ground (arith, bx) in
          let no_y : ltb (y / d) half ≡ false = ground (arith, by) in
          let lx : wide ≤ x = ground (arith, nx) in
          let o : wide - (x - wide) ≤ wide - (y - wide) = rw (nx, ny) at h in
          let q = div_mono d y x some_left (omega (arith, o, hx, hy, lx)) in
          rw (no_x, no_y) (omega (arith, q))
    ]
  ]

  -- A number whose high-order bits lie strictly below lies strictly below.
  pub cut_strict : (x y : ℕ) → x < wide + wide → y < wide + wide → cut x < cut y → whole x < whole y
  cut_strict x y hx hy h = elim (Bool-cases (ltb (whole x) (whole y))) [
    | inl less ↦ ltb→lt _ _ less
    | inr more ↦
        let above : whole y ≤ whole x = ground (arith, more) in
        absurd (omega (arith, cut_mono y x hy hx above, h))
  ]
