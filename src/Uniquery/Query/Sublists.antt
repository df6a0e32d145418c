-- ===== src/Uniquery/Query/Sublists.antt =====
-- Parts of a list of bins.
use alacrity_adios.Prelude.{ℕ, zero, suc, ◌+◌, ◌≡◌, refl, ap, arith}
use alacrity_adios.Prelude.{All, length-append}
use alacrity_adios.Prelude.{List, [], ◌∷◌, ◌++◌, length}
use alacrity_adios.Encode.Tables.{Distinct}
use alacrity_adios.Uniquery.BinRange.Search.{IsOrdered}
use alacrity_adios.Uniquery.Query.Segments.{Group, bin_values_of}
use alacrity_adios.Uniquery.Query.Touched.{}

pub snoc_groups :
    (n : ℕ) (g : Group) (groups : List Group)
    → length groups ≡ n
    → (middle : List Group) × (last : Group) × (g ∷ groups ≡ middle ++ (last ∷ []))
snoc_groups n g [] l = ([], g, refl)
snoc_groups zero g (h ∷ groups) l = absurd (omega (arith, l))
snoc_groups (suc n) g (h ∷ groups) l =
    let (middle, last, e) = snoc_groups n h groups (omega (arith, l)) in
    (g ∷ middle, last, ap (λ t. g ∷ t) e)

All-front :
    (P : ℕ → Type 0) (xs ys : List Group)
    → All P (bin_values_of (xs ++ ys))
    → All P (bin_values_of xs)
All-front P [] ys a = tt
All-front P (x ∷ xs) ys (p, a) = (p, All-front P xs ys a)

module _ (width k : ℕ) where
  pub IsOrdered-front :
      (xs ys : List Group)
      → IsOrdered width k (bin_values_of (xs ++ ys))
      → IsOrdered width k (bin_values_of xs)
  IsOrdered-front [] ys o = tt
  IsOrdered-front (x ∷ xs) ys (h, (a, o)) = (h, (All-front _ xs ys a, IsOrdered-front xs ys o))

  pub IsOrdered-back :
      (xs ys : List Group)
      → IsOrdered width k (bin_values_of (xs ++ ys))
      → IsOrdered width k (bin_values_of ys)
  IsOrdered-back [] ys o = o
  IsOrdered-back (x ∷ xs) ys (_, (_, o)) = IsOrdered-back xs ys o

pub Distinct-front :
    (xs ys : List Group) → Distinct (bin_values_of (xs ++ ys)) → Distinct (bin_values_of xs)
Distinct-front [] ys d = tt
Distinct-front (x ∷ xs) ys (a, d) = (All-front _ xs ys a, Distinct-front xs ys d)

pub Distinct-back :
    (xs ys : List Group) → Distinct (bin_values_of (xs ++ ys)) → Distinct (bin_values_of ys)
Distinct-back [] ys d = d
Distinct-back (x ∷ xs) ys (_, d) = Distinct-back xs ys d

pub length-map_values : (groups : List Group) → length (bin_values_of groups) ≡ length groups
length-map_values [] = refl
length-map_values (g ∷ groups) = ap suc (length-map_values groups)

pub length-snoc :
    (middle : List Group) (last : Group) → length (middle ++ (last ∷ [])) ≡ length middle + 1
length-snoc middle last = omega (arith, length-append middle (last ∷ []))
