-- ===== src/Common/Ascending.antt =====
-- Sorted lists of numbers.
use Prim.Native.Nat.{ℕ, ◌≤◌, ◌<◌}
use mathlib.Core.Path.{◌≡◌, refl}
use mathlib.Core.Bool.{Bool, true, false}
use mathlib.Core.List.{List, [], ◌∷◌}
use native.Mathlib.Omega.{arith}
use kiosk_mate.Common.Tests.{◌==◌, ltb, if◌then◌else◌}
use kiosk_mate.Common.Lists.{All, All-map}
use kiosk_mate.Common.Sorting.{place, sort, compact, unless_first}

abbrev pub IsSorted : List ℕ → Type 0
IsSorted [] = Unit
IsSorted (n ∷ ns) = All (λ m. n ≤ m) ns × IsSorted ns

-- Without repetitions.
abbrev pub IsAscending : List ℕ → Type 0
IsAscending [] = Unit
IsAscending (n ∷ ns) = All (λ m. n < m) ns × IsAscending ns

All-place :
    (n a : ℕ) (xs : List ℕ) → n ≤ a → All (λ m. n ≤ m) xs → All (λ m. n ≤ m) (place ltb a xs)
unfolding place
All-place n a [] le h = (le, tt)
All-place n a (x ∷ xs) le (h, hs) = go (ltb x a) (All-place n a xs le hs)
  where
    go :
        (before : Bool)
        → All (λ m. n ≤ m) (place ltb a xs)
        → All (λ m. n ≤ m) (if before then x ∷ place ltb a xs else a ∷ x ∷ xs)
    go true rest = (h, rest)
    go false rest = (le, (h, hs))

place-IsSorted : (a : ℕ) (xs : List ℕ) → IsSorted xs → IsSorted (place ltb a xs)
unfolding place
place-IsSorted a [] s = (tt, tt)
place-IsSorted a (x ∷ xs) (h, s) = go (ltb x a) refl (place-IsSorted a xs s)
  where
    small : ltb x a ≡ false → a ≤ x
    small e = ground arith

    less : ltb x a ≡ true → x ≤ a
    less e = ground arith

    go :
        (before : Bool)
        → ltb x a ≡ before
        → IsSorted (place ltb a xs)
        → IsSorted (if before then x ∷ place ltb a xs else a ∷ x ∷ xs)
    go true e rest = (All-place x a xs (less e) h, rest)
    go false e rest =
        ((small e, All-map (λ m. x ≤ m) (λ m. a ≤ m) xs (λ m g. through m (small e) g) h), (h, s))
      where
        through : (m : ℕ) → a ≤ x → x ≤ m → a ≤ m
        through m p q = omega (arith, p, q)

pub sort-IsSorted : (xs : List ℕ) → IsSorted (sort ltb xs)
unfolding sort
sort-IsSorted [] = tt
sort-IsSorted (x ∷ xs) = place-IsSorted x (sort ltb xs) (sort-IsSorted xs)

All-unless_first :
    (n a : ℕ) (xs : List ℕ) → n ≤ a → All (λ m. n ≤ m) xs → All (λ m. n ≤ m) (unless_first a xs)
All-unless_first n a [] le h = (le, tt)
All-unless_first n a (x ∷ xs) le h = go (a == x)
  where
    go : (same : Bool) → All (λ m. n ≤ m) (if same then x ∷ xs else a ∷ x ∷ xs)
    go true = h
    go false = (le, h)

All-compact : (n : ℕ) (xs : List ℕ) → All (λ m. n ≤ m) xs → All (λ m. n ≤ m) (compact xs)
unfolding compact
All-compact n [] h = tt
All-compact n (x ∷ xs) (h, hs) = All-unless_first n x (compact xs) h (All-compact n xs hs)

unless_first-IsAscending :
    (a : ℕ) (xs : List ℕ) → All (λ m. a ≤ m) xs → IsAscending xs → IsAscending (unless_first a xs)
unless_first-IsAscending a [] h s = (tt, tt)
unless_first-IsAscending a (x ∷ xs) (h, hs) (g, s) = go (a == x) refl
  where
    apart : (a == x) ≡ false → a < x
    apart e = ground arith

    go : (same : Bool) → (a == x) ≡ same → IsAscending (if same then x ∷ xs else a ∷ x ∷ xs)
    go true e = (g, s)
    go false e =
        ((apart e, All-map (λ m. x < m) (λ m. a < m) xs (λ m q. through m (apart e) q) g), (g, s))
      where
        through : (m : ℕ) → a < x → x < m → a < m
        through m p q = omega (arith, p, q)

pub compact-IsAscending : (xs : List ℕ) → IsSorted xs → IsAscending (compact xs)
unfolding compact
compact-IsAscending [] s = tt
compact-IsAscending (x ∷ xs) (h, s) =
    unless_first-IsAscending x (compact xs) (All-compact x xs h) (compact-IsAscending xs s)
