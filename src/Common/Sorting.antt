-- ===== src/Common/Sorting.antt =====
-- Stable sorting, and dropping neighbours that are equal: what the code uses of Go's `sort` and `slices`.
use Prim.Native.Nat.{ℕ}
use mathlib.Core.Path.{◌≡◌, refl}
use mathlib.Core.Logic.{◌⊎◌, inl, inr}
use mathlib.Core.Bool.{Bool, true, false}
use mathlib.Core.List.{List, [], ◌∷◌}
use mathlib.Core.List.{Memᴰ}
use mathlib.Core.List.Memᴰ
use kiosk_mate.Common.Tests.{◌==◌, ==_iff, if◌then◌else◌, if-both}

module _ {ℓ} {A : Type ℓ} (less : A → A → Bool) where
  -- Before the first element that is not less.
  unfoldable pub place : A → List A → List A
  place a [] = a ∷ []
  place a (x ∷ xs) = let rest = place a xs in if less x a then x ∷ rest else a ∷ x ∷ xs

  unfoldable pub sort : List A → List A
  unfolding place
  sort [] = []
  sort (x ∷ xs) = place x (sort xs)

abbrev pub unless_first : ℕ → List ℕ → List ℕ
unless_first n [] = n ∷ []
unless_first n (m ∷ ms) = if n == m then m ∷ ms else n ∷ m ∷ ms

-- `slices.Compact` of numbers.
unfoldable pub compact : List ℕ → List ℕ
compact [] = []
compact (n ∷ ns) = unless_first n (compact ns)

module _ {ℓ} {A : Type ℓ} (less : A → A → Bool) where
  place-head : (a : A) (xs : List A) → Memᴰ a (place less a xs)
  unfolding place
  place-head a [] = Memᴰ.head refl
  place-head a (x ∷ xs) = if-both (Memᴰ a) (less x a) (Memᴰ.tail (place-head a xs)) (Memᴰ.head refl)

  place-tail : (a b : A) (xs : List A) → Memᴰ b xs → Memᴰ b (place less a xs)
  unfolding place
  place-tail a b [] m = absurd (Memᴰ.not-nil m)
  place-tail a b (x ∷ xs) (Memᴰ.head e) =
      if-both (Memᴰ b) (less x a) (Memᴰ.head e) (Memᴰ.tail (Memᴰ.head e))
  place-tail a b (x ∷ xs) (Memᴰ.tail m) =
      if-both (Memᴰ b) (less x a) (Memᴰ.tail (place-tail a b xs m)) (Memᴰ.tail (Memᴰ.tail m))

  place-cases : (a b : A) (xs : List A) → Memᴰ b (place less a xs) → (b ≡ a) ⊎ Memᴰ b xs
  unfolding place
  place-cases a b [] m = Memᴰ.cases_cons m
  place-cases a b (x ∷ xs) m = go (less x a) m (λ h. place-cases a b xs h)
    where
      below : (b ≡ a) ⊎ Memᴰ b xs → (b ≡ a) ⊎ Memᴰ b (x ∷ xs)
      below (inl e) = inl e
      below (inr h) = inr (Memᴰ.tail h)

      first :
          (Memᴰ b (place less a xs) → (b ≡ a) ⊎ Memᴰ b xs)
          → (b ≡ x) ⊎ Memᴰ b (place less a xs)
          → (b ≡ a) ⊎ Memᴰ b (x ∷ xs)
      first later (inl e) = inr (Memᴰ.head e)
      first later (inr h) = below (later h)

      go :
          (before : Bool)
          → Memᴰ b (if before then x ∷ place less a xs else a ∷ x ∷ xs)
          → (Memᴰ b (place less a xs) → (b ≡ a) ⊎ Memᴰ b xs)
          → (b ≡ a) ⊎ Memᴰ b (x ∷ xs)
      go true h later = first later (Memᴰ.cases_cons h)
      go false h later = Memᴰ.cases_cons h

  -- Sorting keeps the elements.
  pub sort-Mem : (b : A) (xs : List A) → Memᴰ b xs → Memᴰ b (sort less xs)
  unfolding sort
  sort-Mem b [] m = absurd (Memᴰ.not-nil m)
  sort-Mem b (x ∷ xs) (Memᴰ.head e) = Memᴰ.cast e (place-head x (sort less xs))
  sort-Mem b (x ∷ xs) (Memᴰ.tail m) = place-tail x b (sort less xs) (sort-Mem b xs m)

  pub Mem-sort : (b : A) (xs : List A) → Memᴰ b (sort less xs) → Memᴰ b xs
  unfolding sort
  Mem-sort b [] m = m
  Mem-sort b (x ∷ xs) m = go (place-cases x b (sort less xs) m) (λ h. Mem-sort b xs h)
    where
      go : (b ≡ x) ⊎ Memᴰ b (sort less xs) → (Memᴰ b (sort less xs) → Memᴰ b xs) → Memᴰ b (x ∷ xs)
      go (inl e) later = Memᴰ.head e
      go (inr h) later = Memᴰ.tail (later h)

unless_first-head : (n : ℕ) (ns : List ℕ) → Memᴰ n (unless_first n ns)
unless_first-head n [] = Memᴰ.head refl
unless_first-head n (m ∷ ms) = go (n == m) (λ e. (==_iff n m).0 e)
  where
    go : (same : Bool) → (same ≡ true → n ≡ m) → Memᴰ n (if same then m ∷ ms else n ∷ m ∷ ms)
    go true e = Memᴰ.head (e refl)
    go false e = Memᴰ.head refl

unless_first-tail : (n x : ℕ) (ns : List ℕ) → Memᴰ x ns → Memᴰ x (unless_first n ns)
unless_first-tail n x [] m = absurd (Memᴰ.not-nil m)
unless_first-tail n x (y ∷ ns) m = if-both (Memᴰ x) (n == y) m (Memᴰ.tail m)

unless_first-Mem : (n x : ℕ) (ns : List ℕ) → Memᴰ x (unless_first n ns) → Memᴰ x (n ∷ ns)
unless_first-Mem n x [] m = m
unless_first-Mem n x (y ∷ ns) m = go (n == y) m
  where
    go : (same : Bool) → Memᴰ x (if same then y ∷ ns else n ∷ y ∷ ns) → Memᴰ x (n ∷ y ∷ ns)
    go true h = Memᴰ.tail h
    go false h = h

-- So does dropping repetitions.
pub Mem-compact : (n : ℕ) (ns : List ℕ) → Memᴰ n (compact ns) → Memᴰ n ns
unfolding compact
Mem-compact n [] m = m
Mem-compact n (x ∷ ns) m =
    go (Memᴰ.cases_cons (unless_first-Mem x n (compact ns) m)) (λ h. Mem-compact n ns h)
  where
    go : (n ≡ x) ⊎ Memᴰ n (compact ns) → (Memᴰ n (compact ns) → Memᴰ n ns) → Memᴰ n (x ∷ ns)
    go (inl e) later = Memᴰ.head e
    go (inr h) later = Memᴰ.tail (later h)

pub compact-Mem : (n : ℕ) (ns : List ℕ) → Memᴰ n ns → Memᴰ n (compact ns)
unfolding compact
compact-Mem n [] m = absurd (Memᴰ.not-nil m)
compact-Mem n (x ∷ ns) (Memᴰ.head e) = Memᴰ.cast e (unless_first-head x (compact ns))
compact-Mem n (x ∷ ns) (Memᴰ.tail m) = unless_first-tail x n (compact ns) (compact-Mem n ns m)
