-- ===== src/Supervisor/Tabs/Use.antt =====
-- The use list of tabs as a set: what using and dropping a page does to its members.
use kiosk_mate.Common.{
  ℕ, ◌≡◌, refl, sym, ap, ◌∙◌, Bool, true, false, not, ◌&&◌, ◌||◌, Option, none, some, List, [], ◌∷◌,
  ◌++◌, ◌==◌, Text, arith, Bool-cases, inl, inr,
}
use kiosk_mate.Supervisor.Tabs.{find_victim, member, without, put, delete}

abbrev pub IsDistinct : List ℕ → Type 0
IsDistinct [] = Unit
IsDistinct (x ∷ xs) = (member x xs ≡ false) × IsDistinct xs

abbrev pub is_open : Option Text → Bool
is_open none = false
is_open (some t) = true

-- The pages in use are distinct, and are exactly those with an open tab.
abbrev pub IsConsistent : List ℕ → (ℕ → Option Text) → Type 0
IsConsistent used tabs = IsDistinct used × ((i : ℕ) → member i used ≡ is_open (tabs i))

member-without : (j i : ℕ) (xs : List ℕ) → member j (without i xs) ≡ (member j xs && not (i == j))
member-without j i [] = refl
member-without j i (x ∷ xs) = ground (arith, member-without j i xs)

member-append : (j i : ℕ) (xs : List ℕ) → member j (xs ++ i ∷ []) ≡ (member j xs || i == j)
member-append j i [] = ground arith
member-append j i (x ∷ xs) = ground (arith, member-append j i xs)

without-IsDistinct : (i : ℕ) (xs : List ℕ) → IsDistinct xs → IsDistinct (without i xs)
without-IsDistinct i [] d = tt
without-IsDistinct i (x ∷ xs) (n, d) =
    ground (arith, member-without x i xs, without-IsDistinct i xs d)

append-IsDistinct :
    (i : ℕ) (xs : List ℕ) → member i xs ≡ false → IsDistinct xs → IsDistinct (xs ++ i ∷ [])
append-IsDistinct i [] n d = (refl, tt)
append-IsDistinct i (x ∷ xs) n (m, d) =
    (ground (arith, member-append x i xs), append-IsDistinct i xs (ground arith) d)

without-absent : (i : ℕ) (xs : List ℕ) → member i xs ≡ false → without i xs ≡ xs
without-absent i [] n = refl
without-absent i (x ∷ xs) n = ground (arith, without-absent i xs)

-- Using a page's tab keeps the agreement.
pub touched-IsConsistent :
    (i : ℕ) (t : Text) (used : List ℕ) (tabs : ℕ → Option Text)
    → IsConsistent used tabs
    → IsConsistent (without i used ++ i ∷ []) (put i t tabs)
touched-IsConsistent i t used tabs (d, c) = (
  append-IsDistinct i (without i used) (ground (arith, member-without i i used))
      (without-IsDistinct i used d),
  λ j. ground (arith, member-append j i (without i used), member-without j i used, c j),
)

pub dropped-IsConsistent :
    (i : ℕ) (used : List ℕ) (tabs : ℕ → Option Text)
    → IsConsistent used tabs
    → IsConsistent (without i used) (delete i tabs)
dropped-IsConsistent i used tabs (d, c) =
    (without-IsDistinct i used d, λ j. ground (arith, member-without j i used, c j))

abbrev pub Without : List ℕ → Option (ℕ × List ℕ) → Type 0
Without xs none = Unit
Without xs (some (victim, rest)) = (rest ≡ without victim xs) × (member victim xs ≡ true)

pub find_victim-Without :
    (kept : ℕ → Bool) (xs : List ℕ) → IsDistinct xs → Without xs (find_victim kept xs)
unfolding find_victim
find_victim-Without kept [] d = tt
find_victim-Without kept (x ∷ xs) (n, d) =
    go (kept x) (find_victim kept xs) (find_victim-Without kept xs d)
  where
    go :
        (k : Bool) (found : Option (ℕ × List ℕ))
        → Without xs found
        → Without (x ∷ xs) (elim k [
          | false ↦ some (x, xs)
          | true ↦ elim found [ none ↦ none | some (victim, others) ↦ some (victim, x ∷ others) ]
        ])
    go false found f = (ground (arith, without-absent x xs n), ground arith)
    go true none f = tt
    go true (some (victim, others)) (e, m) = elim (Bool-cases (x == victim)) [
      | inl same ↦
          let equal : x ≡ victim = ground arith in
          let clash : false ≡ true = sym n ∙ (ap (λ i. member i xs) equal ∙ m) in absurd (cc clash)
      | inr other ↦ (ground arith, ground arith)
    ]
