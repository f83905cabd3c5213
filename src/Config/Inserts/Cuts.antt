-- ===== src/Config/Inserts/Cuts.antt =====
-- The cuts of `ProgramTimeline` in internal/config/inserts.go: between two of them no slot starts or ends.
use kiosk_mate.Common.{
  ℕ, ◌≤◌, ◌<◌, ◌≡◌, ◌⊎◌, inl, inr, refl, sym, ap, subst, ◌∙◌, Bool, true, false, Option, List, [],
  ◌∷◌, if-both, if◌then◌else◌, Memᴰ, arith,
}
use mathlib.Core.List.Memᴰ
use kiosk_mate.Config.Inserts.{InsertSlot}
use kiosk_mate.Config.Inserts.Program.{is_running, better, best_from, inside, keep_inside, edges}

-- Two instants between which no slot starts or ends have the same winner.
pub best_from-same :
    (a t : ℕ) (slots : List InsertSlot) (best : Option InsertSlot)
    → ((s : InsertSlot) → Memᴰ s slots → is_running t s ≡ is_running a s)
    → best_from t slots best ≡ best_from a slots best
unfolding best_from
best_from-same a t [] best h = refl
best_from-same a t (x ∷ slots) best h =
    ap (λ running. best_from t slots (if running then better x best else best))
      (h x (Memᴰ.head refl))
    ∙ best_from-same a t slots _ (λ s m. h s (Memᴰ.tail m))

module _ (from to : ℕ) where
  keep-head :
      (at : ℕ) (rest : List ℕ) → inside from to at ≡ true → Memᴰ at (keep_inside from to at rest)
  keep-head at rest h = go (inside from to at) h
    where
      go : (b : Bool) → b ≡ true → Memᴰ at (if b then at ∷ rest else rest)
      go true e = Memᴰ.head refl
      go false e = cc

  keep-tail : (n at : ℕ) (rest : List ℕ) → Memᴰ n rest → Memᴰ n (keep_inside from to at rest)
  keep-tail n at rest m = if-both (Memᴰ n) (inside from to at) (Memᴰ.tail m) m

  pub edges-Mem :
      (slots : List InsertSlot) (s : InsertSlot)
      → Memᴰ s slots
      → (inside from to s.start ≡ true → Memᴰ s.start (edges from to slots))
        × (inside from to s.end ≡ true → Memᴰ s.end (edges from to slots))
  unfolding edges
  edges-Mem [] s m = absurd (Memᴰ.not-nil m)
  edges-Mem (x ∷ slots) s (Memᴰ.tail m) =
      let (starts, ends) = edges-Mem slots s m in
      (
        λ h. keep-tail s.start x.start _ (keep-tail s.start x.end _ (starts h)),
        λ h. keep-tail s.end x.start _ (keep-tail s.end x.end _ (ends h)),
      )
  edges-Mem (x ∷ slots) s (Memᴰ.head e) =
      subst
        (λ (y : InsertSlot).
          (inside from to y.start ≡ true → Memᴰ y.start (edges from to (x ∷ slots)))
          × (inside from to y.end ≡ true → Memᴰ y.end (edges from to (x ∷ slots))))
        (sym e) (λ h. keep-head x.start _ h, λ h. keep-tail x.end x.start _ (keep-head x.end _ h))

  keep-inside :
      (n at : ℕ) (rest : List ℕ)
      → Memᴰ n (keep_inside from to at rest)
      → ((from < n) × (n < to)) ⊎ Memᴰ n rest
  keep-inside n at rest m = go (inside from to at) (λ h. (ground arith, ground arith)) m
    where
      first :
          (from < at) × (at < to) → (n ≡ at) ⊎ Memᴰ n rest → ((from < n) × (n < to)) ⊎ Memᴰ n rest
      first h (inl e) = inl (omega (arith, h.0, e), omega (arith, h.1, e))
      first h (inr g) = inr g

      go :
          (b : Bool)
          → (b ≡ true → (from < at) × (at < to))
          → Memᴰ n (if b then at ∷ rest else rest)
          → ((from < n) × (n < to)) ⊎ Memᴰ n rest
      go true h g = first (h refl) (Memᴰ.cases_cons g)
      go false h g = inr g

  -- Every edge is inside.
  pub edges-inside :
      (slots : List InsertSlot) (n : ℕ) → Memᴰ n (edges from to slots) → (from < n) × (n < to)
  unfolding edges
  edges-inside [] n m = absurd (Memᴰ.not-nil m)
  edges-inside (x ∷ slots) n m =
      go (keep-inside n x.start (keep_inside from to x.end (edges from to slots)) m)
        (λ g. edges-inside slots n g)
    where
      second :
          ((from < n) × (n < to)) ⊎ Memᴰ n (edges from to slots)
          → (Memᴰ n (edges from to slots) → (from < n) × (n < to))
          → (from < n) × (n < to)
      second (inl h) rest = h
      second (inr g) rest = rest g

      go :
          ((from < n) × (n < to)) ⊎ Memᴰ n (keep_inside from to x.end (edges from to slots))
          → (Memᴰ n (edges from to slots) → (from < n) × (n < to))
          → (from < n) × (n < to)
      go (inl h) rest = h
      go (inr g) rest = second (keep-inside n x.end (edges from to slots) g) rest

-- The start and the end of a slot are not strictly between `a` and `b`.
abbrev pub IsQuiet : ℕ → ℕ → InsertSlot → Type 0
IsQuiet a b s = ((s.start ≤ a) ⊎ (b ≤ s.start)) × ((s.end ≤ a) ⊎ (b ≤ s.end))

pub quiet-running :
    (a b t : ℕ) (s : InsertSlot) → IsQuiet a b s → a ≤ t → t < b → is_running t s ≡ is_running a s
quiet-running a b t s (p, q) le lt = ground arith
