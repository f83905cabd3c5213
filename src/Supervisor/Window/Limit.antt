-- ===== src/Supervisor/Window/Limit.antt =====
-- A window that is pruned and asked before each run holds the rate: this is the lemma behind the
-- restart budget of recoveries and of the watchdog.
use kiosk_mate.Common.{
  ℕ, ◌+◌, ◌≤◌, ◌<◌, ◌≡◌, refl, inl, inr, Bool-cases, dec_lt, List, [], ◌∷◌, ◌++◌, ◌&&◌, leb, length,
  All, if◌then◌else◌, arith,
}
use kiosk_mate.Supervisor.Window.{within, recent}

-- How many of the times lie in the window that ends at `t`, end included.
unfoldable pub count_in : ℕ → ℕ → List ℕ → ℕ
count_in window t [] = 0
count_in window t (a ∷ times) =
    (if within window t a && leb a t then 1 else 0) + count_in window t times

-- The same without the upper end.
unfoldable pub count_after : ℕ → ℕ → List ℕ → ℕ
count_after window t [] = 0
count_after window t (a ∷ times) = (if within window t a then 1 else 0) + count_after window t times

module _ (window : ℕ) where
  count_in-le : (t : ℕ) (times : List ℕ) → count_in window t times ≤ count_after window t times
  unfolding count_in count_after
  count_in-le t [] = omega arith
  count_in-le t (a ∷ times) = ground (arith, count_in-le t times)

  count_after_antitone :
      (s t : ℕ) (times : List ℕ) → s ≤ t → count_after window t times ≤ count_after window s times
  unfolding count_after
  count_after_antitone s t [] h = omega arith
  count_after_antitone s t (a ∷ times) h = ground (arith, count_after_antitone s t times)

  length-recent :
      (now : ℕ) (runs : List ℕ) → length (recent window now runs) ≡ count_after window now runs
  unfolding recent count_after
  length-recent now [] = refl
  length-recent now (a ∷ runs) = ground (arith, length-recent now runs)

  count_after-recent :
      (now t : ℕ) (runs : List ℕ)
      → now ≤ t
      → count_after window t (recent window now runs) ≡ count_after window t runs
  unfolding recent count_after
  count_after-recent now t [] h = refl
  count_after-recent now t (a ∷ runs) h = ground (arith, count_after-recent now t runs)

  count_in-append :
      (t : ℕ) (xs ys : List ℕ)
      → count_in window t (xs ++ ys) ≡ count_in window t xs + count_in window t ys
  unfolding count_in
  count_in-append t [] ys = omega arith
  count_in-append t (a ∷ xs) ys = omega (arith, count_in-append t xs ys)

  count_after-append :
      (t : ℕ) (xs ys : List ℕ)
      → count_after window t (xs ++ ys) ≡ count_after window t xs + count_after window t ys
  unfolding count_after
  count_after-append t [] ys = omega arith
  count_after-append t (a ∷ xs) ys = omega (arith, count_after-append t xs ys)

  one_run :
      (t now : ℕ)
      → (count_in window t (now ∷ []) ≤ 1) × (t < now → count_in window t (now ∷ []) ≡ 0)
  unfolding count_in
  one_run t now = (ground arith, λ h. ground arith)

  -- `history` is every run that was ever let through, `runs` is what the program remembers.
  pub record Tracks (limit now : ℕ) (history runs : List ℕ) : Type 0 where
    pub remembered : (t : ℕ) → now ≤ t → count_after window t history ≡ count_after window t runs
    pub limited : (t : ℕ) → count_in window t history ≤ limit

  pub Tracks-empty : (limit now : ℕ) → Tracks limit now [] []
  unfolding count_in
  Tracks-empty limit now = record { remembered = λ t h. refl; limited = λ t. omega arith }

  -- Pruning at a later time keeps the bookkeeping.
  pub Tracks-recent :
      {limit now : ℕ} {history runs : List ℕ} (later : ℕ)
      → now ≤ later
      → Tracks limit now history runs
      → Tracks limit later history (recent window later runs)
  Tracks-recent {runs = runs} later h k = record {
    remembered =
        λ t p. omega (arith, k.remembered t (omega arith), count_after-recent later t runs p);
    limited = k.limited;
  }

  -- A run at `later` is within the limit if the pruned list has room.
  pub Tracks-run :
      {limit now : ℕ} {history runs : List ℕ} (later : ℕ)
      → now ≤ later
      → Tracks limit now history runs
      → length (recent window later runs) < limit
      → Tracks limit later (history ++ later ∷ []) (recent window later runs ++ later ∷ [])
  Tracks-run {limit} {now} {history} {runs} later h k room = record {
    remembered = λ t p. omega (
      arith,
      k.remembered t (omega arith),
      count_after-recent later t runs p,
      count_after-append t history (later ∷ []),
      count_after-append t (recent window later runs) (later ∷ []),
    );
    limited = λ t. elim (dec_lt t later) [
      | yes before ↦ omega (arith, split t, (one_run t later).1 before, k.limited t)
      | no after ↦ omega (
        arith,
        split t,
        (one_run t later).0,
        count_in-le t history,
        count_after_antitone later t history (omega arith),
        k.remembered later h,
        length-recent later runs,
      )
    ];
  }
    where
      split :
          (t : ℕ)
          → count_in window t (history ++ later ∷ [])
            ≡ count_in window t history + count_in window t (later ∷ [])
      split t = count_in-append t history (later ∷ [])

  pub Tracks-later :
      {limit now : ℕ} {history runs : List ℕ} (later : ℕ)
      → now ≤ later
      → Tracks limit now history runs
      → Tracks limit later history runs
  Tracks-later later h k = record {
    remembered = λ t p. k.remembered t (omega arith);
    limited = k.limited;
  }

  pub recent-All {κ} :
      (P : ℕ → Type κ) (now : ℕ) (runs : List ℕ) → All P runs → All P (recent window now runs)
  unfolding recent
  recent-All P now [] h = tt
  recent-All P now (a ∷ runs) h = elim (Bool-cases (within window now a)) [
    | inl young ↦ rw young (h.0, recent-All P now runs h.1)
    | inr old ↦ rw old (recent-All P now runs h.1)
  ]

  -- Once the window has passed for every run, none is recent.
  pub recent_none :
      (now : ℕ) (runs : List ℕ) → All (λ a. a + window ≤ now) runs → recent window now runs ≡ []
  unfolding recent
  recent_none now [] h = refl
  recent_none now (a ∷ runs) h = ground (arith, recent_none now runs h.1)
