-- ===== src/Supervisor/Recovery/Budget.antt =====
-- How often the browser is recovered.
use kiosk_mate.Common.{
  ℕ, ◌≤◌, ◌≡◌, inl, inr, Bool-cases, Option-cases, Bool, Option, none, some, List, [], ◌∷◌, ◌++◌,
  leb, length, append-nil, Text, arith,
}
use kiosk_mate.Supervisor.Window.{hour, recent}
use kiosk_mate.Supervisor.Window.Limit.{
  count_in, Tracks, Tracks-empty, Tracks-later, Tracks-recent, Tracks-run,
}
use kiosk_mate.Supervisor.Recovery.{
  Browser, Failure, World, max_recovery_runs, spend, admit, attempt, recover, restart, start,
  continue, finish_recovery, active_backoff,
}

-- The attempt that an admission starts, if it starts one.
abbrev pub begun : ℕ → Browser × Option Failure → List ℕ
begun now (b, none) = now ∷ []
begun now (b, some e) = []

abbrev Within : ℕ → List ℕ → List ℕ → Type 0
Within now history runs = Tracks hour max_recovery_runs now history runs

module _ {now : ℕ} {history : List ℕ} (at : ℕ) (reason : Text) (b : Browser) (h : now ≤ at)
    (k : Within now history b.recovery_runs) where
  spend-Within :
      Within at (history ++ begun at (spend at reason b)) (spend at reason b).0.recovery_runs
  unfolding spend
  spend-Within =
      elim (Bool-cases (leb max_recovery_runs (length (recent hour at b.recovery_runs)))) [
        | inl full ↦ rw (full, append-nil) (Tracks-recent hour at h k)
        | inr room ↦ rw room (Tracks-run hour at h k (ground arith))
      ]

  refused-Within : Within at (history ++ []) b.recovery_runs
  refused-Within = rw append-nil (Tracks-later hour at h k)

  admit-Within :
      Within at (history ++ begun at (admit at reason b)) (admit at reason b).0.recovery_runs
  unfolding admit
  admit-Within = elim (Bool-cases b.manually_stopped) [
    | inl stopped ↦ rw stopped refused-Within
    | inr free ↦ elim (Option-cases b.guard) [
      | inr (why, tripped) ↦ rw (free, tripped) refused-Within
      | inl clear ↦ elim (Option-cases (active_backoff at b.recovery.backoff_until)) [
        | inr (until, held) ↦ rw (free, clear, held) refused-Within
        | inl over ↦ rw (free, clear, over) spend-Within
      ]
    ]
  ]

attempt-runs :
    (force_restart : Bool) (w : World) (b : Browser)
    → (attempt force_restart w b).0.recovery_runs ≡ b.recovery_runs
unfolding attempt restart start finish_recovery
attempt-runs force_restart w b = ground arith

recover-Within :
    {now : ℕ} {history : List ℕ} (at : ℕ) (reason : Text) (force_restart : Bool) (w : World)
    (b : Browser)
    → now ≤ at
    → Within now history b.recovery_runs
    → Within at
        (history ++ begun at (admit at reason b))
        (recover at reason force_restart w b).0.recovery_runs
unfolding recover
recover-Within at reason force_restart w b h k =
    go (admit at reason b) (admit-Within at reason b h k)
  where
    go :
        {runs : List ℕ} (r : Browser × Option Failure)
        → Within at runs r.0.recovery_runs
        → Within at runs (continue force_restart w r).0.recovery_runs
    go (c, some e) p = p
    go (c, none) p = rw (attempt-runs force_restart w c) p

-- The states that the supervisor can reach, with the time of the last call of `recover` and the times
-- at which a recovery was begun. Whatever happens between the calls leaves the runs alone.
pub data Reachable : ℕ → List ℕ → Browser → Type 0 where
  initial : (b : Browser) → b.recovery_runs ≡ [] → Reachable 0 [] b
  called :
      {now : ℕ} {history : List ℕ} {b : Browser} (at : ℕ) (reason : Text) (force_restart : Bool)
      (w : World)
      → Reachable now history b
      → now ≤ at
      → Reachable at
          (history ++ begun at (admit at reason b))
          (recover at reason force_restart w b).0
  elsewhere :
      {now : ℕ} {history : List ℕ} {b : Browser} (c : Browser)
      → Reachable now history b
      → c.recovery_runs ≡ b.recovery_runs
      → Reachable now history c

Reachable-Within :
    {now : ℕ} {history : List ℕ} {b : Browser}
    → Reachable now history b
    → Within now history b.recovery_runs
Reachable-Within (initial b e) = rw e (Tracks-empty hour max_recovery_runs 0)
Reachable-Within (called at reason force_restart w r h) =
    recover-Within at reason force_restart w _ h (Reachable-Within r)
Reachable-Within (elsewhere c r e) = rw e (Reachable-Within r)

-- Whatever calls of `recover` are made, at times that do not run backwards, and whatever happens
-- between them that leaves the list of runs alone, at most six recoveries are begun in any hour.
pub recoveries_limited :
    {now : ℕ} {history : List ℕ} {b : Browser} (t : ℕ)
    → Reachable now history b
    → count_in hour t history ≤ max_recovery_runs
recoveries_limited t r = (Reachable-Within r).limited t
