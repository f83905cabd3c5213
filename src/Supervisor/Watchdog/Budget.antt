-- ===== src/Supervisor/Watchdog/Budget.antt =====
-- How often the watchdog restarts the browser.
use kiosk_mate.Common.{
  ℕ, ◌+◌, ◌≤◌, ◌≡◌, inl, inr, Bool-cases, Bool, true, false, none, some, List, [], ◌∷◌, ◌++◌, leb,
  ltb, length, All, All-map, All-append, append-nil, append_assoc, arith,
}
use kiosk_mate.Supervisor.Window.{recent}
use kiosk_mate.Supervisor.Window.Limit.{
  count_in, Tracks, Tracks-empty, Tracks-later, Tracks-recent, Tracks-run, recent-All, recent_none,
}
use kiosk_mate.Supervisor.Watchdog.{
  Watchdog, normal, watchdog_restart_allowed, watchdog_restart_window, watchdog_suppress_duration,
  watchdog_max_restarts_in_window, before_until,
}

abbrev pub let_through : ℕ → Watchdog × Bool → List ℕ
let_through now (b, true) = now ∷ []
let_through now (b, false) = []

-- The times at which a watchdog that asks at the given times may restart the browser.
unfoldable pub restarts : Watchdog → List ℕ → List ℕ
restarts b [] = []
restarts b (now ∷ times) =
    let_through now (watchdog_restart_allowed now b)
    ++ restarts (watchdog_restart_allowed now b).0 times

abbrev pub IsChronological : ℕ → List ℕ → Type 0
IsChronological now [] = Unit
IsChronological now (at ∷ times) = (now ≤ at) × IsChronological at times

abbrev pub Bounded : ℕ → List ℕ → Watchdog → Type 0
Bounded now history b =
    Tracks watchdog_restart_window watchdog_max_restarts_in_window now history b.watchdog_runs

step-Bounded :
    {now : ℕ} {history : List ℕ} (b : Watchdog) (at : ℕ)
    → now ≤ at
    → Bounded now history b
    → Bounded at
        (history ++ let_through at (watchdog_restart_allowed at b))
        (watchdog_restart_allowed at b).0
unfolding watchdog_restart_allowed
step-Bounded {now} {history} b at h k =
    let runs = recent watchdog_restart_window at b.watchdog_runs in
    elim (Bool-cases (before_until at b.suppressed_until)) [
      | inl held ↦ rw (held, append-nil) (Tracks-later watchdog_restart_window at h k)
      | inr free ↦ elim (Bool-cases (leb watchdog_max_restarts_in_window (length runs))) [
        | inl full ↦ rw (free, full, append-nil) (Tracks-recent watchdog_restart_window at h k)
        | inr room ↦ rw (free, room) (Tracks-run watchdog_restart_window at h k (ground arith))
      ]
    ]

restarts-Bounded :
    (times history : List ℕ) (now : ℕ) (b : Watchdog) (t : ℕ)
    → Bounded now history b
    → IsChronological now times
    → count_in watchdog_restart_window t (history ++ restarts b times)
      ≤ watchdog_max_restarts_in_window
unfolding restarts
restarts-Bounded [] history now b t k h = rw append-nil (k.limited t)
restarts-Bounded (at ∷ times) history now b t k h =
    let here : List ℕ = let_through at (watchdog_restart_allowed at b) in
    rw (← append_assoc history here (restarts (watchdog_restart_allowed at b).0 times)) (
      restarts-Bounded times (history ++ here) at (watchdog_restart_allowed at b).0 t
        (step-Bounded b at h.0 k) h.1)

abbrev pub fresh : Watchdog
fresh = record {
  last_action = "";
  suppressed_until = none;
  restart_window_count = 0;
  pressure = normal;
  watchdog_runs = [];
  hot_since = 0;
}

-- However often a watchdog that starts afresh asks, at times that do not run backwards, it restarts the
-- browser at most three times in any half hour.
pub restarts_limited :
    (times : List ℕ) (t : ℕ)
    → IsChronological 0 times
    → count_in watchdog_restart_window t (restarts fresh times) ≤ watchdog_max_restarts_in_window
restarts_limited times t h =
    restarts-Bounded times [] 0 fresh t (Tracks-empty watchdog_restart_window 3 0) h

-- A suppression ends no earlier than the window of every remembered run.
pub record IsSettled (now : ℕ) (b : Watchdog) : Type 0 where
  pub past : All (λ a. a ≤ now) b.watchdog_runs
  pub settled :
      (until : ℕ)
      → b.suppressed_until ≡ some until
      → All (λ a. a + watchdog_restart_window ≤ until) b.watchdog_runs

some_eq : (a b : ℕ) → some a ≡ some b → a ≡ b
some_eq a b e = cc

pub watchdog_restart_allowed-IsSettled :
    {now : ℕ} (b : Watchdog) (at : ℕ)
    → now ≤ at
    → IsSettled now b
    → IsSettled at (watchdog_restart_allowed at b).0
unfolding watchdog_restart_allowed
watchdog_restart_allowed-IsSettled {now} b at h k =
    let runs = recent watchdog_restart_window at b.watchdog_runs in
    let past = All-map (λ a. a ≤ now) (λ a. a ≤ at) b.watchdog_runs (λ a q. omega arith) k.past in
    let past' = recent-All watchdog_restart_window (λ a. a ≤ at) at b.watchdog_runs past in
    elim (Bool-cases (before_until at b.suppressed_until)) [
      | inl held ↦ rw held (record { past = past; settled = k.settled })
      | inr free ↦ elim (Bool-cases (leb watchdog_max_restarts_in_window (length runs))) [
        | inl full ↦
            rw (free, full)
              (record {
                past = past';
                settled = λ until e.
                    let ends = some_eq (at + watchdog_suppress_duration) until e in
                    All-map (λ a. a ≤ at) (λ a. a + watchdog_restart_window ≤ until) runs
                      (λ a q. omega arith) past';
              })
        | inr room ↦
            rw (free, room)
              (record {
                past = All-append (λ a. a ≤ at) runs (at ∷ []) past' (omega arith);
                settled = λ until e. cc;
              })
      ]
    ]

-- In a settled state with a suppression until the time `until`, the answer is no before `until`, and yes
-- at every time from then on.
pub suppression_ends :
    (now : ℕ) (b : Watchdog) (until : ℕ) (at : ℕ)
    → IsSettled now b
    → b.suppressed_until ≡ some until
    → (watchdog_restart_allowed at b).1 ≡ leb until at
unfolding watchdog_restart_allowed
suppression_ends now b until at k e = elim (Bool-cases (ltb at until)) [
  | inl early ↦ rw (e, early) (ground arith)
  | inr late ↦
      let none_left = recent_none watchdog_restart_window at b.watchdog_runs (
        All-map (λ a. a + watchdog_restart_window ≤ until) (λ a. a + watchdog_restart_window ≤ at)
          b.watchdog_runs (λ a q. ground arith) (k.settled until e)) in
      rw (e, late, none_left) (ground arith)
]
