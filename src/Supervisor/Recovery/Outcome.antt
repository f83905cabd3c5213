-- ===== src/Supervisor/Recovery/Outcome.antt =====
-- What a recovery leaves behind, on every branch.
use kiosk_mate.Common.{
  ℕ, ◌+◌, ◌<◌, ◌≡◌, refl, subst, ◌↔◌, ◌⊎◌, inl, inr, Bool-cases, Option-cases, not, ◌&&◌, Bool,
  true, false, Option, none, some, length, if◌then◌else◌, Text, arith,
}
use kiosk_mate.Supervisor.Window.{hour, recent}
use kiosk_mate.Supervisor.Recovery.{
  Browser, Failure, World, max_recovery_runs, spend, admit, attempt, recover, restart, start,
  continue, finish_recovery, finish_restart, note_restart, recovery_delay, active_backoff, denial,
  trip_auth_guard,
}

-- A recovery is begun exactly when the browser was not stopped by hand, the authentication guard is
-- not tripped, no backoff is active, and fewer than six recoveries were begun in the last hour.
pub admit-none :
    (now : ℕ) (reason : Text) (b : Browser)
    → ((admit now reason b).1 ≡ none)
      ↔ (b.manually_stopped ≡ false)
        × (b.guard ≡ none)
        × (active_backoff now b.recovery.backoff_until ≡ none)
        × (length (recent hour now b.recovery_runs) < max_recovery_runs)
unfolding admit spend
admit-none now reason b =
    (λ e. (ground arith, ground arith, ground arith, ground arith), λ h. ground arith)

admit-attempts :
    (now : ℕ) (reason : Text) (b : Browser)
    → (admit now reason b).1 ≡ none
    → (admit now reason b).0.recovery.attempts ≡ b.recovery.attempts
unfolding admit spend
admit-attempts now reason b e = ground arith

-- The attempts that count for a new one: those so far, or none if Home Assistant denied the start, which
-- trips the guard and begins the status anew.
abbrev pub Counted : ℕ → ℕ → Browser → Type 0
Counted n m b = (m ≡ n) ⊎ ((m ≡ 0) × (b.guard ≡ some denial))

-- The status after an attempt that `w` decided, from `n` failed attempts on.
abbrev pub Finished : World → ℕ → Browser × Option Failure → Type 0
Finished w n (b, none) =
    (b.recovery.state ≡ "healthy")
    × (b.recovery.stage ≡ "running")
    × (b.recovery.attempts ≡ n)
    × (b.recovery.backoff_until ≡ none)
Finished w n (b, some e) =
    (m : ℕ) × Counted n m b
    × (b.recovery.state ≡ "failed")
    × (b.recovery.attempts ≡ m + 1)
    × (b.recovery.backoff_until ≡ some (w.finished_at + recovery_delay (m + 1)))

-- A start without an error keeps the attempts, and one with an error counts them.
abbrev Kept : ℕ → Browser × Option Failure → Type 0
Kept n (b, none) = b.recovery.attempts ≡ n
Kept n (b, some e) = Counted n b.recovery.attempts b

finish_restart-Finished :
    (w : World) (n : ℕ) (r : Browser × Option Failure)
    → Kept n r
    → Finished w n (finish_restart w.finished_at r)
unfolding finish_recovery
finish_restart-Finished w n (b, none) e = (refl, refl, e, refl)
finish_restart-Finished w n (b, some x) e = (b.recovery.attempts, e, refl, refl, refl)

start-Kept : (w : World) (b : Browser) → Kept b.recovery.attempts (start w.launch b)
unfolding start trip_auth_guard
start-Kept w b = ground arith

restart-Kept : (w : World) (b : Browser) → Kept b.recovery.attempts (restart w b)
unfolding restart trip_auth_guard
restart-Kept w b = ground arith

by_restart-Kept :
    (up : Bool) (w : World) (b : Browser)
    → Kept b.recovery.attempts (if up then restart w b else start w.launch b)
by_restart-Kept true w b = restart-Kept w b
by_restart-Kept false w b = start-Kept w b

attempt-Finished :
    (force_restart : Bool) (w : World) (b : Browser)
    → Finished w b.recovery.attempts (attempt force_restart w b)
unfolding attempt
attempt-Finished force_restart w b =
    let restarted =
      finish_restart-Finished w b.recovery.attempts _
        (by_restart-Kept b.running w (note_restart b)) in
    elim (Bool-cases (b.running && not force_restart)) [
      | inr no_reload ↦ rw no_reload restarted
      | inl try_reload ↦ elim (Option-cases w.reload) [
        | inl reloaded ↦
            rw (try_reload, reloaded) (unfold finish_recovery in (refl, refl, refl, refl))
        | inr (e, failed) ↦ rw (try_reload, failed) restarted
      ]
    ]

continue-Finished :
    (force_restart : Bool) (w : World) (n : ℕ) (r : Browser × Option Failure)
    → r.1 ≡ none
    → r.0.recovery.attempts ≡ n
    → Finished w n (continue force_restart w r)
continue-Finished force_restart w n (c, some e) h k = cc
continue-Finished force_restart w n (c, none) h k =
    subst (λ m. Finished w m (attempt force_restart w c)) k (attempt-Finished force_restart w c)

continue_refused :
    (force_restart : Bool) (w : World) (e : Failure) (r : Browser × Option Failure)
    → r.1 ≡ some e
    → continue force_restart w r ≡ r
continue_refused force_restart w e (c, some e') h = refl
continue_refused force_restart w e (c, none) h = cc

admit-running : (now : ℕ) (reason : Text) (b : Browser) → (admit now reason b).0.running ≡ b.running
unfolding admit spend
admit-running now reason b = ground arith

-- A recovery that is begun ends, for every way in which the reload, the stop and the start may end, in
-- one of two ways: without an error, healthy, with the attempts as they were and no backoff; or with an
-- error, failed, with one more attempt and a backoff of that many attempts' delay, where the attempts
-- count from 0 again if Home Assistant denied the start, and the guard is tripped then. One that is not begun
-- returns the refusal and leaves the browser running or not, as it was.
pub recover-Finished :
    (now : ℕ) (reason : Text) (force_restart : Bool) (w : World) (b : Browser)
    → ((admit now reason b).1 ≡ none
        → Finished w b.recovery.attempts (recover now reason force_restart w b))
      × ((e : Failure)
          → (admit now reason b).1 ≡ some e
          → ((recover now reason force_restart w b).1 ≡ some e)
            × ((recover now reason force_restart w b).0.running ≡ b.running))
unfolding recover
recover-Finished now reason force_restart w b = (
  λ h.
      continue-Finished force_restart w b.recovery.attempts (admit now reason b) h
        (admit-attempts now reason b h),
  λ e h.
      rw (continue_refused force_restart w e (admit now reason b) h)
        (h, admit-running now reason b),
)
