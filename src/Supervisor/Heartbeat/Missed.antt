-- ===== src/Supervisor/Heartbeat/Missed.antt =====
-- How far the missed heartbeats can count.
use kiosk_mate.Common.{ℕ, ◌+◌, ◌≤◌, ◌<◌, ◌≡◌, refl, ◌≢◌, ◌⊎◌, Bool, List, [], ◌∷◌, All, arith}
use kiosk_mate.Supervisor.Window.{minute}
use kiosk_mate.Supervisor.Heartbeat.{
  Monitor, Beat, quiet, reloaded, hung, Event, heartbeat, navigated, step, beats,
}

-- Each heartbeat is looked at less than a minute after the one before it was dealt with (they are 30
-- seconds apart in the source), and times do not run backwards; `due` is the end of that minute.
abbrev pub IsPaced : ℕ → List Event → Type 0
IsPaced due [] = Unit
IsPaced due (heartbeat now responds reload_at ∷ events) =
    (now < due) × (now ≤ reload_at) × IsPaced (reload_at + minute) events
IsPaced due (navigated at ∷ events) = (due ≤ at + minute) × IsPaced due events

-- Two misses in a row are only counted while the reload is younger than the next heartbeat.
abbrev IsCalm : ℕ → Monitor → Type 0
IsCalm due m = (m.missed ≤ 1) ⊎ (m.missed ≡ 2) × (due ≤ m.last_navigation + minute)

heartbeat-IsCalm :
    (now : ℕ) (responds : Bool) (reload_at due : ℕ) (m : Monitor)
    → now < due
    → IsCalm due m
    → ((step (heartbeat now responds reload_at) m).1 ≢ hung)
      × IsCalm (reload_at + minute) (step (heartbeat now responds reload_at) m).0
unfolding step
heartbeat-IsCalm now responds reload_at due m p c = (λ e. ground arith, ground arith)

navigated-IsCalm :
    (at due : ℕ) (m : Monitor)
    → due ≤ at + minute
    → IsCalm due m
    → ((step (navigated at) m).1 ≢ hung) × IsCalm due (step (navigated at) m).0
unfolding step
navigated-IsCalm at due m p c = (λ e. cc, omega arith)

-- A beat that does not end the loop stands before the beats of the rest.
ends_or_goes_on :
    (b : Beat) (rest : List Beat)
    → b ≢ hung
    → All (λ c. c ≢ hung) rest
    → All (λ c. c ≢ hung) (elim b [ hung ↦ hung ∷ [] | other ↦ other ∷ rest ])
ends_or_goes_on quiet rest h k = (h, k)
ends_or_goes_on reloaded rest h k = (h, k)
ends_or_goes_on hung rest h k = absurd (h refl)

beats-IsCalm :
    (events : List Event) (due : ℕ) (m : Monitor)
    → IsPaced due events
    → IsCalm due m
    → All (λ b. b ≢ hung) (beats m events)
unfolding beats
beats-IsCalm [] due m p c = tt
beats-IsCalm (heartbeat now responds reload_at ∷ events) due m p c =
    let (goes_on, calm) = heartbeat-IsCalm now responds reload_at due m p.0 c in
    ends_or_goes_on _ _ goes_on (
      beats-IsCalm events (reload_at + minute) (step (heartbeat now responds reload_at) m).0 p.2
        calm)
beats-IsCalm (navigated at ∷ events) due m p c =
    let (goes_on, calm) = navigated-IsCalm at due m p.0 c in
    ends_or_goes_on _ _ goes_on (beats-IsCalm events due (step (navigated at) m).0 p.1 calm)

-- The documented escalation cannot happen: while heartbeats are less than a minute apart, a page that
-- never answers again is reloaded for ever, and the loop never counts the four misses after which the
-- browser would be restarted, since its own reload resets the count.
pub beats-ne-hung :
    (events : List Event) (due : ℕ) (m : Monitor)
    → IsPaced due events
    → m.missed ≡ 0
    → All (λ b. b ≢ hung) (beats m events)
beats-ne-hung events due m p e = beats-IsCalm events due m p (omega arith)
