-- ===== src/Supervisor/Schedule/Display.antt =====
-- When the scheduler turns the display off: `scheduleWantsDisplayOff` of internal/supervisor/browser.go.
use kiosk_mate.Common.{
  ℕ, ◌≡◌, ◌≢◌, ◌⊎◌, ◌↔◌, true, false, Option, none, some, ℤ, pos, negsuc, arith, ◌+◌, ◌≤◌, ◌<◌, ◌/◌,
}
use kiosk_mate.Supervisor.Window.{second}
use kiosk_mate.Config.Kiosk.{KioskConfig, time, hybrid, require}
use kiosk_mate.Supervisor.Schedule.{
  SchedulerStatus, present, absent, unknown, by_time, by_insert, manual_override,
  schedule_page_wants_power_off,
}
use kiosk_mate.Supervisor.Schedule.Target.{
  schedule_wants_display_off, apply_presence, is_nil, timeout, next_scheduler_wake,
}

abbrev pub IsNoPage : ℤ → Type 0
IsNoPage (pos n) = ⊥
IsNoPage (negsuc n) = Unit

-- Outside every time rule and insert, the programme itself leaves nothing to show.
abbrev pub IsOutside : KioskConfig → ℤ → SchedulerStatus → Type 0
IsOutside k target status =
    (k.scheduler_enabled ≡ true)
    × (is_nil k.time_rules ≡ false)
    × ((k.scheduler_mode ≡ time)
        ⊎ ((k.scheduler_mode ≡ hybrid)
            × ((schedule_page_wants_power_off k ≡ true) ⊎ (is_nil k.rotation ≡ true))))
    × (IsNoPage target ⊎ ((status.reason ≢ by_time) × (status.reason ≢ by_insert)))

-- The display goes off exactly when no manual override shows a page, nobody is known to be present,
-- and either presence is required and absent, or the scheduler runs time rules (alone, or with a
-- rotation that is empty or a page that wants the power off) and neither a rule nor an insert shows a
-- page.
pub schedule_wants_display_off_iff :
    (k : KioskConfig) (target : ℤ) (status : SchedulerStatus)
    → (schedule_wants_display_off k target status ≡ true) ↔ (
        (status.overridden ≡ false)
        × (status.reason ≢ manual_override)
        × (status.presence ≢ present)
        × (((status.presence ≡ absent) × (k.presence.mode ≡ require)) ⊎ IsOutside k target status))
unfolding schedule_wants_display_off
schedule_wants_display_off_iff k target status = ground arith

abbrev pub SwitchesBy : ℕ → Option ℕ → Type 0
SwitchesBy at none = ⊥
SwitchesBy at (some next) = next ≤ at

-- For a status whose presence is not set: the presence becomes present exactly while presence detection
-- is on, somebody was seen and the timeout after that has not passed, and absent exactly when detection
-- is on and nobody was seen within the timeout. When it is present, the next switch is at the latest
-- when the timeout passes.
pub apply_presence_lem :
    (k : KioskConfig) (now last : ℕ) (status : SchedulerStatus)
    → status.presence ≡ unknown
    → let done = apply_presence k now last status in
      ((done.presence ≡ present)
        ↔ ((k.presence.enabled ≡ true) × (last ≢ 0) × (now < last + timeout k.presence)))
      × ((done.presence ≡ absent)
          ↔ ((k.presence.enabled ≡ true) × ((last ≡ 0) ⊎ (last + timeout k.presence ≤ now))))
      × (done.presence ≡ present → SwitchesBy (last + timeout k.presence) done.next_switch)
unfolding apply_presence
apply_presence_lem k now last status h = ground arith

-- The scheduler's sleep: the tick if no switch is due; nothing if the switch has passed; otherwise the
-- tick, which then ends by the time of the switch, or until 50 milliseconds after the switch, which is
-- then sooner than the tick.
pub next_scheduler_wake_lem :
    (now tick next : ℕ)
    → (next_scheduler_wake now tick none ≡ tick)
      × (next < now → next_scheduler_wake now tick (some next) ≡ 0)
      × (now ≤ next
          → ((next_scheduler_wake now tick (some next) ≡ tick) × (now + tick ≤ next))
            ⊎ ((now + next_scheduler_wake now tick (some next) ≡ next + second / 20)
                × (next < now + tick)))
unfolding next_scheduler_wake
next_scheduler_wake_lem now tick next = ground arith
