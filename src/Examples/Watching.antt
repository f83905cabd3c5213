-- ===== src/Examples/Watching.antt =====
-- The watchdog and the heartbeat at concrete histories.
use kiosk_mate.Common.{
  ℕ, ◌+◌, ◌*◌, ◌≤◌, ◌≡◌, ◌≢◌, List, [], ◌∷◌, some, All, arith, refl, true, false, leb,
}
use kiosk_mate.Supervisor.Window.{second, minute}
use kiosk_mate.Supervisor.Window.Limit.{count_in}
use kiosk_mate.Supervisor.Watchdog.{
  Watchdog, WatchdogConfig, normal, watchdog_restart_window, watchdog_max_restarts_in_window,
  watchdog_restart_allowed, should_restart, over_rss, over_cpu, watchdog_min_cpu_only_grace,
}
use kiosk_mate.Supervisor.Watchdog.Budget.{
  fresh, restarts, restarts_limited, suppression_ends, IsSettled,
}
use kiosk_mate.Supervisor.Watchdog.Grace.{Sample, after_checks, restart_after_grace, HotFrom}
use kiosk_mate.Supervisor.Heartbeat.{Monitor, Event, heartbeat, hung, beats, Rebooter}
use kiosk_mate.Supervisor.Heartbeat.Missed.{beats-ne-hung}

abbrev asked_at : List ℕ
asked_at = minute ∷ (2 * minute) ∷ (3 * minute) ∷ (4 * minute) ∷ (40 * minute) ∷ []

restarts_limited_example :
    count_in watchdog_restart_window minute (restarts fresh asked_at)
    ≤ watchdog_max_restarts_in_window
restarts_limited_example =
    restarts_limited asked_at minute
      (omega arith, (omega arith, (omega arith, (omega arith, (omega arith, tt)))))

abbrev suppressed : Watchdog
suppressed = record {
  last_action = "suppressed";
  suppressed_until = some (31 * minute);
  restart_window_count = 3;
  pressure = normal;
  watchdog_runs = (minute ∷ minute ∷ minute ∷ []);
  hot_since = 0;
}

suppressed-IsSettled : IsSettled minute suppressed
suppressed-IsSettled = record {
  past = (omega arith, (omega arith, (omega arith, tt)));
  settled = λ until e. ground arith;
}

suppression_ends_example :
    (watchdog_restart_allowed (31 * minute) suppressed).1 ≡ leb (31 * minute) (31 * minute)
suppression_ends_example =
    suppression_ends minute suppressed (31 * minute) (31 * minute) suppressed-IsSettled refl

abbrev limits : WatchdogConfig
limits = record {
  max_rss_mb = 500;
  max_cpu_percent = 90;
  restart_on_cpu = false;
  cpu_grace = minute;
}

abbrev hot : ℕ → Sample
hot at = record { at = at; rss_mb = 800; cpu_percent = 10 }

asks : (should_restart limits 800 10 (3 * minute) (after_checks limits (hot minute ∷ []))).1 ≡ true
unfolding should_restart after_checks over_rss over_cpu
asks = refl

restart_after_grace_example :
    HotFrom limits
      (after_checks limits (hot minute ∷ [])).hot_since
      (hot (3 * minute) ∷ hot minute ∷ [])
    × ((after_checks limits (hot minute ∷ [])).hot_since + limits.cpu_grace ≤ 3 * minute)
    × (over_rss limits 800 ≡ false
        → (limits.restart_on_cpu ≡ true)
          × ((after_checks limits (hot minute ∷ [])).hot_since + watchdog_min_cpu_only_grace
              ≤ 3 * minute))
restart_after_grace_example =
    restart_after_grace limits (hot (3 * minute)) (hot minute ∷ []) (omega arith, tt) asks

-- Heartbeats 30 seconds apart that a page never answers, after its last load.
abbrev silence : List Event
silence =
    heartbeat (30 * second) false (30 * second)
    ∷ heartbeat (60 * second) false (60 * second)
    ∷ heartbeat (90 * second) false (90 * second)
    ∷ heartbeat (120 * second) false (120 * second)
    ∷ heartbeat (150 * second) false (150 * second)
    ∷ []

abbrev attached : Monitor
attached = record { missed = 0; last_navigation = 0 }

beats-ne-hung_example : All (λ b. b ≢ hung) (beats attached silence)
beats-ne-hung_example =
    beats-ne-hung silence minute attached
      (
        omega arith,
        omega arith,
        (
          omega arith,
          omega arith,
          (omega arith, omega arith, (omega arith, omega arith, (omega arith, omega arith, tt))),
        ),
      )
      refl

abbrev armed : Rebooter
armed = record { reboot_on_hang = true; has_handler = true; reboot_requested = false }
