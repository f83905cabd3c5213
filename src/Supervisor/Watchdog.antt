-- ===== src/Supervisor/Watchdog.antt =====
-- The memory and CPU watchdog of internal/supervisor/browser.go: when it asks for a restart
-- (`shouldRestart`) and when it may have one (`watchdogRestartAllowedLocked`). CPU shares, floats in
-- the source, are only compared, and stand here as whole numbers of a fixed small unit.
pub mod Budget
pub mod Grace
use kiosk_mate.Common.{
  ℕ, ◌+◌, ◌-◌, ◌*◌, String, Bool, true, false, not, ◌&&◌, ◌||◌, Option, none, some, List, [], ◌∷◌,
  ◌++◌, ◌==◌, ltb, leb, if◌then◌else◌, length,
}
use kiosk_mate.Supervisor.Window.{minute, recent}

abbrev pub watchdog_restart_window : ℕ
watchdog_restart_window = 30 * minute

abbrev pub watchdog_suppress_duration : ℕ
watchdog_suppress_duration = 30 * minute

abbrev pub watchdog_max_restarts_in_window : ℕ
watchdog_max_restarts_in_window = 3

abbrev pub watchdog_min_cpu_only_grace : ℕ
watchdog_min_cpu_only_grace = 10 * minute

-- The reason names the limits that were passed; its wording is not modelled.
pub data Pressure : Type 0 where
  normal rss cpu rss_and_cpu : Pressure

-- The fields of `WatchdogStatus` that these functions write, and `watchdogRuns` and `hotSince` (0 for
-- the zero time).
pub record Watchdog : Type 0 where
  pub last_action : String
  pub suppressed_until : Option ℕ
  pub restart_window_count : ℕ
  pub pressure : Pressure
  pub watchdog_runs : List ℕ
  pub hot_since : ℕ

pub record WatchdogConfig : Type 0 where
  pub max_rss_mb : ℕ
  pub max_cpu_percent : ℕ
  pub restart_on_cpu : Bool
  pub cpu_grace : ℕ

abbrev pub before_until : ℕ → Option ℕ → Bool
before_until now none = false
before_until now (some until) = ltb now until

suppress : ℕ → Watchdog → Watchdog
suppress now b = record b {
  suppressed_until = some (now + watchdog_suppress_duration);
  last_action = "restart suppressed";
}

note_runs : List ℕ → Watchdog → Watchdog
note_runs runs b = record b { watchdog_runs = runs; restart_window_count = length runs }

unfoldable pub watchdog_restart_allowed : ℕ → Watchdog → Watchdog × Bool
unfolding suppress note_runs
watchdog_restart_allowed now b =
    if before_until now b.suppressed_until
    then (record b { last_action = "restart suppressed" }, false)
    else let runs = recent watchdog_restart_window now b.watchdog_runs in
      if leb watchdog_max_restarts_in_window (length runs)
      then (suppress now (note_runs runs b), false)
      else (record (note_runs (runs ++ now ∷ []) b) { suppressed_until = none }, true)

unfoldable pub over_rss : WatchdogConfig → ℕ → Bool
over_rss cfg rss_mb = ltb 0 cfg.max_rss_mb && ltb cfg.max_rss_mb rss_mb

unfoldable pub over_cpu : WatchdogConfig → ℕ → Bool
over_cpu cfg cpu_percent = ltb 0 cfg.max_cpu_percent && ltb cfg.max_cpu_percent cpu_percent

abbrev watchdog_reason : Bool → Bool → Pressure
watchdog_reason true true = rss_and_cpu
watchdog_reason true false = rss
watchdog_reason false true = cpu
watchdog_reason false false = normal

-- `now` is read twice in the source, by `time.Now` and by `time.Since`, with nothing in between.
unfoldable pub should_restart : WatchdogConfig → ℕ → ℕ → ℕ → Watchdog → Watchdog × Bool
should_restart cfg rss_mb cpu_percent now b =
    let high_rss = over_rss cfg rss_mb in
    let high_cpu = over_cpu cfg cpu_percent in
    if not high_rss && not high_cpu
    then (record b { hot_since = 0; pressure = normal }, false)
    else let b' : Watchdog = record b { pressure = watchdog_reason high_rss high_cpu } in
      if high_cpu && not high_rss && not cfg.restart_on_cpu
      then (b', false)
      else if b.hot_since == 0
      then (record b' { hot_since = now }, false)
      else let grace =
          if high_cpu && not high_rss && ltb cfg.cpu_grace watchdog_min_cpu_only_grace
          then watchdog_min_cpu_only_grace
          else cfg.cpu_grace in
        (b', leb (b.hot_since + grace) now)
