-- ===== src/Supervisor/Maintenance.antt =====
-- Maintenance reloads: `maintenanceReloadDue`, `memoryGrowthDueLocked` and `noteMemoryLocked` of
-- internal/supervisor/browser.go, with `GrowthPercent` of internal/config/config.go. The calendar is an
-- argument (`Instant`): the time, its hour and day, and the instants of the day's minutes. Memory sizes
-- are unbounded.
pub mod Daily
use kiosk_mate.Common.{
  ℕ, ◌+◌, ◌*◌, Bool, true, false, not, ◌&&◌, ◌||◌, Option, none, some, ◌==◌, ltb, leb,
  if◌then◌else◌, Text, ℤ, pos, negsuc,
}
use kiosk_mate.Supervisor.Window.{minute}
use kiosk_mate.Config.Clock.{parse_clock}

pub record Instant : Type 0 where
  pub time : ℕ
  pub clock_hour : ℕ
  pub day : ℕ
  pub at_minute : ℕ → ℕ

pub record KioskMaintenance : Type 0 where
  pub reload_every_minutes : ℤ
  pub reload_after_cycles : ℤ
  pub reload_at : Text
  pub reload_on_growth_percent : ℤ

-- The fields of `Browser` that decide a reload; `running` is `cmd != nil`, 0 is the zero time, and the
-- day of the last growth reload is none at first.
pub record Upkeep : Type 0 where
  pub running : Bool
  pub idle_blanked : Bool
  pub started : ℕ
  pub last_maintenance : ℕ
  pub rotation_cycles : ℕ
  pub memory_baseline : ℕ
  pub baseline_after : ℕ
  pub rss_mb : ℕ
  pub growth_reload_day : Option ℕ

abbrev pub default_reload_growth_percent : ℕ
default_reload_growth_percent = 50

abbrev pub memory_baseline_delay : ℕ
memory_baseline_delay = 10 * minute

abbrev pub growth_percent : KioskMaintenance → ℕ
growth_percent m = elim m.reload_on_growth_percent [
  | negsuc n ↦ 0
  | pos n ↦ if n == 0 then default_reload_growth_percent else n
]

abbrev pub is_day : ℕ → Option ℕ → Bool
is_day day none = false
is_day day (some d) = d == day

unfoldable pub memory_growth_due : Instant → ℕ → Upkeep → Bool
memory_growth_due now percent b =
    not (percent == 0 || b.memory_baseline == 0 || b.rss_mb == 0)
    && not (ltb now.clock_hour 3 || leb 5 now.clock_hour)
    && not (is_day now.day b.growth_reload_day)
    && leb (b.memory_baseline * (100 + percent)) (b.rss_mb * 100)

-- The later of the last maintenance and the start of the browser.
abbrev pub last_reload : Upkeep → ℕ
last_reload b =
    if b.last_maintenance == 0 || ltb b.last_maintenance b.started
    then b.started
    else b.last_maintenance

abbrev pub every_due : Instant → KioskMaintenance → Upkeep → Bool
every_due now m b = elim m.reload_every_minutes [
  | pos n ↦ ltb 0 n && leb (last_reload b + n * minute) now.time
  | negsuc n ↦ false
]

abbrev pub cycles_due : KioskMaintenance → Upkeep → Bool
cycles_due m b = elim m.reload_after_cycles [
  | pos n ↦ ltb 0 n && leb n b.rotation_cycles
  | negsuc n ↦ false
]

abbrev pub at_due : Instant → Option ℕ → Upkeep → Bool
at_due now none b = false
at_due now (some at) b = leb (now.at_minute at) now.time && ltb (last_reload b) (now.at_minute at)

note_reload : Instant → Upkeep → Upkeep
note_reload now b = record b {
  last_maintenance = now.time;
  rotation_cycles = 0;
  memory_baseline = 0;
  baseline_after = now.time + memory_baseline_delay;
}

unfoldable pub maintenance_reload_due : Instant → KioskMaintenance → Upkeep → Upkeep × Bool
unfolding note_reload
maintenance_reload_due now m b =
    if not b.running || b.idle_blanked || b.started == 0
    then (b, false)
    else if every_due now m b || cycles_due m b || at_due now (parse_clock m.reload_at) b
    then (note_reload now b, true)
    else if memory_growth_due now (growth_percent m) b
    then (note_reload now (record b { growth_reload_day = some now.day }), true)
    else (b, false)

-- The time from which the memory of the page counts as settled.
abbrev pub settled_at : Upkeep → ℕ
settled_at b =
    if ltb b.baseline_after b.started then b.started + memory_baseline_delay else b.baseline_after

unfoldable pub note_memory : ℕ → ℕ → Upkeep → Upkeep
note_memory now rss_mb b =
    if not (b.memory_baseline == 0) || rss_mb == 0 || b.started == 0
    then b
    else if ltb now (settled_at b)
    then b
    else record b { memory_baseline = rss_mb }
