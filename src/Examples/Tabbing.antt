-- ===== src/Examples/Tabbing.antt =====
-- Tabs and maintenance at concrete states.
use kiosk_mate.Common.{
  ℕ, ◌*◌, ◌-◌, ◌≤◌, ◌≡◌, refl, [], ◌∷◌, none, some, true, false, codes, length, pos, minus_one,
  arith,
}
use kiosk_mate.Supervisor.Window.{minute, hour}
use kiosk_mate.Supervisor.Tabs.Switch.{Chromium, switch_tab}
use kiosk_mate.Supervisor.Tabs.{TabConfig, Tabs, evict_tabs, is_kept, tab_limit, reset_tabs}
use kiosk_mate.Supervisor.Tabs.Evict.{without_oldest, evict_tabs-without_oldest}
use kiosk_mate.Supervisor.Tabs.Use.{IsConsistent}
use kiosk_mate.Supervisor.Tabs.Invariant.{resets, switches, Reached-IsConsistent}
use kiosk_mate.Supervisor.Maintenance.{Instant, KioskMaintenance, Upkeep}
use kiosk_mate.Supervisor.Maintenance.Daily.{reloads, reloads_once}
use kiosk_mate.Examples.Clocks.{home}

abbrev two_tabs : TabConfig
two_tabs = record { kiosk = home; max_tabs = pos 2; profile = codes "minimal"; tab_mode = true }

abbrev three_open : Tabs
three_open = record {
  active = 2;
  tabs = λ i. some (codes "t");
  tab_url = λ i. none;
  tab_use = 0 ∷ 1 ∷ 2 ∷ [];
  pending_blank = [];
  active_target = codes "t";
  reveal_target = [];
  retarget = false;
  insert_tab = false;
  insert_base = 0;
}

evict_tabs-without_oldest_example :
    (evict_tabs two_tabs 2 three_open).0.tab_use
    ≡ without_oldest
        (is_kept two_tabs 2 three_open)
        (3 - tab_limit two_tabs three_open)
        (0 ∷ 1 ∷ 2 ∷ [])
evict_tabs-without_oldest_example = evict_tabs-without_oldest two_tabs 2 three_open

abbrev new_tab : Chromium
new_tab = record { running = true; reachable = true; activates = true; created = some (codes "n") }

Reached-IsConsistent_example :
    IsConsistent
      (switch_tab two_tabs new_tab 1 (reset_tabs three_open)).0.tab_use
      (switch_tab two_tabs new_tab 1 (reset_tabs three_open)).0.tabs
Reached-IsConsistent_example =
    Reached-IsConsistent (switch_tab two_tabs new_tab 1 (reset_tabs three_open)).0
      (switches two_tabs new_tab 1 (reset_tabs three_open) (resets three_open))

abbrev nightly : KioskMaintenance
nightly = record {
  reload_every_minutes = pos 0;
  reload_after_cycles = pos 0;
  reload_at = codes "04:00";
  reload_on_growth_percent = minus_one;
}

abbrev up : Upkeep
up = record {
  running = true;
  idle_blanked = false;
  started = minute;
  last_maintenance = 0;
  rotation_cycles = 0;
  memory_baseline = 0;
  baseline_after = 0;
  rss_mb = 0;
  growth_reload_day = none;
}

abbrev at_hour : ℕ → Instant
at_hour h = record { time = h * hour; clock_hour = h; day = 0; at_minute = λ m. m * minute }

reloads_once_example : length (reloads nightly up (at_hour 3 ∷ at_hour 4 ∷ at_hour 5 ∷ [])) ≤ 1
reloads_once_example =
    reloads_once nightly up (λ m. m * minute) 0 (at_hour 3 ∷ at_hour 4 ∷ at_hour 5 ∷ [])
      (refl, refl, refl)
      (omega arith, (λ m. refl, (omega arith, (λ m. refl, (omega arith, (λ m. refl, tt))))))
