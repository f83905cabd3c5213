-- ===== src/Examples/Clocks.antt =====
-- Clock texts and page indices of one configuration.
use kiosk_mate.Common.{
  arith, ◌↔◌, split, atoi, ℕ, ◌<◌, ◌≡◌, List, [], ◌∷◌, true, false, refl, codes, pos, trim_space,
  text_eq,
}
use kiosk_mate.Config.Clock.{valid_clock, parse_clock}
use kiosk_mate.Config.Conflicts.{days_overlap, time_rules_overlap}
use kiosk_mate.Config.Conflicts.Overlap.{HasWindow, time_rules_overlap_iff, empty_window_overlaps}
use kiosk_mate.Supervisor.Schedule.{in_window}
use kiosk_mate.Config.Kiosk.{TimeRule, KioskConfig, KioskPage, other_display, hybrid, require}
use kiosk_mate.Config.Pages.{enabled_page_index, enabled_pages, index_of}

abbrev pub page : List ℕ → List ℕ → KioskPage
page id url = record {
  page_id = id;
  url = url;
  display_mode = other_display;
  power_off_after = false;
  disabled = false;
  preload = false;
}

abbrev pub home : KioskConfig
home = record {
  pages = page (codes "a") (codes "u") ∷ page (codes "b") (codes "v") ∷ [];
  urls = [];
  scheduler_enabled = true;
  scheduler_mode = hybrid;
  rotation =
      record { page = pos 0; duration_seconds = pos 10 }
      ∷ record { page = pos 1; duration_seconds = pos 20 }
      ∷ [];
  time_rules =
      record {
        name = codes "night";
        page = pos 1;
        start = codes "22:00";
        end = codes "06:00";
        days = [];
        disabled = false;
      }
      ∷ [];
  presence = record { enabled = true; mode = require; timeout_minutes = pos 5 };
  inserts = [];
}

second_page : enabled_page_index home (codes "b") ≡ pos 1
unfolding enabled_page_index enabled_pages index_of trim_space text_eq
second_page = refl

abbrev from_to : List ℕ → List ℕ → TimeRule
from_to start end = record {
  name = codes "rule";
  page = pos 0;
  start = start;
  end = end;
  days = [];
  disabled = false;
}

night_window : HasWindow (from_to (codes "22:00") (codes "06:00")) 1320 360
unfolding valid_clock parse_clock split trim_space atoi
night_window = (refl, refl, refl, refl)

morning_window : HasWindow (from_to (codes "05:00") (codes "07:00")) 300 420
unfolding valid_clock parse_clock split trim_space atoi
morning_window = (refl, refl, refl, refl)

empty_window : HasWindow (from_to (codes "12:00") (codes "12:00")) 720 720
unfolding valid_clock parse_clock split trim_space atoi
empty_window = (refl, refl, refl, refl)

every_day : days_overlap [] [] ≡ true
unfolding days_overlap
every_day = refl

time_rules_overlap_iff_example :
    (time_rules_overlap
        (from_to (codes "22:00") (codes "06:00"))
        (from_to (codes "05:00") (codes "07:00"))
      ≡ true)
    ↔ ((days_overlap [] [] ≡ true)
        × ((c : ℕ) × (c < 1440) × (in_window 1320 360 c ≡ true) × (in_window 300 420 c ≡ true)))
time_rules_overlap_iff_example =
    time_rules_overlap_iff (from_to (codes "22:00") (codes "06:00"))
      (from_to (codes "05:00") (codes "07:00")) 1320 360 300 420 night_window morning_window
      (omega arith) (omega arith)

empty_window_overlaps_example :
    ((c : ℕ) → in_window 720 720 c ≡ false)
    × (time_rules_overlap
          (from_to (codes "12:00") (codes "12:00"))
          (from_to (codes "05:00") (codes "07:00"))
        ≡ true)
empty_window_overlaps_example =
    empty_window_overlaps (from_to (codes "12:00") (codes "12:00"))
      (from_to (codes "05:00") (codes "07:00")) 720 300 420 empty_window morning_window every_day
