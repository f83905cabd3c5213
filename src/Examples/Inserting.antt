-- ===== src/Examples/Inserting.antt =====
-- Inserts of one configuration: weather every full hour, and a camera while the motion sensor is on.
use kiosk_mate.Common.{
  ℕ, ◌-◌, subst, ◌+◌, ◌*◌, ◌/◌, ◌<◌, ◌≡◌, ◌⊎◌, ◌↔◌, refl, true, false, Option, none, some, [], ◌∷◌,
  Text, codes, pos, All, Memᴰ, sort, trim_space, text_eq, equal_fold, to_lower, contains_any, arith,
}
use kiosk_mate.Supervisor.Window.{second, hour}
use kiosk_mate.Config.Clock.{monday, weekday_matches}
use kiosk_mate.Config.Kiosk.{KioskConfig, PageInsert, hourly}
use kiosk_mate.Config.Pages.{enabled_page_index, enabled_pages, index_of}
use kiosk_mate.Config.Inserts.{
  Calendar, InsertSlot, slot_of, insert_slots, all_slots, slots_from, day_slots, slot_minutes,
  hourly_minutes, hours_from, allows, duration, nanoseconds, overlaps,
}
use kiosk_mate.Config.Inserts.Changes.{IsPastOr}
use kiosk_mate.Config.Inserts.Calendars.{IsCalendar}
use kiosk_mate.Config.Inserts.Conditions.{holds, inserts_where}
use kiosk_mate.Config.Inserts.Program.{
  active_insert, best_from, next_insert_change, next_from, program_timeline,
}
use kiosk_mate.Config.Inserts.Validation.{
  validate_inserts, validate_inserts_from, validate_insert, validate_repeat, validate_window,
  validate_condition,
}
use kiosk_mate.Config.Inserts.Listed.{IsRun, insert_slots-Mem}
use kiosk_mate.Config.Inserts.Winner.{IsOnScreen, active_insert-IsOnScreen, insert_on}
use kiosk_mate.Config.Inserts.Changes.{next_insert_change-stable, next_insert_change-IsEdge}
use kiosk_mate.Config.Inserts.Timeline.{IsProgram, program_timeline-IsProgram}
use kiosk_mate.Config.Inserts.Conditional.{IsMet, active_insert-IsMet}
use kiosk_mate.Config.Inserts.Accepted.{IsAcceptedInsert, validate_inserts-All}
use kiosk_mate.Config.Rules.{valid_rule_id}
use kiosk_mate.Supervisor.Schedule.{schedule_page_wants_power_off}
use kiosk_mate.Supervisor.Schedule.Target.{apply_inserts, note_change, schedule_wants_display_off}
use kiosk_mate.Supervisor.Schedule.Program.{insert_program, apply_inserts-shows}
use kiosk_mate.Examples.Scheduling.{at_rest, blank}
use kiosk_mate.Examples.Clocks.{home}

abbrev day_length : ℕ
day_length = 86_400 * second

-- Days of 24 hours.
abbrev plain_calendar : Calendar
plain_calendar = record {
  day = λ n. record {
    weekday = monday;
    sun = none;
    at_minute = λ m. n * day_length + m * (60 * second);
  };
  day_of = λ t. t / day_length;
  next_day = λ t. t + day_length;
  day_before = λ t. t - day_length;
}

plain_calendar-IsCalendar : IsCalendar plain_calendar
plain_calendar-IsCalendar = (
  λ t. (omega arith, omega arith),
  λ n. omega arith,
  λ n m h. (omega arith, omega (arith, h)),
  λ n. omega arith,
  λ n. omega arith,
  λ n. omega arith,
)

abbrev weather : PageInsert
weather = record {
  id = codes "weather";
  name = codes "Weather";
  page_id = codes "b";
  repeat = hourly;
  every_minutes = pos 0;
  minute = pos 0;
  times = [];
  duration_seconds = pos 60;
  start = [];
  end = [];
  days = [];
  priority = pos 1;
  disabled = false;
  condition = none;
}

abbrev camera : PageInsert
camera = record weather {
  id = codes "camera";
  page_id = codes "a";
  minute = pos 30;
  priority = pos 2;
  condition = some (record { topic = codes "motion"; value = codes "on"; negate = false });
}

abbrev pub shown : KioskConfig
shown = record home { inserts = weather ∷ camera ∷ [] }

-- Ten o'clock and ten seconds on the second day.
abbrev ten : ℕ
ten = day_length + 10 * hour + 10 * second

abbrev pub motion : Text → Option Text
motion topic = some (codes "ON")

weather_slot : InsertSlot
weather_slot = slot_of weather 0 (plain_calendar.day 1) 600

weather_active : active_insert shown plain_calendar ten ≡ some weather_slot
unfolding active_insert best_from insert_slots all_slots slots_from day_slots slot_minutes
    hourly_minutes hours_from allows weekday_matches duration nanoseconds sort enabled_page_index
    enabled_pages index_of trim_space text_eq weather_slot
weather_active = refl

insert_slots-Mem_example :
    Memᴰ weather_slot (insert_slots shown plain_calendar ten (ten + hour))
    ↔ (IsRun shown plain_calendar weather_slot × (overlaps ten (ten + hour) weather_slot ≡ true))
insert_slots-Mem_example =
    insert_slots-Mem shown plain_calendar ten (ten + hour) weather_slot plain_calendar-IsCalendar
      (omega arith)

active_insert-IsOnScreen_example :
    IsOnScreen shown plain_calendar ten (active_insert shown plain_calendar ten)
active_insert-IsOnScreen_example =
    active_insert-IsOnScreen shown plain_calendar ten plain_calendar-IsCalendar

-- The run that started at ten ends a minute later.
weather_ends : next_insert_change shown plain_calendar ten ≡ some (ten + 50 * second)
unfolding next_insert_change next_from insert_slots all_slots slots_from day_slots slot_minutes
    hourly_minutes hours_from allows weekday_matches duration nanoseconds sort enabled_page_index
    enabled_pages index_of trim_space text_eq
weather_ends = refl

next_insert_change-stable_example :
    insert_on (active_insert shown plain_calendar (ten + 49 * second))
    ≡ insert_on (active_insert shown plain_calendar ten)
next_insert_change-stable_example =
    next_insert_change-stable shown plain_calendar ten (ten + 49 * second) plain_calendar-IsCalendar
      (omega arith) (rw weather_ends (omega arith, omega arith))

weather-IsRun : IsRun shown plain_calendar weather_slot
weather-IsRun =
    let (run, showing, best) =
      subst (IsOnScreen shown plain_calendar ten) weather_active
        (active_insert-IsOnScreen shown plain_calendar ten plain_calendar-IsCalendar) in
    run

weather_seen : overlaps ten (ten + 48 * hour) weather_slot ≡ true
unfolding weather_slot duration nanoseconds
weather_seen = refl

next_insert_change-IsEdge_example :
    ((s : InsertSlot) × IsRun shown plain_calendar s
      × (ten < ten + 50 * second)
      × ((ten + 50 * second ≡ s.start) ⊎ (ten + 50 * second ≡ s.end)))
    × IsPastOr ten (ten + 50 * second) weather_slot.start
    × IsPastOr ten (ten + 50 * second) weather_slot.end
next_insert_change-IsEdge_example =
    next_insert_change-IsEdge shown plain_calendar ten (ten + 50 * second) weather_slot
      plain_calendar-IsCalendar weather_ends weather-IsRun weather_seen

program_timeline-IsProgram_example :
    IsProgram shown plain_calendar ten
      (ten + 2 * hour)
      (program_timeline shown plain_calendar ten (ten + 2 * hour))
program_timeline-IsProgram_example =
    program_timeline-IsProgram shown plain_calendar ten (ten + 2 * hour) plain_calendar-IsCalendar
      (omega arith)

abbrev half_past : ℕ
half_past = day_length + 10 * hour + 1805 * second

camera_slot : InsertSlot
camera_slot = slot_of camera 1 (plain_calendar.day 1) 630

camera_active :
    active_insert (inserts_where motion shown) plain_calendar half_past ≡ some camera_slot
unfolding inserts_where holds equal_fold to_lower active_insert best_from insert_slots all_slots
    slots_from day_slots slot_minutes hourly_minutes hours_from allows weekday_matches duration
    nanoseconds sort enabled_page_index enabled_pages index_of trim_space text_eq camera_slot
camera_active = refl

active_insert-IsMet_example : IsMet motion camera_slot.insert
active_insert-IsMet_example =
    active_insert-IsMet shown plain_calendar motion half_past camera_slot plain_calendar-IsCalendar
      camera_active

shown_valid : validate_inserts shown ≡ none
unfolding validate_inserts validate_inserts_from validate_insert validate_repeat validate_window
    validate_condition valid_rule_id contains_any trim_space text_eq nanoseconds
shown_valid = refl

validate_inserts-All_example : All IsAcceptedInsert shown.inserts
validate_inserts-All_example = validate_inserts-All shown shown_valid

weather_shows :
    (apply_inserts
      (inserts_where motion shown)
      (insert_program (inserts_where motion shown) plain_calendar ten)
      (pos 0, blank)
      at_rest).1.insert_showing
    ≡ true
unfolding apply_inserts insert_program schedule_wants_display_off inserts_where holds equal_fold
    to_lower active_insert next_insert_change next_from best_from insert_slots all_slots slots_from
    day_slots slot_minutes hourly_minutes hours_from allows weekday_matches duration nanoseconds
    sort enabled_page_index enabled_pages index_of trim_space text_eq schedule_page_wants_power_off
weather_shows = refl

apply_inserts-shows_example :
    (s : InsertSlot) × IsOnScreen (inserts_where motion shown) plain_calendar ten (some s)
    × ((apply_inserts
          (inserts_where motion shown)
          (insert_program (inserts_where motion shown) plain_calendar ten)
          (pos 0, blank)
          at_rest).0.0
        ≡ enabled_page_index (inserts_where motion shown) s.insert.page_id)
    × IsMet motion s.insert
    × (schedule_wants_display_off
          (inserts_where motion shown)
          (pos 0)
          (note_change (insert_program (inserts_where motion shown) plain_calendar ten) blank)
        ≡ false)
apply_inserts-shows_example =
    apply_inserts-shows shown plain_calendar motion ten (pos 0) blank at_rest
      plain_calendar-IsCalendar weather_shows
