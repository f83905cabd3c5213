-- ===== src/Supervisor/Schedule.antt =====
-- Which page the scheduler wants on screen, and whether the display is on: `schedulerTarget` and what
-- it calls in internal/supervisor/browser.go. Times are nanoseconds, 0 is the zero time. The calendar
-- is a parameter: a `Moment` is `now` in the kiosk's time zone, with the instants of the minutes of its
-- day and the day's sunrise and sunset where a location is set.
pub mod Target
pub mod Priority
pub mod Rotation
pub mod Display
pub mod Rules
pub mod Program
use kiosk_mate.Common.{
  ℕ, zero, suc, ◌+◌, ◌-◌, ◌*◌, ◌%◌, min, Bool, true, false, not, ◌&&◌, ◌||◌, Option, none, some,
  List, [], ◌∷◌, ◌++◌, ◌==◌, ltb, leb, if◌then◌else◌, length, get_elem?, Text, codes, ℤ, pos,
  negsuc, minus_one,
}
use kiosk_mate.Supervisor.Window.{second, minute, hour}
use kiosk_mate.Config.Clock.{
  Weekday, Sun, sunrise, sunset, resolve_clock, parse_clock, weekday_matches,
}
use kiosk_mate.Config.Kiosk.{
  KioskConfig, KioskPage, schedule, Mode, unset, rotation, time, hybrid, other_mode, require,
  other_presence, PresenceConfig, PresenceMode, DisplayMode, RotationItem, TimeRule,
}
use kiosk_mate.Config.Pages.{page_count, enabled_page_index, is_empty}

pub record Moment : Type 0 where
  pub instant : ℕ
  pub clock_hour : ℕ
  pub clock_minute : ℕ
  pub weekday : Weekday
  pub at_minute : ℕ → ℕ
  pub sun : Option (ℕ × ℕ)

pub data Reason : Type 0 where
  no_reason disabled by_time no_active_time_rule by_rotation no_rotation_items unsupported_mode :
      Reason
  manual_override by_insert : Reason

pub data Presence : Type 0 where
  unknown present absent : Presence

-- `SchedulerStatus`; the mode "override" is the Boolean `overridden`.
pub record SchedulerStatus : Type 0 where
  pub enabled : Bool
  pub mode : Mode
  pub overridden : Bool
  pub reason : Reason
  pub active_rule : Text
  pub active_insert : Text
  pub next_switch : Option ℕ
  pub rotation_index : ℕ
  pub presence : Presence
  pub presence_until : Option ℕ

pub record ManualOverride : Type 0 where
  pub active : Bool
  pub page : ℤ
  pub until : Option ℕ

-- The fields of `Browser` that the scheduler reads and writes.
pub record Scheduler : Type 0 where
  pub override : ManualOverride
  pub rotation_index : ℕ
  pub rotation_until : ℕ
  pub rotation_cycles : ℕ
  pub insert_showing : Bool
  pub insert_return : ℤ
  pub active : ℤ

unfoldable pub clamp_page : ℤ → ℕ → ℤ
clamp_page page zero = minus_one
clamp_page (negsuc n) (suc count) = pos 0
clamp_page (pos page) (suc count) = if leb (suc count) page then pos count else pos page

unfoldable pub rule_clock : Moment → Text → Option ℕ
rule_clock now value = elim (parse_clock value) [
  | some m ↦ some m
  | none ↦ resolve_clock now.sun value
]

abbrev pub clock_now : Moment → ℕ
clock_now now = now.clock_hour * 60 + now.clock_minute

-- Whether the window from `start` to `end`, which may cross midnight, holds `current`.
abbrev pub in_window : ℕ → ℕ → ℕ → Bool
in_window start end current =
    if leb start end
    then leb start current && ltb current end
    else leb start current || ltb current end

-- The page, the rule's name and the time of the next switch, if the rule is active.
rule_window : KioskConfig → Moment → TimeRule → Option ℕ → Option ℕ → Option (ℤ × Text × ℕ)
rule_window k now rule (some start) (some end) =
    let current = clock_now now in
    let next =
      if ltb end start && leb start current
      then now.at_minute end + 24 * hour
      else now.at_minute end in
    let name = if is_empty rule.name then rule.start ++ codes "-" ++ rule.end else rule.name in
    if in_window start end current
    then some (clamp_page rule.page (page_count k), name, next)
    else none
rule_window k now rule _ _ = none

unfoldable pub rule_target : KioskConfig → Moment → TimeRule → Option (ℤ × Text × ℕ)
unfolding rule_window
rule_target k now rule =
    if rule.disabled || not (weekday_matches rule.days now.weekday)
    then none
    else rule_window k now rule (rule_clock now rule.start) (rule_clock now rule.end)

unfoldable pub first_target : KioskConfig → Moment → List TimeRule → Option (ℤ × Text × ℕ)
first_target k now [] = none
first_target k now (rule ∷ rules) =
    let rest = first_target k now rules in
    elim (rule_target k now rule) [ some target ↦ some target | none ↦ rest ]

unfoldable pub time_rule_target : KioskConfig → Moment → Option (ℤ × Text × ℕ)
unfolding first_target
time_rule_target k now = first_target k now k.time_rules

abbrev pub wants_power_off : KioskPage → Bool
wants_power_off page =
    not (page.disabled || is_empty page.url)
    && (elim page.display_mode [ schedule ↦ true | _ ↦ false ] || page.power_off_after)

any_page : (KioskPage → Bool) → List KioskPage → Bool
any_page p [] = false
any_page p (page ∷ pages) = p page || any_page p pages

unfoldable pub schedule_page_wants_power_off : KioskConfig → Bool
unfolding any_page
schedule_page_wants_power_off k = any_page wants_power_off k.pages
