-- ===== src/Config/Inserts.antt =====
-- Inserts, the pages that are shown for a short time on a fixed rhythm: internal/config/inserts.go. Times
-- are nanoseconds. The calendar of the kiosk's time zone is a parameter: its days are numbered, and a day
-- has its weekday, its sunrise and sunset where a location is set, and the instants of its minutes
-- (`time.Date`). A day of a loop is an instant, as in the source: `AddDate` keeps the clock of the instant
-- it starts from, also of one that `time.Date` moved where a clock change skips midnight. A duration is
-- an int64 of nanoseconds and wraps around.
pub mod Conditions
pub mod Validation
pub mod Program
pub mod Minutes
pub mod Calendars
pub mod Runs
pub mod Listed
pub mod Winner
pub mod Conditional
pub mod Accepted
pub mod Changes
pub mod Cuts
pub mod Timeline
use kiosk_mate.Common.{
  ℕ, zero, suc, ◌+◌, ◌-◌, ◌*◌, ◌/◌, ◌%◌, ◌^◌, min, Bool, true, false, not, ◌&&◌, ◌||◌, Option, none,
  some, List, [], ◌∷◌, ◌++◌, map, ◌==◌, ltb, leb, if◌then◌else◌, sort, compact, ℤ, pos, negsuc,
  Text,
}
use kiosk_mate.Supervisor.Window.{second, hour}
use kiosk_mate.Config.Clock.{Weekday, weekday_matches, resolve_clock}
use kiosk_mate.Config.Kiosk.{KioskConfig, PageInsert, Repeat, interval, hourly, times, other_repeat}
use kiosk_mate.Config.Pages.{is_empty, enabled_page_index}

pub record Day : Type 0 where
  pub weekday : Weekday
  pub sun : Option (ℕ × ℕ)
  pub at_minute : ℕ → ℕ

pub record Calendar : Type 0 where
  pub day : ℕ → Day
  -- The number of the day of an instant.
  pub day_of : ℕ → ℕ
  -- `AddDate(0, 0, 1)` and `AddDate(0, 0, -1)` of an instant.
  pub next_day : ℕ → ℕ
  pub day_before : ℕ → ℕ

-- `minute = 0; minute < 24*60; minute += every`
unfoldable pub steps : ℕ → ℕ → ℕ → List ℕ
steps every zero minute = []
steps every (suc fuel) minute =
    let rest = steps every fuel (minute + every) in
    if ltb minute (24 * 60) then minute ∷ rest else []

-- The hours from `hour` on.
unfoldable pub hours_from : ℕ → ℕ → ℕ → List ℕ
hours_from minute zero h = []
hours_from minute (suc n) h = (h * 60 + minute) ∷ hours_from minute n (h + 1)

unfoldable pub resolved : Option (ℕ × ℕ) → List Text → List ℕ
resolved sun [] = []
resolved sun (at ∷ texts) =
    let rest = resolved sun texts in
    elim (resolve_clock sun at) [ none ↦ rest | some minute ↦ minute ∷ rest ]

unfoldable pub interval_minutes : ℤ → List ℕ
unfolding steps
interval_minutes (pos every) = if every == 0 then [] else steps every (24 * 60) 0
interval_minutes (negsuc n) = []

unfoldable pub hourly_minutes : ℤ → List ℕ
unfolding hours_from
hourly_minutes (pos minute) = if leb minute 59 then hours_from minute 24 0 else []
hourly_minutes (negsuc n) = []

unfoldable pub slot_minutes : PageInsert → Option (ℕ × ℕ) → List ℕ
unfolding interval_minutes hourly_minutes resolved
slot_minutes p sun = elim p.repeat [
  | interval ↦ interval_minutes p.every_minutes
  | hourly ↦ hourly_minutes p.minute
  | times ↦ compact (sort ltb (resolved sun p.times))
  | other_repeat ↦ []
]

abbrev window_allows : ℕ → Option ℕ → Option ℕ → Bool
window_allows minute none _ = false
window_allows minute (some start) none = false
window_allows minute (some start) (some end) =
    if start == end
    then true
    else if ltb start end
    then leb start minute && ltb minute end
    else leb start minute || ltb minute end

unfoldable pub allows : PageInsert → Day → ℕ → Bool
allows p day minute =
    if not (weekday_matches p.days day.weekday)
    then false
    else if is_empty p.start
    then true
    else window_allows minute (resolve_clock day.sun p.start) (resolve_clock day.sun p.end)

-- The int64 with the given bits, of which the source keeps the low 64.
abbrev pub int64 : ℕ → ℤ
int64 n = let low = n % 2 ^ 64 in if ltb low (2 ^ 63) then pos low else negsuc (2 ^ 64 - 1 - low)

-- `time.Duration(seconds)*time.Second`
unfoldable pub nanoseconds : ℤ → ℤ
nanoseconds (pos n) = int64 (n * second)
nanoseconds (negsuc n) = int64 (2 ^ 64 - (n + 1) * second % 2 ^ 64)

abbrev pub at_most_hour : ℤ → ℕ
at_most_hour (pos n) = min n hour
at_most_hour (negsuc n) = 0

unfoldable pub duration : PageInsert → ℕ
duration p = at_most_hour (nanoseconds p.duration_seconds)

pub record InsertSlot : Type 0 where
  pub insert : PageInsert
  pub index : ℕ
  pub start : ℕ
  pub end : ℕ

abbrev pub slot_of : PageInsert → ℕ → Day → ℕ → InsertSlot
slot_of p index day minute = record {
  insert = p;
  index = index;
  start = day.at_minute minute;
  end = day.at_minute minute + duration p;
}

-- `end.After(from) && start.Before(to)`
abbrev pub overlaps : ℕ → ℕ → InsertSlot → Bool
overlaps from to slot = ltb from slot.end && ltb slot.start to

-- The innermost loop, over the minutes of one day.
unfoldable pub day_slots : ℕ → ℕ → PageInsert → ℕ → Day → List ℕ → List InsertSlot
day_slots from to p index day [] = []
day_slots from to p index day (minute ∷ minutes) =
    let rest = day_slots from to p index day minutes in
    if overlaps from to (slot_of p index day minute) && allows p day minute
    then slot_of p index day minute ∷ rest
    else rest

-- The loop over the days before `to`; `t` is the instant that stands for the day.
unfoldable pub slots_from : Calendar → ℕ → ℕ → PageInsert → ℕ → ℕ → ℕ → List InsertSlot
slots_from c from to p index zero t = []
slots_from c from to p index (suc fuel) t =
    let later = slots_from c from to p index fuel (c.next_day t) in
    let day = c.day (c.day_of t) in
    if ltb t to then day_slots from to p index day (slot_minutes p day.sun) ++ later else []

-- The day before the one of `from`.
abbrev pub first_day : Calendar → ℕ → ℕ
first_day c from = c.day_before ((c.day (c.day_of from)).at_minute 0)

-- More days than begin from the day before `from` until `to`, if a day lasts at least an hour.
abbrev pub day_fuel : ℕ → ℕ → ℕ
day_fuel from to = (to - from) / hour + 3

abbrev pub is_scheduled : KioskConfig → PageInsert → Bool
is_scheduled k p =
    not p.disabled
    && elim (enabled_page_index k p.page_id) [ pos n ↦ true | negsuc n ↦ false ]
    && ltb 0 (duration p)

-- The loop over the inserts, from position `index`.
unfoldable pub all_slots : KioskConfig → Calendar → ℕ → ℕ → ℕ → List PageInsert → List InsertSlot
all_slots k c from to index [] = []
all_slots k c from to index (p ∷ inserts) =
    let rest = all_slots k c from to (index + 1) inserts in
    if is_scheduled k p
    then slots_from c from to p index (day_fuel from to) (first_day c from) ++ rest
    else rest

abbrev pub comes_before : InsertSlot → InsertSlot → Bool
comes_before a b = if a.start == b.start then ltb a.index b.index else ltb a.start b.start

unfoldable pub insert_slots : KioskConfig → Calendar → ℕ → ℕ → List InsertSlot
insert_slots k c from to =
    if ltb from to then sort comes_before (all_slots k c from to 0 k.inserts) else []
