-- ===== src/Config/Clock.antt =====
-- Clock texts and weekdays: `validClock` of internal/config/config.go, `insertClock` and
-- `weekdayMatches` of internal/config/inserts.go, `sunClock` of internal/config/sun.go, `parseClock`
-- of internal/supervisor/browser.go. Lengths count characters, which are bytes in the accepted texts.
pub mod Parse
use kiosk_mate.Common.{
  ℕ, ◌+◌, ◌-◌, ◌*◌, min, Bool, true, false, not, ◌&&◌, ◌||◌, Option, none, some, List, [], ◌∷◌, map,
  ◌==◌, ltb, leb, if◌then◌else◌, length, take, drop, Text, codes, text_eq, trim_space, to_lower,
  split, atoi, ℤ, pos, negsuc,
}

-- The hour and the minute, if both are in range.
abbrev pub day_minute : Option ℤ → Option ℤ → Option ℕ
day_minute (some (pos hour)) (some (pos minute)) =
    if ltb 23 hour || ltb 59 minute then none else some (hour * 60 + minute)
day_minute _ _ = none

abbrev pub two_parts : List Text → Option ℕ
two_parts (h ∷ m ∷ []) = day_minute (atoi h) (atoi m)
two_parts _ = none

unfoldable pub insert_clock : Text → Option ℕ
insert_clock value = two_parts (split b':' (trim_space value))

abbrev pub two_or_three_parts : List Text → Option ℕ
two_or_three_parts (h ∷ m ∷ []) = day_minute (atoi h) (atoi m)
two_or_three_parts (h ∷ m ∷ s ∷ []) = day_minute (atoi h) (atoi m)
two_or_three_parts _ = none

unfoldable pub parse_clock : Text → Option ℕ
parse_clock value = two_or_three_parts (split b':' (trim_space value))

abbrev pub is_some {ℓ} : {A : Type ℓ} → Option A → Bool
is_some none = false
is_some (some a) = true

abbrev pub strict_parts : List Text → Bool
strict_parts (h ∷ m ∷ []) = length h == 2 && length m == 2 && is_some (day_minute (atoi h) (atoi m))
strict_parts _ = false

unfoldable pub valid_clock : Text → Bool
valid_clock value = strict_parts (split b':' (trim_space value))

pub data Sun : Type 0 where
  sunrise sunset : Sun

abbrev pub sun_name : Sun → Text
sun_name sunrise = codes "sunrise"
sun_name sunset = codes "sunset"

abbrev pub max_sun_offset : ℕ
max_sun_offset = 6 * 60

-- `strings.HasPrefix`, with the text behind the prefix.
unfoldable pub after_prefix : Text → Text → Option Text
after_prefix [] s = some s
after_prefix (p ∷ prefix) [] = none
after_prefix (p ∷ prefix) (c ∷ s) =
    let rest = after_prefix prefix s in if p == c then rest else none

abbrev signed_offset : Sun → Bool → Option ℤ → Option (Sun × Bool × ℕ)
signed_offset event minus (some (pos minutes)) =
    if ltb max_sun_offset minutes then none else some (event, minus, minutes)
signed_offset event minus _ = none

abbrev sun_offset : Sun → Text → Option (Sun × Bool × ℕ)
sun_offset event [] = some (event, false, 0)
sun_offset event (sign ∷ minutes) =
    if sign == b'+' || sign == b'-'
    then signed_offset event (sign == b'-') (atoi (trim_space minutes))
    else none

-- The event, whether the offset is before it, and the offset in minutes.
unfoldable pub sun_clock : Text → Option (Sun × Bool × ℕ)
unfolding after_prefix
sun_clock value =
    let value' = to_lower (trim_space value) in
    elim (after_prefix (sun_name sunrise) value') [
      | some rest ↦ sun_offset sunrise (trim_space rest)
      | none ↦ elim (after_prefix (sun_name sunset) value') [
        | some rest ↦ sun_offset sunset (trim_space rest)
        | none ↦ none
      ]
    ]

abbrev sun_or_default : Option (ℕ × ℕ) → ℕ × ℕ
sun_or_default none = (6 * 60, 18 * 60)
sun_or_default (some times) = times

abbrev sun_minute : Sun → ℕ × ℕ → ℕ
sun_minute sunrise (rise, set) = rise
sun_minute sunset (rise, set) = set

-- `m - offset` stops at 0, as the source's `max` does.
abbrev pub sun_resolved : Option (ℕ × ℕ) → Option (Sun × Bool × ℕ) → Option ℕ
sun_resolved sun none = none
sun_resolved sun (some (event, before, offset)) =
    let m = sun_minute event (sun_or_default sun) in
    some (min (if before then m - offset else m + offset) (24 * 60 - 1))

-- `ResolveClock`, for the day's sunrise and sunset where a location is set.
unfoldable pub resolve_clock : Option (ℕ × ℕ) → Text → Option ℕ
resolve_clock sun value = elim (insert_clock value) [
  | some m ↦ some m
  | none ↦ sun_resolved sun (sun_clock value)
]

unfoldable pub valid_schedule_clock : Text → Bool
valid_schedule_clock value = valid_clock value || is_some (sun_clock value)

pub data Weekday : Type 0 where
  sunday monday tuesday wednesday thursday friday saturday : Weekday

-- `strings.ToLower(weekday.String())`
abbrev pub weekday_name : Weekday → Text
weekday_name sunday = codes "sunday"
weekday_name monday = codes "monday"
weekday_name tuesday = codes "tuesday"
weekday_name wednesday = codes "wednesday"
weekday_name thursday = codes "thursday"
weekday_name friday = codes "friday"
weekday_name saturday = codes "saturday"

unfoldable pub names_day : Weekday → Text → Bool
names_day weekday day =
    let day' = to_lower (trim_space day) in
    text_eq day' (take 3 (weekday_name weekday)) || text_eq day' (weekday_name weekday)

unfoldable pub any_day : Weekday → List Text → Bool
unfolding names_day
any_day weekday [] = false
any_day weekday (day ∷ days) = names_day weekday day || any_day weekday days

unfoldable pub weekday_matches : List Text → Weekday → Bool
unfolding any_day
weekday_matches [] weekday = true
weekday_matches (day ∷ days) weekday = any_day weekday (day ∷ days)
