-- ===== src/Config/Inserts/Validation.antt =====
-- `validateInserts` of internal/config/inserts.go. An error is a value, without the insert's name.
use kiosk_mate.Common.{
  ◌*◌, Bool, true, false, not, ◌||◌, Option, none, some, List, [], ◌∷◌, if◌then◌else◌, Text,
  member_text, contains_any, trim_space, ℤ, pos, negsuc, leb_ℤ, ltb_ℤ,
}
use kiosk_mate.Config.Clock.{valid_schedule_clock}
use kiosk_mate.Config.Kiosk.{
  KioskConfig, PageInsert, InsertCondition, Repeat, interval, hourly, times, other_repeat,
}
use kiosk_mate.Config.Pages.{is_empty}
use kiosk_mate.Supervisor.Window.{second, hour}
use kiosk_mate.Config.Inserts.{nanoseconds}
use kiosk_mate.Config.Rules.{valid_rule_id, between, fails, ◌or_else◌, page_ids}

pub data InsertError : Type 0 where
  bad_id used_twice unknown_page bad_repeat bad_interval bad_minute no_times bad_time : InsertError
  bad_duration half_window bad_window bad_topic no_value longer_than_interval : InsertError

unfoldable pub validate_times : List Text → Option InsertError
validate_times [] = none
validate_times (at ∷ texts) =
    fails (not (valid_schedule_clock at)) bad_time or_else validate_times texts

abbrev pub some_times : List Text → Option InsertError
some_times [] = some no_times
some_times (at ∷ texts) = none

unfoldable pub validate_repeat : PageInsert → Repeat → Option InsertError
unfolding validate_times
validate_repeat p interval = fails (not (between 1 (24 * 60) p.every_minutes)) bad_interval
validate_repeat p hourly = fails (not (between 0 59 p.minute)) bad_minute
validate_repeat p times = some_times p.times or_else validate_times p.times
validate_repeat p other_repeat = some bad_repeat

unfoldable pub validate_window : PageInsert → Option InsertError
validate_window p =
    if is_empty p.start
    then fails (not (is_empty p.end)) half_window
    else if is_empty p.end
    then some half_window
    else fails (not (valid_schedule_clock p.start) || not (valid_schedule_clock p.end)) bad_window

unfoldable pub validate_condition : Option InsertCondition → Option InsertError
validate_condition none = none
validate_condition (some c) =
    let topic = trim_space c.topic in
    fails (is_empty topic || contains_any (b'#' ∷ b'+' ∷ 0 ∷ []) topic) bad_topic
    or_else fails (is_empty (trim_space c.value)) no_value

-- `int64` wraps the duration around, as in the source; the intervals that passed their own check are short.
abbrev pub longer : PageInsert → Repeat → Bool
longer p interval = elim p.every_minutes [
  | negsuc n ↦ true
  | pos every ↦ leb_ℤ (pos (every * 60 * second)) (nanoseconds p.duration_seconds)
]
longer p _ = false

-- Fewer than 5 seconds, or a duration of more than an hour.
abbrev pub bad_seconds : ℤ → Bool
bad_seconds seconds = ltb_ℤ seconds (pos 5) || ltb_ℤ (pos hour) (nanoseconds seconds)

unfoldable pub validate_insert : PageInsert → List Text → List Text → Option InsertError
unfolding validate_repeat validate_window validate_condition
validate_insert p seen ids =
    fails (not (valid_rule_id p.id)) bad_id
    or_else (fails (member_text p.id seen) used_twice
        or_else (fails (not (member_text p.page_id ids)) unknown_page
            or_else (validate_repeat p p.repeat
                or_else (fails (bad_seconds p.duration_seconds) bad_duration
                    or_else (validate_window p
                        or_else (validate_condition p.condition
                            or_else fails (longer p p.repeat) longer_than_interval))))))

unfoldable pub validate_inserts_from : List PageInsert → List Text → List Text → Option InsertError
validate_inserts_from [] seen ids = none
validate_inserts_from (p ∷ inserts) seen ids =
    validate_insert p seen ids or_else validate_inserts_from inserts (p.id ∷ seen) ids

unfoldable pub validate_inserts : KioskConfig → Option InsertError
unfolding validate_inserts_from
validate_inserts k = validate_inserts_from k.inserts [] (page_ids k.pages)
