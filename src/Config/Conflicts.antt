-- ===== src/Config/Conflicts.antt =====
-- Schedules and triggers that claim the same event: `timeRulesOverlap`, `sameTrigger` and what they call
-- in internal/config/conflicts.go, and the pairs of time rules that `Conflicts` reports. The names that
-- a report prints, and the reports on pages of workflow rules, are not modelled. `shortDay` cuts bytes in
-- the source and characters here, which are the same for the names of weekdays.
pub mod Overlap
use kiosk_mate.Common.{
  ℕ, ◌*◌, Bool, true, false, not, ◌&&◌, ◌||◌, Option, none, some, List, [], ◌∷◌, ◌++◌, ◌==◌, ltb,
  if◌then◌else◌, Text, text_eq, trim_space, to_lower, equal_fold, split, take, ℤ, pos, negsuc,
  select,
}
use kiosk_mate.Config.Clock.{two_parts, valid_clock}
use kiosk_mate.Config.Kiosk.{TimeRule}
use kiosk_mate.Config.Rules.{TriggerType, on_mqtt, on_time, on_touch, on_idle, RuleTrigger}
use kiosk_mate.Config.Pages.{is_empty}

unfoldable pub short_day : Text → Text
short_day day = take 3 (to_lower (trim_space day))

has_day : Text → List Text → Bool
has_day day [] = false
has_day day (other ∷ days) = text_eq (short_day other) (short_day day) || has_day day days

share_day : List Text → List Text → Bool
unfolding has_day
share_day [] b = false
share_day (day ∷ a) b = has_day day b || share_day a b

unfoldable pub days_overlap : List Text → List Text → Bool
unfolding share_day
days_overlap [] b = true
days_overlap (day ∷ a) [] = true
days_overlap (day ∷ a) (other ∷ b) = share_day (day ∷ a) (other ∷ b)

-- The source calls it for valid clock texts only; its value for other texts is not used.
unfoldable pub clock_minutes : Text → ℕ
clock_minutes value = elim (two_parts (split b':' (trim_space value))) [ none ↦ 0 | some m ↦ m ]

unfoldable pub clock_segments : ℕ → ℕ → List (ℕ × ℕ)
clock_segments start end =
    if start == end
    then (0, 24 * 60) ∷ []
    else if ltb start end
    then (start, end) ∷ []
    else (start, 24 * 60) ∷ (0, end) ∷ []

abbrev pub meet : ℕ × ℕ → ℕ × ℕ → Bool
meet (a, b) (c, d) = ltb a d && ltb c b

abbrev pub meets_any : ℕ × ℕ → List (ℕ × ℕ) → Bool
meets_any x [] = false
meets_any x (y ∷ ys) = meet x y || meets_any x ys

-- The two loops of `timeRulesOverlap`.
abbrev pub any_meet : List (ℕ × ℕ) → List (ℕ × ℕ) → Bool
any_meet [] ys = false
any_meet (x ∷ xs) ys = meets_any x ys || any_meet xs ys

unfoldable pub time_rules_overlap : TimeRule → TimeRule → Bool
time_rules_overlap a b =
    if not (days_overlap a.days b.days)
    then false
    else if not (valid_clock a.start && valid_clock a.end)
        || not (valid_clock b.start && valid_clock b.end)
    then false
    else any_meet (clock_segments (clock_minutes a.start) (clock_minutes a.end))
        (clock_segments (clock_minutes b.start) (clock_minutes b.end))

abbrev same_int : ℤ → ℤ → Bool
same_int (pos n) (pos m) = n == m
same_int (negsuc n) (negsuc m) = n == m
same_int (pos n) (negsuc m) = false
same_int (negsuc n) (pos m) = false

conflicts_with : TimeRule → List TimeRule → List (TimeRule × TimeRule)
conflicts_with rule [] = []
conflicts_with rule (other ∷ rules) =
    let rest = conflicts_with rule rules in
    if not (same_int rule.page other.page) && time_rules_overlap rule other
    then (rule, other) ∷ rest
    else rest

conflict_pairs : List TimeRule → List (TimeRule × TimeRule)
unfolding conflicts_with
conflict_pairs [] = []
conflict_pairs (rule ∷ rules) = conflicts_with rule rules ++ conflict_pairs rules

-- The pairs of enabled time rules that `Conflicts` reports.
unfoldable pub time_rule_conflicts : List TimeRule → List (TimeRule × TimeRule)
unfolding conflict_pairs
time_rule_conflicts rules = conflict_pairs (select (λ rule. not rule.disabled) rules)

same_topic : RuleTrigger → RuleTrigger → Bool
same_topic a b =
    let pa = trim_space a.payload in
    let pb = trim_space b.payload in
    text_eq (trim_space a.topic) (trim_space b.topic)
    && (is_empty pa || is_empty pb || equal_fold pa pb)

same_kind : TriggerType → TriggerType → RuleTrigger → RuleTrigger → Bool
unfolding same_topic
same_kind on_mqtt on_mqtt a b = same_topic a b
same_kind on_time on_time a b = text_eq a.at b.at && days_overlap a.days b.days
same_kind on_touch on_touch a b = true
same_kind on_idle on_idle a b = same_int a.idle_seconds b.idle_seconds
same_kind _ _ a b = false

unfoldable pub same_trigger : RuleTrigger → RuleTrigger → Bool
unfolding same_kind
same_trigger a b = same_kind a.trigger b.trigger a b
