-- ===== src/Supervisor/Schedule/Rules.antt =====
-- Which time rule decides: `timeRuleTarget` of internal/supervisor/browser.go.
use kiosk_mate.Common.{
  ℕ, ◌+◌, ◌-◌, ◌*◌, ◌≤◌, ◌<◌, ◌≡◌, ◌↔◌, refl, true, false, Option, none, some, List, [], ◌∷◌, ◌++◌,
  leb, if◌then◌else◌, Text, ℤ, arith, All, ap,
}
use kiosk_mate.Supervisor.Window.{minute}
use kiosk_mate.Config.Clock.{weekday_matches}
use kiosk_mate.Config.Kiosk.{KioskConfig, TimeRule}
use kiosk_mate.Config.Pages.{page_count}
use kiosk_mate.Supervisor.Schedule.{
  Moment, clamp_page, rule_clock, clock_now, in_window, rule_window, rule_target, first_target,
  time_rule_target,
}

-- The minutes from `start` on to `m`, around the clock.
abbrev pub minutes_from : ℕ → ℕ → ℕ
minutes_from start m = if leb start m then m - start else m + 1440 - start

-- The window is the arc of the clock from `start`, included, to `end`, excluded, past midnight if `end`
-- comes first; equal times are an empty window.
pub in_window_iff :
    (start end current : ℕ)
    → start < 1440
    → end < 1440
    → current < 1440
    → (in_window start end current ≡ true) ↔ (minutes_from start current < minutes_from start end)
in_window_iff start end current hs he hc = ground arith

-- Both ends of the window are times of day, and it holds the minute of `now`.
abbrev pub IsWithin : Moment → Option ℕ → Option ℕ → Type 0
IsWithin now (some start) (some end) = in_window start end (clock_now now) ≡ true
IsWithin now none _ = ⊥
IsWithin now (some start) none = ⊥

-- The rule is enabled, is one of this weekday, and its window holds the current minute.
abbrev pub IsActive : Moment → TimeRule → Type 0
IsActive now rule =
    (rule.disabled ≡ false)
    × (weekday_matches rule.days now.weekday ≡ true)
    × IsWithin now (rule_clock now rule.start) (rule_clock now rule.end)

abbrev Due : KioskConfig → Moment → TimeRule → Option (ℤ × Text × ℕ) → Type 0
Due k now rule none = IsActive now rule → ⊥
Due k now rule (some (page, name, next)) =
    IsActive now rule × (page ≡ clamp_page rule.page (page_count k))

rule_target-Due :
    (k : KioskConfig) (now : Moment) (rule : TimeRule) → Due k now rule (rule_target k now rule)
unfolding rule_target rule_window
rule_target-Due k now rule = ground arith

-- The first active rule decides the page, or no rule is active.
abbrev pub Decides : KioskConfig → Moment → List TimeRule → Option (ℤ × Text × ℕ) → Type 0
Decides k now rules none = All (λ r. IsActive now r → ⊥) rules
Decides k now rules (some (page, name, next)) =
    (before : List TimeRule) × (rule : TimeRule) × (after : List TimeRule) × (rules
      ≡ before ++ (rule ∷ after))
    × All (λ r. IsActive now r → ⊥) before
    × IsActive now rule
    × (page ≡ clamp_page rule.page (page_count k))

first_target-Decides :
    (k : KioskConfig) (now : Moment) (rules : List TimeRule)
    → Decides k now rules (first_target k now rules)
unfolding first_target
first_target-Decides k now [] = tt
first_target-Decides k now (rule ∷ rules) =
    go (rule_target k now rule) (first_target k now rules) (rule_target-Due k now rule)
      (first_target-Decides k now rules)
  where
    go :
        (found rest : Option (ℤ × Text × ℕ))
        → Due k now rule found
        → Decides k now rules rest
        → Decides k now (rule ∷ rules) (elim found [ some target ↦ some target | none ↦ rest ])
    go none none idle p = (idle, p)
    go none (some target) idle (before, r, after, e, q, active, page) =
        (rule ∷ before, r, after, ap (λ l. rule ∷ l) e, (idle, q), active, page)
    go (some target) rest (active, page) p = ([], rule, rules, refl, tt, active, page)

-- The page of the time programme is that of the first rule in the list that is enabled, matches the
-- weekday and holds the current minute in its window; there is none exactly when no rule does.
pub time_rule_target-Decides :
    (k : KioskConfig) (now : Moment) → Decides k now k.time_rules (time_rule_target k now)
unfolding time_rule_target
time_rule_target-Decides k now = first_target-Decides k now k.time_rules

-- The calendar's minutes are those of one day, and `now` is in one of them.
abbrev pub IsDay : Moment → ℕ → Type 0
IsDay now midnight =
    ((m : ℕ) → now.at_minute m ≡ midnight + m * minute)
    × (midnight + clock_now now * minute ≤ now.instant)
    × (now.instant < midnight + clock_now now * minute + minute)
    × (clock_now now < 1440)

abbrev pub SwitchesAfter : ℕ → Option (ℤ × Text × ℕ) → Type 0
SwitchesAfter now none = Unit
SwitchesAfter now (some (page, name, next)) = now < next

rule_window-SwitchesAfter :
    (k : KioskConfig) (now : Moment) (rule : TimeRule) (midnight : ℕ) (start end : Option ℕ)
    → IsDay now midnight
    → SwitchesAfter now.instant (rule_window k now rule start end)
unfolding rule_window
rule_window-SwitchesAfter k now rule midnight none end d = tt
rule_window-SwitchesAfter k now rule midnight (some start) none d = tt
rule_window-SwitchesAfter k now rule midnight (some start) (some end) (days, from, to, today) =
    ground (arith, days end)

-- Where the minutes are those of one day of 24 hours and `now` lies in its minute, the time that an
-- active rule gives for the next switch lies after `now`, also for a window that crosses midnight.
pub rule_target-SwitchesAfter :
    (k : KioskConfig) (now : Moment) (rule : TimeRule) (midnight : ℕ)
    → IsDay now midnight
    → SwitchesAfter now.instant (rule_target k now rule)
unfolding rule_target
rule_target-SwitchesAfter k now rule midnight (days, from, to, today) =
    let day : IsDay now midnight = (days, from, to, today) in
    ground (
      arith,
      rule_window-SwitchesAfter k now rule midnight (rule_clock now rule.start)
          (rule_clock now rule.end) day,
    )
