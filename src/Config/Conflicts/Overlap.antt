-- ===== src/Config/Conflicts/Overlap.antt =====
-- What an overlap of time rules means for the scheduler of internal/supervisor/browser.go.
use kiosk_mate.Common.{
  ℕ, ◌<◌, ◌≡◌, ◌≢◌, ◌↔◌, true, false, ◌&&◌, Option, none, some, ltb, if◌then◌else◌, max, arith, ap,
  sym, ◌∙◌, Text,
}
use kiosk_mate.Config.Clock.{valid_clock, parse_clock, insert_clock}
use kiosk_mate.Config.Clock.Parse.{clocks_agree}
use kiosk_mate.Config.Kiosk.{TimeRule}
use kiosk_mate.Config.Conflicts.{
  clock_segments, any_meet, time_rules_overlap, days_overlap, clock_minutes,
}
use kiosk_mate.Supervisor.Schedule.{in_window}

-- A minute that both windows hold, if there is one.
abbrev shared_minute : ℕ → ℕ → ℕ → ℕ → ℕ
shared_minute s e s' e' =
    if ltb s e
    then if ltb s' e' then max s s' else if ltb s' e then max s s' else s
    else if ltb s' e'
    then if ltb s e' then max s s' else s'
    else 1439

shared :
    (s e s' e' : ℕ)
    → s < 1440
    → e < 1440
    → s' < 1440
    → e' < 1440
    → s ≢ e
    → s' ≢ e'
    → any_meet (clock_segments s e) (clock_segments s' e') ≡ true
    → (shared_minute s e s' e' < 1440)
      × (in_window s e (shared_minute s e s' e') ≡ true)
      × (in_window s' e' (shared_minute s e s' e') ≡ true)
unfolding clock_segments
shared s e s' e' hs he hs' he' n n' h = ground arith

meets :
    (s e s' e' c : ℕ)
    → s < 1440
    → e < 1440
    → s' < 1440
    → e' < 1440
    → c < 1440
    → in_window s e c ≡ true
    → in_window s' e' c ≡ true
    → any_meet (clock_segments s e) (clock_segments s' e') ≡ true
unfolding clock_segments
meets s e s' e' c hs he hs' he' hc p q = ground arith

some_injective : {A : Type 0} {x y : A} → ◌≡◌ {A = Option A} (some x) (some y) → x ≡ y
some_injective {A} {x} {y} e = ap (λ o. elim o [ none ↦ x | some z ↦ z ]) e

-- A valid clock text is a minute of the day, the same for the conflicts and the scheduler.
clock_minutes-parse_clock :
    (value : Text) (m : ℕ)
    → valid_clock value ≡ true
    → parse_clock value ≡ some m
    → (clock_minutes value ≡ m) × (m < 1440)
unfolding clock_minutes insert_clock
clock_minutes-parse_clock value m v p =
    let (n, read, parsed, low) = (clocks_agree value).0 v in
    let same : n ≡ m = some_injective (sym parsed ∙ p) in
    (ap (λ o. elim o [ none ↦ 0 | some k ↦ k ]) read ∙ same, omega arith)

-- The clocks of a rule are valid, and the scheduler reads them as these minutes.
abbrev pub HasWindow : TimeRule → ℕ → ℕ → Type 0
HasWindow rule start end =
    (valid_clock rule.start ≡ true)
    × (valid_clock rule.end ≡ true)
    × (parse_clock rule.start ≡ some start)
    × (parse_clock rule.end ≡ some end)

overlap_segments :
    (a b : TimeRule) (s e s' e' : ℕ)
    → HasWindow a s e
    → HasWindow b s' e'
    → time_rules_overlap a b
      ≡ (days_overlap a.days b.days && any_meet (clock_segments s e) (clock_segments s' e'))
unfolding time_rules_overlap
overlap_segments a b s e s' e' (v1, v2, p1, p2) (w1, w2, q1, q2) =
    rw (v1, v2, w1, w2)
      (rw
        (
          (clock_minutes-parse_clock a.start s v1 p1).0,
          (clock_minutes-parse_clock a.end e v2 p2).0,
          (clock_minutes-parse_clock b.start s' w1 q1).0,
          (clock_minutes-parse_clock b.end e' w2 q2).0,
        )
        (ground arith))

-- For two time rules with valid clocks and windows that are not empty, an overlap is reported exactly
-- when their days overlap and the scheduler's windows hold a common minute of the day.
pub time_rules_overlap_iff :
    (a b : TimeRule) (s e s' e' : ℕ)
    → HasWindow a s e
    → HasWindow b s' e'
    → s ≢ e
    → s' ≢ e'
    → (time_rules_overlap a b ≡ true) ↔ (
        (days_overlap a.days b.days ≡ true)
        × ((c : ℕ) × (c < 1440) × (in_window s e c ≡ true) × (in_window s' e' c ≡ true)))
time_rules_overlap_iff a b s e s' e' (v1, v2, p1, p2) (w1, w2, q1, q2) n n' =
    let segments = overlap_segments a b s e s' e' (v1, v2, p1, p2) (w1, w2, q1, q2) in
    let hs = (clock_minutes-parse_clock a.start s v1 p1).1 in
    let he = (clock_minutes-parse_clock a.end e v2 p2).1 in
    let hs' = (clock_minutes-parse_clock b.start s' w1 q1).1 in
    let he' = (clock_minutes-parse_clock b.end e' w2 q2).1 in
    (
      λ h.
          let both = sym segments ∙ h in
          let (low, p, q) = shared s e s' e' hs he hs' he' n n' (ground arith) in
          (ground arith, (shared_minute s e s' e', low, p, q)),
      λ (d, (c, hc, p, q)). segments ∙ ground (arith, meets s e s' e' c hs he hs' he' hc p q),
    )

-- A window whose ends are the same minute never holds a minute for the scheduler, but is reported to
-- overlap every other rule with valid clocks whose days overlap.
pub empty_window_overlaps :
    (a b : TimeRule) (s s' e' : ℕ)
    → HasWindow a s s
    → HasWindow b s' e'
    → days_overlap a.days b.days ≡ true
    → ((c : ℕ) → in_window s s c ≡ false) × (time_rules_overlap a b ≡ true)
unfolding clock_segments
empty_window_overlaps a b s s' e' (v1, v2, p1, p2) (w1, w2, q1, q2) d =
    let hs' = (clock_minutes-parse_clock b.start s' w1 q1).1 in
    (
      λ c. ground arith,
      overlap_segments a b s s s' e' (v1, v2, p1, p2) (w1, w2, q1, q2) ∙ ground arith,
    )
