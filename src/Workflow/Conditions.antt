-- ===== src/Workflow/Conditions.antt =====
-- Why a rule may not run: `blocked`, `inWindow` and `clockMinutes` of internal/workflow/engine.go.
use kiosk_mate.Common.{
  ℕ, ◌+◌, ◌*◌, ◌-◌, Bool, false, not, ◌&&◌, ◌||◌, Option, none, some, [], ◌∷◌, ◌==◌, ltb, leb,
  if◌then◌else◌, Text, is_digit, trim_space, ℤ, pos, negsuc,
}
use kiosk_mate.Supervisor.Window.{second}
use kiosk_mate.Config.Clock.{weekday_matches}
use kiosk_mate.Config.Kiosk.{KioskConfig}
use kiosk_mate.Config.Pages.{is_empty, enabled_page_index}
use kiosk_mate.Config.Rules.{WorkflowRule}
use kiosk_mate.Workflow.{
  Outside, Engine, Local, Skip, cooldown, outside_days, time_window, active_page,
}

-- The minutes of a clock: a colon, two digits below 60, and nothing more.
abbrev clock_rest : ℕ → Text → Option ℕ
clock_rest hour (colon ∷ m ∷ n ∷ []) =
    if colon == b':'
      && is_digit m
      && is_digit n
      && ltb hour 24
      && ltb ((m - b'0') * 10 + (n - b'0')) 60
    then some (hour * 60 + ((m - b'0') * 10 + (n - b'0')))
    else none
clock_rest hour _ = none

-- `time.Parse("15:04", ...)`: an hour of one or two digits, as the library reads "15".
unfoldable pub clock_minutes : Text → Option ℕ
unfolding is_digit
clock_minutes value = elim (trim_space value) [
  | [] ↦ none
  | h ∷ [] ↦ none
  | h ∷ i ∷ rest ↦
      if is_digit h && is_digit i
      then clock_rest ((h - b'0') * 10 + (i - b'0')) rest
      else if is_digit h
      then clock_rest (h - b'0') (i ∷ rest)
      else none
]

abbrev pub within_day : ℕ → Option ℕ → Option ℕ → Bool
within_day current (some from) (some to) =
    if leb from to then leb from current && ltb current to else leb from current || ltb current to
within_day current (some from) none = false
within_day current none _ = false

unfoldable pub in_window : Local → Text → Text → Bool
in_window now start end = within_day now.minute_of_day (clock_minutes start) (clock_minutes end)

-- `==` of two integers.
abbrev pub same_page : ℤ → ℤ → Bool
same_page (pos n) (pos m) = n == m
same_page (negsuc n) (negsuc m) = n == m
same_page (pos n) (negsuc m) = false
same_page (negsuc n) (pos m) = false

-- Whether a cooldown of `seconds` that began at `last` still lasts; 0 is the zero time.
abbrev pub cooling : ℤ → ℕ → ℕ → Bool
cooling (pos seconds) last now =
    ltb 0 seconds && not (last == 0) && ltb now (last + seconds * second)
cooling (negsuc n) last now = false

unfoldable pub blocked : KioskConfig → Outside → WorkflowRule → Local → Engine → Option Skip
blocked k o rule now e =
    let c = rule.conditions in
    if cooling rule.cooldown_seconds (e.last_fired rule.id) now.instant
    then some cooldown
    else if not (weekday_matches c.days now.weekday)
    then some outside_days
    else if not (is_empty c.start) && not (in_window now c.start c.end)
    then some time_window
    else if not (is_empty c.active_page_id)
        && not (same_page (enabled_page_index k c.active_page_id) (o.active_page e.done))
    then some active_page
    else none
