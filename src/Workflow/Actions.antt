-- ===== src/Workflow/Actions.antt =====
-- What a rule does: `execute`, `action`, `setDisplay` and `scheduleDisplayRevert` of
-- internal/workflow/engine.go.
use kiosk_mate.Common.{
  ℕ, ◌+◌, ◌*◌, Option, none, some, List, [], ◌∷◌, ◌++◌, ◌==◌, if◌then◌else◌, Text, text_eq, codes,
  trim_space, to_upper, atoi, ℤ, pos, negsuc,
}
use kiosk_mate.Supervisor.Window.{second}
use kiosk_mate.Config.Kiosk.{KioskConfig}
use kiosk_mate.Config.Pages.{enabled_page_index}
use kiosk_mate.Config.Rules.{
  RuleAction, WorkflowRule, ActionType, show_page, resume_playlist, display, brightness, reload,
  overlay, script, click, scroll, sound, other_action,
}
use kiosk_mate.Workflow.{
  Outside, Engine, Source, Run, ran, run_failed, Skip, manual_override, Command, set_override,
  clear_override, evaluate, reload_page, show_overlay, set_display, note_display, set_brightness,
  plain, click_on, scroll_to, play_sound, no_override, by_workflow, by_hand, ActionError,
  page_missing, no_display_control, no_brightness_control, not_a_number, unsupported,
  failed_outside, note_run, perform,
}

-- How an action ends; `overridden` is `errManualOverride`.
pub data Outcome : Type 0 where
  acted overridden : Outcome
  failed : ActionError → Outcome

abbrev pub outcome : Option Text → Outcome
outcome none = acted
outcome (some e) = failed (failed_outside e)

abbrev pub performed : Engine × Option Text → Engine × Outcome
performed (e, error) = (e, outcome error)

unfoldable pub run_command : Outside → Command → Engine → Engine × Outcome
unfolding perform
run_command o c e = performed (perform o c e)

-- 24 hours for a page that is shown until it is resumed.
abbrev pub page_duration : RuleAction → ℤ
page_duration a = if a.until_resume then pos 86400 else a.duration_seconds

abbrev pub show_index : Outside → RuleAction → ℤ → Engine → Engine × Outcome
show_index o a (negsuc n) e = (e, failed page_missing)
show_index o a (pos index) e = elim (o.override_source e.done) [
  | by_hand ↦ (e, overridden)
  | no_override ↦ run_command o (set_override (pos index) (page_duration a)) e
  | by_workflow ↦ run_command o (set_override (pos index) (page_duration a)) e
]

abbrev pub resume : Outside → Engine → Engine × Outcome
resume o e = elim (o.override_source e.done) [
  | no_override ↦ (e, acted)
  | by_hand ↦ (e, overridden)
  | by_workflow ↦ run_command o clear_override e
]

-- A display that was switched is noted by the browser, which cannot fail.
abbrev pub note_switched : Outside → Text → Engine × Option Text → Engine × Option Text
note_switched o power (e, some error) = (e, some error)
note_switched o power (e, none) = ((perform o (note_display power) e).0, none)

unfoldable pub switch_display : Outside → Text → Engine → Engine × Option Text
unfolding perform
switch_display o power e = note_switched o power (perform o (set_display power) e)

abbrev pub opposite : Text → Text
opposite power = if text_eq power (codes "OFF") then codes "ON" else codes "OFF"

abbrev pub revert_at : ℕ → Text → ℤ → Option (ℕ × Text)
revert_at now power (pos seconds) =
    if seconds == 0 then none else some (now + seconds * second, opposite power)
revert_at now power (negsuc n) = none

unfoldable pub schedule_display_revert : Outside → Text → ℤ → Engine → Engine
schedule_display_revert o power seconds e = record e {
  revert = revert_at (o.time e.done) power seconds;
}

abbrev pub displayed : Outside → Text → ℤ → Engine × Option Text → Engine × Outcome
displayed o power seconds (e, some error) = (e, failed (failed_outside error))
displayed o power seconds (e, none) = (schedule_display_revert o power seconds e, acted)

abbrev pub brighten : Outside → Option ℤ → Engine → Engine × Outcome
brighten o none e = (e, failed not_a_number)
brighten o (some value) e = run_command o (set_brightness value) e

unfoldable pub act_as : KioskConfig → Outside → RuleAction → ActionType → Engine → Engine × Outcome
unfolding run_command switch_display schedule_display_revert
act_as k o a show_page e = show_index o a (enabled_page_index k a.page_id) e
act_as k o a resume_playlist e = resume o e
act_as k o a click e = run_command o (evaluate (click_on a.value)) e
act_as k o a scroll e = run_command o (evaluate (scroll_to a.value)) e
act_as k o a sound e = run_command o (evaluate (play_sound a.value)) e
act_as k o a reload e = run_command o reload_page e
act_as k o a overlay e = run_command o (show_overlay a.value a.duration_seconds) e
act_as k o a script e = run_command o (evaluate (plain a.value)) e
act_as k o a display e =
    let power = to_upper (trim_space a.value) in
    if o.has_hardware
    then displayed o power a.duration_seconds (switch_display o power e)
    else (e, failed no_display_control)
act_as k o a brightness e =
    if o.has_hardware
    then brighten o (atoi (trim_space a.value)) e
    else (e, failed no_brightness_control)
act_as k o a other_action e = (e, failed unsupported)

unfoldable pub act : KioskConfig → Outside → RuleAction → Engine → Engine × Outcome
unfolding act_as
act k o a e = act_as k o a a.action e

-- `run.Skipped` and the failures so far.
abbrev pub Tally : Type 0
Tally = Option Skip × List (ℕ × ActionError)

abbrev pub count_outcome : ℕ → Outcome → Tally → Tally
count_outcome index acted (skipped, failures) = (skipped, failures)
count_outcome index overridden (skipped, failures) = (some manual_override, failures)
count_outcome index (failed e) (skipped, failures) = (skipped, failures ++ (index, e) ∷ [])

-- The loop over the actions, from position `index`.
unfoldable pub run_actions :
    KioskConfig → Outside → ℕ → List RuleAction → Engine → Tally → Engine × Tally
run_actions k o index [] e tally = (e, tally)
run_actions k o index (a ∷ actions) e tally =
    let (e', how) = act k o a e in
    run_actions k o (index + 1) actions e' (count_outcome index how tally)

abbrev pub run_of : WorkflowRule → Source → ℕ → Tally → Run
run_of rule source at (skipped, failures) = record {
  rule_id = rule.id;
  rule = rule.name;
  source = source;
  at = at;
  result = elim failures [ [] ↦ ran | f ∷ rest ↦ run_failed ];
  failures = failures;
  skipped = skipped;
}

abbrev pub finish_run : WorkflowRule → Source → ℕ → Engine × Tally → Engine × List (ℕ × ActionError)
finish_run rule source at (e, tally) = (note_run (run_of rule source at tally) e, tally.1)

-- The state and the failures, which are the error unless there are none.
unfoldable pub execute :
    KioskConfig → Outside → WorkflowRule → Source → Engine → Engine × List (ℕ × ActionError)
execute k o rule source e =
    finish_run rule source (o.time e.done) (run_actions k o 1 rule.actions e (none, []))

-- The pending display timer runs out.
unfoldable pub revert_display : Outside → Engine → Engine
revert_display o e = elim e.revert [
  | none ↦ e
  | some (at, power) ↦ (switch_display o power (record e { revert = none })).0
]
