-- ===== src/Workflow/Overrides.antt =====
-- Rules never touch a page override that was set by hand: internal/workflow/engine.go.
use kiosk_mate.Common.{
  ℕ, ◌<◌, ◌≡◌, ◌≢◌, refl, Option, none, some, List, [], ◌∷◌, All, All-Unit, All-Unit, Text, ℤ, pos,
  negsuc, arith, trim_space, to_upper,
}
use kiosk_mate.Config.Kiosk.{KioskConfig}
use kiosk_mate.Config.Pages.{enabled_page_index, page_count}
use kiosk_mate.Config.Pages.Index.{enabled_page_index-lt-page_count}
use kiosk_mate.Config.Rules.{
  RuleAction, WorkflowRule, ActionType, show_page, resume_playlist, display, brightness,
  other_action,
}
use kiosk_mate.Workflow.{
  Outside, Engine, Command, set_override, clear_override, by_workflow, by_hand, note_run,
}
use kiosk_mate.Workflow.Actions.{
  act, act_as, switch_display, revert_display, show_index, resume, run_command,
}
use kiosk_mate.Workflow.Firing.{Event, handle_all}
use kiosk_mate.Workflow.Keeps.{handle_all-keeps}

-- A page is shown only if it exists and no override was set by hand, and an override is ended only if a
-- rule set it.
abbrev pub IsAllowed : KioskConfig → Outside → List Command → Command → Type 0
IsAllowed k o earlier (set_override (pos page) duration) =
    (page < page_count k) × (o.override_source earlier ≢ by_hand)
IsAllowed k o earlier (set_override (negsuc n) duration) = ⊥
IsAllowed k o earlier clear_override = o.override_source earlier ≡ by_workflow
IsAllowed k o earlier _ = Unit

-- Each command was allowed after those before it.
abbrev pub Respects : KioskConfig → Outside → List Command → Type 0
Respects k o [] = Unit
Respects k o (c ∷ earlier) = IsAllowed k o earlier c × Respects k o earlier

show_index-Respects :
    (k : KioskConfig) (o : Outside) (a : RuleAction) (i : ℤ) (e : Engine)
    → ((n : ℕ) → i ≡ pos n → n < page_count k)
    → Respects k o e.done
    → Respects k o (show_index o a i e).0.done
unfolding run_command
show_index-Respects k o a (negsuc n) e h r = r
show_index-Respects k o a (pos n) e h r = ground (arith, h n refl)

resume-Respects :
    (k : KioskConfig) (o : Outside) (e : Engine)
    → Respects k o e.done
    → Respects k o (resume o e).0.done
unfolding run_command
resume-Respects k o e r = ground arith

switch_display-Respects :
    (k : KioskConfig) (o : Outside) (power : Text) (e : Engine)
    → Respects k o e.done
    → Respects k o (switch_display o power e).0.done
unfolding switch_display
switch_display-Respects k o power e r = ground arith

act_as-Respects :
    (k : KioskConfig) (o : Outside) (a : RuleAction) (t : ActionType) (e : Engine)
    → Respects k o e.done
    → Respects k o (act_as k o a t e).0.done
unfolding act_as
act_as-Respects k o a show_page e r =
    show_index-Respects k o a (enabled_page_index k a.page_id) e
      (λ n h. enabled_page_index-lt-page_count k a.page_id {n = n} h) r
act_as-Respects k o a resume_playlist e r = resume-Respects k o e r
act_as-Respects k o a display e r =
    ground (arith, switch_display-Respects k o (to_upper (trim_space a.value)) e r)
act_as-Respects k o a brightness e r = ground arith
act_as-Respects k o a other_action e r = r
act_as-Respects k o a _ e r = (tt, r)

revert_display-Respects :
    (k : KioskConfig) (o : Outside) (e : Engine)
    → Respects k o e.done
    → Respects k o (revert_display o e).done
unfolding revert_display
revert_display-Respects k o e r = go e.revert
  where
    go :
        (pending : Option (ℕ × Text))
        → let ended : Engine = elim pending [
          | none ↦ e
          | some (at, power) ↦ (switch_display o power (record e { revert = none })).0
        ] in
          Respects k o ended.done
    go none = r
    go (some (at, power)) = switch_display-Respects k o power (record e { revert = none }) r

every_rule : (rules : List WorkflowRule) → All (λ rule. All (λ a. Unit {0}) rule.actions) rules
every_rule [] = tt
every_rule (rule ∷ rules) = (All-Unit rule.actions, every_rule rules)

-- Whatever the engine is told, in any order, and however the browser and the hardware answer: rules show
-- only pages that exist, never while an override that was set by hand is active, and they end an override
-- only if a rule set it.
pub handle_all-Respects :
    (k : KioskConfig) (o : Outside) (rules : List WorkflowRule) (events : List Event) (e : Engine)
    → Respects k o e.done
    → Respects k o (handle_all k o rules events e).done
unfolding act note_run
handle_all-Respects k o rules events e r =
    handle_all-keeps k o (λ s. Respects k o s.done) (λ a. Unit)
      (λ a s f h. act_as-Respects k o a a.action s h) (λ run s h. h) (λ last time idle s h. h)
      (revert_display-Respects k o) rules events e (every_rule rules) r
