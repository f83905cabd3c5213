-- ===== src/Workflow/Sane.antt =====
-- What rules that passed their validation make the kiosk do: internal/workflow/engine.go and
-- internal/config/rules.go.
use kiosk_mate.Common.{
  ℕ, ◌≡◌, refl, Bool, true, false, Option, none, some, List, All, All-map, if-both, if◌then◌else◌,
  Text, text_eq, codes, trim_space, atoi, ℤ, pos, negsuc, arith,
}
use kiosk_mate.Config.Kiosk.{KioskConfig, KioskPage}
use kiosk_mate.Config.Pages.{enabled_page_index}
use kiosk_mate.Config.Rules.{
  RuleAction, WorkflowRule, ActionType, show_page, resume_playlist, display, brightness, overlay,
  other_action, between, is_power, is_percent, validate_rules, page_ids,
}
use kiosk_mate.Config.Rules.Accepted.{KindFits, validate_rule_action-KindFits, validate_rules-All}
use kiosk_mate.Workflow.{
  Outside, Engine, Command, set_override, show_overlay, set_display, note_display, set_brightness,
  OverrideSource, no_override, by_workflow, by_hand, note_run,
}
use kiosk_mate.Workflow.Actions.{
  act, act_as, show_index, resume, brighten, displayed, page_duration, opposite, revert_at,
  run_command, switch_display, schedule_display_revert, revert_display, Outcome, overridden,
}
use kiosk_mate.Workflow.Firing.{Event, handle_all}
use kiosk_mate.Workflow.Keeps.{handle_all-keeps}

-- A display is switched to "ON" or "OFF", a brightness is from 1 to 100, and a page or an overlay is shown
-- for at most a day.
abbrev pub IsSane : Command → Type 0
IsSane (set_display power) = is_power power ≡ true
IsSane (note_display power) = is_power power ≡ true
IsSane (set_brightness value) = between 1 100 value ≡ true
IsSane (set_override page duration) = between 0 86400 duration ≡ true
IsSane (show_overlay value duration) = between 0 86400 duration ≡ true
IsSane _ = Unit

abbrev pub IsSaneRevert : Option (ℕ × Text) → Type 0
IsSaneRevert none = Unit
IsSaneRevert (some (at, power)) = is_power power ≡ true

abbrev pub IsSaneEngine : Engine → Type 0
IsSaneEngine e = All IsSane e.done × IsSaneRevert e.revert

abbrev IsFitting : RuleAction → ActionType → Type 0
IsFitting a t = (between 0 86400 a.duration_seconds ≡ true) × KindFits a t

page_duration-IsSane :
    (a : RuleAction)
    → between 0 86400 a.duration_seconds ≡ true
    → between 0 86400 (page_duration a) ≡ true
page_duration-IsSane a h = ground arith

opposite-is_power : (power : Text) → is_power (opposite power) ≡ true
unfolding text_eq
opposite-is_power power = go (text_eq power (codes "OFF"))
  where
    go : (b : Bool) → is_power (if b then codes "ON" else codes "OFF") ≡ true
    go true = refl
    go false = refl

revert_at-IsSane :
    (now : ℕ) (power : Text) (seconds : ℤ) → IsSaneRevert (revert_at now power seconds)
revert_at-IsSane now power (pos n) = ground (arith, opposite-is_power power)
revert_at-IsSane now power (negsuc n) = tt

run_command-IsSane :
    (o : Outside) (c : Command) (e : Engine)
    → IsSane c
    → IsSaneEngine e
    → IsSaneEngine (run_command o c e).0
unfolding run_command
run_command-IsSane o c e h r = ((h, r.0), r.1)

show_index-IsSane :
    (o : Outside) (a : RuleAction) (i : ℤ) (e : Engine)
    → between 0 86400 a.duration_seconds ≡ true
    → IsSaneEngine e
    → IsSaneEngine (show_index o a i e).0
show_index-IsSane o a (negsuc n) e h r = r
show_index-IsSane o a (pos n) e h r = go (o.override_source e.done)
  where
    show : Engine × Outcome
    show = run_command o (set_override (pos n) (page_duration a)) e

    shown : IsSaneEngine show.0
    shown =
        run_command-IsSane o (set_override (pos n) (page_duration a)) e (page_duration-IsSane a h) r

    go :
        (source : OverrideSource)
        → let answer : Engine × Outcome = elim source [
          | by_hand ↦ (e, overridden)
          | no_override ↦ show
          | by_workflow ↦ show
        ] in
          IsSaneEngine answer.0
    go by_hand = r
    go no_override = shown
    go by_workflow = shown

resume-IsSane : (o : Outside) (e : Engine) → IsSaneEngine e → IsSaneEngine (resume o e).0
unfolding run_command
resume-IsSane o e r = ground arith

switch_display-IsSane :
    (o : Outside) (power : Text) (e : Engine)
    → is_power power ≡ true
    → IsSaneEngine e
    → IsSaneEngine (switch_display o power e).0
unfolding switch_display
switch_display-IsSane o power e h r = ground arith

brighten-IsSane :
    (o : Outside) (value : Option ℤ) (e : Engine)
    → is_percent value ≡ true
    → IsSaneEngine e
    → IsSaneEngine (brighten o value e).0
unfolding run_command
brighten-IsSane o none e h r = r
brighten-IsSane o (some n) e h r = ((h, r.0), r.1)

displayed-IsSane :
    (o : Outside) (power : Text) (seconds : ℤ) (x : Engine × Option Text)
    → IsSaneEngine x.0
    → IsSaneEngine (displayed o power seconds x).0
unfolding schedule_display_revert
displayed-IsSane o power seconds (e, some error) r = r
displayed-IsSane o power seconds (e, none) r = (r.0, revert_at-IsSane (o.time e.done) power seconds)

act_as-IsSane :
    (k : KioskConfig) (o : Outside) (a : RuleAction) (t : ActionType) (e : Engine)
    → IsFitting a t
    → IsSaneEngine e
    → IsSaneEngine (act_as k o a t e).0
unfolding act_as run_command
act_as-IsSane k o a show_page e h r = show_index-IsSane o a (enabled_page_index k a.page_id) e h.0 r
act_as-IsSane k o a resume_playlist e h r = resume-IsSane o e r
act_as-IsSane k o a display e h r =
    if-both (λ (x : Engine × Outcome). IsSaneEngine x.0) o.has_hardware
      (displayed-IsSane o _ a.duration_seconds _ (switch_display-IsSane o _ e h.1 r)) r
act_as-IsSane k o a brightness e h r =
    if-both (λ (x : Engine × Outcome). IsSaneEngine x.0) o.has_hardware
      (brighten-IsSane o (atoi (trim_space a.value)) e h.1 r) r
act_as-IsSane k o a overlay e h r =
    run_command-IsSane o (show_overlay a.value a.duration_seconds) e h.0 r
act_as-IsSane k o a other_action e h r = r
act_as-IsSane k o a _ e h r = ((tt, r.0), r.1)

revert_display-IsSane :
    (o : Outside) (e : Engine) → IsSaneEngine e → IsSaneEngine (revert_display o e)
unfolding revert_display
revert_display-IsSane o e r = go e.revert r.1
  where
    go :
        (pending : Option (ℕ × Text))
        → IsSaneRevert pending
        → let ended : Engine = elim pending [
          | none ↦ e
          | some (at, power) ↦ (switch_display o power (record e { revert = none })).0
        ] in
          IsSaneEngine ended
    go none h = r
    go (some (at, power)) h = switch_display-IsSane o power (record e { revert = none }) h (r.0, tt)

-- If the configuration passed the validation of its rules, then whatever the engine is told, and however
-- the browser and the hardware answer, every command of its rules is sane: a display is switched to "ON"
-- or "OFF", also by the timer that switches it back, a brightness is from 1 to 100, and a page or an
-- overlay is shown for 0 to 86400 seconds.
pub handle_all-IsSane :
    (pages : List KioskPage) (rules : List WorkflowRule) (k : KioskConfig) (o : Outside)
    (events : List Event) (e : Engine)
    → validate_rules pages rules ≡ none
    → IsSaneEngine e
    → IsSaneEngine (handle_all k o rules events e)
unfolding act note_run
handle_all-IsSane pages rules k o events e valid r =
    let fits : All (λ rule. All (λ a. IsFitting a a.action) rule.actions) rules =
      All-map _ _ rules
        (λ rule. All-map _ _ rule.actions (λ a. validate_rule_action-KindFits a (page_ids pages)))
        (validate_rules-All pages rules valid).1 in
    handle_all-keeps k o IsSaneEngine (λ a. IsFitting a a.action)
      (λ a s. act_as-IsSane k o a a.action s) (λ run s h. h) (λ last time idle s h. h)
      (revert_display-IsSane o) rules events e fits r
