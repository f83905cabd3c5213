-- ===== src/Workflow/Keeps.antt =====
-- What every action, every note of a run and every mark of a firing keeps, the engine keeps, whatever it
-- is told: internal/workflow/engine.go.
use kiosk_mate.Common.{
  ℕ, ◌+◌, Bool, true, false, not, ◌&&◌, ◌||◌, Option, none, some, List, [], ◌∷◌, All, if-both, Text,
  text_eq, trim_space,
}
use kiosk_mate.Config.Kiosk.{KioskConfig}
use kiosk_mate.Config.Pages.{is_empty}
use kiosk_mate.Config.Rules.{RuleAction, WorkflowRule}
use kiosk_mate.Workflow.{
  Outside, Engine, Local, Source, Skip, note_run, Run, from_time, from_idle, from_touch, from_mqtt,
  from_webhook, from_test, put,
}
use kiosk_mate.Workflow.Conditions.{blocked}
use kiosk_mate.Workflow.Actions.{act, run_actions, execute, Tally, revert_display}
use kiosk_mate.Workflow.Firing.{
  fire, check_time, check_time_rule, check_idle, check_idle_from, check_idle_rule, fire_touch,
  handle_activity, handle_mqtt, handle_mqtt_from, handle_webhook, test_rule, Event, ticked, touched,
  received, posted, tested, timer_ended, handle, handle_all, Called, is_webhook_rule, Failures,
  skipped_of, is_touch_rule, listens, expects, is_time_rule, is_idle_rule, stamp,
}

-- What the actions of a rule keep.
module _ (k : KioskConfig) (o : Outside) (P : Engine → Type 0) (Fits : RuleAction → Type 0)
    (acts : (a : RuleAction) (e : Engine) → Fits a → P e → P (act k o a e).0) where
  pub run_actions-keeps :
      (index : ℕ) (actions : List RuleAction) (e : Engine) (tally : Tally)
      → All Fits actions
      → P e
      → P (run_actions k o index actions e tally).0
  unfolding run_actions
  run_actions-keeps index [] e tally f r = r
  run_actions-keeps index (a ∷ actions) e tally (f, fs) r =
      run_actions-keeps (index + 1) actions _ _ fs (acts a e f r)

-- What one run of a rule keeps.
module _ (k : KioskConfig) (o : Outside) (P : Engine → Type 0) (Fits : RuleAction → Type 0)
    (acts : (a : RuleAction) (e : Engine) → Fits a → P e → P (act k o a e).0)
    (notes : (run : Run) (e : Engine) → P e → P (note_run run e)) where
  pub execute-keeps :
      (rule : WorkflowRule) (source : Source) (e : Engine)
      → All Fits rule.actions
      → P e
      → P (execute k o rule source e).0
  unfolding execute
  execute-keeps rule source e f r =
      notes _ _ (run_actions-keeps k o P Fits acts 1 rule.actions e (none, []) f r)

  pub fire-keeps :
      (lasts : (last : Text → ℕ) (e : Engine) → P e → P (record e { last_fired = last }))
      (rule : WorkflowRule) (source : Source) (now : Local) (e : Engine)
      → All Fits rule.actions
      → P e
      → P (fire k o rule source now e).0
  unfolding fire
  fire-keeps lasts rule source now e f r = go (blocked k o rule now e)
    where
      go :
          (reason : Option Skip)
          → let fired : Engine × Failures = elim reason [
            | some why ↦ (note_run (skipped_of rule source now.instant why) e, [])
            | none ↦
                execute k o rule source
                  (record e { last_fired = put rule.id now.instant e.last_fired })
          ] in
            P fired.0
      go (some why) = notes _ e r
      go none = execute-keeps rule source _ f (lasts _ e r)

-- What the rules' firings and the marks of one moment keep.
module _ (k : KioskConfig) (o : Outside) (now : Local) (P : Engine → Type 0)
    (Fits : WorkflowRule → Type 0)
    (fires : (rule : WorkflowRule) (source : Source) (e : Engine)
      → Fits rule
      → P e
      → P (fire k o rule source now e).0)
    (marks : (time : Text → Text) (idle : Text → Bool) (e : Engine)
      → P e
      → P (record e { time_fired = time; idle_fired = idle })) where
  pub check_time-keeps :
      (rules : List WorkflowRule) (e : Engine)
      → All Fits rules
      → P e
      → P (check_time k o now rules e)
  unfolding check_time check_time_rule
  check_time-keeps [] e f r = r
  check_time-keeps (rule ∷ rules) e (f, fs) r =
      let marked : Engine = record e { time_fired = put rule.id (stamp now) e.time_fired } in
      let fired = fires rule from_time marked f (marks _ e.idle_fired e r) in
      check_time-keeps rules _ fs (
        if-both P (not (is_time_rule now rule)) r
          (if-both P (text_eq (e.time_fired rule.id) (stamp now)) r fired))

  pub check_idle_from-keeps :
      (last : ℕ) (rules : List WorkflowRule) (e : Engine)
      → All Fits rules
      → P e
      → P (check_idle_from k o now last rules e)
  unfolding check_idle_from check_idle_rule
  check_idle_from-keeps last [] e f r = r
  check_idle_from-keeps last (rule ∷ rules) e (f, fs) r =
      let marked : Engine = record e { idle_fired = put rule.id true e.idle_fired } in
      let kept = marks e.time_fired marked.idle_fired e r in
      check_idle_from-keeps last rules _ fs (
        if-both P (not (is_idle_rule last now.instant rule)) r
          (if-both P (e.idle_fired rule.id) kept (fires rule from_idle marked f kept)))

  pub fire_touch-keeps :
      (rules : List WorkflowRule) (e : Engine)
      → All Fits rules
      → P e
      → P (fire_touch k o now rules e)
  unfolding fire_touch
  fire_touch-keeps [] e f r = r
  fire_touch-keeps (rule ∷ rules) e (f, fs) r =
      fire_touch-keeps rules _ fs (if-both P (is_touch_rule rule) (fires rule from_touch e f r) r)

  pub handle_mqtt_from-keeps :
      (topic payload : Text) (rules : List WorkflowRule) (listened : Bool) (e : Engine)
      → All Fits rules
      → P e
      → P (handle_mqtt_from k o now topic payload rules listened e).0
  unfolding handle_mqtt_from
  handle_mqtt_from-keeps topic payload [] listened e f r = r
  handle_mqtt_from-keeps topic payload (rule ∷ rules) listened e (f, fs) r =
      handle_mqtt_from-keeps topic payload rules _ _ fs
        (if-both P (listens topic rule && expects payload rule) (fires rule from_mqtt e f r) r)

  pub handle_webhook-keeps :
      (id token : Text) (rules : List WorkflowRule) (e : Engine)
      → All Fits rules
      → P e
      → P (handle_webhook k o now id token rules e).0
  unfolding handle_webhook
  handle_webhook-keeps id token [] e f r = r
  handle_webhook-keeps id token (rule ∷ rules) e (f, fs) r =
      let expected = trim_space rule.trigger.token in
      if-both (λ (x : Engine × Called). P x.0) (not (is_webhook_rule id rule))
        (handle_webhook-keeps id token rules e fs r)
        (if-both (λ (x : Engine × Called). P x.0)
          (is_empty expected || not (text_eq expected token)) r (fires rule from_webhook e f r))

  pub check-keeps :
      (rules : List WorkflowRule) (e : Engine)
      → All Fits rules
      → P e
      → P (check_idle k o now rules (check_time k o now rules e))
  unfolding check_idle
  check-keeps rules e f r = check_idle_from-keeps _ rules _ f (check_time-keeps rules e f r)

  pub handle_activity-keeps :
      (rules : List WorkflowRule) (e : Engine)
      → All Fits rules
      → P e
      → P (handle_activity k o now rules e)
  unfolding handle_activity
  handle_activity-keeps rules e f r =
      fire_touch-keeps rules _ f (marks e.time_fired (λ id. false) e r)

module _ (k : KioskConfig) (o : Outside) (P : Engine → Type 0) (Fits : RuleAction → Type 0)
    (acts : (a : RuleAction) (e : Engine) → Fits a → P e → P (act k o a e).0)
    (notes : (run : Run) (e : Engine) → P e → P (note_run run e))
    (marks : (last : Text → ℕ) (time : Text → Text) (idle : Text → Bool) (e : Engine)
      → P e
      → P (record e { last_fired = last; time_fired = time; idle_fired = idle }))
    (reverts : (e : Engine) → P e → P (revert_display o e)) where
  abbrev FitsRule : WorkflowRule → Type 0
  FitsRule rule = All Fits rule.actions

  fires :
      (now : Local) (rule : WorkflowRule) (source : Source) (e : Engine)
      → FitsRule rule
      → P e
      → P (fire k o rule source now e).0
  fires now rule source e f r =
      fire-keeps k o P Fits acts notes (λ last s. marks last s.time_fired s.idle_fired s) rule
        source now e f r

  marked :
      (time : Text → Text) (idle : Text → Bool) (e : Engine)
      → P e
      → P (record e { time_fired = time; idle_fired = idle })
  marked time idle e r = marks e.last_fired time idle e r

  test_rule-keeps :
      (id : Text) (rules : List WorkflowRule) (e : Engine)
      → All FitsRule rules
      → P e
      → P (test_rule k o id rules e).0
  unfolding test_rule
  test_rule-keeps id [] e f r = r
  test_rule-keeps id (rule ∷ rules) e (f, fs) r =
      if-both (λ (x : Engine × Called). P x.0) (text_eq rule.id id)
        (execute-keeps k o P Fits acts notes rule from_test e f r) (test_rule-keeps id rules e fs r)

  handle-keeps :
      (rules : List WorkflowRule) (event : Event) (e : Engine)
      → All FitsRule rules
      → P e
      → P (handle k o rules event e)
  unfolding handle handle_mqtt
  handle-keeps rules (ticked now) e f r =
      check-keeps k o now P FitsRule (fires now) marked rules e f r
  handle-keeps rules (touched now) e f r =
      handle_activity-keeps k o now P FitsRule (fires now) marked rules e f r
  handle-keeps rules (received now topic payload) e f r =
      handle_mqtt_from-keeps k o now P FitsRule (fires now) marked topic payload rules false e f r
  handle-keeps rules (posted now id token) e f r =
      handle_webhook-keeps k o now P FitsRule (fires now) marked id token rules e f r
  handle-keeps rules (tested id) e f r = test_rule-keeps id rules e f r
  handle-keeps rules timer_ended e f r = reverts e r

  pub handle_all-keeps :
      (rules : List WorkflowRule) (events : List Event) (e : Engine)
      → All FitsRule rules
      → P e
      → P (handle_all k o rules events e)
  unfolding handle_all
  handle_all-keeps rules [] e f r = r
  handle_all-keeps rules (event ∷ events) e f r =
      handle_all-keeps rules events _ f (handle-keeps rules event e f r)
