-- ===== src/Workflow/Firing.antt =====
-- What fires a rule: `fire`, `checkTime`, `checkIdle`, `HandleActivity`, `Topics`, `HandleMQTT`,
-- `HandleWebhook` and `Test` of internal/workflow/engine.go. One event is dealt with at a time,
-- and all its rules are asked for the event's time, where the source reads its clock for each.
use kiosk_mate.Common.{
  ℕ, ◌+◌, ◌*◌, Bool, true, false, not, ◌&&◌, ◌||◌, none, some, List, [], ◌∷◌, ◌++◌, ◌==◌, ltb, leb,
  if◌then◌else◌, Text, text_eq, member_text, equal_fold, trim_space, codes, ℤ, pos, negsuc,
}
use kiosk_mate.Supervisor.Window.{second}
use kiosk_mate.Config.Clock.{weekday_matches}
use kiosk_mate.Config.Kiosk.{KioskConfig}
use kiosk_mate.Config.Pages.{is_empty}
use kiosk_mate.Config.Rules.{WorkflowRule, on_mqtt, on_time, on_webhook, on_touch, on_idle}
use kiosk_mate.Workflow.{
  Outside, Engine, Local, Source, from_time, from_idle, from_touch, from_mqtt, from_webhook,
  from_test, Run, skipped_run, Skip, ActionError, put, note_run,
}
use kiosk_mate.Workflow.Conditions.{blocked}
use kiosk_mate.Workflow.Actions.{execute, revert_display}

abbrev pub Failures : Type 0
Failures = List (ℕ × ActionError)

abbrev pub skipped_of : WorkflowRule → Source → ℕ → Skip → Run
skipped_of rule source at reason = record {
  rule_id = rule.id;
  rule = rule.name;
  source = source;
  at = at;
  result = skipped_run;
  failures = [];
  skipped = some reason;
}

unfoldable pub fire :
    KioskConfig → Outside → WorkflowRule → Source → Local → Engine → Engine × Failures
fire k o rule source now e = elim (blocked k o rule now e) [
  | some reason ↦ (note_run (skipped_of rule source now.instant reason) e, [])
  | none ↦ execute k o rule source (record e { last_fired = put rule.id now.instant e.last_fired })
]

-- The minute that a time rule fired for.
abbrev pub stamp : Local → Text
stamp now = now.day ++ codes " " ++ now.clock

abbrev pub is_time_rule : Local → WorkflowRule → Bool
is_time_rule now rule =
    not rule.disabled
    && elim rule.trigger.trigger [ on_time ↦ true | _ ↦ false ]
    && text_eq rule.trigger.at now.clock
    && weekday_matches rule.trigger.days now.weekday

unfoldable pub check_time_rule : KioskConfig → Outside → Local → WorkflowRule → Engine → Engine
check_time_rule k o now rule e =
    if not (is_time_rule now rule)
    then e
    else if text_eq (e.time_fired rule.id) (stamp now)
    then e
    else (fire k o rule from_time now
        (record e { time_fired = put rule.id (stamp now) e.time_fired })).0

unfoldable pub check_time : KioskConfig → Outside → Local → List WorkflowRule → Engine → Engine
check_time k o now [] e = e
check_time k o now (rule ∷ rules) e = check_time k o now rules (check_time_rule k o now rule e)

-- The last input, or the engine's start if that is later.
abbrev pub last_input : Outside → Engine → ℕ
last_input o e =
    let last = o.last_activity e.done in if last == 0 || ltb last e.started then e.started else last

-- `idle >= seconds`, for an idle time since `last`.
abbrev pub idle_for : ℤ → ℕ → ℕ → Bool
idle_for (pos seconds) last now = leb (last + seconds * second) now
idle_for (negsuc n) last now = leb last (now + (n + 1) * second)

abbrev pub is_idle_rule : ℕ → ℕ → WorkflowRule → Bool
is_idle_rule last now rule =
    not rule.disabled
    && elim rule.trigger.trigger [ on_idle ↦ true | _ ↦ false ]
    && idle_for rule.trigger.idle_seconds last now

unfoldable pub check_idle_rule : KioskConfig → Outside → Local → ℕ → WorkflowRule → Engine → Engine
check_idle_rule k o now last rule e =
    let marked : Engine = record e { idle_fired = put rule.id true e.idle_fired } in
    if not (is_idle_rule last now.instant rule)
    then e
    else if e.idle_fired rule.id
    then marked
    else (fire k o rule from_idle now marked).0

unfoldable pub check_idle_from :
    KioskConfig → Outside → Local → ℕ → List WorkflowRule → Engine → Engine
check_idle_from k o now last [] e = e
check_idle_from k o now last (rule ∷ rules) e =
    check_idle_from k o now last rules (check_idle_rule k o now last rule e)

unfoldable pub check_idle : KioskConfig → Outside → Local → List WorkflowRule → Engine → Engine
check_idle k o now rules e = check_idle_from k o now (last_input o e) rules e

abbrev pub is_touch_rule : WorkflowRule → Bool
is_touch_rule rule = not rule.disabled && elim rule.trigger.trigger [ on_touch ↦ true | _ ↦ false ]

unfoldable pub fire_touch : KioskConfig → Outside → Local → List WorkflowRule → Engine → Engine
fire_touch k o now [] e = e
fire_touch k o now (rule ∷ rules) e =
    fire_touch k o now rules (if is_touch_rule rule then (fire k o rule from_touch now e).0 else e)

unfoldable pub handle_activity : KioskConfig → Outside → Local → List WorkflowRule → Engine → Engine
handle_activity k o now rules e = fire_touch k o now rules (record e { idle_fired = λ id. false })

abbrev pub is_mqtt_rule : WorkflowRule → Bool
is_mqtt_rule rule = not rule.disabled && elim rule.trigger.trigger [ on_mqtt ↦ true | _ ↦ false ]

unfoldable pub topics_from : List WorkflowRule → List Text → List Text
topics_from [] seen = []
topics_from (rule ∷ rules) seen =
    let topic = trim_space rule.trigger.topic in
    let later = topics_from rules seen in
    let first = topic ∷ topics_from rules (topic ∷ seen) in
    if not (is_mqtt_rule rule) || is_empty topic || member_text topic seen then later else first

unfoldable pub topics : List WorkflowRule → List Text
unfolding topics_from
topics rules = topics_from rules []

abbrev pub listens : Text → WorkflowRule → Bool
listens topic rule = is_mqtt_rule rule && text_eq (trim_space rule.trigger.topic) topic

abbrev pub expects : Text → WorkflowRule → Bool
expects payload rule =
    let expected = trim_space rule.trigger.payload in
    is_empty expected || equal_fold expected (trim_space payload)

-- The loop, with `listened`.
unfoldable pub handle_mqtt_from :
    KioskConfig → Outside → Local → Text → Text → List WorkflowRule → Bool → Engine → Engine × Bool
handle_mqtt_from k o now topic payload [] listened e = (e, listened)
handle_mqtt_from k o now topic payload (rule ∷ rules) listened e =
    let e' =
      if listens topic rule && expects payload rule then (fire k o rule from_mqtt now e).0 else e in
    handle_mqtt_from k o now topic payload rules (listened || listens topic rule) e'

unfoldable pub handle_mqtt :
    KioskConfig → Outside → Local → Text → Text → List WorkflowRule → Engine → Engine × Bool
handle_mqtt k o now topic payload rules e = handle_mqtt_from k o now topic payload rules false e

pub data Called : Type 0 where
  unknown_rule : Called
  called : Failures → Called

abbrev pub calls : Engine × Failures → Engine × Called
calls (e, failures) = (e, called failures)

abbrev pub is_webhook_rule : Text → WorkflowRule → Bool
is_webhook_rule id rule =
    text_eq rule.id id
    && elim rule.trigger.trigger [ on_webhook ↦ true | _ ↦ false ]
    && not rule.disabled

-- The first enabled webhook rule with the id decides; `ConstantTimeCompare` is equality.
unfoldable pub handle_webhook :
    KioskConfig → Outside → Local → Text → Text → List WorkflowRule → Engine → Engine × Called
handle_webhook k o now id token [] e = (e, unknown_rule)
handle_webhook k o now id token (rule ∷ rules) e =
    let expected = trim_space rule.trigger.token in
    let later = handle_webhook k o now id token rules e in
    if not (is_webhook_rule id rule)
    then later
    else if is_empty expected || not (text_eq expected token)
    then (e, unknown_rule)
    else calls (fire k o rule from_webhook now e)

unfoldable pub test_rule :
    KioskConfig → Outside → Text → List WorkflowRule → Engine → Engine × Called
test_rule k o id [] e = (e, unknown_rule)
test_rule k o id (rule ∷ rules) e =
    let later = test_rule k o id rules e in
    if text_eq rule.id id then calls (execute k o rule from_test e) else later

-- What the engine is told: a tick of its timer, input on the page, a message, a call, a test of a rule,
-- and the end of the display timer.
pub data Event : Type 0 where
  ticked touched : Local → Event
  received : Local → Text → Text → Event
  posted : Local → Text → Text → Event
  tested : Text → Event
  timer_ended : Event

unfoldable pub handle : KioskConfig → Outside → List WorkflowRule → Event → Engine → Engine
handle k o rules (ticked now) e = check_idle k o now rules (check_time k o now rules e)
handle k o rules (touched now) e = handle_activity k o now rules e
handle k o rules (received now topic payload) e = (handle_mqtt k o now topic payload rules e).0
handle k o rules (posted now id token) e = (handle_webhook k o now id token rules e).0
handle k o rules (tested id) e = (test_rule k o id rules e).0
handle k o rules timer_ended e = revert_display o e

unfoldable pub handle_all : KioskConfig → Outside → List WorkflowRule → List Event → Engine → Engine
handle_all k o rules [] e = e
handle_all k o rules (event ∷ events) e = handle_all k o rules events (handle k o rules event e)
