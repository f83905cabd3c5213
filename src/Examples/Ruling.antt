-- ===== src/Examples/Ruling.antt =====
-- Workflow rules of one configuration: a display rule at seven, and a page on a doorbell's message and call.
use kiosk_mate.Common.{
  ◌≡◌, ◌⊎◌, refl, true, false, none, List, [], ◌∷◌, codes, pos, text_eq, member_text, contains_any,
  trim_space, to_upper, atoi, split, arith,
}
use kiosk_mate.Config.Clock.{monday, valid_clock}
use kiosk_mate.Config.Rules.{
  WorkflowRule, RuleTrigger, RuleConditions, RuleAction, on_time, on_mqtt, on_webhook, display,
  show_page, validate_rules, validate_from, validate_rule, validate_trigger, validate_conditions,
  validate_actions, validate_rule_action, validate_kind, valid_rule_id,
}
use kiosk_mate.Workflow.{Outside, Engine, Local, no_override}
use kiosk_mate.Workflow.Firing.{
  Event, ticked, received, timer_ended, handle, handle_all, check_time, handle_mqtt, handle_webhook,
  topics, unknown_rule,
}
use kiosk_mate.Workflow.Overrides.{Respects, handle_all-Respects}
use kiosk_mate.Workflow.Sane.{IsSaneEngine, handle_all-IsSane}
use kiosk_mate.Workflow.Cooldown.{IsSpaced, handle-cooldown}
use kiosk_mate.Workflow.Once.{check_time-once}
use kiosk_mate.Workflow.Listening.{handle_mqtt-topics, CallFires, handle_webhook-CallFires}
use kiosk_mate.Examples.Clocks.{home}

abbrev always : RuleConditions
always = record { days = []; start = []; end = []; active_page_id = [] }

abbrev at_seven : RuleTrigger
at_seven = record {
  trigger = on_time;
  topic = [];
  payload = [];
  at = codes "07:00";
  days = [];
  token = [];
  idle_seconds = pos 0;
}

abbrev display_off : RuleAction
display_off = record {
  action = display;
  page_id = [];
  duration_seconds = pos 60;
  until_resume = false;
  value = codes "off";
}

abbrev show_second : RuleAction
show_second = record {
  action = show_page;
  page_id = codes "b";
  duration_seconds = pos 30;
  until_resume = false;
  value = [];
}

abbrev morning : WorkflowRule
morning = record {
  id = codes "morning";
  name = [];
  disabled = false;
  trigger = at_seven;
  conditions = always;
  actions = display_off ∷ [];
  cooldown_seconds = pos 0;
}

abbrev doorbell : WorkflowRule
doorbell = record morning {
  id = codes "bell";
  trigger = record at_seven { trigger = on_mqtt; topic = codes "door/bell" };
  actions = show_second ∷ [];
  cooldown_seconds = pos 60;
}

abbrev call_in : WorkflowRule
call_in = record doorbell {
  id = codes "call";
  trigger = record at_seven { trigger = on_webhook; token = codes "0123456789abcdef" };
}

abbrev rules : List WorkflowRule
rules = morning ∷ doorbell ∷ call_in ∷ []

rules_valid : validate_rules home.pages rules ≡ none
unfolding validate_rules validate_from validate_rule validate_trigger validate_conditions
    validate_actions validate_rule_action validate_kind valid_rule_id contains_any valid_clock split
    trim_space atoi to_upper text_eq
rules_valid = refl

abbrev outside : Outside
outside = record {
  time = λ done. 5;
  override_source = λ done. no_override;
  active_page = λ done. pos 0;
  last_activity = λ done. 0;
  fails = λ done c. none;
  has_hardware = true;
}

abbrev engine : Engine
engine = record {
  last_fired = λ id. 0;
  time_fired = λ id. [];
  idle_fired = λ id. false;
  history = [];
  started = 1;
  revert = none;
  done = [];
}

abbrev seven : Local
seven = record {
  instant = 1_000;
  minute_of_day = 420;
  weekday = monday;
  day = codes "2026-10-26";
  clock = codes "07:00";
}

abbrev events : List Event
events = ticked seven ∷ received seven (codes "door/bell") (codes "ring") ∷ timer_ended ∷ []

handle_all-Respects_example :
    Respects home outside (handle_all home outside rules events engine).done
handle_all-Respects_example = handle_all-Respects home outside rules events engine tt

handle_all-IsSane_example : IsSaneEngine (handle_all home outside rules events engine)
handle_all-IsSane_example =
    handle_all-IsSane home.pages rules home outside events engine rules_valid (tt, tt)

handle-cooldown_example :
    IsSpaced
      (codes "bell")
      60
      1_000
      engine
      (handle home outside rules (received seven (codes "door/bell") (codes "ring")) engine)
handle-cooldown_example =
    handle-cooldown home.pages rules 1 60 doorbell home outside
      (received seven (codes "door/bell") (codes "ring")) engine rules_valid refl refl (omega arith)

check_time-once_example :
    check_time home outside
      (record seven { instant = 2_000 })
      rules
      (check_time home outside seven rules engine)
    ≡ check_time home outside seven rules engine
check_time-once_example = check_time-once home outside seven 2_000 rules engine

handle_mqtt-topics_example :
    (handle_mqtt home outside seven (codes "door/bell") [] rules engine).1
    ≡ member_text (codes "door/bell") (topics rules)
handle_mqtt-topics_example =
    handle_mqtt-topics home outside seven (codes "door/bell") [] rules engine (λ e. cc)

handle_webhook-CallFires_example :
    (handle_webhook home outside seven (codes "call") (codes "0123456789abcdef") rules engine
      ≡ (engine, unknown_rule))
    ⊎ CallFires home outside seven (codes "call") (codes "0123456789abcdef") rules engine
handle_webhook-CallFires_example =
    handle_webhook-CallFires home outside seven (codes "call") (codes "0123456789abcdef") rules
      engine
