-- ===== src/Config/Rules.antt =====
-- Workflow rules and their validation: internal/config/rules.go. A text that the code only compares with
-- fixed words is a data type of these words; an error is a value, without the rule's name that the
-- source puts before it. `len` counts bytes in the source and characters here.
pub mod Accepted
pub mod Fresh
use kiosk_mate.Common.{
  ℕ, Bool, true, false, not, ◌&&◌, ◌||◌, Option, none, some, List, [], ◌∷◌, map, ◌==◌, ltb, leb,
  if◌then◌else◌, length, Text, codes, text_eq, member_text, contains_any, has_prefix, trim_space,
  to_upper, atoi, ℤ, pos, negsuc,
}
use kiosk_mate.Config.Clock.{valid_clock}
use kiosk_mate.Config.Kiosk.{KioskPage}
use kiosk_mate.Config.Pages.{is_empty}

pub data TriggerType : Type 0 where
  on_mqtt on_time on_webhook on_touch on_idle other_trigger : TriggerType

pub record RuleTrigger : Type 0 where
  pub trigger : TriggerType
  pub topic : Text
  pub payload : Text
  pub at : Text
  pub days : List Text
  pub token : Text
  pub idle_seconds : ℤ

pub record RuleConditions : Type 0 where
  pub days : List Text
  pub start : Text
  pub end : Text
  pub active_page_id : Text

pub data ActionType : Type 0 where
  show_page resume_playlist display brightness reload overlay script click scroll sound : ActionType
  other_action : ActionType

pub record RuleAction : Type 0 where
  pub action : ActionType
  pub page_id : Text
  pub duration_seconds : ℤ
  pub until_resume : Bool
  pub value : Text

pub record WorkflowRule : Type 0 where
  pub id : Text
  pub name : Text
  pub disabled : Bool
  pub trigger : RuleTrigger
  pub conditions : RuleConditions
  pub actions : List RuleAction
  pub cooldown_seconds : ℤ

pub data RuleError : Type 0 where
  bad_id used_twice bad_topic bad_time short_token bad_idle bad_trigger : RuleError
  half_window bad_window unknown_page bad_cooldown no_actions : RuleError
  bad_duration bad_page bad_display bad_brightness bad_overlay bad_script bad_click : RuleError
  bad_scroll bad_sound bad_action : RuleError

-- `lowest <= n && n <= highest`, for natural bounds.
abbrev pub between : ℕ → ℕ → ℤ → Bool
between lowest highest (pos n) = leb lowest n && leb n highest
between lowest highest (negsuc n) = false

abbrev pub id_code : ℕ → Bool
id_code c =
    leb b'a' c && leb c b'z'
    || leb b'A' c && leb c b'Z'
    || leb b'0' c && leb c b'9'
    || c == b'-'
    || c == b'_'

all_id_codes : Text → Bool
all_id_codes [] = true
all_id_codes (c ∷ s) = id_code c && all_id_codes s

unfoldable pub valid_rule_id : Text → Bool
unfolding all_id_codes
valid_rule_id id = not (is_empty id || ltb 64 (length id)) && all_id_codes id

-- A text that is not blank, of a length up to `n`.
abbrev pub fits_text : ℕ → Text → Bool
fits_text n value = not (is_empty (trim_space value)) && leb (length value) n

abbrev pub fails {ℓ} : {A : Type ℓ} → Bool → A → Option A
fails test e = if test then some e else none

abbrev pub is_power : Text → Bool
is_power value = text_eq value (codes "ON") || text_eq value (codes "OFF")

abbrev pub is_percent : Option ℤ → Bool
is_percent none = false
is_percent (some n) = between 1 100 n

abbrev pub is_sound : Text → Bool
is_sound value =
    is_empty value || has_prefix (codes "http://") value || has_prefix (codes "https://") value

unfoldable pub validate_kind : RuleAction → List Text → ActionType → Option RuleError
validate_kind a ids show_page = fails (not (member_text a.page_id ids)) bad_page
validate_kind a ids display = fails (not (is_power (to_upper (trim_space a.value)))) bad_display
validate_kind a ids brightness = fails (not (is_percent (atoi (trim_space a.value)))) bad_brightness
validate_kind a ids overlay = fails (not (fits_text 500 a.value)) bad_overlay
validate_kind a ids script = fails (not (fits_text 8000 a.value)) bad_script
validate_kind a ids click = fails (not (fits_text 500 a.value)) bad_click
validate_kind a ids scroll = fails (not (fits_text 500 a.value)) bad_scroll
validate_kind a ids sound = fails (not (is_sound (trim_space a.value))) bad_sound
validate_kind a ids resume_playlist = none
validate_kind a ids reload = none
validate_kind a ids other_action = some bad_action

unfoldable pub validate_rule_action : RuleAction → List Text → Option RuleError
unfolding validate_kind
validate_rule_action a ids =
    if not (between 0 86400 a.duration_seconds)
    then some bad_duration
    else validate_kind a ids a.action

-- The first error of the two.
infixr 30 ◌or_else◌
abbrev pub ◌or_else◌ {ℓ} : {A : Type ℓ} → Option A → Option A → Option A
none or_else f = f
some e or_else f = some e

unfoldable pub validate_actions : List RuleAction → List Text → Option RuleError
validate_actions [] ids = none
validate_actions (a ∷ actions) ids = validate_rule_action a ids or_else validate_actions actions ids

unfoldable pub validate_trigger : RuleTrigger → TriggerType → Option RuleError
validate_trigger t on_mqtt =
    fails (is_empty (trim_space t.topic) || contains_any (codes "+#") t.topic) bad_topic
validate_trigger t on_time = fails (not (valid_clock t.at)) bad_time
validate_trigger t on_webhook = fails (ltb (length (trim_space t.token)) 16) short_token
validate_trigger t on_touch = none
validate_trigger t on_idle = fails (not (between 10 86400 t.idle_seconds)) bad_idle
validate_trigger t other_trigger = some bad_trigger

unfoldable pub validate_conditions : RuleConditions → List Text → Option RuleError
validate_conditions c ids =
    if is_empty c.start
    then (if is_empty c.end
        then fails (not (is_empty c.active_page_id) && not (member_text c.active_page_id ids))
            unknown_page
        else some half_window)
    else if is_empty c.end
    then some half_window
    else if not (valid_clock c.start) || not (valid_clock c.end)
    then some bad_window
    else fails (not (is_empty c.active_page_id) && not (member_text c.active_page_id ids))
        unknown_page

abbrev pub is_nil_actions : List RuleAction → Bool
is_nil_actions [] = true
is_nil_actions (a ∷ actions) = false

unfoldable pub validate_rule : WorkflowRule → List Text → List Text → Option RuleError
unfolding validate_trigger validate_conditions validate_actions
validate_rule rule seen ids =
    fails (not (valid_rule_id rule.id)) bad_id
    or_else (fails (member_text rule.id seen) used_twice
        or_else (validate_trigger rule.trigger rule.trigger.trigger
            or_else (validate_conditions rule.conditions ids
                or_else (fails (not (between 0 86400 rule.cooldown_seconds)) bad_cooldown
                    or_else (fails (is_nil_actions rule.actions) no_actions
                        or_else validate_actions rule.actions ids)))))

-- `seen` holds the ids of the rules before.
unfoldable pub validate_from : List WorkflowRule → List Text → List Text → Option RuleError
validate_from [] seen ids = none
validate_from (rule ∷ rules) seen ids =
    validate_rule rule seen ids or_else validate_from rules (rule.id ∷ seen) ids

abbrev pub page_ids : List KioskPage → List Text
page_ids pages = map (λ page. page.page_id) pages

unfoldable pub validate_rules : List KioskPage → List WorkflowRule → Option RuleError
unfolding validate_from
validate_rules pages rules = validate_from rules [] (page_ids pages)
