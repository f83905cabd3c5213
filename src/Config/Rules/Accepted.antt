-- ===== src/Config/Rules/Accepted.antt =====
-- What the validation of workflow rules in internal/config/rules.go ensures.
use kiosk_mate.Common.{
  ◌≡◌, inl, inr, refl, true, false, not, Option, none, some, List, [], ◌∷◌, All, Text, member_text,
  trim_space, to_upper, atoi, arith, Bool-cases,
}
use kiosk_mate.Config.Kiosk.{KioskPage}
use kiosk_mate.Config.Rules.{
  RuleAction, WorkflowRule, validate_rule_action, validate_actions, validate_rule, validate_from,
  validate_rules, ◌or_else◌, page_ids, validate_trigger, validate_conditions, fails, valid_rule_id,
  bad_id, used_twice, bad_cooldown, no_actions, between, is_nil_actions, is_power, ActionType,
  display, brightness, other_action, validate_kind, is_percent,
}

pub or_else-none {ℓ} :
    {A : Type ℓ} (x y : Option A) → (x or_else y) ≡ none → (x ≡ none) × (y ≡ none)
or_else-none none y h = (refl, h)
or_else-none (some e) y h = cc

-- Every action passed its validation against the page ids.
abbrev pub IsAcceptedRule : List Text → WorkflowRule → Type 0
IsAcceptedRule ids rule = All (λ a. validate_rule_action a ids ≡ none) rule.actions

validate_actions-All :
    (ids : List Text) (actions : List RuleAction)
    → validate_actions actions ids ≡ none
    → All (λ a. validate_rule_action a ids ≡ none) actions
unfolding validate_actions
validate_actions-All ids [] h = tt
validate_actions-All ids (a ∷ actions) h =
    let (first, rest) =
      or_else-none (validate_rule_action a ids) (validate_actions actions ids) h in
    (first, validate_actions-All ids actions rest)

-- No two rules have one id, and none has an id of `seen`.
abbrev pub IsFresh : List Text → List WorkflowRule → Type 0
IsFresh seen [] = Unit
IsFresh seen (rule ∷ rules) = (member_text rule.id seen ≡ false) × IsFresh (rule.id ∷ seen) rules

validate_rule-parts :
    (rule : WorkflowRule) (seen ids : List Text)
    → validate_rule rule seen ids ≡ none
    → (member_text rule.id seen ≡ false) × IsAcceptedRule ids rule
unfolding validate_rule
validate_rule-parts rule seen ids h =
    let (bad, h1) = or_else-none (fails (not (valid_rule_id rule.id)) bad_id) _ h in
    let (used, h2) = or_else-none (fails (member_text rule.id seen) used_twice) _ h1 in
    let (kind, h3) = or_else-none (validate_trigger rule.trigger rule.trigger.trigger) _ h2 in
    let (conditions, h4) = or_else-none (validate_conditions rule.conditions ids) _ h3 in
    let (cool, h5) =
      or_else-none (fails (not (between 0 86400 rule.cooldown_seconds)) bad_cooldown) _ h4 in
    let (some_action, h6) = or_else-none (fails (is_nil_actions rule.actions) no_actions) _ h5 in
    (ground arith, validate_actions-All ids rule.actions h6)

validate_from-All :
    (rules : List WorkflowRule) (seen ids : List Text)
    → validate_from rules seen ids ≡ none
    → IsFresh seen rules × All (IsAcceptedRule ids) rules
unfolding validate_from
validate_from-All [] seen ids h = (tt, tt)
validate_from-All (rule ∷ rules) seen ids h =
    let (here, later) =
      or_else-none (validate_rule rule seen ids) (validate_from rules (rule.id ∷ seen) ids) h in
    let (fresh, accepted) = validate_rule-parts rule seen ids here in
    let (others, rest) = validate_from-All rules (rule.id ∷ seen) ids later in
    ((fresh, others), (accepted, rest))

pub validate_rules-All :
    (pages : List KioskPage) (rules : List WorkflowRule)
    → validate_rules pages rules ≡ none
    → IsFresh [] rules × All (IsAcceptedRule (page_ids pages)) rules
unfolding validate_rules
validate_rules-All pages rules h = validate_from-All rules [] (page_ids pages) h

-- What the validation of an action says of its kind.
abbrev pub KindFits : RuleAction → ActionType → Type 0
KindFits a display = is_power (to_upper (trim_space a.value)) ≡ true
KindFits a brightness = is_percent (atoi (trim_space a.value)) ≡ true
KindFits a other_action = ⊥
KindFits a _ = Unit

validate_kind-KindFits :
    (a : RuleAction) (ids : List Text) (t : ActionType)
    → validate_kind a ids t ≡ none
    → KindFits a t
unfolding validate_kind
validate_kind-KindFits a ids display h = ground arith
validate_kind-KindFits a ids brightness h = ground arith
validate_kind-KindFits a ids other_action h = cc
validate_kind-KindFits a ids _ h = tt

pub validate_rule_action-KindFits :
    (a : RuleAction) (ids : List Text)
    → validate_rule_action a ids ≡ none
    → (between 0 86400 a.duration_seconds ≡ true) × KindFits a a.action
unfolding validate_rule_action
validate_rule_action-KindFits a ids h = elim (Bool-cases (between 0 86400 a.duration_seconds)) [
  | inl fits ↦ (fits, validate_kind-KindFits a ids a.action (ground arith))
  | inr long ↦ absurd (ground arith)
]
