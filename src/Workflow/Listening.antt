-- ===== src/Workflow/Listening.antt =====
-- Which events reach a rule: `Topics`, `HandleMQTT` and `HandleWebhook` of internal/workflow/engine.go.
use kiosk_mate.Common.{
  ℕ, zero, suc, some, get_elem?, ◌≡◌, ◌≢◌, ◌⊎◌, inl, inr, refl, sym, subst, ap, ◌∙◌, Bool, true,
  false, not, ◌&&◌, ◌||◌, List, [], ◌∷◌, if◌then◌else◌, Text, text_eq, text_eq→eq, member_text,
  trim_space, arith,
}
use kiosk_mate.Config.Kiosk.{KioskConfig}
use kiosk_mate.Config.Pages.{is_empty}
use kiosk_mate.Config.Rules.{WorkflowRule}
use kiosk_mate.Workflow.{Outside, Engine, Local, from_webhook}
use kiosk_mate.Workflow.Firing.{
  fire, topics, topics_from, is_mqtt_rule, listens, handle_mqtt, handle_mqtt_from, handle_webhook,
  Called, unknown_rule, calls, is_webhook_rule,
}

-- Whether a rule of the list listens to a topic.
any_listens : Text → List WorkflowRule → Bool
any_listens topic [] = false
any_listens topic (rule ∷ rules) = listens topic rule || any_listens topic rules

handle_mqtt_from-any_listens :
    (k : KioskConfig) (o : Outside) (now : Local) (topic payload : Text) (rules : List WorkflowRule)
    (listened : Bool) (e : Engine)
    → (handle_mqtt_from k o now topic payload rules listened e).1
      ≡ (listened || any_listens topic rules)
unfolding handle_mqtt_from any_listens
handle_mqtt_from-any_listens k o now topic payload [] listened e = ground arith
handle_mqtt_from-any_listens k o now topic payload (rule ∷ rules) listened e =
    handle_mqtt_from-any_listens k o now topic payload rules _ _
    ∙ or_assoc listened (listens topic rule) _
  where
    or_assoc : (a b c : Bool) → ((a || b) || c) ≡ (a || (b || c))
    or_assoc a b c = ground arith

-- One step of the loop, for the tests of a rule with the topic `t`.
module _ (topic t : Text) (seen later first : List Text) (listening : Bool) where
  Agrees : List Text → Bool → Type 0
  Agrees result own =
      (member_text topic result || member_text topic seen)
      ≡ ((own || listening) || member_text topic seen)

  topics_from-step :
      (mqtt blank known : Bool)
      → (blank ≡ true → text_eq t topic ≡ false)
      → (text_eq t topic ≡ true → member_text topic seen ≡ known)
      → (member_text topic later || member_text topic seen) ≡ (listening || member_text topic seen)
      → (member_text topic first || (text_eq t topic || member_text topic seen))
        ≡ (listening || (text_eq t topic || member_text topic seen))
      → Agrees (if not mqtt || blank || known then later else (t ∷ first)) (mqtt && text_eq t topic)
  unfolding Agrees
  topics_from-step false blank known b s h g = ground (arith, h)
  topics_from-step true true known b s h g = ground (arith, h, b refl)
  topics_from-step true false true b s h g = ground arith
  topics_from-step true false false b s h g = ground arith

is_empty-unlike : (t topic : Text) → topic ≢ [] → is_empty t ≡ true → text_eq t topic ≡ false
unfolding text_eq
is_empty-unlike [] [] h e = absurd (h refl)
is_empty-unlike [] (c ∷ topic) h e = refl
is_empty-unlike (c ∷ t) topic h e = cc

topics_from-any_listens :
    (topic : Text) (rules : List WorkflowRule) (seen : List Text)
    → topic ≢ []
    → (member_text topic (topics_from rules seen) || member_text topic seen)
      ≡ (any_listens topic rules || member_text topic seen)
unfolding topics_from any_listens Agrees
topics_from-any_listens topic [] seen h = refl
topics_from-any_listens topic (rule ∷ rules) seen h =
    let t = trim_space rule.trigger.topic in
    topics_from-step topic t seen _ _ (any_listens topic rules) (is_mqtt_rule rule) (is_empty t)
      (member_text t seen) (is_empty-unlike t topic h)
      (λ same. ap (λ x. member_text x seen) (sym (text_eq→eq t topic same)))
      (topics_from-any_listens topic rules seen h)
      (topics_from-any_listens topic rules (t ∷ seen) h)

-- A message on a topic that is not empty is said to be listened to exactly if its topic is one of the
-- subscribed topics, whatever its payload is and whatever the rules did.
pub handle_mqtt-topics :
    (k : KioskConfig) (o : Outside) (now : Local) (topic payload : Text) (rules : List WorkflowRule)
    (e : Engine)
    → topic ≢ []
    → (handle_mqtt k o now topic payload rules e).1 ≡ member_text topic (topics rules)
unfolding handle_mqtt topics
handle_mqtt-topics k o now topic payload rules e h =
    handle_mqtt_from-any_listens k o now topic payload rules false e
    ∙ sym (
        or_false _
        ∙ topics_from-any_listens topic rules [] h
        ∙ sym (or_false (any_listens topic rules)))
  where
    or_false : (b : Bool) → b ≡ (b || false)
    or_false b = ground arith

-- An enabled webhook rule with this id, whose token is the one given and not empty.
abbrev pub TakesCall : Text → Text → WorkflowRule → Type 0
TakesCall id token rule =
    (is_webhook_rule id rule ≡ true) × (trim_space rule.trigger.token ≡ token) × (token ≢ [])

is_empty-not : (t : Text) → is_empty t ≡ false → t ≢ []
is_empty-not [] h e = cc
is_empty-not (c ∷ t) h e = cc

-- The rule at a position takes the call, which fires it.
abbrev pub CallFires :
    KioskConfig → Outside → Local → Text → Text → List WorkflowRule → Engine → Type 0
CallFires k o now id token rules e =
    (i : ℕ) × (rule : WorkflowRule) × (get_elem? rules i ≡ some rule)
    × TakesCall id token rule
    × (handle_webhook k o now id token rules e ≡ calls (fire k o rule from_webhook now e))

-- A webhook call is refused and changes nothing, or an enabled webhook rule of its id has the token of the
-- call, which is not empty, and the call fires that rule.
pub handle_webhook-CallFires :
    (k : KioskConfig) (o : Outside) (now : Local) (id token : Text) (rules : List WorkflowRule)
    (e : Engine)
    → (handle_webhook k o now id token rules e ≡ (e, unknown_rule))
      ⊎ CallFires k o now id token rules e
unfolding handle_webhook
handle_webhook-CallFires k o now id token [] e = inl refl
handle_webhook-CallFires k o now id token (rule ∷ rules) e =
    go (is_webhook_rule id rule) (is_empty expected) (text_eq expected token) refl refl refl
      (handle_webhook-CallFires k o now id token rules e)
  where
    expected : Text
    expected = trim_space rule.trigger.token

    later : Engine × Called
    later = handle_webhook k o now id token rules e

    fired : Engine × Called
    fired = calls (fire k o rule from_webhook now e)

    Answer : Engine × Called → Type 0
    Answer x =
        (x ≡ (e, unknown_rule))
        ⊎ ((i : ℕ) × (r : WorkflowRule) × (get_elem? (rule ∷ rules) i ≡ some r)
            × TakesCall id token r
            × (x ≡ calls (fire k o r from_webhook now e)))

    go :
        (webhook blank same : Bool)
        → is_webhook_rule id rule ≡ webhook
        → is_empty expected ≡ blank
        → text_eq expected token ≡ same
        → (later ≡ (e, unknown_rule)) ⊎ CallFires k o now id token rules e
        → Answer
            (if not webhook then later else if blank || not same then (e, unknown_rule) else fired)
    go false _ _ w b s (inl h) = inl h
    go false _ _ w b s (inr (i, r, at, takes, h)) = inr (suc i, r, at, takes, h)
    go true true _ w b s h = inl refl
    go true false false w b s h = inl refl
    go true false true w b s h =
        let equal : expected ≡ token = text_eq→eq expected token s in
        inr
          (zero, rule, refl, (w, equal, subst (λ t. t ≢ []) equal (is_empty-not expected b)), refl)
