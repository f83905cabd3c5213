-- ===== src/Workflow/Cooldown.antt =====
-- A rule's cooldown between two firings: `fire` and `blocked` of internal/workflow/engine.go.
use kiosk_mate.Common.{
  ℕ, ◌+◌, ◌*◌, ◌≤◌, ◌<◌, ◌≡◌, ◌⊎◌, inl, inr, refl, sym, ◌∙◌, ap, subst, Bool, true, false, not,
  ◌&&◌, ◌++◌, length, drop, ◌-◌, ltb, zero, suc, All-append, Memᴰ, Option, none, some, List, [],
  ◌∷◌, All, All-Unit, All-map, get_elem?, if◌then◌else◌, if-both, Text, text_eq, text_eq→eq, pos,
  arith,
}
use kiosk_mate.Supervisor.Window.{second}
use kiosk_mate.Config.Kiosk.{KioskConfig, KioskPage}
use kiosk_mate.Config.Rules.{WorkflowRule, validate_rules}
use kiosk_mate.Config.Rules.Accepted.{validate_rules-All}
use kiosk_mate.Config.Rules.Fresh.{IsFresh-alike}
use kiosk_mate.Workflow.{
  Outside, Engine, Local, Source, Run, RunResult, ran, run_failed, skipped_run, Skip, note_run, put,
  from_test, history_limit,
}
use kiosk_mate.Workflow.Conditions.{blocked, cooling}
use kiosk_mate.Workflow.Actions.{execute}
use kiosk_mate.Workflow.Firing.{
  fire, Called, Failures, skipped_of, Event, ticked, touched, received, posted, tested, timer_ended,
  handle, handle_mqtt, test_rule,
}
use kiosk_mate.Workflow.Frame.{act-keeps, revert_display-keeps}
use kiosk_mate.Workflow.Keeps.{
  execute-keeps, run_actions-keeps, check-keeps, handle_activity-keeps, handle_mqtt_from-keeps,
  handle_webhook-keeps,
}

-- A rule's own cooldown is over, or it never fired.
abbrev pub IsCooled : ℕ → ℕ → ℕ → Type 0
IsCooled c last now = (last ≡ 0) ⊎ (last + c * second ≤ now)

abbrev is_executed : RunResult → Bool
is_executed skipped_run = false
is_executed ran = true
is_executed run_failed = true

abbrev is_test : Source → Bool
is_test from_test = true
is_test _ = false

-- A run in which the rule's actions ran, not on a test.
abbrev pub is_firing : Text → Run → Bool
is_firing id run = text_eq id run.rule_id && not (is_test run.source) && is_executed run.result

-- Every firing of the rule in the second history is one of the first.
abbrev pub NoFiring : Text → List Run → List Run → Type 0
NoFiring id runs runs' = All (λ run. is_firing id run ≡ true → Memᴰ run runs) runs'

-- From one state to another at `now`: the rule did not fire, by its last firing and by the history, or it
-- fired at `now`, behind the cooldown since its firing before.
abbrev pub IsSpaced : Text → ℕ → ℕ → Engine → Engine → Type 0
IsSpaced id c now e e' =
    ((e'.last_fired id ≡ e.last_fired id) × NoFiring id e.history e'.history)
    ⊎ ((e'.last_fired id ≡ now) × IsCooled c (e.last_fired id) now)

blocked-cooling :
    (k : KioskConfig) (o : Outside) (rule : WorkflowRule) (now : Local) (e : Engine)
    → blocked k o rule now e ≡ none
    → cooling rule.cooldown_seconds (e.last_fired rule.id) now.instant ≡ false
unfolding blocked
blocked-cooling k o rule now e h = ground arith

cooling-IsCooled : (c last now : ℕ) → 0 < c → cooling (pos c) last now ≡ false → IsCooled c last now
cooling-IsCooled c last now positive h = ground arith

All-drop : {A : Type 0} (P : A → Type 0) (n : ℕ) (xs : List A) → All P xs → All P (drop n xs)
All-drop P zero xs h = h
All-drop P (suc n) [] h = tt
All-drop P (suc n) (x ∷ xs) (h, hs) = All-drop P n xs hs

NoFiring-self :
    (id : Text) (runs more : List Run)
    → ((run : Run) → Memᴰ run runs → Memᴰ run more)
    → NoFiring id more runs
NoFiring-self id [] more f = tt
NoFiring-self id (run ∷ runs) more f =
    (λ h. f run (Memᴰ.head refl), NoFiring-self id runs more (λ r m. f r (Memᴰ.tail m)))

-- A run that is no firing of the rule is noted.
note_run-NoFiring :
    (id : Text) (old : List Run) (run : Run) (e : Engine)
    → is_firing id run ≡ false
    → NoFiring id old e.history
    → NoFiring id old (note_run run e).history
unfolding note_run
note_run-NoFiring id old run e other h =
    if-both (λ runs. NoFiring id old runs) (ltb history_limit (length runs))
      (All-drop _ (length runs - history_limit) runs noted) noted
  where
    runs : List Run
    runs = e.history ++ run ∷ []

    noted : NoFiring id old runs
    noted =
        All-append _ e.history (run ∷ []) h
          ((λ fires. let clash : true ≡ false = sym fires ∙ other in absurd (cc clash)), tt)

module _ (k : KioskConfig) (o : Outside) (id : Text) (c : ℕ) (positive : 0 < c) where
  -- Rules with this id have this cooldown.
  abbrev Cools : WorkflowRule → Type 0
  Cools rule = text_eq id rule.id ≡ true → rule.cooldown_seconds ≡ pos c

  module _ (now : ℕ) (old : Engine) where
    abbrev Kept : Engine → Type 0
    Kept e = IsSpaced id c now old e

    note_run-Kept :
        (run : Run) (e : Engine) → is_firing id run ≡ false → Kept e → Kept (note_run run e)
    unfolding note_run
    note_run-Kept run e other (inl (same, none_new)) =
        inl (same, note_run-NoFiring id old.history run e other none_new)
    note_run-Kept run e other (inr h) = inr h

    -- A run of another rule, or a test.
    execute-Kept :
        (rule : WorkflowRule) (source : Source) (e : Engine)
        → (text_eq id rule.id && not (is_test source)) ≡ false
        → Kept e
        → Kept (execute k o rule source e).0
    unfolding execute
    execute-Kept rule source e other r = note_run-Kept _ _ (ground arith) (
        run_actions-keeps k o Kept (λ a. Unit)
          (act-keeps k o Kept (λ command s g. g) (λ pending s g. g)) 1 rule.actions e (none, [])
          (All-Unit rule.actions) r)

    -- The rule's own run, behind its cooldown.
    execute_own-Kept :
        (rule : WorkflowRule) (source : Source) (e : Engine)
        → e.last_fired id ≡ now
        → IsCooled c (old.last_fired id) now
        → Kept (execute k o rule source e).0
    unfolding note_run
    execute_own-Kept rule source e at cooled = inr (
      execute-keeps k o (λ s. s.last_fired id ≡ now) (λ a. Unit)
          (act-keeps k o _ (λ command s g. g) (λ pending s g. g)) (λ run s g. g) rule source e
          (All-Unit rule.actions) at,
      cooled,
    )

    IsCooled-before :
        (e : Engine)
        → Kept e
        → IsCooled c (e.last_fired id) now
        → IsCooled c (old.last_fired id) now
    IsCooled-before e (inl (same, none_new)) h = subst (λ n. IsCooled c n now) same h
    IsCooled-before e (inr (at, g)) h = g

  module _ (now : Local) (old : Engine) where
    fire-IsSpaced :
        (rule : WorkflowRule) (source : Source) (e : Engine)
        → Cools rule
        → Kept now.instant old e
        → Kept now.instant old (fire k o rule source now e).0
    unfolding fire
    fire-IsSpaced rule source e cools r = go (blocked k o rule now e) refl
      where
        fired : Engine
        fired = record e { last_fired = put rule.id now.instant e.last_fired }

        cooled :
            blocked k o rule now e ≡ none
            → text_eq id rule.id ≡ true
            → IsCooled c (e.last_fired id) now.instant
        cooled free same =
            let free_last : cooling (pos c) (e.last_fired rule.id) now.instant ≡ false =
              subst (λ seconds. cooling seconds (e.last_fired rule.id) now.instant ≡ false)
                (cools same) (blocked-cooling k o rule now e free) in
            subst (λ t. IsCooled c (e.last_fired t) now.instant) (sym (text_eq→eq id rule.id same))
              (cooling-IsCooled c (e.last_fired rule.id) now.instant positive free_last)

        own_or_other :
            (own : Bool)
            → text_eq id rule.id ≡ own
            → blocked k o rule now e ≡ none
            → Kept now.instant old (execute k o rule source fired).0
        own_or_other true same free =
            execute_own-Kept now.instant old rule source fired
              (ap (λ b. if b then now.instant else e.last_fired id) same)
              (IsCooled-before now.instant old e r (cooled free same))
        own_or_other false other free =
            execute-Kept now.instant old rule source fired
              (ap (λ b. b && not (is_test source)) other)
              (subst
                (λ last.
                  ((last ≡ old.last_fired id) × NoFiring id old.history e.history)
                  ⊎ ((last ≡ now.instant) × IsCooled c (old.last_fired id) now.instant))
                (sym (ap (λ b. if b then now.instant else e.last_fired id) other)) r)

        go :
            (reason : Option Skip)
            → blocked k o rule now e ≡ reason
            → let fired' : Engine × Failures = elim reason [
              | some why ↦ (note_run (skipped_of rule source now.instant why) e, [])
              | none ↦ execute k o rule source fired
            ] in
              Kept now.instant old fired'.0
        go (some why) h = note_run-Kept now.instant old _ e (ground arith) r
        go none h = own_or_other (text_eq id rule.id) refl h

-- The time of an event that a rule's conditions are asked for.
abbrev pub instant_of : Event → ℕ
instant_of (ticked now) = now.instant
instant_of (touched now) = now.instant
instant_of (received now topic payload) = now.instant
instant_of (posted now id token) = now.instant
instant_of (tested id) = 0
instant_of timer_ended = 0

module _ (k : KioskConfig) (o : Outside) (id : Text) (c : ℕ) (positive : 0 < c) where
  begun : (now : ℕ) (e : Engine) → IsSpaced id c now e e
  begun now e = inl (refl, NoFiring-self id e.history e.history (λ run m. m))

  test_rule-IsSpaced :
      (now : ℕ) (tested_id : Text) (rules : List WorkflowRule) (e : Engine)
      → IsSpaced id c now e (test_rule k o tested_id rules e).0
  unfolding test_rule
  test_rule-IsSpaced now tested_id [] e = begun now e
  test_rule-IsSpaced now tested_id (rule ∷ rules) e =
      if-both (λ (x : Engine × Called). IsSpaced id c now e x.0) (text_eq rule.id tested_id)
        (execute-Kept k o id c positive now e rule from_test e (ground arith) (begun now e))
        (test_rule-IsSpaced now tested_id rules e)

  handle-IsSpaced :
      (rules : List WorkflowRule) (event : Event) (e : Engine)
      → All (Cools k o id c positive) rules
      → IsSpaced id c (instant_of event) e (handle k o rules event e)
  unfolding handle handle_mqtt
  handle-IsSpaced rules (ticked now) e f =
      check-keeps k o now (Kept k o id c positive now.instant e) (Cools k o id c positive)
        (fire-IsSpaced k o id c positive now e) (λ time idle s h. h) rules e f (begun now.instant e)
  handle-IsSpaced rules (touched now) e f =
      handle_activity-keeps k o now (Kept k o id c positive now.instant e) (Cools k o id c positive)
        (fire-IsSpaced k o id c positive now e) (λ time idle s h. h) rules e f (begun now.instant e)
  handle-IsSpaced rules (received now topic payload) e f =
      handle_mqtt_from-keeps k o now (Kept k o id c positive now.instant e)
        (Cools k o id c positive) (fire-IsSpaced k o id c positive now e) (λ time idle s h. h) topic
        payload rules false e f (begun now.instant e)
  handle-IsSpaced rules (posted now called token) e f =
      handle_webhook-keeps k o now (Kept k o id c positive now.instant e) (Cools k o id c positive)
        (fire-IsSpaced k o id c positive now e) (λ time idle s h. h) called token rules e f
        (begun now.instant e)
  handle-IsSpaced rules (tested called) e f = test_rule-IsSpaced 0 called rules e
  handle-IsSpaced rules timer_ended e f =
      revert_display-keeps k o (IsSpaced id c 0 e) (λ command s h. h) (λ pending s h. h) e
        (begun 0 e)

-- In a configuration that passed the validation of its rules, whatever the engine is told: either the
-- rule's last firing stays and the history has no new run of its actions but tests, or its last firing
-- becomes the event's time, and then the rule never fired before or its cooldown since the firing before
-- is over.
pub handle-cooldown :
    (pages : List KioskPage) (rules : List WorkflowRule) (i c : ℕ) (rule : WorkflowRule)
    (k : KioskConfig) (o : Outside) (event : Event) (e : Engine)
    → validate_rules pages rules ≡ none
    → get_elem? rules i ≡ some rule
    → rule.cooldown_seconds ≡ pos c
    → 0 < c
    → IsSpaced rule.id c (instant_of event) e (handle k o rules event e)
handle-cooldown pages rules i c rule k o event e valid at cooldown positive =
    handle-IsSpaced k o rule.id c positive rules event e (
      All-map _ _ rules
        (λ r same alike.
          subst (λ (x : WorkflowRule). x.cooldown_seconds ≡ pos c) (sym (same alike)) cooldown)
        (IsFresh-alike [] rules i rule (validate_rules-All pages rules valid).0 at))
