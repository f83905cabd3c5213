-- ===== src/Workflow/Once.antt =====
-- A time rule fires at most once in a minute: `checkTime` of internal/workflow/engine.go.
use kiosk_mate.Common.{
  ℕ, ◌≡◌, refl, sym, subst, if-both, Bool, true, false, not, List, [], ◌∷◌, All, All-Unit,
  if◌then◌else◌, Text, text_eq, text_eq_refl,
}
use kiosk_mate.Config.Kiosk.{KioskConfig}
use kiosk_mate.Config.Rules.{WorkflowRule}
use kiosk_mate.Workflow.{Outside, Engine, Local, Source, note_run, put, from_time}
use kiosk_mate.Workflow.Firing.{fire, check_time, check_time_rule, is_time_rule, stamp}
use kiosk_mate.Workflow.Frame.{act-keeps}
use kiosk_mate.Workflow.Keeps.{fire-keeps}

fire-time_fired :
    (k : KioskConfig) (o : Outside) (rule : WorkflowRule) (source : Source) (now : Local)
    (e : Engine)
    → (fire k o rule source now e).0.time_fired ≡ e.time_fired
unfolding note_run
fire-time_fired k o rule source now e =
    fire-keeps k o Kept (λ a. Unit) (act-keeps k o Kept (λ c s h. h) (λ pending s h. h))
      (λ run s h. h) (λ last s h. h) rule source now e (All-Unit rule.actions) refl
  where
    Kept : Engine → Type 0
    Kept s = s.time_fired ≡ e.time_fired

module _ (k : KioskConfig) (o : Outside) (now : Local) where
  -- The rule of this id is marked for this minute.
  abbrev Marked : Text → Engine → Type 0
  Marked id e = text_eq (e.time_fired id) (stamp now) ≡ true

  put-Marked :
      (id id' : Text) (time : Text → Text)
      → text_eq (time id) (stamp now) ≡ true
      → text_eq (put id' (stamp now) time id) (stamp now) ≡ true
  put-Marked id id' time h =
      if-both (λ (t : Text). text_eq t (stamp now) ≡ true) (text_eq id id')
        (text_eq_refl (stamp now)) h

  -- The rule that fires, and every rule that was marked.
  fired : WorkflowRule → Engine → Engine
  fired rule e =
      (fire k o rule from_time now
        (record e { time_fired = put rule.id (stamp now) e.time_fired })).0

  fired-Marked :
      (id : Text) (rule : WorkflowRule) (e : Engine)
      → text_eq (put rule.id (stamp now) e.time_fired id) (stamp now) ≡ true
      → Marked id (fired rule e)
  unfolding fired
  fired-Marked id rule e h =
      subst (λ time. text_eq (time id) (stamp now) ≡ true)
        (sym (
          fire-time_fired k o rule from_time now
            (record e { time_fired = put rule.id (stamp now) e.time_fired })))
        h

  check_time_rule-Marked :
      (id : Text) (rule : WorkflowRule) (e : Engine)
      → Marked id e
      → Marked id (check_time_rule k o now rule e)
  unfolding check_time_rule fired
  check_time_rule-Marked id rule e h = if-both (Marked id) (not (is_time_rule now rule)) h (
      if-both (Marked id) (text_eq (e.time_fired rule.id) (stamp now)) h
        (fired-Marked id rule e (put-Marked id rule.id e.time_fired h)))

  check_time_rule-marks :
      (rule : WorkflowRule) (e : Engine)
      → is_time_rule now rule ≡ true
      → Marked rule.id (check_time_rule k o now rule e)
  unfolding check_time_rule fired
  check_time_rule-marks rule e h =
      go (is_time_rule now rule) (text_eq (e.time_fired rule.id) (stamp now)) h refl
    where
      mark : text_eq (put rule.id (stamp now) e.time_fired rule.id) (stamp now) ≡ true
      mark = rw (text_eq_refl rule.id) (text_eq_refl (stamp now))

      go :
          (due marked : Bool)
          → due ≡ true
          → text_eq (e.time_fired rule.id) (stamp now) ≡ marked
          → Marked rule.id (if not due then e else if marked then e else fired rule e)
      go true true d m = m
      go true false d m = fired-Marked rule.id rule e mark
      go false _ d m = cc

  check_time-Marked :
      (id : Text) (rules : List WorkflowRule) (e : Engine)
      → Marked id e
      → Marked id (check_time k o now rules e)
  unfolding check_time
  check_time-Marked id [] e h = h
  check_time-Marked id (rule ∷ rules) e h =
      check_time-Marked id rules _ (check_time_rule-Marked id rule e h)

  abbrev AllMarked : List WorkflowRule → Engine → Type 0
  AllMarked rules e = All (λ rule. is_time_rule now rule ≡ true → Marked rule.id e) rules

  check_time-AllMarked :
      (rules : List WorkflowRule) (e : Engine) → AllMarked rules (check_time k o now rules e)
  unfolding check_time
  check_time-AllMarked [] e = tt
  check_time-AllMarked (rule ∷ rules) e = (
    λ h. check_time-Marked rule.id rules _ (check_time_rule-marks rule e h),
    check_time-AllMarked rules (check_time_rule k o now rule e),
  )

  check_time-idle :
      (later : ℕ) (rules : List WorkflowRule) (e : Engine)
      → AllMarked rules e
      → check_time k o (record now { instant = later }) rules e ≡ e
  unfolding check_time check_time_rule
  check_time-idle later [] e h = refl
  check_time-idle later (rule ∷ rules) e (h, hs) =
      go (is_time_rule now rule) (text_eq (e.time_fired rule.id) (stamp now))
        (check_time-idle later rules e hs) h refl
    where
      again : Engine
      again =
          (fire k o rule from_time (record now { instant = later })
            (record e { time_fired = put rule.id (stamp now) e.time_fired })).0

      go :
          (due marked : Bool)
          → check_time k o (record now { instant = later }) rules e ≡ e
          → (due ≡ true → text_eq (e.time_fired rule.id) (stamp now) ≡ true)
          → text_eq (e.time_fired rule.id) (stamp now) ≡ marked
          → check_time k o
              (record now { instant = later })
              rules
              (if not due then e else if marked then e else again)
            ≡ e
      go false _ rest m f = rest
      go true true rest m f = rest
      go true false rest m f = cc (m refl)

-- However often the time rules are checked within a minute, at any of its instants and whatever the
-- actions of the first check did: the second check changes nothing.
pub check_time-once :
    (k : KioskConfig) (o : Outside) (now : Local) (later : ℕ) (rules : List WorkflowRule)
    (e : Engine)
    → check_time k o (record now { instant = later }) rules (check_time k o now rules e)
      ≡ check_time k o now rules e
check_time-once k o now later rules e =
    check_time-idle k o now later rules _ (check_time-AllMarked k o now rules e)
