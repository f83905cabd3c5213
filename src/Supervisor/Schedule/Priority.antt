-- ===== src/Supervisor/Schedule/Priority.antt =====
-- Which source decides the page, and that the page exists.
use kiosk_mate.Common.{
  ℕ, zero, suc, ◌<◌, ◌≡◌, refl, ◌⊎◌, inl, inr, Bool-cases, Bool, true, false, Option, none, some,
  List, [], ◌∷◌, leb, length, get_elem?, if◌then◌else◌, minus_one, sym, subst, ◌+◌, Text, ℤ, pos,
  negsuc, arith,
}
use kiosk_mate.Config.Kiosk.{KioskConfig, rotation, hybrid, TimeRule, RotationItem}
use kiosk_mate.Config.Pages.{page_count, enabled_page_index}
use kiosk_mate.Config.Pages.Index.{enabled_page_index-lt-page_count}
use kiosk_mate.Supervisor.Schedule.{
  Moment, SchedulerStatus, Scheduler, clamp_page, rule_target, rule_window, first_target,
  time_rule_target, no_rotation_items, rule_clock,
}
use kiosk_mate.Supervisor.Schedule.Target.{
  InsertProgram, Target, rotation_target, show_item, base_target, apply_presence, apply_inserts,
  page_of, scheduler_target, finish_target, override_ended, advance, note_change, after_insert,
  no_override, no_page, by_rule, status_of, is_nil,
}
use kiosk_mate.Supervisor.Schedule.Rotation.{mod-lt, get_elem?-some}

-- No page, or a page that exists.
abbrev pub IsPage : KioskConfig → ℤ → Type 0
IsPage k (pos page) = page < page_count k
IsPage k (negsuc n) = n ≡ 0

abbrev PageOf : KioskConfig → Option (ℤ × Text × ℕ) → Type 0
PageOf k none = Unit
PageOf k (some (page, name, next)) = IsPage k page

-- No rotation item is shown, or the kept index is one of an item.
abbrev pub IsPlaced : KioskConfig → Scheduler → Type 0
IsPlaced k b = (b.rotation_until ≡ 0) ⊎ (b.rotation_index < length k.rotation)

-- An answer, not the panic of an index out of range, of a page that exists, that leaves the rotation at
-- an item.
abbrev pub AnswerOf : KioskConfig → Option (Target × Scheduler) → Type 0
AnswerOf k none = ⊥
AnswerOf k (some ((page, status), b)) = IsPage k page × IsPlaced k b

clamp_page-IsPage : (k : KioskConfig) (page : ℤ) → IsPage k (clamp_page page (page_count k))
unfolding clamp_page
clamp_page-IsPage k page = go page (page_count k) refl
  where
    go : (p : ℤ) (n : ℕ) → page_count k ≡ n → IsPage k (clamp_page p n)
    go p zero e = ground arith
    go (negsuc m) (suc n) e = omega arith
    go (pos m) (suc n) e = elim (Bool-cases (leb (suc n) m)) [
      | inl h ↦ ground arith
      | inr h ↦ ground arith
    ]

rule_window-PageOf :
    (k : KioskConfig) (now : Moment) (rule : TimeRule) (start end : Option ℕ)
    → PageOf k (rule_window k now rule start end)
unfolding rule_window
rule_window-PageOf k now rule none end = tt
rule_window-PageOf k now rule (some s) none = tt
rule_window-PageOf k now rule (some s) (some e) = ground (arith, clamp_page-IsPage k rule.page)

rule_target-PageOf :
    (k : KioskConfig) (now : Moment) (rule : TimeRule) → PageOf k (rule_target k now rule)
unfolding rule_target
rule_target-PageOf k now rule =
    ground
      (arith, rule_window-PageOf k now rule (rule_clock now rule.start) (rule_clock now rule.end))

first_target-PageOf :
    (k : KioskConfig) (now : Moment) (rules : List TimeRule) → PageOf k (first_target k now rules)
unfolding first_target
first_target-PageOf k now [] = tt
first_target-PageOf k now (rule ∷ rules) =
    ground (arith, rule_target-PageOf k now rule, first_target-PageOf k now rules)

time_rule_target-PageOf : (k : KioskConfig) (now : Moment) → PageOf k (time_rule_target k now)
unfolding time_rule_target
time_rule_target-PageOf k now = first_target-PageOf k now k.time_rules

show_item-AnswerOf :
    (k : KioskConfig) (now index : ℕ) (status : SchedulerStatus) (b : Scheduler) (fresh : Bool)
    → index < length k.rotation
    → b.rotation_index ≡ index
    → AnswerOf k (show_item k now index status b fresh (get_elem? k.rotation index))
show_item-AnswerOf k now index status b fresh h e =
    let (item, at) = get_elem?-some k.rotation index h in
    rw at (clamp_page-IsPage k item.page, inr (rw e h))

advance-lt :
    (k : KioskConfig) (now : ℕ) (b : Scheduler)
    → 0 < length k.rotation
    → IsPlaced k b
    → (advance (length k.rotation) now b).0 < length k.rotation
advance-lt k now b h p = ground (arith, mod-lt (b.rotation_index + 1) (length k.rotation) h)

rotation_target-AnswerOf :
    (k : KioskConfig) (now : ℕ) (status : SchedulerStatus) (b : Scheduler)
    → IsPlaced k b
    → AnswerOf k (rotation_target k now status b)
unfolding rotation_target
rotation_target-AnswerOf k now status b p = go k.rotation refl
  where
    index : ℕ
    index = (advance (length k.rotation) now b).0

    b' : Scheduler
    b' = record b {
      rotation_index = index;
      rotation_cycles = (advance (length k.rotation) now b).1;
    }

    go :
        (items : List RotationItem)
        → k.rotation ≡ items
        → AnswerOf k (
            if is_nil items
            then some ((minus_one, record status { reason = no_rotation_items }), b)
            else show_item k now index status b'
                ((advance (length k.rotation) now b).2)
                (get_elem? k.rotation index))
    go [] e = (refl, p)
    go (item ∷ items) e =
        show_item-AnswerOf k now index status b' _
          (advance-lt k now b (subst (λ xs. 0 < length xs) (sym e) (omega arith)) p) refl

base_target-AnswerOf :
    (k : KioskConfig) (now : Moment) (b : Scheduler)
    → IsPlaced k b
    → AnswerOf k (base_target k now b)
unfolding base_target no_page by_rule
base_target-AnswerOf k now b p = ground (
  arith,
  time_rule_target-PageOf k now,
  rotation_target-AnswerOf k now.instant (status_of k rotation) b p,
  rotation_target-AnswerOf k now.instant (status_of k hybrid) b p,
)

after_insert-IsPage :
    (k : KioskConfig) (target : ℤ) (status : SchedulerStatus) (b : Scheduler)
    → IsPage k target
    → IsPage k (after_insert k target status b)
unfolding after_insert
after_insert-IsPage k target status b p = ground (arith, clamp_page-IsPage k b.insert_return)

abbrev DueOf : KioskConfig → Option (Text × ℕ) → Type 0
DueOf k none = Unit
DueOf k (some (name, page)) = page < page_count k

page_of-DueOf : (k : KioskConfig) (due : Option (Text × Text)) → DueOf k (page_of k due)
page_of-DueOf k none = tt
page_of-DueOf k (some (name, page_id)) =
    go (enabled_page_index k page_id) (λ n. enabled_page_index-lt-page_count k page_id {n = n})
  where
    go :
        (i : ℤ)
        → ((n : ℕ) → i ≡ pos n → n < page_count k)
        → DueOf k (elim i [ pos page ↦ some (name, page) | negsuc n ↦ none ])
    go (pos n) f = f n refl
    go (negsuc n) f = tt

abbrev Answers : KioskConfig → Target × Scheduler → Type 0
Answers k ((page, status), b) = IsPage k page × IsPlaced k b

apply_inserts-IsPage :
    (k : KioskConfig) (program : InsertProgram) (target : ℤ) (status : SchedulerStatus)
    (b : Scheduler)
    → IsPage k target
    → IsPlaced k b
    → Answers k (apply_inserts k program (target, status) b)
unfolding apply_inserts
apply_inserts-IsPage k program target status b p placed =
    let status' = note_change program status in
    ground (arith, after_insert-IsPage k target status' b p, page_of-DueOf k program.due)

finish_target-AnswerOf :
    (k : KioskConfig) (now last : ℕ) (program : InsertProgram)
    (answer : Option (Target × Scheduler))
    → AnswerOf k answer
    → AnswerOf k (finish_target k now last program answer)
finish_target-AnswerOf k now last program none p = p
finish_target-AnswerOf k now last program (some ((target, status), b)) (p, placed) =
    apply_inserts-IsPage k program target (apply_presence k now last status) b p placed

-- With no manual override in force, before or at its end, and with the rotation at one of the items or
-- not begun, the scheduler does not panic: its answer is -1 or the index of a page that exists, whatever
-- the mode, the rules, the rotation and the inserts are, and the rotation is at an item again or not begun.
pub scheduler_target-IsPage :
    (k : KioskConfig) (now : Moment) (last : ℕ) (program : InsertProgram) (b : Scheduler)
    → b.override.active ≡ false ⊎ override_ended now.instant b.override ≡ true
    → IsPlaced k b
    → AnswerOf k (scheduler_target k now last program b)
unfolding scheduler_target no_override
scheduler_target-IsPage k now last program b h p =
    let b' : Scheduler = record b { override = no_override } in
    ground (
      arith,
      finish_target-AnswerOf k now.instant last program (base_target k now b)
          (base_target-AnswerOf k now b p),
      finish_target-AnswerOf k now.instant last program (base_target k now b')
          (base_target-AnswerOf k now b' p),
    )
