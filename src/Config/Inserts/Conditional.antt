-- ===== src/Config/Inserts/Conditional.antt =====
-- Inserts with a condition: `InsertsWhere` and `ConditionTopics` of internal/config/inserts.go.
use kiosk_mate.Common.{
  ℕ, zero, suc, ◌≡◌, refl, sym, subst, ◌∙◌, Bool, true, false, not, ◌&&◌, ◌||◌, Option, none, some,
  List, [], ◌∷◌, ◌++◌, map, get_elem?, if◌then◌else◌, Text, text_eq, text_eq→eq, member_text,
  equal_fold, trim_space, arith,
}
use kiosk_mate.Config.Kiosk.{KioskConfig, PageInsert, InsertCondition}
use kiosk_mate.Config.Inserts.{Calendar, InsertSlot, is_scheduled}
use kiosk_mate.Config.Inserts.Calendars.{IsCalendar}
use kiosk_mate.Config.Inserts.Conditions.{
  holds, insert_where, inserts_where, condition_topics, condition_topics_from,
}
use kiosk_mate.Config.Inserts.Listed.{IsRun}
use kiosk_mate.Config.Inserts.Program.{active_insert}
use kiosk_mate.Config.Inserts.Winner.{IsOnScreen, active_insert-IsOnScreen}

-- A value was seen, and it is the condition's, up to case and white space around, or for a negated
-- condition is not.
abbrev pub Satisfies : InsertCondition → Option Text → Type 0
Satisfies c none = ⊥
Satisfies c (some value) = equal_fold (trim_space value) (trim_space c.value) ≡ not c.negate

-- The condition of an insert, if it has one, is satisfied by the last value of its topic.
abbrev pub IsMet : (Text → Option Text) → PageInsert → Type 0
IsMet lookup p = elim p.condition [ none ↦ Unit | some c ↦ Satisfies c (lookup c.topic) ]

holds-Satisfies :
    (c : InsertCondition) (seen : Option Text) → holds c seen ≡ true → Satisfies c seen
unfolding holds
holds-Satisfies c none h = let clash : false ≡ true = h in absurd (cc clash)
holds-Satisfies c (some value) h = ground arith

insert_where-IsMet :
    (lookup : Text → Option Text) (p : PageInsert)
    → (insert_where lookup p).disabled ≡ false
    → IsMet lookup (insert_where lookup p)
insert_where-IsMet lookup p h = go p.condition h
  where
    go :
        (condition : Option InsertCondition)
        → (insert_where lookup (record p { condition = condition })).disabled ≡ false
        → IsMet lookup (insert_where lookup (record p { condition = condition }))
    go none e = tt
    go (some c) e = decide (p.disabled) (holds c (lookup c.topic)) refl refl e
      where
        decide :
            (disabled met : Bool)
            → p.disabled ≡ disabled
            → holds c (lookup c.topic) ≡ met
            → (if disabled || met
                then record p { condition = some c }
                else record p { condition = some c; disabled = true }).disabled
              ≡ false
            → IsMet lookup (
                if disabled || met
                then record p { condition = some c }
                else record p { condition = some c; disabled = true })
        decide false true d m f = holds-Satisfies c (lookup c.topic) m
        decide true _ d m f = cc
        decide false false d m f = cc

map-IsMet :
    (lookup : Text → Option Text) (inserts : List PageInsert) (i : ℕ) (p : PageInsert)
    → get_elem? (map (insert_where lookup) inserts) i ≡ some p
    → p.disabled ≡ false
    → IsMet lookup p
map-IsMet lookup [] i p h d = cc
map-IsMet lookup (q ∷ inserts) zero p h d =
    let same : insert_where lookup q ≡ p = cc in
    subst (λ (x : PageInsert). x.disabled ≡ false → IsMet lookup x) same
      (insert_where-IsMet lookup q) d
map-IsMet lookup (q ∷ inserts) (suc i) p h d = map-IsMet lookup inserts i p h d

is_scheduled-enabled :
    (k : KioskConfig) (p : PageInsert) → is_scheduled k p ≡ true → p.disabled ≡ false
is_scheduled-enabled k p h = ground arith

-- A run of the configuration that `InsertsWhere` leaves.
IsRun-IsMet :
    (k : KioskConfig) (c : Calendar) (lookup : Text → Option Text) (s : InsertSlot)
    → IsRun (inserts_where lookup k) c s
    → IsMet lookup s.insert
unfolding inserts_where
IsRun-IsMet k c lookup s (i, p, n, at, sched, (m, h, a, e)) =
    subst (λ (x : InsertSlot). IsMet lookup x.insert) (sym e)
      (map-IsMet lookup k.inserts i p at (is_scheduled-enabled (inserts_where lookup k) p sched))

-- An insert is on screen only while the last value of its condition's topic, if it has a condition, was
-- seen and is the wanted one, or for a negated condition another one,
-- in a calendar whose days each have a midnight, are in order and last at least an hour.
pub active_insert-IsMet :
    (k : KioskConfig) (c : Calendar) (lookup : Text → Option Text) (now : ℕ) (s : InsertSlot)
    → IsCalendar c
    → active_insert (inserts_where lookup k) c now ≡ some s
    → IsMet lookup s.insert
active_insert-IsMet k c lookup now s law h =
    let (run, r, l) =
      subst (λ x. IsOnScreen (inserts_where lookup k) c now x) h
        (active_insert-IsOnScreen (inserts_where lookup k) c now law) in
    IsRun-IsMet k c lookup s run

-- Whether an enabled insert of the list has a condition on a topic.
abbrev pub depends_on : Text → List PageInsert → Bool
depends_on topic [] = false
depends_on topic (p ∷ inserts) =
    (not p.disabled && elim p.condition [ none ↦ false | some c ↦ text_eq c.topic topic ])
    || depends_on topic inserts

member_text-append :
    (t : Text) (xs ys : List Text)
    → member_text t (xs ++ ys) ≡ (member_text t xs || member_text t ys)
member_text-append t [] ys = refl
member_text-append t (x ∷ xs) ys = ground (arith, member_text-append t xs ys)

noted_topic :
    (topic t : Text) (out : List Text) (disabled : Bool)
    → member_text topic (if not disabled && not (member_text t out) then out ++ t ∷ [] else out)
      ≡ (member_text topic out || (not disabled && text_eq t topic))
noted_topic topic t out true = ground arith
noted_topic topic t out false = go (member_text t out) (λ e g. known e g)
  where
    known : text_eq t topic ≡ true → member_text t out ≡ true → member_text topic out ≡ true
    known e g = subst (λ x. member_text x out ≡ true) (text_eq→eq t topic e) g

    go :
        (seen : Bool)
        → (text_eq t topic ≡ true → seen ≡ true → member_text topic out ≡ true)
        → member_text topic (if true && not seen then out ++ t ∷ [] else out)
          ≡ (member_text topic out || (true && text_eq t topic))
    go true f = ground (arith, f)
    go false f = ground (arith, member_text-append topic out (t ∷ []))

condition_topics_from-depends_on :
    (topic : Text) (inserts : List PageInsert) (out : List Text)
    → member_text topic (condition_topics_from inserts out)
      ≡ (member_text topic out || depends_on topic inserts)
unfolding condition_topics_from
condition_topics_from-depends_on topic [] out = ground arith
condition_topics_from-depends_on topic (p ∷ inserts) out =
    condition_topics_from-depends_on topic inserts _ ∙ step p.condition
  where
    step :
        (condition : Option InsertCondition)
        → (member_text topic (elim condition as (λ x. List Text) [
          | none ↦ out
          | some c ↦
              if not p.disabled && not (member_text c.topic out) then out ++ c.topic ∷ [] else out
        ])
            || depends_on topic inserts)
          ≡ (member_text topic out
              || ((not p.disabled && elim condition as (λ x. Bool) [
                | none ↦ false
                | some c ↦ text_eq c.topic topic
              ])
                  || depends_on topic inserts))
    step none = ground arith
    step (some c) = ground (arith, noted_topic topic c.topic out p.disabled)

-- The topics that the inserts depend on are exactly those of the conditions of enabled inserts.
pub condition_topics-depends_on :
    (k : KioskConfig) (topic : Text)
    → member_text topic (condition_topics k) ≡ depends_on topic k.inserts
unfolding condition_topics
condition_topics-depends_on k topic = condition_topics_from-depends_on topic k.inserts []
