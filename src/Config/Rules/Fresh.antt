-- ===== src/Config/Rules/Fresh.antt =====
-- The ids of the rules that passed `validateRules` of internal/config/rules.go tell the rules apart.
use kiosk_mate.Common.{
  ℕ, zero, suc, ◌≡◌, refl, subst, Bool, true, false, ◌||◌, some, List, [], ◌∷◌, All, get_elem?,
  Text, text_eq, text_eq→eq, text_eq_refl, member_text, arith,
}
use kiosk_mate.Config.Rules.{WorkflowRule}
use kiosk_mate.Config.Rules.Accepted.{IsFresh}

text_eq-sym : (s t : Text) → text_eq s t ≡ true → text_eq t s ≡ true
text_eq-sym s t h = subst (λ x. text_eq x s ≡ true) (text_eq→eq s t h) (text_eq_refl s)

-- A rule of the list has an id that is not among those seen before it.
IsFresh-unseen :
    (seen : List Text) (rules : List WorkflowRule) (i : ℕ) (rule : WorkflowRule)
    → IsFresh seen rules
    → get_elem? rules i ≡ some rule
    → member_text rule.id seen ≡ false
IsFresh-unseen seen [] i rule f h = cc
IsFresh-unseen seen (r ∷ rules) zero rule f h =
    let same : r ≡ rule = cc in subst (λ (x : WorkflowRule). member_text x.id seen ≡ false) same f.0
IsFresh-unseen seen (r ∷ rules) (suc i) rule f h =
    ground (arith, IsFresh-unseen (r.id ∷ seen) rules i rule f.1 h)

-- Rules behind one with the id `id` have other ids.
IsFresh-apart :
    (id : Text) (seen : List Text) (rule : WorkflowRule) (rules : List WorkflowRule)
    → member_text id seen ≡ true
    → IsFresh seen rules
    → All (λ (r : WorkflowRule). text_eq id r.id ≡ true → r ≡ rule) rules
IsFresh-apart id seen rule [] m f = tt
IsFresh-apart id seen rule (r ∷ rules) m f = (
  λ same. absurd (clash (subst (λ x. member_text x seen ≡ true) (text_eq→eq id r.id same) m) f.0),
  IsFresh-apart id (r.id ∷ seen) rule rules (ground arith) f.1,
)
  where
    clash : {b : Bool} → b ≡ true → b ≡ false → ⊥
    clash h g = cc

-- A rule of the list is the only one with its id.
pub IsFresh-alike :
    (seen : List Text) (rules : List WorkflowRule) (i : ℕ) (rule : WorkflowRule)
    → IsFresh seen rules
    → get_elem? rules i ≡ some rule
    → All (λ (r : WorkflowRule). text_eq rule.id r.id ≡ true → r ≡ rule) rules
IsFresh-alike seen [] i rule f h = tt
IsFresh-alike seen (r ∷ rules) zero rule f h =
    let same : r ≡ rule = cc in
    (
      λ alike. same,
      IsFresh-apart rule.id (r.id ∷ seen) rule rules
          (subst (λ (x : WorkflowRule). (text_eq r.id x.id || member_text x.id seen) ≡ true) same
            (rw (text_eq_refl r.id) refl))
          f.1,
    )
IsFresh-alike seen (r ∷ rules) (suc i) rule f h = (
  λ alike.
      absurd
        (apart (text_eq-sym rule.id r.id alike) (IsFresh-unseen (r.id ∷ seen) rules i rule f.1 h)),
  IsFresh-alike (r.id ∷ seen) rules i rule f.1 h,
)
  where
    apart :
        text_eq r.id rule.id ≡ true → (text_eq r.id rule.id || member_text rule.id seen) ≡ false → ⊥
    apart g n = ground arith
