-- ===== src/Config/Inserts/Winner.antt =====
-- The insert on screen: `wins` and `ActiveInsert` of internal/config/inserts.go.
use kiosk_mate.Common.{
  ℕ, ◌+◌, ◌≤◌, ◌<◌, ◌≡◌, ◌⊎◌, inl, inr, refl, sym, subst, ap, ◌∙◌, Bool, true, false, Option, none,
  some, List, [], ◌∷◌, get_elem?, if◌then◌else◌, Memᴰ, arith, Bool-cases,
}
use mathlib.Core.List.Memᴰ
use kiosk_mate.Supervisor.Window.{second}
use kiosk_mate.Config.Kiosk.{KioskConfig, PageInsert}
use kiosk_mate.Config.Inserts.{Calendar, InsertSlot, overlaps, insert_slots}
use kiosk_mate.Config.Inserts.Calendars.{IsCalendar}
use kiosk_mate.Config.Inserts.Listed.{IsRun, insert_slots-Mem}
use kiosk_mate.Config.Inserts.Program.{wins, is_running, better, best_from, active_insert}

wins_irrefl : (a : InsertSlot) → wins a a ≡ false
wins_irrefl a = ground arith

-- Who is not beaten is not beaten by those it is not beaten by.
wins_trans : (a b d : InsertSlot) → wins b a ≡ false → wins d b ≡ false → wins d a ≡ false
wins_trans a b d h g = ground arith

wins-asym : (a b : InsertSlot) → wins a b ≡ true → wins b a ≡ false
wins-asym a b h = ground arith

-- Two runs of which none beats the other are of one insert.
wins-alike : (a b : InsertSlot) → wins a b ≡ false → wins b a ≡ false → a.index ≡ b.index
wins-alike a b h g = ground arith

module _ (now : ℕ) where
  -- No run of the list is running and beats `s`.
  abbrev Leads : List InsertSlot → InsertSlot → Type 0
  Leads slots s = (t : InsertSlot) → Memᴰ t slots → is_running now t ≡ true → wins t s ≡ false

  -- The winner among the best so far and the running ones of a list.
  abbrev Chosen : List InsertSlot → Option InsertSlot → Option InsertSlot → Type 0
  Chosen slots none none = (t : InsertSlot) → Memᴰ t slots → is_running now t ≡ false
  Chosen slots none (some s) = Memᴰ s slots × (is_running now s ≡ true) × Leads slots s
  Chosen slots (some b) none = ⊥
  Chosen slots (some b) (some s) =
      ((s ≡ b) ⊎ (Memᴰ s slots × (is_running now s ≡ true))) × (wins b s ≡ false) × Leads slots s

  Leads-cons :
      (x : InsertSlot) (slots : List InsertSlot) (s : InsertSlot)
      → (is_running now x ≡ true → wins x s ≡ false)
      → Leads slots s
      → Leads (x ∷ slots) s
  Leads-cons x slots s h l t (Memᴰ.head e) r =
      subst (λ (y : InsertSlot). wins y s ≡ false) (sym e)
        (h (subst (λ (y : InsertSlot). is_running now y ≡ true) e r))
  Leads-cons x slots s h l t (Memᴰ.tail m) r = l t m r

  none_running :
      (x : InsertSlot) (slots : List InsertSlot)
      → is_running now x ≡ false
      → Chosen slots none none
      → Chosen (x ∷ slots) none none
  none_running x slots h c t (Memᴰ.head e) =
      subst (λ (y : InsertSlot). is_running now y ≡ false) (sym e) h
  none_running x slots h c t (Memᴰ.tail m) = c t m

  -- A slot that is not running changes nothing.
  Chosen-idle :
      (x : InsertSlot) (slots : List InsertSlot) (best result : Option InsertSlot)
      → is_running now x ≡ false
      → Chosen slots best result
      → Chosen (x ∷ slots) best result
  Chosen-idle x slots none none h c = none_running x slots h c
  Chosen-idle x slots none (some s) h (m, r, l) = (Memᴰ.tail m, r, Leads-cons x slots s (λ e. cc) l)
  Chosen-idle x slots (some b) none h c = c
  Chosen-idle x slots (some b) (some s) h (inl e, w, l) =
      (inl e, w, Leads-cons x slots s (λ f. cc) l)
  Chosen-idle x slots (some b) (some s) h (inr (m, r), w, l) =
      (inr (Memᴰ.tail m, r), w, Leads-cons x slots s (λ f. cc) l)

  -- A slot that is running and kept as the best.
  Chosen-taken :
      (x : InsertSlot) (slots : List InsertSlot) (best result : Option InsertSlot)
      → is_running now x ≡ true
      → ((b : InsertSlot) → best ≡ some b → wins b x ≡ false)
      → Chosen slots (some x) result
      → Chosen (x ∷ slots) best result
  Chosen-taken x slots best none r h c = absurd c
  Chosen-taken x slots none (some s) r h (inl e, w, l) = (
    Memᴰ.head e,
    subst (λ (y : InsertSlot). is_running now y ≡ true) (sym e) r,
    Leads-cons x slots s (λ f. w) l,
  )
  Chosen-taken x slots none (some s) r h (inr (m, g), w, l) =
      (Memᴰ.tail m, g, Leads-cons x slots s (λ f. w) l)
  Chosen-taken x slots (some b) (some s) r h (inl e, w, l) = (
    inr (Memᴰ.head e, subst (λ (y : InsertSlot). is_running now y ≡ true) (sym e) r),
    wins_trans s x b w (h b refl),
    Leads-cons x slots s (λ f. w) l,
  )
  Chosen-taken x slots (some b) (some s) r h (inr (m, g), w, l) =
      (inr (Memᴰ.tail m, g), wins_trans s x b w (h b refl), Leads-cons x slots s (λ f. w) l)

  -- A slot that is running and does not beat the best.
  Chosen-left :
      (x b : InsertSlot) (slots : List InsertSlot) (result : Option InsertSlot)
      → wins x b ≡ false
      → Chosen slots (some b) result
      → Chosen (x ∷ slots) (some b) result
  Chosen-left x b slots none h c = absurd c
  Chosen-left x b slots (some s) h (inl e, w, l) =
      (inl e, w, Leads-cons x slots s (λ f. wins_trans s b x w h) l)
  Chosen-left x b slots (some s) h (inr (m, g), w, l) =
      (inr (Memᴰ.tail m, g), w, Leads-cons x slots s (λ f. wins_trans s b x w h) l)

  best_from-Chosen :
      (slots : List InsertSlot) (best : Option InsertSlot)
      → Chosen slots best (best_from now slots best)
  unfolding best_from
  best_from-Chosen [] none = λ t m. absurd (Memᴰ.not-nil m)
  best_from-Chosen [] (some b) = (inl refl, wins_irrefl b, λ t m r. absurd (Memᴰ.not-nil m))
  best_from-Chosen (x ∷ slots) best =
      go (is_running now x) best refl (λ acc. best_from-Chosen slots acc)
    where
      go :
          (running : Bool) (acc : Option InsertSlot)
          → is_running now x ≡ running
          → ((a : Option InsertSlot) → Chosen slots a (best_from now slots a))
          → Chosen (x ∷ slots) acc (best_from now slots (if running then better x acc else acc))
      go false acc r rest = Chosen-idle x slots acc _ r (rest acc)
      go true none r rest = Chosen-taken x slots none _ r (λ b e. cc) (rest (some x))
      go true (some b) r rest = beats (wins x b) refl
        where
          kept : (d : InsertSlot) → some b ≡ some d → wins x b ≡ true → wins d x ≡ false
          kept d e w =
              let same : b ≡ d = cc in
              subst (λ (y : InsertSlot). wins y x ≡ false) same (wins-asym x b w)

          beats :
              (w : Bool)
              → wins x b ≡ w
              → Chosen (x ∷ slots) (some b) (best_from now slots (if w then some x else some b))
          beats true w = Chosen-taken x slots (some b) _ r (λ d e. kept d e w) (rest (some x))
          beats false w = Chosen-left x b slots _ w (rest (some b))

-- The run on screen at `now`: one of an enabled insert that is running and that no other beats, or none if
-- none is running.
abbrev pub IsOnScreen : KioskConfig → Calendar → ℕ → Option InsertSlot → Type 0
IsOnScreen k c now none = (t : InsertSlot) → IsRun k c t → is_running now t ≡ false
IsOnScreen k c now (some s) =
    IsRun k c s
    × (is_running now s ≡ true)
    × ((t : InsertSlot) → IsRun k c t → is_running now t ≡ true → wins t s ≡ false)

running-overlaps :
    (from to now : ℕ) (t : InsertSlot)
    → from ≤ now
    → now < to
    → is_running now t ≡ true
    → overlaps from to t ≡ true
running-overlaps from to now t h g r = ground arith

-- The winner among the slots of an interval is on screen at each instant of it.
pub best_from-IsOnScreen :
    (k : KioskConfig) (c : Calendar) (from to now : ℕ)
    → IsCalendar c
    → from ≤ now
    → now < to
    → IsOnScreen k c now (best_from now (insert_slots k c from to) none)
best_from-IsOnScreen k c from to now law le lt =
    go (best_from now (insert_slots k c from to) none)
      (best_from-Chosen now (insert_slots k c from to) none)
  where
    listed :
        (t : InsertSlot) → IsRun k c t → is_running now t ≡ true → Memᴰ t (insert_slots k c from to)
    listed t run r =
        (insert_slots-Mem k c from to t law (omega (arith, le, lt))).1
          (run, running-overlaps from to now t le lt r)

    go :
        (result : Option InsertSlot)
        → Chosen now (insert_slots k c from to) none result
        → IsOnScreen k c now result
    go none h =
        λ t run. elim (Bool-cases (is_running now t)) [ inl r ↦ h t (listed t run r) | inr r ↦ r ]
    go (some s) (m, r, l) = (
      ((insert_slots-Mem k c from to s law (omega (arith, le, lt))).0 m).0,
      r,
      λ t run g. l t (listed t run g) g,
    )

-- In a calendar whose days each have a midnight, are in order and last at least an hour, `ActiveInsert` names a run of an
-- enabled insert that is running and that no other running one beats, on whatever day they started; and it
-- names none only if none is running.
pub active_insert-IsOnScreen :
    (k : KioskConfig) (c : Calendar) (now : ℕ)
    → IsCalendar c
    → IsOnScreen k c now (active_insert k c now)
unfolding active_insert
active_insert-IsOnScreen k c now law =
    best_from-IsOnScreen k c now (now + second) now law (omega arith) (omega arith)

-- The insert of a run is the one at its position.
IsRun-insert :
    (k : KioskConfig) (c : Calendar) (s : InsertSlot)
    → IsRun k c s
    → get_elem? k.inserts s.index ≡ some s.insert
IsRun-insert k c s (i, p, n, at, sched, (m, h, a, e)) =
    subst (λ (x : InsertSlot). get_elem? k.inserts x.index ≡ some x.insert) (sym e) at

-- The insert of a run, if there is one.
abbrev pub insert_on : Option InsertSlot → Option PageInsert
insert_on none = none
insert_on (some s) = some s.insert

-- What is on screen at an instant is of one insert.
pub IsOnScreen-same :
    (k : KioskConfig) (c : Calendar) (now : ℕ) (x y : Option InsertSlot)
    → IsOnScreen k c now x
    → IsOnScreen k c now y
    → insert_on x ≡ insert_on y
IsOnScreen-same k c now none none h g = refl
IsOnScreen-same k c now none (some s) h (run, r, l) = absurd (clash r (h s run))
  where
    clash : {b : Bool} → b ≡ true → b ≡ false → ⊥
    clash e f = cc
IsOnScreen-same k c now (some s) none (run, r, l) h = absurd (clash r (h s run))
  where
    clash : {b : Bool} → b ≡ true → b ≡ false → ⊥
    clash e f = cc
IsOnScreen-same k c now (some a) (some b) (ra, ga, la) (rb, gb, lb) =
    sym (IsRun-insert k c a ra)
    ∙ ap (λ i. get_elem? k.inserts i) (wins-alike a b (lb a ra ga) (la b rb gb))
    ∙ IsRun-insert k c b rb
