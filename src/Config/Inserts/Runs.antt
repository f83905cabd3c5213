-- ===== src/Config/Inserts/Runs.antt =====
-- The two inner loops of `InsertSlots` of internal/config/inserts.go: what the days and their minutes
-- contribute.
use kiosk_mate.Common.{
  ℕ, zero, suc, ◌+◌, ◌≤◌, ◌<◌, ◌≡◌, ◌⊎◌, inl, inr, refl, sym, ap, ◌∙◌, ◌-◌, subst, Bool, true,
  false, ◌&&◌, List, [], ◌∷◌, ◌++◌, ltb, ltb_iff, ◌==◌, ==_iff, Bool-cases, if◌then◌else◌, if-both,
  Memᴰ, arith,
}
use mathlib.Core.List.Memᴰ
use kiosk_mate.Config.Kiosk.{PageInsert}
use kiosk_mate.Config.Inserts.{
  Day, Calendar, slot_minutes, allows, InsertSlot, slot_of, overlaps, day_slots, slots_from,
  first_day,
}
use kiosk_mate.Config.Inserts.Calendars.{IsCalendar, midnight}

pub overlaps-parts :
    (from to : ℕ) (slot : InsertSlot)
    → overlaps from to slot ≡ true
    → (from < slot.end) × (slot.start < to)
overlaps-parts from to slot o = (ground arith, ground arith)

-- A slot is the run of an insert that starts at a minute of the day.
abbrev pub IsRunOf : PageInsert → ℕ → Day → InsertSlot → Type 0
IsRunOf p index day slot =
    (m : ℕ) × Memᴰ m (slot_minutes p day.sun)
    × (allows p day m ≡ true)
    × (slot ≡ slot_of p index day m)

module _ (from to : ℕ) (p : PageInsert) (index : ℕ) (day : Day) where
  -- What the minutes of a list contribute.
  abbrev FromMinutes : List ℕ → InsertSlot → Type 0
  FromMinutes minutes slot =
      (m : ℕ) × Memᴰ m minutes
      × (overlaps from to slot ≡ true)
      × (allows p day m ≡ true)
      × (slot ≡ slot_of p index day m)

  later_minute :
      (x : ℕ) (xs : List ℕ) (slot : InsertSlot) → FromMinutes xs slot → FromMinutes (x ∷ xs) slot
  later_minute x xs slot (m, h, o, a, e) = (m, Memᴰ.tail h, o, a, e)

  Mem-day_slots :
      (minutes : List ℕ) (slot : InsertSlot)
      → Memᴰ slot (day_slots from to p index day minutes)
      → FromMinutes minutes slot
  unfolding day_slots
  Mem-day_slots [] slot h = absurd (Memᴰ.not-nil h)
  Mem-day_slots (x ∷ xs) slot h =
      go (overlaps from to (slot_of p index day x)) (allows p day x) refl refl h
        (λ g. Mem-day_slots xs slot g)
    where
      first :
          overlaps from to (slot_of p index day x) ≡ true
          → allows p day x ≡ true
          → (slot ≡ slot_of p index day x) ⊎ Memᴰ slot (day_slots from to p index day xs)
          → (Memᴰ slot (day_slots from to p index day xs) → FromMinutes xs slot)
          → FromMinutes (x ∷ xs) slot
      first o a (inl e) later =
          (x, Memᴰ.head refl, subst (λ (s : InsertSlot). overlaps from to s ≡ true) (sym e) o, a, e)
      first o a (inr g) later = later_minute x xs slot (later g)

      go :
          (seen allowed : Bool)
          → overlaps from to (slot_of p index day x) ≡ seen
          → allows p day x ≡ allowed
          → Memᴰ slot (
              if seen && allowed
              then slot_of p index day x ∷ day_slots from to p index day xs
              else day_slots from to p index day xs)
          → (Memᴰ slot (day_slots from to p index day xs) → FromMinutes xs slot)
          → FromMinutes (x ∷ xs) slot
      go true true o a g later = first o a (Memᴰ.cases_cons g) later
      go true false o a g later = later_minute x xs slot (later g)
      go false _ o a g later = later_minute x xs slot (later g)

  day_slots-head :
      (x : ℕ) (xs : List ℕ)
      → overlaps from to (slot_of p index day x) ≡ true
      → allows p day x ≡ true
      → Memᴰ (slot_of p index day x) (day_slots from to p index day (x ∷ xs))
  unfolding day_slots
  day_slots-head x xs o a = go (overlaps from to (slot_of p index day x)) (allows p day x) o a
    where
      go :
          (seen allowed : Bool)
          → seen ≡ true
          → allowed ≡ true
          → Memᴰ (slot_of p index day x) (
              if seen && allowed
              then slot_of p index day x ∷ day_slots from to p index day xs
              else day_slots from to p index day xs)
      go true true f g = Memᴰ.head refl
      go true false f g = cc
      go false _ f g = cc

  day_slots-Mem :
      (minutes : List ℕ) (m : ℕ)
      → Memᴰ m minutes
      → overlaps from to (slot_of p index day m) ≡ true
      → allows p day m ≡ true
      → Memᴰ (slot_of p index day m) (day_slots from to p index day minutes)
  unfolding day_slots
  day_slots-Mem [] m h o a = absurd (Memᴰ.not-nil h)
  day_slots-Mem (x ∷ xs) m (Memᴰ.tail h) o a =
      if-both (Memᴰ (slot_of p index day m))
        (overlaps from to (slot_of p index day x) && allows p day x)
        (Memᴰ.tail (day_slots-Mem xs m h o a)) (day_slots-Mem xs m h o a)
  day_slots-Mem (x ∷ xs) m (Memᴰ.head e) o a =
      subst (λ y. Memᴰ (slot_of p index day y) (day_slots from to p index day (x ∷ xs))) (sym e)
        (day_slots-head x xs (subst (λ y. overlaps from to (slot_of p index day y) ≡ true) e o)
          (subst (λ y. allows p day y ≡ true) e a))

module _ (c : Calendar) (from to : ℕ) (p : PageInsert) (index : ℕ) where
  -- The loop over the days by their numbers.
  unfoldable slots_of_days : ℕ → ℕ → List InsertSlot
  slots_of_days zero n = []
  slots_of_days (suc fuel) n =
      let later = slots_of_days fuel (n + 1) in
      if ltb (midnight c n) to
      then day_slots from to p index (c.day n) (slot_minutes p (c.day n).sun) ++ later
      else []

  -- The loop over the midnights is the one over the days.
  slots_from-slots_of_days :
      IsCalendar c
      → (fuel n : ℕ) → slots_from c from to p index fuel (midnight c n) ≡ slots_of_days fuel n
  unfolding slots_from slots_of_days
  slots_from-slots_of_days law zero n = refl
  slots_from-slots_of_days law (suc fuel) n =
      rw (law.3 n, law.4 n, slots_from-slots_of_days law fuel (n + 1)) refl

  -- What the days from `n` contribute.
  abbrev FromDays : ℕ → InsertSlot → Type 0
  FromDays n slot =
      (d : ℕ) × (n ≤ d) × IsRunOf p index (c.day d) slot × (overlaps from to slot ≡ true)

  Mem-slots_of_days :
      (fuel n : ℕ) (slot : InsertSlot) → Memᴰ slot (slots_of_days fuel n) → FromDays n slot
  unfolding slots_of_days
  Mem-slots_of_days zero n slot h = absurd (Memᴰ.not-nil h)
  Mem-slots_of_days (suc fuel) n slot h =
      go (ltb (midnight c n) to) h (λ g. Mem-slots_of_days fuel (n + 1) slot g)
    where
      today : List InsertSlot
      today = day_slots from to p index (c.day n) (slot_minutes p (c.day n).sun)

      later : List InsertSlot
      later = slots_of_days fuel (n + 1)

      first :
          Memᴰ slot today ⊎ Memᴰ slot later
          → (Memᴰ slot later → FromDays (n + 1) slot)
          → FromDays n slot
      first (inl g) rest =
          let (m, h', o, a, e) =
            Mem-day_slots from to p index (c.day n) (slot_minutes p (c.day n).sun) slot g in
          (n, omega arith, (m, h', a, e), o)
      first (inr g) rest = let (d, le, run, o) = rest g in (d, omega arith, run, o)

      go :
          (begins : Bool)
          → Memᴰ slot (if begins then today ++ later else [])
          → (Memᴰ slot later → FromDays (n + 1) slot)
          → FromDays n slot
      go true g rest = first (Memᴰ.append_cases today g) rest
      go false g rest = absurd (Memᴰ.not-nil g)

  slots_of_days-Mem :
      (fuel n d m : ℕ)
      → n ≤ d
      → d < n + fuel
      → ((e : ℕ) → e ≤ d → midnight c e < to)
      → Memᴰ m (slot_minutes p (c.day d).sun)
      → overlaps from to (slot_of p index (c.day d) m) ≡ true
      → allows p (c.day d) m ≡ true
      → Memᴰ (slot_of p index (c.day d) m) (slots_of_days fuel n)
  unfolding slots_of_days
  slots_of_days-Mem zero n d m le lt before h o a = absurd (omega arith)
  slots_of_days-Mem (suc fuel) n d m le lt before h o a =
      begun (ltb (midnight c n) to) ((ltb_iff (midnight c n) to).1 (before n le))
        (elim (Bool-cases (n == d)) [
          | inl same ↦
              subst (λ x. Memᴰ slot (today x ++ later)) (sym ((==_iff n d).0 same))
                (Memᴰ.append_left later (day_slots-Mem from to p index (c.day d) _ m h o a))
          | inr other ↦
              Memᴰ.append_right (today n)
                (slots_of_days-Mem fuel (n + 1) d m (ground arith) (omega arith) before h o a)
        ])
    where
      slot : InsertSlot
      slot = slot_of p index (c.day d) m

      today : ℕ → List InsertSlot
      today x = day_slots from to p index (c.day x) (slot_minutes p (c.day x).sun)

      later : List InsertSlot
      later = slots_of_days fuel (n + 1)

      begun :
          (begins : Bool)
          → begins ≡ true
          → Memᴰ slot (today n ++ later)
          → Memᴰ slot (if begins then today n ++ later else [])
      begun true e g = g
      begun false e g = cc

  -- The loop over the instants, in a calendar with midnights.
  first_loop :
      IsCalendar c
      → (fuel : ℕ)
      → slots_from c from to p index fuel (first_day c from)
        ≡ slots_of_days fuel (c.day_of from - 1)
  first_loop law fuel =
      ap (slots_from c from to p index fuel) (law.5 (c.day_of from))
      ∙ slots_from-slots_of_days law fuel (c.day_of from - 1)

  pub Mem-slots_from :
      IsCalendar c
      → (fuel : ℕ) (slot : InsertSlot)
      → Memᴰ slot (slots_from c from to p index fuel (first_day c from))
      → FromDays (c.day_of from - 1) slot
  Mem-slots_from law fuel slot h =
      Mem-slots_of_days fuel (c.day_of from - 1) slot (subst (Memᴰ slot) (first_loop law fuel) h)

  pub slots_from-Mem :
      IsCalendar c
      → (fuel d m : ℕ) → c.day_of from - 1 ≤ d
      → d < c.day_of from - 1 + fuel
      → ((e : ℕ) → e ≤ d → midnight c e < to)
      → Memᴰ m (slot_minutes p (c.day d).sun)
      → overlaps from to (slot_of p index (c.day d) m) ≡ true
      → allows p (c.day d) m ≡ true
      → Memᴰ (slot_of p index (c.day d) m) (slots_from c from to p index fuel (first_day c from))
  slots_from-Mem law fuel d m le lt before h o a =
      subst (Memᴰ (slot_of p index (c.day d) m)) (sym (first_loop law fuel))
        (slots_of_days-Mem fuel (c.day_of from - 1) d m le lt before h o a)
