-- ===== src/Config/Inserts/Listed.antt =====
-- Which runs `InsertSlots` of internal/config/inserts.go lists.
use kiosk_mate.Common.{
  ℕ, zero, suc, ◌+◌, ◌<◌, ◌≡◌, ◌↔◌, ◌⊎◌, inl, inr, refl, sym, subst, Bool, true, false, some, List,
  [], ◌∷◌, ◌++◌, get_elem?, ltb, ltb_iff, if◌then◌else◌, if-both, sort, sort-Mem, Mem-sort, Memᴰ,
  arith,
}
use mathlib.Core.List.Memᴰ
use kiosk_mate.Config.Kiosk.{KioskConfig, PageInsert}
use kiosk_mate.Config.Inserts.{
  Calendar, InsertSlot, slot_of, overlaps, slots_from, day_fuel, first_day, is_scheduled, all_slots,
  comes_before, insert_slots,
}
use kiosk_mate.Config.Inserts.Minutes.{slot_minutes-IsMinute}
use kiosk_mate.Config.Inserts.Calendars.{IsCalendar, begins_before, not_earlier, not_later}
use kiosk_mate.Config.Inserts.Runs.{IsRunOf, overlaps-parts, Mem-slots_from, slots_from-Mem}

-- A slot is a run of a configured insert that is enabled, whose page is enabled, on any day.
abbrev pub IsRun : KioskConfig → Calendar → InsertSlot → Type 0
IsRun k c slot =
    (i : ℕ) × (p : PageInsert) × (n : ℕ) × (get_elem? k.inserts i ≡ some p)
    × (is_scheduled k p ≡ true)
    × IsRunOf p i (c.day n) slot

module _ (k : KioskConfig) (c : Calendar) (law : IsCalendar c) (from to : ℕ) where
  -- What the inserts from position `index` contribute.
  abbrev FromInserts : ℕ → List PageInsert → InsertSlot → Type 0
  FromInserts index inserts slot =
      (i : ℕ) × (p : PageInsert) × (n : ℕ) × (get_elem? inserts i ≡ some p)
      × (is_scheduled k p ≡ true)
      × IsRunOf p (index + i) (c.day n) slot
      × (overlaps from to slot ≡ true)

  Mem-all_slots :
      (index : ℕ) (inserts : List PageInsert) (slot : InsertSlot)
      → Memᴰ slot (all_slots k c from to index inserts)
      → FromInserts index inserts slot
  unfolding all_slots
  Mem-all_slots index [] slot h = absurd (Memᴰ.not-nil h)
  Mem-all_slots index (p ∷ inserts) slot h =
      go (is_scheduled k p) refl h (λ g. Mem-all_slots (index + 1) inserts slot g)
    where
      own : List InsertSlot
      own = slots_from c from to p index (day_fuel from to) (first_day c from)

      others : List InsertSlot
      others = all_slots k c from to (index + 1) inserts

      shift :
          (i d : ℕ) (q : PageInsert)
          → IsRunOf q (index + 1 + i) (c.day d) slot
          → IsRunOf q (index + suc i) (c.day d) slot
      shift i d q r =
          let same : index + 1 + i ≡ index + suc i = omega arith in
          subst (λ x. IsRunOf q x (c.day d) slot) same r

      behind : FromInserts (index + 1) inserts slot → FromInserts index (p ∷ inserts) slot
      behind (i, q, d, at, s, run, o) = (suc i, q, d, at, s, shift i d q run, o)

      here : is_scheduled k p ≡ true → Memᴰ slot own → FromInserts index (p ∷ inserts) slot
      here s g =
          let (d, le, run, o) = Mem-slots_from c from to p index law (day_fuel from to) slot g in
          let same : index ≡ index + 0 = omega arith in
          (zero, p, d, refl, s, subst (λ x. IsRunOf p x (c.day d) slot) same run, o)

      either :
          is_scheduled k p ≡ true
          → Memᴰ slot own ⊎ Memᴰ slot others
          → (Memᴰ slot others → FromInserts (index + 1) inserts slot)
          → FromInserts index (p ∷ inserts) slot
      either s (inl g) rest = here s g
      either s (inr g) rest = behind (rest g)

      go :
          (scheduled : Bool)
          → is_scheduled k p ≡ scheduled
          → Memᴰ slot (if scheduled then own ++ others else others)
          → (Memᴰ slot others → FromInserts (index + 1) inserts slot)
          → FromInserts index (p ∷ inserts) slot
      go true s g rest = either s (Memᴰ.append_cases own g) rest
      go false s g rest = behind (rest g)

  all_slots-Mem :
      (index i : ℕ) (inserts : List PageInsert) (p : PageInsert) (slot : InsertSlot)
      → get_elem? inserts i ≡ some p
      → is_scheduled k p ≡ true
      → Memᴰ slot (slots_from c from to p (index + i) (day_fuel from to) (first_day c from))
      → Memᴰ slot (all_slots k c from to index inserts)
  unfolding all_slots
  all_slots-Mem index i [] p slot at s h = cc
  all_slots-Mem index zero (q ∷ inserts) p slot at s h =
      let same : q ≡ p = cc in
      subst
        (λ (x : PageInsert).
          Memᴰ slot (if is_scheduled k x then slots x index ++ others else others))
        (sym same) (go (is_scheduled k p) s)
    where
      slots : PageInsert → ℕ → List InsertSlot
      slots x j = slots_from c from to x j (day_fuel from to) (first_day c from)

      others : List InsertSlot
      others = all_slots k c from to (index + 1) inserts

      go :
          (scheduled : Bool)
          → scheduled ≡ true
          → Memᴰ slot (if scheduled then slots p index ++ others else others)
      go true e =
          let same : index + 0 ≡ index = omega arith in
          Memᴰ.append_left others (subst (λ j. Memᴰ slot (slots p j)) same h)
      go false e = cc
  all_slots-Mem index (suc i) (q ∷ inserts) p slot at s h =
      let same : index + suc i ≡ index + 1 + i = omega arith in
      let rest = all_slots-Mem (index + 1) i inserts p slot at s (
        subst (λ j. Memᴰ slot (slots_from c from to p j (day_fuel from to) (first_day c from))) same
          h) in
      if-both (Memᴰ slot) (is_scheduled k q) (Memᴰ.append_right _ rest) rest

-- In a calendar whose days each have a midnight, are in order and last at least an hour, `InsertSlots` lists exactly the
-- runs of the enabled inserts with an enabled page that overlap the interval: those that start at a minute
-- of any day, however many days before, that the insert's days and window allow.
pub insert_slots-Mem :
    (k : KioskConfig) (c : Calendar) (from to : ℕ) (slot : InsertSlot)
    → IsCalendar c
    → from < to
    → Memᴰ slot (insert_slots k c from to) ↔ (IsRun k c slot × (overlaps from to slot ≡ true))
unfolding insert_slots
insert_slots-Mem k c from to slot law ordered =
    ordered_slots (ltb from to) ((ltb_iff from to).1 ordered)
  where
    listed : List InsertSlot
    listed = all_slots k c from to 0 k.inserts

    onward :
        FromInserts k c law from to 0 k.inserts slot
        → IsRun k c slot × (overlaps from to slot ≡ true)
    onward (i, p, d, at, s, run, o) =
        let same : 0 + i ≡ i = omega arith in
        ((i, p, d, at, s, subst (λ x. IsRunOf p x (c.day d) slot) same run), o)

    back : IsRun k c slot → overlaps from to slot ≡ true → Memᴰ slot listed
    back (i, p, d, at, s, (m, h, a, e)) o =
        let o' : overlaps from to (slot_of p i (c.day d) m) ≡ true =
          subst (λ (x : InsertSlot). overlaps from to x ≡ true) e o in
        let (ends, starts) = overlaps-parts from to (slot_of p i (c.day d) m) o' in
        let minute = slot_minutes-IsMinute p (c.day d).sun m h in
        let same : i ≡ 0 + i = omega arith in
        Memᴰ.cast e (
          all_slots-Mem k c law from to 0 i k.inserts p (slot_of p i (c.day d) m) at s (
            subst
              (λ j.
                Memᴰ (slot_of p i (c.day d) m)
                  (slots_from c from to p j (day_fuel from to) (first_day c from)))
              same
              (slots_from-Mem c from to p i law (day_fuel from to) d m
                (not_earlier c law from to p d m minute ends)
                (not_later c law from to p d m minute starts)
                (begins_before c law from to p d m minute starts) h o' a)))

    ordered_slots :
        (proper : Bool)
        → proper ≡ true
        → Memᴰ slot (if proper then sort comes_before listed else [])
          ↔ (IsRun k c slot × (overlaps from to slot ≡ true))
    ordered_slots true e = (
      λ h.
          onward
            (Mem-all_slots k c law from to 0 k.inserts slot (Mem-sort comes_before slot listed h)),
      λ (run, o). sort-Mem comes_before slot listed (back run o),
    )
    ordered_slots false e = cc
