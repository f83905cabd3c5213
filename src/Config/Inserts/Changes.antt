-- ===== src/Config/Inserts/Changes.antt =====
-- When the insert on screen changes next: `NextInsertChange` of internal/config/inserts.go.
use kiosk_mate.Common.{
  ℕ, ◌+◌, ◌*◌, ◌≤◌, ◌<◌, ◌≡◌, ◌⊎◌, inl, inr, refl, sym, subst, Bool, true, false, Option, none,
  some, List, [], ◌∷◌, Memᴰ, Bool-cases, dec_lt, arith,
}
use mathlib.Core.List.Memᴰ
use kiosk_mate.Supervisor.Window.{hour}
use kiosk_mate.Config.Kiosk.{KioskConfig}
use kiosk_mate.Config.Inserts.{Calendar, InsertSlot, overlaps, insert_slots}
use kiosk_mate.Config.Inserts.Calendars.{IsCalendar}
use kiosk_mate.Config.Inserts.Listed.{IsRun, insert_slots-Mem}
use kiosk_mate.Config.Inserts.Program.{
  is_running, active_insert, sooner_change, next_from, next_insert_change,
}
use kiosk_mate.Config.Inserts.Winner.{
  IsOnScreen, active_insert-IsOnScreen, insert_on, IsOnScreen-same,
}

-- No time after `now` at which something happens comes before the next change.
abbrev pub EdgeAhead : ℕ → ℕ → Option ℕ → Type 0
EdgeAhead now at none = at ≤ now
EdgeAhead now at (some next) = now < at → next ≤ at

abbrev Below : Option ℕ → Option ℕ → Type 0
Below none result = Unit
Below (some a) none = ⊥
Below (some a) (some r) = r ≤ a

module _ (now : ℕ) where
  Below-refl : (x : Option ℕ) → Below x x
  Below-refl none = tt
  Below-refl (some a) = omega arith

  Below-trans : (x y z : Option ℕ) → Below x y → Below y z → Below x z
  Below-trans none y z h g = tt
  Below-trans (some a) none z h g = absurd h
  Below-trans (some a) (some b) none h g = absurd g
  Below-trans (some a) (some b) (some d) h g = omega (arith, h, g)

  EdgeAhead-Below : (at : ℕ) (x y : Option ℕ) → EdgeAhead now at x → Below x y → EdgeAhead now at y
  EdgeAhead-Below at none none h g = h
  EdgeAhead-Below at none (some r) h g = λ f. omega (arith, h, f)
  EdgeAhead-Below at (some a) none h g = absurd g
  EdgeAhead-Below at (some a) (some r) h g = λ f. chain (h f) g
    where
      chain : a ≤ at → r ≤ a → r ≤ at
      chain p q = omega (arith, p, q)

  sooner_change-Below : (at : ℕ) (x : Option ℕ) → Below x (sooner_change now at x)
  sooner_change-Below at none = tt
  sooner_change-Below at (some a) = ground arith

  sooner_change-EdgeAhead : (at : ℕ) (x : Option ℕ) → EdgeAhead now at (sooner_change now at x)
  sooner_change-EdgeAhead at none = ground arith
  sooner_change-EdgeAhead at (some a) = ground arith

  -- The change is the one so far, or the start or the end of a run after `now`.
  abbrev IsEdge : List InsertSlot → Option ℕ → ℕ → Type 0
  IsEdge slots acc r =
      (acc ≡ some r) ⊎ ((t : InsertSlot) × Memᴰ t slots × (now < r) × ((r ≡ t.start) ⊎ (r ≡ t.end)))

  sooner_change-origin :
      (at r : ℕ) (x : Option ℕ)
      → sooner_change now at x ≡ some r
      → (x ≡ some r) ⊎ ((now < r) × (r ≡ at))
  sooner_change-origin at r none h = ground arith
  sooner_change-origin at r (some a) h = ground arith

  next_from-IsEdge :
      (slots : List InsertSlot) (acc : Option ℕ) (r : ℕ)
      → next_from now slots acc ≡ some r
      → IsEdge slots acc r
  unfolding next_from
  next_from-IsEdge [] acc r h = inl h
  next_from-IsEdge (t ∷ slots) acc r h = go (next_from-IsEdge slots _ r h)
    where
      first : Option ℕ
      first = sooner_change now t.start acc

      go : IsEdge slots (sooner_change now t.end first) r → IsEdge (t ∷ slots) acc r
      go (inr (u, m, g, e)) = inr (u, Memᴰ.tail m, g, e)
      go (inl e) = at_end (sooner_change-origin t.end r first e)
        where
          at_start : (acc ≡ some r) ⊎ ((now < r) × (r ≡ t.start)) → IsEdge (t ∷ slots) acc r
          at_start (inl f) = inl f
          at_start (inr (g, f)) = inr (t, Memᴰ.head refl, g, inl f)

          at_end : (first ≡ some r) ⊎ ((now < r) × (r ≡ t.end)) → IsEdge (t ∷ slots) acc r
          at_end (inl f) = at_start (sooner_change-origin t.start r acc f)
          at_end (inr (g, f)) = inr (t, Memᴰ.head refl, g, inr f)

  abbrev BothAhead : InsertSlot → Option ℕ → Type 0
  BothAhead t result = EdgeAhead now t.start result × EdgeAhead now t.end result

  next_from-Below : (slots : List InsertSlot) (acc : Option ℕ) → Below acc (next_from now slots acc)
  unfolding next_from
  next_from-Below [] acc = Below-refl acc
  next_from-Below (t ∷ slots) acc =
      let first = sooner_change now t.start acc in
      let second = sooner_change now t.end first in
      Below-trans acc first _ (sooner_change-Below t.start acc) (
        Below-trans first second _ (sooner_change-Below t.end first) (next_from-Below slots second))

  next_from-BothAhead :
      (slots : List InsertSlot) (acc : Option ℕ) (t : InsertSlot)
      → Memᴰ t slots
      → BothAhead t (next_from now slots acc)
  unfolding next_from
  next_from-BothAhead [] acc t m = absurd (Memᴰ.not-nil m)
  next_from-BothAhead (x ∷ slots) acc t (Memᴰ.tail m) = next_from-BothAhead slots _ t m
  next_from-BothAhead (x ∷ slots) acc t (Memᴰ.head e) =
      let first = sooner_change now x.start acc in
      let second = sooner_change now x.end first in
      let rest = next_from-Below slots second in
      subst (λ (y : InsertSlot). BothAhead y (next_from now slots second)) (sym e)
        (
          EdgeAhead-Below x.start first _ (sooner_change-EdgeAhead x.start acc)
              (Below-trans first second _ (sooner_change-Below x.end first) rest),
          EdgeAhead-Below x.end second _ (sooner_change-EdgeAhead x.end first) rest,
        )

-- Before the next change, and within two days.
abbrev pub IsBefore : ℕ → ℕ → Option ℕ → Type 0
IsBefore now t none = t < now + 48 * hour
IsBefore now t (some next) = (t < now + 48 * hour) × (t < next)

-- Until the next change, a run that is seen runs then exactly if it runs now.
running_then :
    (now t : ℕ) (next : Option ℕ) (s : InsertSlot)
    → now ≤ t
    → IsBefore now t next
    → BothAhead now s next
    → is_running t s ≡ true
    → is_running now s ≡ true
running_then now t none s le before (h, g) r = ground arith
running_then now t (some next) s le before (h, g) r = ground arith

running_now :
    (now t : ℕ) (next : Option ℕ) (s : InsertSlot)
    → now ≤ t
    → IsBefore now t next
    → BothAhead now s next
    → is_running now s ≡ true
    → is_running t s ≡ true
running_now now t none s le before (h, g) r = ground arith
running_now now t (some next) s le before (h, g) r = ground arith

seen_now :
    (now t : ℕ) (next : Option ℕ) (s : InsertSlot)
    → now ≤ t
    → IsBefore now t next
    → is_running t s ≡ true
    → overlaps now (now + 48 * hour) s ≡ true
seen_now now t none s le before r = ground arith
seen_now now t (some next) s le before r = ground arith

-- What is on screen now is still on screen at a time until which every run keeps on running or not.
IsOnScreen-later :
    (k : KioskConfig) (c : Calendar) (now t : ℕ) (x : Option InsertSlot)
    → ((s : InsertSlot) → IsRun k c s → is_running t s ≡ true → is_running now s ≡ true)
    → ((s : InsertSlot) → IsRun k c s → is_running now s ≡ true → is_running t s ≡ true)
    → IsOnScreen k c now x
    → IsOnScreen k c t x
IsOnScreen-later k c now t none f g h = λ s run. elim (Bool-cases (is_running t s)) [
  | inl r ↦ absurd (clash (f s run r) (h s run))
  | inr r ↦ r
]
  where
    clash : {b : Bool} → b ≡ true → b ≡ false → ⊥
    clash p q = cc
IsOnScreen-later k c now t (some s) f g (run, r, l) =
    (run, g s run r, λ u ru ht. l u ru (f u ru ht))

-- From an instant until the next change that is announced at it, and for at most two days, the insert on
-- screen stays the same, in a calendar whose days each have a midnight, are in order and last at least an hour.
pub next_insert_change-stable :
    (k : KioskConfig) (c : Calendar) (now t : ℕ)
    → IsCalendar c
    → now ≤ t
    → IsBefore now t (next_insert_change k c now)
    → insert_on (active_insert k c t) ≡ insert_on (active_insert k c now)
unfolding next_insert_change
next_insert_change-stable k c now t law le before =
    IsOnScreen-same k c t (active_insert k c t) (active_insert k c now)
      (active_insert-IsOnScreen k c t law)
      (IsOnScreen-later k c now t (active_insert k c now) backward forward
        (active_insert-IsOnScreen k c now law))
  where
    next : Option ℕ
    next = next_from now (insert_slots k c now (now + 48 * hour)) none

    ahead :
        (s : InsertSlot)
        → IsRun k c s
        → overlaps now (now + 48 * hour) s ≡ true
        → BothAhead now s next
    ahead s run o =
        next_from-BothAhead now (insert_slots k c now (now + 48 * hour)) none s
          ((insert_slots-Mem k c now (now + 48 * hour) s law (omega arith)).1 (run, o))

    backward : (s : InsertSlot) → IsRun k c s → is_running t s ≡ true → is_running now s ≡ true
    backward s run r =
        running_then now t next s le before (ahead s run (seen_now now t next s le before r)) r

    forward : (s : InsertSlot) → IsRun k c s → is_running now s ≡ true → is_running t s ≡ true
    forward s run r = running_now now t next s le before (ahead s run (seen now r)) r
      where
        seen : (n : ℕ) → is_running n s ≡ true → overlaps n (n + 48 * hour) s ≡ true
        seen n h = ground arith

-- The edge `at` is over at `now`, or `next` comes no later.
abbrev pub IsPastOr : ℕ → ℕ → ℕ → Type 0
IsPastOr now next at = (at ≤ now) ⊎ (next ≤ at)

EdgeAhead-IsPastOr : (now at next : ℕ) → EdgeAhead now at (some next) → IsPastOr now next at
EdgeAhead-IsPastOr now at next h = elim (dec_lt now at) [
  | yes lt ↦ inr (h lt)
  | no ge ↦ inl (omega (arith, ge))
]

-- The next change that is announced at an instant is the next one: it comes after the instant, is the start
-- or the end of a run of an enabled insert, and no run that shows within the two days that follow starts or
-- ends between the instant and it, in a calendar whose days each have a midnight, are in order and last at
-- least an hour.
pub next_insert_change-IsEdge :
    (k : KioskConfig) (c : Calendar) (now next : ℕ) (t : InsertSlot)
    → IsCalendar c
    → next_insert_change k c now ≡ some next
    → IsRun k c t
    → overlaps now (now + 48 * hour) t ≡ true
    → ((s : InsertSlot) × IsRun k c s × (now < next) × ((next ≡ s.start) ⊎ (next ≡ s.end)))
      × IsPastOr now next t.start
      × IsPastOr now next t.end
unfolding next_insert_change
next_insert_change-IsEdge k c now next t law h run o =
    let (starts, ends) = subst (BothAhead now t) h ahead in
    (
      go (next_from-IsEdge now slots none next h),
      EdgeAhead-IsPastOr now t.start next starts,
      EdgeAhead-IsPastOr now t.end next ends,
    )
  where
    slots : List InsertSlot
    slots = insert_slots k c now (now + 48 * hour)

    ahead : BothAhead now t (next_from now slots none)
    ahead =
        next_from-BothAhead now slots none t
          ((insert_slots-Mem k c now (now + 48 * hour) t law (omega arith)).1 (run, o))

    go :
        IsEdge now slots none next
        → (s : InsertSlot) × IsRun k c s × (now < next) × ((next ≡ s.start) ⊎ (next ≡ s.end))
    go (inl e) = cc
    go (inr (s, m, lt, e)) =
        (s, ((insert_slots-Mem k c now (now + 48 * hour) s law (omega arith)).0 m).0, lt, e)
