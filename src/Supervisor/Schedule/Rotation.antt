-- ===== src/Supervisor/Schedule/Rotation.antt =====
-- The rotation's position: `rotationTarget` of internal/supervisor/browser.go.
use kiosk_mate.Common.{
  ℕ, zero, suc, ◌+◌, ◌%◌, ◌≤◌, ◌<◌, ◌≡◌, refl, ◌⊎◌, inl, inr, Bool, true, false, Option, none, some,
  List, [], ◌∷◌, ◌==◌, leb, sym, subst, ap₂, ◌∙◌, dec_lt, ◌*◌, if◌then◌else◌, length, get_elem?,
  minus_one, arith,
}
use native.Mathlib.Nat.{mod_self, mod-eq_of_lt}
use kiosk_mate.Config.Kiosk.{KioskConfig, RotationItem}
use kiosk_mate.Config.Pages.{page_count}
use kiosk_mate.Supervisor.Schedule.{SchedulerStatus, Scheduler, clamp_page, no_rotation_items}
use kiosk_mate.Supervisor.Schedule.Target.{Target, rotation_target, show_item, advance, is_nil}

pub mod-lt : (a n : ℕ) → 0 < n → a % n < n
mod-lt a n h = omega arith

pub get_elem?-some :
    {A : Type 0} (xs : List A) (i : ℕ) → i < length xs → (x : A) × (get_elem? xs i ≡ some x)
get_elem?-some {A} [] i h = let impossible : ⊥ = omega arith in elim impossible [ ]
get_elem?-some {A} (x ∷ xs) zero h = (x, refl)
get_elem?-some {A} (x ∷ xs) (suc i) h = get_elem?-some xs i (omega arith)

-- The answer shows the item at its own index, until a time after `now` that is also the next switch.
abbrev pub Shows : KioskConfig → ℕ → Option (Target × Scheduler) → Type 0
Shows k now none = ⊥
Shows k now (some ((page, status), b)) =
    (item : RotationItem) × (get_elem? k.rotation b.rotation_index ≡ some item)
    × (page ≡ clamp_page item.page (page_count k))
    × (now < b.rotation_until)
    × (status.next_switch ≡ some b.rotation_until)

show_item-Shows :
    (k : KioskConfig) (now : ℕ) (status : SchedulerStatus) (b : Scheduler) (fresh : Bool)
    → b.rotation_index < length k.rotation
    → (fresh ≡ true) ⊎ (now < b.rotation_until)
    → Shows k now
        (show_item k now b.rotation_index status b fresh (get_elem? k.rotation b.rotation_index))
show_item-Shows k now status b fresh h t =
    let (item, e) = get_elem?-some k.rotation b.rotation_index h in
    subst (λ o. Shows k now (show_item k now b.rotation_index status b fresh o)) (sym e)
      (item, e, refl, ground arith, refl)

is_nil-false : {A : Type 0} (xs : List A) → 0 < length xs → is_nil xs ≡ false
is_nil-false {A} [] h = let impossible : ⊥ = omega arith in elim impossible [ ]
is_nil-false {A} (x ∷ xs) h = refl

advance_lem :
    (n now : ℕ) (b : Scheduler)
    → 0 < n
    → b.rotation_until ≤ now ⊎ b.rotation_index < n
    → ((advance n now b).0 < n) × (((advance n now b).2 ≡ true) ⊎ (now < b.rotation_until))
advance_lem n now b h placed = (ground (arith, mod-lt (b.rotation_index + 1) n h), ground arith)

-- While there are rotation items, and the shown item's time is over (or none was shown) or the index is
-- one of an item, the rotation shows the item at the index that it keeps: the page is that item's, the
-- index is in range, so that there is no panic, and the item's time ends later than `now`, at the next
-- switch.
pub rotation_target-Shows :
    (k : KioskConfig) (now : ℕ) (status : SchedulerStatus) (b : Scheduler)
    → 0 < length k.rotation
    → b.rotation_until ≤ now ⊎ b.rotation_index < length k.rotation
    → Shows k now (rotation_target k now status b)
unfolding rotation_target
rotation_target-Shows k now status b h placed =
    let (index, cycles, fresh) = advance (length k.rotation) now b in
    let b' : Scheduler = record b { rotation_index = index; rotation_cycles = cycles } in
    subst
      (λ c. Shows k now (
        if c
        then some ((minus_one, record status { reason = no_rotation_items }), b)
        else show_item k now index status b' fresh (get_elem? k.rotation index)))
      (sym (is_nil-false k.rotation h))
      (show_item-Shows k now status b' fresh ((advance_lem (length k.rotation) now b h placed).0)
        ((advance_lem (length k.rotation) now b h placed).1))

mod_small : (a n : ℕ) → a < n → a % n ≡ a
mod_small a n h = mod-eq_of_lt h

next_place :
    (n i c m : ℕ)
    → i < n
    → i + c * n ≡ m
    → (i + 1) % n + (if (i + 1) % n == 0 then c + 1 else c) * n ≡ m + 1
next_place n i c m h e = go ((i + 1) % n) (elim (dec_lt (i + 1) n) [
  | yes lt ↦ inl (mod_small (i + 1) n lt, lt)
  | no ge ↦
      let full : i + 1 ≡ n = omega arith in
      inr (subst (λ k. k % n ≡ 0) (sym full) (mod_self n), full)
])
  where
    go :
        (r : ℕ)
        → ((r ≡ i + 1) × (i + 1 < n)) ⊎ ((r ≡ 0) × (i + 1 ≡ n))
        → r + (if r == 0 then c + 1 else c) * n ≡ m + 1
    go zero p = grind arith
    go (suc r) p = ground arith

abbrev Places : ℕ → ℕ → Option (Target × Scheduler) → Type 0
Places index cycles none = Unit
Places index cycles (some (target, b)) = (b.rotation_index ≡ index) × (b.rotation_cycles ≡ cycles)

rotation_target-Places :
    (k : KioskConfig) (now : ℕ) (status : SchedulerStatus) (b : Scheduler)
    → 0 < length k.rotation
    → Places
        ((advance (length k.rotation) now b).0)
        ((advance (length k.rotation) now b).1)
        (rotation_target k now status b)
unfolding rotation_target
rotation_target-Places k now status b h =
    let (index, cycles, fresh) = advance (length k.rotation) now b in
    let b' : Scheduler = record b { rotation_index = index; rotation_cycles = cycles } in
    ground (arith, is_nil-false k.rotation h)

-- The scheduler after the rotation was asked at a fresh place and then found its item's time over `m`
-- times. Between the calls of the rotation, other steps may change all but its three fields.
pub data Rotated (k : KioskConfig) : ℕ → Scheduler → Type 0 where
  begins :
      (now : ℕ) (status : SchedulerStatus) (target : Target) (b b' : Scheduler)
      → b.rotation_until ≡ 0
      → b.rotation_cycles ≡ 0
      → rotation_target k now status b ≡ some (target, b')
      → Rotated k 0 b'
  stays :
      (m now : ℕ) (status : SchedulerStatus) (target : Target) (b b' : Scheduler)
      → Rotated k m b
      → now < b.rotation_until
      → rotation_target k now status b ≡ some (target, b')
      → Rotated k m b'
  turns :
      (m now : ℕ) (status : SchedulerStatus) (target : Target) (b b' : Scheduler)
      → Rotated k m b
      → b.rotation_until ≤ now
      → rotation_target k now status b ≡ some (target, b')
      → Rotated k (m + 1) b'
  rests :
      (m : ℕ) (b b' : Scheduler)
      → Rotated k m b
      → b'.rotation_index ≡ b.rotation_index
      → b'.rotation_cycles ≡ b.rotation_cycles
      → b'.rotation_until ≡ b.rotation_until
      → Rotated k m b'

abbrev IsTurned : KioskConfig → ℕ → Scheduler → Type 0
IsTurned k m b =
    (b.rotation_index < length k.rotation)
    × (0 < b.rotation_until)
    × (b.rotation_index + b.rotation_cycles * length k.rotation ≡ m)

-- The answer's place is that of `advance`.
asked :
    (k : KioskConfig) (now : ℕ) (status : SchedulerStatus) (b b' : Scheduler) (target : Target)
    → 0 < length k.rotation
    → b.rotation_until ≤ now ⊎ b.rotation_index < length k.rotation
    → rotation_target k now status b ≡ some (target, b')
    → (b'.rotation_index < length k.rotation)
      × (0 < b'.rotation_until)
      × (b'.rotation_index ≡ (advance (length k.rotation) now b).0)
      × (b'.rotation_cycles ≡ (advance (length k.rotation) now b).1)
asked k now status b b' target h placed r =
    let (item, e1, e2, later, e4) =
      subst (Shows k now) r (rotation_target-Shows k now status b h placed) in
    let (at, cycles) =
      subst (Places ((advance (length k.rotation) now b).0) ((advance (length k.rotation) now b).1))
        r (rotation_target-Places k now status b h) in
    (
      subst (λ j. j < length k.rotation) (sym at)
          ((advance_lem (length k.rotation) now b h placed).0),
      omega arith,
      at,
      cycles,
    )

turned :
    (k : KioskConfig) (m now : ℕ) (status : SchedulerStatus) (b b' : Scheduler) (target : Target)
    → 0 < length k.rotation
    → IsTurned k m b
    → rotation_target k now status b ≡ some (target, b')
    → IsTurned k (if leb b.rotation_until now then m + 1 else m) b'
turned k m now status b b' target h (i, u, e) r =
    let (below, later, at, cycles) = asked k now status b b' target h (inr i) r in
    (
      below,
      later,
      ap₂ (λ j c. j + c * length k.rotation) at cycles
          ∙ ground (arith, next_place (length k.rotation) b.rotation_index b.rotation_cycles m i e),
    )

-- While the configuration stays as it is and has rotation items, the rotation that was first asked at a
-- fresh place, and has then found its item's time over `m` times, shows item `m` modulo the number of
-- items and has counted the complete rounds: index + cycles * items = m, with the index below the number
-- of items. Asking before the time is out moves nothing, and between the questions anything may happen
-- that leaves the rotation's index, cycles and end as they are; a maintenance reload, which resets the
-- cycles, is not among it.
pub rotation_target-Rotated :
    (k : KioskConfig) (m : ℕ) (b : Scheduler)
    → 0 < length k.rotation
    → Rotated k m b
    → (b.rotation_index < length k.rotation)
      × (0 < b.rotation_until)
      × (b.rotation_index + b.rotation_cycles * length k.rotation ≡ m)
rotation_target-Rotated k m b h (begins now status target old _ fresh zero_cycles r) =
    let (below, later, at, cycles) = asked k now status old b target h (inl (omega arith)) r in
    (below, later, ground arith)
rotation_target-Rotated k m b h (stays m' now status target old _ rotated early r) =
    ground
      (arith, turned k m' now status old b target h (rotation_target-Rotated k m' old h rotated) r)
rotation_target-Rotated k m b h (turns m' now status target old _ rotated late r) =
    ground
      (arith, turned k m' now status old b target h (rotation_target-Rotated k m' old h rotated) r)
rotation_target-Rotated k m b h (rests _ old _ rotated at cycles until) =
    rw (at, cycles, until) (rotation_target-Rotated k m old h rotated)
