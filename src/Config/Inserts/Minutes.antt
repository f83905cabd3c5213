-- ===== src/Config/Inserts/Minutes.antt =====
-- The minutes of a day at which an insert starts: `slotMinutes` of internal/config/inserts.go.
use kiosk_mate.Common.{
  ℕ, zero, suc, ◌+◌, ◌*◌, ◌≤◌, ◌<◌, ◌≡◌, refl, sym, subst, Bool, true, false, Option, none, some,
  List, [], ◌∷◌, ◌==◌, ltb, leb, leb_iff, if◌then◌else◌, if-both, sort, compact, Mem-sort,
  Mem-compact, Memᴰ, All, ℤ, pos, negsuc, Text, arith,
}
use mathlib.Core.List.Memᴰ
use kiosk_mate.Config.Clock.{resolve_clock, insert_clock, sun_clock, sun_resolved, Sun}
use kiosk_mate.Config.Clock.Parse.{insert_clock-lt}
use kiosk_mate.Config.Kiosk.{PageInsert, Repeat, interval, hourly, times, other_repeat}
use kiosk_mate.Config.Inserts.{
  slot_minutes, steps, hours_from, resolved, interval_minutes, hourly_minutes,
}

All-Mem {ℓ κ} : {A : Type ℓ} (P : A → Type κ) (a : A) (xs : List A) → All P xs → Memᴰ a xs → P a
All-Mem P a [] h m = absurd (Memᴰ.not-nil m)
All-Mem P a (x ∷ xs) h (Memᴰ.head e) = subst P (sym e) h.0
All-Mem P a (x ∷ xs) h (Memᴰ.tail m) = All-Mem P a xs h.1 m

abbrev IsMinute : ℕ → Type 0
IsMinute m = m < 24 * 60

steps-All : (every fuel m : ℕ) → All IsMinute (steps every fuel m)
unfolding steps
steps-All every zero m = tt
steps-All every (suc fuel) m = ground (arith, steps-All every fuel (m + every))

hours_from-All : (minute n h : ℕ) → minute ≤ 59 → n + h ≤ 24 → All IsMinute (hours_from minute n h)
unfolding hours_from
hours_from-All minute zero h small fits = tt
hours_from-All minute (suc n) h small fits =
    (omega arith, hours_from-All minute n (h + 1) small (omega arith))

resolve_clock-IsMinute :
    (sun : Option (ℕ × ℕ)) (at : Text) (m : ℕ) → resolve_clock sun at ≡ some m → IsMinute m
unfolding resolve_clock
resolve_clock-IsMinute sun at m h = go (insert_clock at) (sun_clock at) (insert_clock-lt at) h
  where
    go :
        (clock : Option ℕ) (moved : Option (Sun × Bool × ℕ))
        → ((n : ℕ) → clock ≡ some n → n < 24 * 60)
        → (elim clock as (λ r. Option ℕ) [ some n ↦ some n | none ↦ sun_resolved sun moved ])
          ≡ some m
        → IsMinute m
    go (some n) moved small g = small m g
    go none (some (event, before, offset)) small g = ground arith
    go none none small g = cc

resolved-All : (sun : Option (ℕ × ℕ)) (texts : List Text) → All IsMinute (resolved sun texts)
unfolding resolved
resolved-All sun [] = tt
resolved-All sun (at ∷ texts) =
    go (resolve_clock sun at) (λ m h. resolve_clock-IsMinute sun at m h) (resolved-All sun texts)
  where
    go :
        (read : Option ℕ)
        → ((m : ℕ) → read ≡ some m → IsMinute m)
        → All IsMinute (resolved sun texts)
        → All IsMinute (elim read as (λ r. List ℕ) [
          | none ↦ resolved sun texts
          | some minute ↦ minute ∷ resolved sun texts
        ])
    go none small rest = rest
    go (some m) small rest = (small m refl, rest)

-- An insert starts at minutes of the day.
pub slot_minutes-IsMinute :
    (p : PageInsert) (sun : Option (ℕ × ℕ)) (m : ℕ) → Memᴰ m (slot_minutes p sun) → m < 24 * 60
unfolding slot_minutes interval_minutes hourly_minutes
slot_minutes-IsMinute p sun m h = go p.repeat h
  where
    at_interval : (every : ℤ) → Memᴰ m (interval_minutes every) → IsMinute m
    at_interval (pos every) g =
        All-Mem IsMinute m _ (if-both (All IsMinute) (every == 0) tt (steps-All every (24 * 60) 0))
          g
    at_interval (negsuc n) g = absurd (Memᴰ.not-nil g)

    at_hour : (minute : ℤ) → Memᴰ m (hourly_minutes minute) → IsMinute m
    at_hour (pos minute) g = hourly (leb minute 59) (λ e. (leb_iff minute 59).0 e) g
      where
        hourly :
            (small : Bool)
            → (small ≡ true → minute ≤ 59)
            → Memᴰ m (if small then hours_from minute 24 0 else [])
            → IsMinute m
        hourly true e f = All-Mem IsMinute m _ (hours_from-All minute 24 0 (e refl) (omega arith)) f
        hourly false e f = absurd (Memᴰ.not-nil f)
    at_hour (negsuc n) g = absurd (Memᴰ.not-nil g)

    go :
        (repeat : Repeat)
        → Memᴰ m (elim repeat as (λ r. List ℕ) [
          | interval ↦ interval_minutes p.every_minutes
          | hourly ↦ hourly_minutes p.minute
          | times ↦ compact (sort ltb (resolved sun p.times))
          | other_repeat ↦ []
        ])
        → IsMinute m
    go interval g = at_interval p.every_minutes g
    go hourly g = at_hour p.minute g
    go times g =
        All-Mem IsMinute m _ (resolved-All sun p.times)
          (Mem-sort ltb m (resolved sun p.times) (Mem-compact m _ g))
    go other_repeat g = absurd (Memᴰ.not-nil g)
