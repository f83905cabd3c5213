-- ===== src/Supervisor/Maintenance/Daily.antt =====
-- Reloads of one day.
use kiosk_mate.Common.{
  ℕ, ◌≤◌, ◌≡◌, refl, Bool, true, false, Option, none, some, List, [], ◌∷◌, if◌then◌else◌, pos,
  minus_one, sym, subst, arith, length,
}
use kiosk_mate.Config.Clock.{parse_clock}
use kiosk_mate.Supervisor.Maintenance.{
  Instant, KioskMaintenance, Upkeep, memory_growth_due, last_reload, maintenance_reload_due,
  note_reload,
}

-- The times at which a browser that is asked at these moments reloads.
unfoldable pub reloads : KioskMaintenance → Upkeep → List Instant → List Instant
reloads m b [] = []
reloads m b (now ∷ times) =
    let (b', due) = maintenance_reload_due now m b in
    let rest = reloads m b' times in if due then now ∷ rest else rest

-- Only the time of day is configured: no interval, no number of rotations, no growth of the memory.
abbrev pub IsDaily : KioskMaintenance → Type 0
IsDaily m =
    (m.reload_every_minutes ≡ pos 0)
    × (m.reload_after_cycles ≡ pos 0)
    × (m.reload_on_growth_percent ≡ minus_one)

-- The moments do not run backwards, and have the same instants of their day's minutes.
abbrev pub IsOneDay : (ℕ → ℕ) → ℕ → List Instant → Type 0
IsOneDay minutes now [] = Unit
IsOneDay minutes now (at ∷ times) =
    (now ≤ at.time) × (((m : ℕ) → at.at_minute m ≡ minutes m) × IsOneDay minutes at.time times)

-- The day's time of reload is not after the last one.
abbrev IsSpent : (ℕ → ℕ) → Option ℕ → Upkeep → Type 0
IsSpent minutes none b = Unit
IsSpent minutes (some at) b = minutes at ≤ last_reload b

move-IsSpent :
    (from to : ℕ → ℕ) (o : Option ℕ) (b : Upkeep)
    → ((m : ℕ) → from m ≡ to m)
    → IsSpent from o b
    → IsSpent to o b
move-IsSpent from to none b e s = tt
move-IsSpent from to (some at) b e s = subst (λ t. t ≤ last_reload b) (e at) s

due-IsSpent :
    (now : Instant) (m : KioskMaintenance) (b : Upkeep)
    → IsDaily m
    → (maintenance_reload_due now m b).1 ≡ true
    → IsSpent now.at_minute (parse_clock m.reload_at) (maintenance_reload_due now m b).0
unfolding maintenance_reload_due note_reload memory_growth_due
due-IsSpent now m b d h = ground arith

spent-ne-due :
    (now : Instant) (m : KioskMaintenance) (b : Upkeep)
    → IsDaily m
    → IsSpent now.at_minute (parse_clock m.reload_at) b
    → maintenance_reload_due now m b ≡ (b, false)
unfolding maintenance_reload_due memory_growth_due
spent-ne-due now m b d h = ground arith

abbrev after : KioskMaintenance → List Instant → Instant → Upkeep × Bool → List Instant
after m times now (b, due) = let rest = reloads m b times in if due then now ∷ rest else rest

spent_reloads :
    (m : KioskMaintenance) (b : Upkeep) (minutes : ℕ → ℕ) (start : ℕ) (times : List Instant)
    → IsDaily m
    → IsOneDay minutes start times
    → IsSpent minutes (parse_clock m.reload_at) b
    → reloads m b times ≡ []
unfolding reloads
spent_reloads m b minutes start [] d h s = refl
spent_reloads m b minutes start (now ∷ times) d (later, (same, rest)) s =
    let here =
      move-IsSpent minutes now.at_minute (parse_clock m.reload_at) b (λ i. sym (same i)) s in
    subst (λ r. after m times now r ≡ []) (sym (spent-ne-due now m b d here))
      (spent_reloads m b minutes now.time times d rest s)

-- With only a time of day configured (0, 0 and -1 for the rest), a browser that is asked at moments of
-- one day that do not run backwards reloads at most once.
pub reloads_once :
    (m : KioskMaintenance) (b : Upkeep) (minutes : ℕ → ℕ) (start : ℕ) (times : List Instant)
    → IsDaily m
    → IsOneDay minutes start times
    → length (reloads m b times) ≤ 1
unfolding reloads
reloads_once m b minutes start [] d h = omega arith
reloads_once m b minutes start (now ∷ times) d (later, (same, rest)) =
    go (maintenance_reload_due now m b) (due-IsSpent now m b d)
      (λ b'. reloads_once m b' minutes now.time times d rest)
  where
    go :
        (r : Upkeep × Bool)
        → (r.1 ≡ true → IsSpent now.at_minute (parse_clock m.reload_at) r.0)
        → ((b' : Upkeep) → length (reloads m b' times) ≤ 1)
        → length (after m times now r) ≤ 1
    go (b', false) s later = later b'
    go (b', true) s later =
        let spent = move-IsSpent now.at_minute minutes (parse_clock m.reload_at) b' same (s refl) in
        rw (spent_reloads m b' minutes now.time times d rest spent) (omega arith)
