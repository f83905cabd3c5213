-- ===== src/Supervisor/Schedule/Program.antt =====
-- The scheduler with the configured inserts: what `schedulerTarget` and `applyInserts` of
-- internal/supervisor/browser.go ask of internal/config/inserts.go.
use kiosk_mate.Common.{
  ℕ, ◌≡◌, refl, sym, ap, subst, ◌∙◌, Bool, true, false, Option, none, some, [], Text, ℤ, pos,
  negsuc, trim_space, if◌then◌else◌,
}
use kiosk_mate.Config.Kiosk.{KioskConfig, PageInsert}
use kiosk_mate.Config.Pages.{is_empty, enabled_page_index}
use kiosk_mate.Config.Inserts.{Calendar, InsertSlot}
use kiosk_mate.Config.Inserts.Calendars.{IsCalendar}
use kiosk_mate.Config.Inserts.Conditions.{inserts_where}
use kiosk_mate.Config.Inserts.Conditional.{IsMet, active_insert-IsMet}
use kiosk_mate.Config.Inserts.Program.{active_insert, next_insert_change}
use kiosk_mate.Config.Inserts.Winner.{IsOnScreen, active_insert-IsOnScreen}
use kiosk_mate.Supervisor.Schedule.{SchedulerStatus, Scheduler, by_insert}
use kiosk_mate.Supervisor.Schedule.Target.{
  InsertProgram, Target, is_nil, apply_inserts, after_insert, note_change, page_of,
  schedule_wants_display_off,
}

-- `firstNonEmpty` of an insert's name and id.
abbrev pub insert_name : PageInsert → Text
insert_name p =
    if is_empty (trim_space p.name)
    then (if is_empty (trim_space p.id) then [] else p.id)
    else p.name

abbrev pub due_of : Option InsertSlot → Option (Text × Text)
due_of none = none
due_of (some slot) = some (insert_name slot.insert, slot.insert.page_id)

unfoldable pub insert_program : KioskConfig → Calendar → ℕ → InsertProgram
insert_program k c now = record {
  next_change = next_insert_change k c now;
  due = due_of (active_insert k c now);
}

-- The insert on screen has this page.
abbrev ShowsPage : KioskConfig → Calendar → ℕ → ℤ → Type 0
ShowsPage k c now page =
    (s : InsertSlot) × (active_insert k c now ≡ some s)
    × (page ≡ enabled_page_index k s.insert.page_id)

due-page :
    (k : KioskConfig) (c : Calendar) (now : ℕ) (name : Text) (page : ℕ)
    → page_of k (due_of (active_insert k c now)) ≡ some (name, page)
    → ShowsPage k c now (pos page)
due-page k c now name page h = go (active_insert k c now) refl h
  where
    page_in : Option (Text × ℕ) → ℤ
    page_in none = pos 0
    page_in (some (other, n)) = pos n

    go :
        (slot : Option InsertSlot)
        → active_insert k c now ≡ slot
        → page_of k (due_of slot) ≡ some (name, page)
        → ShowsPage k c now (pos page)
    go none e g = cc
    go (some s) e g = (s, e, at (enabled_page_index k s.insert.page_id) g)
      where
        at :
            (i : ℤ)
            → (elim i as (λ x. Option (Text × ℕ)) [
              | pos n ↦ some (insert_name s.insert, n)
              | negsuc n ↦ none
            ])
              ≡ some (name, page)
            → pos page ≡ i
        at (pos n) f = ap page_in (sym f)
        at (negsuc n) f = cc

-- An answer that shows an insert shows the page of the insert that is due.
abbrev ShowsDue : KioskConfig → InsertProgram → ℤ → SchedulerStatus → ℤ → Type 0
ShowsDue k program target status page =
    (name : Text) × (n : ℕ) × (page_of k program.due ≡ some (name, n))
    × (page ≡ pos n)
    × (schedule_wants_display_off k target (note_change program status) ≡ false)

apply_inserts-ShowsDue :
    (k : KioskConfig) (program : InsertProgram) (target : ℤ) (status : SchedulerStatus)
    (b : Scheduler)
    → (apply_inserts k program (target, status) b).1.insert_showing ≡ true
    → ShowsDue k program target status (apply_inserts k program (target, status) b).0.0
unfolding apply_inserts
apply_inserts-ShowsDue k program target status b h =
    go (is_nil k.inserts) (schedule_wants_display_off k target status') (page_of k program.due) refl
      refl h
  where
    status' : SchedulerStatus
    status' = note_change program status

    base : Target × Scheduler
    base = ((after_insert k target status' b, status'), record b { insert_showing = false })

    shown : Option (Text × ℕ) → Target × Scheduler
    shown none = base
    shown (some (name, page)) = (
      (pos page, record status' { reason = by_insert; active_insert = name }),
      record b {
        insert_showing = true;
        insert_return = if b.insert_showing then b.insert_return else b.active;
      },
    )

    go :
        (empty off : Bool) (page : Option (Text × ℕ))
        → schedule_wants_display_off k target status' ≡ off
        → page_of k program.due ≡ page
        → (if empty
            then ((target, status), record b { insert_showing = false })
            else if off
            then base
            else shown page).1.insert_showing
          ≡ true
        → ShowsDue k program target status
            (if empty
              then ((target, status), record b { insert_showing = false })
              else if off
              then base
              else shown page).0.0
    go true off page o p g = cc
    go false true page o p g = cc
    go false false none o p g = cc
    go false false (some (name, n)) o p g = (name, n, p, refl, o)

-- If the scheduler's answer shows an insert, then the insert is the one on screen by the configuration,
-- its page is the one that is shown, its condition, if it has one, holds, and the schedule does not want
-- the display off, in a calendar whose days each have a midnight, are in order and last at least an hour.
pub apply_inserts-shows :
    (k : KioskConfig) (c : Calendar) (lookup : Text → Option Text) (now : ℕ) (target : ℤ)
    (status : SchedulerStatus) (b : Scheduler)
    → IsCalendar c
    → (apply_inserts
        (inserts_where lookup k)
        (insert_program (inserts_where lookup k) c now)
        (target, status)
        b).1.insert_showing
      ≡ true
    → (s : InsertSlot) × IsOnScreen (inserts_where lookup k) c now (some s)
      × ((apply_inserts
            (inserts_where lookup k)
            (insert_program (inserts_where lookup k) c now)
            (target, status)
            b).0.0
          ≡ enabled_page_index (inserts_where lookup k) s.insert.page_id)
      × IsMet lookup s.insert
      × (schedule_wants_display_off
            (inserts_where lookup k)
            target
            (note_change (insert_program (inserts_where lookup k) c now) status)
          ≡ false)
unfolding insert_program
apply_inserts-shows k c lookup now target status b law h =
    let k' = inserts_where lookup k in
    let (name, n, due, page, on) =
      apply_inserts-ShowsDue k' (insert_program k' c now) target status b h in
    let (s, active, shown) = due-page k' c now name n due in
    (
      s,
      subst (λ x. IsOnScreen k' c now x) active (active_insert-IsOnScreen k' c now law),
      page ∙ shown,
      active_insert-IsMet k c lookup now s law active,
      on,
    )
