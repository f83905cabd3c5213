-- ===== src/Supervisor/Schedule/Target.antt =====
-- `schedulerTarget`, `baseTarget`, `rotationTarget`, `applyPresence`, `applyInserts`,
-- `scheduleWantsDisplayOff` and `nextSchedulerWake` of internal/supervisor/browser.go. What the inserts
-- ask for at this moment (`ActiveInsert` and `NextInsertChange` of internal/config/inserts.go, after
-- `InsertsWhere`) is an argument, and so is the time of the last presence.
use kiosk_mate.Common.{
  ℕ, ◌+◌, ◌-◌, ◌*◌, ◌/◌, ◌%◌, Bool, true, false, not, ◌&&◌, ◌||◌, Option, none, some, List, [], ◌∷◌,
  ◌==◌, ltb, leb, if◌then◌else◌, length, get_elem?, Text, ℤ, pos, negsuc, minus_one,
}
use kiosk_mate.Supervisor.Window.{second, minute, hour}
use kiosk_mate.Config.Kiosk.{
  KioskConfig, Mode, unset, rotation, time, hybrid, other_mode, require, other_presence,
  PresenceConfig, RotationItem,
}
use kiosk_mate.Config.Pages.{page_count, enabled_page_index}
use kiosk_mate.Supervisor.Schedule.{
  Moment, Reason, no_reason, disabled, by_time, no_active_time_rule, by_rotation, no_rotation_items,
  unsupported_mode, manual_override, by_insert, unknown, present, absent, SchedulerStatus,
  ManualOverride, Scheduler, clamp_page, time_rule_target, schedule_page_wants_power_off,
}

pub record InsertProgram : Type 0 where
  pub next_change : Option ℕ
  -- The name, or the id, and the page of the insert that is due.
  pub due : Option (Text × Text)

abbrev pub Target : Type 0
Target = ℤ × SchedulerStatus

abbrev pub is_nil {ℓ} : {A : Type ℓ} → List A → Bool
is_nil [] = true
is_nil (x ∷ xs) = false

unfoldable pub schedule_wants_display_off : KioskConfig → ℤ → SchedulerStatus → Bool
schedule_wants_display_off k target status =
    let outside : Bool = elim k.scheduler_mode [
      | time ↦ true
      | hybrid ↦ schedule_page_wants_power_off k || is_nil k.rotation
      | _ ↦ false
    ] in
    let shown : Bool =
      elim status.reason [ by_time ↦ true | by_insert ↦ true | _ ↦ false ]
      && elim target [ pos n ↦ true | negsuc n ↦ false ] in
    let by_schedule =
      if not k.scheduler_enabled || is_nil k.time_rules
      then false
      else if shown
      then false
      else outside in
    if status.overridden || elim status.reason [ manual_override ↦ true | _ ↦ false ]
    then false
    else elim status.presence [
      | present ↦ false
      | absent ↦ elim k.presence.mode [ require ↦ true | other_presence ↦ by_schedule ]
      | unknown ↦ by_schedule
    ]

abbrev pub item_duration : RotationItem → ℕ
item_duration item = elim item.duration_seconds [
  | pos n ↦ if n == 0 then hour else n * second
  | negsuc n ↦ hour
]

-- The rotation's position once the item that ended is left: index, cycles, and whether it is new.
abbrev pub advance : ℕ → ℕ → Scheduler → ℕ × ℕ × Bool
advance count now b =
    if b.rotation_until == 0
    then (0, b.rotation_cycles, true)
    else if leb b.rotation_until now
    then (
      (b.rotation_index + 1) % count,
      (if (b.rotation_index + 1) % count == 0 then b.rotation_cycles + 1 else b.rotation_cycles),
      true,
    )
    else (b.rotation_index, b.rotation_cycles, false)

abbrev pub show_item :
    KioskConfig
    → ℕ
    → ℕ
    → SchedulerStatus
    → Scheduler
    → Bool
    → Option RotationItem
    → Option (Target × Scheduler)
show_item k now index status b fresh none = none
show_item k now index status b fresh (some item) =
    let until = if fresh then now + item_duration item else b.rotation_until in
    some (
      (
        clamp_page item.page (page_count k),
        record status { reason = by_rotation; rotation_index = index; next_switch = some until },
      ),
      record b { rotation_until = until },
    )

-- `none` is the run-time panic of an index out of range.
unfoldable pub rotation_target :
    KioskConfig → ℕ → SchedulerStatus → Scheduler → Option (Target × Scheduler)
rotation_target k now status b =
    let (index, cycles, fresh) = advance (length k.rotation) now b in
    let b' : Scheduler = record b { rotation_index = index; rotation_cycles = cycles } in
    if is_nil k.rotation
    then some ((minus_one, record status { reason = no_rotation_items }), b)
    else show_item k now index status b' fresh (get_elem? k.rotation index)

pub status_of : KioskConfig → Mode → SchedulerStatus
status_of k mode = record {
  enabled = k.scheduler_enabled;
  mode = mode;
  overridden = false;
  reason = no_reason;
  active_rule = [];
  active_insert = [];
  next_switch = none;
  rotation_index = 0;
  presence = unknown;
  presence_until = none;
}

unfoldable pub by_rule : SchedulerStatus → ℤ × Text × ℕ → Target
by_rule status (page, rule, next) =
    (page, record status { reason = by_time; active_rule = rule; next_switch = some next })

unfoldable pub no_page : SchedulerStatus → Reason → Target
no_page status reason = (minus_one, record status { reason = reason })

unfoldable pub base_target : KioskConfig → Moment → Scheduler → Option (Target × Scheduler)
unfolding status_of by_rule no_page
base_target k now b =
    let rotated = rotation_target k now.instant (status_of k rotation) b in
    let hybrid_rotated = rotation_target k now.instant (status_of k hybrid) b in
    if not k.scheduler_enabled || page_count k == 0
    then some (no_page (status_of k k.scheduler_mode) disabled, b)
    else elim k.scheduler_mode [
      | unset ↦ rotated
      | rotation ↦ rotated
      | time ↦ elim (time_rule_target k now) [
        | some found ↦ some (by_rule (status_of k time) found, b)
        | none ↦ some (no_page (status_of k time) no_active_time_rule, b)
      ]
      | hybrid ↦ elim (time_rule_target k now) [
        | some found ↦ some (by_rule (status_of k hybrid) found, b)
        | none ↦
            if schedule_page_wants_power_off k || is_nil k.rotation
            then some (no_page (status_of k hybrid) no_active_time_rule, b)
            else hybrid_rotated
      ]
      | other_mode m ↦ some (no_page (status_of k (other_mode m)) unsupported_mode, b)
    ]

abbrev pub timeout : PresenceConfig → ℕ
timeout p = elim p.timeout_minutes [
  | pos n ↦ if n == 0 then 5 * minute else n * minute
  | negsuc n ↦ 5 * minute
]

-- `if status.NextSwitch == nil || at.Before(*status.NextSwitch)`
abbrev pub sooner : ℕ → Option ℕ → Option ℕ
sooner at none = some at
sooner at (some next) = if ltb at next then some at else some next

unfoldable pub apply_presence : KioskConfig → ℕ → ℕ → SchedulerStatus → SchedulerStatus
apply_presence k now last status =
    let until = last + timeout k.presence in
    if not k.presence.enabled
    then status
    else if last == 0 || leb until now
    then record status { presence = absent }
    else record status {
      presence = present;
      presence_until = some until;
      next_switch = sooner until status.next_switch;
    }

abbrev pub page_of : KioskConfig → Option (Text × Text) → Option (Text × ℕ)
page_of k none = none
page_of k (some (name, page_id)) = elim (enabled_page_index k page_id) [
  | pos page ↦ some (name, page)
  | negsuc n ↦ none
]

abbrev pub insert_page : KioskConfig → InsertProgram → Option (Text × ℕ)
insert_page k program = page_of k program.due

pub note_change : InsertProgram → SchedulerStatus → SchedulerStatus
note_change program status = elim program.next_change [
  | none ↦ status
  | some next ↦ record status { next_switch = sooner next status.next_switch }
]

-- The page after an insert, if the base programme names none.
unfoldable pub after_insert : KioskConfig → ℤ → SchedulerStatus → Scheduler → ℤ
after_insert k target status b =
    if b.insert_showing
      && elim target [ pos n ↦ false | negsuc n ↦ true ]
      && not (schedule_wants_display_off k target status)
    then clamp_page b.insert_return (page_count k)
    else target

unfoldable pub apply_inserts : KioskConfig → InsertProgram → Target → Scheduler → Target × Scheduler
unfolding note_change after_insert
apply_inserts k program (target, status) b =
    let status' = note_change program status in
    let base : Target × Scheduler =
      ((after_insert k target status' b, status'), record b { insert_showing = false }) in
    if is_nil k.inserts
    then ((target, status), record b { insert_showing = false })
    else if schedule_wants_display_off k target status'
    then base
    else elim (insert_page k program) [
      | none ↦ base
      | some (name, page) ↦ (
        (pos page, record status' { reason = by_insert; active_insert = name }),
        record b {
          insert_showing = true;
          insert_return = if b.insert_showing then b.insert_return else b.active;
        },
      )
    ]

unfoldable pub no_override : ManualOverride
no_override = record { active = false; page = pos 0; until = none }

-- Whether a manual override has reached its end.
abbrev pub override_ended : ℕ → ManualOverride → Bool
override_ended now o = o.active && elim o.until [ none ↦ false | some until ↦ leb until now ]

unfoldable pub override_status : ManualOverride → SchedulerStatus
override_status o = record {
  enabled = true;
  mode = unset;
  overridden = true;
  reason = manual_override;
  active_rule = [];
  active_insert = [];
  next_switch = o.until;
  rotation_index = 0;
  presence = unknown;
  presence_until = none;
}

abbrev pub finish_target :
    KioskConfig → ℕ → ℕ → InsertProgram → Option (Target × Scheduler) → Option (Target × Scheduler)
finish_target k now last program none = none
finish_target k now last program (some ((target, status), b)) =
    some (apply_inserts k program (target, apply_presence k now last status) b)

unfoldable pub scheduler_target :
    KioskConfig → Moment → ℕ → InsertProgram → Scheduler → Option (Target × Scheduler)
unfolding no_override override_status
scheduler_target k now last program b =
    let b' : Scheduler =
      if override_ended now.instant b.override then record b { override = no_override } else b in
    if b'.override.active
    then some
        ((b'.override.page, apply_presence k now.instant last (override_status b'.override)), b')
    else finish_target k now.instant last program (base_target k now b')

-- How long the scheduler sleeps.
unfoldable pub next_scheduler_wake : ℕ → ℕ → Option ℕ → ℕ
next_scheduler_wake now tick none = tick
next_scheduler_wake now tick (some next) =
    if ltb next now then 0 else if ltb (next - now) tick then next - now + second / 20 else tick
