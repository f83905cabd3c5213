-- ===== src/Examples/Scheduling.antt =====
-- The scheduler for one configuration, at one moment.
use kiosk_mate.Common.{
  ◌+◌, ◌*◌, ◌<◌, ◌≡◌, ◌≢◌, ◌↔◌, ◌⊎◌, inl, [], none, some, true, false, arith, refl, pos, length,
}
use kiosk_mate.Supervisor.Window.{second, minute, hour}
use kiosk_mate.Config.Clock.{monday}
use kiosk_mate.Config.Kiosk.{require, hybrid}
use kiosk_mate.Supervisor.Schedule.{
  Moment, SchedulerStatus, Scheduler, ManualOverride, unknown, present, absent, no_reason,
  manual_override, time_rule_target,
}
use kiosk_mate.Supervisor.Schedule.Target.{
  InsertProgram, Target, rotation_target, schedule_wants_display_off, scheduler_target,
}
use kiosk_mate.Supervisor.Schedule.Priority.{AnswerOf, scheduler_target-IsPage}
use kiosk_mate.Supervisor.Schedule.Rotation.{Rotated, begins, turns, rotation_target-Rotated}
use kiosk_mate.Supervisor.Schedule.Display.{IsOutside, schedule_wants_display_off_iff}
use kiosk_mate.Supervisor.Schedule.Rules.{Decides, time_rule_target-Decides}
use kiosk_mate.Examples.Clocks.{home}

-- 23:00 on the second day.
abbrev pub night : Moment
night = record {
  instant = 47 * hour;
  clock_hour = 23;
  clock_minute = 0;
  weekday = monday;
  at_minute = λ m. 24 * hour + m * minute;
  sun = none;
}

abbrev no_inserts : InsertProgram
no_inserts = record { next_change = none; due = none }

abbrev free : ManualOverride
free = record { active = false; page = pos 0; until = none }

abbrev pub at_rest : Scheduler
at_rest = record {
  override = free;
  rotation_index = 0;
  rotation_until = 0;
  rotation_cycles = 0;
  insert_showing = false;
  insert_return = pos 0;
  active = pos 0;
}

abbrev held : Scheduler
held = record at_rest {
  override = record { active = true; page = pos 1; until = some (48 * hour) };
}

abbrev pub blank : SchedulerStatus
blank = record {
  enabled = true;
  mode = hybrid;
  overridden = false;
  reason = no_reason;
  active_rule = [];
  active_insert = [];
  next_switch = none;
  rotation_index = 0;
  presence = unknown;
  presence_until = none;
}

scheduler_target-IsPage_example :
    AnswerOf home (scheduler_target home night hour no_inserts at_rest)
scheduler_target-IsPage_example =
    scheduler_target-IsPage home night hour no_inserts at_rest (inl refl) (inl refl)

abbrev first_item : Scheduler
first_item = record at_rest { rotation_until = hour + 10 * second }

abbrev second_item : Scheduler
second_item = record at_rest { rotation_index = 1; rotation_until = hour + 30 * second }

begun : (target : Target) × (rotation_target home hour blank at_rest ≡ some (target, first_item))
unfolding rotation_target
begun = (_, refl)

turned :
    (target : Target) × (rotation_target home (hour + 10 * second) blank first_item
      ≡ some (target, second_item))
unfolding rotation_target
turned = (_, refl)

one_turn : Rotated home 1 second_item
one_turn =
    turns 0 (hour + 10 * second) blank (turned.0) first_item second_item
      (begins hour blank (begun.0) at_rest first_item refl refl (begun.1)) (omega arith) (turned.1)

rotation_target-Rotated_example :
    (second_item.rotation_index < length home.rotation)
    × (0 < second_item.rotation_until)
    × (second_item.rotation_index + second_item.rotation_cycles * length home.rotation ≡ 1)
rotation_target-Rotated_example = rotation_target-Rotated home 1 second_item (omega arith) one_turn

schedule_wants_display_off_iff_example :
    (schedule_wants_display_off home (pos 0) blank ≡ true)
    ↔ (blank.overridden ≡ false)
      × (blank.reason ≢ manual_override)
      × (blank.presence ≢ present)
      × (((blank.presence ≡ absent) × (home.presence.mode ≡ require))
          ⊎ IsOutside home (pos 0) blank)
schedule_wants_display_off_iff_example = schedule_wants_display_off_iff home (pos 0) blank

time_rule_target-Decides_example : Decides home night home.time_rules (time_rule_target home night)
time_rule_target-Decides_example = time_rule_target-Decides home night
