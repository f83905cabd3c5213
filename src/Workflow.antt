-- ===== src/Workflow.antt =====
-- The rule engine's state, and the browser and the hardware that its actions drive: the types of
-- internal/workflow/engine.go. What is outside answers from the commands that it was given so far
-- (`Outside`), so that its answers may change in any way between two commands. Journal entries and
-- log lines are not modelled; the pages' scripts of internal/workflow/scripts.go are not spelled out.
pub mod Conditions
pub mod Actions
pub mod Firing
pub mod Keeps
pub mod Overrides
pub mod Sane
pub mod Frame
pub mod Cooldown
pub mod Once
pub mod Listening
pub mod History
use kiosk_mate.Common.{
  ℕ, ◌-◌, Bool, true, false, Option, none, some, List, [], ◌∷◌, ◌++◌, ◌==◌, ltb, if◌then◌else◌,
  length, drop, Text, text_eq, ℤ,
}
use kiosk_mate.Config.Clock.{Weekday}
use kiosk_mate.Config.Rules.{ActionType}

-- The JavaScript that is evaluated in the page.
pub data Script : Type 0 where
  plain click_on scroll_to play_sound : Text → Script

-- The calls of the interfaces `Browser` and `Hardware` that change something. Durations are seconds.
pub data Command : Type 0 where
  set_override : ℤ → ℤ → Command
  clear_override : Command
  evaluate : Script → Command
  reload_page : Command
  show_overlay : Text → ℤ → Command
  set_display : Text → Command
  note_display : Text → Command
  set_brightness : ℤ → Command

-- A page override and who set it: `workflow` is the source "workflow".
pub data OverrideSource : Type 0 where
  no_override by_workflow by_hand : OverrideSource

-- The answers after the commands of a list, the newest first. `fails` is the error of a command.
pub record Outside : Type 0 where
  pub time : List Command → ℕ
  pub override_source : List Command → OverrideSource
  pub active_page : List Command → ℤ
  pub last_activity : List Command → ℕ
  pub fails : List Command → Command → Option Text
  pub has_hardware : Bool

-- The time in the kiosk's time zone; `day` and `clock` are its texts "2006-01-02" and "15:04".
pub record Local : Type 0 where
  pub instant : ℕ
  pub minute_of_day : ℕ
  pub weekday : Weekday
  pub day : Text
  pub clock : Text

pub data Skip : Type 0 where
  cooldown outside_days time_window active_page manual_override : Skip

pub data Source : Type 0 where
  from_time from_idle from_touch from_mqtt from_webhook from_test : Source

pub data ActionError : Type 0 where
  page_missing no_display_control no_brightness_control not_a_number unsupported : ActionError
  failed_outside : Text → ActionError

pub data RunResult : Type 0 where
  ran run_failed skipped_run : RunResult

-- The failures stand with their positions, from 1.
pub record Run : Type 0 where
  pub rule_id : Text
  pub rule : Text
  pub source : Source
  pub at : ℕ
  pub result : RunResult
  pub failures : List (ℕ × ActionError)
  pub skipped : Option Skip

-- The maps of `Engine` are functions with their zero values; `revert` is the pending display timer with
-- its time and power, and `done` holds the commands that were given, the newest first.
pub record Engine : Type 0 where
  pub last_fired : Text → ℕ
  pub time_fired : Text → Text
  pub idle_fired : Text → Bool
  pub history : List Run
  pub started : ℕ
  pub revert : Option (ℕ × Text)
  pub done : List Command

abbrev pub put {ℓ} : {A : Type ℓ} → Text → A → (Text → A) → Text → A
put key a m k = if text_eq k key then a else m k

abbrev pub history_limit : ℕ
history_limit = 50

-- `record` of the source.
unfoldable pub note_run : Run → Engine → Engine
note_run run e =
    let runs = e.history ++ run ∷ [] in
    record e {
      history =
          if ltb history_limit (length runs) then drop (length runs - history_limit) runs else runs;
    }

unfoldable pub perform : Outside → Command → Engine → Engine × Option Text
perform o c e = (record e { done = c ∷ e.done }, o.fails e.done c)
