-- ===== src/Config/Kiosk.antt =====
-- The parts of `KioskConfig` in internal/config/config.go that the modelled code reads, with the inserts of
-- internal/config/inserts.go. A text that
-- the code only compares with fixed words is a data type of these words.
use kiosk_mate.Common.{Bool, List, Option, Text, ℤ}

pub data DisplayMode : Type 0 where
  schedule mqtt other_display : DisplayMode

-- `unset` is the empty text.
pub data Mode : Type 0 where
  unset rotation time hybrid : Mode
  other_mode : Text → Mode

pub data PresenceMode : Type 0 where
  require other_presence : PresenceMode

pub record KioskPage : Type 0 where
  pub page_id : Text
  pub url : Text
  pub display_mode : DisplayMode
  pub power_off_after : Bool
  pub disabled : Bool
  pub preload : Bool

pub record RotationItem : Type 0 where
  pub page : ℤ
  pub duration_seconds : ℤ

pub record TimeRule : Type 0 where
  pub name : Text
  pub page : ℤ
  pub start : Text
  pub end : Text
  pub days : List Text
  pub disabled : Bool

pub record PresenceConfig : Type 0 where
  pub enabled : Bool
  pub mode : PresenceMode
  pub timeout_minutes : ℤ

pub data Repeat : Type 0 where
  interval hourly times other_repeat : Repeat

pub record InsertCondition : Type 0 where
  pub topic : Text
  pub value : Text
  pub negate : Bool

pub record PageInsert : Type 0 where
  pub id : Text
  pub name : Text
  pub page_id : Text
  pub repeat : Repeat
  pub every_minutes : ℤ
  pub minute : ℤ
  pub times : List Text
  pub duration_seconds : ℤ
  pub start : Text
  pub end : Text
  pub days : List Text
  pub priority : ℤ
  pub disabled : Bool
  pub condition : Option InsertCondition

pub record KioskConfig : Type 0 where
  pub pages : List KioskPage
  pub urls : List Text
  pub scheduler_enabled : Bool
  pub scheduler_mode : Mode
  pub rotation : List RotationItem
  pub time_rules : List TimeRule
  pub presence : PresenceConfig
  pub inserts : List PageInsert
