-- ===== src/Signals.antt =====
-- The store of outside signals that the scheduler reacts to: internal/signals/signals.go. The channel of
-- changes has room for one signal, which is `pending`; a store that is nil is not modelled. Times are
-- nanoseconds, and 0 is the zero time.
pub mod Wake
use kiosk_mate.Common.{
  ℕ, ◌+◌, Bool, true, false, not, ◌||◌, Option, none, some, List, [], ◌∷◌, ◌==◌, ltb, if◌then◌else◌,
  Text, text_eq, trim_space,
}
use kiosk_mate.Supervisor.Window.{minute}

pub record Store : Type 0 where
  pub values : Text → Option Text
  pub last_presence : ℕ
  pub source : Text
  pub pending : Bool

pub empty_store : Store
empty_store = record { values = λ topic. none; last_presence = 0; source = []; pending = false }

-- `notify`, if something changed.
abbrev pub notify_if : Bool → Store → Store
notify_if changed s = record s { pending = changed || s.pending }

-- `seen && old == value`
abbrev pub is_same : Option Text → Text → Bool
is_same none value = false
is_same (some old) value = text_eq old value

unfoldable pub set_value : Text → Text → Store → Store
set_value topic value s =
    let key = trim_space topic in
    notify_if (not (is_same (s.values key) value))
      (record s { values = λ t. if text_eq t key then some value else s.values t })

unfoldable pub value_of : Store → Text → Option Text
value_of s topic = s.values (trim_space topic)

unfoldable pub note_presence : ℕ → Text → Store → Store
note_presence at source s =
    notify_if (s.last_presence == 0 || ltb (s.last_presence + minute) at)
      (record s { last_presence = at; source = source })

-- What is received from `Changes`: whether a signal was pending, which it no longer is.
unfoldable pub take_change : Store → Store × Bool
take_change s = (record s { pending = false }, s.pending)

-- What the store is told between two receives.
pub data Told : Type 0 where
  was_set : Text → Text → Told
  was_present : ℕ → Text → Told

abbrev pub tell : Told → Store → Store
tell (was_set topic value) s = set_value topic value s
tell (was_present at source) s = note_presence at source s

unfoldable pub tell_all : List Told → Store → Store
tell_all [] s = s
tell_all (told ∷ more) s = tell_all more (tell told s)
