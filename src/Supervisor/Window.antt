-- ===== src/Supervisor/Window.antt =====
-- The sliding windows by which the supervisor limits automatic restarts. A time is a number of
-- nanoseconds, and 0 stands for Go's zero time.
pub mod Limit
use kiosk_mate.Common.{ℕ, ◌+◌, ◌*◌, ◌<◌, List, [], ◌∷◌, Bool, ltb, select}

abbrev pub second : ℕ
second = 1_000_000_000

abbrev pub minute : ℕ
minute = 60 * second

abbrev pub hour : ℕ
hour = 60 * minute

-- `at.After(now.Add(-window))`
abbrev pub within : ℕ → ℕ → ℕ → Bool
within window now at = ltb now (at + window)

-- The loop that keeps the runs younger than the window.
unfoldable pub recent : ℕ → ℕ → List ℕ → List ℕ
unfolding select
recent window now runs = select (within window now) runs
