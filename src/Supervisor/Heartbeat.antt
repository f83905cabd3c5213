-- ===== src/Supervisor/Heartbeat.antt =====
-- The renderer heartbeat: the ticks of `monitorControl` in internal/supervisor/cdp.go, and
-- `handleRendererHang` of internal/supervisor/hang.go.
pub mod Missed
pub mod Reboot
use kiosk_mate.Common.{
  ℕ, ◌+◌, Bool, true, false, not, ◌&&◌, ◌||◌, List, [], ◌∷◌, ◌==◌, ltb, leb, if◌then◌else◌,
}
use kiosk_mate.Supervisor.Window.{minute}

-- `missed` and `lastNavigation` of the loop.
pub record Monitor : Type 0 where
  pub missed : ℕ
  pub last_navigation : ℕ

-- What the loop does on an event; `hung` starts the hang handler and ends the loop.
pub data Beat : Type 0 where
  quiet reloaded hung : Beat

-- A heartbeat whose frame tree command succeeded, with the time at which `lastNavigation` is
-- compared, whether the page answers its probe, and the time read after a reload; or a
-- "Page.frameNavigated" event with its time.
pub data Event : Type 0 where
  heartbeat : ℕ → Bool → ℕ → Event
  navigated : ℕ → Event

miss : ℕ → Monitor → Monitor × Beat
miss reload_at m =
    let missed = m.missed + 1 in
    if missed == 2
    then (record { missed = missed; last_navigation = reload_at }, reloaded)
    else if leb 4 missed
    then (record m { missed = missed }, hung)
    else (record m { missed = missed }, quiet)

unfoldable pub step : Event → Monitor → Monitor × Beat
unfolding miss
step (heartbeat now responds reload_at) m =
    if ltb now (m.last_navigation + minute) || responds
    then (record m { missed = 0 }, quiet)
    else miss reload_at m
step (navigated at) m = (record m { last_navigation = at }, quiet)

-- The beats of a run of the loop, which stops at `hung`.
unfoldable pub beats : Monitor → List Event → List Beat
beats m [] = []
beats m (e ∷ events) =
    let (m', beat) = step e m in
    let rest = beats m' events in elim beat [ hung ↦ hung ∷ [] | other ↦ other ∷ rest ]

-- How `b.recover` ended, for `handleRendererHang`.
pub data Recovered : Type 0 where
  recovered budget_exhausted other_error : Recovered

pub record Rebooter : Type 0 where
  pub reboot_on_hang : Bool
  pub has_handler : Bool
  pub reboot_requested : Bool

-- The state after `handleRendererHang`, and whether the reboot handler was called; `reboot_fails` is
-- what the handler would answer.
unfoldable pub handle_renderer_hang : Recovered → Bool → Rebooter → Rebooter × Bool
handle_renderer_hang recovered reboot_fails b = (b, false)
handle_renderer_hang other_error reboot_fails b = (b, false)
handle_renderer_hang budget_exhausted reboot_fails b =
    let allowed = b.reboot_on_hang && not b.reboot_requested in
    let b' : Rebooter = if allowed then record b { reboot_requested = true } else b in
    if not allowed || not b.has_handler
    then (b', false)
    else if reboot_fails
    then (record b' { reboot_requested = false }, true)
    else (b', true)
