-- ===== src/Supervisor/Heartbeat/Reboot.antt =====
-- When a hung page may reboot the system.
use kiosk_mate.Common.{◌≡◌, ◌↔◌, Bool, true, false, not, arith}
use kiosk_mate.Supervisor.Heartbeat.{
  Recovered, recovered, budget_exhausted, other_error, Rebooter, handle_renderer_hang,
}

-- The reboot handler is called exactly when the restart budget is exhausted, the configuration allows
-- it, a handler is set and no reboot was requested before; and a reboot stays requested unless the
-- handler failed, so a failed one can be tried again and a successful one is not repeated.
pub handle_renderer_hang_lem :
    (r : Recovered) (reboot_fails : Bool) (b : Rebooter)
    → (((handle_renderer_hang r reboot_fails b).1 ≡ true)
        ↔ (r ≡ budget_exhausted)
          × (b.reboot_on_hang ≡ true)
          × (b.has_handler ≡ true)
          × (b.reboot_requested ≡ false))
      × ((handle_renderer_hang r reboot_fails b).1 ≡ true
          → (handle_renderer_hang r reboot_fails b).0.reboot_requested ≡ not reboot_fails)
unfolding handle_renderer_hang
handle_renderer_hang_lem recovered reboot_fails b = ((λ e. cc, λ e. cc), λ e. cc)
handle_renderer_hang_lem other_error reboot_fails b = ((λ e. cc, λ e. cc), λ e. cc)
handle_renderer_hang_lem budget_exhausted reboot_fails b =
    ((λ e. ground arith, λ e. ground arith), λ e. ground arith)
