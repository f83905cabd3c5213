-- ===== src/Examples/Recovering.antt =====
-- Automatic recovery at concrete states.
use kiosk_mate.Common.{
  ℕ, ◌*◌, ◌≤◌, ◌≡◌, List, [], ◌++◌, none, some, true, false, arith, refl, codes,
}
use kiosk_mate.Supervisor.Window.{minute, hour}
use kiosk_mate.Supervisor.Window.Limit.{count_in}
use kiosk_mate.Supervisor.Recovery.{
  Browser, World, Failure, halted, launched, nothing, admit, recover, max_recovery_runs,
}
use kiosk_mate.Supervisor.Recovery.Budget.{initial, called, begun, recoveries_limited}
use kiosk_mate.Supervisor.Recovery.Outcome.{Finished, recover-Finished}

abbrev running : Browser
running = record {
  manually_stopped = false;
  guard = none;
  running = true;
  recovery = record {
    state = "healthy";
    stage = "running";
    reason = [];
    attempts = 0;
    last_action = "";
    last_result = nothing;
    last_at = none;
    backoff_until = none;
  };
  recovery_runs = [];
}

-- The page cannot be reloaded; the process stops and starts.
abbrev stuck : World
stuck = record {
  reload = some (codes "no answer");
  halt = halted minute;
  launch = launched true minute;
  finished_at = 2 * minute;
}

abbrev why : List ℕ
why = codes "hang"

recoveries_limited_example :
    count_in hour 0 ([] ++ begun minute (admit minute why running)) ≤ max_recovery_runs
recoveries_limited_example =
    recoveries_limited 0 (called minute why false stuck (initial running refl) (omega arith))

recover-Finished_example :
    ((admit minute why running).1 ≡ none
      → Finished stuck 0 (recover minute why false stuck running))
    × ((e : Failure)
        → (admit minute why running).1 ≡ some e
        → ((recover minute why false stuck running).1 ≡ some e)
          × ((recover minute why false stuck running).0.running ≡ true))
recover-Finished_example = recover-Finished minute why false stuck running
