-- ===== src/Supervisor/Recovery.antt =====
-- Automatic recovery in internal/supervisor/runtime.go: `recover` and what it calls, restricted to the
-- fields that decide it. Process control is outside: how a page reload, a process exit and a process
-- start end is an argument (`World`). A start that Home Assistant denies is one of the ends.
pub mod Budget
pub mod Outcome
pub mod Delay
use kiosk_mate.Common.{
  ℕ, ◌+◌, ◌-◌, ◌*◌, ◌^◌, min, String, Bool, true, false, not, ◌&&◌, Option, none, some, List, [],
  ◌∷◌, ◌++◌, ltb, leb, ◌==◌, if◌then◌else◌, length, get_or, Text, trim_space, codes,
}
use kiosk_mate.Supervisor.Window.{second, minute, hour, recent}

-- The errors that `recover` returns; the texts that they print are not modelled.
pub data Failure : Type 0 where
  stopped_manually : Failure
  auth_active : Text → Failure
  in_backoff : ℕ → Failure
  budget_exhausted : ℕ → Failure
  action_failed : Text → Failure

pub data LastResult : Type 0 where
  nothing : LastResult
  said : String → LastResult
  failed_with : Failure → LastResult

pub record RecoveryStatus : Type 0 where
  pub state : String
  pub stage : String
  pub reason : Text
  pub attempts : ℕ
  pub last_action : String
  pub last_result : LastResult
  pub last_at : Option ℕ
  pub backoff_until : Option ℕ

-- `guard` is the reason of a tripped authentication guard; `running` is `cmd != nil`.
pub record Browser : Type 0 where
  pub manually_stopped : Bool
  pub guard : Option Text
  pub running : Bool
  pub recovery : RecoveryStatus
  pub recovery_runs : List ℕ

-- `launched` says whether the preset supports page control; `denied` is a start that the preflight of
-- Home Assistant stops.
pub data Launch : Type 0 where
  launched : Bool → ℕ → Launch
  not_launched : Text → ℕ → Launch
  denied : ℕ → Launch

pub data Halt : Type 0 where
  halted : ℕ → Halt
  not_halted : Text → Halt

pub record World : Type 0 where
  pub reload : Option Text
  pub halt : Halt
  pub launch : Launch
  pub finished_at : ℕ

abbrev pub max_recovery_runs : ℕ
max_recovery_runs = 6

unfoldable pub recovery_delay : ℕ → ℕ
recovery_delay attempt =
    let attempt' = if ltb attempt 1 then 1 else attempt in
    let delay = 5 * second * 2 ^ min (attempt' - 1) 7 in
    if ltb (10 * minute) delay then 10 * minute else delay

unfoldable pub finish_recovery : ℕ → String → LastResult → Bool → Browser → Browser
finish_recovery now action result failed b =
    let noted : RecoveryStatus = record (b.recovery) {
      last_action = action;
      last_result = result;
      last_at = some now;
    } in
    if failed
    then record b {
      recovery = record noted {
        state = "failed";
        attempts = noted.attempts + 1;
        backoff_until = some (now + recovery_delay (noted.attempts + 1));
      };
    }
    else record b {
      recovery = record noted { state = "healthy"; stage = "running"; backoff_until = none };
    }

unfoldable pub set_start_failure : ℕ → Failure → Browser → Browser
set_start_failure now e b = record b {
  recovery = record (b.recovery) {
    state = "failed";
    stage = "start";
    reason = codes "browser start failed";
    last_action = "start";
    last_result = failed_with e;
    last_at = some now;
  };
}

-- The evidence that the preflight leaves, and what the guard suggests for it.
abbrev pub denial : Text
denial = codes "Home Assistant denied its public manifest before browser startup"

abbrev suggested_action : String
suggested_action = "Reset the KioskMate HA session and sign in to Home Assistant again."

-- `tripAuthGuard`, with the preflight's reason and no browser running.
unfoldable pub trip_auth_guard : ℕ → Browser → Browser
trip_auth_guard at b = record b {
  guard = some denial;
  recovery = record {
    state = "auth_blocked";
    stage = "authentication";
    reason = denial;
    attempts = 0;
    last_action = "";
    last_result = said suggested_action;
    last_at = some at;
    backoff_until = none;
  };
}

spawn : Launch → Browser → Browser × Option Failure
spawn (not_launched e at) b = (set_start_failure at (action_failed e) b, some (action_failed e))
spawn (denied at) b = (trip_auth_guard at b, some (auth_active denial))
spawn (launched page_control at) b =
    let attached : RecoveryStatus = record (b.recovery) {
      state = if page_control then "starting" else "healthy";
      stage = if page_control then "attach" else "running";
      last_result = said "browser process started; connecting page control";
      last_at = some at;
    } in
    (record b { running = true; recovery = attached }, none)

unfoldable pub start : Launch → Browser → Browser × Option Failure
unfolding spawn set_start_failure trip_auth_guard
start launch b =
    if b.running
    then (b, none)
    else elim b.guard [ some reason ↦ (b, some (auth_active reason)) | none ↦ spawn launch b ]

-- `stop`, and the expected exit that `wait` then notes.
stop : Halt → Browser → Browser × Option Failure
stop (not_halted e) b = (b, some (action_failed e))
stop (halted at) b =
    let noted : RecoveryStatus = record (b.recovery) {
      state = "stopped";
      stage = "stopped";
      last_result = said "browser stopped normally";
      last_at = some at;
    } in
    (record b { running = false; recovery = noted }, none)

start_after : Launch → Browser × Option Failure → Browser × Option Failure
start_after launch (b, some e) = (b, some e)
start_after launch (b, none) = start launch b

unfoldable pub restart : World → Browser → Browser × Option Failure
unfolding stop start_after start
restart w b = elim b.guard [
  | some reason ↦ (b, some (auth_active reason))
  | none ↦ if b.running then start_after w.launch (stop w.halt b) else start w.launch b
]

budget_spent : ℕ → List ℕ → Browser → Browser
budget_spent until runs b =
    let held : RecoveryStatus = record (b.recovery) {
      state = "backoff";
      stage = "restart_budget";
      backoff_until = some until;
    } in
    record b { recovery_runs = runs; recovery = held }

begin : ℕ → Text → List ℕ → Browser → Browser
begin now reason runs b =
    let begun : RecoveryStatus = record (b.recovery) {
      state = "recovering";
      stage = "reload";
      reason = trim_space reason;
      last_action = "reload";
      last_at = some now;
    } in
    record b { recovery_runs = runs; recovery = begun }

-- The restart budget, and the attempt's bookkeeping where it has room.
unfoldable pub spend : ℕ → Text → Browser → Browser × Option Failure
unfolding budget_spent begin
spend now reason b =
    let runs = recent hour now b.recovery_runs in
    let until = get_or runs 0 0 + hour in
    if leb max_recovery_runs (length runs)
    then (budget_spent until runs b, some (budget_exhausted until))
    else (begin now reason (runs ++ now ∷ []) b, none)

auth_blocked : ℕ → Text → Text → RecoveryStatus
auth_blocked now reason why = record {
  state = "auth_blocked";
  stage = "authentication";
  reason = reason;
  attempts = 0;
  last_action = "";
  last_result = failed_with (auth_active why);
  last_at = some now;
  backoff_until = none;
}

-- The time until which an active backoff lasts.
abbrev pub active_backoff : ℕ → Option ℕ → Option ℕ
active_backoff now none = none
active_backoff now (some until) = if ltb now until then some until else none

-- The part of `recover` under the first lock: the new state, and the error it returns, if any.
unfoldable pub admit : ℕ → Text → Browser → Browser × Option Failure
unfolding auth_blocked
admit now reason b = if b.manually_stopped then (b, some stopped_manually) else elim b.guard [
  | some why ↦ (record b { recovery = auth_blocked now reason why }, some (auth_active why))
  | none ↦ elim (active_backoff now b.recovery.backoff_until) [
    | some until ↦ (b, some (in_backoff until))
    | none ↦ spend now reason b
  ]
]

abbrev pub finish_restart : ℕ → Browser × Option Failure → Browser × Option Failure
finish_restart at (b, some e) = (finish_recovery at "restart" (failed_with e) true b, some e)
finish_restart at (b, none) = (finish_recovery at "restart" (said "browser running") false b, none)

unfoldable pub note_restart : Browser → Browser
note_restart b = record b {
  recovery = record (b.recovery) { stage = "restart"; last_action = "restart" };
}

-- The rest of `recover`: a reload if the browser runs and a restart is not forced, else a restart.
unfoldable pub attempt : Bool → World → Browser → Browser × Option Failure
unfolding note_restart
attempt force_restart w b =
    let by_restart =
      finish_restart w.finished_at
        (if b.running then restart w (note_restart b) else start w.launch (note_restart b)) in
    if b.running && not force_restart
    then elim w.reload [
      | none ↦ (finish_recovery w.finished_at "reload" (said "page reloaded") false b, none)
      | some e ↦ by_restart
    ]
    else by_restart

abbrev pub continue : Bool → World → Browser × Option Failure → Browser × Option Failure
continue force_restart w (b, some e) = (b, some e)
continue force_restart w (b, none) = attempt force_restart w b

unfoldable pub recover : ℕ → Text → Bool → World → Browser → Browser × Option Failure
unfolding admit
recover now reason force_restart w b = continue force_restart w (admit now reason b)

abbrev pub stable_runtime : ℕ
stable_runtime = 10 * minute

-- `firstRuntimeString(lastError, "browser exited unexpectedly")` is the argument `reason`.
unfoldable pub prepare_unexpected_exit_recovery : ℕ → ℕ → Text → Browser → Browser
prepare_unexpected_exit_recovery now runtime reason b =
    let attempts = (if leb stable_runtime runtime then 0 else b.recovery.attempts) + 1 in
    let scheduled : RecoveryStatus = record {
      state = "backoff";
      stage = "unexpected_exit";
      reason = reason;
      attempts = attempts;
      last_action = "automatic restart";
      last_result = said "restart scheduled";
      last_at = some now;
      backoff_until = some (now + recovery_delay attempts);
    } in
    record b { recovery = scheduled }
