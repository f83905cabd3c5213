-- ===== src/Workflow/History.antt =====
-- The engine's history: `record` of internal/workflow/engine.go.
use kiosk_mate.Common.{
  ◌-◌, ◌≤◌, List, [], ◌∷◌, ◌++◌, All, All-Unit, length, length-append, length-drop, arith,
}
use kiosk_mate.Config.Kiosk.{KioskConfig}
use kiosk_mate.Config.Rules.{WorkflowRule}
use kiosk_mate.Workflow.{Outside, Engine, Run, note_run, history_limit}
use kiosk_mate.Workflow.Firing.{Event, handle_all}
use kiosk_mate.Workflow.Frame.{act-keeps, revert_display-keeps}
use kiosk_mate.Workflow.Keeps.{handle_all-keeps}

abbrev pub IsShort : Engine → Type 0
IsShort e = length e.history ≤ history_limit

note_run-IsShort : (run : Run) (e : Engine) → IsShort e → IsShort (note_run run e)
unfolding note_run
note_run-IsShort run e h = ground (
  arith,
  length-append e.history (run ∷ []),
  length-drop (length (e.history ++ run ∷ []) - 50) (e.history ++ run ∷ []),
)

-- Whatever the engine is told, its history never holds more than 50 runs.
pub handle_all-IsShort :
    (k : KioskConfig) (o : Outside) (rules : List WorkflowRule) (events : List Event) (e : Engine)
    → IsShort e
    → IsShort (handle_all k o rules events e)
handle_all-IsShort k o rules events e h =
    handle_all-keeps k o IsShort (λ a. Unit) (act-keeps k o IsShort (λ c s g. g) (λ pending s g. g))
      note_run-IsShort (λ last time idle s g. g)
      (revert_display-keeps k o IsShort (λ c s g. g) (λ pending s g. g)) rules events e
      (All-rules rules) h
  where
    All-rules : (rs : List WorkflowRule) → All (λ rule. All (λ a. Unit {0}) rule.actions) rs
    All-rules [] = tt
    All-rules (r ∷ rs) = (All-Unit r.actions, All-rules rs)
