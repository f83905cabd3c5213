-- ===== src/Workflow/Frame.antt =====
-- What an action leaves alone: `action` of internal/workflow/engine.go writes neither the marks of the
-- firings nor the history.
use kiosk_mate.Common.{
  ℕ, Option, none, some, Text, trim_space, atoi, ℤ, pos, negsuc, arith, if-both, ◌∷◌,
}
use kiosk_mate.Config.Kiosk.{KioskConfig}
use kiosk_mate.Config.Pages.{enabled_page_index}
use kiosk_mate.Config.Rules.{
  RuleAction, ActionType, show_page, resume_playlist, display, brightness, other_action,
}
use kiosk_mate.Workflow.{
  Outside, Engine, Command, set_override, clear_override, set_display, perform,
}
use kiosk_mate.Workflow.Actions.{
  act, act_as, page_duration, Outcome, show_index, resume, brighten, displayed, run_command,
  switch_display, schedule_display_revert, revert_display, note_switched,
}

-- Actions keep what a command keeps that is given and a display timer that is set.
module _ (k : KioskConfig) (o : Outside) (P : Engine → Type 0)
    (gives : (c : Command) (e : Engine) → P e → P (record e { done = c ∷ e.done }))
    (pends : (pending : Option (ℕ × Text)) (e : Engine)
      → P e
      → P (record e { revert = pending })) where
  show_index-keeps : (a : RuleAction) (i : ℤ) (e : Engine) → P e → P (show_index o a i e).0
  unfolding run_command perform
  show_index-keeps a (negsuc n) e r = r
  show_index-keeps a (pos n) e r =
      ground (arith, gives (set_override (pos n) (page_duration a)) e r)

  resume-keeps : (e : Engine) → P e → P (resume o e).0
  unfolding run_command perform
  resume-keeps e r = ground (arith, gives clear_override e r)

  switch_display-keeps : (power : Text) (e : Engine) → P e → P (switch_display o power e).0
  unfolding switch_display perform
  switch_display-keeps power e r = go (o.fails e.done (set_display power))
    where
      e1 : Engine
      e1 = record e { done = set_display power ∷ e.done }

      go : (error : Option Text) → P (note_switched o power (e1, error)).0
      go none = gives _ e1 (gives _ e r)
      go (some error) = gives _ e r

  displayed-keeps :
      (power : Text) (seconds : ℤ) (x : Engine × Option Text)
      → P x.0
      → P (displayed o power seconds x).0
  unfolding schedule_display_revert
  displayed-keeps power seconds (e, some error) r = r
  displayed-keeps power seconds (e, none) r = pends _ e r

  brighten-keeps : (value : Option ℤ) (e : Engine) → P e → P (brighten o value e).0
  unfolding run_command perform
  brighten-keeps none e r = r
  brighten-keeps (some n) e r = gives _ e r

  pub act_as-keeps : (a : RuleAction) (t : ActionType) (e : Engine) → P e → P (act_as k o a t e).0
  unfolding act_as run_command perform
  act_as-keeps a show_page e r = show_index-keeps a (enabled_page_index k a.page_id) e r
  act_as-keeps a resume_playlist e r = resume-keeps e r
  act_as-keeps a display e r =
      if-both (λ (x : Engine × Outcome). P x.0) o.has_hardware
        (displayed-keeps _ a.duration_seconds _ (switch_display-keeps _ e r)) r
  act_as-keeps a brightness e r =
      if-both (λ (x : Engine × Outcome). P x.0) o.has_hardware
        (brighten-keeps (atoi (trim_space a.value)) e r) r
  act_as-keeps a other_action e r = r
  act_as-keeps a _ e r = gives _ e r

  pub act-keeps : (a : RuleAction) (e : Engine) → Unit {0} → P e → P (act k o a e).0
  unfolding act
  act-keeps a e f r = act_as-keeps a a.action e r

  pub revert_display-keeps : (e : Engine) → P e → P (revert_display o e)
  unfolding revert_display
  revert_display-keeps e r = go e.revert
    where
      go :
          (pending : Option (ℕ × Text))
          → let ended : Engine = elim pending [
            | none ↦ e
            | some (at, power) ↦ (switch_display o power (record e { revert = none })).0
          ] in
            P ended
      go none = r
      go (some (at, power)) = switch_display-keeps power _ (pends none e r)
