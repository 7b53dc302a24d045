-- ===== src/Controller/Gauge.antt =====
-- internal/controller/testrun_controller.go: what the metrics of a run count.
use kubetest_alt.Base.{suc, ◌+◌, ◌≡◌, refl, ◌⊎◌, true, false, Str, arith}
use mathlib.Core.Path.{ap, ◌∙◌}
use kubetest_alt.Api.{Phase}
use kubetest_alt.Controller.Phases.{is_terminal_phase, Reason}
use kubetest_alt.Controller.World.{
  update_status, transition_terminal, count_terminal, ended, is_running,
}
use kubetest_alt.Controller.State.{succeeded, conflicted, Env, World, Outcome}
use kubetest_alt.Controller.Progress.{transition_terminal_stored, transition_terminal_lost}
use kubetest_alt.Controller.Inspect.{tail_logs, count_start, promoted, promote}

is_running_only : (p : Phase) → is_running p ≡ true → p ≡ Phase.running
is_running_only Phase.running h = refl
is_running_only p h = ground arith

-- A running pod adds one to the gauge of active runs exactly when this pass is the one that stores
-- the promotion of the run to Running; a pass that finds the run Running, or whose status write is
-- lost, leaves the gauge and the phase alone.
promotion_counted_once :
    (e : Env) (w : World)
    → ((is_running w.run.status.phase ≡ false)
        × ((promote e w).0.run.status.phase ≡ Phase.running)
        × ((promote e w).0.active_inc ≡ suc w.active_inc))
      ⊎ (((promote e w).0.run.status.phase ≡ w.run.status.phase)
          × ((promote e w).0.active_inc ≡ w.active_inc))
unfolding promote promoted count_start tail_logs update_status
promotion_counted_once e w = let r = is_running_only w.run.status.phase in ground arith

-- A terminal write that loses a race and the one that repeats it count the run twice, although it
-- ends once.
pub lost_end_counted_twice :
    (e e' : Env) (phase : Phase) (cause : Reason) (msg : Str) (w : World)
    → is_terminal_phase w.run.status.phase ≡ false
    → is_terminal_phase phase ≡ true
    → e.status_update 0 ≡ conflicted
    → e'.status_update 0 ≡ succeeded
    → let lost = (transition_terminal e 0 w.run phase cause msg w).0 in
      (lost.run ≡ w.run)
      × ((transition_terminal e' 0 w.run phase cause msg lost).0.run.status.phase ≡ phase)
      × ((transition_terminal e' 0 w.run phase cause msg lost).0.runs_total ≡ w.runs_total + 2)
unfolding ended count_terminal
lost_end_counted_twice e e' phase cause msg w n t a b =
    let lost = transition_terminal_lost e 0 w.run phase cause msg w n t (λ c. ground arith) in
    let first = (transition_terminal e 0 w.run phase cause msg w).0 in
    let stored = transition_terminal_stored e' 0 w.run phase cause msg first n t b in
    (
      ap (λ (p : World × Outcome). p.0.run) lost,
      ap (λ (p : World × Outcome). p.0.run.status.phase) stored,
      ap (λ (p : World × Outcome). p.0.runs_total) stored
          ∙ ap (λ (p : World × Outcome). p.0.runs_total + 1) lost
          ∙ omega arith,
    )
