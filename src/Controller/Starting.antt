-- ===== src/Controller/Starting.antt =====
-- internal/controller/testrun_controller.go: the branches of `waitForNotBefore` and `setup`.
use kubetest_alt.Base.{ℕ, suc, ◌≡◌, refl, false, List, [], ◌∷◌, Str, arith}
use mathlib.Core.Path.{subst}
use kubetest_alt.Api.{Phase, TestRun, TestSpec}
use kubetest_alt.Controller.Phases.{is_terminal_phase, Reason}
use kubetest_alt.Controller.World.{update_status, transition_terminal}
use kubetest_alt.Controller.State.{Answer, succeeded, conflicted, failed, Env, World}
use kubetest_alt.Controller.Progress.{Progress, Progress-same, before, transition_terminal-Progress}
use kubetest_alt.Controller.Setup.{
  held, ask_to_abort, set_up, wait_for_not_before, wait_for_priors, abort_priors, take_snapshot,
  admit, check_resolved, setup, first_passes,
}

pub kept :
    (e : Env) (w : World) → is_terminal_phase w.run.status.phase ≡ false → Progress e (before w) w
kept e w n = Progress-same e (before w) w n refl refl refl

-- A status write of a run that is not over.
pub update_status-Progress :
    (e : Env) (a : Answer) (run : TestRun) (w : World)
    → is_terminal_phase run.status.phase ≡ false
    → is_terminal_phase w.run.status.phase ≡ false
    → Progress e (before w) (update_status a run w)
unfolding update_status
update_status-Progress e succeeded run w m n =
    Progress-same e (before w) (record w { run = run }) m refl refl refl
update_status-Progress e conflicted run w m n = kept e w n
update_status-Progress e failed run w m n = kept e w n

ask_to_abort_run : (p : TestRun) (w : World) → (ask_to_abort p w).run ≡ w.run
unfolding ask_to_abort
ask_to_abort_run p w = refl

ask_to_abort-before : (p : TestRun) (w : World) → before (ask_to_abort p w) ≡ before w
unfolding ask_to_abort
ask_to_abort-before p w = refl

abort_priors_run :
    (e : Env) (i : ℕ) (ps : List TestRun) (w : World) → (abort_priors e i ps w).0.run ≡ w.run
unfolding abort_priors
abort_priors_run e i [] w = refl
abort_priors_run e i (p ∷ ps) w = ground (
  arith,
  ask_to_abort_run p w,
  abort_priors_run e (suc i) ps w,
  abort_priors_run e (suc i) ps (ask_to_abort p w),
)

abort_priors-before :
    (e : Env) (i : ℕ) (ps : List TestRun) (w : World) → before (abort_priors e i ps w).0 ≡ before w
unfolding abort_priors
abort_priors-before e i [] w = refl
abort_priors-before e i (p ∷ ps) w = ground (
  arith,
  ask_to_abort-before p w,
  abort_priors-before e (suc i) ps w,
  abort_priors-before e (suc i) ps (ask_to_abort p w),
)

take_snapshot-Progress :
    (e : Env) (spec : TestSpec) (w : World)
    → is_terminal_phase w.run.status.phase ≡ false
    → Progress e (before w) (take_snapshot e spec w).0
unfolding take_snapshot is_terminal_phase set_up
take_snapshot-Progress e spec w n =
    update_status-Progress e (e.status_update 0) (set_up e.now spec w.run) w refl n

module _ (e : Env) (w : World) (n : is_terminal_phase w.run.status.phase ≡ false) where
  same : Progress e (before w) w
  same = kept e w n

  held-Progress :
      (msg : Str)
      → Progress e (before w) (update_status (e.status_update 0) (held e.now msg w.run) w)
  unfolding is_terminal_phase held
  held-Progress msg = update_status-Progress e (e.status_update 0) (held e.now msg w.run) w refl n

  pub write_error-Progress :
      (cause : Reason) (msg : Str)
      → Progress e (before w) (transition_terminal e 0 w.run Phase.error cause msg w).0
  write_error-Progress cause msg =
      transition_terminal-Progress e 0 w.run Phase.error cause msg w n n

  wait_for_priors-Progress :
      (priors : List TestRun) → Progress e (before w) (wait_for_priors e priors w).0
  unfolding wait_for_priors
  wait_for_priors-Progress priors = grind (arith, same, held-Progress)

  aborted_open :
      (i : ℕ) (ps : List TestRun)
      → is_terminal_phase (abort_priors e i ps w).0.run.status.phase ≡ false
  aborted_open i ps = rw (abort_priors_run e i ps w) n

  replace-Progress :
      (spec : TestSpec) (i : ℕ) (ps : List TestRun)
      → Progress e (before w) (take_snapshot e spec (abort_priors e i ps w).0).0
  replace-Progress spec i ps =
      subst (λ b. Progress e b (take_snapshot e spec (abort_priors e i ps w).0).0)
        (abort_priors-before e i ps w)
        (take_snapshot-Progress e spec (abort_priors e i ps w).0 (aborted_open i ps))

  aborted-Progress : (i : ℕ) (ps : List TestRun) → Progress e (before w) (abort_priors e i ps w).0
  aborted-Progress i ps =
      subst (λ b. Progress e b (abort_priors e i ps w).0) (abort_priors-before e i ps w)
        (kept e (abort_priors e i ps w).0 (aborted_open i ps))

  admit-Progress : (spec : TestSpec) → Progress e (before w) (admit e spec w).0
  unfolding admit
  admit-Progress spec = grind (
    arith,
    same,
    wait_for_priors-Progress,
    replace-Progress,
    aborted-Progress,
    take_snapshot-Progress e spec w n,
  )

  check_resolved-Progress : (spec : TestSpec) → Progress e (before w) (check_resolved e spec w).0
  unfolding check_resolved
  check_resolved-Progress spec = grind (arith, same, admit-Progress spec, write_error-Progress)

  setup-Progress : Progress e (before w) (setup e w).0
  unfolding setup
  setup-Progress = grind (arith, same, check_resolved-Progress, write_error-Progress)

  pub first_passes-Progress : Progress e (before w) (first_passes e w).0
  unfolding first_passes wait_for_not_before
  first_passes-Progress = grind (arith, same, held-Progress, setup-Progress)
