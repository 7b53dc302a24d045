-- ===== src/Controller/Ending.antt =====
-- internal/controller/testrun_controller.go: when a run ends, and what a reconcile that ends it leaves.
use kubetest_alt.Base.{suc, ◌≡◌, ◌≢◌, refl, sym, Bool, true, false, none, some, Str, arith}
use mathlib.Core.Path.{ap, subst, ◌∙◌}
use kubetest_alt.Api.{Phase, TestRun, AbortRequest, TestSpec, snapshot}
use kubetest_alt.Controller.Phases.{
  is_terminal_phase, Job, inspect_job, job_still_running, reason_text, Reason, unstated,
}
use kubetest_alt.Controller.Infra.{RunResult, analyze_pod}
use kubetest_alt.Controller.Stages.{stages_now}
use kubetest_alt.Controller.Derivation.{is_empty}
use kubetest_alt.Controller.World.{
  terminal_and_delete_job, after_terminal, after_transition, ended, count_terminal, delete_job,
}
use kubetest_alt.Controller.State.{
  succeeded, Env, World, Outcome, done, read_result, get_ok, get_failed,
}
use kubetest_alt.Controller.Progress.{
  Progress, goes_on, ends, Ended, before, transition_terminal_stored, after_terminal_run,
}
use kubetest_alt.Controller.Running.{reconcile-Progress, ensure_fetch_tailer_run}
use kubetest_alt.Controller.Inspect.{
  inspect, job_ended, end_with_result, is_composite_run, is_parallel_run, ensure_fetch_tailer,
}
use kubetest_alt.Controller.Reconcile.{
  reconcile, reconcile_open, advance_run, cached_job, observe_or_create_job, reconcile_abort,
  abort_status,
}

whole :
    (e : Env) (v w : World)
    → Progress e (before v) w
    → is_terminal_phase w.run.status.phase ≡ true
    → Ended e w.run × (w.runs_total ≡ suc v.runs_total)
whole e v w (goes_on n _ _ _) t = ground (arith, n, t)
whole e v w (ends r _ _ m) t = (r, m)

still_there :
    (e : Env) (v w : World)
    → Progress e (before v) w
    → (job : Job) → v.job ≡ some job
    → is_terminal_phase w.run.status.phase ≡ false
    → w.job ≡ some job
still_there e v w (goes_on _ k _ _) job j m = k job j
still_there e v w (ends r _ _ _) job j m = let t = r.is_terminal in ground (arith, t, m)

-- A reconcile that ends a run which was open and is not being deleted leaves it whole: the phase is
-- terminal, finished-at is now, started-at is set, no stage is still open, and it is counted once.
pub open_run_ends_whole :
    (e : Env) (w : World)
    → w.run.is_deleting ≡ false
    → is_terminal_phase w.run.status.phase ≡ false
    → is_terminal_phase (reconcile e w).0.run.status.phase ≡ true
    → Ended e (reconcile e w).0.run × ((reconcile e w).0.runs_total ≡ suc w.runs_total)
open_run_ends_whole e w h n t = whole e w _ (reconcile-Progress e w n h) t

-- A reconcile of a run that is open and not being deleted removes its Job only if the run is over in
-- the API server afterwards: a status write that was lost never costs the Job.
pub job_kept_while_open :
    (e : Env) (w : World) (job : Job)
    → w.run.is_deleting ≡ false
    → is_terminal_phase w.run.status.phase ≡ false
    → w.job ≡ some job
    → is_terminal_phase (reconcile e w).0.run.status.phase ≡ false
    → (reconcile e w).0.job ≡ some job
job_kept_while_open e w job h n j m = still_there e w _ (reconcile-Progress e w n h) job j m

module _ (e : Env) (run : TestRun) (phase : Phase) (cause : Reason) (msg : Str) (w : World)
    (n : is_terminal_phase run.status.phase ≡ false) (t : is_terminal_phase phase ≡ true)
    (a : e.status_update 0 ≡ succeeded) where
  terminal_and_delete_job_ok :
      (with_job : Bool)
      → terminal_and_delete_job e 0 run phase cause msg with_job w ≡ (
        after_terminal e with_job
            (record (count_terminal run w) { run = ended e.now run phase cause msg }),
        done,
      )
  unfolding terminal_and_delete_job after_transition
  terminal_and_delete_job_ok with_job =
      ap (after_transition e with_job) (transition_terminal_stored e 0 run phase cause msg w n t a)

  terminal_and_delete_job_run :
      (with_job : Bool)
      → (terminal_and_delete_job e 0 run phase cause msg with_job w).0.run
        ≡ ended e.now run phase cause msg
  terminal_and_delete_job_run with_job =
      ap (λ (p : World × Outcome). p.0.run) (terminal_and_delete_job_ok with_job)
      ∙ after_terminal_run e with_job _

after_terminal_job :
    (e : Env) (w : World) → e.delete_ok ≡ true → (after_terminal e true w).job ≡ none
unfolding after_terminal delete_job
after_terminal_job e w h = ground arith

module _ (e : Env) (w : World) (d : w.run.is_deleting ≡ false) (f : w.run.has_finalizer ≡ true)
    (n : is_terminal_phase w.run.status.phase ≡ false) where
  reconcile_step : reconcile e w ≡ reconcile_open e w
  unfolding reconcile
  reconcile_step = ground arith

  reconcile_asked :
      (req : AbortRequest) → w.run.abort ≡ some req → reconcile e w ≡ reconcile_abort e req w
  unfolding reconcile_open
  reconcile_asked req h = reconcile_step ∙ ground arith

reconcile_abort_step :
    (e : Env) (req : AbortRequest) (w : World)
    → is_composite_run w.run ≡ false
    → is_parallel_run w.run ≡ false
    → e.get_job ≢ get_failed
    → reconcile_abort e req w
      ≡ terminal_and_delete_job e 0 w.run Phase.aborted
          (abort_status req).0
          (abort_status req).1
          (elim (cached_job e w) as (λ _. Bool) [ some _ ↦ true | none ↦ false ])
          w
unfolding reconcile_abort
reconcile_abort_step e req w c p g = ground arith

-- A request to abort ends an open run of a single Job in the next reconcile whose read of the Job and
-- whose status write go through, whatever the pod, the result store and the checks of the spec say.
pub abort_ends_run :
    (e : Env) (w : World) (req : AbortRequest)
    → w.run.is_deleting ≡ false
    → w.run.has_finalizer ≡ true
    → is_terminal_phase w.run.status.phase ≡ false
    → w.run.abort ≡ some req
    → is_composite_run w.run ≡ false
    → is_parallel_run w.run ≡ false
    → e.get_job ≢ get_failed
    → e.status_update 0 ≡ succeeded
    → (reconcile e w).0.run.status.phase ≡ Phase.aborted
unfolding is_terminal_phase ended
abort_ends_run e w req d f n h c p g a =
    ap (λ (x : World × Outcome). x.0.run.status.phase)
      (reconcile_asked e w d f n req h ∙ reconcile_abort_step e req w c p g)
    ∙ ap (λ (r : TestRun). r.status.phase)
        (terminal_and_delete_job_run e w.run Phase.aborted _ _ w n refl a _)

observe_step :
    (e : Env) (w : World) (job : Job) (spec : TestSpec)
    → w.run.status.resolved_spec ≡ snapshot spec
    → is_composite_run w.run ≡ false
    → is_parallel_run w.run ≡ false
    → e.get_job ≡ get_ok
    → w.job ≡ some job
    → advance_run e w ≡ inspect e job w
unfolding advance_run observe_or_create_job cached_job
observe_step e w job spec s c p g j = ground arith

inspect_step :
    (e : Env) (w : World) (job : Job)
    → is_empty (reason_text (analyze_pod e.pod e.now e.unschedulable_timeout).reason) ≡ true
    → inspect_job (some job) ≢ job_still_running
    → inspect e job w ≡ job_ended e job (ensure_fetch_tailer e w)
unfolding inspect
inspect_step e w job i j = ground arith

advance_step : (e : Env) (w : World) → w.run.abort ≡ none → reconcile_open e w ≡ advance_run e w
unfolding reconcile_open
advance_step e w h = ground arith

job_ended_step :
    (e : Env) (w : World) (job : Job) (res : RunResult)
    → e.result ≡ read_result res
    → job_ended e job w ≡ end_with_result e res w
unfolding job_ended
job_ended_step e w job res r = ground arith

-- A Job that has ended, by its condition, with a result in the store ends its open run in the next
-- reconcile whose status write goes through, in the phase of the result; a healthy pod is meant, and
-- a run of a single Job that nobody asks to abort. The Job is removed if the delete goes through.
pub result_ends_run :
    (e : Env) (w : World) (job : Job) (spec : TestSpec) (res : RunResult)
    → w.run.is_deleting ≡ false
    → w.run.has_finalizer ≡ true
    → is_terminal_phase w.run.status.phase ≡ false
    → w.run.abort ≡ none
    → w.run.status.resolved_spec ≡ snapshot spec
    → is_composite_run w.run ≡ false
    → is_parallel_run w.run ≡ false
    → e.get_job ≡ get_ok
    → w.job ≡ some job
    → is_empty (reason_text (analyze_pod e.pod e.now e.unschedulable_timeout).reason) ≡ true
    → inspect_job (some job) ≢ job_still_running
    → e.result ≡ read_result res
    → is_terminal_phase res.phase ≡ true
    → e.status_update 0 ≡ succeeded
    → e.delete_ok ≡ true
    → ((reconcile e w).0.run.status.phase ≡ res.phase) × ((reconcile e w).0.job ≡ none)
unfolding ended end_with_result
result_ends_run e w job spec res d f n h s c p g j i k r t a x =
    let v = ensure_fetch_tailer e w in
    let shown : TestRun = record v.run {
      status = record v.run.status { stages = stages_now v.run e.pod (some res) };
    } in
    let m : is_terminal_phase shown.status.phase ≡ false =
      subst (λ (q : TestRun). is_terminal_phase q.status.phase ≡ false)
        (sym (ensure_fetch_tailer_run e w)) n in
    let step : reconcile e w
        ≡ terminal_and_delete_job e 0 shown res.phase unstated res.error_message true v =
      reconcile_step e w d f n
      ∙ advance_step e w h
      ∙ observe_step e w job spec s c p g j
      ∙ inspect_step e w job i k
      ∙ job_ended_step e v job res r in
    (
      ap (λ (q : World × Outcome). q.0.run.status.phase) step
          ∙ ap (λ (q : TestRun). q.status.phase)
              (terminal_and_delete_job_run e shown res.phase unstated res.error_message v m t a
                true),
      ap (λ (q : World × Outcome). q.0.job)
            (step
              ∙ terminal_and_delete_job_ok e shown res.phase unstated res.error_message v m t a
                  true)
          ∙ after_terminal_job e _ x,
    )
