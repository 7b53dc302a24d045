-- ===== src/Controller/Running.antt =====
-- internal/controller/testrun_controller.go: the branches of `reconcile` for a run that is not over.
use kubetest_alt.Base.{
  ◌≡◌, refl, sym, Bool, true, false, not, Option, none, some, Str, codes, arith,
}
use mathlib.Core.Path.{subst, ◌∙◌}
use kubetest_alt.Api.{Phase, AbortRequest}
use kubetest_alt.Controller.Phases.{is_terminal_phase, Job, Reason, orphan_job_missing}
use kubetest_alt.Controller.Infra.{RunResult, analyze_pod}
use kubetest_alt.Controller.Stages.{stages_now}
use kubetest_alt.Controller.World.{update_status, terminal_and_delete_job, is_running}
use kubetest_alt.Controller.State.{Env, World}
use kubetest_alt.Controller.Progress.{
  Progress, goes_on, ends, Before, before, terminal_and_delete_job-Progress,
}
use kubetest_alt.Controller.Starting.{
  kept, update_status-Progress, write_error-Progress, first_passes-Progress,
}
use kubetest_alt.Controller.Inspect.{
  ensure_fetch_tailer, end_with_result, job_ended, show_stages, promoted, promote, job_running,
  inspect, tail_logs, count_start,
}
use kubetest_alt.Controller.Reconcile.{
  store_job, record_job_name, create_job, observe_or_create_job, job_missing, add_finalizer,
  advance_run, reconcile_open, reconcile_abort, reconcile,
}

tail_logs_run : (e : Env) (w : World) → (tail_logs e w).run ≡ w.run
unfolding tail_logs
tail_logs_run e w = ground arith

tail_logs-before : (e : Env) (w : World) → before (tail_logs e w) ≡ before w
unfolding tail_logs
tail_logs-before e w = ground arith

count_start-Progress :
    (e : Env) (b : Before) (started : Bool) (w : World)
    → Progress e b w
    → Progress e b (count_start started w)
unfolding count_start
count_start-Progress e b false w p = p
count_start-Progress e b true w (goes_on n j h d) = goes_on n j h d
count_start-Progress e b true w (ends r h d t) = ends r h d t

pub ensure_fetch_tailer_run : (e : Env) (w : World) → (ensure_fetch_tailer e w).run ≡ w.run
unfolding ensure_fetch_tailer
ensure_fetch_tailer_run e w = ground arith

ensure_fetch_tailer-before : (e : Env) (w : World) → before (ensure_fetch_tailer e w) ≡ before w
unfolding ensure_fetch_tailer
ensure_fetch_tailer-before e w = ground arith

show_stages_phase :
    (e : Env) (w : World) → (show_stages e w).0.run.status.phase ≡ w.run.status.phase
unfolding show_stages update_status
show_stages_phase e w = ground arith

show_stages-before : (e : Env) (w : World) → before (show_stages e w).0 ≡ before w
unfolding show_stages update_status
show_stages-before e w = ground arith

module _ (e : Env) (w : World) (n : is_terminal_phase w.run.status.phase ≡ false) where
  same : Progress e (before w) w
  same = kept e w n

  end_run-Progress :
      (phase : Phase) (cause : Reason) (msg : Str) (with_job : Bool)
      → Progress e (before w) (terminal_and_delete_job e 0 w.run phase cause msg with_job w).0
  end_run-Progress phase cause msg with_job =
      terminal_and_delete_job-Progress e 0 w.run phase cause msg w n n with_job

  -- The run ends with its course as the pod shows it.
  end_with_stages-Progress :
      (res : Option RunResult) (phase : Phase) (cause : Reason) (msg : Str)
      → Progress e
          (before w)
          (terminal_and_delete_job e 0
            (record w.run { status = record w.run.status { stages = stages_now w.run e.pod res } })
            phase
            cause
            msg
            true
            w).0
  end_with_stages-Progress res phase cause msg =
      terminal_and_delete_job-Progress e 0 _ phase cause msg w n n true

  end_with_result-Progress : (res : RunResult) → Progress e (before w) (end_with_result e res w).0
  unfolding end_with_result
  end_with_result-Progress res = end_with_stages-Progress (some res) _ _ _

  job_ended-Progress : (job : Job) → Progress e (before w) (job_ended e job w).0
  unfolding job_ended
  job_ended-Progress job = grind (arith, same, end_with_result-Progress, end_run-Progress)

  tailed-Progress : Progress e (before w) (tail_logs e w)
  tailed-Progress =
      subst (λ b. Progress e b (tail_logs e w)) (tail_logs-before e w)
        (kept e (tail_logs e w) (rw (tail_logs_run e w) n))

  written-Progress :
      Progress e
        (before w)
        (update_status (e.status_update 1) (promoted e.now e.pod w.run) (tail_logs e w))
  unfolding promoted is_terminal_phase
  written-Progress =
      subst
        (λ b.
          Progress e b
            (update_status (e.status_update 1) (promoted e.now e.pod w.run) (tail_logs e w)))
        (tail_logs-before e w)
        (update_status-Progress e (e.status_update 1) (promoted e.now e.pod w.run) (tail_logs e w)
          refl (rw (tail_logs_run e w) n))

  counted-Progress :
      (started : Bool)
      → Progress e (before w) (
          count_start started
            (update_status (e.status_update 1) (promoted e.now e.pod w.run) (tail_logs e w)))
  counted-Progress started = count_start-Progress e (before w) started _ written-Progress

  promote-Progress : Progress e (before w) (promote e w).0
  unfolding promote
  promote-Progress = ground (
    arith,
    tailed-Progress,
    written-Progress,
    counted-Progress (not (is_running w.run.status.phase)),
  )

  named-Progress :
      (name : Str)
      → Progress e (before w) (
          update_status
            (e.status_update 0)
            (record w.run { status = record w.run.status { job_name = name } })
            w)
  named-Progress name = update_status-Progress e (e.status_update 0) _ w n n

  record_job_name-Progress : (name : Str) → Progress e (before w) (record_job_name e name w).0
  unfolding record_job_name
  record_job_name-Progress name = grind (arith, same, named-Progress)

  reconcile_abort-Progress :
      (req : AbortRequest) → Progress e (before w) (reconcile_abort e req w).0
  unfolding reconcile_abort
  reconcile_abort-Progress req = grind (arith, same, end_run-Progress)

promoted_later-Progress :
    (e : Env) (w v : World)
    → is_terminal_phase v.run.status.phase ≡ false
    → before v ≡ before w
    → Progress e (before w) (promote e v).0
promoted_later-Progress e w v n b =
    subst (λ x. Progress e x (promote e v).0) b (promote-Progress e v n)

later-Progress :
    (e : Env) (w v : World)
    → is_terminal_phase v.run.status.phase ≡ false
    → before v ≡ before w
    → Progress e (before w) v
later-Progress e w v n b = subst (λ x. Progress e x v) b (kept e v n)

job_running-Progress :
    (e : Env) (w : World)
    → is_terminal_phase w.run.status.phase ≡ false
    → Progress e (before w) (job_running e w).0
unfolding job_running
job_running-Progress e w n =
    let v = (show_stages e w).0 in
    let m : is_terminal_phase v.run.status.phase ≡ false = rw (show_stages_phase e w) n in
    let q = promoted_later-Progress e w v m (show_stages-before e w) in
    let r = later-Progress e w v m (show_stages-before e w) in ground (arith, q, r)

shifted :
    (e : Env) (w v u : World)
    → before v ≡ before w
    → Progress e (before v) u
    → Progress e (before w) u
shifted e w v u b = subst (λ x. Progress e x u) b

inspect-Progress :
    (e : Env) (w : World) (job : Job)
    → is_terminal_phase w.run.status.phase ≡ false
    → Progress e (before w) (inspect e job w).0
unfolding inspect
inspect-Progress e w job n =
    let v = ensure_fetch_tailer e w in
    let m : is_terminal_phase v.run.status.phase ≡ false = rw (ensure_fetch_tailer_run e w) n in
    let b = ensure_fetch_tailer-before e w in
    let infra = analyze_pod e.pod e.now e.unschedulable_timeout in
    ground (
      arith,
      shifted e w v (job_running e v).0 b (job_running-Progress e v m),
      shifted e w v (job_ended e job v).0 b (job_ended-Progress e v m job),
      shifted e w v _ b
          (end_with_stages-Progress e v m none Phase.error infra.reason infra.message),
    )

-- A Job that is there stays there when one is created.
store_job_keeps :
    (name : Str) (w : World) (j : Job) → w.job ≡ some j → (store_job name w).job ≡ some j
unfolding store_job
store_job_keeps name w j h = ground arith

store_job_same :
    (name : Str) (w : World)
    → (w.run ≡ (store_job name w).run)
      × (w.history ≡ (store_job name w).history)
      × (w.deliveries ≡ (store_job name w).deliveries)
      × (w.runs_total ≡ (store_job name w).runs_total)
unfolding store_job
store_job_same name w = ground arith

stored_job-Progress :
    (e : Env) (name : Str) (w u : World)
    → Progress e (before (store_job name w)) u
    → Progress e (before w) u
stored_job-Progress e name w u (goes_on n j h d) =
    let (_, k, l, _) = store_job_same name w in
    goes_on n (λ i eq. j i (store_job_keeps name w i eq)) (h ∙ sym k) (d ∙ sym l)
stored_job-Progress e name w u (ends r h d t) =
    let (_, k, l, m) = store_job_same name w in ends r (rw k h) (rw l d) (rw m t)

module _ (e : Env) (w : World) (n : is_terminal_phase w.run.status.phase ≡ false) where
  new_job-Progress :
      (name : Str) → Progress e (before w) (record_job_name e name (store_job name w)).0
  new_job-Progress name = stored_job-Progress e name w _ (
      record_job_name-Progress e (store_job name w)
        (subst (λ r. is_terminal_phase r.status.phase ≡ false) (store_job_same name w).0 n) name)

  create_job-Progress : Progress e (before w) (create_job e w).0
  unfolding create_job
  create_job-Progress = grind (
    arith,
    kept e w n,
    new_job-Progress,
    record_job_name-Progress e w n,
    write_error-Progress e w n,
  )

  job_missing-Progress : Progress e (before w) (job_missing e w).0
  unfolding job_missing
  job_missing-Progress =
      let m =
        write_error-Progress e w n orphan_job_missing
          (codes "Job was deleted before status persisted; run cannot continue") in
      ground (arith, kept e w n, create_job-Progress, m)

  inspected-Progress : (job : Job) → Progress e (before w) (inspect e job w).0
  inspected-Progress job = inspect-Progress e w job n

  observe_or_create_job-Progress : Progress e (before w) (observe_or_create_job e w).0
  unfolding observe_or_create_job
  observe_or_create_job-Progress =
      grind (arith, kept e w n, job_missing-Progress, inspected-Progress)

  advance_run-Progress : Progress e (before w) (advance_run e w).0
  unfolding advance_run
  advance_run-Progress =
      ground (arith, kept e w n, first_passes-Progress e w n, observe_or_create_job-Progress)

  reconcile_open-Progress : Progress e (before w) (reconcile_open e w).0
  unfolding reconcile_open
  reconcile_open-Progress = grind (arith, reconcile_abort-Progress e w n, advance_run-Progress)

  add_finalizer-Progress : Progress e (before w) (add_finalizer e w).0
  unfolding add_finalizer
  add_finalizer-Progress =
      let marked : Progress e (before w)
          (record w { run = record w.run { has_finalizer = true } }) =
        goes_on n (λ j k. k) refl refl in
      ground (arith, kept e w n, marked)

  pub reconcile-Progress : w.run.is_deleting ≡ false → Progress e (before w) (reconcile e w).0
  unfolding reconcile
  reconcile-Progress h = ground (arith, n, h, reconcile_open-Progress, add_finalizer-Progress)
