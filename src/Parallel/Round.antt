-- ===== src/Parallel/Round.antt =====
-- internal/controller/parallel.go: the round of one worker.
use kubetest_alt.Base.{
  ℕ, Bool, true, false, not, ◌&&◌, Option, none, some, [], ◌∷◌, ◌++◌, codes, is_there,
  if◌then◌else◌,
}
use kubetest_alt.Api.{StepPhase}
use kubetest_alt.Controller.Phases.{
  ContainerStateTerminated, Job, Pod, Reason, reason_text, JobConclusion, job_still_running,
  inspect_job,
}
use kubetest_alt.Controller.Infra.{
  analyze_pod, is_pod_running, wrapper_terminated, fallback_phase_from_job_failure,
}
use kubetest_alt.Controller.Stages.{same_stages}
use kubetest_alt.Controller.Derivation.{
  fetch_name_of, is_empty, is_set, container_status, container_content_fetcher, start_end,
}
use kubetest_alt.Controller.State.{GetAnswer, get_ok, get_lagging, get_failed}
use kubetest_alt.Parallel.Workers.{Worker}
use kubetest_alt.Parallel.World.{
  WorkerStep, worker_at, put_worker, WorkerResult, WorkerAnswer, worker_read, worker_nil,
  worker_not_found, worker_transient, worker_malformed, ParallelEnv, ParallelPass, finish_worker,
  error_result, end_worker, is_terminal_step,
}
use kubetest_alt.Parallel.Creation.{
  WorkerEnd, worker_stages, create_worker, worker_finished, worker_finished_now, worker_going,
  worker_error,
}

-- The Job was created earlier and is not in the cache.
unfoldable pub lost_worker :
    ParallelEnv → Worker → Option Job → ParallelPass → ParallelPass × WorkerEnd
unfolding finish_worker
lost_worker e w job p =
    if e.base.has_api_reader && (e.live_get_ok w.index && is_there job)
    then (p, worker_going)
    else (
      finish_worker e w.index
          (error_result (
            reason_text Reason.orphan_job_missing
            ++ codes ": worker Job was deleted before it finished"))
          p,
      worker_finished,
    )

abbrev pub is_unset_step : StepPhase → Bool
is_unset_step StepPhase.unset = true
is_unset_step _ = false

unfoldable pub worker_missing :
    ParallelEnv → Worker → Option Job → ParallelPass → ParallelPass × WorkerEnd
unfolding lost_worker create_worker
worker_missing e w job p =
    if is_unset_step (worker_at p.steps w.index).phase
    then create_worker e w (e.compile w.index) p
    else lost_worker e w job p

-- `ensureFetchTailer` of a worker, with its pod.
unfoldable pub tail_fetch : ParallelEnv → ℕ → Option Pod → ParallelPass → ParallelPass
tail_fetch e i none p = p
tail_fetch e i (some pod) p =
    if e.base.has_registry
      && (e.base.tail_ok
          && (not (is_empty (fetch_name_of p.run.status.resolved_spec))
              && is_set
                  (start_end (
                    container_status pod.init_container_statuses container_content_fetcher)).start))
    then record p { fetch_tailers = i ∷ p.fetch_tailers }
    else p

-- The worker's step with its stages, where they changed.
unfoldable pub show_worker_stages : ParallelEnv → ℕ → ParallelPass → ParallelPass
unfolding worker_stages
show_worker_stages e i p =
    let step = worker_at p.steps i in
    let stages = worker_stages p.run step (e.pod i) none in
    if is_there (e.pod i) && not (same_stages stages step.stages)
    then record p { steps = put_worker p.steps i (record step { stages = stages }) }
    else p

-- `FallbackPhaseFromJobFailure` as a result.
unfoldable pub fallback_result : Job → Option Pod → WorkerResult
fallback_result job pod =
    let (phase, reason, msg) = fallback_phase_from_job_failure (some job) pod in
    record {
      result = record {
        phase = phase;
        error_message = reason_text reason ++ (codes ": " ++ msg);
        tool_finished_at = none;
      };
      content = none;
      test_counts = none;
      artifacts = [];
    }

abbrev pub result_or : WorkerResult → Option WorkerResult → WorkerResult
result_or fallback none = fallback
result_or fallback (some res) = res

-- `workerResult` where there is no stored result, with what the wrapper left: `ResultFromTermination`,
-- or the fallback.
unfoldable pub left_result :
    ParallelEnv → WorkerResult → Option ContainerStateTerminated → WorkerResult
left_result e fallback none = fallback
left_result e fallback (some t) = result_or fallback (e.parse_summary t.message)

-- `workerResult`, by what the result store says; none is an error that passes.
unfoldable pub worker_result : ParallelEnv → ℕ → Job → WorkerAnswer → Option WorkerResult
unfolding left_result fallback_result
worker_result e i job (worker_read res) = some res
worker_result e i job (worker_malformed msg) =
    some (error_result (reason_text Reason.malformed_result ++ (codes ": " ++ msg)))
worker_result e i job worker_nil =
    some (left_result e (fallback_result job (e.pod i)) (wrapper_terminated (e.pod i)))
worker_result e i job worker_not_found =
    some (left_result e (fallback_result job (e.pod i)) (wrapper_terminated (e.pod i)))
worker_result e i job worker_transient = none

-- A Job that ended, with the worker's result.
unfoldable pub worker_ended :
    ParallelEnv → ℕ → Option WorkerResult → ParallelPass → ParallelPass × WorkerEnd
unfolding worker_stages end_worker
worker_ended e i none p = (p, worker_error)
worker_ended e i (some res) p =
    let step = worker_at p.steps i in
    let stages = worker_stages p.run step (e.pod i) (some res.result) in
    (
      end_worker e i res
          (record p { steps = put_worker p.steps i (record step { stages = stages }) }),
      worker_finished_now,
    )

-- The step of a worker whose pod runs.
unfoldable pub running_step : ParallelEnv → ℕ → WorkerStep → WorkerStep
running_step e i step =
    let started : WorkerStep = elim step.phase [
      | StepPhase.running ↦ step
      | _ ↦ record step { phase = StepPhase.running; started_at = some e.base.now }
    ] in
    elim (e.pod i) [
      | none ↦ started
      | some pod ↦ if is_empty pod.pod_ip then started else record started { pod_ip = pod.pod_ip }
    ]

unfoldable pub worker_running : ParallelEnv → ℕ → ParallelPass → ParallelPass × WorkerEnd
unfolding running_step
worker_running e i p =
    if is_pod_running (e.pod i)
    then (
      record p {
        tailers = if e.base.has_registry && e.base.tail_ok then i ∷ p.tailers else p.tailers;
        steps = put_worker p.steps i (running_step e i (worker_at p.steps i));
      },
      worker_going,
    )
    else (p, worker_going)

unfoldable pub judge_job :
    ParallelEnv → ℕ → Job → JobConclusion → ParallelPass → ParallelPass × WorkerEnd
unfolding worker_running worker_ended worker_result
judge_job e i job job_still_running p = worker_running e i p
judge_job e i job _ p =
    worker_ended e i (worker_result e i job (if e.can_read then e.result i else worker_not_found)) p

-- The Job is there.
unfoldable pub inspect_worker : ParallelEnv → Worker → Job → ParallelPass → ParallelPass × WorkerEnd
unfolding judge_job show_worker_stages tail_fetch end_worker
inspect_worker e w job p0 =
    let i = w.index in
    let p = show_worker_stages e i (tail_fetch e i (e.pod i) p0) in
    let infra = analyze_pod (e.pod i) e.base.now e.base.unschedulable_timeout in
    if not (is_empty (reason_text infra.reason))
    then (
      end_worker e i (error_result (reason_text infra.reason ++ (codes ": " ++ infra.message))) p,
      worker_finished_now,
    )
    else judge_job e i job (inspect_job (some job)) p

-- The round of a worker without a verdict, with what the reader says of its Job.
unfoldable pub found_worker :
    ParallelEnv → Worker → GetAnswer → Option Job → ParallelPass → ParallelPass × WorkerEnd
unfolding inspect_worker worker_missing
found_worker e w get_failed job p = (p, worker_error)
found_worker e w get_lagging job p = worker_missing e w job p
found_worker e w get_ok none p = worker_missing e w none p
found_worker e w get_ok (some job) p = inspect_worker e w job p

-- `reconcileWorker`.
unfoldable pub reconcile_worker : ParallelEnv → Worker → ParallelPass → ParallelPass × WorkerEnd
unfolding found_worker is_terminal_step
reconcile_worker e w p =
    if is_terminal_step (worker_at p.steps w.index).phase
    then (p, worker_finished)
    else found_worker e w (e.get_job w.index) (p.jobs w.index) p
