-- ===== src/Controller/Inspect.antt =====
-- internal/controller/testrun_controller.go: what `inspectJob` makes of a Job and its pod.
use kubetest_alt.Base.{
  is_there, ℕ, ◌+◌, Bool, true, false, not, ◌&&◌, ◌||◌, Option, none, some, [], ◌∷◌, str_eq,
  if◌then◌else◌,
}
use kubetest_alt.Api.{Phase, Time, snapshot, TestRun}
use kubetest_alt.Controller.Phases.{
  Job, job_still_running, inspect_job, Pod, unstated, reason_text, malformed_result,
}
use kubetest_alt.Controller.Infra.{
  RunResult, analyze_pod, is_pod_running, result_from_termination, fallback_phase_from_job_failure,
}
use kubetest_alt.Controller.Stages.{stages_now, same_stages}
use kubetest_alt.Controller.Derivation.{
  fetch_name_of, container_status, container_content_fetcher, start_end, is_set, is_empty,
}
use kubetest_alt.Controller.World.{of_answer, update_status, terminal_and_delete_job, is_running}
use kubetest_alt.Controller.State.{
  Answer, succeeded, read_result, read_nil, not_found, transient, malformed_text, Env, World,
  Outcome, requeue_after, error,
}
use kubetest_alt.Controller.Setup.{or_some}

abbrev pub fallback_requeue : ℕ
fallback_requeue = 30000000000

-- `isCompositeRun` and `isParallelRun`.
unfoldable pub is_composite_run : TestRun → Bool
is_composite_run run = elim run.status.resolved_spec [
  | snapshot spec ↦ elim spec.steps [ [] ↦ false | _ ∷ _ ↦ true ]
  | _ ↦ false
]

unfoldable pub is_parallel_run : TestRun → Bool
is_parallel_run run = elim run.status.resolved_spec [
  | snapshot spec ↦ is_there spec.parallel
  | _ ↦ false
]

-- `ensureFetchTailer`.
unfoldable pub ensure_fetch_tailer : Env → World → World
ensure_fetch_tailer e w = elim e.pod [
  | none ↦ w
  | some pod ↦
      if e.has_registry
        && (e.tail_ok
            && (not (is_empty (fetch_name_of w.run.status.resolved_spec))
                && is_set
                    (start_end (
                      container_status pod.init_container_statuses
                        container_content_fetcher)).start))
      then record w { has_fetch_tailer = true }
      else w
]

-- The end of a run whose Job has ended and whose result is known.
unfoldable pub end_with_result : Env → RunResult → World → World × Outcome
end_with_result e res w =
    terminal_and_delete_job e 0
      (record w.run { status = record w.run.status { stages = stages_now w.run e.pod (some res) } })
      res.phase unstated res.error_message true w

-- The case of a Job that has ended.
unfoldable pub job_ended : Env → Job → World → World × Outcome
job_ended e job w =
    let left : World × Outcome = elim (result_from_termination e.parse_summary e.pod) [
      | some res ↦ end_with_result e res w
      | none ↦
          let (phase, reason, msg) = fallback_phase_from_job_failure (some job) e.pod in
          terminal_and_delete_job e 0 w.run phase reason msg true w
    ] in
    elim e.result [
      | read_result res ↦ end_with_result e res w
      | malformed_text msg ↦
          terminal_and_delete_job e 0 w.run Phase.error malformed_result msg true w
      | read_nil ↦ left
      | not_found ↦ left
      | transient ↦ (w, error)
    ]

-- The first status write of a Job that still runs: its stages. The flag tells whether it went well.
unfoldable pub show_stages : Env → World → World × Answer
show_stages e w =
    let stages = stages_now w.run e.pod none in
    if elim e.pod [ none ↦ false | some _ ↦ true ] && not (same_stages stages w.run.status.stages)
    then (
      update_status (e.status_update 0)
          (record w.run { status = record w.run.status { stages = stages } }) w,
      e.status_update 0,
    )
    else (w, succeeded)

-- `newIP`.
unfoldable pub has_new_ip : Option Pod → TestRun → Bool
has_new_ip none run = false
has_new_ip (some pod) run = not (is_empty pod.pod_ip) && not (str_eq pod.pod_ip run.status.pod_ip)

unfoldable pub promoted : Time → Option Pod → TestRun → TestRun
promoted now pod run = record run {
  status = record run.status {
    phase = Phase.running;
    started_at = or_some run.status.started_at now;
    pod_ip = elim pod [
      | none ↦ run.status.pod_ip
      | some p ↦ if is_empty p.pod_ip then run.status.pod_ip else p.pod_ip
    ];
  };
}

unfoldable pub tail_logs : Env → World → World
tail_logs e w = if e.has_registry && e.tail_ok then record w { has_tailer = true } else w

unfoldable pub count_start : Bool → World → World
count_start started w = if started then record w { active_inc = w.active_inc + 1 } else w

-- A running pod: its log tailer, the promotion to running, and then its place in the gauge.
unfoldable pub promote : Env → World → World × Outcome
promote e w =
    let started = not (is_running w.run.status.phase) in
    let written = update_status (e.status_update 1) (promoted e.now e.pod w.run) (tail_logs e w) in
    if started || has_new_ip e.pod w.run
    then elim (e.status_update 1) [
      | succeeded ↦ (count_start started written, requeue_after fallback_requeue)
      | a ↦ (written, of_answer a)
    ]
    else (tail_logs e w, requeue_after fallback_requeue)

unfoldable pub job_running : Env → World → World × Outcome
job_running e w =
    let (w', a) = show_stages e w in
    elim a [
      | succeeded ↦
          if is_pod_running e.pod then promote e w' else (w', requeue_after fallback_requeue)
      | other ↦ (w', of_answer other)
    ]

-- `inspectJob`.
unfoldable pub inspect : Env → Job → World → World × Outcome
inspect e job w0 =
    let w = ensure_fetch_tailer e w0 in
    let infra = analyze_pod e.pod e.now e.unschedulable_timeout in
    if not (is_empty (reason_text infra.reason))
    then terminal_and_delete_job e 0
        (record w.run { status = record w.run.status { stages = stages_now w.run e.pod none } })
        Phase.error infra.reason infra.message true w
    else elim (inspect_job (some job)) [
      | job_still_running ↦ job_running e w
      | _ ↦ job_ended e job w
    ]
