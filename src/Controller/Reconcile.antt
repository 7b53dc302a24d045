-- ===== src/Controller/Reconcile.antt =====
-- internal/controller/testrun_controller.go: one reconcile of a TestRun. Composite and parallel runs
-- and runs with services are handed on to their own reconcilers: Composite, Parallel and Services model them.
use kubetest_alt.Base.{
  ℕ, ◌+◌, ◌-◌, true, false, not, ◌&&◌, ◌||◌, Option, none, some, [], ◌++◌, Str, codes, str_eq, ltb,
  ◌==◌, if◌then◌else◌,
}
use kubetest_alt.Api.{Phase, absent, snapshot, malformed, AbortRequest}
use kubetest_alt.Controller.Phases.{
  is_terminal_phase, Job, Reason, compile_error, orphan_job_missing, aborted_by_concurrency,
  aborted_by_parent, aborted_by_user,
}
use kubetest_alt.Controller.Derivation.{is_empty}
use kubetest_alt.Controller.World.{
  of_answer, requeue_on_conflict, update_status, transition_terminal, persist_finished,
  stop_tailers, delete_job, terminal_and_delete_job,
}
use kubetest_alt.Controller.State.{
  succeeded, created, already_exists, create_failed, invalid, compiled, compile_failed, get_ok,
  get_failed, Env, World, Outcome, done, requeue_after, error, handed_on,
}
use kubetest_alt.Controller.Setup.{cache_lag_requeue, first_passes}
use kubetest_alt.Controller.Inspect.{is_composite_run, is_parallel_run, inspect}

-- The Job is created under the run's name; it has not ended yet.
unfoldable pub store_job : Str → World → World
store_job name w = elim w.job [
  | some _ ↦ w
  | none ↦ record w { job = some (record { name = name; conditions = [] }) }
]

-- `run.Status.JobName = job.Name`, written unless it is there.
unfoldable pub record_job_name : Env → Str → World → World × Outcome
record_job_name e name w = if str_eq w.run.status.job_name name then (w, done) else (
  update_status (e.status_update 0)
      (record w.run { status = record w.run.status { job_name = name } }) w,
  of_answer (e.status_update 0),
)

-- `createJob`, which is entered only when there is a snapshot.
unfoldable pub create_job : Env → World → World × Outcome
create_job e w =
    let compiled_job : World × Outcome = elim e.compile [
      | compile_failed msg ↦ transition_terminal e 0 w.run Phase.error compile_error msg w
      | compiled name ↦ elim e.create [
        | created ↦ record_job_name e name (store_job name w)
        | already_exists ↦ record_job_name e name w
        | create_failed ↦ (w, error)
        | invalid msg ↦
            transition_terminal e 0 w.run Phase.error compile_error
              (codes "Job rejected by the API server: " ++ msg) w
      ]
    ] in
    elim w.run.status.resolved_spec [
      | snapshot spec ↦ if spec.services == 0 then compiled_job else (w, handed_on)
      | malformed msg ↦
          transition_terminal e 0 w.run Phase.error compile_error
            (codes "resolvedSpec unmarshal: " ++ msg) w
      | absent ↦ (w, error)
    ]

-- What `r.Get` says of the Job: the cache may lag behind the API server.
unfoldable pub cached_job : Env → World → Option Job
cached_job e w = elim e.get_job [ get_ok ↦ w.job | _ ↦ none ]

-- The Job is not in the cache.
unfoldable pub job_missing : Env → World → World × Outcome
job_missing e w =
    if is_empty w.run.status.job_name
    then create_job e w
    else if e.has_api_reader && not e.live_get_ok
    then (w, error)
    else if e.has_api_reader && elim w.job [ none ↦ false | some _ ↦ true ]
    then (w, requeue_after cache_lag_requeue)
    else transition_terminal e 0 w.run Phase.error orphan_job_missing
        (codes "Job was deleted before status persisted; run cannot continue") w

-- `observeOrCreateJob`.
unfoldable pub observe_or_create_job : Env → World → World × Outcome
observe_or_create_job e w = elim e.get_job [
  | get_failed ↦ (w, error)
  | _ ↦ elim (cached_job e w) [ some job ↦ inspect e job w | none ↦ job_missing e w ]
]

-- `abortStatus`.
unfoldable pub abort_status : AbortRequest → Reason × Str
abort_status req =
    let reason =
      if str_eq req.reason (codes "Concurrency")
      then aborted_by_concurrency
      else if str_eq req.reason (codes "Parent")
      then aborted_by_parent
      else aborted_by_user in
    let by = codes "(requested by " ++ (req.requested_by ++ codes ")") in
    (
      reason,
      if is_empty req.requested_by
          then req.message
          else if is_empty req.message
          then by
          else req.message ++ (codes " " ++ by),
    )

-- `reconcileAbort`.
unfoldable pub reconcile_abort : Env → AbortRequest → World → World × Outcome
reconcile_abort e req w =
    let (reason, msg) = abort_status req in
    if is_composite_run w.run || is_parallel_run w.run then (w, handed_on) else elim e.get_job [
      | get_failed ↦ (w, error)
      | _ ↦
          terminal_and_delete_job e 0 w.run Phase.aborted reason msg
            (elim (cached_job e w) [ some _ ↦ true | none ↦ false ]) w
    ]

-- `finalize`: its Job first, then the finalizer.
unfoldable pub finalize : Env → World → World × Outcome
finalize e w0 =
    let w = record (stop_tailers e w0) { is_persisted = false } in
    let released : World → World × Outcome = λ v. (
      elim e.update [
        | succeeded ↦ record v { run = record v.run { has_finalizer = false } }
        | _ ↦ v
      ],
      of_answer e.update,
    ) in
    if not w0.run.has_finalizer then (w0, done) else elim e.get_job [
      | get_failed ↦ (w, error)
      | _ ↦ elim (cached_job e w) [
        | none ↦ released w
        | some _ ↦ if e.delete_ok then released (delete_job e w) else (w, error)
      ]
    ]

abbrev pub expire_retry : ℕ
expire_retry = 60000000000

-- `expireFinished`.
unfoldable pub expire_finished : Env → World → World × Outcome
expire_finished e w = elim w.run.status.finished_at [
  | none ↦ (w, done)
  | some finished ↦
      if e.finished_run_ttl == 0 || (not e.has_run_store || not (is_empty w.run.parent_run))
      then (w, done)
      else if not w.is_persisted
      then (w, requeue_after expire_retry)
      else if ltb e.now (finished + e.finished_run_ttl)
      then (w, requeue_after (finished + e.finished_run_ttl - e.now))
      else if is_composite_run w.run
      then (w, handed_on)
      else (
        elim e.delete_run [
          | succeeded ↦ record w { run = record w.run { is_deleting = true } }
          | _ ↦ w
        ],
        of_answer e.delete_run,
      )
]

-- A run that nobody asks to abort: its setup, and then its Job.
unfoldable pub advance_run : Env → World → World × Outcome
advance_run e w = elim w.run.status.resolved_spec [
  | absent ↦ first_passes e w
  | _ ↦
      if is_composite_run w.run || is_parallel_run w.run
      then (w, handed_on)
      else observe_or_create_job e w
]

-- The run is not over and not to be deleted.
unfoldable pub reconcile_open : Env → World → World × Outcome
reconcile_open e w = elim w.run.abort [
  | some req ↦ reconcile_abort e req w
  | none ↦ advance_run e w
]

unfoldable pub add_finalizer : Env → World → World × Outcome
add_finalizer e w = (
  elim e.update [ succeeded ↦ record w { run = record w.run { has_finalizer = true } } | _ ↦ w ],
  of_answer e.update,
)

-- `reconcile`, of a run that is there and could be read.
unfoldable pub reconcile : Env → World → World × Outcome
reconcile e w =
    if w.run.is_deleting
    then finalize e w
    else if not w.run.has_finalizer
    then add_finalizer e w
    else if is_terminal_phase w.run.status.phase
    then expire_finished e (persist_finished e w)
    else reconcile_open e w

-- `Reconcile`.
unfoldable pub reconcile_request : Env → World → World × Outcome
reconcile_request e w = let (w', o) = reconcile e w in (w', requeue_on_conflict o)
