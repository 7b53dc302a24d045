-- ===== src/Parallel/Pass.antt =====
-- internal/controller/parallel.go: one pass over a parallel run.
use mathlib.Core.Bool.{decide}
use native.Mathlib.Decide.{ℕ_discrete}
use kubetest_alt.Base.{
  ℕ, Bool, false, Option, none, some, List, [], ◌∷◌, ◌++◌, Str, codes, length, ltb, ◌==◌,
  if◌then◌else◌,
}
use kubetest_alt.Api.{
  Phase, TestSpec, TestRunStatus, TestRun, Snapshot, absent, snapshot, malformed,
}
use kubetest_alt.Controller.Phases.{Reason}
use kubetest_alt.Controller.World.{
  of_answer, is_running, time_or, transition_terminal, terminal_and_delete_job,
}
use kubetest_alt.Controller.State.{Answer, succeeded, get_ok, World, Outcome, done, requeue_after}
use kubetest_alt.Services.World.{ServicesState}
use kubetest_alt.Services.Ensure.{ensure_services, settle_services}
use kubetest_alt.Parallel.Workers.{Worker, parallel_workers}
use kubetest_alt.Parallel.World.{
  WorkerMap, Totals, ParallelEnv, ParallelPass, set_job, stop_worker_tailers,
}
use kubetest_alt.Parallel.Loop.{parallel_poll, aggregate_workers, Swept, sweep, sweep_error, swept}

-- `deleteWorkerJobs`.
unfoldable pub delete_worker_jobs : ParallelEnv → List ℕ → ParallelPass → ParallelPass
unfolding set_job
delete_worker_jobs e [] p = p
delete_worker_jobs e (i ∷ is) p =
    delete_worker_jobs e is (if e.delete_ok i then record p { jobs = set_job i none p.jobs } else p)

-- The promotion of the run to Running, in the pass's copy.
unfoldable pub start_parallel : ParallelEnv → TestRun → TestRun
start_parallel e run = if is_running run.status.phase then run else record run {
  status = record (run.status) {
    phase = Phase.running;
    message = [];
    started_at = some (time_or run.status.started_at e.base.now);
  };
}

pub Status-discrete : Discrete (TestRunStatus × WorkerMap × Totals)
Status-discrete = hlevel ℕ_discrete

-- `statusEqual`.
unfoldable pub status_equal :
    TestRunStatus × WorkerMap × Totals → TestRunStatus × WorkerMap × Totals → Bool
status_equal a b = decide (Status-discrete a b)

-- The run's status, with its steps and totals.
abbrev pub status_of : ParallelPass → TestRunStatus × WorkerMap × Totals
status_of p = (p.run.status, p.steps, p.totals)

-- What is done once the run's status is stored, or there was nothing to store.
unfoldable pub after_store : ParallelEnv → List ℕ → Answer → ParallelPass → ParallelPass × Outcome
unfolding delete_worker_jobs
after_store e jobs succeeded p = (
  delete_worker_jobs e jobs (record p {
    world = record (p.world) { run = p.run };
    stored_steps = p.steps;
    stored_totals = p.totals;
  }),
  requeue_after parallel_poll,
)
after_store e jobs a p = (p, of_answer a)

-- Some worker has not finished.
unfoldable pub go_on :
    ParallelEnv
    → TestRunStatus × WorkerMap × Totals
    → List ℕ
    → ParallelPass
    → ParallelPass × Outcome
unfolding after_store delete_worker_jobs status_equal
go_on e before jobs p =
    if status_equal before (status_of p)
    then (delete_worker_jobs e jobs p, requeue_after parallel_poll)
    else after_store e jobs (e.base.status_update 0) p

-- The services and the Jobs once the terminal phase is stored, with what `terminalAndDeleteJob` gave.
unfoldable pub after_end :
    ParallelEnv → List ℕ → ParallelPass → World × Outcome → ParallelPass × Outcome
unfolding delete_worker_jobs settle_services
after_end e jobs p (w, done) = (
  delete_worker_jobs e jobs (record p {
    world = w;
    stored_steps = p.steps;
    stored_totals = p.totals;
    services = settle_services e.services done (record (p.services) { world = w });
  }),
  done,
)
after_end e jobs p (w, o) = (record p { world = w }, o)

-- Every worker has finished: the run ends.
unfoldable pub end_parallel : ParallelEnv → ℕ → List ℕ → ParallelPass → ParallelPass × Outcome
unfolding after_end aggregate_workers
end_parallel e n jobs p =
    let (phase, msg) = aggregate_workers p.steps n in
    after_end e jobs p
      (terminal_and_delete_job e.base 0 p.run phase Reason.unstated msg false p.world)

-- Past the loop over the workers, of which there are `n`.
unfoldable pub after_sweep :
    ParallelEnv
    → TestRunStatus × WorkerMap × Totals
    → ℕ
    → ParallelPass × Swept
    → ParallelPass × Outcome
unfolding go_on end_parallel start_parallel
after_sweep e before n (p, sweep_error) = (p, Outcome.error)
after_sweep e before n (p, swept finished jobs) =
    let q = record p { run = start_parallel e p.run } in
    if ltb finished n then go_on e before jobs q else end_parallel e n jobs q

unfoldable pub run_workers : ParallelEnv → List Worker → ParallelPass → ParallelPass × Outcome
unfolding after_sweep sweep
run_workers e ws p = after_sweep e (status_of p) (length ws) (sweep e ws p)

-- Past the services: they let the pass go on, or its outcome is theirs.
unfoldable pub after_ensure :
    ParallelEnv
    → List Worker
    → ParallelPass
    → ServicesState × Option Outcome
    → ParallelPass × Outcome
unfolding run_workers
after_ensure e ws p (s, some o) = (record p { world = s.world; services = s }, o)
after_ensure e ws p (s, none) = run_workers e ws (record p { world = s.world; services = s })

abbrev pub workers_of : TestSpec → List Worker
workers_of spec = elim spec.parallel [ some q ↦ parallel_workers q | none ↦ [] ]

unfoldable pub reconcile_spec : ParallelEnv → TestSpec → ParallelPass → ParallelPass × Outcome
unfolding after_ensure
reconcile_spec e spec p =
    if spec.services == 0
    then run_workers e (workers_of spec) p
    else after_ensure e (workers_of spec) p
        (ensure_services e.services (record (p.services) { world = p.world }))

-- A run whose snapshot is no spec.
unfoldable pub bad_spec : ParallelEnv → Str → ParallelPass → ParallelPass × Outcome
bad_spec e why p =
    let (w, o) =
      transition_terminal e.base 0 p.run Phase.error Reason.compile_error
        (codes "resolvedSpec unmarshal: " ++ why) p.world in
    (record p { world = w }, o)

unfoldable pub reconcile_snapshot : ParallelEnv → ParallelPass → Snapshot → ParallelPass × Outcome
unfolding reconcile_spec bad_spec
reconcile_snapshot e p absent = bad_spec e (codes "unexpected end of JSON input") p
reconcile_snapshot e p (malformed why) = bad_spec e why p
reconcile_snapshot e p (snapshot spec) = reconcile_spec e spec p

-- `reconcileParallel`.
unfoldable pub reconcile_parallel : ParallelEnv → ParallelPass → ParallelPass × Outcome
unfolding reconcile_snapshot
reconcile_parallel e p = reconcile_snapshot e p p.run.status.resolved_spec

-- `stopWorkers`: the tailers of every worker, and its Job where the reader finds one.
unfoldable pub stop_workers : ParallelEnv → List Worker → ParallelPass → ParallelPass
unfolding stop_worker_tailers set_job
stop_workers e [] p = p
stop_workers e (w ∷ ws) p =
    let i = w.index in
    let q = stop_worker_tailers e i p in
    stop_workers e ws (
      if elim (e.get_job i) [ get_ok ↦ e.delete_ok i | _ ↦ false ]
      then record q { jobs = set_job i none q.jobs }
      else q)

-- `reconcileAbort` of a parallel run, with the reason and message of `abortStatus`.
unfoldable pub abort_parallel :
    ParallelEnv → TestSpec → Reason → Str → ParallelPass → ParallelPass × Outcome
unfolding stop_workers after_end
abort_parallel e spec reason msg p =
    let q = stop_workers e (workers_of spec) p in
    after_end e [] q (terminal_and_delete_job e.base 0 q.run Phase.aborted reason msg false q.world)
