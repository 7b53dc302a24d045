-- ===== src/Parallel/Samples.antt =====
-- Workers and clusters on which the theorems of this part are tried out.
use mathlib.Core.Path.{subst}
use mathlib.Core.Bool.{decide}
use kubetest_alt.Controller.Infra.{analyze_pod}
use kubetest_alt.Base.{
  ℕ, ◌+◌, ◌/◌, ◌≤◌, ◌<◌, ◌≡◌, refl, true, false, none, some, List, [], ◌∷◌, Str, codes, ◌==◌,
  if◌then◌else◌, length, arith,
}
use kubetest_alt.Api.{
  Phase-discrete, step_phase_from_phase, Phase, StepPhase, ParallelSpec, TestSpec, TestRun,
  snapshot,
}
use kubetest_alt.Controller.Phases.{is_terminal_phase, reason_text, inspect_job}
use kubetest_alt.Controller.World.{
  terminal_and_delete_job, after_transition, transition_terminal, same_phase, after_terminal,
  update_status, ended, count_terminal,
}
use kubetest_alt.Controller.State.{get_ok, get_lagging, compiled, created}
use kubetest_alt.Controller.Samples.{
  cluster, plain_spec, active_run, world_of, ended_job, passed_result,
}
use kubetest_alt.Services.World.{compiled_services}
use kubetest_alt.Parallel.Workers.{Worker, parallel_workers, shard_part}
use kubetest_alt.Parallel.Shards.{first_parts, shards_cover}
use kubetest_alt.Parallel.World.{
  no_worker_step, WorkerMap, WorkerResult, worker_read, ParallelEnv, ParallelPass, worker_at,
  is_terminal_step,
}
use kubetest_alt.Parallel.Round.{reconcile_worker}
use kubetest_alt.Parallel.Numbering.{Numbered, parallel_workers-Numbered}
use kubetest_alt.Parallel.Pass.{reconcile_parallel}
use kubetest_alt.Parallel.Frames.{FinalResults}
use kubetest_alt.Parallel.Persisted.{Safe, reconcile_parallel-Safe}
use kubetest_alt.Parallel.Ended.{EndsRight, reconcile_parallel-ended}

abbrev two_workers : ParallelSpec
two_workers = record { count = some 2; max_count = none; matrix = []; shards = [] }

abbrev parallel_spec : TestSpec
parallel_spec = record plain_spec { parallel = some two_workers }

abbrev parallel_run : TestRun
parallel_run = record active_run {
  status = record (active_run.status) { resolved_spec = snapshot parallel_spec };
}

abbrev passed : WorkerResult
passed = record {
  result = passed_result;
  content = none;
  test_counts = some (record { total = 3; passed = 3; failed = 0; skipped = 0 });
  artifacts = [];
}

abbrev env : ParallelEnv
env = record {
  base = cluster 9;
  services = record {
    base = cluster 9;
    compiled = compiled_services [] [];
    services = [];
    create_service_ok = λ _. true;
    create_pod_ok = λ _. true;
    get_pod = λ _. get_ok;
    tail_ok = λ _. true;
    delete_pod_ok = λ _. true;
    delete_service_ok = λ _. true;
  };
  get_job = λ _. get_ok;
  live_get_ok = λ _. true;
  pod = λ _. none;
  can_read = true;
  result = λ _. worker_read passed;
  parse_summary = λ _. none;
  compile = λ _. compiled (codes "r1-w");
  create_aux_ok = λ _. true;
  create = λ _. created;
  delete_ok = λ _. true;
}

-- Worker 0 has passed before, and the Job of worker 1 has ended.
abbrev steps : WorkerMap
steps =
    (0, record no_worker_step { phase = StepPhase.passed; finished_at = some 4 })
    ∷ (1, record no_worker_step { phase = StepPhase.running; started_at = some 3 })
    ∷ []

abbrev pass : ParallelPass
pass = record {
  world = world_of parallel_run none;
  stored_steps = steps;
  stored_totals = record { content = none; test_counts = none; artifacts = [] };
  jobs = λ i. if i == 1 then some ended_job else none;
  services = record { world = world_of parallel_run none; services = []; pods = []; tailers = [] };
  tailers = [];
  fetch_tailers = [];
  run = parallel_run;
  steps = steps;
  totals = record { content = none; test_counts = none; artifacts = [] };
}

env-FinalResults : FinalResults env
unfolding is_terminal_phase
env-FinalResults = record {
  stored_final = λ i res h.
      let same : passed ≡ res = cc in
      subst (λ (r : WorkerResult). is_terminal_phase r.result.phase ≡ true) same refl;
  summary_final = λ s res h. ground (arith, h);
}

reconcile_parallel-Safe_example : Safe pass (reconcile_parallel env pass).0
reconcile_parallel-Safe_example = reconcile_parallel-Safe env pass env-FinalResults refl

reconcile_parallel-ended_example :
    EndsRight (length (parallel_workers two_workers)) (reconcile_parallel env pass).0
unfolding is_terminal_phase
reconcile_parallel-ended_example =
    reconcile_parallel-ended env parallel_spec two_workers pass env-FinalResults refl refl refl refl
      refl

parallel_workers-Numbered_example :
    Numbered 0 (length (parallel_workers two_workers)) (parallel_workers two_workers)
parallel_workers-Numbered_example = parallel_workers-Numbered two_workers

abbrev files : List Str
files = codes "a" ∷ codes "b" ∷ codes "c" ∷ []

shards_cover_example :
    (first_parts files 2 2 ≡ files)
    × ((j : ℕ)
        → j < 2
        → (length files / 2 ≤ length (shard_part files 2 j))
          × (length (shard_part files 2 j) ≤ length files / 2 + 1))
shards_cover_example = shards_cover files 2 (omega arith)

-- The run passes, and the Job of the worker is gone.
run_passes : (reconcile_parallel env pass).0.world.run.status.phase ≡ Phase.passed
unfolding reconcile_parallel parallel_workers worker_at reason_text analyze_pod inspect_job
    terminal_and_delete_job after_transition transition_terminal is_terminal_phase
    step_phase_from_phase same_phase decide Phase-discrete after_terminal update_status ended
    count_terminal
run_passes = refl

-- A worker whose Job the cache does not show, and of which the API server does not answer, is taken for
-- one whose Job was deleted, although the Job is there.
abbrev deaf : ParallelEnv
deaf = record env {
  base = record (cluster 9) { has_api_reader = true };
  get_job = λ _. get_lagging;
  live_get_ok = λ _. false;
}

abbrev second_worker : Worker
second_worker = record { index = 1; count = 2; matrix = []; shard = [] }

lost_while_there :
    (worker_at (reconcile_worker deaf second_worker pass).0.steps 1).phase ≡ StepPhase.error
unfolding reconcile_worker worker_at is_terminal_step step_phase_from_phase
lost_while_there = refl
