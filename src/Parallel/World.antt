-- ===== src/Parallel/World.antt =====
-- internal/controller/parallel.go: what a pass over a parallel run works on, and how a worker's verdict
-- is written into it.
use kubetest_alt.Base.{
  ℕ, ◌+◌, Bool, true, false, Option, none, some, List, [], ◌∷◌, ◌++◌, Str, codes, itoa, ◌==◌,
  if◌then◌else◌,
}
use kubetest_alt.Api.{Phase, StepPhase, Stage, StrMap, Time, TestRun, step_phase_from_phase}
use kubetest_alt.Controller.Phases.{Job, Pod}
use kubetest_alt.Controller.Infra.{RunResult}
use kubetest_alt.Controller.Stages.{finish_stages}
use kubetest_alt.Controller.World.{time_or}
use kubetest_alt.Controller.State.{CompileAnswer, CreateAnswer, GetAnswer, Env, World}
use kubetest_alt.Services.World.{ServicesEnv, ServicesState}

-- `StepResult`, with the fields that a worker's step has.
pub record WorkerStep : Type 0 where
  pub phase : StepPhase
  pub queued_at : Option Time
  pub started_at : Option Time
  pub finished_at : Option Time
  pub message : Str
  pub stages : List Stage
  pub params : StrMap Str
  pub pod_ip : Str

-- Go's zero value, which a missing key reads as.
abbrev pub no_worker_step : WorkerStep
no_worker_step = record {
  phase = StepPhase.unset;
  queued_at = none;
  started_at = none;
  finished_at = none;
  message = [];
  stages = [];
  params = [];
  pod_ip = [];
}

-- `status.steps`, whose key of worker `i` is "worker-<i>": here the number stands for it.
abbrev pub WorkerMap : Type 0
WorkerMap = List (ℕ × WorkerStep)

unfoldable pub worker_at : WorkerMap → ℕ → WorkerStep
worker_at [] i = no_worker_step
worker_at ((k, r) ∷ m) i = let rest = worker_at m i in if k == i then r else rest

unfoldable pub put_worker : WorkerMap → ℕ → WorkerStep → WorkerMap
put_worker [] i r = (i, r) ∷ []
put_worker ((k, s) ∷ m) i r =
    let rest = put_worker m i r in if k == i then (k, r) ∷ m else (k, s) ∷ rest

-- `TestCounts`.
pub record TestCounts : Type 0 where
  pub total : ℕ
  pub passed : ℕ
  pub failed : ℕ
  pub skipped : ℕ

-- `RunResult`, with what a parallel run collects of it: `content` is the commit, and an artifact is its
-- path.
pub record WorkerResult : Type 0 where
  pub result : RunResult
  pub content : Option Str
  pub test_counts : Option TestCounts
  pub artifacts : List Str

-- The fields of the run's status that its workers' results are folded into.
pub record Totals : Type 0 where
  pub content : Option Str
  pub test_counts : Option TestCounts
  pub artifacts : List Str

-- `ReadWorker`: its result, no result, or an error.
pub data WorkerAnswer : Type 0 where
  worker_read : WorkerResult → WorkerAnswer
  worker_nil worker_not_found worker_transient : WorkerAnswer
  worker_malformed : Str → WorkerAnswer

-- What the cluster and the other parts answer in one pass, for each worker by its number.
-- `live_get_ok` tells whether the API server answers when the cache has no Job, and `can_read` whether
-- the result store reads workers.
pub record ParallelEnv : Type 0 where
  pub base : Env
  pub services : ServicesEnv
  pub get_job : ℕ → GetAnswer
  pub live_get_ok : ℕ → Bool
  pub pod : ℕ → Option Pod
  pub can_read : Bool
  pub result : ℕ → WorkerAnswer
  pub parse_summary : Str → Option WorkerResult
  pub compile : ℕ → CompileAnswer
  pub create_aux_ok : ℕ → Bool
  pub create : ℕ → CreateAnswer
  pub delete_ok : ℕ → Bool

-- The run as the API server stores it, with the steps and totals of its status and its workers' Jobs,
-- what there is of its services and of the workers' log tailers, and the copies that the pass works
-- on.
pub record ParallelPass : Type 0 where
  pub world : World
  pub stored_steps : WorkerMap
  pub stored_totals : Totals
  pub jobs : ℕ → Option Job
  pub services : ServicesState
  pub tailers : List ℕ
  pub fetch_tailers : List ℕ
  pub run : TestRun
  pub steps : WorkerMap
  pub totals : Totals

unfoldable pub set_job : ℕ → Option Job → (ℕ → Option Job) → ℕ → Option Job
set_job i job jobs j = if j == i then job else jobs j

abbrev pub first_of {ℓ} : {A : Type ℓ} → Option A → Option A → Option A
first_of (some a) o = some a
first_of none o = o

unfoldable pub add_counts : Option TestCounts → Option TestCounts → Option TestCounts
add_counts o none = o
add_counts none (some c) = some c
add_counts (some a) (some c) = some (record {
  total = a.total + c.total;
  passed = a.passed + c.passed;
  failed = a.failed + c.failed;
  skipped = a.skipped + c.skipped;
})

unfoldable pub worker_artifacts : ℕ → List Str → List Str
worker_artifacts i [] = []
worker_artifacts i (path ∷ paths) =
    (codes "workers/" ++ (itoa i ++ (codes "/artifacts/" ++ path))) ∷ worker_artifacts i paths

unfoldable pub fold_totals : ℕ → WorkerResult → Totals → Totals
unfolding add_counts worker_artifacts
fold_totals i res t = record {
  content = first_of t.content res.content;
  test_counts = add_counts t.test_counts res.test_counts;
  artifacts = t.artifacts ++ worker_artifacts i res.artifacts;
}

-- The step that `finishWorker` writes.
unfoldable pub finished_step : Time → RunResult → WorkerStep → WorkerStep
finished_step now res step = record step {
  phase = step_phase_from_phase res.phase;
  message = res.error_message;
  finished_at = some now;
  pod_ip = [];
  started_at = some (time_or step.started_at now);
  stages = finish_stages step.stages res.phase res.error_message now;
}

-- `finishWorker`.
unfoldable pub finish_worker : ParallelEnv → ℕ → WorkerResult → ParallelPass → ParallelPass
unfolding finished_step fold_totals worker_at put_worker
finish_worker e i res p = record p {
  steps = put_worker p.steps i (finished_step e.base.now res.result (worker_at p.steps i));
  totals = fold_totals i res p.totals;
}

-- A result that only says why the worker is in error.
abbrev pub error_result : Str → WorkerResult
error_result msg = record {
  result = record { phase = Phase.error; error_message = msg; tool_finished_at = none };
  content = none;
  test_counts = none;
  artifacts = [];
}

unfoldable pub without : ℕ → List ℕ → List ℕ
without i [] = []
without i (j ∷ js) = let rest = without i js in if j == i then rest else j ∷ rest

-- `StopTailer` of a worker's two tailers.
unfoldable pub stop_worker_tailers : ParallelEnv → ℕ → ParallelPass → ParallelPass
unfolding without
stop_worker_tailers e i p =
    if e.base.has_registry
    then record p { tailers = without i p.tailers; fetch_tailers = without i p.fetch_tailers }
    else p

-- `endWorker`.
unfoldable pub end_worker : ParallelEnv → ℕ → WorkerResult → ParallelPass → ParallelPass
unfolding stop_worker_tailers
end_worker e i res p = stop_worker_tailers e i (finish_worker e i res p)

-- `IsTerminalPhase(Phase(step.Phase))`.
unfoldable pub is_terminal_step : StepPhase → Bool
is_terminal_step StepPhase.passed = true
is_terminal_step StepPhase.failed = true
is_terminal_step StepPhase.error = true
is_terminal_step StepPhase.aborted = true
is_terminal_step _ = false
