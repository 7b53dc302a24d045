-- ===== src/Parallel/Creation.antt =====
-- internal/controller/parallel.go: the stages of a worker, and createWorker.
use kubetest_alt.Base.{Option, none, some, List, [], ◌∷◌, ◌++◌, Str, codes, str_eq, if◌then◌else◌}
use kubetest_alt.Api.{Phase, StepPhase, Stage, StrMap, TestRun}
use kubetest_alt.Controller.Phases.{Pod, Reason, reason_text}
use kubetest_alt.Controller.Infra.{RunResult}
use kubetest_alt.Controller.Derivation.{derive_stages, fetch_name_of, tool_of}
use kubetest_alt.Controller.State.{
  CompileAnswer, compiled, compile_failed, CreateAnswer, created, already_exists, create_failed,
  invalid,
}
use kubetest_alt.Parallel.Workers.{Worker}
use kubetest_alt.Parallel.World.{
  WorkerStep, no_worker_step, put_worker, ParallelEnv, ParallelPass, set_job, finish_worker,
  error_result,
}

-- How the round of a worker ends: the worker has finished, in this pass with its Job to delete or
-- before; it has not; or the pass ends with an error.
pub data WorkerEnd : Type 0 where
  worker_finished worker_finished_now worker_going worker_error : WorkerEnd

unfoldable pub put_key : Str → Str → StrMap Str → StrMap Str
put_key k v [] = (k, v) ∷ []
put_key k v ((l, w) ∷ m) =
    let rest = put_key k v m in if str_eq l k then (l, v) ∷ m else (l, w) ∷ rest

-- `maps.Copy`.
unfoldable pub copy_map : StrMap Str → StrMap Str → StrMap Str
unfolding put_key
copy_map m [] = m
copy_map m ((k, v) ∷ n) = copy_map (put_key k v m) n

-- `workerStages`.
unfoldable pub worker_stages : TestRun → WorkerStep → Option Pod → Option RunResult → List Stage
worker_stages run step pod result = derive_stages (record {
  queued_at = step.queued_at;
  pod = pod;
  fetch_name = fetch_name_of run.status.resolved_spec;
  tool = tool_of pod;
  tool_finished_at = elim result [ some res ↦ res.tool_finished_at | none ↦ none ];
  tool_phase = elim result [ some res ↦ res.phase | none ↦ Phase.unset ];
})

-- The step of a worker whose Job was created.
unfoldable pub queued_step : ParallelEnv → TestRun → Worker → WorkerStep
unfolding worker_stages copy_map
queued_step e run w =
    let step : WorkerStep = record no_worker_step {
      phase = StepPhase.queued;
      queued_at = some e.base.now;
      params = copy_map (copy_map [] w.matrix) w.shard;
    } in
    record step { stages = worker_stages run step none none }

-- The Job is there, under its name; it has not ended yet.
unfoldable pub started_worker : ParallelEnv → Worker → Str → ParallelPass → ParallelPass
unfolding queued_step set_job
started_worker e w name p = record p {
  steps = put_worker p.steps w.index (queued_step e p.run w);
  jobs = elim (p.jobs w.index) [
    | some _ ↦ p.jobs
    | none ↦ set_job w.index (some (record { name = name; conditions = [] })) p.jobs
  ];
}

unfoldable pub create_compiled :
    ParallelEnv → Worker → Str → CreateAnswer → ParallelPass → ParallelPass × WorkerEnd
unfolding started_worker finish_worker
create_compiled e w name created p = (started_worker e w name p, worker_going)
create_compiled e w name already_exists p =
    (record p { steps = put_worker p.steps w.index (queued_step e p.run w) }, worker_going)
create_compiled e w name create_failed p = (p, worker_error)
create_compiled e w name (invalid msg) p = (
  finish_worker e w.index
      (error_result
        (reason_text Reason.compile_error ++ (codes ": Job rejected by the API server: " ++ msg)))
      p,
  worker_going,
)

-- `createWorker`, with the compiler's answer.
unfoldable pub create_worker :
    ParallelEnv → Worker → CompileAnswer → ParallelPass → ParallelPass × WorkerEnd
unfolding create_compiled
create_worker e w (compile_failed msg) p = (
  finish_worker e w.index (error_result (reason_text Reason.compile_error ++ (codes ": " ++ msg)))
      p,
  worker_going,
)
create_worker e w (compiled name) p =
    if e.create_aux_ok w.index
    then create_compiled e w name (e.create w.index) p
    else (p, worker_error)
