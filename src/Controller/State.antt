-- ===== src/Controller/State.antt =====
-- internal/controller/testrun_controller.go: the answers of the cluster, the state of a run, and the outcomes of a reconcile.
use kubetest_alt.Base.{ℕ, Bool, Option, List, Str}
use kubetest_alt.Api.{Phase, Time, TestSpec, TestRun}
use kubetest_alt.Controller.Phases.{Job, Pod}
use kubetest_alt.Controller.Infra.{RunResult, Timeout}

-- The outcome of a write to the API server; `conflicted` is a lost optimistic-concurrency race.
pub data Answer : Type 0 where
  succeeded conflicted failed : Answer

pub data ResultAnswer : Type 0 where
  read_result : RunResult → ResultAnswer
  read_nil not_found transient : ResultAnswer
  malformed_text : Str → ResultAnswer

pub data CreateAnswer : Type 0 where
  created already_exists create_failed : CreateAnswer
  invalid : Str → CreateAnswer

-- `compiler.Compile`: the Job's name, or the message of its error.
pub data CompileAnswer : Type 0 where
  compiled : Str → CompileAnswer
  compile_failed : Str → CompileAnswer

pub data GetAnswer : Type 0 where
  get_ok get_lagging get_failed : GetAnswer

-- What a run resolves to at setup: `resolver.Resolve` and `ValidateResolved`.
pub data ResolveAnswer : Type 0 where
  resolved : TestSpec → ResolveAnswer
  unknown_config_key : Str → ResolveAnswer
  unresolved : Str → ResolveAnswer

-- A check that objects exist: they do, one is missing, or the API server did not answer.
pub data CheckAnswer : Type 0 where
  all_exist check_failed : CheckAnswer
  one_missing : Str → CheckAnswer

pub data TestAnswer : Type 0 where
  test_found test_missing test_get_failed : TestAnswer

-- What the cluster and the other parts answer during one reconcile of a run. `status_update` counts
-- the status writes of the pass, `patch_ok` the patches.
pub record Env : Type 0 where
  pub now : Time
  pub status_update : ℕ → Answer
  pub update : Answer
  pub get_job : GetAnswer
  pub has_api_reader : Bool
  pub live_get_ok : Bool
  pub pod : Option Pod
  pub result : ResultAnswer
  pub parse_summary : Str → Option RunResult
  pub compile : CompileAnswer
  pub create : CreateAnswer
  pub delete_ok : Bool
  pub has_registry : Bool
  pub tail_ok : Bool
  pub has_run_store : Bool
  pub save_ok : Bool
  pub save_cases_ok : Bool
  pub has_dispatcher : Bool
  pub list_webhooks_ok : Bool
  pub unschedulable_timeout : Timeout
  pub test : TestAnswer
  pub live_test : Bool
  pub resolve : ResolveAnswer
  pub policy_error : Option Str
  pub test_data : CheckAnswer
  pub volume_sources : CheckAnswer
  pub graph_error : Option Str
  pub list_runs : Option (List TestRun)
  pub patch_ok : ℕ → Bool
  pub finished_run_ttl : ℕ
  pub delete_run : Answer
  pub format_time : Time → Str

-- One TestRun as the API server stores it, its Job there, and what the operator keeps about it:
-- whether it is in `persistedRuns`, the row in run history, the phases in `dispatchedRuns` and those
-- of which webhooks were queued, its log tailers, and its share of the metrics.
pub record World : Type 0 where
  pub run : TestRun
  pub job : Option Job
  pub is_persisted : Bool
  pub history : Option TestRun
  pub dispatched : List Phase
  pub deliveries : List Phase
  pub asked_to_abort : List TestRun
  pub has_tailer : Bool
  pub has_fetch_tailer : Bool
  pub active_inc : ℕ
  pub active_dec : ℕ
  pub runs_total : ℕ

-- How a reconcile ends. `handed_on` is a run that the composite, parallel or service code goes on
-- with.
pub data Outcome : Type 0 where
  done : Outcome
  requeue_after : ℕ → Outcome
  error : Outcome
  conflict : Outcome
  handed_on : Outcome
