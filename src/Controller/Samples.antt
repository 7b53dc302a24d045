-- ===== src/Controller/Samples.antt =====
-- Runs and clusters on which the theorems of the controller are tried out.
use kubetest_alt.Base.{ℕ, true, false, Option, none, some, [], ◌∷◌, Str, codes, itoa}
use kubetest_alt.Api.{Phase, TestSpec, TestRun, TestRunStatus, absent, snapshot, AbortRequest}
use kubetest_alt.Controller.Phases.{Job, job_complete}
use kubetest_alt.Controller.Infra.{RunResult}
use kubetest_alt.Controller.State.{
  succeeded, read_result, not_found, created, compiled, get_ok, resolved, all_exist, test_found,
  Env, World,
}

abbrev pub plain_spec : TestSpec
plain_spec = record {
  content = record { git = true; tarball = 0; files = 0; test_data = 0 };
  pod = none;
  security_context = none;
  steps = [];
  services = 0;
  parallel = none;
  concurrency_policy = [];
}

abbrev pub fresh_status : TestRunStatus
fresh_status = record {
  phase = Phase.unset;
  queued_at = none;
  started_at = none;
  finished_at = none;
  duration_ms = 0;
  job_name = [];
  pod_ip = [];
  resolved_spec = absent;
  stages = [];
  message = [];
}

abbrev pub run_named : Str → ℕ → TestRun
run_named name created_at = record {
  namespace = codes "default";
  name = name;
  uid = name;
  created_at = created_at;
  is_deleting = false;
  has_finalizer = true;
  test_ref = codes "smoke";
  parent_run = [];
  not_before = none;
  abort = none;
  status = fresh_status;
}

abbrev pub passed_result : RunResult
passed_result = record { phase = Phase.passed; error_message = []; tool_finished_at = some 5 }

-- A cluster in which everything goes through, at a time.
abbrev pub cluster : ℕ → Env
cluster now = record {
  now = now;
  status_update = λ _. succeeded;
  update = succeeded;
  get_job = get_ok;
  has_api_reader = false;
  live_get_ok = true;
  pod = none;
  result = not_found;
  parse_summary = λ _. none;
  compile = compiled (codes "r1");
  create = created;
  delete_ok = true;
  has_registry = true;
  tail_ok = true;
  has_run_store = true;
  save_ok = true;
  save_cases_ok = true;
  has_dispatcher = true;
  list_webhooks_ok = true;
  unschedulable_timeout = record { nanos = 100; text = codes "100ns" };
  test = test_found;
  live_test = true;
  resolve = resolved plain_spec;
  policy_error = none;
  test_data = all_exist;
  volume_sources = all_exist;
  graph_error = none;
  list_runs = some [];
  patch_ok = λ _. true;
  finished_run_ttl = 0;
  delete_run = succeeded;
  format_time = itoa;
}

abbrev pub world_of : TestRun → Option Job → World
world_of r job = record {
  run = r;
  job = job;
  is_persisted = false;
  history = none;
  dispatched = [];
  deliveries = [];
  asked_to_abort = [];
  has_tailer = false;
  has_fetch_tailer = false;
  active_inc = 0;
  active_dec = 0;
  runs_total = 0;
}

abbrev pub new_world : World
new_world = world_of (run_named (codes "r1") 0) none

abbrev pub ended_job : Job
ended_job = record {
  name = codes "r1";
  conditions = record { kind = job_complete; is_true = true; reason = [] } ∷ [];
}

abbrev pub active_run : TestRun
active_run = record (run_named (codes "r1") 0) {
  status = record fresh_status {
    phase = Phase.running;
    started_at = some 2;
    job_name = codes "r1";
    resolved_spec = snapshot plain_spec;
  };
}

abbrev pub active_world : World
active_world = world_of active_run (some ended_job)

abbrev pub stop_request : AbortRequest
stop_request = record { reason = []; message = codes "stop"; requested_by = codes "ann" }

abbrev pub result_cluster : Env
result_cluster = record (cluster 9) { result = read_result passed_result }
