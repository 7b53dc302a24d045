-- ===== src/Api.antt =====
-- api/v1alpha1/common_types.go: the phases of a run and of its steps, and a stage of its course.
use kubetest_alt.Base.{ℕ, Bool, true, false, Option, List, Str}

-- `Phase`. `unset` is the Go zero value "" of a run that has not been reconciled yet; the CRD's enum
-- admits no other value.
pub data Phase : Type 0 where
  unset queued running paused passed failed aborted error : Phase

-- `StepPhase`: the same values and `skipped`.
pub data StepPhase : Type 0 where
  unset queued running paused passed failed aborted error skipped : StepPhase

-- `StepPhaseFromPhase`, and the conversion `StepPhase(p)`.
unfoldable pub step_phase_from_phase : Phase → StepPhase
step_phase_from_phase Phase.unset = StepPhase.unset
step_phase_from_phase Phase.queued = StepPhase.queued
step_phase_from_phase Phase.running = StepPhase.running
step_phase_from_phase Phase.paused = StepPhase.paused
step_phase_from_phase Phase.passed = StepPhase.passed
step_phase_from_phase Phase.failed = StepPhase.failed
step_phase_from_phase Phase.aborted = StepPhase.aborted
step_phase_from_phase Phase.error = StepPhase.error

pub data StageKind : Type 0 where
  queue fetch run collect : StageKind

-- `*metav1.Time` is an optional number of nanoseconds since a fixed instant.
abbrev pub Time : Type 0
Time = ℕ

pub record Stage : Type 0 where
  pub kind : StageKind
  pub name : Str
  pub phase : StepPhase
  pub started_at : Option Time
  pub finished_at : Option Time
  pub message : Str

unfoldable pub Phase-discrete : Discrete Phase
Phase-discrete = hlevel

-- The tests `p == PhaseX` that the parts share.
abbrev pub is_passed : Phase → Bool
is_passed Phase.passed = true
is_passed _ = false

abbrev pub is_failed : Phase → Bool
is_failed Phase.failed = true
is_failed _ = false

-- api/v1alpha1/test_types.go, testrun_types.go: what the modelled code reads of a Test and a run.
pub record StepExecuteTest : Type 0 where
  pub name : Str
  pub count : ℕ

pub record StepExecute : Type 0 where
  pub parallelism : ℕ
  pub tests : List StepExecuteTest

-- Durations are nanoseconds; `retry` is the count of `steps[].retry`.
pub record Step : Type 0 where
  pub execute : Option StepExecute
  pub optional : Bool
  pub negative : Bool
  pub condition : Str
  pub retry : Option ℕ
  pub delay : Option ℕ
  pub timeout : Option ℕ

-- `git` tells whether the pointer is set, the others how many entries there are.
pub record Content : Type 0 where
  pub git : Bool
  pub tarball : ℕ
  pub files : ℕ
  pub test_data : ℕ

-- `corev1.VolumeSource`: which of its pointers are set, of those that the platform looks at; one volume
-- may have several set, or none of them (nfs, iscsi, rbd and the like).
pub record VolumeSource : Type 0 where
  pub empty_dir : Bool
  pub config_map : Bool
  pub secret : Bool
  pub projected : Bool
  pub downward_api : Bool
  pub persistent_volume_claim : Bool
  pub ephemeral : Bool
  pub csi : Bool
  pub host_path : Bool

abbrev pub no_source : VolumeSource
no_source = record {
  empty_dir = false;
  config_map = false;
  secret = false;
  projected = false;
  downward_api = false;
  persistent_volume_claim = false;
  ephemeral = false;
  csi = false;
  host_path = false;
}

pub record Volume : Type 0 where
  pub name : Str
  pub source : VolumeSource

pub record PodConfig : Type 0 where
  pub service_account_name : Str
  pub volumes : List Volume

pub record SecurityContext : Type 0 where
  pub privileged : Option Bool
  pub capabilities_add : Option (List Str)

-- A Go map from strings, as its entries; no two of them have the same key.
abbrev pub StrMap : Type 0 → Type 0
StrMap A = List (Str × A)

-- `ParallelSpec`. The API server refuses counts below 1.
pub record ParallelSpec : Type 0 where
  pub count : Option ℕ
  pub max_count : Option ℕ
  pub matrix : StrMap (List Str)
  pub shards : StrMap (List Str)

pub record TestSpec : Type 0 where
  pub content : Content
  pub pod : Option PodConfig
  pub security_context : Option SecurityContext
  pub steps : List Step
  pub services : ℕ
  pub parallel : Option ParallelSpec
  pub concurrency_policy : Str

-- `status.resolvedSpec`, a JSON text: absent, a snapshot of a spec, or a text that
-- is no spec, with the error of decoding it.
pub data Snapshot : Type 0 where
  absent : Snapshot
  snapshot : TestSpec → Snapshot
  malformed : Str → Snapshot

pub record AbortRequest : Type 0 where
  pub reason : Str
  pub message : Str
  pub requested_by : Str

pub record TestRunStatus : Type 0 where
  pub phase : Phase
  pub queued_at : Option Time
  pub started_at : Option Time
  pub finished_at : Option Time
  pub duration_ms : ℕ
  pub job_name : Str
  pub pod_ip : Str
  pub resolved_spec : Snapshot
  pub stages : List Stage
  pub message : Str

pub record TestRun : Type 0 where
  pub namespace : Str
  pub name : Str
  pub uid : Str
  pub created_at : Time
  pub is_deleting : Bool
  pub has_finalizer : Bool
  pub test_ref : Str
  pub parent_run : Str
  pub not_before : Option Time
  pub abort : Option AbortRequest
  pub status : TestRunStatus
