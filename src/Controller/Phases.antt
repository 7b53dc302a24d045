-- ===== src/Controller/Phases.antt =====
-- internal/controller/phases.go: when a run is over, and what a Job and its pod say of it.
use kubetest_alt.Base.{
  ℕ, Bool, true, false, not, Option, none, some, List, [], ◌∷◌, Str, codes, if◌then◌else◌,
}
use kubetest_alt.Api.{Phase, Time}

unfoldable pub is_terminal_phase : Phase → Bool
is_terminal_phase Phase.passed = true
is_terminal_phase Phase.failed = true
is_terminal_phase Phase.error = true
is_terminal_phase Phase.aborted = true
is_terminal_phase _ = false

-- What the reconciler reads of a batch/v1 Job: its conditions, in their order.
pub data JobConditionType : Type 0 where
  job_complete job_failed other_condition : JobConditionType

pub record JobCondition : Type 0 where
  pub kind : JobConditionType
  pub is_true : Bool
  pub reason : Str

pub record Job : Type 0 where
  pub name : Str
  pub conditions : List JobCondition

pub data JobConclusion : Type 0 where
  job_still_running job_succeeded job_failed_conclusion : JobConclusion

unfoldable pub conclude : List JobCondition → JobConclusion
conclude [] = job_still_running
conclude (c ∷ cs) =
    let rest = conclude cs in
    if not c.is_true then rest else elim c.kind [
      | job_complete ↦ job_succeeded
      | job_failed ↦ job_failed_conclusion
      | other_condition ↦ rest
    ]

-- `InspectJob`; a nil Job is `none`.
unfoldable pub inspect_job : Option Job → JobConclusion
unfolding conclude
inspect_job none = job_still_running
inspect_job (some job) = conclude job.conditions

pub record ContainerStateTerminated : Type 0 where
  pub exit_code : ℕ
  pub reason : Str
  pub message : Str
  pub started_at : Time
  pub finished_at : Time

-- `State` of a container: at most one of its three pointers is set.
pub data ContainerState : Type 0 where
  unknown : ContainerState
  waiting : Str → Str → ContainerState
  running : Time → ContainerState
  terminated : ContainerStateTerminated → ContainerState

pub record ContainerStatus : Type 0 where
  pub name : Str
  pub image : Str
  pub state : ContainerState
  pub last_terminated : Option ContainerStateTerminated

-- A `PodScheduled=False/Unschedulable` condition, or any other.
pub record PodCondition : Type 0 where
  pub is_unschedulable : Bool
  pub last_transition : Time
  pub message : Str

pub record Pod : Type 0 where
  pub name : Str
  pub conditions : List PodCondition
  pub init_container_statuses : List ContainerStatus
  pub container_statuses : List ContainerStatus
  pub is_phase_running : Bool
  pub tool_label : Str
  pub containers : List (Str × Str)
  pub pod_ip : Str

-- The constants `Reason…`.
pub data Reason : Type 0 where
  unstated test_not_found invalid_config compile_error orphan_job_missing oom_killed : Reason
  image_pull container_config job_deadline content_fetch_failed resolve_failed : Reason
  policy_denied test_data_missing volume_source_missing aborted_by_concurrency : Reason
  aborted_by_user aborted_by_parent missing_result malformed_result unschedulable : Reason
  service_not_ready : Reason

unfoldable pub reason_text : Reason → Str
reason_text unstated = []
reason_text test_not_found = codes "TestNotFound"
reason_text invalid_config = codes "InvalidConfig"
reason_text compile_error = codes "CompileError"
reason_text orphan_job_missing = codes "OrphanJobMissing"
reason_text oom_killed = codes "OOMKilled"
reason_text image_pull = codes "ImagePullBackOff"
reason_text container_config = codes "CreateContainerConfigError"
reason_text job_deadline = codes "JobActiveDeadlineExceeded"
reason_text content_fetch_failed = codes "ContentFetchFailed"
reason_text resolve_failed = codes "ResolveFailed"
reason_text policy_denied = codes "PolicyDenied"
reason_text test_data_missing = codes "TestDataMissing"
reason_text volume_source_missing = codes "VolumeSourceMissing"
reason_text aborted_by_concurrency = codes "AbortedByConcurrency"
reason_text aborted_by_user = codes "AbortedByUser"
reason_text aborted_by_parent = codes "AbortedByParent"
reason_text missing_result = codes "MissingResult"
reason_text malformed_result = codes "MalformedResult"
reason_text unschedulable = codes "Unschedulable"
reason_text service_not_ready = codes "ServiceNotReady"

-- The phase is none of the four in which a run ends.
abbrev pub is_open_phase : Phase → Bool
is_open_phase Phase.passed = false
is_open_phase Phase.failed = false
is_open_phase Phase.aborted = false
is_open_phase Phase.error = false
is_open_phase _ = true
