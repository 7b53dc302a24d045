-- ===== src/Controller/Infra.antt =====
-- internal/controller/phases.go: infrastructure failures read off a pod, and the verdict that is left
-- where the wrapper wrote no result.
use kubetest_alt.Base.{
  ℕ, ◌+◌, Bool, true, false, ◌&&◌, ◌||◌, Option, none, some, List, [], ◌∷◌, ◌++◌, Str, codes,
  str_eq, itoa, leb, ◌==◌, if◌then◌else◌,
}
use kubetest_alt.Api.{Phase, Time}
use kubetest_alt.Controller.Phases.{
  JobCondition, job_failed, Job, waiting, terminated, ContainerStateTerminated, ContainerStatus,
  PodCondition, Pod, Reason, unstated, oom_killed, image_pull, container_config, job_deadline,
  content_fetch_failed, missing_result, unschedulable,
}

pub record InfraFailure : Type 0 where
  pub reason : Reason
  pub message : Str

abbrev pub healthy : InfraFailure
healthy = record { reason = unstated; message = [] }

-- A timeout and its text, which the standard library's `Duration.String` gives.
pub record Timeout : Type 0 where
  pub nanos : ℕ
  pub text : Str

-- The loop over the pod's conditions.
unfoldable pub long_unschedulable : Time → Timeout → List PodCondition → Option InfraFailure
long_unschedulable now limit [] = none
long_unschedulable now limit (c ∷ cs) =
    let rest = long_unschedulable now limit cs in
    if c.is_unschedulable && leb (c.last_transition + limit.nanos) now
    then some (record {
      reason = unschedulable;
      message = codes "infra: pod unschedulable for " ++ (limit.text ++ (codes ": " ++ c.message));
    })
    else rest

-- What a waiting container's reason and message say.
unfoldable pub waiting_failure : ContainerStatus → Str → Str → Option InfraFailure
waiting_failure cs r message =
    if str_eq r (codes "ImagePullBackOff") || str_eq r (codes "ErrImagePull")
    then some (record {
      reason = image_pull;
      message = codes "infra: " ++ (r ++ (codes " " ++ cs.image));
    })
    else if str_eq r (codes "CreateContainerConfigError")
    then some (record {
      reason = container_config;
      message = codes "infra: container " ++ (cs.name ++ (codes " can't start: " ++ message));
    })
    else none

unfoldable pub stuck_waiting : List ContainerStatus → Option InfraFailure
unfolding waiting_failure
stuck_waiting [] = none
stuck_waiting (cs ∷ css) =
    let rest = stuck_waiting css in
    let here : Option InfraFailure = elim cs.state [
      | waiting r message ↦ waiting_failure cs r message
      | _ ↦ none
    ] in
    elim here [ some f ↦ some f | none ↦ rest ]

unfoldable pub was_oom_killed : ContainerStateTerminated → Bool
was_oom_killed t = str_eq t.reason (codes "OOMKilled")

unfoldable pub oom_in : ContainerStatus → Bool
unfolding was_oom_killed
oom_in cs =
    elim cs.state [ terminated t ↦ was_oom_killed t | _ ↦ false ]
    || elim cs.last_terminated [ some t ↦ was_oom_killed t | none ↦ false ]

unfoldable pub any_oom : List ContainerStatus → Option InfraFailure
unfolding oom_in
any_oom [] = none
any_oom (cs ∷ css) =
    let rest = any_oom css in
    if oom_in cs
    then some (record {
      reason = oom_killed;
      message =
          codes "OOMKilled " ++ (0xe2 ∷ 0x80 ∷ 0x94 ∷ codes " raise spec.container.resources");
    })
    else rest

unfoldable pub fetch_message : ContainerStatus → ContainerStateTerminated → Str
fetch_message cs t = elim t.message [
  | [] ↦
      codes "init container \"" ++ (cs.name ++ (codes "\" exited with code " ++ itoa t.exit_code))
  | c ∷ m ↦ c ∷ m
]

unfoldable pub init_failed : List ContainerStatus → Option InfraFailure
unfolding fetch_message
init_failed [] = none
init_failed (cs ∷ css) =
    let rest = init_failed css in
    elim cs.state [
      | terminated t ↦
          if t.exit_code == 0
          then rest
          else some (record { reason = content_fetch_failed; message = fetch_message cs t })
      | _ ↦ rest
    ]

-- The first of two checks that finds something.
abbrev pub or_else : Option InfraFailure → InfraFailure → InfraFailure
or_else (some f) g = f
or_else none g = g

-- `AnalyzePod`; a nil pod is `none`.
unfoldable pub analyze_pod : Option Pod → Time → Timeout → InfraFailure
unfolding long_unschedulable stuck_waiting any_oom init_failed
analyze_pod none now limit = healthy
analyze_pod (some pod) now limit =
    let all = pod.init_container_statuses ++ pod.container_statuses in
    or_else (long_unschedulable now limit pod.conditions) (
      or_else (stuck_waiting all)
        (or_else (any_oom all) (or_else (init_failed pod.init_container_statuses) healthy)))

unfoldable pub is_pod_running : Option Pod → Bool
is_pod_running none = false
is_pod_running (some pod) = pod.is_phase_running

abbrev pub container_wrapper : Str
container_wrapper = codes "wrapper"

unfoldable pub terminated_in : List ContainerStatus → Option ContainerStateTerminated
terminated_in [] = none
terminated_in (cs ∷ css) =
    let rest = terminated_in css in
    if str_eq cs.name container_wrapper
    then elim cs.state [ terminated t ↦ some t | _ ↦ cs.last_terminated ]
    else rest

unfoldable pub wrapper_terminated : Option Pod → Option ContainerStateTerminated
unfolding terminated_in
wrapper_terminated none = none
wrapper_terminated (some pod) = terminated_in pod.container_statuses

-- What the reconciler reads of the wrapper's result.
pub record RunResult : Type 0 where
  pub phase : Phase
  pub error_message : Str
  pub tool_finished_at : Option Time

-- `ResultFromTermination`. `parse` stands for `executor.ParseTerminationSummary`.
unfoldable pub result_from_termination : (Str → Option RunResult) → Option Pod → Option RunResult
unfolding wrapper_terminated
result_from_termination parse pod = elim (wrapper_terminated pod) [
  | none ↦ none
  | some t ↦ parse t.message
]

unfoldable pub deadline_in : List JobCondition → Bool
deadline_in [] = false
deadline_in (c ∷ cs) =
    let rest = deadline_in cs in
    if c.is_true
      && (elim c.kind [ job_failed ↦ true | _ ↦ false ]
          && str_eq c.reason (codes "DeadlineExceeded"))
    then true
    else rest

unfoldable pub crash_message : Option Pod → Str
unfolding wrapper_terminated
crash_message pod = elim (wrapper_terminated pod) [
  | none ↦ codes "wrapper produced no result; container likely crashed or was SIGKILL'd"
  | some t ↦
      codes "wrapper produced no result; container exited with code "
      ++ (itoa t.exit_code
          ++ elim t.reason [ [] ↦ [] | c ∷ r ↦ codes " (" ++ ((c ∷ r) ++ codes ")") ])
]

-- `FallbackPhaseFromJobFailure`: the phase is always error.
unfoldable pub fallback_phase_from_job_failure : Option Job → Option Pod → Phase × Reason × Str
unfolding deadline_in crash_message
fallback_phase_from_job_failure job pod =
    if elim job [ none ↦ false | some j ↦ deadline_in j.conditions ]
    then (
      Phase.error,
      job_deadline,
      codes
          "Job exceeded activeDeadlineSeconds; wrapper should have flushed within its own timeout",
    )
    else (Phase.error, missing_result, crash_message pod)
