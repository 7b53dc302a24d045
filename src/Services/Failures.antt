-- ===== src/Services/Failures.antt =====
-- internal/controller/services.go: what a replica's pod says of it.
use kubetest_alt.Base.{
  Bool, false, not, ◌||◌, Option, none, some, List, [], ◌∷◌, Str, codes, str_eq, if◌then◌else◌,
  ◌==◌,
}
use kubetest_alt.Api.{Time}
use kubetest_alt.Controller.Phases.{waiting, ContainerStatus, Pod, reason_text}
use kubetest_alt.Controller.Infra.{Timeout, analyze_pod}
use kubetest_alt.Controller.Derivation.{is_empty}

pub data PodPhase : Type 0 where
  pod_pending pod_running pod_succeeded pod_failed pod_unknown : PodPhase

-- A replica's pod: `ready` is the status of its Ready condition, where it has one.
pub record ServicePod : Type 0 where
  pub pod : Pod
  pub phase : PodPhase
  pub ready : Option Bool
  pub created_at : Time

unfoldable pub is_crashing : List ContainerStatus → Bool
is_crashing [] = false
is_crashing (cs ∷ css) =
    elim cs.state [ waiting r m ↦ str_eq r (codes "CrashLoopBackOff") | _ ↦ false ]
    || is_crashing css

-- `serviceFailure` of a pod that has not exited.
unfoldable pub running_failure : ServicePod → Time → Timeout → Str
unfolding is_crashing
running_failure p now limit =
    let infra = analyze_pod (some p.pod) now limit in
    if not (is_empty (reason_text infra.reason))
    then infra.message
    else if is_crashing p.pod.container_statuses
    then codes "replica keeps crashing (CrashLoopBackOff)"
    else []

-- `serviceFailure`.
unfoldable pub service_failure : ServicePod → Time → Timeout → Str
unfolding running_failure
service_failure p now limit = elim p.phase [
  | pod_failed ↦ codes "replica exited (pod failed)"
  | pod_succeeded ↦ codes "replica exited (pod succeeded)"
  | _ ↦ running_failure p now limit
]

-- `podReady`.
unfoldable pub pod_ready : ServicePod → Bool
pod_ready p = elim p.ready [ some b ↦ b | none ↦ false ]

-- `spec.services.<name>`, as far as it is read. A duration of zero counts as unset.
pub record ServiceSpec : Type 0 where
  pub timeout : Option Timeout
  pub logs : Bool

abbrev pub default_service_timeout : Timeout
default_service_timeout = record { nanos = 300000000000; text = codes "5m0s" }

unfoldable pub service_named : List (Str × ServiceSpec) → Str → Option ServiceSpec
service_named [] name = none
service_named ((n, s) ∷ ss) name =
    let rest = service_named ss name in if str_eq n name then some s else rest

abbrev pub or_default : Option Timeout → Timeout
or_default none = default_service_timeout
or_default (some t) = if t.nanos == 0 then default_service_timeout else t

-- `serviceTimeout`.
unfoldable pub service_timeout : List (Str × ServiceSpec) → Str → Timeout
unfolding service_named
service_timeout services name = elim (service_named services name) [
  | some s ↦ or_default s.timeout
  | none ↦ default_service_timeout
]

-- Whether the service asked for its log: `test.Spec.Services[service].Logs`.
unfoldable pub wants_logs : List (Str × ServiceSpec) → Str → Bool
unfolding service_named
wants_logs services name = elim (service_named services name) [ some s ↦ s.logs | none ↦ false ]
