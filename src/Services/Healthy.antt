-- ===== src/Services/Healthy.antt =====
-- internal/controller/services.go: what a pod that has not failed looks like, and which Services there are.
use mathlib.Core.Path.{subst}
use kubetest_alt.Base.{
  ◌≡◌, ◌≢◌, ◌↔◌, ◌⊎◌, inl, inr, refl, sym, ap, Bool, true, false, Option, none, some, List, [], ◌∷◌,
  ◌++◌, Str, codes, str_eq, str_eq_iff, All, Any, arith,
}
use kubetest_alt.Api.{Time}
use kubetest_alt.Controller.Phases.{
  Reason, unstated, reason_text, waiting, ContainerState, unknown, terminated, running,
  ContainerStatus, PodCondition, Pod, ContainerStateTerminated,
}
use kubetest_alt.Controller.Infra.{
  Timeout, InfraFailure, analyze_pod, long_unschedulable, stuck_waiting, waiting_failure, any_oom,
  init_failed, fetch_message, or_else, healthy,
}
use kubetest_alt.Services.Failures.{
  ServicePod, pod_failed, pod_succeeded, is_crashing, running_failure, service_failure, pod_ready,
}
use kubetest_alt.Services.World.{
  ServicesEnv, ServicesState, has_name, create_service, services_then, create_services,
}

-- A failure that is found is given a text.
abbrev pub Said : Option InfraFailure → Type 0
Said none = Unit
Said (some f) = f.message ≢ []

long_unschedulable-Said :
    (now : Time) (limit : Timeout) (cs : List PodCondition) → Said (long_unschedulable now limit cs)
unfolding long_unschedulable
long_unschedulable-Said now limit [] = tt
long_unschedulable-Said now limit (c ∷ cs) = ground (arith, long_unschedulable-Said now limit cs)

waiting_failure-Said :
    (cs : ContainerStatus) (r message : Str) → Said (waiting_failure cs r message)
unfolding waiting_failure
waiting_failure-Said cs r message = ground arith

stuck_waiting-Said : (css : List ContainerStatus) → Said (stuck_waiting css)
unfolding stuck_waiting
stuck_waiting-Said [] = tt
stuck_waiting-Said (cs ∷ css) = grind (arith, stuck_waiting-Said css, waiting_failure-Said cs)

any_oom-Said : (css : List ContainerStatus) → Said (any_oom css)
unfolding any_oom
any_oom-Said [] = tt
any_oom-Said (cs ∷ css) = ground (arith, any_oom-Said css)

fetch_message-Said : (cs : ContainerStatus) (t : ContainerStateTerminated) → fetch_message cs t ≢ []
unfolding fetch_message
fetch_message-Said cs t = ground arith

init_failed-Said : (css : List ContainerStatus) → Said (init_failed css)
unfolding init_failed
init_failed-Said [] = tt
init_failed-Said (cs ∷ css) = grind (arith, init_failed-Said css, fetch_message-Said cs)

or_else-Said :
    (o : Option InfraFailure) (f : InfraFailure)
    → Said o
    → (f.reason ≢ unstated → f.message ≢ [])
    → (or_else o f).reason ≢ unstated
    → (or_else o f).message ≢ []
or_else-Said none f s h = h
or_else-Said (some g) f s h = λ _. s

analyze_pod-Said :
    (pod : Option Pod) (now : Time) (limit : Timeout)
    → (analyze_pod pod now limit).reason ≢ unstated
    → (analyze_pod pod now limit).message ≢ []
unfolding analyze_pod
analyze_pod-Said none now limit h = absurd (h refl)
analyze_pod-Said (some pod) now limit h =
    let all = pod.init_container_statuses ++ pod.container_statuses in
    or_else-Said (long_unschedulable now limit pod.conditions) _
      (long_unschedulable-Said now limit pod.conditions)
      (or_else-Said (stuck_waiting all) _ (stuck_waiting-Said all) (
        or_else-Said (any_oom all) _ (any_oom-Said all) (
          or_else-Said (init_failed pod.init_container_statuses) healthy
            (init_failed-Said pod.init_container_statuses) (λ k. absurd (k refl)))))
      h

reason_text_iff : (r : Reason) → (reason_text r ≡ []) ↔ (r ≡ unstated)
unfolding reason_text
reason_text_iff r = ground arith

-- A container that the kubelet does not restart over and over.
abbrev pub Steady : ContainerState → Type 0
Steady (waiting r m) = r ≢ codes "CrashLoopBackOff"
Steady _ = Unit

Steady-iff :
    (st : ContainerState)
    → ((elim st [ waiting r m ↦ str_eq r (codes "CrashLoopBackOff") | _ ↦ false ]) ≡ false)
      ↔ Steady st
Steady-iff unknown = ground arith
Steady-iff (waiting r m) = ground (arith, str_eq_iff r (codes "CrashLoopBackOff"))
Steady-iff (running t) = ground arith
Steady-iff (terminated t) = ground arith

is_crashing_iff :
    (css : List ContainerStatus) → (is_crashing css ≡ false) ↔ All (λ cs. Steady cs.state) css
unfolding is_crashing
is_crashing_iff [] = ground arith
is_crashing_iff (cs ∷ css) = ground (arith, Steady-iff cs.state, is_crashing_iff css)

-- The pod has not ended, there is no failure of the infrastructure to be seen, and its containers are
-- not restarted over and over.
abbrev pub Healthy : ServicePod → Time → Timeout → Type 0
Healthy p now limit =
    (p.phase ≢ pod_failed)
    × (p.phase ≢ pod_succeeded)
    × ((analyze_pod (some p.pod) now limit).reason ≡ unstated)
    × All (λ cs. Steady cs.state) p.pod.container_statuses

running_failure_iff :
    (p : ServicePod) (now : Time) (limit : Timeout)
    → (running_failure p now limit ≡ []) ↔ (
        ((analyze_pod (some p.pod) now limit).reason ≡ unstated)
        × All (λ cs. Steady cs.state) p.pod.container_statuses)
unfolding running_failure
running_failure_iff p now limit =
    let said = analyze_pod-Said (some p.pod) now limit in
    let reason = reason_text_iff (analyze_pod (some p.pod) now limit).reason in
    let steady = is_crashing_iff p.pod.container_statuses in ground (arith, said, reason, steady)

pub service_failure_iff :
    (p : ServicePod) (now : Time) (limit : Timeout)
    → (service_failure p now limit ≡ []) ↔ Healthy p now limit
unfolding service_failure
service_failure_iff p now limit =
    let running = running_failure_iff p now limit in ground (arith, running)

pub pod_ready_iff : (p : ServicePod) → (pod_ready p ≡ true) ↔ (p.ready ≡ some true)
unfolding pod_ready
pod_ready_iff p = ground arith

-- The Service is there, or the API server creates it.
abbrev pub CanBe : ServicesEnv → List Str → Str → Type 0
CanBe e services n = Any (λ m. m ≡ n) services ⊎ (e.create_service_ok n ≡ true)

has_name_iff : (n : Str) (ms : List Str) → (has_name n ms ≡ true) ↔ Any (λ m. m ≡ n) ms
unfolding has_name
has_name_iff n [] = ground arith
has_name_iff n (m ∷ ms) = ground (arith, str_eq_iff m n, has_name_iff n ms)

create_service_iff :
    (e : ServicesEnv) (n : Str) (s : ServicesState)
    → ((create_service e n s).1 ≡ true) ↔ CanBe e s.services n
unfolding create_service
create_service_iff e n s = ground (arith, has_name_iff n s.services)

create_service-services :
    (e : ServicesEnv) (n : Str) (s : ServicesState)
    → ((create_service e n s).0.services ≡ s.services)
      ⊎ (((create_service e n s).0.services ≡ n ∷ s.services) × (e.create_service_ok n ≡ true))
unfolding create_service
create_service-services e n s = ground arith

CanBe-create_service :
    (e : ServicesEnv) (n k : Str) (s : ServicesState)
    → CanBe e (create_service e n s).0.services k ↔ CanBe e s.services k
CanBe-create_service e n k s = elim (create_service-services e n s) [
  | inl same ↦ subst (λ ms. CanBe e ms k ↔ CanBe e s.services k) (sym same) (λ h. h, λ h. h)
  | inr (more, ok) ↦
      subst (λ ms. CanBe e ms k ↔ CanBe e s.services k) (sym more)
        (
          λ h. elim h [
            | inl (inl here) ↦ inr (subst (λ x. e.create_service_ok x ≡ true) here ok)
            | inl (inr there) ↦ inl there
            | inr may ↦ inr may
          ],
          λ h. elim h [ inl there ↦ inl (inr there) | inr may ↦ inr may ],
        )
]

All-CanBe :
    (e : ServicesEnv) (n : Str) (s : ServicesState) (ns : List Str)
    → All (CanBe e (create_service e n s).0.services) ns ↔ All (CanBe e s.services) ns
All-CanBe e n s [] = (λ h. h, λ h. h)
All-CanBe e n s (k ∷ ns) =
    let here = CanBe-create_service e n k s in
    let rest = All-CanBe e n s ns in (λ h. (here.0 h.0, rest.0 h.1), λ h. (here.1 h.0, rest.1 h.1))

services_then_iff :
    (e : ServicesEnv) (n : Str) (ns : List Str) (s : ServicesState) (r : ServicesState × Bool)
    → create_service e n s ≡ r
    → ((create_services e ns r.0).1 ≡ true) ↔ All (CanBe e r.0.services) ns
    → ((services_then (create_services e ns) r).1 ≡ true) ↔ All (CanBe e s.services) (n ∷ ns)
services_then_iff e n ns s (t, true) same h =
    let one = (create_service_iff e n s).0 (ap (λ (r : ServicesState × Bool). r.1) same) in
    let all =
      subst
        (λ (r : ServicesState × Bool). All (CanBe e r.0.services) ns ↔ All (CanBe e s.services) ns)
        same (All-CanBe e n s ns) in
    (λ k. (one, all.0 (h.0 k)), λ k. h.1 (all.1 k.1))
services_then_iff e n ns s (t, false) same h =
    let none = (create_service_iff e n s).1 in
    let no = ap (λ (r : ServicesState × Bool). r.1) same in
    (λ k. absurd (ground (arith, k)), λ k. let yes = none k.0 in absurd (ground (arith, no, yes)))

-- The loop over the Services goes through exactly where each of them is there or could be created.
pub create_services_iff :
    (e : ServicesEnv) (ns : List Str) (s : ServicesState)
    → ((create_services e ns s).1 ≡ true) ↔ All (CanBe e s.services) ns
unfolding create_services
create_services_iff e [] s = (λ _. tt, λ _. refl)
create_services_iff e (n ∷ ns) s =
    services_then_iff e n ns s (create_service e n s) refl
      (create_services_iff e ns (create_service e n s).0)
