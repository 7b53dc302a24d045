-- ===== src/Services/World.antt =====
-- internal/controller/services.go: the services of a run in the cluster, and `teardownServices`.
use kubetest_alt.Base.{
  Bool, true, false, not, ◌||◌, Option, none, some, List, [], ◌∷◌, Str, str_eq, if◌then◌else◌,
  keep_if, ◌==◌,
}
use kubetest_alt.Api.{snapshot}
use kubetest_alt.Controller.State.{GetAnswer, Env, World}
use kubetest_alt.Services.Failures.{ServicePod, ServiceSpec}

-- `ServiceReplica`: the service, and the name of the pod.
pub record ServiceReplica : Type 0 where
  pub service : Str
  pub pod_name : Str

-- What `compiler.CompileServices` gives: the Services and the replicas, or an error.
pub data CompiledServices : Type 0 where
  compiled_services : List Str → List ServiceReplica → CompiledServices
  services_failed : Str → CompiledServices

-- `base` answers for the run's status. `get_pod` is what the cached reader says of a pod of that name,
-- and the others tell whether a creation, a tailer or a deletion goes through.
pub record ServicesEnv : Type 0 where
  pub base : Env
  pub compiled : CompiledServices
  pub services : List (Str × ServiceSpec)
  pub create_service_ok : Str → Bool
  pub create_pod_ok : Str → Bool
  pub get_pod : Str → GetAnswer
  pub tail_ok : Str → Bool
  pub delete_pod_ok : Str → Bool
  pub delete_service_ok : Str → Bool

-- The world of the run, and what there is of its services: the Services, the pods, and the log tailers
-- of pods.
pub record ServicesState : Type 0 where
  pub world : World
  pub services : List Str
  pub pods : List ServicePod
  pub tailers : List Str

unfoldable pub has_name : Str → List Str → Bool
has_name n [] = false
has_name n (m ∷ ms) = str_eq m n || has_name n ms

unfoldable pub find_pod : Str → List ServicePod → Option ServicePod
find_pod n [] = none
find_pod n (p ∷ ps) = let rest = find_pod n ps in if str_eq p.pod.name n then some p else rest

-- The creation of a Service; one that is there already is success.
unfoldable pub create_service : ServicesEnv → Str → ServicesState → ServicesState × Bool
unfolding has_name
create_service e n s =
    if has_name n s.services
    then (s, true)
    else if e.create_service_ok n
    then (record s { services = n ∷ s.services }, true)
    else (s, false)

abbrev pub services_then :
    (ServicesState → ServicesState × Bool) → ServicesState × Bool → ServicesState × Bool
services_then next (s, true) = next s
services_then next (s, false) = (s, false)

-- The loop over the Services.
unfoldable pub create_services : ServicesEnv → List Str → ServicesState → ServicesState × Bool
unfolding create_service
create_services e [] s = (s, true)
create_services e (n ∷ ns) s = services_then (create_services e ns) (create_service e n s)

-- The loops of `teardownServices`.
unfoldable pub delete_replicas : ServicesEnv → List ServiceReplica → ServicesState → ServicesState
delete_replicas e [] s = s
delete_replicas e (r ∷ rs) s = delete_replicas e rs (record s {
  tailers =
      if e.base.has_registry then keep_if (λ t. not (str_eq t r.pod_name)) s.tailers else s.tailers;
  pods =
      if e.delete_pod_ok r.pod_name
      then keep_if (λ p. not (str_eq p.pod.name r.pod_name)) s.pods
      else s.pods;
})

unfoldable pub delete_services : ServicesEnv → List Str → ServicesState → ServicesState
delete_services e [] s = s
delete_services e (n ∷ ns) s = delete_services e ns (record s {
  services =
      if e.delete_service_ok n then keep_if (λ m. not (str_eq m n)) s.services else s.services;
})

-- `teardownServices`.
unfoldable pub teardown_services : ServicesEnv → ServicesState → ServicesState
unfolding delete_services delete_replicas
teardown_services e s = elim s.world.run.status.resolved_spec [
  | snapshot spec ↦ if spec.services == 0 then s else elim e.compiled [
    | compiled_services names replicas ↦ delete_services e names (delete_replicas e replicas s)
    | services_failed _ ↦ s
  ]
  | _ ↦ s
]
