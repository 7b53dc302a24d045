-- ===== src/Services/Samples.antt =====
-- Services and replicas on which the theorems of this part are tried out.
use kubetest_alt.Base.{◌≡◌, ◌↔◌, refl, true, none, some, List, [], ◌∷◌, codes, str_eq, All}
use kubetest_alt.Controller.Phases.{reason_text}
use kubetest_alt.Controller.Infra.{analyze_pod}
use kubetest_alt.Controller.State.{get_ok}
use kubetest_alt.Controller.Samples.{cluster, active_world}
use kubetest_alt.Services.Failures.{ServicePod, pod_running, service_failure, pod_ready}
use kubetest_alt.Services.World.{
  ServiceReplica, ServicesEnv, ServicesState, compiled_services, has_name, find_pod,
}
use kubetest_alt.Services.Ensure.{new_pod, ensure_services}
use kubetest_alt.Services.Ready.{ensure_services_iff, Serves}
use kubetest_alt.Services.Healthy.{CanBe}

abbrev database : ServiceReplica
database = record { service = codes "db"; pod_name = codes "r1-db-0" }

abbrev env : ServicesEnv
env = record {
  base = cluster 9;
  compiled = compiled_services (codes "r1-db" ∷ []) (database ∷ []);
  services = [];
  create_service_ok = λ _. true;
  create_pod_ok = λ _. true;
  get_pod = λ _. get_ok;
  tail_ok = λ _. true;
  delete_pod_ok = λ _. true;
  delete_service_ok = λ _. true;
}

abbrev state_with : List ServicePod → ServicesState
state_with pods = record { world = active_world; services = []; pods = pods; tailers = [] }

abbrev ready_pod : ServicePod
ready_pod = record (new_pod 3 database.pod_name) { phase = pod_running; ready = some true }

ensure_services_iff_example :
    ((ensure_services env (state_with (ready_pod ∷ []))).1 ≡ none)
    ↔ (All (CanBe env []) (codes "r1-db" ∷ []) × All (Serves env (ready_pod ∷ [])) (database ∷ []))
ensure_services_iff_example =
    ensure_services_iff env (state_with (ready_pod ∷ [])) (codes "r1-db" ∷ []) (database ∷ []) refl

-- The ready replica lets the run go on.
goes_on_when_ready : (ensure_services env (state_with (ready_pod ∷ []))).1 ≡ none
unfolding ensure_services find_pod has_name service_failure pod_ready str_eq reason_text analyze_pod
goes_on_when_ready = refl
