-- ===== src/Services/Ready.antt =====
-- internal/controller/services.go: when a run's services let it go on.
use mathlib.Core.Path.{subst}
use kubetest_alt.Base.{
  ◌≡◌, ◌↔◌, refl, sym, ◌∙◌, Bool, true, false, none, some, List, [], ◌∷◌, Str, All, arith,
}
use kubetest_alt.Services.World.{
  ServiceReplica, ServicesEnv, ServicesState, compiled_services, create_service, create_services,
  services_then, find_pod,
}
use kubetest_alt.Services.Ensure.{
  ReplicasEnd, call_ended, waiting_for, check_replicas, after_replicas, after_services,
  ensure_compiled, ensure_services,
}
use kubetest_alt.Controller.State.{get_ok}
use kubetest_alt.Services.Failures.{ServicePod}
use kubetest_alt.Services.Healthy.{
  Healthy, service_failure_iff, pod_ready_iff, CanBe, create_services_iff,
}
use kubetest_alt.Services.Looked.{Up, AllLooked, check_replicas-AllLooked, check_replicas-Up}

-- The Services alone are touched.
abbrev Besides : ServicesState → ServicesState × Bool → Type 0
Besides s (t, b) = (t.pods ≡ s.pods) × (t.world ≡ s.world)

create_service-Besides :
    (e : ServicesEnv) (n : Str) (s : ServicesState) → Besides s (create_service e n s)
unfolding create_service
create_service-Besides e n s = ground arith

services_then-Besides :
    (next : ServicesState → ServicesState × Bool) (s : ServicesState) (r : ServicesState × Bool)
    → ((t : ServicesState) → Besides t (next t))
    → Besides s r
    → Besides s (services_then next r)
services_then-Besides next s (t, false) h b = b
services_then-Besides next s (t, true) h (a, b) = ((h t).0 ∙ a, (h t).1 ∙ b)

create_services-Besides :
    (e : ServicesEnv) (ns : List Str) (s : ServicesState) → Besides s (create_services e ns s)
unfolding create_services
create_services-Besides e [] s = (refl, refl)
create_services-Besides e (n ∷ ns) s =
    services_then-Besides (create_services e ns) s (create_service e n s)
      (create_services-Besides e ns) (create_service-Besides e n s)

-- What the end of the loop comes to: the call goes on exactly where there is nothing to wait for.
after_replicas-AllLooked :
    (e : ServicesEnv) (rs : List ServiceReplica) (s : ServicesState)
    (r : ServicesState × ReplicasEnd)
    → AllLooked e rs s r
    → (after_replicas e r).1 ≡ none
    → All (Up e s.pods) rs × ((after_replicas e r).0.world ≡ s.world)
unfolding after_replicas
after_replicas-AllLooked e rs s (t, waiting_for []) k h = k
after_replicas-AllLooked e rs s (t, waiting_for (n ∷ ns)) k h = ground (arith, h)
after_replicas-AllLooked e rs s (t, call_ended o) k h = ground (arith, h)

after_replicas-none :
    (e : ServicesEnv) (r : ServicesState × ReplicasEnd)
    → r.1 ≡ waiting_for []
    → (after_replicas e r).1 ≡ none
unfolding after_replicas
after_replicas-none e (t, waiting_for []) h = refl
after_replicas-none e (t, waiting_for (n ∷ ns)) h = ground (arith, h)
after_replicas-none e (t, call_ended o) h = ground (arith, h)

after_services_iff :
    (e : ServicesEnv) (rs : List ServiceReplica) (s : ServicesState) (r : ServicesState × Bool)
    → Besides s r
    → ((after_services e rs r).1 ≡ none) ↔ ((r.1 ≡ true) × All (Up e s.pods) rs)
unfolding after_services
after_services_iff e rs s (t, false) b = ground arith
after_services_iff e rs s (t, true) (a, b) = (
  λ h. (
    refl,
    subst (λ ps. All (Up e ps) rs) a
        (after_replicas-AllLooked e rs t (check_replicas e rs t) (check_replicas-AllLooked e rs t)
          h).0,
  ),
  λ k.
      after_replicas-none e (check_replicas e rs t)
        (check_replicas-Up e rs t (subst (λ ps. All (Up e ps) rs) (sym a) k.1)),
)

-- The pod of the replica is given by the reader, ready and healthy.
abbrev pub Serves : ServicesEnv → List ServicePod → ServiceReplica → Type 0
Serves e pods r =
    (e.get_pod r.pod_name ≡ get_ok)
    × ((p : ServicePod) × (find_pod r.pod_name pods ≡ some p)
        × Healthy p e.base.now e.base.unschedulable_timeout
        × (p.ready ≡ some true))

Up-iff :
    (e : ServicesEnv) (pods : List ServicePod) (r : ServiceReplica) → Up e pods r ↔ Serves e pods r
Up-iff e pods r = (
  λ (g, (p, f, h, d)). (
    g,
    (
      p,
      f,
      (service_failure_iff p e.base.now e.base.unschedulable_timeout).0 h,
      (pod_ready_iff p).0 d,
    ),
  ),
  λ (g, (p, f, h, d)). (
    g,
    (
      p,
      f,
      (service_failure_iff p e.base.now e.base.unschedulable_timeout).1 h,
      (pod_ready_iff p).1 d,
    ),
  ),
)

All-Up-iff :
    (e : ServicesEnv) (pods : List ServicePod) (rs : List ServiceReplica)
    → All (Up e pods) rs ↔ All (Serves e pods) rs
All-Up-iff e pods [] = (λ h. h, λ h. h)
All-Up-iff e pods (r ∷ rs) =
    let here = Up-iff e pods r in
    let rest = All-Up-iff e pods rs in
    (λ h. (here.0 h.0, rest.0 h.1), λ h. (here.1 h.0, rest.1 h.1))

-- Where the services compile, a run is let go on exactly when each Service is there or could be
-- created and the pod of every replica is there, is ready, has not ended, shows no failure of the
-- infrastructure and is not restarted over and over.
pub ensure_services_iff :
    (e : ServicesEnv) (s : ServicesState) (names : List Str) (replicas : List ServiceReplica)
    → e.compiled ≡ compiled_services names replicas
    → ((ensure_services e s).1 ≡ none)
      ↔ (All (CanBe e s.services) names × All (Serves e s.pods) replicas)
unfolding ensure_services ensure_compiled
ensure_services_iff e s names replicas h =
    let (to, from) =
      after_services_iff e replicas s (create_services e names s)
        (create_services-Besides e names s) in
    let created = create_services_iff e names s in
    let up = All-Up-iff e s.pods replicas in
    subst
      (λ c.
        ((ensure_compiled e c s).1 ≡ none)
        ↔ (All (CanBe e s.services) names × All (Serves e s.pods) replicas))
      (sym h)
      (λ k. let (c, u) = to k in (created.0 c, up.0 u), λ (c, u). from (created.1 c, up.1 u))
