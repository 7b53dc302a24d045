-- ===== src/Services/Looked.antt =====
-- internal/controller/services.go: what the loop over the replicas finds.
use mathlib.Core.Path.{subst}
use kubetest_alt.Base.{
  ◌-◌, ltb, ◌≡◌, refl, sym, ◌∙◌, true, false, not, Option, none, some, List, [], ◌∷◌, Str, All,
  if_cases, if_both, arith,
}
use kubetest_alt.Controller.Derivation.{is_empty}
use kubetest_alt.Controller.State.{GetAnswer, get_ok, get_lagging, get_failed}
use kubetest_alt.Services.Failures.{ServicePod, service_failure, pod_ready, service_timeout}
use kubetest_alt.Services.World.{ServiceReplica, ServicesEnv, ServicesState, find_pod}
use kubetest_alt.Services.Ensure.{
  ReplicaEnd, call_ends, replica_waiting, replica_ready, ReplicasEnd, call_ended, waiting_for,
  also_waiting, after_replica, create_replica, tail_service_logs, ready_or_late, judge_replica,
  found_replica, check_replica, check_replicas, fail_replica,
}

-- The reader gives the replica's pod, which is ready and has not failed.
abbrev pub Up : ServicesEnv → List ServicePod → ServiceReplica → Type 0
Up e pods r =
    (e.get_pod r.pod_name ≡ get_ok)
    × ((p : ServicePod) × (find_pod r.pod_name pods ≡ some p)
        × (service_failure p e.base.now e.base.unschedulable_timeout ≡ [])
        × (pod_ready p ≡ true))

-- What the round of a replica comes to.
abbrev pub Looked :
    ServicesEnv → ServiceReplica → ServicesState → ServicesState × ReplicaEnd → Type 0
Looked e r s (t, replica_ready) = Up e s.pods r × (t.pods ≡ s.pods) × (t.world ≡ s.world)
Looked e r s (t, replica_waiting) = Unit
Looked e r s (t, call_ends o) = Unit

pub tail_service_logs-rest :
    (e : ServicesEnv) (r : ServiceReplica) (p : ServicePod) (s : ServicesState)
    → ((tail_service_logs e r p s).pods ≡ s.pods) × ((tail_service_logs e r p s).world ≡ s.world)
unfolding tail_service_logs
tail_service_logs-rest e r p s = ground arith

pub is_empty-nil : (s : Str) → not (is_empty s) ≡ false → s ≡ []
is_empty-nil [] h = refl
is_empty-nil (c ∷ s) h = ground (arith, h)

pub judge_replica-Looked :
    (e : ServicesEnv) (r : ServiceReplica) (p : ServicePod) (s : ServicesState)
    → e.get_pod r.pod_name ≡ get_ok
    → find_pod r.pod_name s.pods ≡ some p
    → Looked e r s (judge_replica e r p s)
unfolding judge_replica ready_or_late fail_replica
judge_replica-Looked e r p s g f =
    let (a, b) = tail_service_logs-rest e r p s in
    if_cases (Looked e r s)
      (not (is_empty (service_failure p e.base.now e.base.unschedulable_timeout))) (λ t. tt)
      (λ n.
        if_cases (Looked e r s) (pod_ready p)
          (λ ready. ((g, (p, f, is_empty-nil _ n, ready)), a, b))
          (λ u.
            if_both (Looked e r s)
              (ltb (service_timeout e.services r.service).nanos (e.base.now - p.created_at)) tt tt))

pub create_replica-Looked :
    (e : ServicesEnv) (r : ServiceReplica) (s : ServicesState) (o : Option ServicePod)
    → Looked e r s (create_replica e r s o)
unfolding create_replica
create_replica-Looked e r s (some p) = tt
create_replica-Looked e r s none = if_both (Looked e r s) (e.create_pod_ok r.pod_name) tt tt

pub found_replica-Looked :
    (e : ServicesEnv) (r : ServiceReplica) (s : ServicesState) (g : GetAnswer)
    (o : Option ServicePod)
    → e.get_pod r.pod_name ≡ g
    → find_pod r.pod_name s.pods ≡ o
    → Looked e r s (found_replica e r s g o)
unfolding found_replica
found_replica-Looked e r s get_failed o h k = tt
found_replica-Looked e r s get_lagging o h k = create_replica-Looked e r s o
found_replica-Looked e r s get_ok none h k = create_replica-Looked e r s none
found_replica-Looked e r s get_ok (some p) h k = judge_replica-Looked e r p s h k

pub check_replica-Looked :
    (e : ServicesEnv) (r : ServiceReplica) (s : ServicesState) → Looked e r s (check_replica e r s)
unfolding check_replica
check_replica-Looked e r s =
    found_replica-Looked e r s (e.get_pod r.pod_name) (find_pod r.pod_name s.pods) refl refl

-- What the loop over the replicas comes to: with no service to wait for, all of them are up.
abbrev pub AllLooked :
    ServicesEnv → List ServiceReplica → ServicesState → ServicesState × ReplicasEnd → Type 0
AllLooked e rs s (t, waiting_for []) = All (Up e s.pods) rs × (t.world ≡ s.world)
AllLooked e rs s (t, waiting_for (n ∷ ns)) = Unit
AllLooked e rs s (t, call_ended o) = Unit

pub also_waiting-AllLooked :
    (e : ServicesEnv) (rs : List ServiceReplica) (n : Str) (s : ServicesState)
    (r : ServicesState × ReplicasEnd)
    → AllLooked e rs s (also_waiting n r)
also_waiting-AllLooked e rs n s (t, call_ended o) = tt
also_waiting-AllLooked e rs n s (t, waiting_for ns) = tt

pub cons-AllLooked :
    (e : ServicesEnv) (r : ServiceReplica) (rs : List ServiceReplica) (s t : ServicesState)
    (end : ServicesState × ReplicasEnd)
    → Up e s.pods r
    → t.pods ≡ s.pods
    → t.world ≡ s.world
    → AllLooked e rs t end
    → AllLooked e (r ∷ rs) s end
cons-AllLooked e r rs s t (q, waiting_for []) u a b (us, w) =
    ((u, subst (λ ps. All (Up e ps) rs) a us), w ∙ b)
cons-AllLooked e r rs s t (q, waiting_for (n ∷ ns)) u a b k = tt
cons-AllLooked e r rs s t (q, call_ended o) u a b k = tt

pub after_replica-AllLooked :
    (e : ServicesEnv) (next : ServicesState → ServicesState × ReplicasEnd) (r : ServiceReplica)
    (rs : List ServiceReplica) (s : ServicesState) (c : ServicesState × ReplicaEnd)
    → ((t : ServicesState) → AllLooked e rs t (next t))
    → Looked e r s c
    → AllLooked e (r ∷ rs) s (after_replica next r.service c)
after_replica-AllLooked e next r rs s (t, call_ends o) h k = tt
after_replica-AllLooked e next r rs s (t, replica_waiting) h k =
    also_waiting-AllLooked e (r ∷ rs) r.service s (next t)
after_replica-AllLooked e next r rs s (t, replica_ready) h (u, a, b) =
    cons-AllLooked e r rs s t (next t) u a b (h t)

pub check_replicas-AllLooked :
    (e : ServicesEnv) (rs : List ServiceReplica) (s : ServicesState)
    → AllLooked e rs s (check_replicas e rs s)
unfolding check_replicas
check_replicas-AllLooked e [] s = (tt, refl)
check_replicas-AllLooked e (r ∷ rs) s =
    after_replica-AllLooked e (check_replicas e rs) r rs s (check_replica e r s)
      (check_replicas-AllLooked e rs) (check_replica-Looked e r s)

-- A replica that is up is found to be ready.
pub judge_replica-Up :
    (e : ServicesEnv) (r : ServiceReplica) (p : ServicePod) (s : ServicesState)
    → service_failure p e.base.now e.base.unschedulable_timeout ≡ []
    → pod_ready p ≡ true
    → judge_replica e r p s ≡ (tail_service_logs e r p s, replica_ready)
unfolding judge_replica ready_or_late
judge_replica-Up e r p s f d = ground (arith, f, d)

pub check_replica-Up :
    (e : ServicesEnv) (r : ServiceReplica) (s : ServicesState)
    → Up e s.pods r
    → (t : ServicesState) × (check_replica e r s ≡ (t, replica_ready)) × (t.pods ≡ s.pods)
unfolding check_replica found_replica
check_replica-Up e r s (g, (p, f, h, d)) =
    let c : found_replica e r s (e.get_pod r.pod_name) (find_pod r.pod_name s.pods)
        ≡ (tail_service_logs e r p s, replica_ready) =
      rw (g, f) (judge_replica-Up e r p s h d) in
    (tail_service_logs e r p s, c, (tail_service_logs-rest e r p s).0)

pub check_replicas-Up :
    (e : ServicesEnv) (rs : List ServiceReplica) (s : ServicesState)
    → All (Up e s.pods) rs
    → (check_replicas e rs s).1 ≡ waiting_for []
unfolding check_replicas
check_replicas-Up e [] s h = refl
check_replicas-Up e (r ∷ rs) s (u, us) =
    let (t, c, k) = check_replica-Up e r s u in
    rw c (check_replicas-Up e rs t (subst (λ ps. All (Up e ps) rs) (sym k) us))
