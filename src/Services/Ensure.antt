-- ===== src/Services/Ensure.antt =====
-- internal/controller/services.go: `ensureServices`. The counts in `pending` are
-- written there and never read, so they have no part here.
use kubetest_alt.Base.{
  ℕ, ◌-◌, Bool, true, false, not, ◌&&◌, Option, none, some, List, [], ◌∷◌, ◌++◌, Str, codes, str_eq,
  str_ltb, ltb, if◌then◌else◌,
}
use kubetest_alt.Api.{Phase, Time}
use kubetest_alt.Controller.Phases.{Reason}
use kubetest_alt.Controller.Derivation.{is_empty}
use kubetest_alt.Controller.Setup.{join}
use kubetest_alt.Controller.World.{of_answer, update_status, transition_terminal}
use kubetest_alt.Controller.State.{succeeded, GetAnswer, get_ok, get_lagging, get_failed, Outcome}
use kubetest_alt.Services.Failures.{
  pod_pending, pod_running, ServicePod, service_failure, pod_ready, service_timeout, wants_logs,
}
use kubetest_alt.Services.World.{
  ServiceReplica, CompiledServices, ServicesEnv, ServicesState, find_pod, create_services,
  teardown_services, compiled_services, services_failed,
}

-- How the round of a replica ends: with the end of the whole call, or the replica is waited for or
-- ready.
pub data ReplicaEnd : Type 0 where
  call_ends : Outcome → ReplicaEnd
  replica_waiting replica_ready : ReplicaEnd

-- What `transitionTerminal` does with the services once the terminal phase is stored.
unfoldable pub settle_services : ServicesEnv → Outcome → ServicesState → ServicesState
unfolding teardown_services
settle_services e Outcome.done s = teardown_services e s
settle_services e o s = s

-- A run whose service can not serve ends in error.
unfoldable pub fail_services : ServicesEnv → Reason → Str → ServicesState → ServicesState × Outcome
unfolding settle_services
fail_services e reason msg s =
    let (w, o) = transition_terminal e.base 0 s.world.run Phase.error reason msg s.world in
    (settle_services e o (record s { world = w }), o)

unfoldable pub fail_replica : ServicesEnv → Str → ServicesState → ServicesState × ReplicaEnd
unfolding fail_services
fail_replica e msg s =
    let (t, o) = fail_services e Reason.service_not_ready msg s in (t, call_ends o)

-- The pod that `r.Create` makes, before the cluster has done anything with it.
unfoldable pub new_pod : Time → Str → ServicePod
new_pod now name = record {
  pod = record {
    name = name;
    conditions = [];
    init_container_statuses = [];
    container_statuses = [];
    is_phase_running = false;
    tool_label = [];
    containers = [];
    pod_ip = [];
  };
  phase = pod_pending;
  ready = none;
  created_at = now;
}

-- The pod of a replica is not in the cache: it is created, unless it is there after all.
unfoldable pub create_replica :
    ServicesEnv → ServiceReplica → ServicesState → Option ServicePod → ServicesState × ReplicaEnd
unfolding new_pod
create_replica e r s (some _) = (s, replica_waiting)
create_replica e r s none =
    if e.create_pod_ok r.pod_name
    then (record s { pods = new_pod e.base.now r.pod_name ∷ s.pods }, replica_waiting)
    else (s, call_ends Outcome.error)

-- `tailServiceLogs`.
unfoldable pub tail_service_logs :
    ServicesEnv → ServiceReplica → ServicePod → ServicesState → ServicesState
tail_service_logs e r p s =
    if e.base.has_registry
      && (wants_logs e.services r.service
          && (elim p.phase [ pod_running ↦ true | _ ↦ false ] && e.tail_ok r.pod_name))
    then record s { tailers = r.pod_name ∷ s.tailers }
    else s

unfoldable pub ready_or_late :
    ServicesEnv → ServiceReplica → ServicePod → ServicesState → ServicesState × ReplicaEnd
unfolding fail_replica
ready_or_late e r p s =
    let limit = service_timeout e.services r.service in
    if pod_ready p
    then (s, replica_ready)
    else if ltb limit.nanos (e.base.now - p.created_at)
    then fail_replica e
        (codes "service "
          ++ (r.service
              ++ (codes ": replica " ++ (r.pod_name ++ (codes " not ready after " ++ limit.text)))))
        s
    else (s, replica_waiting)

unfoldable pub judge_replica :
    ServicesEnv → ServiceReplica → ServicePod → ServicesState → ServicesState × ReplicaEnd
unfolding fail_replica ready_or_late tail_service_logs
judge_replica e r p s =
    let msg = service_failure p e.base.now e.base.unschedulable_timeout in
    if not (is_empty msg)
    then fail_replica e
        (codes "service " ++ (r.service ++ (codes " (" ++ (r.pod_name ++ (codes "): " ++ msg))))) s
    else ready_or_late e r p (tail_service_logs e r p s)

-- The round of a replica, with what the reader says of its pod.
unfoldable pub found_replica :
    ServicesEnv
    → ServiceReplica
    → ServicesState
    → GetAnswer
    → Option ServicePod
    → ServicesState × ReplicaEnd
unfolding create_replica judge_replica
found_replica e r s get_failed found = (s, call_ends Outcome.error)
found_replica e r s get_lagging found = create_replica e r s found
found_replica e r s get_ok none = create_replica e r s none
found_replica e r s get_ok (some p) = judge_replica e r p s

unfoldable pub check_replica :
    ServicesEnv → ServiceReplica → ServicesState → ServicesState × ReplicaEnd
unfolding found_replica find_pod
check_replica e r s = found_replica e r s (e.get_pod r.pod_name) (find_pod r.pod_name s.pods)

-- How the loop over the replicas ends: before the last one, or with the services to wait for.
pub data ReplicasEnd : Type 0 where
  call_ended : Outcome → ReplicasEnd
  waiting_for : List Str → ReplicasEnd

abbrev pub also_waiting : Str → ServicesState × ReplicasEnd → ServicesState × ReplicasEnd
also_waiting n (s, call_ended o) = (s, call_ended o)
also_waiting n (s, waiting_for ns) = (s, waiting_for (n ∷ ns))

abbrev pub after_replica :
    (ServicesState → ServicesState × ReplicasEnd)
    → Str
    → ServicesState × ReplicaEnd
    → ServicesState × ReplicasEnd
after_replica next n (s, call_ends o) = (s, call_ended o)
after_replica next n (s, replica_waiting) = also_waiting n (next s)
after_replica next n (s, replica_ready) = next s

unfoldable pub check_replicas :
    ServicesEnv → List ServiceReplica → ServicesState → ServicesState × ReplicasEnd
unfolding check_replica
check_replicas e [] s = (s, waiting_for [])
check_replicas e (r ∷ rs) s = after_replica (check_replicas e rs) r.service (check_replica e r s)

-- `slices.Compact(slices.Sorted(…))` of names: a name goes before the first one that is greater, once.
unfoldable pub insert_once : Str → List Str → List Str
insert_once n [] = n ∷ []
insert_once n (m ∷ ms) =
    let rest = insert_once n ms in
    if str_eq n m then m ∷ ms else if str_ltb n m then n ∷ m ∷ ms else m ∷ rest

unfoldable pub sorted_names : List Str → List Str
unfolding insert_once
sorted_names [] = []
sorted_names (n ∷ ns) = insert_once n (sorted_names ns)

abbrev pub service_poll : ℕ
service_poll = 2000000000

-- The run shows what it waits for.
unfoldable pub show_waiting : ServicesEnv → List Str → ServicesState → ServicesState × Outcome
unfolding sorted_names
show_waiting e ns s =
    let msg = codes "waiting for services: " ++ join (codes ", ") (sorted_names ns) in
    let run = s.world.run in
    if str_eq run.status.message msg then (s, Outcome.requeue_after service_poll) else (
      record s {
        world =
            update_status (e.base.status_update 0)
              (record run { status = record (run.status) { message = msg } }) s.world;
      },
      elim (e.base.status_update 0) [
        | succeeded ↦ Outcome.requeue_after service_poll
        | a ↦ of_answer a
      ],
    )

-- Past the replicas: nothing is returned where all of them are ready.
unfoldable pub after_replicas :
    ServicesEnv → ServicesState × ReplicasEnd → ServicesState × Option Outcome
unfolding show_waiting
after_replicas e (s, call_ended o) = (s, some o)
after_replicas e (s, waiting_for []) = (s, none)
after_replicas e (s, waiting_for (n ∷ ns)) = let (t, o) = show_waiting e (n ∷ ns) s in (t, some o)

unfoldable pub after_services :
    ServicesEnv → List ServiceReplica → ServicesState × Bool → ServicesState × Option Outcome
unfolding after_replicas check_replicas
after_services e replicas (s, false) = (s, some Outcome.error)
after_services e replicas (s, true) = after_replicas e (check_replicas e replicas s)

unfoldable pub ensure_compiled :
    ServicesEnv → CompiledServices → ServicesState → ServicesState × Option Outcome
unfolding after_services create_services fail_services
ensure_compiled e (services_failed msg) s =
    let (t, o) = fail_services e Reason.compile_error msg s in (t, some o)
ensure_compiled e (compiled_services names replicas) s =
    after_services e replicas (create_services e names s)

-- `ensureServices`: the outcome is what the caller returns, and none lets it go on.
unfoldable pub ensure_services : ServicesEnv → ServicesState → ServicesState × Option Outcome
unfolding ensure_compiled
ensure_services e s = ensure_compiled e e.compiled s
