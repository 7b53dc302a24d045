-- ===== src/Composite/World.antt =====
-- internal/controller/composite.go: what one pass over a composite run works on, and how it lists,
-- creates and aborts child runs.
use kubetest_alt.Base.{
  is_there, ℕ, suc, ◌+◌, Bool, true, false, ◌||◌, Option, none, some, List, [], ◌∷◌, Str, str_eq,
  str_ltb, itoa, if◌then◌else◌, keep_if,
}
use kubetest_alt.Api.{Phase, TestRun, AbortRequest, Snapshot}
use kubetest_alt.Controller.Phases.{is_terminal_phase}
use kubetest_alt.Controller.State.{Env, World, Answer, succeeded}
use kubetest_alt.Composite.Children.{ChildRun, ExpectedChild, attempt_name, find_child}
use kubetest_alt.Composite.Steps.{StepMap}

-- What the cluster answers in one pass. `list_runs` is what the reader gives at the listing of that
-- number, out of the runs that exist: the API server gives them all, a cache may lag. `create_ok` and
-- `patch_ok` tell of a name whether its creation and its patch go through.
pub record CompositeEnv : Type 0 where
  pub base : Env
  pub hex_sum : Str → Str
  pub list_runs : ℕ → List ChildRun → Option (List ChildRun)
  pub create_ok : Str → Bool
  pub new_uid : Str → Str
  pub patch_ok : Str → Bool

-- The run as the API server stores it, with its steps and the runs of the namespace, and what the
-- pass holds: its copy of the run and of the steps, the child runs it listed, and the numbers of the
-- status writes and the listings so far.
pub record Pass : Type 0 where
  pub world : World
  pub stored_steps : StepMap
  pub cluster : List ChildRun
  pub run : TestRun
  pub steps : StepMap
  pub kids : List ChildRun
  pub writes : ℕ
  pub listings : ℕ

-- `if err := …; err != nil { return err }` between two calls.
abbrev pub and_then : Pass × Bool → (Pass → Pass × Bool) → Pass × Bool
and_then (p, true) next = next p
and_then (p, false) next = (p, false)

-- `slices.SortStableFunc` by the names: a run goes before the first one whose name is not smaller.
unfoldable pub insert_by_name : ChildRun → List ChildRun → List ChildRun
insert_by_name k [] = k ∷ []
insert_by_name k (x ∷ xs) =
    let rest = insert_by_name k xs in if str_ltb x.run.name k.run.name then x ∷ rest else k ∷ x ∷ xs

unfoldable pub sort_by_name : List ChildRun → List ChildRun
unfolding insert_by_name
sort_by_name [] = []
sort_by_name (k ∷ ks) = insert_by_name k (sort_by_name ks)

-- `listChildRuns`: the runs with the label of the parent.
unfoldable pub children_of : TestRun → List ChildRun → List ChildRun
unfolding sort_by_name
children_of parent runs = sort_by_name (keep_if (λ k. str_eq k.run.parent_run parent.name) runs)

unfoldable pub list_child_runs : CompositeEnv → Pass → Pass × Bool
unfolding children_of
list_child_runs e p = elim (e.list_runs p.listings p.cluster) [
  | none ↦ (p, false)
  | some runs ↦ (record p { kids = children_of p.run runs; listings = p.listings + 1 }, true)
]

-- The object that `createChild` makes, with the fields that the API server fills in.
unfoldable pub new_child : CompositeEnv → TestRun → ℕ → ExpectedChild → ℕ → ChildRun
unfolding attempt_name
new_child e parent step_idx x attempt = record {
  run = record {
    namespace = parent.namespace;
    name = attempt_name e.hex_sum x attempt;
    uid = e.new_uid (attempt_name e.hex_sum x attempt);
    created_at = e.base.now;
    is_deleting = false;
    has_finalizer = false;
    test_ref = x.test_ref;
    parent_run = parent.name;
    not_before = none;
    abort = none;
    status = record {
      phase = Phase.unset;
      queued_at = none;
      started_at = none;
      finished_at = none;
      duration_ms = 0;
      job_name = [];
      pod_ip = [];
      resolved_spec = Snapshot.absent;
      stages = [];
      message = [];
    };
  };
  step = itoa step_idx;
}

-- `createChild`: a run of that name that is there already is success.
unfoldable pub create_child : CompositeEnv → ℕ → ExpectedChild → ℕ → Pass → Pass × Bool
unfolding new_child find_child
create_child e step_idx x attempt p =
    if is_there (find_child p.cluster (attempt_name e.hex_sum x attempt))
    then (p, true)
    else if e.create_ok (attempt_name e.hex_sum x attempt)
    then (record p { cluster = new_child e p.run step_idx x attempt ∷ p.cluster }, true)
    else (p, false)

-- `requestAbort` of the child runs of a step.
abbrev pub asked : AbortRequest → ChildRun → ChildRun
asked req k = record k { run = record (k.run) { abort = some req } }

unfoldable pub patch_named : Str → AbortRequest → List ChildRun → List ChildRun
patch_named name req [] = []
patch_named name req (k ∷ ks) =
    (if str_eq k.run.name name then asked req k else k) ∷ patch_named name req ks

unfoldable pub request_abort : CompositeEnv → AbortRequest → ChildRun → Pass → Pass × Bool
unfolding patch_named
request_abort e req k p =
    if is_there k.run.abort || is_terminal_phase k.run.status.phase
    then (p, true)
    else if e.patch_ok k.run.name
    then (record p { cluster = patch_named k.run.name req p.cluster }, true)
    else (p, false)

-- `abortStepChildren`, for the reason it gives.
unfoldable pub abort_step_children :
    CompositeEnv → AbortRequest → List ChildRun → Pass → Pass × Bool
unfolding request_abort
abort_step_children e req [] p = (p, true)
abort_step_children e req (k ∷ ks) p =
    and_then (request_abort e req k p) (abort_step_children e req ks)

-- `r.Status().Update`: the pass's copy of the run and of the steps is stored, or the stored ones stay.
unfoldable pub store_answer : Answer → Pass → Pass
store_answer succeeded p = record p {
  world = record (p.world) { run = p.run };
  stored_steps = p.steps;
  writes = suc p.writes;
}
store_answer _ p = record p { writes = suc p.writes }

unfoldable pub store_status : CompositeEnv → Pass → Pass
unfolding store_answer
store_status e p = store_answer (e.base.status_update p.writes) p
