-- ===== src/Composite/Samples.antt =====
-- Composite runs on which the theorems of this part are tried out.
use kubetest_alt.Base.{
  ◌+◌, ◌≤◌, ◌≡◌, ◌≢◌, refl, ◌↔◌, ◌⊎◌, inl, true, false, none, some, List, [], ◌∷◌, All, length,
  keep_if, str_ltb, Str, codes, str_eq, itoa,
}
use kubetest_alt.Api.{Phase, StepPhase, Step, TestSpec, TestRun, snapshot}
use kubetest_alt.Controller.Samples.{plain_spec, run_named, cluster, world_of, fresh_status}
use kubetest_alt.Controller.Phases.{is_terminal_phase}
use kubetest_alt.Controller.State.{done}
use kubetest_alt.Composer.Aggregate.{
  StepVerdict, aggregate, parent_phase, condition_always, child_needs_retry,
}
use kubetest_alt.Composer.Verdicts.{wanted}
use kubetest_alt.Names.{bounded}
use kubetest_alt.Composite.Children.{
  ChildRun, ExpectedChild, expected_children, gather_outcomes, kids_for_step, latest_attempt,
  step_retries,
}
use kubetest_alt.Composite.Steps.{
  StepMap, Walked, should_skip, step_key, recorded_step_verdict, step_at, no_result,
}
use kubetest_alt.Composite.World.{CompositeEnv, Pass, list_child_runs, create_child, store_status}
use kubetest_alt.Composite.Attempts.{
  count_in_flight, is_delayed, create_retries, ensure_step_children,
}
use kubetest_alt.Composite.Walk.{reconcile_composite, verdicts_of, optional_of, start_run}
use kubetest_alt.Composite.Skips.{IsOptionalSevere, should_skip-passed_iff}
use kubetest_alt.Composite.Capacity.{step_cap, open_kids, ensure_step_children-in_cap}
use kubetest_alt.Composite.Retries.{Due, gather_outcomes-Due}
use kubetest_alt.Composite.StepVerdicts.{EndsIn, aggregate-gather_outcomes_iff}
use kubetest_alt.Composite.Ended.{EndsRight, reconcile_composite-ended}
use kubetest_alt.Composite.Settled.{reconcile_composite-settled}

abbrev no_hash : Str → Str
no_hash _ = []

-- Two runs of a test, one at a time, each tried twice at most.
abbrev twice : Step
twice = record {
  execute =
      some (record { parallelism = 1; tests = record { name = codes "smoke"; count = 2 } ∷ [] });
  optional = false;
  negative = false;
  condition = [];
  retry = some 1;
  delay = none;
  timeout = none;
}

abbrev spec : TestSpec
spec = record plain_spec { steps = twice ∷ [] }

abbrev parent : TestRun
parent = record (run_named (codes "nightly") 0) {
  status = record fresh_status {
    phase = Phase.running;
    started_at = some 1;
    resolved_spec = snapshot spec;
  };
}

abbrev child_run : Str → Phase → ChildRun
child_run name phase = record {
  run = record (run_named name 2) {
    parent_run = codes "nightly";
    status = record fresh_status { phase = phase };
  };
  step = codes "0";
}

abbrev env : CompositeEnv
env = record {
  base = cluster 9;
  hex_sum = no_hash;
  list_runs = λ _ runs. some runs;
  create_ok = λ _. true;
  new_uid = λ name. name;
  patch_ok = λ _. true;
}

abbrev pass_with : StepMap → List ChildRun → Pass
pass_with steps kids = record {
  world = world_of parent none;
  stored_steps = steps;
  cluster = kids;
  run = parent;
  steps = steps;
  kids = [];
  writes = 0;
  listings = 0;
}

abbrev first_failed : List ChildRun
first_failed = child_run (codes "nightly-s0-smoke-0") Phase.failed ∷ []

abbrev expected : List ExpectedChild
expected = expected_children no_hash (codes "nightly") twice 0

-- A failed child with a try left takes the place of the next one and is tried again all the same: two
-- runs are in flight, though the step allows one.
two_in_flight :
    length (open_kids (reconcile_composite env (pass_with [] first_failed)).0.cluster) ≡ 2
unfolding reconcile_composite count_in_flight is_terminal_phase str_eq itoa list_child_runs
    should_skip recorded_step_verdict step_at ensure_step_children is_delayed expected_children
    kids_for_step keep_if latest_attempt step_retries bounded create_child create_retries
    gather_outcomes str_ltb child_needs_retry store_status
two_in_flight = refl

abbrev passed_verdict : StepVerdict
passed_verdict = record { phase = Phase.passed; message = codes "aggregate: 2/2 children passed" }

abbrev walked : List Walked
walked = (twice, some passed_verdict) ∷ []

abbrev settled : StepMap
settled =
    (
      codes "s0",
      record no_result {
        phase = StepPhase.passed;
        message = codes "aggregate: 2/2 children passed";
      },
    )
    ∷ []

should_skip-passed_iff_example : (should_skip walked twice ≡ false) ↔ (
    (twice.condition ≡ condition_always)
    ⊎ ((parent_phase (verdicts_of walked) (optional_of walked) ≡ Phase.passed)
        × All (λ w. ¬ IsOptionalSevere w) walked))
should_skip-passed_iff_example = should_skip-passed_iff walked twice (inl refl, tt)

-- One of the two children of a step is running.
abbrev one_running : List ChildRun
one_running = child_run (codes "nightly-s0-smoke-0") Phase.running ∷ []

ensure_step_children-in_cap_example :
    let p = pass_with [] one_running in
    let q = (ensure_step_children env 0 twice one_running expected p).0 in
    (length q.cluster ≡ length p.cluster)
    ⊎ (length q.cluster + length (open_kids one_running)
        ≤ length p.cluster + step_cap twice expected)
ensure_step_children-in_cap_example =
    ensure_step_children-in_cap env 0 twice one_running expected (pass_with [] one_running)

gather_outcomes-Due_example :
    All
      (Due no_hash first_failed 1 false)
      (gather_outcomes no_hash first_failed expected 1 false).retries
gather_outcomes-Due_example = gather_outcomes-Due no_hash first_failed expected 1 false

abbrev both_passed : List ChildRun
both_passed =
    child_run (codes "nightly-s0-smoke-0") Phase.passed
    ∷ (child_run (codes "nightly-s0-smoke-1") Phase.passed ∷ [])

aggregate-gather_outcomes_iff_example :
    ((aggregate
        (gather_outcomes no_hash both_passed expected 1 false).outcomes
        (record { negative = false })).phase
      ≡ Phase.passed)
    ↔ ((expected ≢ [])
        × All (EndsIn no_hash both_passed 1 (wanted (record { negative = false }))) expected)
unfolding gather_outcomes expected_children latest_attempt is_terminal_phase str_eq itoa bounded
    child_needs_retry
aggregate-gather_outcomes_iff_example =
    aggregate-gather_outcomes_iff no_hash both_passed expected 1 false refl

reconcile_composite-ended_example :
    let p = pass_with settled both_passed in
    let (q, o) = reconcile_composite env p in
    let started = store_status env (record p { run = start_run env parent }) in
    EndsRight env spec.steps parent (list_child_runs env p).0 q
    ⊎ EndsRight env spec.steps (start_run env parent) (list_child_runs env started).0 q
reconcile_composite-ended_example =
    reconcile_composite-ended env spec (pass_with settled both_passed) refl refl

reconcile_composite-settled_example :
    let (q, o) = reconcile_composite env (pass_with settled both_passed) in
    (q.world.run.status.phase ≡ parent_phase (verdicts_of walked) (optional_of walked))
    × (o ≡ done)
    × (q.cluster ≡ both_passed)
unfolding should_skip recorded_step_verdict step_at str_eq step_key itoa
reconcile_composite-settled_example =
    reconcile_composite-settled env spec (pass_with settled both_passed) walked both_passed refl
      refl refl (refl, (inl (refl, refl), refl), tt) refl refl
