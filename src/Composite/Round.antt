-- ===== src/Composite/Round.antt =====
-- internal/controller/composite.go: one round of the loop over the steps of a composite run.
use kubetest_alt.Base.{
  ℕ, ◌-◌, Bool, true, false, ◌&&◌, Option, none, some, List, length, codes, ltb, if◌then◌else◌,
}
use kubetest_alt.Api.{Phase, StepPhase, Step, TestRun, AbortRequest}
use kubetest_alt.Controller.World.{of_answer}
use kubetest_alt.Controller.State.{Answer, succeeded, Outcome}
use kubetest_alt.Composer.Aggregate.{StepVerdict, aggregate}
use kubetest_alt.Composite.Children.{
  ChildRun, ExpectedChild, Gathered, expected_children, kids_for_step, step_retries,
  gather_outcomes,
}
use kubetest_alt.Composite.Steps.{
  StepResult, no_result, step_at, put_step, step_key, recorded_step_verdict, record_step_aggregate,
  Walked, should_skip,
}
use kubetest_alt.Composite.World.{
  CompositeEnv, Pass, and_then, list_child_runs, abort_step_children, store_status,
}
use kubetest_alt.Composite.Attempts.{ensure_step_children, create_retries, update_per_child}

-- `compositeRequeue`: three seconds.
abbrev pub composite_requeue : ℕ
composite_requeue = 3000000000

-- How the round of a step ends: the walk goes on, past a verdict or a skipped step, or the pass ends.
pub data StepEnd : Type 0 where
  goes_on : Option StepVerdict → StepEnd
  stops : Outcome → StepEnd

abbrev is_skipped : StepPhase → Bool
is_skipped StepPhase.skipped = true
is_skipped _ = false

-- The entry of a step that is skipped.
unfoldable pub mark_skipped : CompositeEnv → ℕ → StepResult → Pass → Pass
mark_skipped e i existing p = if is_skipped existing.phase then p else record p {
  steps = put_step p.steps (step_key i) (record no_result {
    phase = StepPhase.skipped;
    started_at = some e.base.now;
    finished_at = some e.base.now;
  });
}

abbrev is_unset : StepPhase → Bool
is_unset StepPhase.unset = true
is_unset _ = false

-- The entry of a step in flight, and those of its children.
unfoldable pub mark_running :
    CompositeEnv → ℕ → Step → StepResult → List ChildRun → List ExpectedChild → Pass → Pass
unfolding update_per_child
mark_running e i step existing kids expected p = record p {
  steps = update_per_child e.hex_sum kids (step_retries step) expected (
      if is_unset existing.phase
      then put_step p.steps (step_key i)
          (record no_result { phase = StepPhase.running; started_at = some e.base.now })
      else p.steps);
}

abbrev pub timeout_verdict : StepVerdict
timeout_verdict = record { phase = Phase.failed; message = codes "step timeout exceeded" }

abbrev timeout_request : TestRun → AbortRequest
timeout_request run = record {
  reason = codes "Parent";
  message = codes "step timeout exceeded";
  requested_by = run.name;
}

-- The step has a timeout, and it is over.
unfoldable pub timed_out_step : CompositeEnv → Step → StepResult → Bool
timed_out_step e step existing = elim step.timeout [
  | none ↦ false
  | some d ↦ elim existing.started_at [ none ↦ false | some t ↦ ltb 0 d && ltb d (e.base.now - t) ]
]

-- The verdict of a step whose time is over, once its children are asked to abort.
unfoldable pub give_up : CompositeEnv → ℕ → Pass × Bool → Pass × StepEnd
give_up e i (p, true) = (
  record p { steps = record_step_aggregate e.base.now p.steps i timeout_verdict },
  goes_on (some timeout_verdict),
)
give_up e i (p, false) = (p, stops Outcome.error)

-- Past `r.Status().Update` of a step in flight.
unfoldable pub check_timeout :
    CompositeEnv → ℕ → Step → StepResult → List ChildRun → Pass → Pass × StepEnd
unfolding timed_out_step give_up
check_timeout e i step existing kids p =
    if timed_out_step e step existing
    then give_up e i (abort_step_children e (timeout_request p.run) kids p)
    else (p, stops (Outcome.requeue_after composite_requeue))

-- `if err := r.Status().Update(…); err != nil`: the first where the write failed, else the second.
abbrev pub after_write : Answer → Pass → Pass × StepEnd → Pass × StepEnd
after_write succeeded p r = r
after_write answer p r = (p, stops (of_answer answer))

-- The branch of a step that is not done.
unfoldable pub in_flight_step :
    CompositeEnv
    → ℕ
    → Step
    → StepResult
    → List ChildRun
    → List ExpectedChild
    → Pass
    → Pass × StepEnd
unfolding mark_running check_timeout
in_flight_step e i step existing kids expected p =
    let q = store_status e (mark_running e i step existing kids expected p) in
    after_write (e.base.status_update p.writes) q (check_timeout e i step existing kids q)

-- A step all of whose children are done: its verdict, and the entries that record it.
unfoldable pub close_step :
    CompositeEnv → ℕ → Step → List ChildRun → List ExpectedChild → Gathered → Pass → Pass × StepEnd
close_step e i step kids expected g p =
    let v = aggregate g.outcomes (record { negative = step.negative }) in
    (
      record p {
        steps =
            update_per_child e.hex_sum kids (step_retries step) expected
              (record_step_aggregate e.base.now p.steps i v);
      },
      goes_on (some v),
    )

-- A call that may fail, and what follows it.
abbrev pub and_round : Pass × Bool → (Pass → Pass × StepEnd) → Pass × StepEnd
and_round (p, true) next = next p
and_round (p, false) next = (p, stops Outcome.error)

-- The outcomes are in: the next tries first, and then either branch.
unfoldable pub judge_step :
    CompositeEnv
    → ℕ
    → Step
    → StepResult
    → List ChildRun
    → List ExpectedChild
    → Pass
    → Pass × StepEnd
unfolding in_flight_step close_step
judge_step e i step existing kids expected p =
    let g = gather_outcomes e.hex_sum kids expected (step_retries step) step.negative in
    and_round (create_retries e i g.retries p) (λ q.
      if g.done
      then close_step e i step kids expected g q
      else in_flight_step e i step existing kids expected q)

-- The listing after any creation.
unfoldable pub list_again : CompositeEnv → Bool → Pass → Pass × Bool
list_again e is_short p = if is_short then list_child_runs e p else (p, true)

-- A step that is open: its missing children, and the listing after that.
unfoldable pub open_step : CompositeEnv → ℕ → Step → StepResult → Pass → Pass × StepEnd
unfolding judge_step list_again
open_step e i step existing p =
    let expected = expected_children e.hex_sum p.run.name step i in
    let kids = kids_for_step p.kids i in
    and_round
      (and_then (ensure_step_children e i step kids expected p)
        (list_again e (ltb (length kids) (length expected))))
      (λ q. judge_step e i step existing (kids_for_step q.kids i) expected q)

-- One round of the loop of `reconcileComposite`.
unfoldable pub step_pass : CompositeEnv → ℕ → List Walked → Step → Pass → Pass × StepEnd
unfolding open_step mark_skipped
step_pass e i prior step p =
    let existing = step_at p.steps (step_key i) in
    if should_skip prior step
    then (mark_skipped e i existing p, goes_on none)
    else elim (recorded_step_verdict existing) [
      | some v ↦ (p, goes_on (some v))
      | none ↦ open_step e i step existing p
    ]
