-- ===== src/Composite/Sources.antt =====
-- internal/controller/composite.go: where the verdict of a step comes from.
use kubetest_alt.Base.{
  ℕ, ◌-◌, ◌<◌, ◌≡◌, ◌≢◌, ◌↔◌, ◌⊎◌, inl, inr, refl, ◌∙◌, Bool, true, false, some, List, [], ◌∷◌, All,
  Option-cases, arith, if◌then◌else◌,
}
use kubetest_alt.Api.{Phase, StepPhase, Step, Time}
use kubetest_alt.Composer.Aggregate.{StepVerdict, aggregate}
use kubetest_alt.Composite.Children.{
  ChildRun, ExpectedChild, ChildRetry, gather_outcomes, step_retries,
}
use kubetest_alt.Composite.Steps.{StepResult, recorded_step_verdict}
use kubetest_alt.Composite.World.{CompositeEnv, Pass, and_then, create_child}
use kubetest_alt.Composite.Attempts.{create_retries}
use kubetest_alt.Composite.Retries.{Settled, gather_outcomes-done_iff}
use kubetest_alt.Composite.StepVerdicts.{EndsIn, aggregate-gather_outcomes_iff}
use kubetest_alt.Composite.Round.{timed_out_step}

-- The entry of a step records the verdict: the phase of the one is that of the other, by its name.
abbrev pub Records : StepResult → StepVerdict → Type 0
Records r v =
    (((r.phase ≡ StepPhase.passed) × (v.phase ≡ Phase.passed))
      ⊎ ((r.phase ≡ StepPhase.failed) × (v.phase ≡ Phase.failed))
      ⊎ ((r.phase ≡ StepPhase.aborted) × (v.phase ≡ Phase.aborted))
      ⊎ ((r.phase ≡ StepPhase.error) × (v.phase ≡ Phase.error)))
    × (v.message ≡ r.message)

pub recorded_step_verdict-Records :
    (r : StepResult) (v : StepVerdict) → recorded_step_verdict r ≡ some v → Records r v
unfolding recorded_step_verdict
recorded_step_verdict-Records r v h = ground (arith, h)

pub Records-recorded_step_verdict :
    (r : StepResult) (v : StepVerdict) → Records r v → recorded_step_verdict r ≡ some v
unfolding recorded_step_verdict
Records-recorded_step_verdict r v h = ground (arith, h)

-- The latest try of every child ended and needs no other, and the verdict is passed exactly when there
-- are children and each of these tries ended as the step wants.
abbrev pub Closes : CompositeEnv → Step → List ChildRun → List ExpectedChild → StepVerdict → Type 0
Closes e step kids expected v =
    All (Settled e.hex_sum kids (step_retries step) step.negative) expected
    × ((v.phase ≡ Phase.passed) ↔ (
        (expected ≢ [])
        × All
            (EndsIn e.hex_sum kids (step_retries step)
              (if step.negative then Phase.failed else Phase.passed))
            expected))

-- The step failed, since it has run for longer than its timeout.
abbrev pub TimedOut : CompositeEnv → Step → StepResult → StepVerdict → Type 0
TimedOut e step existing v =
    (v.phase ≡ Phase.failed)
    × ((d : ℕ) × (t : Time) × (step.timeout ≡ some d)
        × (existing.started_at ≡ some t)
        × (d < e.base.now - t))

pub aggregate-Closes :
    (e : CompositeEnv) (step : Step) (kids : List ChildRun) (expected : List ExpectedChild)
    → let g = gather_outcomes e.hex_sum kids expected (step_retries step) step.negative in
      g.done ≡ true
      → Closes e step kids expected (aggregate g.outcomes (record { negative = step.negative }))
aggregate-Closes e step kids expected d = (
  (gather_outcomes-done_iff e.hex_sum kids expected (step_retries step) step.negative).0 d,
  aggregate-gather_outcomes_iff e.hex_sum kids expected (step_retries step) step.negative d,
)

pub timed_out_step-TimedOut :
    (e : CompositeEnv) (step : Step) (existing : StepResult) (v : StepVerdict)
    → v.phase ≡ Phase.failed
    → timed_out_step e step existing ≡ true
    → TimedOut e step existing v
unfolding timed_out_step
timed_out_step-TimedOut e step existing v f h = elim (Option-cases step.timeout) [
  | inl n ↦ absurd (ground (arith, n, h))
  | inr (d, n) ↦ elim (Option-cases existing.started_at) [
    | inl m ↦ absurd (ground (arith, n, m, h))
    | inr (t, m) ↦ (f, (d, t, n, m, ground (arith, n, m, h)))
  ]
]

create_child_kids :
    (e : CompositeEnv) (i : ℕ) (x : ExpectedChild) (n : ℕ) (p : Pass)
    → (create_child e i x n p).0.kids ≡ p.kids
unfolding create_child
create_child_kids e i x n p = ground arith

and_then_kids :
    (p : Pass) (r : Pass × Bool) (next : Pass → Pass × Bool)
    → r.0.kids ≡ p.kids
    → ((q : Pass) → (next q).0.kids ≡ q.kids)
    → (and_then r next).0.kids ≡ p.kids
and_then_kids p (q, true) next h k = k q ∙ h
and_then_kids p (q, false) next h k = h

-- The creation of further tries leaves the list of children as it is.
pub create_retries_kids :
    (e : CompositeEnv) (i : ℕ) (rs : List ChildRetry) (p : Pass)
    → (create_retries e i rs p).0.kids ≡ p.kids
unfolding create_retries
create_retries_kids e i [] p = refl
create_retries_kids e i (r ∷ rs) p =
    and_then_kids p (create_child e i r.child r.attempt p) (create_retries e i rs)
      (create_child_kids e i r.child r.attempt p) (create_retries_kids e i rs)
