-- ===== src/Composite/Walk.antt =====
-- internal/controller/composite.go: one pass over a composite run.
use kubetest_alt.Base.{
  ℕ, suc, true, false, Bool, Option, some, List, [], ◌∷◌, ◌++◌, map, Str, codes, if◌then◌else◌,
}
use kubetest_alt.Api.{Phase, Step, TestRun, absent, snapshot, malformed}
use kubetest_alt.Controller.Phases.{Reason}
use kubetest_alt.Controller.World.{of_answer, is_running, time_or, transition_terminal}
use kubetest_alt.Controller.State.{Answer, succeeded, Outcome}
use kubetest_alt.Composer.Aggregate.{StepVerdict, parent_phase}
use kubetest_alt.Composite.Steps.{Walked, parent_message}
use kubetest_alt.Composite.World.{CompositeEnv, Pass, list_child_runs, store_status}
use kubetest_alt.Composite.Round.{StepEnd, goes_on, stops, step_pass}

-- How the walk ends: past the last step, with what each came to, or before that.
pub data WalkEnd : Type 0 where
  finished : List Walked → WalkEnd
  halted : Outcome → WalkEnd

abbrev pub after_step :
    (List Walked → Pass → Pass × WalkEnd) → List Walked → Step → Pass × StepEnd → Pass × WalkEnd
after_step next prior step (p, goes_on v) = next (prior ++ (step, v) ∷ []) p
after_step next prior step (p, stops o) = (p, halted o)

-- The loop over the steps, from number `i` on.
unfoldable pub walk : CompositeEnv → ℕ → List Step → List Walked → Pass → Pass × WalkEnd
walk e i [] prior p = (p, finished prior)
walk e i (step ∷ steps) prior p =
    after_step (walk e (suc i) steps) prior step (step_pass e i prior step p)

abbrev pub verdicts_of : List Walked → List (Option StepVerdict)
verdicts_of ws = map (λ w. w.1) ws

abbrev pub optional_of : List Walked → List Bool
optional_of ws = map (λ w. w.0.optional) ws

-- `transitionTerminal` of the pass's copy of the run, with its steps.
unfoldable pub end_run : CompositeEnv → Phase → Reason → Str → Pass → Pass × Outcome
end_run e phase reason message p =
    let (w, o) = transition_terminal e.base p.writes p.run phase reason message p.world in
    (
      elim (e.base.status_update p.writes) [
        | succeeded ↦ record p { world = w; stored_steps = p.steps; writes = suc p.writes }
        | _ ↦ record p { world = w; writes = suc p.writes }
      ],
      o,
    )

unfoldable pub after_walk : CompositeEnv → Pass × WalkEnd → Pass × Outcome
unfolding end_run
after_walk e (p, halted o) = (p, o)
after_walk e (p, finished ws) =
    end_run e (parent_phase (verdicts_of ws) (optional_of ws)) Reason.unstated (parent_message ws) p

-- The promotion of the run to Running, in the pass's copy.
unfoldable pub start_run : CompositeEnv → TestRun → TestRun
start_run e run = record run {
  status = record (run.status) {
    phase = Phase.running;
    started_at = some (time_or run.status.started_at e.base.now);
  };
}

unfoldable pub walk_listed : CompositeEnv → List Step → Pass × Bool → Pass × Outcome
unfolding after_walk walk step_pass
walk_listed e steps (p, false) = (p, Outcome.error)
walk_listed e steps (p, true) = after_walk e (walk e 0 steps [] p)

unfoldable pub list_and_walk : CompositeEnv → List Step → Pass → Pass × Outcome
unfolding walk_listed
list_and_walk e steps p = walk_listed e steps (list_child_runs e p)

-- Past the write that promotes the run, whose answer comes first.
unfoldable pub walk_started : CompositeEnv → List Step → Answer → Pass → Pass × Outcome
unfolding list_and_walk
walk_started e steps succeeded p = list_and_walk e steps p
walk_started e steps answer p = (p, of_answer answer)

-- `reconcileComposite`.
unfoldable pub reconcile_composite : CompositeEnv → Pass → Pass × Outcome
unfolding walk_started start_run
reconcile_composite e p = elim p.run.status.resolved_spec [
  | absent ↦
      end_run e Phase.error Reason.compile_error
        (codes "composite resolvedSpec unmarshal: unexpected end of JSON input") p
  | malformed why ↦
      end_run e Phase.error Reason.compile_error (codes "composite resolvedSpec unmarshal: " ++ why)
        p
  | snapshot spec ↦
      if is_running p.run.status.phase
      then list_and_walk e spec.steps p
      else walk_started e spec.steps (e.base.status_update p.writes)
          (store_status e (record p { run = start_run e p.run }))
]
