-- ===== src/Composite/Settled.antt =====
-- internal/controller/composite.go: the pass that finds every step settled.
use mathlib.Core.Path.{subst}
use mathlib.Core.List.{append_assoc, append-nil}
use kubetest_alt.Base.{
  ℕ, suc, ◌+◌, ◌≡◌, sym, ap, ◌∙◌, Str, Bool, true, false, Option, none, some, List, [], ◌∷◌, ◌++◌,
  arith,
}
use kubetest_alt.Api.{Phase, StepPhase, TestSpec, snapshot}
use kubetest_alt.Controller.Phases.{Reason, is_terminal_phase}
use kubetest_alt.Controller.World.{is_running, ended, count_terminal}
use kubetest_alt.Controller.State.{succeeded, Outcome, done}
use kubetest_alt.Controller.Progress.{transition_terminal_stored}
use kubetest_alt.Composer.Aggregate.{StepVerdict, parent_phase, first_severe, rest_optional}
use kubetest_alt.Composite.Children.{ChildRun}
use kubetest_alt.Composite.Steps.{Walked, StepMap, should_skip, step_at, step_key, parent_message}
use kubetest_alt.Composite.World.{CompositeEnv, Pass, list_child_runs, children_of}
use kubetest_alt.Composite.Round.{step_pass, mark_skipped}
use kubetest_alt.Composite.Walk.{
  finished, walk, after_walk, end_run, walk_listed, list_and_walk, reconcile_composite, verdicts_of,
  optional_of,
}
use kubetest_alt.Composite.Sources.{Records, Records-recorded_step_verdict}
use kubetest_alt.Composite.Ended.{steps_of, reconcile_running}

-- The entries of the steps, from number `i` on, record what each came to.
abbrev pub Recorded : StepMap → ℕ → List Walked → List Walked → Type 0
Recorded m i prior [] = Unit
Recorded m i prior ((s, none) ∷ ws) =
    (should_skip prior s ≡ true)
    × ((step_at m (step_key i)).phase ≡ StepPhase.skipped)
    × Recorded m (suc i) (prior ++ (s, none) ∷ []) ws
Recorded m i prior ((s, some v) ∷ ws) =
    (should_skip prior s ≡ false)
    × Records (step_at m (step_key i)) v
    × Recorded m (suc i) (prior ++ (s, some v) ∷ []) ws

walk-Recorded :
    (e : CompositeEnv) (i : ℕ) (ws prior : List Walked) (p : Pass)
    → Recorded p.steps i prior ws
    → walk e i (steps_of ws) prior p ≡ (p, finished (prior ++ ws))
unfolding walk step_pass mark_skipped
walk-Recorded e i [] prior p h = ground (arith, append-nil prior)
walk-Recorded e i ((s, none) ∷ ws) prior p (k, m, h) = ground (
  arith,
  k,
  m,
  walk-Recorded e (suc i) ws (prior ++ (s, none) ∷ []) p h,
  append_assoc prior ((s, none) ∷ []) ws,
)
walk-Recorded e i ((s, some v) ∷ ws) prior p (k, r, h) = ground (
  arith,
  k,
  Records-recorded_step_verdict (step_at p.steps (step_key i)) v r,
  walk-Recorded e (suc i) ws (prior ++ (s, some v) ∷ []) p h,
  append_assoc prior ((s, some v) ∷ []) ws,
)

severe-terminal :
    (vs : List (Option StepVerdict)) (os : List Bool) (p : Phase)
    → first_severe vs os ≡ some p
    → is_terminal_phase p ≡ true
unfolding first_severe is_terminal_phase
severe-terminal [] os p h = ground arith
severe-terminal (none ∷ vs) os p h = severe-terminal vs (rest_optional os) p h
severe-terminal (some v ∷ vs) os p h = ground (arith, severe-terminal vs (rest_optional os) p)

parent_phase-terminal :
    (vs : List (Option StepVerdict)) (os : List Bool)
    → is_terminal_phase (parent_phase vs os) ≡ true
unfolding parent_phase is_terminal_phase
parent_phase-terminal vs os = grind (arith, severe-terminal vs os)

end_run-stored :
    (e : CompositeEnv) (phase : Phase) (cause : Reason) (msg : Str) (p : Pass)
    → is_running p.run.status.phase ≡ true
    → is_terminal_phase phase ≡ true
    → e.base.status_update p.writes ≡ succeeded
    → let (q, o) = end_run e phase cause msg p in
      (q.world.run.status.phase ≡ phase) × (o ≡ done) × (q.cluster ≡ p.cluster)
unfolding end_run is_terminal_phase count_terminal ended
end_run-stored e phase cause msg p r t a =
    let stored =
      transition_terminal_stored e.base p.writes p.run phase cause msg p.world (ground arith) t a in
    ground (arith, a, stored)

-- The pass once it listed its children.
abbrev listed : Pass → List ChildRun → Pass
listed p runs = record p { kids = children_of p.run runs; listings = p.listings + 1 }

list_and_walk-Recorded :
    (e : CompositeEnv) (ws : List Walked) (p : Pass) (runs : List ChildRun)
    → Recorded p.steps 0 [] ws
    → e.list_runs p.listings p.cluster ≡ some runs
    → list_and_walk e (steps_of ws) p
      ≡ end_run e
          (parent_phase (verdicts_of ws) (optional_of ws))
          Reason.unstated
          (parent_message ws)
          (listed p runs)
unfolding list_and_walk list_child_runs walk_listed after_walk
list_and_walk-Recorded e ws p runs h l =
    ground (arith, l, walk-Recorded e 0 ws [] (listed p runs) h)

-- A running composite run whose entries record, for every step, a final verdict or that the step is
-- skipped as the steps before it say, ends in the next pass that can list its children and write its
-- status: in the phase that the verdicts give, and without a new child run.
pub reconcile_composite-settled :
    (e : CompositeEnv) (spec : TestSpec) (p : Pass) (ws : List Walked) (runs : List ChildRun)
    → p.run.status.resolved_spec ≡ snapshot spec
    → is_running p.run.status.phase ≡ true
    → spec.steps ≡ steps_of ws
    → Recorded p.steps 0 [] ws
    → e.list_runs p.listings p.cluster ≡ some runs
    → e.base.status_update p.writes ≡ succeeded
    → let (q, o) = reconcile_composite e p in
      (q.world.run.status.phase ≡ parent_phase (verdicts_of ws) (optional_of ws))
      × (o ≡ done)
      × (q.cluster ≡ p.cluster)
reconcile_composite-settled e spec p ws runs s r m h l a =
    let phase = parent_phase (verdicts_of ws) (optional_of ws) in
    let ends =
      end_run-stored e phase Reason.unstated (parent_message ws) (listed p runs) r
        (parent_phase-terminal (verdicts_of ws) (optional_of ws)) a in
    subst
      (λ (x : Pass × Outcome).
        (x.0.world.run.status.phase ≡ phase) × (x.1 ≡ done) × (x.0.cluster ≡ p.cluster))
      (sym (
        reconcile_running e spec p s r
        ∙ ap (λ t. list_and_walk e t p) m
        ∙ list_and_walk-Recorded e ws p runs h l))
      ends
