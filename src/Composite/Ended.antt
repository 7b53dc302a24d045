-- ===== src/Composite/Ended.antt =====
-- internal/controller/composite.go: when a pass ends a composite run, and in which phase.
use mathlib.Core.Path.{subst}
use mathlib.Core.List.{append_assoc, append-nil}
use kubetest_alt.Base.{
  ℕ, suc, ◌≡◌, refl, sym, ap, ◌∙◌, ◌⊎◌, inl, inr, Bool, true, false, Option, none, some, List, [],
  ◌∷◌, ◌++◌, map, Str, Bool-cases, arith,
}
use kubetest_alt.Api.{Phase, Step, TestSpec, TestRun, snapshot}
use kubetest_alt.Controller.Phases.{Reason}
use kubetest_alt.Controller.World.{
  is_running, transition_terminal, ended, update_status, count_terminal,
}
use kubetest_alt.Controller.State.{Answer, succeeded, conflicted, failed, Env, World, Outcome}
use kubetest_alt.Composer.Aggregate.{StepVerdict, parent_phase}
use kubetest_alt.Composer.Verdicts.{IsFinal}
use kubetest_alt.Composite.Steps.{Walked, should_skip, parent_message}
use kubetest_alt.Composite.World.{CompositeEnv, Pass, list_child_runs, store_answer, store_status}
use kubetest_alt.Composite.Round.{StepEnd, goes_on, stops, step_pass}
use kubetest_alt.Composite.Walk.{
  WalkEnd, finished, halted, after_step, walk, after_walk, end_run, walk_listed, list_and_walk,
  walk_started, start_run, reconcile_composite, verdicts_of, optional_of,
}
use kubetest_alt.Composite.Kept.{Kept, Kept-refl, Kept-trans, list_child_runs-Kept}
use kubetest_alt.Composite.Course.{Rounded, Came, step_pass-Rounded}

-- Each step, from number `i` on, came to what it had to, in the pass that the rounds before it leave:
-- one that was to be skipped was, and any other has a final verdict, which its entry recorded or which
-- rests on its children or its timeout.
abbrev pub Judged : CompositeEnv → ℕ → List Walked → Pass → List Walked → Type 0
Judged e i prior p [] = Unit
Judged e i prior p ((s, none) ∷ ws) =
    (should_skip prior s ≡ true)
    × Judged e (suc i) (prior ++ (s, none) ∷ []) (step_pass e i prior s p).0 ws
Judged e i prior p ((s, some v) ∷ ws) =
    (should_skip prior s ≡ false)
    × IsFinal v.phase
    × Came e i s p (step_pass e i prior s p).0 v
    × Judged e (suc i) (prior ++ (s, some v) ∷ []) (step_pass e i prior s p).0 ws

abbrev pub steps_of : List Walked → List Step
steps_of ws = map (λ w. w.0) ws

abbrev Walks : CompositeEnv → ℕ → List Walked → List Step → Pass → Pass × WalkEnd → Type 0
Walks e i prior steps p (q, halted o) = Kept p q
Walks e i prior steps p (q, finished all) =
    Kept p q
    × (ws : List Walked) × (all ≡ prior ++ ws)
    × (steps_of ws ≡ steps)
    × Judged e i prior p ws

add_walked :
    (e : CompositeEnv) (i : ℕ) (prior : List Walked) (step : Step) (v : Option StepVerdict)
    (steps : List Step) (p q : Pass) (r : Pass × WalkEnd)
    → Kept p q
    → ((ws : List Walked)
        → Judged e (suc i) (prior ++ (step, v) ∷ []) q ws
        → Judged e i prior p ((step, v) ∷ ws))
    → Walks e (suc i) (prior ++ (step, v) ∷ []) steps q r
    → Walks e i prior (step ∷ steps) p r
add_walked e i prior step v steps p q (s, halted o) k j h = Kept-trans p q s k h
add_walked e i prior step v steps p q (s, finished all) k j (l, ws, x, m, h) = (
  Kept-trans p q s k l,
  (step, v) ∷ ws,
  x ∙ append_assoc prior ((step, v) ∷ []) ws,
  ap (λ t. step ∷ t) m,
  j ws h,
)

after_step-Walks :
    (e : CompositeEnv) (i : ℕ) (next : List Walked → Pass → Pass × WalkEnd) (prior : List Walked)
    (step : Step) (steps : List Step) (p : Pass) (r : Pass × StepEnd)
    → r.0 ≡ (step_pass e i prior step p).0
    → ((ws : List Walked) (q : Pass) → Walks e (suc i) ws steps q (next ws q))
    → Rounded e i prior step p r
    → Walks e i prior (step ∷ steps) p (after_step next prior step r)
after_step-Walks e i next prior step steps p (q, goes_on none) same h (k, s) =
    add_walked e i prior step none steps p q (next (prior ++ (step, none) ∷ []) q) k
      (λ ws j. (s, subst (λ t. Judged e (suc i) (prior ++ (step, none) ∷ []) t ws) same j)) (h _ q)
after_step-Walks e i next prior step steps p (q, goes_on (some v)) same h (k, s, f, c) =
    add_walked e i prior step (some v) steps p q (next (prior ++ (step, some v) ∷ []) q) k
      (λ ws j. (
        s,
        f,
        subst (λ t. Came e i step p t v) same c,
        subst (λ t. Judged e (suc i) (prior ++ (step, some v) ∷ []) t ws) same j,
      ))
      (h _ q)
after_step-Walks e i next prior step steps p (q, stops o) same h k = k

walk-Walks :
    (e : CompositeEnv) (i : ℕ) (steps : List Step) (prior : List Walked) (p : Pass)
    → Walks e i prior steps p (walk e i steps prior p)
unfolding walk
walk-Walks e i [] prior p = (Kept-refl p, [], sym (append-nil prior), refl, tt)
walk-Walks e i (step ∷ steps) prior p =
    after_step-Walks e i (walk e (suc i) steps) prior step steps p (step_pass e i prior step p) refl
      (walk-Walks e (suc i) steps) (step_pass-Rounded e i prior step p)

transition-run :
    (e : Env) (i : ℕ) (run : TestRun) (phase : Phase) (cause : Reason) (msg : Str) (w : World)
    → ((transition_terminal e i run phase cause msg w).0.run ≡ w.run)
      ⊎ ((transition_terminal e i run phase cause msg w).0.run.status.phase ≡ phase)
unfolding transition_terminal update_status count_terminal ended
transition-run e i run phase cause msg w = ground arith

end_run-world :
    (e : CompositeEnv) (phase : Phase) (cause : Reason) (msg : Str) (p : Pass)
    → (end_run e phase cause msg p).0.world
      ≡ (transition_terminal e.base p.writes p.run phase cause msg p.world).0
unfolding end_run
end_run-world e phase cause msg p = ground arith

-- The stored run is the one of the pass, or every step came to what it had to, from the listed pass on,
-- and the run is stored in the phase that its steps give.
abbrev pub EndsRight : CompositeEnv → List Step → TestRun → Pass → Pass → Type 0
EndsRight e steps run listed q =
    (q.world.run ≡ run)
    ⊎ ((ws : List Walked) × (steps_of ws ≡ steps)
        × Judged e 0 [] listed ws
        × (q.world.run.status.phase ≡ parent_phase (verdicts_of ws) (optional_of ws)))

Kept-run : (p q : Pass) → p.world.run ≡ p.run → Kept p q → q.world.run ≡ p.run
Kept-run p q h (a, inl b) = ap (λ (w : World). w.run) b ∙ h
Kept-run p q h (a, inr b) = ap (λ (w : World). w.run) b

after_walk-EndsRight :
    (e : CompositeEnv) (steps : List Step) (p : Pass) (r : Pass × WalkEnd)
    → p.world.run ≡ p.run
    → Walks e 0 [] steps p r
    → EndsRight e steps p.run p (after_walk e r).0
unfolding after_walk
after_walk-EndsRight e steps p (q, halted o) h k = inl (Kept-run p q h k)
after_walk-EndsRight e steps p (q, finished all) h (k, ws, same, m, j) =
    let phase = parent_phase (verdicts_of all) (optional_of all) in
    let w = end_run-world e phase Reason.unstated (parent_message all) q in
    let stored = Kept-run p q h k in
    elim (transition-run e.base q.writes q.run phase Reason.unstated (parent_message all) q.world) [
      | inl u ↦ inl (ap (λ (w : World). w.run) w ∙ u ∙ stored)
      | inr u ↦ inr (
        ws,
        m,
        j,
        ap (λ (w : World). w.run.status.phase) w
            ∙ u
            ∙ ap (λ t. parent_phase (verdicts_of t) (optional_of t)) same,
      )
    ]

walk_listed-EndsRight :
    (e : CompositeEnv) (steps : List Step) (p : Pass) (r : Pass × Bool)
    → p.world.run ≡ p.run
    → Kept p r.0
    → EndsRight e steps p.run r.0 (walk_listed e steps r).0
unfolding walk_listed
walk_listed-EndsRight e steps p (q, false) h k = inl (Kept-run p q h k)
walk_listed-EndsRight e steps p (q, true) h k =
    subst (λ run. EndsRight e steps run q (after_walk e (walk e 0 steps [] q)).0) k.0
      (after_walk-EndsRight e steps q (walk e 0 steps [] q) (Kept-run p q h k ∙ sym k.0)
        (walk-Walks e 0 steps [] q))

list_and_walk-EndsRight :
    (e : CompositeEnv) (steps : List Step) (p : Pass)
    → p.world.run ≡ p.run
    → EndsRight e steps p.run (list_child_runs e p).0 (list_and_walk e steps p).0
unfolding list_and_walk
list_and_walk-EndsRight e steps p h =
    walk_listed-EndsRight e steps p (list_child_runs e p) h (list_child_runs-Kept e p)

walk_started-EndsRight :
    (e : CompositeEnv) (steps : List Step) (old : TestRun) (a : Answer) (p : Pass)
    → p.world.run ≡ old
    → let q = store_answer a p in
      ((walk_started e steps a q).0.world.run ≡ old)
      ⊎ EndsRight e steps p.run (list_child_runs e q).0 (walk_started e steps a q).0
unfolding walk_started store_answer
walk_started-EndsRight e steps old succeeded p h =
    inr (list_and_walk-EndsRight e steps (store_answer succeeded p) refl)
walk_started-EndsRight e steps old conflicted p h = inl h
walk_started-EndsRight e steps old failed p h = inl h

pub reconcile_running :
    (e : CompositeEnv) (spec : TestSpec) (p : Pass)
    → p.run.status.resolved_spec ≡ snapshot spec
    → is_running p.run.status.phase ≡ true
    → reconcile_composite e p ≡ list_and_walk e spec.steps p
unfolding reconcile_composite
reconcile_running e spec p s r = ground (arith, s, r)

reconcile_started :
    (e : CompositeEnv) (spec : TestSpec) (p : Pass)
    → p.run.status.resolved_spec ≡ snapshot spec
    → is_running p.run.status.phase ≡ false
    → reconcile_composite e p
      ≡ walk_started e spec.steps
          (e.base.status_update p.writes)
          (store_answer (e.base.status_update p.writes) (record p { run = start_run e p.run }))
unfolding reconcile_composite store_status
reconcile_started e spec p s r = ground (arith, s, r)

-- A pass over a composite run leaves the stored run as it was, or stores it as Running, or ends it;
-- and it ends it only when every step, in order, was skipped or came to a final verdict, a step being
-- skipped exactly when the steps before it say so, and in the phase that these verdicts give. A verdict
-- is the one that the entry of the step records, or that of the latest tries of its children, all of
-- which ended and need no other, passed exactly where there are some and each ended as the step wants;
-- or it is failed, the step having run for longer than its timeout.
pub reconcile_composite-ended :
    (e : CompositeEnv) (spec : TestSpec) (p : Pass)
    → p.world.run ≡ p.run
    → p.run.status.resolved_spec ≡ snapshot spec
    → let (q, o) = reconcile_composite e p in
      let started = store_status e (record p { run = start_run e p.run }) in
      EndsRight e spec.steps p.run (list_child_runs e p).0 q
      ⊎ EndsRight e spec.steps (start_run e p.run) (list_child_runs e started).0 q
unfolding store_status
reconcile_composite-ended e spec p h s =
    let q : Pass = record p { run = start_run e p.run } in
    let started = store_status e q in
    elim (Bool-cases (is_running p.run.status.phase)) [
      | inl r ↦ inl (
          subst (λ (r : Pass × Outcome). EndsRight e spec.steps p.run (list_child_runs e p).0 r.0)
            (sym (reconcile_running e spec p s r)) (list_and_walk-EndsRight e spec.steps p h))
      | inr r ↦
          subst
            (λ (r : Pass × Outcome).
              EndsRight e spec.steps p.run (list_child_runs e p).0 r.0
              ⊎ EndsRight e spec.steps (start_run e p.run) (list_child_runs e started).0 r.0)
            (sym (reconcile_started e spec p s r))
            (elim (walk_started-EndsRight e spec.steps p.run (e.base.status_update p.writes) q h) [
              | inl u ↦ inl (inl u)
              | inr u ↦ inr u
            ])
    ]
