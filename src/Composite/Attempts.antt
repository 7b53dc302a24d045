-- ===== src/Composite/Attempts.antt =====
-- internal/controller/composite.go: how a pass creates the child runs of a step and their next tries,
-- and what it writes about each of them.
use kubetest_alt.Base.{
  is_there, ℕ, suc, ◌+◌, ◌-◌, Bool, true, false, Option, ◌&&◌, none, some, List, [], ◌∷◌, ◌++◌,
  length, Str, codes, itoa, ltb, leb, ◌==◌, if◌then◌else◌,
}
use kubetest_alt.Api.{Step, StepExecute, Time, TestRun, step_phase_from_phase}
use kubetest_alt.Controller.Phases.{is_terminal_phase}
use kubetest_alt.Composite.Children.{
  ChildRun, ExpectedChild, ChildRetry, latest_attempt, step_retries,
}
use kubetest_alt.Composite.Steps.{StepResult, StepMap, put_step}
use kubetest_alt.Composite.World.{CompositeEnv, Pass, and_then, create_child}

-- The delay of a step, counted from the start of the parent, is not over.
unfoldable pub is_delayed : Time → TestRun → Step → Bool
is_delayed now run step = elim step.delay [
  | none ↦ false
  | some d ↦ elim run.status.started_at [ none ↦ false | some t ↦ ltb 0 d && ltb (now - t) d ]
]

-- `inFlight` before the loop of `ensureStepChildren`.
unfoldable pub count_in_flight : List ChildRun → ℕ
count_in_flight [] = 0
count_in_flight (k ∷ ks) =
    let n = count_in_flight ks in if is_terminal_phase k.run.status.phase then n else suc n

-- The loop of `ensureStepChildren`.
unfoldable pub create_missing :
    CompositeEnv → ℕ → List ChildRun → ℕ → ℕ → ℕ → List ExpectedChild → Pass → Pass × Bool
create_missing e step_idx kids retries room in_flight [] p = (p, true)
create_missing e step_idx kids retries room in_flight (x ∷ xs) p =
    let skipped = create_missing e step_idx kids retries room in_flight xs p in
    let created =
      and_then (create_child e step_idx x 0 p)
        (create_missing e step_idx kids retries room (suc in_flight) xs) in
    if leb room in_flight
    then (p, true)
    else if is_there (latest_attempt e.hex_sum kids x retries)
    then skipped
    else created

-- `ensureStepChildren` past the delay. A step without `execute`, which the admission webhook refuses,
-- has the code read through a nil pointer: an error here.
unfoldable pub create_first_tries :
    CompositeEnv
    → ℕ
    → ℕ
    → List ChildRun
    → List ExpectedChild
    → Pass
    → Option StepExecute
    → Pass × Bool
unfolding create_missing
create_first_tries e step_idx retries kids expected p none = (p, false)
create_first_tries e step_idx retries kids expected p (some x) =
    create_missing e step_idx kids retries
      (if x.parallelism == 0 then length expected else x.parallelism) (count_in_flight kids)
      expected p

-- `ensureStepChildren`.
unfoldable pub ensure_step_children :
    CompositeEnv → ℕ → Step → List ChildRun → List ExpectedChild → Pass → Pass × Bool
unfolding create_first_tries
ensure_step_children e step_idx step kids expected p =
    if is_delayed e.base.now p.run step
    then (p, true)
    else create_first_tries e step_idx (step_retries step) kids expected p step.execute

-- The loop of `reconcileComposite` over `retries`.
unfoldable pub create_retries : CompositeEnv → ℕ → List ChildRetry → Pass → Pass × Bool
create_retries e step_idx [] p = (p, true)
create_retries e step_idx (r ∷ rs) p =
    and_then (create_child e step_idx r.child r.attempt p) (create_retries e step_idx rs)

-- One round of `updatePerChildStepResults`.
unfoldable pub child_result : ChildRun → ℕ → ℕ → StepResult
child_result c n retries = record {
  phase = step_phase_from_phase c.run.status.phase;
  queued_at = c.run.status.queued_at;
  started_at = c.run.status.started_at;
  finished_at = c.run.status.finished_at;
  message =
      if ltb 0 n
      then codes "try "
        ++ (itoa (n + 1)
            ++ (codes " of " ++ (itoa (retries + 1) ++ (codes " (" ++ (c.run.name ++ codes ")")))))
      else [];
}

-- `updatePerChildStepResults`.
unfoldable pub update_per_child :
    (Str → Str) → List ChildRun → ℕ → List ExpectedChild → StepMap → StepMap
unfolding child_result
update_per_child hex_sum kids retries [] steps = steps
update_per_child hex_sum kids retries (x ∷ xs) steps =
    update_per_child hex_sum kids retries xs (elim (latest_attempt hex_sum kids x retries) [
      | none ↦ steps
      | some (c, n) ↦ put_step steps x.key (child_result c n retries)
    ])
