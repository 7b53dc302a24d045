-- ===== src/Composite/Children.antt =====
-- internal/controller/composite.go: the child runs of a step, their names and their tries.
use kubetest_alt.Base.{
  ℕ, zero, suc, Bool, true, false, ◌&&◌, Option, none, some, List, [], ◌∷◌, ◌++◌, Str, codes,
  str_eq, itoa, ltb, ◌==◌, if◌then◌else◌, keep_if,
}
use kubetest_alt.Api.{Phase, Step, StepExecuteTest, TestRun}
use kubetest_alt.Controller.Phases.{is_terminal_phase}
use kubetest_alt.Composer.Aggregate.{ChildOutcome, child_needs_retry}
use kubetest_alt.Names.{bounded}

-- A child run with its label of the step.
pub record ChildRun : Type 0 where
  pub run : TestRun
  pub step : Str

-- `expectedChild`, less the step, which is known where it stands, and the rendered config.
pub record ExpectedChild : Type 0 where
  pub key : Str
  pub name : Str
  pub test_ref : Str
  pub index : ℕ

-- `childName`. `hex_sum` is the hash of names.Bounded.
unfoldable pub child_name : (Str → Str) → Str → ℕ → Str → ℕ → Str
child_name hex_sum parent step_idx test_ref index = bounded hex_sum (
    parent
    ++ (codes "-s" ++ (itoa step_idx ++ (codes "-" ++ (test_ref ++ (codes "-" ++ itoa index))))))

-- The replicas of one reference from number `i` on, as many as the first number says.
unfoldable pub replicas : (Str → Str) → Str → ℕ → Str → ℕ → ℕ → List ExpectedChild
unfolding child_name
replicas hex_sum parent step_idx test_ref i zero = []
replicas hex_sum parent step_idx test_ref i (suc left) =
    record {
      key =
          codes "s"
          ++ (itoa step_idx ++ (codes "/" ++ (test_ref ++ (codes "[" ++ (itoa i ++ codes "]")))));
      name = child_name hex_sum parent step_idx test_ref i;
      test_ref = test_ref;
      index = i;
    }
    ∷ replicas hex_sum parent step_idx test_ref (suc i) left

unfoldable pub expected_of : (Str → Str) → Str → ℕ → List StepExecuteTest → List ExpectedChild
unfolding replicas
expected_of hex_sum parent step_idx [] = []
expected_of hex_sum parent step_idx (ref ∷ refs) =
    replicas hex_sum parent step_idx ref.name 0 (if ref.count == 0 then 1 else ref.count)
    ++ expected_of hex_sum parent step_idx refs

-- `expectedChildren`.
unfoldable pub expected_children : (Str → Str) → Str → Step → ℕ → List ExpectedChild
unfolding expected_of
expected_children hex_sum parent step step_idx = elim step.execute [
  | none ↦ []
  | some x ↦ expected_of hex_sum parent step_idx x.tests
]

-- `kidsForStep`.
unfoldable pub kids_for_step : List ChildRun → ℕ → List ChildRun
kids_for_step all step_idx = keep_if (λ r. str_eq r.step (itoa step_idx)) all

-- `findChild`.
unfoldable pub find_child : List ChildRun → Str → Option ChildRun
find_child [] name = none
find_child (k ∷ kids) name =
    let rest = find_child kids name in if str_eq k.run.name name then some k else rest

-- `stepRetries`.
unfoldable pub step_retries : Step → ℕ
step_retries step = elim step.retry [ none ↦ 0 | some n ↦ n ]

-- `attemptName`.
unfoldable pub attempt_name : (Str → Str) → ExpectedChild → ℕ → Str
attempt_name hex_sum e zero = e.name
attempt_name hex_sum e (suc n) = bounded hex_sum (e.name ++ (codes "-r" ++ itoa (suc n)))

-- `latestAttempt`: the newest try that exists, from number `n` down.
unfoldable pub latest_attempt :
    (Str → Str) → List ChildRun → ExpectedChild → ℕ → Option (ChildRun × ℕ)
unfolding attempt_name find_child
latest_attempt hex_sum kids e zero = elim (find_child kids (attempt_name hex_sum e zero)) [
  | none ↦ none
  | some c ↦ some (c, zero)
]
latest_attempt hex_sum kids e (suc n) =
    let earlier = latest_attempt hex_sum kids e n in
    elim (find_child kids (attempt_name hex_sum e (suc n))) [
      | none ↦ earlier
      | some c ↦ some (c, suc n)
    ]

pub record ChildRetry : Type 0 where
  pub child : ExpectedChild
  pub attempt : ℕ

-- What one expected child comes to: an outcome, a try that goes on or is not there yet, or another
-- try.
pub data Standing : Type 0 where
  ended : Phase → Standing
  in_flight : Standing
  again : ℕ → Standing

-- One round of the loop of `gatherOutcomes`.
unfoldable pub standing : ℕ → Bool → Option (ChildRun × ℕ) → Standing
standing retries negative none = in_flight
standing retries negative (some (c, n)) =
    if is_terminal_phase c.run.status.phase
    then if ltb n retries && child_needs_retry c.run.status.phase negative
      then again (suc n)
      else ended c.run.status.phase
    else in_flight

-- The results of `gatherOutcomes`.
pub record Gathered : Type 0 where
  pub outcomes : List ChildOutcome
  pub done : Bool
  pub retries : List ChildRetry

-- The loop: the outcomes are dropped at its end if a child is not done.
unfoldable pub gather : (Str → Str) → List ChildRun → List ExpectedChild → ℕ → Bool → Gathered
unfolding standing
gather hex_sum kids [] retries negative = record { outcomes = []; done = true; retries = [] }
gather hex_sum kids (e ∷ es) retries negative =
    let rest = gather hex_sum kids es retries negative in
    elim (standing retries negative (latest_attempt hex_sum kids e retries)) [
      | in_flight ↦ record rest { done = false }
      | again n ↦ record rest {
        done = false;
        retries = record { child = e; attempt = n } ∷ rest.retries;
      }
      | ended p ↦ record rest { outcomes = record { phase = p } ∷ rest.outcomes }
    ]

-- `gatherOutcomes`.
unfoldable pub gather_outcomes :
    (Str → Str) → List ChildRun → List ExpectedChild → ℕ → Bool → Gathered
unfolding gather
gather_outcomes hex_sum kids expected retries negative =
    let g = gather hex_sum kids expected retries negative in
    if g.done then g else record g { outcomes = [] }
