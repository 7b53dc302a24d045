-- ===== src/Composer/Aggregate.antt =====
-- internal/composer/aggregate.go: from the outcomes of child runs to the verdict of a step, and from
-- the verdicts of the steps to the phase of the parent run.
use kubetest_alt.Base.{
  ℕ, suc, ◌+◌, Bool, true, false, ◌&&◌, Option, none, some, List, [], ◌∷◌, ◌++◌, length, Str, codes,
  str_eq, itoa, if◌then◌else◌,
}
use kubetest_alt.Api.{Phase, is_passed, is_failed}

pub record ChildOutcome : Type 0 where
  pub phase : Phase

pub record StepVerdict : Type 0 where
  pub phase : Phase
  pub message : Str

pub record AggregateOpts : Type 0 where
  pub negative : Bool

abbrev pub condition_always : Str
condition_always = codes "always"

-- The `switch` under `if opts.Negative`, which `Aggregate` and `countPhase` both hold.
unfoldable pub inverted : AggregateOpts → Phase → Phase
inverted opts p =
    if opts.negative
    then elim p [ Phase.passed ↦ Phase.failed | Phase.failed ↦ Phase.passed | other ↦ other ]
    else p

-- What one round of the loop of `Aggregate` does with child `i`: the verdict that ends the loop.
unfoldable pub short_circuit : ℕ → Phase → Option StepVerdict
short_circuit i Phase.aborted = some (record {
  phase = Phase.aborted;
  message = codes "aggregate: child[" ++ (itoa i ++ codes "] aborted");
})
short_circuit i Phase.error = some (record {
  phase = Phase.error;
  message = codes "aggregate: child[" ++ (itoa i ++ codes "] error");
})
short_circuit i _ = none

-- `haveFailed` and `failedIdx` together: the index of the first failed child.
unfoldable pub note_failed : AggregateOpts → ℕ → Phase → Option ℕ → Option ℕ
unfolding inverted
note_failed opts i p (some j) = some j
note_failed opts i p none = if is_failed (inverted opts p) then some i else none

-- The loop of `Aggregate` from child `i` on.
unfoldable pub fold_children :
    AggregateOpts → ℕ → Option ℕ → List ChildOutcome → Option StepVerdict × Option ℕ
unfolding short_circuit note_failed
fold_children opts i first [] = (none, first)
fold_children opts i first (c ∷ cs) =
    let rest = fold_children opts (i + 1) (note_failed opts i c.phase first) cs in
    elim (short_circuit i c.phase) [ some v ↦ (some v, first) | none ↦ rest ]

-- `countPhase(children, opts, PhaseFailed)`, the only phase it is asked for.
unfoldable pub count_failed : AggregateOpts → List ChildOutcome → ℕ
unfolding inverted
count_failed opts [] = 0
count_failed opts (c ∷ cs) =
    let n = count_failed opts cs in if is_failed (inverted opts c.phase) then suc n else n

-- After the loop.
unfoldable pub verdict_of :
    AggregateOpts → List ChildOutcome → Option StepVerdict × Option ℕ → StepVerdict
unfolding count_failed
verdict_of opts cs (some v, first) = v
verdict_of opts cs (none, some j) = record {
  phase = Phase.failed;
  message =
      codes "aggregate: "
      ++ (itoa (count_failed opts cs)
          ++ (codes "/"
              ++ (itoa (length cs)
                  ++ (codes " children failed (first: index " ++ (itoa j ++ codes ")")))));
}
verdict_of opts cs (none, none) = record {
  phase = Phase.passed;
  message =
      codes "aggregate: "
      ++ (itoa (length cs) ++ (codes "/" ++ (itoa (length cs) ++ codes " children passed")));
}

unfoldable pub aggregate : List ChildOutcome → AggregateOpts → StepVerdict
unfolding fold_children verdict_of
aggregate [] opts = record {
  phase = Phase.failed;
  message = codes "aggregate: no child outcomes recorded";
}
aggregate (c ∷ cs) opts = verdict_of opts (c ∷ cs) (fold_children opts 0 none (c ∷ cs))

unfoldable pub should_run_next : StepVerdict → Bool → Str → Bool
should_run_next prior prior_optional next_condition =
    if str_eq next_condition condition_always
    then true
    else if is_passed prior.phase
    then true
    else if prior_optional && is_failed prior.phase
    then true
    else false

-- `optional != nil && i < len(optional) && optional[i]`: the flags run along with the steps.
unfoldable pub is_optional : List Bool → Bool
is_optional [] = false
is_optional (o ∷ os) = o

unfoldable pub rest_optional : List Bool → List Bool
rest_optional [] = []
rest_optional (o ∷ os) = os

-- The first pass of `ParentPhase`. A nil verdict, of a skipped step, is `none`.
unfoldable pub first_severe : List (Option StepVerdict) → List Bool → Option Phase
unfolding is_optional rest_optional
first_severe [] os = none
first_severe (none ∷ vs) os = first_severe vs (rest_optional os)
first_severe (some v ∷ vs) os =
    let rest = first_severe vs (rest_optional os) in
    if is_optional os then rest else elim v.phase [
      | Phase.aborted ↦ some Phase.aborted
      | Phase.error ↦ some Phase.error
      | _ ↦ rest
    ]

-- The second pass.
unfoldable pub any_failed : List (Option StepVerdict) → List Bool → Bool
unfolding is_optional rest_optional
any_failed [] os = false
any_failed (none ∷ vs) os = any_failed vs (rest_optional os)
any_failed (some v ∷ vs) os =
    let rest = any_failed vs (rest_optional os) in
    if is_optional os then rest else if is_failed v.phase then true else rest

unfoldable pub parent_phase : List (Option StepVerdict) → List Bool → Phase
unfolding first_severe any_failed
parent_phase vs os = elim (first_severe vs os) [
  | some p ↦ p
  | none ↦ if any_failed vs os then Phase.failed else Phase.passed
]

unfoldable pub child_needs_retry : Phase → Bool → Bool
child_needs_retry Phase.error negative = true
child_needs_retry Phase.failed negative = if negative then false else true
child_needs_retry Phase.passed negative = negative
child_needs_retry _ negative = false
