-- ===== src/Composer/Chain.antt =====
-- The decisions of internal/composer/aggregate.go between the steps of a run and between the attempts
-- of a child, next to the verdicts that they come before.
use kubetest_alt.Base.{◌≡◌, ◌≢◌, ◌↔◌, ◌⊎◌, Bool, true, false, some, [], ◌∷◌, Str, str_eq_iff, arith}
use kubetest_alt.Api.{Phase}
use kubetest_alt.Composer.Aggregate.{
  StepVerdict, condition_always, aggregate, fold_children, verdict_of, note_failed, short_circuit,
  inverted, should_run_next, parent_phase, first_severe, any_failed, is_optional, rest_optional,
  child_needs_retry,
}
use kubetest_alt.Composer.Verdicts.{IsFinal, IsSevere}

-- A child that ended is tried again exactly when it was not aborted and a step of that child alone,
-- of the same negativity, would not pass.
child_needs_retry_iff :
    (p : Phase) (negative : Bool)
    → IsFinal p
    → (child_needs_retry p negative ≡ true) ↔ (
        (p ≢ Phase.aborted)
        × ((aggregate (record { phase = p } ∷ []) (record { negative = negative })).phase
            ≢ Phase.passed))
unfolding child_needs_retry aggregate fold_children verdict_of note_failed short_circuit inverted
child_needs_retry_iff p true h = ground arith
child_needs_retry_iff p false h = ground arith

-- After a step that ended, the next step runs exactly when its condition is "always", or when a run
-- of that step alone would pass and the step, optional or not, came to neither aborted nor error.
should_run_next_iff :
    (v : StepVerdict) (optional : Bool) (condition : Str)
    → IsFinal v.phase
    → (should_run_next v optional condition ≡ true) ↔ (
        (condition ≡ condition_always)
        ⊎ ((¬ IsSevere v.phase) × (parent_phase (some v ∷ []) (optional ∷ []) ≡ Phase.passed)))
unfolding should_run_next parent_phase first_severe any_failed is_optional rest_optional
should_run_next_iff v optional condition h = ground (arith, str_eq_iff condition condition_always)
