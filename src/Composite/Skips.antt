-- ===== src/Composite/Skips.antt =====
-- internal/controller/composite.go and internal/composer/aggregate.go: when a step is skipped.
use kubetest_alt.Base.{
  ◌≡◌, ◌↔◌, ◌⊎◌, true, false, none, some, List, [], ◌∷◌, str_eq_iff, All, arith,
}
use kubetest_alt.Api.{Phase, Step}
use kubetest_alt.Composer.Aggregate.{
  condition_always, first_severe, any_failed, parent_phase, is_optional, rest_optional,
}
use kubetest_alt.Composer.Verdicts.{IsFinal, IsSevere}
use kubetest_alt.Composite.Steps.{Walked, any_stops, should_skip}
use kubetest_alt.Composite.Walk.{verdicts_of, optional_of}

abbrev pub IsFinalStep : Walked → Type 0
IsFinalStep (s, none) = Unit
IsFinalStep (s, some v) = IsFinal v.phase

-- A step that may be missed, and was aborted or in error all the same.
abbrev pub IsOptionalSevere : Walked → Type 0
IsOptionalSevere (s, none) = ⊥
IsOptionalSevere (s, some v) = (s.optional ≡ true) × IsSevere v.phase

any_stops_iff :
    (ws : List Walked)
    → All IsFinalStep ws
    → (any_stops ws ≡ false) ↔ (
        (first_severe (verdicts_of ws) (optional_of ws) ≡ none)
        × (any_failed (verdicts_of ws) (optional_of ws) ≡ false)
        × All (λ w. ¬ IsOptionalSevere w) ws)
unfolding any_stops first_severe any_failed is_optional rest_optional
any_stops_iff [] h = ground arith
any_stops_iff ((s, none) ∷ ws) h = ground (arith, any_stops_iff ws h.1)
any_stops_iff ((s, some v) ∷ ws) h = ground (arith, any_stops_iff ws h.1)

severe_ne_passed :
    (ws : List Walked) → (first_severe (verdicts_of ws) (optional_of ws) ≡ some Phase.passed) → ⊥
unfolding first_severe is_optional rest_optional
severe_ne_passed [] h = ground arith
severe_ne_passed ((s, none) ∷ ws) h = severe_ne_passed ws h
severe_ne_passed ((s, some v) ∷ ws) h = ground (arith, severe_ne_passed ws)

parent_phase-walked :
    (ws : List Walked)
    → (parent_phase (verdicts_of ws) (optional_of ws) ≡ Phase.passed) ↔ (
        (first_severe (verdicts_of ws) (optional_of ws) ≡ none)
        × (any_failed (verdicts_of ws) (optional_of ws) ≡ false))
unfolding parent_phase
parent_phase-walked ws = ground (arith, severe_ne_passed ws)

-- Where the steps before came to an end, a step runs exactly when its condition is `always`, or the
-- run would pass with the steps before alone and none of them is an optional step that was aborted or
-- in error.
pub should_skip-passed_iff :
    (ws : List Walked) (step : Step)
    → All IsFinalStep ws
    → (should_skip ws step ≡ false) ↔ (
        (step.condition ≡ condition_always)
        ⊎ ((parent_phase (verdicts_of ws) (optional_of ws) ≡ Phase.passed)
            × All (λ w. ¬ IsOptionalSevere w) ws))
unfolding should_skip
should_skip-passed_iff ws step h =
    ground (
      arith,
      any_stops_iff ws h,
      parent_phase-walked ws,
      str_eq_iff step.condition condition_always,
    )
