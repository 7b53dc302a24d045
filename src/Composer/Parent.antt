-- ===== src/Composer/Parent.antt =====
-- What `ParentPhase` of internal/composer/aggregate.go means.
use kubetest_alt.Base.{
  ◌≡◌, refl, sym, ap, ◌∙◌, ◌≢◌, ◌↔◌, Bool, true, false, Option, none, some, List, [], ◌∷◌, ◌++◌,
  All, arith, if◌then◌else◌,
}
use kubetest_alt.Api.{Phase, is_failed}
use kubetest_alt.Composer.Aggregate.{
  StepVerdict, is_optional, rest_optional, first_severe, any_failed, parent_phase,
}
use kubetest_alt.Composer.Verdicts.{IsFinal, IsSevere}

-- The verdicts that count: those of the steps that ran and are not optional, in their order.
abbrev pub mandatory : List (Option StepVerdict) → List Bool → List StepVerdict
mandatory [] os = []
mandatory (none ∷ vs) os = mandatory vs (rest_optional os)
mandatory (some v ∷ vs) os =
    if is_optional os then mandatory vs (rest_optional os) else v ∷ mandatory vs (rest_optional os)

-- The phase of the parent read off the verdicts that count.
abbrev pub severe_among : List StepVerdict → Option Phase
severe_among [] = none
severe_among (v ∷ vs) = elim v.phase [
  | Phase.aborted ↦ some Phase.aborted
  | Phase.error ↦ some Phase.error
  | _ ↦ severe_among vs
]

first_severe-mandatory :
    (vs : List (Option StepVerdict)) (os : List Bool)
    → first_severe vs os ≡ severe_among (mandatory vs os)
unfolding first_severe
first_severe-mandatory [] os = refl
first_severe-mandatory (none ∷ vs) os = first_severe-mandatory vs (rest_optional os)
first_severe-mandatory (some v ∷ vs) os =
    ground (arith, first_severe-mandatory vs (rest_optional os))

abbrev failed_among : List StepVerdict → Bool
failed_among [] = false
failed_among (v ∷ vs) = if is_failed v.phase then true else failed_among vs

any_failed-mandatory :
    (vs : List (Option StepVerdict)) (os : List Bool)
    → any_failed vs os ≡ failed_among (mandatory vs os)
unfolding any_failed
any_failed-mandatory [] os = refl
any_failed-mandatory (none ∷ vs) os = any_failed-mandatory vs (rest_optional os)
any_failed-mandatory (some v ∷ vs) os = ground (arith, any_failed-mandatory vs (rest_optional os))

abbrev phase_among : List StepVerdict → Phase
phase_among vs = elim (severe_among vs) [
  | some p ↦ p
  | none ↦ if failed_among vs then Phase.failed else Phase.passed
]

parent_phase-among :
    (vs : List (Option StepVerdict)) (os : List Bool)
    → parent_phase vs os ≡ phase_among (mandatory vs os)
unfolding parent_phase
parent_phase-among vs os = ground (arith, first_severe-mandatory vs os, any_failed-mandatory vs os)

-- Skipped steps and optional steps have no part in the parent's phase.
parent_phase-mandatory :
    (vs ws : List (Option StepVerdict)) (os ps : List Bool)
    → mandatory vs os ≡ mandatory ws ps
    → parent_phase vs os ≡ parent_phase ws ps
parent_phase-mandatory vs ws os ps e =
    parent_phase-among vs os ∙ ap phase_among e ∙ sym (parent_phase-among ws ps)

among-passed :
    (vs : List StepVerdict)
    → All (λ v. IsFinal v.phase) vs
    → ((severe_among vs ≡ none) × (failed_among vs ≡ false)) ↔ All (λ v. v.phase ≡ Phase.passed) vs
among-passed [] h = ground arith
among-passed (v ∷ vs) h = ground (arith, among-passed vs h.1)

severe_among_ne_passed : (vs : List StepVerdict) → severe_among vs ≢ some Phase.passed
severe_among_ne_passed [] h = ground arith
severe_among_ne_passed (v ∷ vs) h = ground (arith, severe_among_ne_passed vs)

-- The parent passes exactly when every step that counts passed.
parent_phase-passed_iff :
    (vs : List (Option StepVerdict)) (os : List Bool)
    → All (λ v. IsFinal v.phase) (mandatory vs os)
    → (parent_phase vs os ≡ Phase.passed) ↔ All (λ v. v.phase ≡ Phase.passed) (mandatory vs os)
parent_phase-passed_iff vs os h =
    rw (parent_phase-among vs os)
      (ground (arith, among-passed (mandatory vs os) h, severe_among_ne_passed (mandatory vs os)))

severe_among_first :
    (before : List StepVerdict) (v : StepVerdict) (after : List StepVerdict)
    → All (λ b. ¬ IsSevere b.phase) before
    → IsSevere v.phase
    → severe_among (before ++ v ∷ after) ≡ some v.phase
severe_among_first [] v after h s = ground arith
severe_among_first (b ∷ before) v after h s =
    ground (arith, severe_among_first before v after h.1 s)

-- The parent takes the phase of the first step that counts, in the order of the steps, and that is
-- aborted or in error.
parent_phase_first_severe :
    (vs : List (Option StepVerdict)) (os : List Bool) (before : List StepVerdict) (v : StepVerdict)
    (after : List StepVerdict)
    → mandatory vs os ≡ before ++ v ∷ after
    → All (λ b. ¬ IsSevere b.phase) before
    → IsSevere v.phase
    → parent_phase vs os ≡ v.phase
parent_phase_first_severe vs os before v after e h s =
    ground (arith, parent_phase-among vs os, severe_among_first before v after h s)
