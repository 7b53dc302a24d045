-- ===== src/Composite/Steps.antt =====
-- internal/controller/composite.go: the results of the steps, and which steps are skipped.
use kubetest_alt.Base.{
  ℕ, suc, Bool, true, false, ◌&&◌, Option, none, some, List, [], ◌∷◌, ◌++◌, Str, codes, str_eq,
  itoa, if◌then◌else◌,
}
use kubetest_alt.Api.{Phase, StepPhase, Time, Step, step_phase_from_phase, is_passed, is_failed}
use kubetest_alt.Composer.Aggregate.{StepVerdict, condition_always}

-- `StepResult`, with the fields that composite runs write.
pub record StepResult : Type 0 where
  pub phase : StepPhase
  pub queued_at : Option Time
  pub started_at : Option Time
  pub finished_at : Option Time
  pub message : Str

-- Go's zero value, which a missing key reads as.
abbrev pub no_result : StepResult
no_result = record {
  phase = StepPhase.unset;
  queued_at = none;
  started_at = none;
  finished_at = none;
  message = [];
}

-- `status.steps`.
abbrev pub StepMap : Type 0
StepMap = List (Str × StepResult)

unfoldable pub step_at : StepMap → Str → StepResult
step_at [] key = no_result
step_at ((k, r) ∷ m) key = let rest = step_at m key in if str_eq k key then r else rest

unfoldable pub put_step : StepMap → Str → StepResult → StepMap
put_step [] key r = (key, r) ∷ []
put_step ((k, s) ∷ m) key r =
    let rest = put_step m key r in if str_eq k key then (k, r) ∷ m else (k, s) ∷ rest

unfoldable pub step_key : ℕ → Str
step_key i = codes "s" ++ itoa i

-- `recordedStepVerdict`.
unfoldable pub recorded_step_verdict : StepResult → Option StepVerdict
recorded_step_verdict sr = elim sr.phase [
  | StepPhase.passed ↦ some (record { phase = Phase.passed; message = sr.message })
  | StepPhase.failed ↦ some (record { phase = Phase.failed; message = sr.message })
  | StepPhase.aborted ↦ some (record { phase = Phase.aborted; message = sr.message })
  | StepPhase.error ↦ some (record { phase = Phase.error; message = sr.message })
  | _ ↦ none
]

-- `recordStepAggregate`.
unfoldable pub record_step_aggregate : Time → StepMap → ℕ → StepVerdict → StepMap
record_step_aggregate now steps step_idx v =
    let sr = step_at steps (step_key step_idx) in
    put_step steps (step_key step_idx) (record sr {
      phase = step_phase_from_phase v.phase;
      started_at = elim sr.started_at [ some t ↦ some t | none ↦ some now ];
      finished_at = some now;
      message = v.message;
    })

-- A step that has been walked, with its verdict; none is a step that was skipped.
abbrev pub Walked : Type 0
Walked = Step × Option StepVerdict

abbrev pub stops_course : Phase → Bool
stops_course Phase.failed = true
stops_course Phase.aborted = true
stops_course Phase.error = true
stops_course _ = false

-- The loop of `shouldSkip` over the steps before.
unfoldable pub any_stops : List Walked → Bool
any_stops [] = false
any_stops ((s, none) ∷ prior) = any_stops prior
any_stops ((s, some v) ∷ prior) =
    let rest = any_stops prior in
    if s.optional && is_failed v.phase then rest else if stops_course v.phase then true else rest

-- `shouldSkip`.
unfoldable pub should_skip : List Walked → Step → Bool
unfolding any_stops
should_skip prior step = if str_eq step.condition condition_always then false else any_stops prior

-- The counts of `parentMessage`.
pub record Counts : Type 0 where
  pub passed : ℕ
  pub failed : ℕ
  pub skipped : ℕ

unfoldable pub count_steps : List Walked → Counts
count_steps [] = record { passed = 0; failed = 0; skipped = 0 }
count_steps ((s, none) ∷ ws) = let n = count_steps ws in record n { skipped = suc n.skipped }
count_steps ((s, some v) ∷ ws) =
    let n = count_steps ws in
    if is_passed v.phase
    then record n { passed = suc n.passed }
    else if s.optional && is_failed v.phase
    then record n { passed = suc n.passed }
    else record n { failed = suc n.failed }

-- `parentMessage`.
unfoldable pub parent_message : List Walked → Str
unfolding count_steps
parent_message ws =
    let n = count_steps ws in
    codes "composite: "
    ++ (itoa n.passed
        ++ (codes " passed, "
            ++ (itoa n.failed ++ (codes " failed, " ++ (itoa n.skipped ++ codes " skipped")))))
