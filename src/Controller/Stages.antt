-- ===== src/Controller/Stages.antt =====
-- internal/controller/stages.go: the course of a leaf run as the UI draws it.
use mathlib.Core.Bool.{decide}
use native.Mathlib.Decide.{ℕ_discrete}
use kubetest_alt.Base.{
  Bool, true, false, not, ◌&&◌, Option, none, some, List, [], ◌∷◌, Str, codes, if◌then◌else◌,
}
use kubetest_alt.Api.{
  Phase, StepPhase, Stage, queue, fetch, run, Time, step_phase_from_phase, TestRun, is_passed,
}
use kubetest_alt.Controller.Phases.{Pod}
use kubetest_alt.Controller.Infra.{RunResult}
use kubetest_alt.Controller.Derivation.{fetch_name_of, tool_of, is_empty, derive_stages}

unfoldable pub is_open : StepPhase → Bool
is_open StepPhase.queued = true
is_open StepPhase.running = true
is_open _ = false

abbrev pub is_step_passed : StepPhase → Bool
is_step_passed StepPhase.passed = true
is_step_passed _ = false

abbrev pub or_now : Option Time → Time → Option Time
or_now (some t) now = some t
or_now none now = some now

-- One round of `finishStages` while no stage has stopped the course: the stage, and whether it does.
unfoldable pub finish_stage : Phase → Str → Time → Stage → Stage × Bool
unfolding is_open
finish_stage phase message now s =
    if is_open s.phase
    then if is_passed phase
      then (
        record s {
          phase = StepPhase.passed;
          started_at = or_now s.started_at now;
          finished_at = or_now s.finished_at now;
        },
        false,
      )
      else (
        record s {
          phase = step_phase_from_phase phase;
          started_at = or_now s.started_at now;
          finished_at = or_now s.finished_at now;
          message = message;
        },
        true,
      )
    else if elim s.kind [ fetch ↦ true | _ ↦ false ] && not (is_step_passed s.phase)
    then (s, true)
    else if elim s.kind [ run ↦ true | _ ↦ false ]
        && (not (is_step_passed s.phase) && is_empty s.message)
    then (record s { message = message }, false)
    else (s, false)

-- The stages after the one that stopped the course.
unfoldable pub skip_open : List Stage → List Stage
unfolding is_open
skip_open [] = []
skip_open (s ∷ rest) =
    (if is_open s.phase then record s { phase = StepPhase.skipped } else s) ∷ skip_open rest

unfoldable pub finish_stages : List Stage → Phase → Str → Time → List Stage
finish_stages [] phase message now = []
finish_stages (s ∷ rest) phase message now =
    let later = finish_stages rest phase message now in
    let (s', stopped) = finish_stage phase message now s in
    s' ∷ (if stopped then skip_open rest else later)

pub Stages-discrete : Discrete (List Stage)
Stages-discrete = hlevel ℕ_discrete

-- `sameStages`.
unfoldable pub same_stages : List Stage → List Stage → Bool
same_stages a b = decide (Stages-discrete a b)

-- `stagesNow`, for a run and its pod, with the result once there is one.
unfoldable pub stages_now : TestRun → Option Pod → Option RunResult → List Stage
unfolding fetch_name_of tool_of derive_stages
stages_now r pod result = derive_stages (record {
  queued_at = elim r.status.queued_at [ some t ↦ some t | none ↦ some r.created_at ];
  pod = pod;
  fetch_name = fetch_name_of r.status.resolved_spec;
  tool = tool_of pod;
  tool_finished_at = elim result [ some res ↦ res.tool_finished_at | none ↦ none ];
  tool_phase = elim result [ some res ↦ res.phase | none ↦ Phase.unset ];
})

unfoldable pub waiting_stages : Option Time → Str → List Stage
waiting_stages queued_at why =
    record {
      kind = queue;
      name = codes "Queued";
      phase = StepPhase.running;
      started_at = queued_at;
      finished_at = none;
      message = why;
    }
    ∷ []
