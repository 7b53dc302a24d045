-- ===== src/Controller/Course.antt =====
-- What the stages of internal/controller/stages.go say of a run that is over.
use kubetest_alt.Base.{
  ◌≡◌, ◌≢◌, refl, ap, Bool, true, false, List, [], ◌∷◌, ◌++◌, map, All, arith, Str, if◌then◌else◌,
}
use kubetest_alt.Api.{Phase, StepPhase, Stage, fetch, Time, step_phase_from_phase}
use kubetest_alt.Controller.Phases.{is_terminal_phase}
use kubetest_alt.Controller.Stages.{is_open, finish_stage, skip_open, finish_stages}

-- No stage is queued or running any more.
abbrev pub AllClosed : List Stage → Type 0
AllClosed ss = All (λ s. is_open s.phase ≡ false) ss

skip_open-AllClosed : (ss : List Stage) → AllClosed (skip_open ss)
unfolding skip_open
skip_open-AllClosed [] = tt
skip_open-AllClosed (s ∷ ss) = (ground arith, skip_open-AllClosed ss)

finish_stage_closed :
    (phase : Phase) (message : Str) (now : Time) (s : Stage)
    → is_terminal_phase phase ≡ true
    → is_open (finish_stage phase message now s).0.phase ≡ false
unfolding finish_stage is_terminal_phase step_phase_from_phase
finish_stage_closed phase message now s h = ground arith

if_AllClosed :
    (b : Bool) (xs ys : List Stage) → AllClosed xs → AllClosed ys → AllClosed (if b then xs else ys)
if_AllClosed true xs ys h k = h
if_AllClosed false xs ys h k = k

-- A run that ends, in any phase, leaves no stage queued or running.
pub finish_stages-AllClosed :
    (ss : List Stage) (phase : Phase) (message : Str) (now : Time)
    → is_terminal_phase phase ≡ true
    → AllClosed (finish_stages ss phase message now)
unfolding finish_stages
finish_stages-AllClosed [] phase message now h = tt
finish_stages-AllClosed (s ∷ ss) phase message now h = (
  finish_stage_closed phase message now s h,
  if_AllClosed (finish_stage phase message now s).1 (skip_open ss)
      (finish_stages ss phase message now) (skip_open-AllClosed ss)
      (finish_stages-AllClosed ss phase message now h),
)

-- A fetch stage that ended, and not well: it stops the course by itself.
abbrev pub IsFailedFetch : Stage → Type 0
IsFailedFetch s = (s.kind ≡ fetch) × (s.phase ≢ StepPhase.passed)

finish_stage_before :
    (phase : Phase) (message : Str) (now : Time) (s : Stage)
    → is_open s.phase ≡ false
    → ¬ IsFailedFetch s
    → ((finish_stage phase message now s).0.phase ≡ s.phase)
      × ((finish_stage phase message now s).1 ≡ false)
unfolding finish_stage
finish_stage_before phase message now s h f = ground arith

finish_stage_here :
    (phase : Phase) (message : Str) (now : Time) (s : Stage)
    → is_open s.phase ≡ true
    → phase ≢ Phase.passed
    → ((finish_stage phase message now s).0.phase ≡ step_phase_from_phase phase)
      × ((finish_stage phase message now s).0.message ≡ message)
      × ((finish_stage phase message now s).1 ≡ true)
unfolding finish_stage
finish_stage_here phase message now s h n = ground arith

abbrev phase_of : Stage → StepPhase
phase_of s = s.phase

-- A stage after the one that stopped the course: skipped if it was still open.
abbrev skipped_phase : Stage → StepPhase
skipped_phase s = if is_open s.phase then StepPhase.skipped else s.phase

map-phase_of-skip_open : (ss : List Stage) → map phase_of (skip_open ss) ≡ map skipped_phase ss
unfolding skip_open
map-phase_of-skip_open [] = refl
map-phase_of-skip_open (s ∷ ss) = ground (arith, map-phase_of-skip_open ss)

-- A run that does not pass: the first stage still open takes its verdict, the stages before it keep
-- their phases, and those after it that are open are skipped (where no fetch had failed before).
map-phase_of-finish_stages :
    (before : List Stage) (s : Stage) (after : List Stage) (phase : Phase) (message : Str)
    (now : Time)
    → All (λ b. (is_open b.phase ≡ false) × ¬ IsFailedFetch b) before
    → is_open s.phase ≡ true
    → phase ≢ Phase.passed
    → map phase_of (finish_stages (before ++ s ∷ after) phase message now)
      ≡ map phase_of before ++ step_phase_from_phase phase ∷ map skipped_phase after
unfolding finish_stages
map-phase_of-finish_stages [] s after phase message now h o n =
    let (a, _, c) = finish_stage_here phase message now s o n in
    rw (c, a) (ap (λ r. step_phase_from_phase phase ∷ r) (map-phase_of-skip_open after))
map-phase_of-finish_stages (b ∷ before) s after phase message now h o n =
    let (a, c) = finish_stage_before phase message now b h.0.0 h.0.1 in
    rw (c, a)
      (ap (λ r. b.phase ∷ r) (map-phase_of-finish_stages before s after phase message now h.1 o n))
