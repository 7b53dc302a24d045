-- ===== src/Controller/World.antt =====
-- internal/controller/testrun_controller.go: what the reconciler keeps of one TestRun, what the
-- cluster answers in one pass, and how a run is ended.
use kubetest_alt.Base.{
  ℕ, ◌+◌, ◌-◌, ◌/◌, Bool, true, false, not, ◌&&◌, ◌||◌, Option, none, some, List, [], ◌∷◌, ◌++◌,
  Str, codes, if◌then◌else◌,
}
use kubetest_alt.Api.{Phase, Phase-discrete, Time, TestRun}
use kubetest_alt.Controller.Phases.{is_terminal_phase, Reason, reason_text}
use kubetest_alt.Controller.Stages.{finish_stages}
use kubetest_alt.Controller.Derivation.{is_empty, is_set}
use mathlib.Core.Bool.{decide}
use kubetest_alt.Controller.State.{
  Answer, Env, World, Outcome, succeeded, conflicted, failed, done, requeue_after, error, conflict,
}

abbrev pub of_answer : Answer → Outcome
of_answer succeeded = done
of_answer conflicted = conflict
of_answer failed = error

-- `requeueOnConflict`.
abbrev pub conflict_requeue : ℕ
conflict_requeue = 200000000

unfoldable pub requeue_on_conflict : Outcome → Outcome
requeue_on_conflict conflict = requeue_after conflict_requeue
requeue_on_conflict o = o

-- `r.Status().Update`: the run is stored, or the stored one stays.
unfoldable pub update_status : Answer → TestRun → World → World
update_status succeeded run w = record w { run = run }
update_status _ run w = w

unfoldable pub same_phase : Phase → Phase → Bool
same_phase p q = decide (Phase-discrete p q)

abbrev pub is_running : Phase → Bool
is_running Phase.running = true
is_running _ = false

unfoldable pub terminal_message : Str → Reason → Str → Str
unfolding reason_text
terminal_message old reason message =
    if not (is_empty (reason_text reason)) && not (is_empty message)
    then reason_text reason ++ (codes ": " ++ message)
    else if not (is_empty message)
    then message
    else if not (is_empty (reason_text reason))
    then reason_text reason
    else old

abbrev pub time_or : Option Time → Time → Time
time_or (some t) now = t
time_or none now = now

-- The run that `transitionTerminal` writes. A start after `now`, which a clock that is set back
-- would give, counts as a duration of 0 here.
unfoldable pub ended : Time → TestRun → Phase → Reason → Str → TestRun
unfolding terminal_message
ended now run phase reason message =
    let status = run.status in
    let text = terminal_message status.message reason message in
    record run {
      status = record status {
        phase = phase;
        message = text;
        stages = finish_stages status.stages phase text now;
        started_at = some (time_or status.started_at now);
        finished_at = some now;
        duration_ms = (now - time_or status.started_at now) / 1000000;
      };
    }

-- The metrics that `transitionTerminal` counts, before it writes.
unfoldable pub count_terminal : TestRun → World → World
count_terminal run w = record w {
  runs_total = w.runs_total + 1;
  active_dec =
      if is_set run.status.started_at && is_running run.status.phase
      then w.active_dec + 1
      else w.active_dec;
}

-- `transitionTerminal`. `i` is the number of the status write in this pass.
unfoldable pub transition_terminal :
    Env → ℕ → TestRun → Phase → Reason → Str → World → World × Outcome
transition_terminal e i run phase reason message w =
    if not (is_terminal_phase phase)
    then (w, error)
    else if same_phase run.status.phase phase
    then (w, done)
    else (
      update_status (e.status_update i) (ended e.now run phase reason message)
          (count_terminal run w),
      of_answer (e.status_update i),
    )

-- `persistFinished`: the row, and then its test cases, without which it is saved again.
unfoldable pub persist_finished : Env → World → World
persist_finished e w =
    if not e.has_run_store || is_empty w.run.uid
    then w
    else if w.is_persisted
    then w
    else if e.save_ok
    then record w { is_persisted = e.save_cases_ok; history = some w.run }
    else w

unfoldable pub has_phase : Phase → List Phase → Bool
unfolding same_phase
has_phase p [] = false
has_phase p (q ∷ qs) = same_phase p q || has_phase p qs

-- `dispatchWebhooks`: one delivery stands for those to all subscribers of the phase.
unfoldable pub dispatch_webhooks : Env → World → World
unfolding has_phase
dispatch_webhooks e w =
    if not e.has_dispatcher
    then w
    else if has_phase w.run.status.phase w.dispatched
    then w
    else if not e.list_webhooks_ok
    then w
    else record w {
      deliveries = w.run.status.phase ∷ w.deliveries;
      dispatched = w.run.status.phase ∷ w.dispatched;
    }

unfoldable pub stop_tailers : Env → World → World
stop_tailers e w =
    if e.has_registry then record w { has_tailer = false; has_fetch_tailer = false } else w

-- `deleteJobBackground`; an absent Job is success.
unfoldable pub delete_job : Env → World → World
delete_job e w = if e.delete_ok then record w { job = none } else w

-- What `terminalAndDeleteJob` does once the terminal phase is stored.
unfoldable pub after_terminal : Env → Bool → World → World
unfolding persist_finished dispatch_webhooks stop_tailers delete_job
after_terminal e with_job w =
    let w' = stop_tailers e (dispatch_webhooks e (persist_finished e w)) in
    if with_job then delete_job e w' else w'

unfoldable pub after_transition : Env → Bool → World × Outcome → World × Outcome
after_transition e with_job (w, done) = (after_terminal e with_job w, done)
after_transition e with_job (w, o) = (w, o)

-- `terminalAndDeleteJob`; the flag tells whether a Job was passed.
unfoldable pub terminal_and_delete_job :
    Env → ℕ → TestRun → Phase → Reason → Str → Bool → World → World × Outcome
terminal_and_delete_job e i run phase reason message with_job w =
    after_transition e with_job (transition_terminal e i run phase reason message w)
