-- ===== src/Controller/Witnesses.antt =====
-- The theorems of the controller at the runs and clusters of Samples.
use kubetest_alt.Base.{
  ◌+◌, ◌≡◌, ◌≢◌, ◌⊎◌, refl, inl, inr, ap, true, none, some, [], ◌∷◌, codes, str_eq, str_ltb, arith,
}
use kubetest_alt.Api.{Phase-discrete, Phase, TestRun}
use kubetest_alt.Controller.Phases.{is_terminal_phase, unstated, inspect_job, reason_text}
use kubetest_alt.Controller.Infra.{analyze_pod}
use kubetest_alt.Controller.Concurrency.{
  concurrency_proceed, decide_concurrency, policy_forbid, has_started,
}
use kubetest_alt.Controller.Queue.{waiting_run_proceeds, forbid_exclusive, Among, IsOpen}
use mathlib.Core.Bool.{decide}
use kubetest_alt.Controller.World.{
  after_transition, terminal_and_delete_job, same_phase, update_status, ended, count_terminal,
  after_terminal, persist_finished, dispatch_webhooks, stop_tailers, delete_job,
  transition_terminal,
}
use kubetest_alt.Controller.State.{Env, World, conflicted}
use kubetest_alt.Controller.Progress.{Ended}
use kubetest_alt.Controller.Inspect.{
  inspect, ensure_fetch_tailer, job_ended, end_with_result, is_composite_run, is_parallel_run,
}
use kubetest_alt.Controller.Reconcile.{
  reconcile_open, advance_run, observe_or_create_job, cached_job, reconcile,
}
use kubetest_alt.Controller.Lifecycle.{
  reconcile_all, Sound, open_run, terminal_run_frozen, reconcile-Sound, webhooks_at_most_once,
  history_is_final,
}
use kubetest_alt.Controller.Ending.{
  open_run_ends_whole, job_kept_while_open, abort_ends_run, result_ends_run,
}
use kubetest_alt.Controller.Gauge.{lost_end_counted_twice}
use kubetest_alt.Controller.Samples.{
  plain_spec, run_named, passed_result, cluster, world_of, new_world, ended_job, active_run,
  active_world, stop_request, result_cluster,
}

abbrev first : TestRun
first = run_named (codes "r1") 1

abbrev second : TestRun
second = run_named (codes "r2") 1

-- A run that has been set up and is over.
abbrev over_run : TestRun
over_run = record active_run { status = record active_run.status { phase = Phase.passed } }

waiting_run_proceeds_example :
    (m : TestRun) × Among m (over_run ∷ second ∷ first ∷ [])
    × IsOpen m
    × (decide_concurrency (over_run ∷ second ∷ first ∷ []) m policy_forbid ≡ concurrency_proceed)
unfolding has_started
waiting_run_proceeds_example =
    waiting_run_proceeds (over_run ∷ second ∷ first ∷ []) second (inr (inl refl)) refl
      (λ o. absurd (ground (arith, o)), (λ _. refl, (λ _. refl, tt)))

forbid_exclusive_example :
    decide_concurrency (second ∷ first ∷ []) second policy_forbid ≢ concurrency_proceed
unfolding is_terminal_phase decide_concurrency str_eq str_ltb
forbid_exclusive_example =
    forbid_exclusive (second ∷ first ∷ []) first second (inr (inl refl)) (inl refl) refl refl
      (ground arith) (ground arith) refl

abbrev over_world : World
over_world =
    world_of (record active_run { status = record active_run.status { phase = Phase.failed } }) none

terminal_run_frozen_example :
    ((reconcile (cluster 9) over_world).0.run.status ≡ over_world.run.status)
    × ((reconcile (cluster 9) over_world).0.deliveries ≡ [])
    × ((reconcile (cluster 9) over_world).0.runs_total ≡ 0)
unfolding is_terminal_phase
terminal_run_frozen_example = terminal_run_frozen (cluster 9) over_world refl

reconcile-Sound_example : Sound (reconcile (cluster 1) new_world).0
unfolding is_terminal_phase
reconcile-Sound_example = reconcile-Sound (cluster 1) new_world (open_run refl refl refl)

webhooks_at_most_once_example :
    let end = reconcile_all (cluster 1 ∷ cluster 2 ∷ result_cluster ∷ []) new_world in
    (end.deliveries ≡ [])
    ⊎ ((end.deliveries ≡ end.run.status.phase ∷ [])
        × (is_terminal_phase end.run.status.phase ≡ true))
unfolding is_terminal_phase
webhooks_at_most_once_example =
    webhooks_at_most_once (cluster 1 ∷ cluster 2 ∷ result_cluster ∷ []) new_world refl refl refl

abbrev asked_world : World
asked_world = world_of (record active_run { abort = some stop_request }) (some ended_job)

abort_ends_run_example : (reconcile (cluster 9) asked_world).0.run.status.phase ≡ Phase.aborted
unfolding is_terminal_phase is_composite_run is_parallel_run
abort_ends_run_example =
    abort_ends_run (cluster 9) asked_world stop_request refl refl refl refl refl refl (ground arith)
      refl

result_ends_run_example :
    ((reconcile result_cluster active_world).0.run.status.phase ≡ Phase.passed)
    × ((reconcile result_cluster active_world).0.job ≡ none)
unfolding is_terminal_phase is_composite_run is_parallel_run analyze_pod inspect_job reason_text
result_ends_run_example =
    result_ends_run result_cluster active_world ended_job plain_spec passed_result refl refl refl
      refl refl refl refl refl refl refl (ground arith) refl refl refl refl

open_run_ends_whole_example :
    Ended result_cluster (reconcile result_cluster active_world).0.run
    × ((reconcile result_cluster active_world).0.runs_total ≡ 1)
unfolding is_terminal_phase
open_run_ends_whole_example =
    open_run_ends_whole result_cluster active_world refl refl
      (ap is_terminal_phase result_ends_run_example.0)

abbrev unreachable : Env
unreachable = record result_cluster { status_update = λ _. conflicted }

job_kept_while_open_example : (reconcile unreachable active_world).0.job ≡ some ended_job
unfolding reconcile reconcile_open advance_run is_composite_run is_parallel_run
    observe_or_create_job cached_job inspect ensure_fetch_tailer reason_text analyze_pod inspect_job
    job_ended end_with_result terminal_and_delete_job after_transition transition_terminal
    same_phase decide Phase-discrete is_terminal_phase update_status ended count_terminal
job_kept_while_open_example =
    job_kept_while_open unreachable active_world ended_job refl refl refl refl

abbrev passed_run : TestRun
passed_run = (reconcile_all (result_cluster ∷ []) active_world).run

history_is_final_example :
    (passed_run.status ≡ (reconcile_all (result_cluster ∷ []) active_world).run.status)
    × (is_terminal_phase passed_run.status.phase ≡ true)
unfolding reconcile reconcile_open advance_run is_composite_run is_parallel_run
    observe_or_create_job cached_job inspect ensure_fetch_tailer reason_text analyze_pod inspect_job
    job_ended end_with_result terminal_and_delete_job after_transition transition_terminal
    same_phase decide Phase-discrete is_terminal_phase update_status ended count_terminal
    after_terminal persist_finished dispatch_webhooks stop_tailers delete_job reconcile_all
history_is_final_example =
    history_is_final (result_cluster ∷ []) active_world passed_run refl refl refl refl

lost_end_counted_twice_example :
    let lost =
      (transition_terminal unreachable 0 active_run Phase.passed unstated [] active_world).0 in
    (lost.run ≡ active_run)
    × ((transition_terminal result_cluster 0 active_run Phase.passed unstated []
          lost).0.run.status.phase
        ≡ Phase.passed)
    × ((transition_terminal result_cluster 0 active_run Phase.passed unstated [] lost).0.runs_total
        ≡ 0 + 2)
unfolding is_terminal_phase
lost_end_counted_twice_example =
    lost_end_counted_twice unreachable result_cluster Phase.passed unstated [] active_world refl
      refl refl refl
