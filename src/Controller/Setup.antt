-- ===== src/Controller/Setup.antt =====
-- internal/controller/testrun_controller.go, stages.go: the first reconciles of a run, from its
-- creation to the snapshot of its spec.
use kubetest_alt.Base.{
  suc, ℕ, ◌-◌, Bool, true, false, not, ◌&&◌, Option, none, some, List, [], ◌∷◌, ◌++◌, Str, codes,
  itoa, str_eq, str_ltb, ltb, if◌then◌else◌, keep_if, length, take,
}
use kubetest_alt.Api.{Phase, Time, TestSpec, snapshot, TestRun}
use kubetest_alt.Controller.Phases.{
  is_terminal_phase, test_not_found, invalid_config, resolve_failed, policy_denied,
  test_data_missing, volume_source_missing,
}
use kubetest_alt.Controller.Concurrency.{
  concurrency_proceed, concurrency_wait, concurrency_replace_prior, decide_concurrency, has_started,
  is_active, is_self, select_priors_to_abort,
}
use kubetest_alt.Controller.Stages.{waiting_stages}
use kubetest_alt.Controller.Derivation.{is_set}
use kubetest_alt.Controller.World.{of_answer, update_status, transition_terminal}
use kubetest_alt.Controller.State.{
  succeeded, test_found, test_missing, test_get_failed, resolved, unknown_config_key, unresolved,
  all_exist, check_failed, one_missing, Env, World, Outcome, requeue_after, error,
}

-- `waitingForSchedule`.
unfoldable pub waiting_for_schedule : TestRun → Time → Bool
waiting_for_schedule run now =
    not (has_started run) && elim run.not_before [ none ↦ false | some t ↦ ltb now t ]

abbrev pub is_queued : Phase → Bool
is_queued Phase.queued = true
is_queued _ = false

abbrev pub or_some : Option Time → Time → Option Time
or_some (some t) now = some t
or_some none now = some now

-- A run held back: what `waitForNotBefore` and `waitForPriors` write.
unfoldable pub held : Time → Str → TestRun → TestRun
held now msg run =
    let queued_at = or_some run.status.queued_at now in
    record run {
      status = record run.status {
        phase = Phase.queued;
        message = msg;
        queued_at = queued_at;
        stages = waiting_stages queued_at msg;
      };
    }

-- `waitForNotBefore`: `none` is to go on with the setup.
unfoldable pub wait_for_not_before : Env → World → Option (World × Outcome)
wait_for_not_before e w =
    let msg =
      codes "scheduled: starts at "
      ++ elim w.run.not_before [ none ↦ [] | some t ↦ e.format_time t ] in
    let left : ℕ = elim w.run.not_before [ none ↦ 0 | some t ↦ t - e.now ] in
    if not (waiting_for_schedule w.run e.now)
    then none
    else if is_queued w.run.status.phase
        && (str_eq w.run.status.message msg && is_set w.run.status.queued_at)
    then some (w, requeue_after left)
    else some (
      update_status (e.status_update 0) (held e.now msg w.run) w,
      elim (e.status_update 0) [ succeeded ↦ requeue_after left | a ↦ of_answer a ],
    )

-- `activePriorNames`, sorted.
unfoldable pub insert_name : Str → List Str → List Str
insert_name n [] = n ∷ []
insert_name n (m ∷ ms) = let rest = insert_name n ms in if str_ltb m n then m ∷ rest else n ∷ m ∷ ms

unfoldable pub active_prior_names : List TestRun → TestRun → List Str
active_prior_names [] self = []
active_prior_names (p ∷ ps) self =
    let rest = active_prior_names ps self in
    if not (is_self p self) && is_active p then insert_name p.name rest else rest

-- `strings.Join`.
unfoldable pub join : Str → List Str → Str
join sep [] = []
join sep (n ∷ []) = n
join sep (n ∷ m ∷ ms) = n ++ (sep ++ join sep (m ∷ ms))

abbrev pub forbid_suffix : Str
forbid_suffix = codes " to finish (concurrencyPolicy: Forbid)"

unfoldable pub forbid_message : List Str → Str
forbid_message names = elim names [
  | [] ↦ codes "waiting: a previous run of this Test is still going (concurrencyPolicy: Forbid)"
  | n ∷ ns ↦
      if ltb 3 (length (n ∷ ns))
      then codes "waiting for "
        ++ (join (codes ", ") (take 3 (n ∷ ns))
            ++ (codes " and " ++ (itoa (length (n ∷ ns) - 3) ++ (codes " more" ++ forbid_suffix))))
      else codes "waiting for " ++ (join (codes ", ") (n ∷ ns) ++ forbid_suffix)
]

abbrev pub concurrency_wait_interval : ℕ
concurrency_wait_interval = 10000000000

-- `waitForPriors`.
unfoldable pub wait_for_priors : Env → List TestRun → World → World × Outcome
wait_for_priors e priors w =
    let msg = forbid_message (active_prior_names priors w.run) in
    if is_queued w.run.status.phase
      && (str_eq w.run.status.message msg && elim w.run.status.stages [ [] ↦ false | _ ∷ _ ↦ true ])
    then (w, requeue_after concurrency_wait_interval)
    else (
      update_status (e.status_update 0) (held e.now msg w.run) w,
      elim (e.status_update 0) [
        | succeeded ↦ requeue_after concurrency_wait_interval
        | a ↦ of_answer a
      ],
    )

-- `listPriorRuns`, and the runs that wait for their schedule left out.
unfoldable pub priors_of : Time → TestRun → List TestRun → List TestRun
priors_of now run runs =
    keep_if (λ p. str_eq p.test_ref run.test_ref && not (waiting_for_schedule p now)) runs

-- The patch of `requestAbort`, with the request of `abortRun`.
unfoldable pub ask_to_abort : TestRun → World → World
ask_to_abort p w = record w {
  asked_to_abort =
      record p {
        abort = some (record {
          reason = codes "Concurrency";
          message = codes "superseded by a Replace-policy run";
          requested_by = w.run.name;
        });
      }
      ∷ w.asked_to_abort;
}

-- `run.Spec.Abort != nil || IsTerminalPhase(run.Status.Phase)`.
unfoldable pub needs_no_abort : TestRun → Bool
needs_no_abort p = elim p.abort [ some _ ↦ true | none ↦ is_terminal_phase p.status.phase ]

-- `abortRun`, over the priors from number `i` on, up to a patch that fails; the flag tells whether all
-- went well.
unfoldable pub abort_priors : Env → ℕ → List TestRun → World → World × Bool
unfolding ask_to_abort needs_no_abort
abort_priors e i [] w = (w, true)
abort_priors e i (p ∷ ps) w =
    if needs_no_abort p
    then abort_priors e (suc i) ps w
    else if e.patch_ok i
    then abort_priors e (suc i) ps (ask_to_abort p w)
    else (w, false)

-- The run with the snapshot of its spec.
unfoldable pub set_up : Time → TestSpec → TestRun → TestRun
set_up now spec run = record run {
  status = record run.status {
    resolved_spec = snapshot spec;
    phase = Phase.queued;
    message = [];
    queued_at = or_some run.status.queued_at now;
  };
}

unfoldable pub take_snapshot : Env → TestSpec → World → World × Outcome
take_snapshot e spec w =
    (update_status (e.status_update 0) (set_up e.now spec w.run) w, of_answer (e.status_update 0))

-- From the concurrency check on.
unfoldable pub admit : Env → TestSpec → World → World × Outcome
admit e spec w = elim e.list_runs [
  | none ↦ (w, error)
  | some runs ↦
      let priors = priors_of e.now w.run runs in
      elim (decide_concurrency priors w.run spec.concurrency_policy) [
        | concurrency_wait ↦ wait_for_priors e priors w
        | concurrency_replace_prior ↦
            let (w', ok) = abort_priors e 0 (select_priors_to_abort priors w.run) w in
            if ok then take_snapshot e spec w' else (w', error)
        | concurrency_proceed ↦ take_snapshot e spec w
      ]
]

abbrev pub cache_lag_requeue : ℕ
cache_lag_requeue = 500000000

-- `validateCompositeGraph`, of composite specs only.
unfoldable pub graph_check : Env → TestSpec → Option Str
graph_check e spec = elim spec.steps [ [] ↦ none | _ ∷ _ ↦ e.graph_error ]

-- The checks of the resolved spec, in their order.
unfoldable pub check_resolved : Env → TestSpec → World → World × Outcome
check_resolved e spec w = elim e.policy_error [
  | some msg ↦ transition_terminal e 0 w.run Phase.error policy_denied msg w
  | none ↦ elim e.test_data [
    | one_missing msg ↦ transition_terminal e 0 w.run Phase.error test_data_missing msg w
    | check_failed ↦ (w, error)
    | all_exist ↦ elim e.volume_sources [
      | one_missing msg ↦ transition_terminal e 0 w.run Phase.error volume_source_missing msg w
      | check_failed ↦ (w, error)
      | all_exist ↦ elim (graph_check e spec) [
        | some msg ↦ transition_terminal e 0 w.run Phase.error resolve_failed msg w
        | none ↦ admit e spec w
      ]
    ]
  ]
]

-- `setup`.
unfoldable pub setup : Env → World → World × Outcome
setup e w = elim e.test [
  | test_get_failed ↦ (w, error)
  | test_missing ↦
      if e.has_api_reader && not e.live_get_ok
      then (w, error)
      else if e.has_api_reader && e.live_test
      then (w, requeue_after cache_lag_requeue)
      else transition_terminal e 0 w.run Phase.error test_not_found
          (codes "Test \""
            ++ (w.run.test_ref
                ++ (codes "\" not found in namespace \"" ++ (w.run.namespace ++ codes "\""))))
          w
  | test_found ↦ elim e.resolve [
    | unknown_config_key msg ↦ transition_terminal e 0 w.run Phase.error invalid_config msg w
    | unresolved msg ↦ transition_terminal e 0 w.run Phase.error resolve_failed msg w
    | resolved spec ↦ check_resolved e spec w
  ]
]

-- A run without a snapshot: first its schedule, then its setup.
unfoldable pub first_passes : Env → World → World × Outcome
first_passes e w = elim (wait_for_not_before e w) [ some r ↦ r | none ↦ setup e w ]
