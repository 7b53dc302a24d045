-- ===== src/Controller/Lifecycle.antt =====
-- internal/controller/testrun_controller.go: the life of a run over any sequence of reconciles.
use kubetest_alt.Base.{
  ◌≡◌, refl, sym, ◌⊎◌, inl, inr, true, false, none, some, List, [], ◌∷◌, arith, Bool-cases,
}
use mathlib.Core.Path.{ap, ◌∙◌}
use kubetest_alt.Api.{TestRun}
use kubetest_alt.Controller.Phases.{is_terminal_phase}
use kubetest_alt.Controller.World.{persist_finished, stop_tailers, delete_job}
use kubetest_alt.Controller.State.{Env, World}
use kubetest_alt.Controller.Progress.{Progress, goes_on, ends, before}
use kubetest_alt.Controller.Running.{reconcile-Progress}
use kubetest_alt.Controller.Reconcile.{finalize, expire_finished, reconcile, add_finalizer}

-- One reconcile after the other, each with what the cluster answers in it.
unfoldable pub reconcile_all : List Env → World → World
reconcile_all [] w = w
reconcile_all (e ∷ es) w = reconcile_all es (reconcile e w).0

-- What a run and its traces outside the API server promise.
pub data Sound (w : World) : Type 0 where
  open_run :
      is_terminal_phase w.run.status.phase ≡ false → w.deliveries ≡ [] → w.history ≡ none → Sound w
  over :
      is_terminal_phase w.run.status.phase ≡ true
      → (w.deliveries ≡ []) ⊎ (w.deliveries ≡ w.run.status.phase ∷ [])
      → ((r : TestRun) → w.history ≡ some r → r.status ≡ w.run.status)
      → Sound w

-- A pass over `v` that leaves its status and its traces, but for the row in run history, which may
-- be written.
record Quiet (v w : World) : Type 0 where
  status_kept : w.run.status ≡ v.run.status
  deliveries_kept : w.deliveries ≡ v.deliveries
  total_kept : w.runs_total ≡ v.runs_total
  row_kept : (w.history ≡ v.history) ⊎ (w.history ≡ some v.run)

module _ (e : Env) (w : World) where
  finalize-Quiet : Quiet w (finalize e w).0
  unfolding finalize stop_tailers delete_job
  finalize-Quiet = record {
    status_kept = ground arith;
    deliveries_kept = ground arith;
    total_kept = ground arith;
    row_kept = inl (ground arith);
  }

  add_finalizer-Quiet : Quiet w (add_finalizer e w).0
  unfolding add_finalizer
  add_finalizer-Quiet = record {
    status_kept = ground arith;
    deliveries_kept = ground arith;
    total_kept = ground arith;
    row_kept = inl (ground arith);
  }

  expire_finished-Quiet : Quiet w (expire_finished e w).0
  unfolding expire_finished
  expire_finished-Quiet = record {
    status_kept = ground arith;
    deliveries_kept = ground arith;
    total_kept = ground arith;
    row_kept = inl (ground arith);
  }

  persist_finished_run : (persist_finished e w).run ≡ w.run
  unfolding persist_finished
  persist_finished_run = ground arith

  persist_finished-Quiet : Quiet w (persist_finished e w)
  unfolding persist_finished
  persist_finished-Quiet = record {
    status_kept = ground arith;
    deliveries_kept = ground arith;
    total_kept = ground arith;
    row_kept = ground arith;
  }

persisted-Quiet : (e : Env) (w u : World) → Quiet (persist_finished e w) u → Quiet w u
persisted-Quiet e w u q =
    let p = persist_finished-Quiet e w in
    let r = persist_finished_run e w in
    let row = q.row_kept in
    let before_row = p.row_kept in
    record {
      status_kept = q.status_kept ∙ p.status_kept;
      deliveries_kept = q.deliveries_kept ∙ p.deliveries_kept;
      total_kept = q.total_kept ∙ p.total_kept;
      row_kept = ground (arith, row, before_row, r);
    }

reconcile_over :
    (e : Env) (w : World)
    → is_terminal_phase w.run.status.phase ≡ true
    → ((reconcile e w) ≡ finalize e w)
      ⊎ ((reconcile e w) ≡ add_finalizer e w)
      ⊎ ((reconcile e w) ≡ expire_finished e (persist_finished e w))
unfolding reconcile
reconcile_over e w h = ground arith

over-Quiet :
    (e : Env) (w : World) → is_terminal_phase w.run.status.phase ≡ true → Quiet w (reconcile e w).0
over-Quiet e w h = elim (reconcile_over e w h) [
  | inl p ↦ rw p (finalize-Quiet e w)
  | inr (inl p) ↦ rw p (add_finalizer-Quiet e w)
  | inr (inr p) ↦ rw p (persisted-Quiet e w _ (expire_finished-Quiet e (persist_finished e w)))
]

-- A reconcile of a run that is over leaves its status as it is, delivers no webhook and counts no
-- run, whatever the cluster answers and whether or not the run is being deleted.
pub terminal_run_frozen :
    (e : Env) (w : World)
    → is_terminal_phase w.run.status.phase ≡ true
    → ((reconcile e w).0.run.status ≡ w.run.status)
      × ((reconcile e w).0.deliveries ≡ w.deliveries)
      × ((reconcile e w).0.runs_total ≡ w.runs_total)
terminal_run_frozen e w h =
    let q = over-Quiet e w h in (q.status_kept, q.deliveries_kept, q.total_kept)

-- Over any sequence of reconciles, the status of a run that is over never changes again.
terminal_forever :
    (es : List Env) (w : World)
    → is_terminal_phase w.run.status.phase ≡ true
    → (reconcile_all es w).run.status ≡ w.run.status
unfolding reconcile_all
terminal_forever [] w h = refl
terminal_forever (e ∷ es) w h =
    let q = over-Quiet e w h in terminal_forever es _ (rw q.status_kept h) ∙ q.status_kept

Sound-over :
    (w u : World) → Sound w → is_terminal_phase w.run.status.phase ≡ true → Quiet w u → Sound u
Sound-over w u (open_run n d h) t q = ground (arith, n, t)
Sound-over w u (over _ d h) t q =
    over (rw q.status_kept t) (rw (q.status_kept, q.deliveries_kept) d) (elim q.row_kept [
      | inl p ↦ λ r eq. h r (sym p ∙ eq) ∙ sym q.status_kept
      | inr p ↦ λ r eq.
          let i : r ≡ w.run = ground arith in ap (λ (x : TestRun). x.status) i ∙ sym q.status_kept
    ])

Sound-open :
    (e : Env) (w u : World)
    → Sound w
    → is_terminal_phase w.run.status.phase ≡ false
    → Progress e (before w) u
    → Sound u
Sound-open e w u (over t _ _) n p = ground (arith, n, t)
Sound-open e w u (open_run _ d h) n (goes_on m _ k l) = open_run m (l ∙ d) (k ∙ h)
Sound-open e w u (open_run _ d h) n (ends r k l _) =
    over r.is_terminal (ground (arith, l, d))
      (λ x eq. let i : x ≡ u.run = ground (arith, k, h, eq) in ap (λ (y : TestRun). y.status) i)

reconcile_deleting :
    (e : Env) (w : World) → w.run.is_deleting ≡ true → (reconcile e w) ≡ finalize e w
unfolding reconcile
reconcile_deleting e w h = ground arith

Sound-finalize : (w u : World) → Sound w → Quiet w u → u.history ≡ w.history → Sound u
Sound-finalize w u (open_run n d h) q k =
    open_run (rw q.status_kept n) (q.deliveries_kept ∙ d) (k ∙ h)
Sound-finalize w u (over t d h) q k = Sound-over w u (over t d h) t q

finalize-history : (e : Env) (w : World) → (finalize e w).0.history ≡ w.history
unfolding finalize stop_tailers delete_job
finalize-history e w = ground arith

-- A reconcile keeps a run sound: while it is open, no webhook is delivered for it and history has
-- no row of it; once it is over, at most one webhook is delivered, of the phase it ended in, and a
-- row of it in history has the status it ended with. Of a composite or parallel run and one with
-- services this is up to the call of their own reconcilers, which it leaves out.
pub reconcile-Sound : (e : Env) (w : World) → Sound w → Sound (reconcile e w).0
reconcile-Sound e w s = elim (Bool-cases w.run.is_deleting) [
  | inl h ↦
      rw (reconcile_deleting e w h)
        (Sound-finalize w (finalize e w).0 s (finalize-Quiet e w) (finalize-history e w))
  | inr h ↦ elim (Bool-cases (is_terminal_phase w.run.status.phase)) [
    | inl t ↦ Sound-over w (reconcile e w).0 s t (over-Quiet e w t)
    | inr n ↦ Sound-open e w (reconcile e w).0 s n (reconcile-Progress e w n h)
  ]
]

-- A sound run is sound after any sequence of reconciles.
reconcile_all-Sound : (es : List Env) (w : World) → Sound w → Sound (reconcile_all es w)
unfolding reconcile_all
reconcile_all-Sound [] w s = s
reconcile_all-Sound (e ∷ es) w s = reconcile_all-Sound es (reconcile e w).0 (reconcile-Sound e w s)

Sound-deliveries :
    {w : World}
    → Sound w
    → (w.deliveries ≡ [])
      ⊎ ((w.deliveries ≡ w.run.status.phase ∷ []) × (is_terminal_phase w.run.status.phase ≡ true))
Sound-deliveries (open_run _ d _) = inl d
Sound-deliveries (over t (inl d) _) = inl d
Sound-deliveries (over t (inr d) _) = inr (d, t)

Sound-history :
    {w : World} (row : TestRun)
    → Sound w
    → w.history ≡ some row
    → (row.status ≡ w.run.status) × (is_terminal_phase row.status.phase ≡ true)
Sound-history row (open_run _ _ h) eq = ground (arith, h, eq)
Sound-history row (over t _ h) eq = (h row eq, rw (h row eq) t)

-- However often a new run of a single Job is reconciled and whatever the cluster answers, the webhooks
-- delivered for it are none, or one of the phase that it ended in; none of a phase before that. What the
-- reconcilers of composite and parallel runs and of services do is left out.
pub webhooks_at_most_once :
    (es : List Env) (w : World)
    → is_terminal_phase w.run.status.phase ≡ false
    → w.deliveries ≡ []
    → w.history ≡ none
    → ((reconcile_all es w).deliveries ≡ [])
      ⊎ (((reconcile_all es w).deliveries ≡ (reconcile_all es w).run.status.phase ∷ [])
          × (is_terminal_phase (reconcile_all es w).run.status.phase ≡ true))
webhooks_at_most_once es w n d h = Sound-deliveries (reconcile_all-Sound es w (open_run n d h))

-- However often a new run of a single Job is reconciled and whatever the cluster answers, a row of it in
-- run history is of a run that is over, with the status that the run keeps. What the reconcilers of
-- composite and parallel runs and of services do is left out.
pub history_is_final :
    (es : List Env) (w : World) (row : TestRun)
    → is_terminal_phase w.run.status.phase ≡ false
    → w.deliveries ≡ []
    → w.history ≡ none
    → (reconcile_all es w).history ≡ some row
    → (row.status ≡ (reconcile_all es w).run.status) × (is_terminal_phase row.status.phase ≡ true)
history_is_final es w row n d h = Sound-history row (reconcile_all-Sound es w (open_run n d h))
