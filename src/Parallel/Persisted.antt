-- ===== src/Parallel/Persisted.antt =====
-- internal/controller/parallel.go: the Jobs and the verdicts of workers over a pass.
use mathlib.Core.Path.{subst}
use mathlib.Core.Bool.{decide}
use kubetest_alt.Base.{
  ℕ, ◌≡◌, refl, sym, ap, ◌∙◌, ◌⊎◌, inl, inr, true, false, Option, none, some, List, [], ◌∷◌, length,
  All, Any, if_cases, if_both, arith, ltb, ◌==◌,
}
use kubetest_alt.Api.{TestRunStatus, TestSpec, Snapshot, absent, malformed, snapshot}
use kubetest_alt.Controller.Phases.{Job, Reason}
use kubetest_alt.Controller.World.{terminal_and_delete_job}
use kubetest_alt.Controller.State.{Answer, succeeded, conflicted, failed, World, Outcome, done}
use kubetest_alt.Services.World.{ServicesState}
use kubetest_alt.Services.Ensure.{settle_services, ensure_services}
use kubetest_alt.Parallel.Workers.{Worker}
use kubetest_alt.Parallel.World.{WorkerMap, worker_at, Totals, ParallelEnv, ParallelPass}
use kubetest_alt.Parallel.Pass.{
  delete_worker_jobs, start_parallel, Status-discrete, status_equal, status_of, after_store, go_on,
  after_end, end_parallel, after_sweep, run_workers, after_ensure, workers_of, reconcile_spec,
  bad_spec, reconcile_snapshot, reconcile_parallel,
}
use kubetest_alt.Parallel.Loop.{Swept, sweep_error, swept, sweep, aggregate_workers}
use kubetest_alt.Parallel.Frames.{Verdicted, FinalResults}
use kubetest_alt.Parallel.Sweeps.{SweptRight, sweep-SweptRight, delete_worker_jobs-OnlyJobs}

-- A Job that was there is there, or the stored status has the worker's verdict; and a verdict that was
-- stored stays as it is.
abbrev pub Safe : ParallelPass → ParallelPass → Type 0
Safe p q =
    ((j : ℕ) (job : Job) → p.jobs j ≡ some job → (q.jobs j ≡ some job) ⊎ Verdicted q.stored_steps j)
    × ((j : ℕ)
        → Verdicted p.stored_steps j
        → worker_at q.stored_steps j ≡ worker_at p.stored_steps j)

All-Any : (P : ℕ → Type 0) (j : ℕ) (xs : List ℕ) → All P xs → Any (λ i. i ≡ j) xs → P j
All-Any P j [] a m = absurd m
All-Any P j (x ∷ xs) a (inl e) = subst P e a.0
All-Any P j (x ∷ xs) a (inr m) = All-Any P j xs a.1 m

decide-true {ℓ} : {A : Type ℓ} (d : Dec A) → decide d ≡ true → A
unfolding decide
decide-true (yes a) h = a
decide-true (no n) h = ground (arith, h)

status_equal_lem : (a b : TestRunStatus × WorkerMap × Totals) → status_equal a b ≡ true → a ≡ b
unfolding status_equal
status_equal_lem a b h = decide-true (Status-discrete a b) h

-- The stored steps are as they were, a worker with a verdict keeps its step in the pass's copy, and no
-- Job was removed.
abbrev Held : ParallelPass → ParallelPass → Type 0
Held p q =
    (q.stored_steps ≡ p.stored_steps)
    × ((j : ℕ) → Verdicted p.steps j → worker_at q.steps j ≡ worker_at p.steps j)
    × ((j : ℕ) (job : Job) → p.jobs j ≡ some job → q.jobs j ≡ some job)

-- Nothing was stored, and no Job removed.
Held-Safe : (p q : ParallelPass) → Held p q → Safe p q
Held-Safe p q (c, d, f) = (λ j job h. inl (f j job h), λ j v. ap (λ m. worker_at m j) c)

-- The pass's copy of the steps is stored, and Jobs of workers with verdicts are removed.
stored-Safe :
    (p q r : ParallelPass) (is : List ℕ)
    → p.steps ≡ p.stored_steps
    → Held p q
    → All (Verdicted q.steps) is
    → r.stored_steps ≡ q.steps
    → ((j : ℕ) → (r.jobs j ≡ q.jobs j) ⊎ Any (λ i. i ≡ j) is)
    → Safe p r
stored-Safe p q r is sync (c, d, f) v s k = (
  λ j job h. elim (k j) [
    | inl e ↦ inl (e ∙ f j job h)
    | inr m ↦ inr (subst (λ t. Verdicted t j) (sym s) (All-Any (Verdicted q.steps) j is v m))
  ],
  λ j u.
      let u2 : Verdicted p.steps j = subst (λ m. Verdicted m j) (sym sync) u in
      ap (λ m. worker_at m j) s ∙ d j u2 ∙ ap (λ m. worker_at m j) sync,
)

after_store-Safe :
    (e : ParallelEnv) (is : List ℕ) (a : Answer) (p q : ParallelPass)
    → p.steps ≡ p.stored_steps
    → Held p q
    → All (Verdicted q.steps) is
    → Safe p (after_store e is a q).0
unfolding after_store
after_store-Safe e is succeeded p q sync s v =
    let stored : ParallelPass = record q {
      world = record (q.world) { run = q.run };
      stored_steps = q.steps;
      stored_totals = q.totals;
    } in
    let (w, k, m) = delete_worker_jobs-OnlyJobs e is stored in
    stored-Safe p q (delete_worker_jobs e is stored) is sync s v k m
after_store-Safe e is conflicted p q sync s v = Held-Safe p q s
after_store-Safe e is failed p q sync s v = Held-Safe p q s

go_on-Safe :
    (e : ParallelEnv) (is : List ℕ) (p q : ParallelPass)
    → p.steps ≡ p.stored_steps
    → Held p q
    → All (Verdicted q.steps) is
    → Safe p (go_on e (status_of p) is q).0
unfolding go_on
go_on-Safe e is p q sync s v =
    if_cases (λ (r : ParallelPass × Outcome). Safe p r.0) (status_equal (status_of p) (status_of q))
      (λ t.
        let same =
          ap (λ (x : TestRunStatus × WorkerMap × Totals). x.1)
            (status_equal_lem (status_of p) (status_of q) t) in
        let (w, k, m) = delete_worker_jobs-OnlyJobs e is q in
        stored-Safe p q (delete_worker_jobs e is q) is sync s v (k ∙ s.0 ∙ sym sync ∙ same) m)
      (λ n. after_store-Safe e is (e.base.status_update 0) p q sync s v)

after_end-Safe :
    (e : ParallelEnv) (is : List ℕ) (p q : ParallelPass) (r : World × Outcome)
    → p.steps ≡ p.stored_steps
    → Held p q
    → All (Verdicted q.steps) is
    → Safe p (after_end e is q r).0
unfolding after_end
after_end-Safe e is p q (w, done) sync s v =
    let stored : ParallelPass = record q {
      world = w;
      stored_steps = q.steps;
      stored_totals = q.totals;
      services = settle_services e.services done (record (q.services) { world = w });
    } in
    let (a, k, m) = delete_worker_jobs-OnlyJobs e is stored in
    stored-Safe p q (delete_worker_jobs e is stored) is sync s v k m
after_end-Safe e is p q (w, Outcome.requeue_after n) sync s v = Held-Safe p q s
after_end-Safe e is p q (w, Outcome.error) sync s v = Held-Safe p q s
after_end-Safe e is p q (w, Outcome.conflict) sync s v = Held-Safe p q s
after_end-Safe e is p q (w, Outcome.handed_on) sync s v = Held-Safe p q s

after_sweep-Safe :
    (e : ParallelEnv) (ws : List Worker) (p : ParallelPass) (r : ParallelPass × Swept)
    → p.steps ≡ p.stored_steps
    → SweptRight ws p r
    → Safe p (after_sweep e (status_of p) (length ws) r).0
unfolding after_sweep end_parallel
after_sweep-Safe e ws p (q, sweep_error) sync (a, b, c, d, f) = Held-Safe p q (c, d, f)
after_sweep-Safe e ws p (q, swept n jobs) sync ((a, b, c, d, f), v, l, m) =
    let started : ParallelPass = record q { run = start_parallel e q.run } in
    if_both (λ (r : ParallelPass × Outcome). Safe p r.0) (ltb n (length ws))
      (go_on-Safe e jobs p started sync (c, d, f) v)
      (after_end-Safe e jobs p started
        (terminal_and_delete_job e.base 0 started.run (aggregate_workers q.steps (length ws)).0
          Reason.unstated (aggregate_workers q.steps (length ws)).1 false started.world)
        sync (c, d, f) v)

run_workers-Safe :
    (e : ParallelEnv) (ws : List Worker) (p : ParallelPass)
    → FinalResults e
    → p.steps ≡ p.stored_steps
    → Safe p (run_workers e ws p).0
unfolding run_workers
run_workers-Safe e ws p f sync =
    after_sweep-Safe e ws p (sweep e ws p) sync (sweep-SweptRight e ws p f)

after_ensure-Safe :
    (e : ParallelEnv) (ws : List Worker) (p : ParallelPass) (r : ServicesState × Option Outcome)
    → FinalResults e
    → p.steps ≡ p.stored_steps
    → Safe p (after_ensure e ws p r).0
unfolding after_ensure
after_ensure-Safe e ws p (s, some o) f sync = (λ j job h. inl h, λ j v. refl)
after_ensure-Safe e ws p (s, none) f sync =
    run_workers-Safe e ws (record p { world = s.world; services = s }) f sync

reconcile_spec-Safe :
    (e : ParallelEnv) (spec : TestSpec) (p : ParallelPass)
    → FinalResults e
    → p.steps ≡ p.stored_steps
    → Safe p (reconcile_spec e spec p).0
unfolding reconcile_spec
reconcile_spec-Safe e spec p f sync =
    if_both (λ (r : ParallelPass × Outcome). Safe p r.0) (spec.services == 0)
      (run_workers-Safe e (workers_of spec) p f sync)
      (after_ensure-Safe e (workers_of spec) p
        (ensure_services e.services (record (p.services) { world = p.world })) f sync)

reconcile_snapshot-Safe :
    (e : ParallelEnv) (p : ParallelPass) (resolved : Snapshot)
    → FinalResults e
    → p.steps ≡ p.stored_steps
    → Safe p (reconcile_snapshot e p resolved).0
unfolding reconcile_snapshot bad_spec
reconcile_snapshot-Safe e p absent f sync = (λ j job h. inl h, λ j v. refl)
reconcile_snapshot-Safe e p (malformed why) f sync = (λ j job h. inl h, λ j v. refl)
reconcile_snapshot-Safe e p (snapshot spec) f sync = reconcile_spec-Safe e spec p f sync

-- Where results are of final phases and the pass starts from the stored steps: a pass over a parallel
-- run removes a worker's Job only if the stored status has the worker's verdict, whatever is lost on
-- the way, and it never changes a verdict that is stored.
pub reconcile_parallel-Safe :
    (e : ParallelEnv) (p : ParallelPass)
    → FinalResults e
    → p.steps ≡ p.stored_steps
    → Safe p (reconcile_parallel e p).0
unfolding reconcile_parallel
reconcile_parallel-Safe e p f sync = reconcile_snapshot-Safe e p p.run.status.resolved_spec f sync
