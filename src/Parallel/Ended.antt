-- ===== src/Parallel/Ended.antt =====
-- internal/controller/parallel.go: when a pass ends a parallel run, and in which phase.
use mathlib.Core.Path.{subst}
use kubetest_alt.Base.{
  ℕ, ◌≡◌, ◌↔◌, sym, ap, ◌∙◌, ◌⊎◌, inl, inr, true, false, some, List, length, if_cases, if_both,
  arith, ltb,
}
use kubetest_alt.Api.{Phase, TestRun, TestSpec, ParallelSpec, snapshot}
use kubetest_alt.Controller.Phases.{is_terminal_phase, Reason}
use kubetest_alt.Controller.World.{terminal_and_delete_job}
use kubetest_alt.Controller.State.{Answer, succeeded, conflicted, failed, World, Outcome, done}
use kubetest_alt.Services.Ensure.{settle_services}
use kubetest_alt.Parallel.Workers.{Worker, parallel_workers}
use kubetest_alt.Parallel.Numbering.{Numbered, parallel_workers-Numbered}
use kubetest_alt.Parallel.World.{WorkerMap, ParallelEnv, ParallelPass}
use kubetest_alt.Parallel.Pass.{
  delete_worker_jobs, start_parallel, status_equal, status_of, after_store, go_on, after_end,
  end_parallel, after_sweep, run_workers, reconcile_spec, reconcile_snapshot, reconcile_parallel,
}
use kubetest_alt.Parallel.Loop.{Swept, sweep_error, swept, sweep, aggregate_workers}
use kubetest_alt.Parallel.Verdicts.{AllOver, AllPassed, aggregate_workers_iff}
use kubetest_alt.Parallel.Frames.{FinalResults}
use kubetest_alt.Parallel.Sweeps.{SweptRight, sweep-SweptRight, delete_worker_jobs-OnlyJobs}
use kubetest_alt.Parallel.Endings.{EndsIn, terminal-EndsIn, all_over}

-- The run is open, or every worker's verdict is stored and the run is over in the phase that they give,
-- which is passed exactly when every worker passed.
abbrev pub EndsRight : ℕ → ParallelPass → Type 0
EndsRight n q =
    (is_terminal_phase q.world.run.status.phase ≡ false)
    ⊎ (AllOver q.stored_steps n
        × (q.world.run.status.phase ≡ (aggregate_workers q.stored_steps n).0)
        × ((q.world.run.status.phase ≡ Phase.passed) ↔ AllPassed q.stored_steps n))

judged :
    (q : ParallelPass) (m : WorkerMap) (n : ℕ)
    → q.stored_steps ≡ m
    → AllOver m n
    → q.world.run.status.phase ≡ (aggregate_workers m n).0
    → EndsRight n q
judged q m n s a h =
    let b = subst (λ x. AllOver x n) (sym s) a in
    let k = h ∙ ap (λ x. (aggregate_workers x n).0) (sym s) in
    let c = aggregate_workers_iff q.stored_steps n b in
    inr (b, k, (λ x. c.0 (sym k ∙ x), λ y. k ∙ c.1 y))

aggregate_workers-terminal :
    (m : WorkerMap) (n : ℕ) → is_terminal_phase (aggregate_workers m n).0 ≡ true
unfolding aggregate_workers is_terminal_phase
aggregate_workers-terminal m n = ground arith

start_parallel-open :
    (e : ParallelEnv) (run : TestRun)
    → is_terminal_phase run.status.phase ≡ false
    → is_terminal_phase (start_parallel e run).status.phase ≡ false
unfolding start_parallel is_terminal_phase
start_parallel-open e run h = ground (arith, h)

-- The run in the API server is open.
abbrev Open : ParallelPass → Type 0
Open q = is_terminal_phase q.world.run.status.phase ≡ false

delete_worker_jobs-Open :
    (e : ParallelEnv) (is : List ℕ) (q : ParallelPass) → Open q → Open (delete_worker_jobs e is q)
delete_worker_jobs-Open e is q h =
    ap (λ (w : World). is_terminal_phase w.run.status.phase) (delete_worker_jobs-OnlyJobs e is q).0
    ∙ h

after_store-Open :
    (e : ParallelEnv) (is : List ℕ) (a : Answer) (q : ParallelPass)
    → Open q
    → is_terminal_phase q.run.status.phase ≡ false
    → Open (after_store e is a q).0
unfolding after_store
after_store-Open e is succeeded q h k = delete_worker_jobs-Open e is _ k
after_store-Open e is conflicted q h k = h
after_store-Open e is failed q h k = h

go_on-Open :
    (e : ParallelEnv) (is : List ℕ) (p q : ParallelPass)
    → Open q
    → is_terminal_phase q.run.status.phase ≡ false
    → Open (go_on e (status_of p) is q).0
unfolding go_on
go_on-Open e is p q h k =
    if_both (λ (r : ParallelPass × Outcome). Open r.0) (status_equal (status_of p) (status_of q))
      (delete_worker_jobs-Open e is q h) (after_store-Open e is (e.base.status_update 0) q h k)

after_end-EndsRight :
    (e : ParallelEnv) (n : ℕ) (is : List ℕ) (q : ParallelPass) (r : World × Outcome)
    → Open q
    → AllOver q.steps n
    → EndsIn (aggregate_workers q.steps n).0 q.world r
    → EndsRight n (after_end e is q r).0
unfolding after_end
after_end-EndsRight e n is q (w, done) h a k =
    let ended_pass : ParallelPass = record q {
      world = w;
      stored_steps = q.steps;
      stored_totals = q.totals;
      services = settle_services e.services done (record (q.services) { world = w });
    } in
    let (b, s, m) = delete_worker_jobs-OnlyJobs e is ended_pass in
    judged (delete_worker_jobs e is ended_pass) q.steps n s a
      (ap (λ (v : World). v.run.status.phase) b ∙ k)
after_end-EndsRight e n is q (w, Outcome.requeue_after t) h a k =
    inl (ap (λ (run : TestRun). is_terminal_phase run.status.phase) k ∙ h)
after_end-EndsRight e n is q (w, Outcome.error) h a k =
    inl (ap (λ (run : TestRun). is_terminal_phase run.status.phase) k ∙ h)
after_end-EndsRight e n is q (w, Outcome.conflict) h a k =
    inl (ap (λ (run : TestRun). is_terminal_phase run.status.phase) k ∙ h)
after_end-EndsRight e n is q (w, Outcome.handed_on) h a k =
    inl (ap (λ (run : TestRun). is_terminal_phase run.status.phase) k ∙ h)

after_sweep-EndsRight :
    (e : ParallelEnv) (ws : List Worker) (p : ParallelPass) (r : ParallelPass × Swept)
    → Open p
    → is_terminal_phase p.run.status.phase ≡ false
    → Numbered 0 (length ws) ws
    → SweptRight ws p r
    → EndsRight (length ws) (after_sweep e (status_of p) (length ws) r).0
unfolding after_sweep end_parallel
after_sweep-EndsRight e ws p (q, sweep_error) h k n (a, b, c, d, f) =
    inl (ap (λ (w : World). is_terminal_phase w.run.status.phase) b ∙ h)
after_sweep-EndsRight e ws p (q, swept i jobs) h k n ((a, b, c, d, f), v, l, m) =
    let started : ParallelPass = record q { run = start_parallel e q.run } in
    let still = ap (λ (w : World). is_terminal_phase w.run.status.phase) b ∙ h in
    let going =
      start_parallel-open e q.run
        (ap (λ (run : TestRun). is_terminal_phase run.status.phase) a ∙ k) in
    let total = aggregate_workers q.steps (length ws) in
    if_cases (λ (r : ParallelPass × Outcome). EndsRight (length ws) r.0) (ltb i (length ws))
      (λ t. inl (go_on-Open e jobs p started still going))
      (λ t.
        after_end-EndsRight e (length ws) jobs started
          (terminal_and_delete_job e.base 0 started.run total.0 Reason.unstated total.1 false
            started.world)
          still (all_over q.steps ws n (m (ground (arith, t, l))))
          (terminal-EndsIn e.base started.run total.0 Reason.unstated total.1 started.world going
            (aggregate_workers-terminal q.steps (length ws))))

reconcile_parallel_plain :
    (e : ParallelEnv) (spec : TestSpec) (s : ParallelSpec) (p : ParallelPass)
    → p.run.status.resolved_spec ≡ snapshot spec
    → spec.parallel ≡ some s
    → spec.services ≡ 0
    → reconcile_parallel e p ≡ run_workers e (parallel_workers s) p
unfolding reconcile_parallel reconcile_snapshot reconcile_spec
reconcile_parallel_plain e spec s p h k z =
    let plain : reconcile_spec e spec p ≡ run_workers e (parallel_workers s) p =
      ground (arith, k, z) in
    ap (reconcile_snapshot e p) h ∙ plain

-- Where results are of final phases: a pass over a parallel run without services, which holds the
-- stored run and finds it open, leaves it open, or ends it when every worker's verdict is stored, in
-- the phase that the verdicts give, which is passed exactly when every worker passed.
pub reconcile_parallel-ended :
    (e : ParallelEnv) (spec : TestSpec) (s : ParallelSpec) (p : ParallelPass)
    → FinalResults e
    → p.run ≡ p.world.run
    → p.run.status.resolved_spec ≡ snapshot spec
    → spec.parallel ≡ some s
    → spec.services ≡ 0
    → is_terminal_phase p.run.status.phase ≡ false
    → EndsRight (length (parallel_workers s)) (reconcile_parallel e p).0
unfolding run_workers
reconcile_parallel-ended e spec s p f sync h k z going =
    let ws = parallel_workers s in
    let stored = ap (λ (run : TestRun). is_terminal_phase run.status.phase) (sym sync) ∙ going in
    subst (λ (r : ParallelPass × Outcome). EndsRight (length ws) r.0)
      (sym (reconcile_parallel_plain e spec s p h k z))
      (after_sweep-EndsRight e ws p (sweep e ws p) stored going (parallel_workers-Numbered s)
        (sweep-SweptRight e ws p f))
