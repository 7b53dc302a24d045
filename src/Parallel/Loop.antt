-- ===== src/Parallel/Loop.antt =====
-- internal/controller/parallel.go: the loop over the workers, and aggregateWorkers.
use kubetest_alt.Base.{
  ℕ, zero, suc, Bool, true, false, List, [], ◌∷◌, ◌++◌, Str, codes, itoa, ltb, if◌then◌else◌,
}
use kubetest_alt.Api.{Phase, StepPhase}
use kubetest_alt.Parallel.Workers.{Worker}
use kubetest_alt.Parallel.World.{WorkerMap, worker_at, ParallelEnv, ParallelPass}
use kubetest_alt.Parallel.Round.{reconcile_worker}
use kubetest_alt.Parallel.Creation.{
  WorkerEnd, worker_finished, worker_finished_now, worker_going, worker_error,
}

-- `parallelPoll`.
abbrev pub parallel_poll : ℕ
parallel_poll = 5000000000

-- The counts of `aggregateWorkers`.
pub record Bad : Type 0 where
  pub errs : ℕ
  pub fails : ℕ

unfoldable pub count_bad : StepPhase → Bad → Bad
count_bad StepPhase.error b = record b { errs = suc b.errs }
count_bad StepPhase.failed b = record b { fails = suc b.fails }
count_bad StepPhase.aborted b = record b { fails = suc b.fails }
count_bad _ b = b

-- The loop over so many workers, the last one first: it only counts.
unfoldable pub bad_workers : WorkerMap → ℕ → Bad
unfolding count_bad worker_at
bad_workers steps zero = record { errs = 0; fails = 0 }
bad_workers steps (suc i) = count_bad (worker_at steps i).phase (bad_workers steps i)

-- `aggregateWorkers`.
unfoldable pub aggregate_workers : WorkerMap → ℕ → Phase × Str
unfolding bad_workers
aggregate_workers steps n =
    let b = bad_workers steps n in
    if ltb 0 b.errs
    then (
      Phase.error,
      itoa b.errs
          ++ (codes " of "
              ++ (itoa n ++ (codes " workers errored, " ++ (itoa b.fails ++ codes " failed")))),
    )
    else if ltb 0 b.fails
    then (Phase.failed, itoa b.fails ++ (codes " of " ++ (itoa n ++ codes " workers failed")))
    else (Phase.passed, codes "all " ++ (itoa n ++ codes " workers passed"))

-- How the loop over the workers ends: with an error, or with the number of those that have finished
-- and those whose Jobs are to be deleted.
pub data Swept : Type 0 where
  sweep_error : Swept
  swept : ℕ → List ℕ → Swept

abbrev pub count_finished : Bool → ℕ → ParallelPass × Swept → ParallelPass × Swept
count_finished with_job i (p, sweep_error) = (p, sweep_error)
count_finished true i (p, swept n jobs) = (p, swept (suc n) (i ∷ jobs))
count_finished false i (p, swept n jobs) = (p, swept (suc n) jobs)

abbrev pub after_worker :
    (ParallelPass → ParallelPass × Swept) → ℕ → ParallelPass × WorkerEnd → ParallelPass × Swept
after_worker next i (p, worker_error) = (p, sweep_error)
after_worker next i (p, worker_going) = next p
after_worker next i (p, worker_finished) = count_finished false i (next p)
after_worker next i (p, worker_finished_now) = count_finished true i (next p)

-- The loop over the workers.
unfoldable pub sweep : ParallelEnv → List Worker → ParallelPass → ParallelPass × Swept
unfolding reconcile_worker
sweep e [] p = (p, swept 0 [])
sweep e (w ∷ ws) p = after_worker (sweep e ws) w.index (reconcile_worker e w p)
