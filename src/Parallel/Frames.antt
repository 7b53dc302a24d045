-- ===== src/Parallel/Frames.antt =====
-- internal/controller/parallel.go: what the round of a worker may touch, and how it finishes one.
use kubetest_alt.Base.{ℕ, ◌≡◌, ◌≢◌, refl, ap, ◌∙◌, true, some, [], ◌∷◌, Str, if_both, arith}
use kubetest_alt.Api.{Phase, step_phase_from_phase}
use kubetest_alt.Controller.Phases.{Job, is_terminal_phase}
use kubetest_alt.Parallel.World.{
  WorkerStep, WorkerMap, worker_at, put_worker, WorkerResult, worker_read, ParallelEnv,
  ParallelPass, finish_worker, finished_step, error_result, end_worker, stop_worker_tailers,
  is_terminal_step,
}
use kubetest_alt.Parallel.Creation.{
  WorkerEnd, worker_finished, worker_finished_now, worker_going, worker_error,
}

pub worker_at-put_worker :
    (m : WorkerMap) (i : ℕ) (r : WorkerStep) → worker_at (put_worker m i r) i ≡ r
unfolding worker_at put_worker
worker_at-put_worker [] i r = ground arith
worker_at-put_worker ((k, s) ∷ m) i r = ground (arith, worker_at-put_worker m i r)

pub worker_at-put_worker_other :
    (m : WorkerMap) (i j : ℕ) (r : WorkerStep)
    → j ≢ i
    → worker_at (put_worker m i r) j ≡ worker_at m j
unfolding worker_at put_worker
worker_at-put_worker_other [] i j r n = ground (arith, n)
worker_at-put_worker_other ((k, s) ∷ m) i j r n =
    ground (arith, n, worker_at-put_worker_other m i j r n)

-- A worker has a verdict.
abbrev pub Verdicted : WorkerMap → ℕ → Type 0
Verdicted m i = is_terminal_step (worker_at m i).phase ≡ true

-- The pass goes on from the first to the second, and only the step of this worker may differ; Jobs may
-- be added.
abbrev pub OnlyAt : ℕ → ParallelPass → ParallelPass → Type 0
OnlyAt i p q =
    (q.run ≡ p.run)
    × (q.world ≡ p.world)
    × (q.stored_steps ≡ p.stored_steps)
    × ((j : ℕ) → j ≢ i → worker_at q.steps j ≡ worker_at p.steps j)
    × ((j : ℕ) (job : Job) → p.jobs j ≡ some job → q.jobs j ≡ some job)

pub OnlyAt-refl : (i : ℕ) (p : ParallelPass) → OnlyAt i p p
OnlyAt-refl i p = (refl, refl, refl, λ j n. refl, λ j job h. h)

pub OnlyAt-trans : (i : ℕ) (p q r : ParallelPass) → OnlyAt i p q → OnlyAt i q r → OnlyAt i p r
OnlyAt-trans i p q r (a, b, c, d, f) (a2, b2, c2, d2, f2) =
    (a2 ∙ a, b2 ∙ b, c2 ∙ c, λ j n. d2 j n ∙ d j n, λ j job h. f2 j job (f j job h))

pub put_worker-OnlyAt :
    (i : ℕ) (p : ParallelPass) (r : WorkerStep)
    → OnlyAt i p (record p { steps = put_worker p.steps i r })
put_worker-OnlyAt i p r =
    (refl, refl, refl, λ j n. worker_at-put_worker_other p.steps i j r n, λ j job h. h)

-- Where the round of a worker finishes it, the worker has a verdict.
abbrev pub Ends : ℕ → ParallelPass → WorkerEnd → Type 0
Ends i q worker_finished = Verdicted q.steps i
Ends i q worker_finished_now = Verdicted q.steps i
Ends i q worker_going = Unit
Ends i q worker_error = Unit

abbrev pub Rounded : ℕ → ParallelPass → ParallelPass × WorkerEnd → Type 0
Rounded i p (q, end) = OnlyAt i p q × Ends i q end

pub Rounded-trans :
    (i : ℕ) (p q : ParallelPass) (r : ParallelPass × WorkerEnd)
    → OnlyAt i p q
    → Rounded i q r
    → Rounded i p r
Rounded-trans i p q (r, end) k (l, m) = (OnlyAt-trans i p q r k l, m)

-- The stored results, and the summaries that wrappers leave, are of final phases: their readers refuse
-- all others.
pub record FinalResults (e : ParallelEnv) : Type 0 where
  pub stored_final :
      (i : ℕ) (res : WorkerResult)
      → e.result i ≡ worker_read res
      → is_terminal_phase res.result.phase ≡ true
  pub summary_final :
      (s : Str) (res : WorkerResult)
      → e.parse_summary s ≡ some res
      → is_terminal_phase res.result.phase ≡ true

pub terminal-step :
    (p : Phase) → is_terminal_phase p ≡ true → is_terminal_step (step_phase_from_phase p) ≡ true
unfolding is_terminal_phase is_terminal_step step_phase_from_phase
terminal-step p h = ground (arith, h)

pub finish_worker-Finished :
    (e : ParallelEnv) (i : ℕ) (res : WorkerResult) (p : ParallelPass)
    → is_terminal_phase res.result.phase ≡ true
    → OnlyAt i p (finish_worker e i res p) × Verdicted (finish_worker e i res p).steps i
unfolding finish_worker finished_step
finish_worker-Finished e i res p h =
    let r = finished_step e.base.now res.result (worker_at p.steps i) in
    (
      (refl, refl, refl, λ j n. worker_at-put_worker_other p.steps i j r n, λ j job k. k),
      ap (λ (s : WorkerStep). is_terminal_step s.phase) (worker_at-put_worker p.steps i r)
          ∙ terminal-step res.result.phase h,
    )

pub stop_worker_tailers-steps :
    (e : ParallelEnv) (i : ℕ) (p : ParallelPass)
    → OnlyAt i p (stop_worker_tailers e i p) × ((stop_worker_tailers e i p).steps ≡ p.steps)
unfolding stop_worker_tailers
stop_worker_tailers-steps e i p =
    if_both (λ q. OnlyAt i p q × (q.steps ≡ p.steps)) e.base.has_registry
      ((refl, refl, refl, λ j n. refl, λ j job k. k), refl) (OnlyAt-refl i p, refl)

pub end_worker-Finished :
    (e : ParallelEnv) (i : ℕ) (res : WorkerResult) (p : ParallelPass)
    → is_terminal_phase res.result.phase ≡ true
    → Rounded i p (end_worker e i res p, worker_finished_now)
unfolding end_worker
end_worker-Finished e i res p h =
    let q = finish_worker e i res p in
    let (a, v) = finish_worker-Finished e i res p h in
    let (b, s) = stop_worker_tailers-steps e i q in
    (
      OnlyAt-trans i p q (stop_worker_tailers e i q) a b,
      ap (λ m. is_terminal_step (worker_at m i).phase) s ∙ v,
    )

-- A worker that ends in error without a result.
pub error_worker-Finished :
    (e : ParallelEnv) (i : ℕ) (msg : Str) (p : ParallelPass)
    → OnlyAt i p (finish_worker e i (error_result msg) p)
      × Verdicted (finish_worker e i (error_result msg) p).steps i
unfolding is_terminal_phase
error_worker-Finished e i msg p = finish_worker-Finished e i (error_result msg) p refl
