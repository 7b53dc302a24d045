-- ===== src/Parallel/Sweeps.antt =====
-- internal/controller/parallel.go: what the loop over the workers leaves behind.
use kubetest_alt.Base.{
  ℕ, ◌≤◌, ◌≡◌, refl, sym, ap, ◌∙◌, ◌⊎◌, inl, inr, Bool, true, false, none, some, List, [], ◌∷◌,
  length, All, Any, Bool-cases, if_both, arith, ◌==◌, if◌then◌else◌,
}
use kubetest_alt.Controller.Phases.{Job}
use kubetest_alt.Parallel.Workers.{Worker}
use kubetest_alt.Parallel.World.{worker_at, ParallelEnv, ParallelPass, set_job, is_terminal_step}
use kubetest_alt.Parallel.Round.{reconcile_worker}
use kubetest_alt.Parallel.Creation.{
  WorkerEnd, worker_finished, worker_finished_now, worker_going, worker_error,
}
use kubetest_alt.Parallel.Pass.{delete_worker_jobs}
use kubetest_alt.Parallel.Loop.{Swept, sweep_error, swept, count_finished, after_worker, sweep}
use kubetest_alt.Parallel.Frames.{Verdicted, OnlyAt, Rounded, FinalResults}
use kubetest_alt.Parallel.Rounds.{reconcile_worker-Rounded}

-- The pass goes on from the first to the second: a worker with a verdict keeps its step, and Jobs may
-- be added.
abbrev pub Settles : ParallelPass → ParallelPass → Type 0
Settles p q =
    (q.run ≡ p.run)
    × (q.world ≡ p.world)
    × (q.stored_steps ≡ p.stored_steps)
    × ((j : ℕ) → Verdicted p.steps j → worker_at q.steps j ≡ worker_at p.steps j)
    × ((j : ℕ) (job : Job) → p.jobs j ≡ some job → q.jobs j ≡ some job)

pub Verdicted-kept :
    (p q : ParallelPass) (j : ℕ) → Settles p q → Verdicted p.steps j → Verdicted q.steps j
Verdicted-kept p q j (a, b, c, d, f) v = ap (λ s. is_terminal_step s.phase) (d j v) ∙ v

Settles-trans : (p q r : ParallelPass) → Settles p q → Settles q r → Settles p r
Settles-trans p q r (a, b, c, d, f) (a2, b2, c2, d2, f2) = (
  a2 ∙ a,
  b2 ∙ b,
  c2 ∙ c,
  λ j v. d2 j (Verdicted-kept p q j (a, b, c, d, f) v) ∙ d j v,
  λ j job h. f2 j job (f j job h),
)

OnlyAt-Settles :
    (i : ℕ) (p q : ParallelPass)
    → OnlyAt i p q
    → (Verdicted p.steps i → q.steps ≡ p.steps)
    → Settles p q
OnlyAt-Settles i p q (a, b, c, d, f) h = (
  a,
  b,
  c,
  λ j v. elim (Bool-cases (j == i)) [
    | inl t ↦
        let same : j ≡ i = ground (arith, t) in
        ap (λ m. worker_at m j)
          (h (ap (λ k. is_terminal_step (worker_at p.steps k).phase) (sym same) ∙ v))
    | inr n ↦ d j (ground (arith, n))
  ],
  f,
)

-- What the loop over the workers comes to: those whose Jobs are to be deleted have verdicts, and all
-- have where as many as there are have finished.
abbrev pub SweptRight : List Worker → ParallelPass → ParallelPass × Swept → Type 0
SweptRight ws p (q, sweep_error) = Settles p q
SweptRight ws p (q, swept n jobs) =
    Settles p q
    × All (Verdicted q.steps) jobs
    × (n ≤ length ws)
    × (n ≡ length ws → All (λ w. Verdicted q.steps w.index) ws)

-- The loop goes on past a worker that has not finished.
going_on :
    (w : Worker) (ws : List Worker) (p q : ParallelPass) (r : ParallelPass × Swept)
    → Settles p q
    → SweptRight ws q r
    → SweptRight (w ∷ ws) p r
going_on w ws p q (t, sweep_error) s h = Settles-trans p q t s h
going_on w ws p q (t, swept n jobs) s (k, v, l, a) =
    (Settles-trans p q t s k, v, omega (arith, l), λ m. absurd (omega (arith, l, m)))

-- It goes on past one that has.
finished_one :
    (b : Bool) (w : Worker) (ws : List Worker) (p q : ParallelPass) (r : ParallelPass × Swept)
    → Settles p q
    → Verdicted q.steps w.index
    → SweptRight ws q r
    → SweptRight (w ∷ ws) p (count_finished b w.index r)
finished_one b w ws p q (t, sweep_error) s v h = Settles-trans p q t s h
finished_one true w ws p q (t, swept n jobs) s v (k, js, l, a) =
    let here = Verdicted-kept q t w.index k v in
    (Settles-trans p q t s k, (here, js), omega (arith, l), λ m. (here, a (omega (arith, m))))
finished_one false w ws p q (t, swept n jobs) s v (k, js, l, a) =
    let here = Verdicted-kept q t w.index k v in
    (Settles-trans p q t s k, js, omega (arith, l), λ m. (here, a (omega (arith, m))))

after_worker-SweptRight :
    (next : ParallelPass → ParallelPass × Swept) (w : Worker) (ws : List Worker) (p : ParallelPass)
    (r : ParallelPass × WorkerEnd)
    → ((q : ParallelPass) → SweptRight ws q (next q))
    → Rounded w.index p r
    → Settles p r.0
    → SweptRight (w ∷ ws) p (after_worker next w.index r)
after_worker-SweptRight next w ws p (q, worker_error) h (k, m) s = s
after_worker-SweptRight next w ws p (q, worker_going) h (k, m) s =
    going_on w ws p q (next q) s (h q)
after_worker-SweptRight next w ws p (q, worker_finished) h (k, m) s =
    finished_one false w ws p q (next q) s m (h q)
after_worker-SweptRight next w ws p (q, worker_finished_now) h (k, m) s =
    finished_one true w ws p q (next q) s m (h q)

pub sweep-SweptRight :
    (e : ParallelEnv) (ws : List Worker) (p : ParallelPass)
    → FinalResults e
    → SweptRight ws p (sweep e ws p)
unfolding sweep
sweep-SweptRight e [] p f =
    ((refl, refl, refl, λ j v. refl, λ j job h. h), tt, omega arith, λ m. tt)
sweep-SweptRight e (w ∷ ws) p f =
    let r = reconcile_worker e w p in
    let (k, s) = reconcile_worker-Rounded e w p f in
    after_worker-SweptRight (sweep e ws) w ws p r (λ q. sweep-SweptRight e ws q f) k
      (OnlyAt-Settles w.index p r.0 k.0 s)

-- The pass but for its Jobs.
abbrev pub OnlyJobs : List ℕ → ParallelPass → ParallelPass → Type 0
OnlyJobs is p q =
    (q.world ≡ p.world)
    × (q.stored_steps ≡ p.stored_steps)
    × ((j : ℕ) → (q.jobs j ≡ p.jobs j) ⊎ Any (λ i. i ≡ j) is)

drop_job-OnlyJobs :
    (e : ParallelEnv) (i : ℕ) (is : List ℕ) (p : ParallelPass)
    → OnlyJobs (i ∷ is) p (if e.delete_ok i then record p { jobs = set_job i none p.jobs } else p)
unfolding set_job
drop_job-OnlyJobs e i is p =
    if_both (OnlyJobs (i ∷ is) p) (e.delete_ok i)
      (
        refl,
        refl,
        λ j. elim (Bool-cases (j == i)) [
          | inl t ↦ inr (inl (ground (arith, t)))
          | inr n ↦ inl (rw n refl)
        ],
      )
      (refl, refl, λ j. inl refl)

OnlyJobs-trans :
    (i : ℕ) (is : List ℕ) (p q r : ParallelPass)
    → OnlyJobs (i ∷ is) p q
    → OnlyJobs is q r
    → OnlyJobs (i ∷ is) p r
OnlyJobs-trans i is p q r (a, b, c) (a2, b2, c2) = (
  a2 ∙ a,
  b2 ∙ b,
  λ j. elim (c2 j) [
    | inr m ↦ inr (inr m)
    | inl k ↦ elim (c j) [ inl l ↦ inl (k ∙ l) | inr m ↦ inr m ]
  ],
)

pub delete_worker_jobs-OnlyJobs :
    (e : ParallelEnv) (is : List ℕ) (p : ParallelPass) → OnlyJobs is p (delete_worker_jobs e is p)
unfolding delete_worker_jobs
delete_worker_jobs-OnlyJobs e [] p = (refl, refl, λ j. inl refl)
delete_worker_jobs-OnlyJobs e (i ∷ is) p =
    let q = if e.delete_ok i then record p { jobs = set_job i none p.jobs } else p in
    OnlyJobs-trans i is p q (delete_worker_jobs e is q) (drop_job-OnlyJobs e i is p)
      (delete_worker_jobs-OnlyJobs e is q)
