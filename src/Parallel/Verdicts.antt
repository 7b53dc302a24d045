-- ===== src/Parallel/Verdicts.antt =====
-- internal/controller/parallel.go: what the verdicts of the workers make of their run.
use kubetest_alt.Base.{ℕ, zero, suc, ◌≡◌, ◌↔◌, refl, true, arith}
use kubetest_alt.Api.{Phase, StepPhase}
use kubetest_alt.Parallel.World.{WorkerMap, worker_at, is_terminal_step}
use kubetest_alt.Parallel.Loop.{Bad, count_bad, bad_workers, aggregate_workers}

-- No error, no failure.
abbrev AllGood : WorkerMap → ℕ → Type 0
AllGood steps n = ((bad_workers steps n).errs ≡ 0) × ((bad_workers steps n).fails ≡ 0)

count_bad-passed :
    (p : StepPhase) (b : Bad)
    → is_terminal_step p ≡ true
    → (((count_bad p b).errs ≡ 0) × ((count_bad p b).fails ≡ 0))
      ↔ ((p ≡ StepPhase.passed) × (b.errs ≡ 0) × (b.fails ≡ 0))
unfolding count_bad is_terminal_step
count_bad-passed p b h = ground (arith, h)

-- All of the first workers have passed.
abbrev pub AllPassed : WorkerMap → ℕ → Type 0
AllPassed steps zero = Unit
AllPassed steps (suc n) = ((worker_at steps n).phase ≡ StepPhase.passed) × AllPassed steps n

-- All of the first workers have a verdict.
abbrev pub AllOver : WorkerMap → ℕ → Type 0
AllOver steps zero = Unit
AllOver steps (suc n) = (is_terminal_step (worker_at steps n).phase ≡ true) × AllOver steps n

bad_workers-passed :
    (steps : WorkerMap) (n : ℕ) → AllOver steps n → AllGood steps n ↔ AllPassed steps n
unfolding bad_workers
bad_workers-passed steps zero h = (λ _. tt, λ _. (refl, refl))
bad_workers-passed steps (suc n) (h, hs) =
    let c = count_bad-passed (worker_at steps n).phase (bad_workers steps n) h in
    let ih = bad_workers-passed steps n hs in
    (λ g. let r = c.0 g in (r.0, ih.0 (r.1, r.2)), λ k. let j = ih.1 k.1 in c.1 (k.0, j.0, j.1))

aggregate_workers-good :
    (steps : WorkerMap) (n : ℕ) → ((aggregate_workers steps n).0 ≡ Phase.passed) ↔ AllGood steps n
unfolding aggregate_workers
aggregate_workers-good steps n = ground arith

pub aggregate_workers_iff :
    (steps : WorkerMap) (n : ℕ)
    → AllOver steps n
    → ((aggregate_workers steps n).0 ≡ Phase.passed) ↔ AllPassed steps n
aggregate_workers_iff steps n h =
    let a = aggregate_workers-good steps n in
    let b = bad_workers-passed steps n h in (λ x. b.0 (a.0 x), λ y. a.1 (b.1 y))
