-- ===== src/Parallel/Rounds.antt =====
-- internal/controller/parallel.go: what the round of a worker leaves alone, and what it leaves behind.
use mathlib.Core.Path.{subst}
use kubetest_alt.Base.{
  if◌then◌else◌, ◌++◌, codes, ℕ, ◌≡◌, refl, inl, inr, true, not, Option, none, some, if_both,
  if_cases, Bool-cases, Option-cases, arith,
}
use kubetest_alt.Controller.Phases.{
  Job, Pod, ContainerStateTerminated, is_terminal_phase, reason_text, JobConclusion,
  job_still_running, job_succeeded, job_failed_conclusion, inspect_job,
}
use kubetest_alt.Controller.Infra.{
  analyze_pod, fallback_phase_from_job_failure, is_pod_running, wrapper_terminated,
}
use kubetest_alt.Controller.Derivation.{is_empty}
use kubetest_alt.Controller.State.{GetAnswer, get_ok, get_lagging, get_failed}
use kubetest_alt.Parallel.Workers.{Worker}
use kubetest_alt.Parallel.World.{
  worker_at, put_worker, WorkerResult, WorkerAnswer, worker_read, worker_nil, worker_not_found,
  worker_transient, worker_malformed, ParallelEnv, ParallelPass, error_result, end_worker,
  is_terminal_step,
}
use kubetest_alt.Parallel.Round.{
  tail_fetch, show_worker_stages, fallback_result, result_or, left_result, worker_result,
  worker_ended, worker_running, judge_job, inspect_worker, found_worker, reconcile_worker,
}
use kubetest_alt.Parallel.Creation.{worker_finished_now, worker_stages}
use kubetest_alt.Parallel.Frames.{
  worker_at-put_worker_other, Verdicted, OnlyAt, OnlyAt-refl, OnlyAt-trans, put_worker-OnlyAt,
  Rounded, Rounded-trans, FinalResults, end_worker-Finished,
}
use kubetest_alt.Parallel.Creations.{worker_missing-Rounded}

tail_fetch-OnlyAt :
    (e : ParallelEnv) (i : ℕ) (pod : Option Pod) (p : ParallelPass)
    → OnlyAt i p (tail_fetch e i pod p)
unfolding tail_fetch
tail_fetch-OnlyAt e i none p = OnlyAt-refl i p
tail_fetch-OnlyAt e i (some pod) p =
    if_both (OnlyAt i p) _ (refl, refl, refl, λ j n. refl, λ j job h. h) (OnlyAt-refl i p)

show_worker_stages-OnlyAt :
    (e : ParallelEnv) (i : ℕ) (p : ParallelPass) → OnlyAt i p (show_worker_stages e i p)
unfolding show_worker_stages
show_worker_stages-OnlyAt e i p = if_both (OnlyAt i p) _ (put_worker-OnlyAt i p _) (OnlyAt-refl i p)

fallback_result-final :
    (job : Job) (pod : Option Pod) → is_terminal_phase (fallback_result job pod).result.phase ≡ true
unfolding fallback_result fallback_phase_from_job_failure is_terminal_phase
fallback_result-final job pod = ground arith

-- What is left where no result is stored is of a final phase.
left_result-final :
    (e : ParallelEnv) (r : WorkerResult) (t : Option ContainerStateTerminated)
    → FinalResults e
    → is_terminal_phase r.result.phase ≡ true
    → is_terminal_phase (left_result e r t).result.phase ≡ true
unfolding left_result
left_result-final e r none f h = h
left_result-final e r (some t) f h = elim (Option-cases (e.parse_summary t.message)) [
  | inl n ↦ rw (n, result_or) h
  | inr (res, o) ↦ rw (o, result_or) (f.summary_final t.message res o)
]

worker_ended-Rounded :
    (e : ParallelEnv) (i : ℕ) (o : Option WorkerResult) (p : ParallelPass)
    → ((res : WorkerResult) → o ≡ some res → is_terminal_phase res.result.phase ≡ true)
    → Rounded i p (worker_ended e i o p)
unfolding worker_ended
worker_ended-Rounded e i none p h = (OnlyAt-refl i p, tt)
worker_ended-Rounded e i (some res) p h =
    let step = worker_at p.steps i in
    let stages = worker_stages p.run step (e.pod i) (some res.result) in
    let q : ParallelPass = record p {
      steps = put_worker p.steps i (record step { stages = stages });
    } in
    Rounded-trans i p q (end_worker e i res q, worker_finished_now)
      (put_worker-OnlyAt i p (record step { stages = stages }))
      (end_worker-Finished e i res q (h res refl))

worker_running-Rounded :
    (e : ParallelEnv) (i : ℕ) (p : ParallelPass) → Rounded i p (worker_running e i p)
unfolding worker_running
worker_running-Rounded e i p =
    if_both (Rounded i p) (is_pod_running (e.pod i))
      ((refl, refl, refl, λ j n. worker_at-put_worker_other p.steps i j _ n, λ j job h. h), tt)
      (OnlyAt-refl i p, tt)

left_over-final :
    (e : ParallelEnv) (i : ℕ) (job : Job) (res : WorkerResult)
    → FinalResults e
    → some (left_result e (fallback_result job (e.pod i)) (wrapper_terminated (e.pod i))) ≡ some res
    → is_terminal_phase res.result.phase ≡ true
left_over-final e i job res f k =
    let r = left_result e (fallback_result job (e.pod i)) (wrapper_terminated (e.pod i)) in
    let same : r ≡ res = cc in
    subst (λ (x : WorkerResult). is_terminal_phase x.result.phase ≡ true) same
      (left_result-final e (fallback_result job (e.pod i)) (wrapper_terminated (e.pod i)) f
        (fallback_result-final job (e.pod i)))

-- What `workerResult` gives is of a final phase.
worker_result-final :
    (e : ParallelEnv) (i : ℕ) (job : Job) (a : WorkerAnswer) (res : WorkerResult)
    → FinalResults e
    → ((r : WorkerResult) → a ≡ worker_read r → is_terminal_phase r.result.phase ≡ true)
    → worker_result e i job a ≡ some res
    → is_terminal_phase res.result.phase ≡ true
unfolding worker_result is_terminal_phase
worker_result-final e i job (worker_read r) res f h k =
    let same : r ≡ res = cc in
    subst (λ (x : WorkerResult). is_terminal_phase x.result.phase ≡ true) same (h r refl)
worker_result-final e i job (worker_malformed msg) res f h k = ground (arith, k)
worker_result-final e i job worker_nil res f h k = left_over-final e i job res f k
worker_result-final e i job worker_not_found res f h k = left_over-final e i job res f k
worker_result-final e i job worker_transient res f h k = ground (arith, k)

worker_answer-final :
    (e : ParallelEnv) (i : ℕ) (r : WorkerResult)
    → FinalResults e
    → (if e.can_read then e.result i else worker_not_found) ≡ worker_read r
    → is_terminal_phase r.result.phase ≡ true
worker_answer-final e i r f h = elim (Bool-cases e.can_read) [
  | inl t ↦ ground (arith, t, h, f.stored_final i r)
  | inr n ↦ ground (arith, n, h)
]

judge_ended-Rounded :
    (e : ParallelEnv) (i : ℕ) (job : Job) (p : ParallelPass)
    → FinalResults e
    → Rounded i p (
        worker_ended e i
          (worker_result e i job (if e.can_read then e.result i else worker_not_found))
          p)
judge_ended-Rounded e i job p f =
    let a = if e.can_read then e.result i else worker_not_found in
    worker_ended-Rounded e i (worker_result e i job a) p
      (λ res. worker_result-final e i job a res f (λ r. worker_answer-final e i r f))

judge_job-Rounded :
    (e : ParallelEnv) (i : ℕ) (job : Job) (c : JobConclusion) (p : ParallelPass)
    → FinalResults e
    → Rounded i p (judge_job e i job c p)
unfolding judge_job
judge_job-Rounded e i job job_still_running p f = worker_running-Rounded e i p
judge_job-Rounded e i job job_succeeded p f = judge_ended-Rounded e i job p f
judge_job-Rounded e i job job_failed_conclusion p f = judge_ended-Rounded e i job p f

inspect_worker-Rounded :
    (e : ParallelEnv) (w : Worker) (job : Job) (p : ParallelPass)
    → FinalResults e
    → Rounded w.index p (inspect_worker e w job p)
unfolding inspect_worker is_terminal_phase
inspect_worker-Rounded e w job p f =
    let i = w.index in
    let tailed = tail_fetch e i (e.pod i) p in
    let shown = show_worker_stages e i tailed in
    let infra = analyze_pod (e.pod i) e.base.now e.base.unschedulable_timeout in
    let r = error_result (reason_text infra.reason ++ (codes ": " ++ infra.message)) in
    if_both (Rounded i p) (not (is_empty (reason_text infra.reason)))
      (Rounded-trans i p shown (end_worker e i r shown, worker_finished_now)
        (OnlyAt-trans i p tailed shown (tail_fetch-OnlyAt e i (e.pod i) p)
          (show_worker_stages-OnlyAt e i tailed))
        (end_worker-Finished e i r shown refl))
      (Rounded-trans i p shown (judge_job e i job (inspect_job (some job)) shown)
        (OnlyAt-trans i p tailed shown (tail_fetch-OnlyAt e i (e.pod i) p)
          (show_worker_stages-OnlyAt e i tailed))
        (judge_job-Rounded e i job (inspect_job (some job)) shown f))

found_worker-Rounded :
    (e : ParallelEnv) (w : Worker) (g : GetAnswer) (job : Option Job) (p : ParallelPass)
    → FinalResults e
    → Rounded w.index p (found_worker e w g job p)
unfolding found_worker
found_worker-Rounded e w get_failed job p f = (OnlyAt-refl w.index p, tt)
found_worker-Rounded e w get_lagging job p f = worker_missing-Rounded e w job p
found_worker-Rounded e w get_ok none p f = worker_missing-Rounded e w none p
found_worker-Rounded e w get_ok (some job) p f = inspect_worker-Rounded e w job p f

-- A worker with a verdict is left as it is; the round of another touches its own step only, and where
-- it finishes the worker, the worker has a verdict.
pub reconcile_worker-Rounded :
    (e : ParallelEnv) (w : Worker) (p : ParallelPass)
    → FinalResults e
    → Rounded w.index p (reconcile_worker e w p)
      × (Verdicted p.steps w.index → (reconcile_worker e w p).0.steps ≡ p.steps)
unfolding reconcile_worker
reconcile_worker-Rounded e w p f =
    let i = w.index in
    if_cases (λ r. Rounded i p r × (Verdicted p.steps i → r.0.steps ≡ p.steps))
      (is_terminal_step (worker_at p.steps i).phase) (λ t. ((OnlyAt-refl i p, t), λ v. refl))
      (λ n.
        (found_worker-Rounded e w (e.get_job i) (p.jobs i) p f, λ v. absurd (ground (arith, n, v))))
