-- ===== src/Parallel/Creations.antt =====
-- internal/controller/parallel.go: what the creation of a worker leaves.
use kubetest_alt.Base.{
  ◌≡◌, refl, ap, ◌∙◌, inl, inr, ◌&&◌, Option, none, Str, if_both, Bool-cases, Option-cases, arith,
  ◌==◌, is_there,
}
use kubetest_alt.Controller.Phases.{Job}
use kubetest_alt.Controller.State.{
  CompileAnswer, compiled, compile_failed, CreateAnswer, created, already_exists, create_failed,
  invalid,
}
use kubetest_alt.Parallel.Workers.{Worker}
use kubetest_alt.Parallel.World.{worker_at, ParallelEnv, ParallelPass, set_job}
use kubetest_alt.Parallel.Round.{lost_worker, worker_missing, is_unset_step}
use kubetest_alt.Parallel.Creation.{started_worker, queued_step, create_compiled, create_worker}
use kubetest_alt.Parallel.Frames.{
  worker_at-put_worker_other, OnlyAt, OnlyAt-refl, put_worker-OnlyAt, Rounded,
  error_worker-Finished,
}

pub started_worker-OnlyAt :
    (e : ParallelEnv) (w : Worker) (name : Str) (p : ParallelPass)
    → OnlyAt w.index p (started_worker e w name p)
unfolding started_worker set_job
started_worker-OnlyAt e w name p = (
  refl,
  refl,
  refl,
  λ j n. worker_at-put_worker_other p.steps w.index j (queued_step e p.run w) n,
  λ j job h. elim (Option-cases (p.jobs w.index)) [
    | inr (x, o) ↦ rw o h
    | inl o ↦ elim (Bool-cases (j == w.index)) [
      | inr f ↦ rw (o, f) h
      | inl t ↦
          let same : j ≡ w.index = ground (arith, t) in
          let gone : p.jobs j ≡ none = ap p.jobs same ∙ o in absurd (ground (arith, gone, h))
    ]
  ],
)

pub create_compiled-Rounded :
    (e : ParallelEnv) (w : Worker) (name : Str) (a : CreateAnswer) (p : ParallelPass)
    → Rounded w.index p (create_compiled e w name a p)
unfolding create_compiled
create_compiled-Rounded e w name created p = (started_worker-OnlyAt e w name p, tt)
create_compiled-Rounded e w name already_exists p =
    (put_worker-OnlyAt w.index p (queued_step e p.run w), tt)
create_compiled-Rounded e w name create_failed p = (OnlyAt-refl w.index p, tt)
create_compiled-Rounded e w name (invalid msg) p = ((error_worker-Finished e w.index _ p).0, tt)

pub create_worker-Rounded :
    (e : ParallelEnv) (w : Worker) (c : CompileAnswer) (p : ParallelPass)
    → Rounded w.index p (create_worker e w c p)
unfolding create_worker
create_worker-Rounded e w (compile_failed msg) p = ((error_worker-Finished e w.index _ p).0, tt)
create_worker-Rounded e w (compiled name) p =
    if_both (Rounded w.index p) (e.create_aux_ok w.index)
      (create_compiled-Rounded e w name (e.create w.index) p) (OnlyAt-refl w.index p, tt)

pub worker_missing-Rounded :
    (e : ParallelEnv) (w : Worker) (job : Option Job) (p : ParallelPass)
    → Rounded w.index p (worker_missing e w job p)
unfolding worker_missing lost_worker
worker_missing-Rounded e w job p =
    if_both (Rounded w.index p) (is_unset_step (worker_at p.steps w.index).phase)
      (create_worker-Rounded e w (e.compile w.index) p)
      (if_both (Rounded w.index p)
        (e.base.has_api_reader && (e.live_get_ok w.index && is_there job))
        (OnlyAt-refl w.index p, tt) (error_worker-Finished e w.index _ p))
