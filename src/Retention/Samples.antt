-- ===== src/Retention/Samples.antt =====
-- Partitions and objects on which the theorems of this part are tried out.
use mathlib.Core.Path.{subst}
use kubetest_alt.Base.{
  ◌≡◌, refl, inl, inr, true, some, List, [], ◌∷◌, ◌++◌, Str, codes, str_eq, All, arith,
  if◌then◌else◌, keep_if,
}
use kubetest_alt.Storage.Keys.{for_run}
use kubetest_alt.Retention.Pass.{
  Partition, RunRef, RetentionEnv, run_once, partitions_to_drop, has_prefix,
}
use kubetest_alt.Retention.Removed.{Sound, run_once-Sound}
use kubetest_alt.Retention.Kept.{Member, ListsOthers, Another, run_once-Member}

abbrev june : Partition
june = record { name = codes "test_runs_2026_06"; start = 10; end = 20 }

abbrev july : Partition
july = record { name = codes "test_runs_2026_07"; start = 20; end = 30 }

abbrev old_run : RunRef
old_run = record { namespace = codes "ci"; uid = codes "u1" }

abbrev env : RetentionEnv
env = record {
  now = 35;
  retention = 10;
  objects_configured = true;
  existing = some (june ∷ (july ∷ []));
  runs_in = λ name. if str_eq name june.name then some (old_run ∷ []) else some [];
  remove_ok = λ _. true;
  survives = λ _. true;
  drop_ok = λ _. true;
  prune_audit = some 0;
}

abbrev objects : List Str
objects = codes "runs/ci/u1/result.json" ∷ (codes "runs/ci/u2/result.json" ∷ [])

june_removed :
    (run_once env objects).state
    ≡ record { objects = codes "runs/ci/u2/result.json" ∷ []; dropped = june ∷ [] }
unfolding run_once has_prefix for_run str_eq keep_if partitions_to_drop
june_removed = refl

run_once-Sound_example : Sound env (run_once env objects).state
run_once-Sound_example = run_once-Sound env objects

run_once-Member_example :
    Member
      (for_run (codes "ci") (codes "u2") ++ codes "result.json")
      (run_once env objects).state.objects
unfolding str_eq partitions_to_drop keep_if for_run
run_once-Member_example =
    run_once-Member env (june ∷ (july ∷ [])) objects (codes "ci") (codes "u2") (codes "result.json")
      refl (ground arith) (ground arith) (listed, tt) (inr (inl refl))
  where
    listed : ListsOthers env (codes "ci") (codes "u2") june
    listed runs l =
        let same : old_run ∷ [] ≡ runs = ground (arith, l) in
        subst (All (Another (codes "ci") (codes "u2"))) same
          ((ground arith, ground arith, inr (λ e. ground (arith, e))), tt)
