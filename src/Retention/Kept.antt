-- ===== src/Retention/Kept.antt =====
-- internal/retention/retention.go: the objects that a pass leaves alone.
use mathlib.Core.Path.{subst}
use kubetest_alt.Base.{
  ℕ, ◌≡◌, ◌≢◌, refl, sym, ap, ◌∙◌, ◌⊎◌, inl, inr, Bool, true, false, not, ◌||◌, Option, none, some,
  List, [], ◌∷◌, ◌++◌, Str, All, Any, ◌==◌, keep_if, Bool-cases, Option-cases, if_both, arith,
}
use kubetest_alt.Strings.{strip_prefix}
use kubetest_alt.Strings.Splits.{strip_prefix-some}
use kubetest_alt.Storage.Keys.{for_run, is_blank}
use kubetest_alt.Storage.RoundTrip.{IsSegment}
use kubetest_alt.Storage.Apart.{for_run-apart}
use kubetest_alt.Retention.Pass.{
  Partition, RunRef, RetentionEnv, RetentionState, RetentionResult, partitions_to_drop, has_prefix,
  remove_prefix, remove_some, remove_runs, drop_rows, after_objects, after_runs, drop_partition,
  drop_all, pruned, run_listed, run_existing, run_once,
}

abbrev pub Member : Str → List Str → Type 0
Member k xs = Any (λ x. x ≡ k) xs

keep_if-Member :
    (f : Str → Bool) (k : Str) (xs : List Str) → f k ≡ true → Member k xs → Member k (keep_if f xs)
unfolding keep_if
keep_if-Member f k [] t m = absurd m
keep_if-Member f k (x ∷ xs) t (inl e) = let g : f x ≡ true = ap f e ∙ t in rw (g, keep_if) (inl e)
keep_if-Member f k (x ∷ xs) t (inr m) = elim (Bool-cases (f x)) [
  | inl g ↦ rw (g, keep_if) (inr (keep_if-Member f k xs t m))
  | inr g ↦ rw (g, keep_if) (keep_if-Member f k xs t m)
]

-- The object is not one of the run's.
abbrev NotOf : Str → RunRef → Type 0
NotOf k r = has_prefix (for_run r.namespace r.uid) k ≡ false

remove_runs-Member :
    (e : RetentionEnv) (k : Str) (rs : List RunRef) (xs : List Str)
    → All (NotOf k) rs
    → Member k xs
    → Member k (remove_runs e rs xs).0
unfolding remove_runs remove_prefix remove_some
remove_runs-Member e k [] xs h m = m
remove_runs-Member e k (r ∷ rs) xs h m =
    let p = for_run r.namespace r.uid in
    if_both (λ (t : List Str × ℕ × Bool). Member k t.0) (is_blank p)
      (remove_runs-Member e k rs xs h.1 m)
      (if_both (λ (t : List Str × ℕ × Bool). Member k t.0) (e.remove_ok p)
        (remove_runs-Member e k rs (remove_prefix p xs) h.1
          (keep_if-Member (λ key. not (has_prefix p key)) k xs (ap not h.0) m))
        (keep_if-Member (λ key. not (has_prefix p key) || e.survives key) k xs
          (ap (λ b. not b || e.survives k) h.0) m))

-- The store lists no run of the partition that has the object.
abbrev Spared : RetentionEnv → Str → Partition → Type 0
Spared e k part = (runs : List RunRef) → e.runs_in part.name ≡ some runs → All (NotOf k) runs

drop_rows-objects :
    (e : RetentionEnv) (part : Partition) (n : ℕ) (s : RetentionState)
    → (drop_rows e part n s).0.objects ≡ s.objects
unfolding drop_rows
drop_rows-objects e part n s = ground arith

after_objects-Member :
    (e : RetentionEnv) (k : Str) (part : Partition) (s : RetentionState) (r : List Str × ℕ × Bool)
    → Member k r.0
    → Member k (after_objects e part s r).0.objects
unfolding after_objects
after_objects-Member e k part s (xs, n, true) m =
    subst (Member k) (sym (drop_rows-objects e part n (record s { objects = xs }))) m
after_objects-Member e k part s (xs, n, false) m = m

after_runs-Member :
    (e : RetentionEnv) (k : Str) (part : Partition) (s : RetentionState) (o : Option (List RunRef))
    → e.runs_in part.name ≡ o
    → Spared e k part
    → Member k s.objects
    → Member k (after_runs e part s o).0.objects
unfolding after_runs
after_runs-Member e k part s none l h m = m
after_runs-Member e k part s (some runs) l h m =
    after_objects-Member e k part s (remove_runs e runs s.objects)
      (remove_runs-Member e k runs s.objects (h runs l) m)

drop_partition-Member :
    (e : RetentionEnv) (k : Str) (part : Partition) (s : RetentionState)
    → Spared e k part
    → Member k s.objects
    → Member k (drop_partition e part s).0.objects
unfolding drop_partition
drop_partition-Member e k part s h m =
    if_both (λ (r : RetentionState × ℕ × Bool). Member k r.0.objects) e.objects_configured
      (after_runs-Member e k part s (e.runs_in part.name) refl h m)
      (subst (Member k) (sym (drop_rows-objects e part 0 s)) m)

drop_all-Member :
    (e : RetentionEnv) (k : Str) (parts : List Partition) (s : RetentionState)
    → All (Spared e k) parts
    → Member k s.objects
    → Member k (drop_all e parts s).0.objects
unfolding drop_all
drop_all-Member e k [] s h m = m
drop_all-Member e k (p ∷ ps) s h m =
    drop_all-Member e k ps (drop_partition e p s).0 h.1 (drop_partition-Member e k p s h.0 m)

-- The run is another one.
abbrev pub Another : Str → Str → RunRef → Type 0
Another namespace uid r =
    IsSegment r.namespace × IsSegment r.uid × ((r.namespace ≢ namespace) ⊎ (r.uid ≢ uid))

Another-NotOf :
    (namespace uid key : Str) (r : RunRef)
    → IsSegment namespace
    → IsSegment uid
    → Another namespace uid r
    → NotOf (for_run namespace uid ++ key) r
unfolding has_prefix
Another-NotOf namespace uid key r h k (h', k', d) =
    let object = for_run namespace uid ++ key in
    elim (Option-cases (strip_prefix (for_run r.namespace r.uid) object)) [
      | inl n ↦ ground (arith, n)
      | inr (rest, n) ↦
          let same =
            for_run-apart r.namespace r.uid namespace uid rest key h' k' h k
              (sym (strip_prefix-some (for_run r.namespace r.uid) object rest n)) in
          absurd (ground (arith, same, d))
    ]

All-NotOf :
    (namespace uid key : Str) (rs : List RunRef)
    → IsSegment namespace
    → IsSegment uid
    → All (Another namespace uid) rs
    → All (NotOf (for_run namespace uid ++ key)) rs
All-NotOf namespace uid key [] h k a = tt
All-NotOf namespace uid key (r ∷ rs) h k a =
    (Another-NotOf namespace uid key r h k a.0, All-NotOf namespace uid key rs h k a.1)

-- The store lists only other runs in the partition.
abbrev pub ListsOthers : RetentionEnv → Str → Str → Partition → Type 0
ListsOthers e namespace uid part =
    (runs : List RunRef) → e.runs_in part.name ≡ some runs → All (Another namespace uid) runs

All-Spared :
    (e : RetentionEnv) (namespace uid key : Str) (ps : List Partition)
    → IsSegment namespace
    → IsSegment uid
    → All (ListsOthers e namespace uid) ps
    → All (Spared e (for_run namespace uid ++ key)) ps
All-Spared e namespace uid key [] h k a = tt
All-Spared e namespace uid key (p ∷ ps) h k a = (
  λ runs l. All-NotOf namespace uid key runs h k (a.0 runs l),
  All-Spared e namespace uid key ps h k a.1,
)

-- A pass leaves every object of a run that no old partition lists, whatever fails in it.
pub run_once-Member :
    (e : RetentionEnv) (existing : List Partition) (objects : List Str) (namespace uid key : Str)
    → e.existing ≡ some existing
    → IsSegment namespace
    → IsSegment uid
    → All (ListsOthers e namespace uid) (partitions_to_drop existing e.now e.retention)
    → Member (for_run namespace uid ++ key) objects
    → Member (for_run namespace uid ++ key) (run_once e objects).state.objects
unfolding run_once run_existing run_listed pruned
run_once-Member e existing objects namespace uid key l h k a m =
    if_both (λ (r : RetentionResult). Member (for_run namespace uid ++ key) r.state.objects)
      (e.retention == 0) m
      (subst (λ o. Member (for_run namespace uid ++ key) (run_existing e objects o).state.objects)
        (sym l)
        (drop_all-Member e (for_run namespace uid ++ key)
          (partitions_to_drop existing e.now e.retention)
          (record { objects = objects; dropped = [] })
          (All-Spared e namespace uid key (partitions_to_drop existing e.now e.retention) h k a) m))
