-- ===== src/Retention/Pass.antt =====
-- internal/retention/retention.go: one pass over the partitions, and internal/store/partition.go: which
-- of them are old.
use kubetest_alt.Base.{
  ℕ, suc, ◌+◌, ◌-◌, Bool, true, false, not, ◌&&◌, ◌||◌, Option, none, some, List, [], ◌∷◌, Str, leb,
  ◌==◌, if◌then◌else◌, keep_if,
}
use kubetest_alt.Api.{Time}
use kubetest_alt.Strings.{strip_prefix}
use kubetest_alt.Storage.Keys.{for_run, is_blank}

-- `Partition`.
pub record Partition : Type 0 where
  pub name : Str
  pub start : Time
  pub end : Time

-- `RunRef`.
pub record RunRef : Type 0 where
  pub namespace : Str
  pub uid : Str

-- `PartitionsToDrop`. A cutoff before the first instant counts as that instant, and no partition ends
-- there.
unfoldable pub partitions_to_drop : List Partition → Time → ℕ → List Partition
partitions_to_drop existing now retention = keep_if (λ p. leb p.end (now - retention)) existing

-- What the store and the object storage answer in one pass. `objects_configured` is the test of
-- `j.Objects` and `j.Bucket`, and `survives` the objects that a failed removal leaves.
pub record RetentionEnv : Type 0 where
  pub now : Time
  pub retention : ℕ
  pub objects_configured : Bool
  pub existing : Option (List Partition)
  pub runs_in : Str → Option (List RunRef)
  pub remove_ok : Str → Bool
  pub survives : Str → Bool
  pub drop_ok : Str → Bool
  pub prune_audit : Option ℕ

-- The keys of the objects in the bucket, and the partitions that were dropped in this pass.
pub record RetentionState : Type 0 where
  pub objects : List Str
  pub dropped : List Partition

unfoldable pub has_prefix : Str → Str → Bool
unfolding strip_prefix
has_prefix p key = elim (strip_prefix p key) [ some _ ↦ true | none ↦ false ]

-- `RemovePrefix` where it succeeds.
unfoldable pub remove_prefix : Str → List Str → List Str
unfolding has_prefix
remove_prefix p keys = keep_if (λ key. not (has_prefix p key)) keys

-- `RemovePrefix` where it fails.
unfoldable pub remove_some : RetentionEnv → Str → List Str → List Str
unfolding has_prefix
remove_some e p keys = keep_if (λ key. not (has_prefix p key) || e.survives key) keys

-- The loop of `dropPartition` over the runs: the objects that are left, how many runs were done, and
-- whether all of them were.
unfoldable pub remove_runs : RetentionEnv → List RunRef → List Str → List Str × ℕ × Bool
unfolding remove_prefix remove_some
remove_runs e [] objects = (objects, 0, true)
remove_runs e (r ∷ rs) objects =
    let k = for_run r.namespace r.uid in
    let skipped = remove_runs e rs objects in
    let removed = remove_runs e rs (remove_prefix k objects) in
    if is_blank k
    then (skipped.0, suc skipped.1, skipped.2)
    else if e.remove_ok k
    then (removed.0, suc removed.1, removed.2)
    else (remove_some e k objects, 0, false)

-- `DropPartitions` of one partition, once the objects of so many runs are removed.
unfoldable pub drop_rows : RetentionEnv → Partition → ℕ → RetentionState → RetentionState × ℕ × Bool
drop_rows e part n s =
    if e.drop_ok part.name
    then (record s { dropped = part ∷ s.dropped }, n, true)
    else (s, n, false)

-- `dropPartition` past the removal of the objects.
unfoldable pub after_objects :
    RetentionEnv → Partition → RetentionState → List Str × ℕ × Bool → RetentionState × ℕ × Bool
unfolding drop_rows
after_objects e part s (objects, n, true) = drop_rows e part n (record s { objects = objects })
after_objects e part s (objects, n, false) = (record s { objects = objects }, n, false)

unfoldable pub after_runs :
    RetentionEnv → Partition → RetentionState → Option (List RunRef) → RetentionState × ℕ × Bool
unfolding after_objects remove_runs
after_runs e part s none = (s, 0, false)
after_runs e part s (some runs) = after_objects e part s (remove_runs e runs s.objects)

-- `dropPartition`.
unfoldable pub drop_partition :
    RetentionEnv → Partition → RetentionState → RetentionState × ℕ × Bool
unfolding after_runs
drop_partition e part s =
    if e.objects_configured then after_runs e part s (e.runs_in part.name) else drop_rows e part 0 s

-- The loop of `RunOnce`: the state, the runs that were removed, and whether no partition failed.
unfoldable pub drop_all : RetentionEnv → List Partition → RetentionState → RetentionState × ℕ × Bool
unfolding drop_partition
drop_all e [] s = (s, 0, true)
drop_all e (part ∷ parts) s =
    let (s1, n, ok) = drop_partition e part s in
    let (s2, m, rest) = drop_all e parts s1 in (s2, n + m, ok && rest)

-- `Result`, with the partitions in the order in which they were dropped, the last one first.
pub record RetentionResult : Type 0 where
  pub state : RetentionState
  pub removed_runs : ℕ
  pub pruned_audit : ℕ
  pub ok : Bool

unfoldable pub pruned : Option ℕ → RetentionState × ℕ × Bool → RetentionResult
pruned answer (s, n, ok) = record {
  state = s;
  removed_runs = n;
  pruned_audit = elim answer [ some m ↦ m | none ↦ 0 ];
  ok = elim answer [ some m ↦ ok | none ↦ false ];
}

-- `RunOnce` past its first checks.
unfoldable pub run_listed : RetentionEnv → List Partition → List Str → RetentionResult
unfolding drop_all partitions_to_drop pruned
run_listed e existing objects = pruned e.prune_audit (
    drop_all e (partitions_to_drop existing e.now e.retention)
      (record { objects = objects; dropped = [] }))

abbrev nothing_done : List Str → RetentionResult
nothing_done objects = record {
  state = record { objects = objects; dropped = [] };
  removed_runs = 0;
  pruned_audit = 0;
  ok = false;
}

unfoldable pub run_existing : RetentionEnv → List Str → Option (List Partition) → RetentionResult
unfolding run_listed
run_existing e objects none = nothing_done objects
run_existing e objects (some existing) = run_listed e existing objects

-- `RunOnce`.
unfoldable pub run_once : RetentionEnv → List Str → RetentionResult
unfolding run_existing
run_once e objects =
    if e.retention == 0 then nothing_done objects else run_existing e objects e.existing
