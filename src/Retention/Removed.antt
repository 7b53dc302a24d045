-- ===== src/Retention/Removed.antt =====
-- internal/retention/retention.go: what a pass removes, and what it keeps.
use kubetest_alt.Base.{
  ℕ, ◌-◌, ◌≤◌, ◌≡◌, refl, ◌⊎◌, inl, inr, Bool, true, false, not, Option, none, some, List, [], ◌∷◌,
  Str, All, leb, keep_if, Bool-cases, if_both, if_cases, ◌==◌, arith,
}
use kubetest_alt.Storage.Keys.{for_run, is_blank}
use kubetest_alt.Retention.Pass.{
  Partition, RunRef, RetentionEnv, RetentionState, RetentionResult, partitions_to_drop, has_prefix,
  remove_prefix, remove_some, remove_runs, drop_rows, after_objects, after_runs, drop_partition,
  drop_all, pruned, run_listed, run_existing, run_once,
}

-- None of the objects is under the prefix.
abbrev pub Gone : Str → List Str → Type 0
Gone p keys = All (λ key. has_prefix p key ≡ false) keys

-- Where no object of the second list is under a prefix, none of the first is.
abbrev pub Fewer : List Str → List Str → Type 0
Fewer xs ys = (p : Str) → Gone p ys → Gone p xs

keep_if-Gone : (f : Str → Bool) (p : Str) (xs : List Str) → Gone p xs → Gone p (keep_if f xs)
unfolding keep_if
keep_if-Gone f p [] h = tt
keep_if-Gone f p (x ∷ xs) h = elim (Bool-cases (f x)) [
  | inl e ↦ rw (e, keep_if) (h.0, keep_if-Gone f p xs h.1)
  | inr e ↦ rw (e, keep_if) (keep_if-Gone f p xs h.1)
]

keep_if-not_prefix : (p : Str) (xs : List Str) → Gone p (keep_if (λ key. not (has_prefix p key)) xs)
unfolding keep_if
keep_if-not_prefix p [] = tt
keep_if-not_prefix p (x ∷ xs) = elim (Bool-cases (has_prefix p x)) [
  | inl e ↦ rw (e, keep_if) (keep_if-not_prefix p xs)
  | inr e ↦ rw (e, keep_if) (e, keep_if-not_prefix p xs)
]

-- The objects of the run are gone. A run without keys has none.
abbrev pub RunGone : List Str → RunRef → Type 0
RunGone keys r =
    (is_blank (for_run r.namespace r.uid) ≡ true) ⊎ Gone (for_run r.namespace r.uid) keys

RunGone-Fewer : (xs ys : List Str) (r : RunRef) → Fewer xs ys → RunGone ys r → RunGone xs r
RunGone-Fewer xs ys r s (inl b) = inl b
RunGone-Fewer xs ys r s (inr g) = inr (s (for_run r.namespace r.uid) g)

All-RunGone :
    (xs ys : List Str) (rs : List RunRef) → Fewer xs ys → All (RunGone ys) rs → All (RunGone xs) rs
All-RunGone xs ys [] s h = tt
All-RunGone xs ys (r ∷ rs) s h = (RunGone-Fewer xs ys r s h.0, All-RunGone xs ys rs s h.1)

-- What the loop over the runs comes to: no new objects, and where it went through, none of the runs'.
abbrev Removes : List RunRef → List Str → List Str × ℕ × Bool → Type 0
Removes rs xs (ys, n, ok) = Fewer ys xs × (ok ≡ true → All (RunGone ys) rs)

remove_runs-Removes :
    (e : RetentionEnv) (rs : List RunRef) (xs : List Str) → Removes rs xs (remove_runs e rs xs)
unfolding remove_runs
remove_runs-Removes e [] xs = (λ p g. g, λ o. tt)
remove_runs-Removes e (r ∷ rs) xs =
    let k = for_run r.namespace r.uid in
    let (s, a) = remove_runs-Removes e rs xs in
    let (t, b) = remove_runs-Removes e rs (remove_prefix k xs) in
    let gone : Gone k (remove_prefix k xs) = unfold remove_prefix in keep_if-not_prefix k xs in
    if_cases (Removes (r ∷ rs) xs) (is_blank k) (λ blank. (s, λ o. (inl blank, a o)))
      (λ _.
        if_cases (Removes (r ∷ rs) xs) (e.remove_ok k)
          (λ _. (
            λ p g. t p (unfold remove_prefix in keep_if-Gone _ p xs g),
            λ o. (inr (t k gone), b o),
          ))
          (λ _.
            (λ p g. unfold remove_some in keep_if-Gone _ p xs g, λ o. absurd (ground (arith, o)))))

-- Where object storage is configured, the objects of all runs of the partition are gone.
abbrev pub Cleaned : RetentionEnv → List Str → Partition → Type 0
Cleaned e objects part =
    e.objects_configured ≡ true
    → (runs : List RunRef) × (e.runs_in part.name ≡ some runs) × All (RunGone objects) runs

abbrev pub IsOld : RetentionEnv → Partition → Type 0
IsOld e part = part.end ≤ e.now - e.retention

-- A partition that was dropped is old, and its runs' objects are gone.
abbrev pub Sound : RetentionEnv → RetentionState → Type 0
Sound e s = All (λ part. IsOld e part × Cleaned e s.objects part) s.dropped

Sound-Fewer :
    (e : RetentionEnv) (xs ys : List Str) (ps : List Partition)
    → Fewer xs ys
    → All (λ part. IsOld e part × Cleaned e ys part) ps
    → All (λ part. IsOld e part × Cleaned e xs part) ps
Sound-Fewer e xs ys [] s h = tt
Sound-Fewer e xs ys (p ∷ ps) s ((o, c), h) = (
  (o, λ configured. let (runs, r, g) = c configured in (runs, r, All-RunGone xs ys runs s g)),
  Sound-Fewer e xs ys ps s h,
)

drop_rows-Sound :
    (e : RetentionEnv) (part : Partition) (n : ℕ) (s : RetentionState)
    → IsOld e part
    → Cleaned e s.objects part
    → Sound e s
    → Sound e (drop_rows e part n s).0
unfolding drop_rows
drop_rows-Sound e part n s o c h =
    if_both (λ (r : RetentionState × ℕ × Bool). Sound e r.0) (e.drop_ok part.name) ((o, c), h) h

after_objects-Sound :
    (e : RetentionEnv) (part : Partition) (s : RetentionState) (runs : List RunRef)
    (r : List Str × ℕ × Bool)
    → e.runs_in part.name ≡ some runs
    → Removes runs s.objects r
    → IsOld e part
    → Sound e s
    → Sound e (after_objects e part s r).0
unfolding after_objects
after_objects-Sound e part s runs (xs, n, true) l (t, g) o h =
    drop_rows-Sound e part n (record s { objects = xs }) o (λ _. (runs, l, g refl))
      (Sound-Fewer e xs s.objects s.dropped t h)
after_objects-Sound e part s runs (xs, n, false) l (t, g) o h =
    Sound-Fewer e xs s.objects s.dropped t h

after_runs-Sound :
    (e : RetentionEnv) (part : Partition) (s : RetentionState) (o : Option (List RunRef))
    → e.runs_in part.name ≡ o
    → IsOld e part
    → Sound e s
    → Sound e (after_runs e part s o).0
unfolding after_runs
after_runs-Sound e part s none l o h = h
after_runs-Sound e part s (some runs) l o h =
    after_objects-Sound e part s runs (remove_runs e runs s.objects) l
      (remove_runs-Removes e runs s.objects) o h

drop_partition-Sound :
    (e : RetentionEnv) (part : Partition) (s : RetentionState)
    → IsOld e part
    → Sound e s
    → Sound e (drop_partition e part s).0
unfolding drop_partition
drop_partition-Sound e part s o h =
    if_cases (λ (r : RetentionState × ℕ × Bool). Sound e r.0) e.objects_configured
      (λ _. after_runs-Sound e part s (e.runs_in part.name) refl o h)
      (λ c. drop_rows-Sound e part 0 s o (λ d. absurd (ground (arith, c, d))) h)

drop_all-Sound :
    (e : RetentionEnv) (parts : List Partition) (s : RetentionState)
    → All (IsOld e) parts
    → Sound e s
    → Sound e (drop_all e parts s).0
unfolding drop_all
drop_all-Sound e [] s o h = h
drop_all-Sound e (p ∷ ps) s o h =
    drop_all-Sound e ps (drop_partition e p s).0 o.1 (drop_partition-Sound e p s o.0 h)

keep_if-IsOld :
    (e : RetentionEnv) (ps : List Partition)
    → All (IsOld e) (keep_if (λ p. leb p.end (e.now - e.retention)) ps)
unfolding keep_if
keep_if-IsOld e [] = tt
keep_if-IsOld e (p ∷ ps) = elim (Bool-cases (leb p.end (e.now - e.retention))) [
  | inl h ↦ rw (h, keep_if) (ground (arith, h), keep_if-IsOld e ps)
  | inr h ↦ rw (h, keep_if) (keep_if-IsOld e ps)
]

run_listed-Sound :
    (e : RetentionEnv) (ps : List Partition) (objects : List Str)
    → Sound e (run_listed e ps objects).state
unfolding run_listed pruned partitions_to_drop
run_listed-Sound e ps objects =
    drop_all-Sound e (keep_if (λ p. leb p.end (e.now - e.retention)) ps)
      (record { objects = objects; dropped = [] }) (keep_if-IsOld e ps) tt

run_existing-Sound :
    (e : RetentionEnv) (objects : List Str) (o : Option (List Partition))
    → Sound e (run_existing e objects o).state
unfolding run_existing
run_existing-Sound e objects none = tt
run_existing-Sound e objects (some ps) = run_listed-Sound e ps objects

-- A pass drops only partitions that ended before the retention time, and, where object storage is
-- configured, each of them only once no object of any of its runs is left.
pub run_once-Sound : (e : RetentionEnv) (objects : List Str) → Sound e (run_once e objects).state
unfolding run_once
run_once-Sound e objects =
    if_both (λ (r : RetentionResult). Sound e r.state) (e.retention == 0) tt
      (run_existing-Sound e objects e.existing)
