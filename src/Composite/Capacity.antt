-- ===== src/Composite/Capacity.antt =====
-- internal/controller/composite.go: how many child runs a pass starts beside those in flight.
use kubetest_alt.Base.{
  ℕ, suc, ◌+◌, ◌≤◌, ◌≡◌, refl, ◌⊎◌, inl, inr, Bool-cases, Option-cases, Bool, true, false, none,
  some, List, [], ◌∷◌, length, keep_if, ◌==◌, arith, if◌then◌else◌,
}
use kubetest_alt.Api.{Step}
use kubetest_alt.Controller.Phases.{is_terminal_phase, is_open_phase}
use kubetest_alt.Composite.Children.{ChildRun, ExpectedChild, step_retries}
use kubetest_alt.Composite.World.{CompositeEnv, Pass, and_then, create_child}
use kubetest_alt.Composite.Attempts.{
  is_delayed, count_in_flight, create_missing, create_first_tries, ensure_step_children,
}

-- `create_child` adds one run at most.
length-create_child :
    (e : CompositeEnv) (i : ℕ) (x : ExpectedChild) (n : ℕ) (p : Pass)
    → length ((create_child e i x n p).0.cluster) ≤ suc (length p.cluster)
unfolding create_child
length-create_child e i x n p = ground arith

-- The cap of `ensureStepChildren`.
abbrev pub cap_of : ℕ → List ExpectedChild → ℕ
cap_of parallelism expected = if parallelism == 0 then length expected else parallelism

abbrev InCap : ℕ → ℕ → Pass → Pass → Type 0
InCap room in_flight p q =
    (length q.cluster ≡ length p.cluster) ⊎ (length q.cluster + in_flight ≤ length p.cluster + room)

after_create :
    (room in_flight : ℕ) (p : Pass) (next : Pass → Pass × Bool) (r : Pass × Bool)
    → suc in_flight ≤ room
    → length r.0.cluster ≤ suc (length p.cluster)
    → ((q : Pass) → InCap room (suc in_flight) q (next q).0)
    → InCap room in_flight p (and_then r next).0
after_create room in_flight p next (q, true) h k ih = ground (arith, ih q)
after_create room in_flight p next (q, false) h k ih = ground arith

create_missing-InCap :
    (e : CompositeEnv) (i : ℕ) (kids : List ChildRun) (retries room in_flight : ℕ)
    (xs : List ExpectedChild) (p : Pass)
    → InCap room in_flight p (create_missing e i kids retries room in_flight xs p).0
unfolding create_missing
create_missing-InCap e i kids retries room in_flight [] p = inl refl
create_missing-InCap e i kids retries room in_flight (x ∷ xs) p =
    let skipped = create_missing-InCap e i kids retries room in_flight xs p in
    let created = λ (h : suc in_flight ≤ room).
      after_create room in_flight p (create_missing e i kids retries room (suc in_flight) xs)
        (create_child e i x 0 p) h (length-create_child e i x 0 p)
        (create_missing-InCap e i kids retries room (suc in_flight) xs) in
    ground (arith, skipped, created)

abbrev pub step_cap : Step → List ExpectedChild → ℕ
step_cap step expected = elim step.execute [ none ↦ 0 | some x ↦ cap_of x.parallelism expected ]

-- The child runs of a step that have not ended.
abbrev pub open_kids : List ChildRun → List ChildRun
open_kids kids = keep_if (λ k. is_open_phase k.run.status.phase) kids

count_in_flight-open_kids : (kids : List ChildRun) → count_in_flight kids ≡ length (open_kids kids)
unfolding count_in_flight keep_if is_terminal_phase
count_in_flight-open_kids [] = refl
count_in_flight-open_kids (k ∷ ks) = ground (arith, count_in_flight-open_kids ks)

-- The first tries that a pass starts for a step, with those of its child runs that have not ended, are
-- never more than the cap: the parallelism of the step, or the number of its children where it has
-- none. Where the cap is reached already, none is started.
pub ensure_step_children-in_cap :
    (e : CompositeEnv) (i : ℕ) (step : Step) (kids : List ChildRun) (expected : List ExpectedChild)
    (p : Pass)
    → let q = (ensure_step_children e i step kids expected p).0 in
      (length q.cluster ≡ length p.cluster)
      ⊎ (length q.cluster + length (open_kids kids) ≤ length p.cluster + step_cap step expected)
unfolding ensure_step_children create_first_tries
ensure_step_children-in_cap e i step kids expected p =
    elim (Bool-cases (is_delayed e.base.now p.run step)) [
      | inl d ↦ ground (arith, d)
      | inr d ↦ elim (Option-cases step.execute) [
        | inl n ↦ ground (arith, d, n)
        | inr (x, s) ↦
            let h =
              create_missing-InCap e i kids (step_retries step) (cap_of x.parallelism expected)
                (count_in_flight kids) expected p in
            let same = count_in_flight-open_kids kids in ground (arith, d, s, h, same)
      ]
    ]
