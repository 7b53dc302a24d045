-- ===== src/Composite/Kept.antt =====
-- internal/controller/composite.go: what a round of the loop over the steps leaves alone.
use kubetest_alt.Base.{
  is_there, ℕ, suc, ◌≡◌, refl, ◌∙◌, ◌⊎◌, inl, inr, Bool, true, false, Option, none, some, List, [],
  ◌∷◌, leb, if_both, arith,
}
use kubetest_alt.Api.{Step, StepExecute, AbortRequest}
use kubetest_alt.Composite.Children.{
  ChildRun, ExpectedChild, ChildRetry, latest_attempt, step_retries,
}
use kubetest_alt.Composite.World.{
  CompositeEnv, Pass, and_then, list_child_runs, create_child, request_abort, abort_step_children,
  store_answer, store_status,
}
use kubetest_alt.Composite.Attempts.{
  is_delayed, create_missing, create_first_tries, ensure_step_children, create_retries,
}

-- The pass's copy of the run is as it was, and the stored world is as it was but for the run, which is
-- the old one or the copy.
abbrev pub Kept : Pass → Pass → Type 0
Kept p q = (q.run ≡ p.run) × ((q.world ≡ p.world) ⊎ (q.world ≡ record (p.world) { run = p.run }))

pub Kept-refl : (p : Pass) → Kept p p
Kept-refl p = (refl, inl refl)

pub Kept-trans : (p q r : Pass) → Kept p q → Kept q r → Kept p r
Kept-trans p q r (a, inl b) (c, inl d) = (c ∙ a, inl (d ∙ b))
Kept-trans p q r (a, inr b) (c, inl d) = (c ∙ a, inr (d ∙ b))
Kept-trans p q r (a, inl b) (c, inr d) = (c ∙ a, inr (d ∙ (λ i. record (b i) { run = a i })))
Kept-trans p q r (a, inr b) (c, inr d) = (c ∙ a, inr (d ∙ (λ i. record (b i) { run = a i })))

pub and_then-Kept :
    (p : Pass) (r : Pass × Bool) (next : Pass → Pass × Bool)
    → Kept p r.0
    → ((q : Pass) → Kept q (next q).0)
    → Kept p (and_then r next).0
and_then-Kept p (q, true) next k h = Kept-trans p q (next q).0 k (h q)
and_then-Kept p (q, false) next k h = k

pub list_child_runs-Kept : (e : CompositeEnv) (p : Pass) → Kept p (list_child_runs e p).0
unfolding list_child_runs
list_child_runs-Kept e p = ground arith

create_child-Kept :
    (e : CompositeEnv) (i : ℕ) (x : ExpectedChild) (n : ℕ) (p : Pass)
    → Kept p (create_child e i x n p).0
unfolding create_child
create_child-Kept e i x n p = ground arith

request_abort-Kept :
    (e : CompositeEnv) (req : AbortRequest) (k : ChildRun) (p : Pass)
    → Kept p (request_abort e req k p).0
unfolding request_abort
request_abort-Kept e req k p = ground arith

pub store_status-Kept : (e : CompositeEnv) (p : Pass) → Kept p (store_status e p)
unfolding store_status store_answer
store_status-Kept e p = ground arith

pub abort_step_children-Kept :
    (e : CompositeEnv) (req : AbortRequest) (ks : List ChildRun) (p : Pass)
    → Kept p (abort_step_children e req ks p).0
unfolding abort_step_children
abort_step_children-Kept e req [] p = Kept-refl p
abort_step_children-Kept e req (k ∷ ks) p =
    and_then-Kept p (request_abort e req k p) (abort_step_children e req ks)
      (request_abort-Kept e req k p) (abort_step_children-Kept e req ks)

pub create_retries-Kept :
    (e : CompositeEnv) (i : ℕ) (rs : List ChildRetry) (p : Pass)
    → Kept p (create_retries e i rs p).0
unfolding create_retries
create_retries-Kept e i [] p = Kept-refl p
create_retries-Kept e i (r ∷ rs) p =
    and_then-Kept p (create_child e i r.child r.attempt p) (create_retries e i rs)
      (create_child-Kept e i r.child r.attempt p) (create_retries-Kept e i rs)

create_missing-Kept :
    (e : CompositeEnv) (i : ℕ) (kids : List ChildRun) (retries room in_flight : ℕ)
    (xs : List ExpectedChild) (p : Pass)
    → Kept p (create_missing e i kids retries room in_flight xs p).0
unfolding create_missing
create_missing-Kept e i kids retries room in_flight [] p = Kept-refl p
create_missing-Kept e i kids retries room in_flight (x ∷ xs) p =
    let skipped = create_missing-Kept e i kids retries room in_flight xs p in
    let created =
      and_then-Kept p (create_child e i x 0 p)
        (create_missing e i kids retries room (suc in_flight) xs) (create_child-Kept e i x 0 p)
        (create_missing-Kept e i kids retries room (suc in_flight) xs) in
    if_both (λ (r : Pass × Bool). Kept p r.0) (leb room in_flight) (Kept-refl p)
      (if_both (λ (r : Pass × Bool). Kept p r.0)
        (is_there (latest_attempt e.hex_sum kids x retries)) skipped created)

create_first_tries-Kept :
    (e : CompositeEnv) (i retries : ℕ) (kids : List ChildRun) (expected : List ExpectedChild)
    (p : Pass) (x : Option StepExecute)
    → Kept p (create_first_tries e i retries kids expected p x).0
unfolding create_first_tries
create_first_tries-Kept e i retries kids expected p none = Kept-refl p
create_first_tries-Kept e i retries kids expected p (some x) =
    create_missing-Kept e i kids retries _ _ expected p

pub ensure_step_children-Kept :
    (e : CompositeEnv) (i : ℕ) (step : Step) (kids : List ChildRun) (expected : List ExpectedChild)
    (p : Pass)
    → Kept p (ensure_step_children e i step kids expected p).0
unfolding ensure_step_children
ensure_step_children-Kept e i step kids expected p =
    if_both (λ (r : Pass × Bool). Kept p r.0) (is_delayed e.base.now p.run step) (Kept-refl p)
      (create_first_tries-Kept e i (step_retries step) kids expected p step.execute)
