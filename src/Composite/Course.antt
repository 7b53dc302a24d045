-- ===== src/Composite/Course.antt =====
-- internal/controller/composite.go: which steps a pass walks past, and with what.
use mathlib.Core.Path.{subst}
use kubetest_alt.Base.{
  ℕ, ◌+◌, ◌≡◌, inl, inr, Bool, true, false, Option, none, some, List, [], ◌∷◌, length, ltb,
  Bool-cases, Option-cases, if_both, if_cases, ◌⊎◌, refl, sym, ap, ◌∙◌, arith,
}
use kubetest_alt.Api.{Step}
use kubetest_alt.Controller.State.{Answer, succeeded, conflicted, failed}
use kubetest_alt.Composer.Aggregate.{
  StepVerdict, ChildOutcome, AggregateOpts, aggregate, fold_children, note_failed, verdict_of,
}
use kubetest_alt.Composer.Verdicts.{IsFinal}
use kubetest_alt.Composite.Children.{
  ChildRun, ExpectedChild, Gathered, gather_outcomes, step_retries, expected_children,
  kids_for_step,
}
use kubetest_alt.Composite.Steps.{
  StepResult, Walked, should_skip, recorded_step_verdict, step_at, step_key,
}
use kubetest_alt.Composite.World.{CompositeEnv, Pass, abort_step_children, store_status}
use kubetest_alt.Composite.Attempts.{ensure_step_children, create_retries}
use kubetest_alt.Composite.Round.{
  StepEnd, goes_on, stops, mark_skipped, give_up, mark_running, check_timeout, after_write,
  and_round, in_flight_step, close_step, judge_step, list_again, open_step, step_pass,
  timed_out_step, timeout_verdict,
}
use kubetest_alt.Composite.Sources.{
  Records, recorded_step_verdict-Records, Closes, TimedOut, aggregate-Closes,
  timed_out_step-TimedOut, create_retries_kids,
}
use kubetest_alt.Composite.Kept.{
  Kept, Kept-refl, Kept-trans, list_child_runs-Kept, abort_step_children-Kept, create_retries-Kept,
  ensure_step_children-Kept, store_status-Kept, and_then-Kept,
}

fold_children-IsFinal :
    (opts : AggregateOpts) (i : ℕ) (first : Option ℕ) (cs ds : List ChildOutcome)
    → IsFinal (verdict_of opts ds (fold_children opts i first cs)).phase
unfolding fold_children verdict_of
fold_children-IsFinal opts i none [] ds = ground arith
fold_children-IsFinal opts i (some j) [] ds = ground arith
fold_children-IsFinal opts i first (c ∷ cs) ds =
    ground (arith, fold_children-IsFinal opts (i + 1) (note_failed opts i c.phase first) cs ds)

-- The verdict of a step is one of the four in which a run ends.
aggregate-IsFinal :
    (cs : List ChildOutcome) (opts : AggregateOpts) → IsFinal (aggregate cs opts).phase
unfolding aggregate
aggregate-IsFinal [] opts = ground arith
aggregate-IsFinal (c ∷ cs) opts = fold_children-IsFinal opts 0 none (c ∷ cs) (c ∷ cs)

Records-IsFinal : (r : StepResult) (v : StepVerdict) → Records r v → IsFinal v.phase
Records-IsFinal r v h = ground (arith, h)

-- What a verdict that a round comes to rests on: the children that the round listed, or the timeout.
abbrev pub Judges :
    CompositeEnv → ℕ → Step → StepResult → List ExpectedChild → Pass → StepVerdict → Type 0
Judges e i step existing expected q v =
    Closes e step (kids_for_step q.kids i) expected v ⊎ TimedOut e step existing v

-- The round of an open step: it goes on past a final verdict that rests on the children or the timeout,
-- or the pass ends.
abbrev Opened :
    CompositeEnv → ℕ → Step → StepResult → List ExpectedChild → Pass → Pass × StepEnd → Type 0
Opened e i step existing expected p (q, goes_on (some v)) =
    Kept p q × IsFinal v.phase × Judges e i step existing expected q v
Opened e i step existing expected p (q, goes_on none) = ⊥
Opened e i step existing expected p (q, stops o) = Kept p q

module _ (e : CompositeEnv) (i : ℕ) (step : Step) (existing : StepResult)
    (expected : List ExpectedChild) where
  Opened-trans :
      (p q : Pass) (r : Pass × StepEnd)
      → Kept p q
      → Opened e i step existing expected q r
      → Opened e i step existing expected p r
  Opened-trans p q (s, goes_on (some v)) k (l, f, j) = (Kept-trans p q s k l, f, j)
  Opened-trans p q (s, goes_on none) k l = l
  Opened-trans p q (s, stops o) k l = Kept-trans p q s k l

  give_up-Opened :
      (p : Pass) (r : Pass × Bool)
      → timed_out_step e step existing ≡ true
      → Kept p r.0
      → Opened e i step existing expected p (give_up e i r)
  unfolding give_up
  give_up-Opened p (q, true) t k =
      (k, ground arith, inr (timed_out_step-TimedOut e step existing timeout_verdict refl t))
  give_up-Opened p (q, false) t k = k

  check_timeout-Opened :
      (kids : List ChildRun) (p : Pass)
      → Opened e i step existing expected p (check_timeout e i step existing kids p)
  unfolding check_timeout
  check_timeout-Opened kids p =
      if_cases (Opened e i step existing expected p) (timed_out_step e step existing)
        (λ t.
          give_up-Opened p (abort_step_children e _ kids p) t (abort_step_children-Kept e _ kids p))
        (λ _. Kept-refl p)

  after_write-Opened :
      (a : Answer) (p q : Pass) (r : Pass × StepEnd)
      → Kept p q
      → Opened e i step existing expected q r
      → Opened e i step existing expected p (after_write a q r)
  after_write-Opened succeeded p q r k o = Opened-trans p q r k o
  after_write-Opened conflicted p q r k o = k
  after_write-Opened failed p q r k o = k

  and_round-Opened :
      (p : Pass) (r : Pass × Bool) (next : Pass → Pass × StepEnd)
      → Kept p r.0
      → ((q : Pass) → q ≡ r.0 → Opened e i step existing expected q (next q))
      → Opened e i step existing expected p (and_round r next)
  and_round-Opened p (q, true) next k h = Opened-trans p q (next q) k (h q refl)
  and_round-Opened p (q, false) next k h = k

  in_flight_step-Opened :
      (kids : List ChildRun) (p : Pass)
      → Opened e i step existing expected p (in_flight_step e i step existing kids expected p)
  unfolding in_flight_step mark_running
  in_flight_step-Opened kids p =
      let q = mark_running e i step existing kids expected p in
      after_write-Opened (e.base.status_update p.writes) p (store_status e q) _
        (store_status-Kept e q) (check_timeout-Opened kids (store_status e q))

  close_step-Opened :
      (kids : List ChildRun) (g : Gathered) (p : Pass)
      → Closes e step
          (kids_for_step p.kids i)
          expected
          (aggregate g.outcomes (record { negative = step.negative }))
      → Opened e i step existing expected p (close_step e i step kids expected g p)
  unfolding close_step
  close_step-Opened kids g p c =
      (Kept-refl p, aggregate-IsFinal g.outcomes (record { negative = step.negative }), inl c)

  judge_step-Opened :
      (p : Pass)
      → Opened e i step existing expected p
          (judge_step e i step existing (kids_for_step p.kids i) expected p)
  unfolding judge_step
  judge_step-Opened p =
      let kids = kids_for_step p.kids i in
      let g = gather_outcomes e.hex_sum kids expected (step_retries step) step.negative in
      and_round-Opened p (create_retries e i g.retries p) _ (create_retries-Kept e i g.retries p)
        (λ q same.
          let listed : p.kids ≡ q.kids =
            sym (ap (λ (t : Pass). t.kids) same ∙ create_retries_kids e i g.retries p) in
          if_cases (Opened e i step existing expected q) g.done
            (λ d. close_step-Opened kids g q (
              subst
                (λ ks.
                  Closes e step (kids_for_step ks i) expected
                    (aggregate g.outcomes (record { negative = step.negative })))
                listed (aggregate-Closes e step kids expected d)))
            (λ _. in_flight_step-Opened kids q))

list_again-Kept : (e : CompositeEnv) (b : Bool) (p : Pass) → Kept p (list_again e b p).0
unfolding list_again
list_again-Kept e b p =
    if_both (λ (r : Pass × Bool). Kept p r.0) b (list_child_runs-Kept e p) (Kept-refl p)

open_step-Opened :
    (e : CompositeEnv) (i : ℕ) (step : Step) (existing : StepResult) (p : Pass)
    → Opened e i step existing
        (expected_children e.hex_sum p.run.name step i)
        p
        (open_step e i step existing p)
unfolding open_step
open_step-Opened e i step existing p =
    let expected = expected_children e.hex_sum p.run.name step i in
    let kids = kids_for_step p.kids i in
    and_round-Opened e i step existing expected p _ _
      (and_then-Kept p (ensure_step_children e i step kids expected p) _
        (ensure_step_children-Kept e i step kids expected p)
        (list_again-Kept e (ltb (length kids) (length expected))))
      (λ q _. judge_step-Opened e i step existing expected q)

-- What the verdict of a step rests on, in the pass that comes to it and the pass it leaves: the entry
-- of the step records it already, or the round came to it.
abbrev pub Came : CompositeEnv → ℕ → Step → Pass → Pass → StepVerdict → Type 0
Came e i step p q v =
    Records (step_at p.steps (step_key i)) v
    ⊎ Judges e i step (step_at p.steps (step_key i)) (expected_children e.hex_sum p.run.name step i)
        q v

-- The round of a step: a step that is skipped was to be skipped, and one with a verdict was not, and
-- its verdict is final and rests on its entry, its children or its timeout.
abbrev pub Rounded : CompositeEnv → ℕ → List Walked → Step → Pass → Pass × StepEnd → Type 0
Rounded e i prior step p (q, goes_on none) = Kept p q × (should_skip prior step ≡ true)
Rounded e i prior step p (q, goes_on (some v)) =
    Kept p q × (should_skip prior step ≡ false) × IsFinal v.phase × Came e i step p q v
Rounded e i prior step p (q, stops o) = Kept p q

Opened-Rounded :
    (e : CompositeEnv) (i : ℕ) (prior : List Walked) (step : Step) (p : Pass) (r : Pass × StepEnd)
    → should_skip prior step ≡ false
    → Opened e i step
        (step_at p.steps (step_key i))
        (expected_children e.hex_sum p.run.name step i)
        p
        r
    → Rounded e i prior step p r
Opened-Rounded e i prior step p (q, goes_on (some v)) n (k, f, j) = (k, n, f, inr j)
Opened-Rounded e i prior step p (q, goes_on none) n k = absurd k
Opened-Rounded e i prior step p (q, stops o) n k = k

mark_skipped-Kept :
    (e : CompositeEnv) (i : ℕ) (existing : StepResult) (p : Pass)
    → Kept p (mark_skipped e i existing p)
unfolding mark_skipped
mark_skipped-Kept e i existing p = ground arith

pub step_pass-Rounded :
    (e : CompositeEnv) (i : ℕ) (prior : List Walked) (step : Step) (p : Pass)
    → Rounded e i prior step p (step_pass e i prior step p)
unfolding step_pass
step_pass-Rounded e i prior step p =
    let existing = step_at p.steps (step_key i) in
    elim (Bool-cases (should_skip prior step)) [
      | inl s ↦ rw s (mark_skipped-Kept e i existing p, s)
      | inr s ↦ elim (Option-cases (recorded_step_verdict existing)) [
        | inl o ↦
            rw (s, o)
              (Opened-Rounded e i prior step p (open_step e i step existing p) s
                (open_step-Opened e i step existing p))
        | inr (v, o) ↦
            let r = recorded_step_verdict-Records existing v o in
            rw (s, o) (Kept-refl p, s, Records-IsFinal existing v r, inl r)
      ]
    ]
