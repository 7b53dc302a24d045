-- ===== src/Composite/StepVerdicts.antt =====
-- internal/controller/composite.go and internal/composer/aggregate.go: the verdict of a step whose
-- children are done.
use kubetest_alt.Base.{
  ℕ, ◌≡◌, ◌≢◌, refl, ◌↔◌, inl, inr, Bool-cases, Bool, true, ◌&&◌, Option, none, some, List, [], ◌∷◌,
  All, ltb, Str, arith,
}
use kubetest_alt.Api.{Phase}
use kubetest_alt.Controller.Phases.{is_terminal_phase}
use kubetest_alt.Composer.Aggregate.{AggregateOpts, aggregate, child_needs_retry}
use kubetest_alt.Composer.Verdicts.{IsFinal, wanted, aggregate-passed_iff}
use kubetest_alt.Composite.Children.{
  ChildRun, ExpectedChild, latest_attempt, Standing, standing, Gathered, gather, gather_outcomes,
}
use kubetest_alt.Composite.Retries.{add_child}
use kubetest_alt.Composite.LatestTry.{IsLatest, latest_attempt-IsLatest, IsLatest-latest_attempt}

terminal-IsFinal : (p : Phase) → is_terminal_phase p ≡ true → IsFinal p
unfolding is_terminal_phase
terminal-IsFinal p h = ground arith

-- The latest try of the child ended in the phase.
abbrev pub EndsIn : (Str → Str) → List ChildRun → ℕ → Phase → ExpectedChild → Type 0
EndsIn hex_sum kids retries p x =
    (c : ChildRun) × (n : ℕ) × IsLatest hex_sum kids x retries c n × (c.run.status.phase ≡ p)

module _ (hex_sum : Str → Str) (kids : List ChildRun) (retries : ℕ) (negative : Bool) where
  abbrev Fits : Phase → List ExpectedChild → Gathered → Type 0
  Fits p xs g =
      g.done ≡ true
      → All (λ o. IsFinal o.phase) g.outcomes
        × ((g.outcomes ≡ []) ↔ (xs ≡ []))
        × (All (λ o. o.phase ≡ p) g.outcomes ↔ All (EndsIn hex_sum kids retries p) xs)

  phase-EndsIn :
      (p : Phase) (x : ExpectedChild) (c : ChildRun) (n : ℕ)
      → latest_attempt hex_sum kids x retries ≡ some (c, n)
      → (c.run.status.phase ≡ p) ↔ EndsIn hex_sum kids retries p x
  phase-EndsIn p x c n e = (
    λ h. (c, n, latest_attempt-IsLatest hex_sum kids x retries c n e, h),
    λ (d, m, l, h).
        let f = IsLatest-latest_attempt hex_sum kids x retries d m l in ground (arith, e, f, h),
  )

  -- A child that ended has its last phase.
  abbrev HasPhase : Phase → ExpectedChild → Standing → Type 0
  HasPhase p x s = elim s [
    | Standing.ended q ↦ IsFinal q × ((q ≡ p) ↔ EndsIn hex_sum kids retries p x)
    | _ ↦ Unit
  ]

  standing-HasPhase :
      (p : Phase) (x : ExpectedChild) (o : Option (ChildRun × ℕ))
      → latest_attempt hex_sum kids x retries ≡ o
      → HasPhase p x (standing retries negative o)
  unfolding standing
  standing-HasPhase p x none e = tt
  standing-HasPhase p x (some (c, n)) e = elim (Bool-cases (is_terminal_phase c.run.status.phase)) [
    | inr t ↦ rw t tt
    | inl t ↦ elim (Bool-cases (ltb n retries && child_needs_retry c.run.status.phase negative)) [
      | inl r ↦ rw (t, r) tt
      | inr r ↦ rw (t, r) (terminal-IsFinal c.run.status.phase t, phase-EndsIn p x c n e)
    ]
  ]

  add-Fits :
      (p : Phase) (x : ExpectedChild) (xs : List ExpectedChild) (s : Standing) (g : Gathered)
      → HasPhase p x s
      → Fits p xs g
      → Fits p (x ∷ xs) (add_child x s g)
  add-Fits p x xs Standing.in_flight g c fits = λ d. absurd (ground (arith, d))
  add-Fits p x xs (Standing.again n) g c fits = λ d. absurd (ground (arith, d))
  add-Fits p x xs (Standing.ended q) g (final, (to, from)) fits = λ d.
      let (finals, empty, (up, down)) = fits d in
      (
        (final, finals),
        (λ h. absurd (ground (arith, h)), λ h. absurd (ground (arith, h))),
        (λ h. (to h.0, up h.1), λ h. (from h.0, down h.1)),
      )

  gather-Fits :
      (p : Phase) (xs : List ExpectedChild) → Fits p xs (gather hex_sum kids xs retries negative)
  unfolding gather
  gather-Fits p [] = λ d. (tt, (λ h. refl, λ h. refl), (λ h. tt, λ h. tt))
  gather-Fits p (x ∷ xs) =
      add-Fits p x xs (standing retries negative (latest_attempt hex_sum kids x retries))
        (gather hex_sum kids xs retries negative)
        (standing-HasPhase p x (latest_attempt hex_sum kids x retries) refl) (gather-Fits p xs)

done-gather :
    (hex_sum : Str → Str) (kids : List ChildRun) (expected : List ExpectedChild) (retries : ℕ)
    (negative : Bool)
    → (gather_outcomes hex_sum kids expected retries negative).done ≡ true
    → ((gather hex_sum kids expected retries negative).done ≡ true)
      × (gather_outcomes hex_sum kids expected retries negative
          ≡ gather hex_sum kids expected retries negative)
unfolding gather_outcomes
done-gather hex_sum kids expected retries negative d =
    elim (Bool-cases (gather hex_sum kids expected retries negative).done) [
      | inl e ↦ (e, ground (arith, e))
      | inr e ↦ absurd (ground (arith, d, e))
    ]

-- Where a step is done, its verdict is passed exactly when it has children and the latest try of each
-- of them ended as the step wants: passed, or failed if the step is negative.
pub aggregate-gather_outcomes_iff :
    (hex_sum : Str → Str) (kids : List ChildRun) (expected : List ExpectedChild) (retries : ℕ)
    (negative : Bool)
    → (gather_outcomes hex_sum kids expected retries negative).done ≡ true
    → let opts : AggregateOpts = record { negative = negative } in
      ((aggregate (gather_outcomes hex_sum kids expected retries negative).outcomes opts).phase
        ≡ Phase.passed)
      ↔ ((expected ≢ []) × All (EndsIn hex_sum kids retries (wanted opts)) expected)
aggregate-gather_outcomes_iff hex_sum kids expected retries negative d =
    let (e, same) = done-gather hex_sum kids expected retries negative d in
    let opts : AggregateOpts = record { negative = negative } in
    let (final, empty, fits) = gather-Fits hex_sum kids retries negative (wanted opts) expected e in
    let passed =
      aggregate-passed_iff (gather hex_sum kids expected retries negative).outcomes opts final in
    rw same (ground (arith, passed, empty, fits))
