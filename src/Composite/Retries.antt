-- ===== src/Composite/Retries.antt =====
-- internal/controller/composite.go: what the tries of the children of a
-- step come to.
use kubetest_alt.Base.{
  ℕ, suc, ◌≤◌, ◌≡◌, refl, ◌↔◌, ◌⊎◌, inl, inr, Bool-cases, Bool, true, false, ◌&&◌, Option, none,
  some, List, [], ◌∷◌, All, ltb, Str, arith,
}
use kubetest_alt.Controller.Phases.{is_terminal_phase}
use kubetest_alt.Composer.Aggregate.{child_needs_retry}
use kubetest_alt.Composite.LatestTry.{IsLatest, latest_attempt-IsLatest, IsLatest-latest_attempt}
use kubetest_alt.Composite.Children.{
  ChildRun, ExpectedChild, ChildRetry, latest_attempt, Standing, standing, Gathered, gather,
  gather_outcomes,
}

-- One more child in the loop of `gatherOutcomes`.
abbrev pub add_child : ExpectedChild → Standing → Gathered → Gathered
add_child x s rest = elim s [
  | Standing.in_flight ↦ record rest { done = false }
  | Standing.again n ↦ record rest {
    done = false;
    retries = record { child = x; attempt = n } ∷ rest.retries;
  }
  | Standing.ended p ↦ record rest { outcomes = record { phase = p } ∷ rest.outcomes }
]

module _ (hex_sum : Str → Str) (kids : List ChildRun) (retries : ℕ) (negative : Bool) where
  -- The latest try ended, and it passed or none is left.
  abbrev IsOver : ChildRun → ℕ → Type 0
  IsOver c n =
      (is_terminal_phase c.run.status.phase ≡ true)
      × ((retries ≤ n) ⊎ (child_needs_retry c.run.status.phase negative ≡ false))

  -- The latest try of the child ended, and it is the last one that is due.
  abbrev pub Settled : ExpectedChild → Type 0
  Settled x = (c : ChildRun) × (n : ℕ) × IsLatest hex_sum kids x retries c n × IsOver c n

  -- The latest try of the child ended, needs another one, and has one left: that of the number.
  abbrev pub Due : ChildRetry → Type 0
  Due r =
      (c : ChildRun) × (n : ℕ) × IsLatest hex_sum kids r.child retries c n
      × (is_terminal_phase c.run.status.phase ≡ true)
      × (child_needs_retry c.run.status.phase negative ≡ true)
      × (r.attempt ≡ suc n)
      × (r.attempt ≤ retries)

  -- What the standing of a child tells of it.
  abbrev Stands : ExpectedChild → Standing → Type 0
  Stands x s = elim s [
    | Standing.ended p ↦
        (c : ChildRun) × (n : ℕ) × IsLatest hex_sum kids x retries c n
        × IsOver c n
        × (p ≡ c.run.status.phase)
    | Standing.in_flight ↦ ¬ Settled x
    | Standing.again n ↦ (¬ Settled x) × Due (record { child = x; attempt = n })
  ]

  Settled-IsOver :
      (x : ExpectedChild) (c : ChildRun) (n : ℕ)
      → latest_attempt hex_sum kids x retries ≡ some (c, n)
      → Settled x
      → IsOver c n
  Settled-IsOver x c n e (d, m, l, o) =
      let f = IsLatest-latest_attempt hex_sum kids x retries d m l in ground (arith, o, f, e)

  not-Settled : (x : ExpectedChild) → latest_attempt hex_sum kids x retries ≡ none → ¬ Settled x
  not-Settled x e (d, m, l, o) =
      let f = IsLatest-latest_attempt hex_sum kids x retries d m l in ground (arith, f, e)

  found-Stands :
      (x : ExpectedChild) (c : ChildRun) (n : ℕ)
      → latest_attempt hex_sum kids x retries ≡ some (c, n)
      → Stands x (standing retries negative (some (c, n)))
  unfolding standing
  found-Stands x c n e =
      let l = latest_attempt-IsLatest hex_sum kids x retries c n e in
      let settled = Settled-IsOver x c n e in
      elim (Bool-cases (is_terminal_phase c.run.status.phase)) [
        | inr t ↦ rw t (λ s. ground (arith, settled s, t))
        | inl t ↦
            elim (Bool-cases (ltb n retries && child_needs_retry c.run.status.phase negative)) [
              | inl r ↦
                  rw (t, r)
                    (
                      λ s. ground (arith, settled s, r),
                      (c, n, l, t, ground (arith, r), refl, ground (arith, r)),
                    )
              | inr r ↦ rw (t, r) (c, n, l, (t, ground (arith, r)), refl)
            ]
      ]

  standing-Stands :
      (x : ExpectedChild) (o : Option (ChildRun × ℕ))
      → latest_attempt hex_sum kids x retries ≡ o
      → Stands x (standing retries negative o)
  unfolding standing
  standing-Stands x none e = not-Settled x e
  standing-Stands x (some (c, n)) e = found-Stands x c n e

  -- What the loop has found for the children so far.
  abbrev Found : List ExpectedChild → Gathered → Type 0
  Found xs g = ((g.done ≡ true) ↔ All Settled xs) × All Due g.retries

  add_child-Found :
      (x : ExpectedChild) (xs : List ExpectedChild) (s : Standing) (g : Gathered)
      → Stands x s
      → Found xs g
      → Found (x ∷ xs) (add_child x s g)
  add_child-Found x xs (Standing.ended p) g (c, n, l, o, q) ((to, from), due) =
      ((λ d. ((c, n, l, o), to d), λ a. from a.1), due)
  add_child-Found x xs Standing.in_flight g h (_, due) =
      ((λ d. absurd (ground (arith, d)), λ a. absurd (h a.0)), due)
  add_child-Found x xs (Standing.again n) g (h, next) (_, due) =
      ((λ d. absurd (ground (arith, d)), λ a. absurd (h a.0)), (next, due))

  gather-Found : (xs : List ExpectedChild) → Found xs (gather hex_sum kids xs retries negative)
  unfolding gather
  gather-Found [] = ((λ _. tt, λ _. refl), tt)
  gather-Found (x ∷ xs) =
      add_child-Found x xs (standing retries negative (latest_attempt hex_sum kids x retries))
        (gather hex_sum kids xs retries negative)
        (standing-Stands x (latest_attempt hex_sum kids x retries) refl) (gather-Found xs)

-- A step is done exactly when the latest try of each of its children ended, and that try needs no
-- other or was the last one of `retry`.
pub gather_outcomes-done_iff :
    (hex_sum : Str → Str) (kids : List ChildRun) (expected : List ExpectedChild) (retries : ℕ)
    (negative : Bool)
    → ((gather_outcomes hex_sum kids expected retries negative).done ≡ true)
      ↔ All (Settled hex_sum kids retries negative) expected
unfolding gather_outcomes
gather_outcomes-done_iff hex_sum kids expected retries negative =
    let (iff, due) = gather-Found hex_sum kids retries negative expected in ground (arith, iff)

-- Each try that a pass is to make follows the latest try of its child, which ended and needs another,
-- and its number is at most `retry`: a child has at most that many tries past its first.
pub gather_outcomes-Due :
    (hex_sum : Str → Str) (kids : List ChildRun) (expected : List ExpectedChild) (retries : ℕ)
    (negative : Bool)
    → All
        (Due hex_sum kids retries negative)
        (gather_outcomes hex_sum kids expected retries negative).retries
unfolding gather_outcomes
gather_outcomes-Due hex_sum kids expected retries negative =
    let (iff, due) = gather-Found hex_sum kids retries negative expected in
    elim (Bool-cases (gather hex_sum kids expected retries negative).done) [
      | inl d ↦ rw d due
      | inr d ↦ rw d due
    ]
