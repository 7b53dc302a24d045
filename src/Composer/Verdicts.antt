-- ===== src/Composer/Verdicts.antt =====
-- What the verdicts of internal/composer/aggregate.go mean.
use kubetest_alt.Base.{
  ℕ, ◌+◌, ◌≡◌, refl, ap, ◌∙◌, ◌≢◌, ◌↔◌, ◌⊎◌, true, false, Option, none, some, List, [], ◌∷◌, ◌++◌,
  map, length-map, All, arith, if◌then◌else◌,
}
use kubetest_alt.Api.{Phase}
use kubetest_alt.Composer.Aggregate.{
  ChildOutcome, StepVerdict, AggregateOpts, inverted, fold_children, verdict_of, aggregate,
  note_failed, count_failed,
}

-- The phases that are never inverted.
abbrev pub IsSevere : Phase → Type 0
IsSevere p = (p ≡ Phase.aborted) ⊎ (p ≡ Phase.error)

-- The four phases in which a run ends.
abbrev pub IsFinal : Phase → Type 0
IsFinal p = (p ≡ Phase.passed) ⊎ (p ≡ Phase.failed) ⊎ (p ≡ Phase.aborted) ⊎ (p ≡ Phase.error)

-- What a child has to come to for its step to pass: passed, and failed if the step is negative.
abbrev pub wanted : AggregateOpts → Phase
wanted opts = if opts.negative then Phase.failed else Phase.passed

fold_children-some :
    (opts : AggregateOpts) (i j : ℕ) (cs : List ChildOutcome)
    → fold_children opts i (some j) cs ≢ (none, none)
unfolding fold_children
fold_children-some opts i j [] h = ground arith
fold_children-some opts i j (c ∷ cs) h = ground (arith, fold_children-some opts (i + 1) j cs)

fold_children-passed :
    (opts : AggregateOpts) (i : ℕ) (cs : List ChildOutcome)
    → All (λ c. IsFinal c.phase) cs
    → (fold_children opts i none cs ≡ (none, none)) ↔ All (λ c. c.phase ≡ wanted opts) cs
unfolding fold_children
fold_children-passed opts i [] h = ground arith
fold_children-passed opts i (c ∷ cs) h =
    ground (arith, fold_children-passed opts (i + 1) cs h.1, fold_children-some opts (i + 1) i cs)

verdict_of-passed :
    (opts : AggregateOpts) (i : ℕ) (cs ds : List ChildOutcome) (first : Option ℕ)
    → ((verdict_of opts ds (fold_children opts i first cs)).phase ≡ Phase.passed)
      ↔ (fold_children opts i first cs ≡ (none, none))
unfolding fold_children verdict_of
verdict_of-passed opts i [] ds none = ground arith
verdict_of-passed opts i [] ds (some j) = ground arith
verdict_of-passed opts i (c ∷ cs) ds first =
    ground (arith, verdict_of-passed opts (i + 1) cs ds (note_failed opts i c.phase first))

-- A step whose children all ended passes exactly when it has children and each came to what the step
-- wants: passed, or failed if the step is negative.
pub aggregate-passed_iff :
    (cs : List ChildOutcome) (opts : AggregateOpts)
    → All (λ c. IsFinal c.phase) cs
    → ((aggregate cs opts).phase ≡ Phase.passed) ↔ ((cs ≢ []) × All (λ c. c.phase ≡ wanted opts) cs)
unfolding aggregate
aggregate-passed_iff [] opts h = ground arith
aggregate-passed_iff (c ∷ cs) opts h =
    let (e, b) = verdict_of-passed opts 0 (c ∷ cs) (c ∷ cs) none in
    let (f, g) = fold_children-passed opts 0 (c ∷ cs) h in
    (λ p. (λ q. cc, f (e p)), λ (_, a). b (g a))

first_severe_child :
    (opts : AggregateOpts) (i : ℕ) (first : Option ℕ) (before : List ChildOutcome)
    (c : ChildOutcome) (after ds : List ChildOutcome)
    → All (λ b. ¬ IsSevere b.phase) before
    → IsSevere c.phase
    → (verdict_of opts ds (fold_children opts i first (before ++ c ∷ after))).phase ≡ c.phase
unfolding fold_children verdict_of
first_severe_child opts i first [] c after ds h s = ground arith
first_severe_child opts i first (b ∷ before) c after ds h s = ground (
  arith,
  first_severe_child opts (i + 1) (note_failed opts i b.phase first) before c after ds h.1 s,
)

-- A step with an aborted child or one in error takes the phase of the first such child in the order of
-- the children, whatever the others came to and whether or not the step is negative.
aggregate_first_severe :
    (opts : AggregateOpts) (before : List ChildOutcome) (c : ChildOutcome)
    (after : List ChildOutcome)
    → All (λ b. ¬ IsSevere b.phase) before
    → IsSevere c.phase
    → (aggregate (before ++ c ∷ after) opts).phase ≡ c.phase
unfolding aggregate
aggregate_first_severe opts [] c after h s =
    first_severe_child opts 0 none [] c after (c ∷ after) h s
aggregate_first_severe opts (b ∷ before) c after h s =
    first_severe_child opts 0 none (b ∷ before) c after (b ∷ before ++ c ∷ after) h s

unfoldable pub flipped : ChildOutcome → ChildOutcome
unfolding inverted
flipped c = record { phase = inverted (record { negative = true }) c.phase }

abbrev pub negatively : AggregateOpts
negatively = record { negative = true }

abbrev pub plainly : AggregateOpts
plainly = record { negative = false }

fold_children_negative :
    (i : ℕ) (first : Option ℕ) (cs : List ChildOutcome)
    → fold_children negatively i first (map flipped cs) ≡ fold_children plainly i first cs
unfolding fold_children flipped
fold_children_negative i first [] = refl
fold_children_negative i first (c ∷ cs) =
    ground (arith, fold_children_negative (i + 1) (note_failed plainly i c.phase first) cs)

count_failed_negative :
    (cs : List ChildOutcome) → count_failed negatively (map flipped cs) ≡ count_failed plainly cs
unfolding count_failed flipped
count_failed_negative [] = refl
count_failed_negative (c ∷ cs) = ground (arith, count_failed_negative cs)

verdict_of_negative :
    (cs : List ChildOutcome) (r : Option StepVerdict × Option ℕ)
    → verdict_of negatively (map flipped cs) r ≡ verdict_of plainly cs r
unfolding verdict_of
verdict_of_negative cs (some v, first) = refl
verdict_of_negative cs (none, some j) = simp (count_failed_negative, length-map)
verdict_of_negative cs (none, none) = simp (length-map)

-- A negative step is a plain step of children whose passed and failed are exchanged, its message
-- included.
aggregate_negative :
    (cs : List ChildOutcome) → aggregate (map flipped cs) negatively ≡ aggregate cs plainly
unfolding aggregate
aggregate_negative [] = refl
aggregate_negative (c ∷ cs) =
    verdict_of_negative (c ∷ cs) (fold_children negatively 0 none (map flipped (c ∷ cs)))
    ∙ ap (verdict_of plainly (c ∷ cs)) (fold_children_negative 0 none (c ∷ cs))
