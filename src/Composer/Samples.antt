-- ===== src/Composer/Samples.antt =====
-- Steps and runs on which the theorems of the composer are tried out.
use kubetest_alt.Base.{
  ◌≤◌, Str, str_eq, if◌then◌else◌, ◌≡◌, refl, inl, Bool, true, false, Option, none, some, List, [],
  ◌∷◌, codes, itoa,
}
use kubetest_alt.Api.{Phase, TestSpec}
use kubetest_alt.Composer.Aggregate.{ChildOutcome, StepVerdict, aggregate}
use kubetest_alt.Composer.Verdicts.{plainly}
use kubetest_alt.Composer.Graph.{
  cycle, resolve_graph, executed, max_depth, here, down, resolve_graph_bounds,
}

abbrev child : Phase → ChildOutcome
child p = record { phase = p }

abbrev verdict : Phase → StepVerdict
verdict p = record { phase = p; message = [] }

abbrev mixed : List ChildOutcome
mixed = child Phase.passed ∷ child Phase.failed ∷ []

mixed_fails :
    (aggregate mixed plainly).message ≡ codes "aggregate: 1/2 children failed (first: index 1)"
unfolding aggregate itoa
mixed_fails = refl

abbrev with_optional : List (Option StepVerdict)
with_optional = some (verdict Phase.passed) ∷ none ∷ some (verdict Phase.failed) ∷ []

abbrev optional_flags : List Bool
optional_flags = false ∷ false ∷ true ∷ []

abbrev composite_of : Str → TestSpec
composite_of child_name = record {
  content = record { git = false; tarball = 0; files = 0; test_data = 0 };
  pod = none;
  security_context = none;
  steps =
      record {
        execute =
            some (record { parallelism = 0; tests = record { name = child_name; count = 1 } ∷ [] });
        optional = false;
        negative = false;
        condition = [];
        retry = none;
        delay = none;
        timeout = none;
      }
      ∷ [];
  services = 0;
  parallel = none;
  concurrency_policy = [];
}

abbrev leaf : TestSpec
leaf = record (composite_of []) { steps = [] }

abbrev one_child : Str → Option TestSpec
one_child name = if str_eq name (codes "b") then some leaf else none

abbrev own_child : Str → Option TestSpec
own_child name = some (composite_of (codes "a"))

own_child_cycle :
    resolve_graph (codes "a") (composite_of (codes "a")) own_child
    ≡ some (cycle (codes "a" ∷ codes "a" ∷ []))
unfolding resolve_graph str_eq
own_child_cycle = refl

resolve_graph_bounds_example : 1 ≤ max_depth
unfolding resolve_graph executed str_eq
resolve_graph_bounds_example =
    resolve_graph_bounds (codes "a") (composite_of (codes "b")) one_child 1 refl
      (down (inl refl) refl here)
