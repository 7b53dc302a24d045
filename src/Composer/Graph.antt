-- ===== src/Composer/Graph.antt =====
-- `ResolveGraph` of internal/composer/aggregate.go: the execute graph of a composite Test.
use kubetest_alt.Base.{
  ℕ, zero, suc, ◌≤◌, ◌<◌, ◌≡◌, Bool, false, ◌||◌, Option, none, some, List, [], ◌∷◌, ◌++◌, map, Str,
  str_eq, Any, inl, inr, arith, if◌then◌else◌,
}
use kubetest_alt.Api.{TestSpec, Step, StepExecuteTest}

-- The two errors, with the path of a cycle and the name at which the depth is exceeded.
pub data GraphError : Type 0 where
  cycle : List Str → GraphError
  depth_limit : Str → GraphError

abbrev pub max_depth : ℕ
max_depth = 10

abbrev name_of : StepExecuteTest → Str
name_of t = t.name

-- The names that the steps of a Test execute, in the order of the loops.
unfoldable pub executed : List Step → List Str
executed [] = []
executed (s ∷ ss) = elim s.execute [ none ↦ [] | some x ↦ map name_of x.tests ] ++ executed ss

unfoldable pub is_visiting : Str → List Str → Bool
is_visiting n [] = false
is_visiting n (m ∷ ms) = str_eq n m || is_visiting n ms

unfoldable pub first_error : (Str → Option GraphError) → List Str → Option GraphError
first_error f [] = none
first_error f (t ∷ ts) = let rest = first_error f ts in elim (f t) [ some e ↦ some e | none ↦ rest ]

-- `walk`. The first number is how many more levels the limit leaves, `path` the names being visited;
-- `lookup` answers for the Tests of the namespace.
unfoldable pub walk : (Str → Option TestSpec) → ℕ → List Str → Str → TestSpec → Option GraphError
unfolding executed is_visiting first_error
walk lookup zero path name spec = some (depth_limit name)
walk lookup (suc left) path name spec =
    if is_visiting name path
    then some (cycle (path ++ name ∷ []))
    else first_error
        (λ t. elim (lookup t) [
          | none ↦ none
          | some child ↦ walk lookup left (path ++ name ∷ []) t child
        ])
        (executed spec.steps)

-- `ResolveGraph`.
unfoldable pub resolve_graph : Str → TestSpec → (Str → Option TestSpec) → Option GraphError
unfolding walk
resolve_graph root spec lookup = walk lookup (suc max_depth) [] root spec

-- From a Test one gets down the execute graph by so many edges.
pub data Descends (lookup : Str → Option TestSpec) : TestSpec → ℕ → Type 0 where
  here : {spec : TestSpec} → Descends lookup spec 0
  down :
      {spec child : TestSpec} {t : Str} {k : ℕ}
      → Any (λ u. u ≡ t) (executed spec.steps)
      → lookup t ≡ some child
      → Descends lookup child k
      → Descends lookup spec (suc k)

first_error-none :
    (f : Str → Option GraphError) (ts : List Str) (t : Str)
    → first_error f ts ≡ none
    → Any (λ u. u ≡ t) ts
    → f t ≡ none
unfolding first_error
first_error-none f [] t h m = absurd m
first_error-none f (u ∷ ts) t h (inl e) = ground (arith, h, e)
first_error-none f (u ∷ ts) t h (inr m) = ground (arith, h, first_error-none f ts t)

walk_child :
    (lookup : Str → Option TestSpec) (left : ℕ) (path : List Str) (name t : Str)
    (spec child : TestSpec)
    → walk lookup (suc left) path name spec ≡ none
    → Any (λ u. u ≡ t) (executed spec.steps)
    → lookup t ≡ some child
    → walk lookup left (path ++ name ∷ []) t child ≡ none
unfolding walk
walk_child lookup left path name t spec child h m l =
    let f : Str → Option GraphError =
      λ u. elim (lookup u) [ none ↦ none | some c ↦ walk lookup left (path ++ name ∷ []) u c ] in
    let all : first_error f (executed spec.steps) ≡ none = ground (arith, h) in
    let one = first_error-none f (executed spec.steps) t all m in ground (arith, one, l)

walk_bounds :
    (lookup : Str → Option TestSpec) (left : ℕ) (path : List Str) (name : Str) (spec : TestSpec)
    (k : ℕ)
    → walk lookup left path name spec ≡ none
    → Descends lookup spec k
    → k < left
unfolding walk
walk_bounds lookup zero path name spec k h d = ground (arith, h)
walk_bounds lookup (suc left) path name spec zero h here = ground arith
walk_bounds lookup (suc left) path name spec (suc k) h (down {child = child} {t = t} m l d) =
    omega (
      arith,
      walk_bounds lookup left (path ++ name ∷ []) t child k
          (walk_child lookup left path name t spec child h m l) d,
    )

-- Where the graph of a root resolves, every way down from it along executed Tests that exist has at
-- most ten edges; so there is no cycle below it, around which ways of any length would go.
pub resolve_graph_bounds :
    (root : Str) (spec : TestSpec) (lookup : Str → Option TestSpec) (k : ℕ)
    → resolve_graph root spec lookup ≡ none
    → Descends lookup spec k
    → k ≤ max_depth
unfolding resolve_graph
resolve_graph_bounds root spec lookup k h d =
    omega (arith, walk_bounds lookup (suc max_depth) [] root spec k h d)
