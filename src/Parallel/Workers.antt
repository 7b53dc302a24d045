-- ===== src/Parallel/Workers.antt =====
-- internal/compiler/parallel.go: the workers that `spec.parallel` stands for.
use kubetest_alt.Base.{
  ℕ, zero, suc, ◌+◌, ◌-◌, ◌*◌, ◌/◌, Option, none, some, List, [], ◌∷◌, ◌++◌, Str, codes, str_ltb,
  length, take, drop, ltb, if◌then◌else◌,
}
use kubetest_alt.Api.{StrMap, ParallelSpec}
use kubetest_alt.Controller.Setup.{join}

-- `Worker`.
pub record Worker : Type 0 where
  pub index : ℕ
  pub count : ℕ
  pub matrix : StrMap Str
  pub shard : StrMap Str

-- `slices.Sorted(maps.Keys(…))`, with the values of the keys.
unfoldable pub insert_key {ℓ} : {A : Type ℓ} → Str × A → List (Str × A) → List (Str × A)
insert_key e [] = e ∷ []
insert_key e (x ∷ xs) =
    let rest = insert_key e xs in if str_ltb e.0 x.0 then e ∷ x ∷ xs else x ∷ rest

unfoldable pub sort_keys {ℓ} : {A : Type ℓ} → List (Str × A) → List (Str × A)
unfolding insert_key
sort_keys [] = []
sort_keys (x ∷ xs) = insert_key x (sort_keys xs)

-- The loop over the values: `n[key] = v` in a clone of the combination, which has no such key yet.
unfoldable pub with_values : Str → StrMap Str → List Str → List (StrMap Str)
with_values key c [] = []
with_values key c (v ∷ vs) = (c ++ (key, v) ∷ []) ∷ with_values key c vs

-- The loop over the combinations so far.
unfoldable pub extend_combos : Str → List Str → List (StrMap Str) → List (StrMap Str)
unfolding with_values
extend_combos key vs [] = []
extend_combos key vs (c ∷ cs) = with_values key c vs ++ extend_combos key vs cs

-- The loop over the keys.
unfoldable pub matrix_combos : StrMap (List Str) → List (StrMap Str) → List (StrMap Str)
unfolding extend_combos
matrix_combos [] combos = combos
matrix_combos ((key, vs) ∷ m) combos = matrix_combos m (extend_combos key vs combos)

abbrev pub max : ℕ → ℕ → ℕ
max a b = if ltb a b then b else a

abbrev pub min : ℕ → ℕ → ℕ
min a b = if ltb b a then b else a

-- The longest of the lists, as the loop finds it.
unfoldable pub longest : StrMap (List Str) → ℕ → ℕ
longest [] per = per
longest ((key, vs) ∷ m) per = longest m (max per (length vs))

abbrev pub capped : Option ℕ → ℕ → ℕ
capped none per = per
capped (some n) per = min per n

-- `per`: the workers of one combination.
unfoldable pub workers_per : ParallelSpec → ℕ
unfolding longest
workers_per p = elim p.count [
  | some n ↦ n
  | none ↦ elim p.shards [ [] ↦ 1 | s ∷ ss ↦ max (capped p.max_count (longest (s ∷ ss) 0)) 1 ]
]

-- `values[lo:hi]` of shard number `j`.
unfoldable pub shard_part : List Str → ℕ → ℕ → List Str
shard_part values per j =
    let lo = j * length values / per in
    let hi = (j + 1) * length values / per in take (hi - lo) (drop lo values)

-- The loop over the lists of shards.
unfoldable pub shard_of : StrMap (List Str) → ℕ → ℕ → StrMap Str
unfolding shard_part join
shard_of [] per j = []
shard_of ((key, values) ∷ m) per j =
    (key, join (codes ",") (shard_part values per j)) ∷ shard_of m per j

-- The workers of one combination, from shard `j` on, of which `left` are left.
unfoldable pub combo_workers : ParallelSpec → StrMap Str → ℕ → ℕ → ℕ → ℕ → ℕ → List Worker
unfolding shard_of
combo_workers p c total per zero j index = []
combo_workers p c total per (suc left) j index =
    record { index = index; count = total; matrix = c; shard = shard_of p.shards per j }
    ∷ combo_workers p c total per left (j + 1) (index + 1)

unfoldable pub all_workers : ParallelSpec → List (StrMap Str) → ℕ → ℕ → ℕ → List Worker
unfolding combo_workers
all_workers p [] total per index = []
all_workers p (c ∷ cs) total per index =
    combo_workers p c total per per 0 index ++ all_workers p cs total per (index + per)

-- `ParallelWorkers`.
unfoldable pub parallel_workers : ParallelSpec → List Worker
unfolding workers_per matrix_combos sort_keys all_workers
parallel_workers p =
    let combos = matrix_combos (sort_keys p.matrix) ([] ∷ []) in
    let per = workers_per p in all_workers p combos (length combos * per) per 0
