-- ===== src/Parallel/Numbering.antt =====
-- internal/compiler/parallel.go: the numbers of the workers.
use mathlib.Core.Path.{subst}
use kubetest_alt.Base.{
  ℕ, zero, suc, ◌+◌, ◌*◌, ◌≡◌, refl, sym, ap, List, [], ◌∷◌, ◌++◌, Str, length, arith,
  length-append,
}
use kubetest_alt.Api.{StrMap, ParallelSpec}
use kubetest_alt.Parallel.Workers.{
  Worker, sort_keys, matrix_combos, workers_per, combo_workers, all_workers, parallel_workers,
}

-- The workers have the numbers from the first one on, and know how many there are.
abbrev pub Numbered : ℕ → ℕ → List Worker → Type 0
Numbered i total [] = Unit
Numbered i total (w ∷ ws) = (w.index ≡ i) × (w.count ≡ total) × Numbered (i + 1) total ws

Numbered-append :
    (i j total : ℕ) (xs ys : List Worker)
    → i + length xs ≡ j
    → Numbered i total xs
    → Numbered j total ys
    → Numbered i total (xs ++ ys)
Numbered-append i j total [] ys e h k =
    let s : j ≡ i = omega (arith, e) in subst (λ n. Numbered n total ys) s k
Numbered-append i j total (x ∷ xs) ys e h k =
    (h.0, h.1, Numbered-append (i + 1) j total xs ys (omega (arith, e)) h.2 k)

combo_workers-Numbered :
    (p : ParallelSpec) (c : StrMap Str) (total per left j i : ℕ)
    → Numbered i total (combo_workers p c total per left j i)
      × (length (combo_workers p c total per left j i) ≡ left)
unfolding combo_workers
combo_workers-Numbered p c total per zero j i = (tt, refl)
combo_workers-Numbered p c total per (suc left) j i =
    let (n, l) = combo_workers-Numbered p c total per left (j + 1) (i + 1) in
    ((refl, refl, n), ap suc l)

all_workers-Numbered :
    (p : ParallelSpec) (cs : List (StrMap Str)) (total per i : ℕ)
    → Numbered i total (all_workers p cs total per i)
      × (length (all_workers p cs total per i) ≡ length cs * per)
unfolding all_workers
all_workers-Numbered p [] total per i = (tt, omega arith)
all_workers-Numbered p (c ∷ cs) total per i =
    let (n, l) = combo_workers-Numbered p c total per per 0 i in
    let (m, k) = all_workers-Numbered p cs total per (i + per) in
    let here = combo_workers p c total per per 0 i in
    let later = all_workers p cs total per (i + per) in
    let both = length-append here later in
    (Numbered-append i (i + per) total here later (omega (arith, l)) n m, omega (arith, l, k, both))

-- The workers of a parallel run are numbered from 0 on, and each knows how many there are in all.
pub parallel_workers-Numbered :
    (p : ParallelSpec) → Numbered 0 (length (parallel_workers p)) (parallel_workers p)
unfolding parallel_workers
parallel_workers-Numbered p =
    let combos = matrix_combos (sort_keys p.matrix) ([] ∷ []) in
    let per = workers_per p in
    let total = length combos * per in
    let (n, l) = all_workers-Numbered p combos total per 0 in
    subst (λ t. Numbered 0 t (all_workers p combos total per 0)) (sym l) n
