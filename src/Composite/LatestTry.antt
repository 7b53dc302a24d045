-- ===== src/Composite/LatestTry.antt =====
-- internal/controller/composite.go: the latest try of a child.
use mathlib.Core.Path.{subst}
use kubetest_alt.Base.{
  ℕ, zero, suc, ◌≤◌, ◌<◌, ◌≡◌, sym, inl, inr, Bool-cases, Option-cases, none, some, List, ◌==◌,
  ==_iff, Str, arith,
}
use kubetest_alt.Composite.Children.{
  ChildRun, ExpectedChild, attempt_name, find_child, latest_attempt,
}

-- Try `n` is there and no later one up to `retries`.
abbrev pub IsLatest : (Str → Str) → List ChildRun → ExpectedChild → ℕ → ChildRun → ℕ → Type 0
IsLatest hex_sum kids x retries c n =
    (n ≤ retries)
    × (find_child kids (attempt_name hex_sum x n) ≡ some c)
    × ((m : ℕ) → n < m → m ≤ retries → find_child kids (attempt_name hex_sum x m) ≡ none)

later :
    (n r : ℕ) (P : ℕ → Type 0)
    → ((m : ℕ) → n < m → m ≤ r → P m)
    → P (suc r)
    → (m : ℕ) → n < m
    → m ≤ suc r
    → P m
later n r P h last m a b = elim (Bool-cases (m == suc r)) [
  | inl e ↦ subst P (sym ((==_iff m (suc r)).0 e)) last
  | inr e ↦ h m a (ground arith)
]

pub latest_attempt-IsLatest :
    (hex_sum : Str → Str) (kids : List ChildRun) (x : ExpectedChild) (r : ℕ) (c : ChildRun) (n : ℕ)
    → latest_attempt hex_sum kids x r ≡ some (c, n)
    → IsLatest hex_sum kids x r c n
unfolding latest_attempt
latest_attempt-IsLatest hex_sum kids x zero c n h =
    elim (Option-cases (find_child kids (attempt_name hex_sum x zero))) [
      | inl f ↦ absurd (ground (arith, f))
      | inr (d, f) ↦ (ground (arith, f), ground (arith, f), λ m a b. ground (arith, f))
    ]
latest_attempt-IsLatest hex_sum kids x (suc r) c n h =
    elim (Option-cases (find_child kids (attempt_name hex_sum x (suc r)))) [
      | inl f ↦
          let (a, b, l) = latest_attempt-IsLatest hex_sum kids x r c n (ground (arith, f)) in
          (omega arith, b, later n r (λ m. find_child kids (attempt_name hex_sum x m) ≡ none) l f)
      | inr (d, f) ↦ (ground (arith, f), ground (arith, f), λ m a b. ground (arith, f))
    ]

pub IsLatest-latest_attempt :
    (hex_sum : Str → Str) (kids : List ChildRun) (x : ExpectedChild) (r : ℕ) (c : ChildRun) (n : ℕ)
    → IsLatest hex_sum kids x r c n
    → latest_attempt hex_sum kids x r ≡ some (c, n)
unfolding latest_attempt
IsLatest-latest_attempt hex_sum kids x zero c zero (a, b, l) = ground (arith, b)
IsLatest-latest_attempt hex_sum kids x zero c (suc n) (a, b, l) = absurd (omega arith)
IsLatest-latest_attempt hex_sum kids x (suc r) c n (a, b, l) = elim (Bool-cases (n == suc r)) [
  | inl e ↦
      subst
        (λ m.
          find_child kids (attempt_name hex_sum x m) ≡ some c
          → latest_attempt hex_sum kids x (suc r) ≡ some (c, m))
        (sym ((==_iff n (suc r)).0 e)) (λ f. ground (arith, f)) b
  | inr e ↦
      let f = l (suc r) (ground arith) (omega arith) in
      let earlier =
        IsLatest-latest_attempt hex_sum kids x r c n
          (ground arith, b, λ m s t. l m s (omega arith)) in
      ground (arith, f, earlier)
]
