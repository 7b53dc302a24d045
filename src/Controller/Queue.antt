-- ===== src/Controller/Queue.antt =====
-- internal/controller/concurrency.go: the runs of a Test that wait under `concurrencyPolicy: Forbid`.
use mathlib.Core.Path.{subst}
use kubetest_alt.Base.{
  ◌≡◌, refl, ◌↔◌, ◌⊎◌, ◌≢◌, inl, inr, true, false, List, [], ◌∷◌, length, Str, str_eq_iff,
  str_eq_refl, All, Any, arith, Bool-cases, str_ltb_irrefl, str_ltb_trans, str_ltb_total,
}
use kubetest_alt.Api.{TestRun}
use kubetest_alt.Controller.Phases.{is_terminal_phase, is_open_phase}
use kubetest_alt.Controller.Concurrency.{
  concurrency_proceed, concurrency_replace_prior, policy_forbid, policy_replace, has_started,
  active_prior_count, queued_before, forbid_blocks, any_blocks, decide_concurrency,
  select_priors_to_abort,
}

queued_before_irrefl : (a : TestRun) → queued_before a a ≡ false
unfolding queued_before
queued_before_irrefl a = ground (arith, str_ltb_irrefl a.name)

queued_before_trans :
    (a b c : TestRun)
    → queued_before a b ≡ true
    → queued_before b c ≡ true
    → queued_before a c ≡ true
unfolding queued_before
queued_before_trans a b c h k = ground (arith, str_ltb_trans a.name b.name c.name)

abbrev pub Among : TestRun → List TestRun → Type 0
Among r ps = Any (λ p. p ≡ r) ps

-- The run has not ended.
abbrev pub IsOpen : TestRun → Type 0
IsOpen p = is_open_phase p.status.phase ≡ true

-- No open run of the list is before the run.
abbrev First : TestRun → List TestRun → Type 0
First m ps = All (λ p. IsOpen p → queued_before p m ≡ false) ps

First-older :
    (x m : TestRun) (ps : List TestRun) → queued_before x m ≡ true → First m ps → First x ps
First-older x m [] e h = tt
First-older x m (p ∷ ps) e h = (
  λ o. let f = h.0 o in ground (arith, queued_before_trans p x m, e, f),
  First-older x m ps e h.1,
)

none-First : (x : TestRun) (ps : List TestRun) → All (λ p. ¬ IsOpen p) ps → First x ps
none-First x [] h = tt
none-First x (p ∷ ps) h = (λ o. absurd (h.0 o), none-First x ps h.1)

-- A list has an open run that no other open one is before, or no open run.
First-IsOpen :
    (ps : List TestRun)
    → All (λ p. ¬ IsOpen p) ps ⊎ ((m : TestRun) × Among m ps × IsOpen m × First m ps)
First-IsOpen [] = inl tt
First-IsOpen (p ∷ ps) = elim (Bool-cases (is_open_phase p.status.phase)) [
  | inr c ↦ elim (First-IsOpen ps) [
    | inl h ↦ inl (λ o. ground (arith, o, c), h)
    | inr (m, a, o, h) ↦ inr (m, inr a, o, (λ q. absurd (ground (arith, q, c)), h))
  ]
  | inl o ↦ elim (First-IsOpen ps) [
    | inl h ↦ inr (p, inl refl, o, (λ _. queued_before_irrefl p, none-First p ps h))
    | inr (m, a, q, h) ↦ elim (Bool-cases (queued_before p m)) [
      | inl e ↦ inr (p, inl refl, o, (λ _. queued_before_irrefl p, First-older p m ps e h))
      | inr e ↦ inr (m, inr a, q, (λ _. e, h))
    ]
  ]
]

unblocked :
    (ps : List TestRun) (m : TestRun)
    → All (λ p. IsOpen p → has_started p ≡ false) ps
    → First m ps
    → All (λ p. forbid_blocks p m ≡ false) ps
unfolding forbid_blocks is_terminal_phase
unblocked [] m h k = tt
unblocked (p ∷ ps) m (a, h) (b, k) = (ground (arith, a, b), unblocked ps m h k)

any_blocks_none :
    (ps : List TestRun) (self : TestRun)
    → All (λ p. forbid_blocks p self ≡ false) ps
    → any_blocks ps self ≡ false
unfolding any_blocks
any_blocks_none [] self h = refl
any_blocks_none (p ∷ ps) self h = ground (arith, any_blocks_none ps self h.1)

any_blocks_some :
    (ps : List TestRun) (p self : TestRun)
    → Among p ps
    → forbid_blocks p self ≡ true
    → any_blocks ps self ≡ true
unfolding any_blocks
any_blocks_some [] p self m h = absurd m
any_blocks_some (q ∷ ps) p self (inl e) h = ground arith
any_blocks_some (q ∷ ps) p self (inr m) h = ground (arith, any_blocks_some ps p self m h)

decide_forbid :
    (ps : List TestRun) (self : TestRun)
    → (decide_concurrency ps self policy_forbid ≡ concurrency_proceed)
      ↔ (any_blocks ps self ≡ false)
unfolding decide_concurrency
decide_forbid ps self = ground (arith, str_eq_refl policy_forbid)

none-Among : (ps : List TestRun) (w : TestRun) → All (λ p. ¬ IsOpen p) ps → Among w ps → ¬ IsOpen w
none-Among [] w h there = absurd there
none-Among (p ∷ ps) w h (inl e) = subst (λ r. ¬ IsOpen r) e h.0
none-Among (p ∷ ps) w h (inr m) = none-Among ps w h.1 m

-- Where a run of a Test is open and no open one has been set up, one of the open runs is told to
-- proceed, however many have ended.
pub waiting_run_proceeds :
    (ps : List TestRun) (w : TestRun)
    → Among w ps
    → IsOpen w
    → All (λ p. IsOpen p → has_started p ≡ false) ps
    → (m : TestRun) × Among m ps
      × IsOpen m
      × (decide_concurrency ps m policy_forbid ≡ concurrency_proceed)
waiting_run_proceeds ps w there o h = elim (First-IsOpen ps) [
  | inl none ↦ absurd (none-Among ps w none there o)
  | inr (m, a, q, f) ↦ (m, a, q, (decide_forbid ps m).1 (any_blocks_none ps m (unblocked ps m h f)))
]

mutual_block :
    (a b : TestRun)
    → is_terminal_phase a.status.phase ≡ false
    → is_terminal_phase b.status.phase ≡ false
    → a.uid ≢ b.uid
    → a.name ≢ b.name
    → (forbid_blocks a b ≡ true) ⊎ (forbid_blocks b a ≡ true)
unfolding forbid_blocks
mutual_block a b ta tb u n =
    ground (arith, str_eq_iff a.uid b.uid, str_eq_iff b.uid a.uid, str_ltb_total a.name b.name)

-- Under Forbid two active runs of a Test, with their own UIDs and names, are never both told to
-- proceed.
pub forbid_exclusive :
    (ps : List TestRun) (a b : TestRun)
    → Among a ps
    → Among b ps
    → is_terminal_phase a.status.phase ≡ false
    → is_terminal_phase b.status.phase ≡ false
    → a.uid ≢ b.uid
    → a.name ≢ b.name
    → decide_concurrency ps a policy_forbid ≡ concurrency_proceed
    → decide_concurrency ps b policy_forbid ≢ concurrency_proceed
forbid_exclusive ps a b ma mb ta tb u n pa pb = ground (
  arith,
  decide_forbid ps a,
  decide_forbid ps b,
  any_blocks_some ps a b ma,
  any_blocks_some ps b a mb,
  mutual_block a b ta tb u n,
)

length-select :
    (ps : List TestRun) (self : TestRun)
    → length (select_priors_to_abort ps self) ≡ active_prior_count ps self
unfolding select_priors_to_abort active_prior_count
length-select [] self = refl
length-select (p ∷ ps) self = ground (arith, length-select ps self)

forbid_ne_replace : policy_forbid ≢ policy_replace
forbid_ne_replace e = ground (arith, e)

no_length : (ps : List TestRun) → (length ps ≡ 0) ↔ (ps ≡ [])
no_length [] = ground arith
no_length (p ∷ ps) = ground arith

-- A run replaces its priors exactly when the policy is Replace and there are priors to abort; those
-- are active and not the run itself.
decide_replace_iff :
    (ps : List TestRun) (self : TestRun) (policy : Str)
    → (decide_concurrency ps self policy ≡ concurrency_replace_prior)
      ↔ ((policy ≡ policy_replace) × (select_priors_to_abort ps self ≢ []))
unfolding decide_concurrency
decide_replace_iff ps self policy = ground (
  arith,
  str_eq_iff policy policy_forbid,
  str_eq_iff policy policy_replace,
  length-select ps self,
  forbid_ne_replace,
  no_length (select_priors_to_abort ps self),
)
