-- ===== src/Controller/Concurrency.antt =====
-- internal/controller/concurrency.go: what a new run does about the active runs of its Test.
use kubetest_alt.Base.{
  ℕ, suc, Bool, true, false, not, ◌||◌, List, [], ◌∷◌, Str, codes, str_eq, str_ltb, ltb, ◌==◌,
  if◌then◌else◌,
}
use kubetest_alt.Api.{TestRun, absent}
use kubetest_alt.Controller.Phases.{is_terminal_phase}

pub data ConcurrencyAction : Type 0 where
  concurrency_proceed concurrency_wait concurrency_replace_prior : ConcurrencyAction

abbrev pub policy_forbid : Str
policy_forbid = codes "Forbid"

abbrev pub policy_replace : Str
policy_replace = codes "Replace"

-- `run.Status.ResolvedSpec != ""`: the run has been set up.
unfoldable pub has_started : TestRun → Bool
has_started run = elim run.status.resolved_spec [ absent ↦ false | _ ↦ true ]

-- `self != nil && p.UID == self.UID`. Every caller passes a run, so `self` is one here.
unfoldable pub is_self : TestRun → TestRun → Bool
is_self p self = str_eq p.uid self.uid

unfoldable pub is_active : TestRun → Bool
is_active p = not (is_terminal_phase p.status.phase)

unfoldable pub active_prior_count : List TestRun → TestRun → ℕ
unfolding is_self is_active
active_prior_count [] self = 0
active_prior_count (p ∷ ps) self =
    let n = active_prior_count ps self in
    if is_self p self then n else if is_active p then suc n else n

unfoldable pub queued_before : TestRun → TestRun → Bool
queued_before a b =
    if not (a.created_at == b.created_at)
    then ltb a.created_at b.created_at
    else str_ltb a.name b.name

unfoldable pub forbid_blocks : TestRun → TestRun → Bool
unfolding is_self has_started queued_before
forbid_blocks p self =
    if is_terminal_phase p.status.phase || is_self p self
    then false
    else has_started p || queued_before p self

unfoldable pub any_blocks : List TestRun → TestRun → Bool
unfolding forbid_blocks
any_blocks [] self = false
any_blocks (p ∷ ps) self =
    let rest = any_blocks ps self in if forbid_blocks p self then true else rest

unfoldable pub decide_concurrency : List TestRun → TestRun → Str → ConcurrencyAction
unfolding any_blocks active_prior_count
decide_concurrency prior self policy =
    if str_eq policy policy_forbid
    then if any_blocks prior self then concurrency_wait else concurrency_proceed
    else if active_prior_count prior self == 0
    then concurrency_proceed
    else if str_eq policy policy_replace
    then concurrency_replace_prior
    else concurrency_proceed

unfoldable pub select_priors_to_abort : List TestRun → TestRun → List TestRun
unfolding is_self is_active
select_priors_to_abort [] self = []
select_priors_to_abort (p ∷ ps) self =
    let rest = select_priors_to_abort ps self in
    if is_self p self then rest else if is_active p then p ∷ rest else rest
