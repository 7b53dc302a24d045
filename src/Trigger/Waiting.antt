-- ===== src/Trigger/Waiting.antt =====
-- Which gates of internal/controller/testtrigger_gate.go an evaluation lets wait on.
use mathlib.Core.Path.{subst}
use kubetest_alt.Base.{
  ◌+◌, ◌*◌, ◌≤◌, ◌<◌, ◌⊎◌, ◌↔◌, Str, str_eq_iff, Option-cases, some, ◌≡◌, refl, sym, ap, ◌∙◌, Bool,
  true, false, not, List, [], ◌∷◌, All, arith, inl, inr, if◌then◌else◌,
}
use kubetest_alt.Api.{Time}
use kubetest_alt.Trigger.Gate.{
  is_named, ConditionEntry, TriggerCondition, find_condition, condition_met, second, fired,
  already_handled, Gate, FireAnswer, fire_failed, conditions_met, in_delay, timed_out,
}

-- A gate waits on: its delay is not over, or its conditions are met and firing failed, or they are not
-- met and it has not timed out.
unfoldable pub stays : (Gate → FireAnswer) → Time → Gate → Bool
stays fire now g =
    if in_delay now g
    then true
    else if conditions_met g.spec.conditions g.target now
    then elim (fire g) [ fire_failed _ ↦ true | _ ↦ false ]
    else not (timed_out now g)

-- A condition of the trigger is met by the first condition of its kind that the target shows: its status
-- is the wanted one, its reason too where one is wanted, and it has held for the wanted time.
abbrev pub Met : List ConditionEntry → Time → TriggerCondition → Type 0
Met got now want =
    (c : ConditionEntry) × (find_condition got want.kind ≡ some c)
    × (c.status ≡ want.status)
    × ((want.reason ≡ []) ⊎ (c.reason ≡ want.reason))
    × (c.last_transition + want.ttl * second ≤ now ⊎ (want.ttl ≡ 0))

is_named_iff : (s : Str) → (is_named s ≡ false) ↔ (s ≡ [])
is_named_iff [] = ground arith
is_named_iff (c ∷ s) = ground arith

condition_met_iff :
    (got : List ConditionEntry) (now : Time) (want : TriggerCondition)
    → (condition_met got now want ≡ true) ↔ Met got now want
unfolding condition_met
condition_met_iff got now want =
    let named = is_named_iff want.reason in
    elim (Option-cases (find_condition got want.kind)) [
      | inl n ↦
          (λ h. absurd (ground (arith, n, h)), λ (c, e, _, _, _). absurd (ground (arith, n, e)))
      | inr (c, e) ↦
          let status = str_eq_iff c.status want.status in
          let reason = str_eq_iff c.reason want.reason in
          (
            λ h. (
              c,
              e,
              ground (arith, e, h, status),
              ground (arith, e, h, reason, named),
              ground (arith, e, h),
            ),
            λ (d, f, s, r, t).
                let same : c ≡ d = cc in
                let s' : c.status ≡ want.status = ap (λ (x : ConditionEntry). x.status) same ∙ s in
                let r' =
                  subst (λ (x : ConditionEntry). (want.reason ≡ []) ⊎ (x.reason ≡ want.reason))
                    (sym same) r in
                let t' =
                  subst
                    (λ (x : ConditionEntry).
                      (x.last_transition + want.ttl * second ≤ now) ⊎ (want.ttl ≡ 0))
                    (sym same) t in
                ground (arith, e, s', r', t', status, reason, named),
          )
    ]

conditions_met_iff :
    (wants : List TriggerCondition) (got : List ConditionEntry) (now : Time)
    → (conditions_met wants got now ≡ true) ↔ All (Met got now) wants
unfolding conditions_met
conditions_met_iff [] got now = ground arith
conditions_met_iff (want ∷ wants) got now =
    let here = condition_met_iff got now want in
    let rest = conditions_met_iff wants got now in ground (arith, here, rest)

-- A gate waits on: its delay is not over; or its conditions are met and firing failed; or they are not
-- met, and it has no timeout or this, counted from the end of the delay, is not over.
abbrev pub Waits : (Gate → FireAnswer) → Time → Gate → Type 0
Waits fire now g =
    (now < g.event_time + g.spec.delay * second)
    ⊎ (All (Met g.target now) g.spec.conditions × ((why : Str) × (fire g ≡ fire_failed why)))
    ⊎ ((¬ All (Met g.target now) g.spec.conditions)
        × ((g.spec.timeout ≡ 0) ⊎ (now ≤ g.event_time + (g.spec.delay + g.spec.timeout) * second)))

fire_failed_iff :
    (a : FireAnswer)
    → ((elim a [ fire_failed _ ↦ true | _ ↦ false ]) ≡ true) ↔ ((why : Str) × (a ≡ fire_failed why))
fire_failed_iff fired = (λ h. absurd (ground (arith, h)), λ (w, e). absurd (ground (arith, e)))
fire_failed_iff (already_handled x) =
    (λ h. absurd (ground (arith, h)), λ (w, e). absurd (ground (arith, e)))
fire_failed_iff (fire_failed x) = (λ _. (x, refl), λ _. refl)

pub stays_iff :
    (fire : Gate → FireAnswer) (now : Time) (g : Gate)
    → (stays fire now g ≡ true) ↔ Waits fire now g
unfolding stays in_delay timed_out
stays_iff fire now g =
    let met = conditions_met_iff g.spec.conditions g.target now in
    let failing = fire_failed_iff (fire g) in ground (arith, met, failing)
