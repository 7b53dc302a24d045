-- ===== src/Trigger/Pending.antt =====
-- Which gates of internal/controller/testtrigger_gate.go wait on after an evaluation.
use kubetest_alt.Base.{
  ◌++◌, ◌↔◌, ◌≡◌, refl, sym, ap, ◌∙◌, Bool, true, false, List, [], ◌∷◌, All, arith, keep_if,
  Bool-cases, inl, inr, if◌then◌else◌,
}
use kubetest_alt.Api.{Time}
use kubetest_alt.Trigger.Gate.{
  Gate, GateOutcome, GateManager, FireAnswer, same_key, delete, enqueue_all, append_outcome, leave,
  evaluate_gate, evaluate_gates, evaluate,
}
use kubetest_alt.Trigger.Arrivals.{
  Distinct, delete_first, delete_other, same_key_sym, put, arrivals, IsNew, put-All,
  enqueue_all_gates, delete_behind, All-map, delete-apart,
}
use kubetest_alt.Trigger.Waiting.{stays, Waits, stays_iff}

append_outcome_gates : (oc : GateOutcome) (m : GateManager) → (append_outcome oc m).gates ≡ m.gates
unfolding append_outcome
append_outcome_gates oc m = ground arith

evaluate_gate_gates :
    (fire : Gate → FireAnswer) (now : Time) (g : Gate) (m : GateManager)
    → (evaluate_gate fire now g m).gates
      ≡ (if stays fire now g then m.gates else delete g.key m.gates)
unfolding evaluate_gate stays leave
evaluate_gate_gates fire now g m = grind (arith, append_outcome_gates)

-- The gates that a snapshot leaves.
abbrev purge : (Gate → FireAnswer) → Time → List Gate → List Gate → List Gate
purge fire now [] gs = gs
purge fire now (s ∷ ss) gs = purge fire now ss (if stays fire now s then gs else delete s.key gs)

apart_sym :
    (g : Gate) (gs : List Gate)
    → All (λ h. same_key g.key h.key ≡ false) gs
    → All (λ h. same_key h.key g.key ≡ false) gs
apart_sym g [] h = tt
apart_sym g (x ∷ xs) h = (same_key_sym g.key x.key h.0, apart_sym g xs h.1)

purge_cons :
    (fire : Gate → FireAnswer) (now : Time) (ss : List Gate) (g : Gate) (gs : List Gate)
    → All (λ s. same_key s.key g.key ≡ false) ss
    → purge fire now ss (g ∷ gs) ≡ g ∷ purge fire now ss gs
purge_cons fire now [] g gs h = refl
purge_cons fire now (s ∷ ss) g gs h = elim (Bool-cases (stays fire now s)) [
  | inl t ↦ rw t (purge_cons fire now ss g gs h.1)
  | inr f ↦ rw (f, delete_other s.key g gs h.0) (purge_cons fire now ss g (delete s.key gs) h.1)
]

keep_if_yes {ℓ} :
    {A : Type ℓ} (q : A → Bool) (x : A) (xs : List A)
    → q x ≡ true
    → keep_if q (x ∷ xs) ≡ x ∷ keep_if q xs
unfolding keep_if
keep_if_yes q x xs h = ground (arith, h)

keep_if_no {ℓ} :
    {A : Type ℓ} (q : A → Bool) (x : A) (xs : List A)
    → q x ≡ false
    → keep_if q (x ∷ xs) ≡ keep_if q xs
unfolding keep_if
keep_if_no q x xs h = ground (arith, h)

purge-keep_if :
    (fire : Gate → FireAnswer) (now : Time) (gs : List Gate)
    → Distinct gs
    → purge fire now gs gs ≡ keep_if (stays fire now) gs
purge-keep_if fire now [] d = unfold keep_if in refl
purge-keep_if fire now (g ∷ gs) d = elim (Bool-cases (stays fire now g)) [
  | inl t ↦
      rw (t, purge_cons fire now gs g gs (apart_sym g gs d.0))
        (ap (λ r. g ∷ r) (purge-keep_if fire now gs d.1)
          ∙ sym (keep_if_yes (stays fire now) g gs t))
  | inr f ↦
      rw (f, delete_first g gs d.0)
        (purge-keep_if fire now gs d.1 ∙ sym (keep_if_no (stays fire now) g gs f))
]

evaluate_gates-purge :
    (P : Gate → Type 0) (fire : Gate → FireAnswer) (arrive : Gate → List Gate) (now : Time)
    (ss : List Gate) (m : GateManager) (c o : List Gate)
    → m.gates ≡ c ++ o
    → All P c
    → All (λ s. All P (arrive s)) ss
    → ((a : Gate) → P a → IsNew ss a)
    → ((a : Gate) → P a → IsNew o a)
    → (evaluate_gates fire arrive now ss m).gates ≡ arrivals arrive ss c ++ purge fire now ss o
unfolding evaluate_gates
evaluate_gates-purge P fire arrive now [] m c o e k h n w = e
evaluate_gates-purge P fire arrive now (s ∷ ss) m c o e k h n w =
    let c' = put (arrive s) c in
    let k' = put-All P (arrive s) c h.0 k in
    let m' = enqueue_all (arrive s) m in
    let e' = enqueue_all_gates P (arrive s) m c o e h.0 w in
    let apart : IsNew c' s =
      All-map P (λ a. same_key s.key a.key ≡ false) c' (λ a p. same_key_sym a.key s.key (n a p).0)
        k' in
    let round = evaluate_gate_gates fire now s m' in
    elim (Bool-cases (stays fire now s)) [
      | inl t ↦ rw t (
          evaluate_gates-purge P fire arrive now ss (evaluate_gate fire now s m') c' o
            (round ∙ ap (λ b. if b then m'.gates else delete s.key m'.gates) t ∙ e') k' h.1
            (λ a p. (n a p).1) w)
      | inr f ↦ rw f (
          evaluate_gates-purge P fire arrive now ss (evaluate_gate fire now s m') c'
            (delete s.key o)
            (round
              ∙ ap (λ b. if b then m'.gates else delete s.key m'.gates) f
              ∙ ap (delete s.key) e'
              ∙ delete_behind s c' o apart)
            k' h.1 (λ a p. (n a p).1) (λ a p. delete-apart s.key a.key o (w a p)))
    ]

-- Where no two gates have one key and no event that arrives meanwhile has the key of a pending gate, an
-- evaluation leaves pending the events that arrived, the newest of each key, and exactly the gates that
-- wait on, in their order: those in their delay, those whose conditions are met and that could not be
-- fired, and those whose conditions are not met and whose timeout is not over.
pub evaluate-gates :
    (fire : Gate → FireAnswer) (arrive : Gate → List Gate) (now : Time) (m : GateManager)
    → Distinct m.gates
    → All (λ s. All (IsNew m.gates) (arrive s)) m.gates
    → (waits : Gate → Bool) × ((g : Gate) → (waits g ≡ true) ↔ Waits fire now g)
      × ((evaluate fire arrive now m).gates ≡ arrivals arrive m.gates [] ++ keep_if waits m.gates)
unfolding evaluate
evaluate-gates fire arrive now m d h = (
  stays fire now,
  stays_iff fire now,
  evaluate_gates-purge (IsNew m.gates) fire arrive now m.gates m [] m.gates refl tt h (λ a p. p)
        (λ a p. p)
      ∙ ap (λ r. arrivals arrive m.gates [] ++ r) (purge-keep_if fire now m.gates d),
)
