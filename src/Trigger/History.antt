-- ===== src/Trigger/History.antt =====
-- internal/controller/testtrigger_gate.go: the record of outcomes and its limit.
use kubetest_alt.Base.{
  ◌≤◌, ◌<◌, ◌++◌, List, [], ◌∷◌, arith, length, length-append, length-drop, ◌/◌,
}
use kubetest_alt.Api.{Time}
use kubetest_alt.Trigger.Gate.{
  Gate, GateOutcome, GateManager, FireAnswer, append_outcome, leave, delete, enqueue, enqueue_all,
  evaluate_gate, evaluate_gates, evaluate,
}

-- The outcomes fit into the limit.
abbrev pub InLimit : GateManager → Type 0
InLimit m = (length m.outcomes ≤ m.outcome_limit) × (0 < m.outcome_limit)

append_outcome-InLimit :
    (oc : GateOutcome) (m : GateManager) → InLimit m → InLimit (append_outcome oc m)
unfolding append_outcome
append_outcome-InLimit oc m h =
    let all = m.outcomes ++ oc ∷ [] in
    ground (arith, h.0, h.1, length-append m.outcomes (oc ∷ []), length-drop (length all / 2) all)

evaluate_gate-InLimit :
    (fire : Gate → FireAnswer) (now : Time) (g : Gate) (m : GateManager)
    → InLimit m
    → InLimit (evaluate_gate fire now g m)
unfolding evaluate_gate leave
evaluate_gate-InLimit fire now g m h =
    let keep = λ (oc : GateOutcome). append_outcome-InLimit oc m h in
    let removed : GateManager = record m { gates = delete g.key m.gates } in
    grind (arith, h, append_outcome-InLimit)

enqueue_all-InLimit : (gs : List Gate) (m : GateManager) → InLimit m → InLimit (enqueue_all gs m)
unfolding enqueue_all enqueue
enqueue_all-InLimit [] m h = h
enqueue_all-InLimit (g ∷ gs) m h = enqueue_all-InLimit gs (enqueue g m) h

evaluate_gates-InLimit :
    (fire : Gate → FireAnswer) (arrive : Gate → List Gate) (now : Time) (gs : List Gate)
    (m : GateManager)
    → InLimit m
    → InLimit (evaluate_gates fire arrive now gs m)
unfolding evaluate_gates
evaluate_gates-InLimit fire arrive now [] m h = h
evaluate_gates-InLimit fire arrive now (g ∷ gs) m h =
    evaluate_gates-InLimit fire arrive now gs (evaluate_gate fire now g (enqueue_all (arrive g) m))
      (evaluate_gate-InLimit fire now g (enqueue_all (arrive g) m)
        (enqueue_all-InLimit (arrive g) m h))

-- However many gates one evaluation settles, the recorded outcomes stay within the limit, which has to
-- be positive.
evaluate-InLimit :
    (fire : Gate → FireAnswer) (arrive : Gate → List Gate) (now : Time) (m : GateManager)
    → InLimit m
    → InLimit (evaluate fire arrive now m)
unfolding evaluate
evaluate-InLimit fire arrive now m h = evaluate_gates-InLimit fire arrive now m.gates m h
