-- ===== src/Trigger/Gate.antt =====
-- internal/controller/testtrigger_gate.go, testtrigger_conditions.go: the events that wait for their
-- trigger's conditions. The mutex is held for the snapshot and for each change, so that events may arrive
-- in between.
use mathlib.Core.Bool.{decide}
use native.Mathlib.Decide.{ℕ_discrete}
use kubetest_alt.Base.{
  ℕ, ◌+◌, ◌*◌, ◌/◌, Bool, true, false, not, ◌&&◌, Option, none, some, List, [], ◌∷◌, ◌++◌, Str,
  codes, str_eq, length, drop, ltb, if◌then◌else◌,
}
use kubetest_alt.Api.{Time}

pub record ConditionEntry : Type 0 where
  pub kind : Str
  pub status : Str
  pub reason : Str
  pub last_transition : Time

-- One of `conditionSpec.conditions`, its `ttl` in seconds.
pub record TriggerCondition : Type 0 where
  pub kind : Str
  pub status : Str
  pub reason : Str
  pub ttl : ℕ

-- `conditionSpec`, in seconds; none is a delay and a timeout of 0 and no condition.
pub record TriggerConditionSpec : Type 0 where
  pub delay : ℕ
  pub timeout : ℕ
  pub conditions : List TriggerCondition

pub record GateKey : Type 0 where
  pub trigger_namespace : Str
  pub trigger_name : Str
  pub target_gvk : Str
  pub target_namespace : Str
  pub target_name : Str

-- What a gate reads of its trigger and of the target as the event showed it.
pub record Gate : Type 0 where
  pub key : GateKey
  pub spec : TriggerConditionSpec
  pub target : List ConditionEntry
  pub event_time : Time

pub data OutcomeKind : Type 0 where
  outcome_fired outcome_fire_error outcome_expired outcome_skipped : OutcomeKind

pub record GateOutcome : Type 0 where
  pub kind : OutcomeKind
  pub key : GateKey
  pub event_time : Time
  pub message : Str

pub record GateManager : Type 0 where
  pub gates : List Gate
  pub outcomes : List GateOutcome
  pub outcome_limit : ℕ

abbrev pub new_gate_manager : GateManager
new_gate_manager = record { gates = []; outcomes = []; outcome_limit = 512 }

-- What the firer answers: it created the TestRun, it skipped the event as the policy forbids it (and
-- has called `FireSkipped`), or it failed.
pub data FireAnswer : Type 0 where
  fired : FireAnswer
  already_handled : Str → FireAnswer
  fire_failed : Str → FireAnswer

unfoldable pub GateKey-discrete : Discrete GateKey
GateKey-discrete = hlevel ℕ_discrete

unfoldable pub same_key : GateKey → GateKey → Bool
same_key a b = decide (GateKey-discrete a b)

-- `delete(m.gates, key)`.
unfoldable pub delete : GateKey → List Gate → List Gate
unfolding same_key
delete k [] = []
delete k (g ∷ gs) = let rest = delete k gs in if same_key k g.key then rest else g ∷ rest

-- `Enqueue`.
unfoldable pub enqueue : Gate → GateManager → GateManager
unfolding delete
enqueue g m = record m { gates = g ∷ delete g.key m.gates }

abbrev pub second : ℕ
second = 1000000000

-- `findCondition`.
unfoldable pub find_condition : List ConditionEntry → Str → Option ConditionEntry
find_condition [] kind = none
find_condition (c ∷ cs) kind =
    let rest = find_condition cs kind in if str_eq c.kind kind then some c else rest

abbrev pub is_named : Str → Bool
is_named [] = false
is_named (_ ∷ _) = true

-- One round of the loop of `ConditionsMet`.
unfoldable pub condition_met : List ConditionEntry → Time → TriggerCondition → Bool
unfolding find_condition
condition_met got now want = elim (find_condition got want.kind) [
  | none ↦ false
  | some m ↦
      if not (str_eq m.status want.status)
      then false
      else if is_named want.reason && not (str_eq m.reason want.reason)
      then false
      else if ltb 0 want.ttl && ltb now (m.last_transition + want.ttl * second)
      then false
      else true
]

unfoldable pub conditions_met : List TriggerCondition → List ConditionEntry → Time → Bool
unfolding condition_met
conditions_met [] got now = true
conditions_met (want ∷ wants) got now =
    let rest = conditions_met wants got now in if condition_met got now want then rest else false

-- `appendOutcomeLocked`.
unfoldable pub append_outcome : GateOutcome → GateManager → GateManager
append_outcome oc m =
    let outcomes = m.outcomes ++ oc ∷ [] in
    if ltb m.outcome_limit (length outcomes)
    then record m { outcomes = drop (length outcomes / 2) outcomes }
    else record m { outcomes = outcomes }

abbrev pub outcome : OutcomeKind → Gate → Str → GateOutcome
outcome kind g message = record {
  kind = kind;
  key = g.key;
  event_time = g.event_time;
  message = message;
}

-- The gate leaves, with an outcome; this is `FireSkipped`, too.
unfoldable pub leave : OutcomeKind → Gate → Str → GateManager → GateManager
unfolding append_outcome delete
leave kind g message m =
    append_outcome (outcome kind g message) (record m { gates = delete g.key m.gates })

-- `elapsed < delay`, and `elapsed > delay+timeout` for a timeout that is set.
unfoldable pub in_delay : Time → Gate → Bool
in_delay now g = ltb now (g.event_time + g.spec.delay * second)

unfoldable pub timed_out : Time → Gate → Bool
timed_out now g =
    ltb 0 g.spec.timeout && ltb (g.event_time + (g.spec.delay + g.spec.timeout) * second) now

-- One round of the loop of `Evaluate`.
unfoldable pub evaluate_gate : (Gate → FireAnswer) → Time → Gate → GateManager → GateManager
unfolding in_delay timed_out conditions_met leave append_outcome
evaluate_gate fire now g m =
    if in_delay now g
    then m
    else if conditions_met g.spec.conditions g.target now
    then elim (fire g) [
      | fired ↦ leave outcome_fired g [] m
      | already_handled why ↦ leave outcome_skipped g why m
      | fire_failed why ↦ append_outcome (outcome outcome_fire_error g why) m
    ]
    else if timed_out now g
    then leave outcome_expired g (codes "conditions not met before timeout") m
    else m

-- Events that arrive, the first one first.
unfoldable pub enqueue_all : List Gate → GateManager → GateManager
unfolding enqueue
enqueue_all [] m = m
enqueue_all (g ∷ gs) m = enqueue_all gs (enqueue g m)

-- The loop of `Evaluate`. `arrive` gives the events that arrive before the round of a gate takes the
-- mutex, while it fires among others; what the round decides rests on the snapshot alone.
unfoldable pub evaluate_gates :
    (Gate → FireAnswer) → (Gate → List Gate) → Time → List Gate → GateManager → GateManager
unfolding evaluate_gate enqueue_all
evaluate_gates fire arrive now [] m = m
evaluate_gates fire arrive now (g ∷ gs) m =
    evaluate_gates fire arrive now gs (evaluate_gate fire now g (enqueue_all (arrive g) m))

-- `Evaluate`, over a snapshot of the gates.
unfoldable pub evaluate :
    (Gate → FireAnswer) → (Gate → List Gate) → Time → GateManager → GateManager
unfolding evaluate_gates
evaluate fire arrive now m = evaluate_gates fire arrive now m.gates m
