-- ===== src/Trials.antt =====
-- Names, pods and gates on which the theorems of Names, Podpolicy and Trigger are tried out.
use kubetest_alt.Base.{
  Bool, ℕ, str_eq, ◌≡◌, ◌↔◌, refl, true, false, none, List, some, [], ◌∷◌, ◌++◌, suc, Str, codes,
  keep_if,
}
use kubetest_alt.Api.{PodConfig, no_source}
use kubetest_alt.Controller.Samples.{plain_spec}
use mathlib.Core.Bool.{decide}
use native.Mathlib.Decide.{ℕ_discrete}
use kubetest_alt.Names.{bounded}
use kubetest_alt.Podpolicy.{Policy, check, volume_denied}
use kubetest_alt.Podpolicy.Allowed.{PodAllowed, ContainerAllowed, check_iff}
use kubetest_alt.Trigger.Gate.{
  Gate, GateKey-discrete, GateManager, FireAnswer, fired, new_gate_manager, evaluate, same_key,
  delete,
}
use kubetest_alt.Trigger.Arrivals.{arrivals}
use kubetest_alt.Trigger.Waiting.{Waits}
use kubetest_alt.Trigger.Pending.{evaluate-gates}
use kubetest_alt.Trigger.Informers.{
  Gvk, TriggerKey, InformerCall, call_start, call_register, call_unregister, live, informer_calls,
  new_informer_manager,
}
use kubetest_alt.Trigger.Watched.{informer_calls-Counted}
use kubetest_alt.Trigger.Counts.{Counted}

abbrev long_name : Str
long_name =
    codes "a-name-of-a-run-that-is-made-of-the-names-of-its-test-.-and-of-its-step-and-child"

abbrev fixed_hash : Str → Str
fixed_hash _ = codes "0123456789abcdef"

long_name_cut :
    bounded fixed_hash long_name
    ≡ codes "a-name-of-a-run-that-is-made-of-the-names-of-its-test-01234567"
unfolding bounded
long_name_cut = refl

abbrev strict : Policy
strict = record { service_accounts = []; allow_host_path = false }

abbrev node_pod : PodConfig
node_pod = record {
  service_account_name = codes "default";
  volumes = record { name = codes "disk"; source = record no_source { host_path = true } } ∷ [];
}

node_disk_denied :
    check strict plain_spec (some node_pod)
    ≡ volume_denied (codes "spec.pod (TestRun)") (codes "disk") (codes "hostPath") ∷ []
unfolding check str_eq
node_disk_denied = refl

check_iff_example :
    (check strict plain_spec (some node_pod) ≡ [])
    ↔ (PodAllowed strict none × PodAllowed strict (some node_pod) × ContainerAllowed none)
check_iff_example = check_iff strict plain_spec (some node_pod)

abbrev gate_of : Str → ℕ → Gate
gate_of name event_time = record {
  key = record {
    trigger_namespace = [];
    trigger_name = name;
    target_gvk = [];
    target_namespace = [];
    target_name = [];
  };
  spec = record { delay = 0; timeout = 0; conditions = [] };
  target = [];
  event_time = event_time;
}

abbrev two_gates : GateManager
two_gates = record new_gate_manager { gates = gate_of (codes "a") 1 ∷ gate_of (codes "b") 9 ∷ [] }

abbrev always_fires : Gate → FireAnswer
always_fires _ = fired

-- One event arrives in the round of each gate.
abbrev one_comes : Gate → List Gate
one_comes g = gate_of (codes "c") (suc g.event_time) ∷ []

evaluate-gates_example :
    (waits : Gate → Bool) × ((g : Gate) → (waits g ≡ true) ↔ Waits always_fires 5 g)
    × ((evaluate always_fires one_comes 5 two_gates).gates
        ≡ arrivals one_comes two_gates.gates [] ++ keep_if waits two_gates.gates)
unfolding same_key decide GateKey-discrete ℕ_discrete
evaluate-gates_example =
    evaluate-gates always_fires one_comes 5 two_gates ((refl, tt), (tt, tt))
      (((refl, (refl, tt)), tt), (((refl, (refl, tt)), tt), tt))

newest_event_waits : arrivals one_comes two_gates.gates [] ≡ gate_of (codes "c") 10 ∷ []
unfolding same_key decide GateKey-discrete ℕ_discrete delete
newest_event_waits = refl

-- An event that takes the place of a gate while this fires is removed with it.
newer_event_lost :
    (evaluate always_fires
      (λ g. record g { event_time = 4 } ∷ [])
      5
      (record new_gate_manager { gates = gate_of (codes "a") 1 ∷ [] })).gates
    ≡ []
unfolding evaluate same_key decide GateKey-discrete ℕ_discrete
newer_event_lost = refl

abbrev pods_kind : Gvk
pods_kind = record { group = []; version = codes "v1"; kind = codes "Pod" }

abbrev jobs_kind : Gvk
jobs_kind = record { group = codes "batch"; version = codes "v1"; kind = codes "Job" }

abbrev nightly : TriggerKey
nightly = record { namespace = codes "qa"; name = codes "nightly" }

abbrev smoke : TriggerKey
smoke = record { namespace = codes "qa"; name = codes "smoke" }

-- Two triggers watch pods, one goes over to jobs and the other away.
abbrev informer_sample : List InformerCall
informer_sample =
    call_register smoke pods_kind
    ∷ call_start
    ∷ call_register smoke pods_kind
    ∷ call_register nightly pods_kind
    ∷ call_register smoke jobs_kind
    ∷ call_unregister nightly
    ∷ []

informers_left :
    informer_calls (λ _. true) informer_sample new_informer_manager
    ≡ record { regs = (smoke, jobs_kind) ∷ []; gvk_runs = (jobs_kind, 1) ∷ []; root = live }
unfolding informer_calls str_eq
informers_left = refl

informer_calls-Counted_example :
    Counted (informer_calls (λ _. true) informer_sample new_informer_manager)
informer_calls-Counted_example = informer_calls-Counted (λ _. true) informer_sample
