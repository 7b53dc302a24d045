-- ===== src/Trigger/Informers.antt =====
-- internal/controller/testtrigger_informer.go: the informers of the watched kinds, one for each.
use kubetest_alt.Base.{
  ℕ, zero, suc, Bool, true, false, ◌&&◌, Option, none, some, List, [], ◌∷◌, Str, str_eq,
  if◌then◌else◌,
}

-- `schema.GroupVersionKind`.
pub record Gvk : Type 0 where
  pub group : Str
  pub version : Str
  pub kind : Str

-- `types.NamespacedName` of a trigger.
pub record TriggerKey : Type 0 where
  pub namespace : Str
  pub name : Str

unfoldable pub gvk_eq : Gvk → Gvk → Bool
gvk_eq a b = str_eq a.group b.group && (str_eq a.version b.version && str_eq a.kind b.kind)

unfoldable pub key_eq : TriggerKey → TriggerKey → Bool
key_eq a b = str_eq a.namespace b.namespace && str_eq a.name b.name

-- `rootCtx`: not set before `Start`, and cancelled by `Stop`.
pub data RootContext : Type 0 where
  unset live cancelled : RootContext

-- `informerManager`: which kind each trigger watches, and the informers with their counts.
pub record InformerManager : Type 0 where
  pub regs : List (TriggerKey × Gvk)
  pub gvk_runs : List (Gvk × ℕ)
  pub root : RootContext

-- `newInformerManager`.
abbrev pub new_informer_manager : InformerManager
new_informer_manager = record { regs = []; gvk_runs = []; root = unset }

unfoldable pub reg_of : TriggerKey → List (TriggerKey × Gvk) → Option Gvk
unfolding key_eq
reg_of k [] = none
reg_of k ((l, g) ∷ rs) = let rest = reg_of k rs in if key_eq l k then some g else rest

unfoldable pub delete_reg : TriggerKey → List (TriggerKey × Gvk) → List (TriggerKey × Gvk)
unfolding key_eq
delete_reg k [] = []
delete_reg k ((l, g) ∷ rs) =
    let rest = delete_reg k rs in if key_eq l k then rest else (l, g) ∷ rest

unfoldable pub refs_of : Gvk → List (Gvk × ℕ) → Option ℕ
unfolding gvk_eq
refs_of g [] = none
refs_of g ((h, n) ∷ rs) = let rest = refs_of g rs in if gvk_eq h g then some n else rest

unfoldable pub delete_run : Gvk → List (Gvk × ℕ) → List (Gvk × ℕ)
unfolding gvk_eq
delete_run g [] = []
delete_run g ((h, n) ∷ rs) =
    let rest = delete_run g rs in if gvk_eq h g then rest else (h, n) ∷ rest

-- The count of an informer, set.
unfoldable pub put_run : Gvk → ℕ → List (Gvk × ℕ) → List (Gvk × ℕ)
unfolding delete_run
put_run g n rs = (g, n) ∷ delete_run g rs

-- `Start`: it sets the root context, and cancels one that is there, with the informers under it.
unfoldable pub start_informers : InformerManager → InformerManager
start_informers m = record m { root = live }

-- `Stop`.
unfoldable pub stop_informers : InformerManager → InformerManager
stop_informers m = record {
  regs = [];
  gvk_runs = [];
  root = elim m.root [ live ↦ cancelled | r ↦ r ];
}

-- `run.refs--`, and the end of an informer that nobody watches; an informer has a positive count.
unfoldable pub drop_ref : Gvk → Option ℕ → List (Gvk × ℕ) → List (Gvk × ℕ)
unfolding put_run delete_run
drop_ref g none rs = rs
drop_ref g (some zero) rs = delete_run g rs
drop_ref g (some (suc zero)) rs = delete_run g rs
drop_ref g (some (suc (suc n))) rs = put_run g (suc n) rs

-- `releaseLocked`.
unfoldable pub release : Gvk → InformerManager → InformerManager
unfolding drop_ref refs_of
release g m = record m { gvk_runs = drop_ref g (refs_of g m.gvk_runs) m.gvk_runs }

-- `startInformerLocked`, where `can_start` tells whether the kind is known and its informer takes the
-- handlers. The count starts at 0.
unfoldable pub start_informer : (Gvk → Bool) → Gvk → InformerManager → InformerManager × Bool
unfolding put_run
start_informer can_start g m = elim m.root [
  | unset ↦ (m, false)
  | _ ↦ if can_start g then (record m { gvk_runs = put_run g 0 m.gvk_runs }, true) else (m, false)
]

-- The registration itself: `refs++`.
unfoldable pub add_reg : TriggerKey → Gvk → InformerManager → InformerManager
unfolding put_run refs_of
add_reg k g m = record m {
  gvk_runs = elim (refs_of g m.gvk_runs) [
    | some n ↦ put_run g (suc n) m.gvk_runs
    | none ↦ m.gvk_runs
  ];
  regs = (k, g) ∷ m.regs;
}

abbrev pub added_if : TriggerKey → Gvk → InformerManager × Bool → InformerManager × Bool
added_if k g (m, true) = (add_reg k g m, true)
added_if k g (m, false) = (m, false)

-- The rest of `Register`, of a trigger that is not registered.
unfoldable pub attach : (Gvk → Bool) → TriggerKey → Gvk → InformerManager → InformerManager × Bool
unfolding start_informer add_reg refs_of
attach can_start k g m = elim (refs_of g m.gvk_runs) [
  | some _ ↦ (add_reg k g m, true)
  | none ↦ added_if k g (start_informer can_start g m)
]

-- The trigger is not registered any more.
unfoldable pub detach : TriggerKey → Gvk → InformerManager → InformerManager
unfolding release delete_reg
detach k g m = record (release g m) { regs = delete_reg k m.regs }

-- `Register`.
unfoldable pub register : (Gvk → Bool) → TriggerKey → Gvk → InformerManager → InformerManager × Bool
unfolding attach detach reg_of gvk_eq
register can_start k g m = elim (reg_of k m.regs) [
  | none ↦ attach can_start k g m
  | some prev ↦ if gvk_eq prev g then (m, true) else attach can_start k g (detach k prev m)
]

-- `Unregister`.
unfoldable pub unregister : TriggerKey → InformerManager → InformerManager
unfolding detach reg_of
unregister k m = elim (reg_of k m.regs) [ none ↦ m | some g ↦ detach k g m ]

-- One call of the manager.
pub data InformerCall : Type 0 where
  call_start call_stop : InformerCall
  call_register : TriggerKey → Gvk → InformerCall
  call_unregister : TriggerKey → InformerCall

unfoldable pub informer_call : (Gvk → Bool) → InformerCall → InformerManager → InformerManager
unfolding register unregister start_informers stop_informers
informer_call can_start call_start m = start_informers m
informer_call can_start call_stop m = stop_informers m
informer_call can_start (call_register k g) m = (register can_start k g m).0
informer_call can_start (call_unregister k) m = unregister k m

-- Calls, one after the other: the mutex makes each of them one step.
unfoldable pub informer_calls : (Gvk → Bool) → List InformerCall → InformerManager → InformerManager
unfolding informer_call
informer_calls can_start [] m = m
informer_calls can_start (c ∷ cs) m = informer_calls can_start cs (informer_call can_start c m)
