-- ===== src/Trigger/Watched.antt =====
-- internal/controller/testtrigger_informer.go: a kind is watched while triggers are registered for it.
use mathlib.Core.Path.{subst}
use kubetest_alt.Base.{
  ℕ, zero, suc, ◌≡◌, refl, sym, ap, ◌∙◌, Bool, true, false, none, some, List, [], ◌∷◌, Option-cases,
  inl, inr, ◌⊎◌, if_cases, if_both, arith, if◌then◌else◌,
}
use kubetest_alt.Trigger.Informers.{
  Gvk, TriggerKey, gvk_eq, InformerManager, new_informer_manager, reg_of, delete_reg, refs_of,
  put_run, drop_ref, release, start_informer, add_reg, added_if, attach, detach, register,
  unregister, start_informers, stop_informers, InformerCall, call_start, call_stop, call_register,
  call_unregister, informer_call, informer_calls,
}
use kubetest_alt.Trigger.Counts.{
  gvk_eq_iff, key_eq_iff, count_regs, gvk_eq_refl, refs_of-delete_run, refs_of-put_run,
  reg_of-delete_reg, Unique, delete_reg-Unique, count_regs-delete_reg, as_count, Counted,
  as_count-none, as_count-some,
}

drop_ref-Counted :
    (g h : Gvk) (n : ℕ) (rs : List (Gvk × ℕ))
    → refs_of g (drop_ref h (some (suc n)) rs) ≡ (if gvk_eq h g then as_count n else refs_of g rs)
unfolding drop_ref
drop_ref-Counted g h zero rs = refs_of-delete_run g h rs
drop_ref-Counted g h (suc n) rs = refs_of-put_run g h (suc n) rs

detach-Counted :
    (k : TriggerKey) (h : Gvk) (m : InformerManager)
    → Counted m
    → reg_of k m.regs ≡ some h
    → Counted (detach k h m) × (reg_of k (detach k h m).regs ≡ none)
unfolding detach release
detach-Counted k h m (c, u) r =
    let left = delete_reg k m.regs in
    let n = count_regs h left in
    let counted : count_regs h m.regs ≡ suc n =
      let d = count_regs-delete_reg h h k m.regs u r in
      let s = gvk_eq_refl h in ground (arith, d, s) in
    let refs : refs_of h m.gvk_runs ≡ some (suc n) = c h ∙ ap as_count counted in
    (
      (
        λ g.
            ap (λ o. refs_of g (drop_ref h o m.gvk_runs)) refs
            ∙ drop_ref-Counted g h n m.gvk_runs
            ∙ if_cases (λ o. o ≡ as_count (count_regs g left)) (gvk_eq h g)
                (λ t. ap (λ x. as_count (count_regs x left)) ((gvk_eq_iff h g).0 t))
                (λ f.
                  let d = count_regs-delete_reg g h k m.regs u r in
                  let same : count_regs g m.regs ≡ count_regs g left = ground (arith, d, f) in
                  c g ∙ ap as_count same),
        delete_reg-Unique k m.regs u,
      ),
      reg_of-delete_reg k k m.regs ∙ (let s = (key_eq_iff k k).1 refl in ground (arith, s)),
    )

-- A count that is one higher for one kind.
add_reg-Counted :
    (k : TriggerKey) (g : Gvk) (n : ℕ) (m : InformerManager)
    → ((h : Gvk) → gvk_eq g h ≡ false → refs_of h m.gvk_runs ≡ as_count (count_regs h m.regs))
    → refs_of g m.gvk_runs ≡ some n
    → n ≡ count_regs g m.regs
    → Unique m.regs
    → reg_of k m.regs ≡ none
    → Counted (add_reg k g m)
unfolding add_reg count_regs
add_reg-Counted k g n m c r e u f = (
  λ h.
      let runs : (add_reg k g m).gvk_runs ≡ put_run g (suc n) m.gvk_runs = ground (arith, r) in
      ap (refs_of h) runs
      ∙ refs_of-put_run h g (suc n) m.gvk_runs
      ∙ if_cases
          (λ o.
            o ≡ as_count (if gvk_eq g h then suc (count_regs h m.regs) else count_regs h m.regs))
          (gvk_eq g h)
          (λ t.
            let same = (gvk_eq_iff g h).0 t in
            let counted : suc n
                ≡ (if gvk_eq g h then suc (count_regs h m.regs) else count_regs h m.regs) =
              (let d = ap (λ x. count_regs x m.regs) same in ground (arith, t, e, d)) in
            ap as_count counted)
          (λ n.
            c h n
            ∙ (let counted : count_regs h m.regs
                    ≡ (if gvk_eq g h then suc (count_regs h m.regs) else count_regs h m.regs) =
                  ground (arith, n) in
                ap as_count counted)),
  (f, u),
)

-- What a call that registers a trigger leaves.
abbrev pub Counts : InformerManager × Bool → Type 0
Counts (m, b) = Counted m

-- An informer starts with no count, or the call fails and changes nothing.
start_informer-cases :
    (can_start : Gvk → Bool) (g : Gvk) (m : InformerManager)
    → (start_informer can_start g m ≡ (m, false))
      ⊎ (start_informer can_start g m ≡ (record m { gvk_runs = put_run g 0 m.gvk_runs }, true))
unfolding start_informer
start_informer-cases can_start g m = ground arith

start_informer-Counted :
    (can_start : Gvk → Bool) (k : TriggerKey) (g : Gvk) (m : InformerManager)
    → Counted m
    → refs_of g m.gvk_runs ≡ none
    → reg_of k m.regs ≡ none
    → Counts (added_if k g (start_informer can_start g m))
start_informer-Counted can_start k g m (c, u) r f =
    let started : InformerManager = record m { gvk_runs = put_run g 0 m.gvk_runs } in
    elim (start_informer-cases can_start g m) [
      | inl e ↦ subst (λ t. Counts (added_if k g t)) (sym e) (c, u)
      | inr e ↦
          subst (λ t. Counts (added_if k g t)) (sym e)
            (add_reg-Counted k g 0 started
              (λ h n. refs_of-put_run h g 0 m.gvk_runs ∙ ground (arith, n, c h))
              (refs_of-put_run g g 0 m.gvk_runs ∙ (let s = gvk_eq_refl g in ground (arith, s)))
              (let s = c g in as_count-none (count_regs g m.regs) (sym s ∙ r)) u f)
    ]

attach-Counted :
    (can_start : Gvk → Bool) (k : TriggerKey) (g : Gvk) (m : InformerManager)
    → Counted m
    → reg_of k m.regs ≡ none
    → Counts (attach can_start k g m)
unfolding attach
attach-Counted can_start k g m (c, u) f = elim (Option-cases (refs_of g m.gvk_runs)) [
  | inl e ↦
      let same : attach can_start k g m ≡ added_if k g (start_informer can_start g m) =
        rw (e, attach) refl in
      subst Counts (sym same) (start_informer-Counted can_start k g m (c, u) e f)
  | inr (n, e) ↦
      let same : attach can_start k g m ≡ (add_reg k g m, true) =
        (let here = e in ground (arith, e)) in
      subst Counts (sym same) (
        add_reg-Counted k g n m (λ h d. c h) e
          (as_count-some (count_regs g m.regs) n (sym (c g) ∙ e)) u f)
]

register-Counted :
    (can_start : Gvk → Bool) (k : TriggerKey) (g : Gvk) (m : InformerManager)
    → Counted m
    → Counts (register can_start k g m)
unfolding register
register-Counted can_start k g m c = elim (Option-cases (reg_of k m.regs)) [
  | inl e ↦
      let same : register can_start k g m ≡ attach can_start k g m = rw (e, register) refl in
      subst Counts (sym same) (attach-Counted can_start k g m c e)
  | inr (h, e) ↦
      let same : register can_start k g m
          ≡ (if gvk_eq h g then (m, true) else attach can_start k g (detach k h m)) =
        rw (e, register) refl in
      let left = detach-Counted k h m c e in
      subst Counts (sym same)
        (if_both Counts (gvk_eq h g) c (attach-Counted can_start k g (detach k h m) left.0 left.1))
]

unregister-Counted : (k : TriggerKey) (m : InformerManager) → Counted m → Counted (unregister k m)
unfolding unregister
unregister-Counted k m c = elim (Option-cases (reg_of k m.regs)) [
  | inl e ↦ let same : unregister k m ≡ m = rw (e, unregister) refl in subst Counted (sym same) c
  | inr (h, e) ↦
      let same : unregister k m ≡ detach k h m = rw (e, unregister) refl in
      subst Counted (sym same) (detach-Counted k h m c e).0
]

informer_call-Counted :
    (can_start : Gvk → Bool) (c : InformerCall) (m : InformerManager)
    → Counted m
    → Counted (informer_call can_start c m)
unfolding informer_call start_informers stop_informers refs_of count_regs
informer_call-Counted can_start call_start m h = h
informer_call-Counted can_start call_stop m h = (λ g. refl, tt)
informer_call-Counted can_start (call_register k g) m h = register-Counted can_start k g m h
informer_call-Counted can_start (call_unregister k) m h = unregister-Counted k m h

informer_calls-from :
    (can_start : Gvk → Bool) (cs : List InformerCall) (m : InformerManager)
    → Counted m
    → Counted (informer_calls can_start cs m)
unfolding informer_calls
informer_calls-from can_start [] m h = h
informer_calls-from can_start (c ∷ cs) m h =
    informer_calls-from can_start cs (informer_call can_start c m)
      (informer_call-Counted can_start c m h)

-- After any calls of a new manager, whichever kinds can be watched: an informer is kept for a kind
-- exactly while at least one trigger is registered for it, with the number of these triggers as its
-- count, and no trigger is registered twice.
pub informer_calls-Counted :
    (can_start : Gvk → Bool) (cs : List InformerCall)
    → Counted (informer_calls can_start cs new_informer_manager)
unfolding refs_of count_regs
informer_calls-Counted can_start cs =
    informer_calls-from can_start cs new_informer_manager (λ g. refl, tt)
