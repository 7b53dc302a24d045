-- ===== src/Trigger/Counts.antt =====
-- internal/controller/testtrigger_informer.go: counting the triggers of a kind.
use mathlib.Core.Path.{subst}
use kubetest_alt.Base.{
  ℕ, zero, suc, ◌≡◌, ◌↔◌, refl, sym, ap, ◌∙◌, true, Option, none, some, List, [], ◌∷◌, str_eq_iff,
  if_cases, if_both, arith, if◌then◌else◌,
}
use kubetest_alt.Trigger.Informers.{
  Gvk, TriggerKey, gvk_eq, key_eq, InformerManager, reg_of, delete_reg, refs_of, delete_run,
  put_run,
}

pub gvk_eq_iff : (a b : Gvk) → (gvk_eq a b ≡ true) ↔ (a ≡ b)
unfolding gvk_eq
gvk_eq_iff a b =
    ground
      (arith, str_eq_iff a.group b.group, str_eq_iff a.version b.version, str_eq_iff a.kind b.kind)

pub key_eq_iff : (a b : TriggerKey) → (key_eq a b ≡ true) ↔ (a ≡ b)
unfolding key_eq
key_eq_iff a b = ground (arith, str_eq_iff a.namespace b.namespace, str_eq_iff a.name b.name)

-- How many triggers are registered for a kind.
unfoldable pub count_regs : Gvk → List (TriggerKey × Gvk) → ℕ
count_regs g [] = 0
count_regs g ((k, h) ∷ rs) = let rest = count_regs g rs in if gvk_eq h g then suc rest else rest

pub gvk_eq_refl : (g : Gvk) → gvk_eq g g ≡ true
gvk_eq_refl g = (gvk_eq_iff g g).1 refl

pub gvk_eq_trans : (a b c : Gvk) → gvk_eq a b ≡ true → gvk_eq a c ≡ gvk_eq b c
gvk_eq_trans a b c h = ap (λ x. gvk_eq x c) ((gvk_eq_iff a b).0 h)

-- Two kinds that are a third one are one kind.
pub gvk_eq_meet : (a b c : Gvk) → gvk_eq a c ≡ true → gvk_eq b c ≡ true → gvk_eq a b ≡ true
gvk_eq_meet a b c h k = (gvk_eq_iff a b).1 ((gvk_eq_iff a c).0 h ∙ sym ((gvk_eq_iff b c).0 k))

pub key_eq_meet : (a b c : TriggerKey) → key_eq a c ≡ true → key_eq b c ≡ true → key_eq a b ≡ true
key_eq_meet a b c h k = (key_eq_iff a b).1 ((key_eq_iff a c).0 h ∙ sym ((key_eq_iff b c).0 k))

pub refs_of-delete_run :
    (g h : Gvk) (rs : List (Gvk × ℕ))
    → refs_of g (delete_run h rs) ≡ (if gvk_eq h g then none else refs_of g rs)
unfolding refs_of delete_run
refs_of-delete_run g h [] = ground arith
refs_of-delete_run g h ((x, n) ∷ rs) =
    if_cases (λ t. refs_of g t ≡ (if gvk_eq h g then none else refs_of g ((x, n) ∷ rs)))
      (gvk_eq x h)
      (λ t. let same = gvk_eq_trans x h g t in ground (arith, refs_of-delete_run g h rs, same))
      (λ f. let clash = gvk_eq_meet x h g in ground (arith, refs_of-delete_run g h rs, clash, f))

pub refs_of-put_run :
    (g h : Gvk) (n : ℕ) (rs : List (Gvk × ℕ))
    → refs_of g (put_run h n rs) ≡ (if gvk_eq h g then some n else refs_of g rs)
unfolding refs_of put_run
refs_of-put_run g h n rs = ground (arith, refs_of-delete_run g h rs)

pub delete_reg-none :
    (k : TriggerKey) (rs : List (TriggerKey × Gvk)) → reg_of k rs ≡ none → delete_reg k rs ≡ rs
unfolding reg_of delete_reg
delete_reg-none k [] h = refl
delete_reg-none k ((l, g) ∷ rs) h = ground (arith, delete_reg-none k rs, h)

pub reg_of-delete_reg :
    (k l : TriggerKey) (rs : List (TriggerKey × Gvk))
    → reg_of k (delete_reg l rs) ≡ (if key_eq l k then none else reg_of k rs)
unfolding reg_of delete_reg
reg_of-delete_reg k l [] = ground arith
reg_of-delete_reg k l ((x, g) ∷ rs) =
    if_cases (λ t. reg_of k t ≡ (if key_eq l k then none else reg_of k ((x, g) ∷ rs))) (key_eq x l)
      (λ t.
        let same = ap (λ y. key_eq y k) ((key_eq_iff x l).0 t) in
        ground (arith, reg_of-delete_reg k l rs, same))
      (λ f. let clash = key_eq_meet x l k in ground (arith, reg_of-delete_reg k l rs, clash, f))

pub reg_of-delete_reg-none :
    (k l : TriggerKey) (rs : List (TriggerKey × Gvk))
    → reg_of k rs ≡ none
    → reg_of k (delete_reg l rs) ≡ none
reg_of-delete_reg-none k l rs h =
    reg_of-delete_reg k l rs ∙ if_both (λ o. o ≡ none) (key_eq l k) refl h

-- No trigger is registered twice.
abbrev pub Unique : List (TriggerKey × Gvk) → Type 0
Unique [] = Unit
Unique ((k, g) ∷ rs) = (reg_of k rs ≡ none) × Unique rs

pub delete_reg-Unique :
    (k : TriggerKey) (rs : List (TriggerKey × Gvk)) → Unique rs → Unique (delete_reg k rs)
unfolding delete_reg
delete_reg-Unique k [] u = tt
delete_reg-Unique k ((l, g) ∷ rs) (n, u) =
    if_cases Unique (key_eq l k) (λ t. delete_reg-Unique k rs u)
      (λ f. (reg_of-delete_reg-none l k rs n, delete_reg-Unique k rs u))

-- A registration counts for its kind alone.
pub count_regs-delete_reg :
    (g h : Gvk) (k : TriggerKey) (rs : List (TriggerKey × Gvk))
    → Unique rs
    → reg_of k rs ≡ some h
    → count_regs g rs ≡ (
        if gvk_eq h g then suc (count_regs g (delete_reg k rs)) else count_regs g (delete_reg k rs))
unfolding count_regs reg_of delete_reg
count_regs-delete_reg g h k [] u r = ground (arith, r)
count_regs-delete_reg g h k ((l, x) ∷ rs) (n, u) r =
    let here = λ (t : key_eq l k ≡ true).
      delete_reg-none k rs (subst (λ y. reg_of y rs ≡ none) ((key_eq_iff l k).0 t) n) in
    ground (arith, r, here, count_regs-delete_reg g h k rs u)

abbrev pub as_count : ℕ → Option ℕ
as_count zero = none
as_count (suc n) = some (suc n)

-- There is an informer for a kind exactly while triggers are registered for it, with their number.
abbrev pub Counted : InformerManager → Type 0
Counted m = ((g : Gvk) → refs_of g m.gvk_runs ≡ as_count (count_regs g m.regs)) × Unique m.regs

pub as_count-none : (n : ℕ) → as_count n ≡ none → 0 ≡ n
as_count-none n h = ground (arith, h)

pub as_count-some : (n k : ℕ) → as_count n ≡ some k → k ≡ n
as_count-some n k h = ground (arith, h)
