-- ===== src/Scheduler/Fired.antt =====
-- internal/scheduler/scheduler.go: which instants start a run.
use mathlib.Core.Path.{subst}
use kubetest_alt.Base.{
  ◌+◌, ◌-◌, ◌≤◌, ◌≡◌, ◌≢◌, refl, sym, ap, ◌∙◌, ◌⊎◌, inl, inr, Bool, true, false, some, List, [],
  ◌∷◌, Str, str_eq, str_eq_refl, if_both, arith,
}
use kubetest_alt.Api.{Time}
use kubetest_alt.Scheduler.Evaluate.{
  Schedule, ScheduledTest, CronRun, SchedulerEnv, SchedulerState, prev_schedule, scheduled_run,
  exists_run, create_run, fire_window, evaluate_instant, evaluate_parsed, evaluate_test,
}

-- Nothing was started, or one run was added: that of the last instant, which is not before the Test was
-- made, not later than the window allows, and for which there was no run.
abbrev pub Fired :
    SchedulerEnv → ScheduledTest → Schedule → Time → Time → SchedulerState → SchedulerState → Type 0
Fired e t next now prev s q =
    (q ≡ s)
    ⊎ ((q.runs ≡ scheduled_run e t prev ∷ s.runs)
        × (q.fires ≡ s.fires + 1)
        × (prev ≢ 0)
        × (t.created_at ≤ prev)
        × (now - prev ≤ fire_window next prev)
        × (exists_run t.namespace (scheduled_run e t prev).name s.runs ≡ false))

evaluate_instant-Fired :
    (e : SchedulerEnv) (t : ScheduledTest) (next : Schedule) (now prev : Time) (s : SchedulerState)
    → Fired e t next now prev s (evaluate_instant e t next now prev s).0
unfolding evaluate_instant create_run scheduled_run
evaluate_instant-Fired e t next now prev s = ground arith

-- One Test on one tick starts nothing, or one run: that of the last instant of its schedule, which is
-- not before the Test was made, not later than the window allows, and for which there was no run.
pub evaluate_test-Fired :
    (e : SchedulerEnv) (t : ScheduledTest) (next : Schedule) (now : Time) (s : SchedulerState)
    → e.parse t.schedule ≡ some next
    → Fired e t next now (prev_schedule next now) s (evaluate_test e t now s).0
unfolding evaluate_test evaluate_parsed
evaluate_test-Fired e t next now s h =
    let prev = prev_schedule next now in
    if_both (λ (r : SchedulerState × Bool). Fired e t next now prev s r.0) (str_eq t.schedule [])
      (inl refl)
      (subst (λ o. Fired e t next now prev s (evaluate_parsed e t o now s).0) (sym h)
        (evaluate_instant-Fired e t next now prev s))

exists_run-new :
    (namespace name : Str) (r : CronRun) (rs : List CronRun)
    → r.namespace ≡ namespace
    → r.name ≡ name
    → exists_run namespace name (r ∷ rs) ≡ true
unfolding exists_run
exists_run-new namespace name r rs h k =
    let a : str_eq r.namespace namespace ≡ true =
      ap (λ x. str_eq r.namespace x) (sym h) ∙ str_eq_refl r.namespace in
    let b : str_eq r.name name ≡ true = ap (λ x. str_eq r.name x) (sym k) ∙ str_eq_refl r.name in
    ground (arith, a, b)

-- The run of the instant is there, and as long as it is, an evaluation that finds the instant leaves
-- the runs as they are, whatever else changed.
abbrev pub Once :
    SchedulerEnv → (Str → Bool) → ScheduledTest → Time → Time → SchedulerState → Type 0
Once e create_ok t prev now q =
    (exists_run t.namespace (scheduled_run e t prev).name q.runs ≡ true)
    × ((s : SchedulerState)
        → exists_run t.namespace (scheduled_run e t prev).name s.runs ≡ true
        → (evaluate_test (record e { create_ok = create_ok }) t now s).0 ≡ s)

-- Where one tick has started the run of an instant, no tick and no replica that finds the same instant
-- starts another as long as that run exists, whatever other runs came or went in between.
pub evaluate_test-Once :
    (e : SchedulerEnv) (create_ok : Str → Bool) (t : ScheduledTest) (next : Schedule)
    (now now' : Time) (s : SchedulerState)
    → e.parse t.schedule ≡ some next
    → prev_schedule next now ≡ prev_schedule next now'
    → let q = (evaluate_test e t now s).0 in
      (q ≡ s) ⊎ Once e create_ok t (prev_schedule next now) now' q
unfolding scheduled_run
evaluate_test-Once e create_ok t next now now' s h k =
    let other : SchedulerEnv = record e { create_ok = create_ok } in
    let run = scheduled_run e t (prev_schedule next now) in
    elim (evaluate_test-Fired e t next now s h) [
      | inl same ↦ inl same
      | inr (added, _, _, _, _, _) ↦ inr (
        ap (exists_run t.namespace run.name) added
            ∙ exists_run-new t.namespace run.name run s.runs refl refl,
        λ q there. elim (evaluate_test-Fired other t next now' q h) [
          | inl same ↦ same
          | inr (_, _, _, _, _, free) ↦
              let taken : exists_run t.namespace (scheduled_run e t (prev_schedule next now')).name
                    q.runs
                  ≡ true =
                subst (λ p. exists_run t.namespace (scheduled_run e t p).name q.runs ≡ true) k
                  there in
              absurd (ground (arith, free, taken))
        ],
      )
    ]
