-- ===== src/Parallel/Endings.antt =====
-- internal/controller/testrun_controller.go, parallel.go: how a terminal write ends, and when all workers are over.
use mathlib.Core.Path.{subst}
use kubetest_alt.Base.{
  ℕ, zero, suc, ◌+◌, ◌≤◌, ◌<◌, ◌≡◌, refl, ap, ◌∙◌, inl, inr, true, false, not, List, [], ◌∷◌,
  length, All, Str, if_cases, if_both, Bool-cases, arith, ◌==◌,
}
use kubetest_alt.Api.{Phase, TestRun}
use kubetest_alt.Controller.Phases.{is_terminal_phase, Reason}
use kubetest_alt.Controller.World.{
  ended, update_status, count_terminal, same_phase, transition_terminal, after_transition,
  terminal_and_delete_job, of_answer,
}
use kubetest_alt.Controller.State.{Answer, succeeded, conflicted, failed, Env, World, Outcome, done}
use kubetest_alt.Controller.Progress.{same_phase-terminal, after_terminal_run}
use kubetest_alt.Parallel.Workers.{Worker}
use kubetest_alt.Parallel.Numbering.{Numbered}
use kubetest_alt.Parallel.World.{WorkerMap}
use kubetest_alt.Parallel.Verdicts.{AllOver}
use kubetest_alt.Parallel.Frames.{Verdicted}

-- What a terminal write comes to: done, in the phase it was to end in, or the stored run is as it was.
abbrev pub EndsIn : Phase → World → World × Outcome → Type 0
EndsIn phase w (v, done) = v.run.status.phase ≡ phase
EndsIn phase w (v, o) = v.run ≡ w.run

pub written-EndsIn :
    (a : Answer) (run : TestRun) (phase : Phase) (w v : World)
    → run.status.phase ≡ phase
    → v.run ≡ w.run
    → EndsIn phase w (update_status a run v, of_answer a)
unfolding update_status
written-EndsIn succeeded run phase w v h k = h
written-EndsIn conflicted run phase w v h k = k
written-EndsIn failed run phase w v h k = k

pub after_transition-EndsIn :
    (e : Env) (phase : Phase) (w : World) (r : World × Outcome)
    → EndsIn phase w r
    → EndsIn phase w (after_transition e false r)
unfolding after_transition
after_transition-EndsIn e phase w (v, done) h =
    ap (λ (run : TestRun). run.status.phase) (after_terminal_run e false v) ∙ h
after_transition-EndsIn e phase w (v, Outcome.requeue_after n) h = h
after_transition-EndsIn e phase w (v, Outcome.error) h = h
after_transition-EndsIn e phase w (v, Outcome.conflict) h = h
after_transition-EndsIn e phase w (v, Outcome.handed_on) h = h

pub terminal-EndsIn :
    (e : Env) (run : TestRun) (phase : Phase) (cause : Reason) (msg : Str) (w : World)
    → is_terminal_phase run.status.phase ≡ false
    → is_terminal_phase phase ≡ true
    → EndsIn phase w (terminal_and_delete_job e 0 run phase cause msg false w)
unfolding terminal_and_delete_job transition_terminal count_terminal ended
terminal-EndsIn e run phase cause msg w n t =
    after_transition-EndsIn e phase w (transition_terminal e 0 run phase cause msg w) (
      if_both (EndsIn phase w) (not (is_terminal_phase phase)) refl (
        if_cases (EndsIn phase w) (same_phase run.status.phase phase)
          (λ s. absurd (ground (arith, s, same_phase-terminal run.status.phase phase n t)))
          (λ s.
            written-EndsIn (e.status_update 0) (ended e.now run phase cause msg) phase w
              (count_terminal run w) refl refl)))

-- A worker's number is in range.
pub Numbered-Verdicted :
    (m : WorkerMap) (i total j : ℕ) (ws : List Worker)
    → Numbered i total ws
    → All (λ w. Verdicted m w.index) ws
    → i ≤ j
    → j < i + length ws
    → Verdicted m j
Numbered-Verdicted m i total j [] n a l h = absurd (omega (arith, l, h))
Numbered-Verdicted m i total j (w ∷ ws) (k, t, n) (v, vs) l h = elim (Bool-cases (i == j)) [
  | inl e ↦ let same : i ≡ j = ground (arith, e) in subst (λ x. Verdicted m x) (k ∙ same) v
  | inr f ↦
      let apart : i + 1 ≤ j = ground (arith, f, l) in
      Numbered-Verdicted m (i + 1) total j ws n vs apart (omega (arith, h))
]

pub AllOver-below :
    (m : WorkerMap) (n k : ℕ) → k ≤ n → ((j : ℕ) → j < n → Verdicted m j) → AllOver m k
AllOver-below m n zero l h = tt
AllOver-below m n (suc k) l h = (h k (omega (arith, l)), AllOver-below m n k (omega (arith, l)) h)

pub all_over :
    (m : WorkerMap) (ws : List Worker)
    → Numbered 0 (length ws) ws
    → All (λ w. Verdicted m w.index) ws
    → AllOver m (length ws)
all_over m ws n a =
    AllOver-below m (length ws) (length ws) (omega arith)
      (λ j h. Numbered-Verdicted m 0 (length ws) j ws n a (omega arith) (omega (arith, h)))
