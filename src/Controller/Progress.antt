-- ===== src/Controller/Progress.antt =====
-- internal/controller/testrun_controller.go: what one reconcile may do to a run that is not over, and
-- the branches of `transitionTerminal` and `terminalAndDeleteJob`.
use kubetest_alt.Base.{
  ℕ, suc, ◌≡◌, ◌≢◌, refl, sym, ◌⊎◌, inl, inr, Bool, true, false, Option, some, List, ◌∷◌, Str,
  arith, Bool-cases,
}
use mathlib.Core.Path.{subst}
use mathlib.Core.Bool.{decide}
use kubetest_alt.Api.{Phase, Phase-discrete, TestRun}
use kubetest_alt.Controller.Phases.{is_terminal_phase, Job, Reason}
use kubetest_alt.Controller.Derivation.{is_set}
use kubetest_alt.Controller.Course.{AllClosed, finish_stages-AllClosed}
use kubetest_alt.Controller.World.{
  ended, count_terminal, same_phase, update_status, transition_terminal, terminal_and_delete_job,
  after_terminal, after_transition, of_answer,
}
use kubetest_alt.Controller.State.{
  Answer, succeeded, conflicted, failed, Env, World, Outcome, done, error, conflict,
}

-- The run is over, as of now: both ends of its duration are set and its course is closed.
pub record Ended (e : Env) (run : TestRun) : Type 0 where
  pub is_terminal : is_terminal_phase run.status.phase ≡ true
  pub finished_now : run.status.finished_at ≡ some e.now
  pub has_start : is_set run.status.started_at ≡ true
  pub closed : AllClosed run.status.stages

-- What of the world before a pass the pass is compared with.
pub record Before : Type 0 where
  pub job : Option Job
  pub history : Option TestRun
  pub deliveries : List Phase
  pub runs_total : ℕ

abbrev pub before : World → Before
before w = record {
  job = w.job;
  history = w.history;
  deliveries = w.deliveries;
  runs_total = w.runs_total;
}

pub data Progress (e : Env) (b : Before) (w : World) : Type 0 where
  goes_on :
      is_terminal_phase w.run.status.phase ≡ false
      → ((j : Job) → b.job ≡ some j → w.job ≡ some j)
      → w.history ≡ b.history
      → w.deliveries ≡ b.deliveries
      → Progress e b w
  ends :
      Ended e w.run
      → (w.history ≡ b.history) ⊎ (w.history ≡ some w.run)
      → (w.deliveries ≡ b.deliveries) ⊎ (w.deliveries ≡ w.run.status.phase ∷ b.deliveries)
      → w.runs_total ≡ suc b.runs_total
      → Progress e b w

ended-Ended :
    (e : Env) (run : TestRun) (phase : Phase) (reason : Reason) (message : Str)
    → is_terminal_phase phase ≡ true
    → Ended e (ended e.now run phase reason message)
unfolding ended
ended-Ended e run phase reason message h = record {
  is_terminal = h;
  finished_now = refl;
  has_start = refl;
  closed = finish_stages-AllClosed run.status.stages phase _ e.now h;
}

-- A pass that leaves the run, the Job, the history and the deliveries alone.
pub Progress-same :
    (e : Env) (b : Before) (w : World)
    → is_terminal_phase w.run.status.phase ≡ false
    → b.job ≡ w.job
    → w.history ≡ b.history
    → w.deliveries ≡ b.deliveries
    → Progress e b w
Progress-same e b w n j h d = goes_on n (λ k p. ground arith) h d

decide-false {ℓ} : {A : Type ℓ} (d : Dec A) → ¬ A → decide d ≡ false
unfolding decide
decide-false (yes a) n = absurd (n a)
decide-false (no _) n = refl

pub same_phase-terminal :
    (p q : Phase)
    → is_terminal_phase p ≡ false
    → is_terminal_phase q ≡ true
    → same_phase p q ≡ false
unfolding same_phase
same_phase-terminal p q h k = decide-false (Phase-discrete p q) (λ e. ground arith)

Answer-cases : (a : Answer) → (a ≡ succeeded) ⊎ (a ≡ conflicted) ⊎ (a ≡ failed)
Answer-cases succeeded = inl refl
Answer-cases conflicted = inr (inl refl)
Answer-cases failed = inr (inr refl)

update_status_ok :
    (run : TestRun) (w : World) → update_status succeeded run w ≡ record w { run = run }
unfolding update_status
update_status_ok run w = refl

update_status_lost :
    (a : Answer) (run : TestRun) (w : World) → a ≢ succeeded → update_status a run w ≡ w
unfolding update_status
update_status_lost succeeded run w n = absurd (n refl)
update_status_lost conflicted run w n = refl
update_status_lost failed run w n = refl

-- The world after the end of a run is written keeps the run, and puts nothing else into history.
module _ (e : Env) (with_job : Bool) (w : World) where
  pub after_terminal_run : (after_terminal e with_job w).run ≡ w.run
  unfolding after_terminal
  after_terminal_run = ground arith

  after_terminal_history :
      ((after_terminal e with_job w).history ≡ w.history)
      ⊎ ((after_terminal e with_job w).history ≡ some w.run)
  unfolding after_terminal
  after_terminal_history = ground arith

  after_terminal_deliveries :
      ((after_terminal e with_job w).deliveries ≡ w.deliveries)
      ⊎ ((after_terminal e with_job w).deliveries ≡ w.run.status.phase ∷ w.deliveries)
  unfolding after_terminal
  after_terminal_deliveries = ground arith

  after_terminal_total : (after_terminal e with_job w).runs_total ≡ w.runs_total
  unfolding after_terminal
  after_terminal_total = ground arith

module _ (e : Env) (i : ℕ) (run : TestRun) (phase : Phase) (reason : Reason) (message : Str)
    (w : World) where
  abbrev attempt : World × Outcome
  attempt = transition_terminal e i run phase reason message w

  abbrev stored : World
  stored = record (count_terminal run w) { run = ended e.now run phase reason message }

  transition_terminal_refused : is_terminal_phase phase ≡ false → attempt ≡ (w, error)
  unfolding transition_terminal
  transition_terminal_refused h = ground arith

  pub transition_terminal_stored :
      is_terminal_phase run.status.phase ≡ false
      → is_terminal_phase phase ≡ true
      → e.status_update i ≡ succeeded
      → attempt ≡ (stored, done)
  unfolding transition_terminal
  transition_terminal_stored n h a =
      rw (h, same_phase-terminal run.status.phase phase n h, a, update_status_ok)

  pub transition_terminal_lost :
      is_terminal_phase run.status.phase ≡ false
      → is_terminal_phase phase ≡ true
      → e.status_update i ≢ succeeded
      → attempt ≡ (count_terminal run w, of_answer (e.status_update i))
  unfolding transition_terminal
  transition_terminal_lost n h a = rw (
    h,
    same_phase-terminal run.status.phase phase n h,
    update_status_lost (e.status_update i) (ended e.now run phase reason message)
        (count_terminal run w) a,
  )

  module _ (open_run : is_terminal_phase run.status.phase ≡ false)
      (open_world : is_terminal_phase w.run.status.phase ≡ false) where
    lost-Progress : Progress e (before w) (count_terminal run w)
    unfolding count_terminal
    lost-Progress = Progress-same e (before w) _ open_world refl refl refl

    refused-Progress : Progress e (before w) w
    refused-Progress = Progress-same e (before w) w open_world refl refl refl

    stored-Progress : is_terminal_phase phase ≡ true → Progress e (before w) stored
    unfolding count_terminal
    stored-Progress h =
        ends (ended-Ended e run phase reason message h) (inl refl) (inl refl) (omega arith)

    pub transition_terminal-Progress : Progress e (before w) attempt.0
    transition_terminal-Progress = elim (Bool-cases (is_terminal_phase phase)) [
      | inr f ↦ rw (transition_terminal_refused f) refused-Progress
      | inl h ↦ elim (Answer-cases (e.status_update i)) [
        | inl a ↦ rw (transition_terminal_stored open_run h a) (stored-Progress h)
        | inr (inl a) ↦ rw (transition_terminal_lost open_run h (λ b. ground arith)) lost-Progress
        | inr (inr a) ↦ rw (transition_terminal_lost open_run h (λ b. ground arith)) lost-Progress
      ]
    ]

    after_terminal-Progress :
        (with_job : Bool)
        → is_terminal_phase phase ≡ true
        → Progress e (before w) (after_terminal e with_job stored)
    unfolding count_terminal
    after_terminal-Progress with_job h =
        let v = after_terminal e with_job stored in
        let same : v.run ≡ ended e.now run phase reason message =
          after_terminal_run e with_job stored in
        ends (subst (Ended e) (sym same) (ended-Ended e run phase reason message h))
          (rw same (after_terminal_history e with_job stored))
          (rw same (after_terminal_deliveries e with_job stored))
          (omega (arith, after_terminal_total e with_job stored))

    after_transition-Progress :
        (with_job : Bool) (p : World × Outcome)
        → attempt ≡ p
        → Progress e (before w) (after_transition e with_job p).0
        → Progress e (before w) (terminal_and_delete_job e i run phase reason message with_job w).0
    unfolding terminal_and_delete_job
    after_transition-Progress with_job p eq =
        subst (λ q. Progress e (before w) (after_transition e with_job q).0) (sym eq)

    unwritten :
        (with_job : Bool)
        → is_terminal_phase phase ≡ true
        → (e.status_update i ≡ conflicted) ⊎ (e.status_update i ≡ failed)
        → Progress e (before w) (terminal_and_delete_job e i run phase reason message with_job w).0
    unfolding after_transition
    unwritten with_job h (inl a) =
        after_transition-Progress with_job (count_terminal run w, conflict)
          (subst (λ b. attempt ≡ (count_terminal run w, of_answer b)) a
            (transition_terminal_lost open_run h (λ b. ground arith)))
          lost-Progress
    unwritten with_job h (inr a) =
        after_transition-Progress with_job (count_terminal run w, error)
          (subst (λ b. attempt ≡ (count_terminal run w, of_answer b)) a
            (transition_terminal_lost open_run h (λ b. ground arith)))
          lost-Progress

    pub terminal_and_delete_job-Progress :
        (with_job : Bool)
        → Progress e (before w) (terminal_and_delete_job e i run phase reason message with_job w).0
    unfolding after_transition
    terminal_and_delete_job-Progress with_job = elim (Bool-cases (is_terminal_phase phase)) [
      | inr f ↦
          after_transition-Progress with_job _ (transition_terminal_refused f) refused-Progress
      | inl h ↦ elim (Answer-cases (e.status_update i)) [
        | inl a ↦
            after_transition-Progress with_job _ (transition_terminal_stored open_run h a)
              (after_terminal-Progress with_job h)
        | inr lost ↦ unwritten with_job h lost
      ]
    ]
