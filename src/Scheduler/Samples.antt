-- ===== src/Scheduler/Samples.antt =====
-- Schedules on which the theorems of this part are tried out.
use kubetest_alt.Base.{
  ℕ, ◌+◌, ◌-◌, ◌*◌, ◌/◌, ◌%◌, ◌≡◌, ◌⊎◌, inl, refl, true, some, [], codes, arith,
}
use kubetest_alt.Api.{Time}
use kubetest_alt.Scheduler.Evaluate.{
  Schedule, ScheduledTest, SchedulerEnv, SchedulerState, lookback, prev_schedule, evaluate_test,
}
use kubetest_alt.Scheduler.Instants.{Recurs, Finds, prev_schedule-Finds}
use kubetest_alt.Scheduler.Fired.{Fired, evaluate_test-Fired, evaluate_test-Once, Once}

abbrev second : ℕ
second = 1000000000

-- Every hour of the day.
abbrev hour : ℕ
hour = 3600 * second

abbrev hourly : Schedule
hourly t = (t / hour + 1) * hour

abbrev OnTheHour : Time → Type 0
OnTheHour t = t % hour ≡ 0

hourly-Recurs : Recurs OnTheHour hourly
hourly-Recurs = record {
  later = λ t. omega arith;
  fires = λ t. omega arith;
  first = λ t u l m f. omega arith;
  whole = λ t. omega arith;
}

abbrev test : ScheduledTest
test = record {
  namespace = codes "ci";
  name = codes "smoke";
  schedule = codes "@hourly";
  created_at = 1;
}

abbrev env : SchedulerEnv
env = record { hex_sum = λ s. s; parse = λ _. some hourly; create_ok = λ _. true }

abbrev empty : SchedulerState
empty = record { runs = []; fires = 0 }

abbrev noon : Time
noon = 18000000 * hour + 90 * second

prev_schedule-Finds_example : Finds OnTheHour (noon - lookback) noon (prev_schedule hourly noon)
prev_schedule-Finds_example = prev_schedule-Finds OnTheHour hourly noon (inl hourly-Recurs)

hour_found : prev_schedule hourly noon ≡ 18000000 * hour
unfolding prev_schedule
hour_found = refl

evaluate_test-Fired_example :
    Fired env test hourly noon
      (prev_schedule hourly noon)
      empty
      (evaluate_test env test noon empty).0
evaluate_test-Fired_example = evaluate_test-Fired env test hourly noon empty refl

evaluate_test-Once_example :
    let q = (evaluate_test env test noon empty).0 in
    (q ≡ empty) ⊎ Once env (λ _. true) test (prev_schedule hourly noon) (noon + second) q
unfolding prev_schedule
evaluate_test-Once_example =
    evaluate_test-Once env (λ _. true) test hourly noon (noon + second) empty refl refl
