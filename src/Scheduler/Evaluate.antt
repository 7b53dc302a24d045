-- ===== src/Scheduler/Evaluate.antt =====
-- internal/scheduler/scheduler.go: the last instant of a schedule, and one Test on one tick.
use kubetest_alt.Base.{
  ℕ, zero, suc, ◌+◌, ◌-◌, ◌*◌, ◌/◌, Bool, true, false, not, ◌&&◌, ◌||◌, Option, none, some, List,
  [], ◌∷◌, ◌++◌, Str, codes, str_eq, itoa, ltb, ◌==◌, if◌then◌else◌,
}
use kubetest_alt.Api.{Time}
use kubetest_alt.Names.{bounded}

-- A time is nanoseconds since Go's zero time, which is 0. A schedule is the `Next` of the cron library.
abbrev pub Schedule : Type 0
Schedule = Time → Time

-- What is read of a Test.
pub record ScheduledTest : Type 0 where
  pub namespace : Str
  pub name : Str
  pub schedule : Str
  pub created_at : Time

-- What is written of a run that a schedule starts.
pub record CronRun : Type 0 where
  pub namespace : Str
  pub name : Str
  pub test_ref : Str
  pub scheduled_at : Time

-- `parse` is the cron library's, and `create_ok` tells of a name whether its creation goes through.
pub record SchedulerEnv : Type 0 where
  pub hex_sum : Str → Str
  pub parse : Str → Option Schedule
  pub create_ok : Str → Bool

-- `prevScheduleLookback`: 48 hours.
abbrev pub lookback : ℕ
lookback = 172800000000000

-- `safetyBound`: four days of fires in every second.
abbrev pub safety_bound : ℕ
safety_bound = 345600

-- `MinMissedFireWindow`: a minute.
abbrev pub min_missed_fire_window : ℕ
min_missed_fire_window = 60000000000

-- The loop of `prevSchedule`: at most so many rounds from a time on, with the last fire so far.
unfoldable pub prev_from : ℕ → Schedule → Time → Time → Time → Time
prev_from zero next now t prev = prev
prev_from (suc rounds) next now t prev =
    let rest = prev_from rounds next now (next t) (next t) in
    if ltb now (next t) then prev else rest

-- `prevSchedule`.
unfoldable pub prev_schedule : Schedule → Time → Time
unfolding prev_from
prev_schedule next now = prev_from safety_bound next now (now - lookback) 0

-- Seconds since 1970.
abbrev unix : Time → ℕ
unix t = t / 1000000000 - 62135596800

-- `scheduledRun`.
unfoldable pub scheduled_run : SchedulerEnv → ScheduledTest → Time → CronRun
scheduled_run e t prev = record {
  namespace = t.namespace;
  name = bounded e.hex_sum (t.name ++ (codes "-" ++ itoa (unix prev)));
  test_ref = t.name;
  scheduled_at = prev;
}

unfoldable pub exists_run : Str → Str → List CronRun → Bool
exists_run namespace name [] = false
exists_run namespace name (r ∷ rs) =
    (str_eq r.namespace namespace && str_eq r.name name) || exists_run namespace name rs

-- The runs that exist, and the fires that were counted.
pub record SchedulerState : Type 0 where
  pub runs : List CronRun
  pub fires : ℕ

-- The creation of a run; one that is there already is success.
unfoldable pub create_run : SchedulerEnv → CronRun → SchedulerState → SchedulerState × Bool
unfolding exists_run
create_run e r s =
    if exists_run r.namespace r.name s.runs
    then (s, true)
    else if e.create_ok r.name
    then (record { runs = r ∷ s.runs; fires = s.fires + 1 }, true)
    else (s, false)

unfoldable pub fire_window : Schedule → Time → ℕ
fire_window next prev =
    let twice = 2 * (next prev - prev) in
    if ltb twice min_missed_fire_window then min_missed_fire_window else twice

-- `evaluate` past the last instant, which is 0 where there is none.
unfoldable pub evaluate_instant :
    SchedulerEnv → ScheduledTest → Schedule → Time → Time → SchedulerState → SchedulerState × Bool
unfolding create_run scheduled_run fire_window
evaluate_instant e t next now prev s =
    if prev == 0
    then (s, true)
    else if not (t.created_at == 0) && ltb prev t.created_at
    then (s, true)
    else if ltb (fire_window next prev) (now - prev)
    then (s, true)
    else create_run e (scheduled_run e t prev) s

unfoldable pub evaluate_parsed :
    SchedulerEnv → ScheduledTest → Option Schedule → Time → SchedulerState → SchedulerState × Bool
unfolding evaluate_instant prev_schedule
evaluate_parsed e t none now s = (s, true)
evaluate_parsed e t (some next) now s = evaluate_instant e t next now (prev_schedule next now) s

-- `evaluate`.
unfoldable pub evaluate_test :
    SchedulerEnv → ScheduledTest → Time → SchedulerState → SchedulerState × Bool
unfolding evaluate_parsed
evaluate_test e t now s =
    if str_eq t.schedule [] then (s, true) else evaluate_parsed e t (e.parse t.schedule) now s

-- `Tick`, past the listing of the Tests.
unfoldable pub tick :
    SchedulerEnv → List ScheduledTest → Time → SchedulerState → SchedulerState × Bool
unfolding evaluate_test
tick e [] now s = (s, true)
tick e (t ∷ ts) now s =
    let (s1, ok) = evaluate_test e t now s in let (s2, rest) = tick e ts now s1 in (s2, ok && rest)
