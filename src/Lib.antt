-- ===== src/Lib.antt =====
-- The control plane of kubetest-alt, a Kubernetes-native test runner: the operator that takes a TestRun
-- from its creation to a verdict, and the parts it decides with.
--
-- The parts and their files:
--   Base            strings as lists of bytes, Boolean tests, lists over the native numbers
--   Api             api/v1alpha1: phases, stages, the fields of Test and TestRun that are read
--   Composer        internal/composer/aggregate.go: Aggregate, ShouldRunNext, ParentPhase and
--                   ChildNeedsRetry (Aggregate), what they mean (Verdicts, Parent, Chain), and
--                   ResolveGraph (Graph)
--   Logstream       internal/logstream: the ring buffer of ring.go (Ring, Replay) and the position and
--                   replay filter of position.go (Position, Resume)
--   Controller      internal/controller: phases.go (Phases, Infra), stages.go (Derivation,
--                   Stages, Course), concurrency.go (Concurrency, Queue), testrun_controller.go (State,
--                   World, Setup, Inspect, Reconcile); Progress, Starting, Running follow one reconcile through all its
--                   branches, and Lifecycle, Ending, Gauge state what a run goes through
--   Composite       internal/controller/composite.go: the children of a step and their tries (Children,
--                   Attempts), the entries of the steps (Steps), the cluster of a pass (World), one
--                   round of the loop over the steps (Round) and a pass (Walk); Capacity, LatestTry,
--                   Retries, StepVerdicts, Skips, Kept, Sources, Course, Ended and Settled state what they do
--   Parallel        internal/compiler/parallel.go: ParallelWorkers (Workers), its numbers (Numbering) and
--                   its shards (Shards); internal/controller/parallel.go: the state of a pass (World),
--                   the creation of a worker (Creation), one worker (Round), the loop over them (Loop), a
--                   pass and stopWorkers (Pass); Verdicts, Frames, Creations, Rounds, Sweeps, Endings,
--                   Ended and Persisted state what a pass does
--   Services        internal/controller/services.go: failures and readiness of pods (Failures), the state
--                   of a pass (World), ensureServices and teardownServices (Ensure), and when a run goes
--                   on (Healthy, Looked, Ready)
--   Storage         pkg/storage/keys.go: the keys of a run's objects (Keys), their round trips
--                   (RoundTrip, Workers), and the subtrees of runs (Subtrees, Apart)
--   Retention       internal/retention/retention.go, internal/store/partition.go: a pass (Pass), what it
--                   removes (Removed) and what it keeps (Kept)
--   Scheduler       internal/scheduler/scheduler.go: the last instant of a schedule and one Test on one
--                   tick (Evaluate), which instants are found (Instants) and start a run (Fired)
--   Scraper         internal/scraper/glob.go: the files of the artifact patterns (Globs), their sort
--                   (Sorting) and which files are found (Added, Matched)
--   Expr            pkg/expr/expr.go: references (Refs), the evaluation of templates (Eval), its end
--                   (Total) and what it writes (Positions, Verbatim)
--   Strings         the functions of Go's strings and strconv that Storage and Expr use
--   Names           internal/names/names.go: Bounded, over any hash function
--   Podpolicy       internal/podpolicy/podpolicy.go: Check, and what it admits (Allowed)
--   Trigger         internal/controller/testtrigger_gate.go, testtrigger_conditions.go: the gate manager
--                   (Gate), what waits on
--                   (Arrivals, Waiting, Pending) and the record of outcomes (History);
--                   testtrigger_informer.go: the informer manager (Informers) and its counts (Counts,
--                   Watched);
--                   testtrigger_selector.go (Selector)
--   Webhook         internal/webhookdelivery: headers (Headers) and one delivery of dispatcher.go (Delivery), which attempt
--                   decides it (Outcomes), what is logged of headers (Redaction), the queue and the jobs
--                   of an event, from dispatchWebhooks of testrun_controller.go (Queue), and what the
--                   queue has (Backlog)
--   Samples, Witnesses, Trials  concrete inputs, and the theorems at them
--
-- State and operations. One TestRun is a World: the run as the API server stores it, its Job, the
-- row in run history, the deliveries of webhooks, the tailers, and its share of the metrics. What
-- the cluster, the compiler, the resolver, the result store and the database answer in one reconcile
-- is an Env, a parameter of every operation. Each function of the reconciler is a function of Env
-- and World to the next World and an Outcome, in the order of the source: a status write that fails
-- leaves the stored run, and what was done before it (metrics, tailers) stays done. A sequence of
-- reconciles is reconcile_all, with an Env for each. A pass over a composite run is a function of
-- CompositeEnv and Pass, which holds the stored World and the steps, the runs of the namespace, and
-- the copies that the pass works on. A pass over a parallel run is a function of ParallelEnv and
-- ParallelPass; the step key worker-<i> and the Job of worker i stand under the number i, and
-- stored_steps is what the API server has. The services of a run are a function of ServicesEnv and
-- ServicesState. The informer manager is a record of its two maps; the mutex makes each call one
-- step. The gate manager's evaluate releases its mutex between gates, so it is also a function of
-- the events that arrive before the round of each gate. A delivery is a function of DispatcherEnv,
-- which has the answers of the HTTP client by the number of the attempt, and of the job.
--
-- Numbers and bounds. Times are natural numbers of nanoseconds and strings are lists of bytes. Loops
-- are structural recursion on lists; there is no fuel in the reconciler. ResolveGraph recurses on
-- the levels that its depth limit of ten leaves, as the source does. ParseRunKeys and Eval recurse
-- on a bound of one more than the length of their text, which each call or round makes shorter: the
-- bound is never reached. The walk of prevSchedule has the bound of the source, which whole seconds
-- never use up in two days, and which a schedule that never fires uses up. The int64 counter of the
-- ring buffer and the int counters of a position are natural numbers.
--
-- Not modelled: in Controller, composite and parallel runs and runs with services are handed on
-- where the source calls their own reconcilers; Composite, Parallel and Services go on with them,
-- less the config and the labels of the children, and with the answers of CompileWorker and
-- CompileServices as parameters; in Webhook, BuildPayload and the workers that take from the queue;
-- in Trigger, the controller and the delivery of events; in Expr, the texts of error messages,
-- SubstituteWorker and CoerceParam; in Retention and Scheduler, the tickers; in Scraper, the upload
-- of the files and the JUnit reports; events, log lines, status.tool, the latest-run field of a
-- Test, and the counts, artifacts and test cases of a result.
pub mod Api
pub mod Base
pub mod Composer
pub mod Composite
pub mod Controller
pub mod Expr
pub mod Logstream
pub mod Names
pub mod Parallel
pub mod Podpolicy
pub mod Retention
pub mod Scheduler
pub mod Scraper
pub mod Services
pub mod Storage
pub mod Strings
pub mod Trials
pub mod Trigger
pub mod Webhook
