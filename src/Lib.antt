-- ===== src/Lib.antt =====
-- queue-benchmark: a harness that compares job queues on Postgres. This library models the
-- contract of a queue, the adapters for River and for rsqueue with the store under the latter, the
-- generator of jobs, a benchmark run with the events that it records, and the analysis of these.
--
-- The parts, and how they interact. A harness (internal/queue/platlib/adapter.go) accepts jobs
-- of registered kinds and pushes them on rsqueue's queue; rsqueue's agent pops work from the
-- store (internal/queue/platlib/store.go), calls the harness's runner on it and deletes it when
-- the runner returns, so the runner itself pushes a failed job again. The store keeps rows,
-- permits and failures in Postgres (internal/queue/platlib/schema.sql). A simulated worker
-- (internal/queue/harness.go) stands for the work of a job. A run (internal/runner/runner.go)
-- registers one worker per kind on a harness, starts it, enqueues the jobs that
-- internal/workload/workload.go makes from the spec of a scenario (internal/workload/scenarios.go),
-- records an event for each step with the recorder (internal/metrics/recorder.go), and stops the
-- harness; internal/analyze/analyze.go reads the recorded events back into a summary.
--
-- Prelude.antt: passes on the library's names; integers, texts, tests and lists.
-- Queue.antt: internal/queue/queue.go and all error values; Queue/Config.antt: Config and
-- Config.Validate; Queue/Simulate.antt: Simulate and IsSimulatedError; Queue/Contract.antt: the
-- operations of the Harness interface that a run uses, Register, Start, Enqueue and Stop, as a record,
-- and what each may do to what a caller can tell of a harness, as a step relation. Platlib/Adapter/Contract.antt and River/Contract.antt fill it.
-- Platlib/Tables.antt: the three tables, and each SQL statement of store.go as a function that
-- answers or fails and returns the tables behind it.
-- Platlib/Session.antt: a pgStore with its pool: exec, query and queryRow, transactions
-- (BeginTransactionQueue, CompleteTransaction), queueNotify.
-- Platlib/Store.antt: QueuePush, QueuePushAddressed, QueuePop, QueueDelete, QueuePermits,
-- QueuePermitDelete, QueuePeek, IsQueueAddressComplete, IsQueueAddressInProgress,
-- QueueAddressedComplete, NotifyExtend, isUniqueViolation; Platlib/Store/Reachable.antt: sequences
-- of these operations and of other sessions' changes, as a step relation; Platlib/Store/Delivery.antt:
-- several workers that push, pop and delete.
-- Platlib/Adapter.antt: benchWork, kindCode, ExponentialBackoffRiverLike, Options, New (its
-- checks), Register, Start, Enqueue, EnqueueMany, Stats, Stop; Platlib/Adapter/Retry.antt:
-- benchRunner.Run and its retry policy;
-- Platlib/Adapter/Retry/Delays.antt: the goroutines of delayed retries and Stop's wait for them;
-- Platlib/Adapter/Setup.antt: what New and Stop open and
-- release.
-- River.antt: internal/queue/river/adapter.go but for its worker and its pool; River/Work.antt:
-- benchWorker.Work; River/Setup.antt: the pool, in New and Stop.
-- Workload.antt: internal/workload/workload.go: Spec, JobClass, NewGenerator, Burst, pickTenant,
-- pickKind, buildPayload, nextRequest; Workload/Stream.antt: the ticker loop of Generator.Run;
-- Workload/Scenarios.antt: SpecFor and AllScenarios.
-- Metrics.antt: Event, NewRecorder, Record and Close.
-- Analyze/Stats.antt: LatencyStats, summarize, medianF, minF, maxF, over the record of
-- Analyze/Float.antt. Analyze/Reader.antt: the state of analyzeReader;
-- Analyze/Reader/Handlers.antt: one function per kind of event; Analyze/Reader/Loop.antt: the loop.
-- Analyze/Groups.antt: Analyze, AnalyzeDir, GroupRuns, populateGroupStats, flattenRuns, pickExtremes.
-- Analyze/Tables.antt: the tables of the Markdown report; Analyze/Fairness.antt: its fairness table;
-- Analyze/Report.antt: RenderMarkdown.
-- Runner.antt: internal/runner/runner.go: its Config, the registered worker and the resource sampler;
-- Runner/Submission.antt: the enqueue workers; Runner/Lifecycle.antt: Run as a whole.
-- Command.antt: cmdRun of cmd/bench/main.go, from the flags to the log of the run;
-- Command/Reporting.antt: cmdReport; Command/Main.antt: main and usage.
-- Examples.antt: the theorems on concrete inputs.
--
-- How the model stands for the code. Stateful code is a function from a state to a result and
-- a state. A Go int, int64 or int32 is an integer, and arithmetic that can wrap wraps; a uint64
-- is a natural number. A string is the list of its bytes. A map is an association list.
-- Each call of the Postgres driver takes the next entry of a list of outcomes: nothing, or an
-- error that the call fails with before it changes a row; behind the end of the list every call
-- succeeds. A transaction works on a copy of the tables; a commit publishes the copy, and a
-- failed commit or a rollback publishes nothing but the sequences, which never go back. What
-- other sessions do to a pop is given by Rivals: a change of the tables between the count and
-- the claim, and the rows locked at the claim. That an error aborts a Postgres transaction, so
-- that its later statements fail too, is expressed by the list of outcomes only. Permits are
-- taken to stay below 2 ^ 63.
--
-- A time is its distance in nanoseconds from the zero time. A run is a function of a schedule: the
-- steps of its goroutines in the order in which they happen, with their readings of the clock. A
-- call of Enqueue and what follows its answer are two steps, so a job can start before it is
-- recorded as enqueued; the counter of enqueued jobs and their event are two steps, and so are the
-- counter of a job that ends and its event, and workers can outlive the stop and the last event; no
-- more requests are in flight than there are enqueue workers. Every schedule of these steps is
-- allowed, so what holds of a run holds however they interleave. The harness of a run may change
-- its state at any step. The generator's Run is a function of what its selects take: ticks with the
-- time since the start, the end of the context, and whether the channel has room. Counters of jobs
-- and events are natural numbers.
--
-- Parameters, since the repository does not implement them: encoding/json (a marshalled
-- payload, an ErrorCodec, a decoder; Runner/Report.antt states what it reads back of what it has
-- written), River's client (the answers of its making, start, inserts and stop), uuid, math/rand
-- (Random, with IsBounded for its draws), the answers of rsqueue's Push and Stop, the clock,
-- and float64 (Float, with IsOrdered for its order away from NaN and IsMonotone for the rounding
-- of the ranks), and what fmt writes for a float64.
--
-- Loops follow their lists. There is fuel in two places: Retry.Exhaust.drive, the runs of one job, for
-- which MaxAttempts is enough, and Store.Drain.drain, the pops of one worker, for which one more than
-- the number of the eligible rows is enough.
--
-- Not modelled: the columns created_at and updated_at; how listeners, broadcaster, agent
-- and runner factory are wired to each other in the rsqueue adapter's New and Start, which call
-- rsqueue only; what River's migrations do; the timers of a run; flag parsing and what cmdRun prints.
pub mod Prelude
pub mod Queue
pub mod Platlib
pub mod River
pub mod Workload
pub mod Metrics
pub mod Analyze
pub mod Runner
pub mod Command
pub mod Examples
