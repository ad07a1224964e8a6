-- ===== src/Runner.antt =====
-- A benchmark run, internal/runner/runner.go: what its goroutines share, the registered worker and
-- the resource sampler. The goroutines' steps are happenings in the order a schedule gives them; the
-- harness is any implementation of the contract. Timers only decide which schedules occur, so none is
-- refused for its times.
pub mod Submission
pub mod Lifecycle
pub mod Registration
pub mod Account
pub mod Requests
pub mod Phases
pub mod Whole
pub mod Report
use queue_benchmark.Prelude.{
  ℕ, zero, suc, ◌+◌, ◌*◌, ◌/◌, ◌%◌, Bool, true, false, List, [], ◌∷◌, ◌++◌, map, Option, none, some,
  Text, bytes, text_eq, ℤ, pos, negsuc, length, if◌then◌else◌, ltb,
}
use queue_benchmark.Prelude.Int.{leb_ℤ, sub_ℕ, pos_part, neg_part, wrap_signed, two_63, second}
use queue_benchmark.Queue.{
  Uuid, Kind, JobId, EnqueueRequest, Job, Error, Outcome, WorkerFunc, Result, ok, err, wrap,
  record_start, start_harness, stop_harness, record_end, Site,
}
use queue_benchmark.Queue.Simulate.{simulate, is_simulated_error}
use queue_benchmark.Queue.Contract.{Harness, StopResult, returned, panicked}
use queue_benchmark.Analyze.Float.{Float}
use queue_benchmark.Workload.{Spec, JobClass}
use queue_benchmark.Metrics.{
  Value, Fields, Event, Time, Recorder, record_event, string, float64, int64, int, int32, uint64,
  kind_run_start, kind_run_end, kind_job_enqueued, kind_job_started, kind_job_completed,
  kind_job_failed, kind_resource_sample,
}
use queue_benchmark.Analyze.Reader.{time_sub}
use queue_benchmark.Analyze.Reader.Loop.{seconds}

-- `t.UnixNano()`: 1970 is 62135596800 seconds after the zero time.
unfoldable pub unix_nano : Time → ℤ
unix_nano t = wrap_signed two_63 (sub_ℕ (pos_part t) (neg_part t + 62135596800 * second))

-- `d.Milliseconds()`: towards zero.
unfoldable pub milliseconds : ℤ → ℤ
milliseconds (pos n) = pos (n / 1000000)
milliseconds (negsuc n) = sub_ℕ 0 ((n + 1) / 1000000)

unfoldable pub or_default : (default given : ℤ) → ℤ
or_default default given = if leb_ℤ given (pos 0) then default else given

-- The kinds of a mix, each once.
unfoldable pub add_kind : Kind → List Kind → List Kind
add_kind kind [] = kind ∷ []
add_kind kind (k ∷ ks) =
    let later = add_kind kind ks in if text_eq k kind then k ∷ ks else k ∷ later

-- What a run is given: floats, a harness, what `String` makes of a uuid and `Error` of an error, and
-- for which jobs the context ends before the work does.
pub record Setting : Type 1 where
  pub float : Float
  pub harness : Harness
  pub to_text : Uuid → Text
  pub error_text : Error → Text
  pub cancelled : Job → Bool

-- A request that is counted as enqueued and whose event is not yet written.
pub record Enqueued : Type 0 where
  pub request : EnqueueRequest
  pub id : JobId
  pub submitted_at : Time
  pub enqueued_at : Time

-- A job whose counter is raised and whose event is not yet written.
pub record Ended : Type 0 where
  pub job : Job
  pub duration : ℤ
  pub completed_at : Time
  pub outcome : Outcome

module _ (w : Setting) where
  -- The configuration, less the harness and the recorder. Durations are nanoseconds.
  pub record Config : Type 0 where
    pub library : Text
    pub spec : Spec w.float
    pub enqueue_concurrency : ℤ
    pub drain_timeout : ℤ
    pub resource_sample_interval : ℤ

  unfoldable pub with_defaults : Config → Config
  unfolding or_default
  with_defaults cfg = record cfg {
    enqueue_concurrency = or_default (pos 4) cfg.enqueue_concurrency;
    drain_timeout = or_default cfg.spec.duration cfg.drain_timeout;
    resource_sample_interval = or_default (pos second) cfg.resource_sample_interval;
  }

  unfoldable pub kinds_of : List (JobClass w.float) → List Kind
  unfolding add_kind
  kinds_of [] = []
  kinds_of (c ∷ cs) = add_kind c.kind (kinds_of cs)

  -- A request whose call of `Enqueue` has answered and whose answer is not yet looked at.
  pub record Pending : Type 0 where
    pub request : EnqueueRequest
    pub submitted_at : Time
    pub answer : Result JobId

  -- What the goroutines share. `requests` are those that are still to come through the channel.
  pub record Run : Type 0 where
    pub harness : w.harness.State
    pub recorder : Recorder w.float
    pub enqueued : ℕ
    pub completed : ℕ
    pub failed : ℕ
    pub requests : List EnqueueRequest
    pub in_flight : List Pending
    pub recording : List Enqueued
    pub ending : List Ended

  -- `_ = rec.Record(…)`.
  unfoldable pub note : Text → Fields w.float → Time → Run → Run
  note kind fields now s = record s {
    recorder = (record_event w.float kind fields now s.recorder).1;
  }

  unfoldable pub run_fields : Config → Fields w.float
  run_fields cfg =
      (bytes "library", string cfg.library)
      ∷ (bytes "scenario", string cfg.spec.name)
      ∷ (bytes "duration_sec", float64 (seconds w.float cfg.spec.duration))
      ∷ (bytes "enqueue_rate", int cfg.spec.enqueue_rate)
      ∷ (bytes "tenants", int cfg.spec.tenants)
      ∷ (bytes "tenant_skew", float64 cfg.spec.tenant_skew)
      ∷ (bytes "seed", uint64 (pos cfg.spec.seed))
      ∷ []

  abbrev pub job_fields : Job → Fields w.float
  job_fields job =
      (bytes "job_id", string job.id)
      ∷ (bytes "tenant_id", string (w.to_text job.tenant_id))
      ∷ (bytes "kind", string job.kind)
      ∷ (bytes "attempt", int32 job.attempt)
      ∷ []

  -- What the registered worker returns.
  unfoldable pub work : WorkerFunc
  work job = simulate (w.cancelled job) job

  -- The worker up to the simulated work.
  unfoldable pub begin_job : Job → (started_at now : Time) → Run → Run
  unfolding unix_nano note
  begin_job job started_at now =
      note kind_job_started
        (job_fields job ++ (bytes "started_at_ns", int64 (unix_nano started_at)) ∷ []) now

  abbrev pub class_of : Option Text → Text
  class_of none = []
  class_of (some class) = class

  -- The worker behind the simulated work, up to the counter.
  unfoldable pub count_job : Job → (duration : ℤ) → (completed_at : Time) → Outcome → Run → Run
  count_job job duration completed_at (some e) s = record s {
    failed = suc s.failed;
    ending =
        s.ending
        ++ record { job = job; duration = duration; completed_at = completed_at; outcome = some e }
          ∷ [];
  }
  count_job job duration completed_at none s = record s {
    completed = suc s.completed;
    ending =
        s.ending
        ++ record { job = job; duration = duration; completed_at = completed_at; outcome = none }
          ∷ [];
  }

  -- The event of the worker, behind the counter.
  unfoldable pub record_job : (now : Time) → Ended → Outcome → Run → Run
  unfolding unix_nano milliseconds note
  record_job now x (some e) s =
      note kind_job_failed
        (job_fields x.job
          ++ (bytes "duration_ms", int64 (milliseconds x.duration))
            ∷ (bytes "completed_at_ns", int64 (unix_nano x.completed_at))
            ∷ (bytes "error_class", string (class_of (is_simulated_error e)))
            ∷ (bytes "error_message", string (w.error_text e))
            ∷ [])
        now s
  record_job now x none s =
      note kind_job_completed
        (job_fields x.job
          ++ (bytes "duration_ms", int64 (milliseconds x.duration))
            ∷ (bytes "completed_at_ns", int64 (unix_nano x.completed_at))
            ∷ [])
        now s

  -- A tick of the resource sampler.
  unfoldable pub sample : (goroutines rss heap : ℤ) → (now : Time) → Run → Run
  unfolding note
  sample goroutines rss heap now s =
      note kind_resource_sample
        ((bytes "goroutines", int goroutines)
          ∷ (bytes "rss_bytes", uint64 rss)
          ∷ (bytes "heap_bytes", uint64 heap)
          ∷ (bytes "enqueued", int64 (pos s.enqueued))
          ∷ (bytes "completed", int64 (pos s.completed))
          ∷ (bytes "failed", int64 (pos s.failed))
          ∷ [])
        now s
