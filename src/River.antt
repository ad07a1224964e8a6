-- ===== src/River.antt =====
-- The River adapter: internal/queue/river/adapter.go. River's client, uuid and the clock are
-- parameters: what an insert, a start and a stop of the client answer.
pub mod Contract
pub mod Setup
pub mod Work
use queue_benchmark.Prelude.{
  ℕ, suc, ◌+◌, ◌≡◌, Bool, true, false, List, [], ◌∷◌, ◌++◌, map, Option, none, some, Text, bytes,
  text_eq, ℤ, pos, negsuc, if◌then◌else◌,
}
use queue_benchmark.Prelude.Bytes.{format_int}
use queue_benchmark.Prelude.Int.{wrap_signed, two_31}
use queue_benchmark.Queue.{
  Uuid, Kind, JobId, JobPayload, EnqueueRequest, Job, Stats, Error, Outcome, WorkerFunc, Result, ok,
  err, ErrorClass, permanent, wrap, river_config, river_client, start_client, river_stop,
  register_after_start, already_registered, start_twice, enqueue_before_start, bad_tenant_id,
  no_worker, invalid_tenant,
}
use queue_benchmark.Queue.Config.{Config, validate}
use queue_benchmark.Queue.Simulate.{is_simulated_error}
use queue_benchmark.Queue.Contract.{
  Workers, find_worker, total_workers, StopResult, returned, panicked,
}

-- `DefaultRouter`.
unfoldable pub default_router : Kind → Text
default_router kind = bytes "default"

-- Durations are nanoseconds.
pub record Options : Type 0 where
  pub router : Option (Kind → Text)
  pub fetch_cooldown : ℤ
  pub fetch_poll_interval : ℤ

-- The harness, less its pool. `client` says that there is a client: a stop leaves it in place.
pub record Harness : Type 0 where
  pub cfg : Config
  pub router : Kind → Text
  pub client : Bool
  pub workers : Workers
  pub started : Bool

abbrev pub router_or_default : Option (Kind → Text) → Kind → Text
router_or_default none = default_router
router_or_default (some router) = router

-- `New`, when the connection and the migrations succeed.
unfoldable pub new : Config → Options → Result Harness
unfolding default_router
new cfg opts = elim (validate cfg) [
  | some e ↦ err (wrap river_config e)
  | none ↦ ok (record {
    cfg = cfg;
    router = router_or_default opts.router;
    client = false;
    workers = [];
    started = false;
  })
]

-- What `Register` does with the worker that is already there.
unfoldable pub add_worker : Kind → WorkerFunc → Option WorkerFunc → Harness → Outcome × Harness
add_worker kind fn (some other) h = (some (already_registered kind), h)
add_worker kind fn none h = (none, record h { workers = (kind, fn) ∷ h.workers })

unfoldable pub register : Kind → WorkerFunc → Harness → Outcome × Harness
unfolding add_worker
register kind fn h =
    if h.started
    then (some register_after_start, h)
    else add_worker kind fn (find_worker kind h.workers) h

-- `Start`, from the errors of making the client and of starting it.
unfoldable pub start : (made launched : Outcome) → Harness → Outcome × Harness
start made launched h = if h.started then (some start_twice, h) else elim made [
  | some e ↦ (some (wrap river_client e), h)
  | none ↦ elim launched [
    | some e ↦ (some (wrap start_client e), h)
    | none ↦ (none, record h { client = true; started = true })
  ]
]

pub record BenchArgs : Type 0 where
  pub tenant_id : Text
  pub kind : Kind
  pub payload : JobPayload

-- `benchArgs.Kind`.
abbrev pub args_kind : Text
args_kind = bytes "benchmark.job"

-- A job for River with the queue that it goes to.
pub record Insert : Type 0 where
  pub args : BenchArgs
  pub queue : Text

unfoldable pub make_insert : Harness → (tenant : Text) → Kind → JobPayload → Insert
make_insert h tenant kind payload = record {
  args = record { tenant_id = tenant; kind = kind; payload = payload };
  queue = h.router kind;
}

abbrev pub job_id : Result ℤ → Result JobId
job_id (ok id) = ok (format_int id)
job_id (err e) = err e

-- `Enqueue`: River's Insert answers with the id of the job's row.
unfoldable pub enqueue :
    (insert : Insert → Result ℤ) (tenant : Text) → Kind → JobPayload → Harness → Result JobId
unfolding make_insert
enqueue insert tenant kind payload h =
    if h.client
    then job_id (insert (make_insert h tenant kind payload))
    else err enqueue_before_start

abbrev pub job_ids : Result (List ℤ) → List JobId × Outcome
job_ids (ok ids) = (map format_int ids, none)
job_ids (err e) = ([], some e)

unfoldable pub enqueue_many :
    (insert_many : List Insert → Result (List ℤ)) (to_text : Uuid → Text)
    → List EnqueueRequest
    → Harness
    → List JobId × Outcome
unfolding make_insert
enqueue_many insert_many to_text jobs h =
    if h.client
    then job_ids (
        insert_many
          (map (λ (j : EnqueueRequest). make_insert h (to_text j.tenant_id) j.kind j.payload) jobs))
    else ([], some enqueue_before_start)

unfoldable pub stats : Harness → Stats
stats h = record {
  pending = pos 0;
  running = pos 0;
  completed = pos 0;
  failed = pos 0;
  discarded = pos 0;
  workers_total = total_workers h.cfg.queues (pos 0);
  workers_busy = pos 0;
}

abbrev pub stop_outcome : Outcome → Outcome
stop_outcome none = none
stop_outcome (some e) = some (wrap river_stop e)

-- `Stop`, from the error of the client's Stop.
unfoldable pub stop : (stop_error : Outcome) → Harness → StopResult × Harness
stop stop_error h =
    let h' : Harness = record h { started = false } in
    if h.client then (returned (stop_outcome stop_error), h') else (returned none, h')
