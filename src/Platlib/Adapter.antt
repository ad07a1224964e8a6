-- ===== src/Platlib/Adapter.antt =====
-- The harness of internal/queue/platlib/adapter.go. rsqueue's queue and agent, uuid and
-- encoding/json are parameters: what a push answers, how a job is encoded, what a worker returns.
pub mod Retry
pub mod Lifecycle
pub mod Backoff
pub mod Batch
pub mod Contract
pub mod Setup
use Prim.Native.Nat.{bit_xor}
use queue_benchmark.Prelude.{
  ℕ, suc, ◌+◌, ◌-◌, ◌*◌, ◌%◌, ◌^◌, ◌≡◌, Bool, true, false, List, [], ◌∷◌, ◌++◌, Option, none, some,
  Text, bytes, text_eq, ℤ, pos, negsuc, if◌then◌else◌, ltb, leb, ◌==◌,
}
use queue_benchmark.Prelude.Bytes.{format_uint}
use queue_benchmark.Prelude.Int.{
  second, two_31, wrap_signed, sub_ℕ, pos_part, neg_part, ltb_ℤ, leb_ℤ, two_64, two_63, to_int64,
}
use queue_benchmark.Queue.{
  Uuid, Kind, JobId, JobPayload, EnqueueRequest, Job, Stats, Error, Outcome, WorkerFunc, Result, ok,
  err, permanent, wrap, reenqueue, bad_payload, bad_tenant_id, no_worker, register_after_start,
  already_registered, start_twice, enqueue_before_start, platlib_config, concurrencies,
}
pub use queue_benchmark.Queue.Contract.{StopResult, returned, panicked}
unfoldable pub use queue_benchmark.Queue.Contract.{Workers, find_worker, is_known, total_workers}
use queue_benchmark.Queue.Config.{Config, QueueConfig, validate}
use queue_benchmark.Queue.Simulate.{is_simulated_error}

-- kindCode: fnv-1a over the bytes of the kind, in uint64.
abbrev pub fnv_offset : ℕ
fnv_offset = 14695981039346656037

abbrev pub fnv_prime : ℕ
fnv_prime = 1099511628211

unfoldable pub fnv_from : ℕ → Text → ℕ
fnv_from h [] = h
fnv_from h (b ∷ rest) = fnv_from (bit_xor h b * fnv_prime % two_64) rest

unfoldable pub kind_code : Kind → ℕ
unfolding fnv_from
kind_code k = fnv_from fnv_offset k

-- The work that travels through rsqueue.
pub record BenchWork : Type 0 where
  pub work_id : ℕ
  pub tenant_id : Text
  pub kind : Kind
  pub attempt : ℤ
  pub payload : JobPayload

-- `Type` and `Address`.
unfoldable pub work_type : BenchWork → ℕ
work_type w = kind_code w.kind

unfoldable pub address_of : ℕ → Text
address_of id = bytes "bench:" ++ format_uint id

abbrev pub address : BenchWork → Text
address w = address_of w.work_id

-- `x + 1` and `x - 1` in int32.
unfoldable pub next_int32 : ℤ → ℤ
unfolding wrap_signed
next_int32 (pos n) = wrap_signed two_31 (pos (n + 1))
next_int32 (negsuc n) = wrap_signed two_31 (sub_ℕ 0 n)

unfoldable pub previous_int32 : ℤ → ℤ
unfolding wrap_signed
previous_int32 x = wrap_signed two_31 (sub_ℕ (pos_part x) (neg_part x + 1))

-- The failed attempt, at least 1.
unfoldable pub at_least_one : ℤ → ℕ
at_least_one (negsuc n) = 1
at_least_one (pos n) = if n == 0 then 1 else n

unfoldable pub exponential_backoff : ℤ → ℤ
exponential_backoff next_attempt =
    let n = at_least_one (previous_int32 next_attempt) in
    wrap_signed two_63 (pos (n * n * n * n * second))

pub record Options : Type 0 where
  pub default_priority : ℕ
  pub use_addressed_push : Bool
  pub backoff_fn : Option (ℤ → ℤ)

-- The harness, less its connections. `counter` is the process's work id counter, `stopping` says
-- that `stopCh` is closed.
pub record Harness : Type 0 where
  pub cfg : Config
  pub opts : Options
  pub workers : Workers
  pub started : Bool
  pub stopping : Bool
  pub counter : ℕ

unfoldable pub default_options : Options → Options
default_options opts = record opts {
  default_priority = if opts.default_priority == 0 then 10 else opts.default_priority;
}

-- `New`, when the connection, the schema and rsqueue's constructors succeed.
unfoldable pub new : Config → Options → ℕ → Result Harness
unfolding default_options
new cfg opts counter = elim (validate cfg) [
  | some e ↦ err (wrap platlib_config e)
  | none ↦ ok (record {
    cfg = cfg;
    opts = default_options opts;
    workers = [];
    started = false;
    stopping = false;
    counter = counter;
  })
]

-- What `Register` does with the worker that is already there.
unfoldable pub add_worker : Kind → WorkerFunc → Option WorkerFunc → Harness → Outcome × Harness
add_worker kind fn (some other) h = (some (already_registered kind), h)
add_worker kind fn none h = (none, record h { workers = (kind, fn) ∷ h.workers })

unfoldable pub register : Kind → WorkerFunc → Harness → Outcome × Harness
unfolding add_worker
register kind fn h =
    if h.started
    then (some register_after_start, h)
    else add_worker kind fn (find_worker kind h.workers) h

-- `Start`: `enforcer` is the error of rsqueue's agent.Concurrencies.
unfoldable pub start : (enforcer : Outcome) → Harness → Outcome × Harness
start enforcer h = if h.started then (some start_twice, h) else elim enforcer [
  | some e ↦ (some (wrap concurrencies e), h)
  | none ↦ (none, record h { started = true })
]

-- A push of work on rsqueue: to an address or not, with the priority.
pub record Pushed : Type 0 where
  pub to_address : Option Text
  pub priority : ℕ
  pub work : BenchWork

abbrev pub PushFn : Type 0
PushFn = Pushed → Outcome

-- `nextWorkID`: the counter is a uint64.
abbrev pub next_work_id : ℕ → ℕ
next_work_id counter = (counter + 1) % two_64

-- What an enqueue pushes.
unfoldable pub first_push : Harness → Text → Kind → JobPayload → Pushed
first_push h tenant kind payload = record {
  to_address = if h.opts.use_addressed_push then some (address_of id) else none;
  priority = h.opts.default_priority;
  work = record {
    work_id = id;
    tenant_id = tenant;
    kind = kind;
    attempt = pos 1;
    payload = payload;
  };
}
  where
    id : ℕ
    id = next_work_id h.counter

unfoldable pub end_enqueue : Pushed → Outcome → Result JobId
end_enqueue p none = ok (address p.work)
end_enqueue p (some e) = err e

-- `Enqueue`: the job id, the harness behind, and what was pushed.
unfoldable pub enqueue :
    PushFn → Text → Kind → JobPayload → Harness → Result JobId × Harness × List Pushed
unfolding first_push end_enqueue
enqueue push tenant kind payload h =
    let p = first_push h tenant kind payload in
    if h.started
    then if is_known (find_worker kind h.workers)
      then (end_enqueue p (push p), record h { counter = p.work.work_id }, p ∷ [])
      else (err (no_worker kind), h, [])
    else (err enqueue_before_start, h, [])

-- `EnqueueMany` stops at the first error and returns the ids so far with it.
unfoldable pub enqueue_many :
    PushFn → (Uuid → Text) → List EnqueueRequest → Harness → List JobId × Outcome × Harness
enqueue_many push to_text [] h = ([], none, h)
enqueue_many push to_text (j ∷ js) h =
    let (r, h', p) = enqueue push (to_text j.tenant_id) j.kind j.payload h in
    let (ids, e, h'') = enqueue_many push to_text js h' in
    elim r [ ok id ↦ (id ∷ ids, e, h'') | err x ↦ ([], some x, h') ]

unfoldable pub stats : Harness → Stats
stats h = record {
  pending = pos 0;
  running = pos 0;
  completed = pos 0;
  failed = pos 0;
  discarded = pos 0;
  workers_total = total_workers h.cfg.queues (pos 0);
  workers_busy = pos 0;
}

-- `Stop`: `stop_error` is the wrapped error of the agent's Stop, if it is not its timeout.
unfoldable pub stop : (stop_error : Outcome) → Harness → StopResult × Harness
stop stop_error h =
    if h.started
    then if h.stopping
      then (panicked, record h { started = false })
      else (returned stop_error, record h { started = false; stopping = true })
    else (returned none, h)
