-- ===== src/Examples/Adapter.antt =====
-- A harness with one worker: registration, retries, stop.
use queue_benchmark.Prelude.{
  List, ◌+◌, ◌%◌, Pairs, ◌*◌, ◌≤◌, ◌≡◌, refl, ◌≢◌, ◌⊎◌, ◌↔◌, true, false, [], ◌∷◌, ◌++◌, none, some,
  arith, Text, text_eq, bytes, ℤ, pos,
}
use queue_benchmark.Prelude.Int.{two_64, second, wrap_signed, ◌<ℤ◌}
use queue_benchmark.Queue.{
  Error, Job, JobPayload, ok, simulated, transient, register_after_start, EnqueueRequest,
}
use queue_benchmark.Queue.Simulate.{is_simulated_error}
use queue_benchmark.Queue.Config.{Config, validate, IsUsable}
use queue_benchmark.Queue.Config.Checks.{validate-IsUsable}
use queue_benchmark.Platlib.Adapter.{
  BenchWork, Harness, find_worker, register, start, stop, returned, panicked, enqueue, first_push,
  is_known, address_of, exponential_backoff, previous_int32, at_least_one, next_int32, enqueue_many,
  new,
}
use queue_benchmark.Platlib.Adapter.Setup.{Made, set_up, set_up_lem}
use queue_benchmark.Queue.Contract.{is_ok}
use queue_benchmark.Platlib.Adapter.Batch.{enqueue_many_distinct}
use queue_benchmark.Platlib.Adapter.Backoff.{exponential_backoff_exact, fourth}
use queue_benchmark.Platlib.Adapter.Lifecycle.{stop_again, enqueue_ok_iff}
use queue_benchmark.Platlib.Adapter.Retry.{
  Services, run_work, after_worker, is_final, schedule, push_now, retried, max_attempts,
}
use queue_benchmark.Platlib.Adapter.Retry.Policy.{IsSameJob, Runs, Runs-bounded, retry_work}
use queue_benchmark.Platlib.Adapter.Retry.Exhaust.{drive, replicate, drive_exhausts}

abbrev email : Text
email = bytes "email"

abbrev pub cfg : Config
cfg = record {
  postgres_url = bytes "pg";
  queues = (bytes "default", record { max_workers = pos 2 }) ∷ [];
  max_attempts = pos 3;
  shutdown_timeout = pos 5;
}

abbrev pub down : Error
down = simulated transient (bytes "down")

abbrev pub idle_harness : Harness
idle_harness = record {
  cfg = cfg;
  opts = record { default_priority = 10; use_addressed_push = true; backoff_fn = none };
  workers = [];
  started = false;
  stopping = false;
  counter = 0;
}

-- One worker, which always fails.
abbrev pub failing : Harness
failing = record idle_harness { workers = (email, λ job. some down) ∷ []; started = true }

abbrev pub work : ℤ → BenchWork
work attempt = record {
  work_id = 1;
  tenant_id = bytes "t";
  kind = email;
  attempt = attempt;
  payload = record { work_millis = pos 0; bytes = []; fail_with_error = []; attempt = pos 0 };
}

abbrev pub env : Services
env = record { decode = λ raw. none; parse_uuid = λ t. some t; push = λ p. none; now = 0 }

known : find_worker email failing.workers ≡ some (λ job. some down)
unfolding find_worker text_eq
known = refl

recoverable : (job : Job) → is_final down ≡ false
unfolding is_simulated_error text_eq
recoverable job = refl

drive_exhausts_example : drive 5 failing env (work (pos 1)) ≡ replicate 2 none ++ some down ∷ []
drive_exhausts_example =
    drive_exhausts failing env email (bytes "t") (bytes "t") (λ job. down) 3 known refl recoverable
      (λ p. refl) refl (omega arith) 2 5 (work (pos 1)) 1 refl refl refl (omega arith) (omega arith)

second_run : retry_work (run_work failing env (work (pos 1))).1 ≡ some (work (pos 2))
unfolding run_work after_worker schedule push_now retried max_attempts next_int32 wrap_signed
    find_worker text_eq is_simulated_error
second_run = refl

Runs-bounded_example :
    (2 ≤ 3) × ((work (pos 2)).attempt ≡ pos 2) × IsSameJob (work (pos 1)) (work (pos 2))
Runs-bounded_example =
    Runs-bounded failing env 3 refl (omega arith) (omega arith) refl
      (Runs.again Runs.first second_run)

validate-IsUsable_example : validate cfg ≡ none ↔ IsUsable cfg
validate-IsUsable_example = validate-IsUsable cfg

registered : (register email (λ job. none) idle_harness).0 ≡ none
unfolding register find_worker
registered = refl

refused : (register email (λ job. none) failing).0 ≡ some register_after_start
unfolding register
refused = refl

starts : (start none idle_harness).0 ≡ none
unfolding start
starts = refl

stop_again_example :
    let stopped = (stop none failing).1 in
    let restarted = (start none stopped).1 in
    ((stop none failing).0 ≡ returned none)
    × ((start none stopped).0 ≡ none)
    × ((stop none restarted).0 ≡ panicked)
stop_again_example = stop_again none none failing refl refl

abbrev nothing : JobPayload
nothing = (work (pos 1)).payload

enqueue_ok_iff_example :
    let (r, h, pushed) = enqueue env.push (bytes "t") email nothing failing in
    let p = first_push failing (bytes "t") email nothing in
    let next = (failing.counter + 1) % two_64 in
    ((r ≡ ok (address_of 1)) ↔ (
      (failing.started ≡ true)
      × (is_known (find_worker email failing.workers) ≡ true)
      × (env.push p ≡ none)
      × (address_of 1 ≡ address_of next)))
    × (((failing.started ≡ true)
          × (is_known (find_worker email failing.workers) ≡ true)
          × (pushed ≡ p ∷ [])
          × (h ≡ record failing { counter = next }))
        ⊎ (((failing.started ≡ false) ⊎ (is_known (find_worker email failing.workers) ≡ false))
            × (pushed ≡ [])
            × (h ≡ failing)))
    × (p.work ≡ record {
      work_id = next;
      tenant_id = bytes "t";
      kind = email;
      attempt = pos 1;
      payload = nothing;
    })
enqueue_ok_iff_example = enqueue_ok_iff env.push (bytes "t") email nothing failing (address_of 1)

exponential_backoff_exact_example : exponential_backoff (pos 4) ≡ pos (fourth 3 * second)
exponential_backoff_exact_example = exponential_backoff_exact 3 (omega arith) (omega arith)

-- The delay behind the 310th failed attempt wraps to a negative one, which the runner takes for
-- none.
exponential_backoff_wraps : exponential_backoff (pos 311) <ℤ pos 0
unfolding exponential_backoff previous_int32 at_least_one wrap_signed
exponential_backoff_wraps = omega arith

-- The second of these requests is of a kind without a worker.
abbrev requests : List EnqueueRequest
requests =
    record { tenant_id = bytes "t"; kind = email; payload = nothing }
    ∷ record { tenant_id = bytes "t"; kind = []; payload = nothing }
    ∷ []

enqueue_many_distinct_example :
    Pairs (λ s t. s ≢ t) (enqueue_many env.push (λ t. t) requests failing).0
enqueue_many_distinct_example =
    enqueue_many_distinct env.push (λ t. t) requests failing (omega arith)

-- The schema fails behind the connection.
abbrev no_schema : Made
no_schema = record { connect = none; schema = some down; broadcast = none; queue = none }

set_up_lem_example :
    let (r, o) = set_up no_schema cfg idle_harness.opts 0 in
    ((is_ok r ≡ true) ↔ (
      (is_ok (new cfg idle_harness.opts 0) ≡ true)
      × (no_schema.connect ≡ none)
      × (no_schema.schema ≡ none)
      × (no_schema.broadcast ≡ none)
      × (no_schema.queue ≡ none)))
    × (o.pool ≡ is_ok r)
    × (o.listener ≡ is_ok r)
    × (o.factory ≡ is_ok r)
    × ((o.broadcaster ≡ true) ↔ (
        (is_ok (new cfg idle_harness.opts 0) ≡ true)
        × (no_schema.connect ≡ none)
        × (no_schema.schema ≡ none)
        × (no_schema.broadcast ≡ none)))
set_up_lem_example = set_up_lem no_schema cfg idle_harness.opts 0
