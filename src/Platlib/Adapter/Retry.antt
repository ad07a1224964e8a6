-- ===== src/Platlib/Adapter/Retry.antt =====
-- `benchRunner.Run` of internal/queue/platlib/adapter.go: dispatch, and the retry policy.
pub mod Policy
pub mod Exhaust
pub mod Delays
use queue_benchmark.Prelude.{
  ℕ, suc, ◌+◌, ◌≡◌, Bool, true, false, List, [], ◌∷◌, Option, none, some, Text, text_eq, ℤ, pos,
  if◌then◌else◌,
}
use queue_benchmark.Prelude.Int.{two_31, wrap_signed, ltb_ℤ, leb_ℤ}
use queue_benchmark.Queue.{
  Uuid, Job, Error, Outcome, WorkerFunc, ErrorClass, permanent, wrap, reenqueue, bad_payload,
  bad_tenant_id, no_worker,
}
use queue_benchmark.Queue.Simulate.{is_simulated_error}
use queue_benchmark.Platlib.Adapter.{
  BenchWork, Harness, Options, Pushed, PushFn, address, find_worker, next_int32,
}

-- What the runner uses and the repository does not implement: encoding/json, uuid, rsqueue's Push
-- and the clock.
pub record Services : Type 0 where
  pub decode : Text → Option BenchWork
  pub parse_uuid : Text → Option Uuid
  pub push : PushFn
  pub now : ℕ

-- A retry is pushed at once or by a goroutine behind a delay.
pub data Retry : Type 0 where
  no_retry : Retry
  immediate : Pushed → Retry
  delayed : (delay : ℤ) → Pushed → Retry

abbrev pub is_permanent : Option ErrorClass → Bool
is_permanent none = false
is_permanent (some class) = text_eq class permanent

-- `se, simulated := IsSimulatedError(err); simulated && se.Class == ErrorPermanent`
abbrev pub is_final : Error → Bool
is_final e = is_permanent (is_simulated_error e)

unfoldable pub make_job : ℕ → Uuid → BenchWork → Job
make_job now tenant w = record {
  id = address w;
  tenant_id = tenant;
  kind = w.kind;
  payload = w.payload;
  attempt = w.attempt;
  enqueued_at = now;
}

-- The retried work: the same but for its attempt, pushed without an address.
unfoldable pub retried : Harness → BenchWork → Pushed
retried h w = record {
  to_address = none;
  priority = h.opts.default_priority;
  work = record w { attempt = next_int32 w.attempt };
}

unfoldable pub push_now : PushFn → Pushed → Outcome × Retry
push_now push p = elim (push p) [
  | none ↦ (none, immediate p)
  | some e ↦ (some (wrap (reenqueue p.work.attempt) e), no_retry)
]

unfoldable pub schedule : Option (ℤ → ℤ) → PushFn → Pushed → Outcome × Retry
unfolding push_now
schedule none push p = push_now push p
schedule (some backoff) push p =
    let delay = backoff p.work.attempt in
    if ltb_ℤ (pos 0) delay then (none, delayed delay p) else push_now push p

unfoldable pub max_attempts : Harness → ℤ
unfolding wrap_signed
max_attempts h = wrap_signed two_31 h.cfg.max_attempts

-- What follows the worker's return.
unfoldable pub after_worker : Harness → PushFn → BenchWork → Outcome → Outcome × Retry
unfolding retried schedule max_attempts
after_worker h push w none = (none, no_retry)
after_worker h push w (some e) =
    if is_final e
    then (some e, no_retry)
    else if leb_ℤ (max_attempts h) w.attempt
    then (some e, no_retry)
    else schedule h.opts.backoff_fn push (retried h w)

unfoldable pub run_work : Harness → Services → BenchWork → Outcome × Retry
unfolding make_job after_worker
run_work h env w = elim (env.parse_uuid w.tenant_id) [
  | none ↦ (some bad_tenant_id, no_retry)
  | some tenant ↦ elim (find_worker w.kind h.workers) [
    | none ↦ (some (no_worker w.kind), no_retry)
    | some fn ↦ after_worker h env.push w (fn (make_job env.now tenant w))
  ]
]

-- `Run`: what the agent is told, and the retry that is queued or scheduled.
unfoldable pub run : Harness → Services → Text → Outcome × Retry
unfolding run_work
run h env raw = elim (env.decode raw) [
  | none ↦ (some bad_payload, no_retry)
  | some w ↦ run_work h env w
]

-- The goroutine of a delayed retry: pushed when the timer fires, dropped when the harness stops
-- first.
unfoldable pub wake : (stopped_first : Bool) → Retry → List Pushed
wake stopped_first no_retry = []
wake stopped_first (immediate p) = []
wake stopped_first (delayed delay p) = if stopped_first then [] else p ∷ []
