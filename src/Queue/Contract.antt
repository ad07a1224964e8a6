-- ===== src/Queue/Contract.antt =====
-- Register, Start, Enqueue and Stop of the Harness interface of internal/queue/queue.go, which are
-- the operations that a run uses: what both adapters keep for them, the operations as a record, and
-- what a caller may rely on, as a step relation on a view of the adapter. EnqueueMany and Stats are
-- with each adapter.
use queue_benchmark.Prelude.{
  ◌≡◌, Bool, true, false, List, [], ◌∷◌, Option, none, some, Text, text_eq, ℤ, if◌then◌else◌,
}
use queue_benchmark.Prelude.Int.{add_int64}
use queue_benchmark.Queue.{Kind, JobId, JobPayload, Outcome, WorkerFunc, Result, ok, err}
use queue_benchmark.Queue.Config.{QueueConfig}

abbrev pub Workers : Type 0
Workers = List (Kind × WorkerFunc)

unfoldable pub find_worker : Kind → Workers → Option WorkerFunc
find_worker kind [] = none
find_worker kind ((k, fn) ∷ rest) = if text_eq k kind then some fn else find_worker kind rest

abbrev pub is_known : Option WorkerFunc → Bool
is_known none = false
is_known (some fn) = true

-- The sum of the pools' sizes; an int wraps.
unfoldable pub total_workers : List (Text × QueueConfig) → ℤ → ℤ
unfolding add_int64
total_workers [] total = total
total_workers ((name, qc) ∷ rest) total = total_workers rest (add_int64 total qc.max_workers)

-- What a call of `Stop` ends with: closing `stopCh` a second time panics.
pub data StopResult : Type 0 where
  returned : Outcome → StopResult
  panicked : StopResult

-- A call on a harness.
pub data Call : Type 0 where
  register : Kind → WorkerFunc → Call
  start stop : Call
  enqueue : (tenant : Text) → Kind → JobPayload → Call

-- What a caller can tell of a harness: the worker of each kind, whether it is started, and whether
-- it ever was.
pub record View : Type 0 where
  pub worker : Kind → Option WorkerFunc
  pub started : Bool
  pub was_started : Bool

abbrev pub with_worker : Kind → WorkerFunc → (Kind → Option WorkerFunc) → Kind → Option WorkerFunc
with_worker kind fn workers other = if text_eq kind other then some fn else workers other

-- How a call ends: with no error, with one, or with a panic.
pub data Answer : Type 0 where
  done failed crashed : Answer

abbrev pub answered : Bool → Answer
answered true = done
answered false = failed

-- What a call may do, and how it ends. Only Stop may panic, and only on a harness that was started.
pub data Allowed (v : View) : Call → Answer → View → Type 0 where
  registered :
      {kind : Kind} {fn : WorkerFunc}
      → v.started ≡ false
      → v.worker kind ≡ none
      → Allowed v (register kind fn) done (record v { worker = with_worker kind fn v.worker })
  too_late :
      {kind : Kind} {fn : WorkerFunc} → v.started ≡ true → Allowed v (register kind fn) failed v
  registered_before :
      {kind : Kind} {fn other : WorkerFunc}
      → v.worker kind ≡ some other
      → Allowed v (register kind fn) failed v
  launched :
      v.started ≡ false → Allowed v start done (record v { started = true; was_started = true })
  not_launched : Allowed v start failed v
  submitted :
      {tenant : Text} {kind : Kind} {payload : JobPayload}
      → v.was_started ≡ true
      → Allowed v (enqueue tenant kind payload) done v
  refused :
      {tenant : Text} {kind : Kind} {payload : JobPayload}
      → Allowed v (enqueue tenant kind payload) failed v
  halted : (b : Bool) → Allowed v stop (answered b) (record v { started = false })
  broken : v.was_started ≡ true → Allowed v stop crashed (record v { started = false })

-- The operations of an adapter. What lies outside the repository has its answers inside them.
pub record Harness : Type 1 where
  pub State : Type 0
  pub register_worker : Kind → WorkerFunc → State → Outcome × State
  pub start_up : State → Outcome × State
  pub submit : Text → Kind → JobPayload → State → Result JobId × State
  pub shut_down : State → StopResult × State

abbrev pub no_error : Outcome → Bool
no_error none = true
no_error (some e) = false

abbrev pub is_ok : {A : Type 0} → Result A → Bool
is_ok (ok a) = true
is_ok (err e) = false

abbrev pub stop_answer : StopResult → Answer
stop_answer (returned o) = answered (no_error o)
stop_answer panicked = crashed

module _ (h : Harness) where
  open h use {State, register_worker, start_up, submit, shut_down}

  -- A call, and how it ends.
  unfoldable pub perform : Call → State → Answer × State
  perform (register kind fn) s =
      let (o, s') = register_worker kind fn s in (answered (no_error o), s')
  perform start s = let (o, s') = start_up s in (answered (no_error o), s')
  perform stop s = let (o, s') = shut_down s in (stop_answer o, s')
  perform (enqueue tenant kind payload) s =
      let (r, s') = submit tenant kind payload s in (answered (is_ok r), s')

  -- A harness keeps the contract when each call does what is allowed.
  abbrev pub Keeps : (State → View) → Type 0
  Keeps view = (c : Call) (s : State) → Allowed (view s) c (perform c s).0 (view (perform c s).1)
