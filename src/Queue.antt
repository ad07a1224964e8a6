-- ===== src/Queue.antt =====
-- The vendor-neutral contract: internal/queue/queue.go, and the error values of the program.
-- A Go string is the list of its bytes, an int or int64 an integer, a Go map an association list
-- whose order is the one that `range` happens to take.
pub mod Config
pub mod Simulate
pub mod Contract
use queue_benchmark.Prelude.{
  ℕ, ◌≡◌, refl, ◌⊎◌, inl, inr, Bool, true, false, ◌||◌, List, [], ◌∷◌, Option, none, some, Text,
  bytes, text_eq, ℤ,
}
use queue_benchmark.Prelude.Bytes.{contains}

-- The sixteen bytes of a uuid.UUID.
abbrev pub Uuid : Type 0
Uuid = Text

abbrev pub Kind : Type 0
Kind = Text

abbrev pub JobId : Type 0
JobId = Text

abbrev pub ErrorClass : Type 0
ErrorClass = Text

abbrev pub rate_limit : ErrorClass
rate_limit = bytes "rate_limit"

abbrev pub transient : ErrorClass
transient = bytes "transient"

abbrev pub permanent : ErrorClass
permanent = bytes "permanent"

pub record JobPayload : Type 0 where
  pub work_millis : ℤ
  pub bytes : Text
  pub fail_with_error : Text
  pub attempt : ℤ

pub record EnqueueRequest : Type 0 where
  pub tenant_id : Uuid
  pub kind : Kind
  pub payload : JobPayload

-- `EnqueuedAt` is a clock reading.
pub record Job : Type 0 where
  pub id : JobId
  pub tenant_id : Uuid
  pub kind : Kind
  pub payload : JobPayload
  pub attempt : ℤ
  pub enqueued_at : ℕ

pub record Stats : Type 0 where
  pub pending : ℤ
  pub running : ℤ
  pub completed : ℤ
  pub failed : ℤ
  pub discarded : ℤ
  pub workers_total : ℤ
  pub workers_busy : ℤ

-- What the Postgres driver reports: a server error with its SQLSTATE code, any other error, or
-- one of these wrapped once more.
pub data DriverError : Type 0 where
  pg_error : (code text : Text) → DriverError
  other_error : (text : Text) → DriverError
  driver_wrap : (text : Text) → DriverError → DriverError

-- The prefix of an error that `fmt.Errorf("…: %w", err)` wraps.
pub data Site : Type 0 where
  queue_push queue_push_addressed marshal_work begin_tx pop_precount pop_begin pop_permit : Site
  pop_claim delete_row delete_permit peek peek_scan failure_check row_check in_progress_check : Site
  complete_clear complete_marshal complete_insert : Site
  platlib_config river_config start_client concurrencies river_client river_stop : Site
  invalid_tenant mkdir_results open_results record_start start_harness stop_harness : Site
  record_end scenario_site analyze_site write_report : Site
  platlib_connect apply_schema new_broadcaster new_queue : Site
  river_connect river_migrator river_migrate : Site
  parse_file in_file register_worker : (name : Text) → Site
  reenqueue : (attempt : ℤ) → Site

-- The errors that the program makes or passes on.
pub data Error : Type 0 where
  url_required queues_required attempts_too_low shutdown_too_low : Error
  workers_too_low : (queue : Text) → Error
  register_after_start start_twice enqueue_before_start : Error
  already_registered no_worker : (kind : Kind) → Error
  bad_payload bad_tenant_id nested_transaction context_done : Error
  no_rows duplicate_addressed_push bad_event event_missing flags_required : Error
  unknown_scenario unknown_library : (name : Text) → Error
  simulated : (class msg : Text) → Error
  queue_error : (text : Text) → Error
  message : (text : Text) → Error
  driver : DriverError → Error
  wrap : Site → Error → Error

-- What a worker, or an operation with no result, returns: nil or an error.
abbrev pub Outcome : Type 0
Outcome = Option Error

abbrev pub WorkerFunc : Type 0
WorkerFunc = Job → Outcome

-- A value or an error.
pub data Result {ℓ} (A : Type ℓ) : Type ℓ where
  ok : A → Result A
  err : Error → Result A

pub Result-cases :
    {A : Type 0} (r : Result A) → ((a : A) × (r ≡ ok a)) ⊎ ((e : Error) × (r ≡ err e))
Result-cases (ok a) = inl (a, refl)
Result-cases (err e) = inr (e, refl)
