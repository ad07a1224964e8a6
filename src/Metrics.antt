-- ===== src/Metrics.antt =====
-- Events and their recorder: internal/metrics/recorder.go. The analyzer's rawEvent has the same
-- fields, so both are one record here. What reaches the file is the list of the events written;
-- encoding/json and the file give each write an outcome.
use queue_benchmark.Prelude.{List, [], ◌∷◌, ◌++◌, Option, none, some, Text, bytes, ℤ}
use queue_benchmark.Prelude.Dict.{Dict}
use queue_benchmark.Queue.{Outcome, Result, ok, err, wrap, mkdir_results, open_results}
use queue_benchmark.Analyze.Float.{Float}

abbrev pub kind_run_start : Text
kind_run_start = bytes "run_start"

abbrev pub kind_run_end : Text
kind_run_end = bytes "run_end"

abbrev pub kind_job_enqueued : Text
kind_job_enqueued = bytes "job_enqueued"

abbrev pub kind_job_started : Text
kind_job_started = bytes "job_started"

abbrev pub kind_job_completed : Text
kind_job_completed = bytes "job_completed"

abbrev pub kind_job_failed : Text
kind_job_failed = bytes "job_failed"

abbrev pub kind_resource_sample : Text
kind_resource_sample = bytes "resource_sample"

-- A time.Time is its distance in nanoseconds from the zero time.
abbrev pub Time : Type 0
Time = ℤ

module _ (fl : Float) where
  open fl use {F}

  -- An `interface{}`, as far as a field's value is looked at. A json.Number carries what its
  -- `Int64` returns.
  pub data Value : Type 0 where
    string : Text → Value
    float64 : F → Value
    int64 int int32 uint64 : ℤ → Value
    json_number : Option ℤ → Value
    other : Value

  abbrev pub Fields : Type 0
  Fields = Dict Value

  pub record Event : Type 0 where
    pub run_id : Text
    pub timestamp : Time
    pub kind : Text
    pub fields : Fields

  -- `outcomes` says how the next writes end.
  pub record Recorder : Type 0 where
    pub run_id : Text
    pub written : List Event
    pub outcomes : List Outcome

  -- `NewRecorder`, from the errors of making the directory and of opening the file, which is
  -- appended to.
  unfoldable pub new_recorder :
      (mkdir_error open_error : Outcome) → Text → List Event → List Outcome → Result Recorder
  new_recorder (some e) open_error run_id old outcomes = err (wrap mkdir_results e)
  new_recorder none (some e) run_id old outcomes = err (wrap open_results e)
  new_recorder none none run_id old outcomes =
      ok (record { run_id = run_id; written = old; outcomes = outcomes })

  unfoldable pub write : Event → Text → List Event → List Outcome → Outcome × Recorder
  write ev run_id old [] =
      (none, record { run_id = run_id; written = old ++ ev ∷ []; outcomes = [] })
  write ev run_id old (none ∷ rest) =
      (none, record { run_id = run_id; written = old ++ ev ∷ []; outcomes = rest })
  write ev run_id old (some e ∷ rest) =
      (some e, record { run_id = run_id; written = old; outcomes = rest })

  -- `Record`, at a reading of the clock.
  unfoldable pub record_event : Text → Fields → Time → Recorder → Outcome × Recorder
  unfolding write
  record_event kind fields now r =
      write (record { run_id = r.run_id; timestamp = now; kind = kind; fields = fields }) r.run_id
        r.written r.outcomes

  -- `Close`: what the file then holds. Its only caller defers it and discards its error.
  abbrev pub close_recorder : Recorder → List Event
  close_recorder r = r.written
