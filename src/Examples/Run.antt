-- ===== src/Examples/Run.antt =====
-- A run on River, whose inserts and stop succeed, and the analysis of its log.
use queue_benchmark.Prelude.{
  ◌+◌, ◌^◌, ◌<◌, ◌≡◌, ◌≢◌, ◌⊎◌, ◌↔◌, refl, ap, false, List, [], ◌∷◌, map, Option, none, some, Text,
  bytes, text_eq, pos, length, get_elem?, count_if, All, arith,
}
use queue_benchmark.Prelude.Dict.{lookup, get_or_zero}
use queue_benchmark.Queue.{Job, JobPayload, EnqueueRequest, ok, transient, Outcome}
use queue_benchmark.Queue.Contract.{StopResult, returned, find_worker}
use queue_benchmark.Queue.Simulate.{simulate}
use queue_benchmark.River
use queue_benchmark.River.{default_router}
use queue_benchmark.River.Contract.{adapter}
use queue_benchmark.Examples.Statistics.{hundreds}
use queue_benchmark.Metrics.{
  Event, record_event, kind_run_start, kind_run_end, kind_job_enqueued, kind_job_completed,
  kind_job_failed,
}
use queue_benchmark.Analyze.Reader.{TenantStats}
use queue_benchmark.Analyze.Reader.Loop.{analyze_reader}
use queue_benchmark.Analyze.Reader.Tallies.{enqueues, completes, fails_as}
use queue_benchmark.Analyze.Reader.Totals.{behind_first, reader_counts}
use queue_benchmark.Analyze.Reader.Acceptance.{accepted_iff, last_stamp}
use queue_benchmark.Runner
use queue_benchmark.Runner.{Setting, Run}
use queue_benchmark.Runner.Submission.{
  beside, submits, answers, confirms, job_begins, job_ends, job_recorded, ticked,
}
use queue_benchmark.Runner.Lifecycle.{Schedule, run}
use queue_benchmark.Runner.Account.{has_succeeded, has_failed, refused, logged}
use queue_benchmark.Runner.Whole.{fresh}
use queue_benchmark.Runner.Report.{IsExact, read_event, IsStamped, run_accounts, run_report}

abbrev pub setting : Setting
setting = record {
  float = hundreds;
  harness = adapter none none (λ i. ok (pos 7)) none;
  to_text = λ u. u;
  error_text = λ e. bytes "failed";
  cancelled = λ job. false;
}

abbrev email : Text
email = bytes "email"

abbrev pub river : River.Harness
river = record {
  cfg = record {
    postgres_url = bytes "pg";
    queues = (bytes "default", record { max_workers = pos 2 }) ∷ [];
    max_attempts = pos 3;
    shutdown_timeout = pos 5;
  };
  router = default_router;
  client = false;
  workers = [];
  started = false;
}

abbrev cfg : Runner.Config setting
cfg = record {
  library = bytes "river";
  spec = record {
    name = bytes "steady";
    duration = pos 9000000000;
    tenants = pos 1;
    tenant_skew = 0;
    enqueue_rate = pos 1;
    rate_curve = none;
    job_mix =
        record {
          kind = email;
          weight = 100;
          work_millis_min = pos 0;
          work_millis_max = pos 0;
          payload_bytes_min = pos 0;
          payload_bytes_max = pos 0;
        }
        ∷ [];
    error_injection = [];
    seed = 1;
  };
  enqueue_concurrency = pos 0;
  drain_timeout = pos 0;
  resource_sample_interval = pos 0;
}

abbrev pub payload : JobPayload
payload = record { work_millis = pos 0; bytes = []; fail_with_error = []; attempt = pos 0 }

abbrev request : EnqueueRequest
request = record { tenant_id = bytes "t"; kind = email; payload = payload }

abbrev job : Job
job = record {
  id = bytes "7";
  tenant_id = bytes "t";
  kind = email;
  payload = payload;
  attempt = pos 1;
  enqueued_at = 2;
}

-- The second request is left to the end of the enqueue workers; the job starts before its request is
-- recorded.
abbrev schedule : Schedule setting
schedule = record {
  started_at = pos 10;
  range = λ ks. ks;
  requests = request ∷ request ∷ [];
  submitting =
      submits (pos 11)
      ∷ beside (job_begins job (pos 12) (pos 12))
      ∷ answers 0 (pos 13) (pos 13)
      ∷ confirms 0 (pos 13)
      ∷ beside (job_ends job (pos 2) (pos 14))
      ∷ beside (job_recorded 0 (pos 14))
      ∷ [];
  settled_at = pos 15;
  draining = ticked (pos 4) (pos 5) (pos 6) (pos 16) ∷ [];
  stopping = [];
  loading = [];
  closing = [];
  outlasting = [];
  ended_at = pos 17;
}

abbrev ran : StopResult × Run setting
ran = run setting cfg schedule river (fresh setting (bytes "r"))

ran_well : ran ≡ (returned none, ran.1)
unfolding run record_event River.register find_worker River.start River.stop simulate text_eq
    River.enqueue
ran_well = refl

abbrev events : List (Event hundreds)
events = map (read_event hundreds) ran.1.recorder.written

-- A line of n bytes is the n-th of the events.
abbrev decode : Text → Option (Event hundreds)
decode line = get_elem? events (length line)

abbrev lines : List Text
lines =
    [] ∷ bytes "a" ∷ bytes "ab" ∷ bytes "abc" ∷ bytes "abcd" ∷ bytes "abcde" ∷ bytes "abcdef" ∷ []

decoded : map decode lines ≡ map some events
unfolding run read_event record_event River.register find_worker River.start River.stop simulate
    text_eq River.enqueue
decoded = refl

pub hundreds-IsExact : IsExact hundreds
hundreds-IsExact n h = ap pos (omega arith)

All-IsStamped : All (IsStamped hundreds) ran.1.recorder.written
unfolding run record_event River.register find_worker River.start River.stop simulate text_eq
    River.enqueue
All-IsStamped =
    (λ e. cc e, (λ e. cc e, (λ e. cc e, (λ e. cc e, (λ e. cc e, (λ e. cc e, (λ e. cc e, tt)))))))

few : (ran.1.enqueued < 2 ^ 53) × (ran.1.completed < 2 ^ 53) × (ran.1.failed < 2 ^ 53)
unfolding run record_event River.register find_worker River.start River.stop simulate text_eq
    River.enqueue
few = (omega arith, omega arith, omega arith)

-- Another worker outlives the stop: its job is counted behind the last event, and not yet recorded.
abbrev late : Schedule setting
late = record schedule { outlasting = job_ends job (pos 3) (pos 18) ∷ [] }

abbrev ran_late : StopResult × Run setting
ran_late = run setting cfg late river (fresh setting (bytes "r"))

ran_late_well : ran_late ≡ (returned none, ran_late.1)
unfolding run record_event River.register find_worker River.start River.stop simulate text_eq
    River.enqueue
ran_late_well = refl

run_accounts_example :
    (ran_late.1.enqueued + refused setting ran_late.1 ≡ 2)
    × (logged setting kind_run_start ran_late.1 ≡ 1)
    × (logged setting kind_job_enqueued ran_late.1 ≡ ran_late.1.enqueued)
    × (logged setting kind_job_completed ran_late.1 + count_if has_succeeded ran_late.1.ending
        ≡ ran_late.1.completed)
    × (logged setting kind_job_failed ran_late.1 + count_if has_failed ran_late.1.ending
        ≡ ran_late.1.failed + refused setting ran_late.1)
run_accounts_example = run_accounts setting cfg late river (bytes "r") ran_late.1 ran_late_well

late_counts : (ran_late.1.completed ≡ 2) × (logged setting kind_job_completed ran_late.1 ≡ 1)
unfolding run record_event River.register find_worker River.start River.stop simulate text_eq
    River.enqueue count_if
late_counts = (refl, refl)

counts : (ran.1.enqueued ≡ 2) × (ran.1.completed ≡ 1) × (ran.1.failed ≡ 0)
unfolding run record_event River.register find_worker River.start River.stop simulate text_eq
    River.enqueue
counts = (refl, refl, refl)

accepted : (analyze_reader hundreds decode (bytes "r.jsonl") lines none).1 ≡ none
accepted =
    (run_report setting cfg schedule river (bytes "r") ran.1 decode (bytes "r.jsonl") lines ran_well
      (refl, refl, refl) decoded All-IsStamped hundreds-IsExact few.0 few.1 few.2).0

reader_counts_example :
    let s = (analyze_reader hundreds decode (bytes "r.jsonl") lines none).0 in
    (((count_if (enqueues hundreds (bytes "t")) events ≡ 0)
        × (lookup (bytes "t") s.per_tenant ≡ none))
      ⊎ ((ts : TenantStats hundreds) × (lookup (bytes "t") s.per_tenant ≡ some ts)
          × (ts.enqueued ≡ count_if (enqueues hundreds (bytes "t")) events)
          × (ts.completed
              ≡ count_if
                  (completes hundreds (bytes "t"))
                  (behind_first hundreds (enqueues hundreds (bytes "t")) events))))
    × (get_or_zero 0 (lookup transient s.errors) ≡ count_if (fails_as hundreds transient) events)
reader_counts_example =
    reader_counts hundreds decode (bytes "r.jsonl") lines events (bytes "t") transient decoded
      accepted

abbrev no_error : Outcome
no_error = none

accepted_iff_example : ((analyze_reader hundreds decode (bytes "r.jsonl") lines none).1 ≡ none) ↔ (
    (evs : List (Event hundreds)) × (map decode lines ≡ map some evs)
    × (no_error ≡ none)
    × (last_stamp hundreds kind_run_start evs (pos 0) ≢ pos 0)
    × (last_stamp hundreds kind_run_end evs (pos 0) ≢ pos 0))
accepted_iff_example = accepted_iff hundreds decode (bytes "r.jsonl") lines none
