-- ===== src/Analyze/Reader.antt =====
-- `analyzeReader` of internal/analyze/analyze.go: its summary, its local variables, and what it reads of
-- an event (`asInt64`).
pub mod Handlers
pub mod Loop
pub mod Tallies
pub mod Totals
pub mod Acceptance
use queue_benchmark.Prelude.{
  ℕ, suc, ◌+◌, ◌*◌, ◌/◌, ◌%◌, ◌≡◌, Bool, true, false, not, ◌&&◌, List, [], ◌∷◌, ◌++◌, map, Option,
  none, some, Text, text_eq, bytes, ℤ, pos, negsuc, if◌then◌else◌, leb,
}
use queue_benchmark.Prelude.Dict.{Dict, lookup, put, get_or_zero}
use queue_benchmark.Prelude.Int.{pos_part, neg_part, sub_ℕ, ltb_ℤ, leb_ℤ, eq_ℤ, two_63, second}
use queue_benchmark.Queue.{Error, Outcome, wrap, parse_file, bad_event, event_missing}
use queue_benchmark.Analyze.Float.{Float}
use queue_benchmark.Analyze.Stats.{LatencyStats, summarize, nought}
use queue_benchmark.Metrics.{
  Value, Fields, Event, Time, string, float64, int64, int, json_number, other, kind_run_start,
  kind_run_end, kind_job_enqueued, kind_job_started, kind_job_completed, kind_job_failed,
  kind_resource_sample,
}

-- `a.Sub(b)`: the difference, held within the int64 range.
unfoldable pub time_sub : Time → Time → ℤ
time_sub a b =
    let d = sub_ℕ (pos_part a + neg_part b) (neg_part a + pos_part b) in
    if leb_ℤ (pos two_63) d
    then sub_ℕ two_63 1
    else if ltb_ℤ d (sub_ℕ 0 two_63)
    then sub_ℕ 0 two_63
    else d

-- `d.Microseconds()`: towards zero.
unfoldable pub microseconds : ℤ → ℤ
microseconds (pos n) = pos (n / 1000)
microseconds (negsuc n) = sub_ℕ 0 ((n + 1) / 1000)

-- WarmupDefault, two seconds.
abbrev pub warmup_default : ℕ
warmup_default = 2 * second

module _ (fl : Float) where
  open fl use {F, add, div, of_int, to_int}

  pub record TenantStats : Type 0 where
    pub enqueued : ℕ
    pub completed : ℕ
    pub pickup_latency : LatencyStats fl

  -- Counts of events are natural numbers; a log never has 2 ^ 63 of them.
  pub record RunSummary : Type 0 where
    pub run_id : Text
    pub library : Text
    pub scenario : Text
    pub seed_info : Fields fl
    pub start_time : Time
    pub end_time : Time
    pub duration : ℤ
    pub enqueued : ℤ
    pub completed : ℤ
    pub failed : ℤ
    pub throughput_cps : F
    pub pickup_latency : LatencyStats fl
    pub work_duration : LatencyStats fl
    pub e2e_latency : LatencyStats fl
    pub errors : Dict ℕ
    pub per_tenant : Dict TenantStats
    pub max_goroutines : ℤ
    pub max_rss_bytes : ℤ

  unfoldable pub as_int64 : Option (Value fl) → Option ℤ
  as_int64 (some (float64 x)) = some (to_int x)
  as_int64 (some (int64 n)) = some n
  as_int64 (some (int n)) = some n
  as_int64 (some (json_number r)) = r
  as_int64 _ = none

  -- `ev.Fields[…].(string)`.
  unfoldable pub as_text : Option (Value fl) → Option Text
  as_text (some (string t)) = some t
  as_text _ = none

  abbrev pub text_of : Text → Fields fl → Text
  text_of name fields = get_or_zero [] (as_text (lookup name fields))

  -- The counts of a tenant, before its latencies are summarized.
  pub record Counts : Type 0 where
    pub enqueued : ℕ
    pub completed : ℕ

  -- The local variables of the loop.
  pub record Scan : Type 0 where
    pub summary : RunSummary
    pub enqueue_ts : Dict Time
    pub start_ts : Dict Time
    pub tenant_by_job : Dict Text
    pub pickup_latencies : List F
    pub work_durations : List F
    pub e2e_latencies : List F
    pub per_tenant_pickup : Dict (List F)
    pub per_tenant_counts : Dict Counts
    pub warmup_end : Time

  abbrev pub no_latency : LatencyStats fl
  no_latency = record {
    count = 0;
    minimum = nought fl;
    p50 = nought fl;
    p95 = nought fl;
    p99 = nought fl;
    maximum = nought fl;
    mean = nought fl;
  }

  unfoldable pub empty_summary : RunSummary
  empty_summary = record {
    run_id = [];
    library = [];
    scenario = [];
    seed_info = [];
    start_time = pos 0;
    end_time = pos 0;
    duration = pos 0;
    enqueued = pos 0;
    completed = pos 0;
    failed = pos 0;
    throughput_cps = nought fl;
    pickup_latency = no_latency;
    work_duration = no_latency;
    e2e_latency = no_latency;
    errors = [];
    per_tenant = [];
    max_goroutines = pos 0;
    max_rss_bytes = pos 0;
  }

  unfoldable pub empty_scan : Scan
  unfolding empty_summary
  empty_scan = record {
    summary = empty_summary;
    enqueue_ts = [];
    start_ts = [];
    tenant_by_job = [];
    pickup_latencies = [];
    work_durations = [];
    e2e_latencies = [];
    per_tenant_pickup = [];
    per_tenant_counts = [];
    warmup_end = pos 0;
  }

  -- `float64(a.Sub(b).Microseconds()) / 1000.0`.
  unfoldable pub latency_ms : Time → Time → F
  unfolding time_sub microseconds
  latency_ms a b = div (of_int (microseconds (time_sub a b))) (of_int (pos 1000))
