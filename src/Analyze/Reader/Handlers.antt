-- ===== src/Analyze/Reader/Handlers.antt =====
-- The switch of `analyzeReader` on the kind of an event, one function per case.
use queue_benchmark.Prelude.{
  suc, ◌+◌, Bool, not, ◌&&◌, List, [], ◌∷◌, ◌++◌, Option, none, some, Text, text_eq, bytes, ℤ, pos,
  if◌then◌else◌,
}
use queue_benchmark.Prelude.Dict.{Dict, lookup, put, get_or_zero}
use queue_benchmark.Prelude.Int.{pos_part, neg_part, sub_ℕ, ltb_ℤ, eq_ℤ}
use queue_benchmark.Analyze.Float.{Float}
use queue_benchmark.Metrics.{
  Fields, Event, Time, kind_run_start, kind_run_end, kind_job_enqueued, kind_job_started,
  kind_job_completed, kind_job_failed, kind_resource_sample,
}
use queue_benchmark.Analyze.Reader.{
  Counts, Scan, as_int64, as_text, latency_ms, text_of, warmup_default,
}

module _ (fl : Float) where
  open fl use {F, add, div, of_int, to_int}

  unfoldable pub on_run_start : Event fl → Scan fl → Scan fl
  on_run_start ev st = record st {
    warmup_end = sub_ℕ (pos_part ev.timestamp + warmup_default) (neg_part ev.timestamp);
    summary = record st.summary {
      start_time = ev.timestamp;
      run_id = ev.run_id;
      library = get_or_zero st.summary.library (as_text fl (lookup (bytes "library") ev.fields));
      scenario = get_or_zero st.summary.scenario (as_text fl (lookup (bytes "scenario") ev.fields));
      seed_info = ev.fields;
    };
  }

  unfoldable pub on_run_end : Event fl → Scan fl → Scan fl
  unfolding as_int64
  on_run_end ev st = record st {
    summary = record st.summary {
      end_time = ev.timestamp;
      completed =
          get_or_zero st.summary.completed (as_int64 fl (lookup (bytes "completed") ev.fields));
      enqueued =
          get_or_zero st.summary.enqueued (as_int64 fl (lookup (bytes "enqueued") ev.fields));
      failed = get_or_zero st.summary.failed (as_int64 fl (lookup (bytes "failed") ev.fields));
    };
  }

  unfoldable pub count_enqueued : Option (Counts fl) → Counts fl
  count_enqueued none = record { enqueued = 1; completed = 0 }
  count_enqueued (some c) = record c { enqueued = suc c.enqueued }

  unfoldable pub on_enqueued : Event fl → Scan fl → Scan fl
  unfolding count_enqueued
  on_enqueued ev st =
      let job = text_of fl (bytes "job_id") ev.fields in
      let tenant = text_of fl (bytes "tenant_id") ev.fields in
      record st {
        enqueue_ts = put job ev.timestamp st.enqueue_ts;
        tenant_by_job = put job tenant st.tenant_by_job;
        per_tenant_counts =
            put tenant (count_enqueued (lookup tenant st.per_tenant_counts)) st.per_tenant_counts;
      }

  -- `!warmupEnd.IsZero() && ev.Timestamp.Before(warmupEnd)`.
  unfoldable pub in_warmup : Time → Time → Bool
  in_warmup warmup_end now = not (eq_ℤ warmup_end (pos 0)) && ltb_ℤ now warmup_end

  unfoldable pub add_tenant_pickup : F → Option Text → Dict (List F) → Dict (List F)
  add_tenant_pickup latency none d = d
  add_tenant_pickup latency (some tenant) d =
      put tenant (get_or_zero [] (lookup tenant d) ++ latency ∷ []) d

  unfoldable pub add_pickup : Text → Time → Option Time → Scan fl → Scan fl
  unfolding latency_ms add_tenant_pickup
  add_pickup job now none st = st
  add_pickup job now (some enq) st = record st {
    pickup_latencies = st.pickup_latencies ++ latency_ms fl now enq ∷ [];
    per_tenant_pickup =
        add_tenant_pickup (latency_ms fl now enq) (lookup job st.tenant_by_job)
          st.per_tenant_pickup;
  }

  unfoldable pub on_started : Event fl → Scan fl → Scan fl
  unfolding add_pickup in_warmup
  on_started ev st =
      let job = text_of fl (bytes "job_id") ev.fields in
      let st1 = record st { start_ts = put job ev.timestamp st.start_ts } in
      if in_warmup st.warmup_end ev.timestamp
      then st1
      else add_pickup job ev.timestamp (lookup job st.enqueue_ts) st1

  unfoldable pub count_completed : Text → Option (Counts fl) → Dict (Counts fl) → Dict (Counts fl)
  count_completed tenant none d = d
  count_completed tenant (some c) d = put tenant (record c { completed = suc c.completed }) d

  -- A sample, where the earlier event was seen.
  unfoldable pub add_sample : Time → Option Time → List F → List F
  unfolding latency_ms
  add_sample now none xs = xs
  add_sample now (some earlier) xs = xs ++ latency_ms fl now earlier ∷ []

  unfoldable pub on_completed : Event fl → Scan fl → Scan fl
  unfolding count_completed add_sample in_warmup
  on_completed ev st =
      let job = text_of fl (bytes "job_id") ev.fields in
      let tenant = text_of fl (bytes "tenant_id") ev.fields in
      let st1 = record st {
        per_tenant_counts =
            count_completed tenant (lookup tenant st.per_tenant_counts) st.per_tenant_counts;
      } in
      if in_warmup st.warmup_end ev.timestamp then st1 else record st1 {
        work_durations = add_sample ev.timestamp (lookup job st.start_ts) st.work_durations;
        e2e_latencies = add_sample ev.timestamp (lookup job st.enqueue_ts) st.e2e_latencies;
      }

  -- The class of a failure; without one it is unclassified.
  unfoldable pub failure_class : Fields fl → Text
  failure_class fields =
      let class = text_of fl (bytes "error_class") fields in
      if text_eq class [] then bytes "unclassified" else class

  unfoldable pub on_failed : Event fl → Scan fl → Scan fl
  unfolding failure_class
  on_failed ev st =
      let class = failure_class ev.fields in
      record st {
        summary = record st.summary {
          errors =
              put class (suc (get_or_zero 0 (lookup class st.summary.errors))) st.summary.errors;
        };
      }

  -- `if x > m { m = x }`, where there is an x.
  unfoldable pub raise : Option ℤ → ℤ → ℤ
  raise none m = m
  raise (some x) m = if ltb_ℤ m x then x else m

  unfoldable pub on_sample : Event fl → Scan fl → Scan fl
  unfolding as_int64 raise
  on_sample ev st = record st {
    summary = record st.summary {
      max_goroutines =
          raise (as_int64 fl (lookup (bytes "goroutines") ev.fields)) st.summary.max_goroutines;
      max_rss_bytes =
          raise (as_int64 fl (lookup (bytes "rss_bytes") ev.fields)) st.summary.max_rss_bytes;
    };
  }

  -- The switch on the kind of an event; an unknown kind is passed over.
  unfoldable pub on_event : Event fl → Scan fl → Scan fl
  unfolding on_run_start on_run_end on_enqueued on_started on_completed on_failed on_sample
  on_event ev st =
      if text_eq ev.kind kind_run_start
      then on_run_start ev st
      else if text_eq ev.kind kind_run_end
      then on_run_end ev st
      else if text_eq ev.kind kind_job_enqueued
      then on_enqueued ev st
      else if text_eq ev.kind kind_job_started
      then on_started ev st
      else if text_eq ev.kind kind_job_completed
      then on_completed ev st
      else if text_eq ev.kind kind_job_failed
      then on_failed ev st
      else if text_eq ev.kind kind_resource_sample
      then on_sample ev st
      else st
