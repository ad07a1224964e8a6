-- ===== src/Analyze/Reader/Loop.antt =====
-- The loop of `analyzeReader` over the lines of a log, and what follows it. The lines come from the
-- scanner, and encoding/json decodes them.
use queue_benchmark.Prelude.{
  ◌+◌, ◌/◌, ◌%◌, ◌&&◌, List, [], ◌∷◌, map, Option, none, some, Text, ℤ, pos, negsuc, if◌then◌else◌,
}
use queue_benchmark.Prelude.Dict.{Dict, lookup, get_or_zero}
use queue_benchmark.Prelude.Int.{sub_ℕ, ltb_ℤ, eq_ℤ, second}
use queue_benchmark.Queue.{Outcome, wrap, parse_file, bad_event, event_missing}
use queue_benchmark.Analyze.Float.{Float}
use queue_benchmark.Analyze.Stats.{summarize, nought}
use queue_benchmark.Metrics.{Event}
use queue_benchmark.Analyze.Reader.{Counts, RunSummary, Scan, TenantStats, empty_scan, time_sub}
use queue_benchmark.Analyze.Reader.Handlers.{on_event}

module _ (fl : Float) where
  open fl use {F, add, div, of_int, to_int}

  -- The loop over the lines; one that does not decode ends it.
  unfoldable pub read_lines :
      (decode : Text → Option (Event fl)) (filename : Text)
      → List Text
      → Scan fl
      → Scan fl × Outcome
  unfolding on_event
  read_lines decode filename [] st = (st, none)
  read_lines decode filename (line ∷ lines) st = elim (decode line) [
    | none ↦ (st, some (wrap (parse_file filename) bad_event))
    | some ev ↦ read_lines decode filename lines (on_event fl ev st)
  ]

  -- Whole seconds and a rest, in nanoseconds.
  abbrev split_seconds : ℤ → ℤ → F
  split_seconds whole rest = add (of_int whole) (div (of_int rest) (of_int (pos second)))

  -- `d.Seconds()`.
  unfoldable pub seconds : ℤ → F
  seconds (pos n) = split_seconds (pos (n / second)) (pos (n % second))
  seconds (negsuc n) = split_seconds (sub_ℕ 0 ((n + 1) / second)) (sub_ℕ 0 ((n + 1) % second))

  unfoldable pub throughput : ℤ → ℤ → F
  unfolding seconds
  throughput duration completed =
      if ltb_ℤ (pos 0) duration && ltb_ℤ (pos 0) completed
      then div (of_int completed) (seconds duration)
      else nought fl

  -- The loop that fills `PerTenant`.
  unfoldable pub tenant_stats : Dict (List F) → Text × Counts fl → Text × TenantStats fl
  tenant_stats pickups (tenant, c) = (
    tenant,
    record {
      enqueued = c.enqueued;
      completed = c.completed;
      pickup_latency = summarize fl (get_or_zero [] (lookup tenant pickups));
    },
  )

  -- What follows the loop.
  unfoldable pub finish : (scan_error : Outcome) → Scan fl → RunSummary fl × Outcome
  unfolding throughput time_sub tenant_stats
  finish (some e) st = (st.summary, some e)
  finish none st =
      let s = st.summary in
      if eq_ℤ s.start_time (pos 0)
      then (s, some event_missing)
      else if eq_ℤ s.end_time (pos 0)
      then (s, some event_missing)
      else let duration = time_sub s.end_time s.start_time in
        (
          record s {
            duration = duration;
            throughput_cps = throughput duration s.completed;
            pickup_latency = summarize fl st.pickup_latencies;
            work_duration = summarize fl st.work_durations;
            e2e_latency = summarize fl st.e2e_latencies;
            per_tenant = map (tenant_stats st.per_tenant_pickup) st.per_tenant_counts;
          },
          none,
        )

  unfoldable pub end_read : (scan_error : Outcome) → Scan fl × Outcome → RunSummary fl × Outcome
  unfolding finish
  end_read scan_error (st, some e) = (st.summary, some e)
  end_read scan_error (st, none) = finish scan_error st

  -- `analyzeReader`: `scan_error` is what the scanner reports behind its last line.
  unfoldable pub analyze_reader :
      (decode : Text → Option (Event fl)) (filename : Text) (lines : List Text)
      (scan_error : Outcome)
      → RunSummary fl × Outcome
  unfolding read_lines end_read empty_scan
  analyze_reader decode filename lines scan_error =
      end_read scan_error (read_lines decode filename lines (empty_scan fl))
