-- ===== src/Runner/Report.antt =====
-- A run and the analysis of its log.
use mathlib.Core.Path.{subst}
use queue_benchmark.Prelude.{
  ℕ, ◌+◌, ◌^◌, ◌<◌, ◌≡◌, ◌≢◌, ◌⊎◌, inl, inr, refl, sym, ap, ◌∙◌, List, [], ◌∷◌, ◌++◌, map, Option,
  none, some, Text, text_eq, pos, count_if, count_if-append_one, count_if-length, length, All,
  arith, Bool-cases,
}
use queue_benchmark.Prelude.Dict.{lookup}
use queue_benchmark.Queue.{Outcome}
use queue_benchmark.Queue.Contract.{returned}
use queue_benchmark.Analyze.Float.{Float}
use queue_benchmark.Metrics.{
  Event, Fields, Value, Time, string, float64, int64, int, int32, uint64, json_number, other,
  kind_run_start, kind_run_end, kind_job_enqueued, kind_job_completed, kind_job_failed,
}
use queue_benchmark.Analyze.Reader.{Scan, RunSummary, as_int64, empty_scan}
use queue_benchmark.Analyze.Reader.Handlers.{on_event, on_run_end}
use queue_benchmark.Analyze.Reader.Loop.{analyze_reader}
use queue_benchmark.Analyze.Reader.Totals.{run_events, analyze-run_events, finish_kept}
use queue_benchmark.Analyze.Reader.Acceptance.{accepted_iff, last_stamp}
use queue_benchmark.Runner.{Setting, Run, Config}
use queue_benchmark.Runner.Lifecycle.{Schedule, run, end_fields}
use queue_benchmark.Runner.Submission.{advance_beside}
use queue_benchmark.Runner.Account.{
  IsAccounted, event_of, of_kind, refusal, refused, logged, has_succeeded, has_failed, note-written,
}
use queue_benchmark.Runner.Whole.{closed, closed-IsAccounted, closed_kept, run-IsClosed, fresh}

module _ (fl : Float) where
  -- How encoding/json decodes what it has encoded into an `interface{}`: every number is a float64.
  unfoldable pub read_value : Value fl → Value fl
  read_value (string t) = string t
  read_value (float64 x) = float64 x
  read_value (int64 n) = float64 (fl.of_int n)
  read_value (int n) = float64 (fl.of_int n)
  read_value (int32 n) = float64 (fl.of_int n)
  read_value (uint64 n) = float64 (fl.of_int n)
  read_value (json_number (some n)) = float64 (fl.of_int n)
  read_value (json_number none) = other
  read_value other = other

  unfoldable pub read_fields : Fields fl → Fields fl
  unfolding read_value
  read_fields [] = []
  read_fields ((k, v) ∷ rest) = (k, read_value v) ∷ read_fields rest

  unfoldable pub read_event : Event fl → Event fl
  unfolding read_fields
  read_event ev = record ev { fields = read_fields ev.fields }

  -- A float64 holds the naturals below 2 ^ 53.
  abbrev pub IsExact : Type 0
  IsExact = (n : ℕ) → n < 2 ^ 53 → fl.to_int (fl.of_int (pos n)) ≡ pos n

  abbrev pub IsStamped : Event fl → Type 0
  IsStamped ev = ev.timestamp ≢ pos 0

  last_stamp-IsStamped :
      (k : Text) (evs : List (Event fl)) (t : Time)
      → All IsStamped evs
      → (t ≢ pos 0) ⊎ (0 < count_if (λ (ev : Event fl). text_eq ev.kind k) evs)
      → last_stamp fl k (map read_event evs) t ≢ pos 0
  unfolding last_stamp count_if read_event
  last_stamp-IsStamped k [] t a (inl h) = h
  last_stamp-IsStamped k [] t a (inr h) = absurd (omega (arith, h))
  last_stamp-IsStamped k (ev ∷ evs) t a h = elim (Bool-cases (text_eq ev.kind k)) [
    | inl e ↦ rw e (last_stamp-IsStamped k evs ev.timestamp a.1 (inl a.0))
    | inr e ↦ rw e (
        last_stamp-IsStamped k evs t a.1
          (elim h [ inl z ↦ inl z | inr z ↦ inr (ground (arith, e, z)) ]))
  ]

  run_events-append_one :
      (evs : List (Event fl)) (ev : Event fl) (st : Scan fl)
      → run_events fl (evs ++ ev ∷ []) st ≡ on_event fl ev (run_events fl evs st)
  unfolding run_events
  run_events-append_one [] ev st = refl
  run_events-append_one (e ∷ evs) ev st = run_events-append_one evs ev (on_event fl e st)

  map-append_one :
      {A B : Type 0} (f : A → B) (xs : List A) (x : A) → map f (xs ++ x ∷ []) ≡ map f xs ++ f x ∷ []
  map-append_one f [] x = refl
  map-append_one f (y ∷ xs) x = ap (λ ys. f y ∷ ys) (map-append_one f xs x)

module _ (w : Setting) where
  -- What the reader makes of the last event of a run.
  end-counts :
      (now : Time) (s : Run w) (st : Scan w.float)
      → IsExact w.float
      → s.enqueued < 2 ^ 53
      → s.completed < 2 ^ 53
      → s.failed < 2 ^ 53
      → let t =
          (on_event w.float
            (read_event w.float
              (event_of w kind_run_end (end_fields w s.enqueued s.completed s.failed) now s))
            st).summary in
        (t.enqueued ≡ pos s.enqueued) × (t.completed ≡ pos s.completed) × (t.failed ≡ pos s.failed)
  unfolding on_event on_run_end as_int64 lookup text_eq read_event event_of
  end-counts now s st exact a b c = (exact s.enqueued a, exact s.completed b, exact s.failed c)

  -- No step of a goroutine follows the load of the counters.
  abbrev pub IsQuiet : Schedule w → Type 0
  IsQuiet sch = (sch.loading ≡ []) × (sch.closing ≡ []) × (sch.outlasting ≡ [])

  -- A run with its last event.
  unfoldable closed_now : Time → Run w → Run w
  closed_now now s = record s {
    recorder = record s.recorder {
      written =
          s.recorder.written
          ++ event_of w kind_run_end (end_fields w s.enqueued s.completed s.failed) now s ∷ [];
      outcomes = [];
    };
  }

  closed-closed_now :
      (sch : Schedule w) (s : Run w)
      → IsQuiet sch
      → s.recorder.outcomes ≡ []
      → closed w sch s ≡ closed_now sch.ended_at s
  unfolding closed closed_now advance_beside
  closed-closed_now sch s (l, c, o) e =
      rw (l, c, o)
        (note-written w kind_run_end (end_fields w s.enqueued s.completed s.failed) sch.ended_at s
          e)

  -- Of a run whose writes all succeed and that returns no error: each request was enqueued or is in
  -- the log as refused; the log has one start and as many jobs enqueued as the counter says; and the
  -- counters of completed and of failed jobs are the numbers of their events in the log, less the
  -- refused requests, and of the jobs that are still between their counter and their event, as a
  -- worker can be that outlives the stop.
  pub run_accounts :
      (cfg : Config w) (sch : Schedule w) (state : w.harness.State) (run_id : Text) (s : Run w)
      → run w cfg sch state (fresh w run_id) ≡ (returned none, s)
      → (s.enqueued + refused w s ≡ length sch.requests)
        × (logged w kind_run_start s ≡ 1)
        × (logged w kind_job_enqueued s ≡ s.enqueued)
        × (logged w kind_job_completed s + count_if has_succeeded s.ending ≡ s.completed)
        × (logged w kind_job_failed s + count_if has_failed s.ending ≡ s.failed + refused w s)
  run_accounts cfg sch state run_id s h =
      let c = run-IsClosed w cfg sch state run_id s h in
      let a =
        subst (IsAccounted w (length sch.requests)) (sym c.last)
          (closed-IsAccounted w (length sch.requests) sch c.before c.accounted) in
      let (f, g, i) = closed_kept w sch c.before in
      let no_flight = ap (λ (r : Run w). r.in_flight) c.last ∙ f ∙ c.submitted.0 in
      let no_request = ap (λ (r : Run w). r.requests) c.last ∙ g ∙ c.submitted.1 in
      let no_event = ap (λ (r : Run w). r.recording) c.last ∙ i ∙ c.submitted.2 in
      (
        omega (arith, a.requests, ap length no_flight, ap length no_request),
        a.begun,
        omega (arith, a.enqueued, ap length no_event),
        a.completed,
        a.failed,
      )

  -- The log of a run that is closed, once it is read back.
  abbrev events_of : Run w → List (Event w.float)
  events_of s = map (read_event w.float) s.recorder.written

  abbrev Reported : RunSummary w.float × Outcome → (enqueued completed failed : ℕ) → Type 0
  Reported r enqueued completed failed =
      (r.1 ≡ none)
      × (r.0.enqueued ≡ pos enqueued)
      × (r.0.completed ≡ pos completed)
      × (r.0.failed ≡ pos failed)

  abbrev ReadsBack :
      (decode : Text → Option (Event w.float)) (filename : Text) (lines : List Text)
      → Run w
      → Type 0
  ReadsBack decode filename lines s =
      map decode lines ≡ map some (events_of s)
      → All (IsStamped w.float) s.recorder.written
      → s.enqueued < 2 ^ 53
      → s.completed < 2 ^ 53
      → s.failed < 2 ^ 53
      → Reported (analyze_reader w.float decode filename lines none) s.enqueued s.completed s.failed

  report-closed :
      (total : ℕ) (now : Time) (s : Run w) (decode : Text → Option (Event w.float))
      (filename : Text) (lines : List Text)
      → IsExact w.float
      → IsAccounted w total s
      → map decode lines ≡ map some (events_of (closed_now now s))
      → All (IsStamped w.float) (closed_now now s).recorder.written
      → s.enqueued < 2 ^ 53
      → s.completed < 2 ^ 53
      → s.failed < 2 ^ 53
      → Reported (analyze_reader w.float decode filename lines none) s.enqueued s.completed s.failed
  report-closed total now s decode filename lines exact acc d stamps a b c =
      let evs = events_of (closed_now now s) in
      let st = run_events w.float evs (empty_scan w.float) in
      let accepted =
        (accepted_iff w.float decode filename lines none).1 (evs, d, refl, begins, ends) in
      let read = analyze-run_events w.float decode filename lines evs none d in
      let (tenants, errors, e, f, g) = finish_kept w.float st (rw read at accepted) in
      let (x, y, z) =
        end-counts now s (run_events w.float (events_of s) (empty_scan w.float)) exact a b c in
      (
        accepted,
        rw read e ∙ ap (λ (t : Scan w.float). t.summary.enqueued) last ∙ x,
        rw read f ∙ ap (λ (t : Scan w.float). t.summary.completed) last ∙ y,
        rw read g ∙ ap (λ (t : Scan w.float). t.summary.failed) last ∙ z,
      )
    where
      ev : Event w.float
      ev = event_of w kind_run_end (end_fields w s.enqueued s.completed s.failed) now s

      begins : last_stamp w.float kind_run_start (events_of (closed_now now s)) (pos 0) ≢ pos 0
      begins =
          last_stamp-IsStamped w.float kind_run_start (closed_now now s).recorder.written (pos 0)
            stamps
            (inr (
              unfold closed_now text_eq event_of in
              omega (
                arith,
                acc.begun,
                count_if-append_one (of_kind w kind_run_start) s.recorder.written ev,
              )))

      ends : last_stamp w.float kind_run_end (events_of (closed_now now s)) (pos 0) ≢ pos 0
      ends =
          last_stamp-IsStamped w.float kind_run_end (closed_now now s).recorder.written (pos 0)
            stamps
            (inr (
              unfold closed_now text_eq event_of in
              omega (arith, count_if-append_one (of_kind w kind_run_end) s.recorder.written ev)))

      last :
          run_events w.float (events_of (closed_now now s)) (empty_scan w.float)
          ≡ on_event w.float
              (read_event w.float ev)
              (run_events w.float (events_of s) (empty_scan w.float))
      last =
          unfold closed_now in
          ap (λ xs. run_events w.float xs (empty_scan w.float))
            (map-append_one w.float (read_event w.float) s.recorder.written ev)
          ∙ run_events-append_one w.float (events_of s) (read_event w.float ev) (empty_scan w.float)

  -- A run into a new log, all of whose writes succeed and that returns no error, is analyzed without
  -- an error, and the summary's three counts are the run's own, when no goroutine takes a step behind
  -- the load of the counters, the file is read back as
  -- encoding/json has written it, no reading of the clock is the zero time, and the counts are below
  -- 2 ^ 53, up to which a float64 is exact.
  pub run_report :
      (cfg : Config w) (sch : Schedule w) (state : w.harness.State) (run_id : Text) (s : Run w)
      (decode : Text → Option (Event w.float)) (filename : Text) (lines : List Text)
      → run w cfg sch state (fresh w run_id) ≡ (returned none, s)
      → IsQuiet sch
      → map decode lines ≡ map some (map (read_event w.float) s.recorder.written)
      → All (IsStamped w.float) s.recorder.written
      → IsExact w.float
      → s.enqueued < 2 ^ 53
      → s.completed < 2 ^ 53
      → s.failed < 2 ^ 53
      → ((analyze_reader w.float decode filename lines none).1 ≡ none)
        × ((analyze_reader w.float decode filename lines none).0.enqueued ≡ pos s.enqueued)
        × ((analyze_reader w.float decode filename lines none).0.completed ≡ pos s.completed)
        × ((analyze_reader w.float decode filename lines none).0.failed ≡ pos s.failed)
  run_report cfg sch state run_id s decode filename lines h quiet d stamps exact a b c =
      let k = run-IsClosed w cfg sch state run_id s h in
      let last = k.last ∙ closed-closed_now sch k.before quiet k.accounted.writes in
      subst (ReadsBack decode filename lines) (sym last)
        (unfold closed_now in
          λ d stamps a b c.
            report-closed (length sch.requests) sch.ended_at k.before decode filename lines exact
              k.accounted d stamps a b c)
        d stamps a b c

  -- What the analysis of a log says of the events in it.
  abbrev pub Tells : RunSummary w.float × Outcome → List (Event w.float) → Type 0
  Tells r log =
      (r.1 ≡ none)
      × (r.0.enqueued ≡ pos (count_if (of_kind w kind_job_enqueued) log))
      × (r.0.completed ≡ pos (count_if (of_kind w kind_job_completed) log))
      × ((n : ℕ) × (r.0.failed ≡ pos n)
          × (n + count_if (refusal w) log ≡ count_if (of_kind w kind_job_failed) log))

  pub log_report :
      (cfg : Config w) (sch : Schedule w) (state : w.harness.State) (run_id : Text) (s : Run w)
      (decode : Text → Option (Event w.float)) (filename : Text) (lines : List Text)
      → run w cfg sch state (fresh w run_id) ≡ (returned none, s)
      → IsQuiet sch
      → s.ending ≡ []
      → map decode lines ≡ map some (map (read_event w.float) s.recorder.written)
      → All (IsStamped w.float) s.recorder.written
      → IsExact w.float
      → length s.recorder.written < 2 ^ 53
      → Tells (analyze_reader w.float decode filename lines none) s.recorder.written
  log_report cfg sch state run_id s decode filename lines h quiet left d stamps exact short =
      let (all, begun, e, c, f) = run_accounts cfg sch state run_id s h in
      let log = s.recorder.written in
      let c' : logged w kind_job_completed s ≡ s.completed =
        unfold count_if in omega (arith, c, ap (count_if has_succeeded) left) in
      let f' : s.failed + refused w s ≡ logged w kind_job_failed s =
        unfold count_if in omega (arith, f, ap (count_if has_failed) left) in
      let (accepted, a, b, g) =
        run_report cfg sch state run_id s decode filename lines h quiet d stamps exact
          (omega (arith, e, short, count_if-length (of_kind w kind_job_enqueued) log))
          (omega (arith, c', short, count_if-length (of_kind w kind_job_completed) log))
          (omega (arith, f', short, count_if-length (of_kind w kind_job_failed) log)) in
      (accepted, a ∙ ap pos (sym e), b ∙ ap pos (sym c'), (s.failed, g, f'))
