-- ===== src/Runner/Lifecycle.antt =====
-- `Run` of internal/runner/runner.go, from the registration to the end.
use queue_benchmark.Prelude.{ℕ, List, [], ◌∷◌, none, some, bytes, pos}
use queue_benchmark.Prelude.Int.{pos_part}
use queue_benchmark.Queue.{
  Kind, EnqueueRequest, Outcome, wrap, record_start, start_harness, stop_harness, record_end, Site,
}
use queue_benchmark.Queue.Contract.{StopResult, returned, panicked}
use queue_benchmark.Metrics.{
  Fields, Time, Recorder, record_event, string, int64, kind_run_start, kind_run_end,
}
use queue_benchmark.Runner.{Setting, Config, Run, kinds_of, note, run_fields, with_defaults, work}
use queue_benchmark.Runner.Submission.{Background, Happening, advance, advance_beside, settle}

module _ (w : Setting) where
  -- One `Register` for each kind.
  unfoldable pub register_all : List Kind → w.harness.State → Outcome × w.harness.State
  unfolding work
  register_all [] h = (none, h)
  register_all (kind ∷ kinds) h =
      let (o, h') = w.harness.register_worker kind (work w) h in
      let rest = register_all kinds h' in
      elim o [ some e ↦ (some (wrap (Site.register_worker kind) e), h') | none ↦ rest ]

  -- What the goroutines do, in order, and the readings of the clock. `range` puts the kinds into the
  -- order in which the map is ranged over; the requests are those that the generator sends. A stop can
  -- time out and leave workers behind: `loading` happens between the loads of the counters of
  -- completed and of failed jobs, `closing` between these and the last event, `outlasting` behind it.
  pub record Schedule : Type 0 where
    pub started_at : Time
    pub range : List Kind → List Kind
    pub requests : List EnqueueRequest
    pub submitting : List (Happening w)
    pub settled_at : Time
    pub draining : List (Background w)
    pub stopping : List (Background w)
    pub loading : List (Background w)
    pub closing : List (Background w)
    pub ended_at : Time
    pub outlasting : List (Background w)

  abbrev pub end_fields : (enqueued completed failed : ℕ) → Fields w.float
  end_fields enqueued completed failed =
      (bytes "enqueued", int64 (pos enqueued))
      ∷ (bytes "completed", int64 (pos completed))
      ∷ (bytes "failed", int64 (pos failed))
      ∷ []

  abbrev pub wrap_outcome : Site → Outcome → Outcome
  wrap_outcome site none = none
  wrap_outcome site (some e) = some (wrap site e)

  -- What follows the call of `Stop`.
  unfoldable pub end_run : Schedule → StopResult → Run w → StopResult × Run w
  unfolding note advance_beside
  end_run sch panicked s = (panicked, s)
  end_run sch (returned (some e)) s = (
    returned (some (wrap stop_harness e)),
    advance_beside w sch.outlasting
        (note w kind_run_end ((bytes "stop_error", string (w.error_text e)) ∷ []) sch.ended_at s),
  )
  end_run sch (returned none) s =
      let loaded = advance_beside w sch.loading s in
      let last = advance_beside w sch.closing loaded in
      let (o, r) =
        record_event w.float kind_run_end (end_fields s.enqueued s.completed loaded.failed)
          sch.ended_at last.recorder in
      (
        returned (wrap_outcome record_end o),
        advance_beside w sch.outlasting (record last { recorder = r }),
      )

  unfoldable pub stop_run : Schedule → Run w → StopResult × Run w
  unfolding end_run advance_beside
  stop_run sch s =
      let (r, state) = w.harness.shut_down s.harness in
      end_run sch r (advance_beside w sch.stopping (record s { harness = state }))

  -- The part of `Run` behind the start of the harness.
  unfoldable pub drive : (workers : ℕ) → Schedule → Run w → StopResult × Run w
  unfolding advance settle advance_beside stop_run
  drive workers sch s =
      stop_run sch (
        advance_beside w sch.draining
          (settle w sch.settled_at (advance w workers sch.submitting s)))

  unfoldable pub start_run : (workers : ℕ) → Schedule → Outcome → Run w → StopResult × Run w
  unfolding drive
  start_run workers sch (some e) s = (returned (some e), s)
  start_run workers sch none s =
      let (o, state) = w.harness.start_up s.harness in
      let started = record s { harness = state } in
      let driven = drive workers sch started in
      elim o [ some e ↦ (returned (some (wrap start_harness e)), started) | none ↦ driven ]

  unfoldable pub register_run : Config w → Schedule → Outcome → Run w → StopResult × Run w
  unfolding register_all kinds_of start_run
  register_run cfg sch (some e) s = (returned (some (wrap record_start e)), s)
  register_run cfg sch none s =
      let (o, state) = register_all (sch.range (kinds_of w cfg.spec.job_mix)) s.harness in
      start_run (pos_part cfg.enqueue_concurrency) sch o (record s { harness = state })

  -- Nothing is counted yet.
  unfoldable pub opening : Schedule → w.harness.State → Recorder w.float → Run w
  opening sch state recorder = record {
    harness = state;
    recorder = recorder;
    enqueued = 0;
    completed = 0;
    failed = 0;
    requests = sch.requests;
    in_flight = [];
    recording = [];
    ending = [];
  }

  -- `Run`: what it returns, and what is left.
  unfoldable pub run : Config w → Schedule → w.harness.State → Recorder w.float → StopResult × Run w
  unfolding with_defaults run_fields register_run opening
  run given sch state recorder =
      let cfg = with_defaults w given in
      let (o, r) = record_event w.float kind_run_start (run_fields w cfg) sch.started_at recorder in
      register_run cfg sch o (opening sch state r)
