-- ===== src/Runner/Whole.antt =====
-- A whole run: what is in the log and in the counters when `Run` returns no error.
use queue_benchmark.Prelude.{
  ℕ, ◌≡◌, refl, sym, ap, ◌∙◌, [], none, some, Text, text_eq, count_if, length, arith,
}
use queue_benchmark.Queue.{Outcome, wrap, start_harness}
use queue_benchmark.Queue.Contract.{StopResult, returned, panicked}
use queue_benchmark.Metrics.{
  Fields, Time, Recorder, record_event, write, kind_run_start, kind_run_end,
}
use queue_benchmark.Runner.{Setting, Run, note, Config, run_fields, with_defaults}
use queue_benchmark.Runner.Submission.{advance, advance_beside, settle}
use queue_benchmark.Runner.Lifecycle.{
  Schedule, end_run, end_fields, stop_run, drive, start_run, register_run, run, opening,
}
use queue_benchmark.Runner.Account.{IsAccounted, event_of, note-IsAccounted}
use queue_benchmark.Runner.Phases.{
  advance-IsAccounted, advance_beside-IsAccounted, advance_beside_kept, settle-IsAccounted,
  harness-IsAccounted,
}

module _ (w : Setting) where
  -- The run at the last event, and behind it.
  abbrev pub at_end : Schedule w → Run w → Run w
  at_end sch s = advance_beside w sch.closing (advance_beside w sch.loading s)

  unfoldable pub closed : Schedule w → Run w → Run w
  closed sch s = advance_beside w sch.outlasting (
      note w kind_run_end
        (end_fields w s.enqueued s.completed (advance_beside w sch.loading s).failed) sch.ended_at
        (at_end sch s))

  -- A run that has ended well, and the run behind its stop.
  pub record IsClosed (total : ℕ) (sch : Schedule w) (s : Run w) : Type 0 where
    pub before : Run w
    pub accounted : IsAccounted w total before
    pub submitted : (before.in_flight ≡ []) × (before.requests ≡ []) × (before.recording ≡ [])
    pub last : s ≡ closed sch before

  note-last :
      (kind : Text) (fields : Fields w.float) (now : Time) (s : Run w)
      → s.recorder.outcomes ≡ []
      → (record_event w.float kind fields now s.recorder).0 ≡ none
  unfolding record_event write
  note-last kind fields now s e = rw e refl

  at_end-IsAccounted :
      (total : ℕ) (sch : Schedule w) (s : Run w)
      → IsAccounted w total s
      → IsAccounted w total (at_end sch s)
  at_end-IsAccounted total sch s a =
      advance_beside-IsAccounted w total sch.closing _
        (advance_beside-IsAccounted w total sch.loading s a)

  end_run-closed :
      (total : ℕ) (sch : Schedule w) (s : Run w)
      → IsAccounted w total s
      → end_run w sch (returned none) s ≡ (returned none, closed sch s)
  unfolding end_run closed note
  end_run-closed total sch s a =
      rw
        (note-last kind_run_end
          (end_fields w s.enqueued s.completed (advance_beside w sch.loading s).failed) sch.ended_at
          (at_end sch s) (at_end-IsAccounted total sch s a).writes)
        refl

  -- The last event keeps the account.
  note_end-IsAccounted :
      (total enqueued completed failed : ℕ) (now : Time) (s : Run w)
      → IsAccounted w total s
      → IsAccounted w total (note w kind_run_end (end_fields w enqueued completed failed) now s)
  unfolding event_of text_eq
  note_end-IsAccounted total enqueued completed failed now s a =
      note-IsAccounted w total kind_run_end _ now s a.writes (omega (arith, a.begun))
        (omega (arith, a.enqueued)) (omega (arith, a.completed)) (omega (arith, a.failed))
        (omega (arith, a.requests))

  pub closed-IsAccounted :
      (total : ℕ) (sch : Schedule w) (s : Run w)
      → IsAccounted w total s
      → IsAccounted w total (closed sch s)
  unfolding closed
  closed-IsAccounted total sch s a = advance_beside-IsAccounted w total sch.outlasting _ (
      note_end-IsAccounted total s.enqueued s.completed (advance_beside w sch.loading s).failed
        sch.ended_at (at_end sch s) (at_end-IsAccounted total sch s a))

  pub closed_kept :
      (sch : Schedule w) (s : Run w)
      → let s' = closed sch s in
        (s'.in_flight ≡ s.in_flight) × (s'.requests ≡ s.requests) × (s'.recording ≡ s.recording)
  unfolding closed note
  closed_kept sch s =
      let (f, g, i) = advance_beside_kept w sch.loading s in
      let (f', g', i') = advance_beside_kept w sch.closing (advance_beside w sch.loading s) in
      let (f'', g'', i'') = advance_beside_kept w sch.outlasting (
        note w kind_run_end
          (end_fields w s.enqueued s.completed (advance_beside w sch.loading s).failed) sch.ended_at
          (at_end sch s)) in
      (f'' ∙ f' ∙ f, g'' ∙ g' ∙ g, i'' ∙ i' ∙ i)

  end_run-IsClosed :
      (total : ℕ) (sch : Schedule w) (r : StopResult) (s s' : Run w)
      → IsAccounted w total s
      → s.in_flight ≡ []
      → s.requests ≡ []
      → s.recording ≡ []
      → end_run w sch r s ≡ (returned none, s')
      → IsClosed total sch s'
  end_run-IsClosed total sch panicked s s' a f g i h =
      unfold end_run in absurd (cc (ap (λ p. p.0) h))
  end_run-IsClosed total sch (returned (some e)) s s' a f g i h =
      unfold end_run in absurd (cc (ap (λ p. p.0) h))
  end_run-IsClosed total sch (returned none) s s' a f g i h = record {
    before = s;
    accounted = a;
    submitted = (f, g, i);
    last = ap (λ p. p.1) (sym h ∙ end_run-closed total sch s a);
  }

  drive-IsClosed :
      (total workers : ℕ) (sch : Schedule w) (s s' : Run w)
      → IsAccounted w total s
      → drive w workers sch s ≡ (returned none, s')
      → IsClosed total sch s'
  unfolding drive stop_run
  drive-IsClosed total workers sch s s' a h =
      let (b, f, g, i) =
        settle-IsAccounted w total sch.settled_at _
          (advance-IsAccounted w total workers sch.submitting s a) in
      let settled = settle w sch.settled_at (advance w workers sch.submitting s) in
      let c = advance_beside-IsAccounted w total sch.draining settled b in
      let (f', g', i') = advance_beside_kept w sch.draining settled in
      let drained = advance_beside w sch.draining settled in
      let (r, state) = w.harness.shut_down drained.harness in
      let (f'', g'', i'') =
        advance_beside_kept w sch.stopping (record drained { harness = state }) in
      end_run-IsClosed total sch r _ s'
        (advance_beside-IsAccounted w total sch.stopping (record drained { harness = state })
          (harness-IsAccounted w total state drained c))
        (f'' ∙ f' ∙ f) (g'' ∙ g' ∙ g) (i'' ∙ i' ∙ i) h

  start_run-IsClosed :
      (total workers : ℕ) (sch : Schedule w) (o : Outcome) (s s' : Run w)
      → IsAccounted w total s
      → start_run w workers sch o s ≡ (returned none, s')
      → IsClosed total sch s'
  unfolding start_run
  start_run-IsClosed total workers sch (some e) s s' a h = absurd (cc (ap (λ p. p.0) h))
  start_run-IsClosed total workers sch none s s' a h = by_start (w.harness.start_up s.harness).0 h
    where
      started : Run w
      started = record s { harness = (w.harness.start_up s.harness).1 }

      by_start :
          (o : Outcome)
          → elim o [
            | some e ↦ (returned (some (wrap start_harness e)), started)
            | none ↦ drive w workers sch started
          ]
            ≡ (returned none, s')
          → IsClosed total sch s'
      by_start none h =
          drive-IsClosed total workers sch started s' (harness-IsAccounted w total _ s a) h
      by_start (some e) h = absurd (cc (ap (λ p. p.0) h))

  register_run-IsClosed :
      (total : ℕ) (cfg : Config w) (sch : Schedule w) (s s' : Run w)
      → IsAccounted w total s
      → register_run w cfg sch none s ≡ (returned none, s')
      → IsClosed total sch s'
  unfolding register_run
  register_run-IsClosed total cfg sch s s' a h =
      start_run-IsClosed total _ sch _ _ s' (harness-IsAccounted w total _ s a) h

  -- A recorder with an empty log whose writes all succeed.
  abbrev pub fresh : Text → Recorder w.float
  fresh run_id = record { run_id = run_id; written = []; outcomes = [] }

  pub run-IsClosed :
      (cfg : Config w) (sch : Schedule w) (state : w.harness.State) (run_id : Text) (s : Run w)
      → run w cfg sch state (fresh run_id) ≡ (returned none, s)
      → IsClosed (length sch.requests) sch s
  unfolding run record_event write count_if text_eq opening
  run-IsClosed cfg sch state run_id s h =
      register_run-IsClosed (length sch.requests) (with_defaults w cfg) sch opened s
        (record {
          writes = refl;
          begun = omega arith;
          enqueued = omega arith;
          completed = omega arith;
          failed = omega arith;
          requests = omega arith;
        })
        h
    where
      opened : Run w
      opened =
          opening w sch state
            (record_event w.float kind_run_start (run_fields w (with_defaults w cfg)) sch.started_at
              (fresh run_id)).1
