-- ===== src/Analyze/Reader/Acceptance.antt =====
-- Which logs the reader accepts.
use queue_benchmark.Prelude.{
  ◌≡◌, refl, sym, ap, ◌∙◌, ◌≢◌, ◌↔◌, inl, inr, true, false, List, [], ◌∷◌, map, Option, none, some,
  Text, text_eq, ℤ, pos, if◌then◌else◌, Bool-cases, Option-cases, arith,
}
use queue_benchmark.Prelude.Int.{eq_ℤ, eq_of_parts}
use queue_benchmark.Queue.{Outcome}
use queue_benchmark.Analyze.Float.{Float}
use queue_benchmark.Metrics.{
  Event, Time, kind_run_start, kind_run_end, kind_job_enqueued, kind_job_started,
  kind_job_completed, kind_job_failed, kind_resource_sample,
}
use queue_benchmark.Analyze.Reader.{Scan, RunSummary, empty_scan}
use queue_benchmark.Analyze.Reader.Handlers.{
  on_event, on_run_start, on_run_end, on_enqueued, on_failed, on_sample,
}
use queue_benchmark.Analyze.Reader.Loop.{read_lines, finish, end_read, analyze_reader}
use queue_benchmark.Analyze.Reader.Tallies.{
  other_text, Handled, run_began, run_ended, enqueued, started, completed, failed, sampled, passed,
  handled, summary-on_started, summary-on_completed,
}
use queue_benchmark.Analyze.Reader.Totals.{run_events, analyze-run_events}

module _ (fl : Float) where
  -- The time of the last event of a kind, or an earlier one.
  unfoldable pub last_stamp : Text → List (Event fl) → Time → Time
  last_stamp k [] t = t
  last_stamp k (ev ∷ evs) t =
      let later = last_stamp k evs ev.timestamp in
      if text_eq ev.kind k then later else last_stamp k evs t

  stamp : Text → Event fl → Time → Time
  stamp k ev t = if text_eq ev.kind k then ev.timestamp else t

  stamp-other :
      (ev : Event fl) (k k' : Text) (t : Time)
      → text_eq k k' ≡ false
      → text_eq ev.kind k ≡ true
      → t ≡ stamp k' ev t
  unfolding stamp
  stamp-other ev k k' t n e = rw (other_text ev.kind k k' n e) refl

  start-handled :
      (ev : Event fl) (st st' : Scan fl)
      → Handled fl ev st st'
      → st'.summary.start_time ≡ stamp kind_run_start ev st.summary.start_time
  unfolding text_eq
  start-handled ev st _ (run_began e) = unfold on_run_start stamp in rw e refl
  start-handled ev st _ (run_ended e) =
      unfold on_run_end in stamp-other ev kind_run_end kind_run_start _ refl e
  start-handled ev st _ (enqueued e) =
      unfold on_enqueued in stamp-other ev kind_job_enqueued kind_run_start _ refl e
  start-handled ev st _ (started e) =
      ap (λ (s : RunSummary fl). s.start_time) (summary-on_started fl ev st)
      ∙ stamp-other ev kind_job_started kind_run_start _ refl e
  start-handled ev st _ (completed e) =
      ap (λ (s : RunSummary fl). s.start_time) (summary-on_completed fl ev st)
      ∙ stamp-other ev kind_job_completed kind_run_start _ refl e
  start-handled ev st _ (failed e) =
      unfold on_failed in stamp-other ev kind_job_failed kind_run_start _ refl e
  start-handled ev st _ (sampled e) =
      unfold on_sample in stamp-other ev kind_resource_sample kind_run_start _ refl e
  start-handled ev st _ (passed m n a b c) = unfold stamp in rw m refl

  end-handled :
      (ev : Event fl) (st st' : Scan fl)
      → Handled fl ev st st'
      → st'.summary.end_time ≡ stamp kind_run_end ev st.summary.end_time
  unfolding text_eq
  end-handled ev st _ (run_began e) =
      unfold on_run_start in stamp-other ev kind_run_start kind_run_end _ refl e
  end-handled ev st _ (run_ended e) = unfold on_run_end stamp in rw e refl
  end-handled ev st _ (enqueued e) =
      unfold on_enqueued in stamp-other ev kind_job_enqueued kind_run_end _ refl e
  end-handled ev st _ (started e) =
      ap (λ (s : RunSummary fl). s.end_time) (summary-on_started fl ev st)
      ∙ stamp-other ev kind_job_started kind_run_end _ refl e
  end-handled ev st _ (completed e) =
      ap (λ (s : RunSummary fl). s.end_time) (summary-on_completed fl ev st)
      ∙ stamp-other ev kind_job_completed kind_run_end _ refl e
  end-handled ev st _ (failed e) =
      unfold on_failed in stamp-other ev kind_job_failed kind_run_end _ refl e
  end-handled ev st _ (sampled e) =
      unfold on_sample in stamp-other ev kind_resource_sample kind_run_end _ refl e
  end-handled ev st _ (passed m n a b c) = unfold stamp in rw n refl

  last_stamp-cons :
      (k : Text) (ev : Event fl) (evs : List (Event fl)) (t : Time)
      → last_stamp k (ev ∷ evs) t ≡ last_stamp k evs (stamp k ev t)
  unfolding last_stamp stamp
  last_stamp-cons k ev evs t = elim (Bool-cases (text_eq ev.kind k)) [
    | inl e ↦ rw e refl
    | inr e ↦ rw e refl
  ]

  times-run_events :
      (evs : List (Event fl)) (st : Scan fl)
      → ((run_events fl evs st).summary.start_time
          ≡ last_stamp kind_run_start evs st.summary.start_time)
        × ((run_events fl evs st).summary.end_time
            ≡ last_stamp kind_run_end evs st.summary.end_time)
  unfolding run_events
  times-run_events [] st = unfold last_stamp in (refl, refl)
  times-run_events (ev ∷ evs) st =
      let rest = times-run_events evs (on_event fl ev st) in
      (
        rest.0
            ∙ ap (last_stamp kind_run_start evs) (start-handled ev st _ (handled fl ev st))
            ∙ sym (last_stamp-cons kind_run_start ev evs st.summary.start_time),
        rest.1
            ∙ ap (last_stamp kind_run_end evs) (end-handled ev st _ (handled fl ev st))
            ∙ sym (last_stamp-cons kind_run_end ev evs st.summary.end_time),
      )

  not_zero : (a b : ℤ) → a ≡ b → eq_ℤ a (pos 0) ≡ false → b ≢ pos 0
  not_zero a b e h z = absurd (ground (arith, e, h, z))

  zero_not : (a b : ℤ) → a ≡ b → b ≢ pos 0 → eq_ℤ a (pos 0) ≡ false
  zero_not a b e h = elim (Bool-cases (eq_ℤ a (pos 0))) [
    | inr f ↦ f
    | inl t ↦ absurd (h (sym e ∙ eq_of_parts a (pos 0) (ground (arith, t))))
  ]

  end_read-none :
      (scan_error : Outcome) (r : Scan fl × Outcome)
      → (end_read fl scan_error r).1 ≡ none
      → r.1 ≡ none
  unfolding end_read
  end_read-none scan_error (st, none) h = refl
  end_read-none scan_error (st, some e) h = absurd (cc h)

  analyze-none :
      (decode : Text → Option (Event fl)) (filename : Text) (lines : List Text)
      (scan_error : Outcome)
      → (analyze_reader fl decode filename lines scan_error).1 ≡ none
      → (read_lines fl decode filename lines (empty_scan fl)).1 ≡ none
  unfolding analyze_reader
  analyze-none decode filename lines scan_error h =
      end_read-none scan_error (read_lines fl decode filename lines (empty_scan fl)) h

  -- Lines that are read to the end all decode.
  read_lines-decoded :
      (decode : Text → Option (Event fl)) (filename : Text) (lines : List Text) (st : Scan fl)
      → (read_lines fl decode filename lines st).1 ≡ none
      → (evs : List (Event fl)) × (map decode lines ≡ map some evs)
  unfolding read_lines
  read_lines-decoded decode filename [] st h = ([], refl)
  read_lines-decoded decode filename (l ∷ lines) st h = elim (Option-cases (decode l)) [
    | inl e ↦ absurd (ground (arith, h, e))
    | inr (ev, e) ↦
        let (evs, d) =
          read_lines-decoded decode filename lines (on_event fl ev st) (ground (arith, h, e)) in
        (ev ∷ evs, cc (e, d))
  ]

  finish_iff :
      (scan_error : Outcome) (st : Scan fl)
      → ((finish fl scan_error st).1 ≡ none) ↔ (
          (scan_error ≡ none)
          × (eq_ℤ st.summary.start_time (pos 0) ≡ false)
          × (eq_ℤ st.summary.end_time (pos 0) ≡ false))
  unfolding finish
  finish_iff scan_error st = ground arith

  -- The reader reports no error exactly when every line decodes, the scanner reports none, and the
  -- last event of the start of a run and the last event of its end, which both have to be there,
  -- do not carry the zero time.
  pub accepted_iff :
      (decode : Text → Option (Event fl)) (filename : Text) (lines : List Text)
      (scan_error : Outcome)
      → ((analyze_reader fl decode filename lines scan_error).1 ≡ none) ↔ (
          (evs : List (Event fl)) × (map decode lines ≡ map some evs)
          × (scan_error ≡ none)
          × (last_stamp kind_run_start evs (pos 0) ≢ pos 0)
          × (last_stamp kind_run_end evs (pos 0) ≢ pos 0))
  accepted_iff decode filename lines scan_error = (forward, backward)
    where
      times :
          (evs : List (Event fl))
          → ((run_events fl evs (empty_scan fl)).summary.start_time
              ≡ last_stamp kind_run_start evs (pos 0))
            × ((run_events fl evs (empty_scan fl)).summary.end_time
                ≡ last_stamp kind_run_end evs (pos 0))
      times evs = unfold empty_scan in times-run_events evs (empty_scan fl)

      forward :
          (analyze_reader fl decode filename lines scan_error).1 ≡ none
          → (evs : List (Event fl)) × (map decode lines ≡ map some evs)
            × (scan_error ≡ none)
            × (last_stamp kind_run_start evs (pos 0) ≢ pos 0)
            × (last_stamp kind_run_end evs (pos 0) ≢ pos 0)
      forward h =
          let (evs, d) =
            read_lines-decoded decode filename lines (empty_scan fl)
              (analyze-none decode filename lines scan_error h) in
          let (a, b, c) =
            (finish_iff scan_error (run_events fl evs (empty_scan fl))).0
              (rw (analyze-run_events fl decode filename lines evs scan_error d) at h) in
          (evs, d, a, not_zero _ _ (times evs).0 b, not_zero _ _ (times evs).1 c)

      backward :
          ((evs : List (Event fl)) × (map decode lines ≡ map some evs)
            × (scan_error ≡ none)
            × (last_stamp kind_run_start evs (pos 0) ≢ pos 0)
            × (last_stamp kind_run_end evs (pos 0) ≢ pos 0))
          → (analyze_reader fl decode filename lines scan_error).1 ≡ none
      backward (evs, d, a, b, c) =
          rw (analyze-run_events fl decode filename lines evs scan_error d) (
            (finish_iff scan_error (run_events fl evs (empty_scan fl))).1
              (a, zero_not _ _ (times evs).0 b, zero_not _ _ (times evs).1 c))
