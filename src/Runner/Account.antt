-- ===== src/Runner/Account.antt =====
-- The counters of a run against its log.
use queue_benchmark.Prelude.{
  ℕ, zero, suc, ◌+◌, ◌≡◌, refl, sym, ap, ◌∙◌, Bool, true, false, not, ◌&&◌, List, [], ◌∷◌, ◌++◌,
  none, some, Text, bytes, text_eq, ℤ, length, count_if, if◌then◌else◌, arith, count_if-append_one,
  Option-cases, inl, inr,
}
use mathlib.Core.Path.{subst}
use queue_benchmark.Prelude.Dict.{lookup}
use queue_benchmark.Queue.{Job, Outcome}
use queue_benchmark.Metrics.{
  Event, Fields, Time, record_event, write, kind_run_start, kind_job_enqueued, kind_job_started,
  kind_job_completed, kind_job_failed, kind_resource_sample,
}
use queue_benchmark.Analyze.Reader.{as_text, text_of}
use queue_benchmark.Runner.{
  Setting, Run, note, Ended, begin_job, count_job, record_job, sample, work,
}
use queue_benchmark.Runner.Submission.{
  Background, take_at, on_background, job_begins, job_ends, job_recorded, record_taken, ticked,
  elsewhere,
}

abbrev is_none : Outcome → Bool
is_none none = true
is_none (some e) = false

abbrev pub has_succeeded : Ended → Bool
has_succeeded x = is_none x.outcome

abbrev pub has_failed : Ended → Bool
has_failed x = not (is_none x.outcome)

module _ (w : Setting) where
  abbrev pub of_kind : Text → Event w.float → Bool
  of_kind kind ev = text_eq ev.kind kind

  -- The events of requests that the harness refused.
  abbrev pub refusal : Event w.float → Bool
  refusal ev =
      text_eq ev.kind kind_job_failed
      && text_eq (text_of w.float (bytes "stage") ev.fields) (bytes "enqueue")

  abbrev pub logged : Text → Run w → ℕ
  logged kind s = count_if (of_kind kind) s.recorder.written

  abbrev pub refused : Run w → ℕ
  refused s = count_if refusal s.recorder.written

  -- While every write succeeds: the run is begun once; the counters are the numbers of events in the
  -- log, or of such events and of the jobs whose event is still to come; and each request is waiting,
  -- in flight, enqueued or refused.
  pub record IsAccounted (total : ℕ) (s : Run w) : Type 0 where
    pub writes : s.recorder.outcomes ≡ []
    pub begun : logged kind_run_start s ≡ 1
    pub enqueued : logged kind_job_enqueued s + length s.recording ≡ s.enqueued
    pub completed : logged kind_job_completed s + count_if has_succeeded s.ending ≡ s.completed
    pub failed : logged kind_job_failed s + count_if has_failed s.ending ≡ s.failed + refused s
    pub requests : s.enqueued + refused s + length s.in_flight + length s.requests ≡ total

  -- What an event adds to the log.
  unfoldable pub event_of : Text → Fields w.float → Time → Run w → Event w.float
  event_of kind fields now s = record {
    run_id = s.recorder.run_id;
    timestamp = now;
    kind = kind;
    fields = fields;
  }

  pub note-written :
      (kind : Text) (fields : Fields w.float) (now : Time) (s : Run w)
      → s.recorder.outcomes ≡ []
      → note w kind fields now s ≡ record s {
        recorder = record s.recorder {
          written = s.recorder.written ++ event_of kind fields now s ∷ [];
          outcomes = [];
        };
      }
  unfolding note record_event write event_of
  note-written kind fields now s h = rw h refl

  abbrev pub one_if : Bool → ℕ
  one_if b = if b then 1 else 0

  pub note-IsAccounted :
      (total : ℕ) (kind : Text) (fields : Fields w.float) (now : Time) (s : Run w)
      → let ev = event_of kind fields now s in
        s.recorder.outcomes ≡ []
        → logged kind_run_start s + one_if (of_kind kind_run_start ev) ≡ 1
        → logged kind_job_enqueued s + one_if (of_kind kind_job_enqueued ev) + length s.recording
          ≡ s.enqueued
        → logged kind_job_completed s
            + one_if (of_kind kind_job_completed ev)
            + count_if has_succeeded s.ending
          ≡ s.completed
        → logged kind_job_failed s
            + one_if (of_kind kind_job_failed ev)
            + count_if has_failed s.ending
          ≡ s.failed + (refused s + one_if (refusal ev))
        → s.enqueued + (refused s + one_if (refusal ev)) + length s.in_flight + length s.requests
          ≡ total
        → IsAccounted total (note w kind fields now s)
  note-IsAccounted total kind fields now s h z a b c d =
      let ev = event_of kind fields now s in
      let added = λ (p : Event w.float → Bool). count_if-append_one p s.recorder.written ev in
      subst (IsAccounted total) (sym (note-written kind fields now s h)) (record {
        writes = refl;
        begun = omega (arith, z, added (of_kind kind_run_start));
        enqueued = omega (arith, a, added (of_kind kind_job_enqueued));
        completed = omega (arith, b, added (of_kind kind_job_completed));
        failed = omega (arith, c, added (of_kind kind_job_failed), added refusal);
        requests = omega (arith, d, added refusal);
      })

  begin_job-IsAccounted :
      (total : ℕ) (job : Job) (started_at now : Time) (s : Run w)
      → IsAccounted total s
      → IsAccounted total (begin_job w job started_at now s)
  unfolding begin_job event_of text_eq
  begin_job-IsAccounted total job started_at now s a =
      note-IsAccounted total kind_job_started _ now s a.writes (omega (arith, a.begun))
        (omega (arith, a.enqueued)) (omega (arith, a.completed)) (omega (arith, a.failed))
        (omega (arith, a.requests))

  count_job-IsAccounted :
      (total : ℕ) (job : Job) (duration : ℤ) (completed_at : Time) (o : Outcome) (s : Run w)
      → IsAccounted total s
      → IsAccounted total (count_job w job duration completed_at o s)
  unfolding count_job
  count_job-IsAccounted total job duration completed_at none s a = record {
    writes = a.writes;
    begun = a.begun;
    enqueued = a.enqueued;
    completed = omega (arith, a.completed, count_if-append_one has_succeeded s.ending _);
    failed = omega (arith, a.failed, count_if-append_one has_failed s.ending _);
    requests = a.requests;
  }
  count_job-IsAccounted total job duration completed_at (some e) s a = record {
    writes = a.writes;
    begun = a.begun;
    enqueued = a.enqueued;
    completed = omega (arith, a.completed, count_if-append_one has_succeeded s.ending _);
    failed = omega (arith, a.failed, count_if-append_one has_failed s.ending _);
    requests = a.requests;
  }

  -- The event of a job that has left `ending`.
  record_job-IsAccounted :
      (total : ℕ) (now : Time) (x : Ended) (o : Outcome) (s : Run w)
      → s.recorder.outcomes ≡ []
      → logged kind_run_start s ≡ 1
      → logged kind_job_enqueued s + length s.recording ≡ s.enqueued
      → logged kind_job_completed s + one_if (is_none o) + count_if has_succeeded s.ending
        ≡ s.completed
      → logged kind_job_failed s + one_if (not (is_none o)) + count_if has_failed s.ending
        ≡ s.failed + refused s
      → s.enqueued + refused s + length s.in_flight + length s.requests ≡ total
      → IsAccounted total (record_job w now x o s)
  unfolding record_job event_of text_eq lookup as_text
  record_job-IsAccounted total now x none s h z a b c d =
      note-IsAccounted total kind_job_completed _ now s h (omega (arith, z)) (omega (arith, a))
        (omega (arith, b)) (omega (arith, c)) (omega (arith, d))
  record_job-IsAccounted total now x (some e) s h z a b c d =
      note-IsAccounted total kind_job_failed _ now s h (omega (arith, z)) (omega (arith, a))
        (omega (arith, b)) (omega (arith, c)) (omega (arith, d))

  count_if-take_at :
      {A : Type 0} (test : A → Bool) (n : ℕ) (ps : List A) (p : A) (rest : List A)
      → take_at n ps ≡ some (p, rest)
      → count_if test ps ≡ one_if (test p) + count_if test rest
  unfolding take_at count_if
  count_if-take_at test n [] p rest e = absurd (cc e)
  count_if-take_at test zero (q ∷ ps) p rest e =
      let same : q ≡ p = cc e in let others : ps ≡ rest = cc e in rw (same, others) refl
  count_if-take_at test (suc n) (q ∷ ps) p rest e = elim (Option-cases (take_at n ps)) [
    | inl f ↦ absurd (ground (arith, e, f))
    | inr ((p', rest'), f) ↦
        let same : p' ≡ p = ground (arith, e, f) in
        let others : q ∷ rest' ≡ rest = ground (arith, e, f) in
        let here = count_if-take_at test n ps p' rest' f in
        ap (λ m. one_if (test q) + m) here
        ∙ omega arith
        ∙ ap (λ m. one_if (test m) + count_if test (q ∷ rest')) same
        ∙ ap (λ m. one_if (test p) + count_if test m) others
  ]

  record_taken-IsAccounted :
      (total n : ℕ) (now : Time) (s : Run w)
      → IsAccounted total s
      → IsAccounted total (record_taken w now (take_at n s.ending) s)
  unfolding record_taken
  record_taken-IsAccounted total n now s a = elim (Option-cases (take_at n s.ending)) [
    | inl e ↦ rw e a
    | inr ((x, rest), e) ↦ rw e (
        record_job-IsAccounted total now x x.outcome (record s { ending = rest }) a.writes a.begun
          a.enqueued
          (omega (arith, a.completed, count_if-take_at has_succeeded n s.ending x rest e))
          (omega (arith, a.failed, count_if-take_at has_failed n s.ending x rest e)) a.requests)
  ]

  sample-IsAccounted :
      (total : ℕ) (goroutines rss heap : ℤ) (now : Time) (s : Run w)
      → IsAccounted total s
      → IsAccounted total (sample w goroutines rss heap now s)
  unfolding sample event_of text_eq
  sample-IsAccounted total goroutines rss heap now s a =
      note-IsAccounted total kind_resource_sample _ now s a.writes (omega (arith, a.begun))
        (omega (arith, a.enqueued)) (omega (arith, a.completed)) (omega (arith, a.failed))
        (omega (arith, a.requests))

  pub background-IsAccounted :
      (total : ℕ) (b : Background w) (s : Run w)
      → IsAccounted total s
      → IsAccounted total (on_background w b s)
  unfolding on_background
  background-IsAccounted total (job_begins job started_at now) s a =
      begin_job-IsAccounted total job started_at now s a
  background-IsAccounted total (job_ends job duration completed_at) s a =
      count_job-IsAccounted total job duration completed_at (work w job) s a
  background-IsAccounted total (job_recorded which now) s a =
      record_taken-IsAccounted total which now s a
  background-IsAccounted total (ticked goroutines rss heap now) s a =
      sample-IsAccounted total goroutines rss heap now s a
  background-IsAccounted total (elsewhere state) s a = record {
    writes = a.writes;
    begun = a.begun;
    enqueued = a.enqueued;
    completed = a.completed;
    failed = a.failed;
    requests = a.requests;
  }
