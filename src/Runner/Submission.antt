-- ===== src/Runner/Submission.antt =====
-- The enqueue workers of a run, and what happens beside them.
use queue_benchmark.Prelude.{
  ℕ, zero, suc, ◌+◌, List, [], ◌∷◌, ◌++◌, Option, none, some, bytes, ℤ, length, if◌then◌else◌, ltb,
}
use queue_benchmark.Queue.{JobId, EnqueueRequest, Job, Result, ok, err}
use queue_benchmark.Metrics.{Time, string, int64, kind_job_enqueued, kind_job_failed}
use queue_benchmark.Analyze.Reader.{time_sub}
use queue_benchmark.Runner.{
  Setting, unix_nano, milliseconds, Pending, Run, begin_job, count_job, record_job, Ended, Enqueued,
  note, sample, work,
}

-- One of some things, and the others.
unfoldable pub take_at : {A : Type 0} → ℕ → List A → Option (A × List A)
take_at n [] = none
take_at zero (p ∷ ps) = some (p, ps)
take_at (suc n) (p ∷ ps) = elim (take_at n ps) [ none ↦ none | some (q, rest) ↦ some (q, p ∷ rest) ]

module _ (w : Setting) where
  -- An enqueue worker, up to the answer of `Enqueue`, where there is a request.
  unfoldable pub submit_next : (submitted_at : Time) → List EnqueueRequest → Run w → Run w
  submit_next submitted_at [] s = s
  submit_next submitted_at (req ∷ later) s =
      let (answer, state) =
        w.harness.submit (w.to_text req.tenant_id) req.kind req.payload s.harness in
      record s {
        harness = state;
        requests = later;
        in_flight =
            s.in_flight
            ++ record { request = req; submitted_at = submitted_at; answer = answer } ∷ [];
      }

  -- An enqueue worker behind the answer, up to the counter of enqueued jobs.
  unfoldable pub note_answer :
      EnqueueRequest → (submitted_at enqueued_at now : Time) → Result JobId → Run w → Run w
  unfolding note
  note_answer req submitted_at enqueued_at now (err e) s =
      note w kind_job_failed
        ((bytes "tenant_id", string (w.to_text req.tenant_id))
          ∷ (bytes "kind", string req.kind)
          ∷ (bytes "stage", string (bytes "enqueue"))
          ∷ (bytes "error_message", string (w.error_text e))
          ∷ [])
        now s
  note_answer req submitted_at enqueued_at now (ok id) s = record s {
    enqueued = suc s.enqueued;
    recording =
        s.recording
        ++ record { request = req; id = id; submitted_at = submitted_at; enqueued_at = enqueued_at }
          ∷ [];
  }

  -- The event of an enqueue worker, behind the counter.
  unfoldable pub record_enqueued : (now : Time) → Enqueued → Run w → Run w
  unfolding unix_nano milliseconds note
  record_enqueued now x s =
      note w kind_job_enqueued
        ((bytes "job_id", string x.id)
          ∷ (bytes "tenant_id", string (w.to_text x.request.tenant_id))
          ∷ (bytes "kind", string x.request.kind)
          ∷ (bytes "submitted_at_ns", int64 (unix_nano x.submitted_at))
          ∷ (bytes "enqueued_at_ns", int64 (unix_nano x.enqueued_at))
          ∷ (bytes "enqueue_call_ms", int64 (milliseconds (time_sub x.enqueued_at x.submitted_at)))
          ∷ [])
        now s

  unfoldable pub confirm_taken : (now : Time) → Option (Enqueued × List Enqueued) → Run w → Run w
  unfolding record_enqueued
  confirm_taken now none s = s
  confirm_taken now (some (x, rest)) s = record_enqueued now x (record s { recording = rest })

  unfoldable pub answer_taken :
      (enqueued_at now : Time) → Option (Pending w × List (Pending w)) → Run w → Run w
  unfolding note_answer
  answer_taken enqueued_at now none s = s
  answer_taken enqueued_at now (some (p, rest)) s =
      note_answer p.request p.submitted_at enqueued_at now p.answer (record s { in_flight = rest })

  unfoldable pub record_taken : (now : Time) → Option (Ended × List Ended) → Run w → Run w
  unfolding record_job
  record_taken now none s = s
  record_taken now (some (x, rest)) s = record_job w now x x.outcome (record s { ending = rest })

  -- What happens beside the enqueue workers. The counter of a job that ends and its event are two
  -- steps. The harness may change its state on its own.
  pub data Background : Type 0 where
    job_begins : Job → (started_at now : Time) → Background
    job_ends : Job → (duration : ℤ) → (completed_at : Time) → Background
    job_recorded : (which : ℕ) → (now : Time) → Background
    ticked : (goroutines rss heap : ℤ) → (now : Time) → Background
    elsewhere : w.harness.State → Background

  pub data Happening : Type 0 where
    beside : Background → Happening
    submits : (submitted_at : Time) → Happening
    answers : (which : ℕ) → (enqueued_at now : Time) → Happening
    confirms : (which : ℕ) → (now : Time) → Happening

  unfoldable pub on_background : Background → Run w → Run w
  unfolding begin_job count_job record_taken take_at sample work
  on_background (job_begins job started_at now) s = begin_job w job started_at now s
  on_background (job_ends job duration completed_at) s =
      count_job w job duration completed_at (work w job) s
  on_background (job_recorded which now) s = record_taken now (take_at which s.ending) s
  on_background (ticked goroutines rss heap now) s = sample w goroutines rss heap now s
  on_background (elsewhere state) s = record s { harness = state }

  -- A request is taken only where an enqueue worker is free.
  unfoldable pub on_happening : (workers : ℕ) → Happening → Run w → Run w
  unfolding on_background submit_next take_at answer_taken confirm_taken
  on_happening workers (beside b) s = on_background b s
  on_happening workers (submits submitted_at) s =
      if ltb (length s.in_flight + length s.recording) workers
      then submit_next submitted_at s.requests s
      else s
  on_happening workers (answers which enqueued_at now) s =
      answer_taken enqueued_at now (take_at which s.in_flight) s
  on_happening workers (confirms which now) s = confirm_taken now (take_at which s.recording) s

  unfoldable pub advance : (workers : ℕ) → List Happening → Run w → Run w
  unfolding on_happening
  advance workers [] s = s
  advance workers (x ∷ xs) s = advance workers xs (on_happening workers x s)

  unfoldable pub advance_beside : List Background → Run w → Run w
  unfolding on_background
  advance_beside [] s = s
  advance_beside (b ∷ bs) s = advance_beside bs (on_background b s)

  -- `enqueueWG.Wait()`: the workers end when the closed channel is empty. What a schedule has left of
  -- the requests is submitted, answered and recorded here, at one time.
  unfoldable pub answer_all : Time → List (Pending w) → Run w → Run w
  unfolding note_answer
  answer_all now [] s = s
  answer_all now (p ∷ ps) s =
      answer_all now ps
        (note_answer p.request p.submitted_at now now p.answer (record s { in_flight = ps }))

  unfoldable pub submit_all : Time → List EnqueueRequest → Run w → Run w
  unfolding note_answer
  submit_all now [] s = s
  submit_all now (req ∷ later) s =
      let (answer, state) =
        w.harness.submit (w.to_text req.tenant_id) req.kind req.payload s.harness in
      submit_all now later
        (note_answer req now now now answer (record s { harness = state; requests = later }))

  unfoldable pub confirm_all : Time → List Enqueued → Run w → Run w
  unfolding record_enqueued
  confirm_all now [] s = s
  confirm_all now (x ∷ xs) s =
      confirm_all now xs (record_enqueued now x (record s { recording = xs }))

  unfoldable pub settle : Time → Run w → Run w
  unfolding answer_all submit_all confirm_all
  settle now s =
      let answered = answer_all now s.in_flight s in
      let submitted = submit_all now answered.requests answered in
      confirm_all now submitted.recording submitted
