-- ===== src/Runner/Phases.antt =====
-- The counters through the phases of a run.
use queue_benchmark.Prelude.{
  ℕ, ◌+◌, ◌≡◌, refl, ap, ◌∙◌, List, [], ◌∷◌, Option, none, some, Text, length, ltb, arith,
  Bool-cases, inl, inr,
}
use queue_benchmark.Queue.{EnqueueRequest, Outcome, Result, ok, err}
use queue_benchmark.Metrics.{Time}
use queue_benchmark.Runner.{
  Setting, Run, Pending, Enqueued, note, Ended, begin_job, count_job, record_job, sample, work,
}
use queue_benchmark.Runner.Submission.{
  Background, Happening, note_answer, on_background, on_happening, advance, advance_beside,
  answer_all, submit_all, confirm_all, record_enqueued, settle, job_begins, job_ends, job_recorded,
  record_taken, take_at, ticked, elsewhere, beside, submits, answers, confirms,
}
use queue_benchmark.Runner.Account.{IsAccounted, background-IsAccounted}
use queue_benchmark.Runner.Requests.{
  note_answer-IsAccounted, answer_taken-IsAccounted, submit_next-IsAccounted,
  record_enqueued-IsAccounted, confirm_taken-IsAccounted,
}

module _ (w : Setting) where
  happening-IsAccounted :
      (total workers : ℕ) (x : Happening w) (s : Run w)
      → IsAccounted w total s
      → IsAccounted w total (on_happening w workers x s)
  unfolding on_happening
  happening-IsAccounted total workers (beside b) s a = background-IsAccounted w total b s a
  happening-IsAccounted total workers (submits submitted_at) s a =
      elim (Bool-cases (ltb (length s.in_flight + length s.recording) workers)) [
        | inl e ↦ rw e (submit_next-IsAccounted w total submitted_at s.requests s refl a)
        | inr e ↦ rw e a
      ]
  happening-IsAccounted total workers (answers which enqueued_at now) s a =
      answer_taken-IsAccounted w total which enqueued_at now s a
  happening-IsAccounted total workers (confirms which now) s a =
      confirm_taken-IsAccounted w total which now s a

  pub advance-IsAccounted :
      (total workers : ℕ) (xs : List (Happening w)) (s : Run w)
      → IsAccounted w total s
      → IsAccounted w total (advance w workers xs s)
  unfolding advance
  advance-IsAccounted total workers [] s a = a
  advance-IsAccounted total workers (x ∷ xs) s a =
      advance-IsAccounted total workers xs (on_happening w workers x s)
        (happening-IsAccounted total workers x s a)

  pub advance_beside-IsAccounted :
      (total : ℕ) (bs : List (Background w)) (s : Run w)
      → IsAccounted w total s
      → IsAccounted w total (advance_beside w bs s)
  unfolding advance_beside
  advance_beside-IsAccounted total [] s a = a
  advance_beside-IsAccounted total (b ∷ bs) s a =
      advance_beside-IsAccounted total bs (on_background w b s)
        (background-IsAccounted w total b s a)

  -- The channel and the requests in flight, behind an answer.
  note_answer_kept :
      (req : EnqueueRequest) (submitted_at enqueued_at now : Time) (r : Result Text) (s : Run w)
      → let s' = note_answer w req submitted_at enqueued_at now r s in
        (s'.in_flight ≡ s.in_flight) × (s'.requests ≡ s.requests)
  unfolding note_answer note
  note_answer_kept req submitted_at enqueued_at now (ok id) s = (refl, refl)
  note_answer_kept req submitted_at enqueued_at now (err e) s = (refl, refl)

  answer_all-IsAccounted :
      (total : ℕ) (now : Time) (ps : List (Pending w)) (s : Run w)
      → s.in_flight ≡ ps
      → IsAccounted w total s
      → let s' = answer_all w now ps s in IsAccounted w total s' × (s'.in_flight ≡ [])
  unfolding answer_all
  answer_all-IsAccounted total now [] s e a = (a, e)
  answer_all-IsAccounted total now (p ∷ ps) s e a =
      answer_all-IsAccounted total now ps _
        (note_answer_kept p.request p.submitted_at now now p.answer (record s { in_flight = ps })).0
        (note_answer-IsAccounted w total p.request p.submitted_at now now p.answer
          (record s { in_flight = ps }) a.writes a.begun a.enqueued a.completed a.failed
          (omega (arith, a.requests, ap length e)))

  submit_all-IsAccounted :
      (total : ℕ) (now : Time) (reqs : List EnqueueRequest) (s : Run w)
      → s.requests ≡ reqs
      → s.in_flight ≡ []
      → IsAccounted w total s
      → let s' = submit_all w now reqs s in
        IsAccounted w total s' × (s'.in_flight ≡ []) × (s'.requests ≡ [])
  unfolding submit_all
  submit_all-IsAccounted total now [] s e f a = (a, f, e)
  submit_all-IsAccounted total now (req ∷ later) s e f a =
      let (r, state) = w.harness.submit (w.to_text req.tenant_id) req.kind req.payload s.harness in
      let kept =
        note_answer_kept req now now now r (record s { harness = state; requests = later }) in
      submit_all-IsAccounted total now later _ kept.1 (kept.0 ∙ f) (
        note_answer-IsAccounted w total req now now now r
          (record s { harness = state; requests = later }) a.writes a.begun a.enqueued a.completed
          a.failed (omega (arith, a.requests, ap length e)))

  confirm_all-IsAccounted :
      (total : ℕ) (now : Time) (xs : List Enqueued) (s : Run w)
      → s.recording ≡ xs
      → s.in_flight ≡ []
      → s.requests ≡ []
      → IsAccounted w total s
      → let s' = confirm_all w now xs s in
        IsAccounted w total s' × (s'.in_flight ≡ []) × (s'.requests ≡ []) × (s'.recording ≡ [])
  unfolding confirm_all record_enqueued note
  confirm_all-IsAccounted total now [] s e f g a = (a, f, g, e)
  confirm_all-IsAccounted total now (x ∷ xs) s e f g a =
      confirm_all-IsAccounted total now xs (record_enqueued w now x (record s { recording = xs }))
        refl f g
        (record_enqueued-IsAccounted w total now x (record s { recording = xs }) a.writes a.begun
          (omega (arith, a.enqueued, ap length e)) a.completed a.failed a.requests)

  -- Once the enqueue workers have ended, every request is enqueued or refused, and its event is in
  -- the log.
  pub settle-IsAccounted :
      (total : ℕ) (now : Time) (s : Run w)
      → IsAccounted w total s
      → let s' = settle w now s in
        IsAccounted w total s' × (s'.in_flight ≡ []) × (s'.requests ≡ []) × (s'.recording ≡ [])
  unfolding settle
  settle-IsAccounted total now s a =
      let (b, e) = answer_all-IsAccounted total now s.in_flight s refl a in
      let (c, f, g) = submit_all-IsAccounted total now _ _ refl e b in
      confirm_all-IsAccounted total now _ _ refl f g c

  background_kept :
      (b : Background w) (s : Run w)
      → let s' = on_background w b s in
        (s'.in_flight ≡ s.in_flight) × (s'.requests ≡ s.requests) × (s'.recording ≡ s.recording)
  unfolding on_background begin_job count_job record_taken record_job sample note
  background_kept (job_begins job started_at now) s = (refl, refl, refl)
  background_kept (job_ends job duration completed_at) s = by_outcome (work w job)
    where
      by_outcome :
          (o : Outcome)
          → let s' = count_job w job duration completed_at o s in
            (s'.in_flight ≡ s.in_flight) × (s'.requests ≡ s.requests) × (s'.recording ≡ s.recording)
      by_outcome none = (refl, refl, refl)
      by_outcome (some e) = (refl, refl, refl)
  background_kept (job_recorded which now) s = by_taken (take_at which s.ending)
    where
      by_event :
          (x : Ended) (o : Outcome) (t : Run w)
          → let s' = record_job w now x o t in
            (s'.in_flight ≡ t.in_flight) × (s'.requests ≡ t.requests) × (s'.recording ≡ t.recording)
      by_event x none t = (refl, refl, refl)
      by_event x (some e) t = (refl, refl, refl)

      by_taken :
          (o : Option (Ended × List Ended))
          → let s' = record_taken w now o s in
            (s'.in_flight ≡ s.in_flight) × (s'.requests ≡ s.requests) × (s'.recording ≡ s.recording)
      by_taken none = (refl, refl, refl)
      by_taken (some (x, rest)) = by_event x x.outcome (record s { ending = rest })
  background_kept (ticked goroutines rss heap now) s = (refl, refl, refl)
  background_kept (elsewhere state) s = (refl, refl, refl)

  pub advance_beside_kept :
      (bs : List (Background w)) (s : Run w)
      → let s' = advance_beside w bs s in
        (s'.in_flight ≡ s.in_flight) × (s'.requests ≡ s.requests) × (s'.recording ≡ s.recording)
  unfolding advance_beside
  advance_beside_kept [] s = (refl, refl, refl)
  advance_beside_kept (b ∷ bs) s =
      let (f, g, r) = advance_beside_kept bs (on_background w b s) in
      let (f', g', r') = background_kept b s in (f ∙ f', g ∙ g', r ∙ r')

  pub harness-IsAccounted :
      (total : ℕ) (state : w.harness.State) (s : Run w)
      → IsAccounted w total s
      → IsAccounted w total (record s { harness = state })
  harness-IsAccounted total state s a = record {
    writes = a.writes;
    begun = a.begun;
    enqueued = a.enqueued;
    completed = a.completed;
    failed = a.failed;
    requests = a.requests;
  }
