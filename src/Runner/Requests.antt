-- ===== src/Runner/Requests.antt =====
-- The counters of a run through the steps of its enqueue workers.
use queue_benchmark.Prelude.{
  ℕ, zero, suc, ◌+◌, ◌≡◌, ap, List, [], ◌∷◌, some, Text, text_eq, length, length-append, count_if,
  arith, Option-cases, inl, inr,
}
use queue_benchmark.Prelude.Dict.{lookup}
use queue_benchmark.Queue.{EnqueueRequest, Result, ok, err}
use queue_benchmark.Metrics.{
  Time, kind_run_start, kind_job_enqueued, kind_job_completed, kind_job_failed,
}
use queue_benchmark.Analyze.Reader.{as_text}
use queue_benchmark.Runner.{Setting, Run, Enqueued}
use queue_benchmark.Runner.Submission.{
  submit_next, note_answer, record_enqueued, confirm_taken, take_at, answer_taken,
}
use queue_benchmark.Runner.Account.{
  IsAccounted, event_of, logged, refused, has_succeeded, has_failed, note-IsAccounted,
}

module _ (w : Setting) where
  -- An answer, where the request is counted neither as waiting nor as in flight any more.
  pub note_answer-IsAccounted :
      (total : ℕ) (req : EnqueueRequest) (submitted_at enqueued_at now : Time) (r : Result Text)
      (s : Run w)
      → s.recorder.outcomes ≡ []
      → logged w kind_run_start s ≡ 1
      → logged w kind_job_enqueued s + length s.recording ≡ s.enqueued
      → logged w kind_job_completed s + count_if has_succeeded s.ending ≡ s.completed
      → logged w kind_job_failed s + count_if has_failed s.ending ≡ s.failed + refused w s
      → suc (s.enqueued + refused w s + length s.in_flight + length s.requests) ≡ total
      → IsAccounted w total (note_answer w req submitted_at enqueued_at now r s)
  unfolding note_answer event_of text_eq lookup as_text
  note_answer-IsAccounted total req submitted_at enqueued_at now (ok id) s h z a b c d = record {
    writes = h;
    begun = z;
    enqueued = omega (arith, a, length-append s.recording (_ ∷ []));
    completed = b;
    failed = c;
    requests = omega (arith, d);
  }
  note_answer-IsAccounted total req submitted_at enqueued_at now (err e) s h z a b c d =
      note-IsAccounted w total kind_job_failed _ now _ h (omega (arith, z)) (omega (arith, a))
        (omega (arith, b)) (omega (arith, c)) (omega (arith, d))

  length-take_at :
      {A : Type 0} (n : ℕ) (ps : List A) (p : A) (rest : List A)
      → take_at n ps ≡ some (p, rest)
      → length ps ≡ suc (length rest)
  unfolding take_at
  length-take_at n [] p rest e = absurd (cc e)
  length-take_at zero (q ∷ ps) p rest e = ground (arith, e)
  length-take_at (suc n) (q ∷ ps) p rest e = elim (Option-cases (take_at n ps)) [
    | inl f ↦ absurd (ground (arith, e, f))
    | inr ((p', rest'), f) ↦ ground (arith, e, f, length-take_at n ps p' rest' f)
  ]

  -- The event of a request that has left `recording`.
  pub record_enqueued-IsAccounted :
      (total : ℕ) (now : Time) (x : Enqueued) (s : Run w)
      → s.recorder.outcomes ≡ []
      → logged w kind_run_start s ≡ 1
      → suc (logged w kind_job_enqueued s + length s.recording) ≡ s.enqueued
      → logged w kind_job_completed s + count_if has_succeeded s.ending ≡ s.completed
      → logged w kind_job_failed s + count_if has_failed s.ending ≡ s.failed + refused w s
      → s.enqueued + refused w s + length s.in_flight + length s.requests ≡ total
      → IsAccounted w total (record_enqueued w now x s)
  unfolding record_enqueued event_of text_eq
  record_enqueued-IsAccounted total now x s h z a b c d =
      note-IsAccounted w total kind_job_enqueued _ now s h (omega (arith, z)) (omega (arith, a))
        (omega (arith, b)) (omega (arith, c)) (omega (arith, d))

  pub confirm_taken-IsAccounted :
      (total n : ℕ) (now : Time) (s : Run w)
      → IsAccounted w total s
      → IsAccounted w total (confirm_taken w now (take_at n s.recording) s)
  unfolding confirm_taken
  confirm_taken-IsAccounted total n now s a = elim (Option-cases (take_at n s.recording)) [
    | inl e ↦ rw e a
    | inr ((x, rest), e) ↦ rw e (
        record_enqueued-IsAccounted total now x (record s { recording = rest }) a.writes a.begun
          (omega (arith, a.enqueued, length-take_at n s.recording x rest e)) a.completed a.failed
          a.requests)
  ]

  pub submit_next-IsAccounted :
      (total : ℕ) (submitted_at : Time) (reqs : List EnqueueRequest) (s : Run w)
      → s.requests ≡ reqs
      → IsAccounted w total s
      → IsAccounted w total (submit_next w submitted_at reqs s)
  unfolding submit_next
  submit_next-IsAccounted total submitted_at [] s e a = a
  submit_next-IsAccounted total submitted_at (req ∷ later) s e a = record {
    writes = a.writes;
    begun = a.begun;
    enqueued = a.enqueued;
    completed = a.completed;
    failed = a.failed;
    requests = omega (arith, a.requests, ap length e, length-append s.in_flight (_ ∷ []));
  }

  pub answer_taken-IsAccounted :
      (total n : ℕ) (enqueued_at now : Time) (s : Run w)
      → IsAccounted w total s
      → IsAccounted w total (answer_taken w enqueued_at now (take_at n s.in_flight) s)
  unfolding answer_taken
  answer_taken-IsAccounted total n enqueued_at now s a =
      elim (Option-cases (take_at n s.in_flight)) [
        | inl e ↦ rw e a
        | inr ((p, rest), e) ↦ rw e (
            note_answer-IsAccounted total p.request p.submitted_at enqueued_at now p.answer
              (record s { in_flight = rest }) a.writes a.begun a.enqueued a.completed a.failed
              (omega (arith, a.requests, length-take_at n s.in_flight p rest e)))
      ]
