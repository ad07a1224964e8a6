-- ===== src/River/Contract.antt =====
-- The River adapter as a Harness.
use mathlib.Core.Path.{subst}
use queue_benchmark.Prelude.{
  none, ◌≡◌, sym, inl, inr, Bool, true, false, ◌∷◌, arith, Text, ℤ, Bool-cases, Option-cases,
}
use queue_benchmark.Queue.{Kind, JobId, JobPayload, Outcome, WorkerFunc, Result}
use queue_benchmark.Queue.Contract
use queue_benchmark.Queue.Contract.{
  View, Call, Allowed, perform, with_worker, no_error, is_ok, stop_answer, Answer, answered, done,
  failed, crashed, broken, StopResult, returned, panicked, find_worker, registered, too_late,
  registered_before, launched, not_launched, submitted, refused, halted,
}
use queue_benchmark.River.{
  stop_outcome, Harness, register, start, enqueue, make_insert, job_id, stop, Insert,
}

abbrev pub view : Harness → View
view h = record {
  worker = λ kind. find_worker kind h.workers;
  started = h.started;
  was_started = h.client;
}

-- What River answers: to the making and the start of a client, to an insert, to a stop.
module _ (made launches : Outcome) (insert : Insert → Result ℤ) (stop_error : Outcome) where
  abbrev pub adapter : Contract.Harness
  adapter = record {
    State = Harness;
    register_worker = register;
    start_up = start made launches;
    submit = λ tenant kind payload h. (enqueue insert tenant kind payload h, h);
    shut_down = stop stop_error;
  }

  -- A call that ends in a known way is allowed when that end is.
  by_end :
      (c : Call) (h : Harness) {r : Answer × Harness}
      → perform adapter c h ≡ r
      → Allowed (view h) c r.0 (view r.1)
      → Allowed (view h) c (perform adapter c h).0 (view (perform adapter c h).1)
  by_end c h e a = subst (λ (x : Answer × Harness). Allowed (view h) c x.0 (view x.1)) (sym e) a

  register_allowed :
      (kind : Kind) (fn : WorkerFunc) (h : Harness)
      → let r = perform adapter (Call.register kind fn) h in
        Allowed (view h) (Call.register kind fn) r.0 (view r.1)
  unfolding perform register find_worker
  register_allowed kind fn h = elim (Bool-cases h.started) [
    | inl e ↦ by_end (Call.register kind fn) h {r = (failed, h)} (ground (arith, e)) (too_late e)
    | inr e ↦ elim (Option-cases (find_worker kind h.workers)) [
      | inl f ↦
          by_end (Call.register kind fn) h
            {r = (done, record h { workers = (kind, fn) ∷ h.workers })} (ground (arith, e, f))
            (registered e f)
      | inr (g, f) ↦
          by_end (Call.register kind fn) h {r = (failed, h)} (ground (arith, e, f))
            (registered_before f)
    ]
  ]

  start_allowed :
      (h : Harness)
      → let r = perform adapter Call.start h in Allowed (view h) Call.start r.0 (view r.1)
  unfolding perform start
  start_allowed h = elim (Bool-cases h.started) [
    | inl e ↦ by_end Call.start h {r = (failed, h)} (ground (arith, e)) not_launched
    | inr e ↦ elim (Option-cases made) [
      | inr (x, f) ↦ by_end Call.start h {r = (failed, h)} (ground (arith, e, f)) not_launched
      | inl f ↦ elim (Option-cases launches) [
        | inr (x, g) ↦ by_end Call.start h {r = (failed, h)} (ground (arith, e, f, g)) not_launched
        | inl g ↦
            by_end Call.start h {r = (done, record h { client = true; started = true })}
              (ground (arith, e, f, g)) (launched e)
      ]
    ]
  ]

  submit_allowed :
      (tenant : Text) (kind : Kind) (payload : JobPayload) (h : Harness)
      → let c = Call.enqueue tenant kind payload in
        let r = perform adapter c h in Allowed (view h) c r.0 (view r.1)
  unfolding perform enqueue
  submit_allowed tenant kind payload h = elim (Bool-cases h.client) [
    | inr e ↦
        by_end (Call.enqueue tenant kind payload) h {r = (failed, h)} (ground (arith, e)) refused
    | inl e ↦
        by_end (Call.enqueue tenant kind payload) h {r = (answered (is_ok answer), h)}
          (ground (arith, e)) (ended (is_ok answer) e)
  ]
    where
      answer : Result JobId
      answer = job_id (insert (make_insert h tenant kind payload))

      ended :
          (b : Bool)
          → h.client ≡ true
          → Allowed (view h) (Call.enqueue tenant kind payload) (answered b) (view h)
      ended true e = submitted e
      ended false e = refused

  stop_allowed :
      (h : Harness)
      → let r = perform adapter Call.stop h in Allowed (view h) Call.stop r.0 (view r.1)
  unfolding perform stop
  stop_allowed h =
      subst (Allowed (view h) Call.stop (perform adapter Call.stop h).0) (sym view-stop) (
        subst
          (λ (r : StopResult).
            Allowed (view h) Call.stop (stop_answer r) (record (view h) { started = false }))
          (sym returns.1) (halted (no_error returns.0)))
    where
      view-stop : view (stop stop_error h).1 ≡ record (view h) { started = false }
      view-stop = unfold stop in ground arith

      returns : (o : Outcome) × ((stop stop_error h).0 ≡ returned o)
      returns = elim (Bool-cases h.client) [
        | inl e ↦ (stop_outcome stop_error, unfold stop in ground (arith, e))
        | inr e ↦ (none, unfold stop in ground (arith, e))
      ]

  -- Whatever River answers, Register, Start, Enqueue and Stop of its adapter do to the adapter's view
  -- what the contract of the operations of a run allows, and end without an error or with one only
  -- where the contract lets them.
  pub river_refines :
      (c : Call) (h : Harness)
      → Allowed (view h) c (perform adapter c h).0 (view (perform adapter c h).1)
  river_refines (Call.register kind fn) h = register_allowed kind fn h
  river_refines Call.start h = start_allowed h
  river_refines Call.stop h = stop_allowed h
  river_refines (Call.enqueue tenant kind payload) h = submit_allowed tenant kind payload h
