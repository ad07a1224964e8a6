-- ===== src/Platlib/Adapter/Contract.antt =====
-- The rsqueue adapter as a Harness.
use mathlib.Core.Path.{subst}
use queue_benchmark.Prelude.{
  ◌≡◌, sym, inl, inr, Bool, true, false, ◌||◌, ◌∷◌, arith, Text, Bool-cases, Option-cases,
}
use queue_benchmark.Queue.{Kind, JobId, JobPayload, Outcome, WorkerFunc, Result}
use queue_benchmark.Queue.Contract
use queue_benchmark.Queue.Contract.{
  View, Call, Allowed, perform, with_worker, no_error, is_ok, stop_answer, Answer, answered, done,
  failed, crashed, broken, StopResult, returned, panicked, find_worker, is_known, registered,
  too_late, registered_before, launched, not_launched, submitted, refused, halted,
}
use queue_benchmark.Platlib.Adapter.{
  Harness, register, start, enqueue, first_push, end_enqueue, stop, PushFn,
}

abbrev pub view : Harness → View
view h = record {
  worker = λ kind. find_worker kind h.workers;
  started = h.started;
  was_started = h.started || h.stopping;
}

-- What rsqueue answers: to the making of the concurrencies, to a push, to the agent's Stop.
module _ (enforcer : Outcome) (push : PushFn) (stop_error : Outcome) where
  abbrev pub adapter : Contract.Harness
  adapter = record {
    State = Harness;
    register_worker = register;
    start_up = start enforcer;
    submit = λ tenant kind payload h.
        let (r, h', pushed) = enqueue push tenant kind payload h in (r, h');
    shut_down = stop stop_error;
  }

  -- A call that ends in a known way is allowed when that end is.
  by_end :
      (c : Call) (h : Harness) {r : Answer × Harness}
      → perform adapter c h ≡ r
      → Allowed (view h) c r.0 (view r.1)
      → Allowed (view h) c (perform adapter c h).0 (view (perform adapter c h).1)
  by_end c h e a = subst (λ (x : Answer × Harness). Allowed (view h) c x.0 (view x.1)) (sym e) a

  by_view :
      (h : Harness) {a : Answer} (h' : Harness)
      → record (view h) { started = false } ≡ view h'
      → Allowed (view h) Call.stop a (record (view h) { started = false })
      → Allowed (view h) Call.stop a (view h')
  by_view h {a} h' e x = subst (Allowed (view h) Call.stop a) e x

  register_allowed :
      (kind : Kind) (fn : WorkerFunc) (h : Harness)
      → let r = perform adapter (Call.register kind fn) h in
        Allowed (view h) (Call.register kind fn) r.0 (view r.1)
  unfolding perform register find_worker
  register_allowed kind fn h = elim (Bool-cases h.started) [
    | inl e ↦ by_end (Call.register kind fn) h {r = (failed, h)} (ground (arith, e)) (too_late e)
    | inr e ↦ elim (Option-cases (find_worker kind h.workers)) [
      | inl f ↦
          by_end (Call.register kind fn) h
            {r = (done, record h { workers = (kind, fn) ∷ h.workers })} (ground (arith, e, f))
            (registered e f)
      | inr (g, f) ↦
          by_end (Call.register kind fn) h {r = (failed, h)} (ground (arith, e, f))
            (registered_before f)
    ]
  ]

  start_allowed :
      (h : Harness)
      → let r = perform adapter Call.start h in Allowed (view h) Call.start r.0 (view r.1)
  unfolding perform start
  start_allowed h = elim (Bool-cases h.started) [
    | inl e ↦ by_end Call.start h {r = (failed, h)} (ground (arith, e)) not_launched
    | inr e ↦ elim (Option-cases enforcer) [
      | inl f ↦
          by_end Call.start h {r = (done, record h { started = true })} (ground (arith, e, f))
            (launched e)
      | inr (x, f) ↦ by_end Call.start h {r = (failed, h)} (ground (arith, e, f)) not_launched
    ]
  ]

  submit_allowed :
      (tenant : Text) (kind : Kind) (payload : JobPayload) (h : Harness)
      → let c = Call.enqueue tenant kind payload in
        let r = perform adapter c h in Allowed (view h) c r.0 (view r.1)
  unfolding perform enqueue
  submit_allowed tenant kind payload h = elim (Bool-cases h.started) [
    | inr e ↦
        by_end (Call.enqueue tenant kind payload) h {r = (failed, h)} (ground (arith, e)) refused
    | inl e ↦ elim (Bool-cases (is_known (find_worker kind h.workers))) [
      | inr f ↦
          by_end (Call.enqueue tenant kind payload) h {r = (failed, h)} (ground (arith, e, f))
            refused
      | inl f ↦
          by_end (Call.enqueue tenant kind payload) h {r = (answered (is_ok pushed.0), pushed.1)}
            (ground (arith, e, f)) (ended (is_ok pushed.0) e)
    ]
  ]
    where
      pushed : Result JobId × Harness
      pushed =
          let p = first_push h tenant kind payload in
          (end_enqueue p (push p), record h { counter = p.work.work_id })

      ended :
          (b : Bool)
          → h.started ≡ true
          → Allowed (view h) (Call.enqueue tenant kind payload) (answered b) (view h)
      ended true e = submitted (ground (arith, e))
      ended false e = refused

  stop_allowed :
      (h : Harness)
      → let r = perform adapter Call.stop h in Allowed (view h) Call.stop r.0 (view r.1)
  unfolding perform stop
  stop_allowed h = elim (Bool-cases h.started) [
    | inr e ↦
        by_end Call.stop h {r = (done, record h { started = false })} (ground (arith, e))
          (by_view h (record h { started = false }) (ground (arith, e)) (halted true))
    | inl e ↦ elim (Bool-cases h.stopping) [
      | inl f ↦
          by_end Call.stop h {r = (crashed, record h { started = false })} (ground (arith, e, f)) (
            by_view h (record h { started = false }) (ground (arith, e, f))
              (broken (ground (arith, e))))
      | inr f ↦
          by_end Call.stop h
            {r = (answered (no_error stop_error), record h { started = false; stopping = true })}
            (ground (arith, e, f))
            (by_view h (record h { started = false; stopping = true }) (ground (arith, e, f))
              (halted (no_error stop_error)))
    ]
  ]

  -- Whatever rsqueue answers, Register, Start, Enqueue and Stop of its adapter do to the adapter's view
  -- what the contract of the operations of a run allows, and end without an error, with one or with a
  -- panic only where the contract lets them: a Stop may panic, of a harness that was started.
  pub platlib_refines :
      (c : Call) (h : Harness)
      → Allowed (view h) c (perform adapter c h).0 (view (perform adapter c h).1)
  platlib_refines (Call.register kind fn) h = register_allowed kind fn h
  platlib_refines Call.start h = start_allowed h
  platlib_refines Call.stop h = stop_allowed h
  platlib_refines (Call.enqueue tenant kind payload) h = submit_allowed tenant kind payload h
