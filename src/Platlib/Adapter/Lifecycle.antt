-- ===== src/Platlib/Adapter/Lifecycle.antt =====
-- The order of calls on the harness: registration, start, enqueues, stop.
use queue_benchmark.Prelude.Int.{two_64}
use queue_benchmark.Prelude.{
  ◌+◌, ◌%◌, ◌≡◌, refl, ◌≢◌, ◌↔◌, ◌⊎◌, inl, inr, true, false, [], ◌∷◌, none, some, arith, Text,
  text_eq, pos, if◌then◌else◌, Bool-cases, Option-cases,
}
use queue_benchmark.Queue.{
  Kind, JobId, JobPayload, Error, Outcome, WorkerFunc, ok, register_after_start, already_registered,
  start_twice,
}
use queue_benchmark.Platlib.Adapter.{
  Harness, find_worker, register, start, stop, returned, panicked, enqueue, PushFn, end_enqueue,
  first_push, address_of, is_known,
}

register_new :
    (kind : Kind) (fn : WorkerFunc) (h : Harness)
    → h.started ≡ false
    → find_worker kind h.workers ≡ none
    → register kind fn h ≡ (none, record h { workers = (kind, fn) ∷ h.workers })
unfolding register
register_new kind fn h s k = simp (s, k)

-- A successful registration happens before the start, of a kind that had no worker; behind it the
-- kind has that worker, every other kind what it had, and nothing else of the harness changes.
pub register_lem :
    (kind other : Kind) (fn : WorkerFunc) (h : Harness)
    → (register kind fn h).0 ≡ none
    → let h' = (register kind fn h).1 in
      (h.started ≡ false)
      × (find_worker kind h.workers ≡ none)
      × (find_worker other h'.workers
          ≡ (if text_eq kind other then some fn else find_worker other h.workers))
      × (record h' { workers = h.workers } ≡ h)
unfolding register find_worker
register_lem kind other fn h e = elim (Bool-cases h.started) [
  | inl s ↦ absurd (ground arith)
  | inr s ↦ elim (Option-cases (find_worker kind h.workers)) [
    | inr (g, k) ↦ absurd (ground arith)
    | inl k ↦ (s, k, rw (register_new kind fn h s k) refl, rw (register_new kind fn h s k) refl)
  ]
]

-- Every refused registration leaves the harness as it was; it is refused because the harness is
-- started, or because the kind has a worker, and the error says which.
pub register_refused :
    (kind : Kind) (fn : WorkerFunc) (h : Harness) {e : Error}
    → (register kind fn h).0 ≡ some e
    → ((register kind fn h).1 ≡ h)
      × (((h.started ≡ true) × (e ≡ register_after_start))
          ⊎ ((find_worker kind h.workers ≢ none) × (e ≡ already_registered kind)))
unfolding register
register_refused kind fn h e = elim (Option-cases (find_worker kind h.workers)) [
  | inl k ↦ ground arith
  | inr (g, k) ↦ ground arith
]

-- A start succeeds only on a harness that is not started and when the concurrencies are accepted;
-- the harness is then started, and a second start is refused and changes nothing.
pub start_once :
    (enforcer later : Outcome) (h : Harness)
    → (start enforcer h).0 ≡ none
    → (h.started ≡ false)
      × (enforcer ≡ none)
      × ((start enforcer h).1.started ≡ true)
      × (start later (start enforcer h).1 ≡ (some start_twice, (start enforcer h).1))
unfolding start
start_once enforcer later h e = ground arith

-- A started harness that is stopped, started and stopped again panics on the second stop, since
-- `stopCh` is closed twice.
pub stop_again :
    (a b : Outcome) (h : Harness)
    → h.started ≡ true
    → h.stopping ≡ false
    → let stopped = (stop a h).1 in
      let restarted = (start none stopped).1 in
      ((stop a h).0 ≡ returned a)
      × ((start none stopped).0 ≡ none)
      × ((stop b restarted).0 ≡ panicked)
unfolding stop start
stop_again a b h s f = ground arith

-- An enqueue succeeds exactly on a started harness, for a registered kind, when rsqueue accepts the
-- push; it then returns the address of the next work id. On a started harness and for a registered
-- kind it pushes one work, whether or not the push is accepted, and the counter is the next work id;
-- otherwise it pushes nothing and leaves the harness as it was. The work has the next work id, the
-- request's tenant, kind and payload, and attempt 1.
pub enqueue_ok_iff :
    (push : PushFn) (tenant : Text) (kind : Kind) (payload : JobPayload) (h : Harness) (id : JobId)
    → let (r, h', pushed) = enqueue push tenant kind payload h in
      let p = first_push h tenant kind payload in
      let next = (h.counter + 1) % two_64 in
      ((r ≡ ok id) ↔ (
        (h.started ≡ true)
        × (is_known (find_worker kind h.workers) ≡ true)
        × (push p ≡ none)
        × (id ≡ address_of next)))
      × (((h.started ≡ true)
            × (is_known (find_worker kind h.workers) ≡ true)
            × (pushed ≡ p ∷ [])
            × (h' ≡ record h { counter = next }))
          ⊎ (((h.started ≡ false) ⊎ (is_known (find_worker kind h.workers) ≡ false))
              × (pushed ≡ [])
              × (h' ≡ h)))
      × (p.work ≡ record {
        work_id = next;
        tenant_id = tenant;
        kind = kind;
        attempt = pos 1;
        payload = payload;
      })
unfolding enqueue first_push end_enqueue
enqueue_ok_iff push tenant kind payload h id = elim (Bool-cases h.started) [
  | inl s ↦ elim (Bool-cases (is_known (find_worker kind h.workers))) [
    | inl k ↦ ground arith
    | inr k ↦ ground arith
  ]
  | inr s ↦ ground arith
]
