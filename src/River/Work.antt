-- ===== src/River/Work.antt =====
-- `benchWorker.Work`: dispatch, and what River is told to do with a failed job.
use queue_benchmark.Prelude.{
  ℕ, ◌≡◌, refl, sym, ◌∙◌, ◌≢◌, ◌↔◌, inl, inr, Option, none, some, Text, text_eq, text_eq_iff, ℤ,
  if◌then◌else◌, arith, Option-cases,
}
use queue_benchmark.Prelude.Int.{wrap_signed, two_31}
use queue_benchmark.Queue.{
  Uuid, Job, Error, Outcome, ErrorClass, permanent, wrap, bad_tenant_id, no_worker, invalid_tenant,
}
use queue_benchmark.Queue.Simulate.{is_simulated_error}
use queue_benchmark.Queue.Contract.{find_worker}
use queue_benchmark.River.{Harness, BenchArgs}
use queue_benchmark.Prelude.Bytes.{format_int}

-- A job as River hands it out.
pub record RiverJob : Type 0 where
  pub id : ℤ
  pub args : BenchArgs
  pub attempt : ℤ
  pub created_at : ℕ

-- nil, an error that River retries, or one wrapped by river.JobCancel.
pub data WorkResult : Type 0 where
  done : WorkResult
  retry cancel : Error → WorkResult

unfoldable pub make_job : Uuid → RiverJob → Job
make_job tenant job = record {
  id = format_int job.id;
  tenant_id = tenant;
  kind = job.args.kind;
  payload = job.args.payload;
  attempt = wrap_signed two_31 job.attempt;
  enqueued_at = job.created_at;
}

-- The switch on the class of a simulated error.
unfoldable pub by_class : Error → Option ErrorClass → WorkResult
by_class e none = retry e
by_class e (some class) = if text_eq class permanent then cancel e else retry e

unfoldable pub after_worker : Outcome → WorkResult
unfolding by_class
after_worker none = done
after_worker (some e) = by_class e (is_simulated_error e)

unfoldable pub work : (parse_uuid : Text → Option Uuid) → Harness → RiverJob → WorkResult
unfolding make_job after_worker
work parse_uuid h job = elim (parse_uuid job.args.tenant_id) [
  | none ↦ cancel (wrap invalid_tenant bad_tenant_id)
  | some tenant ↦ elim (find_worker job.args.kind h.workers) [
    | none ↦ cancel (no_worker job.args.kind)
    | some fn ↦ after_worker (fn (make_job tenant job))
  ]
]

after_worker-retry :
    (o : Outcome) (e : Error)
    → (after_worker o ≡ retry e) ↔ ((o ≡ some e) × (is_simulated_error e ≢ some permanent))
unfolding after_worker by_class
after_worker-retry none e = ground arith
after_worker-retry (some other) e = elim (Option-cases (is_simulated_error other)) [
  | inl n ↦ ground (arith, n)
  | inr (class, q) ↦ ground (arith, q, text_eq_iff class permanent)
]

work-known :
    (parse_uuid : Text → Option Uuid) (h : Harness) (job : RiverJob) {tenant : Uuid}
    {fn : Job → Outcome}
    → parse_uuid job.args.tenant_id ≡ some tenant
    → find_worker job.args.kind h.workers ≡ some fn
    → work parse_uuid h job ≡ after_worker (fn (make_job tenant job))
unfolding work
work-known parse_uuid h job p q = rw (p, work) (rw q refl)

-- A job that is left to River has a tenant and a worker.
work-retry :
    (parse_uuid : Text → Option Uuid) (h : Harness) (job : RiverJob) (e : Error)
    → work parse_uuid h job ≡ retry e
    → (tenant : Uuid) × (fn : Job → Outcome) × (parse_uuid job.args.tenant_id ≡ some tenant)
      × (find_worker job.args.kind h.workers ≡ some fn)
unfolding work
work-retry parse_uuid h job e r = elim (Option-cases (parse_uuid job.args.tenant_id)) [
  | inl n ↦ absurd (ground (arith, n, r))
  | inr (tenant, p) ↦ elim (Option-cases (find_worker job.args.kind h.workers)) [
    | inl n ↦ absurd (ground (arith, n, p, r))
    | inr (fn, q) ↦ (tenant, fn, p, q)
  ]
]

-- A job is left to River's retries exactly when its tenant parses, its kind has a worker, and the
-- worker fails with an error that is not simulated as permanent.
pub work_retry_iff :
    (parse_uuid : Text → Option Uuid) (h : Harness) (job : RiverJob) (e : Error)
    → (work parse_uuid h job ≡ retry e) ↔ (
        (tenant : Uuid) × (parse_uuid job.args.tenant_id ≡ some tenant)
        × ((fn : Job → Outcome) × (find_worker job.args.kind h.workers ≡ some fn)
            × (fn (make_job tenant job) ≡ some e)
            × (is_simulated_error e ≢ some permanent)))
work_retry_iff parse_uuid h job e = (
  λ r.
      let (tenant, fn, p, q) = work-retry parse_uuid h job e r in
      let (fails, recoverable) =
        (after_worker-retry (fn (make_job tenant job)) e).0
          (sym (work-known parse_uuid h job p q) ∙ r) in
      (tenant, p, (fn, q, fails, recoverable)),
  λ (tenant, p, (fn, q, fails, recoverable)).
      work-known parse_uuid h job p q
      ∙ (after_worker-retry (fn (make_job tenant job)) e).1 (fails, recoverable),
)
