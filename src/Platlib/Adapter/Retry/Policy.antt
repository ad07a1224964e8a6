-- ===== src/Platlib/Adapter/Retry/Policy.antt =====
-- When a job is retried, how often, and what the agent is told.
use queue_benchmark.Prelude.{
  ℕ, suc, ◌+◌, ◌≤◌, ◌<◌, ◌≡◌, refl, inl, inr, true, false, Option, none, some, arith, ℤ, pos,
  Bool-cases, Option-cases,
}
use queue_benchmark.Prelude.Int.{two_31, wrap_signed, ◌≤ℤ◌, ◌<ℤ◌, leb_ℤ, ltb_ℤ}
use queue_benchmark.Queue.{Error, Outcome}
use queue_benchmark.Platlib.Adapter.{BenchWork, Harness, Pushed, PushFn, find_worker, next_int32}
use queue_benchmark.Platlib.Adapter.Retry.{
  Services, Retry, no_retry, immediate, delayed, is_final, retried, schedule, max_attempts,
  after_worker, run_work, make_job, push_now,
}

-- A retry that is pushed at once: there is no backoff, or it gives no positive delay.
abbrev pub IsImmediate : Option (ℤ → ℤ) → Pushed → Type 0
IsImmediate none p = Unit
IsImmediate (some backoff) p = backoff p.work.attempt ≤ℤ pos 0

-- Why no retry follows a worker's return. The last is a push at once that rsqueue refuses.
pub data Ends (h : Harness) (push : PushFn) (w : BenchWork) : Outcome → Type 0 where
  succeeded : Ends h push w none
  final : (e : Error) → is_final e ≡ true → Ends h push w (some e)
  exhausted : (e : Error) → max_attempts h ≤ℤ w.attempt → Ends h push w (some e)
  refused :
      (e x : Error)
      → is_final e ≡ false
      → w.attempt <ℤ max_attempts h
      → IsImmediate h.opts.backoff_fn (retried h w)
      → push (retried h w) ≡ some x
      → Ends h push w (some e)

-- The work that a retry pushes.
abbrev pub retry_work : Retry → Option BenchWork
retry_work no_retry = none
retry_work (immediate p) = some p.work
retry_work (delayed delay p) = some p.work

-- Work that differs at most in its attempt.
pub record IsSameJob (w u : BenchWork) : Type 0 where
  pub id : u.work_id ≡ w.work_id
  pub tenant : u.tenant_id ≡ w.tenant_id
  pub kind : u.kind ≡ w.kind
  pub payload : u.payload ≡ w.payload

-- Some runs in a row, each of them on the work that the one before retried with.
pub data Runs (h : Harness) (env : Services) (w : BenchWork) : ℕ → BenchWork → Type 0 where
  first : Runs h env w 1 w
  again :
      {n : ℕ} {u t : BenchWork}
      → Runs h env w n u
      → retry_work (run_work h env u).1 ≡ some t
      → Runs h env w (suc n) t

pub next_int32_pos : (n : ℕ) → n + 1 < two_31 → next_int32 (pos n) ≡ pos (n + 1)
unfolding next_int32
next_int32_pos n h = ground arith

pub max_attempts_pos :
    (h : Harness) (m : ℕ) → h.cfg.max_attempts ≡ pos m → m < two_31 → max_attempts h ≡ pos m
unfolding max_attempts
max_attempts_pos h m e l = rw (e, wrap_signed) (ground arith)

-- A retry of some work is a retry of the work that is scheduled.
pub schedule_work :
    (backoff : Option (ℤ → ℤ)) (push : PushFn) (p : Pushed) (t : BenchWork)
    → retry_work (schedule backoff push p).1 ≡ some t
    → t ≡ p.work
unfolding schedule push_now
schedule_work none push p t e = elim (Option-cases (push p)) [
  | inl n ↦ ground arith
  | inr (x, n) ↦ absurd (ground arith)
]
schedule_work (some f) push p t e = elim (Bool-cases (ltb_ℤ (pos 0) (f p.work.attempt))) [
  | inl l ↦ ground arith
  | inr l ↦ elim (Option-cases (push p)) [
    | inl n ↦ ground arith
    | inr (x, n) ↦ absurd (ground arith)
  ]
]

module _ (h : Harness) (env : Services) where
  -- Work that is retried had attempts left, and comes back with the next one.
  after_worker_work :
      (push : PushFn) (w t : BenchWork) (o : Outcome)
      → retry_work (after_worker h push w o).1 ≡ some t
      → (w.attempt <ℤ max_attempts h) × (t ≡ record w { attempt = next_int32 w.attempt })
  unfolding after_worker retried
  after_worker_work push w t none e = absurd (cc)
  after_worker_work push w t (some x) e = elim (Bool-cases (is_final x)) [
    | inl f ↦ absurd (ground arith)
    | inr f ↦ elim (Bool-cases (leb_ℤ (max_attempts h) w.attempt)) [
      | inl l ↦ absurd (ground arith)
      | inr l ↦
          (ground arith, schedule_work h.opts.backoff_fn push (retried h w) t (rw (f, l) at e))
    ]
  ]

  run_work_work :
      (w t : BenchWork)
      → retry_work (run_work h env w).1 ≡ some t
      → (w.attempt <ℤ max_attempts h) × (t ≡ record w { attempt = next_int32 w.attempt })
  unfolding run_work
  run_work_work w t e = elim (Option-cases (env.parse_uuid w.tenant_id)) [
    | inl n ↦ absurd (ground arith)
    | inr (tenant, p) ↦ elim (Option-cases (find_worker w.kind h.workers)) [
      | inl n ↦ absurd (ground arith)
      | inr (fn, q) ↦
          ground (arith, after_worker_work env.push w t (fn (make_job env.now tenant w)))
    ]
  ]

  -- In a row of runs, each on the work that the one before retried with, that starts at attempt 1, the
  -- n-th run is attempt n of the same job, and n is at most MaxAttempts, whatever the worker does.
  -- MaxAttempts is at least 1 and below 2 ^ 31. A row that is delivered twice is two rows.
  pub Runs-bounded :
      (m : ℕ) {w : BenchWork} {n : ℕ} {u : BenchWork}
      → h.cfg.max_attempts ≡ pos m
      → 1 ≤ m
      → m < two_31
      → w.attempt ≡ pos 1
      → Runs h env w n u
      → (n ≤ m) × (u.attempt ≡ pos n) × IsSameJob w u
  Runs-bounded m e l b a first =
      (l, a, record { id = refl; tenant = refl; kind = refl; payload = refl })
  Runs-bounded m e l b a (again {n} {u} {t} runs s) =
      let (k, at, same) = Runs-bounded m e l b a runs in
      let (left, t_eq) = run_work_work u t s in
      ground (arith, k, at, same, left, t_eq, max_attempts_pos h m e b, next_int32_pos n)
