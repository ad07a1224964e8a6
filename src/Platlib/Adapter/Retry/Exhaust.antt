-- ===== src/Platlib/Adapter/Retry/Exhaust.antt =====
-- A job that keeps failing: all its attempts, and what the agent is told of them.
use queue_benchmark.Prelude.Int.{two_31}
use queue_benchmark.Prelude.{
  ℕ, zero, suc, ◌+◌, ◌<◌, ◌≡◌, refl, ap, ◌∙◌, false, List, [], ◌∷◌, ◌++◌, Option, none, some, arith,
  Text, ℤ, pos,
}
use queue_benchmark.Queue.{Uuid, Job, Error, Outcome}
use queue_benchmark.Platlib.Adapter.{BenchWork, Harness, Pushed, find_worker}
use queue_benchmark.Platlib.Adapter.Retry.{
  Services, no_retry, is_final, retried, push_now, schedule, after_worker, run_work, make_job,
}
use queue_benchmark.Platlib.Adapter.Retry.Policy.{retry_work, next_int32_pos, max_attempts_pos}

-- The outcomes that the agent is told, run after run, while the harness is up and each retry is
-- delivered.
unfoldable pub drive : ℕ → Harness → Services → BenchWork → List Outcome
drive zero h env w = []
drive (suc fuel) h env w =
    let (o, r) = run_work h env w in
    o ∷ elim (retry_work r) [ none ↦ [] | some t ↦ drive fuel h env t ]

abbrev pub replicate : ℕ → Outcome → List Outcome
replicate zero o = []
replicate (suc n) o = o ∷ replicate n o

module _ (h : Harness) (env : Services) (kind : Text) (tenant_id : Text) (tenant : Uuid)
    (failure : Job → Error) (m : ℕ)
    (known : find_worker kind h.workers ≡ some (λ job. some (failure job)))
    (parses : env.parse_uuid tenant_id ≡ some tenant)
    (recoverable : (job : Job) → is_final (failure job) ≡ false)
    (accepted : (p : Pushed) → env.push p ≡ none) (budget : h.cfg.max_attempts ≡ pos m)
    (small : m < two_31) where
  schedule_accepted :
      (backoff : Option (ℤ → ℤ)) (p : Pushed) → (schedule backoff env.push p).0 ≡ none
  unfolding schedule push_now
  schedule_accepted none p = rw (accepted p, push_now)
  schedule_accepted (some f) p = ground (arith, accepted p)

  -- A retry of a push that is accepted.
  schedule_accepted_work :
      (backoff : Option (ℤ → ℤ)) (p : Pushed)
      → retry_work (schedule backoff env.push p).1 ≡ some p.work
  unfolding schedule push_now
  schedule_accepted_work none p = ground (arith, accepted p)
  schedule_accepted_work (some f) p = ground (arith, accepted p)

  run_fails :
      (w : BenchWork)
      → w.kind ≡ kind
      → w.tenant_id ≡ tenant_id
      → run_work h env w ≡ after_worker h env.push w (some (failure (make_job env.now tenant w)))
  unfolding run_work
  run_fails w k t =
      rw (ap env.parse_uuid t ∙ parses, run_work)
        (rw (ap (λ x. find_worker x h.workers) k ∙ known) refl)

  -- One failing run with attempts left is reported as a success and retried.
  run_retries :
      (w : BenchWork) (n : ℕ)
      → w.kind ≡ kind
      → w.tenant_id ≡ tenant_id
      → w.attempt ≡ pos n
      → n < m
      → ((run_work h env w).0 ≡ none)
        × (retry_work (run_work h env w).1 ≡ some (record w { attempt = pos (n + 1) }))
  unfolding after_worker retried
  run_retries w n k t a l =
      rw (run_fails w k t, recoverable (make_job env.now tenant w))
        (ground (
          arith,
          max_attempts_pos h m budget small,
          next_int32_pos n,
          schedule_accepted h.opts.backoff_fn (retried h w),
          schedule_accepted_work h.opts.backoff_fn (retried h w),
        ))

  -- The last failing run is reported.
  run_gives_up :
      (w : BenchWork)
      → w.kind ≡ kind
      → w.tenant_id ≡ tenant_id
      → w.attempt ≡ pos m
      → run_work h env w ≡ (some (failure (make_job env.now tenant w)), no_retry)
  unfolding after_worker
  run_gives_up w k t a =
      rw (run_fails w k t, recoverable (make_job env.now tenant w))
        (ground (arith, max_attempts_pos h m budget small))

  -- A job of a registered kind, whose tenant id parses and whose worker always fails, and never with a
  -- simulated permanent error, while rsqueue accepts every push and each retry, delayed or not, is
  -- delivered once: it is run on each of the attempts that are left up to MaxAttempts, which is below
  -- 2 ^ 31, and no more. The agent is told of a success d times and of the failure once, at the end.
  pub drive_exhausts :
      (d fuel : ℕ) (w : BenchWork) (n : ℕ)
      → w.kind ≡ kind
      → w.tenant_id ≡ tenant_id
      → w.attempt ≡ pos n
      → n + d ≡ m
      → d < fuel
      → drive fuel h env w
        ≡ replicate d none
          ++ some (failure (make_job env.now tenant (record w { attempt = pos m }))) ∷ []
  unfolding drive
  drive_exhausts d zero w n k t a s f = absurd (omega arith)
  drive_exhausts zero (suc fuel) w n k t a s f =
      let at : w.attempt ≡ pos m = a ∙ ap pos (omega arith) in
      rw (run_gives_up w k t at)
        (ap (λ x. some (failure (make_job env.now tenant (record w { attempt = x }))) ∷ []) at)
  drive_exhausts (suc d) (suc fuel) w n k t a s f =
      let (told, next) = run_retries w n k t a (omega arith) in
      rw (told, next)
        (ap (◌∷◌ none) (
          drive_exhausts d fuel (record w { attempt = pos (n + 1) }) (n + 1) k t refl (omega arith)
            (omega arith)))
