-- ===== src/Queue/Simulate/Outcomes.antt =====
-- What a simulated job ends with.
use queue_benchmark.Prelude.{
  ◌≡◌, refl, ◌≢◌, ◌⊎◌, inl, inr, Bool, true, false, [], none, some, arith, Text, text_eq,
  text_eq_iff, pos, Bool-cases,
}
use queue_benchmark.Prelude.Int.{◌<ℤ◌, ◌≤ℤ◌}
use queue_benchmark.Queue.{Error, Job, context_done, rate_limit, transient, permanent}
use queue_benchmark.Queue.Simulate.{simulated_failure, simulate, is_simulated_error}

simulated_failure_class : (class : Text) → is_simulated_error (simulated_failure class) ≡ some class
unfolding simulated_failure is_simulated_error
simulated_failure_class class =
    ground (
      arith,
      text_eq_iff class rate_limit,
      text_eq_iff class permanent,
      text_eq_iff class transient,
    )

-- A job whose payload asks for a failure fails, cancelled or not, with an error that
-- IsSimulatedError recognises as of the class asked for. Any other job succeeds, unless it has work
-- to do and the context ends first: it then fails with the context's error, which is not simulated.
pub simulate_lem :
    (cancelled : Bool) (job : Job)
    → ((job.payload.fail_with_error ≢ [])
        × ((e : Error) × (simulate cancelled job ≡ some e)
            × (is_simulated_error e ≡ some job.payload.fail_with_error)))
      ⊎ ((job.payload.fail_with_error ≡ [])
          × (simulate cancelled job ≡ some context_done)
          × (cancelled ≡ true)
          × (pos 0 <ℤ job.payload.work_millis)
          × (is_simulated_error context_done ≡ none))
      ⊎ ((job.payload.fail_with_error ≡ [])
          × (simulate cancelled job ≡ none)
          × ((cancelled ≡ false) ⊎ (job.payload.work_millis ≤ℤ pos 0)))
unfolding simulate is_simulated_error
simulate_lem cancelled job = elim (Bool-cases (text_eq job.payload.fail_with_error [])) [
  | inr e ↦ inl (
    λ h. absurd (cc (e, (text_eq_iff job.payload.fail_with_error []).1 h)),
    (
      simulated_failure job.payload.fail_with_error,
      rw e refl,
      simulated_failure_class job.payload.fail_with_error,
    ),
  )
  | inl e ↦ inr (ground (arith, e, text_eq_iff job.payload.fail_with_error []))
]
