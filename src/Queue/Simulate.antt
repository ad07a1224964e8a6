-- ===== src/Queue/Simulate.antt =====
-- `Simulate` and `IsSimulatedError` of internal/queue/harness.go.
pub mod Outcomes
use queue_benchmark.Prelude.{Bool, Option, none, some, Text, pos, text_eq, if◌then◌else◌, bytes, []}
use queue_benchmark.Prelude.Int.{leb_ℤ}
use queue_benchmark.Queue.{
  Error, Outcome, Job, ErrorClass, rate_limit, transient, permanent, simulated, context_done, wrap,
}

-- The `switch` on the class that the payload asks for; the last branch is `default`.
unfoldable pub simulated_failure : Text → Error
simulated_failure class =
    if text_eq class rate_limit
    then simulated rate_limit (bytes "simulated rate limit")
    else if text_eq class permanent
    then simulated permanent (bytes "simulated permanent error")
    else if text_eq class transient
    then simulated transient (bytes "simulated transient error")
    else simulated class (bytes "simulated error")

-- `cancelled` says that the context ends before the timer fires.
unfoldable pub simulate : (cancelled : Bool) → Job → Outcome
unfolding simulated_failure
simulate cancelled job =
    if text_eq job.payload.fail_with_error []
    then if leb_ℤ job.payload.work_millis (pos 0)
      then none
      else if cancelled
      then some context_done
      else none
    else some (simulated_failure job.payload.fail_with_error)

-- `errors.As`: the class of the first SimulatedError in the chain of wrapped errors.
unfoldable pub is_simulated_error : Error → Option ErrorClass
is_simulated_error (simulated class msg) = some class
is_simulated_error (wrap site e) = is_simulated_error e
is_simulated_error _ = none
