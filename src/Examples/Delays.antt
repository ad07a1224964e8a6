-- ===== src/Examples/Delays.antt =====
-- A retry that is started behind the wait of a stop, and pushed behind its end.
use mathlib.Core.Path.{subst}
use queue_benchmark.Prelude.{
  ◌≡◌, ◌≤◌, ◌+◌, refl, Bool, true, [], ◌∷◌, some, none, pos, text_eq, count_if, length,
}
use queue_benchmark.Prelude.Int.{wrap_signed}
use queue_benchmark.Queue.Simulate.{is_simulated_error}
use queue_benchmark.Platlib.Adapter.{Harness, Pushed, next_int32, find_worker}
use queue_benchmark.Platlib.Adapter.Retry.{
  Services, delayed, run, run_work, after_worker, schedule, retried, max_attempts,
}
use queue_benchmark.Platlib.Adapter.Retry.Delays.{
  Phase, Delays, no_delays, is_waited, spawn, fire, Reached, Reached-once,
}
use queue_benchmark.Examples.Adapter.{failing, work, env, down}

-- Every failed attempt is retried after a while.
abbrev patient : Harness
patient = record failing { opts = record failing.opts { backoff_fn = some (λ attempt. pos 5) } }

abbrev first_attempt : Services
first_attempt = record env { decode = λ raw. some (work (pos 1)) }

abbrev second_attempt : Pushed
second_attempt = record { to_address = none; priority = 10; work = work (pos 2) }

run-delayed : (run patient first_attempt []).1 ≡ delayed (pos 5) second_attempt
unfolding run run_work after_worker schedule retried max_attempts find_worker is_simulated_error
    text_eq wrap_signed next_int32
run-delayed = refl

abbrev behind_wait : Delays
behind_wait = record no_delays { phase = Phase.waited; closed = true }

abbrev started_late : Delays
started_late = spawn (delayed (pos 5) second_attempt) behind_wait

-- The push behind the end of the stop fails, since the pool is closed.
abbrev late_delays : Delays
late_delays = fire (some down) second_attempt [] (record started_late { phase = Phase.finished })

wait_over : Reached behind_wait
wait_over = Reached.wait_ended refl refl (Reached.stop_called refl Reached.opening)

retry_started : Reached started_late
retry_started =
    subst (λ r. Reached (spawn r behind_wait)) run-delayed
      (Reached.ran patient first_attempt [] wait_over)

late_push : Reached late_delays
unfolding spawn
late_push =
    Reached.fired (some down) second_attempt [] [] refl (Reached.stop_returned refl retry_started)

Reached-once_example :
    (late_delays.group ≡ length late_delays.waiting)
    × ((test : Pushed → Bool)
        → count_if test late_delays.scheduled
          ≡ count_if test late_delays.waiting
            + count_if test late_delays.pushed
            + count_if test late_delays.lost
            + count_if test late_delays.dropped)
    × (late_delays.phase ≡ Phase.running → late_delays.dropped ≡ [])
    × (is_waited late_delays.phase ≡ true → length late_delays.waiting ≤ late_delays.late)
Reached-once_example = Reached-once late_delays late_push

-- The stop is behind its end, and the retry is lost.
late_delays-lost : late_delays.lost ≡ second_attempt ∷ []
unfolding fire spawn is_waited
late_delays-lost = refl
