-- ===== src/Workload/Stream.antt =====
-- The ticker loop of `Generator.Run` in internal/workload/workload.go. What the runtime decides is
-- given: which case a select takes, when the ticks come, and whether the channel has room.
pub mod Counts
pub mod Complete
use queue_benchmark.Prelude.{
  ℕ, zero, suc, ◌+◌, ◌/◌, ◌==◌, Bool, true, false, List, [], ◌∷◌, ◌++◌, Option, none, some, ℤ, pos,
  if◌then◌else◌,
}
use queue_benchmark.Prelude.Int.{pos_part, leb_ℤ, add_int64, second}
use queue_benchmark.Queue.{Uuid, EnqueueRequest}
use queue_benchmark.Analyze.Float.{Float}
use queue_benchmark.Workload.{
  Random, Spec, Generator, is_positive, Draw, and_then, value, draw_float, next_request,
}

-- What the select of the loop takes: the end of the context, or a tick, with the time since the
-- start. Behind a tick, `accepts i` tells whether the channel takes the job of turn i: with a
-- callback, where it has room at once, and without, where it has room before the context ends.
pub data Turn : Type 0 where
  done : Turn
  tick : (elapsed : ℤ) → (accepts : ℕ → Bool) → Turn

-- What the receiver has been sent, and how often the callback was called.
pub record Sent : Type 0 where
  pub requests : List EnqueueRequest
  pub dropped : ℕ

-- Whether `Run` has returned, and closed the channel.
pub data End : Type 0 where
  closed : End
  waiting : End

abbrev pub nothing_sent : Sent
nothing_sent = record { requests = []; dropped = 0 }

-- `baseInterval`, for a positive rate.
unfoldable pub base_interval : ℤ → ℕ
base_interval rate = second / pos_part rate

module _ {fl : Float} (rnd : Random fl) where
  open fl use {F, lt, sub, of_int, to_int}

  -- `mult`.
  abbrev pub multiplier_of : Option (ℤ → F) → ℤ → F
  multiplier_of none elapsed = of_int (pos 1)
  multiplier_of (some curve) elapsed = curve elapsed

  -- `frac`.
  abbrev pub fraction : F → F
  fraction mult = sub mult (of_int (to_int mult))

  -- `count`: the whole part, and one more with the probability of the fraction.
  unfoldable pub job_count : F → Draw rnd ℤ
  unfolding and_then draw_float add_int64
  job_count mult =
      let count = to_int mult in
      if is_positive fl (fraction mult)
      then and_then rnd (draw_float rnd)
          (λ x. value rnd (if lt x (fraction mult) then add_int64 count (pos 1) else count))
      else value rnd count

  -- The jobs of a tick, and whether the loop goes on behind them. `lossy` tells that there is a
  -- callback for dropped jobs.
  unfoldable pub send_jobs :
      (nil : Uuid)
      → Generator fl
      → (lossy : Bool) → (accepts : ℕ → Bool) → (i jobs : ℕ) → Sent
      → Draw rnd (Sent × Bool)
  unfolding and_then next_request
  send_jobs nil g lossy accepts i zero out = value rnd (out, true)
  send_jobs nil g lossy accepts i (suc jobs) out = and_then rnd (next_request rnd nil g) λ req.
      let taken =
        send_jobs nil g lossy accepts (suc i) jobs
          (record out { requests = out.requests ++ req ∷ [] }) in
      let skipped =
        send_jobs nil g lossy accepts (suc i) jobs (record out { dropped = suc out.dropped }) in
      if accepts i then taken else if lossy then skipped else value rnd (out, false)

  abbrev pub go_on : (Sent → Draw rnd (Sent × End)) → Sent × Bool → Draw rnd (Sent × End)
  go_on next (out, true) = next out
  go_on next (out, false) = value rnd (out, closed)

  -- The loop; without a further turn it waits.
  unfoldable pub stream :
      (nil : Uuid) → Generator fl → (lossy : Bool) → List Turn → Sent → Draw rnd (Sent × End)
  unfolding and_then job_count send_jobs
  stream nil g lossy [] out = value rnd (out, waiting)
  stream nil g lossy (done ∷ turns) out = value rnd (out, closed)
  stream nil g lossy (tick elapsed accepts ∷ turns) out =
      if leb_ℤ g.spec.duration elapsed
      then value rnd (out, closed)
      else and_then rnd (job_count (multiplier_of g.spec.rate_curve elapsed)) λ count.
        and_then rnd (send_jobs nil g lossy accepts 0 (pos_part count) out)
          (go_on (stream nil g lossy turns))

  -- `Run`: a rate that is not positive ends it at once, and time.NewTicker panics on no interval.
  unfoldable pub generate :
      (nil : Uuid) → Generator fl → (lossy : Bool) → List Turn → Draw rnd (Sent × End)
  unfolding stream base_interval
  generate nil g lossy turns =
      if leb_ℤ g.spec.enqueue_rate (pos 0)
      then value rnd (nothing_sent, closed)
      else if base_interval g.spec.enqueue_rate == 0
      then (λ r. none)
      else stream nil g lossy turns nothing_sent
