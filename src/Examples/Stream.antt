-- ===== src/Examples/Stream.antt =====
-- Three ticks of a generator, and the workers of its kinds on River.
use mathlib.Core.List.{Memᴰ}
use queue_benchmark.Prelude.{
  ℕ, ◌≡◌, refl, true, false, List, [], ◌∷◌, Option, none, some, length, bytes, text_eq, ℤ, pos, All,
  arith,
}
use queue_benchmark.Queue.{Kind, EnqueueRequest, ok}
use queue_benchmark.Queue.Contract.{find_worker}
use queue_benchmark.River
use queue_benchmark.River.Contract as RiverHarness
use queue_benchmark.River.Contract.{river_refines}
use queue_benchmark.Workload.{next_request}
use queue_benchmark.Workload.Picks.{Returns}
use queue_benchmark.Workload.Payload.{Returns-mono, next_request-in_mix}
use queue_benchmark.Workload.Scenarios.Runnable.{IsRunnable}
use queue_benchmark.Workload.Stream.{
  Turn, Sent, End, closed, tick, nothing_sent, multiplier_of, generate,
}
use queue_benchmark.Workload.Stream.Counts.{IsCount}
use queue_benchmark.Workload.Stream.Complete.{IsStream, generate-IsStream}
use queue_benchmark.Runner.{work, kinds_of}
use queue_benchmark.Runner.Lifecycle.{register_all}
use queue_benchmark.Runner.Registration.{generate-HasWorker}
use queue_benchmark.Examples.Statistics.{hundreds}
use queue_benchmark.Examples.Generator.{counting, counting-IsBounded, spec, pool, generator, ranges}
use queue_benchmark.Examples.Run.{setting, river}

-- The channel has no room at the second tick; the third one comes when the duration is over.
abbrev turns : List Turn
turns = tick (pos 0) (λ i. true) ∷ tick (pos 0) (λ i. false) ∷ tick (pos 1) (λ i. true) ∷ []

abbrev IsPooled : EnqueueRequest → Type 0
IsPooled req = Memᴰ req.tenant_id pool

next_request-IsPooled : Returns counting IsPooled (next_request counting [] generator)
next_request-IsPooled =
    Returns-mono counting _ IsPooled _ (λ req m. m.0)
      (next_request-in_mix counting counting-IsBounded [] generator (λ e. absurd (cc e))
        (λ e. absurd (cc e)) ranges)

counts : (elapsed : ℤ) → IsCount counting (multiplier_of counting none elapsed)
counts elapsed = (omega arith, omega arith)

generate-IsStream_example :
    Returns counting
      (IsStream counting IsPooled generator true turns nothing_sent)
      (generate counting [] generator true turns)
generate-IsStream_example =
    generate-IsStream counting IsPooled [] generator true turns (omega arith) (omega arith)
      next_request-IsPooled counts

-- One request is sent and one is dropped.
abbrev sizes : Option ((Sent × End) × ℕ) → Option (ℕ × ℕ × End)
sizes none = none
sizes (some ((out, end), r)) = some (length out.requests, out.dropped, end)

one_dropped : sizes (generate counting [] generator true turns 0) ≡ some (1, 1, closed)
unfolding generate next_request text_eq
one_dropped = refl

abbrev two_kinds : List Kind
two_kinds = bytes "light" ∷ bytes "heavy" ∷ []

abbrev registered : River.Harness
registered = (register_all setting (kinds_of setting spec.job_mix) river).1

all_registered : register_all setting (kinds_of setting spec.job_mix) river ≡ (none, registered)
unfolding register_all kinds_of River.register find_worker text_eq
all_registered = refl

spec-IsRunnable : IsRunnable hundreds spec
spec-IsRunnable = record {
  lasts = omega arith;
  has_tenants = omega arith;
  has_rate = omega arith;
  has_classes = λ e. absurd (cc e);
  ranges = (ranges _ (Memᴰ.head refl), (ranges _ (Memᴰ.tail (Memᴰ.head refl)), tt));
}

generate-HasWorker_example :
    Returns counting
      (λ result.
        All
          (λ req. find_worker req.kind registered.workers ≡ some (work setting))
          result.0.requests)
      (generate counting [] generator false turns)
generate-HasWorker_example =
    generate-HasWorker setting RiverHarness.view (river_refines none none (λ i. ok (pos 7)) none)
      counting [] generator turns (λ ks. ks) river registered counting-IsBounded spec-IsRunnable
      (λ e. absurd (cc e)) (omega arith) counts (λ kind ks m. m) all_registered
