-- ===== src/Examples/Generator.antt =====
-- A generator with two classes over a source that counts.
use mathlib.Core.List.{Memᴰ}
use native.Mathlib.Nat.{mod-lt}
use queue_benchmark.Prelude.{
  ℕ, suc, ◌+◌, ◌*◌, ◌%◌, ◌≤◌, ◌<◌, ◌≡◌, refl, List, [], ◌∷◌, Option, none, some, arith, Text,
  text_eq, bytes, ℤ, pos,
}
use queue_benchmark.Prelude.Int.{wrap_signed, two_63}
use queue_benchmark.Queue.{ok, Kind, EnqueueRequest, rate_limit, transient, permanent}
use queue_benchmark.Examples.Statistics.{hundreds}
use queue_benchmark.Workload.{
  Random, IsBounded, JobClass, Spec, Generator, new_generator, next_request,
}
use queue_benchmark.Workload.Scenarios.{steady, spec_for, default_mix}
use queue_benchmark.Workload.Scenarios.Runnable.{scenario_requests}
use queue_benchmark.Workload.Picks.{Returns}
use queue_benchmark.Workload.Payload.{IsRange, IsFitting}

-- The n-th draw is n modulo its bound; a float is 0.00 at an even draw and 0.90 at an odd one.
abbrev pub counting : Random hundreds
counting = record { Source = ℕ; float64 = λ r. (r % 2 * 90, suc r); int_n = λ n r. (r % n, suc r) }

pub counting-IsBounded : IsBounded counting
counting-IsBounded n r h = mod-lt r h

abbrev class_of : Kind → ℕ → JobClass hundreds
class_of kind n = record {
  kind = kind;
  weight = 100;
  work_millis_min = pos n;
  work_millis_max = pos (n + 5);
  payload_bytes_min = pos 0;
  payload_bytes_max = pos 2;
}

abbrev light : JobClass hundreds
light = class_of (bytes "light") 1

abbrev heavy : JobClass hundreds
heavy = class_of (bytes "heavy") 100

abbrev pub spec : Spec hundreds
spec = record {
  name = bytes "mixed";
  duration = pos 1;
  tenants = pos 2;
  tenant_skew = 50;
  enqueue_rate = pos 1;
  rate_curve = none;
  job_mix = light ∷ heavy ∷ [];
  error_injection = (transient, 10) ∷ [];
  seed = 1;
}

abbrev pub pool : List Text
pool = bytes "a" ∷ bytes "b" ∷ []

abbrev pub generator : Generator hundreds
generator = record {
  spec = spec;
  tenants = pool;
  total_weight = 200;
  err_classes = rate_limit ∷ transient ∷ permanent ∷ [];
}

generator-made : new_generator hundreds spec pool ≡ generator
unfolding new_generator
generator-made = refl

range : (n m : ℕ) → n ≤ m → m + 1 < two_63 → IsRange (pos n) (pos m) n m
range n m h l = record { low_eq = refl; high_eq = refl; ordered = h; small = l }

pub ranges :
    (c : JobClass hundreds)
    → Memᴰ c spec.job_mix
    → (wl : ℕ) × (wh : ℕ) × (bl : ℕ) × (bh : ℕ) × IsRange c.work_millis_min c.work_millis_max wl wh
      × IsRange c.payload_bytes_min c.payload_bytes_max bl bh
ranges c (Memᴰ.head e) = (
  1,
  6,
  0,
  2,
  rw e (range 1 6 (omega arith) (omega arith)),
  rw e (range 0 2 (omega arith) (omega arith)),
)
ranges c (Memᴰ.tail (Memᴰ.head e)) = (
  100,
  105,
  0,
  2,
  rw e (range 100 105 (omega arith) (omega arith)),
  rw e (range 0 2 (omega arith) (omega arith)),
)
ranges c (Memᴰ.tail (Memᴰ.tail m)) = elim m [ ]

-- A request of the heavy kind with the work time of the light class.
abbrev described : Option (EnqueueRequest × ℕ) → Option (Kind × ℤ)
described none = none
described (some (req, r)) = some (req.kind, req.payload.work_millis)

mixed_request : described (next_request counting [] generator 0) ≡ some (bytes "heavy", pos 4)
unfolding next_request wrap_signed text_eq
mixed_request = refl

abbrev steady_spec : Spec hundreds
steady_spec = record {
  name = steady;
  duration = pos 10000000000;
  tenants = pos 5;
  tenant_skew = 0;
  enqueue_rate = pos 50;
  rate_curve = none;
  job_mix = default_mix hundreds;
  error_injection = [];
  seed = 1;
}

steady_found : spec_for hundreds steady ≡ ok steady_spec
unfolding spec_for text_eq
steady_found = refl

abbrev five : List Text
five = bytes "a" ∷ bytes "b" ∷ bytes "c" ∷ bytes "d" ∷ bytes "e" ∷ []

scenario_requests_example :
    (steady_spec.name ≡ steady)
    × Returns counting
        (λ req.
          Memᴰ req.tenant_id five
          × ((c : JobClass hundreds) × Memᴰ c steady_spec.job_mix × (req.kind ≡ c.kind))
          × ((d : JobClass hundreds) × (wl : ℕ) × (wh : ℕ) × (bl : ℕ) × (bh : ℕ) × Memᴰ d
                steady_spec.job_mix
              × IsRange d.work_millis_min d.work_millis_max wl wh
              × IsRange d.payload_bytes_min d.payload_bytes_max bl bh
              × IsFitting counting
                  (new_generator hundreds steady_spec five)
                  wl
                  wh
                  bl
                  bh
                  req.payload))
        (next_request counting [] (new_generator hundreds steady_spec five))
scenario_requests_example =
    scenario_requests hundreds counting steady steady_spec [] five counting-IsBounded steady_found
      refl
