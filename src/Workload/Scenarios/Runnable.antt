-- ===== src/Workload/Scenarios/Runnable.antt =====
-- Every built-in scenario can be run.
use mathlib.Core.List.{Memᴰ}
use queue_benchmark.Prelude.{
  ℕ, ◌+◌, ◌≤◌, ◌<◌, ◌≡◌, refl, ◌≢◌, ◌||◌, List, [], ◌∷◌, text_eq, pos, length, All, All-at,
  Bool-cases, inl, inr, arith,
}
use queue_benchmark.Prelude.Int.{◌<ℤ◌, two_63}
use queue_benchmark.Queue.{Uuid, Result, ok, err, unknown_scenario}
use queue_benchmark.Analyze.Float.{Float}
use queue_benchmark.Workload.{JobClass, Spec, Random, IsBounded, new_generator, next_request}
use queue_benchmark.Workload.Picks.{Returns}
use queue_benchmark.Workload.Payload.{IsRange, IsFitting, next_request-in_mix}
use queue_benchmark.Workload.Scenarios.{
  steady, steady_over, steady_under, steady_balanced, burst_scenario, noisy_neighbor,
  rate_limit_pressure, noisy_neighbor_saturated, high_scale, notify_latency, Scenario, default_mix,
  notify_mix, spec_for, all_scenarios,
}

module _ (fl : Float) where
  -- The ranges of a class are natural numbers in order.
  abbrev pub HasRanges : JobClass fl → Type 0
  HasRanges c =
      (wl : ℕ) × (wh : ℕ) × (bl : ℕ) × (bh : ℕ) × IsRange c.work_millis_min c.work_millis_max wl wh
      × IsRange c.payload_bytes_min c.payload_bytes_max bl bh

  -- What the runner and the generator need of a workload.
  pub record IsRunnable (spec : Spec fl) : Type 0 where
    pub lasts : pos 0 <ℤ spec.duration
    pub has_tenants : pos 0 <ℤ spec.tenants
    pub has_rate : pos 0 <ℤ spec.enqueue_rate
    pub has_classes : spec.job_mix ≢ []
    pub ranges : All HasRanges spec.job_mix

  some_tenants : (tenants : List Uuid) → 0 < length tenants → tenants ≢ []
  some_tenants [] h e = absurd (omega (arith, h))
  some_tenants (t ∷ ts) h e = absurd (cc e)

  range : (n m : ℕ) → n ≤ m → m + 1 < two_63 → IsRange (pos n) (pos m) n m
  range n m h l = record { low_eq = refl; high_eq = refl; ordered = h; small = l }

  default_mix-HasRanges : All HasRanges (default_mix fl)
  unfolding default_mix
  default_mix-HasRanges = (
    (
      5,
      30,
      128,
      512,
      range 5 30 (omega arith) (omega arith),
      range 128 512 (omega arith) (omega arith),
    ),
    (
      (
        20,
        150,
        256,
        1024,
        range 20 150 (omega arith) (omega arith),
        range 256 1024 (omega arith) (omega arith),
      ),
      (
        (
          100,
          800,
          256,
          1024,
          range 100 800 (omega arith) (omega arith),
          range 256 1024 (omega arith) (omega arith),
        ),
        (
          (
            1000,
            5000,
            1024,
            4096,
            range 1000 5000 (omega arith) (omega arith),
            range 1024 4096 (omega arith) (omega arith),
          ),
          tt,
        ),
      ),
    ),
  )

  notify_mix-HasRanges : All HasRanges (notify_mix fl)
  unfolding notify_mix
  notify_mix-HasRanges = (
    (0, 0, 0, 0, range 0 0 (omega arith) (omega arith), range 0 0 (omega arith) (omega arith)),
    tt,
  )

  -- What SpecFor may return.
  pub data Returned (name : Scenario) : Result (Spec fl) → Type 0 where
    known : (spec : Spec fl) → IsRunnable spec → spec.name ≡ name → Returned name (ok spec)
    unknown : Returned name (err (unknown_scenario name))

  known_runs :
      (name : Scenario) (spec : Spec fl)
      → Returned name (ok spec)
      → IsRunnable spec × (spec.name ≡ name)
  known_runs name spec (known _ r n) = (r, n)

  IsRunnable-default :
      (spec : Spec fl)
      → pos 0 <ℤ spec.duration
      → pos 0 <ℤ spec.tenants
      → pos 0 <ℤ spec.enqueue_rate
      → spec.job_mix ≡ default_mix fl
      → IsRunnable spec
  IsRunnable-default spec a b c e = record {
    lasts = a;
    has_tenants = b;
    has_rate = c;
    has_classes = λ n. unfold default_mix in absurd (cc (e, n));
    ranges = rw e default_mix-HasRanges;
  }

  notify-IsRunnable :
      (spec : Spec fl)
      → pos 0 <ℤ spec.duration
      → pos 0 <ℤ spec.tenants
      → pos 0 <ℤ spec.enqueue_rate
      → spec.job_mix ≡ notify_mix fl
      → IsRunnable spec
  notify-IsRunnable spec a b c e = record {
    lasts = a;
    has_tenants = b;
    has_rate = c;
    has_classes = λ n. unfold notify_mix in absurd (cc (e, n));
    ranges = rw e notify_mix-HasRanges;
  }

  spec_for-returns : (name : Scenario) → Returned name (spec_for fl name)
  unfolding spec_for
  spec_for-returns name = elim (Bool-cases (text_eq name steady || text_eq name steady_over)) [
    | inl e ↦
        rw e (known _ (IsRunnable-default _ (omega arith) (omega arith) (omega arith) refl) refl)
    | inr e ↦ rw e (elim (Bool-cases (text_eq name steady_under)) [
      | inl e ↦
          rw e (known _ (IsRunnable-default _ (omega arith) (omega arith) (omega arith) refl) refl)
      | inr e ↦ rw e (elim (Bool-cases (text_eq name steady_balanced)) [
        | inl e ↦
            rw e
              (known _ (IsRunnable-default _ (omega arith) (omega arith) (omega arith) refl) refl)
        | inr e ↦ rw e (elim (Bool-cases (text_eq name burst_scenario)) [
          | inl e ↦
              rw e
                (known _ (IsRunnable-default _ (omega arith) (omega arith) (omega arith) refl) refl)
          | inr e ↦ rw e (elim (Bool-cases (text_eq name noisy_neighbor)) [
            | inl e ↦
                rw e (
                  known _ (IsRunnable-default _ (omega arith) (omega arith) (omega arith) refl)
                    refl)
            | inr e ↦ rw e (elim (Bool-cases (text_eq name rate_limit_pressure)) [
              | inl e ↦ rw e (
                  known _ (IsRunnable-default _ (omega arith) (omega arith) (omega arith) refl)
                    refl)
              | inr e ↦ rw e (elim (Bool-cases (text_eq name noisy_neighbor_saturated)) [
                | inl e ↦ rw e (
                    known _ (IsRunnable-default _ (omega arith) (omega arith) (omega arith) refl)
                      refl)
                | inr e ↦ rw e (elim (Bool-cases (text_eq name high_scale)) [
                  | inl e ↦ rw e (
                      known _ (IsRunnable-default _ (omega arith) (omega arith) (omega arith) refl)
                        refl)
                  | inr e ↦ rw e (elim (Bool-cases (text_eq name notify_latency)) [
                    | inl e ↦ rw e (
                        known _ (notify-IsRunnable _ (omega arith) (omega arith) (omega arith) refl)
                          refl)
                    | inr e ↦ rw e (unknown)
                  ])
                ])
              ])
            ])
          ])
        ])
      ])
    ])
  ]

  -- From the spec of any scenario that SpecFor knows, which carries the scenario's name, and as many
  -- tenants as the spec asks for, a generator never panics on a request: its tenant is one of them,
  -- its kind that of a class of the mix, and its payload fits a class of the mix.
  pub scenario_requests :
      (rnd : Random fl) (name : Scenario) (spec : Spec fl) (nil : Uuid) (tenants : List Uuid)
      → IsBounded rnd
      → spec_for fl name ≡ ok spec
      → pos (length tenants) ≡ spec.tenants
      → (spec.name ≡ name)
        × Returns rnd
            (λ req.
              Memᴰ req.tenant_id tenants
              × ((c : JobClass fl) × Memᴰ c spec.job_mix × (req.kind ≡ c.kind))
              × ((d : JobClass fl) × (wl : ℕ) × (wh : ℕ) × (bl : ℕ) × (bh : ℕ) × Memᴰ d spec.job_mix
                  × IsRange d.work_millis_min d.work_millis_max wl wh
                  × IsRange d.payload_bytes_min d.payload_bytes_max bl bh
                  × IsFitting rnd (new_generator fl spec tenants) wl wh bl bh req.payload))
            (next_request rnd nil (new_generator fl spec tenants))
  unfolding new_generator
  scenario_requests rnd name spec nil tenants bounded found made =
      let (runs, named) = known_runs name spec (rw found at (spec_for-returns name)) in
      (
        named,
        next_request-in_mix rnd bounded nil (new_generator fl spec tenants)
            (some_tenants tenants (ground (arith, made, runs.has_tenants))) runs.has_classes
            (λ c m. All-at HasRanges m runs.ranges),
      )

  -- SpecFor knows every scenario that AllScenarios lists.
  pub all_scenarios-known :
      All (λ name. (spec : Spec fl) × (spec_for fl name ≡ ok spec)) all_scenarios
  unfolding all_scenarios spec_for text_eq
  all_scenarios-known = (
    (_, refl),
    (
      (_, refl),
      ((_, refl), ((_, refl), ((_, refl), ((_, refl), ((_, refl), ((_, refl), ((_, refl), tt))))))),
    ),
  )
