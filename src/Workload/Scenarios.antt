-- ===== src/Workload/Scenarios.antt =====
-- The built-in scenarios: internal/workload/scenarios.go.
pub mod Runnable
use queue_benchmark.Prelude.{
  ℕ, ◌*◌, Bool, true, false, ◌||◌, List, [], ◌∷◌, Option, none, some, Text, text_eq, bytes, ℤ, pos,
  if◌then◌else◌,
}
use queue_benchmark.Prelude.Int.{second}
use queue_benchmark.Queue.{Kind, Result, ok, err, Error, unknown_scenario, rate_limit}
use queue_benchmark.Analyze.Float.{Float}
use queue_benchmark.Workload.{JobClass, Spec, zero_float, burst}

abbrev pub Scenario : Type 0
Scenario = Text

abbrev pub steady : Scenario
steady = bytes "steady"

abbrev pub steady_over : Scenario
steady_over = bytes "steady_over"

abbrev pub steady_under : Scenario
steady_under = bytes "steady_under"

abbrev pub steady_balanced : Scenario
steady_balanced = bytes "steady_balanced"

abbrev pub burst_scenario : Scenario
burst_scenario = bytes "burst"

abbrev pub noisy_neighbor : Scenario
noisy_neighbor = bytes "noisy_neighbor"

abbrev pub rate_limit_pressure : Scenario
rate_limit_pressure = bytes "rate_limit_pressure"

abbrev pub noisy_neighbor_saturated : Scenario
noisy_neighbor_saturated = bytes "noisy_neighbor_saturated"

abbrev pub high_scale : Scenario
high_scale = bytes "high_scale"

abbrev pub notify_latency : Scenario
notify_latency = bytes "notify_latency"

-- `AllScenarios`.
unfoldable pub all_scenarios : List Scenario
all_scenarios =
    steady_under ∷ steady_balanced ∷ steady_over ∷ burst_scenario ∷ noisy_neighbor
    ∷ noisy_neighbor_saturated ∷ rate_limit_pressure ∷ notify_latency ∷ high_scale ∷ []

module _ (fl : Float) where
  open fl use {F, of_int, hundredths}

  unfoldable pub default_mix : List (JobClass fl)
  default_mix =
      record {
        kind = bytes "entity_update";
        weight = of_int (pos 60);
        work_millis_min = pos 5;
        work_millis_max = pos 30;
        payload_bytes_min = pos 128;
        payload_bytes_max = pos 512;
      }
      ∷ record {
        kind = bytes "tenant_snapshot";
        weight = of_int (pos 20);
        work_millis_min = pos 20;
        work_millis_max = pos 150;
        payload_bytes_min = pos 256;
        payload_bytes_max = pos 1024;
      }
      ∷ record {
        kind = bytes "entity_enrich";
        weight = of_int (pos 15);
        work_millis_min = pos 100;
        work_millis_max = pos 800;
        payload_bytes_min = pos 256;
        payload_bytes_max = pos 1024;
      }
      ∷ record {
        kind = bytes "document_process";
        weight = of_int (pos 5);
        work_millis_min = pos 1000;
        work_millis_max = pos 5000;
        payload_bytes_min = pos 1024;
        payload_bytes_max = pos 4096;
      }
      ∷ []

  -- The mix of the notify latency scenario.
  unfoldable pub notify_mix : List (JobClass fl)
  notify_mix =
      record {
        kind = bytes "entity_update";
        weight = of_int (pos 1);
        work_millis_min = pos 0;
        work_millis_max = pos 0;
        payload_bytes_min = pos 0;
        payload_bytes_max = pos 0;
      }
      ∷ []

  -- `SpecFor`.
  unfoldable pub spec_for : Scenario → Result (Spec fl)
  unfolding default_mix notify_mix
  spec_for name =
      if text_eq name steady || text_eq name steady_over
      then ok (record {
        name = name;
        duration = pos (10 * second);
        tenants = pos 5;
        tenant_skew = zero_float fl;
        enqueue_rate = pos 50;
        rate_curve = none;
        job_mix = default_mix;
        error_injection = [];
        seed = 1;
      })
      else if text_eq name steady_under
      then ok (record {
        name = name;
        duration = pos (10 * second);
        tenants = pos 5;
        tenant_skew = zero_float fl;
        enqueue_rate = pos 30;
        rate_curve = none;
        job_mix = default_mix;
        error_injection = [];
        seed = 10;
      })
      else if text_eq name steady_balanced
      then ok (record {
        name = name;
        duration = pos (10 * second);
        tenants = pos 5;
        tenant_skew = zero_float fl;
        enqueue_rate = pos 80;
        rate_curve = none;
        job_mix = default_mix;
        error_injection = [];
        seed = 11;
      })
      else if text_eq name burst_scenario
      then ok (record {
        name = name;
        duration = pos (15 * second);
        tenants = pos 5;
        tenant_skew = zero_float fl;
        enqueue_rate = pos 50;
        rate_curve = some (burst fl (pos (5 * second)) (pos (5 * second)) (of_int (pos 10)));
        job_mix = default_mix;
        error_injection = [];
        seed = 2;
      })
      else if text_eq name noisy_neighbor
      then ok (record {
        name = name;
        duration = pos (10 * second);
        tenants = pos 10;
        tenant_skew = hundredths 50;
        enqueue_rate = pos 50;
        rate_curve = none;
        job_mix = default_mix;
        error_injection = [];
        seed = 3;
      })
      else if text_eq name rate_limit_pressure
      then ok (record {
        name = name;
        duration = pos (10 * second);
        tenants = pos 5;
        tenant_skew = zero_float fl;
        enqueue_rate = pos 30;
        rate_curve = none;
        job_mix = default_mix;
        error_injection = (rate_limit, hundredths 30) ∷ [];
        seed = 4;
      })
      else if text_eq name noisy_neighbor_saturated
      then ok (record {
        name = name;
        duration = pos (10 * second);
        tenants = pos 10;
        tenant_skew = hundredths 90;
        enqueue_rate = pos 100;
        rate_curve = none;
        job_mix = default_mix;
        error_injection = [];
        seed = 12;
      })
      else if text_eq name high_scale
      then ok (record {
        name = name;
        duration = pos (15 * second);
        tenants = pos 10;
        tenant_skew = zero_float fl;
        enqueue_rate = pos 300;
        rate_curve = none;
        job_mix = default_mix;
        error_injection = [];
        seed = 13;
      })
      else if text_eq name notify_latency
      then ok (record {
        name = name;
        duration = pos (10 * second);
        tenants = pos 1;
        tenant_skew = zero_float fl;
        enqueue_rate = pos 20;
        rate_curve = none;
        job_mix = notify_mix;
        error_injection = [];
        seed = 5;
      })
      else err (unknown_scenario name)
