-- ===== src/Command.antt =====
-- `cmdRun` of cmd/bench/main.go: from the flags to a run. Flag parsing and what is printed are left
-- out.
pub mod Accepts
pub mod Whole
pub mod Reporting
pub mod Main
use queue_benchmark.Prelude.{
  ℕ, Bool, true, false, ◌||◌, List, [], ◌∷◌, ◌++◌, Option, none, some, Text, bytes, text_eq, ℤ, pos,
  if◌then◌else◌, ◌*◌,
}
use queue_benchmark.Prelude.Int.{ltb_ℤ, second}
use queue_benchmark.Queue.{
  Uuid, Job, Error, Outcome, Result, ok, err, wrap, scenario_site, flags_required, unknown_library,
}
use queue_benchmark.Queue.Config.{Config}
use queue_benchmark.Analyze.Float.{Float}
use queue_benchmark.Workload.{Spec}
use queue_benchmark.Workload.Scenarios.{spec_for}
use queue_benchmark.Platlib.Adapter as Platlib
use queue_benchmark.Platlib.Adapter.{exponential_backoff}
use queue_benchmark.Platlib.Adapter.Contract as PlatlibHarness
use queue_benchmark.River
use queue_benchmark.River.Setup.{Connected, new_pool}
use queue_benchmark.Platlib.Adapter.Setup.{Made, set_up}
use queue_benchmark.River.Contract as RiverHarness
use queue_benchmark.Queue.Contract.{Harness, StopResult, returned}
use queue_benchmark.Metrics.{Event, Recorder, new_recorder, close_recorder}
use queue_benchmark.Runner
use queue_benchmark.Runner.{Setting, Ended}
use queue_benchmark.Runner.Lifecycle.{Schedule, run}
use queue_benchmark.Prelude.Bytes.{format_int}

-- The flags of `bench run`. The duration is in nanoseconds.
pub record Flags : Type 0 where
  pub lib : Text
  pub scenario : Text
  pub postgres_url : Text
  pub results_dir : Text
  pub workers : ℤ
  pub addressed_push : Bool
  pub duration : ℤ
  pub rate : ℤ
  pub tenants : ℤ
  pub backoff : Bool

-- The harness of either library.
pub data AnyHarness : Type 0 where
  river : River.Harness → AnyHarness
  platlib : Platlib.Harness → AnyHarness

abbrev pub river_lib : Text
river_lib = bytes "river"

abbrev pub platlib_lib : Text
platlib_lib = bytes "platlib"

unfoldable pub is_missing : Flags → Bool
is_missing f = text_eq f.lib [] || (text_eq f.scenario [] || text_eq f.postgres_url [])

unfoldable pub config_for : Flags → Config
config_for f = record {
  postgres_url = f.postgres_url;
  queues = (bytes "default", record { max_workers = f.workers }) ∷ [];
  max_attempts = pos 3;
  shutdown_timeout = pos (30 * second);
}

abbrev pub platlib_options : Flags → Platlib.Options
platlib_options f = record {
  default_priority = 0;
  use_addressed_push = f.addressed_push;
  backoff_fn = if f.backoff then some exponential_backoff else none;
}

abbrev pub as_river : Result River.Harness → Result AnyHarness
as_river (ok h) = ok (river h)
as_river (err e) = err e

abbrev pub as_platlib : Result Platlib.Harness → Result AnyHarness
as_platlib (ok h) = ok (platlib h)
as_platlib (err e) = err e

-- How the constructors of the adapters' connections end.
pub record Connections : Type 0 where
  pub on_river : Connected
  pub on_platlib : Made

-- The switch on the library. `counter` is the clock from which the rsqueue adapter numbers its work.
unfoldable pub make_harness : Connections → (counter : ℕ) → Flags → Result AnyHarness
unfolding config_for new_pool set_up
make_harness c counter f =
    if text_eq f.lib river_lib
    then as_river (
        (new_pool c.on_river (config_for f)
          (record { router = none; fetch_cooldown = pos 0; fetch_poll_interval = pos 0 })).0)
    else if text_eq f.lib platlib_lib
    then as_platlib (set_up c.on_platlib (config_for f) (platlib_options f) counter).0
    else err (unknown_library f.lib)

-- `fmt.Sprintf("%s-%s-%d", …)` at a Unix time.
unfoldable pub run_id_of : Flags → (unix : ℤ) → Text
run_id_of f unix = f.lib ++ bytes "-" ++ f.scenario ++ bytes "-" ++ format_int unix

module _ (fl : Float) where
  -- What a run is started with.
  pub record Prepared : Type 0 where
    pub library : Text
    pub spec : Spec fl
    pub harness : AnyHarness
    pub run_id : Text

  unfoldable pub override : Flags → Spec fl → Spec fl
  override f spec = record spec {
    duration = if ltb_ℤ (pos 0) f.duration then f.duration else spec.duration;
    enqueue_rate = if ltb_ℤ (pos 0) f.rate then f.rate else spec.enqueue_rate;
    tenants = if ltb_ℤ (pos 0) f.tenants then f.tenants else spec.tenants;
  }

  abbrev pub with_harness : Flags → (unix : ℤ) → Spec fl → Result AnyHarness → Result Prepared
  with_harness f unix spec (err e) = err e
  with_harness f unix spec (ok h) =
      ok (record { library = f.lib; spec = spec; harness = h; run_id = run_id_of f unix })

  abbrev pub with_spec :
      Connections → (counter : ℕ) (unix : ℤ) → Flags → Result (Spec fl) → Result Prepared
  with_spec c counter unix f (err e) = err (wrap scenario_site e)
  with_spec c counter unix f (ok spec) =
      with_harness f unix (override f spec) (make_harness c counter f)

  -- `cmdRun` up to the recorder.
  unfoldable pub prepare : Connections → (counter : ℕ) (unix : ℤ) → Flags → Result Prepared
  unfolding is_missing override make_harness run_id_of
  prepare c counter unix f =
      if is_missing f
      then err flags_required
      else with_spec c counter unix f (spec_for fl f.scenario)

-- What lies outside the repository: floats, texts, the context, and what River and rsqueue answer.
pub record Outside : Type 1 where
  pub float : Float
  pub to_text : Uuid → Text
  pub error_text : Error → Text
  pub cancelled : Job → Bool
  pub made : Outcome
  pub launches : Outcome
  pub insert : River.Insert → Result ℤ
  pub river_stop : Outcome
  pub enforcer : Outcome
  pub push : Platlib.PushFn
  pub agent_stop : Outcome
  pub connections : Connections

-- runner.Config with the defaults still to come.
abbrev pub run_config : (w : Setting) → Text → Spec w.float → Runner.Config w
run_config w library spec = record {
  library = library;
  spec = spec;
  enqueue_concurrency = pos 0;
  drain_timeout = pos 0;
  resource_sample_interval = pos 0;
}

module _ (o : Outside) where
  abbrev setting_of : Harness → Setting
  setting_of h = record {
    float = o.float;
    harness = h;
    to_text = o.to_text;
    error_text = o.error_text;
    cancelled = o.cancelled;
  }

  abbrev pub river_setting : Setting
  river_setting = setting_of (RiverHarness.adapter o.made o.launches o.insert o.river_stop)

  abbrev pub platlib_setting : Setting
  platlib_setting = setting_of (PlatlibHarness.adapter o.enforcer o.push o.agent_stop)

  -- What happens in a run, on either harness.
  pub record Schedules : Type 0 where
    pub on_river : Schedule river_setting
    pub on_platlib : Schedule platlib_setting

  -- How a run ends, its log, which is closed behind it, and the jobs that are then between their
  -- counter and their event.
  unfoldable pub run_harness :
      Text
      → Spec o.float
      → Schedules
      → AnyHarness
      → Recorder o.float
      → StopResult × List (Event o.float) × List Ended
  run_harness library spec sch (river h) recorder =
      let (r, s) =
        run river_setting (run_config river_setting library spec) sch.on_river h recorder in
      (r, close_recorder o.float s.recorder, s.ending)
  run_harness library spec sch (platlib h) recorder =
      let (r, s) =
        run platlib_setting (run_config platlib_setting library spec) sch.on_platlib h recorder in
      (r, close_recorder o.float s.recorder, s.ending)

  -- `cmdRun`: `old` is what the results file already holds, `outcomes` say how the writes end.
  unfoldable pub cmd_run :
      (counter : ℕ) (unix : ℤ) (mkdir_error open_error : Outcome) (old : List (Event o.float))
      (outcomes : List Outcome)
      → Schedules
      → Flags
      → StopResult × List (Event o.float) × List Ended
  unfolding prepare run_harness
  cmd_run counter unix mkdir_error open_error old outcomes sch f =
      elim (prepare o.float o.connections counter unix f) [
        | err e ↦ (returned (some e), old, [])
        | ok p ↦ elim (new_recorder o.float mkdir_error open_error p.run_id old outcomes) [
          | err e ↦ (returned (some e), old, [])
          | ok recorder ↦ run_harness p.library p.spec sch p.harness recorder
        ]
      ]
