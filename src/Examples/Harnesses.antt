-- ===== src/Examples/Harnesses.antt =====
-- The two adapters as harnesses.
use queue_benchmark.Prelude.{
  ◌≡◌, ◌≢◌, ◌↔◌, refl, true, [], ◌∷◌, Option, none, some, Text, bytes, text_eq, pos,
}
use queue_benchmark.Queue.{Uuid, Job, Outcome, ok, simulated, transient, permanent}
use queue_benchmark.Queue.Simulate.{is_simulated_error}
use queue_benchmark.Queue.Contract.{Allowed, Call, perform, find_worker}
use queue_benchmark.Platlib.Adapter.Contract as PlatlibHarness
use queue_benchmark.Platlib.Adapter.Contract.{platlib_refines}
use queue_benchmark.River
use queue_benchmark.River.{default_router}
use queue_benchmark.River.Contract as RiverHarness
use queue_benchmark.River.Contract.{river_refines}
use queue_benchmark.River.Work.{RiverJob, work, work_retry_iff, make_job, retry}
use queue_benchmark.River.Setup.{Connected, new_pool, new_pool_lem}
use queue_benchmark.Queue.Contract.{is_ok}
use queue_benchmark.Examples.Adapter.{cfg, idle_harness}
use queue_benchmark.Examples.Run.{river, payload}

abbrev email : Text
email = bytes "email"

abbrev enqueued : Call
enqueued = Call.enqueue (bytes "t") email payload

platlib_refines_example :
    let adapter = PlatlibHarness.adapter none (λ p. none) none in
    Allowed
      (PlatlibHarness.view idle_harness)
      enqueued
      (perform adapter enqueued idle_harness).0
      (PlatlibHarness.view (perform adapter enqueued idle_harness).1)
platlib_refines_example = platlib_refines none (λ p. none) none enqueued idle_harness

river_refines_example :
    let adapter = RiverHarness.adapter none none (λ i. ok (pos 1)) none in
    Allowed
      (RiverHarness.view river)
      Call.start
      (perform adapter Call.start river).0
      (RiverHarness.view (perform adapter Call.start river).1)
river_refines_example = river_refines none none (λ i. ok (pos 1)) none Call.start river

abbrev fails : Job → Outcome
fails job = some (simulated transient (bytes "down"))

abbrev with_email : River.Harness
with_email = record river { workers = (email, fails) ∷ []; started = true; client = true }

with_email-found : find_worker email with_email.workers ≡ some fails
unfolding find_worker text_eq
with_email-found = refl

-- The migrations fail behind the connection.
abbrev unmigrated : Connected
unmigrated = record {
  connect = none;
  migrator = none;
  migrate = some (simulated transient (bytes "down"));
}

abbrev no_options : River.Options
no_options = record { router = none; fetch_cooldown = pos 0; fetch_poll_interval = pos 0 }

new_pool_lem_example :
    let (r, pool) = new_pool unmigrated cfg no_options in
    (pool ≡ is_ok r)
    × ((pool ≡ true) ↔ (
        (is_ok (River.new cfg no_options) ≡ true)
        × (unmigrated.connect ≡ none)
        × (unmigrated.migrator ≡ none)
        × (unmigrated.migrate ≡ none)))
new_pool_lem_example = new_pool_lem unmigrated cfg no_options

abbrev river_job : RiverJob
river_job = record {
  id = pos 3;
  args = record { tenant_id = bytes "t"; kind = email; payload = payload };
  attempt = pos 1;
  created_at = 5;
}

abbrev parse_uuid : Text → Option Uuid
parse_uuid t = some t

work_retry_iff_example :
    (work parse_uuid with_email river_job ≡ retry (simulated transient (bytes "down"))) ↔ (
      (tenant : Uuid) × (parse_uuid (bytes "t") ≡ some tenant)
      × ((fn : Job → Outcome) × (find_worker email with_email.workers ≡ some fn)
          × (fn (make_job tenant river_job) ≡ some (simulated transient (bytes "down")))
          × (is_simulated_error (simulated transient (bytes "down")) ≢ some permanent)))
work_retry_iff_example =
    work_retry_iff parse_uuid with_email river_job (simulated transient (bytes "down"))
