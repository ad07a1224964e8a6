-- ===== src/Examples/Commands.antt =====
-- `bench run` on River, and groups of two summaries.
use queue_benchmark.Prelude.{
  ℕ, ◌+◌, ◌^◌, ◌<◌, ◌≤◌, ◌≡◌, ◌≢◌, ◌↔◌, refl, true, false, List, [], ◌∷◌, map, Option, none, some,
  Text, bytes, text_eq, ℤ, pos, length, get_elem?, count_if, All, arith,
}
use queue_benchmark.Prelude.Int.{◌<ℤ◌}
use queue_benchmark.Queue.{EnqueueRequest, ok}
use queue_benchmark.Queue.Contract.{is_ok, find_worker, StopResult, returned}
use queue_benchmark.Examples.Statistics.{hundreds}
use queue_benchmark.Examples.Run.{payload, hundreds-IsExact}
use queue_benchmark.Prelude.Bytes.{text_lt}
use queue_benchmark.Prelude.Dict.{lookup, put}
use queue_benchmark.Metrics.{
  Event, record_event, new_recorder, kind_job_enqueued, kind_job_completed, kind_job_failed,
}
use queue_benchmark.Workload.Scenarios.{spec_for}
use queue_benchmark.Analyze.Reader.{RunSummary, empty_summary}
use queue_benchmark.Analyze.Reader.Loop.{analyze_reader}
use queue_benchmark.Analyze.Groups.{Group, group_runs, flatten_runs, run_key}
use queue_benchmark.Analyze.Groups.Partition.{group_key, has_key, group_runs_lem}
use queue_benchmark.River
use queue_benchmark.Runner.{Ended}
use queue_benchmark.Runner.Lifecycle.{run}
use queue_benchmark.Queue.Config.{validate}
use queue_benchmark.Runner.Account.{of_kind, refusal}
use queue_benchmark.Runner.Report.{read_event, IsStamped}
use queue_benchmark.Command.{
  Flags, Outside, Connections, Schedules, river_setting, prepare, cmd_run, river_lib, platlib_lib,
}
use queue_benchmark.Command.Accepts.{Connects, prepare_iff}
use queue_benchmark.River.Setup.{new_pool}
use queue_benchmark.Command.Whole.{cmd_run_report}

abbrev flags : Flags
flags = record {
  lib = bytes "river";
  scenario = bytes "steady";
  postgres_url = bytes "pg";
  results_dir = bytes "results";
  workers = pos 2;
  addressed_push = false;
  duration = pos 0;
  rate = pos 3;
  tenants = pos 0;
  backoff = false;
}

abbrev connected : Connections
connected = record {
  on_river = record { connect = none; migrator = none; migrate = none };
  on_platlib = record { connect = none; schema = none; broadcast = none; queue = none };
}

prepare_iff_example : (is_ok (prepare hundreds connected 1 (pos 9) flags) ≡ true) ↔ (
    Connects connected flags
    × (is_ok (spec_for hundreds (bytes "steady")) ≡ true)
    × (bytes "pg" ≢ [])
    × (pos 0 <ℤ pos 2))
prepare_iff_example = prepare_iff hundreds connected 1 (pos 9) flags

abbrev outside : Outside
outside = record {
  float = hundreds;
  to_text = λ u. u;
  error_text = λ e. bytes "failed";
  cancelled = λ job. false;
  made = none;
  launches = none;
  insert = λ i. ok (pos 7);
  river_stop = none;
  enforcer = none;
  push = λ p. none;
  agent_stop = none;
  connections = connected;
}

abbrev requests : List EnqueueRequest
requests = record { tenant_id = bytes "t"; kind = bytes "entity_update"; payload = payload } ∷ []

abbrev schedules : Schedules outside
schedules = record {
  on_river = record {
    started_at = pos 10;
    range = λ ks. ks;
    requests = requests;
    submitting = [];
    settled_at = pos 15;
    draining = [];
    stopping = [];
    loading = [];
    closing = [];
    outlasting = [];
    ended_at = pos 17;
  };
  on_platlib = record {
    started_at = pos 10;
    range = λ ks. ks;
    requests = requests;
    submitting = [];
    settled_at = pos 15;
    draining = [];
    stopping = [];
    loading = [];
    closing = [];
    outlasting = [];
    ended_at = pos 17;
  };
}

abbrev outcome : StopResult × List (Event hundreds) × List Ended
outcome = cmd_run outside 1 (pos 9) none none [] [] schedules flags

ended : outcome ≡ (returned none, outcome.1, [])
unfolding cmd_run text_eq spec_for new_pool River.new validate new_recorder run record_event
    River.register find_worker River.start River.stop River.enqueue
ended = refl

abbrev events : List (Event hundreds)
events = map (read_event hundreds) outcome.1

-- A line of n bytes is the n-th of the events.
abbrev decode : Text → Option (Event hundreds)
decode line = get_elem? events (length line)

abbrev lines : List Text
lines = [] ∷ bytes "a" ∷ bytes "ab" ∷ []

decoded : map decode lines ≡ map some events
unfolding read_event cmd_run text_eq spec_for new_pool River.new validate new_recorder run
    record_event River.register find_worker River.start River.stop River.enqueue
decoded = refl

stamps : All (IsStamped hundreds) outcome.1
unfolding cmd_run text_eq spec_for new_pool River.new validate new_recorder run record_event
    River.register find_worker River.start River.stop River.enqueue
stamps = (λ e. cc e, (λ e. cc e, (λ e. cc e, tt)))

short : length outcome.1 < 2 ^ 53
unfolding cmd_run text_eq spec_for new_pool River.new validate new_recorder run record_event
    River.register find_worker River.start River.stop River.enqueue
short = omega arith

cmd_run_report_example :
    let (summary, e) = analyze_reader hundreds decode (bytes "r.jsonl") lines none in
    (e ≡ none)
    × (summary.enqueued
        ≡ pos (count_if (of_kind (river_setting outside) kind_job_enqueued) outcome.1))
    × (summary.completed
        ≡ pos (count_if (of_kind (river_setting outside) kind_job_completed) outcome.1))
    × ((n : ℕ) × (summary.failed ≡ pos n)
        × (n + count_if (refusal (river_setting outside)) outcome.1
            ≡ count_if (of_kind (river_setting outside) kind_job_failed) outcome.1))
cmd_run_report_example =
    cmd_run_report outside 1 (pos 9) schedules flags outcome.1 decode (bytes "r.jsonl") lines ended
      (refl, refl, refl) (refl, refl, refl) decoded stamps hundreds-IsExact short

-- Two runs of one library and one of another.
abbrev run_of : (library : Text) → ℤ → RunSummary hundreds
run_of library n = record (empty_summary hundreds) {
  library = library;
  scenario = bytes "steady";
  enqueued = n;
}

abbrev runs : List (RunSummary hundreds)
runs = run_of river_lib (pos 1) ∷ run_of platlib_lib (pos 2) ∷ run_of river_lib (pos 3) ∷ []

group_runs_lem_example :
    (count_if
        (λ (r : RunSummary hundreds). text_eq r.library river_lib)
        (flatten_runs hundreds (group_runs hundreds runs))
      ≡ count_if (λ (r : RunSummary hundreds). text_eq r.library river_lib) runs)
    × All
        (λ g. All (λ r. run_key hundreds r ≡ group_key hundreds g) g.runs)
        (group_runs hundreds runs)
    × (count_if (has_key hundreds (bytes "river|steady")) (group_runs hundreds runs) ≤ 1)
group_runs_lem_example =
    group_runs_lem hundreds runs (λ r. text_eq r.library river_lib) (bytes "river|steady")

-- The groups are sorted, and the runs of a group are in their order.
abbrev shown : Group hundreds → Text × ℤ × List ℤ
shown g = (g.library, g.total_enqueued, map (λ (r : RunSummary hundreds). r.enqueued) g.runs)

groups :
    map shown (group_runs hundreds runs)
    ≡ (platlib_lib, pos 2, pos 2 ∷ []) ∷ (river_lib, pos 4, pos 1 ∷ pos 3 ∷ []) ∷ []
unfolding group_runs empty_summary lookup put text_eq text_lt
groups = refl
