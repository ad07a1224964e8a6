-- ===== src/Command/Whole.antt =====
-- `bench run` and then the analysis of what it has written.
use mathlib.Core.Path.{subst}
use queue_benchmark.Prelude.{
  ℕ, ◌+◌, ◌^◌, ◌<◌, ◌≡◌, ap, List, [], map, Option, none, some, Text, ℤ, pos, length, count_if, All,
}
use queue_benchmark.Queue.{Result, ok, err}
use queue_benchmark.Queue.Contract.{returned}
use queue_benchmark.Analyze.Reader.Loop.{analyze_reader}
use queue_benchmark.Metrics.{
  Event, new_recorder, kind_job_enqueued, kind_job_completed, kind_job_failed,
}
use queue_benchmark.Workload.{Spec}
use queue_benchmark.Runner.{Setting, Run}
use queue_benchmark.Runner.Lifecycle.{Schedule, run}
use queue_benchmark.Runner
use queue_benchmark.Runner.Account.{of_kind, refusal}
use queue_benchmark.Runner.Whole.{fresh}
use queue_benchmark.Runner.Report.{IsExact, IsStamped, read_event, IsQuiet, Tells, log_report}
use queue_benchmark.Command.{
  Flags, AnyHarness, river, platlib, Outside, Schedules, Prepared, prepare, river_setting,
  platlib_setting, run_config, run_harness, cmd_run,
}

abbrev Told :
    (w : Setting) (decode : Text → Option (Event w.float)) (filename : Text) (lines : List Text)
    → List (Event w.float)
    → Type 0
Told w decode filename lines log =
    map decode lines ≡ map some (map (read_event w.float) log)
    → All (IsStamped w.float) log
    → length log < 2 ^ 53
    → Tells w (analyze_reader w.float decode filename lines none) log

run-Tells :
    (w : Setting) (cfg : Runner.Config w) (sch : Schedule w) (h : w.harness.State) (run_id : Text)
    (decode : Text → Option (Event w.float)) (filename : Text) (lines : List Text)
    (log : List (Event w.float))
    → (run w cfg sch h (fresh w run_id)).0 ≡ returned none
    → (run w cfg sch h (fresh w run_id)).1.recorder.written ≡ log
    → (run w cfg sch h (fresh w run_id)).1.ending ≡ []
    → IsQuiet w sch
    → map decode lines ≡ map some (map (read_event w.float) log)
    → All (IsStamped w.float) log
    → IsExact w.float
    → length log < 2 ^ 53
    → Tells w (analyze_reader w.float decode filename lines none) log
run-Tells w cfg sch h run_id decode filename lines log r e left quiet d stamps exact short =
    let ran = run w cfg sch h (fresh w run_id) in
    subst (Told w decode filename lines) e
      (λ d stamps short.
        log_report w cfg sch h run_id ran.1 decode filename lines (ap (λ x. (x, ran.1)) r) quiet
          left d stamps exact short)
      d stamps short

module _ (o : Outside) where
  -- `bench run` that returns no error, into a file that it creates and with every write succeeding,
  -- leaves a log that is analyzed without an error: the summary counts the jobs enqueued and completed
  -- in the log, and its failures are those in the log less the requests that the harness refused. No
  -- worker outlives the stop: when the counters are loaded, no job is between its counter and its
  -- event, and no goroutine takes a step behind that. The file is read back as encoding/json has written it, no reading of the clock is the zero time, and
  -- the log has fewer than 2 ^ 53 events, up to which a float64 is exact.
  pub cmd_run_report :
      (counter : ℕ) (unix : ℤ) (sch : Schedules o) (f : Flags) (log : List (Event o.float))
      (decode : Text → Option (Event o.float)) (filename : Text) (lines : List Text)
      → cmd_run o counter unix none none [] [] sch f ≡ (returned none, log, [])
      → IsQuiet (river_setting o) sch.on_river
      → IsQuiet (platlib_setting o) sch.on_platlib
      → map decode lines ≡ map some (map (read_event o.float) log)
      → All (IsStamped o.float) log
      → IsExact o.float
      → length log < 2 ^ 53
      → let (summary, e) = analyze_reader o.float decode filename lines none in
        (e ≡ none)
        × (summary.enqueued ≡ pos (count_if (of_kind (river_setting o) kind_job_enqueued) log))
        × (summary.completed ≡ pos (count_if (of_kind (river_setting o) kind_job_completed) log))
        × ((n : ℕ) × (summary.failed ≡ pos n)
            × (n + count_if (refusal (river_setting o)) log
                ≡ count_if (of_kind (river_setting o) kind_job_failed) log))
  unfolding cmd_run new_recorder run_harness
  cmd_run_report counter unix sch f log decode filename lines h river_quiet platlib_quiet d stamps
        exact short =
      by_preparation (prepare o.float o.connections counter unix f) h
    where
      by_harness :
          (library run_id : Text) (spec : Spec o.float) (any : AnyHarness)
          → run_harness o library spec sch any (fresh (river_setting o) run_id)
            ≡ (returned none, log, [])
          → Tells (river_setting o) (analyze_reader o.float decode filename lines none) log
      by_harness library run_id spec (river r) e =
          run-Tells (river_setting o) (run_config (river_setting o) library spec) sch.on_river r
            run_id decode filename lines log (ap (λ p. p.0) e) (ap (λ p. p.1) e) (ap (λ p. p.2) e)
            river_quiet d stamps exact short
      by_harness library run_id spec (platlib r) e =
          run-Tells (platlib_setting o) (run_config (platlib_setting o) library spec) sch.on_platlib
            r run_id decode filename lines log (ap (λ p. p.0) e) (ap (λ p. p.1) e) (ap (λ p. p.2) e)
            platlib_quiet d stamps exact short

      by_preparation :
          (p : Result (Prepared o.float))
          → (elim p [
            | err e ↦ (returned (some e), [], [])
            | ok q ↦ run_harness o q.library q.spec sch q.harness (fresh (river_setting o) q.run_id)
          ])
            ≡ (returned none, log, [])
          → Tells (river_setting o) (analyze_reader o.float decode filename lines none) log
      by_preparation (err e) h = absurd (cc (ap (λ p. p.0) h))
      by_preparation (ok q) h = by_harness q.library q.run_id q.spec q.harness h
