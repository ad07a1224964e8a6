-- ===== src/Examples/Reports.antt =====
-- A report on a directory with one log, and the exit codes of the program.
use mathlib.Core.List.{Memᴰ}
use queue_benchmark.Prelude.{
  ℕ, ◌-◌, ◌≤◌, ◌≡◌, ◌⊎◌, ◌↔◌, refl, Bool, true, false, List, [], ◌∷◌, ◌++◌, map, Option, none, some,
  Text, bytes, text_eq, ℤ, pos, length, get_elem?, count_if, select, All, Pairs, arith,
  if◌then◌else◌,
}
use queue_benchmark.Prelude.Bytes.{text_lt, format_uint}
use queue_benchmark.Prelude.Dict.{Dict, lookup, put, get_or_zero}
use queue_benchmark.Prelude.Int.{two_63}
use queue_benchmark.Queue.{Error, Outcome, ok, flags_required}
use queue_benchmark.Metrics.{Event, kind_run_start, kind_run_end}
use queue_benchmark.Analyze.Reader.{RunSummary, TenantStats, empty_summary, no_latency}
use queue_benchmark.Analyze.Reader.Loop.{analyze_reader}
use queue_benchmark.Analyze.Groups.{
  Group, Files, Entry, group_runs, empty_group, error_totals, pick_extremes, analyze, is_skipped,
}
use queue_benchmark.Analyze.Groups.Sorting.{sum_by}
use queue_benchmark.Analyze.Tables.{error_breakdown, newline, row}
use queue_benchmark.Analyze.Tables.Errors.{error_breakdown_lem}
use queue_benchmark.Analyze.Fairness.{most_enqueued, least_enqueued}
use queue_benchmark.Analyze.Fairness.Picked.{pick_extremes_lem}
use queue_benchmark.Analyze.Report.{sections, render_markdown}
use queue_benchmark.Analyze.Report.Sections.{sections_lem, runs_of}
use queue_benchmark.Command.Reporting.{cmd_report}
use queue_benchmark.Command.Reporting.Faithful.{logs, summary_of, cmd_report_iff, cmd_report_lem}
use queue_benchmark.Command.Main.{Ending, ended, Decides, main, main_exit}
use queue_benchmark.Examples.Statistics.{hundreds}

-- A run of a library in a scenario with a failure.
abbrev run_of : (library scenario : Text) → RunSummary hundreds
run_of library scenario = record (empty_summary hundreds) {
  library = library;
  scenario = scenario;
  errors = (bytes "transient", 2) ∷ [];
}

abbrev runs : List (RunSummary hundreds)
runs =
    run_of (bytes "river") (bytes "steady")
    ∷ run_of (bytes "river") (bytes "burst")
    ∷ run_of (bytes "platlib") (bytes "steady")
    ∷ []

abbrev on_river : RunSummary hundreds → Bool
on_river r = text_eq r.library (bytes "river")

sections_lem_example :
    let ss = sections hundreds (group_runs hundreds runs) in
    Pairs (λ s t. text_lt s.0 t.0 ≡ true) ss
    × All (λ s. All (λ g. g.scenario ≡ s.0) s.1) ss
    × (count_if on_river (runs_of hundreds ss) ≡ count_if on_river runs)
sections_lem_example = sections_lem hundreds runs on_river

-- Numbers are shown without their digits behind the point.
abbrev fixed : ℕ → ℕ → Text
fixed digits x = format_uint x

abbrev group : Group hundreds
group = record (empty_group hundreds (bytes "river") (bytes "steady")) { runs = runs }

error_breakdown_lem_example :
    ((error_breakdown hundreds fixed (group ∷ []) ≡ [])
      ↔ All (λ (h : Group hundreds). All (λ r. All (λ e. e.1 ≡ 0) r.errors) h.runs) (group ∷ []))
    × (get_or_zero 0 (lookup (bytes "transient") (error_totals hundreds runs []))
        ≡ sum_by
            (λ (r : RunSummary hundreds).
              sum_by (λ e. if text_eq e.0 (bytes "transient") then e.1 else 0) r.errors)
            runs)
error_breakdown_lem_example =
    error_breakdown_lem hundreds fixed (group ∷ []) group (bytes "transient")

two_cells : row (bytes "a" ∷ bytes "b" ∷ []) ≡ bytes "| a | b |" ++ newline
unfolding row
two_cells = refl

six_transient : get_or_zero 0 (lookup (bytes "transient") (error_totals hundreds runs [])) ≡ 6
unfolding lookup error_totals put text_eq
six_transient = refl

no_runs :
    render_markdown hundreds fixed []
    ≡ bytes "# Queue Benchmark Results" ++ newline ++ newline ++ bytes "_No runs found._" ++ newline
unfolding render_markdown
no_runs = refl

abbrev tenant : ℕ → TenantStats hundreds
tenant n = record { enqueued = n; completed = 0; pickup_latency = no_latency hundreds }

abbrev tenants : Dict (TenantStats hundreds)
tenants = (bytes "a", tenant 3) ∷ (bytes "b", tenant 9) ∷ (bytes "c", tenant 4) ∷ []

pick_extremes_lem_example :
    let (noisy, quiet) = pick_extremes hundreds tenants in
    (a : TenantStats hundreds) × (b : TenantStats hundreds) × Memᴰ (noisy, a) tenants
    × Memᴰ (quiet, b) tenants
    × All (λ u. (u.1.enqueued ≤ a.enqueued) × (b.enqueued ≤ u.1.enqueued)) tenants
    × (a.enqueued ≡ most_enqueued hundreds tenants 0)
    × (b.enqueued ≡ least_enqueued hundreds tenants (two_63 - 1))
pick_extremes_lem_example =
    pick_extremes_lem hundreds (bytes "a", tenant 3)
      ((bytes "b", tenant 9) ∷ (bytes "c", tenant 4) ∷ [])
      (omega arith, (omega arith, (omega arith, tt)))

-- A log with a start and an end; other files are not read.
abbrev event_at : Text → ℤ → Event hundreds
event_at kind now = record { run_id = bytes "r"; timestamp = now; kind = kind; fields = [] }

abbrev decode : Text → Option (Event hundreds)
decode line =
    get_elem? (event_at kind_run_start (pos 10) ∷ event_at kind_run_end (pos 17) ∷ []) (length line)

abbrev files : Files hundreds
files name = ok ([] ∷ bytes "a" ∷ [], none)

abbrev directory : List Entry
directory =
    record { name = bytes "r.jsonl"; is_dir = false }
    ∷ record { name = bytes "notes.txt"; is_dir = false }
    ∷ []

abbrev no_error : Outcome
no_error = none

directory-accepted :
    All
      (λ e. (analyze hundreds decode files e.name).1 ≡ none)
      (logs hundreds decode files directory)
unfolding analyze select is_skipped analyze_reader
directory-accepted = (refl, tt)

cmd_report_iff_example :
    ((cmd_report hundreds fixed decode files (ok directory) (bytes "out") none).outcome ≡ none) ↔ (
      All
        (λ e. (analyze hundreds decode files e.name).1 ≡ none)
        (logs hundreds decode files directory)
      × ((bytes "out" ≡ []) ⊎ (no_error ≡ none)))
cmd_report_iff_example = cmd_report_iff hundreds decode files fixed directory (bytes "out") none

cmd_report_lem_example :
    (rs : List (RunSummary hundreds)) × ((cmd_report hundreds fixed decode files
        (ok directory)
        (bytes "out")
        none).file
      ≡ some (bytes "out", render_markdown hundreds fixed rs))
    × ((p : RunSummary hundreds → Bool)
        → (count_if p rs
            ≡ count_if p
                (map (summary_of hundreds decode files) (logs hundreds decode files directory)))
          × (count_if p (runs_of hundreds (sections hundreds (group_runs hundreds rs)))
              ≡ count_if p
                  (map (summary_of hundreds decode files) (logs hundreds decode files directory))))
cmd_report_lem_example =
    cmd_report_lem hundreds decode files fixed directory (bytes "out") directory-accepted
      (λ e. absurd (cc e))

abbrev fails : List Text → Ending
fails args = ended (some flags_required)

abbrev shown : Error → Text
shown e = bytes "failed"

main_exit_example :
    ((main shown (λ t. t) fails fails (bytes "report" ∷ [])).exit_code ≡ 1)
    ↔ Decides fails fails (bytes "report" ∷ []) 1
main_exit_example = main_exit shown (λ t. t) fails fails (bytes "report" ∷ []) 1
