-- ===== src/Analyze/Report.antt =====
-- RenderMarkdown of internal/analyze/analyze.go: the report on some runs, a section per scenario.
pub mod Entries
pub mod Sections
use queue_benchmark.Prelude.{
  ℕ, Bool, true, false, List, [], ◌∷◌, ◌++◌, map, Option, none, some, Text, bytes, if◌then◌else◌,
  length,
}
use queue_benchmark.Prelude.Bytes.{format_uint, text_lt}
use queue_benchmark.Prelude.Dict.{Dict, lookup, put, get_or_zero}
use queue_benchmark.Analyze.Float.{Float}
use queue_benchmark.Analyze.Reader.{RunSummary}
use queue_benchmark.Analyze.Groups.{Group, group_runs, flatten_runs, sort_by}
use queue_benchmark.Analyze.Tables.{newline, code, group_table, error_breakdown, runs_table}
use queue_benchmark.Analyze.Fairness.{tenant_section}

-- The multiplication sign, and an em dash.
abbrev pub cross : Text
cross = 195 ∷ 151 ∷ []

abbrev pub long_dash : Text
long_dash = 226 ∷ 128 ∷ 148 ∷ []

module _ (fl : Float) where
  -- `scenarios` and `order`.
  pub record Scenarios : Type 0 where
    pub groups : Dict (List (Group fl))
    pub order : List Text

  abbrev pub groups_of : Dict (List (Group fl)) → Text → List (Group fl)
  groups_of groups scenario = get_or_zero [] (lookup scenario groups)

  abbrev pub with_order : Option (List (Group fl)) → Text → List Text → List Text
  with_order none scenario order = order ++ scenario ∷ []
  with_order (some gs) scenario order = order

  unfoldable pub add_group : Scenarios → Group fl → Scenarios
  unfolding lookup put
  add_group s g = record {
    order = with_order (lookup g.scenario s.groups) g.scenario s.order;
    groups = put g.scenario (groups_of s.groups g.scenario ++ g ∷ []) s.groups;
  }

  unfoldable pub add_groups : List (Group fl) → Scenarios → Scenarios
  unfolding add_group
  add_groups [] s = s
  add_groups (g ∷ gs) s = add_groups gs (add_group s g)

  -- The scenarios in their order, each with its groups.
  unfoldable pub sections : List (Group fl) → List (Text × List (Group fl))
  unfolding add_groups sort_by text_lt
  sections groups =
      let s = add_groups groups (record { groups = []; order = [] }) in
      map (λ scenario. (scenario, groups_of s.groups scenario)) (sort_by text_lt s.order)

module _ (fl : Float) (fixed : (digits : ℕ) → fl.F → Text) where
  -- A section of the report.
  unfoldable pub section : Text × List (Group fl) → Text
  unfolding group_table error_breakdown runs_table tenant_section flatten_runs
  section (scenario, groups) =
      bytes "## Scenario: "
      ++ code scenario
      ++ newline
      ++ newline
      ++ group_table fl fixed groups
      ++ error_breakdown fl fixed groups
      ++ runs_table fl fixed groups
      ++ tenant_section fl fixed (flatten_runs fl groups)
      ++ newline

  unfoldable pub all_sections : List (Text × List (Group fl)) → Text
  unfolding section
  all_sections [] = []
  all_sections (s ∷ ss) = section s ++ all_sections ss

  abbrev pub methodology : Text
  methodology =
      bytes "## Methodology"
      ++ newline
      ++ newline
      ++ bytes
          "Durations in milliseconds. **Values are medians across runs** where multiple runs were "
      ++ bytes
          "collected; single-run cells show the one measurement. Min/max columns show the spread "
      ++ bytes "across runs "
      ++ long_dash
      ++ bytes
          " a tight spread means the measurement is stable; a wide spread means the measurement "
      ++ bytes "itself is noisy and should be interpreted carefully."
      ++ newline
      ++ newline
      ++ bytes "Pickup latency is the time from when a job is accepted into the queue (after "
      ++ bytes "`Enqueue()` returns) to when a worker begins executing it. Work duration is the "
      ++ bytes
          "synthetic `Simulate()` wall-clock inside the worker. E2E is the total from enqueue to "
      ++ bytes "completion. The first 2s of each run is excluded from latency statistics as warmup."
      ++ newline
      ++ newline
      ++ bytes "See `docs/METHODOLOGY.md` for the full model."
      ++ newline
      ++ newline

  -- The line that counts the runs and their groups.
  abbrev pub analyzed : (runs groups : ℕ) → Text
  analyzed runs groups =
      bytes "Runs analyzed: "
      ++ format_uint runs
      ++ bytes " (across "
      ++ format_uint groups
      ++ bytes " scenario "
      ++ cross
      ++ bytes " library pairs)"
      ++ newline
      ++ newline

  abbrev pub title : Text
  title = bytes "# Queue Benchmark Results" ++ newline ++ newline

  -- `RenderMarkdown`.
  unfoldable pub render_markdown : List (RunSummary fl) → Text
  unfolding group_runs sections all_sections format_uint
  render_markdown [] = title ++ bytes "_No runs found._" ++ newline
  render_markdown (r ∷ rs) =
      let groups = group_runs fl (r ∷ rs) in
      title
      ++ analyzed (length (r ∷ rs)) (length groups)
      ++ all_sections (sections fl groups)
      ++ methodology
