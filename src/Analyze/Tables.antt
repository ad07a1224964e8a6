-- ===== src/Analyze/Tables.antt =====
-- The tables of the Markdown report: renderScenarioGroupTable, renderErrorBreakdown,
-- renderScenarioRunsTable and renderPerTenantSection of internal/analyze/analyze.go. What fmt writes
-- for a float64 with some digits behind the point is a parameter. The dashes and crosses of the
-- texts are written as their bytes in UTF-8.
pub mod Errors
use queue_benchmark.Prelude.{
  ℕ, zero, suc, ◌+◌, Bool, true, false, not, ◌&&◌, ◌||◌, List, [], ◌∷◌, ◌++◌, Option, none, some,
  Text, bytes, ℤ, pos, if◌then◌else◌, ltb, length,
}
use queue_benchmark.Prelude.Bytes.{format_uint, format_int}
use queue_benchmark.Prelude.Dict.{Dict, lookup, get_or_zero}
use queue_benchmark.Prelude.Int.{two_63, sub_ℕ, ltb_ℤ}
use queue_benchmark.Analyze.Float.{Float}
use queue_benchmark.Analyze.Stats.{LatencyStats, nought}
use queue_benchmark.Analyze.Reader.{RunSummary, TenantStats, no_latency}
use queue_benchmark.Analyze.Groups.{Group, error_totals, pick_extremes}

abbrev pub newline : Text
newline = 10 ∷ []

-- An en dash.
abbrev pub dash : Text
dash = 226 ∷ 128 ∷ 147 ∷ []

-- The cells of a row.
unfoldable pub row : List Text → Text
row [] = bytes "|" ++ newline
row (cell ∷ cells) = bytes "| " ++ cell ++ bytes " " ++ row cells

-- The line under the headings.
unfoldable pub rule : List Text → Text
rule [] = bytes "|" ++ newline
rule (cell ∷ cells) = bytes "|---" ++ rule cells

abbrev pub headed : List Text → Text
headed cells = row cells ++ rule cells

abbrev pub code : Text → Text
code t = bytes "`" ++ t ++ bytes "`"

abbrev pub bold : Text → Text
bold t = bytes "**" ++ t ++ bytes "**"

module _ (fl : Float) (fixed : (digits : ℕ) → fl.F → Text) where
  open fl use {F, lt, div, of_int}

  -- `**%.1f** (%.1f–%.1f)`.
  abbrev pub spread : (middle low high : F) → Text
  spread middle low high =
      bold (fixed 1 middle) ++ bytes " (" ++ fixed 1 low ++ dash ++ fixed 1 high ++ bytes ")"

  abbrev pub group_headings : List Text
  group_headings =
      bytes "Library"
      ∷ bytes "Runs"
      ∷ (bytes "Throughput (c/s) med (min" ++ dash ++ bytes "max)")
      ∷ bytes "Pickup p50 (med)"
      ∷ (bytes "Pickup p95 (med, min" ++ dash ++ bytes "max)")
      ∷ bytes "Pickup p99 (med)"
      ∷ bytes "Work p50"
      ∷ bytes "E2E p95"
      ∷ bytes "Goroutines (med max)"
      ∷ bytes "RSS MB (med max)"
      ∷ []

  abbrev pub group_cells : Group fl → List Text
  group_cells g =
      code g.library
      ∷ format_uint (length g.runs)
      ∷ spread g.med_throughput g.min_throughput g.max_throughput
      ∷ fixed 2 g.med_pickup_p50
      ∷ spread g.med_pickup_p95 g.min_pickup_p95 g.max_pickup_p95
      ∷ fixed 1 g.med_pickup_p99
      ∷ fixed 1 g.med_work_p50
      ∷ fixed 1 g.med_e2e_p95
      ∷ format_int g.med_max_goroutines
      ∷ fixed 1 g.med_max_rss_mb
      ∷ []

  -- A row for each element.
  unfoldable pub rows_of : {A : Type 0} → (A → List Text) → List A → Text
  unfolding row
  rows_of cells [] = []
  rows_of cells (x ∷ xs) = row (cells x) ++ rows_of cells xs

  -- `renderScenarioGroupTable`.
  unfoldable pub group_table : List (Group fl) → Text
  unfolding row rule rows_of format_uint format_int
  group_table groups = headed group_headings ++ rows_of group_cells groups ++ newline

  unfoldable pub some_positive : Dict ℕ → Bool
  some_positive [] = false
  some_positive ((class, n) ∷ rest) = ltb 0 n || some_positive rest

  unfoldable pub any_error : List (RunSummary fl) → Bool
  unfolding some_positive
  any_error [] = false
  any_error (r ∷ rs) = some_positive r.errors || any_error rs

  -- `any`.
  unfoldable pub any_errors : List (Group fl) → Bool
  unfolding any_error
  any_errors [] = false
  any_errors (g ∷ gs) = any_error g.runs || any_errors gs

  abbrev pub error_classes : List Text
  error_classes =
      bytes "rate_limit" ∷ bytes "transient" ∷ bytes "permanent" ∷ bytes "unclassified" ∷ []

  abbrev pub class_cell : Text → Group fl → Text
  class_cell class g = format_uint (get_or_zero 0 (lookup class (error_totals fl g.runs [])))

  abbrev pub error_cells : Group fl → List Text
  error_cells g =
      code g.library
      ∷ class_cell (bytes "rate_limit") g
      ∷ class_cell (bytes "transient") g
      ∷ class_cell (bytes "permanent") g
      ∷ class_cell (bytes "unclassified") g
      ∷ []

  -- `renderErrorBreakdown`.
  unfoldable pub error_breakdown : List (Group fl) → Text
  unfolding any_errors row rule rows_of format_uint lookup error_totals
  error_breakdown groups =
      if any_errors groups
      then bytes "**Error breakdown (total across runs):**"
        ++ newline
        ++ newline
        ++ headed (bytes "Library" ∷ error_classes)
        ++ rows_of error_cells groups
        ++ newline
      else []

  abbrev pub run_cells : (library : Text) → (index : ℕ) → RunSummary fl → List Text
  run_cells library index r =
      code library
      ∷ format_uint index
      ∷ format_int r.enqueued
      ∷ format_int r.completed
      ∷ format_int r.failed
      ∷ fixed 1 r.throughput_cps
      ∷ fixed 1 r.pickup_latency.p50
      ∷ fixed 1 r.pickup_latency.p95
      ∷ fixed 1 r.pickup_latency.p99
      ∷ []

  -- The runs of a group, numbered.
  unfoldable pub numbered : (library : Text) → (index : ℕ) → List (RunSummary fl) → Text
  unfolding row format_uint format_int
  numbered library index [] = []
  numbered library index (r ∷ rs) =
      row (run_cells library index r) ++ numbered library (suc index) rs

  unfoldable pub numbered_groups : List (Group fl) → Text
  unfolding numbered
  numbered_groups [] = []
  numbered_groups (g ∷ gs) = numbered g.library 1 g.runs ++ numbered_groups gs

  -- `hasMulti`.
  unfoldable pub has_multi : List (Group fl) → Bool
  has_multi [] = false
  has_multi (g ∷ gs) = ltb 1 (length g.runs) || has_multi gs

  abbrev pub run_headings : List Text
  run_headings =
      bytes "Library"
      ∷ bytes "Run"
      ∷ bytes "Enqueued"
      ∷ bytes "Completed"
      ∷ bytes "Failed"
      ∷ bytes "Throughput"
      ∷ bytes "Pickup p50"
      ∷ bytes "Pickup p95"
      ∷ bytes "Pickup p99"
      ∷ []

  -- `renderScenarioRunsTable`.
  unfoldable pub runs_table : List (Group fl) → Text
  unfolding has_multi numbered_groups row rule
  runs_table groups =
      if has_multi groups
      then bytes "<details><summary>Per-run breakdown</summary>"
        ++ newline
        ++ newline
        ++ headed run_headings
        ++ numbered_groups groups
        ++ newline
        ++ bytes "</details>"
        ++ newline
        ++ newline
      else []
