-- ===== src/Command/Reporting.antt =====
-- `cmdReport` of cmd/bench/main.go: from a directory of logs to the Markdown report.
pub mod Faithful
use queue_benchmark.Prelude.{
  ℕ, Bool, true, false, List, [], ◌∷◌, ◌++◌, Option, none, some, Text, bytes, text_eq,
  if◌then◌else◌,
}
use queue_benchmark.Queue.{Outcome, Result, ok, err, wrap, analyze_site, write_report}
use queue_benchmark.Analyze.Float.{Float}
use queue_benchmark.Analyze.Reader.{RunSummary}
use queue_benchmark.Metrics.{Event}
use queue_benchmark.Analyze.Groups.{Files, Entry, analyze_dir}
use queue_benchmark.Analyze.Tables.{newline}
use queue_benchmark.Analyze.Report.{render_markdown}

-- What the command prints, and the file that it writes, with its name.
pub record Reported : Type 0 where
  pub outcome : Outcome
  pub printed : Text
  pub file : Option (Text × Text)

-- The end of the command, from the error of os.WriteFile; a failed write may leave part of the file,
-- which is left out.
unfoldable pub write_out : (out : Text) (write_error : Outcome) → (report : Text) → Reported
write_out [] write_error report = record { outcome = none; printed = report; file = none }
write_out (c ∷ out) (some e) report = record {
  outcome = some (wrap write_report e);
  printed = [];
  file = none;
}
write_out (c ∷ out) none report = record {
  outcome = none;
  printed = bytes "report: wrote " ++ (c ∷ out) ++ newline;
  file = some (c ∷ out, report);
}

module _ (fl : Float) (fixed : (digits : ℕ) → fl.F → Text) where
  abbrev pub report_on :
      (out : Text) (write_error : Outcome) → Result (List (RunSummary fl)) → Reported
  report_on out write_error (err e) = record {
    outcome = some (wrap analyze_site e);
    printed = [];
    file = none;
  }
  report_on out write_error (ok summaries) =
      write_out out write_error (render_markdown fl fixed summaries)

  -- `cmdReport`, from what reading the directory gives, the files, and `-out`.
  unfoldable pub cmd_report :
      (decode : Text → Option (Event fl))
      → Files fl
      → Result (List Entry)
      → (out : Text) (write_error : Outcome) → Reported
  unfolding analyze_dir write_out render_markdown
  cmd_report decode files entries out write_error =
      report_on out write_error (analyze_dir fl decode files entries)
