-- ===== src/Command/Reporting/Faithful.antt =====
-- When a report is written, and what is in it.
use queue_benchmark.Prelude.{
  ℕ, ◌≡◌, refl, ◌∙◌, ◌≢◌, ◌↔◌, ◌⊎◌, inl, inr, Bool, not, List, [], ◌∷◌, map, Option, none, some,
  Text, count_if, select, All, Bool-cases,
}
use queue_benchmark.Queue.{Outcome, Error, Result, ok, err, wrap, in_file}
use queue_benchmark.Analyze.Float.{Float}
use queue_benchmark.Analyze.Reader.{RunSummary}
use queue_benchmark.Metrics.{Event}
use queue_benchmark.Analyze.Groups.{
  Files, Entry, analyze, analyze_dir, analyze_entries, is_skipped, sort_by, summary_less,
  group_runs,
}
use queue_benchmark.Analyze.Groups.Sorting.{count_if-sort_by}
use queue_benchmark.Analyze.Report.{render_markdown, sections}
use queue_benchmark.Analyze.Report.Sections.{runs_of, sections_lem}
use queue_benchmark.Command.Reporting.{write_out, cmd_report}

module _ (fl : Float) (decode : Text → Option (Event fl)) (files : Files fl) where
  -- The logs of a directory.
  abbrev pub logs : List Entry → List Entry
  logs entries = select (λ e. not (is_skipped fl e)) entries

  abbrev pub summary_of : Entry → RunSummary fl
  summary_of e = (analyze fl decode files e.name).0

  abbrev pub IsAccepted : Entry → Type 0
  IsAccepted e = (analyze fl decode files e.name).1 ≡ none

  -- Every log is accepted, or the loop ends with an error.
  abbrev AreAnalyzed : List Entry → Result (List (RunSummary fl)) → Type 0
  AreAnalyzed chosen r =
      (All IsAccepted chosen × (r ≡ ok (map summary_of chosen)))
      ⊎ ((All IsAccepted chosen → ⊥) × ((e : _) × (r ≡ err e)))

  -- One log more.
  one_more :
      (e : Entry) (o : Outcome) (chosen : List Entry) (r : Result (List (RunSummary fl)))
      → (analyze fl decode files e.name).1 ≡ o
      → AreAnalyzed chosen r
      → AreAnalyzed (e ∷ chosen) (elim o [
        | some x ↦ err (wrap (in_file e.name) x)
        | none ↦ elim r [ err x ↦ err x | ok ss ↦ ok (summary_of e ∷ ss) ]
      ])
  one_more e none chosen r a (inl (all, same)) = inl ((a, all), rw same refl)
  one_more e none chosen r a (inr (bad, (x, same))) = inr (λ all. bad all.1, (x, rw same refl))
  one_more e (some x) chosen r a h =
      inr (λ all. absurd (cc (all.0, a)), (wrap (in_file e.name) x, refl))

  analyzed :
      (entries : List Entry) → AreAnalyzed (logs entries) (analyze_entries fl decode files entries)
  unfolding analyze_entries select
  analyzed [] = inl (tt, refl)
  analyzed (e ∷ entries) = elim (Bool-cases (is_skipped fl e)) [
    | inl h ↦ rw h (analyzed entries)
    | inr h ↦ rw h (one_more e _ (logs entries) _ refl (analyzed entries))
  ]

  -- The summaries of the logs, sorted.
  abbrev pub summaries : List Entry → List (RunSummary fl)
  summaries es = sort_by (summary_less fl) (map summary_of (logs es))

  dir_accepted :
      (es : List Entry)
      → All IsAccepted (logs es)
      → analyze_dir fl decode files (ok es) ≡ ok (summaries es)
  unfolding analyze_dir
  dir_accepted es all = elim (analyzed es) [
    | inl (a, same) ↦ rw (same, analyze_dir) refl
    | inr (bad, x) ↦ absurd (bad all)
  ]

  dir_refused :
      (es : List Entry)
      → (All IsAccepted (logs es) → ⊥)
      → (e : Error) × (analyze_dir fl decode files (ok es) ≡ err e)
  unfolding analyze_dir
  dir_refused es bad = elim (analyzed es) [
    | inl (a, same) ↦ absurd (bad a)
    | inr (b, (x, same)) ↦ (x, rw (same, analyze_dir) refl)
  ]

  module _ (fixed : (digits : ℕ) → fl.F → Text) where
    written_iff :
        (out : Text) (write_error : Outcome) (report : Text)
        → ((write_out out write_error report).outcome ≡ none) ↔ ((out ≡ []) ⊎ (write_error ≡ none))
    unfolding write_out
    written_iff [] write_error report = (λ h. inl refl, λ h. refl)
    written_iff (c ∷ out) (some e) report =
        (λ h. absurd (cc h), λ h. elim h [ inl e ↦ absurd (cc e) | inr e ↦ absurd (cc e) ])
    written_iff (c ∷ out) none report = (λ h. inr refl, λ h. refl)

    IsAccepted-cases : (es : List Entry) → All IsAccepted (logs es) ⊎ (All IsAccepted (logs es) → ⊥)
    IsAccepted-cases es = elim (analyzed es) [ inl (a, same) ↦ inl a | inr (bad, x) ↦ inr bad ]

    -- On a directory that can be read, cmdReport returns no error just where every log in it, a file
    -- whose name ends in .jsonl, is analyzed without one, and the report is printed or can be written.
    pub cmd_report_iff :
        (es : List Entry) (out : Text) (write_error : Outcome)
        → ((cmd_report fl fixed decode files (ok es) out write_error).outcome ≡ none) ↔ (
            All (λ e. (analyze fl decode files e.name).1 ≡ none) (logs es)
            × ((out ≡ []) ⊎ (write_error ≡ none)))
    unfolding cmd_report
    cmd_report_iff es out write_error = elim (IsAccepted-cases es) [
      | inl all ↦ rw (dir_accepted es all) (
          let w = written_iff out write_error (render_markdown fl fixed (summaries es)) in
          (λ h. (all, w.0 h), λ h. w.1 h.1))
      | inr bad ↦
          let (e, same) = dir_refused es bad in rw same (λ h. absurd (cc h), λ h. absurd (bad h.0))
    ]

    -- Where every log of a directory is analyzed without an error, and the file can be written,
    -- cmdReport writes to it the report on one list of runs, which are the summaries of these logs:
    -- for each test on runs, as many of the list pass it as of the summaries, and as many of those in
    -- the sections of the report.
    pub cmd_report_lem :
        (es : List Entry) (out : Text)
        → All (λ e. (analyze fl decode files e.name).1 ≡ none) (logs es)
        → out ≢ []
        → (runs : List (RunSummary fl)) × ((cmd_report fl fixed decode files (ok es) out none).file
            ≡ some (out, render_markdown fl fixed runs))
          × ((p : RunSummary fl → Bool)
              → (count_if p runs ≡ count_if p (map summary_of (logs es)))
                × (count_if p (runs_of fl (sections fl (group_runs fl runs)))
                    ≡ count_if p (map summary_of (logs es))))
    unfolding cmd_report write_out
    cmd_report_lem es [] all n = absurd (n refl)
    cmd_report_lem es (c ∷ out) all n = (
      summaries es,
      rw (dir_accepted es all) refl,
      λ p.
          let kept = count_if-sort_by p (summary_less fl) (map summary_of (logs es)) in
          (kept, (sections_lem fl (summaries es) p).2 ∙ kept),
    )
