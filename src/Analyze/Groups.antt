-- ===== src/Analyze/Groups.antt =====
-- The summaries of a directory and their groups: AnalyzeDir, GroupRuns, populateGroupStats,
-- flattenRuns, the totals of renderErrorBreakdown and pickExtremes of internal/analyze/analyze.go.
pub mod Sorting
pub mod Partition
use queue_benchmark.Prelude.{
  ℕ, zero, suc, ◌+◌, ◌-◌, ◌<◌, Bool, true, false, not, ◌&&◌, ◌||◌, List, [], ◌∷◌, ◌++◌, map, Option,
  none, some, Text, bytes, text_eq, ℤ, pos, negsuc, if◌then◌else◌, ltb,
}
use queue_benchmark.Prelude.Bytes.{text_lt}
use queue_benchmark.Prelude.Dict.{Dict, lookup, put, get_or_zero}
use queue_benchmark.Prelude.Int.{ltb_ℤ, two_63, sub_ℕ, add_int64}
use queue_benchmark.Queue.{Error, Outcome, Result, ok, err, wrap, in_file}
use queue_benchmark.Analyze.Float.{Float}
use queue_benchmark.Analyze.Stats.{LatencyStats, median, min_of, max_of, nought}
use queue_benchmark.Metrics.{Event}
use queue_benchmark.Analyze.Reader.{RunSummary, TenantStats, empty_summary}
use queue_benchmark.Analyze.Reader.Loop.{analyze_reader}

-- sort.SliceStable: an element stays before those that are not less.
unfoldable pub insert_by : {A : Type 0} → (A → A → Bool) → A → List A → List A
insert_by less x [] = x ∷ []
insert_by less x (y ∷ ys) = if less y x then y ∷ insert_by less x ys else x ∷ y ∷ ys

unfoldable pub sort_by : {A : Type 0} → (A → A → Bool) → List A → List A
unfolding insert_by
sort_by less [] = []
sort_by less (x ∷ xs) = insert_by less x (sort_by less xs)

-- A directory's entry.
pub record Entry : Type 0 where
  pub name : Text
  pub is_dir : Bool

-- `strings.HasSuffix(s, p)`.
unfoldable pub ends_with : Text → Text → Bool
unfolding text_eq
ends_with p [] = text_eq p []
ends_with p (x ∷ s) = text_eq p (x ∷ s) || ends_with p s

module _ (fl : Float) where
  open fl use {F, div, of_int, to_int}

  -- Opening a file fails, or gives its lines and what the scanner reports behind the last of them.
  abbrev pub Files : Type 0
  Files = Text → Result (List Text × Outcome)

  abbrev opened :
      (decode : Text → Option (Event fl)) (name : Text)
      → Result (List Text × Outcome)
      → RunSummary fl × Outcome
  opened decode name (err e) = (empty_summary fl, some e)
  opened decode name (ok (lines, scan_error)) = analyze_reader fl decode name lines scan_error

  -- `Analyze`, on the file with a base name.
  unfoldable pub analyze :
      (decode : Text → Option (Event fl)) → Files → (name : Text) → RunSummary fl × Outcome
  analyze decode files name = opened decode name (files name)

  unfoldable pub is_skipped : Entry → Bool
  unfolding ends_with
  is_skipped e = e.is_dir || not (ends_with (bytes ".jsonl") e.name)

  -- The loop over the entries: the first file with an error ends it.
  unfoldable pub analyze_entries :
      (decode : Text → Option (Event fl)) → Files → List Entry → Result (List (RunSummary fl))
  unfolding analyze is_skipped
  analyze_entries decode files [] = ok []
  analyze_entries decode files (e ∷ es) =
      let rest = analyze_entries decode files es in
      let (s, o) = analyze decode files e.name in
      if is_skipped e then rest else elim o [
        | some x ↦ err (wrap (in_file e.name) x)
        | none ↦ elim rest [ err x ↦ err x | ok ss ↦ ok (s ∷ ss) ]
      ]

  unfoldable pub summary_less : RunSummary fl → RunSummary fl → Bool
  summary_less a b =
      if not (text_eq a.scenario b.scenario)
      then text_lt a.scenario b.scenario
      else if not (text_eq a.library b.library)
      then text_lt a.library b.library
      else ltb_ℤ a.start_time b.start_time

  -- `AnalyzeDir`, from what reading the directory gives.
  unfoldable pub analyze_dir :
      (decode : Text → Option (Event fl))
      → Files
      → Result (List Entry)
      → Result (List (RunSummary fl))
  unfolding analyze_entries summary_less sort_by
  analyze_dir decode files (err e) = err e
  analyze_dir decode files (ok es) = elim (analyze_entries decode files es) [
    | err e ↦ err e
    | ok ss ↦ ok (sort_by summary_less ss)
  ]

  pub record Group : Type 0 where
    pub library : Text
    pub scenario : Text
    pub runs : List (RunSummary fl)
    pub med_throughput : F
    pub med_pickup_p50 : F
    pub med_pickup_p95 : F
    pub med_pickup_p99 : F
    pub med_work_p50 : F
    pub med_e2e_p95 : F
    pub min_throughput : F
    pub max_throughput : F
    pub min_pickup_p95 : F
    pub max_pickup_p95 : F
    pub med_max_goroutines : ℤ
    pub med_max_rss_mb : F
    pub total_enqueued : ℤ
    pub total_completed : ℤ
    pub total_failed : ℤ

  -- `&Group{Library: …, Scenario: …}`.
  unfoldable pub empty_group : (library scenario : Text) → Group
  empty_group library scenario = record {
    library = library;
    scenario = scenario;
    runs = [];
    med_throughput = nought fl;
    med_pickup_p50 = nought fl;
    med_pickup_p95 = nought fl;
    med_pickup_p99 = nought fl;
    med_work_p50 = nought fl;
    med_e2e_p95 = nought fl;
    min_throughput = nought fl;
    max_throughput = nought fl;
    min_pickup_p95 = nought fl;
    max_pickup_p95 = nought fl;
    med_max_goroutines = pos 0;
    med_max_rss_mb = nought fl;
    total_enqueued = pos 0;
    total_completed = pos 0;
    total_failed = pos 0;
  }

  abbrev pub key_of : (library scenario : Text) → Text
  key_of library scenario = library ++ bytes "|" ++ scenario

  abbrev pub run_key : RunSummary fl → Text
  run_key r = key_of r.library r.scenario

  -- The group of a key, or a new one.
  unfoldable pub group_for : RunSummary fl → Option Group → Group
  unfolding empty_group
  group_for r none = empty_group r.library r.scenario
  group_for r (some g) = g

  unfoldable pub add_run : Dict Group → RunSummary fl → Dict Group
  unfolding group_for
  add_run by_key r =
      let g = group_for r (lookup (run_key r) by_key) in
      put (run_key r) (record g { runs = g.runs ++ r ∷ [] }) by_key

  unfoldable pub bucket : List (RunSummary fl) → Dict Group → Dict Group
  unfolding add_run
  bucket [] by_key = by_key
  bucket (r ∷ rs) by_key = bucket rs (add_run by_key r)

  -- The sums of the loop over the runs; an int64 wraps.
  unfoldable pub total : (RunSummary fl → ℤ) → List (RunSummary fl) → ℤ → ℤ
  unfolding add_int64
  total f [] acc = acc
  total f (r ∷ rs) acc = total f rs (add_int64 acc (f r))

  -- `float64(r.MaxRSSBytes) / 1024.0 / 1024.0`.
  abbrev rss_mb : RunSummary fl → F
  rss_mb r = div (div (of_int r.max_rss_bytes) (of_int (pos 1024))) (of_int (pos 1024))

  -- populateGroupStats, where there are runs.
  unfoldable pub with_stats : List (RunSummary fl) → Group → Group
  unfolding median min_of max_of total
  with_stats [] g = g
  with_stats (first ∷ others) g = record g {
    med_throughput = median fl (map (λ (r : RunSummary fl). r.throughput_cps) g.runs);
    med_pickup_p50 = median fl (map (λ (r : RunSummary fl). r.pickup_latency.p50) g.runs);
    med_pickup_p95 = median fl (map (λ (r : RunSummary fl). r.pickup_latency.p95) g.runs);
    med_pickup_p99 = median fl (map (λ (r : RunSummary fl). r.pickup_latency.p99) g.runs);
    med_work_p50 = median fl (map (λ (r : RunSummary fl). r.work_duration.p50) g.runs);
    med_e2e_p95 = median fl (map (λ (r : RunSummary fl). r.e2e_latency.p95) g.runs);
    min_throughput = min_of fl (map (λ (r : RunSummary fl). r.throughput_cps) g.runs);
    max_throughput = max_of fl (map (λ (r : RunSummary fl). r.throughput_cps) g.runs);
    min_pickup_p95 = min_of fl (map (λ (r : RunSummary fl). r.pickup_latency.p95) g.runs);
    max_pickup_p95 = max_of fl (map (λ (r : RunSummary fl). r.pickup_latency.p95) g.runs);
    med_max_goroutines =
        to_int (median fl (map (λ (r : RunSummary fl). of_int r.max_goroutines) g.runs));
    med_max_rss_mb = median fl (map rss_mb g.runs);
    total_enqueued = total (λ r. r.enqueued) g.runs g.total_enqueued;
    total_completed = total (λ r. r.completed) g.runs g.total_completed;
    total_failed = total (λ r. r.failed) g.runs g.total_failed;
  }

  unfoldable pub populate : Group → Group
  unfolding with_stats
  populate g = with_stats g.runs g

  unfoldable pub group_less : Group → Group → Bool
  group_less a b =
      if not (text_eq a.scenario b.scenario)
      then text_lt a.scenario b.scenario
      else text_lt a.library b.library

  -- `GroupRuns`. `range` takes the groups in any order; here it is that of their first runs.
  unfoldable pub group_runs : List (RunSummary fl) → List Group
  unfolding bucket populate group_less sort_by
  group_runs runs = sort_by group_less (map (λ e. populate e.1) (bucket runs []))

  unfoldable pub flatten_runs : List Group → List (RunSummary fl)
  flatten_runs [] = []
  flatten_runs (g ∷ gs) = g.runs ++ flatten_runs gs

  -- `totals[i]` of renderErrorBreakdown.
  unfoldable pub add_errors : Dict ℕ → Dict ℕ → Dict ℕ
  add_errors [] totals = totals
  add_errors ((class, n) ∷ rest) totals =
      add_errors rest (put class (get_or_zero 0 (lookup class totals) + n) totals)

  unfoldable pub error_totals : List (RunSummary fl) → Dict ℕ → Dict ℕ
  unfolding add_errors
  error_totals [] totals = totals
  error_totals (r ∷ rs) totals = error_totals rs (add_errors r.errors totals)

  -- The locals of pickExtremes.
  pub record Extremes : Type 0 where
    pub max_count : ℤ
    pub min_count : ℤ
    pub noisy : Text
    pub quiet : Text

  unfoldable pub see_tenant : Text × TenantStats fl → Extremes → Extremes
  see_tenant (id, ts) x =
      let above = ltb_ℤ x.max_count (pos ts.enqueued) in
      let below = ltb_ℤ (pos ts.enqueued) x.min_count in
      record {
        max_count = if above then pos ts.enqueued else x.max_count;
        noisy = if above then id else x.noisy;
        min_count = if below then pos ts.enqueued else x.min_count;
        quiet = if below then id else x.quiet;
      }

  unfoldable pub see_tenants : Dict (TenantStats fl) → Extremes → Extremes
  unfolding see_tenant
  see_tenants [] x = x
  see_tenants (t ∷ ts) x = see_tenants ts (see_tenant t x)

  -- `pickExtremes`; `range` decides between tenants with equal counts.
  unfoldable pub pick_extremes : Dict (TenantStats fl) → Text × Text
  unfolding see_tenants
  pick_extremes per =
      let x =
        see_tenants per
          (record { max_count = negsuc 0; min_count = sub_ℕ two_63 1; noisy = []; quiet = [] }) in
      (x.noisy, x.quiet)
