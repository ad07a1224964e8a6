-- ===== src/Analyze/Report/Sections.antt =====
-- The sections of a report: each scenario once, in order, and every run in one of them.
use mathlib.Core.Path.{subst}
use queue_benchmark.Prelude.{
  ℕ, ◌+◌, ◌≡◌, refl, sym, ap, ◌∙◌, ◌≢◌, inl, inr, Bool, true, List, [], ◌∷◌, ◌++◌, map, arith, Text,
  count_if, count_if-append, All, All-append, Pairs, Pairs-append_one, Option-cases,
}
use queue_benchmark.Prelude.Bytes.{text_lt}
use queue_benchmark.Prelude.Dict.{lookup}
use queue_benchmark.Analyze.Float.{Float}
use queue_benchmark.Analyze.Reader.{RunSummary}
use queue_benchmark.Analyze.Groups.{Group, group_runs, flatten_runs, sort_by}
use queue_benchmark.Analyze.Groups.Sorting.{sum_by, sum_by-sort_by, sort_by-Increasing}
use queue_benchmark.Analyze.Groups.Partition.{group_runs_lem}
use queue_benchmark.Analyze.Report.{
  Scenarios, groups_of, with_order, add_group, add_groups, sections,
}
use queue_benchmark.Analyze.Report.Entries.{
  keys, OfScenario, AreFiled, held, held-append_one, keys-put, lookup-eq-none, groups_of-OfScenario,
  put-AreFiled, total, total-put, looked_up,
}

module _ (fl : Float) where
  -- What holds of the scenarios of some groups.
  record IsFiled (p : RunSummary fl → Bool) (n : ℕ) (s : Scenarios fl) : Type 0 where
    in_order : s.order ≡ keys fl s.groups
    apart : Pairs (λ k l. k ≢ l) s.order
    filed : AreFiled fl s.groups
    counted : total fl p s.groups ≡ n

  add_group-apart :
      (s : Scenarios fl) (k : Text)
      → s.order ≡ keys fl s.groups
      → Pairs (λ k l. k ≢ l) s.order
      → Pairs (λ k l. k ≢ l) (with_order fl (lookup k s.groups) k s.order)
  add_group-apart s k same h = elim (Option-cases (lookup k s.groups)) [
    | inl e ↦
        rw e
          (Pairs-append_one (λ k l. k ≢ l) s.order k h (rw same (lookup-eq-none fl k s.groups e)))
    | inr (v, e) ↦ rw e h
  ]

  add_group-IsFiled :
      (p : RunSummary fl → Bool) (n : ℕ) (s : Scenarios fl) (g : Group fl)
      → IsFiled p n s
      → IsFiled p (n + count_if p g.runs) (add_group fl s g)
  unfolding add_group
  add_group-IsFiled p n s g f =
      let gs = groups_of fl s.groups g.scenario in
      record {
        in_order =
            ap (with_order fl (lookup g.scenario s.groups) g.scenario) f.in_order
            ∙ sym (keys-put fl g.scenario (gs ++ g ∷ []) s.groups);
        apart = add_group-apart s g.scenario f.in_order f.apart;
        filed =
            put-AreFiled fl g.scenario (gs ++ g ∷ []) s.groups
              (All-append _ gs (g ∷ []) (groups_of-OfScenario fl g.scenario s.groups f.filed)
                (refl, tt))
              f.filed;
        counted = omega (
          arith,
          f.counted,
          total-put fl p g.scenario (gs ++ g ∷ []) s.groups,
          held-append_one fl p gs g,
        );
      }

  add_groups-IsFiled :
      (p : RunSummary fl → Bool) (gs : List (Group fl)) (n : ℕ) (s : Scenarios fl)
      → IsFiled p n s
      → IsFiled p (n + held fl p gs) (add_groups fl gs s)
  unfolding add_groups flatten_runs count_if
  add_groups-IsFiled p [] n s f = record {
    in_order = f.in_order;
    apart = f.apart;
    filed = f.filed;
    counted = omega (arith, f.counted);
  }
  add_groups-IsFiled p (g ∷ gs) n s f =
      let rest = add_groups-IsFiled p gs _ (add_group fl s g) (add_group-IsFiled p n s g f) in
      record {
        in_order = rest.in_order;
        apart = rest.apart;
        filed = rest.filed;
        counted = omega (arith, rest.counted, count_if-append p g.runs (flatten_runs fl gs));
      }

  abbrev pub Section : Type 0
  Section = Text × List (Group fl)

  -- The runs of some sections.
  unfoldable pub runs_of : List Section → List (RunSummary fl)
  runs_of [] = []
  runs_of (s ∷ ss) = flatten_runs fl s.1 ++ runs_of ss

  count_if-runs_of :
      (p : RunSummary fl → Bool) (f : Text → List (Group fl)) (ks : List Text)
      → count_if p (runs_of (map (λ k. (k, f k)) ks)) ≡ sum_by (λ k. held fl p (f k)) ks
  unfolding runs_of sum_by count_if
  count_if-runs_of p f [] = refl
  count_if-runs_of p f (k ∷ ks) = omega (
    arith,
    count_if-runs_of p f ks,
    count_if-append p (flatten_runs fl (f k)) (runs_of (map (λ k. (k, f k)) ks)),
  )

  All-map :
      (P : Section → Type 0) (f : Text → List (Group fl)) (ks : List Text)
      → ((k : Text) → P (k, f k))
      → All P (map (λ k. (k, f k)) ks)
  All-map P f [] h = tt
  All-map P f (k ∷ ks) h = (h k, All-map P f ks h)

  All-map_text :
      (P : Text → Type 0) (f : Text → List (Group fl)) (ks : List Text)
      → All P ks
      → All (λ (s : Section). P s.0) (map (λ k. (k, f k)) ks)
  All-map_text P f [] h = tt
  All-map_text P f (k ∷ ks) h = (h.0, All-map_text P f ks h.1)

  Pairs-map :
      (R : Text → Text → Type 0) (f : Text → List (Group fl)) (ks : List Text)
      → Pairs R ks
      → Pairs (λ (s t : Section). R s.0 t.0) (map (λ k. (k, f k)) ks)
  Pairs-map R f [] h = tt
  Pairs-map R f (k ∷ ks) h = (All-map_text (R k) f ks h.0, Pairs-map R f ks h.1)

  -- The sections of a report on some runs stand in strictly increasing order of their scenarios, so
  -- that none stands twice; the groups of a section are of its scenario; and each run is in one of
  -- them: for each test on runs, as many runs of all sections pass it as of those given.
  pub sections_lem :
      (runs : List (RunSummary fl)) (p : RunSummary fl → Bool)
      → let ss = sections fl (group_runs fl runs) in
        Pairs (λ s t. text_lt s.0 t.0 ≡ true) ss
        × All (λ s. All (λ g. g.scenario ≡ s.0) s.1) ss
        × (count_if p (runs_of ss) ≡ count_if p runs)
  unfolding sections
  sections_lem runs p =
      let f = add_groups-IsFiled p (group_runs fl runs) 0 _ nothing_filed in
      let s = add_groups fl (group_runs fl runs) (record { groups = []; order = [] }) in
      let ks = sort_by text_lt s.order in
      (
        Pairs-map (λ k l. text_lt k l ≡ true) (groups_of fl s.groups) ks
            (sort_by-Increasing s.order f.apart),
        All-map (λ t. OfScenario fl t.0 t.1) (groups_of fl s.groups) ks
            (λ k. groups_of-OfScenario fl k s.groups f.filed),
        omega (
          arith,
          count_if-runs_of p (groups_of fl s.groups) ks,
          sum_by-sort_by (λ k. held fl p (groups_of fl s.groups k)) text_lt s.order,
          ap (sum_by (λ k. held fl p (groups_of fl s.groups k))) f.in_order,
          looked_up fl p s.groups (subst (Pairs (λ k l. k ≢ l)) f.in_order f.apart),
          f.counted,
          (group_runs_lem fl runs p []).0,
        ),
      )
    where
      nothing_filed : IsFiled p 0 (record { groups = []; order = [] })
      nothing_filed =
          unfold sum_by in record { in_order = refl; apart = tt; filed = tt; counted = refl }
