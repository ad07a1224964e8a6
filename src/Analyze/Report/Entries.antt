-- ===== src/Analyze/Report/Entries.antt =====
-- The dictionary of the groups of each scenario, as RenderMarkdown builds it.
use mathlib.Core.Path.{subst}
use queue_benchmark.Prelude.{
  ℕ, ◌+◌, ◌≡◌, refl, sym, ap, ◌≢◌, inl, inr, Bool, List, [], ◌∷◌, ◌++◌, map, none, arith, Text,
  text_eq, text_eq_iff, text_eq_refl, count_if, count_if-append, All, Pairs, Bool-cases,
  Option-cases,
}
use queue_benchmark.Prelude.Dict.{Dict, lookup, put}
use queue_benchmark.Analyze.Float.{Float}
use queue_benchmark.Analyze.Reader.{RunSummary}
use queue_benchmark.Analyze.Groups.{Group, flatten_runs}
use queue_benchmark.Analyze.Groups.Sorting.{sum_by}
use queue_benchmark.Analyze.Report.{groups_of, with_order}

module _ (fl : Float) where
  abbrev pub Entries : Type 0
  Entries = Dict (List (Group fl))

  abbrev pub keys : Entries → List Text
  keys d = map (λ (e : Text × List (Group fl)). e.0) d

  -- The groups under a scenario are of that scenario.
  abbrev pub OfScenario : Text → List (Group fl) → Type 0
  OfScenario scenario gs = All (λ g. g.scenario ≡ scenario) gs

  abbrev pub AreFiled : Entries → Type 0
  AreFiled d = All (λ (e : Text × List (Group fl)). OfScenario e.0 e.1) d

  abbrev pub held : (RunSummary fl → Bool) → List (Group fl) → ℕ
  held p gs = count_if p (flatten_runs fl gs)

  pub held-append_one :
      (p : RunSummary fl → Bool) (gs : List (Group fl)) (g : Group fl)
      → held p (gs ++ g ∷ []) ≡ held p gs + count_if p g.runs
  unfolding flatten_runs count_if
  held-append_one p [] g = omega (arith, count_if-append p g.runs [])
  held-append_one p (h ∷ gs) g = omega (
    arith,
    held-append_one p gs g,
    count_if-append p h.runs (flatten_runs fl (gs ++ g ∷ [])),
    count_if-append p h.runs (flatten_runs fl gs),
  )

  pub keys-put :
      (k : Text) (gs : List (Group fl)) (d : Entries)
      → keys (put k gs d) ≡ with_order fl (lookup k d) k (keys d)
  unfolding put lookup
  keys-put k gs [] = refl
  keys-put k gs ((l, hs) ∷ d) = elim (Bool-cases (text_eq l k)) [
    | inl e ↦ rw e refl
    | inr e ↦ elim (Option-cases (lookup k d)) [
      | inl f ↦ ground (arith, e, f, keys-put k gs d)
      | inr (v, f) ↦ ground (arith, e, f, keys-put k gs d)
    ]
  ]

  pub lookup-eq-none : (k : Text) (d : Entries) → lookup k d ≡ none → All (λ l. l ≢ k) (keys d)
  unfolding lookup
  lookup-eq-none k [] h = tt
  lookup-eq-none k ((l, gs) ∷ d) h = elim (Bool-cases (text_eq l k)) [
    | inl e ↦ absurd (ground (arith, h, e))
    | inr e ↦ (
      λ same. absurd (ground (arith, e, same, text_eq_iff l k)),
      lookup-eq-none k d (ground (arith, h, e)),
    )
  ]

  pub groups_of-OfScenario : (k : Text) (d : Entries) → AreFiled d → OfScenario k (groups_of fl d k)
  unfolding lookup
  groups_of-OfScenario k [] h = tt
  groups_of-OfScenario k ((l, gs) ∷ d) h = elim (Bool-cases (text_eq l k)) [
    | inl e ↦ rw e (subst (λ x. OfScenario x gs) ((text_eq_iff l k).0 e) h.0)
    | inr e ↦ rw e (groups_of-OfScenario k d h.1)
  ]

  pub put-AreFiled :
      (k : Text) (gs : List (Group fl)) (d : Entries)
      → OfScenario k gs
      → AreFiled d
      → AreFiled (put k gs d)
  unfolding put
  put-AreFiled k gs [] o h = (o, tt)
  put-AreFiled k gs ((l, hs) ∷ d) o h = elim (Bool-cases (text_eq l k)) [
    | inl e ↦ rw e (subst (λ x. OfScenario x gs) (sym ((text_eq_iff l k).0 e)) o, h.1)
    | inr e ↦ rw e (h.0, put-AreFiled k gs d o h.1)
  ]

  -- The runs of all entries.
  abbrev pub total : (RunSummary fl → Bool) → Entries → ℕ
  total p d = sum_by (λ (e : Text × List (Group fl)). held p e.1) d

  pub total-put :
      (p : RunSummary fl → Bool) (k : Text) (gs : List (Group fl)) (d : Entries)
      → total p (put k gs d) + held p (groups_of fl d k) ≡ total p d + held p gs
  unfolding put lookup sum_by count_if flatten_runs
  total-put p k gs [] = omega arith
  total-put p k gs ((l, hs) ∷ d) = elim (Bool-cases (text_eq l k)) [
    | inl e ↦ rw e (omega arith)
    | inr e ↦ rw e (omega (arith, total-put p k gs d))
  ]

  found_first : (k : Text) (gs : List (Group fl)) (d : Entries) → groups_of fl ((k, gs) ∷ d) k ≡ gs
  unfolding lookup
  found_first k gs d = rw (text_eq_refl k) refl

  skip_first :
      (p : RunSummary fl → Bool) (k : Text) (gs : List (Group fl)) (d : Entries) (ks : List Text)
      → All (λ l. k ≢ l) ks
      → sum_by (λ l. held p (groups_of fl ((k, gs) ∷ d) l)) ks
        ≡ sum_by (λ l. held p (groups_of fl d l)) ks
  unfolding sum_by
  skip_first p k gs d [] h = refl
  skip_first p k gs d (l ∷ ks) h =
      omega (arith, skip_first p k gs d ks h.1, ap (held p) (passed k l gs d h.0))
    where
      passed :
          (k l : Text) (gs : List (Group fl)) (d : Entries)
          → k ≢ l
          → groups_of fl ((k, gs) ∷ d) l ≡ groups_of fl d l
      passed k l gs d n = unfold lookup in ground (arith, n, text_eq_iff k l)

  -- Looking every key up gives every entry, where no key stands twice.
  pub looked_up :
      (p : RunSummary fl → Bool) (d : Entries)
      → Pairs (λ k l. k ≢ l) (keys d)
      → sum_by (λ k. held p (groups_of fl d k)) (keys d) ≡ total p d
  unfolding sum_by lookup
  looked_up p [] h = refl
  looked_up p ((k, gs) ∷ d) h =
      omega (
        arith,
        skip_first p k gs d (keys d) h.0,
        looked_up p d h.1,
        ap (held p) (found_first k gs d),
      )
