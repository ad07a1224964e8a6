-- ===== src/Analyze/Groups/Partition.antt =====
-- The groups of some runs hold each of them once.
use mathlib.Core.Path.{subst}
use queue_benchmark.Prelude.{
  ℕ, ◌+◌, ◌≤◌, ◌≡◌, refl, sym, ap, ◌∙◌, inl, inr, Bool, false, List, [], ◌∷◌, ◌++◌, map, Option,
  none, some, Text, text_eq, text_eq_iff, if◌then◌else◌, count_if, count_if-append, All, All-append,
  Bool-cases, Option-cases, arith,
}
use queue_benchmark.Prelude.Dict.{Dict, lookup, put}
use queue_benchmark.Analyze.Float.{Float}
use queue_benchmark.Analyze.Reader.{RunSummary}
use queue_benchmark.Analyze.Groups.Sorting.{count_if-sort_by, All-sort_by}
use queue_benchmark.Analyze.Groups.{
  Group, insert_by, sort_by, run_key, key_of, empty_group, group_for, add_run, bucket, populate,
  with_stats, group_less, group_runs, flatten_runs,
}

module _ (fl : Float) where
  abbrev pub group_key : Group fl → Text
  group_key g = key_of fl g.library g.scenario

  -- Every run of a group has the group's key.
  abbrev pub IsUniform : Group fl → Type 0
  IsUniform g = All (λ r. run_key fl r ≡ group_key g) g.runs

  abbrev pub has_key : Text → Group fl → Bool
  has_key key g = text_eq (group_key g) key

  -- How many runs of some groups pass a test.
  abbrev held : (RunSummary fl → Bool) → List (Group fl) → ℕ
  held p gs = count_if p (flatten_runs fl gs)

  held-insert_by :
      (p : RunSummary fl → Bool) (less : Group fl → Group fl → Bool) (g : Group fl)
      (gs : List (Group fl))
      → held p (insert_by less g gs) ≡ count_if p g.runs + held p gs
  unfolding insert_by flatten_runs
  held-insert_by p less g [] = count_if-append p g.runs []
  held-insert_by p less g (h ∷ hs) = elim (Bool-cases (less h g)) [
    | inl e ↦ rw e (
        omega (
          arith,
          held-insert_by p less g hs,
          count_if-append p h.runs (flatten_runs fl (insert_by less g hs)),
          count_if-append p h.runs (flatten_runs fl hs),
        ))
    | inr e ↦ rw e (count_if-append p g.runs (flatten_runs fl (h ∷ hs)))
  ]

  held-sort_by :
      (p : RunSummary fl → Bool) (less : Group fl → Group fl → Bool) (gs : List (Group fl))
      → held p (sort_by less gs) ≡ held p gs
  unfolding sort_by flatten_runs
  held-sort_by p less [] = refl
  held-sort_by p less (g ∷ gs) = omega (
    arith,
    held-insert_by p less g (sort_by less gs),
    held-sort_by p less gs,
    count_if-append p g.runs (flatten_runs fl gs),
  )

  -- The groups of a dictionary.
  abbrev groups_of : Dict (Group fl) → List (Group fl)
  groups_of d = map (λ (e : Text × Group fl). e.1) d

  abbrev runs_at : (RunSummary fl → Bool) → Option (Group fl) → ℕ
  runs_at p none = 0
  runs_at p (some g) = count_if p g.runs

  held-put :
      (p : RunSummary fl → Bool) (key : Text) (g : Group fl) (d : Dict (Group fl))
      → held p (groups_of (put key g d)) + runs_at p (lookup key d)
        ≡ held p (groups_of d) + count_if p g.runs
  unfolding put lookup flatten_runs
  held-put p key g [] = omega (arith, count_if-append p g.runs (flatten_runs fl []))
  held-put p key g ((k, h) ∷ rest) = elim (Bool-cases (text_eq k key)) [
    | inl e ↦ rw e (
        omega (
          arith,
          count_if-append p g.runs (flatten_runs fl (groups_of rest)),
          count_if-append p h.runs (flatten_runs fl (groups_of rest)),
        ))
    | inr e ↦ rw e (
        omega (
          arith,
          held-put p key g rest,
          count_if-append p h.runs (flatten_runs fl (groups_of rest)),
          count_if-append p h.runs (flatten_runs fl (groups_of (put key g rest))),
        ))
  ]

  -- A dictionary whose groups have the keys that they stand under.
  abbrev IsKeyed : Dict (Group fl) → Type 0
  IsKeyed d = All (λ (e : Text × Group fl). (group_key e.1 ≡ e.0) × IsUniform e.1) d

  IsKeyed-lookup :
      (key : Text) (d : Dict (Group fl)) (g : Group fl)
      → IsKeyed d
      → lookup key d ≡ some g
      → (group_key g ≡ key) × IsUniform g
  unfolding lookup
  IsKeyed-lookup key [] g a h = absurd (cc h)
  IsKeyed-lookup key ((k, other) ∷ rest) g a h = elim (Bool-cases (text_eq k key)) [
    | inl e ↦
        let same : other ≡ g = ground (arith, e, h) in
        subst (λ x. (group_key x ≡ key) × IsUniform x) same (a.0.0 ∙ (text_eq_iff k key).0 e, a.0.1)
    | inr e ↦ IsKeyed-lookup key rest g a.1 (rw e at h)
  ]

  put-IsKeyed :
      (key : Text) (g : Group fl) (d : Dict (Group fl))
      → group_key g ≡ key
      → IsUniform g
      → IsKeyed d
      → IsKeyed (put key g d)
  unfolding put
  put-IsKeyed key g [] h u a = ((h, u), tt)
  put-IsKeyed key g ((k, other) ∷ rest) h u a = elim (Bool-cases (text_eq k key)) [
    | inl e ↦ rw e ((h ∙ sym ((text_eq_iff k key).0 e), u), a.1)
    | inr e ↦ rw e (a.0, put-IsKeyed key g rest h u a.1)
  ]

  abbrev under : Text → Text × Group fl → Bool
  under key e = text_eq e.0 key

  abbrev found : Option (Group fl) → ℕ
  found none = 0
  found (some g) = 1

  put-other :
      (key other : Text) (g : Group fl) (d : Dict (Group fl))
      → text_eq key other ≡ false
      → count_if (under other) (put key g d) ≡ count_if (under other) d
  unfolding put count_if
  put-other key other g [] n = ground (arith, n)
  put-other key other g ((k, v) ∷ rest) n = ground (arith, n, put-other key other g rest n)

  -- No key stands twice in a dictionary, nor at all where it is not found.
  put-found :
      (key other : Text) (g : Group fl) (d : Dict (Group fl))
      → count_if (under other) d ≡ found (lookup other d)
      → count_if (under other) (put key g d) ≡ found (lookup other (put key g d))
  unfolding put lookup count_if
  put-found key other g [] h = ground (arith, h)
  put-found key other g ((k, v) ∷ rest) h = elim (Bool-cases (text_eq k key)) [
    | inl e ↦ ground (arith, h, e)
    | inr e ↦ elim (Bool-cases (text_eq k other)) [
      | inl f ↦
          let differs : text_eq key other ≡ false =
            ground (arith, e, f, text_eq_iff k other, text_eq_iff key other, text_eq_iff k key) in
          ground (arith, h, e, f, put-other key other g rest differs)
      | inr f ↦ ground (arith, h, e, f, put-found key other g rest (ground (arith, h, f)))
    ]
  ]

  -- What holds of the dictionary of the groups of some runs.
  record IsBucket (p : RunSummary fl → Bool) (key : Text) (n : ℕ) (d : Dict (Group fl))
      : Type 0 where
    keyed : IsKeyed d
    once : count_if (under key) d ≡ found (lookup key d)
    holds : held p (groups_of d) ≡ n

  All-append_one :
      (P : RunSummary fl → Type 0) (rs : List (RunSummary fl)) (r : RunSummary fl)
      → All P rs
      → P r
      → All P (rs ++ r ∷ [])
  All-append_one P rs r a h = All-append P rs (r ∷ []) a (h, tt)

  add_run-IsBucket :
      (p : RunSummary fl → Bool) (key : Text) (n : ℕ) (d : Dict (Group fl)) (r : RunSummary fl)
      → IsBucket p key n d
      → IsBucket p key (n + (if p r then 1 else 0)) (add_run fl d r)
  unfolding add_run group_for empty_group count_if
  add_run-IsBucket p key n d r b = elim (Option-cases (lookup (run_key fl r) d)) [
    | inl e ↦ rw e (record {
      keyed = put-IsKeyed (run_key fl r) _ d refl (refl, tt) b.keyed;
      once = put-found (run_key fl r) key _ d b.once;
      holds = omega (arith, b.holds, held-put p (run_key fl r) _ d, ap (runs_at p) e);
    })
    | inr (g, e) ↦
        let (named, uniform) = IsKeyed-lookup (run_key fl r) d g b.keyed e in
        rw e (record {
          keyed =
              put-IsKeyed (run_key fl r) _ d named
                (All-append_one (λ x. run_key fl x ≡ group_key g) g.runs r uniform (sym named))
                b.keyed;
          once = put-found (run_key fl r) key _ d b.once;
          holds = omega (
            arith,
            b.holds,
            held-put p (run_key fl r) (record g { runs = g.runs ++ r ∷ [] }) d,
            ap (runs_at p) e,
            count_if-append p g.runs (r ∷ []),
          );
        })
  ]

  bucket-IsBucket :
      (p : RunSummary fl → Bool) (key : Text) (rs : List (RunSummary fl)) (n : ℕ)
      (d : Dict (Group fl))
      → IsBucket p key n d
      → IsBucket p key (n + count_if p rs) (bucket fl rs d)
  unfolding bucket count_if
  bucket-IsBucket p key [] n d b = record {
    keyed = b.keyed;
    once = b.once;
    holds = omega (arith, b.holds);
  }
  bucket-IsBucket p key (r ∷ rs) n d b =
      let rest = bucket-IsBucket p key rs _ (add_run fl d r) (add_run-IsBucket p key n d r b) in
      record { keyed = rest.keyed; once = rest.once; holds = omega (arith, rest.holds) }

  -- The statistics of a group change neither its runs nor its key.
  with_stats_kept :
      (rs : List (RunSummary fl)) (g : Group fl)
      → ((with_stats fl rs g).runs ≡ g.runs) × (group_key (with_stats fl rs g) ≡ group_key g)
  unfolding with_stats
  with_stats_kept [] g = (refl, refl)
  with_stats_kept (r ∷ rs) g = (refl, refl)

  with_stats-IsUniform :
      (rs : List (RunSummary fl)) (g : Group fl) → IsUniform g → IsUniform (with_stats fl rs g)
  unfolding with_stats
  with_stats-IsUniform [] g u = u
  with_stats-IsUniform (r ∷ rs) g u = u

  -- The groups of a dictionary with their statistics.
  abbrev populated : Dict (Group fl) → List (Group fl)
  populated d = map (λ (e : Text × Group fl). populate fl e.1) d

  held-populated :
      (p : RunSummary fl → Bool) (d : Dict (Group fl)) → held p (populated d) ≡ held p (groups_of d)
  unfolding populate flatten_runs
  held-populated p [] = refl
  held-populated p ((k, g) ∷ rest) = omega (
    arith,
    held-populated p rest,
    ap (count_if p) (with_stats_kept g.runs g).0,
    count_if-append p g.runs (flatten_runs fl (groups_of rest)),
    count_if-append p (populate fl g).runs (flatten_runs fl (populated rest)),
  )

  has_key-populated :
      (key : Text) (d : Dict (Group fl))
      → IsKeyed d
      → count_if (has_key key) (populated d) ≡ count_if (under key) d
  unfolding populate count_if
  has_key-populated key [] a = refl
  has_key-populated key ((k, g) ∷ rest) a =
      let same : group_key (with_stats fl g.runs g) ≡ k = (with_stats_kept g.runs g).1 ∙ a.0.0 in
      rw same (omega (arith, has_key-populated key rest a.1))

  populated-IsUniform : (d : Dict (Group fl)) → IsKeyed d → All IsUniform (populated d)
  unfolding populate
  populated-IsUniform [] a = tt
  populated-IsUniform ((k, g) ∷ rest) a =
      (with_stats-IsUniform g.runs g a.0.1, populated-IsUniform rest a.1)

  found_once : (o : Option (Group fl)) → found o ≤ 1
  found_once none = omega arith
  found_once (some g) = omega arith

  none_yet : {p : RunSummary fl → Bool} {key : Text} → IsBucket p key 0 []
  unfolding flatten_runs count_if lookup
  none_yet = record { keyed = tt; once = refl; holds = refl }

  -- GroupRuns puts every run into one group: for each test on runs, as many runs of the groups pass it
  -- as of those given. The runs of a group all have its library and scenario, as these stand with a
  -- bar between them, and no two groups have the same.
  pub group_runs_lem :
      (runs : List (RunSummary fl)) (p : RunSummary fl → Bool) (key : Text)
      → (count_if p (flatten_runs fl (group_runs fl runs)) ≡ count_if p runs)
        × All (λ g. All (λ r. run_key fl r ≡ group_key g) g.runs) (group_runs fl runs)
        × (count_if (has_key key) (group_runs fl runs) ≤ 1)
  unfolding group_runs
  group_runs_lem runs p key =
      let b = bucket-IsBucket p key runs 0 [] none_yet in
      let d = bucket fl runs [] in
      (
        omega (arith, held-sort_by p (group_less fl) (populated d), held-populated p d, b.holds),
        All-sort_by IsUniform (group_less fl) (populated d) (populated-IsUniform d b.keyed),
        omega (
          arith,
          count_if-sort_by (has_key key) (group_less fl) (populated d),
          has_key-populated key d b.keyed,
          b.once,
          found_once (lookup key d),
        ),
      )
