-- ===== src/Analyze/Tables/Errors.antt =====
-- When the error table is shown, and what its cells count.
use queue_benchmark.Prelude.{
  ℕ, ◌+◌, ◌≡◌, refl, ap, ◌∙◌, ◌↔◌, inl, inr, false, List, [], ◌∷◌, arith, Text, text_eq,
  text_eq_iff, All, Bool-cases, if◌then◌else◌,
}
use queue_benchmark.Prelude.Dict.{Dict, lookup, put, lookup-put, get_or_zero}
use queue_benchmark.Analyze.Float.{Float}
use queue_benchmark.Analyze.Reader.{RunSummary}
use queue_benchmark.Analyze.Groups.{Group, add_errors, error_totals}
use queue_benchmark.Analyze.Groups.Sorting.{sum_by}
use queue_benchmark.Analyze.Tables.{some_positive, any_error, any_errors, error_breakdown}

-- The count of an entry, where it is of a class.
abbrev pub of_class : Text → Text × ℕ → ℕ
of_class class e = if text_eq e.0 class then e.1 else 0

abbrev pub total_of : Text → Dict ℕ → ℕ
total_of class totals = get_or_zero 0 (lookup class totals)

total_of-put :
    (class c : Text) (n : ℕ) (totals : Dict ℕ)
    → total_of class (put c (total_of c totals + n) totals)
      ≡ total_of class totals + of_class class (c, n)
total_of-put class c n totals =
    ap (get_or_zero 0) (lookup-put c class (total_of c totals + n) totals)
    ∙ elim (Bool-cases (text_eq c class)) [
      | inl e ↦ rw (e, (text_eq_iff c class).0 e) refl
      | inr e ↦ rw e (omega arith)
    ]

total_of-add_errors :
    (fl : Float) (class : Text) (errors totals : Dict ℕ)
    → total_of class (add_errors fl errors totals)
      ≡ total_of class totals + sum_by (of_class class) errors
unfolding add_errors sum_by
total_of-add_errors fl class [] totals = omega arith
total_of-add_errors fl class ((c, n) ∷ errors) totals = omega (
  arith,
  total_of-add_errors fl class errors (put c (total_of c totals + n) totals),
  total_of-put class c n totals,
)

module _ (fl : Float) where
  abbrev errors_of : Text → RunSummary fl → ℕ
  errors_of class r = sum_by (of_class class) r.errors

  total_of-error_totals :
      (class : Text) (runs : List (RunSummary fl)) (totals : Dict ℕ)
      → total_of class (error_totals fl runs totals)
        ≡ total_of class totals + sum_by (errors_of class) runs
  unfolding error_totals sum_by
  total_of-error_totals class [] totals = omega arith
  total_of-error_totals class (r ∷ runs) totals = omega (
    arith,
    total_of-error_totals class runs (add_errors fl r.errors totals),
    total_of-add_errors fl class r.errors totals,
  )

module _ (fl : Float) (fixed : (digits : ℕ) → fl.F → Text) where
  some_positive_iff :
      (errors : Dict ℕ)
      → (some_positive fl fixed errors ≡ false) ↔ All (λ (e : Text × ℕ). e.1 ≡ 0) errors
  unfolding some_positive
  some_positive_iff [] = ground arith
  some_positive_iff ((c, n) ∷ errors) = ground (arith, some_positive_iff errors)

  -- No error in a run.
  abbrev pub IsClean : RunSummary fl → Type 0
  IsClean r = All (λ (e : Text × ℕ). e.1 ≡ 0) r.errors

  any_error_iff :
      (runs : List (RunSummary fl)) → (any_error fl fixed runs ≡ false) ↔ All IsClean runs
  unfolding any_error
  any_error_iff [] = ground arith
  any_error_iff (r ∷ runs) =
      let here = some_positive_iff r.errors in
      let there = any_error_iff runs in
      (
        λ h. (here.0 (ground (arith, h)), there.0 (ground (arith, h))),
        λ a. ground (arith, here.1 a.0, there.1 a.1),
      )

  any_errors_iff :
      (groups : List (Group fl))
      → (any_errors fl fixed groups ≡ false) ↔ All (λ g. All IsClean g.runs) groups
  unfolding any_errors
  any_errors_iff [] = ground arith
  any_errors_iff (g ∷ groups) =
      let here = any_error_iff g.runs in
      let there = any_errors_iff groups in
      (
        λ h. (here.0 (ground (arith, h)), there.0 (ground (arith, h))),
        λ a. ground (arith, here.1 a.0, there.1 a.1),
      )

  shown_iff :
      (groups : List (Group fl))
      → (error_breakdown fl fixed groups ≡ []) ↔ (any_errors fl fixed groups ≡ false)
  unfolding error_breakdown
  shown_iff groups = elim (Bool-cases (any_errors fl fixed groups)) [
    | inl e ↦ rw e (λ h. absurd (cc h), λ h. absurd (cc h))
    | inr e ↦ rw e (λ h. refl, λ h. refl)
  ]

  -- A section has no error table just where no run of its groups counts an error, of any class; and
  -- the total of a group in a class is the sum, over its runs, of what they count of that class.
  pub error_breakdown_lem :
      (groups : List (Group fl)) (g : Group fl) (class : Text)
      → ((error_breakdown fl fixed groups ≡ [])
          ↔ All (λ h. All (λ r. All (λ e. e.1 ≡ 0) r.errors) h.runs) groups)
        × (get_or_zero 0 (lookup class (error_totals fl g.runs []))
            ≡ sum_by (λ r. sum_by (λ e. if text_eq e.0 class then e.1 else 0) r.errors) g.runs)
  unfolding lookup
  error_breakdown_lem groups g class = (
    (
      λ h. (any_errors_iff groups).0 ((shown_iff groups).0 h),
      λ a. (shown_iff groups).1 ((any_errors_iff groups).1 a),
    ),
    omega (arith, total_of-error_totals fl class g.runs []),
  )
