-- ===== src/Platlib/Tables/Choice.antt =====
-- Which row a claim takes, and what its permit then marks.
use mathlib.Core.List.{Memᴰ}
use mathlib.Core.Path.{subst}
use queue_benchmark.Prelude.{
  ℕ, ◌≤◌, ◌≡◌, refl, sym, ap, ◌∙◌, ◌≢◌, inl, inr, Bool, true, false, not, List, [], ◌∷◌, map, none,
  some, arith, ◌==◌, All, All-at, All-mono, Pairs, Bool-cases, Option-cases, select, count_if,
}
use queue_benchmark.Prelude.Int.{◌≤ℤ◌, ◌<ℤ◌, ltb_ℤ}
use queue_benchmark.Platlib.Tables.{Row, comes_before, choose, first_row, set_permit}
use queue_benchmark.Platlib.Tables.Invariant.{Apart}

-- The order of a claim: by priority, then by id.
pub data Before (r q : Row) : Type 0 where
  by_priority : r.priority <ℤ q.priority → Before r q
  by_id : r.priority ≤ℤ q.priority → q.priority ≤ℤ r.priority → r.id ≤ q.id → Before r q

comes_before_total : (r q : Row) → comes_before r q ≡ false → comes_before q r ≡ true
unfolding comes_before
comes_before_total r q h = ground arith

comes_before_trans :
    (r q t : Row) → comes_before r q ≡ true → comes_before q t ≡ true → comes_before r t ≡ true
unfolding comes_before
comes_before_trans r q t h k = ground arith

comes_before_refl : (r : Row) → comes_before r r ≡ true
unfolding comes_before
comes_before_refl r = ground arith

pub comes_before→Before : (r q : Row) → comes_before r q ≡ true → Before r q
unfolding comes_before
comes_before→Before r q h = elim (Bool-cases (ltb_ℤ r.priority q.priority)) [
  | inl e ↦ by_priority (ground arith)
  | inr e ↦ by_id (ground arith) (ground arith) (ground arith)
]

-- A row that passes a test and comes before every other that does.
pub record IsFirst (p : Row → Bool) (rows : List Row) (r : Row) : Type 0 where
  pub there : Memᴰ r rows
  pub passes : p r ≡ true
  pub first : All (λ q. p q ≡ true → comes_before r q ≡ true) rows

none_passes :
    (p : Row → Bool) (rows : List Row) → first_row p rows ≡ none → All (λ q. p q ≡ false) rows
unfolding first_row
none_passes p [] h = tt
none_passes p (r ∷ rs) h = elim (Bool-cases (p r)) [
  | inl e ↦ absurd (ground arith)
  | inr e ↦ (e, none_passes p rs (ground arith))
]

-- Nothing is chosen only where no row passes.
pub first_row-eq-none :
    (p : Row → Bool) (rows : List Row) → first_row p rows ≡ none → All (λ q. p q ≡ false) rows
first_row-eq-none = none_passes

module _ (p : Row → Bool) where
  head_IsFirst :
      (r : Row) (rs : List Row)
      → p r ≡ true
      → All (λ q. p q ≡ true → comes_before r q ≡ true) rs
      → IsFirst p (r ∷ rs) r
  head_IsFirst r rs e all = record {
    there = Memᴰ.head refl;
    passes = e;
    first = (λ _. comes_before_refl r, all);
  }

  tail_IsFirst :
      (r : Row) (rs : List Row) (q : Row)
      → (p r ≡ true → comes_before q r ≡ true)
      → IsFirst p rs q
      → IsFirst p (r ∷ rs) q
  tail_IsFirst r rs q h f = record {
    there = Memᴰ.tail f.there;
    passes = f.passes;
    first = (h, f.first);
  }

  -- What is chosen passes, stands in the table and comes before all others that pass.
  pub first_row-IsFirst : (rows : List Row) (b : Row) → first_row p rows ≡ some b → IsFirst p rows b
  unfolding first_row choose
  first_row-IsFirst [] b h = cc
  first_row-IsFirst (r ∷ rs) b h = elim (Bool-cases (p r)) [
    | inr e ↦ tail_IsFirst r rs b (λ t. cc) (first_row-IsFirst rs b (ground arith))
    | inl e ↦ elim (Option-cases (first_row p rs)) [
      | inl n ↦ subst (IsFirst p (r ∷ rs)) (ground arith) (
          head_IsFirst r rs e
            (All-mono (λ q. p q ≡ false) _ rs (λ q f t. cc) (first_row-eq-none p rs n)))
      | inr (q, s) ↦
          let rest = first_row-IsFirst rs q s in
          elim (Bool-cases (comes_before r q)) [
            | inl c ↦ subst (IsFirst p (r ∷ rs)) (ground arith) (
                head_IsFirst r rs e (
                  All-mono (λ x. p x ≡ true → comes_before q x ≡ true) _ rs
                    (λ x f t. comes_before_trans r q x c (f t)) rest.first))
            | inr c ↦
                subst (IsFirst p (r ∷ rs)) (ground arith)
                  (tail_IsFirst r rs q (λ _. comes_before_total r q c) rest)
          ]
    ]
  ]

module _ (id permit : ℕ) where
  -- Deleting the claimed rows behind a claim under a new permit deletes the row with the id.
  pub select-set_permit :
      (rows : List Row)
      → All (λ q. q.permit ≢ permit) rows
      → select (λ q. not (q.permit == permit)) (map (set_permit id permit) rows)
        ≡ select (λ q. not (q.id == id)) rows
  unfolding select set_permit
  select-set_permit [] h = refl
  select-set_permit (q ∷ qs) h = ground (arith, select-set_permit qs h.1, h.0)

  no_claim :
      (rows : List Row)
      → All (λ q. q.permit ≢ permit) rows
      → All (λ q. q.id ≢ id) rows
      → count_if (λ q. q.permit == permit) (map (set_permit id permit) rows) ≡ 0
  unfolding count_if set_permit
  no_claim [] h d = refl
  no_claim (q ∷ qs) h d = ground (arith, no_claim qs h.1 d.1, h.0, d.0)

  -- A claim under a new permit marks exactly one row.
  pub count_if-set_permit :
      {r : Row} {rows : List Row}
      → Memᴰ r rows
      → r.id ≡ id
      → Pairs Apart rows
      → All (λ q. q.permit ≢ permit) rows
      → count_if (λ q. q.permit == permit) (map (set_permit id permit) rows) ≡ 1
  unfolding count_if set_permit
  count_if-set_permit {r} (Memᴰ.head {x = q} {xs = qs} e) i a h = ground (
    arith,
    ap (λ (t : Row). t.id) e,
    h.0,
    no_claim qs h.1 (
        All-mono (Apart q) (λ t. t.id ≢ id) qs
          (λ t apart same. apart.ids (sym (ap (λ (t : Row). t.id) e) ∙ i ∙ sym same)) a.0),
  )
  count_if-set_permit {r} (Memᴰ.tail {x = q} {xs = qs} m) i a h =
      ground (arith, h.0, (All-at (Apart q) m a.0).ids, count_if-set_permit m i a.1 h.1)
