-- ===== src/Platlib/Tables/Removal.antt =====
-- A row leaves the tables: what the counts and the selections of the others become.
use mathlib.Core.List.{Memᴰ}
use queue_benchmark.Prelude.{
  ◌+◌, ◌≡◌, refl, sym, ap, ◌∙◌, ◌≢◌, inl, inr, Bool, false, not, List, [], ◌∷◌, arith, ◌==◌, All,
  All-at, All-mono, Pairs, Bool-cases, select, count_if, if◌then◌else◌,
}
use queue_benchmark.Platlib.Tables.{Row}
use queue_benchmark.Platlib.Tables.Invariant.{Apart}

-- The other rows.
abbrev pub without : Row → List Row → List Row
without r = select (λ q. not (q.id == r.id))

module _ (r : Row) where
  without-fresh : (rows : List Row) → All (λ q. q.id ≢ r.id) rows → without r rows ≡ rows
  unfolding select
  without-fresh [] h = refl
  without-fresh (q ∷ qs) h = ground (arith, h.0, without-fresh qs h.1)

  -- The first row of the tables is the one that leaves.
  without_head : (q : Row) (qs : List Row) → r ≡ q → All (Apart q) qs → without r (q ∷ qs) ≡ qs
  unfolding select
  without_head q qs e a =
      let same = ap (λ (t : Row). t.id) e in
      ground (
        arith,
        same,
        without-fresh qs (
            All-mono (Apart q) (λ t. t.id ≢ r.id) qs (λ t apart i. apart.ids (sym same ∙ sym i)) a),
      )

  without_tail : (q : Row) (qs : List Row) → Apart q r → without r (q ∷ qs) ≡ q ∷ without r qs
  unfolding select
  without_tail q qs a = ground (arith, a.ids)

-- A row that leaves counts once, where it passes.
pub count_if-without :
    (p : Row → Bool) {r : Row} {rows : List Row}
    → Memᴰ r rows
    → Pairs Apart rows
    → count_if p rows ≡ (if p r then 1 else 0) + count_if p (without r rows)
unfolding count_if
count_if-without p {r} (Memᴰ.head {x = q} {xs = qs} e) a = rw (without_head r q qs e a.0, e) refl
count_if-without p {r} (Memᴰ.tail {x = q} {xs = qs} m) a =
    rw (without_tail r q qs (All-at (Apart q) m a.0)) (omega (arith, count_if-without p m a.1))

-- A selection that drops the row does not see it leave.
pub select-without :
    (p : Row → Bool) {r : Row} {rows : List Row}
    → Memᴰ r rows
    → Pairs Apart rows
    → p r ≡ false
    → select p (without r rows) ≡ select p rows
unfolding select
select-without p {r} (Memᴰ.head {x = q} {xs = qs} e) a f =
    rw (without_head r q qs e a.0) (ground (arith, ap p e, f))
select-without p {r} (Memᴰ.tail {x = q} {xs = qs} m) a f =
    rw (without_tail r q qs (All-at (Apart q) m a.0)) (ground (arith, select-without p m a.1 f))

module _ {A : Type 0} where
  -- Nothing passes a test that is counted zero times.
  pub count_if-eq-zero :
      (p : A → Bool) (xs : List A) → count_if p xs ≡ 0 → All (λ x. p x ≡ false) xs
  unfolding count_if
  count_if-eq-zero p [] h = tt
  count_if-eq-zero p (x ∷ xs) h = elim (Bool-cases (p x)) [
    | inl e ↦ absurd (ground arith)
    | inr e ↦ (e, count_if-eq-zero p xs (ground arith))
  ]

  pub count_if-none : (p : A → Bool) (xs : List A) → All (λ x. p x ≡ false) xs → count_if p xs ≡ 0
  unfolding count_if
  count_if-none p [] h = refl
  count_if-none p (x ∷ xs) h = ground (arith, h.0, count_if-none p xs h.1)

  -- Where nothing passes, a selection of the rest keeps everything.
  pub select-all :
      (p : A → Bool) (xs : List A) → All (λ x. p x ≡ false) xs → select (λ x. not (p x)) xs ≡ xs
  unfolding select
  select-all p [] h = refl
  select-all p (x ∷ xs) h = ground (arith, h.0, select-all p xs h.1)
