-- ===== src/Analyze/Stats/Extremes.antt =====
-- `minF` and `maxF`.
use mathlib.Core.List.{Memᴰ}
use mathlib.Core.Path.{subst}
use queue_benchmark.Prelude.{
  ◌≡◌, refl, sym, ◌∙◌, inl, inr, List, [], ◌∷◌, All, Bool-cases, if◌then◌else◌,
}
use queue_benchmark.Analyze.Float.{Float, IsOrdered}
use queue_benchmark.Analyze.Stats.{min_from, max_from, min_of, max_of}
use queue_benchmark.Analyze.Stats.Sorting.{Le, Le_refl}

module _ (fl : Float) (ordered : IsOrdered fl) where
  open fl use {F, lt}

  min_from_step :
      (m x : F) (xs : List F) → min_from fl m (x ∷ xs) ≡ min_from fl (if lt x m then x else m) xs
  unfolding min_from
  min_from_step m x xs = refl

  abbrev Least : F → List F → List F → F → Type 0
  Least m xs all e = Memᴰ e all × Le fl ordered e m × All (λ x. Le fl ordered e x) xs

  min_from_lem :
      (m : F) (xs all : List F)
      → Memᴰ m all
      → ((x : F) → Memᴰ x xs → Memᴰ x all)
      → Least m xs all (min_from fl m xs)
  unfolding min_from
  min_from_lem m [] all k sub = (k, Le_refl fl ordered m, tt)
  min_from_lem m (x ∷ xs) all k sub = elim (Bool-cases (lt x m)) [
    | inl e ↦
        let (there, low, rest) =
          min_from_lem x xs all (sub x (Memᴰ.head refl)) (λ y l. sub y (Memᴰ.tail l)) in
        subst (Least m (x ∷ xs) all) (sym (min_from_step m x xs ∙ rw e refl))
          (there, ordered.le_trans _ x m low (ordered.asymm x m e), (low, rest))
    | inr e ↦
        let (there, low, rest) = min_from_lem m xs all k (λ y l. sub y (Memᴰ.tail l)) in
        subst (Least m (x ∷ xs) all) (sym (min_from_step m x xs ∙ rw e refl))
          (there, low, (ordered.le_trans _ m x low e, rest))
  ]

  max_from_step :
      (m x : F) (xs : List F) → max_from fl m (x ∷ xs) ≡ max_from fl (if lt m x then x else m) xs
  unfolding max_from
  max_from_step m x xs = refl

  abbrev Greatest : F → List F → List F → F → Type 0
  Greatest m xs all e = Memᴰ e all × Le fl ordered m e × All (λ x. Le fl ordered x e) xs

  max_from_lem :
      (m : F) (xs all : List F)
      → Memᴰ m all
      → ((x : F) → Memᴰ x xs → Memᴰ x all)
      → Greatest m xs all (max_from fl m xs)
  unfolding max_from
  max_from_lem m [] all k sub = (k, Le_refl fl ordered m, tt)
  max_from_lem m (x ∷ xs) all k sub = elim (Bool-cases (lt m x)) [
    | inl e ↦
        let (there, high, rest) =
          max_from_lem x xs all (sub x (Memᴰ.head refl)) (λ y l. sub y (Memᴰ.tail l)) in
        subst (Greatest m (x ∷ xs) all) (sym (max_from_step m x xs ∙ rw e refl))
          (there, ordered.le_trans m x _ (ordered.asymm m x e) high, (high, rest))
    | inr e ↦
        let (there, high, rest) = max_from_lem m xs all k (λ y l. sub y (Memᴰ.tail l)) in
        subst (Greatest m (x ∷ xs) all) (sym (max_from_step m x xs ∙ rw e refl))
          (there, high, (ordered.le_trans x m _ e high, rest))
  ]

  -- Where `<` orders the floats, minF and maxF of a slice that is not empty are elements of it, and
  -- every element lies between them.
  pub min_of-max_of :
      (x : F) (xs : List F)
      → Memᴰ (min_of fl (x ∷ xs)) (x ∷ xs)
        × Memᴰ (max_of fl (x ∷ xs)) (x ∷ xs)
        × All
            (λ y. Le fl ordered (min_of fl (x ∷ xs)) y × Le fl ordered y (max_of fl (x ∷ xs)))
            (x ∷ xs)
  unfolding min_of max_of
  min_of-max_of x xs =
      let (m, low, lows) = min_from_lem x xs (x ∷ xs) (Memᴰ.head refl) (λ y k. Memᴰ.tail k) in
      let (n, high, highs) = max_from_lem x xs (x ∷ xs) (Memᴰ.head refl) (λ y k. Memᴰ.tail k) in
      (m, n, ((low, high), both _ _ xs lows highs))
    where
      both : (P Q : F → Type 0) (ys : List F) → All P ys → All Q ys → All (λ y. P y × Q y) ys
      both P Q [] h k = tt
      both P Q (y ∷ ys) h k = ((h.0, k.0), both P Q ys h.1 k.1)
