-- ===== src/Analyze/Stats/Sorting.antt =====
-- The sort that the statistics rest on: a sorted permutation, read by index.
use mathlib.Core.List.{Perm, Memᴰ}
use mathlib.Core.List.Perm
use queue_benchmark.Prelude.{
  ℕ, zero, suc, pos, ◌+◌, ◌≤◌, ◌<◌, ◌≡◌, refl, inl, inr, false, List, [], ◌∷◌, ℤ, arith, length,
  get_or, All, All-mono, Pairs, Bool-cases,
}
use queue_benchmark.Prelude.Int.{◌≤ℤ◌}
use queue_benchmark.Analyze.Float.{Float, IsOrdered}
use queue_benchmark.Analyze.Stats.{clamp_index, insert, sort}

module _ (fl : Float) (ordered : IsOrdered fl) where
  open fl use {F, lt}

  -- a ≤ b, as the floats decide it.
  abbrev pub Le : F → F → Type 0
  Le a b = lt b a ≡ false

  pub Le_refl : (a : F) → Le a a
  Le_refl a = elim (Bool-cases (lt a a)) [ inl e ↦ ordered.asymm a a e | inr e ↦ e ]

  insert-All : (P : F → Type 0) (x : F) (ys : List F) → P x → All P ys → All P (insert fl x ys)
  unfolding insert
  insert-All P x [] p h = (p, tt)
  insert-All P x (y ∷ ys) p h = elim (Bool-cases (lt y x)) [
    | inl e ↦ rw e (h.0, insert-All P x ys p h.1)
    | inr e ↦ rw e (p, h)
  ]

  insert-Pairs : (x : F) (ys : List F) → Pairs Le ys → Pairs Le (insert fl x ys)
  unfolding insert
  insert-Pairs x [] h = (tt, tt)
  insert-Pairs x (y ∷ ys) h = elim (Bool-cases (lt y x)) [
    | inl e ↦ rw e (insert-All (Le y) x ys (ordered.asymm y x e) h.0, insert-Pairs x ys h.1)
    | inr e ↦ rw e ((e, All-mono (Le y) (Le x) ys (λ z l. ordered.le_trans x y z e l) h.0), h)
  ]

  pub sort-Pairs : (xs : List F) → Pairs Le (sort fl xs)
  unfolding sort
  sort-Pairs [] = tt
  sort-Pairs (x ∷ xs) = insert-Pairs x (sort fl xs) (sort-Pairs xs)

  insert-perm : (x : F) (ys : List F) → Perm (insert fl x ys) (x ∷ ys)
  unfolding insert
  insert-perm x [] = Perm.refl (x ∷ [])
  insert-perm x (y ∷ ys) = elim (Bool-cases (lt y x)) [
    | inl e ↦ rw e (Perm.trans (Perm.cons y (insert-perm x ys)) (Perm.swap x y ys))
    | inr e ↦ rw e (Perm.refl (x ∷ y ∷ ys))
  ]

  pub sort-perm : (xs : List F) → Perm (sort fl xs) xs
  unfolding sort
  sort-perm [] = Perm.refl []
  sort-perm (x ∷ xs) = Perm.trans (insert-perm x (sort fl xs)) (Perm.cons x (sort-perm xs))

  length-insert : (x : F) (ys : List F) → length (insert fl x ys) ≡ suc (length ys)
  unfolding insert
  length-insert x [] = refl
  length-insert x (y ∷ ys) = ground (arith, length-insert x ys)

  pub length-sort : (xs : List F) → length (sort fl xs) ≡ length xs
  unfolding sort
  length-sort [] = refl
  length-sort (x ∷ xs) = omega (arith, length-insert x (sort fl xs), length-sort xs)

  All-insert : (P : F → Type 0) (x : F) (ys : List F) → All P (insert fl x ys) → P x × All P ys
  unfolding insert
  All-insert P x [] h = h
  All-insert P x (y ∷ ys) h = elim (Bool-cases (lt y x)) [
    | inl e ↦
        let (here, rest) : P y × All P (insert fl x ys) = rw e at h in
        let (new, old) = All-insert P x ys rest in (new, (here, old))
    | inr e ↦ let all : P x × All P (y ∷ ys) = rw e at h in all
  ]

  -- What holds of the sorted samples holds of the samples.
  pub All-sort : (P : F → Type 0) (xs : List F) → All P (sort fl xs) → All P xs
  unfolding sort
  All-sort P [] h = tt
  All-sort P (x ∷ xs) h = let (new, old) = All-insert P x (sort fl xs) h in (new, All-sort P xs old)

  -- In a sorted list the value grows with the index.
  get_or-All :
      (P : F → Type 0) (ys : List F) (i : ℕ) (d : F) → i < length ys → All P ys → P (get_or ys i d)
  get_or-All P [] i d h a = absurd (omega arith)
  get_or-All P (y ∷ ys) zero d h a = a.0
  get_or-All P (y ∷ ys) (suc i) d h a = get_or-All P ys i d (omega arith) a.1

  pub get_or_mono :
      (ys : List F) (i j : ℕ) (d : F)
      → Pairs Le ys
      → i ≤ j
      → j < length ys
      → Le (get_or ys i d) (get_or ys j d)
  get_or_mono [] i j d h l k = absurd (omega arith)
  get_or_mono (y ∷ ys) zero zero d h l k = Le_refl y
  get_or_mono (y ∷ ys) zero (suc j) d h l k = get_or-All (Le y) ys j d (omega arith) h.0
  get_or_mono (y ∷ ys) (suc i) zero d h l k = absurd (omega arith)
  get_or_mono (y ∷ ys) (suc i) (suc j) d h l k =
      get_or_mono ys i j d h.1 (omega arith) (omega arith)

  pub least_first : (ys : List F) (d : F) → Pairs Le ys → All (Le (get_or ys 0 d)) ys
  least_first [] d h = tt
  least_first (y ∷ ys) d h = (Le_refl y, h.0)

  pub greatest_last :
      (ys : List F) (i : ℕ) (d : F)
      → length ys ≡ suc i
      → Pairs Le ys
      → All (λ z. Le z (get_or ys i d)) ys
  greatest_last [] i d e h = tt
  greatest_last (y ∷ []) zero d e h = (Le_refl y, tt)
  greatest_last (y ∷ []) (suc i) d e h = absurd (omega (arith, e))
  greatest_last (y ∷ z ∷ zs) zero d e h = absurd (omega (arith, e))
  greatest_last (y ∷ z ∷ zs) (suc i) d e h = (
    get_or_mono (y ∷ z ∷ zs) 0 (suc i) d h (omega arith) (omega (arith, e)),
    greatest_last (z ∷ zs) i d (omega (arith, e)) h.1,
  )

  pub get_or-Memᴰ : (ys : List F) (i : ℕ) (d : F) → i < length ys → Memᴰ (get_or ys i d) ys
  get_or-Memᴰ [] i d h = absurd (omega arith)
  get_or-Memᴰ (y ∷ ys) zero d h = Memᴰ.head refl
  get_or-Memᴰ (y ∷ ys) (suc i) d h = Memᴰ.tail (get_or-Memᴰ ys i d (omega arith))

-- The index that a percentile reads exists, whatever the rank, and grows with the rank.
pub clamp_index-lt : (rank : ℤ) (n : ℕ) → 0 < n → clamp_index rank n < n
unfolding clamp_index
clamp_index-lt rank n h = ground arith

pub clamp_index_mono : (a b : ℤ) (n : ℕ) → 0 < n → a ≤ℤ b → clamp_index a n ≤ clamp_index b n
unfolding clamp_index
clamp_index_mono a b n h l = ground arith

-- A rank between 1 and n is the position of what it reads, counted from 1.
pub clamp_index-rank : (k n : ℕ) → k < n → clamp_index (pos (k + 1)) n ≡ k
unfolding clamp_index
clamp_index-rank k n h = ground arith
