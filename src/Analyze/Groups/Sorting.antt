-- ===== src/Analyze/Groups/Sorting.antt =====
-- What sorting keeps.
use queue_benchmark.Prelude.{
  ℕ, ◌+◌, ◌≡◌, refl, ap, ◌∙◌, ◌≢◌, inl, inr, Bool, true, false, List, [], ◌∷◌, count_if, All,
  All-mono, Pairs, Bool-cases, arith, Text, ◌==◌,
}
use queue_benchmark.Prelude.Bytes.{text_lt}
use queue_benchmark.Analyze.Groups.{insert_by, sort_by}

count_if-insert_by :
    {A : Type 0} (q : A → Bool) (less : A → A → Bool) (g : A) (gs : List A)
    → count_if q (insert_by less g gs) ≡ count_if q (g ∷ gs)
unfolding insert_by count_if
count_if-insert_by q less g [] = refl
count_if-insert_by q less g (h ∷ hs) = elim (Bool-cases (less h g)) [
  | inl e ↦ rw e (omega (arith, count_if-insert_by q less g hs))
  | inr e ↦ rw e refl
]

pub count_if-sort_by :
    {A : Type 0} (q : A → Bool) (less : A → A → Bool) (gs : List A)
    → count_if q (sort_by less gs) ≡ count_if q gs
unfolding sort_by count_if
count_if-sort_by q less [] = refl
count_if-sort_by q less (g ∷ gs) =
    omega (arith, count_if-insert_by q less g (sort_by less gs), count_if-sort_by q less gs)

All-insert_by :
    {A : Type 0} (P : A → Type 0) (less : A → A → Bool) (g : A) (gs : List A)
    → P g
    → All P gs
    → All P (insert_by less g gs)
unfolding insert_by
All-insert_by P less g [] h a = (h, tt)
All-insert_by P less g (k ∷ ks) h a = elim (Bool-cases (less k g)) [
  | inl e ↦ rw e (a.0, All-insert_by P less g ks h a.1)
  | inr e ↦ rw e (h, a)
]

pub All-sort_by :
    {A : Type 0} (P : A → Type 0) (less : A → A → Bool) (gs : List A)
    → All P gs
    → All P (sort_by less gs)
unfolding sort_by
All-sort_by P less [] a = tt
All-sort_by P less (g ∷ gs) a =
    All-insert_by P less g (sort_by less gs) a.0 (All-sort_by P less gs a.1)

unfoldable pub sum_by : {A : Type 0} → (A → ℕ) → List A → ℕ
sum_by f [] = 0
sum_by f (x ∷ xs) = f x + sum_by f xs

sum_by-insert_by :
    {A : Type 0} (f : A → ℕ) (less : A → A → Bool) (x : A) (xs : List A)
    → sum_by f (insert_by less x xs) ≡ f x + sum_by f xs
unfolding insert_by sum_by
sum_by-insert_by f less x [] = refl
sum_by-insert_by f less x (y ∷ ys) = ground (arith, sum_by-insert_by f less x ys)

-- A sum does not depend on the order.
pub sum_by-sort_by :
    {A : Type 0} (f : A → ℕ) (less : A → A → Bool) (xs : List A)
    → sum_by f (sort_by less xs) ≡ sum_by f xs
unfolding sort_by sum_by
sum_by-sort_by f less [] = refl
sum_by-sort_by f less (x ∷ xs) =
    omega (arith, sum_by-insert_by f less x (sort_by less xs), sum_by-sort_by f less xs)

text_lt_total : (s t : Text) → text_lt t s ≡ false → s ≢ t → text_lt s t ≡ true
unfolding text_lt
text_lt_total [] [] h n = absurd (n refl)
text_lt_total [] (y ∷ t) h n = refl
text_lt_total (x ∷ s) [] h n = absurd (cc h)
text_lt_total (x ∷ s) (y ∷ t) h n = elim (Bool-cases (x == y)) [
  | inl e ↦
      let same : x ≡ y = ground (arith, e) in
      ground (
        arith,
        e,
        text_lt_total s t (ground (arith, h, e))
            (λ f. n (ap (λ z. z ∷ s) same ∙ ap (λ z. y ∷ z) f)),
      )
  | inr e ↦ ground (arith, h, e)
]

pub text_lt_trans : (s t u : Text) → text_lt s t ≡ true → text_lt t u ≡ true → text_lt s u ≡ true
unfolding text_lt
text_lt_trans [] [] [] h k = absurd (cc h)
text_lt_trans [] (y ∷ t) [] h k = absurd (cc k)
text_lt_trans [] t (z ∷ u) h k = refl
text_lt_trans (x ∷ s) [] u h k = absurd (cc h)
text_lt_trans (x ∷ s) (y ∷ t) [] h k = absurd (cc k)
text_lt_trans (x ∷ s) (y ∷ t) (z ∷ u) h k = ground (arith, h, k, text_lt_trans s t u)

-- Strictly increasing texts.
abbrev pub Increasing : List Text → Type 0
Increasing = Pairs (λ s t. text_lt s t ≡ true)

insert_by-Increasing :
    (x : Text) (xs : List Text)
    → All (λ y. x ≢ y) xs
    → Increasing xs
    → Increasing (insert_by text_lt x xs)
unfolding insert_by
insert_by-Increasing x [] n h = (tt, tt)
insert_by-Increasing x (y ∷ ys) n h = elim (Bool-cases (text_lt y x)) [
  | inl e ↦ rw e (
    All-insert_by (λ z. text_lt y z ≡ true) text_lt x ys e h.0,
    insert_by-Increasing x ys n.1 h.1,
  )
  | inr e ↦
      let first = text_lt_total x y e n.0 in
      rw e (
        (
          first,
          All-mono (λ z. text_lt y z ≡ true) (λ z. text_lt x z ≡ true) ys
              (λ z l. text_lt_trans x y z first l) h.0,
        ),
        h,
      )
]

-- Different texts are sorted into strictly increasing order.
pub sort_by-Increasing :
    (xs : List Text) → Pairs (λ s t. s ≢ t) xs → Increasing (sort_by text_lt xs)
unfolding sort_by
sort_by-Increasing [] h = tt
sort_by-Increasing (x ∷ xs) h =
    insert_by-Increasing x (sort_by text_lt xs) (All-sort_by (λ y. x ≢ y) text_lt xs h.0)
      (sort_by-Increasing xs h.1)
