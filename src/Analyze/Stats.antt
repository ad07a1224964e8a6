-- ===== src/Analyze/Stats.antt =====
-- `summarize`, `medianF`, `minF`, `maxF` of internal/analyze/analyze.go.
pub mod Sorting
pub mod Summary
pub mod Extremes
use queue_benchmark.Prelude.{
  ℕ, zero, suc, ◌+◌, ◌-◌, ◌/◌, ◌≡◌, Bool, true, false, List, [], ◌∷◌, ℤ, pos, length, get_or,
  if◌then◌else◌,
}
use queue_benchmark.Prelude.Int.{pos_part, neg_part, sub_ℕ, ltb_ℤ, leb_ℤ}
use queue_benchmark.Analyze.Float.{Float}

-- The index that `pct` reads in a sorted slice of length n, from the rank that it computes.
unfoldable pub clamp_index : ℤ → ℕ → ℕ
clamp_index rank n =
    let idx = sub_ℕ (pos_part rank) (neg_part rank + 1) in
    if ltb_ℤ idx (pos 0) then 0 else if leb_ℤ (pos n) idx then n - 1 else pos_part idx

module _ (fl : Float) where
  open fl use {F, lt, add, mul, div, of_int, ceil, hundredths}

  pub record LatencyStats : Type 0 where
    pub count : ℕ
    pub minimum : F
    pub p50 : F
    pub p95 : F
    pub p99 : F
    pub maximum : F
    pub mean : F

  -- sort.Float64s.
  unfoldable pub insert : F → List F → List F
  insert x [] = x ∷ []
  insert x (y ∷ ys) = if lt y x then y ∷ insert x ys else x ∷ y ∷ ys

  unfoldable pub sort : List F → List F
  unfolding insert
  sort [] = []
  sort (x ∷ xs) = insert x (sort xs)

  -- The zero value of a float64.
  abbrev pub nought : F
  nought = of_int (pos 0)

  -- `pct`, for a percentile in hundredths.
  unfoldable pub percentile : ℕ → List F → F
  unfolding clamp_index
  percentile p sorted =
      get_or sorted
        (clamp_index (ceil (mul (hundredths p) (of_int (pos (length sorted))))) (length sorted))
        nought

  unfoldable pub sum_from : F → List F → F
  sum_from acc [] = acc
  sum_from acc (x ∷ xs) = sum_from (add acc x) xs

  unfoldable pub summarize : List F → LatencyStats
  unfolding sort percentile sum_from
  summarize [] = record {
    count = 0;
    minimum = nought;
    p50 = nought;
    p95 = nought;
    p99 = nought;
    maximum = nought;
    mean = nought;
  }
  summarize (x ∷ xs) =
      let sorted = sort (x ∷ xs) in
      record {
        count = length (x ∷ xs);
        minimum = get_or sorted 0 nought;
        p50 = percentile 50 sorted;
        p95 = percentile 95 sorted;
        p99 = percentile 99 sorted;
        maximum = get_or sorted (length sorted - 1) nought;
        mean = div (sum_from nought (x ∷ xs)) (of_int (pos (length (x ∷ xs))));
      }

  unfoldable pub median : List F → F
  unfolding sort
  median xs = get_or (sort xs) (length xs / 2) nought

  -- The loops of `minF` and `maxF`.
  unfoldable pub min_from : F → List F → F
  min_from m [] = m
  min_from m (x ∷ xs) = min_from (if lt x m then x else m) xs

  unfoldable pub max_from : F → List F → F
  max_from m [] = m
  max_from m (x ∷ xs) = max_from (if lt m x then x else m) xs

  unfoldable pub min_of : List F → F
  unfolding min_from
  min_of [] = nought
  min_of (x ∷ xs) = min_from x xs

  unfoldable pub max_of : List F → F
  unfolding max_from
  max_of [] = nought
  max_of (x ∷ xs) = max_from x xs
