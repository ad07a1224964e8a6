-- ===== src/Analyze/Stats/Summary.antt =====
-- What `summarize` and `median` return.
use mathlib.Core.List.{Mem}
use mathlib.Core.List.Perm
use queue_benchmark.Prelude.{
  ℕ, ◌-◌, ◌/◌, ◌≤◌, ◌<◌, ◌≡◌, refl, List, ◌∷◌, pos, arith, length, get_or, ◌+◌, ap, ◌∙◌, All, ℤ,
}
use queue_benchmark.Analyze.Float.{Float, IsOrdered, IsMonotone}
use queue_benchmark.Analyze.Stats.{
  LatencyStats, clamp_index, sort, percentile, summarize, median, nought,
}
use queue_benchmark.Analyze.Stats.Sorting.{
  Le, sort-Pairs, sort-perm, length-sort, get_or_mono, get_or-Memᴰ, clamp_index-lt,
  clamp_index_mono, clamp_index-rank, All-sort, least_first, greatest_last,
}

module _ (fl : Float) (ordered : IsOrdered fl) where
  open fl use {F, lt}

  -- The value at an index of the sorted samples is one of the samples.
  sorted-mem : (xs : List F) (i : ℕ) → i < length xs → Mem (get_or (sort fl xs) i (nought fl)) xs
  sorted-mem xs i h =
      (Perm.mem_iff (sort-perm fl ordered xs)).0
        ∣ get_or-Memᴰ fl ordered (sort fl xs) i (nought fl)
          (omega (arith, length-sort fl ordered xs)) ∣₁

  -- The rank of a percentile among n samples, as it is computed with floats.
  abbrev pub float_rank : (p n : ℕ) → ℤ
  float_rank p n = fl.ceil (fl.mul (fl.hundredths p) (fl.of_int (pos n)))

  -- A value that has a rank between 1 and the number of samples has that position, counted from 1, in
  -- the sorted samples.
  abbrev pub IsRanked : (p : ℕ) (xs : List F) → F → Type 0
  IsRanked p xs v =
      (k : ℕ)
      → k < length xs
      → float_rank p (length xs) ≡ pos (k + 1)
      → v ≡ get_or (sort fl xs) k (nought fl)

  -- The five samples are in order, the percentiles have their ranks, and every sample lies between the
  -- minimum and the maximum.
  pub record IsSummary (xs : List F) (s : LatencyStats fl) : Type 0 where
    pub counted : s.count ≡ length xs
    pub min_le : Le fl ordered s.minimum s.p50
    pub p50_le : Le fl ordered s.p50 s.p95
    pub p95_le : Le fl ordered s.p95 s.p99
    pub p99_le : Le fl ordered s.p99 s.maximum
    pub min_mem : Mem s.minimum xs
    pub p50_mem : Mem s.p50 xs
    pub p95_mem : Mem s.p95 xs
    pub p99_mem : Mem s.p99 xs
    pub max_mem : Mem s.maximum xs
    pub p50_ranked : IsRanked 50 xs s.p50
    pub p95_ranked : IsRanked 95 xs s.p95
    pub p99_ranked : IsRanked 99 xs s.p99
    pub min_least : All (λ x. Le fl ordered s.minimum x) xs
    pub max_greatest : All (λ x. Le fl ordered x s.maximum) xs

  module _ (monotone : IsMonotone fl) (xs : List F) (some_left : 0 < length xs) where
    count : 0 < length (sort fl xs)
    count = omega (arith, length-sort fl ordered xs)

    at : ℕ → F
    at i = get_or (sort fl xs) i (nought fl)

    rank : ℕ → ℕ
    rank p =
        clamp_index (fl.ceil (fl.mul (fl.hundredths p) (fl.of_int (pos (length (sort fl xs))))))
          (length (sort fl xs))

    rank-lt : (p : ℕ) → rank p < length (sort fl xs)
    unfolding rank
    rank-lt p =
        clamp_index-lt (fl.ceil (fl.mul (fl.hundredths p) (fl.of_int (pos (length (sort fl xs))))))
          (length (sort fl xs)) count

    rank_mono : (p q : ℕ) → p ≤ q → rank p ≤ rank q
    unfolding rank
    rank_mono p q h =
        clamp_index_mono
          (fl.ceil (fl.mul (fl.hundredths p) (fl.of_int (pos (length (sort fl xs))))))
          (fl.ceil (fl.mul (fl.hundredths q) (fl.of_int (pos (length (sort fl xs))))))
          (length (sort fl xs)) count (monotone p q (length (sort fl xs)) h)

    at_mono : (i j : ℕ) → i ≤ j → j < length (sort fl xs) → Le fl ordered (at i) (at j)
    unfolding at
    at_mono i j h l =
        get_or_mono fl ordered (sort fl xs) i j (nought fl) (sort-Pairs fl ordered xs) h l

    at-mem : (i : ℕ) → i < length (sort fl xs) → Mem (at i) xs
    unfolding at
    at-mem i h = sorted-mem xs i (omega (arith, length-sort fl ordered xs))

    last-lt : length (sort fl xs) - 1 < length (sort fl xs)
    last-lt = omega (arith, count)

    percentile-at : (p : ℕ) → percentile fl p (sort fl xs) ≡ at (rank p)
    unfolding percentile at rank
    percentile-at p = refl

    percentile_in_order :
        (p q : ℕ)
        → p ≤ q
        → Le fl ordered (percentile fl p (sort fl xs)) (percentile fl q (sort fl xs))
    unfolding percentile at rank
    percentile_in_order p q h = at_mono (rank p) (rank q) (rank_mono p q h) (rank-lt q)

    percentile-ge_first : (p : ℕ) → Le fl ordered (at 0) (percentile fl p (sort fl xs))
    unfolding percentile at rank
    percentile-ge_first p = at_mono 0 (rank p) (omega arith) (rank-lt p)

    percentile-le_last :
        (p : ℕ) → Le fl ordered (percentile fl p (sort fl xs)) (at (length (sort fl xs) - 1))
    unfolding percentile at rank
    percentile-le_last p =
        at_mono (rank p) (length (sort fl xs) - 1) (omega (arith, rank-lt p)) last-lt

    percentile-mem : (p : ℕ) → Mem (percentile fl p (sort fl xs)) xs
    unfolding percentile at rank
    percentile-mem p = at-mem (rank p) (rank-lt p)

    percentile-IsRanked : (p : ℕ) → IsRanked p xs (percentile fl p (sort fl xs))
    unfolding percentile
    percentile-IsRanked p k h e =
        let same : length (sort fl xs) ≡ length xs = length-sort fl ordered xs in
        ap (λ i. get_or (sort fl xs) i (nought fl))
          (ap (λ n. clamp_index (float_rank p n) n) same
            ∙ ap (λ r. clamp_index r (length xs)) e
            ∙ clamp_index-rank k (length xs) h)

    sample-ge_first : All (λ x. Le fl ordered (at 0) x) xs
    unfolding at
    sample-ge_first =
        All-sort fl ordered (λ x. Le fl ordered (get_or (sort fl xs) 0 (nought fl)) x) xs
          (least_first fl ordered (sort fl xs) (nought fl) (sort-Pairs fl ordered xs))

    sample-le_last : All (λ x. Le fl ordered x (at (length (sort fl xs) - 1))) xs
    unfolding at
    sample-le_last =
        let i = length (sort fl xs) - 1 in
        All-sort fl ordered (λ x. Le fl ordered x (get_or (sort fl xs) i (nought fl))) xs
          (greatest_last fl ordered (sort fl xs) i (nought fl) (omega (arith, count))
            (sort-Pairs fl ordered xs))

  -- The median of samples is one of them.
  pub median-mem : (xs : List F) → 0 < length xs → Mem (median fl xs) xs
  unfolding median
  median-mem xs h = sorted-mem xs (length xs / 2) (omega (arith, h))

  -- Where `<` orders the floats and rounding ranks up is monotone, summarize returns for one or more
  -- samples their number, and five of the samples in ascending order: minimum, p50, p95, p99, maximum. No sample is below the minimum or above
  -- the maximum; and a percentile whose rank, as the floats compute it, lies between 1 and the number
  -- of samples is the sample of that rank.
  pub summarize_lem :
      IsMonotone fl → (x : F) (rest : List F) → IsSummary (x ∷ rest) (summarize fl (x ∷ rest))
  unfolding summarize at
  summarize_lem mono x rest =
      let some_left : 0 < length (x ∷ rest) = omega arith in
      record {
        counted = refl;
        min_le = percentile-ge_first mono (x ∷ rest) some_left 50;
        p50_le = percentile_in_order mono (x ∷ rest) some_left 50 95 (omega arith);
        p95_le = percentile_in_order mono (x ∷ rest) some_left 95 99 (omega arith);
        p99_le = percentile-le_last mono (x ∷ rest) some_left 99;
        min_mem = at-mem mono (x ∷ rest) some_left 0 (count mono (x ∷ rest) some_left);
        p50_mem = percentile-mem mono (x ∷ rest) some_left 50;
        p95_mem = percentile-mem mono (x ∷ rest) some_left 95;
        p99_mem = percentile-mem mono (x ∷ rest) some_left 99;
        max_mem =
            at-mem mono (x ∷ rest) some_left (length (sort fl (x ∷ rest)) - 1)
              (last-lt mono (x ∷ rest) some_left);
        p50_ranked = percentile-IsRanked mono (x ∷ rest) some_left 50;
        p95_ranked = percentile-IsRanked mono (x ∷ rest) some_left 95;
        p99_ranked = percentile-IsRanked mono (x ∷ rest) some_left 99;
        min_least = sample-ge_first mono (x ∷ rest) some_left;
        max_greatest = sample-le_last mono (x ∷ rest) some_left;
      }
