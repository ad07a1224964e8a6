-- ===== src/Examples/Statistics.antt =====
-- Statistics over whole numbers in place of floats.
use native.Mathlib.Nat.{mul-le-mul_right}
use queue_benchmark.Prelude.{ℕ, ◌+◌, ◌-◌, ◌*◌, ◌/◌, [], ◌∷◌, pos, arith, ltb}
use queue_benchmark.Prelude.Int.{pos_part}
use queue_benchmark.Analyze.Float.{Float, IsOrdered, IsMonotone}
use queue_benchmark.Analyze.Stats.{summarize}
use queue_benchmark.Analyze.Stats.Summary.{IsSummary, summarize_lem}

-- Hundredths: the literal n / 100 is n, a count n is 100 n.
abbrev pub hundreds : Float
hundreds = record {
  F = ℕ;
  lt = ltb;
  add = λ a b. a + b;
  sub = λ a b. a - b;
  mul = λ a b. a * b / 100;
  div = λ a b. a * 100 / b;
  of_int = λ n. pos_part n * 100;
  to_int = λ x. pos (x / 100);
  ceil = λ x. pos ((x + 99) / 100);
  hundredths = λ n. n;
}

hundreds-IsOrdered : IsOrdered hundreds
hundreds-IsOrdered = record { asymm = λ a b h. ground arith; le_trans = λ a b c h k. ground arith }

hundreds-IsMonotone : IsMonotone hundreds
hundreds-IsMonotone a b n h = omega (arith, mul-le-mul_right (n * 100) h)

summarize_lem_example :
    IsSummary hundreds hundreds-IsOrdered
      (300 ∷ 100 ∷ 200 ∷ [])
      (summarize hundreds (300 ∷ 100 ∷ 200 ∷ []))
summarize_lem_example =
    summarize_lem hundreds hundreds-IsOrdered hundreds-IsMonotone 300 (100 ∷ 200 ∷ [])
