-- ===== src/Analyze/Float.antt =====
-- float64, as far as the analyzer uses it. There are no floats here: the type and its operations
-- are a parameter, and what IEEE 754 says of them away from NaN is stated by itself.
use queue_benchmark.Prelude.{ℕ, ◌≤◌, ◌≡◌, Bool, true, false, ℤ, pos}
use queue_benchmark.Prelude.Int.{◌≤ℤ◌}

pub record Float : Type 1 where
  pub F : Type 0
  pub lt : F → F → Bool
  pub add : F → F → F
  pub sub : F → F → F
  pub mul : F → F → F
  pub div : F → F → F
  -- `float64(n)`.
  pub of_int : ℤ → F
  -- `int(math.Ceil(x))`.
  pub ceil : F → ℤ
  -- `int64(x)`.
  pub to_int : F → ℤ
  -- The literal n / 100.
  pub hundredths : ℕ → F

-- `<` orders the values that occur: without NaN it is asymmetric, and `not (b < a)` is transitive.
pub record IsOrdered (fl : Float) : Type 0 where
  pub asymm : (a b : fl.F) → fl.lt a b ≡ true → fl.lt b a ≡ false
  pub le_trans : (a b c : fl.F) → fl.lt b a ≡ false → fl.lt c b ≡ false → fl.lt c a ≡ false

-- Rounding up a product is monotone in the literal that stands on its left.
abbrev pub IsMonotone : Float → Type 0
IsMonotone fl =
    (a b n : ℕ)
    → a ≤ b
    → fl.ceil (fl.mul (fl.hundredths a) (fl.of_int (pos n)))
      ≤ℤ fl.ceil (fl.mul (fl.hundredths b) (fl.of_int (pos n)))
