-- ===== src/Prelude/Decimal.antt =====
-- Reading back what `%d` writes.
use Prim.Native.Nat.{ℕ, zero, suc, ◌+◌, ◌-◌, ◌*◌, ◌/◌, ◌%◌, ◌^◌, ◌<◌}
use native.Mathlib.Nat.{pow-suc}
use mathlib.Core.Path.{◌≡◌, sym, ap, ◌∙◌}
use mathlib.Core.Logic.{inl, inr}
use mathlib.Core.Bool.{Bool, true, false}
use mathlib.Core.List.{[], ◌∷◌}
use native.Mathlib.Omega.{arith}
use queue_benchmark.Prelude.Tests.{◌==◌, if◌then◌else◌, Bool-cases}
use queue_benchmark.Prelude.Bytes.{Text, digits, format_uint}

-- The number whose digits stand behind those of another.
unfoldable pub value_from : ℕ → Text → ℕ
value_from n [] = n
value_from n (d ∷ ds) = value_from (n * 10 + (d - b'0')) ds

value_from-digits :
    (f n : ℕ) (out : Text) → n < 10 ^ f → value_from 0 (digits f n out) ≡ value_from n out
unfolding digits value_from
value_from-digits zero n out h = ap (λ k. value_from k out) (omega arith)
value_from-digits (suc f) n out h = elim (Bool-cases (n == 0)) [
  | inl e ↦ rw e (ap (λ k. value_from k out) (ground (arith, e)))
  | inr e ↦ rw e (
      value_from-digits f (n / 10) ((b'0' + n % 10) ∷ out) (omega (arith, h, pow-suc 10 f))
      ∙ ap (λ k. value_from k out) (omega arith))
]

format_uint-zero : (n : ℕ) → (n == 0) ≡ true → format_uint n ≡ b'0' ∷ []
unfolding format_uint
format_uint-zero n e = ap (λ (b : Bool). if b then b'0' ∷ [] else digits 20 n []) e

format_uint-pos : (n : ℕ) → (n == 0) ≡ false → format_uint n ≡ digits 20 n []
unfolding format_uint
format_uint-pos n e = ap (λ (b : Bool). if b then b'0' ∷ [] else digits 20 n []) e

format_uint-value : (n : ℕ) → n < 10 ^ 20 → value_from 0 (format_uint n) ≡ n
unfolding value_from
format_uint-value n h = elim (Bool-cases (n == 0)) [
  | inl e ↦ ap (value_from 0) (format_uint-zero n e) ∙ ground (arith, e)
  | inr e ↦ ap (value_from 0) (format_uint-pos n e) ∙ value_from-digits 20 n [] h
]

-- Different numbers below 10 ^ 20 are written differently.
pub format_uint-injective :
    (n m : ℕ) → n < 10 ^ 20 → m < 10 ^ 20 → format_uint n ≡ format_uint m → n ≡ m
format_uint-injective n m hn hm e =
    sym (format_uint-value n hn) ∙ ap (value_from 0) e ∙ format_uint-value m hm
