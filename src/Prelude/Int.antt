-- ===== src/Prelude/Int.antt =====
-- Go's signed machine integers over the native numbers, under the library's name ℤ, and the
-- conversions between the 64-bit types.
use Prim.Native.Nat.{ℕ, suc, ◌+◌, ◌-◌, ◌*◌, ◌%◌, ◌≤◌, ◌<◌}
use native.Mathlib.Nat.{mod-eq_of_lt}
use mathlib.Core.Path.{◌≡◌}
use mathlib.Core.Bool.{Bool}
use native.Mathlib.Omega.{arith}
use queue_benchmark.Prelude.Tests.{ltb, leb, if◌then◌else◌, ◌==◌}

-- `negsuc n` is -(n + 1).
pub data ℤ : Type 0 where
  pos : ℕ → ℤ
  negsuc : ℕ → ℤ

abbrev pub pos_part : ℤ → ℕ
pos_part (pos n) = n
pos_part (negsuc n) = 0

abbrev pub neg_part : ℤ → ℕ
neg_part (pos n) = 0
neg_part (negsuc n) = suc n

-- a - b, as an integer.
abbrev pub sub_ℕ : ℕ → ℕ → ℤ
sub_ℕ a b = if leb b a then pos (a - b) else negsuc (b - a - 1)

abbrev pub ltb_ℤ : ℤ → ℤ → Bool
ltb_ℤ a b = ltb (pos_part a + neg_part b) (pos_part b + neg_part a)

abbrev pub leb_ℤ : ℤ → ℤ → Bool
leb_ℤ a b = leb (pos_part a + neg_part b) (pos_part b + neg_part a)

infix 50 ◌≤ℤ◌ ◌<ℤ◌
abbrev pub ◌≤ℤ◌ : ℤ → ℤ → Type 0
a ≤ℤ b = pos_part a + neg_part b ≤ pos_part b + neg_part a

abbrev pub ◌<ℤ◌ : ℤ → ℤ → Type 0
a <ℤ b = pos_part a + neg_part b < pos_part b + neg_part a

pub eq_of_parts : (a b : ℤ) → pos_part a + neg_part b ≡ pos_part b + neg_part a → a ≡ b
eq_of_parts a b h = ground arith

-- 2 ^ 64 and 2 ^ 63.
abbrev pub two_64 : ℕ
two_64 = 18446744073709551616

abbrev pub two_63 : ℕ
two_63 = 9223372036854775808

-- `int64(x)` of a uint64 x: the bit pattern read as two's complement.
unfoldable pub to_int64 : ℕ → ℤ
to_int64 x = if ltb x two_63 then pos x else sub_ℕ x two_64

-- `uint64(x)` of an int64 x.
unfoldable pub to_uint64 : ℤ → ℕ
to_uint64 (pos n) = n
to_uint64 (negsuc n) = two_64 - (n + 1)

pub to_uint64-to_int64 : (x : ℕ) → x < two_64 → to_uint64 (to_int64 x) ≡ x
unfolding to_int64 to_uint64
to_uint64-to_int64 x h = ground arith

-- The conversion keeps different values different.
pub to_int64-injective : (x y : ℕ) → x < two_64 → y < two_64 → to_int64 x ≡ to_int64 y → x ≡ y
unfolding to_int64
to_int64-injective x y hx hy e = ground arith

abbrev pub eq_ℤ : ℤ → ℤ → Bool
eq_ℤ a b = pos_part a + neg_part b == pos_part b + neg_part a

abbrev pub two_31 : ℕ
two_31 = 2147483648

-- `int64` and `int32` results of arithmetic wrap around: the integer with the same low bits.
unfoldable pub wrap_signed : (half : ℕ) → ℤ → ℤ
wrap_signed half (pos n) =
    let m = n % (2 * half) in if ltb m half then pos m else sub_ℕ m (2 * half)
wrap_signed half (negsuc n) =
    let m = 2 * half - 1 - n % (2 * half) in if ltb m half then pos m else sub_ℕ m (2 * half)

pub wrap_small : (half m : ℕ) → m < half → wrap_signed half (pos m) ≡ pos m
unfolding wrap_signed
wrap_small half m h = rw (mod-eq_of_lt {n = m} {m = 2 * half} (omega arith)) (ground arith)

-- `a + b` and `a - b` in int64.
unfoldable pub add_int64 : ℤ → ℤ → ℤ
unfolding wrap_signed
add_int64 a b = wrap_signed two_63 (sub_ℕ (pos_part a + pos_part b) (neg_part a + neg_part b))

unfoldable pub sub_int64 : ℤ → ℤ → ℤ
unfolding wrap_signed
sub_int64 a b = wrap_signed two_63 (sub_ℕ (pos_part a + neg_part b) (neg_part a + pos_part b))

-- time.Duration counts nanoseconds.
abbrev pub second : ℕ
second = 1000000000
