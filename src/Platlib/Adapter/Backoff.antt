-- ===== src/Platlib/Adapter/Backoff.antt =====
-- ExponentialBackoffRiverLike, where its delay fits an int64.
use native.Mathlib.Nat.{mul-le-mul}
use queue_benchmark.Prelude.{ℕ, ◌+◌, ◌*◌, ◌≤◌, ◌<◌, ◌≡◌, arith, pos}
use queue_benchmark.Prelude.Int.{second, wrap_small, two_63}
use queue_benchmark.Platlib.Adapter.{exponential_backoff, previous_int32, at_least_one}

-- The n-th failure waits n⁴ seconds.
abbrev pub fourth : ℕ → ℕ
fourth n = n * n * n * n

fourth_le : (n : ℕ) → n ≤ 309 → fourth n ≤ fourth 309
fourth_le n h = mul-le-mul (mul-le-mul (mul-le-mul h h) h) h

previous_pos : (n : ℕ) → n < 310 → previous_int32 (pos (n + 1)) ≡ pos n
unfolding previous_int32
previous_pos n h = ground arith

at_least_one_pos : (n : ℕ) → 1 ≤ n → at_least_one (pos n) ≡ n
unfolding at_least_one
at_least_one_pos n h = ground arith

-- Behind the n-th failed attempt, for n from 1 to 309, the delay is n⁴ seconds exactly: no int64
-- product wraps.
pub exponential_backoff_exact :
    (n : ℕ) → 1 ≤ n → n ≤ 309 → exponential_backoff (pos (n + 1)) ≡ pos (fourth n * second)
unfolding exponential_backoff
exponential_backoff_exact n h k =
    rw (previous_pos n (omega arith), at_least_one_pos n h)
      (wrap_small two_63 (fourth n * second) (omega (arith, fourth_le n k)))
