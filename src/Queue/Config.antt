-- ===== src/Queue/Config.antt =====
-- `Config` and `Config.Validate` of internal/queue/harness.go.
pub mod Checks
use queue_benchmark.Prelude.{
  ℕ, ◌≡◌, refl, ◌↔◌, ◌⊎◌, inl, inr, Bool, true, false, List, [], ◌∷◌, Option, none, some, Text, ℤ,
  pos, All, arith, text_eq, text_eq_iff, if◌then◌else◌, bytes, Bool-cases, Option-cases, ◌≢◌,
}
use queue_benchmark.Prelude.Int.{ltb_ℤ, leb_ℤ, ◌<ℤ◌, ◌≤ℤ◌}
use queue_benchmark.Queue.{
  Error, Outcome, url_required, queues_required, attempts_too_low, shutdown_too_low,
  workers_too_low,
}

pub record QueueConfig : Type 0 where
  pub max_workers : ℤ

-- `ShutdownTimeout` is a time.Duration in nanoseconds.
pub record Config : Type 0 where
  pub postgres_url : Text
  pub queues : List (Text × QueueConfig)
  pub max_attempts : ℤ
  pub shutdown_timeout : ℤ

-- `for name, qc := range c.Queues { if qc.MaxWorkers <= 0 { return … } }`
unfoldable pub check_queues : List (Text × QueueConfig) → Outcome
check_queues [] = none
check_queues ((name, qc) ∷ rest) =
    if leb_ℤ qc.max_workers (pos 0) then some (workers_too_low name) else check_queues rest

abbrev pub is_empty {ℓ} : {A : Type ℓ} → List A → Bool
is_empty [] = true
is_empty (x ∷ xs) = false

-- The checks that stand behind the loop.
unfoldable pub check_limits : Config → Outcome
check_limits c =
    if ltb_ℤ c.max_attempts (pos 1)
    then some attempts_too_low
    else if leb_ℤ c.shutdown_timeout (pos 0)
    then some shutdown_too_low
    else none

unfoldable pub validate : Config → Outcome
unfolding check_queues check_limits
validate c =
    if text_eq c.postgres_url []
    then some url_required
    else if is_empty c.queues
    then some queues_required
    else elim (check_queues c.queues) [ some e ↦ some e | none ↦ check_limits c ]

-- What a harness may rely on.
pub record IsUsable (c : Config) : Type 0 where
  pub url : c.postgres_url ≢ []
  pub queues : c.queues ≢ []
  pub workers : All (λ (entry : Text × QueueConfig). pos 0 <ℤ entry.1.max_workers) c.queues
  pub attempts : pos 1 ≤ℤ c.max_attempts
  pub timeout : pos 0 <ℤ c.shutdown_timeout
