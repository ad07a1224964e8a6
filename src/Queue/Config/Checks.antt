-- ===== src/Queue/Config/Checks.antt =====
-- What `Config.Validate` accepts.
use queue_benchmark.Prelude.{
  ◌≡◌, refl, ◌↔◌, inl, inr, false, List, [], ◌∷◌, none, Text, pos, All, arith, text_eq, text_eq_iff,
  Bool-cases, ◌≢◌,
}
use queue_benchmark.Prelude.Int.{◌<ℤ◌, ◌≤ℤ◌}
use queue_benchmark.Queue.Config.{
  QueueConfig, Config, check_queues, is_empty, check_limits, validate, IsUsable,
}

Staffed : List (Text × QueueConfig) → Type 0
Staffed queues = All (λ (entry : Text × QueueConfig). pos 0 <ℤ entry.1.max_workers) queues

-- The loop passes exactly the queues that all have a worker.
check_queues-none :
    (queues : List (Text × QueueConfig)) → check_queues queues ≡ none → Staffed queues
unfolding check_queues Staffed
check_queues-none [] h = tt
check_queues-none ((name, qc) ∷ rest) h =
    (ground (arith, h), check_queues-none rest (ground (arith, h)))

check_queues-Staffed :
    (queues : List (Text × QueueConfig)) → Staffed queues → check_queues queues ≡ none
unfolding check_queues Staffed
check_queues-Staffed [] h = refl
check_queues-Staffed ((name, qc) ∷ rest) h = ground (arith, check_queues-Staffed rest h.1, h.0)

check_limits-none :
    (c : Config) → check_limits c ≡ none → (pos 1 ≤ℤ c.max_attempts) × (pos 0 <ℤ c.shutdown_timeout)
unfolding check_limits
check_limits-none c h = (ground (arith, h), ground (arith, h))

check_limits-ok :
    (c : Config) → pos 1 ≤ℤ c.max_attempts → pos 0 <ℤ c.shutdown_timeout → check_limits c ≡ none
unfolding check_limits
check_limits-ok c h k = ground (arith, h, k)

is_empty-false : {A : Type 0} (xs : List A) → is_empty xs ≡ false → xs ≢ []
is_empty-false [] h = absurd (cc h)
is_empty-false (x ∷ xs) h = λ e. absurd (cc e)

is_empty-of : {A : Type 0} (xs : List A) → xs ≢ [] → is_empty xs ≡ false
is_empty-of [] h = absurd (h refl)
is_empty-of (x ∷ xs) h = refl

validate_parts :
    (c : Config)
    → validate c ≡ none
    → (text_eq c.postgres_url [] ≡ false)
      × (is_empty c.queues ≡ false)
      × (check_queues c.queues ≡ none)
      × (check_limits c ≡ none)
unfolding validate
validate_parts c h = ground (arith, h)

validate_of :
    (c : Config)
    → text_eq c.postgres_url [] ≡ false
    → is_empty c.queues ≡ false
    → check_queues c.queues ≡ none
    → check_limits c ≡ none
    → validate c ≡ none
unfolding validate
validate_of c a b d e = rw (a, b, d) e

url_present : (u : Text) → text_eq u [] ≡ false → u ≢ []
url_present u h e = absurd (cc (h, (text_eq_iff u []).1 e))

text_eq-absent : (u : Text) → u ≢ [] → text_eq u [] ≡ false
text_eq-absent u h = elim (Bool-cases (text_eq u [])) [
  | inl e ↦ absurd (h ((text_eq_iff u []).0 e))
  | inr e ↦ e
]

-- Validate accepts exactly the configurations that have a URL, at least one queue, at least one
-- worker in every queue, at least one attempt and a positive shutdown timeout.
pub validate-IsUsable : (c : Config) → validate c ≡ none ↔ IsUsable c
unfolding Staffed
validate-IsUsable c = (
  λ h.
      let p = validate_parts c h in
      let l = check_limits-none c p.3 in
      record {
        url = url_present c.postgres_url p.0;
        queues = is_empty-false c.queues p.1;
        workers = check_queues-none c.queues p.2;
        attempts = l.0;
        timeout = l.1;
      },
  λ u.
      validate_of c (text_eq-absent c.postgres_url u.url) (is_empty-of c.queues u.queues)
        (check_queues-Staffed c.queues u.workers) (check_limits-ok c u.attempts u.timeout),
)
