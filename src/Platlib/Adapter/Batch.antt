-- ===== src/Platlib/Adapter/Batch.antt =====
-- EnqueueMany: the ids that it returns, and when it stops.
use mathlib.Core.Path.{subst}
use native.Mathlib.Nat.{mod-eq_of_lt}
use queue_benchmark.Prelude.{
  ℕ, zero, suc, ◌+◌, ◌%◌, ◌≤◌, ◌<◌, ◌≡◌, ◌≢◌, sym, All, Pairs, refl, ◌⊎◌, inl, inr, List, [], ◌∷◌,
  none, some, arith, Text, length,
}
use queue_benchmark.Prelude.Decimal.{format_uint-injective}
use queue_benchmark.Prelude.Int.{two_64}
use queue_benchmark.Queue.{
  Uuid, Kind, JobId, JobPayload, EnqueueRequest, Error, Outcome, Result, ok, err,
}
use queue_benchmark.Platlib.Adapter.{
  Harness, PushFn, address_of, first_push, end_enqueue, enqueue, enqueue_many,
}

-- The addresses of the work ids that follow a counter.
unfoldable pub addresses : ℕ → ℕ → List JobId
addresses zero counter = []
addresses (suc n) counter = let next = (counter + 1) % two_64 in address_of next ∷ addresses n next

-- An enqueue that returns an id has moved the counter to it.
enqueue_counts :
    (push : PushFn) (tenant : Text) (kind : Kind) (payload : JobPayload) (h : Harness) (id : JobId)
    → (enqueue push tenant kind payload h).0 ≡ ok id
    → (id ≡ address_of ((h.counter + 1) % two_64))
      × ((enqueue push tenant kind payload h).1.counter ≡ (h.counter + 1) % two_64)
unfolding enqueue first_push end_enqueue
enqueue_counts push tenant kind payload h id e = ground (arith, e)

-- EnqueueMany returns the addresses of consecutive work ids from the next one on: one for every
-- request when there is no error, and fewer when there is one.
pub enqueue_many_lem :
    (push : PushFn) (to_text : Uuid → Text) (jobs : List EnqueueRequest) (h : Harness)
    → let (ids, e, h') = enqueue_many push to_text jobs h in
      (ids ≡ addresses (length ids) h.counter)
      × (((e ≡ none) × (length ids ≡ length jobs))
          ⊎ ((x : Error) × (e ≡ some x) × (length ids < length jobs)))
unfolding enqueue_many addresses
enqueue_many_lem push to_text [] h = (refl, inl (refl, refl))
enqueue_many_lem push to_text (j ∷ jobs) h =
    go (enqueue push (to_text j.tenant_id) j.kind j.payload h).0 refl
      (enqueue_many_lem push to_text jobs (enqueue push (to_text j.tenant_id) j.kind j.payload h).1)
  where
    done : Harness
    done = (enqueue push (to_text j.tenant_id) j.kind j.payload h).1

    later : List JobId × Outcome × Harness
    later = enqueue_many push to_text jobs done

    go :
        (r : Result JobId)
        → (enqueue push (to_text j.tenant_id) j.kind j.payload h).0 ≡ r
        → (later.0 ≡ addresses (length later.0) done.counter)
          × (((later.1 ≡ none) × (length later.0 ≡ length jobs))
              ⊎ ((x : Error) × (later.1 ≡ some x) × (length later.0 < length jobs)))
        → let out : List JobId × Outcome × Harness = elim r [
          | ok id ↦ (id ∷ later.0, later.1, later.2)
          | err x ↦ ([], some x, done)
        ] in
          (out.0 ≡ addresses (length out.0) h.counter)
          × (((out.1 ≡ none) × (length out.0 ≡ suc (length jobs)))
              ⊎ ((x : Error) × (out.1 ≡ some x) × (length out.0 < suc (length jobs))))
    go (ok id) e (ids, ends) =
        let (is_next, counted) =
          enqueue_counts push (to_text j.tenant_id) j.kind j.payload h id e in
        (cc (is_next, ids, counted), ground (arith, ends))
    go (err x) e later_lem = (refl, inr (x, refl, omega arith))

-- The addresses of different work ids are different.
address_of-injective : (a b : ℕ) → a < two_64 → b < two_64 → address_of a ≡ address_of b → a ≡ b
unfolding address_of
address_of-injective a b ha hb e = format_uint-injective a b (omega arith) (omega arith) (cc e)

addresses-All :
    (n a counter : ℕ)
    → a ≤ counter
    → counter + n < two_64
    → All (λ t. address_of a ≢ t) (addresses n counter)
unfolding addresses
addresses-All zero a counter h b = tt
addresses-All (suc n) a counter h b =
    let next : (counter + 1) % two_64 ≡ counter + 1 = mod-eq_of_lt (omega arith) in
    rw next (
      λ e.
          absurd
            (omega (arith, address_of-injective a (counter + 1) (omega arith) (omega arith) e)),
      addresses-All n a (counter + 1) (omega arith) (omega arith),
    )

addresses-Pairs :
    (n counter : ℕ) → counter + n < two_64 → Pairs (λ s t. s ≢ t) (addresses n counter)
unfolding addresses
addresses-Pairs zero counter b = tt
addresses-Pairs (suc n) counter b =
    let next : (counter + 1) % two_64 ≡ counter + 1 = mod-eq_of_lt (omega arith) in
    rw next (
      addresses-All n (counter + 1) (counter + 1) (omega arith) (omega arith),
      addresses-Pairs n (counter + 1) (omega arith),
    )

-- As long as the work ids do not wrap, the job ids that EnqueueMany returns are pairwise different.
pub enqueue_many_distinct :
    (push : PushFn) (to_text : Uuid → Text) (jobs : List EnqueueRequest) (h : Harness)
    → h.counter + length jobs < two_64
    → Pairs (λ s t. s ≢ t) (enqueue_many push to_text jobs h).0
enqueue_many_distinct push to_text jobs h b =
    let lem = enqueue_many_lem push to_text jobs h in
    subst (Pairs (λ s t. s ≢ t)) (sym lem.0) (
      addresses-Pairs (length (enqueue_many push to_text jobs h).0) h.counter
        (omega (arith, lem.1)))
