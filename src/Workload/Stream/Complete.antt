-- ===== src/Workload/Stream/Complete.antt =====
-- What a run of the generator sends, and that it ends.
use native.Mathlib.Nat.{div-eq_of_lt, div-eq-sub-div}
use queue_benchmark.Prelude.{
  none, negsuc, ℕ, ◌+◌, ◌≤◌, ◌≡◌, refl, ◌∙◌, Bool, true, false, List, [], ◌∷◌, arith, ◌==◌, ℤ, pos,
  All,
}
use queue_benchmark.Prelude.Int.{pos_part, leb_ℤ, ◌≤ℤ◌, ◌<ℤ◌, second}
use queue_benchmark.Queue.{Uuid, EnqueueRequest}
use queue_benchmark.Analyze.Float.{Float}
use queue_benchmark.Workload.{Random, Generator, next_request}
use queue_benchmark.Workload.Picks.{Returns, Returns-and_then, Returns-value, Returns-if}
use queue_benchmark.Workload.Stream.{
  Turn, done, tick, Sent, End, closed, waiting, nothing_sent, multiplier_of, go_on, stream,
  base_interval, generate,
}
use queue_benchmark.Workload.Stream.Counts.{
  made, fewest, most, sum_of, ends, IsCount, job_count-Returns, IsSending, send_jobs-Returns,
}

-- A rate of 1 to 10 ^ 9 jobs per second leaves an interval.
some_interval : (rate : ℤ) → pos 0 <ℤ rate → rate ≤ℤ pos second → (base_interval rate == 0) ≡ false
unfolding base_interval
some_interval (pos n) low high =
    ground (arith, div-eq-sub-div {m = n} {n = second} (omega arith) (omega arith))
some_interval (negsuc n) low high = absurd (omega arith)

module _ {fl : Float} (rnd : Random fl) where
  -- What the loop makes of what was sent before.
  pub record IsStream (P : EnqueueRequest → Type 0) (g : Generator fl) (lossy : Bool)
      (turns : List Turn) (before : Sent) (result : Sent × End) : Type 0 where
    pub requests : All P result.0.requests
    pub none_dropped : lossy ≡ false → result.0.dropped ≡ before.dropped
    pub at_most : made result.0 ≤ made before + sum_of rnd (most rnd) g turns
    pub at_least : lossy ≡ true → made before + sum_of rnd (fewest rnd) g turns ≤ made result.0
    pub ended : ends rnd g turns ≡ true → result.1 ≡ closed

  module _ (P : EnqueueRequest → Type 0) (nil : Uuid) (g : Generator fl) (lossy : Bool) where
    unchanged :
        (turns : List Turn) (out : Sent) (end : End)
        → All P out.requests
        → sum_of rnd (fewest rnd) g turns ≡ 0
        → (ends rnd g turns ≡ true → end ≡ closed)
        → IsStream P g lossy turns out (out, end)
    unchanged turns out end all none_due e = record {
      requests = all;
      none_dropped = λ f. refl;
      at_most = omega arith;
      at_least = λ f. omega (arith, none_due);
      ended = e;
    }

    module _ (turns : List Turn) (elapsed : ℤ) (accepts : ℕ → Bool)
        (early : leb_ℤ g.spec.duration elapsed ≡ false) (out : Sent) (count : ℤ) where
      -- The multiplier of the tick.
      abbrev mult : fl.F
      mult = multiplier_of rnd g.spec.rate_curve elapsed

      -- The rest of the loop continues what the tick has sent.
      joined :
          (mid : Sent)
          → (fewest rnd mult ≤ pos_part count) × (pos_part count ≤ most rnd mult)
          → IsSending rnd P lossy (pos_part count) out (mid, true)
          → (result : Sent × End) → IsStream P g lossy turns mid result
          → IsStream P g lossy (tick elapsed accepts ∷ turns) out result
      unfolding sum_of ends
      joined mid bounds s result rest = record {
        requests = rest.requests;
        none_dropped = λ f. rest.none_dropped f ∙ s.none_dropped f;
        at_most = rw early (omega (arith, rest.at_most, s.all_made refl, bounds.1));
        at_least = λ f. rw early (omega (arith, rest.at_least f, s.all_made refl, bounds.0));
        ended = rw early rest.ended;
      }

      behind :
          (after : Sent × Bool)
          → (fewest rnd mult ≤ pos_part count) × (pos_part count ≤ most rnd mult)
          → IsSending rnd P lossy (pos_part count) out after
          → ((mid : Sent)
              → All P mid.requests
              → Returns rnd (IsStream P g lossy turns mid) (stream rnd nil g lossy turns mid))
          → Returns rnd
              (IsStream P g lossy (tick elapsed accepts ∷ turns) out)
              (go_on rnd (stream rnd nil g lossy turns) after)
      unfolding sum_of ends
      behind (mid, true) bounds s rest r =
          let (result, r', e, h) = rest mid s.requests r in
          (result, r', e, joined mid bounds s result h)
      behind (mid, false) bounds s rest r =
          Returns-value rnd _ _
            (record {
              requests = s.requests;
              none_dropped = s.none_dropped;
              at_most = rw early (omega (arith, s.at_most, bounds.1));
              at_least = λ f. absurd (cc (s.goes_on f));
              ended = λ f. refl;
            })
            r

    stream-Returns :
        (turns : List Turn) (out : Sent)
        → Returns rnd P (next_request rnd nil g)
        → ((elapsed : ℤ) → IsCount rnd (multiplier_of rnd g.spec.rate_curve elapsed))
        → All P out.requests
        → Returns rnd (IsStream P g lossy turns out) (stream rnd nil g lossy turns out)
    unfolding stream sum_of ends
    stream-Returns [] out next counts all =
        Returns-value rnd _ _ (unchanged [] out waiting all refl (λ e. absurd (cc e)))
    stream-Returns (done ∷ turns) out next counts all =
        Returns-value rnd _ _ (unchanged (done ∷ turns) out closed all refl (λ e. refl))
    stream-Returns (tick elapsed accepts ∷ turns) out next counts all =
        Returns-if rnd _ (leb_ℤ g.spec.duration elapsed) _ _
          (λ e.
            Returns-value rnd _ _
              (unchanged (tick elapsed accepts ∷ turns) out closed all (rw e refl) (λ f. refl)))
          (λ e.
            Returns-and_then rnd _ _ _ _ (job_count-Returns rnd _ (counts elapsed)) λ count bounds.
              Returns-and_then rnd _ _ _ _
                (send_jobs-Returns rnd P nil g lossy accepts 0 (pos_part count) out next all)
                λ after s.
                  behind turns elapsed accepts e out count after bounds s
                    (λ mid a. stream-Returns turns mid next counts a))

    -- At a rate of 1 to 10 ^ 9 jobs per second, where nextRequest never panics and what it makes
    -- satisfies P, and where an int holds the multipliers of the rate curve and their successors,
    -- Run never panics, whatever the selects take: all that it sends satisfies P, the jobs that it
    -- makes are at most the whole parts of the multipliers of the ticks within the duration plus one
    -- for each fraction, and with a callback for dropped jobs at least the whole parts; without a
    -- callback none is dropped; and it has returned once the context has ended or a tick has come at
    -- or behind the duration.
    pub generate-IsStream :
        (turns : List Turn)
        → pos 0 <ℤ g.spec.enqueue_rate
        → g.spec.enqueue_rate ≤ℤ pos second
        → Returns rnd P (next_request rnd nil g)
        → ((elapsed : ℤ) → IsCount rnd (multiplier_of rnd g.spec.rate_curve elapsed))
        → Returns rnd (IsStream P g lossy turns nothing_sent) (generate rnd nil g lossy turns)
    unfolding generate
    generate-IsStream turns low high next counts =
        Returns-if rnd _ (leb_ℤ g.spec.enqueue_rate (pos 0)) _ _ (λ e. absurd (ground arith))
          (λ e.
            rw (some_interval g.spec.enqueue_rate low high)
              (stream-Returns turns nothing_sent next counts tt))

fast_interval : (rate : ℤ) → pos second <ℤ rate → base_interval rate ≡ 0
unfolding base_interval
fast_interval (pos n) h = div-eq_of_lt (omega arith)
fast_interval (negsuc n) h = absurd (omega arith)

-- A rate above 10 ^ 9 makes Run panic.
pub generate_fast :
    {fl : Float} (rnd : Random fl) (nil : Uuid) (g : Generator fl) (lossy : Bool)
    (turns : List Turn) (r : rnd.Source)
    → pos second <ℤ g.spec.enqueue_rate
    → generate rnd nil g lossy turns r ≡ none
unfolding generate base_interval
generate_fast rnd nil g lossy turns r h = ground (arith, fast_interval g.spec.enqueue_rate h)
