-- ===== src/Workload/Stream/Counts.antt =====
-- How many jobs the ticks of a run ask for.
use native.Mathlib.Nat.{mod-eq_of_lt}
use queue_benchmark.Prelude.{
  ℕ, zero, suc, ◌+◌, ◌-◌, ◌≤◌, ◌≡◌, refl, ap, ◌∙◌, Bool, true, false, List, [], ◌∷◌, arith, ℤ, pos,
  negsuc, length, ◌*◌, ◌%◌, length-append, All, All-append, if◌then◌else◌,
}
use queue_benchmark.Prelude.Int.{
  pos_part, neg_part, leb_ℤ, add_int64, two_63, sub_ℕ, ◌<ℤ◌, wrap_signed, wrap_small,
}
use queue_benchmark.Queue.{Uuid, EnqueueRequest}
use queue_benchmark.Analyze.Float.{Float}
use queue_benchmark.Workload.{Random, Generator, is_positive, Draw, value, next_request}
use queue_benchmark.Workload.Picks.{
  Returns, Returns-and_then, Returns-value, Returns-if, Returns-draw_float,
}
use queue_benchmark.Workload.Stream.{
  Turn, done, tick, Sent, multiplier_of, fraction, job_count, send_jobs,
}

-- The jobs that were made.
abbrev pub made : Sent → ℕ
made out = length out.requests + out.dropped

module _ {fl : Float} (rnd : Random fl) where
  open fl use {F, lt, to_int}

  -- The fewest and the most jobs of a tick: the whole part of its multiplier, and one more where
  -- there is a fraction.
  abbrev pub fewest : F → ℕ
  fewest mult = pos_part (to_int mult)

  abbrev pub most : F → ℕ
  most mult = fewest mult + (if is_positive fl (fraction rnd mult) then 1 else 0)

  -- Over the ticks before the first turn that ends the loop.
  unfoldable pub sum_of : (count : F → ℕ) → Generator fl → List Turn → ℕ
  sum_of count g [] = 0
  sum_of count g (done ∷ turns) = 0
  sum_of count g (tick elapsed accepts ∷ turns) =
      if leb_ℤ g.spec.duration elapsed
      then 0
      else count (multiplier_of rnd g.spec.rate_curve elapsed) + sum_of count g turns

  -- A turn that ends the loop comes.
  unfoldable pub ends : Generator fl → List Turn → Bool
  ends g [] = false
  ends g (done ∷ turns) = true
  ends g (tick elapsed accepts ∷ turns) =
      if leb_ℤ g.spec.duration elapsed then true else ends g turns

  -- An int that is not the last one.
  abbrev pub IsInt : ℤ → Type 0
  IsInt n = (n <ℤ pos (two_63 - 1)) × (neg_part n ≤ two_63)

  abbrev pub IsCount : F → Type 0
  IsCount mult = IsInt (to_int mult)

  one_more :
      (n : ℤ)
      → IsInt n
      → (pos_part n ≤ pos_part (add_int64 n (pos 1)))
        × (pos_part (add_int64 n (pos 1)) ≤ pos_part n + 1)
  unfolding add_int64
  one_more (pos m) h =
      let sum : add_int64 (pos m) (pos 1) ≡ pos (m + 1) =
        ap (wrap_signed two_63) {x = sub_ℕ (m + 1) (0 + 0)} {y = pos (m + 1)} (ground arith)
        ∙ wrap_small two_63 (m + 1) (omega (arith, h.0)) in
      rw sum (omega arith)
  one_more (negsuc m) h =
      let small : m % (2 * two_63) ≡ m = mod-eq_of_lt {n = m} {m = 2 * two_63} (omega arith) in
      let least : (m - 1) % (2 * two_63) ≡ m - 1 =
        mod-eq_of_lt {n = m - 1} {m = 2 * two_63} (omega arith) in
      ground (arith, small, least)

  drawn :
      (mult : F) (hit : Bool)
      → is_positive fl (fraction rnd mult) ≡ true
      → IsCount mult
      → (fewest mult ≤ pos_part (if hit then add_int64 (to_int mult) (pos 1) else to_int mult))
        × (pos_part (if hit then add_int64 (to_int mult) (pos 1) else to_int mult) ≤ most mult)
  drawn mult true e small = rw e (one_more (to_int mult) small)
  drawn mult false e small = rw e (omega arith)

  pub job_count-Returns :
      (mult : F)
      → IsCount mult
      → Returns rnd
          (λ n. (fewest mult ≤ pos_part n) × (pos_part n ≤ most mult))
          (job_count rnd mult)
  unfolding job_count
  job_count-Returns mult small =
      Returns-if rnd _ (is_positive fl (fraction rnd mult)) _ _
        (λ e.
          Returns-and_then rnd (λ x. Unit {0}) _ _
            (λ x.
              value rnd
                (if lt x (fraction rnd mult) then add_int64 (to_int mult) (pos 1) else to_int mult))
            (Returns-draw_float rnd)
            λ x u. Returns-value rnd _ _ (drawn mult (lt x (fraction rnd mult)) e small))
        (λ e. Returns-value rnd _ _ (rw e (omega arith)))

  -- What the jobs of a tick make of what was sent.
  pub record IsSending (P : EnqueueRequest → Type 0) (lossy : Bool) (jobs : ℕ) (before : Sent)
      (after : Sent × Bool) : Type 0 where
    pub requests : All P after.0.requests
    pub none_dropped : lossy ≡ false → after.0.dropped ≡ before.dropped
    pub at_most : made after.0 ≤ made before + jobs
    pub all_made : after.1 ≡ true → made after.0 ≡ made before + jobs
    pub goes_on : lossy ≡ true → after.1 ≡ true

  -- One job more, sent or dropped, with the others behind it.
  weaken :
      (P : EnqueueRequest → Type 0) (lossy : Bool) (jobs : ℕ) (before middle : Sent)
      → made middle ≡ suc (made before)
      → (lossy ≡ false → middle.dropped ≡ before.dropped)
      → (m : Draw rnd (Sent × Bool)) → Returns rnd (IsSending P lossy jobs middle) m
      → Returns rnd (IsSending P lossy (suc jobs) before) m
  weaken P lossy jobs before middle one same m h r =
      let (after, r', e, s) = h r in
      (
        after,
        r',
        e,
        record {
          requests = s.requests;
          none_dropped = λ f. s.none_dropped f ∙ same f;
          at_most = omega (arith, s.at_most);
          all_made = λ f. omega (arith, s.all_made f);
          goes_on = s.goes_on;
        },
      )

  pub send_jobs-Returns :
      (P : EnqueueRequest → Type 0) (nil : Uuid) (g : Generator fl) (lossy : Bool)
      (accepts : ℕ → Bool) (i jobs : ℕ) (out : Sent)
      → Returns rnd P (next_request rnd nil g)
      → All P out.requests
      → Returns rnd (IsSending P lossy jobs out) (send_jobs rnd nil g lossy accepts i jobs out)
  unfolding send_jobs
  send_jobs-Returns P nil g lossy accepts i zero out next all = Returns-value rnd _ _ (record {
    requests = all;
    none_dropped = λ e. refl;
    at_most = omega arith;
    all_made = λ e. omega arith;
    goes_on = λ e. refl;
  })
  send_jobs-Returns P nil g lossy accepts i (suc jobs) out next all =
      Returns-and_then rnd P _ _ _ next λ req p.
        Returns-if rnd _ (accepts i) _ _
          (λ a.
            weaken P lossy jobs out _ (omega (arith, length-append out.requests (req ∷ [])))
              (λ f. refl) _
              (send_jobs-Returns P nil g lossy accepts (suc i) jobs _ next
                (All-append P out.requests (req ∷ []) all (p, tt))))
          (λ e.
            Returns-if rnd _ lossy _ _
              (λ l.
                weaken P lossy jobs out (record out { dropped = suc out.dropped }) (omega arith)
                  (λ f. absurd (cc (f, l))) _
                  (send_jobs-Returns P nil g lossy accepts (suc i) jobs _ next all))
              (λ l. Returns-value rnd _ _ (record {
                requests = all;
                none_dropped = λ e. refl;
                at_most = omega arith;
                all_made = λ f. absurd (cc f);
                goes_on = λ f. absurd (cc (f, l));
              })))
