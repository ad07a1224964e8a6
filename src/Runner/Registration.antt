-- ===== src/Runner/Registration.antt =====
-- That the workers which `Run` registers are those that the generator's requests ask for.
use mathlib.Core.List.{Memᴰ}
use mathlib.Core.Path.{subst}
use queue_benchmark.Prelude.{
  ◌≡◌, refl, sym, ap, ◌≢◌, inl, inr, false, List, [], ◌∷◌, none, some, arith, ℤ, pos, All, All-at,
  Option-cases, text_eq, text_eq_iff, Bool-cases,
}
use queue_benchmark.Prelude.Int.{◌≤ℤ◌, second}
use queue_benchmark.Queue.{Uuid, Kind, WorkerFunc, EnqueueRequest, Outcome}
use queue_benchmark.Queue.Contract.{
  View, Call, Allowed, Keeps, Answer, done, perform, registered, too_late, registered_before,
  launched, not_launched, submitted, refused, halted, broken,
}
use queue_benchmark.Workload.{Random, IsBounded, JobClass, Generator}
use queue_benchmark.Workload.Picks.{Returns}
use queue_benchmark.Workload.Payload.{Returns-mono, next_request-in_mix}
use queue_benchmark.Workload.Scenarios.Runnable.{HasRanges, IsRunnable}
use queue_benchmark.Workload.Stream.{Turn, generate, multiplier_of, nothing_sent}
use queue_benchmark.Workload.Stream.Counts.{IsCount}
use queue_benchmark.Workload.Stream.Complete.{IsStream, generate-IsStream}
use queue_benchmark.Runner.{Setting, add_kind, kinds_of, work}
use queue_benchmark.Runner.Lifecycle.{register_all}

add_kind-here : (kind : Kind) (ks : List Kind) → Memᴰ kind (add_kind kind ks)
unfolding add_kind
add_kind-here kind [] = Memᴰ.head refl
add_kind-here kind (k ∷ ks) = elim (Bool-cases (text_eq k kind)) [
  | inl e ↦ rw e (Memᴰ.head (sym ((text_eq_iff k kind).0 e)))
  | inr e ↦ rw e (Memᴰ.tail (add_kind-here kind ks))
]

add_kind-there :
    (kind other : Kind) (ks : List Kind) → Memᴰ other ks → Memᴰ other (add_kind kind ks)
unfolding add_kind
add_kind-there kind other [] m = elim m [ ]
add_kind-there kind other (k ∷ ks) (Memᴰ.head same) = elim (Bool-cases (text_eq k kind)) [
  | inl e ↦ rw e (Memᴰ.head same)
  | inr e ↦ rw e (Memᴰ.head same)
]
add_kind-there kind other (k ∷ ks) (Memᴰ.tail m) = elim (Bool-cases (text_eq k kind)) [
  | inl e ↦ rw e (Memᴰ.tail m)
  | inr e ↦ rw e (Memᴰ.tail (add_kind-there kind other ks m))
]

-- A worker that a kind has stays its worker.
Allowed-worker :
    {v v' : View} {c : Call} {a : Answer} (kind : Kind) {fn : WorkerFunc}
    → Allowed v c a v'
    → v.worker kind ≡ some fn
    → v'.worker kind ≡ some fn
Allowed-worker {v} kind (registered {kind = other} s n) e =
    ground (arith, e, n, text_eq_iff other kind)
Allowed-worker kind (too_late s) e = e
Allowed-worker kind (registered_before s) e = e
Allowed-worker kind (launched s) e = e
Allowed-worker kind not_launched e = e
Allowed-worker kind (submitted s) e = e
Allowed-worker kind refused e = e
Allowed-worker kind (halted b) e = e
Allowed-worker kind (broken s) e = e

module _ (w : Setting) where
  -- Every class of a mix has its kind among those that are registered.
  kinds_of-Memᴰ :
      (c : JobClass w.float) (mix : List (JobClass w.float))
      → Memᴰ c mix
      → Memᴰ c.kind (kinds_of w mix)
  unfolding kinds_of
  kinds_of-Memᴰ c [] m = elim m [ ]
  kinds_of-Memᴰ c (d ∷ mix) (Memᴰ.head e) = rw e (add_kind-here d.kind (kinds_of w mix))
  kinds_of-Memᴰ c (d ∷ mix) (Memᴰ.tail m) =
      add_kind-there d.kind c.kind (kinds_of w mix) (kinds_of-Memᴰ c mix m)

  module _ (view : w.harness.State → View) (keeps : Keeps w.harness view) where
    -- The kind has the worker that the runner wraps around `Simulate`.
    abbrev pub HasWorker : w.harness.State → Kind → Type 0
    HasWorker state kind = (view state).worker kind ≡ some (work w)

    registers :
        {v : View} {kind : Kind} {fn : WorkerFunc} {v' : View} {b : Answer}
        → Allowed v (Call.register kind fn) b v'
        → b ≡ done
        → v'.worker kind ≡ some fn
    registers {kind = kind} (registered s n) e = ground (arith, text_eq_iff kind kind)
    registers (too_late s) e = absurd (cc e)
    registers (registered_before s) e = absurd (cc e)

    -- One registration, where all succeed.
    first_registered :
        (k : Kind) (ks : List Kind) (state state' : w.harness.State)
        → register_all w (k ∷ ks) state ≡ (none, state')
        → ((perform w.harness (Call.register k (work w)) state).0 ≡ done)
          × (register_all w ks (perform w.harness (Call.register k (work w)) state).1
              ≡ (none, state'))
    unfolding register_all perform
    first_registered k ks state state' h =
        elim (Option-cases (w.harness.register_worker k (work w) state).0) [
          | inl e ↦ (rw e refl, ground (arith, e, h))
          | inr (x, e) ↦ absurd (ground (arith, e, h))
        ]

    no_more :
        (state state' : w.harness.State) → register_all w [] state ≡ (none, state') → state ≡ state'
    unfolding register_all
    no_more state state' h = ap (λ (x : Outcome × w.harness.State). x.1) h

    register_all_kept :
        (ks : List Kind) (state state' : w.harness.State) (kind : Kind)
        → register_all w ks state ≡ (none, state')
        → HasWorker state kind
        → HasWorker state' kind
    register_all_kept [] state state' kind h k =
        subst (λ t. HasWorker t kind) (no_more state state' h) k
    register_all_kept (k ∷ ks) state state' kind h m =
        let (one, rest) = first_registered k ks state state' h in
        register_all_kept ks _ state' kind rest
          (Allowed-worker kind (keeps (Call.register k (work w)) state) m)

    -- Where all registrations succeed, each kind has its worker behind them.
    register_all-HasWorker :
        (ks : List Kind) (state state' : w.harness.State) (kind : Kind)
        → register_all w ks state ≡ (none, state')
        → Memᴰ kind ks
        → HasWorker state' kind
    register_all-HasWorker [] state state' kind h m = elim m [ ]
    register_all-HasWorker (k ∷ ks) state state' kind h (Memᴰ.head e) =
        let (one, rest) = first_registered k ks state state' h in
        register_all_kept ks _ state' kind rest
          (rw e (registers (keeps (Call.register k (work w)) state) one))
    register_all-HasWorker (k ∷ ks) state state' kind h (Memᴰ.tail m) =
        let (one, rest) = first_registered k ks state state' h in
        register_all-HasWorker ks _ state' kind rest m

    -- Behind the registrations of a run, where they succeed, on a harness that keeps the contract,
    -- the generator never panics, and each request that it sends is of a kind whose worker is
    -- registered. The spec can be run, there are tenants, the rate is at most 10 ^ 9, an int holds
    -- the multipliers of its curve and their successors, and `range` takes every kind.
    pub generate-HasWorker :
        (rnd : Random w.float) (nil : Uuid) (g : Generator w.float) (turns : List Turn)
        (range : List Kind → List Kind) (state state' : w.harness.State)
        → IsBounded rnd
        → IsRunnable w.float g.spec
        → g.tenants ≢ []
        → g.spec.enqueue_rate ≤ℤ pos second
        → ((elapsed : ℤ) → IsCount rnd (multiplier_of rnd g.spec.rate_curve elapsed))
        → ((kind : Kind) (ks : List Kind) → Memᴰ kind ks → Memᴰ kind (range ks))
        → register_all w (range (kinds_of w g.spec.job_mix)) state ≡ (none, state')
        → Returns rnd
            (λ result. All (λ req. (view state').worker req.kind ≡ some (work w)) result.0.requests)
            (generate rnd nil g false turns)
    generate-HasWorker rnd nil g turns range state state' bounded runs pool fast counts all h =
        Returns-mono rnd (IsStream rnd HasKind g false turns nothing_sent) _ _
          (λ result s. s.requests)
          (generate-IsStream rnd HasKind nil g false turns runs.has_rate fast
            (Returns-mono rnd _ HasKind _
              (λ req m. rw m.1.2 (
                register_all-HasWorker _ state state' m.1.0.kind h
                  (all m.1.0.kind _ (kinds_of-Memᴰ m.1.0 g.spec.job_mix m.1.1))))
              (next_request-in_mix rnd bounded nil g pool runs.has_classes
                (λ c m. All-at (HasRanges w.float) m runs.ranges)))
            counts)
      where
        HasKind : EnqueueRequest → Type 0
        HasKind req = HasWorker state' req.kind
