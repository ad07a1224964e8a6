-- ===== src/River/Setup.antt =====
-- The connection pool of internal/queue/river/adapter.go: what New and Stop do with it. What pgx and
-- River's migrations answer is given.
use queue_benchmark.Prelude.{
  ◌≡◌, ◌↔◌, inl, inr, Bool, true, false, none, some, arith, if◌then◌else◌,
}
use queue_benchmark.Queue.{
  Outcome, Result, Result-cases, ok, err, wrap, river_connect, river_migrator, river_migrate,
}
use queue_benchmark.Queue.Config.{Config}
use queue_benchmark.Queue.Contract.{returned, is_ok}
use queue_benchmark.River.{Harness, Options, new, stop}

-- How pgxpool.New, rivermigrate.New and Migrate end.
pub record Connected : Type 0 where
  pub connect : Outcome
  pub migrator : Outcome
  pub migrate : Outcome

-- The migrations, on an open pool: what is returned, and whether the pool stays open.
unfoldable pub migrate_pool : Connected → Harness → Result Harness × Bool
migrate_pool m h = elim m.migrator [
  | some e ↦ (err (wrap river_migrator e), false)
  | none ↦ elim m.migrate [ some e ↦ (err (wrap river_migrate e), false) | none ↦ (ok h, true) ]
]

unfoldable pub connect_pool : Connected → Harness → Result Harness × Bool
unfolding migrate_pool
connect_pool m h = elim m.connect [
  | some e ↦ (err (wrap river_connect e), false)
  | none ↦ migrate_pool m h
]

-- `New`, and whether it leaves the pool open.
unfoldable pub new_pool : Connected → Config → Options → Result Harness × Bool
unfolding new connect_pool
new_pool m cfg opts = elim (new cfg opts) [ err e ↦ (err e, false) | ok h ↦ connect_pool m h ]

-- Whether `Stop` leaves the pool open.
unfoldable pub stop_pool : (stop_error : Outcome) → Harness → (pool : Bool) → Bool
stop_pool stop_error h pool =
    if h.client then elim stop_error [ some e ↦ pool | none ↦ false ] else pool

pool_follows :
    (m : Connected) (h : Harness)
    → let (r, pool) = connect_pool m h in
      (pool ≡ is_ok r)
      × ((pool ≡ true) ↔ ((m.connect ≡ none) × (m.migrator ≡ none) × (m.migrate ≡ none)))
unfolding connect_pool
pool_follows m h = go m.connect m.migrator m.migrate
  where
    go :
        (c g d : Outcome)
        → let made : Connected = record { connect = c; migrator = g; migrate = d } in
          let (r, pool) = connect_pool made h in
          (pool ≡ is_ok r) × ((pool ≡ true) ↔ ((c ≡ none) × (g ≡ none) × (d ≡ none)))
    go (some e) g d = unfold connect_pool in ground arith
    go none (some e) d = unfold connect_pool in ground arith
    go none none (some e) = unfold connect_pool in ground arith
    go none none none = unfold connect_pool in ground arith

-- New leaves its pool open just where it succeeds, and that is where the configuration is valid, the
-- connection is made and the migrations run.
pub new_pool_lem :
    (m : Connected) (cfg : Config) (opts : Options)
    → let (r, pool) = new_pool m cfg opts in
      (pool ≡ is_ok r)
      × ((pool ≡ true) ↔ (
          (is_ok (new cfg opts) ≡ true)
          × (m.connect ≡ none)
          × (m.migrator ≡ none)
          × (m.migrate ≡ none)))
unfolding new_pool
new_pool_lem m cfg opts = elim (Result-cases (new cfg opts)) [
  | inl (h, e) ↦ rw (e, new_pool) (ground (arith, pool_follows m h))
  | inr (x, e) ↦ rw (e, new_pool) (ground arith)
]

-- A stop that returns no error closes the pool just where the harness was started once: of a harness
-- that never had a client, the pool stays as it is.
pub stop_pool_lem :
    (stop_error : Outcome) (h : Harness)
    → (stop stop_error h).0 ≡ returned none
    → (pool : Bool) → stop_pool stop_error h pool ≡ (if h.client then false else pool)
unfolding stop_pool stop
stop_pool_lem stop_error h e pool = ground (arith, e)
