-- ===== src/Platlib/Adapter/Setup.antt =====
-- What New and Stop of internal/queue/platlib/adapter.go open and release: the connection pool, the
-- listener and its factory, and the notification broadcaster. What the constructors of pgx and of
-- rsqueue answer is given. How they are wired to each other is left out.
use queue_benchmark.Prelude.{
  ℕ, ◌≡◌, ◌↔◌, inl, inr, Bool, true, false, not, ◌&&◌, none, some, arith, if◌then◌else◌,
}
use queue_benchmark.Queue.{
  Outcome, Result, Result-cases, ok, err, wrap, platlib_config, platlib_connect, apply_schema,
  new_broadcaster, new_queue,
}
use queue_benchmark.Queue.Config.{Config}
use queue_benchmark.Queue.Contract.{returned, is_ok}
use queue_benchmark.Platlib.Adapter.{Harness, Options, new, stop}

-- What is open.
pub record Open : Type 0 where
  pub pool : Bool
  pub listener : Bool
  pub factory : Bool
  pub broadcaster : Bool

abbrev pub nothing_open : Open
nothing_open = record { pool = false; listener = false; factory = false; broadcaster = false }

-- `pool.Close()`, and with it `bl.Stop()` and `lf.Shutdown()`.
abbrev pub close_pool : Open → Open
close_pool o = record o { pool = false }

abbrev pub close_all : Open → Open
close_all o = record o { pool = false; listener = false; factory = false }

-- How the constructors end: pgxpool.New, the schema, the broadcaster and the queue.
pub record Made : Type 0 where
  pub connect : Outcome
  pub schema : Outcome
  pub broadcast : Outcome
  pub queue : Outcome

unfoldable pub make_queue : Made → Harness → Open → Result Harness × Open
make_queue m h o = elim m.queue [
  | some e ↦ (err (wrap new_queue e), close_all o)
  | none ↦ (ok h, o)
]

unfoldable pub make_broadcaster : Made → Harness → Open → Result Harness × Open
unfolding make_queue
make_broadcaster m h o = elim m.broadcast [
  | some e ↦ (err (wrap new_broadcaster e), close_all o)
  | none ↦ make_queue m h (record o { broadcaster = true })
]

-- `applySchema`, and the listener behind it.
unfoldable pub make_schema : Made → Harness → Open → Result Harness × Open
unfolding make_broadcaster
make_schema m h o = elim m.schema [
  | some e ↦ (err (wrap platlib_config (wrap apply_schema e)), close_pool o)
  | none ↦ make_broadcaster m h (record o { listener = true; factory = true })
]

unfoldable pub make_pool : Made → Harness → Result Harness × Open
unfolding make_schema
make_pool m h = elim m.connect [
  | some e ↦ (err (wrap platlib_connect e), nothing_open)
  | none ↦ make_schema m h (record nothing_open { pool = true })
]

-- `New`, with what it leaves open.
unfoldable pub set_up : Made → Config → Options → ℕ → Result Harness × Open
unfolding new make_pool
set_up m cfg opts counter = elim (new cfg opts counter) [
  | err e ↦ (err e, nothing_open)
  | ok h ↦ make_pool m h
]

-- `Stop`, with what it leaves open: the broadcaster is told without waiting, so it ends only where
-- it listens.
unfoldable pub release : (listens : Bool) (stop_error : Outcome) → Harness → Open → Open
release listens stop_error h o =
    if h.started
    then if h.stopping then o else elim stop_error [
      | some e ↦ o
      | none ↦ record o {
        pool = false;
        factory = false;
        broadcaster = o.broadcaster && not listens;
      }
    ]
    else close_pool o

abbrev IsMade : Result Harness → Made → Result Harness × Open → Type 0
IsMade v m (r, o) =
    ((is_ok r ≡ true) ↔ (
      (is_ok v ≡ true)
      × (m.connect ≡ none)
      × (m.schema ≡ none)
      × (m.broadcast ≡ none)
      × (m.queue ≡ none)))
    × (o.pool ≡ is_ok r)
    × (o.listener ≡ is_ok r)
    × (o.factory ≡ is_ok r)
    × ((o.broadcaster ≡ true)
        ↔ ((is_ok v ≡ true) × (m.connect ≡ none) × (m.schema ≡ none) × (m.broadcast ≡ none)))

made :
    (h : Harness) (c s b q : Outcome)
    → let m : Made = record { connect = c; schema = s; broadcast = b; queue = q } in
      IsMade (ok h) m (make_pool m h)
unfolding make_pool
made h (some e) s b q = ground arith
made h none (some e) b q = ground arith
made h none none (some e) q = ground arith
made h none none none (some e) = ground arith
made h none none none none = ground arith

-- New succeeds just where the configuration is valid and every constructor succeeds. It then leaves
-- all open, and otherwise nothing but the broadcaster, and that just where only the queue has failed.
pub set_up_lem :
    (m : Made) (cfg : Config) (opts : Options) (counter : ℕ)
    → let (r, o) = set_up m cfg opts counter in
      ((is_ok r ≡ true) ↔ (
        (is_ok (new cfg opts counter) ≡ true)
        × (m.connect ≡ none)
        × (m.schema ≡ none)
        × (m.broadcast ≡ none)
        × (m.queue ≡ none)))
      × (o.pool ≡ is_ok r)
      × (o.listener ≡ is_ok r)
      × (o.factory ≡ is_ok r)
      × ((o.broadcaster ≡ true) ↔ (
          (is_ok (new cfg opts counter) ≡ true)
          × (m.connect ≡ none)
          × (m.schema ≡ none)
          × (m.broadcast ≡ none)))
unfolding set_up
set_up_lem m cfg opts counter = elim (Result-cases (new cfg opts counter)) [
  | inl (h, e) ↦ rw (e, set_up) (made h m.connect m.schema m.broadcast m.queue)
  | inr (x, e) ↦ rw (e, set_up) (ground arith)
]

-- A stop that returns no error leaves the pool closed; the listeners' factory is shut down only when
-- the harness was started.
pub release_lem :
    (listens : Bool) (stop_error : Outcome) (h : Harness) (o : Open)
    → (stop stop_error h).0 ≡ returned none
    → ((release listens stop_error h o).pool ≡ false)
      × ((release listens stop_error h o).factory ≡ (o.factory && not h.started))
unfolding release stop
release_lem listens stop_error h o e = ground (arith, e)
