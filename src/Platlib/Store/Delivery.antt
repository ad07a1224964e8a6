-- ===== src/Platlib/Store/Delivery.antt =====
-- Several workers on one store: pushes, pops and deletes in any order.
pub mod Kept
pub mod Once
use mathlib.Core.List.{Memᴰ}
use queue_benchmark.Prelude.{ℕ, ◌≡◌, ◌≢◌, Bool, false, List, [], ◌∷◌, count_if, Text}
use queue_benchmark.Queue.{Result, ok, err, Error}
use queue_benchmark.Platlib.Tables.{Row, Database, is_eligible}
use queue_benchmark.Platlib.Session.{Session, Note}
use queue_benchmark.Platlib.Store.{
  Rivals, PushArgs, QueueWork, push, push_addressed, pop_filter, pop, no_types, delete,
}
use queue_benchmark.Platlib.Store.Pop.{idle}

-- The other workers between the count of a pop and its claim: the count has seen older tables.
abbrev pub stale : (locked : ℕ → Bool) → Database → Rivals
stale locked db = record { between = λ seen. db; locked = locked }

-- What several workers may make of the tables, with the ids of the rows that were handed out, the
-- last one first: a pop that returns a work hands out the row with the permit of that work. No call
-- of the driver fails. A pop that finds nothing to count changes nothing and is left out.
pub data Delivered (start : Database) : Database → List ℕ → Type 0 where
  nothing : Delivered start start []
  pushed :
      {db : Database} {log : List ℕ} (args : PushArgs) (marshalled : Result Text) (sent : List Note)
      → Delivered start db log
      → Delivered start (push args marshalled (idle [] db sent)).1.pool log
  pushed_addressed :
      {db : Database} {log : List ℕ} (args : PushArgs) (address : Text) (marshalled : Result Text)
      (sent : List Note)
      → Delivered start db log
      → Delivered start (push_addressed args address marshalled (idle [] db sent)).1.pool log
  deleted :
      {db : Database} {log : List ℕ} (permit : ℕ) (sent : List Note)
      → Delivered start db log
      → Delivered start (delete permit (idle [] db sent)).1.pool log
  handed_out :
      {db : Database} {log : List ℕ} (locked : ℕ → Bool) (name : Text) (max_priority : ℕ)
      (types : List ℕ) (seen : Database) (sent : List Note) (w : QueueWork) (s : Session) (r : Row)
      → Delivered start db log
      → no_types types ≡ false
      → count_if (is_eligible (pop_filter name max_priority types)) seen.rows ≢ 0
      → pop (stale locked db) name max_priority types (idle [] seen sent) ≡ (ok w, s)
      → Memᴰ r s.pool.rows
      → r.permit ≡ w.permit
      → Delivered start s.pool (r.id ∷ log)
  found_none :
      {db : Database} {log : List ℕ} (locked : ℕ → Bool) (name : Text) (max_priority : ℕ)
      (types : List ℕ) (seen : Database) (sent : List Note) (e : Error) (s : Session)
      → Delivered start db log
      → no_types types ≡ false
      → count_if (is_eligible (pop_filter name max_priority types)) seen.rows ≢ 0
      → pop (stale locked db) name max_priority types (idle [] seen sent) ≡ (err e, s)
      → Delivered start s.pool log
