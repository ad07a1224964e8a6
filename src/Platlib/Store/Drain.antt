-- ===== src/Platlib/Store/Drain.antt =====
-- A worker alone with a store, that pops and deletes until nothing is left: one turn of its loop.
pub mod Complete
use mathlib.Core.List.{Memᴰ}
use queue_benchmark.Prelude.{
  ℕ, zero, suc, ◌+◌, ◌<◌, ◌≡◌, refl, sym, ap, ◌∙◌, ◌≢◌, inl, inr, Bool, true, false, not, ◌&&◌,
  List, [], ◌∷◌, ◌++◌, Option, none, some, arith, ◌==◌, All, All-mono, All-select, Pairs,
  Pairs-select, Option-cases, Bool-cases, select, count_if, Text, if◌then◌else◌,
}
use queue_benchmark.Queue.{Result, ok, err, Error, no_rows}
use queue_benchmark.Platlib.Tables.{Row, Database, Filter, is_eligible, comes_before, first_row}
use queue_benchmark.Platlib.Tables.Invariant.{IsSound, Apart}
use queue_benchmark.Platlib.Tables.Choice.{IsFirst, first_row-IsFirst, first_row-eq-none}
use queue_benchmark.Platlib.Tables.Removal.{
  without, count_if-without, select-without, count_if-eq-zero, count_if-none, select-all,
}
use queue_benchmark.Platlib.Session.{Session, Note}
use queue_benchmark.Platlib.Store.{QueueWork, to_work, pop_filter, pop, no_types, delete}
use queue_benchmark.Platlib.Store.Pop.{
  idle, may_take, claimed, alone, ready_note, pop_found, pop-idle, delete-claimed,
}

-- The works handed out, the error that ended the loop, if it ended, and the store behind it.
abbrev pub Drained : Type 0
Drained = List QueueWork × (Option Error × Session)

-- A pop that fails ends the loop; what it hands out is deleted before the next pop.
unfoldable pub drain_after : (Session → Drained) → Result QueueWork × Session → Drained
drain_after continue (err e, s) = ([], (some e, s))
drain_after continue (ok w, s) =
    let (works, end) = continue (delete w.permit s).1 in (w ∷ works, end)

-- What one worker is handed until a pop fails; out of fuel, there is no error.
unfoldable pub drain : (name : Text) (max_priority : ℕ) (types : List ℕ) → ℕ → Session → Drained
drain name max_priority types zero s = ([], (none, s))
drain name max_priority types (suc fuel) s =
    drain_after (drain name max_priority types fuel) (pop alone name max_priority types s)

-- The works of rows that are claimed under consecutive permits.
unfoldable pub works_from : ℕ → List Row → List QueueWork
works_from permit [] = []
works_from permit (r ∷ rs) = to_work permit r ∷ works_from (suc permit) rs

unfoldable pub repeat : ℕ → List Note → List Note
repeat zero sent = sent
repeat (suc n) sent = repeat n (sent ++ ready_note ∷ [])

-- The tables behind a claim and its deletion.
abbrev pub removed : Database → Row → Database
removed db r = record db { rows = without r db.rows; next_permit = suc db.next_permit }

select-append_one :
    (p : ℕ → Bool) (xs : List ℕ) (y : ℕ)
    → p y ≡ false
    → All (λ x. p x ≡ true) xs
    → select p (xs ++ y ∷ []) ≡ xs
unfolding select
select-append_one p [] y f h = ground (arith, f)
select-append_one p (x ∷ xs) y f h = ground (arith, h.0, select-append_one p xs y f h.1)

-- The permits behind a claim and its deletion are those before.
permits_back :
    (db : Database)
    → IsSound db
    → select (λ p. not (p == db.next_permit)) (db.permits ++ db.next_permit ∷ []) ≡ db.permits
permits_back db v =
    select-append_one (λ p. not (p == db.next_permit)) db.permits db.next_permit (ground arith)
      (All-mono (λ p. p < db.next_permit) _ db.permits (λ p h. ground arith) v.permits_fresh)

pub removed-IsSound : (db : Database) (r : Row) → IsSound db → IsSound (removed db r)
removed-IsSound db r v = record {
  permits_start = omega arith;
  rows_fresh = All-select (λ q. q.id < db.next_row) _ db.rows v.rows_fresh;
  claims_fresh =
      All-mono (λ (q : Row). q.permit < db.next_permit) (λ q. q.permit < suc db.next_permit) _
        (λ q h. omega arith) (All-select _ _ db.rows v.claims_fresh);
  permits_fresh =
      All-mono (λ p. p < db.next_permit) (λ p. p < suc db.next_permit) db.permits
        (λ p h. omega arith) v.permits_fresh;
  apart = Pairs-select Apart _ db.rows v.apart;
}

module _ (name : Text) (max_priority : ℕ) (types : List ℕ) where
  -- The rows that the worker asks for.
  abbrev pub wanted : Row → Bool
  wanted = is_eligible (pop_filter name max_priority types)

  abbrev pub takes : Row → Bool
  takes = may_take alone (pop_filter name max_priority types)

  -- A drain takes the first row that may be taken, and goes on behind it.
  pub drain_step :
      (fuel : ℕ) (db : Database) (sent : List Note) (r : Row)
      → IsSound db
      → no_types types ≡ false
      → count_if wanted db.rows ≢ 0
      → first_row takes db.rows ≡ some r
      → drain name max_priority types (suc fuel) (idle [] db sent) ≡ (
          let (works, end) =
            drain name max_priority types fuel (idle [] (removed db r) (sent ++ ready_note ∷ [])) in
          (to_work db.next_permit r ∷ works, end))
  unfolding drain drain_after to_work
  drain_step fuel db sent r v t c e =
      ap (drain_after (drain name max_priority types fuel))
        (pop_found alone name max_priority types db sent r t c e)
      ∙ ap
          (λ (x : Session).
            let (works, end) = drain name max_priority types fuel x in
            (to_work db.next_permit r ∷ works, end))
          (ap (λ x. x.1) (delete-claimed db r sent v)
            ∙ ap (λ ps. idle [] (record (removed db r) { permits = ps }) (sent ++ ready_note ∷ []))
                (permits_back db v))
