-- ===== src/Platlib/Store/Pop.antt =====
-- What a pop hands out, who may hold it, and what its deletion leaves.
use mathlib.Core.List.{Memᴰ}
use queue_benchmark.Prelude.{
  ℕ, suc, ◌<◌, ◌≡◌, refl, ap, ◌∙◌, ◌≢◌, ◌⊎◌, inl, inr, Bool, true, false, not, ◌&&◌, List, [], ◌∷◌,
  ◌++◌, map, Option, none, some, arith, ◌==◌, All, All-mono, Option-cases, select, count_if, Text,
}
use queue_benchmark.Queue.{Result, ok, err, DriverError, no_rows}
use queue_benchmark.Platlib.Tables.{
  Row, Database, Filter, is_eligible, count_eligible, insert_permit, first_row, set_permit,
  claim_row, delete_claimed, remove_permit,
}
use queue_benchmark.Platlib.Tables.Invariant.{IsSound}
use queue_benchmark.Platlib.Tables.Choice.{
  IsFirst, first_row-IsFirst, first_row-eq-none, select-set_permit, count_if-set_permit,
}
use queue_benchmark.Platlib.Session.{
  Session, Note, ◌>>=◌, on_error, exec, begin, commit, queue_notify, queue_ready_channel,
  notify_type_queue,
}
use queue_benchmark.Platlib.Store.{Rivals, QueueWork, to_work, pop_filter, pop, no_types, delete}

-- A store outside a transaction, in front of a driver that answers as `turns` says.
abbrev pub idle : List (Option DriverError) → Database → List Note → Session
idle turns db sent = record { pool = db; tx = none; pending = []; sent = sent; turns = turns }

-- The rows that a pop may take: eligible, and not locked by others.
abbrev pub may_take : Rivals → Filter → Row → Bool
may_take rivals f r = is_eligible f r && not (rivals.locked r.id)

-- The tables behind a claim of a row.
abbrev pub claimed : Database → Row → Database
claimed db r = record db {
  rows = map (set_permit r.id db.next_permit) db.rows;
  permits = db.permits ++ db.next_permit ∷ [];
  next_permit = suc db.next_permit;
}

module _ (rivals : Rivals) (name : Text) (max_priority : ℕ) (types : List ℕ) where
  abbrev pub wanted : Filter
  wanted = pop_filter name max_priority types

  -- A pop on a quiet driver, when rows wait and one may be taken at the claim.
  pub pop_found :
      (db : Database) (sent : List Note) (r : Row)
      → no_types types ≡ false
      → count_if (is_eligible wanted) db.rows ≢ 0
      → first_row (may_take rivals wanted) (rivals.between db).rows ≡ some r
      → pop rivals name max_priority types (idle [] db sent) ≡ (
        ok (to_work (rivals.between db).next_permit r),
        idle [] (claimed (rivals.between db) r) sent,
      )
  unfolding pop claim_row count_eligible exec begin commit insert_permit ◌>>=◌
  pop_found db sent r t c e = ground arith

  -- The same when the claim finds no row: rolled back, but the permit's sequence has moved.
  pop_raced :
      (db : Database) (sent : List Note)
      → no_types types ≡ false
      → count_if (is_eligible wanted) db.rows ≢ 0
      → first_row (may_take rivals wanted) (rivals.between db).rows ≡ none
      → pop rivals name max_priority types (idle [] db sent) ≡ (
        err no_rows,
        idle []
            (record (rivals.between db) { next_permit = suc (rivals.between db).next_permit })
            sent,
      )
  unfolding pop claim_row count_eligible exec begin commit insert_permit remove_permit ◌>>=◌
  pop_raced db sent t c e = ground arith

  -- On a driver that does not fail, a pop with a type to look for and a row to count looks at the
  -- tables as the other sessions left them. Either some row may be taken, and the pop returns the
  -- first such row by priority and then id, under the next permit, which only that row is given;
  -- or none may be taken, and the pop returns ErrNoRows and leaves every row and permit alone.
  pub pop_takes-IsFirst :
      (db : Database) (sent : List Note)
      → no_types types ≡ false
      → count_if (is_eligible wanted) db.rows ≢ 0
      → let after = rivals.between db in
        let result = pop rivals name max_priority types (idle [] db sent) in
        ((r : Row) × IsFirst (may_take rivals wanted) after.rows r
          × (result ≡ (ok (to_work after.next_permit r), idle [] (claimed after r) sent)))
        ⊎ (All (λ q. may_take rivals wanted q ≡ false) after.rows
            × (result ≡ (
              err no_rows,
              idle [] (record after { next_permit = suc after.next_permit }) sent,
            )))
  pop_takes-IsFirst db sent t c =
      elim (Option-cases (first_row (may_take rivals wanted) (rivals.between db).rows)) [
        | inl e ↦ inr (first_row-eq-none _ _ e, pop_raced db sent t c e)
        | inr (r, e) ↦ inl (r, first_row-IsFirst _ _ r e, pop_found db sent r t c e)
      ]

  -- With nothing to look for, or no row to count, a pop returns ErrNoRows and changes nothing.
  pub pop-idle :
      (db : Database) (sent : List Note)
      → (no_types types ≡ true) ⊎ (count_if (is_eligible wanted) db.rows ≡ 0)
      → pop rivals name max_priority types (idle [] db sent) ≡ (err no_rows, idle [] db sent)
  unfolding pop count_eligible exec on_error ◌>>=◌
  pop-idle db sent h = ground arith

-- No row of sound tables has the permit that comes next.
pub next_permit_free : (db : Database) → IsSound db → All (λ q. q.permit ≢ db.next_permit) db.rows
next_permit_free db v =
    All-mono (λ (r : Row). r.permit < db.next_permit) (λ (r : Row). r.permit ≢ db.next_permit)
      db.rows (λ r h. omega arith) v.claims_fresh

-- Exactly one row carries the permit of a claim.
pub claimed_once :
    (db : Database) (r : Row)
    → IsSound db
    → Memᴰ r db.rows
    → count_if (λ q. q.permit == db.next_permit) (claimed db r).rows ≡ 1
claimed_once db r v m =
    count_if-set_permit r.id db.next_permit m refl v.apart (next_permit_free db v)

-- The note that a store sends when the queue changes.
abbrev pub ready_note : Note
ready_note = record { channel = queue_ready_channel; notify_type = notify_type_queue }

pub delete_quiet :
    (permit : ℕ) (db : Database) (sent : List Note)
    → delete permit (idle [] db sent) ≡ (
      ok tt,
      idle []
          (record db {
            rows = select (λ q. not (q.permit == permit)) db.rows;
            permits = select (λ p. not (p == permit)) db.permits;
          })
          (sent ++ ready_note ∷ []),
    )
unfolding delete exec on_error delete_claimed remove_permit queue_notify ◌>>=◌
delete_quiet permit db sent = refl

-- Deleting the permit of a claim takes exactly the claimed row out of sound tables, and the permit
-- out of queue_permits, and sends one ready note; the other rows, unclaimed and claimed, stay.
pub delete-claimed :
    (db : Database) (r : Row) (sent : List Note)
    → IsSound db
    → let p = db.next_permit in
      delete p (idle [] (claimed db r) sent) ≡ (
        ok tt,
        idle []
            (record (claimed db r) {
              rows = select (λ q. not (q.id == r.id)) db.rows;
              permits = select (λ q. not (q == p)) (db.permits ++ p ∷ []);
            })
            (sent ++ ready_note ∷ []),
      )
delete-claimed db r sent v =
    delete_quiet db.next_permit (claimed db r) sent
    ∙ ap
        (λ (rows : List Row). (
          ok tt,
          idle []
              (record (claimed db r) {
                rows = rows;
                permits =
                    select (λ q. not (q == db.next_permit)) (db.permits ++ db.next_permit ∷ []);
              })
              (sent ++ ready_note ∷ []),
        ))
        (select-set_permit r.id db.next_permit db.rows (next_permit_free db v))

-- Nobody else uses the store.
abbrev pub alone : Rivals
alone = record { between = λ db. db; locked = λ id. false }

-- A driver that fails at the commit of a pop: its fifth call, behind the count, the begin and two
-- statements.
abbrev pub commit_fails : DriverError → List (Option DriverError)
commit_fails e = none ∷ none ∷ none ∷ none ∷ some e ∷ []

module _ (name : Text) (max_priority : ℕ) (types : List ℕ) where
  -- The error of a failed commit is dropped: the pop returns work although no row is claimed.
  pub pop_commit_lost :
      (db : Database) (sent : List Note) (r : Row) (e : DriverError)
      → no_types types ≡ false
      → count_if (is_eligible (pop_filter name max_priority types)) db.rows ≢ 0
      → first_row (may_take alone (pop_filter name max_priority types)) db.rows ≡ some r
      → pop alone name max_priority types (idle (commit_fails e) db sent) ≡ (
        ok (to_work db.next_permit r),
        idle [] (record db { next_permit = suc db.next_permit }) sent,
      )
  unfolding pop claim_row count_eligible exec begin commit insert_permit ◌>>=◌
  pop_commit_lost db sent r e t c f = ground arith

  -- When the commit of a pop fails and nothing else does, and nobody else uses the store, the pop
  -- reports its work as claimed although the row is not, and the next pop hands the same row out
  -- again, under another permit.
  pub pop_delivers_twice :
      (db : Database) (sent : List Note) (r : Row) (e : DriverError)
      → no_types types ≡ false
      → count_if (is_eligible (pop_filter name max_priority types)) db.rows ≢ 0
      → first_row (may_take alone (pop_filter name max_priority types)) db.rows ≡ some r
      → let (first, s) = pop alone name max_priority types (idle (commit_fails e) db sent) in
        (first ≡ ok (to_work db.next_permit r))
        × ((pop alone name max_priority types s).0 ≡ ok (to_work (suc db.next_permit) r))
  pop_delivers_twice db sent r e t c f = (
    ap (λ x. x.0) (pop_commit_lost db sent r e t c f),
    ap (λ (x : Result QueueWork × Session). (pop alone name max_priority types x.1).0)
          (pop_commit_lost db sent r e t c f)
        ∙ ap (λ x. x.0)
            (pop_found alone name max_priority types
              (record db { next_permit = suc db.next_permit }) sent r t c f),
  )
