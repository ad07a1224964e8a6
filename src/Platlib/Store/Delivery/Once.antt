-- ===== src/Platlib/Store/Delivery/Once.antt =====
-- No row is handed out twice: what the operations make of the tables.
use mathlib.Core.List.{Memᴰ}
use mathlib.Core.Path.{subst, subst₂}
use queue_benchmark.Prelude.{
  ◌⊎◌, refl, none, some, ℕ, ◌≡◌, sym, ap, ◌∙◌, ◌≢◌, inl, inr, Bool, false, List, [], ◌∷◌, arith,
  All-at, All-mono, Pairs, count_if, Text,
}
use queue_benchmark.Queue.{Result, ok, err, Error}
use queue_benchmark.Platlib.Tables.{Row, Database, NewRow, insert_row, is_eligible}
use queue_benchmark.Platlib.Tables.Invariant.{IsSound}
use queue_benchmark.Platlib.Session.{Session, Note, ◌>>=◌, on_error, exec, queue_notify}
use queue_benchmark.Platlib.Store.{
  PushArgs, push, push_addressed, new_row, QueueWork, to_work, pop_filter, pop, no_types,
}
use queue_benchmark.Platlib.Store.Pop.{idle, pop_takes-IsFirst, next_permit_free}
use queue_benchmark.Platlib.Store.Delivery.{
  stale, Delivered, nothing, pushed, pushed_addressed, deleted, handed_out, found_none,
}
use queue_benchmark.Platlib.Store.Delivery.Kept.{
  IsDelivery, insert_row-IsDelivery, deleted-IsDelivery, claimed-IsDelivery, raced-IsDelivery,
  set_permit-id,
}

-- A push leaves the tables as they are or inserts a row.
push-insert_row :
    (args : PushArgs) (marshalled : Result Text) (db : Database) (sent : List Note)
    → let pool = (push args marshalled (idle [] db sent)).1.pool in
      (pool ≡ db) ⊎ ((new : NewRow) × (pool ≡ (insert_row new db).1))
unfolding push exec insert_row on_error queue_notify ◌>>=◌
push-insert_row args (err e) db sent = inl refl
push-insert_row args (ok payload) db sent = inr (new_row args none payload, ground arith)

push_addressed-insert_row :
    (args : PushArgs) (address : Text) (marshalled : Result Text) (db : Database) (sent : List Note)
    → let pool = (push_addressed args address marshalled (idle [] db sent)).1.pool in
      (pool ≡ db) ⊎ ((new : NewRow) × (pool ≡ (insert_row new db).1))
unfolding push_addressed exec insert_row on_error queue_notify ◌>>=◌
push_addressed-insert_row args address (err e) db sent = inl refl
push_addressed-insert_row args address (ok payload) db sent =
    inr (new_row args (some address) payload, ground arith)

inserted-IsDelivery :
    (pool db : Database) (log : List ℕ)
    → (pool ≡ db) ⊎ ((new : NewRow) × (pool ≡ (insert_row new db).1))
    → IsDelivery db log
    → IsDelivery pool log
inserted-IsDelivery pool db log (inl e) d = subst (λ b. IsDelivery b log) (sym e) d
inserted-IsDelivery pool db log (inr (new, e)) d =
    subst (λ b. IsDelivery b log) (sym e) (insert_row-IsDelivery new db log d)

module _ (locked : ℕ → Bool) (name : Text) (max_priority : ℕ) (types : List ℕ) (seen : Database)
    (sent : List Note) (db : Database) (log : List ℕ) (d : IsDelivery db log)
    (t : no_types types ≡ false)
    (c : count_if (is_eligible (pop_filter name max_priority types)) seen.rows ≢ 0) where
  handed_out-IsDelivery :
      (w : QueueWork) (s : Session) (r : Row)
      → pop (stale locked db) name max_priority types (idle [] seen sent) ≡ (ok w, s)
      → Memᴰ r s.pool.rows
      → r.permit ≡ w.permit
      → IsDelivery s.pool (r.id ∷ log)
  unfolding to_work is_eligible
  handed_out-IsDelivery w s r e m p =
      elim (pop_takes-IsFirst (stale locked db) name max_priority types seen sent t c) [
        | inr (_, h) ↦ let bad = ap (λ y. y.0) (sym h ∙ e) in cc
        | inl (q, first, h) ↦
            let tables = ap (λ x. x.1.pool) (sym h ∙ e) in
            let permit : w.permit ≡ db.next_permit =
              ap (λ (y : Result QueueWork × Session). elim y.0 [ ok x ↦ x.permit | err _ ↦ 0 ])
                (sym e ∙ h) in
            let same =
              All-at (λ x. x.permit ≡ db.next_permit → x.id ≡ q.id)
                (subst (λ (b : Database). Memᴰ r b.rows) (sym tables) m)
                (set_permit-id db q db.rows (next_permit_free db d.sound)) (p ∙ permit) in
            subst₂ IsDelivery tables (ap (λ i. i ∷ log) (sym same))
              (claimed-IsDelivery db q log first.there (ground (arith, first.passes)) d)
      ]

  found_none-IsDelivery :
      (x : Error) (s : Session)
      → pop (stale locked db) name max_priority types (idle [] seen sent) ≡ (err x, s)
      → IsDelivery s.pool log
  found_none-IsDelivery x s e =
      elim (pop_takes-IsFirst (stale locked db) name max_priority types seen sent t c) [
        | inl (q, _, h) ↦ let bad = ap (λ y. y.0) (sym h ∙ e) in cc
        | inr (_, h) ↦
            subst (λ tables. IsDelivery tables log) (ap (λ y. y.1.pool) (sym h ∙ e))
              (raced-IsDelivery db log d)
      ]

Delivered-IsDelivery :
    {start db : Database} {log : List ℕ}
    → IsSound start
    → Delivered start db log
    → IsDelivery db log
Delivered-IsDelivery v nothing = record {
  sound = v;
  once = tt;
  given = tt;
  unheld = All-mono _ _ _ (λ r _ _. tt) v.rows_fresh;
}
Delivered-IsDelivery v (pushed {db} {log} args marshalled sent d) =
    inserted-IsDelivery _ db log (push-insert_row args marshalled db sent)
      (Delivered-IsDelivery v d)
Delivered-IsDelivery v (pushed_addressed {db} {log} args address marshalled sent d) =
    inserted-IsDelivery _ db log (push_addressed-insert_row args address marshalled db sent)
      (Delivered-IsDelivery v d)
Delivered-IsDelivery v (deleted {db} {log} permit sent d) =
    deleted-IsDelivery permit sent db log (Delivered-IsDelivery v d)
Delivered-IsDelivery v
      (handed_out {db} {log} locked name max_priority types seen sent w s r d t c e m p) =
    handed_out-IsDelivery locked name max_priority types seen sent db log (Delivered-IsDelivery v d)
      t c w s r e m p
Delivered-IsDelivery v
      (found_none {db} {log} locked name max_priority types seen sent w s d t c e) =
    found_none-IsDelivery locked name max_priority types seen sent db log (Delivered-IsDelivery v d)
      t c w s e

-- Workers push, pop and delete in any order on sound tables, the rows that others have locked
-- and the tables that a pop has counted are any, and no call of the driver fails. Then no row is
-- handed out twice.
pub delivered_once :
    (start db : Database) (log : List ℕ)
    → IsSound start
    → Delivered start db log
    → Pairs (λ a b. a ≢ b) log
delivered_once start db log v d = (Delivered-IsDelivery v d).once
