-- ===== src/Platlib/Session/Invariant.antt =====
-- What holds of a pgStore between two calls of the driver, and what keeps it.
use queue_benchmark.Prelude.{
  ◌<◌, ◌≤◌, All-mono, ◌≡◌, refl, ◌∙◌, inl, inr, [], Option, none, some, arith, Option-cases, Text,
}
use queue_benchmark.Queue.{Result, ok, err, Error, Site, wrap, begin_tx}
use queue_benchmark.Platlib.Tables.{Row, Database, Statement}
use queue_benchmark.Platlib.Tables.Invariant.{IsSound}
use queue_benchmark.Platlib.Session.{
  Session, M, ◌>>=◌, continue, view, with_view, on_error, call_driver, run_statement, exec,
  driver_result, publish, end_commit, end_complete, complete_open, abandon, rollback, commit,
  queue_notify, begin, begin_transaction_queue, complete_transaction, next_turn,
}

-- One state of the tables may follow another: it is sound and no sequence has gone back.
pub record Follows (old new : Database) : Type 0 where
  pub sound : IsSound old → IsSound new
  pub row_sequence : old.next_row ≤ new.next_row
  pub permit_sequence : old.next_permit ≤ new.next_permit

abbrev pub Ahead : Database → Option Database → Type 0
Ahead pool none = Unit {0}
Ahead pool (some copy) =
    IsSound copy × (pool.next_row ≤ copy.next_row) × (pool.next_permit ≤ copy.next_permit)

-- The pool and an open transaction's copy are sound, the copy's sequences are not behind, and
-- nothing waits for a commit outside a transaction.
pub record IsReady (s : Session) : Type 0 where
  pub pool_sound : IsSound s.pool
  pub ahead : Ahead s.pool s.tx
  pub quiet : s.tx ≡ none → s.pending ≡ []

pub view-IsSound : (s : Session) → IsReady s → IsSound (view s)
view-IsSound s v = elim (Option-cases s.tx) [
  | inl e ↦ rw e v.pool_sound
  | inr (copy, e) ↦ rw e (rw e at v.ahead).0
]

abbrev pub Keeps : {A : Type 0} → M A → Type 0
Keeps m = (s : Session) → IsReady s → IsReady (m s).1

Keeps-continue :
    {A B : Type 0} (f : A → M B) (r : Result A) (s : Session)
    → ((a : A) → Keeps (f a))
    → IsReady s
    → IsReady (continue f r s).1
Keeps-continue f (ok a) s hf v = hf a s v
Keeps-continue f (err e) s hf v = v

pub Keeps-bind :
    {A B : Type 0} (m : M A) (f : A → M B) → Keeps m → ((a : A) → Keeps (f a)) → Keeps (m >>= f)
unfolding ◌>>=◌
Keeps-bind m f hm hf s v = Keeps-continue f (m s).0 (m s).1 hf (hm s v)

pub Keeps-on_error : {A : Type 0} (f : Error → Error) (m : M A) → Keeps m → Keeps (on_error f m)
unfolding on_error
Keeps-on_error f m hm s v = hm s v

pub Keeps-call_driver : Keeps call_driver
unfolding call_driver
Keeps-call_driver s v = record { pool_sound = v.pool_sound; ahead = v.ahead; quiet = v.quiet }

pub view-with_view : (db : Database) (s : Session) → view (with_view db s) ≡ db
unfolding with_view
view-with_view db s = ground arith

pub pending-with_view : (db : Database) (s : Session) → (with_view db s).pending ≡ s.pending
unfolding with_view
pending-with_view db s = ground arith

-- Tables that may follow those where the next statement works keep the store ready.
pub with_view-IsReady :
    (db : Database) (s : Session) → Follows (view s) db → IsReady s → IsReady (with_view db s)
unfolding with_view
with_view-IsReady db s f v = elim (Option-cases s.tx) [
  | inl e ↦
      rw (e, with_view)
        (record { pool_sound = (rw e at f).sound v.pool_sound; ahead = rw e tt; quiet = v.quiet })
  | inr (copy, e) ↦
      rw (e, with_view)
        (record {
          pool_sound = v.pool_sound;
          ahead =
              let (c, r, p) = rw e at v.ahead in
              let g = rw e at f in
              (g.sound c, omega (arith, g.row_sequence), omega (arith, g.permit_sequence));
          quiet = λ h. cc;
        })
]

pub exec-IsReady :
    {A : Type 0} (stmt : Statement A) (s : Session)
    → Follows (view s) (stmt (view s)).1
    → IsReady s
    → IsReady (exec stmt s).1
unfolding exec call_driver
exec-IsReady stmt s f v = go (driver_result (next_turn s.turns)) (Keeps-call_driver s v)
  where
    go :
        (r : Result (Unit {0}))
        → IsReady (call_driver s).1
        → IsReady (continue (λ _. run_statement stmt) r (call_driver s).1).1
    go (ok _) w = unfold run_statement in with_view-IsReady _ _ f w
    go (err e) w = w

-- A statement that may follow everywhere.
abbrev pub IsSafe : {A : Type 0} → Statement A → Type 0
IsSafe stmt = (db : Database) → Follows db (stmt db).1

pub Keeps-exec : {A : Type 0} (stmt : Statement A) → IsSafe stmt → Keeps (exec stmt)
Keeps-exec stmt safe s v = exec-IsReady stmt s (safe (view s)) v

pub Keeps-queue_notify : (channel : Text) → Keeps (queue_notify channel)
unfolding queue_notify
Keeps-queue_notify channel s v = elim (Option-cases s.tx) [
  | inl e ↦
      rw (e, queue_notify) (record { pool_sound = v.pool_sound; ahead = v.ahead; quiet = v.quiet })
  | inr (copy, e) ↦
      rw (e, queue_notify) (record { pool_sound = v.pool_sound; ahead = v.ahead; quiet = λ h. cc })
]

abandon-IsSound :
    (pool copy : Database) → IsSound pool → Ahead pool (some copy) → IsSound (abandon pool copy)
unfolding abandon
abandon-IsSound pool copy v a = record {
  permits_start = a.0.permits_start;
  rows_fresh =
      All-mono (λ (r : Row). r.id < pool.next_row) (λ (r : Row). r.id < copy.next_row) pool.rows
        (λ r h. omega arith) v.rows_fresh;
  claims_fresh =
      All-mono (λ (r : Row). r.permit < pool.next_permit) (λ (r : Row). r.permit < copy.next_permit)
        pool.rows (λ r h. omega arith) v.claims_fresh;
  permits_fresh =
      All-mono (λ p. p < pool.next_permit) (λ p. p < copy.next_permit) pool.permits
        (λ r h. omega arith) v.permits_fresh;
  apart = v.apart;
}

-- Without the notifications: the part of `IsReady` that the end of a transaction keeps.
abbrev IsConsistent : Session → Type 0
IsConsistent s = IsSound s.pool × Ahead s.pool s.tx

IsReady-of_quiet : (s : Session) → s.pending ≡ [] → IsConsistent s → IsReady s
IsReady-of_quiet s p v = record { pool_sound = v.0; ahead = v.1; quiet = λ h. p }

rollback-IsConsistent : (s : Session) → IsConsistent s → IsConsistent (rollback s)
unfolding rollback
rollback-IsConsistent s v = elim (Option-cases s.tx) [
  | inl e ↦ rw (e, rollback) (v.0, rw e tt)
  | inr (copy, e) ↦ rw (e, rollback) (abandon-IsSound s.pool copy v.0 (rw e at v.1), tt)
]

publish-IsConsistent : (s : Session) → IsConsistent s → IsConsistent (publish s)
unfolding publish
publish-IsConsistent s v = elim (Option-cases s.tx) [
  | inl e ↦ rw (e, publish) (v.0, rw e tt)
  | inr (copy, e) ↦ rw (e, publish) ((rw e at v.1).0, tt)
]

end_commit-IsConsistent :
    (r : Result (Unit {0})) (s : Session) → IsConsistent s → IsConsistent (end_commit r s).1
unfolding end_commit
end_commit-IsConsistent (ok _) s v = publish-IsConsistent s v
end_commit-IsConsistent (err e) s v = rollback-IsConsistent s v

commit-IsConsistent : (s : Session) → IsConsistent s → IsConsistent (commit s).1
unfolding commit call_driver
commit-IsConsistent s v = end_commit-IsConsistent (driver_result (next_turn s.turns)) _ v

-- Neither end of a transaction touches what is pending.
pub pending-rollback : (s : Session) → (rollback s).pending ≡ s.pending
unfolding rollback
pending-rollback s = ground arith

pub pending-commit : (s : Session) → (commit s).1.pending ≡ s.pending
unfolding commit call_driver end_commit publish
pending-commit s = ground (arith, pending-rollback (call_driver s).1)

pub rollback-IsReady : (s : Session) → s.pending ≡ [] → IsReady s → IsReady (rollback s)
rollback-IsReady s p v =
    IsReady-of_quiet (rollback s) (pending-rollback s ∙ p)
      (rollback-IsConsistent s (v.pool_sound, v.ahead))

pub commit-IsReady : (s : Session) → s.pending ≡ [] → IsReady s → IsReady (commit s).1
commit-IsReady s p v =
    IsReady-of_quiet (commit s).1 (pending-commit s ∙ p)
      (commit-IsConsistent s (v.pool_sound, v.ahead))

end_complete-IsReady :
    (r : Result (Unit {0})) (s : Session) → IsConsistent s → IsReady (end_complete r s).1
unfolding end_complete
end_complete-IsReady (ok _) s v = IsReady-of_quiet _ refl v
end_complete-IsReady (err e) s v = IsReady-of_quiet _ refl v

complete_open-IsReady :
    (failure : Option Error) (s : Session) → IsReady s → IsReady (complete_open failure s).1
unfolding complete_open
complete_open-IsReady (some e) s v =
    IsReady-of_quiet _ refl (rollback-IsConsistent s (v.pool_sound, v.ahead))
complete_open-IsReady none s v =
    end_complete-IsReady (commit s).0 (commit s).1 (commit-IsConsistent s (v.pool_sound, v.ahead))

-- `CompleteTransaction` leaves the store ready on each of its branches.
pub complete_transaction-IsReady :
    (failure : Option Error) (s : Session) → IsReady s → IsReady (complete_transaction failure s).1
unfolding complete_transaction
complete_transaction-IsReady failure s v = elim (Option-cases s.tx) [
  | inl e ↦ rw (e, complete_transaction) v
  | inr (copy, e) ↦ rw (e, complete_transaction) (complete_open-IsReady failure s v)
]

-- Opening a transaction copies sound tables.
pub begin-IsReady : (site : Site) (s : Session) → s.tx ≡ none → IsReady s → IsReady (begin site s).1
unfolding begin call_driver on_error
begin-IsReady site s closed v = go (driver_result (next_turn s.turns))
  where
    opened : M (Unit {0})
    opened s' = (ok tt, record s' { tx = some s'.pool })

    fails : Result (Unit {0}) → Result (Unit {0})
    fails r = elim r [ ok a ↦ ok a | err e ↦ err (wrap site e) ]

    go : (r : Result (Unit {0})) → IsReady (continue (λ _. opened) (fails r) (call_driver s).1).1
    go (ok _) = record {
      pool_sound = v.pool_sound;
      ahead = (v.pool_sound, omega arith, omega arith);
      quiet = λ h. cc;
    }
    go (err e) = Keeps-call_driver s v

-- A nested transaction is refused and changes nothing.
pub begin_transaction_queue-IsReady : Keeps begin_transaction_queue
unfolding begin_transaction_queue
begin_transaction_queue-IsReady s v = elim (Option-cases s.tx) [
  | inl e ↦
      rw (e, begin_transaction_queue)
        (begin-IsReady begin_tx (record s { pending = [] }) e
          (record { pool_sound = v.pool_sound; ahead = v.ahead; quiet = λ h. refl }))
  | inr (copy, e) ↦ rw (e, begin_transaction_queue) v
]
