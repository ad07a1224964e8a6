-- ===== src/Platlib/Session.antt =====
-- A pgStore with the pool behind it: `exec`, `query`, `queryRow`, transactions and notifications
-- of internal/queue/platlib/store.go. The driver's behaviour is a list of outcomes, one for each
-- call that may fail; a call behind the end of the list succeeds. A transaction works on a copy of
-- the tables that its commit publishes.
pub mod Invariant
pub mod Commit
use queue_benchmark.Prelude.{
  ℕ, ◌+◌, ◌≡◌, Bool, true, false, List, [], ◌∷◌, ◌++◌, Option, none, some, Text, bytes,
}
use queue_benchmark.Queue.{
  Result, ok, err, Error, driver, DriverError, wrap, Site, nested_transaction, begin_tx,
}
use queue_benchmark.Platlib.Tables.{Database, Statement}

-- A notification: its channel and the NotifyType of its payload.
pub record Note : Type 0 where
  pub channel : Text
  pub notify_type : ℕ

abbrev pub notify_type_queue : ℕ
notify_type_queue = 1

abbrev pub queue_ready_channel : Text
queue_ready_channel = bytes "messages"

-- `tx` is the copy of an open transaction. `sent` is what the notifier has been given.
pub record Session : Type 0 where
  pub pool : Database
  pub tx : Option Database
  pub pending : List Note
  pub sent : List Note
  pub turns : List (Option DriverError)

-- The tables that the next statement works on.
abbrev pub view : Session → Database
view s = elim s.tx [ none ↦ s.pool | some copy ↦ copy ]

abbrev pub M : Type 0 → Type 0
M A = Session → Result A × Session

abbrev pub continue : {A B : Type 0} → (A → M B) → Result A → M B
continue f (ok a) s = f a s
continue f (err e) s = (err e, s)

infixl 5 ◌>>=◌ ◌>>◌
unfoldable pub ◌>>=◌ : {A B : Type 0} → M A → (A → M B) → M B
◌>>=◌ m f s = let (r, s') = m s in continue f r s'

abbrev pub ◌>>◌ : {B : Type 0} → M (Unit {0}) → M B → M B
m >> k = m >>= λ _. k

abbrev pub return : {A : Type 0} → A → M A
return a s = (ok a, s)

abbrev pub fail : {A : Type 0} → Error → M A
fail e s = (err e, s)

-- What the code makes of an error: `if err != nil { return …err… }`.
unfoldable pub on_error : {A : Type 0} → (Error → Error) → M A → M A
on_error f m s = let (r, s') = m s in (elim r [ ok a ↦ ok a | err e ↦ err (f e) ], s')

abbrev pub or_wrap : {A : Type 0} → Site → M A → M A
or_wrap site m = on_error (wrap site) m

unfoldable pub next_turn : List (Option DriverError) → Option DriverError
next_turn [] = none
next_turn (t ∷ ts) = t

unfoldable pub later_turns : List (Option DriverError) → List (Option DriverError)
later_turns [] = []
later_turns (t ∷ ts) = ts

unfoldable pub driver_result : Option DriverError → Result (Unit {0})
driver_result none = ok tt
driver_result (some e) = err (driver e)

-- A call of the driver that only succeeds or fails.
unfoldable pub call_driver : M (Unit {0})
unfolding next_turn later_turns driver_result
call_driver s = (driver_result (next_turn s.turns), record s { turns = later_turns s.turns })

-- Put new tables where the next statement works.
unfoldable pub with_view : Database → Session → Session
with_view db s = elim s.tx [ none ↦ record s { pool = db } | some copy ↦ record s { tx = some db } ]

-- A statement runs in the open transaction, or by itself on the pool.
unfoldable pub run_statement : {A : Type 0} → Statement A → M A
unfolding with_view
run_statement stmt s = let (r, db) = stmt (view s) in (r, with_view db s)

-- `exec`, `query` and `queryRow`.
unfoldable pub exec : {A : Type 0} → Statement A → M A
unfolding call_driver run_statement ◌>>=◌
exec stmt = do call_driver; run_statement stmt

-- The sequences of an abandoned transaction stay where they are.
unfoldable pub abandon : Database → Database → Database
abandon pool copy = record pool { next_row = copy.next_row; next_permit = copy.next_permit }

abbrev pub close_with : Session → Database → Session
close_with s pool = record s { tx = none; pool = pool }

-- `tx.Rollback`; its error is ignored by every caller.
unfoldable pub rollback : Session → Session
unfolding abandon
rollback s = elim s.tx [ none ↦ s | some copy ↦ close_with s (abandon s.pool copy) ]

-- The transaction's copy becomes the tables of the pool.
unfoldable pub publish : Session → Session
publish s = elim s.tx [ none ↦ s | some copy ↦ close_with s copy ]

unfoldable pub end_commit : Result (Unit {0}) → M (Unit {0})
unfolding rollback publish
end_commit (ok _) s = (ok tt, publish s)
end_commit (err e) s = (err e, rollback s)

-- `tx.Commit`: a commit that fails has published nothing.
unfoldable pub commit : M (Unit {0})
unfolding call_driver end_commit
commit s = let (r, s') = call_driver s in end_commit r s'

-- `queueNotify`: kept for the commit inside a transaction, sent at once outside.
unfoldable pub queue_notify : Text → M (Unit {0})
queue_notify channel s =
    let note : Note = record { channel = channel; notify_type = notify_type_queue } in
    (
      ok tt,
      elim s.tx [
        | some copy ↦ record s { pending = s.pending ++ note ∷ [] }
        | none ↦ record s { sent = s.sent ++ note ∷ [] }
      ],
    )

unfoldable pub begin : Site → M (Unit {0})
unfolding call_driver on_error ◌>>=◌
begin site = do or_wrap site call_driver; λ s. (ok tt, record s { tx = some s.pool })

-- `BeginTransactionQueue`: the store that it returns starts with no pending notification.
unfoldable pub begin_transaction_queue : M (Unit {0})
unfolding begin
begin_transaction_queue s = elim s.tx [
  | some copy ↦ (err nested_transaction, s)
  | none ↦ begin begin_tx (record s { pending = [] })
]

-- Publish the notifications that waited for the commit.
unfoldable pub flush : Session → Session
flush s = record s { sent = s.sent ++ s.pending; pending = [] }

-- After the commit: its error, or the notifications.
unfoldable pub end_complete : Result (Unit {0}) → Session → Option Error × Session
unfolding flush
end_complete (ok _) s = (none, flush s)
end_complete (err e) s = (some e, record s { pending = [] })

unfoldable pub complete_open : Option Error → Session → Option Error × Session
unfolding rollback commit end_complete
complete_open (some e) s = (some e, record (rollback s) { pending = [] })
complete_open none s = let (r, s') = commit s in end_complete r s'

-- `CompleteTransaction(errp)`, where errp is not nil: `failure` is `*errp` before, the result `*errp`
-- behind.
unfoldable pub complete_transaction : Option Error → Session → Option Error × Session
unfolding complete_open
complete_transaction failure s = elim s.tx [
  | none ↦ (failure, s)
  | some copy ↦ complete_open failure s
]

-- `CompleteTransaction(nil)`: it commits, and nobody is told of an error of the commit.
unfoldable pub complete_transaction_nil : Session → Session
unfolding complete_open
complete_transaction_nil s = elim s.tx [ none ↦ s | some copy ↦ (complete_open none s).1 ]
