-- ===== src/Platlib/Store.antt =====
-- The queue operations of internal/queue/platlib/store.go, in the order of that file. A marshalled
-- payload is a parameter, since encoding/json makes it.
pub mod Invariant
pub mod PopInvariant
pub mod Address
pub mod Pop
pub mod Drain
pub mod Delivery
pub mod Reachable
use queue_benchmark.Prelude.{
  ℕ, ◌+◌, ◌≡◌, Bool, true, false, not, ◌&&◌, ◌||◌, List, [], ◌∷◌, ◌++◌, map, Option, none, some,
  Text, text_eq, ℤ, ◌==◌, ltb, if◌then◌else◌, bytes,
}
use queue_benchmark.Prelude.Bytes.{contains}
use queue_benchmark.Prelude.Int.{to_int64, to_uint64}
use queue_benchmark.Queue.{
  Result, ok, err, Error, driver, DriverError, pg_error, other_error, driver_wrap, wrap, no_rows,
  duplicate_addressed_push, queue_error, message, queue_push, queue_push_addressed, marshal_work,
  pop_precount, pop_begin, pop_permit, pop_claim, delete_row, delete_permit, peek, failure_check,
  row_check, in_progress_check, complete_clear, complete_marshal, complete_insert, Site,
}
use queue_benchmark.Platlib.Tables.{
  Row, Database, Filter, NewRow, unique_violation, insert_row, count_eligible, insert_permit,
  claim_row, delete_claimed, remove_permit, select_waiting, count_address, select_failure,
  clear_failure, insert_failure,
}
use queue_benchmark.Platlib.Session.{
  Session, view, with_view, M, ◌>>=◌, ◌>>◌, return, fail, on_error, or_wrap, exec, begin, commit,
  rollback, queue_notify, queue_ready_channel,
}

-- The text of a driver's error; wrapping puts a prefix in front.
unfoldable pub driver_text : DriverError → Text
driver_text (pg_error code text) = text
driver_text (other_error text) = text
driver_text (driver_wrap prefix e) = prefix ++ driver_text e

-- `errors.As(err, &pgErr)`: the code of the server error in the chain.
unfoldable pub pg_code : DriverError → Option Text
pg_code (pg_error code text) = some code
pg_code (other_error text) = none
pg_code (driver_wrap prefix e) = pg_code e

abbrev pub has_code : Option Text → Text → Bool
has_code none code = false
has_code (some c) code = text_eq c code

unfoldable pub is_unique_violation : Error → Bool
unfolding driver_text pg_code
is_unique_violation (driver e) =
    has_code (pg_code e) unique_violation || contains (bytes "SQLSTATE 23505") (driver_text e)
is_unique_violation _ = false

-- What the two pushes are given, beside the payload.
pub record PushArgs : Type 0 where
  pub name : Text
  pub group_id : Option ℤ
  pub priority : ℕ
  pub work_type : ℕ
  pub carrier : Option Text

unfoldable pub new_row : PushArgs → Option Text → Text → NewRow
new_row a address payload = record {
  name = a.name;
  priority = to_int64 a.priority;
  item = payload;
  group_id = a.group_id;
  type = to_int64 a.work_type;
  address = address;
  carrier = a.carrier;
}

-- `json.Marshal(work)`, with its error wrapped.
abbrev pub or_marshal_error : Result Text → M Text
or_marshal_error (ok payload) = return payload
or_marshal_error (err e) = fail (wrap marshal_work e)

unfoldable pub push : PushArgs → (marshalled : Result Text) → M (Unit {0})
unfolding new_row
push a marshalled = do
  payload ← or_marshal_error marshalled
  or_wrap queue_push (exec (insert_row (new_row a none payload)))
  queue_notify queue_ready_channel

unfoldable pub push_addressed_error : Error → Error
push_addressed_error e =
    if is_unique_violation e then duplicate_addressed_push else wrap queue_push_addressed e

unfoldable pub push_addressed : PushArgs → Text → (marshalled : Result Text) → M (Unit {0})
unfolding new_row push_addressed_error
push_addressed a address marshalled = do
  payload ← or_marshal_error marshalled
  on_error push_addressed_error (exec (insert_row (new_row a (some address) payload)))
  queue_notify queue_ready_channel

-- plqueue.QueueWork.
pub record QueueWork : Type 0 where
  pub permit : ℕ
  pub address : Text
  pub work_type : ℕ
  pub work : Text
  pub carrier : Text

abbrev pub coalesce : Option Text → Text
coalesce none = []
coalesce (some t) = t

unfoldable pub to_work : ℕ → Row → QueueWork
to_work permit r = record {
  permit = permit;
  address = coalesce r.address;
  work_type = to_uint64 r.type;
  work = r.item;
  carrier = coalesce r.carrier;
}

-- What other sessions do to a pop: the rows that they change behind its count of the waiting rows,
-- and those that they hold locked at its claim.
pub record Rivals : Type 0 where
  pub between : Database → Database
  pub locked : ℕ → Bool

-- The tables that the next statement works on change.
unfoldable pub change_view : (Database → Database) → Session → Session
unfolding with_view
change_view f s = with_view (f (view s)) s

-- A claim that finds no row gives the permit back; any other error is wrapped.
unfoldable pub claim_failed : ℕ → Error → M QueueWork
claim_failed permit no_rows s = let (_, s') = exec (remove_permit permit) s in (err no_rows, s')
claim_failed permit e s = (err (wrap pop_claim e), s)

unfoldable pub end_claim : ℕ → Result Row → M QueueWork
unfolding claim_failed to_work
end_claim permit (ok row) = return (to_work permit row)
end_claim permit (err e) = claim_failed permit e

unfoldable pub claim : Rivals → Filter → ℕ → M QueueWork
unfolding end_claim
claim rivals f permit s =
    let (r, s') = exec (claim_row rivals.locked permit f) s in end_claim permit r s'

-- The statements between the begin and the end of the transaction.
unfoldable pub reserve_and_claim : Rivals → Filter → M QueueWork
unfolding claim
reserve_and_claim rivals f = do
  permit ← or_wrap pop_permit (exec insert_permit)
  claim rivals f permit

unfoldable pub close_after : {A : Type 0} → Result A → M A
close_after (err e) s = (err e, rollback s)
close_after (ok a) s = let (_, s') = commit s in (ok a, s')

-- The deferred `closer`: the error of the commit is dropped.
unfoldable pub close : {A : Type 0} → M A → M A
unfolding close_after
close m s = let (r, s') = m s in close_after r s'

-- A transaction of its own, unless the store is bound to one.
unfoldable pub in_transaction : {A : Type 0} → M A → M A
unfolding close
in_transaction m s = elim s.tx [ some copy ↦ m s | none ↦ (begin pop_begin >>= λ _. close m) s ]

abbrev pub no_types : List ℕ → Bool
no_types [] = true
no_types (t ∷ ts) = false

unfoldable pub pop_filter : Text → ℕ → List ℕ → Filter
pop_filter name max_priority types = record {
  name = name;
  max_priority = to_int64 max_priority;
  types = map to_int64 types;
}

-- What follows the count of the waiting rows.
unfoldable pub pop_counted : Rivals → Filter → ℕ → M QueueWork
unfolding in_transaction reserve_and_claim change_view
pop_counted rivals f cnt s =
    if cnt == 0
    then (err no_rows, s)
    else in_transaction (reserve_and_claim rivals f) (change_view rivals.between s)

unfoldable pub pop_types : Rivals → Filter → Bool → M QueueWork
unfolding pop_counted
pop_types rivals f true = fail no_rows
pop_types rivals f false = do
  cnt ← or_wrap pop_precount (exec (count_eligible f))
  pop_counted rivals f cnt

unfoldable pub pop : Rivals → Text → ℕ → List ℕ → M QueueWork
unfolding pop_filter pop_types
pop rivals name max_priority types =
    pop_types rivals (pop_filter name max_priority types) (no_types types)

-- `QueueDelete`: the claimed row and its permit.
unfoldable pub delete : ℕ → M (Unit {0})
delete permit = do
  or_wrap delete_row (exec (delete_claimed permit))
  or_wrap delete_permit (exec (remove_permit permit))
  queue_notify queue_ready_channel

-- `QueuePermits`, `QueuePermitDelete` and `NotifyExtend`.
unfoldable pub permits : Text → M (List ℕ)
permits name = return []

unfoldable pub permit_delete : ℕ → M (Unit {0})
permit_delete permit = exec (remove_permit permit)

unfoldable pub notify_extend : ℕ → M (Unit {0})
notify_extend permit = return tt

-- A snapshot carries no permit and no carrier.
unfoldable pub to_snapshot : Row → QueueWork
to_snapshot r = record {
  permit = 0;
  address = coalesce r.address;
  work_type = to_uint64 r.type;
  work = r.item;
  carrier = [];
}

unfoldable pub peek_work : List ℕ → M (List QueueWork)
unfolding to_snapshot
peek_work types = if no_types types then return [] else do
  rows ← or_wrap peek (exec (select_waiting (map to_int64 types)))
  return (map to_snapshot rows)

-- How a failure's text is stored: encoding/json on rsqueue's QueueError.
pub record ErrorCodec : Type 0 where
  pub marshal : Text → Result Text
  pub unmarshal : Text → Option Text

-- The error that a stored text stands for.
unfoldable pub stored_error : ErrorCodec → Text → Error
stored_error codec text = elim (codec.unmarshal text) [
  | none ↦ message text
  | some m ↦ if text_eq m [] then message text else queue_error m
]

-- `IsQueueAddressComplete`: the answer and the error are returned together.
unfoldable pub is_address_complete : ErrorCodec → Text → Session → (Bool × Option Error) × Session
unfolding stored_error
is_address_complete codec address s =
    let (failure, s1) = exec (select_failure address) s in
    elim failure [
      | ok text ↦ ((true, some (stored_error codec text)), s1)
      | err no_rows ↦
          let (cnt, s2) = exec (count_address address) s1 in
          elim cnt [ ok n ↦ ((n == 0, none), s2) | err e ↦ ((false, some (wrap row_check e)), s2) ]
      | err e ↦ ((false, some (wrap failure_check e)), s1)
    ]

unfoldable pub is_address_in_progress : Text → M Bool
is_address_in_progress address = do
  cnt ← or_wrap in_progress_check (exec (count_address address))
  return (ltb 0 cnt)

unfoldable pub record_failure : ErrorCodec → Text → Option Text → M (Unit {0})
record_failure codec address none = return tt
record_failure codec address (some text) = do
  raw ← or_wrap complete_marshal (λ s. (codec.marshal text, s))
  or_wrap complete_insert (exec (insert_failure address raw))

-- `QueueAddressedComplete`: `failure` is the text of the error, if there is one.
unfoldable pub addressed_complete : ErrorCodec → Text → Option Text → M (Unit {0})
unfolding record_failure
addressed_complete codec address failure = do
  or_wrap complete_clear (exec (clear_failure address))
  record_failure codec address failure
