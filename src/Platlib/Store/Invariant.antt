-- ===== src/Platlib/Store/Invariant.antt =====
-- Every operation of the store keeps it ready, whatever the driver does.
use queue_benchmark.Prelude.{ℕ, Bool, Option, none, some, arith, Text}
use queue_benchmark.Queue.{
  Result, ok, err, wrap, queue_push, delete_row, delete_permit, complete_clear, complete_insert,
  complete_marshal,
}
use queue_benchmark.Platlib.Tables.{
  Database, Filter, NewRow, insert_row, insert_permit, claim_row, delete_claimed, remove_permit,
  clear_failure, insert_failure,
}
use queue_benchmark.Platlib.Tables.Invariant.{
  IsUnused, insert_row-IsSound, insert_permit-IsSound, claim_row-IsSound, delete_claimed-IsSound,
  remove_permit-IsSound,
}
use queue_benchmark.Platlib.Session.{Session, queue_ready_channel}
use queue_benchmark.Platlib.Session.Invariant.{
  Follows, IsReady, Keeps, Keeps-bind, Keeps-on_error, Keeps-exec, IsSafe, Keeps-queue_notify,
}
use queue_benchmark.Platlib.Store.{
  PushArgs, or_marshal_error, push, push_addressed_error, push_addressed, delete,
  addressed_complete, record_failure, ErrorCodec,
}

-- A statement that changes no row and no sequence may follow anything.
pub unchanged : (db : Database) → Follows db db
unchanged db = record { sound = λ v. v; row_sequence = omega arith; permit_sequence = omega arith }

insert_row-IsSafe : (new : NewRow) → IsSafe (insert_row new)
insert_row-IsSafe new db = record {
  sound = insert_row-IsSound new db;
  row_sequence = unfold insert_row in ground arith;
  permit_sequence = unfold insert_row in ground arith;
}

pub insert_permit-IsSafe : IsSafe insert_permit
insert_permit-IsSafe db = record {
  sound = insert_permit-IsSound db;
  row_sequence = unfold insert_permit in omega arith;
  permit_sequence = unfold insert_permit in omega arith;
}

pub claim_row-Follows :
    (locked : ℕ → Bool) (permit : ℕ) (f : Filter) (db : Database)
    → IsUnused permit db
    → Follows db (claim_row locked permit f db).1
claim_row-Follows locked permit f db unused = record {
  sound = claim_row-IsSound locked permit f db unused;
  row_sequence = unfold claim_row in ground arith;
  permit_sequence = unfold claim_row in ground arith;
}

delete_claimed-IsSafe : (permit : ℕ) → IsSafe (delete_claimed permit)
delete_claimed-IsSafe permit db = record {
  sound = delete_claimed-IsSound permit db;
  row_sequence = unfold delete_claimed in omega arith;
  permit_sequence = unfold delete_claimed in omega arith;
}

pub remove_permit-IsSafe : (permit : ℕ) → IsSafe (remove_permit permit)
remove_permit-IsSafe permit db = record {
  sound = remove_permit-IsSound permit db;
  row_sequence = unfold remove_permit in omega arith;
  permit_sequence = unfold remove_permit in omega arith;
}

clear_failure-IsSafe : (address : Text) → IsSafe (clear_failure address)
unfolding clear_failure
clear_failure-IsSafe address db = record {
  sound = λ v. record {
    permits_start = v.permits_start;
    rows_fresh = v.rows_fresh;
    claims_fresh = v.claims_fresh;
    permits_fresh = v.permits_fresh;
    apart = v.apart;
  };
  row_sequence = omega arith;
  permit_sequence = omega arith;
}

insert_failure-IsSafe : (address error : Text) → IsSafe (insert_failure address error)
unfolding insert_failure
insert_failure-IsSafe address error db = record {
  sound = λ v. record {
    permits_start = v.permits_start;
    rows_fresh = v.rows_fresh;
    claims_fresh = v.claims_fresh;
    permits_fresh = v.permits_fresh;
    apart = v.apart;
  };
  row_sequence = omega arith;
  permit_sequence = omega arith;
}

Keeps-marshal : (marshalled : Result Text) → Keeps (or_marshal_error marshalled)
Keeps-marshal (ok payload) s v = v
Keeps-marshal (err e) s v = v

push-Keeps : (a : PushArgs) (marshalled : Result Text) → Keeps (push a marshalled)
unfolding push
push-Keeps a marshalled = Keeps-bind _ _ (Keeps-marshal marshalled) λ payload.
    Keeps-bind _ _ (Keeps-on_error (wrap queue_push) _ (Keeps-exec _ (insert_row-IsSafe _)))
      λ _. Keeps-queue_notify queue_ready_channel

push_addressed-Keeps :
    (a : PushArgs) (address : Text) (marshalled : Result Text)
    → Keeps (push_addressed a address marshalled)
unfolding push_addressed
push_addressed-Keeps a address marshalled = Keeps-bind _ _ (Keeps-marshal marshalled) λ payload.
    Keeps-bind _ _ (Keeps-on_error push_addressed_error _ (Keeps-exec _ (insert_row-IsSafe _)))
      λ _. Keeps-queue_notify queue_ready_channel

delete-Keeps : (permit : ℕ) → Keeps (delete permit)
unfolding delete
delete-Keeps permit =
    Keeps-bind _ _
      (Keeps-on_error (wrap delete_row) _ (Keeps-exec _ (delete_claimed-IsSafe permit)))
      λ _.
        Keeps-bind _ _
          (Keeps-on_error (wrap delete_permit) _ (Keeps-exec _ (remove_permit-IsSafe permit)))
          λ _. Keeps-queue_notify queue_ready_channel

addressed_complete-Keeps :
    (codec : ErrorCodec) (address : Text) (failure : Option Text)
    → Keeps (addressed_complete codec address failure)
unfolding addressed_complete
addressed_complete-Keeps codec address failure =
    Keeps-bind _ _
      (Keeps-on_error (wrap complete_clear) _ (Keeps-exec _ (clear_failure-IsSafe address)))
      λ _. record_failure-IsReady failure
  where
    record_failure-IsReady : (failure : Option Text) → Keeps (record_failure codec address failure)
    record_failure-IsReady none = λ s v. v
    record_failure-IsReady (some text) =
        Keeps-bind _ _ (Keeps-on_error (wrap complete_marshal) _ (λ s v. v)) λ raw.
          Keeps-on_error (wrap complete_insert) _ (Keeps-exec _ (insert_failure-IsSafe address raw))

-- Whatever the driver answers, a push, an addressed push, a delete and the recording of an
-- addressed item's outcome each leave a ready store ready.
pub operations-IsReady :
    (a : PushArgs) (address : Text) (marshalled : Result Text) (permit : ℕ) (codec : ErrorCodec)
    (failure : Option Text) (s : Session)
    → IsReady s
    → IsReady (push a marshalled s).1
      × IsReady (push_addressed a address marshalled s).1
      × IsReady (delete permit s).1
      × IsReady (addressed_complete codec address failure s).1
operations-IsReady a address marshalled permit codec failure s v = (
  push-Keeps a marshalled s v,
  push_addressed-Keeps a address marshalled s v,
  delete-Keeps permit s v,
  addressed_complete-Keeps codec address failure s v,
)
