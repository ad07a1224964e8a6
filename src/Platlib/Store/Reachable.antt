-- ===== src/Platlib/Store/Reachable.antt =====
-- Every store that a sequence of operations and of other sessions' changes can reach.
use mathlib.Core.Path.{subst}
use queue_benchmark.Prelude.{
  ℕ, zero, suc, ◌<◌, ◌≡◌, refl, ◌≢◌, false, inl, inr, List, [], ◌∷◌, map, Option, none, some, arith,
  Text, get_elem?, All, Pairs, Bool-cases,
}
use queue_benchmark.Prelude.Int.{to_int64}
use queue_benchmark.Queue.{Result, ok, Error, DriverError, wrap, in_progress_check, peek}
use queue_benchmark.Platlib.Tables.{
  Row, Database, clash, empty_database, select_waiting, count_address, select_failure,
}
use queue_benchmark.Platlib.Tables.Invariant.{Apart, empty_database-IsSound}
use queue_benchmark.Platlib.Session.{
  Session, view, with_view, exec, begin_transaction_queue, complete_transaction,
}
use queue_benchmark.Platlib.Session.Invariant.{
  Follows, IsReady, Keeps, Keeps-bind, Keeps-on_error, Keeps-exec, with_view-IsReady, view-IsSound,
  begin_transaction_queue-IsReady, complete_transaction-IsReady,
}
use queue_benchmark.Platlib.Store.{
  PushArgs, Rivals, ErrorCodec, push, push_addressed, pop, delete, permit_delete, peek_work,
  is_address_complete, is_address_in_progress, addressed_complete, no_types, to_snapshot,
}
use queue_benchmark.Platlib.Store.Invariant.{unchanged, remove_permit-IsSafe, operations-IsReady}
use queue_benchmark.Platlib.Store.PopInvariant.{IsCivil, pop-IsReady}
use queue_benchmark.Platlib.Store.Pop.{idle}

permit_delete-Keeps : (permit : ℕ) → Keeps (permit_delete permit)
unfolding permit_delete
permit_delete-Keeps permit = Keeps-exec _ (remove_permit-IsSafe permit)

peek_work-Keeps : (types : List ℕ) → Keeps (peek_work types)
unfolding peek_work
peek_work-Keeps types s v = elim (Bool-cases (no_types types)) [
  | inl e ↦ rw e v
  | inr e ↦ rw e (
      Keeps-bind _ (λ rows s'. (ok (map to_snapshot rows), s'))
        (Keeps-on_error (wrap peek) _ (
          Keeps-exec (select_waiting (map to_int64 types))
            (λ db. unfold select_waiting in unchanged db)))
        (λ rows s' w. w) s v)
]

is_address_in_progress-Keeps : (address : Text) → Keeps (is_address_in_progress address)
unfolding is_address_in_progress
is_address_in_progress-Keeps address =
    Keeps-bind _ _
      (Keeps-on_error (wrap in_progress_check) _
        (Keeps-exec (count_address address) (λ db. unfold count_address in unchanged db)))
      λ cnt s v. v

is_address_complete-IsReady :
    (codec : ErrorCodec) (address : Text) (s : Session)
    → IsReady s
    → IsReady (is_address_complete codec address s).1
unfolding is_address_complete
is_address_complete-IsReady codec address s v =
    let found =
      Keeps-exec (select_failure address) (λ db. unfold select_failure in unchanged db) s v in
    let counted =
      Keeps-exec (count_address address) (λ db. unfold count_address in unchanged db)
        (exec (select_failure address) s).1 found in
    ground (arith, found, counted)

-- One call of an operation, or a change by other sessions of the tables in view.
pub data Step (s : Session) : Session → Type 0 where
  pushed : (a : PushArgs) (marshalled : Result Text) → Step s (push a marshalled s).1
  pushed_addressed :
      (a : PushArgs) (address : Text) (marshalled : Result Text)
      → Step s (push_addressed a address marshalled s).1
  popped :
      (rivals : Rivals) (name : Text) (max_priority : ℕ) (types : List ℕ)
      → IsCivil rivals
      → Step s (pop rivals name max_priority types s).1
  deleted : (permit : ℕ) → Step s (delete permit s).1
  permit_deleted : (permit : ℕ) → Step s (permit_delete permit s).1
  peeked : (types : List ℕ) → Step s (peek_work types s).1
  asked_complete :
      (codec : ErrorCodec) (address : Text) → Step s (is_address_complete codec address s).1
  asked_in_progress : (address : Text) → Step s (is_address_in_progress address s).1
  completed :
      (codec : ErrorCodec) (address : Text) (failure : Option Text)
      → Step s (addressed_complete codec address failure s).1
  opened : Step s (begin_transaction_queue s).1
  ended : (failure : Option Error) → Step s (complete_transaction failure s).1
  others : (db : Database) → Follows (view s) db → Step s (with_view db s)

no_args : PushArgs
no_args = record { name = []; group_id = none; priority = 0; work_type = 0; carrier = none }

no_codec : ErrorCodec
no_codec = record { marshal = λ t. ok t; unmarshal = λ t. none }

Step-IsReady : {s t : Session} → Step s t → IsReady s → IsReady t
Step-IsReady {s} (pushed a m) v = (operations-IsReady a [] m 0 no_codec none s v).0
Step-IsReady {s} (pushed_addressed a address m) v =
    (operations-IsReady a address m 0 no_codec none s v).1
Step-IsReady {s} (popped rivals name p types civil) v = pop-IsReady rivals name p types s civil v
Step-IsReady {s} (deleted permit) v =
    (operations-IsReady no_args [] (ok []) permit no_codec none s v).2
Step-IsReady {s} (permit_deleted permit) v = permit_delete-Keeps permit s v
Step-IsReady {s} (peeked types) v = peek_work-Keeps types s v
Step-IsReady {s} (asked_complete codec address) v = is_address_complete-IsReady codec address s v
Step-IsReady {s} (asked_in_progress address) v = is_address_in_progress-Keeps address s v
Step-IsReady {s} (completed codec address failure) v =
    (operations-IsReady no_args address (ok []) 0 codec failure s v).3
Step-IsReady {s} opened v = begin_transaction_queue-IsReady s v
Step-IsReady {s} (ended failure) v = complete_transaction-IsReady failure s v
Step-IsReady {s} (others db f) v = with_view-IsReady db s f v

-- What a store on empty tables reaches, whatever its driver answers.
pub data Reached (turns : List (Option DriverError)) : Session → Type 0 where
  fresh : Reached turns (idle turns empty_database [])
  behind : {s t : Session} → Reached turns s → Step s t → Reached turns t

Reached-IsReady : {turns : List (Option DriverError)} {s : Session} → Reached turns s → IsReady s
Reached-IsReady fresh = record {
  pool_sound = empty_database-IsSound;
  ahead = tt;
  quiet = λ e. refl;
}
Reached-IsReady (behind reached step) = Step-IsReady step (Reached-IsReady reached)

All-get_elem? :
    (P : Row → Type 0) (rows : List Row) (i : ℕ) {r : Row}
    → All P rows
    → get_elem? rows i ≡ some r
    → P r
All-get_elem? P [] i h e = absurd (cc e)
All-get_elem? P (q ∷ rows) zero {r} h e = subst P (cc e) h.0
All-get_elem? P (q ∷ rows) (suc i) h e = All-get_elem? P rows i h.1 e

Pairs-get_elem? :
    (rows : List Row) (i j : ℕ) {r q : Row}
    → Pairs Apart rows
    → i < j
    → get_elem? rows i ≡ some r
    → get_elem? rows j ≡ some q
    → Apart r q
Pairs-get_elem? [] i j h l e f = absurd (cc e)
Pairs-get_elem? (p ∷ rows) i zero h l e f = absurd (omega arith)
Pairs-get_elem? (p ∷ rows) zero (suc j) {r} {q} h l e f =
    subst (λ x. Apart x q) (cc e) (All-get_elem? (Apart p) rows j h.0 f)
Pairs-get_elem? (p ∷ rows) (suc i) (suc j) h l e f = Pairs-get_elem? rows i j h.1 (omega arith) e f

-- In every state that a store on empty tables reaches, through any sequence of its operations, any
-- answers of the driver and any changes by civil sessions, two rows at different places of the
-- tables in view have different ids, no claim in common, and no address in common.
pub rows_stay-Apart :
    {turns : List (Option DriverError)} {s : Session} (i j : ℕ) {r q : Row}
    → Reached turns s
    → i < j
    → get_elem? (view s).rows i ≡ some r
    → get_elem? (view s).rows j ≡ some q
    → (r.id ≢ q.id) × (r.permit ≡ q.permit → r.permit ≡ 0) × (clash r.address q.address ≡ false)
rows_stay-Apart {s = s} i j reached l e f =
    let a =
      Pairs-get_elem? (view s).rows i j (view-IsSound s (Reached-IsReady reached)).apart l e f in
    (a.ids, a.claims, a.addresses)
