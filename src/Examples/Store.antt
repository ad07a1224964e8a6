-- ===== src/Examples/Store.antt =====
-- A queue with two rows: pops, deletes, pushes, transactions.
use queue_benchmark.Prelude.{
  ℕ, ◌≡◌, refl, ◌≢◌, ◌⊎◌, true, false, not, [], ◌∷◌, ◌++◌, none, some, arith, ◌==◌, All, select,
  count_if, Text, bytes, text_eq, ℤ, pos, ap, get_elem?,
}
use queue_benchmark.Prelude.Int.{to_int64}
use queue_benchmark.Queue.{
  ok, err, driver, DriverError, other_error, duplicate_addressed_push, queue_error, no_rows,
}
use queue_benchmark.Platlib.Tables.{
  Row, Database, is_eligible, first_row, choose, comes_before, clash, mem_ℤ, any_clash,
  empty_database, insert_row, make_row, count_eligible, claim_row, set_permit, insert_permit,
}
use queue_benchmark.Platlib.Session.{
  Session, complete_transaction, complete_transaction_nil, abandon, next_turn, view, exec, on_error,
  queue_notify, begin, commit, ◌>>=◌,
}
use queue_benchmark.Platlib.Session.Invariant.{IsReady}
use queue_benchmark.Platlib.Session.Commit.{complete_committed}
use queue_benchmark.Platlib.Store.{
  Rivals, PushArgs, pop, push, push_addressed, delete, to_work, pop_filter, ErrorCodec,
  addressed_complete, is_address_complete, is_address_in_progress,
}
use queue_benchmark.Platlib.Store.Reachable.{Reached, fresh, behind, Step, rows_stay-Apart}
use queue_benchmark.Platlib.Store.Invariant.{unchanged}
use queue_benchmark.Platlib.Store.PopInvariant.{pop-IsReady}
use queue_benchmark.Platlib.Store.Address.{
  IsFaithful, push_addressed_twice, addressed_complete_failed,
}
use queue_benchmark.Platlib.Store.Pop.{
  idle, may_take, claimed, alone, ready_note, commit_fails, pop_takes-IsFirst, delete-claimed,
  pop_delivers_twice,
}
use queue_benchmark.Platlib.Store.Drain.{drain}
use queue_benchmark.Platlib.Store.Drain.Complete.{IsDrained, drain-IsDrained}
use queue_benchmark.Platlib.Tables.Invariant.{IsSound}
use queue_benchmark.Platlib.Tables.Choice.{IsFirst}

abbrev pub row : ℕ → ℤ → Row
row id priority = record {
  id = id;
  name = bytes "q";
  priority = priority;
  permit = 0;
  item = bytes "{}";
  group_id = none;
  type = pos 7;
  address = none;
  carrier = none;
}

-- The second row comes first by its priority.
abbrev pub two_rows : Database
two_rows = record {
  rows = row 1 (pos 9) ∷ row 2 (pos 5) ∷ [];
  permits = [];
  failures = [];
  next_row = 3;
  next_permit = 4;
}

-- Another worker holds the second row.
abbrev busy : Rivals
busy = record { between = λ db. db; locked = λ id. id == 2 }

abbrev pub names : Text
names = bytes "q"

count-two_rows : count_if (is_eligible (pop_filter names 10 (7 ∷ []))) two_rows.rows ≡ 2
unfolding is_eligible pop_filter text_eq to_int64 mem_ℤ count_if
count-two_rows = refl

pub waiting : count_if (is_eligible (pop_filter names 10 (7 ∷ []))) two_rows.rows ≢ 0
waiting e = absurd (omega (arith, e, count-two_rows))

pub two_rows-IsSound : IsSound two_rows
unfolding clash
two_rows-IsSound = record {
  permits_start = omega arith;
  rows_fresh = omega arith;
  claims_fresh = omega arith;
  permits_fresh = tt;
  apart = ((record { ids = omega arith; claims = λ e. refl; addresses = refl }, tt), (tt, tt));
}

pop_takes-IsFirst_example :
    let result = pop busy names 10 (7 ∷ []) (idle [] two_rows []) in
    ((r : Row) × IsFirst (may_take busy (pop_filter names 10 (7 ∷ []))) two_rows.rows r
      × (result ≡ (ok (to_work 4 r), idle [] (claimed two_rows r) [])))
    ⊎ (All (λ q. may_take busy (pop_filter names 10 (7 ∷ [])) q ≡ false) two_rows.rows
        × (result ≡ (err no_rows, idle [] (record two_rows { next_permit = 5 }) [])))
pop_takes-IsFirst_example = pop_takes-IsFirst busy names 10 (7 ∷ []) two_rows [] refl waiting

drain-IsDrained_example :
    IsDrained names 10 (7 ∷ []) two_rows [] (drain names 10 (7 ∷ []) 3 (idle [] two_rows []))
drain-IsDrained_example =
    drain-IsDrained names 10 (7 ∷ []) 3 two_rows [] two_rows-IsSound refl
      (omega (arith, count-two_rows))

delete-claimed_example : delete 4 (idle [] (claimed two_rows (row 2 (pos 5))) []) ≡ (
  ok tt,
  idle []
      (record (claimed two_rows (row 2 (pos 5))) {
        rows = select (λ q. not (q.id == 2)) two_rows.rows;
        permits = select (λ q. not (q == 4)) ([] ++ 4 ∷ []);
      })
      ([] ++ ready_note ∷ []),
)
delete-claimed_example = delete-claimed two_rows (row 2 (pos 5)) [] two_rows-IsSound

lost : DriverError
lost = other_error (bytes "connection lost")

pub first_of_two :
    first_row (may_take alone (pop_filter names 10 (7 ∷ []))) two_rows.rows ≡ some (row 2 (pos 5))
unfolding first_row is_eligible pop_filter choose comes_before text_eq to_int64 mem_ℤ
first_of_two = refl

pop_delivers_twice_example :
    let (first, s) = pop alone names 10 (7 ∷ []) (idle (commit_fails lost) two_rows []) in
    (first ≡ ok (to_work 4 (row 2 (pos 5))))
    × ((pop alone names 10 (7 ∷ []) s).0 ≡ ok (to_work 5 (row 2 (pos 5))))
pop_delivers_twice_example =
    pop_delivers_twice names 10 (7 ∷ []) two_rows [] (row 2 (pos 5)) lost refl waiting first_of_two

-- A store whose transaction has a third row and a pending notification.
abbrev three_rows : Database
three_rows = record two_rows { rows = two_rows.rows ++ row 3 (pos 1) ∷ []; next_row = 4 }

abbrev in_tx : Session
in_tx = record {
  pool = two_rows;
  tx = some three_rows;
  pending = ready_note ∷ [];
  sent = [];
  turns = some lost ∷ [];
}

complete_committed_example :
    let (result, s) = complete_transaction none in_tx in
    (s.tx ≡ none)
    × (s.pending ≡ [])
    × (((some lost ≡ none)
          × (result ≡ none)
          × (s.pool ≡ three_rows)
          × (s.sent ≡ [] ++ ready_note ∷ []))
        ⊎ ((e : DriverError) × (some lost ≡ some e)
            × (result ≡ some (driver e))
            × (s.pool ≡ abandon two_rows three_rows)
            × (s.sent ≡ [])))
    × (complete_transaction_nil in_tx ≡ s)
unfolding next_turn
complete_committed_example = complete_committed three_rows in_tx refl

idle-IsReady : IsReady (idle [] two_rows [])
idle-IsReady = record { pool_sound = two_rows-IsSound; ahead = tt; quiet = λ e. refl }

pop-IsReady_example : IsReady (pop busy names 10 (7 ∷ []) (idle [] two_rows [])).1
pop-IsReady_example =
    pop-IsReady busy names 10 (7 ∷ []) (idle [] two_rows []) (λ db. unchanged db) idle-IsReady

three_rows-IsSound : IsSound three_rows
unfolding clash
three_rows-IsSound = record {
  permits_start = omega arith;
  rows_fresh = omega arith;
  claims_fresh = omega arith;
  permits_fresh = tt;
  apart = (
    (
      record { ids = omega arith; claims = λ e. refl; addresses = refl },
      (record { ids = omega arith; claims = λ e. refl; addresses = refl }, tt),
    ),
    ((record { ids = omega arith; claims = λ e. refl; addresses = refl }, tt), (tt, tt)),
  );
}

in_tx-IsReady : IsReady in_tx
in_tx-IsReady = record {
  pool_sound = two_rows-IsSound;
  ahead = (three_rows-IsSound, omega arith, omega arith);
  quiet = λ e. absurd (cc e);
}

abbrev args : PushArgs
args = record { name = names; group_id = none; priority = 3; work_type = 7; carrier = none }

-- A codec that stores a text as it is.
abbrev plain : ErrorCodec
plain = record { marshal = λ t. ok t; unmarshal = λ t. some t }

plain-IsFaithful : IsFaithful plain names
plain-IsFaithful = (names, refl, refl)

abbrev job_address : Text
job_address = bytes "bench:1"

fresh_address : any_clash (some job_address) two_rows.rows ≡ false
unfolding any_clash clash
fresh_address = refl

push_addressed_twice_example :
    let (first, s) = push_addressed args job_address (ok (bytes "{}")) (idle [] two_rows []) in
    let (second, s') = push_addressed args job_address (ok (bytes "[]")) s in
    (first ≡ ok tt)
    × ((is_address_in_progress job_address s).0 ≡ ok true)
    × (second ≡ err duplicate_addressed_push)
    × (s'.pool.rows ≡ s.pool.rows)
    × (s'.sent ≡ s.sent)
push_addressed_twice_example =
    push_addressed_twice args args job_address (bytes "{}") (bytes "[]") two_rows [] fresh_address

addressed_complete_failed_example :
    let (recorded, s) = addressed_complete plain job_address (some names) (idle [] two_rows []) in
    (recorded ≡ ok tt)
    × (s.pool.rows ≡ two_rows.rows)
    × ((is_address_complete plain job_address s).0 ≡ (true, some (queue_error names)))
addressed_complete_failed_example =
    addressed_complete_failed plain job_address names two_rows [] plain-IsFaithful
      λ e. absurd (cc e)

-- Two pushes, one of them addressed, and a pop.
abbrev pushed_one : Session
pushed_one = (push args (ok (bytes "{}")) (idle [] empty_database [])).1

abbrev pushed_two : Session
pushed_two = (push_addressed args job_address (ok (bytes "{}")) pushed_one).1

abbrev popped_one : Session
popped_one = (pop alone names 10 (7 ∷ []) pushed_two).1

three_steps : Reached [] popped_one
three_steps =
    behind
      (behind (behind fresh (Step.pushed args (ok (bytes "{}"))))
        (Step.pushed_addressed args job_address (ok (bytes "{}"))))
      (Step.popped alone names 10 (7 ∷ []) λ db. unchanged db)

abbrev claimed_row : Row
claimed_row = record {
  id = 1;
  name = names;
  priority = pos 3;
  permit = 1;
  item = bytes "{}";
  group_id = none;
  type = pos 7;
  address = none;
  carrier = none;
}

abbrev waiting_row : Row
waiting_row = record claimed_row { id = 2; permit = 0; address = some job_address }

popped_rows : (view popped_one).rows ≡ claimed_row ∷ waiting_row ∷ []
unfolding push push_addressed pop exec on_error queue_notify insert_row make_row any_clash clash
    count_eligible count_if is_eligible claim_row first_row choose comes_before set_permit
    insert_permit begin commit to_int64 text_eq mem_ℤ ◌>>=◌ empty_database
popped_rows = refl

rows_stay-Apart_example :
    (claimed_row.id ≢ waiting_row.id)
    × (claimed_row.permit ≡ waiting_row.permit → claimed_row.permit ≡ 0)
    × (clash none (some job_address) ≡ false)
rows_stay-Apart_example =
    rows_stay-Apart 0 1 {r = claimed_row} {q = waiting_row} three_steps (omega arith)
      (ap (λ rows. get_elem? rows 0) popped_rows) (ap (λ rows. get_elem? rows 1) popped_rows)
