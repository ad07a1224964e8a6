-- ===== src/Platlib/Store/Address.antt =====
-- Addressed work: duplicates, progress, completion and persisted failures.
use queue_benchmark.Prelude.{
  suc, ◌<◌, ◌≡◌, refl, ap, ◌∙◌, ◌≢◌, true, false, not, List, [], ◌∷◌, ◌++◌, none, some, arith, ◌==◌,
  ltb, if◌then◌else◌, select, count_if, Text, text_eq, text_eq_iff, text_eq_refl,
}
use queue_benchmark.Queue.{ok, err, DriverError, driver, duplicate_addressed_push, queue_error}
use queue_benchmark.Platlib.Tables.{
  Row, Database, clash, any_clash, make_row, insert_row, has_address, count_address, first_failure,
  select_failure, clear_failure, insert_failure, unique_violation, unique_violation_error,
}
use queue_benchmark.Platlib.Session.{Note, ◌>>=◌, on_error, exec, queue_notify}
use queue_benchmark.Platlib.Store.{
  PushArgs, new_row, push_addressed, push_addressed_error, is_unique_violation, pg_code,
  is_address_in_progress, is_address_complete, addressed_complete, ErrorCodec,
}
use queue_benchmark.Platlib.Store.Pop.{idle, ready_note}

-- A unique violation is recognised by its code under any wrapping.
pub is_unique_violation_code :
    (e : DriverError) → pg_code e ≡ some unique_violation → is_unique_violation (driver e) ≡ true
unfolding is_unique_violation
is_unique_violation_code e h = rw h (rw (text_eq_refl unique_violation))

-- The row that an addressed push inserts.
abbrev pub addressed_row : PushArgs → Text → Text → Database → Row
addressed_row a address payload db = make_row db.next_row (new_row a (some address) payload)

duplicate_error : push_addressed_error (driver unique_violation_error) ≡ duplicate_addressed_push
unfolding push_addressed_error
duplicate_error = rw (is_unique_violation_code unique_violation_error (unfold pg_code in refl))

module _ (a : PushArgs) (address payload : Text) (db : Database) (sent : List Note) where
  -- On a driver that does not fail, an addressed push either finds the address in the table,
  -- returns ErrDuplicateAddressedPush, changes no row and notifies nobody, or appends its row and
  -- sends one ready note.
  pub push_addressed_lem : push_addressed a address (ok payload) (idle [] db sent) ≡ (
      if any_clash (some address) db.rows
      then (err duplicate_addressed_push, idle [] (record db { next_row = suc db.next_row }) sent)
      else (
        ok tt,
        idle []
            (record db {
              rows = db.rows ++ addressed_row a address payload db ∷ [];
              next_row = suc db.next_row;
            })
            (sent ++ ready_note ∷ []),
      ))
  unfolding push_addressed exec insert_row on_error queue_notify ◌>>=◌
  push_addressed_lem = ground (arith, duplicate_error)

-- An address clashes with a row that is appended under it.
any_clash-append :
    (address : Text) (rows : List Row) (r : Row)
    → clash r.address (some address) ≡ true
    → any_clash (some address) (rows ++ r ∷ []) ≡ true
unfolding any_clash
any_clash-append address [] r h = ground arith
any_clash-append address (q ∷ rows) r h = ground (arith, any_clash-append address rows r h)

count_address-append :
    (address : Text) (rows : List Row) (r : Row)
    → clash r.address (some address) ≡ true
    → 0 < count_if (has_address address) (rows ++ r ∷ [])
unfolding count_if has_address
count_address-append address [] r h = ground arith
count_address-append address (q ∷ rows) r h = ground (arith, count_address-append address rows r h)

in_progress_quiet :
    (address : Text) (db : Database) (sent : List Note)
    → (is_address_in_progress address (idle [] db sent)).0
      ≡ ok (ltb 0 (count_if (has_address address) db.rows))
unfolding is_address_in_progress exec on_error count_address ◌>>=◌
in_progress_quiet address db sent = refl

module _ (a b : PushArgs) (address payload later : Text) (db : Database) (sent : List Note) where
  -- Behind a push whose address was not in the table, the address is in progress, and any push of
  -- the same address returns ErrDuplicateAddressedPush and leaves the rows as they are.
  pub push_addressed_twice :
      any_clash (some address) db.rows ≡ false
      → let (first, s) = push_addressed a address (ok payload) (idle [] db sent) in
        let (second, s') = push_addressed b address (ok later) s in
        (first ≡ ok tt)
        × ((is_address_in_progress address s).0 ≡ ok true)
        × (second ≡ err duplicate_addressed_push)
        × (s'.pool.rows ≡ s.pool.rows)
        × (s'.sent ≡ s.sent)
  unfolding new_row
  push_addressed_twice fresh =
      rw (push_addressed_lem a address payload db sent)
        (rw fresh (refl, rest.0, rest.1, rest.2, rest.3))
    where
      db' : Database
      db' = record db {
        rows = db.rows ++ addressed_row a address payload db ∷ [];
        next_row = suc db.next_row;
      }

      there : clash (some address) (some address) ≡ true
      there = unfold clash in text_eq_refl address

      rest :
          let (second, s') =
            push_addressed b address (ok later) (idle [] db' (sent ++ ready_note ∷ [])) in
          ((is_address_in_progress address (idle [] db' (sent ++ ready_note ∷ []))).0 ≡ ok true)
          × (second ≡ err duplicate_addressed_push)
          × (s'.pool.rows ≡ db'.rows)
          × (s'.sent ≡ sent ++ ready_note ∷ [])
      rest = rw (push_addressed_lem b address later db' (sent ++ ready_note ∷ [])) (
          rw
            (any_clash-append address db.rows (addressed_row a address payload db)
              (unfold make_row in there))
            (
              in_progress_quiet address db' _
                  ∙ ap ok (
                      ground (
                        arith,
                        count_address-append address db.rows (addressed_row a address payload db)
                            (unfold make_row in there),
                      )),
              refl,
              refl,
              refl,
            ))

-- What is relied on of encoding/json for one text, as of every valid UTF-8: the QueueError with it is
-- marshalled and reads back as itself.
abbrev pub IsFaithful : ErrorCodec → Text → Type 0
IsFaithful codec text =
    (raw : Text) × (codec.marshal text ≡ ok raw) × (codec.unmarshal raw ≡ some text)

first_failure-clear :
    (address raw : Text) (fs : List (Text × Text))
    → first_failure address
        (select (λ (f : Text × Text). not (text_eq f.0 address)) fs ++ (address, raw) ∷ [])
      ≡ some raw
unfolding first_failure select
first_failure-clear address raw [] = rw (text_eq_refl address)
first_failure-clear address raw (f ∷ fs) = ground (arith, first_failure-clear address raw fs)

first_failure-none :
    (address : Text) (fs : List (Text × Text))
    → first_failure address (select (λ (f : Text × Text). not (text_eq f.0 address)) fs) ≡ none
unfolding first_failure select
first_failure-none address [] = refl
first_failure-none address (f ∷ fs) = ground (arith, first_failure-none address fs)

module _ (codec : ErrorCodec) (address text : Text) (db : Database) (sent : List Note) where
  -- A failure with a text that encoding/json reads back as it was, and that is recorded for an address is what IsQueueAddressComplete then
  -- reports, together with true, and it does so whether or not a row of that address is still in
  -- the queue.
  pub addressed_complete_failed :
      IsFaithful codec text
      → text ≢ []
      → let (recorded, s) = addressed_complete codec address (some text) (idle [] db sent) in
        (recorded ≡ ok tt)
        × (s.pool.rows ≡ db.rows)
        × ((is_address_complete codec address s).0 ≡ (true, some (queue_error text)))
  unfolding addressed_complete is_address_complete exec on_error select_failure clear_failure
      insert_failure ◌>>=◌
  addressed_complete_failed faithful named =
      let (raw, m, u) = faithful in
      ground (arith, m, u, first_failure-clear address raw db.failures, text_eq_iff text [])

module _ (codec : ErrorCodec) (address : Text) (db : Database) (sent : List Note) where
  -- Recording success clears the failures of the address: the answer is then whether no row has it.
  pub addressed_complete_cleared :
      let (recorded, s) = addressed_complete codec address none (idle [] db sent) in
      (recorded ≡ ok tt)
      × (s.pool.rows ≡ db.rows)
      × ((is_address_complete codec address s).0
          ≡ (count_if (has_address address) db.rows == 0, none))
  unfolding addressed_complete is_address_complete exec on_error select_failure clear_failure
      count_address ◌>>=◌
  addressed_complete_cleared = ground (arith, first_failure-none address db.failures)
