-- ===== src/Platlib/Session/Commit.antt =====
-- What the end of a transaction publishes and whom it notifies.
use queue_benchmark.Prelude.{◌≡◌, [], ◌++◌, none, some, arith, ◌⊎◌}
use queue_benchmark.Queue.{Error, DriverError, driver}
use queue_benchmark.Platlib.Tables.{Database}
use queue_benchmark.Platlib.Session.{
  Session, abandon, complete_transaction, complete_transaction_nil, next_turn,
}

module _ (copy : Database) (s : Session) (open_tx : s.tx ≡ some copy) where
  -- With an error at hand the transaction is rolled back: the error stays, no row, permit or
  -- failure of the pool changes, and nobody is notified.
  pub complete_failed :
      (e : Error)
      → let (result, s') = complete_transaction (some e) s in
        (result ≡ some e)
        × (s'.pool ≡ abandon s.pool copy)
        × (s'.tx ≡ none)
        × (s'.sent ≡ s.sent)
        × (s'.pending ≡ [])
  unfolding complete_transaction
  complete_failed e = ground arith

  -- Without an error at hand, CompleteTransaction commits an open transaction. If the commit succeeds,
  -- the pool has the transaction's tables and what was pending is sent behind what was sent before; if
  -- it fails, its error is reported, the pool's rows stay and nobody is notified. Either way the
  -- transaction is over. With a nil errp it does the same and reports nothing.
  pub complete_committed :
      let (result, s') = complete_transaction none s in
      (s'.tx ≡ none)
      × (s'.pending ≡ [])
      × (((next_turn s.turns ≡ none)
            × (result ≡ none)
            × (s'.pool ≡ copy)
            × (s'.sent ≡ s.sent ++ s.pending))
          ⊎ ((e : DriverError) × (next_turn s.turns ≡ some e)
              × (result ≡ some (driver e))
              × (s'.pool ≡ abandon s.pool copy)
              × (s'.sent ≡ s.sent)))
      × (complete_transaction_nil s ≡ s')
  unfolding complete_transaction complete_transaction_nil
  complete_committed = ground arith
