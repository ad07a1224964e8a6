-- ===== src/Platlib/Store/PopInvariant.antt =====
-- A pop keeps the store ready, whatever the driver and the other sessions do.
use queue_benchmark.Prelude.{
  ℕ, ◌≡◌, refl, sym, ◌∙◌, ◌⊎◌, inl, inr, Bool, true, false, List, [], Option, none, some, arith,
  Option-cases, Bool-cases, Text, ◌==◌,
}
use mathlib.Core.Path.{subst}
use queue_benchmark.Queue.{
  Site, driver, DriverError, Result, ok, err, Error, wrap, pop_begin, pop_permit, pop_precount,
  no_rows,
}
use queue_benchmark.Platlib.Tables.{
  Database, Row, Filter, insert_permit, claim_row, remove_permit, count_eligible, Statement,
}
use queue_benchmark.Platlib.Tables.Invariant.{IsUnused, insert_permit-IsUnused}
use queue_benchmark.Platlib.Session.{
  Session, ◌>>=◌, continue, view, on_error, call_driver, run_statement, exec, begin, driver_result,
  next_turn,
}
use queue_benchmark.Platlib.Session.Invariant.{
  Follows, view-IsSound, IsReady, Keeps, Keeps-bind, Keeps-on_error, Keeps-call_driver, Keeps-exec,
  exec-IsReady, with_view-IsReady, view-with_view, pending-with_view, rollback-IsReady,
  commit-IsReady, begin-IsReady,
}
use queue_benchmark.Platlib.Store.{
  Rivals, change_view, claim_failed, end_claim, claim, reserve_and_claim, close_after, close,
  in_transaction, pop_counted, pop_types, pop, no_types,
}
use queue_benchmark.Platlib.Store.Invariant.{
  unchanged, insert_permit-IsSafe, remove_permit-IsSafe, claim_row-Follows,
}

-- Other sessions leave the tables sound, and no sequence goes back.
abbrev pub IsCivil : Rivals → Type 0
IsCivil rivals = (db : Database) → Follows db (rivals.between db)

module _ (permit : ℕ) where
  claim_failed-IsReady : (e : Error) → Keeps (claim_failed permit e)
  unfolding claim_failed
  claim_failed-IsReady no_rows s v = Keeps-exec _ (remove_permit-IsSafe permit) s v
  claim_failed-IsReady _ s v = v

  end_claim-IsReady : (r : Result Row) → Keeps (end_claim permit r)
  unfolding end_claim
  end_claim-IsReady (ok row) s v = v
  end_claim-IsReady (err e) s v = claim_failed-IsReady e s v

claim-IsReady :
    (rivals : Rivals) (f : Filter) (permit : ℕ) (s : Session)
    → IsUnused permit (view s)
    → IsReady s
    → IsReady (claim rivals f permit s).1
unfolding claim
claim-IsReady rivals f permit s unused v =
    end_claim-IsReady permit _ _
      (exec-IsReady _ s (claim_row-Follows rivals.locked permit f (view s) unused) v)

-- What is pending stays pending through the statements of a pop.
pending-exec : {A : Type 0} (stmt : Statement A) (s : Session) → (exec stmt s).1.pending ≡ s.pending
unfolding exec call_driver run_statement ◌>>=◌
pending-exec stmt s = go (driver_result (next_turn s.turns))
  where
    go :
        (r : Result (Unit {0}))
        → (continue (λ _. run_statement stmt) r (call_driver s).1).1.pending ≡ s.pending
    go (ok _) = pending-with_view _ (call_driver s).1
    go (err e) = refl

pending-claim :
    (rivals : Rivals) (f : Filter) (permit : ℕ) (s : Session)
    → (claim rivals f permit s).1.pending ≡ s.pending
unfolding claim
pending-claim rivals f permit s = go (exec (claim_row rivals.locked permit f) s).0
  where
    s' : Session
    s' = (exec (claim_row rivals.locked permit f) s).1

    go : (r : Result Row) → (end_claim permit r s').1.pending ≡ s.pending
    go (ok row) = pending-exec _ s
    go (err no_rows) = pending-exec (remove_permit permit) s' ∙ pending-exec _ s
    go (err _) = pending-exec _ s

-- The two statements of a pop, in whatever transaction they run.
module _ (rivals : Rivals) (f : Filter) where
  reserve-IsReady : Keeps (reserve_and_claim rivals f)
  unfolding reserve_and_claim exec call_driver run_statement insert_permit ◌>>=◌ on_error
  reserve-IsReady s v = go (driver_result (next_turn s.turns))
    where
      reserved : Session
      reserved = (run_statement insert_permit (call_driver s).1).1

      go :
          (r : Result (Unit {0}))
          → IsReady
              (continue
                (λ permit. claim rivals f permit)
                (elim (continue (λ _. run_statement insert_permit) r (call_driver s).1).0 [
                  | ok a ↦ ok a
                  | err e ↦ err (wrap pop_permit e)
                ])
                (continue (λ _. run_statement insert_permit) r (call_driver s).1).1).1
      go (ok _) =
          claim-IsReady rivals f (view s).next_permit reserved
            (subst (IsUnused (view s).next_permit)
              (sym (view-with_view (insert_permit (view s)).1 (call_driver s).1))
              (insert_permit-IsUnused (view s) (view-IsSound s v)))
            (with_view-IsReady _ _ (insert_permit-IsSafe (view s)) (Keeps-call_driver s v))
      go (err e) = Keeps-call_driver s v

  pending-reserve : (s : Session) → (reserve_and_claim rivals f s).1.pending ≡ s.pending
  unfolding reserve_and_claim ◌>>=◌ on_error
  pending-reserve s = go (exec insert_permit s).0
    where
      go :
          (r : Result ℕ)
          → (continue
              (claim rivals f)
              (elim r [ ok a ↦ ok a | err e ↦ err (wrap pop_permit e) ])
              (exec insert_permit s).1).1.pending
            ≡ s.pending
      go (ok permit) = pending-claim rivals f permit _ ∙ pending-exec insert_permit s
      go (err e) = pending-exec insert_permit s

close_after-IsReady :
    {A : Type 0} (r : Result A) (s : Session)
    → s.pending ≡ []
    → IsReady s
    → IsReady (close_after r s).1
unfolding close_after
close_after-IsReady (ok a) s p v = commit-IsReady s p v
close_after-IsReady (err e) s p v = rollback-IsReady s p v

pending-begin : (site : Site) (s : Session) → (begin site s).1.pending ≡ s.pending
unfolding begin call_driver on_error ◌>>=◌
pending-begin site s = ground (arith, driver_cases (next_turn s.turns))
  where
    driver_cases :
        (t : Option DriverError)
        → (driver_result t ≡ ok tt) ⊎ ((e : Error) × (driver_result t ≡ err e))
    driver_cases none = inl (unfold driver_result in refl)
    driver_cases (some d) = inr (driver d, unfold driver_result in refl)

-- Outside a transaction nothing is pending, so the end of pop's own transaction drops nothing.
in_transaction-IsReady :
    (rivals : Rivals) (f : Filter) → Keeps (in_transaction (reserve_and_claim rivals f))
unfolding in_transaction close ◌>>=◌
in_transaction-IsReady rivals f s v = elim (Option-cases s.tx) [
  | inr (copy, e) ↦ rw (e, in_transaction) (reserve-IsReady rivals f s v)
  | inl e ↦
      rw (e, in_transaction)
        (own (begin pop_begin s).0 (begin pop_begin s).1 (pending-begin pop_begin s ∙ v.quiet e)
          (begin-IsReady pop_begin s e v))
]
  where
    own :
        (r : Result (Unit {0})) (s' : Session)
        → s'.pending ≡ []
        → IsReady s'
        → IsReady (continue (λ _. close (reserve_and_claim rivals f)) r s').1
    own (ok _) s' p w =
        close_after-IsReady (reserve_and_claim rivals f s').0 _ (pending-reserve rivals f s' ∙ p)
          (reserve-IsReady rivals f s' w)
    own (err e) s' p w = w

pop_counted-IsReady :
    (rivals : Rivals) (f : Filter) (cnt : ℕ) → IsCivil rivals → Keeps (pop_counted rivals f cnt)
unfolding pop_counted
pop_counted-IsReady rivals f cnt civil s v = elim (Bool-cases (cnt == 0)) [
  | inl e ↦ rw e v
  | inr e ↦ rw e (
      in_transaction-IsReady rivals f _
        (unfold change_view in with_view-IsReady _ s (civil (view s)) v))
]

pop_types-IsReady :
    (rivals : Rivals) (f : Filter) (idle : Bool) → IsCivil rivals → Keeps (pop_types rivals f idle)
unfolding pop_types
pop_types-IsReady rivals f true civil = λ s v. v
pop_types-IsReady rivals f false civil =
    Keeps-bind _ _
      (Keeps-on_error (wrap pop_precount) _
        (Keeps-exec (count_eligible f) (λ db. unfold count_eligible in unchanged db)))
      λ cnt. pop_counted-IsReady rivals f cnt civil

-- Whatever the driver answers and whatever civil sessions do between its statements, a pop leaves
-- the store ready: the tables sound, no sequence behind, nothing pending outside a transaction.
pub pop-IsReady :
    (rivals : Rivals) (name : Text) (max_priority : ℕ) (types : List ℕ) (s : Session)
    → IsCivil rivals
    → IsReady s
    → IsReady (pop rivals name max_priority types s).1
unfolding pop
pop-IsReady rivals name max_priority types s civil v =
    pop_types-IsReady rivals _ (no_types types) civil s v
