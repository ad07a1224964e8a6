-- ===== src/Platlib/Store/Drain/Complete.antt =====
-- That a worker alone with a store is handed every row that it asks for, once and in order.
use mathlib.Core.List.{Memᴰ}
use queue_benchmark.Prelude.{
  ℕ, zero, suc, ◌+◌, ◌<◌, ◌≡◌, refl, sym, ap, ◌∙◌, inl, inr, Bool, true, false, not, ◌&&◌, List, [],
  ◌∷◌, ◌++◌, some, arith, All, All-mono, All-select, Pairs, Option-cases, Bool-cases, select,
  count_if, Text,
}
use queue_benchmark.Queue.{no_rows}
use queue_benchmark.Platlib.Tables.{Row, Database, is_eligible, comes_before, first_row}
use queue_benchmark.Platlib.Tables.Invariant.{IsSound}
use queue_benchmark.Platlib.Tables.Choice.{IsFirst, first_row-IsFirst, first_row-eq-none}
use queue_benchmark.Platlib.Tables.Removal.{
  without, count_if-without, select-without, count_if-eq-zero, count_if-none, select-all,
}
use queue_benchmark.Platlib.Session.{Session, Note}
use queue_benchmark.Platlib.Store.{to_work, pop_filter, no_types}
use queue_benchmark.Platlib.Store.Pop.{idle, alone, ready_note, pop-idle}
use queue_benchmark.Platlib.Store.Drain.{
  Drained, drain_after, drain, works_from, repeat, removed, removed-IsSound, wanted, takes,
  drain_step,
}

module _ (name : Text) (max_priority : ℕ) (types : List ℕ) where
  abbrev is_wanted : Row → Bool
  is_wanted = wanted name max_priority types

  abbrev is_taken : Row → Bool
  is_taken = takes name max_priority types

  -- What a drain leaves.
  abbrev leftover : Database → List Note → Session
  leftover db sent =
      idle []
        (record db {
          rows = select (λ r. not (is_wanted r)) db.rows;
          next_permit = count_if is_wanted db.rows + db.next_permit;
        })
        (repeat (count_if is_wanted db.rows) sent)

  not_before :
      (r q : Row)
      → (is_wanted q ≡ true → comes_before r q ≡ true)
      → (is_wanted q && not (comes_before r q)) ≡ false
  not_before r q h = elim (Bool-cases (is_wanted q)) [
    | inl e ↦ ground (arith, e, h e)
    | inr e ↦ ground (arith, e)
  ]

  passes_wanted : (db : Database) (r : Row) → IsFirst is_taken db.rows r → is_wanted r ≡ true
  passes_wanted db r f = ground (arith, f.passes)

  -- What a drain makes of sound tables with rows to hand out.
  pub record IsDrained (db : Database) (sent : List Note) (d : Drained) : Type 0 where
    pub handed : List Row
    pub works : d.0 ≡ works_from db.next_permit handed
    pub all : (p : Row → Bool) → count_if p handed ≡ count_if (λ r. is_wanted r && p r) db.rows
    pub ordered : Pairs (λ r q. comes_before r q ≡ true) handed
    pub ended : d.1.0 ≡ some no_rows
    pub left : d.1.1 ≡ leftover db sent

  -- The first row to take, and what is left without it.
  one_fewer :
      (db : Database) (r : Row)
      → IsSound db
      → Memᴰ r db.rows
      → is_wanted r ≡ true
      → count_if is_wanted db.rows ≡ suc (count_if is_wanted (without r db.rows))
  one_fewer db r v m e = ground (arith, count_if-without is_wanted m v.apart, e)

  count_behind :
      (db : Database) (r : Row) (rest : List Row) (p : Row → Bool)
      → IsSound db
      → Memᴰ r db.rows
      → is_wanted r ≡ true
      → count_if p rest ≡ count_if (λ q. is_wanted q && p q) (without r db.rows)
      → count_if p (r ∷ rest) ≡ count_if (λ q. is_wanted q && p q) db.rows
  unfolding count_if
  count_behind db r rest p v m e h =
      rw (count_if-without (λ q. is_wanted q && p q) m v.apart, h, e) refl

  -- Nothing that is handed out later comes before the first row.
  first_of_all :
      (r : Row) (rows rest : List Row)
      → All (λ q. is_wanted q ≡ true → comes_before r q ≡ true) rows
      → ((p : Row → Bool) → count_if p rest ≡ count_if (λ q. is_wanted q && p q) rows)
      → All (λ q. comes_before r q ≡ true) rest
  first_of_all r rows rest first h =
      All-mono (λ q. not (comes_before r q) ≡ false) (λ q. comes_before r q ≡ true) rest
        (λ q e. ground arith)
        (count_if-eq-zero _ rest (
          h (λ q. not (comes_before r q))
          ∙ count_if-none _ rows (
              All-mono (λ q. is_wanted q ≡ true → comes_before r q ≡ true)
                (λ q. (is_wanted q && not (comes_before r q)) ≡ false) rows
                (λ q k. not_before r q k) first)))

  left_behind :
      (db : Database) (sent : List Note) (r : Row) (s : Session)
      → IsSound db
      → Memᴰ r db.rows
      → is_wanted r ≡ true
      → s ≡ leftover (removed db r) (sent ++ ready_note ∷ [])
      → s ≡ leftover db sent
  unfolding repeat
  left_behind db sent r s v m e h =
      h
      ∙ rw (one_fewer db r v m e, select-without (λ q. not (is_wanted q)) m v.apart (ap not e))
          (ap
            (λ next.
              idle []
                (record db { rows = select (λ q. not (is_wanted q)) db.rows; next_permit = next })
                (repeat (count_if is_wanted (without r db.rows)) (sent ++ ready_note ∷ [])))
            (omega arith))

  drained_behind :
      (db : Database) (sent : List Note) (r : Row) (d : Drained)
      → IsSound db
      → IsFirst is_taken db.rows r
      → IsDrained (removed db r) (sent ++ ready_note ∷ []) d
      → IsDrained db sent (to_work db.next_permit r ∷ d.0, d.1)
  unfolding works_from
  drained_behind db sent r d v f rest = record {
    handed = r ∷ rest.handed;
    works = ap (λ ws. to_work db.next_permit r ∷ ws) rest.works;
    all = λ p. count_behind db r rest.handed p v f.there (passes_wanted db r f) (rest.all p);
    ordered = (
      first_of_all r (without r db.rows) rest.handed
          (All-select _ _ db.rows (
            All-mono (λ q. is_taken q ≡ true → comes_before r q ≡ true) _ db.rows
              (λ q h e. h (ground (arith, e))) f.first))
          rest.all,
      rest.ordered,
    );
    ended = rest.ended;
    left = left_behind db sent r d.1.1 v f.there (passes_wanted db r f) rest.left;
  }

  stopped :
      (db : Database) (sent : List Note)
      → count_if is_wanted db.rows ≡ 0
      → IsDrained db sent ([], (some no_rows, idle [] db sent))
  unfolding works_from count_if repeat
  stopped db sent c =
      let none_left = count_if-eq-zero is_wanted db.rows c in
      record {
        handed = [];
        works = refl;
        all = λ p. sym (
            count_if-none _ db.rows (
              All-mono (λ q. is_wanted q ≡ false) (λ q. (is_wanted q && p q) ≡ false) db.rows
                (λ q e. ground (arith, e)) none_left));
        ordered = tt;
        ended = refl;
        left =
            rw (c, select-all is_wanted db.rows none_left)
              (ap (λ next. idle [] (record db { next_permit = next }) sent) (omega arith));
      }

  drain_all :
      (n fuel : ℕ) (db : Database) (sent : List Note)
      → IsSound db
      → no_types types ≡ false
      → count_if is_wanted db.rows ≡ n
      → n < fuel
      → IsDrained db sent (drain name max_priority types fuel (idle [] db sent))
  unfolding drain drain_after
  drain_all n zero db sent v t c l = absurd (omega arith)
  drain_all zero (suc fuel) db sent v t c l =
      rw (pop-idle alone name max_priority types db sent (inr c), drain) (stopped db sent c)
  drain_all (suc n) (suc fuel) db sent v t c l = elim (Option-cases (first_row is_taken db.rows)) [
    | inl e ↦ absurd (
        omega (
          arith,
          c,
          count_if-none is_wanted db.rows (
              All-mono (λ q. is_taken q ≡ false) _ db.rows (λ q h. ground (arith, h))
                (first_row-eq-none _ db.rows e)),
        ))
    | inr (r, e) ↦
        let f = first_row-IsFirst _ _ r e in
        rw (drain_step name max_priority types fuel db sent r v t (λ z. absurd (omega arith)) e) (
          drained_behind db sent r _ v f (
            drain_all n fuel (removed db r) (sent ++ ready_note ∷ []) (removed-IsSound db r v) t
              (omega (arith, c, one_fewer db r v f.there (passes_wanted db r f))) (omega arith)))
  ]

  -- On a driver that does not fail, alone with sound tables, a worker that asks for some type and
  -- deletes each work before its next pop, with fuel above the number of the eligible rows, ends by
  -- ErrNoRows. The works that it was handed are those of the eligible rows, each as often as it is
  -- in the tables, in the order by priority and then id, under consecutive permits from the next
  -- one. The tables keep the other rows and the permits that they had, and one ready note is sent
  -- for each work.
  pub drain-IsDrained :
      (fuel : ℕ) (db : Database) (sent : List Note)
      → IsSound db
      → no_types types ≡ false
      → count_if (is_eligible (pop_filter name max_priority types)) db.rows < fuel
      → IsDrained db sent (drain name max_priority types fuel (idle [] db sent))
  drain-IsDrained fuel db sent v t l = drain_all _ fuel db sent v t refl l
