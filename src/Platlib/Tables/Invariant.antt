-- ===== src/Platlib/Tables/Invariant.antt =====
-- What holds of the tables between two statements, and that each statement keeps it.
use queue_benchmark.Prelude.{
  ℕ, suc, ◌<◌, ◌≡◌, ◌≢◌, inl, inr, Bool, false, not, ◌&&◌, List, [], ◌∷◌, map, arith, All,
  All-append, All-select, All-mono, Pairs, Pairs-append_one, Pairs-select, Bool-cases, Option-cases,
}
use queue_benchmark.Platlib.Tables.{
  Row, Database, empty_database, clash, any_clash, NewRow, make_row, insert_row, insert_permit,
  set_permit, claim_row, Filter, delete_claimed, remove_permit, first_row, is_eligible,
}

-- Two rows have different ids, no common claim and no common address.
pub record Apart (r q : Row) : Type 0 where
  pub ids : r.id ≢ q.id
  pub claims : r.permit ≡ q.permit → r.permit ≡ 0
  pub addresses : clash r.address q.address ≡ false

-- Every id and permit in use was handed out by its sequence; no permit is 0; the rows are apart.
pub record IsSound (db : Database) : Type 0 where
  pub permits_start : 0 < db.next_permit
  pub rows_fresh : All (λ r. r.id < db.next_row) db.rows
  pub claims_fresh : All (λ r. r.permit < db.next_permit) db.rows
  pub permits_fresh : All (λ p. p < db.next_permit) db.permits
  pub apart : Pairs Apart db.rows

pub empty_database-IsSound : IsSound empty_database
unfolding empty_database
empty_database-IsSound = omega arith

-- A row that is inserted is apart from those that are there.
All-Apart_new :
    (id : ℕ) (new : NewRow) (rows : List Row)
    → any_clash new.address rows ≡ false
    → All (λ r. r.id < id) rows
    → All (λ r. Apart r (make_row id new)) rows
unfolding any_clash make_row
All-Apart_new id new [] h fresh = tt
All-Apart_new id new (r ∷ rs) h fresh = (
  record { ids = ground (arith, fresh.0); claims = λ e. e; addresses = ground arith },
  All-Apart_new id new rs (ground arith) fresh.1,
)

pub insert_row-IsSound : (new : NewRow) (db : Database) → IsSound db → IsSound (insert_row new db).1
unfolding insert_row
insert_row-IsSound new db v = elim (Bool-cases (any_clash new.address db.rows)) [
  | inl e ↦ rw e (record {
    permits_start = v.permits_start;
    rows_fresh = later;
    claims_fresh = v.claims_fresh;
    permits_fresh = v.permits_fresh;
    apart = v.apart;
  })
  | inr e ↦ rw e (record {
    permits_start = v.permits_start;
    rows_fresh = All-append _ db.rows _ later (unfold make_row in omega arith, tt);
    claims_fresh = All-append _ db.rows _ v.claims_fresh (unfold make_row in v.permits_start, tt);
    permits_fresh = v.permits_fresh;
    apart =
        Pairs-append_one Apart db.rows _ v.apart
          (All-Apart_new db.next_row new db.rows e v.rows_fresh);
  })
]
  where
    later : All (λ (r : Row). r.id < suc db.next_row) db.rows
    later =
        All-mono (λ (r : Row). r.id < db.next_row) (λ (r : Row). r.id < suc db.next_row) db.rows
          (λ r h. omega arith) v.rows_fresh

pub insert_permit-IsSound : (db : Database) → IsSound db → IsSound (insert_permit db).1
unfolding insert_permit
insert_permit-IsSound db v = record {
  permits_start = omega arith;
  rows_fresh = v.rows_fresh;
  claims_fresh =
      All-mono (λ (r : Row). r.permit < db.next_permit) (λ (r : Row). r.permit < suc db.next_permit)
        db.rows (λ r h. omega arith) v.claims_fresh;
  permits_fresh =
      All-append (λ p. p < suc db.next_permit) db.permits _
        (All-mono (λ p. p < db.next_permit) (λ p. p < suc db.next_permit) db.permits
          (λ p h. omega arith) v.permits_fresh)
        (omega arith, tt);
  apart = v.apart;
}

module _ (id permit : ℕ) where
  pub set_permit-fresh :
      (bound : ℕ) (rows : List Row)
      → permit < bound
      → All (λ r. r.permit < bound) rows
      → All (λ r. r.permit < bound) (map (set_permit id permit) rows)
  unfolding set_permit
  set_permit-fresh bound [] h a = tt
  set_permit-fresh bound (r ∷ rs) h a = (ground (arith, a.0), set_permit-fresh bound rs h a.1)

  pub set_permit-ids :
      (bound : ℕ) (rows : List Row)
      → All (λ r. r.id < bound) rows
      → All (λ r. r.id < bound) (map (set_permit id permit) rows)
  unfolding set_permit
  set_permit-ids bound [] a = tt
  set_permit-ids bound (r ∷ rs) a = (ground (arith, a.0), set_permit-ids bound rs a.1)

  -- A permit that no row has yet keeps two rows apart.
  set_permit-Apart :
      (r q : Row)
      → r.permit ≢ permit
      → q.permit ≢ permit
      → Apart r q
      → Apart (set_permit id permit r) (set_permit id permit q)
  unfolding set_permit
  set_permit-Apart r q hr hq a = ground (arith, a.ids, a.claims, a.addresses)

  set_permit-All-Apart :
      (r : Row) (rows : List Row)
      → r.permit ≢ permit
      → All (λ q. q.permit ≢ permit) rows
      → All (Apart r) rows
      → All (Apart (set_permit id permit r)) (map (set_permit id permit) rows)
  set_permit-All-Apart r [] hr h a = tt
  set_permit-All-Apart r (q ∷ qs) hr h a =
      (set_permit-Apart r q hr h.0 a.0, set_permit-All-Apart r qs hr h.1 a.1)

  pub set_permit-Pairs :
      (rows : List Row)
      → All (λ q. q.permit ≢ permit) rows
      → Pairs Apart rows
      → Pairs Apart (map (set_permit id permit) rows)
  set_permit-Pairs [] h a = tt
  set_permit-Pairs (r ∷ rs) h a =
      (set_permit-All-Apart r rs h.0 h.1 a.0, set_permit-Pairs rs h.1 a.1)

-- A claim under a permit that was handed out and that no row has.
abbrev pub IsUnused : ℕ → Database → Type 0
IsUnused permit db = (permit < db.next_permit) × All (λ r. r.permit ≢ permit) db.rows

pub claim_row-IsSound :
    (locked : ℕ → Bool) (permit : ℕ) (f : Filter) (db : Database)
    → IsUnused permit db
    → IsSound db
    → IsSound (claim_row locked permit f db).1
unfolding claim_row
claim_row-IsSound locked permit f db unused v =
    elim (Option-cases (first_row (λ r. is_eligible f r && not (locked r.id)) db.rows)) [
      | inl e ↦ rw (e, claim_row) v
      | inr (r, e) ↦
          rw (e, claim_row)
            (record {
              permits_start = v.permits_start;
              rows_fresh = set_permit-ids r.id permit db.next_row db.rows v.rows_fresh;
              claims_fresh =
                  set_permit-fresh r.id permit db.next_permit db.rows unused.0 v.claims_fresh;
              permits_fresh = v.permits_fresh;
              apart = set_permit-Pairs r.id permit db.rows unused.1 v.apart;
            })
    ]

-- The permit that `insert_permit` returns is unused behind it.
pub insert_permit-IsUnused :
    (db : Database) → IsSound db → IsUnused db.next_permit (insert_permit db).1
unfolding insert_permit
insert_permit-IsUnused db v = (
  omega arith,
  All-mono (λ (r : Row). r.permit < db.next_permit) (λ (r : Row). r.permit ≢ db.next_permit) db.rows
      (λ r h. omega arith) v.claims_fresh,
)

pub delete_claimed-IsSound :
    (permit : ℕ) (db : Database) → IsSound db → IsSound (delete_claimed permit db).1
unfolding delete_claimed
delete_claimed-IsSound permit db v = record {
  permits_start = v.permits_start;
  rows_fresh = All-select _ _ db.rows v.rows_fresh;
  claims_fresh = All-select _ _ db.rows v.claims_fresh;
  permits_fresh = v.permits_fresh;
  apart = Pairs-select Apart _ db.rows v.apart;
}

pub remove_permit-IsSound :
    (permit : ℕ) (db : Database) → IsSound db → IsSound (remove_permit permit db).1
unfolding remove_permit
remove_permit-IsSound permit db v = record {
  permits_start = v.permits_start;
  rows_fresh = v.rows_fresh;
  claims_fresh = v.claims_fresh;
  permits_fresh = All-select _ _ db.permits v.permits_fresh;
  apart = v.apart;
}
