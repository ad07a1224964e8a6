-- ===== src/Platlib/Store/Delivery/Kept.antt =====
-- What holds of the tables and the log while several workers work, and that each change keeps it.
use mathlib.Core.List.{Memᴰ}
use mathlib.Core.Path.{subst}
use queue_benchmark.Prelude.{
  ℕ, suc, ◌<◌, ◌≡◌, sym, ap, ◌≢◌, inl, inr, List, [], ◌∷◌, map, arith, ◌==◌, All, All-at,
  All-append, All-select, All-mono, Pairs, Bool-cases,
}
use queue_benchmark.Platlib.Tables.{
  Row, Database, NewRow, insert_row, insert_permit, make_row, any_clash, set_permit, delete_claimed,
  remove_permit,
}
use queue_benchmark.Platlib.Tables.Invariant.{
  IsSound, insert_row-IsSound, insert_permit-IsSound, delete_claimed-IsSound, remove_permit-IsSound,
  set_permit-fresh, set_permit-ids, set_permit-Pairs,
}
use queue_benchmark.Platlib.Session.{Session, Note}
use queue_benchmark.Platlib.Store.{delete}
use queue_benchmark.Platlib.Store.Pop.{idle, claimed, next_permit_free, delete_quiet}

-- A row that nobody holds has an id that the log does not have.
abbrev pub Undelivered : List ℕ → Row → Type 0
Undelivered log r = r.permit ≡ 0 → All (λ id. r.id ≢ id) log

-- Every id of the log was given to a row, once, and the rows that nobody holds are not in it.
pub record IsDelivery (db : Database) (log : List ℕ) : Type 0 where
  pub sound : IsSound db
  pub once : Pairs (λ a b. a ≢ b) log
  pub given : All (λ id. id < db.next_row) log
  pub unheld : All (Undelivered log) db.rows

pub insert_row-IsDelivery :
    (new : NewRow) (db : Database) (log : List ℕ)
    → IsDelivery db log
    → IsDelivery (insert_row new db).1 log
unfolding insert_row make_row
insert_row-IsDelivery new db log d = record {
  sound = insert_row-IsSound new db d.sound;
  once = d.once;
  given = elim (Bool-cases (any_clash new.address db.rows)) [
    | inl e ↦ rw e later
    | inr e ↦ rw e later
  ];
  unheld = elim (Bool-cases (any_clash new.address db.rows)) [
    | inl e ↦ rw e d.unheld
    | inr e ↦ rw e (All-append (Undelivered log) db.rows _ d.unheld (fresh, tt))
  ];
}
  where
    later : All (λ id. id < suc db.next_row) log
    later =
        All-mono (λ id. id < db.next_row) (λ id. id < suc db.next_row) log (λ id h. omega arith)
          d.given

    fresh : Undelivered log (make_row db.next_row new)
    fresh e =
        All-mono (λ id. id < db.next_row) (λ id. db.next_row ≢ id) log (λ id h. omega arith) d.given

pub deleted-IsDelivery :
    (permit : ℕ) (sent : List Note) (db : Database) (log : List ℕ)
    → IsDelivery db log
    → IsDelivery (delete permit (idle [] db sent)).1.pool log
unfolding delete_claimed remove_permit
deleted-IsDelivery permit sent db log d =
    subst (λ (s : Session). IsDelivery s.pool log)
      (sym (ap (λ x. x.1) (delete_quiet permit db sent)))
      (record {
        sound =
            remove_permit-IsSound permit (delete_claimed permit db).1
              (delete_claimed-IsSound permit db d.sound);
        once = d.once;
        given = d.given;
        unheld = All-select (Undelivered log) _ db.rows d.unheld;
      })

module _ (db : Database) (r : Row) where
  claimed-IsSound : IsSound db → IsSound (claimed db r)
  unfolding insert_permit
  claimed-IsSound v =
      let v' = insert_permit-IsSound db v in
      record {
        permits_start = v'.permits_start;
        rows_fresh = set_permit-ids r.id db.next_permit db.next_row db.rows v.rows_fresh;
        claims_fresh =
            set_permit-fresh r.id db.next_permit (suc db.next_permit) db.rows (omega arith)
              v'.claims_fresh;
        permits_fresh = v'.permits_fresh;
        apart = set_permit-Pairs r.id db.next_permit db.rows (next_permit_free db v) v.apart;
      }

  -- Behind a claim, the rows that nobody holds are not the claimed one.
  set_permit-Undelivered :
      (permit : ℕ) (log : List ℕ) (rows : List Row)
      → permit ≢ 0
      → All (Undelivered log) rows
      → All (Undelivered (r.id ∷ log)) (map (set_permit r.id permit) rows)
  unfolding set_permit
  set_permit-Undelivered permit log [] h a = tt
  set_permit-Undelivered permit log (q ∷ qs) h a = (now, set_permit-Undelivered permit log qs h a.1)
    where
      now : Undelivered (r.id ∷ log) (set_permit r.id permit q)
      now = elim (Bool-cases (q.id == r.id)) [
        | inl e ↦ rw e (λ z. absurd (h z))
        | inr e ↦
            subst (Undelivered (r.id ∷ log)) {x = q} {y = set_permit r.id permit q}
              (ground (arith, e)) (λ z. (ground arith, a.0 z))
      ]

  pub claimed-IsDelivery :
      (log : List ℕ)
      → Memᴰ r db.rows
      → r.permit ≡ 0
      → IsDelivery db log
      → IsDelivery (claimed db r) (r.id ∷ log)
  claimed-IsDelivery log m e d = record {
    sound = claimed-IsSound d.sound;
    once = (All-at (Undelivered log) m d.unheld e, d.once);
    given = (All-at (λ q. q.id < db.next_row) m d.sound.rows_fresh, d.given);
    unheld =
        set_permit-Undelivered db.next_permit log db.rows
          (let start = d.sound.permits_start in omega arith) d.unheld;
  }

  -- Behind a claim under a new permit, the row that has the permit is the claimed one.
  pub set_permit-id :
      (rows : List Row)
      → All (λ q. q.permit ≢ db.next_permit) rows
      → All
          (λ q. q.permit ≡ db.next_permit → q.id ≡ r.id)
          (map (set_permit r.id db.next_permit) rows)
  unfolding set_permit
  set_permit-id [] h = tt
  set_permit-id (q ∷ qs) h = ((λ p. ground (arith, h.0, p)), set_permit-id qs h.1)

-- A claim that finds no row moves the sequence of the permits.
pub raced-IsDelivery :
    (db : Database) (log : List ℕ)
    → IsDelivery db log
    → IsDelivery (record db { next_permit = suc db.next_permit }) log
unfolding insert_permit
raced-IsDelivery db log d =
    let v = insert_permit-IsSound db d.sound in
    record {
      sound = record {
        permits_start = v.permits_start;
        rows_fresh = d.sound.rows_fresh;
        claims_fresh = v.claims_fresh;
        permits_fresh =
            All-mono (λ p. p < db.next_permit) (λ p. p < suc db.next_permit) db.permits
              (λ p h. omega arith) d.sound.permits_fresh;
        apart = d.sound.apart;
      };
      once = d.once;
      given = d.given;
      unheld = d.unheld;
    }
