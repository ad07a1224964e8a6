-- ===== src/Platlib/Tables.antt =====
-- The tables of internal/queue/platlib/schema.sql, and the SQL statements of store.go as functions
-- on them. A failed statement changes no row; a sequence never goes back. The columns created_at
-- and updated_at are left out: no statement reads them.
pub mod Invariant
pub mod Choice
pub mod Removal
use queue_benchmark.Prelude.{
  ℕ, suc, ◌+◌, ◌≡◌, Bool, true, false, not, ◌&&◌, ◌||◌, List, [], ◌∷◌, ◌++◌, map, Option, none,
  some, Text, text_eq, ℤ, ◌==◌, leb, if◌then◌else◌, select, count_if, bytes,
}
use queue_benchmark.Prelude.Int.{ltb_ℤ, leb_ℤ, eq_ℤ}
use queue_benchmark.Queue.{Result, ok, err, Error, driver, DriverError, pg_error, no_rows}

-- A row of `queue`. The permit 0 means that nobody has claimed it.
pub record Row : Type 0 where
  pub id : ℕ
  pub name : Text
  pub priority : ℤ
  pub permit : ℕ
  pub item : Text
  pub group_id : Option ℤ
  pub type : ℤ
  pub address : Option Text
  pub carrier : Option Text

-- The three tables, and the next value of each BIGSERIAL sequence.
pub record Database : Type 0 where
  pub rows : List Row
  pub permits : List ℕ
  pub failures : List (Text × Text)
  pub next_row : ℕ
  pub next_permit : ℕ

unfoldable pub empty_database : Database
empty_database = record { rows = []; permits = []; failures = []; next_row = 1; next_permit = 1 }

-- A statement answers, or fails, and leaves the tables that it leaves.
abbrev pub Statement : Type 0 → Type 0
Statement A = Database → Result A × Database

-- What an INSERT into `queue` gives; the other columns take their defaults.
pub record NewRow : Type 0 where
  pub name : Text
  pub priority : ℤ
  pub item : Text
  pub group_id : Option ℤ
  pub type : ℤ
  pub address : Option Text
  pub carrier : Option Text

-- UNIQUE: two addresses that are not NULL and equal.
unfoldable pub clash : Option Text → Option Text → Bool
clash (some a) (some b) = text_eq a b
clash (some a) none = false
clash none b = false

unfoldable pub any_clash : Option Text → List Row → Bool
any_clash address [] = false
any_clash address (r ∷ rs) = clash r.address address || any_clash address rs

-- The SQLSTATE of a unique violation.
abbrev pub unique_violation : Text
unique_violation = bytes "23505"

abbrev pub unique_violation_error : DriverError
unique_violation_error = pg_error unique_violation (bytes "duplicate key (SQLSTATE 23505)")

unfoldable pub make_row : ℕ → NewRow → Row
make_row id r = record {
  id = id;
  name = r.name;
  priority = r.priority;
  permit = 0;
  item = r.item;
  group_id = r.group_id;
  type = r.type;
  address = r.address;
  carrier = r.carrier;
}

-- INSERT INTO queue (name, priority, item, group_id, type, address, carrier) VALUES …
unfoldable pub insert_row : NewRow → Statement (Unit {0})
insert_row new db =
    if any_clash new.address db.rows
    then (err (driver unique_violation_error), record db { next_row = suc db.next_row })
    else (
      ok tt,
      record db { rows = db.rows ++ make_row db.next_row new ∷ []; next_row = suc db.next_row },
    )

unfoldable pub mem_ℤ : ℤ → List ℤ → Bool
mem_ℤ x [] = false
mem_ℤ x (y ∷ ys) = eq_ℤ x y || mem_ℤ x ys

-- WHERE name = $ AND priority <= $ AND permit = 0 AND type = ANY($)
pub record Filter : Type 0 where
  pub name : Text
  pub max_priority : ℤ
  pub types : List ℤ

unfoldable pub is_eligible : Filter → Row → Bool
is_eligible f r =
    text_eq r.name f.name
    && (leb_ℤ r.priority f.max_priority && (r.permit == 0 && mem_ℤ r.type f.types))

-- SELECT COUNT(*) FROM queue WHERE …
unfoldable pub count_eligible : Filter → Statement ℕ
count_eligible f db = (ok (count_if (is_eligible f) db.rows), db)

-- INSERT INTO queue_permits DEFAULT VALUES RETURNING id
unfoldable pub insert_permit : Statement ℕ
insert_permit db = (
  ok db.next_permit,
  record db { permits = db.permits ++ db.next_permit ∷ []; next_permit = suc db.next_permit },
)

-- ORDER BY priority ASC, id ASC
unfoldable pub comes_before : Row → Row → Bool
comes_before r q = ltb_ℤ r.priority q.priority || (eq_ℤ r.priority q.priority && leb r.id q.id)

unfoldable pub choose : Row → Option Row → Row
choose r none = r
choose r (some q) = if comes_before r q then r else q

-- The first row, in that order, among those that pass a test.
unfoldable pub first_row : (Row → Bool) → List Row → Option Row
first_row p [] = none
first_row p (r ∷ rs) = if p r then some (choose r (first_row p rs)) else first_row p rs

-- SET permit = $1 WHERE id = …
unfoldable pub set_permit : ℕ → ℕ → Row → Row
set_permit id permit r = if r.id == id then record r { permit = permit } else r

-- UPDATE queue SET permit = $1 WHERE id = (SELECT id … LIMIT 1 FOR UPDATE SKIP LOCKED) RETURNING …
-- `locked` tells the rows that other transactions hold.
unfoldable pub claim_row : (locked : ℕ → Bool) → ℕ → Filter → Statement Row
claim_row locked permit f db =
    elim (first_row (λ r. is_eligible f r && not (locked r.id)) db.rows) [
      | none ↦ (err no_rows, db)
      | some r ↦ (
        ok (record r { permit = permit }),
        record db { rows = map (set_permit r.id permit) db.rows },
      )
    ]

-- DELETE FROM queue WHERE permit = $1
unfoldable pub delete_claimed : ℕ → Statement (Unit {0})
delete_claimed permit db =
    (ok tt, record db { rows = select (λ r. not (r.permit == permit)) db.rows })

-- DELETE FROM queue_permits WHERE id = $1
unfoldable pub remove_permit : ℕ → Statement (Unit {0})
remove_permit permit db =
    (ok tt, record db { permits = select (λ p. not (p == permit)) db.permits })

-- SELECT … FROM queue WHERE permit = 0 AND type = ANY($1)
unfoldable pub is_waiting : List ℤ → Row → Bool
is_waiting types r = r.permit == 0 && mem_ℤ r.type types

unfoldable pub select_waiting : List ℤ → Statement (List Row)
select_waiting types db = (ok (select (is_waiting types) db.rows), db)

unfoldable pub has_address : Text → Row → Bool
has_address address r = clash r.address (some address)

-- SELECT COUNT(*) FROM queue WHERE address = $1
unfoldable pub count_address : Text → Statement ℕ
count_address address db = (ok (count_if (has_address address) db.rows), db)

unfoldable pub first_failure : Text → List (Text × Text) → Option Text
first_failure address [] = none
first_failure address ((a, e) ∷ rest) =
    if text_eq a address then some e else first_failure address rest

-- SELECT error FROM queue_failure WHERE address = $1 LIMIT 1
unfoldable pub select_failure : Text → Statement Text
select_failure address db =
    (elim (first_failure address db.failures) [ none ↦ err no_rows | some e ↦ ok e ], db)

-- DELETE FROM queue_failure WHERE address = $1
unfoldable pub clear_failure : Text → Statement (Unit {0})
clear_failure address db = (
  ok tt,
  record db { failures = select (λ (f : Text × Text). not (text_eq f.0 address)) db.failures },
)

-- INSERT INTO queue_failure (address, error) VALUES ($1, $2)
unfoldable pub insert_failure : Text → Text → Statement (Unit {0})
insert_failure address error db =
    (ok tt, record db { failures = db.failures ++ (address, error) ∷ [] })
