-- ===== src/Examples/Delivery.antt =====
-- Two workers that have counted the same two rows, and claim one after the other.
use mathlib.Core.List.{Memᴰ}
use queue_benchmark.Prelude.{ℕ, ◌≡◌, refl, ◌≢◌, false, [], ◌∷◌, some, Pairs, pos, text_eq, Bool}
use queue_benchmark.Prelude.Int.{to_int64}
use queue_benchmark.Platlib.Tables.{
  Row, Database, is_eligible, first_row, choose, comes_before, mem_ℤ, set_permit,
}
use queue_benchmark.Platlib.Store.{to_work, pop_filter}
use queue_benchmark.Platlib.Store.Pop.{idle, may_take, claimed, alone, pop_found}
use queue_benchmark.Platlib.Store.Delivery.{Delivered, stale}
use queue_benchmark.Platlib.Store.Delivery.Once.{delivered_once}
use queue_benchmark.Examples.Store.{row, two_rows, two_rows-IsSound, names, waiting, first_of_two}

abbrev second : Row
second = row 2 (pos 5)

-- The tables behind the first claim.
abbrev half : Database
half = claimed two_rows second

abbrev held : Row
held = record second { permit = 4 }

abbrev all : Database
all = claimed half (row 1 (pos 9))

abbrev free : ℕ → Bool
free id = false

half_row : Memᴰ held half.rows
unfolding set_permit
half_row = Memᴰ.tail (Memᴰ.head refl)

first_of_half :
    first_row (may_take alone (pop_filter names 10 (7 ∷ []))) half.rows ≡ some (row 1 (pos 9))
unfolding first_row is_eligible pop_filter choose comes_before text_eq to_int64 mem_ℤ set_permit
first_of_half = refl

all_row : Memᴰ (record (row 1 (pos 9)) { permit = 5 }) all.rows
unfolding set_permit
all_row = Memᴰ.head refl

-- The first claim, and the second claim.
both : Delivered two_rows all (1 ∷ 2 ∷ [])
unfolding to_work
both =
    Delivered.handed_out free names 10 (7 ∷ []) two_rows [] (to_work 5 (row 1 (pos 9)))
      (idle [] all []) (record (row 1 (pos 9)) { permit = 5 })
      (Delivered.handed_out free names 10 (7 ∷ []) two_rows [] (to_work 4 second) (idle [] half [])
        held Delivered.nothing refl waiting
        (pop_found (stale free two_rows) names 10 (7 ∷ []) two_rows [] second refl waiting
          first_of_two)
        half_row refl)
      refl waiting
      (pop_found (stale free half) names 10 (7 ∷ []) two_rows [] (row 1 (pos 9)) refl waiting
        first_of_half)
      all_row refl

delivered_once_example : Pairs {A = ℕ} (λ a b. a ≢ b) (1 ∷ 2 ∷ [])
delivered_once_example = delivered_once two_rows all (1 ∷ 2 ∷ []) two_rows-IsSound both
