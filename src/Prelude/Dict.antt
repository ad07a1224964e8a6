-- ===== src/Prelude/Dict.antt =====
-- Go maps with string keys, as association lists. `put` changes the entry of a key in its place, or
-- appends one, so that a key has one entry. What `range` takes first is the order of the list.
use mathlib.Core.Path.{◌≡◌, refl}
use mathlib.Core.List.{List, [], ◌∷◌}
use mathlib.Core.Option.{Option, none, some}
use native.Mathlib.Omega.{arith}
use queue_benchmark.Prelude.Tests.{if◌then◌else◌}
use queue_benchmark.Prelude.Bytes.{Text, text_eq, text_eq_iff}

abbrev pub Dict {ℓ} : Type ℓ → Type ℓ
Dict V = List (Text × V)

module _ {ℓ} {V : Type ℓ} where
  -- m[key], with the comma-ok
  unfoldable pub lookup : Text → Dict V → Option V
  lookup key [] = none
  lookup key ((k, v) ∷ rest) = if text_eq k key then some v else lookup key rest

  -- m[key] = v
  unfoldable pub put : Text → V → Dict V → Dict V
  put key v [] = (key, v) ∷ []
  put key v ((k, w) ∷ rest) =
      let later = put key v rest in if text_eq k key then (k, v) ∷ rest else (k, w) ∷ later

  -- m[key], where a missing key gives a zero value
  abbrev pub get_or_zero : V → Option V → V
  get_or_zero zero none = zero
  get_or_zero zero (some v) = v

  pub lookup-put :
      (key other : Text) (v : V) (d : Dict V)
      → lookup other (put key v d) ≡ (if text_eq key other then some v else lookup other d)
  unfolding lookup put
  lookup-put key other v [] = refl
  lookup-put key other v ((k, w) ∷ rest) = ground (
    arith,
    lookup-put key other v rest,
    text_eq_iff k key,
    text_eq_iff k other,
    text_eq_iff key other,
  )
