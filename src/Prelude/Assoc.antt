-- ===== src/Prelude/Assoc.antt =====
-- Go's maps with string keys, as association lists that hold each key once. The order of the
-- entries stands for the order of a `range`, which Go leaves open.
use mathlib.Core.Path.{◌≡◌, refl}
use mathlib.Core.List.{List, [], ◌∷◌}
use mathlib.Core.Option.{Option, none, some}
use native.Mathlib.Omega.{arith}
use sshserv.Prelude.Tests.{if◌then◌else◌}
use sshserv.Prelude.Text.{Text, text_eq, text_eq_iff}

module _ {V : Type 0} where
  unfoldable pub lookup : Text → List (Text × V) → Option V
  lookup k [] = none
  lookup k ((j, v) ∷ m) = if text_eq j k then some v else lookup k m

  -- `m[k] = v`
  unfoldable pub insert : Text → V → List (Text × V) → List (Text × V)
  insert k v [] = (k, v) ∷ []
  insert k v ((j, w) ∷ m) = if text_eq j k then (k, v) ∷ m else (j, w) ∷ insert k v m

  -- `delete(m, k)`
  unfoldable pub erase : Text → List (Text × V) → List (Text × V)
  erase k [] = []
  erase k ((j, w) ∷ m) = if text_eq j k then m else (j, w) ∷ erase k m

  -- No key is listed twice.
  abbrev pub HasUniqueKeys : List (Text × V) → Type 0
  HasUniqueKeys [] = Unit
  HasUniqueKeys ((k, v) ∷ m) = (lookup k m ≡ none) × HasUniqueKeys m

  pub lookup-insert :
      (k j : Text) (v : V) (m : List (Text × V))
      → lookup j (insert k v m) ≡ (if text_eq k j then some v else lookup j m)
  unfolding lookup insert
  lookup-insert k j v [] = refl
  lookup-insert k j v ((i, old) ∷ rest) =
      ground (arith, text_eq_iff k j, text_eq_iff i k, text_eq_iff i j, lookup-insert k j v rest)

  pub lookup-erase :
      (k j : Text) (m : List (Text × V))
      → HasUniqueKeys m
      → lookup j (erase k m) ≡ (if text_eq k j then none else lookup j m)
  unfolding lookup erase
  lookup-erase k j [] h = ground arith
  lookup-erase k j ((i, w) ∷ m) (fresh, h) =
      ground (arith, fresh, text_eq_iff k j, text_eq_iff i k, text_eq_iff i j, lookup-erase k j m h)

  pub insert-HasUniqueKeys :
      (k : Text) (v : V) (m : List (Text × V)) → HasUniqueKeys m → HasUniqueKeys (insert k v m)
  unfolding lookup insert
  insert-HasUniqueKeys k v [] h = (refl, tt)
  insert-HasUniqueKeys k v ((i, w) ∷ m) (fresh, h) = ground (
    arith,
    fresh,
    text_eq_iff i k,
    text_eq_iff k i,
    lookup-insert k i v m,
    insert-HasUniqueKeys k v m h,
  )

  pub erase-HasUniqueKeys :
      (k : Text) (m : List (Text × V)) → HasUniqueKeys m → HasUniqueKeys (erase k m)
  unfolding lookup erase
  erase-HasUniqueKeys k [] h = tt
  erase-HasUniqueKeys k ((i, w) ∷ m) (fresh, h) = ground (
    arith,
    fresh,
    h,
    text_eq_iff i k,
    text_eq_iff k i,
    lookup-erase k i m h,
    erase-HasUniqueKeys k m h,
  )
