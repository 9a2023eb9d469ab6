-- ===== src/Prelude/Dict.antt =====
-- Go's maps with string keys, as association lists without repeated keys. The order of the entries
-- stands for the order in which a `range` loop meets them; no theorem depends on which it is.
use mathlib.Core.Path.{◌≡◌, refl}
use mathlib.Core.List.{List, [], ◌∷◌}
use mathlib.Core.Option.{Option, none, some}
use native.Mathlib.Omega.{arith}
use drakkar.Prelude.Tests.{if◌then◌else◌}
use drakkar.Prelude.Bytes.{Bytes, bytes_eq, bytes_eq_iff}

module _ {ℓ} {V : Type ℓ} where
  -- m[k]
  unfoldable pub lookup : Bytes → List (Bytes × V) → Option V
  lookup k [] = none
  lookup k ((j, v) ∷ m) = if bytes_eq j k then some v else lookup k m

  -- m[k] = v
  unfoldable pub insert : Bytes → V → List (Bytes × V) → List (Bytes × V)
  insert k v [] = (k, v) ∷ []
  insert k v ((j, w) ∷ m) = if bytes_eq j k then (k, v) ∷ m else (j, w) ∷ insert k v m

  -- delete(m, k)
  unfoldable pub remove : Bytes → List (Bytes × V) → List (Bytes × V)
  remove k [] = []
  remove k ((j, w) ∷ m) = let rest = remove k m in if bytes_eq j k then rest else (j, w) ∷ rest

  pub lookup-insert :
      (k j : Bytes) (v : V) (m : List (Bytes × V))
      → lookup j (insert k v m) ≡ (if bytes_eq k j then some v else lookup j m)
  unfolding lookup insert
  lookup-insert k j v [] = refl
  lookup-insert k j v ((i, w) ∷ m) =
      ground (arith, bytes_eq_iff k j, bytes_eq_iff i k, bytes_eq_iff i j, lookup-insert k j v m)

  pub lookup-remove :
      (k j : Bytes) (m : List (Bytes × V))
      → lookup j (remove k m) ≡ (if bytes_eq k j then none else lookup j m)
  unfolding lookup remove
  lookup-remove k j [] = ground arith
  lookup-remove k j ((i, w) ∷ m) =
      ground (arith, bytes_eq_iff k j, bytes_eq_iff i k, bytes_eq_iff i j, lookup-remove k j m)
