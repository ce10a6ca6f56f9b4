-- ===== src/Common/Assoc.antt =====
-- A Go map with string keys as an association list, each key at most once.
use Prim.Native.Nat.{suc, ◌≤◌}
use mathlib.Core.Path.{◌≡◌, refl}
use mathlib.Core.Bool.{Bool, false, ◌||◌}
use mathlib.Core.Option.{Option, none, some}
use mathlib.Core.List.{List, [], ◌∷◌}
use native.Mathlib.Omega.{arith}
use subconverter_ng.Common.Tests.{if◌then◌else◌}
use subconverter_ng.Common.Lists.{length, keep_if}
use subconverter_ng.Common.Texts.{Text, same, same_iff, has, Distinct}

module _ {ℓ} {V : Type ℓ} where
  unfoldable pub lookup : Text → List (Text × V) → Option V
  unfolding same
  lookup k [] = none
  lookup k ((j, v) ∷ m) = if same j k then some v else lookup k m

  -- `m[k] = v`.
  unfoldable pub insert : Text → V → List (Text × V) → List (Text × V)
  insert k v [] = (k, v) ∷ []
  insert k v ((j, w) ∷ m) = if same j k then (k, v) ∷ m else (j, w) ∷ insert k v m

  -- `delete(m, k)`.
  unfoldable pub delete : Text → List (Text × V) → List (Text × V)
  delete k [] = []
  delete k ((j, w) ∷ m) = if same j k then m else (j, w) ∷ delete k m

  unfoldable pub keys : List (Text × V) → List Text
  keys [] = []
  keys ((j, v) ∷ m) = j ∷ keys m

  pub lookup-insert :
      (k j : Text) (v : V) (m : List (Text × V))
      → lookup j (insert k v m) ≡ (if same k j then some v else lookup j m)
  unfolding lookup insert
  lookup-insert k j v [] = refl
  lookup-insert k j v ((i, w) ∷ m) =
      ground (arith, same_iff k j, same_iff i k, same_iff i j, lookup-insert k j v m)

  pub has-keys-insert :
      (k j : Text) (v : V) (m : List (Text × V))
      → has (keys (insert k v m)) j ≡ (same k j || has (keys m) j)
  unfolding insert keys has
  has-keys-insert k j v [] = refl
  has-keys-insert k j v ((i, w) ∷ m) =
      ground (arith, same_iff k j, same_iff i k, same_iff i j, has-keys-insert k j v m)

  pub insert-Distinct :
      (k : Text) (v : V) (m : List (Text × V)) → Distinct (keys m) → Distinct (keys (insert k v m))
  unfolding insert keys has
  insert-Distinct k v [] d = ground arith
  insert-Distinct k v ((i, w) ∷ m) d =
      ground (arith, same_iff i k, same_iff k i, has-keys-insert k i v m, insert-Distinct k v m)

  pub has-lookup : (k : Text) (m : List (Text × V)) → lookup k m ≡ none → has (keys m) k ≡ false
  unfolding lookup keys has
  has-lookup k [] h = refl
  has-lookup k ((i, w) ∷ m) h = ground (arith, has-lookup k m)

  pub lookup-has : (k : Text) (m : List (Text × V)) → has (keys m) k ≡ false → lookup k m ≡ none
  unfolding lookup keys has
  lookup-has k [] h = refl
  lookup-has k ((i, w) ∷ m) h = ground (arith, lookup-has k m)

  pub length-insert_new :
      (k : Text) (v : V) (m : List (Text × V))
      → lookup k m ≡ none
      → length (insert k v m) ≡ suc (length m)
  unfolding insert lookup
  length-insert_new k v [] h = refl
  length-insert_new k v ((i, w) ∷ m) h = ground (arith, length-insert_new k v m)

  pub length-insert_old :
      (k : Text) (v w : V) (m : List (Text × V))
      → lookup k m ≡ some w
      → length (insert k v m) ≡ length m
  unfolding insert lookup
  length-insert_old k v w [] h = ground arith
  length-insert_old k v w ((i, u) ∷ m) h = ground (arith, length-insert_old k v w m)

  pub length-delete :
      (k : Text) (w : V) (m : List (Text × V))
      → lookup k m ≡ some w
      → suc (length (delete k m)) ≡ length m
  unfolding delete lookup
  length-delete k w [] h = ground arith
  length-delete k w ((i, u) ∷ m) h = ground (arith, length-delete k w m)

  pub length-delete-le : (k : Text) (m : List (Text × V)) → length (delete k m) ≤ length m
  unfolding delete
  length-delete-le k [] = omega arith
  length-delete-le k ((i, u) ∷ m) = ground (arith, length-delete-le k m)

  pub lookup-delete_ne :
      (k j : Text) (m : List (Text × V)) → same k j ≡ false → lookup j (delete k m) ≡ lookup j m
  unfolding delete lookup
  lookup-delete_ne k j [] h = refl
  lookup-delete_ne k j ((i, w) ∷ m) h =
      ground (arith, same_iff k j, same_iff i k, same_iff i j, lookup-delete_ne k j m)

  pub has-keys-delete :
      (k j : Text) (m : List (Text × V))
      → has (keys m) j ≡ false
      → has (keys (delete k m)) j ≡ false
  unfolding delete keys has
  has-keys-delete k j [] h = refl
  has-keys-delete k j ((i, w) ∷ m) h = ground (arith, has-keys-delete k j m)

  pub delete-Distinct :
      (k : Text) (m : List (Text × V)) → Distinct (keys m) → Distinct (keys (delete k m))
  unfolding delete keys
  delete-Distinct k [] d = tt
  delete-Distinct k ((i, w) ∷ m) d = ground (arith, has-keys-delete k i m, delete-Distinct k m)

  pub lookup-delete_self :
      (k : Text) (m : List (Text × V)) → Distinct (keys m) → lookup k (delete k m) ≡ none
  unfolding delete keys lookup
  lookup-delete_self k [] d = refl
  lookup-delete_self k ((i, w) ∷ m) d =
      ground (arith, same_iff i k, lookup-has k m, lookup-delete_self k m)

  pub has-keys-keep_if :
      (p : Text × V → Bool) (j : Text) (m : List (Text × V))
      → has (keys m) j ≡ false
      → has (keys (keep_if p m)) j ≡ false
  unfolding keys has
  has-keys-keep_if p j [] h = refl
  has-keys-keep_if p j ((i, w) ∷ m) h = ground (arith, has-keys-keep_if p j m)

  pub keep_if-Distinct :
      (p : Text × V → Bool) (m : List (Text × V))
      → Distinct (keys m)
      → Distinct (keys (keep_if p m))
  unfolding keys
  keep_if-Distinct p [] d = tt
  keep_if-Distinct p ((i, w) ∷ m) d = ground (arith, has-keys-keep_if p i m, keep_if-Distinct p m)

  -- With distinct keys, a key is found after a filter exactly when its entry passes.
  pub lookup-keep_if :
      (p : Text × V → Bool) (k : Text) (m : List (Text × V))
      → Distinct (keys m)
      → lookup k (keep_if p m)
        ≡ elim (lookup k m) [ none ↦ none | some v ↦ if p (k, v) then some v else none ]
  unfolding keys lookup
  lookup-keep_if p k [] d = refl
  lookup-keep_if p k ((i, w) ∷ m) d = ground (
    arith,
    same_iff i k,
    lookup-has k m,
    lookup-keep_if p k m,
    lookup-has k (keep_if p m),
    has-keys-keep_if p k m,
  )
