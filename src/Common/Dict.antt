-- ===== src/Common/Dict.antt =====
-- std::unordered_map as an association list. A new key goes to the end; the source leaves the order
-- of iteration open.
use Prim.Native.Nat.{◌≤◌}
use mathlib.Core.Path.{◌≡◌, refl}
use mathlib.Core.Bool.{Bool, true, false, ◌&&◌}
use mathlib.Core.Option.{Option, none, some}
use mathlib.Core.List.{List, [], ◌∷◌}
use native.Mathlib.Omega.{arith}
use iot_distributed_gateway.Common.Tests.{if◌then◌else◌}
use iot_distributed_gateway.Common.Lists.{length}
use iot_distributed_gateway.Common.Equality.{Eq, beq}

pub beq_refl {ℓ} : {K : Type ℓ} ⦃e : Eq K⦄ (k : K) → beq k k ≡ true
beq_refl ⦃e⦄ k = (e.test_iff k k).1 refl

abbrev is_missing {κ} : {V : Type κ} → Option V → Bool
is_missing none = true
is_missing (some v) = false

module _ {ℓ κ} {K : Type ℓ} {V : Type κ} ⦃e : Eq K⦄ where
  unfoldable pub lookup : K → List (K × V) → Option V
  lookup k [] = none
  lookup k ((j, v) ∷ m) = if beq j k then some v else lookup k m

  unfoldable pub insert : K → V → List (K × V) → List (K × V)
  insert k v [] = (k, v) ∷ []
  insert k v ((j, w) ∷ m) = if beq j k then (k, v) ∷ m else (j, w) ∷ insert k v m

  unfoldable pub erase : K → List (K × V) → List (K × V)
  erase k [] = []
  erase k ((j, w) ∷ m) = if beq j k then erase k m else (j, w) ∷ erase k m

  pub lookup-insert :
      (k j : K) (v : V) (m : List (K × V))
      → lookup j (insert k v m) ≡ (if beq k j then some v else lookup j m)
  unfolding lookup insert
  lookup-insert k j v [] = refl
  lookup-insert k j v ((i, w) ∷ m) =
      ground (arith, e.test_iff k j, e.test_iff i k, e.test_iff i j, lookup-insert k j v m)

  pub lookup-erase :
      (k j : K) (m : List (K × V)) → lookup j (erase k m) ≡ (if beq k j then none else lookup j m)
  unfolding lookup erase
  lookup-erase k j [] = ground arith
  lookup-erase k j ((i, w) ∷ m) =
      ground (arith, e.test_iff k j, e.test_iff i k, e.test_iff i j, lookup-erase k j m)

  pub length-erase : (k : K) (m : List (K × V)) → length (erase k m) ≤ length m
  unfolding erase
  length-erase k [] = omega arith
  length-erase k ((j, w) ∷ m) = ground (arith, length-erase k m)

  -- No key stands twice.
  unfoldable pub distinct : List (K × V) → Bool
  distinct [] = true
  distinct ((j, w) ∷ m) = is_missing (lookup j m) && distinct m

  pub distinct-insert :
      (k : K) (v : V) (m : List (K × V)) → distinct m ≡ true → distinct (insert k v m) ≡ true
  unfolding distinct insert lookup
  distinct-insert k v [] h = refl
  distinct-insert k v ((i, w) ∷ m) h =
      ground (arith, e.test_iff i k, e.test_iff k i, lookup-insert k i v m, distinct-insert k v m)

  pub distinct-erase : (k : K) (m : List (K × V)) → distinct m ≡ true → distinct (erase k m) ≡ true
  unfolding distinct erase
  distinct-erase k [] h = refl
  distinct-erase k ((i, w) ∷ m) h = ground (arith, lookup-erase k i m, distinct-erase k m)

  pub lookup-erase_same : (k : K) (m : List (K × V)) → lookup k (erase k m) ≡ none
  lookup-erase_same k m = ground (arith, e.test_iff k k, lookup-erase k k m)
