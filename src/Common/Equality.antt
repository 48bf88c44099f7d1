-- ===== src/Common/Equality.antt =====
-- Equality tests as an interface, with instances for numbers and byte strings.
use Prim.Native.Nat.{ℕ}
use mathlib.Core.Path.{◌≡◌}
use mathlib.Core.Logic.{◌↔◌}
use mathlib.Core.Bool.{Bool, true, false, ◌&&◌}
use mathlib.Core.List.{List, [], ◌∷◌}
use native.Mathlib.Omega.{arith}
use iot_distributed_gateway.Common.Tests.{◌==◌, ==_iff}

pub record Eq {ℓ} (A : Type ℓ) : Type ℓ where
  pub test : A → A → Bool
  pub test_iff : (a b : A) → (test a b ≡ true) ↔ (a ≡ b)

-- The test of the instance in scope.
abbrev pub beq {ℓ} : {A : Type ℓ} ⦃e : Eq A⦄ → A → A → Bool
beq ⦃e⦄ = e.test

-- A std::string is the list of its bytes.
abbrev pub Bytes : Type 0
Bytes = List ℕ

abbrev nat_test : ℕ → ℕ → Bool
nat_test a b = a == b

abbrev pub bytes_test : Bytes → Bytes → Bool
bytes_test [] [] = true
bytes_test [] (y ∷ ys) = false
bytes_test (x ∷ xs) [] = false
bytes_test (x ∷ xs) (y ∷ ys) = x == y && bytes_test xs ys

pub bytes_test_iff : (a b : Bytes) → (bytes_test a b ≡ true) ↔ (a ≡ b)
bytes_test_iff [] [] = ground arith
bytes_test_iff [] (y ∷ ys) = ground arith
bytes_test_iff (x ∷ xs) [] = ground arith
bytes_test_iff (x ∷ xs) (y ∷ ys) = ground (arith, bytes_test_iff xs ys)

instance abbrev pub nat_eq : Eq ℕ
nat_eq = record { test = nat_test; test_iff = ==_iff }

instance abbrev pub bytes_eq : Eq Bytes
bytes_eq = record { test = bytes_test; test_iff = bytes_test_iff }
