-- ===== src/Common/StringSet.antt =====
-- std::set<std::string>: a list in lexicographic order without repetition.
use mathlib.Core.Path.{◌≡◌, refl}
use mathlib.Core.Bool.{Bool, true, false, ◌&&◌, ◌||◌, not}
use mathlib.Core.List.{List, [], ◌∷◌}
use native.Mathlib.Omega.{arith}
use iot_distributed_gateway.Common.Tests.{if◌then◌else◌, ltb, ◌==◌}
use iot_distributed_gateway.Common.Equality.{Bytes, bytes_test, bytes_test_iff}

unfoldable pub less : Bytes → Bytes → Bool
less [] [] = false
less [] (y ∷ ys) = true
less (x ∷ xs) [] = false
less (x ∷ xs) (y ∷ ys) = ltb x y || (x == y && less xs ys)

unfoldable pub contains : Bytes → List Bytes → Bool
contains a [] = false
contains a (x ∷ xs) = bytes_test x a || contains a xs

unfoldable pub insert : Bytes → List Bytes → List Bytes
insert a [] = a ∷ []
insert a (x ∷ xs) =
    if bytes_test x a then x ∷ xs else if less a x then a ∷ x ∷ xs else x ∷ insert a xs

unfoldable pub erase : Bytes → List Bytes → List Bytes
erase a [] = []
erase a (x ∷ xs) = if bytes_test x a then erase a xs else x ∷ erase a xs

unfoldable pub is_empty : List Bytes → Bool
is_empty [] = true
is_empty (x ∷ xs) = false

pub contains-insert :
    (a b : Bytes) (xs : List Bytes) → contains b (insert a xs) ≡ (bytes_test a b || contains b xs)
unfolding contains insert
contains-insert a b [] = refl
contains-insert a b (x ∷ xs) =
    ground
      (arith, bytes_test_iff x a, bytes_test_iff x b, bytes_test_iff a b, contains-insert a b xs)

pub contains-erase :
    (a b : Bytes) (xs : List Bytes)
    → contains b (erase a xs) ≡ (not (bytes_test a b) && contains b xs)
unfolding contains erase
contains-erase a b [] = ground arith
contains-erase a b (x ∷ xs) =
    ground
      (arith, bytes_test_iff x a, bytes_test_iff x b, bytes_test_iff a b, contains-erase a b xs)

pub contains_empty : (a : Bytes) (xs : List Bytes) → is_empty xs ≡ true → contains a xs ≡ false
unfolding contains is_empty
contains_empty a [] h = refl
contains_empty a (x ∷ xs) h = cc
