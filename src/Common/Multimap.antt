-- ===== src/Common/Multimap.antt =====
-- std::unordered_map<std::string, std::set<std::string>>; a key goes with the last member of its set.
use iot_distributed_gateway.Common.Tests.{if◌then◌else◌, Bool-cases}
use iot_distributed_gateway.Common.Equality.{Bytes, bytes_test, bytes_test_iff, bytes_eq}
use iot_distributed_gateway.Common.Dict.{lookup, lookup-insert, lookup-erase}
use iot_distributed_gateway.Common.StringSet.{
  contains, is_empty, contains-insert, contains-erase, contains_empty,
}
use iot_distributed_gateway.Common.Dict
use iot_distributed_gateway.Common.StringSet
use mathlib.Core.Path.{◌≡◌, refl, sym, ap, ◌∙◌}
use mathlib.Core.Logic.{inl, inr}
use mathlib.Core.Bool.{Bool, true, not, ◌&&◌, ◌||◌}
use mathlib.Core.Option.{Option, none, some}
use mathlib.Core.List.{List, []}

abbrev pub Multimap : Type 0
Multimap = List (Bytes × List Bytes)

abbrev or_empty : Option (List Bytes) → List Bytes
or_empty none = []
or_empty (some s) = s

-- The set of a key, empty for a missing one, as operator[] makes it.
abbrev pub members : Bytes → Multimap → List Bytes
members k m = or_empty (lookup k m)

abbrev pub has : Bytes → Bytes → Multimap → Bool
has k x m = contains x (members k m)

-- `m[k].insert(x)`
unfoldable pub put : Bytes → Bytes → Multimap → Multimap
put k x m = Dict.insert k (StringSet.insert x (members k m)) m

-- `m[k].erase(x)`, and the key goes with its last member.
unfoldable pub cut : Bytes → Bytes → Multimap → Multimap
cut k x m =
    let s = StringSet.erase x (members k m) in
    if is_empty s then Dict.erase k m else Dict.insert k s m

-- What a lookup finds says what the key has.
by_lookup :
    {o : Option (List Bytes)} (j y : Bytes) (m : Multimap)
    → lookup j m ≡ o
    → has j y m ≡ contains y (or_empty o)
by_lookup j y m e = ap (λ (o : Option (List Bytes)). contains y (or_empty o)) e

pub has-erase :
    (k j y : Bytes) (m : Multimap) → has j y (Dict.erase k m) ≡ (not (bytes_test k j) && has j y m)
unfolding contains
has-erase k j y m =
    by_lookup j y (Dict.erase k m) (lookup-erase k j m)
    ∙ (elim (Bool-cases (bytes_test k j)) [ inl e ↦ rw e refl | inr e ↦ rw e refl ])

has-insert :
    (k j y : Bytes) (s : List Bytes) (m : Multimap)
    → has j y (Dict.insert k s m) ≡ (if bytes_test k j then contains y s else has j y m)
has-insert k j y s m =
    by_lookup j y (Dict.insert k s m) (lookup-insert k j s m)
    ∙ (elim (Bool-cases (bytes_test k j)) [ inl e ↦ rw e refl | inr e ↦ rw e refl ])

same_key :
    (k j y : Bytes) (m : Multimap) → bytes_test k j ≡ true → contains y (members k m) ≡ has j y m
same_key k j y m e = ap (λ (t : Bytes). has t y m) ((bytes_test_iff k j).0 e)

pub has-put :
    (k x j y : Bytes) (m : Multimap)
    → has j y (put k x m) ≡ (bytes_test k j && bytes_test x y || has j y m)
unfolding put
has-put k x j y m =
    has-insert k j y (StringSet.insert x (members k m)) m ∙ (elim (Bool-cases (bytes_test k j)) [
      | inl e ↦ rw e (rw (sym (same_key k j y m e)) (contains-insert x y (members k m)))
      | inr e ↦ rw e refl
    ])

pub has-cut :
    (k x j y : Bytes) (m : Multimap)
    → has j y (cut k x m) ≡ (not (bytes_test k j && bytes_test x y) && has j y m)
unfolding cut
has-cut k x j y m = elim (Bool-cases (is_empty (StringSet.erase x (members k m)))) [
  | inl e ↦ rw e (
      has-erase k j y m ∙ (elim (Bool-cases (bytes_test k j)) [
        | inl f ↦ rw f (
            rw (sym (same_key k j y m f)) (
              sym (contains_empty y (StringSet.erase x (members k m)) e)
              ∙ contains-erase x y (members k m)))
        | inr f ↦ rw f refl
      ]))
  | inr e ↦ rw e (
      has-insert k j y (StringSet.erase x (members k m)) m ∙ (elim (Bool-cases (bytes_test k j)) [
        | inl f ↦ rw f (rw (sym (same_key k j y m f)) (contains-erase x y (members k m)))
        | inr f ↦ rw f refl
      ]))
]
