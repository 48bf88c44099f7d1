-- ===== src/Common/CString.antt =====
-- Texts as C functions read them: printf's and redisCommand's %s stop at the first NUL byte.
use mathlib.Core.Path.{◌≡◌, refl, ap}
use mathlib.Core.Bool.{false}
use mathlib.Core.List.{[], ◌∷◌, ◌++◌}
use iot_distributed_gateway.Common.Tests.{if◌then◌else◌, ◌==◌}
use iot_distributed_gateway.Common.Equality.{Bytes}
use iot_distributed_gateway.Common.Lists.{All}

-- What %s reads of the std::string::c_str of a text.
abbrev pub c_str : Bytes → Bytes
c_str [] = []
c_str (x ∷ xs) = if x == 0 then [] else x ∷ c_str xs

abbrev pub HasNoNul : Bytes → Type 0
HasNoNul = All (λ x. (x == 0) ≡ false)

pub HasNoNul-append : (xs ys : Bytes) → HasNoNul xs → HasNoNul ys → HasNoNul (xs ++ ys)
HasNoNul-append [] ys h k = k
HasNoNul-append (x ∷ xs) ys h k = (h.0, HasNoNul-append xs ys h.1 k)

pub c_str_lem : (xs : Bytes) → HasNoNul xs → c_str xs ≡ xs
c_str_lem [] h = refl
c_str_lem (x ∷ xs) h = rw h.0 (ap (◌∷◌ x) (c_str_lem xs h.1))

-- A text without NUL bytes that stands in front is read whole.
pub c_str-append : (xs ys : Bytes) → HasNoNul xs → c_str (xs ++ ys) ≡ xs ++ c_str ys
c_str-append [] ys h = refl
c_str-append (x ∷ xs) ys h = rw h.0 (ap (◌∷◌ x) (c_str-append xs ys h.1))
