-- ===== src/Common/Text.antt =====
-- Text literals as bytes, and decimal printing.
use Prim.Native.Nat.{ℕ, zero, suc, ◌+◌, ◌/◌, ◌%◌}
use Prim.Native.Char.{code}
use Prim.Native.String.{String}
use mathlib.Core.List.{[], ◌∷◌}
use iot_distributed_gateway.Common.Tests.{if◌then◌else◌, ltb}
use iot_distributed_gateway.Common.Equality.{Bytes}

-- The bytes of an ASCII literal.
abbrev pub ascii : String → Bytes
ascii String.[] = []
ascii (String.◌∷◌ letter rest) = code letter ∷ ascii rest

unfoldable pub decimal_loop : ℕ → ℕ → Bytes → Bytes
decimal_loop zero n acc = acc
decimal_loop (suc f) n acc =
    let rest = decimal_loop f (n / 10) ((n % 10 + 48) ∷ acc) in
    if ltb n 10 then (n + 48) ∷ acc else rest

-- std::to_string of a number that is not negative; a number has fewer digits than its value plus one.
unfoldable pub to_string : ℕ → Bytes
unfolding decimal_loop
to_string n = decimal_loop (suc n) n []
