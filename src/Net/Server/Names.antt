-- ===== src/Net/Server/Names.antt =====
-- src/net/TcpServer.cpp: the names of connections differ.
use iot_distributed_gateway.Common.{
  ℕ, zero, suc, ◌+◌, ◌/◌, ◌%◌, ◌^◌, ◌≤◌, ◌<◌, ◌≡◌, refl, sym, ap, ◌∙◌, Bytes, [], ◌∷◌, ◌++◌, true,
  ltb, length, length-append, take_all, drop-append, drop, some, Bool-cases, inl, inr, arith,
}
use iot_distributed_gateway.Common.Text.{decimal_loop, to_string}
use iot_distributed_gateway.Common.Decimal.{
  int32_half, signed_string, parse_signed, parse_signed-signed_string, signed_string_small,
}
use iot_distributed_gateway.Net.Server.{connection_name}

-- A number below a power of ten has at most as many digits.
length-decimal_loop :
    (f k n : ℕ) (acc : Bytes) → n < 10 ^ suc k → length (decimal_loop f n acc) ≤ suc k + length acc
unfolding decimal_loop
length-decimal_loop zero k n acc h = omega arith
length-decimal_loop (suc f) zero n acc h =
    let small : ltb n 10 ≡ true = ground arith in rw small (omega arith)
length-decimal_loop (suc f) (suc k) n acc h = elim (Bool-cases (ltb n 10)) [
  | inl small ↦ rw small (omega arith)
  | inr large ↦
      let less : n / 10 < 10 ^ suc k = omega arith in
      rw large (omega (arith, length-decimal_loop f k (n / 10) ((n % 10 + 48) ∷ acc) less))
]

length-connection_name :
    (ip : Bytes) (id : ℕ)
    → length ip ≤ 52
    → id < int32_half
    → connection_name ip id ≡ ip ++ (35 ∷ signed_string int32_half id)
unfolding connection_name to_string
length-connection_name ip id h small =
    let digits : length (to_string id) ≤ 10 =
      omega (arith, length-decimal_loop (suc id) 9 id [] (omega arith)) in
    rw (signed_string_small int32_half id small) (
      take_all 63 (ip ++ (35 ∷ to_string id)) (omega (arith, length-append ip (35 ∷ to_string id))))

some-inj : {A : Type 0} {a b : A} → some a ≡ some b → a ≡ b
some-inj e = ground arith

-- The name of a connection tells its number.
pub connection_name-inj :
    (ip : Bytes) (i j : ℕ)
    → length ip ≤ 52
    → i < int32_half
    → j < int32_half
    → connection_name ip i ≡ connection_name ip j
    → i ≡ j
connection_name-inj ip i j h a b e =
    let whole : (ip ++ (35 ∷ signed_string int32_half i))
        ≡ ip ++ (35 ∷ signed_string int32_half j) =
      sym (length-connection_name ip i h a) ∙ e ∙ length-connection_name ip j h b in
    let tails : 35 ∷ signed_string int32_half i ≡ 35 ∷ signed_string int32_half j =
      sym (drop-append (length ip) ip (35 ∷ signed_string int32_half i) refl)
      ∙ ap (drop (length ip)) whole
      ∙ drop-append (length ip) ip (35 ∷ signed_string int32_half j) refl in
    let texts : signed_string int32_half i ≡ signed_string int32_half j = ap (drop 1) tails in
    some-inj (
      sym (parse_signed-signed_string int32_half i (omega arith))
      ∙ ap (parse_signed int32_half) texts
      ∙ parse_signed-signed_string int32_half j (omega arith))
