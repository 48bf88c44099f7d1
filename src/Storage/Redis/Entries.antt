-- ===== src/Storage/Redis/Entries.antt =====
-- src/storage/RedisClient.cpp: the registry entries that registerDevice writes and updateDeviceHeartbeat
-- rewrites.
use iot_distributed_gateway.Common.{
  ℕ, ◌/◌, ◌<◌, ◌==◌, ◌||◌, ◌≡◌, refl, ap, Bytes, [], ◌∷◌, ◌++◌, true, false, none, some, All, arith,
  Bool-cases, inl, inr, append_assoc,
}
use Prim.{tt}
use iot_distributed_gateway.Common.Text.{ascii, to_string}
use iot_distributed_gateway.Common.CString.{c_str, HasNoNul, c_str-append}
use iot_distributed_gateway.Common.Decimal.{
  is_digit, to_string-digits, signed_string_small, int64_half,
}
use iot_distributed_gateway.Gateway.Cluster.{strip, device_json}
use iot_distributed_gateway.Gateway.Cluster.Registry.{IsPlain}
use iot_distributed_gateway.Storage.Redis.{lld}
use iot_distributed_gateway.Storage.Redis.Registry.{split_at, number_end, renew_heartbeat}

-- A key that ends in a quotation mark and a colon does not stand where a quoted text and a comma do.
strip-plain :
    (key text more rest : Bytes)
    → IsPlain key
    → IsPlain text
    → strip (key ++ (34 ∷ 58 ∷ more)) (text ++ (34 ∷ 44 ∷ rest)) ≡ none
unfolding strip
strip-plain [] [] more rest k t = refl
strip-plain [] (y ∷ ys) more rest k t = let e : (34 == y) ≡ false = ground arith in rw e refl
strip-plain (x ∷ xs) [] more rest k t = rw k.0 refl
strip-plain (x ∷ xs) (y ∷ ys) more rest k t = elim (Bool-cases (x == y)) [
  | inl same ↦ rw same (strip-plain xs ys more rest k.1 t.1)
  | inr other ↦ rw other refl
]

split_at-plain :
    (key text rest front back : Bytes)
    → IsPlain text
    → split_at (34 ∷ key) rest ≡ some (front, back)
    → split_at (34 ∷ key) (text ++ rest) ≡ some (text ++ front, back)
unfolding split_at strip
split_at-plain key [] rest front back t e = e
split_at-plain key (x ∷ xs) rest front back t e =
    let other : (34 == x) ≡ false = ground arith in
    rw other (rw (split_at-plain key xs rest front back t.1 e) refl)

number_end-digits :
    (ds rest : Bytes)
    → All (λ c. is_digit c ≡ true) ds
    → number_end (ds ++ (44 ∷ rest)) ≡ some (44 ∷ rest)
unfolding number_end
number_end-digits [] rest d = refl
number_end-digits (x ∷ xs) rest d =
    let e : (x == 44 || x == 125) ≡ false = ground arith in rw e (number_end-digits xs rest d.1)

-- What stands behind the node in an entry: the heartbeat's field, and the rest of it.
abbrev behind_heartbeat : ℕ → ℕ → Bytes
behind_heartbeat now keep_alive =
    to_string (now / 1000000) ++ (ascii ",\"keepalive\":" ++ (to_string keep_alive ++ ascii "}"))

split_at-device_json :
    (node : Bytes) (now keep_alive : ℕ)
    → IsPlain node
    → split_at (ascii "\"heartbeat\":") (device_json node now keep_alive)
      ≡ some (ascii "{\"gateway\":\"" ++ (node ++ ascii "\","), behind_heartbeat now keep_alive)
unfolding device_json split_at strip
split_at-device_json node now keep_alive p =
    rw
      (strip-plain (ascii "heartbeat") node []
        (ascii "\"heartbeat\":" ++ behind_heartbeat now keep_alive)
        (refl, (refl, (refl, (refl, (refl, (refl, (refl, (refl, (refl, tt))))))))) p)
      (rw
        (split_at-plain (ascii "heartbeat\":") node
          (ascii "\",\"heartbeat\":" ++ behind_heartbeat now keep_alive) (ascii "\",")
          (behind_heartbeat now keep_alive) p refl)
        refl)

-- Renewing the heartbeat of an entry gives the entry that the device would be registered with then.
pub renew_heartbeat-device_json :
    (node : Bytes) (before now keep_alive : ℕ)
    → IsPlain node
    → now < int64_half
    → renew_heartbeat (lld (now / 1000000)) (device_json node before keep_alive)
      ≡ some (device_json node now keep_alive)
unfolding renew_heartbeat device_json
renew_heartbeat-device_json node before now keep_alive p h =
    let e : lld (now / 1000000) ≡ to_string (now / 1000000) =
      signed_string_small int64_half (now / 1000000) (omega arith) in
    rw e (
      rw (split_at-device_json node before keep_alive p) (
        rw
          (number_end-digits (to_string (before / 1000000))
            (ascii "\"keepalive\":" ++ (to_string keep_alive ++ ascii "}"))
            (to_string-digits (before / 1000000)))
          (ap (λ (l : Bytes). some (ascii "{\"gateway\":\"" ++ l))
            (append_assoc node (ascii "\",") _))))

digits-HasNoNul : (ds : Bytes) → All (λ c. is_digit c ≡ true) ds → HasNoNul ds
digits-HasNoNul [] d = tt
digits-HasNoNul (x ∷ xs) d = let e : (x == 0) ≡ false = ground arith in (e, digits-HasNoNul xs d.1)

-- %s writes the whole of an entry of a node without NUL bytes.
pub c_str-device_json :
    (node : Bytes) (now keep_alive : ℕ)
    → HasNoNul node
    → c_str (device_json node now keep_alive) ≡ device_json node now keep_alive
unfolding device_json
c_str-device_json node now keep_alive h =
    let time = to_string (now / 1000000) in
    rw (c_str-append node _ h) (
      rw (c_str-append time _ (digits-HasNoNul time (to_string-digits (now / 1000000)))) (
        rw
          (c_str-append (to_string keep_alive) _
            (digits-HasNoNul (to_string keep_alive) (to_string-digits keep_alive)))
          refl))
