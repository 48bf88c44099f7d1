-- ===== src/Storage/Redis/Registry.antt =====
-- src/storage/RedisClient.cpp: the registry of devices that the gateways share, and the telemetry cache.
use iot_distributed_gateway.Common.{
  ℕ, ◌/◌, ◌==◌, ◌||◌, Bytes, List, [], ◌∷◌, ◌++◌, Bool, true, false, Option, none, some, take,
  if◌then◌else◌,
}
use iot_distributed_gateway.Common.CString.{c_str}
use iot_distributed_gateway.Common.Text.{ascii}
use iot_distributed_gateway.Gateway.Cluster.{strip, device_json}
use iot_distributed_gateway.Storage.Redis.{
  Reply, string, status, error, integer, nil, array, Replies, end, element, Server, Run, ◌>>=◌,
  ◌>>◌, pure, redis_command, tell, if_connected, text_of, string_or_empty, integer_or_zero,
  array_or_empty, lld,
}
use Prim.{Unit, tt}

abbrev pub devices_key : Bytes
devices_key = ascii "iot:devices"

abbrev pub telemetry_key : Bytes → Bytes
telemetry_key client_id = ascii "iot:telemetry:" ++ c_str client_id

-- The text in front of the first place where a pattern stands, and the text behind that place.
abbrev pub kept : ℕ → Option (Bytes × Bytes) → Option (Bytes × Bytes)
kept x none = none
kept x (some (front, back)) = some (x ∷ front, back)

abbrev found_here : Option Bytes → Option (Bytes × Bytes) → Option (Bytes × Bytes)
found_here (some back) later = some ([], back)
found_here none later = later

unfoldable pub split_at : Bytes → Bytes → Option (Bytes × Bytes)
split_at pattern' [] = found_here (strip pattern' []) none
split_at pattern' (x ∷ xs) = found_here (strip pattern' (x ∷ xs)) (kept x (split_at pattern' xs))

-- find_first_of(",}"): the text from that place on.
unfoldable pub number_end : Bytes → Option Bytes
number_end [] = none
number_end (x ∷ xs) = if x == 44 || x == 125 then some (x ∷ xs) else number_end xs

abbrev heartbeat_field : Bytes
heartbeat_field = ascii "\"heartbeat\":"

abbrev renewed : Bytes → Bytes → Option Bytes → Option Bytes
renewed front now none = none
renewed front now (some rest) = some (front ++ (heartbeat_field ++ (now ++ rest)))

abbrev at_field : Bytes → Option (Bytes × Bytes) → Option Bytes
at_field now none = none
at_field now (some (front, back)) = renewed front now (number_end back)

-- The entry with its heartbeat replaced, `none` where it stays unwritten.
unfoldable pub renew_heartbeat : Bytes → Bytes → Option Bytes
unfolding split_at number_end
renew_heartbeat now json = at_field now (split_at heartbeat_field json)

-- The loop over the pairs of HGETALL.
unfoldable pub read_pairs : Replies → List (Bytes × Bytes)
read_pairs end = []
read_pairs (element key end) = []
read_pairs (element key (element value rest)) = (text_of key, text_of value) ∷ read_pairs rest

module _ {S : Type 0} (w : Server S) where
  -- The entry is cut to the 512 bytes of its array, with the NUL.
  unfoldable pub register_device : ℕ → Bytes → Bytes → ℕ → Run S Bool
  unfolding device_json
  register_device now client_id node keep_alive = if_connected w false (do
    tell w (
        ascii "HSET"
        ∷ devices_key
        ∷ c_str client_id
        ∷ take 511 (device_json (c_str node) now keep_alive)
        ∷ [])
    pure true)

  unfoldable pub unregister_device : Bytes → Run S Bool
  unregister_device client_id = if_connected w false (do
    tell w (ascii "HDEL" ∷ devices_key ∷ c_str client_id ∷ [])
    tell w (ascii "DEL" ∷ telemetry_key client_id ∷ [])
    pure true)

  unfoldable pub get_device_gateway : Bytes → Run S Bytes
  get_device_gateway client_id = if_connected w [] (do
    reply ← redis_command w (ascii "HGET" ∷ devices_key ∷ c_str client_id ∷ [])
    pure (string_or_empty reply))

  -- No guard stands at its head.
  unfoldable pub get_all_devices : Run S (List (Bytes × Bytes))
  unfolding read_pairs
  get_all_devices = do
    reply ← redis_command w (ascii "HGETALL" ∷ devices_key ∷ [])
    pure (read_pairs (array_or_empty reply))

  unfoldable pub device_count : Run S ℕ
  device_count =
      if_connected w 0
        (do reply ← redis_command w (ascii "HLEN" ∷ devices_key ∷ []); pure (integer_or_zero reply))

  abbrev pub write_back : Bytes → Option Bytes → Run S (Unit {0})
  write_back client_id none = pure tt
  write_back client_id (some json) =
      tell w (ascii "HSET" ∷ devices_key ∷ c_str client_id ∷ c_str json ∷ [])

  abbrev pub renew : Bytes → Bytes → Option Reply → Run S (Unit {0})
  renew now client_id none = pure tt
  renew now client_id (some (string json)) = write_back client_id (renew_heartbeat now json)
  renew now client_id (some (status b)) = pure tt
  renew now client_id (some (error b)) = pure tt
  renew now client_id (some (integer n)) = pure tt
  renew now client_id (some nil) = pure tt
  renew now client_id (some (array rs)) = pure tt

  unfoldable pub update_device_heartbeat : ℕ → Bytes → Run S Bool
  unfolding renew_heartbeat
  update_device_heartbeat now client_id = if_connected w false (do
    reply ← redis_command w (ascii "HGET" ∷ devices_key ∷ c_str client_id ∷ [])
    renew (lld (now / 1000000)) client_id reply
    pure true)

  unfoldable pub cache_telemetry : Bytes → Bytes → Bytes → Run S Bool
  cache_telemetry client_id topic payload = if_connected w false (do
    tell w (ascii "HSET" ∷ telemetry_key client_id ∷ c_str topic ∷ c_str payload ∷ [])
    tell w (ascii "EXPIRE" ∷ telemetry_key client_id ∷ ascii "300" ∷ [])
    pure true)
