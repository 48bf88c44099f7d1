-- ===== src/Protocol/Codec.antt =====
-- src/protocol/MqttCodec.h and src/protocol/MqttCodec.cpp. A pointer into a packet is the list of the bytes
-- from it to the packet's end. A callback that is called is an event of the result.
pub mod Extends
pub mod RemainingLength
pub mod Framing
pub mod Packets
pub mod Filters
mod Tests
use iot_distributed_gateway.Common.{
  ℕ, zero, suc, ◌+◌, ◌-◌, ◌*◌, ◌/◌, ◌%◌, ◌^◌, Bytes, List, [], ◌∷◌, ◌++◌, Bool, true, false, Option,
  none, some, bit_and, bit_or, if◌then◌else◌, ◌==◌, ltb, length, take, drop, not,
}
use iot_distributed_gateway.Net.Buffer.{Buffer, view, readable_bytes, retrieve, append}
use iot_distributed_gateway.Protocol.Types.{
  PacketType, ConnAckCode, QoS, ConnectPayload, TopicFilter, packet_type_byte,
  packet_type_from_byte, packet_flags, conn_ack_code, qos_code, qos_of_bits, connect_flag_username,
  connect_flag_password, connect_flag_will_flag,
}
use mathlib.Core.Option

pub data ParseResult : Type 0 where
  ok incomplete error : ParseResult

pub data Event : Type 0 where
  connect_cb : ConnectPayload → Event
  publish_cb : Bytes → Bytes → QoS → Bool → ℕ → Event
  subscribe_cb : ℕ → List TopicFilter → Event
  pingreq_cb disconnect_cb : Event
  puback_cb : ℕ → Event

-- The object's state: which of its callbacks are set.
pub record Codec : Type 0 where
  pub has_connect_cb : Bool
  pub has_publish_cb : Bool
  pub has_subscribe_cb : Bool
  pub has_pingreq_cb : Bool
  pub has_disconnect_cb : Bool
  pub has_puback_cb : Bool

abbrev is_set : Codec → Event → Bool
is_set c (connect_cb p) = c.has_connect_cb
is_set c (publish_cb t m q r i) = c.has_publish_cb
is_set c (subscribe_cb i fs) = c.has_subscribe_cb
is_set c pingreq_cb = c.has_pingreq_cb
is_set c disconnect_cb = c.has_disconnect_cb
is_set c (puback_cb i) = c.has_puback_cb

-- `if (cb_) cb_(…)`
abbrev pub call : Codec → Event → Option Event
call c e = if is_set c e then some e else none

-- decodeRemainingLength: `i` bytes are read; `value` is a uint32_t. The second result is *consumed.
unfoldable pub decode_loop : Bytes → ℕ → ℕ → ℕ → ℕ × ℕ
decode_loop [] i value multiplier = (value, i + 1)
decode_loop (byte ∷ rest) i value multiplier =
    let value' = (value + bit_and byte 0x7f * multiplier) % 2 ^ 32 in
    let more = decode_loop rest (i + 1) value' (multiplier * 128) in
    if ltb i 4 then (if bit_and byte 0x80 == 0 then (value', i + 1) else more) else (value, i + 1)

unfoldable pub decode_remaining_length : Bytes → ℕ × ℕ
unfolding decode_loop
decode_remaining_length bytes = decode_loop bytes 0 0 1

-- encodeRemainingLength: the first argument bounds the rounds; a uint32_t takes five at most.
unfoldable pub encode_loop : ℕ → ℕ → Buffer → Buffer
encode_loop zero len out = out
encode_loop (suc rounds) len out =
    let byte = if ltb 0 (len / 128) then bit_or (len % 128) 0x80 else len % 128 in
    let out' = append (byte ∷ []) out in
    let more = encode_loop rounds (len / 128) out' in if ltb 0 (len / 128) then more else out'

unfoldable pub encode_remaining_length : ℕ → Buffer → Buffer
unfolding encode_loop
encode_remaining_length len out = encode_loop 5 len out

-- ntohs of two bytes, and htons: network order has the high byte first.
abbrev pub ntohs : ℕ → ℕ → ℕ
ntohs hi lo = hi * 256 + lo

abbrev pub htons : ℕ → Bytes
htons n = (n / 256 % 256) ∷ (n % 256) ∷ []

-- The string, and where the pointer stands behind it.
unfoldable pub read_mqtt_string : Bytes → Bytes × Bytes
read_mqtt_string [] = ([], [])
read_mqtt_string (hi ∷ []) = ([], hi ∷ [])
read_mqtt_string (hi ∷ lo ∷ p) =
    let len = ntohs hi lo in if ltb (length p) len then ([], p) else (take len p, drop len p)

unfoldable pub write_mqtt_string : Bytes → Buffer → Buffer
write_mqtt_string str out = append str (append (htons (length str % 2 ^ 16)) out)

-- `if (flags & flag) field = readMqttString(p, end)`
abbrev read_if : Bool → Bytes → Bytes × Bytes
read_if test p = if test then read_mqtt_string p else ([], p)

unfoldable pub is_flagged : ℕ → ℕ → Bool
is_flagged flags flag = not (bit_and flags flag == 0)

-- The fields behind the fixed part of CONNECT.
unfoldable pub connect_payload : Bytes → ℕ → ℕ → ℕ → Bytes → ConnectPayload
unfolding read_mqtt_string is_flagged
connect_payload protocol_name protocol_level flags keep_alive p =
    let (client_id, p₁) = read_mqtt_string p in
    let (will_topic, p₂) = read_if (is_flagged flags connect_flag_will_flag) p₁ in
    let (will_message, p₃) = read_if (is_flagged flags connect_flag_will_flag) p₂ in
    let (username, p₄) = read_if (is_flagged flags connect_flag_username) p₃ in
    let (password, p₅) = read_if (is_flagged flags connect_flag_password) p₄ in
    record {
      protocol_name = protocol_name;
      protocol_level = protocol_level;
      flags = flags;
      keep_alive = keep_alive;
      client_id = client_id;
      will_topic = will_topic;
      will_message = will_message;
      username = username;
      password = password;
    }

-- Behind the protocol name stand a byte for the level, one for the flags and two for keep-alive.
unfoldable pub connect_body : Codec → Bytes → Bytes → ParseResult × Option Event
unfolding connect_payload
connect_body c protocol_name (level ∷ flags ∷ hi ∷ lo ∷ p) =
    (ok, call c (connect_cb (connect_payload protocol_name level flags (ntohs hi lo) p)))
connect_body c protocol_name _ = (error, none)

unfoldable pub parse_connect : Codec → Bytes → ParseResult × Option Event
unfolding connect_body read_mqtt_string
parse_connect c bytes = let (name, p) = read_mqtt_string bytes in connect_body c name p

-- The packet identifier, where the level of service wants one.
unfoldable pub packet_id : QoS → Bytes → Option (ℕ × Bytes)
packet_id QoS.at_most_once p = some (0, p)
packet_id q (hi ∷ lo ∷ p) = some (ntohs hi lo, p)
packet_id q _ = none

-- The end of parsePublish, once the identifier is read or missing.
abbrev publish_answer : Codec → Bytes → QoS → Bool → Option (ℕ × Bytes) → ParseResult × Option Event
publish_answer c topic qos retain none = (error, none)
publish_answer c topic qos retain (some (id, payload)) =
    (ok, call c (publish_cb topic payload qos retain id))

unfoldable pub parse_publish : Codec → ℕ → Bytes → ParseResult × Option Event
parse_publish c flags bytes =
    let retain = is_flagged flags 0x01 in
    let qos = qos_of_bits (bit_and (flags / 2) 0x03) in
    let (topic, p) = read_mqtt_string bytes in publish_answer c topic qos retain (packet_id qos p)

-- A round of the loop over the filters takes a byte at least, so that the packet's length bounds the
-- rounds; `none` is a round that finds no byte for the level of service.
unfoldable pub subscribe_loop : ℕ → Bytes → List TopicFilter → Option (List TopicFilter)
subscribe_loop rounds [] filters = some filters
subscribe_loop zero (x ∷ xs) filters = none
subscribe_loop (suc rounds) (x ∷ xs) filters =
    let (topic, p) = read_mqtt_string (x ∷ xs) in
    elim p [
      | [] ↦ none
      | qos ∷ p' ↦ subscribe_loop rounds p' (filters ++ (record { topic = topic; qos = qos } ∷ []))
    ]

unfoldable pub parse_subscribe : Codec → Bytes → ParseResult × Option Event
parse_subscribe c (hi ∷ lo ∷ p) = elim (subscribe_loop (length p) p []) [
  | none ↦ (error, none)
  | some filters ↦ (ok, call c (subscribe_cb (ntohs hi lo) filters))
]
parse_subscribe c _ = (error, none)

unfoldable pub parse_puback : Codec → Bytes → ParseResult × Option Event
parse_puback c (hi ∷ lo ∷ p) = (ok, call c (puback_cb (ntohs hi lo)))
parse_puback c _ = (error, none)

unfoldable pub dispatch : Codec → PacketType → ℕ → Bytes → ParseResult × Option Event
dispatch c PacketType.connect flags bytes = parse_connect c bytes
dispatch c PacketType.publish flags bytes = parse_publish c flags bytes
dispatch c PacketType.puback flags bytes = parse_puback c bytes
dispatch c PacketType.subscribe flags bytes = parse_subscribe c bytes
dispatch c PacketType.pingreq flags bytes = (ok, call c pingreq_cb)
dispatch c PacketType.disconnect flags bytes = (ok, call c disconnect_cb)
dispatch c _ flags bytes = (ok, none)

-- What `parse` makes of the bytes of its buffer: the answer, the callback, and how many bytes it takes.
pub record Parsed : Type 0 where
  pub result : ParseResult
  pub event : Option Event
  pub total_len : ℕ

-- The packet whose header is `first` and whose length field, decoded, is `remaining_len` in
-- `rl_bytes` bytes.
unfoldable pub parse_packet : Codec → ℕ → Bytes → ℕ → ℕ → Option Parsed
parse_packet c first p remaining_len rl_bytes =
    let total_len = 1 + rl_bytes + remaining_len in
    let (result, event) =
      dispatch c (packet_type_from_byte first) (packet_flags first)
        (take remaining_len (drop rl_bytes p)) in
    if ltb (length p + 1) total_len
    then none
    else some (record { result = result; event = event; total_len = total_len })

unfoldable pub parse_bytes : Codec → Bytes → Option Parsed
unfolding parse_packet
parse_bytes c [] = none
parse_bytes c (first ∷ []) = none
parse_bytes c (first ∷ second ∷ rest) =
    let p = second ∷ rest in
    let (remaining_len, rl_bytes) = decode_remaining_length p in
    parse_packet c first p remaining_len rl_bytes

-- The entry. `none` is an abort in `retrieve`.
unfoldable pub parse : Codec → Buffer → Option (ParseResult × Option Event × Buffer)
parse c buf = elim (parse_bytes c (view buf)) [
  | none ↦ some (incomplete, none, buf)
  | some r ↦ Option.map (λ buf'. (r.result, r.event, buf')) (retrieve r.total_len buf)
]

unfoldable pub encode_conn_ack : ConnAckCode → Buffer → Buffer
encode_conn_ack code out =
    let out₁ = append (packet_type_byte PacketType.connack 0 ∷ []) out in
    let out₂ = encode_remaining_length 2 out₁ in
    append (conn_ack_code code ∷ []) (append (0 ∷ []) out₂)

abbrev append_all : Bytes → Buffer → Buffer
append_all [] out = out
append_all (rc ∷ rcs) out = append_all rcs (append (rc ∷ []) out)

unfoldable pub encode_sub_ack : ℕ → Bytes → Buffer → Buffer
encode_sub_ack id return_codes out =
    let out₁ = append (packet_type_byte PacketType.suback 0 ∷ []) out in
    let out₂ = encode_remaining_length ((2 + length return_codes) % 2 ^ 32) out₁ in
    append_all return_codes (append (htons id) out₂)

unfoldable pub encode_pub_ack : ℕ → Buffer → Buffer
encode_pub_ack id out =
    let out₁ = append (packet_type_byte PacketType.puback 0 ∷ []) out in
    append (htons id) (encode_remaining_length 2 out₁)

abbrev is_above_zero : QoS → Bool
is_above_zero QoS.at_most_once = false
is_above_zero q = true

abbrev publish_flags : QoS → Bool → ℕ
publish_flags qos retain = bit_or (if retain then 0x01 else 0) (qos_code qos * 2)

unfoldable pub encode_publish : Bytes → Bytes → QoS → ℕ → Bool → Buffer → Buffer
encode_publish topic payload qos id retain out =
    let type = packet_type_byte PacketType.publish (publish_flags qos retain) in
    let remaining_len =
      (2 + length topic + (if is_above_zero qos then 2 else 0) + length payload) % 2 ^ 32 in
    let out₁ =
      write_mqtt_string topic (encode_remaining_length remaining_len (append (type ∷ []) out)) in
    append payload (if is_above_zero qos then append (htons id) out₁ else out₁)

unfoldable pub encode_ping_resp : Buffer → Buffer
encode_ping_resp out = append (0 ∷ []) (append (packet_type_byte PacketType.pingresp 0 ∷ []) out)

unfoldable pub encode_unsub_ack : ℕ → Buffer → Buffer
encode_unsub_ack id out =
    let out₁ = append (packet_type_byte PacketType.unsuback 0 ∷ []) out in
    append (htons id) (encode_remaining_length 2 out₁)
