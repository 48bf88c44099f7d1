-- ===== src/Apps/Simulator.antt =====
-- apps/simulator_main.cpp: the simulated devices, an MQTT client each. What a client sends is a list of
-- actions; a buffer that is only appended to is the list of its bytes. Readings of sensors are an argument.
pub mod Greeting
pub mod Names
mod Tests
use iot_distributed_gateway.Common.{
  ℕ, zero, suc, ◌+◌, ◌-◌, ◌/◌, ◌%◌, ◌^◌, ◌==◌, bit_or, Bytes, List, [], ◌∷◌, ◌++◌, Bool, true,
  false, Option, none, some, if◌then◌else◌, ltb, length, replicate,
}
use iot_distributed_gateway.Common.Text.{ascii, to_string}
use iot_distributed_gateway.Net.Buffer.{Buffer, view, retrieve, readable_bytes, initial_size}
use iot_distributed_gateway.Net.Buffer
use iot_distributed_gateway.Protocol.Types.{PacketType, QoS, packet_type_byte}
use iot_distributed_gateway.Protocol.Codec.{encode_publish, htons}

pub record MqttClient : Type 0 where
  pub client_id : Bytes
  pub connected : Bool
  pub msg_count : ℕ

pub data Action : Type 0 where
  sends : Bytes → Action

-- MqttClient(loop, clientId).
unfoldable pub new_client : Bytes → MqttClient
new_client id = record { client_id = id; connected = false; msg_count = 0 }

abbrev cons_byte : ℕ → Option Bytes → Option Bytes
cons_byte b none = none
cons_byte b (some bytes) = some (b ∷ bytes)

-- The loop that writes the length into rlBytes; `none` is a byte past the array's four.
unfoldable pub rl_bytes : ℕ → ℕ → Option Bytes
rl_bytes zero tmp = none
rl_bytes (suc room) tmp =
    let more = rl_bytes room (tmp / 128) in
    if ltb 0 (tmp / 128) then cons_byte (bit_or (tmp % 128) 0x80) more else some ((tmp % 128) ∷ [])

abbrev clean_session : ℕ
clean_session = 0x02

-- The variable header and the client's identifier.
abbrev pub connect_body : Bytes → Bytes
connect_body id =
    (0x00 ∷ 0x04 ∷ ascii "MQTT")
    ++ (4 ∷ clean_session ∷ (htons 60 ++ (htons (length id % 2 ^ 16) ++ id)))

abbrev with_length : Bytes → Option Bytes → Option Bytes
with_length id none = none
with_length id (some l) = some ((packet_type_byte PacketType.connect 0 ∷ l) ++ connect_body id)

-- `remaining` is a uint32_t.
unfoldable pub connect_packet : Bytes → Option Bytes
unfolding rl_bytes
connect_packet id = with_length id (rl_bytes 4 ((10 + 2 + length id) % 2 ^ 32))

abbrev sent_packet : MqttClient → Option Bytes → Option (MqttClient × List Action)
sent_packet c none = none
sent_packet c (some packet) = some (c, sends packet ∷ [])

-- The connection callback: up or down.
unfoldable pub on_connection : Bool → MqttClient → Option (MqttClient × List Action)
unfolding connect_packet
on_connection true c = sent_packet (record c { connected = true }) (connect_packet c.client_id)
on_connection false c = some (record c { connected = false }, [])

unfoldable pub publish : Bytes → Bytes → MqttClient → MqttClient × List Action
publish topic payload c =
    if c.connected
    then (
      record c { msg_count = suc c.msg_count },
      sends (
            view (encode_publish topic payload QoS.at_least_once 1 false (Buffer.new initial_size)))
          ∷ [],
    )
    else (c, [])

-- `none` is the assert of retrieve.
unfoldable pub handle_message : Buffer → Option Buffer
handle_message buf =
    if ltb (readable_bytes buf) 4 then some buf else retrieve (readable_bytes buf) buf

-- The format sim-device-%05d.
unfoldable pub device_name : ℕ → Bytes
device_name i =
    let digits = to_string i in ascii "sim-device-" ++ (replicate (5 - length digits) 48 ++ digits)

-- topics[publishRounds % topics.size()].
abbrev topic_at : ℕ → Bytes
topic_at i =
    if i == 0
    then ascii "/sensor/temperature"
    else if i == 1
    then ascii "/sensor/humidity"
    else if i == 2
    then ascii "/sensor/pressure"
    else ascii "/device/status"

abbrev pub topic_of : ℕ → Bytes
topic_of rounds = topic_at (rounds % 4)

-- The loop of a round over the clients, each with the payload that it gets: the clients afterwards, what
-- each sends, and how many messages were counted.
unfoldable pub publish_all : Bytes → List (MqttClient × Bytes) → List (MqttClient × List Action) × ℕ
unfolding publish
publish_all topic [] = ([], 0)
publish_all topic ((c, payload) ∷ rest) =
    let (others, total) = publish_all topic rest in
    if c.connected then (publish topic payload c ∷ others, suc total) else ((c, []) ∷ others, total)

unfoldable pub publish_round : ℕ → List (MqttClient × Bytes) → List (MqttClient × List Action) × ℕ
unfolding publish_all
publish_round rounds clients = publish_all (topic_of (suc rounds)) clients
