-- ===== src/Gateway/Server.antt =====
-- src/gateway/GatewayServer.h and src/gateway/GatewayServer.cpp: connections, MQTT packets and commands. A
-- connection is a number, the pointer that keys g_connClientMap; what the server does to the world is a
-- list of actions.
pub mod Messages
pub mod Reading
pub mod Sessions
mod Tests
mod CommandTests
mod EnqueueTests
pub mod Commands
pub mod Handling
pub mod Enqueue
use iot_distributed_gateway.Common.{
  ℕ, zero, suc, ◌+◌, nat_eq, Bytes, List, [], ◌∷◌, ◌++◌, Bool, true, false, Option, none, some,
  ◌==◌, ◌>>=◌, if◌then◌else◌, map,
}
use iot_distributed_gateway.Common.Dict.{lookup, insert, erase}
use iot_distributed_gateway.Common.Text.{ascii}
use iot_distributed_gateway.Net.Buffer.{Buffer, view, readable_bytes, initial_size}
use iot_distributed_gateway.Net.Buffer
use iot_distributed_gateway.Protocol.Types.{QoS, ConnectPayload, TopicFilter, accepted}
use iot_distributed_gateway.Protocol.Codec.{
  Codec, Event, ParseResult, ok, incomplete, error, parse, encode_conn_ack, encode_pub_ack,
  encode_publish, encode_sub_ack, encode_ping_resp,
}
use iot_distributed_gateway.Gateway.Devices.{
  DeviceManager, RedisCall, device_online, device_offline, update_heartbeat, subscribe,
  get_subscribers, check_heartbeat_timeout,
}
use iot_distributed_gateway.Gateway.Devices

pub record Server : Type 0 where
  pub devices : DeviceManager
  pub client_map : List (ℕ × Bytes)

pub data Action : Type 0 where
  redis : RedisCall → Action
  sends : ℕ → Bytes → Action
  write_device_data cache_telemetry : Bytes → Bytes → Bytes → Action
  force_close : ℕ → Action

-- The clock, which connections are up, and whether Redis is connected.
pub record Env : Type 0 where
  pub now : ℕ
  pub up : ℕ → Bool
  pub linked : Bool

abbrev pub Step : Type 0
Step = Server × List Action

-- start() sets every callback but the one for PUBACK.
abbrev pub codec : Codec
codec = record {
  has_connect_cb = true;
  has_publish_cb = true;
  has_subscribe_cb = true;
  has_pingreq_cb = true;
  has_disconnect_cb = true;
  has_puback_cb = false;
}

unfoldable pub new : Bytes → Server
new node = record { devices = Devices.new node; client_map = [] }

-- `Buffer out; encode(&out); conn->send(&out);`
abbrev pub send_encoded : ℕ → (Buffer → Buffer) → List Action
send_encoded conn encode = sends conn (view (encode (Buffer.new initial_size))) ∷ []

abbrev of_devices : Server → Devices.Step → Step
of_devices s (m, calls) = (record s { devices = m }, map redis calls)

abbrev pub then_do : Step → List Action → Step
then_do (s, acts) more = (s, acts ++ more)

abbrev gone : Env → ℕ → Option Bytes → Server → Step
gone env conn none s = (s, [])
gone env conn (some id) s =
    of_devices (record s { client_map = erase conn s.client_map })
      (device_offline env.linked id s.devices)

unfoldable pub on_connection : Env → ℕ → Server → Step
on_connection env conn s =
    if env.up conn then (s, []) else gone env conn (lookup conn s.client_map) s

unfoldable pub handle_connect : Env → ℕ → ConnectPayload → Server → Step
handle_connect env conn payload s =
    then_do
      (of_devices (record s { client_map = insert conn payload.client_id s.client_map })
        (device_online env.linked env.now payload.client_id conn payload.keep_alive payload.username
          [] [] s.devices))
      (send_encoded conn (encode_conn_ack accepted))

abbrev pub client_or_unknown : Option Bytes → Bytes
client_or_unknown none = ascii "unknown"
client_or_unknown (some id) = id

-- The loop over the subscribers' connections.
unfoldable pub forward : ℕ → Bytes → Bytes → List ℕ → List Action
forward conn topic payload [] = []
forward conn topic payload (sub ∷ subs) =
    (if sub == conn
      then []
      else send_encoded sub (encode_publish topic payload QoS.at_most_once 0 false))
    ++ forward conn topic payload subs

abbrev pub pub_ack_for : QoS → ℕ → ℕ → List Action
pub_ack_for QoS.at_least_once conn id = send_encoded conn (encode_pub_ack id)
pub_ack_for q conn id = []

unfoldable pub handle_publish : Env → ℕ → Bytes → Bytes → QoS → Bool → ℕ → Server → Step
handle_publish env conn topic payload qos retain id s =
    let client = client_or_unknown (lookup conn s.client_map) in
    (
      s,
      (write_device_data client topic payload
            ∷ (if env.linked then cache_telemetry client topic payload ∷ [] else []))
          ++ (forward conn topic payload (get_subscribers env.up topic s.devices)
              ++ pub_ack_for qos conn id),
    )

-- The loop over the filters.
unfoldable pub subscribe_all : Bytes → List TopicFilter → DeviceManager → DeviceManager
subscribe_all id [] m = m
subscribe_all id (f ∷ fs) m = subscribe_all id fs (subscribe id f.topic m)

abbrev levels : List TopicFilter → Bytes
levels [] = []
levels (f ∷ fs) = f.qos ∷ levels fs

abbrev subscribed : ℕ → ℕ → List TopicFilter → Option Bytes → Server → Step
subscribed conn packet_id filters none s = (s, [])
subscribed conn packet_id filters (some id) s = (
  record s { devices = subscribe_all id filters s.devices },
  send_encoded conn (encode_sub_ack packet_id (levels filters)),
)

unfoldable pub handle_subscribe : ℕ → ℕ → List TopicFilter → Server → Step
handle_subscribe conn packet_id filters s =
    subscribed conn packet_id filters (lookup conn s.client_map) s

abbrev beaten : Env → Option Bytes → Server → Step
beaten env none s = (s, [])
beaten env (some id) s = of_devices s (update_heartbeat env.linked env.now id s.devices)

unfoldable pub handle_ping_req : Env → ℕ → Server → Step
handle_ping_req env conn s =
    then_do (beaten env (lookup conn s.client_map) s) (send_encoded conn encode_ping_resp)

unfoldable pub on_disconnect : Env → ℕ → Server → Step
on_disconnect env conn s = gone env conn (lookup conn s.client_map) s

-- The callbacks that start() registers, at the connection that onMessage notes.
unfoldable pub react : Env → ℕ → Option Event → Server → Step
react env conn none s = (s, [])
react env conn (some (Event.connect_cb p)) s = handle_connect env conn p s
react env conn (some (Event.publish_cb topic payload qos retain id)) s =
    handle_publish env conn topic payload qos retain id s
react env conn (some (Event.subscribe_cb id filters)) s = handle_subscribe conn id filters s
react env conn (some Event.pingreq_cb) s = handle_ping_req env conn s
react env conn (some Event.disconnect_cb) s = on_disconnect env conn s
react env conn (some (Event.puback_cb id)) s = (s, [])

abbrev pub after_step : List Action → Buffer × Step → Buffer × Step
after_step acts (buf, (s, more)) = (buf, (s, acts ++ more))

-- The loop of onMessage. `none` is an abort in `retrieve`, or that the rounds ran out.
unfoldable pub message_loop : ℕ → Env → ℕ → Buffer → Server → Option (Buffer × Step)
message_loop zero env conn buf s = none
message_loop (suc rounds) env conn buf s =
    if readable_bytes buf == 0
    then some (buf, (s, []))
    else (parse codec buf >>= λ p.
        let (s', acts) = react env conn p.1 s in
        elim (p.0) [
          | incomplete ↦ some (p.2, (s', acts))
          | error ↦ some (p.2, (s', acts ++ (force_close conn ∷ [])))
          | ok ↦ message_loop rounds env conn p.2 s' >>= λ q. some (after_step acts q)
        ])

-- A round that goes on takes a byte at least off the buffer.
unfoldable pub on_message : Env → ℕ → Buffer → Server → Option (Buffer × Step)
on_message env conn buf s = message_loop (suc (readable_bytes buf)) env conn buf s

unfoldable pub start_heartbeat_check : Env → Server → Step
start_heartbeat_check env s = of_devices s (check_heartbeat_timeout env.linked env.now s.devices).0
