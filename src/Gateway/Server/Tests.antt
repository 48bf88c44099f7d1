-- ===== src/Gateway/Server/Tests.antt =====
-- A server at work, for the theorems about it.
use iot_distributed_gateway.Common.{
  ℕ, ◌≡◌, ◌≢◌, refl, bytes_eq, [], ◌∷◌, ◌++◌, true, false, none, some, ◌==◌, if◌then◌else◌, arith,
  replicate,
}
use iot_distributed_gateway.Common.Dict.{lookup}
use iot_distributed_gateway.Net.Buffer.{Buffer, IsValid, view, append, readable_bytes}
use iot_distributed_gateway.Net.Buffer.Space.{append-IsValid}
use iot_distributed_gateway.Net.Buffer
use iot_distributed_gateway.Protocol.Types.{QoS, ConnectPayload}
use iot_distributed_gateway.Protocol.Codec.{parse_bytes, dispatch, decode_remaining_length}
use iot_distributed_gateway.Protocol.Types.{packet_type_from_byte}
use iot_distributed_gateway.Gateway.Devices.{get_subscribers}
use iot_distributed_gateway.Gateway.Server.{
  Server, Env, new, on_message, on_connection, handle_connect, handle_publish,
}
use iot_distributed_gateway.Gateway.Server.Messages.{drain, continue_with, drain-append}
use iot_distributed_gateway.Gateway.Server.Reading.{on_message-drain}
use iot_distributed_gateway.Gateway.Server.Sessions.{
  messages, count, forwarded, acks, messages-handle_publish, handle_connect-takeover,
}

-- Every connection is up but number 3.
abbrev world : Env
world = record { now = 1000000; up = λ c. if c == 3 then false else true; linked = true }

abbrev server : Server
server = new (110 ∷ [])

abbrev connect_payload : ConnectPayload
connect_payload = record {
  protocol_name = [];
  protocol_level = 4;
  flags = 2;
  keep_alive = 60;
  client_id = 97 ∷ [];
  will_topic = [];
  will_message = [];
  username = [];
  password = [];
}

drain-append_example :
    drain 5 world 5 ((0xc0 ∷ 0 ∷ 0xc0 ∷ []) ++ (0 ∷ [])) server
    ≡ continue_with 4 world 5 (0 ∷ []) (drain 3 world 5 (0xc0 ∷ 0 ∷ 0xc0 ∷ []) server)
drain-append_example =
    drain-append 3 5 4 world 5 (0xc0 ∷ 0 ∷ 0xc0 ∷ []) (0 ∷ []) server (omega arith) (omega arith)
      (omega arith)

not_broken : (drain 3 world 5 (0xc0 ∷ 0 ∷ 0xc0 ∷ []) server).failed ≡ false
unfolding drain parse_bytes decode_remaining_length dispatch packet_type_from_byte
not_broken = refl

abbrev two_pings : Buffer
two_pings = append (0xc0 ∷ 0 ∷ 0xc0 ∷ 0 ∷ []) (Buffer.new 64)

on_message-drain_example :
    (buf' : Buffer) × (on_message world 5 two_pings server
      ≡ some (
        buf',
        (
          (drain (readable_bytes two_pings) world 5 (view two_pings) server).server,
          (drain (readable_bytes two_pings) world 5 (view two_pings) server).actions,
        ),
      ))
    × (view buf' ≡ (drain (readable_bytes two_pings) world 5 (view two_pings) server).left)
    × IsValid buf'
on_message-drain_example =
    on_message-drain world 5 two_pings server
      (append-IsValid (0xc0 ∷ 0 ∷ 0xc0 ∷ 0 ∷ []) (Buffer.new 64) (Buffer.Space.new-IsValid 64))

messages-handle_publish_example :
    messages 5 (handle_publish world 5 (116 ∷ []) (1 ∷ []) QoS.at_least_once false 7 server).1 ≡ (
      if 5 == 5
      then acks QoS.at_least_once 7
      else replicate
          (count 5 (get_subscribers world.up (116 ∷ []) server.devices))
          (forwarded (116 ∷ []) (1 ∷ [])))
messages-handle_publish_example =
    messages-handle_publish world 5 5 (116 ∷ []) (1 ∷ []) QoS.at_least_once false 7 server

three_is_not_five : (let n : ℕ = 3 in n) ≢ 5
three_is_not_five = omega arith

handle_connect-takeover_example :
    lookup
      (97 ∷ [])
      (on_connection world 3
        (handle_connect world 5 connect_payload
          (handle_connect world 3 connect_payload server).0).0).0.devices.devices
    ≡ none
handle_connect-takeover_example =
    handle_connect-takeover world 3 5 connect_payload connect_payload server three_is_not_five refl
      refl
