-- ===== src/Apps/Simulator/Tests.antt =====
-- The greeting of the eighth device.
use iot_distributed_gateway.Common.{Bytes, [], ◌∷◌, ◌++◌, true, false, some, length, ◌≡◌, arith}
use iot_distributed_gateway.Common.Text.{ascii}
use iot_distributed_gateway.Protocol.Codec.{connect_cb, ok, call, parse_bytes}
use iot_distributed_gateway.Gateway.Server.{codec}
use iot_distributed_gateway.Apps.Simulator.{MqttClient, sends, on_connection}
use iot_distributed_gateway.Apps.Simulator.Greeting.{greeting, parse_bytes-on_connection}

abbrev client : MqttClient
client = record { client_id = ascii "sim-device-00007"; connected = false; msg_count = 0 }

parse_bytes-on_connection_example :
    (packet : Bytes) × (on_connection true client
      ≡ some (record client { connected = true }, sends packet ∷ []))
    × (parse_bytes codec (packet ++ 0xe0 ∷ 0 ∷ [])
        ≡ some (record {
          result = ok;
          event = call codec (connect_cb (greeting client.client_id));
          total_len = length packet;
        }))
parse_bytes-on_connection_example =
    parse_bytes-on_connection codec client (0xe0 ∷ 0 ∷ []) (omega arith)
