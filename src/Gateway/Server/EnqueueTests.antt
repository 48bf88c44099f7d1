-- ===== src/Gateway/Server/EnqueueTests.antt =====
-- A reboot that is put in the stream and taken by the node that has the device.
use iot_distributed_gateway.Common.{ℕ, ◌≤◌, Bytes, List, [], ◌∷◌, true, some, ◌≡◌, refl, arith}
use iot_distributed_gateway.Common.Text.{ascii}
use iot_distributed_gateway.Common.Dict.{lookup}
use iot_distributed_gateway.Gateway.Devices.{DeviceInfo, find_device}
use iot_distributed_gateway.Gateway.Devices
use iot_distributed_gateway.Gateway.Cluster.{online}
use iot_distributed_gateway.Gateway.Server.Commands.{
  Command, delivers, mark_sent, ack, Dispatcher, Node, process_one,
}
use iot_distributed_gateway.Gateway.Server.Enqueue.{
  enqueue_command, one_message, Carries, Reads, down_topic, command_payload,
  process_one-enqueue_command,
}
use Prim.{tt}
use iot_distributed_gateway.Storage.Redis.{RedisConfig, RedisClient, Server, connection, create}
use iot_distributed_gateway.Storage.Redis.Streams.{consume_commands}
use iot_distributed_gateway.Storage.Redis.Shared.{live}

abbrev config : RedisConfig
config = record {
  password = [];
  db = 0;
  stream_key = ascii "device:commands";
  consumer_group = ascii "gateway-group";
  consumer_name = ascii "a";
}

abbrev client : RedisClient
client = create config

-- The fields behind XADD, the key and the star.
abbrev fields_of : List Bytes → List Bytes
fields_of [] = []
fields_of (a ∷ []) = []
fields_of (a ∷ b ∷ []) = []
fields_of (a ∷ b ∷ c ∷ fields) = fields

-- A server that keeps the last message.
abbrev last_message : Server (List Bytes)
last_message = record {
  dial = λ s. (connection, s);
  answer =
      λ words s. (some (one_message (ascii "device:commands") (ascii "17-0") s), fields_of words);
  subscribe = λ words s. s;
}

abbrev info : DeviceInfo
info = record {
  client_id = ascii "d";
  username = [];
  gateway_node_id = ascii "a";
  last_heartbeat = 0;
  online_time = 0;
  keep_alive = 60;
  connection = some 3;
  device_type = [];
  firmware_ver = [];
  region = [];
}

abbrev node : Node
node = record {
  devices = record (Devices.new (ascii "a")) { devices = (ascii "d", info) ∷ [] };
  cluster = record {
    node_id = ascii "a";
    addr = ascii "0.0.0.0";
    mqtt_port = 1883;
    api_port = 8080;
    state = online;
    last_heartbeat = 0;
    joined = true;
    known_nodes = [];
    local_device_count = 0;
    local_cmd_consumed = 0;
  };
  up = λ c. true;
  linked = true;
  registry = λ id. [];
  reaches = λ target cmd. true;
}

abbrev idle : Dispatcher
idle = record { packet_id = 65535; consumed = 0; forwarded = 0 }

found : find_device node.up (ascii "d") node.devices ≡ some info
unfolding find_device lookup Devices.new Devices.is_online
found = refl

carries : Carries last_message config config 10 0 [] (ascii "device:commands") (ascii "17-0")
carries first rest = refl

process_one-enqueue_command_example :
    (s' s'' : List Bytes) × (cmd : Command) × (packet : Bytes) × (id : ℕ) × (enqueue_command
        last_message 17 18
        (ascii "d")
        (ascii "reboot")
        (ascii "{}")
        (live client [])
      ≡ some (17, live client s'))
    × (consume_commands last_message 19 (5, 5) 10 0 (live client s')
        ≡ some (cmd ∷ [], live client s''))
    × ((process_one node cmd idle).1 ≡ delivers 3 packet ∷ mark_sent 17 ∷ ack (ascii "17-0") ∷ [])
    × (1 ≤ id)
    × Reads packet (down_topic (ascii "d")) (command_payload (ascii "reboot") (ascii "{}")) id
process_one-enqueue_command_example =
    process_one-enqueue_command last_message client client [] node idle 17 18 19 (5, 5) 10 0
      (ascii "device:commands") (ascii "17-0") (ascii "d") (ascii "reboot") (ascii "{}") 3 carries
      ((refl, tt), (refl, (refl, (refl, (refl, (refl, (refl, tt)))))), (refl, (refl, tt)))
      (omega arith) (omega arith) (omega arith) info found refl (omega arith) (omega arith)
