-- ===== src/Gateway/Server/CommandTests.antt =====
-- Commands of a node, for the theorems about them.
use iot_distributed_gateway.Common.{[], ◌∷◌, true, none, ◌≡◌, refl}
use iot_distributed_gateway.Common.Text.{ascii}
use iot_distributed_gateway.Common.Dict.{lookup}
use iot_distributed_gateway.Gateway.Devices.{DeviceManager, find_device}
use iot_distributed_gateway.Gateway.Devices
use iot_distributed_gateway.Gateway.Cluster.{online, device_json}
use iot_distributed_gateway.Gateway.Cluster.Registry.{IsPlain}
use iot_distributed_gateway.Gateway.Server.Commands.{
  Command, mark_failed, Dispatcher, Node, command_connection, process_one, process_commands,
}
use iot_distributed_gateway.Gateway.Server.Handling.{
  HandledAll, process_commands-Handled, process_one-device_json,
}
use Prim.{tt}

-- Redis says of each device that it is on this node, where none is.
abbrev node : Node
node = record {
  devices = Devices.new (ascii "a");
  cluster = record {
    node_id = ascii "a";
    addr = ascii "0.0.0.0";
    mqtt_port = 1883;
    api_port = 8080;
    state = online;
    last_heartbeat = 0;
    joined = true;
    known_nodes = [];
    local_device_count = 0;
    local_cmd_consumed = 0;
  };
  up = λ c. true;
  linked = true;
  registry = λ id. device_json (ascii "a") 5000000 60;
  reaches = λ target cmd. true;
}

abbrev reboot : Command
reboot = record {
  id = 7;
  device_id = ascii "d";
  topic = [];
  payload = ascii "reboot";
  timeout = 30;
  stream_id = ascii "1-0";
  created_at = 0;
}

abbrev idle : Dispatcher
idle = record { packet_id = 65535; consumed = 0; forwarded = 0 }

process_commands-Handled_example :
    HandledAll node (reboot ∷ reboot ∷ []) (process_commands node (reboot ∷ reboot ∷ []) idle).1
process_commands-Handled_example = process_commands-Handled node (reboot ∷ reboot ∷ []) idle

not_found : find_device node.up (ascii "d") node.devices ≡ none
unfolding find_device Devices.new lookup
not_found = refl

no_connection : command_connection node reboot ≡ none
unfolding command_connection find_device Devices.new lookup
no_connection = refl

own_name : node.cluster.node_id ≡ node.devices.node_id
unfolding Devices.new
own_name = refl

own-IsPlain : IsPlain node.devices.node_id
unfolding Devices.new
own-IsPlain = (refl, tt)

process_one-device_json_example :
    (process_one node reboot idle).1 ≡ mark_failed 7 (ascii "forward failed") ∷ []
unfolding Devices.new
process_one-device_json_example =
    process_one-device_json node reboot idle 5000000 60 no_connection not_found refl own_name
      own-IsPlain refl refl
