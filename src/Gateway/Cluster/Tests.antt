-- ===== src/Gateway/Cluster/Tests.antt =====
-- A cluster of three nodes, for the theorems about it.
use iot_distributed_gateway.Common.{Bytes, List, [], ◌∷◌, true, refl}
use iot_distributed_gateway.Common.Text.{ascii}
use iot_distributed_gateway.Gateway.Cluster.{ClusterManager, online}
use iot_distributed_gateway.Gateway.Cluster.Registry.{IsPlain}
use Prim.{tt}

abbrev manager : ClusterManager
manager = record {
  node_id = ascii "a";
  addr = ascii "0.0.0.0";
  mqtt_port = 1883;
  api_port = 8080;
  state = online;
  last_heartbeat = 0;
  joined = true;
  known_nodes = ascii "a" ∷ ascii "b" ∷ [];
  local_device_count = 0;
  local_cmd_consumed = 0;
}

abbrev alive : List Bytes
alive = ascii "a" ∷ ascii "c" ∷ []

b-IsPlain : IsPlain (ascii "b")
b-IsPlain = (refl, tt)
