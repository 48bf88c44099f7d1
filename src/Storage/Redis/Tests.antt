-- ===== src/Storage/Redis/Tests.antt =====
-- Two gateways on one table of hashes, for the theorems about the Redis client.
use iot_distributed_gateway.Common.{
  Bytes, bytes_test, [], ◌∷◌, true, none, some, if◌then◌else◌, ◌≡◌, refl, arith,
}
use iot_distributed_gateway.Common.Text.{ascii, to_string, decimal_loop}
use iot_distributed_gateway.Gateway.Cluster.{ClusterManager, online, device_json, forward_target}
use iot_distributed_gateway.Storage.Redis.{RedisConfig, RedisClient, Server, connection, create}
use iot_distributed_gateway.Storage.Redis.Registry.{register_device, get_device_gateway}
use iot_distributed_gateway.Storage.Redis.Contract.{
  Table, AllHashes, table_server, table_server-KeepsHashes, put,
}
use iot_distributed_gateway.Storage.Redis.Shared.{
  registers, live, performs, performs-Refines, Refines,
}
use iot_distributed_gateway.Storage.Redis.Routing.{
  Calls, call, no_more, get_device_gateway-forward_target,
}
use iot_distributed_gateway.Storage.Redis.Streams.{consume_commands}
use iot_distributed_gateway.Storage.Redis.Delivery.{
  Published, stream_reply, received, consume_commands-publish_command,
}
use iot_distributed_gateway.Storage.Redis.Keeps.{Ends}
use iot_distributed_gateway.Storage.Redis.Lifecycle.{IsSettled}
use iot_distributed_gateway.Storage.Redis.Methods.{connects, perform, MayFail, perform-IsSettled}
use Prim.{Unit, tt}

abbrev config : RedisConfig
config = record {
  password = [];
  db = 0;
  stream_key = ascii "device:commands";
  consumer_group = ascii "gateway-group";
  consumer_name = ascii "gw-1";
}

abbrev client : RedisClient
client = create config

abbrev empty_table : Table
empty_table key field = none

performs-Refines_example :
    Refines table_server AllHashes client empty_table
      (registers 5000000 (ascii "d1") (ascii "gw-1") 60)
performs-Refines_example =
    performs-Refines table_server AllHashes table_server-KeepsHashes
      (registers 5000000 (ascii "d1") (ascii "gw-1") 60) client empty_table tt

abbrev other_node : ClusterManager
other_node = record {
  node_id = ascii "gw-2";
  addr = [];
  mqtt_port = 1884;
  api_port = 8082;
  state = online;
  last_heartbeat = 0;
  joined = true;
  known_nodes = [];
  local_device_count = 0;
  local_cmd_consumed = 0;
}

abbrev one_entry : Table
one_entry =
    put (ascii "iot:devices") (ascii "d1") (some (device_json (ascii "gw-1") 5000000 60))
      empty_table

one_call :
    Calls table_server empty_table (registers 5000000 (ascii "d1") (ascii "gw-1") 60 ∷ []) one_entry
unfolding performs register_device device_json to_string decimal_loop
one_call = call client (registers 5000000 (ascii "d1") (ascii "gw-1") 60) refl no_more

get_device_gateway-forward_target_example :
    (entry : Bytes) × (s : Table) × (get_device_gateway table_server
        (ascii "d1")
        (live client one_entry)
      ≡ some (entry, live client s))
    × (forward_target true entry other_node
        ≡ (if bytes_test (ascii "gw-1") other_node.node_id then none else some (ascii "gw-1")))
unfolding device_json to_string decimal_loop
get_device_gateway-forward_target_example =
    get_device_gateway-forward_target table_server AllHashes table_server-KeepsHashes (ascii "d1")
      (ascii "gw-1") 60 5000000 client other_node (refl, (refl, (refl, (refl, tt))))
      (refl, (refl, (refl, (refl, tt)))) refl tt (omega arith) tt one_call

abbrev published : Published
published = record {
  stream_id = ascii "17-0";
  at = 7000000;
  command = record {
    id = 0;
    device_id = ascii "d1";
    topic = [];
    payload = ascii "{}";
    timeout = 0;
    stream_id = [];
    created_at = 0;
  };
}

-- A server that answers whatever it is asked with one published command.
abbrev one_message : Server (Unit {0})
one_message = record {
  dial = λ s. (connection, s);
  answer = λ words s. (some (stream_reply (ascii "device:commands") (published ∷ [])), s);
  subscribe = λ words s. s;
}

consume_commands-publish_command_example :
    (s' : Unit {0}) × (consume_commands one_message 9000000 (5, 5) 10 0 (live client tt)
      ≡ some (received 9000000 published ∷ [], live client s'))
consume_commands-publish_command_example =
    consume_commands-publish_command one_message client tt 9000000 (5, 5) 10 0
      (ascii "device:commands") (published ∷ []) (omega arith) refl

perform-IsSettled_example :
    Ends
      (MayFail connects)
      IsSettled
      (perform table_server connects (record { client = client; server = empty_table }))
unfolding create
perform-IsSettled_example =
    perform-IsSettled table_server connects (record { client = client; server = empty_table }) refl
