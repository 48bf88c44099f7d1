-- ===== src/Storage/Redis/Nodes.antt =====
-- src/storage/RedisClient.cpp: the registry of nodes with its heartbeats, the routes between nodes, and the
-- commands that other classes write themselves.
use iot_distributed_gateway.Common.{
  ℕ, ◌/◌, Bytes, List, [], ◌∷◌, ◌++◌, Bool, true, false, Option, none, some, take,
}
use iot_distributed_gateway.Common.CString.{c_str}
use iot_distributed_gateway.Common.Text.{ascii, to_string}
use iot_distributed_gateway.Gateway.Server.Commands.{Command}
use iot_distributed_gateway.Storage.Redis.{
  Reply, string, status, error, integer, nil, array, Replies, end, element, Server, Link, Run,
  ◌>>=◌, ◌>>◌, pure, redis_command, tell, pipeline, if_connected, text_of, count_of,
  string_or_empty, integer_or_zero, array_or_empty, is_positive, lld, int,
}

abbrev pub nodes_key : Bytes
nodes_key = ascii "iot:nodes"

abbrev pub heartbeat_key : Bytes
heartbeat_key = ascii "iot:nodes:heartbeat"

abbrev pub route_key : Bytes → Bytes
route_key node = ascii "iot:route:" ++ c_str node

unfoldable pub node_json : Bytes → ℕ → ℕ → ℕ → Bytes
node_json addr mqtt_port api_port now =
    ascii "{\"addr\":\""
    ++ (c_str addr
        ++ (ascii "\",\"mqtt_port\":"
            ++ (to_string mqtt_port
                ++ (ascii ",\"api_port\":"
                    ++ (to_string api_port
                        ++ (ascii ",\"started_at\":" ++ (lld (now / 1000000) ++ ascii "}")))))))

-- The payload stands in it as it is, without quotation marks.
unfoldable pub route_json : Command → Bytes
route_json cmd =
    ascii "{\"id\":"
    ++ (lld cmd.id
        ++ (ascii ",\"device_id\":\""
            ++ (c_str cmd.device_id
                ++ (ascii "\",\"topic\":\""
                    ++ (c_str cmd.topic
                        ++ (ascii "\",\"payload\":"
                            ++ (c_str cmd.payload
                                ++ (ascii ",\"timeout\":" ++ (int cmd.timeout ++ ascii "}")))))))))

-- The loop over every other element of HGETALL; an element without a partner counts.
unfoldable pub read_keys : Replies → List Bytes
read_keys end = []
read_keys (element key end) = text_of key ∷ []
read_keys (element key (element value rest)) = text_of key ∷ read_keys rest

abbrev group_info : Option Reply → Bytes
group_info none = []
group_info (some (array rs)) = to_string (count_of rs) ++ ascii " consumer groups"
group_info (some (string b)) = []
group_info (some (status b)) = []
group_info (some (error b)) = []
group_info (some (integer n)) = []
group_info (some nil) = []

abbrev shown : Option Reply → Bytes
shown none = []
shown (some (string b)) = b
shown (some (integer n)) = lld n
shown (some (error b)) = ascii "ERR:" ++ b
shown (some (status b)) = []
shown (some nil) = []
shown (some (array rs)) = []

module _ {S : Type 0} (w : Server S) where
  unfoldable pub register_node : ℕ → Bytes → Bytes → ℕ → ℕ → Run S Bool
  unfolding node_json
  register_node now node addr mqtt_port api_port = if_connected w false (do
    tell w (
        ascii "HSET"
        ∷ nodes_key
        ∷ c_str node
        ∷ take 255 (node_json addr mqtt_port api_port now)
        ∷ [])
    pure true)

  unfoldable pub send_node_heartbeat : Bytes → Run S Bool
  send_node_heartbeat node = if_connected w false (do
    pipeline w (ascii "HSET" ∷ heartbeat_key ∷ c_str node ∷ ascii "1" ∷ [])
        (ascii "EXPIRE" ∷ heartbeat_key ∷ ascii "15" ∷ [])
    pure true)

  -- No guard stands at its head.
  unfoldable pub get_online_nodes : Run S (List Bytes)
  unfolding read_keys
  get_online_nodes = do
    reply ← redis_command w (ascii "HGETALL" ∷ heartbeat_key ∷ [])
    pure (read_keys (array_or_empty reply))

  unfoldable pub get_node_info : Bytes → Run S Bytes
  get_node_info node = if_connected w [] (do
    reply ← redis_command w (ascii "HGET" ∷ nodes_key ∷ c_str node ∷ [])
    pure (string_or_empty reply))

  abbrev pub subscribed : Bool → Bytes → Link S → Bool × Link S
  subscribed false node l = (false, l)
  subscribed true node l = (
    true,
    record {
      client = record l.client { sub_active = true };
      server = w.subscribe (ascii "SUBSCRIBE" ∷ route_key node ∷ []) l.server;
    },
  )

  -- Messages of the channel are read nowhere.
  unfoldable pub subscribe_route_channel : Bytes → Link S → Bool × Link S
  subscribe_route_channel node l =
      subscribed l.client.sub_conn node
        (record l { client = record l.client { has_route_callback = true } })

  unfoldable pub publish_to_node : Bytes → Command → Run S Bool
  unfolding route_json
  publish_to_node target cmd = if_connected w false (do
    reply ← redis_command w (ascii "PUBLISH" ∷ route_key target ∷ take 1023 (route_json cmd) ∷ [])
    pure (is_positive (integer_or_zero reply)))

  unfoldable pub consumer_group_info : Run S Bytes
  consumer_group_info l =
      if_connected w (ascii "{}")
        (do
          reply ←
              redis_command w
                (ascii "XINFO" ∷ ascii "GROUPS" ∷ c_str l.client.config.stream_key ∷ [])
          pure (group_info reply))
        l

  abbrev pub sent : Bool → List Bytes → Run S Bytes
  sent false words l = some ([], l)
  sent true words l = (do reply ← redis_command w words; pure (shown reply)) l

  -- sendCommand; `words` are what hiredis makes of its text. A null context answers nothing.
  unfoldable pub send_command : List Bytes → Run S Bytes
  send_command words l = sent l.client.conn words l
