-- ===== src/Gateway/Cluster/Nodes.antt =====
-- ClusterManager::getOnlineNodes in src/gateway/ClusterManager.cpp, over the Redis client.
use iot_distributed_gateway.Common.{
  Bytes, bytes_test, List, [], ◌∷◌, some, if◌then◌else◌, ◌≡◌, refl, map, Bool-cases, inl, inr, ap,
}
use iot_distributed_gateway.Common.CString.{c_str}
use iot_distributed_gateway.Common.Text.{ascii}
use iot_distributed_gateway.Gateway.Cluster.{ClusterManager, NodeState, online, extract_json_field}
use iot_distributed_gateway.Storage.Redis.{
  RedisClient, Server, Run, ◌>>=◌, pure, if_connected, string_or_empty, array_or_empty,
}
use iot_distributed_gateway.Storage.Redis.Nodes
use iot_distributed_gateway.Storage.Redis.Nodes.{get_node_info, read_keys}
use iot_distributed_gateway.Storage.Redis.Shared.{live}

-- The fields of a ClusterNode that are set for the other nodes.
pub record ClusterNode : Type 0 where
  pub node_id : Bytes
  pub addr : Bytes
  pub state : NodeState

module _ {S : Type 0} (w : Server S) where
  unfoldable pub other_nodes : Bytes → List Bytes → Run S (List ClusterNode)
  other_nodes own [] = pure []
  other_nodes own (id ∷ ids) = if bytes_test id own then other_nodes own ids else (do
    info ← get_node_info w id
    rest ← other_nodes own ids
    pure (
        record { node_id = id; addr = extract_json_field info (ascii "addr"); state = online }
        ∷ rest))

  unfoldable pub get_online_nodes : ClusterManager → Run S (List ClusterNode)
  unfolding other_nodes
  get_online_nodes m =
      let local : ClusterNode = record { node_id = m.node_id; addr = m.addr; state = m.state } in
      if_connected w (local ∷ [])
        (do ids ← Nodes.get_online_nodes w; rest ← other_nodes m.node_id ids; pure (local ∷ rest))

  unfoldable pub without_own : Bytes → List Bytes → List Bytes
  without_own own [] = []
  without_own own (id ∷ ids) =
      if bytes_test id own then without_own own ids else id ∷ without_own own ids

  -- On a live connection the other nodes are listed in the order of their heartbeats' keys, without the
  -- node itself, and the client stays as it is.
  other_nodes_lem :
      (own : Bytes) (ids : List Bytes) (c : RedisClient) (s : S)
      → (nodes : List ClusterNode) × (s' : S) × (other_nodes own ids (live c s)
          ≡ some (nodes, live c s'))
        × (map (λ n. n.node_id) nodes ≡ without_own own ids)
  unfolding other_nodes without_own get_node_info
  other_nodes_lem own [] c s = ([], s, refl, refl)
  other_nodes_lem own (id ∷ ids) c s = elim (Bool-cases (bytes_test id own)) [
    | inl mine ↦
        let (nodes, s', e, m) = other_nodes_lem own ids c s in (nodes, s', rw mine e, rw mine m)
    | inr other ↦
        let reply = w.answer (ascii "HGET" ∷ Nodes.nodes_key ∷ c_str id ∷ []) s in
        let (nodes, s', e, m) = other_nodes_lem own ids c reply.1 in
        let node : ClusterNode = record {
          node_id = id;
          addr = extract_json_field (string_or_empty reply.0) (ascii "addr");
          state = online;
        } in
        (node ∷ nodes, s', rw other (rw e refl), rw other (ap (◌∷◌ id) m))
  ]

  -- On a live connection the node itself is listed first, and then the nodes that have a heartbeat, in the
  -- order of Redis's answer and without the node.
  get_online_nodes_lem :
      (m : ClusterManager) (c : RedisClient) (s : S)
      → (nodes : List ClusterNode) × (s' : S) × (get_online_nodes m (live c s)
          ≡ some (nodes, live c s'))
        × (map (λ n. n.node_id) nodes
            ≡ m.node_id
              ∷ without_own m.node_id (
                  read_keys
                    (array_or_empty (w.answer (ascii "HGETALL" ∷ Nodes.heartbeat_key ∷ []) s).0)))
  unfolding get_online_nodes Nodes.get_online_nodes
  get_online_nodes_lem m c s =
      let reply = w.answer (ascii "HGETALL" ∷ Nodes.heartbeat_key ∷ []) s in
      let (nodes, s', e, ids) =
        other_nodes_lem m.node_id (read_keys (array_or_empty reply.0)) c reply.1 in
      let local : ClusterNode = record { node_id = m.node_id; addr = m.addr; state = m.state } in
      (local ∷ nodes, s', rw e refl, ap (◌∷◌ m.node_id) ids)
