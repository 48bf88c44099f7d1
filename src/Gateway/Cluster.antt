-- ===== src/Gateway/Cluster.antt =====
-- src/gateway/ClusterManager.h and src/gateway/ClusterManager.cpp: membership, discovery and forwarding. What
-- Redis answers is an argument, `none` where there is no connection.
pub mod Discovery
pub mod Registry
pub mod Nodes
mod Tests
use iot_distributed_gateway.Common.{
  ℕ, suc, ◌+◌, ◌*◌, ◌/◌, ◌==◌, Bytes, bytes_test, List, [], ◌∷◌, ◌++◌, Bool, true, false, not, ◌&&◌,
  ◌||◌, Option, none, some, if◌then◌else◌, length,
}
use iot_distributed_gateway.Common.StringSet.{contains}
use iot_distributed_gateway.Common.Text.{ascii, to_string}

pub data NodeState : Type 0 where
  starting online degraded offline : NodeState

-- localNode_ is spread out: its addr, ports, state and last heartbeat.
pub record ClusterManager : Type 0 where
  pub node_id : Bytes
  pub addr : Bytes
  pub mqtt_port : ℕ
  pub api_port : ℕ
  pub state : NodeState
  pub last_heartbeat : ℕ
  pub joined : Bool
  pub known_nodes : List Bytes
  pub local_device_count : ℕ
  pub local_cmd_consumed : ℕ

pub record ClusterStats : Type 0 where
  pub total_nodes : ℕ
  pub online_nodes : ℕ
  pub total_devices : ℕ
  pub pending_commands : ℕ
  pub uptime_seconds : ℕ

pub data Action : Type 0 where
  register_node send_node_heartbeat : Action
  node_change : Bytes → Bool → Action
  stop_heartbeat stop_failure_detection : Action
  forget_node forget_heartbeat : Action
  claim_pending : Bytes → Action

abbrev pub Step : Type 0
Step = ClusterManager × List Action

unfoldable pub init : ℕ → Bytes → Bytes → ℕ → ℕ → ClusterManager → ClusterManager
init now node addr mqtt_port api_port m = record m {
  node_id = node;
  addr = addr;
  mqtt_port = mqtt_port;
  api_port = api_port;
  state = starting;
  last_heartbeat = now;
}

-- The loops of discoverNodes: the nodes of one list, other than this one, that another list lacks.
unfoldable pub missing : Bytes → List Bytes → List Bytes → List Bytes
missing self [] others = []
missing self (id ∷ ids) others =
    if bytes_test id self || contains id others
    then missing self ids others
    else id ∷ missing self ids others

abbrev pub notices : Bool → List Bytes → List Action
notices up [] = []
notices up (id ∷ ids) = node_change id up ∷ notices up ids

unfoldable pub discover_nodes : Option (List Bytes) → ClusterManager → Step
discover_nodes none m = (m, [])
discover_nodes (some alive) m = (
  record m { known_nodes = alive },
  notices true (missing m.node_id alive m.known_nodes)
      ++ notices false (missing m.node_id m.known_nodes alive),
)

-- Without a connection a node that is on line is degraded, and with one it is on line again.
abbrev degrades : NodeState → NodeState
degrades starting = starting
degrades online = degraded
degrades degraded = degraded
degrades offline = offline

abbrev recovers : NodeState → NodeState
recovers starting = starting
recovers online = online
recovers degraded = online
recovers offline = offline

-- `answer` is RedisClient::sendNodeHeartbeat.
unfoldable pub send_heartbeat : ℕ → Option Bool → ClusterManager → Bool × Step
send_heartbeat now none m = (false, (record m { state = degrades m.state }, []))
send_heartbeat now (some answer) m = (
  answer,
  (
    record m {
      state = recovers m.state;
      last_heartbeat = if answer then now else m.last_heartbeat;
    },
    send_node_heartbeat ∷ [],
  ),
)

-- `registered` and `sent` are RedisClient::registerNode and RedisClient::sendNodeHeartbeat.
unfoldable pub join : ℕ → Bool → Bool → Option (List Bytes) → ClusterManager → Bool × Step
unfolding send_heartbeat discover_nodes
join now registered sent alive m = if m.joined then (true, (m, [])) else elim alive [
  | none ↦ (false, (m, []))
  | some ids ↦
      if registered
      then (let (beaten, (m', acts)) = send_heartbeat now (some sent) m in
          (let (m'', notices') = discover_nodes (some ids) m' in
            (
              true,
              (
                record m'' { state = online; joined = true },
                (register_node ∷ []) ++ (acts ++ notices'),
              ),
            )))
      else (false, (m, register_node ∷ []))
]

unfoldable pub leave : Bool → ClusterManager → Step
leave linked m =
    if m.joined
    then (
      record m { state = offline; joined = false },
      stop_heartbeat
          ∷ stop_failure_detection
          ∷ (if linked then forget_node ∷ forget_heartbeat ∷ [] else []),
    )
    else (m, [])

unfoldable pub update_local_stats : ℕ → ℕ → ClusterManager → ClusterManager
update_local_stats device_count cmd_consumed m = record m {
  local_device_count = device_count;
  local_cmd_consumed = cmd_consumed;
}

unfoldable pub detect_failed_nodes : Option (List Bytes) → ClusterManager → List Bytes
detect_failed_nodes none m = []
detect_failed_nodes (some alive) m = missing m.node_id m.known_nodes alive

-- The timer of startFailureDetection; claimPendingMessages asks for the pending messages and claims none.
unfoldable pub check_failures : Option (List Bytes) → ClusterManager → Step
unfolding discover_nodes detect_failed_nodes
check_failures alive m =
    let (m', acts) = discover_nodes alive m in (m', claims (detect_failed_nodes alive m) ++ acts)
  where
    claims : List Bytes → List Action
    claims [] = []
    claims (id ∷ ids) = claim_pending id ∷ claims ids

-- `answers` are deviceCount and pendingCount.
unfoldable pub get_stats : Option (ℕ × ℕ) → ClusterManager → ClusterStats
get_stats none m = record {
  total_nodes = 1;
  online_nodes = if m.joined then 1 else 0;
  total_devices = m.local_device_count;
  pending_commands = 0;
  uptime_seconds = 0;
}
get_stats (some answers) m = record {
  total_nodes = length m.known_nodes + 1;
  online_nodes = length m.known_nodes + (if m.joined then 1 else 0);
  total_devices = answers.0;
  pending_commands = answers.1;
  uptime_seconds = 0;
}

-- The rest of a text behind a prefix.
unfoldable pub strip : Bytes → Bytes → Option Bytes
strip [] text = some text
strip (x ∷ xs) [] = none
strip (x ∷ xs) (y ∷ ys) = if x == y then strip xs ys else none

abbrev or_else : Option Bytes → Option Bytes → Option Bytes
or_else (some a) o = some a
or_else none o = o

-- std::string::find: the text behind the first place where the pattern stands.
unfoldable pub behind : Bytes → Bytes → Option Bytes
behind pattern' [] = strip pattern' []
behind pattern' (x ∷ xs) = or_else (strip pattern' (x ∷ xs)) (behind pattern' xs)

abbrev put_back : ℕ → Option Bytes → Option Bytes
put_back x none = none
put_back x (some xs) = some (x ∷ xs)

-- The text up to the next quotation mark.
unfoldable pub up_to_quote : Bytes → Option Bytes
up_to_quote [] = none
up_to_quote (x ∷ xs) = if x == 34 then some [] else put_back x (up_to_quote xs)

abbrev or_empty : Option Bytes → Bytes
or_empty none = []
or_empty (some a) = a

abbrev pub quoted : Option Bytes → Bytes
quoted none = []
quoted (some rest) = or_empty (up_to_quote rest)

unfoldable pub extract_json_field : Bytes → Bytes → Bytes
extract_json_field json key = quoted (behind (34 ∷ (key ++ ascii "\":\"")) json)

-- RedisClient::registerDevice, as far as its text fits the 512 bytes of its array.
unfoldable pub device_json : Bytes → ℕ → ℕ → Bytes
device_json node now keep_alive =
    ascii "{\"gateway\":\""
    ++ (node
        ++ (ascii "\",\"heartbeat\":"
            ++ (to_string (now / 1000000)
                ++ (ascii ",\"keepalive\":" ++ (to_string keep_alive ++ ascii "}")))))

abbrev pub has_no_bytes : Bytes → Bool
has_no_bytes [] = true
has_no_bytes (x ∷ xs) = false

-- The node that a command is published to; `none` is that nothing is published. `entry` is the answer
-- of RedisClient::getDeviceGateway.
unfoldable pub forward_target : Bool → Bytes → ClusterManager → Option Bytes
unfolding extract_json_field
forward_target linked entry m =
    if not linked
    then none
    else if has_no_bytes entry
    then none
    else (let parsed = extract_json_field entry (ascii "gateway") in
        (let target = if has_no_bytes parsed then entry else parsed in
          (if bytes_test target m.node_id then none else some target)))
