-- ===== src/Gateway/Server/Commands.antt =====
-- src/gateway/GatewayServer.cpp: the commands that a node takes from its stream. What Redis answers is an
-- argument; what is told to Redis is an action.
use iot_distributed_gateway.Common.{
  ℕ, suc, ◌+◌, ◌%◌, ◌^◌, ◌==◌, Bytes, bytes_test, List, [], ◌∷◌, ◌++◌, Bool, true, false, Option,
  none, some, if◌then◌else◌, length,
}
use iot_distributed_gateway.Common.Text.{ascii}
use iot_distributed_gateway.Net.Buffer.{Buffer, view, initial_size}
use iot_distributed_gateway.Net.Buffer
use iot_distributed_gateway.Protocol.Types.{QoS}
use iot_distributed_gateway.Protocol.Codec.{encode_publish}
use iot_distributed_gateway.Gateway.Devices.{
  DeviceManager, DeviceInfo, find_device, find_device_node,
}
use iot_distributed_gateway.Gateway.Cluster.{
  ClusterManager, update_local_stats, forward_target, has_no_bytes,
}

pub record Command : Type 0 where
  pub id : ℕ
  pub device_id : Bytes
  pub topic : Bytes
  pub payload : Bytes
  pub timeout : ℕ
  pub stream_id : Bytes
  pub created_at : ℕ

pub data CommandAction : Type 0 where
  delivers : ℕ → Bytes → CommandAction
  mark_sent : ℕ → CommandAction
  ack : Bytes → CommandAction
  publishes : Bytes → Command → CommandAction
  mark_failed : ℕ → Bytes → CommandAction

-- s_packetId and the two counters.
pub record Dispatcher : Type 0 where
  pub packet_id : ℕ
  pub consumed : ℕ
  pub forwarded : ℕ

-- The node, which connections are up, whether Redis is connected, its registry of devices, and whether
-- a published command reaches a subscriber.
pub record Node : Type 0 where
  pub devices : DeviceManager
  pub cluster : ClusterManager
  pub up : ℕ → Bool
  pub linked : Bool
  pub registry : Bytes → Bytes
  pub reaches : Bytes → Command → Bool

abbrev pub Step : Type 0
Step = Dispatcher × List CommandAction

-- A uint16_t that skips 0.
unfoldable pub next_packet_id : ℕ → ℕ
next_packet_id id = let next = (id + 1) % 2 ^ 16 in if next == 0 then (next + 1) % 2 ^ 16 else next

unfoldable pub command_topic : Command → Bytes
command_topic cmd =
    if has_no_bytes cmd.topic then ascii "/cmd/" ++ (cmd.device_id ++ ascii "/down") else cmd.topic

abbrev pub deliver : Command → ℕ → Dispatcher → Step
deliver cmd conn d =
    let id = next_packet_id d.packet_id in
    (
      record d { packet_id = id },
      delivers conn (
            view (
              encode_publish (command_topic cmd) cmd.payload QoS.at_least_once id false
                (Buffer.new initial_size)))
          ∷ mark_sent cmd.id
          ∷ ack cmd.stream_id
          ∷ [],
    )

abbrev connected_device : Option DeviceInfo → Option ℕ
connected_device none = none
connected_device (some info) = info.connection

-- The connection that a command for a device goes out on; a device that is found is on line.
unfoldable pub command_connection : Node → Command → Option ℕ
command_connection n cmd = connected_device (find_device n.up cmd.device_id n.devices)

abbrev delivered : Command → Option ℕ → Dispatcher → Bool × Step
delivered cmd none d = (false, (d, []))
delivered cmd (some conn) d = (true, deliver cmd conn d)

unfoldable pub send_command_to_device : Node → Command → Dispatcher → Bool × Step
send_command_to_device n cmd d = delivered cmd (command_connection n cmd) d

abbrev pub failed : Command → Bytes → List CommandAction
failed cmd reason = mark_failed cmd.id reason ∷ []

abbrev pub published : Node → Command → Option Bytes → Dispatcher → Step
published n cmd none d = (d, failed cmd (ascii "forward failed"))
published n cmd (some target) d =
    if n.reaches target cmd
    then (record d { forwarded = suc d.forwarded }, publishes target cmd ∷ ack cmd.stream_id ∷ [])
    else (d, publishes target cmd ∷ failed cmd (ascii "forward failed"))

-- The branch of processCommand for a device that is not on line here.
unfoldable pub process_remote : Node → Command → Dispatcher → Step
process_remote n cmd d =
    let target = find_device_node n.up n.linked n.registry cmd.device_id n.devices in
    if bytes_test target n.devices.node_id
    then (d, failed cmd (ascii "device disconnected"))
    else if has_no_bytes target
    then (d, failed cmd (ascii "device offline"))
    else published n cmd (forward_target n.linked (n.registry cmd.device_id) n.cluster) d

abbrev processed : Node → Command → Option ℕ → Dispatcher → Step
processed n cmd none d = process_remote n cmd d
processed n cmd (some conn) d = deliver cmd conn d

-- One round of the loop of processCommand.
unfoldable pub process_one : Node → Command → Dispatcher → Step
process_one n cmd d =
    processed n cmd (command_connection n cmd) (record d { consumed = suc d.consumed })

unfoldable pub process_commands : Node → List Command → Dispatcher → Step
process_commands n [] d = (d, [])
process_commands n (cmd ∷ cmds) d =
    let (d', acts) = process_one n cmd d in
    let (d'', more) = process_commands n cmds d' in (d'', acts ++ more)

-- `cmds` is what RedisClient::consumeCommands answers.
unfoldable pub process_command : Bool → Node → List Command → Dispatcher → ClusterManager × Step
unfolding process_commands
process_command false n cmds d = (n.cluster, (d, []))
process_command true n [] d = (n.cluster, (d, []))
process_command true n (cmd ∷ cmds) d =
    let (d', acts) = process_commands n (cmd ∷ cmds) d in
    (update_local_stats (length n.devices.devices) d'.consumed n.cluster, (d', acts))

-- processCrossNodeCommand.
unfoldable pub process_cross_node_command : Node → Command → Dispatcher → Step
process_cross_node_command n cmd d = (send_command_to_device n cmd d).1
