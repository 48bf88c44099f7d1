-- ===== src/Gateway/Server/Handling.antt =====
-- GatewayServer::processCommand: the ways in which a command can end.
use iot_distributed_gateway.Common.{
  ℕ, suc, ◌^◌, ◌≤◌, ◌<◌, ◌≡◌, refl, ap, ◌∙◌, bytes_eq, Bytes, bytes_test, bytes_test_iff, List, [],
  ◌∷◌, ◌++◌, true, false, none, some, arith, length, length-append, Bool-cases, Option-cases, inl,
  inr,
}
use iot_distributed_gateway.Common.Text.{ascii}
use iot_distributed_gateway.Net.Buffer.{Buffer, view, initial_size}
use iot_distributed_gateway.Net.Buffer
use iot_distributed_gateway.Protocol.Types.{QoS}
use iot_distributed_gateway.Protocol.Codec.{encode_publish}
use iot_distributed_gateway.Gateway.Devices.{find_device, find_device_node}
use iot_distributed_gateway.Gateway.Cluster.{forward_target, has_no_bytes, device_json}
use iot_distributed_gateway.Gateway.Cluster.Registry.{IsPlain, forward_target-device_json}
use iot_distributed_gateway.Gateway.Server.Commands.{
  Command, CommandAction, delivers, mark_sent, ack, publishes, mark_failed, Dispatcher, Node,
  next_packet_id, command_topic, command_connection, process_remote, process_one, process_commands,
  published,
}

-- The actions for one command: it is delivered, marked as sent and acknowledged; or published to another
-- node and acknowledged; or marked as failed, and then not acknowledged.
pub data Handled (n : Node) (cmd : Command) : List CommandAction → Type 0 where
  is_delivered :
      (conn id : ℕ)
      → command_connection n cmd ≡ some conn
      → 1 ≤ id
      → id < 2 ^ 16
      → Handled n cmd (
          delivers conn (
            view (
              encode_publish
                (command_topic cmd)
                cmd.payload
                QoS.at_least_once
                id
                false
                (Buffer.new initial_size)))
          ∷ mark_sent cmd.id
          ∷ ack cmd.stream_id
          ∷ [])
  is_forwarded :
      (target : Bytes)
      → command_connection n cmd ≡ none
      → forward_target n.linked (n.registry cmd.device_id) n.cluster ≡ some target
      → n.reaches target cmd ≡ true
      → Handled n cmd (publishes target cmd ∷ ack cmd.stream_id ∷ [])
  is_failed :
      (reason : Bytes)
      → command_connection n cmd ≡ none
      → Handled n cmd (mark_failed cmd.id reason ∷ [])
  is_unheard :
      (target reason : Bytes)
      → command_connection n cmd ≡ none
      → n.reaches target cmd ≡ false
      → Handled n cmd (publishes target cmd ∷ mark_failed cmd.id reason ∷ [])

-- One command after the other.
pub data HandledAll (n : Node) : List Command → List CommandAction → Type 0 where
  no_commands : HandledAll n [] []
  one_more :
      (cmd : Command) (cmds : List Command) (acts more : List CommandAction)
      → Handled n cmd acts
      → HandledAll n cmds more
      → HandledAll n (cmd ∷ cmds) (acts ++ more)

pub next_packet_id_bounds : (id : ℕ) → (1 ≤ next_packet_id id) × (next_packet_id id < 2 ^ 16)
unfolding next_packet_id
next_packet_id_bounds id = ground arith

published-Handled :
    (n : Node) (cmd : Command) (d : Dispatcher)
    → command_connection n cmd ≡ none
    → Handled n cmd
        (published n cmd (forward_target n.linked (n.registry cmd.device_id) n.cluster) d).1
published-Handled n cmd d c =
    elim (Option-cases (forward_target n.linked (n.registry cmd.device_id) n.cluster)) [
      | inl e ↦ rw e (is_failed (ascii "forward failed") c)
      | inr (target, e) ↦ elim (Bool-cases (n.reaches target cmd)) [
        | inl heard ↦ rw (e, heard) (is_forwarded target c e heard)
        | inr unheard ↦ rw (e, unheard) (is_unheard target (ascii "forward failed") c unheard)
      ]
    ]

process_remote-Handled :
    (n : Node) (cmd : Command) (d : Dispatcher)
    → command_connection n cmd ≡ none
    → Handled n cmd (process_remote n cmd d).1
unfolding process_remote
process_remote-Handled n cmd d c =
    let target = find_device_node n.up n.linked n.registry cmd.device_id n.devices in
    elim (Bool-cases (bytes_test target n.devices.node_id)) [
      | inl here ↦ rw (here, process_remote) (is_failed (ascii "device disconnected") c)
      | inr away ↦ elim (Bool-cases (has_no_bytes target)) [
        | inl nowhere ↦
            rw (away, process_remote) (rw nowhere (is_failed (ascii "device offline") c))
        | inr somewhere ↦ rw (away, process_remote) (rw somewhere (published-Handled n cmd d c))
      ]
    ]

process_one-Handled :
    (n : Node) (cmd : Command) (d : Dispatcher) → Handled n cmd (process_one n cmd d).1
unfolding process_one
process_one-Handled n cmd d = elim (Option-cases (command_connection n cmd)) [
  | inl e ↦ rw e (process_remote-Handled n cmd (record d { consumed = suc d.consumed }) e)
  | inr (conn, e) ↦
      let (low, high) = next_packet_id_bounds d.packet_id in
      rw e (is_delivered conn (next_packet_id d.packet_id) e low high)
]

-- Each command that is taken ends in exactly one way, in the order of the stream: delivered, marked as
-- sent and acknowledged, with an identifier from 1 to 65535; published to another node that heard it and
-- acknowledged; or marked as failed.
pub process_commands-Handled :
    (n : Node) (cmds : List Command) (d : Dispatcher)
    → HandledAll n cmds (process_commands n cmds d).1
unfolding process_commands
process_commands-Handled n [] d = no_commands
process_commands-Handled n (cmd ∷ cmds) d =
    one_more cmd cmds _ _ (process_one-Handled n cmd d)
      (process_commands-Handled n cmds (process_one n cmd d).0)

device_json-has_no_bytes :
    (node : Bytes) (now keep_alive : ℕ) → has_no_bytes (device_json node now keep_alive) ≡ false
unfolding device_json
device_json-has_no_bytes node now keep_alive = refl

length-device_json :
    (node : Bytes) (now keep_alive : ℕ) → length node < length (device_json node now keep_alive)
unfolding device_json
length-device_json node now keep_alive = omega (arith, length-append node _)

device_json-differs :
    (node : Bytes) (now keep_alive : ℕ) → bytes_test (device_json node now keep_alive) node ≡ false
device_json-differs node now keep_alive =
    elim (Bool-cases (bytes_test (device_json node now keep_alive) node)) [
      | inl e ↦ absurd (
          omega (
            arith,
            length-device_json node now keep_alive,
            ap length ((bytes_test_iff (device_json node now keep_alive) node).0 e),
          ))
      | inr e ↦ e
    ]

find_device_node-registry :
    (n : Node) (cmd : Command)
    → find_device n.up cmd.device_id n.devices ≡ none
    → n.linked ≡ true
    → find_device_node n.up n.linked n.registry cmd.device_id n.devices ≡ n.registry cmd.device_id
unfolding find_device_node
find_device_node-registry n cmd f l = rw (f, find_device_node) (rw l refl)

-- A device that is registered on this node, whose name is not empty and has no quotation mark and no NUL
-- byte, but is not connected: its command is marked as failed with
-- "forward failed", not with the "device disconnected" of the branch that is meant for it, because the
-- registry's entry is never the bare name of the node.
pub process_one-device_json :
    (n : Node) (cmd : Command) (d : Dispatcher) (now keep_alive : ℕ)
    → command_connection n cmd ≡ none
    → find_device n.up cmd.device_id n.devices ≡ none
    → n.linked ≡ true
    → n.cluster.node_id ≡ n.devices.node_id
    → IsPlain n.devices.node_id
    → has_no_bytes n.devices.node_id ≡ false
    → n.registry cmd.device_id ≡ device_json n.devices.node_id now keep_alive
    → (process_one n cmd d).1 ≡ mark_failed cmd.id (ascii "forward failed") ∷ []
unfolding process_one process_remote
process_one-device_json n cmd d now keep_alive c f l s p e r =
    let entry = device_json n.devices.node_id now keep_alive in
    let other : bytes_test entry n.devices.node_id ≡ false =
      device_json-differs n.devices.node_id now keep_alive in
    let some_bytes : has_no_bytes entry ≡ false =
      device_json-has_no_bytes n.devices.node_id now keep_alive in
    let target : forward_target true entry n.cluster ≡ none =
      forward_target-device_json n.devices.node_id now keep_alive n.cluster p e
      ∙ rw (s, (bytes_test_iff n.devices.node_id n.devices.node_id).1 refl) refl in
    let node : find_device_node n.up n.linked n.registry cmd.device_id n.devices ≡ entry =
      find_device_node-registry n cmd f l ∙ r in
    rw c (rw (node, process_remote) (rw other (rw some_bytes (rw (l, r) (rw target refl)))))
