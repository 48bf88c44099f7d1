-- ===== src/Gateway/Server/Enqueue.antt =====
-- GatewayServer::enqueueCommand in src/gateway/GatewayServer.cpp, and the way of a command from there through
-- the stream to a device.
use iot_distributed_gateway.Common.{
  ℕ, ◌+◌, ◌^◌, ◌≤◌, ◌<◌, ◌==◌, ◌≡◌, refl, Bytes, List, [], ◌∷◌, ◌++◌, false, some, length, arith,
}
use iot_distributed_gateway.Common.Text.{ascii}
use iot_distributed_gateway.Common.CString.{c_str, HasNoNul, c_str-append, c_str_lem}
use iot_distributed_gateway.Common.Decimal.{int64_half}
use iot_distributed_gateway.Net.Buffer.{Buffer, view, initial_size}
use iot_distributed_gateway.Net.Buffer
use iot_distributed_gateway.Net.Buffer.View.{view-new}
use iot_distributed_gateway.Net.Buffer.Space.{new-IsValid}
use iot_distributed_gateway.Protocol.Types.{QoS}
use iot_distributed_gateway.Protocol.Codec.{encode_publish, parse_bytes, Event, call, ok}
use iot_distributed_gateway.Protocol.Codec.Packets.{parse_bytes-encode_publish}
use iot_distributed_gateway.Gateway.Devices.{DeviceInfo, find_device}
use iot_distributed_gateway.Gateway.Server.{codec}
use iot_distributed_gateway.Gateway.Server.Commands.{
  Command, delivers, mark_sent, ack, Dispatcher, Node, next_packet_id, command_connection,
  process_one, command_topic,
}
use iot_distributed_gateway.Gateway.Server.Handling.{next_packet_id_bounds}
use iot_distributed_gateway.Storage.Redis.{
  Reply, string, array, end, element, RedisConfig, RedisClient, Server, Run, ◌>>=◌, pure, lld, int,
}
use iot_distributed_gateway.Storage.Redis.Streams.{
  command_fields, read_words, or_default, publish_command, consume_commands,
}
use iot_distributed_gateway.Storage.Redis.Shared.{live}
use iot_distributed_gateway.Storage.Redis.Delivery.{
  Published, InRange, strings, consume_commands-publish_command,
}
use Prim.{tt}

abbrev pub down_topic : Bytes → Bytes
down_topic device = ascii "/cmd/" ++ (device ++ ascii "/down")

abbrev pub command_payload : Bytes → Bytes → Bytes
command_payload command params =
    ascii "{\"command\":\"" ++ (command ++ (ascii "\",\"params\":" ++ (params ++ ascii "}")))

-- createdAt is not set and not read.
abbrev pub queued : ℕ → Bytes → Bytes → Bytes → Command
queued now device command params = record {
  id = now;
  device_id = device;
  topic = down_topic device;
  payload = command_payload command params;
  timeout = 30;
  stream_id = [];
  created_at = 0;
}

-- `at` is the time that publishCommand reads.
unfoldable pub enqueue_command : {S : Type 0} → Server S → ℕ → ℕ → Bytes → Bytes → Bytes → Run S ℕ
enqueue_command w now at device command params = do
  stream_id ← publish_command w at (queued now device command params)
  pure now

abbrev pub add_words : RedisConfig → List Bytes → List Bytes
add_words c fields = ascii "XADD" ∷ c_str c.stream_key ∷ ascii "*" ∷ fields

abbrev pub one_message : Bytes → Bytes → List Bytes → Reply
one_message key id fields = array (
    element
      (array (
        element (string key) (
          element
            (array
              (element (array (element (string id) (element (array (strings fields)) end))) end))
            end)))
      end)

abbrev pub flat : List (Bytes × Bytes) → List Bytes
flat [] = []
flat ((field, value) ∷ rest) = field ∷ value ∷ flat rest

-- What XADD wrote, one pair of field and value or more, the next XREADGROUP of a consumer answers, alone.
abbrev pub Carries :
    {S : Type 0} → Server S → RedisConfig → RedisConfig → ℕ → ℕ → S → Bytes → Bytes → Type 0
Carries w sender reader batch_size block_ms s key id =
    (first : Bytes × Bytes) (rest : List (Bytes × Bytes))
    → (w.answer (read_words reader batch_size block_ms)
        (w.answer (add_words sender (flat (first ∷ rest))) s).1).0
      ≡ some (one_message key id (flat (first ∷ rest)))

-- A PUBLISH to a device, as the device reads it, whatever comes behind it.
abbrev pub Reads : Bytes → Bytes → Bytes → ℕ → Type 0
Reads packet topic payload id =
    (rest : Bytes)
    → parse_bytes codec (packet ++ rest)
      ≡ some (record {
        result = ok;
        event = call codec (Event.publish_cb topic payload QoS.at_least_once false id);
        total_len = length packet;
      })

-- Topic and payload of texts without NUL bytes are written whole.
c_str_topic : (device : Bytes) → HasNoNul device → c_str (down_topic device) ≡ down_topic device
c_str_topic device h = rw (c_str-append device (ascii "/down") h) refl

c_str_payload :
    (command params : Bytes)
    → HasNoNul command × HasNoNul params
    → c_str (command_payload command params) ≡ command_payload command params
c_str_payload command params (h, k) =
    rw (c_str-append command (ascii "\",\"params\":" ++ (params ++ ascii "}")) h)
      (rw (c_str-append params (ascii "}") k) refl)

module _ {S : Type 0} (w : Server S) (sender reader : RedisClient) (s : S) (n : Node)
    (d : Dispatcher) (now at later : ℕ) (stale : ℕ × ℕ) (batch_size block_ms : ℕ)
    (key stream_id : Bytes) (device command params : Bytes) (conn : ℕ) where
  enqueued_lem :
      enqueue_command w now at device command params (live sender s)
      ≡ some (
        now,
        live sender
            (w.answer
              (add_words sender.config (command_fields at (queued now device command params)))
              s).1,
      )
  unfolding enqueue_command publish_command
  enqueued_lem = refl

  -- The fields of the command's message are pairs.
  carried :
      Carries w sender.config reader.config batch_size block_ms s key stream_id
      → let fields = command_fields at (queued now device command params) in
        (w.answer
          (read_words reader.config batch_size block_ms)
          (w.answer (add_words sender.config fields) s).1).0
        ≡ some (one_message key stream_id fields)
  unfolding command_fields command_topic
  carried carries =
      carries (ascii "id", lld (or_default now at))
        ((ascii "device_id", c_str device)
          ∷ (ascii "topic", c_str (down_topic device))
          ∷ (ascii "payload", c_str (command_payload command params))
          ∷ (ascii "timeout", int 30)
          ∷ (ascii "created_at", lld at)
          ∷ [])

  consumed_lem :
      Carries w sender.config reader.config batch_size block_ms s key stream_id
      → HasNoNul device × HasNoNul command × HasNoNul params
      → 1 ≤ now
      → now < int64_half
      → at < int64_half
      → let cmd = record (queued now device command params) {
        stream_id = stream_id;
        created_at = later;
      } in
        let s' =
          (w.answer
            (add_words sender.config (command_fields at (queued now device command params)))
            s).1 in
        (s'' : S) × (consume_commands w later stale batch_size block_ms (live reader s')
          ≡ some (cmd ∷ [], live reader s''))
  unfolding command_topic
  consumed_lem carries whole some_time fits at_fits =
      let cmd : Command = queued now device command params in
      let p : Published = record { stream_id = stream_id; at = at; command = cmd } in
      let given : (now == 0) ≡ false = ground arith in
      let in_range : InRange p = record {
        id_fits = omega arith;
        time_fits = omega arith;
        timeout_fits = omega arith;
      } in
      let (s'', e) =
        consume_commands-publish_command w reader _ later stale batch_size block_ms key (p ∷ [])
          (in_range, tt) (carried carries) in
      (
        s'',
        rw
            (
              given,
              c_str_lem device whole.0,
              c_str_topic device whole.0,
              c_str_payload command params (whole.1, whole.2),
            )
            at e,
      )

  -- The packet that processCommand sends for a command that was taken.
  delivered_lem :
      (cmd : Command)
      → command_connection n cmd ≡ some conn
      → cmd.topic ≡ down_topic device
      → length (down_topic device) < 2 ^ 16
      → 4 + length (down_topic device) + length cmd.payload < 2 ^ 28
      → (packet : Bytes) × (id : ℕ) × ((process_one n cmd d).1
          ≡ delivers conn packet ∷ mark_sent cmd.id ∷ ack cmd.stream_id ∷ [])
        × (1 ≤ id)
        × Reads packet (down_topic device) cmd.payload id
  unfolding process_one command_topic
  delivered_lem cmd found topic short small =
      let id = next_packet_id d.packet_id in
      let (low, high) = next_packet_id_bounds d.packet_id in
      (
        view (
            encode_publish (down_topic device) cmd.payload QoS.at_least_once id false
              (Buffer.new initial_size)),
        id,
        rw (found, topic) refl,
        low,
        λ rest.
            parse_bytes-encode_publish codec (down_topic device) cmd.payload rest QoS.at_least_once
              id false (Buffer.new initial_size) (new-IsValid initial_size) (view-new initial_size)
              short (omega arith) high,
      )

  -- A command of texts without NUL bytes that enqueueCommand put in the stream, with a positive time as its
  -- id, is taken by a node that reads the stream next, where Redis carries messages. If the device is on line there at a connection, and
  -- topic and payload fit a packet, the node sends that connection a PUBLISH that is read as one of the topic
  -- /cmd/<device>/down and of the JSON of command and parameters, with a positive identifier, marks the
  -- command under the id that enqueueCommand returned as sent, and acknowledges the message.
  pub process_one-enqueue_command :
      Carries w sender.config reader.config batch_size block_ms s key stream_id
      → HasNoNul device × HasNoNul command × HasNoNul params
      → 1 ≤ now
      → now < int64_half
      → at < int64_half
      → (info : DeviceInfo) → find_device n.up device n.devices ≡ some info
      → info.connection ≡ some conn
      → length (down_topic device) < 2 ^ 16
      → 4 + length (down_topic device) + length (command_payload command params) < 2 ^ 28
      → (s' s'' : S) × (cmd : Command) × (packet : Bytes) × (id : ℕ) × (enqueue_command w now at
            device command params
            (live sender s)
          ≡ some (now, live sender s'))
        × (consume_commands w later stale batch_size block_ms (live reader s')
            ≡ some (cmd ∷ [], live reader s''))
        × ((process_one n cmd d).1 ≡ delivers conn packet ∷ mark_sent now ∷ ack stream_id ∷ [])
        × (1 ≤ id)
        × Reads packet (down_topic device) (command_payload command params) id
  unfolding command_connection
  process_one-enqueue_command carries whole some_time fits at_fits info found on_line short small =
      let cmd : Command = record (queued now device command params) {
        stream_id = stream_id;
        created_at = later;
      } in
      let (s'', taken) = consumed_lem carries whole some_time fits at_fits in
      let (packet, id, acts, low, reads) = delivered_lem cmd (rw found on_line) refl short small in
      (_, s'', cmd, packet, id, enqueued_lem, taken, acts, low, reads)
