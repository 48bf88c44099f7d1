-- ===== src/Storage/Redis/Delivery.antt =====
-- RedisClient::publishCommand and consumeCommands: the messages that the one writes are read by the other.
use iot_distributed_gateway.Common.{
  ℕ, ◌+◌, ◌<◌, Bytes, List, [], ◌∷◌, some, All, ◌≡◌, refl, arith, bytes_eq,
}
use iot_distributed_gateway.Common.CString.{c_str}
use iot_distributed_gateway.Common.Dict.{lookup, insert}
use iot_distributed_gateway.Common.Decimal.{int32_half, int64_half, parse_signed-signed_string}
use iot_distributed_gateway.Gateway.Server.Commands.{Command, command_topic}
use iot_distributed_gateway.Storage.Redis.{
  Reply, string, array, Replies, end, element, RedisClient, Server,
}
use iot_distributed_gateway.Storage.Redis.Streams.{
  command_fields, or_default, read_message, read_messages, read_words, consume_commands,
}
use iot_distributed_gateway.Storage.Redis.Shared.{live}

-- A command as publishCommand was called with it at a time, and the id that Redis gave the message.
pub record Published : Type 0 where
  pub stream_id : Bytes
  pub at : ℕ
  pub command : Command

abbrev pub strings : List Bytes → Replies
strings [] = end
strings (b ∷ rest) = element (string b) (strings rest)

-- The message as XREADGROUP lists it: its id, and the fields that XADD had.
abbrev pub message_reply : Published → Reply
message_reply p =
    array
      (element (string p.stream_id) (element (array (strings (command_fields p.at p.command))) end))

abbrev pub message_replies : List Published → Replies
message_replies [] = end
message_replies (p ∷ rest) = element (message_reply p) (message_replies rest)

abbrev pub stream_reply : Bytes → List Published → Reply
stream_reply key ps =
    array (element (array (element (string key) (element (array (message_replies ps)) end))) end)

-- The command with the id, the topic and the timeout that publishing gives it where it has none, and
-- texts up to their first NUL byte.
abbrev pub received : ℕ → Published → Command
received now p = record {
  id = or_default p.command.id p.at;
  device_id = c_str p.command.device_id;
  topic = c_str (command_topic p.command);
  payload = c_str p.command.payload;
  timeout = or_default p.command.timeout 30;
  stream_id = p.stream_id;
  created_at = now;
}

abbrev pub all_received : ℕ → List Published → List Command
all_received now [] = []
all_received now (p ∷ rest) = received now p ∷ all_received now rest

-- The numbers are machine integers.
pub record InRange (p : Published) : Type 0 where
  pub id_fits : p.command.id < int64_half + int64_half
  pub time_fits : p.at < int64_half + int64_half
  pub timeout_fits : p.command.timeout < int32_half + int32_half

read_message_lem :
    (now : ℕ) (stale : ℕ × ℕ) (p : Published)
    → InRange p
    → read_message now stale (
        element
          (string p.stream_id)
          (element (array (strings (command_fields p.at p.command))) end))
      ≡ some (received now p)
unfolding read_message command_fields insert lookup
read_message_lem now stale p r =
    let number =
      parse_signed-signed_string int64_half (or_default p.command.id p.at)
        (ground (arith, r.id_fits, r.time_fits)) in
    let timeout =
      parse_signed-signed_string int32_half (or_default p.command.timeout 30)
        (ground (arith, r.timeout_fits)) in
    rw (number, timeout) refl

read_messages_lem :
    (now : ℕ) (stale : ℕ × ℕ) (ps : List Published)
    → All InRange ps
    → read_messages now stale (message_replies ps) ≡ some (all_received now ps)
unfolding read_messages
read_messages_lem now stale [] r = refl
read_messages_lem now stale (p ∷ ps) r =
    rw (read_message_lem now stale p r.0) (rw (read_messages_lem now stale ps r.1) refl)

-- Where Redis answers XREADGROUP with messages that publishCommand wrote, consumeCommands on a connected
-- client returns their commands, in order, each with its message's id, whatever the memory held, and with
-- its texts up to their first NUL byte; an id, a topic and a timeout that were missing are those that
-- publishing filled in.
pub consume_commands-publish_command :
    {S : Type 0} (w : Server S) (c : RedisClient) (s : S) (now : ℕ) (stale : ℕ × ℕ)
    (batch_size block_ms : ℕ) (key : Bytes) (ps : List Published)
    → All InRange ps
    → (w.answer (read_words c.config batch_size block_ms) s).0 ≡ some (stream_reply key ps)
    → (s' : S) × (consume_commands w now stale batch_size block_ms (live c s)
        ≡ some (all_received now ps, live c s'))
unfolding consume_commands
consume_commands-publish_command w c s now stale batch_size block_ms key ps r a = (
  (w.answer (read_words c.config batch_size block_ms) s).1,
  rw a (rw (read_messages_lem now stale ps r) refl),
)
