-- ===== src/Storage/Redis/Streams.antt =====
-- src/storage/RedisClient.cpp: the stream of commands and its consumer group. A command's id and timeout are
-- not set where the message has no such field; `stale` is what the memory held.
use iot_distributed_gateway.Common.{
  ℕ, ◌==◌, Bytes, bytes_eq, List, [], ◌∷◌, Bool, true, false, Option, none, some, if◌then◌else◌,
}
use iot_distributed_gateway.Common.CString.{c_str}
use iot_distributed_gateway.Common.Text.{ascii}
use iot_distributed_gateway.Common.Dict.{lookup, insert}
use iot_distributed_gateway.Common.Decimal.{int32_half, int64_half, parse_signed}
use iot_distributed_gateway.Gateway.Cluster.{behind}
use iot_distributed_gateway.Gateway.Server.Commands.{Command, command_topic}
use iot_distributed_gateway.Storage.Redis.{
  Reply, string, status, error, integer, nil, array, Replies, end, element, RedisConfig, Server,
  Run, ◌>>=◌, pure, redis_command, if_connected, reconnect, text_of, elements, count_of,
  string_or_empty, integer_or_zero, array_or_empty, is_positive, lld, int,
}

abbrev is_found : Option Bytes → Bool
is_found none = false
is_found (some rest) = true

-- strstr for BUSYGROUP.
abbrev group_ready : Option Reply → Bool
group_ready none = false
group_ready (some (error text)) = is_found (behind (ascii "BUSYGROUP") text)
group_ready (some (string b)) = true
group_ready (some (status b)) = true
group_ready (some (integer n)) = true
group_ready (some nil) = true
group_ready (some (array rs)) = true

-- The loop over the fields of a message; a key without a value is left.
unfoldable pub read_fields : Replies → List (Bytes × Bytes) → List (Bytes × Bytes)
read_fields end m = m
read_fields (element key end) m = m
read_fields (element key (element value rest)) m =
    read_fields rest (insert (text_of key) (text_of value) m)

abbrev text_or_empty : Option Bytes → Bytes
text_or_empty none = []
text_or_empty (some b) = b

abbrev number_or : ℕ → ℕ → Option Bytes → Option ℕ
number_or half old none = some old
number_or half old (some text) = parse_signed half text

abbrev filled : ℕ → Bytes → List (Bytes × Bytes) → Option ℕ → Option ℕ → Option Command
filled now id m none timeout = none
filled now id m (some number) none = none
filled now id m (some number) (some timeout) = some (record {
  id = number;
  device_id = text_or_empty (lookup (ascii "device_id") m);
  topic = text_or_empty (lookup (ascii "topic") m);
  payload = text_or_empty (lookup (ascii "payload") m);
  timeout = timeout;
  stream_id = id;
  created_at = now;
})

unfoldable pub make_command : ℕ → ℕ × ℕ → Bytes → List (Bytes × Bytes) → Option Command
make_command now stale id m =
    filled now id m (number_or int64_half stale.0 (lookup (ascii "id") m))
      (number_or int32_half stale.1 (lookup (ascii "timeout") m))

-- A message is its id and its fields; fewer elements are read past the end.
unfoldable pub read_message : ℕ → ℕ × ℕ → Replies → Option Command
unfolding make_command read_fields
read_message now stale end = none
read_message now stale (element id end) = none
read_message now stale (element id (element fields rest)) =
    make_command now stale (text_of id) (read_fields (elements fields) [])

abbrev both : Option Command → Option (List Command) → Option (List Command)
both none rest = none
both (some c) none = none
both (some c) (some cs) = some (c ∷ cs)

unfoldable pub read_messages : ℕ → ℕ × ℕ → Replies → Option (List Command)
read_messages now stale end = some []
read_messages now stale (element msg rest) =
    both (read_message now stale (elements msg)) (read_messages now stale rest)

-- The first stream of the answer: its key and its messages.
abbrev stream_messages : Replies → Replies
stream_messages end = end
stream_messages (element key end) = end
stream_messages (element key (element msgs rest)) = elements msgs

abbrev first_stream : Replies → Replies
first_stream end = end
first_stream (element stream rest) = stream_messages (elements stream)

abbrev pub or_default : ℕ → ℕ → ℕ
or_default n other = if n == 0 then other else n

-- The fields of the XADD that publishes a command.
unfoldable pub command_fields : ℕ → Command → List Bytes
unfolding command_topic
command_fields ts cmd =
    ascii "id"
    ∷ lld (or_default cmd.id ts)
    ∷ ascii "device_id"
    ∷ c_str cmd.device_id
    ∷ ascii "topic"
    ∷ c_str (command_topic cmd)
    ∷ ascii "payload"
    ∷ c_str cmd.payload
    ∷ ascii "timeout"
    ∷ int (or_default cmd.timeout 30)
    ∷ ascii "created_at"
    ∷ lld ts
    ∷ []

abbrev pub read_words : RedisConfig → ℕ → ℕ → List Bytes
read_words c batch_size block_ms =
    ascii "XREADGROUP"
    ∷ ascii "GROUP"
    ∷ c_str c.consumer_group
    ∷ c_str c.consumer_name
    ∷ ascii "COUNT"
    ∷ int batch_size
    ∷ ascii "BLOCK"
    ∷ int block_ms
    ∷ ascii "STREAMS"
    ∷ c_str c.stream_key
    ∷ ascii ">"
    ∷ []

module _ {S : Type 0} (w : Server S) where
  unfoldable pub init_consumer_group : Run S Bool
  init_consumer_group l =
      let c = l.client.config in
      if_connected w false
        (do
          reply ← redis_command w (
              ascii "XGROUP"
              ∷ ascii "CREATE"
              ∷ c_str c.stream_key
              ∷ c_str c.consumer_group
              ∷ ascii "$"
              ∷ ascii "MKSTREAM"
              ∷ [])
          pure (group_ready reply))
        l

  abbrev pub returned : Option (List Command) → Run S (List Command)
  returned none l = none
  returned (some cs) l = some (cs, l)

  abbrev pub consumed : ℕ → ℕ × ℕ → Option Reply → Run S (List Command)
  consumed now stale none = do _ ← reconnect w; pure []
  consumed now stale (some reply) =
      returned (read_messages now stale (first_stream (elements reply)))

  unfoldable pub consume_commands : ℕ → ℕ × ℕ → ℕ → ℕ → Run S (List Command)
  consume_commands now stale batch_size block_ms l =
      let c = l.client.config in
      if_connected w []
        (do reply ← redis_command w (read_words c batch_size block_ms); consumed now stale reply) l

  unfoldable pub ack_command : Bytes → Run S Bool
  ack_command stream_id l =
      let c = l.client.config in
      if_connected w false
        (do
          reply ←
              redis_command w
                (ascii "XACK" ∷ c_str c.stream_key ∷ c_str c.consumer_group ∷ c_str stream_id ∷ [])
          pure (is_positive (integer_or_zero reply)))
        l

  unfoldable pub pending_count : Run S ℕ
  pending_count l =
      let c = l.client.config in
      if_connected w 0
        (do
          reply ← redis_command w (
              ascii "XPENDING"
              ∷ c_str c.stream_key
              ∷ c_str c.consumer_group
              ∷ ascii "-"
              ∷ ascii "+"
              ∷ ascii "1000"
              ∷ [])
          pure (count_of (array_or_empty reply)))
        l

  unfoldable pub publish_command : ℕ → Command → Run S Bytes
  unfolding command_fields
  publish_command ts cmd l =
      let c = l.client.config in
      if_connected w []
        (do
          reply ←
              redis_command w
                (ascii "XADD" ∷ c_str c.stream_key ∷ ascii "*" ∷ command_fields ts cmd)
          pure (string_or_empty reply))
        l

  unfoldable pub stream_length : Run S ℕ
  stream_length l =
      if_connected w 0
        (do
          reply ← redis_command w (ascii "XLEN" ∷ c_str l.client.config.stream_key ∷ [])
          pure (integer_or_zero reply))
        l
