-- ===== src/Storage/Redis/Status.antt =====
-- src/storage/RedisClient.cpp: the status of a command and the set of those that wait for an answer. A
-- time `now` is in microseconds.
use iot_distributed_gateway.Common.{
  ℕ, ◌+◌, ◌/◌, Bytes, List, [], ◌∷◌, ◌++◌, Bool, true, Option, none, some, if◌then◌else◌,
}
use iot_distributed_gateway.Common.CString.{c_str}
use iot_distributed_gateway.Common.Text.{ascii}
use iot_distributed_gateway.Common.Decimal.{int64_half, parse_signed}
use iot_distributed_gateway.Gateway.Cluster.{has_no_bytes}
use iot_distributed_gateway.Storage.Redis.{
  Replies, end, element, Server, Run, ◌>>=◌, ◌>>◌, pure, redis_command, tell, pipeline,
  if_connected, text_of, string_or_empty, array_or_empty, lld,
}

abbrev pub command_key : ℕ → Bytes
command_key id = ascii "iot:cmd:" ++ lld id

abbrev pub pending_key : Bytes
pending_key = ascii "iot:cmd:pending"

-- The commands of markCommandSent: the status, and the time after which the command is late.
abbrev pub sent_words : ℕ → ℕ → List Bytes
sent_words now id =
    ascii "HSET"
    ∷ command_key id
    ∷ ascii "status"
    ∷ ascii "sent"
    ∷ ascii "sent_at"
    ∷ lld (now / 1000000)
    ∷ []

abbrev pub late_words : ℕ → ℕ → List Bytes
late_words now id = ascii "ZADD" ∷ pending_key ∷ lld (now / 1000000 + 30) ∷ lld id ∷ []

abbrev pub settled_words : ℕ → List Bytes
settled_words id = ascii "ZREM" ∷ pending_key ∷ lld id ∷ []

abbrev pub failed_words : ℕ → Bytes → List Bytes
failed_words id reason =
    ascii "HSET"
    ∷ command_key id
    ∷ ascii "status"
    ∷ ascii "failed"
    ∷ ascii "reason"
    ∷ c_str reason
    ∷ []

abbrev pub completed_words : ℕ → Bytes → List Bytes
completed_words id response =
    ascii "HSET"
    ∷ command_key id
    ∷ ascii "status"
    ∷ ascii "completed"
    ∷ ascii "response"
    ∷ c_str response
    ∷ []

-- The ids of an answer; one that is no number is an exception.
abbrev add_id : Option ℕ → Option (List ℕ) → Option (List ℕ)
add_id none ids = none
add_id (some id) none = none
add_id (some id) (some ids) = some (id ∷ ids)

unfoldable pub read_ids : Replies → Option (List ℕ)
read_ids end = some []
read_ids (element r rest) = add_id (parse_signed int64_half (text_of r)) (read_ids rest)

module _ {S : Type 0} (w : Server S) where
  unfoldable pub mark_command_sent : ℕ → ℕ → Run S Bool
  mark_command_sent now id =
      if_connected w true (do pipeline w (sent_words now id) (late_words now id); pure true)

  unfoldable pub mark_command_failed : ℕ → Bytes → Run S Bool
  mark_command_failed id reason =
      if_connected w true (do tell w (failed_words id reason); tell w (settled_words id); pure true)

  unfoldable pub mark_command_completed : ℕ → Bytes → Run S Bool
  mark_command_completed id response = if_connected w true (do
    pipeline w (completed_words id response) (settled_words id)
    tell w (ascii "EXPIRE" ∷ command_key id ∷ ascii "3600" ∷ [])
    pure true)

  unfoldable pub get_command_status : ℕ → Run S Bytes
  get_command_status id = if_connected w (ascii "unknown") (do
    reply ← redis_command w (ascii "HGET" ∷ command_key id ∷ ascii "status" ∷ [])
    let status = string_or_empty reply
    pure (if has_no_bytes status then ascii "unknown" else status))

  abbrev pub ids_returned : Option (List ℕ) → Run S (List ℕ)
  ids_returned none l = none
  ids_returned (some ids) l = some (ids, l)

  -- The parameter timeoutUs is not read.
  unfoldable pub scan_timeout_commands : ℕ → ℕ → Run S (List ℕ)
  scan_timeout_commands timeout_us now = if_connected w [] (do
    reply ←
        redis_command w
          (ascii "ZRANGEBYSCORE" ∷ pending_key ∷ ascii "-inf" ∷ lld (now / 1000000) ∷ [])
    ids_returned (read_ids (array_or_empty reply)))
