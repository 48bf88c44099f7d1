-- ===== src/Storage/Redis/Methods.antt =====
-- The methods of RedisClient in src/storage/RedisClient.cpp, and what each leaves of the connection.
use iot_distributed_gateway.Common.{
  ℕ, Bytes, List, [], Bool, true, false, Option, none, some, ◌≡◌, refl, sym, ap, ◌∙◌,
}
use iot_distributed_gateway.Gateway.Server.Commands.{Command}
use iot_distributed_gateway.Storage.Redis.{
  Reply, string, status, error, integer, nil, array, RedisClient, Server, Link, Run, ◌>>=◌, ◌>>◌,
  pure, asked, redis_command, tell, pipeline, guarded, if_connected, disconnect, connect, reconnect,
}
use iot_distributed_gateway.Storage.Redis.Streams.{
  init_consumer_group, consume_commands, consumed, returned, ack_command, pending_count,
  publish_command, stream_length,
}
use iot_distributed_gateway.Storage.Redis.Status.{
  mark_command_sent, mark_command_failed, mark_command_completed, get_command_status,
  scan_timeout_commands, ids_returned,
}
use iot_distributed_gateway.Storage.Redis.Registry.{
  renew_heartbeat, register_device, unregister_device, get_device_gateway, get_all_devices,
  device_count, update_device_heartbeat, cache_telemetry, write_back, renew,
}
use iot_distributed_gateway.Storage.Redis.Nodes.{
  register_node, send_node_heartbeat, get_online_nodes, get_node_info, publish_to_node,
  consumer_group_info, send_command, sent, subscribe_route_channel, subscribed,
}
use Prim.{Unit, tt}
use iot_distributed_gateway.Storage.Redis.Keeps.{
  Ends, SameClient, Keeps, continue-Ends, >>=-Keeps, pure-Keeps, redis_command-Keeps,
  if_connected-Keeps, asks-Keeps, tell-Keeps, pipeline-Keeps,
}
use iot_distributed_gateway.Storage.Redis.Lifecycle.{
  Settles, IsSettled, connect-Settles, reconnect-Settles,
}

-- Every method of the client, with its arguments.
pub data Call : Type 0 where
  connects reconnects disconnects : Call
  subscribes : Bytes → Call
  sets_up : Call
  consumes : ℕ → ℕ × ℕ → ℕ → ℕ → Call
  acks : Bytes → Call
  counts_pending : Call
  publishes : ℕ → Command → Call
  measures : Call
  marks_sent : ℕ → ℕ → Call
  marks_failed : ℕ → Bytes → Call
  marks_completed : ℕ → Bytes → Call
  asks_status : ℕ → Call
  scans : ℕ → ℕ → Call
  registers_device : ℕ → Bytes → Bytes → ℕ → Call
  unregisters_device : Bytes → Call
  finds_device : Bytes → Call
  lists_devices : Call
  counts_devices : Call
  beats : ℕ → Bytes → Call
  caches : Bytes → Bytes → Bytes → Call
  registers_node : ℕ → Bytes → Bytes → ℕ → ℕ → Call
  sends_heartbeat : Bytes → Call
  lists_nodes : Call
  asks_node : Bytes → Call
  routes : Bytes → Command → Call
  asks_groups : Call
  sends : List Bytes → Call

abbrev drop_answer : {S A : Type 0} → Run S A → Run S (Unit {0})
drop_answer m = m >>= λ _. pure tt

module _ {S : Type 0} (w : Server S) where
  unfoldable pub perform : Call → Run S (Unit {0})
  perform connects = drop_answer (connect w)
  perform reconnects = drop_answer (reconnect w)
  perform disconnects = λ l. some (tt, disconnect w l)
  perform (subscribes node) = λ l. some (tt, (subscribe_route_channel w node l).1)
  perform sets_up = drop_answer (init_consumer_group w)
  perform (consumes a b c d) = drop_answer (consume_commands w a b c d)
  perform (acks a) = drop_answer (ack_command w a)
  perform counts_pending = drop_answer (pending_count w)
  perform (publishes a b) = drop_answer (publish_command w a b)
  perform measures = drop_answer (stream_length w)
  perform (marks_sent a b) = drop_answer (mark_command_sent w a b)
  perform (marks_failed a b) = drop_answer (mark_command_failed w a b)
  perform (marks_completed a b) = drop_answer (mark_command_completed w a b)
  perform (asks_status a) = drop_answer (get_command_status w a)
  perform (scans a b) = drop_answer (scan_timeout_commands w a b)
  perform (registers_device a b c d) = drop_answer (register_device w a b c d)
  perform (unregisters_device a) = drop_answer (unregister_device w a)
  perform (finds_device a) = drop_answer (get_device_gateway w a)
  perform lists_devices = drop_answer (get_all_devices w)
  perform counts_devices = drop_answer (device_count w)
  perform (beats a b) = drop_answer (update_device_heartbeat w a b)
  perform (caches a b c) = drop_answer (cache_telemetry w a b c)
  perform (registers_node a b c d e) = drop_answer (register_node w a b c d e)
  perform (sends_heartbeat a) = drop_answer (send_node_heartbeat w a)
  perform lists_nodes = drop_answer (get_online_nodes w)
  perform (asks_node a) = drop_answer (get_node_info w a)
  perform (routes a b) = drop_answer (publish_to_node w a b)
  perform asks_groups = drop_answer (consumer_group_info w)
  perform (sends a) = drop_answer (send_command w a)

-- Where a method may fail to return although the client has a context: an answer that is out of shape or
-- no number, an answer freed twice; and where the method has no guard.
unfoldable pub MayFail : Call → Type 0
MayFail (consumes now stale batch_size block_ms) = Unit {0}
MayFail (scans timeout now) = Unit {0}
MayFail (marks_sent now id) = Unit {0}
MayFail (marks_completed id response) = Unit {0}
MayFail (sends_heartbeat node) = Unit {0}
MayFail lists_devices = Unit {0}
MayFail lists_nodes = Unit {0}
MayFail other = ⊥

module _ {S : Type 0} (w : Server S) (F : Type 0) where
  settled :
      {A : Type 0} (a : A) (l l1 : Link S)
      → l.client.connected ≡ l.client.conn
      → SameClient l.client a l1
      → IsSettled a l1
  settled a l l1 h e =
      ap (λ (c : RedisClient). c.connected) e ∙ h ∙ sym (ap (λ (c : RedisClient). c.conn) e)

  dropped_Settles :
      (m : Run S Bool) (l : Link S) → Ends F Settles (m l) → Ends F IsSettled (drop_answer m l)
  dropped_Settles m l h =
      continue-Ends F Settles IsSettled (m l) (λ _. pure tt) h (λ b l1 e. e.0 ∙ sym e.1)

  dropped :
      {A : Type 0} (m : Run S A) (l : Link S)
      → l.client.connected ≡ l.client.conn
      → Ends F (SameClient l.client) (m l)
      → Ends F IsSettled (drop_answer m l)
  dropped m l h k =
      continue-Ends F (SameClient l.client) IsSettled (m l) (λ _. pure tt) k
        λ a l1 e. settled a l l1 h e

  asks_settled :
      {A : Type 0} (a : A) (words : List Bytes) (f : Option Reply → A) (l : Link S)
      → l.client.connected ≡ l.client.conn
      → Ends F
          (SameClient l.client)
          (if_connected w a (redis_command w words >>= λ r. pure (f r)) l)
  asks_settled a words f l h =
      if_connected-Keeps w F a (redis_command w words >>= λ r. pure (f r)) (asks-Keeps w F words f)
        l h

  tells_settled :
      (answer : Bool) (words : List Bytes) (l : Link S)
      → l.client.connected ≡ l.client.conn
      → Ends F (SameClient l.client) (if_connected w answer (tell w words >> pure true) l)
  tells_settled answer words l h =
      if_connected-Keeps w F answer (tell w words >> pure true)
        (>>=-Keeps F (tell w words) (λ _. pure true) (tell-Keeps w F words)
          (λ _. pure-Keeps F true))
        l h

  tells_twice_settled :
      (answer : Bool) (first second : List Bytes) (l : Link S)
      → l.client.connected ≡ l.client.conn
      → Ends F
          (SameClient l.client)
          (if_connected w answer (tell w first >> (tell w second >> pure true)) l)
  tells_twice_settled answer first second l h =
      if_connected-Keeps w F answer (tell w first >> (tell w second >> pure true))
        (>>=-Keeps F (tell w first) (λ _. tell w second >> pure true) (tell-Keeps w F first)
          λ _.
            >>=-Keeps F (tell w second) (λ _. pure true) (tell-Keeps w F second)
              (λ _. pure-Keeps F true))
        l h

  write_back-Keeps : (id : Bytes) (o : Option Bytes) → Keeps F (write_back w id o)
  write_back-Keeps id none l h = refl
  write_back-Keeps id (some json) l h = tell-Keeps w F _ l h

  renew-Keeps : (now id : Bytes) (reply : Option Reply) → Keeps F (renew w now id reply)
  unfolding renew_heartbeat
  renew-Keeps now id none l h = refl
  renew-Keeps now id (some (string json)) l h = write_back-Keeps id _ l h
  renew-Keeps now id (some (status b)) l h = refl
  renew-Keeps now id (some (error b)) l h = refl
  renew-Keeps now id (some (integer n)) l h = refl
  renew-Keeps now id (some nil) l h = refl
  renew-Keeps now id (some (array rs)) l h = refl

  renews_settled :
      (words : List Bytes) (now id : Bytes) (l : Link S)
      → l.client.connected ≡ l.client.conn
      → Ends F
          (SameClient l.client)
          (if_connected w false (redis_command w words >>= λ r. (renew w now id r >> pure true)) l)
  renews_settled words now id l h =
      if_connected-Keeps w F false (redis_command w words >>= λ r. (renew w now id r >> pure true))
        (>>=-Keeps F (redis_command w words) (λ r. renew w now id r >> pure true)
          (redis_command-Keeps w F words)
          λ r.
            >>=-Keeps F (renew w now id r) (λ _. pure true) (renew-Keeps now id r)
              (λ _. pure-Keeps F true))
        l h

  sent-Keeps :
      (b : Bool) (words : List Bytes) (l : Link S)
      → l.client.conn ≡ b
      → Ends F (SameClient l.client) (sent w b words l)
  sent-Keeps false words l h = refl
  sent-Keeps true words l h = asks-Keeps w F words _ l h

  subscribed-IsSettled :
      (b : Bool) (node : Bytes) (l : Link S)
      → l.client.connected ≡ l.client.conn
      → IsSettled tt (subscribed w b node l).1
  subscribed-IsSettled false node l h = h
  subscribed-IsSettled true node l h = h

module _ {S : Type 0} (w : Server S) where
  asked_any :
      (b : Bool) (words : List Bytes) (l : Link S)
      → Ends (Unit {0}) (SameClient l.client) (asked w b words l)
  asked_any true words l = refl
  asked_any false words l = tt

  unguarded_settled :
      {A : Type 0} (words : List Bytes) (f : Option Reply → A) (l : Link S)
      → Ends (Unit {0}) (SameClient l.client) ((redis_command w words >>= λ r. pure (f r)) l)
  unguarded_settled words f l =
      continue-Ends (Unit {0}) (SameClient l.client) (SameClient l.client) (redis_command w words l)
        (λ r. pure (f r)) (asked_any l.client.conn words l) (λ a l1 e. e)

  piped_settled :
      (answer : Bool) (first second : List Bytes) (rest : Run S Bool) (l : Link S)
      → Keeps (Unit {0}) rest
      → l.client.connected ≡ l.client.conn
      → Ends
          (Unit {0})
          (SameClient l.client)
          (if_connected w answer (pipeline w first second >> rest) l)
  piped_settled answer first second rest l k h =
      if_connected-Keeps w (Unit {0}) answer (pipeline w first second >> rest)
        (>>=-Keeps (Unit {0}) (pipeline w first second) (λ _. rest) (pipeline-Keeps w first second)
          (λ _. k))
        l h

  ids_returned-Keeps : (o : Option (List ℕ)) → Keeps (Unit {0}) (ids_returned w o)
  ids_returned-Keeps none l h = tt
  ids_returned-Keeps (some ids) l h = refl

  scans_settled :
      (words : List Bytes) (f : Option Reply → Option (List ℕ)) (l : Link S)
      → l.client.connected ≡ l.client.conn
      → Ends
          (Unit {0})
          (SameClient l.client)
          (if_connected w [] (redis_command w words >>= λ r. ids_returned w (f r)) l)
  scans_settled words f l h =
      if_connected-Keeps w (Unit {0}) [] (redis_command w words >>= λ r. ids_returned w (f r))
        (>>=-Keeps (Unit {0}) (redis_command w words) (λ r. ids_returned w (f r))
          (redis_command-Keeps w (Unit {0}) words) (λ r. ids_returned-Keeps (f r)))
        l h

  returned-IsSettled :
      (o : Option (List Command)) (l : Link S)
      → l.client.connected ≡ l.client.conn
      → Ends (Unit {0}) IsSettled (returned w o l)
  returned-IsSettled none l h = tt
  returned-IsSettled (some cs) l h = h

  consumed-IsSettled :
      (now : ℕ) (stale : ℕ × ℕ) (reply : Option Reply) (l : Link S)
      → l.client.connected ≡ l.client.conn
      → Ends (Unit {0}) IsSettled (consumed w now stale reply l)
  unfolding reconnect connect disconnect
  consumed-IsSettled now stale none l h =
      continue-Ends (Unit {0}) Settles IsSettled (reconnect w l) (λ _. pure [])
        (reconnect-Settles w (Unit {0}) l) (λ b l1 e. e.0 ∙ sym e.1)
  consumed-IsSettled now stale (some reply) l h = returned-IsSettled _ l h

  consume_if :
      (b : Bool) (now : ℕ) (stale : ℕ × ℕ) (words : List Bytes) (l : Link S)
      → l.client.connected ≡ l.client.conn
      → Ends
          (Unit {0})
          IsSettled
          (guarded w b [] (redis_command w words >>= λ r. consumed w now stale r) l)
  consume_if false now stale words l h = h
  consume_if true now stale words l h =
      continue-Ends (Unit {0}) (SameClient l.client) IsSettled (redis_command w words l)
        (λ r. consumed w now stale r) (asked_any l.client.conn words l)
        (λ r l1 e. consumed-IsSettled now stale r l1 (settled w (Unit {0}) r l l1 h e))

  -- From a client that counts as connected exactly where it has a context, every method leads to such a
  -- client where it returns, whatever Redis answers, and also where connecting fails or the password is
  -- refused. And it returns, except that five methods may meet an answer that is out of shape, no number
  -- or freed twice, and the two listings have no guard.
  pub perform-IsSettled :
      (call : Call) (l : Link S)
      → l.client.connected ≡ l.client.conn
      → Ends (MayFail call) IsSettled (perform w call l)
  unfolding perform MayFail disconnect init_consumer_group consume_commands ack_command
      pending_count publish_command stream_length mark_command_failed get_command_status
      register_device unregister_device get_device_gateway get_all_devices device_count
      cache_telemetry register_node get_online_nodes get_node_info publish_to_node
      consumer_group_info subscribe_route_channel send_command mark_command_sent
      mark_command_completed send_node_heartbeat scan_timeout_commands update_device_heartbeat
  perform-IsSettled connects l h = dropped_Settles w ⊥ (connect w) l (connect-Settles w ⊥ l h)
  perform-IsSettled reconnects l h = dropped_Settles w ⊥ (reconnect w) l (reconnect-Settles w ⊥ l)
  perform-IsSettled disconnects l h = refl
  perform-IsSettled (subscribes node) l h = subscribed-IsSettled w ⊥ l.client.sub_conn node _ h
  perform-IsSettled (consumes now stale batch block) l h =
      continue-Ends (Unit {0}) IsSettled IsSettled (consume_commands w now stale batch block l)
        (λ _. pure tt) (consume_if l.client.connected now stale _ l h) (λ a l1 e. e)
  perform-IsSettled sets_up l h =
      dropped w ⊥ (init_consumer_group w) l h (asks_settled w ⊥ _ _ _ l h)
  perform-IsSettled (acks a) l h = dropped w ⊥ (ack_command w a) l h (asks_settled w ⊥ _ _ _ l h)
  perform-IsSettled counts_pending l h =
      dropped w ⊥ (pending_count w) l h (asks_settled w ⊥ _ _ _ l h)
  perform-IsSettled (publishes a b) l h =
      dropped w ⊥ (publish_command w a b) l h (asks_settled w ⊥ _ _ _ l h)
  perform-IsSettled measures l h = dropped w ⊥ (stream_length w) l h (asks_settled w ⊥ _ _ _ l h)
  perform-IsSettled (asks_status a) l h =
      dropped w ⊥ (get_command_status w a) l h (asks_settled w ⊥ _ _ _ l h)
  perform-IsSettled (finds_device a) l h =
      dropped w ⊥ (get_device_gateway w a) l h (asks_settled w ⊥ _ _ _ l h)
  perform-IsSettled counts_devices l h =
      dropped w ⊥ (device_count w) l h (asks_settled w ⊥ _ _ _ l h)
  perform-IsSettled (asks_node a) l h =
      dropped w ⊥ (get_node_info w a) l h (asks_settled w ⊥ _ _ _ l h)
  perform-IsSettled (routes a b) l h =
      dropped w ⊥ (publish_to_node w a b) l h (asks_settled w ⊥ _ _ _ l h)
  perform-IsSettled asks_groups l h =
      dropped w ⊥ (consumer_group_info w) l h (asks_settled w ⊥ _ _ _ l h)
  perform-IsSettled lists_devices l h =
      dropped w (Unit {0}) (get_all_devices w) l h (unguarded_settled _ _ l)
  perform-IsSettled lists_nodes l h =
      dropped w (Unit {0}) (get_online_nodes w) l h (unguarded_settled _ _ l)
  perform-IsSettled (registers_device a b c d) l h =
      dropped w ⊥ (register_device w a b c d) l h (tells_settled w ⊥ _ _ l h)
  perform-IsSettled (registers_node a b c d e) l h =
      dropped w ⊥ (register_node w a b c d e) l h (tells_settled w ⊥ _ _ l h)
  perform-IsSettled (marks_failed a b) l h =
      dropped w ⊥ (mark_command_failed w a b) l h (tells_twice_settled w ⊥ _ _ _ l h)
  perform-IsSettled (unregisters_device a) l h =
      dropped w ⊥ (unregister_device w a) l h (tells_twice_settled w ⊥ _ _ _ l h)
  perform-IsSettled (caches a b c) l h =
      dropped w ⊥ (cache_telemetry w a b c) l h (tells_twice_settled w ⊥ _ _ _ l h)
  perform-IsSettled (marks_sent a b) l h =
      dropped w (Unit {0}) (mark_command_sent w a b) l h
        (piped_settled true _ _ (pure true) l (pure-Keeps (Unit {0}) true) h)
  perform-IsSettled (sends_heartbeat a) l h =
      dropped w (Unit {0}) (send_node_heartbeat w a) l h
        (piped_settled false _ _ (pure true) l (pure-Keeps (Unit {0}) true) h)
  perform-IsSettled (marks_completed a b) l h =
      dropped w (Unit {0}) (mark_command_completed w a b) l h (
        piped_settled true _ _ _ l
          (>>=-Keeps (Unit {0}) _ (λ _. pure true) (tell-Keeps w (Unit {0}) _)
            (λ _. pure-Keeps (Unit {0}) true))
          h)
  perform-IsSettled (scans a b) l h =
      dropped w (Unit {0}) (scan_timeout_commands w a b) l h (scans_settled _ _ l h)
  perform-IsSettled (beats a b) l h =
      dropped w ⊥ (update_device_heartbeat w a b) l h (renews_settled w ⊥ _ _ b l h)
  perform-IsSettled (sends a) l h =
      dropped w ⊥ (send_command w a) l h (sent-Keeps w ⊥ l.client.conn a l refl)
