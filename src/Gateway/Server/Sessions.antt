-- ===== src/Gateway/Server/Sessions.antt =====
-- GatewayServer's handlers: the devices after them, and the messages that they send.
use iot_distributed_gateway.Common.{
  ℕ, suc, ◌≡◌, ◌≢◌, refl, ap, ◌∙◌, nat_eq, bytes_eq, Bytes, List, [], ◌∷◌, ◌++◌, Bool, true, false,
  ◌⊎◌, Option, none, some, ◌==◌, if◌then◌else◌, arith, Bool-cases, Option-cases, inl, inr,
  replicate, append-nil,
}
use iot_distributed_gateway.Common.Dict.{lookup, insert, lookup-insert, lookup-erase_same}
use iot_distributed_gateway.Net.Buffer.{Buffer, view, initial_size}
use iot_distributed_gateway.Net.Buffer
use iot_distributed_gateway.Protocol.Types.{QoS, ConnectPayload, TopicFilter}
use iot_distributed_gateway.Protocol.Codec.{Event, encode_publish, encode_pub_ack}
use iot_distributed_gateway.Gateway.Devices.{
  DeviceManager, subscribe, device_online, device_offline, device_offline_locked, get_subscribers,
}
use iot_distributed_gateway.Gateway.Devices.Subscriptions.{
  IsValid, Operation, perform, perform-IsValid,
}
use iot_distributed_gateway.Gateway.Server.{
  Server, Action, cache_telemetry, sends, Env, Step, react, on_connection, handle_connect,
  handle_publish, handle_subscribe, handle_ping_req, on_disconnect, subscribe_all, forward,
  pub_ack_for, start_heartbeat_check,
}

subscribe_all-IsValid :
    (id : Bytes) (fs : List TopicFilter) (m : DeviceManager)
    → IsValid m
    → IsValid (subscribe_all id fs m)
unfolding subscribe_all perform
subscribe_all-IsValid id [] m v = v
subscribe_all-IsValid id (f ∷ fs) m v =
    subscribe_all-IsValid id fs (subscribe id f.topic m)
      (perform-IsValid (Operation.subscribes id f.topic) m v)

handle_connect-IsValid :
    (env : Env) (conn : ℕ) (p : ConnectPayload) (s : Server)
    → IsValid s.devices
    → IsValid (handle_connect env conn p s).0.devices
unfolding handle_connect perform
handle_connect-IsValid env conn p s v =
    perform-IsValid
      (Operation.onlines env.linked env.now p.client_id conn p.keep_alive p.username [] [])
      s.devices v

handle_subscribe-IsValid :
    (conn id : ℕ) (fs : List TopicFilter) (s : Server)
    → IsValid s.devices
    → IsValid (handle_subscribe conn id fs s).0.devices
unfolding handle_subscribe
handle_subscribe-IsValid conn id fs s v = elim (Option-cases (lookup conn s.client_map)) [
  | inl e ↦ rw e v
  | inr (client, e) ↦ rw e (subscribe_all-IsValid client fs s.devices v)
]

handle_ping_req-IsValid :
    (env : Env) (conn : ℕ) (s : Server)
    → IsValid s.devices
    → IsValid (handle_ping_req env conn s).0.devices
unfolding handle_ping_req perform
handle_ping_req-IsValid env conn s v = elim (Option-cases (lookup conn s.client_map)) [
  | inl e ↦ rw e v
  | inr (client, e) ↦ rw e (perform-IsValid (Operation.beats env.linked env.now client) s.devices v)
]

on_disconnect-IsValid :
    (env : Env) (conn : ℕ) (s : Server)
    → IsValid s.devices
    → IsValid (on_disconnect env conn s).0.devices
unfolding on_disconnect perform
on_disconnect-IsValid env conn s v = elim (Option-cases (lookup conn s.client_map)) [
  | inl e ↦ rw e v
  | inr (client, e) ↦ rw e (perform-IsValid (Operation.offlines env.linked client) s.devices v)
]

-- What the network and the timer do to the server.
pub data Input : Type 0 where
  packet : ℕ → Option Event → Input
  changed : ℕ → Input
  ticks : Input

unfoldable pub feed : Env → Input → Server → Step
feed env (packet conn e) s = react env conn e s
feed env (changed conn) s = on_connection env conn s
feed env ticks s = start_heartbeat_check env s

on_connection-IsValid :
    (env : Env) (conn : ℕ) (s : Server)
    → IsValid s.devices
    → IsValid (on_connection env conn s).0.devices
unfolding on_connection on_disconnect
on_connection-IsValid env conn s v = elim (Bool-cases (env.up conn)) [
  | inl e ↦ rw e v
  | inr e ↦ rw e (on_disconnect-IsValid env conn s v)
]

-- Whatever packets, connections and timers come, the device manager stays valid.
feed-IsValid :
    (env : Env) (i : Input) (s : Server) → IsValid s.devices → IsValid (feed env i s).0.devices
unfolding feed react handle_publish start_heartbeat_check perform
feed-IsValid env (packet conn none) s v = v
feed-IsValid env (packet conn (some (Event.connect_cb p))) s v =
    handle_connect-IsValid env conn p s v
feed-IsValid env (packet conn (some (Event.publish_cb t m q r id))) s v = v
feed-IsValid env (packet conn (some (Event.subscribe_cb id fs))) s v =
    handle_subscribe-IsValid conn id fs s v
feed-IsValid env (packet conn (some Event.pingreq_cb)) s v = handle_ping_req-IsValid env conn s v
feed-IsValid env (packet conn (some Event.disconnect_cb)) s v = on_disconnect-IsValid env conn s v
feed-IsValid env (packet conn (some (Event.puback_cb id))) s v = v
feed-IsValid env (changed conn) s v = on_connection-IsValid env conn s v
feed-IsValid env ticks s v = perform-IsValid (Operation.checks env.linked env.now) s.devices v

-- The messages that actions send to a connection, in order.
abbrev pub messages : ℕ → List Action → List Bytes
messages c [] = []
messages c (sends d bs ∷ acts) = if d == c then bs ∷ messages c acts else messages c acts
messages c (_ ∷ acts) = messages c acts

abbrev pub count : ℕ → List ℕ → ℕ
count c [] = 0
count c (d ∷ ds) = if d == c then suc (count c ds) else count c ds

messages-append :
    (c : ℕ) (xs ys : List Action) → messages c (xs ++ ys) ≡ messages c xs ++ messages c ys
messages-append c [] ys = refl
messages-append c (sends d bs ∷ xs) ys = ground (arith, messages-append c xs ys)
messages-append c (_ ∷ xs) ys = messages-append c xs ys

-- The packet that carries a message to a subscriber.
abbrev pub forwarded : Bytes → Bytes → Bytes
forwarded topic payload =
    view (encode_publish topic payload QoS.at_most_once 0 false (Buffer.new initial_size))

messages-forward :
    (conn c : ℕ) (topic payload : Bytes) (subs : List ℕ)
    → messages c (forward conn topic payload subs)
      ≡ (if conn == c then [] else replicate (count c subs) (forwarded topic payload))
unfolding forward
messages-forward conn c topic payload [] = elim (Bool-cases (conn == c)) [
  | inl e ↦ rw e refl
  | inr e ↦ rw e refl
]
messages-forward conn c topic payload (d ∷ ds) =
    messages-append c (if d == conn then [] else sends d (forwarded topic payload) ∷ [])
      (forward conn topic payload ds)
    ∙ ap
        (λ (rest : List Bytes).
          messages c (if d == conn then [] else sends d (forwarded topic payload) ∷ []) ++ rest)
        (messages-forward conn c topic payload ds)
    ∙ one_more (Bool-cases (d == conn)) (Bool-cases (d == c)) (Bool-cases (conn == c))
  where
    one_more :
        ((d == conn) ≡ true) ⊎ ((d == conn) ≡ false)
        → ((d == c) ≡ true) ⊎ ((d == c) ≡ false)
        → ((conn == c) ≡ true) ⊎ ((conn == c) ≡ false)
        → messages c (if d == conn then [] else sends d (forwarded topic payload) ∷ [])
            ++ (if conn == c then [] else replicate (count c ds) (forwarded topic payload))
          ≡ (if conn == c then [] else replicate (count c (d ∷ ds)) (forwarded topic payload))
    one_more (inl a) (inl b) (inl e) = rw (a, e) refl
    one_more (inl a) (inl b) (inr e) = absurd (ground arith)
    one_more (inl a) (inr b) (inl e) = absurd (ground arith)
    one_more (inl a) (inr b) (inr e) = rw (a, b, e) refl
    one_more (inr a) (inl b) (inl e) = absurd (ground arith)
    one_more (inr a) (inl b) (inr e) = rw (a, b, e) refl
    one_more (inr a) (inr b) (inl e) = rw (a, b, e) refl
    one_more (inr a) (inr b) (inr e) = rw (a, b, e) refl

-- The answer to the publisher.
abbrev pub acks : QoS → ℕ → List Bytes
acks QoS.at_least_once id = view (encode_pub_ack id (Buffer.new initial_size)) ∷ []
acks q id = []

messages-pub_ack_for :
    (qos : QoS) (conn c id : ℕ)
    → messages c (pub_ack_for qos conn id) ≡ (if conn == c then acks qos id else [])
messages-pub_ack_for qos conn c id = ground arith

-- A publish goes once to each connection that getSubscribers lists, at level 0, but never back to the
-- publisher, who gets a PUBACK exactly for level 1.
pub messages-handle_publish :
    (env : Env) (conn c : ℕ) (topic payload : Bytes) (qos : QoS) (retain : Bool) (id : ℕ)
    (s : Server)
    → messages c (handle_publish env conn topic payload qos retain id s).1 ≡ (
        if conn == c
        then acks qos id
        else replicate (count c (get_subscribers env.up topic s.devices)) (forwarded topic payload))
unfolding handle_publish
messages-handle_publish env conn c topic payload qos retain id s =
    let subs = get_subscribers env.up topic s.devices in
    skip env.linked _ _
    ∙ messages-append c (forward conn topic payload subs) (pub_ack_for qos conn id)
    ∙ rw (messages-forward conn c topic payload subs, messages-pub_ack_for qos conn c id)
        (both _ _ (Bool-cases (conn == c)))
  where
    skip :
        (linked : Bool) (client : Bytes) (more : List Action)
        → messages c ((if linked then cache_telemetry client topic payload ∷ [] else []) ++ more)
          ≡ messages c more
    skip true client more = refl
    skip false client more = refl

    both :
        (xs ys : List Bytes)
        → ((conn == c) ≡ true) ⊎ ((conn == c) ≡ false)
        → (if conn == c then [] else xs) ++ (if conn == c then ys else [])
          ≡ (if conn == c then ys else xs)
    both xs ys (inl e) = rw e refl
    both xs ys (inr e) = rw e (append-nil xs)

-- A client that connects again on a new connection while its old one is still open: when the old one
-- is closed, the device is taken off line, although the new one is up.
pub handle_connect-takeover :
    (env : Env) (old fresh : ℕ) (p q : ConnectPayload) (s : Server)
    → old ≢ fresh
    → p.client_id ≡ q.client_id
    → env.up old ≡ false
    → let s' = (handle_connect env fresh q (handle_connect env old p s).0).0 in
      lookup q.client_id (on_connection env old s').0.devices.devices ≡ none
unfolding handle_connect on_connection device_online device_offline device_offline_locked
handle_connect-takeover env old fresh p q s h e down =
    let one = insert old p.client_id s.client_map in
    let found : lookup old (insert fresh q.client_id one) ≡ some p.client_id = ground (
      arith,
      lookup-insert fresh old q.client_id one,
      lookup-insert old old p.client_id s.client_map,
    ) in
    rw (down, on_connection) (rw found (rw e (lookup-erase_same q.client_id _)))
