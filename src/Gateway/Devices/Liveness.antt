-- ===== src/Gateway/Devices/Liveness.antt =====
-- DeviceManager::checkHeartbeatTimeout and getSubscribers.
use iot_distributed_gateway.Common.{
  ℕ, ◌*◌, ◌-◌, ltb, bytes_eq, Bytes, bytes_test, bytes_test_iff, List, [], ◌∷◌, Bool, true, false,
  ◌||◌, ◌==◌, Option, none, some, if◌then◌else◌, arith, ◌≡◌, refl, ◌∙◌, Bool-cases, Option-cases,
  inl, inr,
}
use iot_distributed_gateway.Common.Dict.{lookup, distinct, lookup-erase}
use iot_distributed_gateway.Common.StringSet.{contains}
use iot_distributed_gateway.Common.Multimap.{members}
use iot_distributed_gateway.Gateway.Devices.{
  DeviceManager, DeviceInfo, device_offline_locked, check_heartbeat_timeout, overdue, drop_devices,
  is_overdue, is_online, find_device, connections, get_subscribers, online_connection, pushed,
}
use iot_distributed_gateway.Gateway.Devices.Subscriptions.{IsValid}

lookup-drop_devices :
    (ids : List Bytes) (id : Bytes) (m : DeviceManager)
    → lookup id (drop_devices ids m).devices
      ≡ (if contains id ids then none else lookup id m.devices)
unfolding drop_devices contains device_offline_locked
lookup-drop_devices [] id m = refl
lookup-drop_devices (x ∷ ids) id m =
    lookup-drop_devices ids id (device_offline_locked x m)
    ∙ (ground (arith, bytes_test_iff x id, lookup-erase x id m.devices))

-- More than one and a half keep-alive intervals, in microseconds, since the last heartbeat.
abbrev pub late : ℕ → Option DeviceInfo → Bool
late now none = false
late now (some info) = ltb (3 * (info.keep_alive * 1000000)) (2 * (now - info.last_heartbeat))

is_overdue_lem : (now : ℕ) (info : DeviceInfo) → is_overdue now info ≡ late now (some info)
unfolding is_overdue
is_overdue_lem now info = ground arith

contains-overdue :
    (now : ℕ) (id : Bytes) (devices : List (Bytes × DeviceInfo))
    → distinct devices ≡ true
    → contains id (overdue now devices) ≡ late now (lookup id devices)
unfolding overdue contains distinct lookup
contains-overdue now id [] h = refl
contains-overdue now id ((j, info) ∷ rest) h =
    ground (arith, bytes_test_iff j id, contains-overdue now id rest, is_overdue_lem now info)

-- A check drops the devices that are overdue and no other, and answers exactly their names.
pub check_heartbeat_timeout_lem :
    (linked : Bool) (now : ℕ) (id : Bytes) (m : DeviceManager)
    → IsValid m
    → (contains id (check_heartbeat_timeout linked now m).1 ≡ late now (lookup id m.devices))
      × (lookup id (check_heartbeat_timeout linked now m).0.0.devices
          ≡ (if late now (lookup id m.devices) then none else lookup id m.devices))
unfolding check_heartbeat_timeout
check_heartbeat_timeout_lem linked now id m v =
    let e = contains-overdue now id m.devices v.distinct_ids in
    (e, lookup-drop_devices (overdue now m.devices) id m ∙ rw e refl)

abbrev pub member : ℕ → List ℕ → Bool
member c [] = false
member c (d ∷ ds) = d == c || member c ds

abbrev is : Option ℕ → ℕ → Bool
is none c = false
is (some d) c = d == c

-- What it is for a publish to reach a connection: it is a subscriber's and it is up.
pub record Reaches (up : ℕ → Bool) (ids : List Bytes) (m : DeviceManager) (c : ℕ) : Type 0 where
  pub id : Bytes
  pub info : DeviceInfo
  pub is_subscribed : contains id ids ≡ true
  pub is_known : lookup id m.devices ≡ some info
  pub is_its : info.connection ≡ some c
  pub is_up : up c ≡ true

online_connection_lem :
    (up : ℕ → Bool) (id : Bytes) (m : DeviceManager) (c : ℕ)
    → is (online_connection up id m) c ≡ true
    → (info : DeviceInfo) × (lookup id m.devices ≡ some info)
      × (info.connection ≡ some c)
      × (up c ≡ true)
unfolding online_connection find_device is_online
online_connection_lem up id m c h = elim (Option-cases (lookup id m.devices)) [
  | inl e ↦ absurd (cc (rw e at h))
  | inr (info, e) ↦ (info, e, ground arith, ground arith)
]

connection_found :
    (up : ℕ → Bool) (id : Bytes) (m : DeviceManager) (info : DeviceInfo) (c : ℕ)
    → lookup id m.devices ≡ some info
    → info.connection ≡ some c
    → up c ≡ true
    → online_connection up id m ≡ some c
unfolding online_connection find_device is_online
connection_found up id m info c e f u = ground arith

member-pushed :
    (o : Option ℕ) (c : ℕ) (cs : List ℕ) → member c (pushed o cs) ≡ (is o c || member c cs)
member-pushed none c cs = refl
member-pushed (some d) c cs = refl

connections-Reaches :
    (up : ℕ → Bool) (ids : List Bytes) (m : DeviceManager) (c : ℕ)
    → member c (connections up ids m) ≡ true
    → Reaches up ids m c
unfolding connections contains
connections-Reaches up [] m c h = absurd (cc)
connections-Reaches up (x ∷ ids) m c h = elim (Bool-cases (is (online_connection up x m) c)) [
  | inl e ↦
      let (info, k, f, u) = online_connection_lem up x m c e in
      record {
        id = x;
        info = info;
        is_subscribed = ground (arith, bytes_test_iff x x);
        is_known = k;
        is_its = f;
        is_up = u;
      }
  | inr e ↦
      let r =
        connections-Reaches up ids m c
          (ground (arith, member-pushed (online_connection up x m) c (connections up ids m))) in
      record {
        id = r.id;
        info = r.info;
        is_subscribed = ground (arith, r.is_subscribed);
        is_known = r.is_known;
        is_its = r.is_its;
        is_up = r.is_up;
      }
]

Reaches-connections :
    (up : ℕ → Bool) (ids : List Bytes) (m : DeviceManager) (c : ℕ)
    → Reaches up ids m c
    → member c (connections up ids m) ≡ true
unfolding connections contains
Reaches-connections up [] m c r = absurd (cc (r.is_subscribed))
Reaches-connections up (x ∷ ids) m c r =
    member-pushed (online_connection up x m) c (connections up ids m)
    ∙ (elim (Bool-cases (bytes_test x r.id)) [
      | inl same ↦
          let k = connection_found up r.id m r.info c r.is_known r.is_its r.is_up in
          ground (arith, bytes_test_iff x r.id)
      | inr other ↦
          let k = Reaches-connections up ids m c (record {
            id = r.id;
            info = r.info;
            is_subscribed = ground (arith, r.is_subscribed);
            is_known = r.is_known;
            is_its = r.is_its;
            is_up = r.is_up;
          }) in
          ground arith
    ])

-- getSubscribers answers exactly the connections that are up of the devices in the topic's set.
pub get_subscribers_lem :
    (up : ℕ → Bool) (topic : Bytes) (m : DeviceManager) (c : ℕ)
    → (member c (get_subscribers up topic m) ≡ true
        → Reaches up (members topic m.topic_subscribers) m c)
      × (Reaches up (members topic m.topic_subscribers) m c
          → member c (get_subscribers up topic m) ≡ true)
unfolding get_subscribers
get_subscribers_lem up topic m c =
    let ids = members topic m.topic_subscribers in
    (connections-Reaches up ids m c, Reaches-connections up ids m c)
