-- ===== src/Gateway/Devices/Subscriptions.antt =====
-- DeviceManager's two subscription maps: the topics of a device, and the devices of a topic.
use iot_distributed_gateway.Common.{
  ℕ, bytes_eq, Bytes, bytes_test, bytes_test_iff, List, [], ◌∷◌, Bool, true, not, ◌&&◌, none,
  if◌then◌else◌, arith, ◌≡◌, refl, sym, ap, ◌∙◌, Option-cases, inl, inr,
}
use iot_distributed_gateway.Common.Dict.{
  lookup, distinct, distinct-insert, distinct-erase, lookup-erase,
}
use iot_distributed_gateway.Common.StringSet.{contains}
use iot_distributed_gateway.Common.Multimap.{
  Multimap, members, has, cut, has-put, has-cut, has-erase,
}
use iot_distributed_gateway.Gateway.Devices.{
  DeviceManager, cut_all, device_offline_locked, device_online, device_offline, update_heartbeat,
  subscribe, unsubscribe, new, check_heartbeat_timeout, overdue, drop_devices,
}

-- A device is in a topic's set exactly where the topic is in the device's set, and no device stands
-- twice.
pub record IsValid (m : DeviceManager) : Type 0 where
  pub mirrors : (id topic : Bytes) → has topic id m.topic_subscribers ≡ has id topic m.subscriptions
  pub distinct_ids : distinct m.devices ≡ true

cut_all_lem :
    (id topic other : Bytes) (topics : List Bytes) (m : Multimap)
    → has topic other (cut_all id topics m)
      ≡ (not (bytes_test id other && contains topic topics) && has topic other m)
unfolding cut_all contains
cut_all_lem id topic other [] m = ground arith
cut_all_lem id topic other (t ∷ topics) m =
    ground (arith, cut_all_lem id topic other topics (cut t id m), has-cut t id topic other m)

pub device_offline_locked-IsValid :
    (id : Bytes) (m : DeviceManager) → IsValid m → IsValid (device_offline_locked id m)
unfolding device_offline_locked
device_offline_locked-IsValid id m v = record {
  mirrors = λ other topic. ground (
    arith,
    bytes_test_iff id other,
    cut_all_lem id topic other (members id m.subscriptions) m.topic_subscribers,
    has-erase id other topic m.subscriptions,
    v.mirrors other topic,
    v.mirrors id topic,
  );
  distinct_ids = distinct-erase id m.devices v.distinct_ids;
}

subscribe-IsValid :
    (id topic : Bytes) (m : DeviceManager) → IsValid m → IsValid (subscribe id topic m)
unfolding subscribe
subscribe-IsValid id topic m v = record {
  mirrors = λ i t. ground (
    arith,
    has-put id topic i t m.subscriptions,
    has-put topic id t i m.topic_subscribers,
    v.mirrors i t,
  );
  distinct_ids = v.distinct_ids;
}

unsubscribe-IsValid :
    (id topic : Bytes) (m : DeviceManager) → IsValid m → IsValid (unsubscribe id topic m)
unfolding unsubscribe
unsubscribe-IsValid id topic m v = record {
  mirrors = λ i t. ground (
    arith,
    has-cut id topic i t m.subscriptions,
    has-cut topic id t i m.topic_subscribers,
    v.mirrors i t,
  );
  distinct_ids = v.distinct_ids;
}

pub drop_devices-IsValid :
    (ids : List Bytes) (m : DeviceManager) → IsValid m → IsValid (drop_devices ids m)
unfolding drop_devices
drop_devices-IsValid [] m v = v
drop_devices-IsValid (id ∷ ids) m v =
    drop_devices-IsValid ids (device_offline_locked id m) (device_offline_locked-IsValid id m v)

-- Every call that changes the manager.
pub data Operation : Type 0 where
  onlines : Bool → ℕ → Bytes → ℕ → ℕ → Bytes → Bytes → Bytes → Operation
  offlines : Bool → Bytes → Operation
  beats : Bool → ℕ → Bytes → Operation
  subscribes unsubscribes : Bytes → Bytes → Operation
  checks : Bool → ℕ → Operation

unfoldable pub perform : Operation → DeviceManager → DeviceManager
perform (onlines l now id conn ka u t f) m = (device_online l now id conn ka u t f m).0
perform (offlines l id) m = (device_offline l id m).0
perform (beats l now id) m = (update_heartbeat l now id m).0
perform (subscribes id topic) m = subscribe id topic m
perform (unsubscribes id topic) m = unsubscribe id topic m
perform (checks l now) m = (check_heartbeat_timeout l now m).0.0

update_heartbeat-IsValid :
    (l : Bool) (now : ℕ) (id : Bytes) (m : DeviceManager)
    → IsValid m
    → IsValid (update_heartbeat l now id m).0
unfolding update_heartbeat
update_heartbeat-IsValid l now id m v = elim (Option-cases (lookup id m.devices)) [
  | inl e ↦ rw e v
  | inr (info, e) ↦ rw e (record {
    mirrors = v.mirrors;
    distinct_ids =
        distinct-insert id (record info { last_heartbeat = now }) m.devices v.distinct_ids;
  })
]

-- Every call keeps the two maps mutually inverse and the identifiers distinct.
pub perform-IsValid : (o : Operation) (m : DeviceManager) → IsValid m → IsValid (perform o m)
unfolding perform device_online device_offline check_heartbeat_timeout
perform-IsValid (onlines l now id conn ka u t f) m v = record {
  mirrors = v.mirrors;
  distinct_ids = distinct-insert id _ m.devices v.distinct_ids;
}
perform-IsValid (offlines l id) m v = device_offline_locked-IsValid id m v
perform-IsValid (beats l now id) m v = update_heartbeat-IsValid l now id m v
perform-IsValid (subscribes id topic) m v = subscribe-IsValid id topic m v
perform-IsValid (unsubscribes id topic) m v = unsubscribe-IsValid id topic m v
perform-IsValid (checks l now) m v = drop_devices-IsValid (overdue now m.devices) m v

pub new-IsValid : (node : Bytes) → IsValid (new node)
unfolding new distinct lookup contains
new-IsValid node = record { mirrors = λ id topic. refl; distinct_ids = refl }

-- deviceOffline leaves no trace of the device in any map, and changes nothing of the others.
device_offline_locked_lem :
    (id other topic : Bytes) (m : DeviceManager)
    → IsValid m
    → (lookup other (device_offline_locked id m).devices
        ≡ (if bytes_test id other then none else lookup other m.devices))
      × (has other topic (device_offline_locked id m).subscriptions
          ≡ (not (bytes_test id other) && has other topic m.subscriptions))
      × (has topic other (device_offline_locked id m).topic_subscribers
          ≡ (not (bytes_test id other) && has topic other m.topic_subscribers))
unfolding device_offline_locked
device_offline_locked_lem id other topic m v =
    let w = device_offline_locked-IsValid id m v in
    (
      lookup-erase id other m.devices,
      has-erase id other topic m.subscriptions,
      (w.mirrors other topic
          ∙ has-erase id other topic m.subscriptions
          ∙ ap (λ (t : Bool). not (bytes_test id other) && t) (sym (v.mirrors other topic))),
    )
